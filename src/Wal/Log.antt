-- ===== src/Wal/Log.antt =====
-- `Wal` of wal.rs: the log file, the checkpoint file and the next LSN. Input and output succeed in
-- the model; what a crash leaves of a write is a matter of the theorems that cut the file.
pub mod Frames
pub mod Commits
pub mod Append
pub mod Crash
pub mod Rounds
use chu_sql.Base.{
  ℕ, zero, suc, ◌+◌, ◌-◌, ◌^◌, Bool, true, false, Option, none, some, List, [], ◌∷◌, ◌++◌, length,
  filter, find, ltb, leb, ◌==◌, not, min, max, if◌then◌else◌, Result, ok, err, ◌>>=◌, unwrap_or,
  option_map, map,
}
use chu_sql.Base.Bytes.{Bytes, slice}
use chu_sql.Base.Le.{to_le, of_le}
use chu_sql.Page.{zeros}
use chu_sql.Wal.Op.{WalOp, commit, is_commit, Serde}
use chu_sql.Wal.Codec.{
  WalError, bad_checkpoint, lsn_exhausted, out_of_fuel, encode, decode_body, part,
}

-- `Frame`: LSN, operation, first byte and the byte behind the last.
pub record Frame (V R : Type 0) : Type 0 where
  pub lsn : ℕ
  pub op : WalOp V R
  pub start : ℕ
  pub stop : ℕ

-- `WalScan`
pub record WalScan (V R : Type 0) : Type 0 where
  pub records : List (ℕ × WalOp V R)
  pub good_len : ℕ

pub record Wal : Type 0 where
  pub log : Option Bytes
  pub checkpoint : Option Bytes
  pub next_lsn : ℕ

-- `Wal::new` on the files that exist
unfoldable pub new : Option Bytes → Option Bytes → Wal
new log checkpoint = record { log = log; checkpoint = checkpoint; next_lsn = 0 }

-- A method that may fail keeps what it did to the log before it failed.
abbrev pub Exec : Type 0 → Type 0
Exec A = Wal → Result WalError A × Wal

abbrev pub continue : {A B : Type 0} → Result WalError A → (A → Exec B) → Exec B
continue (ok a) f w = f a w
continue (err e) f w = (err e, w)

abbrev pub bind : {A B : Type 0} → Exec A → (A → Exec B) → Exec B
bind m f w = let (r, w') = m w in continue r f w'

-- `Wal::write_at_end`
unfoldable pub write_at_end : Bytes → Exec (Unit {0})
write_at_end bytes w = (ok tt, record w { log = some (unwrap_or w.log [] ++ bytes) })

-- `Wal::clear`, and `Wal::truncate`, which only leaves the sync to the next write
unfoldable pub clear : Exec (Unit {0})
clear w = (ok tt, record w { log = some [] })

-- `set_len`: a shorter file is extended by zeros.
abbrev pub set_len : ℕ → Bytes → Bytes
set_len zero bs = []
set_len (suc n) [] = 0 ∷ set_len n []
set_len (suc n) (b ∷ bs) = b ∷ set_len n bs

-- `Wal::truncate_to`
unfoldable pub truncate_to : ℕ → Exec (Unit {0})
truncate_to len w = (ok tt, record w { log = some (set_len len (unwrap_or w.log [])) })

-- `Wal::rewrite_tail`: the file becomes its bytes `[start, end)`, or empty if there are none.
unfoldable pub rewrite_tail : ℕ → ℕ → Exec (Unit {0})
rewrite_tail start end w =
    (ok tt, record w { log = some (part start (end - start) (unwrap_or w.log [])) })

-- `Wal::write_checkpoint`
unfoldable pub write_checkpoint : ℕ → Exec (Unit {0})
write_checkpoint lsn w = (ok tt, record w { checkpoint = some (to_le 8 lsn) })

-- `Wal::read_checkpoint`
unfoldable pub read_checkpoint : Wal → Result WalError (Option ℕ)
read_checkpoint w = elim w.checkpoint [
  | none ↦ ok none
  | some bytes ↦ if length bytes == 8 then ok (some (of_le bytes)) else err bad_checkpoint
]

-- `committed_ops`: every group before its commit mark, and a lone record with no mark behind it.
module _ {V R : Type 0} where
  committed_loop :
      List (ℕ × WalOp V R) → List (ℕ × WalOp V R) → List (ℕ × WalOp V R) → List (ℕ × WalOp V R)
  committed_loop [] out (r ∷ []) = out ++ r ∷ []
  committed_loop [] out pending = out
  committed_loop ((lsn, op) ∷ rs) out pending =
      if is_commit op
      then committed_loop rs (out ++ pending) []
      else committed_loop rs out (pending ++ (lsn, op) ∷ [])

  unfoldable pub committed_ops : List (ℕ × WalOp V R) → List (ℕ × WalOp V R)
  unfolding committed_loop
  committed_ops records = committed_loop records [] []

  -- `records_after`
  unfoldable pub records_after : List (ℕ × WalOp V R) → ℕ → List (ℕ × WalOp V R)
  records_after records checkpoint = filter (λ r. ltb checkpoint r.0) records

module _ (S : Serde) where
  abbrev pub SFrame : Type 0
  SFrame = Frame S.Value S.Row

  -- The loop of `Wal::parse`, from byte `offset` on. Each round takes four bytes at least, so
  -- `length buf + 1` rounds are enough.
  unfoldable pub parse_loop : ℕ → Bytes → ℕ → Result WalError (List SFrame × ℕ)
  parse_loop zero buf offset = err out_of_fuel
  parse_loop (suc fuel) buf offset =
      let body_len = of_le (part offset 4 buf) in
      let end = offset + 4 + body_len in
      let rest = parse_loop fuel buf end in
      if ltb (length buf) (offset + 4)
      then ok ([], offset)
      else if ltb (length buf) end
      then ok ([], offset)
      else do
        (lsn, op) ← decode_body S (part (offset + 4) body_len buf)
        (frames, good_len) ← rest
        ok (record { lsn = lsn; op = op; start = offset; stop = end } ∷ frames, good_len)

  -- `Wal::parse`
  unfoldable pub parse : Wal → Result WalError (List SFrame × ℕ)
  parse w = elim w.log [ none ↦ ok ([], 0) | some buf ↦ parse_loop (length buf + 1) buf 0 ]

  -- `Wal::read_all`
  unfoldable pub read_all : Wal → Result WalError (WalScan S.Value S.Row)
  read_all w = do
    (frames, good_len) ← parse w
    ok (record { records = map (λ f. (f.lsn, f.op)) frames; good_len = good_len })

  first_op : List (ℕ × WalOp S.Value S.Row) → Option (WalOp S.Value S.Row)
  first_op [] = none
  first_op ((lsn, op) ∷ rs) = if is_commit op then first_op rs else some op

  -- `Wal::read`
  unfoldable pub read : Wal → Result WalError (Option (WalOp S.Value S.Row))
  unfolding first_op
  read w = do scan ← read_all w; ok (first_op scan.records)

  -- The first byte of the first frame with an LSN above the bound.
  abbrev pub first_above : ℕ → List SFrame → Option ℕ
  first_above lsn frames = option_map (λ f. f.start) (find (λ f. ltb lsn f.lsn) frames)

  -- `Wal::truncate_before`
  unfoldable pub truncate_before : ℕ → Exec (Unit {0})
  unfolding clear rewrite_tail
  truncate_before lsn w =
      continue (parse w)
        (λ (frames, good_len). elim (first_above lsn frames) [
          | none ↦ clear
          | some start ↦ if start == 0 then (λ w'. (ok tt, w')) else rewrite_tail start good_len
        ])
        w

  -- `Wal::truncate_after`
  unfoldable pub truncate_after : ℕ → Exec (Unit {0})
  unfolding truncate_to
  truncate_after lsn w =
      continue (parse w)
        (λ (frames, good_len).
          truncate_to (min (unwrap_or (first_above lsn frames) good_len) good_len))
        w

  last_lsn : List SFrame → ℕ → ℕ
  last_lsn [] base = base
  last_lsn (f ∷ []) base = max base f.lsn
  last_lsn (f ∷ g ∷ fs) base = last_lsn (g ∷ fs) base

  -- `slot.checked_add(1)`
  checked_next : ℕ → Result WalError ℕ
  checked_next n = if ltb (n + 1) (2 ^ 64) then ok (n + 1) else err lsn_exhausted

  -- The first use of `take_lsn` goes on behind the checkpoint and the last frame of the file.
  first_lsn : Wal → Result WalError ℕ
  unfolding last_lsn checked_next
  first_lsn w = do
    c ← read_checkpoint w
    (frames, _) ← parse w
    checked_next (last_lsn frames (unwrap_or c 0))

  -- `Wal::take_lsn`
  unfoldable pub take_lsn : Exec ℕ
  unfolding first_lsn
  take_lsn w =
      let start = if w.next_lsn == 0 then first_lsn w else ok w.next_lsn in
      continue start
        (λ lsn w'. elim (checked_next lsn) [
          | ok n ↦ (ok lsn, record w' { next_lsn = n })
          | err e ↦ (err e, record w' { next_lsn = lsn })
        ])
        w

  -- `Wal::encode_next`
  unfoldable pub encode_next : WalOp S.Value S.Row → Exec Bytes
  encode_next op = bind take_lsn (λ lsn w. (encode S op lsn, w))

  -- `Wal::append`
  unfoldable pub append : WalOp S.Value S.Row → Exec (Unit {0})
  append op = bind (encode_next op) write_at_end

  -- The loop of `Wal::append_group`
  unfoldable pub encode_all : List (WalOp S.Value S.Row) → Exec Bytes
  encode_all [] w = (ok [], w)
  encode_all (op ∷ ops) w =
      bind (encode_next op)
        (λ frame. bind (encode_all ops) (λ frames w'. (ok (frame ++ frames), w'))) w

  -- `Wal::append_group`
  unfoldable pub append_group : List (WalOp S.Value S.Row) → Exec ℕ
  append_group ops = bind (encode_all ops) (λ frames. bind take_lsn (λ commit_lsn.
      bind (λ w. (encode S commit commit_lsn, w))
        (λ mark. bind (write_at_end (frames ++ mark)) (λ _ w. (ok commit_lsn, w)))))
