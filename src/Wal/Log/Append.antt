-- ===== src/Wal/Log/Append.antt =====
-- `Wal::append_group`: what it writes, with which LSNs.
use chu_sql.Base.{ℕ, ◌+◌, ◌^◌, ◌<◌, ◌≡◌, refl, List, [], ◌∷◌, map, arith}
use chu_sql.Base.Text.{utf8}
use chu_sql.Wal.Op.{WalOp, Serde, commit}
use chu_sql.Wal.Codec.{parts}
use chu_sql.Wal.Log.{Wal}
use chu_sql.Wal.Log.Frames.{Block, Valid}

module _ (S : Serde) where
  -- The blocks carry consecutive LSNs from `n` on.
  abbrev pub Numbered : ℕ → List (Block S) → Type 0
  Numbered n [] = Unit
  Numbered n (b ∷ bs) = (b.lsn ≡ n) × Numbered (n + 1) bs

  abbrev pub ops_of : List (Block S) → List (WalOp S.Value S.Row)
  ops_of bs = map (λ b. b.op) bs

  -- The frame of a commit mark.
  abbrev pub mark : ℕ → Block S
  mark lsn = record { lsn = lsn; op = commit; code = 10; name = []; payload = [] }

  pub mark-Valid : (lsn : ℕ) → lsn < 2 ^ 64 → Valid S (mark lsn)
  unfolding parts utf8
  mark-Valid lsn h = (
    h,
    record {
      made = refl;
      text = refl;
      short = omega arith;
      small = omega arith;
      migration = tt;
      read_back = tt;
    },
  )
