-- ===== src/Wal/Log/Commits.antt =====
-- `committed_ops` of wal.rs: which records of a log count as committed.
use chu_sql.Base.{
  ℕ, ◌≡◌, ◌≢◌, refl, sym, ap, ◌∙◌, inl, inr, true, false, List, [], ◌∷◌, ◌++◌, length, All,
  append_assoc, append-nil, Bool-cases,
}
use chu_sql.Wal.Op.{WalOp, commit, is_commit}
use chu_sql.Wal.Log.{committed_loop, committed_ops}

-- An LSN with its operation.
abbrev pub Rec : Type 0 → Type 0 → Type 0
Rec V R = ℕ × WalOp V R

module _ {V R : Type 0} where
  -- The list is empty or ends with a commit mark.
  abbrev pub Sealed : List (Rec V R) → Type 0
  Sealed [] = Unit
  Sealed (r ∷ []) = is_commit r.1 ≡ true
  Sealed (r ∷ s ∷ rs) = Sealed (s ∷ rs)

  abbrev pub NoMark : List (Rec V R) → Type 0
  NoMark rs = All (λ r. is_commit r.1 ≡ false) rs

  -- The loop walks a run without marks into its pending list.
  loop_run :
      (xs ys out pending : List (Rec V R))
      → NoMark xs
      → committed_loop (xs ++ ys) out pending ≡ committed_loop ys out (pending ++ xs)
  unfolding committed_loop
  loop_run [] ys out pending h = rw append-nil
  loop_run ((lsn, op) ∷ xs) ys out pending h = rw h.0 (
      loop_run xs ys out (pending ++ (lsn, op) ∷ []) h.1
      ∙ ap (committed_loop ys out) (append_assoc pending ((lsn, op) ∷ []) xs))

  loop_mark :
      (c : ℕ) (ys out pending : List (Rec V R))
      → committed_loop ((c, commit) ∷ ys) out pending ≡ committed_loop ys (out ++ pending) []
  unfolding committed_loop
  loop_mark c ys out pending = refl

  loop_two :
      (out : List (Rec V R)) (x y : Rec V R) (zs : List (Rec V R))
      → committed_loop [] out (x ∷ y ∷ zs) ≡ out
  unfolding committed_loop
  loop_two out x y zs = refl

  -- Behind a mark the loop goes on with nothing pending.
  loop-Sealed :
      (r : Rec V R) (rs out pending : List (Rec V R))
      → Sealed (r ∷ rs)
      → (out' : List (Rec V R)) × ((xs : List (Rec V R))
          → committed_loop ((r ∷ rs) ++ xs) out pending ≡ committed_loop xs out' [])
  unfolding committed_loop
  loop-Sealed (lsn, op) [] out pending h = (out ++ pending, λ xs. rw h)
  loop-Sealed (lsn, op) (s ∷ rs) out pending h = elim (Bool-cases (is_commit op)) [
    | inl mark ↦
        let (out', e) = loop-Sealed s rs (out ++ pending) [] h in (out', λ xs. rw mark (e xs))
    | inr plain ↦
        let (out', e) = loop-Sealed s rs out (pending ++ (lsn, op) ∷ []) h in
        (out', λ xs. rw plain (e xs))
  ]

  ends : (out : List (Rec V R)) → committed_loop [] out [] ≡ out
  unfolding committed_loop
  ends out = refl

  as_loop : (rs : List (Rec V R)) → committed_ops rs ≡ committed_loop rs [] []
  unfolding committed_ops
  as_loop rs = refl

  -- What a sealed log commits is an accumulator for whatever follows.
  ops-Sealed :
      (gs xs : List (Rec V R))
      → Sealed gs
      → committed_ops (gs ++ xs) ≡ committed_loop xs (committed_ops gs) []
  ops-Sealed [] xs h =
      as_loop xs ∙ ap (λ out. committed_loop xs out []) (sym (as_loop [] ∙ ends []))
  ops-Sealed (r ∷ rs) xs h =
      let (out', e) = loop-Sealed r rs [] [] h in
      let whole : committed_loop (r ∷ rs) [] [] ≡ out' =
        ap (λ l. committed_loop l [] []) (sym (append-nil (r ∷ rs))) ∙ e [] ∙ ends out' in
      as_loop ((r ∷ rs) ++ xs)
      ∙ e xs
      ∙ ap (λ out. committed_loop xs out []) (sym (as_loop (r ∷ rs) ∙ whole))

  -- Behind a log that is empty or ends with a commit mark, a run of operations with its own mark is
  -- committed, all of it and in order.
  pub committed_ops-group :
      (gs xs : List (Rec V R)) (c : ℕ)
      → Sealed gs
      → NoMark xs
      → committed_ops (gs ++ (xs ++ (c, commit) ∷ [])) ≡ committed_ops gs ++ xs
  committed_ops-group gs xs c h n =
      ops-Sealed gs (xs ++ (c, commit) ∷ []) h
      ∙ loop_run xs ((c, commit) ∷ []) (committed_ops gs) [] n
      ∙ loop_mark c [] (committed_ops gs) xs
      ∙ ends (committed_ops gs ++ xs)

  -- Behind a log that is empty or ends with a commit mark, a run of operations with no mark is
  -- dropped, unless it is one record long.
  pub committed_ops-unmarked :
      (gs xs : List (Rec V R))
      → Sealed gs
      → NoMark xs
      → length xs ≢ 1
      → committed_ops (gs ++ xs) ≡ committed_ops gs
  committed_ops-unmarked gs [] h n one = rw append-nil
  committed_ops-unmarked gs (x ∷ []) h n one = absurd (one refl)
  committed_ops-unmarked gs (x ∷ y ∷ zs) h n one =
      ops-Sealed gs (x ∷ y ∷ zs) h
      ∙ rw append-nil at (loop_run (x ∷ y ∷ zs) [] (committed_ops gs) [] n)
      ∙ loop_two (committed_ops gs) x y zs

  -- One record with no mark behind a sealed log counts as committed.
  pub committed_ops-lone :
      (gs : List (Rec V R)) (x : Rec V R)
      → Sealed gs
      → is_commit x.1 ≡ false
      → committed_ops (gs ++ x ∷ []) ≡ committed_ops gs ++ x ∷ []
  unfolding committed_loop
  committed_ops-lone gs (lsn, op) h n = ops-Sealed gs ((lsn, op) ∷ []) h ∙ rw n
