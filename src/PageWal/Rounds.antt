-- ===== src/PageWal/Rounds.antt =====
-- The number of rounds that the loop of `PageWal::recover` in page_wal.rs takes.
use chu_sql.Base.{
  ◌≢◌, err, ok, Bool, true, false, Result, if◌then◌else◌, ◌∙◌, ◌-◌, [], ◌∷◌, ℕ, zero, suc, ◌+◌, ◌<◌,
  ◌≡◌, refl, ap, sym, inl, inr, arith, some, length, take, drop, ltb, Bool-cases, ◌==◌,
}
use chu_sql.Base.Bytes.{Bytes}
use chu_sql.Base.Text.{Str, ascii}
use chu_sql.PageWal.{
  PageWal, header, recover, recover_loop, recovered, field_at, apply_image, replayed, checkpoint,
}

length-drop : (n : ℕ) (rest : Bytes) → length (drop n rest) ≡ length rest - n
length-drop zero rest = omega arith
length-drop (suc n) [] = omega arith
length-drop (suc n) (x ∷ rest) = length-drop n rest ∙ omega arith

drop_shorter : (n : ℕ) (rest : Bytes) → 0 < n → 0 < length rest → length (drop n rest) < length rest
drop_shorter n rest a b = omega (arith, length-drop n rest, a, b)

loop_rounds :
    (f g base previous : ℕ) (rest : Bytes) (s : PageWal × Bytes)
    → length rest < f
    → length rest < g
    → recover_loop f base previous rest s ≡ recover_loop g base previous rest s
unfolding recover_loop
loop_rounds zero g base previous rest s a b = absurd (omega (arith, a))
loop_rounds (suc f) zero base previous rest s a b = absurd (omega (arith, b))
loop_rounds (suc f) (suc g) base previous rest (j, file) a b =
    elim (Bool-cases (ltb (length rest) header)) [
      | inl y ↦ rw (y) refl
      | inr y ↦
          let sequence : ℕ = field_at 4 8 rest in
          let behind : Bytes = drop (header + field_at 28 4 rest) rest in
          let less : length behind < length rest =
            drop_shorter _ rest (omega arith) (ground (arith, y)) in
          let again : (t : PageWal × Bytes)
              → recover_loop f base sequence behind t ≡ recover_loop g base sequence behind t =
            λ t.
              loop_rounds f g base sequence behind t (omega (arith, less)) (omega (arith, less)) in
          let image : PageWal × Bytes =
            apply_image sequence (field_at 12 8 rest) (field_at 20 8 rest)
              (take (field_at 28 4 rest) (drop header rest)) (j, file) in
          rw (y, again (j, file), again image) refl
    ]

-- The error of the model that stands for a loop without an end.
abbrev pub endless : Str
endless = ascii "out of fuel"

if_ends :
    {A : Type 0} (b : Bool) (x : Str) (a : A) (y : Result Str (Unit {0}) × A)
    → x ≢ endless
    → y.0 ≢ err endless
    → (if b then (err x, a) else y).0 ≢ err endless
if_ends true x a y h k = λ e. absurd (ground (arith, h, e))
if_ends false x a y h k = k

either_ends :
    {A : Type 0} (b : Bool) (x y : Result Str (Unit {0}) × A)
    → x.0 ≢ err endless
    → y.0 ≢ err endless
    → (if b then x else y).0 ≢ err endless
either_ends true x y h k = h
either_ends false x y h k = k

loop_ends :
    (f base previous : ℕ) (rest : Bytes) (s : PageWal × Bytes)
    → length rest < f
    → (recover_loop f base previous rest s).0 ≢ err endless
unfolding recover_loop
loop_ends zero base previous rest s a e = absurd (omega (arith, a))
loop_ends (suc f) base previous rest (j, file) a e = elim (Bool-cases (ltb (length rest) header)) [
  | inl y ↦ absurd (ground (arith, rw y at e))
  | inr y ↦
      let sequence : ℕ = field_at 4 8 rest in
      let behind : Bytes = drop (header + field_at 28 4 rest) rest in
      let less : length behind < length rest =
        drop_shorter _ rest (omega arith) (ground (arith, y)) in
      let image : PageWal × Bytes =
        apply_image sequence (field_at 12 8 rest) (field_at 20 8 rest)
          (take (field_at 28 4 rest) (drop header rest)) (j, file) in
      let skipped = loop_ends f base sequence behind (j, file) (omega (arith, less)) in
      let replayed_rest = loop_ends f base sequence behind image (omega (arith, less)) in
      if_ends {A = PageWal × Bytes} _ (ascii "invalid page image header") (j, file) _
        (λ q. absurd (ground (arith, q)))
        (either_ends {A = PageWal × Bytes} _ (ok tt, (j, file)) _ (λ q. absurd (ground (arith, q)))
          (if_ends {A = PageWal × Bytes} _ (ascii "page image checksum mismatch") (j, file) _
            (λ q. absurd (ground (arith, q)))
            (either_ends {A = PageWal × Bytes} _ (recover_loop f base sequence behind (j, file)) _
              skipped
              (if_ends {A = PageWal × Bytes} _ (ascii "page offset overflow") (j, file)
                (recover_loop f base sequence behind image) (λ q. absurd (ground (arith, q)))
                replayed_rest))))
        (rw y at e)
]

-- The loop of `PageWal::recover` ends: on a journal with some bytes in it, `recover` does not run out
-- of rounds, and any number of rounds that exceeds its length gives the same.
pub recover_rounds :
    (j : PageWal) (file log : Bytes) (rounds : ℕ)
    → j.log ≡ some log
    → 0 < length log
    → length log < rounds
    → ((recover (j, file)).0 ≢ err endless)
      × (recovered (recover_loop rounds j.state.sequence 0 log (j, file)) ≡ recover (j, file))
unfolding recover checkpoint
recover_rounds j file log rounds e some_bytes h = (
  λ q.
      ended (recover_loop (length log + 1) j.state.sequence 0 log (j, file))
        (loop_ends (length log + 1) j.state.sequence 0 log (j, file) (omega arith))
        (ap (λ r. r.0) (opened ∙ ap (λ o. replayed o (j, file)) (sym e)) ∙ q),
  ap recovered
        (loop_rounds rounds (length log + 1) j.state.sequence 0 log (j, file) h (omega arith))
      ∙ opened
      ∙ ap (λ o. replayed o (j, file)) (sym e),
)
  where
    opened :
        recovered (recover_loop (length log + 1) j.state.sequence 0 log (j, file))
        ≡ replayed (some log) (j, file)
    opened = elim (Bool-cases (length log == 0)) [
      | inl y ↦ absurd (ground (arith, y))
      | inr z ↦ rw z refl
    ]

    ended :
        (r : Result Str (Unit {0}) × (PageWal × Bytes))
        → r.0 ≢ err endless
        → (recovered r).0 ≢ err endless
    ended (err x, s) k = k
    ended (ok u, (i, f)) k = elim (Bool-cases i.failed) [
      | inl y ↦ rw y (λ q. absurd (ground (arith, q)))
      | inr z ↦ rw z (λ q. absurd (ground (arith, q)))
    ]
