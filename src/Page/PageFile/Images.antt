-- ===== src/Page/PageFile/Images.antt =====
-- What writing page images into the data file leaves at each page's place: `write_image` of page.rs.
use native.Mathlib.Nat.{mul-le-mul_right, suc-mul}
use native.Mathlib.Decide.{dec_lt}
use chu_sql.Base.{
  ℕ, zero, suc, ◌+◌, ◌*◌, ◌≤◌, ◌<◌, ◌≡◌, ◌≢◌, sym, ap, subst, unwrap_or, ◌∙◌, ◌⊎◌, inl, inr, true,
  false, none, some, List, [], ◌∷◌, ◌++◌, length, length-append, max, arith, drop, ◌==◌, eqb→eq,
  Bool-cases, Option-cases,
}
use chu_sql.Base.Assoc.{get, member}
use chu_sql.Base.Bytes.{Bytes, slice, take_exact, take_exact-append, option_map-eq-some}
use chu_sql.PageWal.{write_at}
use chu_sql.Page.PageFile.{dirty_pages, write_images}

-- A write reads back.
slice-write_at_self : (o : ℕ) (ds buf : Bytes) → slice o (length ds) (write_at o ds buf) ≡ some ds
unfolding slice
slice-write_at_self zero ds buf = take_exact-append ds (drop (length ds) buf)
slice-write_at_self (suc o) ds [] = slice-write_at_self o ds []
slice-write_at_self (suc o) ds (b ∷ buf) = slice-write_at_self o ds buf

take_exact-write_at :
    (n o : ℕ) (ds buf out : Bytes)
    → n ≤ o
    → take_exact n buf ≡ some out
    → take_exact n (write_at o ds buf) ≡ some out
take_exact-write_at zero o ds buf out h e = e
take_exact-write_at (suc n) zero ds buf out h e = absurd (omega arith)
take_exact-write_at (suc n) (suc o) ds [] out h e = cc
take_exact-write_at (suc n) (suc o) ds (b ∷ buf) out h e =
    let (r, s, q) = option_map-eq-some (◌∷◌ b) (take_exact n buf) e in
    rw (take_exact-write_at n o ds buf r (omega arith) s) (ap some q)

-- What lies before a write stays.
slice-write_at_before :
    (o n w : ℕ) (ds buf out : Bytes)
    → o + n ≤ w
    → slice o n buf ≡ some out
    → slice o n (write_at w ds buf) ≡ some out
unfolding slice
slice-write_at_before zero n w ds buf out h e = take_exact-write_at n w ds buf out (omega arith) e
slice-write_at_before (suc o) n zero ds buf out h e = absurd (omega arith)
slice-write_at_before (suc o) n (suc w) ds [] out h e = cc
slice-write_at_before (suc o) n (suc w) ds (b ∷ buf) out h e =
    slice-write_at_before o n w ds buf out (omega arith) e

slice-overwrite :
    (o n : ℕ) (ds buf out : Bytes)
    → length ds ≤ o
    → slice o n buf ≡ some out
    → slice o n (ds ++ drop (length ds) buf) ≡ some out
unfolding slice
slice-overwrite o n [] buf out h e = e
slice-overwrite zero n (d ∷ ds) buf out h e = absurd (omega arith)
slice-overwrite (suc o) n (d ∷ ds) [] out h e = cc
slice-overwrite (suc o) n (d ∷ ds) (b ∷ buf) out h e =
    slice-overwrite o n ds buf out (omega arith) e

-- What lies behind a write stays.
slice-write_at_after :
    (o n w : ℕ) (ds buf out : Bytes)
    → w + length ds ≤ o
    → slice o n buf ≡ some out
    → slice o n (write_at w ds buf) ≡ some out
unfolding slice
slice-write_at_after o n zero ds buf out h e = slice-overwrite o n ds buf out (omega arith) e
slice-write_at_after zero n (suc w) ds buf out h e = absurd (omega arith)
slice-write_at_after (suc o) n (suc w) ds [] out h e = cc
slice-write_at_after (suc o) n (suc w) ds (b ∷ buf) out h e =
    slice-write_at_after o n w ds buf out (omega arith) e

pub length-write_at :
    (o : ℕ) (ds buf : Bytes) → length (write_at o ds buf) ≡ max (length buf) (o + length ds)
length-write_at zero [] buf = omega arith
length-write_at zero (d ∷ ds) [] = omega (arith, length-append ds [])
length-write_at zero (d ∷ ds) (b ∷ buf) = omega (arith, length-write_at zero ds buf)
length-write_at (suc o) ds [] = omega (arith, length-write_at o ds [])
length-write_at (suc o) ds (b ∷ buf) = omega (arith, length-write_at o ds buf)

-- Different pages lie apart.
pages_apart : (i j n : ℕ) → i < j → i * n + n ≤ j * n
pages_apart i j n h = omega (arith, mul-le-mul_right {m = suc i} {n = j} n h, suc-mul i n)

-- Writing one page leaves every other page that the file holds.
pub slice-write_at_other :
    (i j n : ℕ) (page buf out : Bytes)
    → i ≢ j
    → length page ≡ n
    → slice (i * n) n buf ≡ some out
    → slice (i * n) n (write_at (j * n) page buf) ≡ some out
slice-write_at_other i j n page buf out ne len e = elim (dec_lt i j) [
  | yes before ↦ slice-write_at_before (i * n) n (j * n) page buf out (pages_apart i j n before) e
  | no after ↦
      slice-write_at_after (i * n) n (j * n) page buf out
        (omega (arith, pages_apart j i n (omega arith))) e
]

-- Every cached page has the size of a page.
abbrev pub Sized : ℕ → List (ℕ × Bytes) → Type 0
Sized n cache = (id : ℕ) (page : Bytes) → get id cache ≡ some page → length page ≡ n

pub slice-write_page :
    (i n : ℕ) (page buf : Bytes)
    → length page ≡ n
    → slice (i * n) n (write_at (i * n) page buf) ≡ some page
slice-write_page i n page buf len =
    subst (λ k. slice (i * n) k (write_at (i * n) page buf) ≡ some page) len
      (slice-write_at_self (i * n) page buf)

dirty_pages_absent :
    (cache : List (ℕ × Bytes)) (id : ℕ) (dirty : List ℕ)
    → get id cache ≡ none
    → dirty_pages cache (id ∷ dirty) ≡ dirty_pages cache dirty
unfolding dirty_pages
dirty_pages_absent cache id dirty h = rw (dirty_pages, h)

dirty_pages_present :
    (cache : List (ℕ × Bytes)) (id : ℕ) (dirty : List ℕ) (page : Bytes)
    → get id cache ≡ some page
    → dirty_pages cache (id ∷ dirty) ≡ (id, page) ∷ dirty_pages cache dirty
unfolding dirty_pages
dirty_pages_present cache id dirty page h = rw (dirty_pages, h)

-- A page that the file holds stays when the dirty pages are written, if it is not among them or is
-- cached as it is.
pub write_images-kept :
    (n i : ℕ) (cache : List (ℕ × Bytes)) (dirty : List ℕ) (file out : Bytes)
    → Sized n cache
    → (get i cache ≡ some out) ⊎ (member i dirty ≡ false)
    → slice (i * n) n file ≡ some out
    → slice (i * n) n (write_images n (dirty_pages cache dirty) file) ≡ some out
unfolding write_images dirty_pages
write_images-kept n i cache [] file out sized h e = e
write_images-kept n i cache (id ∷ dirty) file out sized h e = elim (Option-cases (get id cache)) [
  | inl gone ↦
      rw (dirty_pages_absent cache id dirty gone)
        (write_images-kept n i cache dirty file out sized (later h) e)
  | inr (page, here) ↦ rw (dirty_pages_present cache id dirty page here) (
      write_images-kept n i cache dirty (write_at (id * n) page file) out sized (later h)
        (one page here))
]
  where
    later :
        (get i cache ≡ some out) ⊎ (member i (id ∷ dirty) ≡ false)
        → (get i cache ≡ some out) ⊎ (member i dirty ≡ false)
    later (inl a) = inl a
    later (inr b) = inr (ground (arith, b))

    one :
        (page : Bytes)
        → get id cache ≡ some page
        → slice (i * n) n (write_at (id * n) page file) ≡ some out
    one page here = elim (Bool-cases (id == i)) [
      | inr other ↦
          slice-write_at_other i id n page file out (ground (arith, other)) (sized id page here) e
      | inl same ↦ elim h [
        | inr b ↦ absurd (ground (arith, same, b))
        | inl a ↦
            let content : page ≡ out =
              ap (λ o. unwrap_or {A = Bytes} o page)
                (sym here ∙ ap (λ k. get k cache) (eqb→eq id i same) ∙ a) in
            subst (λ k. slice (k * n) n (write_at (id * n) page file) ≡ some out) (eqb→eq id i same)
              (slice-write_page id n page file (sized id page here) ∙ ap some content)
      ]
    ]

-- A dirty page is in the file when the dirty pages are written.
pub write_images-written :
    (n i : ℕ) (cache : List (ℕ × Bytes)) (dirty : List ℕ) (file out : Bytes)
    → Sized n cache
    → get i cache ≡ some out
    → member i dirty ≡ true
    → slice (i * n) n (write_images n (dirty_pages cache dirty) file) ≡ some out
unfolding write_images dirty_pages
write_images-written n i cache [] file out sized g m = ground (arith, m)
write_images-written n i cache (id ∷ dirty) file out sized g m = elim (Bool-cases (id == i)) [
  | inl same ↦
      let here : get id cache ≡ some out = ap (λ k. get k cache) (eqb→eq id i same) ∙ g in
      rw (dirty_pages_present cache id dirty out here) (
        write_images-kept n i cache dirty (write_at (id * n) out file) out sized (inl g) (
          subst (λ k. slice (k * n) n (write_at (id * n) out file) ≡ some out) (eqb→eq id i same)
            (slice-write_page id n out file (sized id out here))))
  | inr other ↦ elim (Option-cases (get id cache)) [
    | inl gone ↦
        rw (dirty_pages_absent cache id dirty gone)
          (write_images-written n i cache dirty file out sized g (rw other at m))
    | inr (page, here) ↦ rw (dirty_pages_present cache id dirty page here) (
        write_images-written n i cache dirty (write_at (id * n) page file) out sized g
          (rw other at m))
  ]
]
