-- ===== src/Page/PageFile/Refusals.antt =====
-- What an access leaves of the pages that the journal is still to take: a read makes no page dirty,
-- so what the journal would refuse afterwards, it refuses before.
use chu_sql.Base.{
  ℕ, ◌+◌, ◌≡◌, ◌≢◌, refl, sym, ap, inl, inr, Bool, true, false, none, List, [], ◌∷◌, length, leb,
  ◌==◌, arith, any, Bool-cases, Option-cases, Result, ok, err, eqb→eq,
}
use chu_sql.Base.Assoc.{get, put, remove, member, get-put, get-remove}
use chu_sql.Base.Bytes.{Bytes}
use chu_sql.Base.Text.{Str}
use chu_sql.PageWal.{PageWal, prepare, bad_image, written, write_images}
use chu_sql.Page.PageFile.{
  PageFile, continue, journaled, dirty_pages, drop_page, coldest, write_back, evict_one, make_room,
  load_page, note_access, read_raw, touch,
}
use chu_sql.Page.PageFile.View.{IsValid, Keeps-IsValid}
use chu_sql.Page.PageFile.Refinement.{Refused, imaged, Safe, evict_one-Safe}

-- What the journal refuses then, it refuses now.
unfoldable pub Later : PageFile → PageFile → Type 0
unfolding Refused
Later p q = (e : Str) → Refused q e → Refused p e

pub Later-refl : (p : PageFile) → Later p p
unfolding Later
Later-refl p e r = r

pub Later-trans : (p q r : PageFile) → Later p q → Later q r → Later p r
unfolding Later
Later-trans p q r h k e x = h e (k e x)

-- After a success.
abbrev pub Lasts : {A : Type 0} → PageFile → Result Str A × PageFile → Type 0
Lasts p (ok a, q) = Later p q
Lasts p (err e, q) = Unit

dirty_pages-same :
    (c d : List (ℕ × Bytes)) (dirty : List ℕ)
    → ((i : ℕ) → member i dirty ≡ true → get i d ≡ get i c)
    → dirty_pages d dirty ≡ dirty_pages c dirty
unfolding dirty_pages
dirty_pages-same c d [] h = refl
dirty_pages-same c d (i ∷ dirty) h =
    let here : get i d ≡ get i c = h i (ground arith) in
    let rest = dirty_pages-same c d dirty (λ k m. h k (ground (arith, m))) in
    elim (Option-cases (get i c)) [
      | inl gone ↦ rw (dirty_pages, here, gone) rest
      | inr (page, there) ↦ rw (dirty_pages, here, there) (ap (λ r. (i, page) ∷ r) rest)
    ]

-- The journal and the dirty pages are as they were.
same-Later :
    (p q : PageFile)
    → q.journal ≡ p.journal
    → dirty_pages q.cache q.dirty ≡ dirty_pages p.cache p.dirty
    → Later p q
unfolding Later Refused
same-Later p q j d e r = (rw (j, d) at r)

-- A journal that has taken some pages takes none at all without an error.
prepared_running :
    (images : List (ℕ × Bytes)) (j j' : PageWal)
    → prepare images j ≡ (ok tt, j')
    → (e : Str) → (prepare [] j').0 ≢ err e
unfolding prepare
prepared_running images j j' h e r = elim (Bool-cases j'.failed) [
  | inr running ↦ absurd (ground (arith, rw running at r))
  | inl failed ↦ absurd (ground (arith, prepared images j h, failed))
]
  where
    done : (r : Result Str (Unit {0}) × PageWal) → written r ≡ (ok tt, j') → j'.failed ≡ false
    done (ok u, k) q = sym (ap (λ x. x.1.failed) q)
    done (err e, k) q = absurd (ground (arith, ap (λ x. x.0) q))

    prepared :
        (is : List (ℕ × Bytes)) (k : PageWal) → prepare is k ≡ (ok tt, j') → j'.failed ≡ false
    prepared [] k q = elim (Bool-cases k.failed) [
      | inl y ↦ absurd (ground (arith, ap (λ x. x.0) (rw y at q)))
      | inr z ↦ sym (ap (λ x. x.1.failed) (rw z at q))
    ]
    prepared (i ∷ is) k q = elim (Bool-cases k.failed) [
      | inl y ↦ absurd (ground (arith, ap (λ x. x.0) (rw y at q)))
      | inr z ↦ elim (Bool-cases (any (bad_image k.state.page_size) (i ∷ is))) [
        | inl y ↦ absurd (ground (arith, ap (λ x. x.0) (rw (z, y) at q)))
        | inr fine ↦ done (write_images (i ∷ is) (record k { failed = true })) (rw (z, fine) at q)
      ]
    ]

-- A clean page is dropped.
drop_page-Later : (id : ℕ) (p : PageFile) → member id p.dirty ≡ false → Later p (drop_page id p)
drop_page-Later id p clean = same-Later p (drop_page id p) refl (
    dirty_pages-same p.cache (remove id p.cache) p.dirty (λ i m. elim (Bool-cases (id == i)) [
      | inl same ↦ absurd (ground (arith, eqb→eq id i same, clean, m))
      | inr other ↦ rw (get-remove i id p.cache, other) refl
    ]))

-- A page that was not cached comes in.
load-Later :
    (id : ℕ) (page : Bytes) (p : PageFile)
    → IsValid p
    → get id p.cache ≡ none
    → Later p (touch id (record p { cache = put id page p.cache }))
unfolding IsValid touch
load-Later id page p (sized, clean, resident) gone =
    same-Later p (touch id (record p { cache = put id page p.cache })) refl (
      dirty_pages-same p.cache (put id page p.cache) p.dirty (λ i m. elim (Bool-cases (id == i)) [
        | inl same ↦ absurd (ground (arith, eqb→eq id i same, resident i m, gone))
        | inr other ↦ rw (get-put i id page p.cache, other) refl
      ]))

evict_one-Lasts : (p : PageFile) → Lasts p (evict_one p)
unfolding evict_one write_back Later Refused dirty_pages
evict_one-Lasts p = elim (Option-cases (coldest p.last_used p.cache)) [
  | inl none_left ↦ rw (evict_one, none_left) (Later-refl p)
  | inr (victim, e) ↦
      rw (evict_one, e)
        (elim (Bool-cases (member victim p.dirty)) [
          | inr out ↦ rw out (drop_page-Later victim p out)
          | inl inside ↦
              rw inside (go victim (prepare (dirty_pages p.cache p.dirty) p.journal) refl)
        ])
]
  where
    go :
        (victim : ℕ) (r : Result Str (Unit {0}) × PageWal)
        → prepare (dirty_pages p.cache p.dirty) p.journal ≡ r
        → Lasts p (
            continue
              (journaled r (λ j. (ok tt, imaged p j)) p)
              (λ u p'. (ok true, drop_page victim (record p' { dirty = [] }))))
    go victim (err e, j) q = tt
    go victim (ok u, j) q =
        λ e r. absurd (prepared_running (dirty_pages p.cache p.dirty) p.journal j q e r)

-- What is cached behind an eviction was cached before.
evict_one-gone :
    (id : ℕ) (p : PageFile) → get id p.cache ≡ none → get id ((evict_one p).1).cache ≡ none
unfolding evict_one write_back
evict_one-gone id p gone = elim (Option-cases (coldest p.last_used p.cache)) [
  | inl none_left ↦ rw (evict_one, none_left) gone
  | inr (victim, e) ↦
      rw (evict_one, e)
        (elim (Bool-cases (member victim p.dirty)) [
          | inr out ↦ rw out (left victim)
          | inl inside ↦ rw inside (go victim (prepare (dirty_pages p.cache p.dirty) p.journal))
        ])
]
  where
    left : (victim : ℕ) → get id (remove victim p.cache) ≡ none
    left victim = ground (arith, get-remove id victim p.cache, gone)

    go :
        (victim : ℕ) (r : Result Str (Unit {0}) × PageWal)
        → get id
            ((continue
                (journaled r (λ j. (ok tt, imaged p j)) p)
                (λ u p'. (ok true, drop_page victim (record p' { dirty = [] })))).1
              ).cache
          ≡ none
    go victim (err e, j) = gone
    go victim (ok u, j) = left victim

-- An access that succeeds.
pub note_access-Lasts : (id : ℕ) (p : PageFile) → IsValid p → Lasts p (note_access id p)
unfolding note_access touch Later Refused IsValid Safe
note_access-Lasts id p v = elim (Option-cases (get id p.cache)) [
  | inr (b, here) ↦ rw (note_access, here) (λ e r. r)
  | inl gone ↦
      rw (note_access, gone) (loaded (record p { misses = p.misses + 1 }) v gone (read_raw id p))
]
  where
    evicted :
        (q : PageFile) (page : Bytes) (r : Result Str Bool × PageFile)
        → Safe q r
        → Lasts q r
        → get id (r.1).cache ≡ none
        → Lasts q (
            continue
              (continue r (λ b p'. (ok tt, p')))
              (λ u p'. (ok tt, touch id (record p' { cache = put id page p'.cache }))))
    evicted q page (err e, q') k s g = tt
    evicted q page (ok b, q') k s g =
        Later-trans q q' (touch id (record q' { cache = put id page q'.cache })) s
          (load-Later id page q' (Keeps-IsValid q q' k) g)

    room :
        (full : Bool) (q : PageFile) (page : Bytes)
        → IsValid q
        → get id q.cache ≡ none
        → Lasts q (
            continue
              (make_room full q)
              (λ u p'. (ok tt, touch id (record p' { cache = put id page p'.cache }))))
    room true q page w g =
        evicted q page (evict_one q) (evict_one-Safe q w) (evict_one-Lasts q)
          (evict_one-gone id q g)
    room false q page w g = load-Later id page q w g

    loaded :
        (q : PageFile)
        → IsValid q
        → get id q.cache ≡ none
        → (r : Result Str Bytes) → Lasts q (load_page id r q)
    loaded q w g (err e) = tt
    loaded q w g (ok page) = room (leb q.capacity (length q.cache)) q page w g
