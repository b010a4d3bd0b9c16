-- ===== src/Page/PageFile/Reads.antt =====
-- `note_access`, `read_page` and `write_page` of page.rs against the pages that their callers see.
use chu_sql.Base.{
  ℕ, ◌+◌, ◌*◌, ◌%◌, ◌^◌, ◌<◌, ◌≡◌, refl, sym, ap, subst, ◌∙◌, ◌⊎◌, inl, inr, false, none, some, [],
  length, leb, arith, ◌==◌, eqb→eq, eqb_refl, Bool-cases, Option-cases, Result, ok, err, unwrap_or,
}
use chu_sql.Base.Assoc.{get, put, member, get-put}
use chu_sql.Base.Bytes.{Bytes, slice, length-slice}
use chu_sql.Base.Text.{Str}
use chu_sql.Page.PageFile.{
  PageFile, continue, make_room, load_page, note_access, read_raw, touch, read_page, with_page,
  cached,
}
use chu_sql.Page.PageFile.View.{
  view, IsValid, Keeps, Keeps-refl, Keeps-trans, Keeps-IsValid, Keeps-view, seen,
}
use chu_sql.Page.PageFile.Refinement.{Refused, Safe, make_room-Safe}

-- A page that is there is copied into the cache.
cached_copy-Keeps :
    (id : ℕ) (page : Bytes) (p : PageFile)
    → IsValid p
    → view p id ≡ some page
    → Keeps p (touch id (record p { cache = put id page p.cache }))
unfolding Keeps IsValid view touch
cached_copy-Keeps id page p (sized, clean, resident) e = elim (Option-cases (get id p.cache)) [
  | inl gone ↦
      copy
        (λ h. length-slice (id * p.page_size) p.page_size p.file page (rw (view, seen, gone) at e))
        (λ m. (rw (view, seen, gone) at e))
  | inr (b, here) ↦
      let same : get id p.cache ≡ some page = here ∙ (rw (view, seen, here) at e) in
      copy (λ h. sized id page same) (λ m. clean id page same m)
]
  where
    copy :
        (Unit {0} → length page ≡ p.page_size)
        → (member id p.dirty ≡ false → slice (id * p.page_size) p.page_size p.file ≡ some page)
        → Keeps p (touch id (record p { cache = put id page p.cache }))
    copy len there = (
      (
        λ i b g. elim (Bool-cases (id == i)) [
          | inl same ↦ ground (arith, get-put i id page p.cache, same, g, len tt)
          | inr other ↦ sized i b (ground (arith, get-put i id page p.cache, other, g))
        ],
        λ i b g m. elim (Bool-cases (id == i)) [
          | inl same ↦
              subst (λ k. slice (k * p.page_size) p.page_size p.file ≡ some b) (eqb→eq id i same)
                (there (subst (λ k. member k p.dirty ≡ false) (sym (eqb→eq id i same)) m)
                  ∙ ground (arith, get-put i id page p.cache, same, g))
          | inr other ↦ clean i b (ground (arith, get-put i id page p.cache, other, g)) m
        ],
        λ i m. ground (arith, get-put i id page p.cache, resident i m),
      ),
      refl,
      λ i b g. elim (Bool-cases (id == i)) [
        | inl same ↦
            rw (view, seen, get-put i id page p.cache, same)
              (sym e ∙ subst (λ k. view p k ≡ some b) (sym (eqb→eq id i same)) g)
        | inr other ↦ rw (view, seen, get-put i id page p.cache, other) g
      ],
    )

-- What is promised of an access to page `id`: a success has the page in the cache; a failure means
-- that there is no such page, or that the journal did not take the dirty ones.
unfoldable pub Accessed : PageFile → ℕ → Result Str (Unit {0}) × PageFile → Type 0
Accessed p id (ok u, q) = Keeps p q × (b : Bytes) × (view p id ≡ some b) × (get id q.cache ≡ some b)
Accessed p id (err e, q) = Keeps p q × ((view p id ≡ none) ⊎ Refused p e)

exact : (o : ℕ) → o < 2 ^ 64 → o % 2 ^ 64 ≡ o
exact o h = omega arith

-- A page comes in from the file.
load_page-Accessed :
    (id : ℕ) (p : PageFile)
    → IsValid p
    → id * p.page_size < 2 ^ 64
    → get id p.cache ≡ none
    → Accessed p id (load_page id (read_raw id p) p)
unfolding Accessed read_raw Safe touch view
load_page-Accessed id p v small gone =
    elim (Option-cases (slice (id * p.page_size) p.page_size p.file)) [
      | inl short ↦
          rw (read_raw, exact (id * p.page_size) small, short)
            (Keeps-refl p v, inl (rw (view, seen, gone) short))
      | inr (page, there) ↦
          let here : view p id ≡ some page = rw (view, seen, gone) there in
          rw (read_raw, exact (id * p.page_size) small, there)
            (go page here (make_room (leb p.capacity (length p.cache)) p)
              (make_room-Safe (leb p.capacity (length p.cache)) p v))
    ]
  where
    go :
        (page : Bytes)
        → view p id ≡ some page
        → (r : Result Str (Unit {0}) × PageFile) → Safe p r
        → Accessed p id
            (continue r (λ u p'. (ok tt, touch id (record p' { cache = put id page p'.cache }))))
    go page here (err e, q) s = (s.0, inr s.1)
    go page here (ok u, q) s = (
      Keeps-trans p q (touch id (record q { cache = put id page q.cache })) s
          (cached_copy-Keeps id page q (Keeps-IsValid p q s) (Keeps-view p q s id page here)),
      page,
      here,
      rw (touch, get-put, eqb_refl id),
    )

pub note_access-Accessed :
    (id : ℕ) (p : PageFile)
    → IsValid p
    → id * p.page_size < 2 ^ 64
    → Accessed p id (note_access id p)
unfolding note_access Accessed IsValid Keeps view Refused touch
note_access-Accessed id p v small = elim (Option-cases (get id p.cache)) [
  | inr (b, here) ↦ rw (note_access, here) (counted, b, rw (view, seen, here) refl, here)
  | inl gone ↦
      rw (note_access, gone)
        (load_page-Accessed id (record p { misses = p.misses + 1 }) v small gone)
]
  where
    counted : Keeps p (touch id (record p { hits = p.hits + 1 }))
    counted = (v, refl, λ i page e. e)

-- What is promised of a read: the page as it is seen, or a failure as that of an access.
unfoldable pub Reads : PageFile → ℕ → Result Str Bytes × PageFile → Type 0
Reads p id (ok b, q) = Keeps p q × (view p id ≡ some b)
Reads p id (err e, q) = Keeps p q × ((view p id ≡ none) ⊎ Refused p e)

-- `PageFile::read_page` of a valid page file, for a page whose offset fits in 64 bits, returns the page that is seen under its number, the
-- cached copy or else the one in the data file, and fails only where there is no such page or the
-- journal does not take the dirty pages; either way no page is lost, whatever is evicted.
pub read_page-Reads :
    (id : ℕ) (p : PageFile) → IsValid p → id * p.page_size < 2 ^ 64 → Reads p id (read_page id p)
unfolding read_page with_page Reads Accessed
read_page-Reads id p v small = go (note_access id p) (note_access-Accessed id p v small)
  where
    go :
        (r : Result Str (Unit {0}) × PageFile)
        → Accessed p id r
        → Reads p id (continue r (λ u p'. (ok (cached id p'), p')))
    go (err e, q) s = s
    go (ok u, q) (k, b, e, here) =
        (k, e ∙ ap some (sym (ap (λ o. unwrap_or {A = Bytes} o []) here)))
