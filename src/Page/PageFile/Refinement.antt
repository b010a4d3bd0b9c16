-- ===== src/Page/PageFile/Refinement.antt =====
-- The methods of `PageFile` against the pages that its callers see: no read, eviction or flush loses
-- a page, whether it succeeds or not.
use chu_sql.Base.{
  ℕ, ◌*◌, ◌≡◌, refl, ap, ◌∙◌, inl, inr, Bool, true, false, some, [], Bool-cases, Option-cases,
  Result, ok, err,
}
use chu_sql.Base.Assoc.{get, member}
use chu_sql.Base.Bytes.{Bytes, slice}
use chu_sql.Base.Text.{Str}
use chu_sql.PageWal.{PageWal, prepare, checkpoint}
use chu_sql.Page.PageFile.{
  PageFile, Exec, continue, journaled, dirty_pages, write_images, drop_page, coldest, write_back,
  evict_one, make_room, flush, publish,
}
use chu_sql.Page.PageFile.View.{
  view, IsValid, Keeps, Keeps-refl, Keeps-trans, Keeps-IsValid, Keeps-view, drop_page-Keeps,
  written_back-Keeps, published-Keeps, seen,
}

-- The page file when the journal has taken the dirty pages.
abbrev pub imaged : PageFile → PageWal → PageFile
imaged p j = record p {
  journal = j;
  file = write_images p.page_size (dirty_pages p.cache p.dirty) p.file;
}

pub journal-Keeps : (p : PageFile) (j : PageWal) → IsValid p → Keeps p (record p { journal = j })
unfolding Keeps IsValid view
journal-Keeps p j v = (v, refl, λ id page e. e)

-- The journal does not take the dirty pages.
unfoldable pub Refused : PageFile → Str → Type 0
Refused p e = (prepare (dirty_pages p.cache p.dirty) p.journal).0 ≡ err e

-- No page is lost, and a failure is one of the journal.
unfoldable pub Safe : {A : Type 0} → PageFile → Result Str A × PageFile → Type 0
unfolding Refused
Safe p (ok a, q) = Keeps p q
Safe p (err e, q) = Keeps p q × Refused p e

-- What follows the writing of the dirty pages.
pub write_back-then :
    {B : Type 0} (p : PageFile) (k : Unit {0} → Exec B)
    → IsValid p
    → ((j : PageWal) → Safe p (k tt (imaged p j)))
    → Safe p (continue (write_back p) k)
unfolding write_back Safe Refused
write_back-then p k v h = go (prepare (dirty_pages p.cache p.dirty) p.journal) refl
  where
    go :
        (r : Result Str (Unit {0}) × PageWal)
        → prepare (dirty_pages p.cache p.dirty) p.journal ≡ r
        → Safe p (continue (journaled r (λ j. (ok tt, imaged p j)) p) k)
    go (err e, j) q = (journal-Keeps p j v, ap (λ x. x.0) q)
    go (ok u, j) q = h j

pub evict_one-Safe : (p : PageFile) → IsValid p → Safe p (evict_one p)
unfolding evict_one Safe
evict_one-Safe p v = elim (Option-cases (coldest p.last_used p.cache)) [
  | inl none_left ↦ rw (evict_one, none_left) (Keeps-refl p v)
  | inr (victim, e) ↦
      rw (evict_one, e)
        (elim (Bool-cases (member victim p.dirty)) [
          | inr out ↦ rw out (drop_page-Keeps victim p v out)
          | inl inside ↦ rw inside (
              write_back-then p (λ u p'. (ok true, drop_page victim (record p' { dirty = [] }))) v
                (λ j.
                  let q : PageFile = record (imaged p j) { dirty = [] } in
                  let k = published-Keeps p j v in
                  Keeps-trans p q (drop_page victim q) k
                    (drop_page-Keeps victim q (Keeps-IsValid p q k) refl)))
        ])
]

pub make_room-Safe : (full : Bool) (p : PageFile) → IsValid p → Safe p (make_room full p)
unfolding Safe
make_room-Safe true p v = go (evict_one p) (evict_one-Safe p v)
  where
    go : (r : Result Str Bool × PageFile) → Safe p r → Safe p (continue r (λ b p'. (ok tt, p')))
    go (ok b, q) s = s
    go (err e, q) s = s
make_room-Safe false p v = Keeps-refl p v

-- What a flush promises: no page is lost, and a success leaves none that the data file lacks.
unfoldable pub Flushed : PageFile → Result Str (Unit {0}) × PageFile → Type 0
Flushed p (ok u, q) =
    Keeps p q
    × (q.dirty ≡ [])
    × ((id : ℕ) (b : Bytes)
        → view p id ≡ some b
        → slice (id * p.page_size) p.page_size q.file ≡ some b)
Flushed p (err e, q) = Keeps p q

-- A valid page file with no dirty page: its data file has what is seen.
clean_file :
    (p : PageFile) (id : ℕ) (b : Bytes)
    → IsValid p
    → p.dirty ≡ []
    → view p id ≡ some b
    → slice (id * p.page_size) p.page_size p.file ≡ some b
unfolding IsValid view
clean_file p id b (sized, clean, resident) d e = elim (Option-cases (get id p.cache)) [
  | inl gone ↦ (rw (view, seen, gone) at e)
  | inr (page, here) ↦ clean id b (here ∙ (rw (view, seen, here) at e)) (ap (member id) d)
]

-- `PageFile::flush` on a valid page file loses no page whether it succeeds or fails; when it
-- succeeds no page is dirty and the data file has the content of every page that was there.
pub flush-Flushed : (p : PageFile) → IsValid p → Flushed p (flush p)
unfolding flush write_back Flushed
flush-Flushed p v = go (prepare (dirty_pages p.cache p.dirty) p.journal)
  where
    publish_go :
        (j : PageWal) (r : Result Str (Unit {0}) × PageWal)
        → Flushed p (
            journaled r
              (λ j'. (ok tt, record (imaged p j) { journal = j'; dirty = [] }))
              (imaged p j))
    publish_go j (err e, j') = written_back-Keeps p j' v
    publish_go j (ok u, j') =
        let k = published-Keeps p j' v in
        let q : PageFile = record (imaged p j) { journal = j'; dirty = [] } in
        (k, refl, λ id b e. clean_file q id b (Keeps-IsValid p q k) refl (Keeps-view p q k id b e))

    go :
        (r : Result Str (Unit {0}) × PageWal)
        → Flushed p (continue (journaled r (λ j. (ok tt, imaged p j)) p) (λ u p'. publish p'))
    go (err e, j) = journal-Keeps p j v
    go (ok u, j) = publish_go j (checkpoint j)
