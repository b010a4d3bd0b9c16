-- ===== src/Page/PageFile/Writes.antt =====
-- `write_page` of page.rs against the pages that its callers see.
use chu_sql.Base.{
  ℕ, ◌≡◌, ◌≢◌, sym, ◌∙◌, ◌⊎◌, inl, inr, Bool, false, not, ◌&&◌, some, length, leb, arith, ◌==◌,
  eqb→eq, eqb_refl, Bool-cases, is_some, Result, ok, err,
}
use chu_sql.Base.Assoc.{get, put, insert_member, get-put, member-insert_member}
use chu_sql.Base.Bytes.{Bytes}
use chu_sql.Base.Text.{Str}
use chu_sql.Page.PageFile.{PageFile, continue, make_room, touch, write_page}
use chu_sql.Page.PageFile.View.{view, IsValid, Keeps, Keeps-refl, Keeps-IsValid, Keeps-view, seen}
use chu_sql.Page.PageFile.Refinement.{Refused, Safe, make_room-Safe}

-- A page comes into the cache and is dirty.
abbrev pub stored : ℕ → Bytes → PageFile → PageFile
stored id page p =
    touch id (record p { cache = put id page p.cache; dirty = insert_member id p.dirty })

stored-IsValid :
    (id : ℕ) (page : Bytes) (p : PageFile)
    → IsValid p
    → length page ≡ p.page_size
    → IsValid (stored id page p)
unfolding IsValid touch
stored-IsValid id page p (sized, clean, resident) len = (
  λ i b g. elim (Bool-cases (id == i)) [
    | inl same ↦ ground (arith, get-put i id page p.cache, same, g, len)
    | inr other ↦ sized i b (ground (arith, get-put i id page p.cache, other, g))
  ],
  λ i b g m. elim (Bool-cases (id == i)) [
    | inl same ↦ absurd (ground (arith, member-insert_member i id p.dirty, same, m))
    | inr other ↦
        clean i b (ground (arith, get-put i id page p.cache, other, g))
          (ground (arith, member-insert_member i id p.dirty, other, m))
  ],
  λ i m. elim (Bool-cases (id == i)) [
    | inl same ↦ ground (arith, get-put i id page p.cache, same)
    | inr other ↦
        ground (
          arith,
          get-put i id page p.cache,
          other,
          member-insert_member i id p.dirty,
          m,
          resident i,
        )
  ],
)

-- What is promised of a write of page `id`: a success has the new content there and all other pages
-- as they were; a failure loses nothing.
unfoldable pub Writes : PageFile → ℕ → Bytes → Result Str (Unit {0}) × PageFile → Type 0
Writes p id page (ok u, q) =
    IsValid q
    × (view q id ≡ some page)
    × ((i : ℕ) (b : Bytes) → i ≢ id → view p i ≡ some b → view q i ≡ some b)
Writes p id page (err e, q) = Keeps p q × ((length page ≢ p.page_size) ⊎ Refused p e)

stored-Writes :
    (id : ℕ) (page : Bytes) (p q : PageFile)
    → Keeps p q
    → length page ≡ q.page_size
    → Writes p id page (ok tt, stored id page q)
unfolding Writes touch view
stored-Writes id page p q k len = (
  stored-IsValid id page q (Keeps-IsValid p q k) len,
  rw (view, seen, get-put id id page q.cache, eqb_refl id),
  λ i b ne e.
      let other : (id == i) ≡ false = ground (arith, ne, eqb→eq id i) in
      rw (view, seen, get-put i id page q.cache, other) (Keeps-view p q k i b e),
)

-- `PageFile::write_page` on a valid page file either succeeds, and then the page reads as what was
-- written and every other page as before, whatever was evicted, or it fails and no page is lost;
-- it fails only for content that has not a page's size or where the journal does not take the
-- dirty pages.
pub write_page-Writes :
    (id : ℕ) (page : Bytes) (p : PageFile) → IsValid p → Writes p id page (write_page id page p)
unfolding write_page Writes Safe Keeps
write_page-Writes id page p v = elim (Bool-cases (length page == p.page_size)) [
  | inr differs ↦ rw differs (Keeps-refl p v, inl (λ e. absurd (ground (arith, differs, e))))
  | inl same ↦
      rw same
        (go (make_room full p) (make_room-Safe full p v) (eqb→eq (length page) p.page_size same))
]
  where
    full : Bool
    full = leb p.capacity (length p.cache) && not (is_some (get id p.cache))

    go :
        (r : Result Str (Unit {0}) × PageFile)
        → Safe p r
        → length page ≡ p.page_size
        → Writes p id page (continue r (λ u p'. (ok tt, stored id page p')))
    go (err e, q) s len = (s.0, inr s.1)
    go (ok u, q) s len = stored-Writes id page p q s (len ∙ sym s.1)
