-- ===== src/Page/PageFile/View.antt =====
-- What a page file holds, whichever of its pages are cached: page.rs against the sequence of pages
-- that its callers see.
use chu_sql.Base.{
  ℕ, ◌*◌, ◌≡◌, refl, subst, ◌∙◌, inl, inr, true, false, Option, none, some, List, [], arith, ◌==◌,
  eqb→eq, Bool-cases, Option-cases, is_some,
}
use chu_sql.Base.Assoc.{get, remove, member, get-remove}
use chu_sql.Base.Bytes.{Bytes, slice}
use chu_sql.PageWal.{PageWal}
use chu_sql.Page.PageFile.{PageFile, dirty_pages, write_images, drop_page}
use chu_sql.Page.PageFile.Images.{Sized, write_images-kept, write_images-written}

-- Page `id` as a reader sees it: the cached copy, or the bytes at its place in the data file.
abbrev pub seen : ℕ → Bytes → List (ℕ × Bytes) → ℕ → Option Bytes
seen n file cache id = elim (get id cache) [ some page ↦ some page | none ↦ slice (id * n) n file ]

unfoldable pub view : PageFile → ℕ → Option Bytes
view p id = seen p.page_size p.file p.cache id

abbrev pub Clean : ℕ → Bytes → List (ℕ × Bytes) → List ℕ → Type 0
Clean n file cache dirty =
    (id : ℕ) (page : Bytes)
    → get id cache ≡ some page
    → member id dirty ≡ false
    → slice (id * n) n file ≡ some page

abbrev pub Resident : List (ℕ × Bytes) → List ℕ → Type 0
Resident cache dirty = (id : ℕ) → member id dirty ≡ true → is_some (get id cache) ≡ true

-- Cached pages have a page's size, those that are not dirty are as in the file, and dirty pages are
-- cached.
unfoldable pub IsValid : PageFile → Type 0
IsValid p =
    Sized p.page_size p.cache × Clean p.page_size p.file p.cache p.dirty × Resident p.cache p.dirty

-- A later state: valid, and each page that was there is there with its content.
unfoldable pub Keeps : PageFile → PageFile → Type 0
unfolding view IsValid
Keeps p q =
    IsValid q
    × (q.page_size ≡ p.page_size)
    × ((id : ℕ) (page : Bytes) → view p id ≡ some page → view q id ≡ some page)

pub Keeps-refl : (p : PageFile) → IsValid p → Keeps p p
unfolding Keeps
Keeps-refl p v = (v, refl, λ id page e. e)

pub Keeps-trans : (p q r : PageFile) → Keeps p q → Keeps q r → Keeps p r
unfolding Keeps
Keeps-trans p q r (v, n, k) (v', n', k') = (v', n' ∙ n, λ id page e. k' id page (k id page e))

pub Keeps-IsValid : (p q : PageFile) → Keeps p q → IsValid q
unfolding Keeps
Keeps-IsValid p q (v, n, k) = v

pub Keeps-size : (p q : PageFile) → Keeps p q → q.page_size ≡ p.page_size
unfolding Keeps
Keeps-size p q (v, n, k) = n

pub Keeps-view :
    (p q : PageFile)
    → Keeps p q
    → (id : ℕ) (page : Bytes) → view p id ≡ some page
    → view q id ≡ some page
unfolding Keeps
Keeps-view p q (v, n, k) = k

module _ (n : ℕ) (file : Bytes) (cache : List (ℕ × Bytes)) (id : ℕ) where
  pub seen_cached : (page : Bytes) → get id cache ≡ some page → seen n file cache id ≡ some page
  seen_cached page e = rw (seen, e)

  pub seen_file : get id cache ≡ none → seen n file cache id ≡ slice (id * n) n file
  seen_file e = rw (seen, e)

-- A clean page is dropped from the cache.
pub drop_page-Keeps :
    (id : ℕ) (p : PageFile) → IsValid p → member id p.dirty ≡ false → Keeps p (drop_page id p)
unfolding Keeps view IsValid
drop_page-Keeps id p (sized, clean, resident) c = (
  (
    λ i page e. sized i page (left i page e),
    λ i page e m. clean i page (left i page e) m,
    λ i m. elim (Bool-cases (id == i)) [
      | inl same ↦ absurd (ground (arith, eqb→eq id i same, c, m))
      | inr other ↦ rw (get-remove i id p.cache, other) (resident i m)
    ],
  ),
  refl,
  λ i page e. elim (Bool-cases (id == i)) [
    | inr other ↦ rw (view, seen, get-remove i id p.cache, other) e
    | inl same ↦
        rw (view, seen, get-remove i id p.cache, same)
          (elim (Option-cases (get i p.cache)) [
            | inl gone ↦ (rw (view, seen, gone) at e)
            | inr (b, here) ↦
                clean i page (here ∙ (rw (view, seen, here) at e))
                  (subst (λ k. member k p.dirty ≡ false) (eqb→eq id i same) c)
          ])
  ],
)
  where
    left :
        (i : ℕ) (page : Bytes) → get i (remove id p.cache) ≡ some page → get i p.cache ≡ some page
    left i page e = ground (arith, get-remove i id p.cache, e)

-- All dirty pages are written to the file.
pub written_back-Keeps :
    (p : PageFile) (j : PageWal)
    → IsValid p
    → Keeps p (record p {
      journal = j;
      file = write_images p.page_size (dirty_pages p.cache p.dirty) p.file;
    })
unfolding Keeps view IsValid
written_back-Keeps p j (sized, clean, resident) = (
  (
    sized,
    λ i page e m.
        write_images-kept p.page_size i p.cache p.dirty p.file page sized (inr m)
          (clean i page e m),
    resident,
  ),
  refl,
  λ i page e. elim (Option-cases (get i p.cache)) [
    | inr (b, here) ↦ rw (view, seen, here) (rw (view, seen, here) at e)
    | inl gone ↦
        rw (view, seen, gone)
          (write_images-kept p.page_size i p.cache p.dirty p.file page sized
            (elim (Bool-cases (member i p.dirty)) [
              | inr out ↦ inr out
              | inl inside ↦ absurd (ground (arith, resident i inside, gone))
            ])
            (rw (view, seen, gone) at e))
  ],
)

-- Then they are as in the file.
pub published-Keeps :
    (p : PageFile) (j : PageWal)
    → IsValid p
    → Keeps p (record p {
      journal = j;
      file = write_images p.page_size (dirty_pages p.cache p.dirty) p.file;
      dirty = [];
    })
unfolding Keeps view IsValid
published-Keeps p j (sized, clean, resident) =
    let (v, n, k) = written_back-Keeps p j (sized, clean, resident) in
    (
      (
        sized,
        λ i page e m. elim (Bool-cases (member i p.dirty)) [
          | inl inside ↦
              write_images-written p.page_size i p.cache p.dirty p.file page sized e inside
          | inr out ↦ v.1 i page e out
        ],
        λ i m. absurd (ground (arith, m)),
      ),
      n,
      k,
    )
