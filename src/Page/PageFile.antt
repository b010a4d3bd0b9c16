-- ===== src/Page/PageFile.antt =====
-- `PageFile` of chusql-core/storage/src/page.rs: a pool of cached pages over a data file with its
-- page journal. A method that fails keeps what it did before it failed.
pub mod Images
pub mod View
pub mod Refinement
pub mod Reads
pub mod Refusals
pub mod Writes
pub mod Capacity
use chu_sql.Base.{
  ℕ, zero, suc, ◌+◌, ◌*◌, ◌/◌, ◌%◌, ◌^◌, Bool, true, false, not, ◌&&◌, Option, none, some, List, [],
  ◌∷◌, length, leb, ◌==◌, max, if◌then◌else◌, Result, ok, err, unwrap_or, is_some,
}
use chu_sql.Base.Assoc.{get, put, remove, member, insert_member}
use chu_sql.Base.Bytes.{Bytes, slice}
use chu_sql.Base.Text.{Str, ascii}
use chu_sql.Page.{zeros}
use chu_sql.PageWal.{PageWal, prepare, reset, checkpoint, write_at}

pub record PageFile : Type 0 where
  pub file : Bytes
  pub journal : PageWal
  pub page_size : ℕ
  pub capacity : ℕ
  pub cache : List (ℕ × Bytes)
  pub last_used : List (ℕ × ℕ)
  pub clock : ℕ
  pub dirty : List ℕ
  pub hits : ℕ
  pub misses : ℕ

-- A method of the page file.
abbrev pub Exec : Type 0 → Type 0
Exec A = PageFile → Result Str A × PageFile

abbrev pub continue :
    {A B : Type 0} → Result Str A × PageFile → (A → Exec B) → Result Str B × PageFile
continue (ok a, p) f = f a p
continue (err e, p) f = (err e, p)

-- A call of the journal, whose failure ends the method.
abbrev pub journaled :
    Result Str (Unit {0}) × PageWal → (PageWal → Result Str (Unit {0}) × PageFile) → Exec (Unit {0})
journaled (err e, j) f p = (err e, record p { journal = j })
journaled (ok u, j) f p = f j

-- `PageFile::cached_pages`
unfoldable pub cached_pages : PageFile → ℕ
cached_pages p = length p.cache

-- `PageFile::touch`
unfoldable pub touch : ℕ → PageFile → PageFile
touch id p =
    let now = (p.clock + 1) % 2 ^ 64 in record p { clock = now; last_used = put id now p.last_used }

-- `last_used.get(id).copied().unwrap_or(0)`
abbrev pub stamp : List (ℕ × ℕ) → ℕ → ℕ
stamp last_used id = unwrap_or (get id last_used) 0

-- `min_by_key` over the keys of the cache: the first of those with the least stamp
unfoldable pub coldest : List (ℕ × ℕ) → List (ℕ × Bytes) → Option ℕ
coldest last_used [] = none
coldest last_used ((id, page) ∷ cache) = elim (coldest last_used cache) [
  | none ↦ some id
  | some other ↦ if leb (stamp last_used id) (stamp last_used other) then some id else some other
]

-- The dirty pages that are cached, as `evict_one` and `flush` collect them
unfoldable pub dirty_pages : List (ℕ × Bytes) → List ℕ → List (ℕ × Bytes)
dirty_pages cache [] = []
dirty_pages cache (id ∷ dirty) =
    let rest = dirty_pages cache dirty in
    elim (get id cache) [ none ↦ rest | some page ↦ (id, page) ∷ rest ]

-- `PageFile::write_image` on each of some pages
unfoldable pub write_images : ℕ → List (ℕ × Bytes) → Bytes → Bytes
write_images page_size [] file = file
write_images page_size ((id, page) ∷ pages) file =
    write_images page_size pages (write_at (id * page_size) page file)

-- The journal first, then the data file.
unfoldable pub write_back : Exec (Unit {0})
unfolding dirty_pages write_images
write_back p =
    let pages = dirty_pages p.cache p.dirty in
    journaled (prepare pages p.journal)
      (λ j. (ok tt, record p { journal = j; file = write_images p.page_size pages p.file })) p

abbrev pub drop_page : ℕ → PageFile → PageFile
drop_page id p = record p { cache = remove id p.cache; last_used = remove id p.last_used }

-- `PageFile::evict_one`
unfoldable pub evict_one : Exec Bool
unfolding coldest write_back
evict_one p = elim (coldest p.last_used p.cache) [
  | none ↦ (ok false, p)
  | some victim ↦
      if member victim p.dirty
      then continue (write_back p) (λ u p'. (ok true, drop_page victim (record p' { dirty = [] })))
      else (ok true, drop_page victim p)
]

-- `PageFile::read_raw`, whose offset wraps around at 64 bits
unfoldable pub read_raw : ℕ → PageFile → Result Str Bytes
read_raw id p = elim (slice (id * p.page_size % 2 ^ 64) p.page_size p.file) [
  | none ↦ err (ascii "failed to fill whole buffer")
  | some page ↦ ok page
]

-- Eviction before a page comes in, where the pool is full.
abbrev pub make_room : Bool → Exec (Unit {0})
make_room full p = if full then continue (evict_one p) (λ b p'. (ok tt, p')) else (ok tt, p)

abbrev pub load_page : ℕ → Result Str Bytes → Exec (Unit {0})
load_page id (err e) p = (err e, p)
load_page id (ok page) p =
    continue (make_room (leb p.capacity (length p.cache)) p)
      (λ u p'. (ok tt, touch id (record p' { cache = put id page p'.cache })))

-- `PageFile::note_access`
unfoldable pub note_access : ℕ → Exec (Unit {0})
unfolding evict_one read_raw touch
note_access id p =
    if is_some (get id p.cache)
    then (ok tt, touch id (record p { hits = p.hits + 1 }))
    else load_page id (read_raw id p) (record p { misses = p.misses + 1 })

-- `self.cache[&id]`, which `note_access` has put there
abbrev pub cached : ℕ → PageFile → Bytes
cached id p = unwrap_or (get id p.cache) []

-- `PageFile::read_page`, and `PageFile::with_page` with a function of the page
unfoldable pub with_page : {A : Type 0} → ℕ → (Bytes → A) → Exec A
unfolding note_access
with_page id f p = continue (note_access id p) (λ u p'. (ok (f (cached id p')), p'))

unfoldable pub read_page : ℕ → Exec Bytes
unfolding with_page
read_page id = with_page id (λ page. page)

-- `PageFile::update_page`
unfoldable pub update_page : {A : Type 0} → ℕ → (Bytes → A × Bytes) → Exec A
unfolding note_access
update_page id f p = continue (note_access id p) (λ u p'.
    let (a, page) = f (cached id p') in
    (ok a, record p' { cache = put id page p'.cache; dirty = insert_member id p'.dirty }))

-- `PageFile::write_page`
unfoldable pub write_page : ℕ → Bytes → Exec (Unit {0})
unfolding evict_one touch
write_page id page p =
    if not (length page == p.page_size)
    then (err (ascii "page size differs from the file's"), p)
    else continue (make_room (leb p.capacity (length p.cache) && not (is_some (get id p.cache))) p)
        (λ u p'. (
          ok tt,
          touch id (record p' { cache = put id page p'.cache; dirty = insert_member id p'.dirty }),
        ))

-- One more than the greatest cached page number, or 0
unfoldable pub cached_max : List (ℕ × Bytes) → ℕ
cached_max [] = 0
cached_max ((id, page) ∷ cache) = max (id + 1) (cached_max cache)

-- `PageFile::num_pages`
unfoldable pub num_pages : PageFile → Result Str ℕ
unfolding cached_max
num_pages p =
    if not (length p.file % p.page_size == 0)
    then err (ascii "file length is not a multiple of page size")
    else ok (max (length p.file / p.page_size) (cached_max p.cache))

-- `PageFile::append_page`, which returns the new page's number
unfoldable pub append_page : Exec ℕ
unfolding num_pages write_page
append_page p = elim (num_pages p) [
  | err e ↦ (err e, p)
  | ok id ↦ continue (write_page id (zeros p.page_size) p) (λ u p'. (ok id, p'))
]

abbrev pub publish : Exec (Unit {0})
publish p = journaled (checkpoint p.journal) (λ j. (ok tt, record p { journal = j; dirty = [] })) p

-- `PageFile::flush`, and `PageFile::sync`
unfoldable pub flush : Exec (Unit {0})
unfolding write_back
flush p = continue (write_back p) (λ u p'. publish p')

-- `PageFile::truncate`
unfoldable pub truncate : Exec (Unit {0})
truncate p =
    journaled (reset p.journal)
      (λ j. (ok tt, record p { journal = j; cache = []; last_used = []; dirty = []; file = [] })) p
