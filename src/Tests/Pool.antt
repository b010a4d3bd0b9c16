-- ===== src/Tests/Pool.antt =====
-- Concrete page files for the theorems on the page cache.
use chu_sql.Base.{ℕ, ◌≡◌, ◌≤◌, max, arith, some, none, [], ◌∷◌, true, false, ◌⊎◌, is_some}
use chu_sql.Base.Assoc.{get}
use chu_sql.PageWal.{PageWal}
use chu_sql.Page.PageFile.{PageFile, cached_pages, read_page, write_page, flush, coldest, stamp}
use chu_sql.Page.PageFile.View.{IsValid}
use chu_sql.Page.PageFile.Refinement.{Flushed, flush-Flushed}
use chu_sql.Page.PageFile.Reads.{Reads, read_page-Reads}
use chu_sql.Page.PageFile.Writes.{Writes, write_page-Writes}
use chu_sql.Page.PageFile.Capacity.{pool_capacity, coldest_lem}

abbrev pub journal : PageWal
journal = record {
  state = record { version = 1; page_size = 2; sequence = 0; pages = [] };
  lsn = 3;
  pending = false;
  failed = false;
  log = none;
  metadata = none;
}

-- Pages 0 and 1 are in the file, page 0 is cached with other content; there is room for one page.
abbrev pool : PageFile
pool = record {
  file = 1 ∷ 2 ∷ 3 ∷ 4 ∷ [];
  journal = journal;
  page_size = 2;
  capacity = 1;
  cache = (0, 8 ∷ 9 ∷ []) ∷ [];
  last_used = (0, 1) ∷ [];
  clock = 1;
  dirty = 0 ∷ [];
  hits = 0;
  misses = 1;
}

pool-IsValid : IsValid pool
unfolding IsValid
pool-IsValid = (
  λ id page e. ground (arith, e),
  λ id page e m. absurd (ground (arith, e, m)),
  λ id m. ground (arith, m),
)

read_page-Reads_example : Reads pool 1 (read_page 1 pool)
read_page-Reads_example = read_page-Reads 1 pool pool-IsValid (omega arith)

write_page-Writes_example : Writes pool 1 (6 ∷ 7 ∷ []) (write_page 1 (6 ∷ 7 ∷ []) pool)
write_page-Writes_example = write_page-Writes 1 (6 ∷ 7 ∷ []) pool pool-IsValid

flush-Flushed_example : Flushed pool (flush pool)
flush-Flushed_example = flush-Flushed pool pool-IsValid

pool_capacity_example :
    let q : PageFile = (read_page 1 pool).1 in
    let r : PageFile = (write_page 1 (6 ∷ 7 ∷ []) pool).1 in
    (cached_pages q ≤ max 1 q.capacity) × (cached_pages r ≤ max 1 r.capacity)
unfolding cached_pages
pool_capacity_example = pool_capacity 1 (6 ∷ 7 ∷ []) pool (omega arith)

coldest_lem_example :
    ((coldest pool.last_used pool.cache ≡ none) × (pool.cache ≡ []))
    ⊎ ((victim : ℕ) × (coldest pool.last_used pool.cache ≡ some victim)
        × (is_some (get victim pool.cache) ≡ true)
        × ((id : ℕ)
            → is_some (get id pool.cache) ≡ true
            → stamp pool.last_used victim ≤ stamp pool.last_used id))
coldest_lem_example = coldest_lem pool.last_used pool.cache
