-- ===== src/Tests/Trees.antt =====
-- Concrete nodes, settings and index files for the theorems on the B+ tree.
use chu_sql.Base.{
  ℕ, ◌+◌, ◌*◌, ◌^◌, ◌-◌, ◌≤◌, ◌≡◌, ◌≢◌, ◌↔◌, ◌⊎◌, inl, refl, true, some, none, List, [], ◌∷◌, ◌++◌,
  length, arith, ok, filter, All, get_elem?,
}
use chu_sql.Base.Assoc.{get, member}
use chu_sql.Base.Bytes.{Bytes}
use chu_sql.Page.{zeros}
use chu_sql.Page.PageFile.{PageFile}
use chu_sql.Page.PageFile.View.{view, IsValid}
use chu_sql.Tests.Pool.{journal}
use chu_sql.BTree.Layout.{
  node_header, slot, fits_in_page, max_order, check_key, key_limit, validate_layout, cells_bytes,
  fits_in_page-max_order, node_fits, is_power_of_two,
}
use chu_sql.BTree.Keys.{key_lt}
use chu_sql.BTree.Node.{Node, leaf, put_node, get_node, node_bytes, unsorted}
use chu_sql.BTree.RoundTrip.{WellFormed, get_node-put_node}
use chu_sql.BTree.Search.{leaf_slot, split_node, insert_at}
use chu_sql.BTree.Slots.{zip, Ordered, entry_lt, Has, leaf_slot_lem}
use chu_sql.BTree.Split.{Halves, Parts, split_node_lem}
use chu_sql.BTree.Scan.{walk}
use chu_sql.BTree.Chain.{Gives, inside, entries, walk-Gives}

abbrev two_keys : List Bytes
two_keys = (1 ∷ 5 ∷ []) ∷ (2 ∷ []) ∷ []

abbrev two_entries : Node
two_entries = record { kind = leaf; next = 0; keys = two_keys; values = 7 ∷ 9 ∷ [] }

fits_in_page-max_order_example :
    ((fits_in_page 512 4 ≡ true) ↔ ((2 ≤ 4) × (4 ≤ max_order 512)))
    × (fits_in_page 512 (2 ^ 62 + 1) ≡ true)
fits_in_page-max_order_example = fits_in_page-max_order 512 4 (omega arith) (omega arith)

layout_512 : validate_layout 512 4 ≡ ok tt
unfolding validate_layout fits_in_page is_power_of_two
layout_512 = refl

short_keys : All (λ key. check_key key 512 4 ≡ ok tt) two_keys
unfolding check_key key_limit
short_keys = (refl, (refl, tt))

node_fits_example :
    (node_header + (length two_keys * slot + cells_bytes two_keys) ≤ 512)
    × (512 ≤ 2 ^ 16)
    × ((key : Bytes) → length key ≤ 64 → check_key key 512 4 ≡ ok tt)
    × ((key : Bytes) → check_key key 512 4 ≡ ok tt → length key ≤ 128)
node_fits_example = node_fits 512 4 two_keys layout_512 (omega arith) (omega arith) short_keys

two_entries-WellFormed : WellFormed two_entries
unfolding WellFormed unsorted key_lt
two_entries-WellFormed = (
  refl,
  (omega arith, (omega arith, tt)),
  (omega arith, (omega arith, tt)),
  omega arith,
  inl (refl, refl),
)

two_entries_fit : node_bytes two_entries ≤ length (zeros 64)
unfolding node_bytes cells_bytes
two_entries_fit = omega arith

get_node-put_node_example :
    (page : Bytes) × (put_node two_entries (zeros 64) ≡ some (ok page))
    × (length page ≡ length (zeros 64))
    × (get_node page ≡ some (ok two_entries))
get_node-put_node_example =
    get_node-put_node two_entries (zeros 64) two_entries-WellFormed two_entries_fit (omega arith)

two_entries-Ordered : Ordered (zip two_keys (7 ∷ 9 ∷ []))
unfolding entry_lt key_lt
two_entries-Ordered = ((refl, tt), (tt, tt))

leaf_slot_lem_example :
    let at = leaf_slot two_keys (7 ∷ 9 ∷ []) (2 ∷ []) 9 in
    (at ≤ length two_keys)
    × (zip (insert_at at (2 ∷ []) two_keys) (insert_at at 9 (7 ∷ 9 ∷ []))
        ≡ insert_at at (2 ∷ [], 9) (zip two_keys (7 ∷ 9 ∷ [])))
    × Ordered (zip (insert_at at (2 ∷ []) two_keys) (insert_at at 9 (7 ∷ 9 ∷ [])))
    × (Has (2 ∷ [], 9) (zip two_keys (7 ∷ 9 ∷ []))
        → (get_elem? two_keys at ≡ some (2 ∷ [])) × (get_elem? {A = ℕ} (7 ∷ 9 ∷ []) at ≡ some 9))
leaf_slot_lem_example = leaf_slot_lem two_keys (7 ∷ 9 ∷ []) (2 ∷ []) 9 refl two_entries-Ordered

split_node_lem_example :
    (low : Node) × (sep : Bytes) × (right : Node) × (split_node two_entries
      ≡ some (low, sep, right))
    × (low.kind ≡ two_entries.kind)
    × (right.kind ≡ two_entries.kind)
    × (length low.keys ≤ 2 - 1)
    × (length right.keys ≤ 2 - 1)
    × (low.values ++ right.values ≡ two_entries.values)
    × (Halves two_entries low sep right ⊎ Parts two_entries low sep right)
split_node_lem_example = split_node_lem two_entries 2 (omega arith) refl (inl (refl, refl))

-- An index file of one leaf, on page 1, which is cached.
encoded :
    (page : Bytes) × (put_node two_entries (zeros 64) ≡ some (ok page))
    × (length page ≡ length (zeros 64))
    × (get_node page ≡ some (ok two_entries))
encoded =
    get_node-put_node two_entries (zeros 64) two_entries-WellFormed two_entries_fit (omega arith)

abbrev leaf_page : Bytes
leaf_page = encoded.0

one_page :
    (b page : Bytes) (id : ℕ) → get id ((1, b) ∷ []) ≡ some page → length b ≡ 64 → length page ≡ 64
one_page b page id e l = ground (arith, e, l)

only_page : (b page : Bytes) (id : ℕ) → get id ((1, b) ∷ []) ≡ some page → member id (1 ∷ []) ≡ true
only_page b page id e = ground (arith, e)

one_is_not_zero : ◌≢◌ {A = ℕ} 1 0
one_is_not_zero e = absurd (omega (arith, e))

abbrev index_file : PageFile
index_file = record {
  file = [];
  journal = journal;
  page_size = 64;
  capacity = 2;
  cache = (1, leaf_page) ∷ [];
  last_used = [];
  clock = 0;
  dirty = 1 ∷ [];
  hits = 0;
  misses = 0;
}

index_file-IsValid : IsValid index_file
unfolding IsValid
index_file-IsValid = (
  λ id page e. one_page leaf_page page id e (encoded.2),
  λ id page e m. absurd (ground (arith, only_page leaf_page page id e, m)),
  λ id m. ground (arith, m),
)

walk-Gives_example :
    Gives index_file
      (filter (inside none (some (1 ∷ 6 ∷ []))) (entries (two_entries ∷ [])))
      (walk 2 none (some (1 ∷ 6 ∷ [])) 1 index_file)
unfolding view key_lt
walk-Gives_example =
    walk-Gives 2 none (some (1 ∷ 6 ∷ [])) 1 index_file (two_entries ∷ []) (omega arith)
      index_file-IsValid (one_is_not_zero, (omega arith, leaf_page, refl, encoded.3), refl)
      ((refl, tt), (tt, tt))
