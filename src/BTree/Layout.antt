-- ===== src/BTree/Layout.antt =====
-- How many keys of which size a page of the B+ tree takes (btree.rs), and the check of the settings
-- for it (`validate_layout` of config.rs).
use native.Mathlib.Nat.{mul-le-mul_right, mul-le-mul_left, mul-div-le, le-div_iff_mul-le}
use chu_sql.Base.{
  ℕ, zero, suc, ◌+◌, ◌-◌, ◌*◌, ◌/◌, ◌%◌, ◌^◌, ◌≤◌, ◌<◌, ◌≡◌, ◌↔◌, Bool, true, false, not, ◌&&◌,
  ◌||◌, List, [], ◌∷◌, min, length, ltb, leb, ◌==◌, arith, if◌then◌else◌, Result, ok, ◌>>◌,
  reject_if, seq-ok, All,
}
use chu_sql.Base.Bytes.{Bytes}
use chu_sql.Base.Text.{Str, ascii}

-- `HEADER`, `SLOT` and `CELL_FIXED`
abbrev pub node_header : ℕ
node_header = 11

abbrev pub slot : ℕ
slot = 2

abbrev pub cell_fixed : ℕ
cell_fixed = 10

abbrev pub max_key_bytes : ℕ
max_key_bytes = 128

abbrev pub legacy_key_bytes : ℕ
legacy_key_bytes = 64

-- `order - 1` wraps around at 64 bits.
abbrev pub max_keys : ℕ → ℕ
max_keys order = if order == 0 then 2 ^ 64 - 1 else order - 1

abbrev pub max_cell_bytes : ℕ
max_cell_bytes = cell_fixed + legacy_key_bytes

unfoldable pub fits_in_page : ℕ → ℕ → Bool
fits_in_page page_size order =
    leb 2 order && leb ((node_header + max_keys order * (slot + max_cell_bytes)) % 2 ^ 64) page_size

unfoldable pub max_order : ℕ → ℕ
max_order page_size = (page_size - node_header) / (slot + max_cell_bytes) + 1

unfoldable pub key_limit : ℕ → ℕ → ℕ
key_limit page_size order =
    if ltb order 2
    then 0
    else min ((page_size - node_header) / (order - 1) - (slot + cell_fixed)) max_key_bytes

-- `DiskBTree::check_key`
unfoldable pub check_key : Bytes → ℕ → ℕ → Result Str (Unit {0})
unfolding key_limit
check_key key page_size order =
    reject_if (ltb (key_limit page_size order) (length key)) (ascii "index key is too long")

-- `is_power_of_two`, for numbers below `2 ^ fuel`
unfoldable pub is_power_of_two : ℕ → ℕ → Bool
is_power_of_two zero n = false
is_power_of_two (suc fuel) n =
    let rest = is_power_of_two fuel (n / 2) in (n == 1) || ((n % 2 == 0) && (not (n == 0) && rest))

-- `validate_layout` of config.rs
unfoldable pub validate_layout : ℕ → ℕ → Result Str (Unit {0})
unfolding fits_in_page is_power_of_two
validate_layout page_size btree_order =
    reject_if (not (leb 512 page_size && leb page_size 65536) || not (is_power_of_two 17 page_size))
      (ascii "page.size must be a power of two between 512 and 65536")
    >> reject_if (ltb btree_order 3) (ascii "btree.order must be at least 3")
    >> reject_if (not (fits_in_page page_size btree_order))
        (ascii "btree.order does not fit in a page")

-- `cell_bytes`
abbrev pub cell_bytes : Bytes → ℕ
cell_bytes key = cell_fixed + length key

-- `node.keys.iter().map(|k| cell_bytes(k)).sum()`
unfoldable pub cells_bytes : List Bytes → ℕ
cells_bytes [] = 0
cells_bytes (key ∷ keys) = cell_bytes key + cells_bytes keys

-- Below 2 ^ 57 nothing wraps around.
fits_in_page-exact :
    (page_size order : ℕ)
    → order < 2 ^ 57
    → (fits_in_page page_size order ≡ true) ↔ ((2 ≤ order) × (11 + (order - 1) * 76 ≤ page_size))
unfolding fits_in_page
fits_in_page-exact page_size order small = (λ f. ground arith, λ (two, b). ground arith)

-- The greatest order that fits in a page is `max_order`: for pages with room for a node's header
-- and orders below 2 ^ 57, an order fits if it lies between 2 and `max_order`, and no other one does.
-- The order 2 ^ 62 + 1, for which the product wraps around at 64 bits, fits in every such page.
pub fits_in_page-max_order :
    (page_size order : ℕ)
    → node_header ≤ page_size
    → order < 2 ^ 57
    → ((fits_in_page page_size order ≡ true) ↔ ((2 ≤ order) × (order ≤ max_order page_size)))
      × (fits_in_page page_size (2 ^ 62 + 1) ≡ true)
unfolding fits_in_page max_order
fits_in_page-max_order page_size order h small = (
  (
    λ f. ground (arith, (fits_in_page-exact page_size order small).0 f),
    λ b. (fits_in_page-exact page_size order small).1 (omega arith, ground arith),
  ),
  ground arith,
)

-- The room that an order leaves for each key, with what a key takes besides.
key_room :
    (page_size order : ℕ)
    → order < 2 ^ 57
    → fits_in_page page_size order ≡ true
    → (0 < order - 1) × (node_header ≤ page_size) × (76 ≤ (page_size - node_header) / (order - 1))
key_room page_size order small h =
    let (two, room) = (fits_in_page-exact page_size order small).0 h in
    let positive : 0 < order - 1 = omega arith in
    (
      positive,
      omega arith,
      (le-div_iff_mul-le {k = order - 1} {x = 76} {y = page_size - node_header} positive).1
          (omega arith),
    )

cells_bytes-le :
    (limit : ℕ) (keys : List Bytes)
    → All (λ key. length key ≤ limit) keys
    → cells_bytes keys + length keys * slot ≤ length keys * (limit + (slot + cell_fixed))
unfolding cells_bytes
cells_bytes-le limit [] h = omega arith
cells_bytes-le limit (key ∷ keys) (a, b) = omega (arith, cells_bytes-le limit keys b)

pub key_limit-le :
    (page_size order : ℕ)
    → order < 2 ^ 57
    → fits_in_page page_size order ≡ true
    → (legacy_key_bytes ≤ key_limit page_size order)
      × (key_limit page_size order ≤ max_key_bytes)
      × ((order - 1) * (key_limit page_size order + (slot + cell_fixed)) + node_header ≤ page_size)
unfolding key_limit
key_limit-le page_size order small h =
    let (positive, header, room) = key_room page_size order small h in
    let share : key_limit page_size order + (slot + cell_fixed)
        ≤ (page_size - node_header) / (order - 1) =
      ground (arith, room) in
    (
      ground (arith, room),
      ground arith,
      omega (
        arith,
        mul-le-mul_left (order - 1) share,
        mul-div-le (page_size - node_header) (order - 1),
        header,
      ),
    )

check_key-ok :
    (key : Bytes) (page_size order : ℕ)
    → (check_key key page_size order ≡ ok tt) ↔ (length key ≤ key_limit page_size order)
unfolding check_key
check_key-ok key page_size order = (λ e. ground (arith, e), λ h. ground (arith, h))

check_keys-le :
    (page_size order : ℕ) (keys : List Bytes)
    → All (λ key. check_key key page_size order ≡ ok tt) keys
    → All (λ key. length key ≤ key_limit page_size order) keys
check_keys-le page_size order [] h = tt
check_keys-le page_size order (key ∷ keys) (a, b) =
    ((check_key-ok key page_size order).0 a, check_keys-le page_size order keys b)

reject_if-ok : (b : Bool) (e : Str) → reject_if b e ≡ ok tt → b ≡ false
reject_if-ok b e h = ground (arith, h)

or_false-left : (a b : Bool) → (a || b) ≡ false → a ≡ false
or_false-left a b h = ground (arith, h)

validate_layout-ok :
    (page_size order : ℕ)
    → validate_layout page_size order ≡ ok tt
    → (fits_in_page page_size order ≡ true) × (page_size ≤ 65536)
unfolding validate_layout
validate_layout-ok page_size order v =
    let (ab, c) = seq-ok _ _ v in
    let (a, b) = seq-ok _ _ ab in
    let fits : not (fits_in_page page_size order) ≡ false = reject_if-ok _ _ c in
    let size : not (leb 512 page_size && leb page_size 65536) ≡ false =
      or_false-left _ _ (reject_if-ok _ _ a) in
    (ground (arith, fits), ground (arith, size))

-- With settings that `validate_layout` takes, and an order below 2 ^ 57, a node with at most as many keys as the order allows,
-- each taken by `DiskBTree::check_key`, fits in its page, whose offsets fit in 16 bits; keys of 64
-- bytes are always taken, and those longer than 128 never.
pub node_fits :
    (page_size order : ℕ) (keys : List Bytes)
    → validate_layout page_size order ≡ ok tt
    → order < 2 ^ 57
    → length keys ≤ order - 1
    → All (λ key. check_key key page_size order ≡ ok tt) keys
    → (node_header + (length keys * slot + cells_bytes keys) ≤ page_size)
      × (page_size ≤ 2 ^ 16)
      × ((key : Bytes) → length key ≤ 64 → check_key key page_size order ≡ ok tt)
      × ((key : Bytes) → check_key key page_size order ≡ ok tt → length key ≤ 128)
node_fits page_size order keys v small_order n h =
    let (fits, small) = validate_layout-ok page_size order v in
    let (least, most, room) = key_limit-le page_size order small_order fits in
    let limit = key_limit page_size order in
    (
      omega (
        arith,
        cells_bytes-le limit keys (check_keys-le page_size order keys h),
        mul-le-mul_right (limit + (slot + cell_fixed)) n,
        room,
      ),
      small,
      λ key l. (check_key-ok key page_size order).1 (omega (arith, l, least)),
      λ key e. omega (arith, (check_key-ok key page_size order).0 e, most),
    )
