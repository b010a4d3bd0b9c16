-- ===== src/BTree/Node.antt =====
-- The nodes of the B+ tree and their pages: `Node`, `put_node` and `get_node` of btree.rs. An index
-- out of range is a panic, `none`.
use chu_sql.Base.{
  ℕ, zero, suc, ◌+◌, ◌-◌, ◌*◌, Bool, false, not, ◌||◌, Option, none, some, List, [], ◌∷◌, ◌++◌, any,
  length, ltb, ◌==◌, if◌then◌else◌, Result, ok, err, option_map,
}
use chu_sql.Base.{and_then as ◌>>=◌}
use chu_sql.Base.Bytes.{Bytes, slice, splice}
use chu_sql.Base.Le.{to_le, of_le}
use chu_sql.Base.Text.{Str, ascii}
use chu_sql.Page.{zeros}
use chu_sql.BTree.Keys.{key_lt}
use chu_sql.BTree.Layout.{node_header, slot, cell_fixed, cell_bytes, cells_bytes, max_key_bytes}

pub record Node : Type 0 where
  pub kind : ℕ
  pub next : ℕ
  pub keys : List Bytes
  pub values : List ℕ

-- `NODE_LEAF` and `NODE_INTERNAL`
abbrev pub leaf : ℕ
leaf = 0

abbrev pub internal : ℕ
internal = 1

-- `read_u8` to `read_u64`, by the number of bytes
unfoldable pub read_le : ℕ → Bytes → ℕ → Option ℕ
read_le w buf off = option_map of_le (slice off w buf)

-- `write_u8` to `write_u64`
unfoldable pub write_le : ℕ → Bytes → ℕ → ℕ → Option Bytes
write_le w buf off v = splice off (to_le w v) buf

-- `node_bytes`
unfoldable pub node_bytes : Node → ℕ
node_bytes node = node_header + (length node.keys * slot + cells_bytes node.keys)

-- One round of the loop of `put_node`: the cell at `c`, its offset in slot `i`
unfoldable pub put_cell : ℕ → ℕ → Bytes → ℕ → Bytes → Option Bytes
unfolding write_le
put_cell i c key value buf = do
  b1 ← write_le 2 buf c (length key)
  b2 ← splice (c + 2) key b1
  b3 ← write_le 8 b2 (c + 2 + length key) value
  write_le 2 b3 (node_header + i * slot) c

-- The loop of `put_node`. `cursor -= size` below 0 is a panic.
unfoldable pub put_cells : List Bytes → List ℕ → ℕ → ℕ → Bytes → Option Bytes
unfolding put_cell
put_cells [] values i cursor buf = some buf
put_cells (key ∷ keys) [] i cursor buf = none
put_cells (key ∷ keys) (value ∷ values) i cursor buf =
    if ltb cursor (cell_bytes key) then none else do
      b ← put_cell i (cursor - cell_bytes key) key value buf
      put_cells keys values (suc i) (cursor - cell_bytes key) b

-- `values.last().copied().unwrap_or(0)`
abbrev pub last_or_zero : List ℕ → ℕ
last_or_zero [] = 0
last_or_zero (value ∷ []) = value
last_or_zero (value ∷ other ∷ values) = last_or_zero (other ∷ values)

abbrev pub trailer : Node → ℕ
trailer node = if node.kind == internal then last_or_zero node.values else node.next

-- `put_node`
unfoldable pub put_node : Node → Bytes → Option (Result Str Bytes)
unfolding write_le put_cells node_bytes
put_node node buf =
    if ltb 65535 (length node.keys) || ltb (length buf) (node_bytes node)
    then some (err (ascii "index node does not fit in a page"))
    else do
      b1 ← write_le 1 (zeros (length buf)) 0 node.kind
      b2 ← write_le 2 b1 1 (length node.keys)
      b3 ← write_le 8 b2 3 (trailer node)
      b4 ← put_cells node.keys node.values 0 (length buf) b3
      some (ok b4)

abbrev pub add_cell :
    Bytes → ℕ → Result Str (List Bytes × List ℕ) → Result Str (List Bytes × List ℕ)
add_cell key value (err e) = err e
add_cell key value (ok (keys, values)) = ok (key ∷ keys, value ∷ values)

-- The loop of `get_node`, with `k` slots to go from slot `i` on
unfoldable pub get_cells : ℕ → ℕ → ℕ → ℕ → Bytes → Option (Result Str (List Bytes × List ℕ))
unfolding read_le
get_cells zero i slots_end cell_end buf = some (ok ([], []))
get_cells (suc k) i slots_end cell_end buf = do
  off ← read_le 2 buf (node_header + i * slot)
  if ltb off slots_end || ltb (length buf) (off + cell_fixed)
      then some (err (ascii "invalid index cell offset"))
      else do
        klen ← read_le 2 buf off
        if ltb max_key_bytes klen || ltb (length buf) (off + cell_fixed + klen)
            then some (err (ascii "invalid index key length"))
            else if ltb cell_end (off + cell_fixed + klen)
            then some (err (ascii "overlapping index cells"))
            else do
              key ← slice (off + 2) klen buf
              value ← read_le 8 buf (off + 2 + klen)
              rest ← get_cells k (suc i) slots_end off buf
              some (add_cell key value rest)

-- `keys.windows(2).any(|pair| pair[0] > pair[1])`
unfoldable pub unsorted : List Bytes → Bool
unfolding key_lt
unsorted [] = false
unsorted (key ∷ []) = false
unsorted (key ∷ other ∷ keys) = key_lt other key || unsorted (other ∷ keys)

-- The checks of `get_node` behind its loop
abbrev pub get_checked : ℕ → ℕ → Result Str (List Bytes × List ℕ) → Result Str Node
get_checked kind last (err e) = err e
get_checked kind last (ok (keys, values)) =
    if unsorted keys
    then err (ascii "index keys are not sorted")
    else if not (kind == internal)
    then ok (record { kind = kind; next = last; keys = keys; values = values })
    else if any (λ v. v == 0) (values ++ last ∷ [])
    then err (ascii "invalid index child page")
    else ok (record { kind = kind; next = 0; keys = keys; values = values ++ last ∷ [] })

-- `get_node`
unfoldable pub get_node : Bytes → Option (Result Str Node)
unfolding read_le get_cells unsorted
get_node buf =
    if ltb (length buf) node_header then some (err (ascii "truncated index node header")) else do
      kind ← read_le 1 buf 0
      count ← read_le 2 buf 1
      let slots_end = node_header + count * slot
      if not (kind == leaf || kind == internal) || ltb (length buf) slots_end
          then some (err (ascii "invalid index node kind or slot count"))
          else do
            last ← read_le 8 buf 3
            cells ← get_cells count 0 slots_end (length buf) buf
            some (get_checked kind last cells)
