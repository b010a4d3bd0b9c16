-- ===== src/BTree/Disk.antt =====
-- `DiskBTree` of btree.rs: the tree over a page file. The state of each method is the page file, the
-- order is an argument. A method that fails keeps what it did before; a panic is an error here.
use chu_sql.Base.{
  ℕ, zero, suc, ◌+◌, ◌-◌, Bool, true, false, not, ◌&&◌, Option, none, some, List, [], ◌∷◌, length,
  ltb, leb, ◌==◌, bytes_eq, if◌then◌else◌, get_elem?, take, drop, Result, ok, err, unwrap_or,
}
use chu_sql.Base.Bytes.{Bytes}
use chu_sql.Base.Text.{Str, ascii}
use chu_sql.Page.{zeros}
use chu_sql.Page.PageFile.{
  Exec, continue, with_page, update_page, append_page, read_page, write_page, truncate, num_pages,
}
use chu_sql.BTree.Layout.{max_keys, key_limit, check_key, fits_in_page, legacy_key_bytes}
use chu_sql.BTree.Keys.{key_lt, key_le}
use chu_sql.BTree.Node.{Node, leaf, internal, read_le, write_le, put_node, get_node}
use chu_sql.BTree.Meta.{write_meta, check_meta}
use chu_sql.BTree.Search.{partition_point, leaf_slot, child_slot, insert_at, remove_at, split_node}

abbrev pub pure : {A : Type 0} → A → Exec A
pure a p = (ok a, p)

abbrev pub fail : {A : Type 0} → Str → Exec A
fail e p = (err e, p)

infixl 5 ◌>>=◌
abbrev pub ◌>>=◌ : {A B : Type 0} → Exec A → (A → Exec B) → Exec B
(m >>= f) p = continue (m p) f

infixl 5 ◌>>◌
abbrev pub ◌>>◌ : {A B : Type 0} → Exec A → Exec B → Exec B
m >> k = m >>= λ a. k

abbrev pub lift : {A : Type 0} → Result Str A → Exec A
lift r p = (r, p)

-- A value that an index out of range leaves out.
abbrev pub checked : {A : Type 0} → Option A → Exec A
checked none p = (err (ascii "panic: index out of range"), p)
checked (some a) p = (ok a, p)

-- A page function that may panic or fail, with the page that it leaves.
abbrev pub changed {ℓ} : {A : Type ℓ} → Option A → Bytes → Option A × Bytes
changed a page = (a, page)

-- `DiskBTree::root`
unfoldable pub root : Exec (Option ℕ)
unfolding with_page read_le
root = do
  r ← with_page 0 (λ page. read_le 8 page 10)
  id ← checked r
  pure (if id == 0 then none else some id)

-- A page in place of another one, where the function did not panic
abbrev pub replaced : Bytes → Option Bytes → Option (Unit {0}) × Bytes
replaced page none = (none, page)
replaced page (some page') = (some tt, page')

-- `DiskBTree::set_root`
unfoldable pub set_root : Option ℕ → Exec (Unit {0})
unfolding update_page write_le
set_root r = do
  done ← update_page 0 (λ page. replaced page (write_le 8 page 10 (unwrap_or r 0)))
  checked done

abbrev pub stored_node : Bytes → Option (Result Str Bytes) → Option (Result Str (Unit {0})) × Bytes
stored_node page none = (none, page)
stored_node page (some (err e)) = (some (err e), page)
stored_node page (some (ok page')) = (some (ok tt), page')

-- `DiskBTree::store`
unfoldable pub store : ℕ → Node → Exec (Unit {0})
unfolding update_page put_node
store id node = do
  done ← update_page id (λ page. stored_node page (put_node node page))
  r ← checked done
  lift r

-- `DiskBTree::alloc`
unfoldable pub alloc : Node → Exec ℕ
unfolding append_page store
alloc node = do id ← append_page; store id node; pure id

-- `DiskBTree::load`
unfoldable pub load : ℕ → Exec Node
unfolding with_page get_node
load id = do r ← with_page id get_node; node ← checked r; lift node

-- A new page with the header, as `DiskBTree::open` and `DiskBTree::clear` write it
abbrev pub write_header : ℕ → Exec (Unit {0})
write_header order p = elim (write_meta (zeros p.page_size) p.page_size order 0) [
  | none ↦ (err (ascii "panic: index out of range"), p)
  | some meta ↦ write_page 0 meta p
]

-- `DiskBTree::open` on the page file that `PageFile::with_options` opens
unfoldable pub open_tree : ℕ → Exec (Unit {0})
unfolding fits_in_page num_pages read_page check_meta write_meta write_page
open_tree order p =
    if not (fits_in_page p.page_size order)
    then (err (ascii "btree order does not fit in a page"), p)
    else elim (num_pages p) [
      | err e ↦ (err e, p)
      | ok n ↦
          if n == 0
          then write_header order p
          else continue (read_page 0 p)
              (λ meta p'. continue (checked (check_meta meta p'.page_size order) p') lift)
    ]

-- `DiskBTree::clear`
unfoldable pub clear : ℕ → Exec (Unit {0})
unfolding truncate write_meta write_page
clear order = truncate >> write_header order

-- The loop of `DiskBTree::is_empty`. Nodes on the way down are pages of the file, so more rounds
-- than pages mean that the file is damaged and the source does not return.
unfoldable pub leftmost_empty : ℕ → ℕ → Exec Bool
unfolding load
leftmost_empty zero id = fail (ascii "out of fuel")
leftmost_empty (suc fuel) id = do
  node ← load id
  if node.kind == leaf
      then pure (length node.keys == 0)
      else (do child ← checked (get_elem? node.values 0); leftmost_empty fuel child)

-- `DiskBTree::is_empty`
unfoldable pub is_empty : ℕ → Exec Bool
unfolding root leftmost_empty
is_empty fuel = do r ← root; elim r [ none ↦ pure true | some id ↦ leftmost_empty fuel id ]

-- The end of `DiskBTree::insert_rec`: the changed node is stored, in two pages if it has too many
-- keys.
unfoldable pub store_or_split : ℕ → ℕ → Node → Exec (Option (Bytes × ℕ))
unfolding store alloc split_node
store_or_split order id node =
    if leb (length node.keys) (max_keys order) then store id node >> pure none else do
      (low, sep, right) ← checked (split_node node)
      right_id ← alloc right
      store id (if low.kind == leaf then record low { next = right_id } else low)
      pure (some (sep, right_id))

-- The separator and the page of a child that was cut in two, put into the node
abbrev pub add_child : Node → Option (Bytes × ℕ) → Node
add_child node none = node
add_child node (some (sep, right_id)) =
    let at = partition_point (λ k. key_le k sep) node.keys in
    record node {
      keys = insert_at at sep node.keys;
      values = insert_at (at + 1) right_id node.values;
    }

-- The leaf with the entry put in
abbrev pub add_entry : Node → Bytes → ℕ → Node
add_entry node key value =
    let at = leaf_slot node.keys node.values key value in
    record node { keys = insert_at at key node.keys; values = insert_at at value node.values }

-- `DiskBTree::insert_rec`, on fuel for the depth of the tree
unfoldable pub insert_rec : ℕ → ℕ → ℕ → Bytes → ℕ → Exec (Option (Bytes × ℕ))
unfolding load store_or_split leaf_slot child_slot
insert_rec zero order id key value = fail (ascii "out of fuel")
insert_rec (suc fuel) order id key value = do
  node ← load id
  if node.kind == leaf then store_or_split order id (add_entry node key value) else (do
    child ← checked (get_elem? node.values (child_slot node.keys key))
    split ← insert_rec fuel order child key value
    store_or_split order id (add_child node split))

-- The header notes longer keys when the first one comes.
abbrev pub raise_limit : ℕ → Bytes → Exec (Unit {0})
raise_limit order key p =
    if not (ltb legacy_key_bytes (length key))
    then (ok tt, p)
    else (do
      meta ← read_page 0
      stored ← checked (read_le 2 meta 8)
      if stored == key_limit p.page_size order then pure tt else (do
        meta' ← checked (write_le 2 meta 8 (key_limit p.page_size order))
        write_page 0 meta'))
        p

-- The end of `DiskBTree::insert`: a root that was cut in two gets a node above it.
abbrev pub grow : ℕ → Option (Bytes × ℕ) → Exec (Unit {0})
grow id none = pure tt
grow id (some (sep, right_id)) = do
  top ← alloc (record { kind = internal; next = 0; keys = sep ∷ []; values = id ∷ right_id ∷ [] })
  set_root (some top)

-- `DiskBTree::insert`
unfoldable pub insert : ℕ → ℕ → Bytes → ℕ → Exec (Unit {0})
unfolding check_key root alloc set_root insert_rec read_page write_page read_le write_le key_limit
insert fuel order key value p =
    (do
      lift (check_key key p.page_size order)
      raise_limit order key
      r ← root
      elim r [
        | none ↦ (do
          id ← alloc (record { kind = leaf; next = 0; keys = key ∷ []; values = value ∷ [] })
          set_root (some id))
        | some id ↦ (do split ← insert_rec fuel order id key value; grow id split)
      ])
      p

abbrev pub same_entry : Node → ℕ → Bytes → ℕ → Bool
same_entry node at key value =
    ltb at (length node.keys)
    && (bytes_eq (unwrap_or (get_elem? node.keys at) []) key
        && (unwrap_or (get_elem? node.values at) 0 == value))

-- The loop of `DiskBTree::delete_rec` over the children that may have the key
unfoldable pub delete_in : (ℕ → Exec Bool) → List ℕ → Exec Bool
delete_in delete_child [] = pure false
delete_in delete_child (child ∷ children) = do
  done ← delete_child child
  if done then pure true else delete_in delete_child children

-- `DiskBTree::delete_rec`, on fuel for the depth of the tree
unfoldable pub delete_rec : ℕ → ℕ → Bytes → ℕ → Exec Bool
unfolding load leaf_slot child_slot store delete_in
delete_rec zero id key value = fail (ascii "out of fuel")
delete_rec (suc fuel) id key value = do
  node ← load id
  if node.kind == leaf
      then (let at = leaf_slot node.keys node.values key value in
          if same_entry node at key value
          then store id
              (record node { keys = remove_at at node.keys; values = remove_at at node.values })
            >> pure true
          else pure false)
      else (let first = partition_point (λ k. key_lt k key) node.keys in
          let last = child_slot node.keys key in
          if ltb last (length node.values)
          then delete_in (λ child. delete_rec fuel child key value)
              (take (suc last - first) (drop first node.values))
          else fail (ascii "panic: index out of range"))

-- `DiskBTree::delete`
unfoldable pub delete : ℕ → Bytes → ℕ → Exec Bool
unfolding root delete_rec
delete fuel key value = do
  r ← root
  elim r [ none ↦ pure false | some id ↦ delete_rec fuel id key value ]
