-- ===== src/BTree/Scan.antt =====
-- Range scans and look-ups of `DiskBTree` in btree.rs, over the chain of leaves.
use chu_sql.Base.{
  ℕ, zero, suc, Bool, true, false, Option, none, some, List, [], ◌∷◌, ◌++◌, length, ltb, leb, ◌==◌,
  if◌then◌else◌, get_elem?, map,
}
use chu_sql.Base.Bytes.{Bytes}
use chu_sql.Base.Text.{ascii}
use chu_sql.Page.PageFile.{Exec}
use chu_sql.BTree.Keys.{key_lt}
use chu_sql.BTree.Node.{Node, leaf}
use chu_sql.BTree.Search.{partition_point}
use chu_sql.BTree.Disk.{pure, fail, ◌>>=◌, checked, root, load}

-- The child of an internal node, and the leaf to start at, for a lower bound
abbrev pub first_child : Option Bytes → Node → Option ℕ
first_child none node = get_elem? node.values 0
first_child (some start) node =
    get_elem? node.values (partition_point (λ k. key_lt k start) node.keys)

abbrev pub first_leaf : Option Bytes → ℕ → Node → ℕ
first_leaf none id node = id
first_leaf (some start) id node =
    if ltb (partition_point (λ k. key_lt k start) node.keys) (length node.keys)
    then id
    else node.next

-- The first loop of `DiskBTree::scan`, on fuel for the depth of the tree
unfoldable pub descend : ℕ → Option Bytes → ℕ → Exec ℕ
unfolding load
descend zero lo id = fail (ascii "out of fuel")
descend (suc fuel) lo id = do
  node ← load id
  if node.kind == leaf
      then pure (first_leaf lo id node)
      else (do child ← checked (first_child lo node); descend fuel lo child)

abbrev pub below : Option Bytes → Bytes → Bool
below none key = false
below (some start) key = key_lt key start

abbrev pub above : Option Bytes → Bytes → Bool
above none key = false
above (some end) key = key_lt end key

-- One leaf of the second loop: what lies in the range, and whether the range ends here
unfoldable pub in_range :
    Option Bytes → Option Bytes → List Bytes → List ℕ → List (Bytes × ℕ) × Bool
in_range lo hi [] values = ([], false)
in_range lo hi (key ∷ keys) [] = ([], false)
in_range lo hi (key ∷ keys) (value ∷ values) =
    let (rest, done) = in_range lo hi keys values in
    if below lo key
    then (rest, done)
    else if above hi key
    then ([], true)
    else ((key, value) ∷ rest, done)

-- The second loop of `DiskBTree::scan`, on fuel for the number of leaves
unfoldable pub walk : ℕ → Option Bytes → Option Bytes → ℕ → Exec (List (Bytes × ℕ))
unfolding load in_range
walk zero lo hi id = fail (ascii "out of fuel")
walk (suc fuel) lo hi id = if id == 0 then pure [] else (do
  node ← load id
  let (here, done) = in_range lo hi node.keys node.values
  if done then pure here else (do rest ← walk fuel lo hi node.next; pure (here ++ rest)))

-- `DiskBTree::scan`
unfoldable pub scan : ℕ → Option Bytes → Option Bytes → Exec (List (Bytes × ℕ))
unfolding root descend walk
scan fuel lo hi = do
  r ← root
  elim r [ none ↦ pure [] | some id ↦ (do leaf_id ← descend fuel lo id; walk fuel lo hi leaf_id) ]

-- `DiskBTree::iter_all`
unfoldable pub iter_all : ℕ → Exec (List (Bytes × ℕ))
unfolding scan
iter_all fuel = scan fuel none none

-- `values.sort_unstable()`
abbrev pub insert_sorted : ℕ → List ℕ → List ℕ
insert_sorted v [] = v ∷ []
insert_sorted v (w ∷ values) =
    let rest = insert_sorted v values in if leb v w then v ∷ w ∷ values else w ∷ rest

unfoldable pub sort_unstable : List ℕ → List ℕ
sort_unstable [] = []
sort_unstable (v ∷ values) = insert_sorted v (sort_unstable values)

-- `DiskBTree::get_all`
unfoldable pub get_all : ℕ → Bytes → Exec (List ℕ)
unfolding scan sort_unstable
get_all fuel key = do
  entries ← scan fuel (some key) (some key)
  pure (sort_unstable (map (λ (e : Bytes × ℕ). e.1) entries))
