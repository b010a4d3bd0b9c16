-- ===== src/BTree/Search.antt =====
-- Searches in the keys of a node, and the cut of a node in two: `leaf_slot`, `child_slot` and
-- `split_node` of btree.rs.
use chu_sql.Base.{
  ℕ, zero, suc, ◌+◌, ◌/◌, Bool, ◌&&◌, Option, none, some, List, [], ◌∷◌, length, ltb, ◌==◌,
  bytes_eq, if◌then◌else◌, get_elem?, take, drop,
}
use chu_sql.Base.Bytes.{Bytes}
use chu_sql.BTree.Keys.{key_lt, key_le}
use chu_sql.BTree.Node.{Node, leaf, internal}

-- `keys.partition_point(p)`, for keys that `p` parts: how many come before the first that fails it
abbrev pub partition_point {ℓ} : {A : Type ℓ} → (A → Bool) → List A → ℕ
partition_point p [] = 0
partition_point p (x ∷ xs) = let rest = partition_point p xs in if p x then suc rest else 0

-- The loop of `leaf_slot` over what is left of the keys and values
abbrev pub leaf_skip : List Bytes → List ℕ → Bytes → ℕ → ℕ
leaf_skip [] values key value = 0
leaf_skip (k ∷ keys) [] key value = 0
leaf_skip (k ∷ keys) (v ∷ values) key value =
    let rest = leaf_skip keys values key value in
    if bytes_eq k key && ltb v value then suc rest else 0

-- `leaf_slot`
unfoldable pub leaf_slot : List Bytes → List ℕ → Bytes → ℕ → ℕ
leaf_slot keys values key value =
    let i = partition_point (λ k. key_lt k key) keys in
    i + leaf_skip (drop i keys) (drop i values) key value

-- `child_slot`
unfoldable pub child_slot : List Bytes → Bytes → ℕ
child_slot keys key = partition_point (λ k. key_le k key) keys

-- `keys.insert(at, x)` and `keys.remove(at)`, for `at` within the list
abbrev pub insert_at {ℓ} : {A : Type ℓ} → ℕ → A → List A → List A
insert_at zero x xs = x ∷ xs
insert_at (suc i) x [] = x ∷ []
insert_at (suc i) x (y ∷ xs) = y ∷ insert_at i x xs

abbrev pub remove_at {ℓ} : {A : Type ℓ} → ℕ → List A → List A
remove_at i [] = []
remove_at zero (x ∷ xs) = xs
remove_at (suc i) (x ∷ xs) = x ∷ remove_at i xs

-- `split_node`: the node that stays, the separator and the right half; a node without keys is a
-- panic. The keys of an internal node lose the separator, which moves up.
unfoldable pub split_node : Node → Option (Node × Bytes × Node)
split_node node =
    let mid = length node.keys / 2 in
    elim (get_elem? node.keys mid) [
      | none ↦ none
      | some sep ↦
          if node.kind == leaf
          then some (
            record node { keys = take mid node.keys; values = take mid node.values },
            sep,
            record {
              kind = leaf;
              next = node.next;
              keys = drop mid node.keys;
              values = drop mid node.values;
            },
          )
          else some (
            record node { keys = take mid node.keys; values = take (mid + 1) node.values },
            sep,
            record {
              kind = internal;
              next = 0;
              keys = drop (mid + 1) node.keys;
              values = drop (mid + 1) node.values;
            },
          )
    ]
