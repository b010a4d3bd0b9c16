-- ===== src/BTree/Split.antt =====
-- `split_node` of btree.rs keeps every key and every value.
use native.Mathlib.Nat.{suc-add}
use chu_sql.Base.{
  ℕ, zero, suc, ◌+◌, ◌-◌, ◌/◌, ◌≤◌, ◌<◌, ◌≡◌, refl, sym, ap, ◌∙◌, ◌⊎◌, inl, inr, some, List, [],
  ◌∷◌, ◌++◌, length, get_elem?, take, drop, arith,
}
use chu_sql.Base.Bytes.{Bytes}
use chu_sql.BTree.Node.{Node, leaf, internal}
use chu_sql.BTree.Search.{split_node}

module _ {ℓ} {A : Type ℓ} where
  take-drop : (n : ℕ) (xs : List A) → take n xs ++ drop n xs ≡ xs
  take-drop zero xs = refl
  take-drop (suc n) [] = refl
  take-drop (suc n) (x ∷ xs) = ap (λ r. x ∷ r) (take-drop n xs)

  length-take : (n : ℕ) (xs : List A) → n ≤ length xs → length (take n xs) ≡ n
  length-take zero xs h = refl
  length-take (suc n) [] h = absurd (omega arith)
  length-take (suc n) (x ∷ xs) h = omega (arith, length-take n xs (omega arith))

  length-drop : (n : ℕ) (xs : List A) → n ≤ length xs → length (drop n xs) + n ≡ length xs
  length-drop zero xs h = omega arith
  length-drop (suc n) [] h = absurd (omega arith)
  length-drop (suc n) (x ∷ xs) h = omega (arith, length-drop n xs (omega arith))

  get_elem_total :
      (n : ℕ) (xs : List A)
      → n < length xs
      → (x : A) × (get_elem? xs n ≡ some x) × (drop n xs ≡ x ∷ drop (n + 1) xs)
  get_elem_total n [] h = absurd (omega arith)
  get_elem_total zero (x ∷ xs) h = (x, refl, refl)
  get_elem_total (suc n) (x ∷ xs) h =
      let (y, e, d) = get_elem_total n xs (omega arith) in (y, e, rw suc-add d)

-- A leaf in two: the halves have its keys and values in order, and the right one starts with the
-- separator and takes over the successor.
abbrev pub Halves : Node → Node → Bytes → Node → Type 0
Halves node low sep right =
    (low.keys ++ right.keys ≡ node.keys)
    × (get_elem? right.keys 0 ≡ some sep)
    × (right.next ≡ node.next)
    × (length low.values ≡ length low.keys)
    × (length right.values ≡ length right.keys)

-- An internal node in two: the separator leaves the keys, and each half has one child more than
-- keys.
abbrev pub Parts : Node → Node → Bytes → Node → Type 0
Parts node low sep right =
    (low.keys ++ sep ∷ right.keys ≡ node.keys)
    × (length low.values ≡ suc (length low.keys))
    × (length right.values ≡ suc (length right.keys))

-- The cut of a node with one key too many for an order of 2 or more, as insertion cuts it: it does
-- not panic, both nodes have the kind of the node and no more keys than the order allows, their
-- values are together those of the node in order, and so are their keys, of which a leaf's right
-- half starts with the separator and an internal node gives up the separator.
pub split_node_lem :
    (node : Node) (order : ℕ)
    → 2 ≤ order
    → length node.keys ≡ order
    → ((node.kind ≡ leaf) × (length node.values ≡ length node.keys))
      ⊎ ((node.kind ≡ internal) × (length node.values ≡ suc (length node.keys)))
    → (low : Node) × (sep : Bytes) × (right : Node) × (split_node node ≡ some (low, sep, right))
      × (low.kind ≡ node.kind)
      × (right.kind ≡ node.kind)
      × (length low.keys ≤ order - 1)
      × (length right.keys ≤ order - 1)
      × (low.values ++ right.values ≡ node.values)
      × (Halves node low sep right ⊎ Parts node low sep right)
unfolding split_node
split_node_lem node order h l (inl (k, v)) =
    let mid = length node.keys / 2 in
    let (sep, e, d) = get_elem_total mid node.keys (omega arith) in
    let kt = length-take mid node.keys (omega arith) in
    let kd = length-drop mid node.keys (omega arith) in
    let vt = length-take mid node.values (omega arith) in
    let vd = length-drop mid node.values (omega arith) in
    (
      record node { keys = take mid node.keys; values = take mid node.values },
      sep,
      record {
        kind = leaf;
        next = node.next;
        keys = drop mid node.keys;
        values = drop mid node.values;
      },
      rw (split_node, e, k) refl,
      refl,
      sym k,
      omega (arith, kt),
      omega (arith, kd),
      take-drop mid node.values,
      inl (
        take-drop mid node.keys,
        ap (λ ks. get_elem? ks 0) d,
        refl,
        omega (arith, kt, vt),
        omega (arith, kd, vd),
      ),
    )
split_node_lem node order h l (inr (k, v)) =
    let mid = length node.keys / 2 in
    let (sep, e, d) = get_elem_total mid node.keys (omega arith) in
    let kt = length-take mid node.keys (omega arith) in
    let kd = length-drop (mid + 1) node.keys (omega arith) in
    let vt = length-take (mid + 1) node.values (omega arith) in
    let vd = length-drop (mid + 1) node.values (omega arith) in
    (
      record node { keys = take mid node.keys; values = take (mid + 1) node.values },
      sep,
      record {
        kind = internal;
        next = 0;
        keys = drop (mid + 1) node.keys;
        values = drop (mid + 1) node.values;
      },
      rw (split_node, e, k) refl,
      refl,
      sym k,
      omega (arith, kt),
      omega (arith, kd),
      take-drop (mid + 1) node.values,
      inr (
        ap (λ r. take mid node.keys ++ r) (sym d) ∙ take-drop mid node.keys,
        omega (arith, kt, vt),
        omega (arith, kd, vd),
      ),
    )
