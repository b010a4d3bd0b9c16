-- ===== src/BTree/Slots.antt =====
-- Where `leaf_slot` of btree.rs puts an entry: a leaf whose entries are in the order of their keys,
-- and of their values under one key, stays so, and deletion finds every entry.
use chu_sql.Base.{
  ℕ, zero, suc, ◌+◌, ◌≤◌, ◌≡◌, refl, sym, ap, subst, ◌∙◌, ◌⊎◌, inl, inr, Bool, true, false, ◌&&◌,
  ◌||◌, some, List, [], ◌∷◌, length, ltb, bytes_eq, bytes_eq→eq, bytes_eq_refl, if◌then◌else◌,
  get_elem?, arith, All, Bool-cases,
}
use chu_sql.Base.Bytes.{Bytes}
use chu_sql.BTree.Keys.{key_lt, key_lt_irrefl, key_lt_trans, key_lt_total, key_le_trans}
use chu_sql.BTree.Search.{partition_point, leaf_skip, leaf_slot, insert_at}

-- The entries of a leaf.
abbrev pub zip : List Bytes → List ℕ → List (Bytes × ℕ)
zip [] values = []
zip (k ∷ keys) [] = []
zip (k ∷ keys) (v ∷ values) = (k, v) ∷ zip keys values

-- An entry comes before another one.
unfoldable pub entry_lt : Bytes × ℕ → Bytes × ℕ → Bool
unfolding key_lt
entry_lt (k, v) (k', v') = key_lt k k' || (bytes_eq k k' && ltb v v')

-- No entry comes before an earlier one.
abbrev pub Ordered : List (Bytes × ℕ) → Type 0
Ordered [] = Unit {0}
Ordered (e ∷ es) = All (λ f. entry_lt f e ≡ false) es × Ordered es

entry_lt_parts :
    (k k' : Bytes) (v v' : ℕ)
    → entry_lt (k, v) (k', v') ≡ false
    → (key_lt k k' ≡ false) × (k ≡ k' → v' ≤ v)
unfolding entry_lt
entry_lt_parts k k' v v' h =
    (ground (arith, h), λ e. ground (arith, h, bytes_eq_refl k', ap (λ x. bytes_eq x k') e))

entry_lt_none :
    (k k' : Bytes) (v v' : ℕ)
    → key_lt k k' ≡ false
    → (k ≡ k' → v' ≤ v)
    → entry_lt (k, v) (k', v') ≡ false
unfolding entry_lt
entry_lt_none k k' v v' h f = elim (Bool-cases (bytes_eq k k')) [
  | inl y ↦ ground (arith, h, y, f (bytes_eq→eq k k' y))
  | inr n ↦ ground (arith, h, n)
]

entry_le_trans :
    (a b c : Bytes × ℕ) → entry_lt b a ≡ false → entry_lt c b ≡ false → entry_lt c a ≡ false
entry_le_trans (k1, v1) (k2, v2) (k3, v3) h g =
    let (h1, h2) = entry_lt_parts k2 k1 v2 v1 h in
    let (g1, g2) = entry_lt_parts k3 k2 v3 v2 g in
    entry_lt_none k3 k1 v3 v1 (key_le_trans k1 k2 k3 h1 g1) (λ e.
      let back : key_lt k2 k3 ≡ false = subst (λ x. key_lt k2 x ≡ false) (sym e) h1 in
      let same : k3 ≡ k2 = key_lt_total k3 k2 g1 back in omega (arith, h2 (sym same ∙ e), g2 same))

key_lt_asym : (a b : Bytes) → key_lt a b ≡ true → key_lt b a ≡ false
key_lt_asym a b h = elim (Bool-cases (key_lt b a)) [
  | inl y ↦ absurd (ground (arith, key_lt_trans a b a h y, key_lt_irrefl a))
  | inr n ↦ n
]

entry_lt_asym : (a b : Bytes × ℕ) → entry_lt a b ≡ true → entry_lt b a ≡ false
unfolding entry_lt
entry_lt_asym (k, v) (k', v') h = elim (Bool-cases (key_lt k k')) [
  | inl y ↦
      entry_lt_none k' k v' v (key_lt_asym k k' y)
        (λ e. absurd (ground (arith, y, ap (key_lt k) e, key_lt_irrefl k)))
  | inr n ↦
      let same : k ≡ k' = bytes_eq→eq k k' (ground (arith, n, h)) in
      entry_lt_none k' k v' v (sym (ap (λ x. key_lt x k) same) ∙ key_lt_irrefl k)
        (λ e. ground (arith, n, h))
]

-- The index that `leaf_slot` computes, as one loop over the entries.
slot_in : Bytes → ℕ → List Bytes → List ℕ → ℕ
slot_in key value [] values = 0
slot_in key value (k ∷ keys) [] = 0
slot_in key value (k ∷ keys) (v ∷ values) =
    let rest = slot_in key value keys values in if entry_lt (k, v) (key, value) then suc rest else 0

leaf_skip-slot_in :
    (keys : List Bytes) (values : List ℕ) (key : Bytes) (value : ℕ)
    → All (λ e. key_lt e.0 key ≡ false) (zip keys values)
    → leaf_skip keys values key value ≡ slot_in key value keys values
unfolding slot_in entry_lt
leaf_skip-slot_in [] values key value h = refl
leaf_skip-slot_in (k ∷ keys) [] key value h = refl
leaf_skip-slot_in (k ∷ keys) (v ∷ values) key value (h, hs) =
    rw (h, leaf_skip-slot_in keys values key value hs)

not_below :
    (k key : Bytes) (v : ℕ) (es : List (Bytes × ℕ))
    → key_lt k key ≡ false
    → All (λ f. entry_lt f (k, v) ≡ false) es
    → All (λ e. key_lt e.0 key ≡ false) es
not_below k key v [] h a = tt
not_below k key v ((k', v') ∷ es) h (a, rest) =
    (key_le_trans key k k' h ((entry_lt_parts k' k v' v a).0), not_below k key v es h rest)

-- Behind the keys below `key` no key is below it.
leaf_slot-slot_in :
    (keys : List Bytes) (values : List ℕ) (key : Bytes) (value : ℕ)
    → length values ≡ length keys
    → Ordered (zip keys values)
    → leaf_slot keys values key value ≡ slot_in key value keys values
unfolding leaf_slot slot_in entry_lt
leaf_slot-slot_in [] values key value l o = refl
leaf_slot-slot_in (k ∷ keys) [] key value l o = absurd (omega arith)
leaf_slot-slot_in (k ∷ keys) (v ∷ values) key value l (a, o) = elim (Bool-cases (key_lt k key)) [
  | inl y ↦ rw y (
      let i = partition_point (λ x. key_lt x key) keys in
      omega (arith, ap (λ n. n + 0) (leaf_slot-slot_in keys values key value (omega arith) o)))
  | inr n ↦
      rw (n, leaf_skip-slot_in keys values key value (not_below k key v (zip keys values) n a))
        (ground arith)
]

All-insert_at {κ} :
    (P : Bytes × ℕ → Type κ) (at : ℕ) (x : Bytes × ℕ) (es : List (Bytes × ℕ))
    → All P es
    → P x
    → All P (insert_at at x es)
All-insert_at P zero x es h p = (p, h)
All-insert_at P (suc at) x [] h p = (p, tt)
All-insert_at P (suc at) x (e ∷ es) (h, hs) p = (h, All-insert_at P at x es hs p)

entry_lt_total : (a b : Bytes × ℕ) → entry_lt a b ≡ false → entry_lt b a ≡ false → a ≡ b
entry_lt_total (k, v) (k', v') h g =
    let (h1, h2) = entry_lt_parts k k' v v' h in
    let (g1, g2) = entry_lt_parts k' k v' v g in
    let same : k ≡ k' = key_lt_total k k' h1 g1 in
    let equal : v ≡ v' = omega (arith, h2 same, g2 (sym same)) in rw (same, equal)

entry_lt_irrefl : (a : Bytes × ℕ) → entry_lt a a ≡ false
entry_lt_irrefl (k, v) = entry_lt_none k k v v (key_lt_irrefl k) (λ e. omega arith)

-- `x` is one of the entries.
abbrev pub Has : Bytes × ℕ → List (Bytes × ℕ) → Type 0
Has x [] = ⊥
Has x (e ∷ es) = (e ≡ x) ⊎ Has x es

All-Has :
    (x : Bytes × ℕ) (P : Bytes × ℕ → Type 0) (es : List (Bytes × ℕ)) → All P es → Has x es → P x
All-Has x P [] h m = absurd m
All-Has x P (e ∷ es) (h, hs) (inl q) = subst P q h
All-Has x P (e ∷ es) (h, hs) (inr m) = All-Has x P es hs m

module _ (key : Bytes) (value : ℕ) where
  behind :
      (es : List (Bytes × ℕ)) (e : Bytes × ℕ)
      → entry_lt e (key, value) ≡ false
      → All (λ f. entry_lt f e ≡ false) es
      → All (λ f. entry_lt f (key, value) ≡ false) es
  behind [] e h a = tt
  behind (f ∷ es) e h (a, rest) = (entry_le_trans (key, value) e f h a, behind es e h rest)

  -- The entry put in at its slot.
  inserted-Ordered :
      (keys : List Bytes) (values : List ℕ)
      → length values ≡ length keys
      → Ordered (zip keys values)
      → let at = slot_in key value keys values in
        (at ≤ length keys)
        × (zip (insert_at at key keys) (insert_at at value values)
            ≡ insert_at at (key, value) (zip keys values))
        × Ordered (insert_at at (key, value) (zip keys values))
  unfolding slot_in
  inserted-Ordered [] [] l o = (omega arith, refl, (tt, tt))
  inserted-Ordered [] (v ∷ values) l o = absurd (omega arith)
  inserted-Ordered (k ∷ keys) [] l o = absurd (omega arith)
  inserted-Ordered (k ∷ keys) (v ∷ values) l (a, o) =
      elim (Bool-cases (entry_lt (k, v) (key, value))) [
        | inl y ↦
            let (small, same, ordered) = inserted-Ordered keys values (omega arith) o in
            rw y (
              omega (arith, small),
              ap (λ r. (k, v) ∷ r) same,
              (
                All-insert_at (λ f. entry_lt f (k, v) ≡ false) _ (key, value) (zip keys values) a
                    (entry_lt_asym (k, v) (key, value) y),
                ordered,
              ),
            )
        | inr n ↦ rw n (omega arith, refl, ((n, behind (zip keys values) (k, v) n a), (a, o)))
      ]

  -- An entry of the leaf is found at its slot.
  found :
      (keys : List Bytes) (values : List ℕ)
      → length values ≡ length keys
      → Ordered (zip keys values)
      → Has (key, value) (zip keys values)
      → let at = slot_in key value keys values in
        (get_elem? keys at ≡ some key) × (get_elem? values at ≡ some value)
  unfolding slot_in
  found [] values l o m = absurd m
  found (k ∷ keys) [] l o m = absurd (omega arith)
  found (k ∷ keys) (v ∷ values) l (a, o) m = elim (Bool-cases (entry_lt (k, v) (key, value))) [
    | inl y ↦ rw y (elim m [
      | inr later ↦ found keys values (omega arith) o later
      | inl here ↦ absurd (ground (arith, y, ap (entry_lt (k, v)) here, entry_lt_irrefl (k, v)))
    ])
    | inr n ↦
        let same : (k, v) ≡ (key, value) = elim m [
          | inl here ↦ here
          | inr later ↦
              entry_lt_total (k, v) (key, value) n
                (All-Has (key, value) (λ f. entry_lt f (k, v) ≡ false) (zip keys values) a later)
        ] in
        rw n (ap (λ (e : Bytes × ℕ). some (e.0)) same, ap (λ (e : Bytes × ℕ). some (e.1)) same)
  ]

-- In a leaf whose entries are in the order of their keys, and of their values under one key, the
-- place that `leaf_slot` computes lies within the leaf, the insertion of the key and the value there
-- adds the entry, keeps all others and keeps the order; and an entry that the leaf has stands
-- exactly there, so that deletion finds it.
pub leaf_slot_lem :
    (keys : List Bytes) (values : List ℕ) (key : Bytes) (value : ℕ)
    → length values ≡ length keys
    → Ordered (zip keys values)
    → let at = leaf_slot keys values key value in
      (at ≤ length keys)
      × (zip (insert_at at key keys) (insert_at at value values)
          ≡ insert_at at (key, value) (zip keys values))
      × Ordered (zip (insert_at at key keys) (insert_at at value values))
      × (Has (key, value) (zip keys values)
          → (get_elem? keys at ≡ some key) × (get_elem? values at ≡ some value))
leaf_slot_lem keys values key value l o =
    let (small, same, ordered) = inserted-Ordered key value keys values l o in
    rw (leaf_slot-slot_in keys values key value l o)
      (small, same, subst Ordered (sym same) ordered, found key value keys values l o)
