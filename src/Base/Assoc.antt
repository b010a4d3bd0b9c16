-- ===== src/Base/Assoc.antt =====
-- Maps with numbers as keys: association lists in the order of their insertion.
use chu_sql.Base.{
  ℕ, suc, ◌≤◌, ◌<◌, ◌≡◌, refl, Bool, ◌||◌, Option, none, some, List, [], ◌∷◌, ◌++◌, any, length,
  arith, ◌==◌, eqb→eq, if◌then◌else◌, Bool-cases, inl, inr,
}

module _ {ℓ} {A : Type ℓ} where
  -- `map.get(&k)`
  abbrev pub get : ℕ → List (ℕ × A) → Option A
  get k [] = none
  get k ((j, v) ∷ m) = if j == k then some v else get k m

  -- `map.insert(k, v)`
  abbrev pub put : ℕ → A → List (ℕ × A) → List (ℕ × A)
  put k v [] = (k, v) ∷ []
  put k v ((j, w) ∷ m) = let rest = put k v m in if j == k then (k, v) ∷ m else (j, w) ∷ rest

  -- `map.remove(&k)`
  abbrev pub remove : ℕ → List (ℕ × A) → List (ℕ × A)
  remove k [] = []
  remove k ((j, w) ∷ m) = let rest = remove k m in if j == k then rest else (j, w) ∷ rest

  pub get-put :
      (i k : ℕ) (v : A) (m : List (ℕ × A))
      → get i (put k v m) ≡ (if k == i then some v else get i m)
  get-put i k v [] = refl
  get-put i k v ((j, w) ∷ m) = elim (Bool-cases (j == k)) [
    | inl y ↦ rw y (elim (Bool-cases (k == i)) [ inl a ↦ rw a | inr b ↦ rw (eqb→eq j k y, b) ])
    | inr n ↦ rw n (elim (Bool-cases (j == i)) [
      | inl a ↦ ground (arith, eqb→eq j i a)
      | inr b ↦ rw b (get-put i k v m)
    ])
  ]

  pub get-remove :
      (i k : ℕ) (m : List (ℕ × A)) → get i (remove k m) ≡ (if k == i then none else get i m)
  get-remove i k [] = ground arith
  get-remove i k ((j, w) ∷ m) = ground (arith, get-remove i k m)

  pub length-put : (k : ℕ) (v : A) (m : List (ℕ × A)) → length (put k v m) ≤ suc (length m)
  length-put k v [] = omega arith
  length-put k v ((j, w) ∷ m) = ground (arith, length-put k v m)

  pub length-put_present :
      (k : ℕ) (v w : A) (m : List (ℕ × A)) → get k m ≡ some w → length (put k v m) ≡ length m
  length-put_present k v w [] h = ground arith
  length-put_present k v w ((j, x) ∷ m) h = ground (arith, length-put_present k v w m)

  length-remove-le : (k : ℕ) (m : List (ℕ × A)) → length (remove k m) ≤ length m
  length-remove-le k [] = omega arith
  length-remove-le k ((j, w) ∷ m) = ground (arith, length-remove-le k m)

  pub length-remove :
      (k : ℕ) (w : A) (m : List (ℕ × A)) → get k m ≡ some w → length (remove k m) < length m
  length-remove k w [] h = ground arith
  length-remove k w ((j, x) ∷ m) h = ground (arith, length-remove k w m, length-remove-le k m)

-- Sets of numbers as lists without repetition: `set.contains(&k)`, `insert`, `remove`.
abbrev pub member : ℕ → List ℕ → Bool
member k xs = any (λ j. j == k) xs

abbrev pub insert_member : ℕ → List ℕ → List ℕ
insert_member k xs = if member k xs then xs else xs ++ k ∷ []

pub member-append : (i : ℕ) (xs ys : List ℕ) → member i (xs ++ ys) ≡ (member i xs || member i ys)
member-append i [] ys = refl
member-append i (x ∷ xs) ys = ground (arith, member-append i xs ys)

pub member-insert_member :
    (i k : ℕ) (xs : List ℕ) → member i (insert_member k xs) ≡ ((k == i) || member i xs)
member-insert_member i k xs = ground (arith, member-append i xs (k ∷ []), eqb→eq k i)
