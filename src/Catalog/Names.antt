-- ===== src/Catalog/Names.antt =====
-- The map from names to tables of catalog.rs: what is found behind `insert` and `remove`.
use chu_sql.Base.{
  ◌≡◌, refl, sym, ap, subst, ◌∙◌, inl, inr, Bool, true, false, none, some, List, [], ◌∷◌, bytes_eq,
  bytes_eq→eq, bytes_eq_refl, if◌then◌else◌, arith, Bool-cases,
}
use chu_sql.Base.Text.{Str}
use chu_sql.Catalog.{named, put_named, remove_named}

module _ {ℓ} {A : Type ℓ} where
  pub named-put_named :
      (m n : Str) (v : A) (t : List (Str × A))
      → named m (put_named n v t) ≡ (if bytes_eq n m then some v else named m t)
  named-put_named m n v [] = refl
  named-put_named m n v ((k, w) ∷ t) = elim (Bool-cases (bytes_eq k n)) [
    | inl y ↦ rw y (
        subst
          (λ x.
            (if bytes_eq k m then some v else named m t)
            ≡ (if bytes_eq x m then some v else (if bytes_eq k m then some w else named m t)))
          (bytes_eq→eq k n y) (same (bytes_eq k m)))
    | inr z ↦ rw z (elim (Bool-cases (bytes_eq k m)) [
      | inl y ↦ rw y (elim (Bool-cases (bytes_eq n m)) [
        | inl x ↦ absurd (
            ground (
              arith,
              z,
              ap (bytes_eq k) (bytes_eq→eq k m y ∙ sym (bytes_eq→eq n m x)),
              bytes_eq_refl k,
            ))
        | inr x ↦ rw x
      ])
      | inr y ↦ rw y (named-put_named m n v t)
    ])
  ]
    where
      same :
          (b : Bool)
          → (if b then some v else named m t)
            ≡ (if b then some v else (if b then some w else named m t))
      same true = refl
      same false = refl

  pub named-remove_named :
      (m n : Str) (t : List (Str × A))
      → named m (remove_named n t) ≡ (if bytes_eq n m then none else named m t)
  named-remove_named m n [] = ground arith
  named-remove_named m n ((k, w) ∷ t) = elim (Bool-cases (bytes_eq k n)) [
    | inl y ↦ rw y (
        named-remove_named m n t
        ∙ subst
            (λ x.
              (if bytes_eq x m then none else named m t)
              ≡ (if bytes_eq x m then none else (if bytes_eq k m then some w else named m t)))
            (bytes_eq→eq k n y) (gone (bytes_eq k m)))
    | inr z ↦ rw z (elim (Bool-cases (bytes_eq k m)) [
      | inl y ↦ rw y (elim (Bool-cases (bytes_eq n m)) [
        | inl x ↦ absurd (
            ground (
              arith,
              z,
              ap (bytes_eq k) (bytes_eq→eq k m y ∙ sym (bytes_eq→eq n m x)),
              bytes_eq_refl k,
            ))
        | inr x ↦ rw x
      ])
      | inr y ↦ rw y (named-remove_named m n t)
    ])
  ]
    where
      gone :
          (b : Bool)
          → (if b then none else named m t)
            ≡ (if b then none else (if b then some w else named m t))
      gone true = refl
      gone false = refl
