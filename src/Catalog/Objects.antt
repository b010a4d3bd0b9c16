-- ===== src/Catalog/Objects.antt =====
-- The object numbers of catalog.rs, and how a new table gets one.
use chu_sql.Base.{
  ℕ, ◌+◌, ◌^◌, ◌≤◌, ◌<◌, ◌≡◌, ◌≢◌, refl, sym, ap, subst, ◌∙◌, inl, inr, false, ◌||◌, Option, none,
  some, List, [], ◌∷◌, any, bytes_eq, bytes_eq→eq, bytes_eq_refl, leb, ◌==◌, Result, ok, err, arith,
  Bool-cases, Option-cases, unwrap_or,
}
use chu_sql.Base.Text.{Str}
use chu_sql.Protocol.{SchemaColumn}
use chu_sql.Catalog.{
  Kinds, TableSchema, Catalog, named, put_named, describe, reserve_object_id, take_object_id,
  new_table, add_table, create_table_with_id,
}
use chu_sql.Catalog.Names.{named-put_named}

module _ {K : Kinds} where
  -- Numbers do not exceed the highest one given out, and a number names one table; 0 is the mark of
  -- a table without a number.
  unfoldable pub IsValid : Catalog K → Type 0
  IsValid c =
      ((n : Str) (t : TableSchema K)
        → named n c.tables ≡ some t
        → t.object_id ≤ c.object_high_water)
      × ((n m : Str) (t u : TableSchema K)
          → named n c.tables ≡ some t
          → named m c.tables ≡ some u
          → t.object_id ≡ u.object_id
          → 0 < t.object_id
          → n ≡ m)

  not_used :
      (id : ℕ) (tables : List (Str × TableSchema K)) (n : Str) (t : TableSchema K)
      → any (λ (name, schema). schema.object_id == id) tables ≡ false
      → named n tables ≡ some t
      → t.object_id ≢ id
  not_used id [] n t h e = absurd (ground (arith, e))
  not_used id ((k, s) ∷ tables) n t h e = elim (Bool-cases (bytes_eq k n)) [
    | inl y ↦ λ q.
        let same : s ≡ t = ap (λ o. unwrap_or o s) (rw y at e) in
        absurd (ground (arith, h, ap (λ (x : TableSchema K). x.object_id) same, q))
    | inr z ↦ not_used id tables n t (ground (arith, h)) (rw z at e)
  ]

  -- What is promised of a creation.
  unfoldable pub Created :
      Catalog K → Str → List (SchemaColumn K.Value) → Result Str (Unit {0}) × Catalog K → Type 0
  unfolding IsValid describe
  Created c table columns (err e, c') = c' ≡ c
  Created c table columns (ok u, c') =
      IsValid c'
      × (describe table c ≡ none)
      × ((s : TableSchema K) × (describe table c' ≡ some s)
          × (s.columns ≡ columns)
          × (s.object_id ≤ c'.object_high_water)
          × ((n : Str) (t : TableSchema K) → describe n c ≡ some t → t.object_id ≢ s.object_id))
      × ((n : Str) → n ≢ table → describe n c' ≡ describe n c)

  -- A table is put under a name that had none, with a number that no table had.
  put_new :
      (c : Catalog K) (table : Str) (s : TableSchema K) (high : ℕ)
      → IsValid c
      → c.object_high_water ≤ high
      → s.object_id ≤ high
      → ((n : Str) (t : TableSchema K) → named n c.tables ≡ some t → t.object_id ≢ s.object_id)
      → IsValid (record c { object_high_water = high; tables = put_named table s c.tables })
  unfolding IsValid
  put_new c table s high (below, unique) h g new = (
    λ n t e. elim (Bool-cases (bytes_eq table n)) [
      | inl y ↦ omega (
        arith,
        g,
        ap (λ (o : Option (TableSchema K)). (unwrap_or o s).object_id)
            (rw (named-put_named n table s c.tables, y) at e),
      )
      | inr z ↦ omega (arith, h, below n t (rw (named-put_named n table s c.tables, z) at e))
    ],
    λ n m t u e f q p. elim (Bool-cases (bytes_eq table n)) [
      | inl y ↦ elim (Bool-cases (bytes_eq table m)) [
        | inl x ↦ sym (bytes_eq→eq table n y) ∙ bytes_eq→eq table m x
        | inr x ↦ absurd (
            new m u (rw (named-put_named m table s c.tables, x) at f) (
              sym q
              ∙ sym (
                  ap (λ (o : Option (TableSchema K)). (unwrap_or o s).object_id)
                    (rw (named-put_named n table s c.tables, y) at e))))
      ]
      | inr y ↦ elim (Bool-cases (bytes_eq table m)) [
        | inl x ↦ absurd (
            new n t (rw (named-put_named n table s c.tables, y) at e) (
              q
              ∙ sym (
                  ap (λ (o : Option (TableSchema K)). (unwrap_or o s).object_id)
                    (rw (named-put_named m table s c.tables, x) at f))))
        | inr x ↦
            unique n m t u (rw (named-put_named n table s c.tables, y) at e)
              (rw (named-put_named m table s c.tables, x) at f) q p
      ]
    ],
  )

  -- What the choice of a number gives.
  abbrev Fresh : Catalog K → Result Str ℕ × Catalog K → Type 0
  Fresh c (err e, c') = c' ≡ c
  Fresh c (ok id, c') =
      (c' ≡ record c { object_high_water = c'.object_high_water })
      × (c.object_high_water ≤ c'.object_high_water)
      × (id ≤ c'.object_high_water)
      × ((n : Str) (t : TableSchema K) → named n c.tables ≡ some t → t.object_id ≢ id)

  take_object_id-Fresh :
      (c : Catalog K) (object_id : Option ℕ) → IsValid c → Fresh c (take_object_id object_id c)
  unfolding reserve_object_id IsValid
  take_object_id-Fresh c none (below, unique) =
      elim (Bool-cases (leb (2 ^ 64) (c.object_high_water + 1))) [
        | inl y ↦ rw y refl
        | inr z ↦
            rw z (refl, omega arith, omega arith, λ n t e q. absurd (omega (arith, below n t e, q)))
      ]
  take_object_id-Fresh c (some id) v =
      elim (Bool-cases (id == 0 || any (λ (name, schema). schema.object_id == id) c.tables)) [
        | inl y ↦ rw y refl
        | inr z ↦ rw z (
          refl,
          omega arith,
          omega arith,
          λ n t e. not_used id c.tables n t (ground (arith, z)) e,
        )
      ]

  -- `Catalog::create_table_with_id` on a valid catalog, with a number from the log or without one:
  -- an error leaves the catalog as it was; a success means that no table had the name, that the table
  -- is now there with the columns given and with a number that no table had, that all other tables
  -- are as they were, and that the catalog is valid: no number is shared and none exceeds the
  -- highest one given out.
  pub create_table_with_id-Created :
      (c : Catalog K) (table : Str) (columns : List (SchemaColumn K.Value)) (object_id : Option ℕ)
      → IsValid c
      → Created c table columns (create_table_with_id table columns object_id c)
  unfolding create_table_with_id Created describe
  create_table_with_id-Created c table columns object_id v =
      elim (Option-cases (named table c.tables)) [
        | inr (s, e) ↦ rw (create_table_with_id, e) refl
        | inl e ↦
            rw (create_table_with_id, e)
              (go e (take_object_id object_id c) (take_object_id-Fresh c object_id v))
      ]
    where
      go :
          named table c.tables ≡ none
          → (r : Result Str ℕ × Catalog K) → Fresh c r
          → Created c table columns (add_table table columns r)
      go e (err x, c') f = f
      go e (ok id, c') (same, h, g, new) =
          let s : TableSchema K = new_table id columns in
          subst (λ x. Created c table columns (add_table table columns (ok id, x))) (sym same)
            (
              put_new c table s c'.object_high_water v h g new,
              e,
              (
                s,
                rw (named-put_named table table s c.tables, bytes_eq_refl table) refl,
                refl,
                g,
                new,
              ),
              λ n ne. elim (Bool-cases (bytes_eq table n)) [
                | inl y ↦ absurd (ne (sym (bytes_eq→eq table n y)))
                | inr z ↦ rw (named-put_named n table s c.tables, z) refl
              ],
            )
