-- ===== src/Catalog/Changes.antt =====
-- The object numbers of catalog.rs behind changes of a table and behind its removal.
use chu_sql.Base.{
  ℕ, ◌≡◌, refl, sym, ap, ◌∙◌, inl, inr, Bool, not, Option, some, List, bytes_eq, bytes_eq→eq,
  is_some, Result, ok, err, arith, Bool-cases, Option-cases, unwrap_or,
}
use chu_sql.Base.Text.{Str}
use chu_sql.Protocol.{SchemaColumn}
use chu_sql.Catalog.{
  Kinds, TableSchema, Catalog, named, put_named, remove_named, drop_table, replaced,
  set_columns_version, remove_column_version, target_version,
}
use chu_sql.Catalog.Names.{named-put_named, named-remove_named}
use chu_sql.Catalog.Objects.{IsValid}

module _ {K : Kinds} where
  -- A table is put in place of one with the same number.
  put_same :
      (c : Catalog K) (table : Str) (s t : TableSchema K) (seen : List (Str × K.Seen))
      → IsValid c
      → named table c.tables ≡ some s
      → t.object_id ≡ s.object_id
      → IsValid (record c { tables = put_named table t c.tables; seen = seen })
  unfolding IsValid
  put_same c table s t seen (below, unique) e same =
      let prior : (n : Str) (u : TableSchema K)
          → named n (put_named table t c.tables) ≡ some u
          → (w : TableSchema K) × (named n c.tables ≡ some w) × (u.object_id ≡ w.object_id) =
        λ n u f. elim (Bool-cases (bytes_eq table n)) [
          | inl y ↦ (
            s,
            ap (λ k. named k c.tables) (sym (bytes_eq→eq table n y)) ∙ e,
            sym (
                  ap (λ (o : Option (TableSchema K)). (unwrap_or o t).object_id)
                    (rw (named-put_named n table t c.tables, y) at f))
                ∙ same,
          )
          | inr z ↦ (u, (rw (named-put_named n table t c.tables, z) at f), refl)
        ] in
      (
        λ n u f. let (w, g, q) = prior n u f in omega (arith, below n w g, q),
        λ n m u v f g q p.
            let (w, f', a) = prior n u f in
            let (x, g', b) = prior m v g in
            unique n m w x f' g' (sym a ∙ q ∙ b) (omega (arith, p, a)),
      )

  drop_table-IsValid : (c : Catalog K) (table : Str) → IsValid c → IsValid ((drop_table table c).1)
  unfolding drop_table IsValid
  drop_table-IsValid c table (below, unique) = elim (Bool-cases (is_some (named table c.tables))) [
    | inr z ↦ rw z (below, unique)
    | inl y ↦ rw y (
      λ n u f. below n u (left n u f),
      λ n m u v f g q p. unique n m u v (left n u f) (left m v g) q p,
    )
  ]
    where
      left :
          (n : Str) (u : TableSchema K)
          → named n (remove_named table c.tables) ≡ some u
          → named n c.tables ≡ some u
      left n u f = elim (Bool-cases (bytes_eq table n)) [
        | inl y ↦ absurd (ground (arith, named-remove_named n table c.tables, y, f))
        | inr z ↦ (rw (named-remove_named n table c.tables, z) at f)
      ]

  replaced-IsValid :
      {A : Type 0} (c : Catalog K) (table : Str) (s : TableSchema K) (entry : ℕ → TableSchema K)
      (answer : A) (r : Result Str ℕ)
      → IsValid c
      → named table c.tables ≡ some s
      → ((v : ℕ) → (entry v).object_id ≡ s.object_id)
      → IsValid ((replaced table entry answer r c).1)
  replaced-IsValid c table s entry answer (err e) v here same = v
  replaced-IsValid c table s entry answer (ok n) v here same =
      put_same c table s (entry n) (remove_named table c.seen) v here (same n)

  -- A valid catalog stays valid when a table is dropped, when its columns are replaced and when a
  -- column is removed, with a version from the log or without one, whether that succeeds or fails.
  pub changes_keep_object_ids :
      (c : Catalog K)
      (columns_eq : List (SchemaColumn K.Value) → List (SchemaColumn K.Value) → Bool)
      (table column : Str) (columns : List (SchemaColumn K.Value)) (version : Option ℕ)
      → IsValid c
      → IsValid ((drop_table table c).1)
        × IsValid ((set_columns_version columns_eq table columns version c).1)
        × IsValid ((remove_column_version table column version c).1)
  unfolding set_columns_version remove_column_version
  changes_keep_object_ids c columns_eq table column columns version v = (
    drop_table-IsValid c table v,
    elim (Option-cases (named table c.tables)) [
      | inl e ↦ rw (set_columns_version, e) v
      | inr (s, e) ↦
          rw (set_columns_version, e)
            (replaced-IsValid c table s _ tt
              (target_version version (not (columns_eq s.columns columns)) s) v e (λ n. refl))
    ],
    elim (Option-cases (named table c.tables)) [
      | inl e ↦ rw (remove_column_version, e) v
      | inr (s, e) ↦
          rw (remove_column_version, e) (replaced-IsValid c table s _ _ _ v e (λ n. refl))
    ],
  )
