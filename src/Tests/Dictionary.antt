-- ===== src/Tests/Dictionary.antt =====
-- A catalog of one table for the theorems on object numbers.
use chu_sql.Base.{
  ℕ, ◌≡◌, false, none, some, [], ◌∷◌, arith, Bool-cases, inl, inr, bytes_eq, bytes_eq→eq, sym, ◌∙◌,
  ap, unwrap_or, pos,
}
use chu_sql.Base.Text.{Str, ascii}
use chu_sql.Catalog.{
  Kinds, TableSchema, Catalog, named, create_table_with_id, drop_table, set_columns_version,
  remove_column_version, rename_table,
}
use chu_sql.Catalog.Changes.{changes_keep_object_ids}
use chu_sql.Catalog.Objects.{IsValid, Created, create_table_with_id-Created}
use chu_sql.Catalog.Renames.{Renamed, rename_table-Renamed}

abbrev numbers : Kinds
numbers = record { Value = ℕ; Stat = ℕ; Seen = ℕ }

abbrev users : TableSchema numbers
users = record {
  object_id = 3;
  file_generation = [];
  schema_version = 1;
  system = false;
  columns = [];
  dropped_columns = [];
  compacted = false;
  row_count = 0;
  indexes = [];
  stats = [];
}

abbrev catalog : Catalog numbers
catalog = record {
  database_id = 1;
  object_high_water = 4;
  identity_high_water = pos 0;
  tables = (ascii "users", users) ∷ [];
  seen = [];
}

one_table :
    (name n : Str) (t u : TableSchema numbers)
    → named n ((name, t) ∷ []) ≡ some u
    → (name ≡ n) × (t ≡ u)
one_table name n t u e = elim (Bool-cases (bytes_eq name n)) [
  | inl y ↦ (bytes_eq→eq name n y, ap (λ o. unwrap_or o t) (rw y at e))
  | inr z ↦ absurd (ground (arith, z, e))
]

catalog-IsValid : IsValid catalog
unfolding IsValid
catalog-IsValid = (
  λ n t e. omega (
    arith,
    ap (λ (x : TableSchema numbers). x.object_id) ((one_table (ascii "users") n users t e).1),
  ),
  λ n m t u e f q p.
      sym ((one_table (ascii "users") n users t e).0) ∙ (one_table (ascii "users") m users u f).0,
)

create_table_with_id-Created_example :
    Created catalog (ascii "t") [] (create_table_with_id (ascii "t") [] (some 7) catalog)
create_table_with_id-Created_example =
    create_table_with_id-Created catalog (ascii "t") [] (some 7) catalog-IsValid

changes_keep_object_ids_example :
    IsValid ((drop_table (ascii "users") catalog).1)
    × IsValid ((set_columns_version (λ a b. false) (ascii "users") [] none catalog).1)
    × IsValid ((remove_column_version (ascii "users") (ascii "c") none catalog).1)
changes_keep_object_ids_example =
    changes_keep_object_ids catalog (λ a b. false) (ascii "users") (ascii "c") [] none
      catalog-IsValid

rename_table-Renamed_example :
    Renamed catalog
      (ascii "users")
      (ascii "people")
      (rename_table (ascii "users") (ascii "people") catalog)
rename_table-Renamed_example =
    rename_table-Renamed catalog (ascii "users") (ascii "people") catalog-IsValid
