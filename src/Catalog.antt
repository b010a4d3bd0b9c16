-- ===== src/Catalog.antt =====
-- The data dictionary of chusql-core/storage/src/catalog.rs: tables with their object numbers,
-- columns and versions. The tables stand in any order: only the numbers that catalogs of an older
-- format get depend on it; so do the names of dropped columns, which are a set. Statistics are opaque, their upkeep is not modelled. A method that fails
-- keeps what it did before.
pub mod Changes
pub mod Names
pub mod Objects
pub mod Renames
use chu_sql.Base.{
  ℕ, ◌+◌, ◌^◌, Bool, true, false, not, ◌&&◌, ◌||◌, Option, none, some, List, [], ◌∷◌, ◌++◌, map,
  filter, any, bytes_eq, leb, ◌==◌, max, if◌then◌else◌, is_some, Result, ok, err, ℤ,
}
use chu_sql.Base.Text.{Str, ascii}
use chu_sql.Protocol.{SchemaColumn}
use chu_sql.Wal.Codec.{valid_generation}

-- The types behind the catalog that are not its own: `serde_json::Value`, the statistics of a column
-- and the counts of a table's values.
pub record Kinds : Type 1 where
  pub Value : Type 0
  pub Stat : Type 0
  pub Seen : Type 0

pub record TableSchema (K : Kinds) : Type 0 where
  pub object_id : ℕ
  pub file_generation : Str
  pub schema_version : ℕ
  pub system : Bool
  pub columns : List (SchemaColumn K.Value)
  pub dropped_columns : List Str
  pub compacted : Bool
  pub row_count : ℕ
  pub indexes : List Str
  pub stats : List (Str × K.Stat)

pub record Catalog (K : Kinds) : Type 0 where
  pub database_id : ℕ
  pub object_high_water : ℕ
  pub identity_high_water : ℤ
  pub tables : List (Str × TableSchema K)
  pub seen : List (Str × K.Seen)

-- `map.get(name)`, `map.insert(name, v)` and `map.remove(name)`
module _ {ℓ} {A : Type ℓ} where
  abbrev pub named : Str → List (Str × A) → Option A
  named name [] = none
  named name ((n, v) ∷ m) = if bytes_eq n name then some v else named name m

  abbrev pub put_named : Str → A → List (Str × A) → List (Str × A)
  put_named name v [] = (name, v) ∷ []
  put_named name v ((n, w) ∷ m) =
      let rest = put_named name v m in if bytes_eq n name then (n, v) ∷ m else (n, w) ∷ rest

  abbrev pub remove_named : Str → List (Str × A) → List (Str × A)
  remove_named name [] = []
  remove_named name ((n, w) ∷ m) =
      let rest = remove_named name m in if bytes_eq n name then rest else (n, w) ∷ rest

-- A method of the catalog.
abbrev pub Change : Kinds → Type 0 → Type 0
Change K A = Catalog K → Result Str A × Catalog K

abbrev pub keeps_column : {Value : Type 0} → Str → SchemaColumn Value → Bool
keeps_column column c = not (bytes_eq c.name column)

abbrev pub insert_name : Str → List Str → List Str
insert_name name names = if any (bytes_eq name) names then names else name ∷ names

-- The first index on the column goes.
abbrev pub remove_first : Str → List Str → List Str
remove_first column [] = []
remove_first column (i ∷ indexes) =
    let rest = remove_first column indexes in if bytes_eq i column then indexes else i ∷ rest

module _ {K : Kinds} where
  -- `next_schema_version`
  unfoldable pub next_schema_version : TableSchema K → Result Str ℕ
  next_schema_version entry =
      if leb (2 ^ 64) (entry.schema_version + 1)
      then err (ascii "catalog schema version exhausted")
      else ok (entry.schema_version + 1)

  -- `Catalog::reserve_object_id`
  unfoldable pub reserve_object_id : Change K ℕ
  reserve_object_id c =
      if leb (2 ^ 64) (c.object_high_water + 1)
      then (err (ascii "catalog object id exhausted"), c)
      else (ok (c.object_high_water + 1), record c { object_high_water = c.object_high_water + 1 })

  -- `Catalog::describe`
  unfoldable pub describe : Str → Catalog K → Option (TableSchema K)
  describe table c = named table c.tables

  -- `Catalog::set_generation`
  unfoldable pub set_generation : Str → ℕ → Str → Str → Change K (Unit {0})
  unfolding valid_generation
  set_generation table object source target c =
      if not (valid_generation target)
      then (err (ascii "invalid physical file generation"), c)
      else elim (named table c.tables) [
        | none ↦ (err (ascii "migration table missing"), c)
        | some schema ↦
            if not (schema.object_id == object)
              || (not (bytes_eq schema.file_generation source)
                  && not (bytes_eq schema.file_generation target))
            then (err (ascii "serialization_failure: migration object changed"), c)
            else (
              ok tt,
              record c {
                tables = put_named table (record schema { file_generation = target }) c.tables;
              },
            )
      ]

  -- The number that a new table gets
  abbrev pub take_object_id : Option ℕ → Change K ℕ
  take_object_id none c = reserve_object_id c
  take_object_id (some id) c =
      if id == 0 || any (λ (name, schema). schema.object_id == id) c.tables
      then (err (ascii "invalid catalog object id"), c)
      else (ok id, record c { object_high_water = max c.object_high_water id })

  abbrev pub new_table : ℕ → List (SchemaColumn K.Value) → TableSchema K
  new_table object_id columns = record {
    object_id = object_id;
    file_generation = [];
    schema_version = 1;
    system = false;
    columns = columns;
    dropped_columns = [];
    compacted = false;
    row_count = 0;
    indexes = [];
    stats = [];
  }

  abbrev pub add_table :
      Str
      → List (SchemaColumn K.Value)
      → Result Str ℕ × Catalog K
      → Result Str (Unit {0}) × Catalog K
  add_table table columns (err e, c) = (err e, c)
  add_table table columns (ok id, c) =
      (ok tt, record c { tables = put_named table (new_table id columns) c.tables })

  -- `Catalog::create_table_with_id`
  unfoldable pub create_table_with_id :
      Str → List (SchemaColumn K.Value) → Option ℕ → Change K (Unit {0})
  unfolding reserve_object_id
  create_table_with_id table columns object_id c =
      if is_some (named table c.tables)
      then (err (ascii "table already exists: " ++ table), c)
      else add_table table columns (take_object_id object_id c)

  -- `Catalog::create_table`
  unfoldable pub create_table : Str → List (SchemaColumn K.Value) → Change K (Unit {0})
  unfolding create_table_with_id
  create_table table columns = create_table_with_id table columns none

  -- `Catalog::mark_system`
  unfoldable pub mark_system : Str → Change K (Unit {0})
  mark_system table c = elim (named table c.tables) [
    | none ↦ (err (ascii "missing system table"), c)
    | some entry ↦
        (ok tt, record c { tables = put_named table (record entry { system = true }) c.tables })
  ]

  -- `Catalog::drop_table`
  unfoldable pub drop_table : Str → Change K (Unit {0})
  drop_table table c =
      if not (is_some (named table c.tables))
      then (err (ascii "unknown table: " ++ table), c)
      else (
        ok tt,
        record c { tables = remove_named table c.tables; seen = remove_named table c.seen },
      )

  abbrev pub moved : Str → Str → TableSchema K → Result Str ℕ → Change K Bool
  moved source target entry (err e) c = (err e, c)
  moved source target entry (ok version) c = (
    ok true,
    record c {
      tables =
          put_named target (record entry { schema_version = version })
            (remove_named source c.tables);
      seen = remove_named source c.seen;
    },
  )

  -- `Catalog::rename_table`
  unfoldable pub rename_table : Str → Str → Change K Bool
  unfolding next_schema_version
  rename_table source target c = elim (named source c.tables) [
    | none ↦ (ok false, c)
    | some entry ↦
        if is_some (named target c.tables)
        then (err (ascii "table already exists: " ++ target), c)
        else moved source target entry (next_schema_version entry) c
  ]

  -- The version that a change of columns leads to: that of the log, or the next one if something
  -- changes
  abbrev pub target_version : Option ℕ → Bool → TableSchema K → Result Str ℕ
  target_version (some version) changes entry =
      if version == 0 then err (ascii "invalid WAL schema version") else ok version
  target_version none changes entry =
      if changes then next_schema_version entry else ok entry.schema_version

  abbrev pub replaced : {A : Type 0} → Str → (ℕ → TableSchema K) → A → Result Str ℕ → Change K A
  replaced table entry answer (err e) c = (err e, c)
  replaced table entry answer (ok version) c = (
    ok answer,
    record c {
      tables = put_named table (entry version) c.tables;
      seen = remove_named table c.seen;
    },
  )

  -- `Catalog::set_columns_version`, where `columns_eq` is the equality of column definitions
  unfoldable pub set_columns_version :
      (List (SchemaColumn K.Value) → List (SchemaColumn K.Value) → Bool)
      → Str
      → List (SchemaColumn K.Value)
      → Option ℕ
      → Change K (Unit {0})
  unfolding next_schema_version
  set_columns_version columns_eq table columns version c = elim (named table c.tables) [
    | none ↦ (err (ascii "unknown table: " ++ table), c)
    | some entry ↦
        replaced table
          (λ v. record entry {
            schema_version = v;
            columns = columns;
            dropped_columns = [];
            indexes = [];
            stats = [];
          })
          tt (target_version version (not (columns_eq entry.columns columns)) entry) c
  ]

  -- `Catalog::set_columns`
  unfoldable pub set_columns :
      (List (SchemaColumn K.Value) → List (SchemaColumn K.Value) → Bool)
      → Str
      → List (SchemaColumn K.Value)
      → Change K (Unit {0})
  unfolding set_columns_version
  set_columns columns_eq table columns = set_columns_version columns_eq table columns none

  -- `Catalog::remove_column_version`
  unfoldable pub remove_column_version : Str → Str → Option ℕ → Change K Bool
  unfolding next_schema_version
  remove_column_version table column version c = elim (named table c.tables) [
    | none ↦ (err (ascii "unknown table: " ++ table), c)
    | some entry ↦
        let had_column = any (λ x. not (keeps_column column x)) entry.columns in
        replaced table
          (λ v. record entry {
            schema_version = v;
            columns = filter (keeps_column column) entry.columns;
            stats = remove_named column entry.stats;
            dropped_columns = insert_name column entry.dropped_columns;
            compacted = false;
            indexes = filter (λ i. not (bytes_eq i column)) entry.indexes;
          })
          had_column (target_version version had_column entry) c
  ]

  -- `Catalog::remove_column`
  unfoldable pub remove_column : Str → Str → Change K Bool
  unfolding remove_column_version
  remove_column table column = remove_column_version table column none

  -- `Catalog::has_dropped_columns`
  unfoldable pub has_dropped_columns : Str → Catalog K → Bool
  has_dropped_columns table c = elim (named table c.tables) [
    | none ↦ false
    | some entry ↦ any (λ column. true) entry.dropped_columns
  ]

  -- `Catalog::mark_compacted`
  unfoldable pub mark_compacted : Str → Change K (Unit {0})
  mark_compacted table c = elim (named table c.tables) [
    | none ↦ (err (ascii "unknown table: " ++ table), c)
    | some entry ↦ (
      ok tt,
      record c {
        tables = put_named table (record entry { compacted = true }) c.tables;
        seen = remove_named table c.seen;
      },
    )
  ]

  -- `Catalog::add_index`
  unfoldable pub add_index : Str → Str → Change K (Unit {0})
  add_index table column c = elim (named table c.tables) [
    | none ↦ (err (ascii "unknown table: " ++ table), c)
    | some entry ↦
        if any (λ i. bytes_eq i column) entry.indexes
        then (err (ascii "index on column \"" ++ column ++ ascii "\" already exists"), c)
        else (
          ok tt,
          record c {
            tables =
                put_named table (record entry { indexes = entry.indexes ++ column ∷ [] }) c.tables;
          },
        )
  ]

  -- `Catalog::remove_index`
  unfoldable pub remove_index : Str → Str → Change K (Unit {0})
  remove_index table column c = elim (named table c.tables) [
    | none ↦ (err (ascii "unknown table: " ++ table), c)
    | some entry ↦
        if not (any (λ i. bytes_eq i column) entry.indexes)
        then (err (ascii "no index on column \"" ++ column ++ ascii "\""), c)
        else (
          ok tt,
          record c {
            tables =
                put_named table (record entry { indexes = remove_first column entry.indexes })
                  c.tables;
          },
        )
  ]
