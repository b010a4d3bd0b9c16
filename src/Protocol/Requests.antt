-- ===== src/Protocol/Requests.antt =====
-- `Request` and `Response` of protocol.rs, and the checks that a request passes before it is
-- dispatched.
pub mod Accepted
use chu_sql.Base.{ℕ, ℤ, Bool, true, ◌&&◌, Option, none, some, List, [], ◌∷◌, all}
use chu_sql.Base.Text.{Str}
use chu_sql.Protocol.{
  Wire, Account, SchemaColumn, StorageOp, upsert, delete, replace, ColumnStatWire, IndexWire,
  TableSchemaWire,
}
use chu_sql.Protocol.Names.{valid_storage_name}

pub data Request (W : Wire) : Type 0 where
  catalog_manage : Request W → Request W
  accounts_list : Request W
  identity_initialize : Str → Request W
  role_create : Str → Request W
  identity_alter : Str → Option Bool → Option Bool → Option Bool → Option Bool → Request W
  account_create : Str → Str → Request W
  account_reset : Str → Str → Request W
  account_login : Str → Option Str → Request W
  account_drop : Str → Request W
  bootstrap_system : Option Str → Option Str → Request W
  system_status : Request W
  bootstrap_types : List W.Row → Request W
  ping : Request W
  scan : Str → Option (List Str) → Request W
  validate_write : Str → Request W
  scan_shard : Str → Option (List Str) → ℕ → ℕ → Request W
  insert : Str → W.Row → Request W
  insert_batch : Str → List W.Row → Request W
  delete_keys : Str → List ℤ → Request W
  lookup_by_index : Str → Str → W.Value → Request W
  range_by_index : Str → Str → Option W.Value → Bool → Option W.Value → Bool → Request W
  replace_all : Str → List W.Row → Request W
  list_tables : Request W
  describe_table : Str → Request W
  create_table : Str → List (SchemaColumn W.Value) → Request W
  drop_table : Str → Request W
  list_catalog : Request W
  domain_snapshot : Request W
  mvcc_begin : Bool → Option (List Str) → Request W
  mvcc_read : Str → List Str → List (Str × List Str) → Request W
  mvcc_lock : Str → List (StorageOp W.Row) → List Str → Request W
  mvcc_preview : Str → Option (List Str) → Request W
  mvcc_commit : Str → Str → List (StorageOp W.Row) → Request W
  mvcc_rollback : Str → Request W
  database_snapshot : Option Str → Request W
  alter_domain : Str → List (SchemaColumn W.Value) → Str → Request W
  create_index : Str → Str → Request W
  drop_index : Str → Str → Request W
  drop_column : Str → Str → Request W
  compact : Str → Request W
  replace_schema : Str → List (SchemaColumn W.Value) → List W.Row → Request W
  apply_transaction : List (StorageOp W.Row) → Request W

module _ {W : Wire} where
  -- `Request::table`
  unfoldable pub table : Request W → Option Str
  table (scan t _) = some t
  table (scan_shard t _ _ _) = some t
  table (validate_write t) = some t
  table (insert t _) = some t
  table (insert_batch t _) = some t
  table (delete_keys t _) = some t
  table (lookup_by_index t _ _) = some t
  table (replace_all t _) = some t
  table (range_by_index t _ _ _ _ _) = some t
  table (describe_table t) = some t
  table (create_table t _) = some t
  table (drop_table t) = some t
  table (create_index t _) = some t
  table (drop_index t _) = some t
  table (drop_column t _) = some t
  table (compact t) = some t
  table (replace_schema t _ _) = some t
  table (alter_domain t _ _) = some t
  table _ = none

abbrev pub valid_definitions : {V : Type 0} → List (SchemaColumn V) → Bool
valid_definitions columns = all (λ c. valid_storage_name c.name) columns

module _ {Row : Type 0} (keys : Row → List Str) where
  -- `valid_row_columns`, where `keys` are the field names of a row
  unfoldable pub valid_row_columns : Row → Bool
  valid_row_columns row = all valid_storage_name (keys row)

  abbrev pub valid_op : StorageOp Row → Bool
  valid_op (upsert t rows) = all valid_row_columns rows
  valid_op (replace t rows) = all valid_row_columns rows
  valid_op (delete t ids) = true

module _ {W : Wire} (keys : W.Row → List Str) where
  -- `Request::valid_columns`
  unfoldable pub valid_columns : Request W → Bool
  valid_columns (create_index _ column) = valid_storage_name column
  valid_columns (drop_index _ column) = valid_storage_name column
  valid_columns (drop_column _ column) = valid_storage_name column
  valid_columns (lookup_by_index _ column _) = valid_storage_name column
  valid_columns (range_by_index _ column _ _ _ _) = valid_storage_name column
  valid_columns (create_table _ columns) = valid_definitions columns
  valid_columns (alter_domain _ columns _) = valid_definitions columns
  valid_columns (replace_schema _ columns rows) =
      valid_definitions columns && all (valid_row_columns keys) rows
  valid_columns (insert _ row) = valid_row_columns keys row
  valid_columns (insert_batch _ rows) = all (valid_row_columns keys) rows
  valid_columns (replace_all _ rows) = all (valid_row_columns keys) rows
  valid_columns (apply_transaction ops) = all (valid_op keys) ops
  valid_columns (mvcc_lock _ ops _) = all (valid_op keys) ops
  valid_columns (mvcc_commit _ _ ops) = all (valid_op keys) ops
  valid_columns _ = true

pub data Response (W : Wire) : Type 0 where
  guarded : Response W → Response W
  accounts : List Account → Response W
  pong : Response W
  rows : List W.Row → Response W
  tables : List Str → Response W
  schema :
      Str
      → ℕ
      → List (SchemaColumn W.Value)
      → ℕ
      → List IndexWire
      → List (ColumnStatWire W)
      → Response W
  no_index : Response W
  ok : Response W
  system : Bool → ℕ → Response W
  error : Str → Response W
  catalog : List (TableSchemaWire W) → Response W
  domain_snapshot_of : List (TableSchemaWire W) → List (Str × List W.Row) → Str → Response W
  mvcc_snapshot : Str → List (TableSchemaWire W) → List (Str × List W.Row) → Str → Response W
  snapshot_unchanged : Str → Response W
  object : ℕ → Option ℕ → Response W
