-- ===== src/Wal/Op.antt =====
-- `WalOp` of chusql-core/storage/src/wal.rs with its payload records, and the interface to
-- `serde_json` through which payloads become bytes.
use chu_sql.Base.{ℕ, ℤ, ◌≡◌, Bool, true, false, Option, none, some, List, [], ◌∷◌}
use chu_sql.Base.Bytes.{Bytes}
use chu_sql.Base.Text.{Str, ascii}
use chu_sql.Protocol.{Account, SchemaColumn}

pub data WalOp (Value Row : Type 0) : Type 0 where
  migrate : Str → ℕ → Str → Str → WalOp Value Row
  hide_column : Str → Str → Option ℕ → WalOp Value Row
  compact : Str → List Row → WalOp Value Row
  accounts : List Account → List Str → Bool → WalOp Value Row
  insert : Str → Row → WalOp Value Row
  insert_batch : Str → List Row → WalOp Value Row
  delete_keys : Str → List ℤ → WalOp Value Row
  replace_all : Str → List Row → WalOp Value Row
  drop_column : Str → Str → Option ℕ → List Row → WalOp Value Row
  replace_schema : Str → List (SchemaColumn Value) → Option ℕ → List Row → WalOp Value Row
  create_table : Str → List (SchemaColumn Value) → Option ℕ → WalOp Value Row
  drop_table : Str → WalOp Value Row
  create_index : Str → Str → WalOp Value Row
  drop_index : Str → Str → WalOp Value Row
  commit : WalOp Value Row

-- `*op == WalOp::Commit`
abbrev pub is_commit : {V R : Type 0} → WalOp V R → Bool
is_commit commit = true
is_commit _ = false

-- `WalOp::table`
unfoldable pub table : {V R : Type 0} → WalOp V R → Option Str
table (migrate t _ _ _) = some t
table (hide_column t _ _) = some t
table (compact t _) = some t
table (accounts _ _ _) = none
table (insert t _) = some t
table (insert_batch t _) = some t
table (delete_keys t _) = some t
table (replace_all t _) = some t
table (drop_column t _ _ _) = some t
table (replace_schema t _ _ _) = some t
table (create_table t _ _) = some t
table (drop_table t) = some t
table (create_index t _) = some t
table (drop_index t _) = some t
table commit = none

pub record HideColumnPayload : Type 0 where
  pub column : Str
  pub schema_version : Option ℕ

pub record DropColumnPayload (Row : Type 0) : Type 0 where
  pub column : Str
  pub schema_version : Option ℕ
  pub rows : List Row

pub record ReplaceSchemaPayload (Value Row : Type 0) : Type 0 where
  pub columns : List (SchemaColumn Value)
  pub schema_version : Option ℕ
  pub rows : List Row

pub record CreateTablePayload (Value : Type 0) : Type 0 where
  pub columns : List (SchemaColumn Value)
  pub object_id : Option ℕ

-- `serde_json::to_vec` and `serde_json::from_slice` at one type.
pub record Codec (A : Type 0) : Type 0 where
  pub to_vec : A → Option Bytes
  pub from_slice : Bytes → Option A

-- What `to_vec` writes of this value, `from_slice` reads back.
abbrev pub ReadBack : {A : Type 0} → Codec A → A → Type 0
ReadBack c a = (bs : Bytes) → c.to_vec a ≡ some bs → c.from_slice bs ≡ some a

-- The calls of `serde_json` in wal.rs, with the types it serialises.
pub record Serde : Type 1 where
  pub Value : Type 0
  pub Row : Type 0
  pub value : Codec Value
  pub row : Codec Row
  pub rows : Codec (List Row)
  pub keys : Codec (List ℤ)
  pub text : Codec Str
  pub drop_payload : Codec (DropColumnPayload Row)
  pub schema_payload : Codec (ReplaceSchemaPayload Value Row)
  pub table_payload : Codec (CreateTablePayload Value)
  pub wal_op : Codec (WalOp Value Row)
  -- the `json!` macro: an object from its fields, and values from what stands in them
  pub object : List (Str × Value) → Value
  pub of_text : Str → Value
  pub of_version : Option ℕ → Value
  pub of_accounts : List Account → Value
  pub of_texts : List Str → Value
  pub of_bool : Bool → Value
  -- `Value::as_str`, `is_array`, `get`, `as_bool`, and `from_value` at three types
  pub as_text : Value → Option Str
  pub is_array : Value → Bool
  pub get : Value → Str → Option Value
  pub as_bool : Value → Option Bool
  pub to_hide : Value → Option HideColumnPayload
  pub to_accounts : Value → Option (List Account)
  pub to_texts : Value → Option (List Str)

-- What the log relies on for an operation: `serde_json` reads back the payload that it wrote of it.
-- It does so for strings, integers and finite numbers of few digits; other floating point numbers
-- may come back a little off. Of an object of distinct keys, `get` finds the fields.
module _ (S : Serde) where
  abbrev pub hide_fields : Str → Option ℕ → List (Str × S.Value)
  hide_fields c v = (ascii "column", S.of_text c) ∷ (ascii "schema_version", S.of_version v) ∷ []

  abbrev pub account_fields : List Account → List Str → Bool → List (Str × S.Value)
  account_fields a r m =
      (ascii "accounts", S.of_accounts a)
      ∷ (ascii "removed", S.of_texts r)
      ∷ (ascii "migrate_roles", S.of_bool m)
      ∷ []

  abbrev pub ReadsBack : WalOp S.Value S.Row → Type 0
  ReadsBack (migrate t i a b) = ReadBack S.wal_op (migrate t i a b)
  ReadsBack (hide_column t c x) =
      ReadBack S.value (S.object (hide_fields c x))
      × (S.as_text (S.object (hide_fields c x)) ≡ none)
      × (S.to_hide (S.object (hide_fields c x)) ≡ some (record { column = c; schema_version = x }))
  ReadsBack (compact t rs) = ReadBack S.rows rs
  ReadsBack (accounts a r m) =
      ReadBack S.value (S.object (account_fields a r m))
      × (S.is_array (S.object (account_fields a r m)) ≡ false)
      × (S.get (S.object (account_fields a r m)) (ascii "accounts") ≡ some (S.of_accounts a))
      × (S.get (S.object (account_fields a r m)) (ascii "removed") ≡ some (S.of_texts r))
      × (S.get (S.object (account_fields a r m)) (ascii "migrate_roles") ≡ some (S.of_bool m))
      × (S.to_accounts (S.of_accounts a) ≡ some a)
      × (S.to_texts (S.of_texts r) ≡ some r)
      × (S.as_bool (S.of_bool m) ≡ some m)
  ReadsBack (insert t r) = ReadBack S.row r
  ReadsBack (insert_batch t rs) = ReadBack S.rows rs
  ReadsBack (delete_keys t ks) = ReadBack S.keys ks
  ReadsBack (replace_all t rs) = ReadBack S.rows rs
  ReadsBack (drop_column t c x rs) =
      ReadBack S.drop_payload (record { column = c; schema_version = x; rows = rs })
  ReadsBack (replace_schema t cs x rs) =
      ReadBack S.schema_payload (record { columns = cs; schema_version = x; rows = rs })
  ReadsBack (create_table t cs i) =
      ReadBack S.table_payload (record { columns = cs; object_id = i })
  ReadsBack (drop_table t) = Unit
  ReadsBack (create_index t c) = ReadBack S.text c
  ReadsBack (drop_index t c) = ReadBack S.text c
  ReadsBack commit = Unit
