-- ===== src/Protocol.antt =====
-- The records of chusql-core/storage/src/protocol.rs that the log and the version store carry.
-- `Value` stands for `serde_json::Value` and `Row` for `HashMap<String, serde_json::Value>`.
pub mod Requests
pub mod Names
use chu_sql.Base.{ℕ, ℤ, Bool, Option, List}
use chu_sql.Base.Text.{Str, ascii}

-- `USERS_TABLE`
abbrev pub users_table : Str
users_table = ascii "__system_users"

pub record Account : Type 0 where
  pub id : ℤ
  pub user : Str
  pub password_hash : Str
  pub revision : ℕ
  pub registered_at : Str
  pub last_login_at : Option Str
  pub can_login : Bool
  pub is_superuser : Bool
  pub system_catalog_manager : Bool
  pub enabled : Bool
  pub identity_version : ℕ

pub record SchemaColumn (Value : Type 0) : Type 0 where
  pub name : Str
  pub ty : Str
  pub nullable : Bool
  pub default : Option Value
  pub auto_increment : Bool
  pub primary_key : Bool
  pub unique : Bool
  pub check : Option Str

pub data StorageOp (Row : Type 0) : Type 0 where
  upsert : Str → List Row → StorageOp Row
  delete : Str → List ℤ → StorageOp Row
  replace : Str → List Row → StorageOp Row

-- The types of third-party crates that the wire records carry: `Value` is `serde_json::Value`,
-- `Row` is a map from names to values, and `Float` is `f64`.
pub record Wire : Type 1 where
  pub Value : Type 0
  pub Row : Type 0
  pub Float : Type 0

pub record ColumnStatWire (W : Wire) : Type 0 where
  pub name : Str
  pub distinct : ℕ
  pub capped : Bool
  pub lo : Option W.Float
  pub hi : Option W.Float
  pub hist : List ℕ

pub record IndexWire : Type 0 where
  pub column : Str

pub record TableSchemaWire (W : Wire) : Type 0 where
  pub table : Str
  pub database_id : ℕ
  pub object_id : ℕ
  pub schema_version : ℕ
  pub columns : List (SchemaColumn W.Value)
  pub row_count : ℕ
  pub indexes : List IndexWire
  pub stats : List (ColumnStatWire W)
