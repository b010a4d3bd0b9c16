-- ===== src/Protocol/Requests/Accepted.antt =====
-- What `Request::valid_columns` of protocol.rs lets through.
use chu_sql.Base.{◌≡◌, Bool, true, inl, inr, List, [], ◌∷◌, all, All, arith, Bool-cases}
use chu_sql.Base.Text.{Str}
use chu_sql.Protocol.{Wire, StorageOp, upsert, delete, replace}
use chu_sql.Protocol.Names.{valid_storage_name, valid_storage_name_lem, Plain}
use chu_sql.Protocol.Requests.{
  Request, insert, insert_batch, replace_all, replace_schema, apply_transaction, mvcc_lock,
  mvcc_commit, valid_columns, valid_row_columns, valid_op, valid_definitions,
}

all→All {ℓ κ} :
    {A : Type ℓ} (p : A → Bool) (P : A → Type κ) (xs : List A)
    → ((x : A) → p x ≡ true → P x)
    → all p xs ≡ true
    → All P xs
all→All p P [] f h = tt
all→All p P (x ∷ xs) f h = elim (Bool-cases (p x)) [
  | inl y ↦ (f x y, all→All p P xs f (rw y at h))
  | inr z ↦ absurd (ground (arith, rw z at h))
]

module _ {Row : Type 0} (keys : Row → List Str) where
  -- A row of which every column name consists of plain bytes.
  abbrev pub PlainRow : Row → Type 0
  PlainRow row = All (All Plain) (keys row)

  -- The rows that a write stores.
  abbrev pub op_rows : StorageOp Row → List Row
  op_rows (upsert t rows) = rows
  op_rows (replace t rows) = rows
  op_rows (delete t ids) = []

  row_lem : (row : Row) → valid_row_columns keys row ≡ true → PlainRow row
  unfolding valid_row_columns
  row_lem row h =
      all→All valid_storage_name (All Plain) (keys row) (λ n k. (valid_storage_name_lem n k).1) h

  rows_lem : (rows : List Row) → all (valid_row_columns keys) rows ≡ true → All PlainRow rows
  rows_lem rows h = all→All (valid_row_columns keys) PlainRow rows row_lem h

  op_lem : (op : StorageOp Row) → valid_op keys op ≡ true → All PlainRow (op_rows op)
  op_lem (upsert t rows) h = rows_lem rows h
  op_lem (replace t rows) h = rows_lem rows h
  op_lem (delete t ids) h = tt

  ops_lem :
      (ops : List (StorageOp Row))
      → all (valid_op keys) ops ≡ true
      → All (λ op. All PlainRow (op_rows op)) ops
  ops_lem ops h = all→All (valid_op keys) (λ op. All PlainRow (op_rows op)) ops op_lem h

module _ {W : Wire} (keys : W.Row → List Str) where
  -- The rows of the requests that carry some; the command inside a catalog request is left out.
  abbrev pub PlainRequest : Request W → Type 0
  PlainRequest (insert t row) = PlainRow keys row
  PlainRequest (insert_batch t rows) = All (PlainRow keys) rows
  PlainRequest (replace_all t rows) = All (PlainRow keys) rows
  PlainRequest (replace_schema t columns rows) = All (PlainRow keys) rows
  PlainRequest (apply_transaction ops) = All (λ op. All (PlainRow keys) (op_rows keys op)) ops
  PlainRequest (mvcc_lock t ops reads) = All (λ op. All (PlainRow keys) (op_rows keys op)) ops
  PlainRequest (mvcc_commit t checkpoint ops) =
      All (λ op. All (PlainRow keys) (op_rows keys op)) ops
  PlainRequest _ = Unit

  -- In every row that an accepted insert, batch, replacement of rows or of a schema, transaction, lock
  -- or commit carries, each column name consists of ASCII bytes other than dot, slash, backslash and
  -- zero. Nothing is stated of the other requests, nor of the command inside a catalog request.
  pub valid_columns_lem : (r : Request W) → valid_columns keys r ≡ true → PlainRequest r
  unfolding valid_columns
  valid_columns_lem (insert t row) h = row_lem keys row h
  valid_columns_lem (insert_batch t rows) h = rows_lem keys rows h
  valid_columns_lem (replace_all t rows) h = rows_lem keys rows h
  valid_columns_lem (replace_schema t columns rows) h =
      rows_lem keys rows (elim (Bool-cases (valid_definitions columns)) [
        | inl y ↦ rw y at h
        | inr z ↦ absurd (ground (arith, rw z at h))
      ])
  valid_columns_lem (apply_transaction ops) h = ops_lem keys ops h
  valid_columns_lem (mvcc_lock t ops reads) h = ops_lem keys ops h
  valid_columns_lem (mvcc_commit t checkpoint ops) h = ops_lem keys ops h
  valid_columns_lem _ h = tt
