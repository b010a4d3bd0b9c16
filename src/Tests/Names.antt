-- ===== src/Tests/Names.antt =====
-- Tests of the names and requests of protocol.rs.
use chu_sql.Base.{ℕ, refl, ◌<◌, List, [], ◌∷◌, All, length}
use chu_sql.Base.Text.{Str, ascii}
use chu_sql.Protocol.{Wire}
use chu_sql.Protocol.Names.{valid_storage_name, valid_storage_name_lem, Plain}
use chu_sql.Protocol.Requests.{insert_batch, valid_columns, valid_row_columns}
use chu_sql.Protocol.Requests.Accepted.{valid_columns_lem, PlainRow}

valid_storage_name_lem_example : (0 < length (ascii "order_2")) × All Plain (ascii "order_2")
unfolding valid_storage_name
valid_storage_name_lem_example = valid_storage_name_lem (ascii "order_2") refl

-- Rows that are lists of their column names.
abbrev names : Wire
names = record { Value = ℕ; Row = List Str; Float = ℕ }

abbrev two_columns : List Str
two_columns = ascii "id" ∷ ascii "name" ∷ []

valid_columns_lem_example : All (PlainRow {Row = List Str} (λ r. r)) (two_columns ∷ [])
unfolding valid_columns valid_row_columns valid_storage_name
valid_columns_lem_example =
    valid_columns_lem {W = names} (λ r. r) (insert_batch (ascii "t") (two_columns ∷ [])) refl
