-- ===== src/Wal/Codec.antt =====
-- `encode` and `decode_body` of wal.rs: an operation and its LSN as a frame of the log.
pub mod RoundTrip
use chu_sql.Base.{
  ℕ, ◌+◌, ◌-◌, ◌*◌, ◌^◌, ◌%◌, ◌≡◌, Bool, true, false, ◌&&◌, ◌||◌, not, Option, none, some, List, [],
  ◌∷◌, ◌++◌, length, all, bytes_eq, ltb, leb, ◌==◌, if◌then◌else◌, Result, ok, err, ◌>>=◌, ok_or,
  unwrap_or, get_elem?,
}
use chu_sql.Base.Bytes.{Bytes, slice}
use chu_sql.Base.Le.{to_le, of_le}
use chu_sql.Base.Text.{Str, ascii, utf8}
use chu_sql.Protocol.{Account, users_table}
use chu_sql.Wal.Op.{
  WalOp, migrate, hide_column, compact, accounts, insert, insert_batch, delete_keys, replace_all,
  drop_column, replace_schema, create_table, drop_table, create_index, drop_index, commit, Serde,
}

-- The errors of wal.rs; `bad_payload` carries the operation's code. `out_of_fuel` is no error of
-- the source: it would mean that the model's parse loop gave up.
pub data WalError : Type 0 where
  encode_failed too_short table_truncated bad_utf8 invalid_migration : WalError
  invalid_account_table missing_accounts missing_cleanup bad_cleanup missing_role_flag : WalError
  bad_checkpoint lsn_exhausted out_of_fuel : WalError
  bad_payload unknown_op : ℕ → WalError

is_hex : ℕ → Bool
is_hex b = (leb 48 b && leb b 57) || (leb 65 b && leb b 70) || (leb 97 b && leb b 102)

pub is_empty : Str → Bool
is_empty [] = true
is_empty (b ∷ bs) = false

-- catalog.rs `valid_generation`
unfoldable pub valid_generation : Str → Bool
unfolding is_hex is_empty
valid_generation value = is_empty value || (length value == 32 && all is_hex value)

-- The body of a frame: LSN, code, length of the table name, table name, payload.
abbrev pub body_of : ℕ → ℕ → Str → Bytes → Bytes
body_of lsn code t p = to_le 8 lsn ++ (code ∷ (to_le 2 (length t) ++ (t ++ p)))

-- `body[o..o + n]` where the length was tested before
abbrev pub part : ℕ → ℕ → Bytes → Bytes
part o n body = unwrap_or (slice o n body) []

module _ (S : Serde) where
  -- The code, the table name and the payload of each operation, the `match` of `encode`.
  unfoldable pub parts : WalOp S.Value S.Row → Result WalError (ℕ × Str × Bytes)
  parts (migrate t i s g) = do
    p ← ok_or (S.wal_op.to_vec (migrate t i s g)) encode_failed
    ok (15, t, p)
  parts (hide_column t c v) = do
    p ←
        ok_or
          (S.value.to_vec (
            S.object
              ((ascii "column", S.of_text c) ∷ (ascii "schema_version", S.of_version v) ∷ [])))
          encode_failed
    ok (8, t, p)
  parts (compact t rs) = do p ← ok_or (S.rows.to_vec rs) encode_failed; ok (9, t, p)
  parts (accounts a r m) = do
    p ←
        ok_or
          (S.value.to_vec (
            S.object (
              (ascii "accounts", S.of_accounts a)
              ∷ (ascii "removed", S.of_texts r)
              ∷ (ascii "migrate_roles", S.of_bool m)
              ∷ [])))
          encode_failed
    ok (6, users_table, p)
  parts (insert t r) = do p ← ok_or (S.row.to_vec r) encode_failed; ok (1, t, p)
  parts (insert_batch t rs) = do p ← ok_or (S.rows.to_vec rs) encode_failed; ok (3, t, p)
  parts (delete_keys t ks) = do p ← ok_or (S.keys.to_vec ks) encode_failed; ok (4, t, p)
  parts (replace_all t rs) = do p ← ok_or (S.rows.to_vec rs) encode_failed; ok (2, t, p)
  parts (drop_column t c v rs) = do
    p ←
        ok_or (S.drop_payload.to_vec (record { column = c; schema_version = v; rows = rs }))
          encode_failed
    ok (5, t, p)
  parts (replace_schema t cs v rs) = do
    p ←
        ok_or (S.schema_payload.to_vec (record { columns = cs; schema_version = v; rows = rs }))
          encode_failed
    ok (7, t, p)
  parts (create_table t cs i) = do
    p ← ok_or (S.table_payload.to_vec (record { columns = cs; object_id = i })) encode_failed
    ok (11, t, p)
  parts (drop_table t) = ok (12, t, [])
  parts (create_index t c) = do p ← ok_or (S.text.to_vec c) encode_failed; ok (13, t, p)
  parts (drop_index t c) = do p ← ok_or (S.text.to_vec c) encode_failed; ok (14, t, p)
  parts commit = ok (10, [], [])

  -- `encode`
  unfoldable pub encode : WalOp S.Value S.Row → ℕ → Result WalError Bytes
  encode op lsn = do
    (code, t, p) ← parts op
    ok (to_le 4 (length (body_of lsn code t p)) ++ body_of lsn code t p)

  -- `WalOp::Migrate` is accepted only under its own table name and with valid generations.
  checked_migration : Str → WalOp S.Value S.Row → Result WalError (WalOp S.Value S.Row)
  unfolding valid_generation
  checked_migration t (migrate name i s g) =
      if bytes_eq name t && valid_generation s && not (is_empty g) && valid_generation g
      then ok (migrate name i s g)
      else err invalid_migration
  checked_migration t _ = err invalid_migration

  decode_hide : Str → Bytes → Result WalError (WalOp S.Value S.Row)
  decode_hide t p = do
    v ← ok_or (S.value.from_slice p) (bad_payload 8)
    elim (S.as_text v) [
      | some c ↦ ok (hide_column t c none)
      | none ↦ do
        h ← ok_or (S.to_hide v) (bad_payload 8)
        ok (hide_column t h.column h.schema_version)
    ]

  decode_accounts : Str → Bytes → Result WalError (WalOp S.Value S.Row)
  decode_accounts t p = if not (bytes_eq t users_table) then err invalid_account_table else do
    v ← ok_or (S.value.from_slice p) (bad_payload 6)
    if S.is_array v
        then (do a ← ok_or (S.to_accounts v) (bad_payload 6); ok (accounts a [] false))
        else (do
          av ← ok_or (S.get v (ascii "accounts")) missing_accounts
          a ← ok_or (S.to_accounts av) (bad_payload 6)
          rv ← ok_or (S.get v (ascii "removed")) missing_cleanup
          r ← ok_or (S.to_texts rv) bad_cleanup
          mv ← ok_or (S.get v (ascii "migrate_roles")) missing_role_flag
          m ← ok_or (S.as_bool mv) missing_role_flag
          ok (accounts a r m))

  -- The `match op_type` of `decode_body`.
  unfoldable pub decode_op : ℕ → Str → Bytes → Result WalError (WalOp S.Value S.Row)
  unfolding checked_migration decode_hide decode_accounts
  decode_op code t p =
      if code == 15
      then (do op ← ok_or (S.wal_op.from_slice p) (bad_payload 15); checked_migration t op)
      else if code == 10
      then ok commit
      else if code == 8
      then decode_hide t p
      else if code == 9
      then (do rs ← ok_or (S.rows.from_slice p) (bad_payload 9); ok (compact t rs))
      else if code == 6
      then decode_accounts t p
      else if code == 1
      then (do r ← ok_or (S.row.from_slice p) (bad_payload 1); ok (insert t r))
      else if code == 3
      then (do rs ← ok_or (S.rows.from_slice p) (bad_payload 3); ok (insert_batch t rs))
      else if code == 4
      then (do ks ← ok_or (S.keys.from_slice p) (bad_payload 4); ok (delete_keys t ks))
      else if code == 2
      then (do rs ← ok_or (S.rows.from_slice p) (bad_payload 2); ok (replace_all t rs))
      else if code == 5
      then (do
        d ← ok_or (S.drop_payload.from_slice p) (bad_payload 5)
        ok (drop_column t d.column d.schema_version d.rows))
      else if code == 7
      then (do
        d ← ok_or (S.schema_payload.from_slice p) (bad_payload 7)
        ok (replace_schema t d.columns d.schema_version d.rows))
      else if code == 11
      then (do
        d ← ok_or (S.table_payload.from_slice p) (bad_payload 11)
        ok (create_table t d.columns d.object_id))
      else if code == 12
      then ok (drop_table t)
      else if code == 13
      then (do c ← ok_or (S.text.from_slice p) (bad_payload 13); ok (create_index t c))
      else if code == 14
      then (do c ← ok_or (S.text.from_slice p) (bad_payload 14); ok (drop_index t c))
      else err (unknown_op code)

  -- `decode_body`
  unfoldable pub decode_body : Bytes → Result WalError (ℕ × WalOp S.Value S.Row)
  decode_body body =
      if ltb (length body) (8 + 1 + 2)
      then err too_short
      else let lsn = of_le (part 0 8 body) in
        let code = of_le (part 8 1 body) in
        let n = of_le (part 9 2 body) in
        if ltb (length body) (11 + n)
        then err table_truncated
        else let t = part 11 n body in
          if not (utf8 t)
          then err bad_utf8
          else do op ← decode_op code t (part (11 + n) (length body - (11 + n)) body); ok (lsn, op)
