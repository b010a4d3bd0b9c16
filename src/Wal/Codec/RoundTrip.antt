-- ===== src/Wal/Codec/RoundTrip.antt =====
-- `decode_body` reads back what `encode` wrote.
use chu_sql.Base.{
  ℕ, ◌+◌, ◌-◌, ◌^◌, ◌<◌, ◌≡◌, refl, sym, ap, true, ◌&&◌, not, [], ◌∷◌, ◌++◌, length, length-append,
  bytes_eq_refl, arith, ok, unwrap_or, le→ltb, append_assoc, append-nil,
}
use chu_sql.Base.Bytes.{Bytes, slice_middle}
use chu_sql.Base.Le.{to_le, of_le, length-to_le, of_le-to_le}
use chu_sql.Base.Text.{Str, utf8}
use chu_sql.Wal.Op.{
  WalOp, migrate, hide_column, compact, accounts, insert, insert_batch, delete_keys, replace_all,
  drop_column, replace_schema, create_table, drop_table, create_index, drop_index, commit, Serde,
  ReadsBack,
}
use chu_sql.Wal.Codec.{
  valid_generation, is_empty, parts, body_of, encode, decode_op, part, decode_body,
}

module _ (S : Serde) where
  -- A migration names generations that `decode_body` will accept.
  abbrev pub ValidMigration : WalOp S.Value S.Row → Type 0
  ValidMigration (migrate t i s g) =
      valid_generation s && not (is_empty g) && valid_generation g ≡ true
  ValidMigration _ = Unit

  -- An operation that a frame can hold: the table name is UTF-8 and its length fits a u16, the
  -- length of the body fits a u32, a migration is valid, the payload is read back as it was written.
  pub record Fits (op : WalOp S.Value S.Row) (code : ℕ) (t : Str) (p : Bytes) : Type 0 where
    pub made : parts S op ≡ ok (code, t, p)
    pub text : utf8 t ≡ true
    pub short : length t < 2 ^ 16
    pub small : 11 + length t + length p < 2 ^ 32
    pub migration : ValidMigration op
    pub read_back : ReadsBack S op

  -- The `match` of `decode_body` takes back what the `match` of `encode` made.
  decode_op-parts :
      (op : WalOp S.Value S.Row) (code : ℕ) (t : Str) (p : Bytes)
      → ValidMigration op
      → ReadsBack S op
      → parts S op ≡ ok (code, t, p)
      → decode_op S code t p ≡ ok op
  unfolding parts decode_op
  decode_op-parts (migrate t i a b) code t' p v r h = ground (arith, r p, bytes_eq_refl t)
  decode_op-parts (hide_column t c x) code t' p v (r, o, f) h = ground (arith, r p, o, f)
  decode_op-parts (compact t rs) code t' p v r h = ground (arith, r p)
  decode_op-parts (accounts a ts m) code t' p v (r, o, f, g, k, x, y, z) h =
      ground (arith, r p, o, f, g, k, x, y, z)
  decode_op-parts (insert t x) code t' p v r h = ground (arith, r p)
  decode_op-parts (insert_batch t rs) code t' p v r h = ground (arith, r p)
  decode_op-parts (delete_keys t ks) code t' p v r h = ground (arith, r p)
  decode_op-parts (replace_all t rs) code t' p v r h = ground (arith, r p)
  decode_op-parts (drop_column t c x rs) code t' p v r h = ground (arith, r p)
  decode_op-parts (replace_schema t cs x rs) code t' p v r h = ground (arith, r p)
  decode_op-parts (create_table t cs i) code t' p v r h = ground (arith, r p)
  decode_op-parts (drop_table t) code t' p v r h = ground arith
  decode_op-parts (create_index t c) code t' p v r h = ground (arith, r p)
  decode_op-parts (drop_index t c) code t' p v r h = ground (arith, r p)
  decode_op-parts commit code t' p v r h = ground arith

  code-parts :
      (op : WalOp S.Value S.Row) (code : ℕ) (t : Str) (p : Bytes)
      → parts S op ≡ ok (code, t, p)
      → code < 256
  unfolding parts
  code-parts (drop_table t) code t' p h = ground arith
  code-parts _ code t' p h = ground arith

module _ (lsn code : ℕ) (t p : Bytes) where
  head : Bytes
  head = to_le 8 lsn ++ (code ∷ to_le 2 (length t))

  pub length-body_of : length (body_of lsn code t p) ≡ 11 + length t + length p
  length-body_of =
      simp (length-append, length-to_le)
        (omega (
          arith,
          length-append (to_le 2 (length t)) (t ++ p),
          length-append t p,
          length-to_le 2 (length t),
        ))

  part_lsn : part 0 8 (body_of lsn code t p) ≡ to_le 8 lsn
  part_lsn = rw (slice_middle [] (to_le 8 lsn) _ 0 8 refl (sym (length-to_le 8 lsn)))

  part_code : part 8 1 (body_of lsn code t p) ≡ code ∷ []
  part_code = rw (
      slice_middle (to_le 8 lsn) (code ∷ []) (to_le 2 (length t) ++ (t ++ p)) 8 1
        (sym (length-to_le 8 lsn)) refl)

  part-length : part 9 2 (body_of lsn code t p) ≡ to_le 2 (length t)
  part-length = rw (← append_assoc (to_le 8 lsn) (code ∷ []) (to_le 2 (length t) ++ (t ++ p))) (
      rw (
        slice_middle (to_le 8 lsn ++ code ∷ []) (to_le 2 (length t)) (t ++ p) 9 2
          (omega (arith, length-append (to_le 8 lsn) (code ∷ []), length-to_le 8 lsn))
          (sym (length-to_le 2 (length t)))))

  length-head : 11 ≡ length head
  unfolding head
  length-head = omega (
    arith,
    length-append (to_le 8 lsn) (code ∷ to_le 2 (length t)),
    length-to_le 8 lsn,
    length-to_le 2 (length t),
  )

  body_of-head : body_of lsn code t p ≡ head ++ (t ++ p)
  unfolding head
  body_of-head = sym (append_assoc (to_le 8 lsn) (code ∷ to_le 2 (length t)) (t ++ p))

  part_table : part 11 (length t) (body_of lsn code t p) ≡ t
  part_table = rw body_of-head (rw (slice_middle head t p 11 (length t) length-head refl))

  part_payload : part (11 + length t) (length p) (body_of lsn code t p) ≡ p
  part_payload =
      rw (body_of-head, ← append_assoc head t p)
        (ap (λ b. unwrap_or b [])
          (rw append-nil at (
            slice_middle (head ++ t) p [] (11 + length t) (length p)
              (omega (arith, length-append head t, length-head)) refl)))

of_le_byte : (b : ℕ) → of_le (b ∷ []) ≡ b
unfolding of_le
of_le_byte b = omega arith

payload_length : (a b : ℕ) → 11 + a + b - (11 + a) ≡ b
payload_length a b = omega arith

pub encode-Fits :
    (S : Serde) (op : WalOp S.Value S.Row) (lsn code : ℕ) (t : Str) (p : Bytes)
    → Fits S op code t p
    → encode S op lsn ≡ ok (to_le 4 (length (body_of lsn code t p)) ++ body_of lsn code t p)
unfolding encode
encode-Fits S op lsn code t p f = rw f.made

module _ (S : Serde) where
  -- A frame's body is decoded to the LSN and the operation that it was made from.
  pub decode_body-body_of :
      (op : WalOp S.Value S.Row) (lsn code : ℕ) (t : Str) (p : Bytes)
      → lsn < 2 ^ 64
      → Fits S op code t p
      → decode_body S (body_of lsn code t p) ≡ ok (lsn, op)
  unfolding decode_body
  decode_body-body_of op lsn code t p hl f = rw (
    part_lsn lsn code t p,
    part_code lsn code t p,
    part-length lsn code t p,
    of_le-to_le 8 lsn hl,
    of_le-to_le 2 (length t) f.short,
    of_le_byte code,
    length-body_of lsn code t p,
    payload_length (length t) (length p),
    part_table lsn code t p,
    part_payload lsn code t p,
    le→ltb (11 + length t + length p) 11 (omega arith),
    le→ltb (11 + length t + length p) (11 + length t) (omega arith),
    f.text,
    decode_op-parts S op code t p f.migration f.read_back f.made,
  )

  -- For an LSN of 64 bits and an operation that a frame can hold and whose payload serde_json reads
  -- back as it wrote it, `encode` writes the length of the body and the body, the length fits its 32 bits, and
  -- `decode_body` of that body gives back the LSN and the operation.
  pub encode_frame :
      (op : WalOp S.Value S.Row) (lsn code : ℕ) (t : Str) (p : Bytes)
      → lsn < 2 ^ 64
      → Fits S op code t p
      → (encode S op lsn ≡ ok (to_le 4 (length (body_of lsn code t p)) ++ body_of lsn code t p))
        × (length (body_of lsn code t p) < 2 ^ 32)
        × (decode_body S (body_of lsn code t p) ≡ ok (lsn, op))
  encode_frame op lsn code t p hl f = (
    encode-Fits S op lsn code t p f,
    omega (arith, length-body_of lsn code t p, f.small),
    decode_body-body_of op lsn code t p hl f,
  )
