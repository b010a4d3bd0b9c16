-- ===== src/Heap/Fields.antt =====
-- The little-endian fields of a page (heap.rs `read_u16` .. `write_u32`) and row positions packed
-- into one u64. A read or write out of range is a panic, `none`.
use chu_sql.Base.{
  ℕ, ◌+◌, ◌*◌, ◌/◌, ◌%◌, ◌^◌, ◌≤◌, ◌<◌, ◌≡◌, ◌⊎◌, inl, inr, Option, some, arith, length, option_map,
}
use chu_sql.Base.Bytes.{
  Bytes, slice, splice, splice_total, length-splice, slice-splice_self, slice-splice_before,
  slice-splice_after,
}
use chu_sql.Base.Le.{to_le, of_le, length-to_le, of_le-to_le}

-- The ranges `[p, p + n)` and `[o, o + w)` do not meet.
abbrev pub Apart : ℕ → ℕ → ℕ → ℕ → Type 0
Apart p n o w = (p + n ≤ o) ⊎ (o + w ≤ p)

unfoldable pub read_u16 : Bytes → ℕ → Option ℕ
read_u16 buf off = option_map of_le (slice off 2 buf)

-- `as u16` keeps the low 16 bits, which are what `to_le 2` writes.
unfoldable pub write_u16 : Bytes → ℕ → ℕ → Option Bytes
write_u16 buf off v = splice off (to_le 2 v) buf

unfoldable pub read_u32 : Bytes → ℕ → Option ℕ
read_u32 buf off = option_map of_le (slice off 4 buf)

unfoldable pub write_u32 : Bytes → ℕ → ℕ → Option Bytes
write_u32 buf off v = splice off (to_le 4 v) buf

-- `(page_id << 16) | slot` on u64, where `slot` is a u16: the low 16 bits of the shifted page
-- number are 0, so the disjunction is a sum.
unfoldable pub pack_position : ℕ → ℕ → ℕ
pack_position page_id slot = page_id * 2 ^ 16 % 2 ^ 64 + slot

unfoldable pub unpack_position : ℕ → ℕ × ℕ
unpack_position v = (v / 2 ^ 16, v % 2 ^ 16)

-- A position is recovered from its packed form when the page number fits in 48 bits.
pub unpack_position-pack_position :
    (page_id slot : ℕ)
    → page_id < 2 ^ 48
    → slot < 2 ^ 16
    → unpack_position (pack_position page_id slot) ≡ (page_id, slot)
unfolding pack_position unpack_position
unpack_position-pack_position page_id slot hp hs = ground arith

module _ (buf : Bytes) (off v : ℕ) where
  pub write_u16_total : off + 2 ≤ length buf → (out : Bytes) × (write_u16 buf off v ≡ some out)
  unfolding write_u16
  write_u16_total h = splice_total off (to_le 2 v) buf (omega (arith, length-to_le 2 v))

  pub write_u32_total : off + 4 ≤ length buf → (out : Bytes) × (write_u32 buf off v ≡ some out)
  unfolding write_u32
  write_u32_total h = splice_total off (to_le 4 v) buf (omega (arith, length-to_le 4 v))

module _ (buf : Bytes) (off v : ℕ) (out : Bytes) where
  pub length-write_u16 : write_u16 buf off v ≡ some out → length out ≡ length buf
  unfolding write_u16
  length-write_u16 e = length-splice off _ buf out e

  pub length-write_u32 : write_u32 buf off v ≡ some out → length out ≡ length buf
  unfolding write_u32
  length-write_u32 e = length-splice off _ buf out e

  pub read-write_u16_self : v < 2 ^ 16 → write_u16 buf off v ≡ some out → read_u16 out off ≡ some v
  unfolding read_u16 write_u16
  read-write_u16_self h e =
      let s : slice off 2 out ≡ some (to_le 2 v) =
        rw length-to_le at (slice-splice_self off (to_le 2 v) buf out e) in
      rw (s, of_le-to_le 2 v h)

  pub read-write_u32_self : v < 2 ^ 32 → write_u32 buf off v ≡ some out → read_u32 out off ≡ some v
  unfolding read_u32 write_u32
  read-write_u32_self h e =
      let s : slice off 4 out ≡ some (to_le 4 v) =
        rw length-to_le at (slice-splice_self off (to_le 4 v) buf out e) in
      rw (s, of_le-to_le 4 v h)

  -- A field write leaves every range that it does not meet.
  pub slice-write_u16 :
      (p n : ℕ) → Apart p n off 2 → write_u16 buf off v ≡ some out → slice p n out ≡ slice p n buf
  unfolding write_u16
  slice-write_u16 p n (inl h) e = slice-splice_before off _ buf out p n e h
  slice-write_u16 p n (inr h) e =
      slice-splice_after off _ buf out p n e (omega (arith, length-to_le 2 v))

  pub slice-write_u32 :
      (p n : ℕ) → Apart p n off 4 → write_u32 buf off v ≡ some out → slice p n out ≡ slice p n buf
  unfolding write_u32
  slice-write_u32 p n (inl h) e = slice-splice_before off _ buf out p n e h
  slice-write_u32 p n (inr h) e =
      slice-splice_after off _ buf out p n e (omega (arith, length-to_le 4 v))

pub slice-splice :
    (off : ℕ) (ds buf out : Bytes) (p n : ℕ)
    → Apart p n off (length ds)
    → splice off ds buf ≡ some out
    → slice p n out ≡ slice p n buf
slice-splice off ds buf out p n (inl h) e = slice-splice_before off ds buf out p n e h
slice-splice off ds buf out p n (inr h) e = slice-splice_after off ds buf out p n e h

-- Fields are read from equal slices alike.
pub read_u16-eq :
    (buf buf' : Bytes) (off : ℕ)
    → slice off 2 buf' ≡ slice off 2 buf
    → read_u16 buf' off ≡ read_u16 buf off
unfolding read_u16
read_u16-eq buf buf' off h = rw h

pub read_u32-eq :
    (buf buf' : Bytes) (off : ℕ)
    → slice off 4 buf' ≡ slice off 4 buf
    → read_u32 buf' off ≡ read_u32 buf off
unfolding read_u32
read_u32-eq buf buf' off h = rw h
