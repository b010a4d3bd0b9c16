-- ===== src/Heap/Slotted/Insert.antt =====
-- `HeapPage::insert_tuple` on a page in shape: when it fits, what it writes and what it leaves.
use native.Mathlib.Nat.{mod-eq_of_lt}
use chu_sql.Base.{ℕ, suc, ◌+◌, ◌%◌, ◌^◌, ◌≤◌, ◌<◌, ◌≡◌, ◌∙◌, inl, inr, some, arith, length}
use chu_sql.Base.Bytes.{Bytes, slice, splice, splice_total, slice-splice_self, length-splice}
use chu_sql.Heap.Fields.{
  Apart, read_u16, write_u16, read_u32, write_u32, write_u16_total, write_u32_total,
  length-write_u16, length-write_u32, read-write_u16_self, read-write_u32_self, slice-write_u16,
  slice-write_u32, slice-splice, read_u32-eq,
}
use chu_sql.Heap.Slotted.{slot_off, entry}

-- An entry of the directory depends on its eight bytes alone.
pub entry-eq :
    (buf buf' : Bytes) (j : ℕ)
    → ((p : ℕ) → slot_off j ≤ p → p + 4 ≤ slot_off (suc j) → slice p 4 buf' ≡ slice p 4 buf)
    → entry buf' j ≡ entry buf j
unfolding entry
entry-eq buf buf' j h = ground (
  arith,
  read_u32-eq buf buf' (slot_off j) (h (slot_off j) (omega arith) (omega arith)),
  read_u32-eq buf buf' (slot_off j + 4) (h (slot_off j + 4) (omega arith) (omega arith)),
)

-- The four writes of an insertion: tuple, offset, length, slot count.
pub record Writes (buf tuple out : Bytes) (n at : ℕ) : Type 0 where
  pub after_tuple : Bytes
  pub after_offset : Bytes
  pub after_length : Bytes
  pub tuple_written : splice at tuple buf ≡ some after_tuple
  pub offset_written : write_u32 after_tuple (slot_off n) at ≡ some after_offset
  pub length_written : write_u32 after_offset (slot_off n + 4) (length tuple) ≡ some after_length
  pub count_written : write_u16 after_length 0 ((n + 1) % 2 ^ 16) ≡ some out

module _ (buf tuple : Bytes) (n at : ℕ) where
  pub Writes-total :
      slot_off (suc n) ≤ at
      → at + length tuple ≤ length buf
      → (out : Bytes) × Writes buf tuple out n at
  Writes-total lo hi =
      let (b1, e1) = splice_total at tuple buf hi in
      let l1 = length-splice at tuple buf b1 e1 in
      let (b2, e2) = write_u32_total b1 (slot_off n) at (omega arith) in
      let l2 = length-write_u32 b1 (slot_off n) at b2 e2 in
      let (b3, e3) = write_u32_total b2 (slot_off n + 4) (length tuple) (omega arith) in
      let l3 = length-write_u32 b2 (slot_off n + 4) (length tuple) b3 e3 in
      let (b4, e4) = write_u16_total b3 0 ((n + 1) % 2 ^ 16) (omega arith) in
      (
        b4,
        record {
          after_tuple = b1;
          after_offset = b2;
          after_length = b3;
          tuple_written = e1;
          offset_written = e2;
          length_written = e3;
          count_written = e4;
        },
      )

module _ (buf tuple out : Bytes) (n at : ℕ) (w : Writes buf tuple out n at) where
  open w use {
    after_tuple as b1, after_offset as b2, after_length as b3, tuple_written as e1,
    offset_written as e2, length_written as e3, count_written as e4,
  }

  pub length-writes : length out ≡ length buf
  length-writes = omega (
    arith,
    length-splice at tuple buf b1 e1,
    length-write_u32 b1 (slot_off n) at b2 e2,
    length-write_u32 b2 (slot_off n + 4) (length tuple) b3 e3,
    length-write_u16 b3 0 ((n + 1) % 2 ^ 16) out e4,
  )

  -- Ranges behind the slot count that meet neither the new entry nor the tuple are left.
  pub slice-writes :
      (p m : ℕ)
      → 2 ≤ p
      → Apart p m (slot_off n) 8
      → Apart p m at (length tuple)
      → slice p m out ≡ slice p m buf
  slice-writes p m lo dir tup =
      slice-write_u16 b3 0 _ out p m (inr lo) e4
      ∙ slice-write_u32 b2 (slot_off n + 4) _ b3 p m (omega arith) e3
      ∙ slice-write_u32 b1 (slot_off n) _ b2 p m (omega arith) e2
      ∙ slice-splice at tuple buf b1 p m tup e1

  pub count-writes : n + 1 < 2 ^ 16 → read_u16 out 0 ≡ some (n + 1)
  count-writes h =
      rw (mod-eq_of_lt h) at (read-write_u16_self b3 0 ((n + 1) % 2 ^ 16) out (omega arith) e4)

  pub entry-writes : at < 2 ^ 32 → length tuple < 2 ^ 32 → entry out n ≡ some (at, length tuple)
  unfolding entry
  entry-writes ha hl = rw (off_read, len_read)
    where
      off_read : read_u32 out (slot_off n) ≡ some at
      off_read =
          read_u32-eq b2 out (slot_off n) (
            slice-write_u16 b3 0 _ out (slot_off n) 4 (inr (omega arith)) e4
            ∙ slice-write_u32 b2 (slot_off n + 4) _ b3 (slot_off n) 4 (inl (omega arith)) e3)
          ∙ read-write_u32_self b1 (slot_off n) at b2 ha e2

      len_read : read_u32 out (slot_off n + 4) ≡ some (length tuple)
      len_read =
          read_u32-eq b3 out (slot_off n + 4)
            (slice-write_u16 b3 0 _ out (slot_off n + 4) 4 (inr (omega arith)) e4)
          ∙ read-write_u32_self b2 (slot_off n + 4) (length tuple) b3 hl e3

  pub tuple-writes : slot_off (suc n) ≤ at → slice at (length tuple) out ≡ some tuple
  tuple-writes h =
      slice-write_u16 b3 0 _ out at (length tuple) (inr (omega arith)) e4
      ∙ slice-write_u32 b2 (slot_off n + 4) _ b3 at (length tuple) (inr (omega arith)) e3
      ∙ slice-write_u32 b1 (slot_off n) _ b2 at (length tuple) (inr (omega arith)) e2
      ∙ slice-splice_self at tuple buf b1 e1
