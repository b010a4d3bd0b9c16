-- ===== src/Heap/Slotted.antt =====
-- `HeapPage` of heap.rs: a page with a slot directory at its head and tuples at its tail. Each
-- function returns `none` where the source would panic on an index out of range.
pub mod Layout
pub mod Insert
pub mod Contents
pub mod Delete
pub mod Compact
use chu_sql.Base.{
  ℕ, zero, suc, ◌+◌, ◌-◌, ◌*◌, ◌%◌, ◌^◌, Bool, true, false, ◌&&◌, Option, none, some, List, [], ◌∷◌,
  length, ltb, leb, ◌==◌, if◌then◌else◌,
}
use chu_sql.Base.{and_then as ◌>>=◌}
use chu_sql.Base.Bytes.{Bytes, slice, splice}
use chu_sql.Page.{Page}
use chu_sql.Heap.Fields.{read_u16, write_u16, read_u32, write_u32}

abbrev pub header_size : ℕ
header_size = 2

abbrev pub slot_size : ℕ
slot_size = 8

-- The directory entry of slot `i` starts here.
abbrev pub slot_off : ℕ → ℕ
slot_off i = header_size + i * slot_size

-- `HeapPage::slot_count`
unfoldable pub slot_count : Page → Option ℕ
slot_count p = read_u16 p.bytes 0

-- `HeapPage::free_start`
unfoldable pub free_start : Page → Option ℕ
unfolding slot_count
free_start p = do n ← slot_count p; some (slot_off n)

-- Offset and length of slot `i`, as every loop over the directory reads them.
unfoldable pub entry : Bytes → ℕ → Option (ℕ × ℕ)
entry buf i = do
  off ← read_u32 buf (slot_off i)
  len ← read_u32 buf (slot_off i + 4)
  some (off, len)

-- The loop of `HeapPage::free_end`, with `k` slots to go.
unfoldable pub free_end_loop : ℕ → ℕ → ℕ → Bytes → Option ℕ
free_end_loop zero i min_off buf = some min_off
free_end_loop (suc k) i min_off buf = do
  (off, len) ← entry buf i
  free_end_loop k (suc i) (if ltb 0 len && ltb off min_off then off else min_off) buf

-- `HeapPage::free_end`
unfoldable pub free_end : Page → Option ℕ
unfolding slot_count
free_end p = do n ← slot_count p; free_end_loop n 0 (length p.bytes % 2 ^ 32) p.bytes

-- `HeapPage::insert_tuple`: the page afterwards, and the slot if the tuple fits.
unfoldable pub insert_tuple : Page → Bytes → Option (Page × Option ℕ)
unfolding slot_count free_start
insert_tuple p tuple = do
  n ← slot_count p
  start ← free_start p
  end ← free_end p
  if ltb end (start + slot_size + length tuple) then some (p, none) else do
    b1 ← splice (end - length tuple) tuple p.bytes
    b2 ← write_u32 b1 (slot_off n) (end - length tuple)
    b3 ← write_u32 b2 (slot_off n + 4) (length tuple)
    b4 ← write_u16 b3 0 ((n + 1) % 2 ^ 16)
    some (record p { bytes = b4 }, some n)

-- `HeapPage::delete_tuple`
unfoldable pub delete_tuple : Page → ℕ → Option (Page × Bool)
unfolding slot_count
delete_tuple p slot = do
  n ← slot_count p
  if leb n slot then some (p, false) else do
    len ← read_u32 p.bytes (slot_off slot + 4)
    if len == 0
        then some (p, false)
        else do b1 ← write_u32 p.bytes (slot_off slot + 4) 0; some (record p { bytes = b1 }, true)

-- `HeapPage::tuple_bytes`, and `HeapPage::get_tuple`, which copies what it borrows
unfoldable pub get_tuple : Page → ℕ → Option (Option Bytes)
unfolding slot_count
get_tuple p slot = do
  n ← slot_count p
  if leb n slot then some none else do
    (off, len) ← entry p.bytes slot
    if len == 0 then some none else do tuple ← slice off len p.bytes; some (some tuple)

-- `HeapPage::iter_slots`
upto : ℕ → ℕ → List ℕ
upto zero i = []
upto (suc k) i = i ∷ upto k (suc i)

unfoldable pub iter_slots : Page → Option (List ℕ)
unfolding slot_count upto
iter_slots p = do n ← slot_count p; some (upto n 0)

-- The loop of `HeapPage::dead_bytes`
unfoldable pub live_loop : ℕ → ℕ → ℕ → Bytes → Option ℕ
live_loop zero i live buf = some live
live_loop (suc k) i live buf = do (off, len) ← entry buf i; live_loop k (suc i) (live + len) buf

-- `HeapPage::dead_bytes`
unfoldable pub dead_bytes : Page → Option ℕ
unfolding slot_count
dead_bytes p = do
  n ← slot_count p
  live ← live_loop n 0 0 p.bytes
  end ← free_end p
  some (length p.bytes - end - live)

-- The first loop of `HeapPage::compact_page`: live tuples are copied out, in slot order, and the
-- offsets of dead slots are reset.
unfoldable pub gather : ℕ → ℕ → Bytes → Option (Bytes × List (ℕ × Bytes))
gather zero i buf = some (buf, [])
gather (suc k) i buf = do
  (off, len) ← entry buf i
  if ltb 0 len
      then (do
        tuple ← slice off len buf
        (out, live) ← gather k (suc i) buf
        some (out, (i, tuple) ∷ live))
      else (do b1 ← write_u32 buf (slot_off i) 0; gather k (suc i) b1)

-- The second loop of `HeapPage::compact_page`: the copies are laid out from the page's tail
-- downwards. `end -= bytes.len()` below 0 is a panic.
unfoldable pub place : List (ℕ × Bytes) → ℕ → Bytes → Option Bytes
place [] end buf = some buf
place ((i, tuple) ∷ live) end buf = if ltb end (length tuple) then none else do
  b1 ← splice (end - length tuple) tuple buf
  b2 ← write_u32 b1 (slot_off i) (end - length tuple)
  place live (end - length tuple) b2

-- `HeapPage::compact_page`: the page afterwards, and the number of bytes reclaimed
unfoldable pub compact_page : Page → Option (Page × ℕ)
unfolding slot_count
compact_page p = do
  reclaimed ← dead_bytes p
  if reclaimed == 0 then some (p, 0) else do
    n ← slot_count p
    (b1, live) ← gather n 0 p.bytes
    b2 ← place live (length b1) b1
    some (record p { bytes = b2 }, reclaimed)

-- `HeapPage::compact_if_fragmented`
unfoldable pub compact_if_fragmented : Page → Option (Page × ℕ)
compact_if_fragmented p = do
  dead ← dead_bytes p
  if leb (length p.bytes) (dead * 4) then compact_page p else some (p, 0)
