-- ===== src/Tests/HeapPages.antt =====
-- Tests of heap.rs on small pages.
use chu_sql.Base.{
  ℕ, ◌≡◌, refl, ◌⊎◌, ◌<◌, ◌≤◌, ◌+◌, true, false, none, some, List, [], ◌∷◌, arith, length, ◌-◌,
}
use chu_sql.Base.Bytes.{slice}
use chu_sql.Base.Le.{of_le}
use chu_sql.Page.{Page, zeros}
use chu_sql.Heap.Fields.{
  pack_position, unpack_position, unpack_position-pack_position, read_u16, read_u32,
}
use chu_sql.Heap.Slotted.{insert_tuple, delete_tuple, get_tuple, compact_page, entry}
use chu_sql.Heap.Slotted.Layout.{IsPage, floor, total}
use chu_sql.Heap.Slotted.Contents.{insert_tuple_lem, Inserted}
use chu_sql.Heap.Slotted.Delete.{delete_tuple_lem, Deleted}
use chu_sql.Heap.Slotted.Compact.Readers.{compact_page_lem, Compacted}

unpack_position-pack_position_example : unpack_position (pack_position 70000 3) ≡ (70000, 3)
unpack_position-pack_position_example =
    unpack_position-pack_position 70000 3 (omega arith) (omega arith)

abbrev blank : Page
blank = record { id = 4; bytes = zeros 24 }

blank-IsPage : IsPage blank.bytes []
unfolding read_u16 slice of_le
blank-IsPage = record { count = refl; directory = tt; stacked = omega arith; small = omega arith }

insert_tuple_lem_example :
    ((24 < 10 + 3) × (insert_tuple blank (7 ∷ 8 ∷ 9 ∷ []) ≡ some (blank, none)))
    ⊎ ((10 + 3 ≤ 24)
        × ((p' : Page) × (insert_tuple blank (7 ∷ 8 ∷ 9 ∷ []) ≡ some (p', some 0))
            × Inserted blank [] (7 ∷ 8 ∷ 9 ∷ []) p'))
insert_tuple_lem_example = insert_tuple_lem blank [] (7 ∷ 8 ∷ 9 ∷ []) blank-IsPage (omega arith)

-- Two slots, of which the second is dead, with one byte of tuple and two free bytes.
abbrev used : Page
used = record {
  id = 4;
  bytes =
      2 ∷ 0 ∷ 21 ∷ 0 ∷ 0 ∷ 0 ∷ 1 ∷ 0 ∷ 0 ∷ 0 ∷ 20 ∷ 0 ∷ 0 ∷ 0 ∷ 0 ∷ 0 ∷ 0 ∷ 0 ∷ 0 ∷ 0 ∷ 5 ∷ 9 ∷ 6
      ∷ [];
}

used-IsPage : IsPage used.bytes ((21, 1) ∷ (20, 0) ∷ [])
unfolding read_u16 read_u32 entry slice of_le
used-IsPage = record {
  count = refl;
  directory = (refl, (refl, tt));
  stacked = omega arith;
  small = omega arith;
}

delete_tuple_lem_example :
    ((get_tuple used 0 ≡ some none) × (delete_tuple used 0 ≡ some (used, false)))
    ⊎ ((t : List ℕ) × (get_tuple used 0 ≡ some (some t))
        × ((p' : Page) × (delete_tuple used 0 ≡ some (p', true))
            × Deleted used ((21, 1) ∷ (20, 0) ∷ []) 0 p'))
delete_tuple_lem_example = delete_tuple_lem used ((21, 1) ∷ (20, 0) ∷ []) 0 used-IsPage

compact_page_lem_example :
    (p' : Page) × (compact_page used
      ≡ some (
        p',
        length used.bytes
            - floor (length used.bytes) ((21, 1) ∷ (20, 0) ∷ [])
            - total ((21, 1) ∷ (20, 0) ∷ []),
      ))
    × Compacted used ((21, 1) ∷ (20, 0) ∷ []) p'
compact_page_lem_example = compact_page_lem used ((21, 1) ∷ (20, 0) ∷ []) used-IsPage
