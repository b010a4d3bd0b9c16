-- ===== src/Heap/Slotted/Compact/Readers.antt =====
-- `HeapPage::compact_page` as a whole: what it reclaims, and what a reader sees afterwards.
use native.Mathlib.Nat.{zero-add}
use native.Mathlib.Decide.{dec_le}
use chu_sql.Base.{
  ℕ, zero, suc, ◌+◌, ◌-◌, ◌≤◌, ◌<◌, ◌≡◌, refl, sym, ap, ◌∙◌, inl, some, List, [], ◌∷◌, arith,
  length, get_elem?,
}
use chu_sql.Base.Bytes.{Bytes, slice}
use chu_sql.Page.{Page}
use chu_sql.Heap.Fields.{read_u16-eq}
use chu_sql.Heap.Slotted.{slot_off, entry, dead_bytes, compact_page, get_tuple}
use chu_sql.Heap.Slotted.Layout.{
  Entry, Stacked, floor, total, IsPage, floor_bounds, entry-Directory, entry-get_elem?,
  live_loop-total,
}
use chu_sql.Heap.Slotted.Contents.{free_end-floor, get_tuple_past, get_tuple_slot}
use chu_sql.Heap.Slotted.Compact.{relocate, Moved, Gathered, Placed, gather_lem, place_lem}

length-relocate : (end : ℕ) (es : List Entry) → length (relocate end es) ≡ length es
length-relocate end [] = refl
length-relocate end ((off, zero) ∷ es) = ap suc (length-relocate end es)
length-relocate end ((off, suc l) ∷ es) = ap suc (length-relocate (end - suc l) es)

Stacked-relocate :
    (base end : ℕ) (es : List Entry) → base + total es ≤ end → Stacked base end (relocate end es)
Stacked-relocate base end [] h = omega arith
Stacked-relocate base end ((off, zero) ∷ es) h = Stacked-relocate base end es (omega arith)
Stacked-relocate base end ((off, suc l) ∷ es) h =
    (omega arith, Stacked-relocate base (end - suc l) es (omega arith))

-- After the relocation nothing lies between the live tuples.
no_gaps :
    (end : ℕ) (es : List Entry)
    → total es ≤ end
    → floor end (relocate end es) + total (relocate end es) ≡ end
no_gaps end [] h = omega arith
no_gaps end ((off, zero) ∷ es) h = omega (arith, no_gaps end es (omega arith))
no_gaps end ((off, suc l) ∷ es) h = omega (arith, no_gaps (end - suc l) es (omega arith))

relocate_dead :
    (end j off : ℕ) (es : List Entry)
    → get_elem? es j ≡ some (off, 0)
    → get_elem? (relocate end es) j ≡ some (0, 0)
relocate_dead end j off [] g = cc
relocate_dead end zero off ((o, zero) ∷ es) g = refl
relocate_dead end zero off ((o, suc l) ∷ es) g = absurd (ground arith)
relocate_dead end (suc j) off ((o, zero) ∷ es) g = relocate_dead end j off es g
relocate_dead end (suc j) off ((o, suc l) ∷ es) g = relocate_dead (end - suc l) j off es g

relocate_live :
    (d out : Bytes) (end j off len : ℕ) (es : List Entry)
    → Moved d out end es
    → get_elem? es j ≡ some (off, suc len)
    → (off' : ℕ) × (get_elem? (relocate end es) j ≡ some (off', suc len))
      × (slice off' (suc len) out ≡ slice off (suc len) d)
relocate_live d out end j off len [] m g = cc
relocate_live d out end zero off len ((o, zero) ∷ es) m g = absurd (ground arith)
relocate_live d out end zero off len ((o, suc l) ∷ es) m g =
    (end - suc l, ground arith, ground (arith, m.0))
relocate_live d out end (suc j) off len ((o, zero) ∷ es) m g =
    relocate_live d out end j off len es m g
relocate_live d out end (suc j) off len ((o, suc l) ∷ es) m g =
    relocate_live d out (end - suc l) j off len es m.1 g

pub dead_bytes_lem :
    (p : Page) (es : List Entry)
    → IsPage p.bytes es
    → dead_bytes p ≡ some (length p.bytes - floor (length p.bytes) es - total es)
unfolding dead_bytes
dead_bytes_lem p es v =
    rw (v.count, live_loop-total 0 0 p.bytes es v.directory, free_end-floor p es v, zero-add)

-- A page that was compacted, with its new entries.
pub record Compacted (p : Page) (es : List Entry) (p' : Page) : Type 0 where
  pub entries : List Entry
  pub valid : IsPage p'.bytes entries
  pub slots : length entries ≡ length es
  pub tight : length p'.bytes ≡ floor (length p'.bytes) entries + total entries
  pub readers : (j : ℕ) → get_tuple p' j ≡ get_tuple p j
  pub same_id : p'.id ≡ p.id
  pub same_size : length p'.bytes ≡ length p.bytes

module _ (p : Page) (es : List Entry) (v : IsPage p.bytes es) (b1 b2 : Bytes)
    (g : Gathered 0 p.bytes es b1)
    (w : Placed 0 (length p.bytes) (slot_off (length es)) p.bytes b1 es b2) where
  abbrev es' : List Entry
  es' = relocate (length p.bytes) es

  abbrev page' : Page
  page' = record p { bytes = b2 }

  compact-IsPage : IsPage b2 es'
  compact-IsPage = record {
    count = rw length-relocate (
        read_u16-eq b1 b2 0 (w.frame 0 2 (inl (omega arith)) (inl (omega arith)))
        ∙ read_u16-eq p.bytes b1 0 (g.frame 0 2 (inl (omega arith)))
        ∙ v.count);
    directory = w.directory;
    stacked =
        rw (w.same_size, g.same_size, length-relocate)
          (Stacked-relocate (slot_off (length es)) (length p.bytes) es
            (omega (arith, floor_bounds (slot_off (length es)) (length p.bytes) es v.stacked)));
    small = omega (arith, v.small, w.same_size, g.same_size);
  }

  compact-tight : length b2 ≡ floor (length b2) es' + total es'
  compact-tight =
      rw (w.same_size, g.same_size)
        (omega (
          arith,
          no_gaps (length p.bytes) es
              (omega (arith, floor_bounds (slot_off (length es)) (length p.bytes) es v.stacked)),
        ))

  new_entry : (j : ℕ) (e : Entry) → get_elem? es' j ≡ some e → entry b2 j ≡ some e
  new_entry j e k = rw zero-add at (entry-get_elem? 0 j b2 es' e w.directory k)

  same_read :
      (j off len : ℕ)
      → get_elem? es j ≡ some (off, len)
      → entry p.bytes j ≡ some (off, len)
      → j < length es
      → get_tuple page' j ≡ get_tuple p j
  same_read j off zero h e lt =
      let k : get_elem? es' j ≡ some (0, 0) = relocate_dead (length p.bytes) j off es h in
      get_tuple_slot page' es' compact-IsPage j 0 0 k within (new_entry j (0, 0) k)
      ∙ sym (get_tuple_slot p es v j off 0 h lt e)
    where
      within : j < length es'
      within = omega (arith, length-relocate (length p.bytes) es)
  same_read j off (suc len) h e lt =
      let (off', k, m) = relocate_live p.bytes b2 (length p.bytes) j off len es w.tuples h in
      get_tuple_slot page' es' compact-IsPage j off' (suc len) k within
        (new_entry j (off', suc len) k)
      ∙ (rw m refl)
      ∙ sym (get_tuple_slot p es v j off (suc len) h lt e)
    where
      within : j < length es'
      within = omega (arith, length-relocate (length p.bytes) es)

  compact-readers : (j : ℕ) → get_tuple page' j ≡ get_tuple p j
  compact-readers j = elim (dec_le (length es) j) [
    | yes past ↦
        get_tuple_past page' es' compact-IsPage j
          (omega (arith, length-relocate (length p.bytes) es))
        ∙ sym (get_tuple_past p es v j past)
    | no within ↦
        let ((off, len), h, d) = entry-Directory 0 j p.bytes es v.directory (omega arith) in
        same_read j off len h (rw zero-add at d) (omega arith)
  ]

compact_page_writes :
    (p : Page) (es : List Entry) (b1 b2 : Bytes) (r : ℕ)
    → IsPage p.bytes es
    → Gathered 0 p.bytes es b1
    → Placed 0 (length p.bytes) (slot_off (length es)) p.bytes b1 es b2
    → dead_bytes p ≡ some r
    → 0 < r
    → compact_page p ≡ some (record p { bytes = b2 }, r)
unfolding compact_page
compact_page_writes p es b1 b2 r v g w d pos =
    rw (d, v.count, g.runs, g.same_size, w.runs) (ground arith)

-- On a page in shape the compaction never panics. It returns the number of bytes behind the lowest
-- live tuple that no live tuple takes, leaves none of them, and no reader of any slot sees a
-- difference.
pub compact_page_lem :
    (p : Page) (es : List Entry)
    → IsPage p.bytes es
    → (p' : Page) × (compact_page p
        ≡ some (p', length p.bytes - floor (length p.bytes) es - total es))
      × Compacted p es p'
unfolding compact_page
compact_page_lem p es v =
    by_dead (length p.bytes - floor (length p.bytes) es - total es) refl (dead_bytes_lem p es v)
  where
    by_dead :
        (r : ℕ)
        → length p.bytes - floor (length p.bytes) es - total es ≡ r
        → dead_bytes p ≡ some r
        → (p' : Page) × (compact_page p ≡ some (p', r)) × Compacted p es p'
    by_dead zero q d = (
      p,
      rw d,
      record {
        entries = es;
        valid = v;
        slots = refl;
        tight = omega (arith, q, floor_bounds (slot_off (length es)) (length p.bytes) es v.stacked);
        readers = λ j. refl;
        same_id = refl;
        same_size = refl;
      },
    )
    by_dead (suc r) q d =
        let bounds = floor_bounds (slot_off (length es)) (length p.bytes) es v.stacked in
        let (b1, g) =
          gather_lem 0 p.bytes es (slot_off (length es)) (length p.bytes) v.directory v.stacked
            (omega arith) (omega arith) in
        let (b2, w) =
          place_lem 0 (length p.bytes) (slot_off (length es)) (length p.bytes) p.bytes b1 es
            g.directory v.stacked (omega arith) (omega arith) (omega (arith, g.same_size))
            (omega (arith, v.small)) (omega arith) in
        (
          record p { bytes = b2 },
          compact_page_writes p es b1 b2 (suc r) v g w d (omega arith),
          record {
            entries = relocate (length p.bytes) es;
            valid = compact-IsPage p es v b1 b2 g w;
            slots = length-relocate (length p.bytes) es;
            tight = compact-tight p es v b1 b2 g w;
            readers = compact-readers p es v b1 b2 g w;
            same_id = refl;
            same_size = w.same_size ∙ g.same_size;
          },
        )
