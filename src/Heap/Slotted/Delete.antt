-- ===== src/Heap/Slotted/Delete.antt =====
-- `HeapPage::delete_tuple` on a page in shape.
use native.Mathlib.Nat.{zero-add, add-suc, suc-add, add-zero}
use native.Mathlib.Decide.{dec_le}
use chu_sql.Base.{
  ℕ, zero, suc, ◌+◌, ◌≤◌, ◌<◌, ◌≡◌, ◌≢◌, refl, ap, ◌∙◌, ◌⊎◌, inl, inr, none, some, true, false,
  List, [], ◌∷◌, arith, length, get_elem?, le→leb, lt→leb, ◌==◌, if◌then◌else◌,
}
use chu_sql.Base.{and_then as ◌>>=◌}
use chu_sql.Base.Bytes.{Bytes, slice, slice_total}
use chu_sql.Page.{Page}
use chu_sql.Heap.Fields.{
  write_u32, read_u32, write_u32_total, length-write_u32, read-write_u32_self, slice-write_u32,
  read_u16-eq, read_u32-eq,
}
use chu_sql.Heap.Slotted.{slot_off, entry, delete_tuple, get_tuple}
use chu_sql.Heap.Slotted.Layout.{
  Entry, Directory, Directory-frame, Stacked, IsPage, entry-Directory, Stacked-entry,
}
use chu_sql.Heap.Slotted.Insert.{entry-eq}
use chu_sql.Heap.Slotted.Contents.{directory_fits, get_tuple_past, get_tuple_slot}

-- The entries after slot `j` got the length 0.
abbrev pub kill : List Entry → ℕ → List Entry
kill [] j = []
kill ((off, len) ∷ es) zero = (off, 0) ∷ es
kill (e ∷ es) (suc j) = e ∷ kill es j

pub length-kill : (es : List Entry) (j : ℕ) → length (kill es j) ≡ length es
length-kill [] j = refl
length-kill (e ∷ es) zero = refl
length-kill (e ∷ es) (suc j) = ap suc (length-kill es j)

Stacked-lower : (base c c' : ℕ) (es : List Entry) → c ≤ c' → Stacked base c es → Stacked base c' es
Stacked-lower base c c' [] h s = omega arith
Stacked-lower base c c' ((off, zero) ∷ es) h s = Stacked-lower base c c' es h s
Stacked-lower base c c' ((off, suc l) ∷ es) h s = (omega arith, s.1)

Stacked-kill : (base c j : ℕ) (es : List Entry) → Stacked base c es → Stacked base c (kill es j)
Stacked-kill base c j [] s = s
Stacked-kill base c zero ((off, zero) ∷ es) s = s
Stacked-kill base c zero ((off, suc l) ∷ es) s = Stacked-lower base off c es (omega arith) s.1
Stacked-kill base c (suc j) ((off, zero) ∷ es) s = Stacked-kill base c j es s
Stacked-kill base c (suc j) ((off, suc l) ∷ es) s = (s.0, Stacked-kill base off j es s.1)

Directory-kill :
    (i j off len : ℕ) (buf buf' : Bytes) (es : List Entry)
    → ((k : ℕ) → k ≢ i + j → k < i + length es → entry buf' k ≡ entry buf k)
    → get_elem? es j ≡ some (off, len)
    → entry buf' (i + j) ≡ some (off, 0)
    → Directory i buf es
    → Directory i buf' (kill es j)
Directory-kill i j off len buf buf' [] same g e d = cc
Directory-kill i zero off len buf buf' ((o, l) ∷ es) same g e d = (
  ground (arith, ap (entry buf') (add-zero i)),
  Directory-frame (suc i) buf buf' es (λ k lo hi. same k (omega arith) (omega arith)) d.1,
)
Directory-kill i (suc j) off len buf buf' ((o, l) ∷ es) same g e d = (
  same i (omega arith) (omega arith) ∙ d.0,
  Directory-kill (suc i) j off len buf buf' es
      (λ k ne hi. same k (λ q. ne (omega arith)) (omega arith)) g (rw (suc-add, ← add-suc) e) d.1,
)

pub length_read :
    (buf : Bytes) (slot off len : ℕ)
    → entry buf slot ≡ some (off, len)
    → read_u32 buf (slot_off slot + 4) ≡ some len
unfolding entry
length_read buf slot off len e = ground arith

module _ (p : Page) (es : List Entry) (slot off len : ℕ) (out : Bytes) (v : IsPage p.bytes es)
    (lt : slot < length es) (g : get_elem? es slot ≡ some (off, suc len))
    (e : entry p.bytes slot ≡ some (off, suc len))
    (w : write_u32 p.bytes (slot_off slot + 4) 0 ≡ some out) where
  abbrev page' : Page
  page' = record p { bytes = out }

  slice-kept :
      (q m : ℕ)
      → (q + m ≤ slot_off slot + 4) ⊎ (slot_off slot + 8 ≤ q)
      → slice q m out ≡ slice q m p.bytes
  slice-kept q m (inl h) = slice-write_u32 p.bytes (slot_off slot + 4) 0 out q m (inl h) w
  slice-kept q m (inr h) =
      slice-write_u32 p.bytes (slot_off slot + 4) 0 out q m (inr (omega arith)) w

  entry-kept : (k : ℕ) → k ≢ slot → entry out k ≡ entry p.bytes k
  entry-kept k ne = entry-eq p.bytes out k λ q lo hi. slice-kept q 4 (omega arith)

  entry-dead : entry out slot ≡ some (off, 0)
  unfolding entry
  entry-dead = ground (
    arith,
    read_u32-eq p.bytes out (slot_off slot) (slice-kept (slot_off slot) 4 (inl (omega arith))),
    read-write_u32_self p.bytes (slot_off slot + 4) 0 out (omega arith) w,
  )

  delete-IsPage : IsPage out (kill es slot)
  delete-IsPage = record {
    count =
        rw length-kill (read_u16-eq p.bytes out 0 (slice-kept 0 2 (inl (omega arith))) ∙ v.count);
    directory =
        Directory-kill 0 slot off (suc len) p.bytes out es
          (λ k ne hi. entry-kept k (λ q. ne (omega arith))) g (rw zero-add entry-dead) v.directory;
    stacked =
        rw (length-write_u32 p.bytes (slot_off slot + 4) 0 out w, length-kill)
          (Stacked-kill (slot_off (length es)) (length p.bytes) slot es v.stacked);
    small = omega (arith, v.small, length-write_u32 p.bytes (slot_off slot + 4) 0 out w);
  }

  live_read : (t : Bytes) × (get_tuple p slot ≡ some (some t))
  live_read =
      let (above, below) =
        Stacked-entry (slot_off (length es)) (length p.bytes) slot off (suc len) es v.stacked g
          (omega arith) in
      let (t, s, l) = slice_total off (suc len) p.bytes (omega arith) in
      (t, get_tuple_slot p es v slot off (suc len) g lt e ∙ rw s (ground arith))

  delete_tuple_writes : delete_tuple p slot ≡ some (page', true)
  unfolding delete_tuple
  delete_tuple_writes =
      rw (v.count, lt→leb (length es) slot lt, length_read p.bytes slot off (suc len) e, w)
        (ground arith)

  delete-gone : get_tuple page' slot ≡ some none
  unfolding get_tuple
  delete-gone = rw (delete-IsPage.count, length-kill, lt→leb (length es) slot lt, entry-dead)

  read-kept :
      (j o l : ℕ)
      → get_elem? es j ≡ some (o, l)
      → (if l == 0 then some none else (do u ← slice o l out; some (some u)))
        ≡ (if l == 0 then some none else (do u ← slice o l p.bytes; some (some u)))
  read-kept j o zero h = refl
  read-kept j o (suc l) h =
      let (above, below) =
        Stacked-entry (slot_off (length es)) (length p.bytes) j o (suc l) es v.stacked h
          (omega arith) in
      rw (slice-kept o (suc l) (inr (omega (arith, directory_fits p es v))))

  delete-others : (j : ℕ) → j ≢ slot → get_tuple page' j ≡ get_tuple p j
  unfolding get_tuple
  delete-others j ne = elim (dec_le (length es) j) [
    | yes past ↦ rw (delete-IsPage.count, length-kill, v.count, le→leb (length es) j past)
    | no within ↦
        let ((o, l), h, d) = entry-Directory 0 j p.bytes es v.directory (omega arith) in
        let d' : entry p.bytes j ≡ some (o, l) = rw zero-add at d in
        rw
          (
            delete-IsPage.count,
            length-kill,
            v.count,
            lt→leb (length es) j (omega arith),
            entry-kept j ne,
            d',
          )
          (read-kept j o l h)
  ]

-- What a deletion of a live slot leaves behind.
pub record Deleted (p : Page) (es : List Entry) (slot : ℕ) (p' : Page) : Type 0 where
  pub valid : IsPage p'.bytes (kill es slot)
  pub gone : get_tuple p' slot ≡ some none
  pub others : (j : ℕ) → j ≢ slot → get_tuple p' j ≡ get_tuple p j
  pub same_id : p'.id ≡ p.id

-- On a page in shape a deletion never panics. It answers `false` and leaves the page as it was if
-- the slot reads as nothing. Otherwise it answers `true`, the slot reads as nothing from then on,
-- and every other slot reads as before.
pub delete_tuple_lem :
    (p : Page) (es : List Entry) (slot : ℕ)
    → IsPage p.bytes es
    → ((get_tuple p slot ≡ some none) × (delete_tuple p slot ≡ some (p, false)))
      ⊎ ((t : Bytes) × (get_tuple p slot ≡ some (some t))
          × ((p' : Page) × (delete_tuple p slot ≡ some (p', true)) × Deleted p es slot p'))
unfolding delete_tuple
delete_tuple_lem p es slot v = elim (dec_le (length es) slot) [
  | yes past ↦ inl (get_tuple_past p es v slot past, rw (v.count, le→leb (length es) slot past))
  | no within ↦
      let ((off, len), g, d) = entry-Directory 0 slot p.bytes es v.directory (omega arith) in
      by_length off len g (rw zero-add at d) (omega arith)
]
  where
    by_length :
        (off len : ℕ)
        → get_elem? es slot ≡ some (off, len)
        → entry p.bytes slot ≡ some (off, len)
        → slot < length es
        → ((get_tuple p slot ≡ some none) × (delete_tuple p slot ≡ some (p, false)))
          ⊎ ((t : Bytes) × (get_tuple p slot ≡ some (some t))
              × ((p' : Page) × (delete_tuple p slot ≡ some (p', true)) × Deleted p es slot p'))
    by_length off zero g e lt = inl (
      get_tuple_slot p es v slot off 0 g lt e,
      rw (v.count, lt→leb (length es) slot lt, length_read p.bytes slot off 0 e),
    )
    by_length off (suc len) g e lt =
        let (out, w) =
          write_u32_total p.bytes (slot_off slot + 4) 0 (omega (arith, directory_fits p es v)) in
        let (t, r) = live_read p es slot off len out v lt g e w in
        inr (
          t,
          r,
          (
            record p { bytes = out },
            delete_tuple_writes p es slot off len out v lt g e w,
            record {
              valid = delete-IsPage p es slot off len out v lt g e w;
              gone = delete-gone p es slot off len out v lt g e w;
              others = delete-others p es slot off len out v lt g e w;
              same_id = refl;
            },
          ),
        )
