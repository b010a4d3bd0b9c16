-- ===== src/Heap/Slotted/Layout.antt =====
-- The slot directory of a page as a list of entries, and the shape that the operations of
-- heap.rs `HeapPage` keep: live tuples lie one below the other, in slot order.
use native.Mathlib.Nat.{add-suc, suc-add, add-zero}
use chu_sql.Base.{
  ℕ, zero, suc, ◌+◌, ◌^◌, ◌≤◌, ◌<◌, ◌≡◌, refl, ap, ◌∙◌, some, List, [], ◌∷◌, ◌++◌, arith, length,
  get_elem?, ltb, ◌&&◌, if◌then◌else◌,
}
use chu_sql.Base.Bytes.{Bytes}
use chu_sql.Heap.Fields.{read_u16}
use chu_sql.Heap.Slotted.{slot_off, entry, free_end_loop, live_loop}

abbrev pub Entry : Type 0
Entry = ℕ × ℕ

-- The directory holds the entries `es` from slot `i` on.
abbrev pub Directory : ℕ → Bytes → List Entry → Type 0
Directory i buf [] = Unit
Directory i buf (e ∷ es) = (entry buf i ≡ some e) × Directory (suc i) buf es

-- Live tuples lie below `ceiling`, each below the one before it, and none below `base`.
abbrev pub Stacked : ℕ → ℕ → List Entry → Type 0
Stacked base ceiling [] = base ≤ ceiling
Stacked base ceiling ((off, zero) ∷ es) = Stacked base ceiling es
Stacked base ceiling ((off, suc l) ∷ es) = (off + suc l ≤ ceiling) × Stacked base off es

-- The start of the lowest live tuple.
abbrev pub floor : ℕ → List Entry → ℕ
floor ceiling [] = ceiling
floor ceiling ((off, zero) ∷ es) = floor ceiling es
floor ceiling ((off, suc l) ∷ es) = floor off es

-- The number of bytes in live tuples.
abbrev pub total : List Entry → ℕ
total [] = 0
total ((off, len) ∷ es) = len + total es

pub record IsPage (buf : Bytes) (es : List Entry) : Type 0 where
  pub count : read_u16 buf 0 ≡ some (length es)
  pub directory : Directory 0 buf es
  pub stacked : Stacked (slot_off (length es)) (length buf) es
  pub small : length buf ≤ 2 ^ 16

pub floor_bounds :
    (base c : ℕ) (es : List Entry)
    → Stacked base c es
    → (base ≤ floor c es) × (floor c es + total es ≤ c)
floor_bounds base c [] h = omega arith
floor_bounds base c ((off, zero) ∷ es) h = omega (arith, floor_bounds base c es h)
floor_bounds base c ((off, suc l) ∷ es) h = omega (arith, floor_bounds base off es h.1)

-- The running minimum of `free_end` over the entries.
abbrev lowest : ℕ → List Entry → ℕ
lowest m [] = m
lowest m ((off, len) ∷ es) = lowest (if ltb 0 len && ltb off m then off else m) es

lowest-floor : (base c : ℕ) (es : List Entry) → Stacked base c es → lowest c es ≡ floor c es
lowest-floor base c [] h = refl
lowest-floor base c ((off, zero) ∷ es) h = lowest-floor base c es h
lowest-floor base c ((off, suc l) ∷ es) h = ground (arith, lowest-floor base off es h.1)

free_end_loop-lowest :
    (i m : ℕ) (buf : Bytes) (es : List Entry)
    → Directory i buf es
    → free_end_loop (length es) i m buf ≡ some (lowest m es)
unfolding free_end_loop
free_end_loop-lowest i m buf [] h = refl
free_end_loop-lowest i m buf ((off, len) ∷ es) h =
    rw h.0 (free_end_loop-lowest (suc i) (if ltb 0 len && ltb off m then off else m) buf es h.1)

pub free_end_loop-floor :
    (base : ℕ) (buf : Bytes) (es : List Entry)
    → Directory 0 buf es
    → Stacked base (length buf) es
    → free_end_loop (length es) 0 (length buf) buf ≡ some (floor (length buf) es)
free_end_loop-floor base buf es h s =
    free_end_loop-lowest 0 (length buf) buf es h ∙ ap some (lowest-floor base (length buf) es s)

pub live_loop-total :
    (i acc : ℕ) (buf : Bytes) (es : List Entry)
    → Directory i buf es
    → live_loop (length es) i acc buf ≡ some (acc + total es)
unfolding live_loop
live_loop-total i acc buf [] h = rw add-zero
live_loop-total i acc buf ((off, len) ∷ es) h =
    rw h.0 (live_loop-total (suc i) (acc + len) buf es h.1 ∙ ap some (omega arith))

-- Entry `j` of the list is what the directory holds for slot `i + j`.
pub entry-Directory :
    (i j : ℕ) (buf : Bytes) (es : List Entry)
    → Directory i buf es
    → j < length es
    → (e : Entry) × (get_elem? es j ≡ some e) × (entry buf (i + j) ≡ some e)
entry-Directory i j buf [] h lt = absurd (omega arith)
entry-Directory i zero buf (e ∷ es) h lt = (e, refl, rw add-zero h.0)
entry-Directory i (suc j) buf (e ∷ es) h lt =
    let (e', g, d) = entry-Directory (suc i) j buf es h.1 (omega arith) in
    (e', g, rw (add-suc, ← suc-add) d)

pub entry-get_elem? :
    (i j : ℕ) (buf : Bytes) (es : List Entry) (e : Entry)
    → Directory i buf es
    → get_elem? es j ≡ some e
    → entry buf (i + j) ≡ some e
entry-get_elem? i j buf [] e h g = cc
entry-get_elem? i zero buf (x ∷ es) e h g = rw add-zero (h.0 ∙ g)
entry-get_elem? i (suc j) buf (x ∷ es) e h g =
    rw (add-suc, ← suc-add) (entry-get_elem? (suc i) j buf es e h.1 g)

-- A directory is kept by whatever keeps the entries that it holds.
pub Directory-frame :
    (i : ℕ) (buf buf' : Bytes) (es : List Entry)
    → ((j : ℕ) → i ≤ j → j < i + length es → entry buf' j ≡ entry buf j)
    → Directory i buf es
    → Directory i buf' es
Directory-frame i buf buf' [] same h = tt
Directory-frame i buf buf' (e ∷ es) same h = (
  same i (omega arith) (omega arith) ∙ h.0,
  Directory-frame (suc i) buf buf' es (λ j lo hi. same j (omega arith) (omega arith)) h.1,
)

pub Directory-append :
    (i : ℕ) (buf : Bytes) (es : List Entry) (e : Entry)
    → Directory i buf es
    → entry buf (i + length es) ≡ some e
    → Directory i buf (es ++ e ∷ [])
Directory-append i buf [] e h last = (rw add-zero at last, tt)
Directory-append i buf (x ∷ es) e h last =
    (h.0, Directory-append (suc i) buf es e h.1 (rw (add-suc, ← suc-add) at last))

pub Stacked-append :
    (base base' c off len : ℕ) (es : List Entry)
    → Stacked base c es
    → base' ≤ off
    → off + len ≤ floor c es
    → Stacked base' c (es ++ (off, len) ∷ [])
Stacked-append base base' c off zero [] h b f = omega arith
Stacked-append base base' c off (suc l) [] h b f = omega arith
Stacked-append base base' c off len ((o, zero) ∷ es) h b f =
    Stacked-append base base' c off len es h b f
Stacked-append base base' c off len ((o, suc l) ∷ es) h b f =
    (h.0, Stacked-append base base' o off len es h.1 b f)

-- A live entry lies between the floor and the ceiling.
pub Stacked-entry :
    (base c j off len : ℕ) (es : List Entry)
    → Stacked base c es
    → get_elem? es j ≡ some (off, len)
    → 0 < len
    → (floor c es ≤ off) × (off + len ≤ c)
Stacked-entry base c j off len [] h g p = cc
Stacked-entry base c zero off len ((o, zero) ∷ es) h g p = absurd (ground arith)
Stacked-entry base c zero off len ((o, suc l) ∷ es) h g p =
    ground (arith, floor_bounds base o es h.1)
Stacked-entry base c (suc j) off len ((o, zero) ∷ es) h g p =
    Stacked-entry base c j off len es h g p
Stacked-entry base c (suc j) off len ((o, suc l) ∷ es) h g p =
    omega (arith, Stacked-entry base o j off len es h.1 g p)
