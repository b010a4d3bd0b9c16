-- ===== src/Heap/Slotted/Compact.antt =====
-- The two loops of `HeapPage::compact_page` on a page in shape: the copies of the live tuples, and
-- their new places from the page's tail downwards.
pub mod Readers
use chu_sql.Base.{
  ℕ, zero, suc, ◌+◌, ◌-◌, ◌*◌, ◌^◌, ◌≤◌, ◌<◌, ◌≡◌, refl, sym, ap, ◌∙◌, ◌⊎◌, inl, inr, Option, none,
  some, List, [], ◌∷◌, arith, length, ltb, le→ltb, lt→ltb, if◌then◌else◌, unwrap_or,
}
use chu_sql.Base.{and_then as ◌>>=◌}
use chu_sql.Base.Bytes.{
  Bytes, slice, splice, slice_total, splice_total, length-splice, slice-splice_self,
}
use chu_sql.Heap.Fields.{
  Apart, write_u32, read_u32, write_u32_total, length-write_u32, read-write_u32_self,
  slice-write_u32, slice-splice, read_u32-eq,
}
use chu_sql.Heap.Slotted.{slot_off, entry, gather, place}
use chu_sql.Heap.Slotted.Layout.{
  Entry, Directory, Directory-frame, Stacked, floor, total, floor_bounds,
}
use chu_sql.Heap.Slotted.Insert.{entry-eq}
use chu_sql.Heap.Slotted.Delete.{length_read}

-- The entries after the offsets of dead slots were reset.
abbrev pub reset : List Entry → List Entry
reset [] = []
reset ((off, zero) ∷ es) = (0, 0) ∷ reset es
reset ((off, suc l) ∷ es) = (off, suc l) ∷ reset es

pub length-reset : (es : List Entry) → length (reset es) ≡ length es
length-reset [] = refl
length-reset ((off, zero) ∷ es) = ap suc (length-reset es)
length-reset ((off, suc l) ∷ es) = ap suc (length-reset es)

-- The live tuples of the buffer `d`, with their slots.
abbrev pub copies : ℕ → Bytes → List Entry → List (ℕ × Bytes)
copies i d [] = []
copies i d ((off, zero) ∷ es) = copies (suc i) d es
copies i d ((off, suc l) ∷ es) = (i, unwrap_or (slice off (suc l) d) []) ∷ copies (suc i) d es

-- The entries once the live tuples lie below `end` with no gaps.
abbrev pub relocate : ℕ → List Entry → List Entry
relocate end [] = []
relocate end ((off, zero) ∷ es) = (0, 0) ∷ relocate end es
relocate end ((off, suc l) ∷ es) = (end - suc l, suc l) ∷ relocate (end - suc l) es

-- The buffer `out` holds the live tuples of `d` at their places below `end`.
abbrev pub Moved : Bytes → Bytes → ℕ → List Entry → Type 0
Moved d out end [] = Unit
Moved d out end ((off, zero) ∷ es) = Moved d out end es
Moved d out end ((off, suc l) ∷ es) =
    (slice (end - suc l) (suc l) out ≡ slice off (suc l) d) × Moved d out (end - suc l) es

copies-eq :
    (i base c : ℕ) (d d' : Bytes) (es : List Entry)
    → Stacked base c es
    → ((q m : ℕ) → base ≤ q → slice q m d' ≡ slice q m d)
    → copies i d' es ≡ copies i d es
copies-eq i base c d d' [] s same = refl
copies-eq i base c d d' ((off, zero) ∷ es) s same = copies-eq (suc i) base c d d' es s same
copies-eq i base c d d' ((off, suc l) ∷ es) s same = ground (
  arith,
  same off (suc l) (omega (arith, floor_bounds base off es s.1)),
  copies-eq (suc i) base off d d' es s.1 same,
)

-- What the first loop yields: the directory with reset offsets, and the copies. No range outside
-- the directory part that it walks is changed.
pub record Gathered (i : ℕ) (buf : Bytes) (es : List Entry) (out : Bytes) : Type 0 where
  pub runs : gather (length es) i buf ≡ some (out, copies i buf es)
  pub directory : Directory i out (reset es)
  pub same_size : length out ≡ length buf
  pub frame :
      (q m : ℕ)
      → (q + m ≤ slot_off i) ⊎ (slot_off (i + length es) ≤ q)
      → slice q m out ≡ slice q m buf

-- Rewriting the offset of a slot keeps its length.
entry-write_offset :
    (i off len at : ℕ) (buf out : Bytes)
    → entry buf i ≡ some (off, len)
    → at < 2 ^ 32
    → write_u32 buf (slot_off i) at ≡ some out
    → entry out i ≡ some (at, len)
unfolding entry
entry-write_offset i off len at buf out e h w = ground (
  arith,
  read-write_u32_self buf (slot_off i) at out h w,
  read_u32-eq buf out (slot_off i + 4)
      (slice-write_u32 buf (slot_off i) at out (slot_off i + 4) 4 (inr (omega arith)) w),
  length_read buf i off len e,
)

gather-dead :
    (i off : ℕ) (buf b1 out : Bytes) (es : List Entry) (base c : ℕ)
    → entry buf i ≡ some (off, 0)
    → write_u32 buf (slot_off i) 0 ≡ some b1
    → Stacked base c es
    → slot_off (i + suc (length es)) ≤ base
    → Gathered (suc i) b1 es out
    → Gathered i buf ((off, 0) ∷ es) out
unfolding gather
gather-dead i off buf b1 out es base c e w s room g = record {
  runs =
      rw (e, w, g.runs)
        (ap (λ x. some (out, x))
          (copies-eq (suc i) base c buf b1 es s
            (λ q m h. slice-write_u32 buf (slot_off i) 0 b1 q m (inr (omega arith)) w)));
  directory = (
    entry-eq b1 out i (λ q lo hi. g.frame q 4 (inl hi))
        ∙ entry-write_offset i off 0 0 buf b1 e (omega arith) w,
    g.directory,
  );
  same_size = g.same_size ∙ length-write_u32 buf (slot_off i) 0 b1 w;
  frame = λ q m h.
      g.frame q m (omega arith) ∙ slice-write_u32 buf (slot_off i) 0 b1 q m (omega arith) w;
}

gather-live :
    (i off l : ℕ) (buf out t : Bytes) (es : List Entry)
    → entry buf i ≡ some (off, suc l)
    → slice off (suc l) buf ≡ some t
    → Gathered (suc i) buf es out
    → Gathered i buf ((off, suc l) ∷ es) out
unfolding gather
gather-live i off l buf out t es e r g = record {
  runs = rw (e, lt→ltb 0 (suc l) (omega arith), r, g.runs);
  directory = (entry-eq buf out i (λ q lo hi. g.frame q 4 (inl hi)) ∙ e, g.directory);
  same_size = g.same_size;
  frame = λ q m h. g.frame q m (omega arith);
}

-- The first loop never panics on a stacked directory.
pub gather_lem :
    (i : ℕ) (buf : Bytes) (es : List Entry) (base c : ℕ)
    → Directory i buf es
    → Stacked base c es
    → c ≤ length buf
    → slot_off (i + length es) ≤ base
    → (out : Bytes) × Gathered i buf es out
unfolding gather
gather_lem i buf [] base c d s hc room =
    (buf, record { runs = refl; directory = tt; same_size = refl; frame = λ q m h. refl })
gather_lem i buf ((off, zero) ∷ es) base c d s hc room =
    let (b1, w) = write_u32_total buf (slot_off i) 0 (omega (arith, floor_bounds base c es s)) in
    let same = length-write_u32 buf (slot_off i) 0 b1 w in
    let (out, g) =
      gather_lem (suc i) b1 es base c
        (Directory-frame (suc i) buf b1 es
          (λ j lo hi.
            entry-eq buf b1 j
              λ q a b. slice-write_u32 buf (slot_off i) 0 b1 q 4 (inr (omega arith)) w)
          d.1)
        s (omega arith) (omega arith) in
    (out, gather-dead i off buf b1 out es base c d.0 w s (omega arith) g)
gather_lem i buf ((off, suc l) ∷ es) base c d s hc room =
    let (t, r, n) = slice_total off (suc l) buf (omega arith) in
    let (out, g) = gather_lem (suc i) buf es base off d.1 s.1 (omega arith) (omega arith) in
    (out, gather-live i off l buf out t es d.0 r g)

-- What the second loop yields for the copies taken from `d`.
pub record Placed (i end : ℕ) (base : ℕ) (d buf : Bytes) (es : List Entry) (out : Bytes)
    : Type 0 where
  pub runs : place (copies i d es) end buf ≡ some out
  pub directory : Directory i out (relocate end es)
  pub same_size : length out ≡ length buf
  pub frame :
      (q m : ℕ)
      → (q + m ≤ slot_off i) ⊎ (slot_off (i + length es) ≤ q)
      → (q + m ≤ base) ⊎ (end ≤ q)
      → slice q m out ≡ slice q m buf
  pub tuples : Moved d out end es

-- One round of the second loop: the tuple `t`, then the offset of its slot.
live_writes_keep :
    (i at : ℕ) (t buf b1 b2 : Bytes)
    → splice at t buf ≡ some b1
    → write_u32 b1 (slot_off i) at ≡ some b2
    → (q m : ℕ) → Apart q m (slot_off i) 4
    → Apart q m at (length t)
    → slice q m b2 ≡ slice q m buf
live_writes_keep i at t buf b1 b2 w1 w2 q m x y =
    slice-write_u32 b1 (slot_off i) at b2 q m x w2 ∙ slice-splice at t buf b1 q m y w1

place-live :
    (i end base off l : ℕ) (d buf t b1 b2 out : Bytes) (es : List Entry)
    → entry buf i ≡ some (off, suc l)
    → slice off (suc l) d ≡ some t
    → length t ≡ suc l
    → splice (end - suc l) t buf ≡ some b1
    → write_u32 b1 (slot_off i) (end - suc l) ≡ some b2
    → base + suc l ≤ end
    → end < 2 ^ 32
    → slot_off (i + suc (length es)) ≤ base
    → Placed (suc i) (end - suc l) base d b2 es out
    → Placed i end base d buf ((off, suc l) ∷ es) out
unfolding place
place-live i end base off l d buf t b1 b2 out es e r n w1 w2 fits small room g = record {
  runs = rw (r, n, le→ltb end (suc l) (omega arith), w1, w2) g.runs;
  directory = (
    entry-eq b2 out i (λ q lo hi. g.frame q 4 (inl hi) (inl (omega arith)))
        ∙ entry-write_offset i off (suc l) (end - suc l) b1 b2 e1 (omega arith) w2,
    g.directory,
  );
  same_size =
      g.same_size
      ∙ length-write_u32 b1 (slot_off i) (end - suc l) b2 w2
      ∙ length-splice (end - suc l) t buf b1 w1;
  frame = λ q m h k.
      g.frame q m (omega arith) (omega arith)
      ∙ live_writes_keep i (end - suc l) t buf b1 b2 w1 w2 q m (omega arith) (omega arith);
  tuples = (
    g.frame (end - suc l) (suc l) (inr (omega arith)) (inr (omega arith))
        ∙ slice-write_u32 b1 (slot_off i) (end - suc l) b2 (end - suc l) (suc l) (inr (omega arith))
            w2
        ∙ (rw n at (slice-splice_self (end - suc l) t buf b1 w1))
        ∙ sym r,
    g.tuples,
  );
}
  where
    e1 : entry b1 i ≡ some (off, suc l)
    e1 =
        entry-eq buf b1 i
          (λ q lo hi. slice-splice (end - suc l) t buf b1 q 4 (inl (omega arith)) w1)
        ∙ e

-- The second loop never panics when the copies fit between `base` and `end`.
pub place_lem :
    (i end base c : ℕ) (d buf : Bytes) (es : List Entry)
    → Directory i buf (reset es)
    → Stacked base c es
    → c ≤ length d
    → base + total es ≤ end
    → end ≤ length buf
    → end < 2 ^ 32
    → slot_off (i + length es) ≤ base
    → (out : Bytes) × Placed i end base d buf es out
unfolding place
place_lem i end base c d buf [] dir s hc fits he small room = (
  buf,
  record { runs = refl; directory = tt; same_size = refl; frame = λ q m h k. refl; tuples = tt },
)
place_lem i end base c d buf ((off, zero) ∷ es) dir s hc fits he small room =
    let (out, g) =
      place_lem (suc i) end base c d buf es dir.1 s hc (omega arith) he small (omega arith) in
    (
      out,
      record {
        runs = g.runs;
        directory = (
          entry-eq buf out i (λ q lo hi. g.frame q 4 (inl hi) (inl (omega arith))) ∙ dir.0,
          g.directory,
        );
        same_size = g.same_size;
        frame = λ q m h k. g.frame q m (omega arith) k;
        tuples = g.tuples;
      },
    )
place_lem i end base c d buf ((off, suc l) ∷ es) dir s hc fits he small room =
    let (t, r, n) = slice_total off (suc l) d (omega arith) in
    let (b1, w1) = splice_total (end - suc l) t buf (omega arith) in
    let n1 = length-splice (end - suc l) t buf b1 w1 in
    let (b2, w2) = write_u32_total b1 (slot_off i) (end - suc l) (omega arith) in
    let n2 = length-write_u32 b1 (slot_off i) (end - suc l) b2 w2 in
    let keep = live_writes_keep i (end - suc l) t buf b1 b2 w1 w2 in
    let (out, g) =
      place_lem (suc i) (end - suc l) base off d b2 es
        (Directory-frame (suc i) buf b2 (reset es)
          (λ j lo hi.
            entry-eq buf b2 j
              (λ q a b. keep q 4 (inr (omega arith)) (inl (omega (arith, length-reset es)))))
          dir.1)
        s.1 (omega arith) (omega arith) (omega arith) (omega arith) (omega arith) in
    (
      out,
      place-live i end base off l d buf t b1 b2 out es dir.0 r n w1 w2 (omega arith) (omega arith)
          (omega arith) g,
    )
