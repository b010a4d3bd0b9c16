-- ===== src/Heap/Slotted/Contents.antt =====
-- What a reader of a page sees after an insertion: `HeapPage::get_tuple` after
-- `HeapPage::insert_tuple`.
use native.Mathlib.Nat.{mod-eq_of_lt, zero-add}
use native.Mathlib.Decide.{dec_le}
use chu_sql.Base.{
  ℕ, zero, suc, ◌+◌, ◌-◌, ◌%◌, ◌^◌, ◌≤◌, ◌<◌, ◌≡◌, refl, ◌⊎◌, inl, inr, none, some, List, [], ◌∷◌,
  ◌++◌, arith, length, length-append, get_elem?, lt→ltb, le→ltb, le→leb, lt→leb, ◌==◌,
  if◌then◌else◌,
}
use chu_sql.Base.{and_then as ◌>>=◌}
use chu_sql.Base.Bytes.{Bytes, slice}
use chu_sql.Page.{Page}
use chu_sql.Heap.Slotted.{slot_off, entry, free_end, insert_tuple, get_tuple}
use chu_sql.Heap.Slotted.Layout.{
  Entry, floor, IsPage, floor_bounds, free_end_loop-floor, Directory-frame, Directory-append,
  Stacked-append, Stacked-entry, entry-Directory,
}
use chu_sql.Heap.Slotted.Insert.{
  Writes, Writes-total, length-writes, slice-writes, count-writes, entry-writes, tuple-writes,
  entry-eq,
}

module _ (p : Page) (es : List Entry) (v : IsPage p.bytes es) where
  -- The directory ends below the floor, so a page has at most 8191 slots.
  pub directory_fits :
      (slot_off (length es) ≤ floor (length p.bytes) es)
      × (floor (length p.bytes) es ≤ length p.bytes)
  directory_fits = omega (arith, floor_bounds _ (length p.bytes) es v.stacked)

  pub free_end-floor : free_end p ≡ some (floor (length p.bytes) es)
  unfolding free_end
  free_end-floor =
      let e : length p.bytes % 2 ^ 32 ≡ length p.bytes = mod-eq_of_lt (omega (arith, v.small)) in
      rw (v.count, e) (free_end_loop-floor _ p.bytes es v.directory v.stacked)

  pub get_tuple_past : (j : ℕ) → length es ≤ j → get_tuple p j ≡ some none
  unfolding get_tuple
  get_tuple_past j h = rw (v.count, le→leb (length es) j h)

  -- A slot of the directory reads as its tuple, or as nothing if its length is 0.
  pub get_tuple_slot :
      (j off len : ℕ)
      → get_elem? es j ≡ some (off, len)
      → j < length es
      → entry p.bytes j ≡ some (off, len)
      → get_tuple p j
        ≡ (if len == 0 then some none else (do t ← slice off len p.bytes; some (some t)))
  unfolding get_tuple
  get_tuple_slot j off len g lt e = rw (v.count, lt→leb (length es) j lt, e)

module _ (p : Page) (es : List Entry) (t : Bytes) (v : IsPage p.bytes es) where
  insert_tuple_full :
      floor (length p.bytes) es < slot_off (suc (length es)) + length t
      → insert_tuple p t ≡ some (p, none)
  unfolding insert_tuple
  insert_tuple_full h = rw (
    v.count,
    free_end-floor p es v,
    lt→ltb (floor (length p.bytes) es) (slot_off (length es) + 8 + length t) (omega arith),
  )

  -- The buffer after a tuple that fits was written at the foot of the stack.
  insert_tuple-Writes :
      (out : Bytes)
      → slot_off (suc (length es)) + length t ≤ floor (length p.bytes) es
      → Writes p.bytes t out (length es) (floor (length p.bytes) es - length t)
      → insert_tuple p t ≡ some (record p { bytes = out }, some (length es))
  unfolding insert_tuple
  insert_tuple-Writes out h w = rw (
    v.count,
    free_end-floor p es v,
    le→ltb (floor (length p.bytes) es) (slot_off (length es) + 8 + length t) (omega arith),
    w.tuple_written,
    w.offset_written,
    w.length_written,
    w.count_written,
  )

-- What an insertion that fits leaves behind.
pub record Inserted (p : Page) (es : List Entry) (t : Bytes) (p' : Page) : Type 0 where
  pub valid : IsPage p'.bytes (es ++ (floor (length p.bytes) es - length t, length t) ∷ [])
  pub new_tuple : get_tuple p' (length es) ≡ some (some t)
  pub old_tuples : (j : ℕ) → j < length es → get_tuple p' j ≡ get_tuple p j
  pub same_id : p'.id ≡ p.id
  pub same_size : length p'.bytes ≡ length p.bytes

module _ (p : Page) (es : List Entry) (t : Bytes) (v : IsPage p.bytes es) (out : Bytes)
    (fits : slot_off (suc (length es)) + length t ≤ floor (length p.bytes) es)
    (w : Writes p.bytes t out (length es) (floor (length p.bytes) es - length t)) where
  at : ℕ
  at = floor (length p.bytes) es - length t

  entry-kept : (j : ℕ) → j < length es → entry out j ≡ entry p.bytes j
  unfolding at
  entry-kept j lt = entry-eq p.bytes out j λ q lo hi.
      slice-writes p.bytes t out (length es) at w q 4 (omega arith) (inl (omega arith))
        (inl (omega (arith, directory_fits p es v)))

  insert_tuple-IsPage : IsPage out (es ++ (at, length t) ∷ [])
  unfolding at
  insert_tuple-IsPage = record {
    count = rw length-append (
        count-writes p.bytes t out (length es) at w
          (omega (arith, directory_fits p es v, v.small)));
    directory =
        Directory-append 0 out es (at, length t)
          (Directory-frame 0 p.bytes out es (λ j lo hi. entry-kept j (omega arith)) v.directory)
          (rw zero-add (
            entry-writes p.bytes t out (length es) at w
              (omega (arith, directory_fits p es v, v.small))
              (omega (arith, directory_fits p es v, v.small))));
    stacked =
        rw (length-writes p.bytes t out (length es) at w, length-append)
          (Stacked-append (slot_off (length es)) (slot_off (length es + 1)) (length p.bytes) at
            (length t) es v.stacked (omega arith) (omega arith));
    small = omega (arith, v.small, length-writes p.bytes t out (length es) at w);
  }

  abbrev page' : Page
  page' = record p { bytes = out }

  slice-kept :
      (off len : ℕ)
      → slot_off (length es) ≤ off
      → floor (length p.bytes) es ≤ off
      → slice off len out ≡ slice off len p.bytes
  unfolding at
  slice-kept off len lo above =
      slice-writes p.bytes t out (length es) at w off len (omega arith) (inr (omega arith))
        (inr (omega arith))

  insert_tuple-new : 0 < length t → get_tuple page' (length es) ≡ some (some t)
  unfolding get_tuple at
  insert_tuple-new pos =
      rw
        (
          insert_tuple-IsPage.count,
          length-append,
          lt→leb (length es + 1) (length es) (omega arith),
          entry-writes p.bytes t out (length es) at w
              (omega (arith, directory_fits p es v, v.small))
              (omega (arith, directory_fits p es v, v.small)),
          tuple-writes p.bytes t out (length es) at w (omega arith),
        )
        (ground arith)

  read-kept :
      (j off len : ℕ)
      → get_elem? es j ≡ some (off, len)
      → (if len == 0 then some none else (do u ← slice off len out; some (some u)))
        ≡ (if len == 0 then some none else (do u ← slice off len p.bytes; some (some u)))
  read-kept j off zero g = refl
  read-kept j off (suc l) g =
      let (above, below) =
        Stacked-entry (slot_off (length es)) (length p.bytes) j off (suc l) es v.stacked g
          (omega arith) in
      rw (slice-kept off (suc l) (omega (arith, directory_fits p es v)) above)

  insert_tuple-old : (j : ℕ) → j < length es → get_tuple page' j ≡ get_tuple p j
  unfolding get_tuple
  insert_tuple-old j lt =
      let ((off, len), g, e) = entry-Directory 0 j p.bytes es v.directory lt in
      let e' : entry p.bytes j ≡ some (off, len) = rw zero-add at e in
      rw
        (
          insert_tuple-IsPage.count,
          length-append,
          v.count,
          lt→leb (length es + 1) j (omega arith),
          lt→leb (length es) j lt,
          entry-kept j lt,
          e',
        )
        (read-kept j off len g)

-- On a page in shape the insertion of a tuple that is not empty never panics. It is refused, and the page left as it was,
-- exactly when the tuple and its entry do not fit between directory and tuples. Otherwise the
-- tuple is the content of the next slot, and every older slot reads as before.
pub insert_tuple_lem :
    (p : Page) (es : List Entry) (t : Bytes)
    → IsPage p.bytes es
    → 0 < length t
    → ((floor (length p.bytes) es < slot_off (suc (length es)) + length t)
        × (insert_tuple p t ≡ some (p, none)))
      ⊎ ((slot_off (suc (length es)) + length t ≤ floor (length p.bytes) es)
          × ((p' : Page) × (insert_tuple p t ≡ some (p', some (length es))) × Inserted p es t p'))
unfolding at
insert_tuple_lem p es t v pos =
    elim (dec_le (slot_off (suc (length es)) + length t) (floor (length p.bytes) es)) [
      | yes fits ↦
          let (out, w) =
            Writes-total p.bytes t (length es) (floor (length p.bytes) es - length t) (omega arith)
              (omega (arith, directory_fits p es v)) in
          inr (
            fits,
            (
              record p { bytes = out },
              insert_tuple-Writes p es t v out fits w,
              record {
                valid = insert_tuple-IsPage p es t v out fits w;
                new_tuple = insert_tuple-new p es t v out fits w pos;
                old_tuples = insert_tuple-old p es t v out fits w;
                same_id = refl;
                same_size = length-writes p.bytes t out (length es) _ w;
              },
            ),
          )
      | no big ↦ inl (omega arith, insert_tuple_full p es t v (omega arith))
    ]
