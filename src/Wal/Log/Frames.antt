-- ===== src/Wal/Log/Frames.antt =====
-- The log file as a sequence of frames: what `Wal::parse` finds in it, also where the file was cut
-- inside a frame.
use native.Mathlib.Nat.{zero-add, add-zero}
use native.Mathlib.Numerals.{add-one}
use chu_sql.Base.{
  ℕ, zero, suc, ◌+◌, ◌-◌, ◌^◌, ◌<◌, ◌≡◌, refl, sym, ap, ◌∙◌, some, List, [], ◌∷◌, ◌++◌, length,
  length-append, take, length-take-le, take-append_more, take-nil, All, leb, le→ltb, lt→ltb, arith,
  ok, ◌>>=◌, if◌then◌else◌, append_assoc, append-nil, Bool-cases, inl, inr, leb→le, leb→gt,
}
use chu_sql.Base.Bytes.{Bytes, slice_middle}
use chu_sql.Base.Le.{to_le, of_le, length-to_le, of_le-to_le}
use chu_sql.Base.Text.{Str}
use chu_sql.Wal.Op.{WalOp, Serde}
use chu_sql.Wal.Codec.{body_of, part}
use chu_sql.Wal.Codec.RoundTrip.{Fits, decode_body-body_of, length-body_of}
use chu_sql.Wal.Log.{Wal, SFrame, parse_loop, parse}

-- An operation with the LSN and the parts from which its frame is made.
pub record Block (S : Serde) : Type 0 where
  pub lsn : ℕ
  pub op : WalOp S.Value S.Row
  pub code : ℕ
  pub name : Str
  pub payload : Bytes

module _ (S : Serde) where
  abbrev pub Valid : Block S → Type 0
  Valid b = (b.lsn < 2 ^ 64) × Fits S b.op b.code b.name b.payload

  abbrev pub body : Block S → Bytes
  body b = body_of b.lsn b.code b.name b.payload

  abbrev pub frame_bytes : Block S → Bytes
  frame_bytes b = to_le 4 (length (body b)) ++ body b

  abbrev pub file : List (Block S) → Bytes
  file [] = []
  file (b ∷ bs) = frame_bytes b ++ file bs

  -- The frames that `parse` reports when the first of them starts at byte `offset`.
  abbrev pub frames_at : ℕ → List (Block S) → List (SFrame S)
  frames_at offset [] = []
  frames_at offset (b ∷ bs) =
      record { lsn = b.lsn; op = b.op; start = offset; stop = offset + 4 + length (body b) }
      ∷ frames_at (offset + 4 + length (body b)) bs

  -- The frames that lie wholly within the first `n` bytes of the file.
  abbrev pub whole : ℕ → List (Block S) → List (Block S)
  whole n [] = []
  whole n (b ∷ bs) =
      let rest = whole (n - length (frame_bytes b)) bs in
      if leb (length (frame_bytes b)) n then b ∷ rest else []

  pub length-frame_bytes : (b : Block S) → length (frame_bytes b) ≡ 4 + length (body b)
  length-frame_bytes b =
      omega (
        arith,
        length-append (to_le 4 (length (body b))) (body b),
        length-to_le 4 (length (body b)),
      )

  module _ (pre : Bytes) (b : Block S) (v : Valid b) where
    small : length (body b) < 2 ^ 32
    small = omega (arith, length-body_of b.lsn b.code b.name b.payload, v.1.small)

    read_prefix :
        (rest : Bytes)
        → of_le (part (length pre) 4 (pre ++ (to_le 4 (length (body b)) ++ rest))) ≡ length (body b)
    read_prefix rest =
        rw
          (slice_middle pre (to_le 4 (length (body b))) rest (length pre) 4 refl
            (sym (length-to_le 4 (length (body b)))))
          (of_le-to_le 4 (length (body b)) small)

    read_length :
        (rest : Bytes)
        → of_le (part (length pre) 4 (pre ++ (frame_bytes b ++ rest))) ≡ length (body b)
    read_length rest =
        rw (append_assoc (to_le 4 (length (body b))) (body b) rest) (read_prefix (body b ++ rest))

    part-body :
        (rest : Bytes)
        → part (length pre + 4) (length (body b)) (pre ++ (frame_bytes b ++ rest)) ≡ body b
    part-body rest =
        rw
          (
            append_assoc (to_le 4 (length (body b))) (body b) rest,
            ← append_assoc pre (to_le 4 (length (body b))) (body b ++ rest),
          )
          (rw (
            slice_middle (pre ++ to_le 4 (length (body b))) (body b) rest (length pre + 4)
              (length (body b))
              (omega (
                arith,
                length-append pre (to_le 4 (length (body b))),
                length-to_le 4 (length (body b)),
              ))
              refl))

    -- One round of the loop on a whole frame.
    parse_loop_step :
        (f : ℕ) (rest : Bytes)
        → parse_loop S (suc f) (pre ++ (frame_bytes b ++ rest)) (length pre) ≡ (do
          (frames, good_len) ←
              parse_loop S f (pre ++ (frame_bytes b ++ rest)) (length pre + 4 + length (body b))
          ok (
            record {
              lsn = b.lsn;
              op = b.op;
              start = length pre;
              stop = length pre + 4 + length (body b);
            }
                ∷ frames,
            good_len,
          ))
    unfolding parse_loop
    parse_loop_step f rest = rw (
      read_length rest,
      le→ltb (length (pre ++ (frame_bytes b ++ rest))) (length pre + 4) (omega (arith, sizes)),
      le→ltb (length (pre ++ (frame_bytes b ++ rest))) (length pre + 4 + length (body b))
          (omega (arith, sizes)),
      part-body rest,
      decode_body-body_of S b.op b.lsn b.code b.name b.payload v.0 v.1,
    )
      where
        sizes :
            length (pre ++ (frame_bytes b ++ rest))
            ≡ length pre + (4 + length (body b) + length rest)
        sizes = omega (
          arith,
          length-append pre (frame_bytes b ++ rest),
          length-append (frame_bytes b) rest,
          length-frame_bytes b,
        )

    -- The loop stops where fewer bytes are left than the frame there wants.
    parse_loop_torn :
        (f n : ℕ) (rest : Bytes)
        → n < length (frame_bytes b)
        → parse_loop S (suc f) (pre ++ take n (frame_bytes b ++ rest)) (length pre)
          ≡ ok ([], length pre)
    unfolding parse_loop
    parse_loop_torn f n rest h = elim (Bool-cases (leb 4 n)) [
      | inl more ↦
          rw
            (
              append_assoc (to_le 4 (length (body b))) (body b) rest,
              take-append_more (to_le 4 (length (body b))) (body b ++ rest) n
                  (omega (arith, leb→le 4 n more, length-to_le 4 (length (body b)))),
              read_prefix (take (n - length (to_le 4 (length (body b)))) (body b ++ rest)),
            )
            (ground (
              arith,
              length-append pre (
                  to_le 4 (length (body b))
                  ++ take (n - length (to_le 4 (length (body b)))) (body b ++ rest)),
              length-append (to_le 4 (length (body b)))
                  (take (n - length (to_le 4 (length (body b)))) (body b ++ rest)),
              length-to_le 4 (length (body b)),
              length-take-le (n - length (to_le 4 (length (body b)))) (body b ++ rest),
              length-frame_bytes b,
              leb→le 4 n more,
            ))
      | inr less ↦ rw (
          lt→ltb (length (pre ++ take n (frame_bytes b ++ rest))) (length pre + 4) (
            omega (
              arith,
              leb→gt 4 n less,
              length-append pre (take n (frame_bytes b ++ rest)),
              length-take-le n (frame_bytes b ++ rest),
            )))
    ]

  parse_loop_end :
      (f : ℕ) (pre : Bytes) → parse_loop S (suc f) pre (length pre) ≡ ok ([], length pre)
  unfolding parse_loop
  parse_loop_end f pre = rw (lt→ltb (length pre) (length pre + 4) (omega arith))

  -- Cut after any number of bytes, the rest of the log is parsed to its whole frames, and the
  -- good length ends behind the last of them.
  parse_loop_cut :
      (f n : ℕ) (pre : Bytes) (bs : List (Block S))
      → All Valid bs
      → length (take n (file bs)) < f
      → parse_loop S f (pre ++ take n (file bs)) (length pre)
        ≡ ok (frames_at (length pre) (whole n bs), length pre + length (file (whole n bs)))
  parse_loop_cut zero n pre bs v h = absurd (omega arith)
  parse_loop_cut (suc f) n pre [] v h =
      rw (take-nil n, append-nil pre, add-zero (length pre)) (parse_loop_end f pre)
  parse_loop_cut (suc f) n pre (b ∷ bs) v h = elim (Bool-cases (leb (length (frame_bytes b)) n)) [
    | inr torn ↦ rw torn (parse_loop_torn pre b v.0 f n (file bs) (leb→gt _ n torn) ∙ rw add-zero)
    | inl fits ↦
        let k = n - length (frame_bytes b) in
        let stop : length (pre ++ frame_bytes b) ≡ length pre + 4 + length (body b) =
          omega (arith, length-append pre (frame_bytes b), length-frame_bytes b) in
        let ih =
          rw (stop, append_assoc pre (frame_bytes b) (take k (file bs))) at
            (parse_loop_cut f k (pre ++ frame_bytes b) bs v.1 (
              omega (
                arith,
                length-append (frame_bytes b) (take k (file bs)),
                length-frame_bytes b,
                ap length (take-append_more (frame_bytes b) (file bs) n (leb→le _ n fits)),
              ))) in
        rw
          (
            fits,
            take-append_more (frame_bytes b) (file bs) n (leb→le _ n fits),
            parse_loop_step pre b v.0 f (take k (file bs)),
            ih,
          )
          (rw (length-append (frame_bytes b) (file (whole k bs)), length-frame_bytes b)
            (ground arith))
  ]

  -- A file of valid frames, whose payloads serde_json reads back, that was cut after `n` bytes, by a crash
  -- in the middle of a write, is parsed without an error to the frames that are whole, and the
  -- good length ends behind the last.
  pub parse_cut :
      (w : Wal) (n : ℕ) (bs : List (Block S))
      → w.log ≡ some (take n (file bs))
      → All Valid bs
      → parse S w ≡ ok (frames_at 0 (whole n bs), length (file (whole n bs)))
  unfolding parse
  parse_cut w n bs h v = rw h (
      rw add-one
        (parse_loop_cut (suc (length (take n (file bs)))) n [] bs v (omega arith) ∙ rw zero-add))
