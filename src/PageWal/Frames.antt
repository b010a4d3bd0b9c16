-- ===== src/PageWal/Frames.antt =====
-- The frame of a page image: what `PageWal::recover` of page_wal.rs reads in what
-- `PageWal::prepare` wrote.
use native.Mathlib.Nat.{mod-eq_of_lt, zero-add, suc-add}
use chu_sql.Base.{
  ℕ, zero, suc, ◌+◌, ◌*◌, ◌%◌, ◌^◌, ◌<◌, ◌≡◌, ◌≢◌, refl, sym, ap, ◌∙◌, ◌⊎◌, inl, inr, true, false,
  not, ◌&&◌, ◌||◌, [], ◌∷◌, ◌++◌, length, length-append, take, drop, take-append, drop-append,
  arith, leb, ◌==◌, le→ltb, lt→leb, eqb_refl,
}
use chu_sql.Base.Bytes.{Bytes}
use chu_sql.Base.Le.{to_le, of_le-to_le}
use chu_sql.Base.Text.{ascii}
use chu_sql.PageWal.{
  PageWal, header, reset_page, checksum, checksum_from, xor, frame_head, image_frame, field_at,
  apply_image, recover_loop,
}

checksum_from-lt : (v : ℕ) (bs : Bytes) → v < 2 ^ 64 → checksum_from v bs < 2 ^ 64
unfolding checksum_from
checksum_from-lt v [] h = h
checksum_from-lt v (b ∷ bs) h =
    checksum_from-lt ((xor 64 v b * 1099511628211) % 2 ^ 64) bs (omega arith)

checksum-lt : (bs : Bytes) → checksum bs < 2 ^ 64
unfolding checksum
checksum-lt bs = checksum_from-lt 14695981039346656037 bs (omega arith)

-- An image that `prepare` accepts, with the numbers of its frame.
pub record Image : Type 0 where
  pub sequence : ℕ
  pub lsn : ℕ
  pub page : ℕ
  pub bytes : Bytes

pub record Good (page_size : ℕ) (i : Image) : Type 0 where
  pub sequence_fits : i.sequence < 2 ^ 64
  pub lsn_fits : i.lsn < 2 ^ 64
  pub page_fits : i.page < 2 ^ 64
  pub size_fits : page_size < 2 ^ 32
  pub shape :
      ((i.page ≡ reset_page) × (length i.bytes ≡ 0))
      ⊎ ((i.page ≢ reset_page) × (length i.bytes ≡ page_size) × (i.page * page_size < 2 ^ 64))

abbrev pub frame : Image → Bytes
frame i = image_frame i.sequence i.lsn i.page i.bytes

module _ (i : Image) (rest : Bytes) where
  field_sequence : i.sequence < 2 ^ 64 → field_at 4 8 (frame i ++ rest) ≡ i.sequence
  unfolding image_frame to_le
  field_sequence h = of_le-to_le 8 i.sequence h

  field_lsn : i.lsn < 2 ^ 64 → field_at 12 8 (frame i ++ rest) ≡ i.lsn
  unfolding image_frame to_le
  field_lsn h = of_le-to_le 8 i.lsn h

  field_page : i.page < 2 ^ 64 → field_at 20 8 (frame i ++ rest) ≡ i.page
  unfolding image_frame to_le
  field_page h = of_le-to_le 8 i.page h

  field_len : length i.bytes < 2 ^ 32 → field_at 28 4 (frame i ++ rest) ≡ length i.bytes
  unfolding image_frame to_le
  field_len h = of_le-to_le 4 (length i.bytes % 2 ^ 32) (omega arith) ∙ mod-eq_of_lt h

  field_checksum :
      field_at 32 8 (frame i ++ rest)
      ≡ checksum (frame_head i.sequence i.lsn i.page (length i.bytes) ++ i.bytes)
  unfolding image_frame to_le
  field_checksum = of_le-to_le 8 _ (checksum-lt _)

  drop-header : drop header (frame i ++ rest) ≡ i.bytes ++ rest
  unfolding image_frame to_le
  drop-header = refl

  take_head : take 32 (frame i ++ rest) ≡ frame_head i.sequence i.lsn i.page (length i.bytes)
  unfolding image_frame to_le
  take_head = refl

  take_mark : take 4 (frame i ++ rest) ≡ ascii "CPW1"
  unfolding image_frame to_le
  take_mark = refl

  pub length-frame : length (frame i ++ rest) ≡ header + length i.bytes + length rest
  unfolding image_frame to_le
  length-frame = omega (arith, length-append i.bytes rest)

drop-nil : (n : ℕ) → ◌≡◌ {A = Bytes} (drop n []) []
drop-nil zero = refl
drop-nil (suc n) = refl

drop-plus : (m n : ℕ) (xs : Bytes) → drop (m + n) xs ≡ drop n (drop m xs)
drop-plus zero n xs = ap (λ k. drop k xs) (zero-add n)
drop-plus (suc m) n [] = drop-nil (suc m + n) ∙ sym (drop-nil n)
drop-plus (suc m) n (x ∷ xs) = ap (λ k. drop k (x ∷ xs)) (suc-add m n) ∙ drop-plus m n xs

drop_frame : (i : Image) (rest : Bytes) → drop (header + length i.bytes) (frame i ++ rest) ≡ rest
drop_frame i rest =
    drop-plus header (length i.bytes) (frame i ++ rest)
    ∙ ap (drop (length i.bytes)) (drop-header i rest)
    ∙ drop-append i.bytes rest

-- The guard of `recover_loop` on the page number and the length lets a good image pass.
shape_passes :
    (page_size : ℕ) (i : Image)
    → Good page_size i
    → (((i.page == reset_page && not (length i.bytes == 0))
          || (not (i.page == reset_page) && not (length i.bytes == page_size)))
        ≡ false)
      × ((not (i.page == reset_page) && leb (2 ^ 64) (i.page * page_size)) ≡ false)
      × (length i.bytes < 2 ^ 32)
shape_passes page_size i g = elim g.shape [
  | inl (r, z) ↦
      let at_reset : (i.page == reset_page) ≡ true = ground (arith, r) in
      let empty : (length i.bytes == 0) ≡ true = ground (arith, z) in
      (rw (at_reset, empty) refl, rw at_reset refl, omega (arith, z))
  | inr (n, e, small) ↦
      let other : (i.page == reset_page) ≡ false = ground (arith, n) in
      let full : (length i.bytes == page_size) ≡ true = ground (arith, e) in
      (
        rw (other, full) refl,
        rw (other, lt→leb (2 ^ 64) (i.page * page_size) small) refl,
        omega (arith, e, g.size_fits),
      )
]

-- One round of `recover_loop` on a whole frame that is newer than the checkpoint and than the frame
-- before it.
pub recover_loop-frame :
    (f base previous : ℕ) (i : Image) (rest file : Bytes) (j : PageWal)
    → Good j.state.page_size i
    → previous < i.sequence
    → base < i.sequence
    → recover_loop (suc f) base previous (frame i ++ rest) (j, file)
      ≡ recover_loop f base i.sequence rest (apply_image i.sequence i.lsn i.page i.bytes (j, file))
unfolding recover_loop
recover_loop-frame f base previous i rest file j g newer after =
    let (shape, in_range, small) = shape_passes j.state.page_size i g in
    rw (
      le→ltb (length (frame i ++ rest)) header (omega (arith, length-frame i rest)),
      take_mark i rest,
      field_sequence i rest g.sequence_fits,
      field_lsn i rest g.lsn_fits,
      field_page i rest g.page_fits,
      field_len i rest small,
      lt→leb i.sequence previous newer,
      shape,
      le→ltb (length (frame i ++ rest)) (header + length i.bytes)
          (omega (arith, length-frame i rest)),
      drop-header i rest,
      take-append i.bytes rest,
      take_head i rest,
      field_checksum i rest,
      eqb_refl (checksum (frame_head i.sequence i.lsn i.page (length i.bytes) ++ i.bytes)),
      lt→leb i.sequence base after,
      in_range,
      drop_frame i rest,
    )
