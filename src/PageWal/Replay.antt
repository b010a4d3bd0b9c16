-- ===== src/PageWal/Replay.antt =====
-- `PageWal::recover` over the frames that `PageWal::prepare` writes.
use chu_sql.Base.{
  ℕ, zero, suc, ◌+◌, ◌≤◌, ◌<◌, ◌≡◌, refl, sym, subst, ap, ◌∙◌, Result, false, List, [], ◌∷◌, ◌++◌,
  length, arith, ◌==◌, lt→ltb, ok, append_assoc, some,
}
use chu_sql.Base.Bytes.{Bytes}
use chu_sql.PageWal.{
  PageWal, header, apply_image, recover_loop, recover, recovered, replayed, checkpoint,
}
use chu_sql.Base.Text.{Str}
use chu_sql.PageWal.Contents.{Applied, Applied-none, Applied-step}
use chu_sql.PageWal.Frames.{Image, Good, frame, length-frame, recover_loop-frame}

-- The journal with the frames of these images.
abbrev pub frames : List Image → Bytes
frames [] = []
frames (i ∷ is) = frame i ++ frames is

-- Good images with growing sequence numbers, all above `previous`.
abbrev pub Growing : ℕ → ℕ → List Image → Type 0
Growing page_size previous [] = Unit
Growing page_size previous (i ∷ is) =
    Good page_size i × (previous < i.sequence) × Growing page_size i.sequence is

-- Every image applied, in order.
abbrev pub apply_images : List Image → PageWal × Bytes → PageWal × Bytes
apply_images [] s = s
apply_images (i ∷ is) s = apply_images is (apply_image i.sequence i.lsn i.page i.bytes s)

recover_loop_end :
    (f base previous : ℕ) (tail file : Bytes) (j : PageWal)
    → length tail < header
    → recover_loop (suc f) base previous tail (j, file) ≡ (ok tt, (j, file))
unfolding recover_loop
recover_loop_end f base previous tail file j h = rw (lt→ltb (length tail) header h)

recover_loop-frames :
    (f base previous least : ℕ) (is : List Image) (tail file : Bytes) (j : PageWal)
    → Growing j.state.page_size least is
    → base ≤ least
    → previous ≤ least
    → length tail < header
    → length (frames is ++ tail) < f
    → recover_loop f base previous (frames is ++ tail) (j, file)
      ≡ (ok tt, apply_images is (j, file))
recover_loop-frames zero base previous least is tail file j g b p t h = absurd (omega arith)
recover_loop-frames (suc f) base previous least [] tail file j g b p t h =
    recover_loop_end f base previous tail file j t
recover_loop-frames (suc f) base previous least (i ∷ is) tail file j g b p t h =
    let (good, newer, rest) = g in
    let (j', file') = apply_image i.sequence i.lsn i.page i.bytes (j, file) in
    rw (append_assoc (frame i) (frames is) tail) (
      recover_loop-frame f base previous i (frames is ++ tail) file j good (omega arith)
        (omega arith)
      ∙ recover_loop-frames f base i.sequence i.sequence is tail file' j' rest (omega arith)
          (omega arith) t
          (omega (
            arith,
            length-frame i (frames is ++ tail),
            ap length (append_assoc (frame i) (frames is) tail),
            h,
          )))

apply_images-failed :
    (is : List Image) (j : PageWal) (file : Bytes) → (apply_images is (j, file)).0.failed ≡ j.failed
apply_images-failed [] j file = refl
apply_images-failed (i ∷ is) j file =
    let (j', file') = apply_image i.sequence i.lsn i.page i.bytes (j, file) in
    apply_images-failed is j' file'

-- The journal after its replayed state is published.
abbrev pub published : PageWal → PageWal
published j = record j { metadata = some j.state; log = some []; pending = false }

recovered_running :
    (j : PageWal) (file : Bytes)
    → j.failed ≡ false
    → recovered (ok tt, (j, file)) ≡ (ok tt, (published j, file))
unfolding checkpoint
recovered_running j file h = rw h

apply_images-Applied :
    (is : List Image) (least : ℕ) (file : Bytes) (j : PageWal)
    → Growing j.state.page_size least is
    → let s = apply_images is (j, file) in Applied is j.state.page_size file s.1 j.state (s.0).state
apply_images-Applied [] least file j g = Applied-none file j
apply_images-Applied (i ∷ is) least file j (good, newer, rest) =
    let s = apply_image i.sequence i.lsn i.page i.bytes (j, file) in
    let t = apply_images is s in
    Applied-step i is file t.1 j (t.0).state good (apply_images-Applied is i.sequence s.1 s.0 rest)

-- The journal is empty, its state is published, and it and the file are those behind the images.
unfoldable pub Recovered :
    List Image → PageWal → Bytes → Result Str (Unit {0}) × (PageWal × Bytes) → Type 0
Recovered is j file (r, (j', file')) =
    (r ≡ ok tt)
    × (j'.log ≡ some [])
    × (j'.metadata ≡ some j'.state)
    × (j'.pending ≡ false)
    × Applied is j.state.page_size file file' j.state j'.state

-- When the journal is not failed and holds whole frames of good images, newer than the page
-- checkpoint and growing in their sequence numbers, and behind them less than a frame header that
-- a crash left, and is not empty, `recover` succeeds. Then each page of the file has the bytes of
-- its last image behind the last reset, pages without an image are as they were unless a reset
-- removed them, and the file ends where the images and resets leave it; each page has the version of
-- its last image, the journal has the sequence number of the last one, its state is published, and
-- it is empty.
pub recover_lem :
    (is : List Image) (tail file : Bytes) (j : PageWal)
    → j.log ≡ some (frames is ++ tail)
    → 0 < length (frames is ++ tail)
    → length tail < header
    → j.failed ≡ false
    → Growing j.state.page_size j.state.sequence is
    → Recovered is j file (recover (j, file))
unfolding recover Recovered
recover_lem is tail file j e some_bytes t running g =
    subst (Recovered is j file) (sym ran)
      (refl, refl, refl, refl, apply_images-Applied is j.state.sequence file j g)
  where
    filled : (length (frames is ++ tail) == 0) ≡ false
    filled = ground (arith, some_bytes)

    ran :
        recover (j, file)
        ≡ (ok tt, (published (apply_images is (j, file)).0, (apply_images is (j, file)).1))
    ran =
        ap (λ l. replayed l (j, file)) e
        ∙ rw
            (
              filled,
              recover_loop-frames (length (frames is ++ tail) + 1) j.state.sequence 0
                  j.state.sequence is tail file j g (omega arith) (omega arith) t (omega arith),
            )
            (recovered_running (apply_images is (j, file)).0 (apply_images is (j, file)).1
              (apply_images-failed is j file ∙ running))
