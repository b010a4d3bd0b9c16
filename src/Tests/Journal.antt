-- ===== src/Tests/Journal.antt =====
-- Tests of page_wal.rs: a journal with one image of a small page and a torn tail.
use chu_sql.Base.{◌≢◌, err, ◌≡◌, refl, inr, false, none, some, [], ◌∷◌, ◌++◌, arith}
use chu_sql.Base.Le.{to_le}
use chu_sql.PageWal.{PageWal, recover, image_frame, recover_loop, recovered}
use chu_sql.PageWal.Rounds.{endless, recover_rounds}
use chu_sql.PageWal.Frames.{Image, Good}
use chu_sql.PageWal.Replay.{frames, Recovered, recover_lem}

abbrev image : Image
image = record { sequence = 6; lsn = 9; page = 1; bytes = 7 ∷ 8 ∷ [] }

image-Good : Good 2 image
image-Good = record {
  sequence_fits = omega arith;
  lsn_fits = omega arith;
  page_fits = omega arith;
  size_fits = omega arith;
  shape = inr (omega arith, refl, omega arith);
}

-- The crash left one byte of the next frame.
abbrev journal : PageWal
journal = record {
  state = record { version = 1; page_size = 2; sequence = 5; pages = [] };
  lsn = 0;
  pending = false;
  failed = false;
  log = some (frames (image ∷ []) ++ 67 ∷ []);
  metadata = none;
}

recover_lem_example :
    Recovered (image ∷ []) journal (1 ∷ 2 ∷ 3 ∷ 4 ∷ []) (recover (journal, 1 ∷ 2 ∷ 3 ∷ 4 ∷ []))
unfolding image_frame to_le
recover_lem_example =
    recover_lem (image ∷ []) (67 ∷ []) (1 ∷ 2 ∷ 3 ∷ 4 ∷ []) journal refl (omega arith) (omega arith)
      refl (image-Good, omega arith, tt)

-- A journal that ends within the header of its first frame.
abbrev torn_journal : PageWal
torn_journal = record journal { log = some (67 ∷ 80 ∷ 87 ∷ 49 ∷ 6 ∷ []) }

recover_rounds_example :
    ((recover (torn_journal, 1 ∷ 2 ∷ [])).0 ≢ err endless)
    × (recovered (recover_loop 9 5 0 (67 ∷ 80 ∷ 87 ∷ 49 ∷ 6 ∷ []) (torn_journal, 1 ∷ 2 ∷ []))
        ≡ recover (torn_journal, 1 ∷ 2 ∷ []))
recover_rounds_example =
    recover_rounds torn_journal (1 ∷ 2 ∷ []) (67 ∷ 80 ∷ 87 ∷ 49 ∷ 6 ∷ []) 9 refl (omega arith)
      (omega arith)
