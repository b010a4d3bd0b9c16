-- ===== src/Tests/WalFrames.antt =====
-- Tests of wal.rs: a log of a few frames, whole, cut and appended to.
use chu_sql.Base.{
  err, ◌≢◌, ℕ, zero, suc, ◌≤◌, ◌≡◌, refl, ◌⊎◌, inr, ◌<◌, ◌^◌, none, some, List, [], ◌∷◌, ◌++◌,
  arith, length, take, ok,
}
use chu_sql.Base.Le.{to_le}
use chu_sql.Base.Text.{ascii, utf8}
use chu_sql.Wal.Op.{insert, commit}
use chu_sql.Wal.Codec.{out_of_fuel, encode, parts, body_of, decode_body}
use chu_sql.Wal.Codec.RoundTrip.{Fits, encode_frame}
use chu_sql.Wal.Log.Rounds.{parse_rounds}
use chu_sql.Wal.Log.{Wal, WalScan, parse_loop, parse, read_all, committed_ops}
use chu_sql.Wal.Log.Frames.{Block, file, frames_at, whole, parse_cut}
use chu_sql.Wal.Log.Commits.{Rec, committed_ops-group, committed_ops-unmarked}
use chu_sql.Wal.Log.Append.{mark, mark-Valid}
use chu_sql.Wal.Log.Crash.{records_of, crash_atomic, torn_group_replays_first}
use chu_sql.Tests.Json.{Json, json, number-ReadBack}

abbrev row_at : ℕ → ℕ → Block json
row_at lsn row = record {
  lsn = lsn;
  op = insert (ascii "t") row;
  code = 1;
  name = ascii "t";
  payload = row ∷ [];
}

row_at-Fits : (row : ℕ) → Fits json (insert (ascii "t") row) 1 (ascii "t") (row ∷ [])
unfolding parts utf8
row_at-Fits row = record {
  made = refl;
  text = refl;
  short = omega arith;
  small = omega arith;
  migration = tt;
  read_back = number-ReadBack row;
}

encode_frame_example :
    (encode json (insert (ascii "t") 7) 5
      ≡ ok
          (to_le 4 (length (body_of 5 1 (ascii "t") (7 ∷ []))) ++ body_of 5 1 (ascii "t") (7 ∷ [])))
    × (length (body_of 5 1 (ascii "t") (7 ∷ [])) < 2 ^ 32)
    × (decode_body json (body_of 5 1 (ascii "t") (7 ∷ [])) ≡ ok (5, insert (ascii "t") 7))
encode_frame_example =
    encode_frame json (insert (ascii "t") 7) 5 1 (ascii "t") (7 ∷ []) (omega arith) (row_at-Fits 7)

abbrev two_rows : List (Block json)
two_rows = row_at 1 7 ∷ row_at 2 8 ∷ []

-- A frame of a row is 17 bytes long, the second one is cut.
abbrev cut_log : Wal
cut_log = record { log = some (take 20 (file json two_rows)); checkpoint = none; next_lsn = 0 }

parse_cut_example :
    parse json cut_log
    ≡ ok (frames_at json 0 (whole json 20 two_rows), length (file json (whole json 20 two_rows)))
parse_cut_example =
    parse_cut json cut_log 20 two_rows refl
      ((omega arith, row_at-Fits 7), ((omega arith, row_at-Fits 8), tt))

abbrev running : Wal
running = record { log = none; checkpoint = none; next_lsn = 1 }

abbrev sealed_log : List (Rec Json ℕ)
sealed_log = (1, insert (ascii "t") 7) ∷ (2, commit) ∷ []

committed_ops-group_example :
    committed_ops (
      sealed_log
      ++ (((3, insert (ascii "t") 8) ∷ (4, insert (ascii "t") 9) ∷ []) ++ (5, commit) ∷ []))
    ≡ committed_ops sealed_log ++ (3, insert (ascii "t") 8) ∷ (4, insert (ascii "t") 9) ∷ []
committed_ops-group_example =
    committed_ops-group sealed_log ((3, insert (ascii "t") 8) ∷ (4, insert (ascii "t") 9) ∷ []) 5
      refl (refl, (refl, tt))

committed_ops-unmarked_example :
    committed_ops (sealed_log ++ (3, insert (ascii "t") 8) ∷ (4, insert (ascii "t") 9) ∷ [])
    ≡ committed_ops sealed_log
committed_ops-unmarked_example =
    committed_ops-unmarked sealed_log ((3, insert (ascii "t") 8) ∷ (4, insert (ascii "t") 9) ∷ [])
      refl (refl, (refl, tt)) (omega arith)

-- One row with its mark on disk, 32 bytes, and a group of one row behind it.
abbrev older : List (Block json)
older = row_at 1 7 ∷ mark json 2 ∷ []

abbrev crashed : Wal
crashed = record {
  log = some (take 50 (file json (older ++ (row_at 3 8 ∷ [] ++ mark json 4 ∷ []))));
  checkpoint = none;
  next_lsn = 0;
}

crash_atomic_example :
    (scan : WalScan Json ℕ) × (read_all json crashed ≡ ok scan)
    × ((committed_ops scan.records ≡ committed_ops (records_of json older))
        ⊎ (committed_ops scan.records
            ≡ committed_ops (records_of json older) ++ records_of json (row_at 3 8 ∷ [])))
unfolding to_le
crash_atomic_example =
    crash_atomic json older (row_at 3 8 ∷ []) 4
      ((omega arith, row_at-Fits 7), (mark-Valid json 2 (omega arith), tt))
      ((omega arith, row_at-Fits 8), tt) (omega arith) refl (refl, tt) crashed 50 refl (omega arith)
      (inr refl)

abbrev torn : Wal
torn = record {
  log = some (take 20 (file json ([] ++ (two_rows ++ mark json 3 ∷ []))));
  checkpoint = none;
  next_lsn = 0;
}

torn_group_replays_first_example :
    (scan : WalScan Json ℕ) × (read_all json torn ≡ ok scan)
    × (committed_ops scan.records
        ≡ committed_ops (records_of json []) ++ (1, insert (ascii "t") 7) ∷ [])
unfolding to_le
torn_group_replays_first_example =
    torn_group_replays_first json [] two_rows 3 tt
      ((omega arith, row_at-Fits 7), ((omega arith, row_at-Fits 8), tt)) (omega arith) tt
      (refl, (refl, tt)) torn 20 refl (omega arith) (row_at 1 7) (row_at 2 8) [] refl refl

parse_rounds_example :
    (parse json cut_log ≢ err out_of_fuel)
    × (parse_loop json 40 (take 20 (file json two_rows)) 0 ≡ parse json cut_log)
parse_rounds_example = parse_rounds json cut_log (take 20 (file json two_rows)) 40 refl short
  where
    at_most : (n : ℕ) (xs : List ℕ) → length (take n xs) ≤ n
    at_most zero xs = omega arith
    at_most (suc n) [] = omega arith
    at_most (suc n) (x ∷ xs) = omega (arith, at_most n xs)

    short : length (take 20 (file json two_rows)) < 40
    short = omega (arith, at_most 20 (file json two_rows))
