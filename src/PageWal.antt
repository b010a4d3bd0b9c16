-- ===== src/PageWal.antt =====
-- The page journal of page_wal.rs: full images of pages, written before the data file changes and
-- replayed over it after a crash. Files are their bytes; the handle and the syncs leave no trace.
pub mod Frames
pub mod Replay
pub mod Rounds
pub mod Contents
use chu_sql.Base.{
  ℕ, zero, suc, ◌+◌, ◌-◌, ◌*◌, ◌/◌, ◌%◌, ◌^◌, Bool, true, false, not, ◌&&◌, ◌||◌, Option, none,
  some, List, [], ◌∷◌, ◌++◌, any, length, ltb, leb, ◌==◌, max, if◌then◌else◌, Result, ok, err,
  unwrap_or, bytes_eq, take, drop,
}
use chu_sql.Base.Bytes.{Bytes}
use chu_sql.Base.Le.{to_le, of_le}
use chu_sql.Base.Text.{Str, ascii}

-- `HEADER`
abbrev pub header : ℕ
header = 40

-- `RESET`
abbrev pub reset_page : ℕ
reset_page = 2 ^ 64 - 1

pub record State : Type 0 where
  pub version : ℕ
  pub page_size : ℕ
  pub sequence : ℕ
  pub pages : List (ℕ × ℕ)

-- `PageWal`, with the journal file and the metadata file as they are on disk
pub record PageWal : Type 0 where
  pub state : State
  pub lsn : ℕ
  pub pending : Bool
  pub failed : Bool
  pub log : Option Bytes
  pub metadata : Option State

-- `^` on the lowest `n` bits
unfoldable pub xor : ℕ → ℕ → ℕ → ℕ
xor zero a b = 0
xor (suc n) a b = (a % 2 + b % 2) % 2 + 2 * xor n (a / 2) (b / 2)

-- `checksum`
unfoldable pub checksum_from : ℕ → Bytes → ℕ
checksum_from value [] = value
checksum_from value (b ∷ bs) = checksum_from ((xor 64 value b * 1099511628211) % 2 ^ 64) bs

unfoldable pub checksum : Bytes → ℕ
unfolding checksum_from xor
checksum bytes = checksum_from 14695981039346656037 bytes

-- `pages.get(&page)` and `pages.insert(page, lsn)`
abbrev pub page_at : ℕ → List (ℕ × ℕ) → Option ℕ
page_at page [] = none
page_at page ((p, lsn) ∷ pages) = if p == page then some lsn else page_at page pages

abbrev pub put_page : ℕ → ℕ → List (ℕ × ℕ) → List (ℕ × ℕ)
put_page page lsn [] = (page, lsn) ∷ []
put_page page lsn ((p, l) ∷ pages) =
    let rest = put_page page lsn pages in
    if p == page
    then (page, lsn) ∷ pages
    else if ltb page p
    then (page, lsn) ∷ (p, l) ∷ pages
    else (p, l) ∷ rest

-- `PageWal::page_lsn`
unfoldable pub page_lsn : ℕ → PageWal → Option ℕ
page_lsn page j = page_at page j.state.pages

-- `PageWal::set_lsn`
unfoldable pub set_lsn : ℕ → PageWal → PageWal
set_lsn lsn j = record j { lsn = lsn }

-- The first 32 bytes of a frame, and the whole frame, as `PageWal::prepare` writes it
abbrev pub frame_head : ℕ → ℕ → ℕ → ℕ → Bytes
frame_head sequence lsn page len =
    ascii "CPW1" ++ (to_le 8 sequence ++ (to_le 8 lsn ++ (to_le 8 page ++ to_le 4 (len % 2 ^ 32))))

unfoldable pub image_frame : ℕ → ℕ → ℕ → Bytes → Bytes
image_frame sequence lsn page bytes =
    let head = frame_head sequence lsn page (length bytes) in
    head ++ (to_le 8 (checksum (head ++ bytes)) ++ bytes)

-- The guard of `PageWal::prepare` against an image
abbrev pub bad_image : ℕ → ℕ × Bytes → Bool
bad_image page_size (page, bytes) =
    if page == reset_page
    then ltb 0 (length bytes)
    else not (length bytes == page_size) || leb (2 ^ 64) (page * page_size)

-- Setting or clearing the version of a page, as `prepare` and `recover` do
abbrev pub note_page : ℕ → ℕ → List (ℕ × ℕ) → List (ℕ × ℕ)
note_page page lsn pages = if page == reset_page then [] else put_page page lsn pages

-- The loop of `PageWal::prepare`
unfoldable pub write_images : List (ℕ × Bytes) → PageWal → Result Str (Unit {0}) × PageWal
write_images [] j = (ok tt, j)
write_images ((page, bytes) ∷ images) j =
    if leb (2 ^ 64) (j.state.sequence + 1)
    then (err (ascii "page write sequence exhausted"), j)
    else let sequence = j.state.sequence + 1 in
      let lsn = max j.lsn (unwrap_or (page_at page j.state.pages) 0) in
      write_images images (record j {
        log = some (unwrap_or j.log [] ++ image_frame sequence lsn page bytes);
        state = record j.state { sequence = sequence; pages = note_page page lsn j.state.pages };
        pending = true;
      })

-- The end of `PageWal::prepare`: a failure in the loop leaves the journal failed.
abbrev pub written : Result Str (Unit {0}) × PageWal → Result Str (Unit {0}) × PageWal
written (ok u, j) = (ok tt, record j { failed = false })
written (err e, j) = (err e, j)

-- `PageWal::prepare`
unfoldable pub prepare : List (ℕ × Bytes) → PageWal → Result Str (Unit {0}) × PageWal
prepare images j =
    if j.failed
    then (err (ascii "page journal requires recovery"), j)
    else if any (bad_image j.state.page_size) images
    then (err (ascii "invalid page image size or offset"), j)
    else elim images [
      | [] ↦ (ok tt, j)
      | image ∷ more ↦ written (write_images (image ∷ more) (record j { failed = true }))
    ]

-- `PageWal::reset`
unfoldable pub reset : PageWal → Result Str (Unit {0}) × PageWal
reset j = prepare ((reset_page, []) ∷ []) j

-- `PageWal::checkpoint`
unfoldable pub checkpoint : PageWal → Result Str (Unit {0}) × PageWal
checkpoint j =
    if j.failed
    then (err (ascii "page journal requires recovery"), j)
    else if not j.pending
    then (ok tt, j)
    else (ok tt, record j { metadata = some j.state; log = some []; pending = false })

-- A write at an offset of a file; what lies before it is filled with zeros.
abbrev pub write_at : ℕ → Bytes → Bytes → Bytes
write_at zero bytes file = bytes ++ drop (length bytes) file
write_at (suc o) bytes [] = 0 ∷ write_at o bytes []
write_at (suc o) bytes (d ∷ file) = d ∷ write_at o bytes file

-- Number `n` of the frame header from byte `o` on
abbrev pub field_at : ℕ → ℕ → Bytes → ℕ
field_at o n bytes = of_le (take n (drop o bytes))

-- One valid frame that is newer than the checkpoint, applied to the journal and the data file
abbrev pub apply_image : ℕ → ℕ → ℕ → Bytes → PageWal × Bytes → PageWal × Bytes
apply_image sequence lsn page bytes (j, file) = (
  record j {
    state = record j.state { sequence = sequence; pages = note_page page lsn j.state.pages };
  },
  if page == reset_page then [] else write_at (page * j.state.page_size) bytes file,
)

-- The loop of `PageWal::recover` over the rest of the journal. A frame takes 40 bytes at least, so
-- as many rounds as there are bytes, and one, are enough.
unfoldable pub recover_loop :
    ℕ → ℕ → ℕ → Bytes → PageWal × Bytes → Result Str (Unit {0}) × (PageWal × Bytes)
recover_loop zero base previous rest s = (err (ascii "out of fuel"), s)
recover_loop (suc fuel) base previous rest (j, file) =
    let sequence = field_at 4 8 rest in
    let lsn = field_at 12 8 rest in
    let page = field_at 20 8 rest in
    let len = field_at 28 4 rest in
    let bytes = take len (drop header rest) in
    let behind = drop (header + len) rest in
    let skip = recover_loop fuel base sequence behind (j, file) in
    let replay =
      recover_loop fuel base sequence behind (apply_image sequence lsn page bytes (j, file)) in
    if ltb (length rest) header
    then (ok tt, (j, file))
    else if not (bytes_eq (take 4 rest) (ascii "CPW1"))
        || (leb sequence previous
            || ((page == reset_page && not (len == 0))
                || (not (page == reset_page) && not (len == j.state.page_size))))
    then (err (ascii "invalid page image header"), (j, file))
    else if ltb (length rest) (header + len)
    then (ok tt, (j, file))
    else if not (checksum (take 32 rest ++ bytes) == field_at 32 8 rest)
    then (err (ascii "page image checksum mismatch"), (j, file))
    else if leb sequence base
    then skip
    else if not (page == reset_page) && leb (2 ^ 64) (page * j.state.page_size)
    then (err (ascii "page offset overflow"), (j, file))
    else replay

-- The end of `PageWal::recover`
abbrev pub recovered :
    Result Str (Unit {0}) × (PageWal × Bytes) → Result Str (Unit {0}) × (PageWal × Bytes)
recovered (err e, s) = (err e, s)
recovered (ok u, (j, file)) =
    let (r, j') = checkpoint (record j { pending = true }) in (r, (j', file))

-- `PageWal::recover` on the bytes of the journal file, or none when it does not exist
abbrev pub replayed : Option Bytes → PageWal × Bytes → Result Str (Unit {0}) × (PageWal × Bytes)
replayed none s = (ok tt, s)
replayed (some log) (j, file) =
    if length log == 0
    then (ok tt, (j, file))
    else recovered (recover_loop (length log + 1) j.state.sequence 0 log (j, file))

-- `PageWal::recover`
unfoldable pub recover : PageWal × Bytes → Result Str (Unit {0}) × (PageWal × Bytes)
unfolding checkpoint
recover (j, file) = replayed j.log (j, file)
