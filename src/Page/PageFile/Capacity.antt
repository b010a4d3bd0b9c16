-- ===== src/Page/PageFile/Capacity.antt =====
-- The pool of page.rs stays within its capacity.
use chu_sql.Base.{
  eqb→eq, ℕ, ◌+◌, ◌≤◌, ◌≡◌, refl, ap, ◌⊎◌, inl, inr, Bool, true, false, ◌&&◌, none, some, List, [],
  ◌∷◌, length, leb, max, arith, ◌==◌, Bool-cases, Option-cases, is_some, Result, ok, err,
}
use chu_sql.Base.Assoc.{
  insert_member, get, put, member, length-put, length-put_present, length-remove,
}
use chu_sql.Base.Bytes.{Bytes}
use chu_sql.Base.Text.{Str}
use chu_sql.PageWal.{PageWal, prepare}
use chu_sql.Page.PageFile.{
  PageFile, continue, journaled, coldest, stamp, write_back, evict_one, make_room, load_page,
  note_access, read_raw, touch, read_page, with_page, write_page, dirty_pages, write_images,
  cached_pages, drop_page, cached,
}

-- No more pages are cached than the pool has room for; a pool without room holds one.
abbrev pub Fits : PageFile → Type 0
Fits p = length p.cache ≤ max 1 p.capacity

coldest-member :
    (last_used : List (ℕ × ℕ)) (cache : List (ℕ × Bytes)) (victim : ℕ)
    → coldest last_used cache ≡ some victim
    → is_some (get victim cache) ≡ true
unfolding coldest
coldest-member last_used [] victim e = absurd (ground (arith, e))
coldest-member last_used ((id, page) ∷ cache) victim e =
    elim (Option-cases (coldest last_used cache)) [
      | inl gone ↦ ground (arith, gone, e)
      | inr (other, here) ↦ ground (arith, here, e, coldest-member last_used cache other here)
    ]

coldest-none :
    (last_used : List (ℕ × ℕ)) (cache : List (ℕ × Bytes))
    → coldest last_used cache ≡ none
    → length cache ≡ 0
unfolding coldest
coldest-none last_used [] e = refl
coldest-none last_used ((id, page) ∷ cache) e = ground (arith, e)

-- Room for one more: fewer pages than the capacity, or none.
abbrev pub HasRoom : PageFile → Type 0
HasRoom p = length p.cache + 1 ≤ max 1 p.capacity

-- A method that succeeds makes room, one that fails has no more pages than before.
unfoldable pub Makes : {A : Type 0} → Result Str A × PageFile → Type 0
Makes (ok a, q) = HasRoom q
Makes (err e, q) = Fits q

drop_page-HasRoom :
    (p : PageFile) (victim : ℕ)
    → Fits p
    → is_some (get victim p.cache) ≡ true
    → HasRoom (drop_page victim p)
drop_page-HasRoom p victim h m = elim (Option-cases (get victim p.cache)) [
  | inl gone ↦ absurd (ground (arith, gone, m))
  | inr (page, here) ↦ omega (arith, length-remove victim page p.cache here)
]

evict_one-Makes : (p : PageFile) → Fits p → Makes (evict_one p)
unfolding evict_one write_back Makes
evict_one-Makes p h = elim (Option-cases (coldest p.last_used p.cache)) [
  | inl gone ↦ rw (evict_one, gone) (omega (arith, coldest-none p.last_used p.cache gone))
  | inr (victim, e) ↦
      rw (evict_one, e)
        (elim (Bool-cases (member victim p.dirty)) [
          | inr out ↦
              rw out (drop_page-HasRoom p victim h (coldest-member p.last_used p.cache victim e))
          | inl inside ↦ rw inside (
              go victim (coldest-member p.last_used p.cache victim e)
                (prepare (dirty_pages p.cache p.dirty) p.journal))
        ])
]
  where
    go :
        (victim : ℕ)
        → is_some (get victim p.cache) ≡ true
        → (r : Result Str (Unit {0}) × PageWal)
        → Makes (
            continue
              (journaled r
                (λ j. (
                  ok tt,
                  record p {
                    journal = j;
                    file = write_images p.page_size (dirty_pages p.cache p.dirty) p.file;
                  },
                ))
                p)
              (λ u p'. (ok true, drop_page victim (record p' { dirty = [] }))))
    go victim m (err e, j) = h
    go victim m (ok u, j) = drop_page-HasRoom p victim h m

make_room-Makes :
    (full : Bool) (p : PageFile) → Fits p → (full ≡ false → HasRoom p) → Makes (make_room full p)
unfolding Makes
make_room-Makes false p h r = r refl
make_room-Makes true p h r = go (evict_one p) (evict_one-Makes p h)
  where
    go : (r : Result Str Bool × PageFile) → Makes r → Makes (continue r (λ b p'. (ok tt, p')))
    go (ok b, q) s = s
    go (err e, q) s = s

load_page-Fits :
    (id : ℕ) (p : PageFile) (r : Result Str Bytes) → Fits p → Fits ((load_page id r p).1)
unfolding touch Makes
load_page-Fits id p (err e) h = h
load_page-Fits id p (ok page) h =
    go (make_room (leb p.capacity (length p.cache)) p)
      (make_room-Makes (leb p.capacity (length p.cache)) p h (λ room. ground (arith, room)))
  where
    go :
        (r : Result Str (Unit {0}) × PageFile)
        → Makes r
        → Fits (
            (continue r (λ u p'. (ok tt, touch id (record p' { cache = put id page p'.cache })))).1)
    go (err e, q) s = s
    go (ok u, q) s = omega (arith, length-put id page q.cache)

note_access-Fits : (id : ℕ) (p : PageFile) → Fits p → Fits ((note_access id p).1)
unfolding note_access touch
note_access-Fits id p h = elim (Bool-cases (is_some (get id p.cache))) [
  | inl y ↦ rw y h
  | inr n ↦ rw n (load_page-Fits id (record p { misses = p.misses + 1 }) (read_raw id p) h)
]

write_page-Fits : (id : ℕ) (page : Bytes) (p : PageFile) → Fits p → Fits ((write_page id page p).1)
unfolding write_page touch Makes
write_page-Fits id page p h = elim (Bool-cases (length page == p.page_size)) [
  | inr differs ↦ rw differs h
  | inl same ↦ rw same (elim (Option-cases (get id p.cache)) [
    | inl gone ↦ rw gone (absent (leb p.capacity (length p.cache)) (λ room. ground (arith, room)))
    | inr (b, here) ↦ rw here (present b here (leb p.capacity (length p.cache)))
  ])
]
  where
    stored : Result Str (Unit {0}) × PageFile → Result Str (Unit {0}) × PageFile
    stored r = continue r (λ u p'. (
      ok tt,
      touch id (record p' { cache = put id page p'.cache; dirty = insert_member id p'.dirty }),
    ))

    present :
        (b : Bytes)
        → get id p.cache ≡ some b
        → (full : Bool) → Fits ((stored (make_room (full && false) p)).1)
    present b here true = omega (arith, length-put_present id page b p.cache here)
    present b here false = omega (arith, length-put_present id page b p.cache here)

    ends : (r : Result Str (Unit {0}) × PageFile) → Makes r → Fits ((stored r).1)
    ends (err e, q) s = s
    ends (ok u, q) s = omega (arith, length-put id page q.cache)

    absent :
        (full : Bool) → (full ≡ false → HasRoom p) → Fits ((stored (make_room (full && true) p)).1)
    absent true r = ends (make_room true p) (make_room-Makes true p h r)
    absent false r = ends (make_room false p) (make_room-Makes false p h r)

read_page-Fits : (id : ℕ) (p : PageFile) → Fits p → Fits ((read_page id p).1)
unfolding read_page with_page
read_page-Fits id p h = go (note_access id p) (note_access-Fits id p h)
  where
    go :
        (r : Result Str (Unit {0}) × PageFile)
        → Fits (r.1)
        → Fits ((continue r (λ u p'. (ok (cached id p'), p'))).1)
    go (err e, q) s = s
    go (ok u, q) s = s

-- A pool with no more cached pages than its capacity, or than one if that is 0, has no more after
-- `PageFile::read_page` and after `PageFile::write_page`, whether they succeed or fail.
pub pool_capacity :
    (id : ℕ) (page : Bytes) (p : PageFile)
    → cached_pages p ≤ max 1 p.capacity
    → let q : PageFile = (read_page id p).1 in
      let r : PageFile = (write_page id page p).1 in
      (cached_pages q ≤ max 1 q.capacity) × (cached_pages r ≤ max 1 r.capacity)
unfolding cached_pages
pool_capacity id page p h = (read_page-Fits id p h, write_page-Fits id page p h)

-- The page that `PageFile::evict_one` picks is cached, and no cached page was used longer ago; it
-- picks none only from an empty cache.
pub coldest_lem :
    (last_used : List (ℕ × ℕ)) (cache : List (ℕ × Bytes))
    → ((coldest last_used cache ≡ none) × (cache ≡ []))
      ⊎ ((victim : ℕ) × (coldest last_used cache ≡ some victim)
          × (is_some (get victim cache) ≡ true)
          × ((id : ℕ)
              → is_some (get id cache) ≡ true
              → stamp last_used victim ≤ stamp last_used id))
unfolding coldest
coldest_lem last_used [] = inl (refl, refl)
coldest_lem last_used ((id, page) ∷ cache) = inr (elim (coldest_lem last_used cache) [
  | inl (e, empty) ↦ (
    id,
    rw (coldest, e),
    ground arith,
    λ i m. elim (Bool-cases (id == i)) [
      | inl same ↦ omega (arith, ap (stamp last_used) (eqb→eq id i same))
      | inr other ↦ absurd (ground (arith, other, m, ap (get i) empty))
    ],
  )
  | inr (victim, e, m, least) ↦
      elim (Bool-cases (leb (stamp last_used id) (stamp last_used victim))) [
        | inl y ↦ (
          id,
          rw (coldest, e, y),
          ground arith,
          λ i m'. elim (Bool-cases (id == i)) [
            | inl same ↦ omega (arith, ap (stamp last_used) (eqb→eq id i same))
            | inr other ↦ ground (arith, y, least i (rw other at m'))
          ],
        )
        | inr n ↦ (
          victim,
          rw (coldest, e, n),
          ground (arith, m),
          λ i m'. elim (Bool-cases (id == i)) [
            | inl same ↦ ground (arith, n, ap (stamp last_used) (eqb→eq id i same))
            | inr other ↦ least i (rw other at m')
          ],
        )
      ]
])
