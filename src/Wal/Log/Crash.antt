-- ===== src/Wal/Log/Crash.antt =====
-- A crash while `Wal::append_group` writes: the file ends after any number of bytes of the group.
use chu_sql.Base.{
  ℕ, ◌+◌, ◌-◌, ◌^◌, ◌≤◌, ◌<◌, ◌≡◌, ◌≢◌, refl, ap, ◌∙◌, ◌⊎◌, inl, inr, true, false, some, List, [],
  ◌∷◌, ◌++◌, map, length, length-append, take, All, arith, ok, append-nil, subst, leb, le→leb,
  Bool-cases,
}
use chu_sql.Wal.Op.{Serde, is_commit}
use chu_sql.Wal.Log.{Wal, WalScan, SFrame, read_all, committed_ops}
use chu_sql.Wal.Log.Frames.{Block, Valid, body, frame_bytes, file, frames_at, whole, parse_cut}
use chu_sql.Wal.Log.Commits.{
  Rec, Sealed, NoMark, committed_ops-group, committed_ops-unmarked, committed_ops-lone,
}
use chu_sql.Wal.Log.Append.{mark, mark-Valid}

module _ (S : Serde) where
  abbrev pub records_of : List (Block S) → List (Rec S.Value S.Row)
  records_of bs = map (λ b. (b.lsn, b.op)) bs

  records-frames_at :
      (o : ℕ) (bs : List (Block S))
      → map (λ (f : SFrame S). (f.lsn, f.op)) (frames_at S o bs) ≡ records_of bs
  records-frames_at o [] = refl
  records-frames_at o (b ∷ bs) =
      ap (λ r. (b.lsn, b.op) ∷ r) (records-frames_at (o + 4 + length (body S b)) bs)

  records-append : (bs cs : List (Block S)) → records_of (bs ++ cs) ≡ records_of bs ++ records_of cs
  records-append [] cs = refl
  records-append (b ∷ bs) cs = ap (λ r. (b.lsn, b.op) ∷ r) (records-append bs cs)

  whole-append :
      (n : ℕ) (bs cs : List (Block S))
      → length (file S bs) ≤ n
      → whole S n (bs ++ cs) ≡ bs ++ whole S (n - length (file S bs)) cs
  whole-append n [] cs h = ap (λ m. whole S m cs) (omega arith)
  whole-append n (b ∷ bs) cs h =
      let k : length (frame_bytes S b ++ file S bs)
          ≡ length (frame_bytes S b) + length (file S bs) =
        length-append (frame_bytes S b) (file S bs) in
      rw (le→leb (length (frame_bytes S b)) n (omega arith)) (
        ap (λ r. b ∷ r)
          (whole-append (n - length (frame_bytes S b)) bs cs (omega arith)
            ∙ ap (λ m. bs ++ whole S m cs) (omega arith)))

  -- Of a group, the whole frames are a part of its operations, or everything with the mark.
  whole-group :
      (n : ℕ) (gs : List (Block S)) (c : Block S)
      → (whole S n (gs ++ c ∷ []) ≡ gs ++ c ∷ [])
        ⊎ ((front back : List (Block S)) × (gs ≡ front ++ back)
            × (whole S n (gs ++ c ∷ []) ≡ front))
  whole-group n [] c = elim (Bool-cases (leb (length (frame_bytes S c)) n)) [
    | inl y ↦ inl (rw y)
    | inr z ↦ inr ([], [], refl, rw z)
  ]
  whole-group n (g ∷ gs) c =
      first g gs (Bool-cases (leb (length (frame_bytes S g)) n))
        (whole-group (n - length (frame_bytes S g)) gs c)
    where
      first :
          (g : Block S) (gs : List (Block S))
          → (leb (length (frame_bytes S g)) n ≡ true) ⊎ (leb (length (frame_bytes S g)) n ≡ false)
          → (whole S (n - length (frame_bytes S g)) (gs ++ c ∷ []) ≡ gs ++ c ∷ [])
            ⊎ ((front back : List (Block S)) × (gs ≡ front ++ back)
                × (whole S (n - length (frame_bytes S g)) (gs ++ c ∷ []) ≡ front))
          → (whole S n ((g ∷ gs) ++ c ∷ []) ≡ (g ∷ gs) ++ c ∷ [])
            ⊎ ((front back : List (Block S)) × (g ∷ gs ≡ front ++ back)
                × (whole S n ((g ∷ gs) ++ c ∷ []) ≡ front))
      first g gs (inr z) rest = inr ([], g ∷ gs, refl, rw z)
      first g gs (inl y) (inl e) = inl (rw (y, e))
      first g gs (inl y) (inr (front, back, e, q)) =
          inr (g ∷ front, back, ap (λ r. g ∷ r) e, rw (y, q))

All-front {ℓ κ} : {A : Type ℓ} (P : A → Type κ) (xs ys : List A) → All P (xs ++ ys) → All P xs
All-front P [] ys h = tt
All-front P (x ∷ xs) ys h = (h.0, All-front P xs ys h.1)

All-append {ℓ κ} :
    {A : Type ℓ} (P : A → Type κ) (xs ys : List A) → All P xs → All P ys → All P (xs ++ ys)
All-append P [] ys h k = k
All-append P (x ∷ xs) ys h k = (h.0, All-append P xs ys h.1 k)

module _ (S : Serde) (bs gs : List (Block S)) (c : ℕ) (closed : Sealed (records_of S bs))
    (plain : NoMark (records_of S gs)) where
  -- A proper part of a group commits nothing.
  front_commits :
      (front back : List (Block S))
      → gs ≡ front ++ back
      → (length front ≢ 1) ⊎ (length gs ≡ 1)
      → (committed_ops (records_of S bs ++ records_of S front) ≡ committed_ops (records_of S bs))
        ⊎ (committed_ops (records_of S bs ++ records_of S front)
            ≡ committed_ops (records_of S bs) ++ records_of S gs)
  front_commits [] back e h = inl (rw append-nil)
  front_commits (x ∷ []) (y ∷ back) e h =
      absurd (elim h [ inl many ↦ many refl | inr one ↦ omega (arith, ap length e) ])
  front_commits (x ∷ []) [] e h =
      inr (rw e (committed_ops-lone (records_of S bs) (x.lsn, x.op) closed (rw e at plain).0))
  front_commits (x ∷ y ∷ front) back e h = inl (
      committed_ops-unmarked (records_of S bs) (records_of S (x ∷ y ∷ front)) closed
        (All-front (λ r. is_commit r.1 ≡ false) (records_of S (x ∷ y ∷ front)) (records_of S back)
          (subst (λ l. NoMark l) (ap (records_of S) e ∙ records-append S (x ∷ y ∷ front) back)
            plain))
        (omega arith))

  survivors_commit :
      (left : List (Block S))
      → (left ≡ gs ++ mark S c ∷ [])
        ⊎ ((front back : List (Block S)) × (gs ≡ front ++ back) × (left ≡ front))
      → (length left ≢ 1) ⊎ (length gs ≡ 1)
      → (committed_ops (records_of S bs ++ records_of S left) ≡ committed_ops (records_of S bs))
        ⊎ (committed_ops (records_of S bs ++ records_of S left)
            ≡ committed_ops (records_of S bs) ++ records_of S gs)
  survivors_commit left (inl e) h = inr (
      rw (e, records-append S gs (mark S c ∷ []))
        (committed_ops-group (records_of S bs) (records_of S gs) c closed plain))
  survivors_commit left (inr (front, back, e, q)) h = rw q (front_commits front back e (rw q at h))

module _ (S : Serde) (bs gs : List (Block S)) (c : ℕ) (valid : All (Valid S) bs)
    (group_valid : All (Valid S) gs) (fits : c < 2 ^ 64) (closed : Sealed (records_of S bs))
    (plain : NoMark (records_of S gs)) (w : Wal) (n : ℕ)
    (cut : w.log ≡ some (take n (file S (bs ++ (gs ++ mark S c ∷ [])))))
    (kept : length (file S bs) ≤ n) where
  read_cut :
      (scan : WalScan S.Value S.Row) × (read_all S w ≡ ok scan)
      × (scan.records
          ≡ records_of S bs
            ++ records_of S (whole S (n - length (file S bs)) (gs ++ mark S c ∷ [])))
  unfolding read_all
  read_cut =
      let all = bs ++ (gs ++ mark S c ∷ []) in
      let v =
        All-append (Valid S) bs (gs ++ mark S c ∷ []) valid
          (All-append (Valid S) gs (mark S c ∷ []) group_valid (mark-Valid S c fits, tt)) in
      (
        record {
          records = map (λ f. (f.lsn, f.op)) (frames_at S 0 (whole S n all));
          good_len = length (file S (whole S n all));
        },
        rw (parse_cut S w n all cut v),
        records-frames_at S 0 (whole S n all)
            ∙ ap (records_of S) (whole-append S n bs (gs ++ mark S c ∷ []) kept)
            ∙ records-append S bs (whole S (n - length (file S bs)) (gs ++ mark S c ∷ [])),
      )

  abbrev survivors : List (Block S)
  survivors = whole S (n - length (file S bs)) (gs ++ mark S c ∷ [])

  -- Behind a log of valid frames that ends with a commit mark, a crash in the middle of
  -- `append_group`, whose frames are valid as well, leaves a file that `read_all` reads without an error, and the committed operations are those from
  -- before, or those and the whole group; provided that what survives of the group is not exactly
  -- one frame, or that the group has a single operation.
  pub crash_atomic :
      (length survivors ≢ 1) ⊎ (length gs ≡ 1)
      → (scan : WalScan S.Value S.Row) × (read_all S w ≡ ok scan)
        × ((committed_ops scan.records ≡ committed_ops (records_of S bs))
            ⊎ (committed_ops scan.records ≡ committed_ops (records_of S bs) ++ records_of S gs))
  crash_atomic h =
      let (scan, reads, e) = read_cut in
      (
        scan,
        reads,
        rw e (
            survivors_commit S bs gs c closed plain survivors
              (whole-group S (n - length (file S bs)) gs (mark S c)) h),
      )

  -- Behind a log of valid frames that ends with a commit mark, when a crash in the middle of `append_group` leaves
  -- just the first frame of a group of two valid operations or more, that operation counts as committed
  -- although the group has no mark.
  pub torn_group_replays_first :
      (g h : Block S) (rest : List (Block S))
      → gs ≡ g ∷ h ∷ rest
      → survivors ≡ g ∷ []
      → (scan : WalScan S.Value S.Row) × (read_all S w ≡ ok scan)
        × (committed_ops scan.records ≡ committed_ops (records_of S bs) ++ (g.lsn, g.op) ∷ [])
  torn_group_replays_first g h rest e one =
      let (scan, reads, r) = read_cut in
      (
        scan,
        reads,
        rw (r, one) (committed_ops-lone (records_of S bs) (g.lsn, g.op) closed (rw e at plain).0),
      )
