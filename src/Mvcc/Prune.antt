-- ===== src/Mvcc/Prune.antt =====
-- What `prune` and `prune_durable` of mvcc.rs leave visible.
use chu_sql.Base.{
  ℕ, ◌≤◌, ◌<◌, ◌≡◌, refl, sym, ap, subst, ◌∙◌, inl, inr, Bool, true, false, ◌&&◌, ◌||◌, zero, suc,
  eqb→eq, Option, none, some, List, [], ◌∷◌, map, filter, get_elem?, All, arith, ltb, leb, ◌==◌,
  if◌then◌else◌, unwrap_or, min, is_some, Bool-cases, Option-cases,
}
use chu_sql.Base.Text.{Str}
use chu_sql.Protocol.{Wire}
use chu_sql.Mvcc.{
  Version, History, Durable, Transaction, State, find_last, sees, outlives, visible_rows, sort_rows,
  retain_rows, visible, stays, retain_history, prune_durable, minimum, active, oldest_snapshot,
  prune, expired, table_at,
}

find_last-filter {ℓ} :
    {A : Type ℓ} (p q : A → Bool) (xs : List A)
    → ((x : A) → p x ≡ true → q x ≡ true)
    → find_last p (filter q xs) ≡ find_last p xs
find_last-filter p q [] h = refl
find_last-filter p q (x ∷ xs) h =
    ground (arith, find_last-filter p q xs h, h x, Option-cases (find_last p xs))

sees_end :
    (oldest csn begin : ℕ) (end : Option ℕ)
    → oldest ≤ csn
    → (leb begin csn && elim end [ none ↦ true | some e ↦ ltb csn e ]) ≡ true
    → elim end [ none ↦ true | some e ↦ ltb oldest e ] ≡ true
sees_end oldest csn begin none bound h = refl
sees_end oldest csn begin (some e) bound h = ground arith

module _ {Row : Type 0} (oldest csn : ℕ) (bound : oldest ≤ csn) where
  sees-outlives : (v : Version Row) → sees csn v ≡ true → outlives oldest v ≡ true
  sees-outlives v h = sees_end oldest csn v.begin v.end bound h

  abbrev joined : ℕ → Option (Version Row) → List (ℕ × Version Row) → List (ℕ × Version Row)
  joined id o rest = elim o [ none ↦ rest | some v ↦ (id, v) ∷ rest ]

  kept :
      (id : ℕ) (chain left : List (Version Row)) (rows rest : List (ℕ × List (Version Row)))
      → find_last (sees csn) left ≡ find_last (sees csn) chain
      → visible_rows csn rest ≡ visible_rows csn rows
      → visible_rows csn (elim left [ [] ↦ rest | v ∷ vs ↦ (id, v ∷ vs) ∷ rest ])
        ≡ visible_rows csn ((id, chain) ∷ rows)
  unfolding visible_rows
  kept id chain [] rows rest e ih = rw (visible_rows, ← e) ih
  kept id chain (v ∷ vs) rows rest e ih =
      ap (λ o. joined id o (visible_rows csn rest)) e
      ∙ ap (joined id (find_last (sees csn) chain)) ih

  -- Dropping the versions that ended by `oldest` hides nothing from a snapshot at or behind it.
  pub visible_rows-retain_rows :
      (rows : List (ℕ × List (Version Row)))
      → visible_rows csn (retain_rows oldest rows) ≡ visible_rows csn rows
  unfolding retain_rows
  visible_rows-retain_rows [] = refl
  visible_rows-retain_rows ((id, chain) ∷ rows) =
      kept id chain (filter (outlives oldest) chain) rows (retain_rows oldest rows)
        (find_last-filter (sees csn) (outlives oldest) chain sees-outlives)
        (visible_rows-retain_rows rows)

no_rows :
    {Row : Type 0} (csn : ℕ) (live : Bool) (rows : List (ℕ × List (Version Row)))
    → (live || elim rows [ [] ↦ false | _ ∷ _ ↦ true ]) ≡ false
    → sort_rows (visible_rows csn rows) ≡ []
unfolding visible_rows sort_rows
no_rows csn live [] h = refl
no_rows csn true (r ∷ rows) h = ground arith
no_rows csn false (r ∷ rows) h = ground arith

pub minimum-le :
    (n : ℕ) (ns : List ℕ) (i : ℕ)
    → get_elem? ns i ≡ some n
    → (m : ℕ) × (minimum ns ≡ some m) × (m ≤ n)
minimum-le n [] i h = cc
minimum-le n (m ∷ ns) zero h = elim (Option-cases (minimum ns)) [
  | inl none_left ↦ (m, rw none_left refl, ground arith)
  | inr (k, e) ↦ (min m k, rw e refl, ground arith)
]
minimum-le n (m ∷ ns) (suc i) h =
    let (k, e, le) = minimum-le n ns i h in (min m k, rw e refl, omega arith)

minimum-bound : (ns : List ℕ) (top : ℕ) → All (λ n. n ≤ top) ns → unwrap_or (minimum ns) top ≤ top
minimum-bound [] top h = omega arith
minimum-bound (n ∷ ns) top h = elim (Option-cases (minimum ns)) [
  | inl e ↦ rw e h.0
  | inr (m, e) ↦ let k : m ≤ top = rw e at (minimum-bound ns top h.1) in rw e (ground arith)
]

module _ {W : Wire} where
  -- The rows that a snapshot sees of a table; a table that is gone has none.
  abbrev pub sees_rows : Option (History W) → ℕ → List (ℕ × Version W.Row)
  sees_rows none csn = []
  sees_rows (some h) csn = visible h csn

  -- The keys of an ordered map.
  abbrev pub Ascending : List (ℕ × History W) → Type 0
  Ascending [] = Unit
  Ascending ((i, h) ∷ tables) = All (λ t. i < t.0) tables × Ascending tables

  -- `f` changes no row that `csn` sees.
  abbrev Keeps : ℕ → (History W → History W) → Type 0
  Keeps csn f = (h : History W) → visible (f h) csn ≡ visible h csn

  absent :
      (f : History W → History W) (i : ℕ) (tables : List (ℕ × History W))
      → All (λ t. i < t.0) tables
      → table_at i (filter stays (map (λ (j, h). (j, f h)) tables)) ≡ none
  absent f i [] h = refl
  absent f i ((j, x) ∷ tables) h = ground (arith, absent f i tables h.1)

  stays-visible : (csn i : ℕ) (h : History W) → stays (i, h) ≡ false → visible h csn ≡ []
  unfolding visible
  stays-visible csn i h gone = no_rows csn h.live h.rows gone

  -- Retired tables may go: nobody sees a row of theirs.
  sees_rows-filter :
      (csn id : ℕ) (f : History W → History W) (tables : List (ℕ × History W))
      → Ascending tables
      → Keeps csn f
      → sees_rows (table_at id (filter stays (map (λ (j, h). (j, f h)) tables))) csn
        ≡ sees_rows (table_at id tables) csn
  sees_rows-filter csn id f [] asc k = refl
  sees_rows-filter csn id f ((j, h) ∷ tables) asc k =
      let rest = filter stays (map (λ (i, x). (i, f x)) tables) in
      let ih = sees_rows-filter csn id f tables asc.1 k in
      elim (Bool-cases (j == id)) [
        | inr other ↦ elim (Bool-cases (stays (j, f h))) [
          | inl stay ↦ rw (stay, other) ih
          | inr gone ↦ rw (gone, other) ih
        ]
        | inl here ↦ elim (Bool-cases (stays (j, f h))) [
          | inl stay ↦ rw (stay, here) (k h)
          | inr gone ↦
              rw (gone, here, absent f id tables (rw (eqb→eq j id here) at asc.0))
                (sym (sym (k h) ∙ stays-visible csn j (f h) gone))
        ]
      ]

  retain_history-Keeps : (oldest csn : ℕ) → oldest ≤ csn → Keeps csn (retain_history oldest)
  unfolding visible
  retain_history-Keeps oldest csn bound h =
      ap sort_rows (visible_rows-retain_rows oldest csn bound h.rows)

  if-Keeps :
      (csn : ℕ) (f : History W → History W) (test : History W → Bool)
      → Keeps csn f
      → Keeps csn (λ h. if test h then f h else h)
  if-Keeps csn f test k h = elim (Bool-cases (test h)) [ inl y ↦ rw y (k h) | inr n ↦ rw n ]

  -- Whatever bound `prune_durable` gets, a snapshot at that commit number or a later one sees the same rows of every
  -- table as before.
  pub prune_durable_lem :
      (d : Durable W) (oldest csn id : ℕ)
      → Ascending d.tables
      → oldest ≤ csn
      → sees_rows (table_at id (prune_durable oldest d).tables) csn
        ≡ sees_rows (table_at id d.tables) csn
  unfolding prune_durable
  prune_durable_lem d oldest csn id asc bound =
      sees_rows-filter csn id (λ h. if expired oldest h.rows then retain_history oldest h else h)
        d.tables asc
        (if-Keeps csn (retain_history oldest) (λ h. expired oldest h.rows)
          (retain_history-Keeps oldest csn bound))

  pub active-snapshot :
      (txs : List (Str × Transaction W)) (i : ℕ) (token : Str) (tx : Transaction W)
      → get_elem? txs i ≡ some (token, tx)
      → tx.aborted ≡ none
      → (j : ℕ) × (get_elem? (active txs) j ≡ some tx.snapshot)
  active-snapshot [] i token tx h n = cc
  active-snapshot ((t, x) ∷ txs) zero token tx h n =
      let e : x ≡ tx = ap (λ o. (unwrap_or {A = Str × Transaction W} o (t, x)).1) h in
      (
        0,
        subst
            (λ y.
              get_elem? (if is_some y.aborted then active txs else y.snapshot ∷ active txs) 0
              ≡ some tx.snapshot)
            (sym e) (rw n refl),
      )
  active-snapshot ((t, x) ∷ txs) (suc i) token tx h n =
      let (j, e) = active-snapshot txs i token tx h n in
      elim (Bool-cases (is_some x.aborted)) [ inl y ↦ (j, rw y e) | inr z ↦ (suc j, rw z e) ]

  -- `prune` takes no row from a transaction that is not aborted: its snapshot sees the same rows of
  -- every table as before.
  pub prune_keeps_snapshots :
      (s : State W) (i : ℕ) (token : Str) (tx : Transaction W) (id : ℕ)
      → Ascending s.durable.tables
      → get_elem? s.transactions i ≡ some (token, tx)
      → tx.aborted ≡ none
      → sees_rows (table_at id (prune s).durable.tables) tx.snapshot
        ≡ sees_rows (table_at id s.durable.tables) tx.snapshot
  unfolding prune oldest_snapshot
  prune_keeps_snapshots s i token tx id asc h n =
      let (j, e) = active-snapshot s.transactions i token tx h n in
      let (m, least, le) = minimum-le tx.snapshot (active s.transactions) j e in
      let oldest = unwrap_or (minimum (active s.transactions)) s.durable.csn in
      sees_rows-filter tx.snapshot id (retain_history oldest) s.durable.tables asc
        (retain_history-Keeps oldest tx.snapshot (rw least le))

  active-All :
      (txs : List (Str × Transaction W)) (top : ℕ)
      → All (λ t. t.1.snapshot ≤ top) txs
      → All (λ n. n ≤ top) (active txs)
  active-All [] top h = tt
  active-All ((t, x) ∷ txs) top h = elim (Bool-cases (is_some x.aborted)) [
    | inl y ↦ rw y (active-All txs top h.1)
    | inr z ↦ rw z (h.0, active-All txs top h.1)
  ]

  -- When no transaction has a snapshot ahead of the last commit, `prune` takes no row from a reader
  -- that begins now or at any later commit number.
  pub prune_keeps_current :
      (s : State W) (csn id : ℕ)
      → Ascending s.durable.tables
      → All (λ t. t.1.snapshot ≤ s.durable.csn) s.transactions
      → s.durable.csn ≤ csn
      → sees_rows (table_at id (prune s).durable.tables) csn
        ≡ sees_rows (table_at id s.durable.tables) csn
  unfolding prune oldest_snapshot
  prune_keeps_current s csn id asc h later =
      let oldest = unwrap_or (minimum (active s.transactions)) s.durable.csn in
      sees_rows-filter csn id (retain_history oldest) s.durable.tables asc (
        retain_history-Keeps oldest csn (
          omega (
            arith,
            minimum-bound (active s.transactions) s.durable.csn
                (active-All s.transactions s.durable.csn h),
          )))
