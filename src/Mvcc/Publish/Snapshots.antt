-- ===== src/Mvcc/Publish/Snapshots.antt =====
-- The end of `publish_changed` of mvcc.rs, and the whole of it, against readers of earlier commits.
use chu_sql.Base.{
  ℕ, ◌≤◌, ◌<◌, ◌≡◌, refl, sym, ap, subst, ◌∙◌, inl, inr, Bool, true, false, not, ◌&&◌, ◌||◌, Option,
  none, some, List, [], ◌∷◌, map, filter, ltb, ◌==◌, if◌then◌else◌, All, arith, unwrap_or,
  Bool-cases, eqb→eq, option_map, Result, ok, err, get_elem?,
}
use chu_sql.Base.Assoc.{get, member}
use chu_sql.Base.Text.{Str}
use chu_sql.Protocol.{TableSchemaWire, Wire}
use chu_sql.Mvcc.{
  Version, History, Durable, State, Transaction, visible_rows, expired, retain_history,
  oldest_snapshot, table_at, sort_rows, active,
}
use chu_sql.Mvcc.Prune.{visible_rows-retain_rows, minimum-le, active-snapshot}
use chu_sql.Mvcc.Publish.{
  RowTests, close_open, publish_tables, retire, conclude, take_effect, put_in_place,
  publish_changed,
}
use chu_sql.Mvcc.Publish.Chains.{
  Asc, get_below, table_view, erase_row, close_open_view, chain_view, table_view-cons, view_entry,
}
use chu_sql.Mvcc.Publish.Isolation.{
  WellKept, reads, table_seen, reads-table_seen, table_at-get, Standing, Stays,
  publish_tables-Stays, WellKept-Standing,
}

module _ {ℓ} {A : Type ℓ} where
  All-map :
      (b : ℕ) (f : ℕ → A → A) (m : List (ℕ × A))
      → All (λ (t : ℕ × A). b < t.0) m
      → All (λ (t : ℕ × A). b < t.0) (map (λ (i, v). (i, f i v)) m)
  All-map b f [] h = tt
  All-map b f ((i, v) ∷ m) (h, hs) = (h, All-map b f m hs)

  Asc-map : (f : ℕ → A → A) (m : List (ℕ × A)) → Asc m → Asc (map (λ (i, v). (i, f i v)) m)
  Asc-map f [] h = tt
  Asc-map f ((i, v) ∷ m) (a, h) = (All-map i f m a, Asc-map f m h)

  get-map :
      (f : ℕ → A → A) (k : ℕ) (m : List (ℕ × A))
      → get k (map (λ (i, v). (i, f i v)) m) ≡ option_map (f k) (get k m)
  get-map f k [] = refl
  get-map f k ((i, v) ∷ m) = elim (Bool-cases (i == k)) [
    | inl y ↦ rw y (ap (λ n. some (f n v)) (eqb→eq i k y))
    | inr n ↦ rw n (get-map f k m)
  ]

  All-filter :
      (b : ℕ) (g : ℕ × A → Bool) (m : List (ℕ × A))
      → All (λ (t : ℕ × A). b < t.0) m
      → All (λ (t : ℕ × A). b < t.0) (filter g m)
  All-filter b g [] h = tt
  All-filter b g (e ∷ m) (h, hs) = elim (Bool-cases (g e)) [
    | inl y ↦ rw y (h, All-filter b g m hs)
    | inr n ↦ rw n (All-filter b g m hs)
  ]

table_view-close_open :
    {Row : Type 0} (s csn : ℕ) (before : s < csn) (rows : List (ℕ × List (Version Row)))
    → table_view s (map (λ (id, chain). (id, close_open csn chain)) rows) ≡ table_view s rows
table_view-close_open s csn before [] = refl
table_view-close_open s csn before ((id, chain) ∷ rows) =
    let later = map (λ (i, c). (i, close_open csn c)) rows in
    table_view-cons s id (close_open csn chain) later
    ∙ ap (λ o. view_entry s id o (table_view s later)) (close_open_view s csn before chain)
    ∙ ap (view_entry s id (chain_view s chain)) (table_view-close_open s csn before rows)
    ∙ sym (table_view-cons s id chain rows)

no_rows :
    {Row : Type 0} (s : ℕ) (b : Bool) (rows : List (ℕ × List (Version Row)))
    → (b || elim rows [ [] ↦ false | _ ∷ _ ↦ true ]) ≡ false
    → table_view s rows ≡ []
unfolding table_view visible_rows
no_rows s b [] e = refl
no_rows s b (r ∷ rows) e = absurd (ground (arith, e))

module _ {W : Wire} (s : ℕ) where
  -- A change of each table that the snapshot does not see.
  mapped :
      (f : ℕ → History W → History W) (tables : List (ℕ × History W)) (id : ℕ)
      → ((h : History W) → table_view s ((f id h).rows) ≡ table_view s h.rows)
      → table_seen s (get id (map (λ (i, h). (i, f i h)) tables)) ≡ table_seen s (get id tables)
  mapped f tables id h = ap (table_seen s) (get-map f id tables) ∙ go (get id tables)
    where
      go : (o : Option (History W)) → table_seen s (option_map (f id) o) ≡ table_seen s o
      go none = refl
      go (some x) = h x

  -- Tables go of which the snapshot sees nothing.
  filtered :
      (g : ℕ × History W → Bool) (tables : List (ℕ × History W)) (id : ℕ)
      → Asc tables
      → ((i : ℕ) (h : History W) → g (i, h) ≡ false → table_view s h.rows ≡ [])
      → table_seen s (get id (filter g tables)) ≡ table_seen s (get id tables)
  filtered g [] id a f = refl
  filtered g ((i, h) ∷ tables) id (b, a) f = elim (Bool-cases (g (i, h))) [
    | inl y ↦
        rw y
          (elim (Bool-cases (i == id)) [ inl x ↦ rw x | inr n ↦ rw n (filtered g tables id a f) ])
    | inr n ↦ rw n (elim (Bool-cases (i == id)) [
      | inl x ↦ rw x (
          ap (table_seen s) (
            subst (λ k. get k (filter g tables) ≡ none) (eqb→eq i id x)
              (get_below i (filter g tables) (All-filter i g tables b)))
          ∙ sym (f i h n))
      | inr m ↦ rw m (filtered g tables id a f)
    ])
  ]

  -- Retirement and pruning are not seen by a snapshot that the bound of the pruning reaches.
  conclude_lem :
      (T : RowTests W) (csn oldest : ℕ) (current_ids : List ℕ) (d : Durable W) (id : ℕ)
      → s < csn
      → oldest ≤ s
      → Asc d.tables
      → table_seen s (get id (conclude T csn current_ids oldest d).tables)
        ≡ table_seen s (get id d.tables)
  unfolding conclude table_view
  conclude_lem T csn oldest current_ids d id before bound a =
      filtered _ (map (λ (i, h). (i, pruned h)) (map (λ (i, h). (i, retired i h)) d.tables)) id
        (Asc-map (λ i h. pruned h) (map (λ (i, h). (i, retired i h)) d.tables)
          (Asc-map retired d.tables a))
        (λ i h e. no_rows s (member i current_ids) h.rows e)
      ∙ mapped (λ i h. pruned h) (map (λ (i, h). (i, retired i h)) d.tables) id pruned_view
      ∙ mapped retired d.tables id retired_view
    where
      pruned : History W → History W
      pruned h = if expired oldest h.rows then retain_history oldest h else h

      retired : ℕ → History W → History W
      retired i h = if not (member i current_ids) && h.live then retire T csn h else h

      pruned_view : (h : History W) → table_view s ((pruned h).rows) ≡ table_view s h.rows
      pruned_view h = elim (Bool-cases (expired oldest h.rows)) [
        | inl y ↦ rw y (ap (map erase_row) (visible_rows-retain_rows oldest s bound h.rows))
        | inr n ↦ rw n
      ]

      retired_view : (h : History W) → table_view s ((retired id h).rows) ≡ table_view s h.rows
      retired_view h = elim (Bool-cases (not (member id current_ids) && h.live)) [
        | inl y ↦ rw y (table_view-close_open s csn before h.rows)
        | inr n ↦ rw n
      ]

module _ {W : Wire} (T : RowTests W) where
  -- What is published, and what is left on an error.
  outcome :
      (persist : Durable W → Durable W → ℕ → Result Str (Unit {0})) (csn s : ℕ)
      (schemas : List (TableSchemaWire W)) (tables : List (TableSchemaWire W × List W.Row))
      (st : State W) (id : ℕ)
      → WellKept st.durable
      → s < csn
      → unwrap_or (oldest_snapshot st) csn ≤ s
      → table_seen s (get id ((publish_changed T persist csn schemas tables st).1).durable.tables)
        ≡ table_seen s (get id st.durable.tables)
  unfolding publish_changed
  outcome persist csn s schemas tables st id kept before bound =
      elim (Bool-cases (ltb csn st.durable.csn)) [
        | inl y ↦ rw y refl
        | inr n ↦ rw n (
            loop (publish_tables T csn tables st.durable) (
              publish_tables-Stays T s csn st.durable.csn before
                (λ i. table_seen s (get i st.durable.tables)) tables st.durable
                (WellKept-Standing T s csn st.durable.csn before st.durable refl kept)))
      ]
    where
      oldest : ℕ
      oldest = unwrap_or (oldest_snapshot st) csn

      ids : List ℕ
      ids = map (λ schema. schema.object_id) schemas

      effect :
          (r : Result Str (Unit {0})) (d : Durable W)
          → Standing T s csn st.durable.csn before (λ i. table_seen s (get i st.durable.tables)) d
          → table_seen s
              (get id ((take_effect T r (conclude T csn ids oldest d) st).1).durable.tables)
            ≡ table_seen s (get id st.durable.tables)
      effect (err e) d h = refl
      effect (ok u) d (a, e, f, v) = conclude_lem s T csn oldest ids d id before bound a ∙ v id

      loop :
          (r : Result Str (Durable W))
          → Stays T s csn st.durable.csn before (λ i. table_seen s (get i st.durable.tables)) r
          → table_seen s (get id ((put_in_place T persist csn ids st r).1).durable.tables)
            ≡ table_seen s (get id st.durable.tables)
      loop (err e) h = refl
      loop (ok d) h = effect (persist st.durable (conclude T csn ids oldest d) oldest) d h

  -- Publishing a commit, whatever tables and rows it has and whether it succeeds or fails, leaves
  -- the snapshot of each transaction that is not aborted and began before that commit as it was:
  -- in a well kept directory the transaction reads the same versions of the same rows of every table
  -- as before, with the same numbers in the same order.
  pub publish_keeps_snapshots :
      (persist : Durable W → Durable W → ℕ → Result Str (Unit {0})) (csn : ℕ)
      (schemas : List (TableSchemaWire W)) (tables : List (TableSchemaWire W × List W.Row))
      (st : State W) (i : ℕ) (token : Str) (tx : Transaction W) (id : ℕ)
      → WellKept st.durable
      → get_elem? st.transactions i ≡ some (token, tx)
      → tx.aborted ≡ none
      → tx.snapshot < csn
      → reads tx.snapshot
          (table_at id ((publish_changed T persist csn schemas tables st).1).durable.tables)
        ≡ reads tx.snapshot (table_at id st.durable.tables)
  unfolding oldest_snapshot
  publish_keeps_snapshots persist csn schemas tables st i token tx id kept h live before =
      let s = tx.snapshot in
      let after = ((publish_changed T persist csn schemas tables st).1).durable.tables in
      let (j, e) = active-snapshot st.transactions i token tx h live in
      let (m, least, le) = minimum-le s (active st.transactions) j e in
      let bound : unwrap_or (oldest_snapshot st) csn ≤ s = rw least le in
      ap (reads s) (table_at-get id after)
      ∙ reads-table_seen s (get id after)
      ∙ ap sort_rows (outcome persist csn s schemas tables st id kept before bound)
      ∙ sym (reads-table_seen s (get id st.durable.tables))
      ∙ ap (reads s) (sym (table_at-get id st.durable.tables))
