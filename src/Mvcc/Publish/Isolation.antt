-- ===== src/Mvcc/Publish/Isolation.antt =====
-- `publish_changed` of mvcc.rs against readers of earlier commits.
use chu_sql.Base.{
  ℕ, ◌<◌, ◌≡◌, refl, sym, ap, subst, ◌∙◌, inl, inr, true, not, ◌||◌, Option, none, some, List, [],
  ◌∷◌, map, ◌==◌, if◌then◌else◌, is_some, All, arith, Bool-cases, Option-cases, eqb→eq, eqb_refl,
  Result, ok, err, ◌>>=◌,
}
use chu_sql.Base.Assoc.{get}
use chu_sql.Base.Text.{Str}
use chu_sql.Protocol.{TableSchemaWire, Wire}
use chu_sql.Mvcc.{
  Version, History, Durable, visible, visible_rows, sort_rows, insert_sorted, key_le, find_last,
  sees, table_at,
}
use chu_sql.Mvcc.Publish.{
  RowTests, Progress, put_ordered, publish_rows, end_rows, key_positions, old_history, publish_into,
  publish_table, publish_tables,
}
use chu_sql.Mvcc.Publish.Chains.{
  Asc, put_ordered-Asc, get-put_ordered, get_below, Closable, table_view, erase_row,
}
use chu_sql.Mvcc.Publish.Rows.{Free, Live, Safe}
use chu_sql.Mvcc.Publish.Loops.{After, publish_rows-After, end_rows-After}

module _ {Row : Type 0} where
  All-insert_sorted :
      (P : ℕ × Version Row → Type 0) (x : ℕ × Version Row) (ys : List (ℕ × Version Row))
      → P x
      → All P ys
      → All P (insert_sorted x ys)
  unfolding insert_sorted
  All-insert_sorted P x [] p h = (p, tt)
  All-insert_sorted P x (y ∷ ys) p (h, hs) = elim (Bool-cases (key_le x y)) [
    | inl z ↦ rw z (p, (h, hs))
    | inr z ↦ rw z (h, All-insert_sorted P x ys p hs)
  ]

  All-sort_rows :
      (P : ℕ × Version Row → Type 0) (xs : List (ℕ × Version Row)) → All P xs → All P (sort_rows xs)
  unfolding sort_rows
  All-sort_rows P [] h = tt
  All-sort_rows P (x ∷ xs) (h, hs) = All-insert_sorted P x (sort_rows xs) h (All-sort_rows P xs hs)

  -- The order of rows does not look at their ends.
  map-insert_sorted :
      (x : ℕ × Version Row) (ys : List (ℕ × Version Row))
      → map erase_row (insert_sorted x ys) ≡ insert_sorted (erase_row x) (map erase_row ys)
  unfolding insert_sorted
  map-insert_sorted x [] = refl
  map-insert_sorted x (y ∷ ys) = elim (Bool-cases (key_le x y)) [
    | inl z ↦ rw z
    | inr z ↦ rw z (ap (λ r. erase_row y ∷ r) (map-insert_sorted x ys))
  ]

  map-sort_rows :
      (xs : List (ℕ × Version Row)) → map erase_row (sort_rows xs) ≡ sort_rows (map erase_row xs)
  unfolding sort_rows
  map-sort_rows [] = refl
  map-sort_rows (x ∷ xs) =
      map-insert_sorted x (sort_rows xs) ∙ ap (insert_sorted (erase_row x)) (map-sort_rows xs)

  -- What holds of the chains that `csn` sees holds of the rows that are visible at `csn`.
  visible_rows-All :
      (csn : ℕ) (P : ℕ → Type 0) (rows : List (ℕ × List (Version Row)))
      → Asc rows
      → ((i : ℕ) (chain : List (Version Row))
          → get i rows ≡ some chain
          → is_some (find_last (sees csn) chain) ≡ true
          → P i)
      → All (λ (e : ℕ × Version Row). P e.0) (visible_rows csn rows)
  unfolding visible_rows
  visible_rows-All csn P [] h f = tt
  visible_rows-All csn P ((id, chain) ∷ rows) (a, h) f =
      let rest = visible_rows-All csn P rows h (λ i c e v. f i c (lift i c e) v) in
      elim (Option-cases (find_last (sees csn) chain)) [
        | inl e ↦ rw (visible_rows, e) rest
        | inr (v, e) ↦ rw (visible_rows, e) (f id chain (rw (eqb_refl id) refl) (rw e refl), rest)
      ]
    where
      lift :
          (i : ℕ) (c : List (Version Row))
          → get i rows ≡ some c
          → get i ((id, chain) ∷ rows) ≡ some c
      lift i c e = elim (Bool-cases (id == i)) [
        | inl y ↦ absurd (
            ground (arith, subst (λ k. get k rows ≡ none) (eqb→eq id i y) (get_below id rows a), e))
        | inr n ↦ rw n e
      ]

  -- The last version has not ended.
  abbrev pub OpenEnd : List (Version Row) → Type 0
  OpenEnd [] = Unit {0}
  OpenEnd (v ∷ []) = v.end ≡ none
  OpenEnd (v ∷ w ∷ chain) = OpenEnd (w ∷ chain)

  open-Closable : (s : ℕ) (chain : List (Version Row)) → OpenEnd chain → Closable s chain
  open-Closable s [] h = tt
  open-Closable s (v ∷ []) h = inl (ground (arith, h))
  open-Closable s (v ∷ w ∷ chain) h = open-Closable s (w ∷ chain) h

  -- The rows of a table are in the order of their numbers, none has a number beyond the last one
  -- given out, and a row that the last commit sees has not ended.
  abbrev pub RowsKept : ℕ → ℕ → List (ℕ × List (Version Row)) → Type 0
  RowsKept next_row csn rows =
      Asc rows
      × ((i : ℕ) → next_row < i → get i rows ≡ none)
      × ((i : ℕ) (chain : List (Version Row))
          → get i rows ≡ some chain
          → is_some (find_last (sees csn) chain) ≡ true
          → OpenEnd chain)

pub table_at-get :
    {W : Wire} (id : ℕ) (tables : List (ℕ × History W)) → table_at id tables ≡ get id tables
table_at-get id [] = refl
table_at-get id ((i, h) ∷ tables) = ground (arith, table_at-get id tables)

module _ {W : Wire} where
  -- The rows that a snapshot reads of a table, with all of their versions but the ends.
  unfoldable pub reads : ℕ → Option (History W) → List (ℕ × Version W.Row)
  unfolding visible
  reads csn none = []
  reads csn (some h) = map erase_row (visible h csn)

  -- A directory of tables in the order of their numbers, each with its rows well kept.
  unfoldable pub WellKept : Durable W → Type 0
  WellKept d =
      Asc d.tables
      × ((id : ℕ) (h : History W) → get id d.tables ≡ some h → RowsKept d.next_row d.csn h.rows)

  abbrev pub table_seen : ℕ → Option (History W) → List (ℕ × Version W.Row)
  table_seen s none = []
  table_seen s (some h) = table_view s h.rows

  pub reads-table_seen : (s : ℕ) (o : Option (History W)) → reads s o ≡ sort_rows (table_seen s o)
  unfolding reads table_view visible sort_rows
  reads-table_seen s none = refl
  reads-table_seen s (some h) = map-sort_rows (visible_rows s h.rows)

  module _ (T : RowTests W) (s csn last : ℕ) (before : s < csn) where
    -- The same for chains that can be closed without a trace for the snapshot.
    abbrev pub RowsSafe : ℕ → List (ℕ × List (Version W.Row)) → Type 0
    RowsSafe next_row rows =
        Asc rows
        × ((i : ℕ) → next_row < i → get i rows ≡ none)
        × Live T s csn last next_row before rows

    -- Where the loop over the tables stands, with what the snapshot sees of each.
    abbrev pub Standing : (ℕ → List (ℕ × Version W.Row)) → Durable W → Type 0
    Standing seen d =
        Asc d.tables
        × (d.csn ≡ last)
        × ((id : ℕ) (h : History W) → get id d.tables ≡ some h → RowsSafe d.next_row h.rows)
        × ((id : ℕ) → table_seen s (get id d.tables) ≡ seen id)

    abbrev pub Stays : (ℕ → List (ℕ × Version W.Row)) → Result Str (Durable W) → Type 0
    Stays seen (ok d) = Standing seen d
    Stays seen (err e) = Unit {0}

    old_rows :
        (o : Option (History W)) (schema : TableSchemaWire W) (n : ℕ)
        → ((h : History W) → o ≡ some h → RowsSafe n h.rows)
        → RowsSafe n ((old_history T csn schema o).rows)
    old_rows none schema n f = (tt, λ i h. refl, λ i chain e. absurd (ground (arith, e)))
    old_rows (some h) schema n f = f h refl

    old_seen :
        (o : Option (History W)) (schema : TableSchemaWire W)
        → table_view s ((old_history T csn schema o).rows) ≡ table_seen s o
    unfolding table_view visible_rows
    old_seen none schema = refl
    old_seen (some h) schema = refl

    -- The rows visible at the last commit may be closed.
    visible-Free :
        (n : ℕ) (h : History W)
        → RowsSafe n h.rows
        → Free T s csn last n before (visible h last) h.rows
    unfolding visible
    visible-Free n h (a, f, live) =
        All-sort_rows
          (λ (e : ℕ × Version W.Row).
            (chain : List (Version W.Row)) → get e.0 h.rows ≡ some chain → Closable s chain)
          (visible_rows last h.rows)
          (visible_rows-All last
            (λ i. (chain : List (Version W.Row)) → get i h.rows ≡ some chain → Closable s chain)
            h.rows a
            (λ i chain e v chain' e'. live i chain' e' (
              ap
                (λ (o : Option (List (Version W.Row))). elim o [
                  | none ↦ true
                  | some x ↦ is_some (find_last (sees last) x)
                ])
                (sym e' ∙ e)
              ∙ v)))

    abbrev or_history : History W → Option (History W) → History W
    or_history h none = h
    or_history h (some x) = x

    -- The table as it is put back.
    put_table-Standing :
        (old : List (ℕ × Version W.Row)) (seen : ℕ → List (ℕ × Version W.Row)) (d : Durable W)
        (id n : ℕ) (h : History W)
        → Standing seen d
        → Safe T s csn last d.next_row before old (seen id) n h.rows
        → Standing seen (record d { next_row = n; tables = put_ordered id h d.tables })
    put_table-Standing old seen d id n h (a, e, f, v) (ra, rf, rr, rt, rl, rn) = (
      put_ordered-Asc id h d.tables a,
      e,
      λ i x g. elim (Bool-cases (id == i)) [
        | inl y ↦
            let same : some h ≡ some x = (rw (get-put_ordered i id h d.tables a, y) at g) in
            subst (λ (o : Option (History W)). RowsSafe n ((or_history h o).rows)) same (ra, rf, rl)
        | inr z ↦
            let (xa, xf, xl) = f i x (rw (get-put_ordered i id h d.tables a, z) at g) in
            (xa, λ k l. xf k (omega (arith, l, rn)), xl)
      ],
      λ i. elim (Bool-cases (id == i)) [
        | inl y ↦ rw (get-put_ordered i id h d.tables a, y) (rt ∙ ap seen (eqb→eq id i y))
        | inr z ↦ rw (get-put_ordered i id h d.tables a, z) (v i)
      ],
    )

    publish_into-Stays :
        (seen : ℕ → List (ℕ × Version W.Row)) (schema : TableSchemaWire W) (rows : List W.Row)
        (history : History W) (old : List (ℕ × Version W.Row)) (d : Durable W)
        → Standing seen d
        → RowsSafe d.next_row history.rows
        → Free T s csn last d.next_row before old history.rows
        → table_view s history.rows ≡ seen schema.object_id
        → Stays seen (publish_into T csn schema rows history old d)
    unfolding publish_into
    publish_into-Stays seen schema rows history old d st (a, f, l) free v =
        go (publish_rows T csn old 0 rows start) (
          publish_rows-After T s csn last d.next_row before old (seen schema.object_id) 0 rows start
            (a, f, free, v, l, omega arith))
      where
        start : Progress W
        start = record {
          next_row = d.next_row;
          rows = history.rows;
          positions = key_positions T 0 old;
          used = [];
          changed =
              not (T.columns_eq history.schema.columns schema.columns)
              || not (history.schema.schema_version == schema.schema_version);
        }

        put_back : Progress W → Result Str (Durable W)
        put_back p = ok (record d {
          next_row = p.next_row;
          tables =
              put_ordered schema.object_id
                (record {
                  schema = schema;
                  changed = if p.changed then csn else history.changed;
                  live = true;
                  rows = p.rows;
                })
                d.tables;
        })

        stop :
            (r : Result Str (Progress W))
            → After T s csn last d.next_row before old (seen schema.object_id) r
            → Stays seen (r >>= put_back)
        stop (err e) h = tt
        stop (ok p) h =
            put_table-Standing old seen d schema.object_id p.next_row
              (record {
                schema = schema;
                changed = if p.changed then csn else history.changed;
                live = true;
                rows = p.rows;
              })
              st h

        go :
            (r : Result Str (Progress W))
            → After T s csn last d.next_row before old (seen schema.object_id) r
            → Stays seen (r >>= λ p. end_rows T csn old p >>= put_back)
        go (err e) h = tt
        go (ok p) h = stop (end_rows T csn old p) (
            end_rows-After T s csn last d.next_row before old (seen schema.object_id) old p
              (λ q g. g.2) h)

    publish_table-Stays :
        (seen : ℕ → List (ℕ × Version W.Row)) (table : TableSchemaWire W × List W.Row)
        (d : Durable W)
        → Standing seen d
        → Stays seen (publish_table T csn table d)
    unfolding publish_table
    publish_table-Stays seen (schema, rows) d (a, e, f, v) =
        let o = table_at schema.object_id d.tables in
        let history = old_history T csn schema o in
        let there = table_at-get schema.object_id d.tables in
        let safe = old_rows o schema d.next_row (λ h q. f schema.object_id h (sym there ∙ q)) in
        publish_into-Stays seen schema rows history (visible history d.csn) d (a, e, f, v) safe
          (subst (λ c. Free T s csn last d.next_row before (visible history c) history.rows) (sym e)
            (visible-Free d.next_row history safe))
          (old_seen o schema ∙ ap (table_seen s) there ∙ v schema.object_id)

    then-Stays :
        (seen : ℕ → List (ℕ × Version W.Row)) (r : Result Str (Durable W))
        (f : Durable W → Result Str (Durable W))
        → Stays seen r
        → ((d : Durable W) → Standing seen d → Stays seen (f d))
        → Stays seen (r >>= f)
    then-Stays seen (ok d) f h k = k d h
    then-Stays seen (err e) f h k = tt

    pub publish_tables-Stays :
        (seen : ℕ → List (ℕ × Version W.Row)) (tables : List (TableSchemaWire W × List W.Row))
        (d : Durable W)
        → Standing seen d
        → Stays seen (publish_tables T csn tables d)
    unfolding publish_tables
    publish_tables-Stays seen [] d st = st
    publish_tables-Stays seen (table ∷ tables) d st =
        then-Stays seen (publish_table T csn table d) (publish_tables T csn tables)
          (publish_table-Stays seen table d st) (publish_tables-Stays seen tables)

    -- A well kept directory is where the loop over the tables may start.
    pub WellKept-Standing :
        (d : Durable W)
        → d.csn ≡ last
        → WellKept d
        → Standing (λ id. table_seen s (get id d.tables)) d
    unfolding WellKept
    WellKept-Standing d e (a, f) = (
      a,
      e,
      λ id h g.
          let (ra, rf, ro) = f id h g in
          (
            ra,
            rf,
            λ i chain c v.
                open-Closable s chain
                  (ro i chain c (subst (λ n. is_some (find_last (sees n) chain) ≡ true) (sym e) v)),
          ),
      λ id. refl,
    )
