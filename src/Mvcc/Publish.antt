-- ===== src/Mvcc/Publish.antt =====
-- `publish_changed` of mvcc.rs: the rows of a commit become versions.
pub mod Chains
pub mod Rows
pub mod Loops
pub mod Isolation
pub mod Snapshots
use chu_sql.Base.{
  ℕ, suc, ◌+◌, ◌^◌, Bool, true, false, not, ◌&&◌, ◌||◌, Option, none, some, List, [], ◌∷◌, ◌++◌,
  map, filter, any, find, get_elem?, bytes_eq, ltb, leb, ◌==◌, if◌then◌else◌, is_some, unwrap_or,
  Result, ok, err, ◌>>=◌,
}
use chu_sql.Base.Assoc.{get, member}
use chu_sql.Base.Bytes.{Bytes}
use chu_sql.Base.Text.{Str, ascii}
use chu_sql.Protocol.{TableSchemaWire, SchemaColumn, Wire}
use chu_sql.Mvcc.{
  Version, History, Durable, State, visible, table_at, expired, retain_history, oldest_snapshot,
}

-- What publishing asks of rows and columns, which are JSON: their equality, and `unique_key(row, "id")`
pub record RowTests (W : Wire) : Type 0 where
  pub row_eq : W.Row → W.Row → Bool
  pub columns_eq : List (SchemaColumn W.Value) → List (SchemaColumn W.Value) → Bool
  pub id_key : W.Row → Option Bytes

-- `map.insert(k, v)` and `get_mut(k)` on an ordered map
abbrev pub put_ordered {ℓ} : {A : Type ℓ} → ℕ → A → List (ℕ × A) → List (ℕ × A)
put_ordered k v [] = (k, v) ∷ []
put_ordered k v ((j, w) ∷ m) =
    let rest = put_ordered k v m in
    if j == k then (k, v) ∷ m else if ltb k j then (k, v) ∷ (j, w) ∷ m else (j, w) ∷ rest

-- `chain.last_mut().end = Some(csn)`
abbrev pub close : {Row : Type 0} → ℕ → List (Version Row) → List (Version Row)
close csn [] = []
close csn (v ∷ []) = record v { end = some csn } ∷ []
close csn (v ∷ w ∷ chain) = v ∷ close csn (w ∷ chain)

-- The same where the last version has not ended
abbrev pub close_open : {Row : Type 0} → ℕ → List (Version Row) → List (Version Row)
close_open csn [] = []
close_open csn (v ∷ []) = (if is_some v.end then v else record v { end = some csn }) ∷ []
close_open csn (v ∷ w ∷ chain) = v ∷ close_open csn (w ∷ chain)

-- The variables of the loops over one table
pub record Progress (W : Wire) : Type 0 where
  pub next_row : ℕ
  pub rows : List (ℕ × List (Version W.Row))
  pub positions : List (Bytes × ℕ)
  pub used : List ℕ
  pub changed : Bool

-- The first position under a key is taken out: `get_mut(&key)` and `pop_front`.
abbrev pub take_first : Bytes → List (Bytes × ℕ) → Option ℕ × List (Bytes × ℕ)
take_first key [] = (none, [])
take_first key ((k, position) ∷ positions) =
    let (found, rest) = take_first key positions in
    if bytes_eq k key then (some position, positions) else (found, (k, position) ∷ rest)

module _ {W : Wire} (T : RowTests W) where
  -- `key_positions`, from a position on
  unfoldable pub key_positions : ℕ → List (ℕ × Version W.Row) → List (Bytes × ℕ)
  key_positions position [] = []
  key_positions position ((id, v) ∷ old) =
      let rest = key_positions (suc position) old in
      elim (T.id_key v.row) [ none ↦ rest | some key ↦ (key, position) ∷ rest ]

  abbrev pub old_at : List (ℕ × Version W.Row) → Option ℕ → Option (ℕ × Version W.Row)
  old_at old none = none
  old_at old (some position) = get_elem? old position

  -- The row that was there before, for a row with a key or without one, and the positions that are
  -- left
  abbrev pub prior_by :
      List (ℕ × Version W.Row)
      → W.Row
      → Progress W
      → Option Bytes
      → Option (ℕ × Version W.Row) × List (Bytes × ℕ)
  prior_by old row s none =
      (find (λ (id, v). not (member id s.used) && T.row_eq v.row row) old, s.positions)
  prior_by old row s (some key) =
      let (found, rest) = take_first key s.positions in (old_at old found, rest)

  abbrev pub find_prior :
      List (ℕ × Version W.Row) → W.Row → Progress W → Option (ℕ × Version W.Row) × List (Bytes × ℕ)
  find_prior old row s = prior_by old row s (T.id_key row)

  abbrev pub new_version : ℕ → ℕ → ℕ → W.Row → Version W.Row
  new_version csn value_begin order row = record {
    begin = csn;
    end = none;
    value_begin = value_begin;
    order = order;
    row = row;
  }

  -- A row that was not there
  abbrev pub publish_new : ℕ → ℕ → W.Row → Progress W → Result Str (Progress W)
  publish_new csn order row s =
      if leb (2 ^ 64) (s.next_row + 1)
      then err (ascii "MVCC row id exhausted")
      else ok (record s {
        next_row = s.next_row + 1;
        rows = put_ordered (s.next_row + 1) (new_version csn csn order row ∷ []) s.rows;
        changed = true;
      })

  -- A new version of a row, behind those of its chain
  abbrev pub push_version :
      ℕ
      → ℕ
      → W.Row
      → ℕ
      → Version W.Row
      → Option (List (Version W.Row))
      → Progress W
      → Result Str (Progress W)
  push_version csn order row id previous none s = err (ascii "MVCC row missing")
  push_version csn order row id previous (some []) s = err (ascii "MVCC chain empty")
  push_version csn order row id previous (some (v ∷ chain)) s =
      let same = T.row_eq previous.row row in
      let version = new_version csn (if same then previous.value_begin else csn) order row in
      ok (record s {
        rows = put_ordered id (close csn (v ∷ chain) ++ version ∷ []) s.rows;
        changed = not same || s.changed;
      })

  -- A row that was there
  abbrev pub publish_old : ℕ → ℕ → W.Row → ℕ → Version W.Row → Progress W → Result Str (Progress W)
  publish_old csn order row id previous s =
      if T.row_eq previous.row row && previous.order == order
      then ok (record s { used = id ∷ s.used })
      else if previous.begin == csn
      then err (ascii "MVCC replay does not match published version")
      else push_version csn order row id previous (get id s.rows) (record s { used = id ∷ s.used })

  -- One round of the loop over the rows of a table
  unfoldable pub publish_row :
      ℕ → List (ℕ × Version W.Row) → ℕ → W.Row → Progress W → Result Str (Progress W)
  publish_row csn old order row s =
      let (prior, rest) = find_prior old row s in
      elim prior [
        | none ↦ publish_new csn order row (record s { positions = rest })
        | some (id, previous) ↦
            publish_old csn order row id previous (record s { positions = rest })
      ]

  unfoldable pub publish_rows :
      ℕ → List (ℕ × Version W.Row) → ℕ → List W.Row → Progress W → Result Str (Progress W)
  unfolding publish_row
  publish_rows csn old order [] s = ok s
  publish_rows csn old order (row ∷ rows) s = do
    s' ← publish_row csn old order row s
    publish_rows csn old (suc order) rows s'

  -- The end of a row that is gone
  abbrev pub end_row : ℕ → ℕ → Option (List (Version W.Row)) → Progress W → Result Str (Progress W)
  end_row csn id none s = err (ascii "MVCC row missing")
  end_row csn id (some []) s = err (ascii "MVCC row missing")
  end_row csn id (some (v ∷ chain)) s =
      ok (record s { rows = put_ordered id (close csn (v ∷ chain)) s.rows; changed = true })

  -- The loop over the rows that were there
  unfoldable pub end_rows : ℕ → List (ℕ × Version W.Row) → Progress W → Result Str (Progress W)
  end_rows csn [] s = ok s
  end_rows csn ((id, previous) ∷ old) s =
      if member id s.used
      then end_rows csn old s
      else if previous.begin == csn
      then err (ascii "MVCC replay removed a published row")
      else do s' ← end_row csn id (get id s.rows) s; end_rows csn old s'

  abbrev pub new_history : ℕ → TableSchemaWire W → History W
  new_history csn schema = record { schema = schema; changed = csn; live = true; rows = [] }

  abbrev pub old_history : ℕ → TableSchemaWire W → Option (History W) → History W
  old_history csn schema none = new_history csn schema
  old_history csn schema (some history) = history

  -- The loop body for one table, with its history and the rows that were there
  unfoldable pub publish_into :
      ℕ
      → TableSchemaWire W
      → List W.Row
      → History W
      → List (ℕ × Version W.Row)
      → Durable W
      → Result Str (Durable W)
  unfolding key_positions publish_rows end_rows
  publish_into csn schema rows history old d = do
    s ← publish_rows csn old 0 rows (record {
      next_row = d.next_row;
      rows = history.rows;
      positions = key_positions 0 old;
      used = [];
      changed =
          not (T.columns_eq history.schema.columns schema.columns)
          || not (history.schema.schema_version == schema.schema_version);
    })
    s' ← end_rows csn old s
    ok (record d {
      next_row = s'.next_row;
      tables =
          put_ordered schema.object_id
            (record {
              schema = schema;
              changed = if s'.changed then csn else history.changed;
              live = true;
              rows = s'.rows;
            })
            d.tables;
    })

  -- The loop body for one table; the rows that were there are those visible at the last commit.
  unfoldable pub publish_table :
      ℕ → TableSchemaWire W × List W.Row → Durable W → Result Str (Durable W)
  unfolding visible publish_into
  publish_table csn (schema, rows) d =
      let history = old_history csn schema (table_at schema.object_id d.tables) in
      publish_into csn schema rows history (visible history d.csn) d

  unfoldable pub publish_tables :
      ℕ → List (TableSchemaWire W × List W.Row) → Durable W → Result Str (Durable W)
  unfolding publish_table
  publish_tables csn [] d = ok d
  publish_tables csn (table ∷ tables) d = do
    d' ← publish_table csn table d
    publish_tables csn tables d'

  -- A table that the commit does not name any more
  abbrev pub retire : ℕ → History W → History W
  retire csn h = record h {
    live = false;
    rows = map (λ (id, chain). (id, close_open csn chain)) h.rows;
    changed = csn;
  }

  -- What follows the tables: retirement, the commit number, pruning
  unfoldable pub conclude : ℕ → List ℕ → ℕ → Durable W → Durable W
  conclude csn current_ids oldest d = record d {
    csn = csn;
    format = 2;
    tables =
        filter (λ (id, h). member id current_ids || elim h.rows [ [] ↦ false | _ ∷ _ ↦ true ])
          (map (λ (id, h). (id, if expired oldest h.rows then retain_history oldest h else h))
            (map
              (λ (id, h). (id, if not (member id current_ids) && h.live then retire csn h else h))
              d.tables));
  }

  -- The end of `publish_changed`: the version directory is written, then it takes effect.
  abbrev pub take_effect :
      Result Str (Unit {0}) → Durable W → State W → Result Str (Unit {0}) × State W
  take_effect (err e) d s = (err e, s)
  take_effect (ok u) d s = (ok tt, record s { durable = d })

  -- What follows the loop over the tables
  abbrev pub put_in_place :
      (Durable W → Durable W → ℕ → Result Str (Unit {0}))
      → ℕ
      → List ℕ
      → State W
      → Result Str (Durable W)
      → Result Str (Unit {0}) × State W
  put_in_place persist csn current_ids s (err e) = (err e, s)
  put_in_place persist csn current_ids s (ok d) =
      let oldest = unwrap_or (oldest_snapshot s) csn in
      let next = conclude csn current_ids oldest d in
      take_effect (persist s.durable next oldest) next s

  -- `Mvcc::publish_changed`, where `persist` is the outcome of writing the directory
  unfoldable pub publish_changed :
      (Durable W → Durable W → ℕ → Result Str (Unit {0}))
      → ℕ
      → List (TableSchemaWire W)
      → List (TableSchemaWire W × List W.Row)
      → State W
      → Result Str (Unit {0}) × State W
  unfolding publish_tables conclude oldest_snapshot
  publish_changed persist csn schemas tables s =
      if ltb csn s.durable.csn
      then (err (ascii "MVCC commit sequence moved backwards"), s)
      else put_in_place persist csn (map (λ schema. schema.object_id) schemas) s
          (publish_tables csn tables s.durable)

  -- `Mvcc::publish`
  unfoldable pub publish :
      (Durable W → Durable W → ℕ → Result Str (Unit {0}))
      → ℕ
      → List (TableSchemaWire W × List W.Row)
      → State W
      → Result Str (Unit {0}) × State W
  unfolding publish_changed
  publish persist csn tables s =
      publish_changed persist csn (map (λ (schema, rows). schema) tables) tables s
