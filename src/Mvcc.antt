-- ===== src/Mvcc.antt =====
-- The version store of mvcc.rs. A `BTreeMap` is an association list in the order of its keys, a
-- `HashMap` an association list in any order; `Arc` and the mutex leave no trace in the model.
pub mod Prune
pub mod Locks
pub mod Exclusion
pub mod Steps
pub mod Runs
pub mod Validate
pub mod Publish
use chu_sql.Base.{
  ℕ, ◌+◌, Bool, true, false, not, ◌&&◌, ◌||◌, Option, none, some, List, [], ◌∷◌, map, filter, any,
  bytes_eq, ltb, leb, ◌==◌, if◌then◌else◌, min, is_some, unwrap_or, ◌^◌, Result, ok, err, ok_or,
  ◌>>=◌,
}
use chu_sql.Base.Bytes.{Bytes}
use chu_sql.Base.Text.{Str, ascii}
use chu_sql.Protocol.{StorageOp, TableSchemaWire, Wire}

pub record Version (Row : Type 0) : Type 0 where
  pub begin : ℕ
  pub end : Option ℕ
  pub value_begin : ℕ
  pub order : ℕ
  pub row : Row

pub record History (W : Wire) : Type 0 where
  pub schema : TableSchemaWire W
  pub changed : ℕ
  pub live : Bool
  pub rows : List (ℕ × List (Version W.Row))

pub record Durable (W : Wire) : Type 0 where
  pub format : ℕ
  pub csn : ℕ
  pub next_row : ℕ
  pub tables : List (ℕ × History W)

pub data Key : Type 0 where
  table : ℕ → Key
  row : ℕ → ℕ → Key
  unique : ℕ → Str → Bytes → Key

pub record Transaction (W : Wire) : Type 0 where
  pub snapshot : ℕ
  pub schemas : List (TableSchemaWire W)
  pub serializable : Bool
  pub reads : List ℕ
  pub held : List (Key × Bool)
  pub waiting : List Str
  pub aborted : Option Str
  pub plan : List (StorageOp W.Row)

pub record State (W : Wire) : Type 0 where
  pub durable : Durable W
  pub transactions : List (Str × Transaction W)
  pub next_transaction : ℕ

-- The derived equality of `Key`
abbrev pub key_eq : Key → Key → Bool
key_eq (table i) (table j) = i == j
key_eq (row i r) (row j q) = i == j && r == q
key_eq (unique i c v) (unique j d w) = i == j && (bytes_eq c d && bytes_eq v w)
key_eq _ _ = false

-- `tx.held.get(&key)`
abbrev pub held_at : Key → List (Key × Bool) → Option Bool
held_at key [] = none
held_at key ((k, b) ∷ held) = if key_eq k key then some b else held_at key held

-- `entry(key).and_modify(|held| *held |= exclusive).or_insert(exclusive)`. Nothing reads the order
-- of the held keys but the choice of the first error in `validate`.
abbrev pub hold : Key → Bool → List (Key × Bool) → List (Key × Bool)
hold key exclusive [] = (key, exclusive) ∷ []
hold key exclusive ((k, b) ∷ held) =
    let rest = hold key exclusive held in
    if key_eq k key then (k, b || exclusive) ∷ held else (k, b) ∷ rest

-- `chain.iter().rev().find(p)`
abbrev pub find_last {ℓ} : {A : Type ℓ} → (A → Bool) → List A → Option A
find_last p [] = none
find_last p (x ∷ xs) =
    let rest = find_last p xs in if is_some rest then rest else if p x then some x else none

-- `v.begin <= csn && v.end.is_none_or(|end| csn < end)`
abbrev pub sees : {Row : Type 0} → ℕ → Version Row → Bool
sees csn v = leb v.begin csn && elim v.end [ none ↦ true | some end ↦ ltb csn end ]

-- `v.end.is_none_or(|end| end > oldest)`
abbrev pub outlives : {Row : Type 0} → ℕ → Version Row → Bool
outlives oldest v = elim v.end [ none ↦ true | some end ↦ ltb oldest end ]

module _ {Row : Type 0} where
  -- The `filter_map` of `visible`
  unfoldable pub visible_rows : ℕ → List (ℕ × List (Version Row)) → List (ℕ × Version Row)
  visible_rows csn [] = []
  visible_rows csn ((id, chain) ∷ rows) =
      let rest = visible_rows csn rows in
      elim (find_last (sees csn) chain) [ none ↦ rest | some v ↦ (id, v) ∷ rest ]

  -- `sort_by_key` on the logical order and the row number: a stable insertion sort
  abbrev pub key_le : ℕ × Version Row → ℕ × Version Row → Bool
  key_le (i, v) (j, w) = ltb v.order w.order || (v.order == w.order && leb i j)

  unfoldable pub insert_sorted : ℕ × Version Row → List (ℕ × Version Row) → List (ℕ × Version Row)
  insert_sorted x [] = x ∷ []
  insert_sorted x (y ∷ ys) =
      let rest = insert_sorted x ys in if key_le x y then x ∷ y ∷ ys else y ∷ rest

  unfoldable pub sort_rows : List (ℕ × Version Row) → List (ℕ × Version Row)
  sort_rows [] = []
  sort_rows (x ∷ xs) = insert_sorted x (sort_rows xs)

  -- The `retain` on a table's rows, as `prune` and `prune_durable` do it
  unfoldable pub retain_rows : ℕ → List (ℕ × List (Version Row)) → List (ℕ × List (Version Row))
  retain_rows oldest [] = []
  retain_rows oldest ((id, chain) ∷ rows) =
      let rest = retain_rows oldest rows in
      elim (filter (outlives oldest) chain) [ [] ↦ rest | v ∷ vs ↦ (id, v ∷ vs) ∷ rest ]

  abbrev pub expired : ℕ → List (ℕ × List (Version Row)) → Bool
  expired oldest rows = any (λ r. any (λ v. not (outlives oldest v)) r.1) rows

-- `selected.is_none_or(|names| names.contains(name))`
abbrev pub wants : Option (List Str) → Str → Bool
wants none name = true
wants (some names) name = any (bytes_eq name) names

-- `iter().min()`
abbrev pub minimum : List ℕ → Option ℕ
minimum [] = none
minimum (n ∷ ns) = elim (minimum ns) [ none ↦ some n | some m ↦ some (min n m) ]

module _ {W : Wire} where
  -- `visible`
  unfoldable pub visible : History W → ℕ → List (ℕ × Version W.Row)
  unfolding visible_rows sort_rows
  visible history csn = sort_rows (visible_rows csn history.rows)

  -- `history.live || !history.rows.is_empty()`
  abbrev pub stays : ℕ × History W → Bool
  stays (id, h) = h.live || elim h.rows [ [] ↦ false | _ ∷ _ ↦ true ]

  abbrev pub retain_history : ℕ → History W → History W
  retain_history oldest h = record h { rows = retain_rows oldest h.rows }

  -- `prune_durable`
  unfoldable pub prune_durable : ℕ → Durable W → Durable W
  prune_durable oldest d = record d {
    tables = filter stays (
        map (λ (id, h). (id, if expired oldest h.rows then retain_history oldest h else h))
          d.tables);
  }

  -- The snapshots that `min` in `prune` and in `Mvcc::oldest_snapshot` ranges over
  abbrev pub active : List (Str × Transaction W) → List ℕ
  active [] = []
  active ((token, tx) ∷ txs) = if is_some tx.aborted then active txs else tx.snapshot ∷ active txs

  -- `Mvcc::oldest_snapshot`
  unfoldable pub oldest_snapshot : State W → Option ℕ
  oldest_snapshot s = minimum (active s.transactions)

  -- `prune`
  unfoldable pub prune : State W → State W
  unfolding oldest_snapshot
  prune s =
      let oldest = unwrap_or (oldest_snapshot s) s.durable.csn in
      record s {
        durable = record s.durable {
          tables = filter stays (map (λ (id, h). (id, retain_history oldest h)) s.durable.tables);
        };
      }

  abbrev pub release : Str → Transaction W → Transaction W
  release token tx = record tx { waiting = filter (λ t. not (bytes_eq t token)) tx.waiting }

  abbrev pub release_all : Str → List (Str × Transaction W) → List (Str × Transaction W)
  release_all token txs = map (λ (t, tx). (t, release token tx)) txs

  abbrev pub mark_aborted : Str → Str → Str × Transaction W → Str × Transaction W
  mark_aborted token error (t, tx) = (
    t,
    if bytes_eq t token then record tx { aborted = some error; held = []; waiting = [] } else tx,
  )

  -- `abort`
  unfoldable pub abort : Str → Str → State W → State W
  abort token error s = record s {
    transactions = release_all token (map (mark_aborted token error) s.transactions);
  }

  -- `Mvcc::finish`
  unfoldable pub finish : Str → State W → State W
  unfolding prune
  finish token s =
      let pruned =
        prune
          (record s { transactions = filter (λ (t, tx). not (bytes_eq t token)) s.transactions }) in
      record pruned { transactions = release_all token pruned.transactions }

  -- The loop of `Mvcc::fail_all`
  abbrev pub abort_each : List Str → State W → State W
  abort_each [] s = s
  abort_each (token ∷ tokens) s =
      abort_each tokens (abort token (ascii "storage recovery required") s)

  -- `Mvcc::fail_all`
  unfoldable pub fail_all : State W → State W
  fail_all s = abort_each (map (λ (t, tx). t) s.transactions) s

  -- `transactions.get(token)`
  abbrev pub transaction_at : Str → List (Str × Transaction W) → Option (Transaction W)
  transaction_at token [] = none
  transaction_at token ((t, tx) ∷ txs) =
      if bytes_eq t token then some tx else transaction_at token txs

  abbrev pub blocks : Str → Key → Bool → Str × Transaction W → Bool
  blocks token key exclusive (other, tx) =
      not (bytes_eq other token)
      && (not (is_some tx.aborted)
          && elim (held_at key tx.held) [ none ↦ false | some held ↦ held || exclusive ])

  -- The `blockers` of `Mvcc::lock_inner`
  unfoldable pub blockers : Str → Key → Bool → State W → List Str
  blockers token key exclusive s =
      map (λ (t, tx). t) (filter (blocks token key exclusive) s.transactions)

  abbrev pub update : Str → (Transaction W → Transaction W) → State W → State W
  update token f s = record s {
    transactions = map (λ (t, tx). (t, if bytes_eq t token then f tx else tx)) s.transactions;
  }

  -- One attempt of `Mvcc::lock_inner` at one key: whether the lock is granted, and the state
  -- afterwards, in which a waiter has an edge to each blocker.
  unfoldable pub attempt : Str → Key → Bool → State W → Bool × State W
  unfolding blockers
  attempt token key exclusive s = elim (blockers token key exclusive s) [
    | [] ↦
        (true, update token (λ tx. record tx { held = hold key exclusive tx.held; waiting = [] }) s)
    | b ∷ bs ↦ (false, update token (λ tx. record tx { waiting = b ∷ bs }) s)
  ]

  -- `transactions.insert(token, tx)`
  abbrev pub put_transaction :
      Str → Transaction W → List (Str × Transaction W) → List (Str × Transaction W)
  put_transaction token tx [] = (token, tx) ∷ []
  put_transaction token tx ((t, x) ∷ txs) =
      let rest = put_transaction token tx txs in
      if bytes_eq t token then (t, tx) ∷ txs else (t, x) ∷ rest

  -- `tables.get(&id)`
  abbrev pub table_at : ℕ → List (ℕ × History W) → Option (History W)
  table_at id [] = none
  table_at id ((i, h) ∷ tables) = if i == id then some h else table_at id tables

  -- The loop of `Mvcc::begin_selected` over the schemas
  unfoldable pub snapshot_rows :
      Durable W
      → Option (List Str)
      → List (TableSchemaWire W)
      → Result Str (List (Str × List W.Row))
  snapshot_rows d selected [] = ok []
  snapshot_rows d selected (schema ∷ schemas) = do
    history ← ok_or (table_at schema.object_id d.tables) (ascii "MVCC schema is not synchronized")
    rest ← snapshot_rows d selected schemas
    ok (
        (
          schema.table,
          if wants selected schema.table
              then map (λ (id, v). v.row) (visible history d.csn)
              else [],
        )
        ∷ rest)

  -- The end of `Mvcc::begin_selected`, with the rows that its loop gave
  abbrev pub enter :
      Str
      → List (TableSchemaWire W)
      → Bool
      → State W
      → Result Str (List (Str × List W.Row))
      → Result Str (Str × (List (Str × List W.Row) × ℕ)) × State W
  enter token schemas serializable s (err e) = (err e, s)
  enter token schemas serializable s (ok rows) = (
    ok (token, (rows, s.durable.csn)),
    record s {
      transactions =
          put_transaction token
            (record {
              snapshot = s.durable.csn;
              schemas = schemas;
              serializable = serializable;
              reads = [];
              held = [];
              waiting = [];
              aborted = none;
              plan = [];
            })
            s.transactions;
    },
  )

  -- `Mvcc::begin_selected`, where `token_of` is the `format!` of the nonce and the number
  unfoldable pub begin_selected :
      (ℕ → Str)
      → List (TableSchemaWire W)
      → Bool
      → Option (List Str)
      → State W
      → Result Str (Str × (List (Str × List W.Row) × ℕ)) × State W
  unfolding snapshot_rows
  begin_selected token_of schemas serializable selected s =
      if leb (2 ^ 64) (s.next_transaction + 1)
      then (err (ascii "transaction id exhausted"), s)
      else let s1 = record s { next_transaction = s.next_transaction + 1 } in
        enter (token_of s1.next_transaction) schemas serializable s1
          (snapshot_rows s.durable selected schemas)
