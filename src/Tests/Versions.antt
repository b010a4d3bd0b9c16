-- ===== src/Tests/Versions.antt =====
-- Tests of mvcc.rs: one table with a replaced row, two readers and the locks of two transactions.
use chu_sql.Base.{ℕ, ◌≡◌, refl, true, false, none, some, [], ◌∷◌, All, arith}
use chu_sql.Base.Text.{Str, ascii}
use chu_sql.Protocol.{Wire, TableSchemaWire}
use chu_sql.Mvcc.{
  History, Durable, table, row, Transaction, State, prune, prune_durable, finish, fail_all, attempt,
  blockers, begin_selected, transaction_at, table_at, visible, visible_rows, sort_rows,
  insert_sorted, snapshot_rows,
}
use chu_sql.Mvcc.Prune.{sees_rows, prune_durable_lem, prune_keeps_snapshots, prune_keeps_current}
use chu_sql.Mvcc.Locks.{Dead, Unknown, SameIfAny, fail_all_lem, finish_lem}
use chu_sql.Mvcc.Validate.{validate, validate_lem, RowKept}
use chu_sql.Mvcc.Runs.{Reach, opened, began, attempted, locks_exclude}

abbrev pub numbers : Wire
numbers = record { Value = ℕ; Row = ℕ; Float = ℕ }

abbrev pub schema : TableSchemaWire numbers
schema = record {
  table = ascii "t";
  database_id = 0;
  object_id = 1;
  schema_version = 0;
  columns = [];
  row_count = 1;
  indexes = [];
  stats = [];
}

-- Row 1 held 7 from commit 1 to 2, and holds 8 since.
abbrev pub history : History numbers
history = record {
  schema = schema;
  changed = 2;
  live = true;
  rows =
      (
        1,
        record { begin = 1; end = some 2; value_begin = 1; order = 0; row = 7 }
            ∷ record { begin = 2; end = none; value_begin = 2; order = 0; row = 8 }
            ∷ [],
      )
      ∷ [];
}

abbrev pub durable : Durable numbers
durable = record { format = 1; csn = 3; next_row = 1; tables = (1, history) ∷ [] }

abbrev pub reader : ℕ → Transaction numbers
reader snapshot = record {
  snapshot = snapshot;
  schemas = schema ∷ [];
  serializable = false;
  reads = [];
  held = (table 1, false) ∷ [];
  waiting = ascii "b" ∷ [];
  aborted = none;
  plan = [];
}

abbrev pub state : State numbers
state = record {
  durable = durable;
  transactions = (ascii "a", reader 1) ∷ (ascii "b", reader 2) ∷ [];
  next_transaction = 2;
}

-- The old reader sees 7, the new one 8.
sees_old :
    visible history 1
    ≡ (1, record { begin = 1; end = some 2; value_begin = 1; order = 0; row = 7 }) ∷ []
unfolding visible visible_rows sort_rows insert_sorted
sees_old = refl

sees_new :
    visible history 2
    ≡ (1, record { begin = 2; end = none; value_begin = 2; order = 0; row = 8 }) ∷ []
unfolding visible visible_rows sort_rows insert_sorted
sees_new = refl

prune_keeps_snapshots_example :
    sees_rows (table_at 1 (prune state).durable.tables) 1 ≡ sees_rows (some history) 1
prune_keeps_snapshots_example =
    prune_keeps_snapshots state 0 (ascii "a") (reader 1) 1 (tt, tt) refl refl

prune_keeps_current_example :
    sees_rows (table_at 1 (prune state).durable.tables) 4 ≡ sees_rows (some history) 4
prune_keeps_current_example =
    prune_keeps_current state 4 1 (tt, tt) (omega arith, (omega arith, tt)) (omega arith)

prune_durable_lem_example :
    sees_rows (table_at 1 (prune_durable 2 durable).tables) 3 ≡ sees_rows (some history) 3
prune_durable_lem_example = prune_durable_lem durable 2 3 1 (tt, tt) (omega arith)

fail_all_lem_example : All (λ t. Dead t.1) (fail_all state).transactions
fail_all_lem_example = fail_all_lem state

finish_lem_example :
    All (Unknown (ascii "b")) (finish (ascii "b") state).transactions
    × SameIfAny
        (transaction_at (ascii "a") (finish (ascii "b") state).transactions)
        (transaction_at (ascii "a") state.transactions)
finish_lem_example = finish_lem (ascii "b") (ascii "a") state refl

abbrev token : ℕ → Str
token n = n ∷ []

-- Two transactions that began on that table and lock it in shared mode.
abbrev first_locked : State numbers
first_locked =
    (attempt (token 1) (table 1) false
      (begin_selected token (schema ∷ []) false none
        (record { durable = durable; transactions = []; next_transaction = 0 })).1).1

abbrev both_locked : State numbers
both_locked =
    (attempt (token 2) (table 1) false
      (begin_selected token (schema ∷ []) false none first_locked).1).1

abbrev locked : Transaction numbers
locked = record {
  snapshot = 3;
  schemas = schema ∷ [];
  serializable = false;
  reads = [];
  held = (table 1, false) ∷ [];
  waiting = [];
  aborted = none;
  plan = [];
}

both_locked-Reach : Reach token both_locked
both_locked-Reach =
    attempted (begin_selected token (schema ∷ []) false none first_locked).1 (token 2) (table 1)
      false
      (began first_locked (schema ∷ []) false none (
        attempted
          (begin_selected token (schema ∷ []) false none
            (record { durable = durable; transactions = []; next_transaction = 0 })).1
          (token 1) (table 1) false
          (began (record { durable = durable; transactions = []; next_transaction = 0 })
            (schema ∷ []) false none (opened durable 0))))

locks_exclude_example : (false ≡ false) × (false ≡ false)
unfolding begin_selected snapshot_rows attempt blockers
locks_exclude_example =
    locks_exclude token both_locked (token 1) (token 2) locked locked (table 1) false false
      both_locked-Reach refl refl refl refl refl refl refl

-- A writer that began at the last commit holds row 1.
abbrev writer : Transaction numbers
writer = record {
  snapshot = 3;
  schemas = schema ∷ [];
  serializable = true;
  reads = 1 ∷ [];
  held = (row 1 1, true) ∷ [];
  waiting = [];
  aborted = none;
  plan = [];
}

abbrev writing : State numbers
writing = record {
  durable = durable;
  transactions = (ascii "w", writer) ∷ [];
  next_transaction = 1;
}

validate_lem_example :
    (writer.aborted ≡ none) × RowKept (λ xs ys. true) writing.durable writer.snapshot 1 1
unfolding validate
validate_lem_example =
    validate_lem (λ xs ys. true) writing (ascii "w") true writer 0 1 1 refl refl refl
