-- ===== src/Tests/Commits.antt =====
-- A commit published over the tables of the version tests.
use chu_sql.Base.{
  ℕ, subst, unwrap_or, ◌≡◌, refl, true, none, some, [], ◌∷◌, arith, ok, Result, ◌==◌, Bool-cases,
  inl, inr,
}
use chu_sql.Base.Assoc.{get}
use chu_sql.Base.Text.{Str, ascii}
use chu_sql.Mvcc.{History, Durable, table_at}
use chu_sql.Mvcc.Publish.{RowTests, publish_changed}
use chu_sql.Mvcc.Publish.Isolation.{WellKept, RowsKept, OpenEnd, reads}
use chu_sql.Mvcc.Publish.Snapshots.{publish_keeps_snapshots}
use chu_sql.Tests.Versions.{numbers, schema, state, history, reader}

abbrev number_tests : RowTests numbers
number_tests = record { row_eq = λ a b. a == b; columns_eq = λ a b. true; id_key = λ a. none }

abbrev write_works : Durable numbers → Durable numbers → ℕ → Result Str (Unit {0})
write_works before after oldest = ok tt

only_entry :
    {A : Type 0} (P : A → Type 0) (k i : ℕ) (v w : A) → get i ((k, v) ∷ []) ≡ some w → P v → P w
only_entry P k i v w g p = elim (Bool-cases (k == i)) [
  | inl y ↦ subst (λ o. P (unwrap_or o v)) (rw y at g) p
  | inr n ↦ absurd (ground (arith, n, g))
]

history-RowsKept : RowsKept 1 3 history.rows
history-RowsKept = (
  (tt, tt),
  λ i l. ground arith,
  λ i chain g v. only_entry OpenEnd 1 i (unwrap_or (get 1 history.rows) []) chain g refl,
)

state-WellKept : WellKept state.durable
unfolding WellKept
state-WellKept = (
  (tt, tt),
  λ id h g.
      only_entry (λ (x : History numbers). RowsKept 1 3 x.rows) 1 id history h g history-RowsKept,
)

publish_keeps_snapshots_example :
    reads 1 (
      table_at 1
        ((publish_changed number_tests write_works 4
            (schema ∷ [])
            ((schema, 9 ∷ 10 ∷ []) ∷ [])
            state).1
          ).durable.tables)
    ≡ reads 1 (table_at 1 state.durable.tables)
publish_keeps_snapshots_example =
    publish_keeps_snapshots number_tests write_works 4 (schema ∷ []) ((schema, 9 ∷ 10 ∷ []) ∷ [])
      state 0 (ascii "a") (reader 1) 1 state-WellKept refl refl (omega arith)
