-- ===== src/Mvcc/Validate.antt =====
-- `validate` of mvcc.rs: the check of a transaction's exclusive locks and of its reads. The
-- derived equality of column lists is the parameter `same_columns`.
use chu_sql.Base.{
  ℕ, zero, suc, ◌≡◌, refl, ap, subst, ◌⊎◌, ◌++◌, eqb→eq, unwrap_or, inl, inr, Bool, true, false,
  not, ◌&&◌, ◌||◌, Option, none, some, List, [], ◌∷◌, find, all, get_elem?, arith, ltb, leb, ◌==◌,
  if◌then◌else◌, Bool-cases, Option-cases, Result, ok, err, ok_or, reject_if, seq-ok, ◌>>=◌, ◌>>◌,
  option_map, is_some,
}
use chu_sql.Base.Text.{Str, ascii}
use chu_sql.Protocol.{Wire, SchemaColumn, TableSchemaWire}
use chu_sql.Mvcc.{
  Version, History, Durable, Key, table, row, unique, Transaction, State, find_last, sees, table_at,
  transaction_at,
}

-- The table of a key.
abbrev pub table_of : Key → ℕ
table_of (table id) = id
table_of (row id r) = id
table_of (unique id column value) = id

-- Equality of `Option<u64>`
abbrev pub option_eq : Option ℕ → Option ℕ → Bool
option_eq none none = true
option_eq (some a) (some b) = a == b
option_eq _ _ = false

not_first : (a b : Bool) → (not a || b) ≡ false → a ≡ true
not_first true b h = refl
not_first false b h = ground (arith, h)

not-false : (a : Bool) → not a ≡ false → a ≡ true
not-false true h = refl
not-false false h = ground (arith, h)

abbrev pub not_aborted : Option Str → Result Str (Unit {0})
not_aborted none = ok tt
not_aborted (some e) = err e

no_error : (o : Option Str) → not_aborted o ≡ ok tt → o ≡ none
no_error none h = refl
no_error (some e) h = cc

module _ {Row : Type 0} where
  -- `rows.get(id)`
  abbrev pub chain_at : ℕ → List (ℕ × List (Version Row)) → Option (List (Version Row))
  chain_at id [] = none
  chain_at id ((i, chain) ∷ rows) = if i == id then some chain else chain_at id rows

  -- `chain.last().filter(|v| v.end.is_none())`
  abbrev pub latest : List (Version Row) → Option (Version Row)
  latest [] = none
  latest (v ∷ []) = if is_some v.end then none else some v
  latest (v ∷ w ∷ vs) = latest (w ∷ vs)

  -- The snapshot sees the value that the chain has now.
  abbrev pub unchanged : ℕ → List (Version Row) → Bool
  unchanged snapshot chain =
      option_eq (option_map (λ v. v.value_begin) (find_last (sees snapshot) chain))
        (option_map (λ v. v.value_begin) (latest chain))

  version_kept :
      (snapshot : ℕ) (bad : Bool) (e1 e2 e3 : Str) (o : Option (List (Version Row)))
      → (do reject_if bad e1; c ← ok_or o e2; reject_if (not (unchanged snapshot c)) e3) ≡ ok tt
      → (bad ≡ false) × ((c : List (Version Row)) × (o ≡ some c) × (unchanged snapshot c ≡ true))
  version_kept snapshot true e1 e2 e3 o h = cc
  version_kept snapshot false e1 e2 e3 none h = cc
  version_kept snapshot false e1 e2 e3 (some c) h = elim (Bool-cases (unchanged snapshot c)) [
    | inl y ↦ (refl, (c, refl, y))
    | inr z ↦ absurd (ground (arith, rw z at h))
  ]

  -- The value that a snapshot sees in a chain is the value that stands: the snapshot sees a version
  -- and the last version has not ended and has its value, or it sees none and the last version, if
  -- there is one, has ended.
  abbrev pub Stands : ℕ → List (Version Row) → Type 0
  Stands snapshot chain =
      ((front : List (Version Row)) × (v w : Version Row) × (find_last (sees snapshot) chain
          ≡ some v)
        × (chain ≡ front ++ w ∷ [])
        × (w.end ≡ none)
        × (v.value_begin ≡ w.value_begin))
      ⊎ ((find_last (sees snapshot) chain ≡ none)
          × ((chain ≡ [])
              ⊎ ((front : List (Version Row)) × (w : Version Row) × (chain ≡ front ++ w ∷ [])
                  × (is_some w.end ≡ true))))

  -- The last version has not ended, or there is none or an ended one.
  latest_lem :
      (chain : List (Version Row))
      → ((front : List (Version Row)) × (w : Version Row) × (latest chain ≡ some w)
          × (chain ≡ front ++ w ∷ [])
          × (w.end ≡ none))
        ⊎ ((latest chain ≡ none)
            × ((chain ≡ [])
                ⊎ ((front : List (Version Row)) × (w : Version Row) × (chain ≡ front ++ w ∷ [])
                    × (is_some w.end ≡ true))))
  latest_lem [] = inr (refl, inl refl)
  latest_lem (v ∷ []) = elim (Option-cases v.end) [
    | inl e ↦ inl ([], v, rw (latest, e) refl, refl, e)
    | inr (n, e) ↦ inr (rw (latest, e) refl, inr ([], v, refl, rw e refl))
  ]
  latest_lem (v ∷ w ∷ vs) = elim (latest_lem (w ∷ vs)) [
    | inl (front, x, l, c, e) ↦ inl (v ∷ front, x, l, ap (λ r. v ∷ r) c, e)
    | inr (l, inl c) ↦ inr (l, inl (absurd (ground (arith, c))))
    | inr (l, inr (front, x, c, e)) ↦ inr (l, inr (v ∷ front, x, ap (λ r. v ∷ r) c, e))
  ]

  unchanged-Stands :
      (snapshot : ℕ) (chain : List (Version Row))
      → unchanged snapshot chain ≡ true
      → Stands snapshot chain
  unchanged-Stands snapshot chain h = elim (Option-cases (find_last (sees snapshot) chain)) [
    | inl unseen ↦ elim (latest_lem chain) [
      | inl (front, w, l, c, e) ↦ absurd (ground (arith, rw (unseen, l) at h))
      | inr (l, r) ↦ inr (unseen, r)
    ]
    | inr (v, seen) ↦ elim (latest_lem chain) [
      | inl (front, w, l, c, e) ↦
          inl (front, v, w, seen, c, e, eqb→eq v.value_begin w.value_begin (rw (seen, l) at h))
      | inr (l, r) ↦ absurd (ground (arith, rw (seen, l) at h))
    ]
  ]

module _ {W : Wire}
    (same_columns : List (SchemaColumn W.Value) → List (SchemaColumn W.Value) → Bool) where
  -- The last `match` in the loop of `validate`
  abbrev pub check_version : Transaction W → History W → Key → Result Str (Unit {0})
  check_version tx current (row t id) = do
    chain ← ok_or (chain_at id current.rows) (ascii "serialization_failure: row was removed")
    reject_if (not (unchanged tx.snapshot chain))
        (ascii "serialization_failure: row version changed")
  check_version tx current (table t) =
      reject_if (ltb tx.snapshot current.changed) (ascii "serialization_failure: table changed")
  check_version tx current (unique t column value) = ok tt

  -- The body of the loop of `validate`
  unfoldable pub check_key : Durable W → Transaction W → Key → Result Str (Unit {0})
  check_key d tx key = do
    expected ←
        ok_or (find (λ (schema : TableSchemaWire W). schema.object_id == table_of key) tx.schemas)
          (ascii "transaction schema missing")
    current ←
        ok_or (table_at (table_of key) d.tables)
          (ascii "serialization_failure: transaction object changed")
    reject_if
        (not current.live
          || (not (current.schema.schema_version == expected.schema_version)
              || not (same_columns current.schema.columns expected.columns)))
        (ascii "serialization_failure: transaction schema changed")
    check_version tx current key

  unfoldable pub check_held : Durable W → Transaction W → List (Key × Bool) → Result Str (Unit {0})
  check_held d tx [] = ok tt
  check_held d tx ((key, exclusive) ∷ held) = do
    (if exclusive then check_key d tx key else ok tt)
    check_held d tx held

  -- A table that a serializable transaction read is live and has not changed since.
  abbrev pub still : Durable W → ℕ → ℕ → Bool
  still d snapshot id = elim (table_at id d.tables) [
    | none ↦ false
    | some h ↦ h.live && leb h.changed snapshot
  ]

  abbrev pub validate_transaction : Durable W → Bool → Transaction W → Result Str (Unit {0})
  validate_transaction d writes tx = do
    not_aborted tx.aborted
    check_held d tx tx.held
    reject_if (writes && (tx.serializable && not (all (still d tx.snapshot) tx.reads)))
        (ascii "serialization_failure: serializable read changed")

  -- `validate`
  unfoldable pub validate : State W → Str → Bool → Result Str (Unit {0})
  unfolding check_key check_held
  validate s token writes = do
    tx ← ok_or (transaction_at token s.transactions) (ascii "transaction no longer exists")
    validate_transaction s.durable writes tx

  -- A table of that number is live, has that row, and its value is the one that the snapshot sees.
  pub record RowKept (d : Durable W) (snapshot t id : ℕ) : Type 0 where
    pub history : History W
    pub chain : List (Version W.Row)
    pub there : table_at t d.tables ≡ some history
    pub live : history.live ≡ true
    pub found : chain_at id history.rows ≡ some chain
    pub same : Stands snapshot chain

  check_key-RowKept :
      (d : Durable W) (tx : Transaction W) (t id : ℕ)
      → check_key d tx (row t id) ≡ ok tt
      → RowKept d tx.snapshot t id
  unfolding check_key
  check_key-RowKept d tx t id h =
      elim (Option-cases
        (find (λ (schema : TableSchemaWire W). schema.object_id == t) tx.schemas)) [
          | inl e ↦ absurd (ground (arith, rw e at h))
          | inr (expected, e) ↦ elim (Option-cases (table_at t d.tables)) [
            | inl g ↦ absurd (ground (arith, rw (e, g) at h))
            | inr (current, g) ↦
                let other =
                  not (current.schema.schema_version == expected.schema_version)
                  || not (same_columns current.schema.columns expected.columns) in
                let (fine, (chain, found, same)) =
                  version_kept tx.snapshot (not current.live || other)
                    (ascii "serialization_failure: transaction schema changed")
                    (ascii "serialization_failure: row was removed")
                    (ascii "serialization_failure: row version changed") (chain_at id current.rows)
                    (rw (e, g) at h) in
                record {
                  history = current;
                  chain = chain;
                  there = g;
                  live = not_first current.live other fine;
                  found = found;
                  same = unchanged-Stands tx.snapshot chain same;
                }
          ]
        ]

  check_held-key :
      (d : Durable W) (tx : Transaction W) (held : List (Key × Bool)) (i : ℕ) (key : Key)
      → check_held d tx held ≡ ok tt
      → get_elem? held i ≡ some (key, true)
      → check_key d tx key ≡ ok tt
  unfolding check_held
  check_held-key d tx [] i key h g = cc
  check_held-key d tx ((k, b) ∷ held) zero key h g =
      subst (λ kb. (if kb.1 then check_key d tx kb.0 else ok tt) ≡ ok tt)
        (ap (λ o. unwrap_or {A = Key × Bool} o (k, b)) g)
        (seq-ok (if b then check_key d tx k else ok tt) (check_held d tx held) h).0
  check_held-key d tx ((k, b) ∷ held) (suc i) key h g =
      check_held-key d tx held i key
        (seq-ok (if b then check_key d tx k else ok tt) (check_held d tx held) h).1 g

  -- When `validate` accepts a transaction, that transaction is not aborted, and each row that it
  -- holds exclusively is in a live table and the value that the transaction's snapshot sees there is the
  -- one that stands.
  pub validate_lem :
      (s : State W) (token : Str) (writes : Bool) (tx : Transaction W) (i t id : ℕ)
      → validate s token writes ≡ ok tt
      → transaction_at token s.transactions ≡ some tx
      → get_elem? tx.held i ≡ some (row t id, true)
      → (tx.aborted ≡ none) × RowKept s.durable tx.snapshot t id
  unfolding validate
  validate_lem s token writes tx i t id h g held =
      let reads =
        reject_if (writes && (tx.serializable && not (all (still s.durable tx.snapshot) tx.reads)))
          (ascii "serialization_failure: serializable read changed") in
      let locks = check_held s.durable tx tx.held in
      let (alive, rest) = seq-ok (not_aborted tx.aborted) (locks >>= λ _. reads) (rw g at h) in
      (
        no_error tx.aborted alive,
        check_key-RowKept s.durable tx t id
            (check_held-key s.durable tx tx.held i (row t id) (seq-ok locks reads rest).0 held),
      )
