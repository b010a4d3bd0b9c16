-- ===== src/Mvcc/Publish/Loops.antt =====
-- The loops of `publish_changed` over one table keep what a snapshot before the commit sees.
use chu_sql.Base.{
  ℕ, suc, ◌+◌, ◌^◌, ◌<◌, ◌≡◌, refl, subst, inl, inr, Bool, not, ◌&&◌, Option, none, some, List, [],
  ◌∷◌, find, get_elem?, leb, ◌==◌, if◌then◌else◌, All, zero, Bool-cases, Option-cases, Result, ok,
  err, ◌>>=◌,
}
use chu_sql.Base.Assoc.{get, member}
use chu_sql.Base.Bytes.{Bytes}
use chu_sql.Base.Text.{Str}
use chu_sql.Protocol.{Wire}
use chu_sql.Mvcc.{Version}
use chu_sql.Mvcc.Publish.{
  RowTests, Progress, find_prior, prior_by, old_at, take_first, publish_new, push_version,
  publish_old, publish_row, publish_rows, end_row, end_rows,
}
use chu_sql.Mvcc.Publish.Chains.{Closable}
use chu_sql.Mvcc.Publish.Rows.{Free, Safe, Safe-new, Safe-push, Safe-end}

All-find {ℓ} :
    {A : Type ℓ} (P : A → Type 0) (p : A → Bool) (xs : List A) (x : A)
    → All P xs
    → find p xs ≡ some x
    → P x
All-find P p [] x h e = cc
All-find P p (y ∷ xs) x (h, hs) e = elim (Bool-cases (p y)) [
  | inl z ↦ subst (λ o. elim o [ none ↦ P y | some v ↦ P v ]) (rw z at e) h
  | inr z ↦ All-find P p xs x hs (rw z at e)
]

All-get_elem {ℓ} :
    {A : Type ℓ} (P : A → Type 0) (i : ℕ) (xs : List A) (x : A)
    → All P xs
    → get_elem? xs i ≡ some x
    → P x
All-get_elem P i [] x h e = cc
All-get_elem P zero (y ∷ xs) x (h, hs) e = subst (λ o. elim o [ none ↦ P y | some v ↦ P v ]) e h
All-get_elem P (suc i) (y ∷ xs) x (h, hs) e = All-get_elem P i xs x hs e

module _ {W : Wire} (T : RowTests W) (s csn last n0 : ℕ) (before : s < csn)
    (old seen : List (ℕ × Version W.Row)) where
  abbrev SafeAt : Progress W → Type 0
  SafeAt p = Safe T s csn last n0 before old seen p.next_row p.rows

  -- The loop goes on safely, or publishing fails.
  abbrev pub After : Result Str (Progress W) → Type 0
  After (ok p) = SafeAt p
  After (err e) = Unit {0}

  -- What the row chosen as the prior one allows.
  abbrev Choice : List (ℕ × List (Version W.Row)) → Option (ℕ × Version W.Row) → Type 0
  Choice rows none = Unit {0}
  Choice rows (some (id, v)) =
      (chain : List (Version W.Row)) → get id rows ≡ some chain → Closable s chain

  Choice-find :
      (rows : List (ℕ × List (Version W.Row))) (p : ℕ × Version W.Row → Bool)
      → Free T s csn last n0 before old rows
      → Choice rows (find p old)
  Choice-find rows p f = elim (Option-cases (find p old)) [
    | inl e ↦ rw e tt
    | inr (x, e) ↦ rw e (
        All-find
          (λ (y : ℕ × Version W.Row).
            (chain : List (Version W.Row)) → get y.0 rows ≡ some chain → Closable s chain)
          p old x f e)
  ]

  Choice-at :
      (rows : List (ℕ × List (Version W.Row))) (i : ℕ)
      → Free T s csn last n0 before old rows
      → Choice rows (get_elem? old i)
  Choice-at rows i f = elim (Option-cases (get_elem? old i)) [
    | inl e ↦ rw e tt
    | inr (x, e) ↦ rw e (
        All-get_elem
          (λ (y : ℕ × Version W.Row).
            (chain : List (Version W.Row)) → get y.0 rows ≡ some chain → Closable s chain)
          i old x f e)
  ]

  Choice-prior :
      (row : W.Row) (p : Progress W)
      → Free T s csn last n0 before old p.rows
      → Choice p.rows ((find_prior T old row p).0)
  Choice-prior row p f = go (T.id_key row)
    where
      at_position : (o : Option ℕ) → Choice p.rows (old_at T old o)
      at_position none = tt
      at_position (some i) = Choice-at p.rows i f

      go : (o : Option Bytes) → Choice p.rows ((prior_by T old row p o).0)
      go none = Choice-find p.rows (λ (id, v). not (member id p.used) && T.row_eq v.row row) f
      go (some key) = at_position ((take_first key p.positions).0)

  push_version-After :
      (order : ℕ) (row : W.Row) (id : ℕ) (previous : Version W.Row)
      (found : Option (List (Version W.Row))) (p : Progress W)
      → get id p.rows ≡ found
      → ((chain : List (Version W.Row)) → get id p.rows ≡ some chain → Closable s chain)
      → SafeAt p
      → After (push_version T csn order row id previous found p)
  push_version-After order row id previous none p e c h = tt
  push_version-After order row id previous (some []) p e c h = tt
  push_version-After order row id previous (some (v ∷ chain)) p e c h =
      Safe-push T s csn last n0 before old seen p.next_row id
        (if T.row_eq previous.row row then previous.value_begin else csn) order row (v ∷ chain)
        p.rows e (c (v ∷ chain) e) h

  publish_old-After :
      (order : ℕ) (row : W.Row) (id : ℕ) (previous : Version W.Row) (p : Progress W)
      → ((chain : List (Version W.Row)) → get id p.rows ≡ some chain → Closable s chain)
      → SafeAt p
      → After (publish_old T csn order row id previous p)
  publish_old-After order row id previous p c h =
      elim (Bool-cases (T.row_eq previous.row row && previous.order == order)) [
        | inl y ↦ rw y h
        | inr n ↦ rw n (elim (Bool-cases (previous.begin == csn)) [
          | inl y ↦ rw y tt
          | inr z ↦ rw z (
              push_version-After order row id previous (get id p.rows)
                (record p { used = id ∷ p.used }) refl c h)
        ])
      ]

  publish_row-After :
      (order : ℕ) (row : W.Row) (p : Progress W)
      → SafeAt p
      → After (publish_row T csn old order row p)
  unfolding publish_row
  publish_row-After order row p h =
      go ((find_prior T old row p).0) ((find_prior T old row p).1) (Choice-prior row p (h.2))
    where
      go :
          (prior : Option (ℕ × Version W.Row)) (rest : List (Bytes × ℕ))
          → Choice p.rows prior
          → After (elim prior [
            | none ↦ publish_new T csn order row (record p { positions = rest })
            | some (id, previous) ↦
                publish_old T csn order row id previous (record p { positions = rest })
          ])
      go none rest c = elim (Bool-cases (leb (2 ^ 64) (p.next_row + 1))) [
        | inl y ↦ rw y tt
        | inr n ↦ rw n (Safe-new T s csn last n0 before old seen p.next_row csn order row p.rows h)
      ]
      go (some (id, previous)) rest c =
          publish_old-After order row id previous (record p { positions = rest }) c h

  bind-After :
      (r : Result Str (Progress W)) (f : Progress W → Result Str (Progress W))
      → After r
      → ((p : Progress W) → SafeAt p → After (f p))
      → After (r >>= f)
  bind-After (ok p) f h k = k p h
  bind-After (err e) f h k = tt

  pub publish_rows-After :
      (order : ℕ) (rows : List W.Row) (p : Progress W)
      → SafeAt p
      → After (publish_rows T csn old order rows p)
  unfolding publish_rows
  publish_rows-After order [] p h = h
  publish_rows-After order (row ∷ rows) p h =
      bind-After (publish_row T csn old order row p) (publish_rows T csn old (suc order) rows)
        (publish_row-After order row p h) (publish_rows-After (suc order) rows)

  end_row-After :
      (id : ℕ) (found : Option (List (Version W.Row))) (p : Progress W)
      → get id p.rows ≡ found
      → ((chain : List (Version W.Row)) → get id p.rows ≡ some chain → Closable s chain)
      → SafeAt p
      → After (end_row T csn id found p)
  end_row-After id none p e c h = tt
  end_row-After id (some []) p e c h = tt
  end_row-After id (some (v ∷ chain)) p e c h =
      Safe-end T s csn last n0 before old seen p.next_row id (v ∷ chain) p.rows e (c (v ∷ chain) e)
        h

  -- The rows still to be looked at are rows that were there.
  pub end_rows-After :
      (todo : List (ℕ × Version W.Row)) (p : Progress W)
      → ((q : Progress W) → SafeAt q → Free T s csn last n0 before todo q.rows)
      → SafeAt p
      → After (end_rows T csn todo p)
  unfolding end_rows
  end_rows-After [] p f h = h
  end_rows-After ((id, previous) ∷ todo) p f h = elim (Bool-cases (member id p.used)) [
    | inl y ↦ rw y (end_rows-After todo p (λ q g. (f q g).1) h)
    | inr n ↦ rw n (elim (Bool-cases (previous.begin == csn)) [
      | inl y ↦ rw y tt
      | inr z ↦ rw z (
          bind-After (end_row T csn id (get id p.rows) p) (end_rows T csn todo)
            (end_row-After id (get id p.rows) p refl ((f p h).0) h)
            (λ q g. end_rows-After todo q (λ q' g'. (f q' g').1) g))
    ])
  ]
