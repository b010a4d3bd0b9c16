-- ===== src/Mvcc/Publish/Rows.antt =====
-- The loops of `publish_changed` over one table, for a snapshot before the commit.
use chu_sql.Base.{
  ℕ, ◌+◌, ◌≤◌, ◌<◌, ◌≡◌, sym, ap, subst, ◌∙◌, inl, inr, true, Option, none, some, List, [], ◌∷◌,
  ◌++◌, leb, ◌==◌, is_some, All, arith, Bool-cases,
}
use chu_sql.Base.Assoc.{get}
use chu_sql.Protocol.{Wire}
use chu_sql.Mvcc.{Version, find_last, sees}
use chu_sql.Mvcc.Publish.{RowTests, put_ordered, close, new_version}
use chu_sql.Mvcc.Publish.Chains.{
  Asc, put_ordered-Asc, get-put_ordered, Closable, chain_view, row_view, close_view, close-Closable,
  append_view, append-Closable, table_view, table_view-put_ordered,
}

module _ {W : Wire} (T : RowTests W) (s csn c n0 : ℕ) (before : s < csn) where
  -- The chains under the numbers of some rows can be closed without a trace for the snapshot.
  abbrev pub Free : List (ℕ × Version W.Row) → List (ℕ × List (Version W.Row)) → Type 0
  Free old rows =
      All
        (λ (e : ℕ × Version W.Row).
          (chain : List (Version W.Row)) → get e.0 rows ≡ some chain → Closable s chain)
        old

  -- What is seen at the last commit can be closed, too.
  abbrev pub Live : List (ℕ × List (Version W.Row)) → Type 0
  Live rows =
      (i : ℕ) (chain : List (Version W.Row))
      → get i rows ≡ some chain
      → is_some (find_last (sees c) chain) ≡ true
      → Closable s chain

  -- Where the loops stand: the snapshot sees `seen`, and row numbers from `next_row` on are free.
  abbrev pub Safe :
      List (ℕ × Version W.Row)
      → List (ℕ × Version W.Row)
      → ℕ
      → List (ℕ × List (Version W.Row))
      → Type 0
  Safe old seen next_row rows =
      Asc rows
      × ((i : ℕ) → next_row < i → get i rows ≡ none)
      × Free old rows
      × (table_view s rows ≡ seen)
      × Live rows
      × (n0 ≤ next_row)

  Free-put :
      (old : List (ℕ × Version W.Row)) (id : ℕ) (chain : List (Version W.Row))
      (rows : List (ℕ × List (Version W.Row)))
      → Asc rows
      → Closable s chain
      → Free old rows
      → Free old (put_ordered id chain rows)
  Free-put [] id chain rows a c f = tt
  Free-put ((i, v) ∷ old) id chain rows a c (f, rest) = (
    λ chain' e. elim (Bool-cases (id == i)) [
      | inl y ↦
          let same : some chain ≡ some chain' = (rw (get-put_ordered i id chain rows a, y) at e) in
          subst
            (λ (o : Option (List (Version W.Row))).
              Closable s (elim o [ none ↦ chain | some x ↦ x ]))
            same c
      | inr n ↦ f chain' (rw (get-put_ordered i id chain rows a, n) at e)
    ],
    Free-put old id chain rows a c rest,
  )

  Live-put :
      (id : ℕ) (chain : List (Version W.Row)) (rows : List (ℕ × List (Version W.Row)))
      → Asc rows
      → Closable s chain
      → Live rows
      → Live (put_ordered id chain rows)
  Live-put id chain rows a c' f i chain' e v = elim (Bool-cases (id == i)) [
    | inl y ↦
        let same : some chain ≡ some chain' = (rw (get-put_ordered i id chain rows a, y) at e) in
        subst
          (λ (o : Option (List (Version W.Row))). Closable s (elim o [ none ↦ chain | some x ↦ x ]))
          same c'
    | inr n ↦ f i chain' (rw (get-put_ordered i id chain rows a, n) at e) v
  ]

  -- A chain is put in that the snapshot sees as the one before.
  Safe-put :
      (old seen : List (ℕ × Version W.Row)) (n n' id : ℕ) (chain : List (Version W.Row))
      (rows : List (ℕ × List (Version W.Row)))
      → n ≤ n'
      → id ≤ n'
      → Closable s chain
      → chain_view s chain ≡ row_view s (get id rows)
      → Safe old seen n rows
      → Safe old seen n' (put_ordered id chain rows)
  Safe-put old seen n n' id chain rows h g c' e (a, f, r, t, l, m) = (
    put_ordered-Asc id chain rows a,
    λ i k. elim (Bool-cases (id == i)) [
      | inl y ↦ absurd (ground (arith, y))
      | inr x ↦ rw (get-put_ordered i id chain rows a, x) (f i (omega arith))
    ],
    Free-put old id chain rows a c' r,
    table_view-put_ordered s id chain rows a e ∙ t,
    Live-put id chain rows a c' l,
    omega (arith, m),
  )

  pub Safe-new :
      (old seen : List (ℕ × Version W.Row)) (n value_begin order : ℕ) (row : W.Row)
      (rows : List (ℕ × List (Version W.Row)))
      → Safe old seen n rows
      → Safe old seen
          (n + 1)
          (put_ordered (n + 1) (new_version T csn value_begin order row ∷ []) rows)
  Safe-new old seen n value_begin order row rows (a, f, r, t, l, m) =
      let w = new_version T csn value_begin order row in
      Safe-put old seen n (n + 1) (n + 1) (w ∷ []) rows (omega arith) (omega arith) (inr before)
        (append_view s csn before [] w (omega arith)
          ∙ ap (row_view s) (sym (f (n + 1) (omega arith))))
        (a, f, r, t, l, m)

  present :
      (n id : ℕ) (chain : List (Version W.Row)) (rows : List (ℕ × List (Version W.Row)))
      → ((i : ℕ) → n < i → get i rows ≡ none)
      → get id rows ≡ some chain
      → id ≤ n
  present n id chain rows f e = elim (Bool-cases (leb id n)) [
    | inl y ↦ ground (arith, y)
    | inr x ↦ absurd (ground (arith, f id (ground (arith, x)), e))
  ]

  pub Safe-push :
      (old seen : List (ℕ × Version W.Row)) (n id value_begin order : ℕ) (row : W.Row)
      (chain : List (Version W.Row)) (rows : List (ℕ × List (Version W.Row)))
      → get id rows ≡ some chain
      → Closable s chain
      → Safe old seen n rows
      → Safe old seen n
          (put_ordered id (close csn chain ++ new_version T csn value_begin order row ∷ []) rows)
  Safe-push old seen n id value_begin order row chain rows e c (a, f, r, t, l, m) =
      let w = new_version T csn value_begin order row in
      Safe-put old seen n n id (close csn chain ++ w ∷ []) rows (omega arith)
        (present n id chain rows f e)
        (append-Closable s csn before (close csn chain) w (omega arith))
        (append_view s csn before (close csn chain) w (omega arith)
          ∙ close_view s csn before chain c
          ∙ ap (row_view s) (sym e))
        (a, f, r, t, l, m)

  pub Safe-end :
      (old seen : List (ℕ × Version W.Row)) (n id : ℕ) (chain : List (Version W.Row))
      (rows : List (ℕ × List (Version W.Row)))
      → get id rows ≡ some chain
      → Closable s chain
      → Safe old seen n rows
      → Safe old seen n (put_ordered id (close csn chain) rows)
  Safe-end old seen n id chain rows e c (a, f, r, t, l, m) =
      Safe-put old seen n n id (close csn chain) rows (omega arith) (present n id chain rows f e)
        (close-Closable s csn before chain)
        (close_view s csn before chain c ∙ ap (row_view s) (sym e)) (a, f, r, t, l, m)
