-- ===== src/Mvcc/Publish/Chains.antt =====
-- Version chains and rows under the changes that `publish_changed` of mvcc.rs makes: what a snapshot
-- before the commit sees of them.
use chu_sql.Base.{
  ℕ, ◌≤◌, ◌<◌, ◌≡◌, refl, sym, ap, subst, ◌∙◌, ◌⊎◌, inl, inr, Bool, true, false, Option, none, some,
  List, [], ◌∷◌, ◌++◌, map, ltb, ◌==◌, if◌then◌else◌, is_some, All, arith, Bool-cases, Option-cases,
  eqb→eq, option_map,
}
use chu_sql.Base.Assoc.{get}
use chu_sql.Mvcc.{Version, find_last, sees, outlives, visible_rows}
use chu_sql.Mvcc.Publish.{put_ordered, close, close_open}

-- The keys of an ordered map.
abbrev pub Asc {ℓ} : {A : Type ℓ} → List (ℕ × A) → Type ℓ
Asc [] = Unit
Asc ((i, v) ∷ m) = All (λ t. i < t.0) m × Asc m

module _ {ℓ} {A : Type ℓ} where
  put_ordered-All :
      (b k : ℕ) (v : A) (m : List (ℕ × A))
      → b < k
      → All (λ t. b < t.0) m
      → All (λ t. b < t.0) (put_ordered k v m)
  put_ordered-All b k v [] h a = (h, tt)
  put_ordered-All b k v ((j, w) ∷ m) h (a, rest) = elim (Bool-cases (j == k)) [
    | inl y ↦ rw y (h, rest)
    | inr n ↦ rw n (elim (Bool-cases (ltb k j)) [
      | inl y ↦ rw y (h, (a, rest))
      | inr z ↦ rw z (a, put_ordered-All b k v m h rest)
    ])
  ]

  All-lt : (b k : ℕ) (m : List (ℕ × A)) → b < k → All (λ t. k < t.0) m → All (λ t. b < t.0) m
  All-lt b k [] h a = tt
  All-lt b k ((j, w) ∷ m) h (a, rest) = (omega arith, All-lt b k m h rest)

  pub put_ordered-Asc : (k : ℕ) (v : A) (m : List (ℕ × A)) → Asc m → Asc (put_ordered k v m)
  put_ordered-Asc k v [] h = (tt, tt)
  put_ordered-Asc k v ((j, w) ∷ m) (a, h) = elim (Bool-cases (j == k)) [
    | inl y ↦ rw y (subst (λ x. All (λ t. x < t.0) m) (eqb→eq j k y) a, h)
    | inr n ↦ rw n (elim (Bool-cases (ltb k j)) [
      | inl y ↦ rw y ((ground (arith, y), All-lt k j m (ground (arith, y)) a), (a, h))
      | inr z ↦ rw z (put_ordered-All j k v m (ground (arith, n, z)) a, put_ordered-Asc k v m h)
    ])
  ]

  pub get_below : (k : ℕ) (m : List (ℕ × A)) → All (λ t. k < t.0) m → get k m ≡ none
  get_below k [] h = refl
  get_below k ((j, w) ∷ m) (a, h) = ground (arith, get_below k m h)

  pub get-put_ordered :
      (i k : ℕ) (v : A) (m : List (ℕ × A))
      → Asc m
      → get i (put_ordered k v m) ≡ (if k == i then some v else get i m)
  get-put_ordered i k v [] h = refl
  get-put_ordered i k v ((j, w) ∷ m) (a, h) = elim (Bool-cases (j == k)) [
    | inl y ↦ rw y (elim (Bool-cases (k == i)) [ inl z ↦ rw z | inr z ↦ rw (eqb→eq j k y, z) ])
    | inr n ↦ rw n (elim (Bool-cases (ltb k j)) [
      | inl y ↦ rw y
      | inr z ↦ rw z (elim (Bool-cases (j == i)) [
        | inl x ↦ rw x (ground (arith, n, x, eqb→eq j i x))
        | inr x ↦ rw x (get-put_ordered i k v m h)
      ])
    ])
  ]

module _ {Row : Type 0} where
  -- A version without its end, which readers do not look at.
  abbrev pub erase : Version Row → Version Row
  erase v = record v { end = none }

  -- The last version has not ended by `csn`, or begins behind it.
  abbrev pub Closable : ℕ → List (Version Row) → Type 0
  Closable csn [] = Unit {0}
  Closable csn (v ∷ []) = (outlives csn v ≡ true) ⊎ (csn < v.begin)
  Closable csn (v ∷ w ∷ chain) = Closable csn (w ∷ chain)

  -- What a snapshot sees of a chain, and of a chain that may be missing.
  abbrev pub chain_view : ℕ → List (Version Row) → Option (Version Row)
  chain_view csn chain = option_map erase (find_last (sees csn) chain)

  abbrev pub row_view : ℕ → Option (List (Version Row)) → Option (Version Row)
  row_view csn none = none
  row_view csn (some chain) = chain_view csn chain

  module _ (s csn : ℕ) (before : s < csn) where
    sees_ended :
        (v : Version Row)
        → (outlives s v ≡ true) ⊎ (s < v.begin)
        → sees s (record v { end = some csn }) ≡ sees s v
    sees_ended v (inl o) = ground (arith, o)
    sees_ended v (inr b) = ground (arith, b)

    if_erase :
        (b : Bool) (v : Version Row)
        → option_map erase (if b then some (record v { end = some csn }) else none)
          ≡ option_map erase (if b then some v else none)
    if_erase true v = refl
    if_erase false v = refl

    not_ended : (v : Version Row) → is_some v.end ≡ false → outlives s v ≡ true
    not_ended v n = ground (arith, n)

    view_step :
        (v : Version Row) (chain chain' : List (Version Row))
        → chain_view s chain' ≡ chain_view s chain
        → chain_view s (v ∷ chain') ≡ chain_view s (v ∷ chain)
    view_step v chain chain' e = elim (Option-cases (find_last (sees s) chain)) [
      | inl a ↦ elim (Option-cases (find_last (sees s) chain')) [
        | inl b ↦ rw (a, b)
        | inr (x, b) ↦ absurd (ground (arith, a, b, e))
      ]
      | inr (x, a) ↦ elim (Option-cases (find_last (sees s) chain')) [
        | inl b ↦ absurd (ground (arith, a, b, e))
        | inr (y, b) ↦ rw (a, b) (rw (a, b) at e)
      ]
    ]

    pub close_view :
        (chain : List (Version Row))
        → Closable s chain
        → chain_view s (close csn chain) ≡ chain_view s chain
    close_view [] c = refl
    close_view (v ∷ []) c = rw (sees_ended v c) (if_erase (sees s v) v)
    close_view (v ∷ w ∷ chain) c =
        view_step v (w ∷ chain) (close csn (w ∷ chain)) (close_view (w ∷ chain) c)

    pub close-Closable : (chain : List (Version Row)) → Closable s (close csn chain)
    close-Closable [] = tt
    close-Closable (v ∷ []) = inl (ground arith)
    close-Closable (v ∷ w ∷ []) = inl (ground arith)
    close-Closable (v ∷ w ∷ x ∷ chain) = close-Closable (w ∷ x ∷ chain)

    pub close_open_view :
        (chain : List (Version Row)) → chain_view s (close_open csn chain) ≡ chain_view s chain
    close_open_view [] = refl
    close_open_view (v ∷ []) = elim (Bool-cases (is_some v.end)) [
      | inl y ↦ rw y refl
      | inr n ↦ rw (n, sees_ended v (inl (not_ended v n))) (if_erase (sees s v) v)
    ]
    close_open_view (v ∷ w ∷ chain) =
        view_step v (w ∷ chain) (close_open csn (w ∷ chain)) (close_open_view (w ∷ chain))

    pub append_view :
        (chain : List (Version Row)) (w : Version Row)
        → csn ≤ w.begin
        → chain_view s (chain ++ w ∷ []) ≡ chain_view s chain
    append_view [] w h = ground (arith, h)
    append_view (v ∷ chain) w h = view_step v chain (chain ++ w ∷ []) (append_view chain w h)

    pub append-Closable :
        (chain : List (Version Row)) (w : Version Row)
        → csn ≤ w.begin
        → Closable s (chain ++ w ∷ [])
    append-Closable [] w h = inr (omega arith)
    append-Closable (v ∷ []) w h = inr (omega arith)
    append-Closable (v ∷ x ∷ chain) w h = append-Closable (x ∷ chain) w h

  -- The rows that a snapshot sees, in the order of their numbers.
  abbrev pub erase_row : ℕ × Version Row → ℕ × Version Row
  erase_row (id, v) = (id, erase v)

  unfoldable pub table_view : ℕ → List (ℕ × List (Version Row)) → List (ℕ × Version Row)
  table_view csn rows = map erase_row (visible_rows csn rows)

  module _ (s : ℕ) where
    pub view_entry : ℕ → Option (Version Row) → List (ℕ × Version Row) → List (ℕ × Version Row)
    view_entry id none rest = rest
    view_entry id (some v) rest = (id, v) ∷ rest

    view_none : (id : ℕ) (rest : List (ℕ × Version Row)) → view_entry id none rest ≡ rest
    unfolding view_entry
    view_none id rest = refl

    pub table_view-cons :
        (id : ℕ) (chain : List (Version Row)) (rows : List (ℕ × List (Version Row)))
        → table_view s ((id, chain) ∷ rows) ≡ view_entry id (chain_view s chain) (table_view s rows)
    unfolding table_view visible_rows view_entry
    table_view-cons id chain rows = elim (Option-cases (find_last (sees s) chain)) [
      | inl a ↦ rw (visible_rows, a)
      | inr (v, a) ↦ rw (visible_rows, a)
    ]

    -- A chain is put in place of one that looks the same to the snapshot, or of none if it is not
    -- seen.
    pub table_view-put_ordered :
        (id : ℕ) (chain : List (Version Row)) (rows : List (ℕ × List (Version Row)))
        → Asc rows
        → chain_view s chain ≡ row_view s (get id rows)
        → table_view s (put_ordered id chain rows) ≡ table_view s rows
    table_view-put_ordered id chain [] h e =
        table_view-cons id chain []
        ∙ ap (λ o. view_entry id o (table_view s [])) e
        ∙ view_none id (table_view s [])
    table_view-put_ordered id chain ((j, c) ∷ rows) (a, h) e = elim (Bool-cases (j == id)) [
      | inl y ↦ rw y (
          table_view-cons id chain rows
          ∙ ap (λ o. view_entry id o (table_view s rows)) (rw y at e)
          ∙ ap (λ k. view_entry k (chain_view s c) (table_view s rows)) (sym (eqb→eq j id y))
          ∙ sym (table_view-cons j c rows))
      | inr n ↦ rw n (elim (Bool-cases (ltb id j)) [
        | inl y ↦ rw y (
            table_view-cons id chain ((j, c) ∷ rows)
            ∙ ap (λ o. view_entry id o (table_view s ((j, c) ∷ rows)))
                ((rw n at e)
                  ∙ ap (row_view s) (get_below id rows (All-lt id j rows (ground (arith, y)) a)))
            ∙ view_none id (table_view s ((j, c) ∷ rows)))
        | inr z ↦ rw z (
            table_view-cons j c (put_ordered id chain rows)
            ∙ ap (view_entry j (chain_view s c))
                (table_view-put_ordered id chain rows h (rw n at e))
            ∙ sym (table_view-cons j c rows))
      ])
    ]
