-- ===== src/Mvcc/Exclusion.antt =====
-- The lock table of mvcc.rs excludes: two active transactions share a key only in shared mode.
use chu_sql.Base.{
  ◌≡◌, refl, sym, ap, ◌∙◌, ◌⊎◌, inl, inr, Bool, true, false, ◌||◌, none, some, List, [], ◌∷◌, map,
  filter, arith, bytes_eq, bytes_eq_refl, bytes_eq→eq, eqb→eq, option_map, unwrap_or, if◌then◌else◌,
  Bool-cases, Option-cases,
}
use chu_sql.Base.Text.{Str}
use chu_sql.Protocol.{Wire}
use chu_sql.Mvcc.{
  Key, table, row, unique, key_eq, held_at, hold, Transaction, State, transaction_at, blocks,
  blockers, update, put_transaction,
}

key_eq→eq : (k j : Key) → key_eq k j ≡ true → k ≡ j
key_eq→eq (table i) (table j) h = ap table (eqb→eq i j h)
key_eq→eq (row i r) (row j q) h = ground (arith)
key_eq→eq (unique i c v) (unique j d w) h = ground (arith, bytes_eq→eq c d, bytes_eq→eq v w)
key_eq→eq (table i) (row j q) h = ground (arith)
key_eq→eq (table i) (unique j d w) h = ground (arith)
key_eq→eq (row i r) (table j) h = ground (arith)
key_eq→eq (row i r) (unique j d w) h = ground (arith)
key_eq→eq (unique i c v) (table j) h = ground (arith)
key_eq→eq (unique i c v) (row j q) h = ground (arith)

key_eq_refl : (k : Key) → key_eq k k ≡ true
key_eq_refl (table i) = ground arith
key_eq_refl (row i r) = ground arith
key_eq_refl (unique i c v) = ground (arith, bytes_eq_refl c, bytes_eq_refl v)

-- The key that was asked for is held afterwards, in exclusive mode if it was or should be.
held_at-hold :
    (key : Key) (exclusive : Bool) (held : List (Key × Bool))
    → held_at key (hold key exclusive held) ≡ some (unwrap_or (held_at key held) false || exclusive)
held_at-hold key exclusive [] = rw (key_eq_refl key)
held_at-hold key exclusive ((j, x) ∷ held) = elim (Bool-cases (key_eq j key)) [
  | inl y ↦ rw y (rw y)
  | inr z ↦ rw z (rw z (held_at-hold key exclusive held))
]

held_at-hold_other :
    (key k : Key) (exclusive : Bool) (held : List (Key × Bool))
    → key_eq key k ≡ false
    → held_at k (hold key exclusive held) ≡ held_at k held
held_at-hold_other key k exclusive [] ne = rw ne
held_at-hold_other key k exclusive ((j, x) ∷ held) ne = elim (Bool-cases (key_eq j key)) [
  | inl y ↦ rw (y, key_eq→eq j key y, ne)
  | inr z ↦ elim (Bool-cases (key_eq j k)) [
    | inl here ↦ rw z (rw here)
    | inr there ↦ rw z (rw there (held_at-hold_other key k exclusive held ne))
  ]
]

pub bytes_eq_sym : (k j : Str) → bytes_eq k j ≡ false → bytes_eq j k ≡ false
bytes_eq_sym k j h = elim (Bool-cases (bytes_eq j k)) [
  | inl y ↦ absurd (ground (arith, h, bytes_eq_refl k, ap (bytes_eq k) (bytes_eq→eq j k y)))
  | inr z ↦ z
]

module _ {W : Wire} where
  pub transaction_at-update :
      (t token : Str) (f : Transaction W → Transaction W) (s : State W)
      → transaction_at t (update token f s).transactions
        ≡ option_map (λ tx. if bytes_eq t token then f tx else tx) (transaction_at t s.transactions)
  transaction_at-update t token f s = walk s.transactions
    where
      walk :
          (txs : List (Str × Transaction W))
          → transaction_at t (map (λ (t, tx). (t, if bytes_eq t token then f tx else tx)) txs)
            ≡ option_map (λ tx. if bytes_eq t token then f tx else tx) (transaction_at t txs)
      walk [] = refl
      walk ((u, x) ∷ txs) = elim (Bool-cases (bytes_eq u t)) [
        | inl y ↦ rw y (rw (bytes_eq→eq u t y))
        | inr z ↦ rw z (walk txs)
      ]

  pub transaction_at-put :
      (t token : Str) (tx : Transaction W) (txs : List (Str × Transaction W))
      → transaction_at t (put_transaction token tx txs)
        ≡ (if bytes_eq token t then some tx else transaction_at t txs)
  transaction_at-put t token tx [] = refl
  transaction_at-put t token tx ((u, x) ∷ txs) = elim (Bool-cases (bytes_eq u token)) [
    | inl y ↦ elim (Bool-cases (bytes_eq token t)) [
      | inl a ↦ rw y (rw (bytes_eq→eq u token y, a))
      | inr b ↦ rw y (rw (bytes_eq→eq u token y, b))
    ]
    | inr z ↦ elim (Bool-cases (bytes_eq u t)) [
      | inl here ↦
          let other : bytes_eq token t ≡ false =
            rw (← bytes_eq→eq u t here) (bytes_eq_sym u token z) in
          rw z (rw (here, other))
      | inr there ↦ rw z (rw (there, transaction_at-put t token tx txs))
    ]
  ]

  -- No entry of the transactions blocks when there are no blockers.
  unblocked :
      (token t : Str) (key : Key) (exclusive b : Bool) (x : Transaction W)
      (txs : List (Str × Transaction W))
      → map (λ (t, tx). t) (filter (blocks token key exclusive) txs) ≡ []
      → transaction_at t txs ≡ some x
      → bytes_eq t token ≡ false
      → x.aborted ≡ none
      → held_at key x.held ≡ some b
      → (b || exclusive) ≡ false
  unblocked token t key exclusive b x [] free h ne a k = ground (arith, h)
  unblocked token t key exclusive b x ((u, y) ∷ txs) free h ne a k =
      elim (Bool-cases (blocks token key exclusive (u, y))) [
        | inl bad ↦ absurd (ground (arith, rw bad at free))
        | inr fine ↦ elim (Bool-cases (bytes_eq u t)) [
          | inr there ↦
              unblocked token t key exclusive b x txs (rw fine at free) (rw there at h) ne a k
          | inl here ↦
              let same : y ≡ x = ap (λ o. unwrap_or o y) (rw here at h) in
              let free_of : blocks token key exclusive (t, x) ≡ false =
                ap (λ z. blocks token key exclusive z)
                  (sym (ap (λ u. (u, y)) (bytes_eq→eq u t here) ∙ ap (λ y. (t, y)) same))
                ∙ fine in
              rw (ne, a, k) at free_of
        ]
      ]

  -- Two active transactions that hold the same key both hold it in shared mode.
  abbrev pub Exclusive : State W → Type 0
  Exclusive s =
      (t u : Str) (x y : Transaction W) (key : Key) (b c : Bool)
      → bytes_eq t u ≡ false
      → transaction_at t s.transactions ≡ some x
      → transaction_at u s.transactions ≡ some y
      → x.aborted ≡ none
      → y.aborted ≡ none
      → held_at key x.held ≡ some b
      → held_at key y.held ≡ some c
      → (b ≡ false) × (c ≡ false)

  -- The locks of a transaction, as others see them.
  abbrev pub Hides : Transaction W → Transaction W → Type 0
  Hides x x' =
      x'.aborted ≡ none
      → (x.aborted ≡ none)
        × ((key : Key) (b : Bool) → held_at key x'.held ≡ some b → held_at key x.held ≡ some b)

  -- A state whose transactions hold nothing that they did not hold before excludes as well.
  pub Exclusive-shrink :
      (s s' : State W)
      → ((t : Str) (x' : Transaction W)
          → transaction_at t s'.transactions ≡ some x'
          → (x'.held ≡ [])
            ⊎ ((x : Transaction W) × (transaction_at t s.transactions ≡ some x) × Hides x x'))
      → Exclusive s
      → Exclusive s'
  Exclusive-shrink s s' f e t u x y key b c ne tx ty ax ay hx hy = elim (f t x tx) [
    | inl empty ↦ absurd (ground (arith, rw empty at hx))
    | inr (x0, t0, hide) ↦ elim (f u y ty) [
      | inl empty ↦ absurd (ground (arith, rw empty at hy))
      | inr (y0, u0, hide_y) ↦
          e t u x0 y0 key b c ne t0 u0 (hide ax).0 (hide_y ay).0 ((hide ax).1 key b hx)
            ((hide_y ay).1 key c hy)
    ]
  ]

  -- What a grant gives the token against one other active transaction.
  pub grant_pair :
      (s : State W) (token u : Str) (x y : Transaction W) (k key : Key) (exclusive b c : Bool)
      → Exclusive s
      → blockers token k exclusive s ≡ []
      → bytes_eq token u ≡ false
      → transaction_at token s.transactions ≡ some x
      → transaction_at u s.transactions ≡ some y
      → x.aborted ≡ none
      → y.aborted ≡ none
      → held_at key (hold k exclusive x.held) ≡ some b
      → held_at key y.held ≡ some c
      → (b ≡ false) × (c ≡ false)
  unfolding blockers
  grant_pair s token u x y k key exclusive b c e free ne tx ty ax ay hx hy =
      elim (Bool-cases (key_eq k key)) [
        | inr other ↦
            e token u x y key b c ne tx ty ax ay
              (sym (held_at-hold_other k key exclusive x.held other) ∙ hx) hy
        | inl same ↦
            let hy' : held_at k y.held ≡ some c =
              ap (λ k. held_at k y.held) (key_eq→eq k key same) ∙ hy in
            let clear =
              unblocked token u k exclusive c y s.transactions free ty (bytes_eq_sym token u ne) ay
                hy' in
            let now : b ≡ (unwrap_or (held_at k x.held) false || exclusive) =
              ap (λ o. unwrap_or o false)
                (sym hx
                  ∙ ap (λ j. held_at j (hold k exclusive x.held)) (sym (key_eq→eq k key same))
                  ∙ held_at-hold k exclusive x.held) in
            elim (Option-cases (held_at k x.held)) [
              | inl nothing ↦ ground (arith, rw nothing at now)
              | inr (b0, before) ↦
                  ground (arith, rw before at now, e token u x y k b0 c ne tx ty ax ay before hy')
            ]
      ]
