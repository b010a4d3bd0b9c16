-- ===== src/Mvcc/Steps.antt =====
-- Which methods of mvcc.rs keep the exclusion of the lock table: all that touch the transactions.
use chu_sql.Base.{
  ℕ, ◌≡◌, refl, sym, ap, subst, not, ◌∙◌, ◌⊎◌, inl, inr, Bool, true, false, Option, none, some,
  List, [], ◌∷◌, option_map, map, filter, arith, bytes_eq, bytes_eq→eq, if◌then◌else◌, Bool-cases,
  unwrap_or, Result, ok, err, leb, ◌+◌, ◌^◌,
}
use chu_sql.Base.Bytes.{option_map-eq-some}
use chu_sql.Base.Text.{Str}
use chu_sql.Protocol.{Wire, TableSchemaWire}
use chu_sql.Mvcc.{
  Key, Transaction, State, held_at, hold, transaction_at, update, blockers, attempt, abort, finish,
  begin_selected, put_transaction, release, release_all, enter, prune, mark_aborted, snapshot_rows,
}
use chu_sql.Mvcc.Exclusion.{
  Exclusive, Exclusive-shrink, Hides, grant_pair, bytes_eq_sym, transaction_at-update,
  transaction_at-put,
}

List-cases {ℓ} : {A : Type ℓ} (xs : List A) → (xs ≡ []) ⊎ ((y : A) × (ys : List A) × (xs ≡ y ∷ ys))
List-cases [] = inl refl
List-cases (x ∷ xs) = inr (x, xs, refl)

module _ {W : Wire} where
  abbrev granted : Key → Bool → Transaction W → Transaction W
  granted k exclusive tx = record tx { held = hold k exclusive tx.held; waiting = [] }

  -- The entry of an updated transaction, and that of any other.
  updated_self :
      (s : State W) (token t : Str) (f : Transaction W → Transaction W) (x : Transaction W)
      → transaction_at t (update token f s).transactions ≡ some x
      → bytes_eq t token ≡ true
      → (x0 : Transaction W) × (transaction_at token s.transactions ≡ some x0) × (f x0 ≡ x)
  updated_self s token t f x h same =
      let (x0, e, q) = option_map-eq-some _ _ (sym (transaction_at-update t token f s) ∙ h) in
      (
        x0,
        ap (λ t. transaction_at t s.transactions) (sym (bytes_eq→eq t token same)) ∙ e,
        rw same at q,
      )

  updated_other :
      (s : State W) (token t : Str) (f : Transaction W → Transaction W) (x : Transaction W)
      → transaction_at t (update token f s).transactions ≡ some x
      → bytes_eq t token ≡ false
      → transaction_at t s.transactions ≡ some x
  updated_other s token t f x h other =
      let (x0, e, q) = option_map-eq-some _ _ (sym (transaction_at-update t token f s) ∙ h) in
      e ∙ ap some (rw other at q)

  Exclusive-granted :
      (s : State W) (token : Str) (k : Key) (exclusive : Bool)
      → Exclusive s
      → blockers token k exclusive s ≡ []
      → Exclusive (update token (granted k exclusive) s)
  Exclusive-granted s token k exclusive e free t u x y key b c ne tx ty ax ay hx hy =
      elim (Bool-cases (bytes_eq t token)) [
        | inl mine ↦
            let ne' = ap (λ t. bytes_eq t u) (sym (bytes_eq→eq t token mine)) ∙ ne in
            let (x0, t0, q) = updated_self s token t (granted k exclusive) x tx mine in
            grant_pair s token u x0 y k key exclusive b c e free ne' t0
              (updated_other s token u (granted k exclusive) y ty (bytes_eq_sym token u ne'))
              (ap (λ z. z.aborted) q ∙ ax) ay (ap (λ z. held_at key z.held) q ∙ hx) hy
        | inr other ↦ elim (Bool-cases (bytes_eq u token)) [
          | inl mine ↦
              let ne' = bytes_eq_sym t token other in
              let (y0, u0, q) = updated_self s token u (granted k exclusive) y ty mine in
              let (hc, hb) =
                grant_pair s token t y0 x k key exclusive c b e free ne' u0
                  (updated_other s token t (granted k exclusive) x tx other)
                  (ap (λ z. z.aborted) q ∙ ay) ax (ap (λ z. held_at key z.held) q ∙ hy) hx in
              (hb, hc)
          | inr others ↦
              e t u x y key b c ne (updated_other s token t (granted k exclusive) x tx other)
                (updated_other s token u (granted k exclusive) y ty others) ax ay hx hy
        ]
      ]

  transaction_at-map :
      (g : Str → Transaction W → Transaction W) (t : Str) (txs : List (Str × Transaction W))
      → transaction_at t (map (λ (t, tx). (t, g t tx)) txs)
        ≡ option_map (g t) (transaction_at t txs)
  transaction_at-map g t [] = refl
  transaction_at-map g t ((u, x) ∷ txs) = elim (Bool-cases (bytes_eq u t)) [
    | inl y ↦ rw y (rw (bytes_eq→eq u t y))
    | inr z ↦ rw z (transaction_at-map g t txs)
  ]

  -- A change of each transaction by itself, in which no lock appears, keeps exclusion.
  Exclusive-map :
      (g : Str → Transaction W → Transaction W) (s s' : State W)
      → s'.transactions ≡ map (λ (t, tx). (t, g t tx)) s.transactions
      → ((t : Str) (x : Transaction W) → ((g t x).held ≡ []) ⊎ Hides x (g t x))
      → Exclusive s
      → Exclusive s'
  Exclusive-map g s s' same f = Exclusive-shrink s s' (λ t x' h.
      let (x, e, q) =
        option_map-eq-some (g t) (transaction_at t s.transactions)
          (sym (transaction_at-map g t s.transactions) ∙ ap (transaction_at t) (sym same) ∙ h) in
      elim (f t x) [ inl empty ↦ inl (rw q at empty) | inr hides ↦ inr (x, e, rw q at hides) ])

  attempt_grant :
      (s : State W) (token : Str) (k : Key) (exclusive : Bool)
      → blockers token k exclusive s ≡ []
      → attempt token k exclusive s ≡ (true, update token (granted k exclusive) s)
  unfolding attempt
  attempt_grant s token k exclusive h = rw (attempt, h)

  attempt_wait :
      (s : State W) (token : Str) (k : Key) (exclusive : Bool) (b : Str) (bs : List Str)
      → blockers token k exclusive s ≡ b ∷ bs
      → attempt token k exclusive s ≡ (false, update token (λ tx. record tx { waiting = b ∷ bs }) s)
  unfolding attempt
  attempt_wait s token k exclusive b bs h = rw (attempt, h)

  pub Exclusive-attempt :
      (s : State W) (token : Str) (k : Key) (exclusive : Bool)
      → Exclusive s
      → Exclusive (attempt token k exclusive s).1
  Exclusive-attempt s token k exclusive e = elim (List-cases (blockers token k exclusive s)) [
    | inl free ↦
        subst (λ p. Exclusive p.1) (sym (attempt_grant s token k exclusive free))
          (Exclusive-granted s token k exclusive e free)
    | inr (b, bs, wait) ↦
        subst (λ p. Exclusive p.1) (sym (attempt_wait s token k exclusive b bs wait))
          (Exclusive-map (λ t tx. if bytes_eq t token then record tx { waiting = b ∷ bs } else tx) s
            (update token (λ tx. record tx { waiting = b ∷ bs }) s) refl
            (λ t x. elim (Bool-cases (bytes_eq t token)) [
              | inl y ↦ rw y (inr (λ a. (a, λ key b h. h)))
              | inr z ↦ rw z (inr (λ a. (a, λ key b h. h)))
            ])
            e)
  ]

  Exclusive-release :
      (token : Str) (s s' : State W)
      → s'.transactions ≡ release_all token s.transactions
      → Exclusive s
      → Exclusive s'
  Exclusive-release token s s' h =
      Exclusive-map (λ t tx. release token tx) s s' h (λ t x. inr (λ a. (a, λ key b h. h)))

  pub Exclusive-abort :
      (s : State W) (token error : Str) → Exclusive s → Exclusive (abort token error s)
  unfolding abort
  Exclusive-abort s token error e =
      let s1 = record s { transactions = map (mark_aborted token error) s.transactions } in
      Exclusive-release token s1 (abort token error s) refl (
        Exclusive-map (λ t tx. (mark_aborted token error (t, tx)).1) s s1 refl
          (λ t x. elim (Bool-cases (bytes_eq t token)) [
            | inl y ↦ inl (rw y refl)
            | inr z ↦ inr (rw z (λ a. (a, λ key b h. h)))
          ])
          e)

  removed_self :
      (token t : Str) (txs : List (Str × Transaction W))
      → bytes_eq t token ≡ true
      → transaction_at t (filter (λ (t, tx). not (bytes_eq t token)) txs) ≡ none
  removed_self token t [] h = refl
  removed_self token t ((u, x) ∷ txs) h = elim (Bool-cases (bytes_eq u token)) [
    | inl y ↦ rw y (removed_self token t txs h)
    | inr z ↦ elim (Bool-cases (bytes_eq u t)) [
      | inl here ↦ absurd (ground (arith, ap (λ k. bytes_eq k token) (bytes_eq→eq u t here), h, z))
      | inr there ↦ rw z (rw there (removed_self token t txs h))
    ]
  ]

  removed_other :
      (token t : Str) (txs : List (Str × Transaction W))
      → bytes_eq t token ≡ false
      → transaction_at t (filter (λ (t, tx). not (bytes_eq t token)) txs) ≡ transaction_at t txs
  removed_other token t [] h = refl
  removed_other token t ((u, x) ∷ txs) h = elim (Bool-cases (bytes_eq u t)) [
    | inl here ↦ rw (ap (λ k. bytes_eq k token) (bytes_eq→eq u t here) ∙ h, here) refl
    | inr there ↦ elim (Bool-cases (bytes_eq u token)) [
      | inl y ↦ rw (y, there) (removed_other token t txs h)
      | inr z ↦ rw z (rw there (removed_other token t txs h))
    ]
  ]

  pub Exclusive-finish : (s : State W) (token : Str) → Exclusive s → Exclusive (finish token s)
  unfolding finish prune
  Exclusive-finish s token e =
      let s1 = record s {
        transactions = filter (λ (t, tx). not (bytes_eq t token)) s.transactions;
      } in
      Exclusive-release token s1 (finish token s) refl (
        Exclusive-shrink s s1
          (λ t x h. elim (Bool-cases (bytes_eq t token)) [
            | inl y ↦ absurd (ground (arith, removed_self token t s.transactions y, h))
            | inr z ↦
                inr (x, sym (removed_other token t s.transactions z) ∙ h, λ a. (a, λ key b h. h))
          ])
          e)

  Exclusive-put :
      (s s' : State W) (token : Str) (tx : Transaction W)
      → s'.transactions ≡ put_transaction token tx s.transactions
      → tx.held ≡ []
      → Exclusive s
      → Exclusive s'
  Exclusive-put s s' token tx same empty = Exclusive-shrink s s' (λ t x h.
      let found =
        sym (transaction_at-put t token tx s.transactions) ∙ ap (transaction_at t) (sym same) ∙ h in
      elim (Bool-cases (bytes_eq token t)) [
        | inl y ↦
            inl (ap (λ o. (unwrap_or {A = Transaction W} o tx).held) (sym (rw y at found)) ∙ empty)
        | inr z ↦ inr (x, rw z at found, λ a. (a, λ key b h. h))
      ])

  pub Exclusive-begin :
      (token_of : ℕ → Str) (schemas : List (TableSchemaWire W)) (serializable : Bool)
      (selected : Option (List Str)) (s : State W)
      → Exclusive s
      → Exclusive (begin_selected token_of schemas serializable selected s).1
  unfolding begin_selected
  Exclusive-begin token_of schemas serializable selected s e =
      elim (Bool-cases (leb (2 ^ 64) (s.next_transaction + 1))) [
        | inl y ↦ rw y e
        | inr z ↦ rw z (entered (snapshot_rows s.durable selected schemas))
      ]
    where
      entered :
          (rows : Result Str (List (Str × List W.Row)))
          → Exclusive
              (enter
                (token_of (s.next_transaction + 1))
                schemas
                serializable
                (record s { next_transaction = s.next_transaction + 1 })
                rows).1
      entered (err r) = e
      entered (ok rows) =
          Exclusive-put s
            (enter (token_of (s.next_transaction + 1)) schemas serializable
              (record s { next_transaction = s.next_transaction + 1 }) (ok rows)).1
            (token_of (s.next_transaction + 1))
            (record {
              snapshot = s.durable.csn;
              schemas = schemas;
              serializable = serializable;
              reads = [];
              held = [];
              waiting = [];
              aborted = none;
              plan = [];
            })
            refl refl e

  -- A change that leaves the locks and the abort mark of every transaction.
  pub Exclusive-note :
      (s : State W) (token : Str) (f : Transaction W → Transaction W)
      → ((x : Transaction W) → ((f x).aborted ≡ x.aborted) × ((f x).held ≡ x.held))
      → Exclusive s
      → Exclusive (update token f s)
  Exclusive-note s token f same =
      Exclusive-map (λ t tx. if bytes_eq t token then f tx else tx) s (update token f s) refl
        (λ t x. elim (Bool-cases (bytes_eq t token)) [
          | inl y ↦
              rw y
                (inr (λ a. (sym (same x).0 ∙ a, λ key b h. ap (held_at key) (sym (same x).1) ∙ h)))
          | inr z ↦ rw z (inr (λ a. (a, λ key b h. h)))
        ])
