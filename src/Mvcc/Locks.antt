-- ===== src/Mvcc/Locks.antt =====
-- What `abort`, `Mvcc::finish` and `Mvcc::fail_all` of mvcc.rs leave of locks and waits.
use chu_sql.Base.{
  ◌≡◌, refl, sym, ap, subst, ◌∙◌, ◌⊎◌, inl, inr, Bool, true, false, not, Option, none, some, List,
  [], ◌∷◌, map, filter, any, All, arith, bytes_eq, bytes_eq_refl, bytes_eq→eq, option_map, is_some,
  Bool-cases,
}
use chu_sql.Base.Text.{Str, ascii}
use chu_sql.Protocol.{Wire}
use chu_sql.Mvcc.{
  Transaction, State, abort, release, release_all, mark_aborted, abort_each, fail_all, finish,
  prune, transaction_at,
}

any-weaken : (p : Str → Bool) (k : Str) (ks : List Str) → any p ks ≡ true → any p (k ∷ ks) ≡ true
any-weaken p k ks h = elim (Bool-cases (p k)) [ inl y ↦ rw y | inr z ↦ rw z h ]

any-filter :
    (token : Str) (ks : List Str)
    → any (λ k. bytes_eq k token) (filter (λ k. not (bytes_eq k token)) ks) ≡ false
any-filter token [] = refl
any-filter token (k ∷ ks) = elim (Bool-cases (bytes_eq k token)) [
  | inl y ↦ rw y (any-filter token ks)
  | inr z ↦ rw z (rw z (any-filter token ks))
]

module _ {W : Wire} where
  -- Aborted, with no lock and no wait.
  abbrev pub Dead : Transaction W → Type 0
  Dead tx = (is_some tx.aborted ≡ true) × (tx.held ≡ []) × (tx.waiting ≡ [])

  -- Every transaction is dead or still to be aborted.
  abbrev Covered : List Str → List (Str × Transaction W) → Type 0
  Covered tokens txs = All (λ t. Dead t.1 ⊎ (any (λ k. bytes_eq t.0 k) tokens ≡ true)) txs

  abort_one : Str → Str → Str × Transaction W → Str × Transaction W
  abort_one token error t = let (k, tx) = mark_aborted token error t in (k, release token tx)

  Dead-abort_one :
      (token error : Str) (tokens : List Str) (t : Str) (tx : Transaction W)
      → Dead tx ⊎ (any (λ k. bytes_eq t k) (token ∷ tokens) ≡ true)
      → Dead (release token (mark_aborted token error (t, tx)).1)
        ⊎ (any (λ k. bytes_eq t k) tokens ≡ true)
  Dead-abort_one token error tokens t tx h = elim (Bool-cases (bytes_eq t token)) [
    | inl y ↦ inl (rw y (refl, refl, refl))
    | inr z ↦ elim h [
      | inl (a, b, c) ↦ inl (rw z (a, b, rw c refl))
      | inr later ↦ inr (rw z at later)
    ]
  ]

  Covered-abort :
      (token error : Str) (tokens : List Str) (txs : List (Str × Transaction W))
      → Covered (token ∷ tokens) txs
      → Covered tokens (release_all token (map (mark_aborted token error) txs))
  Covered-abort token error tokens [] h = tt
  Covered-abort token error tokens ((t, tx) ∷ txs) h =
      (Dead-abort_one token error tokens t tx h.0, Covered-abort token error tokens txs h.1)

  Covered-abort_each :
      (tokens : List Str) (s : State W)
      → Covered tokens s.transactions
      → Covered [] (abort_each tokens s).transactions
  unfolding abort
  Covered-abort_each [] s h = h
  Covered-abort_each (token ∷ tokens) s h =
      Covered-abort_each tokens (abort token (ascii "storage recovery required") s)
        (Covered-abort token (ascii "storage recovery required") tokens s.transactions h)

  Covered-weaken :
      (k : Str) (ks : List Str) (txs : List (Str × Transaction W))
      → Covered ks txs
      → Covered (k ∷ ks) txs
  Covered-weaken k ks [] h = tt
  Covered-weaken k ks ((t, tx) ∷ txs) h = (
    elim h.0 [ inl d ↦ inl d | inr a ↦ inr (any-weaken (λ k. bytes_eq t k) k ks a) ],
    Covered-weaken k ks txs h.1,
  )

  Covered-all : (txs : List (Str × Transaction W)) → Covered (map (λ (t, tx). t) txs) txs
  Covered-all [] = tt
  Covered-all ((t, tx) ∷ txs) =
      (inr (rw (bytes_eq_refl t)), Covered-weaken t (map (λ (t, tx). t) txs) txs (Covered-all txs))

  Dead-All : (txs : List (Str × Transaction W)) → Covered [] txs → All (λ t. Dead t.1) txs
  Dead-All [] h = tt
  Dead-All (t ∷ txs) h =
      (elim h.0 [ inl d ↦ d | inr a ↦ absurd (ground (arith, a)) ], Dead-All txs h.1)

  -- After `fail_all` every transaction is aborted, holds no lock and waits for nobody.
  pub fail_all_lem : (s : State W) → All (λ t. Dead t.1) (fail_all s).transactions
  unfolding fail_all
  fail_all_lem s =
      let tokens = map (λ (t, tx). t) s.transactions in
      Dead-All (abort_each tokens s).transactions
        (Covered-abort_each tokens s (Covered-all s.transactions))

  -- Neither the name of a transaction nor one of those it waits for.
  abbrev pub Unknown : Str → Str × Transaction W → Type 0
  Unknown token (t, tx) =
      (bytes_eq t token ≡ false) × (any (λ k. bytes_eq k token) tx.waiting ≡ false)

  Unknown-All :
      (token : Str) (txs : List (Str × Transaction W))
      → All (Unknown token) (release_all token (filter (λ (t, tx). not (bytes_eq t token)) txs))
  Unknown-All token [] = tt
  Unknown-All token ((t, tx) ∷ txs) = elim (Bool-cases (bytes_eq t token)) [
    | inl y ↦ rw y (Unknown-All token txs)
    | inr z ↦ rw z ((z, any-filter token tx.waiting), Unknown-All token txs)
  ]

  -- What another transaction keeps: its snapshot, its locks, its plan and whether it is aborted.
  abbrev pub Same : Transaction W → Transaction W → Type 0
  Same x y =
      (x.snapshot ≡ y.snapshot)
      × (x.held ≡ y.held)
      × (x.plan ≡ y.plan)
      × (x.aborted ≡ y.aborted)
      × (x.reads ≡ y.reads)

  -- The same of two transactions that may be there: both are, or none.
  abbrev pub SameIfAny : Option (Transaction W) → Option (Transaction W) → Type 0
  SameIfAny none none = Unit
  SameIfAny (some x) (some y) = Same x y
  SameIfAny none (some y) = ⊥
  SameIfAny (some x) none = ⊥

  others_keep :
      (token other : Str) (txs : List (Str × Transaction W))
      → bytes_eq other token ≡ false
      → transaction_at other (release_all token (filter (λ (t, tx). not (bytes_eq t token)) txs))
        ≡ option_map (release token) (transaction_at other txs)
  others_keep token other [] ne = refl
  others_keep token other ((t, x) ∷ txs) ne = elim (Bool-cases (bytes_eq t other)) [
    | inl y ↦
        let same : t ≡ other = bytes_eq→eq t other y in
        let differs : bytes_eq t token ≡ false = ap (λ k. bytes_eq k token) same ∙ ne in
        rw (differs, y) refl
    | inr z ↦ elim (Bool-cases (bytes_eq t token)) [
      | inl gone ↦ rw (gone, z) (others_keep token other txs ne)
      | inr stay ↦ rw (stay, z) (others_keep token other txs ne)
    ]
  ]

  released : (token : Str) (o : Option (Transaction W)) → SameIfAny (option_map (release token) o) o
  released token none = tt
  released token (some tx) = (refl, refl, refl, refl, refl)

  -- After `finish` no transaction has the token or waits for it; under any other name there is a
  -- transaction just if there was one, and it has the snapshot, locks, plan, reads and abort mark
  -- that it had.
  pub finish_lem :
      (token other : Str) (s : State W)
      → bytes_eq other token ≡ false
      → All (Unknown token) (finish token s).transactions
        × SameIfAny
            (transaction_at other (finish token s).transactions)
            (transaction_at other s.transactions)
  unfolding finish prune
  finish_lem token other s ne = (
    Unknown-All token s.transactions,
    subst (λ o. SameIfAny o (transaction_at other s.transactions))
        (sym (others_keep token other s.transactions ne))
        (released token (transaction_at other s.transactions)),
  )
