-- ===== src/Mvcc/Runs.antt =====
-- Runs of the version store of mvcc.rs: any interleaving of the methods, each under the mutex.
use chu_sql.Base.{ℕ, ◌≡◌, refl, Bool, false, Option, none, some, List, [], bytes_eq}
use chu_sql.Base.Text.{Str}
use chu_sql.Protocol.{Wire, StorageOp, TableSchemaWire}
use chu_sql.Mvcc.{
  Key, Durable, Transaction, State, held_at, transaction_at, update, attempt, abort, finish,
  begin_selected,
}
use chu_sql.Mvcc.Steps.{
  Exclusive-attempt, Exclusive-abort, Exclusive-finish, Exclusive-begin, Exclusive-note,
}
use chu_sql.Mvcc.Exclusion.{Exclusive}

module _ {W : Wire} where
  -- The states that the methods reach, in any interleaving; what publishing and pruning do to the
  -- durable part is left open.
  pub data Reach (token_of : ℕ → Str) : State W → Type 0 where
    opened :
        (d : Durable W) (n : ℕ)
        → Reach token_of (record { durable = d; transactions = []; next_transaction = n })
    began :
        (s : State W) (schemas : List (TableSchemaWire W)) (serializable : Bool)
        (selected : Option (List Str))
        → Reach token_of s
        → Reach token_of (begin_selected token_of schemas serializable selected s).1
    attempted :
        (s : State W) (token : Str) (k : Key) (exclusive : Bool)
        → Reach token_of s
        → Reach token_of (attempt token k exclusive s).1
    aborted :
        (s : State W) (token error : Str) → Reach token_of s → Reach token_of (abort token error s)
    finished : (s : State W) (token : Str) → Reach token_of s → Reach token_of (finish token s)
    touched :
        (s : State W) (token : Str) (reads : List ℕ)
        → Reach token_of s
        → Reach token_of (update token (λ tx. record tx { reads = reads }) s)
    planned :
        (s : State W) (token : Str) (ops : List (StorageOp W.Row))
        → Reach token_of s
        → Reach token_of (update token (λ tx. record tx { plan = ops }) s)
    stored :
        (s : State W) (d : Durable W) → Reach token_of s → Reach token_of (record s { durable = d })

  Exclusive-Reach : (token_of : ℕ → Str) (s : State W) → Reach token_of s → Exclusive s
  Exclusive-Reach token_of s (opened d n) = λ t u x y key b c ne tx ty ax ay hx hy. cc
  Exclusive-Reach token_of s (began s1 schemas serializable selected r) =
      Exclusive-begin token_of schemas serializable selected s1 (Exclusive-Reach token_of s1 r)
  Exclusive-Reach token_of s (attempted s1 token k exclusive r) =
      Exclusive-attempt s1 token k exclusive (Exclusive-Reach token_of s1 r)
  Exclusive-Reach token_of s (aborted s1 token error r) =
      Exclusive-abort s1 token error (Exclusive-Reach token_of s1 r)
  Exclusive-Reach token_of s (finished s1 token r) =
      Exclusive-finish s1 token (Exclusive-Reach token_of s1 r)
  Exclusive-Reach token_of s (touched s1 token reads r) =
      Exclusive-note s1 token (λ tx. record tx { reads = reads }) (λ x. (refl, refl))
        (Exclusive-Reach token_of s1 r)
  Exclusive-Reach token_of s (planned s1 token ops r) =
      Exclusive-note s1 token (λ tx. record tx { plan = ops }) (λ x. (refl, refl))
        (Exclusive-Reach token_of s1 r)
  Exclusive-Reach token_of s (stored s1 d r) = Exclusive-Reach token_of s1 r

  -- In every state that the methods reach, two different transactions that are not aborted and
  -- hold the same key both hold it in shared mode.
  pub locks_exclude :
      (token_of : ℕ → Str) (s : State W) (t u : Str) (x y : Transaction W) (key : Key) (b c : Bool)
      → Reach token_of s
      → bytes_eq t u ≡ false
      → transaction_at t s.transactions ≡ some x
      → transaction_at u s.transactions ≡ some y
      → x.aborted ≡ none
      → y.aborted ≡ none
      → held_at key x.held ≡ some b
      → held_at key y.held ≡ some c
      → (b ≡ false) × (c ≡ false)
  locks_exclude token_of s t u x y key b c r = Exclusive-Reach token_of s r t u x y key b c
