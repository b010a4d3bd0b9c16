-- ===== src/Base/Results.antt =====
-- `Result<A, E>` with its bind, the bind of `Option`, and inversion of a successful bind.
use mathlib.Core.Path.{◌≡◌, refl}
use mathlib.Core.Bool.{Bool, true, false}
use mathlib.Core.Option.{Option, none, some}

pub data Result {ℓ κ} (E : Type κ) (A : Type ℓ) : Type (ℓ ⊔ κ) where
  ok : A → Result E A
  err : E → Result E A

infixl 5 ◌>>=◌ ◌>>◌
abbrev pub ◌>>=◌ {ℓ κ ι} :
    {E : Type ι} {A : Type ℓ} {B : Type κ} → Result E A → (A → Result E B) → Result E B
ok a >>= f = f a
err e >>= f = err e

abbrev pub ◌>>◌ {ℓ ι} : {E : Type ι} {B : Type ℓ} → Result E (Unit {0}) → Result E B → Result E B
m >> k = m >>= λ _. k

-- `opt.ok_or(e)?`
abbrev pub ok_or {ℓ ι} : {E : Type ι} {A : Type ℓ} → Option A → E → Result E A
ok_or none e = err e
ok_or (some a) e = ok a

-- `if bad { return Err(e) }`
abbrev pub reject_if {ι} : {E : Type ι} → Bool → E → Result E (Unit {0})
reject_if true e = err e
reject_if false e = ok tt

-- The bind of `Option`, where `none` is a panic or an absent value.
abbrev pub and_then {ℓ κ} : {A : Type ℓ} {B : Type κ} → Option A → (A → Option B) → Option B
and_then none f = none
and_then (some a) f = f a

abbrev pub option_map {ℓ κ} : {A : Type ℓ} {B : Type κ} → (A → B) → Option A → Option B
option_map f none = none
option_map f (some a) = some (f a)

abbrev pub unwrap_or {ℓ} : {A : Type ℓ} → Option A → A → A
unwrap_or none d = d
unwrap_or (some a) d = a

abbrev pub is_some {ℓ} : {A : Type ℓ} → Option A → Bool
is_some none = false
is_some (some a) = true

-- Inversion of a successful sequence.
pub seq-ok {ι} :
    {E : Type ι} (m k : Result E (Unit {0})) → (m >>= λ _. k) ≡ ok tt → (m ≡ ok tt) × (k ≡ ok tt)
seq-ok (ok u) k h = (refl, h)
seq-ok (err e) k h = cc
