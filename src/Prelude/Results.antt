-- ===== src/Prelude/Results.antt =====
-- Go's `(value, error)` pair: a value, or an error of a type that each module names.
use mathlib.Core.Path.{◌≡◌, refl}
use mathlib.Core.Logic.{◌⊎◌, inl, inr}
use mathlib.Core.Bool.{Bool, true, false}

pub data Result {ℓ} (E V : Type ℓ) : Type ℓ where
  err : E → Result E V
  ok : V → Result E V

-- `if bad { return e }`
abbrev pub reject : {E : Type 0} → Bool → E → Result E (Unit {0})
reject false e = ok tt
reject true e = err e

pub Result-cases {ℓ} :
    {E V : Type ℓ} (r : Result E V) → ((a : V) × (r ≡ ok a)) ⊎ ((e : E) × (r ≡ err e))
Result-cases (err e) = inr (e, refl)
Result-cases (ok a) = inl (a, refl)

pub ok-injective {ℓ} : {E V : Type ℓ} (a b : V) → ◌≡◌ {A = Result E V} (ok a) (ok b) → a ≡ b
ok-injective a b h = cc

pub reject-ok : {E : Type 0} (bad : Bool) (e : E) → reject bad e ≡ ok tt → bad ≡ false
reject-ok false e h = refl
reject-ok true e h = cc

-- The next call, after one that succeeded.
abbrev pub ◌>>=◌ {ℓ} : {E V W : Type ℓ} → Result E V → (V → Result E W) → Result E W
err e >>= next = err e
ok x >>= next = next x

abbrev pub ◌>>◌ {ℓ} : {E W : Type ℓ} → Result E (Unit {ℓ}) → Result E W → Result E W
first >> next = first >>= λ done. next

infixl 5 ◌>>=◌ ◌>>◌
pub >>-eq-ok :
    {E W : Type 0} (first : Result E (Unit {0})) (next : Result E W) {w : W}
    → (first >> next) ≡ ok w
    → (first ≡ ok tt) × (next ≡ ok w)
>>-eq-ok (err e) next h = cc
>>-eq-ok (ok tt) next h = (refl, h)

pub >>=-eq-ok {ℓ} :
    {E V W : Type ℓ} (first : Result E V) (next : V → Result E W) {w : W}
    → (first >>= next) ≡ ok w
    → (v : V) × (first ≡ ok v) × (next v ≡ ok w)
>>=-eq-ok (err e) next h = cc
>>=-eq-ok (ok v) next h = (v, refl, h)
