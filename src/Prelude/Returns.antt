-- ===== src/Prelude/Returns.antt =====
-- A Go function that returns `(T, error)`: the value, or the error that it returns.
use mathlib.Core.Path.{◌≡◌, refl}
use mathlib.Core.Logic.{◌⊎◌, inl, inr}
use mathlib.Core.Bool.{Bool, true, false}
use native.Mathlib.Omega.{arith}

pub data Result {ℓ} (E : Type 0) (A : Type ℓ) : Type ℓ where
  ok : A → Result E A
  err : E → Result E A

infixl 5 ◌>>=◌ ◌>>◌
-- `x, err := r; if err != nil { return err }`, and what follows it
abbrev pub ◌>>=◌ {ℓ κ} :
    {E : Type 0} {A : Type ℓ} {B : Type κ} → Result E A → (A → Result E B) → Result E B
err e >>= next = err e
ok x >>= next = next x

-- `if c { return e }`
abbrev pub reject_if : {E : Type 0} → Bool → E → Result E (Unit {0})
reject_if true e = err e
reject_if false e = ok tt

-- the same for a call that returns an error only
abbrev pub ◌>>◌ {ℓ} : {E : Type 0} {B : Type ℓ} → Result E (Unit {0}) → Result E B → Result E B
r >> next = r >>= λ _. next

-- `fmt.Errorf("…: %w", err)` in a caller with errors of its own
abbrev pub wrap {ℓ} : {E F : Type 0} {A : Type ℓ} → (E → F) → Result E A → Result F A
wrap w (ok a) = ok a
wrap w (err e) = err (w e)

pub Result-cases {ℓ} :
    {E : Type 0} {A : Type ℓ} (r : Result E A) → ((a : A) × (r ≡ ok a)) ⊎ ((e : E) × (r ≡ err e))
Result-cases (ok a) = inl (a, refl)
Result-cases (err e) = inr (e, refl)

-- A chain that succeeds has a first call that does, and a rest that does on its value.
pub >>=-eq-ok {ℓ κ} :
    {E : Type 0} {A : Type ℓ} {B : Type κ} (r : Result E A) (next : A → Result E B) {b : B}
    → (r >>= next) ≡ ok b
    → (a : A) × (r ≡ ok a) × (next a ≡ ok b)
>>=-eq-ok (err e) next h = cc
>>=-eq-ok (ok a) next h = (a, refl, h)

pub reject_if-eq-ok :
    {E : Type 0} (c : Bool) (e : E) {u : Unit {0}} → reject_if c e ≡ ok u → c ≡ false
reject_if-eq-ok true e h = cc
reject_if-eq-ok false e h = refl

pub wrap-eq-ok {ℓ} :
    {E F : Type 0} {A : Type ℓ} (w : E → F) (r : Result E A) {a : A} → wrap w r ≡ ok a → r ≡ ok a
wrap-eq-ok w (ok a) h = ground arith
wrap-eq-ok w (err e) h = cc
