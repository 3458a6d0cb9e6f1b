-- ===== src/Base/Results.antt =====
-- A call that may throw: its value, or the error that it throws.
use mathlib.Core.Path.{◌≡◌, refl}
use mathlib.Core.Bool.{Bool, true, false}
use mathlib.Core.Logic.{◌⊎◌, inl, inr}
use mathlib.Core.Option.{Option, none, some}

pub data Result {ℓ} (E : Type 0) (A : Type ℓ) : Type ℓ where
  ok : A → Result E A
  err : E → Result E A

infixl 5 ◌>>=◌ ◌>>◌
abbrev pub ◌>>=◌ {ℓ κ} :
    {E : Type 0} {A : Type ℓ} {B : Type κ} → Result E A → (A → Result E B) → Result E B
ok a >>= f = f a
err e >>= f = err e

abbrev pub ◌>>◌ {ℓ} : {E : Type 0} {B : Type ℓ} → Result E (Unit {0}) → Result E B → Result E B
m >> k = m >>= λ _. k

-- `if (test) throw error;`
abbrev pub throw_if : {E : Type 0} → Bool → E → Result E (Unit {0})
throw_if true e = err e
throw_if false e = ok tt

-- `const a = o; if (a === undefined) throw error;`
abbrev pub require {ℓ} : {E : Type 0} {A : Type ℓ} → Option A → E → Result E A
require none e = err e
require (some a) e = ok a

module _ {ℓ κ} {E : Type 0} {A : Type ℓ} {B : Type κ} where
  -- What a successful chain says of its first step.
  pub >>=-inversion :
      (step : Result E A) (next : A → Result E B) {end : B}
      → (step >>= next) ≡ ok end
      → (middle : A) × (step ≡ ok middle) × (next middle ≡ ok end)
  >>=-inversion (err e) _ h = cc
  >>=-inversion (ok middle) _ h = (middle, refl, h)

-- The same, where the first step is a test or a lookup.
module _ {ℓ} {E : Type 0} {B : Type ℓ} where
  pub guard_inversion :
      (test : Bool) (reason : E) (next : Result E B) {end : B}
      → (throw_if test reason >>= λ _. next) ≡ ok end
      → (test ≡ false) × (next ≡ ok end)
  guard_inversion true _ _ h = cc
  guard_inversion false _ _ h = (refl, h)

  pub require_inversion {κ} :
      {A : Type κ} (found : Option A) (reason : E) (next : A → Result E B) {end : B}
      → (require found reason >>= next) ≡ ok end
      → (a : A) × (found ≡ some a) × (next a ≡ ok end)
  require_inversion none _ _ h = cc
  require_inversion (some a) _ _ h = (a, refl, h)

pub Result-cases {ℓ} :
    {E : Type 0} {A : Type ℓ} (r : Result E A) → ((a : A) × (r ≡ ok a)) ⊎ ((e : E) × (r ≡ err e))
Result-cases (ok a) = inl (a, refl)
Result-cases (err e) = inr (e, refl)

pub ok-injective {ℓ} :
    {E : Type 0} {A : Type ℓ} {a b : A} → ◌≡◌ {A = Result E A} (ok a) (ok b) → a ≡ b
ok-injective h = cc

abbrev pub value_or {ℓ} : {E : Type 0} {A : Type ℓ} → Result E A → A → A
value_or (ok a) b = a
value_or (err e) b = b
