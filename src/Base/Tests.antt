-- ===== src/Base/Tests.antt =====
-- Boolean tests, the conditional, and equality as an interface: the `===` of the source.
use Prim.Native.Nat.{ℕ, compare, Ordering}
use Prim.Native.String.{String, compare as compare_texts}
use mathlib.Core.Path.{◌≡◌, refl, ap, sym, ◌∙◌}
use mathlib.Core.Logic.{◌↔◌, ◌⊎◌, inl, inr}
use mathlib.Core.Bool.{Bool, true, false, not}
use mathlib.Core.Option.{Option, none, some}
use native.Mathlib.Omega.{arith}
use text.Mathlib.Text.{◌==◌ as str_beq}
use text.Mathlib.TextEquality.{eq_iff}

abbrev pub ltb : ℕ → ℕ → Bool
ltb a b = elim (compare a b) [ Ordering.lt ↦ true | _ ↦ false ]

abbrev pub leb : ℕ → ℕ → Bool
leb a b = elim (compare a b) [ Ordering.gt ↦ false | _ ↦ true ]

abbrev pub nat_beq : ℕ → ℕ → Bool
nat_beq a b = elim (compare a b) [ Ordering.eq ↦ true | _ ↦ false ]

infix 1 if◌then◌else◌
abbrev pub if◌then◌else◌ {ℓ} : {A : Type ℓ} → Bool → A → A → A
if true then x else y = x
if false then x else y = y

pub nat_beq_iff : (a b : ℕ) → (nat_beq a b ≡ true) ↔ (a ≡ b)
nat_beq_iff a b = ground arith

-- A type whose values the source compares by `===`.
pub record Comparable {ℓ} (A : Type ℓ) : Type ℓ where
  pub equal : A → A → Bool
  pub equal_iff : (left right : A) → (equal left right ≡ true) ↔ (left ≡ right)

infix 50 ◌==◌ ◌!=◌
abbrev pub ◌==◌ {ℓ} : {A : Type ℓ} ⦃e : Comparable A⦄ → A → A → Bool
◌==◌ ⦃e⦄ left right = e.equal left right

abbrev pub ◌!=◌ {ℓ} : {A : Type ℓ} ⦃e : Comparable A⦄ → A → A → Bool
left != right = not (left == right)

abbrev pub bool_beq : Bool → Bool → Bool
bool_beq true b = b
bool_beq false b = not b

pub bool_beq_iff : (a b : Bool) → (bool_beq a b ≡ true) ↔ (a ≡ b)
bool_beq_iff true b = ground arith
bool_beq_iff false b = ground arith

instance abbrev pub bool_eq : Comparable Bool
bool_eq = record { equal = bool_beq; equal_iff = bool_beq_iff }

instance abbrev pub nat_eq : Comparable ℕ
nat_eq = record { equal = nat_beq; equal_iff = nat_beq_iff }

instance abbrev pub string_eq : Comparable String
string_eq = record { equal = str_beq; equal_iff = eq_iff }

-- A nullable value: `null` equals only itself.
abbrev pub opt_beq {ℓ} : {A : Type ℓ} ⦃e : Comparable A⦄ → Option A → Option A → Bool
opt_beq none none = true
opt_beq (some a) (some b) = a == b
opt_beq none (some b) = false
opt_beq (some a) none = false

pub opt_beq_iff {ℓ} :
    {A : Type ℓ} ⦃e : Comparable A⦄ (x y : Option A) → (opt_beq x y ≡ true) ↔ (x ≡ y)
opt_beq_iff none none = (λ _. refl, λ _. refl)
opt_beq_iff ⦃e⦄ (some a) (some b) = ground (arith, e.equal_iff a b)
opt_beq_iff none (some b) = ground arith
opt_beq_iff (some a) none = ground arith

instance abbrev pub option_eq {ℓ} : {A : Type ℓ} ⦃e : Comparable A⦄ → Comparable (Option A)
option_eq = record { equal = opt_beq; equal_iff = opt_beq_iff }

-- An enumeration is compared by the position of its constructors.
pub tag_eq_iff {ℓ} :
    {A : Type ℓ} (tag : A → ℕ) (of_tag : ℕ → A)
    → ((a : A) → of_tag (tag a) ≡ a)
    → (a b : A) → (nat_beq (tag a) (tag b) ≡ true) ↔ (a ≡ b)
tag_eq_iff tag of_tag back a b = (
  λ h. sym (back a) ∙ ap of_tag ((nat_beq_iff (tag a) (tag b)).0 h) ∙ back b,
  λ p. (nat_beq_iff (tag a) (tag b)).1 (ap tag p),
)

pub Bool-cases : (b : Bool) → (b ≡ true) ⊎ (b ≡ false)
Bool-cases true = inl refl
Bool-cases false = inr refl

pub Option-cases {ℓ} : {A : Type ℓ} (o : Option A) → (o ≡ none) ⊎ ((a : A) × (o ≡ some a))
Option-cases none = inl refl
Option-cases (some a) = inr (a, refl)

pub ==_refl {ℓ} : {A : Type ℓ} ⦃e : Comparable A⦄ (a : A) → (a == a) ≡ true
==_refl ⦃e⦄ a = (e.equal_iff a a).1 refl

-- What a test found is an equation.
pub ==_eq {ℓ} : {A : Type ℓ} ⦃e : Comparable A⦄ {a b : A} → (a == b) ≡ true → a ≡ b
==_eq ⦃e⦄ {a} {b} h = (e.equal_iff a b).0 h

-- A value and a nullable one.
pub some_eq_iff {ℓ} :
    {A : Type ℓ} ⦃e : Comparable A⦄ (a : A) (o : Option A)
    → (opt_beq (some a) o ≡ true) ↔ (o ≡ some a)
some_eq_iff ⦃e⦄ a none = ground arith
some_eq_iff ⦃e⦄ a (some b) = ground (arith, e.equal_iff a b)

-- The order of texts by their characters.
abbrev pub text_leb : String → String → Bool
text_leb s t = elim (compare_texts s t) [ Ordering.gt ↦ false | _ ↦ true ]

-- `o !== null`, `o !== undefined`.
abbrev pub is_some {ℓ} : {A : Type ℓ} → Option A → Bool
is_some none = false
is_some (some _) = true
