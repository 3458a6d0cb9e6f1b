-- ===== src/Base/Lists.antt =====
-- Lists as the source's arrays, measured by native numbers, and objects used as maps.
use Prim.Native.Nat.{ℕ, zero, suc, ◌+◌, ◌-◌}
use mathlib.Core.Path.{◌≡◌, refl, sym, subst}
use mathlib.Core.Bool.{Bool, true, false, not, ◌&&◌, ◌||◌}
use mathlib.Core.Option.{Option, none, some}
use mathlib.Core.List.{List, [], ◌∷◌, ◌++◌, Memᴰ, map}
use mathlib.Core.Logic.{inl, inr}
use native.Mathlib.Omega.{arith}
use agent_orchestration_star.Base.Tests.{
  option_eq, Comparable, Bool-cases, ◌==◌, ◌!=◌, if◌then◌else◌, ==_refl,
}

module _ {ℓ} {A : Type ℓ} where
  abbrev pub length : List A → ℕ
  length [] = 0
  length (x ∷ xs) = suc (length xs)

  -- `xs[i]`, `undefined` out of range.
  abbrev pub get_elem? : List A → ℕ → Option A
  get_elem? [] i = none
  get_elem? (x ∷ xs) zero = some x
  get_elem? (x ∷ xs) (suc i) = get_elem? xs i

  abbrev pub drop : ℕ → List A → List A
  drop zero xs = xs
  drop (suc n) [] = []
  drop (suc n) (x ∷ xs) = drop n xs

  pub drop_at :
      (xs : List A) (n : ℕ) (x : A) → get_elem? xs n ≡ some x → drop n xs ≡ x ∷ drop (suc n) xs
  drop_at [] n x h = cc
  drop_at (y ∷ xs) zero x h = cc
  drop_at (y ∷ xs) (suc n) x h = drop_at xs n x h

  pub length-drop : (n : ℕ) (xs : List A) → length (drop n xs) ≡ length xs - n
  length-drop zero xs = omega arith
  length-drop (suc n) [] = omega arith
  length-drop (suc n) (x ∷ xs) = omega (arith, length-drop n xs)

  pub eq_nil_of_length : (xs : List A) → length xs ≡ 0 → xs ≡ []
  eq_nil_of_length [] h = refl
  eq_nil_of_length (x ∷ xs) h = absurd (omega arith)

  -- `Array.prototype.some`, `every`, `filter` and `find`.
  abbrev pub any : (A → Bool) → List A → Bool
  any p [] = false
  any p (x ∷ xs) = p x || any p xs

  abbrev pub all : (A → Bool) → List A → Bool
  all p [] = true
  all p (x ∷ xs) = p x && all p xs

  abbrev pub filter : (A → Bool) → List A → List A
  filter p [] = []
  filter p (x ∷ xs) = if p x then x ∷ filter p xs else filter p xs

  abbrev pub find : (A → Bool) → List A → Option A
  find p [] = none
  find p (x ∷ xs) = if p x then some x else find p xs

  pub all_of_not-any :
      (p : A → Bool) (xs : List A) → any (λ x. not (p x)) xs ≡ false → all p xs ≡ true
  all_of_not-any p [] h = refl
  all_of_not-any p (x ∷ xs) h = ground (arith, all_of_not-any p xs)

  pub length-append : (xs ys : List A) → length (xs ++ ys) ≡ length xs + length ys
  length-append [] ys = omega arith
  length-append (x ∷ xs) ys = omega (arith, length-append xs ys)

  pub get_elem?-append_end : (xs : List A) (x : A) → get_elem? (xs ++ x ∷ []) (length xs) ≡ some x
  get_elem?-append_end [] x = refl
  get_elem?-append_end (y ∷ xs) x = get_elem?-append_end xs x

  -- `xs.at(-1)`.
  abbrev pub last? : List A → Option A
  last? [] = none
  last? (x ∷ []) = some x
  last? (x ∷ y ∷ xs) = last? (y ∷ xs)

-- `includes`.
abbrev pub elem {ℓ} : {A : Type ℓ} ⦃e : Comparable A⦄ → A → List A → Bool
elem a [] = false
elem a (x ∷ xs) = x == a || elem a xs

-- A test that holds at every listed value.
pub all-elem {ℓ} :
    {A : Type ℓ} ⦃e : Comparable A⦄ (p : A → Bool) (xs : List A) (x : A)
    → all p xs ≡ true
    → elem x xs ≡ true
    → p x ≡ true
all-elem p [] x h m = cc
all-elem ⦃e⦄ p (y ∷ xs) x h m = elim (Bool-cases (y == x)) [
  | inl same ↦ subst (λ z. p z ≡ true) ((e.equal_iff y x).0 same) (ground arith)
  | inr differ ↦ all-elem p xs x (ground arith) (ground arith)
]

pub some-elem {ℓ} :
    {A : Type ℓ} ⦃e : Comparable A⦄ (xs : List A) (x : A)
    → elem x xs ≡ true
    → elem (some x) (map some xs) ≡ true
some-elem [] x m = cc
some-elem (y ∷ xs) x m = elim (Bool-cases (y == x)) [
  | inl same ↦ ground arith
  | inr differ ↦ ground (arith, some-elem xs x)
]

-- A predicate on every element.
module _ {ℓ κ} {A : Type ℓ} (P : A → Type κ) where
  abbrev pub All : List A → Type κ
  All [] = Unit
  All (x ∷ xs) = P x × All xs

  pub All-of_mem : (xs : List A) → ((x : A) → Memᴰ x xs → P x) → All xs
  All-of_mem [] f = tt
  All-of_mem (x ∷ xs) f = (f x (Memᴰ.head refl), All-of_mem xs (λ y m. f y (Memᴰ.tail m)))

  pub All_at : (xs : List A) (x : A) → All xs → Memᴰ x xs → P x
  All_at [] x h m = elim m [ ]
  All_at (y ∷ xs) x (p, h) (Memᴰ.head e) = subst P (sym e) p
  All_at (y ∷ xs) x (p, h) (Memᴰ.tail m) = All_at xs x h m

  pub All-append : (xs ys : List A) → All xs → All ys → All (xs ++ ys)
  All-append [] ys _ k = k
  All-append (x ∷ xs) ys (p, h) k = (p, All-append xs ys h k)

-- An object used as a map, by insertion order: `m[k]` and `{ ...m, [k]: v }`.
module _ {ℓ κ} {K : Type κ} {V : Type ℓ} ⦃e : Comparable K⦄ where
  unfoldable pub lookup : K → List (K × V) → Option V
  lookup key ((other, value) ∷ rest) = if other == key then some value else lookup key rest
  lookup key [] = none

  unfoldable pub insert : K → V → List (K × V) → List (K × V)
  insert key value ((other, old) ∷ rest) =
      if other == key then (other, value) ∷ rest else (other, old) ∷ insert key value rest
  insert key value [] = (key, value) ∷ []

  pub lookup-insert :
      (key other : K) (value : V) (rest : List (K × V))
      → lookup other (insert key value rest)
        ≡ (if key == other then some value else lookup other rest)
  unfolding lookup insert
  lookup-insert key other value ((first, _) ∷ rest) = ground (
    arith,
    lookup-insert key other value rest,
    e.equal_iff first key,
    e.equal_iff first other,
    e.equal_iff key other,
  )
  lookup-insert key other value [] = refl

  pub lookup-insert_self : (k : K) (v : V) (m : List (K × V)) → lookup k (insert k v m) ≡ some v
  lookup-insert_self k v m = simp (lookup-insert, ==_refl)

-- `a ?? b`.
abbrev pub or_else {ℓ} : {A : Type ℓ} → Option A → Option A → Option A
or_else none b = b
or_else (some a) b = some a

abbrev pub get_or {ℓ} : {A : Type ℓ} → Option A → A → A
get_or none a = a
get_or (some x) a = x

-- `Set.prototype.add` and `Set.prototype.delete`, in the order of insertion.
module _ {ℓ} {A : Type ℓ} ⦃e : Comparable A⦄ where
  abbrev pub add : A → List A → List A
  add a xs = if elem a xs then xs else xs ++ a ∷ []

  abbrev pub remove : A → List A → List A
  remove a xs = filter (λ x. x != a) xs
