-- ===== src/Base/Texts.antt =====
-- Texts by their characters' codes, and the classes, lengths and patterns that the loaders test
-- (the regular expressions of src/runtime/run-state.ts and src/runtime/contract-schemas.ts).
use Prim.Native.Nat.{ℕ, zero, suc, ◌+◌, ◌-◌, ◌/◌, ◌%◌}
use Prim.Native.Char.{code}
use Prim.Native.String.{String}
use mathlib.Core.Bool.{Bool, true, false, not, ◌&&◌, ◌||◌}
use mathlib.Core.Path.{◌≡◌, refl}
use mathlib.Core.Logic.{◌≢◌}
use mathlib.Core.Option.{Option, none, some}
use mathlib.Core.List.{List, [], ◌∷◌, ◌++◌}
use native.Mathlib.Omega.{arith}
use agent_orchestration_star.Base.Tests.{ltb, leb, nat_beq, if◌then◌else◌}
use agent_orchestration_star.Base.Lists.{length, all, any, drop}

abbrev pub codes : String → List ℕ
codes String.[] = []
codes (String.◌∷◌ c s) = code c ∷ codes s

-- `s.length` counts UTF-16 units: two for a code point beyond the basic plane.
abbrev units : List ℕ → ℕ
units [] = 0
units (c ∷ cs) = (if ltb c 65536 then 1 else 2) + units cs

unfoldable pub text_length : String → ℕ
text_length s = units (codes s)

-- `[0-9]`, `[a-z]`, `[A-Za-z]`.
abbrev pub is_digit : ℕ → Bool
is_digit c = leb b'0' c && leb c b'9'

abbrev pub is_lower : ℕ → Bool
is_lower c = leb b'a' c && leb c b'z'

abbrev pub is_letter : ℕ → Bool
is_letter c = is_lower c || (leb b'A' c && leb c b'Z')

-- `[a-f0-9]`, `[A-Za-z0-9]`, and that with further characters.
abbrev pub is_hex : ℕ → Bool
is_hex c = is_digit c || (leb b'a' c && leb c b'f')

abbrev pub is_alphanumeric : ℕ → Bool
is_alphanumeric c = is_letter c || is_digit c

abbrev pub is_among : List ℕ → ℕ → Bool
is_among [] c = false
is_among (d ∷ ds) c = nat_beq d c || is_among ds c

abbrev pub is_word : String → ℕ → Bool
is_word extra c = is_alphanumeric c || is_among (codes extra) c

-- `^[class]{low,high}$`.
abbrev pub repeats : (ℕ → Bool) → ℕ → ℕ → List ℕ → Bool
repeats in_class low high cs = leb low (length cs) && leb (length cs) high && all in_class cs

-- `^[class]+$`.
abbrev pub repeats_some : (ℕ → Bool) → List ℕ → Bool
repeats_some in_class cs = leb 1 (length cs) && all in_class cs

-- The text after a prefix.
abbrev pub strip : List ℕ → List ℕ → Option (List ℕ)
strip [] cs = some cs
strip (p ∷ ps) [] = none
strip (p ∷ ps) (c ∷ cs) = if nat_beq p c then strip ps cs else none

-- `^prefix` and a test of the rest.
abbrev pub after : String → (List ℕ → Bool) → String → Bool
after prefix test s = elim (strip (codes prefix) (codes s)) [ none ↦ false | some rest ↦ test rest ]

-- `[A-Za-z0-9][class]{0,high}`.
abbrev pub headed : (ℕ → Bool) → ℕ → List ℕ → Bool
headed in_class high [] = false
headed in_class high (c ∷ cs) = is_alphanumeric c && repeats in_class 0 high cs

-- `s.split(separator)`: one part more than separators.
abbrev pub onto_first : ℕ → List (List ℕ) → List (List ℕ)
onto_first c [] = (c ∷ []) ∷ []
onto_first c (part ∷ parts) = (c ∷ part) ∷ parts

unfoldable pub split_on : ℕ → List ℕ → List (List ℕ)
split_on separator [] = [] ∷ []
split_on separator (c ∷ cs) =
    let rest = split_on separator cs in if nat_beq c separator then [] ∷ rest else onto_first c rest

onto_first-append :
    (c : ℕ) (ss ts : List (List ℕ)) → ss ≢ [] → onto_first c (ss ++ ts) ≡ onto_first c ss ++ ts
onto_first-append c [] ts h = absurd (h refl)
onto_first-append c (s ∷ ss) ts h = refl

split_on_some : (separator : ℕ) (a : List ℕ) → split_on separator a ≢ []
unfolding split_on
split_on_some separator [] h = cc
split_on_some separator (c ∷ a) h = ground (arith, split_on_some separator a)

pub split_on-joined :
    (separator : ℕ) (a b : List ℕ)
    → split_on separator (a ++ separator ∷ b) ≡ split_on separator a ++ split_on separator b
unfolding split_on
split_on-joined separator [] b = ground arith
split_on-joined separator (c ∷ a) b = rw (split_on-joined separator a b) (
    ground (
      arith,
      onto_first-append c (split_on separator a) (split_on separator b),
      split_on_some separator a,
    ))

-- A text without the separator is one part.
pub split_on_whole :
    (separator : ℕ) (a : List ℕ)
    → all (λ c. not (nat_beq c separator)) a ≡ true
    → split_on separator a ≡ a ∷ []
unfolding split_on
split_on_whole separator [] h = refl
split_on_whole separator (c ∷ a) h = ground (arith, split_on_whole separator a)

abbrev pub equal_codes : List ℕ → List ℕ → Bool
equal_codes [] [] = true
equal_codes (a ∷ s) (b ∷ t) = nat_beq a b && equal_codes s t
equal_codes [] (b ∷ t) = false
equal_codes (a ∷ s) [] = false

-- `s.endsWith(suffix)`.
unfoldable pub ends_with : List ℕ → List ℕ → Bool
ends_with suffix cs =
    leb (length suffix) (length cs) && equal_codes suffix (drop (length cs - length suffix) cs)

-- `s.includes(part)`.
unfoldable pub includes_at : List ℕ → List ℕ → Bool
includes_at part [] = elim (strip part []) [ none ↦ false | some _ ↦ true ]
includes_at part (c ∷ cs) = elim (strip part (c ∷ cs)) [
  | none ↦ includes_at part cs
  | some _ ↦ true
]

-- A number in decimal, as a template puts it. Each round divides by ten, so the number itself is
-- fuel enough.
digits : ℕ → ℕ → List ℕ → List ℕ
digits zero n rest = (b'0' + n % 10) ∷ rest
digits (suc fuel) n rest = elim (ltb n 10) [
  | true ↦ (b'0' + n) ∷ rest
  | false ↦ digits fuel (n / 10) ((b'0' + n % 10) ∷ rest)
]

unfoldable pub decimal : ℕ → List ℕ
unfolding digits
decimal n = digits n n []

-- The characters that `trim` removes.
abbrev spaces : List ℕ
spaces =
    9 ∷ 10 ∷ 11 ∷ 12 ∷ 13 ∷ 32 ∷ 160 ∷ 5760 ∷ 8192 ∷ 8193 ∷ 8194 ∷ 8195 ∷ 8196 ∷ 8197 ∷ 8198 ∷ 8199
    ∷ 8200 ∷ 8201 ∷ 8202 ∷ 8232 ∷ 8233 ∷ 8239 ∷ 8287 ∷ 12288 ∷ 65279 ∷ []

-- `s.trim().length < 1`.
unfoldable pub is_blank : String → Bool
is_blank s = all (is_among spaces) (codes s)

-- `s.includes('\u0000')`.
unfoldable pub has_nul : String → Bool
has_nul s = any (nat_beq 0) (codes s)

-- Lower case of an ASCII letter, as a pattern without regard to case compares it.
abbrev pub ascii_lower : ℕ → ℕ
ascii_lower c = if leb b'A' c && leb c b'Z' then c + 32 else c

decimal_test : decimal 9007 ≡ codes "9007"
unfolding decimal
decimal_test = refl
