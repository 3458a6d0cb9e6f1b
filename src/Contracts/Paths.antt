-- ===== src/Contracts/Paths.antt =====
-- Paths relative to a repository's root (`isNormalizedRepositoryRelativePathV4` of
-- src/runtime/contract-schemas.ts).
use agent_orchestration_star.Base.{
  leb, nat_beq, if◌then◌else◌, nat_eq, string_eq, option_eq, length, any, all, last?, get_or, codes,
  is_among, strip, split_on, split_on-joined, equal_codes, ascii_lower, ℕ, String, ◌≡◌, refl, sym,
  ◌∙◌, Bool, true, false, not, ◌&&◌, ◌||◌, none, some, List, [], ◌∷◌, ◌++◌, map, append-nil,
  append_assoc, arith,
}
use mathlib.Core.Option

-- `/[\0\\:*?"<>|[\]{}]/`.
abbrev prohibited_characters : List ℕ
prohibited_characters = 0 ∷ 92 ∷ 58 ∷ 42 ∷ 63 ∷ 34 ∷ 60 ∷ 62 ∷ 124 ∷ 91 ∷ 93 ∷ 123 ∷ 125 ∷ []

-- The names that Windows reserves, with a digit from 1 to 9 behind the last two.
abbrev device_names : List String
device_names = "con" ∷ "prn" ∷ "aux" ∷ "nul" ∷ []

abbrev numbered_devices : List String
numbered_devices = "com" ∷ "lpt" ∷ []

-- `(?:\..*)?$`: nothing, or an extension on one line.
abbrev is_extension : List ℕ → Bool
is_extension [] = true
is_extension (c ∷ cs) = nat_beq c 46 && all (λ d. not (is_among (10 ∷ 13 ∷ 8232 ∷ 8233 ∷ []) d)) cs

abbrev is_numbered_extension : List ℕ → Bool
is_numbered_extension [] = false
is_numbered_extension (c ∷ cs) = leb b'1' c && leb c b'9' && is_extension cs

unfoldable pub is_reserved_device : List ℕ → Bool
is_reserved_device segment =
    let folded = map ascii_lower segment in
    any (λ name. get_or (Option.map is_extension (strip (codes name) folded)) false) device_names
    || any (λ name. get_or (Option.map is_numbered_extension (strip (codes name) folded)) false)
        numbered_devices

-- `/[. ]$/`.
abbrev ends_loosely : List ℕ → Bool
ends_loosely segment = elim (last? segment) [ none ↦ false | some c ↦ is_among (46 ∷ 32 ∷ []) c ]

unfoldable pub is_safe_segment : List ℕ → Bool
unfolding is_reserved_device
is_safe_segment segment =
    not (equal_codes segment [])
    && not (equal_codes segment (codes "."))
    && not (equal_codes segment (codes ".."))
    && not (any (is_among prohibited_characters) segment)
    && not (ends_loosely segment)
    && not (is_reserved_device segment)

abbrev pub split_slash : List ℕ → List (List ℕ)
split_slash value = split_on b'/' value

abbrev starts_with_slash : List ℕ → Bool
starts_with_slash [] = false
starts_with_slash (c ∷ cs) = nat_beq c b'/'

unfoldable pub is_normalized : List ℕ → Bool
is_normalized value =
    let segments = split_slash value in
    if nat_beq (length value) 0 || starts_with_slash value
    then false
    else all is_safe_segment segments

abbrev pub is_normalized_path : String → Bool
is_normalized_path value = is_normalized (codes value)

-- How a file system follows segments from a directory: an empty one and `.` stay, `..` climbs.
abbrev parent : List (List ℕ) → List (List ℕ)
parent [] = []
parent (d ∷ []) = []
parent (d ∷ e ∷ ds) = d ∷ parent (e ∷ ds)

abbrev enter : List (List ℕ) → List ℕ → List (List ℕ)
enter directory segment =
    if equal_codes segment [] || equal_codes segment (codes ".")
    then directory
    else (if equal_codes segment (codes "..") then parent directory else directory ++ segment ∷ [])

unfoldable pub walk : List (List ℕ) → List (List ℕ) → List (List ℕ)
walk directory [] = directory
walk directory (segment ∷ segments) = walk (enter directory segment) segments

safe_enters :
    (directory : List (List ℕ)) (segment : List ℕ)
    → is_safe_segment segment ≡ true
    → enter directory segment ≡ directory ++ segment ∷ []
unfolding is_safe_segment
safe_enters directory segment h = ground arith

walk_safe :
    (directory segments : List (List ℕ))
    → all is_safe_segment segments ≡ true
    → walk directory segments ≡ directory ++ segments
unfolding walk
walk_safe directory [] h = sym (append-nil directory)
walk_safe directory (s ∷ segments) h = rw (safe_enters directory s (ground arith)) (
    walk_safe (directory ++ s ∷ []) segments (ground arith)
    ∙ append_assoc directory (s ∷ []) segments)

-- A normalized path followed from any directory ends at that directory's path with the path's own
-- segments behind it: it never climbs, so the target lies below the directory.
pub normalized_stays :
    (directory : List (List ℕ)) (value : String)
    → is_normalized_path value ≡ true
    → walk directory (split_slash (codes value)) ≡ directory ++ split_slash (codes value)
unfolding is_normalized
normalized_stays directory value h = walk_safe directory (split_slash (codes value)) (ground arith)

all-append : (p : List ℕ → Bool) (ss ts : List (List ℕ)) → all p (ss ++ ts) ≡ (all p ss && all p ts)
all-append p [] ts = refl
all-append p (s ∷ ss) ts = ground (arith, all-append p ss ts)

-- The first guard refuses only what has an empty segment.
is_normalized-segments :
    (value : List ℕ) → is_normalized value ≡ all is_safe_segment (split_slash value)
unfolding is_normalized split_on is_safe_segment
is_normalized-segments [] = refl
is_normalized-segments (c ∷ cs) = ground arith

-- Two paths joined by a slash make a normalized path exactly when both are normalized.
pub is_normalized-joined :
    (a b : List ℕ) → is_normalized (a ++ b'/' ∷ b) ≡ (is_normalized a && is_normalized b)
is_normalized-joined a b =
    rw
      (
        is_normalized-segments (a ++ b'/' ∷ b),
        is_normalized-segments a,
        is_normalized-segments b,
        split_on-joined b'/' a b,
        all-append,
      )
      refl
