-- ===== src/Contracts/Tests.antt =====
-- The theorems on paths at a path of two segments.
use agent_orchestration_star.Base.{
  nat_eq, string_eq, option_eq, codes, split_on, ◌≡◌, refl, true, false, ◌&&◌, [], ◌∷◌, ◌++◌,
}
use agent_orchestration_star.Contracts.Paths.{
  is_reserved_device, is_safe_segment, split_slash, is_normalized, is_normalized_path, walk,
  normalized_stays, is_normalized-joined,
}

good_path : is_normalized_path "src/a.ts" ≡ true
unfolding is_normalized is_safe_segment is_reserved_device split_on
good_path = refl

climbing_path : is_normalized_path "src/../a.ts" ≡ false
unfolding is_normalized is_safe_segment is_reserved_device split_on
climbing_path = refl

device_path : is_normalized_path "src/CON.txt" ≡ false
unfolding is_normalized is_safe_segment is_reserved_device split_on
device_path = refl

normalized_stays_example :
    walk (codes "repo" ∷ []) (split_slash (codes "src/a.ts"))
    ≡ (codes "repo" ∷ []) ++ split_slash (codes "src/a.ts")
normalized_stays_example = normalized_stays (codes "repo" ∷ []) "src/a.ts" good_path

is_normalized-joined_example :
    is_normalized (codes "src" ++ b'/' ∷ codes "a.ts")
    ≡ (is_normalized (codes "src") && is_normalized (codes "a.ts"))
is_normalized-joined_example = is_normalized-joined (codes "src") (codes "a.ts")
