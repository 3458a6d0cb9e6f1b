-- ===== src/Resolve/Tests.antt =====
-- A profile that fills a policy, and one whose reviewer is the executor.
use agent_orchestration_star.Base.{
  nat_eq, string_eq, option_eq, ok, err, String, ◌≡◌, refl, Bool, true, false, none, [], ◌∷◌,
}
use agent_orchestration_star.Resolve.{
  RoleTier, frontier_tier, economy_tier, frontier_execution, hard, dependent_reviewer,
  ProfileAssignment, RoleRequirement, Policy, ModelProfile, resolve_roles,
}
use agent_orchestration_star.Resolve.Laws.{resolved}

abbrev assignment : String → String → RoleTier → ProfileAssignment
assignment provider name tier = record {
  provider = provider;
  harness_providers = [];
  model = name;
  tier = tier;
  reasoning_effort = "high";
  capabilities = "coding" ∷ [];
  qualification = none;
}

abbrev requirement : RoleTier → Bool → RoleRequirement
requirement tier writes = record {
  tier = tier;
  capabilities = "coding" ∷ [];
  permissions = record { read = true; write = writes };
}

abbrev policy : Policy
policy = record {
  version = 1;
  roles = record {
    orchestrator = requirement frontier_tier false;
    executor = requirement economy_tier true;
    reviewer = requirement frontier_tier false;
  };
  commands = "npm test" ∷ [];
  strategies = frontier_execution ∷ [];
  isolation = hard;
}

abbrev profile_with : String → ModelProfile
profile_with reviewer = record {
  version = 1;
  id = "p";
  assignments = record {
    orchestrator = assignment "a" "large" frontier_tier;
    executor = assignment "a" "small" economy_tier;
    reviewer = assignment "a" reviewer frontier_tier;
  };
}

resolves : resolve_roles policy (profile_with "other") ≡ ok (resolved policy (profile_with "other"))
unfolding resolve_roles
resolves = refl

refuses : resolve_roles policy (profile_with "small") ≡ err dependent_reviewer
unfolding resolve_roles
refuses = refl
