-- ===== src/Resolve/Laws.antt =====
-- When a policy resolves, and what its roles are then (src/core/resolve.ts).
use agent_orchestration_star.Base.{nat_eq, string_eq, option_eq, any, elem, ◌≡◌, ◌≢◌, true, false}
use agent_orchestration_star.Resolve.{
  RoleName, orchestrator_role, executor_role, reviewer_role, ProfileAssignment, RoleRequirement,
  Policy, ModelProfile, ResolvedRole, ResolvedPolicy, same_tier, is_frontier_execution, model_ref,
  read_only, has_capabilities, lacks_qualification,
}

-- What the policy and the profile must agree on, role by role.
pub record Fills (name : RoleName) (requirement : RoleRequirement) (a : ProfileAssignment)
    : Type 0 where
  pub tier : same_tier a.tier requirement.tier ≡ true
  pub capable : has_capabilities a requirement.capabilities ≡ true
  pub trusted : lacks_qualification name a ≡ false

pub record IsResolvable (policy : Policy) (profile : ModelProfile) : Type 0 where
  pub orchestrator_reads : read_only policy.roles.orchestrator.permissions ≡ true
  pub reviewer_reads : read_only policy.roles.reviewer.permissions ≡ true
  pub executor_reads : policy.roles.executor.permissions.read ≡ true
  pub executor_writes : policy.roles.executor.permissions.write ≡ true
  pub orchestrator :
      Fills orchestrator_role policy.roles.orchestrator profile.assignments.orchestrator
  pub executor : Fills executor_role policy.roles.executor profile.assignments.executor
  pub reviewer : Fills reviewer_role policy.roles.reviewer profile.assignments.reviewer
  pub codes :
      any is_frontier_execution policy.strategies ≡ true
      → elem "coding" profile.assignments.orchestrator.capabilities ≡ true
  pub independent : model_ref profile.assignments.reviewer ≢ model_ref profile.assignments.executor
  pub explicit : model_ref profile.assignments.executor ≢ model_ref profile.assignments.orchestrator

abbrev pub resolved_role : RoleRequirement → ProfileAssignment → ResolvedRole
resolved_role requirement a = record {
  assignment = a;
  model_ref = model_ref a;
  permissions = requirement.permissions;
}

abbrev pub resolved : Policy → ModelProfile → ResolvedPolicy
resolved policy profile = record {
  policy_version = policy.version;
  profile_version = profile.version;
  profile_id = profile.id;
  roles = record {
    orchestrator = resolved_role policy.roles.orchestrator profile.assignments.orchestrator;
    executor = resolved_role policy.roles.executor profile.assignments.executor;
    reviewer = resolved_role policy.roles.reviewer profile.assignments.reviewer;
  };
  commands = policy.commands;
  strategies = policy.strategies;
  isolation = policy.isolation;
}
