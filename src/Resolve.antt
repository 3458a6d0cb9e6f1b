-- ===== src/Resolve.antt =====
-- The resolution of a policy's roles by a model profile (src/core/resolve.ts, src/core/types.ts).
use agent_orchestration_star.Base.{
  leb, nat_beq, ◌==◌, any, all, elem, Result, ok, ◌>>=◌, ◌>>◌, throw_if, ℕ, String, Bool, true,
  false, not, ◌&&◌, ◌||◌, Option, none, some, List, nat_eq, string_eq,
}
use Prim.Native.String.{◌++◌ as join_texts}
mod Laws
mod Tests

pub data RoleTier : Type 0 where
  frontier_tier economy_tier : RoleTier

abbrev tier_tag : RoleTier → ℕ
tier_tag frontier_tier = 0
tier_tag economy_tier = 1

abbrev pub same_tier : RoleTier → RoleTier → Bool
same_tier a b = nat_beq (tier_tag a) (tier_tag b)

pub data RoutingStrategy : Type 0 where
  economy_only orchestrated frontier_execution : RoutingStrategy

abbrev pub is_frontier_execution : RoutingStrategy → Bool
is_frontier_execution frontier_execution = true
is_frontier_execution _ = false

pub data WriteIsolation : Type 0 where
  hard degraded : WriteIsolation

-- `requiredCleanRuns` is the literal 3; `status` is VERIFIED or not.
pub record AgenticQualification : Type 0 where
  pub policy_version : String
  pub verified : Bool
  pub clean_runs : ℕ
  pub required_clean_runs : ℕ
  pub evidence_hash : String

pub record ProfileAssignment : Type 0 where
  pub provider : String
  pub harness_providers : List (String × String)
  pub model : String
  pub tier : RoleTier
  pub reasoning_effort : String
  pub capabilities : List String
  pub qualification : Option AgenticQualification

pub record RolePermissions : Type 0 where
  pub read : Bool
  pub write : Bool

pub record RoleRequirement : Type 0 where
  pub tier : RoleTier
  pub capabilities : List String
  pub permissions : RolePermissions

-- `Record<RoleName, A>`.
pub record Roles (A : Type 0) : Type 0 where
  pub orchestrator : A
  pub executor : A
  pub reviewer : A

pub record Policy : Type 0 where
  pub version : ℕ
  pub roles : Roles RoleRequirement
  pub commands : List String
  pub strategies : List RoutingStrategy
  pub isolation : WriteIsolation

pub record ModelProfile : Type 0 where
  pub version : ℕ
  pub id : String
  pub assignments : Roles ProfileAssignment

pub record ResolvedRole : Type 0 where
  pub assignment : ProfileAssignment
  pub model_ref : String
  pub permissions : RolePermissions

pub record ResolvedPolicy : Type 0 where
  pub policy_version : ℕ
  pub profile_version : ℕ
  pub profile_id : String
  pub roles : Roles ResolvedRole
  pub commands : List String
  pub strategies : List RoutingStrategy
  pub isolation : WriteIsolation

-- The errors, by the statement that throws; those of the loop carry the role.
pub data RoleName : Type 0 where
  orchestrator_role executor_role reviewer_role : RoleName

pub data ResolveError : Type 0 where
  not_read_only : RoleName → ResolveError
  executor_permissions : ResolveError
  wrong_tier missing_capabilities : RoleName → ResolveError
  unqualified_executor orchestrator_cannot_code : ResolveError
  dependent_reviewer executor_inherits : ResolveError

abbrev pub is_executor : RoleName → Bool
is_executor executor_role = true
is_executor _ = false

-- A slash between the provider and the model.
abbrev pub model_ref : ProfileAssignment → String
model_ref a = join_texts a.provider (join_texts "/" a.model)

abbrev pub read_only : RolePermissions → Bool
read_only p = p.read && not p.write

abbrev pub has_capabilities : ProfileAssignment → List String → Bool
has_capabilities a required = all (λ c. elem c a.capabilities) required

-- Three clean runs, where the assignment executes tools on its own.
abbrev pub is_qualified : Option AgenticQualification → Bool
is_qualified none = false
is_qualified (some q) = q.verified && leb q.required_clean_runs q.clean_runs

abbrev pub lacks_qualification : RoleName → ProfileAssignment → Bool
lacks_qualification name a =
    is_executor name
    && elem "agentic_tool_execution" a.capabilities
    && not (is_qualified a.qualification)

unfoldable pub resolve_role :
    RoleName → RoleRequirement → ProfileAssignment → Result ResolveError ResolvedRole
resolve_role name requirement a = do
  throw_if (not (same_tier a.tier requirement.tier)) (wrong_tier name)
  throw_if (not (has_capabilities a requirement.capabilities)) (missing_capabilities name)
  throw_if (lacks_qualification name a) unqualified_executor
  ok (record { assignment = a; model_ref = model_ref a; permissions = requirement.permissions })

unfoldable pub resolve_roles : Policy → ModelProfile → Result ResolveError ResolvedPolicy
unfolding resolve_role
resolve_roles policy profile = do
  throw_if (not (read_only policy.roles.orchestrator.permissions)) (not_read_only orchestrator_role)
  throw_if (not (read_only policy.roles.reviewer.permissions)) (not_read_only reviewer_role)
  throw_if
      (not policy.roles.executor.permissions.read || not policy.roles.executor.permissions.write)
      executor_permissions
  orchestrator ←
      resolve_role orchestrator_role policy.roles.orchestrator profile.assignments.orchestrator
  executor ← resolve_role executor_role policy.roles.executor profile.assignments.executor
  reviewer ← resolve_role reviewer_role policy.roles.reviewer profile.assignments.reviewer
  throw_if
      (any is_frontier_execution policy.strategies
        && not (elem "coding" profile.assignments.orchestrator.capabilities))
      orchestrator_cannot_code
  throw_if (reviewer.model_ref == executor.model_ref) dependent_reviewer
  throw_if (executor.model_ref == orchestrator.model_ref) executor_inherits
  ok (record {
    policy_version = policy.version;
    profile_version = profile.version;
    profile_id = profile.id;
    roles = record { orchestrator = orchestrator; executor = executor; reviewer = reviewer };
    commands = policy.commands;
    strategies = policy.strategies;
    isolation = policy.isolation;
  })
