-- ===== src/Routing/Contract.antt =====
-- The work contract of a request (src/runtime/routing.ts).
use agent_orchestration_star.Base.{
  nat_beq, if◌then◌else◌, ◌==◌, ◌!=◌, bool_eq, nat_eq, string_eq, option_eq, length, any, elem,
  lookup, Result, ok, err, ◌>>=◌, ◌>>◌, throw_if, require, String, Bool, true, false, not, ◌&&◌,
  ◌||◌, Option, none, some, List, [], ◌∷◌, ◌++◌, map,
}
use agent_orchestration_star.Adaptive.{
  AdaptiveError, Choice, Budget, sensitivity_beq, is_frontier, requested_lane, resolve_policy,
}
use agent_orchestration_star.Routing.Coverage.{
  CoverageReason, supported, source_unsupported, permission_mismatch, tier_mismatch, Stage,
  primary_stage, reasoning_stage, BindingError, RouteCoverage, analyze_route_coverage,
  is_frontier_route, resolve_binding,
}
use agent_orchestration_star.Contracts.{
  SourceSensitivity, DataScope, RequestedRoute, auto, EffectiveRoute, AllowedChange, TaskTrait,
  ExecutionLane, frontier_execution, ExecutorRole, executor, reasoning_executor, frontier_executor,
  ExecutionPolicy, TaskRequest, WorkContract, Binding, Profile,
}
use text.Mathlib.Text.{starts_with}
use Prim.Native.String.{◌++◌ as join_texts}

-- What the repository's policy sends to the frontier alone.
pub record FrontierOnly : Type 0 where
  pub risk_classes : List String
  pub task_classes : List String
  pub source_sensitivity : List SourceSensitivity
  pub paths : List String

-- The fields of the frozen policy that a contract reads.
pub record RepositoryPolicy : Type 0 where
  pub repository_id : String
  pub frontier_only : FrontierOnly
  pub source_sensitivity : SourceSensitivity
  pub data_scope : DataScope
  pub required_profiles : List String
  pub hash : String

pub record RegisteredRepository : Type 0 where
  pub repository_id : String
  pub canonical_root : String

-- `requestedRank[requested] === 2 || policyRequiresFrontier`.
abbrev pub effective_route : RequestedRoute → Bool → EffectiveRoute
effective_route requested policy_requires =
    if is_frontier requested || policy_requires
    then EffectiveRoute.frontier
    else EffectiveRoute.economy

-- The reasons of a route, each for the text that says it.
pub data RouteReason : Type 0 where
  request_requires economy_incompatible bindings_lack : RouteReason
  risk_class task_class protected_path : String → RouteReason
  source_sensitive : SourceSensitivity → RouteReason
  eligible : ExecutionLane → RouteReason

abbrev pub is_below : String → AllowedChange → Bool
is_below path change = change.path == path || starts_with change.path (join_texts path "/")

abbrev pub path_reasons : List AllowedChange → List String → List RouteReason
path_reasons targets [] = []
path_reasons targets (path ∷ paths) =
    if any (is_below path) targets
    then protected_path path ∷ path_reasons targets paths
    else path_reasons targets paths

abbrev pub reason_if : Bool → RouteReason → List RouteReason
reason_if true reason = reason ∷ []
reason_if false reason = []

unfoldable pub policy_route_reasons : TaskRequest → RepositoryPolicy → List RouteReason
policy_route_reasons request policy =
    reason_if (is_frontier request.requested_route) request_requires
    ++ reason_if (elem request.requested_risk_class policy.frontier_only.risk_classes)
        (risk_class request.requested_risk_class)
    ++ reason_if (elem request.task_class policy.frontier_only.task_classes)
        (task_class request.task_class)
    ++ reason_if
        (any (sensitivity_beq policy.source_sensitivity) policy.frontier_only.source_sensitivity)
        (source_sensitive policy.source_sensitivity)
    ++ path_reasons request.implementation_targets policy.frontier_only.paths

pub data RoutingError : Type 0 where
  repository_not_allowed source_sensitivity_unsupported incompatible_route : RoutingError
  sandbox_unavailable contract_refused : RoutingError
  no_policy : AdaptiveError → RoutingError
  no_binding : BindingError → RoutingError

abbrev pub Routed : Type 0 → Type 0
Routed A = Result RoutingError A

abbrev pub selected : EffectiveRoute → RouteCoverage → CoverageReason
selected EffectiveRoute.economy coverage = coverage.economy
selected EffectiveRoute.frontier coverage = coverage.frontier

abbrev pub assert_supported : CoverageReason → Routed (Unit {0})
assert_supported supported = ok tt
assert_supported source_unsupported = err source_sensitivity_unsupported
assert_supported permission_mismatch = err incompatible_route
assert_supported tier_mismatch = err incompatible_route

unfoldable pub assert_route_coverage : EffectiveRoute → RouteCoverage → Routed (Unit {0})
assert_route_coverage route coverage = assert_supported (selected route coverage)

-- Hashes (src/runtime/canonical.ts), the texts of reasons, the execution policy's own record, and
-- the schema of a contract (src/runtime/load.ts).
pub record Deriving : Type 0 where
  pub hash_decision : EffectiveRoute → List String → String
  pub hash_profile : Profile → String
  pub hash_text : String → String
  pub hash_contract : WorkContract → String
  pub hash_binding : Binding → String
  pub route_text : RouteReason → String
  pub policy_record : Choice → Budget → ExecutionPolicy
  pub contract_loads : WorkContract → Bool

-- The sandbox profiles by name, each with its canonical hash.
unfoldable pub sandbox_profile_hashes :
    List (String × String) → List String → Routed (List (String × String))
unfolding lookup
sandbox_profile_hashes profiles [] = ok []
sandbox_profile_hashes profiles (name ∷ names) = do
  hash ← require (lookup name profiles) sandbox_unavailable
  rest ← sandbox_profile_hashes profiles names
  ok ((name, hash) ∷ rest)

abbrev pub is_frontier_lane : ExecutionLane → Bool
is_frontier_lane frontier_execution = true
is_frontier_lane _ = false

abbrev pub is_auto : RequestedRoute → Bool
is_auto auto = true
is_auto _ = false

abbrev pub adapt : {A : Type 0} → Result AdaptiveError A → Routed A
adapt (ok a) = ok a
adapt (err e) = err (no_policy e)

abbrev pub bind_route : {A : Type 0} → Result BindingError A → Routed A
bind_route (ok a) = ok a
bind_route (err e) = err (no_binding e)

abbrev pub is_automatic_frontier : Option EffectiveRoute → Bool
is_automatic_frontier none = false
is_automatic_frontier (some route) = is_frontier_route route

abbrev pub lane_route : ExecutionLane → EffectiveRoute
lane_route lane = if is_frontier_lane lane then EffectiveRoute.frontier else EffectiveRoute.economy

abbrev pub stage_of : ExecutorRole → Stage
stage_of reasoning_executor = reasoning_stage
stage_of executor = primary_stage
stage_of frontier_executor = primary_stage

-- The frontier covers an automatic request that nothing else sends there and the economy cannot
-- take.
abbrev pub is_redirected : TaskRequest → List RouteReason → RouteCoverage → Bool
is_redirected request reasons coverage =
    is_auto request.requested_route
    && nat_beq (length reasons) 0
    && is_automatic_frontier coverage.automatic_route

-- The lane that the execution policy asks for, before bindings are considered.
abbrev pub asked_lane : Bool → TaskRequest → List TaskTrait → ExecutionLane
asked_lane force request traits =
    if force then frontier_execution else requested_lane request.requested_route traits

-- Of the policy's reasons only the one of a request that was moved to the frontier has the words
-- that the contract takes over.
abbrev pub lacking : ExecutionLane → ExecutionLane → List RouteReason
lacking asked lane = reason_if (is_frontier_lane lane && not (is_frontier_lane asked)) bindings_lack

abbrev pub or_eligible : ExecutionLane → List RouteReason → List RouteReason
or_eligible lane reasons = if nat_beq (length reasons) 0 then eligible lane ∷ [] else reasons

module _ (d : Deriving) (healthy : Binding → List TaskTrait → Bool) (request : TaskRequest)
    (run_id : String) (registration : RegisteredRepository) (policy : RepositoryPolicy)
    (profile : Profile) (base_sha : String) (sandboxes : List (String × String))
    (traits : List TaskTrait) where
  abbrev pub coverage : RouteCoverage
  coverage = analyze_route_coverage profile.bindings policy.source_sensitivity

  abbrev pub reasons_before : List RouteReason
  reasons_before =
      let reasons = policy_route_reasons request policy in
      reasons ++ reason_if (is_redirected request reasons coverage) economy_incompatible

  abbrev pub route_before : EffectiveRoute
  route_before =
      let reasons = policy_route_reasons request policy in
      if is_redirected request reasons coverage
      then EffectiveRoute.frontier
      else effective_route request.requested_route (not (nat_beq (length reasons) 0))

  abbrev pub reasons_after : ExecutionLane → List String
  reasons_after lane = map d.route_text (
      or_eligible lane (
        reasons_before
        ++ lacking (asked_lane (is_frontier_route route_before) request traits) lane))

  abbrev pub draft_contract : Choice → Budget → List (String × String) → String → WorkContract
  draft_contract choice budget hashes contract_hash = record {
    request = request;
    run_id = run_id;
    repository_root_hash = d.hash_text registration.canonical_root;
    base_sha = base_sha;
    effective_risk_class = request.requested_risk_class;
    effective_route = lane_route choice.lane;
    route_decision_reasons = reasons_after choice.lane;
    route_decision_hash = d.hash_decision (lane_route choice.lane) (reasons_after choice.lane);
    execution_policy = some (d.policy_record choice budget);
    effective_data_scope = policy.data_scope;
    effective_source_sensitivity = policy.source_sensitivity;
    sandbox_profile_hashes = hashes;
    policy_hash = policy.hash;
    profile_hash = d.hash_profile profile;
    contract_hash = contract_hash;
  }

  -- The hash is that of the contract without its hash.
  abbrev pub sealed_contract : Choice → Budget → List (String × String) → WorkContract
  sealed_contract choice budget hashes =
      draft_contract choice budget hashes (d.hash_contract (draft_contract choice budget hashes ""))

  unfoldable pub derive_work_contract : Routed WorkContract
  unfolding analyze_route_coverage policy_route_reasons assert_route_coverage resolve_policy
      resolve_binding sandbox_profile_hashes
  derive_work_contract = do
    throw_if
        (request.repository_id != registration.repository_id
          || request.repository_id != policy.repository_id)
        repository_not_allowed
    assert_route_coverage route_before coverage
    decided ← adapt (
        resolve_policy healthy profile.bindings policy.source_sensitivity
          (is_frontier_route route_before) request traits)
    bound ← bind_route (
        resolve_binding d.hash_binding profile.bindings (lane_route decided.0.lane)
          (stage_of decided.0.executor_role) policy.source_sensitivity)
    hashes ← sandbox_profile_hashes sandboxes policy.required_profiles
    throw_if (not (d.contract_loads (sealed_contract decided.0 decided.1 hashes))) contract_refused
    ok (sealed_contract decided.0 decided.1 hashes)
