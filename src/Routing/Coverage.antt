-- ===== src/Routing/Coverage.antt =====
-- The routes that a profile covers (`analyzeRuntimeRouteCoverageV4` of src/runtime/readiness.ts) and
-- the binding of a route (`resolveBinding` of src/runtime/bindings.ts).
use agent_orchestration_star.Base.{
  if◌then◌else◌, ◌==◌, ◌!=◌, bool_eq, nat_eq, string_eq, option_eq, is_some, any, Result, ok, ◌>>=◌,
  ◌>>◌, throw_if, require, String, Bool, true, false, not, ◌&&◌, Option, none, some, List, [], ◌∷◌,
}
use agent_orchestration_star.Adaptive.{sensitivity_beq}
use agent_orchestration_star.Contracts.{
  SourceSensitivity, EffectiveRoute, Tier, Permissions, read_only, contract_write, Binding,
  Bindings,
}

pub data CoverageReason : Type 0 where
  supported source_unsupported permission_mismatch tier_mismatch : CoverageReason

abbrev pub is_supported : CoverageReason → Bool
is_supported supported = true
is_supported _ = false

abbrev pub may_contract_write : Permissions → Bool
may_contract_write contract_write = true
may_contract_write read_only = false

abbrev pub is_frontier_tier : Tier → Bool
is_frontier_tier Tier.frontier = true
is_frontier_tier Tier.economy = false

abbrev pub sees : SourceSensitivity → Binding → Bool
sees sensitivity binding = any (sensitivity_beq sensitivity) binding.allowed_source_sensitivity

-- Each test over all roles comes before the next; a permission is asked for by whether it writes,
-- a tier by whether it is the frontier's.
unfoldable pub role_coverage : List Binding → SourceSensitivity → Bool → Bool → CoverageReason
role_coverage roles sensitivity writes at_frontier =
    if any (λ (b : Binding). not (may_contract_write b.permissions == writes)) roles
    then permission_mismatch
    else (if any (λ (b : Binding). not (is_frontier_tier b.tier == at_frontier)) roles
        then tier_mismatch
        else (if any (λ b. not (sees sensitivity b)) roles then source_unsupported else supported))

pub record RouteCoverage : Type 0 where
  pub economy : CoverageReason
  pub frontier : CoverageReason
  pub automatic_route : Option EffectiveRoute

unfoldable pub analyze_route_coverage : Bindings → SourceSensitivity → RouteCoverage
unfolding role_coverage
analyze_route_coverage bindings sensitivity =
    let economy =
      role_coverage (bindings.executor ∷ bindings.escalation_executor ∷ []) sensitivity true
        false in
    let frontier = role_coverage (bindings.frontier_executor ∷ []) sensitivity true true in
    record {
      economy = economy;
      frontier = frontier;
      automatic_route =
          if is_supported economy
          then some EffectiveRoute.economy
          else (if is_supported frontier then some EffectiveRoute.frontier else none);
    }

pub data Stage : Type 0 where
  primary_stage reasoning_stage escalation_stage : Stage

-- `RuntimeRoleV4`, the roles that execute.
pub data ExecutingRole : Type 0 where
  executor_role reasoning_role escalation_role frontier_role : ExecutingRole

pub data BindingError : Type 0 where
  frontier_escalation : BindingError
  binding_unavailable no_write_permission wrong_tier : ExecutingRole → BindingError
  no_envelope source_refused : ExecutingRole → BindingError

pub record ResolvedBinding : Type 0 where
  pub role : ExecutingRole
  pub binding : Binding
  pub binding_hash : String

abbrev pub is_escalation : Stage → Bool
is_escalation escalation_stage = true
is_escalation _ = false

abbrev pub is_frontier_route : EffectiveRoute → Bool
is_frontier_route EffectiveRoute.frontier = true
is_frontier_route EffectiveRoute.economy = false

abbrev pub role_of : EffectiveRoute → Stage → ExecutingRole
role_of EffectiveRoute.frontier stage = frontier_role
role_of EffectiveRoute.economy escalation_stage = escalation_role
role_of EffectiveRoute.economy reasoning_stage = reasoning_role
role_of EffectiveRoute.economy primary_stage = executor_role

abbrev pub binding_of : Bindings → ExecutingRole → Option Binding
binding_of bindings executor_role = some bindings.executor
binding_of bindings reasoning_role = bindings.reasoning_executor
binding_of bindings escalation_role = some bindings.escalation_executor
binding_of bindings frontier_role = some bindings.frontier_executor

abbrev pub is_frontier_role : ExecutingRole → Bool
is_frontier_role frontier_role = true
is_frontier_role _ = false

unfoldable pub resolve_binding :
    (Binding → String)
    → Bindings
    → EffectiveRoute
    → Stage
    → SourceSensitivity
    → Result BindingError ResolvedBinding
resolve_binding hash_binding bindings route stage sensitivity = do
  throw_if (is_frontier_route route && is_escalation stage) frontier_escalation
  binding ←
      require (binding_of bindings (role_of route stage))
        (binding_unavailable (role_of route stage))
  throw_if (not (may_contract_write binding.permissions))
      (no_write_permission (role_of route stage))
  throw_if (is_frontier_tier binding.tier != is_frontier_role (role_of route stage))
      (wrong_tier (role_of route stage))
  throw_if (not (is_some binding.execution)) (no_envelope (role_of route stage))
  throw_if (not (sees sensitivity binding)) (source_refused (role_of route stage))
  ok (record { role = role_of route stage; binding = binding; binding_hash = hash_binding binding })
