-- ===== src/Routing/Floor.antt =====
-- What a derived contract keeps to (src/runtime/routing.ts).
use agent_orchestration_star.Base.{
  nat_beq, ◌!=◌, bool_eq, nat_eq, string_eq, option_eq, ==_eq, is_some, length, ok, guard_inversion,
  require_inversion, ok-injective, String, ◌≡◌, refl, ◌∙◌, subst, Bool, true, not, ◌&&◌, ◌||◌, some,
  List, arith,
}
use agent_orchestration_star.Adaptive.{is_frontier}
use agent_orchestration_star.Routing.Coverage.{
  Stage, primary_stage, reasoning_stage, escalation_stage, frontier_escalation, binding_unavailable,
  no_write_permission, wrong_tier, no_envelope, source_refused, ResolvedBinding, may_contract_write,
  is_frontier_tier, sees, is_escalation, is_frontier_route, role_of, binding_of, is_frontier_role,
  resolve_binding,
}
use agent_orchestration_star.Routing.Contract.{
  RepositoryPolicy, RegisteredRepository, Deriving, policy_route_reasons,
}
use agent_orchestration_star.Contracts.{
  SourceSensitivity, EffectiveRoute, TaskTrait, TaskRequest, WorkContract, Binding, Bindings,
  Profile,
}

-- What is known of the binding of a route.
pub record IsBound (bindings : Bindings) (route : EffectiveRoute) (sensitivity : SourceSensitivity)
    (b : ResolvedBinding) : Type 0 where
  pub writes : may_contract_write b.binding.permissions ≡ true
  pub tier : is_frontier_tier b.binding.tier ≡ is_frontier_route route
  pub sees_source : sees sensitivity b.binding ≡ true
  pub enveloped : is_some b.binding.execution ≡ true
  pub own : binding_of bindings b.role ≡ some b.binding

frontier_role_of :
    (route : EffectiveRoute) (stage : Stage)
    → is_frontier_role (role_of route stage) ≡ is_frontier_route route
frontier_role_of EffectiveRoute.frontier stage = refl
frontier_role_of EffectiveRoute.economy primary_stage = refl
frontier_role_of EffectiveRoute.economy reasoning_stage = refl
frontier_role_of EffectiveRoute.economy escalation_stage = refl

-- A binding that is resolved for a route is the profile's own for its role; it may write, is of the
-- route's tier, has an envelope and may see the source.
pub resolve_binding-IsBound :
    (hash_binding : Binding → String) (bindings : Bindings) (route : EffectiveRoute) (stage : Stage)
    (sensitivity : SourceSensitivity) (b : ResolvedBinding)
    → resolve_binding hash_binding bindings route stage sensitivity ≡ ok b
    → IsBound bindings route sensitivity b
unfolding resolve_binding
resolve_binding-IsBound hash_binding bindings route stage sensitivity b h =
    let role = role_of route stage in
    let (_, e1) =
      guard_inversion (is_frontier_route route && is_escalation stage) frontier_escalation _ h in
    let (binding, found, e2) =
      require_inversion (binding_of bindings role) (binding_unavailable role) _ e1 in
    let (writes, e3) =
      guard_inversion (not (may_contract_write binding.permissions)) (no_write_permission role) _
        e2 in
    let (tier, e4) =
      guard_inversion (is_frontier_tier binding.tier != is_frontier_role role) (wrong_tier role) _
        e3 in
    let (envelope, e5) =
      guard_inversion (not (is_some binding.execution)) (no_envelope role) _ e4 in
    let (seen, e6) = guard_inversion (not (sees sensitivity binding)) (source_refused role) _ e5 in
    subst (IsBound bindings route sensitivity) (ok-injective e6) (record {
      writes = ground (arith, writes);
      tier = ==_eq (ground (arith, tier)) ∙ frontier_role_of route stage;
      sees_source = ground (arith, seen);
      enveloped = ground (arith, envelope);
      own = found;
    })

module _ (d : Deriving) (healthy : Binding → List TaskTrait → Bool) (request : TaskRequest)
    (run_id : String) (registration : RegisteredRepository) (policy : RepositoryPolicy)
    (profile : Profile) (base_sha : String) (sandboxes : List (String × String))
    (traits : List TaskTrait) where
  -- Why a request must go to the frontier.
  abbrev pub must_be_frontier : Bool
  must_be_frontier =
      is_frontier request.requested_route
      || not (nat_beq (length (policy_route_reasons request policy)) 0)

  pub record IsDerived (c : WorkContract) : Type 0 where
    pub request_kept : c.request ≡ request
    pub allowed : request.repository_id ≡ policy.repository_id
    pub registered : request.repository_id ≡ registration.repository_id
    pub floor : must_be_frontier ≡ true → c.effective_route ≡ EffectiveRoute.frontier
    pub bound :
        (b : ResolvedBinding) × IsBound profile.bindings c.effective_route policy.source_sensitivity
          b
    pub sensitivity : c.effective_source_sensitivity ≡ policy.source_sensitivity
    pub sealed : c.contract_hash ≡ d.hash_contract (record c { contract_hash = "" })
    pub loads : d.contract_loads c ≡ true
