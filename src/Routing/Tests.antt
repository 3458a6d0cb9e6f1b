-- ===== src/Routing/Tests.antt =====
-- A request that its policy sends to the frontier.
use agent_orchestration_star.Base.{
  bool_eq, nat_eq, string_eq, option_eq, ok, err, ◌≡◌, refl, Bool, true, false, none, some, List,
  [], ◌∷◌,
}
use agent_orchestration_star.Adaptive.{Choice, Budget}
use agent_orchestration_star.Routing.Coverage.{
  primary_stage, frontier_role, ResolvedBinding, resolve_binding,
}
use agent_orchestration_star.Routing.Contract.{
  RepositoryPolicy, RegisteredRepository, Deriving, Routed, derive_work_contract,
}
use agent_orchestration_star.Routing.Floor.{IsBound, resolve_binding-IsBound}
use agent_orchestration_star.Samples.{request, contract, hash64}
use agent_orchestration_star.Contracts.{
  public, source_code_only, EffectiveRoute, TaskTrait, mechanical, ExecutionPolicy, WorkContract,
  Tier, Permissions, read_only, contract_write, BindingExecution, Binding, Profile,
}

abbrev envelope : BindingExecution
envelope = record {
  supported_task_traits = mechanical ∷ [];
  max_steps = 20;
  max_tool_uses = 40;
  max_no_mutation_steps = 5;
  timeout_seconds = 60;
  supports_failed_candidate_repair = false;
}

abbrev binding : Tier → Permissions → Binding
binding tier permissions = record {
  harness = "h";
  provider = "p";
  model = "m";
  tier = tier;
  capability = "c";
  allowed_data_scopes = source_code_only ∷ [];
  allowed_source_sensitivity = public ∷ [];
  permissions = permissions;
  execution = some envelope;
}

abbrev profile : Profile
profile = record {
  id = "profile";
  bindings = record {
    orchestrator = binding Tier.frontier read_only;
    executor = binding Tier.economy contract_write;
    reasoning_executor = none;
    escalation_executor = binding Tier.economy contract_write;
    frontier_executor = binding Tier.frontier contract_write;
    reviewer = binding Tier.frontier read_only;
  };
  max_economy_parallel_requests = 1;
  max_concurrent_runs_per_repository = 1;
}

abbrev policy : RepositoryPolicy
policy = record {
  repository_id = "repo";
  frontier_only = record {
    risk_classes = [];
    task_classes = [];
    source_sensitivity = [];
    paths = "src" ∷ [];
  };
  source_sensitivity = public;
  data_scope = source_code_only;
  required_profiles = [];
  hash = hash64;
}

abbrev registration : RegisteredRepository
registration = record { repository_id = "repo"; canonical_root = "/repo" }

abbrev policy_of : Choice → Budget → ExecutionPolicy
policy_of choice budget = record {
  lane = choice.lane;
  executor_role = choice.executor_role;
  task_traits = mechanical ∷ [];
  max_steps = budget.max_steps;
  max_tool_uses = budget.max_tool_uses;
  max_no_mutation_steps = budget.max_no_mutation_steps;
  timeout_seconds = budget.timeout_seconds;
  max_attempts = budget.max_attempts;
  repair_base = budget.repair_base;
  reasons = [];
  health_evidence_hashes = none;
  policy_hash = hash64;
}

abbrev deriving_hashes : Deriving
deriving_hashes = record {
  hash_decision = λ _ _. hash64;
  hash_profile = λ _. hash64;
  hash_text = λ _. hash64;
  hash_contract = λ _. hash64;
  hash_binding = λ _. hash64;
  route_text = λ _. "reason";
  policy_record = policy_of;
  contract_loads = λ _. true;
}

always_healthy : Binding → List TaskTrait → Bool
always_healthy _ _ = true

derived : Routed WorkContract
unfolding derive_work_contract always_healthy
derived =
    derive_work_contract deriving_hashes always_healthy request "run_1" registration policy profile
      "base" [] (mechanical ∷ [])

abbrev derived_contract : WorkContract
unfolding derived
derived_contract = elim derived [ ok c ↦ c | err _ ↦ contract ]

goes_to_the_frontier : derived_contract.effective_route ≡ EffectiveRoute.frontier
unfolding derived
goes_to_the_frontier = refl

frontier_binding : ResolvedBinding
frontier_binding = record {
  role = frontier_role;
  binding = profile.bindings.frontier_executor;
  binding_hash = hash64;
}

resolves :
    resolve_binding (λ _. hash64) profile.bindings EffectiveRoute.frontier primary_stage public
    ≡ ok frontier_binding
unfolding resolve_binding frontier_binding
resolves = refl

resolve_binding-IsBound_example :
    IsBound profile.bindings EffectiveRoute.frontier public frontier_binding
resolve_binding-IsBound_example =
    resolve_binding-IsBound (λ _. hash64) profile.bindings EffectiveRoute.frontier primary_stage
      public frontier_binding resolves
