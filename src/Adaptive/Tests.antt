-- ===== src/Adaptive/Tests.antt =====
-- A policy resolved for a request, and the theorem at it.
use agent_orchestration_star.Base.{
  nat_eq, string_eq, option_eq, length, ok, ◌≡◌, refl, Bool, true, false, none, some, List, [], ◌∷◌,
}
use agent_orchestration_star.Contracts.{
  public, source_code_only, economy, TaskTrait, mechanical, localized, mechanical_economy, executor,
  trait_eq, contract_write, BindingExecution, Binding, Bindings,
}
use agent_orchestration_star.Adaptive.{Choice, Budget, budget_of, criteria_of, resolve_policy}
use agent_orchestration_star.Adaptive.Laws.{IsFit, IsWithin, resolve_policy-IsWithin}
use agent_orchestration_star.Samples.{request}

abbrev envelope : BindingExecution
envelope = record {
  supported_task_traits = mechanical ∷ localized ∷ [];
  max_steps = 20;
  max_tool_uses = 30;
  max_no_mutation_steps = 5;
  timeout_seconds = 600;
  supports_failed_candidate_repair = true;
}

abbrev writer : Binding
writer = record {
  harness = "opencode";
  provider = "provider";
  model = "model";
  tier = economy;
  capability = "cheap";
  allowed_data_scopes = source_code_only ∷ [];
  allowed_source_sensitivity = public ∷ [];
  permissions = contract_write;
  execution = some envelope;
}

abbrev bindings : Bindings
bindings = record {
  orchestrator = writer;
  executor = writer;
  reasoning_executor = none;
  escalation_executor = writer;
  frontier_executor = writer;
  reviewer = writer;
}

abbrev always : Binding → List TaskTrait → Bool
always binding traits = true

abbrev chosen : Choice
chosen = record { lane = mechanical_economy; executor_role = executor; binding = writer }

abbrev budget : Budget
budget =
    budget_of envelope mechanical_economy (length request.implementation_targets)
      (criteria_of request request.execution_requirements) request.max_attempts

resolved :
    resolve_policy always bindings public false request (localized ∷ []) ≡ ok (chosen, budget)
unfolding resolve_policy
resolved = refl

resolve_policy-IsWithin_example :
    (fit : IsFit always public (localized ∷ []) writer) × IsWithin fit.envelope mechanical_economy
      request budget
resolve_policy-IsWithin_example =
    resolve_policy-IsWithin always bindings public false request (localized ∷ []) chosen budget
      resolved
