-- ===== src/Adaptive.antt =====
-- The execution policy of a request: its lane, its binding and its budget
-- (src/runtime/adaptive-execution.ts).
use agent_orchestration_star.Base.{
  Comparable, ltb, leb, nat_beq, if◌then◌else◌, nat_beq_iff, ◌==◌, ◌!=◌, nat_eq, string_eq, opt_beq,
  opt_beq_iff, option_eq, tag_eq_iff, Bool-cases, Option-cases, ==_refl, ==_eq, some_eq_iff,
  text_leb, is_some, length, get_elem?, drop, drop_at, length-drop, eq_nil_of_length, any, all,
  filter, find, all_of_not-any, length-append, get_elem?-append_end, last?, elem, all-elem,
  some-elem, All, All-of_mem, All_at, All-append, lookup, insert, lookup-insert, lookup-insert_self,
  or_else, get_or, add, remove, Result, ok, err, ◌>>=◌, ◌>>◌, throw_if, require, >>=-inversion,
  guard_inversion, require_inversion, Result-cases, ok-injective, value_or, ℕ, zero, suc, ◌+◌, ◌-◌,
  ◌*◌, ◌/◌, ◌%◌, ◌≤◌, ◌<◌, min, max, String, ◌≡◌, refl, sym, ap, ◌∙◌, subst, subst₂, ◌≢◌, ◌↔◌, ◌⊎◌,
  inl, inr, Bool, true, false, not, ◌&&◌, ◌||◌, Option, none, some, List, [], ◌∷◌, ◌++◌, map, Memᴰ,
  append-nil, append_assoc, arith,
}
use agent_orchestration_star.Contracts.{
  SourceSensitivity, public, private, DataScope, source_code_only, RequestedRoute, auto, economy,
  frontier, EffectiveRoute, ChangeOperation, create, modify, delete, TaskTrait, mechanical,
  localized, semantic_debugging, cross_file_reasoning, multimodal, long_horizon, architecture,
  security_sensitive, migration, ExecutionLane, mechanical_economy, reasoning_economy,
  frontier_execution, RepairBase, last_accepted_tree, failed_candidate_tree, ExecutorRole, executor,
  reasoning_executor, frontier_executor, AllowedChange, ExecutionRequirements, ExecutionPolicy,
  TaskRequest, WorkContract, trait_beq, trait_beq_iff, trait_eq,
}
use agent_orchestration_star.Contracts.{
  Tier, frontier, economy, Permissions, read_only, contract_write, BindingExecution, Binding,
  Bindings, Profile,
}
mod Laws
mod Tests

pub data AdaptiveError : Type 0 where
  missing_envelope no_binding_supports frontier_quarantined : AdaptiveError

-- `frontierTraits` and `reasoningTraits`.
abbrev frontier_traits : List TaskTrait
frontier_traits = architecture ∷ security_sensitive ∷ migration ∷ long_horizon ∷ []

abbrev reasoning_traits : List TaskTrait
reasoning_traits = semantic_debugging ∷ cross_file_reasoning ∷ multimodal ∷ []

abbrev pub sensitivity_beq : SourceSensitivity → SourceSensitivity → Bool
sensitivity_beq public public = true
sensitivity_beq public private = false
sensitivity_beq private public = false
sensitivity_beq private private = true

unfoldable pub execution_envelope : Binding → Result AdaptiveError BindingExecution
execution_envelope binding = require binding.execution missing_envelope

-- The binding may write at all, and may see the source.
unfoldable pub may_write : Binding → SourceSensitivity → Bool
may_write binding sensitivity =
    (elim binding.permissions [ contract_write ↦ true | read_only ↦ false ])
    && any (sensitivity_beq sensitivity) binding.allowed_source_sensitivity

unfoldable pub supports : BindingExecution → List TaskTrait → Bool
supports envelope traits = all (λ trait. elem trait envelope.supported_task_traits) traits

unfoldable pub qualified_binding :
    Binding → SourceSensitivity → List TaskTrait → Result AdaptiveError Bool
unfolding may_write execution_envelope supports
qualified_binding binding sensitivity traits = elim (may_write binding sensitivity) [
  | false ↦ ok false
  | true ↦ do envelope ← execution_envelope binding; ok (supports envelope traits)
]

unfoldable pub qualified :
    Option Binding → SourceSensitivity → List TaskTrait → Result AdaptiveError Bool
unfolding qualified_binding
qualified none sensitivity traits = ok false
qualified (some binding) sensitivity traits = qualified_binding binding sensitivity traits

abbrev pub is_frontier : RequestedRoute → Bool
is_frontier frontier = true
is_frontier economy = false
is_frontier auto = false

unfoldable pub requested_lane : RequestedRoute → List TaskTrait → ExecutionLane
requested_lane route traits =
    if is_frontier route || any (λ trait. elem trait frontier_traits) traits
    then frontier_execution
    else if any (λ trait. elem trait reasoning_traits) traits
    then reasoning_economy
    else mechanical_economy

pub record Choice : Type 0 where
  pub lane : ExecutionLane
  pub executor_role : ExecutorRole
  pub binding : Binding

abbrev choice : ExecutionLane → ExecutorRole → Binding → Choice
choice lane executor_role binding = record {
  lane = lane;
  executor_role = executor_role;
  binding = binding;
}

-- What the health snapshots allow is a function of the binding and the traits.
module _ (healthy : Binding → List TaskTrait → Bool) (bindings : Bindings)
    (sensitivity : SourceSensitivity) (traits : List TaskTrait) where
  unfoldable pub choose_frontier : Result AdaptiveError Choice
  unfolding qualified_binding
  choose_frontier = do
    frontier_qualified ← qualified_binding bindings.frontier_executor sensitivity traits
    throw_if (not frontier_qualified) no_binding_supports
    throw_if (not (healthy bindings.frontier_executor traits)) frontier_quarantined
    ok (choice frontier_execution frontier_executor bindings.frontier_executor)

  -- A reasoning binding takes either economy lane, if it is qualified and healthy.
  unfoldable pub choose_reasoning : Bool → Option Binding → Result AdaptiveError Choice
  unfolding choose_frontier
  choose_reasoning reasoning_qualified none = choose_frontier
  choose_reasoning reasoning_qualified (some binding) =
      if reasoning_qualified && healthy binding traits
      then ok (choice reasoning_economy reasoning_executor binding)
      else choose_frontier

  unfoldable pub choose_lane : ExecutionLane → Bool → Bool → Result AdaptiveError Choice
  unfolding choose_frontier choose_reasoning
  choose_lane frontier_execution executor_healthy reasoning_qualified = choose_frontier
  choose_lane reasoning_economy executor_healthy reasoning_qualified =
      choose_reasoning reasoning_qualified bindings.reasoning_executor
  choose_lane mechanical_economy executor_healthy reasoning_qualified =
      if executor_healthy
      then ok (choice mechanical_economy executor bindings.executor)
      else choose_reasoning reasoning_qualified bindings.reasoning_executor

  unfoldable pub choose : ExecutionLane → Result AdaptiveError Choice
  unfolding qualified qualified_binding choose_lane
  choose requested = do
    executor_qualified ← qualified_binding bindings.executor sensitivity traits
    reasoning_qualified ← qualified bindings.reasoning_executor sensitivity traits
    choose_lane requested (executor_qualified && healthy bindings.executor traits)
        reasoning_qualified

-- The budget of a choice: bounded by the binding's envelope.
pub record Budget : Type 0 where
  pub max_steps : ℕ
  pub max_tool_uses : ℕ
  pub max_no_mutation_steps : ℕ
  pub timeout_seconds : ℕ
  pub max_attempts : ℕ
  pub repair_base : RepairBase

unfoldable pub lane_floor : ExecutionLane → ℕ
lane_floor mechanical_economy = 8
lane_floor reasoning_economy = 16
lane_floor frontier_execution = 24

-- `Math.max(0, files - 1)` is subtraction on ℕ.
unfoldable pub desired_steps : ExecutionLane → ℕ → ℕ → ℕ
unfolding lane_floor
desired_steps lane files criteria =
    lane_floor lane + min 12 ((files - 1) * 2) + min 8 (criteria - 1)

unfoldable pub attempts_of : ExecutionLane → ℕ → ℕ
attempts_of frontier_execution requested = 1
attempts_of reasoning_economy requested = min 2 requested
attempts_of mechanical_economy requested = min 2 requested

unfoldable pub budget_of : BindingExecution → ExecutionLane → ℕ → ℕ → ℕ → Budget
unfolding desired_steps attempts_of
budget_of envelope lane files criteria requested_attempts =
    let steps : ℕ = min envelope.max_steps (desired_steps lane files criteria) in
    let attempts : ℕ = attempts_of lane requested_attempts in
    record {
      max_steps = steps;
      max_no_mutation_steps =
          min (min envelope.max_no_mutation_steps (max 3 (files + 2))) (max 1 (steps - 1));
      max_tool_uses = min envelope.max_tool_uses (max steps (steps * 2));
      timeout_seconds = envelope.timeout_seconds;
      max_attempts = attempts;
      repair_base =
          if ltb 1 attempts && envelope.supports_failed_candidate_repair
          then failed_candidate_tree
          else last_accepted_tree;
    }

-- The acceptance criteria that the request counts, or its success criteria.
abbrev pub criteria_of : TaskRequest → Option ExecutionRequirements → ℕ
criteria_of request none = length request.success_criteria
criteria_of request (some requirements) = requirements.acceptance_criteria_count

unfoldable pub resolve_policy :
    (Binding → List TaskTrait → Bool)
    → Bindings
    → SourceSensitivity
    → Bool
    → TaskRequest
    → List TaskTrait
    → Result AdaptiveError (Choice × Budget)
unfolding choose execution_envelope budget_of requested_lane
resolve_policy healthy bindings sensitivity force_frontier request traits = do
  chosen ←
      choose healthy bindings sensitivity traits (
        if force_frontier
        then frontier_execution
        else requested_lane request.requested_route traits)
  envelope ← execution_envelope chosen.binding
  ok (
    chosen,
    budget_of envelope chosen.lane (length request.implementation_targets)
        (criteria_of request request.execution_requirements) request.max_attempts,
  )
