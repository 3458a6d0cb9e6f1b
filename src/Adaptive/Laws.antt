-- ===== src/Adaptive/Laws.antt =====
-- What a resolved execution policy keeps to (src/runtime/adaptive-execution.ts).
use agent_orchestration_star.Base.{
  ◌≢◌, if◌then◌else◌, nat_eq, string_eq, option_eq, Bool-cases, Option-cases, length, ok,
  >>=-inversion, guard_inversion, ok-injective, ℕ, ◌-◌, ◌≤◌, min, max, ◌≡◌, refl, sym, subst, inl,
  inr, Bool, true, not, ◌&&◌, Option, none, some, List, arith,
}
use agent_orchestration_star.Contracts.{
  SourceSensitivity, TaskTrait, ExecutionLane, mechanical_economy, reasoning_economy,
  frontier_execution, failed_candidate_tree, TaskRequest, trait_eq,
}
use agent_orchestration_star.Contracts.{BindingExecution, Binding, Bindings}
use agent_orchestration_star.Adaptive.{
  criteria_of, Choice, Budget, execution_envelope, may_write, supports, qualified_binding,
  qualified, requested_lane, choose_frontier, choose_reasoning, choose_lane, choose, budget_of,
  resolve_policy,
}

-- A binding that may write, supports every trait and is healthy for them.
pub record IsFit (healthy : Binding → List TaskTrait → Bool) (sensitivity : SourceSensitivity)
    (traits : List TaskTrait) (binding : Binding) : Type 0 where
  pub writes : may_write binding sensitivity ≡ true
  pub envelope : BindingExecution
  pub enveloped : binding.execution ≡ some envelope
  pub supported : supports envelope traits ≡ true
  pub is_healthy : healthy binding traits ≡ true

module _ (healthy : Binding → List TaskTrait → Bool) (bindings : Bindings)
    (sensitivity : SourceSensitivity) (traits : List TaskTrait) where
  IsFit-of_qualified :
      (binding : Binding)
      → qualified_binding binding sensitivity traits ≡ ok true
      → healthy binding traits ≡ true
      → IsFit healthy sensitivity traits binding
  unfolding qualified_binding execution_envelope
  IsFit-of_qualified binding q h = elim (Bool-cases (may_write binding sensitivity)) [
    | inr no_write ↦ absurd (ground (arith, no_write, q))
    | inl writes ↦ elim (Option-cases binding.execution) [
      | inl missing ↦ absurd (ground (arith, writes, missing, q))
      | inr (envelope, there) ↦ record {
        writes = writes;
        envelope = envelope;
        enveloped = there;
        supported = ground (arith, writes, there, q);
        is_healthy = h;
      }
    ]
  ]

  choose_frontier-IsFit :
      (c : Choice)
      → choose_frontier healthy bindings sensitivity traits ≡ ok c
      → IsFit healthy sensitivity traits c.binding
  unfolding choose_frontier
  choose_frontier-IsFit c e =
      let (q, first, e1) =
        >>=-inversion (qualified_binding bindings.frontier_executor sensitivity traits) _ e in
      let (is_qualified, e2) = guard_inversion (not q) _ _ e1 in
      let (is_healthy, e3) =
        guard_inversion (not (healthy bindings.frontier_executor traits)) _ _ e2 in
      subst (λ (x : Choice). IsFit healthy sensitivity traits x.binding) (ok-injective e3)
        (IsFit-of_qualified bindings.frontier_executor (ground (arith, first, is_qualified))
          (ground (arith, is_healthy)))

  choose_reasoning-IsFit :
      (q : Bool) (reasoning : Option Binding) (c : Choice)
      → qualified reasoning sensitivity traits ≡ ok q
      → choose_reasoning healthy bindings sensitivity traits q reasoning ≡ ok c
      → IsFit healthy sensitivity traits c.binding
  unfolding choose_reasoning qualified
  choose_reasoning-IsFit q none c first e = choose_frontier-IsFit c e
  choose_reasoning-IsFit q (some binding) c first e =
      elim (Bool-cases (q && healthy binding traits)) [
        | inl both ↦
            let chosen : binding ≡ c.binding = ground (arith, both, e) in
            subst (IsFit healthy sensitivity traits) chosen
              (IsFit-of_qualified binding (ground (arith, first, both)) (ground (arith, both)))
        | inr neither ↦ choose_frontier-IsFit c (ground (arith, neither, e))
      ]

  choose_lane-IsFit :
      (lane : ExecutionLane) (q r : Bool) (c : Choice)
      → qualified_binding bindings.executor sensitivity traits ≡ ok q
      → qualified bindings.reasoning_executor sensitivity traits ≡ ok r
      → choose_lane healthy bindings sensitivity traits lane
          (q && healthy bindings.executor traits)
          r
        ≡ ok c
      → IsFit healthy sensitivity traits c.binding
  unfolding choose_lane
  choose_lane-IsFit frontier_execution q r c first second e = choose_frontier-IsFit c e
  choose_lane-IsFit reasoning_economy q r c first second e =
      choose_reasoning-IsFit r bindings.reasoning_executor c second e
  choose_lane-IsFit mechanical_economy q r c first second e =
      elim (Bool-cases (q && healthy bindings.executor traits)) [
        | inl both ↦
            let chosen : bindings.executor ≡ c.binding = ground (arith, both, e) in
            subst (IsFit healthy sensitivity traits) chosen (
              IsFit-of_qualified bindings.executor (ground (arith, first, both))
                (ground (arith, both)))
        | inr neither ↦
            choose_reasoning-IsFit r bindings.reasoning_executor c second
              (ground (arith, neither, e))
      ]

  -- A choice that succeeds is of a binding that is fit.
  pub choose-IsFit :
      (requested : ExecutionLane) (c : Choice)
      → choose healthy bindings sensitivity traits requested ≡ ok c
      → IsFit healthy sensitivity traits c.binding
  unfolding choose
  choose-IsFit requested c e =
      let (q, first, e1) =
        >>=-inversion (qualified_binding bindings.executor sensitivity traits) _ e in
      let (r, second, e2) =
        >>=-inversion (qualified bindings.reasoning_executor sensitivity traits) _ e1 in
      choose_lane-IsFit requested q r c first second e2

-- A budget that the binding's envelope allows.
pub record IsWithin (envelope : BindingExecution) (lane : ExecutionLane) (request : TaskRequest)
    (budget : Budget) : Type 0 where
  pub steps : budget.max_steps ≤ envelope.max_steps
  pub tool_uses : budget.max_tool_uses ≤ envelope.max_tool_uses
  pub no_mutation : budget.max_no_mutation_steps ≤ envelope.max_no_mutation_steps
  pub stops_early : budget.max_no_mutation_steps ≤ max 1 (budget.max_steps - 1)
  pub steps_bounded : budget.max_steps ≤ 44
  pub timeout : budget.timeout_seconds ≡ envelope.timeout_seconds
  pub attempts : lane ≢ frontier_execution → budget.max_attempts ≡ min 2 request.max_attempts
  pub frontier_once : lane ≡ frontier_execution → budget.max_attempts ≡ 1
  pub repairs : budget.repair_base ≡ failed_candidate_tree → budget.max_attempts ≡ 2

budget_of-IsWithin :
    (envelope : BindingExecution) (lane : ExecutionLane) (request : TaskRequest)
    (files criteria : ℕ)
    → IsWithin envelope lane request (budget_of envelope lane files criteria request.max_attempts)
unfolding budget_of
budget_of-IsWithin envelope frontier_execution request files criteria = record {
  steps = omega arith;
  tool_uses = omega arith;
  no_mutation = omega arith;
  stops_early = omega arith;
  steps_bounded = omega arith;
  timeout = refl;
  attempts = λ other. absurd (other refl);
  frontier_once = λ e. refl;
  repairs = λ e. ground (arith, e);
}
budget_of-IsWithin envelope reasoning_economy request files criteria = record {
  steps = omega arith;
  tool_uses = omega arith;
  no_mutation = omega arith;
  stops_early = omega arith;
  steps_bounded = omega arith;
  timeout = refl;
  attempts = λ _. refl;
  frontier_once = λ e. absurd (cc e);
  repairs = λ e. ground (arith, e);
}
budget_of-IsWithin envelope mechanical_economy request files criteria = record {
  steps = omega arith;
  tool_uses = omega arith;
  no_mutation = omega arith;
  stops_early = omega arith;
  steps_bounded = omega arith;
  timeout = refl;
  attempts = λ _. refl;
  frontier_once = λ e. absurd (cc e);
  repairs = λ e. ground (arith, e);
}

module _ (healthy : Binding → List TaskTrait → Bool) (bindings : Bindings)
    (sensitivity : SourceSensitivity) where
  -- A policy that is resolved names a binding that may write, supports every trait and is healthy,
  -- and its budget is within that binding's envelope: at most 44 steps, at most the attempts that
  -- were requested and two (one on the frontier lane whatever was requested), and a repair of a
  -- failed candidate only where a second attempt is left.
  pub resolve_policy-IsWithin :
      (force_frontier : Bool) (request : TaskRequest) (traits : List TaskTrait) (c : Choice)
      (b : Budget)
      → resolve_policy healthy bindings sensitivity force_frontier request traits ≡ ok (c, b)
      → (fit : IsFit healthy sensitivity traits c.binding) × IsWithin fit.envelope c.lane request b
  unfolding resolve_policy execution_envelope
  resolve_policy-IsWithin force_frontier request traits c b e =
      let lane =
        (if force_frontier
          then frontier_execution
          else requested_lane request.requested_route traits) in
      let (chosen, first, e1) =
        >>=-inversion (choose healthy bindings sensitivity traits lane) _ e in
      let (envelope, there, e2) = >>=-inversion (execution_envelope chosen.binding) _ e1 in
      let fit = choose-IsFit healthy bindings sensitivity traits lane chosen first in
      let criteria = criteria_of request request.execution_requirements in
      let files = length request.implementation_targets in
      let its : fit.envelope ≡ envelope = ground (arith, fit.enveloped, there) in
      let within : IsWithin fit.envelope chosen.lane request
          (budget_of envelope chosen.lane files criteria request.max_attempts) =
        subst
          (λ (x : BindingExecution).
            IsWithin x chosen.lane request
              (budget_of envelope chosen.lane files criteria request.max_attempts))
          (sym its) (budget_of-IsWithin envelope chosen.lane request files criteria) in
      subst
        (λ (x : Choice × Budget).
          (f : IsFit healthy sensitivity traits (x.0).binding) × IsWithin f.envelope (x.0).lane
            request x.1)
        (ok-injective e2) (fit, within)
