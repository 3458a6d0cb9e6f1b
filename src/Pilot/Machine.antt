-- ===== src/Pilot/Machine.antt =====
-- One event against the state of its block (src/pilot/state-machine.ts).
use agent_orchestration_star.Base.{
  leb, if◌then◌else◌, ◌==◌, ◌!=◌, nat_eq, string_eq, option_eq, find, Result, ok, err, ◌>>=◌, ◌>>◌,
  throw_if, require, value_or, ℕ, ◌-◌, String, Bool, true, false, not, ◌&&◌, ◌||◌, Option, none,
  some, List, [], ◌∷◌,
}
use agent_orchestration_star.Pilot.Vocabulary.{
  Capability, cheap, strong, AttemptKind, implementation, repair_1, final_execution, accept, reject,
  clean, arm_eq, capability_eq, kind_eq, decision_eq, isolation_eq, finding_eq, role_eq,
}
use agent_orchestration_star.Pilot.States.{
  BlockState, ready_1, executing_1, ready_review_1, ready_2, executing_2, ready_review_2, ready_3,
  executing_3, ready_final_review, invalid, event_invalidated_type, Route, strong_baseline_route,
  cheap_route, adaptive_route, direct_strong, state_eq, is_terminal, type_eq, route_eq,
}
use agent_orchestration_star.Pilot.Events.{
  Payload, block_planned, arm_assigned, isolation_attested, execution_started, execution_completed,
  review_started, review_completed, validation_recorded, orchestrator_operation_recorded,
  usage_recorded, parent_rework_recorded, block_accepted, block_failed, block_blocked,
  escalation_decided, post_accept_defect_recorded, event_invalidated, ExecutionStarted, PilotEvent,
}
use agent_orchestration_star.Pilot.Manifest.{Binding, ManifestBlock, ArmAssignment, Manifest}
use agent_orchestration_star.Pilot.Errors.{
  PilotError, manifest_mismatch, unknown_block, arm_mismatch, block_identity_mismatch,
  capability_mismatch, binding_mismatch, planned_block_hash_mismatch, assignment_mismatch,
  isolation_invalid, attempt_ceiling_or_order, completion_order_invalid, execution_duration_invalid,
  tree_reproduction_invalid, review_order_invalid, reviewer_independence_invalid,
  review_proof_invalid, unresolved_acceptance, empty_rejection, escalation_invalid,
  invalidation_not_projected, conflicting_terminal, illegal_event_state_pair, orphan_evidence,
}
use agent_orchestration_star.Pilot.Codec.{Codec, canonical_boundary}
use agent_orchestration_star.Pilot.Rows.{
  RowTarget, to_state, same, event_type_of, decision_of, route_of_arm, find_row,
}

-- The other fields by which an event names its block.
unfoldable pub identity_differs : PilotEvent → ManifestBlock → Bool
identity_differs event block =
    event.task_id != block.task_id
    || event.matching_stratum != block.matching_stratum
    || event.pair_or_triplet_id != block.pair_or_triplet_id
    || event.case_fingerprint != block.case_fingerprint

-- A block without an assignment takes the direct strong route, with no arm in its events.
unfoldable pub direct_refused : PilotEvent → ManifestBlock → Bool
direct_refused event block =
    block.comparative_eligible
    || event.pilot_arm != none
    || block.selected_executor_capability_initial != strong
    || block.selected_executor_capability_final_expected != strong

unfoldable pub route_of_block :
    PilotEvent → ManifestBlock → Option ArmAssignment → Result PilotError Route
unfolding identity_differs direct_refused
route_of_block event block none = do
  throw_if (direct_refused event block) arm_mismatch
  throw_if (identity_differs event block) block_identity_mismatch
  ok direct_strong
route_of_block event block (some assignment) = do
  throw_if (event.pilot_arm != some assignment.pilot_arm) arm_mismatch
  throw_if (identity_differs event block) block_identity_mismatch
  ok (route_of_arm assignment.pilot_arm)

unfoldable pub find_block : Manifest → String → Option ManifestBlock
find_block manifest block_id = find (λ candidate. candidate.block_id == block_id) manifest.blocks

unfoldable pub block_context : Manifest → PilotEvent → Result PilotError (ManifestBlock × Route)
unfolding route_of_block find_block
block_context manifest event = do
  throw_if (event.pilot_id != manifest.pilot_id || event.manifest_hash != manifest.manifest_hash)
      manifest_mismatch
  block ← require (find_block manifest event.block_id) unknown_block
  route ←
      route_of_block event block
        (find (λ candidate. candidate.block_id == block.block_id) manifest.arm_assignments)
  ok (block, route)

unfoldable pub route_for : Route → ℕ → Capability
route_for strong_baseline_route attempt_number = strong
route_for direct_strong attempt_number = strong
route_for cheap_route attempt_number = cheap
route_for adaptive_route attempt_number = if attempt_number == 3 then strong else cheap

unfoldable pub find_binding : Manifest → String → Option Binding
find_binding manifest binding_ref =
    find (λ candidate. candidate.binding_ref == binding_ref) manifest.binding_registry

abbrev pub has_capability : Option Binding → Capability → Bool
has_capability none capability = false
has_capability (some binding) capability = binding.capability_class == capability

unfoldable pub assert_execution_route :
    Manifest → Route → ExecutionStarted → Result PilotError (Unit {0})
unfolding route_for find_binding
assert_execution_route manifest route execution = do
  throw_if (execution.executor_capability != route_for route execution.attempt_number)
      capability_mismatch
  throw_if
      (not (
        has_capability (find_binding manifest execution.executor_binding_ref)
          (route_for route execution.attempt_number)))
      binding_mismatch

-- The attempt that a state expects; its next state is the table's.
abbrev pub expected_attempt : Option BlockState → Option (ℕ × AttemptKind)
expected_attempt (some ready_1) = some (1, implementation)
expected_attempt (some ready_2) = some (2, repair_1)
expected_attempt (some ready_3) = some (3, final_execution)
expected_attempt _ = none

abbrev pub is_expected : Option (ℕ × AttemptKind) → ExecutionStarted → Bool
is_expected none execution = false
is_expected (some (number, attempt_kind)) execution =
    execution.attempt_number == number && execution.attempt_kind == attempt_kind

unfoldable pub valid_duration : ℕ → ℕ → ℕ → Bool
valid_duration started finished duration = leb started finished && duration == finished - started

abbrev pub expected_completion : Option BlockState → ℕ
expected_completion (some executing_1) = 1
expected_completion (some executing_2) = 2
expected_completion (some executing_3) = 3
expected_completion _ = 0

abbrev pub expected_round : Option BlockState → ℕ
expected_round (some ready_review_1) = 1
expected_round (some ready_review_2) = 2
expected_round (some ready_final_review) = 3
expected_round _ = 0

abbrev pub is_empty : {A : Type 0} → List A → Bool
is_empty [] = true
is_empty (_ ∷ _) = false

module _ (codec : Codec) where
  unfoldable pub assert_transition_guard :
      Manifest
      → ManifestBlock
      → Route
      → Option BlockState
      → PilotEvent
      → Payload
      → Result PilotError (Unit {0})
  unfolding assert_execution_route valid_duration canonical_boundary find_binding
  assert_transition_guard manifest block route state event (block_planned planned_block_hash) =
      throw_if (planned_block_hash != block.contract_hash) planned_block_hash_mismatch
  assert_transition_guard manifest block route state event (arm_assigned assigned_arm version) =
      throw_if
        (route_of_arm assigned_arm != route || version != manifest.assignment_algorithm_version)
        assignment_mismatch
  assert_transition_guard manifest block route state event (isolation_attested isolation) =
      throw_if
        (isolation.base_revision != block.base_revision
          || isolation.clean_tree_hash != block.clean_tree_hash
          || isolation.isolation_policy_version != manifest.isolation_policy_version
          || isolation.isolation_status != clean
          || isolation.observed_tree_hash != isolation.clean_tree_hash)
        isolation_invalid
  assert_transition_guard manifest block route state event (execution_started execution) = do
    throw_if (not (is_expected (expected_attempt state) execution)) attempt_ceiling_or_order
    assert_execution_route manifest route execution
  assert_transition_guard manifest block route state event (execution_completed completion) = do
    throw_if (completion.attempt_number != expected_completion state) completion_order_invalid
    assert_execution_route manifest route completion.started
    throw_if
        (not (
          valid_duration completion.started_monotonic_ms completion.finished_monotonic_ms
            completion.duration_ms))
        execution_duration_invalid
    throw_if
        (completion.canonical_tree_algorithm_version != manifest.canonical_tree_algorithm_version
          || completion.volatile_paths_policy_hash != manifest.volatile_paths_policy_hash
          || not completion.tree_reproduced)
        tree_reproduction_invalid
  assert_transition_guard manifest block route state event (review_started review) = do
    throw_if (review.review_round != expected_round state) review_order_invalid
    throw_if
        (review.reviewer_binding_ref != manifest.routing_reviewer_binding_ref
          || review.reviewer_session_id == review.executor_session_id_reviewed)
        reviewer_independence_invalid
  assert_transition_guard manifest block route state event (review_completed review) = do
    throw_if
        (not (
            valid_duration review.started_monotonic_ms review.finished_monotonic_ms
              review.duration_ms)
          || review.review_boundary_hash != canonical_boundary codec event review)
        review_proof_invalid
    throw_if (review.decision == accept && not (is_empty review.unresolved_finding_ids))
        unresolved_acceptance
    throw_if
        (review.decision == reject
          && is_empty review.unresolved_finding_ids
          && is_empty review.material_findings
          && is_empty review.non_material_findings)
        empty_rejection
  assert_transition_guard manifest block route state event (escalation_decided escalation) =
      throw_if
        (not (has_capability (find_binding manifest escalation.target_binding_ref) strong)
          || escalation.target_capability != strong
          || escalation.decision_policy_version != manifest.routing_policy_version)
        escalation_invalid
  assert_transition_guard manifest block route state event (validation_recorded _) = ok tt
  assert_transition_guard manifest block route state event (orchestrator_operation_recorded _) =
      ok tt
  assert_transition_guard manifest block route state event (usage_recorded _) = ok tt
  assert_transition_guard manifest block route state event (parent_rework_recorded _) = ok tt
  assert_transition_guard manifest block route state event (block_accepted _) = ok tt
  assert_transition_guard manifest block route state event (block_failed _ _) = ok tt
  assert_transition_guard manifest block route state event (block_blocked _ _ _) = ok tt
  assert_transition_guard manifest block route state event (post_accept_defect_recorded _) = ok tt
  assert_transition_guard manifest block route state event (event_invalidated _) = ok tt

  unfoldable pub no_row : Option BlockState → PilotError
  unfolding is_terminal
  no_row none = illegal_event_state_pair
  no_row (some state) = if is_terminal state then conflicting_terminal else illegal_event_state_pair

  abbrev pub target : Option BlockState → RowTarget → Result PilotError BlockState
  target state (to_state next) = ok next
  target none same = err orphan_evidence
  target (some state) same = ok state

  unfoldable pub transition_in_context :
      Manifest
      → ManifestBlock
      → Route
      → Option BlockState
      → PilotEvent
      → Result PilotError BlockState
  transition_in_context manifest block route state event = do
    row ←
        require (find_row state (event_type_of event.payload) (decision_of event.payload) route)
          (no_row state)
    assert_transition_guard manifest block route state event event.payload
    target state row.to

  unfoldable pub transition_checked :
      Manifest → Option BlockState → PilotEvent → Result PilotError BlockState
  transition_checked manifest state event = do
    throw_if (event_type_of event.payload == event_invalidated_type) invalidation_not_projected
    context ← block_context manifest event
    transition_in_context manifest context.0 context.1 state event

  -- Every error is the state `INVALID`.
  unfoldable pub transition : Manifest → Option BlockState → PilotEvent → BlockState
  unfolding transition_checked
  transition manifest state event = value_or (transition_checked manifest state event) invalid
