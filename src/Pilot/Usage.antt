-- ===== src/Pilot/Usage.antt =====
-- The usage of an operation, an attempt or a review, and what closes a block
-- (src/pilot/state-machine.ts).
use agent_orchestration_star.Base.{
  ◌==◌, ◌!=◌, nat_eq, string_eq, option_eq, is_some, lookup, ok, ◌>>=◌, ◌>>◌, throw_if, require,
  String, Bool, not, ◌||◌, Option, none, some,
}
use agent_orchestration_star.Pilot.Vocabulary.{
  orchestrator, executor, reviewer, arm_eq, capability_eq, kind_eq, decision_eq, isolation_eq,
  finding_eq, role_eq,
}
use agent_orchestration_star.Pilot.States.{Route, state_eq, type_eq, route_eq}
use agent_orchestration_star.Pilot.Events.{
  Payload, block_planned, arm_assigned, isolation_attested, execution_started, execution_completed,
  review_started, review_completed, validation_recorded, orchestrator_operation_recorded,
  usage_recorded, parent_rework_recorded, block_accepted, block_failed, block_blocked,
  escalation_decided, post_accept_defect_recorded, event_invalidated, UsageRecorded, ParentRework,
  BlockAccepted, EscalationDecided, PostAcceptDefect,
}
use agent_orchestration_star.Pilot.Manifest.{ManifestBlock, Manifest}
use agent_orchestration_star.Pilot.Errors.{
  workspace_contaminated, usage_policy_invalid, orphan_or_misordered_usage_operation,
  orchestrator_usage_ownership_mismatch, orchestrator_usage_owner_invalid,
  orphan_or_misordered_usage_attempt, attempt_usage_ownership_mismatch,
  orphan_or_misordered_usage_review, review_usage_ownership_mismatch, orphan_or_misordered_rework,
  escalation_review_reference_invalid, accepted_revision_tree_invalid,
  defect_acceptance_reference_invalid,
}
use agent_orchestration_star.Pilot.Machine.{find_binding}
use agent_orchestration_star.Pilot.Reduction.{Reduction}
use agent_orchestration_star.Pilot.Handlers.{
  Handled, is_contaminated, start_execution, complete_execution, record_validation, start_review,
  complete_review, record_operation,
}

-- Usage by an orchestrator's operation; without one, no operation stays open.
unfoldable pub usage_by_operation :
    Reduction → UsageRecorded → Option String → Handled (Option String)
unfolding lookup
usage_by_operation r usage none = do
  throw_if (usage.role == orchestrator) orchestrator_usage_owner_invalid
  ok none
usage_by_operation r usage (some operation_id) = do
  operation ←
      require (lookup operation_id r.orchestrator_operations) orphan_or_misordered_usage_operation
  throw_if (r.open_orchestrator_operation != some operation.event_id)
      orphan_or_misordered_usage_operation
  throw_if
      (usage.role != orchestrator
        || usage.binding_ref != operation.payload.binding_ref
        || usage.attempt_number != operation.payload.attempt_number)
      orchestrator_usage_ownership_mismatch
  ok r.open_orchestrator_operation

unfoldable pub usage_by_attempt : Reduction → UsageRecorded → Option String → Handled (Unit {0})
unfolding lookup
usage_by_attempt r usage none = ok tt
usage_by_attempt r usage (some attempt_id) = do
  attempt ← require (lookup attempt_id r.attempts) orphan_or_misordered_usage_attempt
  completion ← require attempt.completed orphan_or_misordered_usage_attempt
  throw_if attempt.review_started orphan_or_misordered_usage_attempt
  throw_if
      (usage.role != executor
        || usage.binding_ref != completion.payload.executor_binding_ref
        || usage.attempt_number != completion.payload.attempt_number)
      attempt_usage_ownership_mismatch

unfoldable pub usage_by_review : Reduction → UsageRecorded → Option String → Handled (Unit {0})
unfolding lookup
usage_by_review r usage none = ok tt
usage_by_review r usage (some review_id) = do
  entry ← require (lookup review_id r.reviews) orphan_or_misordered_usage_review
  review ← require entry.completed orphan_or_misordered_usage_review
  throw_if (not entry.window_open) orphan_or_misordered_usage_review
  throw_if
      (usage.role != reviewer
        || usage.binding_ref != review.reviewer_binding_ref
        || usage.attempt_number != review.review_round)
      review_usage_ownership_mismatch

unfoldable pub usage_policy_broken : Manifest → UsageRecorded → Bool
unfolding find_binding
usage_policy_broken manifest usage =
    not (is_some (find_binding manifest usage.binding_ref))
    || usage.pricing_snapshot_id != manifest.pricing_snapshot.pricing_snapshot_id
    || usage.currency != manifest.pricing_snapshot.currency

unfoldable pub record_usage : Manifest → Reduction → UsageRecorded → Handled Reduction
unfolding usage_policy_broken usage_by_operation usage_by_attempt usage_by_review
record_usage manifest r usage = do
  throw_if (usage_policy_broken manifest usage) usage_policy_invalid
  open_operation ← usage_by_operation r usage usage.orchestrator_operation_id
  usage_by_attempt r usage usage.attempt_id
  usage_by_review r usage usage.review_id
  ok (record r { open_orchestrator_operation = open_operation })

unfoldable pub record_rework : Reduction → ParentRework → Handled Reduction
unfolding lookup
record_rework r rework = do
  entry ← require (lookup rework.review_id r.reviews) orphan_or_misordered_rework
  review ← require entry.completed orphan_or_misordered_rework
  throw_if (not entry.window_open) orphan_or_misordered_rework
  attempt ← require (lookup rework.attempt_id r.attempts) orphan_or_misordered_rework
  completion ← require attempt.completed orphan_or_misordered_rework
  throw_if (review.reviewed_attempt_id != completion.payload.attempt_id) orphan_or_misordered_rework
  ok r

unfoldable pub decide_escalation : Reduction → EscalationDecided → Handled Reduction
decide_escalation r escalation = do
  rejected ← require r.rejected_review_event_id escalation_review_reference_invalid
  throw_if (rejected == "" || escalation.rejected_review_event_id != rejected)
      escalation_review_reference_invalid
  ok (record r { escalation_target_binding = some escalation.target_binding_ref })

unfoldable pub accept_block : Reduction → BlockAccepted → Handled Reduction
accept_block r acceptance = do
  review ← require r.accepted_review accepted_revision_tree_invalid
  completion ← require r.accepted_completion accepted_revision_tree_invalid
  throw_if
      (acceptance.accepted_revision != review.review_boundary_to_revision
        || acceptance.accepted_revision != completion.output_revision
        || acceptance.accepted_tree_hash != completion.output_tree_hash)
      accepted_revision_tree_invalid
  ok r

unfoldable pub record_defect : Reduction → PostAcceptDefect → Handled Reduction
record_defect r defect = do
  review ← require r.accepted_review defect_acceptance_reference_invalid
  throw_if
      (defect.accepted_review_id != review.review_id
        || defect.affected_revision != review.review_boundary_to_revision)
      defect_acceptance_reference_invalid
  ok r

-- The branch of an event's type.
unfoldable pub handle_event :
    Manifest → ManifestBlock → Route → Reduction → String → Payload → Handled Reduction
unfolding start_execution complete_execution record_validation start_review complete_review
    record_operation record_usage record_rework decide_escalation accept_block record_defect
handle_event manifest block route r event_id (block_planned _) = ok r
handle_event manifest block route r event_id (arm_assigned _ _) = ok r
handle_event manifest block route r event_id (isolation_attested isolation) = do
  throw_if (is_contaminated isolation) workspace_contaminated
  ok r
handle_event manifest block route r event_id (execution_started execution) =
    start_execution block route r execution
handle_event manifest block route r event_id (execution_completed completion) =
    complete_execution manifest r event_id completion
handle_event manifest block route r event_id (review_started review) = start_review r review
handle_event manifest block route r event_id (review_completed review) =
    complete_review block r event_id review
handle_event manifest block route r event_id (validation_recorded validation) =
    record_validation block r validation
handle_event manifest block route r event_id (orchestrator_operation_recorded operation) =
    record_operation manifest r event_id operation
handle_event manifest block route r event_id (usage_recorded usage) = record_usage manifest r usage
handle_event manifest block route r event_id (parent_rework_recorded rework) =
    record_rework r rework
handle_event manifest block route r event_id (block_accepted acceptance) = accept_block r acceptance
handle_event manifest block route r event_id (block_failed _ _) = ok r
handle_event manifest block route r event_id (block_blocked _ _ _) = ok r
handle_event manifest block route r event_id (escalation_decided escalation) =
    decide_escalation r escalation
handle_event manifest block route r event_id (post_accept_defect_recorded defect) =
    record_defect r defect
handle_event manifest block route r event_id (event_invalidated _) = ok r
