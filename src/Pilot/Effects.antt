-- ===== src/Pilot/Effects.antt =====
-- What the events that are evidence, and those that close a block, leave as it is
-- (src/pilot/state-machine.ts).
use agent_orchestration_star.Base.{
  String, List, Option, subst, refl, require_inversion, lookup, any, elem, is_some, not, ◌==◌, ◌!=◌,
  ◌||◌, string_eq, nat_eq, option_eq, ==_eq, ok, >>=-inversion, guard_inversion, ok-injective, ◌≡◌,
  sym, some, arith,
}
use agent_orchestration_star.Pilot.Vocabulary.{
  arm_eq, capability_eq, kind_eq, decision_eq, isolation_eq, finding_eq, role_eq,
}
use agent_orchestration_star.Pilot.States.{state_eq, type_eq, route_eq}
use agent_orchestration_star.Pilot.Events.{
  ExecutionCompleted, ReviewCompleted, ValidationRecorded, OrchestratorOperation, UsageRecorded,
  ParentRework, BlockAccepted, EscalationDecided, PostAcceptDefect,
}
use agent_orchestration_star.Pilot.Manifest.{ManifestBlock, Manifest}
use agent_orchestration_star.Pilot.Machine.{find_binding}
use agent_orchestration_star.Pilot.Reduction.{Owned, Reduction}
use agent_orchestration_star.Pilot.Handlers.{
  Handled, is_open_attempt, counts_inconsistent, record_validation, record_operation,
}
use agent_orchestration_star.Pilot.Usage.{
  usage_by_operation, usage_by_attempt, usage_by_review, usage_policy_broken, record_usage,
  record_rework, decide_escalation, accept_block, record_defect,
}

-- What an invariant of the block's progress reads.
pub record Unmoved (r next : Reduction) : Type 0 where
  pub state : next.state ≡ r.state
  pub attempts : next.attempts ≡ r.attempts
  pub reviews : next.reviews ≡ r.reviews
  pub executor_sessions : next.executor_sessions ≡ r.executor_sessions
  pub reviewer_sessions : next.reviewer_sessions ≡ r.reviewer_sessions
  pub accepted_review : next.accepted_review ≡ r.accepted_review
  pub accepted_completion : next.accepted_completion ≡ r.accepted_completion
  pub unresolved : next.unresolved ≡ r.unresolved

module _ (manifest : Manifest) (block : ManifestBlock) (r next : Reduction) where
  -- The rest of the state may change.
  only_rest :
      (target : Option String) (validations : List (String × List ValidationRecorded))
      (operations : List (String × Owned OrchestratorOperation)) (open_operation : Option String)
      → ◌≡◌ {A = Handled Reduction}
          (ok (record r {
            escalation_target_binding = target;
            validations = validations;
            orchestrator_operations = operations;
            open_orchestrator_operation = open_operation;
          }))
          (ok next)
      → Unmoved r next
  only_rest target validations operations open_operation e =
      subst (Unmoved r) (ok-injective e) (record {
        state = refl;
        attempts = refl;
        reviews = refl;
        executor_sessions = refl;
        reviewer_sessions = refl;
        accepted_review = refl;
        accepted_completion = refl;
        unresolved = refl;
      })

  pub record_validation-Unmoved :
      (validation : ValidationRecorded)
      → record_validation block r validation ≡ ok next
      → Unmoved r next
  unfolding record_validation
  record_validation-Unmoved validation e =
      let (attempt, _, e1) = require_inversion (lookup validation.attempt_id r.attempts) _ _ e in
      let (_, e2) = guard_inversion (not (is_open_attempt attempt)) _ _ e1 in
      let (_, e3) =
        guard_inversion
          (any (λ surface. not (elem surface block.validation_surface))
            validation.validation_surface)
          _ _ e2 in
      let (_, e4) = guard_inversion (counts_inconsistent validation) _ _ e3 in
      only_rest r.escalation_target_binding _ r.orchestrator_operations
        r.open_orchestrator_operation e4

  pub record_operation-Unmoved :
      (id : String) (operation : OrchestratorOperation)
      → record_operation manifest r id operation ≡ ok next
      → Unmoved r next
  unfolding record_operation
  record_operation-Unmoved id operation e =
      let (_, e1) =
        guard_inversion
          (is_some (lookup operation.orchestrator_operation_id r.orchestrator_operations)) _ _ e in
      let (_, e2) =
        guard_inversion (not (is_some (find_binding manifest operation.binding_ref))) _ _ e1 in
      only_rest r.escalation_target_binding r.validations _ _ e2

  pub record_usage-Unmoved :
      (usage : UsageRecorded) → record_usage manifest r usage ≡ ok next → Unmoved r next
  unfolding record_usage
  record_usage-Unmoved usage e =
      let (_, e1) = guard_inversion (usage_policy_broken manifest usage) _ _ e in
      let (operation, _, e2) =
        >>=-inversion (usage_by_operation r usage usage.orchestrator_operation_id) _ e1 in
      let (_, _, e3) = >>=-inversion (usage_by_attempt r usage usage.attempt_id) _ e2 in
      let (_, _, e4) = >>=-inversion (usage_by_review r usage usage.review_id) _ e3 in
      only_rest r.escalation_target_binding r.validations r.orchestrator_operations operation e4

  pub record_rework-Unmoved :
      (rework : ParentRework) → record_rework r rework ≡ ok next → Unmoved r next
  unfolding record_rework
  record_rework-Unmoved rework e =
      let (entry, _, e1) = require_inversion (lookup rework.review_id r.reviews) _ _ e in
      let (review, _, e2) = require_inversion entry.completed _ _ e1 in
      let (_, e3) = guard_inversion (not entry.window_open) _ _ e2 in
      let (attempt, _, e4) = require_inversion (lookup rework.attempt_id r.attempts) _ _ e3 in
      let (completion, _, e5) = require_inversion attempt.completed _ _ e4 in
      let (_, e6) =
        guard_inversion (review.reviewed_attempt_id != completion.payload.attempt_id) _ _ e5 in
      only_rest r.escalation_target_binding r.validations r.orchestrator_operations
        r.open_orchestrator_operation e6

  pub decide_escalation-Unmoved :
      (escalation : EscalationDecided) → decide_escalation r escalation ≡ ok next → Unmoved r next
  unfolding decide_escalation
  decide_escalation-Unmoved escalation e =
      let (rejected, _, e1) = require_inversion r.rejected_review_event_id _ _ e in
      let (_, e2) =
        guard_inversion (rejected == "" || escalation.rejected_review_event_id != rejected) _ _
          e1 in
      only_rest _ r.validations r.orchestrator_operations r.open_orchestrator_operation e2

  pub record_defect-Unmoved :
      (defect : PostAcceptDefect) → record_defect r defect ≡ ok next → Unmoved r next
  unfolding record_defect
  record_defect-Unmoved defect e =
      let (review, _, e1) = require_inversion r.accepted_review _ _ e in
      let (_, e2) =
        guard_inversion
          (defect.accepted_review_id != review.review_id
            || defect.affected_revision != review.review_boundary_to_revision)
          _ _ e1 in
      only_rest r.escalation_target_binding r.validations r.orchestrator_operations
        r.open_orchestrator_operation e2

-- An accepted block has the revision and the tree of the accepted review's attempt.
pub record AcceptedBlock (r : Reduction) (acceptance : BlockAccepted) (next : Reduction)
    : Type 0 where
  pub review : ReviewCompleted
  pub completion : ExecutionCompleted
  pub reviewed : r.accepted_review ≡ some review
  pub completed : r.accepted_completion ≡ some completion
  pub reviewed_revision : acceptance.accepted_revision ≡ review.review_boundary_to_revision
  pub completed_revision : acceptance.accepted_revision ≡ completion.output_revision
  pub completed_tree : acceptance.accepted_tree_hash ≡ completion.output_tree_hash
  pub effect : next ≡ r

pub accept_block_inversion :
    (r : Reduction) (acceptance : BlockAccepted) (next : Reduction)
    → accept_block r acceptance ≡ ok next
    → AcceptedBlock r acceptance next
unfolding accept_block
accept_block_inversion r acceptance next e =
    let (review, reviewed, e1) = require_inversion r.accepted_review _ _ e in
    let (completion, completed, e2) = require_inversion r.accepted_completion _ _ e1 in
    let (same_work, e3) =
      guard_inversion
        (acceptance.accepted_revision != review.review_boundary_to_revision
          || acceptance.accepted_revision != completion.output_revision
          || acceptance.accepted_tree_hash != completion.output_tree_hash)
        _ _ e2 in
    record {
      review = review;
      completion = completion;
      reviewed = reviewed;
      completed = completed;
      reviewed_revision = ==_eq (ground (arith, same_work));
      completed_revision = ==_eq (ground (arith, same_work));
      completed_tree = ==_eq (ground (arith, same_work));
      effect = sym (ok-injective e3);
    }
