-- ===== src/Pilot/Invariant.antt =====
-- Progress is kept by every event of a history (src/pilot/state-machine.ts).
use agent_orchestration_star.Base.{
  ℕ, ◌≤◌, ap, ◌∙◌, ok-injective, some, sym, ◌==◌, nat_eq, string_eq, option_eq, ok, String, ◌≡◌,
  false, not, ◌&&◌, Option, arith,
}
use agent_orchestration_star.Pilot.Vocabulary.{
  accept, arm_eq, capability_eq, kind_eq, decision_eq, isolation_eq, finding_eq, role_eq,
}
use agent_orchestration_star.Pilot.States.{
  ready_accept, accepted, BlockState, Route, state_eq, type_eq, route_eq,
}
use agent_orchestration_star.Pilot.Events.{
  Payload, block_planned, arm_assigned, isolation_attested, execution_started, execution_completed,
  review_started, review_completed, validation_recorded, orchestrator_operation_recorded,
  usage_recorded, parent_rework_recorded, block_accepted, block_failed, block_blocked,
  escalation_decided, post_accept_defect_recorded, event_invalidated, ReviewCompleted, PilotEvent,
}
use agent_orchestration_star.Pilot.Manifest.{ManifestBlock, Manifest}
use agent_orchestration_star.Pilot.Codec.{Codec}
use agent_orchestration_star.Pilot.Rows.{event_type_of, decision_of}
use agent_orchestration_star.Pilot.Machine.{is_empty, assert_transition_guard}
use agent_orchestration_star.Pilot.Lifecycle.{lifecycle}
use agent_orchestration_star.Pilot.Reduction.{Reduction}
use agent_orchestration_star.Pilot.Usage.{handle_event}
use agent_orchestration_star.Pilot.Replay.{settle}
use agent_orchestration_star.Pilot.Advances.{
  start_execution_inversion, complete_execution_inversion, start_review_inversion,
  complete_review_inversion,
}
use agent_orchestration_star.Pilot.Effects.{
  Unmoved, record_validation-Unmoved, record_operation-Unmoved, record_usage-Unmoved,
  record_rework-Unmoved, decide_escalation-Unmoved, record_defect-Unmoved, accept_block_inversion,
}
use agent_orchestration_star.Pilot.Bounds.{
  attempts_bound, reviews_bound, is_settled, planned_bounds, assigned_bounds, failed_bounds,
  accepted_bounds, from_to_source, unchanged_same, stopped_bounds, isolated_bounds,
  escalated_bounds,
}
use agent_orchestration_star.Pilot.Progress.{
  IsProgress, start_execution-IsProgress, complete_execution-IsProgress, start_review-IsProgress,
  complete_review-IsProgress, Unmoved-IsProgress,
}

-- A handler leaves the block's state to the transition.
pub handle_event-state :
    (manifest : Manifest) (block : ManifestBlock) (route : Route) (r : Reduction)
    (event_id : String) (payload : Payload) (handled : Reduction)
    → handle_event manifest block route r event_id payload ≡ ok handled
    → handled.state ≡ r.state
unfolding handle_event
handle_event-state m b route r id (block_planned _) handled e = cc
handle_event-state m b route r id (arm_assigned _ _) handled e = cc
handle_event-state m b route r id (isolation_attested isolation) handled e = ground arith
handle_event-state m b route r id (execution_started x) handled e =
    cc (start_execution_inversion b route r x handled e).effect
handle_event-state m b route r id (execution_completed x) handled e =
    cc (complete_execution_inversion m r id x handled e).effect
handle_event-state m b route r id (review_started x) handled e =
    cc (start_review_inversion r x handled e).effect
handle_event-state m b route r id (review_completed x) handled e =
    ground (arith, (complete_review_inversion b r id x handled e).effect)
handle_event-state m b route r id (validation_recorded x) handled e =
    (record_validation-Unmoved m b r handled x e).state
handle_event-state m b route r id (orchestrator_operation_recorded x) handled e =
    (record_operation-Unmoved m b r handled id x e).state
handle_event-state m b route r id (usage_recorded x) handled e =
    (record_usage-Unmoved m b r handled x e).state
handle_event-state m b route r id (parent_rework_recorded x) handled e =
    (record_rework-Unmoved m b r handled x e).state
handle_event-state m b route r id (block_accepted x) handled e =
    cc (accept_block_inversion r x handled e).effect
handle_event-state m b route r id (block_failed _ _) handled e = cc
handle_event-state m b route r id (block_blocked _ _ _) handled e = cc
handle_event-state m b route r id (escalation_decided x) handled e =
    (decide_escalation-Unmoved m b r handled x e).state
handle_event-state m b route r id (post_accept_defect_recorded x) handled e =
    (record_defect-Unmoved m b r handled x e).state
handle_event-state m b route r id (event_invalidated _) handled e = cc

module _ (codec : Codec) (manifest : Manifest) where
  -- The guard of a completed review, read for its decision.
  guard_of_review :
      (block : ManifestBlock) (route : Route) (state : Option BlockState) (event : PilotEvent)
      (review : ReviewCompleted)
      → assert_transition_guard codec manifest block route state event (review_completed review)
        ≡ ok tt
      → (review.decision == accept && not (is_empty review.unresolved_finding_ids)) ≡ false
  unfolding assert_transition_guard
  guard_of_review block route state event review e = ground (arith, e)

  bound_same : (bound : Option BlockState → ℕ) (a b : Option BlockState) → a ≡ b → bound a ≤ bound b
  bound_same bound a b e = omega (arith, ap bound e)

  same_state :
      (r handled : Reduction) (at : ℕ) (next : BlockState)
      → IsProgress r
      → Unmoved r handled
      → r.state ≡ some next
      → IsProgress (settle handled at next)
  same_state r handled at next p u e =
      Unmoved-IsProgress r handled at next p u
        (record {
          attempts = bound_same attempts_bound r.state (some next) e;
          reviews = bound_same reviews_bound r.state (some next) e;
        })
        (λ it. cc (it, e))

  nothing_moved : (r handled : Reduction) → handled ≡ r → Unmoved r handled
  nothing_moved r handled e = ground (arith, e)

  -- An event that is permitted and handled keeps the progress.
  pub handle_event-IsProgress :
      (block : ManifestBlock) (route : Route) (r : Reduction) (event : PilotEvent)
      (payload : Payload) (handled : Reduction) (at : ℕ) (next : BlockState)
      → IsProgress r
      → handle_event manifest block route r event.event_id payload ≡ ok handled
      → assert_transition_guard codec manifest block route r.state event payload ≡ ok tt
      → lifecycle route r.state (event_type_of payload) (decision_of payload) ≡ some next
      → IsProgress (settle handled at next)
  unfolding handle_event
  handle_event-IsProgress b route r event (execution_started x) handled at next p e g leads =
      start_execution-IsProgress b route r x handled at next p e leads
  handle_event-IsProgress b route r event (execution_completed x) handled at next p e g leads =
      complete_execution-IsProgress manifest r event.event_id x handled at next p e leads
  handle_event-IsProgress b route r event (review_started x) handled at next p e g leads =
      start_review-IsProgress r x handled at next p e leads
  handle_event-IsProgress b route r event (review_completed x) handled at next p e g leads =
      complete_review-IsProgress b route r event.event_id x handled at next p e
        (guard_of_review b route r.state event x g) leads
  handle_event-IsProgress b route r event (validation_recorded x) handled at next p e g leads =
      same_state r handled at next p (record_validation-Unmoved manifest b r handled x e)
        (unchanged_same r.state next leads)
  handle_event-IsProgress b route r event (orchestrator_operation_recorded x) handled at next p e g
        leads =
      same_state r handled at next p
        (record_operation-Unmoved manifest b r handled event.event_id x e)
        (unchanged_same r.state next leads)
  handle_event-IsProgress b route r event (usage_recorded x) handled at next p e g leads =
      same_state r handled at next p (record_usage-Unmoved manifest b r handled x e)
        (unchanged_same r.state next leads)
  handle_event-IsProgress b route r event (parent_rework_recorded x) handled at next p e g leads =
      same_state r handled at next p (record_rework-Unmoved manifest b r handled x e)
        (unchanged_same r.state next leads)
  handle_event-IsProgress b route r event (block_blocked _ _ _) handled at next p e g leads =
      let (w, open_still) = stopped_bounds r.state next leads in
      Unmoved-IsProgress r handled at next p (nothing_moved r handled (ok-injective (sym e))) w
        (λ it. absurd (cc (it, open_still)))
  handle_event-IsProgress b route r event (escalation_decided x) handled at next p e g leads =
      let (w, open_still) = escalated_bounds route r.state next leads in
      Unmoved-IsProgress r handled at next p (decide_escalation-Unmoved manifest b r handled x e) w
        (λ it. cc (it, open_still))
  handle_event-IsProgress b route r event (isolation_attested x) handled at next p e g leads =
      let (w, open_still) = isolated_bounds route r.state next leads in
      Unmoved-IsProgress r handled at next p (ground (arith, e)) w (λ it. cc (it, open_still))
  handle_event-IsProgress b route r event (post_accept_defect_recorded x) handled at next p e g
        leads =
      let (before, after) = from_to_source (some accepted) accepted r.state next leads in
      same_state r handled at next p (record_defect-Unmoved manifest b r handled x e)
        (before ∙ ap (λ (s : BlockState). some s) after)
  handle_event-IsProgress b route r event (block_planned _) handled at next p e g leads =
      let (w, open_still) = planned_bounds r.state next leads in
      Unmoved-IsProgress r handled at next p (nothing_moved r handled (ok-injective (sym e))) w
        (λ it. absurd (cc (it, open_still)))
  handle_event-IsProgress b route r event (arm_assigned _ _) handled at next p e g leads =
      let (w, open_still) = assigned_bounds r.state next leads in
      Unmoved-IsProgress r handled at next p (nothing_moved r handled (ok-injective (sym e))) w
        (λ it. absurd (cc (it, open_still)))
  handle_event-IsProgress b route r event (block_failed _ _) handled at next p e g leads =
      let (w, open_still) = failed_bounds r.state next leads in
      Unmoved-IsProgress r handled at next p (nothing_moved r handled (ok-injective (sym e))) w
        (λ it. absurd (cc (it, open_still)))
  handle_event-IsProgress b route r event (block_accepted x) handled at next p e g leads =
      let (w, _) = accepted_bounds r.state next leads in
      let (before, _) = from_to_source (some ready_accept) accepted r.state next leads in
      Unmoved-IsProgress r handled at next p
        (nothing_moved r handled (accept_block_inversion r x handled e).effect) w
        (λ it. ap is_settled before)
  handle_event-IsProgress b route r event (event_invalidated _) handled at next p e g leads =
      absurd (cc leads)
