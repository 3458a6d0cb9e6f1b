-- ===== src/Pilot/Rows.antt =====
-- The table of transitions and the match of a row (src/pilot/state-machine.ts).
use agent_orchestration_star.Base.{
  Bool, true, false, not, ◌&&◌, Option, none, some, List, [], ◌∷◌, elem, ◌==◌, option_eq, find,
}
use agent_orchestration_star.Pilot.Vocabulary.{
  PilotArm, strong_baseline, cheap_no_early_escalation, adaptive_early_escalation, Decision, accept,
  reject, arm_eq, capability_eq, kind_eq, decision_eq, isolation_eq, finding_eq, role_eq,
}
use agent_orchestration_star.Pilot.States.{
  BlockState, planned, assigned, ready_1, executing_1, ready_review_1, reviewing_1, ready_2,
  executing_2, ready_review_2, reviewing_2, escalation_required, ready_3, executing_3,
  ready_final_review, final_reviewing, ready_accept, ready_fail, accepted, failed, blocked,
  EventType, block_planned_type, arm_assigned_type, isolation_attested_type, execution_started_type,
  execution_completed_type, review_started_type, review_completed_type, validation_recorded_type,
  orchestrator_operation_type, usage_recorded_type, parent_rework_type, block_accepted_type,
  block_failed_type, block_blocked_type, escalation_decided_type, post_accept_defect_type,
  event_invalidated_type, Route, strong_baseline_route, cheap_route, adaptive_route, direct_strong,
  state_eq, is_terminal, type_eq, route_eq,
}
use agent_orchestration_star.Pilot.Events.{
  Payload, block_planned, arm_assigned, isolation_attested, execution_started, execution_completed,
  review_started, review_completed, validation_recorded, orchestrator_operation_recorded,
  usage_recorded, parent_rework_recorded, block_accepted, block_failed, block_blocked,
  escalation_decided, post_accept_defect_recorded, event_invalidated,
}

pub data RowState : Type 0 where
  from_nothing : RowState
  from_state : BlockState → RowState
  any_non_terminal : RowState

pub data RowTarget : Type 0 where
  to_state : BlockState → RowTarget
  same : RowTarget

pub record TransitionRow : Type 0 where
  pub from : RowState
  pub event_type : EventType
  pub to : RowTarget
  pub decision : Option Decision
  pub arms : Option (List Route)

abbrev row :
    RowState → EventType → RowTarget → Option Decision → Option (List Route) → TransitionRow
row from event_type to decision arms = record {
  from = from;
  event_type = event_type;
  to = to;
  decision = decision;
  arms = arms;
}

-- `event.event_type`.
abbrev pub event_type_of : Payload → EventType
event_type_of (block_planned _) = block_planned_type
event_type_of (arm_assigned _ _) = arm_assigned_type
event_type_of (isolation_attested _) = isolation_attested_type
event_type_of (execution_started _) = execution_started_type
event_type_of (execution_completed _) = execution_completed_type
event_type_of (review_started _) = review_started_type
event_type_of (review_completed _) = review_completed_type
event_type_of (validation_recorded _) = validation_recorded_type
event_type_of (orchestrator_operation_recorded _) = orchestrator_operation_type
event_type_of (usage_recorded _) = usage_recorded_type
event_type_of (parent_rework_recorded _) = parent_rework_type
event_type_of (block_accepted _) = block_accepted_type
event_type_of (block_failed _ _) = block_failed_type
event_type_of (block_blocked _ _ _) = block_blocked_type
event_type_of (escalation_decided _) = escalation_decided_type
event_type_of (post_accept_defect_recorded _) = post_accept_defect_type
event_type_of (event_invalidated _) = event_invalidated_type

-- The decision of a completed review; no other event has one.
abbrev pub decision_of : Payload → Option Decision
decision_of (review_completed review) = some review.decision
decision_of _ = none

abbrev pub route_of_arm : PilotArm → Route
route_of_arm strong_baseline = strong_baseline_route
route_of_arm cheap_no_early_escalation = cheap_route
route_of_arm adaptive_early_escalation = adaptive_route

unfoldable pub transition_rows : List TransitionRow
transition_rows =
    row from_nothing block_planned_type (to_state planned) none none
    ∷ row (from_state planned) arm_assigned_type (to_state assigned) none none
    ∷ row (from_state assigned) isolation_attested_type (to_state ready_1) none none
    ∷ row (from_state planned) isolation_attested_type (to_state ready_1) none
        (some (direct_strong ∷ []))
    ∷ row (from_state ready_1) execution_started_type (to_state executing_1) none none
    ∷ row (from_state executing_1) execution_completed_type (to_state ready_review_1) none none
    ∷ row (from_state ready_review_1) review_started_type (to_state reviewing_1) none none
    ∷ row (from_state reviewing_1) review_completed_type (to_state ready_accept) (some accept) none
    ∷ row (from_state reviewing_1) review_completed_type (to_state ready_2) (some reject) none
    ∷ row (from_state ready_2) execution_started_type (to_state executing_2) none none
    ∷ row (from_state executing_2) execution_completed_type (to_state ready_review_2) none none
    ∷ row (from_state ready_review_2) review_started_type (to_state reviewing_2) none none
    ∷ row (from_state reviewing_2) review_completed_type (to_state ready_accept) (some accept) none
    ∷ row (from_state reviewing_2) review_completed_type (to_state escalation_required)
        (some reject) (some (adaptive_route ∷ []))
    ∷ row (from_state reviewing_2) review_completed_type (to_state ready_3) (some reject)
        (some (strong_baseline_route ∷ cheap_route ∷ direct_strong ∷ []))
    ∷ row (from_state escalation_required) escalation_decided_type (to_state ready_3) none
        (some (adaptive_route ∷ []))
    ∷ row (from_state ready_3) execution_started_type (to_state executing_3) none none
    ∷ row (from_state executing_3) execution_completed_type (to_state ready_final_review) none none
    ∷ row (from_state ready_final_review) review_started_type (to_state final_reviewing) none none
    ∷ row (from_state final_reviewing) review_completed_type (to_state ready_accept) (some accept)
        none
    ∷ row (from_state final_reviewing) review_completed_type (to_state ready_fail) (some reject)
        none
    ∷ row (from_state ready_accept) block_accepted_type (to_state accepted) none none
    ∷ row (from_state ready_fail) block_failed_type (to_state failed) none none
    ∷ row any_non_terminal block_blocked_type (to_state blocked) none none
    ∷ row (from_state accepted) post_accept_defect_type (to_state accepted) none none
    ∷ row any_non_terminal orchestrator_operation_type same none none
    ∷ row any_non_terminal usage_recorded_type same none none
    ∷ row any_non_terminal validation_recorded_type same none none
    ∷ row any_non_terminal parent_rework_type same none none
    ∷ []

abbrev from_matches : RowState → Option BlockState → Bool
from_matches from_nothing none = true
from_matches from_nothing (some _) = false
from_matches (from_state _) none = false
from_matches (from_state row_state) (some state) = row_state == state
from_matches any_non_terminal none = false
from_matches any_non_terminal (some state) = not (is_terminal state)

abbrev arms_allow : Option (List Route) → Route → Bool
arms_allow none arm = true
arms_allow (some arms) arm = elem arm arms

abbrev decision_matches : Option Decision → Option Decision → Bool
decision_matches none _ = true
decision_matches (some decision) decided = decided == some decision

unfoldable pub row_matches :
    TransitionRow → Option BlockState → EventType → Option Decision → Route → Bool
unfolding is_terminal
row_matches r state event_type decision arm =
    from_matches r.from state
    && r.event_type == event_type
    && arms_allow r.arms arm
    && decision_matches r.decision decision

-- `transitionRows.find(…)`.
unfoldable pub find_row :
    Option BlockState → EventType → Option Decision → Route → Option TransitionRow
unfolding transition_rows row_matches
find_row state event_type decision arm =
    find (λ candidate. row_matches candidate state event_type decision arm) transition_rows
