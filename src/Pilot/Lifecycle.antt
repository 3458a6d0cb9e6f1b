-- ===== src/Pilot/Lifecycle.antt =====
-- The life of a block by rounds, and the table of transitions that implements it
-- (src/pilot/state-machine.ts).
use agent_orchestration_star.Base.{
  some-elem, opt_beq_iff, all-elem, map, elem, all, if◌then◌else◌, ◌==◌, nat_eq, string_eq,
  opt_beq_iff, option_eq, ◌≡◌, refl, Bool, true, Option, none, some, List, ◌∷◌,
}
use agent_orchestration_star.Pilot.Vocabulary.{
  Decision, accept, reject, arm_eq, capability_eq, kind_eq, decision_eq, decision_values,
  decision_values_complete, isolation_eq, finding_eq, role_eq,
}
use agent_orchestration_star.Pilot.States.{
  BlockState, planned, assigned, ready_1, executing_1, ready_review_1, reviewing_1, ready_2,
  executing_2, ready_review_2, reviewing_2, escalation_required, ready_3, executing_3,
  ready_final_review, final_reviewing, ready_accept, ready_fail, accepted, failed, blocked,
  EventType, block_planned_type, arm_assigned_type, isolation_attested_type, execution_started_type,
  execution_completed_type, review_started_type, review_completed_type, validation_recorded_type,
  orchestrator_operation_type, usage_recorded_type, parent_rework_type, block_accepted_type,
  block_failed_type, block_blocked_type, escalation_decided_type, post_accept_defect_type,
  event_invalidated_type, Route, strong_baseline_route, cheap_route, adaptive_route, direct_strong,
  state_eq, state_values, state_values_complete, is_terminal, type_eq, type_values,
  type_values_complete, route_eq, route_values, route_values_complete,
}
use agent_orchestration_star.Pilot.Rows.{to_state, same, TransitionRow, find_row}

-- A start of work: the next of at most three attempts.
abbrev pub started : Option BlockState → Option BlockState
started (some ready_1) = some executing_1
started (some ready_2) = some executing_2
started (some ready_3) = some executing_3
started _ = none

abbrev pub completed : Option BlockState → Option BlockState
completed (some executing_1) = some ready_review_1
completed (some executing_2) = some ready_review_2
completed (some executing_3) = some ready_final_review
completed _ = none

abbrev pub under_review : Option BlockState → Option BlockState
under_review (some ready_review_1) = some reviewing_1
under_review (some ready_review_2) = some reviewing_2
under_review (some ready_final_review) = some final_reviewing
under_review _ = none

-- An acceptance ends the rounds; a first rejection asks for a repair, a second for the last
-- attempt, which the adaptive arm takes after an escalation, and a third for a failure.
abbrev pub reviewed : Route → Option BlockState → Option Decision → Option BlockState
reviewed route (some reviewing_1) (some accept) = some ready_accept
reviewed route (some reviewing_1) (some reject) = some ready_2
reviewed route (some reviewing_2) (some accept) = some ready_accept
reviewed adaptive_route (some reviewing_2) (some reject) = some escalation_required
reviewed strong_baseline_route (some reviewing_2) (some reject) = some ready_3
reviewed cheap_route (some reviewing_2) (some reject) = some ready_3
reviewed direct_strong (some reviewing_2) (some reject) = some ready_3
reviewed route (some final_reviewing) (some accept) = some ready_accept
reviewed route (some final_reviewing) (some reject) = some ready_fail
reviewed _ _ _ = none

abbrev pub isolated : Route → Option BlockState → Option BlockState
isolated route (some assigned) = some ready_1
isolated direct_strong (some planned) = some ready_1
isolated _ _ = none

abbrev pub escalated : Route → Option BlockState → Option BlockState
escalated adaptive_route (some escalation_required) = some ready_3
escalated _ _ = none

-- Evidence leaves a running block as it is.
unfoldable pub unchanged : Option BlockState → Option BlockState
unfolding is_terminal
unchanged none = none
unchanged (some state) = if is_terminal state then none else some state

unfoldable pub stopped : Option BlockState → Option BlockState
unfolding is_terminal
stopped none = none
stopped (some state) = if is_terminal state then none else some blocked

abbrev pub from_to : Option BlockState → BlockState → Option BlockState → Option BlockState
from_to from to state = if state == from then some to else none

abbrev pub lifecycle : Route → Option BlockState → EventType → Option Decision → Option BlockState
lifecycle route state block_planned_type decision = from_to none planned state
lifecycle route state arm_assigned_type decision = from_to (some planned) assigned state
lifecycle route state isolation_attested_type decision = isolated route state
lifecycle route state execution_started_type decision = started state
lifecycle route state execution_completed_type decision = completed state
lifecycle route state review_started_type decision = under_review state
lifecycle route state review_completed_type decision = reviewed route state decision
lifecycle route state validation_recorded_type decision = unchanged state
lifecycle route state orchestrator_operation_type decision = unchanged state
lifecycle route state usage_recorded_type decision = unchanged state
lifecycle route state parent_rework_type decision = unchanged state
lifecycle route state block_accepted_type decision = from_to (some ready_accept) accepted state
lifecycle route state block_failed_type decision = from_to (some ready_fail) failed state
lifecycle route state block_blocked_type decision = stopped state
lifecycle route state escalation_decided_type decision = escalated route state
lifecycle route state post_accept_defect_type decision = from_to (some accepted) accepted state
lifecycle route state event_invalidated_type decision = none

-- Where a row leads from a state.
abbrev pub row_target : Option BlockState → Option TransitionRow → Option BlockState
row_target state none = none
row_target state (some row) = elim row.to [ to_state next ↦ some next | same ↦ state ]

abbrev pub states : List (Option BlockState)
states = none ∷ map some state_values

abbrev decisions : List (Option Decision)
decisions = none ∷ map some decision_values

abbrev agrees : EventType → Option Decision → Route → Option BlockState → Bool
unfolding find_row unchanged stopped
agrees event_type decision route state =
    row_target state (find_row state event_type decision route)
    == lifecycle route state event_type decision

abbrev all_agree : Bool
all_agree =
    all (λ t. all (λ d. all (λ route. all (agrees t d route) states) route_values) decisions)
      type_values

checked : all_agree ≡ true
unfolding agrees
checked = refl

pub states_complete : (state : Option BlockState) → elem state states ≡ true
states_complete none = refl
states_complete (some state) = some-elem state_values state (state_values_complete state)

decisions_complete : (decision : Option Decision) → elem decision decisions ≡ true
decisions_complete none = refl
decisions_complete (some decision) =
    some-elem decision_values decision (decision_values_complete decision)

agrees-lifecycle :
    (route : Route) (state : Option BlockState) (t : EventType) (d : Option Decision)
    → agrees t d route state ≡ true
    → row_target state (find_row state t d route) ≡ lifecycle route state t d
unfolding agrees
agrees-lifecycle route state t d h =
    (opt_beq_iff (row_target state (find_row state t d route)) (lifecycle route state t d)).0 h

-- The table leads where the rounds say, and nowhere else.
pub find_row-lifecycle :
    (route : Route) (state : Option BlockState) (t : EventType) (d : Option Decision)
    → row_target state (find_row state t d route) ≡ lifecycle route state t d
find_row-lifecycle route state t d =
    let by_type =
      all-elem (λ t. all (λ d. all (λ route. all (agrees t d route) states) route_values) decisions)
        type_values t checked (type_values_complete t) in
    let by_decision =
      all-elem (λ d. all (λ route. all (agrees t d route) states) route_values) decisions d by_type
        (decisions_complete d) in
    let by_route =
      all-elem (λ route. all (agrees t d route) states) route_values route by_decision
        (route_values_complete route) in
    agrees-lifecycle route state t d
      (all-elem (agrees t d route) states state by_route (states_complete state))
