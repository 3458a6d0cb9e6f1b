-- ===== src/Pilot/States.antt =====
-- The states of a block and the kinds of event (src/pilot/state-machine.ts, src/pilot/contracts.ts).
use agent_orchestration_star.Base.{
  ℕ, Bool, List, ◌≡◌, refl, Comparable, nat_beq, tag_eq_iff, ◌↔◌, true, if◌then◌else◌, elem, [],
  ◌∷◌, ◌==◌, ◌||◌,
}

pub data BlockState : Type 0 where
  planned assigned ready_1 executing_1 ready_review_1 reviewing_1 ready_2 : BlockState
  executing_2 ready_review_2 reviewing_2 escalation_required ready_3 : BlockState
  executing_3 ready_final_review final_reviewing ready_accept ready_fail : BlockState
  accepted failed blocked invalid : BlockState

abbrev state_tag : BlockState → ℕ
state_tag planned = 0
state_tag assigned = 1
state_tag ready_1 = 2
state_tag executing_1 = 3
state_tag ready_review_1 = 4
state_tag reviewing_1 = 5
state_tag ready_2 = 6
state_tag executing_2 = 7
state_tag ready_review_2 = 8
state_tag reviewing_2 = 9
state_tag escalation_required = 10
state_tag ready_3 = 11
state_tag executing_3 = 12
state_tag ready_final_review = 13
state_tag final_reviewing = 14
state_tag ready_accept = 15
state_tag ready_fail = 16
state_tag accepted = 17
state_tag failed = 18
state_tag blocked = 19
state_tag invalid = 20

abbrev state_of_tag : ℕ → BlockState
state_of_tag n =
    if nat_beq n 0
    then planned
    else if nat_beq n 1
    then assigned
    else if nat_beq n 2
    then ready_1
    else if nat_beq n 3
    then executing_1
    else if nat_beq n 4
    then ready_review_1
    else if nat_beq n 5
    then reviewing_1
    else if nat_beq n 6
    then ready_2
    else if nat_beq n 7
    then executing_2
    else if nat_beq n 8
    then ready_review_2
    else if nat_beq n 9
    then reviewing_2
    else if nat_beq n 10
    then escalation_required
    else if nat_beq n 11
    then ready_3
    else if nat_beq n 12
    then executing_3
    else if nat_beq n 13
    then ready_final_review
    else if nat_beq n 14
    then final_reviewing
    else if nat_beq n 15
    then ready_accept
    else if nat_beq n 16
    then ready_fail
    else if nat_beq n 17
    then accepted
    else if nat_beq n 18
    then failed
    else if nat_beq n 19
    then blocked
    else invalid

state_tag_back : (x : BlockState) → state_of_tag (state_tag x) ≡ x
state_tag_back planned = refl
state_tag_back assigned = refl
state_tag_back ready_1 = refl
state_tag_back executing_1 = refl
state_tag_back ready_review_1 = refl
state_tag_back reviewing_1 = refl
state_tag_back ready_2 = refl
state_tag_back executing_2 = refl
state_tag_back ready_review_2 = refl
state_tag_back reviewing_2 = refl
state_tag_back escalation_required = refl
state_tag_back ready_3 = refl
state_tag_back executing_3 = refl
state_tag_back ready_final_review = refl
state_tag_back final_reviewing = refl
state_tag_back ready_accept = refl
state_tag_back ready_fail = refl
state_tag_back accepted = refl
state_tag_back failed = refl
state_tag_back blocked = refl
state_tag_back invalid = refl

abbrev pub state_beq : BlockState → BlockState → Bool
state_beq a b = nat_beq (state_tag a) (state_tag b)

pub state_beq_iff : (a b : BlockState) → (state_beq a b ≡ true) ↔ (a ≡ b)
state_beq_iff = tag_eq_iff state_tag state_of_tag state_tag_back

instance abbrev pub state_eq : Comparable BlockState
state_eq = record { equal = state_beq; equal_iff = state_beq_iff }

-- Every value, for checks by cases.
abbrev pub state_values : List BlockState
state_values =
    planned ∷ assigned ∷ ready_1 ∷ executing_1 ∷ ready_review_1 ∷ reviewing_1 ∷ ready_2
    ∷ executing_2 ∷ ready_review_2 ∷ reviewing_2 ∷ escalation_required ∷ ready_3 ∷ executing_3
    ∷ ready_final_review ∷ final_reviewing ∷ ready_accept ∷ ready_fail ∷ accepted ∷ failed ∷ blocked
    ∷ invalid ∷ []

pub state_values_complete : (x : BlockState) → elem x state_values ≡ true
state_values_complete planned = refl
state_values_complete assigned = refl
state_values_complete ready_1 = refl
state_values_complete executing_1 = refl
state_values_complete ready_review_1 = refl
state_values_complete reviewing_1 = refl
state_values_complete ready_2 = refl
state_values_complete executing_2 = refl
state_values_complete ready_review_2 = refl
state_values_complete reviewing_2 = refl
state_values_complete escalation_required = refl
state_values_complete ready_3 = refl
state_values_complete executing_3 = refl
state_values_complete ready_final_review = refl
state_values_complete final_reviewing = refl
state_values_complete ready_accept = refl
state_values_complete ready_fail = refl
state_values_complete accepted = refl
state_values_complete failed = refl
state_values_complete blocked = refl
state_values_complete invalid = refl

-- `terminalStates`.
unfoldable pub is_terminal : BlockState → Bool
is_terminal state = state == accepted || state == failed || state == blocked || state == invalid

pub data EventType : Type 0 where
  block_planned_type arm_assigned_type isolation_attested_type : EventType
  execution_started_type execution_completed_type review_started_type : EventType
  review_completed_type validation_recorded_type orchestrator_operation_type : EventType
  usage_recorded_type parent_rework_type block_accepted_type : EventType
  block_failed_type block_blocked_type escalation_decided_type : EventType
  post_accept_defect_type event_invalidated_type : EventType

abbrev type_tag : EventType → ℕ
type_tag block_planned_type = 0
type_tag arm_assigned_type = 1
type_tag isolation_attested_type = 2
type_tag execution_started_type = 3
type_tag execution_completed_type = 4
type_tag review_started_type = 5
type_tag review_completed_type = 6
type_tag validation_recorded_type = 7
type_tag orchestrator_operation_type = 8
type_tag usage_recorded_type = 9
type_tag parent_rework_type = 10
type_tag block_accepted_type = 11
type_tag block_failed_type = 12
type_tag block_blocked_type = 13
type_tag escalation_decided_type = 14
type_tag post_accept_defect_type = 15
type_tag event_invalidated_type = 16

abbrev type_of_tag : ℕ → EventType
type_of_tag n =
    if nat_beq n 0
    then block_planned_type
    else if nat_beq n 1
    then arm_assigned_type
    else if nat_beq n 2
    then isolation_attested_type
    else if nat_beq n 3
    then execution_started_type
    else if nat_beq n 4
    then execution_completed_type
    else if nat_beq n 5
    then review_started_type
    else if nat_beq n 6
    then review_completed_type
    else if nat_beq n 7
    then validation_recorded_type
    else if nat_beq n 8
    then orchestrator_operation_type
    else if nat_beq n 9
    then usage_recorded_type
    else if nat_beq n 10
    then parent_rework_type
    else if nat_beq n 11
    then block_accepted_type
    else if nat_beq n 12
    then block_failed_type
    else if nat_beq n 13
    then block_blocked_type
    else if nat_beq n 14
    then escalation_decided_type
    else if nat_beq n 15
    then post_accept_defect_type
    else event_invalidated_type

type_tag_back : (x : EventType) → type_of_tag (type_tag x) ≡ x
type_tag_back block_planned_type = refl
type_tag_back arm_assigned_type = refl
type_tag_back isolation_attested_type = refl
type_tag_back execution_started_type = refl
type_tag_back execution_completed_type = refl
type_tag_back review_started_type = refl
type_tag_back review_completed_type = refl
type_tag_back validation_recorded_type = refl
type_tag_back orchestrator_operation_type = refl
type_tag_back usage_recorded_type = refl
type_tag_back parent_rework_type = refl
type_tag_back block_accepted_type = refl
type_tag_back block_failed_type = refl
type_tag_back block_blocked_type = refl
type_tag_back escalation_decided_type = refl
type_tag_back post_accept_defect_type = refl
type_tag_back event_invalidated_type = refl

abbrev pub type_beq : EventType → EventType → Bool
type_beq a b = nat_beq (type_tag a) (type_tag b)

pub type_beq_iff : (a b : EventType) → (type_beq a b ≡ true) ↔ (a ≡ b)
type_beq_iff = tag_eq_iff type_tag type_of_tag type_tag_back

instance abbrev pub type_eq : Comparable EventType
type_eq = record { equal = type_beq; equal_iff = type_beq_iff }

-- Every value, for checks by cases.
abbrev pub type_values : List EventType
type_values =
    block_planned_type ∷ arm_assigned_type ∷ isolation_attested_type ∷ execution_started_type
    ∷ execution_completed_type ∷ review_started_type ∷ review_completed_type
    ∷ validation_recorded_type ∷ orchestrator_operation_type ∷ usage_recorded_type
    ∷ parent_rework_type ∷ block_accepted_type ∷ block_failed_type ∷ block_blocked_type
    ∷ escalation_decided_type ∷ post_accept_defect_type ∷ event_invalidated_type ∷ []

pub type_values_complete : (x : EventType) → elem x type_values ≡ true
type_values_complete block_planned_type = refl
type_values_complete arm_assigned_type = refl
type_values_complete isolation_attested_type = refl
type_values_complete execution_started_type = refl
type_values_complete execution_completed_type = refl
type_values_complete review_started_type = refl
type_values_complete review_completed_type = refl
type_values_complete validation_recorded_type = refl
type_values_complete orchestrator_operation_type = refl
type_values_complete usage_recorded_type = refl
type_values_complete parent_rework_type = refl
type_values_complete block_accepted_type = refl
type_values_complete block_failed_type = refl
type_values_complete block_blocked_type = refl
type_values_complete escalation_decided_type = refl
type_values_complete post_accept_defect_type = refl
type_values_complete event_invalidated_type = refl

-- The arm of an assigned block, or the direct strong route of an unassigned one.
pub data Route : Type 0 where
  strong_baseline_route cheap_route adaptive_route direct_strong : Route

abbrev route_tag : Route → ℕ
route_tag strong_baseline_route = 0
route_tag cheap_route = 1
route_tag adaptive_route = 2
route_tag direct_strong = 3

abbrev route_of_tag : ℕ → Route
route_of_tag n =
    if nat_beq n 0
    then strong_baseline_route
    else if nat_beq n 1
    then cheap_route
    else if nat_beq n 2
    then adaptive_route
    else direct_strong

route_tag_back : (x : Route) → route_of_tag (route_tag x) ≡ x
route_tag_back strong_baseline_route = refl
route_tag_back cheap_route = refl
route_tag_back adaptive_route = refl
route_tag_back direct_strong = refl

abbrev pub route_beq : Route → Route → Bool
route_beq a b = nat_beq (route_tag a) (route_tag b)

pub route_beq_iff : (a b : Route) → (route_beq a b ≡ true) ↔ (a ≡ b)
route_beq_iff = tag_eq_iff route_tag route_of_tag route_tag_back

instance abbrev pub route_eq : Comparable Route
route_eq = record { equal = route_beq; equal_iff = route_beq_iff }

-- Every value, for checks by cases.
abbrev pub route_values : List Route
route_values = strong_baseline_route ∷ cheap_route ∷ adaptive_route ∷ direct_strong ∷ []

pub route_values_complete : (x : Route) → elem x route_values ≡ true
route_values_complete strong_baseline_route = refl
route_values_complete cheap_route = refl
route_values_complete adaptive_route = refl
route_values_complete direct_strong = refl
