-- ===== src/Pilot/Bounds.antt =====
-- How many attempts and reviews a state of a block can follow (src/pilot/state-machine.ts).
use agent_orchestration_star.Base.{
  ◌+◌, nat_beq, leb, not, ◌&&◌, if◌then◌else◌, all, all-elem, subst, Bool-cases, inl, inr, opt_beq,
  opt_beq_iff, refl, ◌==◌, nat_eq, string_eq, option_eq, ℕ, ◌≤◌, ◌≡◌, Bool, true, false, Option,
  none, some, arith,
}
use agent_orchestration_star.Pilot.Vocabulary.{
  reject, accept, decision_eq, Decision, arm_eq, capability_eq, kind_eq, isolation_eq, finding_eq,
  role_eq,
}
use agent_orchestration_star.Pilot.States.{
  failed, ready_fail, Route, strong_baseline_route, cheap_route, adaptive_route, direct_strong,
  BlockState, planned, assigned, ready_1, executing_1, ready_review_1, reviewing_1, ready_2,
  executing_2, ready_review_2, reviewing_2, escalation_required, ready_3, executing_3,
  ready_final_review, ready_accept, accepted, state_eq, is_terminal, type_eq, route_eq,
}
use agent_orchestration_star.Pilot.Lifecycle.{
  from_to, states, states_complete, started, completed, under_review, reviewed, isolated, escalated,
  unchanged, stopped,
}

abbrev pub attempts_bound : Option BlockState → ℕ
attempts_bound none = 0
attempts_bound (some planned) = 0
attempts_bound (some assigned) = 0
attempts_bound (some ready_1) = 0
attempts_bound (some executing_1) = 1
attempts_bound (some ready_review_1) = 1
attempts_bound (some reviewing_1) = 1
attempts_bound (some ready_2) = 1
attempts_bound (some executing_2) = 2
attempts_bound (some ready_review_2) = 2
attempts_bound (some reviewing_2) = 2
attempts_bound (some escalation_required) = 2
attempts_bound (some ready_3) = 2
attempts_bound (some _) = 3

abbrev pub reviews_bound : Option BlockState → ℕ
reviews_bound none = 0
reviews_bound (some planned) = 0
reviews_bound (some assigned) = 0
reviews_bound (some ready_1) = 0
reviews_bound (some executing_1) = 0
reviews_bound (some ready_review_1) = 0
reviews_bound (some reviewing_1) = 1
reviews_bound (some ready_2) = 1
reviews_bound (some executing_2) = 1
reviews_bound (some ready_review_2) = 1
reviews_bound (some reviewing_2) = 2
reviews_bound (some escalation_required) = 2
reviews_bound (some ready_3) = 2
reviews_bound (some executing_3) = 2
reviews_bound (some ready_final_review) = 2
reviews_bound (some _) = 3

-- An accepted review has been recorded.
abbrev pub is_settled : Option BlockState → Bool
is_settled (some ready_accept) = true
is_settled (some accepted) = true
is_settled _ = false

-- A move that leaves the counts within their bounds.
pub record Widens (state : Option BlockState) (next : BlockState) : Type 0 where
  pub attempts : attempts_bound state ≤ attempts_bound (some next)
  pub reviews : reviews_bound state ≤ reviews_bound (some next)

-- What a test of a move's numbers says.
raised_facts :
    (a a' b b' : ℕ) (settled : Bool)
    → (nat_beq a a' && nat_beq b b' && not settled) ≡ true
    → (a ≡ a') × (b ≡ b') × (settled ≡ false)
raised_facts a a' b b' settled h = ground arith

widened_facts :
    (a a' b b' : ℕ) (settled expected : Bool)
    → (leb a a' && leb b b' && (if expected then settled else not settled)) ≡ true
    → (a ≤ a') × (b ≤ b') × (settled ≡ expected)
widened_facts a a' b b' settled expected h = ground arith

every_state :
    (p : Option BlockState → Bool)
    → all p states ≡ true
    → (state : Option BlockState) → p state ≡ true
every_state p h state = all-elem p states state h (states_complete state)

abbrev starts : Option BlockState → Option BlockState → Bool
starts state none = true
starts state (some next) =
    nat_beq (attempts_bound (some next)) (attempts_bound state + 1)
    && nat_beq (reviews_bound (some next)) (reviews_bound state)
    && not (is_settled (some next))

pub started_bounds :
    (state : Option BlockState) (next : BlockState)
    → started state ≡ some next
    → (attempts_bound (some next) ≡ attempts_bound state + 1)
      × (reviews_bound (some next) ≡ reviews_bound state)
      × (is_settled (some next) ≡ false)
started_bounds state next e =
    raised_facts (attempts_bound (some next)) (attempts_bound state + 1) (reviews_bound (some next))
      (reviews_bound state) (is_settled (some next))
      (subst (λ (o : Option BlockState). starts state o ≡ true) e
        (every_state (λ s. starts s (started s)) refl state))

abbrev reviews_start : Option BlockState → Option BlockState → Bool
reviews_start state none = true
reviews_start state (some next) =
    nat_beq (reviews_bound (some next)) (reviews_bound state + 1)
    && nat_beq (attempts_bound (some next)) (attempts_bound state)
    && not (is_settled (some next))

pub under_review_bounds :
    (state : Option BlockState) (next : BlockState)
    → under_review state ≡ some next
    → (reviews_bound (some next) ≡ reviews_bound state + 1)
      × (attempts_bound (some next) ≡ attempts_bound state)
      × (is_settled (some next) ≡ false)
under_review_bounds state next e =
    raised_facts (reviews_bound (some next)) (reviews_bound state + 1) (attempts_bound (some next))
      (attempts_bound state) (is_settled (some next))
      (subst (λ (o : Option BlockState). reviews_start state o ≡ true) e
        (every_state (λ s. reviews_start s (under_review s)) refl state))

abbrev widens : Bool → Option BlockState → Option BlockState → Bool
widens expected state none = true
widens expected state (some next) =
    leb (attempts_bound state) (attempts_bound (some next))
    && leb (reviews_bound state) (reviews_bound (some next))
    && (if expected then is_settled (some next) else not (is_settled (some next)))

-- A move that passes the test at every state.
widens_bounds :
    (expected : Bool) (move : Option BlockState → Option BlockState)
    → all (λ s. widens expected s (move s)) states ≡ true
    → (state : Option BlockState) (next : BlockState) → move state ≡ some next
    → Widens state next × (is_settled (some next) ≡ expected)
widens_bounds expected move h state next e =
    let (a, b, c) =
      widened_facts (attempts_bound state) (attempts_bound (some next)) (reviews_bound state)
        (reviews_bound (some next)) (is_settled (some next)) expected
        (subst (λ (o : Option BlockState). widens expected state o ≡ true) e
          (every_state (λ s. widens expected s (move s)) h state)) in
    (record { attempts = a; reviews = b }, c)

pub completed_bounds :
    (state : Option BlockState) (next : BlockState)
    → completed state ≡ some next
    → Widens state next × (is_settled (some next) ≡ false)
completed_bounds = widens_bounds false completed refl

pub reviewed_bounds :
    (route : Route) (state : Option BlockState) (decision : Decision) (next : BlockState)
    → reviewed route state (some decision) ≡ some next
    → Widens state next × (is_settled (some next) ≡ (decision == accept))
reviewed_bounds strong_baseline_route state accept next e =
    widens_bounds true (λ s. reviewed strong_baseline_route s (some accept)) refl state next e
reviewed_bounds cheap_route state accept next e =
    widens_bounds true (λ s. reviewed cheap_route s (some accept)) refl state next e
reviewed_bounds adaptive_route state accept next e =
    widens_bounds true (λ s. reviewed adaptive_route s (some accept)) refl state next e
reviewed_bounds direct_strong state accept next e =
    widens_bounds true (λ s. reviewed direct_strong s (some accept)) refl state next e
reviewed_bounds strong_baseline_route state reject next e =
    widens_bounds false (λ s. reviewed strong_baseline_route s (some reject)) refl state next e
reviewed_bounds cheap_route state reject next e =
    widens_bounds false (λ s. reviewed cheap_route s (some reject)) refl state next e
reviewed_bounds adaptive_route state reject next e =
    widens_bounds false (λ s. reviewed adaptive_route s (some reject)) refl state next e
reviewed_bounds direct_strong state reject next e =
    widens_bounds false (λ s. reviewed direct_strong s (some reject)) refl state next e

pub unchanged_same :
    (state : Option BlockState) (next : BlockState)
    → unchanged state ≡ some next
    → state ≡ some next
unfolding unchanged is_terminal
unchanged_same state next e = ground arith

pub stopped_bounds :
    (state : Option BlockState) (next : BlockState)
    → stopped state ≡ some next
    → Widens state next × (is_settled (some next) ≡ false)
unfolding stopped is_terminal
stopped_bounds = widens_bounds false stopped refl

pub isolated_bounds :
    (route : Route) (state : Option BlockState) (next : BlockState)
    → isolated route state ≡ some next
    → Widens state next × (is_settled (some next) ≡ false)
isolated_bounds strong_baseline_route = widens_bounds false (isolated strong_baseline_route) refl
isolated_bounds cheap_route = widens_bounds false (isolated cheap_route) refl
isolated_bounds adaptive_route = widens_bounds false (isolated adaptive_route) refl
isolated_bounds direct_strong = widens_bounds false (isolated direct_strong) refl

pub escalated_bounds :
    (route : Route) (state : Option BlockState) (next : BlockState)
    → escalated route state ≡ some next
    → Widens state next × (is_settled (some next) ≡ false)
escalated_bounds strong_baseline_route = widens_bounds false (escalated strong_baseline_route) refl
escalated_bounds cheap_route = widens_bounds false (escalated cheap_route) refl
escalated_bounds adaptive_route = widens_bounds false (escalated adaptive_route) refl
escalated_bounds direct_strong = widens_bounds false (escalated direct_strong) refl

pub planned_bounds :
    (state : Option BlockState) (next : BlockState)
    → from_to none planned state ≡ some next
    → Widens state next × (is_settled (some next) ≡ false)
planned_bounds = widens_bounds false (from_to none planned) refl

pub assigned_bounds :
    (state : Option BlockState) (next : BlockState)
    → from_to (some planned) assigned state ≡ some next
    → Widens state next × (is_settled (some next) ≡ false)
assigned_bounds = widens_bounds false (from_to (some planned) assigned) refl

pub failed_bounds :
    (state : Option BlockState) (next : BlockState)
    → from_to (some ready_fail) failed state ≡ some next
    → Widens state next × (is_settled (some next) ≡ false)
failed_bounds = widens_bounds false (from_to (some ready_fail) failed) refl

pub accepted_bounds :
    (state : Option BlockState) (next : BlockState)
    → from_to (some ready_accept) accepted state ≡ some next
    → Widens state next × (is_settled (some next) ≡ true)
accepted_bounds = widens_bounds true (from_to (some ready_accept) accepted) refl

-- Where a move from one state came from.
pub from_to_source :
    (from : Option BlockState) (to : BlockState) (state : Option BlockState) (next : BlockState)
    → from_to from to state ≡ some next
    → (state ≡ from) × (to ≡ next)
from_to_source from to state next e = elim (Bool-cases (opt_beq state from)) [
  | inl it ↦ (
    (opt_beq_iff state from).0 it,
    cc (subst (λ (b : Bool). (if b then some to else none) ≡ some next) it e),
  )
  | inr differ ↦
      absurd (cc (subst (λ (b : Bool). (if b then some to else none) ≡ some next) differ e))
]
