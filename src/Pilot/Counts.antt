-- ===== src/Pilot/Counts.antt =====
-- How often a valid history executes and reviews, by which capability (src/pilot/state-machine.ts).
use agent_orchestration_star.Base.{
  ◌∙◌, ap, false, some, if◌then◌else◌, ◌!=◌, nat_eq, string_eq, option_eq, ==_eq, All, All-append,
  ok, guard_inversion, ok-injective, ℕ, ◌+◌, ◌≤◌, String, ◌≡◌, refl, sym, subst, subst₂, Bool, true,
  not, Option, List, [], ◌∷◌, ◌++◌, arith,
}
use agent_orchestration_star.Pilot.Vocabulary.{
  arm_eq, capability_eq, kind_eq, decision_eq, isolation_eq, finding_eq, role_eq,
}
use agent_orchestration_star.Pilot.States.{accepted, BlockState, Route, state_eq, type_eq, route_eq}
use agent_orchestration_star.Pilot.Events.{
  Payload, block_planned, arm_assigned, isolation_attested, execution_started, execution_completed,
  review_started, review_completed, validation_recorded, orchestrator_operation_recorded,
  usage_recorded, parent_rework_recorded, block_accepted, block_failed, block_blocked,
  escalation_decided, post_accept_defect_recorded, event_invalidated, ExecutionStarted, PilotEvent,
}
use agent_orchestration_star.Pilot.Manifest.{ManifestBlock, Manifest}
use agent_orchestration_star.Pilot.Codec.{Codec}
use agent_orchestration_star.Pilot.Rows.{event_type_of, decision_of}
use agent_orchestration_star.Pilot.Machine.{
  block_context, route_for, assert_execution_route, expected_attempt, is_expected,
  assert_transition_guard,
}
use agent_orchestration_star.Pilot.Lifecycle.{lifecycle}
use agent_orchestration_star.Pilot.Log.{active_events}
use agent_orchestration_star.Pilot.Reduction.{Reduction, initial_reduction}
use agent_orchestration_star.Pilot.Replay.{
  BlockReplay, history_of, valid_replay, reduce_history, replay_block,
}
use agent_orchestration_star.Pilot.Bounds.{
  Widens, is_settled, planned_bounds, assigned_bounds, failed_bounds, accepted_bounds,
  from_to_source, attempts_bound, reviews_bound, started_bounds, under_review_bounds,
  completed_bounds, reviewed_bounds, unchanged_same, stopped_bounds, isolated_bounds,
  escalated_bounds,
}
use agent_orchestration_star.Pilot.Histories.{Advance, reduce_history-induction}
use agent_orchestration_star.Pilot.Outcome.{replay_block_inversion}

abbrev pub is_start : Payload → Bool
is_start (execution_started _) = true
is_start _ = false

abbrev pub is_review_start : Payload → Bool
is_review_start (review_started _) = true
is_review_start _ = false

abbrev pub count : (Payload → Bool) → List PilotEvent → ℕ
count p [] = 0
count p (event ∷ events) = (if p event.payload then 1 else 0) + count p events

count-append :
    (p : Payload → Bool) (past : List PilotEvent) (event : PilotEvent)
    → count p (past ++ event ∷ []) ≡ count p past + (if p event.payload then 1 else 0)
count-append p [] event = omega arith
count-append p (x ∷ past) event = omega (arith, count-append p past event)

abbrev one_if : Bool → ℕ
one_if test = if test then 1 else 0

-- A move takes the bounds along.
abbrev Grows : Option BlockState → Payload → BlockState → Type 0
Grows state payload next =
    (attempts_bound state + one_if (is_start payload) ≤ attempts_bound (some next))
    × (reviews_bound state + one_if (is_review_start payload) ≤ reviews_bound (some next))

Widens-Grows :
    (state : Option BlockState) (next : BlockState)
    → Widens state next
    → (attempts_bound state + 0 ≤ attempts_bound (some next))
      × (reviews_bound state + 0 ≤ reviews_bound (some next))
Widens-Grows state next w = (omega (arith, w.attempts), omega (arith, w.reviews))

started_grows :
    (state : Option BlockState) (next : BlockState)
    → (attempts_bound (some next) ≡ attempts_bound state + 1)
      × (reviews_bound (some next) ≡ reviews_bound state)
      × (is_settled (some next) ≡ false)
    → (attempts_bound state + 1 ≤ attempts_bound (some next))
      × (reviews_bound state + 0 ≤ reviews_bound (some next))
started_grows state next b = (omega (arith, b.0), omega (arith, b.1))

review_grows :
    (state : Option BlockState) (next : BlockState)
    → (reviews_bound (some next) ≡ reviews_bound state + 1)
      × (attempts_bound (some next) ≡ attempts_bound state)
      × (is_settled (some next) ≡ false)
    → (attempts_bound state + 0 ≤ attempts_bound (some next))
      × (reviews_bound state + 1 ≤ reviews_bound (some next))
review_grows state next b = (omega (arith, b.1), omega (arith, b.0))

same-Widens :
    (state : Option BlockState) (next : BlockState) → state ≡ some next → Widens state next
same-Widens state next e = record {
  attempts = omega (arith, ap attempts_bound e);
  reviews = omega (arith, ap reviews_bound e);
}

lifecycle-Grows :
    (route : Route) (state : Option BlockState) (payload : Payload) (next : BlockState)
    → lifecycle route state (event_type_of payload) (decision_of payload) ≡ some next
    → Grows state payload next
lifecycle-Grows route state (execution_started _) next e =
    started_grows state next (started_bounds state next e)
lifecycle-Grows route state (execution_completed _) next e =
    Widens-Grows state next (completed_bounds state next e).0
lifecycle-Grows route state (review_started _) next e =
    review_grows state next (under_review_bounds state next e)
lifecycle-Grows route state (review_completed x) next e =
    Widens-Grows state next (reviewed_bounds route state x.decision next e).0
lifecycle-Grows route state (validation_recorded _) next e =
    Widens-Grows state next (same-Widens state next (unchanged_same state next e))
lifecycle-Grows route state (orchestrator_operation_recorded _) next e =
    Widens-Grows state next (same-Widens state next (unchanged_same state next e))
lifecycle-Grows route state (usage_recorded _) next e =
    Widens-Grows state next (same-Widens state next (unchanged_same state next e))
lifecycle-Grows route state (parent_rework_recorded _) next e =
    Widens-Grows state next (same-Widens state next (unchanged_same state next e))
lifecycle-Grows route state (block_blocked _ _ _) next e =
    Widens-Grows state next (stopped_bounds state next e).0
lifecycle-Grows route state (isolation_attested _) next e =
    Widens-Grows state next (isolated_bounds route state next e).0
lifecycle-Grows route state (escalation_decided _) next e =
    Widens-Grows state next (escalated_bounds route state next e).0
lifecycle-Grows route state (block_planned _) next e =
    Widens-Grows state next (planned_bounds state next e).0
lifecycle-Grows route state (arm_assigned _ _) next e =
    Widens-Grows state next (assigned_bounds state next e).0
lifecycle-Grows route state (block_accepted _) next e =
    Widens-Grows state next (accepted_bounds state next e).0
lifecycle-Grows route state (block_failed _ _) next e =
    Widens-Grows state next (failed_bounds state next e).0
lifecycle-Grows route state (post_accept_defect_recorded _) next e =
    let (before, after) = from_to_source (some accepted) accepted state next e in
    Widens-Grows state next
      (same-Widens state next (before ∙ ap (λ (s : BlockState). some s) after))
lifecycle-Grows route state (event_invalidated _) next e = absurd (cc e)

-- An execution runs as its arm says: the direct and the baseline route strong, the arm without
-- early escalation cheap, and the adaptive arm strong on its third attempt alone.
abbrev pub IsRouted : Manifest → PilotEvent → Payload → Type 0
IsRouted manifest event (execution_started execution) =
    (context : ManifestBlock × Route)
    → block_context manifest event ≡ ok context
    → (execution.executor_capability ≡ route_for context.1 execution.attempt_number)
      × (execution.attempt_number ≤ 3)
IsRouted manifest event _ = Unit

module _ (codec : Codec) (manifest : Manifest) where
  expected_number :
      (state : Option BlockState) (execution : ExecutionStarted)
      → not (is_expected (expected_attempt state) execution) ≡ false
      → execution.attempt_number ≤ 3
  expected_number state execution e = ground (arith, e)

  capability_of_route :
      (route : Route) (execution : ExecutionStarted)
      → assert_execution_route manifest route execution ≡ ok tt
      → execution.executor_capability ≡ route_for route execution.attempt_number
  unfolding assert_execution_route
  capability_of_route route execution e =
      let (matching, _) =
        guard_inversion (execution.executor_capability != route_for route execution.attempt_number)
          _ _ e in
      ==_eq (ground (arith, matching))

  guard_of_start :
      (block : ManifestBlock) (route : Route) (state : Option BlockState) (event : PilotEvent)
      (execution : ExecutionStarted)
      → assert_transition_guard codec manifest block route state event (execution_started execution)
        ≡ ok tt
      → (execution.attempt_number ≤ 3)
        × (execution.executor_capability ≡ route_for route execution.attempt_number)
  unfolding assert_transition_guard
  guard_of_start block route state event execution g =
      let (expected, e1) =
        guard_inversion (not (is_expected (expected_attempt state) execution)) _ _ g in
      (expected_number state execution expected, capability_of_route route execution e1)

  routed :
      (block : ManifestBlock) (route : Route) (state : Option BlockState) (event : PilotEvent)
      (payload : Payload)
      → block_context manifest event ≡ ok (block, route)
      → assert_transition_guard codec manifest block route state event payload ≡ ok tt
      → IsRouted manifest event payload
  routed block route state event (execution_started execution) in_context g = λ context is_its.
      let (number, capability) = guard_of_start block route state event execution g in
      subst
        (λ (x : ManifestBlock × Route).
          (execution.executor_capability ≡ route_for x.1 execution.attempt_number)
          × (execution.attempt_number ≤ 3))
        (ok-injective (sym in_context ∙ is_its)) (capability, number)
  routed block route state event (block_planned _) in_context g = tt
  routed block route state event (arm_assigned _ _) in_context g = tt
  routed block route state event (isolation_attested _) in_context g = tt
  routed block route state event (execution_completed _) in_context g = tt
  routed block route state event (review_started _) in_context g = tt
  routed block route state event (review_completed _) in_context g = tt
  routed block route state event (validation_recorded _) in_context g = tt
  routed block route state event (orchestrator_operation_recorded _) in_context g = tt
  routed block route state event (usage_recorded _) in_context g = tt
  routed block route state event (parent_rework_recorded _) in_context g = tt
  routed block route state event (block_accepted _) in_context g = tt
  routed block route state event (block_failed _ _) in_context g = tt
  routed block route state event (block_blocked _ _ _) in_context g = tt
  routed block route state event (escalation_decided _) in_context g = tt
  routed block route state event (post_accept_defect_recorded _) in_context g = tt
  routed block route state event (event_invalidated _) in_context g = tt

  -- What a history has tried and reviewed, and how its executions were routed.
  pub record IsBounded (past : List PilotEvent) (r : Reduction) : Type 0 where
    pub executions : count is_start past ≤ attempts_bound r.state
    pub reviews : count is_review_start past ≤ reviews_bound r.state
    pub routes : All (λ (event : PilotEvent). IsRouted manifest event event.payload) past

  Advance-IsBounded :
      (past : List PilotEvent) (index : ℕ) (r : Reduction) (event : PilotEvent) (next : Reduction)
      → IsBounded past r
      → Advance codec manifest index r event next
      → IsBounded (past ++ event ∷ []) next
  Advance-IsBounded past index r event next b a =
      let grows = lifecycle-Grows a.route r.state event.payload a.state a.leads in
      let now : next.state ≡ some a.state = cc a.effect in
      record {
        executions = ground (arith, count-append is_start past event, grows, ap attempts_bound now);
        reviews =
            ground (arith, count-append is_review_start past event, grows, ap reviews_bound now);
        routes =
            All-append (λ (x : PilotEvent). IsRouted manifest x x.payload) past (event ∷ [])
              b.routes
              (routed a.block a.route r.state event event.payload a.in_context a.guarded, tt);
      }

  initial-IsBounded : IsBounded [] initial_reduction
  unfolding initial_reduction
  initial-IsBounded = record { executions = omega arith; reviews = omega arith; routes = tt }

  attempts_at_most : (state : Option BlockState) → attempts_bound state ≤ 3
  attempts_at_most state = ground arith

  reviews_at_most : (state : Option BlockState) → reviews_bound state ≤ 3
  reviews_at_most state = ground arith

  bounded_history :
      (history : List PilotEvent) (last : Reduction)
      → reduce_history codec manifest 0 initial_reduction history ≡ ok last
      → (count is_start history ≤ 3)
        × (count is_review_start history ≤ 3)
        × All (λ (event : PilotEvent). IsRouted manifest event event.payload) history
  bounded_history history last reduced =
      let b =
        reduce_history-induction codec manifest IsBounded Advance-IsBounded [] 0 initial_reduction
          history last initial-IsBounded reduced in
      (
        omega (arith, b.executions, attempts_at_most last.state),
        omega (arith, b.reviews, reviews_at_most last.state),
        b.routes,
      )

  block_of_valid :
      (block_id : String) (state : BlockState) (last : Reduction)
      → (valid_replay block_id state last).block_id ≡ some block_id
  unfolding valid_replay
  block_of_valid block_id state last = refl

  -- In a log that replays to a valid history of a block, the active events of the block start an
  -- execution at most three times and a review at most three times; each execution has the
  -- capability of its route at its attempt's number, which is at most 3.
  pub replay_block_bounded :
      (events projected : List PilotEvent) (block_id : String)
      → active_events codec events ≡ ok projected
      → (replay_block codec manifest events).valid_history ≡ true
      → (replay_block codec manifest events).block_id ≡ some block_id
      → (count is_start (history_of block_id projected) ≤ 3)
        × (count is_review_start (history_of block_id projected) ≤ 3)
        × All
            (λ (event : PilotEvent). IsRouted manifest event event.payload)
            (history_of block_id projected)
  replay_block_bounded events projected block_id active v named =
      let p = replay_block_inversion codec manifest events v in
      let same_log : p.projected ≡ projected = ok-injective (sym p.active ∙ active) in
      let same_block : p.block_id ≡ block_id = ground (
        arith,
        block_of_valid p.block_id p.state p.last,
        subst (λ (x : BlockReplay). x.block_id ≡ some block_id) p.concluded named,
      ) in
      bounded_history (history_of block_id projected) p.last (
        subst₂
          (λ (b : String) (l : List PilotEvent).
            reduce_history codec manifest 0 initial_reduction (history_of b l) ≡ ok p.last)
          same_block same_log p.reduced)
