-- ===== src/Pilot/Transitions.antt =====
-- What a transition does, in terms of the rounds (src/pilot/state-machine.ts).
use agent_orchestration_star.Base.{
  ◌==◌, nat_eq, string_eq, option_eq, Bool-cases, Option-cases, ==_eq, ok, throw_if, require,
  >>=-inversion, ◌≡◌, subst, ◌↔◌, inl, inr, true, false, Option, none, some, arith,
}
use agent_orchestration_star.Pilot.Vocabulary.{
  Decision, arm_eq, capability_eq, kind_eq, decision_eq, isolation_eq, finding_eq, role_eq,
}
use agent_orchestration_star.Pilot.States.{
  BlockState, accepted, EventType, block_planned_type, arm_assigned_type, isolation_attested_type,
  execution_started_type, execution_completed_type, review_started_type, review_completed_type,
  validation_recorded_type, orchestrator_operation_type, usage_recorded_type, parent_rework_type,
  block_accepted_type, block_failed_type, block_blocked_type, escalation_decided_type,
  post_accept_defect_type, event_invalidated_type, Route, state_eq, is_terminal, type_eq, route_eq,
}
use agent_orchestration_star.Pilot.Events.{PilotEvent}
use agent_orchestration_star.Pilot.Manifest.{ManifestBlock, Manifest}
use agent_orchestration_star.Pilot.Errors.{invalidation_not_projected}
use agent_orchestration_star.Pilot.Codec.{Codec}
use agent_orchestration_star.Pilot.Rows.{TransitionRow, event_type_of, decision_of, find_row}
use agent_orchestration_star.Pilot.Machine.{
  block_context, assert_transition_guard, no_row, target, transition_in_context, transition_checked,
}
use agent_orchestration_star.Pilot.Lifecycle.{
  unchanged, stopped, lifecycle, row_target, find_row-lifecycle,
}

-- After the end only a defect of an accepted block is recorded.
pub lifecycle-terminal :
    (route : Route) (state : BlockState) (t : EventType) (d : Option Decision) (next : BlockState)
    → is_terminal state ≡ true
    → lifecycle route (some state) t d ≡ some next
    → (t ≡ post_accept_defect_type) × (state ≡ accepted) × (next ≡ accepted)
unfolding is_terminal unchanged stopped
lifecycle-terminal route state block_planned_type d next ended leads = ground arith
lifecycle-terminal route state arm_assigned_type d next ended leads = ground arith
lifecycle-terminal route state isolation_attested_type d next ended leads = ground arith
lifecycle-terminal route state execution_started_type d next ended leads = ground arith
lifecycle-terminal route state execution_completed_type d next ended leads = ground arith
lifecycle-terminal route state review_started_type d next ended leads = ground arith
lifecycle-terminal route state review_completed_type d next ended leads = ground arith
lifecycle-terminal route state validation_recorded_type d next ended leads = ground arith
lifecycle-terminal route state orchestrator_operation_type d next ended leads = ground arith
lifecycle-terminal route state usage_recorded_type d next ended leads = ground arith
lifecycle-terminal route state parent_rework_type d next ended leads = ground arith
lifecycle-terminal route state block_accepted_type d next ended leads = ground arith
lifecycle-terminal route state block_failed_type d next ended leads = ground arith
lifecycle-terminal route state block_blocked_type d next ended leads = ground arith
lifecycle-terminal route state escalation_decided_type d next ended leads = ground arith
lifecycle-terminal route state post_accept_defect_type d next ended leads = ground arith
lifecycle-terminal route state event_invalidated_type d next ended leads = ground arith

module _ (codec : Codec) (manifest : Manifest) where
  -- An event that its block may take: of the manifest's block, at its turn, with its guard met.
  pub record Permitted (state : Option BlockState) (event : PilotEvent) (next : BlockState)
      : Type 0 where
    pub block : ManifestBlock
    pub route : Route
    pub in_context : block_context manifest event ≡ ok (block, route)
    pub leads :
        lifecycle route state (event_type_of event.payload) (decision_of event.payload) ≡ some next
    pub guarded :
        assert_transition_guard codec manifest block route state event event.payload ≡ ok tt

  target_of_row :
      (state : Option BlockState) (row : TransitionRow) (next : BlockState)
      → (target codec state row.to ≡ ok next) ↔ (row_target state (some row) ≡ some next)
  target_of_row none row next = ground arith
  target_of_row (some state) row next = ground arith

  transition_in_context_inversion :
      (block : ManifestBlock) (route : Route) (state : Option BlockState) (event : PilotEvent)
      (next : BlockState)
      → transition_in_context codec manifest block route state event ≡ ok next
      → (row : TransitionRow) × (find_row state
            (event_type_of event.payload)
            (decision_of event.payload)
            route
          ≡ some row)
        × (assert_transition_guard codec manifest block route state event event.payload ≡ ok tt)
        × (target codec state row.to ≡ ok next)
  unfolding transition_in_context
  transition_in_context_inversion block route state event next e =
      let (row, found, e1) =
        >>=-inversion
          (require (find_row state (event_type_of event.payload) (decision_of event.payload) route)
            (no_row codec state))
          _ e in
      let (u, guarded, e2) =
        >>=-inversion (assert_transition_guard codec manifest block route state event event.payload)
          _ e1 in
      (row, ground arith, guarded, e2)

  -- A row that the rounds lead along.
  row_of_leads :
      (route : Route) (state : Option BlockState) (t : EventType) (d : Option Decision)
      (next : BlockState)
      → lifecycle route state t d ≡ some next
      → (row : TransitionRow) × (find_row state t d route ≡ some row)
        × (target codec state row.to ≡ ok next)
  row_of_leads route state t d next leads = elim (Option-cases (find_row state t d route)) [
    | inl missing ↦ absurd (ground (arith, find_row-lifecycle route state t d, missing))
    | inr (row, found) ↦ (
      row,
      found,
      (target_of_row state row next).1 (ground (arith, find_row-lifecycle route state t d, found)),
    )
  ]

  Permitted-of_transition :
      (state : Option BlockState) (event : PilotEvent) (next : BlockState)
      → transition_checked codec manifest state event ≡ ok next
      → Permitted state event next
  unfolding transition_checked
  Permitted-of_transition state event next e =
      let t = event_type_of event.payload in
      let d = decision_of event.payload in
      let (_, kind, e1) =
        >>=-inversion (throw_if (t == event_invalidated_type) invalidation_not_projected) _ e in
      let (context, in_context, e2) = >>=-inversion (block_context manifest event) _ e1 in
      let (row, found, guarded, leads) =
        transition_in_context_inversion context.0 context.1 state event next e2 in
      record {
        block = context.0;
        route = context.1;
        in_context = in_context;
        leads = ground (
          arith,
          find_row-lifecycle context.1 state t d,
          found,
          (target_of_row state row next).0 leads,
        );
        guarded = guarded;
      }

  never_invalidation :
      (route : Route) (state : Option BlockState) (t : EventType) (d : Option Decision)
      (next : BlockState)
      → lifecycle route state t d ≡ some next
      → (t == event_invalidated_type) ≡ false
  never_invalidation route state t d next leads = elim (Bool-cases (t == event_invalidated_type)) [
    | inl it ↦
        let never =
          subst (λ (u : EventType). lifecycle route state u d ≡ some next)
            (==_eq {b = event_invalidated_type} it) leads in
        absurd (cc never)
    | inr other ↦ other
  ]

  transition_of_Permitted :
      (state : Option BlockState) (event : PilotEvent) (next : BlockState)
      → Permitted state event next
      → transition_checked codec manifest state event ≡ ok next
  unfolding transition_checked transition_in_context
  transition_of_Permitted state event next p =
      let t = event_type_of event.payload in
      let d = decision_of event.payload in
      let (row, found, leads) = row_of_leads p.route state t d next p.leads in
      rw (never_invalidation p.route state t d next p.leads)
        (rw p.in_context (rw found (rw p.guarded leads)))

  pub transition_checked-Permitted :
      (state : Option BlockState) (event : PilotEvent) (next : BlockState)
      → (transition_checked codec manifest state event ≡ ok next) ↔ Permitted state event next
  transition_checked-Permitted state event next =
      (Permitted-of_transition state event next, transition_of_Permitted state event next)

  -- From a terminal state the only transition is the record of a defect on an accepted block.
  pub transition_checked-terminal :
      (state : BlockState) (event : PilotEvent) (next : BlockState)
      → is_terminal state ≡ true
      → transition_checked codec manifest (some state) event ≡ ok next
      → (event_type_of event.payload ≡ post_accept_defect_type)
        × (state ≡ accepted)
        × (next ≡ accepted)
  transition_checked-terminal state event next ended e =
      let p = Permitted-of_transition (some state) event next e in
      lifecycle-terminal p.route state (event_type_of event.payload) (decision_of event.payload)
        next ended p.leads
