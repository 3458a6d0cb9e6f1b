-- ===== src/Pilot/Histories.antt =====
-- A reduced event in its parts, and the induction over a history (src/pilot/state-machine.ts).
use agent_orchestration_star.Base.{
  subst₂, append-nil, append_assoc, ◌==◌, ◌!=◌, nat_eq, string_eq, option_eq, Result, ok, err,
  >>=-inversion, guard_inversion, require_inversion, ok-injective, ℕ, suc, ◌+◌, String, ◌≡◌, refl,
  sym, ◌∙◌, subst, subst₂, false, Option, some, List, [], ◌∷◌, ◌++◌, arith,
}
use agent_orchestration_star.Pilot.Vocabulary.{
  arm_eq, capability_eq, kind_eq, decision_eq, isolation_eq, finding_eq, role_eq,
}
use agent_orchestration_star.Pilot.States.{BlockState, invalid, Route, state_eq, type_eq, route_eq}
use agent_orchestration_star.Pilot.Events.{Payload, PilotEvent}
use agent_orchestration_star.Pilot.Manifest.{ManifestBlock, Manifest}
use agent_orchestration_star.Pilot.Errors.{PilotError}
use agent_orchestration_star.Pilot.Codec.{Codec}
use agent_orchestration_star.Pilot.Rows.{event_type_of, decision_of}
use agent_orchestration_star.Pilot.Machine.{
  block_context, assert_transition_guard, transition_checked,
}
use agent_orchestration_star.Pilot.Lifecycle.{lifecycle}
use agent_orchestration_star.Pilot.Transitions.{Permitted, transition_checked-Permitted}
use agent_orchestration_star.Pilot.Reduction.{Reduction, enter_event}
use agent_orchestration_star.Pilot.Usage.{handle_event}
use agent_orchestration_star.Pilot.Replay.{
  with_unresolved, is_regressive, settle, check_event, advance, reduce_event, reduce_history,
}
use agent_orchestration_star.Pilot.Invariant.{handle_event-state}

with_unresolved-inversion :
    {A : Type 0} (unresolved : List String) (result : Result PilotError A) {a : A}
    → with_unresolved unresolved result ≡ ok a
    → result ≡ ok a
with_unresolved-inversion unresolved (ok a) h = cc
with_unresolved-inversion unresolved (err e) h = cc

module _ (codec : Codec) (manifest : Manifest) where
  -- An event at its turn: handled in its block's context, and permitted there.
  pub record Advance (index : ℕ) (r : Reduction) (event : PilotEvent) (next : Reduction)
      : Type 0 where
    pub in_turn : event.sequence_number ≡ index + 1
    pub block : ManifestBlock
    pub route : Route
    pub in_context : block_context manifest event ≡ ok (block, route)
    pub handled : Reduction
    pub handling :
        handle_event manifest block route (enter_event r event.payload) event.event_id event.payload
        ≡ ok handled
    pub occurred_at : ℕ
    pub on_time : is_regressive r.previous_occurred_at occurred_at ≡ false
    pub state : BlockState
    pub leads :
        lifecycle route r.state (event_type_of event.payload) (decision_of event.payload)
        ≡ some state
    pub guarded :
        assert_transition_guard codec manifest block route r.state event event.payload ≡ ok tt
    pub effect : next ≡ settle handled occurred_at state

  pub record Checked (index : ℕ) (r : Reduction) (event : PilotEvent) (checked : ℕ × Reduction)
      : Type 0 where
    pub in_turn : event.sequence_number ≡ index + 1
    pub block : ManifestBlock
    pub route : Route
    pub in_context : block_context manifest event ≡ ok (block, route)
    pub handling :
        handle_event manifest block route (enter_event r event.payload) event.event_id event.payload
        ≡ ok checked.1
    pub on_time : is_regressive r.previous_occurred_at checked.0 ≡ false

  check_event_inversion :
      (index : ℕ) (r : Reduction) (event : PilotEvent) (checked : ℕ × Reduction)
      → check_event codec manifest index r event ≡ ok checked
      → Checked index r event checked
  unfolding check_event
  check_event_inversion index r event checked e =
      let (in_turn, e1) = guard_inversion (event.sequence_number != index + 1) _ _ e in
      let (at, _, e2) = require_inversion (codec.parse_utc event.occurred_at) _ _ e1 in
      let (on_time, e3) = guard_inversion (is_regressive r.previous_occurred_at at) _ _ e2 in
      let (context, in_context, e4) = >>=-inversion (block_context manifest event) _ e3 in
      let (handled, handling, e5) =
        >>=-inversion
          (handle_event manifest context.0 context.1 (enter_event r event.payload) event.event_id
            event.payload)
          _ e4 in
      let same : (at, handled) ≡ checked = ok-injective e5 in
      record {
        in_turn = ground (arith, in_turn);
        block = context.0;
        route = context.1;
        in_context = in_context;
        handling = ground (arith, handling, same);
        on_time = ground (arith, on_time, same);
      }

  pub enter_event-state :
      (r : Reduction) (payload : Payload) → (enter_event r payload).state ≡ r.state
  unfolding enter_event
  enter_event-state r payload = refl

  -- The same permission, in the context and the state that the loop has.
  Permitted-in :
      (before after : Option BlockState) (block : ManifestBlock) (route : Route)
      (event : PilotEvent) (next : BlockState)
      → Permitted codec manifest after event next
      → after ≡ before
      → block_context manifest event ≡ ok (block, route)
      → (lifecycle route before (event_type_of event.payload) (decision_of event.payload)
          ≡ some next)
        × (assert_transition_guard codec manifest block route before event event.payload ≡ ok tt)
  Permitted-in before after block route event next p same_state in_context =
      let same_context : (p.block ≡ block) × (p.route ≡ route) =
        ground (arith, p.in_context, in_context) in
      (
        subst₂
            (λ (x : Route) (y : Option BlockState).
              lifecycle x y (event_type_of event.payload) (decision_of event.payload) ≡ some next)
            same_context.1 same_state p.leads,
        subst
            (λ (z : ManifestBlock).
              assert_transition_guard codec manifest z route before event event.payload ≡ ok tt)
            same_context.0
            (subst₂
              (λ (x : Route) (y : Option BlockState).
                assert_transition_guard codec manifest p.block x y event event.payload ≡ ok tt)
              same_context.1 same_state p.guarded),
      )

  pub reduce_event_inversion :
      (index : ℕ) (r : Reduction) (event : PilotEvent) (next : Reduction)
      → reduce_event codec manifest index r event ≡ ok next
      → Advance index r event next
  unfolding reduce_event advance
  reduce_event_inversion index r event next e =
      let (checked, first, e1) =
        >>=-inversion (with_unresolved r.unresolved (check_event codec manifest index r event)) _
          e in
      let c =
        check_event_inversion index r event checked (
          with_unresolved-inversion r.unresolved (check_event codec manifest index r event)
            first) in
      let e2 =
        with_unresolved-inversion (checked.1).unresolved
          (advance codec manifest checked.0 checked.1 event) e1 in
      let (state, moved, e3) =
        >>=-inversion (transition_checked codec manifest (checked.1).state event) _ e2 in
      let (_, e4) = guard_inversion (state == invalid) _ _ e3 in
      let p = (transition_checked-Permitted codec manifest (checked.1).state event state).0 moved in
      let before : (checked.1).state ≡ r.state =
        handle_event-state manifest c.block c.route (enter_event r event.payload) event.event_id
          event.payload checked.1 c.handling
        ∙ enter_event-state r event.payload in
      let (leads, guarded) =
        Permitted-in r.state (checked.1).state c.block c.route event state p before c.in_context in
      record {
        in_turn = c.in_turn;
        block = c.block;
        route = c.route;
        in_context = c.in_context;
        handled = checked.1;
        handling = c.handling;
        occurred_at = checked.0;
        on_time = c.on_time;
        state = state;
        leads = leads;
        guarded = guarded;
        effect = sym (ok-injective e4);
      }

  -- A property that every event keeps, along a history.
  module _ (P : List PilotEvent → Reduction → Type 0) where
    pub reduce_history-induction :
        ((past : List PilotEvent) (index : ℕ) (r : Reduction) (event : PilotEvent)
            (next : Reduction)
          → P past r
          → Advance index r event next
          → P (past ++ event ∷ []) next)
        → (past : List PilotEvent) (index : ℕ) (r : Reduction) (events : List PilotEvent)
          (last : Reduction)
        → P past r
        → reduce_history codec manifest index r events ≡ ok last
        → P (past ++ events) last
    unfolding reduce_history
    reduce_history-induction step past index r [] last p e =
        subst₂ P (sym (append-nil past)) (ok-injective e) p
    reduce_history-induction step past index r (event ∷ events) last p e =
        let (next, first, rest) = >>=-inversion (reduce_event codec manifest index r event) _ e in
        let q = step past index r event next p (reduce_event_inversion index r event next first) in
        subst (λ (l : List PilotEvent). P l last) (append_assoc past (event ∷ []) events)
          (reduce_history-induction step (past ++ event ∷ []) (suc index) next events last q rest)
