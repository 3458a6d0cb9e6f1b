-- ===== src/Pilot/Outcome.antt =====
-- What a replay's verdict on a block rests on (src/pilot/state-machine.ts).
use agent_orchestration_star.Base.{
  ◌==◌, nat_eq, string_eq, option_eq, Bool-cases, Option-cases, or_else, Result, ok, err,
  Result-cases, ℕ, String, ◌≡◌, refl, sym, ◌∙◌, subst, inl, inr, true, Option, none, some, List, [],
  ◌∷◌, ◌++◌, arith,
}
use agent_orchestration_star.Pilot.Vocabulary.{
  arm_eq, capability_eq, kind_eq, decision_eq, isolation_eq, finding_eq, role_eq,
}
use agent_orchestration_star.Pilot.States.{BlockState, state_eq, type_eq, route_eq}
use agent_orchestration_star.Pilot.Events.{Payload, PilotEvent}
use agent_orchestration_star.Pilot.Manifest.{Manifest}
use agent_orchestration_star.Pilot.Codec.{Codec}
use agent_orchestration_star.Pilot.Rows.{event_type_of, decision_of}
use agent_orchestration_star.Pilot.Machine.{assert_transition_guard}
use agent_orchestration_star.Pilot.Log.{active_events}
use agent_orchestration_star.Pilot.Reduction.{Reduction, initial_reduction, enter_event}
use agent_orchestration_star.Pilot.Replay.{
  BlockReplay, Broken, invalid_replay, claim_workspaces, history_of, first_block, valid_replay,
  conclude, reduce_history, replay_history, replay_projected, replay_active, replay_block,
}
use agent_orchestration_star.Pilot.Progress.{IsProgress, enter_event-IsProgress}
use agent_orchestration_star.Pilot.Invariant.{handle_event-IsProgress}
use agent_orchestration_star.Pilot.Lifecycle.{lifecycle}
use agent_orchestration_star.Pilot.Histories.{enter_event-state, reduce_history-induction, Advance}
use agent_orchestration_star.Pilot.Provenance.{HasSource}
use agent_orchestration_star.Pilot.Sources.{handle_event-HasSource}

initial-IsProgress : IsProgress initial_reduction
unfolding initial_reduction
initial-IsProgress = record {
  attempts = omega arith;
  reviews = omega arith;
  apart = λ session used. refl;
  settled = λ it. absurd (cc it);
}

initial-HasSource : HasSource [] initial_reduction
unfolding initial_reduction
initial-HasSource = record {
  attempts = tt;
  review = λ review e. absurd (cc e);
  completion = λ c e. absurd (cc e);
}

module _ (codec : Codec) (manifest : Manifest) where
  abbrev Kept : List PilotEvent → Reduction → Type 0
  Kept past r = IsProgress r × HasSource past r

  enter_event-HasSource :
      (past : List PilotEvent) (r : Reduction) (payload : Payload)
      → HasSource past r
      → HasSource past (enter_event r payload)
  unfolding enter_event
  enter_event-HasSource past r payload h = record {
    attempts = h.attempts;
    review = h.review;
    completion = h.completion;
  }

  Advance-Kept :
      (past : List PilotEvent) (index : ℕ) (r : Reduction) (event : PilotEvent) (next : Reduction)
      → Kept past r
      → Advance codec manifest index r event next
      → Kept (past ++ event ∷ []) next
  Advance-Kept past index r event next (p, h) a =
      let entered = enter_event r event.payload in
      let same = enter_event-state codec manifest r event.payload in
      let guarded : assert_transition_guard codec manifest a.block a.route entered.state event
            event.payload
          ≡ ok tt =
        subst
          (λ (s : Option BlockState).
            assert_transition_guard codec manifest a.block a.route s event event.payload ≡ ok tt)
          (sym same) a.guarded in
      let leads : lifecycle a.route entered.state (event_type_of event.payload)
            (decision_of event.payload)
          ≡ some a.state =
        subst
          (λ (s : Option BlockState).
            lifecycle a.route s (event_type_of event.payload) (decision_of event.payload)
            ≡ some a.state)
          (sym same) a.leads in
      subst (Kept (past ++ event ∷ [])) (sym a.effect) (
        handle_event-IsProgress codec manifest a.block a.route entered event event.payload a.handled
            a.occurred_at a.state (enter_event-IsProgress r event.payload p) a.handling guarded
            leads,
        handle_event-HasSource manifest a.block a.route past event entered event.payload a.handled
            a.occurred_at a.state (enter_event-HasSource past r event.payload h) refl a.handling,
      )

  pub reduce_history-Kept :
      (events : List PilotEvent) (last : Reduction)
      → reduce_history codec manifest 0 initial_reduction events ≡ ok last
      → IsProgress last × HasSource events last
  reduce_history-Kept events last e =
      reduce_history-induction codec manifest Kept Advance-Kept [] 0 initial_reduction events last
        (initial-IsProgress, initial-HasSource) e

  -- A valid history in its parts.
  pub record Replayed (events : List PilotEvent) (result : BlockReplay) : Type 0 where
    pub projected : List PilotEvent
    pub active : active_events codec events ≡ ok projected
    pub block_id : String
    pub last : Reduction
    pub reduced :
        reduce_history codec manifest 0 initial_reduction (history_of block_id projected) ≡ ok last
    pub state : BlockState
    pub ends : last.state ≡ some state
    pub concluded : result ≡ valid_replay block_id state last

  conclude_valid :
      (block_id : String) (reduced : Result Broken Reduction)
      → (conclude block_id reduced).valid_history ≡ true
      → (last : Reduction) × (state : BlockState) × (reduced ≡ ok last)
        × (last.state ≡ some state)
        × (conclude block_id reduced ≡ valid_replay block_id state last)
  unfolding conclude valid_replay invalid_replay
  conclude_valid block_id (err broken) v = absurd (cc v)
  conclude_valid block_id (ok r) v = elim (Option-cases r.state) [
    | inl nothing ↦ absurd (ground (arith, nothing, v))
    | inr (state, it) ↦ (r, state, refl, it, rw it refl)
  ]

  history_valid :
      (block_id : String) (events : List PilotEvent)
      → (replay_history codec manifest block_id events).valid_history ≡ true
      → (last : Reduction) × (state : BlockState) × (reduce_history codec manifest 0
            initial_reduction events
          ≡ ok last)
        × (last.state ≡ some state)
        × (replay_history codec manifest block_id events ≡ valid_replay block_id state last)
  unfolding replay_history invalid_replay
  history_valid block_id [] v = absurd (cc v)
  history_valid block_id (event ∷ events) v =
      conclude_valid block_id (reduce_history codec manifest 0 initial_reduction (event ∷ events)) v

  projected_valid :
      (block_id : String) (projected : List PilotEvent)
      → (replay_projected codec manifest block_id projected).valid_history ≡ true
      → replay_projected codec manifest block_id projected
        ≡ replay_history codec manifest block_id (history_of block_id projected)
  unfolding replay_projected invalid_replay
  projected_valid block_id projected v = elim (Result-cases (claim_workspaces [] projected)) [
    | inl (u, it) ↦ rw (it, replay_projected) refl
    | inr (reason, it) ↦ absurd (ground (arith, it, v))
  ]

  active_valid :
      (first : Option String) (projected : List PilotEvent)
      → (replay_active codec manifest first projected).valid_history ≡ true
      → (block_id : String) × (replay_active codec manifest first projected
          ≡ replay_projected codec manifest block_id projected)
  unfolding replay_active invalid_replay
  active_valid none projected v = absurd (cc v)
  active_valid (some block_id) projected v = elim (Bool-cases (block_id == "")) [
    | inl it ↦ absurd (ground (arith, it, v))
    | inr named ↦ (block_id, rw named refl)
  ]

  block_valid :
      (events : List PilotEvent)
      → (replay_block codec manifest events).valid_history ≡ true
      → (projected : List PilotEvent) × (first : Option String) × (active_events codec events
          ≡ ok projected)
        × (replay_block codec manifest events ≡ replay_active codec manifest first projected)
  unfolding replay_block invalid_replay
  block_valid events v = elim (Result-cases (active_events codec events)) [
    | inl (projected, it) ↦ (
      projected,
      or_else (first_block events) (first_block projected),
      it,
      rw (it, replay_block) refl,
    )
    | inr (reason, it) ↦ absurd (ground (arith, it, v))
  ]

  pub replay_block_inversion :
      (events : List PilotEvent)
      → (replay_block codec manifest events).valid_history ≡ true
      → Replayed events (replay_block codec manifest events)
  replay_block_inversion events v =
      let is_valid = λ (x : BlockReplay). x.valid_history ≡ true in
      let (projected, first, active, e1) = block_valid events v in
      let (block_id, e2) = active_valid first projected (subst is_valid e1 v) in
      let e3 = projected_valid block_id projected (subst is_valid (e1 ∙ e2) v) in
      let (last, state, reduced, ends, e4) =
        history_valid block_id (history_of block_id projected) (subst is_valid (e1 ∙ e2 ∙ e3) v) in
      record {
        projected = projected;
        active = active;
        block_id = block_id;
        last = last;
        reduced = reduced;
        state = state;
        ends = ends;
        concluded = e1 ∙ e2 ∙ e3 ∙ e4;
      }
