-- ===== src/Pilot/Acceptance.antt =====
-- What an accepted block rests on (src/pilot/state-machine.ts).
use mathlib.Core.List.Memᴰ.{cases_cons}
use agent_orchestration_star.Base.{
  leb, if◌then◌else◌, ◌==◌, nat_eq, string_eq, option_eq, filter, elem, ok, >>=-inversion,
  ok-injective, String, ◌≡◌, sym, subst, ◌⊎◌, inl, inr, Bool, true, false, not, some, List, [], ◌∷◌,
  Memᴰ, arith,
}
use agent_orchestration_star.Pilot.Vocabulary.{
  accept, arm_eq, capability_eq, kind_eq, decision_eq, isolation_eq, finding_eq, role_eq,
}
use agent_orchestration_star.Pilot.States.{BlockState, accepted, state_eq, type_eq, route_eq}
use agent_orchestration_star.Pilot.Events.{
  Payload, execution_completed, review_completed, ExecutionCompleted, ReviewCompleted, PilotEvent,
}
use agent_orchestration_star.Pilot.Manifest.{Manifest}
use agent_orchestration_star.Pilot.Codec.{Codec}
use agent_orchestration_star.Pilot.Log.{
  retire_superseded, assert_valid_log, owned_log, retire_invalidated, active_events,
}
use agent_orchestration_star.Pilot.Reduction.{Reduction}
use agent_orchestration_star.Pilot.Replay.{
  BlockReplay, insert_event, sort_events, history_of, valid_replay, replay_block,
}
use agent_orchestration_star.Pilot.Progress.{IsProgress}
use agent_orchestration_star.Pilot.Provenance.{Occurs, HasSource}
use agent_orchestration_star.Pilot.Outcome.{reduce_history-Kept, replay_block_inversion}

-- Projection and order keep to the log's own events.
mem_if :
    (test : Bool) (x event : PilotEvent) (rest : List PilotEvent)
    → Memᴰ event (if test then x ∷ rest else rest)
    → (event ≡ x) ⊎ Memᴰ event rest
mem_if true x event rest m = cases_cons m
mem_if false x event rest m = inr m

mem_filter :
    (p : PilotEvent → Bool) (events : List PilotEvent) (event : PilotEvent)
    → Memᴰ event (filter p events)
    → Memᴰ event events
mem_filter p [] event m = elim m [ ]
mem_filter p (x ∷ events) event m = elim (mem_if (p x) x event (filter p events) m) [
  | inl e ↦ Memᴰ.head e
  | inr t ↦ Memᴰ.tail (mem_filter p events event t)
]

mem_either :
    (test : Bool) (x y event : PilotEvent) (rest other : List PilotEvent)
    → (Memᴰ event other → (event ≡ x) ⊎ Memᴰ event rest)
    → Memᴰ event (if test then x ∷ y ∷ rest else y ∷ other)
    → (event ≡ x) ⊎ Memᴰ event (y ∷ rest)
mem_either true x y event rest other k m = cases_cons m
mem_either false x y event rest other k m = elim (cases_cons m) [
  | inl e ↦ inr (Memᴰ.head e)
  | inr t ↦ elim (k t) [ inl e ↦ inl e | inr u ↦ inr (Memᴰ.tail u) ]
]

mem_insert_event :
    (x : PilotEvent) (events : List PilotEvent) (event : PilotEvent)
    → Memᴰ event (insert_event x events)
    → (event ≡ x) ⊎ Memᴰ event events
unfolding insert_event
mem_insert_event x [] event m = cases_cons m
mem_insert_event x (y ∷ events) event m =
    mem_either (leb x.sequence_number y.sequence_number) x y event events (insert_event x events)
      (mem_insert_event x events event) m

mem_sort_events :
    (events : List PilotEvent) (event : PilotEvent)
    → Memᴰ event (sort_events events)
    → Memᴰ event events
unfolding sort_events
mem_sort_events [] event m = m
mem_sort_events (x ∷ events) event m = elim (mem_insert_event x (sort_events events) event m) [
  | inl e ↦ Memᴰ.head e
  | inr t ↦ Memᴰ.tail (mem_sort_events events event t)
]

pub mem_history_of :
    (block_id : String) (events : List PilotEvent) (event : PilotEvent)
    → Memᴰ event (history_of block_id events)
    → Memᴰ event events
unfolding history_of
mem_history_of block_id events event m =
    let of_block = λ (x : PilotEvent). x.block_id == block_id in
    mem_filter of_block events event (mem_sort_events (filter of_block events) event m)

-- The events that the projection keeps are the log's.
module _ (codec : Codec) where
  owned_log_same : (log stable : List PilotEvent) → owned_log codec log ≡ ok stable → stable ≡ log
  unfolding owned_log
  owned_log_same log stable e = ground (arith, e)

  pub mem_active_events :
      (log active : List PilotEvent) (event : PilotEvent)
      → active_events codec log ≡ ok active
      → Memᴰ event active
      → Memᴰ event log
  unfolding active_events
  mem_active_events log active event e m =
      let (stable, owned, e1) = >>=-inversion (owned_log codec log) _ e in
      let (_, _, e2) = >>=-inversion (assert_valid_log codec stable) _ e1 in
      let (invalidated, _, e3) = >>=-inversion (retire_invalidated codec [] stable) _ e2 in
      let inactive = retire_superseded invalidated stable in
      subst (Memᴰ event) (owned_log_same log stable owned) (
        mem_filter (λ x. not (elem x.event_id inactive)) stable event
          (subst (Memᴰ event) (sym (ok-injective e3)) m))

-- An acceptance: an accepting review in the log, of a completion in the log, whose revision and
-- tree it reports, with no finding left open.
pub record Accepted (events : List PilotEvent) (result : BlockReplay) : Type 0 where
  pub review : ReviewCompleted
  pub completion : ExecutionCompleted
  pub review_recorded : Occurs events (review_completed review)
  pub completion_recorded : Occurs events (execution_completed completion)
  pub accepting : review.decision ≡ accept
  pub reviewed_revision : result.accepted_revision ≡ some review.review_boundary_to_revision
  pub completed_revision : result.accepted_revision ≡ some completion.output_revision
  pub completed_tree : result.accepted_tree_hash ≡ some completion.output_tree_hash
  pub review_reported : result.accepted_review_id ≡ some review.review_id
  pub none_open : result.unresolved_finding_ids ≡ []

module _ (codec : Codec) (manifest : Manifest) where
  valid_state :
      (block_id : String) (state : BlockState) (last : Reduction)
      → (valid_replay block_id state last).state ≡ accepted
      → state ≡ accepted
  unfolding valid_replay
  valid_state block_id state last e = e

  accepted_of_last :
      (events history : List PilotEvent) (block_id : String) (last : Reduction) (state : BlockState)
      → IsProgress last
      → ((payload : Payload) → Occurs history payload → Occurs events payload)
      → HasSource history last
      → last.state ≡ some state
      → state ≡ accepted
      → Accepted events (valid_replay block_id state last)
  unfolding valid_replay
  accepted_of_last events history block_id last state p up h ends it =
      let s = p.settled (ground (arith, ends, it)) in
      record {
        review = s.review;
        completion = s.completion;
        review_recorded = up (review_completed s.review) (h.review s.review s.reviewed);
        completion_recorded =
            up (execution_completed s.completion) (h.completion s.completion s.completed);
        accepting = s.accepting;
        reviewed_revision = ground (arith, it, s.completed, s.same_revision);
        completed_revision = ground (arith, it, s.completed);
        completed_tree = ground (arith, it, s.completed);
        review_reported = ground (arith, it, s.reviewed);
        none_open = s.none_open;
      }

  -- When a log replays to a valid history that ends accepted, the log has an accepting review and a
  -- completed execution of the same revision; the replay reports that revision, the execution's
  -- tree and the review's id, and leaves no finding open.
  pub replay_block-Accepted :
      (events : List PilotEvent)
      → (replay_block codec manifest events).valid_history ≡ true
      → (replay_block codec manifest events).state ≡ accepted
      → Accepted events (replay_block codec manifest events)
  replay_block-Accepted events v it =
      let p = replay_block_inversion codec manifest events v in
      let history = history_of p.block_id p.projected in
      let (progress, source) = reduce_history-Kept codec manifest history p.last p.reduced in
      let up : (payload : Payload) → Occurs history payload → Occurs events payload = λ payload o.
        record {
          event = o.event;
          is_past =
              mem_active_events codec events p.projected o.event p.active
                (mem_history_of p.block_id p.projected o.event o.is_past);
          carries = o.carries;
        } in
      subst (Accepted events) (sym p.concluded) (
        accepted_of_last events history p.block_id p.last p.state progress up source p.ends (
          valid_state p.block_id p.state p.last
            (subst (λ (x : BlockReplay). x.state ≡ accepted) p.concluded it)))
