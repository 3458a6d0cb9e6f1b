-- ===== src/Pilot/Sources.antt =====
-- Every event of a history keeps the sources of what was accepted (src/pilot/state-machine.ts).
use agent_orchestration_star.Base.{
  nat_eq, string_eq, option_eq, All, ok, ℕ, ◌≡◌, refl, sym, subst, ◌⊎◌, inl, inr, false, none, some,
  List, [], ◌∷◌, ◌++◌, arith,
}
use agent_orchestration_star.Pilot.Vocabulary.{
  arm_eq, capability_eq, kind_eq, decision_eq, isolation_eq, finding_eq, role_eq,
}
use agent_orchestration_star.Pilot.States.{BlockState, Route, state_eq, type_eq, route_eq}
use agent_orchestration_star.Pilot.Events.{
  Payload, block_planned, arm_assigned, isolation_attested, execution_started, execution_completed,
  review_started, review_completed, validation_recorded, orchestrator_operation_recorded,
  usage_recorded, parent_rework_recorded, block_accepted, block_failed, block_blocked,
  escalation_decided, post_accept_defect_recorded, event_invalidated, ExecutionStarted,
  ExecutionCompleted, ReviewStarted, ReviewCompleted, PilotEvent,
}
use agent_orchestration_star.Pilot.Manifest.{ManifestBlock, Manifest}
use agent_orchestration_star.Pilot.Reduction.{Owned, AttemptEntry, Reduction}
use agent_orchestration_star.Pilot.Handlers.{complete_entry, start_review_of}
use agent_orchestration_star.Pilot.Usage.{handle_event}
use agent_orchestration_star.Pilot.Replay.{settle}
use agent_orchestration_star.Pilot.Advances.{
  StartedExecution, CompletedExecution, StartedReview, CompletedReview, start_execution_inversion,
  complete_execution_inversion, start_review_inversion, complete_review_inversion,
}
use agent_orchestration_star.Pilot.Effects.{
  Unmoved, record_validation-Unmoved, record_operation-Unmoved, record_usage-Unmoved,
  record_rework-Unmoved, decide_escalation-Unmoved, record_defect-Unmoved, accept_block_inversion,
}
use agent_orchestration_star.Pilot.Provenance.{
  Occurs, HasSource, CompletedIn, later, now, All-later, All-insert, All-adjust, lookup_completed,
  Unmoved-HasSource,
}

module _ (past : List PilotEvent) (event : PilotEvent) (r handled : Reduction) (at : ℕ)
    (next : BlockState) (h : HasSource past r) where
  abbrev Kept : Type 0
  Kept = HasSource (past ++ event ∷ []) (settle handled at next)

  pub execution_started-HasSource :
      (block : ManifestBlock) (route : Route) (execution : ExecutionStarted)
      → StartedExecution block route r execution handled
      → Kept
  execution_started-HasSource block route execution f =
      let entry : AttemptEntry = record {
        started = execution;
        completed = none;
        review_started = false;
      } in
      record {
        attempts =
            subst (λ (x : Reduction). All (CompletedIn (past ++ event ∷ [])) x.attempts)
              (sym f.effect)
              (All-insert (past ++ event ∷ []) execution.attempt_id entry r.attempts refl
                (All-later past event r.attempts h.attempts));
        review = λ review e.
            later past event (review_completed review)
              (h.review review (ground (arith, e, f.effect)));
        completion = λ c e.
            later past event (execution_completed c) (h.completion c (ground (arith, e, f.effect)));
      }

  pub execution_completed-HasSource :
      (manifest : Manifest) (completion : ExecutionCompleted)
      → event.payload ≡ execution_completed completion
      → CompletedExecution manifest r event.event_id completion handled
      → Kept
  execution_completed-HasSource manifest completion carries f =
      let owned : Owned ExecutionCompleted = record {
        event_id = event.event_id;
        payload = completion;
      } in
      record {
        attempts =
            subst (λ (x : Reduction). All (CompletedIn (past ++ event ∷ [])) x.attempts)
              (sym f.effect)
              (All-adjust (past ++ event ∷ []) completion.attempt_id (complete_entry owned)
                r.attempts
                (λ entry c e.
                  inr (now past event (execution_completed c.payload) (ground (arith, e, carries))))
                (All-later past event r.attempts h.attempts));
        review = λ review e.
            later past event (review_completed review)
              (h.review review (ground (arith, e, f.effect)));
        completion = λ c e.
            later past event (execution_completed c) (h.completion c (ground (arith, e, f.effect)));
      }

  pub review_started-HasSource : (review : ReviewStarted) → StartedReview r review handled → Kept
  review_started-HasSource started f = record {
    attempts =
        subst (λ (x : Reduction). All (CompletedIn (past ++ event ∷ [])) x.attempts) (sym f.effect)
          (All-adjust (past ++ event ∷ []) started.reviewed_attempt_id start_review_of r.attempts
            (λ entry c e. inl e) (All-later past event r.attempts h.attempts));
    review = λ review e.
        later past event (review_completed review) (h.review review (ground (arith, e, f.effect)));
    completion = λ c e.
        later past event (execution_completed c) (h.completion c (ground (arith, e, f.effect)));
  }

  decided_review :
      (block : ManifestBlock) (review decided : ReviewCompleted)
      → CompletedReview block r event.event_id review handled
      → handled.accepted_review ≡ some decided
      → (r.accepted_review ≡ some decided) ⊎ (review ≡ decided)
  decided_review block review decided f e = ground (arith, f.effect, e)

  decided_completion :
      (block : ManifestBlock) (review : ReviewCompleted) (c : ExecutionCompleted)
      (f : CompletedReview block r event.event_id review handled)
      → handled.accepted_completion ≡ some c
      → (r.accepted_completion ≡ some c) ⊎ ((f.completion).payload ≡ c)
  decided_completion block review c f e = ground (arith, f.effect, e)

  decided_attempts :
      (block : ManifestBlock) (review : ReviewCompleted)
      → CompletedReview block r event.event_id review handled
      → handled.attempts ≡ r.attempts
  decided_attempts block review f = ground (arith, f.effect)

  pub review_completed-HasSource :
      (block : ManifestBlock) (review : ReviewCompleted)
      → event.payload ≡ review_completed review
      → CompletedReview block r event.event_id review handled
      → Kept
  review_completed-HasSource block review carries f = record {
    attempts =
        subst (All (CompletedIn (past ++ event ∷ []))) (sym (decided_attempts block review f))
          (All-later past event r.attempts h.attempts);
    review = λ decided e. elim (decided_review block review decided f e) [
      | inl before ↦ later past event (review_completed decided) (h.review decided before)
      | inr it ↦ now past event (review_completed decided) (ground (arith, carries, it))
    ];
    completion = λ c e. elim (decided_completion block review c f e) [
      | inl before ↦ later past event (execution_completed c) (h.completion c before)
      | inr it ↦
          subst (λ (x : ExecutionCompleted). Occurs (past ++ event ∷ []) (execution_completed x)) it
            (later past event (execution_completed (f.completion).payload) (
              lookup_completed past review.reviewed_attempt_id r.attempts f.completion h.attempts
                f.completed))
    ];
  }

nothing_moved : (r handled : Reduction) → handled ≡ r → Unmoved r handled
nothing_moved r handled e = ground (arith, e)

-- Every handler keeps them.
pub handle_event-HasSource :
    (manifest : Manifest) (block : ManifestBlock) (route : Route) (past : List PilotEvent)
    (event : PilotEvent) (r : Reduction) (payload : Payload) (handled : Reduction) (at : ℕ)
    (next : BlockState)
    → HasSource past r
    → event.payload ≡ payload
    → handle_event manifest block route r event.event_id payload ≡ ok handled
    → HasSource (past ++ event ∷ []) (settle handled at next)
unfolding handle_event
handle_event-HasSource m b route past event r (execution_started x) handled at next h c e =
    execution_started-HasSource past event r handled at next h b route x
      (start_execution_inversion b route r x handled e)
handle_event-HasSource m b route past event r (execution_completed x) handled at next h c e =
    execution_completed-HasSource past event r handled at next h m x c
      (complete_execution_inversion m r event.event_id x handled e)
handle_event-HasSource m b route past event r (review_started x) handled at next h c e =
    review_started-HasSource past event r handled at next h x (start_review_inversion r x handled e)
handle_event-HasSource m b route past event r (review_completed x) handled at next h c e =
    review_completed-HasSource past event r handled at next h b x c
      (complete_review_inversion b r event.event_id x handled e)
handle_event-HasSource m b route past event r (validation_recorded x) handled at next h c e =
    Unmoved-HasSource past event r handled at next h (record_validation-Unmoved m b r handled x e)
handle_event-HasSource m b route past event r (orchestrator_operation_recorded x) handled at next h
      c e =
    Unmoved-HasSource past event r handled at next h
      (record_operation-Unmoved m b r handled event.event_id x e)
handle_event-HasSource m b route past event r (usage_recorded x) handled at next h c e =
    Unmoved-HasSource past event r handled at next h (record_usage-Unmoved m b r handled x e)
handle_event-HasSource m b route past event r (parent_rework_recorded x) handled at next h c e =
    Unmoved-HasSource past event r handled at next h (record_rework-Unmoved m b r handled x e)
handle_event-HasSource m b route past event r (escalation_decided x) handled at next h c e =
    Unmoved-HasSource past event r handled at next h (decide_escalation-Unmoved m b r handled x e)
handle_event-HasSource m b route past event r (post_accept_defect_recorded x) handled at next h c
      e =
    Unmoved-HasSource past event r handled at next h (record_defect-Unmoved m b r handled x e)
handle_event-HasSource m b route past event r (isolation_attested x) handled at next h c e =
    Unmoved-HasSource past event r handled at next h (ground (arith, e))
handle_event-HasSource m b route past event r (block_accepted x) handled at next h c e =
    Unmoved-HasSource past event r handled at next h
      (nothing_moved r handled (accept_block_inversion r x handled e).effect)
handle_event-HasSource m b route past event r (block_planned _) handled at next h c e =
    Unmoved-HasSource past event r handled at next h (ground (arith, e))
handle_event-HasSource m b route past event r (arm_assigned _ _) handled at next h c e =
    Unmoved-HasSource past event r handled at next h (ground (arith, e))
handle_event-HasSource m b route past event r (block_failed _ _) handled at next h c e =
    Unmoved-HasSource past event r handled at next h (ground (arith, e))
handle_event-HasSource m b route past event r (block_blocked _ _ _) handled at next h c e =
    Unmoved-HasSource past event r handled at next h (ground (arith, e))
handle_event-HasSource m b route past event r (event_invalidated _) handled at next h c e =
    Unmoved-HasSource past event r handled at next h (ground (arith, e))
