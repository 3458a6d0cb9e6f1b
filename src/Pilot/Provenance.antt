-- ===== src/Pilot/Provenance.antt =====
-- Where the accepted review and completion of a block come from (src/pilot/state-machine.ts).
use agent_orchestration_star.Base.{
  ◌==◌, nat_eq, string_eq, option_eq, Bool-cases, All, lookup, insert, ℕ, String, ◌≡◌, refl, sym,
  ◌∙◌, subst, ◌⊎◌, inl, inr, none, some, List, [], ◌∷◌, ◌++◌, Memᴰ, arith,
}
use agent_orchestration_star.Pilot.Vocabulary.{
  arm_eq, capability_eq, kind_eq, decision_eq, isolation_eq, finding_eq, role_eq,
}
use agent_orchestration_star.Pilot.States.{BlockState, state_eq, type_eq, route_eq}
use agent_orchestration_star.Pilot.Events.{
  Payload, execution_completed, review_completed, ExecutionCompleted, ReviewCompleted, PilotEvent,
}
use agent_orchestration_star.Pilot.Reduction.{Owned, AttemptEntry, Reduction, adjust}
use agent_orchestration_star.Pilot.Handlers.{completed_of}
use agent_orchestration_star.Pilot.Replay.{settle}
use agent_orchestration_star.Pilot.Effects.{Unmoved}

-- An event of the history has the payload.
pub record Occurs (past : List PilotEvent) (payload : Payload) : Type 0 where
  pub event : PilotEvent
  pub is_past : Memᴰ event past
  pub carries : event.payload ≡ payload

abbrev pub CompletedIn : List PilotEvent → String × AttemptEntry → Type 0
CompletedIn past (id, entry) =
    (completion : Owned ExecutionCompleted)
    → entry.completed ≡ some completion
    → Occurs past (execution_completed completion.payload)

pub record HasSource (past : List PilotEvent) (r : Reduction) : Type 0 where
  pub attempts : All (CompletedIn past) r.attempts
  pub review :
      (review : ReviewCompleted)
      → r.accepted_review ≡ some review
      → Occurs past (review_completed review)
  pub completion :
      (completion : ExecutionCompleted)
      → r.accepted_completion ≡ some completion
      → Occurs past (execution_completed completion)

pub mem_append :
    (event other : PilotEvent) (past : List PilotEvent)
    → Memᴰ event past
    → Memᴰ event (past ++ other ∷ [])
mem_append event other [] m = elim m [ ]
mem_append event other (x ∷ past) (Memᴰ.head e) = Memᴰ.head e
mem_append event other (x ∷ past) (Memᴰ.tail m) = Memᴰ.tail (mem_append event other past m)

pub mem_last : (event : PilotEvent) (past : List PilotEvent) → Memᴰ event (past ++ event ∷ [])
mem_last event [] = Memᴰ.head refl
mem_last event (x ∷ past) = Memᴰ.tail (mem_last event past)

pub later :
    (past : List PilotEvent) (event : PilotEvent) (payload : Payload)
    → Occurs past payload
    → Occurs (past ++ event ∷ []) payload
later past event payload o = record {
  event = o.event;
  is_past = mem_append o.event event past o.is_past;
  carries = o.carries;
}

pub now :
    (past : List PilotEvent) (event : PilotEvent) (payload : Payload)
    → event.payload ≡ payload
    → Occurs (past ++ event ∷ []) payload
now past event payload e = record { event = event; is_past = mem_last event past; carries = e }

pub All-later :
    (past : List PilotEvent) (event : PilotEvent) (attempts : List (String × AttemptEntry))
    → All (CompletedIn past) attempts
    → All (CompletedIn (past ++ event ∷ [])) attempts
All-later past event [] h = tt
All-later past event ((id, entry) ∷ rest) (h, hs) =
    (λ c e. later past event (execution_completed c.payload) (h c e), All-later past event rest hs)

-- An insertion of a fresh attempt, and a change that keeps or records a completion.
pub All-insert :
    (past : List PilotEvent) (id : String) (entry : AttemptEntry)
    (attempts : List (String × AttemptEntry))
    → entry.completed ≡ none
    → All (CompletedIn past) attempts
    → All (CompletedIn past) (insert id entry attempts)
unfolding insert
All-insert past id entry [] fresh h = (λ c e. absurd (cc (fresh, e)), tt)
All-insert past id entry ((other, old) ∷ rest) fresh (h, hs) = elim (Bool-cases (other == id)) [
  | inl it ↦ rw it ((λ c e. absurd (cc (fresh, e))), hs)
  | inr differ ↦ rw differ (h, All-insert past id entry rest fresh hs)
]

pub All-adjust :
    (past : List PilotEvent) (id : String) (change : AttemptEntry → AttemptEntry)
    (attempts : List (String × AttemptEntry))
    → ((entry : AttemptEntry) (c : Owned ExecutionCompleted)
        → (change entry).completed ≡ some c
        → (entry.completed ≡ some c) ⊎ Occurs past (execution_completed c.payload))
    → All (CompletedIn past) attempts
    → All (CompletedIn past) (adjust id change attempts)
All-adjust past id change [] k h = tt
All-adjust past id change ((other, old) ∷ rest) k (h, hs) =
    let tail = All-adjust past id change rest k hs in
    elim (Bool-cases (other == id)) [
      | inl it ↦
          rw it ((λ c e. elim (k old c e) [ inl before ↦ h c before | inr there ↦ there ]), tail)
      | inr differ ↦ rw differ (h, tail)
    ]

pub lookup_completed :
    (past : List PilotEvent) (id : String) (attempts : List (String × AttemptEntry))
    (c : Owned ExecutionCompleted)
    → All (CompletedIn past) attempts
    → completed_of (lookup id attempts) ≡ some c
    → Occurs past (execution_completed c.payload)
unfolding lookup
lookup_completed past id [] c h e = absurd (cc e)
lookup_completed past id ((other, entry) ∷ rest) c (h, hs) e = elim (Bool-cases (other == id)) [
  | inl it ↦ h c (ground (arith, e, it))
  | inr differ ↦ lookup_completed past id rest c hs (ground (arith, e, differ))
]

-- An event that changes neither the attempts nor the acceptance.
pub Unmoved-HasSource :
    (past : List PilotEvent) (event : PilotEvent) (r handled : Reduction) (at : ℕ)
    (next : BlockState)
    → HasSource past r
    → Unmoved r handled
    → HasSource (past ++ event ∷ []) (settle handled at next)
Unmoved-HasSource past event r handled at next h u = record {
  attempts =
      subst (All (CompletedIn (past ++ event ∷ []))) (sym u.attempts)
        (All-later past event r.attempts h.attempts);
  review = λ review e.
      later past event (review_completed review) (h.review review (sym u.accepted_review ∙ e));
  completion = λ c e.
      later past event (execution_completed c) (h.completion c (sym u.accepted_completion ∙ e));
}
