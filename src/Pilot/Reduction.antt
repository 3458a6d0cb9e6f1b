-- ===== src/Pilot/Reduction.antt =====
-- What the replay of a block carries from event to event, and its smaller steps
-- (src/pilot/state-machine.ts).
use agent_orchestration_star.Base.{
  add, remove, if◌then◌else◌, ◌==◌, nat_eq, string_eq, option_eq, text_leb, length, elem, Result,
  ok, ◌>>=◌, ◌>>◌, throw_if, ℕ, String, Bool, true, false, not, ◌&&◌, Option, none, List, [], ◌∷◌,
  ◌++◌,
}
use agent_orchestration_star.Pilot.Vocabulary.{
  open_finding, resolved, arm_eq, capability_eq, kind_eq, decision_eq, isolation_eq, finding_eq,
  role_eq,
}
use agent_orchestration_star.Pilot.States.{BlockState, state_eq, type_eq, route_eq}
use agent_orchestration_star.Pilot.Events.{
  Payload, execution_started, usage_recorded, block_accepted, block_failed, block_blocked,
  escalation_decided, ExecutionStarted, ExecutionCompleted, ReviewStarted, Finding, ReviewCompleted,
  ValidationRecorded, OrchestratorOperation,
}
use agent_orchestration_star.Pilot.Errors.{
  PilotError, material_finding_flag_invalid, orphan_finding_resolution,
}

-- An event's payload with the event's id: the log's ids differ, so that two such are the same
-- object exactly when they have the same id.
pub record Owned (A : Type 0) : Type 0 where
  pub event_id : String
  pub payload : A

pub record AttemptEntry : Type 0 where
  pub started : ExecutionStarted
  pub completed : Option (Owned ExecutionCompleted)
  pub review_started : Bool

pub record ReviewEntry : Type 0 where
  pub started : ReviewStarted
  pub completed : Option ReviewCompleted
  pub window_open : Bool

pub record Reduction : Type 0 where
  pub state : Option BlockState
  pub previous_occurred_at : Option ℕ
  pub current_attempt : Option ExecutionStarted
  pub current_completion : Option (Owned ExecutionCompleted)
  pub current_review : Option ReviewStarted
  pub previous_review : Option ReviewCompleted
  pub accepted_review : Option ReviewCompleted
  pub accepted_completion : Option ExecutionCompleted
  pub rejected_review_event_id : Option String
  pub escalation_target_binding : Option String
  pub attempts : List (String × AttemptEntry)
  pub reviews : List (String × ReviewEntry)
  pub validations : List (String × List ValidationRecorded)
  pub orchestrator_operations : List (String × Owned OrchestratorOperation)
  pub open_orchestrator_operation : Option String
  pub executor_sessions : List String
  pub reviewer_sessions : List String
  pub unresolved : List String

unfoldable pub initial_reduction : Reduction
initial_reduction = record {
  state = none;
  previous_occurred_at = none;
  current_attempt = none;
  current_completion = none;
  current_review = none;
  previous_review = none;
  accepted_review = none;
  accepted_completion = none;
  rejected_review_event_id = none;
  escalation_target_binding = none;
  attempts = [];
  reviews = [];
  validations = [];
  orchestrator_operations = [];
  open_orchestrator_operation = none;
  executor_sessions = [];
  reviewer_sessions = [];
  unresolved = [];
}

-- A change of the entry at a key that is there.
abbrev pub adjust {ℓ} : {V : Type ℓ} → String → (V → V) → List (String × V) → List (String × V)
adjust key change [] = []
adjust key change ((other, value) ∷ rest) =
    (other, if other == key then change value else value) ∷ adjust key change rest

abbrev pub close_window : ReviewEntry → ReviewEntry
close_window review = record review { window_open = false }

abbrev pub close_windows : List (String × ReviewEntry) → List (String × ReviewEntry)
close_windows [] = []
close_windows ((id, review) ∷ reviews) = (id, close_window review) ∷ close_windows reviews

abbrev pub ends_window : Payload → Bool
ends_window (execution_started _) = true
ends_window (escalation_decided _) = true
ends_window (block_accepted _) = true
ends_window (block_failed _ _) = true
ends_window (block_blocked _ _ _) = true
ends_window _ = false

abbrev pub is_usage : Payload → Bool
is_usage (usage_recorded _) = true
is_usage _ = false

-- What every event does first: an orchestrator's operation stays open for its usage alone, and
-- the usage of a review ends when the block moves on.
unfoldable pub enter_event : Reduction → Payload → Reduction
enter_event r payload = record r {
  open_orchestrator_operation = if is_usage payload then r.open_orchestrator_operation else none;
  reviews = if ends_window payload then close_windows r.reviews else r.reviews;
}

-- `[...values].sort()`.
unfoldable pub insert_text : String → List String → List String
insert_text text [] = text ∷ []
insert_text text (other ∷ rest) =
    if text_leb text other then text ∷ other ∷ rest else other ∷ insert_text text rest

unfoldable pub sort_texts : List String → List String
unfolding insert_text
sort_texts [] = []
sort_texts (text ∷ rest) = insert_text text (sort_texts rest)

abbrev equal_texts : List String → List String → Bool
equal_texts [] [] = true
equal_texts (a ∷ left) (b ∷ right) = a == b && equal_texts left right
equal_texts [] (_ ∷ _) = false
equal_texts (_ ∷ _) [] = false

unfoldable pub same_strings : List String → List String → Bool
unfolding sort_texts
same_strings left right =
    length left == length right && equal_texts (sort_texts left) (sort_texts right)

-- The loop over the material findings of a review.
unfoldable pub retain_finding : List String → Finding → Result PilotError (List String)
retain_finding unresolved finding = do
  throw_if (not finding.material) material_finding_flag_invalid
  throw_if (finding.status == resolved && not (elem finding.finding_id unresolved))
      orphan_finding_resolution
  ok (
      if finding.status == open_finding
      then add finding.finding_id unresolved
      else remove finding.finding_id unresolved)

unfoldable pub retain_findings : List String → List Finding → Result PilotError (List String)
unfolding retain_finding
retain_findings unresolved [] = ok unresolved
retain_findings unresolved (finding ∷ findings) = do
  next ← retain_finding unresolved finding
  retain_findings next findings

-- `flatMap((validation) => validation.payload.evidence_hashes)`.
unfoldable pub evidence_of : List ValidationRecorded → List String
evidence_of [] = []
evidence_of (validation ∷ validations) = validation.evidence_hashes ++ evidence_of validations
