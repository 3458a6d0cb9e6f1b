-- ===== src/Pilot/Handlers.antt =====
-- What each event of a block is checked against and records (src/pilot/state-machine.ts).
use agent_orchestration_star.Base.{
  leb, if◌then◌else◌, ◌==◌, ◌!=◌, nat_eq, string_eq, option_eq, is_some, any, elem, lookup, insert,
  get_or, add, Result, ok, ◌>>=◌, ◌>>◌, throw_if, require, String, Bool, true, false, not, ◌&&◌,
  ◌||◌, Option, none, some, [], ◌∷◌, ◌++◌,
}
use agent_orchestration_star.Pilot.Vocabulary.{
  Decision, accept, reject, contaminated, arm_eq, capability_eq, kind_eq, decision_eq, isolation_eq,
  finding_eq, role_eq,
}
use agent_orchestration_star.Pilot.States.{Route, adaptive_route, state_eq, type_eq, route_eq}
use agent_orchestration_star.Pilot.Events.{
  IsolationAttested, ExecutionStarted, ExecutionCompleted, ReviewStarted, ReviewCompleted,
  ValidationRecorded, OrchestratorOperation,
}
use agent_orchestration_star.Pilot.Manifest.{ManifestBlock, Manifest}
use agent_orchestration_star.Pilot.Errors.{
  PilotError, tree_reproduction_invalid, attempt_id_or_ceiling_invalid,
  input_revision_chain_invalid, executor_session_reused, escalation_target_binding_mismatch,
  completion_attempt_mismatch, completion_ownership_mismatch, missing_entry,
  orphan_or_misordered_validation, validation_surface_invalid, validation_test_counts_inconsistent,
  review_attempt_reference_invalid, review_session_or_id_invalid, review_completion_owner_invalid,
  review_completion_ownership_mismatch, orphan_review, review_boundary_chain_invalid,
  validation_evidence_mismatch, non_material_finding_flag_invalid,
  unresolved_finding_retention_invalid, orchestrator_operation_id_reused,
  orchestrator_operation_binding_invalid,
}
use agent_orchestration_star.Pilot.Machine.{find_binding}
use agent_orchestration_star.Pilot.Reduction.{
  Owned, AttemptEntry, ReviewEntry, Reduction, adjust, same_strings, retain_findings, evidence_of,
}

abbrev pub Handled : Type 0 → Type 0
Handled A = Result PilotError A

-- `previousReview?.payload.…`
abbrev pub boundary_revision : Option ReviewCompleted → Option String
boundary_revision none = none
boundary_revision (some review) = some review.review_boundary_to_revision

abbrev pub boundary_differs : Option ReviewCompleted → Option String → Bool
boundary_differs none previous = true
boundary_differs (some review) previous = previous != some review.review_boundary_hash

-- `!expectedInput || input !== expectedInput`: the empty text is falsy.
abbrev pub input_refused : Option String → String → Bool
input_refused none input = true
input_refused (some expected) input = expected == "" || input != expected

abbrev pub is_contaminated : IsolationAttested → Bool
is_contaminated isolation =
    isolation.isolation_status == contaminated
    || isolation.observed_tree_hash != isolation.clean_tree_hash

unfoldable pub attempt_refused : Reduction → ExecutionStarted → Bool
unfolding lookup
attempt_refused r execution =
    is_some (lookup execution.attempt_id r.attempts) || not (leb execution.attempt_number 3)

unfoldable pub input_chain_broken : ManifestBlock → Reduction → ExecutionStarted → Bool
input_chain_broken block r execution =
    input_refused
      (if execution.attempt_number == 1
        then some block.base_revision
        else boundary_revision r.previous_review)
      execution.input_revision

unfoldable pub session_used : Reduction → String → Bool
session_used r session = elem session r.executor_sessions || elem session r.reviewer_sessions

unfoldable pub target_differs : Route → Reduction → ExecutionStarted → Bool
target_differs route r execution =
    route == adaptive_route
    && execution.attempt_number == 3
    && some execution.executor_binding_ref != r.escalation_target_binding

unfoldable pub start_execution :
    ManifestBlock → Route → Reduction → ExecutionStarted → Handled Reduction
unfolding attempt_refused input_chain_broken session_used target_differs insert
start_execution block route r execution = do
  throw_if (attempt_refused r execution) attempt_id_or_ceiling_invalid
  throw_if (input_chain_broken block r execution) input_revision_chain_invalid
  throw_if (session_used r execution.executor_session_id) executor_session_reused
  throw_if (target_differs route r execution) escalation_target_binding_mismatch
  ok (record r {
    executor_sessions = add execution.executor_session_id r.executor_sessions;
    current_attempt = some execution;
    current_completion = none;
    attempts =
        insert execution.attempt_id
          (record { started = execution; completed = none; review_started = false }) r.attempts;
  })

-- The fields that a completion repeats.
abbrev pub execution_differs : ExecutionStarted → ExecutionStarted → Bool
execution_differs a b =
    a.attempt_number != b.attempt_number
    || a.attempt_kind != b.attempt_kind
    || a.executor_capability != b.executor_capability
    || a.executor_binding_ref != b.executor_binding_ref
    || a.executor_session_id != b.executor_session_id
    || a.input_revision != b.input_revision
    || a.started_monotonic_ms != b.started_monotonic_ms

abbrev pub complete_entry : Owned ExecutionCompleted → AttemptEntry → AttemptEntry
complete_entry completion attempt = record attempt { completed = some completion }

unfoldable pub tree_refused : Manifest → ExecutionCompleted → Bool
tree_refused manifest completion =
    completion.canonical_tree_algorithm_version != manifest.canonical_tree_algorithm_version
    || completion.volatile_paths_policy_hash != manifest.volatile_paths_policy_hash
    || not completion.tree_reproduced

unfoldable pub complete_execution :
    Manifest → Reduction → String → ExecutionCompleted → Handled Reduction
unfolding lookup tree_refused
complete_execution manifest r event_id completion = do
  current ← require r.current_attempt completion_attempt_mismatch
  throw_if (current.attempt_id != completion.attempt_id) completion_attempt_mismatch
  throw_if (execution_differs current completion.started) completion_ownership_mismatch
  throw_if (tree_refused manifest completion) tree_reproduction_invalid
  attempt ← require (lookup completion.attempt_id r.attempts) missing_entry
  let owned : Owned ExecutionCompleted = record { event_id = event_id; payload = completion }
  ok (record r {
    attempts = adjust completion.attempt_id (complete_entry owned) r.attempts;
    current_completion = some owned;
  })

-- An attempt that is completed, before its review starts.
abbrev pub is_open_attempt : AttemptEntry → Bool
is_open_attempt attempt = is_some attempt.completed && not attempt.review_started

-- `passed !== (tests_failing === 0)`.
abbrev pub counts_inconsistent : ValidationRecorded → Bool
counts_inconsistent validation =
    (validation.passed && validation.tests_failing != 0)
    || (not validation.passed && validation.tests_failing == 0)

unfoldable pub record_validation :
    ManifestBlock → Reduction → ValidationRecorded → Handled Reduction
unfolding lookup insert
record_validation block r validation = do
  attempt ← require (lookup validation.attempt_id r.attempts) orphan_or_misordered_validation
  throw_if (not (is_open_attempt attempt)) orphan_or_misordered_validation
  throw_if
      (any (λ surface. not (elem surface block.validation_surface)) validation.validation_surface)
      validation_surface_invalid
  throw_if (counts_inconsistent validation) validation_test_counts_inconsistent
  ok (record r {
    validations =
        insert validation.attempt_id
          (get_or (lookup validation.attempt_id r.validations) [] ++ validation ∷ []) r.validations;
  })

-- The same object: the log's ids differ.
abbrev pub is_same_completion : Option (Owned ExecutionCompleted) → Owned ExecutionCompleted → Bool
is_same_completion none completion = false
is_same_completion (some current) completion = current.event_id == completion.event_id

abbrev pub start_review_of : AttemptEntry → AttemptEntry
start_review_of attempt = record attempt { review_started = true }

unfoldable pub reviews_other : Reduction → ReviewStarted → Owned ExecutionCompleted → Bool
reviews_other r review completion =
    not (is_same_completion r.current_completion completion)
    || review.executor_session_id_reviewed != completion.payload.executor_session_id

unfoldable pub review_refused : Reduction → ReviewStarted → Bool
unfolding lookup session_used
review_refused r review =
    is_some (lookup review.review_id r.reviews) || session_used r review.reviewer_session_id

unfoldable pub start_review : Reduction → ReviewStarted → Handled Reduction
unfolding lookup insert reviews_other review_refused
start_review r review = do
  attempt ← require (lookup review.reviewed_attempt_id r.attempts) review_attempt_reference_invalid
  completion ← require attempt.completed review_attempt_reference_invalid
  throw_if (reviews_other r review completion) review_attempt_reference_invalid
  throw_if (review_refused r review) review_session_or_id_invalid
  ok (record r {
    attempts = adjust review.reviewed_attempt_id start_review_of r.attempts;
    reviewer_sessions = add review.reviewer_session_id r.reviewer_sessions;
    current_review = some review;
    reviews =
        insert review.review_id (record { started = review; completed = none; window_open = false })
          r.reviews;
  })

-- The fields that a completed review repeats.
abbrev pub review_differs : ReviewStarted → ReviewStarted → Bool
review_differs a b =
    a.review_round != b.review_round
    || a.reviewer_binding_ref != b.reviewer_binding_ref
    || a.reviewer_session_id != b.reviewer_session_id
    || a.reviewed_attempt_id != b.reviewed_attempt_id
    || a.executor_session_id_reviewed != b.executor_session_id_reviewed
    || a.started_monotonic_ms != b.started_monotonic_ms

abbrev pub completed_of : Option AttemptEntry → Option (Owned ExecutionCompleted)
completed_of none = none
completed_of (some attempt) = attempt.completed

unfoldable pub boundary_chain_broken :
    ManifestBlock → Option ReviewCompleted → ReviewCompleted → ExecutionCompleted → Bool
boundary_chain_broken block previous review completion =
    some review.review_boundary_from_revision
      != (if review.review_round == 1 then some block.base_revision else boundary_revision previous)
    || review.review_boundary_to_revision != completion.output_revision
    || (if review.review_round == 1
        then is_some review.previous_review_boundary_hash
        else boundary_differs previous review.previous_review_boundary_hash)

abbrev pub close_review : ReviewCompleted → ReviewEntry → ReviewEntry
close_review review entry = record entry { completed = some review; window_open = true }

-- What a decision leaves: a rejection its event, an acceptance its review and completion.
abbrev pub decide : Reduction → String → ReviewCompleted → ExecutionCompleted → Decision → Reduction
decide r event_id review completion reject = record r { rejected_review_event_id = some event_id }
decide r event_id review completion accept = record r {
  accepted_review = some review;
  accepted_completion = some completion;
}

unfoldable pub evidence_differs : Reduction → ReviewCompleted → Bool
unfolding lookup same_strings evidence_of
evidence_differs r review = not (
    same_strings review.validation_evidence_hashes
      (evidence_of (get_or (lookup review.reviewed_attempt_id r.validations) [])))

unfoldable pub complete_review :
    ManifestBlock → Reduction → String → ReviewCompleted → Handled Reduction
unfolding lookup boundary_chain_broken same_strings evidence_differs retain_findings
complete_review block r event_id review = do
  current ← require r.current_review review_completion_owner_invalid
  throw_if (current.review_id != review.review_id) review_completion_owner_invalid
  throw_if (review_differs current review.started) review_completion_ownership_mismatch
  completion ← require (completed_of (lookup review.reviewed_attempt_id r.attempts)) orphan_review
  throw_if (boundary_chain_broken block r.previous_review review completion.payload)
      review_boundary_chain_invalid
  throw_if
      (not (
        same_strings review.validation_evidence_hashes
          (evidence_of (get_or (lookup review.reviewed_attempt_id r.validations) []))))
      validation_evidence_mismatch
  next_unresolved ← retain_findings r.unresolved review.material_findings
  throw_if (any (λ finding. finding.material) review.non_material_findings)
      non_material_finding_flag_invalid
  throw_if (not (same_strings review.unresolved_finding_ids next_unresolved))
      unresolved_finding_retention_invalid
  entry ← require (lookup review.review_id r.reviews) missing_entry
  ok (
      decide
        (record r {
          unresolved = next_unresolved;
          reviews = adjust review.review_id (close_review review) r.reviews;
          previous_review = some review;
          current_review = none;
        })
        event_id review completion.payload review.decision)

unfoldable pub record_operation :
    Manifest → Reduction → String → OrchestratorOperation → Handled Reduction
unfolding lookup insert find_binding
record_operation manifest r event_id operation = do
  throw_if (is_some (lookup operation.orchestrator_operation_id r.orchestrator_operations))
      orchestrator_operation_id_reused
  throw_if (not (is_some (find_binding manifest operation.binding_ref)))
      orchestrator_operation_binding_invalid
  ok (record r {
    orchestrator_operations =
        insert operation.orchestrator_operation_id
          (record { event_id = event_id; payload = operation }) r.orchestrator_operations;
    open_orchestrator_operation = some event_id;
  })
