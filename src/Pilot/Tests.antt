-- ===== src/Pilot/Tests.antt =====
-- A block planned, executed, reviewed and accepted, and the theorems at it.
use agent_orchestration_star.Base.{
  nat_eq, string_eq, option_eq, all, All, ok, ℕ, ◌≤◌, String, ◌≡◌, refl, true, none, some, List, [],
  ◌∷◌,
}
use agent_orchestration_star.Pilot.Vocabulary.{
  adaptive_early_escalation, cheap, strong, implementation, accept, reject, clean, high, arm_eq,
  capability_eq, kind_eq, decision_eq, isolation_eq, finding_eq, role_eq,
}
use agent_orchestration_star.Pilot.States.{
  BlockState, reviewing_2, ready_3, accepted, review_completed_type, post_accept_defect_type,
  cheap_route, state_eq, is_terminal, type_eq, route_eq,
}
use agent_orchestration_star.Pilot.Events.{
  Payload, block_planned, arm_assigned, isolation_attested, execution_started, execution_completed,
  review_started, review_completed, block_accepted, post_accept_defect_recorded, IsolationAttested,
  ExecutionStarted, ExecutionCompleted, ReviewStarted, ReviewCompleted, BlockAccepted, PilotEvent,
}
use agent_orchestration_star.Pilot.Manifest.{ManifestBlock, Manifest}
use agent_orchestration_star.Pilot.Codec.{Codec}
use agent_orchestration_star.Pilot.Rows.{event_type_of, find_row}
use agent_orchestration_star.Pilot.Machine.{
  transition_checked, transition_in_context, assert_transition_guard, block_context,
}
use agent_orchestration_star.Pilot.Log.{assert_valid_log, append_event, active_events}
use agent_orchestration_star.Pilot.Lifecycle.{row_target, find_row-lifecycle}
use agent_orchestration_star.Pilot.Transitions.{transition_checked-terminal}
use agent_orchestration_star.Pilot.Replay.{history_of, replay_block}
use agent_orchestration_star.Pilot.Acceptance.{Accepted, replay_block-Accepted}
use agent_orchestration_star.Pilot.Counts.{
  is_start, is_review_start, count, IsRouted, replay_block_bounded,
}
use agent_orchestration_star.Pilot.Appends.{append_event-valid, append_event_again}

abbrev codec : Codec
codec = record {
  is_safe = λ event. true;
  canonicalize = λ event. event.event_id;
  hash_event = λ event. event.event_id;
  hash_boundary = λ boundary. boundary.review_id;
  parse_utc = λ text. some 0;
}

abbrev block : ManifestBlock
block = record {
  block_id = "block_1";
  task_id = "task_1";
  matching_stratum = "stratum";
  pair_or_triplet_id = "pair";
  case_fingerprint = "case";
  contract_hash = "contract";
  base_revision = "base";
  clean_tree_hash = "clean";
  validation_surface = "unit" ∷ [];
  comparative_eligible = true;
  selected_executor_capability_initial = cheap;
  selected_executor_capability_final_expected = strong;
}

abbrev manifest : Manifest
manifest = record {
  pilot_id = "pilot";
  manifest_hash = "manifest";
  blocks = block ∷ [];
  assignment_algorithm_version = "v1";
  arm_assignments = record { block_id = "block_1"; pilot_arm = adaptive_early_escalation } ∷ [];
  binding_registry =
      record { binding_ref = "cheap"; capability_class = cheap; profile_hash = "p" }
      ∷ record { binding_ref = "strong"; capability_class = strong; profile_hash = "q" }
      ∷ [];
  routing_reviewer_binding_ref = "strong";
  routing_policy_version = "r1";
  isolation_policy_version = "i1";
  canonical_tree_algorithm_version = "t1";
  volatile_paths_policy_hash = "volatile";
  pricing_snapshot = record { pricing_snapshot_id = "prices"; currency = "EUR" };
}

abbrev event : String → ℕ → Payload → PilotEvent
event event_id sequence_number payload = record {
  event_id = event_id;
  pilot_id = "pilot";
  manifest_hash = "manifest";
  task_id = "task_1";
  block_id = "block_1";
  matching_stratum = "stratum";
  pair_or_triplet_id = "pair";
  case_fingerprint = "case";
  pilot_arm = some adaptive_early_escalation;
  sequence_number = sequence_number;
  occurred_at = "2026-01-01T00:00:00Z";
  recorded_at = "2026-01-01T00:00:00Z";
  producer_id = "producer";
  supersession = none;
  payload = payload;
}

abbrev execution : ExecutionStarted
execution = record {
  attempt_id = "attempt_1";
  attempt_number = 1;
  attempt_kind = implementation;
  executor_capability = cheap;
  executor_binding_ref = "cheap";
  executor_session_id = "session_1";
  input_revision = "base";
  started_monotonic_ms = 10;
}

abbrev completion : ExecutionCompleted
completion = record {
  started = execution;
  output_revision = "revision_1";
  output_tree_hash = "tree_1";
  output_diff_hash = "diff_1";
  canonical_tree_algorithm_version = "t1";
  volatile_paths_policy_hash = "volatile";
  tree_reproduced = true;
  tree_reproduction_evidence_hash = "evidence";
  changed_lines_production = 3;
  changed_lines_tests = 4;
  changed_lines_docs = 0;
  finished_monotonic_ms = 25;
  duration_ms = 15;
}

abbrev review : ReviewStarted
review = record {
  review_id = "review_1";
  review_round = 1;
  reviewer_binding_ref = "strong";
  reviewer_session_id = "session_2";
  reviewed_attempt_id = "attempt_1";
  executor_session_id_reviewed = "session_1";
  started_monotonic_ms = 30;
}

abbrev verdict : ReviewCompleted
verdict = record {
  started = review;
  review_input_diff_hash = "diff_1";
  previous_review_boundary_hash = none;
  review_boundary_hash = "review_1";
  review_boundary_from_revision = "base";
  review_boundary_to_revision = "revision_1";
  unresolved_finding_ids = [];
  validation_evidence_hashes = [];
  bounded_context_hashes = [];
  additional_context_requests = [];
  material_findings = [];
  non_material_findings = [];
  decision = accept;
  finished_monotonic_ms = 40;
  duration_ms = 10;
}

abbrev isolation : IsolationAttested
isolation = record {
  workspace_instance_id = "workspace";
  base_revision = "base";
  clean_tree_hash = "clean";
  isolation_status = clean;
  observed_tree_hash = "clean";
  isolation_policy_version = "i1";
  attestor_id = "attestor";
  evidence_hash = "evidence";
}

abbrev acceptance : BlockAccepted
acceptance = record {
  accepted_revision = "revision_1";
  accepted_tree_hash = "tree_1";
  accepted_at = "2026-01-01T00:00:00Z";
}

abbrev log : List PilotEvent
log =
    event "e1" 1 (block_planned "contract")
    ∷ event "e2" 2 (arm_assigned adaptive_early_escalation "v1")
    ∷ event "e3" 3 (isolation_attested isolation)
    ∷ event "e4" 4 (execution_started execution)
    ∷ event "e5" 5 (execution_completed completion)
    ∷ event "e6" 6 (review_started review)
    ∷ event "e7" 7 (review_completed verdict)
    ∷ event "e8" 8 (block_accepted acceptance)
    ∷ []

abbrev last_event : PilotEvent
last_event = event "e8" 8 (block_accepted acceptance)

abbrev before_last : List PilotEvent
before_last =
    event "e1" 1 (block_planned "contract")
    ∷ event "e2" 2 (arm_assigned adaptive_early_escalation "v1")
    ∷ event "e3" 3 (isolation_attested isolation)
    ∷ event "e4" 4 (execution_started execution)
    ∷ event "e5" 5 (execution_completed completion)
    ∷ event "e6" 6 (review_started review)
    ∷ event "e7" 7 (review_completed verdict)
    ∷ []

log_active : active_events codec log ≡ ok log
unfolding active_events
log_active = refl

log_valid : (replay_block codec manifest log).valid_history ≡ true
unfolding replay_block transition_in_context find_row assert_transition_guard block_context
log_valid = refl

log_accepted : (replay_block codec manifest log).state ≡ accepted
unfolding replay_block transition_in_context find_row assert_transition_guard block_context
log_accepted = refl

log_block : (replay_block codec manifest log).block_id ≡ some "block_1"
unfolding replay_block transition_in_context find_row assert_transition_guard block_context
log_block = refl

log_appended : append_event codec before_last last_event ≡ ok log
unfolding append_event
log_appended = refl

replay_block-Accepted_example : Accepted log (replay_block codec manifest log)
replay_block-Accepted_example = replay_block-Accepted codec manifest log log_valid log_accepted

replay_block_bounded_example :
    (count is_start (history_of "block_1" log) ≤ 3)
    × (count is_review_start (history_of "block_1" log) ≤ 3)
    × All (λ (e : PilotEvent). IsRouted manifest e e.payload) (history_of "block_1" log)
replay_block_bounded_example =
    replay_block_bounded codec manifest log log "block_1" log_active log_valid log_block

append_event-valid_example : (assert_valid_log codec log ≡ ok tt) × (all codec.is_safe log ≡ true)
append_event-valid_example = append_event-valid codec before_last last_event log log_appended

append_event_again_example : append_event codec log last_event ≡ ok log
append_event_again_example = append_event_again codec before_last last_event log log_appended

find_row-lifecycle_example :
    row_target
      (some reviewing_2)
      (find_row (some reviewing_2) review_completed_type (some reject) cheap_route)
    ≡ some ready_3
find_row-lifecycle_example =
    find_row-lifecycle cheap_route (some reviewing_2) review_completed_type (some reject)

abbrev defect : PilotEvent
defect = event "e9" 9 (
    post_accept_defect_recorded (record {
      defect_id = "defect_1";
      severity = high;
      material = true;
      discovered_at = "2026-01-02T00:00:00Z";
      evidence_id = "evidence";
      affected_revision = "revision_1";
      accepted_review_id = "review_1";
      category_code = "regression";
    }))

defect_recorded : transition_checked codec manifest (some accepted) defect ≡ ok accepted
unfolding transition_checked transition_in_context find_row assert_transition_guard block_context
defect_recorded = refl

accepted_ends : is_terminal accepted ≡ true
unfolding is_terminal
accepted_ends = refl

transition_checked-terminal_example :
    (event_type_of defect.payload ≡ post_accept_defect_type)
    × ◌≡◌ {A = BlockState} accepted accepted
    × ◌≡◌ {A = BlockState} accepted accepted
transition_checked-terminal_example =
    transition_checked-terminal codec manifest accepted defect accepted accepted_ends
      defect_recorded
