-- ===== src/Pilot/Events.antt =====
-- The events of a block and their payloads (src/pilot/contracts.ts).
use agent_orchestration_star.Base.{ℕ, String, Bool, Option, List}
use agent_orchestration_star.Pilot.Vocabulary.{
  PilotArm, Capability, AttemptKind, Decision, IsolationStatus, FindingStatus, UsageRole, ActorRole,
  BlockedCause, Severity,
}

pub record IsolationAttested : Type 0 where
  pub workspace_instance_id : String
  pub base_revision : String
  pub clean_tree_hash : String
  pub isolation_status : IsolationStatus
  pub observed_tree_hash : String
  pub isolation_policy_version : String
  pub attestor_id : String
  pub evidence_hash : String

pub record ExecutionStarted : Type 0 where
  pub attempt_id : String
  pub attempt_number : ℕ
  pub attempt_kind : AttemptKind
  pub executor_capability : Capability
  pub executor_binding_ref : String
  pub executor_session_id : String
  pub input_revision : String
  pub started_monotonic_ms : ℕ

-- The fields that a completion repeats from its start stand in `started`; the outcome is the
-- literal `COMPLETED`.
pub record ExecutionCompleted : Type 0 where
  pub started : ExecutionStarted
  pub open started use *
  pub output_revision : String
  pub output_tree_hash : String
  pub output_diff_hash : String
  pub canonical_tree_algorithm_version : String
  pub volatile_paths_policy_hash : String
  pub tree_reproduced : Bool
  pub tree_reproduction_evidence_hash : String
  pub changed_lines_production : ℕ
  pub changed_lines_tests : ℕ
  pub changed_lines_docs : ℕ
  pub finished_monotonic_ms : ℕ
  pub duration_ms : ℕ

pub record ReviewStarted : Type 0 where
  pub review_id : String
  pub review_round : ℕ
  pub reviewer_binding_ref : String
  pub reviewer_session_id : String
  pub reviewed_attempt_id : String
  pub executor_session_id_reviewed : String
  pub started_monotonic_ms : ℕ

pub record Finding : Type 0 where
  pub finding_id : String
  pub severity : Severity
  pub material : Bool
  pub category_code : String
  pub status : FindingStatus
  pub evidence_hashes : List String

-- As above, the fields that a completed review repeats from its start stand in `started`.
pub record ReviewCompleted : Type 0 where
  pub started : ReviewStarted
  pub open started use *
  pub review_input_diff_hash : String
  pub previous_review_boundary_hash : Option String
  pub review_boundary_hash : String
  pub review_boundary_from_revision : String
  pub review_boundary_to_revision : String
  pub unresolved_finding_ids : List String
  pub validation_evidence_hashes : List String
  pub bounded_context_hashes : List String
  pub additional_context_requests : List String
  pub material_findings : List Finding
  pub non_material_findings : List Finding
  pub decision : Decision
  pub finished_monotonic_ms : ℕ
  pub duration_ms : ℕ

pub record ValidationRecorded : Type 0 where
  pub validation_id : String
  pub attempt_id : String
  pub validation_surface : List String
  pub passed : Bool
  pub tests_failing : ℕ
  pub tests_passing : ℕ
  pub evidence_hashes : List String

pub record OrchestratorOperation : Type 0 where
  pub orchestrator_operation_id : String
  pub attempt_number : ℕ
  pub binding_ref : String
  pub evidence_hash : String

-- The counts of tokens and costs stand as the payload has them; the replay of a block reads the
-- owner, the role, the binding and the pricing.
pub record UsageRecorded : Type 0 where
  pub usage_id : String
  pub attempt_number : ℕ
  pub role : UsageRole
  pub binding_ref : String
  pub provider_usage_id : Option String
  pub input_tokens_observed : Option ℕ
  pub output_tokens_observed : Option ℕ
  pub cached_input_tokens_observed : Option ℕ
  pub reasoning_tokens_observed : Option ℕ
  pub input_tokens_estimated : Option ℕ
  pub output_tokens_estimated : Option ℕ
  pub cached_input_tokens_estimated : Option ℕ
  pub reasoning_tokens_estimated : Option ℕ
  pub token_estimator_id : Option String
  pub token_estimator_version : Option String
  pub pricing_snapshot_id : String
  pub cost_observed : Option ℕ
  pub cost_estimated : Option ℕ
  pub currency : String
  pub cost_provenance : String
  pub attempt_id : Option String
  pub review_id : Option String
  pub orchestrator_operation_id : Option String

pub record ParentRework : Type 0 where
  pub review_id : String
  pub attempt_id : String
  pub files_production : List String
  pub files_tests : List String
  pub files_docs : List String
  pub lines_production : ℕ
  pub lines_tests : ℕ
  pub lines_docs : ℕ
  pub diff_hash : String
  pub actor_role : ActorRole
  pub reason_code : String

pub record BlockAccepted : Type 0 where
  pub accepted_revision : String
  pub accepted_tree_hash : String
  pub accepted_at : String

pub record EscalationDecided : Type 0 where
  pub rejected_review_event_id : String
  pub escalation_reason : String
  pub target_binding_ref : String
  pub target_capability : Capability
  pub decision_policy_version : String

pub record PostAcceptDefect : Type 0 where
  pub defect_id : String
  pub severity : Severity
  pub material : Bool
  pub discovered_at : String
  pub evidence_id : String
  pub affected_revision : String
  pub accepted_review_id : String
  pub category_code : String

pub record Invalidation : Type 0 where
  pub invalidated_event_id : String
  pub expected_event_content_hash : String
  pub reason_code : String

pub data Payload : Type 0 where
  block_planned : (planned_block_hash : String) → Payload
  arm_assigned : (assigned_arm : PilotArm) (assignment_algorithm_version : String) → Payload
  isolation_attested : IsolationAttested → Payload
  execution_started : ExecutionStarted → Payload
  execution_completed : ExecutionCompleted → Payload
  review_started : ReviewStarted → Payload
  review_completed : ReviewCompleted → Payload
  validation_recorded : ValidationRecorded → Payload
  orchestrator_operation_recorded : OrchestratorOperation → Payload
  usage_recorded : UsageRecorded → Payload
  parent_rework_recorded : ParentRework → Payload
  block_accepted : BlockAccepted → Payload
  block_failed : (reason_code evidence_hash : String) → Payload
  block_blocked : BlockedCause → (reason_code evidence_hash : String) → Payload
  escalation_decided : EscalationDecided → Payload
  post_accept_defect_recorded : PostAcceptDefect → Payload
  event_invalidated : Invalidation → Payload

pub record Supersession : Type 0 where
  pub supersedes_event_id : String
  pub expected_superseded_event_content_hash : String

-- `schema_version` is the literal 3.
pub record PilotEvent : Type 0 where
  pub event_id : String
  pub pilot_id : String
  pub manifest_hash : String
  pub task_id : String
  pub block_id : String
  pub matching_stratum : String
  pub pair_or_triplet_id : String
  pub case_fingerprint : String
  pub pilot_arm : Option PilotArm
  pub sequence_number : ℕ
  pub occurred_at : String
  pub recorded_at : String
  pub producer_id : String
  pub supersession : Option Supersession
  pub payload : Payload
