-- ===== src/Contracts/Outcome.antt =====
-- Attempts, evidence, publication and results of a run (src/runtime/contracts.ts, failures.ts).
use agent_orchestration_star.Base.{ℕ, String, Bool, Option, List, nat_beq}
use agent_orchestration_star.Contracts.Task.{EffectiveRoute, DataScope, SourceSensitivity}

pub data FailureCode : Type 0 where
  invalid_contract repository_not_allowed repository_busy broker_state_corrupt : FailureCode
  base_sha_invalid worktree_creation_failed capability_unverified : FailureCode
  source_sensitivity_unsupported process_sandbox_unavailable : FailureCode
  review_sandbox_unavailable authentication_failed provider_unavailable : FailureCode
  executor_invalid_output executor_policy_violation economy_policy_violation : FailureCode
  out_of_scope_change validation_failed review_rejected review_attestation_invalid : FailureCode
  evidence_hash_mismatch delegation_provenance_invalid delegation_provenance_required : FailureCode
  finalization_isolation_failed finalization_failed publication_policy_denied : FailureCode
  publication_failed aborted unknown_failure : FailureCode

abbrev pub is_aborted_code : FailureCode → Bool
is_aborted_code aborted = Bool.true
is_aborted_code _ = Bool.false

pub record Failure : Type 0 where
  pub code : FailureCode
  pub message : String
  pub retryable : Bool
  pub evidence_hashes : List String

pub record Attempt : Type 0 where
  pub attempt : ℕ
  pub executor_binding_ref : String
  pub result_hash : String

-- `exit_code` is 0 in every recorded result: the loader refuses any other.
pub record ValidationResult : Type 0 where
  pub validation_id : String
  pub exit_code : ℕ
  pub result_hash : String

pub data PublicationState : Type 0 where
  not_started pushed pr_open checks_passed merged skipped : PublicationState

pub record Publication : Type 0 where
  pub state : PublicationState
  pub remote : Option String
  pub base_branch : Option String
  pub pull_request : Option ℕ
  pub pull_request_url : Option String
  pub merge_commit_sha : Option String

-- `result.state` is a string: the names that the runtime gives it, and any other.
pub data RunPhase : Type 0 where
  ready_for_executor execution_started awaiting_reinspection review_accepted : RunPhase
  ready_for_publication publication_pushed pull_request_open required_checks_passed : RunPhase
  finalized failed aborted : RunPhase
  other : String → RunPhase

abbrev phase_tag : RunPhase → ℕ
phase_tag ready_for_executor = 0
phase_tag execution_started = 1
phase_tag awaiting_reinspection = 2
phase_tag review_accepted = 3
phase_tag ready_for_publication = 4
phase_tag publication_pushed = 5
phase_tag pull_request_open = 6
phase_tag required_checks_passed = 7
phase_tag finalized = 8
phase_tag failed = 9
phase_tag aborted = 10
phase_tag (other _) = 11

-- `state === name`, where `name` is one of the runtime's.
abbrev pub phase_is : RunPhase → RunPhase → Bool
phase_is state name = nat_beq (phase_tag state) (phase_tag name)

abbrev pub is_terminal : RunPhase → Bool
is_terminal finalized = Bool.true
is_terminal failed = Bool.true
is_terminal aborted = Bool.true
is_terminal _ = Bool.false

-- How a run ended, or how far it got (`RuntimeResultV4`).
pub record RunResult : Type 0 where
  pub run_id : String
  pub request_id : String
  pub state : RunPhase
  pub effective_route : EffectiveRoute
  pub route_decision_hash : String
  pub effective_data_scope : DataScope
  pub effective_source_sensitivity : SourceSensitivity
  pub branch : String
  pub base_sha : String
  pub head_sha : Option String
  pub contract_hash : String
  pub policy_hash : String
  pub profile_hash : String
  pub attempts : List Attempt
  pub validation_results : List ValidationResult
  pub diff_hash : String
  pub tree_hash : String
  pub changed_files : List String
  pub review_attestation_hash : Option String
  pub commit_sha : Option String
  pub publication : Publication
  pub failure : Option Failure
  pub artifact_manifest_hash : String
