-- ===== src/RunState/Commands.antt =====
-- The commands of the broker's journal and the state of its runs (src/runtime/run-state.ts).
use agent_orchestration_star.Base.{ℕ, String, Bool, Option, List}
use agent_orchestration_star.Contracts.{
  TaskRequest, WorkContract, RunResult, Attempt, ValidationResult, Failure,
}
use agent_orchestration_star.Requests.{RequestIndex}

pub record ExternalProcessIdentity : Type 0 where
  pub pid : ℕ
  pub boot_nonce : String

pub data BrokerVerdict : Type 0 where
  approved rejected : BrokerVerdict

-- `schema_version` is the literal 4.
pub record BrokerReviewVerdict : Type 0 where
  pub review_packet_hash : String
  pub contract_hash : String
  pub diff_hash : String
  pub tree_hash : String
  pub capability_snapshot_hash : String
  pub verdict : BrokerVerdict
  pub reason : String
  pub verdict_hash : String

pub data SkipReason : Type 0 where
  policy_disabled contract_prohibited : SkipReason

pub record RunAccepted : Type 0 where
  pub request_hash : String
  pub contract : WorkContract
  pub result : RunResult
  pub inspection_epoch : ℕ

pub record CandidateAccepted : Type 0 where
  pub validation_results : List ValidationResult
  pub diff_hash : String
  pub tree_hash : String
  pub changed_files : List String
  pub review_attestation_hash : String

pub record CommitCreated : Type 0 where
  pub task_ref : String
  pub base_sha : String
  pub git_tree_sha : String
  pub evidence_tree_hash : String
  pub commit_sha : String
  pub contract_hash : String
  pub diff_hash : String
  pub validation_manifest_hash : String
  pub review_attestation_hash : String

pub record BranchPushed : Type 0 where
  pub commit_sha : String
  pub branch : String
  pub remote : String
  pub publication_policy_hash : String

pub record PullRequestRecorded : Type 0 where
  pub commit_sha : String
  pub pull_request : ℕ
  pub pull_request_url : String
  pub base_branch : String
  pub publication_policy_hash : String

pub record RequiredChecksPassed : Type 0 where
  pub commit_sha : String
  pub pull_request : ℕ
  pub publication_policy_hash : String

pub record RunMerged : Type 0 where
  pub commit_sha : String
  pub pull_request : ℕ
  pub pull_request_url : String
  pub merge_commit_sha : String
  pub publication_policy_hash : String

pub record PublicationSkipped : Type 0 where
  pub commit_sha : String
  pub publication_policy_hash : String
  pub reason : SkipReason

-- What a command says of a run that was accepted before. A recorded verdict has the fields of the
-- verdict that it leaves in the state.
pub data RunEvent : Type 0 where
  attempt_recorded : Attempt → RunEvent
  paths_reinspected : ℕ → RunEvent
  external_process_started : ExternalProcessIdentity → RunEvent
  candidate_accepted : CandidateAccepted → RunEvent
  review_verdict_recorded : BrokerReviewVerdict → RunEvent
  commit_created : CommitCreated → RunEvent
  branch_pushed : BranchPushed → RunEvent
  pull_request_recorded : PullRequestRecorded → RunEvent
  required_checks_passed : RequiredChecksPassed → RunEvent
  run_merged : RunMerged → RunEvent
  publication_skipped : PublicationSkipped → RunEvent
  run_failed : Failure → RunEvent
  run_aborted : Failure → RunEvent

-- `BrokerCommandV4`: the command id comes first, then the run id.
pub data BrokerCommand : Type 0 where
  run_coding_task : String → TaskRequest → BrokerCommand
  run_accepted : String → String → RunAccepted → BrokerCommand
  run_event : String → String → RunEvent → BrokerCommand

abbrev pub command_id : BrokerCommand → String
command_id (run_coding_task id _) = id
command_id (run_accepted id _ _) = id
command_id (run_event id _ _) = id

pub record BrokerRun : Type 0 where
  pub contract : WorkContract
  pub result : RunResult
  pub request_hash : String
  pub inspection_epoch : ℕ
  pub inspection_required : Bool
  pub external_process : Option ExternalProcessIdentity
  pub review_verdict : Option BrokerReviewVerdict

-- Run ids begin with `run_`, so no key is a name that every object inherits.
pub record BrokerState : Type 0 where
  pub runs : List (String × BrokerRun)
  pub requests : RequestIndex

-- `BROKER_STATE_CORRUPT`, by the call of `corrupt` that raises it.
pub data BrokerError : Type 0 where
  unaccepted_command accepted_twice inconsistent_identities : BrokerError
  request_accepted_twice request_reused unknown_run terminal_run : BrokerError
  attempt_not_active attempt_sequence reinspection_not_pending epoch_not_advanced : BrokerError
  launch_not_allowed candidate_not_authorized verdict_not_authorized : BrokerError
  commit_mismatch push_mismatch pull_request_mismatch checks_mismatch merge_mismatch : BrokerError
  skip_mismatch abort_invalid failure_invalid : BrokerError
