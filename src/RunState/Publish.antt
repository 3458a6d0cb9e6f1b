-- ===== src/RunState/Publish.antt =====
-- The branches of `reduceBrokerStateV4` that review, commit, publish and end a run
-- (src/runtime/run-state.ts).
use agent_orchestration_star.Base.{
  is_some, Bool, not, ◌||◌, none, some, ok, ◌>>◌, throw_if, ◌!=◌, nat_eq, string_eq, option_eq,
}
use Prim.Native.String
use agent_orchestration_star.Contracts.{
  Failure, review_accepted, ready_for_publication, publication_pushed, pull_request_open,
  required_checks_passed as checked, finalized, failed, aborted, phase_is, is_terminal,
  is_aborted_code, pushed, pr_open, checks_passed, merged, skipped,
}
use agent_orchestration_star.RunState.Commands.{
  BrokerReviewVerdict, CommitCreated, BranchPushed, PullRequestRecorded, RequiredChecksPassed,
  RunMerged, PublicationSkipped, BrokerRun, verdict_not_authorized, commit_mismatch, push_mismatch,
  pull_request_mismatch, checks_mismatch, merge_mismatch, skip_mismatch, abort_invalid,
  failure_invalid,
}
use agent_orchestration_star.RunState.Execution.{Broken}

unfoldable pub verdict_refused : BrokerRun → BrokerReviewVerdict → Bool
verdict_refused run v =
    not (phase_is run.result.state review_accepted)
    || run.result.contract_hash != v.contract_hash
    || run.result.diff_hash != v.diff_hash
    || run.result.tree_hash != v.tree_hash
    || is_some run.review_verdict

unfoldable pub record_verdict : BrokerRun → BrokerReviewVerdict → Broken BrokerRun
record_verdict run v = do
  throw_if (verdict_refused run v) verdict_not_authorized
  ok (record run { review_verdict = some v })

unfoldable pub commit_refused : BrokerRun → CommitCreated → Bool
commit_refused run c =
    not (phase_is run.result.state review_accepted)
    || run.inspection_required
    || is_some run.external_process
    || c.task_ref != String.◌++◌ "refs/heads/" run.result.branch
    || c.base_sha != run.contract.base_sha
    || c.contract_hash != run.contract.contract_hash
    || c.diff_hash != run.result.diff_hash
    || c.evidence_tree_hash != run.result.tree_hash
    || some c.review_attestation_hash != run.result.review_attestation_hash

unfoldable pub record_commit : BrokerRun → CommitCreated → Broken BrokerRun
record_commit run c = do
  throw_if (commit_refused run c) commit_mismatch
  ok (record run {
    result = record (run.result) {
      state = ready_for_publication;
      head_sha = some c.commit_sha;
      commit_sha = some c.commit_sha;
    };
    external_process = none;
  })

unfoldable pub push_refused : BrokerRun → BranchPushed → Bool
push_refused run c =
    not (phase_is run.result.state ready_for_publication)
    || some c.commit_sha != run.result.commit_sha
    || c.branch != run.result.branch
    || c.publication_policy_hash != run.contract.policy_hash

unfoldable pub push_branch : BrokerRun → BranchPushed → Broken BrokerRun
push_branch run c = do
  throw_if (push_refused run c) push_mismatch
  ok (record run {
    result = record (run.result) {
      state = publication_pushed;
      publication = record (run.result.publication) { state = pushed; remote = some c.remote };
    };
  })

unfoldable pub pull_request_refused : BrokerRun → PullRequestRecorded → Bool
pull_request_refused run c =
    not (phase_is run.result.state publication_pushed)
    || some c.commit_sha != run.result.commit_sha
    || c.publication_policy_hash != run.contract.policy_hash

unfoldable pub open_pull_request : BrokerRun → PullRequestRecorded → Broken BrokerRun
open_pull_request run c = do
  throw_if (pull_request_refused run c) pull_request_mismatch
  ok (record run {
    result = record (run.result) {
      state = pull_request_open;
      publication = record (run.result.publication) {
        state = pr_open;
        base_branch = some c.base_branch;
        pull_request = some c.pull_request;
        pull_request_url = some c.pull_request_url;
      };
    };
  })

unfoldable pub checks_refused : BrokerRun → RequiredChecksPassed → Bool
checks_refused run c =
    not (phase_is run.result.state pull_request_open)
    || some c.commit_sha != run.result.commit_sha
    || some c.pull_request != run.result.publication.pull_request
    || c.publication_policy_hash != run.contract.policy_hash

unfoldable pub pass_checks : BrokerRun → RequiredChecksPassed → Broken BrokerRun
pass_checks run c = do
  throw_if (checks_refused run c) checks_mismatch
  ok (record run {
    result = record (run.result) {
      state = checked;
      publication = record (run.result.publication) { state = checks_passed };
    };
  })

unfoldable pub merge_refused : BrokerRun → RunMerged → Bool
merge_refused run c =
    not (phase_is run.result.state pull_request_open || phase_is run.result.state checked)
    || some c.commit_sha != run.result.commit_sha
    || some c.pull_request != run.result.publication.pull_request
    || some c.pull_request_url != run.result.publication.pull_request_url
    || c.publication_policy_hash != run.contract.policy_hash

unfoldable pub merge_run : BrokerRun → RunMerged → Broken BrokerRun
merge_run run c = do
  throw_if (merge_refused run c) merge_mismatch
  ok (record run {
    result = record (run.result) {
      state = finalized;
      head_sha = some c.merge_commit_sha;
      publication = record (run.result.publication) {
        state = merged;
        merge_commit_sha = some c.merge_commit_sha;
      };
    };
  })

unfoldable pub skip_refused : BrokerRun → PublicationSkipped → Bool
skip_refused run c =
    not (phase_is run.result.state ready_for_publication)
    || some c.commit_sha != run.result.commit_sha
    || c.publication_policy_hash != run.contract.policy_hash

unfoldable pub skip_publication : BrokerRun → PublicationSkipped → Broken BrokerRun
skip_publication run c = do
  throw_if (skip_refused run c) skip_mismatch
  ok (record run {
    result = record (run.result) {
      state = finalized;
      publication = record (run.result.publication) { state = skipped };
    };
  })

unfoldable pub abort_run : BrokerRun → Failure → Broken BrokerRun
abort_run run failure = do
  throw_if (not (is_aborted_code failure.code) || is_terminal run.result.state) abort_invalid
  ok (record run {
    result = record (run.result) { state = aborted; failure = some failure };
    external_process = none;
  })

unfoldable pub fail_run : BrokerRun → Failure → Broken BrokerRun
fail_run run failure = do
  throw_if (is_terminal run.result.state) failure_invalid
  ok (record run {
    result = record (run.result) { state = failed; failure = some failure };
    external_process = none;
  })
