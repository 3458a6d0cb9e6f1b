-- ===== src/RunState/Evidence.antt =====
-- The evidence that a run carries (src/runtime/run-state.ts): what its candidate, its verdict, its
-- commit and its publication are bound to in every phase.
use agent_orchestration_star.Base.{
  is_some, String, Bool, true, false, Option, none, some, ◌≡◌, ◌⊎◌, ◌≤◌, ok, all, length, map,
  arith, string_eq,
}
use agent_orchestration_star.Contracts.{
  RunPhase, review_accepted, ready_for_publication, publication_pushed, pull_request_open,
  required_checks_passed as checked, finalized, failed, aborted, other, Publication, not_started,
  pushed, pr_open, checks_passed, merged, skipped, RunResult,
}
use agent_orchestration_star.RunState.Commands.{
  RunEvent, candidate_accepted, review_verdict_recorded, commit_created, branch_pushed,
  pull_request_recorded, required_checks_passed, run_merged, publication_skipped, BrokerRun,
  BrokerReviewVerdict,
}
use agent_orchestration_star.RunState.Execution.{path_allowed}
use agent_orchestration_star.RunState.Reduce.{branch}
use agent_orchestration_star.RunState.Guards.{
  candidate_fits, verdict_fits, commit_fits, push_fits, pull_request_fits, checks_fit, merge_fits,
  skip_fits, result_id,
}

-- The phases from the accepted candidate on, and those from the commit on.
abbrev pub is_reviewed : RunPhase → Bool
is_reviewed review_accepted = true
is_reviewed ready_for_publication = true
is_reviewed publication_pushed = true
is_reviewed pull_request_open = true
is_reviewed checked = true
is_reviewed finalized = true
is_reviewed _ = false

abbrev pub is_committed : RunPhase → Bool
is_committed ready_for_publication = true
is_committed publication_pushed = true
is_committed pull_request_open = true
is_committed checked = true
is_committed finalized = true
is_committed _ = false

-- A recorded verdict speaks of the result's contract, diff and tree.
abbrev pub VerdictBound : Option BrokerReviewVerdict → RunResult → Type 0
VerdictBound none result = Unit
VerdictBound (some v) result =
    (v.contract_hash ≡ result.contract_hash)
    × (v.diff_hash ≡ result.diff_hash)
    × (v.tree_hash ≡ result.tree_hash)

-- How far a result is published, by its phase.
abbrev pub Published : RunPhase → Publication → Option String → Type 0
Published publication_pushed p head = (p.state ≡ pushed) × (is_some p.remote ≡ true)
Published pull_request_open p head =
    (p.state ≡ pr_open)
    × (is_some p.remote ≡ true)
    × (is_some p.pull_request ≡ true)
    × (is_some p.pull_request_url ≡ true)
Published checked p head =
    (p.state ≡ checks_passed)
    × (is_some p.remote ≡ true)
    × (is_some p.pull_request ≡ true)
    × (is_some p.pull_request_url ≡ true)
Published finalized p head =
    ((p.state ≡ merged)
      × (is_some p.pull_request ≡ true)
      × (is_some p.merge_commit_sha ≡ true)
      × (p.merge_commit_sha ≡ head))
    ⊎ (p.state ≡ skipped)
Published failed p head = Unit
Published aborted p head = Unit
Published (other _) p head = Unit
Published _ p head = p.state ≡ not_started

pub record HasEvidence (fold_case : String → String) (run : BrokerRun) : Type 0 where
  pub tried : is_reviewed run.result.state ≡ true → 1 ≤ length run.result.attempts
  pub validated :
      is_reviewed run.result.state ≡ true
      → map result_id run.result.validation_results ≡ run.contract.allowed_validation_ids
  pub in_scope :
      is_reviewed run.result.state ≡ true
      → all (path_allowed fold_case run.contract) run.result.changed_files ≡ true
  pub bounded :
      is_reviewed run.result.state ≡ true
      → length run.result.changed_files ≤ run.contract.max_files_changed
  pub verdict : VerdictBound run.review_verdict run.result
  pub committed : is_committed run.result.state ≡ true → is_some run.result.commit_sha ≡ true
  pub published : Published run.result.state run.result.publication run.result.head_sha

pub branch-HasEvidence :
    (fold_case : String → String) (run : BrokerRun) (event : RunEvent) (next : BrokerRun)
    → HasEvidence fold_case run
    → branch fold_case run event ≡ ok next
    → HasEvidence fold_case next
unfolding branch
branch-HasEvidence f run (candidate_accepted c) next h e = ground (arith, candidate_fits f run c)
branch-HasEvidence f run (review_verdict_recorded v) next h e = ground (arith, verdict_fits run v)
branch-HasEvidence f run (commit_created c) next h e = ground (arith, commit_fits run c)
branch-HasEvidence f run (branch_pushed c) next h e = ground (arith, push_fits run c)
branch-HasEvidence f run (pull_request_recorded c) next h e =
    ground (arith, pull_request_fits run c)
branch-HasEvidence f run (required_checks_passed c) next h e = ground (arith, checks_fit run c)
branch-HasEvidence f run (run_merged c) next h e = ground (arith, merge_fits run c)
branch-HasEvidence f run (publication_skipped c) next h e = ground (arith, skip_fits run c)
branch-HasEvidence f run _ next h e = ground arith
