-- ===== src/RunState/Guards.antt =====
-- What each guard of `reduceBrokerStateV4` lets through (src/runtime/run-state.ts).
use Prim.Native.String
use text.Mathlib.TextEquality.{eq_iff}
use agent_orchestration_star.Base.{
  ℕ, ◌-◌, drop, drop_at, length-drop, eq_nil_of_length, sym, ap, opt_beq_iff, all_of_not-any, all,
  String, true, false, none, some, List, [], ◌∷◌, ◌≡◌, ◌⊎◌, arith, string_eq, option_eq, nat_eq,
  some_eq_iff, any, not, length, get_elem?, ◌≤◌, map, suc,
}
use agent_orchestration_star.Contracts.{
  ValidationResult, ready_for_executor, review_accepted, ready_for_publication, publication_pushed,
  pull_request_open, required_checks_passed as checked,
}
use agent_orchestration_star.RunState.Commands.{
  BrokerReviewVerdict, CandidateAccepted, CommitCreated, BranchPushed, PullRequestRecorded,
  RequiredChecksPassed, RunMerged, PublicationSkipped, BrokerRun,
}
use agent_orchestration_star.RunState.Execution.{candidate_refused, some_unauthorized, path_allowed}
use agent_orchestration_star.RunState.Publish.{
  verdict_refused, commit_refused, push_refused, pull_request_refused, checks_refused,
  merge_refused, skip_refused,
}

pub record VerdictFits (run : BrokerRun) (v : BrokerReviewVerdict) : Type 0 where
  pub phase : run.result.state ≡ review_accepted
  pub contract : run.result.contract_hash ≡ v.contract_hash
  pub diff : run.result.diff_hash ≡ v.diff_hash
  pub tree : run.result.tree_hash ≡ v.tree_hash
  pub is_first : run.review_verdict ≡ none

pub verdict_fits :
    (run : BrokerRun) (v : BrokerReviewVerdict) → verdict_refused run v ≡ false → VerdictFits run v
unfolding verdict_refused
verdict_fits run v h = ground (
  arith,
  eq_iff run.result.contract_hash v.contract_hash,
  eq_iff run.result.diff_hash v.diff_hash,
  eq_iff run.result.tree_hash v.tree_hash,
)

pub record CommitFits (run : BrokerRun) (c : CommitCreated) : Type 0 where
  pub phase : run.result.state ≡ review_accepted
  pub inspected : run.inspection_required ≡ false
  pub idle : run.external_process ≡ none
  pub task_ref : c.task_ref ≡ String.◌++◌ "refs/heads/" run.result.branch
  pub base : c.base_sha ≡ run.contract.base_sha
  pub contract : c.contract_hash ≡ run.contract.contract_hash
  pub diff : c.diff_hash ≡ run.result.diff_hash
  pub tree : c.evidence_tree_hash ≡ run.result.tree_hash
  pub attestation : run.result.review_attestation_hash ≡ some c.review_attestation_hash

pub commit_fits :
    (run : BrokerRun) (c : CommitCreated) → commit_refused run c ≡ false → CommitFits run c
unfolding commit_refused
commit_fits run c h = ground (
  arith,
  eq_iff c.task_ref (String.◌++◌ "refs/heads/" run.result.branch),
  eq_iff c.base_sha run.contract.base_sha,
  eq_iff c.contract_hash run.contract.contract_hash,
  eq_iff c.diff_hash run.result.diff_hash,
  eq_iff c.evidence_tree_hash run.result.tree_hash,
  some_eq_iff c.review_attestation_hash run.result.review_attestation_hash,
)

pub record PushFits (run : BrokerRun) (c : BranchPushed) : Type 0 where
  pub phase : run.result.state ≡ ready_for_publication
  pub commit : run.result.commit_sha ≡ some c.commit_sha
  pub branch : c.branch ≡ run.result.branch
  pub policy : c.publication_policy_hash ≡ run.contract.policy_hash

pub push_fits : (run : BrokerRun) (c : BranchPushed) → push_refused run c ≡ false → PushFits run c
unfolding push_refused
push_fits run c h = ground (
  arith,
  some_eq_iff c.commit_sha run.result.commit_sha,
  eq_iff c.branch run.result.branch,
  eq_iff c.publication_policy_hash run.contract.policy_hash,
)

pub record PullRequestFits (run : BrokerRun) (c : PullRequestRecorded) : Type 0 where
  pub phase : run.result.state ≡ publication_pushed
  pub commit : run.result.commit_sha ≡ some c.commit_sha
  pub policy : c.publication_policy_hash ≡ run.contract.policy_hash

pub pull_request_fits :
    (run : BrokerRun) (c : PullRequestRecorded)
    → pull_request_refused run c ≡ false
    → PullRequestFits run c
unfolding pull_request_refused
pull_request_fits run c h = ground (
  arith,
  some_eq_iff c.commit_sha run.result.commit_sha,
  eq_iff c.publication_policy_hash run.contract.policy_hash,
)

pub record ChecksFit (run : BrokerRun) (c : RequiredChecksPassed) : Type 0 where
  pub phase : run.result.state ≡ pull_request_open
  pub commit : run.result.commit_sha ≡ some c.commit_sha
  pub pull_request : run.result.publication.pull_request ≡ some c.pull_request
  pub policy : c.publication_policy_hash ≡ run.contract.policy_hash

pub checks_fit :
    (run : BrokerRun) (c : RequiredChecksPassed) → checks_refused run c ≡ false → ChecksFit run c
unfolding checks_refused
checks_fit run c h = ground (
  arith,
  some_eq_iff c.commit_sha run.result.commit_sha,
  some_eq_iff c.pull_request run.result.publication.pull_request,
  eq_iff c.publication_policy_hash run.contract.policy_hash,
)

pub record MergeFits (run : BrokerRun) (c : RunMerged) : Type 0 where
  pub phase : (run.result.state ≡ pull_request_open) ⊎ (run.result.state ≡ checked)
  pub commit : run.result.commit_sha ≡ some c.commit_sha
  pub pull_request : run.result.publication.pull_request ≡ some c.pull_request
  pub url : run.result.publication.pull_request_url ≡ some c.pull_request_url
  pub policy : c.publication_policy_hash ≡ run.contract.policy_hash

pub merge_fits : (run : BrokerRun) (c : RunMerged) → merge_refused run c ≡ false → MergeFits run c
unfolding merge_refused
merge_fits run c h = ground (
  arith,
  some_eq_iff c.commit_sha run.result.commit_sha,
  some_eq_iff c.pull_request run.result.publication.pull_request,
  some_eq_iff c.pull_request_url run.result.publication.pull_request_url,
  eq_iff c.publication_policy_hash run.contract.policy_hash,
)

pub record SkipFits (run : BrokerRun) (c : PublicationSkipped) : Type 0 where
  pub phase : run.result.state ≡ ready_for_publication
  pub commit : run.result.commit_sha ≡ some c.commit_sha
  pub policy : c.publication_policy_hash ≡ run.contract.policy_hash

pub skip_fits :
    (run : BrokerRun) (c : PublicationSkipped) → skip_refused run c ≡ false → SkipFits run c
unfolding skip_refused
skip_fits run c h = ground (
  arith,
  some_eq_iff c.commit_sha run.result.commit_sha,
  eq_iff c.publication_policy_hash run.contract.policy_hash,
)

-- The validation results answer the ids, in their order.
abbrev pub result_id : ValidationResult → String
result_id r = r.validation_id

ids_match :
    (ids : List String) (n : ℕ) (rs : List ValidationResult)
    → some_unauthorized ids n rs ≡ false
    → length rs ≡ length ids - n
    → map result_id rs ≡ drop n ids
ids_match ids n [] h e = sym (eq_nil_of_length (drop n ids) (omega (arith, length-drop {0} n ids)))
ids_match ids n (r ∷ rs) h e =
    let at : get_elem? ids n ≡ some r.validation_id =
      ground (arith, opt_beq_iff (get_elem? ids n) (some r.validation_id)) in
    rw (drop_at ids n r.validation_id at)
      (ap (λ t. r.validation_id ∷ t) (ids_match ids (suc n) rs (ground arith) (omega arith)))

module _ (fold_case : String → String) where
  pub record CandidateFits (run : BrokerRun) (c : CandidateAccepted) : Type 0 where
    pub phase : run.result.state ≡ ready_for_executor
    pub tried : 1 ≤ length run.result.attempts
    pub inspected : run.inspection_required ≡ false
    pub idle : run.external_process ≡ none
    pub validated : map result_id c.validation_results ≡ run.contract.allowed_validation_ids
    pub in_scope : all (path_allowed fold_case run.contract) c.changed_files ≡ true
    pub bounded : length c.changed_files ≤ run.contract.max_files_changed

  pub candidate_fits :
      (run : BrokerRun) (c : CandidateAccepted)
      → candidate_refused fold_case run c ≡ false
      → CandidateFits run c
  unfolding candidate_refused
  candidate_fits run c h =
      let tests : (length c.validation_results ≡ length run.contract.allowed_validation_ids)
          × (some_unauthorized run.contract.allowed_validation_ids 0 c.validation_results ≡ false)
          × (any (λ path. not (path_allowed fold_case run.contract path)) c.changed_files ≡ false) =
        ground arith in
      record {
        phase = ground arith;
        tried = ground arith;
        inspected = ground arith;
        idle = ground arith;
        validated =
            ids_match run.contract.allowed_validation_ids 0 c.validation_results tests.1
              (omega arith);
        in_scope = all_of_not-any (path_allowed fold_case run.contract) c.changed_files tests.2;
        bounded = ground arith;
      }
