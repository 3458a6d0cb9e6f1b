-- ===== src/Samples.antt =====
-- A request, its contract and a journal that takes its run to a merge: inputs of the tests.
use agent_orchestration_star.Base.{String, List, [], ◌∷◌, none, false}
use agent_orchestration_star.Contracts.{
  TaskRequest, WorkContract, RunResult, modify, RequestedRoute, EffectiveRoute, source_code_only,
  public, ready_for_executor, not_started, Failure, FailureCode,
}
use agent_orchestration_star.RunState.Commands.{
  BrokerCommand, run_accepted, run_event, RunAccepted, attempt_recorded, paths_reinspected,
  external_process_started, candidate_accepted, review_verdict_recorded, commit_created,
  branch_pushed, pull_request_recorded, run_merged, approved,
}

abbrev pub request : TaskRequest
request = record {
  task_id = "task";
  request_id = "req_1";
  repository_id = "repo";
  objective = "fix";
  task_class = "mechanical";
  requested_risk_class = "low";
  requested_route = RequestedRoute.auto;
  execution_requirements = none;
  allowed_changes = record { path = "src/a.ts"; operations = modify ∷ [] } ∷ [];
  acceptance_tests = "tests/a.test.ts" ∷ [];
  implementation_targets = record { path = "src/a.ts"; operations = modify ∷ [] } ∷ [];
  allowed_validation_ids = "unit" ∷ "lint" ∷ [];
  inputs = [];
  constraints = [];
  success_criteria = "passes" ∷ [];
  max_files_changed = 2;
  max_changed_lines = 100;
  max_attempts = 2;
  prohibited_actions = [];
}

abbrev pub contract : WorkContract
contract = record {
  request = request;
  run_id = "run_1";
  repository_root_hash = "root";
  base_sha = "base";
  effective_risk_class = "low";
  effective_route = EffectiveRoute.economy;
  route_decision_reasons = "eligible" ∷ [];
  route_decision_hash = "decision";
  execution_policy = none;
  effective_data_scope = source_code_only;
  effective_source_sensitivity = public;
  sandbox_profile_hashes = [];
  policy_hash = "policy";
  profile_hash = "profile";
  contract_hash = "contract";
}

abbrev pub result : RunResult
result = record {
  run_id = "run_1";
  request_id = "req_1";
  state = ready_for_executor;
  effective_route = EffectiveRoute.economy;
  route_decision_hash = "decision";
  effective_data_scope = source_code_only;
  effective_source_sensitivity = public;
  branch = "codex/auto/run_1";
  base_sha = "base";
  head_sha = none;
  contract_hash = "contract";
  policy_hash = "policy";
  profile_hash = "profile";
  attempts = [];
  validation_results = [];
  diff_hash = "no diff";
  tree_hash = "no tree";
  changed_files = [];
  review_attestation_hash = none;
  commit_sha = none;
  publication = record {
    state = not_started;
    remote = none;
    base_branch = none;
    pull_request = none;
    pull_request_url = none;
    merge_commit_sha = none;
  };
  failure = none;
  artifact_manifest_hash = "artifacts";
}

abbrev pub acceptance : RunAccepted
acceptance = record {
  request_hash = "request";
  contract = contract;
  result = result;
  inspection_epoch = 1;
}

abbrev pub accepting : BrokerCommand
accepting = run_accepted "c1" "run_1" acceptance

-- From the acceptance to the merge of the pull request.
abbrev pub journal : List BrokerCommand
journal =
    accepting
    ∷ run_event "c2" "run_1" (external_process_started (record { pid = 7; boot_nonce = "n" }))
    ∷ run_event "c3" "run_1"
        (attempt_recorded (record { attempt = 1; executor_binding_ref = "e"; result_hash = "h" }))
    ∷ run_event "c4" "run_1" (paths_reinspected 2)
    ∷ run_event "c5" "run_1" (
        candidate_accepted (record {
          validation_results =
              record { validation_id = "unit"; exit_code = 0; result_hash = "u" }
              ∷ record { validation_id = "lint"; exit_code = 0; result_hash = "l" }
              ∷ [];
          diff_hash = "diff";
          tree_hash = "tree";
          changed_files = "src/a.ts" ∷ [];
          review_attestation_hash = "attestation";
        }))
    ∷ run_event "c6" "run_1" (
        review_verdict_recorded (record {
          review_packet_hash = "packet";
          contract_hash = "contract";
          diff_hash = "diff";
          tree_hash = "tree";
          capability_snapshot_hash = "capabilities";
          verdict = approved;
          reason = "fine";
          verdict_hash = "verdict";
        }))
    ∷ run_event "c7" "run_1" (
        commit_created (record {
          task_ref = "refs/heads/codex/auto/run_1";
          base_sha = "base";
          git_tree_sha = "git tree";
          evidence_tree_hash = "tree";
          commit_sha = "commit";
          contract_hash = "contract";
          diff_hash = "diff";
          validation_manifest_hash = "manifest";
          review_attestation_hash = "attestation";
        }))
    ∷ run_event "c8" "run_1" (
        branch_pushed (record {
          commit_sha = "commit";
          branch = "codex/auto/run_1";
          remote = "origin";
          publication_policy_hash = "policy";
        }))
    ∷ run_event "c9" "run_1" (
        pull_request_recorded (record {
          commit_sha = "commit";
          pull_request = 5;
          pull_request_url = "https://github.com/o/r/pull/5";
          base_branch = "main";
          publication_policy_hash = "policy";
        }))
    ∷ run_event "c10" "run_1" (
        run_merged (record {
          commit_sha = "commit";
          pull_request = 5;
          pull_request_url = "https://github.com/o/r/pull/5";
          merge_commit_sha = "merge";
          publication_policy_hash = "policy";
        }))
    ∷ []

abbrev pub abort : Failure
abort = record {
  code = FailureCode.aborted;
  message = "stopped";
  retryable = false;
  evidence_hashes = [];
}

-- A hash, a run id of the runs' form, and the acceptance of a run under it.
abbrev pub hash64 : String
hash64 = "0123456789abcdef0123456789abcdef0123456789abcdef0123456789abcdef"

abbrev pub long_id : String
long_id = "run_0123456789abcdef"

abbrev pub starting : BrokerCommand
starting = run_accepted "c1" long_id (record {
  request_hash = hash64;
  contract = record contract { run_id = long_id };
  result = record result { run_id = long_id };
  inspection_epoch = 1;
})
