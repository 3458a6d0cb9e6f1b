-- ===== src/RunState/Load.antt =====
-- The journal's loader of commands (`loadJournalCommandV4` of src/runtime/run-state.ts), on
-- commands whose fields have the types that its `typeof` tests ask for.
use agent_orchestration_star.Base.{
  ◌!=◌, nat_eq, string_eq, option_eq, length, ok, err, ◌>>=◌, ◌>>◌, throw_if, String, Bool, not, [],
  map,
}
use agent_orchestration_star.Contracts.{
  WorkContract, trait_eq, required_checks_passed, RunResult, is_aborted_code,
}
use agent_orchestration_star.RunState.Commands.{
  BrokerVerdict, RunEvent, attempt_recorded, paths_reinspected, external_process_started,
  candidate_accepted, review_verdict_recorded, commit_created, branch_pushed, pull_request_recorded,
  required_checks_passed, run_merged, publication_skipped, run_failed, run_aborted, BrokerCommand,
  run_coding_task, run_accepted, run_event, BrokerReviewVerdict, RunAccepted, CandidateAccepted,
  CommitCreated, command_id,
}
use agent_orchestration_star.RunState.Checks.{
  caller_command, invalid_epoch, invalid_attempt, invalid_pid, invalid_validations, invalid_files,
  invalid_file, ambiguous_files, invalid_reason, forged_verdict, invalid_task_ref, invalid_branch,
  invalid_remote, invalid_base_branch, wrong_abort, refused_contract, refused_result, Loaded,
  is_positive, within, checked, identifier, load_run_id, load_hash, git_sha, load_pull_request,
  load_url, load_each, all_distinct, failure_contract, load_validations, is_changed_file, is_reason,
  is_task_ref, is_run_branch, is_remote, is_base_branch,
}

-- What a recorded verdict's own hash is computed over.
pub record VerdictBody : Type 0 where
  pub run_id : String
  pub review_packet_hash : String
  pub contract_hash : String
  pub diff_hash : String
  pub tree_hash : String
  pub capability_snapshot_hash : String
  pub verdict : BrokerVerdict
  pub reason : String

-- The tests that the journal takes from elsewhere: the hash of a verdict, the schemas of a contract
-- and a result (src/runtime/load.ts), and the platform's lower case.
pub record Loaders : Type 0 where
  pub hash_verdict : VerdictBody → String
  pub contract_loads : WorkContract → Bool
  pub result_loads : RunResult → Bool
  pub fold_case : String → String

abbrev pub verdict_body : String → BrokerReviewVerdict → VerdictBody
verdict_body id v = record {
  run_id = id;
  review_packet_hash = v.review_packet_hash;
  contract_hash = v.contract_hash;
  diff_hash = v.diff_hash;
  tree_hash = v.tree_hash;
  capability_snapshot_hash = v.capability_snapshot_hash;
  verdict = v.verdict;
  reason = v.reason;
}

module _ (loaders : Loaders) where
  unfoldable pub load_acceptance : String → RunAccepted → Loaded (String × RunAccepted)
  load_acceptance id c = do
    epoch ← checked is_positive invalid_epoch c.inspection_epoch
    request_hash ← load_hash c.request_hash
    run_id ← load_run_id id
    contract ← checked loaders.contract_loads refused_contract c.contract
    result ← checked loaders.result_loads refused_result c.result
    ok (
      run_id,
      record {
        request_hash = request_hash;
        contract = contract;
        result = result;
        inspection_epoch = epoch;
      },
    )

  unfoldable pub load_candidate : String → CandidateAccepted → Loaded (String × RunEvent)
  unfolding load_each load_validations
  load_candidate id c = do
    throw_if (not (within 1 64 (length c.validation_results))) invalid_validations
    results ← load_validations [] c.validation_results
    throw_if (not (within 1 256 (length c.changed_files))) invalid_files
    files ← load_each (checked is_changed_file invalid_file) c.changed_files
    throw_if (not (all_distinct (map loaders.fold_case files))) ambiguous_files
    run_id ← load_run_id id
    diff ← load_hash c.diff_hash
    tree ← load_hash c.tree_hash
    attestation ← load_hash c.review_attestation_hash
    ok (
      run_id,
      candidate_accepted (record {
        validation_results = results;
        diff_hash = diff;
        tree_hash = tree;
        changed_files = files;
        review_attestation_hash = attestation;
      }),
    )

  unfoldable pub load_verdict : String → BrokerReviewVerdict → Loaded (String × RunEvent)
  load_verdict id v = do
    reason ← checked is_reason invalid_reason v.reason
    run_id ← load_run_id id
    packet ← load_hash v.review_packet_hash
    contract ← load_hash v.contract_hash
    diff ← load_hash v.diff_hash
    tree ← load_hash v.tree_hash
    snapshot ← load_hash v.capability_snapshot_hash
    verdict_hash ← load_hash v.verdict_hash
    let recorded : BrokerReviewVerdict = record {
      review_packet_hash = packet;
      contract_hash = contract;
      diff_hash = diff;
      tree_hash = tree;
      capability_snapshot_hash = snapshot;
      verdict = v.verdict;
      reason = reason;
      verdict_hash = verdict_hash;
    }
    throw_if (loaders.hash_verdict (verdict_body run_id recorded) != verdict_hash) forged_verdict
    ok (run_id, review_verdict_recorded recorded)

  unfoldable pub load_commit : String → CommitCreated → Loaded (String × RunEvent)
  load_commit id c = do
    task_ref ← checked is_task_ref invalid_task_ref c.task_ref
    run_id ← load_run_id id
    base ← git_sha c.base_sha
    git_tree ← git_sha c.git_tree_sha
    evidence_tree ← load_hash c.evidence_tree_hash
    commit ← git_sha c.commit_sha
    contract ← load_hash c.contract_hash
    diff ← load_hash c.diff_hash
    manifest ← load_hash c.validation_manifest_hash
    attestation ← load_hash c.review_attestation_hash
    ok (
      run_id,
      commit_created (record {
        task_ref = task_ref;
        base_sha = base;
        git_tree_sha = git_tree;
        evidence_tree_hash = evidence_tree;
        commit_sha = commit;
        contract_hash = contract;
        diff_hash = diff;
        validation_manifest_hash = manifest;
        review_attestation_hash = attestation;
      }),
    )

  -- Each type's own checks, in the order in which they are made.
  unfoldable pub load_event : String → RunEvent → Loaded (String × RunEvent)
  unfolding load_candidate load_verdict load_commit failure_contract
  load_event id (attempt_recorded a) = do
    number ← checked is_positive invalid_attempt a.attempt
    run_id ← load_run_id id
    binding ← identifier a.executor_binding_ref
    result ← load_hash a.result_hash
    ok (
      run_id,
      attempt_recorded
          (record { attempt = number; executor_binding_ref = binding; result_hash = result }),
    )
  load_event id (paths_reinspected epoch) = do
    loaded ← checked is_positive invalid_epoch epoch
    run_id ← load_run_id id
    ok (run_id, paths_reinspected loaded)
  load_event id (external_process_started process) = do
    pid ← checked is_positive invalid_pid process.pid
    run_id ← load_run_id id
    nonce ← identifier process.boot_nonce
    ok (run_id, external_process_started (record { pid = pid; boot_nonce = nonce }))
  load_event id (candidate_accepted c) = load_candidate id c
  load_event id (review_verdict_recorded v) = load_verdict id v
  load_event id (commit_created c) = load_commit id c
  load_event id (branch_pushed c) = do
    branch ← checked is_run_branch invalid_branch c.branch
    remote ← checked is_remote invalid_remote c.remote
    run_id ← load_run_id id
    commit ← git_sha c.commit_sha
    policy ← load_hash c.publication_policy_hash
    ok (
      run_id,
      branch_pushed (record {
        commit_sha = commit;
        branch = branch;
        remote = remote;
        publication_policy_hash = policy;
      }),
    )
  load_event id (pull_request_recorded c) = do
    number ← load_pull_request c.pull_request
    base ← checked is_base_branch invalid_base_branch c.base_branch
    run_id ← load_run_id id
    commit ← git_sha c.commit_sha
    url ← load_url number c.pull_request_url
    policy ← load_hash c.publication_policy_hash
    ok (
      run_id,
      pull_request_recorded (record {
        commit_sha = commit;
        pull_request = number;
        pull_request_url = url;
        base_branch = base;
        publication_policy_hash = policy;
      }),
    )
  load_event id (required_checks_passed c) = do
    run_id ← load_run_id id
    commit ← git_sha c.commit_sha
    number ← load_pull_request c.pull_request
    policy ← load_hash c.publication_policy_hash
    ok (
      run_id,
      required_checks_passed
          (record { commit_sha = commit; pull_request = number; publication_policy_hash = policy }),
    )
  load_event id (run_merged c) = do
    number ← load_pull_request c.pull_request
    run_id ← load_run_id id
    commit ← git_sha c.commit_sha
    url ← load_url number c.pull_request_url
    merge ← git_sha c.merge_commit_sha
    policy ← load_hash c.publication_policy_hash
    ok (
      run_id,
      run_merged (record {
        commit_sha = commit;
        pull_request = number;
        pull_request_url = url;
        merge_commit_sha = merge;
        publication_policy_hash = policy;
      }),
    )
  load_event id (publication_skipped c) = do
    run_id ← load_run_id id
    commit ← git_sha c.commit_sha
    policy ← load_hash c.publication_policy_hash
    ok (
      run_id,
      publication_skipped
          (record { commit_sha = commit; publication_policy_hash = policy; reason = c.reason }),
    )
  load_event id (run_failed failure) = do
    loaded ← failure_contract failure
    run_id ← load_run_id id
    ok (run_id, run_failed loaded)
  load_event id (run_aborted failure) = do
    loaded ← failure_contract failure
    throw_if (not (is_aborted_code loaded.code)) wrong_abort
    run_id ← load_run_id id
    ok (run_id, run_aborted loaded)

  -- The command id is checked first; a caller's command is of no type that a journal holds.
  unfoldable pub load_journal_command : BrokerCommand → Loaded BrokerCommand
  unfolding load_acceptance load_event
  load_journal_command (run_coding_task cid _) = do loaded ← identifier cid; err caller_command
  load_journal_command (run_accepted cid id c) = do
    command_id ← identifier cid
    loaded ← load_acceptance id c
    ok (run_accepted command_id loaded.0 loaded.1)
  load_journal_command (run_event cid id event) = do
    command_id ← identifier cid
    loaded ← load_event id event
    ok (run_event command_id loaded.0 loaded.1)
