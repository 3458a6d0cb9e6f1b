-- ===== src/RunState/Execution.antt =====
-- The branches of `reduceBrokerStateV4` that execute a run and accept its candidate
-- (src/runtime/run-state.ts). Freezing copies a state and changes no value in it.
use agent_orchestration_star.Base.{
  is_some, ℕ, suc, ◌+◌, String, Bool, true, false, not, ◌||◌, none, some, List, [], ◌∷◌, ◌++◌, map,
  Result, ok, ◌>>◌, throw_if, ◌!=◌, length, get_elem?, any, elem, leb, ltb, nat_eq, string_eq,
  option_eq,
}
use agent_orchestration_star.Contracts.{
  AllowedChange, WorkContract, Attempt, ValidationResult, ready_for_executor, execution_started,
  awaiting_reinspection, review_accepted, phase_is,
}
use agent_orchestration_star.RunState.Commands.{
  ExternalProcessIdentity, CandidateAccepted, BrokerRun, BrokerError, attempt_not_active,
  attempt_sequence, reinspection_not_pending, epoch_not_advanced, launch_not_allowed,
  candidate_not_authorized,
}

abbrev pub Broken : Type 0 → Type 0
Broken A = Result BrokerError A

unfoldable pub complete_attempt : BrokerRun → Attempt → Broken BrokerRun
complete_attempt run attempt = do
  throw_if (not (phase_is run.result.state execution_started) || not (is_some run.external_process))
      attempt_not_active
  throw_if (attempt.attempt != length run.result.attempts + 1) attempt_sequence
  ok (record run {
    result = record (run.result) {
      state = awaiting_reinspection;
      attempts = run.result.attempts ++ attempt ∷ [];
    };
    inspection_required = true;
    external_process = none;
    review_verdict = none;
  })

unfoldable pub reinspect : BrokerRun → ℕ → Broken BrokerRun
reinspect run epoch = do
  throw_if
      (not (phase_is run.result.state awaiting_reinspection)
        || not run.inspection_required
        || is_some run.external_process)
      reinspection_not_pending
  throw_if (leb epoch run.inspection_epoch) epoch_not_advanced
  ok (record run {
    result = record (run.result) { state = ready_for_executor };
    inspection_epoch = epoch;
    inspection_required = false;
  })

unfoldable pub launch : BrokerRun → ExternalProcessIdentity → Broken BrokerRun
launch run process = do
  throw_if
      (not (phase_is run.result.state ready_for_executor)
        || run.inspection_required
        || is_some run.external_process)
      launch_not_allowed
  ok (record run {
    result = record (run.result) { state = execution_started };
    external_process = some process;
  })

-- `results.some((result, index) => result.validation_id !== ids[index] || !set.has(…))`, from the
-- index on.
abbrev pub some_unauthorized : List String → ℕ → List ValidationResult → Bool
some_unauthorized ids index [] = false
some_unauthorized ids index (r ∷ rs) =
    (get_elem? ids index != some r.validation_id || not (elem r.validation_id ids))
    || some_unauthorized ids (suc index) rs

abbrev pub change_path : AllowedChange → String
change_path change = change.path

-- `fold_case` is `toLocaleLowerCase('en-US')`, whose tables the language's runtime supplies.
module _ (fold_case : String → String) where
  abbrev pub allowed_paths : WorkContract → List String
  allowed_paths contract =
      map (λ change. fold_case (change_path change)) contract.implementation_targets

  -- `allowedChangePaths.has(path.toLocaleLowerCase('en-US'))`.
  unfoldable pub path_allowed : WorkContract → String → Bool
  path_allowed contract path = elem (fold_case path) (allowed_paths contract)

  unfoldable pub candidate_refused : BrokerRun → CandidateAccepted → Bool
  candidate_refused run c =
      not (phase_is run.result.state ready_for_executor)
      || ltb (length run.result.attempts) 1
      || run.inspection_required
      || is_some run.external_process
      || length c.validation_results != length run.contract.allowed_validation_ids
      || some_unauthorized run.contract.allowed_validation_ids 0 c.validation_results
      || any (λ path. not (path_allowed run.contract path)) c.changed_files
      || ltb run.contract.max_files_changed (length c.changed_files)

  unfoldable pub accept_candidate : BrokerRun → CandidateAccepted → Broken BrokerRun
  accept_candidate run c = do
    throw_if (candidate_refused run c) candidate_not_authorized
    ok (record run {
      result = record (run.result) {
        state = review_accepted;
        validation_results = c.validation_results;
        diff_hash = c.diff_hash;
        tree_hash = c.tree_hash;
        changed_files = c.changed_files;
        review_attestation_hash = some c.review_attestation_hash;
      };
      review_verdict = none;
    })
