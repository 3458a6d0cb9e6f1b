-- ===== src/RunState/Reduce.antt =====
-- `reduceBrokerStateV4` and the replay of a journal (src/runtime/run-state.ts).
use agent_orchestration_star.Base.{
  is_some, String, false, not, ◌||◌, none, List, [], ◌∷◌, Result, ok, err, ◌>>=◌, ◌>>◌, throw_if,
  require, lookup, insert, ◌!=◌, nat_eq, string_eq, option_eq,
}
use agent_orchestration_star.Contracts.{is_terminal}
use agent_orchestration_star.Requests.{Registration, RequestError, register_request}
use agent_orchestration_star.RunState.Commands.{
  RunAccepted, RunEvent, attempt_recorded, paths_reinspected, external_process_started,
  candidate_accepted, review_verdict_recorded, commit_created, branch_pushed, pull_request_recorded,
  required_checks_passed, run_merged, publication_skipped, run_failed, run_aborted, BrokerCommand,
  run_coding_task, run_accepted, run_event, BrokerRun, BrokerState, unaccepted_command,
  accepted_twice, inconsistent_identities, request_accepted_twice, request_reused, unknown_run,
  terminal_run,
}
use agent_orchestration_star.RunState.Execution.{
  Broken, complete_attempt, reinspect, launch, accept_candidate,
}
use agent_orchestration_star.RunState.Publish.{
  record_verdict, record_commit, push_branch, open_pull_request, pass_checks, merge_run,
  skip_publication, abort_run, fail_run,
}

unfoldable pub initial_broker_state : BrokerState
initial_broker_state = record { runs = []; requests = [] }

-- A registration's error leaves the reducer as it is.
abbrev pub register_or_fail : Result RequestError Registration → Broken Registration
register_or_fail (ok r) = ok r
register_or_fail (err _) = err request_reused

abbrev pub accepted_run : RunAccepted → BrokerRun
accepted_run c = record {
  contract = c.contract;
  result = c.result;
  request_hash = c.request_hash;
  inspection_epoch = c.inspection_epoch;
  inspection_required = false;
  external_process = none;
  review_verdict = none;
}

unfoldable pub accept_run : BrokerState → String → RunAccepted → Broken BrokerState
accept_run state run_id c = do
  throw_if (is_some (lookup run_id state.runs)) accepted_twice
  throw_if
      (c.contract.run_id != run_id
        || c.result.run_id != run_id
        || c.contract.request_id != c.result.request_id)
      inconsistent_identities
  registration ←
      register_or_fail (register_request state.requests c.contract.request_id c.request_hash run_id)
  throw_if (not registration.created) request_accepted_twice
  ok (record {
    runs =
        insert run_id
          (record {
            contract = c.contract;
            result = c.result;
            request_hash = c.request_hash;
            inspection_epoch = c.inspection_epoch;
            inspection_required = false;
            external_process = none;
            review_verdict = none;
          })
          state.runs;
    requests = registration.index;
  })

module _ (fold_case : String → String) where
  -- The branch of the command's type, on the run that it names.
  unfoldable pub branch : BrokerRun → RunEvent → Broken BrokerRun
  unfolding complete_attempt reinspect launch accept_candidate record_verdict record_commit
      push_branch open_pull_request pass_checks merge_run skip_publication abort_run fail_run
  branch run (attempt_recorded attempt) = complete_attempt run attempt
  branch run (paths_reinspected epoch) = reinspect run epoch
  branch run (external_process_started process) = launch run process
  branch run (candidate_accepted c) = accept_candidate fold_case run c
  branch run (review_verdict_recorded v) = record_verdict run v
  branch run (commit_created c) = record_commit run c
  branch run (branch_pushed c) = push_branch run c
  branch run (pull_request_recorded c) = open_pull_request run c
  branch run (required_checks_passed c) = pass_checks run c
  branch run (run_merged c) = merge_run run c
  branch run (publication_skipped c) = skip_publication run c
  branch run (run_aborted failure) = abort_run run failure
  branch run (run_failed failure) = fail_run run failure

  -- The run after a command: a terminal run takes none.
  unfoldable pub reduce_run : BrokerRun → RunEvent → Broken BrokerRun
  reduce_run run event = do throw_if (is_terminal run.result.state) terminal_run; branch run event

  unfoldable pub reduce_broker_state : BrokerState → BrokerCommand → Broken BrokerState
  unfolding accept_run
  reduce_broker_state state (run_coding_task _ _) = err unaccepted_command
  reduce_broker_state state (run_accepted _ run_id c) = accept_run state run_id c
  reduce_broker_state state (run_event _ run_id event) = do
    run ← require (lookup run_id state.runs) unknown_run
    next ← reduce_run run event
    ok (record state { runs = insert run_id next state.runs })

  -- `commands.reduce(reduceBrokerStateV4, state)`.
  unfoldable pub replay_from : BrokerState → List BrokerCommand → Broken BrokerState
  replay_from state [] = ok state
  replay_from state (c ∷ cs) = do next ← reduce_broker_state state c; replay_from next cs

  unfoldable pub replay_broker_state : List BrokerCommand → Broken BrokerState
  unfolding replay_from initial_broker_state
  replay_broker_state commands = replay_from initial_broker_state commands
