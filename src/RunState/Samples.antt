-- ===== src/RunState/Samples.antt =====
-- The state that the sample journal, from acceptance to merge, reduces to: an input of the tests.
use agent_orchestration_star.Base.{
  String, List, none, some, ◌≡◌, refl, ok, lookup, insert, value_or, string_eq, Result,
}
use agent_orchestration_star.Requests.{register_request}
use agent_orchestration_star.RunState.Commands.{BrokerCommand, BrokerState, BrokerRun, BrokerError}
use agent_orchestration_star.RunState.Publish.{
  verdict_refused, commit_refused, push_refused, pull_request_refused, checks_refused,
  merge_refused, skip_refused,
}
use agent_orchestration_star.RunState.Execution.{candidate_refused, path_allowed}
use agent_orchestration_star.RunState.Reduce.{
  branch, reduce_run, reduce_broker_state, replay_broker_state, initial_broker_state, accepted_run,
}
use agent_orchestration_star.Samples.{journal, acceptance}

abbrev pub plain : String → String
plain s = s

-- All that a replay computes with.
unfoldable pub replay : List BrokerCommand → Result BrokerError BrokerState
unfolding replay_broker_state reduce_broker_state reduce_run branch candidate_refused path_allowed
    verdict_refused commit_refused push_refused pull_request_refused checks_refused merge_refused
    skip_refused lookup insert register_request
replay commands = replay_broker_state plain commands

abbrev pub final : BrokerState
unfolding replay
final = value_or (replay journal) initial_broker_state

abbrev pub final_run : BrokerRun
unfolding replay
final_run = elim (lookup "run_1" final.runs) [ none ↦ accepted_run acceptance | some run ↦ run ]

pub replay_journal : replay_broker_state plain journal ≡ ok final
unfolding replay
replay_journal = refl

pub final_found : lookup "run_1" final.runs ≡ some final_run
unfolding replay
final_found = refl
