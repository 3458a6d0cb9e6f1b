-- ===== src/RunState/Replay.antt =====
-- What holds of the state that a journal is reduced to (src/runtime/run-state.ts).
use agent_orchestration_star.Base.{String, none, List, [], ◌≡◌, ok, All, arith, string_eq}
use agent_orchestration_star.Contracts.{ready_for_executor, not_started}
use agent_orchestration_star.RunState.Commands.{BrokerCommand, run_accepted, BrokerState}
use agent_orchestration_star.RunState.Reduce.{replay_broker_state}
use agent_orchestration_star.RunState.Steps.{Runs, replay_broker_state-Runs}
use agent_orchestration_star.RunState.Consistency.{IsConsistent, branch-IsConsistent}
use agent_orchestration_star.RunState.Evidence.{HasEvidence, branch-HasEvidence}

-- A run is accepted with the result that the daemon starts it with (`initialResult`): ready for its
-- executor, with no attempt, nothing published and no commit.
abbrev pub IsFresh : BrokerCommand → Type 0
IsFresh (run_accepted _ _ c) =
    (c.result.state ≡ ready_for_executor)
    × (c.result.attempts ≡ [])
    × (c.result.publication.state ≡ not_started)
    × (c.result.commit_sha ≡ none)
IsFresh _ = Unit

module _ (fold_case : String → String) where
  -- In the state that a journal of freshly accepted runs reduces to, every run has its attempts
  -- numbered from 1 in order, a process exactly while it executes, and, until it ends, an
  -- inspection due exactly while it awaits one.
  pub replay_broker_state-IsConsistent :
      (journal : List BrokerCommand) (state : BrokerState)
      → All IsFresh journal
      → replay_broker_state fold_case journal ≡ ok state
      → Runs (λ id run. IsConsistent run) state
  replay_broker_state-IsConsistent =
      replay_broker_state-Runs fold_case (λ id run. IsConsistent run) IsFresh
        (λ cid id c fresh _ _. record {
          numbered = rw fresh.1 tt;
          one_process = ground arith;
          inspection = λ _. ground arith;
        })
        (λ cid id run event next _ h _ e. branch-IsConsistent fold_case run event next h e)

  -- In the state that a journal of freshly accepted runs reduces to, a run from its accepted
  -- candidate to its end has been attempted, has the allowed validations in their order and changed
  -- files that are allowed and at most as many as its contract permits, unless it failed; a verdict
  -- in any phase is on the result's contract, diff and tree; a run from its commit on has a commit;
  -- and the publication is as far as the phase says: a finalized run is merged, with its pull
  -- request and a merge commit that is its head, or skipped.
  pub replay_broker_state-HasEvidence :
      (journal : List BrokerCommand) (state : BrokerState)
      → All IsFresh journal
      → replay_broker_state fold_case journal ≡ ok state
      → Runs (λ id run. HasEvidence fold_case run) state
  replay_broker_state-HasEvidence =
      replay_broker_state-Runs fold_case (λ id run. HasEvidence fold_case run) IsFresh
        (λ cid id c fresh _ _. ground arith)
        (λ cid id run event next _ h _ e. branch-HasEvidence fold_case run event next h e)
