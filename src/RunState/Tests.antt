-- ===== src/RunState/Tests.antt =====
-- The theorems at a journal from acceptance to merge.
use agent_orchestration_star.Base.{[], ◌++◌, some, ◌≡◌, refl, lookup, All, string_eq, ◌>>=◌, arith}
use agent_orchestration_star.Contracts.{finalized, merged}
use agent_orchestration_star.RunState.Reduce.{replay_from, initial_broker_state}
use agent_orchestration_star.RunState.Consistency.{IsConsistent}
use agent_orchestration_star.RunState.Evidence.{HasEvidence}
use agent_orchestration_star.RunState.History.{HasProvenance, replay_broker_state-HasProvenance}
use agent_orchestration_star.RunState.Identity.{Linked, Owned, replay_broker_state-Linked}
use agent_orchestration_star.RunState.Replay.{
  IsFresh, replay_broker_state-IsConsistent, replay_broker_state-HasEvidence,
}
use agent_orchestration_star.RunState.Ending.{replay_from_keeps_ended, replay_from-append}
use agent_orchestration_star.Samples.{journal}
use agent_orchestration_star.RunState.Samples.{
  plain, replay, final, final_run, replay_journal, final_found,
}

journal-IsFresh : All IsFresh journal
journal-IsFresh = ground arith

journal_merges :
    (final_run.result.state ≡ finalized)
    × (final_run.result.publication.state ≡ merged)
    × (final_run.result.commit_sha ≡ some "commit")
unfolding replay
journal_merges = (refl, refl, refl)

replay_broker_state-IsConsistent_example : IsConsistent final_run
replay_broker_state-IsConsistent_example =
    replay_broker_state-IsConsistent plain journal final journal-IsFresh replay_journal "run_1"
      final_run final_found

replay_broker_state-HasEvidence_example : HasEvidence plain final_run
replay_broker_state-HasEvidence_example =
    replay_broker_state-HasEvidence plain journal final journal-IsFresh replay_journal "run_1"
      final_run final_found

replay_broker_state-HasProvenance_example : HasProvenance journal "run_1" final_run
replay_broker_state-HasProvenance_example =
    replay_broker_state-HasProvenance plain journal final journal-IsFresh replay_journal "run_1"
      final_run final_found

replay_broker_state-Linked_example : Linked final × Owned final
replay_broker_state-Linked_example = replay_broker_state-Linked plain journal final replay_journal

replay_from_keeps_ended_example : lookup "run_1" final.runs ≡ some final_run
unfolding replay replay_from
replay_from_keeps_ended_example =
    replay_from_keeps_ended plain final [] final "run_1" final_run final_found refl refl

replay_from-append_example :
    replay_from plain initial_broker_state (journal ++ journal)
    ≡ (replay_from plain initial_broker_state journal >>= λ s. replay_from plain s journal)
replay_from-append_example = replay_from-append plain initial_broker_state journal journal
