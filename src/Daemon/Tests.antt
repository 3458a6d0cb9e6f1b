-- ===== src/Daemon/Tests.antt =====
-- The daemon's theorems at the acceptance of one run.
use agent_orchestration_star.Base.{
  All, nat_eq, string_eq, option_eq, length, lookup, insert, Result, ok, err, value_or, String, ◌≡◌,
  refl, ◌∙◌, true, none, [], arith,
}
use agent_orchestration_star.RunState.Commands.{BrokerError, BrokerState}
use agent_orchestration_star.RunState.Reduce.{
  initial_broker_state, accept_run, reduce_broker_state, replay_from, replay_broker_state,
}
use agent_orchestration_star.Requests.{register_request}
use agent_orchestration_star.Journal.Append.{Journal, find_record, open_journal}
use agent_orchestration_star.Journal.Samples.{
  first, codec, empty, empty-IsDurable, first-Fits, one, good_disk, first_appended,
}
use agent_orchestration_star.Daemon.Recovery.{
  CacheFile, no_cache, cached, CacheWrite, replaced, kept_old, replay_records, cache_of,
  recover_broker_state, Agrees,
}
use agent_orchestration_star.Daemon.Persist.{cache_failed, Daemon, Machine, take_state, persist}
use agent_orchestration_star.Daemon.Current.{IsCurrent, persist-IsCurrent}
use agent_orchestration_star.Daemon.Recovering.{recover_broker_state-replays, recover-IsCurrent}
use agent_orchestration_star.Daemon.Stale.{persist_new, persist-cache_failure}
use agent_orchestration_star.Daemon.Locks.{Locks}
use agent_orchestration_star.Samples.{hash64, starting}
use agent_orchestration_star.RunState.Evidence.{HasEvidence}
use agent_orchestration_star.RunState.Samples.{plain, final, final_run, replay_journal, final_found}
use agent_orchestration_star.Daemon.Acceptance.{
  EmptyHashes, initial_result, acceptance_command, IsSubmitted, IsOnContract, submitted-HasEvidence,
}
use agent_orchestration_star.Samples.{journal}

abbrev hash_state : BrokerState → String
hash_state _ = hash64

abbrev idle : Daemon
idle = record { state = initial_broker_state; journal = empty; cache = no_cache }

idle-IsCurrent : IsCurrent codec hash_state idle
unfolding initial_broker_state replay_broker_state replay_from
idle-IsCurrent = record { durable = empty-IsDurable; replayed = refl }

reduced : Result BrokerError BrokerState
unfolding reduce_broker_state accept_run lookup insert register_request initial_broker_state
reduced = reduce_broker_state (λ s. s) initial_broker_state starting

abbrev accepted_state : BrokerState
unfolding reduced
accepted_state = value_or reduced initial_broker_state

starting_reduces : reduce_broker_state (λ s. s) initial_broker_state starting ≡ ok accepted_state
unfolding reduced
starting_reduces = refl

abbrev machine : CacheWrite → Machine
machine outcome = record { disk = good_disk; now = "now"; cache_write = outcome; audits = true }

abbrev running : Daemon
running = record {
  state = accepted_state;
  journal = one;
  cache = cached (cache_of codec hash_state accepted_state 1);
}

none_found : find_record "c1" empty.records ≡ none
unfolding find_record
none_found = refl

starting_persists : persist codec hash_state (machine replaced) idle starting ≡ (running, ok tt)
unfolding take_state
starting_persists =
    persist_new codec hash_state (machine replaced) idle starting accepted_state one first
      none_found starting_reduces first_appended
    ∙ refl

persist-IsCurrent_example : IsCurrent codec hash_state running
persist-IsCurrent_example =
    persist-IsCurrent codec hash_state (machine replaced) refl idle starting running (ok tt)
      idle-IsCurrent first-Fits starting_persists (λ h. cc)

recover-IsCurrent_example :
    (left : CacheFile) × (recover_broker_state codec hash_state replaced one.file running.cache
      ≡ ok (record { state = accepted_state; sequence = 1; cache = left }))
recover-IsCurrent_example =
    recover-IsCurrent codec hash_state running persist-IsCurrent_example
      (1, accepted_state, omega arith, persist-IsCurrent_example.replayed, refl)

recover_broker_state-replays_example :
    (journal : Journal) × (open_journal codec one.file ≡ ok journal)
    × (replay_records codec hash_state journal.records ≡ ok accepted_state)
    × (1 ≡ length journal.records)
    × Agrees codec hash_state journal.records accepted_state recover-IsCurrent_example.0
recover_broker_state-replays_example =
    recover_broker_state-replays codec hash_state replaced one.file running.cache
      (record { state = accepted_state; sequence = 1; cache = recover-IsCurrent_example.0 })
      recover-IsCurrent_example.1

persist-cache_failure_example :
    (left : Daemon) × (persist codec hash_state (machine kept_old) idle starting
      ≡ (left, err cache_failed))
    × ((later : Machine) → persist codec hash_state later left starting ≡ (left, ok tt))
    × (left.state ≡ idle.state)
    × (replay_records codec hash_state left.journal.records ≡ ok accepted_state)
persist-cache_failure_example =
    persist-cache_failure codec hash_state (machine kept_old) idle starting accepted_state one first
      idle-IsCurrent first-Fits none_found starting_reduces first_appended refl

abbrev unlocked : Locks
unlocked = record { locks = []; holders = [] }

abbrev empty_hashes : EmptyHashes
empty_hashes = record {
  no_files = "no diff";
  not_materialized = λ base_sha. "no tree";
  no_artifacts = λ run_id. "artifacts";
}

journal-IsSubmitted : All (IsSubmitted empty_hashes) journal
unfolding initial_result acceptance_command
journal-IsSubmitted = search

submitted-HasEvidence_example : IsOnContract "run_1" final_run × HasEvidence plain final_run
submitted-HasEvidence_example =
    submitted-HasEvidence plain empty_hashes journal final journal-IsSubmitted replay_journal
      "run_1" final_run final_found
