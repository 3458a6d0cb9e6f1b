-- ===== src/Daemon/Stale.antt =====
-- A command whose journal record was written and whose cache was not (`persist` of
-- src/runtime/broker-daemon.ts): the state in memory stays behind the journal.
use agent_orchestration_star.Base.{
  if◌then◌else◌, ◌!=◌, nat_eq, string_eq, option_eq, ==_refl, ok, err, String, ◌≡◌, refl, ap, ◌∙◌,
  false, none, some, arith,
}
use agent_orchestration_star.RunState.Commands.{BrokerCommand, BrokerState, command_id}
use agent_orchestration_star.RunState.Reduce.{reduce_broker_state}
use agent_orchestration_star.Journal.Records.{JournalRecord, Codec}
use agent_orchestration_star.Journal.Append.{Appended, Journal, find_record, known_record, append}
use agent_orchestration_star.Journal.Reopening.{Fits, append_inversion, append-IsDurable}
use agent_orchestration_star.Journal.Repeat.{known-found}
use agent_orchestration_star.Daemon.Recovery.{no_cache, kept_old, replay_records}
use agent_orchestration_star.Daemon.Persist.{
  other_bytes, cache_failed, Daemon, Machine, take_state, after_journal, after_reduce, after_find,
  persist,
}
use agent_orchestration_star.Daemon.Current.{IsCurrent, next_state-IsCurrent}

module _ (codec : Codec) (hash_state : BrokerState → String) where
  -- A command that no record has is persisted by its reduction, its append and what follows.
  pub persist_new :
      (machine : Machine) (daemon : Daemon) (command : BrokerCommand) (next : BrokerState)
      (journal : Journal) (got : JournalRecord)
      → find_record (command_id command) daemon.journal.records ≡ none
      → reduce_broker_state codec.loaders.fold_case daemon.state command ≡ ok next
      → append codec machine.disk machine.now daemon.journal command ≡ (journal, ok got)
      → persist codec hash_state machine daemon command
        ≡ take_state codec hash_state machine daemon next journal
  unfolding persist
  persist_new machine daemon command next journal got missing reduces appends =
      ap (after_find codec hash_state machine daemon command) missing
      ∙ ap (after_reduce codec hash_state machine daemon command) reduces
      ∙ ap (after_journal codec hash_state machine daemon next) appends

  command_of_record :
      (now : String) (journal next : Journal) (command : BrokerCommand) (got : JournalRecord)
      → find_record (command_id command) journal.records ≡ none
      → Appended codec now journal next command got
      → got.command ≡ command
  unfolding known_record
  command_of_record now journal next command got missing
        (Appended.known prior found same unchanged) =
      absurd (ground arith)
  command_of_record now journal next command got missing (Appended.written fresh same grows) =
      ap (λ (r : JournalRecord). r.command) same

  -- The record of a known command has been found.
  recorded :
      (journal : Journal) (command : BrokerCommand) (prior : String) (got : JournalRecord)
      → known_record codec journal command prior ≡ ok got
      → find_record (command_id command) journal.records ≡ some got
  unfolding known_record
  recorded journal command prior got h = ground arith

  take_state-kept_old :
      (machine : Machine) (daemon : Daemon) (next : BrokerState) (journal : Journal)
      → machine.cache_write ≡ kept_old
      → take_state codec hash_state machine daemon next journal ≡ (
        record { state = daemon.state; journal = journal; cache = daemon.cache },
        err cache_failed,
      )
  unfolding take_state
  take_state-kept_old machine daemon next journal fails = ground arith

  -- Where a cache write fails behind the append of a new command, persisting fails, and a retry of
  -- the command reports success on any machine and changes nothing: the state in memory is still
  -- the one before the command, though the journal holds the command and reduces to the next.
  pub persist-cache_failure :
      (machine : Machine) (daemon : Daemon) (command : BrokerCommand) (next : BrokerState)
      (journal : Journal) (got : JournalRecord)
      → IsCurrent codec hash_state daemon
      → Fits codec machine.now daemon.journal command
      → find_record (command_id command) daemon.journal.records ≡ none
      → reduce_broker_state codec.loaders.fold_case daemon.state command ≡ ok next
      → append codec machine.disk machine.now daemon.journal command ≡ (journal, ok got)
      → machine.cache_write ≡ kept_old
      → (left : Daemon) × (persist codec hash_state machine daemon command
          ≡ (left, err cache_failed))
        × ((later : Machine) → persist codec hash_state later left command ≡ (left, ok tt))
        × (left.state ≡ daemon.state)
        × (replay_records codec hash_state left.journal.records ≡ ok next)
  unfolding persist
  persist-cache_failure machine daemon command next journal got h fits missing reduces appends
        fails =
      let left : Daemon = record {
        state = daemon.state;
        journal = journal;
        cache = daemon.cache;
      } in
      let (_, _, appended) =
        append_inversion codec machine.disk machine.now daemon.journal command journal got
          appends in
      let d =
        append-IsDurable codec machine.disk machine.now daemon.journal command journal got h.durable
          fits appends in
      let current =
        next_state-IsCurrent codec hash_state machine.now daemon command next journal got no_cache h
          d missing reduces appended in
      let (prior, _, found) =
        known-found codec machine.now daemon.journal journal command got h.durable appended in
      let same =
        command_of_record machine.now daemon.journal journal command got missing appended in
      let same_text : (codec.command_text got.command != codec.command_text command) ≡ false =
        rw (same, ==_refl (codec.command_text command)) refl in
      (
        left,
        persist_new machine daemon command next journal got missing reduces appends
            ∙ take_state-kept_old machine daemon next journal fails,
        λ later.
            ap (after_find codec hash_state later left command)
              (recorded journal command prior got found)
            ∙ ap (λ b. (left, if b then err other_bytes else ok tt)) same_text,
        refl,
        current.replayed,
      )
