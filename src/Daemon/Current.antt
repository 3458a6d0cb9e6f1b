-- ===== src/Daemon/Current.antt =====
-- The daemon's state is the replay of its journal (src/runtime/broker-daemon.ts).
use agent_orchestration_star.Journal.Refusals.{append-refused}
use agent_orchestration_star.Base.{
  nat_eq, string_eq, option_eq, length, Result, ok, err, String, ◌≡◌, refl, sym, ap, ◌∙◌, subst,
  ◌≢◌, Option, none, some, List, [], ◌∷◌, ◌++◌, arith,
}
use agent_orchestration_star.RunState.Commands.{BrokerCommand, BrokerError, BrokerState, command_id}
use agent_orchestration_star.RunState.Reduce.{
  initial_broker_state, reduce_broker_state, replay_from, replay_broker_state,
}
use agent_orchestration_star.RunState.Ending.{replay_from-append}
use agent_orchestration_star.Journal.Records.{write_failed, JournalRecord, Codec, Journaled}
use agent_orchestration_star.Journal.Append.{Appended, Journal, find_record, known_record, append}
use agent_orchestration_star.Journal.Reopening.{IsDurable, Fits, append_inversion, append-IsDurable}
use agent_orchestration_star.Daemon.Recovery.{
  CacheFile, cached, replaced, commands_of, replay_records, cache_of,
}
use agent_orchestration_star.Daemon.Persist.{
  PersistError, append_failed, Daemon, Machine, take_state, after_journal, after_reduce, after_find,
  persist,
}
use mathlib.Core.List.{map-append}

-- The journal is durable and the state in memory is what it reduces to.
pub record IsCurrent (codec : Codec) (hash_state : BrokerState → String) (daemon : Daemon)
    : Type 0 where
  pub durable : IsDurable codec daemon.journal
  pub replayed : replay_records codec hash_state daemon.journal.records ≡ ok daemon.state

module _ (codec : Codec) (hash_state : BrokerState → String) where
  replay_records-append :
      (records : List JournalRecord) (r : JournalRecord) (state next : BrokerState)
      → replay_records codec hash_state records ≡ ok state
      → reduce_broker_state codec.loaders.fold_case state r.command ≡ ok next
      → replay_records codec hash_state (records ++ r ∷ []) ≡ ok next
  unfolding replay_broker_state replay_from
  replay_records-append records r state next replays reduces =
      let fold = codec.loaders.fold_case in
      rw (map-append (λ (q : JournalRecord). q.command) records (r ∷ [])) (
        replay_from-append fold initial_broker_state (commands_of records) (r.command ∷ [])
        ∙ rw (replays, reduces) refl)

  pub next_state-IsCurrent :
      (now : String) (daemon : Daemon) (command : BrokerCommand) (next : BrokerState)
      (journal : Journal) (got : JournalRecord) (cache : CacheFile)
      → IsCurrent codec hash_state daemon
      → IsDurable codec journal
      → find_record (command_id command) daemon.journal.records ≡ none
      → reduce_broker_state codec.loaders.fold_case daemon.state command ≡ ok next
      → Appended codec now daemon.journal journal command got
      → IsCurrent codec hash_state (record { state = next; journal = journal; cache = cache })
  unfolding known_record
  next_state-IsCurrent now daemon command next journal got cache h d missing reduces
        (Appended.known prior found same unchanged) =
      absurd (ground arith)
  next_state-IsCurrent now daemon command next journal got cache h d missing reduces
        (Appended.written fresh same grows) =
      record {
        durable = d;
        replayed =
            ap (λ (j : Journal). replay_records codec hash_state j.records) grows
            ∙ replay_records-append daemon.journal.records got daemon.state next h.replayed (
                ap
                  (λ (r : JournalRecord).
                    reduce_broker_state codec.loaders.fold_case daemon.state r.command)
                  same
                ∙ reduces);
      }

  module _ (machine : Machine) (replaces : machine.cache_write ≡ replaced) where
    settled-IsCurrent :
        (daemon : Daemon) (command : BrokerCommand) (state : BrokerState) (next : Daemon)
        (result : Result PersistError (Unit {0}))
        → IsCurrent codec hash_state daemon
        → Fits codec machine.now daemon.journal command
        → find_record (command_id command) daemon.journal.records ≡ none
        → reduce_broker_state codec.loaders.fold_case daemon.state command ≡ ok state
        → (journal : Journal) (appended : Journaled JournalRecord)
        → append codec machine.disk machine.now daemon.journal command ≡ (journal, appended)
        → after_journal codec hash_state machine daemon state (journal, appended) ≡ (next, result)
        → result ≢ err (append_failed write_failed)
        → IsCurrent codec hash_state next
    unfolding take_state
    settled-IsCurrent daemon command state next result h fits missing reduces journal (ok got)
          appends ends written_whole =
        let (_, _, appended) =
          append_inversion codec machine.disk machine.now daemon.journal command journal got
            appends in
        let d =
          append-IsDurable codec machine.disk machine.now daemon.journal command journal got
            h.durable fits appends in
        let cache = cached (cache_of codec hash_state state (length journal.records)) in
        let e : next ≡ record { state = state; journal = journal; cache = cache } = ground arith in
        subst (IsCurrent codec hash_state) (sym e) (
          next_state-IsCurrent machine.now daemon command state journal got cache h d missing
            reduces appended)
    settled-IsCurrent daemon command state next result h fits missing reduces journal (err e)
          appends ends written_whole =
        let same : journal ≡ daemon.journal =
          append-refused codec machine.disk machine.now daemon.journal command journal e appends
            (λ (w : e ≡ write_failed).
              written_whole (sym (ap (λ p. p.1) ends) ∙ ap (λ f. err (append_failed f)) w)) in
        let kept : next ≡ daemon =
          sym (ap (λ p. p.0) ends) ∙ ap (λ j. record daemon { journal = j }) same in
        subst (IsCurrent codec hash_state) (sym kept) h

    reduced-IsCurrent :
        (daemon : Daemon) (command : BrokerCommand) (reduced : Result BrokerError BrokerState)
        (next : Daemon) (result : Result PersistError (Unit {0}))
        → IsCurrent codec hash_state daemon
        → Fits codec machine.now daemon.journal command
        → find_record (command_id command) daemon.journal.records ≡ none
        → reduce_broker_state codec.loaders.fold_case daemon.state command ≡ reduced
        → after_reduce codec hash_state machine daemon command reduced ≡ (next, result)
        → result ≢ err (append_failed write_failed)
        → IsCurrent codec hash_state next
    reduced-IsCurrent daemon command (err e) next result h fits missing reduces ends intact =
        subst (IsCurrent codec hash_state) (ap (λ p. p.0) ends) h
    reduced-IsCurrent daemon command (ok state) next result h fits missing reduces ends intact =
        let appended = append codec machine.disk machine.now daemon.journal command in
        settled-IsCurrent daemon command state next result h fits missing reduces appended.0
          appended.1 refl ends intact

    found-IsCurrent :
        (daemon : Daemon) (command : BrokerCommand) (found : Option JournalRecord) (next : Daemon)
        (result : Result PersistError (Unit {0}))
        → IsCurrent codec hash_state daemon
        → Fits codec machine.now daemon.journal command
        → find_record (command_id command) daemon.journal.records ≡ found
        → after_find codec hash_state machine daemon command found ≡ (next, result)
        → result ≢ err (append_failed write_failed)
        → IsCurrent codec hash_state next
    found-IsCurrent daemon command (some prior) next result h fits finds ends intact =
        subst (IsCurrent codec hash_state) (ap (λ p. p.0) ends) h
    found-IsCurrent daemon command none next result h fits finds ends intact =
        reduced-IsCurrent daemon command
          (reduce_broker_state codec.loaders.fold_case daemon.state command) next result h fits
          finds refl ends intact

    -- However persisting a command ends, where the cache is replaced and no write of the journal
    -- fails, the journal stays the readable chain of its records and the state in memory what they
    -- reduce to.
    pub persist-IsCurrent :
        (daemon : Daemon) (command : BrokerCommand) (next : Daemon)
        (result : Result PersistError (Unit {0}))
        → IsCurrent codec hash_state daemon
        → Fits codec machine.now daemon.journal command
        → persist codec hash_state machine daemon command ≡ (next, result)
        → result ≢ err (append_failed write_failed)
        → IsCurrent codec hash_state next
    unfolding persist
    persist-IsCurrent daemon command next result h fits ends intact =
        found-IsCurrent daemon command (find_record (command_id command) daemon.journal.records)
          next result h fits refl ends intact
