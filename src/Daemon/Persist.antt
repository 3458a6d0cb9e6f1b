-- ===== src/Daemon/Persist.antt =====
-- Persisting a command (`persist` of src/runtime/broker-daemon.ts): reduce, append to the journal,
-- replace the cache, take the new state, project it into the audit trail.
use agent_orchestration_star.Base.{
  if◌then◌else◌, ◌!=◌, nat_eq, string_eq, option_eq, length, Result, ok, err, String, Bool, true,
  false, not, Option, none, some,
}
use agent_orchestration_star.RunState.Commands.{BrokerCommand, BrokerError, BrokerState, command_id}
use agent_orchestration_star.RunState.Reduce.{reduce_broker_state}
use agent_orchestration_star.Journal.Records.{JournalError, JournalRecord, Codec, Journaled}
use agent_orchestration_star.Journal.Disk.{Disk}
use agent_orchestration_star.Journal.Append.{Journal, find_record, append}
use agent_orchestration_star.Daemon.Recovery.{
  CacheFile, cached, CacheWrite, replaced, kept_old, unsynced, StateCache, cache_of,
}

-- The daemon's state, its journal, and the cache on the disk.
pub record Daemon : Type 0 where
  pub state : BrokerState
  pub journal : Journal
  pub cache : CacheFile

-- What the machine does during a call: the disk and the time of the append, what becomes of the
-- cache, and whether the audit trail takes the entry.
pub record Machine : Type 0 where
  pub disk : Disk
  pub now : String
  pub cache_write : CacheWrite
  pub audits : Bool

-- `BROKER_STATE_CORRUPT`, by the statement that raises it.
pub data PersistError : Type 0 where
  other_bytes : PersistError
  refused_command : BrokerError → PersistError
  append_failed : JournalError → PersistError
  cache_failed audit_failed : PersistError

module _ (codec : Codec) (hash_state : BrokerState → String) where
  abbrev pub left_cache : CacheWrite → CacheFile → StateCache → CacheFile
  left_cache replaced old new = cached new
  left_cache kept_old old new = old
  left_cache unsynced old new = cached new

  abbrev pub is_replaced : CacheWrite → Bool
  is_replaced replaced = true
  is_replaced _ = false

  -- Behind a successful append: the state is taken only when the cache was replaced.
  unfoldable pub take_state :
      Machine → Daemon → BrokerState → Journal → Daemon × Result PersistError (Unit {0})
  take_state machine daemon next journal =
      let cache =
        left_cache machine.cache_write daemon.cache
          (cache_of codec hash_state next (length journal.records)) in
      if not (is_replaced machine.cache_write)
      then (record { state = daemon.state; journal = journal; cache = cache }, err cache_failed)
      else (
        record { state = next; journal = journal; cache = cache },
        if machine.audits then ok tt else err audit_failed,
      )

  abbrev pub after_journal :
      Machine
      → Daemon
      → BrokerState
      → Journal × Journaled JournalRecord
      → Daemon × Result PersistError (Unit {0})
  after_journal machine daemon next (journal, err e) =
      (record daemon { journal = journal }, err (append_failed e))
  after_journal machine daemon next (journal, ok r) = take_state machine daemon next journal

  abbrev pub after_reduce :
      Machine
      → Daemon
      → BrokerCommand
      → Result BrokerError BrokerState
      → Daemon × Result PersistError (Unit {0})
  after_reduce machine daemon command (err e) = (daemon, err (refused_command e))
  after_reduce machine daemon command (ok next) =
      after_journal machine daemon next
        (append codec machine.disk machine.now daemon.journal command)

  abbrev pub after_find :
      Machine
      → Daemon
      → BrokerCommand
      → Option JournalRecord
      → Daemon × Result PersistError (Unit {0})
  after_find machine daemon command (some prior) = (
    daemon,
    if codec.command_text prior.command != codec.command_text command
        then err other_bytes
        else ok tt,
  )
  after_find machine daemon command none =
      after_reduce machine daemon command
        (reduce_broker_state codec.loaders.fold_case daemon.state command)

  unfoldable pub persist :
      Machine → Daemon → BrokerCommand → Daemon × Result PersistError (Unit {0})
  unfolding append take_state find_record
  persist machine daemon command =
      after_find machine daemon command (find_record (command_id command) daemon.journal.records)
