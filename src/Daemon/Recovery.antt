-- ===== src/Daemon/Recovery.antt =====
-- The state that a broker recovers from its journal and its cache (`writeBrokerStateCacheV4` and
-- `recoverBrokerStateV4` of src/runtime/run-state.ts).
use agent_orchestration_star.Base.{
  ltb, if◌then◌else◌, ◌!=◌, nat_eq, string_eq, option_eq, length, Result, ok, err, ◌>>=◌, ◌>>◌,
  throw_if, ℕ, zero, suc, String, ◌≡◌, ◌||◌, List, [], ◌∷◌, map,
}
use agent_orchestration_star.RunState.Commands.{BrokerCommand, BrokerError, BrokerState}
use agent_orchestration_star.RunState.Reduce.{replay_broker_state}
use agent_orchestration_star.Journal.Records.{JournalError, JournalRecord, Codec, Journaled}
use agent_orchestration_star.Journal.Append.{open_journal}

pub record StateCache : Type 0 where
  pub sequence : ℕ
  pub state_hash : String
  pub state : BrokerState

-- What is under the cache's path: nothing, a text that is not JSON, or a cache.
pub data CacheFile : Type 0 where
  no_cache broken_cache : CacheFile
  cached : StateCache → CacheFile

-- What a write of the cache does: it is written aside and renamed over the old one, so a failure
-- leaves the old one, or the new one where only the directory's sync throws.
pub data CacheWrite : Type 0 where
  replaced kept_old unsynced : CacheWrite

pub data RecoveryError : Type 0 where
  unreadable_journal : JournalError → RecoveryError
  unreducible_journal : BrokerError → RecoveryError
  cache_not_json cache_out_of_journal cache_disagrees cache_not_written : RecoveryError

pub record Recovered : Type 0 where
  pub state : BrokerState
  pub sequence : ℕ
  pub cache : CacheFile

abbrev pub commands_of : List JournalRecord → List BrokerCommand
commands_of records = map (λ (r : JournalRecord). r.command) records

abbrev pub take_records : ℕ → List JournalRecord → List JournalRecord
take_records zero rs = []
take_records (suc n) [] = []
take_records (suc n) (r ∷ rs) = r ∷ take_records n rs

abbrev pub read_journal : {A : Type 0} → Journaled A → Result RecoveryError A
read_journal (ok a) = ok a
read_journal (err e) = err (unreadable_journal e)

abbrev pub reduce_journal : {A : Type 0} → Result BrokerError A → Result RecoveryError A
reduce_journal (ok a) = ok a
reduce_journal (err e) = err (unreducible_journal e)

module _ (codec : Codec) (hash_state : BrokerState → String) where
  abbrev pub replay_records : List JournalRecord → Result BrokerError BrokerState
  replay_records records = replay_broker_state codec.loaders.fold_case (commands_of records)

  abbrev pub cache_of : BrokerState → ℕ → StateCache
  cache_of state sequence = record {
    sequence = sequence;
    state_hash = hash_state state;
    state = state;
  }

  abbrev pub write_cache : CacheWrite → BrokerState → ℕ → Result RecoveryError CacheFile
  write_cache replaced state sequence = ok (cached (cache_of state sequence))
  write_cache kept_old state sequence = err cache_not_written
  write_cache unsynced state sequence = err cache_not_written

  unfoldable pub check_cache : List JournalRecord → StateCache → Result RecoveryError (Unit {0})
  check_cache records cache = do
    throw_if (ltb (length records) cache.sequence) cache_out_of_journal
    prefix ← reduce_journal (replay_records (take_records cache.sequence records))
    throw_if (cache.state_hash != hash_state prefix || cache.state_hash != hash_state cache.state)
        cache_disagrees

  -- The cache that recovery leaves: a new one where there is none or it lies behind the journal.
  unfoldable pub recover_cache :
      CacheWrite → List JournalRecord → BrokerState → CacheFile → Result RecoveryError CacheFile
  unfolding check_cache
  recover_cache writes records state no_cache = write_cache writes state (length records)
  recover_cache writes records state broken_cache = err cache_not_json
  recover_cache writes records state (cached cache) = do
    check_cache records cache
    (if ltb cache.sequence (length records)
        then write_cache writes state (length records)
        else ok (cached cache))

  unfoldable pub recover_broker_state :
      CacheWrite → List ℕ → CacheFile → Result RecoveryError Recovered
  unfolding open_journal recover_cache
  recover_broker_state writes file cache = do
    journal ← read_journal (open_journal codec file)
    state ← reduce_journal (replay_records journal.records)
    left ← recover_cache writes journal.records state cache
    ok (record { state = state; sequence = length journal.records; cache = left })

  -- A cache that agrees with a journal of its own length.
  abbrev pub Agrees : List JournalRecord → BrokerState → CacheFile → Type 0
  Agrees records state no_cache = ⊥
  Agrees records state broken_cache = ⊥
  Agrees records state (cached cache) =
      (cache.sequence ≡ length records)
      × (cache.state_hash ≡ hash_state state)
      × (cache.state_hash ≡ hash_state cache.state)
