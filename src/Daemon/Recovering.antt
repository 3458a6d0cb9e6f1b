-- ===== src/Daemon/Recovering.antt =====
-- What recovery gives (src/runtime/run-state.ts): the state that the journal reduces to, whatever
-- the cache says, and, after a restart, the state that the daemon had.
use agent_orchestration_star.Base.{
  ltb, nat_eq, string_eq, option_eq, Bool-cases, ==_refl, ==_eq, length, Result, ok, err,
  >>=-inversion, guard_inversion, ok-injective, ℕ, ◌≤◌, String, ◌≡◌, refl, sym, ap, ◌∙◌, subst, inl,
  inr, false, List, [], ◌∷◌, arith,
}
use agent_orchestration_star.RunState.Commands.{BrokerError, BrokerState}
use agent_orchestration_star.Journal.Records.{JournalRecord, Codec, Journaled}
use agent_orchestration_star.Journal.Append.{Journal, open_journal}
use agent_orchestration_star.Journal.Reopening.{open_journal-IsDurable}
use agent_orchestration_star.Daemon.Recovery.{
  CacheFile, no_cache, broken_cache, cached, CacheWrite, replaced, kept_old, unsynced,
  cache_out_of_journal, StateCache, Recovered, take_records, read_journal, reduce_journal,
  replay_records, cache_of, write_cache, check_cache, recover_cache, recover_broker_state, Agrees,
}
use agent_orchestration_star.Daemon.Persist.{Daemon}
use agent_orchestration_star.Daemon.Current.{IsCurrent}

module _ (codec : Codec) (hash_state : BrokerState → String) where
  take_records_all : (rs : List JournalRecord) → take_records (length rs) rs ≡ rs
  take_records_all [] = refl
  take_records_all (r ∷ rs) = ap (λ l. r ∷ l) (take_records_all rs)

  read_journal_inversion :
      {A : Type 0} (read : Journaled A) (a : A) → read_journal read ≡ ok a → read ≡ ok a
  read_journal_inversion (ok b) a h = ground arith
  read_journal_inversion (err e) a h = absurd (ground arith)

  reduce_journal_inversion :
      {A : Type 0} (reduced : Result BrokerError A) (a : A)
      → reduce_journal reduced ≡ ok a
      → reduced ≡ ok a
  reduce_journal_inversion (ok b) a h = ground arith
  reduce_journal_inversion (err e) a h = absurd (ground arith)

  write_cache-Agrees :
      (writes : CacheWrite) (records : List JournalRecord) (state : BrokerState) (cache : CacheFile)
      → write_cache codec hash_state writes state (length records) ≡ ok cache
      → Agrees codec hash_state records state cache
  write_cache-Agrees replaced records state cache h =
      subst (Agrees codec hash_state records state) (ok-injective h) (refl, refl, refl)
  write_cache-Agrees kept_old records state cache h = absurd (ground arith)
  write_cache-Agrees unsynced records state cache h = absurd (ground arith)

  recover_cache-Agrees :
      (writes : CacheWrite) (records : List JournalRecord) (state : BrokerState)
      (cache left : CacheFile)
      → replay_records codec hash_state records ≡ ok state
      → recover_cache codec hash_state writes records state cache ≡ ok left
      → Agrees codec hash_state records state left
  unfolding recover_cache check_cache
  recover_cache-Agrees writes records state no_cache left replays h =
      write_cache-Agrees writes records state left h
  recover_cache-Agrees writes records state broken_cache left replays h = absurd (ground arith)
  recover_cache-Agrees writes records state (cached cache) left replays h =
      let (_, checked, rest) = >>=-inversion (check_cache codec hash_state records cache) _ h in
      let (within, e1) =
        guard_inversion (ltb (length records) cache.sequence) cache_out_of_journal _ checked in
      let (prefix, replayed, e2) =
        >>=-inversion
          (reduce_journal (replay_records codec hash_state (take_records cache.sequence records))) _
          e1 in
      elim (Bool-cases (ltb cache.sequence (length records))) [
        | inl behind ↦ write_cache-Agrees writes records state left (ground arith)
        | inr level ↦
            let full : cache.sequence ≡ length records = ground arith in
            let whole : take_records cache.sequence records ≡ records =
              ap (λ n. take_records n records) full ∙ take_records_all records in
            let same : prefix ≡ state = ok-injective (
              sym (reduce_journal_inversion _ prefix replayed)
              ∙ ap (replay_records codec hash_state) whole
              ∙ replays) in
            let kept : cached cache ≡ left = ground arith in
            subst (Agrees codec hash_state records state) kept
              (full, ==_eq (ground arith) ∙ ap hash_state same, ==_eq (ground arith))
      ]

  -- Recovery that succeeds gives the state that the journal in the file reduces to and the number
  -- of its records, whatever cache it found, and leaves a cache of that number with that state's
  -- hash, which is also the hash of the state it holds.
  pub recover_broker_state-replays :
      (writes : CacheWrite) (file : List ℕ) (cache : CacheFile) (recovered : Recovered)
      → recover_broker_state codec hash_state writes file cache ≡ ok recovered
      → (journal : Journal) × (open_journal codec file ≡ ok journal)
        × (replay_records codec hash_state journal.records ≡ ok recovered.state)
        × (recovered.sequence ≡ length journal.records)
        × Agrees codec hash_state journal.records recovered.state recovered.cache
  unfolding recover_broker_state
  recover_broker_state-replays writes file cache recovered h =
      let (journal, opens, e1) = >>=-inversion (read_journal (open_journal codec file)) _ h in
      let (state, reduces, e2) =
        >>=-inversion (reduce_journal (replay_records codec hash_state journal.records)) _ e1 in
      let (left, leaves, e3) =
        >>=-inversion (recover_cache codec hash_state writes journal.records state cache) _ e2 in
      let replays =
        reduce_journal_inversion (replay_records codec hash_state journal.records) state reduces in
      let e = ok-injective e3 in
      (
        journal,
        read_journal_inversion (open_journal codec file) journal opens,
        replays ∙ ap (λ (r : Recovered). ok r.state) e,
        sym (ap (λ (r : Recovered). r.sequence) e),
        subst (λ (r : Recovered). Agrees codec hash_state journal.records r.state r.cache) e
            (recover_cache-Agrees writes journal.records state cache left replays leaves),
      )

  -- The cache that a persisted command leaves, or any prefix of the journal had.
  abbrev pub IsPrefixCache : List JournalRecord → CacheFile → Type 0
  IsPrefixCache records no_cache = Unit
  IsPrefixCache records broken_cache = ⊥
  IsPrefixCache records (cached cache) =
      (n : ℕ) × (before : BrokerState) × (n ≤ length records)
      × (replay_records codec hash_state (take_records n records) ≡ ok before)
      × (cache ≡ cache_of codec hash_state before n)

  check_cache-prefix :
      (records : List JournalRecord) (n : ℕ) (before : BrokerState)
      → n ≤ length records
      → replay_records codec hash_state (take_records n records) ≡ ok before
      → check_cache codec hash_state records (cache_of codec hash_state before n) ≡ ok tt
  unfolding check_cache
  check_cache-prefix records n before short replays =
      let inside : ltb (length records) n ≡ false = ground arith in
      rw (inside, replays, ==_refl (hash_state before)) refl

  checked_cache-some :
      (records : List JournalRecord) (state : BrokerState) (cache : StateCache)
      → check_cache codec hash_state records cache ≡ ok tt
      → (left : CacheFile) × (recover_cache codec hash_state replaced records state (cached cache)
          ≡ ok left)
  unfolding recover_cache
  checked_cache-some records state cache checked =
      elim (Bool-cases (ltb cache.sequence (length records))) [
        | inl behind ↦
            (cached (cache_of codec hash_state state (length records)), ground (arith, checked))
        | inr level ↦ (cached cache, ground (arith, checked))
      ]

  recover_cache-some :
      (records : List JournalRecord) (state : BrokerState) (cache : CacheFile)
      → IsPrefixCache records cache
      → (left : CacheFile) × (recover_cache codec hash_state replaced records state cache ≡ ok left)
  unfolding recover_cache
  recover_cache-some records state no_cache h =
      (cached (cache_of codec hash_state state (length records)), refl)
  recover_cache-some records state broken_cache h = elim h [ ]
  recover_cache-some records state (cached cache) (n, before, short, replays, same) =
      checked_cache-some records state cache (
        ap (check_cache codec hash_state records) same
        ∙ check_cache-prefix records n before short replays)

  -- A daemon whose state is the replay of its journal is restarted from its files: with any cache
  -- that some prefix of the journal left, or none, and a disk that takes a cache, recovery gives
  -- its state again.
  pub recover-IsCurrent :
      (daemon : Daemon)
      → IsCurrent codec hash_state daemon
      → IsPrefixCache daemon.journal.records daemon.cache
      → (left : CacheFile) × (recover_broker_state codec hash_state replaced daemon.journal.file
            daemon.cache
          ≡ ok (record {
            state = daemon.state;
            sequence = length daemon.journal.records;
            cache = left;
          }))
  unfolding recover_broker_state
  recover-IsCurrent daemon h prefix =
      let (left, leaves) =
        recover_cache-some daemon.journal.records daemon.state daemon.cache prefix in
      (left, rw (open_journal-IsDurable codec daemon.journal h.durable, h.replayed, leaves) refl)
