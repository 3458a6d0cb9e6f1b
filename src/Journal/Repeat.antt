-- ===== src/Journal/Repeat.antt =====
-- A command appended once more (src/runtime/journal.ts).
use agent_orchestration_star.Base.{
  nat_eq, string_eq, option_eq, ==_refl, lookup, lookup-insert, lookup-insert_self, ok, String, ◌≡◌,
  refl, sym, ap, ◌∙◌, subst, false, none, some, List, [], ◌∷◌, ◌++◌, arith,
}
use agent_orchestration_star.RunState.Commands.{BrokerCommand, command_id}
use agent_orchestration_star.RunState.Load.{load_journal_command}
use agent_orchestration_star.Journal.Records.{JournalRecord, Codec, CommandBytes}
use agent_orchestration_star.Journal.Disk.{Disk}
use agent_orchestration_star.Journal.Append.{
  Appended, Journal, find_record, next_seen, index_from, known_record, after_lookup, after_load,
  append,
}
use agent_orchestration_star.Journal.Reopening.{IsDurable, append_inversion}
use text.Mathlib.TextEquality.{eq_iff}

module _ (codec : Codec) where
  find_record-append :
      (id : String) (rs : List JournalRecord) (r : JournalRecord)
      → find_record id rs ≡ none
      → command_id r.command ≡ id
      → find_record id (rs ++ r ∷ []) ≡ some r
  unfolding find_record
  find_record-append id [] r h e = ground (arith, eq_iff (command_id r.command) id)
  find_record-append id (q ∷ rs) r h e = ground (arith, find_record-append id rs r)

  -- An id that the index lacks is that of no record.
  find_record-none :
      (id : String) (seen : CommandBytes) (rs : List JournalRecord)
      → lookup id (index_from codec seen rs) ≡ none
      → (find_record id rs ≡ none) × (lookup id seen ≡ none)
  unfolding find_record index_from
  find_record-none id seen [] h = (refl, h)
  find_record-none id seen (r ∷ rs) h =
      let (later, earlier) = find_record-none id (next_seen codec seen r) rs h in
      ground (arith, lookup-insert (command_id r.command) id (codec.command_text r.command) seen)

  pub known-found :
      (now : String) (journal next : Journal) (command : BrokerCommand) (got : JournalRecord)
      → IsDurable codec journal
      → Appended codec now journal next command got
      → (prior : String) × (lookup (command_id command) next.index ≡ some prior)
        × (known_record codec next command prior ≡ ok got)
  unfolding known_record
  known-found now journal next command got d (Appended.known prior found same unchanged) =
      subst
        (λ (j : Journal).
          (p : String) × (lookup (command_id command) j.index ≡ some p)
          × (known_record codec j command p ≡ ok got))
        (sym unchanged) (prior, found, same)
  known-found now journal next command got d (Appended.written fresh same grows) =
      let (missing, _) =
        find_record-none (command_id command) [] journal.records
          (ap (λ l. lookup (command_id command) l) (sym d.indexed) ∙ fresh) in
      let found : find_record (command_id command) (journal.records ++ got ∷ []) ≡ some got =
        find_record-append (command_id command) journal.records got missing
          (ap (λ (r : JournalRecord). command_id r.command) same) in
      (
        codec.command_text got.command,
        rw (grows, same)
            (lookup-insert_self (command_id command) (codec.command_text command) journal.index),
        rw grows (rw found (ground (arith, same, ==_refl (codec.command_text command)))),
      )

  append_known :
      (disk : Disk) (now : String) (journal : Journal) (command : BrokerCommand) (prior : String)
      → journal.closed ≡ false
      → load_journal_command codec.loaders command ≡ ok command
      → lookup (command_id command) journal.index ≡ some prior
      → append codec disk now journal command ≡ (journal, known_record codec journal command prior)
  unfolding append
  append_known disk now journal command prior usable loads known =
      let loaded = ap (after_load codec disk now journal) loads in
      let looked = ap (after_lookup codec disk now journal command) known in
      ground (arith, loaded, looked)

  still_usable :
      (now : String) (journal next : Journal) (command : BrokerCommand) (got : JournalRecord)
      → journal.closed ≡ false
      → Appended codec now journal next command got
      → next.closed ≡ false
  still_usable now journal next command got usable (Appended.known prior found same unchanged) =
      ap (λ (j : Journal). j.closed) unchanged ∙ usable
  still_usable now journal next command got usable (Appended.written fresh same grows) =
      ap (λ (j : Journal). j.closed) grows ∙ usable

  -- A command whose append returned a record is appended again to no effect: whatever the disk and
  -- the time, the journal stays as it is, its file included, and the same record is returned.
  pub append-again :
      (disk again : Disk) (now later : String) (journal : Journal) (command : BrokerCommand)
      (next : Journal) (got : JournalRecord)
      → IsDurable codec journal
      → append codec disk now journal command ≡ (next, ok got)
      → append codec again later next command ≡ (next, ok got)
  append-again disk again now later journal command next got d h =
      let (usable, loads, appended) = append_inversion codec disk now journal command next got h in
      let (prior, known, found) = known-found now journal next command got d appended in
      append_known again later next command prior
        (still_usable now journal next command got usable appended) loads known
      ∙ ap (λ r. (next, r)) found
