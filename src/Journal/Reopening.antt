-- ===== src/Journal/Reopening.antt =====
-- The journal in memory and its file agree (src/runtime/journal.ts): appends keep the file readable
-- as the records in memory, and appending a command once more changes nothing.
use agent_orchestration_star.Base.{
  nat_beq_iff, nat_eq, string_eq, opt_beq_iff, option_eq, Bool-cases, ==_refl, length, lookup, ok,
  Result-cases, ℕ, suc, ◌+◌, ◌<◌, String, ◌≡◌, refl, sym, ap, ◌∙◌, subst, inl, inr, true, false,
  Option, none, some, List, [], ◌∷◌, ◌++◌, append-nil, arith,
}
use agent_orchestration_star.RunState.Commands.{BrokerCommand, command_id}
use agent_orchestration_star.RunState.Checks.{is_positive, is_identifier, is_hash}
use agent_orchestration_star.RunState.Load.{load_journal_command}
use agent_orchestration_star.RunState.Loading.{
  load_journal_command-IsSound, load_journal_command-identified,
}
use agent_orchestration_star.Journal.Records.{
  JournalRecord, Codec, record_draft, CommandBytes, is_optional_hash, is_record, conflicts,
  admit_record, parse_records, line_of, print_records,
}
use agent_orchestration_star.Journal.Disk.{Disk, append_bytes-ends}
use agent_orchestration_star.Journal.Append.{
  Appended, Journal, next_seen, index_from, open_journal, after_write, after_append, write_record,
  after_lookup, after_load, append, new_record, grown,
}
use agent_orchestration_star.Journal.Chain.{
  Encodes, Follows, Chained, last_hash, Chained-append, previous_hash_of-last_hash,
  print_records-append, parse_records-print_records,
}

-- The file is that of the records, which are chained, and the index has their commands.
pub record IsDurable (codec : Codec) (journal : Journal) : Type 0 where
  pub chained : Chained codec 0 none [] journal.records
  pub printed : journal.file ≡ print_records codec journal.records
  pub indexed : journal.index ≡ index_from codec [] journal.records

-- What an append relies on: the time is a date, the sequence is below the largest that a record may
-- have, a hash is 64 hexadecimal digits, and the new record's text is a line that reads as it.
pub record Fits (codec : Codec) (now : String) (journal : Journal) (command : BrokerCommand)
    : Type 0 where
  pub date : codec.is_date now ≡ true
  pub room : length journal.records < 9007199254740991
  pub hash_form : is_hash (new_record codec journal command now).record_hash ≡ true
  pub encodes : Encodes codec (new_record codec journal command now)

module _ (codec : Codec) where
  last_hash-form :
      (expected : Option String) (index : ℕ) (seen : CommandBytes) (rs : List JournalRecord)
      → is_optional_hash expected ≡ true
      → Chained codec index expected seen rs
      → is_optional_hash (last_hash codec expected rs) ≡ true
  unfolding last_hash
  last_hash-form expected index seen [] h c = h
  last_hash-form expected index seen (r ∷ rs) h (first, c) =
      last_hash-form (some r.record_hash) (suc index) (next_seen codec seen r) rs
        (unfold is_record in let e = first.readable in ground arith) c

  no_conflict :
      (seen : CommandBytes) (command : BrokerCommand)
      → lookup (command_id command) seen ≡ none
      → conflicts codec seen command ≡ false
  unfolding conflicts
  no_conflict seen command fresh = ground arith

  admits :
      (index : ℕ) (expected : Option String) (seen : CommandBytes) (r : JournalRecord)
      → load_journal_command codec.loaders r.command ≡ ok r.command
      → r.sequence ≡ index + 1
      → r.previous_hash ≡ expected
      → codec.hash_draft (record_draft r) ≡ r.record_hash
      → lookup (command_id r.command) seen ≡ none
      → admit_record codec index expected seen r ≡ ok (next_seen codec seen r)
  unfolding admit_record
  admits index expected seen r loads sequence previous hashed fresh =
      rw (hashed, loads, sequence, previous, no_conflict seen r.command fresh)
        (ground (
          arith,
          opt_beq_iff expected expected,
          ==_refl r.record_hash,
          nat_beq_iff (index + 1) (index + 1),
        ))

  readable_of :
      (r : JournalRecord)
      → is_positive r.sequence ≡ true
      → is_optional_hash r.previous_hash ≡ true
      → codec.is_date r.recorded_at ≡ true
      → is_hash r.record_hash ≡ true
      → is_identifier (command_id r.command) ≡ true
      → is_record codec r ≡ true
  unfolding is_record is_identifier
  readable_of r a b c d e = ground arith

  -- The record of a new command follows the journal's records.
  pub new_record-Follows :
      (journal : Journal) (command : BrokerCommand) (now : String)
      → IsDurable codec journal
      → Fits codec now journal command
      → load_journal_command codec.loaders command ≡ ok command
      → lookup (command_id command) journal.index ≡ none
      → Follows codec
          (length journal.records)
          (last_hash codec none journal.records)
          (index_from codec [] journal.records)
          (new_record codec journal command now)
  new_record-Follows journal command now d fits loads fresh =
      let previous = previous_hash_of-last_hash codec journal.records in
      let form = last_hash-form none 0 [] journal.records refl d.chained in
      record {
        encodes = fits.encodes;
        readable =
            readable_of (new_record codec journal command now) (ground arith)
              (subst (λ h. is_optional_hash h ≡ true) (sym previous) form) fits.date fits.hash_form
              (load_journal_command-identified codec.loaders command command loads);
        admitted =
            admits (length journal.records) (last_hash codec none journal.records)
              (index_from codec [] journal.records) (new_record codec journal command now) loads
              refl previous refl (ap (λ l. lookup (command_id command) l) (sym d.indexed) ∙ fresh);
      }

  write_record-grown :
      (disk : Disk) (journal : Journal) (r : JournalRecord) (next : Journal) (got : JournalRecord)
      → write_record codec disk journal r ≡ (next, ok got)
      → (got ≡ r) × (next ≡ grown codec journal r)
  unfolding write_record
  write_record-grown disk journal r next got h =
      let (written, ends, e) = append_bytes-ends disk journal.file (line_of codec r) in
      let ended : after_write codec journal r written ≡ (next, ok got) =
        sym (ap (after_append codec journal r) ends) ∙ h in
      elim (Bool-cases written.complete) [
        | inl complete ↦
            let all_there : e.beginning ≡ line_of codec r =
              sym (append-nil e.beginning)
              ∙ ap (λ l. e.beginning ++ l) (sym (e.whole complete))
              ∙ e.parts in
            let content : written.file ≡ journal.file ++ line_of codec r =
              e.grows ∙ ap (λ l. journal.file ++ l) all_there in
            ground arith
        | inr partial ↦ absurd (ground arith)
      ]

  index_from-append :
      (seen : CommandBytes) (rs : List JournalRecord) (r : JournalRecord)
      → index_from codec seen (rs ++ r ∷ []) ≡ next_seen codec (index_from codec seen rs) r
  unfolding index_from
  index_from-append seen [] r = refl
  index_from-append seen (q ∷ rs) r = index_from-append (next_seen codec seen q) rs r

  pub grown-IsDurable :
      (journal : Journal) (r : JournalRecord)
      → IsDurable codec journal
      → Follows codec
          (length journal.records)
          (last_hash codec none journal.records)
          (index_from codec [] journal.records)
          r
      → IsDurable codec (grown codec journal r)
  grown-IsDurable journal r d follows = record {
    chained = Chained-append codec 0 none [] journal.records r d.chained (
        subst
          (λ n.
            Follows codec n (last_hash codec none journal.records)
              (index_from codec [] journal.records) r)
          (omega arith) follows);
    printed =
        ap (λ l. l ++ line_of codec r) d.printed
        ∙ sym (print_records-append codec journal.records r);
    indexed =
        ap (λ l. next_seen codec l r) d.indexed ∙ sym (index_from-append [] journal.records r);
  }

  after_lookup-Appended :
      (disk : Disk) (now : String) (journal : Journal) (command : BrokerCommand)
      (found : Option String) (next : Journal) (got : JournalRecord)
      → lookup (command_id command) journal.index ≡ found
      → after_lookup codec disk now journal command found ≡ (next, ok got)
      → Appended codec now journal next command got
  after_lookup-Appended disk now journal command none next got fresh h =
      let (same, grows) =
        write_record-grown disk journal (new_record codec journal command now) next got h in
      Appended.written fresh same (grows ∙ ap (grown codec journal) (sym same))
  after_lookup-Appended disk now journal command (some prior) next got found h =
      Appended.known prior found (ap (λ p. p.1) h) (sym (ap (λ p. p.0) h))

  pub append_inversion :
      (disk : Disk) (now : String) (journal : Journal) (command : BrokerCommand) (next : Journal)
      (got : JournalRecord)
      → append codec disk now journal command ≡ (next, ok got)
      → (journal.closed ≡ false)
        × (load_journal_command codec.loaders command ≡ ok command)
        × Appended codec now journal next command got
  unfolding append
  append_inversion disk now journal command next got h = elim (Bool-cases journal.closed) [
    | inl shut ↦ absurd (ground arith)
    | inr usable ↦
        let e : after_load codec disk now journal (load_journal_command codec.loaders command)
            ≡ (next, ok got) =
          ground arith in
        elim (Result-cases (load_journal_command codec.loaders command)) [
          | inr (reason, refused) ↦
              absurd (ground (arith, ap (after_load codec disk now journal) refused))
          | inl (loaded, accepted) ↦
              let (same, _) = load_journal_command-IsSound codec.loaders command loaded accepted in
              let accepts : load_journal_command codec.loaders command ≡ ok command =
                accepted ∙ ap ok same in
              (
                usable,
                accepts,
                after_lookup-Appended disk now journal command
                    (lookup (command_id command) journal.index) next got refl
                    (sym (ap (after_load codec disk now journal) accepts) ∙ e),
              )
        ]
  ]

  -- An append that returns a record keeps the file that of the chained records in memory, given a
  -- date as the time and fewer records than the largest safe integer.
  pub append-IsDurable :
      (disk : Disk) (now : String) (journal : Journal) (command : BrokerCommand) (next : Journal)
      (got : JournalRecord)
      → IsDurable codec journal
      → Fits codec now journal command
      → append codec disk now journal command ≡ (next, ok got)
      → IsDurable codec next
  append-IsDurable disk now journal command next got d fits h =
      let (_, loads, appended) = append_inversion disk now journal command next got h in
      elim appended [
        | Appended.known prior found same unchanged ↦ subst (IsDurable codec) (sym unchanged) d
        | Appended.written fresh same grows ↦ subst (IsDurable codec) (sym grows) (
            subst (λ r. IsDurable codec (grown codec journal r)) (sym same)
              (grown-IsDurable journal (new_record codec journal command now) d
                (new_record-Follows journal command now d fits loads fresh)))
      ]

  -- A durable journal's file opens as its records and their commands.
  pub open_journal-IsDurable :
      (journal : Journal)
      → IsDurable codec journal
      → open_journal codec journal.file ≡ ok (record journal { closed = false })
  unfolding open_journal
  open_journal-IsDurable journal d =
      let read : parse_records codec journal.file ≡ ok journal.records =
        ap (parse_records codec) d.printed
        ∙ parse_records-print_records codec journal.records d.chained in
      rw (read, d.indexed) refl
