-- ===== src/Journal/Append.antt =====
-- The journal that is open: reading its file, appending a command and closing it (`openJournal` of
-- src/runtime/journal.ts).
use agent_orchestration_star.RunState.Checks.{Loaded}
use agent_orchestration_star.Base.{
  if◌then◌else◌, ◌==◌, ◌!=◌, nat_eq, string_eq, option_eq, length, find, last?, lookup, insert, ok,
  err, ◌>>=◌, ◌>>◌, throw_if, require, ℕ, ◌+◌, String, ◌≡◌, Bool, true, false, Option, none, some,
  List, [], ◌∷◌, ◌++◌,
}
use agent_orchestration_star.RunState.Commands.{BrokerCommand, command_id}
use agent_orchestration_star.RunState.Load.{load_journal_command}
use agent_orchestration_star.Journal.Records.{
  command_refused, conflicting_bytes, journal_closed, inconsistent_index, write_failed,
  JournalDraft, JournalRecord, Codec, Journaled, CommandBytes, parse_records, line_of,
}
use agent_orchestration_star.Journal.Disk.{Disk, Written, append_bytes}

-- The records and the commands' texts in memory, whether it is closed, and the file's content.
pub record Journal : Type 0 where
  pub records : List JournalRecord
  pub index : CommandBytes
  pub closed : Bool
  pub file : List ℕ

-- `records.at(-1)?.record_hash ?? null`.
abbrev pub previous_hash_of : List JournalRecord → Option String
previous_hash_of records = elim (last? records) [ none ↦ none | some r ↦ some r.record_hash ]

abbrev pub close_journal : Journal → Journal
close_journal journal = record journal { closed = true }

-- `records.find(...)` by the id of a command.
unfoldable pub find_record : String → List JournalRecord → Option JournalRecord
find_record id records = find (λ r. command_id r.command == id) records

module _ (codec : Codec) where
  abbrev pub next_seen : CommandBytes → JournalRecord → CommandBytes
  next_seen seen r = insert (command_id r.command) (codec.command_text r.command) seen

  unfoldable pub index_from : CommandBytes → List JournalRecord → CommandBytes
  index_from seen [] = seen
  index_from seen (r ∷ rs) = index_from (next_seen seen r) rs

  -- A file that is not there is read as an empty one.
  unfoldable pub open_journal : List ℕ → Journaled Journal
  unfolding parse_records index_from
  open_journal bytes = do
    records ← parse_records codec bytes
    ok (record { records = records; index = index_from [] records; closed = false; file = bytes })

  abbrev pub draft_of : Journal → BrokerCommand → String → JournalDraft
  draft_of journal command now = record {
    sequence = length journal.records + 1;
    previous_hash = previous_hash_of journal.records;
    command = command;
    recorded_at = now;
  }

  abbrev pub record_of : JournalDraft → JournalRecord
  record_of draft = record {
    sequence = draft.sequence;
    previous_hash = draft.previous_hash;
    command = draft.command;
    recorded_at = draft.recorded_at;
    record_hash = codec.hash_draft draft;
  }

  -- A command whose id is known already: its record, if it is the same command.
  unfoldable pub known_record : Journal → BrokerCommand → String → Journaled JournalRecord
  unfolding find_record
  known_record journal command prior = do
    throw_if (prior != codec.command_text command) conflicting_bytes
    require (find_record (command_id command) journal.records) inconsistent_index

  -- The journal after an append that wrote so much of a record's line.
  abbrev pub after_write : Journal → JournalRecord → Written → Journal × Journaled JournalRecord
  after_write journal r written =
      if written.complete
      then (
        record {
          records = journal.records ++ r ∷ [];
          index = next_seen journal.index r;
          closed = journal.closed;
          file = written.file;
        },
        ok r,
      )
      else (record journal { file = written.file }, err write_failed)

  abbrev pub after_append :
      Journal → JournalRecord → Option Written → Journal × Journaled JournalRecord
  after_append journal r none = (journal, err write_failed)
  after_append journal r (some written) = after_write journal r written

  unfoldable pub write_record : Disk → Journal → JournalRecord → Journal × Journaled JournalRecord
  unfolding append_bytes
  write_record disk journal r =
      after_append journal r (append_bytes disk journal.file (line_of codec r))

  -- What `append` does with a command that its loader accepts, by what the index has for its id.
  abbrev pub after_lookup :
      Disk → String → Journal → BrokerCommand → Option String → Journal × Journaled JournalRecord
  after_lookup disk now journal command (some prior) = (journal, known_record journal command prior)
  after_lookup disk now journal command none =
      write_record disk journal (record_of (draft_of journal command now))

  abbrev pub after_load :
      Disk → String → Journal → Loaded BrokerCommand → Journal × Journaled JournalRecord
  after_load disk now journal (err e) = (journal, err (command_refused e))
  after_load disk now journal (ok durable) =
      after_lookup disk now journal durable (lookup (command_id durable) journal.index)

  unfoldable pub append :
      Disk → String → Journal → BrokerCommand → Journal × Journaled JournalRecord
  unfolding known_record write_record
  append disk now journal command =
      if journal.closed
      then (journal, err journal_closed)
      else after_load disk now journal (load_journal_command codec.loaders command)

  -- The record of a new command.
  abbrev pub new_record : Journal → BrokerCommand → String → JournalRecord
  new_record journal command now = record_of (draft_of journal command now)

  -- The journal with one more record, in memory and in its file.
  abbrev pub grown : Journal → JournalRecord → Journal
  grown journal r = record {
    records = journal.records ++ r ∷ [];
    index = next_seen journal.index r;
    closed = journal.closed;
    file = journal.file ++ line_of codec r;
  }

  -- What an append that returns a record has done: it found the record of a known command, or it
  -- wrote the record of a new one.
  pub data Appended (now : String) (journal next : Journal) (command : BrokerCommand)
      (got : JournalRecord) : Type 0 where
    known :
        (prior : String)
        → lookup (command_id command) journal.index ≡ some prior
        → known_record journal command prior ≡ ok got
        → next ≡ journal
        → Appended now journal next command got
    written :
        lookup (command_id command) journal.index ≡ none
        → got ≡ new_record journal command now
        → next ≡ grown journal got
        → Appended now journal next command got
