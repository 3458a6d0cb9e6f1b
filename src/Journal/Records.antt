-- ===== src/Journal/Records.antt =====
-- The records of the journal and how its file is read (`parseRecords` of src/runtime/journal.ts).
use agent_orchestration_star.Base.{
  leb, nat_beq, if◌then◌else◌, ◌!=◌, nat_eq, string_eq, option_eq, length, lookup, insert, Result,
  ok, err, ◌>>=◌, ◌>>◌, throw_if, text_length, split_on, equal_codes, ends_with, ℕ, suc, ◌+◌,
  String, Bool, true, false, not, ◌&&◌, Option, none, some, List, [], ◌∷◌, ◌++◌,
}
use agent_orchestration_star.RunState.Commands.{BrokerCommand, command_id}
use agent_orchestration_star.RunState.Checks.{LoadError, Loaded, is_positive, is_hash}
use agent_orchestration_star.RunState.Load.{Loaders, load_journal_command}

pub record JournalDraft : Type 0 where
  pub sequence : ℕ
  pub previous_hash : Option String
  pub command : BrokerCommand
  pub recorded_at : String

pub record JournalRecord : Type 0 where
  pub sequence : ℕ
  pub previous_hash : Option String
  pub command : BrokerCommand
  pub recorded_at : String
  pub record_hash : String

abbrev pub record_draft : JournalRecord → JournalDraft
record_draft r = record {
  sequence = r.sequence;
  previous_hash = r.previous_hash;
  command = r.command;
  recorded_at = r.recorded_at;
}

-- `BROKER_STATE_CORRUPT`, by the call that raises it.
pub data JournalError : Type 0 where
  partial_trailing_record empty_record not_json invalid_bytes not_canonical : JournalError
  command_refused : LoadError → JournalError
  broken_sequence broken_previous_hash broken_record_hash conflicting_bytes : JournalError
  journal_closed inconsistent_index write_failed : JournalError

-- What `JSON.parse` makes of a line: nothing, a value of another shape, or a record.
pub data Parsed : Type 0 where
  no_json other_value : Parsed
  a_record : JournalRecord → Parsed

-- The journal's view of JSON, hashes and dates: `JSON.parse`, the canonical text of a record and of
-- a command and the hash of a draft (src/runtime/canonical.ts), `Date.parse`, and the loaders.
pub record Codec : Type 0 where
  pub decode : List ℕ → Parsed
  pub encode : JournalRecord → List ℕ
  pub command_text : BrokerCommand → String
  pub hash_draft : JournalDraft → String
  pub is_date : String → Bool
  pub loaders : Loaders

abbrev pub Journaled : Type 0 → Type 0
Journaled A = Result JournalError A

-- The ids and the texts of the commands read so far.
abbrev pub CommandBytes : Type 0
CommandBytes = List (String × String)

abbrev pub is_optional_hash : Option String → Bool
is_optional_hash none = true
is_optional_hash (some h) = is_hash h

-- `slice(0, -1)`.
abbrev pub without_last : List ℕ → List ℕ
without_last [] = []
without_last (c ∷ []) = []
without_last (c ∷ d ∷ cs) = c ∷ without_last (d ∷ cs)

abbrev pub newline : ℕ
newline = 10

abbrev pub as_journaled : {A : Type 0} → Loaded A → Journaled A
as_journaled (ok a) = ok a
as_journaled (err e) = err (command_refused e)

module _ (codec : Codec) where
  -- The tests of `isRecord` on the fields of a value that has a record's shape.
  unfoldable pub is_record : JournalRecord → Bool
  unfolding text_length
  is_record r =
      is_positive r.sequence
      && is_optional_hash r.previous_hash
      && codec.is_date r.recorded_at
      && is_hash r.record_hash
      && leb 1 (text_length (command_id r.command))

  unfoldable pub read_line : List ℕ → Journaled JournalRecord
  read_line line = do
    throw_if (nat_beq (length line) 0) empty_record
    parsed ← elim (codec.decode line) [
      | no_json ↦ err not_json
      | other_value ↦ err invalid_bytes
      | a_record r ↦ ok r
    ]
    throw_if (not (is_record parsed)) invalid_bytes
    throw_if (not (equal_codes (codec.encode parsed) line)) not_canonical
    ok parsed

  -- Whether the text of this command contradicts one recorded under its id.
  unfoldable pub conflicts : CommandBytes → BrokerCommand → Bool
  conflicts seen command = elim (lookup (command_id command) seen) [
    | none ↦ false
    | some text ↦ text != codec.command_text command
  ]

  -- The checks of a record against those before it: `index` of them, the last with the hash
  -- `expected`.
  unfoldable pub admit_record :
      ℕ → Option String → CommandBytes → JournalRecord → Journaled CommandBytes
  admit_record index expected seen r = do
    loaded ← as_journaled (load_journal_command codec.loaders r.command)
    throw_if (r.sequence != index + 1) broken_sequence
    throw_if (r.previous_hash != expected) broken_previous_hash
    throw_if (codec.hash_draft (record_draft r) != r.record_hash) broken_record_hash
    throw_if (conflicts seen r.command) conflicting_bytes
    ok (insert (command_id r.command) (codec.command_text r.command) seen)

  unfoldable pub parse_lines :
      ℕ → Option String → CommandBytes → List (List ℕ) → Journaled (List JournalRecord)
  unfolding read_line admit_record
  parse_lines index expected seen [] = ok []
  parse_lines index expected seen (line ∷ lines) = do
    r ← read_line line
    now_seen ← admit_record index expected seen r
    rest ← parse_lines (suc index) (some r.record_hash) now_seen lines
    ok (r ∷ rest)

  unfoldable pub parse_records : List ℕ → Journaled (List JournalRecord)
  unfolding parse_lines split_on
  parse_records bytes =
      if nat_beq (length bytes) 0
      then ok []
      else (if not (ends_with (newline ∷ []) bytes)
          then err partial_trailing_record
          else parse_lines 0 none [] (split_on newline (without_last bytes)))

  -- The line that a record is written as, and a file of them.
  abbrev pub line_of : JournalRecord → List ℕ
  line_of r = codec.encode r ++ newline ∷ []

  unfoldable pub print_records : List JournalRecord → List ℕ
  print_records [] = []
  print_records (r ∷ rs) = line_of r ++ print_records rs
