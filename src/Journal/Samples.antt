-- ===== src/Journal/Samples.antt =====
-- A codec that knows one record, and journals of it: inputs of the tests.
use agent_orchestration_star.Base.{
  if◌then◌else◌, ◌==◌, nat_eq, string_eq, option_eq, lookup, insert, ok, codes, equal_codes, ℕ, ◌≡◌,
  refl, true, false, none, List, [], arith,
}
use agent_orchestration_star.RunState.Commands.{command_id}
use agent_orchestration_star.RunState.Checks.{is_identifier, is_run_id, is_hash}
use agent_orchestration_star.RunState.Load.{Loaders, load_journal_command}
use agent_orchestration_star.Journal.Records.{
  Parsed, no_json, a_record, JournalRecord, Codec, print_records,
}
use agent_orchestration_star.Journal.Disk.{Disk, write_round, write_loop, append_bytes}
use agent_orchestration_star.Journal.Append.{
  Journal, index_from, known_record, write_record, append, grown,
}
use agent_orchestration_star.Journal.Reopening.{IsDurable, Fits}
use agent_orchestration_star.Journal.Faults.{whole_write}
use agent_orchestration_star.Samples.{hash64, starting}

abbrev pub plain_loaders : Loaders
plain_loaders = record {
  hash_verdict = λ _. hash64;
  contract_loads = λ _. true;
  result_loads = λ _. true;
  fold_case = λ s. s;
}

abbrev pub first : JournalRecord
first = record {
  sequence = 1;
  previous_hash = none;
  command = starting;
  recorded_at = "now";
  record_hash = hash64;
}

-- The first record is written as a 1, any other as a 2.
abbrev pub decode_digit : List ℕ → Parsed
decode_digit line = if equal_codes line (codes "1") then a_record first else no_json

abbrev pub codec : Codec
codec = record {
  decode = decode_digit;
  encode = λ r. if r.sequence == 1 then codes "1" else codes "2";
  command_text = λ c. command_id c;
  hash_draft = λ _. hash64;
  is_date = λ _. true;
  loaders = plain_loaders;
}

abbrev pub empty : Journal
empty = record { records = []; index = []; closed = false; file = [] }

pub empty-IsDurable : IsDurable codec empty
unfolding print_records index_from
empty-IsDurable = record { chained = tt; printed = refl; indexed = refl }

pub starting_loads : load_journal_command plain_loaders starting ≡ ok starting
unfolding load_journal_command is_identifier is_hash is_run_id
starting_loads = refl

pub first-Fits : Fits codec "now" empty starting
unfolding is_hash
first-Fits = record {
  date = refl;
  room = omega arith;
  hash_form = refl;
  encodes = record { reads = refl; one_line = refl; some_text = λ h. cc };
}

pub first_fresh : lookup "c1" empty.index ≡ none
unfolding lookup
first_fresh = refl

-- The journal with the first record.
abbrev pub one : Journal
one = grown codec empty first

abbrev pub good_disk : Disk
good_disk = whole_write 2 false

pub first_appended : append codec good_disk "now" empty starting ≡ (one, ok first)
unfolding append load_journal_command is_identifier is_hash is_run_id lookup insert write_record
    append_bytes write_loop write_round known_record
first_appended = refl
