-- ===== src/Journal/Tests.antt =====
-- The journal's theorems at a journal of one record.
use agent_orchestration_star.Base.{
  nat_eq, string_eq, option_eq, ok, codes, ◌≡◌, false, some, [], ◌∷◌,
}
use agent_orchestration_star.Journal.Records.{parse_records, print_records}
use agent_orchestration_star.Journal.Disk.{Disk, Written, Extends, append_bytes, append_bytes-ends}
use agent_orchestration_star.Journal.Append.{Journal, index_from, open_journal, append}
use agent_orchestration_star.Journal.Chain.{last_hash, parse_records-print_records}
use agent_orchestration_star.Journal.Reopening.{
  IsDurable, new_record-Follows, append-IsDurable, open_journal-IsDurable,
}
use agent_orchestration_star.Journal.Repeat.{append-again}
use agent_orchestration_star.Journal.Samples.{
  plain_loaders, first, codec, empty, empty-IsDurable, starting_loads, first-Fits, first_fresh, one,
  good_disk, first_appended,
}
use agent_orchestration_star.Samples.{starting}
use agent_orchestration_star.RunState.Loading.{IsSound, load_journal_command-IsSound}

load_journal_command-IsSound_example : (starting ≡ starting) × IsSound plain_loaders starting
load_journal_command-IsSound_example =
    load_journal_command-IsSound plain_loaders starting starting starting_loads

append_bytes-ends_example :
    (written : Written) × (append_bytes good_disk [] (codes "1\n") ≡ some written)
    × Extends [] (codes "1\n") written
append_bytes-ends_example = append_bytes-ends good_disk [] (codes "1\n")

parse_records-print_records_example :
    parse_records codec (print_records codec (first ∷ [])) ≡ ok (first ∷ [])
unfolding last_hash index_from
parse_records-print_records_example = parse_records-print_records codec (first ∷ []) (
  new_record-Follows codec empty starting "now" empty-IsDurable first-Fits starting_loads
      first_fresh,
  tt,
)

append-IsDurable_example : IsDurable codec one
append-IsDurable_example =
    append-IsDurable codec good_disk "now" empty starting one first empty-IsDurable first-Fits
      first_appended

append-again_example : append codec good_disk "later" one starting ≡ (one, ok first)
append-again_example =
    append-again codec good_disk good_disk "now" "later" empty starting one first empty-IsDurable
      first_appended

open_journal-IsDurable_example : open_journal codec one.file ≡ ok (record one { closed = false })
open_journal-IsDurable_example = open_journal-IsDurable codec one append-IsDurable_example
