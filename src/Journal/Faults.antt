-- ===== src/Journal/Faults.antt =====
-- An append whose sync fails after its line was written (src/runtime/journal.ts): the record is in
-- the file and not in memory, so the next append writes a second record under the same number.
use agent_orchestration_star.Base.{nat_eq, string_eq, option_eq, ℕ, Bool, List, ◌++◌}
use agent_orchestration_star.Journal.Records.{JournalRecord, Codec, line_of}
use agent_orchestration_star.Journal.Disk.{wrote, Disk}
use agent_orchestration_star.Journal.Append.{Journal}

-- A disk that takes a whole line in one write; its sync succeeds, or throws.
abbrev pub whole_write : ℕ → Bool → Disk
whole_write size sync_throws = record { write = λ _. wrote size; sync_throws = sync_throws }

module _ (codec : Codec) where
  -- The record in the file of a failed append, and the journal that lost it.
  abbrev pub lost : Journal → JournalRecord → Journal
  lost journal r = record journal { file = journal.file ++ line_of codec r }
