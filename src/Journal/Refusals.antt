-- ===== src/Journal/Refusals.antt =====
-- An append that is refused before it writes leaves the journal as it is (src/runtime/journal.ts).
use agent_orchestration_star.Base.{
  nat_eq, string_eq, option_eq, Bool-cases, lookup, ok, err, String, ◌≡◌, sym, ap, ◌≢◌, inl, inr,
  Option, none, some, arith,
}
use agent_orchestration_star.RunState.Commands.{BrokerCommand, command_id}
use agent_orchestration_star.RunState.Checks.{Loaded}
use agent_orchestration_star.RunState.Load.{load_journal_command}
use agent_orchestration_star.Journal.Records.{
  JournalError, write_failed, JournalRecord, Codec, line_of,
}
use agent_orchestration_star.Journal.Disk.{Disk, Written, append_bytes}
use agent_orchestration_star.Journal.Append.{
  Journal, draft_of, record_of, after_append, write_record, after_lookup, after_load, append,
}

module _ (codec : Codec) where
  written_or_failed :
      (journal : Journal) (r : JournalRecord) (written : Option Written) (next : Journal)
      (e : JournalError)
      → after_append codec journal r written ≡ (next, err e)
      → e ≡ write_failed
  written_or_failed journal r none next e h = ground arith
  written_or_failed journal r (some written) next e h = ground arith

  refused_by_lookup :
      (disk : Disk) (now : String) (journal : Journal) (command : BrokerCommand)
      (found : Option String) (next : Journal) (e : JournalError)
      → after_lookup codec disk now journal command found ≡ (next, err e)
      → e ≢ write_failed
      → next ≡ journal
  refused_by_lookup disk now journal command (some prior) next e h other = sym (ap (λ p. p.0) h)
  refused_by_lookup disk now journal command none next e h other =
      let r = record_of codec (draft_of codec journal command now) in
      absurd (
        other (
          unfold write_record in
          written_or_failed journal r (append_bytes disk journal.file (line_of codec r)) next e h))

  refused_by_load :
      (disk : Disk) (now : String) (journal : Journal) (loaded : Loaded BrokerCommand)
      (next : Journal) (e : JournalError)
      → after_load codec disk now journal loaded ≡ (next, err e)
      → e ≢ write_failed
      → next ≡ journal
  refused_by_load disk now journal (err reason) next e h other = sym (ap (λ p. p.0) h)
  refused_by_load disk now journal (ok durable) next e h other =
      refused_by_lookup disk now journal durable (lookup (command_id durable) journal.index) next e
        h other

  -- An append that reports anything but a failed write leaves the journal and its file alone.
  pub append-refused :
      (disk : Disk) (now : String) (journal : Journal) (command : BrokerCommand) (next : Journal)
      (e : JournalError)
      → append codec disk now journal command ≡ (next, err e)
      → e ≢ write_failed
      → next ≡ journal
  unfolding append
  append-refused disk now journal command next e h other = elim (Bool-cases journal.closed) [
    | inl shut ↦ ground arith
    | inr usable ↦
        refused_by_load disk now journal (load_journal_command codec.loaders command) next e
          (ground arith) other
  ]
