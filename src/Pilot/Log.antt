-- ===== src/Pilot/Log.antt =====
-- The append-only log of events and its active events (src/pilot/event-store.ts).
use agent_orchestration_star.Base.{
  add, if◌then◌else◌, ◌==◌, ◌!=◌, nat_eq, string_eq, option_eq, all, filter, find, elem, lookup,
  insert, or_else, get_or, Result, ok, ◌>>=◌, ◌>>◌, throw_if, require, ℕ, ◌+◌, String, not, Option,
  none, some, List, [], ◌∷◌, ◌++◌,
}
use agent_orchestration_star.Pilot.Events.{Payload, event_invalidated, Supersession, PilotEvent}
use agent_orchestration_star.Pilot.Errors.{
  PilotError, unsafe_event, duplicate_event_id, sequence_not_contiguous, unknown_superseded_event,
  superseded_hash_mismatch, unknown_invalidated_event, invalidated_hash_mismatch,
  event_id_with_different_content,
}
use agent_orchestration_star.Pilot.Codec.{Codec}

-- `new Map(log.map((e) => [e.event_id, e])).get(id)`: of two equal ids, the later.
unfoldable pub known_event : String → List PilotEvent → Option PilotEvent
known_event id [] = none
known_event id (event ∷ events) =
    or_else (known_event id events) (if event.event_id == id then some event else none)

-- `nextSequenceByBlock.get(block_id) ?? 1`.
abbrev pub next_sequence : List (String × ℕ) → String → ℕ
next_sequence counters block_id = get_or (lookup block_id counters) 1

-- The number that the log's next event of a block takes: `reduce((count, …) => …, 1)`.
unfoldable pub expected_sequence : String → List PilotEvent → ℕ
expected_sequence block_id [] = 1
expected_sequence block_id (event ∷ events) =
    expected_sequence block_id events + (if event.block_id == block_id then 1 else 0)

-- An invalidation that is not itself invalidated retires its target; it is never active.
abbrev pub mark_invalidation : List String → PilotEvent → Payload → List String
mark_invalidation inactive event (event_invalidated invalidation) = add event.event_id (
    if elem event.event_id inactive
    then inactive
    else add invalidation.invalidated_event_id inactive)
mark_invalidation inactive event _ = inactive

abbrev pub superseded_by : Option Supersession → List String → List String
superseded_by none inactive = inactive
superseded_by (some supersession) inactive = add supersession.supersedes_event_id inactive

unfoldable pub mark_superseded : List String → PilotEvent → List String
mark_superseded inactive event =
    if elem event.event_id inactive then inactive else superseded_by event.supersession inactive

-- The loop over the log that retires what an active event supersedes.
unfoldable pub retire_superseded : List String → List PilotEvent → List String
unfolding mark_superseded
retire_superseded inactive [] = inactive
retire_superseded inactive (event ∷ events) =
    retire_superseded (mark_superseded inactive event) events

module _ (codec : Codec) where
  abbrev pub supersession_known :
      List PilotEvent → Option Supersession → Result PilotError (Unit {0})
  unfolding known_event
  supersession_known log none = ok tt
  supersession_known log (some supersession) = do
    superseded ← require (known_event supersession.supersedes_event_id log) unknown_superseded_event
    throw_if (supersession.expected_superseded_event_content_hash != codec.hash_event superseded)
        superseded_hash_mismatch

  abbrev pub invalidation_known : List PilotEvent → Payload → Result PilotError (Unit {0})
  unfolding known_event
  invalidation_known log (event_invalidated invalidation) = do
    invalidated ←
        require (known_event invalidation.invalidated_event_id log) unknown_invalidated_event
    throw_if (invalidation.expected_event_content_hash != codec.hash_event invalidated)
        invalidated_hash_mismatch
  invalidation_known log _ = ok tt

  unfoldable pub assert_references_known :
      List PilotEvent → PilotEvent → Result PilotError (Unit {0})
  unfolding known_event
  assert_references_known log event = do
    supersession_known log event.supersession
    invalidation_known log event.payload

  -- One round of `assertValidLog`: the ids seen, the next number of each block, the log so far.
  unfoldable pub assert_valid_event :
      List String → List (String × ℕ) → List PilotEvent → PilotEvent → Result PilotError (Unit {0})
  unfolding assert_references_known lookup
  assert_valid_event event_ids counters before event = do
    throw_if (not (codec.is_safe event)) unsafe_event
    throw_if (elem event.event_id event_ids) duplicate_event_id
    throw_if (event.sequence_number != next_sequence counters event.block_id)
        sequence_not_contiguous
    assert_references_known before event

  unfoldable pub assert_valid_from :
      List String
      → List (String × ℕ)
      → List PilotEvent
      → List PilotEvent
      → Result PilotError (Unit {0})
  unfolding assert_valid_event lookup insert
  assert_valid_from event_ids counters before [] = ok tt
  assert_valid_from event_ids counters before (event ∷ events) = do
    assert_valid_event event_ids counters before event
    assert_valid_from (event.event_id ∷ event_ids)
        (insert event.block_id (next_sequence counters event.block_id + 1) counters)
        (before ++ event ∷ []) events

  unfoldable pub assert_valid_log : List PilotEvent → Result PilotError (Unit {0})
  unfolding assert_valid_from
  assert_valid_log log = assert_valid_from [] [] [] log

  -- A log that is not frozen is copied event by event, and each copy is checked.
  unfoldable pub owned_log : List PilotEvent → Result PilotError (List PilotEvent)
  owned_log log = do throw_if (not (all codec.is_safe log)) unsafe_event; ok log

  unfoldable pub append_event : List PilotEvent → PilotEvent → Result PilotError (List PilotEvent)
  unfolding owned_log assert_valid_log expected_sequence assert_references_known
  append_event log event = do
    stable_log ← owned_log log
    assert_valid_log stable_log
    throw_if (not (codec.is_safe event)) unsafe_event
    elim (find (λ candidate. candidate.event_id == event.event_id) stable_log) [
      | some existing ↦ do
        throw_if (codec.canonicalize existing != codec.canonicalize event)
            event_id_with_different_content
        ok stable_log
      | none ↦ do
        throw_if (event.sequence_number != expected_sequence event.block_id stable_log)
            sequence_not_contiguous
        assert_references_known stable_log event
        ok (stable_log ++ event ∷ [])
    ]

  -- The loop from the log's end to its start.
  unfoldable pub retire_invalidated :
      List PilotEvent → List PilotEvent → Result PilotError (List String)
  unfolding assert_references_known
  retire_invalidated before [] = ok []
  retire_invalidated before (event ∷ events) = do
    later ← retire_invalidated (before ++ event ∷ []) events
    assert_references_known before event
    ok (mark_invalidation later event event.payload)

  unfoldable pub active_events : List PilotEvent → Result PilotError (List PilotEvent)
  unfolding owned_log assert_valid_log retire_invalidated retire_superseded
  active_events log = do
    stable_log ← owned_log log
    assert_valid_log stable_log
    invalidated ← retire_invalidated [] stable_log
    let inactive = retire_superseded invalidated stable_log
    ok (filter (λ event. not (elem event.event_id inactive)) stable_log)
