-- ===== src/Pilot/Replay.antt =====
-- `replayBlock`: the history of a block reduced event by event (src/pilot/state-machine.ts).
use agent_orchestration_star.Base.{
  ltb, leb, if◌then◌else◌, ◌==◌, ◌!=◌, nat_eq, string_eq, option_eq, filter, lookup, insert,
  or_else, Result, ok, err, ◌>>=◌, ◌>>◌, throw_if, require, ℕ, suc, ◌+◌, String, Bool, true, false,
  ◌&&◌, Option, none, some, List, [], ◌∷◌,
}
use agent_orchestration_star.Pilot.Vocabulary.{
  arm_eq, capability_eq, kind_eq, decision_eq, isolation_eq, finding_eq, role_eq,
}
use agent_orchestration_star.Pilot.States.{
  BlockState, accepted, invalid, state_eq, type_eq, route_eq,
}
use agent_orchestration_star.Pilot.Events.{
  Payload, isolation_attested, ExecutionCompleted, ReviewCompleted, PilotEvent,
}
use agent_orchestration_star.Pilot.Manifest.{Manifest}
use agent_orchestration_star.Pilot.Errors.{
  PilotError, invalid_occurred_at, incompatible_sequence_gap, regressive_occurred_at,
  invalid_transition, empty_history, empty_active_history, empty_reduction,
  workspace_reused_across_blocks,
}
use agent_orchestration_star.Pilot.Codec.{Codec}
use agent_orchestration_star.Pilot.Machine.{block_context, transition_checked}
use agent_orchestration_star.Pilot.Log.{active_events}
use agent_orchestration_star.Pilot.Reduction.{Reduction, initial_reduction, enter_event}
use agent_orchestration_star.Pilot.Usage.{handle_event}

pub record BlockReplay : Type 0 where
  pub state : BlockState
  pub valid_history : Bool
  pub invalid_reason_codes : List PilotError
  pub block_id : Option String
  pub accepted_revision : Option String
  pub accepted_tree_hash : Option String
  pub accepted_review_id : Option String
  pub unresolved_finding_ids : List String

-- What the loop throws, with the findings that are unresolved then.
pub record Broken : Type 0 where
  pub reason : PilotError
  pub unresolved : List String

unfoldable pub invalid_replay : Option String → PilotError → List String → BlockReplay
invalid_replay block_id reason unresolved = record {
  state = invalid;
  valid_history = false;
  invalid_reason_codes = reason ∷ [];
  block_id = block_id;
  accepted_revision = none;
  accepted_tree_hash = none;
  accepted_review_id = none;
  unresolved_finding_ids = unresolved;
}

abbrev pub with_unresolved {ℓ} : {A : Type ℓ} → List String → Result PilotError A → Result Broken A
with_unresolved unresolved (ok a) = ok a
with_unresolved unresolved (err reason) = err (record { reason = reason; unresolved = unresolved })

abbrev pub is_regressive : Option ℕ → ℕ → Bool
is_regressive none occurred_at = false
is_regressive (some previous) occurred_at = ltb occurred_at previous

abbrev pub settle : Reduction → ℕ → BlockState → Reduction
settle r occurred_at next = record r { state = some next; previous_occurred_at = some occurred_at }

-- `workspaceOwners` over the projected events; the empty id is falsy.
abbrev owner_conflicts : Option String → String → Bool
owner_conflicts none block_id = false
owner_conflicts (some prior) block_id = prior != "" && prior != block_id

abbrev pub workspace_of : Payload → Option String
workspace_of (isolation_attested isolation) = some isolation.workspace_instance_id
workspace_of _ = none

abbrev pub claim_workspace :
    List (String × String) → String → Option String → Result PilotError (List (String × String))
unfolding lookup insert
claim_workspace owners block_id none = ok owners
claim_workspace owners block_id (some workspace) = do
  throw_if (owner_conflicts (lookup workspace owners) block_id) workspace_reused_across_blocks
  ok (insert workspace block_id owners)

unfoldable pub claim_workspaces :
    List (String × String) → List PilotEvent → Result PilotError (Unit {0})
unfolding lookup insert
claim_workspaces owners [] = ok tt
claim_workspaces owners (event ∷ events) = do
  next ← claim_workspace owners event.block_id (workspace_of event.payload)
  claim_workspaces next events

-- `filter(…).sort((left, right) => left.sequence_number - right.sequence_number)`, a stable sort.
unfoldable pub insert_event : PilotEvent → List PilotEvent → List PilotEvent
insert_event event [] = event ∷ []
insert_event event (other ∷ rest) =
    if leb event.sequence_number other.sequence_number
    then event ∷ other ∷ rest
    else other ∷ insert_event event rest

unfoldable pub sort_events : List PilotEvent → List PilotEvent
unfolding insert_event
sort_events [] = []
sort_events (event ∷ events) = insert_event event (sort_events events)

unfoldable pub history_of : String → List PilotEvent → List PilotEvent
unfolding sort_events
history_of block_id events = sort_events (filter (λ event. event.block_id == block_id) events)

abbrev pub first_block : List PilotEvent → Option String
first_block [] = none
first_block (event ∷ _) = some event.block_id

abbrev only_accepted {ℓ} : {A : Type ℓ} → BlockState → Option A → Option A
only_accepted state value = if state == accepted then value else none

abbrev output_revision_of : Option ExecutionCompleted → Option String
output_revision_of none = none
output_revision_of (some completion) = some completion.output_revision

abbrev output_tree_of : Option ExecutionCompleted → Option String
output_tree_of none = none
output_tree_of (some completion) = some completion.output_tree_hash

abbrev review_id_of : Option ReviewCompleted → Option String
review_id_of none = none
review_id_of (some review) = some review.review_id

unfoldable pub valid_replay : String → BlockState → Reduction → BlockReplay
valid_replay block_id state r = record {
  state = state;
  valid_history = true;
  invalid_reason_codes = [];
  block_id = some block_id;
  accepted_revision = only_accepted state (output_revision_of r.accepted_completion);
  accepted_tree_hash = only_accepted state (output_tree_of r.accepted_completion);
  accepted_review_id = only_accepted state (review_id_of r.accepted_review);
  unresolved_finding_ids = r.unresolved;
}

unfoldable pub conclude : String → Result Broken Reduction → BlockReplay
unfolding valid_replay invalid_replay
conclude block_id (err broken) = invalid_replay (some block_id) broken.reason broken.unresolved
conclude block_id (ok r) = elim r.state [
  | none ↦ invalid_replay (some block_id) empty_reduction r.unresolved
  | some state ↦ valid_replay block_id state r
]

module _ (codec : Codec) (manifest : Manifest) where
  -- The loop's body up to the transition.
  unfoldable pub check_event : ℕ → Reduction → PilotEvent → Result PilotError (ℕ × Reduction)
  unfolding block_context enter_event handle_event
  check_event index r event = do
    throw_if (event.sequence_number != index + 1) incompatible_sequence_gap
    occurred_at ← require (codec.parse_utc event.occurred_at) invalid_occurred_at
    throw_if (is_regressive r.previous_occurred_at occurred_at) regressive_occurred_at
    context ← block_context manifest event
    handled ←
        handle_event manifest context.0 context.1 (enter_event r event.payload) event.event_id
          event.payload
    ok (occurred_at, handled)

  unfoldable pub advance : ℕ → Reduction → PilotEvent → Result PilotError Reduction
  unfolding transition_checked
  advance occurred_at handled event = do
    next ← transition_checked codec manifest handled.state event
    throw_if (next == invalid) invalid_transition
    ok (settle handled occurred_at next)

  unfoldable pub reduce_event : ℕ → Reduction → PilotEvent → Result Broken Reduction
  unfolding check_event advance
  reduce_event index r event = do
    checked ← with_unresolved r.unresolved (check_event index r event)
    with_unresolved (checked.1).unresolved (advance checked.0 checked.1 event)

  unfoldable pub reduce_history : ℕ → Reduction → List PilotEvent → Result Broken Reduction
  unfolding reduce_event
  reduce_history index r [] = ok r
  reduce_history index r (event ∷ events) = do
    next ← reduce_event index r event
    reduce_history (suc index) next events

  unfoldable pub replay_history : String → List PilotEvent → BlockReplay
  unfolding invalid_replay conclude reduce_history initial_reduction
  replay_history block_id [] = invalid_replay (some block_id) empty_active_history []
  replay_history block_id (event ∷ events) =
      conclude block_id (reduce_history 0 initial_reduction (event ∷ events))

  unfoldable pub replay_projected : String → List PilotEvent → BlockReplay
  unfolding claim_workspaces invalid_replay replay_history history_of
  replay_projected block_id projected = elim (claim_workspaces [] projected) [
    | err reason ↦ invalid_replay (some block_id) reason []
    | ok _ ↦ replay_history block_id (history_of block_id projected)
  ]

  unfoldable pub replay_active : Option String → List PilotEvent → BlockReplay
  unfolding replay_projected invalid_replay
  replay_active none projected = invalid_replay none empty_history []
  replay_active (some block_id) projected =
      if block_id == ""
      then invalid_replay none empty_history []
      else replay_projected block_id projected

  unfoldable pub replay_block : List PilotEvent → BlockReplay
  unfolding active_events replay_active invalid_replay
  replay_block events = elim (active_events codec events) [
    | err reason ↦ invalid_replay (first_block events) reason []
    | ok projected ↦ replay_active (or_else (first_block events) (first_block projected)) projected
  ]
