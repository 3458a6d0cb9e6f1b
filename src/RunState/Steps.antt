-- ===== src/RunState/Steps.antt =====
-- What a successful reduction says of its parts (src/runtime/run-state.ts), and the induction over
-- a journal that each invariant of the runs uses.
use agent_orchestration_star.Base.{
  is_some, String, true, false, none, some, List, [], ◌∷◌, ◌≡◌, ok, lookup, insert, lookup-insert,
  Bool-cases, >>=-inversion, require, throw_if, string_eq, ◌==◌, arith, inl, inr, All, ok-injective,
  subst, subst₂, ◌!=◌, ◌||◌, not,
}
use agent_orchestration_star.Contracts.{is_terminal}
use agent_orchestration_star.Requests.{Registration, register_request}
use agent_orchestration_star.RunState.Commands.{
  RunAccepted, RunEvent, BrokerCommand, run_coding_task, run_accepted, run_event, BrokerRun,
  BrokerState, accepted_twice, inconsistent_identities, request_accepted_twice, unknown_run,
}
use agent_orchestration_star.RunState.Reduce.{
  accepted_run, accept_run, register_or_fail, branch, reduce_run, reduce_broker_state, replay_from,
  replay_broker_state, initial_broker_state,
}
use text.Mathlib.TextEquality.{eq_iff}

-- An accepted run is new, agrees with its contract and result, and its request id was free.
pub record Acceptance (state : BrokerState) (id : String) (c : RunAccepted) (next : BrokerState)
    : Type 0 where
  pub unused : lookup id state.runs ≡ none
  pub contract_run : c.contract.run_id ≡ id
  pub result_run : c.result.run_id ≡ id
  pub same_request : c.contract.request_id ≡ c.result.request_id
  pub registration : Registration
  pub registered :
      register_request state.requests c.contract.request_id c.request_hash id ≡ ok registration
  pub is_new : registration.created ≡ true
  pub requests : next.requests ≡ registration.index
  pub runs : next.runs ≡ insert id (accepted_run c) state.runs

pub accept_run_inversion :
    (state : BrokerState) (id : String) (c : RunAccepted) (next : BrokerState)
    → accept_run state id c ≡ ok next
    → Acceptance state id c next
unfolding accept_run
accept_run_inversion state id c next e =
    let registering = register_request state.requests c.contract.request_id c.request_hash id in
    let (_, fresh, e1) =
      >>=-inversion (throw_if (is_some (lookup id state.runs)) accepted_twice) _ e in
    let (_, agree, e2) =
      >>=-inversion
        (throw_if
          (c.contract.run_id != id
            || c.result.run_id != id
            || c.contract.request_id != c.result.request_id)
          inconsistent_identities)
        _ e1 in
    let (r, registered, e3) = >>=-inversion (register_or_fail registering) _ e2 in
    let (_, created, e4) = >>=-inversion (throw_if (not r.created) request_accepted_twice) _ e3 in
    record {
      unused = ground arith;
      contract_run = ground (arith, eq_iff c.contract.run_id id);
      result_run = ground (arith, eq_iff c.result.run_id id);
      same_request = ground (arith, eq_iff c.contract.request_id c.result.request_id);
      registration = r;
      registered = ground arith;
      is_new = ground arith;
      requests = ground arith;
      runs = ground arith;
    }

module _ (fold_case : String → String) where
  -- A run takes a command only while it is not terminal.
  pub reduce_run_inversion :
      (run : BrokerRun) (event : RunEvent) (next : BrokerRun)
      → reduce_run fold_case run event ≡ ok next
      → (is_terminal run.result.state ≡ false) × (branch fold_case run event ≡ ok next)
  unfolding reduce_run
  reduce_run_inversion run event next e = ground arith

  pub reduce-event_inversion :
      (state : BrokerState) (cid id : String) (event : RunEvent) (next : BrokerState)
      → reduce_broker_state fold_case state (run_event cid id event) ≡ ok next
      → (run run' : BrokerRun) × (lookup id state.runs ≡ some run)
        × (reduce_run fold_case run event ≡ ok run')
        × (next ≡ record state { runs = insert id run' state.runs })
  unfolding reduce_broker_state
  reduce-event_inversion state cid id event next e =
      let (run, found, e1) = >>=-inversion (require (lookup id state.runs) unknown_run) _ e in
      let (run', reduced, e2) = >>=-inversion (reduce_run fold_case run event) _ e1 in
      (run, run', ground arith, reduced, ground arith)

  pub reduce-accept_inversion :
      (state : BrokerState) (cid id : String) (c : RunAccepted) (next : BrokerState)
      → reduce_broker_state fold_case state (run_accepted cid id c) ≡ ok next
      → Acceptance state id c next
  unfolding reduce_broker_state
  reduce-accept_inversion state cid id c next e = accept_run_inversion state id c next e

-- A predicate on a state's runs, under their ids.
abbrev pub Runs : (String → BrokerRun → Type 0) → BrokerState → Type 0
Runs P state = (id : String) (run : BrokerRun) → lookup id state.runs ≡ some run → P id run

Runs-insert :
    (P : String → BrokerRun → Type 0) (runs : List (String × BrokerRun)) (id : String)
    (new : BrokerRun)
    → ((other : String) (run : BrokerRun) → lookup other runs ≡ some run → P other run)
    → P id new
    → (other : String) (run : BrokerRun) → lookup other (insert id new runs) ≡ some run
    → P other run
Runs-insert P runs id new h p other run e = elim (Bool-cases (id == other)) [
  | inl same ↦
      subst₂ P ((eq_iff id other).0 same) (ground (arith, lookup-insert id other new runs)) p
  | inr differ ↦ h other run (ground (arith, lookup-insert id other new runs))
]

-- A predicate that every accepted run starts with, and every event keeps, holds of the runs that a
-- journal leaves; `Q` is what is known of the journal's commands.
module _ (fold_case : String → String) (P : String → BrokerRun → Type 0)
    (Q : BrokerCommand → Type 0)
    (start : (cid id : String) (c : RunAccepted)
      → Q (run_accepted cid id c)
      → c.contract.run_id ≡ id
      → c.result.run_id ≡ id
      → P id (accepted_run c))
    (keep : (cid id : String) (run : BrokerRun) (event : RunEvent) (next : BrokerRun)
      → Q (run_event cid id event)
      → P id run
      → is_terminal run.result.state ≡ false
      → branch fold_case run event ≡ ok next
      → P id next) where
  pub reduce-Runs :
      (state : BrokerState) (c : BrokerCommand) (next : BrokerState)
      → Runs P state
      → Q c
      → reduce_broker_state fold_case state c ≡ ok next
      → Runs P next
  unfolding reduce_broker_state
  reduce-Runs state (run_coding_task _ _) next h q e = cc
  reduce-Runs state (run_accepted cid id c) next h q e =
      let a = reduce-accept_inversion fold_case state cid id c next e in
      λ other run found.
        Runs-insert P state.runs id (accepted_run c) h
          (start cid id c q a.contract_run a.result_run) other run (rw a.runs at found)
  reduce-Runs state (run_event cid id event) next h q e =
      let (run, run', found, reduced, result) =
        reduce-event_inversion fold_case state cid id event next e in
      let (live, branched) = reduce_run_inversion fold_case run event run' reduced in
      λ other r there.
        Runs-insert P state.runs id run' h
          (keep cid id run event run' q (h id run found) live branched) other r
          (subst (λ (s : BrokerState). lookup other s.runs ≡ some r) result there)

  pub replay_from-Runs :
      (state : BrokerState) (cs : List BrokerCommand) (last : BrokerState)
      → Runs P state
      → All Q cs
      → replay_from fold_case state cs ≡ ok last
      → Runs P last
  unfolding replay_from
  replay_from-Runs state [] last h q e = subst (λ (s : BrokerState). Runs P s) (ok-injective e) h
  replay_from-Runs state (c ∷ cs) last h (q, qs) e =
      let (next, first, rest) = >>=-inversion (reduce_broker_state fold_case state c) _ e in
      replay_from-Runs next cs last (reduce-Runs state c next h q first) qs rest

  pub replay_broker_state-Runs :
      (cs : List BrokerCommand) (last : BrokerState)
      → All Q cs
      → replay_broker_state fold_case cs ≡ ok last
      → Runs P last
  unfolding replay_broker_state lookup
  replay_broker_state-Runs cs last q e =
      replay_from-Runs initial_broker_state cs last (λ id run found. cc) q e
