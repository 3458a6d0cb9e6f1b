-- ===== src/RunState/Ending.antt =====
-- Runs that have ended, and journals in two parts (src/runtime/run-state.ts).
use agent_orchestration_star.Base.{
  String, true, some, List, [], ◌∷◌, ◌++◌, ◌≡◌, refl, ok, lookup, lookup-insert, ◌>>=◌,
  >>=-inversion, ok-injective, arith, string_eq, subst, inl, inr, Result-cases,
}
use text.Mathlib.TextEquality.{eq_iff}
use agent_orchestration_star.Contracts.{is_terminal}
use agent_orchestration_star.RunState.Commands.{
  BrokerCommand, run_coding_task, run_accepted, run_event, BrokerRun, BrokerState,
}
use agent_orchestration_star.RunState.Reduce.{accepted_run, reduce_broker_state, replay_from}
use agent_orchestration_star.RunState.Steps.{
  reduce_run_inversion, reduce-event_inversion, reduce-accept_inversion,
}

module _ (fold_case : String → String) where
  reduce_keeps_ended :
      (state : BrokerState) (c : BrokerCommand) (next : BrokerState) (id : String) (run : BrokerRun)
      → lookup id state.runs ≡ some run
      → is_terminal run.result.state ≡ true
      → reduce_broker_state fold_case state c ≡ ok next
      → lookup id next.runs ≡ some run
  unfolding reduce_broker_state
  reduce_keeps_ended state (run_coding_task _ _) next id run found ended e = cc
  reduce_keeps_ended state (run_accepted cid other c) next id run found ended e =
      let a = reduce-accept_inversion fold_case state cid other c next e in
      rw a.runs (
        ground
          (arith, a.unused, eq_iff other id, lookup-insert other id (accepted_run c) state.runs))
  reduce_keeps_ended state (run_event cid other event) next id run found ended e =
      let (r, r', there, reduced, result) =
        reduce-event_inversion fold_case state cid other event next e in
      let (live, _) = reduce_run_inversion fold_case r event r' reduced in
      rw result (ground (arith, eq_iff other id, lookup-insert other id r' state.runs))

  -- Once a run has ended, no journal that the broker accepts changes anything of it.
  pub replay_from_keeps_ended :
      (state : BrokerState) (journal : List BrokerCommand) (last : BrokerState) (id : String)
      (run : BrokerRun)
      → lookup id state.runs ≡ some run
      → is_terminal run.result.state ≡ true
      → replay_from fold_case state journal ≡ ok last
      → lookup id last.runs ≡ some run
  unfolding replay_from
  replay_from_keeps_ended state [] last id run found ended e =
      subst (λ (s : BrokerState). lookup id s.runs ≡ some run) (ok-injective e) found
  replay_from_keeps_ended state (c ∷ cs) last id run found ended e =
      let (next, first, rest) = >>=-inversion (reduce_broker_state fold_case state c) _ e in
      replay_from_keeps_ended next cs last id run
        (reduce_keeps_ended state c next id run found ended first) ended rest

  -- A journal is replayed prefix first: what the recovery compares with its cache is a state on
  -- the way to the last one.
  pub replay_from-append :
      (state : BrokerState) (prefix suffix : List BrokerCommand)
      → replay_from fold_case state (prefix ++ suffix)
        ≡ (replay_from fold_case state prefix >>= λ middle. replay_from fold_case middle suffix)
  unfolding replay_from
  replay_from-append state [] suffix = refl
  replay_from-append state (c ∷ cs) suffix =
      elim (Result-cases (reduce_broker_state fold_case state c)) [
        | inl (next, first) ↦ rw first (replay_from-append next cs suffix)
        | inr (error, first) ↦ rw first
      ]
