-- ===== src/RunState/Identity.antt =====
-- How runs and requests are linked (src/runtime/run-state.ts).
use agent_orchestration_star.Base.{
  String, some, List, [], ◌∷◌, ◌≡◌, ok, lookup, insert, lookup-insert, lookup-insert_self,
  >>=-inversion, ok-injective, arith, string_eq, subst, inl, inr, Bool-cases, ◌==◌, ◌≢◌, sym,
}
use text.Mathlib.TextEquality.{eq_iff}
use agent_orchestration_star.Requests.{RequestIdentity, RequestIndex}
use agent_orchestration_star.Requests.Register.{
  register-lookup, register-lookup_ne, register_created,
}
use agent_orchestration_star.RunState.Commands.{
  BrokerCommand, run_coding_task, run_accepted, run_event, RunEvent, attempt_recorded, RunAccepted,
  BrokerRun, BrokerState,
}
use agent_orchestration_star.RunState.Reduce.{
  accepted_run, branch, reduce_broker_state, replay_from, replay_broker_state, initial_broker_state,
}
use agent_orchestration_star.RunState.Steps.{
  Acceptance, reduce_run_inversion, reduce-event_inversion, reduce-accept_inversion,
}

-- A run bears its id, and its request is bound to its hash and to it.
pub record IsLinked (requests : RequestIndex) (id : String) (run : BrokerRun) : Type 0 where
  pub contract_run : run.contract.run_id ≡ id
  pub result_run : run.result.run_id ≡ id
  pub same_request : run.contract.request_id ≡ run.result.request_id
  pub bound :
      lookup run.contract.request_id requests
      ≡ some (record { request_hash = run.request_hash; run_id = id })

abbrev pub Linked : BrokerState → Type 0
Linked state =
    (id : String) (run : BrokerRun)
    → lookup id state.runs ≡ some run
    → IsLinked state.requests id run

-- No event changes what a run was accepted as.
pub record SameIdentity (run next : BrokerRun) : Type 0 where
  pub contract : next.contract ≡ run.contract
  pub request_hash : next.request_hash ≡ run.request_hash
  pub run_id : next.result.run_id ≡ run.result.run_id
  pub request_id : next.result.request_id ≡ run.result.request_id

branch-SameIdentity :
    (fold_case : String → String) (run : BrokerRun) (event : RunEvent) (next : BrokerRun)
    → branch fold_case run event ≡ ok next
    → SameIdentity run next
unfolding branch
branch-SameIdentity f run (attempt_recorded a) next e = ground arith
branch-SameIdentity f run _ next e = ground arith

-- Every request is bound to a run that was accepted for it.
abbrev pub Owned : BrokerState → Type 0
Owned state =
    (q : String) (identity : RequestIdentity)
    → lookup q state.requests ≡ some identity
    → (run : BrokerRun) × (lookup identity.run_id state.runs ≡ some run)
      × (run.contract.request_id ≡ q)
      × (run.request_hash ≡ identity.request_hash)

-- An accepted run is linked, and breaks no other link: its request was free.
accept-Linked :
    (state : BrokerState) (id : String) (c : RunAccepted) (next : BrokerState)
    → Acceptance state id c next
    → Linked state
    → Linked next
accept-Linked state id c next a h other run found =
    let q = c.contract.request_id in
    let created = register_created state.requests q c.request_hash id a.registration a.registered in
    let here = register-lookup state.requests q c.request_hash id a.registration a.registered in
    elim (Bool-cases (id == other)) [
      | inl same ↦
          let e : accepted_run c ≡ run =
            ground (arith, a.runs, lookup-insert id other (accepted_run c) state.runs, found) in
          let k : id ≡ other = (eq_iff id other).0 same in
          subst (λ (r : BrokerRun). IsLinked next.requests other r) e
            (subst (λ (o : String). IsLinked next.requests o (accepted_run c)) k
              (record {
                contract_run = a.contract_run;
                result_run = a.result_run;
                same_request = a.same_request;
                bound = ground (arith, here, created, a.requests, a.is_new);
              }))
      | inr differ ↦
          let l =
            h other run
              (ground (arith, a.runs, lookup-insert id other (accepted_run c) state.runs)) in
          let apart : q ≢ run.contract.request_id =
            λ p. ground (arith, p, created, a.is_new, l.bound) in
          record {
            contract_run = l.contract_run;
            result_run = l.result_run;
            same_request = l.same_request;
            bound = ground (
              arith,
              register-lookup_ne state.requests q c.request_hash id a.registration a.registered
                  run.contract.request_id apart,
              a.requests,
              l.bound,
            );
          }
    ]

accept-Owned :
    (state : BrokerState) (id : String) (c : RunAccepted) (next : BrokerState)
    → Acceptance state id c next
    → Owned state
    → Owned next
accept-Owned state id c next a h q identity found =
    let mine = c.contract.request_id in
    let created =
      register_created state.requests mine c.request_hash id a.registration a.registered in
    let here = register-lookup state.requests mine c.request_hash id a.registration a.registered in
    elim (Bool-cases (mine == q)) [
      | inl same ↦
          let k : mine ≡ q = (eq_iff mine q).0 same in
          let who : identity ≡ record { request_hash = c.request_hash; run_id = id } =
            ground (arith, k, here, created, a.requests, a.is_new) in
          (
            accepted_run c,
            ground (arith, who, a.runs, lookup-insert_self id (accepted_run c) state.runs),
            k,
            ground (arith, who),
          )
      | inr differ ↦
          let (run, there, its, hash) = h q identity (
            ground (
              arith,
              register-lookup_ne state.requests mine c.request_hash id a.registration a.registered q
                  (λ p. ground (arith, eq_iff mine q)),
              a.requests,
            )) in
          (
            run,
            ground (
              arith,
              a.runs,
              a.unused,
              eq_iff id identity.run_id,
              lookup-insert id identity.run_id (accepted_run c) state.runs,
            ),
            its,
            hash,
          )
    ]

-- A run that keeps its identity may be put in the place of the run before.
module _ (state : BrokerState) (id : String) (run run' : BrokerRun)
    (there : lookup id state.runs ≡ some run) (same : SameIdentity run run') where
  update-Linked : Linked state → Linked (record state { runs = insert id run' state.runs })
  update-Linked l other r found =
      let mine = l id run there in
      elim (Bool-cases (id == other)) [
        | inl k ↦
            let e : run' ≡ r = ground (arith, found, lookup-insert id other run' state.runs) in
            record {
              contract_run = ground (arith, same, mine, e, eq_iff id other);
              result_run = ground (arith, same, mine, e, eq_iff id other);
              same_request = ground (arith, same, mine, e);
              bound = ground (arith, same, mine, e, eq_iff id other);
            }
        | inr differ ↦ l other r (ground (arith, lookup-insert id other run' state.runs))
      ]

  update-Owned : Owned state → Owned (record state { runs = insert id run' state.runs })
  update-Owned o q identity found =
      let (r, held, its, hash) = o q identity found in
      elim (Bool-cases (id == identity.run_id)) [
        | inl k ↦
            let e : run ≡ r = ground (arith, eq_iff id identity.run_id) in
            (
              run',
              ground (arith, lookup-insert id identity.run_id run' state.runs),
              ground (arith, same, e),
              ground (arith, same, e),
            )
        | inr differ ↦
            (r, ground (arith, lookup-insert id identity.run_id run' state.runs), its, hash)
      ]

module _ (fold_case : String → String) where
  reduce-Linked :
      (state : BrokerState) (c : BrokerCommand) (next : BrokerState)
      → Linked state × Owned state
      → reduce_broker_state fold_case state c ≡ ok next
      → Linked next × Owned next
  unfolding reduce_broker_state
  reduce-Linked state (run_coding_task _ _) next h e = cc
  reduce-Linked state (run_accepted cid id c) next (l, o) e =
      let a = reduce-accept_inversion fold_case state cid id c next e in
      (accept-Linked state id c next a l, accept-Owned state id c next a o)
  reduce-Linked state (run_event cid id event) next (l, o) e =
      let (run, run', there, reduced, result) =
        reduce-event_inversion fold_case state cid id event next e in
      let (_, branched) = reduce_run_inversion fold_case run event run' reduced in
      let same = branch-SameIdentity fold_case run event run' branched in
      subst (λ (s : BrokerState). Linked s × Owned s) (sym result)
        (update-Linked state id run run' there same l, update-Owned state id run run' there same o)

  replay_from-Linked :
      (state : BrokerState) (journal : List BrokerCommand) (last : BrokerState)
      → Linked state × Owned state
      → replay_from fold_case state journal ≡ ok last
      → Linked last × Owned last
  unfolding replay_from
  replay_from-Linked state [] last h e =
      subst (λ (s : BrokerState). Linked s × Owned s) (ok-injective e) h
  replay_from-Linked state (c ∷ cs) last h e =
      let (next, first, rest) = >>=-inversion (reduce_broker_state fold_case state c) _ e in
      replay_from-Linked next cs last (reduce-Linked state c next h first) rest

  -- In every state that a journal reduces to, the runs and the requests are in one-to-one
  -- correspondence: each run bears its key as its id in contract and result and owns the request
  -- of its contract, by the hash that it was accepted with, and each request is owned by a run.
  pub replay_broker_state-Linked :
      (journal : List BrokerCommand) (state : BrokerState)
      → replay_broker_state fold_case journal ≡ ok state
      → Linked state × Owned state
  unfolding replay_broker_state initial_broker_state lookup
  replay_broker_state-Linked journal state e =
      replay_from-Linked initial_broker_state journal state
        (λ id run found. cc, λ q identity found. cc) e
