-- ===== src/Daemon/Acceptance.antt =====
-- The result that an accepted run starts with (`initialResult` of src/runtime/broker-daemon.ts).
use agent_orchestration_star.Base.{
  bool_eq, nat_eq, string_eq, option_eq, All, ok, String, ◌≡◌, ap, none, List, [], ◌∷◌, arith,
}
use agent_orchestration_star.RunState.Commands.{
  RunEvent, attempt_recorded, BrokerCommand, run_coding_task, run_accepted, run_event, RunAccepted,
  BrokerRun, BrokerState, command_id,
}
use agent_orchestration_star.RunState.Replay.{IsFresh, replay_broker_state-HasEvidence}
use agent_orchestration_star.RunState.Reduce.{accepted_run, branch, replay_broker_state}
use agent_orchestration_star.RunState.Steps.{Runs, replay_broker_state-Runs}
use agent_orchestration_star.Contracts.{WorkContract, RunResult, ready_for_executor, not_started}
use agent_orchestration_star.RunState.Evidence.{HasEvidence}
use Prim.Native.String.{◌++◌ as join_texts}

-- The hashes of what is not there yet: no files, a tree that is not materialized, no artifacts.
pub record EmptyHashes : Type 0 where
  pub no_files : String
  pub not_materialized : String → String
  pub no_artifacts : String → String

unfoldable pub initial_result : EmptyHashes → String → WorkContract → RunResult
initial_result hashes run_id contract = record {
  run_id = run_id;
  request_id = contract.request_id;
  state = ready_for_executor;
  effective_route = contract.effective_route;
  route_decision_hash = contract.route_decision_hash;
  effective_data_scope = contract.effective_data_scope;
  effective_source_sensitivity = contract.effective_source_sensitivity;
  branch = join_texts "codex/auto/" run_id;
  base_sha = contract.base_sha;
  head_sha = none;
  contract_hash = contract.contract_hash;
  policy_hash = contract.policy_hash;
  profile_hash = contract.profile_hash;
  attempts = [];
  validation_results = [];
  diff_hash = hashes.no_files;
  tree_hash = hashes.not_materialized contract.base_sha;
  changed_files = [];
  review_attestation_hash = none;
  commit_sha = none;
  publication = record {
    state = not_started;
    remote = none;
    base_branch = none;
    pull_request = none;
    pull_request_url = none;
    merge_commit_sha = none;
  };
  failure = none;
  artifact_manifest_hash = hashes.no_artifacts run_id;
}

-- The command that `submit` persists for a derived contract.
unfoldable pub acceptance_command :
    EmptyHashes → String → String → String → WorkContract → BrokerCommand
unfolding initial_result
acceptance_command hashes command_id request_hash run_id contract =
    run_accepted command_id run_id (record {
      request_hash = request_hash;
      contract = contract;
      result = initial_result hashes run_id contract;
      inspection_epoch = 1;
    })

-- A command that is no acceptance, or that is one that `submit` persists.
abbrev pub IsSubmitted : EmptyHashes → BrokerCommand → Type 0
IsSubmitted hashes (run_accepted cid id c) =
    run_accepted cid id c ≡ acceptance_command hashes cid c.request_hash id c.contract
IsSubmitted hashes _ = Unit

submitted_result :
    (hashes : EmptyHashes) (cid id : String) (c : RunAccepted)
    → IsSubmitted hashes (run_accepted cid id c)
    → c.result ≡ initial_result hashes id c.contract
unfolding acceptance_command
submitted_result hashes cid id c h = cc

submitted-IsFresh : (hashes : EmptyHashes) (c : BrokerCommand) → IsSubmitted hashes c → IsFresh c
unfolding initial_result
submitted-IsFresh hashes (run_coding_task cid request) h = tt
submitted-IsFresh hashes (run_event cid id event) h = tt
submitted-IsFresh hashes (run_accepted cid id c) h =
    let e = submitted_result hashes cid id c h in
    (
      ap (λ (r : RunResult). r.state) e,
      ap (λ (r : RunResult). r.attempts) e,
      ap (λ (r : RunResult). r.publication.state) e,
      ap (λ (r : RunResult). r.commit_sha) e,
    )

pub All-IsFresh :
    (hashes : EmptyHashes) (journal : List BrokerCommand)
    → All (IsSubmitted hashes) journal
    → All IsFresh journal
All-IsFresh hashes [] h = tt
All-IsFresh hashes (c ∷ cs) (first, h) = (submitted-IsFresh hashes c first, All-IsFresh hashes cs h)

-- What a run is from its acceptance on: its result is on its contract, which is its own, and its
-- branch is the one of its id.
pub record IsOnContract (id : String) (run : BrokerRun) : Type 0 where
  pub branch : run.result.branch ≡ join_texts "codex/auto/" id
  pub base_sha : run.result.base_sha ≡ run.contract.base_sha
  pub route : run.result.effective_route ≡ run.contract.effective_route
  pub route_decision : run.result.route_decision_hash ≡ run.contract.route_decision_hash
  pub data_scope : run.result.effective_data_scope ≡ run.contract.effective_data_scope
  pub sensitivity :
      run.result.effective_source_sensitivity ≡ run.contract.effective_source_sensitivity
  pub contract_hash : run.result.contract_hash ≡ run.contract.contract_hash
  pub policy_hash : run.result.policy_hash ≡ run.contract.policy_hash
  pub profile_hash : run.result.profile_hash ≡ run.contract.profile_hash

submitted-IsOnContract :
    (hashes : EmptyHashes) (cid id : String) (c : RunAccepted)
    → IsSubmitted hashes (run_accepted cid id c)
    → IsOnContract id (accepted_run c)
unfolding initial_result
submitted-IsOnContract hashes cid id c h =
    let e = submitted_result hashes cid id c h in
    record {
      branch = ap (λ (r : RunResult). r.branch) e;
      base_sha = ap (λ (r : RunResult). r.base_sha) e;
      route = ap (λ (r : RunResult). r.effective_route) e;
      route_decision = ap (λ (r : RunResult). r.route_decision_hash) e;
      data_scope = ap (λ (r : RunResult). r.effective_data_scope) e;
      sensitivity = ap (λ (r : RunResult). r.effective_source_sensitivity) e;
      contract_hash = ap (λ (r : RunResult). r.contract_hash) e;
      policy_hash = ap (λ (r : RunResult). r.policy_hash) e;
      profile_hash = ap (λ (r : RunResult). r.profile_hash) e;
    }

branch-IsOnContract :
    (fold_case : String → String) (id : String) (run : BrokerRun) (event : RunEvent)
    (next : BrokerRun)
    → IsOnContract id run
    → branch fold_case run event ≡ ok next
    → IsOnContract id next
unfolding branch
branch-IsOnContract f id run (attempt_recorded a) next h e = ground arith
branch-IsOnContract f id run _ next h e = ground arith

-- Where every acceptance of a journal is one that the daemon submits, every run of the state that
-- it reduces to is on the branch of its id and carries the base, route, scope and hashes of its
-- contract, and has the evidence that its phase demands: attempts, the allowed validations and
-- files in the contract's scope from its accepted candidate on, a verdict on its own result, a
-- commit and the publication that the phase says.
pub submitted-HasEvidence :
    (fold_case : String → String) (hashes : EmptyHashes) (journal : List BrokerCommand)
    (state : BrokerState)
    → All (IsSubmitted hashes) journal
    → replay_broker_state fold_case journal ≡ ok state
    → Runs (λ id run. IsOnContract id run × HasEvidence fold_case run) state
submitted-HasEvidence fold_case hashes journal state h e id run found = (
  replay_broker_state-Runs fold_case IsOnContract (IsSubmitted hashes)
      (λ cid id c submitted _ _. submitted-IsOnContract hashes cid id c submitted)
      (λ cid id run event next _ kept _ step.
        branch-IsOnContract fold_case id run event next kept step)
      journal state h e id run found,
  replay_broker_state-HasEvidence fold_case journal state (All-IsFresh hashes journal h) e id run
      found,
)
