-- ===== src/RunState/History.antt =====
-- Where the evidence of a run comes from (src/runtime/run-state.ts): the commands of the journal
-- that a reviewed and a committed run rest on.
use agent_orchestration_star.Base.{
  String, Bool, true, false, Option, none, some, List, ◌≡◌, sym, ◌∙◌, ok, arith, All, All-of_mem,
  All_at, string_eq, ap,
}
use mathlib.Core.List.{Memᴰ}
use agent_orchestration_star.Contracts.{
  RunPhase, ready_for_executor, execution_started, awaiting_reinspection, review_accepted,
}
use agent_orchestration_star.RunState.Commands.{
  RunEvent, candidate_accepted, review_verdict_recorded, commit_created, branch_pushed,
  pull_request_recorded, required_checks_passed, run_merged, publication_skipped, BrokerRun,
  BrokerCommand, run_event, CandidateAccepted, CommitCreated, BrokerState,
}
use agent_orchestration_star.RunState.Reduce.{branch, replay_broker_state}
use agent_orchestration_star.RunState.Steps.{Runs, replay_broker_state-Runs}
use agent_orchestration_star.RunState.Guards.{
  CommitFits, candidate_fits, verdict_fits, commit_fits, push_fits, pull_request_fits, checks_fit,
  merge_fits, skip_fits,
}
use agent_orchestration_star.RunState.Evidence.{is_reviewed}
use agent_orchestration_star.RunState.Replay.{IsFresh}

abbrev pub before_commit : RunPhase → Bool
before_commit ready_for_executor = true
before_commit execution_started = true
before_commit awaiting_reinspection = true
before_commit review_accepted = true
before_commit _ = false

-- A command of the journal accepted, for the run, the candidate with this diff and tree under this
-- attestation.
abbrev pub FromCandidate : List BrokerCommand → String → String → String → Option String → Type 0
FromCandidate journal id diff tree attestation =
    (cid : String) × (c : CandidateAccepted) × Memᴰ (run_event cid id (candidate_accepted c))
      journal
    × (c.diff_hash ≡ diff)
    × (c.tree_hash ≡ tree)
    × (some c.review_attestation_hash ≡ attestation)

-- A command of the journal created, for the run, the commit from this contract, diff and tree.
abbrev pub FromCommit : List BrokerCommand → String → String → String → String → String → Type 0
FromCommit journal id sha contract diff tree =
    (cid : String) × (c : CommitCreated) × Memᴰ (run_event cid id (commit_created c)) journal
    × (c.commit_sha ≡ sha)
    × (c.contract_hash ≡ contract)
    × (c.diff_hash ≡ diff)
    × (c.evidence_tree_hash ≡ tree)

pub record HasProvenance (journal : List BrokerCommand) (id : String) (run : BrokerRun)
    : Type 0 where
  pub candidate :
      is_reviewed run.result.state ≡ true
      → FromCandidate journal id run.result.diff_hash run.result.tree_hash
          run.result.review_attestation_hash
  pub uncommitted : before_commit run.result.state ≡ true → run.result.commit_sha ≡ none
  pub commit :
      (sha : String)
      → run.result.commit_sha ≡ some sha
      → FromCommit journal id sha run.contract.contract_hash run.result.diff_hash
          run.result.tree_hash

record SameEvidence (run next : BrokerRun) : Type 0 where
  contract : next.contract ≡ run.contract
  diff : next.result.diff_hash ≡ run.result.diff_hash
  tree : next.result.tree_hash ≡ run.result.tree_hash
  attestation : next.result.review_attestation_hash ≡ run.result.review_attestation_hash
  commit : next.result.commit_sha ≡ run.result.commit_sha
  reviewed : is_reviewed next.result.state ≡ true → is_reviewed run.result.state ≡ true
  before : before_commit next.result.state ≡ true → before_commit run.result.state ≡ true

abbrev KeepsEvidence : RunEvent → BrokerRun → BrokerRun → Type 0
KeepsEvidence (candidate_accepted _) run next = Unit
KeepsEvidence (commit_created _) run next = Unit
KeepsEvidence _ run next = SameEvidence run next

branch-KeepsEvidence :
    (fold_case : String → String) (run : BrokerRun) (event : RunEvent) (next : BrokerRun)
    → branch fold_case run event ≡ ok next
    → KeepsEvidence event run next
unfolding branch
branch-KeepsEvidence f run (review_verdict_recorded v) next e = ground (arith, verdict_fits run v)
branch-KeepsEvidence f run (branch_pushed c) next e = ground (arith, push_fits run c)
branch-KeepsEvidence f run (pull_request_recorded c) next e =
    ground (arith, pull_request_fits run c)
branch-KeepsEvidence f run (required_checks_passed c) next e = ground (arith, checks_fit run c)
branch-KeepsEvidence f run (run_merged c) next e = ground (arith, merge_fits run c)
branch-KeepsEvidence f run (publication_skipped c) next e = ground (arith, skip_fits run c)
branch-KeepsEvidence f run (candidate_accepted c) next e = tt
branch-KeepsEvidence f run (commit_created c) next e = tt
branch-KeepsEvidence f run _ next e = ground arith

module _ (fold_case : String → String) (journal : List BrokerCommand) (id : String) where
  -- The same evidence has the same provenance.
  HasProvenance-same :
      (run next : BrokerRun)
      → HasProvenance journal id run
      → SameEvidence run next
      → HasProvenance journal id next
  HasProvenance-same run next h s = record {
    candidate = λ r.
        let (cid, c, there, d, t, a) = h.candidate (s.reviewed r) in
        (cid, c, there, d ∙ sym s.diff, t ∙ sym s.tree, a ∙ sym s.attestation);
    uncommitted = λ b. s.commit ∙ h.uncommitted (s.before b);
    commit = λ sha e.
        let (cid, c, there, k, o, d, t) = h.commit sha (sym s.commit ∙ e) in
        (
          cid,
          c,
          there,
          k,
          o ∙ sym (ap (λ w. w.contract_hash) s.contract),
          d ∙ sym s.diff,
          t ∙ sym s.tree,
        );
  }

  branch-HasProvenance :
      (cid : String) (run : BrokerRun) (event : RunEvent) (next : BrokerRun)
      → Memᴰ (run_event cid id event) journal
      → HasProvenance journal id run
      → branch fold_case run event ≡ ok next
      → HasProvenance journal id next
  unfolding branch
  branch-HasProvenance cid run (candidate_accepted c) next there h e =
      let free : run.result.commit_sha ≡ none =
        h.uncommitted (ground (arith, candidate_fits fold_case run c)) in
      record {
        candidate = λ r. (cid, c, there, ground arith, ground arith, ground arith);
        uncommitted = λ b. ground arith;
        commit = λ sha k. absurd (ground arith);
      }
  branch-HasProvenance cid run (commit_created c) next there h e =
      let fits : CommitFits run c = commit_fits run c (ground arith) in
      let (cid', c', there', d, t, a) = h.candidate (ground arith) in
      record {
        candidate = λ r. (cid', c', there', ground arith, ground arith, ground arith);
        uncommitted = λ b. absurd (ground arith);
        commit = λ sha k. (cid, c, there, ground arith, ground arith, ground arith, ground arith);
      }
  branch-HasProvenance cid run event next there h e =
      HasProvenance-same run next h (branch-KeepsEvidence fold_case run event next e)

module _ (fold_case : String → String) where
  -- In the state that a journal of freshly accepted runs reduces to, a run from its accepted
  -- candidate on, unless it failed, has the diff, the tree and the attestation of a candidate that
  -- the journal accepted for it; and a run with a commit, in any phase, has that commit by a
  -- command of the journal for it, whose contract, diff and tree are the run's own.
  pub replay_broker_state-HasProvenance :
      (journal : List BrokerCommand) (state : BrokerState)
      → All IsFresh journal
      → replay_broker_state fold_case journal ≡ ok state
      → Runs (λ id run. HasProvenance journal id run) state
  replay_broker_state-HasProvenance journal state fresh e =
      replay_broker_state-Runs fold_case (λ id run. HasProvenance journal id run)
        (λ c. Memᴰ c journal × IsFresh c)
        (λ cid id c known _ _. record {
          candidate = λ r. absurd (ground (arith, known.1));
          uncommitted = λ b. known.1.3;
          commit = λ sha k. absurd (ground (arith, known.1));
        })
        (λ cid id run event next known h _ branched.
          branch-HasProvenance fold_case journal id cid run event next known.0 h branched)
        journal state (All-of_mem _ journal (λ c m. (m, All_at IsFresh journal c fresh m))) e
