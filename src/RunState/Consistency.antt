-- ===== src/RunState/Consistency.antt =====
-- The invariant of a run under its commands (src/runtime/run-state.ts).
use agent_orchestration_star.Base.{
  is_some, ℕ, suc, ◌+◌, String, false, List, [], ◌∷◌, ◌++◌, ◌≡◌, ok, length, string_eq, arith,
}
use agent_orchestration_star.Contracts.{
  Attempt, awaiting_reinspection, execution_started, phase_is, is_terminal,
}
use agent_orchestration_star.RunState.Commands.{
  RunEvent, attempt_recorded, candidate_accepted, review_verdict_recorded, commit_created,
  branch_pushed, pull_request_recorded, required_checks_passed, run_merged, publication_skipped,
  BrokerRun,
}
use agent_orchestration_star.RunState.Reduce.{branch}
use agent_orchestration_star.RunState.Guards.{
  candidate_fits, verdict_fits, commit_fits, push_fits, pull_request_fits, checks_fit, merge_fits,
  skip_fits,
}

-- The attempts bear the numbers n, n + 1, …
abbrev pub Numbered : ℕ → List Attempt → Type 0
Numbered n [] = Unit
Numbered n (a ∷ as') = (a.attempt ≡ n) × Numbered (suc n) as'

Numbered-append :
    (n : ℕ) (xs : List Attempt) (a : Attempt)
    → Numbered n xs
    → a.attempt ≡ n + length xs
    → Numbered n (xs ++ a ∷ [])
Numbered-append n [] a h e = (omega arith, tt)
Numbered-append n (x ∷ xs) a (p, h) e = (p, Numbered-append (suc n) xs a h (omega arith))

pub record IsConsistent (run : BrokerRun) : Type 0 where
  pub numbered : Numbered 1 run.result.attempts
  pub one_process : is_some run.external_process ≡ phase_is run.result.state execution_started
  pub inspection :
      is_terminal run.result.state ≡ false
      → run.inspection_required ≡ phase_is run.result.state awaiting_reinspection

pub branch-IsConsistent :
    (fold_case : String → String) (run : BrokerRun) (event : RunEvent) (next : BrokerRun)
    → IsConsistent run
    → branch fold_case run event ≡ ok next
    → IsConsistent next
unfolding branch
branch-IsConsistent f run (attempt_recorded a) next h e =
    ground (arith, Numbered-append 1 run.result.attempts a h.numbered)
branch-IsConsistent f run (candidate_accepted c) next h e = ground (arith, candidate_fits f run c)
branch-IsConsistent f run (review_verdict_recorded v) next h e = ground (arith, verdict_fits run v)
branch-IsConsistent f run (commit_created c) next h e = ground (arith, commit_fits run c)
branch-IsConsistent f run (branch_pushed c) next h e = ground (arith, push_fits run c)
branch-IsConsistent f run (pull_request_recorded c) next h e =
    ground (arith, pull_request_fits run c)
branch-IsConsistent f run (required_checks_passed c) next h e = ground (arith, checks_fit run c)
branch-IsConsistent f run (run_merged c) next h e = ground (arith, merge_fits run c)
branch-IsConsistent f run (publication_skipped c) next h e = ground (arith, skip_fits run c)
branch-IsConsistent f run _ next h e = ground arith
