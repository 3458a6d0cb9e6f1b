-- ===== src/Pilot/Advances.antt =====
-- What a handler that succeeds says of its parts (src/pilot/state-machine.ts).
use agent_orchestration_star.Base.{
  ◌!=◌, nat_eq, string_eq, option_eq, any, lookup, insert, add, ok, >>=-inversion, guard_inversion,
  require_inversion, ok-injective, String, ◌≡◌, sym, false, not, none, some, List,
}
use agent_orchestration_star.Pilot.Vocabulary.{
  arm_eq, capability_eq, kind_eq, decision_eq, isolation_eq, finding_eq, role_eq,
}
use agent_orchestration_star.Pilot.States.{Route, state_eq, type_eq, route_eq}
use agent_orchestration_star.Pilot.Events.{
  ExecutionStarted, ExecutionCompleted, ReviewStarted, ReviewCompleted,
}
use agent_orchestration_star.Pilot.Manifest.{ManifestBlock, Manifest}
use agent_orchestration_star.Pilot.Lifecycle.{completed}
use agent_orchestration_star.Pilot.Reduction.{
  Owned, AttemptEntry, Reduction, adjust, same_strings, retain_findings,
}
use agent_orchestration_star.Pilot.Handlers.{
  attempt_refused, input_chain_broken, session_used, target_differs, start_execution,
  execution_differs, complete_entry, tree_refused, complete_execution, start_review_of,
  reviews_other, review_refused, start_review, review_differs, completed_of, boundary_chain_broken,
  close_review, decide, evidence_differs, complete_review,
}

pub record StartedExecution (block : ManifestBlock) (route : Route) (r : Reduction)
    (execution : ExecutionStarted) (next : Reduction) : Type 0 where
  pub fresh : attempt_refused r execution ≡ false
  pub chained : input_chain_broken block r execution ≡ false
  pub unused : session_used r execution.executor_session_id ≡ false
  pub targeted : target_differs route r execution ≡ false
  pub effect : next ≡ record r {
    executor_sessions = add execution.executor_session_id r.executor_sessions;
    current_attempt = some execution;
    current_completion = none;
    attempts =
        insert execution.attempt_id
          (record { started = execution; completed = none; review_started = false })
          r.attempts;
  }

pub start_execution_inversion :
    (block : ManifestBlock) (route : Route) (r : Reduction) (execution : ExecutionStarted)
    (next : Reduction)
    → start_execution block route r execution ≡ ok next
    → StartedExecution block route r execution next
unfolding start_execution
start_execution_inversion block route r execution next e =
    let (fresh, e1) = guard_inversion (attempt_refused r execution) _ _ e in
    let (chained, e2) = guard_inversion (input_chain_broken block r execution) _ _ e1 in
    let (unused, e3) = guard_inversion (session_used r execution.executor_session_id) _ _ e2 in
    let (targeted, e4) = guard_inversion (target_differs route r execution) _ _ e3 in
    record {
      fresh = fresh;
      chained = chained;
      unused = unused;
      targeted = targeted;
      effect = sym (ok-injective e4);
    }

pub record CompletedExecution (manifest : Manifest) (r : Reduction) (event_id : String)
    (completion : ExecutionCompleted) (next : Reduction) : Type 0 where
  pub current : ExecutionStarted
  pub is_current : r.current_attempt ≡ some current
  pub owned : execution_differs current completion.started ≡ false
  pub reproduced : tree_refused manifest completion ≡ false
  pub effect : next ≡ record r {
    attempts =
        adjust completion.attempt_id
          (complete_entry (record { event_id = event_id; payload = completion }))
          r.attempts;
    current_completion = some (record { event_id = event_id; payload = completion });
  }

pub complete_execution_inversion :
    (manifest : Manifest) (r : Reduction) (event_id : String) (completion : ExecutionCompleted)
    (next : Reduction)
    → complete_execution manifest r event_id completion ≡ ok next
    → CompletedExecution manifest r event_id completion next
unfolding complete_execution
complete_execution_inversion manifest r event_id completion next e =
    let (current, is_current, e1) = require_inversion r.current_attempt _ _ e in
    let (_, e2) = guard_inversion (current.attempt_id != completion.attempt_id) _ _ e1 in
    let (owned, e3) = guard_inversion (execution_differs current completion.started) _ _ e2 in
    let (reproduced, e4) = guard_inversion (tree_refused manifest completion) _ _ e3 in
    let (_, _, e5) = require_inversion (lookup completion.attempt_id r.attempts) _ _ e4 in
    record {
      current = current;
      is_current = is_current;
      owned = owned;
      reproduced = reproduced;
      effect = sym (ok-injective e5);
    }

pub record StartedReview (r : Reduction) (review : ReviewStarted) (next : Reduction) : Type 0 where
  pub attempt : AttemptEntry
  pub completion : Owned ExecutionCompleted
  pub attempted : lookup review.reviewed_attempt_id r.attempts ≡ some attempt
  pub completed : attempt.completed ≡ some completion
  pub reviews_it : reviews_other r review completion ≡ false
  pub fresh : review_refused r review ≡ false
  pub effect : next ≡ record r {
    attempts = adjust review.reviewed_attempt_id start_review_of r.attempts;
    reviewer_sessions = add review.reviewer_session_id r.reviewer_sessions;
    current_review = some review;
    reviews =
        insert review.review_id
          (record { started = review; completed = none; window_open = false })
          r.reviews;
  }

pub start_review_inversion :
    (r : Reduction) (review : ReviewStarted) (next : Reduction)
    → start_review r review ≡ ok next
    → StartedReview r review next
unfolding start_review
start_review_inversion r review next e =
    let (attempt, attempted, e1) =
      require_inversion (lookup review.reviewed_attempt_id r.attempts) _ _ e in
    let (completion, completed, e2) = require_inversion attempt.completed _ _ e1 in
    let (reviews_it, e3) = guard_inversion (reviews_other r review completion) _ _ e2 in
    let (fresh, e4) = guard_inversion (review_refused r review) _ _ e3 in
    record {
      attempt = attempt;
      completion = completion;
      attempted = attempted;
      completed = completed;
      reviews_it = reviews_it;
      fresh = fresh;
      effect = sym (ok-injective e4);
    }

pub record CompletedReview (block : ManifestBlock) (r : Reduction) (event_id : String)
    (review : ReviewCompleted) (next : Reduction) : Type 0 where
  pub completion : Owned ExecutionCompleted
  pub completed : completed_of (lookup review.reviewed_attempt_id r.attempts) ≡ some completion
  pub chained : boundary_chain_broken block r.previous_review review completion.payload ≡ false
  pub evidenced : evidence_differs r review ≡ false
  pub unresolved : List String
  pub retained : retain_findings r.unresolved review.material_findings ≡ ok unresolved
  pub declared : not (same_strings review.unresolved_finding_ids unresolved) ≡ false
  pub effect :
      next
      ≡ decide
          (record r {
            unresolved = unresolved;
            reviews = adjust review.review_id (close_review review) r.reviews;
            previous_review = some review;
            current_review = none;
          })
          event_id
          review
          completion.payload
          review.decision

pub complete_review_inversion :
    (block : ManifestBlock) (r : Reduction) (event_id : String) (review : ReviewCompleted)
    (next : Reduction)
    → complete_review block r event_id review ≡ ok next
    → CompletedReview block r event_id review next
unfolding complete_review
complete_review_inversion block r event_id review next e =
    let (current, _, e1) = require_inversion r.current_review _ _ e in
    let (_, e2) = guard_inversion (current.review_id != review.review_id) _ _ e1 in
    let (_, e3) = guard_inversion (review_differs current review.started) _ _ e2 in
    let (completion, completed, e4) =
      require_inversion (completed_of (lookup review.reviewed_attempt_id r.attempts)) _ _ e3 in
    let (chained, e5) =
      guard_inversion (boundary_chain_broken block r.previous_review review completion.payload) _ _
        e4 in
    let (evidenced, e6) = guard_inversion (evidence_differs r review) _ _ e5 in
    let (unresolved, retained, e7) =
      >>=-inversion (retain_findings r.unresolved review.material_findings) _ e6 in
    let (_, e8) =
      guard_inversion (any (λ finding. finding.material) review.non_material_findings) _ _ e7 in
    let (declared, e9) =
      guard_inversion (not (same_strings review.unresolved_finding_ids unresolved)) _ _ e8 in
    let (_, _, e10) = require_inversion (lookup review.review_id r.reviews) _ _ e9 in
    record {
      completion = completion;
      completed = completed;
      chained = chained;
      evidenced = evidenced;
      unresolved = unresolved;
      retained = retained;
      declared = declared;
      effect = sym (ok-injective e10);
    }
