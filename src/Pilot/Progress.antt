-- ===== src/Pilot/Progress.antt =====
-- The progress of a block that its replay keeps: how much was tried and reviewed, by whom, and
-- what an acceptance rests on (src/pilot/state-machine.ts).
use text.Mathlib.TextEquality.{eq_iff}
use agent_orchestration_star.Base.{
  ◌==◌, nat_eq, string_eq, option_eq, ==_eq, length, elem, insert, add, ok, ℕ, suc, ◌≤◌, String,
  ◌≡◌, refl, ◌∙◌, ◌⊎◌, true, false, not, ◌&&◌, ◌||◌, none, some, List, [], ◌∷◌, ◌++◌, arith,
}
use agent_orchestration_star.Pilot.Vocabulary.{
  accept, arm_eq, capability_eq, kind_eq, decision_eq, isolation_eq, finding_eq, role_eq,
}
use agent_orchestration_star.Pilot.States.{BlockState, Route, state_eq, type_eq, route_eq}
use agent_orchestration_star.Pilot.Events.{
  Payload, ExecutionStarted, ExecutionCompleted, ReviewStarted, ReviewCompleted,
}
use agent_orchestration_star.Pilot.Manifest.{ManifestBlock, Manifest}
use agent_orchestration_star.Pilot.Machine.{is_empty}
use agent_orchestration_star.Pilot.Lifecycle.{reviewed, completed, started, under_review}
use agent_orchestration_star.Pilot.Reduction.{
  AttemptEntry, ReviewEntry, Reduction, adjust, close_windows, enter_event, same_strings,
}
use agent_orchestration_star.Pilot.Handlers.{
  session_used, start_execution, complete_entry, complete_execution, start_review_of,
  review_refused, start_review, boundary_chain_broken, close_review, complete_review,
}
use agent_orchestration_star.Pilot.Replay.{settle}
use agent_orchestration_star.Pilot.Advances.{
  CompletedReview, start_execution_inversion, complete_execution_inversion, start_review_inversion,
  complete_review_inversion,
}
use agent_orchestration_star.Pilot.Effects.{Unmoved}
use agent_orchestration_star.Pilot.Bounds.{
  Widens, attempts_bound, reviews_bound, is_settled, started_bounds, under_review_bounds,
  completed_bounds, reviewed_bounds,
}

-- The accepted review leaves no finding open and is of the accepted completion's revision.
pub record Settled (r : Reduction) : Type 0 where
  pub review : ReviewCompleted
  pub completion : ExecutionCompleted
  pub reviewed : r.accepted_review ≡ some review
  pub completed : r.accepted_completion ≡ some completion
  pub accepting : review.decision ≡ accept
  pub same_revision : review.review_boundary_to_revision ≡ completion.output_revision
  pub none_open : r.unresolved ≡ []

pub record IsProgress (r : Reduction) : Type 0 where
  pub attempts : length r.attempts ≤ attempts_bound r.state
  pub reviews : length r.reviews ≤ reviews_bound r.state
  pub apart :
      (session : String)
      → elem session r.executor_sessions ≡ true
      → elem session r.reviewer_sessions ≡ false
  pub settled : is_settled r.state ≡ true → Settled r

pub length-insert {ℓ} :
    {V : Type ℓ} (key : String) (value : V) (xs : List (String × V))
    → length (insert key value xs) ≤ suc (length xs)
unfolding insert
length-insert key value [] = omega arith
length-insert key value ((other, old) ∷ rest) = ground (arith, length-insert key value rest)

length-adjust {ℓ} :
    {V : Type ℓ} (key : String) (change : V → V) (xs : List (String × V))
    → length (adjust key change xs) ≡ length xs
length-adjust key change [] = refl
length-adjust key change (x ∷ rest) = ground (arith, length-adjust key change rest)

length-close_windows : (xs : List (String × ReviewEntry)) → length (close_windows xs) ≡ length xs
length-close_windows [] = refl
length-close_windows (x ∷ rest) = ground (arith, length-close_windows rest)

elem-append : (x : String) (xs ys : List String) → elem x (xs ++ ys) ≡ (elem x xs || elem x ys)
elem-append x [] ys = refl
elem-append x (y ∷ xs) ys = ground (arith, elem-append x xs ys)

pub elem-add :
    (x y : String) (xs : List String) → elem x (add y xs) ≡ true → (elem x xs ≡ true) ⊎ (x ≡ y)
elem-add x y xs h = ground (arith, elem-append x xs (y ∷ []), eq_iff y x)

-- Entering an event moves nothing.
pub enter_event-IsProgress :
    (r : Reduction) (payload : Payload) → IsProgress r → IsProgress (enter_event r payload)
unfolding enter_event
enter_event-IsProgress r payload p = record {
  attempts = p.attempts;
  reviews = ground (arith, p.reviews, length-close_windows r.reviews);
  apart = p.apart;
  settled = λ e.
      let s = p.settled e in
      record {
        review = s.review;
        completion = s.completion;
        reviewed = s.reviewed;
        completed = s.completed;
        accepting = s.accepting;
        same_revision = s.same_revision;
        none_open = s.none_open;
      };
}

-- A start of an attempt by a session that was not used.
pub start_execution-IsProgress :
    (block : ManifestBlock) (route : Route) (r : Reduction) (execution : ExecutionStarted)
    (handled : Reduction) (at : ℕ) (next : BlockState)
    → IsProgress r
    → start_execution block route r execution ≡ ok handled
    → started r.state ≡ some next
    → IsProgress (settle handled at next)
unfolding session_used
start_execution-IsProgress block route r execution handled at next p e leads =
    let f = start_execution_inversion block route r execution handled e in
    let b = started_bounds r.state next leads in
    let entry : AttemptEntry = record {
      started = execution;
      completed = none;
      review_started = false;
    } in
    record {
      attempts = ground (arith, f.effect, b.0, length-insert execution.attempt_id entry r.attempts);
      reviews = ground (arith, f.effect, b.1);
      apart = λ session used. ground (
        arith,
        f.effect,
        f.unused,
        p.apart session,
        elem-add session execution.executor_session_id r.executor_sessions,
      );
      settled = λ it. absurd (ground (arith, it, b.2));
    }

-- A completion of the attempt.
pub complete_execution-IsProgress :
    (manifest : Manifest) (r : Reduction) (event_id : String) (completion : ExecutionCompleted)
    (handled : Reduction) (at : ℕ) (next : BlockState)
    → IsProgress r
    → complete_execution manifest r event_id completion ≡ ok handled
    → completed r.state ≡ some next
    → IsProgress (settle handled at next)
complete_execution-IsProgress manifest r event_id completion handled at next p e leads =
    let f = complete_execution_inversion manifest r event_id completion handled e in
    let (w, open_still) = completed_bounds r.state next leads in
    let change = complete_entry (record { event_id = event_id; payload = completion }) in
    record {
      attempts = ground (arith, f.effect, w, length-adjust completion.attempt_id change r.attempts);
      reviews = ground (arith, f.effect, w);
      apart = λ session. ground (arith, f.effect, p.apart session);
      settled = λ it. absurd (ground (arith, it, open_still));
    }

-- A start of a review by a session that was not used.
pub start_review-IsProgress :
    (r : Reduction) (review : ReviewStarted) (handled : Reduction) (at : ℕ) (next : BlockState)
    → IsProgress r
    → start_review r review ≡ ok handled
    → under_review r.state ≡ some next
    → IsProgress (settle handled at next)
unfolding session_used review_refused
start_review-IsProgress r review handled at next p e leads =
    let f = start_review_inversion r review handled e in
    let b = under_review_bounds r.state next leads in
    let entry : ReviewEntry = record { started = review; completed = none; window_open = false } in
    record {
      attempts = ground (
        arith,
        f.effect,
        b.1,
        length-adjust review.reviewed_attempt_id start_review_of r.attempts,
      );
      reviews = ground (arith, f.effect, b.0, length-insert review.review_id entry r.reviews);
      apart = λ session used. ground (
        arith,
        f.effect,
        f.fresh,
        p.apart session,
        elem-add session review.reviewer_session_id r.reviewer_sessions,
        eq_iff session review.reviewer_session_id,
      );
      settled = λ it. absurd (ground (arith, it, b.2));
    }

same_strings_of_nothing :
    (left right : List String) → is_empty left ≡ true → same_strings left right ≡ true → right ≡ []
unfolding same_strings
same_strings_of_nothing [] [] h e = refl
same_strings_of_nothing [] (x ∷ right) h e = absurd (ground (arith, e))
same_strings_of_nothing (x ∷ left) right h e = absurd (cc h)

-- An accepting review, whose guard was met, settles the block.
decide-Settled :
    (block : ManifestBlock) (r : Reduction) (event_id : String) (review : ReviewCompleted)
    (handled : Reduction) (at : ℕ) (next : BlockState)
    → CompletedReview block r event_id review handled
    → (review.decision == accept && not (is_empty review.unresolved_finding_ids)) ≡ false
    → review.decision ≡ accept
    → Settled (settle handled at next)
unfolding boundary_chain_broken
decide-Settled block r event_id review handled at next f declared it = record {
  review = review;
  completion = (f.completion).payload;
  reviewed = ground (arith, f.effect, it);
  completed = ground (arith, f.effect, it);
  accepting = it;
  same_revision = ==_eq (ground (arith, f.chained));
  none_open = ground (
    arith,
    f.effect,
    it,
    f.declared,
    declared,
    same_strings_of_nothing review.unresolved_finding_ids f.unresolved,
  );
}

-- A completed review.
pub complete_review-IsProgress :
    (block : ManifestBlock) (route : Route) (r : Reduction) (event_id : String)
    (review : ReviewCompleted) (handled : Reduction) (at : ℕ) (next : BlockState)
    → IsProgress r
    → complete_review block r event_id review ≡ ok handled
    → (review.decision == accept && not (is_empty review.unresolved_finding_ids)) ≡ false
    → reviewed route r.state (some review.decision) ≡ some next
    → IsProgress (settle handled at next)
complete_review-IsProgress block route r event_id review handled at next p e declared leads =
    let f = complete_review_inversion block r event_id review handled e in
    let (w, accepted_then) = reviewed_bounds route r.state review.decision next leads in
    record {
      attempts = ground (arith, f.effect, w);
      reviews =
          ground
            (arith, f.effect, w, length-adjust review.review_id (close_review review) r.reviews);
      apart = λ session. ground (arith, f.effect, p.apart session);
      settled = λ it.
          decide-Settled block r event_id review handled at next f declared
            (==_eq {b = accept} (ground (arith, it, accepted_then)));
    }

-- Evidence, and what does not move the block's counts.
pub Unmoved-IsProgress :
    (r handled : Reduction) (at : ℕ) (next : BlockState)
    → IsProgress r
    → Unmoved r handled
    → Widens r.state next
    → (is_settled (some next) ≡ true → is_settled r.state ≡ true)
    → IsProgress (settle handled at next)
Unmoved-IsProgress r handled at next p u w back = record {
  attempts = ground (arith, u.attempts, w, p.attempts);
  reviews = ground (arith, u.reviews, w, p.reviews);
  apart = λ session. ground (arith, u.executor_sessions, u.reviewer_sessions, p.apart session);
  settled = λ it.
      let s = p.settled (back it) in
      record {
        review = s.review;
        completion = s.completion;
        reviewed = u.accepted_review ∙ s.reviewed;
        completed = u.accepted_completion ∙ s.completed;
        accepting = s.accepting;
        same_revision = s.same_revision;
        none_open = u.unresolved ∙ s.none_open;
      };
}
