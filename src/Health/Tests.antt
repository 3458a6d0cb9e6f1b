-- ===== src/Health/Tests.antt =====
-- A binding that violates its authority and comes back by a canary.
use agent_orchestration_star.Base.{
  if◌then◌else◌, ◌==◌, nat_eq, string_eq, option_eq, text_leb, ok, ℕ, ◌≤◌, String, ◌≡◌, refl, true,
  Option, none, some, List, [], ◌∷◌, Memᴰ, arith,
}
use agent_orchestration_star.RunState.Checks.{is_hash}
use agent_orchestration_star.Health.Evidence.{
  Outcome, canary_accepted, authority_violation, Observation, HealthPolicy, Platform,
  default_health_policy, Evidenced, is_health_id, sort_observations,
}
use agent_orchestration_star.Health.Evaluate.{
  SnapshotBody, Snapshot, is_healthy, initial_health, observe_all, snapshot_of, evaluate_health,
}
use agent_orchestration_star.Health.Limits.{
  IsWithin, IsVerified, observe_all-IsWithin, initial-IsWithin,
}
use agent_orchestration_star.Health.Recovery.{late_canaries, critical_needs_canaries}
use agent_orchestration_star.Health.Snapshots.{
  IsSafeSnapshot, health_allows, health_allows-every, evaluate_health-IsSafeSnapshot,
}
use agent_orchestration_star.Samples.{hash64}
use agent_orchestration_star.Contracts.{mechanical, trait_eq}

abbrev clock : String → Option ℕ
clock s = if s == "early" then some 0 else (if s == "late" then some 4000000 else none)

abbrev platform : Platform
platform = record {
  timestamp = clock;
  id_leb = text_leb;
  hash_observation = λ _. hash64;
  hash_policy = λ _. hash64;
}

abbrev observation : String → String → Outcome → Observation
observation id time outcome = record {
  body = record {
    observation_id = id;
    binding_hash = hash64;
    task_trait = mechanical;
    recorded_at = time;
    outcome = outcome;
  };
  observation_hash = hash64;
}

abbrev violation : Observation
violation = observation "health_00000001" "early" authority_violation

abbrev canary : Observation
canary = observation "health_00000002" "late" canary_accepted

abbrev one_canary : HealthPolicy
one_canary = record default_health_policy { recovery_canary_successes = 1 }

abbrev observed : List Observation
observed = canary ∷ violation ∷ []

one_canary-IsVerified : IsVerified one_canary
one_canary-IsVerified = record {
  some_minimum = omega arith;
  some_consecutive = omega arith;
  some_canaries = omega arith;
  rate_bound = omega arith;
}

in_order : sort_observations platform observed ≡ violation ∷ canary ∷ []
unfolding sort_observations
in_order = refl

back_in_use :
    is_healthy
      (observe_all platform one_canary initial_health (sort_observations platform observed)).status
    ≡ true
unfolding sort_observations observe_all
back_in_use = refl

observe_all-IsWithin_example :
    IsWithin one_canary (observe_all platform one_canary initial_health observed)
observe_all-IsWithin_example =
    observe_all-IsWithin platform one_canary one_canary-IsVerified initial_health observed
      (initial-IsWithin platform one_canary one_canary-IsVerified)

critical_needs_canaries_example : 1 ≤ late_canaries platform one_canary 0 (canary ∷ [])
critical_needs_canaries_example =
    critical_needs_canaries platform one_canary initial_health observed [] (canary ∷ []) violation
      in_order refl back_in_use

abbrev hash_snapshot : SnapshotBody → String
hash_snapshot _ = hash64

evaluated : Evidenced Snapshot
unfolding evaluate_health is_hash is_health_id
evaluated = evaluate_health platform hash_snapshot hash64 mechanical observed one_canary "late"

snapshot : Snapshot
unfolding sort_observations observe_all
snapshot =
    snapshot_of platform hash_snapshot one_canary hash64 mechanical "late" 4000000
      (sort_observations platform observed)
      (observe_all platform one_canary initial_health (sort_observations platform observed))

evaluates :
    evaluate_health platform hash_snapshot hash64 mechanical observed one_canary "late"
    ≡ ok snapshot
unfolding evaluate_health is_hash is_health_id snapshot
evaluates = refl

evaluate_health-IsSafeSnapshot_example : IsSafeSnapshot platform hash_snapshot one_canary snapshot
evaluate_health-IsSafeSnapshot_example =
    evaluate_health-IsSafeSnapshot platform hash_snapshot hash64 mechanical observed one_canary
      "late" snapshot evaluates

allowed : health_allows platform hash_snapshot (snapshot ∷ []) hash64 (mechanical ∷ []) ≡ ok true
unfolding health_allows is_hash snapshot
allowed = refl

health_allows-every_example : snapshot.body.normal_routing_allowed ≡ true
unfolding snapshot
health_allows-every_example =
    health_allows-every platform hash_snapshot (snapshot ∷ []) hash64 (mechanical ∷ []) mechanical
      snapshot allowed (Memᴰ.head refl) (Memᴰ.head refl) refl
