-- ===== src/Health/Limits.antt =====
-- A binding in normal use is within its policy (src/runtime/binding-health.ts).
use agent_orchestration_star.Base.{
  leb, nat_beq, nat_beq_iff, nat_eq, string_eq, option_eq, Bool-cases, is_some, length, length-drop,
  ok, ℕ, ◌+◌, ◌-◌, ◌*◌, ◌≤◌, ◌<◌, ◌≡◌, refl, inl, inr, true, false, not, ◌&&◌, List, [], ◌∷◌, ◌++◌,
  arith,
}
use agent_orchestration_star.Health.Evidence.{
  Observation, HealthPolicy, Platform, is_failure, is_canary, verify_policy, time_of,
}
use agent_orchestration_star.Health.Evaluate.{
  Health, is_healthy, initial_health, count_failures, last_of, rounded_rate, failure_rate, trips,
  next_recent, next_consecutive, judge, observe_healthy, cooldown_end, observe_canary,
  observe_unhealthy, observe, observe_all,
}
use native.Mathlib.Nat.{div-lt_iff_lt-mul}

pub record IsWithin (policy : HealthPolicy) (health : Health) : Type 0 where
  pub bounded : length health.recent ≤ policy.window_size
  pub triggered : is_some health.triggered_at ≡ not (is_healthy health.status)
  pub consecutive :
      is_healthy health.status ≡ true
      → health.consecutive_failures < policy.maximum_consecutive_failures
  pub rate :
      is_healthy health.status ≡ true
      → policy.minimum_observations ≤ length health.recent
      → failure_rate health.recent ≤ policy.maximum_failure_rate_basis_points

-- What the checks of a policy leave.
pub record IsVerified (policy : HealthPolicy) : Type 0 where
  pub some_minimum : 0 < policy.minimum_observations
  pub some_consecutive : 0 < policy.maximum_consecutive_failures
  pub some_canaries : 0 < policy.recovery_canary_successes
  pub rate_bound : policy.maximum_failure_rate_basis_points ≤ 10000

pub verify_policy-IsVerified :
    (policy : HealthPolicy) → verify_policy policy ≡ ok tt → IsVerified policy
unfolding verify_policy
verify_policy-IsVerified policy h = record {
  some_minimum = ground arith;
  some_consecutive = ground arith;
  some_canaries = ground arith;
  rate_bound = ground arith;
}

count_failures_le : (os : List Observation) → count_failures os ≤ length os
count_failures_le [] = omega arith
count_failures_le (o ∷ os) = ground (arith, count_failures_le os)

-- The rate of any observations is at most 10000 basis points.
pub failure_rate_bounded : (os : List Observation) → failure_rate os ≤ 10000
unfolding rounded_rate
failure_rate_bounded os = elim (Bool-cases (nat_beq (length os) 0)) [
  | inl none_seen ↦ rw none_seen (omega arith)
  | inr some_seen ↦
      let positive : 0 < 2 * length os = ground (arith, nat_beq_iff (length os) 0) in
      let below =
        (div-lt_iff_lt-mul {k = 2 * length os} {x = 2 * (count_failures os * 10000) + length os}
            {y = 10001} positive).1
          (omega (arith, count_failures_le os, positive)) in
      rw some_seen (omega (arith, below))
]

length-last_of : (n : ℕ) (os : List Observation) → length (last_of n os) ≤ n
length-last_of n os = omega (arith, length-drop (length os - n) os)

module _ (platform : Platform) (policy : HealthPolicy) (verified : IsVerified policy) where
  judge-IsWithin :
      (health : Health) (o : Observation) (recent : List Observation) (consecutive : ℕ)
      → IsWithin policy health
      → length recent ≤ policy.window_size
      → IsWithin policy (judge platform policy health o recent consecutive)
  unfolding judge
  judge-IsWithin health o recent consecutive h short =
      elim (Bool-cases (trips platform policy o.body.outcome recent consecutive)) [
        | inl tripped ↦ rw tripped (record {
          bounded = short;
          triggered = refl;
          consecutive = λ well. absurd (cc);
          rate = λ well enough. absurd (cc);
        })
        | inr passed ↦ rw passed (record {
          bounded = short;
          triggered = h.triggered;
          consecutive = λ well. unfold trips in ground (arith, passed);
          rate = λ well enough. unfold trips in ground (arith, passed);
        })
      ]

  observe_healthy-IsWithin :
      (health : Health) (o : Observation)
      → IsWithin policy health
      → IsWithin policy (observe_healthy platform policy health o)
  unfolding observe_healthy
  observe_healthy-IsWithin health o h =
      judge-IsWithin health o (next_recent platform policy health o)
        (next_consecutive platform policy health o) h
        (ground (arith, h.bounded, length-last_of policy.window_size (health.recent ++ o ∷ [])))

  observe_canary-IsWithin :
      (health : Health)
      → IsWithin policy health
      → is_healthy health.status ≡ false
      → IsWithin policy (observe_canary platform policy health)
  unfolding observe_canary
  observe_canary-IsWithin health h unwell =
      elim (Bool-cases (leb policy.recovery_canary_successes (health.canaries + 1))) [
        | inl enough ↦ rw enough (record {
          bounded = omega arith;
          triggered = refl;
          consecutive = λ well. verified.some_consecutive;
          rate = λ well some_recent. absurd (omega (arith, verified.some_minimum));
        })
        | inr few ↦ rw few (record {
          bounded = h.bounded;
          triggered = ground (arith, h.triggered);
          consecutive = λ well. absurd (cc);
          rate = λ well some_recent. absurd (cc);
        })
      ]

  observe_unhealthy-IsWithin :
      (health : Health) (o : Observation)
      → IsWithin policy health
      → is_healthy health.status ≡ false
      → IsWithin policy (observe_unhealthy platform policy health o)
  unfolding observe_unhealthy
  observe_unhealthy-IsWithin health o h unwell = elim (Bool-cases (is_failure o.body.outcome)) [
    | inl failed ↦ rw failed (record {
      bounded = h.bounded;
      triggered = refl;
      consecutive = λ well. absurd (cc);
      rate = λ well some_recent. absurd (cc);
    })
    | inr fine ↦
        rw fine
          (elim (Bool-cases (
            is_canary o.body.outcome
            && leb (cooldown_end platform policy health.triggered_at) (time_of platform o))) [
              | inl counts ↦ rw counts (observe_canary-IsWithin health h unwell)
              | inr ignored ↦ rw ignored h
            ])
  ]

  -- Whatever is observed keeps a binding within its policy: at most a window of recent observations;
  -- a trigger exactly while it is not healthy; and, while it is healthy, fewer failures in a row
  -- than the policy's maximum, and a failure rate of at most the policy's once enough is observed.
  pub observe_all-IsWithin :
      (health : Health) (os : List Observation)
      → IsWithin policy health
      → IsWithin policy (observe_all platform policy health os)
  unfolding observe_all observe
  observe_all-IsWithin health [] h = h
  observe_all-IsWithin health (o ∷ os) h =
      observe_all-IsWithin (observe platform policy health o) os
        (elim (Bool-cases (is_healthy health.status)) [
          | inl well ↦ rw well (observe_healthy-IsWithin health o h)
          | inr unwell ↦ rw unwell (observe_unhealthy-IsWithin health o h unwell)
        ])

  pub initial-IsWithin : IsWithin policy initial_health
  initial-IsWithin = record {
    bounded = omega arith;
    triggered = refl;
    consecutive = λ well. verified.some_consecutive;
    rate = λ well enough. absurd (omega (arith, verified.some_minimum));
  }
