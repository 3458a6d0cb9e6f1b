-- ===== src/Health/Evaluate.antt =====
-- The evaluation of a binding's observations (`evaluateRuntimeBindingHealthV4` and
-- `runtimeBindingHealthAllowsV4` of src/runtime/binding-health.ts).
use agent_orchestration_star.Base.{
  ltb, leb, if◌then◌else◌, ◌==◌, ◌!=◌, nat_eq, string_eq, option_eq, is_some, length, drop, any,
  get_or, ok, ◌>>=◌, ◌>>◌, throw_if, ℕ, ◌+◌, ◌-◌, ◌*◌, ◌/◌, String, Bool, true, false, not, ◌&&◌,
  ◌||◌, Option, none, some, List, [], ◌∷◌, ◌++◌, map,
}
use agent_orchestration_star.Contracts.{TaskTrait, trait_eq}
use agent_orchestration_star.RunState.Checks.{is_hash, all_distinct}
use agent_orchestration_star.Health.Evidence.{
  Outcome, invalid_scope, repeated_ids, foreign_observation, Observation, HealthPolicy, Platform,
  is_failure, is_critical, is_canary, Evidenced, verify_policy, timestamp, load_observations,
  time_of, sort_observations,
}

pub data HealthStatus : Type 0 where
  healthy quarantined probation : HealthStatus

pub data HealthAction : Type 0 where
  use_binding quarantine run_canary : HealthAction

abbrev pub is_healthy : HealthStatus → Bool
is_healthy healthy = true
is_healthy _ = false

-- The variables of the evaluation's loop.
pub record Health : Type 0 where
  pub status : HealthStatus
  pub triggered_at : Option String
  pub canaries : ℕ
  pub recent : List Observation
  pub consecutive_failures : ℕ

abbrev pub initial_health : Health
initial_health = record {
  status = healthy;
  triggered_at = none;
  canaries = 0;
  recent = [];
  consecutive_failures = 0;
}

abbrev pub count_failures : List Observation → ℕ
count_failures [] = 0
count_failures (o ∷ os) = (if is_failure o.body.outcome then 1 else 0) + count_failures os

-- `slice(-n)`, for `n` at least 1.
abbrev pub last_of : ℕ → List Observation → List Observation
last_of n os = drop (length os - n) os

-- `Math.round(failures * 10000 / length)`: halves round up. Division by 0 is not reached.
unfoldable pub rounded_rate : ℕ → ℕ → ℕ
rounded_rate failures total =
    if total == 0 then 0 else (2 * (failures * 10000) + total) / (2 * total)

abbrev pub failure_rate : List Observation → ℕ
failure_rate os = rounded_rate (count_failures os) (length os)

module _ (platform : Platform) (policy : HealthPolicy) where
  -- Why a healthy binding is quarantined.
  unfoldable pub trips : Outcome → List Observation → ℕ → Bool
  unfolding rounded_rate
  trips outcome recent consecutive =
      is_critical outcome
      || leb policy.maximum_consecutive_failures consecutive
      || leb policy.minimum_observations (length recent)
        && ltb policy.maximum_failure_rate_basis_points (failure_rate recent)

  abbrev pub next_recent : Health → Observation → List Observation
  next_recent health o =
      if is_canary o.body.outcome
      then health.recent
      else last_of policy.window_size (health.recent ++ o ∷ [])

  abbrev pub next_consecutive : Health → Observation → ℕ
  next_consecutive health o =
      if is_failure o.body.outcome then health.consecutive_failures + 1 else 0

  unfoldable pub judge : Health → Observation → List Observation → ℕ → Health
  unfolding trips
  judge health o recent consecutive =
      if trips o.body.outcome recent consecutive
      then record {
        status = quarantined;
        triggered_at = some o.body.recorded_at;
        canaries = 0;
        recent = recent;
        consecutive_failures = consecutive;
      }
      else record {
        status = health.status;
        triggered_at = health.triggered_at;
        canaries = health.canaries;
        recent = recent;
        consecutive_failures = consecutive;
      }

  unfoldable pub observe_healthy : Health → Observation → Health
  unfolding judge
  observe_healthy health o = judge health o (next_recent health o) (next_consecutive health o)

  -- The time from which canaries count.
  abbrev pub cooldown_end : Option String → ℕ
  cooldown_end triggered =
      get_or (platform.timestamp (get_or triggered "")) 0 + policy.cooldown_seconds * 1000

  unfoldable pub observe_canary : Health → Health
  observe_canary health =
      let canaries = health.canaries + 1 in
      if leb policy.recovery_canary_successes canaries
      then record {
        status = healthy;
        triggered_at = none;
        canaries = canaries;
        recent = [];
        consecutive_failures = 0;
      }
      else record health { status = probation; canaries = canaries }

  unfoldable pub observe_unhealthy : Health → Observation → Health
  unfolding observe_canary
  observe_unhealthy health o =
      if is_failure o.body.outcome
      then record health {
        status = quarantined;
        triggered_at = some o.body.recorded_at;
        canaries = 0;
        consecutive_failures = health.consecutive_failures + 1;
      }
      else (if is_canary o.body.outcome
            && leb (cooldown_end health.triggered_at) (time_of platform o)
          then observe_canary health
          else health)

  unfoldable pub observe : Health → Observation → Health
  unfolding observe_healthy observe_unhealthy
  observe health o =
      if is_healthy health.status then observe_healthy health o else observe_unhealthy health o

  unfoldable pub observe_all : Health → List Observation → Health
  unfolding observe
  observe_all health [] = health
  observe_all health (o ∷ os) = observe_all (observe health o) os

pub record SnapshotBody : Type 0 where
  pub binding_hash : String
  pub task_trait : TaskTrait
  pub evaluated_at : String
  pub status : HealthStatus
  pub normal_routing_allowed : Bool
  pub recommended_action : HealthAction
  pub consecutive_failures : ℕ
  pub failure_rate_basis_points : ℕ
  pub recovery_canary_successes : ℕ
  pub quarantine_triggered_at : Option String
  pub observation_hashes : List String
  pub policy_hash : String

pub record Snapshot : Type 0 where
  pub body : SnapshotBody
  pub snapshot_hash : String

abbrev pub recommend : HealthStatus → Bool → HealthAction
recommend healthy cooled = use_binding
recommend _ true = run_canary
recommend _ false = quarantine

module _ (platform : Platform) (hash_snapshot : SnapshotBody → String) where
  abbrev pub snapshot_of :
      HealthPolicy → String → TaskTrait → String → ℕ → List Observation → Health → Snapshot
  snapshot_of policy binding trait evaluated_at time observations health =
      let cooled =
        is_some health.triggered_at
        && leb (cooldown_end platform policy health.triggered_at) time in
      let body : SnapshotBody = record {
        binding_hash = binding;
        task_trait = trait;
        evaluated_at = evaluated_at;
        status = health.status;
        normal_routing_allowed = is_healthy health.status;
        recommended_action = recommend health.status cooled;
        consecutive_failures = health.consecutive_failures;
        failure_rate_basis_points = failure_rate (last_of policy.window_size health.recent);
        recovery_canary_successes = health.canaries;
        quarantine_triggered_at = health.triggered_at;
        observation_hashes = map (λ (o : Observation). o.observation_hash) observations;
        policy_hash = platform.hash_policy policy;
      } in
      record { body = body; snapshot_hash = hash_snapshot body }

  -- An observation of another scope, or of the future.
  abbrev pub is_foreign : String → TaskTrait → ℕ → Observation → Bool
  is_foreign binding trait time o =
      o.body.binding_hash != binding || o.body.task_trait != trait || ltb time (time_of platform o)

  unfoldable pub evaluate_health :
      String → TaskTrait → List Observation → HealthPolicy → String → Evidenced Snapshot
  unfolding verify_policy load_observations sort_observations observe_all all_distinct
  evaluate_health binding trait supplied policy evaluated_at = do
    throw_if (not (is_hash binding)) invalid_scope
    time ← timestamp platform evaluated_at
    verify_policy policy
    loaded ← load_observations platform supplied
    throw_if
        (not (
          all_distinct
            (map (λ (o : Observation). o.body.observation_id) (sort_observations platform loaded))))
        repeated_ids
    throw_if (any (is_foreign binding trait time) (sort_observations platform loaded))
        foreign_observation
    ok (
        snapshot_of policy binding trait evaluated_at time (sort_observations platform loaded)
          (observe_all platform policy initial_health (sort_observations platform loaded)))
