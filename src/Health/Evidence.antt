-- ===== src/Health/Evidence.antt =====
-- Observations, the policy and their checks (src/runtime/binding-health.ts).
use agent_orchestration_star.Base.{
  ltb, nat_beq, if◌then◌else◌, ◌!=◌, nat_eq, string_eq, option_eq, get_or, Result, ok, ◌>>=◌, ◌>>◌,
  throw_if, require, is_word, repeats, after, ℕ, String, Bool, true, false, not, ◌&&◌, ◌||◌, Option,
  List, [], ◌∷◌,
}
use agent_orchestration_star.Contracts.{TaskTrait, trait_eq}
use agent_orchestration_star.RunState.Checks.{is_hash, within}

pub data Outcome : Type 0 where
  accepted canary_accepted validation_failed review_rejected invalid_output : Outcome
  budget_exceeded provider_unavailable authority_violation false_acceptance : Outcome

-- `failures` and `criticalFailures`.
abbrev pub is_failure : Outcome → Bool
is_failure accepted = false
is_failure canary_accepted = false
is_failure _ = true

abbrev pub is_critical : Outcome → Bool
is_critical authority_violation = true
is_critical false_acceptance = true
is_critical _ = false

abbrev pub is_canary : Outcome → Bool
is_canary canary_accepted = true
is_canary _ = false

-- `schemaVersion` is the literal 4; the body is what the hash covers.
pub record ObservationBody : Type 0 where
  pub observation_id : String
  pub binding_hash : String
  pub task_trait : TaskTrait
  pub recorded_at : String
  pub outcome : Outcome

pub record Observation : Type 0 where
  pub body : ObservationBody
  pub observation_hash : String

pub record HealthPolicy : Type 0 where
  pub window_size : ℕ
  pub minimum_observations : ℕ
  pub maximum_failure_rate_basis_points : ℕ
  pub maximum_consecutive_failures : ℕ
  pub cooldown_seconds : ℕ
  pub recovery_canary_successes : ℕ

abbrev pub default_health_policy : HealthPolicy
default_health_policy = record {
  window_size = 20;
  minimum_observations = 5;
  maximum_failure_rate_basis_points = 4000;
  maximum_consecutive_failures = 2;
  cooldown_seconds = 3600;
  recovery_canary_successes = 3;
}

-- `INVALID_BINDING_HEALTH_EVIDENCE`, by the check that raises it.
pub data HealthError : Type 0 where
  window_outside minimum_outside rate_outside consecutive_outside cooldown_outside : HealthError
  canaries_outside invalid_identity invalid_timestamp invalid_observation_hash : HealthError
  invalid_scope repeated_ids foreign_observation ambiguous_snapshots invalid_snapshot : HealthError

abbrev pub Evidenced : Type 0 → Type 0
Evidenced A = Result HealthError A

-- `positive`, on safe integers.
abbrev pub positive : ℕ → ℕ → HealthError → Evidenced (Unit {0})
positive value maximum reason = throw_if (not (within 1 maximum value)) reason

unfoldable pub verify_policy : HealthPolicy → Evidenced (Unit {0})
verify_policy policy = do
  positive policy.window_size 1000 window_outside
  positive policy.minimum_observations policy.window_size minimum_outside
  positive policy.maximum_failure_rate_basis_points 10000 rate_outside
  positive policy.maximum_consecutive_failures policy.window_size consecutive_outside
  positive policy.cooldown_seconds 2592000 cooldown_outside
  positive policy.recovery_canary_successes 100 canaries_outside

-- `/^health_[A-Za-z0-9_-]{8,96}$/`.
unfoldable pub is_health_id : String → Bool
is_health_id s = after "health_" (repeats (is_word "_-") 8 96) s

-- What the evaluation takes from the platform: the time of a text that is a canonical UTC time, in
-- milliseconds from the earliest date, the order of ids by `localeCompare`, and canonical hashes
-- (src/runtime/canonical.ts).
pub record Platform : Type 0 where
  pub timestamp : String → Option ℕ
  pub id_leb : String → String → Bool
  pub hash_observation : ObservationBody → String
  pub hash_policy : HealthPolicy → String

module _ (platform : Platform) where
  abbrev pub timestamp : String → Evidenced ℕ
  timestamp value = require (platform.timestamp value) invalid_timestamp

  unfoldable pub create_observation : ObservationBody → Evidenced Observation
  unfolding is_health_id is_hash
  create_observation body = do
    throw_if (not (is_health_id body.observation_id) || not (is_hash body.binding_hash))
        invalid_identity
    time ← timestamp body.recorded_at
    ok (record { body = body; observation_hash = platform.hash_observation body })

  unfoldable pub load_observation : Observation → Evidenced Observation
  unfolding create_observation
  load_observation observation = do
    throw_if
        (not (is_hash observation.observation_hash)
          || observation.observation_hash != platform.hash_observation observation.body)
        invalid_observation_hash
    create_observation observation.body

  unfoldable pub load_observations : List Observation → Evidenced (List Observation)
  unfolding load_observation
  load_observations [] = ok []
  load_observations (o ∷ os) = do
    loaded ← load_observation o
    rest ← load_observations os
    ok (loaded ∷ rest)

  -- The time of a loaded observation.
  abbrev pub time_of : Observation → ℕ
  time_of o = get_or (platform.timestamp o.body.recorded_at) 0

  -- By time, then by id; the sort is stable.
  abbrev pub comes_first : Observation → Observation → Bool
  comes_first left right =
      ltb (time_of left) (time_of right)
      || nat_beq (time_of left) (time_of right)
        && platform.id_leb left.body.observation_id right.body.observation_id

  unfoldable pub insert_sorted : Observation → List Observation → List Observation
  insert_sorted o [] = o ∷ []
  insert_sorted o (p ∷ ps) =
      let rest = insert_sorted o ps in if comes_first o p then o ∷ p ∷ ps else p ∷ rest

  unfoldable pub sort_observations : List Observation → List Observation
  unfolding insert_sorted
  sort_observations [] = []
  sort_observations (o ∷ os) = insert_sorted o (sort_observations os)
