-- ===== src/Health/Snapshots.antt =====
-- What a snapshot says, and which bindings snapshots allow (src/runtime/binding-health.ts).
use agent_orchestration_star.Base.{
  ltb, ◌==◌, ◌!=◌, nat_eq, string_eq, option_eq, Bool-cases, ==_eq, is_some, length, any, all, find,
  ok, ◌>>=◌, ◌>>◌, throw_if, >>=-inversion, guard_inversion, require_inversion, ok-injective, ℕ,
  ◌≤◌, ◌<◌, String, ◌≡◌, refl, sym, ap, ◌∙◌, subst, inl, inr, Bool, true, false, not, ◌&&◌, ◌||◌,
  none, some, List, [], ◌∷◌, map, Memᴰ, arith,
}
use agent_orchestration_star.RunState.Checks.{is_hash, all_distinct}
use agent_orchestration_star.Health.Evidence.{
  invalid_timestamp, invalid_scope, repeated_ids, foreign_observation, ambiguous_snapshots,
  invalid_snapshot, Observation, HealthPolicy, Platform, Evidenced, verify_policy, timestamp,
  load_observations, sort_observations,
}
use agent_orchestration_star.Health.Evaluate.{
  HealthStatus, healthy, quarantined, probation, use_binding, Health, SnapshotBody, Snapshot,
  is_healthy, initial_health, last_of, observe_all, recommend, snapshot_of, is_foreign,
  evaluate_health,
}
use agent_orchestration_star.Health.Limits.{
  IsWithin, verify_policy-IsVerified, failure_rate_bounded, observe_all-IsWithin, initial-IsWithin,
}
use agent_orchestration_star.Contracts.{TaskTrait, trait_eq}

abbrev pub same_scope : Snapshot → String → TaskTrait → Bool
same_scope s binding trait = s.body.binding_hash == binding && s.body.task_trait == trait

-- `new Set(scopes).size === scopes.length`: a scope is a hash and a trait.
unfoldable pub distinct_scopes : List Snapshot → Bool
distinct_scopes [] = true
distinct_scopes (s ∷ ss) =
    not (any (λ other. same_scope other s.body.binding_hash s.body.task_trait) ss)
    && distinct_scopes ss

unfoldable pub allows_trait : List Snapshot → String → TaskTrait → Bool
allows_trait snapshots binding trait = elim (find (λ s. same_scope s binding trait) snapshots) [
  | none ↦ true
  | some s ↦ s.body.normal_routing_allowed
]

module _ (platform : Platform) (hash_snapshot : SnapshotBody → String) where
  unfoldable pub check_snapshots : List Snapshot → Evidenced (Unit {0})
  unfolding is_hash
  check_snapshots [] = ok tt
  check_snapshots (s ∷ ss) = do
    time ← timestamp platform s.body.evaluated_at
    throw_if (not (is_hash s.body.binding_hash) || s.snapshot_hash != hash_snapshot s.body)
        invalid_snapshot
    check_snapshots ss

  unfoldable pub health_allows : List Snapshot → String → List TaskTrait → Evidenced Bool
  unfolding all_distinct distinct_scopes check_snapshots allows_trait
  health_allows snapshots binding traits = do
    throw_if
        (ltb 128 (length snapshots)
          || not (all_distinct (map (λ (s : Snapshot). s.snapshot_hash) snapshots))
          || not (distinct_scopes snapshots))
        ambiguous_snapshots
    check_snapshots snapshots
    ok (all (allows_trait snapshots binding) traits)

any-Memᴰ :
    (p : Snapshot → Bool) (ss : List Snapshot) (s : Snapshot)
    → Memᴰ s ss
    → p s ≡ true
    → any p ss ≡ true
any-Memᴰ p [] s there h = elim there [ ]
any-Memᴰ p (q ∷ ss) s (Memᴰ.head e) h = let now : p q ≡ true = ap p (sym e) ∙ h in ground arith
any-Memᴰ p (q ∷ ss) s (Memᴰ.tail there) h = ground (arith, any-Memᴰ p ss s there h)

found_first :
    (q : Snapshot) (ss : List Snapshot) (binding : String) (trait : TaskTrait)
    → same_scope q binding trait ≡ true
    → allows_trait (q ∷ ss) binding trait ≡ q.body.normal_routing_allowed
unfolding allows_trait
found_first q ss binding trait h = ground arith

found_later :
    (q : Snapshot) (ss : List Snapshot) (binding : String) (trait : TaskTrait)
    → same_scope q binding trait ≡ false
    → allows_trait (q ∷ ss) binding trait ≡ allows_trait ss binding trait
unfolding allows_trait
found_later q ss binding trait h = ground arith

-- The only snapshot of a scope is the one found.
allows_trait-all :
    (snapshots : List Snapshot) (binding : String) (trait : TaskTrait) (s : Snapshot)
    → distinct_scopes snapshots ≡ true
    → allows_trait snapshots binding trait ≡ true
    → Memᴰ s snapshots
    → same_scope s binding trait ≡ true
    → s.body.normal_routing_allowed ≡ true
unfolding distinct_scopes
allows_trait-all [] binding trait s distinct allowed there same = elim there [ ]
allows_trait-all (q ∷ ss) binding trait s distinct allowed (Memᴰ.head e) same =
    ap (λ (r : Snapshot). r.body.normal_routing_allowed) e
    ∙ sym (found_first q ss binding trait (ap (λ r. same_scope r binding trait) (sym e) ∙ same))
    ∙ allowed
allows_trait-all (q ∷ ss) binding trait s distinct allowed (Memᴰ.tail there) same =
    elim (Bool-cases (same_scope q binding trait)) [
      | inr differ ↦
          allows_trait-all ss binding trait s (ground arith)
            (sym (found_later q ss binding trait differ) ∙ allowed) there same
      | inl taken ↦
          let binds : q.body.binding_hash ≡ binding = ==_eq (ground arith) in
          let traits : q.body.task_trait ≡ trait = ==_eq (ground arith) in
          let again : same_scope s q.body.binding_hash q.body.task_trait ≡ true =
            ap (λ b. same_scope s b q.body.task_trait) binds
            ∙ ap (λ t. same_scope s binding t) traits
            ∙ same in
          let clash =
            any-Memᴰ (λ other. same_scope other q.body.binding_hash q.body.task_trait) ss s there
              again in
          absurd (ground (arith, clash))
    ]

all_at :
    (p : TaskTrait → Bool) (traits : List TaskTrait) (trait : TaskTrait)
    → all p traits ≡ true
    → Memᴰ trait traits
    → p trait ≡ true
all_at p [] trait h there = elim there [ ]
all_at p (t ∷ traits) trait h (Memᴰ.head e) = ap p e ∙ ground arith
all_at p (t ∷ traits) trait h (Memᴰ.tail there) = all_at p traits trait (ground arith) there

module _ (platform : Platform) (hash_snapshot : SnapshotBody → String) where
  -- Snapshots that allow a binding for some traits have none, at any of these traits, that keeps
  -- the binding out of normal use.
  pub health_allows-every :
      (snapshots : List Snapshot) (binding : String) (traits : List TaskTrait) (trait : TaskTrait)
      (s : Snapshot)
      → health_allows platform hash_snapshot snapshots binding traits ≡ ok true
      → Memᴰ trait traits
      → Memᴰ s snapshots
      → same_scope s binding trait ≡ true
      → s.body.normal_routing_allowed ≡ true
  unfolding health_allows
  health_allows-every snapshots binding traits trait s allowed asked there same =
      let (clear, e1) =
        guard_inversion
          (ltb 128 (length snapshots)
            || not (all_distinct (map (λ (s : Snapshot). s.snapshot_hash) snapshots))
            || not (distinct_scopes snapshots))
          ambiguous_snapshots _ allowed in
      let (_, _, e2) = >>=-inversion (check_snapshots platform hash_snapshot snapshots) _ e1 in
      let every : all (allows_trait snapshots binding) traits ≡ true = ok-injective e2 in
      allows_trait-all snapshots binding trait s (ground arith)
        (all_at (allows_trait snapshots binding) traits trait every asked) there same

  -- What a snapshot tells its readers.
  pub record IsSafeSnapshot (policy : HealthPolicy) (s : Snapshot) : Type 0 where
    pub rate : s.body.failure_rate_basis_points ≤ 10000
    pub in_use : s.body.normal_routing_allowed ≡ is_healthy s.body.status
    pub few_failures :
        s.body.normal_routing_allowed ≡ true
        → s.body.consecutive_failures < policy.maximum_consecutive_failures
    pub no_trigger : s.body.normal_routing_allowed ≡ not (is_some s.body.quarantine_triggered_at)
    pub action : s.body.normal_routing_allowed ≡ true → s.body.recommended_action ≡ use_binding

  healthy_action :
      (status : HealthStatus) (cooled : Bool)
      → is_healthy status ≡ true
      → recommend status cooled ≡ use_binding
  healthy_action healthy cooled h = refl
  healthy_action quarantined cooled h = cc
  healthy_action probation cooled h = cc

  snapshot_of-IsSafeSnapshot :
      (policy : HealthPolicy) (binding : String) (trait : TaskTrait) (evaluated_at : String)
      (time : ℕ) (observations : List Observation) (health : Health)
      → IsWithin policy health
      → IsSafeSnapshot policy (
          snapshot_of platform hash_snapshot policy binding trait evaluated_at time observations
            health)
  snapshot_of-IsSafeSnapshot policy binding trait evaluated_at time observations health h = record {
    rate = failure_rate_bounded (last_of policy.window_size health.recent);
    in_use = refl;
    few_failures = λ well. h.consecutive well;
    no_trigger = ground (arith, h.triggered);
    action = λ well. healthy_action health.status _ well;
  }

  -- A snapshot that the evaluation returns has a failure rate of at most 10000 basis points, and it
  -- allows normal routing exactly while the binding is healthy, which is while no quarantine is
  -- triggered; then it recommends the binding's use, and the failures in a row are fewer than the
  -- policy's maximum.
  pub evaluate_health-IsSafeSnapshot :
      (binding : String) (trait : TaskTrait) (supplied : List Observation) (policy : HealthPolicy)
      (evaluated_at : String) (s : Snapshot)
      → evaluate_health platform hash_snapshot binding trait supplied policy evaluated_at ≡ ok s
      → IsSafeSnapshot policy s
  unfolding evaluate_health
  evaluate_health-IsSafeSnapshot binding trait supplied policy evaluated_at s h =
      let (_, e1) = guard_inversion (not (is_hash binding)) invalid_scope _ h in
      let (time, _, e2) =
        require_inversion (platform.timestamp evaluated_at) invalid_timestamp _ e1 in
      let (_, verified, e3) = >>=-inversion (verify_policy policy) _ e2 in
      let (loaded, _, e4) = >>=-inversion (load_observations platform supplied) _ e3 in
      let observations = sort_observations platform loaded in
      let (_, e5) =
        guard_inversion
          (not (all_distinct (map (λ (o : Observation). o.body.observation_id) observations)))
          repeated_ids _ e4 in
      let (_, e6) =
        guard_inversion (any (is_foreign platform hash_snapshot binding trait time) observations)
          foreign_observation _ e5 in
      let checked = verify_policy-IsVerified policy verified in
      subst (IsSafeSnapshot policy) (ok-injective e6) (
        snapshot_of-IsSafeSnapshot policy binding trait evaluated_at time observations
          (observe_all platform policy initial_health observations)
          (observe_all-IsWithin platform policy checked initial_health observations
            (initial-IsWithin platform policy checked)))
