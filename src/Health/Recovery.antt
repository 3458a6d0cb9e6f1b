-- ===== src/Health/Recovery.antt =====
-- How a quarantined binding comes back into normal use (src/runtime/binding-health.ts).
use agent_orchestration_star.Base.{
  leb, if◌then◌else◌, nat_eq, string_eq, option_eq, Bool-cases, All, get_or, after, ℕ, ◌+◌, ◌*◌,
  ◌≤◌, ◌≡◌, refl, sym, ap, ◌∙◌, ◌⊎◌, inl, inr, Bool, true, false, ◌&&◌, List, [], ◌∷◌, ◌++◌, arith,
}
use agent_orchestration_star.Health.Evidence.{
  Outcome, authority_violation, false_acceptance, Observation, HealthPolicy, Platform, is_failure,
  is_critical, is_canary, time_of, comes_first, insert_sorted, sort_observations,
}
use agent_orchestration_star.Health.Evaluate.{
  Health, is_healthy, trips, judge, observe_healthy, cooldown_end, observe_canary,
  observe_unhealthy, observe, observe_all,
}

critical_failure : (outcome : Outcome) → is_critical outcome ≡ true → is_failure outcome ≡ true
critical_failure authority_violation h = refl
critical_failure false_acceptance h = refl
critical_failure outcome h = ground arith

module _ (platform : Platform) (policy : HealthPolicy) where
  -- A canary accepted when the cooldown from the time `from` is over.
  abbrev pub is_late_canary : ℕ → Observation → Bool
  is_late_canary from o =
      is_canary o.body.outcome && leb (from + policy.cooldown_seconds * 1000) (time_of platform o)

  abbrev pub late_canaries : ℕ → List Observation → ℕ
  late_canaries from [] = 0
  late_canaries from (o ∷ os) = (if is_late_canary from o then 1 else 0) + late_canaries from os

  -- Out of use since a time that is not before `from`.
  pub record IsOut (from : ℕ) (health : Health) : Type 0 where
    pub unwell : is_healthy health.status ≡ false
    pub since : from ≤ get_or (platform.timestamp (get_or health.triggered_at "")) 0

  -- A later observation leaves it out of use, with no more canaries than it counts; or it is the
  -- canary that restores it.
  observed-IsOut :
      (from : ℕ) (health : Health) (o : Observation)
      → IsOut from health
      → from ≤ time_of platform o
      → (IsOut from (observe_unhealthy platform policy health o)
          × ((observe_unhealthy platform policy health o).canaries
              ≤ (if is_late_canary from o then 1 else 0) + health.canaries))
        ⊎ ((is_late_canary from o ≡ true)
            × (policy.recovery_canary_successes ≤ health.canaries + 1))
  unfolding observe_unhealthy observe_canary
  observed-IsOut from health o out later = elim (Bool-cases (is_failure o.body.outcome)) [
    | inl failed ↦ rw failed (inl (record { unwell = refl; since = later }, omega arith))
    | inr fine ↦
        rw fine
          (elim (Bool-cases (
            is_canary o.body.outcome
            && leb (cooldown_end platform policy health.triggered_at) (time_of platform o))) [
              | inr ignored ↦ rw ignored (inl (out, omega arith))
              | inl counts ↦
                  let late : is_late_canary from o ≡ true = ground (arith, out.since) in
                  elim (Bool-cases (leb policy.recovery_canary_successes (health.canaries + 1))) [
                    | inl enough ↦ inr (late, ground arith)
                    | inr few ↦
                        rw (counts, few)
                          (inl (record { unwell = refl; since = out.since }, ground (arith, late)))
                  ]
            ])
  ]

  restored_by_canaries :
      (from : ℕ) (health : Health) (os : List Observation)
      → IsOut from health
      → All (λ o. from ≤ time_of platform o) os
      → is_healthy (observe_all platform policy health os).status ≡ true
      → policy.recovery_canary_successes ≤ health.canaries + late_canaries from os
  unfolding observe_all observe
  restored_by_canaries from health [] out later well = absurd (ground (arith, out.unwell))
  restored_by_canaries from health (o ∷ os) out (now, later) well =
      let same : observe platform policy health o ≡ observe_unhealthy platform policy health o =
        rw out.unwell refl in
      elim (observed-IsOut from health o out now) [
        | inr (late, enough) ↦ ground (arith, late, enough)
        | inl (still, bound) ↦
            let rest =
              restored_by_canaries from (observe_unhealthy platform policy health o) os still later
                (sym (ap (λ h. is_healthy (observe_all platform policy h os).status) same)
                  ∙ well) in
            omega (arith, rest, bound)
      ]

  -- An authority violation or a false acceptance takes the binding out of use, in whatever state.
  pub critical-IsOut :
      (health : Health) (o : Observation)
      → is_critical o.body.outcome ≡ true
      → IsOut (time_of platform o) (observe platform policy health o)
        × ((observe platform policy health o).canaries ≡ 0)
  unfolding observe observe_healthy judge trips observe_unhealthy
  critical-IsOut health o critical =
      let failed : is_failure o.body.outcome ≡ true = critical_failure o.body.outcome critical in
      elim (Bool-cases (is_healthy health.status)) [
        | inl well ↦ rw (well, critical) (record { unwell = refl; since = omega arith }, refl)
        | inr unwell ↦ rw (unwell, failed) (record { unwell = refl; since = omega arith }, refl)
      ]

  -- Each observation is no later than those behind it.
  abbrev pub Ascending : List Observation → Type 0
  Ascending [] = Unit
  Ascending (o ∷ os) = All (λ p. time_of platform o ≤ time_of platform p) os × Ascending os

  insert_sorted-All :
      (P : Observation → Type 0) (o : Observation) (ps : List Observation)
      → P o
      → All P ps
      → All P (insert_sorted platform o ps)
  unfolding insert_sorted
  insert_sorted-All P o [] h hs = (h, tt)
  insert_sorted-All P o (p ∷ ps) h (q, hs) = elim (Bool-cases (comes_first platform o p)) [
    | inl first ↦ rw first (h, (q, hs))
    | inr behind ↦ rw behind (q, insert_sorted-All P o ps h hs)
  ]

  All-from_later :
      (a b : ℕ) (ps : List Observation)
      → a ≤ b
      → All (λ p. b ≤ time_of platform p) ps
      → All (λ p. a ≤ time_of platform p) ps
  All-from_later a b [] le h = tt
  All-from_later a b (p ∷ ps) le (q, h) = (omega (arith, le, q), All-from_later a b ps le h)

  insert_sorted-Ascending :
      (o : Observation) (ps : List Observation)
      → Ascending ps
      → Ascending (insert_sorted platform o ps)
  unfolding insert_sorted
  insert_sorted-Ascending o [] h = (tt, tt)
  insert_sorted-Ascending o (p ∷ ps) (q, h) = elim (Bool-cases (comes_first platform o p)) [
    | inl first ↦
        let le : time_of platform o ≤ time_of platform p = ground (arith, first) in
        rw first ((le, All-from_later (time_of platform o) (time_of platform p) ps le q), (q, h))
    | inr behind ↦
        let le : time_of platform p ≤ time_of platform o = ground (arith, behind) in
        rw behind (
          insert_sorted-All (λ r. time_of platform p ≤ time_of platform r) o ps le q,
          insert_sorted-Ascending o ps h,
        )
  ]

  pub sort_observations-Ascending :
      (os : List Observation) → Ascending (sort_observations platform os)
  unfolding sort_observations
  sort_observations-Ascending [] = tt
  sort_observations-Ascending (o ∷ os) =
      insert_sorted-Ascending o (sort_observations platform os) (sort_observations-Ascending os)

  Ascending-behind :
      (before : List Observation) (o : Observation) (after : List Observation)
      → Ascending (before ++ o ∷ after)
      → All (λ p. time_of platform o ≤ time_of platform p) after
  Ascending-behind [] o after (h, _) = h
  Ascending-behind (p ∷ before) o after (_, h) = Ascending-behind before o after h

  observe_all-append :
      (health : Health) (before after : List Observation)
      → observe_all platform policy health (before ++ after)
        ≡ observe_all platform policy (observe_all platform policy health before) after
  unfolding observe_all
  observe_all-append health [] after = refl
  observe_all-append health (o ∷ before) after =
      observe_all-append (observe platform policy health o) before after

  -- Where the observations in order leave a binding healthy in spite of an authority violation or a
  -- false acceptance among them, at least the policy's number of canaries behind it were accepted
  -- once the cooldown from it was over.
  pub critical_needs_canaries :
      (health : Health) (supplied before after : List Observation) (o : Observation)
      → sort_observations platform supplied ≡ before ++ o ∷ after
      → is_critical o.body.outcome ≡ true
      → is_healthy (observe_all platform policy health (sort_observations platform supplied)).status
        ≡ true
      → policy.recovery_canary_successes ≤ late_canaries (time_of platform o) after
  unfolding observe_all
  critical_needs_canaries health supplied before after o sorted critical well =
      let earlier = observe_all platform policy health before in
      let (out, none_yet) = critical-IsOut earlier o critical in
      let later =
        Ascending-behind before o after (rw sorted at (sort_observations-Ascending supplied)) in
      let ends =
        ap (observe_all platform policy health) sorted
        ∙ observe_all-append health before (o ∷ after) in
      let enough =
        restored_by_canaries (time_of platform o) (observe platform policy earlier o) after out
          later (sym (ap (λ (h : Health). is_healthy h.status) ends) ∙ well) in
      omega (arith, enough, none_yet)
