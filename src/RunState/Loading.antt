-- ===== src/RunState/Loading.antt =====
-- What the journal's loader accepts, and that it changes nothing (src/runtime/run-state.ts).
use agent_orchestration_star.Base.{
  leb, ◌==◌, ◌!=◌, nat_eq, string_eq, option_eq, length, any, all, elem, ok, ◌>>=◌, >>=-inversion,
  guard_inversion, ok-injective, String, ◌≡◌, refl, sym, ap, ◌∙◌, subst, Bool, true, false, not,
  ◌||◌, List, [], ◌∷◌, map, arith,
}
use agent_orchestration_star.Contracts.{
  trait_eq, required_checks_passed, Failure, ValidationResult, is_aborted_code,
}
use agent_orchestration_star.RunState.Commands.{
  RunEvent, attempt_recorded, paths_reinspected, external_process_started, candidate_accepted,
  review_verdict_recorded, commit_created, branch_pushed, pull_request_recorded,
  required_checks_passed, run_merged, publication_skipped, run_failed, run_aborted, BrokerCommand,
  run_coding_task, run_accepted, run_event, BrokerReviewVerdict, CandidateAccepted, command_id,
}
use agent_orchestration_star.RunState.Checks.{
  LoadError, invalid_identifier, invalid_run_id, invalid_hash, invalid_validations,
  failed_validation, invalid_files, invalid_file, ambiguous_files, invalid_reason, forged_verdict,
  invalid_message, invalid_evidence, duplicate_evidence, Loaded, is_identifier, is_run_id, is_hash,
  within, checked, load_hash, is_pull_request_url, load_each, all_distinct, is_message,
  failure_contract, load_validations, is_changed_file, is_reason,
}
use agent_orchestration_star.RunState.Load.{
  Loaders, verdict_body, load_acceptance, load_candidate, load_verdict, load_commit, load_event,
  load_journal_command,
}
use text.Mathlib.TextEquality.{eq_iff}

pub checked_inversion :
    {A B : Type 0} (test : A → Bool) (reason : LoadError) (a : A) (next : A → Loaded B) {end : B}
    → (checked test reason a >>= next) ≡ ok end
    → (test a ≡ true) × (next a ≡ ok end)
checked_inversion test reason a next h = ground arith

load_each-checked :
    {A : Type 0} (test : A → Bool) (reason : LoadError) (xs ys : List A)
    → load_each (checked test reason) xs ≡ ok ys
    → (ys ≡ xs) × (all test xs ≡ true)
unfolding load_each
load_each-checked test reason [] ys h = ground arith
load_each-checked test reason (x ∷ xs) ys h =
    let (t, e) = checked_inversion test reason x _ h in
    let (zs, rest, e') = >>=-inversion (load_each (checked test reason) xs) _ e in
    let (same, every) = load_each-checked test reason xs zs rest in
    ground (arith, ap (λ l. x ∷ l) same)

abbrev pub passes : ValidationResult → Bool
passes r = r.exit_code == 0

abbrev pub apart : List String → List String → Bool
apart ids seen = not (any (λ id. elem id seen) ids)

abbrev pub ids : List ValidationResult → List String
ids results = map (λ (r : ValidationResult). r.validation_id) results

apart_step :
    (xs seen : List String) (x : String)
    → apart xs (x ∷ seen) ≡ true
    → (elem x xs ≡ false) × (apart xs seen ≡ true)
apart_step [] seen x h = (refl, refl)
apart_step (y ∷ xs) seen x h =
    let (missing, away) = apart_step xs seen x (ground arith) in
    (ground (arith, eq_iff x y, eq_iff y x), ground arith)

load_validations-same :
    (seen : List String) (results out : List ValidationResult)
    → load_validations seen results ≡ ok out
    → (out ≡ results)
      × (all passes results ≡ true)
      × (all_distinct (ids results) ≡ true)
      × (apart (ids results) seen ≡ true)
unfolding load_validations all_distinct
load_validations-same seen [] out h = ground arith
load_validations-same seen (r ∷ results) out h =
    let (_, e1) = checked_inversion is_identifier invalid_identifier r.validation_id _ h in
    let (fresh, e2) =
      guard_inversion (elem r.validation_id seen || r.exit_code != 0) failed_validation _ e1 in
    let (_, e3) = checked_inversion is_hash invalid_hash r.result_hash _ e2 in
    let (rest, loaded, e4) =
      >>=-inversion (load_validations (r.validation_id ∷ seen) results) _ e3 in
    let (same, passed, distinct, away) =
      load_validations-same (r.validation_id ∷ seen) results rest loaded in
    let (missing, apart_rest) = apart_step (ids results) seen r.validation_id away in
    let zero_code : r.exit_code ≡ 0 = ground arith in
    let all_same : out ≡ r ∷ results =
      sym (ok-injective e4)
      ∙ ap
          (λ l.
            record { validation_id = r.validation_id; exit_code = 0; result_hash = r.result_hash }
            ∷ l)
          same
      ∙ ap
          (λ n.
            record { validation_id = r.validation_id; exit_code = n; result_hash = r.result_hash }
            ∷ results)
          (sym zero_code) in
    (all_same, ground arith, ground arith, ground arith)

failure_contract-same :
    (failure loaded : Failure) → failure_contract failure ≡ ok loaded → loaded ≡ failure
unfolding failure_contract
failure_contract-same failure loaded h =
    let (_, e1) = guard_inversion (not (is_message failure.message)) invalid_message _ h in
    let (_, e2) =
      guard_inversion (not (leb (length failure.evidence_hashes) 64)) invalid_evidence _ e1 in
    let (evidence, each, e3) = >>=-inversion (load_each load_hash failure.evidence_hashes) _ e2 in
    let (same, _) = load_each-checked is_hash invalid_hash failure.evidence_hashes evidence each in
    let (_, e4) = guard_inversion (not (all_distinct evidence)) duplicate_evidence _ e3 in
    sym (ok-injective e4)
    ∙ ap
        (λ hashes. record {
          code = failure.code;
          message = failure.message;
          retryable = failure.retryable;
          evidence_hashes = hashes;
        })
        same

module _ (loaders : Loaders) where
  -- What is known of an accepted candidate: passed validations under distinct ids, and distinct
  -- normalized paths.
  pub record IsSoundCandidate (c : CandidateAccepted) : Type 0 where
    pub passed : all passes c.validation_results ≡ true
    pub distinct_ids : all_distinct (ids c.validation_results) ≡ true
    pub paths : all is_changed_file c.changed_files ≡ true
    pub distinct_files : all_distinct (map loaders.fold_case c.changed_files) ≡ true

  load_candidate-IsSoundCandidate :
      (id : String) (c : CandidateAccepted) (loaded : String × RunEvent)
      → load_candidate loaders id c ≡ ok loaded
      → (loaded ≡ (id, candidate_accepted c)) × (is_run_id id ≡ true) × IsSoundCandidate c
  unfolding load_candidate
  load_candidate-IsSoundCandidate id c loaded h =
      let (_, e1) =
        guard_inversion (not (within 1 64 (length c.validation_results))) invalid_validations _ h in
      let (results, validated, e2) =
        >>=-inversion (load_validations [] c.validation_results) _ e1 in
      let (same, passed, distinct, _) =
        load_validations-same [] c.validation_results results validated in
      let (_, e3) =
        guard_inversion (not (within 1 256 (length c.changed_files))) invalid_files _ e2 in
      let (files, each, e4) =
        >>=-inversion (load_each (checked is_changed_file invalid_file) c.changed_files) _ e3 in
      let (same_files, paths) =
        load_each-checked is_changed_file invalid_file c.changed_files files each in
      let (distinct_files, e5) =
        guard_inversion (not (all_distinct (map loaders.fold_case files))) ambiguous_files _ e4 in
      let (named, e6) = checked_inversion is_run_id invalid_run_id id _ e5 in
      let (_, e7) = checked_inversion is_hash invalid_hash c.diff_hash _ e6 in
      let (_, e8) = checked_inversion is_hash invalid_hash c.tree_hash _ e7 in
      let (_, e9) = checked_inversion is_hash invalid_hash c.review_attestation_hash _ e8 in
      (
        ground arith,
        named,
        record {
          passed = passed;
          distinct_ids = distinct;
          paths = paths;
          distinct_files =
              subst (λ l. all_distinct (map loaders.fold_case l) ≡ true) same_files (ground arith);
        },
      )

  load_verdict-genuine :
      (id : String) (v : BrokerReviewVerdict) (loaded : String × RunEvent)
      → load_verdict loaders id v ≡ ok loaded
      → (loaded ≡ (id, review_verdict_recorded v))
        × (is_run_id id ≡ true)
        × (loaders.hash_verdict (verdict_body id v) ≡ v.verdict_hash)
  unfolding load_verdict
  load_verdict-genuine id v loaded h =
      let (_, e1) = checked_inversion is_reason invalid_reason v.reason _ h in
      let (named, e2) = checked_inversion is_run_id invalid_run_id id _ e1 in
      let (_, e3) = checked_inversion is_hash invalid_hash v.review_packet_hash _ e2 in
      let (_, e4) = checked_inversion is_hash invalid_hash v.contract_hash _ e3 in
      let (_, e5) = checked_inversion is_hash invalid_hash v.diff_hash _ e4 in
      let (_, e6) = checked_inversion is_hash invalid_hash v.tree_hash _ e5 in
      let (_, e7) = checked_inversion is_hash invalid_hash v.capability_snapshot_hash _ e6 in
      let (_, e8) = checked_inversion is_hash invalid_hash v.verdict_hash _ e7 in
      let (same, e9) =
        guard_inversion (loaders.hash_verdict (verdict_body id v) != v.verdict_hash) forged_verdict
          _ e8 in
      (
        sym (ok-injective e9),
        named,
        (eq_iff (loaders.hash_verdict (verdict_body id v)) v.verdict_hash).0 (ground arith),
      )

  -- What a loaded event is known to be.
  abbrev pub IsSoundEvent : String → RunEvent → Type 0
  IsSoundEvent id (candidate_accepted c) = IsSoundCandidate c
  IsSoundEvent id (review_verdict_recorded v) =
      loaders.hash_verdict (verdict_body id v) ≡ v.verdict_hash
  IsSoundEvent id (pull_request_recorded c) =
      is_pull_request_url c.pull_request c.pull_request_url ≡ true
  IsSoundEvent id (run_merged c) = is_pull_request_url c.pull_request c.pull_request_url ≡ true
  IsSoundEvent id (run_aborted failure) = is_aborted_code failure.code ≡ true
  IsSoundEvent id _ = Unit

  load_event-IsSoundEvent :
      (id : String) (event : RunEvent) (loaded : String × RunEvent)
      → load_event loaders id event ≡ ok loaded
      → (loaded ≡ (id, event)) × (is_run_id id ≡ true) × IsSoundEvent id event
  unfolding load_event
  load_event-IsSoundEvent id (candidate_accepted c) loaded h =
      load_candidate-IsSoundCandidate id c loaded h
  load_event-IsSoundEvent id (review_verdict_recorded v) loaded h =
      load_verdict-genuine id v loaded h
  load_event-IsSoundEvent id (commit_created c) loaded h = ground (arith, load_commit)
  load_event-IsSoundEvent id (attempt_recorded a) loaded h = ground arith
  load_event-IsSoundEvent id (paths_reinspected epoch) loaded h = ground arith
  load_event-IsSoundEvent id (external_process_started process) loaded h = ground arith
  load_event-IsSoundEvent id (branch_pushed c) loaded h = ground arith
  load_event-IsSoundEvent id (pull_request_recorded c) loaded h = ground arith
  load_event-IsSoundEvent id (required_checks_passed c) loaded h = ground arith
  load_event-IsSoundEvent id (run_merged c) loaded h = ground arith
  load_event-IsSoundEvent id (publication_skipped c) loaded h = ground arith
  load_event-IsSoundEvent id (run_failed failure) loaded h =
      let (f, contracted, e1) = >>=-inversion (failure_contract failure) _ h in
      let same = failure_contract-same failure f contracted in ground arith
  load_event-IsSoundEvent id (run_aborted failure) loaded h =
      let (f, contracted, e1) = >>=-inversion (failure_contract failure) _ h in
      let same = failure_contract-same failure f contracted in ground arith

  -- What is known of a command that a journal may hold.
  abbrev pub IsSound : BrokerCommand → Type 0
  IsSound (run_coding_task _ _) = ⊥
  IsSound (run_accepted cid id c) =
      (is_run_id id ≡ true)
      × (loaders.contract_loads c.contract ≡ true)
      × (loaders.result_loads c.result ≡ true)
  IsSound (run_event cid id event) = (is_run_id id ≡ true) × IsSoundEvent id event

  -- The loader changes nothing in a command that it accepts, and accepts no caller's command: an
  -- accepted run has an id of the runs' form and a contract and a result that their schemas accept;
  -- a candidate has passed validations under distinct ids and distinct normalized paths; a verdict
  -- bears the hash of its own content; a pull request's address ends in its number; and an abort
  -- has the abort's code.
  pub load_journal_command-IsSound :
      (c loaded : BrokerCommand)
      → load_journal_command loaders c ≡ ok loaded
      → (loaded ≡ c) × IsSound c
  unfolding load_journal_command
  load_journal_command-IsSound (run_coding_task cid request) loaded h = ground arith
  load_journal_command-IsSound (run_accepted cid id c) loaded h = ground (arith, load_acceptance)
  load_journal_command-IsSound (run_event cid id event) loaded h =
      let (_, e1) = checked_inversion is_identifier invalid_identifier cid _ h in
      let (pair, read, e2) = >>=-inversion (load_event loaders id event) _ e1 in
      let (same, named, sound) = load_event-IsSoundEvent id event pair read in
      (ground arith, (named, sound))

  -- The id of a loaded command is not empty.
  pub load_journal_command-identified :
      (c loaded : BrokerCommand)
      → load_journal_command loaders c ≡ ok loaded
      → is_identifier (command_id c) ≡ true
  unfolding load_journal_command
  load_journal_command-identified (run_coding_task cid request) loaded h = ground arith
  load_journal_command-identified (run_accepted cid id c) loaded h =
      (checked_inversion is_identifier invalid_identifier cid _ h).0
  load_journal_command-identified (run_event cid id event) loaded h =
      (checked_inversion is_identifier invalid_identifier cid _ h).0
