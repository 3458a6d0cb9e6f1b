-- ===== src/Pilot/Appends.antt =====
-- Appending keeps a log valid, and appending again changes nothing (src/pilot/event-store.ts).
use text.Mathlib.TextEquality.{eq_iff}
use agent_orchestration_star.Base.{
  nat_beq_iff, ◌==◌, ◌!=◌, nat_eq, string_eq, option_eq, ==_eq, any, all, find, elem, lookup,
  insert, lookup-insert, Result, ok, ◌>>◌, throw_if, >>=-inversion, guard_inversion, ok-injective,
  ℕ, ◌+◌, String, ◌≡◌, refl, sym, subst, ◌⊎◌, inl, inr, true, false, not, ◌||◌, Option, none, some,
  List, [], ◌∷◌, ◌++◌, append-nil, append_assoc, arith,
}
use agent_orchestration_star.Pilot.Events.{PilotEvent}
use agent_orchestration_star.Pilot.Errors.{
  PilotError, sequence_not_contiguous, event_id_with_different_content,
}
use agent_orchestration_star.Pilot.Codec.{Codec}
use agent_orchestration_star.Pilot.Log.{
  next_sequence, expected_sequence, assert_references_known, assert_valid_event, assert_valid_from,
  assert_valid_log, owned_log, append_event,
}

abbrev ids_after : List String → List PilotEvent → List String
ids_after ids [] = ids
ids_after ids (x ∷ xs) = ids_after (x.event_id ∷ ids) xs

abbrev counters_after : List (String × ℕ) → List PilotEvent → List (String × ℕ)
counters_after counters [] = counters
counters_after counters (x ∷ xs) =
    counters_after (insert x.block_id (next_sequence counters x.block_id + 1) counters) xs

-- The counters of the validation and the count of the append agree.
next-counters_after :
    (block_id : String) (counters : List (String × ℕ)) (xs : List PilotEvent)
    → next_sequence (counters_after counters xs) block_id + 1
      ≡ next_sequence counters block_id + expected_sequence block_id xs
unfolding expected_sequence
next-counters_after block_id counters [] = omega arith
next-counters_after block_id counters (x ∷ xs) =
    let next = next_sequence counters x.block_id + 1 in
    ground (
      arith,
      next-counters_after block_id (insert x.block_id next counters) xs,
      lookup-insert x.block_id block_id next counters,
      eq_iff x.block_id block_id,
    )

elem-ids_after :
    (id : String) (ids : List String) (xs : List PilotEvent)
    → elem id (ids_after ids xs) ≡ (elem id ids || any (λ x. x.event_id == id) xs)
elem-ids_after id ids [] = ground arith
elem-ids_after id ids (x ∷ xs) = ground (arith, elem-ids_after id (x.event_id ∷ ids) xs)

not_any_of_find :
    (id : String) (xs : List PilotEvent)
    → find (λ x. x.event_id == id) xs ≡ none
    → any (λ x. x.event_id == id) xs ≡ false
not_any_of_find id [] e = refl
not_any_of_find id (x ∷ xs) e = ground (arith, not_any_of_find id xs)

find-append :
    (id : String) (xs : List PilotEvent) (y : PilotEvent)
    → find (λ x. x.event_id == id) xs ≡ none
    → y.event_id ≡ id
    → find (λ x. x.event_id == id) (xs ++ y ∷ []) ≡ some y
find-append id [] y e is_its = ground (arith, eq_iff y.event_id id)
find-append id (x ∷ xs) y e is_its = ground (arith, find-append id xs y)

module _ (codec : Codec) where
  all_safe-append :
      (xs : List PilotEvent) (y : PilotEvent)
      → all codec.is_safe xs ≡ true
      → codec.is_safe y ≡ true
      → all codec.is_safe (xs ++ y ∷ []) ≡ true
  all_safe-append [] y h k = ground arith
  all_safe-append (x ∷ xs) y h k = ground (arith, all_safe-append xs y)

  -- A log with one more event is valid when the log is, and the event is after it.
  assert_valid-append :
      (ids : List String) (counters : List (String × ℕ)) (before xs : List PilotEvent)
      (event : PilotEvent)
      → assert_valid_from codec ids counters before xs ≡ ok tt
      → assert_valid_event codec
          (ids_after ids xs)
          (counters_after counters xs)
          (before ++ xs)
          event
        ≡ ok tt
      → assert_valid_from codec ids counters before (xs ++ event ∷ []) ≡ ok tt
  unfolding assert_valid_from
  assert_valid-append ids counters before [] event h k =
      let k' : assert_valid_event codec ids counters before event ≡ ok tt =
        subst (λ (l : List PilotEvent). assert_valid_event codec ids counters l event ≡ ok tt)
          (append-nil before) k in
      rw k' refl
  assert_valid-append ids counters before (x ∷ xs) event h k =
      let (_, first, rest) = >>=-inversion (assert_valid_event codec ids counters before x) _ h in
      let next = insert x.block_id (next_sequence counters x.block_id + 1) counters in
      let k' =
        subst
          (λ (l : List PilotEvent).
            assert_valid_event codec (ids_after (x.event_id ∷ ids) xs) (counters_after next xs) l
              event
            ≡ ok tt)
          (sym (append_assoc before (x ∷ []) xs)) k in
      rw first (assert_valid-append (x.event_id ∷ ids) next (before ++ x ∷ []) xs event rest k')

  -- What an append went by: the log is safe and valid, and either has the event already, in the
  -- same bytes, or takes it at its end.
  pub record Appended (log : List PilotEvent) (event : PilotEvent) (next : List PilotEvent)
      : Type 0 where
    pub all_safe : all codec.is_safe log ≡ true
    pub log_valid : assert_valid_log codec log ≡ ok tt
    pub safe : codec.is_safe event ≡ true
    pub outcome :
        ((existing : PilotEvent) × (find (λ x. x.event_id == event.event_id) log ≡ some existing)
          × (codec.canonicalize existing ≡ codec.canonicalize event)
          × (next ≡ log))
        ⊎ ((find (λ x. x.event_id == event.event_id) log ≡ none)
            × (event.sequence_number ≡ expected_sequence event.block_id log)
            × (assert_references_known codec log event ≡ ok tt)
            × (next ≡ log ++ event ∷ []))

  abbrev place :
      List PilotEvent → PilotEvent → Option PilotEvent → Result PilotError (List PilotEvent)
  unfolding expected_sequence assert_references_known
  place log event found = elim found [
    | some existing ↦ do
      throw_if (codec.canonicalize existing != codec.canonicalize event)
          event_id_with_different_content
      ok log
    | none ↦ do
      throw_if (event.sequence_number != expected_sequence event.block_id log)
          sequence_not_contiguous
      assert_references_known codec log event
      ok (log ++ event ∷ [])
  ]

  place_inversion :
      (log : List PilotEvent) (event : PilotEvent) (found : Option PilotEvent)
      (next : List PilotEvent)
      → place log event found ≡ ok next
      → ((existing : PilotEvent) × (found ≡ some existing)
          × (codec.canonicalize existing ≡ codec.canonicalize event)
          × (next ≡ log))
        ⊎ ((found ≡ none)
            × (event.sequence_number ≡ expected_sequence event.block_id log)
            × (assert_references_known codec log event ≡ ok tt)
            × (next ≡ log ++ event ∷ []))
  unfolding place
  place_inversion log event (some existing) next e =
      let (bytes, e1) =
        guard_inversion (codec.canonicalize existing != codec.canonicalize event) _ _ e in
      inl (existing, refl, ==_eq (ground (arith, bytes)), sym (ok-injective e1))
  place_inversion log event none next e =
      let (number, e1) =
        guard_inversion (event.sequence_number != expected_sequence event.block_id log) _ _ e in
      let (_, known, e2) = >>=-inversion (assert_references_known codec log event) _ e1 in
      inr (refl, ==_eq (ground (arith, number)), known, sym (ok-injective e2))

  owned_log_inversion :
      (log stable : List PilotEvent)
      → owned_log codec log ≡ ok stable
      → (all codec.is_safe log ≡ true) × (log ≡ stable)
  unfolding owned_log
  owned_log_inversion log stable e = ground (arith, e)

  pub append_event_inversion :
      (log : List PilotEvent) (event : PilotEvent) (next : List PilotEvent)
      → append_event codec log event ≡ ok next
      → Appended log event next
  unfolding append_event place
  append_event_inversion log event next e =
      let (stable, owned, e1) = >>=-inversion (owned_log codec log) _ e in
      let (all_safe, is_log) = owned_log_inversion log stable owned in
      let (_, log_valid, e2) = >>=-inversion (assert_valid_log codec stable) _ e1 in
      let (safe, e3) = guard_inversion (not (codec.is_safe event)) _ _ e2 in
      subst (λ (l : List PilotEvent). Appended l event next) (sym is_log)
        (record {
          all_safe = subst (λ (l : List PilotEvent). all codec.is_safe l ≡ true) is_log all_safe;
          log_valid = log_valid;
          safe = ground (arith, safe);
          outcome =
              place_inversion stable event (find (λ x. x.event_id == event.event_id) stable) next
                e3;
        })

  -- The appended event meets the validation's test at the log's end.
  last_valid :
      (log : List PilotEvent) (event : PilotEvent)
      → codec.is_safe event ≡ true
      → find (λ x. x.event_id == event.event_id) log ≡ none
      → event.sequence_number ≡ expected_sequence event.block_id log
      → assert_references_known codec log event ≡ ok tt
      → assert_valid_event codec (ids_after [] log) (counters_after [] log) log event ≡ ok tt
  unfolding assert_valid_event lookup
  last_valid log event safe fresh number known =
      let unused : elem event.event_id (ids_after [] log) ≡ false =
        ground
          (arith, elem-ids_after event.event_id [] log, not_any_of_find event.event_id log fresh) in
      let due : event.sequence_number ≡ next_sequence (counters_after [] log) event.block_id =
        omega (arith, number, next-counters_after event.block_id [] log) in
      let due' : (event.sequence_number == next_sequence (counters_after [] log) event.block_id)
          ≡ true =
        (nat_beq_iff event.sequence_number (next_sequence (counters_after [] log) event.block_id)).1
          due in
      rw safe (rw unused (rw due' known))

  -- An append to a valid log gives a valid log.
  pub append_event-valid :
      (log : List PilotEvent) (event : PilotEvent) (next : List PilotEvent)
      → append_event codec log event ≡ ok next
      → (assert_valid_log codec next ≡ ok tt) × (all codec.is_safe next ≡ true)
  unfolding assert_valid_log
  append_event-valid log event next e =
      let a = append_event_inversion log event next e in
      elim a.outcome [
        | inl (existing, found, bytes, it) ↦
            subst
              (λ (l : List PilotEvent).
                (assert_valid_log codec l ≡ ok tt) × (all codec.is_safe l ≡ true))
              (sym it) (a.log_valid, a.all_safe)
        | inr (fresh, number, known, it) ↦
            subst
              (λ (l : List PilotEvent).
                (assert_valid_log codec l ≡ ok tt) × (all codec.is_safe l ≡ true))
              (sym it)
              (
                assert_valid-append [] [] [] log event a.log_valid
                    (last_valid log event a.safe fresh number known),
                all_safe-append log event a.all_safe a.safe,
              )
      ]

  again :
      (log : List PilotEvent) (event existing : PilotEvent)
      → all codec.is_safe log ≡ true
      → assert_valid_log codec log ≡ ok tt
      → codec.is_safe event ≡ true
      → find (λ x. x.event_id == event.event_id) log ≡ some existing
      → codec.canonicalize existing ≡ codec.canonicalize event
      → append_event codec log event ≡ ok log
  unfolding append_event owned_log
  again log event existing all_safe log_valid safe found bytes =
      let bytes' : (codec.canonicalize existing == codec.canonicalize event) ≡ true =
        (eq_iff (codec.canonicalize existing) (codec.canonicalize event)).1 bytes in
      rw all_safe (rw log_valid (rw safe (rw found (rw bytes' refl))))

  -- After an event was appended, appending it again succeeds and leaves the log as it is.
  pub append_event_again :
      (log : List PilotEvent) (event : PilotEvent) (next : List PilotEvent)
      → append_event codec log event ≡ ok next
      → append_event codec next event ≡ ok next
  append_event_again log event next e =
      let a = append_event_inversion log event next e in
      let (valid, safe) = append_event-valid log event next e in
      elim a.outcome [
        | inl (existing, found, bytes, it) ↦
            again next event existing safe valid a.safe (rw it found) bytes
        | inr (fresh, number, known, it) ↦
            again next event event safe valid a.safe
              (rw it (find-append event.event_id log event fresh refl)) refl
      ]
