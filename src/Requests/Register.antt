-- ===== src/Requests/Register.antt =====
-- What one registration does, on every branch (src/runtime/request-idempotency.ts).
use text.Mathlib.TextEquality.{eq_iff}
use agent_orchestration_star.Base.{
  String, true, false, none, some, ◌≡◌, ◌≢◌, ◌⊎◌, inl, inr, ok, err, lookup, lookup-insert,
  lookup-insert_self, Option-cases, arith, string_eq, ◌==◌, if◌then◌else◌,
}
use agent_orchestration_star.Requests.{
  RequestIndex, Registration, different_bytes, register_request,
}

-- A registration answers with the run that the id is bound to in the index that it returns.
pub register-lookup :
    (index : RequestIndex) (q h run : String) (r : Registration)
    → register_request index q h run ≡ ok r
    → lookup q r.index ≡ some (record { request_hash = h; run_id = r.run_id })
unfolding register_request
register-lookup index q h run r e = elim (Option-cases (lookup q index)) [
  | inl fresh ↦
      ground (arith, lookup-insert_self q (record { request_hash = h; run_id = run }) index)
  | inr (existing, found) ↦ ground (arith, eq_iff existing.request_hash h)
]

-- Every other id keeps its binding.
pub register-lookup_ne :
    (index : RequestIndex) (q h run : String) (r : Registration)
    → register_request index q h run ≡ ok r
    → (other : String) → q ≢ other
    → lookup other r.index ≡ lookup other index
unfolding register_request
register-lookup_ne index q h run r e other ne = elim (Option-cases (lookup q index)) [
  | inl fresh ↦ ground (
    arith,
    eq_iff q other,
    lookup-insert q other (record { request_hash = h; run_id = run }) index,
  )
  | inr (existing, found) ↦ ground (arith, eq_iff existing.request_hash h)
]

-- A registration creates exactly when the id was free, and then answers with the run offered.
pub register_created :
    (index : RequestIndex) (q h run : String) (r : Registration)
    → register_request index q h run ≡ ok r
    → ((lookup q index ≡ none) × (r.created ≡ true) × (r.run_id ≡ run))
      ⊎ ((lookup q index ≡ some (record { request_hash = h; run_id = r.run_id }))
          × (r.created ≡ false)
          × (r.index ≡ index))
unfolding register_request
register_created index q h run r e = elim (Option-cases (lookup q index)) [
  | inl fresh ↦ ground arith
  | inr (existing, found) ↦ ground (arith, eq_iff existing.request_hash h)
]

-- A later registration of the id, whatever run it offers, answers with the first run and changes
-- nothing when the bytes are the same, and is refused when they differ.
pub register_again :
    (index : RequestIndex) (q h run : String) (r : Registration)
    → register_request index q h run ≡ ok r
    → (h' run' : String)
    → register_request r.index q h' run' ≡ (
        if h == h'
        then ok (record { index = r.index; run_id = r.run_id; created = false })
        else err different_bytes)
unfolding register_request
register_again index q h run r e h' run' =
    ground (arith, register-lookup index q h run r e, eq_iff h h')
