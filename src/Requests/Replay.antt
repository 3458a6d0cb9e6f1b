-- ===== src/Requests/Replay.antt =====
-- The index rebuilt from accepted records (`replayRequestIndexV4`).
use text.Mathlib.TextEquality.{eq_iff}
use agent_orchestration_star.Base.{
  String, some, ◌≡◌, List, [], ◌∷◌, inl, inr, ok, lookup, lookup-insert, lookup-insert_self,
  Option-cases, arith, string_eq, All, >>=-inversion,
}
use agent_orchestration_star.Requests.{
  RequestIdentity, RequestIndex, AcceptedRecord, replay_record, replay_from, replay_request_index,
}

abbrev pub identity_of : AcceptedRecord → RequestIdentity
identity_of r = record { request_hash = r.request_hash; run_id = r.run_id }

-- What a record binds stays bound, and nothing that was bound changes.
replay_record-lookup :
    (index next : RequestIndex) (r : AcceptedRecord)
    → replay_record index r ≡ ok next
    → lookup r.request_id next ≡ some (identity_of r)
unfolding replay_record
replay_record-lookup index next r e = elim (Option-cases (lookup r.request_id index)) [
  | inl fresh ↦ ground (arith, lookup-insert_self r.request_id (identity_of r) index)
  | inr (existing, found) ↦
      ground (arith, eq_iff existing.request_hash r.request_hash, eq_iff existing.run_id r.run_id)
]

replay_record_keeps :
    (index next : RequestIndex) (r : AcceptedRecord) (q : String) (v : RequestIdentity)
    → replay_record index r ≡ ok next
    → lookup q index ≡ some v
    → lookup q next ≡ some v
unfolding replay_record
replay_record_keeps index next r q v e h = elim (Option-cases (lookup r.request_id index)) [
  | inl fresh ↦
      ground (arith, eq_iff r.request_id q, lookup-insert r.request_id q (identity_of r) index)
  | inr (existing, found) ↦
      ground (arith, eq_iff existing.request_hash r.request_hash, eq_iff existing.run_id r.run_id)
]

replay_from_keeps :
    (index last : RequestIndex) (rs : List AcceptedRecord) (q : String) (v : RequestIdentity)
    → replay_from index rs ≡ ok last
    → lookup q index ≡ some v
    → lookup q last ≡ some v
unfolding replay_from
replay_from_keeps index last [] q v e h = ground arith
replay_from_keeps index last (r ∷ rs) q v e h =
    let (next, first, rest) = >>=-inversion (replay_record index r) (λ n. replay_from n rs) e in
    replay_from_keeps next last rs q v rest (replay_record_keeps index next r q v first h)

replay_from_agrees :
    (index last : RequestIndex) (rs : List AcceptedRecord)
    → replay_from index rs ≡ ok last
    → All (λ r. lookup r.request_id last ≡ some (identity_of r)) rs
unfolding replay_from
replay_from_agrees index last [] e = tt
replay_from_agrees index last (r ∷ rs) e =
    let (next, first, rest) = >>=-inversion (replay_record index r) (λ n. replay_from n rs) e in
    (
      replay_from_keeps next last rs r.request_id (identity_of r) rest
          (replay_record-lookup index next r first),
      replay_from_agrees next last rs rest,
    )

-- An index rebuilt from records binds every record's id to that record's hash and run: no two
-- records of an accepted list disagree, and none is lost.
pub replay_request_index_agrees :
    (records : List AcceptedRecord) (index : RequestIndex)
    → replay_request_index records ≡ ok index
    → All (λ r. lookup r.request_id index ≡ some (identity_of r)) records
unfolding replay_request_index
replay_request_index_agrees records index e = replay_from_agrees [] index records e
