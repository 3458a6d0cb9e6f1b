-- ===== src/Pilot/Codec.antt =====
-- What the pilot reads off the canonical bytes of an event: its safety check, its bytes, its hash
-- and the hash of a review's boundary (src/pilot/sensitive-guard.ts, src/pilot/canonical-json.ts).
use agent_orchestration_star.Base.{String, Bool, Option, List, ℕ}
use agent_orchestration_star.Pilot.Events.{PilotEvent, ReviewCompleted}

-- The object that `canonicalBoundary` hashes.
pub record ReviewBoundary : Type 0 where
  pub pilot_id : String
  pub block_id : String
  pub review_id : String
  pub reviewed_attempt_id : String
  pub review_boundary_from_revision : String
  pub review_boundary_to_revision : String
  pub review_input_diff_hash : String
  pub unresolved_finding_ids : List String
  pub validation_evidence_hashes : List String

-- `assertSafeEvent`, `canonicalize`, `hashCanonical` and `parseContractualUtc`, as functions of
-- which nothing is assumed.
pub record Codec : Type 0 where
  pub is_safe : PilotEvent → Bool
  pub canonicalize : PilotEvent → String
  pub hash_event : PilotEvent → String
  pub hash_boundary : ReviewBoundary → String
  pub parse_utc : String → Option ℕ

unfoldable pub canonical_boundary : Codec → PilotEvent → ReviewCompleted → String
canonical_boundary codec event review = codec.hash_boundary (record {
  pilot_id = event.pilot_id;
  block_id = event.block_id;
  review_id = review.review_id;
  reviewed_attempt_id = review.reviewed_attempt_id;
  review_boundary_from_revision = review.review_boundary_from_revision;
  review_boundary_to_revision = review.review_boundary_to_revision;
  review_input_diff_hash = review.review_input_diff_hash;
  unresolved_finding_ids = review.unresolved_finding_ids;
  validation_evidence_hashes = review.validation_evidence_hashes;
})
