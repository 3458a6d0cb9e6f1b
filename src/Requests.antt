-- ===== src/Requests.antt =====
-- Request idempotency (src/runtime/request-idempotency.ts): a request id is bound, once, to the
-- hash of its request and to the run that it started.
pub mod Register
pub mod Replay
mod Tests
use agent_orchestration_star.Base.{
  String, Bool, true, false, Option, none, some, List, [], ◌∷◌, ◌||◌, Result, ok, err, ◌>>=◌, ◌>>◌,
  throw_if, lookup, insert, ◌!=◌, if◌then◌else◌, string_eq,
}

pub record RequestIdentity : Type 0 where
  pub request_hash : String
  pub run_id : String

-- Ids begin with `req_`, so no key is a name that every object inherits.
abbrev pub RequestIndex : Type 0
RequestIndex = List (String × RequestIdentity)

pub record Registration : Type 0 where
  pub index : RequestIndex
  pub run_id : String
  pub created : Bool

pub data RequestError : Type 0 where
  -- INVALID_CONTRACT: the id was already used for different canonical bytes.
  different_bytes : RequestError
  -- BROKER_STATE_CORRUPT: two accepted records of the id disagree.
  conflicting_records : RequestError

unfoldable pub register_request :
    RequestIndex → String → String → String → Result RequestError Registration
register_request index request_id request_hash run_id = elim (lookup request_id index) [
  | some existing ↦
      if existing.request_hash != request_hash
      then err different_bytes
      else ok (record { index = index; run_id = existing.run_id; created = false })
  | none ↦ ok (record {
    index = insert request_id (record { request_hash = request_hash; run_id = run_id }) index;
    run_id = run_id;
    created = true;
  })
]

pub record AcceptedRecord : Type 0 where
  pub request_id : String
  pub request_hash : String
  pub run_id : String

conflicts : Option RequestIdentity → AcceptedRecord → Bool
conflicts none r = false
conflicts (some existing) r = existing.request_hash != r.request_hash || existing.run_id != r.run_id

-- One round of the loop of `replayRequestIndexV4`.
unfoldable pub replay_record : RequestIndex → AcceptedRecord → Result RequestError RequestIndex
unfolding conflicts register_request
replay_record index r = do
  throw_if (conflicts (lookup r.request_id index) r) conflicting_records
  registration ← register_request index r.request_id r.request_hash r.run_id
  ok registration.index

unfoldable pub replay_from : RequestIndex → List AcceptedRecord → Result RequestError RequestIndex
unfolding replay_record
replay_from index [] = ok index
replay_from index (r ∷ rs) = do next ← replay_record index r; replay_from next rs

unfoldable pub replay_request_index : List AcceptedRecord → Result RequestError RequestIndex
unfolding replay_from
replay_request_index records = replay_from [] records
