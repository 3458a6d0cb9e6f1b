-- ===== src/Requests/Tests.antt =====
-- Requests registered and replayed, and the theorems at them.
use agent_orchestration_star.Base.{
  List, [], ◌∷◌, some, ◌≡◌, refl, ok, err, lookup, insert, All, true, false, ◌==◌, if◌then◌else◌,
  string_eq, String,
}
use agent_orchestration_star.Requests.{
  RequestIndex, Registration, AcceptedRecord, register_request, replay_request_index,
  different_bytes,
}
use agent_orchestration_star.Requests.Register.{register_again}
use agent_orchestration_star.Requests.Replay.{identity_of, replay_request_index_agrees}

abbrev first : Registration
first = record {
  index = ("req_1", record { request_hash = "h"; run_id = "run_1" }) ∷ [];
  run_id = "run_1";
  created = true;
}

first_registered : register_request [] "req_1" "h" "run_1" ≡ ok first
unfolding register_request lookup insert
first_registered = refl

register_again_example : register_request first.index "req_1" "other" "run_2" ≡ (
    if ◌==◌ {A = String} "h" "other"
    then ok (record { index = first.index; run_id = "run_1"; created = false })
    else err different_bytes)
register_again_example =
    register_again [] "req_1" "h" "run_1" first first_registered "other" "run_2"

abbrev records : List AcceptedRecord
records =
    record { request_id = "req_1"; request_hash = "h"; run_id = "run_1" }
    ∷ record { request_id = "req_2"; request_hash = "k"; run_id = "run_2" }
    ∷ record { request_id = "req_1"; request_hash = "h"; run_id = "run_1" }
    ∷ []

abbrev both : RequestIndex
both =
    ("req_1", record { request_hash = "h"; run_id = "run_1" })
    ∷ ("req_2", record { request_hash = "k"; run_id = "run_2" })
    ∷ []

records_replayed : replay_request_index records ≡ ok both
unfolding replay_request_index register_request lookup insert
records_replayed = refl

replay_request_index_agrees_example :
    All (λ r. lookup r.request_id both ≡ some (identity_of r)) records
replay_request_index_agrees_example = replay_request_index_agrees records both records_replayed
