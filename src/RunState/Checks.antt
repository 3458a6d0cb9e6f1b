-- ===== src/RunState/Checks.antt =====
-- The checks of the journal's loader (src/runtime/run-state.ts), on fields that have the types that
-- its `typeof` tests ask for.
use agent_orchestration_star.Base.{
  leb, ◌!=◌, nat_eq, string_eq, option_eq, length, all, elem, Result, ok, ◌>>=◌, ◌>>◌, throw_if,
  codes, text_length, is_digit, is_hex, is_word, repeats, repeats_some, after, headed, split_on,
  equal_codes, ends_with, includes_at, decimal, is_blank, has_nul, ℕ, String, Bool, true, false,
  not, ◌&&◌, ◌||◌, List, [], ◌∷◌, ◌++◌,
}
use agent_orchestration_star.Contracts.{
  trait_eq, Failure, ValidationResult, split_slash, is_normalized_path,
}

-- `BROKER_STATE_CORRUPT`, by the check that raises it.
pub data LoadError : Type 0 where
  caller_command invalid_identifier invalid_run_id invalid_hash invalid_git_sha : LoadError
  invalid_pull_request invalid_url invalid_epoch invalid_attempt invalid_pid : LoadError
  invalid_validations failed_validation invalid_files invalid_file ambiguous_files : LoadError
  invalid_reason forged_verdict invalid_task_ref invalid_branch invalid_remote : LoadError
  invalid_base_branch invalid_message invalid_evidence duplicate_evidence : LoadError
  wrong_abort refused_contract refused_result : LoadError

abbrev pub Loaded : Type 0 → Type 0
Loaded A = Result LoadError A

-- `Number.isSafeInteger(n) && n >= 1`.
abbrev pub is_positive : ℕ → Bool
is_positive n = leb 1 n && leb n 9007199254740991

unfoldable pub is_identifier : String → Bool
unfolding text_length
is_identifier s = leb 1 (text_length s) && leb (text_length s) 128

unfoldable pub is_run_id : String → Bool
is_run_id s = after "run_" (repeats (is_word "_-") 16 96) s

unfoldable pub is_hash : String → Bool
is_hash s = repeats is_hex 64 64 (codes s)

unfoldable pub is_git_sha : String → Bool
is_git_sha s = repeats is_hex 40 40 (codes s)

-- `low <= n && n <= high`.
abbrev pub within : ℕ → ℕ → ℕ → Bool
within low high n = leb low n && leb n high

-- A check returns the value that it accepts.
abbrev pub checked : {A : Type 0} → (A → Bool) → LoadError → A → Loaded A
checked test reason a = do throw_if (not (test a)) reason; ok a

abbrev pub identifier : String → Loaded String
identifier s = checked is_identifier invalid_identifier s

abbrev pub load_run_id : String → Loaded String
load_run_id s = checked is_run_id invalid_run_id s

abbrev pub load_hash : String → Loaded String
load_hash s = checked is_hash invalid_hash s

abbrev pub git_sha : String → Loaded String
git_sha s = checked is_git_sha invalid_git_sha s

abbrev pub load_pull_request : ℕ → Loaded ℕ
load_pull_request n = checked is_positive invalid_pull_request n

-- `https://github.com/owner/repository/pull/number`, the parts by their segments.
unfoldable pub is_pull_path : List ℕ → Bool
unfolding split_on
is_pull_path path = elim (split_slash path) [
  | owner ∷ repository ∷ pull ∷ (first ∷ rest) ∷ [] ↦
      repeats_some (is_word "_.-") owner
      && repeats_some (is_word "_.-") repository
      && equal_codes pull (codes "pull")
      && leb b'1' first
      && leb first b'9'
      && all is_digit rest
  | _ ↦ false
]

unfoldable pub is_pull_request_url : ℕ → String → Bool
unfolding is_pull_path text_length ends_with decimal
is_pull_request_url number url =
    leb (text_length url) 2048
    && after "https://github.com/" is_pull_path url
    && ends_with (codes "/pull/" ++ decimal number) (codes url)

abbrev pub load_url : ℕ → String → Loaded String
load_url number url = checked (is_pull_request_url number) invalid_url url

-- `array.map(item => check(item))`, which stops at the first error.
unfoldable pub load_each : {A : Type 0} → (A → Loaded A) → List A → Loaded (List A)
load_each check [] = ok []
load_each check (x ∷ xs) = do y ← check x; ys ← load_each check xs; ok (y ∷ ys)

-- `new Set(xs).size === xs.length`.
unfoldable pub all_distinct : List String → Bool
all_distinct [] = true
all_distinct (x ∷ xs) = not (elem x xs) && all_distinct xs

unfoldable pub is_message : String → Bool
unfolding text_length
is_message s = leb 1 (text_length s) && leb (text_length s) 2000

unfoldable pub failure_contract : Failure → Loaded Failure
unfolding load_each
failure_contract failure = do
  throw_if (not (is_message failure.message)) invalid_message
  throw_if (not (leb (length failure.evidence_hashes) 64)) invalid_evidence
  evidence ← load_each load_hash failure.evidence_hashes
  throw_if (not (all_distinct evidence)) duplicate_evidence
  ok (record {
    code = failure.code;
    message = failure.message;
    retryable = failure.retryable;
    evidence_hashes = evidence;
  })

-- The ids seen so far refuse a second result under one of them.
unfoldable pub load_validations :
    List String → List ValidationResult → Loaded (List ValidationResult)
load_validations seen [] = ok []
load_validations seen (r ∷ rest) = do
  id ← identifier r.validation_id
  throw_if (elem id seen || r.exit_code != 0) failed_validation
  result_hash ← load_hash r.result_hash
  results ← load_validations (id ∷ seen) rest
  ok (record { validation_id = id; exit_code = 0; result_hash = result_hash } ∷ results)

unfoldable pub is_changed_file : String → Bool
unfolding text_length
is_changed_file s = leb (text_length s) 512 && is_normalized_path s

unfoldable pub is_reason : String → Bool
unfolding text_length is_blank has_nul
is_reason s = not (is_blank s) && leb (text_length s) 4000 && not (has_nul s)

unfoldable pub is_task_ref : String → Bool
is_task_ref s = after "refs/heads/codex/auto/" (headed (is_word "._/-") 191) s

unfoldable pub is_run_branch : String → Bool
is_run_branch s = after "codex/auto/run_" (repeats (is_word "_-") 16 96) s

unfoldable pub is_remote : String → Bool
is_remote s = headed (is_word "._-") 63 (codes s)

unfoldable pub is_base_branch : String → Bool
unfolding includes_at
is_base_branch s = headed (is_word "._/-") 191 (codes s) && not (includes_at (codes "..") (codes s))
