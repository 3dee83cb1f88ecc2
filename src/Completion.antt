-- ===== src/Completion.antt =====
-- src/agent_runtime_lab/completion.py: the check of an untrusted final answer.
pub mod Accepted
mod Tests
use Prim.Native.Char.{Char, code}
use agent_runtime_lab.Prelude.{
  ℕ, suc, String, Bool, true, false, not, ◌&&◌, ◌||◌, ◌==◌, leb, Option, none, some, List, [], ◌∷◌,
  all, holds, string_dec, is_empty, if◌then◌else◌,
}
use agent_runtime_lab.Result.{Result, ok, value_error, ◌>>=◌, ◌>>◌, guard}
use agent_runtime_lab.Json.{Json, str, list, dict, Fields, get, Host}

pub data CompletionOutcome : Type 0 where
  accepted rejected : CompletionOutcome

pub record CompletionCheck : Type 0 where
  pub name : String
  pub is_passed : Bool
  pub message : String

-- `CompletionCheck(name, passed, message)`, with the checks of `__post_init__`
unfoldable pub completion_check : String → Bool → String → Result CompletionCheck
completion_check name test message = do
  guard (not (is_empty name)) value_error
  guard (not (is_empty message)) value_error
  ok (record { name = name; is_passed = test; message = message })

pub record CompletionExpectation : Type 0 where
  pub expected_answer : String
  pub require_verified_observation : Bool

-- `CompletionExpectation(...)`, with the checks of `__post_init__`
unfoldable pub completion_expectation : String → Bool → Result CompletionExpectation
completion_expectation expected_answer required = do
  guard (not (is_empty expected_answer)) value_error
  ok (record { expected_answer = expected_answer; require_verified_observation = required })

pub record CompletionResult : Type 0 where
  pub outcome : CompletionOutcome
  pub answer_sha256 : String
  pub checks : List CompletionCheck
  pub summary : String

unfoldable pub text_length : String → ℕ
text_length String.[] = 0
text_length (String.◌∷◌ c rest) = suc (text_length rest)

-- The characters 0 to 9 and a to f.
abbrev is_hex : Char → Bool
is_hex c = (leb 48 (code c) && leb (code c) 57) || (leb 97 (code c) && leb (code c) 102)

unfoldable pub all_hex : String → Bool
all_hex String.[] = true
all_hex (String.◌∷◌ c rest) = is_hex c && all_hex rest

-- A lowercase SHA-256 digest.
unfoldable pub is_digest : String → Bool
is_digest text = (text_length text == 64) && all_hex text

abbrev pub is_accepted : CompletionOutcome → Bool
is_accepted accepted = true
is_accepted rejected = false

abbrev has_checks : List CompletionCheck → Bool
has_checks [] = false
has_checks (_ ∷ _) = true

abbrev pub same : Bool → Bool → Bool
same true b = b
same false b = not b

-- `CompletionResult(...)`, with the checks of `__post_init__`
unfoldable pub completion_result :
    CompletionOutcome → String → List CompletionCheck → String → Result CompletionResult
completion_result outcome answer_sha256 checks summary = do
  guard (is_digest answer_sha256) value_error
  guard (has_checks checks) value_error
  guard (not (is_empty summary)) value_error
  guard (same (all (λ c. c.is_passed) checks) (is_accepted outcome)) value_error
  ok (record {
    outcome = outcome;
    answer_sha256 = answer_sha256;
    checks = checks;
    summary = summary;
  })

abbrev pub is_text : Option Json → Bool
is_text (some (str _)) = true
is_text _ = false

abbrev pub is_list : Option Json → Bool
is_list (some (list _)) = true
is_list _ = false

abbrev pub is_evidence : Option Json → Bool
is_evidence (some (dict verification)) =
    is_text (get "summary" verification) && is_list (get "checks" verification)
is_evidence _ = false

-- `has_verified_observation`, of the object that `context.observation` is.
unfoldable pub has_verified_observation : Fields → Bool
has_verified_observation observation = is_evidence (get "verification" observation)

abbrev pub is_met : CompletionExpectation → Fields → Bool
is_met expectation observation =
    not expectation.require_verified_observation || has_verified_observation observation

abbrev pub answer_message : Bool → String
answer_message true = "answer matched the trusted expectation"
answer_message false = "answer did not match the trusted expectation"

abbrev pub observation_message : Bool → String
observation_message true = "verified observation was present"
observation_message false = "verified observation was absent"

abbrev pub outcome_of : Bool → CompletionOutcome
outcome_of true = accepted
outcome_of false = rejected

abbrev pub summary_of : Bool → String
summary_of true = "completion proposal accepted"
summary_of false = "completion proposal rejected"

-- `CompletionVerifier().verify(action, context, expectation)`, of the action's answer and the
-- context's observation
unfoldable pub verify_completion :
    Host → String → Fields → CompletionExpectation → Result CompletionResult
verify_completion h answer observation expectation = do
  let matches = holds (string_dec answer expectation.expected_answer)
  answer_check ← completion_check "answer_matches" matches (answer_message matches)
  observation_check ←
      completion_check "verified_observation" (is_met expectation observation)
        (observation_message (has_verified_observation observation))
  let checks = answer_check ∷ observation_check ∷ []
  let all_passed = all (λ (c : CompletionCheck). c.is_passed) checks
  completion_result (outcome_of all_passed) (h.sha256 answer) checks (summary_of all_passed)
