-- ===== src/Completion/Tests.antt =====
-- A completion with the expected answer, for a `Host` whose digest of every text is the same.
use agent_runtime_lab.Prelude.{◌≡◌, refl, true, false, none}
use agent_runtime_lab.Result.{ok}
use agent_runtime_lab.Json.{no_fields, Host}
use agent_runtime_lab.Completion.{
  CompletionExpectation, CompletionResult, text_length, all_hex, is_digest, verify_completion,
}
use agent_runtime_lab.Completion.Accepted.{Judges, verify_completion_lem}

abbrev host : Host
host = record {
  dumps = λ _. "{}";
  loads = λ _. none;
  sha256 = λ _. "e3b0c44298fc1c149afbf4c8996fb92427ae41e4649b934ca495991b7852b855";
  isoformat = λ _. "";
  fromisoformat = λ _. none;
}

abbrev expectation : CompletionExpectation
expectation = record { expected_answer = "done"; require_verified_observation = false }

digest_accepted : is_digest (host.sha256 "done") ≡ true
unfolding is_digest text_length all_hex
digest_accepted = refl

verify_completion_example :
    (r : CompletionResult) × (verify_completion host "done" no_fields expectation ≡ ok r)
    × Judges host "done" no_fields expectation r
verify_completion_example = verify_completion_lem host "done" no_fields expectation digest_accepted
