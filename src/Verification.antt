-- ===== src/Verification.antt =====
-- src/agent_runtime_lab/verification.py: the checks of a durable receipt against trusted evidence. A
-- check's message is the text that the code picks by the check's result.
pub mod Evidence
mod Tests
use agent_runtime_lab.Prelude.{
  ℕ, ◌+◌, ◌==◌, String, ◌≡◌, Bool, true, false, not, Option, none, some, List, [], ◌∷◌, holds,
  string_dec, option_dec, nat_dec, is_empty, decimal, ◌<>◌, if◌then◌else◌,
}
use agent_runtime_lab.Result.{Result, ok, value_error, ◌>>=◌, ◌>>◌, guard}
use agent_runtime_lab.Json.{Json, str, Fields, get, Host}
use agent_runtime_lab.Effects.{ToolOutcome, succeeded, ToolReceipt, receipt_output}

pub data VerificationOutcome : Type 0 where
  passed failed : VerificationOutcome

pub record VerificationExpectation : Type 0 where
  pub path : String
  pub sha256 : String

-- `VerificationExpectation(path, sha256)`, with the checks of `__post_init__`
unfoldable pub verification_expectation : String → String → Result VerificationExpectation
verification_expectation path sha256 = do
  guard (not (is_empty path)) value_error
  guard (not (is_empty sha256)) value_error
  ok (record { path = path; sha256 = sha256 })

pub record VerificationCheck : Type 0 where
  pub name : String
  pub is_passed : Bool
  pub message : String

pub record VerificationResult : Type 0 where
  pub outcome : VerificationOutcome
  pub checks : List VerificationCheck
  pub summary : String

abbrev pub is_success : ToolOutcome → Bool
is_success succeeded = true
is_success _ = false

-- `output.get(key) == text`
abbrev pub text_equals : Option Json → String → Bool
text_equals (some (str value)) text = holds (string_dec value text)
text_equals _ text = false

abbrev observe : String → Bool → String → String → VerificationCheck
observe name test good bad = record {
  name = name;
  is_passed = test;
  message = if test then good else bad;
}

-- `sum(not check.passed for check in checks)`
unfoldable pub failed_count : List VerificationCheck → ℕ
failed_count [] = 0
failed_count (c ∷ cs) = let rest = failed_count cs in if c.is_passed then rest else rest + 1

unfoldable pub conclude : List VerificationCheck → ℕ → VerificationResult
conclude checks n =
    if n == 0
    then record { outcome = passed; checks = checks; summary = "all verification checks passed" }
    else record {
      outcome = failed;
      checks = checks;
      summary = decimal n <> " verification checks failed";
    }

-- `ReceiptVerifier().verify(receipt, expectation)`
unfoldable pub verify : Host → ToolReceipt → VerificationExpectation → VerificationResult
verify h receipt expectation =
    let output = receipt_output h receipt in
    let checks =
      observe "receipt_succeeded" (is_success receipt.outcome) "receipt outcome is succeeded"
        "receipt outcome is not succeeded"
      ∷ observe "path_matches" (text_equals (get "path" output) expectation.path)
          "receipt output path matches expectation" "receipt output path does not match expectation"
      ∷ observe "sha256_matches" (text_equals (get "sha256" output) expectation.sha256)
          "receipt output sha256 matches expectation"
          "receipt output sha256 does not match expectation"
      ∷ [] in
    conclude checks (failed_count checks)
