-- ===== src/Verification/Tests.antt =====
-- A verification of a sample receipt, with a `Host` that reads one fixed object.
use agent_runtime_lab.Prelude.{◌≡◌, ◌↔◌, some, none}
use agent_runtime_lab.Json.{str, dict, Fields, field, no_fields, get, Host}
use agent_runtime_lab.Effects.{ToolReceipt, succeeded, receipt_output}
use agent_runtime_lab.Verification.{VerificationExpectation, passed, verify}
use agent_runtime_lab.Verification.Evidence.{verify-passed}

abbrev output : Fields
output = field "path" (str "notes.txt") (field "sha256" (str "d1") no_fields)

abbrev host : Host
host = record {
  dumps = λ _. "";
  loads = λ _. some (dict output);
  sha256 = λ text. text;
  isoformat = λ _. "";
  fromisoformat = λ _. none;
}

abbrev receipt : ToolReceipt
receipt = record { effect_id = "run"; outcome = succeeded; output_json = "" }

abbrev expectation : VerificationExpectation
expectation = record { path = "notes.txt"; sha256 = "d1" }

verify-passed_example : ((verify host receipt expectation).outcome ≡ passed) ↔ (
    (succeeded ≡ succeeded)
    × (get "path" (receipt_output host receipt) ≡ some (str "notes.txt"))
    × (get "sha256" (receipt_output host receipt) ≡ some (str "d1")))
verify-passed_example = verify-passed host receipt expectation
