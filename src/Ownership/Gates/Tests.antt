-- ===== src/Ownership/Gates/Tests.antt =====
-- An answer at a sample gate, with the `Host` of the tests.
use agent_runtime_lab.Prelude.{◌≡◌, ◌↔◌, refl, false, [], string_dec}
use agent_runtime_lab.Result.{ok}
use agent_runtime_lab.Json.{bool, str, dict, Fields, field, no_fields, get}
use agent_runtime_lab.Json.Sample.{sample_host, sample_dumps, sample_loads}
use agent_runtime_lab.Ownership.Policy.{user_gate}
use agent_runtime_lab.Ownership.Gates.{GateProposal, pass}
use agent_runtime_lab.Ownership.Gates.Answers.{
  evaluate_gate, evaluate_fields, evaluate_texts, evaluate_path, explanation_length, is_space,
  Passes, Explains, evaluate_gate-Explains,
}

abbrev gate : GateProposal
gate = record {
  reference = record { run_id = "r"; tool_call_id = "call"; proposal_digest = "d"; revision = 1 };
  step_id = "step-1";
  tool_name = "write_file";
  arguments_json = sample_dumps (dict (field "path" (str "a.txt") no_fields));
  ownership_mode = user_gate;
  reasons = [];
}

abbrev answer : Fields
answer = field "path" (str "a.txt") (
    field "refuse" (bool false) (
      field "risk_explanation" (str "it overwrites the notes of today")
        (field "tool_name" (str "write_file") no_fields)))

answer-passes :
    evaluate_gate sample_host gate answer
    ≡ ok (record {
      outcome = pass;
      reason = "tool, path, and risk explanation match the gated proposal";
    })
unfolding evaluate_gate evaluate_fields evaluate_texts evaluate_path explanation_length is_space get
    string_dec sample_dumps sample_loads
answer-passes = refl

evaluate_gate-Explains_example : Passes sample_host gate answer ↔ Explains sample_host gate answer
evaluate_gate-Explains_example = evaluate_gate-Explains sample_host gate answer
