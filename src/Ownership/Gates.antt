-- ===== src/Ownership/Gates.antt =====
-- src/agent_runtime_lab/ownership/gates.py: proposals of PAIR and USER_GATE, the human actions that
-- are bound to them, and the evaluation of an answer. A field check of pydantic raises its
-- ValidationError, a ValueError.
pub mod Answers
mod Tests
use Prim.Native.Char.{Char, code}
use agent_runtime_lab.Prelude.{
  ℕ, suc, String, Bool, true, false, not, ◌&&◌, ◌||◌, ◌==◌, leb, Option, none, some, List, [], ◌∷◌,
  filter, holds, string_dec, nat_dec, is_empty, ◌<>◌, if◌then◌else◌,
}
use agent_runtime_lab.Prelude.Int.{ℤ, pos, negsuc}
use agent_runtime_lab.Result.{
  Result, ok, err, event_validation, value_error, attribute_error, ◌>>=◌, ◌>>◌, guard, check,
}
use agent_runtime_lab.Json.{
  Json, bool, int, str, list, dict, Items, no_items, item, Fields, field, no_fields, get, Host,
}
use agent_runtime_lab.Completion.{is_digest}
use agent_runtime_lab.Ownership.Policy.{OwnershipMode, mode_value, OwnershipDecision}
use agent_runtime_lab.Ownership.Authorization.{
  ToolRequest, AuthorizationDecision, AuthorizationOutcome, escalate, is_auto,
}

pub data GateAction : Type 0 where
  approve reject : GateAction

pub data GateEvaluationOutcome : Type 0 where
  pass retry block : GateEvaluationOutcome

abbrev pub evaluation_value : GateEvaluationOutcome → String
evaluation_value pass = "pass"
evaluation_value retry = "retry"
evaluation_value block = "block"

pub record GateReference : Type 0 where
  pub run_id : String
  pub tool_call_id : String
  pub proposal_digest : String
  pub revision : ℕ

-- `==` of two references
unfoldable pub GateReference-discrete : Discrete GateReference
GateReference-discrete = hlevel (string_dec, nat_dec)

-- `Field(min_length=1)`
abbrev pub present : String → Result (Unit {0})
present text = guard (not (is_empty text)) value_error

abbrev pub is_positive : ℕ → Bool
is_positive n = leb 1 n

-- `GateReference(...)`, with the checks of its fields
unfoldable pub gate_reference : String → String → String → ℕ → Result GateReference
gate_reference run_id tool_call_id proposal_digest revision = do
  present run_id
  present tool_call_id
  guard (is_digest proposal_digest) value_error
  guard (is_positive revision) value_error
  ok (record {
    run_id = run_id;
    tool_call_id = tool_call_id;
    proposal_digest = proposal_digest;
    revision = revision;
  })

pub record GateProposal : Type 0 where
  pub reference : GateReference
  pub step_id : String
  pub tool_name : String
  pub arguments_json : String
  pub ownership_mode : OwnershipMode
  pub reasons : List String

-- `GateProposal(...)`, with the checks of its fields
unfoldable pub gate_proposal :
    GateReference → String → String → String → OwnershipMode → List String → Result GateProposal
gate_proposal reference step_id tool_name arguments_json ownership_mode reasons = do
  present step_id
  present tool_name
  ok (record {
    reference = reference;
    step_id = step_id;
    tool_name = tool_name;
    arguments_json = arguments_json;
    ownership_mode = ownership_mode;
    reasons = reasons;
  })

abbrev pub is_escalate : AuthorizationOutcome → Bool
is_escalate escalate = true
is_escalate _ = false

abbrev pub owned : Option OwnershipDecision → Result OwnershipDecision
owned none = err event_validation
owned (some ownership) = ok ownership

abbrev pub text_items : List String → Items
text_items [] = no_items
text_items (t ∷ ts) = item (str t) (text_items ts)

abbrev pub read_value : Option Json → Result Json
read_value none = err value_error
read_value (some v) = ok v

abbrev pub digest_fields : ToolRequest → List String → OwnershipMode → ℕ → Json → Fields
digest_fields request paths mode revision arguments = field "arguments" arguments (
    field "normalized_paths" (list (text_items paths)) (
      field "ownership_mode" (str (mode_value mode)) (
        field "revision" (int (pos revision)) (
          field "run_id" (str request.run_id) (
            field "step_id" (str request.step_id) (
              field "tool_call_id" (str request.tool_call_id)
                (field "tool_name" (str request.tool_name) no_fields)))))))

-- The authorization is one of the request.
unfoldable pub same_identity : AuthorizationDecision → ToolRequest → Bool
same_identity decision request =
    holds (string_dec decision.run_id request.run_id)
    && holds (string_dec decision.step_id request.step_id)
    && holds (string_dec decision.tool_call_id request.tool_call_id)
    && holds (string_dec decision.tool_name request.tool_name)

module _ (h : Host) where
  -- `hashlib.sha256(digest_payload)`
  unfoldable pub proposal_digest_of : ToolRequest → List String → OwnershipMode → ℕ → Result String
  proposal_digest_of request paths mode revision = do
    arguments ← read_value (h.loads request.arguments_json)
    ok (h.sha256 (h.dumps (dict (digest_fields request paths mode revision arguments))))

  -- `GateProposal.build(request=..., decision=..., revision=...)`
  unfoldable pub build_proposal : ToolRequest → AuthorizationDecision → ℕ → Result GateProposal
  build_proposal request decision revision = do
    guard (is_escalate decision.outcome) event_validation
    ownership ← owned decision.ownership_decision
    guard (not (is_auto ownership.mode)) event_validation
    guard (same_identity decision request) event_validation
    guard (is_positive revision) event_validation
    digest ← proposal_digest_of request decision.normalized_paths ownership.mode revision
    reference ← gate_reference request.run_id request.tool_call_id digest revision
    gate_proposal reference request.step_id request.tool_name request.arguments_json ownership.mode
        decision.reasons

pub record GateResolution : Type 0 where
  pub reference : GateReference
  pub action : GateAction
  pub actor : String
  pub reason : String

-- `GateResolution(...)`, with the checks of its fields
unfoldable pub gate_resolution :
    GateReference → GateAction → String → String → Result GateResolution
gate_resolution reference action actor reason = do
  present actor
  present reason
  ok (record { reference = reference; action = action; actor = actor; reason = reason })

pub record GateAnswerSubmission : Type 0 where
  pub reference : GateReference
  pub actor : String
  pub answer_json : String

abbrev pub answer_object : Option Json → Result Fields
answer_object (some (dict answer)) = ok answer
answer_object _ = err value_error

-- `GateAnswerSubmission(...)`, with the checks of its fields
unfoldable pub gate_answer_submission :
    Host → GateReference → String → String → Result GateAnswerSubmission
gate_answer_submission h reference actor answer_json = do
  present actor
  answer ← answer_object (h.loads answer_json)
  ok (record { reference = reference; actor = actor; answer_json = h.dumps (dict answer) })

-- `GateAnswerSubmission.build(...)`
unfoldable pub build_submission :
    Host → GateReference → String → Fields → Result GateAnswerSubmission
build_submission h reference actor answer =
    gate_answer_submission h reference actor (h.dumps (dict answer))

-- `submission.answer`
unfoldable pub submitted_answer : Host → GateAnswerSubmission → Result Fields
submitted_answer h submission = answer_object (h.loads submission.answer_json)

pub record GateEvaluation : Type 0 where
  pub outcome : GateEvaluationOutcome
  pub reason : String
