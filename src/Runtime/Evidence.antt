-- ===== src/Runtime/Evidence.antt =====
-- src/agent_runtime_lab/authorized_tool_runtime.py: the tests and payloads of the model's turns and of
-- the evidence that is recorded.
use agent_runtime_lab.Prelude.{
  ℕ, leb, String, Bool, true, false, ◌&&◌, ◌==◌, Option, none, some, List, [], ◌∷◌, holds,
  string_dec, option_dec, is_empty, ◌<>◌, if◌then◌else◌,
}
use agent_runtime_lab.Prelude.Int.{ℤ, pos}
use agent_runtime_lab.Result.{
  Result, ok, err, invalid_transition, model_action_validation, missing_verification_evidence,
}
use agent_runtime_lab.Json.{
  Json, bool, int, str, list, dict, Items, no_items, item, Fields, field, no_fields, get,
}
use agent_runtime_lab.Domain.Event.{
  EventType, ExecutionEvent, model_action_requested, completion_accepted, completion_rejected,
  tool_succeeded,
}
use agent_runtime_lab.Domain.State.{RunState, RunStatus, RunStatus-discrete, ready, model_pending}
use agent_runtime_lab.Domain.Reducer.{next_step_id}
use agent_runtime_lab.Effects.{ToolReceipt}
use agent_runtime_lab.Verification.{
  VerificationOutcome, VerificationCheck, VerificationResult, text_equals, is_success,
}
use agent_runtime_lab.Completion.{CompletionCheck, CompletionResult}
use agent_runtime_lab.ModelAdapter.{
  ModelInput, ModelAction, FinalAnswerAction, tool_call, final_answer,
}
use agent_runtime_lab.Runtime.Lookups.{is_tool_requested}

abbrev pub has_status : RunState → RunStatus → Bool
has_status s status = holds (RunStatus-discrete s.status status)

abbrev pub is_budget_spent : RunState → Option ℕ → Bool
is_budget_spent s none = false
is_budget_spent s (some limit) = leb limit s.turn_index

abbrev pub limit_json : Option ℕ → Fields → Fields
limit_json none rest = rest
limit_json (some limit) rest = field "max_steps" (int (pos limit)) rest

-- The context is that of the state's next step.
abbrev pub is_next_turn : RunState → ModelInput → Bool
is_next_turn s context =
    holds (RunStatus-discrete context.state_status ready)
    && context.turn_index == s.turn_index
    && holds (string_dec context.step_id (next_step_id s))

abbrev pub invocation_id_of : ModelInput → String
invocation_id_of context = context.run_id <> (":" <> (context.step_id <> ":model-invocation"))

abbrev pub is_active_invocation : RunState → ModelInput → String → Bool
is_active_invocation s context invocation_id =
    has_status s model_pending
    && holds (option_dec string_dec s.active_model_invocation_id (some invocation_id))
    && holds (option_dec string_dec s.active_step_id (some context.step_id))
    && s.turn_index == context.turn_index

abbrev pub action_payload : ModelInput → String → ModelAction → Fields
action_payload context invocation_id (tool_call action) = field "action_type" (str "tool_call") (
    field "arguments_json" (str action.arguments_json) (
      field "invocation_id" (str invocation_id) (
        field "step_id" (str context.step_id) (
          field "tool_call_id" (str action.tool_call_id) (
            field "tool_name" (str action.tool_name)
              (field "turn_index" (int (pos context.turn_index)) no_fields))))))
action_payload context invocation_id (final_answer action) =
    field "action_type" (str "final_answer") (
      field "answer" (str action.answer) (
        field "invocation_id" (str invocation_id) (
          field "step_id" (str context.step_id)
            (field "turn_index" (int (pos context.turn_index)) no_fields))))

abbrev pub is_model_request : EventType → Bool
is_model_request model_action_requested = true
is_model_request _ = false

abbrev pub invokes : String → ExecutionEvent → Bool
invokes invocation_id e =
    is_model_request e.event_type && text_equals (get "invocation_id" e.payload) invocation_id

abbrev pub has_event_id : String → ExecutionEvent → Bool
has_event_id event_id e = holds (string_dec e.event_id event_id)

abbrev pub needed : {A : Type 0} → Option A → Result A
needed none = err invalid_transition
needed (some a) = ok a

abbrev pub turn_value : Option Json → Result ℤ
turn_value (some (int n)) = ok n
turn_value _ = err model_action_validation

abbrev pub json_check : String → Bool → String → Json
json_check name test message =
    dict (
      field "message" (str message)
        (field "name" (str name) (field "passed" (bool test) no_fields)))

abbrev pub verification_items : List VerificationCheck → Items
verification_items [] = no_items
verification_items (c ∷ cs) = item (json_check c.name c.is_passed c.message) (verification_items cs)

abbrev pub completion_items : List CompletionCheck → Items
completion_items [] = no_items
completion_items (c ∷ cs) = item (json_check c.name c.is_passed c.message) (completion_items cs)

abbrev pub evidence_payload : VerificationResult → Fields → Fields
evidence_payload result rest =
    field "checks" (list (verification_items result.checks))
      (field "summary" (str result.summary) rest)

abbrev pub is_failure : VerificationOutcome → Bool
is_failure VerificationOutcome.failed = true
is_failure VerificationOutcome.passed = false

abbrev pub is_tool_succeeded : EventType → Bool
is_tool_succeeded tool_succeeded = true
is_tool_succeeded _ = false

abbrev pub effect_of : Option ExecutionEvent → Result String
effect_of none = err missing_verification_evidence
effect_of (some e) = effect_text (get "effect_id" e.payload)
  where
    effect_text : Option Json → Result String
    effect_text (some (str text)) =
        if is_empty text then err missing_verification_evidence else ok text
    effect_text _ = err missing_verification_evidence

abbrev pub successful : Option ToolReceipt → Result ToolReceipt
successful none = err missing_verification_evidence
successful (some receipt) =
    if is_success receipt.outcome then ok receipt else err missing_verification_evidence

abbrev pub requests_step : String → ExecutionEvent → Bool
requests_step step_id e =
    is_tool_requested e.event_type && text_equals (get "step_id" e.payload) step_id

abbrev pub found : Option ExecutionEvent → Result ExecutionEvent
found none = err missing_verification_evidence
found (some e) = ok e

abbrev pub completion_fields : FinalAnswerAction → String → CompletionResult → ModelInput → Fields
completion_fields action answer_sha256 result context = field "answer" (str action.answer) (
    field "answer_sha256" (str answer_sha256) (
      field "checks" (list (completion_items result.checks))
        (field "step_id" (str context.step_id) (field "summary" (str result.summary) no_fields))))

abbrev pub completion_payload : Option String → Fields → Fields
completion_payload none rest = rest
completion_payload (some event_id) rest = field "model_action_event_id" (str event_id) rest

abbrev pub completion_type : Bool → EventType
completion_type true = completion_accepted
completion_type false = completion_rejected
