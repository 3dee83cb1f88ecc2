-- ===== src/ModelAdapter.antt =====
-- src/agent_runtime_lab/model_adapter.py: the input that a model is shown, the actions that it
-- proposes, and their compilation to a tool request.
pub mod Compiled
mod Tests
use agent_runtime_lab.Prelude.{
  ℕ, String, ◌≡◌, Bool, true, false, not, Option, none, some, List, get_elem?, string_dec, nat_dec,
  is_empty,
}
use agent_runtime_lab.Prelude.Int.{ℤ, pos, negsuc}
use agent_runtime_lab.Result.{
  Result, ok, err, model_action_validation, model_adapter_exhausted, invalid_transition, ◌>>=◌,
  ◌>>◌, guard, check,
}
use agent_runtime_lab.Json.{Json, dict, Fields, no_fields, Host}
use agent_runtime_lab.Domain.State.{RunStatus, RunStatus-discrete, ready}
use agent_runtime_lab.Ownership.Authorization.{ToolRequest, tool_request}

-- `_required_text(value, field)`
abbrev pub action_text : String → Result (Unit {0})
action_text value = guard (not (is_empty value)) model_action_validation

abbrev pub action_object : Option Json → Result Fields
action_object (some (dict d)) = ok d
action_object _ = err model_action_validation

abbrev pub turn : ℤ → Result ℕ
turn (pos n) = ok n
turn (negsuc _) = err model_action_validation

abbrev object_or_empty : Option Json → Fields
object_or_empty (some (dict d)) = d
object_or_empty _ = no_fields

pub record ModelInput : Type 0 where
  pub run_id : String
  pub step_id : String
  pub turn_index : ℕ
  pub state_status : RunStatus
  pub observation_json : String

pub record ToolCallAction : Type 0 where
  pub tool_call_id : String
  pub tool_name : String
  pub arguments_json : String

pub record FinalAnswerAction : Type 0 where
  pub answer : String

-- `ModelAction = ToolCallAction | FinalAnswerAction`
pub data ModelAction : Type 0 where
  tool_call : ToolCallAction → ModelAction
  final_answer : FinalAnswerAction → ModelAction

-- `==` of two inputs, and of two actions
unfoldable pub ModelInput-discrete : Discrete ModelInput
ModelInput-discrete = hlevel (string_dec, nat_dec, RunStatus-discrete)

unfoldable pub ModelAction-discrete : Discrete ModelAction
ModelAction-discrete = hlevel string_dec

module _ (h : Host) where
  -- `_validate_object_json(value, field)`
  unfoldable pub validate_object_json : String → Result String
  validate_object_json value = do
    decoded ← action_object (h.loads value)
    ok (h.dumps (dict decoded))

  -- `ModelInput(...)`, with the checks of `__post_init__`
  unfoldable pub model_input : String → String → ℤ → RunStatus → String → Result ModelInput
  model_input run_id step_id turn_index state_status observation_json = do
    action_text run_id
    action_text step_id
    n ← turn turn_index
    observation ← validate_object_json observation_json
    ok (record {
      run_id = run_id;
      step_id = step_id;
      turn_index = n;
      state_status = state_status;
      observation_json = observation;
    })

  -- `ModelInput.build(...)`
  unfoldable pub build_input : String → String → ℤ → RunStatus → Fields → Result ModelInput
  build_input run_id step_id turn_index state_status observation =
      model_input run_id step_id turn_index state_status (h.dumps (dict observation))

  -- `context.observation`
  unfoldable pub observation_of : ModelInput → Fields
  observation_of context = object_or_empty (h.loads context.observation_json)

  -- `ToolCallAction(...)`, with the checks of `__post_init__`
  unfoldable pub tool_call_action : String → String → String → Result ToolCallAction
  tool_call_action tool_call_id tool_name arguments_json = do
    action_text tool_call_id
    action_text tool_name
    arguments ← validate_object_json arguments_json
    ok (record { tool_call_id = tool_call_id; tool_name = tool_name; arguments_json = arguments })

  -- `ToolCallAction.build(...)`
  unfoldable pub build_tool_call : String → String → Fields → Result ToolCallAction
  build_tool_call tool_call_id tool_name arguments =
      tool_call_action tool_call_id tool_name (h.dumps (dict arguments))

-- `FinalAnswerAction(answer)`, with the check of `__post_init__`
unfoldable pub final_answer_action : String → Result FinalAnswerAction
final_answer_action answer = do action_text answer; ok (record { answer = answer })

-- An adapter is not part of this code; what it returns is of one of the two action types.
abbrev pub ModelAdapter : Type 0
ModelAdapter = ModelInput → Result ModelAction

abbrev scripted : Option ModelAction → Result ModelAction
scripted none = err model_adapter_exhausted
scripted (some action) = ok action

-- `StaticModelAdapter(actions).next_action(context)`
unfoldable pub static_adapter : List ModelAction → ModelAdapter
static_adapter actions context = scripted (get_elem? actions context.turn_index)

-- `request_model_action(adapter, context)`
unfoldable pub request_model_action : ModelAdapter → ModelInput → Result ModelAction
request_model_action adapter context = adapter context

abbrev only_tool_call : ModelAction → Result ToolCallAction
only_tool_call (tool_call action) = ok action
only_tool_call (final_answer _) = err model_action_validation

-- `tool_request_from_action(context, action, model_action_event_id=...)`
unfoldable pub tool_request_from_action :
    Host → ModelInput → ModelAction → Option String → Result ToolRequest
tool_request_from_action h context action model_action_event_id = do
  check (RunStatus-discrete context.state_status ready) invalid_transition
  call ← only_tool_call action
  tool_request h context.run_id context.step_id call.tool_call_id call.tool_name call.arguments_json
      model_action_event_id
