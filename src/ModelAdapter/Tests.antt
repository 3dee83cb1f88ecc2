-- ===== src/ModelAdapter/Tests.antt =====
-- The request of a sample action, with the `Host` of the tests.
use agent_runtime_lab.Prelude.{String, ◌≡◌, refl, none}
use agent_runtime_lab.Result.{ok}
use agent_runtime_lab.Json.{dict, no_fields}
use agent_runtime_lab.Json.Sample.{sample_host, sample_canonical, sample_dumps, sample_loads}
use agent_runtime_lab.Domain.State.{RunStatus-discrete, ready}
use agent_runtime_lab.Ownership.Authorization.{ToolRequest, tool_request}
use agent_runtime_lab.ModelAdapter.{
  ModelInput, ToolCallAction, tool_call, tool_call_action, validate_object_json,
  tool_request_from_action,
}
use agent_runtime_lab.ModelAdapter.Compiled.{tool_request_from_action_lem}

abbrev empty_json : String
empty_json = sample_dumps (dict no_fields)

abbrev context : ModelInput
context = record {
  run_id = "r";
  step_id = "step-1";
  turn_index = 0;
  state_status = ready;
  observation_json = empty_json;
}

abbrev call : ToolCallAction
call = record { tool_call_id = "call"; tool_name = "read"; arguments_json = empty_json }

abbrev request : ToolRequest
request = record {
  run_id = "r";
  step_id = "step-1";
  tool_call_id = "call";
  tool_name = "read";
  arguments_json = empty_json;
  model_action_event_id = none;
}

call_built : tool_call_action sample_host "call" "read" empty_json ≡ ok call
unfolding tool_call_action validate_object_json sample_dumps sample_loads
call_built = refl

request_compiled : tool_request_from_action sample_host context (tool_call call) none ≡ ok request
unfolding tool_request_from_action tool_request sample_dumps sample_loads RunStatus-discrete
request_compiled = refl

tool_request_from_action_example : (ready ≡ ready) × (request ≡ request)
tool_request_from_action_example =
    tool_request_from_action_lem sample_host sample_canonical context "call" "read" empty_json call
      request none call_built request_compiled
