-- ===== src/OpenAiCompatible/Tests.antt =====
-- Responses of a provider, parsed, and an adapter that is asked for an action.
use agent_runtime_lab.Prelude.{String, ◌≡◌, refl, none, some, [], string_dec}
use agent_runtime_lab.Prelude.Int.{pos}
use agent_runtime_lab.Result.{ok, err, model_action_validation}
use agent_runtime_lab.Json.{
  Json, null, float, str, list, dict, no_items, item, Fields, no_fields, field, get,
}
use agent_runtime_lab.Json.Sample.{sample_host, sample_dumps, sample_loads}
use agent_runtime_lab.Domain.State.{ready}
use agent_runtime_lab.ModelAdapter.{
  ModelInput, ModelAction, tool_call, tool_call_action, validate_object_json,
}
use agent_runtime_lab.OpenAiCompatible.{
  OpenAiCompatibleModelAdapter, parse_chat_completion, parse_tool_call, load_api_key,
  provider_payload, provider_request, next_action, rstrip_slash,
}
use agent_runtime_lab.OpenAiCompatible.Parsed.{Proposes, next_action-Proposes}

abbrev response : String → Fields → Fields
response reason message =
    field "choices"
      (list (
        item (dict (field "finish_reason" (str reason) (field "message" (dict message) no_fields)))
          no_items))
      no_fields

abbrev call : Json
call = dict (
    field "id" (str "c") (
      field "type" (str "function") (
        field "function"
          (dict (
            field "name" (str "read_file")
              (field "arguments" (str (sample_dumps (dict no_fields))) no_fields)))
          no_fields)))

abbrev calling : Fields
calling = field "content" null (field "tool_calls" (list (item call no_items)) no_fields)

abbrev read_call : ModelAction
read_call = tool_call (record {
  tool_call_id = "c";
  tool_name = "read_file";
  arguments_json = sample_dumps (dict no_fields);
})

calls_parsed : parse_chat_completion sample_host (response "tool_calls" calling) ≡ ok read_call
unfolding parse_chat_completion parse_tool_call tool_call_action validate_object_json get string_dec
    sample_dumps sample_loads
calls_parsed = refl

ambiguous_refused :
    parse_chat_completion sample_host (response "tool_calls" (field "content" (str "also") calling))
    ≡ err model_action_validation
unfolding parse_chat_completion parse_tool_call get string_dec
ambiguous_refused = refl

url_stripped : rstrip_slash "https://host/v1//" ≡ "https://host/v1"
unfolding rstrip_slash
url_stripped = refl

abbrev adapter : OpenAiCompatibleModelAdapter
adapter = record {
  model = "m";
  task = "t";
  tools = [];
  base_url = "https://host";
  api_key_env = "KEY";
  timeout_seconds = float (pos 30) 0;
  max_tokens = pos 512;
  temperature = float (pos 0) 0;
  transport = λ request. ok (response "tool_calls" calling);
  api_key_provider = none;
  environ = λ name. some "secret";
}

abbrev context : ModelInput
context = record {
  run_id = "r";
  step_id = "step-1";
  turn_index = 0;
  state_status = ready;
  observation_json = sample_dumps (dict no_fields);
}

acted : next_action sample_host adapter context ≡ ok read_call
unfolding next_action load_api_key provider_payload parse_chat_completion parse_tool_call
    tool_call_action validate_object_json get string_dec sample_dumps sample_loads
acted = refl

next_action-Proposes_example :
    (key : String) × (payload : Fields) × (sent : Fields) × (load_api_key sample_host adapter
      ≡ ok key)
    × (provider_payload sample_host adapter context ≡ ok payload)
    × (adapter.transport (provider_request sample_host adapter key payload) ≡ ok sent)
    × Proposes sample_host sent read_call
next_action-Proposes_example = next_action-Proposes sample_host adapter context read_call acted
