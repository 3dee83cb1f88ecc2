-- ===== src/ModelAdapter/Compiled.antt =====
-- The tool request that an action is compiled to (src/agent_runtime_lab/model_adapter.py).
use agent_runtime_lab.Prelude.{String, ◌≡◌, sym, ap, ◌∙◌, Option, some, inl, inr, arith}
use agent_runtime_lab.Result.{ok, Result-cases}
use agent_runtime_lab.Json.{dict, Fields, Host, IsCanonical}
use agent_runtime_lab.Domain.State.{ready}
use agent_runtime_lab.Ownership.Authorization.{ToolRequest, tool_request}
use agent_runtime_lab.ModelAdapter.{
  ModelInput, tool_call, ToolCallAction, action_object, tool_call_action, validate_object_json,
  tool_request_from_action,
}

module _ (h : Host) (c : IsCanonical h) where
  -- A constructed action keeps its arguments when they are validated once more.
  validated_again :
      (text canonical : String)
      → validate_object_json h text ≡ ok canonical
      → (d : Fields) × (h.loads canonical ≡ some (dict d)) × (h.dumps (dict d) ≡ canonical)
  unfolding validate_object_json
  validated_again text canonical e = elim (Result-cases (action_object (h.loads text))) [
    | inl (d, read) ↦
        let written : canonical ≡ h.dumps (dict d) = ground arith in
        (c.reread d, ap h.loads written ∙ c.loads-dumps d, c.dumps-reread d ∙ sym written)
    | inr (x, refused) ↦ absurd (ground arith)
  ]

  -- If a constructed tool call is compiled to a request, the status of the input is ready and the
  -- request has the run and the step of the input and the call, tool and arguments of the action,
  -- where json reads back what it wrote.
  pub tool_request_from_action_lem :
      (context : ModelInput) (tool_call_id tool_name text : String) (call : ToolCallAction)
      (request : ToolRequest) (event_id : Option String)
      → tool_call_action h tool_call_id tool_name text ≡ ok call
      → tool_request_from_action h context (tool_call call) event_id ≡ ok request
      → (context.state_status ≡ ready)
        × (request ≡ record {
          run_id = context.run_id;
          step_id = context.step_id;
          tool_call_id = tool_call_id;
          tool_name = tool_name;
          arguments_json = call.arguments_json;
          model_action_event_id = event_id;
        })
  unfolding tool_request_from_action tool_request tool_call_action
  tool_request_from_action_lem context tool_call_id tool_name text call request event_id a e =
      elim (Result-cases (validate_object_json h text)) [
        | inl (canonical, valid) ↦
            let (d, loads, dumps) = validated_again text canonical valid in
            ground (arith, loads, dumps)
        | inr (x, refused) ↦ absurd (ground arith)
      ]
