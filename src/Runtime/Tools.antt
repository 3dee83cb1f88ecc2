-- ===== src/Runtime/Tools.antt =====
-- src/agent_runtime_lab/authorized_tool_runtime.py: a tool request on its way from authorization, or
-- through a gate, to the durable executor.
use agent_runtime_lab.Prelude.{ℕ, String, Bool, true, false, Option, none, some}
use agent_runtime_lab.Result
use agent_runtime_lab.Result.{
  Result, ok, err, invalid_transition, gate_reference_mismatch, check, guard,
}
use agent_runtime_lab.Json.{str, field, no_fields}
use agent_runtime_lab.Domain.Event.{
  tool_requested, tool_authorized, tool_escalated, tool_denied, tool_started,
}
use agent_runtime_lab.Domain.State.{RunState, RunStatus, tool_ready, tool_running}
use agent_runtime_lab.Effects.{ToolIntent, ToolReceipt, build_intent, receipt_output}
use agent_runtime_lab.Effects.Executor.{execute}
use agent_runtime_lab.Ownership.Authorization.{
  ToolRequest, AuthorizationDecision, AuthorizationOutcome, allow, deny, escalate, authorize,
  arguments_of,
}
use agent_runtime_lab.Ownership.Gates.{build_proposal, GateEvaluation}
use agent_runtime_lab.Ownership.Gates.Answers.{join}
use agent_runtime_lab.Persistence.EventStore.{load}
use agent_runtime_lab.Runtime.{
  Runtime, RuntimeToolOutcome, RuntimeToolResult, executed, denied, awaiting_gate,
}
use agent_runtime_lab.Runtime.Events.{
  Run, ◌>>=◌, ◌>>◌, return, lift, query, on_effects, load_state, append,
}
use agent_runtime_lab.Runtime.Payloads.{
  request_payload, authorization_payload, with_max_attempts, escalation_payload, fields_of,
  settled_type, settled_payload,
}
use agent_runtime_lab.Runtime.Lookups.{active_request}

abbrev pub result_of : RuntimeToolOutcome → RunState → RuntimeToolResult
result_of outcome state = record {
  outcome = outcome;
  state = state;
  authorization = none;
  gate_proposal = none;
  gate_evaluation = none;
  gate_attempt = none;
  receipt = none;
}

abbrev pub is_recoverable : RunStatus → Bool
is_recoverable tool_ready = true
is_recoverable tool_running = true
is_recoverable _ = false

abbrev pub is_tool_ready : RunStatus → Bool
is_tool_ready tool_ready = true
is_tool_ready _ = false

abbrev pub active_call : Option String → Result String
active_call none = err invalid_transition
active_call (some tool_call_id) = ok tool_call_id

module _ (r : Runtime) where
  abbrev pub decide : ToolRequest → AuthorizationDecision
  decide request = authorize r.host r.fnmatchcase request r.authorization_context

  -- `ToolIntent.build(...)` of the request
  abbrev pub intent_of : ToolRequest → Result ToolIntent
  intent_of request =
      build_intent r.host request.run_id request.tool_call_id request.tool_name
        (fields_of (arguments_of (r.host.loads request.arguments_json)))

  -- `self._executor.execute(intent=intent)`
  abbrev pub execute_intent : ToolIntent → Run ToolReceipt
  execute_intent intent =
      on_effects
        (execute r.host r.executor.registry r.executor.runner r.executor.failure_injector intent)

  unfoldable pub run_effect : ToolRequest → Run ToolReceipt
  run_effect request = do intent ← lift (intent_of request); execute_intent intent

  -- `if append_started: self._append(...)`
  unfoldable pub start_tool : ToolRequest → Bool → Run (Unit {0})
  start_tool request false = return tt
  start_tool request true = do
    append r request.run_id tool_started (field "tool_call_id" (str request.tool_call_id) no_fields)
    return tt

  -- `_execute(request, authorization=..., gate_evaluation=..., gate_attempt=..., append_started=...)`
  unfoldable pub execute_tool :
      ToolRequest
      → Option AuthorizationDecision
      → Option GateEvaluation
      → Option ℕ
      → Bool
      → Run RuntimeToolResult
  execute_tool request authorization gate_evaluation gate_attempt append_started = do
    start_tool request append_started
    receipt ← run_effect request
    state ←
        append r request.run_id (settled_type receipt.outcome) (
          settled_payload request receipt.effect_id (receipt_output r.host receipt) receipt.outcome)
    return (record (result_of executed state) {
      authorization = authorization;
      gate_evaluation = gate_evaluation;
      gate_attempt = gate_attempt;
      receipt = some receipt;
    })

  -- The branches of `submit`, on the outcome of the decision.
  unfoldable pub submit_decided :
      ToolRequest → AuthorizationDecision → AuthorizationOutcome → Run RuntimeToolResult
  submit_decided request decision deny = do
    state ← append r request.run_id tool_denied (
        field "reason" (str (join "; " decision.reasons))
          (field "tool_call_id" (str request.tool_call_id) no_fields))
    return (record (result_of denied state) { authorization = some decision })
  submit_decided request decision escalate = do
    proposal ← lift (build_proposal r.host request decision 1)
    state ← append r request.run_id tool_escalated (
        with_max_attempts proposal.ownership_mode r.user_gate_max_attempts
          (escalation_payload proposal request))
    return (record (result_of awaiting_gate state) {
      authorization = some decision;
      gate_proposal = some proposal;
    })
  submit_decided request decision allow = do
    append r request.run_id tool_authorized (authorization_payload request decision)
    execute_tool request (some decision) none none true

  -- `submit(request)`
  unfoldable pub submit : ToolRequest → Run RuntimeToolResult
  submit request = do
    append r request.run_id tool_requested (request_payload request request.model_action_event_id)
    submit_decided request (decide request) (decide request).outcome

  unfoldable pub recover_call : String → RunState → Run RuntimeToolResult
  recover_call run_id state = do
    tool_call_id ← lift (active_call state.active_tool_call_id)
    request ← query (λ store.
        Result.◌>>=◌ (load r.host store run_id)
          (λ events. active_request r.host run_id tool_call_id events))
    execute_tool request none none none (is_tool_ready state.status)

  -- `recover(run_id)`
  unfoldable pub recover : String → Run RuntimeToolResult
  recover run_id = do
    state ← load_state r run_id
    lift (guard (is_recoverable state.status) invalid_transition)
    recover_call run_id state
