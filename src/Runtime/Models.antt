-- ===== src/Runtime/Models.antt =====
-- src/agent_runtime_lab/authorized_tool_runtime.py: the model's turns, and the evidence that the
-- runtime records for a tool step or a final answer.
use agent_runtime_lab.Prelude.{
  String, Bool, true, false, not, ◌&&◌, ◌||◌, List, holds, string_dec, is_empty, if◌then◌else◌,
}
use agent_runtime_lab.Prelude.Int.{pos}
use agent_runtime_lab.Result
use agent_runtime_lab.Result.{
  Result, ok, err, invalid_transition, step_budget_exhausted, model_action_validation, value_error,
  missing_verification_evidence, check, guard,
}
use agent_runtime_lab.Json.{int, str, Fields, field, no_fields, get}
use agent_runtime_lab.Domain.Event.{
  ExecutionEvent, run_step_budget_exhausted, model_action_requested, model_action_proposed,
  model_action_failed, verification_succeeded, verification_failed,
}
use agent_runtime_lab.Domain.State.{RunState, ready, action_pending, verifying}
use agent_runtime_lab.Domain.Reducer.{next_step_id}
use agent_runtime_lab.Effects.{ToolReceipt}
use agent_runtime_lab.Effects.Executor
use agent_runtime_lab.Effects.Store
use agent_runtime_lab.Verification.{VerificationResult}
use agent_runtime_lab.Completion.{CompletionResult, is_accepted}
use agent_runtime_lab.ModelAdapter.{
  ModelInput, ModelInput-discrete, ModelAction, ModelAction-discrete, ToolCallAction,
  FinalAnswerAction, tool_call, final_answer, model_input, build_input, tool_call_action,
  final_answer_action,
}
use agent_runtime_lab.Persistence.EventStore.{load}
use agent_runtime_lab.Runtime.{Runtime}
use agent_runtime_lab.Runtime.Events.{
  Run, ◌>>=◌, ◌>>◌, return, lift, query, on_effects, load_state, append,
}
use agent_runtime_lab.Runtime.Lookups.{last_event, payload_text, step_observation}
use agent_runtime_lab.Runtime.Evidence.{
  has_status, is_budget_spent, limit_json, is_next_turn, invocation_id_of, is_active_invocation,
  action_payload, invokes, has_event_id, needed, turn_value, evidence_payload, is_failure,
  is_tool_succeeded, effect_of, successful, requests_step, found, completion_fields,
  completion_payload, completion_type,
}

-- One persisted action of the model.
pub record DurableModelAction : Type 0 where
  pub event_id : String
  pub invocation_id : String
  pub context : ModelInput
  pub action : ModelAction

-- A model's tool turn, reconstructed from what is stored.
pub record ModelToolRecovery : Type 0 where
  pub context : ModelInput
  pub action : ToolCallAction
  pub receipt : ToolReceipt

module _ (r : Runtime) where
  abbrev pub events_of : String → Run (List ExecutionEvent)
  events_of run_id = query (λ store. load r.host store run_id)

  unfoldable pub model_input_of : String → RunState → Bool → Run ModelInput
  model_input_of run_id state true = do
    append r run_id run_step_budget_exhausted (
        field "completed_steps" (int (pos state.turn_index)) (limit_json state.max_steps no_fields))
    lift (err step_budget_exhausted)
  model_input_of run_id state false = do
    events ← events_of run_id
    lift (
        build_input r.host run_id (next_step_id state) (pos state.turn_index) state.status
          (step_observation events))

  -- `build_model_input(run_id)`
  unfoldable pub build_model_input : String → Run ModelInput
  build_model_input run_id = do
    state ← load_state r run_id
    lift (guard (has_status state ready) invalid_transition)
    model_input_of run_id state (is_budget_spent state state.max_steps)

  -- `begin_model_action(context)`
  unfoldable pub begin_model_action : ModelInput → Run String
  begin_model_action context = do
    state ← load_state r context.run_id
    lift (guard (has_status state ready && is_next_turn state context) invalid_transition)
    append r context.run_id model_action_requested (
        field "invocation_id" (str (invocation_id_of context)) (
          field "observation_json" (str context.observation_json) (
            field "step_id" (str context.step_id)
              (field "turn_index" (int (pos context.turn_index)) no_fields))))
    return (invocation_id_of context)

  unfoldable pub read_action : Fields → String → Result ModelAction
  read_action payload action_type =
      if holds (string_dec action_type "tool_call")
      then read_call
      else if holds (string_dec action_type "final_answer")
      then read_answer
      else err invalid_transition
    where
      read_call : Result ModelAction
      read_call = Result.◌>>=◌ (payload_text payload "tool_call_id") (λ tool_call_id.
          Result.◌>>=◌ (payload_text payload "tool_name") (λ tool_name.
            Result.◌>>=◌ (payload_text payload "arguments_json") (λ arguments_json.
              Result.◌>>=◌ (tool_call_action r.host tool_call_id tool_name arguments_json)
                (λ action. ok (tool_call action)))))

      read_answer : Result ModelAction
      read_answer =
          Result.◌>>=◌ (payload_text payload "answer") (λ answer.
            Result.◌>>=◌ (final_answer_action answer) (λ action. ok (final_answer action)))

  -- `load_pending_model_action(run_id)`
  unfoldable pub load_pending_model_action : String → Run DurableModelAction
  load_pending_model_action run_id = do
    state ← load_state r run_id
    lift (guard (has_status state action_pending) invalid_transition)
    event_id ← lift (needed state.active_model_action_event_id)
    invocation_id ← lift (needed state.active_model_invocation_id)
    lift (needed state.active_step_id)
    events ← events_of run_id
    requested ← lift (needed (last_event (invokes invocation_id) events))
    proposed ← lift (needed (last_event (has_event_id event_id) events))
    step_id ← lift (payload_text requested.payload "step_id")
    observation_json ← lift (payload_text requested.payload "observation_json")
    turn_index ← lift (turn_value (get "turn_index" requested.payload))
    context ← lift (model_input r.host run_id step_id turn_index ready observation_json)
    action_type ← lift (payload_text proposed.payload "action_type")
    action ← lift (read_action proposed.payload action_type)
    return (record {
      event_id = proposed.event_id;
      invocation_id = invocation_id;
      context = context;
      action = action;
    })

  -- `persist_model_action(context, invocation_id, action)`
  unfoldable pub persist_model_action : ModelInput → String → ModelAction → Run DurableModelAction
  persist_model_action context invocation_id action = do
    state ← load_state r context.run_id
    lift (guard (is_active_invocation state context invocation_id) invalid_transition)
    next ←
        append r context.run_id model_action_proposed (action_payload context invocation_id action)
    lift (needed next.active_model_action_event_id)
    load_pending_model_action context.run_id

  -- `record_model_action_failure(run_id, reason)`
  unfoldable pub record_model_action_failure : String → String → Run RunState
  record_model_action_failure run_id reason = do
    lift (guard (not (is_empty reason)) value_error)
    append r run_id model_action_failed (field "reason" (str reason) no_fields)

  -- `record_verification(run_id, result)`
  unfoldable pub record_verification : String → VerificationResult → Run RunState
  record_verification run_id result =
      if is_failure result.outcome
      then append r run_id verification_failed
          (field "reason" (str result.summary) (evidence_payload result no_fields))
      else append r run_id verification_succeeded (evidence_payload result no_fields)

  unfoldable pub record_step : String → VerificationResult → String → Run RunState
  record_step run_id result step_id =
      if is_failure result.outcome
      then record_verification run_id result
      else append r run_id verification_succeeded (
          evidence_payload result
            (field "scope" (str "step") (field "step_id" (str step_id) no_fields)))

  -- `record_step_verification(run_id, result)`
  unfoldable pub record_step_verification : String → VerificationResult → Run RunState
  record_step_verification run_id result = do
    state ← load_state r run_id
    lift (guard (has_status state verifying) invalid_transition)
    step_id ← lift (needed state.active_step_id)
    record_step run_id result step_id

  unfoldable pub match_pending : ModelInput → FinalAnswerAction → Bool → Run (Unit {0})
  match_pending context action false = return tt
  match_pending context action true = do
    pending ← load_pending_model_action context.run_id
    lift (check (ModelInput-discrete pending.context context) invalid_transition)
    lift (check (ModelAction-discrete pending.action (final_answer action)) invalid_transition)

  -- `record_completion(context, action, result)`
  unfoldable pub record_completion :
      ModelInput → FinalAnswerAction → CompletionResult → Run RunState
  record_completion context action result = do
    state ← load_state r context.run_id
    lift (guard (has_status state ready || has_status state action_pending) invalid_transition)
    lift (guard (is_next_turn state context) invalid_transition)
    lift (check (string_dec result.answer_sha256 (r.host.sha256 action.answer)) invalid_transition)
    match_pending context action (has_status state action_pending)
    append r context.run_id (completion_type (is_accepted result.outcome)) (
        completion_payload state.active_model_action_event_id
          (completion_fields action (r.host.sha256 action.answer) result context))

  -- `load_verification_receipt(run_id)`
  unfoldable pub load_verification_receipt : String → Run ToolReceipt
  load_verification_receipt run_id = do
    state ← load_state r run_id
    lift (guard (has_status state verifying) invalid_transition)
    events ← events_of run_id
    effect_id ← lift (effect_of (last_event (λ e. is_tool_succeeded e.event_type) events))
    receipt ← on_effects (Executor.query (λ store. Store.load_receipt r.host store effect_id))
    lift (successful receipt)

  -- `load_model_tool_recovery(run_id)`
  unfoldable pub load_model_tool_recovery : String → Run ModelToolRecovery
  load_model_tool_recovery run_id = do
    state ← load_state r run_id
    lift (guard (has_status state verifying) invalid_transition)
    step_id ← lift (needed state.active_step_id)
    events ← events_of run_id
    e ← lift (found (last_event (requests_step step_id) events))
    context ←
        lift
          (build_input r.host run_id step_id (pos state.turn_index) ready (step_observation events))
    tool_call_id ← lift (payload_text e.payload "tool_call_id")
    tool_name ← lift (payload_text e.payload "tool_name")
    arguments_json ← lift (payload_text e.payload "arguments_json")
    action ← lift (tool_call_action r.host tool_call_id tool_name arguments_json)
    receipt ← load_verification_receipt run_id
    return (record { context = context; action = action; receipt = receipt })
