-- ===== src/Runtime/Calls.antt =====
-- What a client may do with the runtime and its agents (authorized_tool_runtime.py, fake_agent.py).
use agent_runtime_lab.Prelude.{String, ◌≡◌, false, List, [], ◌∷◌, is_empty}
use agent_runtime_lab.Json.{Host}
use agent_runtime_lab.Domain.Event.{ExecutionEvent, IsEvent}
use agent_runtime_lab.Effects.Executor.AtMostOnce.{fresh_world}
use agent_runtime_lab.Ownership.Authorization.{ToolRequest}
use agent_runtime_lab.Ownership.Gates.{GateReference, GateResolution, GateAnswerSubmission}
use agent_runtime_lab.Persistence.EventStore
use agent_runtime_lab.Persistence.EventStore.{empty_store}
use agent_runtime_lab.Runtime.{Runtime}
use agent_runtime_lab.Runtime.Events.{RuntimeWorld, Run, write, create_snapshot}
use agent_runtime_lab.Runtime.Tools.{submit, recover}
use agent_runtime_lab.Runtime.GateCalls.{resolve_gate, submit_gate_answer, revise_gate}
use agent_runtime_lab.Prelude.{ℕ, Bool}
use agent_runtime_lab.Verification.{VerificationExpectation, VerificationResult}
use agent_runtime_lab.Completion.{CompletionExpectation, CompletionResult}
use agent_runtime_lab.ModelAdapter.{ModelAdapter, ModelInput, ModelAction, FinalAnswerAction}
use agent_runtime_lab.Runtime.Models.{
  begin_model_action, persist_model_action, record_model_action_failure, record_verification,
  record_step_verification, record_completion,
}
use agent_runtime_lab.FakeAgent.{
  FakeAgent, run, recover_verification, run_tool_turn, run_completion_turn,
}
use agent_runtime_lab.FakeAgent.Loop.{
  ModelDrivenFakeAgent, ModelLoopCheckpoint, ToolExpectationResolver, run_loop, resume_loop,
}

-- A loop of the model-driven agent, which is stopped where its fuel ends.
pub record LoopCall : Type 0 where
  pub adapter : ModelAdapter
  pub run_id : String
  pub stops_at : ModelLoopCheckpoint → Bool
  pub tool_expectations : ToolExpectationResolver
  pub completion_expectation : CompletionExpectation
  pub fuel : ℕ

abbrev pub agent_of : Runtime → LoopCall → ModelDrivenFakeAgent
agent_of services l = record {
  runtime = services;
  adapter = l.adapter;
  run_id = l.run_id;
  stops_at = l.stops_at;
}

abbrev pub single_agent : Runtime → ToolRequest → Bool → FakeAgent
single_agent services request stops = record {
  runtime = services;
  request = request;
  stops_after_tool = stops;
}

-- A call of the runtime or of an agent, or an event that the client appends to the store by itself.
pub data RuntimeCall : Type 0 where
  submit_request : ToolRequest → RuntimeCall
  resolve : GateResolution → RuntimeCall
  answer : GateAnswerSubmission → RuntimeCall
  revise : GateReference → RuntimeCall
  recover_run : String → RuntimeCall
  take_snapshot : String → RuntimeCall
  append_event : ExecutionEvent → RuntimeCall
  begin_action : ModelInput → RuntimeCall
  persist_action : ModelInput → String → ModelAction → RuntimeCall
  fail_action : String → String → RuntimeCall
  verify_run : String → VerificationResult → RuntimeCall
  verify_step : String → VerificationResult → RuntimeCall
  complete_step : ModelInput → FinalAnswerAction → CompletionResult → RuntimeCall
  run_agent : ToolRequest → Bool → VerificationExpectation → RuntimeCall
  recover_agent : ToolRequest → Bool → VerificationExpectation → RuntimeCall
  take_tool_turn : ModelAdapter → String → VerificationExpectation → RuntimeCall
  take_completion_turn : ModelAdapter → String → CompletionExpectation → RuntimeCall
  start_loop : LoopCall → RuntimeCall
  restart_loop : LoopCall → RuntimeCall

abbrev pub world_after : {A : Type 0} → Run A → RuntimeWorld → RuntimeWorld
world_after m w = (m w).1

-- One call: the services of the process that makes it, which may be other ones after a restart.
pub record Session : Type 0 where
  pub services : Runtime
  pub call : RuntimeCall

module _ (h : Host) where
  abbrev pub on : Runtime → Runtime
  on services = record services { host = h }

  unfoldable pub perform : Runtime → RuntimeCall → RuntimeWorld → RuntimeWorld
  perform services (submit_request request) = world_after (submit (on services) request)
  perform services (resolve resolution) = world_after (resolve_gate (on services) resolution)
  perform services (answer submission) = world_after (submit_gate_answer (on services) submission)
  perform services (revise reference) = world_after (revise_gate (on services) reference)
  perform services (recover_run run_id) = world_after (recover (on services) run_id)
  perform services (take_snapshot run_id) = world_after (create_snapshot (on services) run_id)
  perform services (append_event e) = world_after (write (λ store. EventStore.append h store e))
  perform services (begin_action context) = world_after (begin_model_action (on services) context)
  perform services (persist_action context invocation_id action) =
      world_after (persist_model_action (on services) context invocation_id action)
  perform services (fail_action run_id reason) =
      world_after (record_model_action_failure (on services) run_id reason)
  perform services (verify_run run_id result) =
      world_after (record_verification (on services) run_id result)
  perform services (verify_step run_id result) =
      world_after (record_step_verification (on services) run_id result)
  perform services (complete_step context action result) =
      world_after (record_completion (on services) context action result)
  perform services (run_agent request stops expectation) =
      world_after (run (single_agent (on services) request stops) expectation)
  perform services (recover_agent request stops expectation) =
      world_after (recover_verification (single_agent (on services) request stops) expectation)
  perform services (take_tool_turn adapter run_id expectation) =
      world_after (run_tool_turn (on services) adapter run_id expectation)
  perform services (take_completion_turn adapter run_id expectation) =
      world_after (run_completion_turn (on services) adapter run_id expectation)
  perform services (start_loop l) =
      world_after
        (run_loop (agent_of (on services) l) l.tool_expectations l.completion_expectation l.fuel)
  perform services (restart_loop l) =
      world_after
        (resume_loop (agent_of (on services) l) l.tool_expectations l.completion_expectation l.fuel)

  unfoldable pub perform_sessions : RuntimeWorld → List Session → RuntimeWorld
  perform_sessions w [] = w
  perform_sessions w (s ∷ sessions) = perform_sessions (perform s.services s.call w) sessions

  -- Requests name their call, and events are constructed ones.
  abbrev pub IsCall : RuntimeCall → Type 0
  IsCall (submit_request request) = is_empty request.tool_call_id ≡ false
  IsCall (run_agent request stops expectation) = is_empty request.tool_call_id ≡ false
  IsCall (append_event e) = IsEvent h e
  IsCall _ = Unit

abbrev pub empty_world : RuntimeWorld
empty_world = record { events = empty_store; effects = fresh_world; readings = 0 }
