-- ===== src/FakeAgent.antt =====
-- src/agent_runtime_lab/fake_agent.py: an agent that submits one request, and single turns of an agent
-- that is driven by a model.
pub mod Loop
pub mod Turns
pub mod Recorded
pub mod Termination
pub mod Bounded
mod Tests
use agent_runtime_lab.Prelude.{String, Bool, true, false, ◌&&◌, Option, none, if◌then◌else◌}
use agent_runtime_lab.Result
use agent_runtime_lab.Result.{Result, ok, err, guard, invalid_transition}
use agent_runtime_lab.Domain.State.{RunState, verifying}
use agent_runtime_lab.Effects.{ToolReceipt}
use agent_runtime_lab.Effects.Executor.{stopped, done}
use agent_runtime_lab.Ownership.Authorization.{ToolRequest}
use agent_runtime_lab.Verification.{VerificationExpectation, VerificationResult, verify}
use agent_runtime_lab.Completion.{CompletionExpectation, CompletionResult, verify_completion}
use agent_runtime_lab.ModelAdapter.{
  ModelAdapter, ModelInput, ModelAction, ToolCallAction, FinalAnswerAction, tool_call, final_answer,
  observation_of, request_model_action, tool_request_from_action,
}
use agent_runtime_lab.Runtime.{Runtime, RuntimeToolOutcome, RuntimeToolResult, executed}
use agent_runtime_lab.Runtime.Events.{Run, ◌>>=◌, ◌>>◌, return, lift}
use agent_runtime_lab.Runtime.Evidence.{has_status, needed}
use agent_runtime_lab.Runtime.Tools.{submit}
use agent_runtime_lab.Runtime.Models.{
  build_model_input, record_verification, record_step_verification, record_completion,
  load_verification_receipt,
}

pub record FakeAgentRunResult : Type 0 where
  pub tool_result : RuntimeToolResult
  pub verification : VerificationResult
  pub state : RunState

pub record FakeAgentVerificationRecoveryResult : Type 0 where
  pub receipt : ToolReceipt
  pub verification : VerificationResult
  pub state : RunState

pub record ModelDrivenToolTurnResult : Type 0 where
  pub context : ModelInput
  pub action : ToolCallAction
  pub tool_result : RuntimeToolResult
  pub verification : VerificationResult
  pub state : RunState

pub record ModelDrivenCompletionResult : Type 0 where
  pub context : ModelInput
  pub action : FinalAnswerAction
  pub completion : CompletionResult
  pub state : RunState

-- `FakeAgent(runtime=..., verifier=..., request=..., failure_injector=...)`; `stops_after_tool` says
-- whether the injector stops the process at its only checkpoint.
pub record FakeAgent : Type 0 where
  pub runtime : Runtime
  pub request : ToolRequest
  pub stops_after_tool : Bool

abbrev pub is_executed : RuntimeToolOutcome → Bool
is_executed executed = true
is_executed _ = false

-- The receipt of a call that was executed and left the run at its verification.
abbrev pub executed_receipt : RuntimeToolResult → Result ToolReceipt
executed_receipt result =
    Result.◌>>◌
      (guard (is_executed result.outcome && has_status result.state verifying) invalid_transition)
      (needed result.receipt)

abbrev pub stop_if : Bool → Run (Unit {0})
stop_if stops w = if stops then (stopped, w) else (done tt, w)

module _ (agent : FakeAgent) where
  -- `FakeAgent.run(expectation)`
  unfoldable pub run : VerificationExpectation → Run FakeAgentRunResult
  run expectation = do
    tool_result ← submit agent.runtime agent.request
    receipt ← lift (executed_receipt tool_result)
    stop_if agent.stops_after_tool
    state ←
        record_verification agent.runtime agent.request.run_id
          (verify agent.runtime.host receipt expectation)
    return (record {
      tool_result = tool_result;
      verification = verify agent.runtime.host receipt expectation;
      state = state;
    })

  -- `FakeAgent.recover_verification(expectation)`
  unfoldable pub recover_verification :
      VerificationExpectation → Run FakeAgentVerificationRecoveryResult
  recover_verification expectation = do
    receipt ← load_verification_receipt agent.runtime agent.request.run_id
    state ←
        record_verification agent.runtime agent.request.run_id
          (verify agent.runtime.host receipt expectation)
    return (record {
      receipt = receipt;
      verification = verify agent.runtime.host receipt expectation;
      state = state;
    })

abbrev pub proposed_call : ModelAction → Result ToolCallAction
proposed_call (tool_call action) = ok action
proposed_call (final_answer _) = err invalid_transition

abbrev pub proposed_answer : ModelAction → Result FinalAnswerAction
proposed_answer (tool_call _) = err invalid_transition
proposed_answer (final_answer action) = ok action

-- `CompletionVerifier().verify(action, context, expectation)`
abbrev pub check_answer :
    Runtime → FinalAnswerAction → ModelInput → CompletionExpectation → Result CompletionResult
check_answer r action context expectation =
    verify_completion r.host action.answer (observation_of r.host context) expectation

module _ (r : Runtime) (adapter : ModelAdapter) (run_id : String) where
  -- `ModelDrivenFakeAgent.run_tool_turn(expectation)`
  unfoldable pub run_tool_turn : VerificationExpectation → Run ModelDrivenToolTurnResult
  run_tool_turn expectation = do
    context ← build_model_input r run_id
    proposed ← lift (request_model_action adapter context)
    action ← lift (proposed_call proposed)
    request ← lift (tool_request_from_action r.host context proposed none)
    tool_result ← submit r request
    receipt ← lift (executed_receipt tool_result)
    state ← record_step_verification r run_id (verify r.host receipt expectation)
    return (record {
      context = context;
      action = action;
      tool_result = tool_result;
      verification = verify r.host receipt expectation;
      state = state;
    })

  -- `ModelDrivenFakeAgent.run_completion_turn(expectation)`
  unfoldable pub run_completion_turn : CompletionExpectation → Run ModelDrivenCompletionResult
  run_completion_turn expectation = do
    context ← build_model_input r run_id
    proposed ← lift (request_model_action adapter context)
    action ← lift (proposed_answer proposed)
    completion ← lift (check_answer r action context expectation)
    state ← record_completion r context action completion
    return (record { context = context; action = action; completion = completion; state = state })
