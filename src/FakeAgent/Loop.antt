-- ===== src/FakeAgent/Loop.antt =====
-- src/agent_runtime_lab/fake_agent.py: the bounded loop of the model-driven agent. One pass of `while
-- True` is `take_turn`; the loop itself runs on fuel, and `none` is its end without fuel.
use agent_runtime_lab.Prelude.{
  ℕ, zero, suc, String, Bool, true, false, ◌||◌, Option, none, some, List, [], ◌∷◌, ◌++◌,
  if◌then◌else◌,
}
use agent_runtime_lab.Result.{
  Result, ok, err, Error, guard, invalid_transition, type_error, step_budget_exhausted,
}
use agent_runtime_lab.Domain.State
use agent_runtime_lab.Domain.State.{RunState, ready, model_pending, action_pending, verifying}
use agent_runtime_lab.Effects.{ToolReceipt}
use agent_runtime_lab.Effects.Executor.{Outcome, done, raised, stopped}
use agent_runtime_lab.Verification.{VerificationExpectation, VerificationResult, verify}
use agent_runtime_lab.Completion.{CompletionExpectation, CompletionResult}
use agent_runtime_lab.ModelAdapter.{
  ModelAdapter, ModelInput, ModelAction, ToolCallAction, tool_call, final_answer,
  request_model_action, tool_request_from_action,
}
use agent_runtime_lab.Runtime.{
  Runtime, RuntimeToolOutcome, RuntimeToolResult, executed, awaiting_gate,
}
use agent_runtime_lab.Runtime.Events.{RuntimeWorld, Run, ◌>>=◌, ◌>>◌, return, lift, load_state}
use agent_runtime_lab.Runtime.Evidence.{has_status, needed}
use agent_runtime_lab.Runtime.Tools.{submit}
use agent_runtime_lab.Runtime.Models.{
  DurableModelAction, build_model_input, begin_model_action, load_pending_model_action,
  persist_model_action, record_model_action_failure, record_step_verification, record_completion,
  load_model_tool_recovery,
}
use agent_runtime_lab.FakeAgent.{stop_if, check_answer}

pub data ModelLoopOutcome : Type 0 where
  completed failed paused : ModelLoopOutcome

-- What the loop has gathered: its lists, newest last.
pub record Gathered : Type 0 where
  pub actions : List ModelAction
  pub tool_results : List RuntimeToolResult
  pub verifications : List VerificationResult
  pub completions : List CompletionResult
  pub recovered_receipts : List ToolReceipt

-- `ModelLoopResult`: the outcome, the state, and the five tuples.
pub record ModelLoopResult : Type 0 where
  pub outcome : ModelLoopOutcome
  pub state : RunState
  pub gathered : Gathered

pub data ModelLoopCheckpoint : Type 0 where
  before_recovered_verification after_model_action_returned : ModelLoopCheckpoint
  after_model_action_persisted : ModelLoopCheckpoint

-- `expectation_for(context, action)` is not part of this code: `none` is a value of another type.
abbrev pub ToolExpectationResolver : Type 0
ToolExpectationResolver = ModelInput → ToolCallAction → Result (Option VerificationExpectation)

-- `ModelDrivenFakeAgent(...)`; `stops_at` says where the injector stops the process.
pub record ModelDrivenFakeAgent : Type 0 where
  pub runtime : Runtime
  pub adapter : ModelAdapter
  pub run_id : String
  pub stops_at : ModelLoopCheckpoint → Bool

-- How one pass of the loop ends: with the loop's result, or with another pass.
pub data Pass : Type 0 where
  finished : ModelLoopResult → Pass
  again : Gathered → Pass

abbrev pub after_pass :
    (Gathered → Run (Option ModelLoopResult)) → Pass → Run (Option ModelLoopResult)
after_pass rest (finished result) = return (some result)
after_pass rest (again gathered) = rest gathered

abbrev pub nothing_gathered : Gathered
nothing_gathered = record {
  actions = [];
  tool_results = [];
  verifications = [];
  completions = [];
  recovered_receipts = [];
}

abbrev pub is_exhausted : Error → Bool
is_exhausted step_budget_exhausted = true
is_exhausted _ = false

-- `try: ... except StepBudgetExhaustedError`
abbrev pub caught : {A : Type 0} → Outcome A × RuntimeWorld → Outcome (Option A) × RuntimeWorld
caught (done a, w) = (done (some a), w)
caught (raised e, w) = if is_exhausted e then (done none, w) else (raised e, w)
caught (stopped, w) = (stopped, w)

abbrev pub unless_exhausted : {A : Type 0} → Run A → Run (Option A)
unless_exhausted call w = caught (call w)

abbrev pub unexecuted_outcome : RuntimeToolOutcome → ModelLoopOutcome
unexecuted_outcome awaiting_gate = paused
unexecuted_outcome _ = failed

abbrev pub is_startable : RunState → Bool
is_startable s = has_status s ready || has_status s model_pending || has_status s action_pending

-- `isinstance(expectation, VerificationExpectation)`
abbrev pub expected : Option VerificationExpectation → Result VerificationExpectation
expected none = err type_error
expected (some expectation) = ok expectation

module _ (agent : ModelDrivenFakeAgent) (tool_expectations : ToolExpectationResolver)
    (completion_expectation : CompletionExpectation) where
  abbrev reach : ModelLoopCheckpoint → Run (Unit {0})
  reach checkpoint = stop_if (agent.stops_at checkpoint)

  -- `_loop_result(...)`
  unfoldable pub loop_result : ModelLoopOutcome → Gathered → Run ModelLoopResult
  loop_result outcome gathered = do
    state ← load_state agent.runtime agent.run_id
    return (record { outcome = outcome; state = state; gathered = gathered })

  abbrev pub finish : ModelLoopOutcome → Gathered → Run Pass
  finish outcome gathered = loop_result outcome gathered >>= λ result. return (finished result)

  unfoldable pub fail_action : String → Gathered → Run Pass
  fail_action reason gathered = do
    record_model_action_failure agent.runtime agent.run_id reason
    finish failed gathered

  -- The end of a pass on the state that the evidence was recorded in.
  abbrev pub after_completion : Gathered → RunState → Run Pass
  after_completion gathered state =
      if has_status state State.completed
      then finish completed gathered
      else return (again gathered)

  abbrev pub after_verification : Gathered → RunState → Run Pass
  after_verification gathered state =
      if has_status state State.failed then finish failed gathered else return (again gathered)

  unfoldable pub verify_receipt : Gathered → ModelInput → ToolCallAction → ToolReceipt → Run Pass
  verify_receipt gathered context action receipt = do
    given ← lift (tool_expectations context action)
    expectation ← lift (expected given)
    let verification = verify agent.runtime.host receipt expectation
    state ← record_step_verification agent.runtime agent.run_id verification
    after_verification
        (record gathered { verifications = gathered.verifications ++ verification ∷ [] }) state

  unfoldable pub judge_executed :
      Gathered → ModelInput → ToolCallAction → RunState → Option ToolReceipt → Run Pass
  judge_executed gathered context action state none = finish failed gathered
  judge_executed gathered context action state (some receipt) =
      if has_status state verifying
      then verify_receipt gathered context action receipt
      else finish failed gathered

  -- The tests on what `submit` returned.
  unfoldable pub judge_result :
      Gathered → ModelInput → ToolCallAction → RuntimeToolResult → RuntimeToolOutcome → Run Pass
  judge_result gathered context action result executed =
      judge_executed gathered context action result.state result.receipt
  judge_result gathered context action result outcome = finish (unexecuted_outcome outcome) gathered

  -- What follows the proposal of an action.
  unfoldable pub act : Gathered → ModelInput → ModelAction → String → Run Pass
  act gathered context (final_answer action) event_id = do
    completion ← lift (check_answer agent.runtime action context completion_expectation)
    state ← record_completion agent.runtime context action completion
    after_completion (record gathered { completions = gathered.completions ++ completion ∷ [] })
        state
  act gathered context (tool_call action) event_id = do
    request ←
        lift
          (tool_request_from_action agent.runtime.host context (tool_call action) (some event_id))
    result ← submit agent.runtime request
    judge_result (record gathered { tool_results = gathered.tool_results ++ result ∷ [] }) context
        action result result.outcome

  abbrev pub act_on : Gathered → DurableModelAction → ModelInput → ModelAction → Run Pass
  act_on gathered pending context action =
      act (record gathered { actions = gathered.actions ++ action ∷ [] }) context action
        pending.event_id

  -- The answer of the adapter: an exception of it fails the run.
  unfoldable pub propose : Gathered → ModelInput → String → Result ModelAction → Run Pass
  propose gathered context invocation_id (err e) =
      fail_action "model adapter failed to produce a valid bounded action" gathered
  propose gathered context invocation_id (ok proposed) = do
    reach after_model_action_returned
    pending ← persist_model_action agent.runtime context invocation_id proposed
    reach after_model_action_persisted
    act_on gathered pending context proposed

  unfoldable pub ask_model : Gathered → Option ModelInput → Run Pass
  ask_model gathered none = finish failed gathered
  ask_model gathered (some context) = do
    invocation_id ← begin_model_action agent.runtime context
    propose gathered context invocation_id (request_model_action agent.adapter context)

  abbrev pub fresh_turn : Gathered → Run Pass
  fresh_turn gathered =
      unless_exhausted (build_model_input agent.runtime agent.run_id) >>= ask_model gathered

  abbrev pub resume_action : Gathered → Run Pass
  resume_action gathered = load_pending_model_action agent.runtime agent.run_id >>= λ pending.
      act_on gathered pending pending.context pending.action

  -- One pass of `while True`.
  unfoldable pub take_turn : Gathered → Run Pass
  take_turn gathered = do
    current ← load_state agent.runtime agent.run_id
    if has_status current model_pending
        then fail_action "model adapter outcome is unknown after interruption" gathered
        else if has_status current action_pending
        then resume_action gathered
        else fresh_turn gathered

  -- `_continue_loop(...)`
  unfoldable pub continue_loop : ℕ → Gathered → Run (Option ModelLoopResult)
  continue_loop zero gathered = return none
  continue_loop (suc fuel) gathered = take_turn gathered >>= after_pass (continue_loop fuel)

  -- `run_loop(tool_expectations=..., completion_expectation=...)`
  unfoldable pub run_loop : ℕ → Run (Option ModelLoopResult)
  run_loop fuel = do
    initial ← load_state agent.runtime agent.run_id
    lift (guard (is_startable initial) invalid_transition)
    lift (needed initial.max_steps)
    continue_loop fuel nothing_gathered

  unfoldable pub resume_after : ℕ → Gathered → RunState → Run (Option ModelLoopResult)
  resume_after fuel gathered state =
      if has_status state State.failed
      then loop_result failed gathered >>= (λ result. return (some result))
      else continue_loop fuel gathered

  -- `resume_loop(tool_expectations=..., completion_expectation=...)`
  unfoldable pub resume_loop : ℕ → Run (Option ModelLoopResult)
  resume_loop fuel = do
    recovery ← load_model_tool_recovery agent.runtime agent.run_id
    reach before_recovered_verification
    given ← lift (tool_expectations recovery.context recovery.action)
    expectation ← lift (expected given)
    let verification = verify agent.runtime.host recovery.receipt expectation
    state ← record_step_verification agent.runtime agent.run_id verification
    resume_after fuel
        (record {
          actions = tool_call recovery.action ∷ [];
          tool_results = [];
          verifications = verification ∷ [];
          completions = [];
          recovered_receipts = recovery.receipt ∷ [];
        })
        state
