-- ===== src/FakeAgent/Turns.antt =====
-- One pass of the model-driven agent's loop (fake_agent.py): what holds of the world after it, if it
-- is known what holds after an answer was judged or a step was verified.
use agent_runtime_lab.Prelude.{
  String, Bool, ◌≡◌, true, false, Option, none, some, is_empty, Bool-cases, inl, inr, arith,
}
use agent_runtime_lab.Result.{Result, ok, err}
use agent_runtime_lab.Json.{Host, IsCanonical, ReadsBack, ReadsDates}
use agent_runtime_lab.Domain.State.{RunState, model_pending, action_pending, verifying}
use agent_runtime_lab.Effects.{ToolReceipt}
use agent_runtime_lab.Effects.Executor.{Outcome, done, raised, stopped}
use agent_runtime_lab.Ownership.Authorization.{ToolRequest, tool_request}
use agent_runtime_lab.Verification.{VerificationResult, verify}
use agent_runtime_lab.Completion.{CompletionExpectation, CompletionResult}
use agent_runtime_lab.ModelAdapter.{
  ModelInput, ModelAction, ToolCallAction, FinalAnswerAction, tool_call, final_answer,
  tool_request_from_action, request_model_action,
}
use agent_runtime_lab.Persistence.EventStore.Log.{Log}
use agent_runtime_lab.Runtime.{RuntimeToolOutcome, RuntimeToolResult, executed}
use agent_runtime_lab.Runtime.Events.{RuntimeWorld, ◌>>=◌}
use agent_runtime_lab.Runtime.Evidence.{has_status}
use agent_runtime_lab.Runtime.Models.{
  build_model_input, record_step_verification, record_completion,
}
use agent_runtime_lab.Runtime.Outcomes.{
  Ends, Gives, Keeps, Gives-bind, Gives-return, Gives-after_lift, Gives-known,
}
use agent_runtime_lab.Runtime.Recorded.{Identifies, IsRecorded, Stable}
use agent_runtime_lab.Runtime.Appends.{either_gives}
use agent_runtime_lab.Runtime.Safety
use agent_runtime_lab.Runtime.Safety.{submit-Recorded}
use agent_runtime_lab.Runtime.ModelSafety.{
  OfRun, build_model_input-Recorded, begin_model_action-Recorded,
  load_pending_model_action-Recorded, persist_model_action-Recorded,
  record_model_action_failure-Recorded,
}
use agent_runtime_lab.FakeAgent.{stop_if, check_answer}
use agent_runtime_lab.FakeAgent.Loop.{
  is_exhausted, ModelDrivenFakeAgent, ModelLoopCheckpoint, ToolExpectationResolver,
  ModelLoopOutcome, Gathered, Pass, finished, again, caught, unless_exhausted, loop_result, finish,
  fail_action, after_completion, after_verification, verify_receipt, judge_executed, judge_result,
  act, propose, ask_model, fresh_turn, resume_action, take_turn, expected,
  after_model_action_returned, after_model_action_persisted, unexecuted_outcome,
}

-- A request that was made from an action names its call.
pub tool_request_from_action-named :
    (h : Host) (context : ModelInput) (action : ModelAction) (event_id : Option String)
    {request : ToolRequest}
    → tool_request_from_action h context action event_id ≡ ok request
    → is_empty request.tool_call_id ≡ false
unfolding tool_request_from_action tool_request
tool_request_from_action-named h context action event_id e = ground arith

pub stop_if-Gives :
    {S P : RuntimeWorld → Type 0} (stops : Bool)
    → ((w : RuntimeWorld) → S w → P w)
    → Gives S P (stop_if stops) (λ u. S)
stop_if-Gives true weaken = record { ends = λ w s. weaken w s }
stop_if-Gives false weaken = record { ends = λ w s. s }

-- Catching an exhausted step budget.
Ends-caught :
    {A : Type 0} (P : RuntimeWorld → Type 0) (Q : A → RuntimeWorld → Type 0)
    (R : Option A → RuntimeWorld → Type 0) (end : Outcome A × RuntimeWorld)
    → ((a : A) (w : RuntimeWorld) → Q a w → R (some a) w)
    → ((w : RuntimeWorld) → P w → R none w)
    → Ends P Q end
    → Ends P R (caught end)
Ends-caught P Q R (done a, w) more less q = more a w q
Ends-caught P Q R (stopped, w) more less p = p
Ends-caught P Q R (raised e, w) more less p = elim (Bool-cases (is_exhausted e)) [
  | inl spent ↦ rw spent (less w p)
  | inr other ↦ rw other p
]

module _ (agent : ModelDrivenFakeAgent) (c : IsCanonical agent.runtime.host)
    (b : ReadsBack agent.runtime.host c) (dates : ReadsDates agent.runtime.host)
    (identifies : Identifies agent.runtime.host) (I : Log → Type 0)
    (stable : Stable agent.runtime.host I) where
  abbrev pub Rec : RuntimeWorld → Type 0
  Rec = IsRecorded agent.runtime.host I

  -- What holds after a pass: `Again`, if another one follows.
  abbrev pub After : (RuntimeWorld → Type 0) → Pass → RuntimeWorld → Type 0
  After Again (finished result) w = Rec w
  After Again (again gathered) w = Again w

  module _ (tool_expectations : ToolExpectationResolver)
      (completion_expectation : CompletionExpectation) where
    pub loop_result-Recorded :
        (outcome : ModelLoopOutcome) (gathered : Gathered)
        → Keeps Rec (loop_result agent tool_expectations completion_expectation outcome gathered)
    unfolding loop_result
    loop_result-Recorded outcome gathered =
        Safety.loaded agent.runtime c b dates identifies I stable agent.run_id (λ s. Gives-return _)

    module _ (Again : RuntimeWorld → Type 0) where
      pub finish-After :
          (outcome : ModelLoopOutcome) (gathered : Gathered)
          → Gives Rec Rec
              (finish agent tool_expectations completion_expectation outcome gathered)
              (After Again)
      finish-After outcome gathered =
          Gives-bind (loop_result-Recorded outcome gathered) (λ result. Gives-return _)

      module _
          (judged : (gathered : Gathered) (context : ModelInput) (action : FinalAnswerAction)
              (completion : CompletionResult)
            → context.run_id ≡ agent.run_id
            → Gives Rec Rec
                (record_completion agent.runtime context action completion
                  >>= after_completion agent tool_expectations completion_expectation gathered)
                (After Again))
          (verified : (gathered : Gathered) (result : VerificationResult)
            → Gives Rec Rec
                (record_step_verification agent.runtime agent.run_id result
                  >>= after_verification agent tool_expectations completion_expectation gathered)
                (After Again)) where
        fail_action-After :
            (reason : String) (gathered : Gathered)
            → Gives Rec Rec
                (fail_action agent tool_expectations completion_expectation reason gathered)
                (After Again)
        unfolding fail_action
        fail_action-After reason gathered =
            Gives-bind
              (record_model_action_failure-Recorded agent.runtime c b dates identifies I stable
                agent.run_id reason)
              (λ s. finish-After ModelLoopOutcome.failed gathered)

        verify_receipt-After :
            (gathered : Gathered) (context : ModelInput) (action : ToolCallAction)
            (receipt : ToolReceipt)
            → Gives Rec Rec
                (verify_receipt agent tool_expectations completion_expectation gathered context
                  action receipt)
                (After Again)
        unfolding verify_receipt
        verify_receipt-After gathered context action receipt =
            Safety.lifted agent.runtime c b dates identifies I stable
              (tool_expectations context action)
              (λ given.
                Safety.lifted agent.runtime c b dates identifies I stable (expected given)
                  (λ expectation. verified _ (verify agent.runtime.host receipt expectation)))

        judge_executed-After :
            (gathered : Gathered) (context : ModelInput) (action : ToolCallAction) (s : RunState)
            (receipt : Option ToolReceipt)
            → Gives Rec Rec
                (judge_executed agent tool_expectations completion_expectation gathered context
                  action s receipt)
                (After Again)
        unfolding judge_executed
        judge_executed-After gathered context action s none =
            finish-After ModelLoopOutcome.failed gathered
        judge_executed-After gathered context action s (some receipt) =
            either_gives (has_status s verifying)
              (verify_receipt-After gathered context action receipt)
              (finish-After ModelLoopOutcome.failed gathered)

        judge_result-After :
            (gathered : Gathered) (context : ModelInput) (action : ToolCallAction)
            (result : RuntimeToolResult) (outcome : RuntimeToolOutcome)
            → Gives Rec Rec
                (judge_result agent tool_expectations completion_expectation gathered context action
                  result outcome)
                (After Again)
        unfolding judge_result
        judge_result-After gathered context action result executed =
            judge_executed-After gathered context action result.state result.receipt
        judge_result-After gathered context action result outcome =
            finish-After (unexecuted_outcome outcome) gathered

        act-After :
            (gathered : Gathered) (context : ModelInput) (action : ModelAction) (event_id : String)
            → context.run_id ≡ agent.run_id
            → Gives Rec Rec
                (act agent tool_expectations completion_expectation gathered context action
                  event_id)
                (After Again)
        unfolding act
        act-After gathered context (final_answer action) event_id same =
            Safety.lifted agent.runtime c b dates identifies I stable
              (check_answer agent.runtime action context completion_expectation)
              (λ completion. judged _ context action completion same)
        act-After gathered context (tool_call action) event_id same =
            Gives-after_lift (λ w i. i)
              (tool_request_from_action agent.runtime.host context (tool_call action)
                (some event_id))
              (λ request e.
                Gives-bind
                  (submit-Recorded agent.runtime c b dates identifies I stable request (
                    tool_request_from_action-named agent.runtime.host context (tool_call action)
                      (some event_id) e))
                  (λ result. judge_result-After _ context action result result.outcome))

        reach-Recorded :
            (checkpoint : ModelLoopCheckpoint) → Keeps Rec (stop_if (agent.stops_at checkpoint))
        reach-Recorded checkpoint = stop_if-Gives (agent.stops_at checkpoint) (λ w i. i)

        propose-After :
            (gathered : Gathered) (context : ModelInput) (invocation_id : String)
            (proposed : Result ModelAction)
            → context.run_id ≡ agent.run_id
            → Gives Rec Rec
                (propose agent tool_expectations completion_expectation gathered context
                  invocation_id proposed)
                (After Again)
        unfolding propose
        propose-After gathered context invocation_id (err e) same = fail_action-After _ gathered
        propose-After gathered context invocation_id (ok proposed) same =
            Gives-bind {m = stop_if (agent.stops_at after_model_action_returned)}
              (reach-Recorded after_model_action_returned)
              (λ u.
                Gives-bind
                  (persist_model_action-Recorded agent.runtime c b dates identifies I stable context
                    invocation_id proposed)
                  (λ pending.
                    Gives-bind {m = stop_if (agent.stops_at after_model_action_persisted)}
                      (reach-Recorded after_model_action_persisted)
                      (λ v. act-After _ context proposed pending.event_id same)))

        -- Nothing is known of a turn that the budget did not allow.
        abbrev OfRun? : Option ModelInput → RuntimeWorld → Type 0
        OfRun? none w = Rec w
        OfRun? (some context) w =
            OfRun agent.runtime c b dates identifies I stable agent.run_id context w

        ask_model-After :
            (gathered : Gathered) (context : Option ModelInput)
            → Gives
                (OfRun? context)
                Rec
                (ask_model agent tool_expectations completion_expectation gathered context)
                (After Again)
        unfolding ask_model
        ask_model-After gathered none = finish-After ModelLoopOutcome.failed gathered
        ask_model-After gathered (some context) =
            Gives-known {S = Rec} {F = λ w. context.run_id ≡ agent.run_id} (λ w same. same)
              (λ same.
                Gives-bind
                  (begin_model_action-Recorded agent.runtime c b dates identifies I stable context)
                  (λ invocation_id.
                    propose-After gathered context invocation_id
                      (request_model_action agent.adapter context) same))

        fresh_turn-After :
            (gathered : Gathered)
            → Gives Rec Rec
                (fresh_turn agent tool_expectations completion_expectation gathered)
                (After Again)
        fresh_turn-After gathered =
            Gives-bind {m = unless_exhausted (build_model_input agent.runtime agent.run_id)}
              (record {
                ends = λ w i.
                    Ends-caught Rec (OfRun agent.runtime c b dates identifies I stable agent.run_id)
                      OfRun? (build_model_input agent.runtime agent.run_id w) (λ a u q. q)
                      (λ u p. p)
                      ((build_model_input-Recorded agent.runtime c b dates identifies I stable
                          agent.run_id).ends
                        w i);
              })
              (ask_model-After gathered)

        resume_action-After :
            (gathered : Gathered)
            → Gives Rec Rec
                (resume_action agent tool_expectations completion_expectation gathered)
                (After Again)
        resume_action-After gathered =
            Gives-bind
              (load_pending_model_action-Recorded agent.runtime c b dates identifies I stable
                agent.run_id)
              (λ pending.
                Gives-known {S = Rec} {F = λ w. pending.context.run_id ≡ agent.run_id}
                  (λ w same. same)
                  (λ same. act-After _ pending.context pending.action pending.event_id same))

        pub take_turn-After :
            (gathered : Gathered)
            → Gives Rec Rec
                (take_turn agent tool_expectations completion_expectation gathered)
                (After Again)
        unfolding take_turn
        take_turn-After gathered =
            Safety.loaded agent.runtime c b dates identifies I stable agent.run_id (λ s.
              either_gives (has_status s model_pending) (fail_action-After _ gathered) (
                either_gives (has_status s action_pending) (resume_action-After gathered)
                  (fresh_turn-After gathered)))
