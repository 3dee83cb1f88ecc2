-- ===== src/FakeAgent/Recorded.antt =====
-- The agents keep what the runtime's world records (fake_agent.py).
use agent_runtime_lab.Prelude.{
  ℕ, zero, suc, String, Option, none, some, is_empty, false, ◌≡◌, Bool, if◌then◌else◌,
}
use agent_runtime_lab.Result.{guard, invalid_transition}
use agent_runtime_lab.Json.{IsCanonical, ReadsBack, ReadsDates}
use agent_runtime_lab.Domain.State
use agent_runtime_lab.Domain.State.{RunState}
use agent_runtime_lab.Verification.{VerificationExpectation, VerificationResult, verify}
use agent_runtime_lab.Completion.{CompletionExpectation, CompletionResult}
use agent_runtime_lab.ModelAdapter.{
  ModelAdapter, ModelInput, FinalAnswerAction, request_model_action, tool_request_from_action,
}
use agent_runtime_lab.Persistence.EventStore.Log.{Log}
use agent_runtime_lab.Runtime.{Runtime}
use agent_runtime_lab.Ownership.Authorization.{ToolRequest}
use agent_runtime_lab.Runtime.Events.{RuntimeWorld, Run, ◌>>=◌, return}
use agent_runtime_lab.Runtime.Evidence.{has_status, needed}
use agent_runtime_lab.Runtime.Models.{record_completion, record_step_verification}
use agent_runtime_lab.Runtime.Outcomes.{
  Gives, Keeps, Gives-bind, Gives-return, Gives-mono, Gives-after_lift,
}
use agent_runtime_lab.Runtime.Recorded.{Identifies, IsRecorded, Stable}
use agent_runtime_lab.Runtime.Appends.{either_gives}
use agent_runtime_lab.Runtime.Safety
use agent_runtime_lab.Runtime.Safety.{submit-Recorded}
use agent_runtime_lab.Runtime.ModelSafety.{
  build_model_input-Recorded, record_verification-Recorded, record_step_verification-Recorded,
  record_completion-Recorded, load_verification_receipt-Recorded, load_model_tool_recovery-Recorded,
}
use agent_runtime_lab.FakeAgent.{
  run, recover_verification, run_tool_turn, run_completion_turn, executed_receipt, proposed_call,
  proposed_answer, check_answer, stop_if,
}
use agent_runtime_lab.FakeAgent.Loop.{
  ModelDrivenFakeAgent, ToolExpectationResolver, ModelLoopOutcome, ModelLoopResult, Gathered, Pass,
  finished, again, after_completion, after_verification, finish, after_pass, continue_loop,
  run_loop, resume_after, resume_loop, is_startable, nothing_gathered, expected,
  before_recovered_verification,
}
use agent_runtime_lab.FakeAgent.Turns.{
  After, finish-After, take_turn-After, loop_result-Recorded, stop_if-Gives,
  tool_request_from_action-named,
}

module _ (agent : ModelDrivenFakeAgent) (c : IsCanonical agent.runtime.host)
    (b : ReadsBack agent.runtime.host c) (dates : ReadsDates agent.runtime.host)
    (identifies : Identifies agent.runtime.host) (I : Log → Type 0)
    (stable : Stable agent.runtime.host I) (tool_expectations : ToolExpectationResolver)
    (completion_expectation : CompletionExpectation) where
  abbrev Rec : RuntimeWorld → Type 0
  Rec = IsRecorded agent.runtime.host I

  abbrev AfterPass : Pass → RuntimeWorld → Type 0
  AfterPass = After agent c b dates identifies I stable Rec

  ended :
      (gathered : Gathered) (outcome : ModelLoopOutcome) (test : Bool)
      → Gives Rec Rec
          (if test
            then finish agent tool_expectations completion_expectation outcome gathered
            else return (again gathered))
          AfterPass
  ended gathered outcome test =
      either_gives test
        (finish-After agent c b dates identifies I stable tool_expectations completion_expectation
          Rec outcome gathered)
        (Gives-return (again gathered))

  judged :
      (gathered : Gathered) (context : ModelInput) (action : FinalAnswerAction)
      (completion : CompletionResult)
      → context.run_id ≡ agent.run_id
      → Gives Rec Rec
          (record_completion agent.runtime context action completion
            >>= after_completion agent tool_expectations completion_expectation gathered)
          AfterPass
  judged gathered context action completion same =
      Gives-bind
        (record_completion-Recorded agent.runtime c b dates identifies I stable context action
          completion)
        (λ s. ended gathered ModelLoopOutcome.completed (has_status s State.completed))

  verified :
      (gathered : Gathered) (result : VerificationResult)
      → Gives Rec Rec
          (record_step_verification agent.runtime agent.run_id result
            >>= after_verification agent tool_expectations completion_expectation gathered)
          AfterPass
  verified gathered result =
      Gives-bind
        (record_step_verification-Recorded agent.runtime c b dates identifies I stable agent.run_id
          result)
        (λ s. ended gathered ModelLoopOutcome.failed (has_status s State.failed))

  passed :
      {rest : Gathered → Run (Option ModelLoopResult)}
      → ((gathered : Gathered) → Keeps Rec (rest gathered))
      → (pass : Pass) → Gives (AfterPass pass) Rec (after_pass rest pass) (λ o. Rec)
  passed more (finished result) = Gives-return (some result)
  passed more (again gathered) = more gathered

  continue_loop-Recorded :
      (fuel : ℕ) (gathered : Gathered)
      → Keeps Rec (continue_loop agent tool_expectations completion_expectation fuel gathered)
  unfolding continue_loop
  continue_loop-Recorded zero gathered = Gives-return none
  continue_loop-Recorded (suc fuel) gathered =
      Gives-bind
        (take_turn-After agent c b dates identifies I stable tool_expectations
          completion_expectation Rec judged verified gathered)
        (passed (λ more. continue_loop-Recorded fuel more))

  pub run_loop-Recorded :
      (fuel : ℕ) → Keeps Rec (run_loop agent tool_expectations completion_expectation fuel)
  unfolding run_loop
  run_loop-Recorded fuel =
      Safety.loaded agent.runtime c b dates identifies I stable agent.run_id (λ s.
        Safety.lifted agent.runtime c b dates identifies I stable
          (guard (is_startable s) invalid_transition)
          (λ u.
            Safety.lifted agent.runtime c b dates identifies I stable (needed s.max_steps)
              (λ limit. continue_loop-Recorded fuel nothing_gathered)))

  pub resume_after-Recorded :
      (fuel : ℕ) (gathered : Gathered) (s : RunState)
      → Keeps Rec (resume_after agent tool_expectations completion_expectation fuel gathered s)
  unfolding resume_after
  resume_after-Recorded fuel gathered s =
      either_gives (has_status s State.failed)
        (Gives-bind
          (loop_result-Recorded agent c b dates identifies I stable tool_expectations
            completion_expectation ModelLoopOutcome.failed gathered)
          (λ result. Gives-return (some result)))
        (continue_loop-Recorded fuel gathered)

  pub resume_loop-Recorded :
      (fuel : ℕ) → Keeps Rec (resume_loop agent tool_expectations completion_expectation fuel)
  unfolding resume_loop
  resume_loop-Recorded fuel =
      Gives-bind
        (load_model_tool_recovery-Recorded agent.runtime c b dates identifies I stable agent.run_id)
        (λ recovery.
          Gives-bind {m = stop_if (agent.stops_at before_recovered_verification)}
            (stop_if-Gives (agent.stops_at before_recovered_verification) (λ w i. i))
            (λ u.
              Safety.lifted agent.runtime c b dates identifies I stable
                (tool_expectations recovery.context recovery.action)
                (λ given.
                  Safety.lifted agent.runtime c b dates identifies I stable (expected given)
                    (λ expectation.
                      Gives-bind
                        (record_step_verification-Recorded agent.runtime c b dates identifies I
                          stable agent.run_id
                          (verify agent.runtime.host recovery.receipt expectation))
                        (resume_after-Recorded fuel _)))))

module _ (r : Runtime) (c : IsCanonical r.host) (b : ReadsBack r.host c) (dates : ReadsDates r.host)
    (identifies : Identifies r.host) (I : Log → Type 0) (stable : Stable r.host I) where
  abbrev RecOf : RuntimeWorld → Type 0
  RecOf = IsRecorded r.host I

  pub run_agent-Recorded :
      (request : ToolRequest) (stops : Bool) (expectation : VerificationExpectation)
      → is_empty request.tool_call_id ≡ false
      → Keeps RecOf
          (run (record { runtime = r; request = request; stops_after_tool = stops }) expectation)
  unfolding run
  run_agent-Recorded request stops expectation named =
      Gives-bind (submit-Recorded r c b dates identifies I stable request named) (λ result.
        Safety.lifted r c b dates identifies I stable (executed_receipt result) (λ receipt.
          Gives-bind {m = stop_if stops} (stop_if-Gives stops (λ w i. i)) (λ u.
            Gives-bind
              (record_verification-Recorded r c b dates identifies I stable request.run_id
                (verify r.host receipt expectation))
              (λ s. Gives-return _))))

  pub recover_verification-Recorded :
      (request : ToolRequest) (stops : Bool) (expectation : VerificationExpectation)
      → Keeps RecOf (
          recover_verification
            (record { runtime = r; request = request; stops_after_tool = stops })
            expectation)
  unfolding recover_verification
  recover_verification-Recorded request stops expectation =
      Gives-bind (load_verification_receipt-Recorded r c b dates identifies I stable request.run_id)
        (λ receipt.
          Gives-bind
            (record_verification-Recorded r c b dates identifies I stable request.run_id
              (verify r.host receipt expectation))
            (λ s. Gives-return _))

  pub run_tool_turn-Recorded :
      (adapter : ModelAdapter) (run_id : String) (expectation : VerificationExpectation)
      → Keeps RecOf (run_tool_turn r adapter run_id expectation)
  unfolding run_tool_turn
  run_tool_turn-Recorded adapter run_id expectation =
      Gives-bind
        (Gives-mono (λ w i. i) (λ v w k. k.0)
          (build_model_input-Recorded r c b dates identifies I stable run_id))
        (λ context.
          Safety.lifted r c b dates identifies I stable (request_model_action adapter context)
            (λ proposed.
              Safety.lifted r c b dates identifies I stable (proposed_call proposed) (λ action.
                Gives-after_lift (λ w i. i) (tool_request_from_action r.host context proposed none)
                  (λ request e.
                    Gives-bind
                      (submit-Recorded r c b dates identifies I stable request
                        (tool_request_from_action-named r.host context proposed none e))
                      (λ result.
                        Safety.lifted r c b dates identifies I stable (executed_receipt result)
                          (λ receipt.
                            Gives-bind
                              (record_step_verification-Recorded r c b dates identifies I stable
                                run_id (verify r.host receipt expectation))
                              (λ s. Gives-return _)))))))

  pub run_completion_turn-Recorded :
      (adapter : ModelAdapter) (run_id : String) (expectation : CompletionExpectation)
      → Keeps RecOf (run_completion_turn r adapter run_id expectation)
  unfolding run_completion_turn
  run_completion_turn-Recorded adapter run_id expectation =
      Gives-bind
        (Gives-mono (λ w i. i) (λ v w k. k.0)
          (build_model_input-Recorded r c b dates identifies I stable run_id))
        (λ context.
          Safety.lifted r c b dates identifies I stable (request_model_action adapter context)
            (λ proposed.
              Safety.lifted r c b dates identifies I stable (proposed_answer proposed) (λ action.
                Safety.lifted r c b dates identifies I stable
                  (check_answer r action context expectation)
                  (λ completion.
                    Gives-bind
                      (record_completion-Recorded r c b dates identifies I stable context action
                        completion)
                      (λ s. Gives-return _)))))
