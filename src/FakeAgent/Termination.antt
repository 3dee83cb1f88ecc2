-- ===== src/FakeAgent/Termination.antt =====
-- The loop of the model-driven agent ends: each further pass has consumed a turn of the run's step
-- budget (fake_agent.py).
use agent_runtime_lab.Prelude.{
  ℕ, zero, suc, ◌+◌, ◌<◌, ◌≤◌, ◌≡◌, inl, inr, false, Option, none, some, Bool-cases, arith,
}
use agent_runtime_lab.Json.{IsCanonical, ReadsBack, ReadsDates}
use agent_runtime_lab.Domain.State
use agent_runtime_lab.Domain.State.{RunState}
use agent_runtime_lab.Domain.Reducer.Turns.{HasReached}
use agent_runtime_lab.Verification.{VerificationResult}
use agent_runtime_lab.Completion.{CompletionExpectation, CompletionResult}
use agent_runtime_lab.ModelAdapter.{ModelInput, FinalAnswerAction}
use agent_runtime_lab.Runtime.Events.{RuntimeWorld, Run, ◌>>=◌}
use agent_runtime_lab.Runtime.Evidence.{has_status}
use agent_runtime_lab.Runtime.Models.{record_completion, record_step_verification}
use agent_runtime_lab.Runtime.Outcomes.{Gives, Gives-bind, Gives-return, Gives-mono, Gives-weaken}
use agent_runtime_lab.Runtime.Recorded.{Identifies, Stable}
use agent_runtime_lab.Runtime.Turns.{Turned, Turned-Stable, advanced}
use agent_runtime_lab.Runtime.TurnEnds.{
  Within, Stored, FailedOrReached, record_completion-Stored, record_step_verification-Stored,
}
use agent_runtime_lab.FakeAgent.Loop.{
  ModelDrivenFakeAgent, ToolExpectationResolver, ModelLoopOutcome, ModelLoopResult, Gathered, Pass,
  finished, again, finish, after_pass, after_completion, after_verification, continue_loop,
}
use agent_runtime_lab.FakeAgent.Turns.{After, finish-After, take_turn-After}

module _ (agent : ModelDrivenFakeAgent) (c : IsCanonical agent.runtime.host)
    (b : ReadsBack agent.runtime.host c) (dates : ReadsDates agent.runtime.host)
    (identifies : Identifies agent.runtime.host) (tool_expectations : ToolExpectationResolver)
    (completion_expectation : CompletionExpectation) (limit : ℕ) where
  abbrev pub Reached : ℕ → RuntimeWorld → Type 0
  Reached n = Within agent.runtime c b dates identifies agent.run_id limit n

  abbrev pub stable :
      (n : ℕ) → Stable agent.runtime.host (Turned agent.runtime.host agent.run_id limit n)
  stable n = Turned-Stable agent.runtime.host agent.run_id limit n

  -- Another pass may only follow where the budget still had a turn.
  abbrev pub Next : ℕ → RuntimeWorld → Type 0
  Next n w = Reached (n + 1) w × (n + 1 ≤ limit)

  abbrev AfterPass : ℕ → Pass → RuntimeWorld → Type 0
  AfterPass n =
      After agent c b dates identifies (Turned agent.runtime.host agent.run_id limit n) (stable n)
        (Next n)

  turn_ended :
      (n : ℕ) (s : RunState) (w : RuntimeWorld)
      → Stored agent.runtime c b dates identifies agent.run_id limit n
          (HasReached limit (n + 1))
          s
          w
      → Next n w
  turn_ended n s w k =
      advanced agent.runtime c b dates identifies agent.run_id limit n s w (k.0, k.1.0) k.1.1

  pub not_failed :
      (n : ℕ) (s : RunState) (w : RuntimeWorld)
      → has_status s State.failed ≡ false
      → Stored agent.runtime c b dates identifies agent.run_id limit n
          (FailedOrReached agent.runtime c b dates identifies agent.run_id limit n)
          s
          w
      → Next n w
  not_failed n s w on (i, (r, inl failing)) = absurd (ground arith)
  not_failed n s w on (i, (r, inr further)) = turn_ended n s w (i, (r, further))

  finishes :
      (n : ℕ) (outcome : ModelLoopOutcome) (gathered : Gathered)
      → Gives
          (Reached n)
          (Reached n)
          (finish agent tool_expectations completion_expectation outcome gathered)
          (AfterPass n)
  finishes n outcome gathered =
      finish-After agent c b dates identifies (Turned agent.runtime.host agent.run_id limit n)
        (stable n) tool_expectations completion_expectation (Next n) outcome gathered

  judged :
      (n : ℕ) (gathered : Gathered) (context : ModelInput) (action : FinalAnswerAction)
      (completion : CompletionResult)
      → context.run_id ≡ agent.run_id
      → Gives
          (Reached n)
          (Reached n)
          (record_completion agent.runtime context action completion
            >>= after_completion agent tool_expectations completion_expectation gathered)
          (AfterPass n)
  judged n gathered context action completion same =
      Gives-bind
        (record_completion-Stored agent.runtime c b dates identifies agent.run_id limit n context
          action completion same)
        (λ s. elim (Bool-cases (has_status s State.completed)) [
          | inl done ↦ rw done (
              Gives-mono (λ w k. k.0) (λ v w k. k) (finishes n ModelLoopOutcome.completed gathered))
          | inr on ↦
              rw on (
                Gives-mono (λ w k. turn_ended n s w k) (λ v w k. k) (Gives-return (again gathered)))
        ])

  verified :
      (n : ℕ) (gathered : Gathered) (result : VerificationResult)
      → Gives
          (Reached n)
          (Reached n)
          (record_step_verification agent.runtime agent.run_id result
            >>= after_verification agent tool_expectations completion_expectation gathered)
          (AfterPass n)
  verified n gathered result =
      Gives-bind
        (record_step_verification-Stored agent.runtime c b dates identifies agent.run_id limit n
          result)
        (λ s. elim (Bool-cases (has_status s State.failed)) [
          | inl failing ↦
              rw failing
                (Gives-mono (λ w k. k.0) (λ v w k. k) (finishes n ModelLoopOutcome.failed gathered))
          | inr on ↦
              Gives-mono (λ w k. not_failed n s w on k) (λ v w k. k)
                (rw on (Gives-return {Q = AfterPass n} (again gathered)))
        ])

  -- The loop has not run out of fuel.
  abbrev pub Returns : Option ModelLoopResult → RuntimeWorld → Type 0
  Returns none w = ⊥
  Returns (some result) w = Unit

  abbrev pub Anything : RuntimeWorld → Type 0
  Anything w = Unit

  -- The rest of the loop, which has fuel for the turns that are left.
  passed :
      (n : ℕ) {rest : Gathered → Run (Option ModelLoopResult)}
      → (n + 1 ≤ limit
          → (gathered : Gathered) → Gives (Reached (n + 1)) Anything (rest gathered) Returns)
      → (pass : Pass) → Gives (AfterPass n pass) Anything (after_pass rest pass) Returns
  passed n more (finished result) = record { ends = λ w k. tt }
  passed n more (again gathered) = record { ends = λ w k. (more k.1 gathered).ends w k.0 }

  pub continue_loop-Returns :
      (fuel n : ℕ) (gathered : Gathered)
      → n ≤ limit
      → limit < fuel + n
      → Gives
          (Reached n)
          Anything
          (continue_loop agent tool_expectations completion_expectation fuel gathered)
          Returns
  unfolding continue_loop
  continue_loop-Returns zero n gathered within enough = absurd (omega arith)
  continue_loop-Returns (suc fuel) n gathered within enough =
      Gives-bind
        (Gives-weaken (λ w k. tt)
          (take_turn-After agent c b dates identifies
            (Turned agent.runtime.host agent.run_id limit n) (stable n) tool_expectations
            completion_expectation (Next n) (judged n) (verified n) gathered))
        (passed n (λ further more. continue_loop-Returns fuel (n + 1) more further (omega arith)))
