-- ===== src/FakeAgent/Bounded.antt =====
-- A run with a step budget bounds the loop of the model-driven agent (fake_agent.py).
use agent_runtime_lab.Prelude.{
  ℕ, ◌+◌, ◌<◌, ◌≤◌, ◌≡◌, ◌≢◌, subst, inl, inr, false, Option, none, some, Bool-cases, arith, List,
  All,
}
use agent_runtime_lab.Result.{guard, invalid_transition}
use agent_runtime_lab.Json.{IsCanonical, ReadsBack, ReadsDates}
use agent_runtime_lab.Domain.State
use agent_runtime_lab.Domain.State.{RunState}
use agent_runtime_lab.Domain.Reducer.Turns.{HasReached}
use agent_runtime_lab.Domain.Replay.Invariants.{replay-IsBudgeted}
use agent_runtime_lab.Effects.Executor.{Outcome, done, raised, stopped}
use agent_runtime_lab.Verification.{verify}
use agent_runtime_lab.Completion.{CompletionExpectation}
use agent_runtime_lab.Persistence.EventStore.Log.{history}
use agent_runtime_lab.Runtime.Events.{RuntimeWorld, load_state, ◌>>=◌, return}
use agent_runtime_lab.Runtime.Evidence.{has_status, needed}
use agent_runtime_lab.Runtime.Outcomes.{
  Gives, Gives-bind, Gives-quiet, Gives-weaken, Gives-after_lift, Ends,
}
use agent_runtime_lab.Runtime.Recorded.{Identifies, IsRecorded}
use agent_runtime_lab.Runtime.Appends.{Loaded, load_state_same, load_state-Loaded}
use agent_runtime_lab.Runtime.Turns.{Turned, Turned-Stable}
use agent_runtime_lab.Runtime.TurnEnds.{record_step_verification-Stored}
use agent_runtime_lab.Runtime.ModelSafety.{load_model_tool_recovery-Recorded}
use agent_runtime_lab.Runtime.Calls.{Session, IsCall, perform_sessions, empty_world}
use agent_runtime_lab.Runtime.Sessions.{perform_sessions-IsRecorded, empty_world-IsRecorded}
use agent_runtime_lab.FakeAgent.{stop_if}
use agent_runtime_lab.FakeAgent.Loop.{
  ModelDrivenFakeAgent, ToolExpectationResolver, ModelLoopOutcome, Gathered, ModelLoopResult,
  loop_result, run_loop, resume_after, resume_loop, is_startable, nothing_gathered, expected,
  before_recovered_verification,
}
use agent_runtime_lab.FakeAgent.Turns.{stop_if-Gives, loop_result-Recorded}
use agent_runtime_lab.FakeAgent.Termination.{
  Reached, Next, Returns, not_failed, continue_loop-Returns,
}

module _ (agent : ModelDrivenFakeAgent) (c : IsCanonical agent.runtime.host)
    (b : ReadsBack agent.runtime.host c) (dates : ReadsDates agent.runtime.host)
    (identifies : Identifies agent.runtime.host) (tool_expectations : ToolExpectationResolver)
    (completion_expectation : CompletionExpectation) (limit fuel n : ℕ) (within : n ≤ limit)
    (enough : limit < fuel + n) where
  abbrev Here : RuntimeWorld → Type 0
  Here = Reached agent c b dates identifies tool_expectations completion_expectation limit n

  abbrev Any : RuntimeWorld → Type 0
  Any w = Unit

  abbrev Done : Option ModelLoopResult → RuntimeWorld → Type 0
  Done = Returns agent c b dates identifies tool_expectations completion_expectation limit

  run_loop-Returns :
      Gives Here Any (run_loop agent tool_expectations completion_expectation fuel) Done
  unfolding run_loop
  run_loop-Returns =
      Gives-bind {m = load_state agent.runtime agent.run_id}
        (Gives-quiet {S = Here} (λ w i. tt) (load_state_same agent.runtime agent.run_id))
        (λ s.
          Gives-after_lift (λ w i. tt) (guard (is_startable s) invalid_transition)
            (λ u e.
              Gives-after_lift (λ w i. tt) (needed s.max_steps)
                (λ l e'.
                  continue_loop-Returns agent c b dates identifies tool_expectations
                    completion_expectation limit fuel n nothing_gathered within enough)))

  failed_result :
      (gathered : Gathered)
      → Gives Here Any
          (loop_result agent tool_expectations completion_expectation ModelLoopOutcome.failed
              gathered
            >>= λ result. return (some result))
          Done
  failed_result gathered =
      Gives-bind
        (Gives-weaken (λ w i. tt)
          (loop_result-Recorded agent c b dates identifies
            (Turned agent.runtime.host agent.run_id limit n)
            (Turned-Stable agent.runtime.host agent.run_id limit n) tool_expectations
            completion_expectation ModelLoopOutcome.failed gathered))
        (λ result. record { ends = λ w k. tt })

  resume_after-Returns :
      (gathered : Gathered) (s : RunState) (w : RuntimeWorld)
      → ((has_status s State.failed ≡ false)
          → Next agent c b dates identifies tool_expectations completion_expectation limit n w)
      → Here w
      → Ends Any Done
          (resume_after agent tool_expectations completion_expectation fuel gathered s w)
  unfolding resume_after
  resume_after-Returns gathered s w on i = elim (Bool-cases (has_status s State.failed)) [
    | inl failing ↦ rw failing ((failed_result gathered).ends w i)
    | inr going ↦ rw going (
        (continue_loop-Returns agent c b dates identifies tool_expectations completion_expectation
            limit fuel (n + 1) gathered (on going).1 (omega (arith, enough))).ends
          w (on going).0)
  ]

  resume_loop-Returns :
      Gives Here Any (resume_loop agent tool_expectations completion_expectation fuel) Done
  unfolding resume_loop
  resume_loop-Returns =
      Gives-bind
        (Gives-weaken (λ w i. tt)
          (load_model_tool_recovery-Recorded agent.runtime c b dates identifies
            (Turned agent.runtime.host agent.run_id limit n)
            (Turned-Stable agent.runtime.host agent.run_id limit n) agent.run_id))
        (λ recovery.
          Gives-bind {m = stop_if (agent.stops_at before_recovered_verification)}
            (stop_if-Gives (agent.stops_at before_recovered_verification) (λ w i. tt))
            (λ u.
              Gives-after_lift (λ w i. tt) (tool_expectations recovery.context recovery.action)
                (λ given e.
                  Gives-after_lift (λ w i. tt) (expected given)
                    (λ expectation e'.
                      Gives-bind
                        (Gives-weaken (λ w i. tt)
                          (record_step_verification-Stored agent.runtime c b dates identifies
                            agent.run_id limit n
                            (verify agent.runtime.host recovery.receipt expectation)))
                        (λ s. record {
                          ends = λ w k.
                              resume_after-Returns _ s w
                                (λ on.
                                  not_failed agent c b dates identifies tool_expectations
                                    completion_expectation limit n s w on k)
                                k.0;
                        })))))

module _ (agent : ModelDrivenFakeAgent) (c : IsCanonical agent.runtime.host)
    (b : ReadsBack agent.runtime.host c) (dates : ReadsDates agent.runtime.host)
    (identifies : Identifies agent.runtime.host) (tool_expectations : ToolExpectationResolver)
    (completion_expectation : CompletionExpectation) where
  returns :
      (limit : ℕ) (end : Outcome (Option ModelLoopResult) × RuntimeWorld)
      → Ends
          (λ w. Unit)
          (Returns agent c b dates identifies tool_expectations completion_expectation limit)
          end
      → end.0 ≢ done none
  returns limit (done none, w) k e = k
  returns limit (done (some result), w) k e = absurd (ground arith)
  returns limit (raised x, w) k e = absurd (ground arith)
  returns limit (stopped, w) k e = absurd (ground arith)

  -- What was loaded has not used up its budget.
  start :
      (s : RunState) (limit : ℕ) (w : RuntimeWorld)
      → s.max_steps ≡ some limit
      → Loaded agent.runtime (λ log. Unit) agent.run_id s w
      → (s.turn_index ≤ limit)
        × Reached agent c b dates identifies tool_expectations completion_expectation limit
            s.turn_index w
  start s limit w limited (i, r) =
      let kept = replay-IsBudgeted agent.runtime.host agent.run_id (history agent.run_id i.log) r in
      (
        ground (arith, kept.consumed, limited),
        record {
          log = i.log;
          represents = i.represents;
          snapshots = i.snapshots;
          permitted = i.permitted;
          kept = λ s' again.
              subst (HasReached limit s.turn_index) {x = s} (ground (arith, again, r)) (record {
                exists = ground (arith, kept.unset, limited);
                limited = limited;
                reached = omega arith;
              });
        },
      )

  state_of :
      (s : RunState) (w : RuntimeWorld)
      → (load_state agent.runtime agent.run_id w).0 ≡ done s
      → Ends
          (IsRecorded agent.runtime.host (λ log. Unit))
          (Loaded agent.runtime (λ log. Unit) agent.run_id)
          (load_state agent.runtime agent.run_id w)
      → Loaded agent.runtime (λ log. Unit) agent.run_id s w
  state_of s w now ends =
      of_end s w (load_state agent.runtime agent.run_id w) now
        (load_state_same agent.runtime agent.run_id w) ends
    where
      of_end :
          (s : RunState) (w : RuntimeWorld) (end : Outcome RunState × RuntimeWorld)
          → end.0 ≡ done s
          → end.1 ≡ w
          → Ends
              (IsRecorded agent.runtime.host (λ log. Unit))
              (Loaded agent.runtime (λ log. Unit) agent.run_id)
              end
          → Loaded agent.runtime (λ log. Unit) agent.run_id s w
      of_end s w (raised x, u) is same k = absurd (ground arith)
      of_end s w (stopped, u) is same k = absurd (ground arith)
      of_end s w (done a, u) is same k =
          let value : a ≡ s = ground arith in
          subst (λ v. Loaded agent.runtime (λ log. Unit) agent.run_id s v) same
            (subst (λ v. Loaded agent.runtime (λ log. Unit) agent.run_id v u) value k)

  -- After any calls of the runtime and its agents, in processes that may stop at each checkpoint:
  -- where json and datetime read back what they wrote and a fingerprint identifies its event, the
  -- loop of the model-driven agent on a run with a step budget, started or resumed, makes at most as
  -- many passes as the budget has turns left and one more. On that fuel it returns a result, raises
  -- or is stopped, whatever the model, the tools and the checks answer.
  pub run_loop_bounded :
      (sessions : List Session)
      → All (λ (x : Session). IsCall agent.runtime.host x.call) sessions
      → (s : RunState) (limit fuel : ℕ)
      → (load_state agent.runtime agent.run_id
          (perform_sessions agent.runtime.host empty_world sessions)).0
        ≡ done s
      → s.max_steps ≡ some limit
      → limit < fuel + s.turn_index
      → ((run_loop agent tool_expectations completion_expectation fuel
            (perform_sessions agent.runtime.host empty_world sessions)).0
          ≢ done none)
        × ((resume_loop agent tool_expectations completion_expectation fuel
              (perform_sessions agent.runtime.host empty_world sessions)).0
            ≢ done none)
  run_loop_bounded sessions v s limit fuel now limited enough =
      let h = agent.runtime.host in
      let w = perform_sessions h empty_world sessions in
      let i =
        perform_sessions-IsRecorded h c b dates identifies (λ log. Unit) (λ log next e a k. tt)
          sessions empty_world v (empty_world-IsRecorded h c b dates identifies) in
      let (within, here) = start s limit w limited (
        state_of s w now
          ((load_state-Loaded agent.runtime c b dates (λ log. Unit) agent.run_id).ends w i)) in
      (
        returns limit _ (
            (run_loop-Returns agent c b dates identifies tool_expectations completion_expectation
                limit fuel s.turn_index within enough).ends
              w here),
        returns limit _ (
            (resume_loop-Returns agent c b dates identifies tool_expectations completion_expectation
                limit fuel s.turn_index within enough).ends
              w here),
      )
