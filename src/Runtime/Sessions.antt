-- ===== src/Runtime/Sessions.antt =====
-- Whatever a client does with the runtime and its agents, in any order and over any number of
-- restarts, every call of a tool has a permit in the log (authorized_tool_runtime.py).
use agent_runtime_lab.Prelude.{refl, List, [], ◌∷◌, All}
use agent_runtime_lab.Json.{Host, IsCanonical, ReadsBack, ReadsDates}
use agent_runtime_lab.Effects.Executor.{Outcome, done, raised, stopped}
use agent_runtime_lab.Persistence.EventStore
use agent_runtime_lab.Persistence.EventStore.{empty_store}
use agent_runtime_lab.Persistence.EventStore.Log.{Log, rows_of}
use agent_runtime_lab.Persistence.EventStore.Refinement.{Represents}
use agent_runtime_lab.Runtime.{Runtime}
use agent_runtime_lab.Runtime.Events.{RuntimeWorld, Run, write}
use agent_runtime_lab.Runtime.Outcomes.{Ends, Ends-mono, Keeps}
use agent_runtime_lab.Runtime.Recorded.{Identifies, IsRecorded, HasPermit, Stable}
use agent_runtime_lab.Runtime.Appends.{recorded_event, create_snapshot-Recorded}
use agent_runtime_lab.Runtime.Safety.{submit-Recorded}
use agent_runtime_lab.Runtime.GateSafety.{
  resolve_gate-Recorded, submit_gate_answer-Recorded, revise_gate-Recorded, recover-Recorded,
}
use agent_runtime_lab.Runtime.Calls.{
  RuntimeCall, submit_request, resolve, answer, revise, recover_run, take_snapshot, append_event,
  begin_action, persist_action, fail_action, verify_run, verify_step, complete_step, run_agent,
  recover_agent, take_tool_turn, take_completion_turn, start_loop, restart_loop, agent_of, Session,
  on, perform, perform_sessions, IsCall, empty_world, world_after,
}
use agent_runtime_lab.Runtime.ModelSafety.{
  begin_model_action-Recorded, persist_model_action-Recorded, record_model_action_failure-Recorded,
  record_verification-Recorded, record_step_verification-Recorded, record_completion-Recorded,
}
use agent_runtime_lab.FakeAgent.Recorded.{
  run_agent-Recorded, recover_verification-Recorded, run_tool_turn-Recorded,
  run_completion_turn-Recorded, run_loop-Recorded, resume_loop-Recorded,
}

Ends-world :
    {A : Type 0} (P : RuntimeWorld → Type 0) (end : Outcome A × RuntimeWorld)
    → Ends P (λ a w. P w) end
    → P end.1
Ends-world P (done a, w) p = p
Ends-world P (raised e, w) p = p
Ends-world P (stopped, w) p = p

module _ (h : Host) (c : IsCanonical h) (b : ReadsBack h c) (dates : ReadsDates h)
    (identifies : Identifies h) where
  module _ (I : Log → Type 0) (stable : Stable h I) where
    kept :
        {A : Type 0} (m : Run A) (w : RuntimeWorld)
        → Keeps (IsRecorded h I) m
        → IsRecorded h I w
        → IsRecorded h I (world_after m w)
    kept m w keeps i = Ends-world (IsRecorded h I) (m w) (keeps.ends w i)

    perform-IsRecorded :
        (services : Runtime) (call : RuntimeCall) (w : RuntimeWorld)
        → IsCall h call
        → IsRecorded h I w
        → IsRecorded h I (perform h services call w)
    unfolding perform
    perform-IsRecorded services (submit_request request) w v i =
        kept _ w (submit-Recorded (on h services) c b dates identifies I stable request v) i
    perform-IsRecorded services (resolve resolution) w v i =
        kept _ w (resolve_gate-Recorded (on h services) c b dates identifies I stable resolution) i
    perform-IsRecorded services (answer submission) w v i =
        kept _ w
          (submit_gate_answer-Recorded (on h services) c b dates identifies I stable submission) i
    perform-IsRecorded services (revise reference) w v i =
        kept _ w (revise_gate-Recorded (on h services) c b dates identifies I stable reference) i
    perform-IsRecorded services (recover_run run_id) w v i =
        kept _ w (recover-Recorded (on h services) c b dates identifies I stable run_id) i
    perform-IsRecorded services (take_snapshot run_id) w v i =
        kept _ w (create_snapshot-Recorded (on h services) c b dates I run_id) i
    perform-IsRecorded services (append_event e) w v i =
        Ends-world (IsRecorded h I) (write (λ store. EventStore.append h store e) w) (
          Ends-mono (IsRecorded h I) (write (λ store. EventStore.append h store e) w)
            (λ u w' k. k.0)
            (recorded_event (on h services) c b dates I stable (λ log. Unit) (λ log. Unit) e v
              (λ log next valid a k. tt) w (i, tt)))
    perform-IsRecorded services (begin_action context) w v i =
        kept _ w (begin_model_action-Recorded (on h services) c b dates identifies I stable context)
          i
    perform-IsRecorded services (persist_action context invocation_id action) w v i =
        kept _ w
          (persist_model_action-Recorded (on h services) c b dates identifies I stable context
            invocation_id action)
          i
    perform-IsRecorded services (fail_action run_id reason) w v i =
        kept _ w
          (record_model_action_failure-Recorded (on h services) c b dates identifies I stable run_id
            reason)
          i
    perform-IsRecorded services (verify_run run_id result) w v i =
        kept _ w
          (record_verification-Recorded (on h services) c b dates identifies I stable run_id result)
          i
    perform-IsRecorded services (verify_step run_id result) w v i =
        kept _ w
          (record_step_verification-Recorded (on h services) c b dates identifies I stable run_id
            result)
          i
    perform-IsRecorded services (complete_step context action result) w v i =
        kept _ w
          (record_completion-Recorded (on h services) c b dates identifies I stable context action
            result)
          i
    perform-IsRecorded services (run_agent request stops expectation) w v i =
        kept _ w
          (run_agent-Recorded (on h services) c b dates identifies I stable request stops
            expectation v)
          i
    perform-IsRecorded services (recover_agent request stops expectation) w v i =
        kept _ w
          (recover_verification-Recorded (on h services) c b dates identifies I stable request stops
            expectation)
          i
    perform-IsRecorded services (take_tool_turn adapter run_id expectation) w v i =
        kept _ w
          (run_tool_turn-Recorded (on h services) c b dates identifies I stable adapter run_id
            expectation)
          i
    perform-IsRecorded services (take_completion_turn adapter run_id expectation) w v i =
        kept _ w
          (run_completion_turn-Recorded (on h services) c b dates identifies I stable adapter run_id
            expectation)
          i
    perform-IsRecorded services (start_loop l) w v i =
        kept _ w
          (run_loop-Recorded (agent_of (on h services) l) c b dates identifies I stable
            l.tool_expectations l.completion_expectation l.fuel)
          i
    perform-IsRecorded services (restart_loop l) w v i =
        kept _ w
          (resume_loop-Recorded (agent_of (on h services) l) c b dates identifies I stable
            l.tool_expectations l.completion_expectation l.fuel)
          i

    pub perform_sessions-IsRecorded :
        (sessions : List Session) (w : RuntimeWorld)
        → All (λ (s : Session). IsCall h s.call) sessions
        → IsRecorded h I w
        → IsRecorded h I (perform_sessions h w sessions)
    unfolding perform_sessions
    perform_sessions-IsRecorded [] w v i = i
    perform_sessions-IsRecorded (s ∷ sessions) w v i =
        perform_sessions-IsRecorded sessions (perform h s.services s.call w) v.1
          (perform-IsRecorded s.services s.call w v.0 i)

  pub empty_world-IsRecorded : IsRecorded h (λ log. Unit) empty_world
  unfolding rows_of
  empty_world-IsRecorded = record {
    log = [];
    represents = record { rows = refl; valid = tt };
    snapshots = tt;
    permitted = tt;
    kept = tt;
  }

  -- Where json and datetime read back what they wrote and a fingerprint identifies its event, after
  -- any submissions with a call id, gate resolutions, answers, revisions, recoveries and snapshots,
  -- any model actions and evidence that are recorded, any turns and loops of the agents, whatever
  -- their model answers, and any events that clients append, from empty tables and in processes
  -- that may stop at each checkpoint, the event store stands for a log, and every call that a tool
  -- has seen carries the effect id of a run and a tool call for which the run's history in that log
  -- holds a tool.authorized, a gate.approved or a gate.evaluated event with the outcome "pass".
  pub perform_sessions_permitted :
      (sessions : List Session)
      → All (λ (s : Session). IsCall h s.call) sessions
      → (log : Log) × Represents h (perform_sessions h empty_world sessions).events log
        × All (HasPermit h log) (perform_sessions h empty_world sessions).effects.calls
  perform_sessions_permitted sessions v =
      let i =
        perform_sessions-IsRecorded (λ log. Unit) (λ log next e a k. tt) sessions empty_world v
          empty_world-IsRecorded in
      (i.log, i.represents, i.permitted)
