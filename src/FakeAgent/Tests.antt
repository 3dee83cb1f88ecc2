-- ===== src/FakeAgent/Tests.antt =====
-- Runs of the model-driven agent's loop on a sample run of three steps.
use agent_runtime_lab.Prelude.{
  ◌≡◌, ◌≢◌, refl, false, none, some, List, [], ◌∷◌, string_dec, option_dec, nat_dec, decimal, arith,
}
use agent_runtime_lab.Result.{ok}
use agent_runtime_lab.Json.Sample.{
  sample_host, sample_canonical, sample_host-ReadsBack, sample_host-ReadsDates, sample_dumps,
  sample_loads,
}
use agent_runtime_lab.Domain.State.{
  RunState, RunStatus-discrete, initial_state, initial, run_state, fingerprint_in,
}
use agent_runtime_lab.Effects.Executor.{Outcome, done, raised, stopped}
use agent_runtime_lab.ModelAdapter.{final_answer}
use agent_runtime_lab.Runtime.Events.{RuntimeWorld, load_state, replay_stored}
use agent_runtime_lab.Persistence.EventStore
use agent_runtime_lab.Persistence.EventStore.{
  load, find_fingerprint, last_row, insert_row, order_by_sequence, select_tail, next_chain_digest,
  append_known, append_after, event_from_row, events_from_rows,
}
use agent_runtime_lab.Domain.Event.{event_type_value, event_type_of, execution_event, fingerprint}
use agent_runtime_lab.Domain.Replay.{replay, replay_tail}
use agent_runtime_lab.Domain.Reducer.{reduce, dispatch, on_run_created, on_lifecycle}
use agent_runtime_lab.Domain.Reducer.Checks.{optional_positive_int, required_positive_int}
use agent_runtime_lab.Json.{get}
use agent_runtime_lab.Runtime.Calls.{Session, append_event, perform, perform_sessions, empty_world}
use agent_runtime_lab.Runtime.Tests.{
  services, created, started, session, created-IsEvent, started-IsEvent, sample_host-Identifies,
  completion_expectation, tool_expectations,
}
use agent_runtime_lab.FakeAgent.Loop.{ModelDrivenFakeAgent, run_loop, resume_loop}
use agent_runtime_lab.FakeAgent.Bounded.{run_loop_bounded}

-- An agent whose model insists on a wrong answer.
abbrev agent : ModelDrivenFakeAgent
agent = record {
  runtime = record services { uses_snapshots = false };
  adapter = λ context. ok (final_answer (record { answer = "wrong" }));
  run_id = "r";
  stops_at = λ checkpoint. false;
}

abbrev sessions : List Session
sessions = session (append_event created) ∷ session (append_event started) ∷ []

abbrev world : RuntimeWorld
world = perform_sessions sample_host empty_world sessions

abbrev state_in : Outcome RunState → RunState
state_in (done s) = s
state_in (raised e) = initial_state "r"
state_in stopped = initial_state "r"

abbrev state : RunState
state = state_in (load_state agent.runtime "r" world).0

loaded : ((load_state agent.runtime "r" world).0 ≡ done state) × (state.max_steps ≡ some 3)
unfolding load_state replay_stored perform_sessions perform EventStore.append load find_fingerprint
    last_row insert_row order_by_sequence select_tail next_chain_digest append_known append_after
    event_from_row events_from_rows event_type_value event_type_of execution_event fingerprint
    run_state initial fingerprint_in get sample_dumps sample_loads string_dec option_dec nat_dec
    decimal replay replay_tail reduce dispatch on_run_created on_lifecycle optional_positive_int
    required_positive_int RunStatus-discrete
loaded = (refl, refl)

run_loop_bounded_example :
    ((run_loop agent tool_expectations completion_expectation 4 world).0 ≢ done none)
    × ((resume_loop agent tool_expectations completion_expectation 4 world).0 ≢ done none)
run_loop_bounded_example =
    run_loop_bounded agent sample_canonical sample_host-ReadsBack sample_host-ReadsDates
      sample_host-Identifies tool_expectations completion_expectation sessions
      (created-IsEvent, (started-IsEvent, tt)) state 3 4 loaded.0 loaded.1 (omega arith)
