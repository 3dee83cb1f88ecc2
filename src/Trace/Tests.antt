-- ===== src/Trace/Tests.antt =====
-- Runs of the trace on a sample log.
use agent_runtime_lab.Prelude.{
  ◌≡◌, refl, some, List, [], ◌∷◌, get_elem?, length, take, string_dec, option_dec, nat_dec, decimal,
}
use agent_runtime_lab.Prelude.Int.{ℤ, pos}
use agent_runtime_lab.Result.{Result, ok, err}
use agent_runtime_lab.Json.{int, str, field, no_fields, get, DateTime}
use agent_runtime_lab.Json.Sample.{sample_host, sample_dumps}
use agent_runtime_lab.Domain.Event.{
  ExecutionEvent, run_created, run_started, fingerprint, event_type_value,
}
use agent_runtime_lab.Domain.State.{
  RunState, RunStatus-discrete, initial, run_status_value, fingerprint_in,
}
use agent_runtime_lab.Domain.Reducer.{reduce, dispatch, on_run_created, on_lifecycle}
use agent_runtime_lab.Domain.Reducer.Checks.{optional_positive_int, required_positive_int}
use agent_runtime_lab.Domain.Replay.{replay}
use agent_runtime_lab.Trace.{
  RunTrace, TraceEvent, build_run_trace, trace_events, safe_payload_metadata, collect, count_types,
  last_of,
}
use agent_runtime_lab.Trace.Faithful.{build_run_trace_faithful, Describes}

abbrev milliseconds : DateTime → DateTime → ℤ
milliseconds later earlier = pos 5

abbrev created : ExecutionEvent
created = record {
  event_id = "a";
  run_id = "r";
  sequence = 0;
  event_type = run_created;
  occurred_at = record { instant = 0; utcoffset = some (pos 0) };
  payload = field "max_steps" (int (pos 3)) (field "task" (str "secret") no_fields);
}

abbrev started : ExecutionEvent
started = record {
  event_id = "b";
  run_id = "r";
  sequence = 1;
  event_type = run_started;
  occurred_at = record { instant = 9; utcoffset = some (pos 0) };
  payload = no_fields;
}

abbrev log : List ExecutionEvent
log = created ∷ started ∷ []

abbrev trace_in : Result RunTrace → RunTrace
trace_in (ok trace) = trace
trace_in (err e) = record {
  run_id = "";
  final_status = "";
  records = [];
  metrics = record {
    event_count = 0;
    model_action_count = 0;
    tool_request_count = 0;
    gate_escalation_count = 0;
    verification_success_count = 0;
    verification_failure_count = 0;
    runtime_steps = 0;
    duration_ms = 0;
  };
}

abbrev trace : RunTrace
trace = trace_in (build_run_trace sample_host milliseconds "r" log)

built :
    (build_run_trace sample_host milliseconds "r" log ≡ ok trace)
    × (trace.final_status ≡ "ready")
    × (trace.metrics.duration_ms ≡ 5)
unfolding build_run_trace trace_events collect count_types last_of safe_payload_metadata initial
    reduce dispatch on_run_created on_lifecycle optional_positive_int required_positive_int
    RunStatus-discrete fingerprint event_type_value run_status_value fingerprint_in get string_dec
    option_dec nat_dec decimal sample_dumps
built = (refl, refl, refl)

redacted : safe_payload_metadata created ≡ field "max_steps" (int (pos 3)) no_fields
unfolding safe_payload_metadata collect get string_dec
redacted = refl

build_run_trace_faithful_example :
    (before : RunState) × (after : RunState) × (last : RunState) × (recorded : TraceEvent) × (replay
        sample_host "r"
        (take 0 log)
      ≡ ok before)
    × (replay sample_host "r" (take 1 log) ≡ ok after)
    × (replay sample_host "r" log ≡ ok last)
    × (length trace.records ≡ length log)
    × (get_elem? trace.records 0 ≡ some recorded)
    × Describes sample_host before after created recorded
    × (trace.final_status ≡ run_status_value last.status)
    × (trace.metrics.runtime_steps ≡ last.turn_index)
build_run_trace_faithful_example =
    build_run_trace_faithful sample_host milliseconds "r" log trace built.0 0 created refl
