-- ===== src/Trace.antt =====
-- src/agent_runtime_lab/trace.py: the trace of a run, derived from its events, with no payload but
-- safe fields of it.
pub mod Faithful
mod Tests
use agent_runtime_lab.Prelude.{
  ℕ, ◌+◌, leb, String, ◌≡◌, Bool, true, false, not, ◌&&◌, Option, none, some, List, [], ◌∷◌, ◌++◌,
  any, filter, length, map, holds, string_dec, if◌then◌else◌,
}
use agent_runtime_lab.Prelude.Int.{ℤ, pos, negsuc}
use agent_runtime_lab.Result.{Result, ok, err, value_error, ◌>>=◌}
use agent_runtime_lab.Json.{
  Json, null, bool, int, float, str, list, dict, Items, no_items, item, Fields, no_fields, field,
  get, Host, DateTime,
}
use agent_runtime_lab.Domain.Event.{
  EventType, ExecutionEvent, event_type_value, fingerprint, model_action_proposed, tool_requested,
  tool_escalated, verification_succeeded, verification_failed,
}
use agent_runtime_lab.Domain.State.{RunState, RunStatus, run_status_value, initial}
use agent_runtime_lab.Domain.Reducer.{reduce}

-- `sorted(_SAFE_PAYLOAD_FIELDS)`
abbrev pub safe_payload_fields : List String
safe_payload_fields =
    "action_type" ∷ "attempt" ∷ "completed_steps" ∷ "effect_id" ∷ "gate_mode" ∷ "invocation_id"
    ∷ "max_attempts" ∷ "max_steps" ∷ "mode" ∷ "model_action_event_id" ∷ "outcome"
    ∷ "proposal_digest" ∷ "revision" ∷ "scope" ∷ "step_id" ∷ "tool_call_id" ∷ "tool_name"
    ∷ "turn_index" ∷ []

-- `value is None or isinstance(value, (str, int, float, bool))`, of a field that is in the payload
abbrev pub is_plain : Option Json → Bool
is_plain none = false
is_plain (some (list _)) = false
is_plain (some (dict _)) = false
is_plain (some value) = true

abbrev pub value_or_null : Option Json → Json
value_or_null none = null
value_or_null (some value) = value

-- The loop over the names of `_safe_payload_metadata`.
unfoldable pub collect : Fields → List String → Fields
collect payload [] = no_fields
collect payload (name ∷ names) =
    let rest = collect payload names in
    if is_plain (get name payload) then field name (value_or_null (get name payload)) rest else rest

-- `_safe_payload_metadata(event)`
unfoldable pub safe_payload_metadata : ExecutionEvent → Fields
safe_payload_metadata e = collect e.payload safe_payload_fields

pub record TraceEvent : Type 0 where
  pub sequence : ℕ
  pub event_id : String
  pub event_type : String
  pub occurred_at : String
  pub state_before : String
  pub state_after : String
  pub payload_sha256 : String
  pub event_fingerprint : String
  pub metadata_json : String

pub record TraceMetrics : Type 0 where
  pub event_count : ℕ
  pub model_action_count : ℕ
  pub tool_request_count : ℕ
  pub gate_escalation_count : ℕ
  pub verification_success_count : ℕ
  pub verification_failure_count : ℕ
  pub runtime_steps : ℕ
  pub duration_ms : ℕ

-- `schema_version` is always TRACE_SCHEMA_VERSION.
pub record RunTrace : Type 0 where
  pub run_id : String
  pub final_status : String
  pub records : List TraceEvent
  pub metrics : TraceMetrics

abbrev pub trace_schema_version : ℕ
trace_schema_version = 1

-- `event_types.count(...)`, by a test on the type
unfoldable pub count_types : (EventType → Bool) → List ExecutionEvent → ℕ
count_types test [] = 0
count_types test (e ∷ es) =
    let rest = count_types test es in if test e.event_type then rest + 1 else rest

abbrev counts_action : EventType → Bool
counts_action model_action_proposed = true
counts_action _ = false

abbrev counts_request : EventType → Bool
counts_request tool_requested = true
counts_request _ = false

abbrev counts_escalation : EventType → Bool
counts_escalation tool_escalated = true
counts_escalation _ = false

abbrev counts_success : EventType → Bool
counts_success verification_succeeded = true
counts_success _ = false

abbrev counts_failure : EventType → Bool
counts_failure verification_failed = true
counts_failure _ = false

abbrev pub at_least_zero : ℤ → ℕ
at_least_zero (pos n) = n
at_least_zero (negsuc n) = 0

unfoldable pub last_of : ExecutionEvent → List ExecutionEvent → ExecutionEvent
last_of e [] = e
last_of e (next ∷ rest) = last_of next rest

-- `int((later - earlier).total_seconds() * 1000)`, an arithmetic of floats, is a parameter.
module _ (h : Host) (milliseconds : DateTime → DateTime → ℤ) where
  abbrev pub duration_between : List ExecutionEvent → ℕ
  duration_between [] = 0
  duration_between (first ∷ []) = 0
  duration_between (first ∷ next ∷ rest) =
      at_least_zero (milliseconds (last_of next rest).occurred_at first.occurred_at)

  abbrev pub trace_event : RunState → RunState → ExecutionEvent → TraceEvent
  trace_event before after e = record {
    sequence = e.sequence;
    event_id = e.event_id;
    event_type = event_type_value e.event_type;
    occurred_at = h.isoformat e.occurred_at;
    state_before = run_status_value before.status;
    state_after = run_status_value after.status;
    payload_sha256 = h.sha256 (h.dumps (dict e.payload));
    event_fingerprint = fingerprint h e;
    metadata_json = h.dumps (dict (safe_payload_metadata e));
  }

  -- `for event in ordered_events`: the records, and the state after the last event
  unfoldable pub trace_events : RunState → List ExecutionEvent → Result (List TraceEvent × RunState)
  trace_events s [] = ok ([], s)
  trace_events s (e ∷ es) = do
    next ← reduce h s e
    (records, final) ← trace_events next es
    ok (trace_event s next e ∷ records, final)

  abbrev pub metrics_of : List ExecutionEvent → RunState → TraceMetrics
  metrics_of events s = record {
    event_count = length events;
    model_action_count = count_types counts_action events;
    tool_request_count = count_types counts_request events;
    gate_escalation_count = count_types counts_escalation events;
    verification_success_count = count_types counts_success events;
    verification_failure_count = count_types counts_failure events;
    runtime_steps = s.turn_index;
    duration_ms = duration_between events;
  }

  -- `build_run_trace(run_id, events)`
  unfoldable pub build_run_trace : String → List ExecutionEvent → Result RunTrace
  build_run_trace run_id events = do
    s ← initial run_id
    (records, final) ← trace_events s events
    ok (record {
      run_id = run_id;
      final_status = run_status_value final.status;
      records = records;
      metrics = metrics_of events final;
    })

-- `json.loads`, whose JSONDecodeError is a ValueError
abbrev pub metadata_value : Option Json → Result Json
metadata_value none = err value_error
metadata_value (some value) = ok value

-- `TraceEvent.as_dict()`, with `TraceEvent.metadata`
unfoldable pub trace_event_dict : Host → TraceEvent → Result Fields
trace_event_dict h e = do
  metadata ← metadata_value (h.loads e.metadata_json)
  ok (
      field "event_fingerprint" (str e.event_fingerprint) (
        field "event_id" (str e.event_id) (
          field "event_type" (str e.event_type) (
            field "metadata" metadata (
              field "occurred_at" (str e.occurred_at) (
                field "payload_sha256" (str e.payload_sha256) (
                  field "sequence" (int (pos e.sequence)) (
                    field "state_after" (str e.state_after)
                      (field "state_before" (str e.state_before) no_fields)))))))))

-- `TraceMetrics.as_dict()`
unfoldable pub trace_metrics_dict : TraceMetrics → Fields
trace_metrics_dict m = field "duration_ms" (int (pos m.duration_ms)) (
    field "event_count" (int (pos m.event_count)) (
      field "gate_escalation_count" (int (pos m.gate_escalation_count)) (
        field "model_action_count" (int (pos m.model_action_count)) (
          field "runtime_steps" (int (pos m.runtime_steps)) (
            field "tool_request_count" (int (pos m.tool_request_count)) (
              field "verification_failure_count" (int (pos m.verification_failure_count)) (
                field "verification_success_count" (int (pos m.verification_success_count))
                  no_fields)))))))

unfoldable pub trace_items : Host → List TraceEvent → Result Items
trace_items h [] = ok no_items
trace_items h (e ∷ es) = do
  first ← trace_event_dict h e
  rest ← trace_items h es
  ok (item (dict first) rest)

-- `RunTrace.as_dict()`
unfoldable pub run_trace_dict : Host → RunTrace → Result Fields
run_trace_dict h t = do
  records ← trace_items h t.records
  ok (
      field "final_status" (str t.final_status) (
        field "metrics" (dict (trace_metrics_dict t.metrics)) (
          field "records" (list records) (
            field "run_id" (str t.run_id)
              (field "schema_version" (int (pos trace_schema_version)) no_fields)))))

-- `RunTrace.canonical_json()`
unfoldable pub trace_json : Host → RunTrace → Result String
trace_json h t = do fields ← run_trace_dict h t; ok (h.dumps (dict fields))

-- `RunTrace.digest()`
unfoldable pub trace_digest : Host → RunTrace → Result String
trace_digest h t = do text ← trace_json h t; ok (h.sha256 text)
