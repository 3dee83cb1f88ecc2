-- ===== src/Trace/Faithful.antt =====
-- What a trace tells of the run (trace.py): the states between which each event stands, and of its
-- payload only safe fields.
use agent_runtime_lab.Prelude.{
  ℕ, zero, suc, String, ◌≡◌, refl, Bool, none, some, List, [], ◌∷◌, get_elem?, length, take, any,
  Option, holds, string_dec, if◌then◌else◌, inl, inr, arith,
}
use agent_runtime_lab.Prelude.Int.{ℤ}
use agent_runtime_lab.Result.{ok, Result-cases}
use agent_runtime_lab.Json.{
  Host, DateTime, Fields, get, Json, null, bool, int, float, str, list, dict,
}
use agent_runtime_lab.Domain.Event.{ExecutionEvent, event_type_value, fingerprint}
use agent_runtime_lab.Domain.State.{RunState, run_status_value, initial}
use agent_runtime_lab.Domain.Reducer.{reduce}
use agent_runtime_lab.Domain.Replay.{replay, replay_tail}
use agent_runtime_lab.Trace.{
  safe_payload_fields, is_plain, value_or_null, collect, safe_payload_metadata, TraceEvent,
  RunTrace, trace_event, trace_events, build_run_trace,
}

abbrev pub is_safe : String → List String → Bool
is_safe key names = any (λ name. holds (string_dec name key)) names

-- The payload fields that a trace may show.
abbrev pub visible_names : List String
visible_names =
    "action_type" ∷ "attempt" ∷ "completed_steps" ∷ "effect_id" ∷ "gate_mode" ∷ "invocation_id"
    ∷ "max_attempts" ∷ "max_steps" ∷ "mode" ∷ "model_action_event_id" ∷ "outcome"
    ∷ "proposal_digest" ∷ "revision" ∷ "scope" ∷ "step_id" ∷ "tool_call_id" ∷ "tool_name"
    ∷ "turn_index" ∷ []

-- A trace shows no list and no object.
abbrev pub shown : Option Json → Option Json
shown (some (list _)) = none
shown (some (dict _)) = none
shown value = value

plain_shown :
    (value : Option Json)
    → (if is_plain value then some (value_or_null value) else none) ≡ shown value
plain_shown none = refl
plain_shown (some (list items)) = refl
plain_shown (some (dict _)) = refl
plain_shown (some null) = refl
plain_shown (some (bool b)) = refl
plain_shown (some (int i)) = refl
plain_shown (some (float x y)) = refl
plain_shown (some (str text)) = refl

-- A field is collected exactly where it is named, and then as it is shown.
get-collect :
    (key : String) (payload : Fields) (names : List String)
    → get key (collect payload names)
      ≡ (if is_safe key names then shown (get key payload) else none)
unfolding collect get
get-collect key payload [] = refl
get-collect key payload (name ∷ names) =
    ground (arith, get-collect key payload names, plain_shown (get name payload))

-- What a record tells of an event that leads from the one state to the other: its identity, the
-- statuses of these states, the digest of its payload, and in its metadata the visible fields.
pub record Describes (h : Host) (before after : RunState) (e : ExecutionEvent) (t : TraceEvent)
    : Type 0 where
  pub sequence : t.sequence ≡ e.sequence
  pub event_id : t.event_id ≡ e.event_id
  pub event_type : t.event_type ≡ event_type_value e.event_type
  pub occurred_at : t.occurred_at ≡ h.isoformat e.occurred_at
  pub state_before : t.state_before ≡ run_status_value before.status
  pub state_after : t.state_after ≡ run_status_value after.status
  pub payload_sha256 : t.payload_sha256 ≡ h.sha256 (h.dumps (dict e.payload))
  pub event_fingerprint : t.event_fingerprint ≡ fingerprint h e
  pub metadata : Fields
  pub metadata_json : t.metadata_json ≡ h.dumps (dict metadata)
  pub redacted :
      (key : String)
      → get key metadata ≡ (if is_safe key visible_names then shown (get key e.payload) else none)

module _ (h : Host) (milliseconds : DateTime → DateTime → ℤ) where
  trace_event-Describes :
      (before after : RunState) (e : ExecutionEvent)
      → Describes h before after e (trace_event h milliseconds before after e)
  unfolding safe_payload_metadata
  trace_event-Describes before after e = record {
    sequence = refl;
    event_id = refl;
    event_type = refl;
    occurred_at = refl;
    state_before = refl;
    state_after = refl;
    payload_sha256 = refl;
    event_fingerprint = refl;
    metadata = collect e.payload safe_payload_fields;
    metadata_json = refl;
    redacted = λ key. get-collect key e.payload safe_payload_fields;
  }

  -- The record of the event at a place, between the states before and after it.
  record Placed (s : RunState) (events : List ExecutionEvent) (records : List TraceEvent) (n : ℕ)
      (e : ExecutionEvent) : Type 0 where
    before : RunState
    after : RunState
    replayed_before : replay_tail h s (take n events) ≡ ok before
    replayed_after : replay_tail h s (take (suc n) events) ≡ ok after
    placed : get_elem? records n ≡ some (trace_event h milliseconds before after e)

  Placed-cons :
      (s next : RunState) (x : ExecutionEvent) (xs : List ExecutionEvent) (rest : List TraceEvent)
      (n : ℕ) (e : ExecutionEvent)
      → reduce h s x ≡ ok next
      → get_elem? (x ∷ xs) n ≡ some e
      → ((m : ℕ) → get_elem? xs m ≡ some e → Placed next xs rest m e)
      → Placed s (x ∷ xs) (trace_event h milliseconds s next x ∷ rest) n e
  unfolding replay_tail
  Placed-cons s next x xs rest zero e step at more = record {
    before = s;
    after = next;
    replayed_before = refl;
    replayed_after = ground arith;
    placed = ground arith;
  }
  Placed-cons s next x xs rest (suc n) e step at more =
      let p = more n at in
      record {
        before = p.before;
        after = p.after;
        replayed_before = rw step p.replayed_before;
        replayed_after = rw step p.replayed_after;
        placed = p.placed;
      }

  trace_events-Placed :
      (s : RunState) (events : List ExecutionEvent) (records : List TraceEvent) (final : RunState)
      → trace_events h milliseconds s events ≡ ok (records, final)
      → (n : ℕ) (e : ExecutionEvent) → get_elem? events n ≡ some e
      → Placed s events records n e
  unfolding trace_events
  trace_events-Placed s [] records final t n e at = absurd (ground arith)
  trace_events-Placed s (x ∷ xs) records final t n e at = elim (Result-cases (reduce h s x)) [
    | inr (y, refused) ↦ absurd (ground arith)
    | inl (next, step) ↦ elim (Result-cases (trace_events h milliseconds next xs)) [
      | inr (y, refused) ↦ absurd (ground arith)
      | inl (rest, more) ↦
          let same : records ≡ trace_event h milliseconds s next x ∷ rest.0 = ground arith in
          rw same (
            Placed-cons s next x xs rest.0 n e step at
              (λ m here. trace_events-Placed next xs rest.0 rest.1 more m e here))
    ]
  ]

  trace_events-length :
      (s : RunState) (events : List ExecutionEvent) (records : List TraceEvent) (final : RunState)
      → trace_events h milliseconds s events ≡ ok (records, final)
      → length records ≡ length events
  unfolding trace_events
  trace_events-length s [] records final t = ground arith
  trace_events-length s (x ∷ xs) records final t = elim (Result-cases (reduce h s x)) [
    | inr (y, refused) ↦ absurd (ground arith)
    | inl (next, step) ↦ elim (Result-cases (trace_events h milliseconds next xs)) [
      | inr (y, refused) ↦ absurd (ground arith)
      | inl (rest, more) ↦ ground (arith, trace_events-length next xs rest.0 rest.1 more)
    ]
  ]

  trace_events-replay :
      (s : RunState) (events : List ExecutionEvent) (records : List TraceEvent) (final : RunState)
      → trace_events h milliseconds s events ≡ ok (records, final)
      → replay_tail h s events ≡ ok final
  unfolding trace_events replay_tail
  trace_events-replay s [] records final t = ground arith
  trace_events-replay s (x ∷ xs) records final t = elim (Result-cases (reduce h s x)) [
    | inr (y, refused) ↦ absurd (ground arith)
    | inl (next, step) ↦ elim (Result-cases (trace_events h milliseconds next xs)) [
      | inr (y, refused) ↦ absurd (ground arith)
      | inl (rest, more) ↦ ground (arith, trace_events-replay next xs rest.0 rest.1 more)
    ]
  ]

  -- A trace has as many records as the log has events. The record at the place of an event has the
  -- event's sequence, id, type, time, fingerprint and payload digest, the status of the state that
  -- the events before it replay to, and the status of the state that these events and itself
  -- replay to; its metadata is the text of an object that has a field exactly where the payload
  -- has one under a visible name whose value is no list and no object, and then that value. The
  -- trace ends in the status, and counts the steps, of the state that the whole log replays to.
  pub build_run_trace_faithful :
      (run_id : String) (events : List ExecutionEvent) (trace : RunTrace)
      → build_run_trace h milliseconds run_id events ≡ ok trace
      → (n : ℕ) (e : ExecutionEvent) → get_elem? events n ≡ some e
      → (before : RunState) × (after : RunState) × (last : RunState) × (recorded : TraceEvent)
        × (replay h run_id (take n events) ≡ ok before)
        × (replay h run_id (take (suc n) events) ≡ ok after)
        × (replay h run_id events ≡ ok last)
        × (length trace.records ≡ length events)
        × (get_elem? trace.records n ≡ some recorded)
        × Describes h before after e recorded
        × (trace.final_status ≡ run_status_value last.status)
        × (trace.metrics.runtime_steps ≡ last.turn_index)
  unfolding build_run_trace replay
  build_run_trace_faithful run_id events trace built n e at = elim (Result-cases (initial run_id)) [
    | inr (y, refused) ↦ absurd (ground arith)
    | inl (s, start) ↦ elim (Result-cases (trace_events h milliseconds s events)) [
      | inr (y, refused) ↦ absurd (ground arith)
      | inl (traced, more) ↦
          let p = trace_events-Placed s events traced.0 traced.1 more n e at in
          let same : trace.records ≡ traced.0 = ground arith in
          (
            p.before,
            p.after,
            traced.1,
            trace_event h milliseconds p.before p.after e,
            rw start p.replayed_before,
            rw start p.replayed_after,
            rw start (trace_events-replay s events traced.0 traced.1 more),
            rw same (trace_events-length s events traced.0 traced.1 more),
            rw same p.placed,
            trace_event-Describes p.before p.after e,
            ground arith,
            ground arith,
          )
    ]
  ]
