-- ===== src/Domain/Tests.antt =====
-- Runs of src/agent_runtime_lab/domain/reducer.py and replay.py on sample logs, with a `Host` that
-- keeps the first text of an object only.
use agent_runtime_lab.Prelude.{
  ℕ, ◌+◌, ◌≤◌, String, ◌≡◌, ◌≢◌, refl, false, none, some, List, [], ◌∷◌, ◌++◌, holds, string_dec,
  option_dec, nat_dec, arith,
}
use agent_runtime_lab.Prelude.Int.{pos}
use agent_runtime_lab.Result.{ok}
use agent_runtime_lab.Json.{Json, Fields, str, int, dict, field, no_fields, get, Host}
use agent_runtime_lab.Domain.Event.{
  EventType, ExecutionEvent, fingerprint, run_created, run_started, tool_requested, tool_authorized,
  tool_escalated, gate_evaluated, gate_revised,
}
use agent_runtime_lab.Domain.State.{
  RunState, RunStatus, RunStatus-discrete, initial, initial_state, fingerprint_in, tool_ready,
  awaiting_gate, cancelled,
}
use agent_runtime_lab.Domain.Reducer.Checks.{
  required_text, required_positive_int, optional_positive_int, optional_text, expect_active_tool,
  expect_pending_or_ready, expect_active_gate, expect_model_budget_available,
}
use agent_runtime_lab.Domain.Reducer.{
  dispatch, reduce, on_run_created, on_lifecycle, on_tool_requested, on_tool_authorized,
  on_tool_escalated, gate_max_attempts, on_gate_evaluated, on_gate_outcome, on_gate_revised,
}
use agent_runtime_lab.Domain.Reducer.Budget.{IsBudgeted}
use agent_runtime_lab.Domain.Reducer.Shape.{HasShape, HasGateTerms}
use agent_runtime_lab.Domain.Reducer.Gates.{user_gate_needs_pass, gate_revised_advances, room}
use agent_runtime_lab.Domain.Reducer.Redelivery.{reduce_redelivery, reduce_terminal}
use agent_runtime_lab.Domain.Replay.{replay, replay_tail}
use agent_runtime_lab.Domain.Replay.Deliveries.{first_deliveries, replay-first_deliveries}
use agent_runtime_lab.Domain.Replay.Invariants.{
  replay-IsBudgeted, replay-HasShape, replay-HasGateTerms,
}
use agent_runtime_lab.Domain.Replay.Log.{replay-numbered, LogOf, Distinct}
use agent_runtime_lab.Domain.Replay.Permits.{replay_permitted, replay_tail_attempts, PermitIn}

abbrev text_of : Json → String
text_of (dict (field name (str text) rest)) = text
text_of _ = ""

abbrev host : Host
host = record {
  dumps = text_of;
  loads = λ text. some (dict (field "text" (str text) no_fields));
  sha256 = λ text. text;
  isoformat = λ _. "";
  fromisoformat = λ _. none;
}

abbrev event : ℕ → String → EventType → Fields → ExecutionEvent
event n event_id event_type payload = record {
  event_id = event_id;
  run_id = "run";
  sequence = n;
  event_type = event_type;
  occurred_at = record { instant = 0; utcoffset = some (pos 0) };
  payload = payload;
}

abbrev call_fields : Fields → Fields
call_fields rest = field "tool_call_id" (str "call") rest

abbrev gate_fields : Fields → Fields
gate_fields rest =
    call_fields (field "proposal_digest" (str "digest") (field "revision" (int (pos 1)) rest))

abbrev created : ExecutionEvent
created = event 0 "a" run_created (field "max_steps" (int (pos 3)) no_fields)

abbrev started : ExecutionEvent
started = event 1 "b" run_started no_fields

abbrev requested : ExecutionEvent
requested = event 2 "c" tool_requested (call_fields (field "step_id" (str "step-1") no_fields))

abbrev authorized : ExecutionEvent
authorized = event 3 "d" tool_authorized (call_fields no_fields)

abbrev escalated : ExecutionEvent
escalated = event 3 "e" tool_escalated (
    gate_fields
      (field "ownership_mode" (str "user_gate") (field "max_attempts" (int (pos 2)) no_fields)))

abbrev answer : ℕ → String → Fields
answer attempt outcome = gate_fields (
    field "attempt" (int (pos attempt)) (
      field "max_attempts" (int (pos 2))
        (field "outcome" (str outcome) (field "reason" (str "checked") no_fields))))

abbrev retried : ExecutionEvent
retried = event 4 "f" gate_evaluated (answer 1 "retry")

abbrev passed : ExecutionEvent
passed = event 5 "g" gate_evaluated (answer 2 "pass")

abbrev revised : Fields
revised = call_fields (
    field "previous_proposal_digest" (str "digest") (
      field "previous_revision" (int (pos 1)) (
        field "proposal_digest" (str "other")
          (field "revision" (int (pos 2)) (field "ownership_mode" (str "pair") no_fields)))))

abbrev prefix : List ExecutionEvent
prefix = created ∷ started ∷ requested ∷ []

abbrev authorized_log : List ExecutionEvent
authorized_log = prefix ++ authorized ∷ []

abbrev gated_log : List ExecutionEvent
gated_log = prefix ++ escalated ∷ []

-- The state of a run whose first call is in `status`, after events with these ids.
abbrev called : RunStatus → ℕ → List (String × String) → RunState
called status n applied = record (initial_state "run") {
  status = status;
  next_sequence = n;
  max_steps = some 3;
  active_step_id = some "step-1";
  active_tool_call_id = some "call";
  applied_event_fingerprints = applied;
}

abbrev applied_prefix : List (String × String)
applied_prefix = ("a", "a") ∷ ("b", "b") ∷ ("c", "c") ∷ []

abbrev authorized_state : RunState
authorized_state = called tool_ready 4 (applied_prefix ++ ("d", "d") ∷ [])

abbrev gated_state : RunState
gated_state = record (called awaiting_gate 4 (applied_prefix ++ ("e", "e") ∷ [])) {
  active_gate_proposal_digest = some "digest";
  active_gate_revision = some 1;
  active_gate_mode = some "user_gate";
  active_gate_max_attempts = some 2;
}

authorized_log_replays : replay host "run" authorized_log ≡ ok authorized_state
unfolding replay replay_tail initial reduce fingerprint dispatch on_run_created on_lifecycle
    on_tool_requested on_tool_authorized required_text required_positive_int optional_positive_int
    optional_text expect_active_tool expect_pending_or_ready expect_model_budget_available get
    string_dec option_dec nat_dec RunStatus-discrete fingerprint_in
authorized_log_replays = refl

gated_log_replays : replay host "run" gated_log ≡ ok gated_state
unfolding replay replay_tail initial reduce fingerprint dispatch on_run_created on_lifecycle
    on_tool_requested on_tool_escalated gate_max_attempts required_text required_positive_int
    optional_positive_int optional_text expect_active_tool expect_pending_or_ready
    expect_model_budget_available get string_dec option_dec nat_dec RunStatus-discrete
    fingerprint_in
gated_log_replays = refl

-- The witnesses.
replay-IsBudgeted_example : IsBudgeted authorized_state
replay-IsBudgeted_example = replay-IsBudgeted host "run" authorized_log authorized_log_replays

replay-HasShape_example : HasShape gated_state
replay-HasShape_example = replay-HasShape host "run" gated_log gated_log_replays

replay-HasGateTerms_example : HasGateTerms gated_state
replay-HasGateTerms_example = replay-HasGateTerms host "run" gated_log gated_log_replays

replay_permitted_example : PermitIn "call" authorized_log
replay_permitted_example =
    replay_permitted host "run" authorized_log authorized_state "call" authorized_log_replays refl
      refl

differ : (s t : String) → holds (string_dec s t) ≡ false → s ≢ t
differ s t h = ground arith

authorized_log-Distinct : Distinct authorized_log
unfolding string_dec
authorized_log-Distinct = (
  (differ "b" "a" refl, (differ "c" "a" refl, (differ "d" "a" refl, tt))),
  ((differ "c" "b" refl, (differ "d" "b" refl, tt)), ((differ "d" "c" refl, tt), (tt, tt))),
)

replay-numbered_example : LogOf host (initial_state "run") authorized_log authorized_state
replay-numbered_example =
    replay-numbered host "run" authorized_log authorized_state authorized_log-Distinct
      authorized_log_replays

-- The gate is passed by the second of its two attempts.
abbrev passed_state : RunState
passed_state = called tool_ready 6 (applied_prefix ++ ("e", "e") ∷ ("f", "f") ∷ ("g", "g") ∷ [])

answers_replay : replay_tail host gated_state (retried ∷ passed ∷ []) ≡ ok passed_state
unfolding replay_tail reduce fingerprint dispatch on_gate_evaluated on_gate_outcome required_text
    required_positive_int expect_active_gate get string_dec option_dec nat_dec RunStatus-discrete
    fingerprint_in
answers_replay = refl

replay_tail_attempts_example :
    passed_state.next_sequence + room passed_state ≤ gated_state.next_sequence + room gated_state
replay_tail_attempts_example =
    replay_tail_attempts host gated_state (retried ∷ passed ∷ []) passed_state
      (replay-HasGateTerms host "run" gated_log gated_log_replays) (refl, (refl, tt)) answers_replay

abbrev opened_state : RunState
opened_state = called tool_ready 4 (applied_prefix ++ ("e", "e") ∷ [])

answer_opens :
    dispatch gate_evaluated (record gated_state { active_gate_attempts = 1 }) "g" (answer 2 "pass")
    ≡ ok opened_state
unfolding dispatch on_gate_evaluated on_gate_outcome required_text required_positive_int
    expect_active_gate get string_dec option_dec nat_dec RunStatus-discrete
answer_opens = refl

user_gate_needs_pass_example :
    (gate_evaluated ≡ gate_evaluated)
    × (required_text (answer 2 "pass") "outcome" ≡ ok "pass")
    × (required_text (answer 2 "pass") "tool_call_id" ≡ ok "call")
    × (required_text (answer 2 "pass") "proposal_digest" ≡ ok "digest")
    × (required_positive_int (answer 2 "pass") "revision" ≡ ok 1)
user_gate_needs_pass_example =
    user_gate_needs_pass (record gated_state { active_gate_attempts = 1 }) "g" (answer 2 "pass")
      gate_evaluated opened_state "call" "digest" 1 refl refl refl refl refl answer_opens refl

abbrev revised_state : RunState
revised_state = record gated_state {
  active_gate_proposal_digest = some "other";
  active_gate_revision = some 2;
  active_gate_mode = some "pair";
  active_gate_max_attempts = none;
}

revision_accepted : dispatch gate_revised gated_state "f" revised ≡ ok revised_state
unfolding dispatch on_gate_revised gate_max_attempts required_text required_positive_int
    expect_active_tool get string_dec option_dec nat_dec RunStatus-discrete
revision_accepted = refl

gate_revised_advances_example :
    (revised_state.active_gate_revision ≡ some (1 + 1))
    × ¬ (revised_state.active_gate_proposal_digest ≡ some "digest")
    × (revised_state.active_gate_attempts ≡ 0)
    × (revised_state.status ≡ awaiting_gate)
    × (revised_state.active_tool_call_id ≡ gated_state.active_tool_call_id)
gate_revised_advances_example =
    gate_revised_advances gated_state "f" revised revised_state "digest" 1 refl refl
      revision_accepted

retry_accepted :
    reduce host gated_state retried
    ≡ ok (record gated_state {
      next_sequence = 5;
      active_gate_attempts = 1;
      applied_event_fingerprints = applied_prefix ++ ("e", "e") ∷ ("f", "f") ∷ [];
    })
unfolding reduce fingerprint dispatch on_gate_evaluated on_gate_outcome required_text
    required_positive_int expect_active_gate get string_dec option_dec nat_dec RunStatus-discrete
    fingerprint_in
retry_accepted = refl

abbrev retried_state : RunState
retried_state = record gated_state {
  next_sequence = 5;
  active_gate_attempts = 1;
  applied_event_fingerprints = applied_prefix ++ ("e", "e") ∷ ("f", "f") ∷ [];
}

reduce_redelivery_example : reduce host retried_state retried ≡ ok retried_state
reduce_redelivery_example = reduce_redelivery host gated_state retried retry_accepted

-- The log, with its first event delivered again at its end.
abbrev redelivered_log : List ExecutionEvent
redelivered_log = authorized_log ++ created ∷ []

redelivered_log_replays : replay host "run" redelivered_log ≡ ok authorized_state
unfolding replay replay_tail initial reduce fingerprint dispatch on_run_created on_lifecycle
    on_tool_requested on_tool_authorized required_text required_positive_int optional_positive_int
    optional_text expect_active_tool expect_pending_or_ready expect_model_budget_available get
    string_dec option_dec nat_dec RunStatus-discrete fingerprint_in
redelivered_log_replays = refl

replay-first_deliveries_example :
    (replay host "run" (first_deliveries [] redelivered_log) ≡ ok authorized_state)
    × LogOf host (initial_state "run") (first_deliveries [] redelivered_log) authorized_state
replay-first_deliveries_example =
    replay-first_deliveries host "run" redelivered_log authorized_state redelivered_log_replays

abbrev ended : RunState
ended = record authorized_state { status = cancelled }

ended_redelivery : reduce host ended authorized ≡ ok ended
unfolding reduce fingerprint string_dec fingerprint_in
ended_redelivery = refl

reduce_terminal_example : ended ≡ ended
reduce_terminal_example = reduce_terminal host ended authorized refl ended_redelivery
