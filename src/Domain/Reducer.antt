-- ===== src/Domain/Reducer.antt =====
-- src/agent_runtime_lab/domain/reducer.py: `_transition`, one handler for each event type, and
-- `reduce`.
pub mod Checks
pub mod Budget
pub mod Shape
pub mod Steps
pub mod Turns
pub mod Gates
pub mod Redelivery
use agent_runtime_lab.Prelude.{
  ℕ, ◌+◌, String, Bool, true, false, Option, none, some, List, [], ◌∷◌, ◌++◌, not, leb, ◌<>◌, holds,
  string_dec, option_dec, nat_dec, decimal, ◌||◌, if◌then◌else◌,
}
use agent_runtime_lab.Prelude.Int.{to_ℕ?}
use agent_runtime_lab.Result.{
  Result, ok, err, invalid_transition, run_mismatch, duplicate_event_conflict, terminal_state,
  sequence_mismatch, ◌>>=◌, ◌>>◌, guard, check,
}
use agent_runtime_lab.Json.{Json, str, Fields, get, Host}
use agent_runtime_lab.Domain.Event.{
  EventType, ExecutionEvent, fingerprint, run_created, run_started, run_paused, run_resumed,
  run_cancelled, run_step_budget_exhausted, model_action_requested, model_action_proposed,
  model_action_failed, completion_accepted, completion_rejected, tool_requested, tool_authorized,
  tool_escalated, tool_denied, gate_approved, gate_rejected, gate_evaluated, gate_revised,
  tool_started, tool_succeeded, tool_failed, tool_timed_out, verification_succeeded,
  verification_failed,
}
use agent_runtime_lab.Domain.State.{
  RunStatus, RunStatus-discrete, RunState, is_terminal, fingerprint_for, new, created, ready,
  model_pending, action_pending, tool_pending, awaiting_gate, tool_ready, tool_running, verifying,
  paused, completed, failed, cancelled,
}
use Checks.{
  expect, required_text, required_positive_int, required_int, optional_positive_int, optional_text,
  expect_active_tool, expect_model_budget_available, expect_pending_model_action,
  expect_pending_or_ready, expect_active_gate, expect_turn_index,
}

-- The five gate fields as most transitions leave them.
abbrev pub clear_gate : RunState → RunState
clear_gate s = record s {
  active_gate_proposal_digest = none;
  active_gate_revision = none;
  active_gate_mode = none;
  active_gate_attempts = 0;
  active_gate_max_attempts = none;
}

-- The state that a denied, rejected, blocked, failed or timed-out tool call leaves.
abbrev pub fail_tool : RunState → String → RunState
fail_tool s reason = record (clear_gate s) {
  status = failed;
  active_step_id = none;
  active_tool_call_id = none;
  failure_reason = some reason;
}

-- `f"step-{state.turn_index + 1}"`
abbrev pub next_step_id : RunState → String
next_step_id s = "step-" <> decimal (s.turn_index + 1)

unfoldable pub on_run_cancelled : RunState → Result RunState
on_run_cancelled s = ok (record (clear_gate s) {
  status = cancelled;
  active_step_id = none;
  active_model_invocation_id = none;
  active_model_action_event_id = none;
  active_tool_call_id = none;
  failure_reason = none;
})

unfoldable pub on_run_created : RunState → Fields → Result RunState
on_run_created s payload = do
  expect s new
  max_steps ← optional_positive_int payload "max_steps"
  ok (record s { status = created; max_steps = max_steps })

-- run.started, run.paused and run.resumed only move the status.
unfoldable pub on_lifecycle : RunState → RunStatus → RunStatus → Result RunState
on_lifecycle s from to = do expect s from; ok (record s { status = to })

unfoldable pub on_step_budget_exhausted : RunState → Fields → Result RunState
on_step_budget_exhausted s payload = do
  expect s ready
  max_steps ← required_positive_int payload "max_steps"
  completed_steps ← required_int payload "completed_steps"
  check (option_dec nat_dec (some max_steps) s.max_steps) invalid_transition
  check (option_dec nat_dec (to_ℕ? completed_steps) (some s.turn_index)) invalid_transition
  guard (leb max_steps s.turn_index) invalid_transition
  ok (record s {
    status = failed;
    failure_reason = some (
        "step budget exhausted: "
        <> decimal s.turn_index
        <> "/"
        <> decimal max_steps
        <> " steps consumed");
  })

unfoldable pub on_model_action_requested : RunState → Fields → Result RunState
on_model_action_requested s payload = do
  expect s ready
  expect_model_budget_available s
  step_id ← required_text payload "step_id"
  check (string_dec step_id (next_step_id s)) invalid_transition
  expect_turn_index s payload
  required_text payload "observation_json"
  invocation_id ← required_text payload "invocation_id"
  ok (record s {
    status = model_pending;
    active_step_id = some step_id;
    active_model_invocation_id = some invocation_id;
  })

abbrev pub expect_action_fields : Fields → String → Result (Unit {0})
expect_action_fields payload action_type =
    if holds (string_dec action_type "tool_call")
    then (do
      required_text payload "tool_call_id"
      required_text payload "tool_name"
      required_text payload "arguments_json"
      ok tt)
    else if holds (string_dec action_type "final_answer")
    then (do required_text payload "answer"; ok tt)
    else err invalid_transition

unfoldable pub on_model_action_proposed : RunState → String → Fields → Result RunState
on_model_action_proposed s event_id payload = do
  expect s model_pending
  invocation_id ← required_text payload "invocation_id"
  check (option_dec string_dec (some invocation_id) s.active_model_invocation_id) invalid_transition
  step_id ← required_text payload "step_id"
  check (option_dec string_dec (some step_id) s.active_step_id) invalid_transition
  expect_turn_index s payload
  action_type ← required_text payload "action_type"
  expect_action_fields payload action_type
  ok (record s { status = action_pending; active_model_action_event_id = some event_id })

unfoldable pub on_model_action_failed : RunState → Fields → Result RunState
on_model_action_failed s payload = do
  guard
      (holds (RunStatus-discrete s.status ready)
        || holds (RunStatus-discrete s.status model_pending))
      invalid_transition
  reason ← required_text payload "reason"
  ok (record s {
    status = failed;
    active_step_id = none;
    active_model_invocation_id = none;
    active_model_action_event_id = none;
    failure_reason = some reason;
  })

-- completion.accepted ends in `completed`, completion.rejected in `ready`.
unfoldable pub on_completion : RunState → Fields → RunStatus → Result RunState
on_completion s payload outcome = do
  expect_pending_or_ready s payload
  expect_model_budget_available s
  step_id ← required_text payload "step_id"
  check (string_dec step_id (next_step_id s)) invalid_transition
  required_text payload "answer_sha256"
  required_text payload "summary"
  ok (record s {
    status = outcome;
    turn_index = s.turn_index + 1;
    active_step_id = none;
    active_model_invocation_id = none;
    active_model_action_event_id = none;
  })

abbrev budget_for_step : RunState → Option String → Result (Unit {0})
budget_for_step s none = ok tt
budget_for_step s (some _) = expect_model_budget_available s

unfoldable pub on_tool_requested : RunState → Fields → Result RunState
on_tool_requested s payload = do
  expect_pending_or_ready s payload
  step_id ← optional_text payload "step_id"
  budget_for_step s step_id
  tool_call_id ← required_text payload "tool_call_id"
  ok (record s {
    status = tool_pending;
    active_step_id = step_id;
    active_model_invocation_id = none;
    active_model_action_event_id = none;
    active_tool_call_id = some tool_call_id;
  })

unfoldable pub on_tool_authorized : RunState → Fields → Result RunState
on_tool_authorized s payload = do
  expect s tool_pending
  expect_active_tool s payload
  ok (record s { status = tool_ready })

-- The attempt limit that an escalated or revised gate gets with its ownership mode.
unfoldable pub gate_max_attempts : Fields → String → Result (Option ℕ)
gate_max_attempts payload ownership_mode =
    if holds (string_dec ownership_mode "pair")
    then ok none
    else if holds (string_dec ownership_mode "user_gate")
    then (do max_attempts ← required_positive_int payload "max_attempts"; ok (some max_attempts))
    else err invalid_transition

unfoldable pub on_tool_escalated : RunState → Fields → Result RunState
on_tool_escalated s payload = do
  expect s tool_pending
  expect_active_tool s payload
  proposal_digest ← required_text payload "proposal_digest"
  revision ← required_positive_int payload "revision"
  ownership_mode ← required_text payload "ownership_mode"
  max_attempts ← gate_max_attempts payload ownership_mode
  ok (record s {
    status = awaiting_gate;
    active_gate_proposal_digest = some proposal_digest;
    active_gate_revision = some revision;
    active_gate_mode = some ownership_mode;
    active_gate_attempts = 0;
    active_gate_max_attempts = max_attempts;
  })

unfoldable pub on_gate_approved : RunState → Fields → Result RunState
on_gate_approved s payload = do
  expect s awaiting_gate
  expect_active_gate s payload
  check (option_dec string_dec s.active_gate_mode (some "pair")) invalid_transition
  ok (record (clear_gate s) { status = tool_ready })

unfoldable pub on_gate_revised : RunState → Fields → Result RunState
on_gate_revised s payload = do
  expect s awaiting_gate
  expect_active_tool s payload
  previous_proposal_digest ← required_text payload "previous_proposal_digest"
  previous_revision ← required_positive_int payload "previous_revision"
  check (option_dec string_dec (some previous_proposal_digest) s.active_gate_proposal_digest)
      invalid_transition
  check (option_dec nat_dec (some previous_revision) s.active_gate_revision) invalid_transition
  proposal_digest ← required_text payload "proposal_digest"
  revision ← required_positive_int payload "revision"
  check (nat_dec revision (previous_revision + 1)) invalid_transition
  guard (not (holds (string_dec proposal_digest previous_proposal_digest))) invalid_transition
  ownership_mode ← required_text payload "ownership_mode"
  max_attempts ← gate_max_attempts payload ownership_mode
  ok (record s {
    active_gate_proposal_digest = some proposal_digest;
    active_gate_revision = some revision;
    active_gate_mode = some ownership_mode;
    active_gate_attempts = 0;
    active_gate_max_attempts = max_attempts;
  })

-- What `outcome` of gate.evaluated does: retry, pass, block, or a refusal.
unfoldable pub on_gate_outcome : RunState → ℕ → ℕ → String → String → Result RunState
on_gate_outcome s attempt max_attempts outcome reason =
    if holds (string_dec outcome "retry")
    then (if leb max_attempts attempt
        then err invalid_transition
        else ok (record s { active_gate_attempts = attempt }))
    else if holds (string_dec outcome "pass")
    then ok (record (clear_gate s) { status = tool_ready })
    else if holds (string_dec outcome "block")
    then ok (fail_tool s reason)
    else err invalid_transition

unfoldable pub on_gate_evaluated : RunState → Fields → Result RunState
on_gate_evaluated s payload = do
  expect s awaiting_gate
  expect_active_gate s payload
  check (option_dec string_dec s.active_gate_mode (some "user_gate")) invalid_transition
  attempt ← required_positive_int payload "attempt"
  max_attempts ← required_positive_int payload "max_attempts"
  check (option_dec nat_dec (some max_attempts) s.active_gate_max_attempts) invalid_transition
  check (nat_dec attempt (s.active_gate_attempts + 1)) invalid_transition
  outcome ← required_text payload "outcome"
  reason ← required_text payload "reason"
  on_gate_outcome s attempt max_attempts outcome reason

unfoldable pub on_gate_rejected : RunState → Fields → Result RunState
on_gate_rejected s payload = do
  expect s awaiting_gate
  expect_active_gate s payload
  reason ← required_text payload "reason"
  ok (fail_tool s reason)

-- tool.denied fails a pending call; tool.failed and tool.timed_out fail a running one.
unfoldable pub on_tool_failure : RunState → Fields → RunStatus → Result RunState
on_tool_failure s payload from = do
  expect s from
  expect_active_tool s payload
  reason ← required_text payload "reason"
  ok (fail_tool s reason)

unfoldable pub on_tool_started : RunState → Fields → Result RunState
on_tool_started s payload = do
  expect s tool_ready
  expect_active_tool s payload
  ok (record s { status = tool_running })

unfoldable pub on_tool_succeeded : RunState → Fields → Result RunState
on_tool_succeeded s payload = do
  expect s tool_running
  expect_active_tool s payload
  ok (record (clear_gate s) { status = verifying; active_tool_call_id = none })

-- `payload.get("scope", "run")`, where it is a string.
abbrev pub scope_of : Option Json → Option String
scope_of none = some "run"
scope_of (some (str scope)) = some scope
scope_of (some _) = none

unfoldable pub on_verification_succeeded : RunState → Fields → Result RunState
on_verification_succeeded s payload = do
  expect s verifying
  if holds (option_dec string_dec (scope_of (get "scope" payload)) (some "run"))
      then ok (record s { status = completed; active_step_id = none })
      else if holds (option_dec string_dec (scope_of (get "scope" payload)) (some "step"))
      then (do
        step_id ← required_text payload "step_id"
        check (option_dec string_dec (some step_id) s.active_step_id) invalid_transition
        ok (record s { status = ready; turn_index = s.turn_index + 1; active_step_id = none }))
      else err invalid_transition

unfoldable pub on_verification_failed : RunState → Fields → Result RunState
on_verification_failed s payload = do
  expect s verifying
  reason ← required_text payload "reason"
  ok (record s { status = failed; active_step_id = none; failure_reason = some reason })

-- The chain of `if event.event_type is ...`: one clause for each type.
unfoldable pub dispatch : EventType → RunState → String → Fields → Result RunState
dispatch run_cancelled s event_id payload = on_run_cancelled s
dispatch run_created s event_id payload = on_run_created s payload
dispatch run_started s event_id payload = on_lifecycle s created ready
dispatch run_paused s event_id payload = on_lifecycle s ready paused
dispatch run_resumed s event_id payload = on_lifecycle s paused ready
dispatch run_step_budget_exhausted s event_id payload = on_step_budget_exhausted s payload
dispatch model_action_requested s event_id payload = on_model_action_requested s payload
dispatch model_action_proposed s event_id payload = on_model_action_proposed s event_id payload
dispatch model_action_failed s event_id payload = on_model_action_failed s payload
dispatch completion_accepted s event_id payload = on_completion s payload completed
dispatch completion_rejected s event_id payload = on_completion s payload ready
dispatch tool_requested s event_id payload = on_tool_requested s payload
dispatch tool_authorized s event_id payload = on_tool_authorized s payload
dispatch tool_escalated s event_id payload = on_tool_escalated s payload
dispatch gate_approved s event_id payload = on_gate_approved s payload
dispatch gate_revised s event_id payload = on_gate_revised s payload
dispatch gate_evaluated s event_id payload = on_gate_evaluated s payload
dispatch gate_rejected s event_id payload = on_gate_rejected s payload
dispatch tool_denied s event_id payload = on_tool_failure s payload tool_pending
dispatch tool_started s event_id payload = on_tool_started s payload
dispatch tool_succeeded s event_id payload = on_tool_succeeded s payload
dispatch tool_failed s event_id payload = on_tool_failure s payload tool_running
dispatch tool_timed_out s event_id payload = on_tool_failure s payload tool_running
dispatch verification_succeeded s event_id payload = on_verification_succeeded s payload
dispatch verification_failed s event_id payload = on_verification_failed s payload

abbrev pub transition : RunState → ExecutionEvent → Result RunState
transition s e = dispatch e.event_type s e.event_id e.payload

module _ (h : Host) where
  -- A new event: refused in a terminal state or out of sequence, else applied and recorded.
  unfoldable pub apply_new : RunState → ExecutionEvent → Result RunState
  apply_new s e = do
    guard (not (is_terminal s)) terminal_state
    check (nat_dec e.sequence s.next_sequence) sequence_mismatch
    t ← transition s e
    ok (record t {
      next_sequence = s.next_sequence + 1;
      applied_event_fingerprints =
          s.applied_event_fingerprints ++ (e.event_id, fingerprint h e) ∷ [];
    })

  -- A known event id: an exact redelivery changes nothing, other content is refused.
  unfoldable pub redeliver : RunState → ExecutionEvent → String → Result RunState
  redeliver s e existing =
      if holds (string_dec existing (fingerprint h e)) then ok s else err duplicate_event_conflict

  unfoldable pub reduce_known : RunState → ExecutionEvent → Option String → Result RunState
  unfolding apply_new redeliver
  reduce_known s e none = apply_new s e
  reduce_known s e (some existing) = redeliver s e existing

  unfoldable pub reduce : RunState → ExecutionEvent → Result RunState
  unfolding reduce_known
  reduce s e = do
    check (string_dec e.run_id s.run_id) run_mismatch
    reduce_known s e (fingerprint_for s e.event_id)
