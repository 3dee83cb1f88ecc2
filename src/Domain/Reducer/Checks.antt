-- ===== src/Domain/Reducer/Checks.antt =====
-- The guards of src/agent_runtime_lab/domain/reducer.py: `_expect`, `_required_text` and the
-- others. Each raises InvalidTransitionError where its condition fails.
use agent_runtime_lab.Prelude.{
  ℕ, ◌≤◌, String, Bool, true, Option, none, some, not, ltb, leb, holds, string_dec, option_dec,
  nat_dec, is_empty, arith, if◌then◌else◌,
}
use agent_runtime_lab.Prelude.Int.{ℤ, pos}
use agent_runtime_lab.Result.{
  Result, ok, err, invalid_transition, ◌>>=◌, ◌>>◌, guard, check, Ensures,
}
use agent_runtime_lab.Json.{Json, null, int, str, Fields, get, equals_int}
use agent_runtime_lab.Domain.State.{RunStatus, RunStatus-discrete, RunState, action_pending, ready}

-- `_expect(state, expected, event)`
abbrev pub expect : RunState → RunStatus → Result (Unit {0})
expect s expected = check (RunStatus-discrete s.status expected) invalid_transition

abbrev text_value : Option Json → Result String
text_value (some (str value)) = if is_empty value then err invalid_transition else ok value
text_value _ = err invalid_transition

-- `_required_text(event, field)`
unfoldable pub required_text : Fields → String → Result String
required_text payload name = text_value (get name payload)

abbrev positive_value : Option Json → Result ℕ
positive_value (some (int (pos n))) = if ltb n 1 then err invalid_transition else ok n
positive_value _ = err invalid_transition

-- `_required_positive_int(event, field)`: a `bool` is no integer here.
unfoldable pub required_positive_int : Fields → String → Result ℕ
required_positive_int payload name = positive_value (get name payload)

pub required_positive_int-pos :
    (payload : Fields) (name : String) → Ensures (λ n. 1 ≤ n) (required_positive_int payload name)
unfolding required_positive_int
required_positive_int-pos payload name = ground arith

abbrev integer_value : Option Json → Result ℤ
integer_value (some (int n)) = ok n
integer_value _ = err invalid_transition

-- `completed_steps` of run.step_budget_exhausted: an `int` and no `bool`.
unfoldable pub required_int : Fields → String → Result ℤ
required_int payload name = integer_value (get name payload)

abbrev absent_or_positive : Fields → String → Option Json → Result (Option ℕ)
absent_or_positive payload name none = ok none
absent_or_positive payload name (some null) = ok none
absent_or_positive payload name (some _) = do n ← required_positive_int payload name; ok (some n)

-- `max_steps` of run.created: None, or a positive integer.
unfoldable pub optional_positive_int : Fields → String → Result (Option ℕ)
unfolding required_positive_int
optional_positive_int payload name = absent_or_positive payload name (get name payload)

abbrev absent_or_text : Option Json → Result (Option String)
absent_or_text none = ok none
absent_or_text (some null) = ok none
absent_or_text (some (str value)) =
    if is_empty value then err invalid_transition else ok (some value)
absent_or_text (some _) = err invalid_transition

-- `step_id` of tool.requested: None, or a non-empty string.
unfoldable pub optional_text : Fields → String → Result (Option String)
optional_text payload name = absent_or_text (get name payload)

-- `_expect_active_tool(state, event)`
unfoldable pub expect_active_tool : RunState → Fields → Result (Unit {0})
expect_active_tool s payload = do
  tool_call_id ← required_text payload "tool_call_id"
  check (option_dec string_dec (some tool_call_id) s.active_tool_call_id) invalid_transition

abbrev within_budget : Option ℕ → ℕ → Bool
within_budget none turn_index = true
within_budget (some max_steps) turn_index = not (leb max_steps turn_index)

-- `_expect_model_budget_available(state, event)`
unfoldable pub expect_model_budget_available : RunState → Result (Unit {0})
expect_model_budget_available s = guard (within_budget s.max_steps s.turn_index) invalid_transition

-- `_expect_pending_model_action(state, event)`
unfoldable pub expect_pending_model_action : RunState → Fields → Result (Unit {0})
expect_pending_model_action s payload = do
  action_event_id ← required_text payload "model_action_event_id"
  check (option_dec string_dec (some action_event_id) s.active_model_action_event_id)
      invalid_transition

-- The first test of completion.accepted, completion.rejected and tool.requested.
unfoldable pub expect_pending_or_ready : RunState → Fields → Result (Unit {0})
expect_pending_or_ready s payload =
    if holds (RunStatus-discrete s.status action_pending)
    then expect_pending_model_action s payload
    else expect s ready

-- `_expect_active_gate(state, event)`
unfoldable pub expect_active_gate : RunState → Fields → Result (Unit {0})
unfolding expect_active_tool
expect_active_gate s payload = do
  expect_active_tool s payload
  proposal_digest ← required_text payload "proposal_digest"
  revision ← required_positive_int payload "revision"
  check (option_dec string_dec (some proposal_digest) s.active_gate_proposal_digest)
      invalid_transition
  check (option_dec nat_dec (some revision) s.active_gate_revision) invalid_transition

-- `payload.get("turn_index") != state.turn_index` of model.action_requested.
abbrev pub expect_turn_index : RunState → Fields → Result (Unit {0})
expect_turn_index s payload =
    guard (equals_int (get "turn_index" payload) s.turn_index) invalid_transition
