-- ===== src/Domain/State.antt =====
-- src/agent_runtime_lab/domain/state.py: the run state that the reducer derives from events.
use agent_runtime_lab.Prelude.{
  ℕ, leb, String, ◌≡◌, refl, Bool, true, false, Option, none, some, List, [], ◌∷◌, not, holds,
  string_dec, nat_dec, is_empty, if◌then◌else◌,
}
use agent_runtime_lab.Result.{Result, ok, event_validation, ◌>>◌, guard}

pub data RunStatus : Type 0 where
  new created ready model_pending action_pending tool_pending awaiting_gate : RunStatus
  tool_ready tool_running verifying paused completed failed cancelled : RunStatus

unfoldable pub RunStatus-discrete : Discrete RunStatus
RunStatus-discrete = hlevel

-- `status.value`
unfoldable pub run_status_value : RunStatus → String
run_status_value new = "new"
run_status_value created = "created"
run_status_value ready = "ready"
run_status_value model_pending = "model_pending"
run_status_value action_pending = "action_pending"
run_status_value tool_pending = "tool_pending"
run_status_value awaiting_gate = "awaiting_gate"
run_status_value tool_ready = "tool_ready"
run_status_value tool_running = "tool_running"
run_status_value verifying = "verifying"
run_status_value paused = "paused"
run_status_value completed = "completed"
run_status_value failed = "failed"
run_status_value cancelled = "cancelled"

abbrev all_run_statuses : List RunStatus
all_run_statuses =
    new ∷ created ∷ ready ∷ model_pending ∷ action_pending ∷ tool_pending ∷ awaiting_gate
    ∷ tool_ready ∷ tool_running ∷ verifying ∷ paused ∷ completed ∷ failed ∷ cancelled ∷ []

status_with_value : String → List RunStatus → Option RunStatus
unfolding run_status_value
status_with_value value [] = none
status_with_value value (status ∷ rest) =
    let found = status_with_value value rest in
    if holds (string_dec (run_status_value status) value) then some status else found

-- `RunStatus(value)`: `none` is ValueError.
unfoldable pub run_status_of : String → Option RunStatus
unfolding status_with_value
run_status_of value = status_with_value value all_run_statuses

-- Every status is read back from its value.
pub run_status_of-run_status_value :
    (status : RunStatus) → run_status_of (run_status_value status) ≡ some status
unfolding run_status_of string_dec
run_status_of-run_status_value new = refl
run_status_of-run_status_value _ = refl

-- `status in TERMINAL_STATUSES`
abbrev pub is_terminal_status : RunStatus → Bool
is_terminal_status completed = true
is_terminal_status failed = true
is_terminal_status cancelled = true
is_terminal_status _ = false

pub record RunState : Type 0 where
  pub run_id : String
  pub status : RunStatus
  pub next_sequence : ℕ
  pub turn_index : ℕ
  pub max_steps : Option ℕ
  pub active_step_id : Option String
  pub active_model_invocation_id : Option String
  pub active_model_action_event_id : Option String
  pub active_tool_call_id : Option String
  pub active_gate_proposal_digest : Option String
  pub active_gate_revision : Option ℕ
  pub active_gate_mode : Option String
  pub active_gate_attempts : ℕ
  pub active_gate_max_attempts : Option ℕ
  pub failure_reason : Option String
  pub applied_event_fingerprints : List (String × String)

-- `==` of two states
unfoldable pub RunState-discrete : Discrete RunState
RunState-discrete = hlevel (string_dec, nat_dec)

abbrev pub initial_state : String → RunState
initial_state run_id = record {
  run_id = run_id;
  status = new;
  next_sequence = 0;
  turn_index = 0;
  max_steps = none;
  active_step_id = none;
  active_model_invocation_id = none;
  active_model_action_event_id = none;
  active_tool_call_id = none;
  active_gate_proposal_digest = none;
  active_gate_revision = none;
  active_gate_mode = none;
  active_gate_attempts = 0;
  active_gate_max_attempts = none;
  failure_reason = none;
  applied_event_fingerprints = [];
}

abbrev pub positive_limit : Option ℕ → Bool
positive_limit none = true
positive_limit (some limit) = leb 1 limit

-- `RunState(...)`, with the checks of `__post_init__` that the types leave open
unfoldable pub run_state : RunState → Result RunState
run_state s = do
  guard (not (is_empty s.run_id)) event_validation
  guard (positive_limit s.max_steps) event_validation
  ok s

-- `RunState.initial(run_id)`: of the checks of `__post_init__` only the first can fail here.
unfoldable pub initial : String → Result RunState
initial run_id = do guard (not (is_empty run_id)) event_validation; ok (initial_state run_id)

abbrev pub is_terminal : RunState → Bool
is_terminal s = is_terminal_status s.status

-- The loop of `fingerprint_for`, over the pairs that are left.
unfoldable pub fingerprint_in : String → List (String × String) → Option String
fingerprint_in event_id [] = none
fingerprint_in event_id ((applied, fingerprint) ∷ rest) =
    let found = fingerprint_in event_id rest in
    if holds (string_dec applied event_id) then some fingerprint else found

abbrev pub fingerprint_for : RunState → String → Option String
fingerprint_for s event_id = fingerprint_in event_id s.applied_event_fingerprints
