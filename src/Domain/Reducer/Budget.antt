-- ===== src/Domain/Reducer/Budget.antt =====
-- The step budget of a run: `turn_index` and `max_steps`.
use agent_runtime_lab.Prelude.{ℕ, ◌≤◌, ◌<◌, String, ◌≡◌, Option, none, some, arith}
use agent_runtime_lab.Result.{ok}
use agent_runtime_lab.Json.{Fields}
use agent_runtime_lab.Domain.Event.{EventType, run_cancelled}
use agent_runtime_lab.Domain.State.{RunStatus, RunState, new}
use agent_runtime_lab.Domain.Reducer.Checks.{optional_positive_int, expect_model_budget_available}
use agent_runtime_lab.Domain.Reducer.{
  dispatch, on_run_cancelled, on_run_created, on_lifecycle, on_step_budget_exhausted,
  on_model_action_requested, on_model_action_proposed, on_model_action_failed, on_completion,
  on_tool_requested, on_tool_authorized, on_tool_escalated, on_gate_approved, on_gate_revised,
  on_gate_outcome, on_gate_evaluated, on_gate_rejected, on_tool_failure, on_tool_started,
  on_tool_succeeded, on_verification_succeeded, on_verification_failed,
}

abbrev pub AtMost : Option ℕ → ℕ → Type 0
AtMost none n = Unit
AtMost (some limit) n = n ≤ limit

abbrev pub Below : Option ℕ → ℕ → Type 0
Below none n = Unit
Below (some limit) n = n < limit

abbrev pub Positive : Option ℕ → Type 0
Positive none = Unit
Positive (some limit) = 1 ≤ limit

abbrev pub OpenStep : Option String → Option ℕ → ℕ → Type 0
OpenStep none limit n = Unit
OpenStep (some _) limit n = Below limit n

-- A run that is not created yet has no budget, no turn and no step.
abbrev pub Untouched : RunStatus → Option ℕ → ℕ → Option String → Type 0
Untouched new limit n step_id = (limit ≡ none) × (n ≡ 0) × (step_id ≡ none)
Untouched _ limit n step_id = Unit

-- What is known of the budget between two events: a step that is open still fits.
pub record IsBudgeted (s : RunState) : Type 0 where
  pub positive : Positive s.max_steps
  pub consumed : AtMost s.max_steps s.turn_index
  pub fits : OpenStep s.active_step_id s.max_steps s.turn_index
  pub unset : Untouched s.status s.max_steps s.turn_index s.active_step_id

pub dispatch-IsBudgeted :
    (t : EventType) (s : RunState) (event_id : String) (payload : Fields) {s' : RunState}
    → IsBudgeted s
    → dispatch t s event_id payload ≡ ok s'
    → IsBudgeted s'
unfolding dispatch on_run_cancelled on_run_created on_lifecycle on_step_budget_exhausted
    on_model_action_requested on_model_action_proposed on_model_action_failed on_completion
    on_tool_requested on_tool_authorized on_tool_escalated on_gate_approved on_gate_revised
    on_gate_outcome on_gate_evaluated on_gate_rejected on_tool_failure on_tool_started
    on_tool_succeeded on_verification_succeeded on_verification_failed expect_model_budget_available
    optional_positive_int
dispatch-IsBudgeted run_cancelled s event_id payload w h = ground arith
dispatch-IsBudgeted _ s event_id payload w h = ground arith
