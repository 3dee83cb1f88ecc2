-- ===== src/Domain/Reducer/Turns.antt =====
-- How far a run has come: the turns that it has consumed of its step budget.
use agent_runtime_lab.Prelude.{
  ℕ, ◌+◌, ◌≤◌, String, Bool, ◌≡◌, true, false, some, Option, refl, holds, option_dec, string_dec,
  arith,
}
use agent_runtime_lab.Result.{ok}
use agent_runtime_lab.Json.{Fields, get}
use agent_runtime_lab.Domain.Event.{
  EventType, run_cancelled, completion_accepted, completion_rejected, verification_succeeded,
}
use agent_runtime_lab.Domain.State.{RunStatus, RunState, new}
use agent_runtime_lab.Domain.Reducer.{
  dispatch, on_run_cancelled, on_run_created, on_lifecycle, on_step_budget_exhausted,
  on_model_action_requested, on_model_action_proposed, on_model_action_failed, on_completion,
  on_tool_requested, on_tool_authorized, on_tool_escalated, on_gate_approved, on_gate_revised,
  on_gate_outcome, on_gate_evaluated, on_gate_rejected, on_tool_failure, on_tool_started,
  on_tool_succeeded, on_verification_succeeded, on_verification_failed, scope_of,
}

abbrev pub is_new : RunStatus → Bool
is_new new = true
is_new _ = false

-- A created run with this limit has consumed at least `n` turns.
pub record HasReached (limit n : ℕ) (s : RunState) : Type 0 where
  pub exists : is_new s.status ≡ false
  pub limited : s.max_steps ≡ some limit
  pub reached : n ≤ s.turn_index

pub dispatch-HasReached :
    (limit n : ℕ) (t : EventType) (s : RunState) (event_id : String) (payload : Fields)
    {s' : RunState}
    → HasReached limit n s
    → dispatch t s event_id payload ≡ ok s'
    → HasReached limit n s'
unfolding dispatch on_run_cancelled on_run_created on_lifecycle on_step_budget_exhausted
    on_model_action_requested on_model_action_proposed on_model_action_failed on_completion
    on_tool_requested on_tool_authorized on_tool_escalated on_gate_approved on_gate_revised
    on_gate_outcome on_gate_evaluated on_gate_rejected on_tool_failure on_tool_started
    on_tool_succeeded on_verification_succeeded on_verification_failed
dispatch-HasReached limit n run_cancelled s event_id payload w h = ground arith
dispatch-HasReached limit n _ s event_id payload w h = ground arith

-- The event ends the turn of a step: an answer that was judged, or a step that was verified.
abbrev pub EndsTurn : EventType → Fields → Type 0
EndsTurn completion_accepted payload = Unit
EndsTurn completion_rejected payload = Unit
EndsTurn verification_succeeded payload = scope_of (get "scope" payload) ≡ some "step"
EndsTurn _ payload = ⊥

step_scope :
    (scope : Option String)
    → scope ≡ some "step"
    → (holds (option_dec string_dec scope (some "run")) ≡ false)
      × (holds (option_dec string_dec scope (some "step")) ≡ true)
unfolding string_dec option_dec
step_scope scope is = rw is (refl, refl)

pub dispatch-EndsTurn :
    (limit n : ℕ) (t : EventType) (s : RunState) (event_id : String) (payload : Fields)
    {s' : RunState}
    → EndsTurn t payload
    → HasReached limit n s
    → dispatch t s event_id payload ≡ ok s'
    → HasReached limit (n + 1) s'
unfolding dispatch on_completion on_verification_succeeded
dispatch-EndsTurn limit n completion_accepted s event_id payload t w h = ground arith
dispatch-EndsTurn limit n completion_rejected s event_id payload t w h = ground arith
dispatch-EndsTurn limit n verification_succeeded s event_id payload t w h =
    let (run, step) = step_scope (scope_of (get "scope" payload)) t in ground (arith, run, step)
dispatch-EndsTurn limit n _ s event_id payload t w h = absurd t
