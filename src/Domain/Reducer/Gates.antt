-- ===== src/Domain/Reducer/Gates.antt =====
-- What opens a gate, and how often a USER_GATE can be tried (domain/reducer.py).
use text.Mathlib.TextEquality.{eq_iff}
use agent_runtime_lab.Prelude.{
  ℕ, ◌+◌, ◌-◌, ◌≤◌, String, ◌≡◌, ◌⊎◌, Bool, true, false, Option, some, arith,
}
use agent_runtime_lab.Result.{ok}
use agent_runtime_lab.Json.{Fields}
use agent_runtime_lab.Domain.Event.{
  EventType, run_cancelled, tool_authorized, gate_approved, gate_evaluated, gate_revised,
}
use agent_runtime_lab.Domain.State.{RunStatus, RunState, awaiting_gate, tool_ready, tool_running}
use agent_runtime_lab.Domain.Reducer.Checks.{
  required_text, required_positive_int, expect_active_gate,
}
use agent_runtime_lab.Domain.Reducer.{
  dispatch, on_run_cancelled, on_run_created, on_lifecycle, on_step_budget_exhausted,
  on_model_action_requested, on_model_action_proposed, on_model_action_failed, on_completion,
  on_tool_requested, on_tool_authorized, on_tool_escalated, on_gate_approved, on_gate_revised,
  on_gate_outcome, on_gate_evaluated, on_gate_rejected, on_tool_failure, on_tool_started,
  on_tool_succeeded, on_verification_succeeded, on_verification_failed,
}
use agent_runtime_lab.Domain.Reducer.Shape.{HasGateTerms}

-- The statuses in which the active tool call may run.
abbrev pub may_run : RunStatus → Bool
may_run tool_ready = true
may_run tool_running = true
may_run _ = false

-- The event permits the tool call: an authorization, a gate approval, or a passed gate.
abbrev pub Permits : EventType → Fields → Type 0
Permits tool_authorized payload = Unit
Permits gate_approved payload = Unit
Permits gate_evaluated payload = required_text payload "outcome" ≡ ok "pass"
Permits _ payload = ⊥

module _ (s : RunState) (event_id : String) (payload : Fields) where
  -- Only a permit for the active call makes it runnable.
  pub dispatch-Permits :
      (t : EventType) (s' : RunState) (call : String)
      → dispatch t s event_id payload ≡ ok s'
      → may_run s'.status ≡ true
      → s'.active_tool_call_id ≡ some call
      → (Permits t payload × (required_text payload "tool_call_id" ≡ ok call))
        ⊎ ((may_run s.status ≡ true) × (s.active_tool_call_id ≡ some call))
  unfolding dispatch on_run_cancelled on_run_created on_lifecycle on_step_budget_exhausted
      on_model_action_requested on_model_action_proposed on_model_action_failed on_completion
      on_tool_requested on_tool_authorized on_tool_escalated on_gate_approved on_gate_revised
      on_gate_outcome on_gate_evaluated on_gate_rejected on_tool_failure on_tool_started
      on_tool_succeeded on_verification_succeeded on_verification_failed expect_active_gate
  dispatch-Permits run_cancelled s' call h r c = ground arith
  dispatch-Permits _ s' call h r c = ground arith

  -- A USER_GATE opens only by an evaluated answer: from a state that waits at one, the only event
  -- that makes the tool call runnable is gate.evaluated with the outcome "pass", for the active
  -- call, the active proposal digest and the active revision.
  pub user_gate_needs_pass :
      (t : EventType) (s' : RunState) (call digest : String) (revision : ℕ)
      → s.status ≡ awaiting_gate
      → s.active_gate_mode ≡ some "user_gate"
      → s.active_tool_call_id ≡ some call
      → s.active_gate_proposal_digest ≡ some digest
      → s.active_gate_revision ≡ some revision
      → dispatch t s event_id payload ≡ ok s'
      → may_run s'.status ≡ true
      → (t ≡ gate_evaluated)
        × (required_text payload "outcome" ≡ ok "pass")
        × (required_text payload "tool_call_id" ≡ ok call)
        × (required_text payload "proposal_digest" ≡ ok digest)
        × (required_positive_int payload "revision" ≡ ok revision)
  unfolding dispatch on_run_cancelled on_run_created on_lifecycle on_step_budget_exhausted
      on_model_action_requested on_model_action_proposed on_model_action_failed on_completion
      on_tool_requested on_tool_authorized on_tool_escalated on_gate_approved on_gate_revised
      on_gate_outcome on_gate_evaluated on_gate_rejected on_tool_failure on_tool_started
      on_tool_succeeded on_verification_succeeded on_verification_failed expect_active_gate
  user_gate_needs_pass run_cancelled s' call digest revision w m c d v h r = ground arith
  user_gate_needs_pass _ s' call digest revision w m c d v h r =
      ground (arith, eq_iff "user_gate" "pair")

  -- An accepted gate.revised event gives the gate the next revision and another digest, counts its
  -- attempts from 0, and keeps the status and the active call.
  pub gate_revised_advances :
      (s' : RunState) (digest : String) (revision : ℕ)
      → s.active_gate_proposal_digest ≡ some digest
      → s.active_gate_revision ≡ some revision
      → dispatch gate_revised s event_id payload ≡ ok s'
      → (s'.active_gate_revision ≡ some (revision + 1))
        × ¬ (s'.active_gate_proposal_digest ≡ some digest)
        × (s'.active_gate_attempts ≡ 0)
        × (s'.status ≡ awaiting_gate)
        × (s'.active_tool_call_id ≡ s.active_tool_call_id)
  unfolding dispatch on_gate_revised
  gate_revised_advances s' digest revision d r h = ground arith

-- The attempts that an awaited gate still allows.
abbrev pub attempts_left : RunStatus → Option ℕ → ℕ → ℕ
attempts_left awaiting_gate (some limit) attempts = limit - attempts
attempts_left _ _ _ = 0

abbrev pub room : RunState → ℕ
room s = attempts_left s.status s.active_gate_max_attempts s.active_gate_attempts

-- An accepted evaluation uses up one attempt, or more.
pub evaluation_room :
    (s : RunState) (event_id : String) (payload : Fields) (s' : RunState)
    → HasGateTerms s
    → dispatch gate_evaluated s event_id payload ≡ ok s'
    → room s' + 1 ≤ room s
unfolding dispatch on_gate_evaluated on_gate_outcome
evaluation_room s event_id payload s' g h = ground arith
