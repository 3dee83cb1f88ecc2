-- ===== src/Domain/Reducer/Shape.antt =====
-- Which of the optional fields of a run state are set, by its status.
use mathlib.Core.Option
use agent_runtime_lab.Prelude.{
  ◌+◌, inl, inr, ℕ, ◌≤◌, ◌<◌, String, ◌≡◌, ◌⊎◌, Bool, true, false, Option, none, some, arith,
}
use agent_runtime_lab.Result.{ok}
use agent_runtime_lab.Json.{Fields}
use agent_runtime_lab.Domain.Event.{
  EventType, run_cancelled, model_action_proposed, gate_evaluated, gate_revised,
}
use agent_runtime_lab.Domain.State.{
  RunStatus, RunState, model_pending, action_pending, tool_pending, awaiting_gate, tool_ready,
  tool_running, verifying, failed,
}
use agent_runtime_lab.Domain.Reducer.Checks.{required_positive_int-pos, expect_pending_or_ready}
use agent_runtime_lab.Domain.Reducer.{
  clear_gate, fail_tool, next_step_id, dispatch, on_run_cancelled, on_run_created, on_lifecycle,
  on_step_budget_exhausted, on_model_action_requested, on_model_action_proposed,
  on_model_action_failed, on_completion, on_tool_requested, on_tool_authorized, on_tool_escalated,
  on_gate_approved, on_gate_revised, on_gate_outcome, on_gate_evaluated, on_gate_rejected,
  on_tool_failure, on_tool_started, on_tool_succeeded, on_verification_succeeded,
  on_verification_failed, gate_max_attempts,
}

abbrev pub is_some {ℓ} : {A : Type ℓ} → Option A → Bool
is_some none = false
is_some (some _) = true

-- The statuses of a tool call that has not ended.
abbrev pub holds_tool : RunStatus → Bool
holds_tool tool_pending = true
holds_tool awaiting_gate = true
holds_tool tool_ready = true
holds_tool tool_running = true
holds_tool _ = false

abbrev pub is_gate : RunStatus → Bool
is_gate awaiting_gate = true
is_gate _ = false

abbrev pub in_model : RunStatus → Bool
in_model model_pending = true
in_model action_pending = true
in_model _ = false

abbrev pub is_action_pending : RunStatus → Bool
is_action_pending action_pending = true
is_action_pending _ = false

-- The statuses in which a step may be active.
abbrev pub in_step : RunStatus → Bool
in_step model_pending = true
in_step action_pending = true
in_step verifying = true
in_step status = holds_tool status

abbrev pub is_failed : RunStatus → Bool
is_failed failed = true
is_failed _ = false

pub record HasShape (s : RunState) : Type 0 where
  pub tool : is_some s.active_tool_call_id ≡ holds_tool s.status
  pub gate_digest : is_some s.active_gate_proposal_digest ≡ is_gate s.status
  pub gate_revision : is_some s.active_gate_revision ≡ is_gate s.status
  pub gate_mode : is_some s.active_gate_mode ≡ is_gate s.status
  pub invocation : is_some s.active_model_invocation_id ≡ in_model s.status
  pub action_event : is_some s.active_model_action_event_id ≡ is_action_pending s.status
  pub step_idle : in_step s.status ≡ false → s.active_step_id ≡ none
  pub step_model : in_model s.status ≡ true → s.active_step_id ≡ some (next_step_id s)
  pub failure : is_some s.failure_reason ≡ is_failed s.status

abbrev reason_of : RunState → String
reason_of s = Option.get_or s.failure_reason ""

-- An evaluated gate counts a retry, opens the tool call, or fails it.
abbrev GateVerdict : RunState → RunState → Type 0
GateVerdict s s' =
    (s' ≡ record s { active_gate_attempts = s.active_gate_attempts + 1 })
    ⊎ ((s' ≡ record (clear_gate s) { status = tool_ready }) ⊎ (s' ≡ fail_tool s (reason_of s')))

pub on_gate_evaluated-GateVerdict :
    (s : RunState) (payload : Fields) {s' : RunState}
    → on_gate_evaluated s payload ≡ ok s'
    → (s.status ≡ awaiting_gate) × GateVerdict s s'
unfolding on_gate_evaluated on_gate_outcome
on_gate_evaluated-GateVerdict s payload h = ground arith

module _ (s : RunState) (waiting : s.status ≡ awaiting_gate) (w : HasShape s) where
  GateVerdict-HasShape : {s' : RunState} → GateVerdict s s' → HasShape s'
  GateVerdict-HasShape (inl e) = ground arith
  GateVerdict-HasShape (inr (inl e)) = ground arith
  GateVerdict-HasShape (inr (inr e)) = ground arith

-- A revised gate has new terms, and keeps all else.
pub record GateRevision (s s' : RunState) : Type 0 where
  pub waiting : s.status ≡ awaiting_gate
  pub frame : s' ≡ record s {
    active_gate_proposal_digest = s'.active_gate_proposal_digest;
    active_gate_revision = s'.active_gate_revision;
    active_gate_mode = s'.active_gate_mode;
    active_gate_attempts = 0;
    active_gate_max_attempts = s'.active_gate_max_attempts;
  }
  pub digest : is_some s'.active_gate_proposal_digest ≡ true
  pub revision : is_some s'.active_gate_revision ≡ true
  pub mode : is_some s'.active_gate_mode ≡ true

pub on_gate_revised-GateRevision :
    (s : RunState) (payload : Fields) {s' : RunState}
    → on_gate_revised s payload ≡ ok s'
    → GateRevision s s'
unfolding on_gate_revised
on_gate_revised-GateRevision s payload h = ground arith

GateRevision-HasShape : {s s' : RunState} → GateRevision s s' → HasShape s → HasShape s'
GateRevision-HasShape r w = ground arith

on_model_action_proposed-form :
    (s : RunState) (event_id : String) (payload : Fields) {s' : RunState}
    → on_model_action_proposed s event_id payload ≡ ok s'
    → (s.status ≡ model_pending)
      × (s' ≡ record s { status = action_pending; active_model_action_event_id = some event_id })
unfolding on_model_action_proposed
on_model_action_proposed-form s event_id payload h = ground arith

proposed-HasShape :
    (s : RunState) (event_id : String) {s' : RunState}
    → s.status ≡ model_pending
    → s' ≡ record s { status = action_pending; active_model_action_event_id = some event_id }
    → HasShape s
    → HasShape s'
proposed-HasShape s event_id pending e w = ground arith

pub dispatch-HasShape :
    (t : EventType) (s : RunState) (event_id : String) (payload : Fields) {s' : RunState}
    → HasShape s
    → dispatch t s event_id payload ≡ ok s'
    → HasShape s'
unfolding dispatch on_run_cancelled on_run_created on_lifecycle on_step_budget_exhausted
    on_model_action_requested on_model_action_proposed on_model_action_failed on_completion
    on_tool_requested on_tool_authorized on_tool_escalated on_gate_approved on_gate_revised
    on_gate_outcome on_gate_evaluated on_gate_rejected on_tool_failure on_tool_started
    on_tool_succeeded on_verification_succeeded on_verification_failed expect_pending_or_ready
dispatch-HasShape run_cancelled s event_id payload w h = ground arith
dispatch-HasShape gate_evaluated s event_id payload w h =
    let (waiting, verdict) = on_gate_evaluated-GateVerdict s payload h in
    GateVerdict-HasShape s waiting w verdict
dispatch-HasShape gate_revised s event_id payload w h =
    GateRevision-HasShape (on_gate_revised-GateRevision s payload h) w
dispatch-HasShape model_action_proposed s event_id payload w h =
    let (pending, form) = on_model_action_proposed-form s event_id payload h in
    proposed-HasShape s event_id pending form w
dispatch-HasShape _ s event_id payload w h = ground arith

-- Mode, attempts and attempt limit of a gate: no gate, a PAIR gate, or a USER_GATE with attempts
-- left.
abbrev pub GateTerms : Option String → ℕ → Option ℕ → Type 0
GateTerms none attempts limit = (attempts ≡ 0) × (limit ≡ none)
GateTerms (some mode) attempts none = (mode ≡ "pair") × (attempts ≡ 0)
GateTerms (some mode) attempts (some limit) = (mode ≡ "user_gate") × (attempts < limit)

abbrev pub Revised : Option ℕ → Type 0
Revised none = Unit
Revised (some revision) = 1 ≤ revision

pub record HasGateTerms (s : RunState) : Type 0 where
  pub terms : GateTerms s.active_gate_mode s.active_gate_attempts s.active_gate_max_attempts
  pub revised : Revised s.active_gate_revision

pub dispatch-HasGateTerms :
    (t : EventType) (s : RunState) (event_id : String) (payload : Fields) {s' : RunState}
    → HasGateTerms s
    → dispatch t s event_id payload ≡ ok s'
    → HasGateTerms s'
unfolding dispatch on_run_cancelled on_run_created on_lifecycle on_step_budget_exhausted
    on_model_action_requested on_model_action_proposed on_model_action_failed on_completion
    on_tool_requested on_tool_authorized on_tool_escalated on_gate_approved on_gate_revised
    on_gate_outcome on_gate_evaluated on_gate_rejected on_tool_failure on_tool_started
    on_tool_succeeded on_verification_succeeded on_verification_failed gate_max_attempts
dispatch-HasGateTerms run_cancelled s event_id payload w h = ground arith
dispatch-HasGateTerms _ s event_id payload w h = ground (
  arith,
  required_positive_int-pos payload "revision",
  required_positive_int-pos payload "max_attempts",
)
