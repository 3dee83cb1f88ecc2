-- ===== src/Domain/Reducer/Redelivery.antt =====
-- Redelivered events and terminal runs (`reduce` of domain/reducer.py).
use agent_runtime_lab.Prelude.{
  String, ◌≡◌, inl, inr, true, none, some, List, [], ◌∷◌, ◌++◌, string_dec, holds, if◌then◌else◌,
  arith,
}
use agent_runtime_lab.Result.{ok}
use agent_runtime_lab.Json.{Fields, Host}
use agent_runtime_lab.Domain.Event.{EventType, ExecutionEvent, fingerprint, run_cancelled}
use agent_runtime_lab.Domain.State.{RunState, is_terminal, fingerprint_for, fingerprint_in}
use agent_runtime_lab.Domain.Reducer.{
  reduce, dispatch, on_run_cancelled, on_run_created, on_lifecycle, on_step_budget_exhausted,
  on_model_action_requested, on_model_action_proposed, on_model_action_failed, on_completion,
  on_tool_requested, on_tool_authorized, on_tool_escalated, on_gate_approved, on_gate_revised,
  on_gate_outcome, on_gate_evaluated, on_gate_rejected, on_tool_failure, on_tool_started,
  on_tool_succeeded, on_verification_succeeded, on_verification_failed,
}
use agent_runtime_lab.Domain.Reducer.Steps.{reduce_cases}

-- Every transition keeps the identity of the run and leaves the bookkeeping to `reduce`.
pub dispatch-run_id :
    (t : EventType) (s : RunState) (event_id : String) (payload : Fields) {s' : RunState}
    → dispatch t s event_id payload ≡ ok s'
    → s'.run_id ≡ s.run_id
unfolding dispatch on_run_cancelled on_run_created on_lifecycle on_step_budget_exhausted
    on_model_action_requested on_model_action_proposed on_model_action_failed on_completion
    on_tool_requested on_tool_authorized on_tool_escalated on_gate_approved on_gate_revised
    on_gate_outcome on_gate_evaluated on_gate_rejected on_tool_failure on_tool_started
    on_tool_succeeded on_verification_succeeded on_verification_failed
dispatch-run_id run_cancelled s event_id payload h = ground arith
dispatch-run_id _ s event_id payload h = ground arith

-- A pair appended to the table is found by its id, unless an earlier one has that id.
pub fingerprint_in-append :
    (event_id applied fingerprint : String) (pairs : List (String × String))
    → fingerprint_in event_id pairs ≡ none
    → fingerprint_in event_id (pairs ++ (applied, fingerprint) ∷ [])
      ≡ (if holds (string_dec applied event_id) then some fingerprint else none)
unfolding fingerprint_in
fingerprint_in-append event_id applied fingerprint [] h = ground arith
fingerprint_in-append event_id applied fingerprint ((a, f) ∷ pairs) h =
    ground (arith, fingerprint_in-append event_id applied fingerprint pairs)

-- An applied event is known by its fingerprint.
pub fingerprint_for-reduce :
    (h : Host) (s : RunState) (e : ExecutionEvent) {s' : RunState}
    → reduce h s e ≡ ok s'
    → fingerprint_for s' e.event_id ≡ some (fingerprint h e)
fingerprint_for-reduce h s e r = elim (reduce_cases h s e r) [
  | inl again ↦ rw again.result again.known
  | inr a ↦ rw a.result (
      ground (
        arith,
        fingerprint_in-append e.event_id e.event_id (fingerprint h e) s.applied_event_fingerprints
            a.fresh,
      ))
]

pub run_id-reduce :
    (h : Host) (s : RunState) (e : ExecutionEvent) {s' : RunState}
    → reduce h s e ≡ ok s'
    → s'.run_id ≡ s.run_id
run_id-reduce h s e r = elim (reduce_cases h s e r) [
  | inl again ↦ rw again.result
  | inr a ↦ rw a.result (dispatch-run_id e.event_type s e.event_id e.payload a.transitioned)
]

-- An event that a state accepted can be delivered again: the second delivery succeeds and changes
-- nothing, also where the first one ended the run.
pub reduce_redelivery :
    (h : Host) (s : RunState) (e : ExecutionEvent) {s' : RunState}
    → reduce h s e ≡ ok s'
    → reduce h s' e ≡ ok s'
unfolding reduce
reduce_redelivery h s e r =
    ground (arith, fingerprint_for-reduce h s e r, run_id-reduce h s e r, same_run)
  where
    same_run : e.run_id ≡ s.run_id
    same_run = elim (reduce_cases h s e r) [ inl again ↦ again.same_run | inr a ↦ a.same_run ]

-- A terminal state is final: whatever event it accepts leaves it as it was.
pub reduce_terminal :
    (h : Host) (s : RunState) (e : ExecutionEvent) {s' : RunState}
    → is_terminal s ≡ true
    → reduce h s e ≡ ok s'
    → s' ≡ s
reduce_terminal h s e final r = elim (reduce_cases h s e r) [
  | inl again ↦ again.result
  | inr a ↦ absurd (ground (arith, a.live))
]
