-- ===== src/Domain/Replay/Permits.antt =====
-- Permits and gate attempts in a log of events (domain/reducer.py over domain/replay.py).
use agent_runtime_lab.Prelude.{
  ◌+◌, ◌≤◌, String, ◌≡◌, ◌⊎◌, inl, inr, true, some, List, [], ◌∷◌, ◌++◌, All, arith, append_assoc,
  append-nil,
}
use agent_runtime_lab.Result.{ok, Result-cases}
use agent_runtime_lab.Json.{Host}
use agent_runtime_lab.Domain.Event.{ExecutionEvent, gate_evaluated}
use agent_runtime_lab.Domain.State.{RunState, initial, initial_state}
use agent_runtime_lab.Domain.Reducer.Checks.{required_text}
use agent_runtime_lab.Domain.Reducer.{reduce}
use agent_runtime_lab.Domain.Reducer.Gates.{
  may_run, Permits, dispatch-Permits, room, evaluation_room,
}
use agent_runtime_lab.Domain.Reducer.Shape.{HasGateTerms, dispatch-HasGateTerms}
use agent_runtime_lab.Domain.Reducer.Steps.{reduce_cases, reduce_invariant}
use agent_runtime_lab.Domain.Replay.{replay_tail, replay}

-- One of the events permits the call.
abbrev pub PermitIn : String → List ExecutionEvent → Type 0
PermitIn call [] = ⊥
PermitIn call (e ∷ es) =
    (Permits e.event_type e.payload × (required_text e.payload "tool_call_id" ≡ ok call))
    ⊎ PermitIn call es

pub PermitIn-append :
    (call : String) (xs ys : List ExecutionEvent) → PermitIn call xs → PermitIn call (xs ++ ys)
PermitIn-append call [] ys p = absurd p
PermitIn-append call (x ∷ xs) ys (inl here) = inl here
PermitIn-append call (x ∷ xs) ys (inr later) = inr (PermitIn-append call xs ys later)

pub PermitIn-last :
    (call : String) (xs : List ExecutionEvent) (e : ExecutionEvent)
    → Permits e.event_type e.payload × (required_text e.payload "tool_call_id" ≡ ok call)
    → PermitIn call (xs ++ e ∷ [])
PermitIn-last call [] e p = inl p
PermitIn-last call (x ∷ xs) e p = inr (PermitIn-last call xs e p)

-- The events seen so far hold a permit for a call that may run.
abbrev IsPermitted : RunState → List ExecutionEvent → Type 0
IsPermitted s seen =
    (call : String)
    → may_run s.status ≡ true
    → s.active_tool_call_id ≡ some call
    → PermitIn call seen

module _ (h : Host) where
  reduce-IsPermitted :
      (s : RunState) (e : ExecutionEvent) (s' : RunState) (seen : List ExecutionEvent)
      → IsPermitted s seen
      → reduce h s e ≡ ok s'
      → IsPermitted s' (seen ++ e ∷ [])
  reduce-IsPermitted s e s' seen p r call runs active = elim (reduce_cases h s e r) [
    | inl again ↦
        PermitIn-append call seen (e ∷ [])
          (p call (rw again.result at runs) (rw again.result at active))
    | inr a ↦
        elim (dispatch-Permits s e.event_id e.payload e.event_type a.moved call a.transitioned
          (rw a.result at runs) (rw a.result at active)) [
            | inl permit ↦ PermitIn-last call seen e permit
            | inr (before, same) ↦ PermitIn-append call seen (e ∷ []) (p call before same)
          ]
  ]

  replay_tail-IsPermitted :
      (s : RunState) (seen es : List ExecutionEvent) (s' : RunState)
      → IsPermitted s seen
      → replay_tail h s es ≡ ok s'
      → IsPermitted s' (seen ++ es)
  unfolding replay_tail
  replay_tail-IsPermitted s seen [] s' p r = let e : s ≡ s' = ground arith in rw (append-nil, ← e) p
  replay_tail-IsPermitted s seen (e ∷ es) s' p r = elim (Result-cases (reduce h s e)) [
    | inl (s₁, first) ↦ rw (← append_assoc seen (e ∷ []) es) (
        replay_tail-IsPermitted s₁ (seen ++ e ∷ []) es s' (reduce-IsPermitted s e s₁ seen p first)
          (rw first at r))
    | inr (x, refused) ↦ absurd (ground arith)
  ]

  -- No tool call is ready or running without a permit: a log that replays to `tool_ready` or
  -- `tool_running` with an active call holds, for that very call, a tool.authorized, a gate.approved
  -- or a gate.evaluated event with the outcome "pass".
  pub replay_permitted :
      (run_id : String) (es : List ExecutionEvent) (s : RunState) (call : String)
      → replay h run_id es ≡ ok s
      → may_run s.status ≡ true
      → s.active_tool_call_id ≡ some call
      → PermitIn call es
  unfolding replay initial
  replay_permitted run_id es s call r =
      replay_tail-IsPermitted (initial_state run_id) [] es s (λ c runs active. ground arith)
        (ground arith) call

  reduce-HasGateTerms :
      (s : RunState) (e : ExecutionEvent) {s' : RunState}
      → HasGateTerms s
      → reduce h s e ≡ ok s'
      → HasGateTerms s'
  reduce-HasGateTerms =
      reduce_invariant h HasGateTerms (λ s t e p. ground arith)
        (λ t s i p s'. dispatch-HasGateTerms t s i p)

  reduce_attempts :
      (s : RunState) (e : ExecutionEvent) (s' : RunState)
      → HasGateTerms s
      → e.event_type ≡ gate_evaluated
      → reduce h s e ≡ ok s'
      → s'.next_sequence + room s' ≤ s.next_sequence + room s
  reduce_attempts s e s' g only r = elim (reduce_cases h s e r) [
    | inl again ↦ rw again.result (omega arith)
    | inr a ↦
        let used : room a.moved + 1 ≤ room s =
          evaluation_room s e.event_id e.payload a.moved g (rw only at a.transitioned) in
        rw a.result (omega (arith, used))
  ]

  -- Over gate.evaluated events that follow one another, from a state with well-formed gate terms,
  -- `next_sequence` grows by at most as much as the attempts that the gate still allows shrink; so
  -- the run applies at most that many of them.
  pub replay_tail_attempts :
      (s : RunState) (es : List ExecutionEvent) (s' : RunState)
      → HasGateTerms s
      → All (λ e. e.event_type ≡ gate_evaluated) es
      → replay_tail h s es ≡ ok s'
      → s'.next_sequence + room s' ≤ s.next_sequence + room s
  unfolding replay_tail
  replay_tail_attempts s [] s' g only r = let e : s ≡ s' = ground arith in rw e (omega arith)
  replay_tail_attempts s (e ∷ es) s' g only r = elim (Result-cases (reduce h s e)) [
    | inr (x, refused) ↦ absurd (ground arith)
    | inl (s₁, first) ↦ omega (
      arith,
      reduce_attempts s e s₁ g only.0 first,
      replay_tail_attempts s₁ es s' (reduce-HasGateTerms s e g first) only.1 (rw first at r),
    )
  ]
