-- ===== src/Domain/Reducer/Steps.antt =====
-- What a successful `reduce` did: nothing, for an exact redelivery, or one transition of a live run
-- in sequence, which it recorded.
use agent_runtime_lab.Prelude.{
  ◌+◌, String, ◌≡◌, ◌⊎◌, inl, inr, false, none, some, [], ◌∷◌, ◌++◌, Option-cases, arith,
}
use agent_runtime_lab.Result.{ok, Result-cases}
use agent_runtime_lab.Json.{Fields, Host}
use agent_runtime_lab.Domain.Event.{EventType, ExecutionEvent, fingerprint}
use agent_runtime_lab.Domain.State.{RunState, is_terminal, fingerprint_for}
use agent_runtime_lab.Domain.Reducer.{dispatch, transition, apply_new, reduce}

-- The bookkeeping that `reduce` adds to a transition.
abbrev pub record_event : Host → RunState → RunState → ExecutionEvent → RunState
record_event h s t e = record t {
  next_sequence = s.next_sequence + 1;
  applied_event_fingerprints = s.applied_event_fingerprints ++ (e.event_id, fingerprint h e) ∷ [];
}

pub record Applied (h : Host) (s : RunState) (e : ExecutionEvent) (s' : RunState) : Type 0 where
  pub same_run : e.run_id ≡ s.run_id
  pub fresh : fingerprint_for s e.event_id ≡ none
  pub live : is_terminal s ≡ false
  pub order : e.sequence ≡ s.next_sequence
  pub moved : RunState
  pub transitioned : transition s e ≡ ok moved
  pub result : s' ≡ record_event h s moved e

pub record Redelivered (h : Host) (s : RunState) (e : ExecutionEvent) (s' : RunState) : Type 0 where
  pub same_run : e.run_id ≡ s.run_id
  pub known : fingerprint_for s e.event_id ≡ some (fingerprint h e)
  pub result : s' ≡ s

module _ (h : Host) (s : RunState) (e : ExecutionEvent) where
  apply_new-Applied :
      {s' : RunState}
      → e.run_id ≡ s.run_id
      → fingerprint_for s e.event_id ≡ none
      → apply_new h s e ≡ ok s'
      → Applied h s e s'
  unfolding apply_new
  apply_new-Applied {s'} same fresh r = elim (Result-cases (transition s e)) [
    | inl (t, moved) ↦ record {
      same_run = same;
      fresh = fresh;
      live = ground arith;
      order = ground arith;
      moved = t;
      transitioned = moved;
      result = ground arith;
    }
    | inr (x, refused) ↦ absurd (ground arith)
  ]

  pub reduce_cases :
      {s' : RunState} → reduce h s e ≡ ok s' → Redelivered h s e s' ⊎ Applied h s e s'
  unfolding reduce
  reduce_cases {s'} r = elim (Option-cases (fingerprint_for s e.event_id)) [
    | inl fresh ↦ inr (apply_new-Applied (ground arith) fresh (ground arith))
    | inr (existing, known) ↦
        inl (record { same_run = ground arith; known = ground arith; result = ground arith })
  ]

-- What every transition keeps and `record_event` does not read is kept by `reduce`.
module _ (h : Host) (P : RunState → Type 0)
    (frame : (s t : RunState) (e : ExecutionEvent) → P t → P (record_event h s t e))
    (step : (t : EventType) (s : RunState) (event_id : String) (payload : Fields) (s' : RunState)
      → P s
      → dispatch t s event_id payload ≡ ok s'
      → P s') where
  pub reduce_invariant :
      (s : RunState) (e : ExecutionEvent) {s' : RunState} → P s → reduce h s e ≡ ok s' → P s'
  reduce_invariant s e p r = elim (reduce_cases h s e r) [
    | inl again ↦ rw again.result p
    | inr a ↦
        rw a.result
          (frame s a.moved e (step e.event_type s e.event_id e.payload a.moved p a.transitioned))
  ]
