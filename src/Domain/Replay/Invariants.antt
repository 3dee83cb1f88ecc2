-- ===== src/Domain/Replay/Invariants.antt =====
-- What holds of every state that a log of events replays to (domain/replay.py, domain/reducer.py).
use agent_runtime_lab.Prelude.{String, ◌≡◌, List, [], ◌∷◌, inl, inr, arith}
use agent_runtime_lab.Result.{ok, Result-cases}
use agent_runtime_lab.Json.{Host}
use agent_runtime_lab.Domain.Event.{ExecutionEvent}
use agent_runtime_lab.Domain.State.{RunState, initial, initial_state}
use agent_runtime_lab.Domain.Reducer.{reduce}
use agent_runtime_lab.Domain.Reducer.Budget.{IsBudgeted, dispatch-IsBudgeted}
use agent_runtime_lab.Domain.Reducer.Shape.{
  HasShape, dispatch-HasShape, HasGateTerms, dispatch-HasGateTerms,
}
use agent_runtime_lab.Domain.Reducer.Steps.{reduce_invariant}
use agent_runtime_lab.Domain.Replay.{replay_tail, replay}

-- Induction over a log, for a property that each `reduce` keeps.
module _ (h : Host) (P : RunState → Type 0)
    (keeps : (s : RunState) (e : ExecutionEvent) (s' : RunState)
      → P s
      → reduce h s e ≡ ok s'
      → P s') where
  pub replay_tail_invariant :
      (s : RunState) (es : List ExecutionEvent) {s' : RunState}
      → P s
      → replay_tail h s es ≡ ok s'
      → P s'
  unfolding replay_tail
  replay_tail_invariant s [] p r = ground arith
  replay_tail_invariant s (e ∷ es) p r = elim (Result-cases (reduce h s e)) [
    | inl (s₁, first) ↦ replay_tail_invariant s₁ es (keeps s e s₁ p first) (rw first at r)
    | inr (x, refused) ↦ absurd (ground arith)
  ]

  pub replay_invariant :
      (run_id : String) (es : List ExecutionEvent) {s : RunState}
      → P (initial_state run_id)
      → replay h run_id es ≡ ok s
      → P s
  unfolding replay initial
  replay_invariant run_id es p r = replay_tail_invariant (initial_state run_id) es p (ground arith)

module _ (h : Host) (run_id : String) (es : List ExecutionEvent) {s : RunState} where
  -- A log that replays leaves the budget kept: `turn_index` is at most `max_steps` where the run has
  -- one, that limit is positive, and while a step is active one more step still fits.
  pub replay-IsBudgeted : replay h run_id es ≡ ok s → IsBudgeted s
  replay-IsBudgeted =
      replay_invariant h IsBudgeted
        (λ s e s'.
          reduce_invariant h IsBudgeted (λ s t e p. ground arith)
            (λ t s i p s'. dispatch-IsBudgeted t s i p) s e)
        run_id es (ground arith)

  -- In every state that a log replays to, the status decides which optional fields are set: the
  -- active tool call, the three gate fields, the model invocation and its action event, the failure
  -- reason; no step is active outside a turn, and a pending model action is for the next step.
  pub replay-HasShape : replay h run_id es ≡ ok s → HasShape s
  replay-HasShape =
      replay_invariant h HasShape
        (λ s e s'.
          reduce_invariant h HasShape (λ s t e p. ground arith)
            (λ t s i p s'. dispatch-HasShape t s i p) s e)
        run_id es (ground arith)

  -- In every state that a log replays to, an active gate is a PAIR gate with no attempts counted and
  -- no limit, or a USER_GATE that has counted fewer attempts than its limit; its revision is
  -- positive. Without a gate no attempts and no limit are left.
  pub replay-HasGateTerms : replay h run_id es ≡ ok s → HasGateTerms s
  replay-HasGateTerms =
      replay_invariant h HasGateTerms
        (λ s e s'.
          reduce_invariant h HasGateTerms (λ s t e p. ground arith)
            (λ t s i p s'. dispatch-HasGateTerms t s i p) s e)
        run_id es (ground arith)
