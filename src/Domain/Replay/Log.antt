-- ===== src/Domain/Replay/Log.antt =====
-- Logs of events: replay in parts, and the numbering of a log that replays (domain/replay.py).
use agent_runtime_lab.Prelude.{
  ℕ, ◌+◌, String, ◌≡◌, ◌≢◌, refl, inl, inr, none, List, [], ◌∷◌, ◌++◌, ap, ◌∙◌, map, length, All,
  append_assoc, append-nil, arith,
}
use agent_runtime_lab.Result.{ok, ◌>>=◌, Result-cases}
use agent_runtime_lab.Json.{Host}
use agent_runtime_lab.Domain.Event.{ExecutionEvent, fingerprint}
use agent_runtime_lab.Domain.State.{RunState, initial, initial_state, fingerprint_in}
use agent_runtime_lab.Domain.Reducer.{reduce}
use agent_runtime_lab.Domain.Reducer.Steps.{Applied, reduce_cases}
use agent_runtime_lab.Domain.Reducer.Redelivery.{fingerprint_in-append, run_id-reduce}
use agent_runtime_lab.Domain.Replay.{replay_tail, replay}

module _ (h : Host) where
  pub replay_tail-append :
      (s : RunState) (xs ys : List ExecutionEvent)
      → replay_tail h s (xs ++ ys) ≡ (replay_tail h s xs >>= λ t. replay_tail h t ys)
  unfolding replay_tail
  replay_tail-append s [] ys = refl
  replay_tail-append s (x ∷ xs) ys = elim (Result-cases (reduce h s x)) [
    | inl (t, first) ↦ rw first (replay_tail-append t xs ys)
    | inr (e, refused) ↦ rw refused
  ]

  -- A log replays in two parts: the whole log has the result, or the error, of replaying its tail
  -- after the state of its prefix.
  pub replay-append :
      (run_id : String) (xs ys : List ExecutionEvent)
      → replay h run_id (xs ++ ys) ≡ (replay h run_id xs >>= λ s. replay_tail h s ys)
  unfolding replay
  replay-append run_id xs ys = elim (Result-cases (initial run_id)) [
    | inl (s, start) ↦ rw start (replay_tail-append s xs ys)
    | inr (e, refused) ↦ rw refused
  ]

-- The events are of one run, and numbered one by one from `n`.
abbrev pub Numbered : String → ℕ → List ExecutionEvent → Type 0
Numbered run_id n [] = Unit
Numbered run_id n (e ∷ es) = (e.run_id ≡ run_id) × (e.sequence ≡ n) × Numbered run_id (n + 1) es

abbrev pub Unused : String → List ExecutionEvent → Type 0
Unused event_id = All (λ e. e.event_id ≢ event_id)

abbrev pub Distinct : List ExecutionEvent → Type 0
Distinct [] = Unit
Distinct (e ∷ es) = Unused e.event_id es × Distinct es

-- None of the events is in the table of applied ones.
abbrev pub Unapplied : List (String × String) → List ExecutionEvent → Type 0
Unapplied applied = All (λ e. fingerprint_in e.event_id applied ≡ none)

Unapplied-append :
    (applied : List (String × String)) (event_id fingerprint : String) (es : List ExecutionEvent)
    → Unapplied applied es
    → Unused event_id es
    → Unapplied (applied ++ (event_id, fingerprint) ∷ []) es
Unapplied-append applied event_id fingerprint [] u d = tt
Unapplied-append applied event_id fingerprint (e ∷ es) u d = (
  ground (arith, fingerprint_in-append e.event_id event_id fingerprint applied u.0, d.0),
  Unapplied-append applied event_id fingerprint es u.1 d.1,
)

Unapplied-empty : (es : List ExecutionEvent) → Unapplied [] es
unfolding fingerprint_in
Unapplied-empty [] = tt
Unapplied-empty (e ∷ es) = (refl, Unapplied-empty es)

module _ (h : Host) where
  abbrev pub entry : ExecutionEvent → String × String
  entry e = (e.event_id, fingerprint h e)

  abbrev pub LogOf : RunState → List ExecutionEvent → RunState → Type 0
  LogOf s es s' =
      Numbered s.run_id s.next_sequence es
      × (s'.next_sequence ≡ s.next_sequence + length es)
      × (s'.applied_event_fingerprints ≡ s.applied_event_fingerprints ++ map entry es)

  LogOf-cons :
      (s s₁ : RunState) (e : ExecutionEvent) (es : List ExecutionEvent) (s' : RunState)
      → Applied h s e s₁
      → s₁.run_id ≡ s.run_id
      → LogOf s₁ es s'
      → LogOf s (e ∷ es) s'
  LogOf-cons s s₁ e es s' a same (numbered, total, entries) =
      let next : s₁.next_sequence ≡ s.next_sequence + 1 = ground (arith, a.result) in
      let table : s₁.applied_event_fingerprints ≡ s.applied_event_fingerprints ++ entry e ∷ [] =
        ap (λ (t : RunState). t.applied_event_fingerprints) a.result in
      (
        (a.same_run, a.order, rw (same, next) at numbered),
        omega (arith, total, next),
        entries
            ∙ ap (λ l. l ++ map entry es) table
            ∙ append_assoc s.applied_event_fingerprints (entry e ∷ []) (map entry es),
      )

  pub replay_tail-LogOf :
      (s : RunState) (es : List ExecutionEvent) (s' : RunState)
      → Distinct es
      → Unapplied s.applied_event_fingerprints es
      → replay_tail h s es ≡ ok s'
      → LogOf s es s'
  unfolding replay_tail
  replay_tail-LogOf s [] s' d u r = (tt, ground arith, rw append-nil (ground arith))
  replay_tail-LogOf s (e ∷ es) s' d u r = elim (Result-cases (reduce h s e)) [
    | inr (x, refused) ↦ absurd (ground arith)
    | inl (s₁, first) ↦ elim (reduce_cases h s e first) [
      | inl again ↦ absurd (ground (arith, again.known, u.0))
      | inr a ↦
          let table : s₁.applied_event_fingerprints ≡ s.applied_event_fingerprints ++ entry e ∷ [] =
            ap (λ (t : RunState). t.applied_event_fingerprints) a.result in
          LogOf-cons s s₁ e es s' a (run_id-reduce h s e first) (
            replay_tail-LogOf s₁ es s' d.1
              (rw table (
                Unapplied-append s.applied_event_fingerprints e.event_id (fingerprint h e) es u.1
                  d.0))
              (rw first at r))
    ]
  ]

  -- A log of distinct event ids that replays is the complete numbered history of its run: its events
  -- are of that run and carry the sequence numbers 0, 1, 2, ... in order, the state's
  -- `next_sequence` is their number, and its table holds each event's id and fingerprint in order.
  pub replay-numbered :
      (run_id : String) (es : List ExecutionEvent) (s : RunState)
      → Distinct es
      → replay h run_id es ≡ ok s
      → LogOf (initial_state run_id) es s
  unfolding replay initial
  replay-numbered run_id es s d r =
      replay_tail-LogOf (initial_state run_id) es s d (Unapplied-empty es) (ground arith)
