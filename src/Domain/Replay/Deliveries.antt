-- ===== src/Domain/Replay/Deliveries.antt =====
-- Logs in which events were delivered more than once (domain/replay.py, domain/reducer.py).
use agent_runtime_lab.Prelude.{
  String, ◌≡◌, refl, inl, inr, Bool, true, false, Option, none, some, List, [], ◌∷◌, ◌++◌, any,
  holds, string_dec, if◌then◌else◌, All, Bool-cases, Option-cases, arith,
}
use agent_runtime_lab.Result.{ok, Result-cases}
use agent_runtime_lab.Json.{Host}
use agent_runtime_lab.Domain.Event.{ExecutionEvent, fingerprint}
use agent_runtime_lab.Domain.State.{RunState, initial, initial_state, fingerprint_in}
use agent_runtime_lab.Domain.Reducer.{reduce}
use agent_runtime_lab.Domain.Reducer.Steps.{reduce_cases}
use agent_runtime_lab.Domain.Reducer.Redelivery.{fingerprint_in-append}
use agent_runtime_lab.Domain.Replay.{replay_tail, replay}
use agent_runtime_lab.Domain.Replay.Log.{LogOf, Distinct, Unused, replay-numbered}

abbrev pub has_come : String → List String → Bool
has_come event_id seen = any (λ earlier. holds (string_dec earlier event_id)) seen

-- The events whose id was not seen, and is not the id of an earlier one.
abbrev pub first_deliveries : List String → List ExecutionEvent → List ExecutionEvent
first_deliveries seen [] = []
first_deliveries seen (e ∷ es) =
    if has_come e.event_id seen
    then first_deliveries seen es
    else e ∷ first_deliveries (e.event_id ∷ seen) es

is_known : Option String → Bool
is_known none = false
is_known (some _) = true

-- The ids that were seen are those in the table of applied events.
abbrev Tracks : List String → List (String × String) → Type 0
Tracks seen applied =
    (event_id : String) → has_come event_id seen ≡ is_known (fingerprint_in event_id applied)

fingerprint_in-append_old :
    (event_id found applied fingerprint : String) (pairs : List (String × String))
    → fingerprint_in event_id pairs ≡ some found
    → fingerprint_in event_id (pairs ++ (applied, fingerprint) ∷ []) ≡ some found
unfolding fingerprint_in
fingerprint_in-append_old event_id found applied fingerprint [] e = absurd (ground arith)
fingerprint_in-append_old event_id found applied fingerprint ((a, f) ∷ pairs) e =
    ground (arith, fingerprint_in-append_old event_id found applied fingerprint pairs)

Tracks-append :
    (seen : List String) (pairs : List (String × String)) (applied fingerprint : String)
    → Tracks seen pairs
    → Tracks (applied ∷ seen) (pairs ++ (applied, fingerprint) ∷ [])
unfolding is_known
Tracks-append seen pairs applied fingerprint t event_id =
    elim (Option-cases (fingerprint_in event_id pairs)) [
      | inl fresh ↦
          ground (arith, t event_id, fingerprint_in-append event_id applied fingerprint pairs fresh)
      | inr (found, known) ↦ ground (
        arith,
        t event_id,
        fingerprint_in-append_old event_id found applied fingerprint pairs known,
      )
    ]

without_id :
    (event_id : String) (seen : List String) (es : List ExecutionEvent)
    → All (λ e. has_come e.event_id (event_id ∷ seen) ≡ false) es
    → Unused event_id es × All (λ e. has_come e.event_id seen ≡ false) es
without_id event_id seen [] u = (tt, tt)
without_id event_id seen (e ∷ es) (new, u) =
    let (unused, unseen) = without_id event_id seen es u in
    ((λ same. absurd (ground arith), unused), (ground arith, unseen))

first_deliveries-Distinct :
    (seen : List String) (es : List ExecutionEvent)
    → All (λ e. has_come e.event_id seen ≡ false) (first_deliveries seen es)
      × Distinct (first_deliveries seen es)
first_deliveries-Distinct seen [] = (tt, tt)
first_deliveries-Distinct seen (e ∷ es) = elim (Bool-cases (has_come e.event_id seen)) [
  | inl came ↦ rw came (first_deliveries-Distinct seen es)
  | inr new ↦
      let (rest, distinct) = first_deliveries-Distinct (e.event_id ∷ seen) es in
      let (unused, unseen) =
        without_id e.event_id seen (first_deliveries (e.event_id ∷ seen) es) rest in
      rw new ((new, unseen), (unused, distinct))
]

module _ (h : Host) where
  replay_tail-first_deliveries :
      (seen : List String) (s : RunState) (es : List ExecutionEvent) (s' : RunState)
      → Tracks seen s.applied_event_fingerprints
      → replay_tail h s es ≡ ok s'
      → replay_tail h s (first_deliveries seen es) ≡ ok s'
  unfolding replay_tail is_known
  replay_tail-first_deliveries seen s [] s' t r = r
  replay_tail-first_deliveries seen s (e ∷ es) s' t r = elim (Result-cases (reduce h s e)) [
    | inr (x, refused) ↦ absurd (ground arith)
    | inl (s₁, first) ↦ elim (reduce_cases h s e first) [
      | inl again ↦
          let came : has_come e.event_id seen ≡ true = ground (arith, t e.event_id, again.known) in
          rw came (replay_tail-first_deliveries seen s es s' t (rw again.result at (rw first at r)))
      | inr a ↦
          let new : has_come e.event_id seen ≡ false = ground (arith, t e.event_id, a.fresh) in
          rw (new, first)
            (replay_tail-first_deliveries (e.event_id ∷ seen) s₁ es s'
              (rw a.result
                (Tracks-append seen s.applied_event_fingerprints e.event_id (fingerprint h e) t))
              (rw first at r))
    ]
  ]

  -- A log with redelivered events replays to the state that it replays to without them: its first
  -- deliveries, one event for each id in the order in which the ids came, replay to the same
  -- state, and they are the complete numbered history of the run, which the state's next_sequence
  -- and table of applied events record.
  pub replay-first_deliveries :
      (run_id : String) (es : List ExecutionEvent) (s : RunState)
      → replay h run_id es ≡ ok s
      → (replay h run_id (first_deliveries [] es) ≡ ok s)
        × LogOf h (initial_state run_id) (first_deliveries [] es) s
  unfolding replay initial fingerprint_in is_known
  replay-first_deliveries run_id es s r = (
    replay_once,
    replay-numbered h run_id (first_deliveries [] es) s (first_deliveries-Distinct [] es).1
        replay_once,
  )
    where
      replay_once : replay h run_id (first_deliveries [] es) ≡ ok s
      replay_once = elim (Result-cases (initial run_id)) [
        | inr (x, refused) ↦ absurd (ground arith)
        | inl (s₀, start) ↦
            let empty : s₀ ≡ initial_state run_id = ground arith in
            rw start (
              replay_tail-first_deliveries [] s₀ es s (rw empty (λ event_id. refl)) (rw start at r))
      ]
