-- ===== src/Runtime/Turns.antt =====
-- The runtime's calls, and how many turns of its step budget a run has consumed
-- (authorized_tool_runtime.py).
use agent_runtime_lab.Prelude.{
  ℕ, ◌+◌, ◌<◌, ◌≤◌, String, ◌≡◌, sym, subst, ap, ◌∙◌, inl, inr, some, [], ◌∷◌, holds, string_dec,
  Bool-cases, Option-cases, arith,
}
use agent_runtime_lab.Result.{ok}
use agent_runtime_lab.Json.{Host, IsCanonical, ReadsBack, ReadsDates, Fields, DateTime}
use agent_runtime_lab.Domain.Event.{
  EventType, ExecutionEvent, IsEvent, fingerprint, build_event, execution_event,
}
use agent_runtime_lab.Domain.State.{RunState}
use agent_runtime_lab.Domain.Reducer.{reduce, dispatch}
use agent_runtime_lab.Domain.Reducer.Steps.{reduce_cases, reduce_invariant, record_event}
use agent_runtime_lab.Domain.Reducer.Turns.{HasReached, dispatch-HasReached}
use agent_runtime_lab.Domain.Replay.Invariants.{replay-IsBudgeted}
use agent_runtime_lab.Persistence.EventStore.Log.{
  Log, history, size, known, IsLog, accept, accept-IsLog,
}
use agent_runtime_lab.Persistence.EventStore.Replayed.{
  ReplaysTo, newest_cases, replayed-IsCounted, accept-replayed,
}
use agent_runtime_lab.Persistence.EventStore
use agent_runtime_lab.Runtime.{Runtime}
use agent_runtime_lab.Runtime.Events.{
  RuntimeWorld, lift, write, load_state, append, next_event, read_clock, replay_stored,
}
use agent_runtime_lab.Runtime.Outcomes.{
  Ends, Gives, Gives-bind, Gives-lift, Gives-query, Gives-mono,
}
use agent_runtime_lab.Runtime.Recorded.{Identifies, IsRecorded, Stable}
use agent_runtime_lab.Runtime.Appends.{
  Holds, load_state-Loaded, clock_read, next_event-IsEvent, recorded_event, replayed,
}

module _ (h : Host) where
  -- A state that the log replays to has reached the turn.
  abbrev pub Turned : String → ℕ → ℕ → Log → Type 0
  Turned run_id limit n log = (s : RunState) → ReplaysTo h run_id log s → HasReached limit n s

  reduce-HasReached :
      (limit n : ℕ) (s : RunState) (e : ExecutionEvent) (s' : RunState)
      → HasReached limit n s
      → reduce h s e ≡ ok s'
      → HasReached limit n s'
  reduce-HasReached limit n s e s' =
      reduce_invariant h (HasReached limit n) (λ s t e p. ground arith)
        (λ t s i p s'. dispatch-HasReached limit n t s i p) s e

  pub Turned-Stable : (run_id : String) (limit n : ℕ) → Stable h (Turned run_id limit n)
  Turned-Stable run_id limit n =
      accept-replayed h run_id (HasReached limit n) (reduce-HasReached limit n)

  -- An event that is stored already has a number that the run has used.
  known_number :
      Identifies h
      → (e : ExecutionEvent) → IsEvent h e
      → (log : Log) → IsLog h log
      → known h e.event_id log ≡ some (fingerprint h e)
      → e.sequence < size e.run_id log
  unfolding known size
  known_number identifies e v [] i found = absurd (ground arith)
  known_number identifies e v (x ∷ log) i found =
      elim (Bool-cases (holds (string_dec x.event_id e.event_id))) [
        | inl here ↦
            let same : x ≡ e = identifies x e i.2 v (ground arith) in ground (arith, same, i.0)
        | inr other ↦ ground (arith, known_number identifies e v log i.3 (ground arith))
      ]

  -- The next event of the run's state, once accepted, is the newest one.
  pub accept_next :
      Identifies h
      → (log next : Log) (e : ExecutionEvent) (s : RunState) → IsLog h log
      → IsEvent h e
      → ReplaysTo h e.run_id log s
      → e.sequence ≡ s.next_sequence
      → accept h log e ≡ ok next
      → next ≡ e ∷ log
  unfolding accept
  accept_next identifies log next e s i v r numbered a =
      elim (Option-cases (known h e.event_id log)) [
        | inl fresh ↦ ground arith
        | inr (existing, found) ↦
            let counted = replayed-IsCounted h e.run_id log s i r in
            absurd (
              ground (
                arith,
                known_number identifies e v log i (found ∙ ap some (ground arith)),
                counted.number,
              ))
      ]

next_event-sequence :
    (r : Runtime) (run_id : String) (t : EventType) (payload : Fields) (s : RunState)
    (now : DateTime) {e : ExecutionEvent}
    → next_event r run_id t payload s now ≡ ok e
    → e.sequence ≡ s.next_sequence
unfolding next_event build_event execution_event
next_event-sequence r run_id t payload s now built = ground arith

module _ (r : Runtime) (c : IsCanonical r.host) (b : ReadsBack r.host c) (dates : ReadsDates r.host)
    (identifies : Identifies r.host) (run_id : String) (limit n : ℕ) where
  abbrev I : Log → Type 0
  I = Turned r.host run_id limit n

  I-Stable : Stable r.host I
  I-Stable = Turned-Stable r.host run_id limit n

  abbrev Afterwards : (RunState → Type 0) → Log → Type 0
  Afterwards Q log = (s : RunState) → ReplaysTo r.host run_id log s → Q s

  module _ (t : EventType) (payload : Fields) (Q : RunState → Type 0)
      (frame : (s s' : RunState) (e : ExecutionEvent) → Q s' → Q (record_event r.host s s' e))
      (step : (s : RunState) (event_id : String) (s' : RunState)
        → HasReached limit n s
        → dispatch t s event_id (c.reread payload) ≡ ok s'
        → Q s') where
    reduced :
        (s : RunState) (e : ExecutionEvent) (s' : RunState) (log : Log)
        → e.event_type ≡ t
        → e.payload ≡ c.reread payload
        → IsLog r.host (e ∷ log)
        → e.run_id ≡ run_id
        → ReplaysTo r.host run_id log s
        → I log
        → reduce r.host s e ≡ ok s'
        → Q s'
    unfolding size
    reduced s e s' log type fields i run before k r' = elim (reduce_cases r.host s e r') [
      | inl again ↦ absurd (
          ground (
            arith,
            again.known,
            (replayed-IsCounted r.host run_id log s i.3 before).unknown e.event_id i.1,
          ))
      | inr a ↦ subst Q (sym a.result) (
          frame s a.moved e
            (step s e.event_id a.moved (k s before) (rw (type, fields) at a.transitioned)))
    ]

    accepted :
        (s : RunState) (e : ExecutionEvent) (log next : Log)
        → IsEvent r.host e
        → (e.run_id ≡ run_id) × (e.event_type ≡ t) × (e.payload ≡ c.reread payload)
        → e.sequence ≡ s.next_sequence
        → IsLog r.host log
        → accept r.host log e ≡ ok next
        → I log × ReplaysTo r.host run_id log s
        → Afterwards Q next
    accepted s e log next v fields numbered i a k s' r' =
        let more : next ≡ e ∷ log =
          accept_next r.host identifies log next e s i v
            (subst (λ id. ReplaysTo r.host id log s) (sym fields.0) k.1) numbered a in
        let valid = subst (IsLog r.host) more (accept-IsLog r.host log e i v a) in
        elim (newest_cases r.host run_id e log s'
          (subst (λ l. ReplaysTo r.host run_id l s') more r')) [
            | inl (before, other) ↦ absurd (ground (arith, fields.0, other))
            | inr (s₀, before, last, same) ↦
                reduced s₀ e s' log fields.1 fields.2 valid fields.0 before k.0 last
          ]

    abbrev Before : RunState → Log → Type 0
    Before s log = I log × ReplaysTo r.host run_id log s

    loaded_again :
        (s : RunState) (w : RuntimeWorld)
        → Holds r.host I (Afterwards Q) w
        → replay_stored r run_id w.events ≡ ok s
        → Holds r.host I (λ log. ReplaysTo r.host run_id log s × Q s) w
    loaded_again s w k e =
        let (i, before) =
          replayed r c b dates (λ log. I log × Afterwards Q log) run_id s w
            (record {
              log = k.0.log;
              represents = k.0.represents;
              snapshots = k.0.snapshots;
              permitted = k.0.permitted;
              kept = (k.0.kept, k.1);
            })
            e in
        (
          record {
            log = i.log;
            represents = i.represents;
            snapshots = i.snapshots;
            permitted = i.permitted;
            kept = i.kept.0;
          },
          (before, i.kept.1 s before),
        )

    wrote :
        (s : RunState) (now : DateTime) (e : ExecutionEvent) (w : RuntimeWorld)
        → Holds r.host I (Before s) w
        → next_event r run_id t payload s now ≡ ok e
        → Ends
            (IsRecorded r.host I)
            (λ u. Holds r.host I (Afterwards Q))
            (write (λ store. EventStore.append r.host store e) w)
    wrote s now e w k built =
        let (v, fields) = next_event-IsEvent r c b dates I I-Stable run_id t payload s now built in
        let numbered = next_event-sequence r run_id t payload s now built in
        recorded_event r c b dates I I-Stable (Before s) (Afterwards Q) e v
          (λ log next i a. accepted s e log next v fields numbered i a) w k

    -- What the dispatch of the next event makes of a state holds after `_append`.
    pub append_last :
        Gives
          (IsRecorded r.host I)
          (IsRecorded r.host I)
          (append r run_id t payload)
          (λ s. Holds r.host I (λ log. ReplaysTo r.host run_id log s × Q s))
    unfolding append
    append_last =
        Gives-bind {m = load_state r run_id}
          (Gives-mono (λ w i. i) (λ s w k. (k.0, (k.0.kept, k.1)))
            (load_state-Loaded r c b dates I run_id))
          (λ s. Gives-bind {m = read_clock r} (clock_read r c b dates I I-Stable (Before s)) (λ now.
            Gives-bind {m = lift (next_event r run_id t payload s now)}
              (Gives-lift (λ w k. k.0) (next_event r run_id t payload s now))
              (λ e.
                Gives-bind {m = write (λ store. EventStore.append r.host store e)}
                  (record { ends = λ w k. wrote s now e w k.0 k.1 })
                  (λ u.
                    Gives-mono (λ w k. k) (λ s' w k. loaded_again s' w k.0 k.1)
                      (Gives-query {S = Holds r.host I (Afterwards Q)} (λ w k. k.0)
                        (replay_stored r run_id))))))

  -- A state in which the run has consumed one more turn: the limit allowed it.
  pub advanced :
      (s : RunState) (w : RuntimeWorld)
      → Holds r.host I (λ log. ReplaysTo r.host run_id log s) w
      → HasReached limit (n + 1) s
      → IsRecorded r.host (Turned r.host run_id limit (n + 1)) w × (n + 1 ≤ limit)
  advanced s w k q = (
    record {
      log = k.0.log;
      represents = k.0.represents;
      snapshots = k.0.snapshots;
      permitted = k.0.permitted;
      kept = λ s' again. subst (HasReached limit (n + 1)) (ground (arith, again, k.1)) q;
    },
    within,
  )
    where
      within : n + 1 ≤ limit
      within =
          let kept = replay-IsBudgeted r.host run_id (history run_id k.0.log) k.1 in
          ground (arith, kept.consumed, q.limited, q.reached)
