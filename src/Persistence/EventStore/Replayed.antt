-- ===== src/Persistence/EventStore/Replayed.antt =====
-- The history of a run in a log, when it is replayed (persistence/sqlite_store.py, domain/replay.py).
use agent_runtime_lab.Prelude.{
  String, ◌≡◌, ◌⊎◌, inl, inr, true, false, none, List, [], ◌∷◌, ◌++◌, holds, string_dec, Bool-cases,
  subst, arith,
}
use agent_runtime_lab.Result.{ok, Result-cases}
use agent_runtime_lab.Json.{Host}
use agent_runtime_lab.Domain.Event.{ExecutionEvent, fingerprint}
use agent_runtime_lab.Domain.State.{RunState, initial, fingerprint_in}
use agent_runtime_lab.Domain.Reducer.{reduce}
use agent_runtime_lab.Domain.Reducer.Steps.{Applied, reduce_cases}
use agent_runtime_lab.Domain.Reducer.Redelivery.{fingerprint_in-append}
use agent_runtime_lab.Domain.Replay.{replay, replay_tail}
use agent_runtime_lab.Domain.Replay.Log.{replay-append}
use agent_runtime_lab.Persistence.EventStore.Log.{
  Log, history, size, known, IsLog, accept, accept_cases,
}

module _ (h : Host) (run_id : String) where
  -- The run's history in the log replays to the state.
  abbrev pub ReplaysTo : Log → RunState → Type 0
  ReplaysTo log s = replay h run_id (history run_id log) ≡ ok s

  -- A replay that ends in an event has replayed what precedes it.
  replay_last :
      (es : List ExecutionEvent) (e : ExecutionEvent) (s' : RunState)
      → replay h run_id (es ++ e ∷ []) ≡ ok s'
      → (s : RunState) × (replay h run_id es ≡ ok s) × (reduce h s e ≡ ok s')
  unfolding replay_tail
  replay_last es e s' r = elim (Result-cases (replay h run_id es)) [
    | inr (x, refused) ↦ absurd (ground (arith, replay-append h run_id es (e ∷ [])))
    | inl (s, before) ↦ elim (Result-cases (reduce h s e)) [
      | inr (x, refused) ↦ absurd (ground (arith, replay-append h run_id es (e ∷ [])))
      | inl (t, step) ↦ (s, before, ground (arith, replay-append h run_id es (e ∷ [])))
    ]
  ]

  -- The newest event of a log is of another run, or it made the last step of the replay.
  pub newest_cases :
      (e : ExecutionEvent) (log : Log) (s' : RunState)
      → ReplaysTo (e ∷ log) s'
      → (ReplaysTo log s' × (holds (string_dec e.run_id run_id) ≡ false))
        ⊎ ((s : RunState) × ReplaysTo log s
            × (reduce h s e ≡ ok s')
            × (holds (string_dec e.run_id run_id) ≡ true))
  unfolding history
  newest_cases e log s' r = elim (Bool-cases (holds (string_dec e.run_id run_id))) [
    | inr other ↦ inl (rw other at r, other)
    | inl same ↦
        let (s, before, step) = replay_last (history run_id log) e s' (rw same at r) in
        inr (s, before, step, same)
  ]

  -- The state has counted the run's events, and has applied none that the log does not know.
  pub record IsCounted (log : Log) (s : RunState) : Type 0 where
    pub number : s.next_sequence ≡ size run_id log
    pub unknown :
        (event_id : String)
        → known h event_id log ≡ none
        → fingerprint_in event_id s.applied_event_fingerprints ≡ none

  Applied-IsCounted :
      (e : ExecutionEvent) (log : Log) (s s' : RunState)
      → IsLog h (e ∷ log)
      → holds (string_dec e.run_id run_id) ≡ true
      → IsCounted log s
      → Applied h s e s'
      → IsCounted (e ∷ log) s'
  unfolding known size
  Applied-IsCounted e log s s' i same c a = record {
    number = rw (a.result, same) (ground (arith, c.number));
    unknown = λ event_id fresh. rw a.result (
        ground (
          arith,
          fingerprint_in-append event_id e.event_id (fingerprint h e) s.applied_event_fingerprints
              (c.unknown event_id (ground arith)),
        ));
  }

  pub replayed-IsCounted :
      (log : Log) (s : RunState) → IsLog h log → ReplaysTo log s → IsCounted log s
  unfolding history replay replay_tail initial size known fingerprint_in
  replayed-IsCounted [] s i r = record {
    number = ground arith;
    unknown = λ event_id fresh. ground arith;
  }
  replayed-IsCounted (e ∷ log) s' i r = elim (newest_cases e log s' r) [
    | inl (before, other) ↦
        let c = replayed-IsCounted log s' i.3 before in
        record {
          number = rw other c.number;
          unknown = λ event_id fresh. c.unknown event_id (ground arith);
        }
    | inr (s, before, step, same) ↦
        let c = replayed-IsCounted log s i.3 before in
        elim (reduce_cases h s e step) [
          | inl again ↦ absurd (ground (arith, again.known, c.unknown e.event_id i.1))
          | inr a ↦ Applied-IsCounted e log s s' i same c a
        ]
  ]

  -- What each step of a replay keeps holds on after an accepted event.
  module _ (P : RunState → Type 0)
      (keeps : (s : RunState) (e : ExecutionEvent) (s' : RunState)
        → P s
        → reduce h s e ≡ ok s'
        → P s') where
    pub accept-replayed :
        (log next : Log) (e : ExecutionEvent)
        → accept h log e ≡ ok next
        → ((s : RunState) → ReplaysTo log s → P s)
        → (s : RunState) → ReplaysTo next s
        → P s
    accept-replayed log next e a p s r = elim (accept_cases h log next e a) [
      | inl same ↦ p s (subst (λ l. ReplaysTo l s) same r)
      | inr more ↦ elim (newest_cases e log s (subst (λ l. ReplaysTo l s) more r)) [
        | inl (before, other) ↦ p s before
        | inr (s₀, before, step, same) ↦ keeps s₀ e s (p s₀ before) step
      ]
    ]
