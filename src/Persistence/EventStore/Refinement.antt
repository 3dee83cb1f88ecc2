-- ===== src/Persistence/EventStore/Refinement.antt =====
-- The event store implements an append-only log.
use agent_runtime_lab.Prelude.{
  String, ◌≡◌, ◌∙◌, ap, none, some, filter, Option-cases, inl, inr, arith,
}
use agent_runtime_lab.Result.{ok, ◌>>=◌, Result-cases}
use agent_runtime_lab.Json.{Host}
use agent_runtime_lab.Domain.Event.{ExecutionEvent, IsEvent}
use agent_runtime_lab.Persistence.EventStore.{
  EventStore, of_run, last_row, append, append_known, append_after, find_fingerprint,
}
use agent_runtime_lab.Persistence.EventStore.Log.{
  Log, known, rows_of, IsLog, accept, accept_known, accept-IsLog,
}
use agent_runtime_lab.Persistence.EventStore.Rows.{
  find_fingerprint-rows_of, last_row-rows_of, same_slot-rows_of,
}

-- The store's table of events stands for a log.
pub record Represents (h : Host) (store : EventStore) (log : Log) : Type 0 where
  pub rows : store.execution_events ≡ rows_of h log
  pub valid : IsLog h log

-- The store with the rows of a log.
abbrev pub holding : Host → EventStore → Log → EventStore
holding h store log = record store { execution_events = rows_of h log }

module _ (h : Host) (store : EventStore) (log : Log) (r : Represents h store log) where
  append_after-accept :
      (e : ExecutionEvent)
      → append_after h store e (last_row (filter (of_run e.run_id) store.execution_events))
        ≡ (accept_known h log e none >>= λ next. ok (holding h store next))
  unfolding append_after rows_of
  append_after-accept e =
      let (next, digest) = last_row-rows_of h e.run_id log r.valid in
      ground (arith, r.rows, next, digest, same_slot-rows_of h e log r.valid)

  holding-log : holding h store log ≡ store
  holding-log = ground (arith, r.rows)

  append_known-accept :
      (e : ExecutionEvent) (existing : String)
      → append_known h store e existing
        ≡ (accept_known h log e (some existing) >>= λ next. ok (holding h store next))
  unfolding append_known
  append_known-accept e existing = ground (arith, holding-log)

  known_rows :
      (e : ExecutionEvent)
      → find_fingerprint e.event_id store.execution_events ≡ known h e.event_id log
  known_rows e = ap (find_fingerprint e.event_id) r.rows ∙ find_fingerprint-rows_of h e.event_id log

  -- Appending to a store that stands for a log is appending to that log: it succeeds, refuses a
  -- conflict or refuses the number exactly when the log does, and then has the new log's rows.
  pub append-accept :
      (e : ExecutionEvent)
      → append h store e ≡ (accept h log e >>= λ next. ok (holding h store next))
  unfolding append accept
  append-accept e = elim (Option-cases (known h e.event_id log)) [
    | inl fresh ↦ rw (known_rows e, fresh) (append_after-accept e)
    | inr (existing, found) ↦ rw (known_rows e, found) (append_known-accept e existing)
  ]

  -- After a successful append the store stands for the log that accepted the event.
  pub append-Represents :
      (e : ExecutionEvent) {store' : EventStore}
      → IsEvent h e
      → append h store e ≡ ok store'
      → (next : Log) × (accept h log e ≡ ok next)
        × Represents h store' next
        × (store' ≡ holding h store next)
  append-Represents e {store'} i a = elim (Result-cases (accept h log e)) [
    | inr (x, refused) ↦ absurd (ground (arith, append-accept e))
    | inl (next, accepted) ↦
        let stored : store' ≡ holding h store next = ground (arith, append-accept e) in
        (
          next,
          accepted,
          record {
            rows = ap (λ (s : EventStore). s.execution_events) stored;
            valid = accept-IsLog h log e r.valid i accepted;
          },
          stored,
        )
  ]
