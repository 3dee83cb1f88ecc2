-- ===== src/Persistence/EventStore.antt =====
-- src/agent_runtime_lab/persistence/sqlite_store.py: the append-only table of events with its digest
-- chain, and the table of snapshots. A transaction that raises is rolled back, so an operation
-- returns the new tables or an error. Tables are sets of rows: they are listed newest first.
pub mod Log
pub mod Replayed
pub mod Rows
pub mod Selection
pub mod Refinement
pub mod Snapshots
pub mod Transparency
pub mod Reachable
use agent_runtime_lab.Prelude.{
  ℕ, zero, suc, ◌+◌, String, Bool, true, false, not, ◌&&◌, ◌==◌, leb, Option, none, some, List, [],
  ◌∷◌, filter, any, take, length, holds, string_dec, nat_dec, ◌<>◌, if◌then◌else◌,
}
use agent_runtime_lab.Prelude.Int.{ℤ, pos, negsuc}
use agent_runtime_lab.Result.{
  Result, ok, err, value_error, duplicate_event_conflict, sequence_mismatch, integrity_error, ◌>>=◌,
  ◌>>◌, guard, check,
}
use agent_runtime_lab.Json.{dict, DateTime, Host}
use agent_runtime_lab.Domain.Event.{
  EventType, ExecutionEvent, event_type_value, event_type_of, execution_event, fingerprint,
}
use agent_runtime_lab.Domain.State.{RunState, RunState-discrete}
use agent_runtime_lab.Domain.Replay.{replay}
use agent_runtime_lab.Persistence.Snapshots.{
  snapshot_schema_version, encode_state, decode_state, digest_state,
}

pub record EventRow : Type 0 where
  pub event_id : String
  pub run_id : String
  pub sequence : ℕ
  pub event_type : String
  pub occurred_at : String
  pub payload_json : String
  pub fingerprint : String
  pub chain_digest : String

pub record SnapshotRow : Type 0 where
  pub run_id : String
  pub schema_version : ℕ
  pub next_sequence : ℕ
  pub prefix_chain_digest : String
  pub state_json : String
  pub state_digest : String

pub record EventStore : Type 0 where
  pub execution_events : List EventRow
  pub run_snapshots : List SnapshotRow

abbrev pub empty_store : EventStore
empty_store = record { execution_events = []; run_snapshots = [] }

-- `CHAIN_SEED`
abbrev pub chain_seed : String
chain_seed = "0000000000000000000000000000000000000000000000000000000000000000"

-- `SELECT fingerprint FROM execution_events WHERE event_id = ?`
unfoldable pub find_fingerprint : String → List EventRow → Option String
find_fingerprint event_id [] = none
find_fingerprint event_id (r ∷ rows) =
    let found = find_fingerprint event_id rows in
    if holds (string_dec r.event_id event_id) then some r.fingerprint else found

-- `WHERE run_id = ?`
abbrev pub of_run : String → EventRow → Bool
of_run run_id r = holds (string_dec r.run_id run_id)

abbrev pub later : EventRow → Option EventRow → Option EventRow
later r none = some r
later r (some s) = if leb s.sequence r.sequence then some r else some s

-- `ORDER BY sequence DESC LIMIT 1`
unfoldable pub last_row : List EventRow → Option EventRow
last_row [] = none
last_row (r ∷ rows) = later r (last_row rows)

unfoldable pub insert_row : EventRow → List EventRow → List EventRow
insert_row r [] = r ∷ []
insert_row r (s ∷ rows) =
    let rest = insert_row r rows in if leb r.sequence s.sequence then r ∷ s ∷ rows else s ∷ rest

-- `ORDER BY sequence ASC`
unfoldable pub order_by_sequence : List EventRow → List EventRow
order_by_sequence [] = []
order_by_sequence (r ∷ rows) = insert_row r (order_by_sequence rows)

-- `WHERE run_id = ? AND sequence >= ? ORDER BY sequence ASC`
unfoldable pub select_tail : String → ℕ → List EventRow → List EventRow
select_tail run_id start rows =
    order_by_sequence (filter (λ r. of_run run_id r && leb start r.sequence) rows)

-- `SELECT chain_digest ... WHERE run_id = ? AND sequence = ?`
unfoldable pub find_digest : String → ℕ → List EventRow → Option String
find_digest run_id sequence [] = none
find_digest run_id sequence (r ∷ rows) =
    let found = find_digest run_id sequence rows in
    if of_run run_id r && r.sequence == sequence then some r.chain_digest else found

-- `_prefix_chain_digest(run_id, next_sequence)`, where the second is not negative
unfoldable pub prefix_chain_digest : String → ℕ → List EventRow → Option String
prefix_chain_digest run_id zero rows = some chain_seed
prefix_chain_digest run_id (suc n) rows = find_digest run_id n rows

-- `count(run_id)`
unfoldable pub count : EventStore → String → ℕ
count store run_id = length (filter (of_run run_id) store.execution_events)

abbrev pub expected_sequence : Option EventRow → ℕ
expected_sequence none = 0
expected_sequence (some r) = r.sequence + 1

abbrev pub previous_digest : Option EventRow → String
previous_digest none = chain_seed
previous_digest (some r) = r.chain_digest

-- `UNIQUE (run_id, sequence)` would be broken by a row of this event.
abbrev pub same_slot : ExecutionEvent → EventRow → Bool
same_slot e r = of_run e.run_id r && r.sequence == e.sequence

abbrev parsed_type : Option EventType → Result EventType
parsed_type none = err value_error
parsed_type (some t) = ok t

abbrev parsed_date : Option DateTime → Result DateTime
parsed_date none = err value_error
parsed_date (some d) = ok d

module _ (h : Host) where
  -- `_next_chain_digest(previous_digest, event_fingerprint)`
  unfoldable pub next_chain_digest : String → String → String
  next_chain_digest previous event_fingerprint = h.sha256 (previous <> (":" <> event_fingerprint))

  -- The values that `append` inserts for an event.
  abbrev pub row_of : String → ExecutionEvent → EventRow
  row_of chain_digest e = record {
    event_id = e.event_id;
    run_id = e.run_id;
    sequence = e.sequence;
    event_type = event_type_value e.event_type;
    occurred_at = h.isoformat e.occurred_at;
    payload_json = h.dumps (dict e.payload);
    fingerprint = fingerprint h e;
    chain_digest = chain_digest;
  }

  -- An event whose id is stored: accepted if it is the stored one.
  unfoldable pub append_known : EventStore → ExecutionEvent → String → Result EventStore
  append_known store e existing = do
    check (string_dec existing (fingerprint h e)) duplicate_event_conflict
    ok store

  unfoldable pub append_after : EventStore → ExecutionEvent → Option EventRow → Result EventStore
  append_after store e last = do
    check (nat_dec e.sequence (expected_sequence last)) sequence_mismatch
    guard (not (any (same_slot e) store.execution_events)) integrity_error
    ok (record store {
      execution_events =
          row_of (next_chain_digest (previous_digest last) (fingerprint h e)) e
          ∷ store.execution_events;
    })

  abbrev pub append_at : EventStore → ExecutionEvent → Option String → Result EventStore
  append_at store e (some existing) = append_known store e existing
  append_at store e none =
      append_after store e (last_row (filter (of_run e.run_id) store.execution_events))

  -- `append(event)`
  unfoldable pub append : EventStore → ExecutionEvent → Result EventStore
  append store e = append_at store e (find_fingerprint e.event_id store.execution_events)

  -- The event that is constructed from a row's columns.
  unfoldable pub event_from_row : EventRow → Result ExecutionEvent
  event_from_row r = do
    event_type ← parsed_type (event_type_of r.event_type)
    occurred_at ← parsed_date (h.fromisoformat r.occurred_at)
    execution_event h r.event_id r.run_id (pos r.sequence) event_type occurred_at r.payload_json

  unfoldable pub events_from_rows : List EventRow → Result (List ExecutionEvent)
  events_from_rows [] = ok []
  events_from_rows (r ∷ rows) = do e ← event_from_row r; es ← events_from_rows rows; ok (e ∷ es)

  -- `load_tail(run_id, start_sequence)`
  unfoldable pub load_tail : EventStore → String → ℤ → Result (List ExecutionEvent)
  load_tail store run_id (negsuc _) = err value_error
  load_tail store run_id (pos start) =
      events_from_rows (select_tail run_id start store.execution_events)

  -- `load(run_id)`
  unfoldable pub load : EventStore → String → Result (List ExecutionEvent)
  unfolding load_tail
  load store run_id = load_tail store run_id (pos 0)

  abbrev pub snapshot_row : RunState → String → SnapshotRow
  snapshot_row s prefix_digest = record {
    run_id = s.run_id;
    schema_version = snapshot_schema_version;
    next_sequence = s.next_sequence;
    prefix_chain_digest = prefix_digest;
    state_json = encode_state h s;
    state_digest = digest_state h (encode_state h s);
  }

  -- `INSERT ... ON CONFLICT(run_id) DO UPDATE`
  unfoldable pub upsert : SnapshotRow → List SnapshotRow → List SnapshotRow
  upsert row [] = row ∷ []
  upsert row (r ∷ rows) =
      let rest = upsert row rows in
      if holds (string_dec r.run_id row.run_id) then row ∷ rows else r ∷ rest

  abbrev stored_prefix : Option String → Result String
  stored_prefix none = err value_error
  stored_prefix (some digest) = ok digest

  -- `save_snapshot(state)`
  unfoldable pub save_snapshot : EventStore → RunState → Result EventStore
  save_snapshot store s = do
    prefix_digest ←
        stored_prefix (prefix_chain_digest s.run_id s.next_sequence store.execution_events)
    check (nat_dec (length s.applied_event_fingerprints) s.next_sequence) value_error
    events ← load_tail store s.run_id (pos 0)
    prefix_state ← replay h s.run_id (take s.next_sequence events)
    check (RunState-discrete prefix_state s) value_error
    ok (record store { run_snapshots = upsert (snapshot_row s prefix_digest) store.run_snapshots })

  unfoldable pub find_snapshot : String → List SnapshotRow → Option SnapshotRow
  find_snapshot run_id [] = none
  find_snapshot run_id (r ∷ rows) =
      let found = find_snapshot run_id rows in
      if holds (string_dec r.run_id run_id) then some r else found

  -- The checks of `load_snapshot` on a decoded row.
  unfoldable pub bound_state : EventStore → String → SnapshotRow → RunState → Result RunState
  bound_state store run_id row s = do
    check (string_dec s.run_id run_id) value_error
    check (nat_dec s.next_sequence row.next_sequence) value_error
    check (nat_dec (length s.applied_event_fingerprints) s.next_sequence) value_error
    current ← stored_prefix (prefix_chain_digest run_id s.next_sequence store.execution_events)
    check (string_dec current row.prefix_chain_digest) value_error
    ok s

  unfoldable pub state_from_row : EventStore → String → SnapshotRow → Result RunState
  unfolding bound_state
  state_from_row store run_id row = do
    check (nat_dec row.schema_version snapshot_schema_version) value_error
    check (string_dec (digest_state h row.state_json) row.state_digest) value_error
    s ← decode_state h row.state_json
    bound_state store run_id row s

  -- A snapshot that does not validate counts as none.
  abbrev valid_only : Result RunState → Option RunState
  valid_only (ok s) = some s
  valid_only (err _) = none

  abbrev pub snapshot_at : EventStore → String → Option SnapshotRow → Option RunState
  snapshot_at store run_id none = none
  snapshot_at store run_id (some row) = valid_only (state_from_row store run_id row)

  -- `load_snapshot(run_id)`
  unfoldable pub load_snapshot : EventStore → String → Option RunState
  load_snapshot store run_id = snapshot_at store run_id (find_snapshot run_id store.run_snapshots)
