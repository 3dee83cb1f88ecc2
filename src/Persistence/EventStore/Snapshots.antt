-- ===== src/Persistence/EventStore/Snapshots.antt =====
-- Snapshots of the event store (save_snapshot and load_snapshot): a snapshot that loads is the state
-- of a prefix of its run's history.
use agent_runtime_lab.Prelude.{
  ◌≤◌, String, ◌≡◌, subst, some, List, [], ◌∷◌, take, length, All, holds, string_dec, Bool-cases,
  inl, inr, arith,
}
use agent_runtime_lab.Result.{ok}
use agent_runtime_lab.Json.{Host}
use agent_runtime_lab.Domain.Event.{ExecutionEvent}
use agent_runtime_lab.Domain.State.{RunState}
use agent_runtime_lab.Domain.Replay.{replay}
use agent_runtime_lab.Persistence.EventStore.{
  SnapshotRow, chain_seed, snapshot_row, upsert, find_snapshot,
}
use agent_runtime_lab.Persistence.EventStore.Log.{Log, history, size, length-history, digest_from}
use agent_runtime_lab.Persistence.EventStore.Rows.{take-append}

-- The first events of the state's run that the state counts.
abbrev pub prefix_of : RunState → Log → List ExecutionEvent
prefix_of s log = take s.next_sequence (history s.run_id log)

-- The row was written for the state of a prefix of the log.
pub record IsSnapshot (h : Host) (log : Log) (row : SnapshotRow) : Type 0 where
  pub state : RunState
  pub covered : state.next_sequence ≤ size state.run_id log
  pub derived : replay h state.run_id (prefix_of state log) ≡ ok state
  pub counted : length state.applied_event_fingerprints ≡ state.next_sequence
  pub written : row ≡ snapshot_row h state (digest_from h chain_seed (prefix_of state log))

abbrev pub AreSnapshots : Host → Log → List SnapshotRow → Type 0
AreSnapshots h log = All (IsSnapshot h log)

prefix_of-cons :
    (s : RunState) (e : ExecutionEvent) (log : Log)
    → s.next_sequence ≤ size s.run_id log
    → prefix_of s (e ∷ log) ≡ prefix_of s log
unfolding history
prefix_of-cons s e log le = ground (
  arith,
  length-history s.run_id log,
  take-append s.next_sequence (history s.run_id log) (e ∷ []),
)

-- A later event leaves what the snapshots cover as it was.
pub IsSnapshot-cons :
    (h : Host) (e : ExecutionEvent) (log : Log) (row : SnapshotRow)
    → IsSnapshot h log row
    → IsSnapshot h (e ∷ log) row
unfolding size
IsSnapshot-cons h e log row i =
    let same = prefix_of-cons i.state e log i.covered in
    record {
      state = i.state;
      covered = ground (arith, i.covered);
      derived = rw same i.derived;
      counted = i.counted;
      written = rw same i.written;
    }

pub AreSnapshots-cons :
    (h : Host) (e : ExecutionEvent) (log : Log) (rows : List SnapshotRow)
    → AreSnapshots h log rows
    → AreSnapshots h (e ∷ log) rows
AreSnapshots-cons h e log [] all = tt
AreSnapshots-cons h e log (row ∷ rows) all =
    (IsSnapshot-cons h e log row all.0, AreSnapshots-cons h e log rows all.1)

pub AreSnapshots-upsert :
    (h : Host) (log : Log) (row : SnapshotRow) (rows : List SnapshotRow)
    → IsSnapshot h log row
    → AreSnapshots h log rows
    → AreSnapshots h log (upsert h row rows)
unfolding upsert
AreSnapshots-upsert h log row [] i all = (i, tt)
AreSnapshots-upsert h log row (r ∷ rows) i all =
    elim (Bool-cases (holds (string_dec r.run_id row.run_id))) [
      | inl same ↦ rw same (i, all.1)
      | inr other ↦ rw other (all.0, AreSnapshots-upsert h log row rows i all.1)
    ]

pub find_snapshot-upsert :
    (h : Host) (row : SnapshotRow) (rows : List SnapshotRow)
    → find_snapshot h row.run_id (upsert h row rows) ≡ some row
unfolding find_snapshot upsert
find_snapshot-upsert h row [] = ground arith
find_snapshot-upsert h row (r ∷ rows) = ground (arith, find_snapshot-upsert h row rows)

pub find_snapshot-IsSnapshot :
    (h : Host) (log : Log) (run_id : String) (rows : List SnapshotRow) (row : SnapshotRow)
    → AreSnapshots h log rows
    → find_snapshot h run_id rows ≡ some row
    → IsSnapshot h log row
unfolding find_snapshot
find_snapshot-IsSnapshot h log run_id [] row all found = absurd (ground arith)
find_snapshot-IsSnapshot h log run_id (r ∷ rows) row all found =
    elim (Bool-cases (holds (string_dec r.run_id run_id))) [
      | inl same ↦ let e : r ≡ row = ground arith in subst (IsSnapshot h log) e all.0
      | inr other ↦ find_snapshot-IsSnapshot h log run_id rows row all.1 (rw other at found)
    ]
