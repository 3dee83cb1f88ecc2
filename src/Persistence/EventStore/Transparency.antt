-- ===== src/Persistence/EventStore/Transparency.antt =====
-- Replay from a snapshot and replay of the whole log give the same (sqlite_store.py and replay.py).
use agent_runtime_lab.Prelude.{
  ◌≤◌, String, ◌≡◌, refl, sym, subst, ◌∙◌, ap, true, false, leb, some, List, take, drop, length,
  is_empty, take-append-drop, Bool-cases, Option-cases, inl, inr, arith,
}
use agent_runtime_lab.Prelude.Int.{pos}
use agent_runtime_lab.Result.{ok, ◌>>=◌, Result-cases}
use agent_runtime_lab.Json.{Host, IsCanonical, ReadsBack, ReadsDates}
use agent_runtime_lab.Domain.Event.{ExecutionEvent}
use agent_runtime_lab.Domain.State.{RunState, run_state, positive_limit, initial}
use agent_runtime_lab.Domain.Reducer.Budget.{IsBudgeted}
use agent_runtime_lab.Domain.Reducer.Redelivery.{run_id-reduce}
use agent_runtime_lab.Domain.Replay.{replay, replay_tail}
use agent_runtime_lab.Domain.Replay.Invariants.{replay_invariant, replay-IsBudgeted}
use agent_runtime_lab.Domain.Replay.Log.{replay-append}
use agent_runtime_lab.Persistence.Snapshots.{decode_state}
use agent_runtime_lab.Persistence.Snapshots.RoundTrip.{decode_state-encode_state}
use agent_runtime_lab.Persistence.EventStore.{
  EventStore, SnapshotRow, chain_seed, prefix_chain_digest, load_tail, load, snapshot_row, upsert,
  save_snapshot, find_snapshot, state_from_row, load_snapshot,
}
use agent_runtime_lab.Persistence.EventStore.Log.{Log, history, size, digest_from}
use agent_runtime_lab.Persistence.EventStore.Rows.{
  prefix_chain_digest-rows_of, prefix_chain_digest_none,
}
use agent_runtime_lab.Persistence.EventStore.Selection.{load_tail-history, load-history}
use agent_runtime_lab.Persistence.EventStore.Refinement.{Represents}
use agent_runtime_lab.Persistence.EventStore.Snapshots.{
  IsSnapshot, AreSnapshots, prefix_of, AreSnapshots-upsert, find_snapshot-upsert,
  find_snapshot-IsSnapshot,
}

positive-Positive : (s : RunState) → IsBudgeted s → positive_limit s.max_steps ≡ true
positive-Positive s b = ground (arith, b.positive)

replay-nonempty :
    (h : Host) (run_id : String) (es : List ExecutionEvent) {s : RunState}
    → replay h run_id es ≡ ok s
    → is_empty run_id ≡ false
unfolding replay initial
replay-nonempty h run_id es r = ground arith

replay-run_id :
    (h : Host) (run_id : String) (es : List ExecutionEvent) {s : RunState}
    → replay h run_id es ≡ ok s
    → s.run_id ≡ run_id
replay-run_id h run_id es =
    replay_invariant h (λ s. s.run_id ≡ run_id) (λ s e s' p r. run_id-reduce h s e r ∙ p) run_id es
      refl

-- A state that a log replays to passes the checks of its constructor.
pub replay-run_state :
    (h : Host) (run_id : String) (es : List ExecutionEvent) (s : RunState)
    → replay h run_id es ≡ ok s
    → run_state s ≡ ok s
unfolding run_state
replay-run_state h run_id es s r = ground (
  arith,
  positive-Positive s (replay-IsBudgeted h run_id es r),
  ap is_empty (replay-run_id h run_id es r) ∙ replay-nonempty h run_id es r,
)

module _ (h : Host) (c : IsCanonical h) (b : ReadsBack h c) where
  -- The text of a snapshot is decoded to the state that it was written for.
  snapshot-decode :
      (log : Log) (row : SnapshotRow) (i : IsSnapshot h log row)
      → decode_state h row.state_json ≡ ok i.state
  snapshot-decode log row i =
      ap (λ (r : SnapshotRow). decode_state h r.state_json) i.written
      ∙ decode_state-encode_state h c b i.state (replay-run_state h _ _ i.state i.derived)

  state_from_row-IsSnapshot :
      (store : EventStore) (run_id : String) (log : Log) (row : SnapshotRow)
      (i : IsSnapshot h log row) (s : RunState)
      → state_from_row h store run_id row ≡ ok s
      → (s ≡ i.state) × (s.run_id ≡ run_id)
  unfolding state_from_row
  state_from_row-IsSnapshot store run_id log row i s e = ground (arith, snapshot-decode log row i)

  module _ (dates : ReadsDates h) (store : EventStore) (log : Log) (r : Represents h store log)
      (snaps : AreSnapshots h log store.run_snapshots) where
    -- A snapshot that loads is the state of the events that it counts.
    pub load_snapshot-prefix :
        (run_id : String) (s : RunState)
        → load_snapshot h store run_id ≡ some s
        → replay h run_id (take s.next_sequence (history run_id log)) ≡ ok s
    unfolding load_snapshot
    load_snapshot-prefix run_id s e =
        elim (Option-cases (find_snapshot h run_id store.run_snapshots)) [
          | inl missing ↦ absurd (ground arith)
          | inr (row, found) ↦
              let i = find_snapshot-IsSnapshot h log run_id store.run_snapshots row snaps found in
              let read : state_from_row h store run_id row ≡ ok s = ground arith in
              let (same, run) = state_from_row-IsSnapshot store run_id log row i s read in
              let runs : i.state.run_id ≡ run_id =
                ap (λ (t : RunState). t.run_id) (sym same) ∙ run in
              rw same (
                subst (λ id. replay h id (take i.state.next_sequence (history id log)) ≡ ok i.state)
                  runs i.derived)
        ]

    -- Rebuilding a state from a snapshot that loads and the events after it has the result, or the
    -- error, of replaying the whole log of the run.
    pub load_snapshot-replay :
        (run_id : String) (s : RunState)
        → load_snapshot h store run_id ≡ some s
        → (load_tail h store run_id (pos s.next_sequence) >>= λ tail. replay_tail h s tail)
          ≡ (load h store run_id >>= λ events. replay h run_id events)
    load_snapshot-replay run_id s e =
        let all = history run_id log in
        let n = s.next_sequence in
        let whole : replay h run_id all ≡ replay_tail h s (drop n all) =
          ap (λ es. replay h run_id es) (sym (take-append-drop n all))
          ∙ replay-append h run_id (take n all) (drop n all)
          ∙ ap (λ m. m >>= λ t. replay_tail h t (drop n all)) (load_snapshot-prefix run_id s e) in
        rw
          (
            load_tail-history h store log r.rows run_id n dates r.valid,
            load-history h store log r.rows run_id dates r.valid,
          )
          (sym whole)

    prefix_digest :
        (s : RunState)
        → leb s.next_sequence (size s.run_id log) ≡ true
        → prefix_chain_digest s.run_id s.next_sequence store.execution_events
          ≡ some (digest_from h chain_seed (prefix_of s log))
    prefix_digest s within =
        ap (prefix_chain_digest s.run_id s.next_sequence) r.rows
        ∙ prefix_chain_digest-rows_of h s.run_id s.next_sequence log r.valid (ground arith)

    events : (s : RunState) → load_tail h store s.run_id (pos 0) ≡ ok (history s.run_id log)
    events s = load_tail-history h store log r.rows s.run_id 0 dates r.valid

    -- What `save_snapshot` checks before it writes.
    saved_row :
        (s : RunState) {store' : EventStore}
        → save_snapshot h store s ≡ ok store'
        → (row : SnapshotRow) × (i : IsSnapshot h log row) × (i.state ≡ s)
          × (row ≡ snapshot_row h s (digest_from h chain_seed (prefix_of s log)))
          × (store' ≡ record store { run_snapshots = upsert h row store.run_snapshots })
    unfolding save_snapshot
    saved_row s {store'} e = elim (Bool-cases (leb s.next_sequence (size s.run_id log))) [
      | inr beyond ↦
          absurd (
            ground (arith, r.rows, prefix_chain_digest_none h s.run_id s.next_sequence log r.valid))
      | inl within ↦ elim (Result-cases (replay h s.run_id (prefix_of s log))) [
        | inr (x, refused) ↦ absurd (ground (arith, prefix_digest s within, events s))
        | inl (t, replayed) ↦
            let same : t ≡ s = ground (arith, prefix_digest s within, events s) in
            (
              snapshot_row h s (digest_from h chain_seed (prefix_of s log)),
              record {
                state = s;
                covered = ground arith;
                derived = replayed ∙ ap ok same;
                counted = ground (arith, prefix_digest s within, events s);
                written = refl;
              },
              refl,
              refl,
              ground (arith, prefix_digest s within, events s),
            )
      ]
    ]

    -- A saved snapshot keeps the snapshots valid and the events as they were.
    pub save_snapshot-AreSnapshots :
        (s : RunState) {store' : EventStore}
        → save_snapshot h store s ≡ ok store'
        → AreSnapshots h log store'.run_snapshots
          × (store'.execution_events ≡ store.execution_events)
    save_snapshot-AreSnapshots s {store'} e =
        let (row, i, same, written, stored) = saved_row s e in
        (
          subst (λ (t : EventStore). AreSnapshots h log t.run_snapshots) (sym stored)
              (AreSnapshots-upsert h log row store.run_snapshots i snaps),
          ap (λ (t : EventStore). t.execution_events) stored,
        )

    -- The row of a snapshot is read as its state while the store has the events that it counts.
    state_from_row-snapshot_row :
        (store' : EventStore) (s : RunState)
        → store'.execution_events ≡ store.execution_events
        → s.next_sequence ≤ size s.run_id log
        → run_state s ≡ ok s
        → length s.applied_event_fingerprints ≡ s.next_sequence
        → state_from_row h store' s.run_id
            (snapshot_row h s (digest_from h chain_seed (prefix_of s log)))
          ≡ ok s
    unfolding state_from_row
    state_from_row-snapshot_row store' s same within valid counted =
        ground
          (arith, decode_state-encode_state h c b s valid, prefix_digest s (ground arith), same)

    -- In a store that stands for a log and has only snapshots of prefixes of it, where json and
    -- datetime read back what they wrote, a state that is saved as a snapshot is the one that is
    -- loaded for its run.
    pub load_snapshot-save_snapshot :
        (s : RunState) (store' : EventStore)
        → save_snapshot h store s ≡ ok store'
        → load_snapshot h store' s.run_id ≡ some s
    unfolding load_snapshot
    load_snapshot-save_snapshot s store' e =
        let (row, i, same, written, stored) = saved_row s e in
        let wanted = snapshot_row h s (digest_from h chain_seed (prefix_of s log)) in
        let found : find_snapshot h s.run_id store'.run_snapshots ≡ some wanted =
          ap (λ (t : EventStore). find_snapshot h s.run_id t.run_snapshots) stored
          ∙ ap (λ (r : SnapshotRow). find_snapshot h s.run_id (upsert h r store.run_snapshots))
              written
          ∙ find_snapshot-upsert h wanted store.run_snapshots in
        let read : state_from_row h store' s.run_id wanted ≡ ok s =
          state_from_row-snapshot_row store' s (ap (λ (t : EventStore). t.execution_events) stored)
            (subst (λ (t : RunState). t.next_sequence ≤ size t.run_id log) same i.covered)
            (replay-run_state h s.run_id (prefix_of s log) s
              (subst (λ (t : RunState). replay h t.run_id (prefix_of t log) ≡ ok t) same i.derived))
            (subst (λ (t : RunState). length t.applied_event_fingerprints ≡ t.next_sequence) same
              i.counted) in
        rw (found, read)
