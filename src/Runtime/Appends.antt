-- ===== src/Runtime/Appends.antt =====
-- Reading and recording events keeps what the runtime's world records.
use agent_runtime_lab.Prelude.{
  String, ◌≡◌, refl, sym, ◌∙◌, subst, inl, inr, Bool, true, false, Option, none, some,
  if◌then◌else◌, Bool-cases, arith,
}
use agent_runtime_lab.Result.{ok, err, runtime_error, Result-cases}
use agent_runtime_lab.Json.{Host, IsCanonical, ReadsBack, ReadsDates, Fields, DateTime}
use agent_runtime_lab.Domain.Event.{EventType, ExecutionEvent, IsEvent}
use agent_runtime_lab.Domain.State.{RunState}
use agent_runtime_lab.Domain.Reducer.Checks.{required_text}
use agent_runtime_lab.Domain.Reducer.Gates.{Permits}
use agent_runtime_lab.Domain.Replay.{replay}
use agent_runtime_lab.Domain.Replay.Permits.{PermitIn}
use agent_runtime_lab.Persistence.EventStore
use agent_runtime_lab.Persistence.EventStore.{EventStore, load_snapshot, save_snapshot}
use agent_runtime_lab.Persistence.EventStore.Log.{Log, history, IsLog, accept}
use agent_runtime_lab.Persistence.EventStore.Refinement.{append-Represents}
use agent_runtime_lab.Persistence.EventStore.Selection.{load-history}
use agent_runtime_lab.Persistence.EventStore.Snapshots.{AreSnapshots}
use agent_runtime_lab.Persistence.EventStore.Reachable.{accept-AreSnapshots}
use agent_runtime_lab.Persistence.EventStore.Transparency.{
  load_snapshot-replay, save_snapshot-AreSnapshots,
}
use agent_runtime_lab.Runtime.{
  Runtime, SnapshotCheckpoint, after_snapshot_persisted, before_tail_replay, before_full_replay,
}
use agent_runtime_lab.Runtime.Events.{
  RuntimeWorld, Run, lift, query, write, load_state, load_from, reach_snapshot_checkpoint,
  replay_stored, replay_snapshot, create_snapshot, save_replayed, next_event, append, read_clock,
  stored_snapshot,
}
use agent_runtime_lab.Runtime.Outcomes.{
  Ends, Gives, Keeps, Gives-bind, Gives-lift, Gives-query, Gives-return, Gives-mono, Gives-quiet,
}
use agent_runtime_lab.Runtime.Recorded.{
  Identifies, IsRecorded, Stable, HasPermit-Extends, accept-Extends, accept-permit,
  build_event-IsEvent,
}

load_from_same :
    (r : Runtime) (run_id : String) (o : Option RunState) (w : RuntimeWorld)
    → (load_from r run_id o w).1 ≡ w
unfolding load_from reach_snapshot_checkpoint
load_from_same r run_id none w = elim (Bool-cases (r.stops_at before_full_replay)) [
  | inl stop ↦ rw stop refl
  | inr on ↦ rw on refl
]
load_from_same r run_id (some s) w = elim (Bool-cases (r.stops_at before_tail_replay)) [
  | inl stop ↦ rw stop refl
  | inr on ↦ rw on refl
]

reached :
    (r : Runtime) (at : SnapshotCheckpoint) (w : RuntimeWorld)
    → (reach_snapshot_checkpoint r at w).1 ≡ w
unfolding reach_snapshot_checkpoint
reached r at w = elim (Bool-cases (r.stops_at at)) [ inl stop ↦ rw stop refl | inr on ↦ rw on refl ]

pub either_gives :
    {A : Type 0} {S P : RuntimeWorld → Type 0} {Q : A → RuntimeWorld → Type 0} (test : Bool)
    {m n : Run A}
    → Gives S P m Q
    → Gives S P n Q
    → Gives S P (if test then m else n) Q
either_gives true first second = first
either_gives false first second = second

either_same :
    {A : Type 0} (test : Bool) (m n : Run A) (w : RuntimeWorld)
    → (m w).1 ≡ w
    → (n w).1 ≡ w
    → ((if test then m else n) w).1 ≡ w
either_same true m n w first second = first
either_same false m n w first second = second

pub load_state_same :
    (r : Runtime) (run_id : String) (w : RuntimeWorld) → (load_state r run_id w).1 ≡ w
unfolding load_state
load_state_same r run_id w =
    either_same r.uses_snapshots _ _ w
      (load_from_same r run_id (load_snapshot r.host w.events run_id) w) refl

-- The world is recorded, and something holds of its log.
abbrev pub Holds : Host → (Log → Type 0) → (Log → Type 0) → RuntimeWorld → Type 0
Holds h I K w = (i : IsRecorded h I w) × K i.log

-- The log of the world permits the call.
abbrev pub Permitted : Runtime → (Log → Type 0) → String → String → RuntimeWorld → Type 0
Permitted r I run_id call = Holds r.host I (λ log. PermitIn call (history run_id log))

-- The state is the replay of the run's history in the log.
abbrev pub Loaded : Runtime → (Log → Type 0) → String → RunState → RuntimeWorld → Type 0
Loaded r I run_id s = Holds r.host I (λ log. replay r.host run_id (history run_id log) ≡ ok s)

module _ (r : Runtime) (c : IsCanonical r.host) (b : ReadsBack r.host c) (dates : ReadsDates r.host)
    (I : Log → Type 0) (stable : Stable r.host I) where
  pub recorded_event :
      (K K' : Log → Type 0) (e : ExecutionEvent)
      → IsEvent r.host e
      → ((log next : Log) → IsLog r.host log → accept r.host log e ≡ ok next → K log → K' next)
      → (w : RuntimeWorld) → Holds r.host I K w
      → Ends
          (IsRecorded r.host I)
          (λ u. Holds r.host I K')
          (write (λ store. EventStore.append r.host store e) w)
  recorded_event K K' e v step w (i, k) =
      elim (Result-cases (EventStore.append r.host w.events e)) [
        | inr (x, refused) ↦ rw refused i
        | inl (store, stored) ↦
            let (next, accepted, represents, same) =
              append-Represents r.host w.events i.log i.represents e v stored in
            let snapshots : AreSnapshots r.host next store.run_snapshots =
              subst (λ (t : EventStore). AreSnapshots r.host next t.run_snapshots) (sym same)
                (accept-AreSnapshots r.host c b dates w.events i.log next e i.snapshots accepted) in
            rw stored (
              record {
                log = next;
                represents = represents;
                snapshots = snapshots;
                permitted =
                    HasPermit-Extends r.host i.log next w.effects.calls
                      (accept-Extends r.host i.log next e accepted) i.permitted;
                kept = stable i.log next e accepted i.kept;
              },
              step i.log next i.represents.valid accepted k,
            )
      ]

  pub clock_read :
      (K : Log → Type 0)
      → Gives (Holds r.host I K) (IsRecorded r.host I) (read_clock r) (λ now. Holds r.host I K)
  clock_read K = record {
    ends = λ w k. (
      record {
        log = k.0.log;
        represents = record { rows = k.0.represents.rows; valid = k.0.represents.valid };
        snapshots = k.0.snapshots;
        permitted = k.0.permitted;
        kept = k.0.kept;
      },
      k.1,
    );
  }

  pub next_event-IsEvent :
      (run_id : String) (t : EventType) (payload : Fields) (s : RunState) (now : DateTime)
      {e : ExecutionEvent}
      → next_event r run_id t payload s now ≡ ok e
      → IsEvent r.host e
        × ((e.run_id ≡ run_id) × (e.event_type ≡ t) × (e.payload ≡ c.reread payload))
  unfolding next_event
  next_event-IsEvent run_id t payload s now built =
      let (v, run, type, fields) = build_event-IsEvent r.host c _ run_id _ t now payload built in
      (v, (run, type, fields))

  -- What holds of the log after an event of this run, type and payload holds after `_append`.
  pub append-Holds :
      (K K' : Log → Type 0) (run_id : String) (t : EventType) (payload : Fields)
      → ((e : ExecutionEvent)
          → IsEvent r.host e
          → (e.run_id ≡ run_id) × (e.event_type ≡ t) × (e.payload ≡ c.reread payload)
          → (log next : Log) → IsLog r.host log
          → accept r.host log e ≡ ok next
          → K log
          → K' next)
      → Gives
          (Holds r.host I K)
          (IsRecorded r.host I)
          (append r run_id t payload)
          (λ s. Holds r.host I K')
  unfolding append
  append-Holds K K' run_id t payload step =
      Gives-bind {S = Holds r.host I K} {m = load_state r run_id}
        (Gives-quiet (λ w k. k.0) (load_state_same r run_id))
        (λ s. Gives-bind {m = read_clock r} (clock_read K) (λ now.
          Gives-bind {m = lift (next_event r run_id t payload s now)}
            (Gives-lift (λ w k. k.0) (next_event r run_id t payload s now))
            (λ e.
              Gives-bind {m = write (λ store. EventStore.append r.host store e)}
                (record {
                  ends = λ w k.
                      let (v, fields) = next_event-IsEvent run_id t payload s now k.1 in
                      recorded_event K K' e v (step e v fields) w k.0;
                })
                (λ u.
                  Gives-mono (λ w k. k) (λ s' w k. k.0)
                    (Gives-query {S = Holds r.host I K'} (λ w k. k.0) (replay_stored r run_id))))))

  pub append-Recorded :
      (run_id : String) (t : EventType) (payload : Fields)
      → Keeps (IsRecorded r.host I) (append r run_id t payload)
  append-Recorded run_id t payload =
      Gives-mono (λ w i. (i, tt)) (λ s w k. k.0)
        (append-Holds (λ log. Unit) (λ log. Unit) run_id t payload
          (λ e v fields log next i a k. tt))

  pub append-Permitted :
      (run call run_id : String) (t : EventType) (payload : Fields)
      → Gives
          (Permitted r I run call)
          (IsRecorded r.host I)
          (append r run_id t payload)
          (λ s. Permitted r I run call)
  append-Permitted run call run_id t payload =
      append-Holds _ _ run_id t payload
        (λ e v fields log next i a k. accept-Extends r.host log next e a call run k)

  -- A recorded permit is in the log.
  pub append_permit :
      Identifies r.host
      → (run_id call : String) (t : EventType) (payload : Fields) → Permits t (c.reread payload)
      → required_text (c.reread payload) "tool_call_id" ≡ ok call
      → Gives
          (IsRecorded r.host I)
          (IsRecorded r.host I)
          (append r run_id t payload)
          (λ s. Permitted r I run_id call)
  append_permit identifies run_id call t payload permits names =
      Gives-mono (λ w i. (i, tt)) (λ s w k. k)
        (append-Holds (λ log. Unit) (λ log. PermitIn call (history run_id log)) run_id t payload
          (λ e v fields log next i a k.
            subst (λ id. PermitIn call (history id next)) fields.0
              (accept-permit r.host identifies call e v (rw (fields.1, fields.2) (permits, names))
                log next i a)))

module _ (r : Runtime) (c : IsCanonical r.host) (b : ReadsBack r.host c) (dates : ReadsDates r.host)
    (I : Log → Type 0) where
  pub replayed :
      (run_id : String) (s : RunState) (w : RuntimeWorld)
      → IsRecorded r.host I w
      → replay_stored r run_id w.events ≡ ok s
      → Loaded r I run_id s w
  unfolding replay_stored
  replayed run_id s w i e = (
    i,
    ground (
      arith,
      load-history r.host w.events i.log i.represents.rows run_id dates i.represents.valid,
    ),
  )

  same_replay :
      (run_id : String) (snapshot s : RunState) (w : RuntimeWorld)
      → IsRecorded r.host I w
      → ok (load_snapshot r.host w.events run_id) ≡ ok (some snapshot)
      → replay_snapshot r run_id snapshot w.events ≡ ok s
      → replay_stored r run_id w.events ≡ ok s
  unfolding replay_stored replay_snapshot
  same_replay run_id snapshot s w i found e =
      sym (
        load_snapshot-replay r.host c b dates w.events i.log i.represents i.snapshots run_id
          snapshot (ground arith))
      ∙ e

  load_from-Loaded :
      (run_id : String) (o : Option RunState)
      → Gives
          (λ w. IsRecorded r.host I w × (ok (load_snapshot r.host w.events run_id) ≡ ok o))
          (IsRecorded r.host I)
          (load_from r run_id o)
          (Loaded r I run_id)
  unfolding load_from
  load_from-Loaded run_id none =
      Gives-bind {m = reach_snapshot_checkpoint r before_full_replay}
        (Gives-quiet (λ w k. k.0) (reached r before_full_replay))
        (λ u.
          Gives-mono (λ w k. k.0) (λ s w k. replayed run_id s w k.0 k.1)
            (Gives-query {S = IsRecorded r.host I} (λ w i. i) (replay_stored r run_id)))
  load_from-Loaded run_id (some snapshot) =
      Gives-bind {m = reach_snapshot_checkpoint r before_tail_replay}
        (Gives-quiet (λ w k. k.0) (reached r before_tail_replay))
        (λ u.
          Gives-mono (λ w k. k)
            (λ s w k. replayed run_id s w k.0.0 (same_replay run_id snapshot s w k.0.0 k.0.1 k.1))
            (Gives-query (λ w k. k.0) (replay_snapshot r run_id snapshot)))

  pub load_state-Loaded :
      (run_id : String)
      → Gives (IsRecorded r.host I) (IsRecorded r.host I) (load_state r run_id) (Loaded r I run_id)
  unfolding load_state
  load_state-Loaded run_id =
      either_gives r.uses_snapshots
        (Gives-bind {m = stored_snapshot r run_id} (Gives-query (λ w i. i) _)
          (load_from-Loaded run_id))
        (Gives-mono (λ w i. i) (λ s w k. replayed run_id s w k.0 k.1)
          (Gives-query {S = IsRecorded r.host I} (λ w i. i) (replay_stored r run_id)))

  snapshot_saved :
      (s : RunState) → Keeps (IsRecorded r.host I) (write (λ store. save_snapshot r.host store s))
  snapshot_saved s = record { ends = λ w i. saved w i }
    where
      saved :
          (w : RuntimeWorld)
          → IsRecorded r.host I w
          → Ends
              (IsRecorded r.host I)
              (λ u. IsRecorded r.host I)
              (write (λ store. save_snapshot r.host store s) w)
      saved w i = elim (Result-cases (save_snapshot r.host w.events s)) [
        | inr (x, refused) ↦ rw refused i
        | inl (store, stored) ↦
            let (snapshots, same) =
              save_snapshot-AreSnapshots r.host c b dates w.events i.log i.represents i.snapshots s
                stored in
            rw stored (record {
              log = i.log;
              represents = record { rows = same ∙ i.represents.rows; valid = i.represents.valid };
              snapshots = snapshots;
              permitted = i.permitted;
              kept = i.kept;
            })
      ]

  pub create_snapshot-Recorded :
      (run_id : String) → Keeps (IsRecorded r.host I) (create_snapshot r run_id)
  unfolding create_snapshot save_replayed
  create_snapshot-Recorded run_id =
      either_gives r.uses_snapshots
        (Gives-bind {m = query (replay_stored r run_id)}
          (Gives-query {S = IsRecorded r.host I} (λ w i. i) (replay_stored r run_id))
          (λ s.
            Gives-bind {m = write (λ store. save_snapshot r.host store s)}
              (Gives-mono (λ w k. k.0) (λ u w i. i) (snapshot_saved s))
              (λ u.
                Gives-bind {m = reach_snapshot_checkpoint r after_snapshot_persisted}
                  (Gives-quiet (λ w i. i) (reached r after_snapshot_persisted))
                  (λ v. Gives-return s))))
        (Gives-mono (λ w i. i) (λ s w k. k.0)
          (Gives-lift {S = IsRecorded r.host I} (λ w i. i) (err runtime_error)))
