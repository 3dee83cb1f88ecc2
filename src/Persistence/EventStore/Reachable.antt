-- ===== src/Persistence/EventStore/Reachable.antt =====
-- Every store that appends and snapshots can build, in any order, whether they succeed or not.
use agent_runtime_lab.Prelude.{
  String, ◌≡◌, refl, sym, subst, ◌∙◌, List, [], ◌∷◌, some, inl, inr, All,
}
use agent_runtime_lab.Prelude.Int.{pos}
use agent_runtime_lab.Result.{Result, ok, err, Result-cases, ◌>>=◌}
use agent_runtime_lab.Json.{Host, IsCanonical, ReadsBack, ReadsDates}
use agent_runtime_lab.Domain.Event.{ExecutionEvent, IsEvent}
use agent_runtime_lab.Domain.State.{RunState}
use agent_runtime_lab.Domain.Replay.{replay, replay_tail}
use agent_runtime_lab.Persistence.EventStore.{
  EventStore, empty_store, append, save_snapshot, load_snapshot, load_tail, load,
}
use agent_runtime_lab.Persistence.EventStore.Log.{Log, accept, accept_cases, rows_of}
use agent_runtime_lab.Persistence.EventStore.Refinement.{Represents, append-Represents}
use agent_runtime_lab.Persistence.EventStore.Snapshots.{AreSnapshots, AreSnapshots-cons}
use agent_runtime_lab.Persistence.EventStore.Transparency.{
  save_snapshot-AreSnapshots, load_snapshot-replay,
}

-- A call of the store by a client.
pub data StoreCall : Type 0 where
  append_event : ExecutionEvent → StoreCall
  snapshot : RunState → StoreCall

abbrev kept : EventStore → Result EventStore → EventStore
kept store (ok next) = next
kept store (err _) = store

module _ (h : Host) where
  -- A call that raises leaves the store as it was.
  unfoldable pub perform : EventStore → StoreCall → EventStore
  perform store (append_event e) = kept store (append h store e)
  perform store (snapshot s) = kept store (save_snapshot h store s)

  unfoldable pub perform_all : EventStore → List StoreCall → EventStore
  perform_all store [] = store
  perform_all store (call ∷ calls) = perform_all (perform store call) calls

  -- Clients append events that the constructor built.
  abbrev pub IsCall : StoreCall → Type 0
  IsCall (append_event e) = IsEvent h e
  IsCall (snapshot s) = Unit

-- The store stands for a log, and its snapshots are those of prefixes of that log.
pub record IsStore (h : Host) (store : EventStore) : Type 0 where
  pub log : Log
  pub represents : Represents h store log
  pub snapshots : AreSnapshots h log store.run_snapshots

module _ (h : Host) (c : IsCanonical h) (b : ReadsBack h c) (dates : ReadsDates h) where
  pub accept-AreSnapshots :
      (store : EventStore) (log next : Log) (e : ExecutionEvent)
      → AreSnapshots h log store.run_snapshots
      → accept h log e ≡ ok next
      → AreSnapshots h next store.run_snapshots
  accept-AreSnapshots store log next e snaps a = elim (accept_cases h log next e a) [
    | inl same ↦ subst (λ l. AreSnapshots h l store.run_snapshots) (sym same) snaps
    | inr more ↦
        subst (λ l. AreSnapshots h l store.run_snapshots) (sym more)
          (AreSnapshots-cons h e log store.run_snapshots snaps)
  ]

  append-IsStore :
      (store : EventStore) (e : ExecutionEvent) {store' : EventStore}
      → IsStore h store
      → IsEvent h e
      → append h store e ≡ ok store'
      → IsStore h store'
  append-IsStore store e {store'} i v a =
      let (next, accepted, represents, stored) =
        append-Represents h store i.log i.represents e v a in
      record {
        log = next;
        represents = represents;
        snapshots =
            subst (λ (t : EventStore). AreSnapshots h next t.run_snapshots) (sym stored)
              (accept-AreSnapshots store i.log next e i.snapshots accepted);
      }

  save_snapshot-IsStore :
      (store : EventStore) (s : RunState) {store' : EventStore}
      → IsStore h store
      → save_snapshot h store s ≡ ok store'
      → IsStore h store'
  save_snapshot-IsStore store s i a =
      let (snaps, same) =
        save_snapshot-AreSnapshots h c b dates store i.log i.represents i.snapshots s a in
      record {
        log = i.log;
        represents = record { rows = same ∙ i.represents.rows; valid = i.represents.valid };
        snapshots = snaps;
      }

  perform-IsStore :
      (store : EventStore) (call : StoreCall)
      → IsStore h store
      → IsCall h call
      → IsStore h (perform h store call)
  unfolding perform
  perform-IsStore store (append_event e) i v = elim (Result-cases (append h store e)) [
    | inl (next, done) ↦ rw done (append-IsStore store e i v done)
    | inr (x, refused) ↦ rw refused i
  ]
  perform-IsStore store (snapshot s) i v = elim (Result-cases (save_snapshot h store s)) [
    | inl (next, done) ↦ rw done (save_snapshot-IsStore store s i done)
    | inr (x, refused) ↦ rw refused i
  ]

  perform_all-IsStore :
      (calls : List StoreCall) (store : EventStore)
      → IsStore h store
      → All (IsCall h) calls
      → IsStore h (perform_all h store calls)
  unfolding perform_all
  perform_all-IsStore [] store i v = i
  perform_all-IsStore (call ∷ calls) store i v =
      perform_all-IsStore calls (perform h store call) (perform-IsStore store call i v.0) v.1

  empty_store-IsStore : IsStore h empty_store
  unfolding rows_of
  empty_store-IsStore = record {
    log = [];
    represents = record { rows = refl; valid = tt };
    snapshots = tt;
  }

  -- Where json and datetime read back what they wrote, in every store that is built from an empty
  -- one by appends of events and by snapshots, whether they succeed or not, a snapshot that loads
  -- is as good as the log: rebuilding the state from it and the events from its next_sequence on
  -- has the result, or the error, of replaying all events of the run.
  pub perform_all-snapshot :
      (calls : List StoreCall) (run_id : String) (s : RunState)
      → All (IsCall h) calls
      → load_snapshot h (perform_all h empty_store calls) run_id ≡ some s
      → (load_tail h (perform_all h empty_store calls) run_id (pos s.next_sequence) >>= λ tail.
          replay_tail h s tail)
        ≡ (load h (perform_all h empty_store calls) run_id >>= λ events. replay h run_id events)
  perform_all-snapshot calls run_id s v loaded =
      let i = perform_all-IsStore calls empty_store empty_store-IsStore v in
      load_snapshot-replay h c b dates _ i.log i.represents i.snapshots run_id s loaded
