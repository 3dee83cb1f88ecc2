-- ===== src/Persistence/EventStore/Log.antt =====
-- What the event store promises: an append-only log of events, newest first, in which every run
-- numbers its events from 0 and no event id occurs twice. The store's rows stand for such a log.
use agent_runtime_lab.Prelude.{
  ℕ, ◌+◌, String, ◌≡◌, ◌⊎◌, refl, Option, none, some, List, [], ◌∷◌, ◌++◌, length, holds,
  string_dec, nat_dec, if◌then◌else◌, length-append, arith,
}
use agent_runtime_lab.Result.{Result, ok, duplicate_event_conflict, sequence_mismatch, ◌>>◌, check}
use agent_runtime_lab.Json.{Host}
use agent_runtime_lab.Domain.Event.{ExecutionEvent, fingerprint, IsEvent}
use agent_runtime_lab.Persistence.EventStore.{EventRow, chain_seed, next_chain_digest, row_of}

abbrev pub Log : Type 0
Log = List ExecutionEvent

-- The events of one run, oldest first.
unfoldable pub history : String → Log → List ExecutionEvent
history run_id [] = []
history run_id (e ∷ log) =
    let older = history run_id log in
    if holds (string_dec e.run_id run_id) then older ++ e ∷ [] else older

unfoldable pub size : String → Log → ℕ
size run_id [] = 0
size run_id (e ∷ log) =
    let older = size run_id log in if holds (string_dec e.run_id run_id) then older + 1 else older

pub length-history : (run_id : String) (log : Log) → length (history run_id log) ≡ size run_id log
unfolding history size
length-history run_id [] = refl
length-history run_id (e ∷ log) =
    ground (arith, length-append (history run_id log) (e ∷ []), length-history run_id log)

module _ (h : Host) where
  -- The fingerprint that an event id is stored with.
  unfoldable pub known : String → Log → Option String
  known event_id [] = none
  known event_id (e ∷ log) =
      let found = known event_id log in
      if holds (string_dec e.event_id event_id) then some (fingerprint h e) else found

  -- The digest of a sequence of events that follows a digest.
  unfoldable pub digest_from : String → List ExecutionEvent → String
  digest_from digest [] = digest
  digest_from digest (e ∷ es) = digest_from (next_chain_digest h digest (fingerprint h e)) es

  -- The digest of a run's newest event.
  unfoldable pub chain : String → Log → String
  chain run_id [] = chain_seed
  chain run_id (e ∷ log) =
      let older = chain run_id log in
      if holds (string_dec e.run_id run_id)
      then next_chain_digest h older (fingerprint h e)
      else older

  -- The rows that stand for a log.
  unfoldable pub rows_of : Log → List EventRow
  rows_of [] = []
  rows_of (e ∷ log) =
      row_of h (next_chain_digest h (chain e.run_id log) (fingerprint h e)) e ∷ rows_of log

  abbrev pub IsLog : Log → Type 0
  IsLog [] = Unit
  IsLog (e ∷ log) =
      (e.sequence ≡ size e.run_id log) × (known e.event_id log ≡ none) × IsEvent h e × IsLog log

  abbrev pub accept_known : Log → ExecutionEvent → Option String → Result Log
  accept_known log e (some existing) = do
    check (string_dec existing (fingerprint h e)) duplicate_event_conflict
    ok log
  accept_known log e none = do
    check (nat_dec e.sequence (size e.run_id log)) sequence_mismatch
    ok (e ∷ log)

  -- Appending to a log: an exact redelivery changes nothing, another event under a stored id is a
  -- conflict, and a new event must carry the next number of its run.
  unfoldable pub accept : Log → ExecutionEvent → Result Log
  accept log e = accept_known log e (known e.event_id log)

  pub accept_cases :
      (log next : Log) (e : ExecutionEvent)
      → accept log e ≡ ok next
      → (next ≡ log) ⊎ (next ≡ e ∷ log)
  unfolding accept
  accept_cases log next e a = ground arith

  pub accept-IsLog :
      (log : Log) (e : ExecutionEvent) {log' : Log}
      → IsLog log
      → IsEvent h e
      → accept log e ≡ ok log'
      → IsLog log'
  unfolding accept
  accept-IsLog [] e v i a = ground arith
  accept-IsLog (x ∷ log) e v i a = ground arith

  digest_from-append :
      (digest : String) (xs : List ExecutionEvent) (e : ExecutionEvent)
      → digest_from digest (xs ++ e ∷ [])
        ≡ next_chain_digest h (digest_from digest xs) (fingerprint h e)
  unfolding digest_from
  digest_from-append digest [] e = refl
  digest_from-append digest (x ∷ xs) e =
      digest_from-append (next_chain_digest h digest (fingerprint h x)) xs e

  -- The chain of a run digests its whole history.
  pub chain-history :
      (run_id : String) (log : Log) → chain run_id log ≡ digest_from chain_seed (history run_id log)
  unfolding chain history digest_from
  chain-history run_id [] = refl
  chain-history run_id (e ∷ log) =
      ground (arith, chain-history run_id log, digest_from-append chain_seed (history run_id log) e)
