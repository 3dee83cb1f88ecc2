-- ===== src/Persistence/EventStore/Rows.antt =====
-- What the queries of the event store find in the rows of a log.
use agent_runtime_lab.Prelude.{
  ℕ, zero, suc, ◌≤◌, ◌<◌, String, ◌≡◌, refl, false, Option, none, some, List, [], ◌∷◌, ◌++◌, take,
  filter, any, length, length-append, ap, arith,
}
use agent_runtime_lab.Json.{Host}
use agent_runtime_lab.Domain.Event.{ExecutionEvent}
use agent_runtime_lab.Persistence.EventStore.{
  EventRow, chain_seed, find_fingerprint, of_run, last_row, same_slot, find_digest,
  prefix_chain_digest, expected_sequence, previous_digest,
}
use agent_runtime_lab.Persistence.EventStore.Log.{
  Log, history, size, length-history, known, chain, digest_from, chain-history, rows_of, IsLog,
}

take_all {ℓ} : {A : Type ℓ} (n : ℕ) (xs : List A) → length xs ≤ n → take n xs ≡ xs
take_all zero [] le = refl
take_all (suc n) [] le = refl
take_all zero (x ∷ xs) le = absurd (omega arith)
take_all (suc n) (x ∷ xs) le = ap (λ l. x ∷ l) (take_all n xs (omega arith))

pub take-append {ℓ} :
    {A : Type ℓ} (n : ℕ) (xs ys : List A) → n ≤ length xs → take n (xs ++ ys) ≡ take n xs
take-append zero xs ys le = refl
take-append (suc n) [] ys le = absurd (omega arith)
take-append (suc n) (x ∷ xs) ys le = ap (λ l. x ∷ l) (take-append n xs ys (omega arith))

module _ (h : Host) where
  pub find_fingerprint-rows_of :
      (event_id : String) (log : Log)
      → find_fingerprint event_id (rows_of h log) ≡ known h event_id log
  unfolding find_fingerprint rows_of known
  find_fingerprint-rows_of event_id [] = refl
  find_fingerprint-rows_of event_id (e ∷ log) =
      ground (arith, find_fingerprint-rows_of event_id log)

  -- The newest row of a run, and its absence, as the store uses them.
  abbrev IsLast : String → Log → Option EventRow → Type 0
  IsLast run_id log r =
      (expected_sequence r ≡ size run_id log) × (previous_digest r ≡ chain h run_id log)

  pub last_row-rows_of :
      (run_id : String) (log : Log)
      → IsLog h log
      → IsLast run_id log (last_row (filter (of_run run_id) (rows_of h log)))
  unfolding last_row rows_of size chain
  last_row-rows_of run_id [] v = ground arith
  last_row-rows_of run_id (e ∷ log) v =
      let (next, digest) = last_row-rows_of run_id log v.3 in ground arith

  -- No row takes the next number of its run.
  pub same_slot-rows_of :
      (e : ExecutionEvent) (log : Log)
      → IsLog h log
      → size e.run_id log ≤ e.sequence
      → any (same_slot e) (rows_of h log) ≡ false
  unfolding rows_of size
  same_slot-rows_of e [] v le = refl
  same_slot-rows_of e (x ∷ log) v le =
      let rest = same_slot-rows_of e log v.3 in ground (arith, rest)

  -- The digest that is stored with the n-th event of a run is that of the first n + 1.
  find_digest-rows_of :
      (run_id : String) (n : ℕ) (log : Log)
      → IsLog h log
      → n < size run_id log
      → find_digest run_id n (rows_of h log)
        ≡ some (digest_from h chain_seed (take (suc n) (history run_id log)))
  unfolding find_digest rows_of size history chain
  find_digest-rows_of run_id n [] v lt = absurd (omega arith)
  find_digest-rows_of run_id n (e ∷ log) v lt =
      let older = history run_id log in
      ground (
        arith,
        find_digest-rows_of run_id n log v.3,
        length-history run_id log,
        length-append older (e ∷ []),
        chain-history h run_id (e ∷ log),
        take_all (suc n) (older ++ e ∷ []),
        take-append (suc n) older (e ∷ []),
      )

  -- In the rows of a log in which a run has at least n events, the prefix digest at n is the digest
  -- chain over the first n events of the run's history, from the seed.
  pub prefix_chain_digest-rows_of :
      (run_id : String) (n : ℕ) (log : Log)
      → IsLog h log
      → n ≤ size run_id log
      → prefix_chain_digest run_id n (rows_of h log)
        ≡ some (digest_from h chain_seed (take n (history run_id log)))
  unfolding prefix_chain_digest digest_from
  prefix_chain_digest-rows_of run_id zero log v le = refl
  prefix_chain_digest-rows_of run_id (suc n) log v le =
      find_digest-rows_of run_id n log v (omega arith)

  find_digest-none :
      (run_id : String) (n : ℕ) (log : Log)
      → IsLog h log
      → size run_id log ≤ n
      → find_digest run_id n (rows_of h log) ≡ none
  unfolding find_digest rows_of size
  find_digest-none run_id n [] v le = refl
  find_digest-none run_id n (e ∷ log) v le = ground (arith, find_digest-none run_id n log v.3)

  -- A run has no digest of more events than it has.
  pub prefix_chain_digest_none :
      (run_id : String) (n : ℕ) (log : Log)
      → IsLog h log
      → size run_id log < n
      → prefix_chain_digest run_id n (rows_of h log) ≡ none
  unfolding prefix_chain_digest
  prefix_chain_digest_none run_id zero log v lt = absurd (omega arith)
  prefix_chain_digest_none run_id (suc n) log v lt = find_digest-none run_id n log v (omega arith)
