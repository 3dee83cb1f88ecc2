-- ===== src/Persistence/EventStore/Selection.antt =====
-- The rows of a log that `load_tail` selects, in their order, and the events that they are read as.
use agent_runtime_lab.Prelude.{
  ℕ, zero, suc, ◌≤◌, ◌<◌, String, ◌≡◌, refl, true, false, ◌&&◌, leb, List, [], ◌∷◌, ◌++◌, drop,
  length, length-append, All, ap, holds, string_dec, Bool-cases, inl, inr, ◌∙◌, sym, arith,
}
use agent_runtime_lab.Prelude.Int.{pos}
use agent_runtime_lab.Result.{ok, Result-cases}
use agent_runtime_lab.Json.{Host, ReadsDates}
use agent_runtime_lab.Domain.Event.{
  ExecutionEvent, fingerprint, IsEvent, event_type_of-event_type_value,
}
use agent_runtime_lab.Persistence.EventStore.{
  EventRow, EventStore, next_chain_digest, row_of, of_run, insert_row, order_by_sequence,
  select_tail, event_from_row, events_from_rows, load_tail, load,
}
use agent_runtime_lab.Persistence.EventStore.Log.{
  Log, history, size, length-history, chain, rows_of, IsLog,
}

abbrev Below : ℕ → List EventRow → Type 0
Below n = All (λ r. r.sequence < n)

Below-append :
    (n : ℕ) (rows : List EventRow) (r : EventRow)
    → Below n rows
    → r.sequence < n
    → Below n (rows ++ r ∷ [])
Below-append n [] r below lt = (lt, tt)
Below-append n (s ∷ rows) r below lt = (below.0, Below-append n rows r below.1 lt)

Below-mono : (n m : ℕ) (rows : List EventRow) → n ≤ m → Below n rows → Below m rows
Below-mono n m [] le below = tt
Below-mono n m (s ∷ rows) le below = (omega (arith, below.0), Below-mono n m rows le below.1)

-- A row that comes after all others is put last.
insert_row_last :
    (r : EventRow) (rows : List EventRow)
    → Below r.sequence rows
    → insert_row r rows ≡ rows ++ r ∷ []
unfolding insert_row
insert_row_last r [] below = refl
insert_row_last r (s ∷ rows) below = ground (arith, insert_row_last r rows below.1)

drop-append {ℓ} :
    {A : Type ℓ} (n : ℕ) (xs ys : List A) → n ≤ length xs → drop n (xs ++ ys) ≡ drop n xs ++ ys
drop-append zero xs ys le = refl
drop-append (suc n) [] ys le = absurd (omega arith)
drop-append (suc n) (x ∷ xs) ys le = drop-append n xs ys (omega arith)

drop_all {ℓ} : {A : Type ℓ} (n : ℕ) (xs : List A) → length xs ≤ n → drop n xs ≡ []
drop_all zero [] le = refl
drop_all (suc n) [] le = refl
drop_all zero (x ∷ xs) le = absurd (omega arith)
drop_all (suc n) (x ∷ xs) le = drop_all n xs (omega arith)

size-le :
    (run_id : String) (e : ExecutionEvent) (log : Log) → size run_id log ≤ size run_id (e ∷ log)
unfolding size
size-le run_id e log = ground arith

size-lt :
    (run_id : String) (e : ExecutionEvent) (log : Log)
    → e.run_id ≡ run_id
    → e.sequence ≡ size run_id log
    → e.sequence < size run_id (e ∷ log)
unfolding size
size-lt run_id e log same last = ground arith

select_tail-nil : (run_id : String) (start : ℕ) → select_tail run_id start [] ≡ []
unfolding select_tail order_by_sequence
select_tail-nil run_id start = refl

select_tail-cons_taken :
    (run_id : String) (start : ℕ) (r : EventRow) (rows : List EventRow)
    → (of_run run_id r && leb start r.sequence) ≡ true
    → Below r.sequence (select_tail run_id start rows)
    → select_tail run_id start (r ∷ rows) ≡ select_tail run_id start rows ++ r ∷ []
unfolding select_tail order_by_sequence
select_tail-cons_taken run_id start r rows taken below =
    rw taken (insert_row_last r (select_tail run_id start rows) below)

select_tail-cons_left :
    (run_id : String) (start : ℕ) (r : EventRow) (rows : List EventRow)
    → (of_run run_id r && leb start r.sequence) ≡ false
    → select_tail run_id start (r ∷ rows) ≡ select_tail run_id start rows
unfolding select_tail order_by_sequence
select_tail-cons_left run_id start r rows left = rw left refl

drop-history_nil :
    (h : Host) (run_id : String) (start : ℕ)
    → events_from_rows h [] ≡ ok (drop start (history run_id []))
unfolding events_from_rows history
drop-history_nil h run_id zero = refl
drop-history_nil h run_id (suc start) = refl

left_drop :
    (run_id : String) (start : ℕ) (e : ExecutionEvent) (log : Log)
    → e.sequence ≡ size e.run_id log
    → (holds (string_dec e.run_id run_id) && leb start e.sequence) ≡ false
    → drop start (history run_id (e ∷ log)) ≡ drop start (history run_id log)
unfolding history
left_drop run_id start e log next left =
    let older = history run_id log in
    ground (
      arith,
      length-history run_id log,
      length-append older (e ∷ []),
      drop_all start (older ++ e ∷ []),
      drop_all start older,
    )

taken_drop :
    (run_id : String) (start : ℕ) (e : ExecutionEvent) (log : Log)
    → e.run_id ≡ run_id
    → e.sequence ≡ size run_id log
    → start ≤ e.sequence
    → drop start (history run_id (e ∷ log)) ≡ drop start (history run_id log) ++ e ∷ []
unfolding history
taken_drop run_id start e log same last le =
    let older = history run_id log in
    ground (arith, length-history run_id log, drop-append start older (e ∷ []))

module _ (h : Host) where
  abbrev row_at : ExecutionEvent → Log → EventRow
  row_at e log = row_of h (next_chain_digest h (chain h e.run_id log) (fingerprint h e)) e

  taken_below :
      (run_id : String) (start : ℕ) (e : ExecutionEvent) (log : Log)
      → (of_run run_id (row_at e log) && leb start e.sequence) ≡ true
      → (e.run_id ≡ run_id) × (start ≤ e.sequence)
  taken_below run_id start e log taken = ground arith

  select_tail-Below :
      (run_id : String) (start : ℕ) (log : Log)
      → IsLog h log
      → Below (size run_id log) (select_tail run_id start (rows_of h log))
  unfolding rows_of
  select_tail-Below run_id start [] v = rw (select_tail-nil run_id start) tt
  select_tail-Below run_id start (e ∷ log) v =
      let older = select_tail-Below run_id start log v.3 in
      let rows = rows_of h log in
      elim (Bool-cases (of_run run_id (row_at e log) && leb start e.sequence)) [
        | inr left ↦
            rw (select_tail-cons_left run_id start (row_at e log) rows left)
              (Below-mono _ _ _ (size-le run_id e log) older)
        | inl taken ↦
            let (same, _) = taken_below run_id start e log taken in
            let last : e.sequence ≡ size run_id log = v.0 ∙ ap (λ r. size r log) same in
            rw (select_tail-cons_taken run_id start (row_at e log) rows taken (rw last older)) (
              Below-append _ _ _ (Below-mono _ _ _ (size-le run_id e log) older)
                (size-lt run_id e log same last))
      ]

  -- Reading back the row that was written for an event.
  event_from_row-row_of :
      (digest : String) (e : ExecutionEvent)
      → ReadsDates h
      → IsEvent h e
      → event_from_row h (row_of h digest e) ≡ ok e
  unfolding event_from_row
  event_from_row-row_of digest e dates i =
      rw (event_type_of-event_type_value e.event_type, dates e.occurred_at) i

  events_from_rows-append :
      (rows : List EventRow) (r : EventRow) (es : List ExecutionEvent) (e : ExecutionEvent)
      → events_from_rows h rows ≡ ok es
      → event_from_row h r ≡ ok e
      → events_from_rows h (rows ++ r ∷ []) ≡ ok (es ++ e ∷ [])
  unfolding events_from_rows
  events_from_rows-append [] r es e read last = ground arith
  events_from_rows-append (s ∷ rows) r es e read last = elim (Result-cases (event_from_row h s)) [
    | inr (x, refused) ↦ absurd (ground arith)
    | inl (x, first) ↦ elim (Result-cases (events_from_rows h rows)) [
      | inr (y, refused) ↦ absurd (ground arith)
      | inl (xs, rest) ↦
          let whole : x ∷ xs ≡ es = ground arith in
          rw (first, events_from_rows-append rows r xs e rest last)
            (ap (λ (l : List ExecutionEvent). ok (l ++ e ∷ [])) whole)
    ]
  ]

  -- The rows from a number on are read as the events of the run's history from there on.
  pub select_tail-history :
      (run_id : String) (start : ℕ) (log : Log)
      → ReadsDates h
      → IsLog h log
      → events_from_rows h (select_tail run_id start (rows_of h log))
        ≡ ok (drop start (history run_id log))
  unfolding rows_of
  select_tail-history run_id start [] dates v =
      rw (select_tail-nil run_id start) (drop-history_nil h run_id start)
  select_tail-history run_id start (e ∷ log) dates v =
      let older = select_tail-history run_id start log dates v.3 in
      let rows = rows_of h log in
      elim (Bool-cases (of_run run_id (row_at e log) && leb start e.sequence)) [
        | inr left ↦
            rw (select_tail-cons_left run_id start (row_at e log) rows left)
              (older ∙ ap ok (sym (left_drop run_id start e log v.0 left)))
        | inl taken ↦
            let (same, le) = taken_below run_id start e log taken in
            let last : e.sequence ≡ size run_id log = v.0 ∙ ap (λ r. size r log) same in
            rw
              (select_tail-cons_taken run_id start (row_at e log) rows taken
                (rw last (select_tail-Below run_id start log v.3)))
              (events_from_rows-append _ (row_at e log) _ e older
                  (event_from_row-row_of _ e dates v.2)
                ∙ ap ok (sym (taken_drop run_id start e log same last le)))
      ]

module _ (h : Host) (store : EventStore) (log : Log)
    (rows : store.execution_events ≡ rows_of h log) where
  -- Where the rows of a store stand for a log and datetime reads back what it wrote, `load_tail`
  -- returns the events of the run from the given number on, in order.
  pub load_tail-history :
      (run_id : String) (start : ℕ)
      → ReadsDates h
      → IsLog h log
      → load_tail h store run_id (pos start) ≡ ok (drop start (history run_id log))
  unfolding load_tail
  load_tail-history run_id start dates v = rw rows (select_tail-history h run_id start log dates v)

  pub load-history :
      (run_id : String) → ReadsDates h → IsLog h log → load h store run_id ≡ ok (history run_id log)
  unfolding load
  load-history run_id dates v = load_tail-history run_id 0 dates v
