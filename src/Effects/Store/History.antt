-- ===== src/Effects/Store/History.antt =====
-- What the tables of intents and receipts keep through any saves
-- (persistence/sqlite_tool_effect_store.py).
use agent_runtime_lab.Prelude.{
  String, ◌≡◌, ◌≢◌, ◌⊎◌, inl, inr, false, none, some, List, [], ◌∷◌, ◌++◌, any, Option-cases,
  Bool-cases, ap, sym, ◌∙◌, arith,
}
use agent_runtime_lab.Result.{Result, ok, err, duplicate_tool_effect_conflict}
use agent_runtime_lab.Json.{Host}
use agent_runtime_lab.Effects.{
  ToolIntent, ToolIntent-discrete, ToolReceipt, ToolReceipt-discrete, IsIntent, IsReceipt,
}
use agent_runtime_lab.Effects.Store.{
  EffectStore, same_call, find_intent, find_receipt, intent_from_row, receipt_from_row,
  save_known_intent, insert_intent, save_intent, load_intent, save_known_receipt, insert_receipt,
  save_receipt, load_receipt,
}
use agent_runtime_lab.Effects.Store.Laws.{
  find_intent-append_old, find_receipt-append_old, load_intent-save_intent,
  load_receipt-save_receipt, save_intent_again, save_intent_conflict, save_receipt_again,
  save_receipt_conflict,
}

pub data Save : Type 0 where
  of_intent : ToolIntent → Save
  of_receipt : ToolReceipt → Save

-- The store after a save: the old one where the save raises, whose transaction is rolled back.
abbrev pub committed : EffectStore → Result EffectStore → EffectStore
committed store (err raised) = store
committed store (ok saved) = saved

module _ (h : Host) where
  abbrev pub save : EffectStore → Save → EffectStore
  save store (of_intent i) = committed store (save_intent h store i)
  save store (of_receipt r) = committed store (save_receipt h store r)

  -- The saves one after the other, accepted or refused
  abbrev pub save_all : EffectStore → List Save → EffectStore
  save_all store [] = store
  save_all store (x ∷ xs) = save_all (save store x) xs

  -- What a save of an intent did to the tables: nothing, or it added a row whose id and whose call
  -- are new.
  abbrev pub IntentSaved : EffectStore → ToolIntent → EffectStore → Type 0
  IntentSaved store i after =
      (after ≡ store)
      ⊎ ((find_intent i.effect_id store.tool_intents ≡ none)
          × (any (same_call i) store.tool_intents ≡ false)
          × (after ≡ record store { tool_intents = store.tool_intents ++ i ∷ [] }))

  known_intent-kept :
      (store : EffectStore) (i row : ToolIntent)
      → committed store (save_known_intent h store i row) ≡ store
  unfolding save_known_intent
  known_intent-kept store i row = ground arith

  pub save_intent_cases :
      (store : EffectStore) (i : ToolIntent)
      → IntentSaved store i (committed store (save_intent h store i))
  unfolding save_intent save_known_intent insert_intent
  save_intent_cases store i = elim (Option-cases (find_intent i.effect_id store.tool_intents)) [
    | inl fresh ↦ elim (Bool-cases (any (same_call i) store.tool_intents)) [
      | inl taken ↦ inl (rw fresh (ground arith))
      | inr free ↦ inr (fresh, free, rw fresh (ground arith))
    ]
    | inr (row, known) ↦ inl (rw known (known_intent-kept store i row))
  ]

  -- What a save of a receipt did: nothing, or it added a row whose id is new and has an intent.
  abbrev pub ReceiptSaved : EffectStore → ToolReceipt → EffectStore → Type 0
  ReceiptSaved store r after =
      (after ≡ store)
      ⊎ ((find_receipt r.effect_id store.tool_receipts ≡ none)
          × ((i : ToolIntent) × (find_intent r.effect_id store.tool_intents ≡ some i))
          × (after ≡ record store { tool_receipts = store.tool_receipts ++ r ∷ [] }))

  known_receipt-kept :
      (store : EffectStore) (r row : ToolReceipt)
      → committed store (save_known_receipt h store r row) ≡ store
  unfolding save_known_receipt
  known_receipt-kept store r row = ground arith

  pub save_receipt_cases :
      (store : EffectStore) (r : ToolReceipt)
      → ReceiptSaved store r (committed store (save_receipt h store r))
  unfolding save_receipt save_known_receipt insert_receipt
  save_receipt_cases store r = elim (Option-cases (find_receipt r.effect_id store.tool_receipts)) [
    | inl fresh ↦ elim (Option-cases (find_intent r.effect_id store.tool_intents)) [
      | inl missing ↦ inl (rw fresh (ground arith))
      | inr (i, there) ↦ inr (fresh, (i, there), rw fresh (ground arith))
    ]
    | inr (row, known) ↦ inl (rw known (known_receipt-kept store r row))
  ]

  find_intent-save :
      (store : EffectStore) (x : Save) (effect_id : String) (row : ToolIntent)
      → find_intent effect_id store.tool_intents ≡ some row
      → find_intent effect_id (save store x).tool_intents ≡ some row
  find_intent-save store (of_intent i) effect_id row known = elim (save_intent_cases store i) [
    | inl same ↦ rw same known
    | inr (fresh, free, added) ↦
        rw added (find_intent-append_old effect_id store.tool_intents i row known)
  ]
  find_intent-save store (of_receipt r) effect_id row known = elim (save_receipt_cases store r) [
    | inl same ↦ rw same known
    | inr (fresh, intent, added) ↦ rw added known
  ]

  find_receipt-save :
      (store : EffectStore) (x : Save) (effect_id : String) (row : ToolReceipt)
      → find_receipt effect_id store.tool_receipts ≡ some row
      → find_receipt effect_id (save store x).tool_receipts ≡ some row
  find_receipt-save store (of_intent i) effect_id row known = elim (save_intent_cases store i) [
    | inl same ↦ rw same known
    | inr (fresh, free, added) ↦ rw added known
  ]
  find_receipt-save store (of_receipt r) effect_id row known = elim (save_receipt_cases store r) [
    | inl same ↦ rw same known
    | inr (fresh, intent, added) ↦
        rw added (find_receipt-append_old effect_id store.tool_receipts r row known)
  ]

  find_intent-save_all :
      (store : EffectStore) (xs : List Save) (effect_id : String) (row : ToolIntent)
      → find_intent effect_id store.tool_intents ≡ some row
      → find_intent effect_id (save_all store xs).tool_intents ≡ some row
  find_intent-save_all store [] effect_id row known = known
  find_intent-save_all store (x ∷ xs) effect_id row known =
      find_intent-save_all (save store x) xs effect_id row
        (find_intent-save store x effect_id row known)

  find_receipt-save_all :
      (store : EffectStore) (xs : List Save) (effect_id : String) (row : ToolReceipt)
      → find_receipt effect_id store.tool_receipts ≡ some row
      → find_receipt effect_id (save_all store xs).tool_receipts ≡ some row
  find_receipt-save_all store [] effect_id row known = known
  find_receipt-save_all store (x ∷ xs) effect_id row known =
      find_receipt-save_all (save store x) xs effect_id row
        (find_receipt-save store x effect_id row known)

  loaded_intent :
      (store : EffectStore) (effect_id : String) (i : ToolIntent)
      → load_intent h store effect_id ≡ ok (some i)
      → (row : ToolIntent) × (find_intent effect_id store.tool_intents ≡ some row)
        × (intent_from_row h row ≡ ok i)
  unfolding load_intent
  loaded_intent store effect_id i e =
      elim (Option-cases (find_intent effect_id store.tool_intents)) [
        | inl missing ↦ absurd (ground arith)
        | inr (row, known) ↦ (row, known, ground arith)
      ]

  loaded_receipt :
      (store : EffectStore) (effect_id : String) (r : ToolReceipt)
      → load_receipt h store effect_id ≡ ok (some r)
      → (row : ToolReceipt) × (find_receipt effect_id store.tool_receipts ≡ some row)
        × (receipt_from_row h row ≡ ok r)
  unfolding load_receipt
  loaded_receipt store effect_id r e =
      elim (Option-cases (find_receipt effect_id store.tool_receipts)) [
        | inl missing ↦ absurd (ground arith)
        | inr (row, known) ↦ (row, known, ground arith)
      ]

  load_intent-save_all :
      (i : ToolIntent) (store : EffectStore) {accepted : EffectStore} (later : List Save)
      → IsIntent h i
      → save_intent h store i ≡ ok accepted
      → load_intent h (save_all accepted later) i.effect_id ≡ ok (some i)
  unfolding load_intent
  load_intent-save_all i store {accepted} later valid saved =
      let (row, known, read) =
        loaded_intent accepted i.effect_id i (load_intent-save_intent h store i valid saved) in
      ground (arith, find_intent-save_all accepted later i.effect_id row known, read)

  load_receipt-save_all :
      (r : ToolReceipt) (store : EffectStore) {accepted : EffectStore} (later : List Save)
      → IsReceipt h r
      → save_receipt h store r ≡ ok accepted
      → load_receipt h (save_all accepted later) r.effect_id ≡ ok (some r)
  unfolding load_receipt
  load_receipt-save_all r store {accepted} later valid saved =
      let (row, known, read) =
        loaded_receipt accepted r.effect_id r (load_receipt-save_receipt h store r valid saved) in
      ground (arith, find_receipt-save_all accepted later r.effect_id row known, read)

  -- Once an intent is accepted, whatever is saved after it, its id loads exactly this intent, and an
  -- intent of this id that is saved then is this one and changes nothing, or is refused as a conflict.
  pub accepted_intent_kept :
      (i : ToolIntent) (store : EffectStore) {accepted : EffectStore} (later : List Save)
      (j : ToolIntent)
      → IsIntent h i
      → save_intent h store i ≡ ok accepted
      → j.effect_id ≡ i.effect_id
      → (load_intent h (save_all accepted later) i.effect_id ≡ ok (some i))
        × (((j ≡ i) × (save_intent h (save_all accepted later) j ≡ ok (save_all accepted later)))
            ⊎ ((j ≢ i)
                × (save_intent h (save_all accepted later) j ≡ err duplicate_tool_effect_conflict)))
  accepted_intent_kept i store later j valid saved same =
      let loaded = load_intent-save_all i store later valid saved in
      let at_j : load_intent h (save_all _ later) j.effect_id ≡ ok (some i) = rw same loaded in
      (
        loaded,
        elim (ToolIntent-discrete j i) [
          | yes equal ↦ inl (
            equal,
            save_intent_again h (save_all _ later) j (at_j ∙ ap (λ k. ok (some k)) (sym equal)),
          )
          | no other ↦ inr (other, save_intent_conflict h (save_all _ later) j i at_j other)
        ],
      )

  -- Once a receipt is accepted, whatever is saved after it, its id loads exactly this receipt, and a
  -- receipt of this id that is saved then is this one and changes nothing, or is refused as a
  -- conflict.
  pub accepted_receipt_kept :
      (r : ToolReceipt) (store : EffectStore) {accepted : EffectStore} (later : List Save)
      (t : ToolReceipt)
      → IsReceipt h r
      → save_receipt h store r ≡ ok accepted
      → t.effect_id ≡ r.effect_id
      → (load_receipt h (save_all accepted later) r.effect_id ≡ ok (some r))
        × (((t ≡ r) × (save_receipt h (save_all accepted later) t ≡ ok (save_all accepted later)))
            ⊎ ((t ≢ r)
                × (save_receipt h (save_all accepted later) t
                    ≡ err duplicate_tool_effect_conflict)))
  accepted_receipt_kept r store later t valid saved same =
      let loaded = load_receipt-save_all r store later valid saved in
      let at_t : load_receipt h (save_all _ later) t.effect_id ≡ ok (some r) = rw same loaded in
      (
        loaded,
        elim (ToolReceipt-discrete t r) [
          | yes equal ↦ inl (
            equal,
            save_receipt_again h (save_all _ later) t (at_t ∙ ap (λ k. ok (some k)) (sym equal)),
          )
          | no other ↦ inr (other, save_receipt_conflict h (save_all _ later) t r at_t other)
        ],
      )
