-- ===== src/Effects/Store/Laws.antt =====
-- What the tables of intents and receipts promise (persistence/sqlite_tool_effect_store.py).
use agent_runtime_lab.Prelude.{
  String, ◌≡◌, none, some, List, [], ◌∷◌, ◌++◌, holds, string_dec, if◌then◌else◌, arith,
}
use agent_runtime_lab.Result.{ok, err, duplicate_tool_effect_conflict}
use agent_runtime_lab.Json.{Host}
use agent_runtime_lab.Effects.{ToolIntent, ToolReceipt, IsIntent, IsReceipt}
use agent_runtime_lab.Effects.Store.{
  EffectStore, find_intent, find_receipt, intent_from_row, receipt_from_row, save_known_intent,
  insert_intent, save_intent, load_intent, save_known_receipt, insert_receipt, save_receipt,
  load_receipt,
}

pub find_intent-append :
    (effect_id : String) (rows : List ToolIntent) (i : ToolIntent)
    → find_intent effect_id rows ≡ none
    → find_intent effect_id (rows ++ i ∷ [])
      ≡ (if holds (string_dec i.effect_id effect_id) then some i else none)
unfolding find_intent
find_intent-append effect_id [] i h = ground arith
find_intent-append effect_id (row ∷ rows) i h = ground (arith, find_intent-append effect_id rows i)

-- A row stays where it is found when another is appended.
pub find_intent-append_old :
    (effect_id : String) (rows : List ToolIntent) (i row : ToolIntent)
    → find_intent effect_id rows ≡ some row
    → find_intent effect_id (rows ++ i ∷ []) ≡ some row
unfolding find_intent
find_intent-append_old effect_id [] i row h = ground arith
find_intent-append_old effect_id (j ∷ rows) i row h =
    ground (arith, find_intent-append_old effect_id rows i row)

pub find_receipt-append :
    (effect_id : String) (rows : List ToolReceipt) (r : ToolReceipt)
    → find_receipt effect_id rows ≡ none
    → find_receipt effect_id (rows ++ r ∷ [])
      ≡ (if holds (string_dec r.effect_id effect_id) then some r else none)
unfolding find_receipt
find_receipt-append effect_id [] r h = ground arith
find_receipt-append effect_id (row ∷ rows) r h =
    ground (arith, find_receipt-append effect_id rows r)

pub find_receipt-append_old :
    (effect_id : String) (rows : List ToolReceipt) (r row : ToolReceipt)
    → find_receipt effect_id rows ≡ some row
    → find_receipt effect_id (rows ++ r ∷ []) ≡ some row
unfolding find_receipt
find_receipt-append_old effect_id [] r row h = ground arith
find_receipt-append_old effect_id (j ∷ rows) r row h =
    ground (arith, find_receipt-append_old effect_id rows r row)

module _ (h : Host) (store : EffectStore) where
  pub load_intent-save_intent :
      (i : ToolIntent) {store' : EffectStore}
      → IsIntent h i
      → save_intent h store i ≡ ok store'
      → load_intent h store' i.effect_id ≡ ok (some i)
  unfolding save_intent load_intent save_known_intent insert_intent intent_from_row
  load_intent-save_intent i v e =
      ground (arith, find_intent-append i.effect_id store.tool_intents i)

  pub load_receipt-save_receipt :
      (r : ToolReceipt) {store' : EffectStore}
      → IsReceipt h r
      → save_receipt h store r ≡ ok store'
      → load_receipt h store' r.effect_id ≡ ok (some r)
  unfolding save_receipt load_receipt save_known_receipt insert_receipt receipt_from_row
  load_receipt-save_receipt r v e =
      ground (arith, find_receipt-append r.effect_id store.tool_receipts r)

  -- Saving an intent that is stored changes nothing.
  pub save_intent_again :
      (i : ToolIntent)
      → load_intent h store i.effect_id ≡ ok (some i)
      → save_intent h store i ≡ ok store
  unfolding save_intent load_intent save_known_intent
  save_intent_again i l = ground arith

  -- Saving an intent under the effect id of a different stored intent is refused as a conflict.
  pub save_intent_conflict :
      (i j : ToolIntent)
      → load_intent h store i.effect_id ≡ ok (some j)
      → ¬ (i ≡ j)
      → save_intent h store i ≡ err duplicate_tool_effect_conflict
  unfolding save_intent load_intent save_known_intent
  save_intent_conflict i j l differ = ground arith

  -- Saving a receipt that is stored changes nothing.
  pub save_receipt_again :
      (r : ToolReceipt)
      → load_receipt h store r.effect_id ≡ ok (some r)
      → save_receipt h store r ≡ ok store
  unfolding save_receipt load_receipt save_known_receipt
  save_receipt_again r l = ground arith

  -- Saving a receipt under the effect id of a different stored receipt is refused as a conflict.
  pub save_receipt_conflict :
      (r s : ToolReceipt)
      → load_receipt h store r.effect_id ≡ ok (some s)
      → ¬ (r ≡ s)
      → save_receipt h store r ≡ err duplicate_tool_effect_conflict
  unfolding save_receipt load_receipt save_known_receipt
  save_receipt_conflict r s l differ = ground arith
