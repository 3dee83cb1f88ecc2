-- ===== src/Effects/Store.antt =====
-- src/agent_runtime_lab/persistence/sqlite_tool_effect_store.py: the tables of intents and receipts.
-- A transaction that raises is rolled back, so an operation returns the new tables or an error. A
-- row is represented by the value whose columns it holds; reading it constructs the value anew.
pub mod Consistent
pub mod History
pub mod Laws
use agent_runtime_lab.Prelude.{
  String, Bool, true, false, not, ◌&&◌, Option, none, some, List, [], ◌∷◌, ◌++◌, any, holds,
  string_dec, if◌then◌else◌,
}
use agent_runtime_lab.Result.{
  Result, ok, err, duplicate_tool_effect_conflict, missing_tool_intent, integrity_error, ◌>>=◌,
  ◌>>◌, guard, check,
}
use agent_runtime_lab.Json.{Host}
use agent_runtime_lab.Effects.{
  ToolIntent, ToolIntent-discrete, ToolReceipt, ToolReceipt-discrete, tool_intent, tool_receipt,
}

pub record EffectStore : Type 0 where
  pub tool_intents : List ToolIntent
  pub tool_receipts : List ToolReceipt

abbrev pub empty_store : EffectStore
empty_store = record { tool_intents = []; tool_receipts = [] }

-- `SELECT ... FROM tool_intents WHERE effect_id = ?`
unfoldable pub find_intent : String → List ToolIntent → Option ToolIntent
find_intent effect_id [] = none
find_intent effect_id (i ∷ rows) =
    let found = find_intent effect_id rows in
    if holds (string_dec i.effect_id effect_id) then some i else found

-- `SELECT ... FROM tool_receipts WHERE effect_id = ?`
unfoldable pub find_receipt : String → List ToolReceipt → Option ToolReceipt
find_receipt effect_id [] = none
find_receipt effect_id (r ∷ rows) =
    let found = find_receipt effect_id rows in
    if holds (string_dec r.effect_id effect_id) then some r else found

-- `UNIQUE (run_id, tool_call_id)` would be broken by this row.
abbrev pub same_call : ToolIntent → ToolIntent → Bool
same_call i j =
    holds (string_dec i.run_id j.run_id) && holds (string_dec i.tool_call_id j.tool_call_id)

module _ (h : Host) where
  unfoldable pub intent_from_row : ToolIntent → Result ToolIntent
  intent_from_row row =
      tool_intent h row.effect_id row.run_id row.tool_call_id row.tool_name row.arguments_json

  unfoldable pub receipt_from_row : ToolReceipt → Result ToolReceipt
  receipt_from_row row = tool_receipt h row.effect_id row.outcome row.output_json

  -- An intent whose id is stored: accepted if it is the stored one.
  unfoldable pub save_known_intent : EffectStore → ToolIntent → ToolIntent → Result EffectStore
  save_known_intent store intent row = do
    persisted ← intent_from_row row
    check (ToolIntent-discrete persisted intent) duplicate_tool_effect_conflict
    ok store

  unfoldable pub insert_intent : EffectStore → ToolIntent → Result EffectStore
  insert_intent store intent = do
    guard (not (any (same_call intent) store.tool_intents)) integrity_error
    ok (record store { tool_intents = store.tool_intents ++ intent ∷ [] })

  abbrev save_intent_at : EffectStore → ToolIntent → Option ToolIntent → Result EffectStore
  save_intent_at store intent (some row) = save_known_intent store intent row
  save_intent_at store intent none = insert_intent store intent

  unfoldable pub save_intent : EffectStore → ToolIntent → Result EffectStore
  save_intent store intent =
      save_intent_at store intent (find_intent intent.effect_id store.tool_intents)

  abbrev optional_intent : Option ToolIntent → Result (Option ToolIntent)
  optional_intent none = ok none
  optional_intent (some row) = do intent ← intent_from_row row; ok (some intent)

  unfoldable pub load_intent : EffectStore → String → Result (Option ToolIntent)
  load_intent store effect_id = optional_intent (find_intent effect_id store.tool_intents)

  abbrev has_intent : Option ToolIntent → Bool
  has_intent none = false
  has_intent (some _) = true

  -- A receipt whose id is stored: accepted if it is the stored one.
  unfoldable pub save_known_receipt : EffectStore → ToolReceipt → ToolReceipt → Result EffectStore
  save_known_receipt store receipt row = do
    persisted ← receipt_from_row row
    check (ToolReceipt-discrete persisted receipt) duplicate_tool_effect_conflict
    ok store

  unfoldable pub insert_receipt : EffectStore → ToolReceipt → Result EffectStore
  insert_receipt store receipt = do
    guard (has_intent (find_intent receipt.effect_id store.tool_intents)) missing_tool_intent
    ok (record store { tool_receipts = store.tool_receipts ++ receipt ∷ [] })

  abbrev save_receipt_at : EffectStore → ToolReceipt → Option ToolReceipt → Result EffectStore
  save_receipt_at store receipt (some row) = save_known_receipt store receipt row
  save_receipt_at store receipt none = insert_receipt store receipt

  unfoldable pub save_receipt : EffectStore → ToolReceipt → Result EffectStore
  save_receipt store receipt =
      save_receipt_at store receipt (find_receipt receipt.effect_id store.tool_receipts)

  abbrev optional_receipt : Option ToolReceipt → Result (Option ToolReceipt)
  optional_receipt none = ok none
  optional_receipt (some row) = do receipt ← receipt_from_row row; ok (some receipt)

  unfoldable pub load_receipt : EffectStore → String → Result (Option ToolReceipt)
  load_receipt store effect_id = optional_receipt (find_receipt effect_id store.tool_receipts)
