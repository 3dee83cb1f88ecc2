-- ===== src/Effects.antt =====
-- src/agent_runtime_lab/domain/tool_effects.py: intents, receipts and the recovery decision of one
-- external tool effect. The modules below are the durable store, the executor and recovery queries.
pub mod Store
pub mod Executor
pub mod Recovery
mod Tests
use agent_runtime_lab.Prelude.{
  String, Bool, true, false, not, ◌≡◌, refl, Option, none, some, holds, string_dec, is_empty, inl,
  inr, if◌then◌else◌, arith,
}
use agent_runtime_lab.Result.{
  Result, ok, err, event_validation, ◌>>=◌, ◌>>◌, guard, check, Result-cases,
}
use agent_runtime_lab.Json.{Json, str, dict, Fields, field, no_fields, Host, IsCanonical}

pub data ToolOutcome : Type 0 where
  succeeded failed timed_out : ToolOutcome

pub data RecoveryDecision : Type 0 where
  completed safe_retry unknown : RecoveryDecision

pub record ToolIntent : Type 0 where
  pub effect_id : String
  pub run_id : String
  pub tool_call_id : String
  pub tool_name : String
  pub arguments_json : String

pub record ToolReceipt : Type 0 where
  pub effect_id : String
  pub outcome : ToolOutcome
  pub output_json : String

unfoldable pub ToolIntent-discrete : Discrete ToolIntent
ToolIntent-discrete = hlevel string_dec

pub ToolReceipt-discrete : Discrete ToolReceipt
ToolReceipt-discrete = hlevel string_dec

-- `_required_text(value, field)`
abbrev pub required_value : String → Result (Unit {0})
required_value value = guard (not (is_empty value)) event_validation

abbrev object_of : Option Json → Result Fields
object_of (some (dict d)) = ok d
object_of _ = err event_validation

abbrev fields_of : Option Json → Fields
fields_of (some (dict d)) = d
fields_of _ = no_fields

module _ (h : Host) where
  -- `json.loads(text)`, refused unless it is an object
  unfoldable pub decode_object : String → Result Fields
  decode_object text = object_of (h.loads text)

  unfoldable pub derive_effect_id : String → String → Result String
  derive_effect_id run_id tool_call_id = do
    required_value run_id
    required_value tool_call_id
    ok (
        h.sha256 (
          h.dumps (
            dict
              (field "run_id" (str run_id) (field "tool_call_id" (str tool_call_id) no_fields)))))

  -- The checks of `ToolIntent.__post_init__` on the identity of the effect.
  unfoldable pub intent_identity : String → String → String → String → Result (Unit {0})
  unfolding derive_effect_id
  intent_identity effect_id run_id tool_call_id tool_name = do
    required_value effect_id
    required_value run_id
    required_value tool_call_id
    required_value tool_name
    expected ← derive_effect_id run_id tool_call_id
    check (string_dec effect_id expected) event_validation

  -- `ToolIntent(...)`, with the checks of `__post_init__`
  unfoldable pub tool_intent : String → String → String → String → String → Result ToolIntent
  tool_intent effect_id run_id tool_call_id tool_name arguments_json = do
    intent_identity effect_id run_id tool_call_id tool_name
    arguments ← decode_object arguments_json
    ok (record {
      effect_id = effect_id;
      run_id = run_id;
      tool_call_id = tool_call_id;
      tool_name = tool_name;
      arguments_json = h.dumps (dict arguments);
    })

  -- `ToolIntent.build(...)`
  unfoldable pub build_intent : String → String → String → Fields → Result ToolIntent
  build_intent run_id tool_call_id tool_name arguments = do
    effect_id ← derive_effect_id run_id tool_call_id
    tool_intent effect_id run_id tool_call_id tool_name (h.dumps (dict arguments))

  -- `intent.arguments`
  unfoldable pub intent_arguments : ToolIntent → Fields
  intent_arguments intent = fields_of (h.loads intent.arguments_json)

  -- `ToolReceipt(...)`, with the checks of `__post_init__`
  unfoldable pub tool_receipt : String → ToolOutcome → String → Result ToolReceipt
  tool_receipt effect_id outcome output_json = do
    required_value effect_id
    output ← decode_object output_json
    ok (record { effect_id = effect_id; outcome = outcome; output_json = h.dumps (dict output) })

  -- `ToolReceipt.build(...)`
  unfoldable pub build_receipt : String → ToolOutcome → Fields → Result ToolReceipt
  build_receipt effect_id outcome output = tool_receipt effect_id outcome (h.dumps (dict output))

  -- `receipt.output`
  unfoldable pub receipt_output : ToolReceipt → Fields
  receipt_output receipt = fields_of (h.loads receipt.output_json)

  -- The constructor, applied to a value's own fields, as when the value is read from its row.
  abbrev pub IsIntent : ToolIntent → Type 0
  IsIntent i = tool_intent i.effect_id i.run_id i.tool_call_id i.tool_name i.arguments_json ≡ ok i

  abbrev pub IsReceipt : ToolReceipt → Type 0
  IsReceipt r = tool_receipt r.effect_id r.outcome r.output_json ≡ ok r

-- `decide_recovery(intent, receipt, retry_is_idempotent)`
unfoldable pub decide_recovery : ToolIntent → Option ToolReceipt → Bool → Result RecoveryDecision
decide_recovery intent (some receipt) idempotent = do
  check (string_dec receipt.effect_id intent.effect_id) event_validation
  ok completed
decide_recovery intent none idempotent = ok (if idempotent then safe_retry else unknown)

module _ (h : Host) (c : IsCanonical h) where
  -- A built value survives being stored as text and constructed anew.
  pub tool_receipt-IsReceipt :
      (effect_id : String) (outcome : ToolOutcome) (text : String) {r : ToolReceipt}
      → tool_receipt h effect_id outcome text ≡ ok r
      → IsReceipt h r
  unfolding tool_receipt decode_object
  tool_receipt-IsReceipt effect_id outcome text {r} e = elim (Result-cases (decode_object h text)) [
    | inl (d, read) ↦ ground (arith, c.loads-dumps d, c.dumps-reread d)
    | inr (x, refused) ↦ absurd (ground arith)
  ]

  pub tool_intent-IsIntent :
      (effect_id run_id tool_call_id tool_name text : String) {i : ToolIntent}
      → tool_intent h effect_id run_id tool_call_id tool_name text ≡ ok i
      → IsIntent h i
  unfolding tool_intent decode_object
  tool_intent-IsIntent effect_id run_id tool_call_id tool_name text {i} e =
      elim (Result-cases (decode_object h text)) [
        | inl (d, read) ↦ ground (arith, c.loads-dumps d, c.dumps-reread d)
        | inr (x, refused) ↦ absurd (ground arith)
      ]
