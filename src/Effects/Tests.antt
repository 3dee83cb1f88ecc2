-- ===== src/Effects/Tests.antt =====
-- Runs of the tool-effect store and the executor on sample intents, with a `Host` that keeps the
-- first text of an object only.
use agent_runtime_lab.Prelude.{
  ◌≤◌, String, ◌≡◌, ◌≢◌, ◌⊎◌, refl, ap, true, false, some, List, [], ◌∷◌, holds, string_dec, arith,
  none,
}
use agent_runtime_lab.Result.{ok, err, duplicate_tool_effect_conflict, unsafe_tool_retry}
use agent_runtime_lab.Json.{Json, str, dict, field, no_fields, Host, IsCanonical}
use agent_runtime_lab.Registry.{ToolDefinition, ToolRegistry, find, resolve}
use agent_runtime_lab.Effects.{
  ToolIntent, ToolIntent-discrete, ToolReceipt, succeeded, failed, tool_intent, tool_receipt,
  build_receipt, intent_identity, decode_object, IsIntent, IsReceipt, intent_arguments,
  decide_recovery,
}
use agent_runtime_lab.Effects.Store.{
  EffectStore, empty_store, save_intent, save_receipt, load_intent, load_receipt, find_intent,
  find_receipt, insert_intent, insert_receipt, save_known_intent, intent_from_row, receipt_from_row,
}
use agent_runtime_lab.Effects.Store.Consistent.{IsConsistent, saved-IsConsistent}
use agent_runtime_lab.Effects.Store.History.{
  Save, of_intent, of_receipt, save_all, accepted_intent_kept, accepted_receipt_kept,
}
use agent_runtime_lab.Effects.Executor.{
  after_tool_invoked, ToolRunner, FailureInjector, World, Call, done, raised, returned, execute,
  execute_loaded, invoke_and_record, record_receipt, invoke, reach_checkpoint, receipt_of,
  resolve_redelivery,
}
use agent_runtime_lab.Effects.Executor.Calls.{count}
use agent_runtime_lab.Effects.Executor.AtMostOnce.{
  Delivery, deliver, fresh_world, NotRetried, deliver_at_most_once,
}
use agent_runtime_lab.Effects.Executor.Durable.{IsRecorded, execute-IsRecorded, execute_recorded}

abbrev text_of : Json → String
text_of (dict (field name (str text) rest)) = text
text_of _ = ""

abbrev host : Host
host = record {
  dumps = text_of;
  loads = λ text. some (dict (field "text" (str text) no_fields));
  sha256 = λ text. text;
  isoformat = λ _. "";
  fromisoformat = λ _. none;
}

host-IsCanonical : IsCanonical host
host-IsCanonical = record {
  reread = λ d. field "text" (str (text_of (dict d))) no_fields;
  loads-dumps = λ d. refl;
  dumps-reread = λ d. refl;
}

abbrev intent : ToolIntent
intent = record {
  effect_id = "run";
  run_id = "run";
  tool_call_id = "call";
  tool_name = "write_file";
  arguments_json = "notes.txt";
}

abbrev receipt : ToolReceipt
receipt = record { effect_id = "run"; outcome = succeeded; output_json = "written" }

intent-IsIntent : IsIntent host intent
unfolding tool_intent intent_identity decode_object string_dec
intent-IsIntent = refl

receipt-IsReceipt : IsReceipt host receipt
unfolding tool_receipt decode_object
receipt-IsReceipt = refl

abbrev with_intent : EffectStore
with_intent = record { tool_intents = intent ∷ []; tool_receipts = [] }

abbrev with_receipt : EffectStore
with_receipt = record { tool_intents = intent ∷ []; tool_receipts = receipt ∷ [] }

intent_saved : save_intent host empty_store intent ≡ ok with_intent
unfolding save_intent find_intent insert_intent
intent_saved = refl

receipt_saved : save_receipt host with_intent receipt ≡ ok with_receipt
unfolding save_receipt find_receipt insert_receipt find_intent string_dec
receipt_saved = refl

intent_loaded : load_intent host with_receipt "run" ≡ ok (some intent)
unfolding load_intent find_intent intent_from_row tool_intent intent_identity decode_object
    string_dec
intent_loaded = refl

receipt_loaded : load_receipt host with_receipt "run" ≡ ok (some receipt)
unfolding load_receipt find_receipt receipt_from_row tool_receipt decode_object string_dec
receipt_loaded = refl

abbrev other_intent : ToolIntent
other_intent = record intent { arguments_json = "other.txt" }

abbrev other_receipt : ToolReceipt
other_receipt = record receipt { outcome = failed }

differ : (s t : String) → holds (string_dec s t) ≡ false → s ≢ t
differ s t h = ground arith

intents_differ : ¬ (other_intent ≡ intent)
unfolding string_dec
intents_differ p = differ "other.txt" "notes.txt" refl (ap (λ i. i.arguments_json) p)

receipts_differ : ¬ (other_receipt ≡ receipt)
receipts_differ p = ground arith

abbrev later : List Save
later = of_receipt receipt ∷ of_intent other_intent ∷ []

accepted_intent_kept_example :
    (load_intent host (save_all host with_intent later) "run" ≡ ok (some intent))
    × (((other_intent ≡ intent)
          × (save_intent host (save_all host with_intent later) other_intent
              ≡ ok (save_all host with_intent later)))
        ⊎ ((other_intent ≢ intent)
            × (save_intent host (save_all host with_intent later) other_intent
                ≡ err duplicate_tool_effect_conflict)))
accepted_intent_kept_example =
    accepted_intent_kept host intent empty_store later other_intent intent-IsIntent intent_saved
      refl

accepted_receipt_kept_example :
    (load_receipt host (save_all host with_receipt later) "run" ≡ ok (some receipt))
    × (((other_receipt ≡ receipt)
          × (save_receipt host (save_all host with_receipt later) other_receipt
              ≡ ok (save_all host with_receipt later)))
        ⊎ ((other_receipt ≢ receipt)
            × (save_receipt host (save_all host with_receipt later) other_receipt
                ≡ err duplicate_tool_effect_conflict)))
accepted_receipt_kept_example =
    accepted_receipt_kept host receipt with_intent later other_receipt receipt-IsReceipt
      receipt_saved refl

saved-IsConsistent_example :
    IsConsistent (save_all host empty_store (of_intent intent ∷ of_receipt receipt ∷ later))
saved-IsConsistent_example = saved-IsConsistent host (of_intent intent ∷ of_receipt receipt ∷ later)

abbrev writer : ToolDefinition
writer = record {
  tool_name = "write_file";
  retry_is_idempotent = false;
  path_argument_names = "path" ∷ [];
}

abbrev registry : ToolRegistry
registry = record { definitions = writer ∷ [] }

writer_resolved : resolve registry "write_file" ≡ ok writer
unfolding resolve find string_dec
writer_resolved = refl

abbrev runner : ToolRunner
runner calls call = returned (field "status" (str "written") no_fields)

abbrev uninterrupted : FailureInjector
uninterrupted checkpoint i = false

abbrev call : Call
call = record {
  tool_name = "write_file";
  arguments = field "text" (str "notes.txt") no_fields;
  idempotency_key = "run";
}

abbrev after_run : World
after_run = record { store = with_receipt; calls = call ∷ [] }

executed : execute host registry runner uninterrupted intent fresh_world ≡ (done receipt, after_run)
unfolding execute execute_loaded invoke_and_record record_receipt invoke reach_checkpoint receipt_of
    intent_arguments resolve find build_receipt tool_receipt decode_object load_intent find_intent
    save_intent insert_intent save_receipt find_receipt insert_receipt string_dec
executed = refl

execute-IsRecorded_example : IsRecorded host with_receipt intent receipt
execute-IsRecorded_example =
    execute-IsRecorded host registry runner uninterrupted host-IsCanonical intent intent-IsIntent
      receipt fresh_world after_run executed

execute_recorded_example :
    execute host registry runner uninterrupted intent after_run ≡ (done receipt, after_run)
execute_recorded_example =
    execute_recorded host registry runner uninterrupted intent writer receipt after_run
      writer_resolved (intent_loaded, receipt_loaded)

-- The process stops after the tool was called, before its receipt is stored.
abbrev interrupted_after_call : FailureInjector
interrupted_after_call after_tool_invoked i = true
interrupted_after_call _ i = false

abbrev delivery : FailureInjector → Delivery
delivery inject = record { registry = registry; runner = runner; inject = inject; intent = intent }

-- The redelivery of the interrupted effect is refused, and so are all later ones.
redelivery_refused :
    execute host registry runner uninterrupted intent
      (execute host registry runner interrupted_after_call intent fresh_world).1
    ≡ (raised unsafe_tool_retry, record { store = with_intent; calls = call ∷ [] })
unfolding execute execute_loaded resolve_redelivery decide_recovery invoke_and_record record_receipt
    invoke reach_checkpoint receipt_of intent_arguments resolve find build_receipt tool_receipt
    decode_object load_intent find_intent intent_from_row tool_intent intent_identity save_intent
    insert_intent save_known_intent load_receipt find_receipt string_dec ToolIntent-discrete
redelivery_refused = refl

writer-NotRetried : (inject : FailureInjector) → NotRetried "run" (delivery inject)
unfolding resolve find string_dec
writer-NotRetried inject same definition found = ground arith

deliver_at_most_once_example :
    count "run"
      (deliver host fresh_world
        (delivery interrupted_after_call ∷ delivery uninterrupted ∷ [])).calls
    ≤ 1
deliver_at_most_once_example =
    deliver_at_most_once host "run" (delivery interrupted_after_call ∷ delivery uninterrupted ∷ [])
      (writer-NotRetried interrupted_after_call, (writer-NotRetried uninterrupted, tt))
