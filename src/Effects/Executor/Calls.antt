-- ===== src/Effects/Executor/Calls.antt =====
-- How often the executor calls a tool (durable_tool_executor.py).
use agent_runtime_lab.Prelude.{
  ℕ, suc, ◌+◌, String, ◌≡◌, refl, ◌⊎◌, inl, inr, true, Option, none, some, List, [], ◌∷◌, ◌++◌,
  holds, string_dec, if◌then◌else◌, Bool-cases, ap, ◌∙◌, arith,
}
use agent_runtime_lab.Result.{ok, Result-cases}
use agent_runtime_lab.Json.{Host}
use agent_runtime_lab.Registry.{ToolDefinition, ToolRegistry, resolve}
use agent_runtime_lab.Effects.{ToolIntent, ToolReceipt, decide_recovery, intent_arguments}
use agent_runtime_lab.Effects.Store.{
  EffectStore, find_intent, load_intent, save_intent, save_known_intent, insert_intent,
  save_receipt, save_known_receipt, insert_receipt, load_receipt,
}
use agent_runtime_lab.Effects.Executor.{
  ToolRunner, FailureInjector, World, Call, Outcome, done, raised, stopped, of_result,
  after_intent_persisted, continue, receipt_of, reach_checkpoint, invoke, record_receipt,
  invoke_and_record, resolve_redelivery, execute_loaded, execute,
}

unfoldable pub count : String → List Call → ℕ
count key [] = 0
count key (c ∷ cs) =
    let rest = count key cs in if holds (string_dec c.idempotency_key key) then suc rest else rest

pub count-append :
    (key : String) (cs : List Call) (c : Call)
    → count key (cs ++ c ∷ [])
      ≡ count key cs + (if holds (string_dec c.idempotency_key key) then 1 else 0)
unfolding count
count-append key [] c = ground arith
count-append key (d ∷ cs) c = ground (arith, count-append key cs c)

module _ (h : Host) where
  pub save_intent-new :
      (store : EffectStore) (i : ToolIntent) {store' : EffectStore}
      → find_intent i.effect_id store.tool_intents ≡ none
      → save_intent h store i ≡ ok store'
      → store' ≡ record store { tool_intents = store.tool_intents ++ i ∷ [] }
  unfolding save_intent insert_intent
  save_intent-new store i fresh e = ground arith

  pub save_intent-known :
      (store : EffectStore) (i : ToolIntent) {store' : EffectStore}
      → ¬ (find_intent i.effect_id store.tool_intents ≡ none)
      → save_intent h store i ≡ ok store'
      → store' ≡ store
  unfolding save_intent save_known_intent
  save_intent-known store i known e = ground arith

  pub save_receipt-intents :
      (store : EffectStore) (r : ToolReceipt) {store' : EffectStore}
      → save_receipt h store r ≡ ok store'
      → store'.tool_intents ≡ store.tool_intents
  unfolding save_receipt save_known_receipt insert_receipt
  save_receipt-intents store r e = ground arith

module _ (h : Host) (registry : ToolRegistry) (runner : ToolRunner) (inject : FailureInjector) where
  abbrev pub call_of : ToolIntent → Call
  call_of i = record {
    tool_name = i.tool_name;
    arguments = intent_arguments h i;
    idempotency_key = i.effect_id;
  }

  record_receipt-keeps :
      (i : ToolIntent) (r : ToolReceipt) (w : World)
      → ((record_receipt h registry runner inject i r w).1.calls ≡ w.calls)
        × ((record_receipt h registry runner inject i r w).1.store.tool_intents
            ≡ w.store.tool_intents)
  unfolding record_receipt reach_checkpoint
  record_receipt-keeps i r w = elim (Result-cases (save_receipt h w.store r)) [
    | inl (store', saved) ↦ ground (arith, save_receipt-intents h w.store r saved)
    | inr (x, refused) ↦ ground arith
  ]

  record_outcome-keeps :
      (i : ToolIntent) (o : Outcome ToolReceipt) (w : World)
      → let w' = (continue o (record_receipt h registry runner inject i) w).1 in
        (w'.calls ≡ w.calls) × (w'.store.tool_intents ≡ w.store.tool_intents)
  record_outcome-keeps i (done r) w = record_receipt-keeps i r w
  record_outcome-keeps i (raised e) w = (refl, refl)
  record_outcome-keeps i stopped w = (refl, refl)

  invoke_and_record-calls :
      (i : ToolIntent) (w : World)
      → let w' = (invoke_and_record h registry runner inject i w).1 in
        (w'.calls ≡ w.calls ++ call_of i ∷ []) × (w'.store.tool_intents ≡ w.store.tool_intents)
  unfolding invoke_and_record invoke
  invoke_and_record-calls i w =
      record_outcome-keeps i (receipt_of h i (runner w.calls (call_of i)))
        (record w { calls = w.calls ++ call_of i ∷ [] })

  -- The executor made no call and kept or added the intent; or it made one call, for an intent that
  -- it had just added, or to retry a stored intent of an idempotent tool.
  abbrev pub Ran : ToolDefinition → ToolIntent → World → World → Type 0
  Ran d i w w' =
      ((w'.calls ≡ w.calls)
        × ((w'.store.tool_intents ≡ w.store.tool_intents)
            ⊎ ((find_intent i.effect_id w.store.tool_intents ≡ none)
                × (w'.store.tool_intents ≡ w.store.tool_intents ++ i ∷ []))))
      ⊎ (((w'.calls ≡ w.calls ++ call_of i ∷ [])
            × (find_intent i.effect_id w.store.tool_intents ≡ none)
            × (w'.store.tool_intents ≡ w.store.tool_intents ++ i ∷ []))
          ⊎ ((w'.calls ≡ w.calls ++ call_of i ∷ [])
              × (d.retry_is_idempotent ≡ true)
              × (w'.store.tool_intents ≡ w.store.tool_intents)))

  resolve_redelivery-Ran :
      (d : ToolDefinition) (i persisted : ToolIntent) (o : Option ToolReceipt) (w : World)
      → Ran d i w (resolve_redelivery h registry runner inject d i persisted o w).1
  unfolding resolve_redelivery decide_recovery
  resolve_redelivery-Ran d i persisted (some r) w = inl (refl, inl refl)
  resolve_redelivery-Ran d i persisted none w = ground (arith, invoke_and_record-calls i w)

  pub load_intent-none :
      (store : EffectStore) (effect_id : String)
      → load_intent h store effect_id ≡ ok none
      → find_intent effect_id store.tool_intents ≡ none
  unfolding load_intent
  load_intent-none store effect_id e = ground arith

  pub load_intent-some :
      (store : EffectStore) (effect_id : String) (i : ToolIntent)
      → load_intent h store effect_id ≡ ok (some i)
      → ¬ (find_intent effect_id store.tool_intents ≡ none)
  unfolding load_intent
  load_intent-some store effect_id i e = ground arith

  -- What follows the checkpoint behind a new intent.
  abbrev begin_call : ToolIntent → World → Outcome ToolReceipt × World
  begin_call i w =
      let (o, w') = reach_checkpoint h registry runner inject after_intent_persisted i w in
      continue o (λ _. invoke_and_record h registry runner inject i) w'

  begin_call-calls :
      (i : ToolIntent) (w : World)
      → let w' = (begin_call i w).1 in
        ((w'.calls ≡ w.calls) ⊎ (w'.calls ≡ w.calls ++ call_of i ∷ []))
        × (w'.store.tool_intents ≡ w.store.tool_intents)
  unfolding reach_checkpoint
  begin_call-calls i w = elim (Bool-cases (inject after_intent_persisted i)) [
    | inl stop ↦ rw stop (inl refl, refl)
    | inr on ↦ let (calls, intents) = invoke_and_record-calls i w in rw on (inr calls, intents)
  ]

  module _ (d : ToolDefinition) (i : ToolIntent) (w : World) where
    first_call-Ran :
        (store' : EffectStore)
        → find_intent i.effect_id w.store.tool_intents ≡ none
        → store' ≡ record (w.store) { tool_intents = w.store.tool_intents ++ i ∷ [] }
        → Ran d i w (begin_call i (record w { store = store' })).1
    first_call-Ran store' fresh added =
        let w₁ : World = record w { store = store' } in
        let intents : (begin_call i w₁).1.store.tool_intents ≡ w.store.tool_intents ++ i ∷ [] =
          (begin_call-calls i w₁).1 ∙ ap (λ (s : EffectStore). s.tool_intents) added in
        elim (begin_call-calls i w₁).0 [
          | inl quiet ↦ inl (quiet, inr (fresh, intents))
          | inr called ↦ inr (inl (called, fresh, intents))
        ]

    abbrev redeliver : ToolIntent → World → Outcome ToolReceipt × World
    redeliver persisted w₁ =
        continue (of_result (load_receipt h w₁.store i.effect_id))
          (λ r. resolve_redelivery h registry runner inject d i persisted r) w₁

    redeliver-Ran : (persisted : ToolIntent) → Ran d i w (redeliver persisted w).1
    redeliver-Ran persisted = elim (Result-cases (load_receipt h w.store i.effect_id)) [
      | inl (r, loaded) ↦ rw loaded (resolve_redelivery-Ran d i persisted r w)
      | inr (x, refused) ↦ rw refused (inl (refl, inl refl))
    ]

  execute_loaded-Ran :
      (d : ToolDefinition) (i : ToolIntent) (persisted : Option ToolIntent) (w : World)
      → load_intent h w.store i.effect_id ≡ ok persisted
      → Ran d i w (execute_loaded h registry runner inject d i persisted w).1
  unfolding execute_loaded
  execute_loaded-Ran d i none w l = elim (Result-cases (save_intent h w.store i)) [
    | inr (x, refused) ↦ rw refused (inl (refl, inl refl))
    | inl (store', saved) ↦
        let fresh = load_intent-none w.store i.effect_id l in
        rw saved (first_call-Ran d i w store' fresh (save_intent-new h w.store i fresh saved))
  ]
  execute_loaded-Ran d i (some persisted) w l = elim (Result-cases (save_intent h w.store i)) [
    | inr (x, refused) ↦ rw refused (inl (refl, inl refl))
    | inl (store', saved) ↦
        let known = load_intent-some w.store i.effect_id persisted l in
        rw saved (rw (save_intent-known h w.store i known saved) (redeliver-Ran d i w persisted))
  ]

  pub execute-Ran :
      (i : ToolIntent) (w : World)
      → let w' = (execute h registry runner inject i w).1 in
        (w' ≡ w) ⊎ ((d : ToolDefinition) × (resolve registry i.tool_name ≡ ok d) × Ran d i w w')
  unfolding execute
  execute-Ran i w = elim (Result-cases (resolve registry i.tool_name)) [
    | inr (x, refused) ↦ rw refused (inl refl)
    | inl (d, found) ↦ rw found (elim (Result-cases (load_intent h w.store i.effect_id)) [
      | inr (x, refused) ↦ rw refused (inl refl)
      | inl (persisted, loaded) ↦
          rw loaded (inr (d, refl, execute_loaded-Ran d i persisted w loaded))
    ])
  ]
