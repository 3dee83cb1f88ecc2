-- ===== src/Effects/Executor/AtMostOnce.antt =====
-- A tool that is not idempotent is called at most once for an effect, whatever crashes
-- (durable_tool_executor.py).
use agent_runtime_lab.Prelude.{
  ◌+◌, ◌≤◌, String, ◌≡◌, ◌≢◌, refl, inl, inr, false, none, List, [], ◌∷◌, ◌++◌, All, holds,
  string_dec, if◌then◌else◌, Option-cases, arith,
}
use agent_runtime_lab.Result.{ok}
use agent_runtime_lab.Json.{Host}
use agent_runtime_lab.Registry.{ToolDefinition, ToolRegistry, resolve}
use agent_runtime_lab.Effects.{ToolIntent}
use agent_runtime_lab.Effects.Store.{empty_store, find_intent}
use agent_runtime_lab.Effects.Store.Laws.{find_intent-append, find_intent-append_old}
use agent_runtime_lab.Effects.Executor.{ToolRunner, FailureInjector, World, execute}
use agent_runtime_lab.Effects.Executor.Calls.{count, count-append, call_of, Ran, execute-Ran}

-- One delivery of an intent: the tools registered then, how the tool answers, and where the process
-- is stopped.
pub record Delivery : Type 0 where
  pub registry : ToolRegistry
  pub runner : ToolRunner
  pub inject : FailureInjector
  pub intent : ToolIntent

-- The deliveries one after the other, each in a process that finds what the earlier ones left.
unfoldable pub deliver : Host → World → List Delivery → World
deliver h w [] = w
deliver h w (d ∷ ds) = deliver h (execute h d.registry d.runner d.inject d.intent w).1 ds

abbrev pub fresh_world : World
fresh_world = record { store = empty_store; calls = [] }

-- Where the delivery is of this effect, its tool is not idempotent.
abbrev pub NotRetried : String → Delivery → Type 0
NotRetried effect_id d =
    d.intent.effect_id ≡ effect_id
    → (definition : ToolDefinition) → resolve d.registry d.intent.tool_name ≡ ok definition
    → definition.retry_is_idempotent ≡ false

-- An effect without an intent was never called; one with an intent at most once.
abbrev IsOnce : String → World → Type 0
IsOnce key w =
    (count key w.calls ≤ 1) × (find_intent key w.store.tool_intents ≡ none → count key w.calls ≡ 0)

not-found-append :
    (key : String) (rows : List ToolIntent) (i : ToolIntent)
    → find_intent key (rows ++ i ∷ []) ≡ none
    → (find_intent key rows ≡ none) × (i.effect_id ≢ key)
not-found-append key rows i gone = elim (Option-cases (find_intent key rows)) [
  | inl old ↦ (old, ground (arith, find_intent-append key rows i old))
  | inr (row, old) ↦ absurd (ground (arith, find_intent-append_old key rows i row old))
]

module _ (h : Host) (key : String) (d : Delivery) (safe : NotRetried key d) (w : World) where
  abbrev after : World
  after = (execute h d.registry d.runner d.inject d.intent w).1

  Ran-IsOnce :
      (definition : ToolDefinition) (w' : World)
      → resolve d.registry d.intent.tool_name ≡ ok definition
      → Ran h d.registry d.runner d.inject definition d.intent w w'
      → IsOnce key w
      → IsOnce key w'
  Ran-IsOnce definition w' found (inl (quiet, inl same)) (once, none_yet) =
      rw (quiet, same) (once, none_yet)
  Ran-IsOnce definition w' found (inl (quiet, inr (fresh, added))) (once, none_yet) =
      rw (quiet, added)
        (once, λ gone. none_yet (not-found-append key w.store.tool_intents d.intent gone).0)
  Ran-IsOnce definition w' found (inr (inl (called, fresh, added))) (once, none_yet) =
      let counted = count-append key w.calls (call_of h d.registry d.runner d.inject d.intent) in
      rw (called, added)
        (
          first_count (string_dec d.intent.effect_id key) counted,
          λ gone.
              let (old, other) = not-found-append key w.store.tool_intents d.intent gone in
              ground (arith, counted, none_yet old, other),
        )
    where
      first_count :
          Dec (d.intent.effect_id ≡ key)
          → count key (w.calls ++ call_of h d.registry d.runner d.inject d.intent ∷ [])
            ≡ count key w.calls + (if holds (string_dec d.intent.effect_id key) then 1 else 0)
          → count key (w.calls ++ call_of h d.registry d.runner d.inject d.intent ∷ []) ≤ 1
      first_count (yes same) counted =
          let old : find_intent key w.store.tool_intents ≡ none = rw (← same) fresh in
          ground (arith, counted, none_yet old)
      first_count (no other) counted = ground (arith, counted, once)
  Ran-IsOnce definition w' found (inr (inr (called, idempotent, same))) (once, none_yet) =
      let counted = count-append key w.calls (call_of h d.registry d.runner d.inject d.intent) in
      let other : d.intent.effect_id ≢ key =
        λ e. ground (arith, safe e definition found, idempotent) in
      let unchanged : count key w'.calls ≡ count key w.calls =
        rw called (ground (arith, counted, other)) in
      (rw unchanged once, λ gone. rw unchanged (none_yet (rw same at gone)))

  execute-IsOnce : IsOnce key w → IsOnce key after
  execute-IsOnce once = elim (execute-Ran h d.registry d.runner d.inject d.intent w) [
    | inl same ↦ rw same once
    | inr (definition, found, ran) ↦ Ran-IsOnce definition after found ran once
  ]

module _ (h : Host) (key : String) where
  deliver-IsOnce :
      (ds : List Delivery) (w : World)
      → All (NotRetried key) ds
      → IsOnce key w
      → IsOnce key (deliver h w ds)
  unfolding deliver
  deliver-IsOnce [] w safe once = once
  deliver-IsOnce (d ∷ ds) w safe once =
      deliver-IsOnce ds (execute h d.registry d.runner d.inject d.intent w).1 safe.1
        (execute-IsOnce h key d safe.0 w once)

  -- However often intents are delivered, from empty tables, and wherever the process is stopped, an
  -- effect whose tool is not registered as idempotent in any of its deliveries is called at most once.
  pub deliver_at_most_once :
      (ds : List Delivery)
      → All (NotRetried key) ds
      → count key (deliver h fresh_world ds).calls ≤ 1
  unfolding count find_intent
  deliver_at_most_once ds safe = (deliver-IsOnce ds fresh_world safe (omega arith, λ fresh. refl)).0
