-- ===== src/Runtime/Recorded.antt =====
-- What the runtime's event log and effects keep: the store stands for a log with its snapshots, and
-- every call of a tool has a permit in the log.
use agent_runtime_lab.Prelude.{
  ℕ, String, ◌≡◌, sym, ap, ◌∙◌, subst, inl, inr, true, some, List, [], ◌∷◌, All, holds, string_dec,
  Bool-cases, Option-cases, arith,
}
use agent_runtime_lab.Prelude.Int.{pos}
use agent_runtime_lab.Result.{ok}
use agent_runtime_lab.Json.{Host, IsCanonical, Fields, DateTime}
use agent_runtime_lab.Domain.Event.{
  EventType, ExecutionEvent, IsEvent, execution_event, build_event, fingerprint,
}
use agent_runtime_lab.Domain.Reducer.Checks.{required_text}
use agent_runtime_lab.Domain.Reducer.Gates.{Permits}
use agent_runtime_lab.Domain.Replay.Permits.{PermitIn, PermitIn-append, PermitIn-last}
use agent_runtime_lab.Effects.{derive_effect_id}
use agent_runtime_lab.Effects.Executor.{Call}
use agent_runtime_lab.Persistence.EventStore.Log.{Log, history, known, IsLog, accept, accept_cases}
use agent_runtime_lab.Persistence.EventStore.Refinement.{Represents}
use agent_runtime_lab.Persistence.EventStore.Snapshots.{AreSnapshots}
use agent_runtime_lab.Runtime.Events.{RuntimeWorld}

-- The fingerprint, a SHA-256 digest of an event's canonical text, identifies the event.
abbrev pub Identifies : Host → Type 0
Identifies h =
    (e e' : ExecutionEvent)
    → IsEvent h e
    → IsEvent h e'
    → fingerprint h e ≡ fingerprint h e'
    → e ≡ e'

-- A call whose idempotency key is the effect of a tool call that the log permits.
pub record HasPermit (h : Host) (log : Log) (call : Call) : Type 0 where
  pub run_id : String
  pub tool_call_id : String
  pub effect : derive_effect_id h run_id tool_call_id ≡ ok call.idempotency_key
  pub permit : PermitIn tool_call_id (history run_id log)

-- The store stands for a log of which `I` holds, and every call has a permit in it.
pub record IsRecorded (h : Host) (I : Log → Type 0) (w : RuntimeWorld) : Type 0 where
  pub log : Log
  pub represents : Represents h w.events log
  pub snapshots : AreSnapshots h log w.events.run_snapshots
  pub permitted : All (HasPermit h log) w.effects.calls
  pub kept : I log

-- Accepted events keep what holds of the log.
abbrev pub Stable : Host → (Log → Type 0) → Type 0
Stable h I = (log next : Log) (e : ExecutionEvent) → accept h log e ≡ ok next → I log → I next

-- The event permits the call.
abbrev pub IsPermit : String → ExecutionEvent → Type 0
IsPermit call e =
    Permits e.event_type e.payload × (required_text e.payload "tool_call_id" ≡ ok call)

permit-cons :
    (call run_id : String) (e : ExecutionEvent) (log : Log)
    → PermitIn call (history run_id log)
    → PermitIn call (history run_id (e ∷ log))
unfolding history
permit-cons call run_id e log p = elim (Bool-cases (holds (string_dec e.run_id run_id))) [
  | inl same ↦ rw same (PermitIn-append call (history run_id log) (e ∷ []) p)
  | inr other ↦ rw other p
]

permit-new :
    (call run_id : String) (e : ExecutionEvent) (log : Log)
    → holds (string_dec e.run_id run_id) ≡ true
    → IsPermit call e
    → PermitIn call (history run_id (e ∷ log))
unfolding history
permit-new call run_id e log same p = rw same (PermitIn-last call (history run_id log) e p)

-- One log extends another: it holds all permits of the other.
abbrev pub Extends : Log → Log → Type 0
Extends log next =
    (call run_id : String)
    → PermitIn call (history run_id log)
    → PermitIn call (history run_id next)

module _ (h : Host) where
  pub HasPermit-Extends :
      (log next : Log) (calls : List Call)
      → Extends log next
      → All (HasPermit h log) calls
      → All (HasPermit h next) calls
  HasPermit-Extends log next [] more p = tt
  HasPermit-Extends log next (call ∷ calls) more p = (
    record {
      run_id = p.0.run_id;
      tool_call_id = p.0.tool_call_id;
      effect = p.0.effect;
      permit = more p.0.tool_call_id p.0.run_id p.0.permit;
    },
    HasPermit-Extends log next calls more p.1,
  )

  pub accept-Extends :
      (log next : Log) (e : ExecutionEvent) → accept h log e ≡ ok next → Extends log next
  accept-Extends log next e a call run_id p = elim (accept_cases h log next e a) [
    | inl same ↦ subst (λ l. PermitIn call (history run_id l)) (sym same) p
    | inr more ↦
        subst (λ l. PermitIn call (history run_id l)) (sym more) (permit-cons call run_id e log p)
  ]

  module _ (identifies : Identifies h) (call : String) (e : ExecutionEvent) (valid : IsEvent h e)
      (p : IsPermit call e) where
    known_permit :
        (log : Log)
        → IsLog h log
        → known h e.event_id log ≡ some (fingerprint h e)
        → PermitIn call (history e.run_id log)
    unfolding known
    known_permit [] i found = absurd (ground arith)
    known_permit (x ∷ log) i found = elim (Bool-cases (holds (string_dec x.event_id e.event_id))) [
      | inl here ↦
          let same : x ≡ e = identifies x e i.2 valid (ground arith) in
          subst (λ (y : ExecutionEvent). PermitIn call (history e.run_id (y ∷ log))) (sym same)
            (permit-new call e.run_id e log (ground arith) p)
      | inr other ↦ permit-cons call e.run_id x log (known_permit log i.3 (ground arith))
    ]

    pub accept-permit :
        (log next : Log)
        → IsLog h log
        → accept h log e ≡ ok next
        → PermitIn call (history e.run_id next)
    unfolding accept
    accept-permit log next i a = elim (Option-cases (known h e.event_id log)) [
      | inl fresh ↦
          let more : next ≡ e ∷ log = ground arith in
          subst (λ l. PermitIn call (history e.run_id l)) (sym more)
            (permit-new call e.run_id e log (ground arith) p)
      | inr (existing, found) ↦
          let same : next ≡ log = ground arith in
          let print : existing ≡ fingerprint h e = ground arith in
          subst (λ l. PermitIn call (history e.run_id l)) (sym same)
            (known_permit log i (found ∙ ap some print))
    ]

  -- An event that the constructor built is one.
  pub build_event-IsEvent :
      (c : IsCanonical h) (event_id run_id : String) (n : ℕ) (t : EventType) (at : DateTime)
      (payload : Fields) {e : ExecutionEvent}
      → build_event h event_id run_id (pos n) t at payload ≡ ok e
      → IsEvent h e × (e.run_id ≡ run_id) × (e.event_type ≡ t) × (e.payload ≡ c.reread payload)
  unfolding build_event execution_event
  build_event-IsEvent c event_id run_id n t at payload {e} built =
      ground (arith, c.loads-dumps payload, c.dumps-reread payload)
