-- ===== src/Runtime/Safety.antt =====
-- The operations of the runtime keep that every call of a tool has a permit in the log.
use agent_runtime_lab.Prelude.{
  String, ◌≡◌, refl, true, false, none, some, is_empty, string_dec, arith,
}
use agent_runtime_lab.Result
use agent_runtime_lab.Result.{Result, ok, err, Result-cases, guard, invalid_transition}
use agent_runtime_lab.Json.{IsCanonical, ReadsBack, ReadsDates, str, Fields, get}
use agent_runtime_lab.Domain.Event.{tool_requested, tool_authorized, tool_escalated, tool_denied}
use agent_runtime_lab.Domain.State.{RunState}
use agent_runtime_lab.Domain.Reducer.Checks.{required_text}
use agent_runtime_lab.Ownership.Authorization.{
  ToolRequest, tool_request, AuthorizationDecision, AuthorizationOutcome, allow, deny, escalate,
}
use agent_runtime_lab.Ownership.Gates.{build_proposal}
use agent_runtime_lab.Persistence.EventStore.{EventStore, load}
use agent_runtime_lab.Persistence.EventStore.Log.{Log}
use agent_runtime_lab.Runtime.{Runtime}
use agent_runtime_lab.Runtime.Events.{RuntimeWorld, Run, ◌>>=◌, lift, query, load_state, append}
use agent_runtime_lab.Runtime.Lookups.{active_request}
use agent_runtime_lab.Runtime.Payloads.{authorization_payload}
use agent_runtime_lab.Runtime.Tools.{decide, submit_decided, submit}
use agent_runtime_lab.Runtime.Outcomes.{
  Gives, Keeps, Gives-bind, Gives-query, Gives-return, Gives-quiet, Gives-known, Gives-after_lift,
}
use agent_runtime_lab.Runtime.Recorded.{Identifies, IsRecorded, Stable}
use agent_runtime_lab.Runtime.Appends.{load_state_same, append-Recorded, append_permit}
use agent_runtime_lab.Runtime.Permitted.{execute_tool-Recorded}

module _ (r : Runtime) where
  -- A request that is read back has the run and the call that it was looked up by.
  pub active_request-identity :
      (run_id tool_call_id : String) (store : EventStore) (request : ToolRequest)
      → Result.◌>>=◌
          (load r.host store run_id)
          (λ events. active_request r.host run_id tool_call_id events)
        ≡ ok request
      → (request.run_id ≡ run_id)
        × (request.tool_call_id ≡ tool_call_id)
        × (is_empty tool_call_id ≡ false)
  unfolding active_request tool_request
  active_request-identity run_id tool_call_id store request e = ground arith

  module _ (c : IsCanonical r.host) (b : ReadsBack r.host c) (dates : ReadsDates r.host)
      (identifies : Identifies r.host) (I : Log → Type 0) (stable : Stable r.host I) where
    abbrev Rec : RuntimeWorld → Type 0
    Rec = IsRecorded r.host I

    pub text-reread :
        (payload : Fields) (key text : String)
        → get key payload ≡ some (str text)
        → is_empty text ≡ false
        → required_text (c.reread payload) key ≡ ok text
    unfolding required_text
    text-reread payload key text found nonempty =
        rw (b.get-reread key payload, found, b.value-str text, nonempty)

    module _ {A : Type 0} {Q : A → RuntimeWorld → Type 0} where
      pub loaded :
          (run_id : String) {f : RunState → Run A}
          → ((s : RunState) → Gives Rec Rec (f s) Q)
          → Gives Rec Rec (load_state r run_id >>= f) Q
      loaded run_id next =
          Gives-bind {m = load_state r run_id}
            (Gives-quiet {S = Rec} (λ w i. i) (load_state_same r run_id)) next

      pub appended :
          (run_id : String) (t : _) (payload : Fields) {f : RunState → Run A}
          → ((s : RunState) → Gives Rec Rec (f s) Q)
          → Gives Rec Rec (append r run_id t payload >>= f) Q
      appended run_id t payload next =
          Gives-bind {m = append r run_id t payload}
            (append-Recorded r c b dates I stable run_id t payload) next

      pub lifted :
          {B : Type 0} (x : Result B) {f : B → Run A}
          → ((v : B) → Gives Rec Rec (f v) Q)
          → Gives Rec Rec (lift x >>= f) Q
      lifted x next = Gives-after_lift (λ w i. i) x (λ v e. next v)

      pub queried :
          {B : Type 0} (q : EventStore → Result B) {f : B → Run A}
          → ((v : B) → Gives Rec Rec (f v) Q)
          → Gives Rec Rec (query q >>= f) Q
      queried q next =
          Gives-bind {m = query q} (Gives-query {S = Rec} (λ w i. i) q)
            (λ v. Gives-known {S = Rec} {G = Unit {0}} (λ w e. tt) (λ t. next v))

    submit_decided-Recorded :
        (request : ToolRequest) (decision : AuthorizationDecision) (outcome : AuthorizationOutcome)
        → is_empty request.tool_call_id ≡ false
        → Keeps Rec (submit_decided r request decision outcome)
    unfolding submit_decided get string_dec
    submit_decided-Recorded request decision deny nonempty =
        appended request.run_id tool_denied _ (λ s. Gives-return _)
    submit_decided-Recorded request decision escalate nonempty =
        Gives-after_lift (λ w i. i) (build_proposal r.host request decision 1)
          (λ proposal e. appended request.run_id tool_escalated _ (λ s. Gives-return _))
    submit_decided-Recorded request decision allow nonempty =
        Gives-bind
          {m = append r request.run_id tool_authorized (authorization_payload request decision)}
          (append_permit r c b dates I stable identifies request.run_id request.tool_call_id
            tool_authorized (authorization_payload request decision) tt
            (text-reread (authorization_payload request decision) "tool_call_id"
              request.tool_call_id refl nonempty))
          (λ s. execute_tool-Recorded r I c b dates stable request (some decision) none none true)

    pub submit-Recorded :
        (request : ToolRequest)
        → is_empty request.tool_call_id ≡ false
        → Keeps Rec (submit r request)
    unfolding submit
    submit-Recorded request nonempty = appended request.run_id tool_requested _ (λ s.
        submit_decided-Recorded request (decide r request) (decide r request).outcome nonempty)
