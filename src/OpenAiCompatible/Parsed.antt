-- ===== src/OpenAiCompatible/Parsed.antt =====
-- What a parsed response of the provider proposes (openai_compatible_adapter.py).
use agent_runtime_lab.Prelude.{
  String, ◌≡◌, refl, sym, subst, inl, inr, Bool, true, false, Option, none, some, is_empty,
  Bool-cases, arith,
}
use agent_runtime_lab.Result.{Result, ok, Result-cases, model_action_validation, guard, bound, ◌>>◌}
use agent_runtime_lab.Json.{Json, str, list, dict, no_items, item, Fields, get, Host}
use agent_runtime_lab.Verification.{text_equals}
use agent_runtime_lab.ModelAdapter.{
  ModelInput, ModelAction, ToolCallAction, FinalAnswerAction, tool_call, final_answer,
  tool_call_action, final_answer_action, validate_object_json, action_object,
}
use agent_runtime_lab.OpenAiCompatible.{
  provider_text, single, is_truthy, is_blank, parse_tool_call, parse_answer, parse_chat_completion,
  OpenAiCompatibleModelAdapter, load_api_key, provider_payload, provider_request, next_action,
}

-- The response has one choice, with this reason and this message.
pub record HasChoice (response : Fields) (reason : String) (message : Fields) : Type 0 where
  pub choice : Fields
  pub only : get "choices" response ≡ some (list (item (dict choice) no_items))
  pub finished : get "finish_reason" choice ≡ some (str reason)
  pub answered : get "message" choice ≡ some (dict message)

-- The message calls one function, with a JSON object as its arguments, and says nothing else.
pub record CallsTool (h : Host) (message : Fields) (action : ToolCallAction) : Type 0 where
  pub call : Fields
  pub function : Fields
  pub arguments : Fields
  pub text : String
  pub silent : is_blank (get "content" message) ≡ true
  pub only : get "tool_calls" message ≡ some (list (item (dict call) no_items))
  pub typed : get "type" call ≡ some (str "function")
  pub called : get "function" call ≡ some (dict function)
  pub identified : get "id" call ≡ some (str action.tool_call_id)
  pub named : get "name" function ≡ some (str action.tool_name)
  pub given : get "arguments" function ≡ some (str text)
  pub decoded : h.loads text ≡ some (dict arguments)
  pub canonical : action.arguments_json ≡ h.dumps (dict arguments)

-- The message is an answer that calls no tool.
pub record Answers (message : Fields) (action : FinalAnswerAction) : Type 0 where
  pub calls_none : is_truthy (get "tool_calls" message) ≡ false
  pub answer : get "content" message ≡ some (str action.answer)
  pub nonempty : is_empty action.answer ≡ false

abbrev pub Proposes : Host → Fields → ModelAction → Type 0
Proposes h response (tool_call action) =
    (message : Fields) × HasChoice response "tool_calls" message × CallsTool h message action
Proposes h response (final_answer action) =
    (message : Fields) × HasChoice response "stop" message × Answers message action

single_only : (o : Option Json) (v : Json) → single o ≡ ok v → o ≡ some (list (item v no_items))
single_only none v e = absurd (ground arith)
single_only (some value) v e = ground arith

object_only : (o : Option Json) (d : Fields) → action_object o ≡ ok d → o ≡ some (dict d)
object_only none d e = absurd (ground arith)
object_only (some value) d e = ground arith

text_only : (o : Option Json) (t : String) → text_equals o t ≡ true → o ≡ some (str t)
text_only none t e = absurd (ground arith)
text_only (some value) t e = ground arith

required_only :
    (o : Option Json) (t : String)
    → provider_text o ≡ ok t
    → (o ≡ some (str t)) × (is_empty t ≡ false)
required_only none t e = absurd (ground arith)
required_only (some value) t e = ground arith

guarded :
    {B : Type 0} (test : Bool) (rest : Result B) (v : B)
    → (guard test model_action_validation >> rest) ≡ ok v
    → (test ≡ true) × (rest ≡ ok v)
guarded true rest v is = (refl, is)
guarded false rest v is = absurd (ground arith)

answer_proposed :
    (choice message : Fields) (action : ModelAction)
    → parse_answer choice message ≡ ok action
    → (a : FinalAnswerAction) × (action ≡ final_answer a)
      × (get "finish_reason" choice ≡ some (str "stop"))
      × (get "content" message ≡ some (str a.answer))
      × (is_empty a.answer ≡ false)
unfolding parse_answer final_answer_action
answer_proposed choice message action e =
    let (stops, e₁) = guarded (text_equals (get "finish_reason" choice) "stop") _ action e in
    let (t, content, e₂) = bound (provider_text (get "content" message)) _ action e₁ in
    let (given, nonempty) = required_only (get "content" message) t content in
    (
      record { answer = t },
      ground (arith, e₂, nonempty),
      text_only (get "finish_reason" choice) "stop" stops,
      given,
      nonempty,
    )

tool_call_decoded :
    (h : Host) (tool_call_id tool_name text : String) (a : ToolCallAction)
    → tool_call_action h tool_call_id tool_name text ≡ ok a
    → (d : Fields) × (h.loads text ≡ some (dict d))
      × (a.arguments_json ≡ h.dumps (dict d))
      × (a.tool_call_id ≡ tool_call_id)
      × (a.tool_name ≡ tool_name)
unfolding tool_call_action validate_object_json
tool_call_decoded h tool_call_id tool_name text a e =
    elim (Result-cases (action_object (h.loads text))) [
      | inr (x, refused) ↦ absurd (ground arith)
      | inl (d, loads) ↦
          (d, object_only (h.loads text) d loads, ground arith, ground arith, ground arith)
    ]

call_proposed :
    (h : Host) (choice message : Fields) (action : ModelAction)
    → parse_tool_call h choice message ≡ ok action
    → (a : ToolCallAction) × (action ≡ tool_call a)
      × (get "finish_reason" choice ≡ some (str "tool_calls"))
      × CallsTool h message a
unfolding parse_tool_call
call_proposed h choice message action e =
    let (calls, e₁) = guarded (text_equals (get "finish_reason" choice) "tool_calls") _ action e in
    let (silent, e₂) = guarded (is_blank (get "content" message)) _ action e₁ in
    let (value, only, e₃) = bound (single (get "tool_calls" message)) _ action e₂ in
    let (call, object, e₄) = bound (action_object (some value)) _ action e₃ in
    let (typed, e₅) = guarded (text_equals (get "type" call) "function") _ action e₄ in
    let (function, called, e₆) = bound (action_object (get "function" call)) _ action e₅ in
    let (id, identified, e₇) = bound (provider_text (get "id" call)) _ action e₆ in
    let (name, named, e₈) = bound (provider_text (get "name" function)) _ action e₇ in
    let (text, given, e₉) = bound (provider_text (get "arguments" function)) _ action e₈ in
    let (a, built, last) = bound (tool_call_action h id name text) _ action e₉ in
    let (arguments, decoded, canonical, same_id, same_name) =
      tool_call_decoded h id name text a built in
    let is : value ≡ dict call = ground (arith, object) in
    (
      a,
      ground (arith, last),
      text_only (get "finish_reason" choice) "tool_calls" calls,
      record {
        call = call;
        function = function;
        arguments = arguments;
        text = text;
        silent = silent;
        only = ground (arith, single_only (get "tool_calls" message) value only, is);
        typed = text_only (get "type" call) "function" typed;
        called = object_only (get "function" call) function called;
        identified = ground (arith, (required_only (get "id" call) id identified).0, same_id);
        named = ground (arith, (required_only (get "name" function) name named).0, same_name);
        given = (required_only (get "arguments" function) text given).0;
        decoded = decoded;
        canonical = canonical;
      },
    )

pub parse_chat_completion-Proposes :
    (h : Host) (response : Fields) (action : ModelAction)
    → parse_chat_completion h response ≡ ok action
    → Proposes h response action
unfolding parse_chat_completion
parse_chat_completion-Proposes h response action e =
    let (value, only, e₁) = bound (single (get "choices" response)) _ action e in
    let (choice, object, e₂) = bound (action_object (some value)) _ action e₁ in
    let (message, answered, e₃) = bound (action_object (get "message" choice)) _ action e₂ in
    let is : value ≡ dict choice = ground (arith, object) in
    let one : get "choices" response ≡ some (list (item (dict choice) no_items)) =
      ground (arith, single_only (get "choices" response) value only, is) in
    let inside = object_only (get "message" choice) message answered in
    elim (Bool-cases (is_truthy (get "tool_calls" message))) [
      | inl calls ↦
          let (a, same, finished, c) = call_proposed h choice message action (rw calls at e₃) in
          subst (Proposes h response) (sym same) (
            message,
            record { choice = choice; only = one; finished = finished; answered = inside },
            c,
          )
      | inr calls_none ↦
          let (a, same, finished, given, nonempty) =
            answer_proposed choice message action (rw calls_none at e₃) in
          subst (Proposes h response) (sym same) (
            message,
            record { choice = choice; only = one; finished = finished; answered = inside },
            record { calls_none = calls_none; answer = given; nonempty = nonempty },
          )
    ]

-- An action that the adapter returns is what the provider's response to the request for this
-- context, sent with a key that is present, proposes: the response has one choice, which ended for
-- the reason of its kind, and its message either calls one function with a JSON object and has no
-- text, or is a text that is not empty and calls none.
pub next_action-Proposes :
    (h : Host) (adapter : OpenAiCompatibleModelAdapter) (context : ModelInput)
    (action : ModelAction)
    → next_action h adapter context ≡ ok action
    → (key : String) × (payload : Fields) × (response : Fields) × (load_api_key h adapter ≡ ok key)
      × (provider_payload h adapter context ≡ ok payload)
      × (adapter.transport (provider_request h adapter key payload) ≡ ok response)
      × Proposes h response action
unfolding next_action
next_action-Proposes h adapter context action e =
    let (key, keyed, e₁) = bound (load_api_key h adapter) _ action e in
    let (payload, made, e₂) = bound (provider_payload h adapter context) _ action e₁ in
    let (response, sent, e₃) =
      bound (adapter.transport (provider_request h adapter key payload)) _ action e₂ in
    (key, payload, response, keyed, made, sent, parse_chat_completion-Proposes h response action e₃)
