-- ===== src/OpenAiCompatible.antt =====
-- src/agent_runtime_lab/openai_compatible_adapter.py: the model adapter that asks an HTTP provider,
-- and the parsing of the provider's answer.
pub mod Parsed
mod Tests
use Prim.Native.Char.{Char, code}
use agent_runtime_lab.Prelude.{
  ℕ, leb, String, Bool, true, false, not, ◌&&◌, ◌||◌, ◌==◌, ◌<>◌, Option, none, some, List, [], ◌∷◌,
  any, is_empty, holds, string_dec, if◌then◌else◌,
}
use agent_runtime_lab.Prelude.Int.{ℤ, pos, negsuc}
use agent_runtime_lab.Result.{
  Result, ok, err, model_action_validation, model_provider, value_error, ◌>>=◌, ◌>>◌, guard,
}
use agent_runtime_lab.Json.{
  Json, null, bool, int, float, str, list, dict, Items, no_items, item, Fields, no_fields, field,
  get, Host,
}
use agent_runtime_lab.Domain.State.{run_status_value}
use agent_runtime_lab.Verification.{text_equals}
use agent_runtime_lab.ModelAdapter.{
  ModelInput, ModelAction, tool_call, final_answer, tool_call_action, final_answer_action,
  action_object, action_text, observation_of,
}

-- `_required_text(value, field_name)` of a decoded value
abbrev pub provider_text : Option Json → Result String
provider_text (some (str text)) = if is_empty text then err model_action_validation else ok text
provider_text _ = err model_action_validation

pub record ModelToolSpec : Type 0 where
  pub name : String
  pub description : String
  pub parameters_json : String

module _ (h : Host) where
  -- `ModelToolSpec(...)`, with the checks of `__post_init__`
  unfoldable pub model_tool_spec : String → String → String → Result ModelToolSpec
  model_tool_spec name description parameters_json = do
    action_text name
    action_text description
    parameters ← action_object (h.loads parameters_json)
    ok (record {
      name = name;
      description = description;
      parameters_json = h.dumps (dict parameters);
    })

  -- `ModelToolSpec.build(...)`
  unfoldable pub build_tool_spec : String → String → Fields → Result ModelToolSpec
  build_tool_spec name description parameters =
      model_tool_spec name description (h.dumps (dict parameters))

  -- `spec.as_provider_tool()`: its text is JSON, by the check of the constructor.
  unfoldable pub as_provider_tool : ModelToolSpec → Result Json
  as_provider_tool spec = do
    parameters ← action_object (h.loads spec.parameters_json)
    ok (
        dict (
          field "type" (str "function") (
            field "function"
              (dict (
                field "name" (str spec.name) (
                  field "description" (str spec.description)
                    (field "parameters" (dict parameters) no_fields))))
              no_fields)))

-- The schema of an object with these required text properties
abbrev text_properties : List String → Fields
text_properties [] = no_fields
text_properties (name ∷ names) =
    field name (dict (field "type" (str "string") no_fields)) (text_properties names)

abbrev text_items : List String → Items
text_items [] = no_items
text_items (name ∷ names) = item (str name) (text_items names)

unfoldable pub object_schema : List String → Fields
object_schema names = field "type" (str "object") (
    field "properties" (dict (text_properties names)) (
      field "required" (list (text_items names))
        (field "additionalProperties" (bool false) no_fields)))

-- `RESTRICTED_FILE_MODEL_TOOLS`
unfoldable pub restricted_file_model_tools : Host → Result (List ModelToolSpec)
restricted_file_model_tools h = do
  read ←
      build_tool_spec h "read_file" "Read one UTF-8 file inside the Runtime workspace."
        (object_schema ("path" ∷ []))
  write ←
      build_tool_spec h "write_file" "Write UTF-8 content to one file inside the Runtime workspace."
        (object_schema ("path" ∷ "content" ∷ []))
  delete ←
      build_tool_spec h "delete_file" "Delete one regular file inside the Runtime workspace."
        (object_schema ("path" ∷ []))
  ok (read ∷ write ∷ delete ∷ [])

abbrev is_zero : ℤ → Bool
is_zero (pos n) = n == 0
is_zero (negsuc n) = false

-- `bool(value)`, of a missing field too
abbrev pub is_truthy : Option Json → Bool
is_truthy none = false
is_truthy (some null) = false
is_truthy (some (bool b)) = b
is_truthy (some (int n)) = not (is_zero n)
is_truthy (some (float m k)) = not (is_zero m)
is_truthy (some (str text)) = not (is_empty text)
is_truthy (some (list no_items)) = false
is_truthy (some (list (item first rest))) = true
is_truthy (some (dict no_fields)) = false
is_truthy (some (dict (field key value rest))) = true

-- `content in (None, "")`
abbrev pub is_blank : Option Json → Bool
is_blank none = true
is_blank (some null) = true
is_blank (some (str text)) = is_empty text
is_blank (some _) = false

-- The only element of a list
abbrev pub single : Option Json → Result Json
single (some (list (item value no_items))) = ok value
single _ = err model_action_validation

-- The branch of a response with tool calls
unfoldable pub parse_tool_call : Host → Fields → Fields → Result ModelAction
parse_tool_call h choice message = do
  guard (text_equals (get "finish_reason" choice) "tool_calls") model_action_validation
  guard (is_blank (get "content" message)) model_action_validation
  value ← single (get "tool_calls" message)
  call ← action_object (some value)
  guard (text_equals (get "type" call) "function") model_action_validation
  function ← action_object (get "function" call)
  tool_call_id ← provider_text (get "id" call)
  tool_name ← provider_text (get "name" function)
  arguments ← provider_text (get "arguments" function)
  action ← tool_call_action h tool_call_id tool_name arguments
  ok (tool_call action)

unfoldable pub parse_answer : Fields → Fields → Result ModelAction
parse_answer choice message = do
  guard (text_equals (get "finish_reason" choice) "stop") model_action_validation
  answer ← provider_text (get "content" message)
  action ← final_answer_action answer
  ok (final_answer action)

-- `parse_chat_completion(response)`
unfoldable pub parse_chat_completion : Host → Fields → Result ModelAction
parse_chat_completion h response = do
  value ← single (get "choices" response)
  choice ← action_object (some value)
  message ← action_object (get "message" choice)
  if is_truthy (get "tool_calls" message)
      then parse_tool_call h choice message
      else parse_answer choice message

-- What `urllib.parse.urlparse` finds in a URL.
pub record ParsedUrl : Type 0 where
  pub scheme : String
  pub netloc : String
  pub query : String
  pub fragment : String

abbrev is_slash : Char → Bool
is_slash c = code c == 47

-- `text.rstrip("/")`
unfoldable pub rstrip_slash : String → String
rstrip_slash String.[] = ""
rstrip_slash (String.◌∷◌ c rest) =
    let stripped = rstrip_slash rest in
    if is_slash c && is_empty stripped then "" else String.◌∷◌ c stripped

-- A float of the configuration: the number m / 2 ^ k, or an infinity or nan.
pub data Float : Type 0 where
  finite : ℤ → ℕ → Float
  non_finite : Float

abbrev is_positive : ℤ → Bool
is_positive (pos n) = leb 1 n
is_positive (negsuc n) = false

abbrev is_negative : ℤ → Bool
is_negative (pos n) = false
is_negative (negsuc n) = true

-- A timeout is finite and positive, a temperature finite and not negative.
abbrev pub positive_float : Float → Result Json
positive_float (finite m k) = if is_positive m then ok (float m k) else err value_error
positive_float non_finite = err value_error

abbrev pub temperature_float : Float → Result Json
temperature_float (finite m k) = if is_negative m then err value_error else ok (float m k)
temperature_float non_finite = err value_error

unfoldable pub has_unique_names : List ModelToolSpec → Bool
has_unique_names [] = true
has_unique_names (t ∷ ts) =
    let rest = has_unique_names ts in
    not (any (λ (u : ModelToolSpec). holds (string_dec u.name t.name)) ts) && rest

abbrev is_http : String → Bool
is_http scheme = holds (string_dec scheme "http") || holds (string_dec scheme "https")

-- `_validate_base_url(base_url)`; `urlparse` raises a ValueError, or finds the parts.
unfoldable pub validate_base_url : (String → Result ParsedUrl) → String → Result String
validate_base_url urlparse base_url = do
  parsed ← urlparse base_url
  guard (is_http parsed.scheme && not (is_empty parsed.netloc)) value_error
  guard (is_empty parsed.query && is_empty parsed.fragment) value_error
  ok (rstrip_slash base_url)

-- The request that a transport sends.
pub record ProviderRequest : Type 0 where
  pub url : String
  pub headers : Fields
  pub payload : Fields
  pub timeout_seconds : Json

-- `OpenAICompatibleModelAdapter`. The transport, the provider of the key and the environment are not
-- part of this code.
pub record OpenAiCompatibleModelAdapter : Type 0 where
  pub model : String
  pub task : String
  pub tools : List ModelToolSpec
  pub base_url : String
  pub api_key_env : String
  pub timeout_seconds : Json
  pub max_tokens : ℤ
  pub temperature : Json
  pub transport : ProviderRequest → Result Fields
  pub api_key_provider : Option (Option String)
  pub environ : String → Option String

-- The checks of `__post_init__`, on the parts that are given otherwise
unfoldable pub open_ai_compatible_model_adapter :
    (String → Result ParsedUrl)
    → OpenAiCompatibleModelAdapter
    → Float
    → Float
    → Result OpenAiCompatibleModelAdapter
open_ai_compatible_model_adapter urlparse parts timeout_seconds temperature = do
  action_text parts.model
  action_text parts.task
  action_text parts.api_key_env
  guard (has_unique_names parts.tools) value_error
  timeout ← positive_float timeout_seconds
  guard (is_positive parts.max_tokens) value_error
  heat ← temperature_float temperature
  base_url ← validate_base_url urlparse parts.base_url
  ok (record parts { base_url = base_url; timeout_seconds = timeout; temperature = heat })

abbrev pub system_message : String
system_message =
    "You propose exactly one next action. Use one available tool when "
    <> ("work remains; otherwise return the final answer. Runtime identity, "
        <> ("authorization, execution, verification, and completion are not under "
            <> "your control."))

unfoldable pub provider_tools : Host → List ModelToolSpec → Result Items
provider_tools h [] = ok no_items
provider_tools h (t ∷ ts) = do
  first ← as_provider_tool h t
  rest ← provider_tools h ts
  ok (item first rest)

-- `if self.tools: ...`
abbrev tool_fields : Host → List ModelToolSpec → Result Fields
tool_fields h [] = ok no_fields
tool_fields h (t ∷ ts) = do
  items ← provider_tools h (t ∷ ts)
  ok (field "tools" (list items) (field "tool_choice" (str "auto") no_fields))

abbrev key_of : OpenAiCompatibleModelAdapter → Option (Option String) → Option String
key_of adapter none = adapter.environ adapter.api_key_env
key_of adapter (some provided) = provided

abbrev present_key : Option String → Result String
present_key none = err model_provider
present_key (some value) = if is_empty value then err model_provider else ok value

module _ (h : Host) (adapter : OpenAiCompatibleModelAdapter) where
  -- `_load_api_key()`
  unfoldable pub load_api_key : Result String
  load_api_key = present_key (key_of adapter adapter.api_key_provider)

  abbrev runtime_context : ModelInput → Fields
  runtime_context context = field "observation" (dict (observation_of h context)) (
      field "run_id" (str context.run_id) (
        field "state_status" (str (run_status_value context.state_status)) (
          field "step_id" (str context.step_id)
            (field "turn_index" (int (pos context.turn_index)) no_fields))))

  abbrev message : String → String → Json
  message role content = dict (field "role" (str role) (field "content" (str content) no_fields))

  -- `_payload(context)`
  unfoldable pub provider_payload : ModelInput → Result Fields
  provider_payload context = do
    tools ← tool_fields h adapter.tools
    let request = h.dumps (
        dict (
          field "task" (str adapter.task)
            (field "runtime_context" (dict (runtime_context context)) no_fields)))
    ok (
        field "model" (str adapter.model) (
          field "messages"
            (list (item (message "system" system_message) (item (message "user" request) no_items)))
            (field "max_tokens" (int adapter.max_tokens) (
              field "n" (int (pos 1))
                (field "stream" (bool false) (field "temperature" adapter.temperature tools))))))

  -- The request of `next_action` with a key and a payload
  unfoldable pub provider_request : String → Fields → ProviderRequest
  provider_request api_key payload = record {
    url = adapter.base_url <> "/chat/completions";
    headers =
        field "Authorization" (str ("Bearer " <> api_key))
          (field "Content-Type" (str "application/json") no_fields);
    payload = payload;
    timeout_seconds = adapter.timeout_seconds;
  }

  -- `next_action(context)`
  unfoldable pub next_action : ModelInput → Result ModelAction
  next_action context = do
    api_key ← load_api_key
    payload ← provider_payload context
    response ← adapter.transport (provider_request api_key payload)
    parse_chat_completion h response
