-- ===== src/Registry.antt =====
-- src/agent_runtime_lab/tool_registry.py: trusted metadata of the registered tools.
use agent_runtime_lab.Prelude.{
  String, Bool, true, false, Option, none, some, List, [], ◌∷◌, ◌++◌, holds, string_dec,
  if◌then◌else◌,
}
use agent_runtime_lab.Result.{Result, ok, err, duplicate_tool_definition, unknown_tool}

pub record ToolDefinition : Type 0 where
  pub tool_name : String
  pub retry_is_idempotent : Bool
  pub path_argument_names : List String

-- The dictionary `_definitions`, in the order of registration.
pub record ToolRegistry : Type 0 where
  pub definitions : List ToolDefinition

unfoldable pub find : String → List ToolDefinition → Option ToolDefinition
find name [] = none
find name (d ∷ ds) =
    let found = find name ds in if holds (string_dec d.tool_name name) then some d else found

abbrev is_registered : Option ToolDefinition → Bool
is_registered none = false
is_registered (some _) = true

-- The loop of `__init__`, over the definitions that are left.
register_all : ToolRegistry → List ToolDefinition → Result ToolRegistry
register_all registry [] = ok registry
register_all registry (d ∷ ds) =
    if is_registered (find d.tool_name registry.definitions)
    then err duplicate_tool_definition
    else register_all (record { definitions = registry.definitions ++ d ∷ [] }) ds

-- `ToolRegistry(definitions)`
unfoldable pub tool_registry : List ToolDefinition → Result ToolRegistry
unfolding register_all
tool_registry definitions = register_all (record { definitions = [] }) definitions

abbrev known : Option ToolDefinition → Result ToolDefinition
known none = err unknown_tool
known (some d) = ok d

-- `registry.resolve(tool_name)`
unfoldable pub resolve : ToolRegistry → String → Result ToolDefinition
unfolding find
resolve registry name = known (find name registry.definitions)
