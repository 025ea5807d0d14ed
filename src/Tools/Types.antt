-- ===== src/Tools/Types.antt =====
-- backend/app/tools/contracts.py, base.py and registry.py: results, tools and their registry.
use autonomous_agent_runtime.Prelude.Json.{Json, Fields}
use autonomous_agent_runtime.Security.Contracts.{ContentTrust}
use autonomous_agent_runtime.Prelude.{
  ℕ, String, Bool, Option, none, some, List, [], ◌∷◌, if◌then◌else◌, ◌==◌, nat_instance,
  string_instance,
}

pub record ToolResult : Type 0 where
  pub success : Bool
  pub output : Json
  pub error : Option String
  pub metadata : Fields
  pub trust : ContentTrust
  pub source_type : Option String
  pub source_identifier : Option String

-- The part of a JSON schema that argument validation reads: the required names, each property
-- with its primitive type if it has one, and whether other names are refused.
pub record ArgumentsSchema : Type 0 where
  pub required : List String
  pub properties : List (String × Option String)
  pub closed : Bool

pub record Tool : Type 0 where
  pub name : String
  pub arguments_schema : ArgumentsSchema
  pub max_observation_length : ℕ

-- The registry is a dict by name.
abbrev pub ToolRegistry : Type 0
ToolRegistry = List Tool

unfoldable pub register : Tool → List Tool → List Tool
register tool [] = tool ∷ []
register tool (old ∷ tools) =
    if old.name == tool.name then tool ∷ tools else old ∷ register tool tools

-- `none` is UnknownToolError.
unfoldable pub get_tool : String → List Tool → Option Tool
get_tool name [] = none
get_tool name (tool ∷ tools) = if tool.name == name then some tool else get_tool name tools

unfoldable pub restrict : List Tool → List String → List Tool → Option (List Tool)
restrict tools [] registry = some registry
restrict tools (name ∷ rest) registry = elim (get_tool name tools) [
  | none ↦ none
  | some tool ↦ restrict tools rest (register tool registry)
]

-- A new registry with the granted tools; `none` is UnknownToolError for a name that is missing.
-- The names come in the order of `sorted`.
unfoldable pub restricted_to : List String → List Tool → Option (List Tool)
restricted_to names tools = restrict tools names []
