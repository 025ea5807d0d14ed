-- ===== src/Security/Permissions.antt =====
-- backend/app/security/permissions.py: which capability a tool uses, and what it acts on.
use autonomous_agent_runtime.Prelude.Json.{Json, Items, Fields, str, arr, nil, cons, get}
use autonomous_agent_runtime.Security.Contracts.{Capability, capability_eq, SecurityResource}
use autonomous_agent_runtime.Prelude.{
  String, ◌<>◌, Bool, false, ◌&&◌, ◌||◌, Option, none, some, List, [], ◌∷◌, leb, if◌then◌else◌,
  length, contains, ◌==◌, nat_instance, string_instance, codes,
}

abbrev pub tool_capabilities : List (String × Capability)
tool_capabilities =
    ("calculator", Capability.calculator_evaluate)
    ∷ ("list_files", Capability.filesystem_read)
    ∷ ("read_file", Capability.filesystem_read)
    ∷ ("write_file", Capability.filesystem_write)
    ∷ ("run_command", Capability.command_execute)
    ∷ ("python_exec", Capability.python_execute)
    ∷ ("get_repository_tree", Capability.repository_read)
    ∷ ("search_files", Capability.repository_read)
    ∷ ("get_changed_files", Capability.repository_read)
    ∷ ("git_inspect", Capability.repository_read)
    ∷ ("register_artifact", Capability.artifact_create)
    ∷ ("web_search", Capability.web_search)
    ∷ ("list_tables", Capability.database_schema_read)
    ∷ ("describe_table", Capability.database_schema_read)
    ∷ ("get_table_relationships", Capability.database_schema_read)
    ∷ ("search_schema", Capability.database_schema_read)
    ∷ ("query_database", Capability.database_query_read)
    ∷ ("analyze_dataset", Capability.analytics_python_execute)
    ∷ ("generate_report", Capability.analytics_report_create)
    ∷ ("create_chart", Capability.analytics_report_create)
    ∷ ("list_metrics", Capability.database_metric_read)
    ∷ ("describe_metric", Capability.database_metric_read)
    ∷ []

lookup_capability : String → List (String × Capability) → Option Capability
lookup_capability name [] = none
lookup_capability name ((k, c) ∷ rest) = if k == name then some c else lookup_capability name rest

unfoldable pub capability_for_tool : String → Option Capability
unfolding lookup_capability
capability_for_tool name = lookup_capability name tool_capabilities

-- `set.add` for the frozenset, kept as a list in which no capability stands twice.
abbrev pub add_capability : Option Capability → List Capability → List Capability
add_capability none set = set
add_capability (some c) set = if contains set c then set else c ∷ set

unfoldable pub capabilities_for_tools : List String → List Capability
capabilities_for_tools [] = []
capabilities_for_tools (name ∷ names) =
    add_capability (capability_for_tool name) (capabilities_for_tools names)

abbrev pub is_capability : Capability → Option Capability → Bool
is_capability c none = false
is_capability c (some d) = d == c

-- The model's bounds on the identifier; `none` is the ValidationError of pydantic.
unfoldable pub security_resource : String → String → Option (Option SecurityResource)
security_resource resource_type identifier =
    let size = length (codes identifier) in
    if leb 1 size && leb size 512
    then some (some (record { resource_type = resource_type; identifier = identifier }))
    else none

-- `",".join(names)`; `none` is the TypeError of an entry that is no text.
unfoldable pub join_names : Items → Option String
join_names nil = some ""
join_names (cons (str s) nil) = some s
join_names (cons (str s) rest) = elim (join_names rest) [
  | none ↦ none
  | some t ↦ some (s <> "," <> t)
]
join_names (cons _ rest) = none

abbrev pub non_empty_or : String → String → String
non_empty_or default s = if s == "" then default else s

-- `str` of a value that is no text is the parameter `render`.
module _ (render : Json → String) where
  abbrev pub text_of : Json → String
  text_of (str s) = s
  text_of value = render value

  abbrev pub text_or : String → Option Json → String
  text_or default none = default
  text_or default (some value) = text_of value

  -- The table names of a schema tool, from `table_names`, else from `table_name`.
  unfoldable pub schema_identifier : Fields → Option String
  schema_identifier arguments = elim (get "table_names" arguments) [
    | none ↦ elim (get "table_name" arguments) [
      | some (arr items) ↦ join_names items
      | some value ↦ some (text_of value)
      | none ↦ some ""
    ]
    | some (arr items) ↦ join_names items
    | some value ↦ some (text_of value)
  ]

  -- The outer `none` is an exception, the inner one a tool that has no resource.
  unfoldable pub resource_for_tool : String → Fields → Option (Option SecurityResource)
  resource_for_tool tool_name arguments =
      let capability = capability_for_tool tool_name in
      if tool_name == "list_files" || tool_name == "read_file" || tool_name == "write_file"
      then security_resource "workspace_path" (text_or "." (get "path" arguments))
      else if tool_name == "run_command"
      then security_resource "command" (text_or "" (get "command" arguments))
      else if tool_name == "register_artifact"
      then security_resource "workspace_artifact" (text_or "" (get "source_path" arguments))
      else if is_capability Capability.repository_read capability
      then security_resource "repository" "workspace"
      else if is_capability Capability.database_schema_read capability
      then (elim (schema_identifier arguments) [
        | none ↦ none
        | some identifier ↦
            security_resource "database_schema" (non_empty_or "configured_schema" identifier)
      ])
      else if is_capability Capability.database_query_read capability
      then security_resource "analytics_database" "configured_schema"
      else some none
