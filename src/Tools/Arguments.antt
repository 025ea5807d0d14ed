-- ===== src/Tools/Arguments.antt =====
-- _validate_arguments and _matches_json_type of backend/app/tools/execution/executor.py: the part of
-- a JSON schema that the runtime checks.
use Prim.Native.String.{compare as compare_text}
use Prim.Native.Nat.{Ordering}
use autonomous_agent_runtime.Prelude.Json.{
  Json, Fields, bool, int, negative, float, str, arr, obj, end, field,
}
use autonomous_agent_runtime.Security.Contracts.{value}
use autonomous_agent_runtime.Tools.Types.{ArgumentsSchema, Tool}
use autonomous_agent_runtime.Prelude.{
  String, ◌<>◌, Bool, true, false, not, Option, none, some, List, [], ◌∷◌, if◌then◌else◌, filter,
  find, contains, string_instance, ◌==◌, nat_instance,
}

unfoldable pub matches_json_type : Json → String → Bool
matches_json_type value expected =
    if expected == "string"
    then (elim value [ str _ ↦ true | _ ↦ false ])
    else if expected == "number"
    then (elim value [ int _ ↦ true | negative _ ↦ true | float _ ↦ true | _ ↦ false ])
    else if expected == "integer"
    then (elim value [ int _ ↦ true | negative _ ↦ true | _ ↦ false ])
    else if expected == "boolean"
    then (elim value [ bool _ ↦ true | _ ↦ false ])
    else if expected == "array"
    then (elim value [ arr _ ↦ true | _ ↦ false ])
    else if expected == "object"
    then (elim value [ obj _ ↦ true | _ ↦ false ])
    else true

abbrev pub keys : Fields → List String
keys end = []
keys (field k v fs) = k ∷ keys fs

abbrev pub property_names : List (String × Option String) → List String
property_names [] = []
property_names ((k, _) ∷ rest) = k ∷ property_names rest

-- `sorted(names)[0]`
abbrev pub earlier : String → String → String
earlier s t = elim (compare_text s t) [ Ordering.gt ↦ t | _ ↦ s ]

abbrev pub first_sorted : List String → Option String
first_sorted [] = none
first_sorted (s ∷ rest) = elim (first_sorted rest) [ none ↦ some s | some t ↦ some (earlier s t) ]

unfoldable pub property_type : String → List (String × Option String) → Option String
property_type name [] = none
property_type name ((k, type) ∷ rest) = if k == name then type else property_type name rest

unfoldable pub first_missing : List String → Fields → Option String
first_missing required arguments = find (λ name. not (contains (keys arguments) name)) required

unfoldable pub first_unexpected : ArgumentsSchema → Fields → Option String
first_unexpected schema arguments =
    if schema.closed
    then first_sorted
        (filter (λ name. not (contains (property_names schema.properties) name)) (keys arguments))
    else none

-- The loop over the arguments: the first one whose type is wrong, with the type that it needs.
unfoldable pub first_mistyped : List (String × Option String) → Fields → Option (String × String)
first_mistyped properties end = none
first_mistyped properties (field name value rest) =
    let later = first_mistyped properties rest in
    elim (property_type name properties) [
      | none ↦ later
      | some type ↦ if matches_json_type value type then later else some (name, type)
    ]

-- `none` means that the arguments are valid.
unfoldable pub validate_arguments : Tool → Fields → Option String
validate_arguments tool arguments =
    let schema = tool.arguments_schema in
    elim (first_missing schema.required arguments) [
      | some name ↦ some ("Invalid tool arguments: missing required argument '" <> name <> "'.")
      | none ↦ elim (first_unexpected schema arguments) [
        | some name ↦ some ("Invalid tool arguments: unexpected argument '" <> name <> "'.")
        | none ↦ elim (first_mistyped schema.properties arguments) [
          | some (name, type) ↦
              some ("Invalid tool arguments: '" <> name <> "' must be a " <> type <> ".")
          | none ↦ none
        ]
      ]
    ]
