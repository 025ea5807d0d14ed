-- ===== src/Prelude/Json.antt =====
-- The values of tool arguments and outputs: Python's None, bool, int (`negative n` is -(n + 1)),
-- float by its text, str, list and dict.
use Prim.Native.Nat.{ℕ}
use Prim.Native.String.{String}
use mathlib.Core.Bool.{Bool}
use mathlib.Core.Option.{Option, none, some}
use autonomous_agent_runtime.Prelude.Tests.{if◌then◌else◌}
use autonomous_agent_runtime.Prelude.Enums.{◌==◌, string_instance}

mutual
  pub data Json : Type 0 where
    null : Json
    bool : Bool → Json
    int : ℕ → Json
    negative : ℕ → Json
    float : String → Json
    str : String → Json
    arr : Items → Json
    obj : Fields → Json

  pub data Items : Type 0 where
    nil : Items
    cons : Json → Items → Items

  pub data Fields : Type 0 where
    end : Fields
    field : String → Json → Fields → Fields

-- `d.get(key)`: the keys of a dict are distinct, so the first entry is the only one.
abbrev pub get : String → Fields → Option Json
get key end = none
get key (field k v fs) = if k == key then some v else get key fs

abbrev pub as_str : Option Json → Option String
as_str (some (str s)) = some s
as_str _ = none

abbrev pub as_dict : Option Json → Option Fields
as_dict (some (obj fs)) = some fs
as_dict _ = none
