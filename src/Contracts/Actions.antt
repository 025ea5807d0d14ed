-- ===== src/Contracts/Actions.antt =====
-- backend/app/contracts/actions.py: the action that a model selects, its payload check and the
-- bounded list of caveats. Python's Unicode case folding is the parameter `casefold`.
pub mod Caveats
use Prim.Native.Char.{code}
use autonomous_agent_runtime.Prelude.Json.{Fields}
use autonomous_agent_runtime.Prelude.{
  ℕ, zero, suc, String, Bool, true, false, ◌&&◌, ◌||◌, not, Option, none, some, List, [], ◌∷◌, ltb,
  leb, nat_eq, if◌then◌else◌, length, any, codes,
}

pub data ActionType : Type 0 where
  use_tool load_skill delegate delegate_parallel finish : ActionType

pub record ParallelDelegationItem : Type 0 where
  pub agent_name : String
  pub objective : String
  pub context : Option String
  pub constraints : Option String
  pub expected_output : Option String

pub record AgentAction : Type 0 where
  pub action_type : ActionType
  pub reasoning_summary : String
  pub tool_name : Option String
  pub tool_arguments : Fields
  pub skill_name : Option String
  pub agent_name : Option String
  pub objective : Option String
  pub context : Option String
  pub constraints : Option String
  pub expected_output : Option String
  pub delegations : List ParallelDelegationItem
  pub final_answer : Option String
  pub citations : List String
  pub caveats : List String

abbrev pub max_caveats : ℕ
max_caveats = 10

abbrev pub max_caveat_length : ℕ
max_caveat_length = 500

-- `str.isspace`
unfoldable pub is_space : ℕ → Bool
is_space c =
    (leb 9 c && leb c 13)
    || (leb 28 c && leb c 32)
    || nat_eq c 133
    || nat_eq c 160
    || nat_eq c 5760
    || (leb 8192 c && leb c 8202)
    || nat_eq c 8232
    || nat_eq c 8233
    || nat_eq c 8239
    || nat_eq c 8287
    || nat_eq c 12288

unfoldable pub lstrip : String → String
lstrip String.[] = String.[]
lstrip (String.◌∷◌ c s) = let rest = lstrip s in if is_space (code c) then rest else String.◌∷◌ c s

abbrev pub is_blank : String → Bool
is_blank String.[] = true
is_blank (String.◌∷◌ c s) = false

unfoldable pub rstrip : String → String
rstrip String.[] = String.[]
rstrip (String.◌∷◌ c s) =
    let rest = rstrip s in
    if is_space (code c) && is_blank rest then String.[] else String.◌∷◌ c rest

-- `str.strip`
unfoldable pub strip : String → String
strip s = rstrip (lstrip s)

-- Each run of white space becomes one space.
unfoldable pub collapse : Bool → List ℕ → List ℕ
collapse in_space [] = []
collapse in_space (c ∷ cs) =
    let rest = collapse (is_space c) cs in
    if is_space c then (if in_space then rest else 32 ∷ rest) else c ∷ rest

abbrev pub codes_eq : List ℕ → List ℕ → Bool
codes_eq [] [] = true
codes_eq (a ∷ as') (b ∷ bs) = nat_eq a b && codes_eq as' bs
codes_eq _ _ = false

module _ (casefold : List ℕ → List ℕ) where
  unfoldable pub fingerprint : String → List ℕ
  fingerprint caveat = casefold (collapse false (codes caveat))

  -- The loop over the values: `room` more entries fit, and `none` is a value that is no string.
  unfoldable pub accept_caveats : ℕ → List (List ℕ) → List (Option String) → List String
  accept_caveats zero seen values = []
  accept_caveats (suc room) seen [] = []
  accept_caveats (suc room) seen (none ∷ values) = accept_caveats (suc room) seen values
  accept_caveats (suc room) seen (some value ∷ values) =
      let caveat = strip value in
      let mark = fingerprint caveat in
      let skip = accept_caveats (suc room) seen values in
      let keep = caveat ∷ accept_caveats room (mark ∷ seen) values in
      if is_blank caveat
        || ltb max_caveat_length (length (codes caveat))
        || any (codes_eq mark) seen
      then skip
      else keep

  unfoldable pub normalize_caveats : List (Option String) → List String
  normalize_caveats values = accept_caveats max_caveats [] values

abbrev pub truthy : Option String → Bool
truthy none = false
truthy (some s) = not (is_blank s)

abbrev pub is_non_blank : Option String → Bool
is_non_blank none = false
is_non_blank (some s) = not (is_blank (strip s))

abbrev pub is_nil {ℓ} : {A : Type ℓ} → List A → Bool
is_nil [] = true
is_nil (_ ∷ _) = false

-- What `validate_action_payload` demands of each kind of action.
unfoldable pub payload_ok : AgentAction → Bool
payload_ok action = elim action.action_type [
  | use_tool ↦ truthy action.tool_name && is_nil action.citations && is_nil action.caveats
  | load_skill ↦ truthy action.skill_name && is_nil action.citations && is_nil action.caveats
  | delegate ↦
      is_non_blank action.agent_name
      && is_non_blank action.objective
      && is_nil action.citations
      && is_nil action.caveats
  | delegate_parallel ↦
      leb 2 (length action.delegations) && is_nil action.citations && is_nil action.caveats
  | finish ↦ truthy action.final_answer
]
