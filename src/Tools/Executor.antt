-- ===== src/Tools/Executor.antt =====
-- ToolExecutor of backend/app/tools/execution/executor.py: resolve, validate, authorize, run.
-- Logging, tracing and the observers record what happens and change no result; they are left out.
-- The sanitizing functions of core/logging.py and the trust labels of security/trust.py are the
-- parameters of the last section, and so is what the tool itself does.
pub mod Boundary
use Prim.Native.String.{compare as compare_text}
use Prim.Native.Nat.{Ordering}
use autonomous_agent_runtime.Prelude.Json.{
  Json, Fields, null, bool, int, negative, float, str, arr, obj, end, field,
}
use autonomous_agent_runtime.Security.Contracts.{
  PolicyDecision, ContentTrust, SecuritySubject, SecurityAction, PolicyResult, Capability, value,
}
use autonomous_agent_runtime.Security.Permissions.{capability_for_tool, resource_for_tool}
use autonomous_agent_runtime.Security.Policy.{SecurityPolicy, evaluate, is_allow}
use autonomous_agent_runtime.Tools.Arguments.{validate_arguments}
use autonomous_agent_runtime.Tools.Types.{ToolResult, ArgumentsSchema, Tool, get_tool}
use autonomous_agent_runtime.Contracts.Actions.{strip, is_blank}
use autonomous_agent_runtime.Prelude.{
  ℕ, String, ◌<>◌, Bool, true, false, ◌&&◌, ◌||◌, not, Option, none, some, List, if◌then◌else◌,
  string_instance, ◌==◌, nat_instance,
}

-- A failing policy is never a permission: the KeyError of `evaluate` becomes a denial.
unfoldable pub policy_or_deny : SecurityPolicy → SecuritySubject → SecurityAction → PolicyResult
policy_or_deny policy subject action = elim (evaluate policy subject action) [
  | some r ↦ r
  | none ↦ record {
    decision = PolicyDecision.deny;
    reason = "Security policy evaluation failed.";
    policy_id = "security.policy_evaluation_failed";
    capability = action.capability;
    metadata = none;
  }
]

-- The gate decision: the tool or its arguments are not valid, the decision, or an exception.
pub data Preflight : Type 0 where
  not_applicable : Preflight
  decided : PolicyResult → SecurityAction → Preflight
  raised : Preflight

module _ (render : Json → String) where
  -- `none` is an exception while the resource is described.
  unfoldable pub security_action : Tool → Fields → Option SecurityAction
  security_action tool arguments = elim (resource_for_tool render tool.name arguments) [
    | none ↦ none
    | some resource ↦ some (record {
      capability = capability_for_tool tool.name;
      resource = resource;
      tool_name = some tool.name;
    })
  ]

  unfoldable pub evaluate_policy :
      List Tool → SecurityPolicy → String → Fields → SecuritySubject → Preflight
  evaluate_policy tools policy tool_name arguments subject = elim (get_tool tool_name tools) [
    | none ↦ not_applicable
    | some tool ↦ elim (validate_arguments tool arguments) [
      | some _ ↦ not_applicable
      | none ↦ elim (security_action tool arguments) [
        | none ↦ raised
        | some action ↦ decided (policy_or_deny policy subject action) action
      ]
    ]
  ]

-- How the body of a tool ends: ToolInputError, ToolExecutionError with its category, one of
-- TypeError, ValueError and ZeroDivisionError, any other exception, or an output.
pub data ToolOutcome : Type 0 where
  output : Json → ToolOutcome
  input_error : String → ToolOutcome
  execution_error : String → String → ToolOutcome
  rejected_arguments : ToolOutcome
  failed : ToolOutcome

-- The label of content from outside, by `external_content_for_tool`.
pub record UntrustedContent : Type 0 where
  pub source : String
  pub source_type : String
  pub trust : ContentTrust

pub record Sanitizer : Type 0 where
  pub render : Json → String
  pub safe_error_message : String → String
  pub safe_observation_value : ℕ → Json → Json
  pub external_content_for_tool : String → Fields → Json → Option UntrustedContent

-- `decision.value`
abbrev pub decision_value : PolicyDecision → String
decision_value PolicyDecision.allow = "allow"
decision_value PolicyDecision.deny = "deny"
decision_value PolicyDecision.require_approval = "require_approval"

abbrev pub capability_or_unknown : Option Capability → String
unfolding value
capability_or_unknown none = "unknown"
capability_or_unknown (some c) = value c

abbrev pub is_approval : PolicyDecision → Bool
is_approval PolicyDecision.require_approval = true
is_approval _ = false

module _ (sanitizer : Sanitizer) where
  open sanitizer use {render, safe_error_message, safe_observation_value, external_content_for_tool}

  unfoldable pub failure : String → String → String → ToolResult
  failure error tool_name category = record {
    success = false;
    output = null;
    error = some (safe_error_message error);
    metadata = field "tool_name" (str tool_name) (field "failure_category" (str category) end);
    trust = ContentTrust.tool_output;
    source_type = none;
    source_identifier = none;
  }

  unfoldable pub policy_failure : String → PolicyResult → ToolResult
  policy_failure tool_name r = record {
    success = false;
    output = null;
    error = some (elim r.decision [
      | PolicyDecision.require_approval ↦
          "This action requires human approval, which is not available in this runtime."
      | _ ↦ "This action is not permitted by runtime security policy."
    ]);
    metadata = field "tool_name" (str tool_name) (
        field "security_decision" (str (decision_value r.decision)) (
          field "capability" (str (capability_or_unknown r.capability)) (
            field "policy_id" (str r.policy_id) (
              field "failure_category"
                (str (
                  if r.policy_id == "security.policy_evaluation_failed"
                  then "policy_failure"
                  else "security_denial"))
                end))));
    trust = ContentTrust.tool_output;
    source_type = none;
    source_identifier = none;
  }

  -- `none` means that the action is permitted.
  unfoldable pub authorize :
      SecurityPolicy → Tool → SecurityAction → SecuritySubject → Bool → Option ToolResult
  authorize policy tool action subject approval_granted =
      let r = policy_or_deny policy subject action in
      if is_allow r.decision || (approval_granted && is_approval r.decision)
      then none
      else some (policy_failure tool.name r)

  unfoldable pub run_tool : Tool → Fields → ToolOutcome → ToolResult
  run_tool tool arguments (input_error message) = failure message tool.name "tool_validation_error"
  run_tool tool arguments (execution_error message category) = failure message tool.name category
  run_tool tool arguments rejected_arguments =
      failure "Tool rejected the supplied arguments." tool.name "tool_validation_error"
  run_tool tool arguments failed = failure "Tool execution failed." tool.name "tool_failure"
  run_tool tool arguments (output value) =
      let untrusted = external_content_for_tool tool.name arguments value in
      record {
        success = true;
        output = safe_observation_value tool.max_observation_length value;
        error = none;
        metadata = field "tool_name" (str tool.name) end;
        trust = elim untrusted [ none ↦ ContentTrust.tool_output | some u ↦ u.trust ];
        source_type = elim untrusted [ none ↦ none | some u ↦ some u.source_type ];
        source_identifier = elim untrusted [ none ↦ none | some u ↦ some u.source ];
      }

  -- `_execute`, with the subject that the runner always gives. `outcome` is what the tool would
  -- do if it were run, and `none` is an exception while the action is described.
  unfoldable pub execute_request :
      List Tool
      → SecurityPolicy
      → String
      → Fields
      → SecuritySubject
      → ToolOutcome
      → Bool
      → Option ToolResult
  execute_request tools policy tool_name arguments subject outcome approval_granted =
      if is_blank (strip tool_name)
      then some (failure "Unknown tool." "" "unknown_failure")
      else elim (get_tool tool_name tools) [
        | none ↦ some (failure ("Unknown tool: " <> tool_name <> ".") tool_name "unknown_failure")
        | some tool ↦ elim (validate_arguments tool arguments) [
          | some message ↦ some (failure message tool.name "tool_validation_error")
          | none ↦ elim (security_action render tool arguments) [
            | none ↦ none
            | some action ↦ elim (authorize policy tool action subject approval_granted) [
              | some denial ↦ some denial
              | none ↦ some (run_tool tool arguments outcome)
            ]
          ]
        ]
      ]

  unfoldable pub execute :
      List Tool
      → SecurityPolicy
      → String
      → Fields
      → SecuritySubject
      → ToolOutcome
      → Option ToolResult
  execute tools policy tool_name arguments subject outcome =
      execute_request tools policy tool_name arguments subject outcome false

  -- Only the runner holds the token that lets an approved execution through.
  unfoldable pub execute_approved :
      List Tool
      → SecurityPolicy
      → String
      → Fields
      → SecuritySubject
      → ToolOutcome
      → Bool
      → Option ToolResult
  execute_approved tools policy tool_name arguments subject outcome token_valid =
      if token_valid
      then execute_request tools policy tool_name arguments subject outcome true
      else some (record {
        success = false;
        output = null;
        error = some "Approved execution was not validated by the runtime.";
        metadata =
            field "tool_name" (str tool_name)
              (field "policy_id" (str "security.invalid_approval_execution") end);
        trust = ContentTrust.tool_output;
        source_type = none;
        source_identifier = none;
      })
