-- ===== src/Tests/Authority.antt =====
-- Witnesses on permissions, approvals, tool calls, retries and caveats.
use autonomous_agent_runtime.Contracts.Actions.{
  normalize_caveats, max_caveats, strip, rstrip, lstrip, is_space,
}
use autonomous_agent_runtime.Contracts.Actions.Caveats.{fits, AreDistinct, normalize_caveats-bounds}
use autonomous_agent_runtime.Reliability.{
  default_policy, RuntimeFailure, RetryRule, FailureCategory, find_rule, retry_delay,
}
use autonomous_agent_runtime.Reliability.Bounds.{max_rule_attempts, retry_delay_bounds}
use autonomous_agent_runtime.Security.Contracts.{
  Capability, SecurityEnvironment, PolicyDecision, PolicyResult, capability_eq, value,
}
use autonomous_agent_runtime.Security.Permissions.{
  capabilities_for_tools, resource_for_tool, capability_for_tool, join_names, schema_identifier,
  security_resource,
}
use autonomous_agent_runtime.Security.Policy.{
  evaluate, primary, gated_capabilities, with_human_approval_gates, get_security_policy,
  with_specialist, result, apply_rule, default_result, evaluate_rules, matches, gate,
  specialist_rule,
}
use autonomous_agent_runtime.Security.Risk.{assess, assess_capability, is_production_target}
use autonomous_agent_runtime.Security.Policy.Gates.{
  gated, gate_result, is_refused, evaluate-with_human_approval_gates, evaluate-production,
}
use autonomous_agent_runtime.Security.Policy.Grants.{IsGranted, specialist-IsGranted}
use autonomous_agent_runtime.Security.Approvals.{read, ApprovalStatus, status_eq}
use autonomous_agent_runtime.Security.Approvals.Once.{
  Op, claim_op, claims, claims-le_one, claims-IsDecided,
}
use autonomous_agent_runtime.Tools.Types.{get_tool}
use autonomous_agent_runtime.Tools.Arguments.{
  validate_arguments, first_missing, first_unexpected, first_mistyped, property_type,
  matches_json_type,
}
use autonomous_agent_runtime.Tools.Executor.{
  execute, evaluate_policy, raised, execute_request, security_action, authorize, policy_or_deny,
  run_tool, policy_failure,
}
use autonomous_agent_runtime.Tools.Executor.Boundary.{
  IsPermitted, execute-IsPermitted, execute-gated, evaluate_policy-raises,
}
use autonomous_agent_runtime.Tests.Samples.{
  sanitizer, primary_subject, specialist_subject, analyst, calculate, write_report, tool_of, tools,
  sum, no_command, listing, four, result_four, result_refused, item, policy,
}
use autonomous_agent_runtime.Prelude.{
  ℕ, ◌≤◌, ◌<◌, String, ◌≡◌, refl, ◌≢◌, inl, true, false, Option, none, some, List, [], ◌∷◌, arith,
  if◌then◌else◌, length, all, string_instance, ◌==◌, nat_instance,
}

evaluate-with_human_approval_gates_example :
    evaluate
      (with_human_approval_gates (primary SecurityEnvironment.development) gated_capabilities)
      specialist_subject
      write_report
    ≡ (if gated gated_capabilities write_report
        then some (gate_result (primary SecurityEnvironment.development) write_report)
        else evaluate (primary SecurityEnvironment.development) specialist_subject write_report)
evaluate-with_human_approval_gates_example =
    evaluate-with_human_approval_gates (primary SecurityEnvironment.development) gated_capabilities
      specialist_subject write_report

evaluate-production_example :
    is_refused (evaluate (primary SecurityEnvironment.production) primary_subject calculate) ≡ true
unfolding primary
evaluate-production_example =
    evaluate-production (primary SecurityEnvironment.production) primary_subject calculate
      {c = Capability.calculator_evaluate} refl refl refl

abbrev granted_result : PolicyResult
granted_result =
    result PolicyDecision.allow "Capability is granted by this specialist definition."
      "security.specialist.analyst.calculator.evaluate" calculate
      (assess SecurityEnvironment.development calculate)

granted :
    evaluate
      (with_specialist (get_security_policy SecurityEnvironment.development) analyst)
      specialist_subject
      calculate
    ≡ some granted_result
unfolding evaluate evaluate_rules apply_rule matches get_security_policy with_specialist
    with_human_approval_gates primary specialist_rule gate assess assess_capability value
    is_production_target capabilities_for_tools capability_for_tool
granted = refl

specialist-IsGranted_example : IsGranted analyst specialist_subject calculate
specialist-IsGranted_example =
    specialist-IsGranted analyst specialist_subject calculate SecurityEnvironment.development
      granted_result refl granted refl

-- Two workers race for one approval, and a rejected one is never handed out.
abbrev race : List (Op ℕ)
race =
    claim_op ApprovalStatus.approved 20 "approval-1"
    ∷ claim_op ApprovalStatus.approved 21 "approval-1"
    ∷ []

claims-le_one_example :
    claims (λ s. s == ApprovalStatus.approved) "approval-1" race (item ApprovalStatus.approved ∷ [])
    ≤ 1
claims-le_one_example =
    claims-le_one (λ s. s == ApprovalStatus.approved) "approval-1" race
      (item ApprovalStatus.approved ∷ []) (refl, (refl, tt))

decided : ApprovalStatus.rejected ≢ ApprovalStatus.pending
decided e = ground arith

stored : read "approval-1" (item ApprovalStatus.rejected ∷ []) ≡ some (item ApprovalStatus.rejected)
unfolding read
stored = refl

claims-IsDecided_example :
    claims (λ s. s == ApprovalStatus.approved) "approval-1" race (item ApprovalStatus.rejected ∷ [])
    ≡ 0
claims-IsDecided_example =
    claims-IsDecided (λ s. s == ApprovalStatus.approved) "approval-1" race
      (item ApprovalStatus.rejected ∷ []) (item ApprovalStatus.rejected) (refl, (refl, tt)) stored
      decided refl

executed : execute sanitizer tools policy "calculator" sum primary_subject four ≡ some result_four
unfolding execute execute_request strip rstrip lstrip is_space get_tool validate_arguments
    first_missing first_unexpected first_mistyped property_type matches_json_type security_action
    resource_for_tool capability_for_tool authorize policy_or_deny join_names schema_identifier
    security_resource apply_rule default_result evaluate evaluate_rules matches assess
    assess_capability is_production_target run_tool get_security_policy primary
    with_human_approval_gates gate policy_failure value
executed = refl

execute-IsPermitted_example :
    IsPermitted sanitizer tools policy "calculator" sum primary_subject four
execute-IsPermitted_example =
    execute-IsPermitted sanitizer tools policy "calculator" sum primary_subject four result_four
      executed refl

refused :
    execute sanitizer tools policy "run_command" listing primary_subject four ≡ some result_refused
unfolding execute execute_request strip rstrip lstrip is_space get_tool validate_arguments
    first_missing first_unexpected first_mistyped property_type matches_json_type security_action
    resource_for_tool capability_for_tool authorize policy_or_deny join_names schema_identifier
    security_resource apply_rule default_result evaluate evaluate_rules matches assess
    assess_capability is_production_target run_tool get_security_policy primary
    with_human_approval_gates gate policy_failure value
refused = refl

known_command : capability_for_tool "run_command" ≡ some Capability.command_execute
unfolding capability_for_tool
known_command = refl

execute-gated_example : result_refused.success ≡ false
execute-gated_example =
    execute-gated sanitizer tools SecurityEnvironment.development "run_command" listing
      primary_subject four result_refused Capability.command_execute known_command refl refused

registered : get_tool "run_command" tools ≡ some (tool_of "run_command" "command")
unfolding get_tool
registered = refl

valid : validate_arguments (tool_of "run_command" "command") no_command ≡ none
unfolding validate_arguments first_missing first_unexpected first_mistyped property_type
    matches_json_type
valid = refl

evaluate_policy-raises_example :
    evaluate_policy sanitizer.render tools policy "run_command" no_command primary_subject ≡ raised
evaluate_policy-raises_example =
    evaluate_policy-raises sanitizer.render tools policy no_command primary_subject
      (tool_of "run_command" "command") "" registered valid refl (inl refl)

abbrev timeout : RuntimeFailure
timeout = record {
  category = FailureCategory.llm_timeout;
  retryable = true;
  source = "llm";
  attempt = 2;
}

delayed : retry_delay default_policy timeout ≡ some 100
unfolding retry_delay find_rule
delayed = refl

retry_delay_bounds_example :
    (r : RetryRule) × (find_rule timeout.source timeout.category default_policy.rules ≡ some r)
    × (timeout.attempt < r.max_attempts)
    × (100 ≤ r.max_delay)
    × (timeout.attempt < max_rule_attempts default_policy.rules)
retry_delay_bounds_example = retry_delay_bounds default_policy timeout 100 delayed

abbrev written : List (Option String)
written = some " Two rows are missing. " ∷ none ∷ some "Two rows  are missing." ∷ []

normalize_caveats-bounds_example :
    (length (normalize_caveats (λ text. text) written) ≤ max_caveats)
    × (all fits (normalize_caveats (λ text. text) written) ≡ true)
    × AreDistinct (λ text. text) (normalize_caveats (λ text. text) written)
normalize_caveats-bounds_example = normalize_caveats-bounds (λ text. text) written
