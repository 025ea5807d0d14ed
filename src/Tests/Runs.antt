-- ===== src/Tests/Runs.antt =====
-- Witnesses on plans, summaries and whole runs.
use autonomous_agent_runtime.Contracts.Investigation.{InvestigationPlan}
use autonomous_agent_runtime.Runtime.Actions.{apply_action, resolve_citations}
use autonomous_agent_runtime.Runtime.Actions.Keeps.{apply_action-IsKept}
use autonomous_agent_runtime.Runtime.Requests.{consecutive_count}
use autonomous_agent_runtime.Runtime.Delegation.{handle}
use autonomous_agent_runtime.Runtime.Invariant.{IsValid, IsActive, Returned}
use autonomous_agent_runtime.Runtime.Planning.{
  reconcile_plan, resolved_query_ids, created_display_ids, evaluate_finish, missing,
  successful_outputs, dict_output, reconcile_question, reconcile_output, budget_exhausted,
  has_created_table,
}
use autonomous_agent_runtime.Runtime.Planning.Finish.{finish-resolved, is_resolved}
use autonomous_agent_runtime.Runtime.Planning.Reconcile.{
  is_supported, is_backed, reconcile_plan-supported, reconcile_plan-idempotent,
}
use autonomous_agent_runtime.Runtime.Runner.{run, choose, out_of_attempts}
use autonomous_agent_runtime.Runtime.Runner.Outcome.{
  IsConcluded, run-IsConcluded, run-new_state, choose-decides,
}
use autonomous_agent_runtime.Runtime.State.{
  AgentState, Observation, new_state, AnswerSource, AnswerSourceKind, limits_ok,
}
use autonomous_agent_runtime.Runtime.World.{World}
use autonomous_agent_runtime.Prelude.Json.{str, end, field}
use autonomous_agent_runtime.Contracts.Actions.{
  strip, rstrip, lstrip, is_space, AgentAction, ActionType,
}
use autonomous_agent_runtime.Security.Approvals.{ApprovalStatus, Item, read}
use autonomous_agent_runtime.Security.Contracts.{value}
use autonomous_agent_runtime.Security.Permissions.{
  resource_for_tool, capability_for_tool, join_names, schema_identifier, security_resource,
}
use autonomous_agent_runtime.Security.Policy.{
  apply_rule, default_result, evaluate, evaluate_rules, matches, get_security_policy, primary,
  with_human_approval_gates, gate,
}
use autonomous_agent_runtime.Security.Risk.{assess, assess_capability, is_production_target}
use autonomous_agent_runtime.Tools.Types.{ToolResult, get_tool}
use autonomous_agent_runtime.Tools.Arguments.{
  validate_arguments, first_missing, first_unexpected, first_mistyped, property_type,
  matches_json_type,
}
use autonomous_agent_runtime.Tools.Executor.{
  execute, evaluate_policy, execute_request, execute_approved, security_action, authorize,
  policy_or_deny, run_tool, policy_failure,
}
use autonomous_agent_runtime.Runtime.Control.{subject}
use autonomous_agent_runtime.Runtime.Resume.{approved_result, is_validated, resume_rejection}
use autonomous_agent_runtime.Runtime.Resume.Exactness.{IsExact, approved_result-IsExact}
use autonomous_agent_runtime.Runtime.Resume.Continues.{
  IsResumable, IsResumed, resume_rejection-IsResumed,
}
use autonomous_agent_runtime.Runtime.Actions.Citations.{
  IsResolution, resolve_citations-IsResolution,
}
use autonomous_agent_runtime.Runtime.Delegation.Names.{handle-raises}
use autonomous_agent_runtime.Tests.Samples.{
  delegation, request, listing, result_four, limits, runner, around, call, query_result, question,
  plan,
}
use autonomous_agent_runtime.Prelude.{
  ℕ, zero, suc, ◌≤◌, String, ◌<>◌, ◌≡◌, refl, ◌≢◌, true, false, Option, none, some, List, [], ◌∷◌,
  arith, if◌then◌else◌, all, string_instance, ◌==◌, nat_instance,
}

abbrev fresh : AgentState
fresh = new_state "Add two and two." "run-1" none

abbrev world : World
world = record { state = fresh; approvals = none }

fresh-IsActive : IsActive fresh
unfolding new_state
fresh-IsActive = record { running = refl; incomplete = refl; unstopped = refl }

fresh-IsValid : IsValid runner.delegation.control 0 0 fresh
unfolding consecutive_count new_state
fresh-IsValid = record {
  iterations = refl;
  tool_calls = omega arith;
  delegations = omega arith;
  redirects = omega arith;
  sequenced = tt;
  actions = λ f. omega arith;
  delegated = λ f. omega arith;
  errors = omega arith;
  open_errors = λ u. omega arith;
  batches = tt;
  shallow = λ deep. refl;
  status = refl;
}

fresh-bounded : fresh.iteration_count ≤ limits.max_iterations
unfolding new_state
fresh-bounded = omega arith

run-new_state_example : IsConcluded runner.delegation.control 0 (
    run runner around "Add two and two."
      (record { state = new_state "Add two and two." "run-1" none; approvals = none }))
unfolding limits_ok
run-new_state_example = run-new_state runner around "Add two and two." "run-1" none none refl

run-IsConcluded_example :
    IsConcluded runner.delegation.control 0 (run runner around "Add two and two." world)
unfolding new_state
run-IsConcluded_example =
    run-IsConcluded runner around 0 "Add two and two." world fresh-IsActive fresh-bounded
      fresh-IsValid

apply_action-IsKept_example :
    Returned
      (λ (u : World). IsValid runner.delegation.control 0 0 u.state)
      (apply_action runner around call world)
apply_action-IsKept_example =
    apply_action-IsKept runner around 0 0 call world fresh-IsActive fresh-IsValid

choose-decides_example : choose runner around 4 1 1 ≢ out_of_attempts
choose-decides_example = choose-decides runner around 3 1 1 (omega arith)

abbrev questions : InvestigationPlan
questions = plan (question "query_001" ∷ question "query_999" ∷ [])

abbrev observed : List Observation
observed = query_result ∷ []

reconcile_plan-supported_example :
    (all (is_supported (resolved_query_ids observed)) (reconcile_plan questions observed).questions
      ≡ true)
    × (all (is_backed (created_display_ids observed)) (reconcile_plan questions observed).outputs
        ≡ true)
reconcile_plan-supported_example = reconcile_plan-supported questions observed

reconcile_plan-idempotent_example :
    reconcile_plan (reconcile_plan questions observed) observed ≡ reconcile_plan questions observed
reconcile_plan-idempotent_example = reconcile_plan-idempotent questions observed

abbrev investigating : AgentState
investigating = record fresh {
  iteration_count = 1;
  observations = observed;
  investigation_plan = some (reconcile_plan questions observed);
}

abbrev answered : InvestigationPlan
answered = plan (question "query_001" ∷ [])

abbrev resolved : AgentState
resolved = record investigating { investigation_plan = some (reconcile_plan answered observed) }

complete : (evaluate_finish resolved limits).missing ≡ []
unfolding evaluate_finish missing reconcile_plan resolved_query_ids created_display_ids
    successful_outputs dict_output reconcile_question reconcile_output budget_exhausted
    has_created_table new_state
complete = refl

finish-resolved_example :
    all (is_resolved (resolved_query_ids observed)) (reconcile_plan answered observed).questions
    ≡ true
finish-resolved_example = finish-resolved resolved limits answered observed refl complete

-- A reviewer has approved the command that the checkpoint holds.
abbrev paused : Item AgentState
paused = record {
  request = request ApprovalStatus.approved;
  checkpoint = record {
    state = fresh;
    tool_name = "run_command";
    tool_arguments = listing;
    action_fingerprint = "digest";
    session_id = none;
  };
}

abbrev result_listing : ToolResult
result_listing = record result_four { metadata = field "tool_name" (str "run_command") end }

approved : approved_result runner around "approval-1" paused ≡ some result_listing
unfolding approved_result is_validated execute_approved evaluate_policy subject execute
    execute_request strip rstrip lstrip is_space get_tool validate_arguments first_missing
    first_unexpected first_mistyped property_type matches_json_type security_action
    resource_for_tool capability_for_tool authorize policy_or_deny join_names schema_identifier
    security_resource apply_rule default_result evaluate evaluate_rules matches assess
    assess_capability is_production_target run_tool get_security_policy primary
    with_human_approval_gates gate policy_failure value new_state
approved = refl

approved_result-IsExact_example : IsExact runner around paused
approved_result-IsExact_example =
    approved_result-IsExact runner around "approval-1" paused result_listing approved refl

fresh-IsResumable : IsResumable runner.delegation.control 0 fresh
unfolding new_state
fresh-IsResumable = record {
  incomplete = refl;
  unstopped = refl;
  bounded = fresh-bounded;
  valid = fresh-IsValid;
}

stored : read "approval-1" (paused ∷ []) ≡ some paused
unfolding read
stored = refl

resume_rejection-IsResumed_example :
    IsResumed runner.delegation.control 1
      (resume_rejection runner around 20 30 "approval-1" (paused ∷ []))
resume_rejection-IsResumed_example =
    resume_rejection-IsResumed runner around 0 20 30 "approval-1" (paused ∷ []) paused stored
      fresh-IsResumable

abbrev source : AnswerSource
source = record {
  id = "query_001";
  kind = AnswerSourceKind.database_query;
  run_id = "run-1";
  label = "orders";
  referenced_tables = "orders" ∷ [];
  columns = [];
  row_count = some 3;
  truncated = false;
  executed_at = none;
  metric = none;
  dimensions = [];
  filters = [];
  sql_fingerprint = none;
}

abbrev recorded : String → Option AnswerSource
recorded id = if id == "query_001" then some source else none

abbrev citations : List String
citations = "query_001" ∷ "query_999" ∷ "query_001" ∷ []

resolve_citations-IsResolution_example :
    IsResolution recorded [] citations (resolve_citations recorded [] citations)
resolve_citations-IsResolution_example = resolve_citations-IsResolution recorded citations

-- 528 characters.
abbrev long_name : ℕ → String → String
long_name zero s = s
long_name (suc n) s = long_name n s <> "a name too long "

abbrev delegate : AgentAction
delegate = record call {
  action_type = ActionType.delegate;
  agent_name = some (long_name 33 "");
  objective = some "Look into it.";
}

handle-raises_example : handle delegation fresh delegate ≡ none
handle-raises_example = handle-raises delegation fresh delegate refl (omega arith)
