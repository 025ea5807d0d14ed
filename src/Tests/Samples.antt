-- ===== src/Tests/Samples.antt =====
-- Sample tools, policies, requests and runs.
use autonomous_agent_runtime.Prelude.Json.{Fields, str, int, obj, end, field, null}
use autonomous_agent_runtime.Contracts.Actions.{AgentAction, ActionType}
use autonomous_agent_runtime.Contracts.Investigation.{
  InvestigationPlan, AnalysisQuestion, RequestClass, QuestionStatus,
}
use autonomous_agent_runtime.Reliability.{default_policy}
use autonomous_agent_runtime.Security.Contracts.{
  SecuritySubject, SecurityAction, SecurityEnvironment, Capability, ContentTrust,
}
use autonomous_agent_runtime.Security.Policy.{SecurityPolicy, AgentDefinition, get_security_policy}
use autonomous_agent_runtime.Security.Approvals.{ApprovalStatus, ApprovalRequest, Item}
use autonomous_agent_runtime.Tools.Types.{Tool, ToolResult}
use autonomous_agent_runtime.Tools.Executor.{Sanitizer, ToolOutcome, output}
use autonomous_agent_runtime.Runtime.Control.{RunControl}
use autonomous_agent_runtime.Runtime.Delegation.{DelegationStep}
use autonomous_agent_runtime.Runtime.State.{RuntimeLimits, Observation, ObservationContent}
use autonomous_agent_runtime.Runtime.World.{AgentRunner, Surroundings, answer, unknown_skill}
use autonomous_agent_runtime.Prelude.{
  ℕ, String, ◌<>◌, true, false, none, some, List, [], ◌∷◌, if◌then◌else◌, ◌==◌, nat_instance,
  string_instance,
}

abbrev pub sanitizer : Sanitizer
sanitizer = record {
  render = λ v. "value";
  safe_error_message = λ s. s;
  safe_observation_value = λ n v. v;
  external_content_for_tool = λ name arguments v. none;
}

abbrev pub primary_subject : SecuritySubject
primary_subject = record {
  agent_name = "primary";
  agent_type = "primary";
  run_id = "run-1";
  parent_run_id = none;
  delegation_depth = 0;
}

abbrev pub specialist_subject : SecuritySubject
specialist_subject = record {
  agent_name = "analyst";
  agent_type = "specialist";
  run_id = "run-2";
  parent_run_id = some "run-1";
  delegation_depth = 1;
}

abbrev pub analyst : AgentDefinition
analyst = record { name = "analyst"; allowed_tools = "calculator" ∷ [] }

abbrev pub calculate : SecurityAction
calculate = record {
  capability = some Capability.calculator_evaluate;
  resource = none;
  tool_name = some "calculator";
}

abbrev pub write_report : SecurityAction
write_report = record {
  capability = some Capability.filesystem_write;
  resource = none;
  tool_name = some "write_file";
}

abbrev pub tool_of : String → String → Tool
tool_of name argument = record {
  name = name;
  arguments_schema = record {
    required = argument ∷ [];
    properties = (argument, some "string") ∷ [];
    closed = true;
  };
  max_observation_length = 4000;
}

abbrev pub tools : List Tool
tools = tool_of "calculator" "expression" ∷ tool_of "run_command" "command" ∷ []

abbrev pub sum : Fields
sum = field "expression" (str "2 + 2") end

abbrev pub no_command : Fields
no_command = field "command" (str "") end

abbrev pub listing : Fields
listing = field "command" (str "ls") end

abbrev pub four : ToolOutcome
four = output (int 4)

abbrev pub result_four : ToolResult
result_four = record {
  success = true;
  output = int 4;
  error = none;
  metadata = field "tool_name" (str "calculator") end;
  trust = ContentTrust.tool_output;
  source_type = none;
  source_identifier = none;
}

abbrev pub result_refused : ToolResult
result_refused = record {
  success = false;
  output = null;
  error = some "This action requires human approval, which is not available in this runtime.";
  metadata = field "tool_name" (str "run_command") (
      field "security_decision" (str "require_approval") (
        field "capability" (str "command.execute") (
          field "policy_id" (str "security.approval.command.execute")
            (field "failure_category" (str "security_denial") end))));
  trust = ContentTrust.tool_output;
  source_type = none;
  source_identifier = none;
}

abbrev pub request : ApprovalStatus → ApprovalRequest
request status = record {
  id = "approval-1";
  run_id = "run-1";
  parent_run_id = none;
  agent_name = "primary";
  capability = Capability.command_execute;
  tool_name = "run_command";
  resource = some "ls";
  reason = "This sensitive action requires human approval.";
  status = status;
  created_at = 10;
  resolved_at = none;
  expires_at = some 100;
  policy_id = "security.approval.command.execute";
  action_fingerprint = "digest";
  execution_started_at = none;
  execution_completed_at = none;
}

abbrev pub item : ApprovalStatus → Item ℕ
item status = record {
  request = request status;
  checkpoint = record {
    state = 0;
    tool_name = "run_command";
    tool_arguments = listing;
    action_fingerprint = "digest";
    session_id = none;
  };
}

abbrev pub limits : RuntimeLimits
limits = record {
  max_iterations = 8;
  max_tool_calls = 16;
  max_recoverable_errors = 3;
  max_consecutive_duplicate_actions = 2;
  max_parallel_subagents = 3;
  max_delegations_per_run = 8;
  max_subagent_iterations = 6;
  max_agent_depth = 1;
  max_finish_redirects = 2;
}

abbrev pub policy : SecurityPolicy
policy = get_security_policy SecurityEnvironment.development

abbrev pub control : RunControl
control = record {
  limits = limits;
  agent_name = "primary";
  agent_type = "primary";
  agent_depth = 0;
  parent_run_id = none;
}

abbrev pub delegation : DelegationStep
delegation = record {
  control = control;
  agent_registry = none;
  executor = none;
  parallel_executor = none;
  security_policy = policy;
  enabled = true;
  delegation_fingerprint = λ agent objective context. agent <> objective;
  validation_message = λ state. "invalid";
  decimal = λ n. "n";
}

abbrev pub runner : AgentRunner
runner = record {
  delegation = delegation;
  tools = tools;
  tool_policy = policy;
  sanitizer = sanitizer;
  summary_policy = record { trigger_observations = 8; recent_observations = 5 };
  summarizer = λ summary observations. some summary;
  retry_policy = default_policy;
  approval_ttl = some 3600;
  tool_action_fingerprint = λ name arguments. name;
  action_fingerprint = λ subject action arguments. "digest";
  validate_artifact = λ v. none;
  validate_plan = λ v. none;
  casefold = λ text. text;
}

abbrev pub call : AgentAction
call = record {
  action_type = ActionType.use_tool;
  reasoning_summary = "Compute the sum.";
  tool_name = some "calculator";
  tool_arguments = sum;
  skill_name = none;
  agent_name = none;
  objective = none;
  context = none;
  constraints = none;
  expected_output = none;
  delegations = [];
  final_answer = none;
  citations = [];
  caveats = [];
}

abbrev pub conclude : AgentAction
conclude = record call {
  action_type = ActionType.finish;
  tool_name = none;
  tool_arguments = end;
  final_answer = some "4";
}

-- The model computes the sum first and answers then.
abbrev pub around : Surroundings
around = record {
  choose_decision = λ iteration attempt. answer (if iteration == 1 then call else conclude);
  tool_outcome = λ iteration. four;
  load_skill = λ iteration name. unknown_skill;
  ledger = λ iteration id. none;
  approval_id = λ iteration. "approval-1";
  now = λ iteration. iteration;
}

abbrev pub query_result : Observation
query_result = record {
  source = "query_database";
  content =
      ObservationContent.tool
        (record result_four { output = obj (field "query_id" (str "query_001") end) });
  iteration = 1;
  sequence = 1;
}

-- One claim rests on a query of the run, the other one on an invented one.
abbrev pub question : String → AnalysisQuestion
question evidence = record {
  id = evidence;
  question = "How many orders were there?";
  status = QuestionStatus.answered;
  evidence_ids = evidence ∷ [];
}

abbrev pub plan : List AnalysisQuestion → InvestigationPlan
plan questions = record {
  objective = "Count the orders.";
  request_class = RequestClass.comparison;
  questions = questions;
  outputs = [];
  completion_criteria = [];
  maximum_displays = 1;
}
