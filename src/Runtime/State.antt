-- ===== src/Runtime/State.antt =====
-- backend/app/runtime/state.py, core/limits.py, contracts/answers.py and the messages of
-- runtime/delegation.py: all that one agent run keeps. Dictionaries with text keys are association
-- lists, in the order of insertion. Timestamps are their text.
use autonomous_agent_runtime.Prelude.Json.{Fields}
use autonomous_agent_runtime.Contracts.Investigation.{InvestigationPlan}
use autonomous_agent_runtime.Tools.Types.{ToolResult}
use autonomous_agent_runtime.Prelude.{
  ℕ, ◌+◌, String, Bool, false, ◌&&◌, Option, none, List, [], ◌∷◌, ◌++◌, leb, length, all,
}

pub record RuntimeLimits : Type 0 where
  pub max_iterations : ℕ
  pub max_tool_calls : ℕ
  pub max_recoverable_errors : ℕ
  pub max_consecutive_duplicate_actions : ℕ
  pub max_parallel_subagents : ℕ
  pub max_delegations_per_run : ℕ
  pub max_subagent_iterations : ℕ
  pub max_agent_depth : ℕ
  pub max_finish_redirects : ℕ

-- `__post_init__` accepts the limits; the last one is a natural number here, never below 0.
unfoldable pub limits_ok : RuntimeLimits → Bool
limits_ok limits =
    leb 1 limits.max_iterations
    && leb 1 limits.max_tool_calls
    && leb 1 limits.max_recoverable_errors
    && leb 1 limits.max_consecutive_duplicate_actions
    && leb 1 limits.max_parallel_subagents
    && leb 1 limits.max_delegations_per_run
    && leb 1 limits.max_subagent_iterations
    && leb 1 limits.max_agent_depth

-- The memory excerpts of a context are left out: the delegation step selects none.
pub record DelegationContext : Type 0 where
  pub objective : String
  pub background : Option String
  pub constraints : Option String
  pub expected_output : Option String

pub record DelegationRequest : Type 0 where
  pub parent_run_id : String
  pub parent_iteration : ℕ
  pub target_agent : String
  pub objective : String
  pub context : DelegationContext
  pub workspace_id : Option String

pub record SubagentResult : Type 0 where
  pub parent_run_id : String
  pub child_run_id : Option String
  pub agent_name : String
  pub objective : String
  pub success : Bool
  pub answer : Option String
  pub outcome : Option String
  pub iterations : ℕ
  pub tool_calls : ℕ
  pub duration_ms : ℕ
  pub stop_reason : Option String
  pub error : Option String

pub record ParallelDelegationResult : Type 0 where
  pub parent_run_id : String
  pub results : List SubagentResult

-- The property `success` of a parallel result.
unfoldable pub all_succeeded : ParallelDelegationResult → Bool
all_succeeded r = all (λ result. result.success) r.results

pub data DelegationStatus : Type 0 where
  invalid unavailable : DelegationStatus

-- `success` is always false and `output` always absent.
pub record DelegationObservation : Type 0 where
  pub status : DelegationStatus
  pub target_agent : String
  pub error : String

pub data ObservationContent : Type 0 where
  tool : ToolResult → ObservationContent
  delegation : DelegationObservation → ObservationContent
  subagent : SubagentResult → ObservationContent
  parallel : ParallelDelegationResult → ObservationContent

pub record Observation : Type 0 where
  pub source : String
  pub content : ObservationContent
  pub iteration : ℕ
  pub sequence : ℕ

-- `content.success`
unfoldable pub succeeded : ObservationContent → Bool
succeeded (tool r) = r.success
succeeded (delegation d) = false
succeeded (subagent r) = r.success
succeeded (parallel r) = all_succeeded r

pub record TaskSummary : Type 0 where
  pub goal : String
  pub progress : List String
  pub unresolved_questions : List String
  pub important_decisions : List String
  pub failures_or_blockers : List String
  pub last_updated_iteration : ℕ
  pub summarized_observation_count : ℕ

pub data StopReason : Type 0 where
  completed max_iterations max_tool_calls too_many_errors cancelled fatal_error : StopReason

pub data RunStatus : Type 0 where
  running waiting_for_approval completed failed : RunStatus

pub data ArtifactStatus : Type 0 where
  pending ready failed deleted : ArtifactStatus

pub record Artifact : Type 0 where
  pub id : String
  pub workspace_id : String
  pub name : String
  pub relative_path : String
  pub artifact_type : String
  pub media_type : String
  pub size : ℕ
  pub sha256 : String
  pub status : ArtifactStatus
  pub run_id : String
  pub created_at : String
  pub output_format : Option String
  pub template_id : Option String
  pub template_version : Option String
  pub expires_at : Option String
  pub retention_policy : String
  pub deleted_at : Option String
  pub deletion_claimed_at : Option String
  pub deletion_attempts : ℕ
  pub deletion_error : Option String
  pub metadata : Fields

pub data AnswerSourceKind : Type 0 where
  database_query metric_rerun : AnswerSourceKind

pub record AnswerSource : Type 0 where
  pub id : String
  pub kind : AnswerSourceKind
  pub run_id : String
  pub label : String
  pub referenced_tables : List String
  pub columns : List String
  pub row_count : Option ℕ
  pub truncated : Bool
  pub executed_at : Option String
  pub metric : Option String
  pub dimensions : List String
  pub filters : List String
  pub sql_fingerprint : Option String

pub record AgentState : Type 0 where
  pub goal : String
  pub run_id : String
  pub workspace_id : Option String
  pub observations : List Observation
  pub artifacts : List Artifact
  pub task_summary : Option TaskSummary
  pub investigation_plan : Option InvestigationPlan
  pub finish_redirect_count : ℕ
  pub loaded_skills : List (String × String)
  pub delegation_requests : List DelegationRequest
  pub successful_delegation_count : ℕ
  pub failed_delegation_count : ℕ
  pub child_run_ids : List String
  pub parallel_delegation_batch_count : ℕ
  pub recent_delegation_fingerprints : List String
  pub agent_depth : ℕ
  pub iteration_count : ℕ
  pub total_tool_calls : ℕ
  pub recoverable_error_count : ℕ
  pub recent_action_fingerprints : List String
  pub completed : Bool
  pub status : RunStatus
  pub final_answer : Option String
  pub answer_sources : List AnswerSource
  pub answer_caveats : List String
  pub stop_reason : Option StopReason

-- A new state has the defaults of the class.
unfoldable pub new_state : String → String → Option String → AgentState
new_state goal run_id workspace_id = record {
  goal = goal;
  run_id = run_id;
  workspace_id = workspace_id;
  observations = [];
  artifacts = [];
  task_summary = none;
  investigation_plan = none;
  finish_redirect_count = 0;
  loaded_skills = [];
  delegation_requests = [];
  successful_delegation_count = 0;
  failed_delegation_count = 0;
  child_run_ids = [];
  parallel_delegation_batch_count = 0;
  recent_delegation_fingerprints = [];
  agent_depth = 0;
  iteration_count = 0;
  total_tool_calls = 0;
  recoverable_error_count = 0;
  recent_action_fingerprints = [];
  completed = false;
  status = RunStatus.running;
  final_answer = none;
  answer_sources = [];
  answer_caveats = [];
  stop_reason = none;
}

-- `state.observations.append(Observation(...))`, numbered after the ones before it.
unfoldable pub append_observation : String → ObservationContent → AgentState → AgentState
append_observation source content state = record state {
  observations =
      state.observations
      ++ record {
        source = source;
        content = content;
        iteration = state.iteration_count;
        sequence = length state.observations + 1;
      }
        ∷ [];
}
