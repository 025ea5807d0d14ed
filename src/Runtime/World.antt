-- ===== src/Runtime/World.antt =====
-- What AgentRunner of backend/app/runtime/runner.py is built with, and what it asks of its
-- surroundings (the language model, the tools' own work, the skill files, the query ledger,
-- identifiers and clock): functions of the iteration.
use autonomous_agent_runtime.Prelude.Json.{Json, Fields}
use autonomous_agent_runtime.Contracts.Actions.{AgentAction}
use autonomous_agent_runtime.Contracts.Investigation.{InvestigationPlan}
use autonomous_agent_runtime.Reliability.{RetryPolicy, LlmError}
use autonomous_agent_runtime.Security.Approvals.{Item}
use autonomous_agent_runtime.Security.Contracts.{SecuritySubject, SecurityAction}
use autonomous_agent_runtime.Security.Policy.{SecurityPolicy}
use autonomous_agent_runtime.Tools.Types.{Tool}
use autonomous_agent_runtime.Tools.Executor.{Sanitizer, ToolOutcome}
use autonomous_agent_runtime.Runtime.Delegation.{DelegationStep}
use autonomous_agent_runtime.Runtime.State.{
  AgentState, AnswerSource, Artifact, Observation, TaskSummary,
}
use autonomous_agent_runtime.Runtime.Summary.{SummaryPolicy}
use autonomous_agent_runtime.Prelude.{ℕ, String, Option, List}

-- A reply of the language model: a validated action, or an exception.
pub data Reply : Type 0 where
  answer : AgentAction → Reply
  error : LlmError → Reply

pub data SkillLoad : Type 0 where
  instructions : String → SkillLoad
  unknown_skill : SkillLoad
  load_failed : SkillLoad

-- What the runner asks of its surroundings, by iteration, and the model's reply by attempt too.
pub record Surroundings : Type 0 where
  pub choose_decision : ℕ → ℕ → Reply
  pub tool_outcome : ℕ → ToolOutcome
  pub load_skill : ℕ → String → SkillLoad
  pub ledger : ℕ → String → Option AnswerSource
  pub approval_id : ℕ → String
  pub now : ℕ → ℕ

-- The collaborators that a runner is built with, and the library functions that they call.
pub record AgentRunner : Type 0 where
  pub delegation : DelegationStep
  pub tools : List Tool
  pub tool_policy : SecurityPolicy
  pub sanitizer : Sanitizer
  pub summary_policy : SummaryPolicy
  pub summarizer : TaskSummary → List Observation → Option TaskSummary
  pub retry_policy : RetryPolicy
  pub approval_ttl : Option ℕ
  pub tool_action_fingerprint : String → Fields → String
  pub action_fingerprint : SecuritySubject → SecurityAction → Fields → String
  pub validate_artifact : Json → Option Artifact
  pub validate_plan : Json → Option InvestigationPlan
  pub casefold : List ℕ → List ℕ

-- The state of a run beside the approval store, which a runner may lack.
pub record World : Type 0 where
  pub state : AgentState
  pub approvals : Option (List (Item AgentState))
