-- ===== src/Contracts/Investigation.antt =====
-- backend/app/contracts/investigation.py: the shape of an investigation plan.
use autonomous_agent_runtime.Prelude.{ℕ, String, Bool, Option, List, filter}

pub data RequestClass : Type 0 where
  simple_fact comparison investigation executive_report detailed_report : RequestClass

pub data QuestionStatus : Type 0 where
  pending answered blocked : QuestionStatus

pub data OutputStatus : Type 0 where
  pending created skipped blocked : OutputStatus

pub data OutputKind : Type 0 where
  kpi line bar stacked_bar area pie scatter table : OutputKind

pub record AnalysisQuestion : Type 0 where
  pub id : String
  pub question : String
  pub status : QuestionStatus
  pub evidence_ids : List String

pub record PlannedOutput : Type 0 where
  pub id : String
  pub kind : OutputKind
  pub purpose : String
  pub required : Bool
  pub status : OutputStatus
  pub display_id : Option String

pub record InvestigationPlan : Type 0 where
  pub objective : String
  pub request_class : RequestClass
  pub questions : List AnalysisQuestion
  pub outputs : List PlannedOutput
  pub completion_criteria : List String
  pub maximum_displays : ℕ

unfoldable pub required_outputs : InvestigationPlan → List PlannedOutput
required_outputs plan = filter (λ output. output.required) plan.outputs
