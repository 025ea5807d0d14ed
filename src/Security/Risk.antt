-- ===== src/Security/Risk.antt =====
-- backend/app/security/risk.py: the rule-based risk of one normalized action. A classifier is its
-- environment.
use autonomous_agent_runtime.Security.Contracts.{
  Capability, RiskLevel, RiskCategory, SecurityEnvironment, SecurityAction, RiskAssessment,
}
use autonomous_agent_runtime.Prelude.{
  String, Bool, true, false, ◌||◌, none, some, List, [], ◌∷◌, if◌then◌else◌, any, codes, lower,
  occurs,
}

abbrev pub is_production : SecurityEnvironment → Bool
is_production SecurityEnvironment.production = true
is_production _ = false

abbrev pub identifier_of : SecurityAction → String
identifier_of action = elim action.resource [ none ↦ "" | some r ↦ r.identifier ]

abbrev pub production_markers : List String
production_markers = "production" ∷ "prod/" ∷ ".prod" ∷ "live" ∷ []

unfoldable pub is_production_target : SecurityEnvironment → SecurityAction → Bool
is_production_target environment action =
    is_production environment
    || any (λ marker. occurs (codes marker) (lower (identifier_of action))) production_markers

abbrev pub assessment :
    SecurityEnvironment → RiskLevel → RiskCategory → String → String → RiskAssessment
assessment environment level category rule_id reason = record {
  level = level;
  category = category;
  reason = reason;
  rule_id = rule_id;
  environment = environment;
}

-- The chain of tests on `action.capability` that follows the test for a production target.
unfoldable pub assess_capability : SecurityEnvironment → Capability → RiskAssessment
assess_capability env Capability.calculator_evaluate =
    assessment env RiskLevel.low RiskCategory.read_only "risk.read_only" "The action is read-only."
assess_capability env Capability.filesystem_read =
    assessment env RiskLevel.low RiskCategory.read_only "risk.read_only" "The action is read-only."
assess_capability env Capability.repository_read =
    assessment env RiskLevel.low RiskCategory.read_only "risk.read_only" "The action is read-only."
assess_capability env Capability.web_search =
    assessment env RiskLevel.low RiskCategory.read_only "risk.read_only" "The action is read-only."
assess_capability env Capability.database_schema_read =
    assessment env RiskLevel.low RiskCategory.read_only "risk.read_only" "The action is read-only."
assess_capability env Capability.database_metric_read =
    assessment env RiskLevel.low RiskCategory.read_only "risk.metric_read"
      "Metric definitions are runtime-owned read-only configuration."
assess_capability env Capability.database_query_read =
    assessment env RiskLevel.medium RiskCategory.read_only "risk.database_query"
      "Read-only database queries can consume shared resources."
assess_capability env Capability.analytics_python_execute =
    assessment env RiskLevel.medium RiskCategory.code_execution "risk.analytics_python"
      "Restricted analysis runs on a bounded runtime dataset."
assess_capability env Capability.analytics_report_create =
    assessment env RiskLevel.medium RiskCategory.local_modification "risk.analytics_report"
      "Report generation creates bounded local artifacts."
assess_capability env Capability.filesystem_write =
    assessment env RiskLevel.medium RiskCategory.local_modification "risk.local_modification"
      "The action modifies local workspace data."
assess_capability env Capability.artifact_create =
    assessment env RiskLevel.medium RiskCategory.local_modification "risk.local_modification"
      "The action modifies local workspace data."
assess_capability env Capability.python_execute =
    assessment env (if is_production env then RiskLevel.high else RiskLevel.medium)
      RiskCategory.code_execution "risk.code_execution"
      "The action executes controlled local code or a command."
assess_capability env Capability.command_execute =
    assessment env (if is_production env then RiskLevel.high else RiskLevel.medium)
      RiskCategory.code_execution "risk.code_execution"
      "The action executes controlled local code or a command."
assess_capability env Capability.repository_write =
    assessment env RiskLevel.high RiskCategory.destructive "risk.repository_write"
      "Repository modification is potentially destructive."
assess_capability env Capability.agent_delegate =
    assessment env RiskLevel.medium RiskCategory.external_side_effect "risk.delegation"
      "Delegation creates an additional runtime execution path."

unfoldable pub assess : SecurityEnvironment → SecurityAction → RiskAssessment
assess env action = elim action.capability [
  | none ↦
      assessment env RiskLevel.critical RiskCategory.unknown "risk.unknown_action"
        "Unknown actions are denied by default."
  | some capability ↦
      if is_production_target env action
      then assessment env RiskLevel.critical RiskCategory.production_change "risk.production_target"
          "The action targets a production-like resource."
      else assess_capability env capability
]
