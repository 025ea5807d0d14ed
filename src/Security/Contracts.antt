-- ===== src/Security/Contracts.antt =====
-- backend/app/security/contracts.py: the models that the policy layer exchanges. The metadata
-- dictionaries are records of the keys that the code writes into them.
use autonomous_agent_runtime.Prelude.{
  ℕ, String, ◌≡◌, refl, ◌↔◌, true, Option, nat_eq, if◌then◌else◌, Eq, index_beq_iff,
}

pub data PolicyDecision : Type 0 where
  allow deny require_approval : PolicyDecision

pub data Capability : Type 0 where
  calculator_evaluate filesystem_read filesystem_write command_execute : Capability
  python_execute repository_read repository_write artifact_create agent_delegate : Capability
  web_search database_schema_read database_query_read analytics_python_execute : Capability
  analytics_report_create database_metric_read : Capability

pub data RiskLevel : Type 0 where
  low medium high critical : RiskLevel

pub data RiskCategory : Type 0 where
  read_only local_modification code_execution destructive external_side_effect : RiskCategory
  credential_access production_change unknown : RiskCategory

pub data SecurityEnvironment : Type 0 where
  unknown development staging production : SecurityEnvironment

pub data ContentTrust : Type 0 where
  trusted_runtime trusted_agent_definition user_input untrusted_external : ContentTrust
  tool_output retrieved_memory : ContentTrust

pub record SecuritySubject : Type 0 where
  pub agent_name : String
  pub agent_type : String
  pub run_id : String
  pub parent_run_id : Option String
  pub delegation_depth : ℕ

pub record SecurityResource : Type 0 where
  pub resource_type : String
  pub identifier : String

pub record SecurityAction : Type 0 where
  pub capability : Option Capability
  pub resource : Option SecurityResource
  pub tool_name : Option String

pub record RiskAssessment : Type 0 where
  pub level : RiskLevel
  pub category : RiskCategory
  pub reason : String
  pub rule_id : String
  pub environment : SecurityEnvironment

-- `metadata` is empty where no assessment was made.
pub record PolicyResult : Type 0 where
  pub decision : PolicyDecision
  pub reason : String
  pub policy_id : String
  pub capability : Option Capability
  pub metadata : Option RiskAssessment

-- The value of the enumeration's member, as `capability.value`.
unfoldable pub value : Capability → String
value Capability.calculator_evaluate = "calculator.evaluate"
value Capability.filesystem_read = "filesystem.read"
value Capability.filesystem_write = "filesystem.write"
value Capability.command_execute = "command.execute"
value Capability.python_execute = "python.execute"
value Capability.repository_read = "repository.read"
value Capability.repository_write = "repository.write"
value Capability.artifact_create = "artifact.create"
value Capability.agent_delegate = "agent.delegate"
value Capability.web_search = "web.search"
value Capability.database_schema_read = "database.schema.read"
value Capability.database_query_read = "database.query.read"
value Capability.analytics_python_execute = "analytics.python.execute"
value Capability.analytics_report_create = "analytics.report.create"
value Capability.database_metric_read = "database.metric.read"

abbrev pub capability_index : Capability → ℕ
capability_index Capability.calculator_evaluate = 0
capability_index Capability.filesystem_read = 1
capability_index Capability.filesystem_write = 2
capability_index Capability.command_execute = 3
capability_index Capability.python_execute = 4
capability_index Capability.repository_read = 5
capability_index Capability.repository_write = 6
capability_index Capability.artifact_create = 7
capability_index Capability.agent_delegate = 8
capability_index Capability.web_search = 9
capability_index Capability.database_schema_read = 10
capability_index Capability.database_query_read = 11
capability_index Capability.analytics_python_execute = 12
capability_index Capability.analytics_report_create = 13
capability_index Capability.database_metric_read = 14

abbrev pub capability_at : ℕ → Capability
capability_at n =
    if nat_eq n 0
    then Capability.calculator_evaluate
    else if nat_eq n 1
    then Capability.filesystem_read
    else if nat_eq n 2
    then Capability.filesystem_write
    else if nat_eq n 3
    then Capability.command_execute
    else if nat_eq n 4
    then Capability.python_execute
    else if nat_eq n 5
    then Capability.repository_read
    else if nat_eq n 6
    then Capability.repository_write
    else if nat_eq n 7
    then Capability.artifact_create
    else if nat_eq n 8
    then Capability.agent_delegate
    else if nat_eq n 9
    then Capability.web_search
    else if nat_eq n 10
    then Capability.database_schema_read
    else if nat_eq n 11
    then Capability.database_query_read
    else if nat_eq n 12
    then Capability.analytics_python_execute
    else if nat_eq n 13
    then Capability.analytics_report_create
    else Capability.database_metric_read

capability_recover : (c : Capability) → capability_at (capability_index c) ≡ c
capability_recover Capability.calculator_evaluate = refl
capability_recover c = refl

pub capability_beq_iff :
    (a b : Capability) → (nat_eq (capability_index a) (capability_index b) ≡ true) ↔ (a ≡ b)
capability_beq_iff = index_beq_iff capability_index capability_at capability_recover

instance abbrev pub capability_eq : Eq Capability
capability_eq = record {
  beq = λ a b. nat_eq (capability_index a) (capability_index b);
  beq_iff = capability_beq_iff;
}
