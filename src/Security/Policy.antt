-- ===== src/Security/Policy.antt =====
-- backend/app/security/authorization.py: permission rules, tried in order, and the policies that
-- the runtime composes. `none` from `evaluate` is the KeyError of a risk table that lacks a level.
pub mod Gates
pub mod Grants
use autonomous_agent_runtime.Security.Contracts.{
  PolicyDecision, Capability, RiskLevel, SecurityEnvironment, SecuritySubject, SecurityAction,
  PolicyResult, RiskAssessment, value, capability_eq,
}
use autonomous_agent_runtime.Security.Permissions.{capabilities_for_tools}
use autonomous_agent_runtime.Security.Risk.{assess}
use autonomous_agent_runtime.Prelude.{
  String, ◌<>◌, Bool, true, false, ◌&&◌, ◌||◌, not, Option, none, some, List, [], ◌∷◌, ◌++◌, map,
  if◌then◌else◌, ◌==◌, nat_instance, string_instance, unset_or_eq,
}

pub record PermissionRule : Type 0 where
  pub identifier : String
  pub decision : PolicyDecision
  pub capability : Option Capability
  pub agent_name : Option String
  pub agent_type : Option String
  pub reason : String

pub record SecurityPolicy : Type 0 where
  pub rules : List PermissionRule
  pub risk_classifier : SecurityEnvironment
  pub risk_decisions : RiskLevel → Option PolicyDecision

-- The fields of contracts/specialists.py that authorization reads.
pub record AgentDefinition : Type 0 where
  pub name : String
  pub allowed_tools : List String

-- `self.capability is None or self.capability == action.capability`
abbrev pub capability_matches : Option Capability → Option Capability → Bool
capability_matches none actual = true
capability_matches (some c) actual = elim actual [ none ↦ false | some d ↦ c == d ]

unfoldable pub matches : PermissionRule → SecuritySubject → SecurityAction → Bool
matches rule subject action =
    unset_or_eq rule.agent_name subject.agent_name
    && unset_or_eq rule.agent_type subject.agent_type
    && capability_matches rule.capability action.capability

abbrev pub is_allow : PolicyDecision → Bool
is_allow PolicyDecision.allow = true
is_allow _ = false

abbrev pub is_absent : Option Capability → Bool
is_absent none = true
is_absent (some _) = false

abbrev pub result :
    PolicyDecision → String → String → SecurityAction → RiskAssessment → PolicyResult
result decision reason policy_id action risk = record {
  decision = decision;
  reason = reason;
  policy_id = policy_id;
  capability = action.capability;
  metadata = some risk;
}

-- The body of the loop for a rule that matches.
unfoldable pub apply_rule :
    SecurityPolicy → PermissionRule → SecuritySubject → SecurityAction → Option PolicyResult
apply_rule policy rule subject action =
    let risk = assess policy.risk_classifier action in
    if is_absent action.capability
      && (subject.agent_type == "primary" || subject.agent_type == "system")
    then some (result PolicyDecision.allow rule.reason rule.identifier action risk)
    else if not (is_allow rule.decision)
    then some (result rule.decision rule.reason rule.identifier action risk)
    else elim (policy.risk_decisions risk.level) [
      | none ↦ none
      | some decision ↦ some (
          result decision (if is_allow decision then rule.reason else risk.reason)
            (if is_allow decision then rule.identifier else risk.rule_id) action risk)
    ]

unfoldable pub default_result : SecurityPolicy → SecurityAction → PolicyResult
default_result policy action =
    let risk = assess policy.risk_classifier action in
    if is_absent action.capability
    then result PolicyDecision.deny "Requested capability is not recognized."
        "security.unknown_capability" action risk
    else result PolicyDecision.deny "This agent is not permitted to use this capability."
        "security.default_deny" action risk

-- The loop over the rules: the first one that matches decides.
unfoldable pub evaluate_rules :
    SecurityPolicy → List PermissionRule → SecuritySubject → SecurityAction → Option PolicyResult
evaluate_rules policy [] subject action = some (default_result policy action)
evaluate_rules policy (rule ∷ rules) subject action =
    if matches rule subject action
    then apply_rule policy rule subject action
    else evaluate_rules policy rules subject action

unfoldable pub evaluate : SecurityPolicy → SecuritySubject → SecurityAction → Option PolicyResult
evaluate policy subject action = evaluate_rules policy policy.rules subject action

abbrev pub default_risk_decisions : RiskLevel → Option PolicyDecision
default_risk_decisions RiskLevel.low = some PolicyDecision.allow
default_risk_decisions RiskLevel.medium = some PolicyDecision.allow
default_risk_decisions RiskLevel.high = some PolicyDecision.require_approval
default_risk_decisions RiskLevel.critical = some PolicyDecision.deny

abbrev pub default_reason : String
default_reason = "Action is governed by runtime security policy."

unfoldable pub primary : SecurityEnvironment → SecurityPolicy
primary environment = record {
  rules =
      record {
        identifier = "security.primary.allow";
        decision = PolicyDecision.allow;
        capability = none;
        agent_name = none;
        agent_type = some "primary";
        reason = default_reason;
      }
      ∷ record {
        identifier = "security.system.allow";
        decision = PolicyDecision.allow;
        capability = none;
        agent_name = none;
        agent_type = some "system";
        reason = default_reason;
      }
      ∷ [];
  risk_classifier = environment;
  risk_decisions = default_risk_decisions;
}

unfoldable pub specialist_rule : AgentDefinition → Capability → PermissionRule
unfolding value
specialist_rule definition capability = record {
  identifier = "security.specialist." <> definition.name <> "." <> value capability;
  decision = PolicyDecision.allow;
  capability = some capability;
  agent_name = some definition.name;
  agent_type = some "specialist";
  reason = "Capability is granted by this specialist definition.";
}

unfoldable pub with_specialist : SecurityPolicy → AgentDefinition → SecurityPolicy
with_specialist policy definition = record policy {
  rules =
      policy.rules
      ++ map (specialist_rule definition) (capabilities_for_tools definition.allowed_tools);
}

unfoldable pub gate : Capability → PermissionRule
unfolding value
gate capability = record {
  identifier = "security.approval." <> value capability;
  decision = PolicyDecision.require_approval;
  capability = some capability;
  agent_name = none;
  agent_type = none;
  reason = "This sensitive action requires human approval.";
}

abbrev pub gated_capabilities : List Capability
gated_capabilities =
    Capability.filesystem_write ∷ Capability.command_execute ∷ Capability.python_execute
    ∷ Capability.artifact_create ∷ []

unfoldable pub with_human_approval_gates : SecurityPolicy → List Capability → SecurityPolicy
with_human_approval_gates policy capabilities = record policy {
  rules = map gate capabilities ++ policy.rules;
}

-- get_security_policy of backend/app/composition/providers/runtime.py
unfoldable pub get_security_policy : SecurityEnvironment → SecurityPolicy
get_security_policy environment = with_human_approval_gates (primary environment) gated_capabilities
