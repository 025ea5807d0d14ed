-- ===== src/Security/Policy/Gates.antt =====
-- What the approval gates and a production environment decide, whatever the rules behind them.
use autonomous_agent_runtime.Security.Contracts.{
  PolicyDecision, Capability, RiskLevel, SecurityEnvironment, SecuritySubject, SecurityAction,
  PolicyResult, value, capability_eq,
}
use autonomous_agent_runtime.Security.Risk.{assess, is_production_target}
use autonomous_agent_runtime.Security.Policy.{
  PermissionRule, SecurityPolicy, result, gate, matches, apply_rule, evaluate_rules, evaluate,
  default_result, with_human_approval_gates, is_allow,
}
use autonomous_agent_runtime.Prelude.{
  ◌<>◌, ◌≡◌, refl, ap, ◌∙◌, inl, inr, Bool, true, false, not, Option, none, some, List, [], ◌∷◌,
  ◌++◌, map, arith, if◌then◌else◌, Option-cases, contains, ◌==◌, nat_instance, string_instance,
}

-- Only the classifier and the risk table of the policy are read by the loop.
pub evaluate_rules-rules :
    (policy : SecurityPolicy) (other rules : List PermissionRule) (subject : SecuritySubject)
    (action : SecurityAction)
    → evaluate_rules (record policy { rules = other }) rules subject action
      ≡ evaluate_rules policy rules subject action
unfolding evaluate_rules default_result apply_rule
evaluate_rules-rules policy other [] subject action = refl
evaluate_rules-rules policy other (rule ∷ rules) subject action =
    rw (evaluate_rules-rules policy other rules subject action)

pub evaluate_rules-skip :
    (policy : SecurityPolicy) (rule : PermissionRule) (rules : List PermissionRule)
    (subject : SecuritySubject) (action : SecurityAction)
    → matches rule subject action ≡ false
    → evaluate_rules policy (rule ∷ rules) subject action
      ≡ evaluate_rules policy rules subject action
unfolding evaluate_rules
evaluate_rules-skip policy rule rules subject action h = rw h refl

abbrev pub gated : List Capability → SecurityAction → Bool
gated capabilities action = elim action.capability [
  | none ↦ false
  | some c ↦ contains capabilities c
]

abbrev pub gate_result : SecurityPolicy → SecurityAction → PolicyResult
gate_result policy action =
    result PolicyDecision.require_approval "This sensitive action requires human approval."
      ("security.approval." <> elim action.capability [ none ↦ "" | some c ↦ value c ]) action
      (assess policy.risk_classifier action)

matches-gate :
    (c : Capability) (subject : SecuritySubject) (action : SecurityAction)
    → matches (gate c) subject action ≡ elim action.capability [ none ↦ false | some d ↦ c == d ]
unfolding matches gate
matches-gate c subject action = refl

apply_rule-gate :
    (policy : SecurityPolicy) (c : Capability) (subject : SecuritySubject) (action : SecurityAction)
    → action.capability ≡ some c
    → apply_rule policy (gate c) subject action ≡ some (gate_result policy action)
unfolding apply_rule gate
apply_rule-gate policy c subject action e = rw e refl

pub evaluate_rules-gates :
    (policy : SecurityPolicy) (capabilities : List Capability) (rules : List PermissionRule)
    (subject : SecuritySubject) (action : SecurityAction)
    → evaluate_rules policy (map gate capabilities ++ rules) subject action ≡ (
        if gated capabilities action
        then some (gate_result policy action)
        else evaluate_rules policy rules subject action)
unfolding evaluate_rules
evaluate_rules-gates policy [] rules subject action = ground arith
evaluate_rules-gates policy (c ∷ cs) rules subject action = elim (Option-cases action.capability) [
  | inl e ↦
      ground
        (arith, matches-gate c subject action, evaluate_rules-gates policy cs rules subject action)
  | inr (d, e) ↦ ground (
    arith,
    matches-gate c subject action,
    apply_rule-gate policy c subject action,
    evaluate_rules-gates policy cs rules subject action,
    capability_eq.beq_iff c d,
  )
]

-- A gated capability needs approval, from any agent, under any rules and in any environment; an
-- action of another capability is decided as without the gates.
pub evaluate-with_human_approval_gates :
    (policy : SecurityPolicy) (capabilities : List Capability) (subject : SecuritySubject)
    (action : SecurityAction)
    → evaluate (with_human_approval_gates policy capabilities) subject action ≡ (
        if gated capabilities action
        then some (gate_result policy action)
        else evaluate policy subject action)
unfolding evaluate with_human_approval_gates
evaluate-with_human_approval_gates policy capabilities subject action =
    evaluate_rules-rules policy _ (map gate capabilities ++ policy.rules) subject action
    ∙ evaluate_rules-gates policy capabilities policy.rules subject action

assess-production :
    (action : SecurityAction)
    → (assess SecurityEnvironment.production action).level ≡ RiskLevel.critical
unfolding assess is_production_target
assess-production action = ground arith

-- The evaluation returns a result, and the result is not a permission.
abbrev pub is_refused : Option PolicyResult → Bool
is_refused none = false
is_refused (some r) = not (is_allow r.decision)

module _ (policy : SecurityPolicy) (subject : SecuritySubject) (action : SecurityAction)
    {c : Capability} (env : policy.risk_classifier ≡ SecurityEnvironment.production)
    (table : policy.risk_decisions RiskLevel.critical ≡ some PolicyDecision.deny)
    (known : action.capability ≡ some c) where
  level-production : (assess policy.risk_classifier action).level ≡ RiskLevel.critical
  level-production = rw env (assess-production action)

  apply_rule-production :
      (rule : PermissionRule) → is_refused (apply_rule policy rule subject action) ≡ true
  unfolding apply_rule
  apply_rule-production rule =
      ground (arith, level-production, ap policy.risk_decisions level-production)

  evaluate_rules-production :
      (rules : List PermissionRule) → is_refused (evaluate_rules policy rules subject action) ≡ true
  unfolding evaluate_rules default_result
  evaluate_rules-production [] = ground arith
  evaluate_rules-production (rule ∷ rules) =
      ground (arith, apply_rule-production rule, evaluate_rules-production rules)

  -- In a production environment whose risk table denies critical risks, no rule makes the policy
  -- allow an action of a known capability: the evaluation returns a refusal.
  pub evaluate-production : is_refused (evaluate policy subject action) ≡ true
  unfolding evaluate
  evaluate-production = evaluate_rules-production policy.rules
