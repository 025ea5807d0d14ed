-- ===== src/Security/Policy/Grants.antt =====
-- What a specialist definition grants.
use autonomous_agent_runtime.Security.Contracts.{
  PolicyDecision, Capability, SecurityEnvironment, SecuritySubject, SecurityAction, PolicyResult,
  capability_eq,
}
use autonomous_agent_runtime.Security.Permissions.{
  capability_for_tool, capabilities_for_tools, add_capability,
}
use autonomous_agent_runtime.Security.Policy.{
  PermissionRule, SecurityPolicy, AgentDefinition, gate, matches, evaluate_rules, evaluate,
  default_result, primary, specialist_rule, with_specialist, with_human_approval_gates,
  gated_capabilities, get_security_policy,
}
use autonomous_agent_runtime.Security.Policy.Gates.{
  evaluate_rules-gates, gated, gate_result, evaluate_rules-skip,
}
use autonomous_agent_runtime.Prelude.{
  String, ◌≡◌, refl, sym, ap, ◌∙◌, ◌≢◌, inl, inr, Bool, true, false, ◌||◌, Option, none, some, List,
  [], ◌∷◌, ◌++◌, map, arith, Bool-cases, Option-cases, any, contains, contains-head, contains-cons,
  ◌==◌, nat_instance, string_instance,
}

-- `capability_for_tool(name) == c`
abbrev pub grants : Capability → String → Bool
grants c name = elim (capability_for_tool name) [ none ↦ false | some d ↦ d == c ]

contains-add_capability :
    (o : Option Capability) (set : List Capability) (c : Capability)
    → contains (add_capability o set) c
      ≡ (elim o [ none ↦ false | some d ↦ d == c ]) || contains set c
contains-add_capability none set c = refl
contains-add_capability (some d) set c =
    ground (arith, capability_eq.beq_iff d c, ap (contains set) {x = d} {y = c})

-- The capabilities of a list of tools are those that one of the tools uses.
contains-capabilities_for_tools :
    (tools : List String) (c : Capability)
    → contains (capabilities_for_tools tools) c ≡ any (grants c) tools
unfolding capabilities_for_tools
contains-capabilities_for_tools [] c = refl
contains-capabilities_for_tools (name ∷ names) c =
    contains-add_capability (capability_for_tool name) (capabilities_for_tools names) c
    ∙ ap (λ b. grants c name || b) (contains-capabilities_for_tools names c)

-- What an allowed specialist action satisfies.
pub record IsGranted (definition : AgentDefinition) (subject : SecuritySubject)
    (action : SecurityAction) : Type 0 where
  pub capability : Capability
  pub requested : action.capability ≡ some capability
  pub granted : any (grants capability) definition.allowed_tools ≡ true
  pub named : definition.name ≡ subject.agent_name
  pub ungated : contains gated_capabilities capability ≡ false

module _ (definition : AgentDefinition) (subject : SecuritySubject) (action : SecurityAction) where
  abbrev Requested : List Capability → Type 0
  Requested capabilities =
      (c : Capability) × (action.capability ≡ some c)
      × (contains capabilities c ≡ true)
      × (definition.name ≡ subject.agent_name)

  matches-specialist_rule :
      (c : Capability)
      → matches (specialist_rule definition c) subject action ≡ true
      → (action.capability ≡ some c) × (definition.name ≡ subject.agent_name)
  unfolding matches specialist_rule
  matches-specialist_rule c h = elim (Option-cases action.capability) [
    | inl e ↦ ground (arith, e)
    | inr (d, e) ↦ (
      ground (arith, e, capability_eq.beq_iff c d),
      ground (arith, e, string_instance.beq_iff definition.name subject.agent_name),
    )
  ]

  default_result-ne-allow :
      (policy : SecurityPolicy) → (default_result policy action).decision ≢ PolicyDecision.allow
  unfolding default_result
  default_result-ne-allow policy h = ground arith

  nothing_granted :
      (policy : SecurityPolicy) (r : PolicyResult)
      → r.decision ≡ PolicyDecision.allow
      → evaluate_rules policy [] subject action ≢ some r
  unfolding evaluate_rules
  nothing_granted policy r allowed h = ground (arith, default_result-ne-allow policy)

  specialist_rules :
      (policy : SecurityPolicy) (r : PolicyResult)
      → r.decision ≡ PolicyDecision.allow
      → (capabilities : List Capability)
      → evaluate_rules policy (map (specialist_rule definition) capabilities) subject action
        ≡ some r
      → Requested capabilities
  specialist_rules policy r allowed [] h = absurd (nothing_granted policy r allowed h)
  specialist_rules policy r allowed (c ∷ cs) h =
      elim (Bool-cases (matches (specialist_rule definition c) subject action)) [
        | inl m ↦ let p = matches-specialist_rule c m in (c, p.0, contains-head c cs, p.1)
        | inr m ↦
            let skip =
              evaluate_rules-skip policy (specialist_rule definition c)
                (map (specialist_rule definition) cs) subject action m in
            let q = specialist_rules policy r allowed cs (sym skip ∙ h) in
            (q.0, q.1, contains-cons c q.0 cs q.2, q.3)
      ]

  primary_rules :
      (policy : SecurityPolicy) (environment : SecurityEnvironment) (rules : List PermissionRule)
      → subject.agent_type ≡ "specialist"
      → evaluate_rules policy ((primary environment).rules ++ rules) subject action
        ≡ evaluate_rules policy rules subject action
  unfolding evaluate_rules matches primary
  primary_rules policy environment rules kind = rw kind refl

  gates_passed :
      (policy : SecurityPolicy) (rules : List PermissionRule) (r : PolicyResult)
      → evaluate_rules policy (map gate gated_capabilities ++ rules) subject action ≡ some r
      → r.decision ≡ PolicyDecision.allow
      → (gated gated_capabilities action ≡ false)
        × (evaluate_rules policy rules subject action ≡ some r)
  gates_passed policy rules r h allowed =
      let decided = sym (evaluate_rules-gates policy gated_capabilities rules subject action) ∙ h in
      elim (Bool-cases (gated gated_capabilities action)) [
        | inl g ↦ absurd (not_gate_result (rw g at decided))
        | inr g ↦ (g, rw g at decided)
      ]
    where
      not_gate_result : some (gate_result policy action) ≡ some r → ⊥
      not_gate_result e = ground arith

  -- Under the policy that the application builds, with the capabilities of a specialist
  -- definition added, a specialist is allowed an action only if the action's capability is that of
  -- a tool which the definition allows, is not one that needs approval, and the definition names
  -- this specialist.
  pub specialist-IsGranted :
      (environment : SecurityEnvironment) (r : PolicyResult)
      → subject.agent_type ≡ "specialist"
      → evaluate (with_specialist (get_security_policy environment) definition) subject action
        ≡ some r
      → r.decision ≡ PolicyDecision.allow
      → IsGranted definition subject action
  unfolding evaluate with_specialist get_security_policy with_human_approval_gates
  specialist-IsGranted environment r kind h allowed =
      let policy = with_specialist (get_security_policy environment) definition in
      let granted = capabilities_for_tools definition.allowed_tools in
      let specialist = map (specialist_rule definition) granted in
      let passed = gates_passed policy ((primary environment).rules ++ specialist) r h allowed in
      let q =
        specialist_rules policy r allowed granted
          (sym (primary_rules policy environment specialist kind) ∙ passed.1) in
      record {
        capability = q.0;
        requested = q.1;
        granted = sym (contains-capabilities_for_tools definition.allowed_tools q.0) ∙ q.2;
        named = q.3;
        ungated = ground (arith, q.1, passed.0);
      }
