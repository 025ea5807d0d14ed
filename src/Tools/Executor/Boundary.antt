-- ===== src/Tools/Executor/Boundary.antt =====
-- What crosses the tool boundary.
use mathlib.Core.Bool.{false≢true}
use mathlib.Core.Option.{some-injective}
use autonomous_agent_runtime.Contracts.Actions.{strip, is_blank}
use autonomous_agent_runtime.Prelude.Json.{Json, Fields, str, get}
use autonomous_agent_runtime.Security.Contracts.{
  PolicyDecision, SecuritySubject, SecurityAction, PolicyResult, capability_eq, SecurityEnvironment,
  Capability,
}
use autonomous_agent_runtime.Security.Policy.{
  evaluate, primary, SecurityPolicy, is_allow, get_security_policy, gated_capabilities, primary,
}
use autonomous_agent_runtime.Security.Policy.Gates.{
  gated, gate_result, evaluate-with_human_approval_gates,
}
use autonomous_agent_runtime.Security.Permissions.{
  security_resource, resource_for_tool, capability_for_tool,
}
use autonomous_agent_runtime.Tools.Types.{ToolResult, Tool, get_tool}
use autonomous_agent_runtime.Tools.Arguments.{validate_arguments}
use autonomous_agent_runtime.Tools.Executor.{
  Sanitizer, ToolOutcome, output, input_error, execution_error, rejected_arguments, failed,
  evaluate_policy, raised, security_action, policy_or_deny, failure, policy_failure, authorize,
  run_tool, execute_request, execute,
}
use autonomous_agent_runtime.Prelude.{
  ◌<◌, String, ◌≡◌, refl, sym, ap, ◌∙◌, ◌≢◌, ◌⊎◌, inl, inr, true, false, none, some, List, [], ◌∷◌,
  arith, Bool-cases, Option-cases, length, contains, string_instance, nat_instance, codes,
}

module _ (sanitizer : Sanitizer) where
  open sanitizer use {render}

  -- What stands behind a successful result.
  pub record IsPermitted (tools : List Tool) (policy : SecurityPolicy) (tool_name : String)
      (arguments : Fields) (subject : SecuritySubject) (outcome : ToolOutcome) : Type 0 where
    pub tool : Tool
    pub action : SecurityAction
    pub value : Json
    pub registered : get_tool tool_name tools ≡ some tool
    pub valid : validate_arguments tool arguments ≡ none
    pub described : security_action render tool arguments ≡ some action
    pub allowed : (policy_or_deny policy subject action).decision ≡ PolicyDecision.allow
    pub produced : outcome ≡ output value

  success-run_tool :
      (tool : Tool) (arguments : Fields) (outcome : ToolOutcome)
      → (run_tool sanitizer tool arguments outcome).success ≡ true
      → (v : Json) × (outcome ≡ output v)
  unfolding run_tool failure
  success-run_tool tool arguments (output v) h = (v, refl)
  success-run_tool tool arguments (input_error m) h = cc
  success-run_tool tool arguments (execution_error m c) h = cc
  success-run_tool tool arguments rejected_arguments h = cc
  success-run_tool tool arguments failed h = cc

  success-policy_failure :
      (name : String) (r : PolicyResult) → (policy_failure sanitizer name r).success ≡ false
  unfolding policy_failure
  success-policy_failure name r = refl

  success-failure :
      (error name category : String) → (failure sanitizer error name category).success ≡ false
  unfolding failure
  success-failure error name category = refl

  is_allow-eq : (d : PolicyDecision) → is_allow d ≡ true → d ≡ PolicyDecision.allow
  is_allow-eq d h = ground arith

  module _ (tools : List Tool) (policy : SecurityPolicy) (tool_name : String) (arguments : Fields)
      (subject : SecuritySubject) (outcome : ToolOutcome) (r : ToolResult) where
    -- A tool request without an approval succeeds only if the tool is registered, its arguments
    -- are valid, the policy allows exactly this action for this subject, and the tool itself
    -- produced an output.
    pub execute-IsPermitted :
        execute sanitizer tools policy tool_name arguments subject outcome ≡ some r
        → r.success ≡ true
        → IsPermitted tools policy tool_name arguments subject outcome
    unfolding execute execute_request authorize
    execute-IsPermitted h s = elim (Bool-cases (is_blank (strip tool_name))) [
      | inl b ↦ refused _ (rw b at h) (success-failure _ _ _)
      | inr b ↦ elim (Option-cases (get_tool tool_name tools)) [
        | inl none_found ↦ refused _ (rw (b, none_found) at h) (success-failure _ _ _)
        | inr (tool, found) ↦ elim (Option-cases (validate_arguments tool arguments)) [
          | inr (message, invalid) ↦ refused _ (rw (b, found, invalid) at h) (success-failure _ _ _)
          | inl valid ↦ elim (Option-cases (security_action render tool arguments)) [
            | inl undescribed ↦ ground (arith, rw (b, found, valid, undescribed) at h)
            | inr (action, described) ↦
                let decision = policy_or_deny policy subject action in
                elim (Bool-cases (is_allow decision.decision)) [
                  | inr denied ↦
                      refused _ (rw (b, found, valid, described, denied) at h)
                        (success-policy_failure _ _)
                  | inl permitted ↦
                      let ran =
                        some-injective _ _ (rw (b, found, valid, described, permitted) at h) in
                      let made =
                        success-run_tool tool arguments outcome
                          (ap (λ (x : ToolResult). x.success) ran ∙ s) in
                      record {
                        tool = tool;
                        action = action;
                        value = made.0;
                        registered = found;
                        valid = valid;
                        described = described;
                        allowed = is_allow-eq decision.decision permitted;
                        produced = made.1;
                      }
                ]
          ]
        ]
      ]
    ]
      where
        refused :
            (x : ToolResult)
            → some x ≡ some r
            → x.success ≡ false
            → IsPermitted tools policy tool_name arguments subject outcome
        refused x e f =
            absurd
              (false≢true (sym f ∙ ap (λ (y : ToolResult). y.success) (some-injective _ _ e) ∙ s))

get_tool-name :
    (name : String) (tools : List Tool) (tool : Tool)
    → get_tool name tools ≡ some tool
    → tool.name ≡ name
unfolding get_tool
get_tool-name name [] tool h = ground arith
get_tool-name name (first ∷ tools) tool h =
    ground (arith, string_instance.beq_iff first.name name, get_tool-name name tools tool)

security_action-capability :
    (render : Json → String) (tool : Tool) (arguments : Fields) (action : SecurityAction)
    → security_action render tool arguments ≡ some action
    → action.capability ≡ capability_for_tool tool.name
unfolding security_action
security_action-capability render tool arguments action h =
    elim (Option-cases (resource_for_tool render tool.name arguments)) [
      | inl e ↦ ground (arith, e)
      | inr (resource, e) ↦
          ap (λ (a : SecurityAction). a.capability)
            (sym (some-injective _ _ (rw (e, security_action) at h)))
    ]

policy_or_deny-some :
    (policy : SecurityPolicy) (subject : SecuritySubject) (action : SecurityAction)
    (r : PolicyResult)
    → evaluate policy subject action ≡ some r
    → policy_or_deny policy subject action ≡ r
unfolding policy_or_deny
policy_or_deny-some policy subject action r e = rw (e, policy_or_deny) refl

gated-ne-allow :
    (environment : SecurityEnvironment) (subject : SecuritySubject) (action : SecurityAction)
    → gated gated_capabilities action ≡ true
    → (policy_or_deny (get_security_policy environment) subject action).decision
      ≢ PolicyDecision.allow
unfolding get_security_policy
gated-ne-allow environment subject action g =
    let decided =
      policy_or_deny-some (get_security_policy environment) subject action
        (gate_result (primary environment) action)
        (rw g at (
          evaluate-with_human_approval_gates (primary environment) gated_capabilities subject
            action)) in
    rw decided (λ e. ground arith)

-- Under the policy that the application builds, in every environment and for every agent, a call
-- that carries no approval never succeeds for a tool whose capability needs one.
pub execute-gated :
    (sanitizer : Sanitizer) (tools : List Tool) (environment : SecurityEnvironment)
    (tool_name : String) (arguments : Fields) (subject : SecuritySubject) (outcome : ToolOutcome)
    (r : ToolResult) (c : Capability)
    → capability_for_tool tool_name ≡ some c
    → contains gated_capabilities c ≡ true
    → execute sanitizer tools (get_security_policy environment) tool_name arguments subject outcome
      ≡ some r
    → r.success ≡ false
execute-gated sanitizer tools environment tool_name arguments subject outcome r c uses g h =
    elim (Bool-cases r.success) [
      | inr f ↦ f
      | inl s ↦
          let p =
            execute-IsPermitted sanitizer tools (get_security_policy environment) tool_name
              arguments subject outcome r h s in
          let capability =
            security_action-capability sanitizer.render p.tool arguments p.action p.described
            ∙ ap capability_for_tool (get_tool-name tool_name tools p.tool p.registered)
            ∙ uses in
          absurd (gated-ne-allow environment subject p.action (rw (capability, gated) g) p.allowed)
    ]

pub security_resource-none :
    (kind identifier : String)
    → (length (codes identifier) ≡ 0) ⊎ (512 < length (codes identifier))
    → security_resource kind identifier ≡ none
unfolding security_resource
security_resource-none kind identifier (inl h) = ground (arith, h)
security_resource-none kind identifier (inr h) = ground (arith, h)

undescribed_command :
    (render : Json → String) (tool : Tool) (arguments : Fields) (command : String)
    → tool.name ≡ "run_command"
    → get "command" arguments ≡ some (str command)
    → (length (codes command) ≡ 0) ⊎ (512 < length (codes command))
    → security_action render tool arguments ≡ none
unfolding security_action resource_for_tool
undescribed_command render tool arguments command name given size =
    rw
      (
        name,
        security_action,
        resource_for_tool,
        given,
        security_resource-none "command" command size,
      )
      refl

-- A defect: a registered `run_command` whose arguments are valid is not refused but ends in an
-- exception, before any policy is asked, whenever the command is empty or longer than 512.
pub evaluate_policy-raises :
    (render : Json → String) (tools : List Tool) (policy : SecurityPolicy) (arguments : Fields)
    (subject : SecuritySubject) (tool : Tool) (command : String)
    → get_tool "run_command" tools ≡ some tool
    → validate_arguments tool arguments ≡ none
    → get "command" arguments ≡ some (str command)
    → (length (codes command) ≡ 0) ⊎ (512 < length (codes command))
    → evaluate_policy render tools policy "run_command" arguments subject ≡ raised
unfolding evaluate_policy
evaluate_policy-raises render tools policy arguments subject tool command found valid given size =
    let undescribed =
      undescribed_command render tool arguments command
        (get_tool-name "run_command" tools tool found) given size in
    rw (found, valid, undescribed, evaluate_policy) refl
