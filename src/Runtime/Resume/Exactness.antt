-- ===== src/Runtime/Resume/Exactness.antt =====
-- What a human approval lets through: resume_approval of backend/app/runtime/runner.py.
use mathlib.Core.Bool.{false≢true}
use mathlib.Core.Option.{some-injective}
use autonomous_agent_runtime.Security.Approvals.{Item}
use autonomous_agent_runtime.Security.Contracts.{SecurityAction, PolicyResult}
use autonomous_agent_runtime.Tools.Types.{ToolResult}
use autonomous_agent_runtime.Tools.Executor.{decided, evaluate_policy}
use autonomous_agent_runtime.Runtime.Actions.Keeps.{Preflight-cases}
use autonomous_agent_runtime.Runtime.Control.{subject}
use autonomous_agent_runtime.Runtime.Resume.{approved_result, is_validated}
use autonomous_agent_runtime.Runtime.State.{AgentState}
use autonomous_agent_runtime.Runtime.World.{AgentRunner, Surroundings}
use autonomous_agent_runtime.Prelude.{
  String, ◌≡◌, refl, sym, ap, ◌∙◌, inl, inr, true, false, some, arith, Bool-cases, string_instance,
}

module _ (runner : AgentRunner) (around : Surroundings) where
  open runner use {delegation, tools, tool_policy, sanitizer, action_fingerprint}
  open delegation use {control}

  -- The action that is described now is the one that was approved.
  pub record IsExact (item : Item AgentState) : Type 0 where
    pub action : SecurityAction
    pub decision : PolicyResult
    pub described :
        evaluate_policy sanitizer.render tools tool_policy item.checkpoint.tool_name
          item.checkpoint.tool_arguments
          (subject control item.checkpoint.state)
        ≡ decided decision action
    pub requested : item.request.action_fingerprint ≡ item.checkpoint.action_fingerprint
    pub same :
        action_fingerprint
          (subject control item.checkpoint.state)
          action
          item.checkpoint.tool_arguments
        ≡ item.checkpoint.action_fingerprint

  -- An approved execution succeeds only if the tool's action, described anew from the stored
  -- arguments for the same subject, has the digest that the reviewer's request and the checkpoint
  -- carry.
  pub approved_result-IsExact :
      (id : String) (item : Item AgentState) (r : ToolResult)
      → approved_result runner around id item ≡ some r
      → r.success ≡ true
      → IsExact item
  unfolding approved_result is_validated
  approved_result-IsExact id item r h s =
      let saved = item.checkpoint in
      elim (Preflight-cases (
        evaluate_policy sanitizer.render tools tool_policy saved.tool_name saved.tool_arguments
          (subject control saved.state))) [
            | inl e ↦ ground (arith, rw (e, approved_result) at h)
            | inr (inl e) ↦ refused _ (rw (e, approved_result) at h) refl
            | inr (inr (decision, action, e)) ↦
                elim (Bool-cases (is_validated runner around item action)) [
                  | inr f ↦ refused _ (rw (e, f, approved_result) at h) refl
                  | inl f ↦ record {
                    action = action;
                    decision = decision;
                    described = e;
                    requested = (string_instance.beq_iff _ _).0 (ground (arith, f));
                    same = (string_instance.beq_iff _ _).0 (ground (arith, f));
                  }
                ]
          ]
    where
      refused : (x : ToolResult) → some x ≡ some r → x.success ≡ false → IsExact item
      refused x e f =
          absurd
            (false≢true (sym f ∙ ap (λ (y : ToolResult). y.success) (some-injective _ _ e) ∙ s))
