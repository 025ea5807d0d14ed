-- ===== src/Runtime/Delegation/Names.antt =====
-- A specialist's name at the bounds of the policy's resource: steps/delegation_step.py.
use autonomous_agent_runtime.Contracts.Actions.{AgentAction}
use autonomous_agent_runtime.Runtime.Requests.{text_or_empty}
use autonomous_agent_runtime.Runtime.Delegation.{DelegationStep, handle, delegation_allowed}
use autonomous_agent_runtime.Runtime.State.{AgentState}
use autonomous_agent_runtime.Tools.Executor.Boundary.{security_resource-none}
use autonomous_agent_runtime.Prelude.{
  ◌<◌, String, ◌≡◌, refl, ap, inr, false, none, arith, leb, length, string_instance, ◌==◌,
  nat_instance, ==-ne, codes,
}

long-ne : (name : String) → 512 < length (codes name) → (name == "") ≡ false
long-ne name h = ==-ne name "" (λ e. omega (arith, h, ap (λ s. length (codes s)) e))

delegation_allowed-none :
    (step : DelegationStep) (s : AgentState) (name : String)
    → 512 < length (codes name)
    → delegation_allowed step s name ≡ none
unfolding delegation_allowed
delegation_allowed-none step s name h =
    rw (long-ne name h, security_resource-none "specialist_agent" name (inr h), delegation_allowed)
      refl

-- A defect: a delegation to a name of more than 512 characters is not rejected as a recoverable
-- error but ends the run with an exception, in every run that may delegate at its depth.
pub handle-raises :
    (step : DelegationStep) (s : AgentState) (action : AgentAction)
    → leb step.control.limits.max_agent_depth step.control.agent_depth ≡ false
    → 512 < length (codes (text_or_empty action.agent_name))
    → handle step s action ≡ none
unfolding handle
handle-raises step s action shallow h =
    rw (shallow, delegation_allowed-none step s (text_or_empty action.agent_name) h, handle) refl
