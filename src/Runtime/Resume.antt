-- ===== src/Runtime/Resume.antt =====
-- resume_approval and resume_rejection of AgentRunner in backend/app/runtime/runner.py: a paused run
-- goes on from the checkpoint of its approval. The times of the claim and of the completion are
-- arguments.
pub mod Exactness
pub mod Continues
use autonomous_agent_runtime.Prelude.Json.{str, end, field}
use autonomous_agent_runtime.Security.Approvals.{
  ApprovalStatus, Item, ok, err, claim, checkpoint, complete_execution,
}
use autonomous_agent_runtime.Security.Contracts.{SecurityAction}
use autonomous_agent_runtime.Tools.Types.{ToolResult}
use autonomous_agent_runtime.Tools.Executor.{
  not_applicable, decided, raised, evaluate_policy, execute_approved,
}
use autonomous_agent_runtime.Runtime.Actions.{record_observation, runtime_result}
use autonomous_agent_runtime.Runtime.Control.{subject}
use autonomous_agent_runtime.Runtime.Runner.{RunResult, finished, raised_error, out_of_fuel, run}
use autonomous_agent_runtime.Runtime.State.{AgentState, RunStatus}
use autonomous_agent_runtime.Runtime.World.{AgentRunner, Surroundings}
use autonomous_agent_runtime.Prelude.{
  ℕ, ◌+◌, String, Bool, true, ◌&&◌, not, Option, none, some, List, if◌then◌else◌, string_instance,
  ◌==◌, nat_instance,
}

-- What a resumption returns: the stored state of an approval that cannot be claimed, if there is
-- one, or the result of the continued run.
pub data Resumption : Type 0 where
  unclaimed : Option AgentState → Resumption
  claim_failed : Resumption
  continued : RunResult → Resumption

module _ (runner : AgentRunner) (around : Surroundings) where
  open runner use {delegation, tools, tool_policy, sanitizer, action_fingerprint}
  open delegation use {control}

  -- The digests of the request, of the checkpoint and of the action as it is described now.
  unfoldable pub is_validated : Item AgentState → SecurityAction → Bool
  is_validated item action =
      let saved = item.checkpoint in
      item.request.action_fingerprint == saved.action_fingerprint
      && action_fingerprint (subject control saved.state) action saved.tool_arguments
        == saved.action_fingerprint

  abbrev pub invalid_approval : String → Item AgentState → ToolResult
  invalid_approval id item =
      runtime_result "Approved action could not be validated for execution."
        (field "tool_name" (str item.checkpoint.tool_name) (field "approval_id" (str id) end))

  -- The approved action's result; `none` is an exception. The runner holds the valid token.
  unfoldable pub approved_result : String → Item AgentState → Option ToolResult
  approved_result id item =
      let saved = item.checkpoint in
      let who = subject control saved.state in
      elim (evaluate_policy sanitizer.render tools tool_policy saved.tool_name saved.tool_arguments
        who) [
          | raised ↦ none
          | not_applicable ↦ some (invalid_approval id item)
          | decided policy_result action ↦
              if is_validated item action
              then execute_approved sanitizer tools tool_policy saved.tool_name saved.tool_arguments
                  who (around.tool_outcome saved.state.iteration_count) true
              else some (invalid_approval id item)
        ]

  -- The run goes on from the state of the checkpoint, and its final state is stored.
  unfoldable pub continue_run : ℕ → String → AgentState → List (Item AgentState) → Resumption
  continue_run now id state store =
      elim (run runner around state.goal
        (record { state = record state { status = RunStatus.running }; approvals = some store })) [
          | raised_error ↦ continued raised_error
          | out_of_fuel ↦ continued out_of_fuel
          | finished world ↦ elim world.approvals [
            | none ↦ continued (finished world)
            | some later ↦
                let completed = complete_execution now id world.state later in
                elim completed.0 [
                  | err _ ↦ continued raised_error
                  | ok _ ↦ continued (finished (record world { approvals = some completed.1 }))
                ]
          ]
        ]

  abbrev pub stored_state : String → List (Item AgentState) → Option AgentState
  stored_state id store = elim (checkpoint id store) [ none ↦ none | some saved ↦ some saved.state ]

  unfoldable pub resume_approval : ℕ → ℕ → String → List (Item AgentState) → Resumption
  resume_approval now completed_at id store =
      let claimed = claim ApprovalStatus.approved now id store in
      elim claimed.0 [
        | err _ ↦ claim_failed
        | ok none ↦ unclaimed (stored_state id claimed.1)
        | ok (some item) ↦ elim (approved_result id item) [
          | none ↦ continued raised_error
          | some r ↦
              continue_run completed_at id
                (record_observation item.checkpoint.tool_name r item.checkpoint.state) claimed.1
        ]
      ]

  abbrev pub rejected_result : String → Item AgentState → ToolResult
  rejected_result id item =
      runtime_result "The requested action was rejected by a human reviewer." (
        field "tool_name" (str item.checkpoint.tool_name)
          (field "approval_id" (str id) (field "security_decision" (str "rejected") end)))

  -- The error is counted here without a look at the limit.
  unfoldable pub resume_rejection : ℕ → ℕ → String → List (Item AgentState) → Resumption
  resume_rejection now completed_at id store =
      let claimed = claim ApprovalStatus.rejected now id store in
      elim claimed.0 [
        | err _ ↦ claim_failed
        | ok none ↦ unclaimed (stored_state id claimed.1)
        | ok (some item) ↦
            let state = item.checkpoint.state in
            continue_run completed_at id
              (record (record_observation item.checkpoint.tool_name (rejected_result id item)
                state) { recoverable_error_count = state.recoverable_error_count + 1 })
              claimed.1
      ]
