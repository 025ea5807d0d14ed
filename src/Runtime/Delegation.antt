-- ===== src/Runtime/Delegation.antt =====
-- DelegationStep of backend/app/runtime/steps/delegation_step.py. `none` is an exception that ends
-- the run. The run of a specialist, the digest of a delegation and the text of a validation error
-- are parameters.
pub mod Keeps
pub mod Names
use autonomous_agent_runtime.Runtime.Requests.{
  delegation_request, consecutive_count, or_unknown, is_absent, text_or_empty,
  record_delegation_observation, account_delegation_results, execute_parallel,
}
use autonomous_agent_runtime.Contracts.Actions.{
  AgentAction, ParallelDelegationItem, strip, is_blank,
}
use autonomous_agent_runtime.Security.Contracts.{Capability}
use autonomous_agent_runtime.Security.Permissions.{security_resource}
use autonomous_agent_runtime.Security.Policy.{SecurityPolicy, evaluate, is_allow}
use autonomous_agent_runtime.Runtime.Control.{RunControl, subject, record_recoverable_error}
use autonomous_agent_runtime.Runtime.State.{
  AgentState, DelegationRequest, SubagentResult, ParallelDelegationResult, DelegationStatus,
  ObservationContent, append_observation, all_succeeded,
}
use autonomous_agent_runtime.Prelude.{
  ℕ, ◌+◌, ◌/◌, String, ◌<>◌, Bool, true, false, ◌&&◌, ◌||◌, not, Option, none, some, List, [], ◌∷◌,
  ◌++◌, ltb, leb, if◌then◌else◌, length, string_instance, ◌==◌, nat_instance,
}

-- What the step is built with. An absent registry or executor is `none`.
pub record DelegationStep : Type 0 where
  pub control : RunControl
  pub agent_registry : Option (String → Bool)
  pub executor : Option (DelegationRequest → Option SubagentResult)
  pub parallel_executor : Option (ℕ × (DelegationRequest → Option SubagentResult))
  pub security_policy : SecurityPolicy
  pub enabled : Bool
  pub delegation_fingerprint : String → String → Option String → String
  pub validation_message : AgentState → String
  pub decimal : ℕ → String

module _ (step : DelegationStep) where
  open step use {control, security_policy}

  -- A rejected delegation: an observation and a recoverable error.
  abbrev pub reject : DelegationStatus → String → String → AgentState → AgentState
  reject status target_agent error state =
      record_recoverable_error control
        (record_delegation_observation status target_agent error state)

  -- The outer `none` is an exception of the policy or of the resource's bounds.
  unfoldable pub delegation_allowed : AgentState → String → Option Bool
  delegation_allowed state target_agent =
      elim (security_resource "specialist_agent" (or_unknown target_agent)) [
        | none ↦ none
        | some resource ↦
            elim (evaluate security_policy (subject control state) (record {
              capability = some Capability.agent_delegate;
              resource = resource;
              tool_name = none;
            })) [ none ↦ none | some result ↦ some (is_allow result.decision) ]
      ]

  unfoldable pub record_delegation_limit : String → ℕ → ℕ → AgentState → AgentState
  record_delegation_limit limit_type current_value configured_limit =
      reject DelegationStatus.invalid
        (if limit_type == "max_parallel_subagents" then "parallel" else "delegation")
        ("Delegation limit reached: "
          <> limit_type
          <> " ("
          <> step.decimal current_value
          <> "/"
          <> step.decimal configured_limit
          <> ").")

  -- A request that is valid, for an agent that the registry knows.
  unfoldable pub accepted_request : AgentState → AgentAction → Option DelegationRequest
  accepted_request state action =
      elim (delegation_request state (text_or_empty action.agent_name)
        (text_or_empty action.objective) action.context action.constraints action.expected_output) [
          | none ↦ none
          | some request ↦ elim step.agent_registry [
            | none ↦ none
            | some known ↦ if step.enabled && known request.target_agent then some request else none
          ]
        ]

  -- The part of `handle` that follows the validation.
  unfoldable pub run_request : DelegationRequest → String → AgentState → Option AgentState
  run_request request fingerprint state =
      let requested = record state {
        delegation_requests = state.delegation_requests ++ request ∷ [];
        recent_delegation_fingerprints = state.recent_delegation_fingerprints ++ fingerprint ∷ [];
      } in
      elim step.executor [
        | none ↦ some (
            reject DelegationStatus.unavailable request.target_agent
              "Delegation was accepted, but child-agent execution is not available because no executor is configured. Continue the task yourself or choose another action."
              requested)
        | some execute ↦ elim (execute request) [
          | none ↦ none
          | some result ↦
              let accounted =
                account_delegation_results (result ∷ [])
                  (append_observation "subagent" (ObservationContent.subagent result) requested) in
              some
                (if result.success then accounted else record_recoverable_error control accounted)
        ]
      ]

  unfoldable pub handle : AgentState → AgentAction → Option AgentState
  handle state action =
      let target_agent = text_or_empty action.agent_name in
      let objective = text_or_empty action.objective in
      let limits = control.limits in
      if leb limits.max_agent_depth control.agent_depth
      then some (
          record_delegation_limit "max_agent_depth" control.agent_depth limits.max_agent_depth
            state)
      else elim (delegation_allowed state target_agent) [
        | none ↦ none
        | some false ↦ some (
            reject DelegationStatus.invalid target_agent
              "Delegation is not permitted by runtime security policy." state)
        | some true ↦
            if leb limits.max_delegations_per_run (length state.delegation_requests)
            then some (
                record_delegation_limit "max_delegations_per_run" (length state.delegation_requests)
                  limits.max_delegations_per_run state)
            else let fingerprint =
                step.delegation_fingerprint target_agent objective action.context in
              if leb limits.max_consecutive_duplicate_actions
                (consecutive_count state.recent_delegation_fingerprints fingerprint)
              then some (
                  reject DelegationStatus.invalid target_agent
                    "This delegation was repeatedly requested. Use the existing result, change strategy, or finish."
                    state)
              else elim (accepted_request state action) [
                | none ↦ some (
                    reject DelegationStatus.invalid target_agent
                      ("Delegation request was rejected: " <> step.validation_message state) state)
                | some request ↦ run_request request fingerprint state
              ]
      ]

  unfoldable pub accepted_requests :
      AgentState → List ParallelDelegationItem → Option (List DelegationRequest)
  accepted_requests state [] = some []
  accepted_requests state (item ∷ rest) =
      elim (delegation_request state item.agent_name item.objective item.context item.constraints
        item.expected_output) [
          | none ↦ none
          | some request ↦ elim (accepted_requests state rest) [
            | none ↦ none
            | some requests ↦ elim step.agent_registry [
              | none ↦ none
              | some known ↦ if known request.target_agent then some (request ∷ requests) else none
            ]
          ]
        ]

  -- The executor's part of `handle_parallel`, once the batch is recorded.
  unfoldable pub run_batch :
      Option (ℕ × (DelegationRequest → Option SubagentResult))
      → List DelegationRequest
      → AgentState
      → Option AgentState
  run_batch none requests state = some (
      reject DelegationStatus.unavailable "parallel"
        "Parallel delegation was accepted, but no parallel executor is configured." state)
  run_batch (some (limit, execute)) requests state =
      elim (execute_parallel execute limit requests) [
        | none ↦ none
        | some result ↦
            let accounted = account_delegation_results result.results (
              append_observation "parallel_subagents" (ObservationContent.parallel result) state) in
            some (
              if all_succeeded result
              then accounted
              else record_recoverable_error control accounted)
      ]

  -- The part of `handle_parallel` that follows the validation.
  unfoldable pub run_requests : List DelegationRequest → AgentState → Option AgentState
  run_requests requests state = run_batch step.parallel_executor requests (record state {
    delegation_requests = state.delegation_requests ++ requests;
    parallel_delegation_batch_count = state.parallel_delegation_batch_count + 1;
  })

  unfoldable pub handle_parallel : AgentState → AgentAction → Option AgentState
  handle_parallel state action =
      let limits = control.limits in
      let size = length action.delegations in
      let total = length state.delegation_requests + size in
      if leb limits.max_agent_depth control.agent_depth
      then some (
          record_delegation_limit "max_agent_depth" control.agent_depth limits.max_agent_depth
            state)
      else elim (delegation_allowed state "parallel") [
        | none ↦ none
        | some false ↦ some (
            reject DelegationStatus.invalid "parallel"
              "Delegation is not permitted by runtime security policy." state)
        | some true ↦
            if not step.enabled || is_absent step.agent_registry
            then some (
                reject DelegationStatus.invalid "parallel"
                  "Parallel delegation is not available for this agent run." state)
            else if ltb limits.max_parallel_subagents size
            then some (
                record_delegation_limit "max_parallel_subagents" size limits.max_parallel_subagents
                  state)
            else if ltb limits.max_delegations_per_run total
            then some (
                record_delegation_limit "max_delegations_per_run" total
                  limits.max_delegations_per_run state)
            else elim (accepted_requests state action.delegations) [
              | none ↦ some (
                  reject DelegationStatus.invalid "parallel"
                    ("Delegation request was rejected: " <> step.validation_message state) state)
              | some requests ↦ run_requests requests state
            ]
      ]
