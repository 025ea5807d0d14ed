-- ===== src/Runtime/Requests.antt =====
-- The validation of DelegationRequest and ParallelSubagentExecutor of
-- backend/app/runtime/delegation.py, with the observations and counts of a delegation in
-- steps/delegation_step.py. The run of one specialist is a parameter.
use autonomous_agent_runtime.Contracts.Actions.{strip, is_blank}
use autonomous_agent_runtime.Runtime.State.{
  AgentState, DelegationRequest, SubagentResult, ParallelDelegationResult, DelegationStatus,
  ObservationContent, append_observation,
}
use autonomous_agent_runtime.Prelude.{
  ℕ, suc, ◌+◌, String, ◌<>◌, Bool, true, false, ◌&&◌, not, Option, none, some, List, [], ◌∷◌, ◌++◌,
  ltb, leb, if◌then◌else◌, length, filter, string_instance, ◌==◌, nat_instance, codes,
}

abbrev pub max_objective : ℕ
max_objective = 2000

abbrev pub within : ℕ → Option String → Bool
within limit none = true
within limit (some s) = leb (length (codes s)) limit

-- `none` is the ValidationError of a field that is blank or too long.
unfoldable pub delegation_request :
    AgentState
    → String
    → String
    → Option String
    → Option String
    → Option String
    → Option DelegationRequest
delegation_request state target_agent objective background constraints expected_output =
    let target = strip target_agent in
    let aim = strip objective in
    if not (is_blank state.run_id)
      && leb 1 state.iteration_count
      && not (is_blank target)
      && not (is_blank aim)
      && leb (length (codes objective)) max_objective
      && within 2000 background
      && within 1000 constraints
      && within 1000 expected_output
    then some (record {
      parent_run_id = state.run_id;
      parent_iteration = state.iteration_count;
      target_agent = target;
      objective = aim;
      context = record {
        objective = aim;
        background = background;
        constraints = constraints;
        expected_output = expected_output;
      };
      workspace_id = state.workspace_id;
    })
    else none

-- Consecutive equal entries at the end, counted from the last one.
abbrev pub trailing : String → List String → ℕ
trailing fingerprint [] = 0
trailing fingerprint (previous ∷ rest) =
    let n = trailing fingerprint rest in if previous == fingerprint then suc n else 0

abbrev pub reversed {ℓ} : {A : Type ℓ} → List A → List A
reversed [] = []
reversed (x ∷ xs) = reversed xs ++ x ∷ []

unfoldable pub consecutive_count : List String → String → ℕ
consecutive_count fingerprints fingerprint = trailing fingerprint (reversed fingerprints)

abbrev pub or_unknown : String → String
or_unknown target_agent = if target_agent == "" then "unknown" else target_agent

abbrev pub is_absent {ℓ} : {A : Type ℓ} → Option A → Bool
is_absent none = true
is_absent (some _) = false

abbrev pub text_or_empty : Option String → String
text_or_empty none = ""
text_or_empty (some s) = s

unfoldable pub record_delegation_observation :
    DelegationStatus → String → String → AgentState → AgentState
record_delegation_observation status target_agent error =
    append_observation ("delegation:" <> or_unknown target_agent) (
      ObservationContent.delegation
        (record { status = status; target_agent = target_agent; error = error }))

abbrev pub count_success : List SubagentResult → ℕ
count_success results = length (filter (λ (r : SubagentResult). r.success) results)

abbrev pub count_failure : List SubagentResult → ℕ
count_failure results = length (filter (λ (r : SubagentResult). not r.success) results)

abbrev pub child_ids : List SubagentResult → List String
child_ids [] = []
child_ids (r ∷ rest) = elim r.child_run_id [ none ↦ child_ids rest | some id ↦ id ∷ child_ids rest ]

unfoldable pub account_delegation_results : List SubagentResult → AgentState → AgentState
account_delegation_results results state = record state {
  successful_delegation_count = state.successful_delegation_count + count_success results;
  failed_delegation_count = state.failed_delegation_count + count_failure results;
  child_run_ids = state.child_run_ids ++ child_ids results;
}

-- A result for a child whose execution raised.
unfoldable pub unexpected_parallel_failure : DelegationRequest → SubagentResult
unexpected_parallel_failure request = record {
  parent_run_id = request.parent_run_id;
  child_run_id = none;
  agent_name = request.target_agent;
  objective = request.objective;
  success = false;
  answer = none;
  outcome = none;
  iterations = 0;
  tool_calls = 0;
  duration_ms = 0;
  stop_reason = none;
  error = some "Subagent execution failed.";
}

-- `none` is an exception of the child's execution.
unfoldable pub gather :
    (DelegationRequest → Option SubagentResult) → List DelegationRequest → List SubagentResult
gather execute [] = []
gather execute (request ∷ rest) =
    elim (execute request) [ none ↦ unexpected_parallel_failure request | some result ↦ result ]
    ∷ gather execute rest

-- ParallelSubagentExecutor.execute; `none` is a ValueError.
unfoldable pub execute_parallel :
    (DelegationRequest → Option SubagentResult)
    → ℕ
    → List DelegationRequest
    → Option ParallelDelegationResult
execute_parallel execute max_parallel_subagents [] = none
execute_parallel execute max_parallel_subagents (first ∷ rest) =
    if ltb max_parallel_subagents (length (first ∷ rest))
    then none
    else some
        (record { parent_run_id = first.parent_run_id; results = gather execute (first ∷ rest) })
