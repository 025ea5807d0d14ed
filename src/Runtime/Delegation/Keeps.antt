-- ===== src/Runtime/Delegation/Keeps.antt =====
-- Delegations keep the invariant of a run: steps/delegation_step.py.
use mathlib.Core.Option.{some-injective}
use autonomous_agent_runtime.Contracts.Actions.{AgentAction, ParallelDelegationItem}
use autonomous_agent_runtime.Runtime.Requests.{
  account_delegation_results, is_absent, delegation_request, record_delegation_observation,
  text_or_empty, consecutive_count, execute_parallel, gather,
}
use autonomous_agent_runtime.Runtime.Delegation.{
  run_batch, DelegationStep, accepted_request, reject, record_delegation_limit, run_request, handle,
  delegation_allowed, handle_parallel, accepted_requests, run_requests, all_succeeded,
  SubagentResult,
}
use autonomous_agent_runtime.Runtime.Control.{record_recoverable_error}
use autonomous_agent_runtime.Runtime.Invariant.{
  IsValid, IsVaried-append, Returned, append_observation-IsValid, record_recoverable_error-IsValid,
  account_delegation_results-IsValid,
}
use autonomous_agent_runtime.Runtime.State.{
  append_observation, ParallelDelegationResult, AgentState, DelegationRequest, DelegationStatus,
}
use autonomous_agent_runtime.Prelude.{
  ℕ, suc, ◌+◌, ◌≤◌, ◌<◌, String, ◌<>◌, ◌≡◌, refl, sym, ap, ◌∙◌, inl, inr, Bool, true, false, ◌||◌,
  not, Option, none, some, List, [], ◌∷◌, ◌++◌, arith, ltb, leb, if◌then◌else◌, leb→lt, Bool-cases,
  Option-cases, length, length-append,
}

module _ (step : DelegationStep) (extra n : ℕ) where
  open step use {control}

  -- The invariant under the limits of this step.
  abbrev pub IsKept : AgentState → Type 0
  IsKept = IsValid control extra n

  reject-IsKept :
      (status : DelegationStatus) (target_agent error : String) (s : AgentState)
      → s.stop_reason ≡ none
      → IsKept s
      → IsKept (reject step status target_agent error s)
  unfolding record_delegation_observation append_observation
  reject-IsKept status target_agent error s u v =
      record_recoverable_error-IsValid _ u (append_observation-IsValid _ _ s tt v)

  limit-IsKept :
      (limit_type : String) (current_value configured_limit : ℕ) (s : AgentState)
      → s.stop_reason ≡ none
      → IsKept s
      → IsKept (record_delegation_limit step limit_type current_value configured_limit s)
  unfolding record_delegation_limit
  limit-IsKept limit_type current_value configured_limit s u v = reject-IsKept _ _ _ s u v

  -- An accounted result, with a recoverable error unless it succeeded.
  settled-IsKept :
      (success : Bool) (s : AgentState)
      → s.stop_reason ≡ none
      → IsKept s
      → IsKept (if success then s else record_recoverable_error control s)
  settled-IsKept true s u v = v
  settled-IsKept false s u v = record_recoverable_error-IsValid s u v

  requested-IsKept :
      (requests : List DelegationRequest) (batches : ℕ) (s : AgentState)
      → leb control.limits.max_agent_depth control.agent_depth ≡ false
      → length s.delegation_requests + length requests ≤ control.limits.max_delegations_per_run
      → IsKept s
      → IsKept (record s {
        delegation_requests = s.delegation_requests ++ requests;
        parallel_delegation_batch_count = batches;
      })
  requested-IsKept requests batches s near room v = record {
    iterations = v.iterations;
    tool_calls = v.tool_calls;
    delegations = rw (length-append s.delegation_requests requests) room;
    redirects = v.redirects;
    sequenced = v.sequenced;
    actions = v.actions;
    delegated = v.delegated;
    errors = v.errors;
    open_errors = v.open_errors;
    batches = v.batches;
    shallow = λ deep. ground (arith, near, deep);
    status = v.status;
  }

  fingerprinted-IsKept :
      (fingerprint : String) (s : AgentState)
      → leb control.limits.max_consecutive_duplicate_actions
          (consecutive_count s.recent_delegation_fingerprints fingerprint)
        ≡ false
      → IsKept s
      → IsKept (record s {
        recent_delegation_fingerprints = s.recent_delegation_fingerprints ++ fingerprint ∷ [];
      })
  fingerprinted-IsKept fingerprint s fresh v = record {
    iterations = v.iterations;
    tool_calls = v.tool_calls;
    delegations = v.delegations;
    redirects = v.redirects;
    sequenced = v.sequenced;
    actions = v.actions;
    delegated = IsVaried-append _ s.recent_delegation_fingerprints fingerprint v.delegated fresh;
    errors = v.errors;
    open_errors = v.open_errors;
    batches = v.batches;
    shallow = v.shallow;
    status = v.status;
  }

  run_request-IsKept :
      (request : DelegationRequest) (fingerprint : String) (s : AgentState)
      → leb control.limits.max_agent_depth control.agent_depth ≡ false
      → length s.delegation_requests < control.limits.max_delegations_per_run
      → leb control.limits.max_consecutive_duplicate_actions
          (consecutive_count s.recent_delegation_fingerprints fingerprint)
        ≡ false
      → s.stop_reason ≡ none
      → IsKept s
      → Returned IsKept (run_request step request fingerprint s)
  unfolding run_request append_observation account_delegation_results
  run_request-IsKept request fingerprint s near room fresh u v =
      let requested =
        fingerprinted-IsKept fingerprint
          (record s { delegation_requests = s.delegation_requests ++ request ∷ [] }) fresh
          (requested-IsKept (request ∷ []) s.parallel_delegation_batch_count s near
            (omega (arith, room)) v) in
      elim (Option-cases step.executor) [
        | inl e ↦ rw e (reject-IsKept _ _ _ _ u requested)
        | inr (execute, e) ↦ elim (Option-cases (execute request)) [
          | inl f ↦ rw (e, f) tt
          | inr (result, f) ↦
              rw (e, f)
                (settled-IsKept result.success _ u (
                  account_delegation_results-IsValid (result ∷ []) _
                    (append_observation-IsValid _ _ _ tt requested)))
        ]
      ]

  -- Whatever state a delegation returns keeps the invariant.
  pub handle-IsKept :
      (s : AgentState) (action : AgentAction)
      → s.stop_reason ≡ none
      → IsKept s
      → Returned IsKept (handle step s action)
  unfolding handle
  handle-IsKept s action u v =
      let limits = control.limits in
      elim (Bool-cases (leb limits.max_agent_depth control.agent_depth)) [
        | inl deep ↦ rw deep (limit-IsKept _ _ _ s u v)
        | inr shallow ↦
            elim (Option-cases (delegation_allowed step s (text_or_empty action.agent_name))) [
              | inl e ↦ rw (shallow, e) tt
              | inr (false, e) ↦ rw (shallow, e) (reject-IsKept _ _ _ s u v)
              | inr (true, e) ↦
                  elim (Bool-cases
                    (leb limits.max_delegations_per_run (length s.delegation_requests))) [
                      | inl full ↦ rw (shallow, e, full) (limit-IsKept _ _ _ s u v)
                      | inr room ↦
                          elim (Bool-cases (
                            leb limits.max_consecutive_duplicate_actions (
                              consecutive_count s.recent_delegation_fingerprints (
                                step.delegation_fingerprint (text_or_empty action.agent_name)
                                  (text_or_empty action.objective) action.context)))) [
                                    | inl repeated ↦
                                        rw (shallow, e, room, repeated) (reject-IsKept _ _ _ s u v)
                                    | inr fresh ↦
                                        elim (Option-cases (accepted_request step s action)) [
                                          | inl none_accepted ↦
                                              rw (shallow, e, room, fresh, none_accepted)
                                                (reject-IsKept _ _ _ s u v)
                                          | inr (request, accepted) ↦
                                              rw (shallow, e, room, fresh, accepted)
                                                (run_request-IsKept request _ s shallow
                                                  (leb→lt _ _ room) fresh u v)
                                        ]
                                  ]
                    ]
            ]
      ]

  length-accepted_requests :
      (s : AgentState) (items : List ParallelDelegationItem) (requests : List DelegationRequest)
      → accepted_requests step s items ≡ some requests
      → length requests ≡ length items
  unfolding accepted_requests
  length-accepted_requests s [] requests h = ap length (sym (some-injective _ _ h))
  length-accepted_requests s (item ∷ items) requests h =
      elim (Option-cases (
        delegation_request s item.agent_name item.objective item.context item.constraints
          item.expected_output)) [
            | inl e ↦ ground (arith, rw (e, accepted_requests) at h)
            | inr (request, e) ↦ elim (Option-cases (accepted_requests step s items)) [
              | inl f ↦ ground (arith, rw (e, f, accepted_requests) at h)
              | inr (rest, f) ↦
                  known-length request rest (length-accepted_requests s items rest f)
                    step.agent_registry (rw (e, f, accepted_requests) at h)
            ]
          ]
    where
      known-length :
          (request : DelegationRequest) (rest : List DelegationRequest)
          → length rest ≡ length items
          → (registry : Option (String → Bool))
          → (elim registry as (λ _. Option (List DelegationRequest)) [
            | none ↦ none
            | some known ↦ if known request.target_agent then some (request ∷ rest) else none
          ])
            ≡ some requests
          → length requests ≡ suc (length items)
      known-length request rest e none h = ground (arith, h)
      known-length request rest e (some known) h = ground (arith, h)

  length-gather :
      (execute : DelegationRequest → Option SubagentResult) (requests : List DelegationRequest)
      → length (gather execute requests) ≡ length requests
  unfolding gather
  length-gather execute [] = refl
  length-gather execute (request ∷ rest) = ap suc (length-gather execute rest)

  -- A batch has one result for each request.
  length-execute_parallel :
      (execute : DelegationRequest → Option SubagentResult) (limit : ℕ)
      (requests : List DelegationRequest) (result : ParallelDelegationResult)
      → execute_parallel execute limit requests ≡ some result
      → length result.results ≡ length requests
  unfolding execute_parallel
  length-execute_parallel execute limit [] result h = ground (arith, h)
  length-execute_parallel execute limit (first ∷ rest) result h =
      elim (Bool-cases (ltb limit (length (first ∷ rest)))) [
        | inl wide ↦ ground (arith, rw (wide, execute_parallel) at h)
        | inr fits ↦
            ap (λ (r : ParallelDelegationResult). length r.results)
              (sym (some-injective _ _ (rw (fits, execute_parallel) at h)))
            ∙ length-gather execute (first ∷ rest)
      ]

  run_batch-IsKept :
      (executor : Option (ℕ × (DelegationRequest → Option SubagentResult)))
      (requests : List DelegationRequest) (s : AgentState)
      → length requests ≤ control.limits.max_parallel_subagents
      → s.stop_reason ≡ none
      → IsKept s
      → Returned IsKept (run_batch step executor requests s)
  unfolding run_batch append_observation account_delegation_results
  run_batch-IsKept none requests s few u v = reject-IsKept _ _ _ s u v
  run_batch-IsKept (some (limit, execute)) requests s few u v =
      elim (Option-cases (execute_parallel execute limit requests)) [
        | inl f ↦ rw (f, run_batch) tt
        | inr (result, f) ↦
            rw (f, run_batch)
              (settled-IsKept (all_succeeded result) _ u (
                account_delegation_results-IsValid result.results _ (
                  append_observation-IsValid _ _ s
                    (rw (length-execute_parallel execute limit requests result f) few) v)))
      ]

  run_requests-IsKept :
      (requests : List DelegationRequest) (s : AgentState)
      → leb control.limits.max_agent_depth control.agent_depth ≡ false
      → length requests ≤ control.limits.max_parallel_subagents
      → length s.delegation_requests + length requests ≤ control.limits.max_delegations_per_run
      → s.stop_reason ≡ none
      → IsKept s
      → Returned IsKept (run_requests step requests s)
  unfolding run_requests
  run_requests-IsKept requests s near few room u v =
      run_batch-IsKept step.parallel_executor requests _ few u
        (requested-IsKept requests (s.parallel_delegation_batch_count + 1) s near room v)

  batch-IsKept :
      (s : AgentState) (action : AgentAction)
      → leb control.limits.max_agent_depth control.agent_depth ≡ false
      → ltb control.limits.max_parallel_subagents (length action.delegations) ≡ false
      → ltb control.limits.max_delegations_per_run
          (length s.delegation_requests + length action.delegations)
        ≡ false
      → s.stop_reason ≡ none
      → IsKept s
      → Returned IsKept
          (elim (accepted_requests step s action.delegations) as (λ _. Option AgentState) [
            | none ↦ some (
                reject step DelegationStatus.invalid "parallel"
                  ("Delegation request was rejected: " <> step.validation_message s)
                  s)
            | some requests ↦ run_requests step requests s
          ])
  batch-IsKept s action near narrow room u v =
      elim (Option-cases (accepted_requests step s action.delegations)) [
        | inl e ↦ rw e (reject-IsKept _ _ _ s u v)
        | inr (requests, e) ↦ rw e (
            run_requests-IsKept requests s near
              (ground (arith, narrow, length-accepted_requests s action.delegations requests e))
              (ground (arith, room, length-accepted_requests s action.delegations requests e)) u v)
      ]

  -- Whatever state a parallel delegation returns keeps the invariant.
  pub handle_parallel-IsKept :
      (s : AgentState) (action : AgentAction)
      → s.stop_reason ≡ none
      → IsKept s
      → Returned IsKept (handle_parallel step s action)
  unfolding handle_parallel
  handle_parallel-IsKept s action u v =
      let limits = control.limits in
      elim (Bool-cases (leb limits.max_agent_depth control.agent_depth)) [
        | inl deep ↦ rw deep (limit-IsKept _ _ _ s u v)
        | inr shallow ↦ elim (Option-cases (delegation_allowed step s "parallel")) [
          | inl e ↦ rw (shallow, e) tt
          | inr (false, e) ↦ rw (shallow, e) (reject-IsKept _ _ _ s u v)
          | inr (true, e) ↦ elim (Bool-cases (not step.enabled || is_absent step.agent_registry)) [
            | inl off ↦ rw (shallow, e, off) (reject-IsKept _ _ _ s u v)
            | inr on ↦
                elim (Bool-cases (ltb limits.max_parallel_subagents (length action.delegations))) [
                  | inl wide ↦ rw (shallow, e, on, wide) (limit-IsKept _ _ _ s u v)
                  | inr narrow ↦
                      elim (Bool-cases (
                        ltb limits.max_delegations_per_run
                          (length s.delegation_requests + length action.delegations))) [
                            | inl full ↦
                                rw (shallow, e, on, narrow, full) (limit-IsKept _ _ _ s u v)
                            | inr room ↦
                                rw (shallow, e, on, narrow, room)
                                  (batch-IsKept s action shallow narrow room u v)
                          ]
                ]
          ]
        ]
      ]
