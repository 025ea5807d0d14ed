-- ===== src/Runtime/Actions/Keeps.antt =====
-- Every action keeps the invariant of a run: `_apply_action` of backend/app/runtime/runner.py.
use autonomous_agent_runtime.Prelude.Json.{Fields, get, as_dict}
use autonomous_agent_runtime.Contracts.Actions.{AgentAction, ActionType}
use autonomous_agent_runtime.Security.Contracts.{PolicyResult, SecurityAction}
use autonomous_agent_runtime.Tools.Types.{ToolResult}
use autonomous_agent_runtime.Tools.Executor.{
  execute, evaluate_policy, Preflight, not_applicable, decided, raised,
}
use autonomous_agent_runtime.Runtime.Actions.{
  update_investigation_plan, add_artifact, apply_output, pause_for_approval, execute_tool,
  call_tool, use_tool, load_skill, finish, apply_action, record_observation, is_approval, has_key,
  with_state,
}
use autonomous_agent_runtime.Runtime.Control.{subject, record_recoverable_error}
use autonomous_agent_runtime.Runtime.Requests.{consecutive_count, text_or_empty}
use autonomous_agent_runtime.Runtime.Delegation.Keeps.{handle-IsKept, handle_parallel-IsKept}
use autonomous_agent_runtime.Runtime.Invariant.{
  IsValid, IsActive, IsVaried-append, Returned, append_observation-IsValid, stop-IsValid,
  record_recoverable_error-IsValid,
}
use autonomous_agent_runtime.Runtime.Planning.{evaluate_finish}
use autonomous_agent_runtime.Runtime.Planning.Finish.{refused-budget}
use autonomous_agent_runtime.Runtime.State.{AgentState, append_observation}
use autonomous_agent_runtime.Runtime.World.{
  AgentRunner, Surroundings, World, SkillLoad, instructions, unknown_skill, load_failed,
}
use autonomous_agent_runtime.Prelude.{
  ℕ, String, ◌≡◌, refl, ◌⊎◌, inl, inr, Bool, true, false, Option, none, some, List, [], arith, leb,
  if◌then◌else◌, Bool-cases, Option-cases, string_instance, ◌==◌, nat_instance,
}

pub Preflight-cases :
    (p : Preflight)
    → (p ≡ raised)
      ⊎ (p ≡ not_applicable)
      ⊎ ((r : PolicyResult) × (action : SecurityAction) × (p ≡ decided r action))
Preflight-cases raised = inl refl
Preflight-cases not_applicable = inr (inl refl)
Preflight-cases (decided r action) = inr (inr (r, action, refl))

SkillLoad-cases :
    (l : SkillLoad)
    → (l ≡ load_failed) ⊎ (l ≡ unknown_skill) ⊎ ((text : String) × (l ≡ instructions text))
SkillLoad-cases load_failed = inl refl
SkillLoad-cases unknown_skill = inr (inl refl)
SkillLoad-cases (instructions text) = inr (inr (text, refl))

ActionType-cases :
    (t : ActionType)
    → (t ≡ ActionType.use_tool)
      ⊎ (t ≡ ActionType.load_skill)
      ⊎ (t ≡ ActionType.delegate)
      ⊎ (t ≡ ActionType.delegate_parallel)
      ⊎ (t ≡ ActionType.finish)
ActionType-cases ActionType.use_tool = inl refl
ActionType-cases ActionType.load_skill = inr (inl refl)
ActionType-cases ActionType.delegate = inr (inr (inl refl))
ActionType-cases ActionType.delegate_parallel = inr (inr (inr (inl refl)))
ActionType-cases ActionType.finish = inr (inr (inr (inr refl)))

module _ (runner : AgentRunner) (around : Surroundings) (extra n : ℕ) where
  open runner use {delegation, tools, tool_policy, sanitizer}
  open delegation use {control}

  abbrev IsKept : AgentState → Type 0
  IsKept = IsValid control extra n

  -- The invariant of a state that has no stop reason yet.
  abbrev IsOpen : AgentState → Type 0
  IsOpen s = IsKept s × (s.stop_reason ≡ none)

  add_artifact-IsOpen :
      (output : Fields) (s : AgentState) → IsOpen s → IsOpen (add_artifact runner around output s)
  unfolding add_artifact
  add_artifact-IsOpen output s v = elim (Option-cases (get "artifact" output)) [
    | inl e ↦ rw (e, add_artifact) v
    | inr (value, e) ↦ elim (Option-cases (runner.validate_artifact value)) [
      | inl f ↦ rw (e, f, add_artifact) v
      | inr (artifact, f) ↦
          rw (e, f, add_artifact)
            (
              record {
                iterations = v.0.iterations;
                tool_calls = v.0.tool_calls;
                delegations = v.0.delegations;
                redirects = v.0.redirects;
                sequenced = v.0.sequenced;
                actions = v.0.actions;
                delegated = v.0.delegated;
                errors = v.0.errors;
                open_errors = v.0.open_errors;
                batches = v.0.batches;
                shallow = v.0.shallow;
                status = v.0.status;
              },
              v.1,
            )
    ]
  ]

  update_investigation_plan-IsOpen :
      (output : Fields) (s : AgentState)
      → IsOpen s
      → IsOpen (update_investigation_plan runner around output s)
  unfolding update_investigation_plan
  update_investigation_plan-IsOpen output s v = elim (Option-cases (get "plan" output)) [
    | inl e ↦ rw (e, update_investigation_plan) v
    | inr (value, e) ↦ elim (Option-cases (runner.validate_plan value)) [
      | inl f ↦ rw (e, f, update_investigation_plan) v
      | inr (plan, f) ↦
          rw (e, f, update_investigation_plan)
            (
              record {
                iterations = v.0.iterations;
                tool_calls = v.0.tool_calls;
                delegations = v.0.delegations;
                redirects = v.0.redirects;
                sequenced = v.0.sequenced;
                actions = v.0.actions;
                delegated = v.0.delegated;
                errors = v.0.errors;
                open_errors = v.0.open_errors;
                batches = v.0.batches;
                shallow = v.0.shallow;
                status = v.0.status;
              },
              v.1,
            )
    ]
  ]

  apply_output-IsOpen :
      (tool_name : String) (result : ToolResult) (s : AgentState)
      → IsOpen s
      → IsOpen (apply_output runner around tool_name result s)
  unfolding apply_output
  apply_output-IsOpen tool_name result s v = elim (Bool-cases result.success) [
    | inr e ↦ rw (e, apply_output) v
    | inl e ↦ elim (Option-cases (as_dict (some result.output))) [
      | inl f ↦ rw (e, f, apply_output) v
      | inr (output, f) ↦ elim (Bool-cases (tool_name == "register_artifact")) [
        | inl a ↦ rw (e, f, a, apply_output) (add_artifact-IsOpen output s v)
        | inr a ↦ elim (Bool-cases (tool_name == "update_investigation_plan")) [
          | inl p ↦ rw (e, f, a, p, apply_output) (update_investigation_plan-IsOpen output s v)
          | inr p ↦ rw (e, f, a, p, apply_output) v
        ]
      ]
    ]
  ]

  -- An observed result, with a recoverable error unless it succeeded.
  settled-IsKept :
      (success : Bool) (s : AgentState)
      → s.stop_reason ≡ none
      → IsKept s
      → IsKept (if success then s else record_recoverable_error control s)
  settled-IsKept true s u v = v
  settled-IsKept false s u v = record_recoverable_error-IsValid s u v

  execute_tool-IsKept :
      (tool_name : String) (arguments : Fields) (w : World)
      → IsActive w.state
      → IsKept w.state
      → Returned (λ (u : World). IsKept u.state) (execute_tool runner around tool_name arguments w)
  unfolding execute_tool record_observation append_observation
  execute_tool-IsKept tool_name arguments w a v =
      elim (Option-cases (
        execute sanitizer tools tool_policy tool_name arguments (subject control w.state)
          (around.tool_outcome w.state.iteration_count))) [
            | inl e ↦ rw (e, execute_tool) tt
            | inr (result, e) ↦
                let applied = apply_output-IsOpen tool_name result w.state (v, a.unstopped) in
                rw (e, execute_tool)
                  (settled-IsKept result.success _ applied.1
                    (append_observation-IsValid _ _ _ tt applied.0))
          ]

  pause_for_approval-IsKept :
      (tool_name : String) (arguments : Fields) (r : PolicyResult) (action : SecurityAction)
      (w : World)
      → IsActive w.state
      → IsKept w.state
      → IsKept (pause_for_approval runner around tool_name arguments r action w).state
  unfolding pause_for_approval record_observation
  pause_for_approval-IsKept tool_name arguments r action w a v = elim (Option-cases w.approvals) [
    | inl e ↦ rw (e, pause_for_approval) (append_observation-IsValid _ _ w.state tt v)
    | inr (store, e) ↦ elim (Option-cases action.capability) [
      | inl f ↦ rw (e, f, pause_for_approval) (append_observation-IsValid _ _ w.state tt v)
      | inr (capability, f) ↦
          rw (e, f, pause_for_approval)
            (record {
              iterations = v.iterations;
              tool_calls = v.tool_calls;
              delegations = v.delegations;
              redirects = v.redirects;
              sequenced = v.sequenced;
              actions = v.actions;
              delegated = v.delegated;
              errors = v.errors;
              open_errors = v.open_errors;
              batches = v.batches;
              shallow = v.shallow;
              status = rw (a.incomplete, a.unstopped) refl;
            })
    ]
  ]

  call_tool-IsKept :
      (tool_name : String) (arguments : Fields) (w : World)
      → IsActive w.state
      → IsKept w.state
      → Returned (λ (u : World). IsKept u.state) (call_tool runner around tool_name arguments w)
  unfolding call_tool
  call_tool-IsKept tool_name arguments w a v =
      let preflight =
        evaluate_policy sanitizer.render tools tool_policy tool_name arguments
          (subject control w.state) in
      elim (Preflight-cases preflight) [
        | inl e ↦ rw (e, call_tool) tt
        | inr (inl e) ↦ rw (e, call_tool) (execute_tool-IsKept tool_name arguments w a v)
        | inr (inr (r, action, e)) ↦ elim (Bool-cases (is_approval r.decision)) [
          | inl f ↦
              rw (e, f, call_tool) (pause_for_approval-IsKept tool_name arguments r action w a v)
          | inr f ↦ rw (e, f, call_tool) (execute_tool-IsKept tool_name arguments w a v)
        ]
      ]

  use_tool-IsKept :
      (action : AgentAction) (w : World)
      → IsActive w.state
      → IsKept w.state
      → Returned (λ (u : World). IsKept u.state) (use_tool runner around action w)
  unfolding use_tool record_observation
  use_tool-IsKept action w a v =
      let s = w.state in
      let limits = control.limits in
      let tool_name = text_or_empty action.tool_name in
      let mark = runner.tool_action_fingerprint tool_name action.tool_arguments in
      elim (Bool-cases (leb limits.max_tool_calls s.total_tool_calls)) [
        | inl e ↦ rw (e, use_tool) (stop-IsValid _ _ s refl v)
        | inr e ↦
            elim (Bool-cases (
              leb limits.max_consecutive_duplicate_actions
                (consecutive_count s.recent_action_fingerprints mark))) [
                  | inl f ↦ rw (e, f, use_tool) (append_observation-IsValid _ _ s tt v)
                  | inr f ↦
                      rw (e, f, use_tool)
                        (call_tool-IsKept tool_name action.tool_arguments _
                          (record {
                            running = a.running;
                            incomplete = a.incomplete;
                            unstopped = a.unstopped;
                          })
                          (record {
                            iterations = v.iterations;
                            tool_calls = ground (arith, e);
                            delegations = v.delegations;
                            redirects = v.redirects;
                            sequenced = v.sequenced;
                            actions =
                                IsVaried-append _ s.recent_action_fingerprints mark v.actions f;
                            delegated = v.delegated;
                            errors = v.errors;
                            open_errors = v.open_errors;
                            batches = v.batches;
                            shallow = v.shallow;
                            status = v.status;
                          }))
                ]
      ]

  loaded-IsKept :
      (skills : List (String × String)) (s : AgentState)
      → IsKept s
      → IsKept (record s { loaded_skills = skills; recent_action_fingerprints = [] })
  unfolding consecutive_count
  loaded-IsKept skills s v = record {
    iterations = v.iterations;
    tool_calls = v.tool_calls;
    delegations = v.delegations;
    redirects = v.redirects;
    sequenced = v.sequenced;
    actions = λ f. omega arith;
    delegated = v.delegated;
    errors = v.errors;
    open_errors = v.open_errors;
    batches = v.batches;
    shallow = v.shallow;
    status = v.status;
  }

  load_skill-IsKept :
      (action : AgentAction) (s : AgentState)
      → s.stop_reason ≡ none
      → IsKept s
      → Returned IsKept (load_skill runner around action s)
  unfolding load_skill record_observation append_observation
  load_skill-IsKept action s u v =
      let skill_name = text_or_empty action.skill_name in
      elim (Bool-cases (has_key skill_name s.loaded_skills)) [
        | inl e ↦ rw (e, load_skill) (loaded-IsKept s.loaded_skills s v)
        | inr e ↦ elim (SkillLoad-cases (around.load_skill s.iteration_count skill_name)) [
          | inl f ↦ rw (e, f, load_skill) tt
          | inr (inl f) ↦
              rw (e, f, load_skill)
                (record_recoverable_error-IsValid _ u (append_observation-IsValid _ _ s tt v))
          | inr (inr (text, f)) ↦ rw (e, f, load_skill) (loaded-IsKept _ s v)
        ]
      ]

  finish-IsKept :
      (action : AgentAction) (s : AgentState) → IsKept s → IsKept (finish runner around action s)
  unfolding finish record_observation
  finish-IsKept action s v = elim (Bool-cases (evaluate_finish s control.limits).accept) [
    | inl e ↦
        rw (e, finish)
          (record {
            iterations = v.iterations;
            tool_calls = v.tool_calls;
            delegations = v.delegations;
            redirects = v.redirects;
            sequenced = v.sequenced;
            actions = v.actions;
            delegated = v.delegated;
            errors = v.errors;
            open_errors = λ h. ground arith;
            batches = v.batches;
            shallow = v.shallow;
            status = refl;
          })
    | inr e ↦
        rw (e, finish)
          (append_observation-IsValid _ _ _ tt (record {
            iterations = v.iterations;
            tool_calls = v.tool_calls;
            delegations = v.delegations;
            redirects = omega (arith, (refused-budget s control.limits e).2);
            sequenced = v.sequenced;
            actions = v.actions;
            delegated = v.delegated;
            errors = v.errors;
            open_errors = v.open_errors;
            batches = v.batches;
            shallow = v.shallow;
            status = v.status;
          }))
  ]

  with_state-IsKept :
      (w : World) (o : Option AgentState)
      → Returned IsKept o
      → Returned (λ (u : World). IsKept u.state) (with_state w o)
  with_state-IsKept w none r = tt
  with_state-IsKept w (some s) r = r

  -- If the run is still going and its state is valid, then whatever state an action of any kind
  -- returns is valid: the iteration count is unchanged; tool calls, recoverable errors, delegations,
  -- the results of a parallel batch, redirects and repetitions stay within their limits; at the
  -- limit of depth there is no delegation; the observations are numbered in order, and the status
  -- agrees with the stop reason.
  pub apply_action-IsKept :
      (action : AgentAction) (w : World)
      → IsActive w.state
      → IsKept w.state
      → Returned (λ (u : World). IsKept u.state) (apply_action runner around action w)
  unfolding apply_action
  apply_action-IsKept action w a v = elim (ActionType-cases action.action_type) [
    | inl e ↦ rw (e, apply_action) (use_tool-IsKept action w a v)
    | inr (inl e) ↦
        rw (e, apply_action)
          (with_state-IsKept w _ (load_skill-IsKept action w.state a.unstopped v))
    | inr (inr (inl e)) ↦
        rw (e, apply_action)
          (with_state-IsKept w _ (handle-IsKept delegation extra n w.state action a.unstopped v))
    | inr (inr (inr (inl e))) ↦
        rw (e, apply_action)
          (with_state-IsKept w _
            (handle_parallel-IsKept delegation extra n w.state action a.unstopped v))
    | inr (inr (inr (inr e))) ↦ rw (e, apply_action) (finish-IsKept action w.state v)
  ]
