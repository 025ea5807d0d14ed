-- ===== src/Runtime/Actions.antt =====
-- The actions of AgentRunner in backend/app/runtime/runner.py, with resolve_citations of
-- observability/evidence.py. A handler returns `none` where an exception ends the run. Logging and
-- tracing, which change no field of the state, are left out.
pub mod Keeps
pub mod Citations
use autonomous_agent_runtime.Prelude.Json.{Fields, bool, int, str, end, field, get, as_dict, null}
use autonomous_agent_runtime.Contracts.Actions.{ActionType, AgentAction, normalize_caveats}
use autonomous_agent_runtime.Security.Approvals.{ApprovalStatus, create}
use autonomous_agent_runtime.Security.Contracts.{
  PolicyDecision, ContentTrust, SecurityResource, SecurityAction, PolicyResult,
}
use autonomous_agent_runtime.Tools.Types.{ToolResult}
use autonomous_agent_runtime.Tools.Executor.{
  not_applicable, decided, raised, evaluate_policy, execute,
}
use autonomous_agent_runtime.Runtime.Control.{subject, stop, record_recoverable_error}
use autonomous_agent_runtime.Runtime.Requests.{consecutive_count, text_or_empty}
use autonomous_agent_runtime.Runtime.Delegation.{handle, handle_parallel}
use autonomous_agent_runtime.Runtime.Planning.{evaluate_finish, reconcile_plan, is_empty}
use autonomous_agent_runtime.Runtime.State.{
  AgentState, AnswerSource, ObservationContent, RunStatus, StopReason, append_observation,
}
use autonomous_agent_runtime.Runtime.World.{
  Surroundings, AgentRunner, World, instructions, unknown_skill, load_failed,
}
use autonomous_agent_runtime.Prelude.{
  ◌+◌, String, ◌<>◌, Bool, true, false, ◌||◌, not, Option, none, some, List, [], ◌∷◌, ◌++◌, leb,
  if◌then◌else◌, length, contains, string_instance, ◌==◌, nat_instance,
}

-- A result that the runtime writes itself.
abbrev pub runtime_result : String → Fields → ToolResult
runtime_result message metadata = record {
  success = false;
  output = null;
  error = some message;
  metadata = metadata;
  trust = ContentTrust.tool_output;
  source_type = none;
  source_identifier = none;
}

unfoldable pub record_observation : String → ToolResult → AgentState → AgentState
record_observation source result = append_observation source (ObservationContent.tool result)

unfoldable pub resolve_citations :
    (String → Option AnswerSource) → List String → List String → List AnswerSource × List String
resolve_citations ledger seen [] = ([], [])
resolve_citations ledger seen (citation ∷ rest) =
    let skip = resolve_citations ledger seen rest in
    let later = resolve_citations ledger (citation ∷ seen) rest in
    if contains seen citation then skip else elim (ledger citation) [
      | none ↦ (later.0, citation ∷ later.1)
      | some source ↦ (source ∷ later.0, later.1)
    ]

abbrev pub resource_identifier : Option SecurityResource → Option String
resource_identifier none = none
resource_identifier (some r) = some r.identifier

abbrev pub is_approval : PolicyDecision → Bool
is_approval PolicyDecision.require_approval = true
is_approval _ = false

abbrev pub has_key : String → List (String × String) → Bool
has_key key [] = false
has_key key ((k, _) ∷ rest) = k == key || has_key key rest

abbrev pub incomplete : List String → List (Option String)
incomplete [] = []
incomplete (item ∷ rest) = some ("Incomplete: " <> item) ∷ incomplete rest

abbrev pub somes : List String → List (Option String)
somes [] = []
somes (s ∷ rest) = some s ∷ somes rest

abbrev pub join_spaces : List String → String
join_spaces [] = ""
join_spaces (s ∷ []) = s
join_spaces (s ∷ rest) = s <> " " <> join_spaces rest

abbrev pub with_state : World → Option AgentState → Option World
with_state world none = none
with_state world (some state) = some (record world { state = state })

module _ (runner : AgentRunner) (around : Surroundings) where
  open runner use {
    delegation, tools, tool_policy, sanitizer, tool_action_fingerprint, action_fingerprint,
    casefold,
  }
  open delegation use {control}

  -- `_update_investigation_plan`
  unfoldable pub update_investigation_plan : Fields → AgentState → AgentState
  update_investigation_plan output state = elim (get "plan" output) [
    | none ↦ state
    | some value ↦ elim (runner.validate_plan value) [
      | none ↦ state
      | some proposed ↦ record state {
        investigation_plan = some (reconcile_plan proposed state.observations);
      }
    ]
  ]

  -- The attempt to add the artifact that `register_artifact` returned.
  unfoldable pub add_artifact : Fields → AgentState → AgentState
  add_artifact output state = elim (get "artifact" output) [
    | none ↦ state
    | some value ↦ elim (runner.validate_artifact value) [
      | none ↦ state
      | some artifact ↦ record state { artifacts = state.artifacts ++ artifact ∷ [] }
    ]
  ]

  -- What the output of a successful tool adds to the state, by the tool's name.
  unfoldable pub apply_output : String → ToolResult → AgentState → AgentState
  apply_output tool_name result state =
      if result.success
      then (elim (as_dict (some result.output)) [
        | none ↦ state
        | some output ↦
            if tool_name == "register_artifact"
            then add_artifact output state
            else if tool_name == "update_investigation_plan"
            then update_investigation_plan output state
            else state
      ])
      else state

  -- `_pause_for_approval`
  unfoldable pub pause_for_approval :
      String → Fields → PolicyResult → SecurityAction → World → World
  pause_for_approval tool_name arguments policy_result action world =
      let state = world.state in
      let unavailable = record world {
        state =
            record_observation tool_name
              (runtime_result
                "This action requires human approval, which is not available in this runtime."
                (field "tool_name" (str tool_name)
                  (field "security_decision" (str "require_approval") end)))
              state;
      } in
      elim world.approvals [
        | none ↦ unavailable
        | some store ↦ elim action.capability [
          | none ↦ unavailable
          | some capability ↦
              let who = subject control state in
              let mark = action_fingerprint who action arguments in
              let created =
                create runner.approval_ttl
                  (record {
                    request = record {
                      id = around.approval_id state.iteration_count;
                      run_id = state.run_id;
                      parent_run_id = who.parent_run_id;
                      agent_name = who.agent_name;
                      capability = capability;
                      tool_name = tool_name;
                      resource = resource_identifier action.resource;
                      reason = policy_result.reason;
                      status = ApprovalStatus.pending;
                      created_at = around.now state.iteration_count;
                      resolved_at = none;
                      expires_at = none;
                      policy_id = policy_result.policy_id;
                      action_fingerprint = mark;
                      execution_started_at = none;
                      execution_completed_at = none;
                    };
                    checkpoint = record {
                      state = state;
                      tool_name = tool_name;
                      tool_arguments = arguments;
                      action_fingerprint = mark;
                      session_id = none;
                    };
                  })
                  store in
              record {
                state = record state { status = RunStatus.waiting_for_approval };
                approvals = some created.1;
              }
        ]
      ]

  -- The tool runs through the executor, and its result is applied and recorded.
  unfoldable pub execute_tool : String → Fields → World → Option World
  execute_tool tool_name arguments world =
      let state = world.state in
      elim (execute sanitizer tools tool_policy tool_name arguments (subject control state)
        (around.tool_outcome state.iteration_count)) [
          | none ↦ none
          | some result ↦
              let recorded =
                record_observation tool_name result (apply_output tool_name result state) in
              some (record world {
                state =
                    if result.success then recorded else record_recoverable_error control recorded;
              })
        ]

  -- A tool call that the limits let through and that is counted: the policy may pause the run.
  unfoldable pub call_tool : String → Fields → World → Option World
  call_tool tool_name arguments world =
      elim (evaluate_policy sanitizer.render tools tool_policy tool_name arguments
        (subject control world.state)) [
          | raised ↦ none
          | not_applicable ↦ execute_tool tool_name arguments world
          | decided policy_result action ↦
              if is_approval policy_result.decision
              then some (pause_for_approval tool_name arguments policy_result action world)
              else execute_tool tool_name arguments world
        ]

  unfoldable pub use_tool : AgentAction → World → Option World
  use_tool action world =
      let state = world.state in
      let tool_name = text_or_empty action.tool_name in
      let mark = tool_action_fingerprint tool_name action.tool_arguments in
      if leb control.limits.max_tool_calls state.total_tool_calls
      then some (record world {
        state =
            stop StopReason.max_tool_calls
              "Agent stopped after reaching the maximum tool call limit." state;
      })
      else if leb control.limits.max_consecutive_duplicate_actions
          (consecutive_count state.recent_action_fingerprints mark)
      then some (record world {
        state =
            record_observation tool_name
              (runtime_result
                "This tool action has already been attempted repeatedly. Use the existing result, change approach, use another tool, or finish."
                (field "tool_name" (str tool_name) (field "duplicate_action" (bool true) end)))
              state;
      })
      else call_tool tool_name action.tool_arguments (record world {
        state = record state {
          recent_action_fingerprints = state.recent_action_fingerprints ++ mark ∷ [];
          total_tool_calls = state.total_tool_calls + 1;
        };
      })

  unfoldable pub load_skill : AgentAction → AgentState → Option AgentState
  load_skill action state =
      let skill_name = text_or_empty action.skill_name in
      if has_key skill_name state.loaded_skills
      then some (record state { recent_action_fingerprints = [] })
      else elim (around.load_skill state.iteration_count skill_name) [
        | load_failed ↦ none
        | unknown_skill ↦ some (
            record_recoverable_error control (
              record_observation ("skill:" <> skill_name)
                (runtime_result
                  (sanitizer.safe_error_message ("Unknown skill: " <> skill_name <> "."))
                  (field "skill_name" (str skill_name) end))
                state))
        | instructions text ↦ some (record state {
          loaded_skills = state.loaded_skills ++ (skill_name, text) ∷ [];
          recent_action_fingerprints = [];
        })
      ]

  unfoldable pub finish : AgentAction → AgentState → AgentState
  finish action state =
      let evaluation = evaluate_finish state control.limits in
      if not evaluation.accept
      then record_observation "investigation_plan"
          (runtime_result
            ("Finish was not accepted: "
              <> join_spaces evaluation.missing
              <> " Continue the investigation, or call update_investigation_plan to mark an item blocked with why, then finish again.")
            (field "redirected_finish" (bool true)
              (field "missing_count" (int (length evaluation.missing)) end)))
          (record state { finish_redirect_count = state.finish_redirect_count + 1 })
      else record state {
        final_answer = action.final_answer;
        answer_sources =
            (resolve_citations (around.ledger state.iteration_count) [] action.citations).0;
        answer_caveats =
            if is_empty evaluation.missing
            then action.caveats
            else normalize_caveats casefold (somes action.caveats ++ incomplete evaluation.missing);
        completed = true;
        status = RunStatus.completed;
        stop_reason = some StopReason.completed;
      }

  -- `_apply_action`
  unfoldable pub apply_action : AgentAction → World → Option World
  apply_action action world = elim action.action_type [
    | ActionType.use_tool ↦ use_tool action world
    | ActionType.load_skill ↦ with_state world (load_skill action world.state)
    | ActionType.delegate ↦ with_state world (handle delegation world.state action)
    | ActionType.delegate_parallel ↦
        with_state world (handle_parallel delegation world.state action)
    | ActionType.finish ↦ some (record world { state = finish action world.state })
  ]
