-- ===== src/Runtime/Control.antt =====
-- RunControl of backend/app/runtime/control.py: the identity of a run, its recoverable errors and
-- its end. The log entry of `stop`, made of `_limit_details`, is left out.
use autonomous_agent_runtime.Security.Contracts.{SecuritySubject}
use autonomous_agent_runtime.Runtime.State.{RuntimeLimits, StopReason, RunStatus, AgentState}
use autonomous_agent_runtime.Prelude.{ℕ, ◌+◌, String, false, Option, some, leb, if◌then◌else◌}

pub record RunControl : Type 0 where
  pub limits : RuntimeLimits
  pub agent_name : String
  pub agent_type : String
  pub agent_depth : ℕ
  pub parent_run_id : Option String

unfoldable pub subject : RunControl → AgentState → SecuritySubject
subject control state = record {
  agent_name = control.agent_name;
  agent_type = control.agent_type;
  run_id = state.run_id;
  parent_run_id = control.parent_run_id;
  delegation_depth = control.agent_depth;
}

unfoldable pub stop : StopReason → String → AgentState → AgentState
stop reason answer state = record state {
  completed = false;
  status = RunStatus.failed;
  stop_reason = some reason;
  final_answer = some answer;
}

unfoldable pub record_recoverable_error : RunControl → AgentState → AgentState
record_recoverable_error control state =
    let counted = record state { recoverable_error_count = state.recoverable_error_count + 1 } in
    if leb control.limits.max_recoverable_errors counted.recoverable_error_count
    then stop StopReason.too_many_errors
        "Agent stopped after reaching the maximum recoverable error limit." counted
    else counted
