-- ===== src/Runtime/Runner.antt =====
-- The loop of AgentRunner in backend/app/runtime/runner.py. The memory stores, which change no
-- field of the state, are left out with logging and tracing.
pub mod Outcome
use autonomous_agent_runtime.Contracts.Actions.{AgentAction}
use autonomous_agent_runtime.Reliability.{classify_llm_failure, retry_delay}
use autonomous_agent_runtime.Reliability.Bounds.{max_rule_attempts}
use autonomous_agent_runtime.Runtime.Control.{stop}
use autonomous_agent_runtime.Runtime.State.{AgentState, RunStatus, StopReason}
use autonomous_agent_runtime.Runtime.Summary.{update}
use autonomous_agent_runtime.Runtime.World.{Surroundings, AgentRunner, World, answer, error}
use autonomous_agent_runtime.Runtime.Actions.{apply_action}
use autonomous_agent_runtime.Prelude.{
  ℕ, zero, suc, ◌+◌, ◌-◌, String, Bool, true, false, ◌||◌, not, Option, none, some, ltb,
  if◌then◌else◌, ◌==◌, nat_instance, string_instance,
}

pub data Decision : Type 0 where
  chosen : AgentAction → Decision
  provider_failed : Decision
  out_of_attempts : Decision

pub data RunResult : Type 0 where
  finished : World → RunResult
  raised_error : RunResult
  out_of_fuel : RunResult

abbrev pub is_waiting : RunStatus → Bool
is_waiting RunStatus.waiting_for_approval = true
is_waiting _ = false

abbrev pub has_stopped : AgentState → Bool
has_stopped state = state.completed || (elim state.stop_reason [ none ↦ false | some _ ↦ true ])

module _ (runner : AgentRunner) (around : Surroundings) where
  open runner use {delegation}
  open delegation use {control}

  -- The inner loop: ask the model until it answers or the policy gives up.
  unfoldable pub choose : ℕ → ℕ → ℕ → Decision
  choose zero iteration attempt = out_of_attempts
  choose (suc fuel) iteration attempt = elim (around.choose_decision iteration attempt) [
    | answer action ↦ chosen action
    | error e ↦ elim (retry_delay runner.retry_policy (classify_llm_failure e attempt)) [
      | none ↦ provider_failed
      | some delay ↦ choose fuel iteration (attempt + 1)
    ]
  ]

  -- One iteration once the model has answered: the action, then the summary.
  unfoldable pub iterate : AgentAction → World → Option World
  iterate action world =
      let begun = record world {
        state = record world.state { iteration_count = world.state.iteration_count + 1 };
      } in
      elim (apply_action runner around action begun) [
        | none ↦ none
        | some after ↦
            some
              (record after { state = update runner.summarizer runner.summary_policy after.state })
      ]

  -- The loop of `run`; the attempts are as many as the retry policy can grant, and one more.
  unfoldable pub loop : ℕ → World → RunResult
  loop zero world = out_of_fuel
  loop (suc fuel) world =
      if ltb world.state.iteration_count control.limits.max_iterations
      then (elim (choose (suc (max_rule_attempts runner.retry_policy.rules))
          (world.state.iteration_count + 1) 1) [
            | provider_failed ↦ raised_error
            | out_of_attempts ↦ out_of_fuel
            | chosen action ↦ elim (iterate action world) [
              | none ↦ raised_error
              | some after ↦ elim (is_waiting after.state.status || has_stopped after.state) [
                | true ↦ finished after
                | false ↦ loop fuel after
              ]
            ]
          ])
      else finished (record world {
        state =
            stop StopReason.max_iterations
              "Agent stopped after reaching the maximum iteration limit." world.state;
      })

  -- `run` with a state; a wrong goal or depth is a ValueError.
  unfoldable pub run : String → World → RunResult
  run goal world =
      let state = world.state in
      if not (state.goal == goal) || not (state.agent_depth == control.agent_depth)
      then raised_error
      else if is_waiting state.status
      then finished world
      else loop (suc (control.limits.max_iterations - state.iteration_count)) world
