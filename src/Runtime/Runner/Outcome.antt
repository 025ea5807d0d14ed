-- ===== src/Runtime/Runner/Outcome.antt =====
-- How a run ends: `run` of backend/app/runtime/runner.py, its retries and its iterations.
use autonomous_agent_runtime.Contracts.Actions.{AgentAction}
use autonomous_agent_runtime.Reliability.{classify_llm_failure, retry_delay, LlmError}
use autonomous_agent_runtime.Reliability.Bounds.{max_rule_attempts, retry_delay_bounds}
use autonomous_agent_runtime.Security.Approvals.{Item}
use autonomous_agent_runtime.Runtime.Actions.{apply_action}
use autonomous_agent_runtime.Runtime.Actions.Keeps.{apply_action-IsKept}
use autonomous_agent_runtime.Runtime.Control.{RunControl, stop}
use autonomous_agent_runtime.Runtime.Requests.{consecutive_count}
use autonomous_agent_runtime.Runtime.Invariant.{IsValid, IsActive, Returned, coherent, stop-IsValid}
use autonomous_agent_runtime.Runtime.Runner.{
  Decision, RunResult, chosen, provider_failed, out_of_attempts, finished, raised_error,
  out_of_fuel, is_waiting, has_stopped, choose, iterate, loop, run,
}
use autonomous_agent_runtime.Runtime.State.{
  AgentState, RunStatus, StopReason, TaskSummary, Observation, new_state, limits_ok,
}
use autonomous_agent_runtime.Runtime.Summary.{
  SummaryPolicy, update, observations_to_summarize, summary_or,
}
use autonomous_agent_runtime.Runtime.World.{AgentRunner, Surroundings, World, Reply, answer, error}
use autonomous_agent_runtime.Prelude.{
  ℕ, zero, suc, ◌+◌, ◌-◌, ◌≤◌, ◌<◌, String, ◌≡◌, refl, sym, ap, subst, ◌≢◌, ◌⊎◌, inl, inr, Bool,
  true, false, ◌||◌, not, Option, none, some, List, [], ◌∷◌, arith, ltb, Bool-cases, Option-cases,
  string_instance, ◌==◌, nat_instance,
}

-- A finished run is within the limits of IsValid and of the iterations, and it is completed, failed
-- or waiting for an approval.
pub record IsOutcome (control : RunControl) (extra : ℕ) (state : AgentState) : Type 0 where
  pub bounded : state.iteration_count ≤ control.limits.max_iterations
  pub valid : IsValid control extra state.iteration_count state
  pub ended : state.status ≢ RunStatus.running

-- The result is an outcome or an exception; it is never a lack of fuel.
abbrev pub IsConcluded : RunControl → ℕ → RunResult → Type 0
IsConcluded control extra (finished w) = IsOutcome control extra w.state
IsConcluded control extra raised_error = Unit
IsConcluded control extra out_of_fuel = ⊥

module _ {control : RunControl} {extra n : ℕ}
    (summarize : TaskSummary → List Observation → Option TaskSummary) (policy : SummaryPolicy)
    (s : AgentState) (v : IsValid control extra n s) where
  summarized-IsValid :
      (os : List Observation)
      → observations_to_summarize policy s.task_summary s.observations ≡ os
      → IsValid control extra n (update summarize policy s)
  unfolding update
  summarized-IsValid [] e = rw (e, update) v
  summarized-IsValid (o ∷ os) e =
      elim (Option-cases (summarize (summary_or s.goal s.task_summary) (o ∷ os))) [
        | inl f ↦ rw (e, f, update) v
        | inr (t, f) ↦
            rw (e, f, update)
              (record {
                iterations = v.iterations;
                tool_calls = v.tool_calls;
                delegations = v.delegations;
                redirects = v.redirects;
                sequenced = v.sequenced;
                actions = v.actions;
                delegated = v.delegated;
                errors = v.errors;
                open_errors = v.open_errors;
                batches = v.batches;
                shallow = v.shallow;
                status = v.status;
              })
      ]

  pub update-IsValid : IsValid control extra n (update summarize policy s)
  update-IsValid = summarized-IsValid _ refl

going :
    (status : RunStatus) (completed : Bool) (reason : Option StopReason)
    → coherent status completed reason ≡ true
    → (is_waiting status || (completed || (elim reason [ none ↦ false | some _ ↦ true ]))) ≡ false
    → (status ≡ RunStatus.running) × (completed ≡ false) × (reason ≡ none)
going RunStatus.running false none c h = (refl, refl, refl)
going status true reason c h = ground arith
going status false (some r) c h = ground arith
going RunStatus.waiting_for_approval false none c h = ground arith
going RunStatus.completed false none c h = ground arith
going RunStatus.failed false none c h = ground arith

-- A coherent state that neither waits nor has stopped is still going.
going-IsActive :
    (s : AgentState)
    → coherent s.status s.completed s.stop_reason ≡ true
    → (is_waiting s.status || has_stopped s) ≡ false
    → IsActive s
going-IsActive s c h =
    let g = going s.status s.completed s.stop_reason c h in
    record { running = g.0; incomplete = g.1; unstopped = g.2 }

halted :
    (status : RunStatus) (completed : Bool) (reason : Option StopReason)
    → coherent status completed reason ≡ true
    → (is_waiting status || (completed || (elim reason [ none ↦ false | some _ ↦ true ]))) ≡ true
    → status ≢ RunStatus.running
halted RunStatus.running false none c h e = ground arith
halted RunStatus.running false (some r) c h e = ground arith
halted RunStatus.running true reason c h e = ground arith
halted RunStatus.waiting_for_approval completed reason c h e = ground arith
halted RunStatus.completed completed reason c h e = ground arith
halted RunStatus.failed completed reason c h e = ground arith

Decision-cases :
    (d : Decision)
    → (d ≡ provider_failed) ⊎ (d ≡ out_of_attempts) ⊎ ((a : AgentAction) × (d ≡ chosen a))
Decision-cases provider_failed = inl refl
Decision-cases out_of_attempts = inr (inl refl)
Decision-cases (chosen a) = inr (inr (a, refl))

Reply-cases : (r : Reply) → ((a : AgentAction) × (r ≡ answer a)) ⊎ ((e : LlmError) × (r ≡ error e))
Reply-cases (answer a) = inl (a, refl)
Reply-cases (error e) = inr (e, refl)

Returned-cases :
    {P : World → Type 0} (o : Option World)
    → Returned P o
    → (o ≡ none) ⊎ ((w : World) × (o ≡ some w) × P w)
Returned-cases none r = inl refl
Returned-cases (some w) r = inr (w, refl, r)

module _ (runner : AgentRunner) (around : Surroundings) where
  retried-early :
      (x : LlmError) (attempt delay : ℕ)
      → retry_delay runner.retry_policy (classify_llm_failure x attempt) ≡ some delay
      → attempt < max_rule_attempts runner.retry_policy.rules
  unfolding classify_llm_failure
  retried-early x attempt delay f =
      (retry_delay_bounds runner.retry_policy (classify_llm_failure x attempt) delay f).4

  -- With more attempts left than the retry policy can still grant, asking the model ends in an
  -- action or in the policy giving up.
  pub choose-decides :
      (fuel iteration attempt : ℕ)
      → max_rule_attempts runner.retry_policy.rules < suc fuel + attempt
      → choose runner around (suc fuel) iteration attempt ≢ out_of_attempts
  unfolding choose
  choose-decides zero iteration attempt enough h =
      elim (Reply-cases (around.choose_decision iteration attempt)) [
        | inl (a, e) ↦ ground (arith, rw (e, choose) at h)
        | inr (x, e) ↦
            let delay = retry_delay runner.retry_policy (classify_llm_failure x attempt) in
            elim (Option-cases delay) [
              | inl f ↦ ground (arith, rw (e, f, choose) at h)
              | inr (d, f) ↦ absurd (omega (arith, enough, retried-early x attempt d f))
            ]
      ]
  choose-decides (suc fuel) iteration attempt enough h =
      elim (Reply-cases (around.choose_decision iteration attempt)) [
        | inl (a, e) ↦ ground (arith, rw (e, choose) at h)
        | inr (x, e) ↦
            let delay = retry_delay runner.retry_policy (classify_llm_failure x attempt) in
            elim (Option-cases delay) [
              | inl f ↦ ground (arith, rw (e, f, choose) at h)
              | inr (d, f) ↦
                  choose-decides fuel iteration (attempt + 1) (omega (arith, enough))
                    (rw (e, f, choose) at h)
            ]
      ]

module _ (runner : AgentRunner) (around : Surroundings) (extra : ℕ) where
  open runner use {delegation}
  open delegation use {control}

  iterate-IsValid :
      (action : AgentAction) (n : ℕ) (w : World)
      → IsActive w.state
      → IsValid control extra n w.state
      → Returned
          (λ (u : World). IsValid control extra (n + 1) u.state)
          (iterate runner around action w)
  unfolding iterate
  iterate-IsValid action n w a v =
      let begun = record w {
        state = record w.state { iteration_count = w.state.iteration_count + 1 };
      } in
      let kept =
        apply_action-IsKept runner around extra (n + 1) action begun
          (record { running = a.running; incomplete = a.incomplete; unstopped = a.unstopped })
          (record {
            iterations = ap (λ i. i + 1) v.iterations;
            tool_calls = v.tool_calls;
            delegations = v.delegations;
            redirects = v.redirects;
            sequenced = v.sequenced;
            actions = v.actions;
            delegated = v.delegated;
            errors = v.errors;
            open_errors = v.open_errors;
            batches = v.batches;
            shallow = v.shallow;
            status = v.status;
          }) in
      go (apply_action runner around action begun) refl kept
    where
      go :
          (o : Option World)
          → apply_action runner around action (record w {
            state = record w.state { iteration_count = w.state.iteration_count + 1 };
          })
            ≡ o
          → Returned (λ (u : World). IsValid control extra (n + 1) u.state) o
          → Returned
              (λ (u : World). IsValid control extra (n + 1) u.state)
              (iterate runner around action w)
      go none e r = rw (e, iterate) tt
      go (some after) e r =
          rw (e, iterate) (update-IsValid runner.summarizer runner.summary_policy after.state r)

  -- The outcome of one iteration: the run ends, or it goes on with the invariant.
  stopped-IsOutcome :
      (n : ℕ) (w : World)
      → n + 1 ≤ control.limits.max_iterations
      → IsValid control extra (n + 1) w.state
      → (is_waiting w.state.status || has_stopped w.state) ≡ true
      → IsOutcome control extra w.state
  stopped-IsOutcome n w room v h = record {
    bounded = omega (arith, v.iterations);
    valid = subst (λ i. IsValid control extra i w.state) (sym v.iterations) v;
    ended = halted w.state.status w.state.completed w.state.stop_reason v.status h;
  }

  -- With fuel for the iterations that are left, the loop ends in an outcome or an exception.
  loop-IsConcluded :
      (fuel n : ℕ) (w : World)
      → control.limits.max_iterations < fuel + n
      → n ≤ control.limits.max_iterations
      → IsActive w.state
      → IsValid control extra n w.state
      → IsConcluded control extra (loop runner around fuel w)
  unfolding loop stop
  loop-IsConcluded zero n w enough bound a v = omega (arith, enough, bound)
  loop-IsConcluded (suc fuel) n w enough bound a v =
      elim (Bool-cases (ltb w.state.iteration_count control.limits.max_iterations)) [
        | inr over ↦
            rw (over, loop)
              (record {
                bounded = omega (arith, v.iterations);
                valid =
                    stop-IsValid _ _ w.state refl
                      (subst (λ i. IsValid control extra i w.state) (sym v.iterations) v);
                ended = λ e. ground arith;
              })
        | inl more ↦
            elim (Decision-cases (
              choose runner around (suc (max_rule_attempts runner.retry_policy.rules))
                (w.state.iteration_count + 1) 1)) [
                  | inl e ↦ rw (more, e, loop) tt
                  | inr (inl e) ↦ absurd (choose-decides runner around _ _ 1 (omega arith) e)
                  | inr (inr (action, e)) ↦
                      elim (Returned-cases (iterate runner around action w)
                        (iterate-IsValid action n w a v)) [
                          | inl f ↦ rw (more, e, f, loop) tt
                          | inr (after, f, kept) ↦
                              elim (Bool-cases
                                (is_waiting after.state.status || has_stopped after.state)) [
                                  | inl h ↦
                                      rw (more, e, f, h, loop)
                                        (stopped-IsOutcome n after
                                          (ground (arith, more, v.iterations)) kept h)
                                  | inr h ↦
                                      rw (more, e, f, h, loop)
                                        (loop-IsConcluded fuel (n + 1) after (omega (arith, enough))
                                          (ground (arith, more, v.iterations))
                                          (going-IsActive after.state kept.status h) kept)
                                ]
                        ]
                ]
      ]

  -- A run that starts from a running state within the limits of IsValid and of the iterations
  -- ends: it raises an exception, or it returns a state that is within them, whose observations are
  -- numbered in order, whose status agrees with its stop reason, and that no longer runs. The loop
  -- of the iterations and the loop of the retries are given fuel, and neither ever runs out of it.
  pub run-IsConcluded :
      (goal : String) (w : World)
      → IsActive w.state
      → w.state.iteration_count ≤ control.limits.max_iterations
      → IsValid control extra w.state.iteration_count w.state
      → IsConcluded control extra (run runner around goal w)
  unfolding run
  run-IsConcluded goal w a bound v =
      elim (Bool-cases
        (not (w.state.goal == goal) || not (w.state.agent_depth == control.agent_depth))) [
          | inl e ↦ rw (e, run) tt
          | inr e ↦
              rw (e, ap is_waiting a.running, run)
                (loop-IsConcluded (suc (control.limits.max_iterations - w.state.iteration_count))
                  w.state.iteration_count w (omega (arith, bound)) bound a v)
        ]

-- With limits that RuntimeLimits accepts, and with any model, tools, policies, specialists and
-- surroundings, a run of a new state ends: it raises an exception, or it returns a state that no
-- longer runs, whose observations are numbered in order and whose status agrees with its stop
-- reason, and that is within the limits of iterations, tool calls, recoverable errors, delegations,
-- results of a parallel batch, redirected finishes and repetitions in a row; at the limit of depth
-- it has no delegation. The run never exhausts the fuel for the iterations and the retries.
pub run-new_state :
    (runner : AgentRunner) (around : Surroundings) (goal run_id : String)
    (workspace_id : Option String) (approvals : Option (List (Item AgentState)))
    → limits_ok runner.delegation.control.limits ≡ true
    → IsConcluded runner.delegation.control 0 (
        run runner around goal
          (record { state = new_state goal run_id workspace_id; approvals = approvals }))
unfolding new_state consecutive_count limits_ok
run-new_state runner around goal run_id workspace_id approvals ok =
    run-IsConcluded runner around 0 goal _
      (record { running = refl; incomplete = refl; unstopped = refl }) (omega arith)
      (record {
        iterations = refl;
        tool_calls = omega arith;
        delegations = omega arith;
        redirects = omega arith;
        sequenced = tt;
        actions = λ f. omega arith;
        delegated = λ f. omega arith;
        errors = omega arith;
        open_errors = λ u. ground (arith, ok);
        batches = tt;
        shallow = λ deep. refl;
        status = refl;
      })
