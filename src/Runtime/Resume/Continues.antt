-- ===== src/Runtime/Resume/Continues.antt =====
-- A resumed run ends like any other: resume_approval and resume_rejection of
-- backend/app/runtime/runner.py.
use autonomous_agent_runtime.Security.Approvals.{
  ApprovalStatus, ApprovalError, Item, Result, ok, err, read, claim, claim_item, expired_item,
  expire, is_expiring, complete_execution, is_set, status_eq,
}
use autonomous_agent_runtime.Tools.Types.{ToolResult}
use autonomous_agent_runtime.Runtime.Actions.{record_observation}
use autonomous_agent_runtime.Runtime.Invariant.{
  IsValid, append_observation-IsValid, counted-IsValid,
}
use autonomous_agent_runtime.Runtime.Resume.{
  Resumption, continued, continue_run, resume_rejection, rejected_result,
}
use autonomous_agent_runtime.Runtime.Runner.{RunResult, finished, raised_error, out_of_fuel, run}
use autonomous_agent_runtime.Runtime.Runner.Outcome.{IsConcluded, IsOutcome, run-IsConcluded}
use autonomous_agent_runtime.Runtime.Control.{RunControl}
use autonomous_agent_runtime.Runtime.State.{AgentState, RunStatus, append_observation}
use autonomous_agent_runtime.Runtime.World.{AgentRunner, Surroundings, World}
use autonomous_agent_runtime.Prelude.{
  ℕ, suc, ◌+◌, ◌≤◌, String, ◌≡◌, refl, sym, ◌∙◌, subst, ◌⊎◌, inl, inr, false, ◌||◌, not, none, some,
  List, Bool-cases, Option-cases, string_instance, ◌==◌, nat_instance,
}

-- A state that a paused run has left in its checkpoint.
pub record IsResumable (control : RunControl) (extra : ℕ) (state : AgentState) : Type 0 where
  pub incomplete : state.completed ≡ false
  pub unstopped : state.stop_reason ≡ none
  pub bounded : state.iteration_count ≤ control.limits.max_iterations
  pub valid : IsValid control extra state.iteration_count state

-- A continued run is concluded; the other results continue none.
abbrev pub IsResumed : RunControl → ℕ → Resumption → Type 0
IsResumed control extra (continued r) = IsConcluded control extra r
IsResumed control extra _ = Unit

checkpoint-expired_item :
    (now : ℕ) (item : Item AgentState) → (expired_item now item).checkpoint ≡ item.checkpoint
unfolding expired_item
checkpoint-expired_item now item = elim (Bool-cases (is_expiring now item.request)) [
  | inl e ↦ rw (e, expired_item) refl
  | inr e ↦ rw (e, expired_item) refl
]

claim_item-cases :
    (expected : ApprovalStatus) (now : ℕ) (item : Item AgentState) (store : List (Item AgentState))
    → ((claim_item expected now item store).0 ≡ ok none)
      ⊎ ((c : Item AgentState) × ((claim_item expected now item store).0 ≡ ok (some c))
          × (c.checkpoint ≡ item.checkpoint))
unfolding claim_item
claim_item-cases expected now item store =
    elim (Bool-cases
      (not (item.request.status == expected) || is_set item.request.execution_started_at)) [
        | inl e ↦ inl (rw (e, claim_item) refl)
        | inr e ↦ inr (
          record item { request = record item.request { execution_started_at = some now } },
          rw (e, claim_item) refl,
          refl,
        )
      ]

-- A claim of a stored request hands out nothing, or the checkpoint that is stored.
claim-cases :
    (expected : ApprovalStatus) (now : ℕ) (id : String) (store : List (Item AgentState))
    (item : Item AgentState)
    → read id store ≡ some item
    → ((claim expected now id store).0 ≡ ok none)
      ⊎ ((c : Item AgentState) × ((claim expected now id store).0 ≡ ok (some c))
          × (c.checkpoint ≡ item.checkpoint))
unfolding claim
claim-cases expected now id store item found =
    let kept = checkpoint-expired_item now item in
    elim (claim_item-cases expected now (expired_item now item) (expire now item store)) [
      | inl e ↦ inl (rw (found, claim) e)
      | inr (c, e, same) ↦ inr (c, rw (found, claim) e, same ∙ kept)
    ]

module _ (runner : AgentRunner) (around : Surroundings) (extra : ℕ) where
  open runner use {delegation}
  open delegation use {control}

  module _ (now : ℕ) (id : String) (state : AgentState) (store : List (Item AgentState)) where
    abbrev resumed_world : World
    resumed_world = record {
      state = record state { status = RunStatus.running };
      approvals = some store;
    }

    stored-IsResumed :
        (w : World)
        → run runner around state.goal resumed_world ≡ finished w
        → IsOutcome control extra w.state
        → IsResumed control extra (continue_run runner around now id state store)
    unfolding continue_run
    stored-IsResumed w e o = elim (Option-cases w.approvals) [
      | inl f ↦ rw (e, f, continue_run) o
      | inr (later, f) ↦ elim (completed-cases (complete_execution now id w.state later).0) [
        | inl (x, g) ↦ rw (e, f, g, continue_run) tt
        | inr g ↦ rw (e, f, g, continue_run) o
      ]
    ]
      where
        completed-cases :
            (r : Result (Unit {0})) → ((x : ApprovalError) × (r ≡ err x)) ⊎ (r ≡ ok tt)
        completed-cases (ok tt) = inr refl
        completed-cases (err x) = inl (x, refl)

    continue_run-cases :
        (r : RunResult)
        → run runner around state.goal resumed_world ≡ r
        → IsConcluded control extra r
        → IsResumed control extra (continue_run runner around now id state store)
    unfolding continue_run
    continue_run-cases (finished w) e c = stored-IsResumed w e c
    continue_run-cases raised_error e c = rw (e, continue_run) tt
    continue_run-cases out_of_fuel e c = absurd c

    continue_run-IsResumed :
        IsResumable control extra state
        → IsResumed control extra (continue_run runner around now id state store)
    continue_run-IsResumed v = continue_run-cases _ refl (
        run-IsConcluded runner around extra state.goal resumed_world
          (record { running = refl; incomplete = v.incomplete; unstopped = v.unstopped }) v.bounded
          (record {
            iterations = refl;
            tool_calls = v.valid.tool_calls;
            delegations = v.valid.delegations;
            redirects = v.valid.redirects;
            sequenced = v.valid.sequenced;
            actions = v.valid.actions;
            delegated = v.valid.delegated;
            errors = v.valid.errors;
            open_errors = v.valid.open_errors;
            batches = v.valid.batches;
            shallow = v.valid.shallow;
            status = rw (v.incomplete, v.unstopped) refl;
          }))

  observed-IsResumable :
      (source : String) (r : ToolResult) (state : AgentState)
      → IsResumable control extra state
      → IsResumable control extra (record_observation source r state)
  unfolding record_observation append_observation
  observed-IsResumable source r state v = record {
    incomplete = v.incomplete;
    unstopped = v.unstopped;
    bounded = v.bounded;
    valid = append_observation-IsValid _ _ state tt v.valid;
  }

-- A rejection counts one recoverable error outside of the loop.
counted-IsResumable :
    (control : RunControl) (extra : ℕ) (state : AgentState)
    → IsResumable control extra state
    → IsResumable control
        (suc extra)
        (record state { recoverable_error_count = state.recoverable_error_count + 1 })
counted-IsResumable control extra state v = record {
  incomplete = v.incomplete;
  unstopped = v.unstopped;
  bounded = v.bounded;
  valid = counted-IsValid state v.unstopped v.valid;
}

module _ (runner : AgentRunner) (around : Surroundings) (extra now completed_at : ℕ) (id : String)
    (store : List (Item AgentState)) (item : Item AgentState) (found : read id store ≡ some item)
    (resumable : IsResumable runner.delegation.control extra item.checkpoint.state) where
  open runner use {delegation}
  open delegation use {control}

  saved :
      (c : Item AgentState)
      → c.checkpoint ≡ item.checkpoint
      → IsResumable control extra c.checkpoint.state
  saved c same = subst (λ kept. IsResumable control extra kept.state) (sym same) resumable

  -- The same holds of resuming after a rejection, but for the limit of recoverable errors, of which
  -- the continued run may count one more: the rejection itself is counted without a look at it.
  pub resume_rejection-IsResumed :
      IsResumed control (suc extra) (resume_rejection runner around now completed_at id store)
  unfolding resume_rejection record_observation append_observation
  resume_rejection-IsResumed = elim (claim-cases ApprovalStatus.rejected now id store item found) [
    | inl e ↦ rw (e, resume_rejection) tt
    | inr (c, e, same) ↦
        rw (e, resume_rejection)
          (continue_run-IsResumed runner around (suc extra) _ _ _ _ (
            counted-IsResumable control extra _ (
              observed-IsResumable runner around extra _ (rejected_result runner around id c)
                c.checkpoint.state (saved c same))))
  ]
