-- ===== src/Runtime/Invariant.antt =====
-- What holds of the state of a run between any two actions, and that the state's elementary changes
-- keep it: the limits of the runtime, the numbering of the observations, and a terminal status that
-- agrees with the stop reason.
use autonomous_agent_runtime.Runtime.Control.{RunControl, stop, record_recoverable_error}
use autonomous_agent_runtime.Runtime.Requests.{
  consecutive_count, trailing, reversed, account_delegation_results,
}
use autonomous_agent_runtime.Runtime.State.{
  AgentState, Observation, ObservationContent, RuntimeLimits, RunStatus, StopReason, SubagentResult,
  append_observation,
}
use autonomous_agent_runtime.Prelude.{
  ℕ, suc, ◌+◌, ◌≤◌, ◌<◌, String, ◌≡◌, refl, sym, ap, inl, inr, Bool, true, false, not, Option, none,
  some, List, [], ◌∷◌, ◌++◌, arith, leb, if◌then◌else◌, leb→lt, Bool-cases, length, string_instance,
  ◌==◌, nat_instance,
}

-- The observations are numbered one after the other.
abbrev pub IsSequenced : ℕ → List Observation → Type 0
IsSequenced n [] = Unit
IsSequenced n (o ∷ rest) = (o.sequence ≡ n) × IsSequenced (n + 1) rest

abbrev pub is_completion : StopReason → Bool
is_completion StopReason.completed = true
is_completion _ = false

-- Whether status, completion flag and stop reason tell the same story.
abbrev pub coherent : RunStatus → Bool → Option StopReason → Bool
coherent RunStatus.running false none = true
coherent RunStatus.waiting_for_approval false none = true
coherent RunStatus.completed true (some reason) = is_completion reason
coherent RunStatus.failed false (some reason) = not (is_completion reason)
coherent _ _ _ = false

-- No text stands at the end more often in a row than the limit.
abbrev pub IsVaried : ℕ → List String → Type 0
IsVaried limit fingerprints = (f : String) → consecutive_count fingerprints f ≤ limit

-- A batch of parallel delegations has no more results than the limit.
abbrev pub IsNarrow : RuntimeLimits → ObservationContent → Type 0
IsNarrow limits (ObservationContent.parallel r) = length r.results ≤ limits.max_parallel_subagents
IsNarrow limits _ = Unit

abbrev pub AreNarrow : RuntimeLimits → List Observation → Type 0
AreNarrow limits [] = Unit
AreNarrow limits (o ∷ rest) = IsNarrow limits o.content × AreNarrow limits rest

-- Every limit that the loop and its steps enforce. `extra` is the number of recoverable errors that
-- were counted outside of the loop; a state without a stop reason is below the limit of errors.
pub record IsValid (control : RunControl) (extra iteration : ℕ) (state : AgentState) : Type 0 where
  pub iterations : state.iteration_count ≡ iteration
  pub tool_calls : state.total_tool_calls ≤ control.limits.max_tool_calls
  pub delegations : length state.delegation_requests ≤ control.limits.max_delegations_per_run
  pub redirects : state.finish_redirect_count ≤ control.limits.max_finish_redirects
  pub sequenced : IsSequenced 1 state.observations
  pub actions :
      IsVaried control.limits.max_consecutive_duplicate_actions state.recent_action_fingerprints
  pub delegated :
      IsVaried control.limits.max_consecutive_duplicate_actions state.recent_delegation_fingerprints
  pub errors : state.recoverable_error_count ≤ control.limits.max_recoverable_errors + extra
  pub open_errors :
      state.stop_reason ≡ none
      → state.recoverable_error_count < control.limits.max_recoverable_errors + extra
  pub batches : AreNarrow control.limits state.observations
  pub shallow :
      control.limits.max_agent_depth ≤ control.agent_depth → length state.delegation_requests ≡ 0
  pub status : coherent state.status state.completed state.stop_reason ≡ true

-- A run that is still going.
pub record IsActive (state : AgentState) : Type 0 where
  pub running : state.status ≡ RunStatus.running
  pub incomplete : state.completed ≡ false
  pub unstopped : state.stop_reason ≡ none

AreNarrow-append :
    (limits : RuntimeLimits) (os : List Observation) (o : Observation)
    → AreNarrow limits os
    → IsNarrow limits o.content
    → AreNarrow limits (os ++ o ∷ [])
AreNarrow-append limits [] o h e = (e, tt)
AreNarrow-append limits (p ∷ os) o h e = (h.0, AreNarrow-append limits os o h.1 e)

pub IsSequenced-append :
    (n : ℕ) (os : List Observation) (o : Observation)
    → IsSequenced n os
    → o.sequence ≡ length os + n
    → IsSequenced n (os ++ o ∷ [])
IsSequenced-append n [] o h e = (omega (arith, e), tt)
IsSequenced-append n (p ∷ os) o h e = (h.0, IsSequenced-append (n + 1) os o h.1 (omega (arith, e)))

reversed-append : (fs : List String) (f : String) → reversed (fs ++ f ∷ []) ≡ f ∷ reversed fs
reversed-append [] f = refl
reversed-append (g ∷ fs) f = ap (λ t. t ++ g ∷ []) (reversed-append fs f)

consecutive_count-append :
    (fs : List String) (f g : String)
    → consecutive_count (fs ++ f ∷ []) g ≡ (if f == g then suc (consecutive_count fs g) else 0)
unfolding consecutive_count
consecutive_count-append fs f g = ap (trailing g) (reversed-append fs f)

pub IsVaried-append :
    (limit : ℕ) (fs : List String) (f : String)
    → IsVaried limit fs
    → leb limit (consecutive_count fs f) ≡ false
    → IsVaried limit (fs ++ f ∷ [])
IsVaried-append limit fs f h room g = elim (Bool-cases (f == g)) [
  | inl e ↦
      let same = (string_instance.beq_iff f g).0 e in
      rw (consecutive_count-append fs f g, e)
        (rw (sym same) (leb→lt limit (consecutive_count fs f) room))
  | inr e ↦ rw (consecutive_count-append fs f g, e) (omega arith)
]

-- A predicate on what is returned, if anything is.
abbrev pub Returned {ℓ κ} : {A : Type ℓ} → (A → Type κ) → Option A → Type κ
Returned P none = Unit
Returned P (some a) = P a

module _ {control : RunControl} {extra n : ℕ} where
  pub append_observation-IsValid :
      (source : String) (content : ObservationContent) (s : AgentState)
      → IsNarrow control.limits content
      → IsValid control extra n s
      → IsValid control extra n (append_observation source content s)
  unfolding append_observation
  append_observation-IsValid source content s narrow v = record {
    iterations = v.iterations;
    tool_calls = v.tool_calls;
    delegations = v.delegations;
    redirects = v.redirects;
    sequenced = IsSequenced-append 1 s.observations _ v.sequenced refl;
    actions = v.actions;
    delegated = v.delegated;
    errors = v.errors;
    open_errors = v.open_errors;
    batches = AreNarrow-append control.limits s.observations _ v.batches narrow;
    shallow = v.shallow;
    status = v.status;
  }

  pub stop-IsValid :
      (reason : StopReason) (answer : String) (s : AgentState)
      → is_completion reason ≡ false
      → IsValid control extra n s
      → IsValid control extra n (stop reason answer s)
  unfolding stop
  stop-IsValid reason answer s h v = record {
    iterations = v.iterations;
    tool_calls = v.tool_calls;
    delegations = v.delegations;
    redirects = v.redirects;
    sequenced = v.sequenced;
    actions = v.actions;
    delegated = v.delegated;
    errors = v.errors;
    open_errors = λ e. ground arith;
    batches = v.batches;
    shallow = v.shallow;
    status = rw h refl;
  }

  -- One more recoverable error, within what the limits and `extra` leave.
  pub counted-IsValid :
      (s : AgentState)
      → s.stop_reason ≡ none
      → IsValid control extra n s
      → IsValid control
          (suc extra)
          n
          (record s { recoverable_error_count = s.recoverable_error_count + 1 })
  counted-IsValid s u v = record {
    iterations = v.iterations;
    tool_calls = v.tool_calls;
    delegations = v.delegations;
    redirects = v.redirects;
    sequenced = v.sequenced;
    actions = v.actions;
    delegated = v.delegated;
    errors = omega (arith, v.errors);
    open_errors = λ e. omega (arith, v.open_errors u);
    batches = v.batches;
    shallow = v.shallow;
    status = v.status;
  }

module _ {control : RunControl} {extra n : ℕ} where
  -- The same below the limit of the loop, or once the run has stopped.
  held-IsValid :
      (s : AgentState)
      → s.recoverable_error_count ≤ control.limits.max_recoverable_errors + extra
      → (s.stop_reason ≡ none
          → s.recoverable_error_count < control.limits.max_recoverable_errors + extra)
      → IsValid control (suc extra) n s
      → IsValid control extra n s
  held-IsValid s errors open_errors v = record {
    iterations = v.iterations;
    tool_calls = v.tool_calls;
    delegations = v.delegations;
    redirects = v.redirects;
    sequenced = v.sequenced;
    actions = v.actions;
    delegated = v.delegated;
    errors = errors;
    open_errors = open_errors;
    batches = v.batches;
    shallow = v.shallow;
    status = v.status;
  }

  pub record_recoverable_error-IsValid :
      (s : AgentState)
      → s.stop_reason ≡ none
      → IsValid control extra n s
      → IsValid control extra n (record_recoverable_error control s)
  unfolding record_recoverable_error stop
  record_recoverable_error-IsValid s u v =
      let counted = counted-IsValid s u v in
      let room : (s.recoverable_error_count < control.limits.max_recoverable_errors + extra) =
        v.open_errors u in
      elim (Bool-cases
        (leb control.limits.max_recoverable_errors (s.recoverable_error_count + 1))) [
          | inl e ↦ rw e (
              held-IsValid _ (omega (arith, room)) (λ e. ground arith)
                (stop-IsValid _ _ _ refl counted))
          | inr e ↦ rw e (held-IsValid _ (omega (arith, room)) (λ h. ground (arith, e)) counted)
        ]

  pub account_delegation_results-IsValid :
      (results : List SubagentResult) (s : AgentState)
      → IsValid control extra n s
      → IsValid control extra n (account_delegation_results results s)
  unfolding account_delegation_results
  account_delegation_results-IsValid results s v = record {
    iterations = v.iterations;
    tool_calls = v.tool_calls;
    delegations = v.delegations;
    redirects = v.redirects;
    sequenced = v.sequenced;
    actions = v.actions;
    delegated = v.delegated;
    errors = v.errors;
    open_errors = v.open_errors;
    batches = v.batches;
    shallow = v.shallow;
    status = v.status;
  }
