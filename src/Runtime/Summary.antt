-- ===== src/Runtime/Summary.antt =====
-- backend/app/runtime/summarization.py and steps/summarization_step.py: which observations leave the
-- recent window, and the summary that replaces them. The text of an outcome as JSON is the parameter
-- `dumps`, and a summarizer is a function; `none` is an exception of it.
use autonomous_agent_runtime.Runtime.State.{
  Observation, ObservationContent, TaskSummary, AgentState, succeeded,
}
use autonomous_agent_runtime.Prelude.{
  ℕ, zero, suc, ◌-◌, String, ◌<>◌, Option, none, some, List, [], ◌∷◌, ◌++◌, ltb, if◌then◌else◌,
  length, take, drop, contains, string_instance, nat_instance,
}

pub record SummaryPolicy : Type 0 where
  pub trigger_observations : ℕ
  pub recent_observations : ℕ

abbrev pub summarized : Option TaskSummary → ℕ
summarized none = 0
summarized (some s) = s.summarized_observation_count

-- `xs[start:stop]`
abbrev pub slice {ℓ} : {A : Type ℓ} → ℕ → ℕ → List A → List A
slice start stop xs = take (stop - start) (drop start xs)

unfoldable pub observations_to_summarize :
    SummaryPolicy → Option TaskSummary → List Observation → List Observation
observations_to_summarize policy summary observations =
    if ltb (length observations) policy.trigger_observations
    then []
    else slice (summarized summary) (length observations - policy.recent_observations) observations

abbrev pub empty_summary : String → TaskSummary
empty_summary goal = record {
  goal = goal;
  progress = [];
  unresolved_questions = [];
  important_decisions = [];
  failures_or_blockers = [];
  last_updated_iteration = 0;
  summarized_observation_count = 0;
}

abbrev pub summary_or : String → Option TaskSummary → TaskSummary
summary_or goal none = empty_summary goal
summary_or goal (some s) = s

unfoldable pub update :
    (TaskSummary → List Observation → Option TaskSummary) → SummaryPolicy → AgentState → AgentState
update summarize policy state =
    elim (observations_to_summarize policy state.task_summary state.observations) [
      | [] ↦ state
      | o ∷ os ↦ elim (summarize (summary_or state.goal state.task_summary) (o ∷ os)) [
        | none ↦ state
        | some summary ↦ record state {
          task_summary = some (record summary {
            goal = state.goal;
            last_updated_iteration = state.iteration_count;
            summarized_observation_count = length state.observations - policy.recent_observations;
          });
        }
      ]
    ]

-- `xs[-n:]`
abbrev pub last_of {ℓ} : {A : Type ℓ} → ℕ → List A → List A
last_of n xs = drop (length xs - n) xs

-- `s[:n]`
abbrev pub take_text : ℕ → String → String
take_text zero s = String.[]
take_text (suc n) String.[] = String.[]
take_text (suc n) (String.◌∷◌ c s) = String.◌∷◌ c (take_text n s)

abbrev pub append_new : String → List String → List String
append_new outcome target = if contains target outcome then target else target ++ outcome ∷ []

module _ (dumps : ObservationContent → String) where
  unfoldable pub outcome : Observation → String
  outcome o =
      o.source
      <> " ("
      <> (if succeeded o.content then "success" else "failed")
      <> "): "
      <> take_text 160 (dumps o.content)

  -- The loop: the progress and the failures so far.
  unfoldable pub collect : List Observation → List String → List String → List String × List String
  collect [] progress failures = (progress, failures)
  collect (o ∷ os) progress failures =
      if succeeded o.content
      then collect os (append_new (outcome o) progress) failures
      else collect os progress (append_new (outcome o) failures)

  -- DeterministicTaskSummarizer.summarize
  unfoldable pub summarize : TaskSummary → List Observation → TaskSummary
  summarize current observations =
      let found = collect observations current.progress current.failures_or_blockers in
      record current { progress = last_of 8 found.0; failures_or_blockers = last_of 8 found.1 }
