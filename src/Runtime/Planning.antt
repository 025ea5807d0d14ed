-- ===== src/Runtime/Planning.antt =====
-- backend/app/runtime/planning.py: what a plan may claim, and when `finish` is accepted.
pub mod Reconcile
pub mod Finish
use autonomous_agent_runtime.Prelude.Json.{Fields, get, as_str, as_dict}
use autonomous_agent_runtime.Contracts.Investigation.{
  InvestigationPlan, AnalysisQuestion, PlannedOutput, QuestionStatus, OutputStatus, OutputKind,
  RequestClass, required_outputs,
}
use autonomous_agent_runtime.Runtime.State.{
  Observation, ObservationContent, AgentState, RuntimeLimits, tool,
}
use autonomous_agent_runtime.Prelude.{
  ℕ, ◌+◌, String, ◌<>◌, Bool, true, false, ◌&&◌, ◌||◌, not, Option, none, some, List, [], ◌∷◌, ◌++◌,
  map, leb, if◌then◌else◌, length, filter, any, contains, ◌==◌, nat_instance, string_instance,
}

-- The output of a successful tool result that is a dictionary; no other content has one.
unfoldable pub dict_output : ObservationContent → Option Fields
dict_output (tool r) = if r.success then as_dict (some r.output) else none
dict_output _ = none

unfoldable pub successful_outputs : List Observation → String → List Fields
successful_outputs [] tool_name = []
successful_outputs (o ∷ rest) tool_name =
    let later = successful_outputs rest tool_name in
    if o.source == tool_name
    then (elim (dict_output o.content) [ none ↦ later | some output ↦ output ∷ later ])
    else later

abbrev pub query_ids : List Fields → List String
query_ids [] = []
query_ids (output ∷ rest) = elim (as_str (get "query_id" output)) [
  | none ↦ query_ids rest
  | some id ↦ id ∷ query_ids rest
]

-- The set is a list, in which only membership counts.
unfoldable pub resolved_query_ids : List Observation → List String
resolved_query_ids observations = query_ids (successful_outputs observations "query_database")

-- `d[key] = value`
abbrev pub put : String → String → List (String × String) → List (String × String)
put key value [] = (key, value) ∷ []
put key value ((k, v) ∷ rest) =
    let later = put key value rest in if k == key then (key, value) ∷ rest else (k, v) ∷ later

-- The chart id and the chart type that one output names.
abbrev pub display_of : Fields → Option (String × String)
display_of output = elim (as_str (get "chart_id" output)) [
  | none ↦ none
  | some id ↦ elim (as_dict (get "chart" output)) [
    | none ↦ none
    | some chart ↦ elim (as_str (get "type" chart)) [ none ↦ none | some type ↦ some (id, type) ]
  ]
]

abbrev pub add_displays : List Fields → List (String × String) → List (String × String)
add_displays [] displays = displays
add_displays (output ∷ rest) displays = elim (display_of output) [
  | none ↦ add_displays rest displays
  | some (id, type) ↦ add_displays rest (put id type displays)
]

unfoldable pub created_display_ids : List Observation → List (String × String)
created_display_ids observations = add_displays (successful_outputs observations "create_chart") []

abbrev pub names : List (String × String) → List String
names [] = []
names ((k, _) ∷ rest) = k ∷ names rest

abbrev pub chart_types : List (String × String) → List String
chart_types [] = []
chart_types ((_, type) ∷ rest) = type ∷ chart_types rest

abbrev pub strings_eq : List String → List String → Bool
strings_eq [] [] = true
strings_eq (s ∷ ss) (t ∷ ts) = s == t && strings_eq ss ts
strings_eq _ _ = false

abbrev pub is_empty {ℓ} : {A : Type ℓ} → List A → Bool
is_empty [] = true
is_empty (_ ∷ _) = false

unfoldable pub reconcile_question : List String → AnalysisQuestion → AnalysisQuestion
reconcile_question known question = elim question.status [
  | QuestionStatus.answered ↦
      let verified = filter (contains known) question.evidence_ids in
      if is_empty verified
      then record question { status = QuestionStatus.pending; evidence_ids = [] }
      else if not (strings_eq verified question.evidence_ids)
      then record question { evidence_ids = verified }
      else question
  | _ ↦ question
]

-- `output.display_id and output.display_id in known_displays`
abbrev pub is_known : List (String × String) → Option String → Bool
is_known displays none = false
is_known displays (some id) = not (id == "") && contains (names displays) id

unfoldable pub reconcile_output : List (String × String) → PlannedOutput → PlannedOutput
reconcile_output displays output = elim output.status [
  | OutputStatus.created ↦
      if is_known displays output.display_id
      then output
      else record output { status = OutputStatus.pending; display_id = none }
  | _ ↦ output
]

unfoldable pub reconcile_plan : InvestigationPlan → List Observation → InvestigationPlan
reconcile_plan plan observations = record plan {
  questions = map (reconcile_question (resolved_query_ids observations)) plan.questions;
  outputs = map (reconcile_output (created_display_ids observations)) plan.outputs;
}

abbrev pub is_pending_question : AnalysisQuestion → Bool
is_pending_question question = elim question.status [ QuestionStatus.pending ↦ true | _ ↦ false ]

abbrev pub is_pending_output : PlannedOutput → Bool
is_pending_output output = elim output.status [ OutputStatus.pending ↦ true | _ ↦ false ]

abbrev pub is_created_table : PlannedOutput → Bool
is_created_table output = elim output.kind [
  | OutputKind.table ↦ (elim output.status [ OutputStatus.created ↦ true | _ ↦ false ])
  | _ ↦ false
]

unfoldable pub has_created_table : InvestigationPlan → List Observation → Bool
has_created_table plan observations =
    any is_created_table plan.outputs
    || contains (chart_types (created_display_ids observations)) "table"

pub record FinishEvaluation : Type 0 where
  pub accept : Bool
  pub missing : List String

abbrev pub is_detailed_report : RequestClass → Bool
is_detailed_report RequestClass.detailed_report = true
is_detailed_report _ = false

abbrev pub missing_questions : List AnalysisQuestion → List String
missing_questions questions =
    map (λ q. "Question not yet answered or blocked: " <> q.question)
      (filter is_pending_question questions)

abbrev pub missing_outputs : List PlannedOutput → List String
missing_outputs outputs =
    map (λ o. "Required output not yet created or blocked: " <> o.purpose)
      (filter (λ o. o.required && is_pending_output o) outputs)

-- The gaps of a plan, in the order in which they are reported.
unfoldable pub missing : InvestigationPlan → List Observation → List String
missing plan observations =
    missing_questions plan.questions
    ++ missing_outputs plan.outputs
    ++ (if is_detailed_report plan.request_class && not (has_created_table plan observations)
        then "A detailed report was requested but no supporting table has been created." ∷ []
        else [])

-- A difference of integers is compared as a sum: `max - count <= 1` is `max <= count + 1`.
unfoldable pub budget_exhausted : AgentState → RuntimeLimits → Bool
budget_exhausted state limits =
    leb limits.max_iterations (state.iteration_count + 1)
    || leb limits.max_tool_calls state.total_tool_calls

unfoldable pub evaluate_finish : AgentState → RuntimeLimits → FinishEvaluation
evaluate_finish state limits = elim state.investigation_plan [
  | none ↦ record { accept = true; missing = [] }
  | some plan ↦
      let gaps = missing plan state.observations in
      if is_empty gaps
      then record { accept = true; missing = [] }
      else if budget_exhausted state limits
          || leb limits.max_finish_redirects state.finish_redirect_count
      then record { accept = true; missing = gaps }
      else record { accept = false; missing = gaps }
]

pub record PlanProgress : Type 0 where
  pub questions_answered : ℕ
  pub questions_blocked : ℕ
  pub questions_total : ℕ
  pub outputs_created : ℕ
  pub outputs_blocked : ℕ
  pub outputs_required : ℕ
  pub outputs_total : ℕ
  pub maximum_displays : ℕ

unfoldable pub plan_progress : InvestigationPlan → PlanProgress
plan_progress plan = record {
  questions_answered = length (
      filter
        (λ (q : AnalysisQuestion). elim q.status [ QuestionStatus.answered ↦ true | _ ↦ false ])
        plan.questions);
  questions_blocked = length (
      filter (λ (q : AnalysisQuestion). elim q.status [ QuestionStatus.blocked ↦ true | _ ↦ false ])
        plan.questions);
  questions_total = length plan.questions;
  outputs_created = length (
      filter (λ (o : PlannedOutput). elim o.status [ OutputStatus.created ↦ true | _ ↦ false ])
        plan.outputs);
  outputs_blocked = length (
      filter (λ (o : PlannedOutput). elim o.status [ OutputStatus.blocked ↦ true | _ ↦ false ])
        plan.outputs);
  outputs_required = length (required_outputs plan);
  outputs_total = length plan.outputs;
  maximum_displays = plan.maximum_displays;
}
