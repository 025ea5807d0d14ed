-- ===== src/Runtime/Planning/Finish.antt =====
-- When `finish` is refused: evaluate_finish of backend/app/runtime/planning.py.
use autonomous_agent_runtime.Contracts.Investigation.{
  InvestigationPlan, AnalysisQuestion, QuestionStatus,
}
use autonomous_agent_runtime.Runtime.Planning.Reconcile.{is_supported, reconcile_plan-supported}
use autonomous_agent_runtime.Runtime.Planning.{
  reconcile_plan, resolved_query_ids, is_pending_question, missing_questions, missing_outputs,
  evaluate_finish, budget_exhausted, missing, is_empty, AnalysisQuestion, InvestigationPlan,
  Observation, reconcile_plan, resolved_query_ids, missing_questions,
}
use autonomous_agent_runtime.Runtime.State.{AgentState, RuntimeLimits}
use autonomous_agent_runtime.Prelude.{
  ◌+◌, ◌≤◌, ◌<◌, String, ◌<>◌, ◌≡◌, refl, inl, inr, Bool, true, false, ◌&&◌, ◌||◌, not, some, List,
  [], ◌∷◌, ◌++◌, map, arith, leb, Bool-cases, Option-cases, length, filter, all, contains,
  nat_instance, string_instance,
}

is_empty-length : {A : Type 0} (xs : List A) → is_empty xs ≡ false → 1 ≤ length xs
is_empty-length [] h = ground arith
is_empty-length (x ∷ xs) h = omega arith

module _ (state : AgentState) (limits : RuntimeLimits) where
  -- A refused `finish` leaves an iteration after this one, a tool call and a redirect, and names
  -- what is missing.
  pub refused-budget :
      (evaluate_finish state limits).accept ≡ false
      → (state.iteration_count + 1 < limits.max_iterations)
        × (state.total_tool_calls < limits.max_tool_calls)
        × (state.finish_redirect_count < limits.max_finish_redirects)
        × (1 ≤ length (evaluate_finish state limits).missing)
  unfolding evaluate_finish budget_exhausted
  refused-budget h = elim (Option-cases state.investigation_plan) [
    | inl e ↦ ground (arith, rw (e, evaluate_finish) at h)
    | inr (plan, e) ↦
        let gaps = missing plan state.observations in
        elim (Bool-cases (is_empty gaps)) [
          | inl full ↦ ground (arith, rw (e, full, evaluate_finish) at h)
          | inr lacking ↦
              elim (Bool-cases (
                budget_exhausted state limits
                || leb limits.max_finish_redirects state.finish_redirect_count)) [
                  | inl spent ↦ ground (arith, rw (e, lacking, spent, evaluate_finish) at h)
                  | inr room ↦ (
                    ground (arith, room),
                    ground (arith, room),
                    ground (arith, room),
                    rw (e, lacking, room, evaluate_finish) (is_empty-length gaps lacking),
                  )
                ]
        ]
  ]

-- An answered question with evidence of this run, or a blocked one.
abbrev pub is_resolved : List String → AnalysisQuestion → Bool
is_resolved known q = elim q.status [
  | QuestionStatus.pending ↦ false
  | QuestionStatus.blocked ↦ true
  | QuestionStatus.answered ↦ not (is_empty q.evidence_ids) && all (contains known) q.evidence_ids
]

resolved-supported :
    (known : List String) (q : AnalysisQuestion)
    → is_supported known q ≡ true
    → is_pending_question q ≡ false
    → is_resolved known q ≡ true
resolved-supported known q s p = ground (arith, s, p)

all-resolved :
    (known : List String) (questions : List AnalysisQuestion)
    → all (is_supported known) questions ≡ true
    → filter is_pending_question questions ≡ []
    → all (is_resolved known) questions ≡ true
all-resolved known [] s p = refl
all-resolved known (q ∷ questions) s p =
    ground (arith, resolved-supported known q, all-resolved known questions)

map-nil : {A B : Type 0} (f : A → B) (xs : List A) → map f xs ≡ [] → xs ≡ []
map-nil f [] h = refl
map-nil f (x ∷ xs) h = ground arith

append-nil_left : {A : Type 0} (xs ys : List A) → xs ++ ys ≡ [] → xs ≡ []
append-nil_left [] ys h = refl
append-nil_left (x ∷ xs) ys h = ground arith

is_empty-nil : {A : Type 0} (xs : List A) → is_empty xs ≡ true → xs ≡ []
is_empty-nil [] h = refl
is_empty-nil (x ∷ xs) h = ground arith

missing-nil :
    (state : AgentState) (limits : RuntimeLimits) (plan : InvestigationPlan)
    → state.investigation_plan ≡ some plan
    → (evaluate_finish state limits).missing ≡ []
    → missing plan state.observations ≡ []
unfolding evaluate_finish
missing-nil state limits plan e h =
    let gaps = missing plan state.observations in
    elim (Bool-cases (is_empty gaps)) [
      | inl full ↦ is_empty-nil gaps full
      | inr lacking ↦
          elim (Bool-cases (
            budget_exhausted state limits
            || leb limits.max_finish_redirects state.finish_redirect_count)) [
              | inl spent ↦ rw (e, lacking, spent, evaluate_finish) at h
              | inr room ↦ rw (e, lacking, room, evaluate_finish) at h
            ]
    ]

no_pending :
    (plan : InvestigationPlan) (observations : List Observation)
    → missing plan observations ≡ []
    → filter is_pending_question plan.questions ≡ []
unfolding missing
no_pending plan observations h =
    map-nil (λ (q : AnalysisQuestion). "Question not yet answered or blocked: " <> q.question)
      (filter is_pending_question plan.questions)
      (append-nil_left (missing_questions plan.questions) (missing_outputs plan.outputs)
        (append-nil_left (missing_questions plan.questions ++ missing_outputs plan.outputs) _ h))

-- A `finish` with nothing missing means that the plan is resolved: every question of the reconciled
-- plan is blocked, or it is answered by at least one query, and only by queries that this run
-- resolved.
pub finish-resolved :
    (state : AgentState) (limits : RuntimeLimits) (proposed : InvestigationPlan)
    (observations : List Observation)
    → state.investigation_plan ≡ some (reconcile_plan proposed observations)
    → (evaluate_finish state limits).missing ≡ []
    → all
        (is_resolved (resolved_query_ids observations))
        (reconcile_plan proposed observations).questions
      ≡ true
finish-resolved state limits proposed observations e h =
    let plan = reconcile_plan proposed observations in
    all-resolved _ plan.questions (reconcile_plan-supported proposed observations).0
      (no_pending plan state.observations (missing-nil state limits plan e h))
