-- ===== src/Runtime/Planning/Reconcile.antt =====
-- What a reconciled plan may claim: reconcile_plan of backend/app/runtime/planning.py.
use autonomous_agent_runtime.Contracts.Investigation.{
  InvestigationPlan, AnalysisQuestion, PlannedOutput, QuestionStatus, OutputStatus,
}
use autonomous_agent_runtime.Runtime.Planning.{
  reconcile_question, reconcile_output, reconcile_plan, resolved_query_ids, created_display_ids,
  is_empty, is_known, strings_eq,
}
use autonomous_agent_runtime.Runtime.State.{Observation}
use autonomous_agent_runtime.Prelude.{
  String, ◌≡◌, refl, ap, subst, ◌⊎◌, inl, inr, Bool, true, false, ◌&&◌, not, List, [], ◌∷◌, map,
  arith, Bool-cases, filter, all, contains, nat_instance, string_instance, ==-refl,
}

-- An answered question cites evidence, and only evidence that the run has.
abbrev pub is_supported : List String → AnalysisQuestion → Bool
is_supported known q = elim q.status [
  | QuestionStatus.answered ↦ not (is_empty q.evidence_ids) && all (contains known) q.evidence_ids
  | _ ↦ true
]

-- A created output names a display that the run has.
abbrev pub is_backed : List (String × String) → PlannedOutput → Bool
is_backed displays o = elim o.status [
  | OutputStatus.created ↦ is_known displays o.display_id
  | _ ↦ true
]

module _ {A : Type 0} where
  all-map :
      (p : A → Bool) (f : A → A)
      → ((a : A) → p (f a) ≡ true)
      → (xs : List A) → all p (map f xs) ≡ true
  all-map p f h [] = refl
  all-map p f h (x ∷ xs) = ground (arith, h x, all-map p f h xs)

  all-filter : (p : A → Bool) (xs : List A) → all p (filter p xs) ≡ true
  all-filter p [] = refl
  all-filter p (x ∷ xs) = ground (arith, all-filter p xs)

  filter-all : (p : A → Bool) (xs : List A) → all p xs ≡ true → filter p xs ≡ xs
  filter-all p [] h = refl
  filter-all p (x ∷ xs) h = ground (arith, filter-all p xs)

  map-fixed :
      (p : A → Bool) (f : A → A)
      → ((a : A) → p a ≡ true → f a ≡ a)
      → (xs : List A) → all p xs ≡ true
      → map f xs ≡ xs
  map-fixed p f h [] e = refl
  map-fixed p f h (x ∷ xs) e = ground (arith, h x, map-fixed p f h xs)

strings_eq_refl : (xs : List String) → strings_eq xs xs ≡ true
strings_eq_refl [] = refl
strings_eq_refl (x ∷ xs) = ground (arith, ==-refl x, strings_eq_refl xs)

strings_eq-eq : (xs ys : List String) → strings_eq xs ys ≡ true → xs ≡ ys
strings_eq-eq [] [] h = refl
strings_eq-eq [] (y ∷ ys) h = ground arith
strings_eq-eq (x ∷ xs) [] h = ground arith
strings_eq-eq (x ∷ xs) (y ∷ ys) h = ground (arith, string_instance.beq_iff x y, strings_eq-eq xs ys)

QuestionStatus-cases :
    (s : QuestionStatus)
    → (s ≡ QuestionStatus.answered) ⊎ (s ≡ QuestionStatus.pending) ⊎ (s ≡ QuestionStatus.blocked)
QuestionStatus-cases QuestionStatus.answered = inl refl
QuestionStatus-cases QuestionStatus.pending = inr (inl refl)
QuestionStatus-cases QuestionStatus.blocked = inr (inr refl)

module _ (known : List String) where
  reconcile_question-is_supported :
      (q : AnalysisQuestion) → is_supported known (reconcile_question known q) ≡ true
  unfolding reconcile_question
  reconcile_question-is_supported q = elim (QuestionStatus-cases q.status) [
    | inr (inl e) ↦ rw (e, reconcile_question) (rw e refl)
    | inr (inr e) ↦ rw (e, reconcile_question) (rw e refl)
    | inl e ↦
        let verified = filter (contains known) q.evidence_ids in
        let cited = all-filter (contains known) q.evidence_ids in
        elim (Bool-cases (is_empty verified)) [
          | inl f ↦ rw (e, f, reconcile_question) refl
          | inr f ↦ elim (Bool-cases (strings_eq verified q.evidence_ids)) [
            | inl g ↦
                rw (e, f, g, reconcile_question)
                  (rw e (
                    subst (λ xs. (not (is_empty xs) && all (contains known) xs) ≡ true)
                      (strings_eq-eq verified q.evidence_ids g) (ground (arith, f, cited))))
            | inr g ↦ rw (e, f, g, reconcile_question) (rw e (ground (arith, f, cited)))
          ]
        ]
  ]

  reconcile_question-fixed :
      (q : AnalysisQuestion) → is_supported known q ≡ true → reconcile_question known q ≡ q
  unfolding reconcile_question
  reconcile_question-fixed q h = elim (QuestionStatus-cases q.status) [
    | inr (inl e) ↦ rw (e, reconcile_question) (ap (λ s. record q { status = s }) e)
    | inr (inr e) ↦ rw (e, reconcile_question) (ap (λ s. record q { status = s }) e)
    | inl e ↦
        let claim = rw e at h in
        rw
          (
            e,
            filter-all (contains known) q.evidence_ids (ground (arith, claim)),
            evidence (is_empty q.evidence_ids) (all (contains known) q.evidence_ids) claim,
            strings_eq_refl q.evidence_ids,
            reconcile_question,
          )
          (ap (λ s. record q { status = s }) e)
  ]
    where
      evidence : (b c : Bool) → (not b && c) ≡ true → b ≡ false
      evidence b c h = ground arith

OutputStatus-cases :
    (s : OutputStatus)
    → (s ≡ OutputStatus.created)
      ⊎ (s ≡ OutputStatus.pending)
      ⊎ (s ≡ OutputStatus.skipped)
      ⊎ (s ≡ OutputStatus.blocked)
OutputStatus-cases OutputStatus.created = inl refl
OutputStatus-cases OutputStatus.pending = inr (inl refl)
OutputStatus-cases OutputStatus.skipped = inr (inr (inl refl))
OutputStatus-cases OutputStatus.blocked = inr (inr (inr refl))

module _ (displays : List (String × String)) where
  reconcile_output-is_backed :
      (o : PlannedOutput) → is_backed displays (reconcile_output displays o) ≡ true
  unfolding reconcile_output
  reconcile_output-is_backed o = elim (OutputStatus-cases o.status) [
    | inr (inl e) ↦ rw (e, reconcile_output) (rw e refl)
    | inr (inr (inl e)) ↦ rw (e, reconcile_output) (rw e refl)
    | inr (inr (inr e)) ↦ rw (e, reconcile_output) (rw e refl)
    | inl e ↦ elim (Bool-cases (is_known displays o.display_id)) [
      | inl f ↦ rw (e, f, reconcile_output) (rw e f)
      | inr f ↦ rw (e, f, reconcile_output) refl
    ]
  ]

  reconcile_output-fixed :
      (o : PlannedOutput) → is_backed displays o ≡ true → reconcile_output displays o ≡ o
  unfolding reconcile_output
  reconcile_output-fixed o h = elim (OutputStatus-cases o.status) [
    | inr (inl e) ↦ rw (e, reconcile_output) (ap (λ s. record o { status = s }) e)
    | inr (inr (inl e)) ↦ rw (e, reconcile_output) (ap (λ s. record o { status = s }) e)
    | inr (inr (inr e)) ↦ rw (e, reconcile_output) (ap (λ s. record o { status = s }) e)
    | inl e ↦ rw (e, rw e at h, reconcile_output) (ap (λ s. record o { status = s }) e)
  ]

module _ (plan : InvestigationPlan) (observations : List Observation) where
  -- After reconciling, every answered question cites at least one query, and only queries that
  -- this run resolved; and every created output names a display that this run created.
  pub reconcile_plan-supported :
      (all
          (is_supported (resolved_query_ids observations))
          (reconcile_plan plan observations).questions
        ≡ true)
      × (all
            (is_backed (created_display_ids observations))
            (reconcile_plan plan observations).outputs
          ≡ true)
  unfolding reconcile_plan
  reconcile_plan-supported = (
    all-map _ _ (reconcile_question-is_supported (resolved_query_ids observations)) plan.questions,
    all-map _ _ (reconcile_output-is_backed (created_display_ids observations)) plan.outputs,
  )

  -- Reconciling a second time against the same observations changes nothing.
  pub reconcile_plan-idempotent :
      reconcile_plan (reconcile_plan plan observations) observations
      ≡ reconcile_plan plan observations
  unfolding reconcile_plan
  reconcile_plan-idempotent =
      let supported = reconcile_plan-supported in
      rw
        (
          map-fixed _ _ (reconcile_question-fixed (resolved_query_ids observations)) _ supported.0,
          map-fixed _ _ (reconcile_output-fixed (created_display_ids observations)) _ supported.1,
        )
        refl
