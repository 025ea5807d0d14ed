-- ===== src/Scheduling/Worker/Settles.antt =====
-- A claimed schedule is settled: backend/app/scheduling/worker.py.
use autonomous_agent_runtime.Reliability.{RetryPolicy, retry_delay}
use autonomous_agent_runtime.Reliability.Bounds.{max_rule_attempts, retry_delay_bounds}
use autonomous_agent_runtime.Scheduling.Contracts.{
  ScheduledReport, ScheduleConfig, ScheduleResult, completed, failed, skipped,
}
use autonomous_agent_runtime.Scheduling.Worker.{
  outcome, Execution, executed, execution_error, raises, Attempts, out_of_fuel, raised, gave_up,
  succeeded, Worker, ScheduleRunOutcome, ExecutionRecord, attempts, failure_of, reschedule,
  skip_run, finish_run, run_attempts, run_one, executed_record,
}
use autonomous_agent_runtime.Scheduling.Store.{
  either, report_key, get, recorded, streak, record_run_result,
}
use mathlib.Core.Bool.{false≢true}
use autonomous_agent_runtime.Prelude.{
  ℕ, zero, suc, ◌+◌, ◌≤◌, ◌<◌, String, ◌≡◌, refl, sym, ap, ◌∙◌, subst, ◌⊎◌, inl, inr, Bool, true,
  false, not, Option, none, some, List, [], ◌∷◌, ◌++◌, arith, Bool-cases, Option-cases, length,
  length-append, string_instance, ◌==◌, nat_instance, is_some, lookup, put, key-lookup, lookup-put,
}

abbrev pub is_settled : Attempts → Bool
is_settled (gave_up _ _) = true
is_settled (succeeded _ _ _) = true
is_settled _ = false

abbrev pub is_raise : Execution → Bool
is_raise raises = true
is_raise _ = false

Execution-cases :
    (x : Execution)
    → (x ≡ raises)
      ⊎ (((r : String) × (a : List String) × (x ≡ executed r a))
          ⊎ ((e : String) × (x ≡ execution_error e)))
Execution-cases raises = inl refl
Execution-cases (executed r a) = inr (inl (r, a, refl))
Execution-cases (execution_error e) = inr (inr (e, refl))

Attempts-cases :
    (x : Attempts)
    → is_settled x ≡ true
    → ((r : String) × (a : List String) × (n : ℕ) × (x ≡ succeeded r a n))
      ⊎ ((e : String) × (n : ℕ) × (x ≡ gave_up e n))
Attempts-cases (succeeded r a n) h = inl (r, a, n, refl)
Attempts-cases (gave_up e n) h = inr (e, n, refl)
Attempts-cases out_of_fuel h = absurd (false≢true h)
Attempts-cases raised h = absurd (false≢true h)

-- With more fuel than the policy can grant attempts, the loop ends with a result or the last error.
attempts-settled :
    (policy : RetryPolicy) (execute : ℕ → Execution) (fuel attempt : ℕ)
    → ((n : ℕ) → is_raise (execute n) ≡ false)
    → 1 ≤ fuel
    → max_rule_attempts policy.rules < fuel + attempt
    → is_settled (attempts policy execute fuel attempt) ≡ true
unfolding attempts
attempts-settled policy execute zero attempt safe one lt = absurd (omega (arith, one))
attempts-settled policy execute (suc fuel) attempt safe one lt =
    elim (Execution-cases (execute attempt)) [
      | inl r ↦ absurd (false≢true (sym (safe attempt) ∙ ap is_raise r))
      | inr (inl (run_id, artifacts, e)) ↦ rw (attempts, e)
      | inr (inr (error, e)) ↦ elim (Option-cases (retry_delay policy (failure_of attempt))) [
        | inl n ↦ rw (attempts, e, n)
        | inr (delay, d) ↦
            let b = (retry_delay_bounds policy (failure_of attempt) delay d).4 in
            rw (attempts, e, d)
              (attempts-settled policy execute fuel (attempt + 1) safe (omega (arith, lt, b))
                (omega (arith, lt)))
      ]
    ]

get-facts :
    (workspace_id id : String) (store : List ScheduledReport) (row : ScheduledReport)
    → get workspace_id id store ≡ some row
    → (row.id ≡ id) × ((row.workspace_id == workspace_id) ≡ true)
unfolding get
get-facts workspace_id id store row h = elim (Option-cases (lookup report_key id store)) [
  | inl n ↦ absurd (false≢true (ap is_some (rw (get, n) at h)))
  | inr (r, e) ↦ elim (Bool-cases (r.workspace_id == workspace_id)) [
    | inr f ↦ absurd (false≢true (ap is_some (rw (get, e, f) at h)))
    | inl t ↦
        subst (λ (x : ScheduledReport). (x.id ≡ id) × ((x.workspace_id == workspace_id) ≡ true))
          (ap (λ o. either o r) (rw (get, e, t) at h)) (key-lookup report_key id store r e, t)
  ]
]

get-record_run_result :
    (workspace_id id : String) (now : ℕ) (status : ScheduleResult) (next : Option ℕ)
    (store : List ScheduledReport) (row : ScheduledReport)
    → get workspace_id id store ≡ some row
    → get workspace_id id (record_run_result workspace_id id now status next store)
      ≡ some (recorded now status next row)
unfolding record_run_result get recorded
get-record_run_result workspace_id id now status next store row h =
    let (same, of) = get-facts workspace_id id store row h in
    let new = recorded now status next row in
    rw (
      record_run_result,
      h,
      get,
      subst (λ k. lookup report_key k (put report_key new store) ≡ some new) same
          (lookup-put report_key new store),
      of,
    )

module _ (policy : RetryPolicy) (fuel : ℕ) (next_run_at : ScheduleConfig → String → ℕ → Option ℕ)
    (definition : String → String → Option Bool) (execute : ScheduledReport → ℕ → ℕ → Execution)
    (failed_run_id : String → ℕ → String) (schedule : ScheduledReport) (now next : ℕ) where
  -- The row carries the result and the next run, its claim is released, and its failures have grown
  -- by at most one.
  pub IsReleased : ScheduledReport → ScheduleResult → ScheduledReport → Type 0
  IsReleased row status after =
      (after.claimed_at ≡ none)
      × (after.last_result ≡ some status)
      × (after.next_run_at ≡ next)
      × (after.consecutive_failures ≤ row.consecutive_failures + 1)

  recorded-IsReleased :
      (status : ScheduleResult) (row : ScheduledReport)
      → IsReleased row status (recorded now status (some next) row)
  unfolding recorded streak IsReleased
  recorded-IsReleased completed row = (refl, refl, refl, omega arith)
  recorded-IsReleased failed row = (refl, refl, refl, omega arith)
  recorded-IsReleased skipped row = (refl, refl, refl, omega arith)

  -- The worker returns, the stored row is released, and at most one execution is recorded.
  pub IsSettled : ScheduledReport → Worker → Option (ScheduleRunOutcome × Worker) → Type 0
  IsSettled row w result =
      (o : ScheduleRunOutcome) × (t : Worker) × (result ≡ some (o, t))
      × ((after : ScheduledReport) × (get schedule.workspace_id schedule.id t.schedules
            ≡ some after)
          × IsReleased row o.status after)
      × (length t.executions ≤ length w.executions + 1)

  module _ (row : ScheduledReport) (w : Worker)
      (stored : get schedule.workspace_id schedule.id w.schedules ≡ some row)
      (fires : next_run_at schedule.schedule schedule.timezone now ≡ some next) where
    finish_run-IsSettled :
        (status : ScheduleResult) (entry : ExecutionRecord) (run_id error : Option String)
        → IsSettled row w (
            finish_run policy fuel next_run_at definition execute failed_run_id schedule now status
              entry run_id error w)
    unfolding finish_run reschedule IsSettled
    finish_run-IsSettled status entry run_id error =
        let after =
          record_run_result schedule.workspace_id schedule.id now status (some next) w.schedules in
        let t : Worker = record { schedules = after; executions = w.executions ++ (entry ∷ []) } in
        (
          outcome policy fuel next_run_at definition execute failed_run_id schedule status run_id
              error,
          t,
          rw (finish_run, reschedule, fires),
          (
            recorded now status (some next) row,
            get-record_run_result schedule.workspace_id schedule.id now status (some next)
                w.schedules row stored,
            recorded-IsReleased status row,
          ),
          omega (arith, length-append w.executions (entry ∷ [])),
        )

    skip_run-IsSettled :
        (reason : String)
        → IsSettled row w (
            skip_run policy fuel next_run_at definition execute failed_run_id schedule now reason w)
    unfolding skip_run reschedule IsSettled
    skip_run-IsSettled reason =
        let after =
          record_run_result schedule.workspace_id schedule.id now skipped (some next) w.schedules in
        (
          outcome policy fuel next_run_at definition execute failed_run_id schedule skipped none
              (some reason),
          record w { schedules = after },
          rw (skip_run, reschedule, fires),
          (
            recorded now skipped (some next) row,
            get-record_run_result schedule.workspace_id schedule.id now skipped (some next)
                w.schedules row stored,
            recorded-IsReleased skipped row,
          ),
          omega arith,
        )

    -- One run, where `next_run_at` gives a next run.
    pub run_one-IsSettled :
        ((n : ℕ) → is_raise (execute schedule now n) ≡ false)
        → 1 ≤ fuel
        → max_rule_attempts policy.rules < fuel + 1
        → IsSettled row w
            (run_one policy fuel next_run_at definition execute failed_run_id schedule now w)
    unfolding run_one run_attempts
    run_one-IsSettled safe one lt =
        elim (Option-cases (definition schedule.workspace_id schedule.saved_report_id)) [
          | inl n ↦ rw (run_one, n) (skip_run-IsSettled "the saved report no longer exists")
          | inr (active, e) ↦ elim (Bool-cases (not active)) [
            | inl t ↦ rw (run_one, e, t) (skip_run-IsSettled "the saved report is archived")
            | inr f ↦
                elim (Attempts-cases (attempts policy (execute schedule now) fuel 1)
                  (attempts-settled policy (execute schedule now) fuel 1 safe one lt)) [
                    | inl (r, a, n, s) ↦
                        rw (run_one, e, f, run_attempts, s)
                          (finish_run-IsSettled completed
                            (executed_record policy fuel next_run_at definition execute
                              failed_run_id schedule completed r none n a)
                            (some r) none)
                    | inr (x, n, s) ↦
                        rw (run_one, e, f, run_attempts, s)
                          (finish_run-IsSettled failed
                            (executed_record policy fuel next_run_at definition execute
                              failed_run_id schedule failed (failed_run_id schedule.id now) (some x)
                              n [])
                            none (some x))
                  ]
          ]
        ]
