-- ===== src/Scheduling/Worker.antt =====
-- SchedulerWorker of backend/app/scheduling/worker.py. The saved reports and their execution are
-- parameters. The deliveries that follow a completed run, which nothing reads, are left out, and so
-- is the usage metadata. `none` is an exception that leaves `run_once`.
pub mod Settles
pub mod Released
use autonomous_agent_runtime.Reliability.{
  FailureCategory, RuntimeFailure, RetryRule, RetryPolicy, rule, retry_delay,
}
use autonomous_agent_runtime.Scheduling.Contracts.{
  ScheduledReport, ScheduleConfig, ScheduleResult, completed, failed, skipped,
}
use autonomous_agent_runtime.Reports.Periods.{Date}
use autonomous_agent_runtime.Scheduling.Calculator.{LocalTime, compute_next_run}
use autonomous_agent_runtime.Scheduling.Store.{record_run_result, claim_due}
use autonomous_agent_runtime.Prelude.{
  ℕ, zero, suc, ◌+◌, ◌-◌, String, Bool, true, not, Option, none, some, List, [], ◌∷◌, ◌++◌,
  if◌then◌else◌,
}

abbrev pub scheduled_policy : RetryPolicy
scheduled_policy = record {
  rules = ("scheduled_report", FailureCategory.scheduled_report_failure, rule 3 500 5000) ∷ [];
}

-- One call of `SavedReportExecutionService.execute`: a run with its artifacts, a
-- SavedReportExecutionError, or another exception.
pub data Execution : Type 0 where
  executed : String → List String → Execution
  execution_error : String → Execution
  raises : Execution

-- The loop of attempts: out of fuel, an exception, the last error or the result, each of the latter
-- with the number of attempts.
pub data Attempts : Type 0 where
  out_of_fuel raised : Attempts
  gave_up : String → ℕ → Attempts
  succeeded : String → List String → ℕ → Attempts

-- A row of `create_execution` and `finish_execution`.
pub record ExecutionRecord : Type 0 where
  pub workspace_id : String
  pub saved_report_id : String
  pub run_id : String
  pub status : ScheduleResult
  pub error : Option String
  pub scheduled_report_id : String
  pub retry_count : ℕ
  pub artifact_ids : List String

pub record ScheduleRunOutcome : Type 0 where
  pub scheduled_report_id : String
  pub status : ScheduleResult
  pub run_id : Option String
  pub error : Option String

pub record Worker : Type 0 where
  pub schedules : List ScheduledReport
  pub executions : List ExecutionRecord

abbrev pub failure_of : ℕ → RuntimeFailure
failure_of attempt = record {
  category = FailureCategory.scheduled_report_failure;
  retryable = true;
  source = "scheduled_report";
  attempt = attempt;
}

unfoldable pub attempts : RetryPolicy → (ℕ → Execution) → ℕ → ℕ → Attempts
attempts policy execute zero attempt = out_of_fuel
attempts policy execute (suc fuel) attempt =
    let rest = attempts policy execute fuel (attempt + 1) in
    elim (execute attempt) [
      | executed run_id artifacts ↦ succeeded run_id artifacts attempt
      | raises ↦ raised
      | execution_error error ↦ elim (retry_delay policy (failure_of attempt)) [
        | none ↦ gave_up error attempt
        | some delay ↦ rest
      ]
    ]

-- The call of compute_next_run in `_reschedule`: `to_utc` and `local_time` convert by the time zone,
-- and eight steps of the generator are enough (Calculator.Termination).
unfoldable pub scheduled_next_run :
    (Date → ℕ → Option Date)
    → (Date → ℕ)
    → (String → Date → ℕ → ℕ → ℕ)
    → (String → ℕ → LocalTime)
    → ScheduleConfig
    → String
    → ℕ
    → Option ℕ
scheduled_next_run add_days weekday to_utc local_time config timezone now =
    compute_next_run add_days weekday (to_utc timezone) 8 config (local_time timezone now)

-- `next_run_at` is scheduled_next_run, that is, compute_next_run for the schedule, its time zone and the current instant;
-- `definition` says whether the saved report exists and is active; `failed_run_id` is the text that
-- names a failed run.
module _ (policy : RetryPolicy) (fuel : ℕ) (next_run_at : ScheduleConfig → String → ℕ → Option ℕ)
    (definition : String → String → Option Bool) (execute : ScheduledReport → ℕ → ℕ → Execution)
    (failed_run_id : String → ℕ → String) where
  unfoldable pub reschedule : ScheduledReport → ℕ → ScheduleResult → Worker → Option Worker
  reschedule schedule now result w = elim (next_run_at schedule.schedule schedule.timezone now) [
    | none ↦ none
    | some next ↦ some (record w {
      schedules =
          record_run_result schedule.workspace_id schedule.id now result (some next) w.schedules;
    })
  ]

  abbrev pub outcome :
      ScheduledReport → ScheduleResult → Option String → Option String → ScheduleRunOutcome
  outcome schedule status run_id error = record {
    scheduled_report_id = schedule.id;
    status = status;
    run_id = run_id;
    error = error;
  }

  unfoldable pub skip_run :
      ScheduledReport → ℕ → String → Worker → Option (ScheduleRunOutcome × Worker)
  skip_run schedule now reason w = elim (reschedule schedule now skipped w) [
    | none ↦ none
    | some next ↦ some (outcome schedule skipped none (some reason), next)
  ]

  unfoldable pub executed_record :
      ScheduledReport → ScheduleResult → String → Option String → ℕ → List String → ExecutionRecord
  executed_record schedule status run_id error attempt artifacts = record {
    workspace_id = schedule.workspace_id;
    saved_report_id = schedule.saved_report_id;
    run_id = run_id;
    status = status;
    error = error;
    scheduled_report_id = schedule.id;
    retry_count = attempt - 1;
    artifact_ids = artifacts;
  }

  unfoldable pub finish_run :
      ScheduledReport
      → ℕ
      → ScheduleResult
      → ExecutionRecord
      → Option String
      → Option String
      → Worker
      → Option (ScheduleRunOutcome × Worker)
  finish_run schedule now status row run_id error w =
      elim (reschedule schedule now status (record w { executions = w.executions ++ (row ∷ []) })) [
        | none ↦ none
        | some next ↦ some (outcome schedule status run_id error, next)
      ]

  unfoldable pub run_attempts : ScheduledReport → ℕ → Worker → Option (ScheduleRunOutcome × Worker)
  run_attempts schedule now w = elim (attempts policy (execute schedule now) fuel 1) [
    | out_of_fuel ↦ none
    | raised ↦ none
    | succeeded run_id artifacts attempt ↦
        finish_run schedule now completed
          (executed_record schedule completed run_id none attempt artifacts) (some run_id) none w
    | gave_up error attempt ↦
        finish_run schedule now failed
          (executed_record schedule failed (failed_run_id schedule.id now) (some error) attempt [])
          none (some error) w
  ]

  unfoldable pub run_one : ScheduledReport → ℕ → Worker → Option (ScheduleRunOutcome × Worker)
  run_one schedule now w = elim (definition schedule.workspace_id schedule.saved_report_id) [
    | none ↦ skip_run schedule now "the saved report no longer exists" w
    | some active ↦
        if not active
        then skip_run schedule now "the saved report is archived" w
        else run_attempts schedule now w
  ]

  unfoldable pub run_all :
      List ScheduledReport → ℕ → Worker → Option (List ScheduleRunOutcome × Worker)
  run_all [] now w = some ([], w)
  run_all (schedule ∷ schedules) now w = elim (run_one schedule now w) [
    | none ↦ none
    | some (result, next) ↦ elim (run_all schedules now next) [
      | none ↦ none
      | some (results, last) ↦ some (result ∷ results, last)
    ]
  ]

  unfoldable pub run_once : ℕ → ℕ → ℕ → Worker → Option (List ScheduleRunOutcome × Worker)
  run_once stale_after batch_size now w =
      let (claimed, schedules) = claim_due now stale_after batch_size w.schedules in
      run_all claimed now (record w { schedules = schedules })
