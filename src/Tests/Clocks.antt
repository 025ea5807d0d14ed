-- ===== src/Tests/Clocks.antt =====
-- Witnesses on report periods, schedules and the worker that runs them.
use autonomous_agent_runtime.Reports.Periods.{Date, before, add_months, forward, back}
use autonomous_agent_runtime.Reports.Periods.Windows.{
  HasWindows, by_quarter, add_months-back, resolve_relative_period-HasWindows,
}
use autonomous_agent_runtime.Scheduling.Contracts.{
  ScheduledReport, ScheduleConfig, quarterly, rule_ok,
}
use autonomous_agent_runtime.Scheduling.Calculator.{LocalTime, search}
use autonomous_agent_runtime.Scheduling.Calculator.Fires.{IsFired}
use autonomous_agent_runtime.Scheduling.Calculator.Termination.{IsCalendar, search-IsFired_within}
use autonomous_agent_runtime.Scheduling.Store.{
  candidate_ids, claim_due, is_due, is_claimable, sort_by_next_run, insert_by_next_run,
}
use autonomous_agent_runtime.Scheduling.Store.Claims.{claim_due-apart}
use autonomous_agent_runtime.Scheduling.Worker.{Execution, executed, execution_error, Worker}
use autonomous_agent_runtime.Prelude.{
  ℕ, ◌+◌, ◌*◌, ◌%◌, String, ◌≡◌, refl, Bool, true, false, Option, none, some, [], ◌∷◌, arith, leb,
  if◌then◌else◌, contains, string_instance, nat_instance,
}

-- The fourth of March 2024, a Monday, and the month that begins with it.
abbrev monday : Date
monday = record { year = 2024; month = 3; day = 4 }

abbrev days_after : Date → ℕ → Option Date
days_after d n = some (record d { day = d.day + n })

abbrev weekday_of : Date → ℕ
weekday_of d = (d.day + 3) % 7

abbrev monday_noon : LocalTime
monday_noon = record { date_of = monday; micros = 43200000000 }

march : IsCalendar days_after weekday_of monday
unfolding before
march = record {
  same_day = refl;
  later = λ n a b. (record monday { day = 4 + n }, refl, ground arith, omega arith);
  weekday_bound = omega arith;
}

abbrev config : ScheduleConfig
config = record { rule = quarterly 1 1; hour = 6; minute = 0 }

abbrev report : ScheduledReport
report = record {
  id = "s";
  saved_report_id = "r";
  workspace_id = "w";
  schedule = config;
  timezone = "UTC";
  formats = "pdf" ∷ [];
  delivery_channel = none;
  delivery_destination = none;
  enabled = true;
  next_run_at = 5;
  last_run_at = none;
  last_result = none;
  consecutive_failures = 2;
  claimed_at = none;
  created_at = 0;
  updated_at = 0;
}

abbrev to_utc : String → Date → ℕ → ℕ → ℕ
to_utc zone d hour minute = d.month * 1000 + d.day

abbrev local_time : String → ℕ → LocalTime
local_time zone now = monday_noon

abbrev twice : ScheduledReport → ℕ → ℕ → Execution
twice schedule now attempt =
    if leb attempt 2 then execution_error "busy" else executed "run" ("a" ∷ [])

abbrev active : String → String → Option Bool
active workspace id = some true

abbrev failed_id : String → ℕ → String
failed_id id now = "scheduled-failed"

abbrev worker : Worker
worker = record { schedules = report ∷ []; executions = [] }

resolve_relative_period-HasWindows_example : HasWindows days_after by_quarter monday
resolve_relative_period-HasWindows_example =
    resolve_relative_period-HasWindows days_after by_quarter monday refl

add_months-back_example :
    (later : Date) × (add_months monday (forward 11) ≡ some later)
    × (add_months later (back 11) ≡ some (record { year = 2024; month = 3; day = 1 }))
add_months-back_example =
    add_months-back 2024 3 4 11 (omega arith) (omega arith) (omega arith) (omega arith)

search-IsFired_within_example :
    IsFired days_after weekday_of config monday_noon
      (search days_after weekday_of 8 config monday_noon 0)
unfolding rule_ok
search-IsFired_within_example =
    search-IsFired_within days_after weekday_of monday_noon march refl config refl

claim_due-apart_example :
    contains (candidate_ids 20 15 9 (claim_due 10 15 9 (report ∷ [])).1) "s" ≡ false
unfolding candidate_ids is_due is_claimable sort_by_next_run insert_by_next_run
claim_due-apart_example = claim_due-apart "s" 10 20 15 9 9 (report ∷ []) (omega arith) refl
