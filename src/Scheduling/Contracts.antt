-- ===== src/Scheduling/Contracts.antt =====
-- backend/app/scheduling/contracts.py: when a saved report runs. The validator of ScheduleConfig
-- leaves each kind its own fields, which are those of the constructor here.
use autonomous_agent_runtime.Prelude.{ℕ, String, Bool, true, ◌&&◌, Option, List, leb}

-- Weekdays count from Monday, 0.
pub data ScheduleRule : Type 0 where
  daily : ScheduleRule
  weekly : ℕ → ScheduleRule
  monthly : ℕ → ScheduleRule
  quarterly : ℕ → ℕ → ScheduleRule

pub record ScheduleConfig : Type 0 where
  pub rule : ScheduleRule
  pub hour : ℕ
  pub minute : ℕ

pub data ScheduleResult : Type 0 where
  completed failed skipped : ScheduleResult

-- A row of the store, with the claim that the domain record leaves out. Instants are whole numbers.
pub record ScheduledReport : Type 0 where
  pub id : String
  pub saved_report_id : String
  pub workspace_id : String
  pub schedule : ScheduleConfig
  pub timezone : String
  pub formats : List String
  pub delivery_channel : Option String
  pub delivery_destination : Option String
  pub enabled : Bool
  pub next_run_at : ℕ
  pub last_run_at : Option ℕ
  pub last_result : Option ScheduleResult
  pub consecutive_failures : ℕ
  pub claimed_at : Option ℕ
  pub created_at : ℕ
  pub updated_at : ℕ

-- The bounds of the fields.
unfoldable pub rule_ok : ScheduleRule → Bool
rule_ok daily = true
rule_ok (weekly day_of_week) = leb day_of_week 6
rule_ok (monthly day_of_month) = leb 1 day_of_month && leb day_of_month 28
rule_ok (quarterly day_of_month month_of_quarter) =
    leb 1 day_of_month && leb day_of_month 28 && leb 1 month_of_quarter && leb month_of_quarter 3

unfoldable pub config_ok : ScheduleConfig → Bool
config_ok config = rule_ok config.rule && leb config.hour 23 && leb config.minute 59
