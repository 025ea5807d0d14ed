-- ===== src/Scheduling/Calculator.antt =====
-- backend/app/scheduling/calculator.py: the next instant at which a schedule fires. `add_days` and
-- `weekday` are those of Python's dates, `none` being an OverflowError, and `to_utc` is the
-- conversion of a local time by zoneinfo. Two local times of one zone are compared by the clock, as
-- Python does. The endless generator of candidates is its n-th step here.
pub mod Fires
pub mod Termination
use autonomous_agent_runtime.Reports.Periods.{Date, date, before}
use autonomous_agent_runtime.Scheduling.Contracts.{
  ScheduleRule, ScheduleConfig, daily, weekly, monthly, quarterly,
}
use autonomous_agent_runtime.Prelude.{
  ℕ, zero, suc, ◌+◌, ◌-◌, ◌*◌, ◌/◌, ◌%◌, Bool, ◌&&◌, ◌||◌, not, Option, none, some, ltb,
  if◌then◌else◌, string_instance, ◌==◌, nat_instance,
}

-- A time of the schedule's own clock: a date and the microseconds since midnight.
pub record LocalTime : Type 0 where
  pub date_of : Date
  pub micros : ℕ

-- What the n-th step of the generator does: raise, pass to the next step, or yield a date.
pub data Visit : Type 0 where
  raised skip : Visit
  yielded : Date → Visit

pub data Search : Type 0 where
  out_of_fuel failed : Search
  found : Date → Search

unfoldable pub add_months : Date → ℕ → Option Date
add_months anchor months =
    let zero_based = anchor.month - 1 + months in
    date (anchor.year + zero_based / 12) (zero_based % 12 + 1) 1

unfoldable pub quarter_cycle_month : ℕ → ℕ → Bool
quarter_cycle_month month_of_quarter anchor_month = (anchor_month - 1) % 3 + 1 == month_of_quarter

-- `month_start` after n steps.
unfoldable pub month_at : Date → ℕ → Option Date
month_at start zero = some start
month_at start (suc n) = elim (month_at start n) [ none ↦ none | some m ↦ add_months m 1 ]

unfoldable pub day_in : Option Date → ℕ → Visit
day_in none day = raised
day_in (some month_start) day = yielded (record month_start { day = day })

unfoldable pub day_in_quarter : Option Date → ℕ → ℕ → Visit
day_in_quarter none day month_of_quarter = raised
day_in_quarter (some month_start) day month_of_quarter =
    if quarter_cycle_month month_of_quarter month_start.month
    then yielded (record month_start { day = day })
    else skip

unfoldable pub on_weekday : (Date → ℕ) → ℕ → Option Date → Visit
on_weekday weekday day none = raised
on_weekday weekday day (some candidate) =
    if weekday candidate == day then yielded candidate else skip

abbrev pub yielded_some : Option Date → Visit
yielded_some none = raised
yielded_some (some candidate) = yielded candidate

abbrev pub month_start_of : Date → Date
month_start_of local_today = record local_today { day = 1 }

module _ (add_days : Date → ℕ → Option Date) (weekday : Date → ℕ) where
  -- `_candidate_dates`, the n-th step.
  unfoldable pub candidate_date : ScheduleRule → Date → ℕ → Visit
  candidate_date daily local_today n = yielded_some (add_days local_today n)
  candidate_date (weekly day_of_week) local_today n =
      on_weekday weekday day_of_week (add_days local_today n)
  candidate_date (monthly day_of_month) local_today n =
      day_in (month_at (month_start_of local_today) n) day_of_month
  candidate_date (quarterly day_of_month month_of_quarter) local_today n =
      day_in_quarter (month_at (month_start_of local_today) n) day_of_month month_of_quarter

  abbrev pub micros_of : ScheduleConfig → ℕ
  micros_of config = (config.hour * 60 + config.minute) * 60000000

  -- `candidate > reference`
  unfoldable pub is_after : ScheduleConfig → LocalTime → Date → Bool
  is_after config reference candidate =
      before reference.date_of candidate
      || not (before candidate reference.date_of) && ltb reference.micros (micros_of config)

  -- The first candidate after the reference, from the n-th step on.
  unfoldable pub search : ℕ → ScheduleConfig → LocalTime → ℕ → Search
  search zero config reference n = out_of_fuel
  search (suc fuel) config reference n =
      let rest = search fuel config reference (suc n) in
      elim (candidate_date config.rule reference.date_of n) [
        | raised ↦ failed
        | skip ↦ rest
        | yielded candidate ↦ if is_after config reference candidate then found candidate else rest
      ]

  unfoldable pub compute_next_run : (Date → ℕ → ℕ → ℕ) → ℕ → ScheduleConfig → LocalTime → Option ℕ
  compute_next_run to_utc fuel config reference = elim (search fuel config reference 0) [
    | found candidate ↦ some (to_utc candidate config.hour config.minute)
    | _ ↦ none
  ]
