-- ===== src/Reports/Periods.antt =====
-- backend/app/reports/periods.py: the window of a relative period. A date is that of Python's
-- datetime, whose day arithmetic is a parameter; `none` is the ValueError of a year out of range.
-- The validation of the resulting ReportPeriod and the description for a reader are left out.
pub mod Windows
use autonomous_agent_runtime.Prelude.{
  ℕ, ◌+◌, ◌-◌, ◌*◌, ◌/◌, ◌%◌, Bool, ◌&&◌, ◌||◌, Option, none, some, ltb, leb, nat_eq, if◌then◌else◌,
}

pub record Date : Type 0 where
  pub year : ℕ
  pub month : ℕ
  pub day : ℕ

-- RelativePeriod of backend/app/reports/contracts.py; its validator leaves each kind its own fields.
pub data RelativePeriod : Type 0 where
  fixed : Date → Date → RelativePeriod
  last_n_days : ℕ → RelativePeriod
  current_month previous_month current_quarter previous_quarter : RelativePeriod
  current_year previous_year : RelativePeriod

-- A signed number of months.
pub data Months : Type 0 where
  forward back : ℕ → Months

-- `date(year, month, day)`, for a day that every month has.
unfoldable pub date : ℕ → ℕ → ℕ → Option Date
date year month day =
    if leb 1 year && leb year 9999
    then some (record { year = year; month = month; day = day })
    else none

-- `a < b`
unfoldable pub before : Date → Date → Bool
before a b =
    ltb a.year b.year
    || nat_eq a.year b.year && (ltb a.month b.month || nat_eq a.month b.month && ltb a.day b.day)

unfoldable pub quarter_start : ℕ → ℕ → Option Date
quarter_start year month = date year ((month - 1) / 3 * 3 + 1) 1

-- Python's `//` and `%` round towards minus infinity: `below` is how far the month index is below
-- zero.
unfoldable pub add_months : Date → Months → Option Date
add_months anchor (forward months) =
    let zero_based = anchor.month - 1 + months in
    date (anchor.year + zero_based / 12) (zero_based % 12 + 1) 1
add_months anchor (back months) =
    let below = months - (anchor.month - 1) in
    if leb months (anchor.month - 1)
    then date anchor.year (anchor.month - 1 - months + 1) 1
    else date (anchor.year - (below + 11) / 12) ((12 - below % 12) % 12 + 1) 1

unfoldable pub from_start : Option Date → Months → Option (Date × Date)
from_start none months = none
from_start (some start) months = elim (add_months start months) [
  | none ↦ none
  | some end ↦ some (start, end)
]

unfoldable pub to_end : Option Date → Months → Option (Date × Date)
to_end none months = none
to_end (some end) months = elim (add_months end months) [
  | none ↦ none
  | some start ↦ some (start, end)
]

unfoldable pub dates : Option Date → Option Date → Option (Date × Date)
dates (some start) (some end) = some (start, end)
dates _ _ = none

-- `resolve_relative_period`; `days_before today days` is `today - timedelta(days=days)`.
unfoldable pub resolve_relative_period :
    (Date → ℕ → Option Date) → RelativePeriod → Date → Option (Date × Date)
resolve_relative_period days_before (fixed start end) today = some (start, end)
resolve_relative_period days_before (last_n_days days) today =
    dates (days_before today days) (some today)
resolve_relative_period days_before current_month today =
    from_start (date today.year today.month 1) (forward 1)
resolve_relative_period days_before previous_month today =
    to_end (date today.year today.month 1) (back 1)
resolve_relative_period days_before current_quarter today =
    from_start (quarter_start today.year today.month) (forward 3)
resolve_relative_period days_before previous_quarter today =
    to_end (quarter_start today.year today.month) (back 3)
resolve_relative_period days_before current_year today =
    dates (date today.year 1 1) (date (today.year + 1) 1 1)
resolve_relative_period days_before previous_year today =
    dates (date (today.year - 1) 1 1) (date today.year 1 1)
