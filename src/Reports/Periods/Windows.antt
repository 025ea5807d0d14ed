-- ===== src/Reports/Periods/Windows.antt =====
-- The windows of backend/app/reports/periods.py follow on each other.
use autonomous_agent_runtime.Reports.Periods.{
  Date, RelativePeriod, current_month, previous_month, current_quarter, previous_quarter,
  current_year, previous_year, forward, back, date, before, quarter_start, add_months, from_start,
  to_end, dates, resolve_relative_period,
}
use autonomous_agent_runtime.Prelude.{
  ℕ, ◌+◌, ◌-◌, ◌*◌, ◌/◌, ◌%◌, ◌≤◌, ◌<◌, ◌≡◌, sym, subst, ◌⊎◌, inl, inr, Bool, true, false, ◌&&◌,
  Option, some, arith, leb, Bool-cases,
}

-- A date of the calendar with a year before and a year after it.
abbrev pub is_inner : Date → Bool
is_inner d = leb 2 d.year && leb d.year 9998 && leb 1 d.month && leb d.month 12 && leb 1 d.day

abbrev first_of : ℕ → ℕ → Date
first_of year month = record { year = year; month = month; day = 1 }

date-first_of :
    (year month : ℕ) → 1 ≤ year → year ≤ 9999 → date year month 1 ≡ some (first_of year month)
unfolding date
date-first_of year month a b = ground arith

add_zero : (a : ℕ) → a + 0 ≡ a
add_zero a = omega arith

add_sub : (a b : ℕ) → a + b - b ≡ a
add_sub a b = omega arith

near_year :
    (month months : ℕ)
    → 1 ≤ month
    → month ≤ 12
    → months ≤ (month - 1 + months) % 12 + 1 - 1
    → (month - 1 + months) / 12 ≡ 0
near_year month months a b h = omega arith

near_month :
    (month months : ℕ)
    → 1 ≤ month
    → month ≤ 12
    → months ≤ (month - 1 + months) % 12 + 1 - 1
    → (month - 1 + months) % 12 + 1 - 1 - months + 1 ≡ month
near_month month months a b h = omega arith

far_year :
    (month months : ℕ)
    → 1 ≤ month
    → month ≤ 12
    → (month - 1 + months) % 12 + 1 - 1 < months
    → (months - ((month - 1 + months) % 12 + 1 - 1) + 11) / 12 ≡ (month - 1 + months) / 12
far_year month months a b h = omega arith

far_month :
    (month months : ℕ)
    → 1 ≤ month
    → month ≤ 12
    → (month - 1 + months) % 12 + 1 - 1 < months
    → (12 - (months - ((month - 1 + months) % 12 + 1 - 1)) % 12) % 12 + 1 ≡ month
far_month month months a b h = omega arith

-- Going back as many months as forward comes to the first of the month.
pub add_months-back :
    (year month day months : ℕ)
    → 1 ≤ month
    → month ≤ 12
    → 1 ≤ year
    → year + (month - 1 + months) / 12 ≤ 9999
    → let anchor : Date = record { year = year; month = month; day = day } in
      (later : Date) × (add_months anchor (forward months) ≡ some later)
      × (add_months later (back months) ≡ some (first_of year month))
unfolding add_months date
add_months-back year month day months a b c d =
    let z = month - 1 + months in
    let later = first_of (year + z / 12) (z % 12 + 1) in
    (
      later,
      date-first_of (year + z / 12) (z % 12 + 1) (omega arith) (omega arith),
      elim (Bool-cases (leb months (z % 12 + 1 - 1))) [
        | inl t ↦
            rw
              (
                t,
                near_month month months a b (ground arith),
                near_year month months a b (ground arith),
                add_zero year,
              )
              (date-first_of year month c (omega arith))
        | inr f ↦
            rw
              (
                f,
                far_month month months a b (ground arith),
                far_year month months a b (ground arith),
                add_sub year (z / 12),
              )
              (date-first_of year month c (omega arith))
      ],
    )

pub data Grain : Type 0 where
  by_month by_quarter by_year : Grain

abbrev pub current : Grain → RelativePeriod
current by_month = current_month
current by_quarter = current_quarter
current by_year = current_year

abbrev pub previous : Grain → RelativePeriod
previous by_month = previous_month
previous by_quarter = previous_quarter
previous by_year = previous_year

-- The previous period ends where the current one begins, and the current one holds today.
pub HasWindows : (Date → ℕ → Option Date) → Grain → Date → Type 0
HasWindows days_before grain today =
    (start middle end : Date) × (resolve_relative_period days_before (previous grain) today
      ≡ some (start, middle))
    × (resolve_relative_period days_before (current grain) today ≡ some (middle, end))
    × (before start middle ≡ true)
    × (before today middle ≡ false)
    × (before today end ≡ true)

back_near :
    (y q n : ℕ)
    → n < q
    → 1 ≤ y
    → y ≤ 9999
    → add_months (first_of y q) (back n) ≡ some (first_of y (q - n))
unfolding add_months date
back_near y q n a b c = ground arith

back_far :
    (y n : ℕ)
    → 1 ≤ n
    → n ≤ 12
    → 2 ≤ y
    → y ≤ 9999
    → add_months (first_of y 1) (back n) ≡ some (first_of (y - 1) (13 - n))
unfolding add_months date
back_far y n a b c d = ground arith

ahead :
    (y q n : ℕ)
    → 1 ≤ y
    → q + n ≤ 13
    → y ≤ 9998
    → add_months (first_of y q) (forward n)
      ≡ some (first_of (y + (q - 1 + n) / 12) ((q - 1 + n) % 12 + 1))
unfolding add_months
ahead y q n a b c =
    date-first_of (y + (q - 1 + n) / 12) ((q - 1 + n) % 12 + 1) (omega arith) (omega arith)

from_start-some :
    (y q n : ℕ)
    → 1 ≤ y
    → q + n ≤ 13
    → y ≤ 9998
    → from_start (date y q 1) (forward n)
      ≡ some (first_of y q, first_of (y + (q - 1 + n) / 12) ((q - 1 + n) % 12 + 1))
unfolding from_start
from_start-some y q n a b c = rw (date-first_of y q a (omega arith), from_start, ahead y q n a b c)

to_end_far :
    (y n : ℕ)
    → 1 ≤ n
    → n ≤ 12
    → 2 ≤ y
    → y ≤ 9999
    → to_end (date y 1 1) (back n) ≡ some (first_of (y - 1) (13 - n), first_of y 1)
unfolding to_end
to_end_far y n a b c d = rw (date-first_of y 1 (omega arith) d, to_end, back_far y n a b c d)

module _ (today : Date) (h : is_inner today ≡ true) where
  -- A unit of `n` months that begins with the month `q`.
  unit_windows :
      (q n : ℕ)
      → 1 ≤ n
      → q ≤ today.month
      → today.month < q + n
      → q + n ≤ 13
      → (q ≡ 1) ⊎ (n < q)
      → 1 ≤ q
      → (start middle end : Date) × (to_end (date today.year q 1) (back n) ≡ some (start, middle))
        × (from_start (date today.year q 1) (forward n) ≡ some (middle, end))
        × (before start middle ≡ true)
        × (before today middle ≡ false)
        × (before today end ≡ true)
  unfolding to_end before
  unit_windows q n a b c d (inl e) g = (
    first_of (today.year - 1) (13 - n),
    first_of today.year q,
    first_of (today.year + (q - 1 + n) / 12) ((q - 1 + n) % 12 + 1),
    subst
        (λ k.
          to_end (date today.year k 1) (back n)
          ≡ some (first_of (today.year - 1) (13 - n), first_of today.year k))
        (sym e) (to_end_far today.year n a (omega arith) (ground arith) (ground arith)),
    from_start-some today.year q n (ground arith) d (ground arith),
    ground arith,
    ground arith,
    ground arith,
  )
  unit_windows q n a b c d (inr e) g = (
    first_of today.year (q - n),
    first_of today.year q,
    first_of (today.year + (q - 1 + n) / 12) ((q - 1 + n) % 12 + 1),
    rw (
      date-first_of today.year q (ground arith) (ground arith),
      to_end,
      back_near today.year q n e (ground arith) (ground arith),
    ),
    from_start-some today.year q n (ground arith) d (ground arith),
    ground arith,
    ground arith,
    ground arith,
  )

-- For each calendar unit and each date that has a year before and after it, the previous and the
-- current period exist, the previous one is not empty and ends where the current one begins, and
-- the current one holds the whole of today.
pub resolve_relative_period-HasWindows :
    (days_before : Date → ℕ → Option Date) (grain : Grain) (today : Date)
    → is_inner today ≡ true
    → HasWindows days_before grain today
unfolding HasWindows resolve_relative_period date dates before quarter_start
resolve_relative_period-HasWindows days_before by_year today h = (
  first_of (today.year - 1) 1,
  first_of today.year 1,
  first_of (today.year + 1) 1,
  ground arith,
  ground arith,
  ground arith,
  ground arith,
  ground arith,
)
resolve_relative_period-HasWindows days_before by_month today h =
    unit_windows today h today.month 1 (omega arith) (omega arith) (omega arith) (ground arith)
      (ground arith) (ground arith)
resolve_relative_period-HasWindows days_before by_quarter today h =
    unit_windows today h ((today.month - 1) / 3 * 3 + 1) 3 (omega arith) (ground arith)
      (omega arith) (ground arith) (ground arith) (omega arith)
