-- ===== src/Scheduling/Calculator/Termination.antt =====
-- Eight steps of the generator of backend/app/scheduling/calculator.py are enough.
use autonomous_agent_runtime.Reports.Periods.{Date, date, before}
use autonomous_agent_runtime.Scheduling.Contracts.{
  ScheduleRule, ScheduleConfig, daily, weekly, monthly, quarterly, rule_ok,
}
use autonomous_agent_runtime.Scheduling.Calculator.{
  LocalTime, yielded, add_months, quarter_cycle_month, month_at, day_in, day_in_quarter, on_weekday,
  month_start_of, candidate_date, is_after, search,
}
use autonomous_agent_runtime.Scheduling.Calculator.Fires.{is_raised, IsFired, search-IsFired}
use autonomous_agent_runtime.Prelude.{
  ℕ, zero, suc, ◌+◌, ◌-◌, ◌/◌, ◌%◌, ◌≤◌, ◌≡◌, ◌∙◌, subst, inl, inr, Bool, true, false, ◌&&◌, Option,
  some, arith, ltb, leb, Bool-cases, nat_instance,
}

-- What Python documents of `date + timedelta` and of `date.weekday` for the week after a date.
pub record IsCalendar (add_days : Date → ℕ → Option Date) (weekday : Date → ℕ) (today : Date)
    : Type 0 where
  pub same_day : add_days today 0 ≡ some today
  pub later :
      (n : ℕ)
      → 1 ≤ n
      → n ≤ 7
      → (e : Date) × (add_days today n ≡ some e)
        × (before today e ≡ true)
        × (weekday e ≡ (weekday today + n) % 7)
  pub weekday_bound : weekday today ≤ 6

-- A date of the calendar that is not in its last year.
abbrev pub is_open : Date → Bool
is_open d = leb 1 d.year && leb d.year 9998 && leb 1 d.month && leb d.month 12

month_date : Date → ℕ → Date
month_date d n = record {
  year = d.year + (d.month - 1 + n) / 12;
  month = (d.month - 1 + n) % 12 + 1;
  day = 1;
}

carry_year : (y a : ℕ) → y + a / 12 + (a % 12 + 1 - 1 + 1) / 12 ≡ y + (a + 1) / 12
carry_year y a = omega arith

carry_month : (a : ℕ) → (a % 12 + 1 - 1 + 1) % 12 + 1 ≡ (a + 1) % 12 + 1
carry_month a = omega arith

date_exists :
    (y m : ℕ) → 1 ≤ y → y ≤ 9999 → date y m 1 ≡ some (record { year = y; month = m; day = 1 })
unfolding date
date_exists y m a b = ground arith

suc_one : (m n : ℕ) → m - 1 + suc n ≡ m - 1 + n + 1
suc_one m n = omega arith

month_at-month_date :
    (d : Date) (n : ℕ)
    → is_open d ≡ true
    → n ≤ 12
    → month_at (month_start_of d) n ≡ some (month_date d n)
unfolding month_at month_date add_months
month_at-month_date d zero h le = ground arith
month_at-month_date d (suc n) h le = rw (month_at-month_date d n h (omega (arith, le))) (
    rw (suc_one d.month n, carry_year d.year (d.month - 1 + n), carry_month (d.month - 1 + n))
      (date_exists (d.year + (d.month - 1 + n + 1) / 12) ((d.month - 1 + n + 1) % 12 + 1)
        (ground arith) (ground arith)))

plus : (j : ℕ) → j ≡ 0 + j
plus j = omega arith

quiet_day :
    (weekday : Date → ℕ) (w : ℕ) (d : Date) → is_raised (on_weekday weekday w (some d)) ≡ false
unfolding on_weekday
quiet_day weekday w d = ground arith

quiet_month : (m q : ℕ) (d : Date) → is_raised (day_in_quarter (some d) m q) ≡ false
unfolding day_in_quarter
quiet_month m q d = ground arith

-- The days to the next weekday w, and the months to the next q-th month of a quarter.
to_weekday : (a w : ℕ) → a ≤ 6 → w ≤ 6 → (k : ℕ) × (1 ≤ k) × (k ≤ 7) × ((a + k) % 7 ≡ w)
to_weekday a w h g = elim (Bool-cases (ltb a w)) [
  | inl t ↦ (w - a, ground arith, omega arith, ground arith)
  | inr f ↦ (w + 7 - a, ground arith, ground arith, ground arith)
]

to_month :
    (m q : ℕ)
    → 1 ≤ q
    → q ≤ 3
    → (k : ℕ) × (1 ≤ k) × (k ≤ 3) × ((((m - 1 + k) % 12 + 1 - 1) % 3 + 1) ≡ q)
to_month m q h g = elim (Bool-cases (ltb ((m - 1) % 3 + 1) q)) [
  | inl t ↦ (q - ((m - 1) % 3 + 1), ground arith, ground arith, ground arith)
  | inr f ↦ (q + 3 - ((m - 1) % 3 + 1), ground arith, ground arith, ground arith)
]

module _ (add_days : Date → ℕ → Option Date) (weekday : Date → ℕ) (reference : LocalTime)
    (calendar : IsCalendar add_days weekday reference.date_of)
    (inner : is_open reference.date_of ≡ true) where
  safe :
      (rule : ScheduleRule) (j : ℕ)
      → j ≤ 7
      → is_raised (candidate_date add_days weekday rule reference.date_of j) ≡ false
  unfolding candidate_date day_in
  safe daily zero le = rw calendar.same_day
  safe daily (suc j) le = rw ((calendar.later (suc j) (omega arith) le).1)
  safe (weekly w) zero le = rw calendar.same_day (quiet_day weekday w reference.date_of)
  safe (weekly w) (suc j) le =
      (let (e, h, b, x) = calendar.later (suc j) (omega arith) le in rw h (quiet_day weekday w e))
  safe (monthly m) j le = rw (month_at-month_date reference.date_of j inner (omega arith), day_in)
  safe (quarterly m q) j le =
      rw (month_at-month_date reference.date_of j inner (omega arith))
        (quiet_month m q (month_date reference.date_of j))

  quarter_visit :
      (m q k : ℕ)
      → k ≤ 3
      → ((reference.date_of.month - 1 + k) % 12 + 1 - 1) % 3 + 1 ≡ q
      → candidate_date add_days weekday (quarterly m q) reference.date_of k
        ≡ yielded (record (month_date reference.date_of k) { day = m })
  unfolding candidate_date day_in_quarter quarter_cycle_month month_date
  quarter_visit m q k b c =
      let d = reference.date_of in
      rw (
        month_at-month_date d k inner (omega (arith, b)),
        day_in_quarter,
        quarter_cycle_month,
        (nat_instance.beq_iff (((d.month - 1 + k) % 12 + 1 - 1) % 3 + 1) q).1 c,
      )

  after_later :
      (config : ScheduleConfig) (d : Date)
      → before reference.date_of d ≡ true
      → is_after add_days weekday config reference d ≡ true
  unfolding is_after
  after_later config d b = rw b

  month_later :
      (k day : ℕ)
      → 1 ≤ k
      → k ≤ 3
      → before reference.date_of (record (month_date reference.date_of k) { day = day }) ≡ true
  unfolding month_date before
  month_later k day a b = ground arith

  -- The step at which the generator has passed the reference.
  next_visit :
      (rule : ScheduleRule)
      → rule_ok rule ≡ true
      → (k : ℕ) × (k ≤ 7)
        × (d : Date) × (candidate_date add_days weekday rule reference.date_of k ≡ yielded d)
        × (before reference.date_of d ≡ true)
  unfolding candidate_date rule_ok day_in day_in_quarter on_weekday quarter_cycle_month
  next_visit daily h =
      let (e, f, b, x) = calendar.later 1 (omega arith) (omega arith) in
      (1, omega arith, e, rw f, b)
  next_visit (weekly w) h =
      let (k, a, b, c) =
        to_weekday (weekday reference.date_of) w calendar.weekday_bound (ground arith) in
      let (e, f, g, x) = calendar.later k a b in
      (k, b, e, rw (f, on_weekday, (nat_instance.beq_iff (weekday e) w).1 (x ∙ c)), g)
  next_visit (monthly m) h = (
    1,
    omega arith,
    record (month_date reference.date_of 1) { day = m },
    rw (month_at-month_date reference.date_of 1 inner (omega arith), day_in),
    month_later 1 m (omega arith) (omega arith),
  )
  next_visit (quarterly m q) h =
      let (k, a, b, c) = to_month reference.date_of.month q (ground arith) (ground arith) in
      (
        k,
        omega (arith, b),
        record (month_date reference.date_of k) { day = m },
        quarter_visit m q k b c,
        month_later k m a b,
      )

  -- From a date that is not in the last year of the calendar, a valid schedule fires within eight
  -- steps of the generator: on a day that the schedule names, which is later than the date of the
  -- reference, or is that date with a time of day later than the time of the reference.
  pub search-IsFired_within :
      (config : ScheduleConfig)
      → rule_ok config.rule ≡ true
      → IsFired add_days weekday config reference (search add_days weekday 8 config reference 0)
  search-IsFired_within config h =
      let (k, le, d, e, b) = next_visit config.rule h in
      search-IsFired add_days weekday config reference 8 k 0 (omega (arith, le))
        (λ j lj.
          subst
            (λ i.
              is_raised (candidate_date add_days weekday config.rule reference.date_of i) ≡ false)
            (plus j) (safe config.rule j (omega (arith, lj, le))))
        d
        (subst (λ i. candidate_date add_days weekday config.rule reference.date_of i ≡ yielded d)
          (plus k) e)
        (after_later config d b)
