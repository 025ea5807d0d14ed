-- ===== src/Scheduling/Calculator/Fires.antt =====
-- A schedule always fires: backend/app/scheduling/calculator.py.
use autonomous_agent_runtime.Reports.Periods.{Date, before}
use autonomous_agent_runtime.Scheduling.Contracts.{
  ScheduleRule, ScheduleConfig, daily, weekly, monthly, quarterly,
}
use autonomous_agent_runtime.Scheduling.Calculator.{
  LocalTime, Visit, raised, skip, yielded, Search, found, quarter_cycle_month, month_at, day_in,
  day_in_quarter, on_weekday, month_start_of, candidate_date, is_after, micros_of, search,
}
use mathlib.Core.Bool.{false≢true}
use autonomous_agent_runtime.Prelude.{
  ℕ, zero, suc, ◌+◌, ◌-◌, ◌%◌, ◌≤◌, ◌<◌, ◌≡◌, refl, sym, ap, ◌∙◌, subst, ◌⊎◌, inl, inr, Bool, true,
  false, ◌&&◌, Option, arith, Bool-cases, Option-cases, string_instance, ◌==◌, nat_instance,
  ==-refl,
}

abbrev pub is_raised : Visit → Bool
is_raised raised = true
is_raised _ = false

-- The date is one on which the schedule runs.
abbrev pub fits : (Date → ℕ) → ScheduleRule → Date → Bool
fits weekday daily d = true
fits weekday (weekly day_of_week) d = weekday d == day_of_week
fits weekday (monthly day_of_month) d = d.day == day_of_month
fits weekday (quarterly day_of_month month_of_quarter) d =
    d.day == day_of_month && (d.month - 1) % 3 + 1 == month_of_quarter

-- A time of day on a date is later than the reference: the date is later, or it is the same date
-- and the time of day is later.
abbrev pub IsLater : LocalTime → Date → ℕ → Type 0
IsLater reference d micros =
    (before reference.date_of d ≡ true) ⊎ ((d ≡ reference.date_of) × (reference.micros < micros))

same_date : (a b : Date) → before a b ≡ false → before b a ≡ false → b ≡ a
unfolding before
same_date a b h g =
    let y : (b.year ≡ a.year) = ground (arith, h, g) in
    let m : (b.month ≡ a.month) = ground (arith, h, g, y) in
    let d : (b.day ≡ a.day) = ground (arith, h, g, y, m) in cc

add_zero : (n : ℕ) → n + 0 ≡ n
add_zero n = omega arith

shift : (n j : ℕ) → n + suc j ≡ suc n + j
shift n j = omega arith

module _ (add_days : Date → ℕ → Option Date) (weekday : Date → ℕ) where
  unfoldable pub IsFired : ScheduleConfig → LocalTime → Search → Type 0
  IsFired config reference result =
      (d : Date) × (result ≡ found d)
      × IsLater reference d (micros_of add_days weekday config)
      × (fits weekday config.rule d ≡ true)

  abbrev visit_fits : ScheduleRule → Visit → Bool
  visit_fits rule (yielded d) = fits weekday rule d
  visit_fits rule _ = true

  visits_fit :
      (rule : ScheduleRule) (today : Date) (n : ℕ)
      → visit_fits rule (candidate_date add_days weekday rule today n) ≡ true
  unfolding candidate_date on_weekday day_in day_in_quarter quarter_cycle_month
  visits_fit daily today n = elim (Option-cases (add_days today n)) [
    | inl e ↦ rw e
    | inr (c, e) ↦ rw e
  ]
  visits_fit (weekly w) today n = elim (Option-cases (add_days today n)) [
    | inl e ↦ rw (e, on_weekday)
    | inr (c, e) ↦ elim (Bool-cases (weekday c == w)) [
      | inl t ↦ rw (e, on_weekday, t) t
      | inr f ↦ rw (e, on_weekday, f)
    ]
  ]
  visits_fit (monthly m) today n = elim (Option-cases (month_at (month_start_of today) n)) [
    | inl e ↦ rw (e, day_in)
    | inr (c, e) ↦ rw (e, day_in) (==-refl m)
  ]
  visits_fit (quarterly m q) today n = elim (Option-cases (month_at (month_start_of today) n)) [
    | inl e ↦ rw (e, day_in_quarter)
    | inr (c, e) ↦ elim (Bool-cases ((c.month - 1) % 3 + 1 == q)) [
      | inl t ↦ rw (e, day_in_quarter, quarter_cycle_month, t) (ground (arith, ==-refl m))
      | inr f ↦ rw (e, day_in_quarter, quarter_cycle_month, f)
    ]
  ]

  Visit-cases : (v : Visit) → (v ≡ raised) ⊎ ((v ≡ skip) ⊎ ((d : Date) × (v ≡ yielded d)))
  Visit-cases raised = inl refl
  Visit-cases skip = inr (inl refl)
  Visit-cases (yielded d) = inr (inr (d, refl))

  is_after-IsLater :
      (config : ScheduleConfig) (reference : LocalTime) (d : Date)
      → is_after add_days weekday config reference d ≡ true
      → IsLater reference d (micros_of add_days weekday config)
  unfolding is_after
  is_after-IsLater config reference d h = elim (Bool-cases (before reference.date_of d)) [
    | inl later ↦ inl later
    | inr early ↦ elim (Bool-cases (before d reference.date_of)) [
      | inl past ↦ absurd (false≢true (rw (is_after, early, past) at h))
      | inr same ↦ inr (
        same_date reference.date_of d early same,
        ground (arith, rw (is_after, early, same) at h),
      )
    ]
  ]

  IsFired-here :
      (config : ScheduleConfig) (reference : LocalTime) (fuel n : ℕ) (d : Date)
      → candidate_date add_days weekday config.rule reference.date_of n ≡ yielded d
      → is_after add_days weekday config reference d ≡ true
      → IsFired config reference (search add_days weekday (suc fuel) config reference n)
  unfolding search IsFired
  IsFired-here config reference fuel n d e after = (
    d,
    rw (search, e, after),
    is_after-IsLater config reference d after,
    subst (λ v. visit_fits config.rule v ≡ true) e (visits_fit config.rule reference.date_of n),
  )

  -- If a step at distance k yields a date after the reference, the search fires.
  pub search-IsFired :
      (config : ScheduleConfig) (reference : LocalTime) (fuel k n : ℕ)
      → k < fuel
      → ((j : ℕ)
          → j ≤ k
          → is_raised (candidate_date add_days weekday config.rule reference.date_of (n + j))
            ≡ false)
      → (d : Date)
      → candidate_date add_days weekday config.rule reference.date_of (n + k) ≡ yielded d
      → is_after add_days weekday config reference d ≡ true
      → IsFired config reference (search add_days weekday fuel config reference n)
  unfolding search IsFired
  search-IsFired config reference zero k n lt safe d e after = absurd (omega (arith, lt))
  search-IsFired config reference (suc fuel) zero n lt safe d e after =
      IsFired-here config reference fuel n d
        (subst (λ m. candidate_date add_days weekday config.rule reference.date_of m ≡ yielded d)
          (add_zero n) e)
        after
  search-IsFired config reference (suc fuel) (suc k) n lt safe d e after =
      let ih =
        search-IsFired config reference fuel k (suc n) (omega (arith, lt))
          (λ j le.
            subst
              (λ m.
                is_raised (candidate_date add_days weekday config.rule reference.date_of m) ≡ false)
              (shift n j) (safe (suc j) (omega (arith, le))))
          d
          (subst (λ m. candidate_date add_days weekday config.rule reference.date_of m ≡ yielded d)
            (shift n k) e)
          after in
      elim (Visit-cases (candidate_date add_days weekday config.rule reference.date_of n)) [
        | inl r ↦ absurd (
            false≢true (
              sym (
                subst
                  (λ m.
                    is_raised (candidate_date add_days weekday config.rule reference.date_of m)
                    ≡ false)
                  (add_zero n) (safe 0 (omega arith)))
              ∙ ap is_raised r))
        | inr (inl s) ↦ rw (search, s) ih
        | inr (inr (c, y)) ↦ elim (Bool-cases (is_after add_days weekday config reference c)) [
          | inl t ↦ IsFired-here config reference fuel n c y t
          | inr f ↦ rw (search, y, f) ih
        ]
      ]
