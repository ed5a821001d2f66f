-- ===== src/Agent/Scheduler/Later.antt =====
-- keryxflow/agent/scheduler.py: when the next run is.
use keryx_talos.Base.{
  ◌&&◌, false, ap, ◌==◌, leb, ◌≢◌, ◌+◌, Bool-cases, ◌≡◌, none, some, inl, inr, refl,
  microseconds_per_day, arith, ◌≤◌, ◌<◌, ℕ, Option,
}
use keryx_talos.Base.Calendar.{
  Date, DateTime, IsDate, IsMoment, days_in_month, weekday, add_days, instant, to_ordinal,
  to_ordinal-add_days, add_days-IsDate, days_before_month, year_end, month_end,
}
use keryx_talos.Base.Result.{ok, OnOk, OnOk-bind}
use keryx_talos.Agent.Scheduler.{
  TaskFrequency, RunTime, ScheduledTask, next_hour, next_daily, next_weekly, next_monthly, is_past,
  clock_of, day_this_month, day_or, days_ahead, replace_month, calculate_next_run,
}

-- A run that comes after a moment.
abbrev pub IsLater : DateTime → DateTime → Type 0
IsLater now t = instant now < instant t

next_hour-IsLater : (now : DateTime) → IsMoment now → IsLater now (next_hour now)
next_hour-IsLater now h = ground (arith, to_ordinal-add_days 1 now.date h.0)

not_past : (t now : DateTime) → is_past t now ≡ false → IsLater now t
not_past t now h = ground arith

next_daily-IsLater :
    (at : Option RunTime) (now : DateTime) → IsMoment now → IsLater now (next_daily at now)
next_daily-IsLater at now h = ground (arith, to_ordinal-add_days 1 now.date h.0)

-- A week after a day from today on is later than today.
in_a_week-IsLater :
    (n clock : ℕ) (now : DateTime)
    → IsMoment now
    → IsLater now (record { date = add_days 7 (add_days n now.date); clock = clock })
in_a_week-IsLater n clock now h =
    let e = to_ordinal-add_days n now.date h.0 in
    let f = to_ordinal-add_days 7 (add_days n now.date) (add_days-IsDate n now.date h.0) in
    omega arith

next_weekly-IsLater :
    (day : Option ℕ) (at : Option RunTime) (now : DateTime)
    → IsMoment now
    → IsLater now (next_weekly day at now)
next_weekly-IsLater day at now h =
    let n = days_ahead (day_or 0 day) (weekday now.date) in
    let t : DateTime = record { date = add_days n now.date; clock = clock_of at } in
    elim (Bool-cases (is_past t now)) [
      | inl past ↦ rw past (in_a_week-IsLater n (clock_of at) now h)
      | inr ahead ↦ rw ahead (not_past t now ahead)
    ]

replace_month-IsLater :
    (now t : DateTime) (year month : ℕ)
    → ((d : ℕ)
        → 1 ≤ d
        → to_ordinal now.date < to_ordinal (record { year = year; month = month; day = d }))
    → 1 ≤ t.date.day
    → now.clock < microseconds_per_day
    → OnOk (IsLater now) (replace_month year month t)
replace_month-IsLater now t year month h k l =
    elim (Bool-cases (leb t.date.day (days_in_month year month) && leb year 9999)) [
      | inl fits ↦ rw fits (omega (arith, h t.date.day k))
      | inr short ↦ rw short tt
    ]

next_year-later :
    (d : Date) (day : ℕ)
    → IsDate d
    → d.month ≡ 12
    → 1 ≤ day
    → to_ordinal d < to_ordinal (record { year = d.year + 1; month = 1; day = day })
next_year-later d day h m k =
    let q : days_before_month d.year d.month ≡ days_before_month d.year 12 =
      ap (days_before_month d.year) m in
    let l : days_in_month d.year d.month ≡ 31 = ap (days_in_month d.year) m in
    omega (arith, year_end d.year h.0)

next_month-later :
    (d : Date) (day : ℕ)
    → IsDate d
    → d.month ≤ 11
    → 1 ≤ day
    → to_ordinal d < to_ordinal (record { year = d.year; month = d.month + 1; day = day })
next_month-later d day h m k = omega (arith, month_end d.year d.month h.1 m)

day_this_month-positive : (run_day : ℕ) (d : Date) → IsDate d → 1 ≤ day_this_month run_day d
day_this_month-positive run_day d h = ground arith

next_monthly-IsLater :
    (day : Option ℕ) (at : Option RunTime) (now : DateTime)
    → IsMoment now
    → OnOk (IsLater now) (next_monthly day at now)
next_monthly-IsLater day at now h =
    let t : DateTime = record {
      date = record {
        year = now.date.year;
        month = now.date.month;
        day = day_this_month (day_or 1 day) now.date;
      };
      clock = clock_of at;
    } in
    let k = day_this_month-positive (day_or 1 day) now.date h.0 in
    elim (Bool-cases (is_past t now)) [
      | inr ahead ↦ rw ahead (not_past t now ahead)
      | inl past ↦ rw past (elim (Bool-cases (now.date.month == 12)) [
        | inl dec ↦ rw dec (
            replace_month-IsLater now t (now.date.year + 1) 1
              (λ d i. next_year-later now.date d h.0 (ground arith) i) k h.1)
        | inr other ↦ rw other (
            replace_month-IsLater now t now.date.year (now.date.month + 1)
              (λ d i. next_month-later now.date d h.0 (ground arith) i) k h.1)
      ])
    ]

-- A next run that is known comes after a moment.
abbrev pub NextIsLater : DateTime → Option DateTime → Type 0
NextIsLater now none = Unit
NextIsLater now (some t) = IsLater now t

-- A task that is not to run once only is next run strictly later than the time at which its next run
-- is calculated, if the calculation does not raise, so that no run of it is due at once: the frequency
-- is hourly, daily, weekly or monthly, on any day and at any time of the day.
pub calculate_next_run-IsLater :
    (f : TaskFrequency) (task : ScheduledTask) (now : DateTime)
    → task.frequency ≡ f
    → f ≢ TaskFrequency.once
    → IsMoment now
    → OnOk (NextIsLater now) (calculate_next_run task now)
unfolding calculate_next_run
calculate_next_run-IsLater TaskFrequency.once task now e o h = absurd (o refl)
calculate_next_run-IsLater TaskFrequency.hourly task now e o h =
    rw (e, calculate_next_run) (next_hour-IsLater now h)
calculate_next_run-IsLater TaskFrequency.daily task now e o h =
    rw (e, calculate_next_run) (next_daily-IsLater task.run_at_time now h)
calculate_next_run-IsLater TaskFrequency.weekly task now e o h =
    rw (e, calculate_next_run) (next_weekly-IsLater task.run_on_day task.run_at_time now h)
calculate_next_run-IsLater TaskFrequency.monthly task now e o h =
    rw (e, calculate_next_run)
      (OnOk-bind (IsLater now) (NextIsLater now) (next_monthly task.run_on_day task.run_at_time now)
        (λ t. ok (some t)) (next_monthly-IsLater task.run_on_day task.run_at_time now h) (λ t l. l))
