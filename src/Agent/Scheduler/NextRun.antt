-- ===== src/Agent/Scheduler/NextRun.antt =====
-- keryxflow/agent/scheduler.py: `_calculate_next_run`.
use keryx_talos.Base.{
  microseconds_per_minute, microseconds_per_day, ◌&&◌, ◌-◌, ltb, leb, ◌==◌, ◌+◌, ◌/◌, if◌then◌else◌,
  Bool, ◌*◌, none, some, ℕ, Option,
}
use keryx_talos.Base.Calendar.{Date, DateTime, days_in_month, weekday, add_days, instant}
use keryx_talos.Base.Result.{Result, Exception, ok, raised, ◌>>=◌}
use keryx_talos.Agent.Scheduler.State.{TaskFrequency, RunTime, ScheduledTask}

abbrev pub microseconds_per_hour : ℕ
microseconds_per_hour = 3_600_000_000

-- `task.run_at_time or time(0, 0)`, as the time of a day.
abbrev pub clock_of : Option RunTime → ℕ
clock_of none = 0
clock_of (some t) = t.hour * microseconds_per_hour + t.minute * microseconds_per_minute

-- `now.replace(minute=0, second=0, microsecond=0) + timedelta(hours=1)`
abbrev pub next_hour : DateTime → DateTime
next_hour now =
    let clock = now.clock / microseconds_per_hour * microseconds_per_hour + microseconds_per_hour in
    if leb microseconds_per_day clock
    then record { date = add_days 1 now.date; clock = clock - microseconds_per_day }
    else record { date = now.date; clock = clock }

-- `next_run <= now`
abbrev pub is_past : DateTime → DateTime → Bool
is_past next_run now = leb (instant next_run) (instant now)

abbrev pub plus_days : ℕ → DateTime → DateTime
plus_days n t = record { date = add_days n t.date; clock = t.clock }

abbrev pub next_daily : Option RunTime → DateTime → DateTime
next_daily run_at_time now =
    let next_run : DateTime = record { date = now.date; clock = clock_of run_at_time } in
    if is_past next_run now then plus_days 1 next_run else next_run

-- `task.run_on_day if task.run_on_day is not None else …`
abbrev pub day_or : ℕ → Option ℕ → ℕ
day_or default none = default
day_or default (some d) = d

-- `run_day - now.weekday()`, plus 7 if it is negative.
abbrev pub days_ahead : ℕ → ℕ → ℕ
days_ahead run_day today = if ltb run_day today then run_day + 7 - today else run_day - today

abbrev pub next_weekly : Option ℕ → Option RunTime → DateTime → DateTime
next_weekly run_on_day run_at_time now =
    let run_day = day_or 0 run_on_day in
    let next_run =
      plus_days (days_ahead run_day (weekday now.date))
        (record { date = now.date; clock = clock_of run_at_time }) in
    if is_past next_run now then plus_days 7 next_run else next_run

-- The day in the month of `now`, or its last if `replace` raises.
abbrev pub day_this_month : ℕ → Date → ℕ
day_this_month run_day d =
    if ltb 0 run_day && leb run_day (days_in_month d.year d.month)
    then run_day
    else days_in_month d.year d.month

-- `datetime.MAXYEAR`
abbrev max_year : ℕ
max_year = 9999

-- `next_run.replace(year=…, month=…)`
abbrev pub replace_month : ℕ → ℕ → DateTime → Result DateTime
replace_month year month t =
    if leb t.date.day (days_in_month year month) && leb year max_year
    then ok
        record { date = record { year = year; month = month; day = t.date.day }; clock = t.clock }
    else raised Exception.value_error

abbrev pub next_monthly : Option ℕ → Option RunTime → DateTime → Result DateTime
next_monthly run_on_day run_at_time now =
    let run_day = day_or 1 run_on_day in
    let next_run : DateTime = record {
      date = record {
        year = now.date.year;
        month = now.date.month;
        day = day_this_month run_day now.date;
      };
      clock = clock_of run_at_time;
    } in
    if is_past next_run now
    then (if now.date.month == 12
        then replace_month (now.date.year + 1) 1 next_run
        else replace_month now.date.year (now.date.month + 1) next_run)
    else ok next_run

-- `task.next_run or now`
abbrev pub next_once : ScheduledTask → DateTime → Option DateTime
next_once task now =
    if ltb 0 task.run_count then none else some (elim task.next_run [ none ↦ now | some t ↦ t ])

unfoldable pub calculate_next_run : ScheduledTask → DateTime → Result (Option DateTime)
calculate_next_run task now = elim task.frequency [
  | TaskFrequency.once ↦ ok (next_once task now)
  | TaskFrequency.hourly ↦ ok (some (next_hour now))
  | TaskFrequency.daily ↦ ok (some (next_daily task.run_at_time now))
  | TaskFrequency.weekly ↦ ok (some (next_weekly task.run_on_day task.run_at_time now))
  | TaskFrequency.monthly ↦ next_monthly task.run_on_day task.run_at_time now >>= λ t. ok (some t)
]
