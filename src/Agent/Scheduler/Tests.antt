-- ===== src/Agent/Scheduler/Tests.antt =====
-- Tasks at moments, and the theorems about the scheduler at them.
use keryx_talos.Base.{List, ◌∷◌, [], none, some, true, ℕ, String, refl, arith, ◌≡◌, ◌≢◌}
use keryx_talos.Base.Calendar.{DateTime}
use keryx_talos.Base.Result.{Exception, raised, OnOk}
use keryx_talos.Agent.Scheduler.{
  TaskFrequency, RunTime, ScheduledTask, TaskScheduler, new, new_task, calculate_next_run,
  next_weekly, next_hour, put_task,
}
use keryx_talos.Agent.Scheduler.Later.{NextIsLater, calculate_next_run-IsLater}
use keryx_talos.Agent.Scheduler.Loop.{Attempt, attempt, check_tasks, Op, run}
use keryx_talos.Agent.Scheduler.Tidy.{IsTidy, run-new-IsTidy}
use keryx_talos.Agent.Scheduler.Stuck.{Unrecorded, check_tasks-Unrecorded}

-- 2024, at midnight.
abbrev day : ℕ → ℕ → DateTime
day month d = record { date = record { year = 2024; month = month; day = d }; clock = 0 }

-- The last day of 2023, a Sunday, at 23:30.
abbrev new_year : DateTime
new_year = record { date = record { year = 2023; month = 12; day = 31 }; clock = 84_600_000_000 }

next_hour_of_the_year : next_hour new_year ≡ day 1 1
next_hour_of_the_year = refl

abbrev half_past : RunTime
half_past = record { hour = 23; minute = 30 }

-- The run that is due now comes a week later.
next_sunday :
    next_weekly (some 6) (some half_past) new_year
    ≡ record { date = record { year = 2024; month = 1; day = 7 }; clock = 84_600_000_000 }
next_sunday = refl

abbrev weekly_task : ScheduledTask
weekly_task =
    new_task "weekly_reflection" "Weekly" TaskFrequency.weekly (some half_past) (some 6) true

weekly_is_not_once : TaskFrequency.weekly ≢ TaskFrequency.once
weekly_is_not_once e = ground arith

calculate_next_run-IsLater_example :
    OnOk (NextIsLater new_year) (calculate_next_run weekly_task new_year)
calculate_next_run-IsLater_example =
    calculate_next_run-IsLater TaskFrequency.weekly weekly_task new_year refl weekly_is_not_once
      ((omega arith, omega arith, omega arith, omega arith, omega arith), omega arith)

abbrev now_each : String → Attempt
now_each id = record {
  started_at = day 1 31;
  completed_at = day 1 31;
  now = day 1 31;
  outcome = none;
}

abbrev ops : List Op
ops = Op.add_call weekly_task new_year ∷ Op.start_call ∷ Op.round_call now_each (day 1 31) ∷ []

run-new-IsTidy_example : IsTidy (run ops new)
run-new-IsTidy_example = run-new-IsTidy ops

-- Each month on its 31st, due on January 31st.
abbrev month_end_task : ScheduledTask
month_end_task = record (new_task "month" "Month" TaskFrequency.monthly none (some 31) true) {
  next_run = some (day 1 31);
}

abbrev with_month_end : TaskScheduler
with_month_end = put_task month_end_task new

check_tasks-Unrecorded_example :
    Unrecorded month_end_task with_month_end
      (attempt (now_each "month") month_end_task with_month_end)
    × (check_tasks now_each (day 1 31) ("month" ∷ "later" ∷ []) with_month_end ≡ (
      (attempt (now_each "month") month_end_task with_month_end).0,
      raised Exception.value_error,
    ))
check_tasks-Unrecorded_example =
    check_tasks-Unrecorded now_each (day 1 31) ("later" ∷ []) month_end_task with_month_end refl
      refl (refl, refl, omega arith, omega arith)
