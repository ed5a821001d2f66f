-- ===== src/Agent/Scheduler/Stuck.antt =====
-- keryxflow/agent/scheduler.py: a monthly task whose next run does not exist.
use keryx_talos.Base.{
  eq_refl, ◌∙◌, ◌∷◌, none, some, leb, arith, ◌==◌, ◌<◌, ◌+◌, ◌≤◌, Option, ◌≡◌, true, false, refl, ℕ,
  String, List,
}
use keryx_talos.Base.Dict.{Dict, lookup, insert, lookup-insert}
use keryx_talos.Base.Calendar.{DateTime, days_in_month}
use keryx_talos.Base.Result.{Result, Exception, raised}
use keryx_talos.Agent.Scheduler.{
  Outcome, ScheduledTask, TaskScheduler, TaskFrequency, TaskResult, RunTime, execute_task,
  fail_task, is_due, completed_task, failed_task, calculate_next_run, next_monthly, is_past,
  clock_of, day_or, day_this_month,
}
use keryx_talos.Agent.Scheduler.Loop.{Attempt, attempt, check_tasks}

-- The run of this month.
abbrev pub run_this_month : Option ℕ → Option RunTime → DateTime → DateTime
run_this_month day at now = record {
  date = record {
    year = now.date.year;
    month = now.date.month;
    day = day_this_month (day_or 1 day) now.date;
  };
  clock = clock_of at;
}

-- The calculation raises if the run of this month is past and its day does not exist in the next.
next_monthly-raises :
    (day : Option ℕ) (at : Option RunTime) (now : DateTime)
    → is_past (run_this_month day at now) now ≡ true
    → now.date.month ≤ 11
    → days_in_month now.date.year (now.date.month + 1) < day_this_month (day_or 1 day) now.date
    → next_monthly day at now ≡ raised Exception.value_error
next_monthly-raises day at now p m h =
    let not_december : (now.date.month == 12) ≡ false = ground arith in
    let short : leb (day_this_month (day_or 1 day) now.date)
          (days_in_month now.date.year (now.date.month + 1))
        ≡ false =
      ground arith in
    rw p (rw not_december (rw short refl))

-- A monthly task whose run of this month is past, on a day that the next month does not have.
abbrev pub HasNoNext : ScheduledTask → DateTime → Type 0
HasNoNext task now =
    (task.frequency ≡ TaskFrequency.monthly)
    × (is_past (run_this_month task.run_on_day task.run_at_time now) now ≡ true)
    × (now.date.month ≤ 11)
    × (days_in_month now.date.year (now.date.month + 1)
        < day_this_month (day_or 1 task.run_on_day) now.date)

calculate_next_run-raises :
    (task : ScheduledTask) (now : DateTime)
    → HasNoNext task now
    → calculate_next_run task now ≡ raised Exception.value_error
unfolding calculate_next_run
calculate_next_run-raises task now (f, p, m, h) =
    rw (f, calculate_next_run)
      (rw (next_monthly-raises task.run_on_day task.run_at_time now p m h) refl)

-- The task is in the scheduler, and due whenever it was due before.
abbrev StillDue : ScheduledTask → TaskScheduler → Type 0
StillDue task s =
    (task' : ScheduledTask) × (lookup task.id s.tasks ≡ some task')
    × ((later : DateTime) → is_due later task' ≡ is_due later task)

-- An execution that raises, with nothing recorded of it.
abbrev pub Unrecorded : ScheduledTask → TaskScheduler → TaskScheduler × Result TaskResult → Type 0
Unrecorded task s r =
    (r.1 ≡ raised Exception.value_error)
    × (r.0.execution_history ≡ s.execution_history)
    × (r.0.stats ≡ s.stats)
    × StillDue task r.0

stored :
    (id : String) (task : ScheduledTask) (d : Dict ScheduledTask)
    → lookup id (insert id task d) ≡ some task
stored id task d = lookup-insert id id task d ∙ rw (eq_refl id) refl

fail_task-Unrecorded :
    (started completed now : DateTime) (error : String) (task : ScheduledTask) (s : TaskScheduler)
    → HasNoNext task now
    → Unrecorded task s (fail_task started completed now error task s)
unfolding fail_task
fail_task-Unrecorded started completed now error task s h =
    rw (calculate_next_run-raises (failed_task completed error task) now h, fail_task)
      (
        refl,
        refl,
        refl,
        (failed_task completed error task, stored task.id _ s.tasks, λ later. refl),
      )

execute_task-Unrecorded :
    (started completed now : DateTime) (outcome : Outcome) (task : ScheduledTask)
    (s : TaskScheduler)
    → HasNoNext task now
    → Unrecorded task s (execute_task started completed now outcome task s)
unfolding execute_task
execute_task-Unrecorded started completed now (some error) task s h =
    fail_task-Unrecorded started completed now error task s h
execute_task-Unrecorded started completed now none task s h =
    rw (calculate_next_run-raises (completed_task completed task) now h, execute_task)
      (fail_task-Unrecorded started completed now "day is out of range for month"
        (completed_task completed task) s h)

-- A monthly task that is due, with a run of this month that is past on a day that the next month does
-- not have, raises out of the loop however its callback ends: the result is not recorded, the task
-- stays due, so that the next round runs it again, and the tasks after it are not looked at.
pub check_tasks-Unrecorded :
    (attempts : String → Attempt) (now : DateTime) (ids : List String) (task : ScheduledTask)
    (s : TaskScheduler)
    → lookup task.id s.tasks ≡ some task
    → is_due now task ≡ true
    → HasNoNext task (attempts task.id).now
    → let r = attempt (attempts task.id) task s in
      Unrecorded task s r
      × (check_tasks attempts now (task.id ∷ ids) s ≡ (r.0, raised Exception.value_error))
unfolding check_tasks
check_tasks-Unrecorded attempts now ids task s there due h =
    let a = attempts task.id in
    let u = execute_task-Unrecorded a.started_at a.completed_at a.now a.outcome task s h in
    (u, rw (there, due, check_tasks) (rw (u.0) refl))
