-- ===== src/Agent/Scheduler.antt =====
-- keryxflow/agent/scheduler.py: `TaskScheduler`. `now` is the time that `_calculate_next_run` reads.
mod State
mod NextRun
pub mod Later
pub mod Loop
pub mod Tidy
pub mod Stuck
mod Tests
pub use State.*
unfoldable pub use NextRun.*
use keryx_talos.Base.{
  last_of, length, leb, ltb, is_some, ◌+◌, if◌then◌else◌, ◌-◌, ◌++◌, ◌&&◌, not, ◌∷◌, [], none, some,
  true, false, ℕ, Bool, String, List, Option,
}
use keryx_talos.Base.Dict.{Dict, lookup, insert, erase}
use keryx_talos.Base.Calendar.{DateTime, instant}
use keryx_talos.Base.Result.{Result, Exception, ok, raised, ◌>>=◌}

abbrev pub new : TaskScheduler
new = record {
  tasks = [];
  is_running = false;
  stats = record {
    tasks_executed = 0;
    tasks_succeeded = 0;
    tasks_failed = 0;
    total_execution_time = 0;
    last_execution_time = none;
  };
  execution_history = [];
}

abbrev pub new_task :
    String → String → TaskFrequency → Option RunTime → Option ℕ → Bool → ScheduledTask
new_task id name frequency run_at_time run_on_day enabled = record {
  id = id;
  name = name;
  frequency = frequency;
  run_at_time = run_at_time;
  run_on_day = run_on_day;
  status = TaskStatus.pending;
  last_run = none;
  next_run = none;
  run_count = 0;
  error_count = 0;
  last_error = none;
  enabled = enabled;
}

abbrev pub put_task : ScheduledTask → TaskScheduler → TaskScheduler
put_task task s = record s { tasks = insert task.id task s.tasks }

-- A method that raises leaves the scheduler as it was.
unfoldable pub add_task : ScheduledTask → DateTime → TaskScheduler → Result TaskScheduler
add_task task now s =
    if is_some (lookup task.id s.tasks)
    then raised Exception.value_error
    else calculate_next_run task now >>= λ next_run.
        ok (put_task (record task { next_run = next_run }) s)

unfoldable pub remove_task : String → TaskScheduler → TaskScheduler × Bool
remove_task task_id s =
    if is_some (lookup task_id s.tasks)
    then (record s { tasks = erase task_id s.tasks }, true)
    else (s, false)

-- A task that is enabled stays so when the calculation raises.
unfoldable pub enable_task : String → DateTime → TaskScheduler → TaskScheduler × Result Bool
enable_task task_id now s = elim (lookup task_id s.tasks) [
  | none ↦ (s, ok false)
  | some task ↦ elim (calculate_next_run (record task { enabled = true }) now) [
    | raised e ↦
        (record s { tasks = insert task_id (record task { enabled = true }) s.tasks }, raised e)
    | ok next_run ↦ (
      record s {
        tasks = insert task_id (record task { enabled = true; next_run = next_run }) s.tasks;
      },
      ok true,
    )
  ]
]

unfoldable pub disable_task : String → TaskScheduler → TaskScheduler × Bool
disable_task task_id s = elim (lookup task_id s.tasks) [
  | none ↦ (s, false)
  | some task ↦
      (record s { tasks = insert task_id (record task { enabled = false }) s.tasks }, true)
]

unfoldable pub start : TaskScheduler → TaskScheduler
start s = record s { is_running = true }

unfoldable pub stop : TaskScheduler → TaskScheduler
stop s = record s { is_running = false }

-- The task once its callback has returned, before its next run is known.
abbrev pub completed_task : DateTime → ScheduledTask → ScheduledTask
completed_task completed_at task = record task {
  status = TaskStatus.completed;
  last_run = some completed_at;
  run_count = task.run_count + 1;
}

-- The task in the handler of an exception, before its next run is known.
abbrev pub failed_task : DateTime → String → ScheduledTask → ScheduledTask
failed_task completed_at error task = record task {
  status = TaskStatus.failed;
  last_run = some completed_at;
  error_count = task.error_count + 1;
  last_error = some error;
}

abbrev pub duration : DateTime → DateTime → ℕ
duration started_at completed_at = instant completed_at - instant started_at

abbrev pub count_success : DateTime → ℕ → SchedulerStats → SchedulerStats
count_success completed_at time stats = record stats {
  tasks_executed = stats.tasks_executed + 1;
  tasks_succeeded = stats.tasks_succeeded + 1;
  total_execution_time = stats.total_execution_time + time;
  last_execution_time = some completed_at;
}

abbrev pub count_failure : SchedulerStats → SchedulerStats
count_failure stats = record stats {
  tasks_executed = stats.tasks_executed + 1;
  tasks_failed = stats.tasks_failed + 1;
}

-- "Store in history"
abbrev pub store : TaskResult → List TaskResult → List TaskResult
store result history =
    let longer = history ++ (result ∷ []) in
    if ltb 100 (length longer) then last_of 100 longer else longer

abbrev pub result_of : String → DateTime → DateTime → Option String → TaskResult
result_of task_id started_at completed_at error = record {
  task_id = task_id;
  success = not (is_some error);
  started_at = started_at;
  completed_at = completed_at;
  duration = duration started_at completed_at;
  error = error;
}

-- The `except` block, and what follows it. The calculation may raise again, out of the method.
unfoldable pub fail_task :
    DateTime
    → DateTime
    → DateTime
    → String
    → ScheduledTask
    → TaskScheduler
    → TaskScheduler × Result TaskResult
fail_task started_at completed_at now error task s =
    let task₁ = failed_task completed_at error task in
    elim (calculate_next_run task₁ now) [
      | raised e ↦ (put_task task₁ s, raised e)
      | ok next_run ↦
          let result = result_of task.id started_at completed_at (some error) in
          (
            record s {
              tasks = insert task.id (record task₁ { next_run = next_run }) s.tasks;
              stats = count_failure s.stats;
              execution_history = store result s.execution_history;
            },
            ok result,
          )
    ]

-- `_execute_task`, with the times that it reads and the outcome of the callback. An exception of the
-- calculation after a callback that returned is handled as one of the callback.
unfoldable pub execute_task :
    DateTime
    → DateTime
    → DateTime
    → Outcome
    → ScheduledTask
    → TaskScheduler
    → TaskScheduler × Result TaskResult
execute_task started_at completed_at now outcome task s = elim outcome [
  | some error ↦ fail_task started_at completed_at now error task s
  | none ↦
      let task₁ = completed_task completed_at task in
      elim (calculate_next_run task₁ now) [
        | raised e ↦ fail_task started_at completed_at now "day is out of range for month" task₁ s
        | ok next_run ↦
            let result = result_of task.id started_at completed_at none in
            (
              record s {
                tasks = insert task.id (record task₁ { next_run = next_run }) s.tasks;
                stats = count_success completed_at (duration started_at completed_at) s.stats;
                execution_history = store result s.execution_history;
              },
              ok result,
            )
      ]
]

-- `run_task_now`: `ok none` for a task that is not found.
unfoldable pub run_task_now :
    DateTime
    → DateTime
    → DateTime
    → Outcome
    → String
    → TaskScheduler
    → TaskScheduler × Result (Option TaskResult)
run_task_now started_at completed_at now outcome task_id s = elim (lookup task_id s.tasks) [
  | none ↦ (s, ok none)
  | some task ↦
      let r = execute_task started_at completed_at now outcome task s in
      (r.0, r.1 >>= λ result. ok (some result))
]

-- `task.enabled`, `task.next_run and now >= task.next_run`
abbrev pub is_due : DateTime → ScheduledTask → Bool
is_due now task =
    task.enabled && (elim task.next_run [ none ↦ false | some t ↦ leb (instant t) (instant now) ])
