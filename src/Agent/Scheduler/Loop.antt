-- ===== src/Agent/Scheduler/Loop.antt =====
-- keryxflow/agent/scheduler.py: `_run_loop`. The callbacks do not change the tasks of the scheduler; how
-- and when each ends is an argument.
use keryx_talos.Base.{true, if◌then◌else◌, ◌∷◌, [], none, some, String, List, map}
use keryx_talos.Base.Dict.{lookup}
use keryx_talos.Base.Calendar.{DateTime}
use keryx_talos.Base.Result.{◌>>=◌, Result, ok, raised}
use keryx_talos.Agent.Scheduler.{
  TaskFrequency, new_task, Outcome, ScheduledTask, TaskScheduler, TaskResult, execute_task, is_due,
  run_task_now, add_task, remove_task, enable_task, disable_task, start, stop,
}

-- The times that a run of a task reads, and how it ends.
pub record Attempt : Type 0 where
  pub started_at : DateTime
  pub completed_at : DateTime
  pub now : DateTime
  pub outcome : Outcome

abbrev pub attempt : Attempt → ScheduledTask → TaskScheduler → TaskScheduler × Result TaskResult
attempt a task s = execute_task a.started_at a.completed_at a.now a.outcome task s

-- The loop over the tasks. An exception ends it.
unfoldable pub check_tasks :
    (String → Attempt) → DateTime → List String → TaskScheduler → TaskScheduler × Result (Unit {0})
check_tasks attempts now [] s = (s, ok tt)
check_tasks attempts now (id ∷ ids) s =
    let rest = check_tasks attempts now ids s in
    elim (lookup id s.tasks) [
      | none ↦ rest
      | some task ↦
          if is_due now task
          then (let r = attempt (attempts id) task s in
              elim r.1 [
                | raised e ↦ (r.0, raised e)
                | ok result ↦ check_tasks attempts now ids r.0
              ])
          else rest
    ]

-- A round of the loop; an exception is logged.
unfoldable pub run_round : (String → Attempt) → DateTime → TaskScheduler → TaskScheduler
run_round attempts now s =
    if s.is_running then (check_tasks attempts now (map (λ q. q.0) s.tasks) s).0 else s

-- The calls that change a scheduler, with the times that they read.
pub data Op : Type 0 where
  add_call : ScheduledTask → DateTime → Op
  remove_call : String → Op
  enable_call : String → DateTime → Op
  disable_call : String → Op
  run_call : Attempt → String → Op
  round_call : (String → Attempt) → DateTime → Op
  start_call stop_call : Op

abbrev pub kept_or : TaskScheduler → Result TaskScheduler → TaskScheduler
kept_or s (ok s') = s'
kept_or s (raised e) = s

unfoldable pub apply : Op → TaskScheduler → TaskScheduler
apply (Op.add_call task now) s = kept_or s (add_task task now s)
apply (Op.remove_call id) s = (remove_task id s).0
apply (Op.enable_call id now) s = (enable_task id now s).0
apply (Op.disable_call id) s = (disable_task id s).0
apply (Op.run_call a id) s = (run_task_now a.started_at a.completed_at a.now a.outcome id s).0
apply (Op.round_call attempts now) s = run_round attempts now s
apply Op.start_call s = start s
apply Op.stop_call s = stop s

unfoldable pub run : List Op → TaskScheduler → TaskScheduler
run [] s = s
run (op ∷ ops) s = run ops (apply op s)

-- `setup_default_tasks`: a daily reflection at 23:00 and a weekly one on Sunday at 23:30.
unfoldable pub setup_default_tasks : DateTime → TaskScheduler → Result TaskScheduler
setup_default_tasks now s =
    let daily =
      new_task "daily_reflection" "Daily Trading Reflection" TaskFrequency.daily
        (some (record { hour = 23; minute = 0 })) none true in
    let weekly =
      new_task "weekly_reflection" "Weekly Trading Reflection" TaskFrequency.weekly
        (some (record { hour = 23; minute = 30 })) (some 6) true in
    add_task daily now s >>= λ s₁. add_task weekly now s₁
