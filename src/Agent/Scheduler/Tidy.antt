-- ===== src/Agent/Scheduler/Tidy.antt =====
-- keryxflow/agent/scheduler.py: the history and the statistics.
use keryx_talos.Base.{
  ◌-◌, length-drop, ◌++◌, ltb, map, ◌+◌, ◌≡◌, ◌≤◌, is_some, Option, if_keeps, length, Option-cases,
  arith, Bool-cases, Bool, true, false, refl, ◌∷◌, [], none, some, inl, inr, String, List,
}
use keryx_talos.Base.Dict.{Dict, lookup}
use keryx_talos.Base.Calendar.{DateTime}
use keryx_talos.Base.Result.{Result-cases}
use keryx_talos.Agent.Scheduler.{
  Outcome, ScheduledTask, TaskScheduler, TaskResult, new, execute_task, fail_task, is_due,
  run_task_now, add_task, remove_task, enable_task, disable_task, start, stop, store,
  completed_task, failed_task, calculate_next_run,
}
use keryx_talos.Agent.Scheduler.Loop.{
  Attempt, attempt, check_tasks, run_round, Op, apply, run, kept_or,
}

-- At most a hundred results are kept, and every execution that is counted succeeded or failed.
pub record IsTidy (s : TaskScheduler) : Type 0 where
  pub short : length s.execution_history ≤ 100
  pub counted : s.stats.tasks_executed ≡ s.stats.tasks_succeeded + s.stats.tasks_failed

-- A change of the tasks alone.
with_tasks-IsTidy :
    (s : TaskScheduler) (tasks : Dict ScheduledTask) (is_running : Bool)
    → IsTidy s
    → IsTidy (record s { tasks = tasks; is_running = is_running })
with_tasks-IsTidy s tasks is_running w = record { short = w.short; counted = w.counted }

store-length : (r : TaskResult) (history : List TaskResult) → length (store r history) ≤ 100
store-length r history = elim (Bool-cases (ltb 100 (length (history ++ (r ∷ []))))) [
  | inl long ↦
      rw long
        (omega (arith, length-drop (length (history ++ (r ∷ [])) - 100) (history ++ (r ∷ []))))
  | inr short ↦ rw short (ground arith)
]

fail_task-IsTidy :
    (started completed now : DateTime) (error : String) (task : ScheduledTask) (s : TaskScheduler)
    → IsTidy s
    → IsTidy (fail_task started completed now error task s).0
unfolding fail_task
fail_task-IsTidy started completed now error task s w =
    elim (Result-cases (calculate_next_run (failed_task completed error task) now)) [
      | inl (t, e) ↦
          rw (e, fail_task)
            (record {
              short = store-length _ s.execution_history;
              counted = omega (arith, w.counted);
            })
      | inr (x, e) ↦ rw (e, fail_task) (with_tasks-IsTidy s _ s.is_running w)
    ]

execute_task-IsTidy :
    (started completed now : DateTime) (outcome : Outcome) (task : ScheduledTask)
    (s : TaskScheduler)
    → IsTidy s
    → IsTidy (execute_task started completed now outcome task s).0
unfolding execute_task
execute_task-IsTidy started completed now (some error) task s w =
    fail_task-IsTidy started completed now error task s w
execute_task-IsTidy started completed now none task s w =
    elim (Result-cases (calculate_next_run (completed_task completed task) now)) [
      | inl (t, e) ↦
          rw (e, execute_task)
            (record {
              short = store-length _ s.execution_history;
              counted = omega (arith, w.counted);
            })
      | inr (x, e) ↦
          rw (e, execute_task)
            (fail_task-IsTidy started completed now "day is out of range for month"
              (completed_task completed task) s w)
    ]

check_tasks-IsTidy :
    (attempts : String → Attempt) (now : DateTime) (ids : List String) (s : TaskScheduler)
    → IsTidy s
    → IsTidy (check_tasks attempts now ids s).0
unfolding check_tasks
check_tasks-IsTidy attempts now [] s w = w
check_tasks-IsTidy attempts now (id ∷ ids) s w = elim (Option-cases (lookup id s.tasks)) [
  | inl absent ↦ rw (absent, check_tasks) (check_tasks-IsTidy attempts now ids s w)
  | inr (task, h) ↦
      rw (h, check_tasks)
        (elim (Bool-cases (is_due now task)) [
          | inr early ↦ rw early (check_tasks-IsTidy attempts now ids s w)
          | inl due ↦ rw due (
              let r = attempt (attempts id) task s in
              let w₁ =
                execute_task-IsTidy (attempts id).started_at (attempts id).completed_at
                  (attempts id).now (attempts id).outcome task s w in
              elim (Result-cases r.1) [
                | inl (result, e) ↦ rw e (check_tasks-IsTidy attempts now ids r.0 w₁)
                | inr (x, e) ↦ rw e w₁
              ])
        ])
]

changed_task-IsTidy :
    (o : Option ScheduledTask) (id : String) (now : DateTime) (s : TaskScheduler)
    → lookup id s.tasks ≡ o
    → IsTidy s
    → IsTidy (enable_task id now s).0 × IsTidy (disable_task id s).0
unfolding enable_task disable_task
changed_task-IsTidy none id now s h w = rw (h, enable_task, disable_task) (w, w)
changed_task-IsTidy (some task) id now s h w =
    rw (h, enable_task, disable_task)
      (elim (Result-cases (calculate_next_run (record task { enabled = true }) now)) [
        | inl (t, e) ↦
            rw e (with_tasks-IsTidy s _ s.is_running w, with_tasks-IsTidy s _ s.is_running w)
        | inr (x, e) ↦
            rw e (with_tasks-IsTidy s _ s.is_running w, with_tasks-IsTidy s _ s.is_running w)
      ])

add_task-IsTidy :
    (task : ScheduledTask) (now : DateTime) (s : TaskScheduler)
    → IsTidy s
    → IsTidy (kept_or s (add_task task now s))
unfolding add_task
add_task-IsTidy task now s w = elim (Bool-cases (is_some (lookup task.id s.tasks))) [
  | inl there ↦ rw there w
  | inr free ↦ rw free (elim (Result-cases (calculate_next_run task now)) [
    | inl (t, e) ↦ rw e (with_tasks-IsTidy s _ s.is_running w)
    | inr (x, e) ↦ rw e w
  ])
]

apply-IsTidy : (op : Op) (s : TaskScheduler) → IsTidy s → IsTidy (apply op s)
unfolding apply remove_task run_task_now run_round start stop
apply-IsTidy (Op.add_call task now) s w = add_task-IsTidy task now s w
apply-IsTidy (Op.remove_call id) s w =
    if_keeps {A = TaskScheduler × Bool} (λ r. IsTidy r.0) (is_some (lookup id s.tasks))
      (with_tasks-IsTidy s _ s.is_running w) w
apply-IsTidy (Op.enable_call id now) s w =
    (changed_task-IsTidy (lookup id s.tasks) id now s refl w).0
apply-IsTidy (Op.disable_call id) s w =
    (changed_task-IsTidy (lookup id s.tasks) id
      (record { date = record { year = 1; month = 1; day = 1 }; clock = 0 }) s refl w).1
apply-IsTidy (Op.run_call a id) s w = elim (Option-cases (lookup id s.tasks)) [
  | inl absent ↦ rw (absent, apply, run_task_now) w
  | inr (task, h) ↦
      rw (h, apply, run_task_now)
        (execute_task-IsTidy a.started_at a.completed_at a.now a.outcome task s w)
]
apply-IsTidy (Op.round_call attempts now) s w =
    if_keeps IsTidy s.is_running (check_tasks-IsTidy attempts now (map (λ q. q.0) s.tasks) s w) w
apply-IsTidy Op.start_call s w = with_tasks-IsTidy s s.tasks true w
apply-IsTidy Op.stop_call s w = with_tasks-IsTidy s s.tasks false w

run-IsTidy : (ops : List Op) (s : TaskScheduler) → IsTidy s → IsTidy (run ops s)
unfolding run
run-IsTidy [] s w = w
run-IsTidy (op ∷ ops) s w = run-IsTidy ops (apply op s) (apply-IsTidy op s w)

-- Whatever is called on a new scheduler, and however the callbacks end, its history never holds more
-- than 100 results, and the executions that it counts are the successes and the failures.
pub run-new-IsTidy : (ops : List Op) → IsTidy (run ops new)
run-new-IsTidy ops = run-IsTidy ops new (record { short = omega arith; counted = refl })
