-- ===== src/Agent/Scheduler/State.antt =====
-- keryxflow/agent/scheduler.py: tasks, results and the state of the scheduler. The callback of a task
-- is outside: how a call of it ends is an argument of the methods that make one.
use keryx_talos.Base.{ℕ, Bool, String, List, Option}
use keryx_talos.Base.Dict.{Dict}
use keryx_talos.Base.Calendar.{DateTime}

pub data TaskFrequency : Type 0 where
  once hourly daily weekly monthly : TaskFrequency

pub data TaskStatus : Type 0 where
  pending running completed failed cancelled : TaskStatus

-- `datetime.time`, less the seconds, which the scheduler does not read.
pub record RunTime : Type 0 where
  pub hour : ℕ
  pub minute : ℕ

pub record ScheduledTask : Type 0 where
  pub id : String
  pub name : String
  pub frequency : TaskFrequency
  pub run_at_time : Option RunTime
  pub run_on_day : Option ℕ
  pub status : TaskStatus
  pub last_run : Option DateTime
  pub next_run : Option DateTime
  pub run_count : ℕ
  pub error_count : ℕ
  pub last_error : Option String
  pub enabled : Bool

pub record TaskResult : Type 0 where
  pub task_id : String
  pub success : Bool
  pub started_at : DateTime
  pub completed_at : DateTime
  pub duration : ℕ
  pub error : Option String

pub record SchedulerStats : Type 0 where
  pub tasks_executed : ℕ
  pub tasks_succeeded : ℕ
  pub tasks_failed : ℕ
  pub total_execution_time : ℕ
  pub last_execution_time : Option DateTime

pub record TaskScheduler : Type 0 where
  pub tasks : Dict ScheduledTask
  pub is_running : Bool
  pub stats : SchedulerStats
  pub execution_history : List TaskResult

-- How a call of a callback ends: `none`, or the text of its exception.
abbrev pub Outcome : Type 0
Outcome = Option String
