-- ===== src/Scheduler/Reports.antt =====
-- health, metrics, queueSizes and runningTasks of AgentScheduler. A quotient of two counts is kept
-- as the two numbers.
use nexus_ai_workspace.Common.{
  ℕ, List, [], ◌∷◌, ◌++◌, ◌+◌, ◌-◌, ◌*◌, ltb, if◌then◌else◌, ◌||◌, length, select, ◌==◌,
}
use nexus_ai_workspace.Common.Map.{Map, values}
use nexus_ai_workspace.Task.{is_cancelled}
use nexus_ai_workspace.Scheduler.State.{
  AgentScheduler, RunningTaskInfo, SchedulerError, Warning, exceeded_timeout,
}

pub data Health : Type 0 where
  healthy degraded unhealthy : Health

pub record QueueSizes : Type 0 where
  pub priority : ℕ
  pub execution : ℕ
  pub waiting : ℕ
  pub completed : ℕ
  pub failed : ℕ

unfoldable pub queue_sizes : AgentScheduler → QueueSizes
queue_sizes s = record {
  priority = length s.priority_queue;
  execution = length s.execution_queue;
  waiting = length s.waiting_queue;
  completed = length s.completed_queue;
  failed = length s.failed_queue;
}

unfoldable pub running_tasks : AgentScheduler → List RunningTaskInfo
running_tasks s = values s.running_tasks_map

pub record SchedulerHealth : Type 0 where
  pub status : Health
  pub sizes : QueueSizes
  pub running : ℕ
  pub max_concurrency : ℕ
  pub errors : List SchedulerError
  pub warnings : List Warning
  pub last_activity : ℕ

unfoldable pub first_status : AgentScheduler → Health
first_status s =
    if ltb 0 (length s.errors)
    then unhealthy
    else if ltb 0 (length s.warnings) || length s.running_tasks_map == 0
    then degraded
    else healthy

-- The loop over the running tasks: a stale one adds a warning and sets the status.
unfoldable pub check_stale : Map RunningTaskInfo → ℕ → Health × List Warning → Health × List Warning
check_stale [] now (status, warnings) = (status, warnings)
check_stale ((id, info) ∷ m) now (status, warnings) =
    let stale = ltb info.timeout_at now in
    check_stale m now (
      if stale then degraded else status,
      if stale then warnings ++ exceeded_timeout id ∷ [] else warnings,
    )

unfoldable pub health : AgentScheduler → ℕ → AgentScheduler × SchedulerHealth
unfolding first_status check_stale queue_sizes
health s now =
    let (status, warnings) = check_stale s.running_tasks_map now (first_status s, s.warnings) in
    (
      record s { warnings = warnings },
      record {
        status = status;
        sizes = queue_sizes s;
        running = length s.running_tasks_map;
        max_concurrency = s.max_concurrency;
        errors = s.errors;
        warnings = warnings;
        last_activity = now;
      },
    )

pub record Quotient : Type 0 where
  pub numerator : ℕ
  pub denominator : ℕ

pub record SchedulerMetrics : Type 0 where
  pub total_tasks : ℕ
  pub completed_tasks : ℕ
  pub failed_tasks : ℕ
  pub cancelled_tasks : ℕ
  pub average_execution_time : Quotient
  pub total_execution_time : ℕ
  pub uptime : ℕ
  pub throughput : Quotient

unfoldable pub get_total_task_count : AgentScheduler → ℕ
get_total_task_count s =
    length s.priority_queue
    + length s.execution_queue
    + length s.waiting_queue
    + length s.completed_queue
    + length s.failed_queue
    + length s.running_tasks_map

-- `n / d` if `d > 0`, and 0 otherwise.
abbrev pub quotient_or_zero : ℕ → ℕ → Quotient
quotient_or_zero n d =
    if ltb 0 d
    then record { numerator = n; denominator = d }
    else record { numerator = 0; denominator = 1 }

unfoldable pub metrics : AgentScheduler → ℕ → SchedulerMetrics
metrics s now =
    let uptime = now - s.start_time in
    record {
      total_tasks = get_total_task_count s;
      completed_tasks = length s.completed_queue;
      failed_tasks = length s.failed_queue;
      cancelled_tasks = length (select (λ r. is_cancelled (s.heap r).state) s.failed_queue);
      average_execution_time = quotient_or_zero s.total_execution_time s.completed_count;
      total_execution_time = s.total_execution_time;
      uptime = uptime;
      throughput = quotient_or_zero (s.completed_count * 60000) uptime;
    }
