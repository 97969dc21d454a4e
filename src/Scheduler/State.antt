-- ===== src/Scheduler/State.antt =====
-- The fields of AgentScheduler. The queues hold references, since one task object stands in several
-- places at once: `heap` gives each reference its object, and a field update is a write there.
use nexus_ai_workspace.Common.{ℕ, String, Bool, false, List, [], ◌==◌, if◌then◌else◌, ◌===◌}
use nexus_ai_workspace.Common.Map.{Map}
use nexus_ai_workspace.Task.{AgentTask, TaskState}
use nexus_ai_workspace.Priority.{AgentPriority}

abbrev pub Heap : Type 0
Heap = ℕ → AgentTask

abbrev pub write : Heap → ℕ → AgentTask → Heap
write h r t q = if q == r then t else h q

abbrev pub set_state : Heap → ℕ → TaskState → Heap
set_state h r s = write h r (record (h r) { state = s })

abbrev pub set_priority : Heap → ℕ → AgentPriority → Heap
set_priority h r p = write h r (record (h r) { priority = p })

pub record RunningTaskInfo : Type 0 where
  pub task : ℕ
  pub started_at : ℕ
  pub timeout_at : ℕ
  pub attempts : ℕ

pub data SchedulingStrategy : Type 0 where
  priority fifo fair dependency : SchedulingStrategy

-- The errors by their cause; `schedule` and `reschedule` wrap the one that they catch.
pub data SchedulerError : Type 0 where
  task_id_required : SchedulerError
  already_scheduled : String → SchedulerError
  schedule_failed : String → SchedulerError → SchedulerError
  reschedule_failed : String → SchedulerError → SchedulerError

pub data Warning : Type 0 where
  exceeded_timeout : String → Warning

pub record AgentScheduler : Type 0 where
  pub heap : Heap
  pub priority_queue : List ℕ
  pub execution_queue : List ℕ
  pub waiting_queue : List ℕ
  pub completed_queue : List ℕ
  pub failed_queue : List ℕ
  pub running_tasks_map : Map RunningTaskInfo
  pub task_dependencies : Map (List String)
  pub max_concurrency : ℕ
  pub strategy : SchedulingStrategy
  pub start_time : ℕ
  pub is_paused : Bool
  pub total_execution_time : ℕ
  pub completed_count : ℕ
  pub errors : List SchedulerError
  pub warnings : List Warning

-- The constructor, over the task objects that the callers will pass in.
unfoldable pub create : Heap → ℕ → SchedulingStrategy → ℕ → AgentScheduler
create heap max_concurrency strategy now = record {
  heap = heap;
  priority_queue = [];
  execution_queue = [];
  waiting_queue = [];
  completed_queue = [];
  failed_queue = [];
  running_tasks_map = [];
  task_dependencies = [];
  max_concurrency = max_concurrency;
  strategy = strategy;
  start_time = now;
  is_paused = false;
  total_execution_time = 0;
  completed_count = 0;
  errors = [];
  warnings = [];
}

-- `t => t.taskId === taskId`
abbrev pub has_id : Heap → String → ℕ → Bool
has_id h id r = (h r).task_id === id
