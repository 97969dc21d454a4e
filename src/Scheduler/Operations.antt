-- ===== src/Scheduler/Operations.antt =====
-- The public methods of AgentScheduler. Each returns the state after the call and its result; an
-- exception is a result too. `now` is the clock, which one synchronous call reads as one time.
use nexus_ai_workspace.Common.{
  ℕ, String, Bool, true, false, List, [], ◌∷◌, ◌++◌, Option, none, some, ◌+◌, ◌-◌, ◌===◌, leb,
  is_some, if◌then◌else◌, ◌||◌, length, extract, ◌≡◌, refl, ◌⊎◌, inl, inr,
}
use nexus_ai_workspace.Common.Map.{get, set, delete}
use nexus_ai_workspace.Values.{Value}
use nexus_ai_workspace.Priority.{parse_priority}
use nexus_ai_workspace.Task.{AgentTask, TaskState}
use nexus_ai_workspace.Scheduler.State.{
  AgentScheduler, RunningTaskInfo, SchedulerError, task_id_required, already_scheduled,
  schedule_failed, reschedule_failed, write, set_state, set_priority, has_id,
}
use nexus_ai_workspace.Scheduler.Queues.{
  find_task_in_queues, remove_task_from_queues, update_dependency_tracking, can_execute_now,
  add_to_priority_queue, promote_waiting_tasks,
}
use nexus_ai_workspace.Scheduler.Choice.{dequeue_by}

pub data Outcome {ℓ} (A : Type ℓ) : Type ℓ where
  ok : A → Outcome A
  throw : SchedulerError → Outcome A

pub Outcome-cases {ℓ} :
    {A : Type ℓ} (o : Outcome A) → ((a : A) × (o ≡ ok a)) ⊎ ((e : SchedulerError) × (o ≡ throw e))
Outcome-cases (ok a) = inl (a, refl)
Outcome-cases (throw e) = inr (e, refl)

-- The two checks of `schedule`.
unfoldable pub check_new : AgentScheduler → ℕ → Option SchedulerError
check_new s r =
    let id = (s.heap r).task_id in
    if id === ""
    then some task_id_required
    else if is_some (find_task_in_queues s id)
    then some (already_scheduled id)
    else none

unfoldable pub place : AgentScheduler → ℕ → AgentScheduler
place s r =
    let s' = update_dependency_tracking s r in
    if can_execute_now s' r then add_to_priority_queue s' r else record s' {
      heap = set_state s'.heap r TaskState.waiting;
      waiting_queue = s'.waiting_queue ++ r ∷ [];
    }

unfoldable pub schedule : AgentScheduler → ℕ → AgentScheduler × Outcome (Unit {0})
schedule s r = elim (check_new s r) [
  | none ↦ (place s r, ok tt)
  | some e ↦
      let e' = schedule_failed (s.heap r).task_id e in
      (record s { errors = s.errors ++ e' ∷ [] }, throw e')
]

-- The first task that cannot be scheduled ends the loop.
unfoldable pub enqueue : AgentScheduler → List ℕ → AgentScheduler × Outcome (Unit {0})
enqueue s [] = (s, ok tt)
enqueue s (r ∷ rs) =
    let (s', result) = schedule s r in
    elim result [ ok _ ↦ enqueue s' rs | throw e ↦ (s', throw e) ]

abbrev pub started : AgentTask → ℕ → AgentTask
started task now = record task {
  state = TaskState.running;
  metrics = record task.metrics { started_at = some now; attempts = task.metrics.attempts + 1 };
}

abbrev pub running_info : AgentTask → ℕ → ℕ → RunningTaskInfo
running_info task r now = record {
  task = r;
  started_at = now;
  timeout_at = now + task.timeout_ms;
  attempts = task.metrics.attempts + 1;
}

-- `nextTask` becomes a running task.
unfoldable pub start_task : AgentScheduler → ℕ → ℕ → AgentScheduler
start_task s r now =
    let task = s.heap r in
    record s {
      heap = write s.heap r (started task now);
      running_tasks_map = set task.task_id (running_info task r now) s.running_tasks_map;
      execution_queue = s.execution_queue ++ r ∷ [];
    }

abbrev pub is_full : AgentScheduler → Bool
is_full s = s.is_paused || leb s.max_concurrency (length s.running_tasks_map)

abbrev pub start_next : AgentScheduler × Option ℕ → ℕ → AgentScheduler × Option ℕ
start_next (s, none) now = (s, none)
start_next (s, some r) now = (start_task s r now, some r)

unfoldable pub dequeue : AgentScheduler → ℕ → AgentScheduler × Option ℕ
dequeue s now =
    if is_full s
    then (s, none)
    else start_next (dequeue_by s.strategy (promote_waiting_tasks s)) now

abbrev pub cancelled_at : AgentTask → ℕ → AgentTask
cancelled_at task now = record task {
  state = TaskState.cancelled;
  metrics = record task.metrics { completed_at = some now };
}

-- A cancelled task goes to the failed queue.
unfoldable pub mark_cancelled : AgentScheduler → ℕ → ℕ → AgentScheduler
mark_cancelled s r now = record s {
  heap = write s.heap r (cancelled_at (s.heap r) now);
  failed_queue = s.failed_queue ++ r ∷ [];
}

abbrev pub cancel_removed : AgentScheduler × Option ℕ → ℕ → AgentScheduler × Bool
cancel_removed (s, none) now = (s, false)
cancel_removed (s, some r) now = (mark_cancelled s r now, true)

unfoldable pub cancel : AgentScheduler → String → ℕ → AgentScheduler × Bool
cancel s id now = elim (get id s.running_tasks_map) [
  | some info ↦ (
    mark_cancelled (record s { running_tasks_map = delete id s.running_tasks_map }) info.task now,
    true,
  )
  | none ↦ cancel_removed (remove_task_from_queues s id) now
]

unfoldable pub pause : AgentScheduler → AgentScheduler
pause s = record s { is_paused = true }

unfoldable pub resume : AgentScheduler → AgentScheduler
resume s = record s { is_paused = false }

-- `newPriority` is optional, and a text that names no priority changes nothing.
unfoldable pub update_priority : AgentScheduler → ℕ → Option String → AgentScheduler
update_priority s r none = s
update_priority s r (some text) = elim (parse_priority text) [
  | none ↦ s
  | some p ↦ record s { heap = set_priority s.heap r p }
]

-- The errors of `schedule` are caught, noted and thrown again.
abbrev pub rescheduled :
    String → AgentScheduler × Outcome (Unit {0}) → AgentScheduler × Outcome Bool
rescheduled id (s, ok _) = (s, ok true)
rescheduled id (s, throw e) =
    let e' = reschedule_failed id e in (record s { errors = s.errors ++ e' ∷ [] }, throw e')

unfoldable pub reschedule : AgentScheduler → String → Option String → AgentScheduler × Outcome Bool
reschedule s id new_priority = elim (find_task_in_queues s id) [
  | none ↦ (s, ok false)
  | some r ↦
      rescheduled id (schedule (remove_task_from_queues (update_priority s r new_priority) id).0 r)
]

abbrev pub remaining : List ℕ → Option (ℕ × List ℕ) → List ℕ
remaining queue none = queue
remaining queue (some (r, rest)) = rest

abbrev pub finished : AgentTask → Bool → Option Value → Option String → ℕ → ℕ → AgentTask
finished task success output error now duration = record task {
  state = if success then TaskState.success else TaskState.failed;
  output = output;
  error = error;
  metrics = record task.metrics { completed_at = some now; duration = some duration };
}

-- The bookkeeping of `completeTask` before the task goes to its last queue.
unfoldable pub finish_task :
    AgentScheduler
    → String
    → RunningTaskInfo
    → Bool
    → Option Value
    → Option String
    → ℕ
    → AgentScheduler
finish_task s id info success output error now =
    let duration = now - info.started_at in
    record s {
      heap = write s.heap info.task (finished (s.heap info.task) success output error now duration);
      total_execution_time = s.total_execution_time + duration;
      completed_count = if success then s.completed_count + 1 else s.completed_count;
      running_tasks_map = delete id s.running_tasks_map;
      execution_queue = remaining s.execution_queue (extract (has_id s.heap id) s.execution_queue);
    }

-- The task goes to its last queue; a success may free waiting tasks.
unfoldable pub file_task : AgentScheduler → ℕ → Bool → AgentScheduler
file_task s r true =
    promote_waiting_tasks (record s { completed_queue = s.completed_queue ++ r ∷ [] })
file_task s r false = record s { failed_queue = s.failed_queue ++ r ∷ [] }

unfoldable pub complete_task :
    AgentScheduler → String → Bool → Option Value → Option String → ℕ → AgentScheduler
complete_task s id success output error now = elim (get id s.running_tasks_map) [
  | none ↦ s
  | some info ↦ file_task (finish_task s id info success output error now) info.task success
]
