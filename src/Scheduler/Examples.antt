-- ===== src/Scheduler/Examples.antt =====
-- A scheduler at work: task "a", and task "b", which waits for the success of "a".
use nexus_ai_workspace.Common.{
  add_to_set, zero, String, String_discrete, true, List, [], ◌∷◌, ◌++◌, none, some, ◌≡◌, ◌≢◌, ◌↔◌,
  refl, All, ◌≤◌, insert_index, splice_in, splice_out, min_index,
}
use mathlib.Core.List.{Perm}
use nexus_ai_workspace.Common.Map.{get, set}
use nexus_ai_workspace.Values.{number}
use nexus_ai_workspace.Priority.{AgentPriority, critical, low, priority_order}
use nexus_ai_workspace.Task.{AgentTask, TaskDependency, blocking, pending, execution}
use nexus_ai_workspace.Scheduler.State.{AgentScheduler, Heap, RunningTaskInfo, fair, create}
use nexus_ai_workspace.Scheduler.Queues.{
  find_in, find_task_in_queues, dependency_ids, update_dependency_tracking, is_satisfied,
  all_satisfied, can_execute_now, add_to_priority_queue, collect_ready, add_all,
  promote_waiting_tasks,
}
use nexus_ai_workspace.Scheduler.Choice.{take_at, dequeue_by_fairness, agent_counts, dequeue_by}
use nexus_ai_workspace.Scheduler.Operations.{
  ok, check_new, place, schedule, start_task, dequeue, complete_task,
}
use nexus_ai_workspace.Scheduler.Dependencies.{IsMet, can_execute_now_iff}
use nexus_ai_workspace.Scheduler.Promotion.{promote-perm}
use nexus_ai_workspace.Scheduler.Invariant.{IsValid}
use nexus_ai_workspace.Scheduler.History.{
  Call, schedules, dequeues, step, run, scheduler_run-IsValid,
}
use nexus_ai_workspace.Scheduler.Selection.{cost_of, dequeue-Least}
use nexus_ai_workspace.Scheduler.Running.{Ended, complete_task-Ended}
use nexus_ai_workspace.Scheduler.Acceptance.{IsUnknown, schedule_accepts}

abbrev task : String → AgentPriority → List TaskDependency → AgentTask
task id p deps = record {
  task_id = id;
  agent_id = "agent";
  workspace_id = "w";
  request_id = "r";
  trace_id = "t";
  name = id;
  description = "";
  type = execution;
  state = pending;
  priority = p;
  input = number 0;
  output = none;
  error = none;
  dependencies = deps;
  timeout_ms = 30;
  retry_strategy = record {
    max_attempts = 3;
    backoff_ms = 10;
    backoff_multiplier = 2;
    max_backoff_ms = 80;
  };
  metadata = [];
  metrics = record {
    created_at = 0;
    started_at = none;
    completed_at = none;
    duration = none;
    attempts = 0;
    last_error = none;
  };
}

abbrev tasks : Heap
tasks zero = task "a" low []
tasks _ = task "b" critical (record { task_id = "a"; type = blocking; condition = none } ∷ [])

abbrev fresh : AgentScheduler
fresh = create tasks 2 fair 0

abbrev both : List Call
both = schedules 0 ∷ schedules 1 ∷ []

abbrev scheduled : AgentScheduler
scheduled = run fresh both

abbrev busy : AgentScheduler
busy = run fresh (schedules 0 ∷ schedules 1 ∷ dequeues 5 ∷ [])

scheduled-IsValid : IsValid scheduled
scheduled-IsValid = scheduler_run-IsValid tasks 2 fair 0 both

busy-IsValid : IsValid busy
busy-IsValid = scheduler_run-IsValid tasks 2 fair 0 (schedules 0 ∷ schedules 1 ∷ dequeues 5 ∷ [])

abbrev a_info : RunningTaskInfo
a_info = record { task = 0; started_at = 5; timeout_at = 35; attempts = 1 }

busy_a : get "a" busy.running_tasks_map ≡ some a_info
unfolding String_discrete run step create schedule check_new place find_task_in_queues find_in get
    set update_dependency_tracking dependency_ids add_to_set can_execute_now all_satisfied
    is_satisfied add_to_priority_queue insert_index splice_in priority_order dequeue
    promote_waiting_tasks collect_ready add_all dequeue_by dequeue_by_fairness take_at splice_out
    start_task min_index agent_counts
busy_a = refl

taken : dequeue scheduled 5 ≡ (busy, some 0)
unfolding String_discrete run step create schedule check_new place find_task_in_queues find_in get
    set update_dependency_tracking dependency_ids add_to_set can_execute_now all_satisfied
    is_satisfied add_to_priority_queue insert_index splice_in priority_order dequeue
    promote_waiting_tasks collect_ready add_all dequeue_by dequeue_by_fairness take_at splice_out
    start_task min_index agent_counts
taken = refl

idle_a : get ((promote_waiting_tasks scheduled).heap 0).task_id scheduled.running_tasks_map ≡ none
unfolding String_discrete run step create schedule check_new place find_task_in_queues find_in get
    set update_dependency_tracking dependency_ids add_to_set can_execute_now all_satisfied
    is_satisfied add_to_priority_queue insert_index splice_in priority_order dequeue
    promote_waiting_tasks collect_ready add_all dequeue_by dequeue_by_fairness take_at splice_out
    start_task min_index agent_counts
idle_a = refl

accepted : (schedule fresh 0).1 ≡ ok tt
unfolding String_discrete run step create schedule check_new place find_task_in_queues find_in get
    set update_dependency_tracking dependency_ids add_to_set can_execute_now all_satisfied
    is_satisfied add_to_priority_queue insert_index splice_in priority_order dequeue
    promote_waiting_tasks collect_ready add_all dequeue_by dequeue_by_fairness take_at splice_out
    start_task min_index agent_counts
accepted = refl

scheduler_run-IsValid_example : IsValid (run (create tasks 2 fair 0) both)
scheduler_run-IsValid_example = scheduler_run-IsValid tasks 2 fair 0 both

dequeue-Least_example :
    let p = promote_waiting_tasks scheduled in
    All (λ q. cost_of scheduled.strategy p 0 ≤ cost_of scheduled.strategy p q) p.priority_queue
    × Perm p.priority_queue (0 ∷ busy.priority_queue)
    × (busy.waiting_queue ≡ p.waiting_queue)
dequeue-Least_example = dequeue-Least scheduled 5 0 busy scheduled-IsValid taken

promote-perm_example :
    let t = promote_waiting_tasks scheduled in
    Perm (t.priority_queue ++ t.waiting_queue) (scheduled.priority_queue ++ scheduled.waiting_queue)
promote-perm_example = promote-perm scheduled

can_execute_now_iff_example :
    (can_execute_now busy 1 ≡ true) ↔ All (IsMet busy) (busy.heap 1).dependencies
can_execute_now_iff_example = can_execute_now_iff busy 1

complete_task-Ended_example : Ended busy "a" true (complete_task busy "a" true none none 9)
complete_task-Ended_example = complete_task-Ended busy "a" true none none 9 busy-IsValid

schedule_accepts_example :
    ((schedule fresh 0).1 ≡ ok tt)
    ↔ (((fresh.heap 0).task_id ≢ "") × IsUnknown fresh (fresh.heap 0).task_id)
schedule_accepts_example = schedule_accepts fresh 0
