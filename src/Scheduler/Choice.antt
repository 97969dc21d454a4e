-- ===== src/Scheduler/Choice.antt =====
-- The four ways in which `dequeue` picks the next task.
use nexus_ai_workspace.Common.{ℕ, [], ◌∷◌, Option, none, some, ◌+◌, min_index, splice_out}
use nexus_ai_workspace.Common.Map.{Map, get, set}
use nexus_ai_workspace.Scheduler.State.{
  AgentScheduler, Heap, RunningTaskInfo, SchedulingStrategy, priority, fifo, fair, dependency,
}

-- `splice(i, 1)[0]` on the priority queue; index 0 is `shift`.
unfoldable pub take_at : AgentScheduler → ℕ → AgentScheduler × Option ℕ
take_at s i = elim (splice_out i s.priority_queue) [
  | none ↦ (s, none)
  | some (r, rest) ↦ (record s { priority_queue = rest }, some r)
]

unfoldable pub dequeue_by_priority : AgentScheduler → AgentScheduler × Option ℕ
dequeue_by_priority s = take_at s 0

abbrev pub created_at : Heap → ℕ → ℕ
created_at h r = (h r).metrics.created_at

unfoldable pub dequeue_by_fifo : AgentScheduler → AgentScheduler × Option ℕ
dequeue_by_fifo s = take_at s (min_index (created_at s.heap) s.priority_queue)

abbrev pub count_or_zero : Option ℕ → ℕ
count_or_zero none = 0
count_or_zero (some n) = n

-- The running tasks per agent.
unfoldable pub agent_counts : Heap → Map RunningTaskInfo → Map ℕ → Map ℕ
agent_counts h [] counts = counts
agent_counts h ((k, info) ∷ m) counts =
    let agent = (h info.task).agent_id in
    agent_counts h m (set agent (count_or_zero (get agent counts) + 1) counts)

abbrev pub agent_count : AgentScheduler → ℕ → ℕ
agent_count s r =
    count_or_zero (get (s.heap r).agent_id (agent_counts s.heap s.running_tasks_map []))

unfoldable pub dequeue_by_fairness : AgentScheduler → AgentScheduler × Option ℕ
dequeue_by_fairness s = take_at s (min_index (agent_count s) s.priority_queue)

unfoldable pub dequeue_by_dependency : AgentScheduler → AgentScheduler × Option ℕ
dequeue_by_dependency s = dequeue_by_priority s

unfoldable pub dequeue_by : SchedulingStrategy → AgentScheduler → AgentScheduler × Option ℕ
dequeue_by priority s = dequeue_by_priority s
dequeue_by fifo s = dequeue_by_fifo s
dequeue_by fair s = dequeue_by_fairness s
dequeue_by dependency s = dequeue_by_dependency s
