-- ===== src/Scheduler/Queues.antt =====
-- The private methods of AgentScheduler that search and rearrange the queues.
use nexus_ai_workspace.Common.{
  add_to_set, ℕ, String, Bool, true, false, List, [], ◌∷◌, ◌++◌, reverse, Option, none, some,
  if◌then◌else◌, find, extract, insert_before, ltb,
}
use nexus_ai_workspace.Common.Map.{get, set}
use nexus_ai_workspace.Priority.{priority_order}
use nexus_ai_workspace.Task.{TaskState, TaskDependency, is_success, is_blocking}
use nexus_ai_workspace.Scheduler.State.{AgentScheduler, Heap, RunningTaskInfo, set_state, has_id}

abbrev pub or_else {ℓ} : {A : Type ℓ} → Option A → Option A → Option A
or_else none y = y
or_else (some x) y = some x

-- The loop over `allQueues`.
unfoldable pub find_in : Heap → String → List (List ℕ) → Option ℕ
find_in h id [] = none
find_in h id (queue ∷ queues) = or_else (find (has_id h id) queue) (find_in h id queues)

abbrev pub all_queues : AgentScheduler → List (List ℕ)
all_queues s =
    s.priority_queue ∷ s.execution_queue ∷ s.waiting_queue ∷ s.completed_queue ∷ s.failed_queue ∷ []

abbrev pub info_task : Option RunningTaskInfo → Option ℕ
info_task none = none
info_task (some info) = some info.task

unfoldable pub find_task_in_queues : AgentScheduler → String → Option ℕ
find_task_in_queues s id =
    or_else (find_in s.heap id (all_queues s)) (info_task (get id s.running_tasks_map))

-- The first queue that holds the task gives it up.
unfoldable pub remove_task_from_queues : AgentScheduler → String → AgentScheduler × Option ℕ
remove_task_from_queues s id =
    let p = has_id s.heap id in
    elim (extract p s.priority_queue) [
      | some (r, rest) ↦ (record s { priority_queue = rest }, some r)
      | none ↦ elim (extract p s.execution_queue) [
        | some (r, rest) ↦ (record s { execution_queue = rest }, some r)
        | none ↦ elim (extract p s.waiting_queue) [
          | some (r, rest) ↦ (record s { waiting_queue = rest }, some r)
          | none ↦ elim (extract p s.completed_queue) [
            | some (r, rest) ↦ (record s { completed_queue = rest }, some r)
            | none ↦ elim (extract p s.failed_queue) [
              | some (r, rest) ↦ (record s { failed_queue = rest }, some r)
              | none ↦ (s, none)
            ]
          ]
        ]
      ]
    ]

-- `new Set(...)` over the ids.
unfoldable pub dependency_ids : List TaskDependency → List String → List String
dependency_ids [] deps = deps
dependency_ids (d ∷ ds) deps = dependency_ids ds (add_to_set d.task_id deps)

unfoldable pub update_dependency_tracking : AgentScheduler → ℕ → AgentScheduler
update_dependency_tracking s r =
    let task = s.heap r in
    record s {
      task_dependencies =
          set task.task_id (dependency_ids task.dependencies []) s.task_dependencies;
    }

-- Does the loop of `canExecuteNow` pass this dependency?
unfoldable pub is_satisfied : AgentScheduler → TaskDependency → Bool
is_satisfied s d =
    if is_blocking d
    then elim (find_task_in_queues s d.task_id) [
      | none ↦ false
      | some r ↦ is_success (s.heap r).state
    ]
    else true

unfoldable pub all_satisfied : AgentScheduler → List TaskDependency → Bool
all_satisfied s [] = true
all_satisfied s (d ∷ ds) = if is_satisfied s d then all_satisfied s ds else false

unfoldable pub can_execute_now : AgentScheduler → ℕ → Bool
can_execute_now s r = all_satisfied s (s.heap r).dependencies

-- Does a task with reference `a` go before the task `b`?
abbrev pub more_urgent : Heap → ℕ → ℕ → Bool
more_urgent h a b = ltb (priority_order (h a).priority) (priority_order (h b).priority)

unfoldable pub add_to_priority_queue : AgentScheduler → ℕ → AgentScheduler
add_to_priority_queue s r =
    let heap' = set_state s.heap r TaskState.ready in
    record s {
      heap = heap';
      priority_queue = insert_before (more_urgent heap' r) r s.priority_queue;
    }

-- The loop from the end of the waiting queue. `rest` is what it has still to visit, last first,
-- `kept` the visited tasks that stay, and `to_promote` those that go.
unfoldable pub collect_ready : AgentScheduler → (rest kept to_promote : List ℕ) → List ℕ × List ℕ
collect_ready s [] kept to_promote = (kept, to_promote)
collect_ready s (r ∷ rest) kept to_promote =
    let now = record s { waiting_queue = reverse (r ∷ rest) ++ kept } in
    let ready = can_execute_now now r in
    collect_ready s rest (if ready then kept else r ∷ kept)
      (if ready then to_promote ++ r ∷ [] else to_promote)

unfoldable pub add_all : AgentScheduler → List ℕ → AgentScheduler
add_all s [] = s
add_all s (r ∷ rs) = add_all (add_to_priority_queue s r) rs

unfoldable pub promote_waiting_tasks : AgentScheduler → AgentScheduler
unfolding collect_ready add_all
promote_waiting_tasks s =
    let (kept, to_promote) = collect_ready s (reverse s.waiting_queue) [] [] in
    add_all (record s { waiting_queue = kept }) to_promote
