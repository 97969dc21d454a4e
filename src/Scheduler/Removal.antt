-- ===== src/Scheduler/Removal.antt =====
-- `cancel`, `completeTask` and `reschedule` keep the scheduler valid.
use nexus_ai_workspace.Common.{
  ℕ, String, ◌≡◌, refl, subst, ◌++◌, true, false, Bool, inl, inr, none, some, All, arith, ◌-◌,
  extract_cases, Found, Option-cases, Option,
}
use nexus_ai_workspace.Common.Map.{get, delete, get-delete, length-delete, delete-Distinct}
use nexus_ai_workspace.Values.{Value}
use nexus_ai_workspace.Scheduler.State.{AgentScheduler, RunningTaskInfo, has_id}
use nexus_ai_workspace.Scheduler.Queues.{remove_task_from_queues}
use nexus_ai_workspace.Scheduler.Operations.{
  mark_cancelled, cancel, finish_task, finished, cancelled_at, cancel_removed, complete_task,
  file_task,
}
use nexus_ai_workspace.Scheduler.Queued.{
  Queued, SameKeys-refl, Queued-write, Queued-cut, Queued-cut_waiting,
}
use nexus_ai_workspace.Scheduler.Invariant.{IsValid, IsValid-same, write-SameKeys, promote-IsValid}

-- A task leaves the map of running tasks.
pub unmap-IsValid :
    (s : AgentScheduler) (id : String)
    → IsValid s
    → IsValid (record s { running_tasks_map = delete id s.running_tasks_map })
unmap-IsValid s id v = record {
  queued = v.queued;
  capacity = omega (arith, length-delete id s.running_tasks_map);
  keys = delete-Distinct id s.running_tasks_map v.keys;
  keyed = λ k info h. ground (arith, v.keyed k info, get-delete id k s.running_tasks_map v.keys);
}

mark_cancelled-IsValid :
    (s : AgentScheduler) (r now : ℕ) → IsValid s → IsValid (mark_cancelled s r now)
unfolding mark_cancelled
mark_cancelled-IsValid s r now v =
    let k = write-SameKeys s.heap r (cancelled_at (s.heap r) now) refl refl in
    IsValid-same s _ k refl refl (Queued-write k v.queued) v

-- The tasks still to run, and the running ones, are as they were.
pub record SameLive (s t : AgentScheduler) : Type 0 where
  pub heap : t.heap ≡ s.heap
  pub priority : t.priority_queue ≡ s.priority_queue
  pub waiting : t.waiting_queue ≡ s.waiting_queue
  pub running : t.running_tasks_map ≡ s.running_tasks_map
  pub capacity : t.max_concurrency ≡ s.max_concurrency

-- Where a removed task stood.
pub data Removed (s : AgentScheduler) (id : String) : Type 0 where
  from_priority :
      (f : Found (has_id s.heap id) s.priority_queue)
      → remove_task_from_queues s id
        ≡ (record s { priority_queue = f.before ++ f.after }, some f.item)
      → Removed s id
  from_waiting :
      All (λ x. has_id s.heap id x ≡ false) s.priority_queue
      → (f : Found (has_id s.heap id) s.waiting_queue)
      → remove_task_from_queues s id
        ≡ (record s { waiting_queue = f.before ++ f.after }, some f.item)
      → Removed s id
  elsewhere :
      All (λ x. has_id s.heap id x ≡ false) s.priority_queue
      → (t : AgentScheduler × Option ℕ) → SameLive s t.0
      → remove_task_from_queues s id ≡ t
      → Removed s id

pub remove_cases : (s : AgentScheduler) (id : String) → Removed s id
unfolding remove_task_from_queues
remove_cases s id =
    let p = has_id s.heap id in
    elim (extract_cases p s.priority_queue) [
      | inr f ↦ from_priority f (rw (f.cut, remove_task_from_queues) refl)
      | inl (e1, _, a) ↦ elim (extract_cases p s.execution_queue) [
        | inr f ↦
            elsewhere a (record s { execution_queue = f.before ++ f.after }, some f.item)
              (ground arith) (rw (e1, f.cut, remove_task_from_queues) refl)
        | inl (e2, _, _) ↦ elim (extract_cases p s.waiting_queue) [
          | inr f ↦ from_waiting a f (rw (e1, e2, f.cut, remove_task_from_queues) refl)
          | inl (e3, _, _) ↦ elim (extract_cases p s.completed_queue) [
            | inr f ↦
                elsewhere a (record s { completed_queue = f.before ++ f.after }, some f.item)
                  (ground arith) (rw (e1, e2, e3, f.cut, remove_task_from_queues) refl)
            | inl (e4, _, _) ↦ elim (extract_cases p s.failed_queue) [
              | inr f ↦
                  elsewhere a (record s { failed_queue = f.before ++ f.after }, some f.item)
                    (ground arith) (rw (e1, e2, e3, e4, f.cut, remove_task_from_queues) refl)
              | inl (e5, _, _) ↦
                  elsewhere a (s, none) (ground arith)
                    (rw (e1, e2, e3, e4, e5, remove_task_from_queues) refl)
            ]
          ]
        ]
      ]
    ]

pub SameLive-IsValid : (s t : AgentScheduler) → SameLive s t → IsValid s → IsValid t
SameLive-IsValid s t l v = record {
  queued = rw (l.heap, l.priority, l.waiting) v.queued;
  capacity = rw (l.running, l.capacity) v.capacity;
  keys = rw l.running v.keys;
  keyed = rw (l.heap, l.running) v.keyed;
}

pub remove-IsValid :
    (s : AgentScheduler) (id : String) → IsValid s → IsValid (remove_task_from_queues s id).0
remove-IsValid s id v = elim (remove_cases s id) [
  | from_priority f e ↦ rw e (
      IsValid-same s _ (SameKeys-refl s.heap) refl refl
        (Queued-cut s.heap f.item f.before f.after s.waiting_queue
          (subst (λ q. Queued s.heap q s.waiting_queue) f.split v.queued))
        v)
  | from_waiting a f e ↦ rw e (
      IsValid-same s _ (SameKeys-refl s.heap) refl refl
        (Queued-cut_waiting s.heap f.item f.before f.after s.priority_queue
          (subst (λ q. Queued s.heap s.priority_queue q) f.split v.queued))
        v)
  | elsewhere a t l e ↦ rw e (SameLive-IsValid s t.0 l v)
]

cancel_queued-IsValid :
    (s : AgentScheduler) (result : AgentScheduler × Option ℕ) (now : ℕ)
    → IsValid result.0
    → IsValid (cancel_removed result now).0
cancel_queued-IsValid s (t, none) now v = v
cancel_queued-IsValid s (t, some r) now v = mark_cancelled-IsValid t r now v

pub cancel-IsValid :
    (s : AgentScheduler) (id : String) (now : ℕ) → IsValid s → IsValid (cancel s id now).0
unfolding cancel
cancel-IsValid s id now v = elim (Option-cases (get id s.running_tasks_map)) [
  | inl e ↦ rw (e, cancel) (cancel_queued-IsValid s _ now (remove-IsValid s id v))
  | inr (info, e) ↦ rw (e, cancel) (mark_cancelled-IsValid _ info.task now (unmap-IsValid s id v))
]

finish_task-IsValid :
    (s : AgentScheduler) (id : String) (info : RunningTaskInfo) (done : Bool)
    (output : Option Value) (error : Option String) (now : ℕ)
    → IsValid s
    → IsValid (finish_task s id info done output error now)
unfolding finish_task
finish_task-IsValid s id info done output error now v =
    let task = finished (s.heap info.task) done output error now (now - info.started_at) in
    let k = write-SameKeys s.heap info.task task refl refl in
    IsValid-same _ _ k refl refl (Queued-write k v.queued) (unmap-IsValid s id v)

file_task-IsValid :
    (s : AgentScheduler) (r : ℕ) (done : Bool) → IsValid s → IsValid (file_task s r done)
unfolding file_task
file_task-IsValid s r true v =
    promote-IsValid _ (IsValid-same s _ (SameKeys-refl s.heap) refl refl v.queued v)
file_task-IsValid s r false v = IsValid-same s _ (SameKeys-refl s.heap) refl refl v.queued v

pub complete_task-IsValid :
    (s : AgentScheduler) (id : String) (done : Bool) (output : Option Value) (error : Option String)
    (now : ℕ)
    → IsValid s
    → IsValid (complete_task s id done output error now)
unfolding complete_task
complete_task-IsValid s id done output error now v =
    elim (Option-cases (get id s.running_tasks_map)) [
      | inl e ↦ rw (e, complete_task) v
      | inr (info, e) ↦
          rw (e, complete_task)
            (file_task-IsValid _ info.task done
              (finish_task-IsValid s id info done output error now v))
    ]
