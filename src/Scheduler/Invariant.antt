-- ===== src/Scheduler/Invariant.antt =====
-- What holds of a scheduler between two calls.
use nexus_ai_workspace.Common.{
  ℕ, String, ◌≡◌, refl, sym, ap, fun_ext, List, [], ◌∷◌, some, arith, length, ◌≤◌,
  insert_before-IsSorted, IsSorted,
}
use mathlib.Core.List.{reverse}
use nexus_ai_workspace.Common.Map.{get, Distinct}
use nexus_ai_workspace.Task.{AgentTask, ready}
use nexus_ai_workspace.Scheduler.State.{AgentScheduler, Heap, RunningTaskInfo, write, set_state}
use nexus_ai_workspace.Scheduler.Queues.{
  more_urgent, add_to_priority_queue, add_all, collect_ready, promote_waiting_tasks,
}
use nexus_ai_workspace.Scheduler.Promotion.{promote-perm, promote-SameBesides}
use nexus_ai_workspace.Scheduler.Queued.{
  Queued, SameKeys, SameKeys-refl, id_of, Queued-write, IsSorted-write, ids-perm-Nodup,
  more_urgent-StrictOrder,
}

pub record IsValid (s : AgentScheduler) : Type 0 where
  -- The priority queue is sorted, and no id stands twice in it and the waiting queue.
  pub queued : Queued s.heap s.priority_queue s.waiting_queue
  -- The limit on running tasks is kept.
  pub capacity : length s.running_tasks_map ≤ s.max_concurrency
  -- The map of running tasks has each key once, and files each task under its id.
  pub keys : Distinct s.running_tasks_map
  pub keyed :
      (k : String) (info : RunningTaskInfo)
      → get k s.running_tasks_map ≡ some info
      → id_of s.heap info.task ≡ k

pub write-SameKeys :
    (h : Heap) (r : ℕ) (t : AgentTask)
    → t.task_id ≡ (h r).task_id
    → t.priority ≡ (h r).priority
    → SameKeys h (write h r t)
write-SameKeys h r t e f = record {
  same_ids = fun_ext (λ q. ground arith);
  same_priorities = fun_ext (λ q. ground arith);
}

SameKeys-trans : {h i j : Heap} → SameKeys h i → SameKeys i j → SameKeys h j
SameKeys-trans a b = record {
  same_ids = cc (a.same_ids, b.same_ids);
  same_priorities = cc (a.same_priorities, b.same_priorities);
}

SameKeys-sym : {h i : Heap} → SameKeys h i → SameKeys i h
SameKeys-sym k = record { same_ids = sym k.same_ids; same_priorities = sym k.same_priorities }

add_all-SameKeys : (s : AgentScheduler) (rs : List ℕ) → SameKeys s.heap (add_all s rs).heap
unfolding add_all add_to_priority_queue
add_all-SameKeys s [] = SameKeys-refl s.heap
add_all-SameKeys s (r ∷ rs) =
    SameKeys-trans (write-SameKeys s.heap r (record (s.heap r) { state = ready }) refl refl)
      (add_all-SameKeys (add_to_priority_queue s r) rs)

pub promote-SameKeys : (s : AgentScheduler) → SameKeys s.heap (promote_waiting_tasks s).heap
unfolding promote_waiting_tasks
promote-SameKeys s =
    let (kept, to_promote) = collect_ready s (reverse s.waiting_queue) [] [] in
    add_all-SameKeys (record s { waiting_queue = kept }) to_promote

add_all-IsSorted :
    (s : AgentScheduler) (rs : List ℕ)
    → IsSorted (more_urgent s.heap) s.priority_queue
    → IsSorted (more_urgent (add_all s rs).heap) (add_all s rs).priority_queue
unfolding add_all add_to_priority_queue
add_all-IsSorted s [] sorted = sorted
add_all-IsSorted s (r ∷ rs) sorted =
    let heap' = set_state s.heap r ready in
    add_all-IsSorted (add_to_priority_queue s r) rs (
      insert_before-IsSorted (more_urgent heap') (more_urgent-StrictOrder heap') r s.priority_queue
        (IsSorted-write s.priority_queue
          (write-SameKeys s.heap r (record (s.heap r) { state = ready }) refl refl) sorted))

promote-IsSorted :
    (s : AgentScheduler)
    → IsSorted (more_urgent s.heap) s.priority_queue
    → IsSorted (more_urgent (promote_waiting_tasks s).heap) (promote_waiting_tasks s).priority_queue
unfolding promote_waiting_tasks
promote-IsSorted s =
    let (kept, to_promote) = collect_ready s (reverse s.waiting_queue) [] [] in
    add_all-IsSorted (record s { waiting_queue = kept }) to_promote

pub promote-Queued :
    (s : AgentScheduler)
    → Queued s.heap s.priority_queue s.waiting_queue
    → let t = promote_waiting_tasks s in Queued t.heap t.priority_queue t.waiting_queue
promote-Queued s q =
    let t = promote_waiting_tasks s in
    Queued-write (promote-SameKeys s) (record {
      sorted =
          IsSorted-write t.priority_queue (SameKeys-sym (promote-SameKeys s))
            (promote-IsSorted s q.sorted);
      distinct = ids-perm-Nodup s.heap (promote-perm s) q.distinct;
    })

-- A step that leaves the running tasks alone needs to care for its queues only.
pub IsValid-same_ids :
    (s t : AgentScheduler)
    → id_of t.heap ≡ id_of s.heap
    → t.running_tasks_map ≡ s.running_tasks_map
    → t.max_concurrency ≡ s.max_concurrency
    → Queued t.heap t.priority_queue t.waiting_queue
    → IsValid s
    → IsValid t
IsValid-same_ids s t k running capacity q v = record {
  queued = q;
  capacity = rw (running, capacity) v.capacity;
  keys = rw running v.keys;
  keyed = λ id info h. cc (ap (λ f. f info.task) k, v.keyed id info (rw running at h));
}

pub IsValid-same :
    (s t : AgentScheduler)
    → SameKeys s.heap t.heap
    → t.running_tasks_map ≡ s.running_tasks_map
    → t.max_concurrency ≡ s.max_concurrency
    → Queued t.heap t.priority_queue t.waiting_queue
    → IsValid s
    → IsValid t
IsValid-same s t k = IsValid-same_ids s t k.same_ids

pub promote-IsValid : (s : AgentScheduler) → IsValid s → IsValid (promote_waiting_tasks s)
promote-IsValid s v =
    let b = promote-SameBesides s in
    IsValid-same s (promote_waiting_tasks s) (promote-SameKeys s) b.running b.capacity
      (promote-Queued s v.queued) v
