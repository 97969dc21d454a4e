-- ===== src/Scheduler/Scheduling.antt =====
-- `schedule`, `enqueue` and `dequeue` keep the scheduler valid.
use nexus_ai_workspace.Common.{
  ℕ, String, ◌≡◌, refl, ap, List, [], ◌∷◌, ◌++◌, true, false, Bool-cases, inl, inr, none, some, All,
  All-append, arith, length, ◌<◌, subst, find, extract_cases, Option-cases, min_index, splice_out,
  splice_out_cases, CutAt,
}
use nexus_ai_workspace.Common.Map.{get-set, length-set, set-Distinct}
use nexus_ai_workspace.Task.{ready, waiting}
use nexus_ai_workspace.Scheduler.State.{
  AgentScheduler, Heap, SchedulingStrategy, priority, fifo, fair, dependency, set_state, has_id,
}
use nexus_ai_workspace.Scheduler.Queues.{
  find_task_in_queues, find_in, update_dependency_tracking, can_execute_now, add_to_priority_queue,
  promote_waiting_tasks,
}
use nexus_ai_workspace.Scheduler.Choice.{
  take_at, dequeue_by_priority, dequeue_by_fifo, dequeue_by_fairness, dequeue_by_dependency,
  dequeue_by, created_at, agent_count,
}
use nexus_ai_workspace.Scheduler.Operations.{
  Outcome-cases, started, running_info, check_new, place, schedule, enqueue, start_task, dequeue,
  is_full,
}
use nexus_ai_workspace.Scheduler.Promotion.{promote-SameBesides}
use nexus_ai_workspace.Scheduler.Queued.{
  Queued, SameKeys-refl, id_of, IsNew, Queued-write, Queued-insert, Queued-append, Queued-cut,
  IsNew-write, not-mem_ids,
}
use nexus_ai_workspace.Scheduler.Invariant.{IsValid, IsValid-same, write-SameKeys, promote-IsValid}

find-none :
    (h : Heap) (id : String) (xs : List ℕ)
    → find (has_id h id) xs ≡ none
    → All (λ x. has_id h id x ≡ false) xs
find-none h id xs e = elim (extract_cases (has_id h id) xs) [
  | inl (_, _, a) ↦ a
  | inr f ↦ absurd (ground (arith, f.seen))
]

-- A task that `schedule` lets pass has an id that no queued task has.
pub check_new-IsNew :
    (s : AgentScheduler) (r : ℕ)
    → check_new s r ≡ none
    → IsNew s.heap r (s.priority_queue ++ s.waiting_queue)
unfolding check_new find_task_in_queues find_in
check_new-IsNew s r e =
    let id = id_of s.heap r in
    not-mem_ids s.heap id (s.priority_queue ++ s.waiting_queue) (
      All-append _ s.priority_queue s.waiting_queue
        (find-none s.heap id s.priority_queue (ground arith))
        (find-none s.heap id s.waiting_queue (ground arith)))

pub place-IsValid :
    (s : AgentScheduler) (r : ℕ)
    → IsNew s.heap r (s.priority_queue ++ s.waiting_queue)
    → IsValid s
    → IsValid (place s r)
unfolding place update_dependency_tracking add_to_priority_queue
place-IsValid s r new v =
    let to_ready = write-SameKeys s.heap r (record (s.heap r) { state = ready }) refl refl in
    let to_waiting = write-SameKeys s.heap r (record (s.heap r) { state = waiting }) refl refl in
    let both = s.priority_queue ++ s.waiting_queue in
    elim (Bool-cases (can_execute_now (update_dependency_tracking s r) r)) [
      | inl e ↦ rw e (
          IsValid-same s _ to_ready refl refl
            (Queued-insert (set_state s.heap r ready) r s.priority_queue s.waiting_queue
              (IsNew-write r both to_ready new) (Queued-write to_ready v.queued))
            v)
      | inr e ↦ rw e (
          IsValid-same s _ to_waiting refl refl
            (Queued-append (set_state s.heap r waiting) r s.priority_queue s.waiting_queue
              (IsNew-write r both to_waiting new) (Queued-write to_waiting v.queued))
            v)
    ]

pub schedule-IsValid : (s : AgentScheduler) (r : ℕ) → IsValid s → IsValid (schedule s r).0
unfolding schedule
schedule-IsValid s r v = elim (Option-cases (check_new s r)) [
  | inl e ↦ rw (e, schedule) (place-IsValid s r (check_new-IsNew s r e) v)
  | inr (x, e) ↦ rw (e, schedule) (IsValid-same s _ (SameKeys-refl s.heap) refl refl v.queued v)
]

pub enqueue-IsValid : (s : AgentScheduler) (rs : List ℕ) → IsValid s → IsValid (enqueue s rs).0
unfolding enqueue
enqueue-IsValid s [] v = v
enqueue-IsValid s (r ∷ rs) v =
    let kept = schedule-IsValid s r v in
    elim (Outcome-cases (schedule s r).1) [
      | inl (_, e) ↦ rw (e, enqueue) (enqueue-IsValid (schedule s r).0 rs kept)
      | inr (x, e) ↦ rw (e, enqueue) kept
    ]

-- The index at which a strategy takes its task.
abbrev pub chosen_index : SchedulingStrategy → AgentScheduler → ℕ
chosen_index priority s = 0
chosen_index fifo s = min_index (created_at s.heap) s.priority_queue
chosen_index fair s = min_index (agent_count s) s.priority_queue
chosen_index dependency s = 0

pub dequeue_by-eq-take_at :
    (k : SchedulingStrategy) (s : AgentScheduler) → dequeue_by k s ≡ take_at s (chosen_index k s)
unfolding dequeue_by dequeue_by_priority dequeue_by_fifo dequeue_by_fairness dequeue_by_dependency
dequeue_by-eq-take_at priority s = refl
dequeue_by-eq-take_at fifo s = refl
dequeue_by-eq-take_at fair s = refl
dequeue_by-eq-take_at dependency s = refl

cut-IsValid :
    (s : AgentScheduler) (i : ℕ) (c : CutAt i s.priority_queue)
    → IsValid s
    → IsValid (record s { priority_queue = c.before ++ c.after })
cut-IsValid s i c v =
    IsValid-same s _ (SameKeys-refl s.heap) refl refl
      (Queued-cut s.heap c.item c.before c.after s.waiting_queue
        (subst (λ q. Queued s.heap q s.waiting_queue) c.split v.queued))
      v

start_task-IsValid :
    (s : AgentScheduler) (r now : ℕ)
    → length s.running_tasks_map < s.max_concurrency
    → IsValid s
    → IsValid (start_task s r now)
unfolding start_task
start_task-IsValid s r now room v =
    let task = s.heap r in
    let info = running_info task r now in
    let k = write-SameKeys s.heap r (started task now) refl refl in
    record {
      queued = Queued-write k v.queued;
      capacity = omega (arith, length-set task.task_id info s.running_tasks_map);
      keys = set-Distinct task.task_id info s.running_tasks_map v.keys;
      keyed = λ id other h. ground (
        arith,
        v.keyed id other,
        get-set task.task_id id info s.running_tasks_map,
        ap (λ f. f other.task) k.same_ids,
      );
    }

-- The three ways in which `dequeue` ends. `p` is the scheduler after the promotion.
pub data Dequeues (s : AgentScheduler) (now : ℕ) : Type 0 where
  refused : is_full s ≡ true → dequeue s now ≡ (s, none) → Dequeues s now
  nothing :
      is_full s ≡ false
      → splice_out
          (chosen_index s.strategy (promote_waiting_tasks s))
          (promote_waiting_tasks s).priority_queue
        ≡ none
      → dequeue s now ≡ (promote_waiting_tasks s, none)
      → Dequeues s now
  starts :
      is_full s ≡ false
      → (c : CutAt
          (chosen_index s.strategy (promote_waiting_tasks s))
          (promote_waiting_tasks s).priority_queue)
      → dequeue s now ≡ (
        start_task
            (record (promote_waiting_tasks s) { priority_queue = c.before ++ c.after })
            c.item
            now,
        some c.item,
      )
      → Dequeues s now

pub dequeue_cases : (s : AgentScheduler) (now : ℕ) → Dequeues s now
unfolding dequeue take_at
dequeue_cases s now =
    let p = promote_waiting_tasks s in
    let i = chosen_index s.strategy p in
    elim (Bool-cases (is_full s)) [
      | inl e ↦ refused e (rw e refl)
      | inr e ↦ elim (splice_out_cases i p.priority_queue) [
        | inl left ↦ nothing e left (rw (e, dequeue_by-eq-take_at s.strategy p, left, take_at) refl)
        | inr c ↦ starts e c (rw (e, dequeue_by-eq-take_at s.strategy p, c.cut, take_at) refl)
      ]
    ]

pub dequeue-IsValid : (s : AgentScheduler) (now : ℕ) → IsValid s → IsValid (dequeue s now).0
dequeue-IsValid s now v =
    let p = promote_waiting_tasks s in
    let same = promote-SameBesides s in
    let pv = promote-IsValid s v in
    elim (dequeue_cases s now) [
      | refused e d ↦ rw d v
      | nothing e left d ↦ rw d pv
      | starts e c d ↦ rw d (
          start_task-IsValid (record p { priority_queue = c.before ++ c.after }) c.item now
            (rw (same.running, same.capacity) (ground arith)) (cut-IsValid p _ c pv))
    ]
