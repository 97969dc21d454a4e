-- ===== src/Scheduler/Promotion.antt =====
-- `promoteWaitingTasks` moves tasks between two queues and touches nothing else of the scheduler.
use nexus_ai_workspace.Common.{
  ℕ, ◌≡◌, refl, List, [], ◌∷◌, ◌++◌, reverse, true, false, insert_before-perm, append-perm_swap,
  arith, if◌then◌else◌,
}
use mathlib.Core.List.{Perm, append_assoc, append-nil, reverse_perm, perm_middle}
use mathlib.Core.List.Perm
use nexus_ai_workspace.Task.{ready}
use nexus_ai_workspace.Scheduler.State.{AgentScheduler, set_state}
use nexus_ai_workspace.Scheduler.Queues.{
  can_execute_now, add_to_priority_queue, collect_ready, add_all, promote_waiting_tasks,
  more_urgent,
}

collect_ready-perm :
    (s : AgentScheduler) (rest kept to_promote : List ℕ)
    → let (kept', to_promote') = collect_ready s rest kept to_promote in
      Perm (to_promote' ++ kept') (rest ++ (to_promote ++ kept))
unfolding collect_ready
collect_ready-perm s [] kept to_promote = Perm.rfl
collect_ready-perm s (r ∷ rest) kept to_promote =
    elim (can_execute_now (record s { waiting_queue = reverse (r ∷ rest) ++ kept }) r)
      as (λ b.
        let (kept', to_promote') =
          collect_ready s rest (if b then kept else r ∷ kept)
            (if b then to_promote ++ r ∷ [] else to_promote) in
        Perm (to_promote' ++ kept') (r ∷ (rest ++ (to_promote ++ kept)))) [
          | true ↦
              Perm.trans (collect_ready-perm s rest kept (to_promote ++ r ∷ []))
                (rw (append_assoc to_promote (r ∷ []) kept) (settle r to_promote kept))
          | false ↦
              Perm.trans (collect_ready-perm s rest (r ∷ kept) to_promote)
                (settle r to_promote kept)
        ]
  where
    settle : (r : ℕ) (xs ys : List ℕ) → Perm (rest ++ (xs ++ r ∷ ys)) (r ∷ (rest ++ (xs ++ ys)))
    settle r xs ys =
        Perm.trans (Perm.append_left rest (perm_middle xs ys)) (perm_middle rest (xs ++ ys))

-- What promotion leaves alone.
pub record SameBesides (s t : AgentScheduler) : Type 0 where
  pub execution : t.execution_queue ≡ s.execution_queue
  pub completed : t.completed_queue ≡ s.completed_queue
  pub failed : t.failed_queue ≡ s.failed_queue
  pub running : t.running_tasks_map ≡ s.running_tasks_map
  pub capacity : t.max_concurrency ≡ s.max_concurrency
  pub strategy : t.strategy ≡ s.strategy
  pub total : t.total_execution_time ≡ s.total_execution_time
  pub count : t.completed_count ≡ s.completed_count

add_all-perm :
    (s : AgentScheduler) (rs : List ℕ) → Perm (add_all s rs).priority_queue (rs ++ s.priority_queue)
unfolding add_all add_to_priority_queue
add_all-perm s [] = Perm.rfl
add_all-perm s (r ∷ rs) = Perm.trans (add_all-perm (add_to_priority_queue s r) rs) (
    Perm.trans
      (Perm.append_left rs
        (insert_before-perm (more_urgent (set_state s.heap r ready) r) r s.priority_queue))
      (perm_middle rs s.priority_queue))

add_all-waiting :
    (s : AgentScheduler) (rs : List ℕ) → (add_all s rs).waiting_queue ≡ s.waiting_queue
unfolding add_all add_to_priority_queue
add_all-waiting s [] = refl
add_all-waiting s (r ∷ rs) = add_all-waiting (add_to_priority_queue s r) rs

add_all-SameBesides : (s : AgentScheduler) (rs : List ℕ) → SameBesides s (add_all s rs)
unfolding add_all add_to_priority_queue
add_all-SameBesides s [] = ground arith
add_all-SameBesides s (r ∷ rs) =
    let h = add_all-SameBesides (add_to_priority_queue s r) rs in
    record {
      execution = h.execution;
      completed = h.completed;
      failed = h.failed;
      running = h.running;
      capacity = h.capacity;
      strategy = h.strategy;
      total = h.total;
      count = h.count;
    }

pub promote-SameBesides : (s : AgentScheduler) → SameBesides s (promote_waiting_tasks s)
unfolding promote_waiting_tasks
promote-SameBesides s =
    let (kept, to_promote) = collect_ready s (reverse s.waiting_queue) [] [] in
    let h = add_all-SameBesides (record s { waiting_queue = kept }) to_promote in
    record {
      execution = h.execution;
      completed = h.completed;
      failed = h.failed;
      running = h.running;
      capacity = h.capacity;
      strategy = h.strategy;
      total = h.total;
      count = h.count;
    }

-- Promotion loses no task and makes none up: the priority queue and the waiting queue hold
-- together the same tasks as before, each as often.
pub promote-perm :
    (s : AgentScheduler)
    → let t = promote_waiting_tasks s in
      Perm (t.priority_queue ++ t.waiting_queue) (s.priority_queue ++ s.waiting_queue)
unfolding promote_waiting_tasks
promote-perm s =
    let (kept, to_promote) = collect_ready s (reverse s.waiting_queue) [] [] in
    let s' = record s { waiting_queue = kept } in
    let moved =
      Perm.trans (collect_ready-perm s (reverse s.waiting_queue) [] [])
        (rw (append-nil (reverse s.waiting_queue)) (reverse_perm s.waiting_queue)) in
    rw (add_all-waiting s' to_promote) (
      Perm.trans (Perm.append_right kept (add_all-perm s' to_promote)) (
        rw (append_assoc to_promote s.priority_queue kept) (
          Perm.trans (append-perm_swap to_promote s.priority_queue kept)
            (Perm.append_left s.priority_queue moved))))
