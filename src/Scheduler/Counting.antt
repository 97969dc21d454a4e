-- ===== src/Scheduler/Counting.antt =====
-- `getTotalTaskCount` over a running task.
use nexus_ai_workspace.Common.{
  ℕ, ◌≡◌, sym, ap, ◌∙◌, List, [], ◌∷◌, ◌++◌, none, some, arith, ◌+◌, length, length-append,
  length-perm,
}
use mathlib.Core.List.{perm_middle}
use nexus_ai_workspace.Common.Map.{get, length-set_new}
use nexus_ai_workspace.Scheduler.State.{AgentScheduler}
use nexus_ai_workspace.Scheduler.Queues.{promote_waiting_tasks}
use nexus_ai_workspace.Scheduler.Operations.{dequeue, start_task, running_info}
use nexus_ai_workspace.Scheduler.Reports.{get_total_task_count}
use nexus_ai_workspace.Scheduler.Promotion.{promote-SameBesides, promote-perm}
use nexus_ai_workspace.Scheduler.Scheduling.{dequeue_cases, refused, nothing, starts}

promote-total :
    (s : AgentScheduler) → get_total_task_count (promote_waiting_tasks s) ≡ get_total_task_count s
unfolding get_total_task_count
promote-total s =
    let p = promote_waiting_tasks s in
    let b = promote-SameBesides s in
    rw (b.execution, b.completed, b.failed, b.running)
      (omega (
        arith,
        length-perm _ _ (promote-perm s),
        length-append p.priority_queue p.waiting_queue,
        length-append s.priority_queue s.waiting_queue,
      ))

cut-length :
    (before after : List ℕ) (x : ℕ) → length (before ++ x ∷ after) ≡ length (before ++ after) + 1
cut-length before after x = omega (arith, length-perm _ _ (perm_middle {a = x} before after))

-- The total that `metrics` reports grows by one with each `dequeue` that starts a task whose id was
-- not running yet, although no task is added: the total counts a running task twice.
pub total-dequeue :
    (s : AgentScheduler) (now r : ℕ) (t : AgentScheduler)
    → dequeue s now ≡ (t, some r)
    → get ((promote_waiting_tasks s).heap r).task_id s.running_tasks_map ≡ none
    → get_total_task_count t ≡ get_total_task_count s + 1
unfolding start_task get_total_task_count
total-dequeue s now r t taken fresh =
    let p = promote_waiting_tasks s in
    let b = promote-SameBesides s in
    elim (dequeue_cases s now) [
      | refused e d ↦ cc
      | nothing e left d ↦ cc
      | starts e c d ↦
          let eq = sym d ∙ taken in
          let same : c.item ≡ r = let h = ap (λ x. x.1) eq in cc in
          let id = (p.heap c.item).task_id in
          let absent : get id p.running_tasks_map ≡ none = rw (same, b.running) fresh in
          omega (
            arith,
            ap (λ x. get_total_task_count x.0) eq,
            promote-total s,
            ap length c.split,
            cut-length c.before c.after c.item,
            length-append p.execution_queue (c.item ∷ []),
            length-set_new id (running_info (p.heap c.item) c.item now) p.running_tasks_map absent,
          )
    ]
