-- ===== src/Scheduler/Refusal.antt =====
-- `reschedule` of a task that runs.
use nexus_ai_workspace.Common.{
  ℕ, String, ◌≡◌, ◌≢◌, refl, ap, ◌∙◌, none, some, Option, arith, ===_eq, Option-cases, inl, inr,
}
use nexus_ai_workspace.Common.Map.{get}
use nexus_ai_workspace.Scheduler.State.{
  AgentScheduler, RunningTaskInfo, SchedulerError, reschedule_failed,
}
use nexus_ai_workspace.Scheduler.Queues.{find_task_in_queues, remove_task_from_queues}
use nexus_ai_workspace.Scheduler.Operations.{
  Outcome-cases, throw, schedule, reschedule, update_priority,
}
use nexus_ai_workspace.Scheduler.Queued.{id_of}
use nexus_ai_workspace.Scheduler.Invariant.{IsValid}
use nexus_ai_workspace.Scheduler.Removal.{from_priority, from_waiting, elsewhere, remove_cases}
use nexus_ai_workspace.Scheduler.Rescheduling.{find_task_in_queues-has_id}
use nexus_ai_workspace.Scheduler.Acceptance.{accepts-absent}

remove-running :
    (s : AgentScheduler) (id : String)
    → (remove_task_from_queues s id).0.running_tasks_map ≡ s.running_tasks_map
remove-running s id = elim (remove_cases s id) [
  | from_priority f e ↦ rw e refl
  | from_waiting a f e ↦ rw e refl
  | elsewhere a t l e ↦ rw e l.running
]

remove-heap : (s : AgentScheduler) (id : String) → (remove_task_from_queues s id).0.heap ≡ s.heap
remove-heap s id = elim (remove_cases s id) [
  | from_priority f e ↦ rw e refl
  | from_waiting a f e ↦ rw e refl
  | elsewhere a t l e ↦ rw e l.heap
]

update_priority_keeps :
    (s : AgentScheduler) (r : ℕ) (p : Option String)
    → let t = update_priority s r p in
      (t.running_tasks_map ≡ s.running_tasks_map) × (id_of t.heap r ≡ id_of s.heap r)
unfolding update_priority
update_priority_keeps s r none = (refl, refl)
update_priority_keeps s r (some text) = ground arith

find-running :
    (s : AgentScheduler) (id : String) (info : RunningTaskInfo)
    → get id s.running_tasks_map ≡ some info
    → find_task_in_queues s id ≢ none
unfolding find_task_in_queues
find-running s id info runs e = ground arith

schedule_refuses :
    (s : AgentScheduler) (r : ℕ)
    → find_task_in_queues s (id_of s.heap r) ≢ none
    → (e : SchedulerError) × ((schedule s r).1 ≡ throw e)
schedule_refuses s r known = elim (Outcome-cases (schedule s r).1) [
  | inl (u, e) ↦ absurd (known ((accepts-absent s r).0 e).1)
  | inr x ↦ x
]

-- `reschedule` never succeeds for a running task: in a valid scheduler the call throws, whatever
-- priority it was given.
pub reschedule_running :
    (s : AgentScheduler) (id : String) (new_priority : Option String) (info : RunningTaskInfo)
    → IsValid s
    → get id s.running_tasks_map ≡ some info
    → (e : SchedulerError) × ((reschedule s id new_priority).1 ≡ throw e)
unfolding reschedule
reschedule_running s id new_priority info v runs = elim (Option-cases (find_task_in_queues s id)) [
  | inl e ↦ absurd (find-running s id info runs e)
  | inr (r, e) ↦
      let updated = update_priority s r new_priority in
      let t = (remove_task_from_queues updated id).0 in
      let (kept_running, kept_id) = update_priority_keeps s r new_priority in
      let same_id : id_of t.heap r ≡ id =
        rw (remove-heap updated id)
          (kept_id ∙ ===_eq (id_of s.heap r) id (find_task_in_queues-has_id s id r v e)) in
      let still_runs = ap (get id) (remove-running updated id ∙ kept_running) ∙ runs in
      let (x, thrown) = schedule_refuses t r (rw same_id (find-running t id info still_runs)) in
      (reschedule_failed id x, rw (e, reschedule, thrown) refl)
]
