-- ===== src/Scheduler/Dependencies.antt =====
-- When AgentScheduler lets a task run: its blocking dependencies.
use nexus_ai_workspace.Common.{
  ℕ, ◌≡◌, refl, ◌↔◌, ◌⊎◌, inl, inr, List, [], ◌∷◌, some, true, Bool-cases, Option-cases, All,
}
use nexus_ai_workspace.Task.{
  DependencyType, TaskDependency, TaskState, blocking, soft, is_success, pending, waiting, ready,
  running, success, failed, cancelled, timeout,
}
use nexus_ai_workspace.Scheduler.State.{AgentScheduler}
use nexus_ai_workspace.Scheduler.Queues.{
  find_task_in_queues, is_satisfied, all_satisfied, can_execute_now,
}

-- A dependency that is soft, or that names a task which the scheduler finds in the state SUCCESS.
abbrev pub IsMet : AgentScheduler → TaskDependency → Type 0
IsMet s d =
    (d.type ≡ soft)
    ⊎ ((r : ℕ) × (find_task_in_queues s d.task_id ≡ some r) × ((s.heap r).state ≡ success))

is_success-eq : (st : TaskState) → is_success st ≡ true → st ≡ success
is_success-eq success h = refl
is_success-eq pending h = cc
is_success-eq waiting h = cc
is_success-eq ready h = cc
is_success-eq running h = cc
is_success-eq failed h = cc
is_success-eq cancelled h = cc
is_success-eq timeout h = cc

is_blocking_cases : (t : DependencyType) → (t ≡ blocking) ⊎ (t ≡ soft)
is_blocking_cases blocking = inl refl
is_blocking_cases soft = inr refl

is_satisfied_sound : (s : AgentScheduler) (d : TaskDependency) → is_satisfied s d ≡ true → IsMet s d
unfolding is_satisfied
is_satisfied_sound s d h = elim (is_blocking_cases d.type) [
  | inr f ↦ inl f
  | inl b ↦ elim (Option-cases (find_task_in_queues s d.task_id)) [
    | inl e ↦ let h' = rw (b, e) at h in cc
    | inr (r, e) ↦ inr (r, e, is_success-eq (s.heap r).state (rw (b, e) at h))
  ]
]

is_satisfied_complete :
    (s : AgentScheduler) (d : TaskDependency) → IsMet s d → is_satisfied s d ≡ true
unfolding is_satisfied
is_satisfied_complete s d (inl f) = rw f refl
is_satisfied_complete s d (inr (r, e, done)) = elim (is_blocking_cases d.type) [
  | inl b ↦ rw (b, e, done) refl
  | inr f ↦ rw f refl
]

all_satisfied_iff :
    (s : AgentScheduler) (ds : List TaskDependency) → (all_satisfied s ds ≡ true) ↔ All (IsMet s) ds
unfolding all_satisfied
all_satisfied_iff s [] = (λ _. tt, λ _. refl)
all_satisfied_iff s (d ∷ ds) = elim (Bool-cases (is_satisfied s d)) [
  | inl e ↦ (
    λ h. (is_satisfied_sound s d e, (all_satisfied_iff s ds).0 (rw e at h)),
    λ h. rw e ((all_satisfied_iff s ds).1 h.1),
  )
  | inr e ↦ (λ h. let h' = rw e at h in cc, λ h. cc (is_satisfied_complete s d h.0))
]

-- `canExecuteNow` holds exactly when each blocking dependency names a task that the scheduler
-- finds (in its queues or among the running tasks) and that is in the state SUCCESS.
pub can_execute_now_iff :
    (s : AgentScheduler) (r : ℕ)
    → (can_execute_now s r ≡ true) ↔ All (IsMet s) (s.heap r).dependencies
unfolding can_execute_now
can_execute_now_iff s r = all_satisfied_iff s (s.heap r).dependencies
