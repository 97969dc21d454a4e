-- ===== src/Scheduler/Acceptance.antt =====
-- Which tasks `schedule` and `reschedule` accept, and where an accepted task is found.
use nexus_ai_workspace.Common.{
  ℕ, String, ◌≡◌, ◌≢◌, ◌↔◌, refl, ◌∙◌, sym, ap, All, ===_eq, ===_refl, false, Option, ◌===◌, List,
  [], ◌∷◌, ◌++◌, none, some, arith, true, Bool, Bool-cases, Option-cases, inl, inr, find,
  insert_before, insert_index, splice_in,
}
use nexus_ai_workspace.Common.Map.{get}
use nexus_ai_workspace.Task.{AgentTask, ready, waiting}
use nexus_ai_workspace.Scheduler.State.{
  AgentScheduler, RunningTaskInfo, Heap, has_id, write, set_state,
}
use nexus_ai_workspace.Scheduler.Queues.{
  find_task_in_queues, find_in, or_else, info_task, update_dependency_tracking, can_execute_now,
  add_to_priority_queue, more_urgent,
}
use nexus_ai_workspace.Scheduler.Operations.{ok, check_new, place, schedule}

-- No task of a list has the id.
abbrev pub Without : AgentScheduler → String → List ℕ → Type 0
Without s id rs = All (λ r. (s.heap r).task_id ≢ id) rs

-- The scheduler has no task with the id.
pub record IsUnknown (s : AgentScheduler) (id : String) : Type 0 where
  pub in_priority : Without s id s.priority_queue
  pub in_execution : Without s id s.execution_queue
  pub in_waiting : Without s id s.waiting_queue
  pub in_completed : Without s id s.completed_queue
  pub in_failed : Without s id s.failed_queue
  pub running : get id s.running_tasks_map ≡ none

find-Without :
    (s : AgentScheduler) (id : String) (rs : List ℕ)
    → (find (has_id s.heap id) rs ≡ none) ↔ Without s id rs
find-Without s id rs = (there rs, back rs)
  where
    there : (xs : List ℕ) → find (has_id s.heap id) xs ≡ none → Without s id xs
    there [] h = tt
    there (x ∷ xs) h = elim (Bool-cases ((s.heap x).task_id === id)) [
      | inl e ↦ let h' = rw e at h in cc
      | inr e ↦ (
        λ same.
            let self =
              ap (λ k. (s.heap x).task_id === k) (sym same) ∙ ===_refl (s.heap x).task_id in
            let no : false ≡ true = sym e ∙ self in cc,
        there xs (rw e at h),
      )
    ]

    back : (xs : List ℕ) → Without s id xs → find (has_id s.heap id) xs ≡ none
    back [] h = refl
    back (x ∷ xs) h = elim (Bool-cases ((s.heap x).task_id === id)) [
      | inl e ↦ absurd (h.0 (===_eq (s.heap x).task_id id e))
      | inr e ↦ rw e (back xs h.1)
    ]

or_else-none : (x y : Option ℕ) → (or_else x y ≡ none) ↔ ((x ≡ none) × (y ≡ none))
or_else-none none y = (λ h. (refl, h), λ h. h.1)
or_else-none (some x) y = (λ h. cc h, λ h. cc)

info_task-none : (o : Option RunningTaskInfo) → (info_task o ≡ none) ↔ (o ≡ none)
info_task-none none = (λ h. refl, λ h. refl)
info_task-none (some i) = (λ h. cc h, λ h. cc h)

find_task-IsUnknown :
    (s : AgentScheduler) (id : String) → (find_task_in_queues s id ≡ none) ↔ IsUnknown s id
unfolding find_task_in_queues find_in
find_task-IsUnknown s id = (
  λ h.
      let (queues, maps) = (or_else-none _ _).0 h in
      let (p, rest) = (or_else-none _ _).0 queues in
      let (x, rest1) = (or_else-none _ _).0 rest in
      let (w, rest2) = (or_else-none _ _).0 rest1 in
      let (c, rest3) = (or_else-none _ _).0 rest2 in
      let (f, last) = (or_else-none _ _).0 rest3 in
      record {
        in_priority = (find-Without s id _).0 p;
        in_execution = (find-Without s id _).0 x;
        in_waiting = (find-Without s id _).0 w;
        in_completed = (find-Without s id _).0 c;
        in_failed = (find-Without s id _).0 f;
        running = (info_task-none _).0 maps;
      },
  λ u.
      rw
        (
          (find-Without s id s.priority_queue).1 u.in_priority,
          (find-Without s id s.execution_queue).1 u.in_execution,
          (find-Without s id s.waiting_queue).1 u.in_waiting,
          (find-Without s id s.completed_queue).1 u.in_completed,
          (find-Without s id s.failed_queue).1 u.in_failed,
          u.running,
        )
        refl,
)

pub accepts-absent :
    (s : AgentScheduler) (r : ℕ)
    → ((schedule s r).1 ≡ ok tt)
      ↔ (((s.heap r).task_id ≢ "") × (find_task_in_queues s (s.heap r).task_id ≡ none))
unfolding schedule check_new
accepts-absent s r = (λ h. ground arith, λ h. ground arith)

-- `schedule` returns normally exactly for a task whose id is not empty and is the id of no task of
-- the scheduler: no task in one of its five queues has it, and no task runs under it.
pub schedule_accepts :
    (s : AgentScheduler) (r : ℕ)
    → ((schedule s r).1 ≡ ok tt) ↔ (((s.heap r).task_id ≢ "") × IsUnknown s (s.heap r).task_id)
schedule_accepts s r =
    let (accepted, absent) = accepts-absent s r in
    let (there, back) = find_task-IsUnknown s (s.heap r).task_id in
    (λ h. let k = accepted h in (k.0, there k.1), λ k. absent (k.0, back k.1))

find-insert_before :
    (q p : ℕ → Bool) (x : ℕ) (xs : List ℕ)
    → q x ≡ true
    → find q xs ≡ none
    → find q (insert_before p x xs) ≡ some x
unfolding insert_index splice_in
find-insert_before q p x [] h e = rw h
find-insert_before q p x (y ∷ ys) h e = elim (Bool-cases (p y)) [
  | inl b ↦ rw (b, h) refl
  | inr b ↦ rw b (ground (arith, find-insert_before q p x ys h))
]

find-append_last :
    (q : ℕ → Bool) (x : ℕ) (xs : List ℕ)
    → q x ≡ true
    → find q xs ≡ none
    → find q (xs ++ x ∷ []) ≡ some x
find-append_last q x [] h e = rw h
find-append_last q x (y ∷ ys) h e = ground (arith, find-append_last q x ys h)

-- A search for an id sees through a write of the state.
find-set_state :
    (h : Heap) (r : ℕ) (t : AgentTask) (id : String) (xs : List ℕ)
    → t.task_id ≡ (h r).task_id
    → find (has_id (write h r t) id) xs ≡ find (has_id h id) xs
find-set_state h r t id [] e = refl
find-set_state h r t id (x ∷ xs) e = ground (arith, find-set_state h r t id xs e)

module _ (s : AgentScheduler) (r : ℕ) (new : find_task_in_queues s (s.heap r).task_id ≡ none) where
  abbrev id : String
  id = (s.heap r).task_id

  not_queued :
      (find (has_id s.heap id) s.priority_queue ≡ none)
      × (find (has_id s.heap id) s.execution_queue ≡ none)
      × (find (has_id s.heap id) s.waiting_queue ≡ none)
  unfolding find_task_in_queues find_in
  not_queued = ground arith

  found_ready :
      find
        (has_id (set_state s.heap r ready) id)
        (insert_before (more_urgent (set_state s.heap r ready) r) r s.priority_queue)
      ≡ some r
  found_ready =
      let h = set_state s.heap r ready in
      find-insert_before (has_id h id) (more_urgent h r) r s.priority_queue (ground arith) (
        find-set_state s.heap r (record (s.heap r) { state = ready }) id s.priority_queue refl
        ∙ not_queued.0)

  found_waiting : find (has_id (set_state s.heap r waiting) id) (s.waiting_queue ++ r ∷ []) ≡ some r
  found_waiting =
      find-append_last (has_id (set_state s.heap r waiting) id) r s.waiting_queue (ground arith) (
        find-set_state s.heap r (record (s.heap r) { state = waiting }) id s.waiting_queue refl
        ∙ not_queued.2)

  find-place : find_task_in_queues (place s r) id ≡ some r
  unfolding place update_dependency_tracking add_to_priority_queue find_task_in_queues find_in
  find-place =
      let w = record (s.heap r) { state = waiting } in
      elim (Bool-cases (can_execute_now (update_dependency_tracking s r) r)) [
        | inl e ↦ rw (e, found_ready) refl
        | inr e ↦
            rw
              (
                e,
                find-set_state s.heap r w id s.priority_queue refl ∙ not_queued.0,
                find-set_state s.heap r w id s.execution_queue refl ∙ not_queued.1,
                found_waiting,
              )
              refl
      ]

-- A task that `schedule` accepts is the one that is found under its id afterwards.
pub find-schedule :
    (s : AgentScheduler) (r : ℕ)
    → (schedule s r).1 ≡ ok tt
    → find_task_in_queues (schedule s r).0 (s.heap r).task_id ≡ some r
unfolding schedule
find-schedule s r h = elim (Option-cases (check_new s r)) [
  | inl e ↦ rw (e, schedule) (find-place s r ((accepts-absent s r).0 h).1)
  | inr (x, e) ↦ let h' = rw (e, schedule) at h in cc
]
