-- ===== src/Scheduler/Running.antt =====
-- What becomes of a running task: completion, cancellation, rescheduling; and how it is counted.
use nexus_ai_workspace.Common.{
  ℕ, String, ◌≡◌, refl, sym, ap, ◌∙◌, List, [], ◌∷◌, ◌++◌, none, some, Option, Bool, arith, ◌+◌,
  true, false, not, length, length-append, select, ◌===◌, ===_eq, if◌then◌else◌, extract,
  extract_cases, Bool-cases, Option-cases, inl, inr,
}
use mathlib.Core.List.{append_assoc, Perm, perm_middle}
use mathlib.Core.List.Perm
use nexus_ai_workspace.Common.Map.{Map, get, delete, get-delete, get-delete_self}
use nexus_ai_workspace.Values.{Value}
use nexus_ai_workspace.Task.{cancelled}
use nexus_ai_workspace.Scheduler.State.{AgentScheduler, RunningTaskInfo, has_id}
use nexus_ai_workspace.Scheduler.Operations.{
  cancel, mark_cancelled, complete_task, finish_task, file_task, remaining,
}
use nexus_ai_workspace.Scheduler.Promotion.{promote-SameBesides, promote-perm}
use nexus_ai_workspace.Scheduler.Invariant.{IsValid}

module _ (s : AgentScheduler) (id : String) (info : RunningTaskInfo) (v : IsValid s)
    (runs : get id s.running_tasks_map ≡ some info) where
  -- In a valid scheduler `cancel` of a running task returns true, ends its running and appends it
  -- to the failed queue in the state CANCELLED; but the execution queue keeps every task that it
  -- had, this one included.
  pub cancel_running :
      (now : ℕ)
      → let (t, result) = cancel s id now in
        (result ≡ true)
        × (get id t.running_tasks_map ≡ none)
        × (t.failed_queue ≡ s.failed_queue ++ info.task ∷ [])
        × ((t.heap info.task).state ≡ cancelled)
        × (t.execution_queue ≡ s.execution_queue)
  unfolding cancel mark_cancelled
  cancel_running now =
      let gone = get-delete_self id s.running_tasks_map v.keys in
      rw (runs, cancel) (refl, gone, refl, ground arith, refl)

-- The references of the running tasks.
abbrev pub running_refs : Map RunningTaskInfo → List ℕ
running_refs [] = []
running_refs ((id, info) ∷ m) = info.task ∷ running_refs m

-- The queue that a completed task, or one that has failed, does not go to.
abbrev pub other_queue : Bool → AgentScheduler → List ℕ
other_queue true s = s.failed_queue
other_queue false s = s.completed_queue

abbrev pub others_of : AgentScheduler → String → List ℕ → List ℕ
others_of s id rs = select (λ r. not (has_id s.heap id r)) rs

-- `t` is `s` after the task that runs under the id, if there is one, has ended.
pub record Ended (s : AgentScheduler) (id : String) (done : Bool) (t : AgentScheduler)
    : Type 0 where
  pub ended :
      Perm
        (t.completed_queue ++ (t.failed_queue ++ running_refs t.running_tasks_map))
        (s.completed_queue ++ (s.failed_queue ++ running_refs s.running_tasks_map))
  pub running :
      (j : String)
      → get j t.running_tasks_map ≡ (if id === j then none else get j s.running_tasks_map)
  pub side : other_queue done t ≡ other_queue done s
  pub executing : others_of s id t.execution_queue ≡ others_of s id s.execution_queue
  pub waiting : Perm (t.priority_queue ++ t.waiting_queue) (s.priority_queue ++ s.waiting_queue)
  pub counted :
      t.completed_count + length s.completed_queue ≡ s.completed_count + length t.completed_queue

delete-refs :
    (id : String) (m : Map RunningTaskInfo) (info : RunningTaskInfo)
    → get id m ≡ some info
    → Perm (info.task ∷ running_refs (delete id m)) (running_refs m)
unfolding get delete
delete-refs id [] info h = cc h
delete-refs id ((j, i) ∷ m) info h = elim (Bool-cases (j === id)) [
  | inl e ↦ let h' = rw e at h in let same : i ≡ info = cc in rw (e, same) Perm.rfl
  | inr e ↦
      rw e (Perm.trans (Perm.swap _ _ _) (Perm.cons i.task (delete-refs id m info (rw e at h))))
]

moved-perm :
    (r : ℕ) (c f d m : List ℕ)
    → Perm (r ∷ d) m
    → Perm ((c ++ r ∷ []) ++ (f ++ d)) (c ++ (f ++ m))
      × Perm (c ++ ((f ++ r ∷ []) ++ d)) (c ++ (f ++ m))
moved-perm r c f d m p =
    let inner : Perm (f ++ r ∷ d) (f ++ m) = Perm.append_left f p in
    (
      rw (append_assoc c (r ∷ []) (f ++ d))
          (Perm.append_left c (Perm.trans (Perm.symm (perm_middle f d)) inner)),
      rw (append_assoc f (r ∷ []) d) (Perm.append_left c inner),
    )

select-append : (p : ℕ → Bool) (xs ys : List ℕ) → select p (xs ++ ys) ≡ select p xs ++ select p ys
select-append p [] ys = refl
select-append p (x ∷ xs) ys = elim (Bool-cases (p x)) [
  | inl e ↦ rw e (ap (◌∷◌ x) (select-append p xs ys))
  | inr e ↦ rw e (select-append p xs ys)
]

extract-others :
    (p : ℕ → Bool) (rs : List ℕ)
    → select (λ r. not (p r)) (remaining rs (extract p rs)) ≡ select (λ r. not (p r)) rs
extract-others p rs = elim (extract_cases p rs) [
  | inl (cut, _, _) ↦ rw cut refl
  | inr f ↦
      let others : ℕ → Bool = λ r. not (p r) in
      rw f.cut (
        select-append others f.before f.after
        ∙ sym (
            ap (select others) f.split
            ∙ select-append others f.before (f.item ∷ f.after)
            ∙ rw f.fits refl))
]

file_task-Ended :
    (s : AgentScheduler) (id : String) (output : Option Value) (error : Option String) (now : ℕ)
    → IsValid s
    → (flag : Bool) (info : RunningTaskInfo) → get id s.running_tasks_map ≡ some info
    → Ended s id flag (file_task (finish_task s id info flag output error now) info.task flag)
unfolding file_task finish_task
file_task-Ended s id output error now v true info runs =
    let rest = delete id s.running_tasks_map in
    let m =
      moved-perm info.task s.completed_queue s.failed_queue (running_refs rest) _
        (delete-refs id s.running_tasks_map info runs) in
    let u : AgentScheduler = record (finish_task s id info true output error now) {
      completed_queue = s.completed_queue ++ info.task ∷ [];
    } in
    let b = promote-SameBesides u in
    record {
      ended = rw (b.completed, b.failed, b.running) m.0;
      running = λ j. rw b.running (get-delete id j s.running_tasks_map v.keys);
      side = b.failed;
      executing = rw b.execution (extract-others (has_id s.heap id) s.execution_queue);
      waiting = promote-perm u;
      counted =
          rw (b.count, b.completed, length-append s.completed_queue (info.task ∷ [])) (omega arith);
    }
file_task-Ended s id output error now v false info runs =
    let rest = delete id s.running_tasks_map in
    let m =
      moved-perm info.task s.completed_queue s.failed_queue (running_refs rest) _
        (delete-refs id s.running_tasks_map info runs) in
    record {
      ended = m.1;
      running = λ j. get-delete id j s.running_tasks_map v.keys;
      side = refl;
      executing = extract-others (has_id s.heap id) s.execution_queue;
      waiting = Perm.rfl;
      counted = refl;
    }

-- In a valid scheduler, whatever the id: after `completeTask` no task runs under the id and the
-- others run as before; the completed, the failed and the running tasks together are the same, so
-- the task that ended went to one of the two queues, as the flag says; the execution queue keeps
-- its tasks of other ids; no task that waits for its turn is lost; and the count of completed tasks
-- grows as the completed queue does.
pub complete_task-Ended :
    (s : AgentScheduler) (id : String) (done : Bool) (output : Option Value) (error : Option String)
    (now : ℕ)
    → IsValid s
    → Ended s id done (complete_task s id done output error now)
unfolding complete_task
complete_task-Ended s id done output error now v =
    elim (Option-cases (get id s.running_tasks_map)) [
      | inl none_runs ↦
          rw (none_runs, complete_task)
            (record {
              ended = Perm.rfl;
              running = λ j. elim (Bool-cases (id === j)) [
                | inl e ↦
                    rw e (ap (λ k. get k s.running_tasks_map) (sym (===_eq id j e)) ∙ none_runs)
                | inr e ↦ rw e refl
              ];
              side = refl;
              executing = refl;
              waiting = Perm.rfl;
              counted = refl;
            })
      | inr (info, runs) ↦
          rw (runs, complete_task) (file_task-Ended s id output error now v done info runs)
    ]
