-- ===== src/Scheduler/Rescheduling.antt =====
-- `reschedule` keeps the scheduler valid, although it changes a priority while the task stands in
-- a sorted queue: the task leaves that queue before the next call can see it.
use nexus_ai_workspace.Common.{
  ℕ, String, ◌≡◌, ◌≢◌, refl, ap, subst, fun_ext, List, [], ◌∷◌, ◌++◌, true, false, inl, inr, none,
  some, All, All-map, All-append_left, arith, find, extract_cases, Found, ◌===◌, Option-cases,
  Option, IsSorted,
}
use mathlib.Core.List.{mem-cons_self, mem-cons_of_mem, Nodup-cons, perm_middle}
use mathlib.Core.List.Perm
use nexus_ai_workspace.Common.Map.{get}
use nexus_ai_workspace.Priority.{AgentPriority, parse_priority}
use nexus_ai_workspace.Scheduler.State.{AgentScheduler, Heap, set_priority, has_id}
use nexus_ai_workspace.Scheduler.Queues.{
  find_task_in_queues, find_in, remove_task_from_queues, more_urgent, all_queues,
}
use nexus_ai_workspace.Scheduler.Operations.{
  Outcome, ok, throw, update_priority, reschedule, rescheduled,
}
use nexus_ai_workspace.Scheduler.Queued.{
  Queued, SameKeys-refl, id_of, IsNew, Queued-cut, Queued-cut_waiting, ids-perm-Nodup,
}
use nexus_ai_workspace.Scheduler.Invariant.{IsValid, IsValid-same, IsValid-same_ids}
use nexus_ai_workspace.Scheduler.Scheduling.{schedule-IsValid}
use nexus_ai_workspace.Scheduler.Removal.{
  SameLive-IsValid, from_priority, from_waiting, elsewhere, remove_cases, remove-IsValid,
}

find_in-has_id :
    (h : Heap) (id : String) (qs : List (List ℕ)) (r : ℕ)
    → find_in h id qs ≡ some r
    → has_id h id r ≡ true
unfolding find_in
find_in-has_id h id [] r e = cc
find_in-has_id h id (q ∷ qs) r e = elim (extract_cases (has_id h id) q) [
  | inl (_, e', _) ↦ find_in-has_id h id qs r (rw e' at e)
  | inr f ↦ let e' = rw f.seen at e in ground (arith, f.fits)
]

-- The task that the scheduler finds under an id has that id.
pub find_task_in_queues-has_id :
    (s : AgentScheduler) (id : String) (r : ℕ)
    → IsValid s
    → find_task_in_queues s id ≡ some r
    → has_id s.heap id r ≡ true
unfolding find_task_in_queues
find_task_in_queues-has_id s id r v e = elim (Option-cases (find_in s.heap id (all_queues s))) [
  | inr (x, e') ↦ find_in-has_id s.heap id (all_queues s) r (ground arith)
  | inl e' ↦ elim (Option-cases (get id s.running_tasks_map)) [
    | inl e'' ↦ ground arith
    | inr (info, e'') ↦ ground (arith, v.keyed id info)
  ]
]

IsSorted-set_priority :
    (h : Heap) (r : ℕ) (p : AgentPriority) (xs : List ℕ)
    → All (λ x. x ≢ r) xs
    → IsSorted (more_urgent h) xs
    → IsSorted (more_urgent (set_priority h r p)) xs
IsSorted-set_priority h r p [] a s = tt
IsSorted-set_priority h r p (x ∷ xs) a s =
    (rest x a.0 xs a.1 s.0, IsSorted-set_priority h r p xs a.1 s.1)
  where
    rest :
        (x : ℕ)
        → x ≢ r
        → (ys : List ℕ) → All (λ y. y ≢ r) ys
        → All (λ y. more_urgent h y x ≡ false) ys
        → All (λ y. more_urgent (set_priority h r p) y x ≡ false) ys
    rest x n [] b t = tt
    rest x n (y ∷ ys) b t = (ground arith, rest x n ys b.1 t.1)

IsNew-ne : (h : Heap) (r : ℕ) (xs : List ℕ) → IsNew h r xs → All (λ x. x ≢ r) xs
IsNew-ne h r [] n = tt
IsNew-ne h r (x ∷ xs) n =
    (λ e. n (rw e mem-cons_self), IsNew-ne h r xs (λ m. n (mem-cons_of_mem (id_of h x) m)))

module _ (s : AgentScheduler) (id : String) (r : ℕ) (p : AgentPriority) (v : IsValid s)
    (seen : find_task_in_queues s id ≡ some r) where
  abbrev changed : AgentScheduler
  changed = record s { heap = set_priority s.heap r p }

  changed-ids : id_of changed.heap ≡ id_of s.heap
  changed-ids = fun_ext (λ q. ground arith)

  -- The changed task is the one that leaves the priority queue, if it was there.
  Found-eq : (f : Found (has_id changed.heap id) s.priority_queue) → f.item ≡ r
  unfolding find_task_in_queues find_in
  Found-eq f =
      let e =
        subst (λ h. find (λ x. h x === id) s.priority_queue ≡ some f.item) changed-ids f.seen in
      ground arith

  changed-Queued :
      (xs ys : List ℕ) → All (λ x. x ≢ r) xs → Queued s.heap xs ys → Queued changed.heap xs ys
  changed-Queued xs ys a q = record {
    sorted = IsSorted-set_priority s.heap r p xs a q.sorted;
    distinct = rw changed-ids q.distinct;
  }

  outside : (x : ℕ) → has_id changed.heap id x ≡ false → x ≢ r
  outside x h e =
      ground (arith, find_task_in_queues-has_id s id r v seen, ap (λ f. f x) changed-ids)

  -- Where the task is not in the priority queue, its new priority disturbs nothing.
  changed_outside :
      (ys : List ℕ)
      → All (λ x. has_id changed.heap id x ≡ false) s.priority_queue
      → Queued s.heap s.priority_queue ys
      → IsValid (record changed { waiting_queue = ys })
  changed_outside ys a q =
      IsValid-same_ids s _ changed-ids refl refl
        (changed-Queued s.priority_queue ys (All-map _ _ s.priority_queue outside a) q) v

  changed_cut :
      (f : Found (has_id changed.heap id) s.priority_queue)
      → IsValid (record changed { priority_queue = f.before ++ f.after })
  changed_cut f =
      let whole = subst (λ q. Queued s.heap q s.waiting_queue) f.split v.queued in
      let new =
        (Nodup-cons.0 (
          ids-perm-Nodup s.heap
            (Perm.symm (Perm.append_right s.waiting_queue (perm_middle f.before f.after)))
            whole.distinct)).0 in
      let others = All-append_left _ (f.before ++ f.after) s.waiting_queue (
        subst (λ x. All (λ y. y ≢ x) ((f.before ++ f.after) ++ s.waiting_queue)) (Found-eq f)
          (IsNew-ne s.heap f.item ((f.before ++ f.after) ++ s.waiting_queue) new)) in
      IsValid-same_ids s _ changed-ids refl refl
        (changed-Queued (f.before ++ f.after) s.waiting_queue others
          (Queued-cut s.heap f.item f.before f.after s.waiting_queue whole))
        v

  changed-IsValid : IsValid (remove_task_from_queues changed id).0
  changed-IsValid = elim (remove_cases changed id) [
    | from_priority f e ↦ rw e (changed_cut f)
    | from_waiting a f e ↦ rw e (
        changed_outside (f.before ++ f.after) a (
          Queued-cut_waiting s.heap f.item f.before f.after s.priority_queue
            (subst (λ q. Queued s.heap s.priority_queue q) f.split v.queued)))
    | elsewhere a t l e ↦
        rw e (SameLive-IsValid changed t.0 l (changed_outside s.waiting_queue a v.queued))
  ]

update_priority-IsValid :
    (s : AgentScheduler) (id : String) (r : ℕ) (new_priority : Option String)
    → IsValid s
    → find_task_in_queues s id ≡ some r
    → IsValid (remove_task_from_queues (update_priority s r new_priority) id).0
unfolding update_priority
update_priority-IsValid s id r none v seen = remove-IsValid s id v
update_priority-IsValid s id r (some text) v seen = elim (Option-cases (parse_priority text)) [
  | inl e ↦ rw (e, update_priority) (remove-IsValid s id v)
  | inr (p, e) ↦ rw (e, update_priority) (changed-IsValid s id r p v seen)
]

rescheduled-IsValid :
    (id : String) (result : AgentScheduler × Outcome (Unit {0}))
    → IsValid result.0
    → IsValid (rescheduled id result).0
rescheduled-IsValid id (t, ok _) v = v
rescheduled-IsValid id (t, throw e) v = IsValid-same t _ (SameKeys-refl t.heap) refl refl v.queued v

pub reschedule-IsValid :
    (s : AgentScheduler) (id : String) (new_priority : Option String)
    → IsValid s
    → IsValid (reschedule s id new_priority).0
unfolding reschedule
reschedule-IsValid s id new_priority v = elim (Option-cases (find_task_in_queues s id)) [
  | inl e ↦ rw (e, reschedule) v
  | inr (r, e) ↦
      rw (e, reschedule)
        (rescheduled-IsValid id _
          (schedule-IsValid _ r (update_priority-IsValid s id r new_priority v e)))
]
