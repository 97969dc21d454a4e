-- ===== src/Scheduler/Queued.antt =====
-- The two queues that hold the tasks still to run: sorted by urgency, and no id twice.
use nexus_ai_workspace.Common.{
  ℕ, String, ◌≡◌, refl, sym, subst, List, [], ◌∷◌, ◌++◌, map, false, Bool, All, arith, ltb,
  IsSorted, StrictOrder, insert_before-IsSorted, IsSorted-cut, insert_before, insert_before-perm,
}
use mathlib.Core.List.{
  Perm, Nodup, Mem, perm_middle, perm_append_comm, Nodup-cons, mem-cons, not-mem-nil,
}
use mathlib.Core.List.Perm
use mathlib.Core.Logic.Or
use mathlib.Core.HLevel.{⊥_prop}
use nexus_ai_workspace.Priority.{AgentPriority, priority_order}
use nexus_ai_workspace.Scheduler.State.{Heap, has_id}
use nexus_ai_workspace.Scheduler.Queues.{more_urgent}

abbrev pub id_of : Heap → ℕ → String
id_of h r = (h r).task_id

abbrev pub priority_of : Heap → ℕ → AgentPriority
priority_of h r = (h r).priority

abbrev pub ids : Heap → List ℕ → List String
ids h = map (id_of h)

pub record Queued (h : Heap) (priority_queue waiting_queue : List ℕ) : Type 0 where
  pub sorted : IsSorted (more_urgent h) priority_queue
  pub distinct : Nodup (ids h (priority_queue ++ waiting_queue))

-- A write that changes neither an id nor a priority.
pub record SameKeys (h h' : Heap) : Type 0 where
  pub same_ids : id_of h' ≡ id_of h
  pub same_priorities : priority_of h' ≡ priority_of h

pub SameKeys-refl : (h : Heap) → SameKeys h h
SameKeys-refl h = record { same_ids = refl; same_priorities = refl }

pub more_urgent-StrictOrder : (h : Heap) → StrictOrder (more_urgent h)
more_urgent-StrictOrder h = record { irrefl = λ x. ground arith; trans = λ x y z p q. ground arith }

abbrev urgent : (ℕ → AgentPriority) → ℕ → ℕ → Bool
urgent p a b = ltb (priority_order (p a)) (priority_order (p b))

pub IsSorted-write :
    {h h' : Heap} (xs : List ℕ)
    → SameKeys h h'
    → IsSorted (more_urgent h) xs
    → IsSorted (more_urgent h') xs
IsSorted-write xs k = subst (λ p. IsSorted (urgent p) xs) (sym k.same_priorities)

pub Queued-write : {h h' : Heap} {xs ys : List ℕ} → SameKeys h h' → Queued h xs ys → Queued h' xs ys
Queued-write {xs = xs} {ys = ys} k q = record {
  sorted = IsSorted-write xs k q.sorted;
  distinct = subst (λ f. Nodup (map f (xs ++ ys))) (sym k.same_ids) q.distinct;
}

abbrev pub IsNew : Heap → ℕ → List ℕ → Type 0
IsNew h r xs = ¬ Mem (id_of h r) (ids h xs)

pub not-mem_ids :
    (h : Heap) (id : String) (xs : List ℕ)
    → All (λ x. has_id h id x ≡ false) xs
    → ¬ Mem id (ids h xs)
not-mem_ids h id [] a m = not-mem-nil m
not-mem_ids h id (x ∷ xs) a m =
    Or.elim ⊥_prop (mem-cons.0 m) (λ e. ground arith) (not-mem_ids h id xs a.1)

pub ids-perm-Nodup : (h : Heap) {xs ys : List ℕ} → Perm xs ys → Nodup (ids h ys) → Nodup (ids h xs)
ids-perm-Nodup h p = Perm.nodup (Perm.map (id_of h) (Perm.symm p))

module _ (h : Heap) (r : ℕ) (xs ys : List ℕ) where
  pub Queued-insert :
      IsNew h r (xs ++ ys) → Queued h xs ys → Queued h (insert_before (more_urgent h r) r xs) ys
  Queued-insert new q = record {
    sorted = insert_before-IsSorted (more_urgent h) (more_urgent-StrictOrder h) r xs q.sorted;
    distinct =
        ids-perm-Nodup h (Perm.append_right ys (insert_before-perm (more_urgent h r) r xs))
          (Nodup-cons.1 (new, q.distinct));
  }

  pub Queued-append : IsNew h r (xs ++ ys) → Queued h xs ys → Queued h xs (ys ++ r ∷ [])
  Queued-append new q = record {
    sorted = q.sorted;
    distinct =
        ids-perm-Nodup h
          (Perm.trans (Perm.append_left xs (perm_append_comm ys (r ∷ []))) (perm_middle xs ys))
          (Nodup-cons.1 (new, q.distinct));
  }

module _ (h : Heap) (r : ℕ) (xs ys zs : List ℕ) where
  pub Queued-cut : Queued h (xs ++ r ∷ ys) zs → Queued h (xs ++ ys) zs
  Queued-cut q = record {
    sorted = IsSorted-cut (more_urgent h) xs r ys q.sorted;
    distinct =
        (Nodup-cons.0
          (ids-perm-Nodup h (Perm.symm (Perm.append_right zs (perm_middle xs ys))) q.distinct)).1;
  }

  pub Queued-cut_waiting : Queued h zs (xs ++ r ∷ ys) → Queued h zs (xs ++ ys)
  Queued-cut_waiting q = record {
    sorted = q.sorted;
    distinct =
        (Nodup-cons.0 (
          ids-perm-Nodup h
            (Perm.symm
              (Perm.trans (Perm.append_left zs (perm_middle xs ys)) (perm_middle zs (xs ++ ys))))
            q.distinct)).1;
  }

pub IsNew-write : {h h' : Heap} (r : ℕ) (xs : List ℕ) → SameKeys h h' → IsNew h r xs → IsNew h' r xs
IsNew-write r xs k = subst (λ f. ¬ Mem (f r) (map f xs)) (sym k.same_ids)
