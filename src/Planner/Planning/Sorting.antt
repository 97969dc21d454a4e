-- ===== src/Planner/Planning/Sorting.antt =====
-- `prioritize` of AgentPlanner sorts.
use nexus_ai_workspace.Common.{
  ℕ, ◌≡◌, refl, sym, ap, ◌∙◌, ◌≤◌, ◌<◌, ◌+◌, ◌==◌, ◌&&◌, ◌⊎◌, inl, inr, Bool, true, false,
  if◌then◌else◌, ltb, Bool-cases, All, All-map, select, length, List, [], ◌∷◌, ◌++◌, arith,
  insert_before, insert_index, splice_in, insert_before-perm, insert_before-IsSorted, IsSorted,
  StrictOrder,
}
use mathlib.Core.List.{Perm, perm_middle, append-nil, append_assoc}
use mathlib.Core.List.Perm
use nexus_ai_workspace.Priority.{AgentPriority, low, normal, high, critical, priority_order}
use nexus_ai_workspace.Task.{AgentTask}
use nexus_ai_workspace.Planner.Planning.{goes_first, sort_into, prioritize}

goes_first_order : StrictOrder goes_first
unfolding goes_first
goes_first_order = record { irrefl = λ x. ground arith; trans = λ x y z h k. ground arith }

sort_into-IsSorted :
    (sorted ts : List AgentTask)
    → IsSorted goes_first sorted
    → IsSorted goes_first (sort_into sorted ts)
sort_into-IsSorted sorted [] s = s
sort_into-IsSorted sorted (t ∷ ts) s =
    sort_into-IsSorted (insert_before (goes_first t) t sorted) ts
      (insert_before-IsSorted goes_first goes_first_order t sorted s)

sort_into-perm : (sorted ts : List AgentTask) → Perm (sort_into sorted ts) (sorted ++ ts)
sort_into-perm sorted [] = append-nil-perm
  where
    append-nil-perm : Perm sorted (sorted ++ [])
    append-nil-perm = rw (append-nil sorted) (Perm.refl sorted)
sort_into-perm sorted (t ∷ ts) =
    Perm.trans (sort_into-perm (insert_before (goes_first t) t sorted) ts) (
      Perm.trans (Perm.append_right ts (insert_before-perm (goes_first t) t sorted))
        (Perm.symm (perm_middle sorted ts)))

-- How urgent a priority is.
abbrev pub urgency : AgentPriority → ℕ
urgency low = 0
urgency normal = 1
urgency high = 2
urgency critical = 3

order-urgency : (p : AgentPriority) → priority_order p + urgency p ≡ 3
unfolding priority_order
order-urgency low = refl
order-urgency normal = refl
order-urgency high = refl
order-urgency critical = refl

-- `a` may stand before `b`: it is more urgent; or as urgent with fewer dependencies; or with as
-- many and not younger.
abbrev pub InOrder : AgentTask → AgentTask → Type 0
InOrder a b =
    (urgency b.priority < urgency a.priority)
    ⊎ ((urgency a.priority ≡ urgency b.priority)
        × ((length a.dependencies < length b.dependencies)
            ⊎ ((length a.dependencies ≡ length b.dependencies)
                × (a.metrics.created_at ≤ b.metrics.created_at))))

-- Each task may stand before every later one.
abbrev pub AreInOrder : List AgentTask → Type 0
AreInOrder [] = Unit
AreInOrder (t ∷ ts) = All (InOrder t) ts × AreInOrder ts

InOrder-goes_first : (a b : AgentTask) → goes_first b a ≡ false → InOrder a b
unfolding goes_first
InOrder-goes_first a b h =
    let x = order-urgency a.priority in
    let y = order-urgency b.priority in
    elim (Bool-cases (ltb (priority_order a.priority) (priority_order b.priority))) [
      | inl e ↦ inl (ground (arith, x, y, e))
      | inr e ↦
          let same : priority_order a.priority ≡ priority_order b.priority = ground (arith, h, e) in
          inr (
            omega (arith, x, y, same),
            elim (Bool-cases (ltb (length a.dependencies) (length b.dependencies))) [
              | inl f ↦ inl (ground (arith, f))
              | inr f ↦ inr (ground (arith, h, e, f, same), ground (arith, h, e, f, same))
            ],
          )
    ]

AreInOrder-IsSorted : (ts : List AgentTask) → IsSorted goes_first ts → AreInOrder ts
AreInOrder-IsSorted [] s = tt
AreInOrder-IsSorted (t ∷ ts) s =
    (All-map _ _ ts (λ u h. InOrder-goes_first t u h) s.0, AreInOrder-IsSorted ts s.1)

-- The two tasks agree in everything that the order looks at.
abbrev pub ties : AgentTask → AgentTask → Bool
ties a b =
    urgency a.priority == urgency b.priority
    && (length a.dependencies == length b.dependencies
        && a.metrics.created_at == b.metrics.created_at)

tied-apart :
    (a t x y : AgentTask)
    → ties a t ≡ true
    → goes_first t x ≡ true
    → goes_first y x ≡ false
    → ties a y ≡ false
unfolding goes_first
tied-apart a t x y e h k =
    let i = order-urgency a.priority in
    let j = order-urgency t.priority in
    let l = order-urgency y.priority in ground (arith, i, j, l, e, h, k)

none_selected :
    (p : AgentTask → Bool) (ts : List AgentTask) → All (λ t. p t ≡ false) ts → select p ts ≡ []
none_selected p [] h = refl
none_selected p (t ∷ ts) h = rw h.0 (none_selected p ts h.1)

insert_before-ties :
    (a t : AgentTask) (ts : List AgentTask)
    → IsSorted goes_first ts
    → select (ties a) (insert_before (goes_first t) t ts)
      ≡ select (ties a) ts ++ select (ties a) (t ∷ [])
unfolding insert_index splice_in
insert_before-ties a t [] s = refl
insert_before-ties a t (x ∷ xs) s = elim (Bool-cases (goes_first t x)) [
  | inl e ↦ elim (Bool-cases (ties a t)) [
    | inl f ↦
        let own = tied-apart a t x x f e (goes_first_order.irrefl x) in
        let others =
          none_selected (ties a) xs (All-map _ _ xs (λ y k. tied-apart a t x y f e k) s.0) in
        rw (e, f, own, others) refl
    | inr f ↦ rw (e, f) (sym (append-nil _))
  ]
  | inr e ↦ elim (Bool-cases (ties a x)) [
    | inl f ↦ rw (e, f) (ap (◌∷◌ x) (insert_before-ties a t xs s.1))
    | inr f ↦ rw (e, f) (insert_before-ties a t xs s.1)
  ]
]

sort_into-ties :
    (a : AgentTask) (sorted ts : List AgentTask)
    → IsSorted goes_first sorted
    → select (ties a) (sort_into sorted ts) ≡ select (ties a) sorted ++ select (ties a) ts
sort_into-ties a sorted [] s = sym (append-nil _)
sort_into-ties a sorted (t ∷ ts) s =
    sort_into-ties a (insert_before (goes_first t) t sorted) ts
      (insert_before-IsSorted goes_first goes_first_order t sorted s)
    ∙ ap (◌++ select (ties a) ts) (insert_before-ties a t sorted s)
    ∙ append_assoc (select (ties a) sorted) (select (ties a) (t ∷ [])) (select (ties a) ts)
    ∙ ap (select (ties a) sorted ++◌) (one_more (ties a t))
  where
    one_more :
        (b : Bool)
        → (if b then t ∷ [] else []) ++ select (ties a) ts
          ≡ (if b then t ∷ select (ties a) ts else select (ties a) ts)
    one_more true = refl
    one_more false = refl

-- `prioritize` returns the given tasks, each as often as it is given. A task stands before another
-- only if it is more urgent (critical, high, normal, low), or as urgent with fewer dependencies, or
-- with as many and not younger; and tasks that agree in all three stand in the order given.
pub prioritize-sorts :
    (tasks : List AgentTask)
    → Perm (prioritize tasks) tasks
      × AreInOrder (prioritize tasks)
      × ((a : AgentTask) → select (ties a) (prioritize tasks) ≡ select (ties a) tasks)
unfolding prioritize
prioritize-sorts tasks = (
  sort_into-perm [] tasks,
  AreInOrder-IsSorted _ (sort_into-IsSorted [] tasks tt),
  λ a. sort_into-ties a [] tasks tt,
)
