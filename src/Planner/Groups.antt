-- ===== src/Planner/Groups.antt =====
-- The conflicts in a group of tasks that run together, and the priority of a merged plan.
use nexus_ai_workspace.Common.{
  ℕ, String, ◌≡◌, ◌↔◌, ◌⊎◌, refl, sym, subst, Bool, true, false, List, [], ◌∷◌, Option, none, some,
  Bool-cases, inl, inr, arith, ◌≤◌, ◌===◌, ◌==◌, ◌&&◌, some_of, All, if◌then◌else◌, ltb, All-map,
}
use nexus_ai_workspace.Priority.{AgentPriority, critical, high, normal, low, priority_order}
use nexus_ai_workspace.Task.{AgentTask, TaskDependency, is_blocking}

-- `taskIds.has(id)`
abbrev pub is_member : List AgentTask → String → Bool
is_member group id = some_of (λ t. t.task_id === id) group

unfoldable pub conflicts_in : List AgentTask → List TaskDependency → Bool
conflicts_in group [] = false
conflicts_in group (d ∷ ds) =
    if is_member group d.task_id && is_blocking d then true else conflicts_in group ds

-- The loop over the tasks of the group.
unfoldable pub any_conflict : (group tasks : List AgentTask) → Bool
any_conflict group [] = false
any_conflict group (t ∷ ts) =
    if conflicts_in group t.dependencies then true else any_conflict group ts

unfoldable pub has_conflicting_dependencies : List AgentTask → Bool
has_conflicting_dependencies tasks = any_conflict tasks tasks

-- The dependency is soft, or names no task of the group.
abbrev pub IsHarmless : List AgentTask → TaskDependency → Type 0
IsHarmless group d = (is_blocking d ≡ false) ⊎ (is_member group d.task_id ≡ false)

conflicts_in_iff :
    (group : List AgentTask) (ds : List TaskDependency)
    → (conflicts_in group ds ≡ false) ↔ All (IsHarmless group) ds
unfolding conflicts_in
conflicts_in_iff group [] = (λ h. tt, λ h. refl)
conflicts_in_iff group (d ∷ ds) =
    let (there, back) = conflicts_in_iff group ds in
    elim (Bool-cases (is_member group d.task_id)) [
      | inr e ↦ (λ h. (inr e, there (rw e at h)), λ h. rw e (back h.1))
      | inl e ↦ elim (Bool-cases (is_blocking d)) [
        | inr f ↦ (λ h. (inl f, there (rw (e, f) at h)), λ h. rw (e, f) (back h.1))
        | inl f ↦ (λ h. let h' = rw (e, f) at h in cc, λ h. elim h.0 [ inl x ↦ cc | inr x ↦ cc ])
      ]
    ]

any_conflict_iff :
    (group ts : List AgentTask)
    → (any_conflict group ts ≡ false) ↔ All (λ t. All (IsHarmless group) t.dependencies) ts
unfolding any_conflict
any_conflict_iff group [] = (λ h. tt, λ h. refl)
any_conflict_iff group (t ∷ ts) =
    let (there, back) = any_conflict_iff group ts in
    let (into, out) = conflicts_in_iff group t.dependencies in
    elim (Bool-cases (conflicts_in group t.dependencies)) [
      | inr e ↦ (λ h. (into e, there (rw e at h)), λ h. rw e (back h.1))
      | inl e ↦ (λ h. let h' = rw e at h in cc, λ h. let no = out h.0 in cc)
    ]

-- `hasConflictingDependencies` is false exactly if each dependency of each task of the group is
-- soft or names a task outside the group.
pub has_conflicting_dependencies_iff :
    (tasks : List AgentTask)
    → (has_conflicting_dependencies tasks ≡ false)
      ↔ All (λ t. All (IsHarmless tasks) t.dependencies) tasks
unfolding has_conflicting_dependencies
has_conflicting_dependencies_iff tasks = any_conflict_iff tasks tasks

-- `Math.min(...)` over the orders; none where the list is empty, for the source's infinity.
unfoldable pub least_order : List AgentPriority → Option ℕ
least_order [] = none
least_order (p ∷ ps) = elim (least_order ps) [
  | none ↦ some (priority_order p)
  | some n ↦ some (if ltb (priority_order p) n then priority_order p else n)
]

-- The loop over the entries of `priorityOrder`, with the priority that it falls back to.
unfoldable pub priority_at : ℕ → AgentPriority
priority_at n =
    if n == 0
    then critical
    else if n == 1
    then high
    else if n == 2
    then normal
    else if n == 3
    then low
    else normal

unfoldable pub get_highest_priority : List AgentPriority → AgentPriority
get_highest_priority ps = elim (least_order ps) [ none ↦ normal | some n ↦ priority_at n ]

priority_at-order : (q : AgentPriority) → priority_at (priority_order q) ≡ q
unfolding priority_at priority_order
priority_at-order critical = refl
priority_at-order high = refl
priority_at-order normal = refl
priority_at-order low = refl

-- The most urgent priority of a list that is not empty.
abbrev pub IsMostUrgent : AgentPriority → List AgentPriority → Type 0
IsMostUrgent q ps =
    (some_of (λ r. priority_order r == priority_order q) ps ≡ true)
    × All (λ r. priority_order q ≤ priority_order r) ps

least_order-IsMostUrgent :
    (p : AgentPriority) (ps : List AgentPriority)
    → (q : AgentPriority) × (least_order (p ∷ ps) ≡ some (priority_order q))
      × IsMostUrgent q (p ∷ ps)
unfolding least_order
least_order-IsMostUrgent p [] = (p, refl, (ground arith, (omega arith, tt)))
least_order-IsMostUrgent p (r ∷ rs) =
    let (q, e, most) = least_order-IsMostUrgent r rs in
    let there = most.0 in
    let least = most.1 in
    elim (Bool-cases (ltb (priority_order p) (priority_order q))) [
      | inl b ↦ (
        p,
        rw (e, b) refl,
        (
          ground arith,
          (
            omega arith,
            All-map (λ x. priority_order q ≤ priority_order x) _ (r ∷ rs) (λ x h. ground arith)
                least,
          ),
        ),
      )
      | inr b ↦ (q, rw (e, b) refl, (ground arith, (ground arith, least)))
    ]

-- `getHighestPriority` of a list that is not empty returns a priority that stands in the list and
-- that no other in the list surpasses in urgency.
pub get_highest_priority-IsMostUrgent :
    (p : AgentPriority) (ps : List AgentPriority)
    → IsMostUrgent (get_highest_priority (p ∷ ps)) (p ∷ ps)
unfolding get_highest_priority
get_highest_priority-IsMostUrgent p ps =
    let (q, e, most) = least_order-IsMostUrgent p ps in
    let same : get_highest_priority (p ∷ ps) ≡ q =
      rw (e, get_highest_priority) (priority_at-order q) in
    subst (λ x. IsMostUrgent x (p ∷ ps)) (sym same) most
