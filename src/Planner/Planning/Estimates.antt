-- ===== src/Planner/Planning/Estimates.antt =====
-- The bounds of `estimate` of AgentPlanner.
use nexus_ai_workspace.Common.{
  ℕ, String, ◌≡◌, refl, Bool, true, false, not, List, [], ◌∷◌, Option, none, some, ◌≤◌, All,
  All-map, includes, select, arith, Bool-cases, inl, inr,
}
use nexus_ai_workspace.Task.{AgentTask}
use nexus_ai_workspace.Planner.Plan.{ExecutionMode, sequential, parallel, mixed}
use nexus_ai_workspace.Planner.Planning.{
  timeouts, max_or, max_timeout, plus, tasks_in, group_timeouts, in_groups, with_overhead, estimate,
}

-- No task takes longer.
abbrev pub Covers : List AgentTask → ℕ → Type 0
Covers tasks n = All (λ t. t.timeout_ms ≤ n) tasks

Covers-le : (tasks : List AgentTask) (m n : ℕ) → m ≤ n → Covers tasks m → Covers tasks n
Covers-le tasks m n l h = All-map _ _ tasks (λ t k. omega (arith, k, l)) h

timeouts-Covers : (tasks : List AgentTask) → Covers tasks (timeouts tasks)
timeouts-Covers [] = tt
timeouts-Covers (t ∷ ts) =
    (omega arith, Covers-le ts (timeouts ts) _ (omega arith) (timeouts-Covers ts))

-- The number, if there is one, covers the tasks.
abbrev pub Within : List AgentTask → Option ℕ → Type 0
Within tasks none = Unit
Within tasks (some n) = Covers tasks n

max_timeout-Within : (tasks : List AgentTask) → Within tasks (max_timeout tasks)
max_timeout-Within [] = tt
max_timeout-Within (t ∷ []) = (omega arith, tt)
max_timeout-Within (t ∷ u ∷ us) = (
  omega arith,
  Covers-le (u ∷ us) (max_or u.timeout_ms (max_timeout us)) _ (omega arith)
      (max_timeout-Within (u ∷ us)),
)

All-select :
    (P : AgentTask → Type 0) (p : AgentTask → Bool) (tasks : List AgentTask)
    → All P (select p tasks)
    → All (λ t. p t ≡ true → P t) tasks
All-select P p [] h = tt
All-select P p (t ∷ ts) h = elim (Bool-cases (p t)) [
  | inl e ↦ let h' = rw e at h in ((λ i. h'.0), All-select P p ts h'.1)
  | inr e ↦ let h' = rw e at h in ((λ i. cc), All-select P p ts h')
]

All-both :
    (P Q R : AgentTask → Type 0) (tasks : List AgentTask)
    → ((t : AgentTask) → P t → Q t → R t)
    → All P tasks
    → All Q tasks
    → All R tasks
All-both P Q R [] f h k = tt
All-both P Q R (t ∷ ts) f h k = (f t h.0 k.0, All-both P Q R ts f h.1 k.1)

-- The tasks of the groups take no longer than the groups.
GroupsWithin : List AgentTask → List (List String) → Option ℕ → Type 0
GroupsWithin tasks groups none = Unit
GroupsWithin tasks groups (some n) =
    All (λ t. in_groups groups t.task_id ≡ true → t.timeout_ms ≤ n) tasks

GroupsWithin-plus :
    (tasks : List AgentTask) (g : List String) (gs : List (List String)) (a b : Option ℕ)
    → Within (tasks_in tasks g) a
    → GroupsWithin tasks gs b
    → GroupsWithin tasks (g ∷ gs) (plus a b)
unfolding GroupsWithin
GroupsWithin-plus tasks g gs none b h k = tt
GroupsWithin-plus tasks g gs (some m) none h k = tt
GroupsWithin-plus tasks g gs (some m) (some n) h k =
    All-both _ _ _ tasks
      (λ t i j e. elim (Bool-cases (includes t.task_id g)) [
        | inl p ↦ omega (arith, i p)
        | inr p ↦ omega (arith, j (rw p at e))
      ])
      (All-select (λ t. t.timeout_ms ≤ m) (λ t. includes t.task_id g) tasks h) k

group_timeouts-GroupsWithin :
    (tasks : List AgentTask) (groups : List (List String))
    → GroupsWithin tasks groups (group_timeouts tasks groups)
unfolding GroupsWithin
group_timeouts-GroupsWithin tasks [] = none_grouped tasks
  where
    none_grouped : (ts : List AgentTask) → All (λ t. false ≡ true → t.timeout_ms ≤ 0) ts
    none_grouped [] = tt
    none_grouped (t ∷ ts) = ((λ h. cc h), none_grouped ts)
group_timeouts-GroupsWithin tasks (g ∷ gs) =
    GroupsWithin-plus tasks g gs (max_timeout (tasks_in tasks g)) (group_timeouts tasks gs)
      (max_timeout-Within (tasks_in tasks g)) (group_timeouts-GroupsWithin tasks gs)

mixed-Within :
    (tasks : List AgentTask) (groups : List (List String)) (b : Option ℕ)
    → GroupsWithin tasks groups b
    → Within tasks (plus (some (timeouts (select (λ t. not (in_groups groups t.task_id)) tasks))) b)
unfolding GroupsWithin
mixed-Within tasks groups none h = tt
mixed-Within tasks groups (some n) h =
    let others = select (λ t. not (in_groups groups t.task_id)) tasks in
    All-both _ _ _ tasks
      (λ t i j. elim (Bool-cases (in_groups groups t.task_id)) [
        | inl p ↦ omega (arith, j p)
        | inr p ↦ omega (arith, i (rw p refl))
      ])
      (All-select (λ t. t.timeout_ms ≤ timeouts others) (λ t. not (in_groups groups t.task_id))
        tasks (timeouts-Covers others))
      h

with_overhead-Within :
    (overhead : ℕ → ℕ) (tasks : List AgentTask) (o : Option ℕ)
    → ((n : ℕ) → n ≤ overhead n)
    → Within tasks o
    → Within tasks (with_overhead overhead o)
with_overhead-Within overhead tasks none up h = tt
with_overhead-Within overhead tasks (some n) up h = Covers-le tasks n (overhead n) (up n) h

-- If adding the overhead makes no number smaller, then in every mode `estimate`, where it is
-- finite, is at least the timeout of each task of the plan.
pub estimate-Within :
    (overhead : ℕ → ℕ) (mode : ExecutionMode) (tasks : List AgentTask) (groups : List (List String))
    → ((n : ℕ) → n ≤ overhead n)
    → Within tasks (estimate overhead mode tasks groups)
unfolding estimate
estimate-Within overhead sequential tasks groups up =
    with_overhead-Within overhead tasks (some (timeouts tasks)) up (timeouts-Covers tasks)
estimate-Within overhead parallel tasks groups up =
    with_overhead-Within overhead tasks (max_timeout tasks) up (max_timeout-Within tasks)
estimate-Within overhead mixed tasks groups up = with_overhead-Within overhead tasks _ up (
    mixed-Within tasks groups (group_timeouts tasks groups)
      (group_timeouts-GroupsWithin tasks groups))
