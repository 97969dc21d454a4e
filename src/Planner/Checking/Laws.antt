-- ===== src/Planner/Checking/Laws.antt =====
-- What a plan that `validatePlan` finds valid is.
use nexus_ai_workspace.Common.{
  arith, zero, suc, not, ℕ, String, ◌≡◌, ◌↔◌, refl, Bool, true, false, List, [], ◌∷◌, ◌++◌,
  includes, All, Bool-cases, inl, inr,
}
use nexus_ai_workspace.Common.Integers.{ℤ, pos, negsuc, is_positive}
use nexus_ai_workspace.Task.{AgentTask}
use nexus_ai_workspace.Planner.{has_circular_dependencies}
use nexus_ai_workspace.Planner.Plan.{AgentPlan, ids_of}
use nexus_ai_workspace.Planner.Checking.{
  Timeouts, PlanError, error_if, unknown, dependency_ids, check_dependencies, check_groups,
  check_timeouts, is_empty, plan_errors, no_errors, validate_plan, unknown_dependency,
  unknown_in_group,
}

append-empty : (xs ys : List PlanError) → (xs ++ ys ≡ []) ↔ ((xs ≡ []) × (ys ≡ []))
append-empty [] ys = ((λ h. (refl, h)), λ h. h.1)
append-empty (x ∷ xs) ys = ((λ h. cc h), λ h. cc (h.0))

error_if-empty : (b : Bool) (e : PlanError) → (error_if b e ≡ []) ↔ (b ≡ false)
error_if-empty true e = ((λ h. cc h), λ h. cc h)
error_if-empty false e = ((λ h. refl), λ h. refl)

-- Every id is one of the known ids.
abbrev pub AreKnown : (known ids : List String) → Type 0
AreKnown known ids = All (λ id. includes id known ≡ true) ids

unknown-empty :
    (e : String → PlanError) (known ids : List String)
    → (unknown e known ids ≡ []) ↔ AreKnown known ids
unfolding unknown
unknown-empty e known [] = ((λ h. tt), λ h. refl)
unknown-empty e known (id ∷ ids) =
    let (there, back) = unknown-empty e known ids in
    elim (Bool-cases (includes id known)) [
      | inl p ↦ ((λ h. (p, there (rw p at h))), λ h. rw p (back h.1))
      | inr p ↦ ((λ h. let h' = rw p at h in cc), λ h. cc (p, h.0))
    ]

check_dependencies-empty :
    (known : List String) (ts : List AgentTask)
    → (check_dependencies known ts ≡ [])
      ↔ All (λ t. AreKnown known (dependency_ids t.dependencies)) ts
unfolding check_dependencies
check_dependencies-empty known [] = ((λ h. tt), λ h. refl)
check_dependencies-empty known (t ∷ ts) =
    let (there, back) = check_dependencies-empty known ts in
    let (into, out) =
      unknown-empty (unknown_dependency t.task_id) known (dependency_ids t.dependencies) in
    let (apart, join) =
      append-empty (unknown (unknown_dependency t.task_id) known (dependency_ids t.dependencies))
        (check_dependencies known ts) in
    ((λ h. (into (apart h).0, there (apart h).1)), λ h. join (out h.0, back h.1))

check_groups-empty :
    (known : List String) (gs : List (List String))
    → (check_groups known gs ≡ []) ↔ All (AreKnown known) gs
unfolding check_groups
check_groups-empty known [] = ((λ h. tt), λ h. refl)
check_groups-empty known (g ∷ gs) =
    let (there, back) = check_groups-empty known gs in
    let (into, out) = unknown-empty unknown_in_group known g in
    let (apart, join) = append-empty (unknown unknown_in_group known g) (check_groups known gs) in
    ((λ h. (into (apart h).0, there (apart h).1)), λ h. join (out h.0, back h.1))

-- The integer is above zero.
abbrev pub IsPositive : ℤ → Type 0
IsPositive z = (n : ℕ) × (z ≡ pos (suc n))

is_positive_iff : (z : ℤ) → (not (is_positive z) ≡ false) ↔ IsPositive z
unfolding is_positive
is_positive_iff (pos zero) = ((λ h. cc h), λ h. cc (h.1))
is_positive_iff (pos (suc n)) = ((λ h. (n, refl)), λ h. ground arith)
is_positive_iff (negsuc n) = ((λ h. cc h), λ h. cc (h.1))

check_timeouts-empty :
    (timeout : AgentTask → ℤ) (ts : List AgentTask)
    → (check_timeouts timeout ts ≡ []) ↔ All (λ t. IsPositive (timeout t)) ts
unfolding check_timeouts
check_timeouts-empty timeout [] = ((λ h. tt), λ h. refl)
check_timeouts-empty timeout (t ∷ ts) =
    let (there, back) = check_timeouts-empty timeout ts in
    let (apart, join) =
      append-empty (error_if (not (is_positive (timeout t))) _) (check_timeouts timeout ts) in
    let (none, some_error) = error_if-empty (not (is_positive (timeout t))) _ in
    let (into, out) = is_positive_iff (timeout t) in
    (
      (λ h. (into (none (apart h).0), there (apart h).1)),
      λ h. join (some_error (out h.0), back h.1),
    )

-- What `validatePlan` asks of a plan.
abbrev pub IsSound : Timeouts → AgentPlan → Type 0
IsSound times p =
    (is_empty p.tasks ≡ false)
    × All (λ t. AreKnown (ids_of p.tasks) (dependency_ids t.dependencies)) p.tasks
    × (has_circular_dependencies p.tasks ≡ false)
    × AreKnown (ids_of p.tasks) p.task_order
    × All (AreKnown (ids_of p.tasks)) p.parallel_groups
    × IsPositive times.of_plan
    × All (λ t. IsPositive (times.of_task t)) p.tasks

no_errors_iff : (es : List PlanError) → (no_errors es ≡ true) ↔ (es ≡ [])
no_errors_iff [] = ((λ h. refl), λ h. refl)
no_errors_iff (e ∷ es) = ((λ h. cc h), λ h. cc h)

plan_errors_iff : (times : Timeouts) (p : AgentPlan) → (plan_errors times p ≡ []) ↔ IsSound times p
unfolding plan_errors
plan_errors_iff times p =
    let known = ids_of p.tasks in
    let (a0, j0) = append-empty (error_if (is_empty p.tasks) _) _ in
    let (a1, j1) = append-empty (check_dependencies known p.tasks) _ in
    let (a2, j2) = append-empty (error_if (has_circular_dependencies p.tasks) _) _ in
    let (a3, j3) = append-empty (unknown _ known p.task_order) _ in
    let (a4, j4) = append-empty (check_groups known p.parallel_groups) _ in
    let (a5, j5) =
      append-empty (error_if (not (is_positive times.of_plan)) _)
        (check_timeouts times.of_task p.tasks) in
    let e0 = error_if-empty (is_empty p.tasks) _ in
    let e1 = check_dependencies-empty known p.tasks in
    let e2 = error_if-empty (has_circular_dependencies p.tasks) _ in
    let e3 = unknown-empty _ known p.task_order in
    let e4 = check_groups-empty known p.parallel_groups in
    let e5 = error_if-empty (not (is_positive times.of_plan)) _ in
    let positive = is_positive_iff times.of_plan in
    let e6 = check_timeouts-empty times.of_task p.tasks in
    (
      (λ h.
          let r1 = (a0 h).1 in
          let r2 = (a1 r1).1 in
          let r3 = (a2 r2).1 in
          let r4 = (a3 r3).1 in
          let r5 = (a4 r4).1 in
          (
            e0.0 (a0 h).0,
            e1.0 (a1 r1).0,
            e2.0 (a2 r2).0,
            e3.0 (a3 r3).0,
            e4.0 (a4 r4).0,
            positive.0 (e5.0 (a5 r5).0),
            e6.0 (a5 r5).1,
          )),
      λ h. j0 (
        e0.1 h.0,
        j1 (
          e1.1 h.1,
          j2 (e2.1 h.2, j3 (e3.1 h.3, j4 (e4.1 h.4, j5 (e5.1 (positive.1 h.5), e6.1 h.6)))),
        ),
      ),
    )

-- `validatePlan` finds a plan valid exactly if it has a task; every dependency, every id of the
-- order and every id of a parallel group is the id of a task of the plan; the test for circular
-- dependencies fails; and the timeouts of the plan and of its tasks, which may be any integers, are
-- above zero.
pub validate_plan_iff :
    (overhead : ℕ → ℕ) (times : Timeouts) (p : AgentPlan)
    → ((validate_plan overhead times p).valid ≡ true) ↔ IsSound times p
unfolding validate_plan
validate_plan_iff overhead times p =
    let (into, out) = no_errors_iff (plan_errors times p) in
    let (there, back) = plan_errors_iff times p in ((λ h. there (into h)), λ h. out (back h))
