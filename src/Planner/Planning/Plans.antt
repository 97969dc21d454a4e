-- ===== src/Planner/Planning/Plans.antt =====
-- The plans that `createPlan` of AgentPlanner returns.
use nexus_ai_workspace.Common.{
  ℕ, suc, String, ◌≡◌, refl, sym, ap, ◌∙◌, subst, true, List, [], ◌∷◌, ◌++◌, Option, ◌⊎◌, inl, inr,
  ◌+◌, ◌≢◌, All, All-map, length, includes, arith, ===_refl,
}
use nexus_ai_workspace.Task.{AgentTask}
use nexus_ai_workspace.Planner.{Visit, done, circular, out_of_fuel, topological_sort}
use nexus_ai_workspace.Planner.Plan
use nexus_ai_workspace.Planner.Plan.{
  AgentPlan, AgentPlanBuilder, BuildError, ExecutionMode, sequential, parallel, mixed, ids_of,
}
use nexus_ai_workspace.Planner.Plan.Laws.{Built, AreTasks, IsFrom, build-IsFrom}
use nexus_ai_workspace.Planner.Planning.{
  PlannerError, PlanningRequest, TaskData, ExecutionPlan, and_then, plan_built, sorted_plan,
  build_execution_plan, create_task, create_tasks, estimate_new, estimate_object, add_groups,
  assemble, plan_for, create_plan, or_else, number_or, text_or, default_max_concurrency,
  default_timeout_ms,
}

and_then-Built :
    {A : Type 0} {R : Type 0} (Q : A → Type 0) (P : R → Type 0) (r : PlannerError ⊎ A)
    (next : A → PlannerError ⊎ R)
    → Built Q r
    → ((x : A) → Q x → Built P (next x))
    → Built P (and_then r next)
and_then-Built Q P (inl e) next h k = tt
and_then-Built Q P (inr x) next h k = k x h

any : {A : Type 0} (x : PlannerError ⊎ A) → Built (λ (y : A). Unit) x
any (inl e) = tt
any (inr x) = tt

includes-weaken :
    (known ids : List String) (x : String)
    → All (λ id. includes id known ≡ true) ids
    → All (λ id. includes id (x ∷ known) ≡ true) ids
unfolding includes
includes-weaken known ids x h = All-map _ _ ids (λ id k. ground (arith, k)) h

self_known : (ids : List String) → All (λ id. includes id ids ≡ true) ids
unfolding includes
self_known [] = tt
self_known (x ∷ xs) = (ground (arith, ===_refl x), includes-weaken xs xs x (self_known xs))

-- The groups of an execution plan hold ids of tasks.
abbrev GroupsKnown : List AgentTask → ExecutionPlan → Type 0
GroupsKnown tasks e = All (AreTasks tasks) e.1

sorted_plan-Built : (tasks : List AgentTask) (v : Visit) → Built (GroupsKnown tasks) (sorted_plan v)
sorted_plan-Built tasks (done w) = tt
sorted_plan-Built tasks circular = tt
sorted_plan-Built tasks out_of_fuel = tt

build_execution_plan-Built :
    (tasks : List AgentTask) (mode : ExecutionMode)
    → Built (GroupsKnown tasks) (build_execution_plan tasks mode)
unfolding build_execution_plan
build_execution_plan-Built tasks sequential = sorted_plan-Built tasks (topological_sort tasks)
build_execution_plan-Built tasks parallel = (self_known (ids_of tasks), tt)
build_execution_plan-Built tasks mixed = sorted_plan-Built tasks (topological_sort tasks)

module _ (overhead : ℕ → ℕ) (show : ℕ → String) where
  create_tasks-length :
      (r : PlanningRequest) (plan_id : String) (now i : ℕ) (data_of : List TaskData)
      → Built
          (λ ts. length ts ≡ length data_of)
          (create_tasks overhead show r plan_id now i data_of)
  create_tasks-length r plan_id now i [] = refl
  create_tasks-length r plan_id now i (t ∷ ts) =
      and_then-Built (λ x. Unit) _ (create_task overhead show r plan_id now i t) _
        (any (create_task overhead show r plan_id now i t))
        (λ x _.
          and_then-Built (λ xs. length xs ≡ length ts) _
            (create_tasks overhead show r plan_id now (i + 1) ts) _
            (create_tasks-length r plan_id now (i + 1) ts) (λ xs e. ap suc e))

  -- What `createPlan` promises of a plan.
  pub record IsPlanned (r : PlanningRequest) (p : AgentPlan) : Type 0 where
    pub all_tasks : length p.tasks ≡ length r.tasks
    pub counted : p.metrics.total_tasks ≡ length p.tasks
    pub order_known : AreTasks p.tasks p.task_order
    pub groups_known : All (AreTasks p.tasks) p.parallel_groups

  plan_built-Built :
      (P : AgentPlan → Type 0) (x : BuildError ⊎ AgentPlan) → Built P x → Built P (plan_built x)
  plan_built-Built P (inl e) h = tt
  plan_built-Built P (inr p) h = h

  -- A plan before its groups are added.
  abbrev Assembled : List AgentTask → AgentPlan → Type 0
  Assembled tasks p =
      (p.tasks ≡ tasks)
      × (p.metrics.total_tasks ≡ length tasks)
      × AreTasks tasks p.task_order
      × (p.parallel_groups ≡ [])

  Built-map :
      {E : Type 0} (P Q : AgentPlan → Type 0) (x : E ⊎ AgentPlan)
      → ((p : AgentPlan) → P p → Q p)
      → Built P x
      → Built Q x
  Built-map P Q (inl e) f h = tt
  Built-map P Q (inr p) f h = f p h

  abbrev builder_of :
      PlanningRequest → String → ℕ → List AgentTask → List String → Option ℕ → AgentPlanBuilder
  builder_of r plan_id now tasks order estimated = Plan.add_metadata (or_else [] r.metadata) (
      Plan.set_estimated_duration estimated (
        Plan.set_max_concurrency (number_or default_max_concurrency r.max_concurrency) (
          Plan.set_timeout (number_or default_timeout_ms r.timeout_ms) (
            Plan.set_task_order order (
              Plan.add_tasks tasks (
                Plan.set_execution_mode (or_else sequential r.execution_mode) (
                  Plan.set_priority r.priority (
                    Plan.set_state Plan.draft (
                      Plan.set_description (text_or "" r.description) (
                        Plan.set_name r.name (
                          Plan.set_trace_id r.trace_id (
                            Plan.set_request_id r.request_id (
                              Plan.set_workspace_id r.workspace_id (
                                Plan.set_agent_id r.agent_id
                                  (Plan.set_plan_id plan_id (Plan.create now))))))))))))))))

  assemble-Built :
      (r : PlanningRequest) (plan_id : String) (now : ℕ) (tasks : List AgentTask)
      (order : List String) (estimated : Option ℕ)
      → Built (Assembled tasks) (assemble overhead show r plan_id now tasks order estimated)
  unfolding Plan.add_metadata Plan.set_estimated_duration Plan.set_max_concurrency Plan.set_timeout
      Plan.set_task_order Plan.add_tasks Plan.set_execution_mode Plan.set_priority Plan.set_state
      Plan.set_description Plan.set_name Plan.set_trace_id Plan.set_request_id Plan.set_workspace_id
      Plan.set_agent_id Plan.set_plan_id Plan.create
  assemble-Built r plan_id now tasks order estimated =
      let b = builder_of r plan_id now tasks order estimated in
      plan_built-Built (Assembled tasks) (Plan.build b) (
        Built-map (IsFrom b) (Assembled tasks) (Plan.build b)
          (λ p f. (
            f.tasks,
            ap (λ m. m.total_tasks) f.metrics,
            subst (AreTasks tasks) (sym f.order) f.order_known,
            f.groups,
          ))
          (build-IsFrom b))

  module _ (r : PlanningRequest) (plan_id : String) (now : ℕ) where
    with_groups :
        (tasks : List AgentTask) (groups : List (List String)) (p : AgentPlan)
        → length tasks ≡ length r.tasks
        → All (AreTasks tasks) groups
        → Assembled tasks p
        → IsPlanned r (add_groups groups p)
    with_groups tasks groups p n g (same, total, order, empty) = record {
      all_tasks = ap length same ∙ n;
      counted = total ∙ sym (ap length same);
      order_known = subst (λ ts. AreTasks ts p.task_order) (sym same) order;
      groups_known =
          subst (λ ts. All (AreTasks ts) (p.parallel_groups ++ groups)) (sym same)
            (subst (λ gs. All (AreTasks tasks) (gs ++ groups)) (sym empty) g);
    }

    plan_for-Built :
        (tasks : List AgentTask) (e : ExecutionPlan)
        → length tasks ≡ length r.tasks
        → GroupsKnown tasks e
        → Built (IsPlanned r) (plan_for overhead show r plan_id now tasks e)
    plan_for-Built tasks (order, groups) n g =
        and_then-Built (λ x. Unit) (IsPlanned r)
          (estimate_new overhead show (or_else sequential r.execution_mode) tasks) _
          (any (estimate_new overhead show (or_else sequential r.execution_mode) tasks))
          (λ estimated _.
            and_then-Built (Assembled tasks) (IsPlanned r)
              (assemble overhead show r plan_id now tasks order estimated) _
              (assemble-Built r plan_id now tasks order estimated)
              (λ p a. with_groups tasks groups p n g a))

    -- A plan that `createPlan` returns has one task for each task of the request and counts them
    -- right, and every id in its order and in its parallel groups is the id of one of its tasks.
    pub create_plan-IsPlanned : Built (IsPlanned r) (create_plan overhead show r plan_id now)
    unfolding create_plan
    create_plan-IsPlanned =
        and_then-Built (λ ts. length ts ≡ length r.tasks) (IsPlanned r)
          (create_tasks overhead show r plan_id now 0 r.tasks) _
          (create_tasks-length r plan_id now 0 r.tasks)
          (λ tasks n.
            and_then-Built (GroupsKnown tasks) (IsPlanned r)
              (build_execution_plan tasks (or_else sequential r.execution_mode)) _
              (build_execution_plan-Built tasks (or_else sequential r.execution_mode))
              (λ e g. plan_for-Built tasks e n g))

    plan_for_mixed-Built :
        (tasks : List AgentTask) (e : ExecutionPlan)
        (mode : or_else sequential r.execution_mode ≡ mixed)
        → Built (λ p. ⊥) (plan_for overhead show r plan_id now tasks e)
    unfolding estimate_object
    plan_for_mixed-Built tasks (order, groups) mode = rw mode tt

    -- `createPlan` never returns a plan for a request in the mode MIXED: it throws.
    pub create_plan_mixed-throws :
        or_else sequential r.execution_mode ≡ mixed
        → (p : AgentPlan) → create_plan overhead show r plan_id now ≢ inr p
    unfolding create_plan
    create_plan_mixed-throws mode p h =
        let never : Built (λ (q : AgentPlan). ⊥) (create_plan overhead show r plan_id now) =
          and_then-Built (λ x. Unit) (λ q. ⊥) (create_tasks overhead show r plan_id now 0 r.tasks) _
            (any (create_tasks overhead show r plan_id now 0 r.tasks))
            (λ tasks _.
              and_then-Built (λ x. Unit) (λ q. ⊥)
                (build_execution_plan tasks (or_else sequential r.execution_mode)) _
                (any (build_execution_plan tasks (or_else sequential r.execution_mode)))
                (λ e _. plan_for_mixed-Built tasks e mode)) in
        subst (Built (λ (q : AgentPlan). ⊥)) h never
