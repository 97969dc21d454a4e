-- ===== src/Planner/Planning.antt =====
-- backend/services/ai-kernel/src/agents/planner/agent-planner.ts: the methods of AgentPlanner.
-- Parameters are `overhead n`, which is `Math.ceil(n * 1.1)` in floating point, and `show`, the
-- decimal text of a number; random ids and times are arguments. Without numbers `Math.max` is
-- `-Infinity`, here none.
pub mod Sorting
pub mod Estimates
pub mod Plans
use nexus_ai_workspace.Common.{
  ℕ, zero, suc, String, Bool, true, false, not, List, [], ◌∷◌, ◌++◌, Option, none, some, ◌⊎◌, inl,
  inr, ◌+◌, ◌*◌, ◌/◌, max, length, includes, if◌then◌else◌, map, ltb, leb, ◌==◌, ◌===◌, ◌&&◌, ◌||◌,
  select, insert_before, some_of,
}
use Prim.Native.String.{◌++◌ as text_append}
use nexus_ai_workspace.Common.Map.{Map, values, set}
use nexus_ai_workspace.Priority.{AgentPriority, priority_order}
use nexus_ai_workspace.Values.{Value, Metadata, text, texts, date, flag}
use nexus_ai_workspace.Task.{
  AgentTask, TaskType, TaskState, RetryStrategy, TaskDependency, execution, communication, memory,
  analysis, coordination, pending,
}
use nexus_ai_workspace.Task.Builder
use nexus_ai_workspace.Planner.{
  Visit, done, circular, out_of_fuel, topological_sort, has_circular_dependencies, task_map,
}
use nexus_ai_workspace.Planner.Groups.{has_conflicting_dependencies, get_highest_priority}
use nexus_ai_workspace.Planner.Plan
use nexus_ai_workspace.Planner.Plan.{
  AgentPlan, PlanState, ExecutionMode, BuildError, draft, sequential, parallel, mixed, ids_of,
}

-- The task data of a request; a field that is absent is none.
pub record TaskData : Type 0 where
  pub task_id : Option String
  pub name : Option String
  pub description : Option String
  pub type : Option TaskType
  pub state : Option TaskState
  pub priority : Option AgentPriority
  pub input : Option Value
  pub timeout_ms : Option ℕ
  pub metadata : Option Metadata

pub record PlanningRequest : Type 0 where
  pub agent_id : String
  pub workspace_id : String
  pub request_id : String
  pub trace_id : String
  pub name : String
  pub description : Option String
  pub priority : AgentPriority
  pub tasks : List TaskData
  pub execution_mode : Option ExecutionMode
  pub max_concurrency : Option ℕ
  pub timeout_ms : Option ℕ
  pub metadata : Option Metadata

-- What a method of the planner throws.
pub data PlannerError : Type 0 where
  task_field_required : String → PlannerError
  build_failed : BuildError → PlannerError
  circular_dependency no_parallel_groups no_plans : PlannerError

-- `x || other`, where an empty text and zero count as absent.
abbrev pub text_or : String → Option String → String
text_or other none = other
text_or other (some s) = if s === "" then other else s

abbrev pub number_or : ℕ → Option ℕ → ℕ
number_or other none = other
number_or other (some zero) = other
number_or other (some (suc n)) = suc n

abbrev pub or_else {ℓ} : {A : Type ℓ} → A → Option A → A
or_else other none = other
or_else other (some x) = x

abbrev pub default_timeout_ms : ℕ
default_timeout_ms = 300000

abbrev pub default_max_concurrency : ℕ
default_max_concurrency = 5

abbrev pub timeouts : List AgentTask → ℕ
timeouts [] = 0
timeouts (t ∷ ts) = t.timeout_ms + timeouts ts

-- `Math.max(...tasks.map(t => t.timeoutMs))`
abbrev pub max_or : ℕ → Option ℕ → ℕ
max_or n none = n
max_or n (some m) = max n m

abbrev pub max_timeout : List AgentTask → Option ℕ
max_timeout [] = none
max_timeout (t ∷ ts) = some (max_or t.timeout_ms (max_timeout ts))

abbrev pub plus : Option ℕ → Option ℕ → Option ℕ
plus none y = none
plus (some m) none = none
plus (some m) (some n) = some (m + n)

abbrev pub tasks_in : List AgentTask → List String → List AgentTask
tasks_in tasks group = select (λ t. includes t.task_id group) tasks

abbrev pub group_timeouts : List AgentTask → List (List String) → Option ℕ
group_timeouts tasks [] = some 0
group_timeouts tasks (g ∷ gs) = plus (max_timeout (tasks_in tasks g)) (group_timeouts tasks gs)

abbrev pub in_groups : List (List String) → String → Bool
in_groups groups id = some_of (includes id) groups

abbrev pub with_overhead : (ℕ → ℕ) → Option ℕ → Option ℕ
with_overhead overhead none = none
with_overhead overhead (some n) = some (overhead n)

-- `estimate` reads the mode, the tasks and the groups of a plan.
unfoldable pub estimate : (ℕ → ℕ) → ExecutionMode → List AgentTask → List (List String) → Option ℕ
estimate overhead sequential tasks groups = some (overhead (timeouts tasks))
estimate overhead parallel tasks groups = with_overhead overhead (max_timeout tasks)
estimate overhead mixed tasks groups =
    let others = select (λ t. not (in_groups groups t.task_id)) tasks in
    with_overhead overhead (plus (some (timeouts others)) (group_timeouts tasks groups))

-- The same for an object whose field `parallelGroups` may be absent: the mode MIXED reads the
-- field.
unfoldable pub estimate_object :
    (ℕ → ℕ) → ExecutionMode → List AgentTask → Option (List (List String)) → PlannerError ⊎ Option ℕ
estimate_object overhead mode tasks (some groups) = inr (estimate overhead mode tasks groups)
estimate_object overhead mixed tasks none = inl no_parallel_groups
estimate_object overhead mode tasks none = inr (estimate overhead mode tasks [])

-- The comparison of `prioritize` is negative.
unfoldable pub goes_first : AgentTask → AgentTask → Bool
goes_first a b =
    if not (priority_order a.priority == priority_order b.priority)
    then ltb (priority_order a.priority) (priority_order b.priority)
    else if not (length a.dependencies == length b.dependencies)
    then ltb (length a.dependencies) (length b.dependencies)
    else ltb a.metrics.created_at b.metrics.created_at

-- `Array.prototype.sort`, which is stable: each task goes before the first one that it goes first
-- of.
abbrev pub sort_into : List AgentTask → List AgentTask → List AgentTask
sort_into sorted [] = sorted
sort_into sorted (t ∷ ts) = sort_into (insert_before (goes_first t) t sorted) ts

unfoldable pub prioritize : List AgentTask → List AgentTask
prioritize tasks = sort_into [] tasks

-- The order and the groups of `buildExecutionPlan`.
abbrev pub ExecutionPlan : Type 0
ExecutionPlan = List String × List (List String)

abbrev pub sorted_plan : Visit → PlannerError ⊎ ExecutionPlan
sorted_plan (done w) = inr (w.result, [])
sorted_plan circular = inl circular_dependency
sorted_plan out_of_fuel = inl circular_dependency

unfoldable pub build_execution_plan : List AgentTask → ExecutionMode → PlannerError ⊎ ExecutionPlan
build_execution_plan tasks mode = elim mode [
  | parallel ↦ inr ([], ids_of tasks ∷ [])
  | _ ↦ sorted_plan (topological_sort tasks)
]

-- The statements after one that may throw.
abbrev pub and_then {ℓ κ} :
    {A : Type ℓ} {B : Type κ} → PlannerError ⊎ A → (A → PlannerError ⊎ B) → PlannerError ⊎ B
and_then (inl e) next = inl e
and_then (inr x) next = next x

abbrev pub task_built : String ⊎ AgentTask → PlannerError ⊎ AgentTask
task_built (inl field) = inl (task_field_required field)
task_built (inr t) = inr t

abbrev pub plan_built : BuildError ⊎ AgentPlan → PlannerError ⊎ AgentPlan
plan_built (inl e) = inl (build_failed e)
plan_built (inr p) = inr p

abbrev pub with_input : Option Value → Builder.AgentTaskBuilder → Builder.AgentTaskBuilder
with_input none b = b
with_input (some v) b = Builder.set_input v b

abbrev pub add_groups : List (List String) → AgentPlan → AgentPlan
add_groups groups p = record p { parallel_groups = p.parallel_groups ++ groups }

module _ (overhead : ℕ → ℕ) (show : ℕ → String) where
  unfoldable pub create_task :
      PlanningRequest → (plan_id : String) → (now index : ℕ) → TaskData → PlannerError ⊎ AgentTask
  create_task r plan_id now i t =
      let id = text_or (text_append plan_id (text_append "_task_" (show i))) t.task_id in
      task_built (
        Builder.build (
          Builder.add_metadata (or_else [] t.metadata) (
            Builder.set_timeout (number_or default_timeout_ms t.timeout_ms) (
              with_input t.input (
                Builder.set_priority (or_else r.priority t.priority) (
                  Builder.set_state (or_else pending t.state) (
                    Builder.set_type (or_else execution t.type) (
                      Builder.set_description (text_or "" t.description) (
                        Builder.set_name (text_or (text_append "Task " (show (i + 1))) t.name) (
                          Builder.set_trace_id r.trace_id (
                            Builder.set_request_id r.request_id (
                              Builder.set_workspace_id r.workspace_id (
                                Builder.set_agent_id r.agent_id
                                  (Builder.set_task_id id (Builder.create now)))))))))))))))

  abbrev pub create_tasks :
      PlanningRequest
      → (plan_id : String) → (now index : ℕ) → List TaskData
      → PlannerError ⊎ List AgentTask
  create_tasks r plan_id now i [] = inr []
  create_tasks r plan_id now i (t ∷ ts) =
      and_then (create_task r plan_id now i t) (λ (task : AgentTask).
        and_then (create_tasks r plan_id now (i + 1) ts)
          (λ (tasks : List AgentTask). inr (task ∷ tasks)))

  -- `estimate` in `createPlan`: the object that it gets has no groups.
  abbrev pub estimate_new : ExecutionMode → List AgentTask → PlannerError ⊎ Option ℕ
  estimate_new mode tasks = estimate_object overhead mode tasks none

  abbrev pub assemble :
      PlanningRequest
      → (plan_id : String) → (now : ℕ) → List AgentTask
      → List String
      → Option ℕ
      → PlannerError ⊎ AgentPlan
  assemble r plan_id now tasks order estimated = plan_built (
      Plan.build (
        Plan.add_metadata (or_else [] r.metadata) (
          Plan.set_estimated_duration estimated (
            Plan.set_max_concurrency (number_or default_max_concurrency r.max_concurrency) (
              Plan.set_timeout (number_or default_timeout_ms r.timeout_ms) (
                Plan.set_task_order order (
                  Plan.add_tasks tasks (
                    Plan.set_execution_mode (or_else sequential r.execution_mode) (
                      Plan.set_priority r.priority (
                        Plan.set_state draft (
                          Plan.set_description (text_or "" r.description) (
                            Plan.set_name r.name (
                              Plan.set_trace_id r.trace_id (
                                Plan.set_request_id r.request_id (
                                  Plan.set_workspace_id r.workspace_id (
                                    Plan.set_agent_id r.agent_id
                                      (Plan.set_plan_id plan_id (Plan.create now))))))))))))))))))

  abbrev pub plan_for :
      PlanningRequest
      → (plan_id : String) → (now : ℕ) → List AgentTask
      → ExecutionPlan
      → PlannerError ⊎ AgentPlan
  plan_for r plan_id now tasks (order, groups) =
      and_then (estimate_new (or_else sequential r.execution_mode) tasks) (λ (estimated : Option ℕ).
        and_then (assemble r plan_id now tasks order estimated)
          (λ (p : AgentPlan). inr (add_groups groups p)))

  unfoldable pub create_plan :
      PlanningRequest → (plan_id : String) → (now : ℕ) → PlannerError ⊎ AgentPlan
  create_plan r plan_id now =
      and_then (create_tasks r plan_id now 0 r.tasks) (λ (tasks : List AgentTask).
        and_then (build_execution_plan tasks (or_else sequential r.execution_mode))
          (plan_for r plan_id now tasks))
