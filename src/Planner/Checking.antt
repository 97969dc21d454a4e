-- ===== src/Planner/Checking.antt =====
-- backend/services/ai-kernel/src/agents/planner/agent-planner.ts: `validatePlan`. The messages are
-- values. Only here a timeout may be below zero: the timeouts that are tested are integers, given
-- apart from the plan, whose own fields, natural numbers, are those of the estimate.
pub mod Laws
use nexus_ai_workspace.Common.{
  ℕ, String, Bool, true, false, not, List, [], ◌∷◌, ◌++◌, Option, none, some, includes,
  if◌then◌else◌, ltb, ◌==◌,
}
use nexus_ai_workspace.Common.Integers.{ℤ, less, is_positive}
use nexus_ai_workspace.Task.{AgentTask, TaskDependency}
use nexus_ai_workspace.Planner.{has_circular_dependencies}
use nexus_ai_workspace.Planner.Groups.{has_conflicting_dependencies}
use nexus_ai_workspace.Planner.Plan.{AgentPlan, ids_of}
use nexus_ai_workspace.Planner.Planning.{tasks_in, estimate}

pub data PlanError : Type 0 where
  no_tasks circular_dependencies plan_timeout : PlanError
  unknown_dependency : (task dependency : String) → PlanError
  unknown_in_order unknown_in_group task_timeout : String → PlanError

pub data PlanWarning : Type 0 where
  conflicting_group : List String → PlanWarning
  long_timeout : String → PlanWarning

-- `timeoutMs` of the plan and of its tasks.
pub record Timeouts : Type 0 where
  pub of_plan : ℤ
  pub of_task : AgentTask → ℤ

pub record PlanValidationResult : Type 0 where
  pub valid : Bool
  pub errors : List PlanError
  pub warnings : List PlanWarning
  pub estimated_duration_ms : Option ℕ

abbrev pub error_if : Bool → PlanError → List PlanError
error_if true e = e ∷ []
error_if false e = []

-- The errors of a loop over ids that are to be the ids of tasks.
unfoldable pub unknown : (String → PlanError) → (known ids : List String) → List PlanError
unknown e known [] = []
unknown e known (id ∷ ids) = error_if (not (includes id known)) (e id) ++ unknown e known ids

abbrev pub dependency_ids : List TaskDependency → List String
dependency_ids [] = []
dependency_ids (d ∷ ds) = d.task_id ∷ dependency_ids ds

unfoldable pub check_dependencies : List String → List AgentTask → List PlanError
check_dependencies known [] = []
check_dependencies known (t ∷ ts) =
    unknown (unknown_dependency t.task_id) known (dependency_ids t.dependencies)
    ++ check_dependencies known ts

unfoldable pub check_groups : List String → List (List String) → List PlanError
check_groups known [] = []
check_groups known (g ∷ gs) = unknown unknown_in_group known g ++ check_groups known gs

abbrev pub warning_if : Bool → PlanWarning → List PlanWarning
warning_if true w = w ∷ []
warning_if false w = []

abbrev pub group_warnings : List AgentTask → List (List String) → List PlanWarning
group_warnings tasks [] = []
group_warnings tasks (g ∷ gs) =
    warning_if (has_conflicting_dependencies (tasks_in tasks g)) (conflicting_group g)
    ++ group_warnings tasks gs

unfoldable pub check_timeouts : (AgentTask → ℤ) → List AgentTask → List PlanError
check_timeouts timeout [] = []
check_timeouts timeout (t ∷ ts) =
    error_if (not (is_positive (timeout t))) (task_timeout t.task_id) ++ check_timeouts timeout ts

abbrev pub timeout_warnings : Timeouts → List AgentTask → List PlanWarning
timeout_warnings times [] = []
timeout_warnings times (t ∷ ts) =
    warning_if (less times.of_plan (times.of_task t)) (long_timeout t.task_id)
    ++ timeout_warnings times ts

abbrev pub is_empty : List AgentTask → Bool
is_empty [] = true
is_empty (t ∷ ts) = false

unfoldable pub plan_errors : Timeouts → AgentPlan → List PlanError
plan_errors times p =
    let known = ids_of p.tasks in
    error_if (is_empty p.tasks) no_tasks
    ++ (check_dependencies known p.tasks
        ++ (error_if (has_circular_dependencies p.tasks) circular_dependencies
            ++ (unknown unknown_in_order known p.task_order
                ++ (check_groups known p.parallel_groups
                    ++ (error_if (not (is_positive times.of_plan)) plan_timeout
                        ++ check_timeouts times.of_task p.tasks)))))

abbrev pub no_errors : List PlanError → Bool
no_errors [] = true
no_errors (e ∷ es) = false

unfoldable pub validate_plan : (ℕ → ℕ) → Timeouts → AgentPlan → PlanValidationResult
validate_plan overhead times p = record {
  valid = no_errors (plan_errors times p);
  errors = plan_errors times p;
  warnings = group_warnings p.tasks p.parallel_groups ++ timeout_warnings times p.tasks;
  estimated_duration_ms = estimate overhead p.execution_mode p.tasks p.parallel_groups;
}
