-- ===== src/Planner/Examples/Plans.antt =====
-- Requests and plans over the two tasks.
use nexus_ai_workspace.Common.{
  select, ℕ, String, true, [], ◌∷◌, Option, none, some, ◌≡◌, ◌↔◌, ◌+◌, arith,
}
use mathlib.Core.List.{Perm}
use nexus_ai_workspace.Values.{number}
use nexus_ai_workspace.Priority.{normal}
use nexus_ai_workspace.Task.{AgentTask}
use nexus_ai_workspace.Planner.Plan.{AgentPlan, ExecutionMode, draft, mixed}
use nexus_ai_workspace.Planner.Plan.Laws.{Built}
use nexus_ai_workspace.Planner.Planning.{PlanningRequest, prioritize, estimate, create_plan}
use nexus_ai_workspace.Planner.Planning.Sorting.{AreInOrder, ties, prioritize-sorts}
use nexus_ai_workspace.Planner.Planning.Estimates.{Within, estimate-Within}
use nexus_ai_workspace.Planner.Planning.Plans.{IsPlanned, create_plan-IsPlanned}
use nexus_ai_workspace.Planner.Checking.{Timeouts, validate_plan}
use nexus_ai_workspace.Common.Integers.{pos}
use nexus_ai_workspace.Planner.Checking.Laws.{IsSound, validate_plan_iff}
use nexus_ai_workspace.Planner.Examples.{tasks}

abbrev overhead : ℕ → ℕ
overhead n = n + 1

abbrev show : ℕ → String
show n = "n"

abbrev plan : AgentPlan
plan = record {
  plan_id = "p";
  agent_id = "agent";
  workspace_id = "w";
  request_id = "r";
  trace_id = "t";
  name = "plan";
  description = "";
  state = draft;
  priority = normal;
  execution_mode = mixed;
  tasks = tasks;
  task_order = "a" ∷ "b" ∷ [];
  parallel_groups = ("a" ∷ []) ∷ [];
  timeout_ms = 100;
  max_concurrency = 2;
  metadata = [];
  metrics = record {
    created_at = 0;
    validated_at = none;
    started_at = none;
    completed_at = none;
    total_tasks = 2;
    completed_tasks = 0;
    failed_tasks = 0;
    estimated_duration_ms = some 60;
    actual_duration_ms = none;
  };
}

abbrev request : Option ExecutionMode → PlanningRequest
request mode = record {
  agent_id = "agent";
  workspace_id = "w";
  request_id = "r";
  trace_id = "t";
  name = "plan";
  description = none;
  priority = normal;
  tasks =
      record {
        task_id = some "a";
        name = none;
        description = none;
        type = none;
        state = none;
        priority = none;
        input = some (number 1);
        timeout_ms = none;
        metadata = none;
      }
      ∷ [];
  execution_mode = mode;
  max_concurrency = none;
  timeout_ms = none;
  metadata = none;
}

prioritize-sorts_example :
    Perm (prioritize tasks) tasks
    × AreInOrder (prioritize tasks)
    × ((a : AgentTask) → select (ties a) (prioritize tasks) ≡ select (ties a) tasks)
prioritize-sorts_example = prioritize-sorts tasks

estimate-Within_example : Within tasks (estimate overhead mixed tasks (("a" ∷ []) ∷ []))
estimate-Within_example = estimate-Within overhead mixed tasks (("a" ∷ []) ∷ []) (λ n. omega arith)

abbrev times : Timeouts
times = record { of_plan = pos 100; of_task = λ t. pos 30 }

validate_plan_iff_example : ((validate_plan overhead times plan).valid ≡ true) ↔ IsSound times plan
validate_plan_iff_example = validate_plan_iff overhead times plan

create_plan-IsPlanned_example :
    Built (IsPlanned overhead show (request none)) (create_plan overhead show (request none) "p" 0)
create_plan-IsPlanned_example = create_plan-IsPlanned overhead show (request none) "p" 0
