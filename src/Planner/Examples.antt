-- ===== src/Planner/Examples.antt =====
-- Two tasks: "b" depends on "a".
mod Plans
use nexus_ai_workspace.Common.{
  ℕ, String, String_discrete, true, List, [], ◌∷◌, none, ◌≡◌, All, arith, ◌===◌, Bool-cases, inl,
  inr, includes, if◌then◌else◌,
}
use nexus_ai_workspace.Common.Map.{get, set}
use nexus_ai_workspace.Values.{number}
use nexus_ai_workspace.Priority.{high}
use nexus_ai_workspace.Task.{AgentTask, TaskDependency, blocking, pending, execution}
use nexus_ai_workspace.Planner.{Walk, done, task_map, topological_sort}
use nexus_ai_workspace.Planner.Order.{IsOrdered, Ends}
use nexus_ai_workspace.Planner.Order.Visits.{topological_sort-Ends}
use nexus_ai_workspace.Planner.Order.Ranks.{IsRanked, topological_sort-done}

abbrev pub task : String → List TaskDependency → AgentTask
task id deps = record {
  task_id = id;
  agent_id = "agent";
  workspace_id = "w";
  request_id = "r";
  trace_id = "t";
  name = id;
  description = "";
  type = execution;
  state = pending;
  priority = high;
  input = number 0;
  output = none;
  error = none;
  dependencies = deps;
  timeout_ms = 30;
  retry_strategy = record {
    max_attempts = 3;
    backoff_ms = 10;
    backoff_multiplier = 2;
    max_backoff_ms = 80;
  };
  metadata = [];
  metrics = record {
    created_at = 0;
    started_at = none;
    completed_at = none;
    duration = none;
    attempts = 0;
    last_error = none;
  };
}

abbrev pub tasks : List AgentTask
tasks =
    task "b" (record { task_id = "a"; type = blocking; condition = none } ∷ []) ∷ task "a" [] ∷ []

abbrev rank : String → ℕ
rank id = if "b" === id then 1 else 0

tasks-IsRanked : IsRanked rank (task_map tasks [])
unfolding task_map get set String_discrete
tasks-IsRanked id = elim (Bool-cases ("b" === id)) [
  | inl e ↦ rw e (omega arith, tt)
  | inr e ↦ rw e (elim (Bool-cases ("a" === id)) [ inl f ↦ rw f tt | inr f ↦ rw f tt ])
]

topological_sort-Ends_example :
    Ends
      (task_map tasks [])
      (λ t.
        IsOrdered (task_map tasks []) [] t.result
        × All (λ a. includes a.task_id t.result ≡ true) tasks)
      (topological_sort tasks)
topological_sort-Ends_example = topological_sort-Ends tasks

topological_sort-done_example :
    (t : Walk) × (topological_sort tasks ≡ done t)
    × IsOrdered (task_map tasks []) [] t.result
    × All (λ a. includes a.task_id t.result ≡ true) tasks
topological_sort-done_example = topological_sort-done rank tasks tasks-IsRanked
