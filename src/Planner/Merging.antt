-- ===== src/Planner/Merging.antt =====
-- backend/services/ai-kernel/src/agents/planner/agent-planner.ts: `splitTasks` and `merge`. `show`
-- is the decimal text of a number; the random id and the time are arguments.
pub mod Laws
use nexus_ai_workspace.Common.{
  ℕ, zero, suc, String, Bool, true, false, List, [], ◌∷◌, ◌++◌, Option, none, some, ◌⊎◌, inl, inr,
  ◌+◌, ◌*◌, ◌/◌, max, length, if◌then◌else◌, map, leb,
}
use Prim.Native.String.{◌++◌ as text_append}
use nexus_ai_workspace.Common.Map.{Map, values}
use nexus_ai_workspace.Priority.{AgentPriority, normal}
use nexus_ai_workspace.Values.{Value, Metadata, text, texts, date, flag, spread}
use nexus_ai_workspace.Task.{
  AgentTask, TaskType, execution, communication, memory, analysis, coordination, pending,
}
use nexus_ai_workspace.Task.Builder
use nexus_ai_workspace.Planner.{task_map}
use nexus_ai_workspace.Planner.Groups.{get_highest_priority}
use nexus_ai_workspace.Planner.Plan
use nexus_ai_workspace.Planner.Plan.{AgentPlan, draft, mixed, ids_of}
use nexus_ai_workspace.Planner.Planning.{
  PlannerError, no_plans, and_then, plan_built, task_built, prioritize, build_execution_plan, plus,
  add_groups, ExecutionPlan,
}

-- `Math.ceil(n / 3)`
unfoldable pub third : ℕ → ℕ
third n = (n + 2) / 3

-- A task has an input here: the source's type allows one that is undefined, for which `build`
-- throws.
unfoldable pub create_subtask :
    AgentTask → (suffix name : String) → (now : ℕ) → PlannerError ⊎ AgentTask
create_subtask parent suffix name now = task_built (
    Builder.build (
      Builder.add_metadata
        (spread (spread [] parent.metadata)
          (("parentTaskId", text parent.task_id) ∷ ("subtask", flag true) ∷ []))
        (Builder.set_retry_strategy parent.retry_strategy (
          Builder.set_timeout (third parent.timeout_ms) (
            Builder.set_input parent.input (
              Builder.set_priority parent.priority (
                Builder.set_state pending (
                  Builder.set_type parent.type (
                    Builder.set_description (text_append "Subtask of " parent.name) (
                      Builder.set_name name (
                        Builder.set_trace_id parent.trace_id (
                          Builder.set_request_id parent.request_id (
                            Builder.set_workspace_id parent.workspace_id (
                              Builder.set_agent_id parent.agent_id (
                                Builder.set_task_id
                                  (text_append parent.task_id (text_append "_" suffix))
                                  (Builder.create now))))))))))))))))

pub record TaskSplitResult : Type 0 where
  pub original_task_id : String
  pub subtasks : List AgentTask
  pub parallel_groups : List (List String)

abbrev pub at_most_three : ℕ → ℕ
at_most_three n = if leb n 3 then n else 3

abbrev pub create_subtasks : AgentTask → ℕ → List (String × String) → PlannerError ⊎ List AgentTask
create_subtasks parent now [] = inr []
create_subtasks parent now ((suffix, name) ∷ rest) =
    and_then (create_subtask parent suffix name now) (λ (t : AgentTask).
      and_then (create_subtasks parent now rest) (λ (ts : List AgentTask). inr (t ∷ ts)))

abbrev pub first_two : TaskType → List AgentTask → List (List String)
first_two analysis (s ∷ t ∷ ts) = (s.task_id ∷ t.task_id ∷ []) ∷ []
first_two _ ts = []

abbrev pub all_tasks : List AgentPlan → List AgentTask
all_tasks [] = []
all_tasks (p ∷ ps) = p.tasks ++ all_tasks ps

abbrev pub all_groups : List AgentPlan → List (List String)
all_groups [] = []
all_groups (p ∷ ps) = p.parallel_groups ++ all_groups ps

abbrev pub total_estimate : List AgentPlan → Option ℕ
total_estimate [] = some 0
total_estimate (p ∷ ps) = plus p.metrics.estimated_duration_ms (total_estimate ps)

abbrev pub join_names : List AgentPlan → String
join_names [] = ""
join_names (p ∷ []) = p.name
join_names (p ∷ q ∷ ps) = text_append p.name (text_append ", " (join_names (q ∷ ps)))

abbrev pub largest : (AgentPlan → ℕ) → List AgentPlan → ℕ
largest f [] = 0
largest f (p ∷ ps) = max (f p) (largest f ps)

-- `uniqueTasks`, prioritized: of the tasks with one id the last one stays.
unfoldable pub merged_tasks : List AgentPlan → List AgentTask
merged_tasks plans = prioritize (values (task_map (all_tasks plans) []))

module _ (show : ℕ → String) where
  -- The steps from the `i`-th on.
  abbrev pub steps : (i count : ℕ) → List (String × String)
  steps i zero = []
  steps i (suc n) = (text_append "step_" (show i), text_append "Step " (show i)) ∷ steps (i + 1) n

  -- The suffixes and the names of the subtasks.
  unfoldable pub parts : TaskType → (max_subtasks : ℕ) → List (String × String)
  parts execution n =
      ("prepare", "Preparation phase")
      ∷ ("execute", "Main execution phase")
      ∷ ("cleanup", "Cleanup phase")
      ∷ []
  parts communication n = ("send", "Send message") ∷ ("receive", "Receive response") ∷ []
  parts analysis n =
      ("collect", "Data collection")
      ∷ ("process", "Data processing")
      ∷ ("report", "Generate report")
      ∷ []
  parts memory n = steps 1 (at_most_three n)
  parts coordination n = steps 1 (at_most_three n)

  unfoldable pub split_tasks : AgentTask → ℕ → ℕ → PlannerError ⊎ TaskSplitResult
  split_tasks task max_subtasks now =
      and_then (create_subtasks task now (parts task.type max_subtasks)) (λ (ts : List AgentTask).
        inr (record {
          original_task_id = task.task_id;
          subtasks = ts;
          parallel_groups = first_two task.type ts;
        }))

  abbrev pub merged_plan :
      AgentPlan
      → List AgentPlan
      → (id : String) → (now : ℕ) → List AgentTask
      → ExecutionPlan
      → PlannerError ⊎ AgentPlan
  merged_plan base plans id now tasks (order, groups) = plan_built (
      Plan.build (
        Plan.add_metadata
          (("mergedFrom", texts (map (λ p. p.plan_id) plans)) ∷ ("mergedAt", date now) ∷ [])
          (Plan.set_estimated_duration (total_estimate plans) (
            Plan.set_max_concurrency (largest (λ p. p.max_concurrency) plans) (
              Plan.set_timeout (largest (λ p. p.timeout_ms) plans) (
                Plan.set_task_order order (
                  Plan.add_tasks tasks (
                    Plan.set_execution_mode mixed (
                      Plan.set_priority (get_highest_priority (map (λ p. p.priority) plans)) (
                        Plan.set_state draft (
                          Plan.set_description
                            (text_append "Merged from "
                              (text_append (show (length plans)) " plans"))
                            (Plan.set_name (text_append "Merged Plan: " (join_names plans)) (
                              Plan.set_trace_id base.trace_id (
                                Plan.set_request_id base.request_id (
                                  Plan.set_workspace_id base.workspace_id (
                                    Plan.set_agent_id base.agent_id (
                                      Plan.set_plan_id (text_append "merged_" id)
                                        (Plan.create now))))))))))))))))))

  unfoldable pub merge : List AgentPlan → (id : String) → (now : ℕ) → PlannerError ⊎ AgentPlan
  merge [] id now = inl no_plans
  merge (p ∷ []) id now = inr p
  merge (p ∷ q ∷ ps) id now =
      let plans : List AgentPlan = p ∷ q ∷ ps in
      let tasks = merged_tasks plans in
      and_then (build_execution_plan tasks mixed) (λ (e : ExecutionPlan).
        and_then (merged_plan p plans id now tasks e)
          (λ (m : AgentPlan). inr (add_groups (all_groups plans) m)))
