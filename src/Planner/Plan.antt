-- ===== src/Planner/Plan.antt =====
-- backend/services/ai-kernel/src/agents/planner/agent-plan.ts: plans and AgentPlanBuilder. A field
-- that has not been set is none. An estimate that is `-Infinity` is none.
pub mod Laws
use nexus_ai_workspace.Common.{
  ℕ, String, Bool, true, false, List, [], ◌∷◌, ◌++◌, Option, none, some, ◌⊎◌, inl, inr, length,
  includes, if◌then◌else◌, map,
}
use nexus_ai_workspace.Priority.{AgentPriority}
use nexus_ai_workspace.Values.{Value, Metadata, spread}
use nexus_ai_workspace.Task.{AgentTask}
use nexus_ai_workspace.Task.Builder.{or_empty}

pub data PlanState : Type 0 where
  draft validated executing completed failed cancelled : PlanState

pub data ExecutionMode : Type 0 where
  sequential parallel mixed : ExecutionMode

pub record PlanMetrics : Type 0 where
  pub created_at : ℕ
  pub validated_at : Option ℕ
  pub started_at : Option ℕ
  pub completed_at : Option ℕ
  pub total_tasks : ℕ
  pub completed_tasks : ℕ
  pub failed_tasks : ℕ
  pub estimated_duration_ms : Option ℕ
  pub actual_duration_ms : Option ℕ

pub record AgentPlan : Type 0 where
  pub plan_id : String
  pub agent_id : String
  pub workspace_id : String
  pub request_id : String
  pub trace_id : String
  pub name : String
  pub description : String
  pub state : PlanState
  pub priority : AgentPriority
  pub execution_mode : ExecutionMode
  pub tasks : List AgentTask
  pub task_order : List String
  pub parallel_groups : List (List String)
  pub timeout_ms : ℕ
  pub max_concurrency : ℕ
  pub metadata : Metadata
  pub metrics : PlanMetrics

pub record AgentPlanBuilder : Type 0 where
  pub plan_id : Option String
  pub agent_id : Option String
  pub workspace_id : Option String
  pub request_id : Option String
  pub trace_id : Option String
  pub name : Option String
  pub description : Option String
  pub state : Option PlanState
  pub priority : Option AgentPriority
  pub execution_mode : ExecutionMode
  pub tasks : List AgentTask
  pub task_order : List String
  pub parallel_groups : List (List String)
  pub timeout_ms : ℕ
  pub max_concurrency : ℕ
  pub metadata : Metadata
  pub metrics : PlanMetrics

unfoldable pub create : ℕ → AgentPlanBuilder
create now = record {
  plan_id = none;
  agent_id = none;
  workspace_id = none;
  request_id = none;
  trace_id = none;
  name = none;
  description = none;
  state = none;
  priority = none;
  execution_mode = sequential;
  tasks = [];
  task_order = [];
  parallel_groups = [];
  timeout_ms = 300000;
  max_concurrency = 5;
  metadata = [];
  metrics = record {
    created_at = now;
    validated_at = none;
    started_at = none;
    completed_at = none;
    total_tasks = 0;
    completed_tasks = 0;
    failed_tasks = 0;
    estimated_duration_ms = some 0;
    actual_duration_ms = none;
  };
}

unfoldable pub set_plan_id : String → AgentPlanBuilder → AgentPlanBuilder
set_plan_id x b = record b { plan_id = some x }

unfoldable pub set_agent_id : String → AgentPlanBuilder → AgentPlanBuilder
set_agent_id x b = record b { agent_id = some x }

unfoldable pub set_workspace_id : String → AgentPlanBuilder → AgentPlanBuilder
set_workspace_id x b = record b { workspace_id = some x }

unfoldable pub set_request_id : String → AgentPlanBuilder → AgentPlanBuilder
set_request_id x b = record b { request_id = some x }

unfoldable pub set_trace_id : String → AgentPlanBuilder → AgentPlanBuilder
set_trace_id x b = record b { trace_id = some x }

unfoldable pub set_name : String → AgentPlanBuilder → AgentPlanBuilder
set_name x b = record b { name = some x }

unfoldable pub set_description : String → AgentPlanBuilder → AgentPlanBuilder
set_description x b = record b { description = some x }

unfoldable pub set_state : PlanState → AgentPlanBuilder → AgentPlanBuilder
set_state x b = record b { state = some x }

unfoldable pub set_priority : AgentPriority → AgentPlanBuilder → AgentPlanBuilder
set_priority x b = record b { priority = some x }

unfoldable pub set_execution_mode : ExecutionMode → AgentPlanBuilder → AgentPlanBuilder
set_execution_mode x b = record b { execution_mode = x }

unfoldable pub add_tasks : List AgentTask → AgentPlanBuilder → AgentPlanBuilder
add_tasks ts b = record b {
  tasks = b.tasks ++ ts;
  metrics = record b.metrics { total_tasks = length (b.tasks ++ ts) };
}

unfoldable pub add_task : AgentTask → AgentPlanBuilder → AgentPlanBuilder
add_task t b = record b {
  tasks = b.tasks ++ t ∷ [];
  metrics = record b.metrics { total_tasks = length (b.tasks ++ t ∷ []) };
}

unfoldable pub set_task_order : List String → AgentPlanBuilder → AgentPlanBuilder
set_task_order ids b = record b { task_order = ids }

unfoldable pub add_parallel_group : List String → AgentPlanBuilder → AgentPlanBuilder
add_parallel_group ids b = record b { parallel_groups = b.parallel_groups ++ ids ∷ [] }

unfoldable pub set_timeout : ℕ → AgentPlanBuilder → AgentPlanBuilder
set_timeout n b = record b { timeout_ms = n }

unfoldable pub set_max_concurrency : ℕ → AgentPlanBuilder → AgentPlanBuilder
set_max_concurrency n b = record b { max_concurrency = n }

unfoldable pub set_estimated_duration : Option ℕ → AgentPlanBuilder → AgentPlanBuilder
set_estimated_duration d b = record b { metrics = record b.metrics { estimated_duration_ms = d } }

unfoldable pub add_metadata : Metadata → AgentPlanBuilder → AgentPlanBuilder
add_metadata more b = record b { metadata = spread b.metadata more }

-- What `build` throws.
pub data BuildError : Type 0 where
  field_required order_not_found group_not_found : String → BuildError

abbrev pub require {ℓ} :
    {A : Type ℓ} → String → Option A → (A → BuildError ⊎ AgentPlan) → BuildError ⊎ AgentPlan
require field none rest = inl (field_required field)
require field (some x) rest = rest x

abbrev pub ids_of : List AgentTask → List String
ids_of ts = map (λ t. t.task_id) ts

-- The first id that is not a task's.
unfoldable pub first_unknown : (known ids : List String) → Option String
first_unknown known [] = none
first_unknown known (id ∷ ids) =
    let rest = first_unknown known ids in if includes id known then rest else some id

abbrev pub or_next : Option String → Option String → Option String
or_next none next = next
or_next (some id) next = some id

unfoldable pub first_unknown_in_groups : List String → List (List String) → Option String
first_unknown_in_groups known [] = none
first_unknown_in_groups known (g ∷ gs) =
    or_next (first_unknown known g) (first_unknown_in_groups known gs)

abbrev pub unless :
    Option String → (String → BuildError) → BuildError ⊎ AgentPlan → BuildError ⊎ AgentPlan
unless none e rest = rest
unless (some id) e rest = inl (e id)

unfoldable pub build : AgentPlanBuilder → BuildError ⊎ AgentPlan
build b = require "planId" b.plan_id (λ (plan_id : String).
    require "agentId" b.agent_id (λ (agent_id : String).
      require "workspaceId" b.workspace_id (λ (workspace_id : String).
        require "requestId" b.request_id (λ (request_id : String).
          require "traceId" b.trace_id (λ (trace_id : String).
            require "name" b.name (λ (name : String).
              require "state" b.state (λ (state : PlanState).
                require "priority" b.priority (λ (priority : AgentPriority).
                  unless (first_unknown (ids_of b.tasks) b.task_order) order_not_found (
                    unless (first_unknown_in_groups (ids_of b.tasks) b.parallel_groups)
                      group_not_found
                      (inr (record {
                        plan_id = plan_id;
                        agent_id = agent_id;
                        workspace_id = workspace_id;
                        request_id = request_id;
                        trace_id = trace_id;
                        name = name;
                        description = or_empty b.description;
                        state = state;
                        priority = priority;
                        execution_mode = b.execution_mode;
                        tasks = b.tasks;
                        task_order = b.task_order;
                        parallel_groups = b.parallel_groups;
                        timeout_ms = b.timeout_ms;
                        max_concurrency = b.max_concurrency;
                        metadata = b.metadata;
                        metrics = b.metrics;
                      })))))))))))
