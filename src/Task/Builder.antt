-- ===== src/Task/Builder.antt =====
-- backend/services/ai-kernel/src/agents/planner/agent-task.ts: AgentTaskBuilder. A field that has
-- not been set is none.
use nexus_ai_workspace.Common.{ℕ, String, List, [], ◌∷◌, ◌++◌, Option, none, some, ◌⊎◌, inl, inr}
use nexus_ai_workspace.Priority.{AgentPriority}
use nexus_ai_workspace.Values.{Value, Metadata, spread}
use nexus_ai_workspace.Task.{
  TaskState, TaskType, RetryStrategy, TaskMetrics, TaskDependency, DependencyType, AgentTask,
}

pub record AgentTaskBuilder : Type 0 where
  pub task_id : Option String
  pub agent_id : Option String
  pub workspace_id : Option String
  pub request_id : Option String
  pub trace_id : Option String
  pub name : Option String
  pub description : Option String
  pub type : Option TaskType
  pub state : Option TaskState
  pub priority : Option AgentPriority
  pub input : Option Value
  pub dependencies : List TaskDependency
  pub timeout_ms : ℕ
  pub retry_strategy : RetryStrategy
  pub metadata : Metadata
  pub metrics : TaskMetrics

unfoldable pub create : ℕ → AgentTaskBuilder
create now = record {
  task_id = none;
  agent_id = none;
  workspace_id = none;
  request_id = none;
  trace_id = none;
  name = none;
  description = none;
  type = none;
  state = none;
  priority = none;
  input = none;
  dependencies = [];
  timeout_ms = 30000;
  retry_strategy = record {
    max_attempts = 3;
    backoff_ms = 1000;
    backoff_multiplier = 2;
    max_backoff_ms = 30000;
  };
  metadata = [];
  metrics = record {
    created_at = now;
    started_at = none;
    completed_at = none;
    duration = none;
    attempts = 0;
    last_error = none;
  };
}

unfoldable pub set_task_id : String → AgentTaskBuilder → AgentTaskBuilder
set_task_id x b = record b { task_id = some x }

unfoldable pub set_agent_id : String → AgentTaskBuilder → AgentTaskBuilder
set_agent_id x b = record b { agent_id = some x }

unfoldable pub set_workspace_id : String → AgentTaskBuilder → AgentTaskBuilder
set_workspace_id x b = record b { workspace_id = some x }

unfoldable pub set_request_id : String → AgentTaskBuilder → AgentTaskBuilder
set_request_id x b = record b { request_id = some x }

unfoldable pub set_trace_id : String → AgentTaskBuilder → AgentTaskBuilder
set_trace_id x b = record b { trace_id = some x }

unfoldable pub set_name : String → AgentTaskBuilder → AgentTaskBuilder
set_name x b = record b { name = some x }

unfoldable pub set_description : String → AgentTaskBuilder → AgentTaskBuilder
set_description x b = record b { description = some x }

unfoldable pub set_type : TaskType → AgentTaskBuilder → AgentTaskBuilder
set_type x b = record b { type = some x }

unfoldable pub set_state : TaskState → AgentTaskBuilder → AgentTaskBuilder
set_state x b = record b { state = some x }

unfoldable pub set_priority : AgentPriority → AgentTaskBuilder → AgentTaskBuilder
set_priority x b = record b { priority = some x }

unfoldable pub set_input : Value → AgentTaskBuilder → AgentTaskBuilder
set_input x b = record b { input = some x }

unfoldable pub add_dependency :
    String → DependencyType → Option String → AgentTaskBuilder → AgentTaskBuilder
add_dependency id type condition b = record b {
  dependencies = b.dependencies ++ record { task_id = id; type = type; condition = condition } ∷ [];
}

unfoldable pub set_timeout : ℕ → AgentTaskBuilder → AgentTaskBuilder
set_timeout n b = record b { timeout_ms = n }

-- `retryStrategy` with every field given.
unfoldable pub set_retry_strategy : RetryStrategy → AgentTaskBuilder → AgentTaskBuilder
set_retry_strategy s b = record b { retry_strategy = s }

unfoldable pub add_metadata : Metadata → AgentTaskBuilder → AgentTaskBuilder
add_metadata more b = record b { metadata = spread b.metadata more }

-- The test of a required field, which throws its name, before the rest.
abbrev pub require {ℓ} :
    {A : Type ℓ} {R : Type 0} → String → Option A → (A → String ⊎ R) → String ⊎ R
require field none rest = inl field
require field (some x) rest = rest x

abbrev pub or_empty : Option String → String
or_empty none = ""
or_empty (some s) = s

-- `build` throws the name of the first required field that is missing.
unfoldable pub build : AgentTaskBuilder → String ⊎ AgentTask
build b = require "taskId" b.task_id (λ (task_id : String).
    require "agentId" b.agent_id (λ (agent_id : String).
      require "workspaceId" b.workspace_id (λ (workspace_id : String).
        require "requestId" b.request_id (λ (request_id : String).
          require "traceId" b.trace_id (λ (trace_id : String).
            require "name" b.name (λ (name : String). require "type" b.type (λ (type : TaskType).
              require "state" b.state (λ (state : TaskState).
                require "priority" b.priority (λ (priority : AgentPriority).
                  require "input" b.input (λ (input : Value). inr (record {
                    task_id = task_id;
                    agent_id = agent_id;
                    workspace_id = workspace_id;
                    request_id = request_id;
                    trace_id = trace_id;
                    name = name;
                    description = or_empty b.description;
                    type = type;
                    state = state;
                    priority = priority;
                    input = input;
                    output = none;
                    error = none;
                    dependencies = b.dependencies;
                    timeout_ms = b.timeout_ms;
                    retry_strategy = b.retry_strategy;
                    metadata = b.metadata;
                    metrics = b.metrics;
                  })))))))))))
