-- ===== src/Task.antt =====
-- The task of backend/services/ai-kernel/src/agents/planner/agent-task.ts. Times are in
-- milliseconds.
pub mod Builder
use nexus_ai_workspace.Common.{ℕ, String, Bool, true, false, List, Option}
use nexus_ai_workspace.Priority.{AgentPriority}
use nexus_ai_workspace.Values.{Value, Metadata}

pub data TaskState : Type 0 where
  pending waiting ready running success failed cancelled timeout : TaskState

pub data TaskType : Type 0 where
  execution communication memory analysis coordination : TaskType

pub record RetryStrategy : Type 0 where
  pub max_attempts : ℕ
  pub backoff_ms : ℕ
  pub backoff_multiplier : ℕ
  pub max_backoff_ms : ℕ

pub record TaskMetrics : Type 0 where
  pub created_at : ℕ
  pub started_at : Option ℕ
  pub completed_at : Option ℕ
  pub duration : Option ℕ
  pub attempts : ℕ
  pub last_error : Option String

pub data DependencyType : Type 0 where
  blocking soft : DependencyType

pub record TaskDependency : Type 0 where
  pub task_id : String
  pub type : DependencyType
  pub condition : Option String

pub record AgentTask : Type 0 where
  pub task_id : String
  pub agent_id : String
  pub workspace_id : String
  pub request_id : String
  pub trace_id : String
  pub name : String
  pub description : String
  pub type : TaskType
  pub state : TaskState
  pub priority : AgentPriority
  pub input : Value
  pub output : Option Value
  pub error : Option String
  pub dependencies : List TaskDependency
  pub timeout_ms : ℕ
  pub retry_strategy : RetryStrategy
  pub metadata : Metadata
  pub metrics : TaskMetrics

abbrev pub is_success : TaskState → Bool
is_success success = true
is_success _ = false

abbrev pub is_cancelled : TaskState → Bool
is_cancelled cancelled = true
is_cancelled _ = false

abbrev pub is_blocking : TaskDependency → Bool
is_blocking d = elim d.type [ blocking ↦ true | soft ↦ false ]
