-- ===== src/Workflow/Execution.antt =====
-- backend/services/ai-kernel/src/agents/workflow/workflow.types.ts: the executions, and the
-- exceptions of workflow.exceptions.ts. Of the variables, the three that the runner reads by name
-- are fields.
use nexus_ai_workspace.Common.{ℕ, String, Bool, true, false, List, Option}
use nexus_ai_workspace.Common.Map.{Map}
use nexus_ai_workspace.Common.Integers.{ℤ}
use nexus_ai_workspace.Values.{Value, Metadata}
use nexus_ai_workspace.Workflow.{
  WorkflowState, WorkflowStepType, WorkflowExecutionMode, FailurePolicy, cancelled, paused, running,
  completed,
}

-- The input of a step, that of the workflow or the output of a step; and the output of a step:
-- none, the object that a task step returns, or the mark of a composite step.
mutual
  pub data StepInput : Type 0 where
    workflow_input : Value → StepInput
    output_of_step : StepOutput → StepInput

  pub data StepOutput : Type 0 where
    no_output : StepOutput
    task_result : String → String → String → ℕ → StepInput → StepOutput
    composite_completed : WorkflowStepType → StepOutput

-- A variable holds an array or anything else.
pub data Variable : Type 0 where
  array : List Value → Variable
  scalar : Value → Variable

pub record WorkflowExecutionContext : Type 0 where
  pub request_id : String
  pub trace_id : String
  pub workspace_id : String
  pub conversation_id : Option String
  pub user_id : String
  pub agent_id : String
  pub execution_id : String
  pub metadata : Metadata
  pub start_time : ℕ
  pub loop_iteration : Option ℕ
  pub loop_max_iterations : Option ℕ
  pub for_each_index : Option ℕ
  pub variables : Map Variable

-- An exception; one that passes a message on holds the exception that the message is of.
pub data Thrown : Type 0 where
  error : String → Thrown
  prefixed : String → Thrown → Thrown
  loop_exceeded : ℕ → Thrown
  workflow_not_found : String → Thrown
  workflow_cancelled : String → Thrown
  workflow_validation : String → List String → Thrown
  workflow_step : String → String → String → Thrown → Thrown
  workflow_execution : String → String → Option String → Thrown → Thrown
  workflow_condition : String → String → Thrown → Thrown

-- The metadata that an engine gives to an execution, with the entry that the runner adds.
pub record ExecutionMetadata : Type 0 where
  pub workflow_name : String
  pub workflow_version : String
  pub execution_mode : WorkflowExecutionMode
  pub failure_policy : FailurePolicy
  pub compensation_errors : Option (List (String × Thrown))

pub record WorkflowExecution : Type 0 where
  pub execution_id : String
  pub workflow_id : String
  pub state : WorkflowState
  pub context : WorkflowExecutionContext
  pub current_step_id : Option String
  pub completed_steps : List String
  pub failed_steps : List String
  pub compensated_steps : List String
  pub input : Value
  pub output : Option (Map StepOutput)
  pub error : Option Thrown
  pub started_at : ℕ
  pub completed_at : Option ℕ
  pub duration : Option ℕ
  pub step_count : ℕ
  pub failure_count : ℕ
  pub retry_count : ℕ
  pub metadata : ExecutionMetadata

pub record StepExecution : Type 0 where
  pub step_id : String
  pub execution_id : String
  pub state : WorkflowState
  pub input : StepInput
  pub output : StepOutput
  pub error : Option Thrown
  pub attempts : ℕ
  pub max_attempts : ℤ
  pub started_at : ℕ
  pub completed_at : Option ℕ
  pub duration : Option ℕ
  pub step_type : WorkflowStepType
  pub step_name : String

abbrev pub is_cancelled : WorkflowState → Bool
is_cancelled cancelled = true
is_cancelled _ = false

abbrev pub is_paused : WorkflowState → Bool
is_paused paused = true
is_paused _ = false

abbrev pub is_running : WorkflowState → Bool
is_running running = true
is_running _ = false

abbrev pub is_completed : WorkflowState → Bool
is_completed completed = true
is_completed _ = false
