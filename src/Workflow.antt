-- ===== src/Workflow.antt =====
-- backend/services/ai-kernel/src/agents/workflow/workflow.types.ts: the definitions of workflows
-- and their executions. The numbers of a policy are integers.
pub mod Steps
pub mod Execution
pub mod Runner
pub mod Engine
pub mod Validation
pub mod Registry
pub mod Examples
use nexus_ai_workspace.Common.{ℕ, String, Bool, List, Option}
use nexus_ai_workspace.Common.Map.{Map}
use nexus_ai_workspace.Common.Integers.{ℤ}
use nexus_ai_workspace.Values.{Value, Metadata}
use nexus_ai_workspace.Priority.{AgentPriority}

pub data WorkflowState : Type 0 where
  created validated running paused failed completed cancelled : WorkflowState

pub data WorkflowStepType : Type 0 where
  task sequence parallel conditional loop compensation : WorkflowStepType

pub data WorkflowExecutionMode : Type 0 where
  sequential_mode parallel_mode mixed_mode : WorkflowExecutionMode

pub record RetryPolicy : Type 0 where
  pub max_attempts : ℤ
  pub backoff_ms : ℤ
  pub backoff_multiplier : ℤ
  pub max_backoff_ms : ℤ
  pub retryable_errors : List String

pub record TimeoutPolicy : Type 0 where
  pub step_timeout_ms : ℤ
  pub workflow_timeout_ms : ℤ
  pub enable_global_timeout : Bool

pub record FailurePolicy : Type 0 where
  pub continue_on_error : Bool
  pub max_failures : ℤ
  pub fail_fast : Bool
  pub compensation_required : Bool

pub data ConditionType : Type 0 where
  expression_condition function_condition variable_condition : ConditionType

pub record WorkflowCondition : Type 0 where
  pub condition_type : ConditionType
  pub expression : String
  pub condition_variables : List String

pub data LoopType : Type 0 where
  while_loop for_loop for_each_loop : LoopType

pub record WorkflowLoop : Type 0 where
  pub loop_type : LoopType
  pub condition : WorkflowCondition
  pub max_iterations : ℤ
  pub break_on_error : Bool

-- The fields of a step other than `steps`; an optional text that is absent is empty,
-- and `branch` is the text `metadata.branch`.
pub record StepFields : Type 0 where
  pub step_id : String
  pub name : String
  pub step_type : WorkflowStepType
  pub enabled : Bool
  pub agent_id : String
  pub task_name : String
  pub input : Option Value
  pub step_condition : Option WorkflowCondition
  pub step_loop : Option WorkflowLoop
  pub branch : String
  pub compensation_step_id : String
  pub retry_policy : Option RetryPolicy
  pub timeout_ms : Option ℕ
  pub depends_on : List String
  pub metadata : Metadata

-- A step without and a step with the field `steps`.
mutual
  pub data WorkflowStep : Type 0 where
    plain : StepFields → WorkflowStep
    composite : StepFields → WorkflowSteps → WorkflowStep

  pub data WorkflowSteps : Type 0 where
    nil : WorkflowSteps
    cons : WorkflowStep → WorkflowSteps → WorkflowSteps

pub record WorkflowDefinition : Type 0 where
  pub workflow_id : String
  pub name : String
  pub description : String
  pub version : String
  pub execution_mode : WorkflowExecutionMode
  pub priority : AgentPriority
  pub steps : WorkflowSteps
  pub retry_policy : RetryPolicy
  pub timeout_policy : TimeoutPolicy
  pub failure_policy : FailurePolicy
  pub input_schema : Option Metadata
  pub output_schema : Option Metadata
  pub metadata : Metadata
  pub created_at : ℕ
  pub updated_at : ℕ
