-- ===== src/Workflow/Runner/Parallel.antt =====
-- backend/services/ai-kernel/src/agents/workflow/workflow-runner.ts: `runParallel` of
-- WorkflowRunner.
pub mod Laws
use nexus_ai_workspace.Common.{
  ℕ, zero, suc, String, Bool, true, false, not, List, [], ◌∷◌, ◌++◌, Option, none, some, ◌+◌, ◌&&◌,
  ltb, ◌==◌, length, reverse, if◌then◌else◌, some_of,
}
use nexus_ai_workspace.Common.Map.{get}
use nexus_ai_workspace.Common.Integers.{ℤ, pos, negsuc, less, is_positive, reaches}
use nexus_ai_workspace.Workflow.{
  WorkflowState, WorkflowLoop, LoopType, completed, failed, while_loop, for_loop, for_each_loop,
}
use nexus_ai_workspace.Workflow.Execution.{
  WorkflowExecution, StepExecution, Thrown, Variable, array, scalar, error, prefixed, loop_exceeded,
  workflow_cancelled, workflow_step, workflow_execution, workflow_condition, is_cancelled,
  is_paused,
}
use nexus_ai_workspace.Workflow.Runner.{
  Outcome, Attempt, Answer, Held, Executor, returns, throws, finished, threw, truth, refused,
  should_continue_on_failure, complete_step, fail_step, run_sequential,
}

-- The end of one of the calls that `runParallel` awaits, and what changed the execution after the
-- end before it.
pub record Arrival : Type 0 where
  pub step_id : String
  pub attempt : Attempt
  pub meanwhile : WorkflowExecution → WorkflowExecution

abbrev pub note_end : String → WorkflowState → WorkflowExecution → WorkflowExecution
note_end id completed e = complete_step id e
note_end id failed e = fail_step id e
note_end id _ e = e

-- What `runParallel` does when a call ends.
abbrev pub settle : String → Attempt → WorkflowExecution → WorkflowExecution
settle id (finished s) e = note_end id s.state e
settle id (threw t) e = fail_step id e

abbrev pub is_rejected : Attempt → Bool
is_rejected (finished s) = false
is_rejected (threw t) = true

unfoldable pub settle_all : List Arrival → WorkflowExecution → WorkflowExecution
settle_all [] e = e
settle_all (a ∷ arrivals) e = settle_all arrivals (settle a.step_id a.attempt (a.meanwhile e))

-- The end of `runParallel`: the second exception is the one of its own `catch`.
abbrev pub parallel_end : Bool → WorkflowExecution → Outcome × WorkflowExecution
parallel_end has_failures e =
    if has_failures && not (should_continue_on_failure e)
    then (
      throws (
          workflow_execution e.execution_id e.workflow_id none (
            prefixed "Parallel execution error" (
              workflow_execution e.execution_id e.workflow_id none
                (error "Parallel execution failed")))),
      e,
    )
    else (returns, e)

-- `arrivals` are the ends of the calls of `stepIds`, in the order in which they come. In a
-- cancelled execution no call is made: every promise rejects. The calls start together, before
-- anything else runs.
unfoldable pub run_parallel :
    List String → List Arrival → WorkflowExecution → Outcome × WorkflowExecution
run_parallel step_ids arrivals e =
    if is_cancelled e.state
    then parallel_end (ltb 0 (length step_ids)) e
    else parallel_end (some_of (λ a. is_rejected a.attempt) arrivals) (settle_all arrivals e)
