-- ===== src/Workflow/Runner.antt =====
-- backend/services/ai-kernel/src/agents/workflow/workflow-runner.ts: the methods of WorkflowRunner.
-- The executor is a parameter; a call of it may change the execution in any way, as the engine's
-- other calls do while it is awaited. `World` is the state of the executor.
pub mod Counting
pub mod Sequences
pub mod Loop
pub mod Parallel
pub mod Compensation
use nexus_ai_workspace.Common.{
  ℕ, zero, suc, String, Bool, true, false, not, List, [], ◌∷◌, ◌++◌, Option, none, some, ◌+◌, ◌&&◌,
  ltb, ◌==◌, length, reverse, if◌then◌else◌, some_of,
}
use nexus_ai_workspace.Common.Map.{get}
use nexus_ai_workspace.Common.Integers.{ℤ, pos, negsuc, less, is_positive, reaches}
use nexus_ai_workspace.Workflow.{
  WorkflowState, WorkflowLoop, LoopType, completed, failed, while_loop, for_loop, for_each_loop,
}
use nexus_ai_workspace.Workflow.Execution.{
  WorkflowExecution, StepExecution, Thrown, Variable, array, scalar, error, prefixed, loop_exceeded,
  workflow_cancelled, workflow_step, workflow_execution, workflow_condition, is_cancelled,
  is_paused,
}

-- How a call ends.
pub data Outcome : Type 0 where
  returns : Outcome
  throws : Thrown → Outcome

-- How a call of `executeStep` ends.
pub data Attempt : Type 0 where
  finished : StepExecution → Attempt
  threw : Thrown → Attempt

-- How a call of `evaluateCondition` ends.
pub data Answer : Type 0 where
  truth : Bool → Answer
  refused : Thrown → Answer

-- An execution, and the state of the executor.
abbrev pub Held : Type 0 → Type 0
Held World = WorkflowExecution × World

-- IWorkflowExecutor
pub record Executor (World : Type 0) : Type 0 where
  pub execute_step : String → Held World → Attempt × Held World
  pub evaluate_condition : String → Held World → Answer × Held World
  pub compensate_step : String → Held World → Outcome × Held World

-- `shouldContinueOnFailure`
unfoldable pub should_continue_on_failure : WorkflowExecution → Bool
should_continue_on_failure e =
    let policy = e.metadata.failure_policy in
    if not policy.continue_on_error
    then false
    else not (is_positive policy.max_failures && reaches e.failure_count policy.max_failures)

unfoldable pub complete_step : String → WorkflowExecution → WorkflowExecution
complete_step id e = record e { completed_steps = e.completed_steps ++ id ∷ [] }

unfoldable pub fail_step : String → WorkflowExecution → WorkflowExecution
fail_step id e = record e {
  failed_steps = e.failed_steps ++ id ∷ [];
  failure_count = e.failure_count + 1;
}

module _ {World : Type 0} where
  abbrev pub and_then :
      Outcome × Held World → (Held World → Outcome × Held World) → Outcome × Held World
  and_then (returns, h) next = next h
  and_then (throws t, h) next = (throws t, h)

  -- The `catch` of `runSequential`.
  unfoldable pub caught : String → Thrown → Held World → Outcome × Held World
  caught id t (e, w) =
      let e' = fail_step id e in
      if should_continue_on_failure e'
      then (returns, (e', w))
      else (throws (workflow_execution e.execution_id e.workflow_id (some id) t), (e', w))

  abbrev pub ended : String → WorkflowState → Held World → Outcome × Held World
  ended id completed (e, w) = (returns, (complete_step id e, w))
  ended id failed (e, w) =
      let e' = fail_step id e in
      if should_continue_on_failure e'
      then (returns, (e', w))
      else caught id (workflow_step id e.execution_id "sequential" (error "")) (e', w)
  ended id _ h = (returns, h)

  -- The `try` of `runSequential`.
  abbrev pub after_step : String → Attempt × Held World → Outcome × Held World
  after_step id (finished s, h) = ended id s.state h
  after_step id (threw t, h) = caught id t h

  abbrev pub with_current : String → Held World → Held World
  with_current id (e, w) = (record e { current_step_id = some id }, w)

  abbrev pub wrap_condition : String → Outcome × Held World → Outcome × Held World
  wrap_condition condition (returns, h) = (returns, h)
  wrap_condition condition (throws t, (e, w)) = (
    throws
        (workflow_condition condition e.execution_id (prefixed "Conditional execution failed" t)),
    (e, w),
  )

  module _ (executor : Executor World) where
    unfoldable pub run_sequential : List String → Held World → Outcome × Held World
    run_sequential [] h = (returns, h)
    run_sequential (id ∷ ids) h =
        let step = after_step id (executor.execute_step id (with_current id h)) in
        if is_cancelled h.0.state
        then (throws (workflow_cancelled h.0.execution_id), h)
        else if is_paused h.0.state
        then (returns, h)
        else and_then step (run_sequential ids)

    abbrev pub choose : List String → List String → Answer × Held World → Outcome × Held World
    choose then_steps else_steps (truth b, h) =
        run_sequential (if b then then_steps else else_steps) h
    choose then_steps else_steps (refused t, h) = (throws t, h)

    unfoldable pub run_conditional :
        String → List String → List String → Held World → Outcome × Held World
    run_conditional condition then_steps else_steps h =
        wrap_condition condition
          (choose then_steps else_steps (executor.evaluate_condition condition h))
