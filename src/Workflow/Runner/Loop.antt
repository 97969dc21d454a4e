-- ===== src/Workflow/Runner/Loop.antt =====
-- backend/services/ai-kernel/src/agents/workflow/workflow-runner.ts: `runLoop` of WorkflowRunner.
pub mod Laws
use nexus_ai_workspace.Common.{
  ℕ, zero, suc, String, Bool, true, false, not, List, [], ◌∷◌, ◌++◌, Option, none, some, ◌+◌, ◌&&◌,
  ltb, ◌==◌, length, reverse, if◌then◌else◌, some_of,
}
use nexus_ai_workspace.Common.Map.{get}
use nexus_ai_workspace.Common.Integers.{ℤ, pos, negsuc, less, is_positive, reaches}
use nexus_ai_workspace.Workflow.{
  WorkflowState, WorkflowLoop, LoopType, completed, failed, while_loop, for_loop, for_each_loop,
}
use nexus_ai_workspace.Workflow.Execution.{
  WorkflowExecution, StepExecution, Thrown, Variable, array, scalar, error, prefixed, loop_exceeded,
  workflow_cancelled, workflow_step, workflow_execution, workflow_condition, is_cancelled,
  is_paused,
}
use nexus_ai_workspace.Workflow.Runner.{
  Outcome, Attempt, Answer, Held, Executor, returns, throws, finished, threw, truth, refused,
  should_continue_on_failure, complete_step, fail_step, run_sequential,
}

-- What the arms of the loop of `evaluateLoopCondition` read from the variables.
abbrev pub or_zero : Option ℕ → ℕ
or_zero none = 0
or_zero (some n) = n

abbrev pub first_name : List String → String
first_name [] = "undefined"
first_name (x ∷ xs) = x

abbrev pub has_index : ℕ → Option Variable → Bool
has_index i none = false
has_index i (some (array items)) = ltb i (length items)
has_index i (some (scalar v)) = false

-- `loopConfig.maxIterations || 100`; no iteration fits below a negative limit.
unfoldable pub iteration_limit : ℤ → ℕ
iteration_limit (pos zero) = 100
iteration_limit (pos (suc n)) = suc n
iteration_limit (negsuc n) = 0

-- How the iterations end.
abbrev pub loop_end : WorkflowExecution → Outcome → Outcome
loop_end e returns = returns
loop_end e (throws t) =
    throws
      (workflow_execution e.execution_id e.workflow_id none (prefixed "Loop execution failed" t))

module _ {World : Type 0} where
  -- The variables of an iteration.
  abbrev pub enter_iteration : (iterations limit : ℕ) → Held World → Held World
  enter_iteration i limit (e, w) = (
    record e {
      context = record e.context { loop_iteration = some i; loop_max_iterations = some limit };
    },
    w,
  )

  abbrev pub count_failure : Held World → Held World
  count_failure (e, w) = (record e { failure_count = e.failure_count + 1 }, w)

  -- The body of a loop, and the rest of the loop.
  abbrev pub after_body :
      Bool → Outcome × Held World → (Held World → Outcome × Held World) → Outcome × Held World
  after_body break_on_error (returns, h) next = next h
  after_body break_on_error (throws t, h) next =
      if break_on_error then (throws t, h) else next (count_failure h)

  -- The condition of a loop, then the body or the end.
  abbrev pub after_condition :
      WorkflowLoop
      → Answer × Held World
      → (Held World → Outcome × Held World)
      → Outcome × Held World
  after_condition config (truth false, h) next = (returns, h)
  after_condition config (truth true, h) next = next h
  after_condition config (refused t, (e, w)) next = (
    throws (
        workflow_condition config.condition.expression e.execution_id
          (prefixed "Loop condition evaluation failed" t)),
    (e, w),
  )

  abbrev pub wrap_loop : Outcome × Held World → Outcome × Held World
  wrap_loop (o, (e, w)) = (loop_end e o, (e, w))

  module _ (executor : Executor World) where
    unfoldable pub evaluate_loop_condition : WorkflowLoop → Held World → Answer × Held World
    evaluate_loop_condition config (e, w) = elim config.loop_type [
      | while_loop ↦ executor.evaluate_condition config.condition.expression (e, w)
      | for_loop ↦
          (truth (less (pos (or_zero e.context.loop_iteration)) config.max_iterations), (e, w))
      | for_each_loop ↦ (
        truth (
            has_index (or_zero e.context.for_each_index)
              (get (first_name config.condition.condition_variables) e.context.variables)),
        (e, w),
      )
    ]

    -- The `while` of `runLoop`: `remaining` is what the limit leaves after the iterations so far.
    unfoldable pub run_iterations :
        WorkflowLoop
        → List String
        → (limit iterations remaining : ℕ) → Held World
        → Outcome × Held World
    run_iterations config steps limit i zero h = (throws (loop_exceeded limit), h)
    run_iterations config steps limit i (suc left) h =
        let iteration : Held World → Outcome × Held World = λ (k : Held World).
          after_body config.break_on_error
            (run_sequential executor steps (enter_iteration i limit k))
            (run_iterations config steps limit (i + 1) left) in
        if is_cancelled h.0.state
        then (throws (workflow_cancelled h.0.execution_id), h)
        else after_condition config (evaluate_loop_condition config h) iteration

    unfoldable pub run_loop : WorkflowLoop → List String → Held World → Outcome × Held World
    run_loop config steps h =
        let limit = iteration_limit config.max_iterations in
        wrap_loop (run_iterations config steps limit 0 limit h)
