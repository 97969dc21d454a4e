-- ===== src/Workflow/Runner/Compensation.antt =====
-- backend/services/ai-kernel/src/agents/workflow/workflow-runner.ts: `runCompensation` of
-- WorkflowRunner.
pub mod Laws
use nexus_ai_workspace.Common.{
  ℕ, zero, suc, String, Bool, true, false, not, List, [], ◌∷◌, ◌++◌, Option, none, some, ◌+◌, ◌&&◌,
  ltb, ◌==◌, length, reverse, if◌then◌else◌, some_of,
}
use nexus_ai_workspace.Common.Map.{get}
use nexus_ai_workspace.Common.Integers.{ℤ, pos, negsuc, less, is_positive, reaches}
use nexus_ai_workspace.Workflow.{
  WorkflowState, WorkflowLoop, LoopType, completed, failed, while_loop, for_loop, for_each_loop,
}
use nexus_ai_workspace.Workflow.Execution.{
  WorkflowExecution, StepExecution, Thrown, Variable, array, scalar, error, prefixed, loop_exceeded,
  workflow_cancelled, workflow_step, workflow_execution, workflow_condition, is_cancelled,
  is_paused,
}
use nexus_ai_workspace.Workflow.Runner.{
  Outcome, Attempt, Answer, Held, Executor, returns, throws, finished, threw, truth, refused,
  should_continue_on_failure, complete_step, fail_step, run_sequential,
}

-- The `catch` of `runCompensation` notes the error and goes on.
abbrev pub note_error :
    String → Thrown → Option (List (String × Thrown)) → Option (List (String × Thrown))
note_error id t none = some ((id, t) ∷ [])
note_error id t (some errors) = some (errors ++ (id, t) ∷ [])

module _ {World : Type 0} where
  abbrev pub after_compensation : String → Outcome × Held World → Held World
  after_compensation id (returns, (e, w)) =
      (record e { compensated_steps = e.compensated_steps ++ id ∷ [] }, w)
  after_compensation id (throws t, (e, w)) = (
    record e {
      metadata = record e.metadata {
        compensation_errors = note_error id t e.metadata.compensation_errors;
      };
    },
    w,
  )

  module _ (executor : Executor World) where
    unfoldable pub compensate : List String → Held World → Held World
    compensate [] h = h
    compensate (id ∷ ids) h = compensate ids (after_compensation id (executor.compensate_step id h))

    unfoldable pub run_compensation : List String → Held World → Held World
    run_compensation ids h = compensate (reverse ids) h
