-- ===== src/Workflow/Runner/Sequences.antt =====
-- `runSequential` of WorkflowRunner over steps that end as they are told to and leave the execution
-- to the runner.
use nexus_ai_workspace.Common.{
  ℕ, String, ◌≡◌, refl, sym, ◌∙◌, Bool, true, false, not, List, [], ◌∷◌, ◌++◌, some, ◌+◌, length,
  select, arith, Bool-cases, inl, inr, All, if◌then◌else◌,
}
use mathlib.Core.List.{append_assoc, append-nil}
use nexus_ai_workspace.Common.Integers.{is_positive}
use nexus_ai_workspace.Workflow.{WorkflowState, running, completed, failed}
use nexus_ai_workspace.Workflow.Execution.{
  WorkflowExecution, StepExecution, error, workflow_step, workflow_execution, is_cancelled,
  is_paused,
}
use nexus_ai_workspace.Workflow.Runner.{
  Executor, returns, throws, finished, should_continue_on_failure, complete_step, fail_step, caught,
  run_sequential,
}

-- The execution after some steps.
pub record Tracked (e e' : WorkflowExecution) (done bad : List String) (failures : ℕ) : Type 0 where
  pub completed : e'.completed_steps ≡ e.completed_steps ++ done
  pub failed : e'.failed_steps ≡ e.failed_steps ++ bad
  pub counted : e'.failure_count ≡ e.failure_count + failures

never_continues :
    (e : WorkflowExecution)
    → e.metadata.failure_policy.continue_on_error ≡ false
    → should_continue_on_failure e ≡ false
unfolding should_continue_on_failure
never_continues e h = rw h

always_continues :
    (e : WorkflowExecution)
    → e.metadata.failure_policy.continue_on_error ≡ true
    → is_positive e.metadata.failure_policy.max_failures ≡ false
    → should_continue_on_failure e ≡ true
unfolding should_continue_on_failure
always_continues e h p = rw (h, p)

running-goes_on :
    (s : WorkflowState) → s ≡ running → (is_cancelled s ≡ false) × (is_paused s ≡ false)
running-goes_on s h = rw h (refl, refl)

-- `P`, of an execution's id, its workflow's id and the world, holds between the calls; where it
-- does, a call of `executeStep` for the step ends, as `good` says, leaves the execution as it is,
-- and keeps `P`.
abbrev pub StepEnds :
    {World : Type 0}
    → Executor World
    → (String → Bool)
    → (String → String → World → Type 0)
    → String
    → Type 0
StepEnds {World} executor good P id =
    (e : WorkflowExecution) (w : World)
    → P e.execution_id e.workflow_id w
    → (s : StepExecution) × (w' : World) × (executor.execute_step id (e, w) ≡ (finished s, (e, w')))
      × (s.state ≡ (if good id then completed else failed))
      × P e.execution_id e.workflow_id w'

module _ {World : Type 0} (executor : Executor World) (good : String → Bool)
    (P : String → String → World → Type 0) where
  -- Suppose that each call of `executeStep` for the steps `before` and for `id` ends with a step
  -- that is completed for `before` and failed for `id`, and leaves the execution as it is, as long
  -- as a predicate `P` of its id, its workflow's id and the world holds, which these calls keep. If
  -- `P` holds, the policy does not continue on errors and the execution is running, then
  -- `runSequential` throws at `id`: `before` are completed, the steps after `id` are not run, and
  -- `id` is noted as failed twice and counted as two failures.
  pub run_sequential-stops :
      (before : List String) (id : String) (after : List String) (e : WorkflowExecution) (w : World)
      → All (StepEnds executor good P) before
      → StepEnds executor good P id
      → P e.execution_id e.workflow_id w
      → e.state ≡ running
      → e.metadata.failure_policy.continue_on_error ≡ false
      → All (λ i. good i ≡ true) before
      → good id ≡ false
      → ((run_sequential executor (before ++ id ∷ after) (e, w)).0
          ≡ throws (
              workflow_execution e.execution_id e.workflow_id
                (some id)
                (workflow_step id e.execution_id "sequential" (error ""))))
        × Tracked e
            (run_sequential executor (before ++ id ∷ after) (e, w)).1.0
            before
            (id ∷ id ∷ [])
            2
  unfolding run_sequential fail_step complete_step caught
  run_sequential-stops [] id after e w all one p s c g b =
      let e' = record e { current_step_id = some id } in
      let go = running-goes_on e.state s in
      let (step, w', runs, state, _) = one e' w p in
      rw
        (
          go.0,
          go.1,
          runs,
          state,
          b,
          never_continues (fail_step id e') c,
          never_continues (fail_step id (fail_step id e')) c,
        )
        (
          refl,
          record {
            completed = sym (append-nil _);
            failed = append_assoc e.failed_steps (id ∷ []) (id ∷ []);
            counted = omega arith;
          },
        )
  run_sequential-stops (i ∷ before) id after e w all one p s c g b =
      let e' = record e { current_step_id = some i } in
      let go = running-goes_on e.state s in
      let (step, w', runs, state, q) = all.0 e' w p in
      let ih = run_sequential-stops before id after (complete_step i e') w' all.1 one q s c g.1 b in
      rw (go.0, go.1, runs, state, g.0)
        (
          ih.0,
          record {
            completed = ih.1.completed ∙ append_assoc e.completed_steps (i ∷ []) before;
            failed = ih.1.failed;
            counted = ih.1.counted;
          },
        )

  -- Suppose that each call of `executeStep` for the listed steps ends with a step that is completed
  -- or failed, as `good` says of its id, and leaves the execution as it is, as long as a predicate
  -- `P` of its id, its workflow's id and the world holds, which these calls keep. If `P` holds, the
  -- policy continues on errors without a limit and the execution is running, then `runSequential`
  -- runs every step and returns: the steps that are good are completed, in order, each of the
  -- others is noted as failed once, in order, and counted as one failure.
  pub run_sequential-continues :
      (ids : List String) (e : WorkflowExecution) (w : World)
      → All (StepEnds executor good P) ids
      → P e.execution_id e.workflow_id w
      → e.state ≡ running
      → e.metadata.failure_policy.continue_on_error ≡ true
      → is_positive e.metadata.failure_policy.max_failures ≡ false
      → ((run_sequential executor ids (e, w)).0 ≡ returns)
        × Tracked e
            (run_sequential executor ids (e, w)).1.0
            (select good ids)
            (select (λ i. not (good i)) ids)
            (length (select (λ i. not (good i)) ids))
  unfolding run_sequential fail_step complete_step
  run_sequential-continues [] e w all p s c m = (
    refl,
    record { completed = sym (append-nil _); failed = sym (append-nil _); counted = omega arith },
  )
  run_sequential-continues (i ∷ ids) e w all p s c m =
      let e' = record e { current_step_id = some i } in
      let go = running-goes_on e.state s in
      let (step, w', runs, state, q) = all.0 e' w p in
      elim (Bool-cases (good i)) [
        | inl g ↦
            let ih = run_sequential-continues ids (complete_step i e') w' all.1 q s c m in
            rw (go.0, go.1, runs, state, g)
              (
                ih.0,
                record {
                  completed = ih.1.completed ∙ append_assoc e.completed_steps (i ∷ []) _;
                  failed = ih.1.failed;
                  counted = ih.1.counted;
                },
              )
        | inr g ↦
            let ih = run_sequential-continues ids (fail_step i e') w' all.1 q s c m in
            rw (go.0, go.1, runs, state, g, always_continues (fail_step i e') c m)
              (
                ih.0,
                record {
                  completed = ih.1.completed;
                  failed = ih.1.failed ∙ append_assoc e.failed_steps (i ∷ []) _;
                  counted = omega (arith, ih.1.counted);
                },
              )
      ]
