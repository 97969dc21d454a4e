-- ===== src/Workflow/Runner/Counting.antt =====
-- WorkflowRunner counts the failures of an execution: every failed step is counted.
use nexus_ai_workspace.Common.{
  ℕ, zero, suc, String, Bool, true, false, List, [], ◌∷◌, ◌≤◌, ◌+◌, length, length-append, arith,
  Bool-cases, inl, inr, reverse,
}
use nexus_ai_workspace.Workflow.{
  WorkflowState, WorkflowLoop, LoopType, completed, failed, while_loop, for_loop, for_each_loop,
}
use nexus_ai_workspace.Workflow.Execution.{WorkflowExecution, Thrown, is_cancelled, is_paused}
use nexus_ai_workspace.Workflow.Runner.{
  Outcome, Attempt, Answer, Held, Executor, returns, throws, finished, threw, truth, refused,
  should_continue_on_failure, complete_step, fail_step, and_then, caught, ended, after_step,
  with_current, wrap_condition, run_sequential, choose, run_conditional,
}
use nexus_ai_workspace.Workflow.Runner.Loop.{
  iteration_limit, enter_iteration, after_body, after_condition, count_failure,
  evaluate_loop_condition, run_iterations, run_loop,
}
use nexus_ai_workspace.Workflow.Runner.Compensation.{
  after_compensation, compensate, run_compensation,
}

-- No more steps are noted as failed than failures are counted.
abbrev pub IsCounted : WorkflowExecution → Type 0
IsCounted e = length e.failed_steps ≤ e.failure_count

pub fail_step-IsCounted :
    (id : String) (e : WorkflowExecution) → IsCounted e → IsCounted (fail_step id e)
unfolding fail_step
fail_step-IsCounted id e c = omega (arith, length-append e.failed_steps (id ∷ []))

module _ {World : Type 0} where
  -- A call ends with an execution whose failures are counted.
  abbrev pub EndsCounted {ℓ} : {R : Type ℓ} → R × Held World → Type 0
  EndsCounted (r, h) = IsCounted h.0

  -- What the calls of the executor keep.
  pub record KeepsCount (executor : Executor World) : Type 0 where
    pub steps :
        (id : String) (h : Held World) → IsCounted h.0 → EndsCounted (executor.execute_step id h)
    pub conditions :
        (c : String) (h : Held World)
        → IsCounted h.0
        → EndsCounted (executor.evaluate_condition c h)
    pub compensations :
        (id : String) (h : Held World) → IsCounted h.0 → EndsCounted (executor.compensate_step id h)

  and_then-EndsCounted :
      (r : Outcome × Held World) (next : Held World → Outcome × Held World)
      → EndsCounted r
      → ((h : Held World) → IsCounted h.0 → EndsCounted (next h))
      → EndsCounted (and_then r next)
  and_then-EndsCounted (returns, h) next c k = k h c
  and_then-EndsCounted (throws t, h) next c k = c

  caught-EndsCounted :
      (id : String) (t : Thrown) (h : Held World) → IsCounted h.0 → EndsCounted (caught id t h)
  unfolding caught
  caught-EndsCounted id t (e, w) c =
      elim (Bool-cases (should_continue_on_failure (fail_step id e))) [
        | inl p ↦ rw p (fail_step-IsCounted id e c)
        | inr p ↦ rw p (fail_step-IsCounted id e c)
      ]

  ended-EndsCounted :
      (id : String) (s : WorkflowState) (h : Held World)
      → IsCounted h.0
      → EndsCounted (ended id s h)
  unfolding complete_step
  ended-EndsCounted id completed (e, w) c = c
  ended-EndsCounted id failed (e, w) c =
      elim (Bool-cases (should_continue_on_failure (fail_step id e))) [
        | inl p ↦ rw p (fail_step-IsCounted id e c)
        | inr p ↦ rw p (caught-EndsCounted id _ (fail_step id e, w) (fail_step-IsCounted id e c))
      ]
  ended-EndsCounted id _ h c = c

  after_step-EndsCounted :
      (id : String) (r : Attempt × Held World) → EndsCounted r → EndsCounted (after_step id r)
  after_step-EndsCounted id (finished s, h) c = ended-EndsCounted id s.state h c
  after_step-EndsCounted id (threw t, h) c = caught-EndsCounted id t h c

  wrap_condition-EndsCounted :
      (s : String) (r : Outcome × Held World) → EndsCounted r → EndsCounted (wrap_condition s r)
  wrap_condition-EndsCounted s (returns, h) c = c
  wrap_condition-EndsCounted s (throws t, (e, w)) c = c

  after_body-EndsCounted :
      (b : Bool) (r : Outcome × Held World) (next : Held World → Outcome × Held World)
      → EndsCounted r
      → ((h : Held World) → IsCounted h.0 → EndsCounted (next h))
      → EndsCounted (after_body b r next)
  after_body-EndsCounted b (returns, h) next c k = k h c
  after_body-EndsCounted true (throws t, h) next c k = c
  after_body-EndsCounted false (throws t, (e, w)) next c k =
      k (count_failure (e, w)) (omega (arith, c))

  after_condition-EndsCounted :
      (config : WorkflowLoop) (r : Answer × Held World) (next : Held World → Outcome × Held World)
      → EndsCounted r
      → ((h : Held World) → IsCounted h.0 → EndsCounted (next h))
      → EndsCounted (after_condition config r next)
  after_condition-EndsCounted config (truth false, h) next c k = c
  after_condition-EndsCounted config (truth true, h) next c k = k h c
  after_condition-EndsCounted config (refused t, (e, w)) next c k = c

  after_compensation-IsCounted :
      (id : String) (r : Outcome × Held World)
      → EndsCounted r
      → IsCounted (after_compensation id r).0
  after_compensation-IsCounted id (returns, (e, w)) c = c
  after_compensation-IsCounted id (throws t, (e, w)) c = c

  module _ (executor : Executor World) (keeps : KeepsCount executor) where
    -- If no call of the executor leaves a failed step uncounted, then neither does `runSequential`:
    -- the steps that it notes as failed are at most the failures that it counts.
    pub run_sequential-EndsCounted :
        (ids : List String) (h : Held World)
        → IsCounted h.0
        → EndsCounted (run_sequential executor ids h)
    unfolding run_sequential
    run_sequential-EndsCounted [] h c = c
    run_sequential-EndsCounted (id ∷ ids) h c = elim (Bool-cases (is_cancelled h.0.state)) [
      | inl p ↦ rw p c
      | inr p ↦ elim (Bool-cases (is_paused h.0.state)) [
        | inl q ↦ rw (p, q) c
        | inr q ↦
            rw (p, q)
              (and_then-EndsCounted (after_step id (executor.execute_step id (with_current id h))) _
                (after_step-EndsCounted id (executor.execute_step id (with_current id h))
                  (keeps.steps id (with_current id h) c))
                (run_sequential-EndsCounted ids))
      ]
    ]

    choose-EndsCounted :
        (xs ys : List String) (r : Answer × Held World)
        → EndsCounted r
        → EndsCounted (choose executor xs ys r)
    choose-EndsCounted xs ys (truth b, h) c = run_sequential-EndsCounted _ h c
    choose-EndsCounted xs ys (refused t, h) c = c

    pub run_conditional-EndsCounted :
        (s : String) (xs ys : List String) (h : Held World)
        → IsCounted h.0
        → EndsCounted (run_conditional executor s xs ys h)
    unfolding run_conditional
    run_conditional-EndsCounted s xs ys h c =
        wrap_condition-EndsCounted s (choose executor xs ys (executor.evaluate_condition s h))
          (choose-EndsCounted xs ys (executor.evaluate_condition s h) (keeps.conditions s h c))

    evaluate_loop_condition-EndsCounted :
        (config : WorkflowLoop) (h : Held World)
        → IsCounted h.0
        → EndsCounted (evaluate_loop_condition executor config h)
    unfolding evaluate_loop_condition
    evaluate_loop_condition-EndsCounted config (e, w) c = cases config.loop_type
      where
        cases :
            (l : LoopType)
            → EndsCounted
                (evaluate_loop_condition executor (record config { loop_type = l }) (e, w))
        cases while_loop = keeps.conditions _ (e, w) c
        cases for_loop = c
        cases for_each_loop = c

    run_iterations-EndsCounted :
        (config : WorkflowLoop) (steps : List String) (limit i left : ℕ) (h : Held World)
        → IsCounted h.0
        → EndsCounted (run_iterations executor config steps limit i left h)
    unfolding run_iterations
    run_iterations-EndsCounted config steps limit i zero h c = c
    run_iterations-EndsCounted config steps limit i (suc left) h c =
        elim (Bool-cases (is_cancelled h.0.state)) [
          | inl p ↦ rw p c
          | inr p ↦ rw p (
              after_condition-EndsCounted config (evaluate_loop_condition executor config h) _
                (evaluate_loop_condition-EndsCounted config h c)
                (λ k d.
                  after_body-EndsCounted config.break_on_error
                    (run_sequential executor steps (enter_iteration i limit k)) _
                    (run_sequential-EndsCounted steps (enter_iteration i limit k) d)
                    (run_iterations-EndsCounted config steps limit (i + 1) left)))
        ]

    pub run_loop-EndsCounted :
        (config : WorkflowLoop) (steps : List String) (h : Held World)
        → IsCounted h.0
        → EndsCounted (run_loop executor config steps h)
    unfolding run_loop
    run_loop-EndsCounted config steps h c =
        run_iterations-EndsCounted config steps (iteration_limit config.max_iterations) 0
          (iteration_limit config.max_iterations) h c

    compensate-IsCounted :
        (ids : List String) (h : Held World)
        → IsCounted h.0
        → IsCounted (compensate executor ids h).0
    unfolding compensate
    compensate-IsCounted [] h c = c
    compensate-IsCounted (id ∷ ids) h c =
        compensate-IsCounted ids (after_compensation id (executor.compensate_step id h)) (
          after_compensation-IsCounted id (executor.compensate_step id h)
            (keeps.compensations id h c))

-- The calls of a runner.
pub data RunnerCall : Type 0 where
  sequential_call compensation_call : List String → RunnerCall
  conditional_call : String → List String → List String → RunnerCall
  loop_call : WorkflowLoop → List String → RunnerCall

abbrev pub run_call :
    {World : Type 0} → Executor World → RunnerCall → Held World → WorkflowExecution
run_call executor (sequential_call ids) h = (run_sequential executor ids h).1.0
run_call executor (compensation_call ids) h = (run_compensation executor ids h).0
run_call executor (conditional_call c xs ys) h = (run_conditional executor c xs ys h).1.0
run_call executor (loop_call config ids) h = (run_loop executor config ids h).1.0

-- If no call of the executor notes more failed steps than it counts failures, then neither does
-- `runSequential`, `runConditional`, `runLoop` or `runCompensation`: after the call, as before it,
-- the steps noted as failed are at most `failureCount`, whether it returns or throws.
pub run_call-IsCounted :
    {World : Type 0} (executor : Executor World) (keeps : KeepsCount executor) (c : RunnerCall)
    (h : Held World)
    → IsCounted h.0
    → IsCounted (run_call executor c h)
unfolding run_compensation
run_call-IsCounted executor keeps (sequential_call ids) h c =
    run_sequential-EndsCounted executor keeps ids h c
run_call-IsCounted executor keeps (compensation_call ids) h c =
    compensate-IsCounted executor keeps (reverse ids) h c
run_call-IsCounted executor keeps (conditional_call s xs ys) h c =
    run_conditional-EndsCounted executor keeps s xs ys h c
run_call-IsCounted executor keeps (loop_call config ids) h c =
    run_loop-EndsCounted executor keeps config ids h c
