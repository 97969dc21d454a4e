-- ===== src/Workflow/Runner/Loop/Laws.antt =====
-- `runLoop` of WorkflowRunner: when it returns, and that a counting loop never does.
use nexus_ai_workspace.Common.{
  ℕ, zero, suc, String, ◌≡◌, refl, ap, ◌∙◌, Bool, true, false, List, [], ◌∷◌, ◌+◌, ◌<◌, ltb, arith,
  Bool-cases, inl, inr,
}
use nexus_ai_workspace.Common.Integers.{pos, less}
use nexus_ai_workspace.Workflow.{WorkflowState, WorkflowLoop, for_loop, completed, failed}
use nexus_ai_workspace.Workflow.Execution.{Thrown, is_cancelled, is_paused}
use nexus_ai_workspace.Workflow.Runner.{
  Outcome, Attempt, Answer, Held, Executor, returns, throws, finished, threw, truth, refused,
  should_continue_on_failure, complete_step, fail_step, and_then, caught, ended, after_step,
  with_current, run_sequential,
}
use nexus_ai_workspace.Workflow.Runner.Loop.{
  or_zero, iteration_limit, enter_iteration, after_body, after_condition, wrap_loop, count_failure,
  evaluate_loop_condition, run_iterations, run_loop,
}

abbrev pub Throws : Outcome → Type 0
Throws returns = ⊥
Throws (throws t) = Unit

abbrev pub Result : Type 0 → Type 0
Result World = Outcome × Held World

module _ {World : Type 0} where
  -- The index of the current iteration, as the condition of a counting loop reads it.
  abbrev pub iteration_of : Held World → ℕ
  iteration_of h = or_zero h.0.context.loop_iteration

  after_condition-elim :
      (P : Result World → Type 0) (config : WorkflowLoop) (r : Answer × Held World)
      (next : Held World → Result World)
      → ((h : Held World) → r ≡ (truth false, h) → P (returns, h))
      → ((h : Held World) → r ≡ (truth true, h) → P (next h))
      → ((t : Thrown) (h : Held World) → P (throws t, h))
      → P (after_condition config r next)
  after_condition-elim P config (truth false, h) next s c f = s h refl
  after_condition-elim P config (truth true, h) next s c f = c h refl
  after_condition-elim P config (refused t, (e, w)) next s c f = f _ (e, w)

  after_body-elim :
      (P : Result World → Type 0) (b : Bool) (r : Result World) (next : Held World → Result World)
      → ((h : Held World) → iteration_of h ≡ iteration_of r.1 → P (next h))
      → ((t : Thrown) (h : Held World) → P (throws t, h))
      → P (after_body b r next)
  after_body-elim P b (returns, h) next c f = c h refl
  after_body-elim P true (throws t, h) next c f = f t h
  after_body-elim P false (throws t, (e, w)) next c f = c (count_failure (e, w)) refl

  module _ (executor : Executor World) (config : WorkflowLoop) (steps : List String) where
    -- An execution that the condition of the loop leaves, with the answer that the loop is over.
    abbrev pub IsOver : Held World → Type 0
    IsOver h = (k : Held World) × (evaluate_loop_condition executor config k ≡ (truth false, h))

    abbrev EndsOver : Result World → Type 0
    EndsOver r = r.0 ≡ returns → IsOver r.1

    run_iterations-EndsOver :
        (limit i left : ℕ) (h : Held World)
        → EndsOver (run_iterations executor config steps limit i left h)
    unfolding run_iterations
    run_iterations-EndsOver limit i zero h = λ e. cc e
    run_iterations-EndsOver limit i (suc left) h = elim (Bool-cases (is_cancelled h.0.state)) [
      | inl p ↦ rw p (λ e. cc e)
      | inr p ↦ rw p (
          after_condition-elim EndsOver config (evaluate_loop_condition executor config h) _
            (λ k e _. (h, e))
            (λ k e.
              after_body-elim EndsOver config.break_on_error
                (run_sequential executor steps (enter_iteration i limit k)) _
                (λ j _. run_iterations-EndsOver limit (i + 1) left j) (λ t j q. cc q))
            (λ t k q. cc q))
    ]

    wrap_loop-EndsOver : (r : Result World) → EndsOver r → EndsOver (wrap_loop r)
    wrap_loop-EndsOver (returns, (e, w)) h q = h refl
    wrap_loop-EndsOver (throws t, (e, w)) h q = cc q

    -- If `runLoop` returns, then the last thing that it did was to ask for the loop's condition,
    -- with the answer that the loop is over: it is not cut short by its limit.
    pub run_loop-IsOver :
        (h : Held World)
        → (run_loop executor config steps h).0 ≡ returns
        → IsOver (run_loop executor config steps h).1
    unfolding run_loop
    run_loop-IsOver h =
        let limit = iteration_limit config.max_iterations in
        wrap_loop-EndsOver (run_iterations executor config steps limit 0 limit h)
          (run_iterations-EndsOver limit 0 limit h)

  -- A step leaves the index of the current iteration as it is.
  abbrev pub KeepsIteration : Executor World → Type 0
  KeepsIteration executor =
      (id : String) (h : Held World) → iteration_of (executor.execute_step id h).1 ≡ iteration_of h

  caught-iteration :
      (id : String) (t : Thrown) (h : Held World) → iteration_of (caught id t h).1 ≡ iteration_of h
  unfolding caught fail_step
  caught-iteration id t (e, w) = elim (Bool-cases (should_continue_on_failure (fail_step id e))) [
    | inl p ↦ rw p refl
    | inr p ↦ rw p refl
  ]

  ended-iteration :
      (id : String) (s : WorkflowState) (h : Held World)
      → iteration_of (ended id s h).1 ≡ iteration_of h
  unfolding complete_step fail_step
  ended-iteration id completed (e, w) = refl
  ended-iteration id failed (e, w) =
      elim (Bool-cases (should_continue_on_failure (fail_step id e))) [
        | inl p ↦ rw p refl
        | inr p ↦ rw p (caught-iteration id _ (fail_step id e, w))
      ]
  ended-iteration id _ h = refl

  after_step-iteration :
      (id : String) (r : Attempt × Held World) → iteration_of (after_step id r).1 ≡ iteration_of r.1
  after_step-iteration id (finished s, h) = ended-iteration id s.state h
  after_step-iteration id (threw t, h) = caught-iteration id t h

  and_then-iteration :
      (r : Result World) (next : Held World → Result World)
      → ((h : Held World) → iteration_of (next h).1 ≡ iteration_of h)
      → iteration_of (and_then r next).1 ≡ iteration_of r.1
  and_then-iteration (returns, h) next k = k h
  and_then-iteration (throws t, h) next k = refl

  module _ (executor : Executor World) (keeps : KeepsIteration executor) where
    run_sequential-iteration :
        (ids : List String) (h : Held World)
        → iteration_of (run_sequential executor ids h).1 ≡ iteration_of h
    unfolding run_sequential
    run_sequential-iteration [] h = refl
    run_sequential-iteration (id ∷ ids) h = elim (Bool-cases (is_cancelled h.0.state)) [
      | inl p ↦ rw p refl
      | inr p ↦ elim (Bool-cases (is_paused h.0.state)) [
        | inl q ↦ rw (p, q) refl
        | inr q ↦
            rw (p, q)
              (and_then-iteration (after_step id (executor.execute_step id (with_current id h))) _
                  (run_sequential-iteration ids)
                ∙ after_step-iteration id (executor.execute_step id (with_current id h))
                ∙ keeps id (with_current id h))
      ]
    ]

    module _ (config : WorkflowLoop) (steps : List String) (n : ℕ)
        (counting : config.loop_type ≡ for_loop) (most : config.max_iterations ≡ pos (suc n)) where
      evaluate-goes_on :
          (h : Held World)
          → iteration_of h < suc n
          → evaluate_loop_condition executor config h ≡ (truth true, h)
      unfolding evaluate_loop_condition less
      evaluate-goes_on (e, w) l =
          let test : ltb (or_zero e.context.loop_iteration) (suc n) ≡ true = ground (arith, l) in
          rw (counting, most, test) refl

      run_iterations-Throws :
          (i left : ℕ) (h : Held World)
          → i + left ≡ suc n
          → iteration_of h < suc n
          → Throws (run_iterations executor config steps (suc n) i left h).0
      unfolding run_iterations
      run_iterations-Throws i zero h s l = tt
      run_iterations-Throws i (suc left) h s l = elim (Bool-cases (is_cancelled h.0.state)) [
        | inl p ↦ rw p tt
        | inr p ↦
            rw (p, evaluate-goes_on h l)
              (after_body-elim (λ r. Throws r.0) config.break_on_error
                (run_sequential executor steps (enter_iteration i (suc n) h)) _
                (λ k e. run_iterations-Throws (i + 1) left k (omega (arith, s)) (
                  omega
                    (arith, s, e, run_sequential-iteration steps (enter_iteration i (suc n) h))))
                (λ t k. tt))
      ]

      wrap_loop-Throws : (r : Result World) → Throws r.0 → Throws (wrap_loop r).0
      wrap_loop-Throws (returns, _) h = elim h [ ]
      wrap_loop-Throws (throws t, (e, w)) h = tt

      -- If a loop has the type "for" and a positive maximum, its steps leave the index of the
      -- iteration as it is, and that index is below the maximum at the start, then `runLoop`
      -- throws: after its last iteration such a loop is always taken to have exceeded its maximum.
      pub run_loop_for-Throws :
          (h : Held World) → iteration_of h < suc n → Throws (run_loop executor config steps h).0
      unfolding run_loop iteration_limit
      run_loop_for-Throws h l =
          let limit : iteration_limit config.max_iterations ≡ suc n = ap iteration_limit most in
          rw limit (
            wrap_loop-Throws (run_iterations executor config steps (suc n) 0 (suc n) h)
              (run_iterations-Throws 0 (suc n) h (omega arith) l))
