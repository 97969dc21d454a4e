-- ===== src/Workflow/Engine/Steps.antt =====
-- `executeStep` of WorkflowEngine: a step that is found ends, and its end is recorded.
use nexus_ai_workspace.Common.{
  ℕ, String, ◌≡◌, refl, ap, ◌∙◌, true, Option, none, some, inl, inr, ◌⊎◌, ===_refl, is_some, List,
}
use nexus_ai_workspace.Common.Map.{Map, get, set, get-set}
use nexus_ai_workspace.Workflow.{
  WorkflowStep, WorkflowStepType, WorkflowSteps, WorkflowDefinition, WorkflowLoop,
  WorkflowCondition, plain, composite, completed, failed, task, sequence, parallel, conditional,
  loop, compensation,
}
use nexus_ai_workspace.Workflow.Steps.{find_step, fields_of}
use nexus_ai_workspace.Workflow.Execution.{WorkflowExecution, StepExecution, StepOutput}
use nexus_ai_workspace.Workflow.Runner.{Outcome, Attempt, Held, returns, throws, finished}
use nexus_ai_workspace.Workflow.Runner.Counting.{IsCounted}
use nexus_ai_workspace.Workflow.Engine.{
  WorkflowEngine, Runner, Run, get_step_input, run_conditional_step, run_loop_step, run_by_type,
  close_step, store_step, record_step, new_step_execution, execute_step, run_in, run_found,
}

-- The calls of the runner keep a predicate of the execution and the engine.
pub record RunnerKeeps (P : Held WorkflowEngine → Type 0) (runner : Runner) : Type 0 where
  pub sequential :
      (ids : List String) (h : Held WorkflowEngine) → P h → P (runner.sequential ids h).1
  pub parallel : (ids : List String) (h : Held WorkflowEngine) → P h → P (runner.parallel ids h).1
  pub conditional :
      (c : String) (xs ys : List String) (h : Held WorkflowEngine)
      → P h
      → P (runner.conditional c xs ys h).1
  pub loop :
      (config : WorkflowLoop) (ids : List String) (h : Held WorkflowEngine)
      → P h
      → P (runner.loop config ids h).1

module _ (registry : String → Option WorkflowDefinition) (runner : Runner) where
  module _ (P : Held WorkflowEngine → Type 0) (keeps : RunnerKeeps P runner) where
    conditional_step-keeps :
        (c : Option WorkflowCondition) (ss : WorkflowSteps) (h : Held WorkflowEngine)
        → P h
        → P (run_conditional_step registry runner c ss h).1
    conditional_step-keeps none ss h p = p
    conditional_step-keeps (some c) ss h p = keeps.conditional _ _ _ h p

    loop_step-keeps :
        (c : Option WorkflowLoop) (ss : WorkflowSteps) (h : Held WorkflowEngine)
        → P h
        → P (run_loop_step registry runner c ss h).1
    loop_step-keeps none ss h p = p
    loop_step-keeps (some c) ss h p = keeps.loop _ _ h p

    run_by_type-keeps :
        (t : WorkflowStepType) (s : WorkflowStep) (h : Held WorkflowEngine)
        → P h
        → P (run_by_type registry runner t s h).1
    run_by_type-keeps task s h p = p
    run_by_type-keeps compensation s h p = p
    run_by_type-keeps sequence (plain f) h p = p
    run_by_type-keeps parallel (plain f) h p = p
    run_by_type-keeps conditional (plain f) h p = p
    run_by_type-keeps loop (plain f) h p = p
    run_by_type-keeps sequence (composite f ss) h p = keeps.sequential _ h p
    run_by_type-keeps parallel (composite f ss) h p = keeps.parallel _ h p
    run_by_type-keeps conditional (composite f ss) h p =
        conditional_step-keeps f.step_condition ss h p
    run_by_type-keeps loop (composite f ss) h p = loop_step-keeps f.step_loop ss h p

  -- The engine has a map for the steps of the execution.
  abbrev pub HasSteps : String → Held WorkflowEngine → Type 0
  HasSteps id h = is_some (get id h.1.step_executions) ≡ true

  -- The call ended with a step that is completed or failed, and the engine has recorded it.
  pub record Recorded (execution id : String) (r : Attempt × Held WorkflowEngine) : Type 0 where
    pub step : StepExecution
    pub steps : Map StepExecution
    pub ended : r.0 ≡ finished step
    pub closed : (step.state ≡ completed) ⊎ (step.state ≡ failed)
    pub entry : get execution r.1.1.step_executions ≡ some steps
    pub recorded : get id steps ≡ some step

  close_step-closed :
      (o : Outcome) (out : StepOutput) (now : ℕ) (s : StepExecution)
      → ((close_step registry runner o out now s).state ≡ completed)
        ⊎ ((close_step registry runner o out now s).state ≡ failed)
  close_step-closed returns out now s = inl refl
  close_step-closed (throws t) out now s = inr refl

  close_step-id :
      (o : Outcome) (out : StepOutput) (now : ℕ) (s : StepExecution)
      → (close_step registry runner o out now s).execution_id ≡ s.execution_id
  close_step-id returns out now s = refl
  close_step-id (throws t) out now s = refl

  store_step-Recorded :
      (id execution : String) (s : StepExecution) (h : Held WorkflowEngine)
      (o : Option (Map StepExecution))
      → s.execution_id ≡ execution
      → (s.state ≡ completed) ⊎ (s.state ≡ failed)
      → is_some o ≡ true
      → Recorded execution id (store_step registry runner id s h o)
  store_step-Recorded id execution s h none i c o = cc o
  store_step-Recorded id execution s (e, engine) (some m) i c o = record {
    step = s;
    steps = set id s m;
    ended = refl;
    closed = c;
    entry =
        ap (λ j. get execution (set j (set id s m) engine.step_executions)) i
        ∙ rw (get-set execution execution (set id s m) engine.step_executions, ===_refl execution)
            refl;
    recorded = rw (get-set id id s m, ===_refl id) refl;
  }

  record_step-Recorded :
      (id : String) (s : StepExecution) (out : StepOutput) (now : ℕ) (r : Run)
      → HasSteps s.execution_id r.1
      → Recorded s.execution_id id (record_step registry runner id s out now r)
  record_step-Recorded id s out now (o, (e, engine)) h =
      store_step-Recorded id s.execution_id (close_step registry runner o out now s) (e, engine) _
        (close_step-id o out now s) (close_step-closed o out now s) h

  -- If the workflow is registered and has the step, the engine has a map for the steps of the
  -- execution, and the runner's methods keep such maps, then `executeStep` does not throw, whatever
  -- the step runs: it returns a step that is completed or failed, and the engine records it under
  -- its id.
  pub execute_step-Recorded :
      (keeps : (id : String) → RunnerKeeps (HasSteps id) runner) (id : String) (now later : ℕ)
      (e : WorkflowExecution) (engine : WorkflowEngine) (w : WorkflowDefinition)
      (step : WorkflowStep)
      → registry e.workflow_id ≡ some w
      → find_step id w.steps ≡ some step
      → is_some (get e.execution_id engine.step_executions) ≡ true
      → Recorded e.execution_id id (execute_step registry runner id now later (e, engine))
  unfolding execute_step
  execute_step-Recorded keeps id now later e engine w step r f h =
      let t = (fields_of step).step_type in
      rw (r, f)
        (record_step-Recorded id
          (new_step_execution registry runner w (fields_of step) (get_step_input engine e) e now) _
          later (run_by_type registry runner t step (e, engine))
          (run_by_type-keeps (HasSteps e.execution_id) (keeps e.execution_id) t step (e, engine) h))

  abbrev Counted : Held WorkflowEngine → Type 0
  Counted h = IsCounted h.0

  store_step-Counted :
      (id : String) (s : StepExecution) (h : Held WorkflowEngine) (o : Option (Map StepExecution))
      → Counted h
      → Counted (store_step registry runner id s h o).1
  store_step-Counted id s h none c = c
  store_step-Counted id s (e, engine) (some m) c = c

  run_found-Counted :
      (keeps : RunnerKeeps (λ h. IsCounted h.0) runner) (id : String) (now later : ℕ)
      (w : WorkflowDefinition) (o : Option WorkflowStep) (h : Held WorkflowEngine)
      → IsCounted h.0
      → IsCounted (run_found registry runner id now later w o h).1.0
  run_found-Counted keeps id now later w none (e, engine) c = c
  run_found-Counted keeps id now later w (some step) (e, engine) c =
      let f = fields_of step in
      store_step-Counted id _ (run_by_type registry runner f.step_type step (e, engine)).1 _
        (run_by_type-keeps (λ h. IsCounted h.0) keeps f.step_type step (e, engine) c)

  run_in-Counted :
      (keeps : RunnerKeeps (λ h. IsCounted h.0) runner) (id : String) (now later : ℕ)
      (o : Option WorkflowDefinition) (h : Held WorkflowEngine)
      → IsCounted h.0
      → IsCounted (run_in registry runner id now later o h).1.0
  run_in-Counted keeps id now later none (e, engine) c = c
  run_in-Counted keeps id now later (some w) h c =
      run_found-Counted keeps id now later w (find_step id w.steps) h c

  -- If the runner's methods keep the failed steps at most the counted failures, then so does
  -- `executeStep`, whether it returns or throws: the engine gives the runner what the runner needs.
  pub execute_step-Counted :
      (keeps : RunnerKeeps (λ h. IsCounted h.0) runner) (id : String) (now later : ℕ)
      (h : Held WorkflowEngine)
      → IsCounted h.0
      → IsCounted (execute_step registry runner id now later h).1.0
  unfolding execute_step
  execute_step-Counted keeps id now later h c =
      run_in-Counted keeps id now later (registry h.0.workflow_id) h c
