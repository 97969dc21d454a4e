-- ===== src/Workflow/Engine/Leaves.antt =====
-- WorkflowEngine as the executor of WorkflowRunner, on the steps without a field `steps`.
use nexus_ai_workspace.Common.{
  ℕ, String, ◌≡◌, refl, Bool, true, false, Option, some, ===_refl, if◌then◌else◌,
}
use nexus_ai_workspace.Common.Map.{Map, get, set, get-set}
use nexus_ai_workspace.Workflow.{
  WorkflowStepType, WorkflowDefinition, StepFields, plain, completed, failed, task, sequence,
  parallel, conditional, loop, compensation,
}
use nexus_ai_workspace.Workflow.Steps.{find_step}
use nexus_ai_workspace.Workflow.Execution.{StepExecution, StepOutput, error}
use nexus_ai_workspace.Workflow.Runner.{Executor, Answer, Outcome, Held, returns, throws}
use nexus_ai_workspace.Workflow.Runner.Sequences.{StepEnds}
use nexus_ai_workspace.Workflow.Engine.{
  WorkflowEngine, Runner, run_by_type, close_step, execute_step,
}

-- The engine as IWorkflowExecutor, with the two times of a call of `executeStep`. `compensateStep`
-- always returns.
abbrev pub executor_of :
    (String → Option WorkflowDefinition)
    → Runner
    → (now later : ℕ) → (String → Held WorkflowEngine → Answer × Held WorkflowEngine)
    → Executor WorkflowEngine
executor_of registry runner now later evaluate = record {
  execute_step = λ id h. execute_step registry runner id now later h;
  evaluate_condition = evaluate;
  compensate_step = λ id h. (returns, h);
}

-- `executeStep` does not know the type COMPENSATION.
abbrev pub ends_well : WorkflowStepType → Bool
ends_well compensation = false
ends_well _ = true

-- The workflow is registered, and the engine has a map for the steps of the execution.
abbrev pub IsReady :
    (String → Option WorkflowDefinition)
    → WorkflowDefinition
    → (execution workflow : String) → WorkflowEngine
    → Type 0
IsReady registry w execution workflow engine =
    (registry workflow ≡ some w)
    × ((m : Map StepExecution) × (get execution engine.step_executions ≡ some m))

module _ (registry : String → Option WorkflowDefinition) (runner : Runner) where
  abbrev outcome_of : WorkflowStepType → Outcome
  outcome_of t =
      if ends_well t then returns else throws (error "Unsupported step type: compensation")

  run_leaf :
      (t : WorkflowStepType) (f : StepFields) (h : Held WorkflowEngine)
      → run_by_type registry runner t (plain f) h ≡ (outcome_of t, h)
  run_leaf task f h = refl
  run_leaf sequence f h = refl
  run_leaf parallel f h = refl
  run_leaf conditional f h = refl
  run_leaf loop f h = refl
  run_leaf compensation f h = refl

  close_leaf :
      (t : WorkflowStepType) (out : StepOutput) (now : ℕ) (s : StepExecution)
      → (close_step registry runner (outcome_of t) out now s).state
        ≡ (if ends_well t then completed else failed)
  close_leaf task out now s = refl
  close_leaf sequence out now s = refl
  close_leaf parallel out now s = refl
  close_leaf conditional out now s = refl
  close_leaf loop out now s = refl
  close_leaf compensation out now s = refl

  close_leaf-execution_id :
      (t : WorkflowStepType) (out : StepOutput) (now : ℕ) (s : StepExecution)
      → (close_step registry runner (outcome_of t) out now s).execution_id ≡ s.execution_id
  close_leaf-execution_id task out now s = refl
  close_leaf-execution_id sequence out now s = refl
  close_leaf-execution_id parallel out now s = refl
  close_leaf-execution_id conditional out now s = refl
  close_leaf-execution_id loop out now s = refl
  close_leaf-execution_id compensation out now s = refl

  get-set_same :
      {V : Type 0} (j k : String) (v : V) (m : Map V) → k ≡ j → get j (set k v m) ≡ some v
  get-set_same j k v m e = rw (get-set k j v m, e, ===_refl j) refl

  -- A step without steps ends, well unless its type is COMPENSATION.
  pub leaf-StepEnds :
      (now later : ℕ) (evaluate : String → Held WorkflowEngine → Answer × Held WorkflowEngine)
      (good : String → Bool) (w : WorkflowDefinition) (id : String) (f : StepFields)
      → find_step id w.steps ≡ some (plain f)
      → good id ≡ ends_well f.step_type
      → StepEnds (executor_of registry runner now later evaluate) good (IsReady registry w) id
  unfolding execute_step
  leaf-StepEnds now later evaluate good w id f found ends e engine (registered, (m, steps)) =
      let t = f.step_type in
      rw (execute_step, registered, found, run_leaf t f (e, engine), steps, ends)
        (
          _,
          _,
          refl,
          close_leaf t _ later _,
          (
            refl,
            (
              _,
              get-set_same e.execution_id _ _ engine.step_executions
                  (close_leaf-execution_id t _ later _),
            ),
          ),
        )
