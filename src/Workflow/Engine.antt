-- ===== src/Workflow/Engine.antt =====
-- backend/services/ai-kernel/src/agents/workflow/workflow-engine.ts: the executions that
-- WorkflowEngine holds. The registry's `find` and the runner's methods are parameters; the new id
-- of an execution and the times are arguments. The object of an execution stands in `executions`
-- from the moment that `execute` stores it; what a method changes in it is seen there too.
pub mod Operations
pub mod Steps
pub mod Ends
pub mod Leaves
use nexus_ai_workspace.Common.{
  ℕ, zero, suc, String, Bool, true, false, List, [], ◌∷◌, Option, none, some, ◌-◌, ◌||◌,
  if◌then◌else◌, ◌===◌,
}
use nexus_ai_workspace.Common.Map.{Map, get, set}
use nexus_ai_workspace.Common.Integers.{ℤ, pos}
use nexus_ai_workspace.Values.{Value}
use nexus_ai_workspace.Workflow.{
  WorkflowState, WorkflowStepType, WorkflowStep, WorkflowSteps, StepFields, WorkflowDefinition,
  WorkflowLoop, WorkflowCondition, RetryPolicy, plain, composite, nil, cons, running, paused,
  failed, completed, cancelled, task, sequence, parallel, conditional, loop, compensation,
  sequential_mode, parallel_mode, mixed_mode,
}
use nexus_ai_workspace.Workflow.Steps.{find_step, fields_of, step_ids, count_total_steps}
use nexus_ai_workspace.Workflow.Execution.{
  WorkflowExecution, WorkflowExecutionContext, StepExecution, StepInput, StepOutput, Thrown,
  workflow_input, output_of_step, no_output, task_result, composite_completed, error,
  workflow_not_found, workflow_step, workflow_execution, is_running, is_paused, is_completed,
}
use nexus_ai_workspace.Workflow.Runner.{Outcome, Attempt, Held, returns, throws, finished, threw}

pub record WorkflowEngine : Type 0 where
  pub executions : Map WorkflowExecution
  pub step_executions : Map (Map StepExecution)

abbrev pub Run : Type 0
Run = Outcome × Held WorkflowEngine

-- IWorkflowRunner, as the engine calls it.
pub record Runner : Type 0 where
  pub sequential : List String → Held WorkflowEngine → Run
  pub parallel : List String → Held WorkflowEngine → Run
  pub conditional : String → List String → List String → Held WorkflowEngine → Run
  pub loop : WorkflowLoop → List String → Held WorkflowEngine → Run
  pub compensation : List String → Held WorkflowEngine → Held WorkflowEngine

-- `lastStepExecution?.output || execution.input`
abbrev pub input_from : Value → Option StepExecution → StepInput
input_from v none = workflow_input v
input_from v (some s) = elim s.output [ no_output ↦ workflow_input v | _ ↦ output_of_step s.output ]

abbrev pub last : List String → Option String
last [] = none
last (x ∷ []) = some x
last (x ∷ y ∷ ys) = last (y ∷ ys)

abbrev pub and_get {ℓ} : {V : Type ℓ} → String → Option (Map V) → Option V
and_get k none = none
and_get k (some m) = get k m

unfoldable pub get_step_input : WorkflowEngine → WorkflowExecution → StepInput
get_step_input engine e = elim (last e.completed_steps) [
  | none ↦ workflow_input e.input
  | some id ↦ input_from e.input (and_get id (get e.execution_id engine.step_executions))
]

abbrev pub select_branch : String → WorkflowSteps → List String
select_branch b nil = []
select_branch b (cons s ss) =
    let rest = select_branch b ss in
    if (fields_of s).branch === b then (fields_of s).step_id ∷ rest else rest

module _ (registry : String → Option WorkflowDefinition) (runner : Runner) where
  abbrev pub run_conditional_step :
      Option WorkflowCondition → WorkflowSteps → Held WorkflowEngine → Run
  run_conditional_step none steps h = (returns, h)
  run_conditional_step (some c) steps h =
      runner.conditional c.expression (select_branch "then" steps) (select_branch "else" steps) h

  abbrev pub run_loop_step : Option WorkflowLoop → WorkflowSteps → Held WorkflowEngine → Run
  run_loop_step none steps h = (returns, h)
  run_loop_step (some config) steps h = runner.loop config (step_ids steps) h

  -- The `switch` of `executeStep`: a step without the field `steps` has nothing to run.
  abbrev pub run_by_type : WorkflowStepType → WorkflowStep → Held WorkflowEngine → Run
  run_by_type task s h = (returns, h)
  run_by_type compensation s h = (throws (error "Unsupported step type: compensation"), h)
  run_by_type _ (plain f) h = (returns, h)
  run_by_type sequence (composite f steps) h = runner.sequential (step_ids steps) h
  run_by_type parallel (composite f steps) h = runner.parallel (step_ids steps) h
  run_by_type conditional (composite f steps) h = run_conditional_step f.step_condition steps h
  run_by_type loop (composite f steps) h = run_loop_step f.step_loop steps h

  -- The output that the `switch` sets, `executeTaskStep` included.
  abbrev pub output_by_type : StepFields → WorkflowStepType → StepInput → ℕ → StepOutput
  output_by_type f task input now = task_result f.step_id f.agent_id f.task_name now input
  output_by_type f t input now = composite_completed t

  abbrev pub close_step : Outcome → StepOutput → ℕ → StepExecution → StepExecution
  close_step returns out now s = record s {
    state = completed;
    output = out;
    completed_at = some now;
    duration = some (now - s.started_at);
  }
  close_step (throws t) out now s = record s {
    state = failed;
    error = some t;
    completed_at = some now;
    duration = some (now - s.started_at);
  }

  -- `this.stepExecutions.get(execution.executionId)!.set(stepId, stepExecution)`
  abbrev pub store_step :
      String
      → StepExecution
      → Held WorkflowEngine
      → Option (Map StepExecution)
      → Attempt × Held WorkflowEngine
  store_step id s h none = (threw (error "Cannot read properties of undefined"), h)
  store_step id s (e, engine) (some m) = (
    finished s,
    (e, record engine { step_executions = set s.execution_id (set id s m) engine.step_executions }),
  )

  abbrev pub record_step :
      String → StepExecution → StepOutput → ℕ → Run → Attempt × Held WorkflowEngine
  record_step id s out now (o, (e, engine)) =
      store_step id (close_step o out now s) (e, engine) (get s.execution_id engine.step_executions)

  -- `step.retryPolicy?.maxAttempts || workflow.retryPolicy.maxAttempts`
  abbrev pub max_attempts_of : Option RetryPolicy → ℤ → ℤ
  max_attempts_of none n = n
  max_attempts_of (some p) n = elim p.max_attempts [ pos zero ↦ n | _ ↦ p.max_attempts ]

  abbrev pub new_step_execution :
      WorkflowDefinition → StepFields → StepInput → WorkflowExecution → ℕ → StepExecution
  new_step_execution w f input e now = record {
    step_id = f.step_id;
    execution_id = e.execution_id;
    state = running;
    input = input;
    output = no_output;
    error = none;
    attempts = 1;
    max_attempts = max_attempts_of f.retry_policy w.retry_policy.max_attempts;
    started_at = now;
    completed_at = none;
    duration = none;
    step_type = f.step_type;
    step_name = f.name;
  }

  abbrev pub run_found :
      String
      → (now later : ℕ) → WorkflowDefinition
      → Option WorkflowStep
      → Held WorkflowEngine
      → Attempt × Held WorkflowEngine
  run_found id now later w none (e, engine) =
      (threw (workflow_step id e.execution_id "unknown" (error "Step not found")), (e, engine))
  run_found id now later w (some step) (e, engine) =
      let f = fields_of step in
      let input = get_step_input engine e in
      record_step id (new_step_execution w f input e now) (output_by_type f f.step_type input now)
        later (run_by_type f.step_type step (e, engine))

  abbrev pub run_in :
      String
      → (now later : ℕ) → Option WorkflowDefinition
      → Held WorkflowEngine
      → Attempt × Held WorkflowEngine
  run_in id now later none (e, engine) = (threw (workflow_not_found e.workflow_id), (e, engine))
  run_in id now later (some w) h = run_found id now later w (find_step id w.steps) h

  unfoldable pub execute_step :
      String → (now later : ℕ) → Held WorkflowEngine → Attempt × Held WorkflowEngine
  execute_step id now later h = run_in id now later (registry h.0.workflow_id) h
