-- ===== src/Workflow/Engine/Operations.antt =====
-- backend/services/ai-kernel/src/agents/workflow/workflow-engine.ts: `execute`, `cancel`, `pause`
-- and `resume` of WorkflowEngine. What a timer or another call does to an execution while its steps
-- run is a part of what the runner's method returns.
use nexus_ai_workspace.Common.{
  ℕ, String, Bool, true, false, [], ◌∷◌, Option, none, some, ◌-◌, ◌||◌, if◌then◌else◌,
}
use nexus_ai_workspace.Common.Map.{Map, get, set, has}
use nexus_ai_workspace.Values.{Value}
use nexus_ai_workspace.Workflow.{
  WorkflowDefinition, WorkflowExecutionMode, running, paused, failed, completed, cancelled,
  sequential_mode, parallel_mode, mixed_mode,
}
use nexus_ai_workspace.Workflow.Steps.{step_ids, count_total_steps}
use nexus_ai_workspace.Workflow.Execution.{
  WorkflowExecution, WorkflowExecutionContext, StepExecution, StepOutput, Thrown,
  workflow_not_found, workflow_execution, is_running, is_paused, is_completed,
}
use nexus_ai_workspace.Workflow.Runner.{Held, returns, throws}
use nexus_ai_workspace.Workflow.Engine.{WorkflowEngine, Runner, Run}

unfoldable pub create : WorkflowEngine
create = record { executions = []; step_executions = [] }

-- CompensationAction, and `compensateStep`, which marks the action as executed.
pub record CompensationAction : Type 0 where
  pub step_id : String
  pub action : String
  pub executed : Bool
  pub executed_at : Option ℕ

unfoldable pub compensate_step : String → ℕ → CompensationAction
compensate_step id now = record {
  step_id = id;
  action = "rollback";
  executed = true;
  executed_at = some now;
}

-- The outputs of the completed steps.
abbrev pub completed_outputs : Map StepExecution → Map StepOutput
completed_outputs [] = []
completed_outputs ((id, s) ∷ m) =
    let rest = completed_outputs m in if is_completed s.state then (id, s.output) ∷ rest else rest

unfoldable pub extract_workflow_output : Option (Map StepExecution) → Option (Map StepOutput)
extract_workflow_output none = none
extract_workflow_output (some []) = none
extract_workflow_output (some (x ∷ m)) = some (completed_outputs (x ∷ m))

unfoldable pub new_execution :
    WorkflowDefinition
    → (workflow_id id : String) → Value
    → WorkflowExecutionContext
    → ℕ
    → WorkflowExecution
new_execution w workflow_id id input context now = record {
  execution_id = id;
  workflow_id = workflow_id;
  state = running;
  context = context;
  current_step_id = none;
  completed_steps = [];
  failed_steps = [];
  compensated_steps = [];
  input = input;
  output = none;
  error = none;
  started_at = now;
  completed_at = none;
  duration = none;
  step_count = count_total_steps w.steps;
  failure_count = 0;
  retry_count = 0;
  metadata = record {
    workflow_name = w.name;
    workflow_version = w.version;
    execution_mode = w.execution_mode;
    failure_policy = w.failure_policy;
    compensation_errors = none;
  };
}

abbrev pub write : WorkflowExecution → WorkflowEngine → WorkflowEngine
write e engine = record engine { executions = set e.execution_id e engine.executions }

-- A change of the execution's own fields, seen in `executions` as far as the object stands there.
abbrev pub mutate : WorkflowExecution → WorkflowEngine → WorkflowEngine
mutate e engine = if has e.execution_id engine.executions then write e engine else engine

-- `completedAt` and `duration`
abbrev pub closed : ℕ → WorkflowExecution → WorkflowExecution
closed later e = record e { completed_at = some later; duration = some (later - e.started_at) }

-- What `execute` returns or throws, and the engine after it.
pub data Executed : Type 0 where
  executed : WorkflowExecution → WorkflowEngine → Executed
  threw_with : Thrown → WorkflowEngine → Executed

abbrev pub with_output : WorkflowEngine → WorkflowExecution → WorkflowExecution
with_output engine e =
    if is_running e.state
    then record e {
      state = completed;
      output = extract_workflow_output (get e.execution_id engine.step_executions);
    }
    else e

abbrev pub written : Held WorkflowEngine → WorkflowEngine
written (e, engine) = mutate e engine

abbrev pub failed_with : Thrown → ℕ → WorkflowExecution → WorkflowExecution
failed_with t later e = closed later (record e { state = failed; error = some t })

module _ (registry : String → Option WorkflowDefinition) (runner : Runner) where
  abbrev pub by_mode : WorkflowExecutionMode → WorkflowDefinition → Held WorkflowEngine → Run
  by_mode sequential_mode w h = runner.sequential (step_ids w.steps) h
  by_mode parallel_mode w h = runner.parallel (step_ids w.steps) h
  by_mode mixed_mode w h = runner.sequential (step_ids w.steps) h

  unfoldable pub execute_workflow_steps : WorkflowDefinition → Held WorkflowEngine → Run
  execute_workflow_steps w h = by_mode w.execution_mode w h

  abbrev pub compensated : WorkflowDefinition → Held WorkflowEngine → Held WorkflowEngine
  compensated w h =
      if w.failure_policy.compensation_required
      then runner.compensation h.0.completed_steps h
      else h

  -- The end of the `try` of `execute`, and its `catch`.
  abbrev pub finish : WorkflowDefinition → (workflow_id id : String) → ℕ → Run → Executed
  finish w workflow_id id later (returns, (e, engine)) =
      let e' = closed later (with_output engine e) in executed e' (mutate e' engine)
  finish w workflow_id id later (throws t, (e, engine)) =
      threw_with (workflow_execution id workflow_id e.current_step_id t)
        (written (compensated w (failed_with t later e, engine)))

  abbrev pub start :
      WorkflowDefinition
      → (workflow_id id : String) → Value
      → WorkflowExecutionContext
      → ℕ
      → WorkflowEngine
      → Held WorkflowEngine
  start w workflow_id id input context now engine =
      let e = new_execution w workflow_id id input context now in
      (e, record (write e engine) { step_executions = set id [] engine.step_executions })

  abbrev pub execute_found :
      Option WorkflowDefinition
      → String
      → String
      → Value
      → WorkflowExecutionContext
      → (now later : ℕ) → WorkflowEngine
      → Executed
  execute_found none workflow_id id input context now later engine =
      threw_with (workflow_not_found workflow_id) engine
  execute_found (some w) workflow_id id input context now later engine =
      finish w workflow_id id later
        (execute_workflow_steps w (start w workflow_id id input context now engine))

  unfoldable pub execute :
      (workflow_id id : String)
      → Value
      → WorkflowExecutionContext
      → (now later : ℕ) → WorkflowEngine
      → Executed
  execute workflow_id id input context now later engine =
      execute_found (registry workflow_id) workflow_id id input context now later engine

  -- The `catch` of `resume`.
  abbrev pub resumed : Run → WorkflowEngine
  resumed (returns, (e, engine)) = mutate e engine
  resumed (throws t, (e, engine)) = mutate (record e { state = failed; error = some t }) engine

  abbrev pub resume_found : Option WorkflowDefinition → Held WorkflowEngine → WorkflowEngine
  resume_found none h = written h
  resume_found (some w) h = resumed (execute_workflow_steps w h)

  abbrev pub resume_execution : WorkflowEngine → Option WorkflowExecution → Bool × WorkflowEngine
  resume_execution engine none = (false, engine)
  resume_execution engine (some e) =
      if is_paused e.state
      then (let e' = record e { state = running } in
          (true, resume_found (registry e.workflow_id) (e', write e' engine)))
      else (false, engine)

  unfoldable pub resume : String → WorkflowEngine → Bool × WorkflowEngine
  resume id engine = resume_execution engine (get id engine.executions)

abbrev pub cancel_execution : WorkflowEngine → ℕ → Option WorkflowExecution → Bool × WorkflowEngine
cancel_execution engine later none = (false, engine)
cancel_execution engine later (some e) =
    if is_running e.state || is_paused e.state
    then (true, write (closed later (record e { state = cancelled })) engine)
    else (false, engine)

unfoldable pub cancel : String → ℕ → WorkflowEngine → Bool × WorkflowEngine
cancel id later engine = cancel_execution engine later (get id engine.executions)

abbrev pub pause_execution : WorkflowEngine → Option WorkflowExecution → Bool × WorkflowEngine
pause_execution engine none = (false, engine)
pause_execution engine (some e) =
    if is_running e.state
    then (true, write (record e { state = paused }) engine)
    else (false, engine)

unfoldable pub pause : String → WorkflowEngine → Bool × WorkflowEngine
pause id engine = pause_execution engine (get id engine.executions)
