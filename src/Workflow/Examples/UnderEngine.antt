-- ===== src/Workflow/Examples/UnderEngine.antt =====
-- Runs of the workflow under an engine, whose runner completes every step.
use nexus_ai_workspace.Common.{
  true, false, not, select, length, String, String_discrete, Bool, List, [], ◌∷◌, ◌++◌, Option,
  none, some, ◌≡◌, refl, ◌===◌, if◌then◌else◌,
}
use nexus_ai_workspace.Common.Map.{get}
use nexus_ai_workspace.Values.{text}
use nexus_ai_workspace.Workflow.{WorkflowDefinition, paused, task, plain, compensation, nil, cons}
use nexus_ai_workspace.Workflow.Steps.{find_step, find_in_step}
use nexus_ai_workspace.Workflow.Execution.{
  WorkflowExecution, error, workflow_step, workflow_execution,
}
use nexus_ai_workspace.Workflow.Runner.{Executor, Held, returns, throws, truth, run_sequential}
use nexus_ai_workspace.Workflow.Runner.Sequences.{
  StepEnds, Tracked, run_sequential-stops, run_sequential-continues,
}
use nexus_ai_workspace.Workflow.Engine.Leaves.{executor_of, IsReady, leaf-StepEnds}
use nexus_ai_workspace.Common.Integers.{pos, is_positive}
use nexus_ai_workspace.Workflow.Engine.{WorkflowEngine, Runner, execute_step}
use nexus_ai_workspace.Workflow.Engine.Operations.{create, execute, execute_workflow_steps, write}
use nexus_ai_workspace.Workflow.Engine.Steps.{
  RunnerKeeps, HasSteps, Recorded, execute_step-Recorded,
}
use nexus_ai_workspace.Workflow.Engine.Ends.{
  IsStored, KeepsStored, EndsExecution, execute-EndsExecution,
}
use nexus_ai_workspace.Workflow.Examples.{fields, workflow, policy}
use nexus_ai_workspace.Workflow.Examples.Running.{context, execution}

abbrev persistent : WorkflowExecution
persistent = record execution {
  metadata = record execution.metadata {
    failure_policy = record policy { continue_on_error = true };
  };
}

abbrev registry : String → Option WorkflowDefinition
registry id = if id === "w" then some workflow else none

-- A runner that completes every step.
abbrev runner : Runner
runner = record {
  sequential =
      λ ids h. (returns, (record h.0 { completed_steps = h.0.completed_steps ++ ids }, h.1));
  parallel = λ ids h. (returns, h);
  conditional = λ c xs ys h. (returns, h);
  loop = λ config ids h. (throws (error "stuck"), h);
  compensation = λ ids h. h;
}

workflow_registered : registry "w" ≡ some workflow
unfolding String_discrete
workflow_registered = refl

abbrev engine : WorkflowEngine
engine = record { executions = ("e", execution) ∷ []; step_executions = ("e", []) ∷ [] }

abbrev step_c : String → Bool
step_c id = id === "c"

c_found : find_step "c" workflow.steps ≡ some (plain (fields "c" task []))
unfolding String_discrete find_step find_in_step
c_found = refl

has_e : HasSteps registry runner "e" (execution, engine)
unfolding String_discrete get
has_e = refl

runner_keeps :
    (P : Held WorkflowEngine → Type 0)
    → ((ids : List String) (h : Held WorkflowEngine) → P h → P (runner.sequential ids h).1)
    → RunnerKeeps P runner
runner_keeps P k = record {
  sequential = k;
  parallel = λ ids h p. p;
  conditional = λ c xs ys h p. p;
  loop = λ config ids h p. p;
}

runner_stores : KeepsStored runner "e"
runner_stores = record {
  steps = runner_keeps (IsStored "e") (λ ids h p. p);
  compensation = λ ids h p. p;
  state = λ ids h. refl;
  completed_at = λ ids h. refl;
}

execute-EndsExecution_example :
    EndsExecution "e" 9 (execute registry runner "w" "e" (text "in") context 0 9 create)
execute-EndsExecution_example =
    execute-EndsExecution registry runner "e" runner_stores workflow "w" (text "in") context 0 9
      create workflow_registered

execute_step-Recorded_example :
    Recorded registry runner "e" "c" (execute_step registry runner "c" 1 2 (execution, engine))
execute_step-Recorded_example =
    execute_step-Recorded registry runner
      (λ id. runner_keeps (HasSteps registry runner id) (λ ids h p. p)) "c" 1 2 execution engine
      workflow (plain (fields "c" task [])) workflow_registered c_found has_e

abbrev paused_execution : WorkflowExecution
paused_execution = record execution { state = paused }

abbrev paused_engine : WorkflowEngine
paused_engine = record engine { executions = ("e", paused_execution) ∷ [] }

abbrev after_steps : WorkflowExecution
after_steps = record execution { completed_steps = "a" ∷ "b" ∷ [] }

steps_run :
    execute_workflow_steps registry runner workflow (execution, write execution paused_engine)
    ≡ (returns, (after_steps, write execution paused_engine))
unfolding execute_workflow_steps
steps_run = refl

-- A workflow whose step "b" fails, since `executeStep` does not know its type.
abbrev flat : WorkflowDefinition
flat = record workflow {
  steps =
      cons (plain (fields "a" task []))
        (cons (plain (fields "b" compensation [])) (cons (plain (fields "c" task [])) nil));
}

abbrev flat_registry : String → Option WorkflowDefinition
flat_registry id = if id === "w" then some flat else none

abbrev flat_executor : Executor WorkflowEngine
flat_executor = executor_of flat_registry runner 1 2 (λ c h. (truth true, h))

abbrev good : String → Bool
good id = not (id === "b")

a_leaf : find_step "a" flat.steps ≡ some (plain (fields "a" task []))
unfolding String_discrete find_step find_in_step
a_leaf = refl

b_leaf : find_step "b" flat.steps ≡ some (plain (fields "b" compensation []))
unfolding String_discrete find_step find_in_step
b_leaf = refl

c_leaf : find_step "c" flat.steps ≡ some (plain (fields "c" task []))
unfolding String_discrete find_step find_in_step
c_leaf = refl

a_good : good "a" ≡ true
unfolding String_discrete
a_good = refl

b_bad : good "b" ≡ false
unfolding String_discrete
b_bad = refl

c_good : good "c" ≡ true
unfolding String_discrete
c_good = refl

a_ends : StepEnds flat_executor good (IsReady flat_registry flat) "a"
a_ends =
    leaf-StepEnds flat_registry runner 1 2 (λ c h. (truth true, h)) good flat "a"
      (fields "a" task []) a_leaf a_good

b_ends : StepEnds flat_executor good (IsReady flat_registry flat) "b"
b_ends =
    leaf-StepEnds flat_registry runner 1 2 (λ c h. (truth true, h)) good flat "b"
      (fields "b" compensation []) b_leaf b_bad

c_ends : StepEnds flat_executor good (IsReady flat_registry flat) "c"
c_ends =
    leaf-StepEnds flat_registry runner 1 2 (λ c h. (truth true, h)) good flat "c"
      (fields "c" task []) c_leaf c_good

flat-IsReady : IsReady flat_registry flat "e" "w" engine
unfolding String_discrete get
flat-IsReady = (refl, ([], refl))

run_sequential-stops_example :
    ((run_sequential flat_executor ("a" ∷ "b" ∷ "c" ∷ []) (execution, engine)).0
      ≡ throws
          (workflow_execution "e" "w" (some "b") (workflow_step "b" "e" "sequential" (error ""))))
    × Tracked execution
        (run_sequential flat_executor ("a" ∷ "b" ∷ "c" ∷ []) (execution, engine)).1.0
        ("a" ∷ [])
        ("b" ∷ "b" ∷ [])
        2
run_sequential-stops_example =
    run_sequential-stops flat_executor good (IsReady flat_registry flat) ("a" ∷ []) "b" ("c" ∷ [])
      execution engine (a_ends, tt) b_ends flat-IsReady refl refl (a_good, tt) b_bad

not_limited : is_positive (pos 0) ≡ false
unfolding is_positive
not_limited = refl

run_sequential-continues_example :
    ((run_sequential flat_executor ("a" ∷ "b" ∷ "c" ∷ []) (persistent, engine)).0 ≡ returns)
    × Tracked persistent
        (run_sequential flat_executor ("a" ∷ "b" ∷ "c" ∷ []) (persistent, engine)).1.0
        (select good ("a" ∷ "b" ∷ "c" ∷ []))
        (select (λ i. not (good i)) ("a" ∷ "b" ∷ "c" ∷ []))
        (length (select (λ i. not (good i)) ("a" ∷ "b" ∷ "c" ∷ [])))
run_sequential-continues_example =
    run_sequential-continues flat_executor good (IsReady flat_registry flat) ("a" ∷ "b" ∷ "c" ∷ [])
      persistent engine (a_ends, (b_ends, (c_ends, tt))) flat-IsReady refl refl not_limited
