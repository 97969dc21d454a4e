-- ===== src/Workflow/Examples/Running.antt =====
-- Runs of the workflow.
use nexus_ai_workspace.Common.{
  ℕ, String, String_discrete, Bool, true, not, [], ◌∷◌, none, ◌≡◌, refl, ◌+◌, ◌===◌, if◌then◌else◌,
  ltb, arith, select, reverse, map,
}
use mathlib.Core.List.Perm
use nexus_ai_workspace.Common.Integers.{pos}
use nexus_ai_workspace.Values.{text}
use nexus_ai_workspace.Workflow.{
  WorkflowLoop, running, completed, failed, for_loop, while_loop, task, expression_condition,
}
use nexus_ai_workspace.Workflow.Execution.{
  WorkflowExecution, WorkflowExecutionContext, StepExecution, no_output, Thrown, workflow_input,
  error,
}
use nexus_ai_workspace.Workflow.Runner.{
  Executor, returns, throws, finished, truth, run_sequential, complete_step,
}
use nexus_ai_workspace.Workflow.Runner.Parallel.{Arrival, run_parallel}
use nexus_ai_workspace.Workflow.Runner.Compensation.{run_compensation}
use nexus_ai_workspace.Workflow.Runner.Loop.{
  run_loop, evaluate_loop_condition, iteration_limit, run_iterations,
}
use nexus_ai_workspace.Workflow.Runner.Counting.{
  IsCounted, KeepsCount, sequential_call, run_call, run_call-IsCounted,
}
use nexus_ai_workspace.Workflow.Runner.Loop.Laws.{Throws, run_loop_for-Throws}
use nexus_ai_workspace.Workflow.Runner.Parallel.Laws.{
  Quiet, SameUpToOrder, run_parallel-SameUpToOrder,
}
use nexus_ai_workspace.Workflow.Runner.Compensation.Laws.{
  CompensationEnds, Compensated, run_compensation-Compensated,
}
use nexus_ai_workspace.Workflow.Examples.{workflow, policy}

abbrev pub context : WorkflowExecutionContext
context = record {
  request_id = "r";
  trace_id = "t";
  workspace_id = "s";
  conversation_id = none;
  user_id = "u";
  agent_id = "agent";
  execution_id = "e";
  metadata = [];
  start_time = 0;
  loop_iteration = none;
  loop_max_iterations = none;
  for_each_index = none;
  variables = [];
}

abbrev pub execution : WorkflowExecution
execution = record {
  execution_id = "e";
  workflow_id = "w";
  state = running;
  context = context;
  current_step_id = none;
  completed_steps = [];
  failed_steps = [];
  compensated_steps = [];
  input = text "in";
  output = none;
  error = none;
  started_at = 0;
  completed_at = none;
  duration = none;
  step_count = 3;
  failure_count = 0;
  retry_count = 0;
  metadata = record {
    workflow_name = "Nightly";
    workflow_version = "1";
    execution_mode = workflow.execution_mode;
    failure_policy = policy;
    compensation_errors = none;
  };
}

abbrev good : String → Bool
good id = not (id === "b")

abbrev ended : String → StepExecution
ended id = record {
  step_id = id;
  execution_id = "e";
  state = if good id then completed else failed;
  input = workflow_input (text "in");
  output = no_output;
  error = none;
  attempts = 1;
  max_attempts = pos 1;
  started_at = 0;
  completed_at = none;
  duration = none;
  step_type = task;
  step_name = id;
}

-- The world counts the calls; the condition of a loop holds up to the second one.
abbrev executor : Executor ℕ
executor = record {
  execute_step = λ id h. (finished (ended id), (h.0, h.1 + 1));
  evaluate_condition = λ c h. (truth (ltb h.1 2), h);
  compensate_step = λ id h. ((if good id then returns else throws (error "stuck")), (h.0, h.1 + 1));
}

executor_keeps : KeepsCount executor
executor_keeps = record {
  steps = λ id h c. c;
  conditions = λ t h c. c;
  compensations = λ id h c. c;
}

run_call-IsCounted_example :
    IsCounted (run_call executor (sequential_call ("a" ∷ "b" ∷ [])) (execution, 0))
run_call-IsCounted_example =
    run_call-IsCounted executor executor_keeps (sequential_call ("a" ∷ "b" ∷ [])) (execution, 0)
      (omega arith)

abbrev stuck : String → Thrown
stuck id = error "stuck"

executor-CompensationEnds : (id : String) → CompensationEnds executor good stuck id
executor-CompensationEnds id e w = (w + 1, refl)

run_compensation-Compensated_example :
    Compensated execution
      (run_compensation executor ("a" ∷ "b" ∷ []) (execution, 0)).0
      (select good (reverse ("a" ∷ "b" ∷ [])))
      (map (λ i. (i, error "stuck")) (select (λ i. not (good i)) (reverse ("a" ∷ "b" ∷ []))))
run_compensation-Compensated_example =
    run_compensation-Compensated executor good stuck ("a" ∷ "b" ∷ []) execution 0
      (executor-CompensationEnds "a", (executor-CompensationEnds "b", tt))

abbrev counting : WorkflowLoop
counting = record {
  loop_type = for_loop;
  condition = record {
    condition_type = expression_condition;
    expression = "";
    condition_variables = [];
  };
  max_iterations = pos 2;
  break_on_error = true;
}

run_loop_for-Throws_example : Throws (run_loop executor counting ("a" ∷ []) (execution, 0)).0
run_loop_for-Throws_example =
    run_loop_for-Throws executor (λ id h. refl) counting ("a" ∷ []) 1 refl refl (execution, 0)
      (omega arith)

abbrev waiting : WorkflowLoop
waiting = record counting { loop_type = while_loop; max_iterations = pos 5 }

loop_returns : (run_loop executor waiting ("a" ∷ []) (execution, 0)).0 ≡ returns
unfolding String_discrete run_loop run_iterations iteration_limit evaluate_loop_condition
    run_sequential complete_step
loop_returns = refl

abbrev arrival : String → Arrival
arrival id = record { step_id = id; attempt = finished (ended id); meanwhile = λ e. e }

arrival-Quiet : (id : String) → Quiet (arrival id)
arrival-Quiet id = record {
  completed = λ e. refl;
  failed = λ e. refl;
  counted = λ e. refl;
  kept = λ e. refl;
}

run_parallel-SameUpToOrder_example :
    SameUpToOrder
      (run_parallel ("a" ∷ "b" ∷ []) (arrival "a" ∷ arrival "b" ∷ []) execution)
      (run_parallel ("a" ∷ "b" ∷ []) (arrival "b" ∷ arrival "a" ∷ []) execution)
run_parallel-SameUpToOrder_example =
    run_parallel-SameUpToOrder ("a" ∷ "b" ∷ []) (arrival "a" ∷ arrival "b" ∷ [])
      (arrival "b" ∷ arrival "a" ∷ []) execution (Perm.swap _ _ _)
      (arrival-Quiet "a", (arrival-Quiet "b", tt)) (arrival-Quiet "b", (arrival-Quiet "a", tt))
