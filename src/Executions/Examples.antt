-- ===== src/Executions/Examples.antt =====
-- A registry with a running and a completed execution.
use nexus_ai_workspace.Common.{
  String, String_discrete, true, false, List, [], ◌∷◌, none, ◌≡◌, refl, ◌+◌, length,
}
use nexus_ai_workspace.Common.Map.{get, set}
use nexus_ai_workspace.Executions.{
  ExecutionRegistry, ExecutionResult, ExecutionStatus, running, completed, create, register,
  cleanup, is_active, is_active_status,
}
use nexus_ai_workspace.Executions.Laws.{IsValid}
use nexus_ai_workspace.Executions.Cleanup.{retained, get-cleanup}
use nexus_ai_workspace.Executions.History.{Call, registers, step, run, executions_run-IsValid}

abbrev execution : String → ExecutionStatus → ExecutionResult
execution id status = record {
  execution_id = id;
  agent_id = "agent";
  success = true;
  output = none;
  started_at = 1;
  finished_at = 2;
  latency = 1;
  usage = none;
  errors = [];
  metadata = [];
  status = status;
}

abbrev calls : List Call
calls = registers (execution "a" running) ∷ registers (execution "b" completed) ∷ []

abbrev registry : ExecutionRegistry
registry = run create calls

registry-IsValid : IsValid registry
registry-IsValid = executions_run-IsValid calls

a_active : is_active registry "a" ≡ true
unfolding String_discrete run step create register is_active is_active_status get set
a_active = refl

a_done : is_active_status (execution "a" completed).status ≡ false
unfolding is_active_status
a_done = refl

executions_run-IsValid_example : IsValid (run create calls)
executions_run-IsValid_example = executions_run-IsValid calls

get-cleanup_example :
    let (t, n) = cleanup registry 10 100 in
    (get "b" t.executions
      ≡ retained registry.active_executions 10 100 "b" (get "b" registry.executions))
    × (t.active_executions ≡ registry.active_executions)
    × (length t.executions + n ≡ length registry.executions)
get-cleanup_example = get-cleanup registry 10 100 "b" registry-IsValid
