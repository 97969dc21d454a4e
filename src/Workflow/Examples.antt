-- ===== src/Workflow/Examples.antt =====
-- A workflow of two steps, and an executor whose step "b" fails.
mod Running
mod UnderEngine
use nexus_ai_workspace.Common.{
  ℕ, String, String_discrete, Bool, true, false, not, List, [], ◌∷◌, Option, none, some, ◌≡◌, refl,
  ◌===◌, if◌then◌else◌, includes, add_to_set, find,
}
use nexus_ai_workspace.Common.Integers.{pos, less, is_positive}
use nexus_ai_workspace.Common.Map.{get, set}
use nexus_ai_workspace.Priority.{AgentPriority, normal}
use nexus_ai_workspace.Values.{Value, text}
use nexus_ai_workspace.Workflow.{
  WorkflowStep, WorkflowSteps, StepFields, WorkflowDefinition, WorkflowStepType, RetryPolicy,
  TimeoutPolicy, FailurePolicy, WorkflowLoop, plain, composite, nil, cons, task, sequence,
  sequential_mode, running, completed, failed, paused, for_loop, while_loop, expression_condition,
}
use nexus_ai_workspace.Workflow.Steps.{
  find_step, find_in_step, collect_all_step_ids, collect_from, collect_in_step,
}
use nexus_ai_workspace.Workflow.Execution.{WorkflowExecution, WorkflowExecutionContext}
use nexus_ai_workspace.Workflow.Steps.Laws.{flatten, flatten_nested, find_step-first, has_id}
use nexus_ai_workspace.Workflow.Validation.{
  validate, validate_step, validate_steps, note_id, note_name, note_agent, check_dependencies,
  check_connectivity, validate_policies,
}
use nexus_ai_workspace.Workflow.Validation.Laws.{IsValid, validate-IsValid}
use nexus_ai_workspace.Workflow.Registry.{create, list, find_by_name}
use nexus_ai_workspace.Workflow.Registry.Laws.{named}
use nexus_ai_workspace.Workflow.Registry.Laws.History.{
  RegistryCall, register_call, list_by_version_call, remove_call, calls, find_by_name-perm,
}
use mathlib.Core.List.{Perm}

abbrev pub fields : String → WorkflowStepType → List String → StepFields
fields id type depends_on = record {
  step_id = id;
  name = id;
  step_type = type;
  enabled = true;
  agent_id = "agent";
  task_name = "work";
  input = none;
  step_condition = none;
  step_loop = none;
  branch = "";
  compensation_step_id = "";
  retry_policy = none;
  timeout_ms = none;
  depends_on = depends_on;
  metadata = [];
}

abbrev pub steps : WorkflowSteps
steps =
    cons (composite (fields "a" sequence []) (cons (plain (fields "c" task [])) nil))
      (cons (plain (fields "b" task ("c" ∷ []))) nil)

abbrev pub policy : FailurePolicy
policy = record {
  continue_on_error = false;
  max_failures = pos 0;
  fail_fast = true;
  compensation_required = true;
}

abbrev pub workflow : WorkflowDefinition
workflow = record {
  workflow_id = "w";
  name = "Nightly";
  description = "";
  version = "1";
  execution_mode = sequential_mode;
  priority = normal;
  steps = steps;
  retry_policy = record {
    max_attempts = pos 1;
    backoff_ms = pos 0;
    backoff_multiplier = pos 2;
    max_backoff_ms = pos 0;
    retryable_errors = [];
  };
  timeout_policy = record {
    step_timeout_ms = pos 10;
    workflow_timeout_ms = pos 100;
    enable_global_timeout = false;
  };
  failure_policy = policy;
  input_schema = none;
  output_schema = none;
  metadata = [];
  created_at = 0;
  updated_at = 0;
}

workflow_clean : (validate workflow).errors ≡ []
unfolding String_discrete validate validate_step validate_steps note_id note_name note_agent
    check_dependencies check_connectivity validate_policies collect_all_step_ids collect_from
    collect_in_step includes add_to_set less is_positive
workflow_clean = refl

validate-IsValid_example : IsValid workflow
validate-IsValid_example = validate-IsValid workflow workflow_clean

abbrev history : List RegistryCall
history =
    register_call workflow
    ∷ register_call (record workflow { workflow_id = "v"; version = "2" })
    ∷ list_by_version_call "Nightly"
    ∷ remove_call "w"
    ∷ []

abbrev lower : String → String
lower s = if s === "Nightly" then "nightly" else s

abbrev later : String → String → Bool
later v w = v === "2"

find_by_name-perm_example :
    Perm
      (find_by_name lower (calls lower later history create) "Nightly")
      (named lower (lower "Nightly") (list (calls lower later history create)))
find_by_name-perm_example = find_by_name-perm lower later history "Nightly"
