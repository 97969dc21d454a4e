-- ===== src/Workflow/Validation.antt =====
-- backend/services/ai-kernel/src/agents/workflow/workflow-engine.ts: `validate` and `compile` of
-- WorkflowEngine. The messages are values.
pub mod Laws
use nexus_ai_workspace.Common.{
  ℕ, String, Bool, true, false, not, List, [], ◌∷◌, ◌++◌, Option, none, some, ◌===◌, ◌&&◌, ◌⊎◌, inl,
  inr, includes, add_to_set, if◌then◌else◌,
}
use nexus_ai_workspace.Common.Integers.{ℤ, pos, less, is_positive}
use nexus_ai_workspace.Common.Map.{set}
use nexus_ai_workspace.Values.{Value, Metadata, flag, date, number}
use nexus_ai_workspace.Workflow.{
  WorkflowStep, WorkflowSteps, WorkflowStepType, WorkflowDefinition, StepFields, plain, composite,
  nil, cons, task,
}
use nexus_ai_workspace.Workflow.Steps.{fields_of, collect_all_step_ids, count_total_steps}
use nexus_ai_workspace.Workflow.Execution.{Thrown}

pub data ValidationError : Type 0 where
  workflow_id_required workflow_name_required no_steps step_id_required : ValidationError
  duplicate_step_id step_name_required : String → ValidationError
  unknown_dependency : (step dependency : String) → ValidationError
  max_attempts_too_low step_timeout_not_positive workflow_timeout_not_positive : ValidationError

-- The local set and arrays of `validate`. A warning names a task step without an agent.
pub record Checked : Type 0 where
  pub step_ids : List String
  pub errors : List ValidationError
  pub warnings : List String

abbrev pub push : ValidationError → Checked → Checked
push e c = record c { errors = c.errors ++ e ∷ [] }

abbrev pub is_task : WorkflowStepType → Bool
is_task task = true
is_task _ = false

unfoldable pub note_id : StepFields → Checked → Checked
note_id f c =
    if includes f.step_id c.step_ids
    then push (duplicate_step_id f.step_id) c
    else record c { step_ids = add_to_set f.step_id c.step_ids }

unfoldable pub note_name : StepFields → Checked → Checked
note_name f c = if f.name === "" then push (step_name_required f.step_id) c else c

unfoldable pub note_agent : StepFields → Checked → Checked
note_agent f c =
    if is_task f.step_type && f.agent_id === ""
    then record c { warnings = c.warnings ++ f.step_id ∷ [] }
    else c

-- `validateStep` up to the nested steps, for a step with an id.
abbrev pub check_fields : StepFields → Checked → Checked
check_fields f c = note_agent f (note_name f (note_id f c))

unfoldable mutual
  pub validate_step : WorkflowStep → Checked → Checked
  validate_step (plain f) c = if f.step_id === "" then push step_id_required c else check_fields f c
  validate_step (composite f steps) c =
      let checked = validate_steps steps (check_fields f c) in
      if f.step_id === "" then push step_id_required c else checked

  pub validate_steps : WorkflowSteps → Checked → Checked
  validate_steps nil c = c
  validate_steps (cons s ss) c = validate_steps ss (validate_step s c)

unfoldable pub check_dependencies : List String → String → List String → Checked → Checked
check_dependencies ids step [] c = c
check_dependencies ids step (d ∷ ds) c =
    check_dependencies ids step ds
      (if includes d ids then c else push (unknown_dependency step d) c)

-- The loop of `validateStepConnectivity`, over the steps at the root only.
unfoldable pub check_connectivity : List String → WorkflowSteps → Checked → Checked
check_connectivity ids nil c = c
check_connectivity ids (cons s ss) c =
    check_connectivity ids ss
      (check_dependencies ids (fields_of s).step_id (fields_of s).depends_on c)

abbrev pub push_unless : Bool → ValidationError → Checked → Checked
push_unless true e c = c
push_unless false e c = push e c

unfoldable pub validate_policies : WorkflowDefinition → Checked → Checked
validate_policies w c =
    push_unless (is_positive w.timeout_policy.workflow_timeout_ms) workflow_timeout_not_positive (
      push_unless (is_positive w.timeout_policy.step_timeout_ms) step_timeout_not_positive
        (push_unless (not (less w.retry_policy.max_attempts (pos 1))) max_attempts_too_low c))

abbrev pub has_steps : WorkflowSteps → Bool
has_steps nil = false
has_steps (cons s ss) = true

abbrev pub check_basics : WorkflowDefinition → Checked → Checked
check_basics w c = push_unless (has_steps w.steps) no_steps (
    push_unless (not (w.name === "")) workflow_name_required
      (push_unless (not (w.workflow_id === "")) workflow_id_required c))

-- `errors` and `warnings` of the result of `validate`; it is valid if there are no errors.
unfoldable pub validate : WorkflowDefinition → Checked
validate w = validate_policies w (
    check_connectivity (collect_all_step_ids w.steps) w.steps (
      validate_steps w.steps
        (check_basics w (record { step_ids = []; errors = []; warnings = [] }))))

abbrev pub compiled :
    WorkflowDefinition → ℕ → List ValidationError → List ValidationError ⊎ WorkflowDefinition
compiled w now [] = inr (record w {
  updated_at = now;
  metadata =
      set "stepCount" (number (count_total_steps w.steps))
        (set "compiledAt" (date now) (set "compiled" (flag true) w.metadata));
})
compiled w now (e ∷ errors) = inl (e ∷ errors)

-- `compile` throws the errors, or returns the workflow with its marks.
unfoldable pub compile : WorkflowDefinition → ℕ → List ValidationError ⊎ WorkflowDefinition
compile w now = compiled w now (validate w).errors
