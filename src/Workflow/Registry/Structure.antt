-- ===== src/Workflow/Registry/Structure.antt =====
-- backend/services/ai-kernel/src/agents/workflow/workflow-registry.ts: `validateWorkflowStructure`,
-- which throws at the first problem. The messages are values.
use nexus_ai_workspace.Common.{
  String, Bool, true, false, not, List, [], ◌∷◌, Option, none, some, ◌===◌, ◌&&◌, ◌||◌, includes,
  add_to_set,
}
use nexus_ai_workspace.Common.Integers.{ℤ, pos, less, is_positive}
use nexus_ai_workspace.Workflow.{
  WorkflowStep, WorkflowSteps, WorkflowDefinition, RetryPolicy, TimeoutPolicy, FailurePolicy, plain,
  composite, nil, cons,
}
use nexus_ai_workspace.Workflow.Steps.{fields_of, add_each}

pub data StructureError : Type 0 where
  id_missing name_missing version_missing no_steps step_id_missing nested_step_id_missing :
      StructureError
  duplicate_step duplicate_nested_step step_name_missing : String → StructureError
  missing_dependency : (step dependency : String) → StructureError
  max_attempts_below_one negative_backoff multiplier_not_positive max_backoff_too_low :
      StructureError
  step_timeout_not_positive workflow_timeout_not_positive step_timeout_too_long : StructureError
  negative_max_failures no_failures_allowed : StructureError

-- The statements after a check that may throw.
abbrev pub or_next : Option StructureError → Option StructureError → Option StructureError
or_next none next = next
or_next (some e) next = some e

abbrev pub throw_if : Bool → StructureError → Option StructureError
throw_if true e = some e
throw_if false e = none

unfoldable mutual
  pub is_step_id_in_nested_steps : String → WorkflowSteps → Bool
  is_step_id_in_nested_steps id nil = false
  is_step_id_in_nested_steps id (cons s ss) = is_step_id_in id s || is_step_id_in_nested_steps id ss

  pub is_step_id_in : String → WorkflowStep → Bool
  is_step_id_in id (plain f) = f.step_id === id
  is_step_id_in id (composite f steps) = f.step_id === id || is_step_id_in_nested_steps id steps

-- `validateNestedSteps`: `seen` is `nestedStepIds`.
unfoldable mutual
  pub validate_nested_steps : WorkflowSteps → (parents seen : List String) → Option StructureError
  validate_nested_steps nil parents seen = none
  validate_nested_steps (cons s ss) parents seen =
      or_next (validate_nested_step s parents seen)
        (validate_nested_steps ss parents (add_to_set (fields_of s).step_id seen))

  pub validate_nested_step : WorkflowStep → (parents seen : List String) → Option StructureError
  validate_nested_step (plain f) parents seen =
      or_next (throw_if (f.step_id === "") nested_step_id_missing) (
        throw_if (includes f.step_id seen || includes f.step_id parents)
          (duplicate_nested_step f.step_id))
  validate_nested_step (composite f steps) parents seen =
      or_next (throw_if (f.step_id === "") nested_step_id_missing) (
        or_next
          (throw_if (includes f.step_id seen || includes f.step_id parents)
            (duplicate_nested_step f.step_id))
          (validate_nested_steps steps (add_each (add_to_set f.step_id seen) parents) []))

unfoldable pub check_dependencies :
    WorkflowSteps → String → List String → List String → Option StructureError
check_dependencies all step ids [] = none
check_dependencies all step ids (d ∷ ds) =
    or_next
      (throw_if (not (includes d ids) && not (is_step_id_in_nested_steps d all))
        (missing_dependency step d))
      (check_dependencies all step ids ds)

abbrev pub check_nested : WorkflowStep → List String → Option StructureError
check_nested (plain f) ids = none
check_nested (composite f steps) ids = validate_nested_steps steps ids []

-- The loop over the steps: `ids` is `stepIds`.
unfoldable pub check_steps : WorkflowSteps → WorkflowSteps → List String → Option StructureError
check_steps all nil ids = none
check_steps all (cons s ss) ids =
    let f = fields_of s in
    let ids' = add_to_set f.step_id ids in
    or_next (throw_if (f.step_id === "") step_id_missing) (
      or_next (throw_if (includes f.step_id ids) (duplicate_step f.step_id)) (
        or_next (throw_if (f.name === "") (step_name_missing f.step_id)) (
          or_next (check_dependencies all f.step_id ids' f.depends_on)
            (or_next (check_nested s ids') (check_steps all ss ids')))))

unfoldable pub validate_retry_policy : RetryPolicy → Option StructureError
validate_retry_policy p = or_next (throw_if (less p.max_attempts (pos 1)) max_attempts_below_one) (
    or_next (throw_if (less p.backoff_ms (pos 0)) negative_backoff) (
      or_next (throw_if (not (is_positive p.backoff_multiplier)) multiplier_not_positive)
        (throw_if (less p.max_backoff_ms p.backoff_ms) max_backoff_too_low)))

unfoldable pub validate_timeout_policy : TimeoutPolicy → Option StructureError
validate_timeout_policy p =
    or_next (throw_if (not (is_positive p.step_timeout_ms)) step_timeout_not_positive) (
      or_next (throw_if (not (is_positive p.workflow_timeout_ms)) workflow_timeout_not_positive)
        (throw_if (less p.workflow_timeout_ms p.step_timeout_ms) step_timeout_too_long))

abbrev pub is_zero : ℤ → Bool
is_zero n = not (is_positive n) && not (less n (pos 0))

unfoldable pub validate_failure_policy : FailurePolicy → Option StructureError
validate_failure_policy p =
    or_next (throw_if (less p.max_failures (pos 0)) negative_max_failures)
      (throw_if (is_zero p.max_failures && not p.continue_on_error) no_failures_allowed)

abbrev pub is_empty : WorkflowSteps → Bool
is_empty nil = true
is_empty (cons s ss) = false

unfoldable pub validate_workflow_structure : WorkflowDefinition → Option StructureError
validate_workflow_structure w = or_next (throw_if (w.workflow_id === "") id_missing) (
    or_next (throw_if (w.name === "") name_missing) (
      or_next (throw_if (w.version === "") version_missing) (
        or_next (throw_if (is_empty w.steps) no_steps) (
          or_next (check_steps w.steps w.steps []) (
            or_next (validate_retry_policy w.retry_policy) (
              or_next (validate_timeout_policy w.timeout_policy)
                (validate_failure_policy w.failure_policy)))))))
