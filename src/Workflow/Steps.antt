-- ===== src/Workflow/Steps.antt =====
-- backend/services/ai-kernel/src/agents/workflow/workflow-engine.ts: the walks over the tree of
-- steps.
pub mod Laws
use nexus_ai_workspace.Common.{
  ℕ, String, Bool, true, false, List, [], ◌∷◌, ◌++◌, Option, none, some, ◌+◌, ◌===◌, add_to_set,
  if◌then◌else◌,
}
use nexus_ai_workspace.Workflow.{
  WorkflowStep, WorkflowSteps, StepFields, plain, composite, nil, cons,
}

abbrev pub fields_of : WorkflowStep → StepFields
fields_of (plain f) = f
fields_of (composite f steps) = f

abbrev pub nested : WorkflowStep → WorkflowSteps
nested (plain f) = nil
nested (composite f steps) = steps

abbrev pub length_steps : WorkflowSteps → ℕ
length_steps nil = 0
length_steps (cons s ss) = length_steps ss + 1

-- `steps.map(step => step.stepId)`
abbrev pub step_ids : WorkflowSteps → List String
step_ids nil = []
step_ids (cons s ss) = (fields_of s).step_id ∷ step_ids ss

abbrev pub or_else : Option WorkflowStep → Option WorkflowStep → Option WorkflowStep
or_else none other = other
or_else (some s) other = some s

-- `newIds.forEach(id => stepIds.add(id))`
abbrev pub add_each : List String → List String → List String
add_each [] ids = ids
add_each (x ∷ xs) ids = add_each xs (add_to_set x ids)

unfoldable mutual
  pub find_step : String → WorkflowSteps → Option WorkflowStep
  find_step id nil = none
  find_step id (cons s ss) = or_else (find_in_step id s) (find_step id ss)

  pub find_in_step : String → WorkflowStep → Option WorkflowStep
  find_in_step id (plain f) = if f.step_id === id then some (plain f) else none
  find_in_step id (composite f steps) =
      let found = find_step id steps in if f.step_id === id then some (composite f steps) else found

unfoldable mutual
  pub count_nested : WorkflowSteps → ℕ
  count_nested nil = 0
  count_nested (cons s ss) = count_in_step s + count_nested ss

  pub count_in_step : WorkflowStep → ℕ
  count_in_step (plain f) = 0
  count_in_step (composite f steps) = length_steps steps + count_nested steps

unfoldable pub count_total_steps : WorkflowSteps → ℕ
count_total_steps ss = length_steps ss + count_nested ss

unfoldable mutual
  pub collect_from : WorkflowSteps → List String → List String
  collect_from nil ids = ids
  collect_from (cons s ss) ids =
      collect_from ss (collect_in_step s (add_to_set (fields_of s).step_id ids))

  pub collect_in_step : WorkflowStep → List String → List String
  collect_in_step (plain f) ids = ids
  collect_in_step (composite f steps) ids = add_each (collect_from steps []) ids

unfoldable pub collect_all_step_ids : WorkflowSteps → List String
collect_all_step_ids steps = collect_from steps []
