-- ===== src/Workflow/Validation/Laws.antt =====
-- What a workflow without errors is.
use nexus_ai_workspace.Common.{
  String, ◌≡◌, refl, sym, ap, ◌∙◌, subst, Bool, true, false, not, List, [], ◌∷◌, ◌++◌, ◌===◌, ◌&&◌,
  includes, add_to_set, Bool-cases, inl, inr, All,
}
use nexus_ai_workspace.Common.Integers.{pos, less, is_positive}
use nexus_ai_workspace.Workflow.{
  WorkflowStep, WorkflowSteps, WorkflowDefinition, StepFields, plain, composite, nil, cons,
}
use nexus_ai_workspace.Workflow.Steps.{fields_of, collect_all_step_ids}
use nexus_ai_workspace.Workflow.Steps.Laws.{flatten, flatten_nested}
use nexus_ai_workspace.Workflow.Validation.{
  ValidationError, Checked, is_task, check_fields, validate_step, validate_steps,
  check_dependencies, check_connectivity, push_unless, validate_policies, note_id, note_name,
  note_agent, has_steps, check_basics, validate,
}

-- The steps have ids and names, and each id is new after those in `seen` and those of the steps
-- before.
abbrev pub AreDistinct : (seen : List String) → List WorkflowStep → Type 0
AreDistinct seen [] = Unit
AreDistinct seen (s ∷ ss) =
    (((fields_of s).step_id === "") ≡ false)
    × (includes (fields_of s).step_id seen ≡ false)
    × (((fields_of s).name === "") ≡ false)
    × AreDistinct (add_to_set (fields_of s).step_id seen) ss

abbrev seen_after : List WorkflowStep → List String → List String
seen_after [] seen = seen
seen_after (s ∷ ss) seen = seen_after ss (add_to_set (fields_of s).step_id seen)

AreDistinct-append :
    (xs ys : List WorkflowStep) (seen : List String)
    → AreDistinct seen xs
    → AreDistinct (seen_after xs seen) ys
    → AreDistinct seen (xs ++ ys)
AreDistinct-append [] ys seen h k = k
AreDistinct-append (x ∷ xs) ys seen h k =
    (h.0, h.1, h.2, AreDistinct-append xs ys (add_to_set (fields_of x).step_id seen) h.3 k)

seen_after-append :
    (xs ys : List WorkflowStep) (seen : List String)
    → seen_after (xs ++ ys) seen ≡ seen_after ys (seen_after xs seen)
seen_after-append [] ys seen = refl
seen_after-append (x ∷ xs) ys seen = seen_after-append xs ys (add_to_set (fields_of x).step_id seen)

push-not_empty : (e : ValidationError) (es : List ValidationError) → es ++ e ∷ [] ≡ [] → ⊥
push-not_empty e [] h = cc h
push-not_empty e (x ∷ xs) h = cc h

-- What a check finds: no errors before, and a fact.
abbrev Clean : Checked → Type 0
Clean c = c.errors ≡ []

note_agent-Clean :
    (f : StepFields) (c : Checked)
    → ((note_agent f c).errors ≡ c.errors) × ((note_agent f c).step_ids ≡ c.step_ids)
unfolding note_agent
note_agent-Clean f c = elim (Bool-cases (is_task f.step_type && f.agent_id === "")) [
  | inl p ↦ rw p (refl, refl)
  | inr p ↦ rw p (refl, refl)
]

note_name-Clean :
    (f : StepFields) (c : Checked)
    → Clean (note_name f c)
    → Clean c × ((f.name === "") ≡ false) × ((note_name f c).step_ids ≡ c.step_ids)
unfolding note_name
note_name-Clean f c h = elim (Bool-cases (f.name === "")) [
  | inl p ↦ elim (push-not_empty _ c.errors (rw p at h)) [ ]
  | inr p ↦ (rw p at h, p, rw p refl)
]

note_id-Clean :
    (f : StepFields) (c : Checked)
    → Clean (note_id f c)
    → Clean c
      × (includes f.step_id c.step_ids ≡ false)
      × ((note_id f c).step_ids ≡ add_to_set f.step_id c.step_ids)
unfolding note_id
note_id-Clean f c h = elim (Bool-cases (includes f.step_id c.step_ids)) [
  | inl p ↦ elim (push-not_empty _ c.errors (rw p at h)) [ ]
  | inr p ↦ (rw p at h, p, rw p refl)
]

check_fields-Clean :
    (f : StepFields) (c : Checked)
    → Clean (check_fields f c)
    → Clean c
      × (includes f.step_id c.step_ids ≡ false)
      × ((f.name === "") ≡ false)
      × ((check_fields f c).step_ids ≡ add_to_set f.step_id c.step_ids)
check_fields-Clean f c h =
    let agent = note_agent-Clean f (note_name f (note_id f c)) in
    let named = note_name-Clean f (note_id f c) (sym agent.0 ∙ h) in
    let noted = note_id-Clean f c named.0 in
    (noted.0, noted.1, named.1, agent.1 ∙ named.2 ∙ noted.2)

-- What a clean check of some steps shows.
abbrev Shows : Checked → Checked → List WorkflowStep → Type 0
Shows c c' ss = Clean c × AreDistinct c.step_ids ss × (c'.step_ids ≡ seen_after ss c.step_ids)

mutual
  unfolding validate_step validate_steps flatten flatten_nested

  validate_step-Clean :
      (s : WorkflowStep) (c : Checked)
      → Clean (validate_step s c)
      → Shows c (validate_step s c) (s ∷ flatten_nested s)
  validate_step-Clean (plain f) c h = elim (Bool-cases (f.step_id === "")) [
    | inl p ↦ elim (push-not_empty _ c.errors (rw p at h)) [ ]
    | inr p ↦ let k = check_fields-Clean f c (rw p at h) in rw p (k.0, (refl, k.1, k.2, tt), k.3)
  ]
  validate_step-Clean (composite f steps) c h = elim (Bool-cases (f.step_id === "")) [
    | inl p ↦ elim (push-not_empty _ c.errors (rw p at h)) [ ]
    | inr p ↦
        let n = validate_steps-Clean steps (check_fields f c) (rw p at h) in
        let k = check_fields-Clean f c n.0 in
        rw p (
          k.0,
          (refl, k.1, k.2, subst (λ l. AreDistinct l (flatten steps)) k.3 n.1),
          n.2 ∙ ap (seen_after (flatten steps)) k.3,
        )
  ]

  validate_steps-Clean :
      (ss : WorkflowSteps) (c : Checked)
      → Clean (validate_steps ss c)
      → Shows c (validate_steps ss c) (flatten ss)
  validate_steps-Clean nil c h = (h, tt, refl)
  validate_steps-Clean (cons s ss) c h =
      let rest = validate_steps-Clean ss (validate_step s c) h in
      let first = validate_step-Clean s c rest.0 in
      (
        first.0,
        AreDistinct-append (s ∷ flatten_nested s) (flatten ss) c.step_ids first.1
            (subst (λ l. AreDistinct l (flatten ss)) first.2 rest.1),
        rest.2
            ∙ ap (seen_after (flatten ss)) first.2
            ∙ sym (seen_after-append (s ∷ flatten_nested s) (flatten ss) c.step_ids),
      )

check_dependencies-Clean :
    (ids : List String) (step : String) (ds : List String) (c : Checked)
    → Clean (check_dependencies ids step ds c)
    → Clean c × All (λ d. includes d ids ≡ true) ds
unfolding check_dependencies
check_dependencies-Clean ids step [] c h = (h, tt)
check_dependencies-Clean ids step (d ∷ ds) c h =
    let k = check_dependencies-Clean ids step ds _ h in
    elim (Bool-cases (includes d ids)) [
      | inl p ↦ (rw p at k.0, (p, k.1))
      | inr p ↦ elim (push-not_empty _ c.errors (rw p at k.0)) [ ]
    ]

-- Every dependency of a step at the root is one of the ids.
abbrev pub HasDependencies : List String → WorkflowSteps → Type 0
HasDependencies ids nil = Unit
HasDependencies ids (cons s ss) =
    All (λ d. includes d ids ≡ true) (fields_of s).depends_on × HasDependencies ids ss

check_connectivity-Clean :
    (ids : List String) (ss : WorkflowSteps) (c : Checked)
    → Clean (check_connectivity ids ss c)
    → Clean c × HasDependencies ids ss
unfolding check_connectivity
check_connectivity-Clean ids nil c h = (h, tt)
check_connectivity-Clean ids (cons s ss) c h =
    let rest = check_connectivity-Clean ids ss _ h in
    let first =
      check_dependencies-Clean ids (fields_of s).step_id (fields_of s).depends_on c rest.0 in
    (first.0, (first.1, rest.1))

push_unless-Clean :
    (b : Bool) (e : ValidationError) (c : Checked)
    → Clean (push_unless b e c)
    → Clean c × (b ≡ true)
push_unless-Clean true e c h = (h, refl)
push_unless-Clean false e c h = elim (push-not_empty e c.errors h) [ ]

push_unless-step_ids :
    (b : Bool) (e : ValidationError) (c : Checked) → (push_unless b e c).step_ids ≡ c.step_ids
push_unless-step_ids true e c = refl
push_unless-step_ids false e c = refl

check_basics-step_ids :
    (w : WorkflowDefinition)
    → (check_basics w (record { step_ids = []; errors = []; warnings = [] })).step_ids ≡ []
check_basics-step_ids w =
    push_unless-step_ids (has_steps w.steps) _ _
    ∙ push_unless-step_ids (not (w.name === "")) _ _
    ∙ push_unless-step_ids (not (w.workflow_id === "")) _ _

-- What the caller of `validate` relies on.
pub record IsValid (w : WorkflowDefinition) : Type 0 where
  pub id_given : not (w.workflow_id === "") ≡ true
  pub name_given : not (w.name === "") ≡ true
  pub some_steps : has_steps w.steps ≡ true
  pub distinct : AreDistinct [] (flatten w.steps)
  pub dependencies : HasDependencies (collect_all_step_ids w.steps) w.steps
  pub attempts : not (less w.retry_policy.max_attempts (pos 1)) ≡ true
  pub step_timeout : is_positive w.timeout_policy.step_timeout_ms ≡ true
  pub workflow_timeout : is_positive w.timeout_policy.workflow_timeout_ms ≡ true

-- If `validate` reports no error, then the workflow has an id, a name and steps; all steps, at
-- every depth, have names and ids that differ from one another; every dependency of a step at the
-- root is the id of a step; and at least one attempt and positive timeouts are set.
pub validate-IsValid : (w : WorkflowDefinition) → (validate w).errors ≡ [] → IsValid w
unfolding validate validate_policies
validate-IsValid w h =
    let timeout = push_unless-Clean (is_positive w.timeout_policy.workflow_timeout_ms) _ _ h in
    let step_timeout =
      push_unless-Clean (is_positive w.timeout_policy.step_timeout_ms) _ _ timeout.0 in
    let attempts =
      push_unless-Clean (not (less w.retry_policy.max_attempts (pos 1))) _ _ step_timeout.0 in
    let connected = check_connectivity-Clean (collect_all_step_ids w.steps) w.steps _ attempts.0 in
    let empty : Checked = record { step_ids = []; errors = []; warnings = [] } in
    let steps = validate_steps-Clean w.steps (check_basics w empty) connected.0 in
    let some_steps = push_unless-Clean (has_steps w.steps) _ _ steps.0 in
    let name = push_unless-Clean (not (w.name === "")) _ _ some_steps.0 in
    let id = push_unless-Clean (not (w.workflow_id === "")) _ _ name.0 in
    let same = check_basics-step_ids w in
    record {
      id_given = id.1;
      name_given = name.1;
      some_steps = some_steps.1;
      distinct = subst (λ l. AreDistinct l (flatten w.steps)) same steps.1;
      dependencies = connected.1;
      attempts = attempts.1;
      step_timeout = step_timeout.1;
      workflow_timeout = timeout.1;
    }
