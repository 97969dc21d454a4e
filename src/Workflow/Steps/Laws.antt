-- ===== src/Workflow/Steps/Laws.antt =====
-- What the walks over the tree of steps find, against the list of all steps in the order of the
-- file.
use nexus_ai_workspace.Common.{
  String, ◌≡◌, refl, ap, Bool, List, [], ◌∷◌, ◌++◌, ◌+◌, ◌===◌, find, length, length-append, arith,
  Bool-cases, inl, inr, includes, includes-add_to_set, includes-append, add_to_set, ◌||◌, map,
}
use nexus_ai_workspace.Workflow.{WorkflowStep, WorkflowSteps, plain, composite, nil, cons}
use nexus_ai_workspace.Workflow.Steps.{
  fields_of, length_steps, find_step, find_in_step, or_else, count_total_steps, count_nested,
  count_in_step, collect_from, collect_in_step, collect_all_step_ids, add_each,
}

-- A step before the steps nested in it.
unfoldable mutual
  pub flatten : WorkflowSteps → List WorkflowStep
  flatten nil = []
  flatten (cons s ss) = s ∷ (flatten_nested s ++ flatten ss)

  pub flatten_nested : WorkflowStep → List WorkflowStep
  flatten_nested (plain f) = []
  flatten_nested (composite f steps) = flatten steps

abbrev pub has_id : String → WorkflowStep → Bool
has_id id s = (fields_of s).step_id === id

abbrev pub flat_ids : WorkflowSteps → List String
flat_ids ss = map (λ s. (fields_of s).step_id) (flatten ss)

find-append :
    (id : String) (xs ys : List WorkflowStep)
    → find (has_id id) (xs ++ ys) ≡ or_else (find (has_id id) xs) (find (has_id id) ys)
find-append id [] ys = refl
find-append id (x ∷ xs) ys = elim (Bool-cases (has_id id x)) [
  | inl e ↦ rw e
  | inr e ↦ rw e (find-append id xs ys)
]

mutual
  unfolding find_step find_in_step flatten flatten_nested

  find_step-flat :
      (id : String) (ss : WorkflowSteps) → find_step id ss ≡ find (has_id id) (flatten ss)
  find_step-flat id nil = refl
  find_step-flat id (cons s ss) =
      rw (find_in_step-first id s (flatten ss), find_step-flat id ss) refl

  find_in_step-first :
      (id : String) (s : WorkflowStep) (rest : List WorkflowStep)
      → find (has_id id) (s ∷ (flatten_nested s ++ rest))
        ≡ or_else (find_in_step id s) (find (has_id id) rest)
  find_in_step-first id (plain f) rest = ground arith
  find_in_step-first id (composite f steps) rest =
      rw (find-append id (flatten steps) rest, find_step-flat id steps) (ground arith)

-- `findStep` returns the first step with the id, in the order in which the steps are written, and
-- nothing if no step at any depth has the id.
pub find_step-first :
    (id : String) (ss : WorkflowSteps) → find_step id ss ≡ find (has_id id) (flatten ss)
find_step-first id ss = find_step-flat id ss

mutual
  unfolding count_nested count_in_step flatten flatten_nested

  count_nested-flatten :
      (ss : WorkflowSteps) → length_steps ss + count_nested ss ≡ length (flatten ss)
  count_nested-flatten nil = omega arith
  count_nested-flatten (cons s ss) = omega (
    arith,
    count_nested-flatten ss,
    count_in_step-flatten s,
    length-append (flatten_nested s) (flatten ss),
  )

  count_in_step-flatten : (s : WorkflowStep) → count_in_step s ≡ length (flatten_nested s)
  count_in_step-flatten (plain f) = omega arith
  count_in_step-flatten (composite f steps) = count_nested-flatten steps

-- `countTotalSteps` counts every step once, at every depth.
pub count_total_steps-flatten : (ss : WorkflowSteps) → count_total_steps ss ≡ length (flatten ss)
unfolding count_total_steps
count_total_steps-flatten ss = count_nested-flatten ss

includes-add_each :
    (k : String) (xs ids : List String)
    → includes k (add_each xs ids) ≡ (includes k xs || includes k ids)
unfolding includes
includes-add_each k [] ids = refl
includes-add_each k (x ∷ xs) ids =
    ground (arith, includes-add_each k xs (add_to_set x ids), includes-add_to_set k x ids)

map-append :
    (xs ys : List WorkflowStep)
    → map (λ s. (fields_of s).step_id) (xs ++ ys)
      ≡ map (λ s. (fields_of s).step_id) xs ++ map (λ s. (fields_of s).step_id) ys
map-append [] ys = refl
map-append (x ∷ xs) ys = ap (◌∷◌ (fields_of x).step_id) (map-append xs ys)

mutual
  unfolding collect_from collect_in_step flatten flatten_nested includes

  includes-collect_from :
      (k : String) (ss : WorkflowSteps) (ids : List String)
      → includes k (collect_from ss ids) ≡ (includes k (flat_ids ss) || includes k ids)
  includes-collect_from k nil ids = refl
  includes-collect_from k (cons s ss) ids = rw (map-append (flatten_nested s) (flatten ss)) (
      ground (
        arith,
        includes-collect_from k ss (collect_in_step s (add_to_set (fields_of s).step_id ids)),
        includes-collect_in_step k s (add_to_set (fields_of s).step_id ids),
        includes-add_to_set k (fields_of s).step_id ids,
        includes-append k (map (λ s. (fields_of s).step_id) (flatten_nested s)) (flat_ids ss),
      ))

  includes-collect_in_step :
      (k : String) (s : WorkflowStep) (ids : List String)
      → includes k (collect_in_step s ids)
        ≡ (includes k (map (λ s. (fields_of s).step_id) (flatten_nested s)) || includes k ids)
  includes-collect_in_step k (plain f) ids = refl
  includes-collect_in_step k (composite f steps) ids =
      ground
        (arith, includes-add_each k (collect_from steps []) ids, includes-collect_from k steps [])

-- `collectAllStepIds` is the set of the ids of all steps, at every depth.
pub includes-collect_all :
    (k : String) (ss : WorkflowSteps)
    → includes k (collect_all_step_ids ss) ≡ includes k (flat_ids ss)
unfolding collect_all_step_ids includes
includes-collect_all k ss = ground (arith, includes-collect_from k ss [])
