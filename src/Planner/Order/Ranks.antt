-- ===== src/Planner/Order/Ranks.antt =====
-- When `topologicalSort` does not throw.
use nexus_ai_workspace.Common.{
  ℕ, zero, suc, String, ◌≡◌, refl, sym, ap, ◌∙◌, true, false, List, [], ◌∷◌, Bool-cases, inl, inr,
  arith, ◌<◌, ◌===◌, ===_eq, length, All, includes, add_to_set, remove_from_set,
  includes-add_to_set, remove-add_to_set,
}
use nexus_ai_workspace.Common.Map.{Map, get}
use nexus_ai_workspace.Task.{AgentTask, TaskDependency}
use nexus_ai_workspace.Planner.{
  Walk, Visit, done, circular, out_of_fuel, dependencies_of, leave, and_visit, visit_dependencies,
  visit, visit_tasks, task_map, topological_sort,
}
use nexus_ai_workspace.Planner.Order.{IsOrdered, Ends}
use nexus_ai_workspace.Planner.Order.Visits.{topological_sort-Ends}

module _ (rank : String → ℕ) (tasks : Map AgentTask) where
  -- Each dependency has a lower rank than the task.
  abbrev pub IsRanked : Type 0
  IsRanked = (id : String) → All (λ d. rank d.task_id < rank id) (dependencies_of (get id tasks))

  -- The visit does not throw, and leaves the set of open visits as it was.
  abbrev Goes : Walk → Visit → Type 0
  Goes w (done t) = t.visiting ≡ w.visiting
  Goes w circular = ⊥
  Goes w out_of_fuel = Unit

  Goes-and_visit :
      (w : Walk) (r : Visit) (next : Walk → Visit)
      → Goes w r
      → ((t : Walk) → t.visiting ≡ w.visiting → Goes t (next t))
      → Goes w (and_visit r next)
  Goes-and_visit w (done t) next h k = after (next t) (k t h)
    where
      after : (r : Visit) → Goes t r → Goes w r
      after (done u) g = g ∙ h
      after circular g = g
      after out_of_fuel g = g
  Goes-and_visit w circular next h k = h
  Goes-and_visit w out_of_fuel next h k = tt

  -- Every open visit has a higher rank.
  abbrev IsAbove : ℕ → List String → Type 0
  IsAbove n v = (k : String) → includes k v ≡ true → n < rank k

  visit_dependencies-Goes :
      (f : String → Walk → Visit) (v : List String) (n : ℕ)
      → ((id : String) (w : Walk) → w.visiting ≡ v → rank id < n → Goes w (f id w))
      → (ds : List TaskDependency) (w : Walk) → w.visiting ≡ v
      → All (λ d. rank d.task_id < n) ds
      → Goes w (visit_dependencies f ds w)
  visit_dependencies-Goes f v n hf [] w e r = refl
  visit_dependencies-Goes f v n hf (d ∷ ds) w e r =
      Goes-and_visit w (f d.task_id w) (visit_dependencies f ds) (hf d.task_id w e r.0)
        (λ t k. visit_dependencies-Goes f v n hf ds t (k ∙ e) r.1)

  leave-Goes :
      (id : String) (w : Walk) (inner : Visit)
      → includes id w.visiting ≡ false
      → Goes (record w { visiting = add_to_set id w.visiting }) inner
      → Goes w (leave id inner)
  leave-Goes id w (done t) h k = ap (remove_from_set id) k ∙ remove-add_to_set id w.visiting h
  leave-Goes id w circular h k = k
  leave-Goes id w out_of_fuel h k = tt

  visit-Goes :
      IsRanked
      → (n : ℕ) (id : String) (w : Walk) → IsAbove (rank id) w.visiting
      → Goes w (visit n tasks id w)
  unfolding visit
  visit-Goes ranked zero id w h = tt
  visit-Goes ranked (suc n) id w h = elim (Bool-cases (includes id w.visited)) [
    | inl e ↦ rw e refl
    | inr e ↦ elim (Bool-cases (includes id w.visiting)) [
      | inl f ↦ let above = h id f in absurd (omega arith)
      | inr f ↦
          let w' : Walk = record w { visiting = add_to_set id w.visiting } in
          rw (e, f)
            (leave-Goes id w _ f (
              visit_dependencies-Goes (visit n tasks) w'.visiting (rank id)
                (λ j u k r. visit-Goes ranked n j u (above_all j u k r))
                (dependencies_of (get id tasks)) w' refl (ranked id)))
    ]
  ]
    where
      above_all :
          (j : String) (u : Walk)
          → u.visiting ≡ add_to_set id w.visiting
          → rank j < rank id
          → IsAbove (rank j) u.visiting
      above_all j u k r i g = elim (Bool-cases (id === i)) [
        | inl s ↦ let same = ap rank (===_eq id i s) in omega arith
        | inr s ↦
            let g' = sym (includes-add_to_set i id w.visiting) ∙ ap (includes i) (sym k) ∙ g in
            let higher = h i (ground arith) in omega arith
      ]

  visit_tasks-Goes :
      IsRanked
      → (n : ℕ) (ts : List AgentTask) (w : Walk) → w.visiting ≡ []
      → Goes w (visit_tasks (visit n tasks) ts w)
  unfolding includes
  visit_tasks-Goes ranked n [] w e = refl
  visit_tasks-Goes ranked n (a ∷ ts) w e =
      Goes-and_visit w (visit n tasks a.task_id w) (visit_tasks (visit n tasks) ts)
        (visit-Goes ranked n a.task_id w (λ k g. let g' = ap (includes k) (sym e) ∙ g in cc))
        (λ t k. visit_tasks-Goes ranked n ts t (k ∙ e))

  finishes :
      (P : Walk → Type 0) (w : Walk) (r : Visit)
      → Goes w r
      → Ends tasks P r
      → (t : Walk) × (r ≡ done t) × P t
  finishes P w (done t) g h = (t, refl, h)
  finishes P w circular g h = absurd g
  finishes P w out_of_fuel g h = absurd h

-- `topologicalSort` does not throw where the tasks have ranks such that each dependency of a task
-- ranks lower than the task: then it returns a list in which no id comes twice, each id comes after
-- all the ids that its task depends on, and every task's id comes.
pub topological_sort-done :
    (rank : String → ℕ) (tasks : List AgentTask)
    → IsRanked rank (task_map tasks [])
    → (t : Walk) × (topological_sort tasks ≡ done t)
      × IsOrdered (task_map tasks []) [] t.result
      × All (λ a. includes a.task_id t.result ≡ true) tasks
unfolding topological_sort
topological_sort-done rank tasks ranked =
    let m = task_map tasks [] in
    let w : Walk = record { visited = []; visiting = []; result = [] } in
    let (t, e, found) =
      finishes rank m _ w _ (visit_tasks-Goes rank m ranked (suc (length m)) tasks w refl)
        (topological_sort-Ends tasks) in
    (t, e, found.0, found.1)
