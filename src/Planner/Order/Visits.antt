-- ===== src/Planner/Order/Visits.antt =====
-- The visits of `topologicalSort` end, and what it returns is an order of the tasks.
use nexus_ai_workspace.Common.{
  ℕ, zero, suc, String, ◌≡◌, refl, sym, ap, subst, ◌∙◌, true, false, List, [], ◌∷◌, some,
  Bool-cases, Option-cases, inl, inr, arith, ◌<◌, ◌≤◌, ◌===◌, ===_eq, ===_swap, length, All,
  includes, add_to_set, includes-add_to_set, if◌then◌else◌,
}
use nexus_ai_workspace.Common.Map.{Map, get}
use nexus_ai_workspace.Task.{AgentTask}
use nexus_ai_workspace.Planner.{
  Walk, dependencies_of, visit, visit_tasks, task_map, topological_sort,
}
use nexus_ai_workspace.Planner.Order.{
  IsOrdered, Sound, Returns, Returns-refl, Returns-trans, Ends, Ends-and_visit, Ends-map, Reaches,
  visit_dependencies-Ends, entered, entered-Sound, leave-Ends,
}

-- The number of tasks whose visit has not begun, or has ended.
abbrev open_count : Map AgentTask → List String → ℕ
open_count [] v = 0
open_count ((k, t) ∷ m) v = let n = open_count m v in if includes k v then n else suc n

open_count-le :
    (m : Map AgentTask) (id : String) (v : List String)
    → open_count m (add_to_set id v) ≤ open_count m v
open_count-le [] id v = omega arith
open_count-le ((k, t) ∷ m) id v = ground (arith, open_count-le m id v, includes-add_to_set k id v)

-- To enter a task leaves fewer of them.
open_count-lt :
    (m : Map AgentTask) (id : String) (v : List String) (t : AgentTask)
    → get id m ≡ some t
    → includes id v ≡ false
    → open_count m (add_to_set id v) < open_count m v
unfolding get
open_count-lt [] id v t e h = cc
open_count-lt ((k, u) ∷ m) id v t e h = elim (Bool-cases (k === id)) [
  | inl s ↦
      let h' : includes k v ≡ false = ap (λ j. includes j v) (===_eq k id s) ∙ h in
      let s' : (id === k) ≡ true = ===_swap k id s in
      ground (arith, open_count-le m id v, includes-add_to_set k id v)
  | inr s ↦
      let ih = open_count-lt m id v t (rw s at e) h in
      ground (arith, ih, includes-add_to_set k id v)
]

open_count-length : (m : Map AgentTask) → open_count m [] ≡ length m
unfolding includes
open_count-length [] = refl
open_count-length ((k, t) ∷ m) = ground (arith, open_count-length m)

module _ (tasks : Map AgentTask) where
  visit-Ends :
      (n : ℕ) (id : String) (w : Walk)
      → open_count tasks w.visiting < n
      → Sound tasks w
      → Ends tasks (Reaches tasks w id) (visit n tasks id w)
  unfolding visit
  visit-Ends zero id w h s = omega arith
  visit-Ends (suc n) id w h s = elim (Bool-cases (includes id w.visited)) [
    | inl e ↦ rw e (Returns-refl tasks w s, sym (s.same id) ∙ e)
    | inr e ↦ elim (Bool-cases (includes id w.visiting)) [
      | inl f ↦ rw (e, f) tt
      | inr f ↦
          let w' = entered tasks id w e f s in
          let s' = entered-Sound tasks id w e f s in
          rw (e, f)
            (leave-Ends tasks id w e f s _ (elim (Option-cases (get id tasks)) [
              | inl g ↦ rw g (Returns-refl tasks w' s', tt)
              | inr (t, g) ↦
                  let fewer = open_count-lt tasks id w.visiting t g f in
                  visit_dependencies-Ends tasks (visit n tasks) w'.visiting
                    (λ j u k i.
                      visit-Ends n j u (subst (λ v. open_count tasks v < n) (sym k) (omega arith))
                        i)
                    (dependencies_of (get id tasks)) w' refl s'
            ]))
    ]
  ]

  visit_tasks-Ends :
      (n : ℕ) (ts : List AgentTask) (w : Walk)
      → open_count tasks w.visiting < n
      → Sound tasks w
      → Ends tasks
          (λ t. Returns tasks w t × All (λ a. includes a.task_id t.result ≡ true) ts)
          (visit_tasks (visit n tasks) ts w)
  visit_tasks-Ends n [] w h s = (Returns-refl tasks w s, tt)
  visit_tasks-Ends n (a ∷ ts) w h s =
      Ends-and_visit tasks (Reaches tasks w a.task_id) _ (visit n tasks a.task_id w)
        (visit_tasks (visit n tasks) ts) (visit-Ends n a.task_id w h s)
        (λ t i.
          Ends-map tasks _ _ (visit_tasks (visit n tasks) ts t)
            (λ u j. (Returns-trans tasks w t u i.0 j.0, (j.0.grows a.task_id i.1, j.1)))
            (visit_tasks-Ends n ts t (subst (λ v. open_count tasks v < n) (sym i.0.kept) h)
              i.0.sound))

-- `topologicalSort` ends. It throws, or it returns a list in which no id comes twice, each id comes
-- after all the ids that its task depends on, and every task's id comes.
pub topological_sort-Ends :
    (tasks : List AgentTask)
    → let m = task_map tasks [] in
      Ends m
        (λ t. IsOrdered m [] t.result × All (λ a. includes a.task_id t.result ≡ true) tasks)
        (topological_sort tasks)
unfolding topological_sort
topological_sort-Ends tasks =
    let m = task_map tasks [] in
    let w : Walk = record { visited = []; visiting = []; result = [] } in
    Ends-map m _ _ (visit_tasks (visit (suc (length m)) m) tasks w)
      (λ t h. (h.0.sound.ordered, h.1))
      (visit_tasks-Ends m (suc (length m)) tasks w (omega (arith, open_count-length m))
        (record { same = λ k. refl; ordered = tt }))
