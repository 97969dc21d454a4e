-- ===== src/Planner/Order.antt =====
-- What `topologicalSort` returns.
pub mod Visits
pub mod Ranks
use nexus_ai_workspace.Common.{
  ℕ, zero, suc, String, ◌≡◌, refl, sym, ap, subst, ◌∙◌, Bool, true, false, List, [], ◌∷◌, ◌++◌,
  Option, none, some, Bool-cases, Option-cases, inl, inr, arith, ◌<◌, ◌≤◌, ◌===◌, ===_eq, ===_refl,
  length, All, includes, add_to_set, remove_from_set, includes-add_to_set, remove-add_to_set,
  includes-append, if◌then◌else◌, ◌||◌,
}
use mathlib.Core.List.{append_assoc, append-nil}
use nexus_ai_workspace.Common.Map.{Map, get}
use nexus_ai_workspace.Task.{AgentTask, TaskDependency}
use nexus_ai_workspace.Planner.{
  Walk, Visit, done, circular, out_of_fuel, dependencies_of, leave, and_visit, visit_dependencies,
}

module _ (tasks : Map AgentTask) where
  -- After the ids in `before`, each id of the list comes once, and after all of its dependencies.
  abbrev pub IsOrdered : (before ids : List String) → Type 0
  IsOrdered before [] = Unit
  IsOrdered before (x ∷ xs) =
      All (λ d. includes d.task_id before ≡ true) (dependencies_of (get x tasks))
      × (includes x before ≡ false)
      × IsOrdered (before ++ x ∷ []) xs

  IsOrdered-last :
      (before xs : List String) (x : String)
      → IsOrdered before xs
      → All (λ d. includes d.task_id (before ++ xs) ≡ true) (dependencies_of (get x tasks))
      → includes x (before ++ xs) ≡ false
      → IsOrdered before (xs ++ x ∷ [])
  IsOrdered-last before [] x o all new =
      let same = append-nil before in
      (
        subst (λ l. All (λ d. includes d.task_id l ≡ true) (dependencies_of (get x tasks))) same
            all,
        subst (λ l. includes x l ≡ false) same new,
        tt,
      )
  IsOrdered-last before (y ∷ ys) x o all new =
      let same = sym (append_assoc before (y ∷ []) ys) in
      (
        o.0,
        o.1,
        IsOrdered-last (before ++ y ∷ []) ys x o.2
            (subst (λ l. All (λ d. includes d.task_id l ≡ true) (dependencies_of (get x tasks)))
              same all)
            (subst (λ l. includes x l ≡ false) same new),
      )

  pub record Sound (w : Walk) : Type 0 where
    pub same : (k : String) → includes k w.visited ≡ includes k w.result
    pub ordered : IsOrdered [] w.result

  -- What a visit that returns leaves as it was.
  pub record Returns (w t : Walk) : Type 0 where
    pub kept : t.visiting ≡ w.visiting
    pub sound : Sound t
    pub grows : (k : String) → includes k w.result ≡ true → includes k t.result ≡ true
    pub safe :
        (k : String)
        → includes k w.visiting ≡ true
        → includes k w.result ≡ false
        → includes k t.result ≡ false

  pub Returns-refl : (w : Walk) → Sound w → Returns w w
  Returns-refl w s = record { kept = refl; sound = s; grows = λ k h. h; safe = λ k h i. i }

  pub Returns-trans : (w t u : Walk) → Returns w t → Returns t u → Returns w u
  Returns-trans w t u a b = record {
    kept = b.kept ∙ a.kept;
    sound = b.sound;
    grows = λ k h. b.grows k (a.grows k h);
    safe = λ k h i. b.safe k (ap (includes k) a.kept ∙ h) (a.safe k h i);
  }

  -- A visit throws, or returns and has the property; it does not use up its count.
  abbrev pub Ends : (Walk → Type 0) → Visit → Type 0
  Ends P (done w) = P w
  Ends P circular = Unit
  Ends P out_of_fuel = ⊥

  pub Ends-and_visit :
      (P Q : Walk → Type 0) (r : Visit) (next : Walk → Visit)
      → Ends P r
      → ((t : Walk) → P t → Ends Q (next t))
      → Ends Q (and_visit r next)
  Ends-and_visit P Q (done t) next h k = k t h
  Ends-and_visit P Q circular next h k = tt
  Ends-and_visit P Q out_of_fuel next h k = h

  pub Ends-map : (P Q : Walk → Type 0) (r : Visit) → ((t : Walk) → P t → Q t) → Ends P r → Ends Q r
  Ends-map P Q (done t) f h = f t h
  Ends-map P Q circular f h = tt
  Ends-map P Q out_of_fuel f h = h

  abbrev pub Reaches : Walk → String → Walk → Type 0
  Reaches w id t = Returns w t × (includes id t.result ≡ true)

  pub visit_dependencies-Ends :
      (f : String → Walk → Visit) (v : List String)
      → ((id : String) (w : Walk) → w.visiting ≡ v → Sound w → Ends (Reaches w id) (f id w))
      → (ds : List TaskDependency) (w : Walk) → w.visiting ≡ v
      → Sound w
      → Ends
          (λ t. Returns w t × All (λ d. includes d.task_id t.result ≡ true) ds)
          (visit_dependencies f ds w)
  visit_dependencies-Ends f v hf [] w e s = (Returns-refl w s, tt)
  visit_dependencies-Ends f v hf (d ∷ ds) w e s =
      Ends-and_visit (Reaches w d.task_id) _ (f d.task_id w) (visit_dependencies f ds)
        (hf d.task_id w e s)
        (λ t h.
          Ends-map _ _ (visit_dependencies f ds t)
            (λ u i. (Returns-trans w t u h.0 i.0, (i.0.grows d.task_id h.1, i.1)))
            (visit_dependencies-Ends f v hf ds t (h.0.kept ∙ e) h.0.sound))

  module _ (id : String) (w : Walk) (unseen : includes id w.visited ≡ false)
      (closed : includes id w.visiting ≡ false) (s : Sound w) where
    abbrev pub entered : Walk
    entered = record w { visiting = add_to_set id w.visiting }

    pub entered-Sound : Sound entered
    entered-Sound = record { same = s.same; ordered = s.ordered }

    apart : (k : String) → includes k w.visiting ≡ true → (id === k) ≡ false
    apart k h = elim (Bool-cases (id === k)) [
      | inr e ↦ e
      | inl e ↦ let h' = ap (λ j. includes j w.visiting) (===_eq id k e) in cc
    ]

    left :
        (t : Walk)
        → Returns entered t
          × All (λ d. includes d.task_id t.result ≡ true) (dependencies_of (get id tasks))
        → Ends (Reaches w id) (leave id (done t))
    unfolding includes
    left t (r, all) =
        let new : includes id t.result ≡ false =
          r.safe id (ground (arith, includes-add_to_set id id w.visiting, ===_refl id))
            (sym (s.same id) ∙ unseen) in
        (
          record {
            kept = ap (remove_from_set id) r.kept ∙ remove-add_to_set id w.visiting closed;
            sound = record {
              same = λ k. ground (
                arith,
                r.sound.same k,
                includes-add_to_set k id t.visited,
                includes-append k t.result (id ∷ []),
              );
              ordered = IsOrdered-last [] t.result id r.sound.ordered all new;
            };
            grows = λ k h. ground (arith, r.grows k h, includes-append k t.result (id ∷ []));
            safe = λ k h i. ground (
              arith,
              r.safe k (ground (arith, includes-add_to_set k id w.visiting)) i,
              apart k h,
              includes-append k t.result (id ∷ []),
            );
          },
          ground (arith, includes-append id t.result (id ∷ []), ===_refl id),
        )

    pub leave-Ends :
        (inner : Visit)
        → Ends
            (λ t.
              Returns entered t
              × All (λ d. includes d.task_id t.result ≡ true) (dependencies_of (get id tasks)))
            inner
        → Ends (Reaches w id) (leave id inner)
    leave-Ends (done t) h = left t h
    leave-Ends circular h = tt
    leave-Ends out_of_fuel h = h
