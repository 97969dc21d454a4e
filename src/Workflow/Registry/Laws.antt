-- ===== src/Workflow/Registry/Laws.antt =====
-- The two indexes of WorkflowRegistry agree.
mod Removal
pub mod History
use nexus_ai_workspace.Common.{
  ℕ, String, ◌≡◌, refl, sym, ap, ◌∙◌, subst, Bool, true, false, not, List, [], ◌∷◌, ◌++◌, Option,
  none, some, ◌===◌, ===_eq, ===_refl, if◌then◌else◌, Bool-cases, Option-cases, inl, inr, All,
  arith, select, select-perm, insert_before-perm, is_some,
}
use mathlib.Core.List.{Perm, append-nil}
use mathlib.Core.List.Perm
use nexus_ai_workspace.Common.Map.{
  Map, get, set, delete, has, values, Distinct, Entries, Entries-set, Entries-delete, Entries-get,
  set-Distinct, delete-Distinct, get-set, get-delete,
}
use nexus_ai_workspace.Workflow.{WorkflowDefinition}
use nexus_ai_workspace.Workflow.Registry.{
  WorkflowRegistry, RegistryError, create, or_empty, find, list, clear, store, stored, register,
  set_or_delete, removed, remove, find_by_name, sort_versions, sort_entry, list_by_version,
  get_latest_version,
}
use nexus_ai_workspace.Workflow.Registry.Structure.{StructureError, validate_workflow_structure}
use nexus_ai_workspace.Workflow.Registry.Laws.Removal.{
  IsOwner, values-set_new, select-append, values-delete, select_comm, select-skip, owner_of,
}

module _ (to_lower_case : String → String) where
  -- The workflows that the calls of `findByName` with this key are to return.
  abbrev pub named : String → List WorkflowDefinition → List WorkflowDefinition
  named key ws = select (λ w. to_lower_case w.name === key) ws

  -- Each workflow stands under its id, and the other index has for each name the workflows that
  -- have it, in some order.
  pub record IsIndexed (r : WorkflowRegistry) : Type 0 where
    pub distinct : Distinct r.workflows
    pub owned : Entries IsOwner r.workflows
    pub names : Distinct r.workflows_by_name
    pub indexed :
        (key : String)
        → Perm (or_empty (get key r.workflows_by_name)) (named key (values r.workflows))

  pub create-IsIndexed : IsIndexed create
  unfolding create get
  create-IsIndexed = record { distinct = tt; owned = tt; names = tt; indexed = λ key. Perm.refl [] }

  pub store-IsIndexed :
      (r : WorkflowRegistry) (w : WorkflowDefinition)
      → get w.workflow_id r.workflows ≡ none
      → IsIndexed r
      → IsIndexed (store to_lower_case r w)
  store-IsIndexed r w new i =
      let key = to_lower_case w.name in
      let added = or_empty (get key r.workflows_by_name) ++ w ∷ [] in
      record {
        distinct = set-Distinct w.workflow_id w r.workflows i.distinct;
        owned = Entries-set IsOwner w.workflow_id w r.workflows refl i.owned;
        names = set-Distinct key added r.workflows_by_name i.names;
        indexed = λ k.
            rw
              (
                get-set key k added r.workflows_by_name,
                values-set_new w.workflow_id w r.workflows new,
                select-append (λ v. to_lower_case v.name === k) (values r.workflows) (w ∷ []),
              )
              (elim (Bool-cases (key === k)) [
                | inl p ↦ rw p (
                    subst
                      (λ j.
                        Perm (or_empty (get j r.workflows_by_name) ++ w ∷ [])
                          (named k (values r.workflows) ++ w ∷ []))
                      (sym (===_eq key k p)) (Perm.append_right (w ∷ []) (i.indexed k)))
                | inr p ↦ rw (p, append-nil (named k (values r.workflows))) (i.indexed k)
              ]);
      }

  get-set_or_delete :
      (key k : String) (ws : List WorkflowDefinition) (m : Map (List WorkflowDefinition))
      → Distinct m
      → or_empty (get k (set_or_delete to_lower_case key ws m))
        ≡ (if key === k then ws else or_empty (get k m))
  get-set_or_delete key k [] m d =
      rw (get-delete key k m d)
        (elim (Bool-cases (key === k)) [ inl p ↦ rw p refl | inr p ↦ rw p refl ])
  get-set_or_delete key k (w ∷ ws) m d =
      rw (get-set key k (w ∷ ws) m)
        (elim (Bool-cases (key === k)) [ inl p ↦ rw p refl | inr p ↦ rw p refl ])

  set_or_delete-Distinct :
      (key : String) (ws : List WorkflowDefinition) (m : Map (List WorkflowDefinition))
      → Distinct m
      → Distinct (set_or_delete to_lower_case key ws m)
  set_or_delete-Distinct key [] m d = delete-Distinct key m d
  set_or_delete-Distinct key (w ∷ ws) m d = set-Distinct key (w ∷ ws) m d

  pub removed-IsIndexed :
      (r : WorkflowRegistry) (id : String) (w : WorkflowDefinition)
      → get id r.workflows ≡ some w
      → IsIndexed r
      → IsIndexed (removed to_lower_case r id (some w)).0
  removed-IsIndexed r id w g i =
      let key = to_lower_case w.name in
      let other : WorkflowDefinition → Bool =
        λ (v : WorkflowDefinition). not (v.workflow_id === id) in
      let kept = select other (or_empty (get key r.workflows_by_name)) in
      record {
        distinct = delete-Distinct id r.workflows i.distinct;
        owned = Entries-delete IsOwner id r.workflows i.owned;
        names = set_or_delete-Distinct key kept r.workflows_by_name i.names;
        indexed = λ k.
            rw
              (
                get-set_or_delete key k kept r.workflows_by_name i.names,
                values-delete id r.workflows i.distinct i.owned,
              )
              (elim (Bool-cases (key === k)) [
                | inl p ↦
                    rw
                      (
                        p,
                        ← select_comm other (λ v. to_lower_case v.name === k) (values r.workflows),
                      )
                      (subst
                        (λ j.
                          Perm (select other (or_empty (get j r.workflows_by_name)))
                            (select other (named k (values r.workflows))))
                        (sym (===_eq key k p)) (select-perm other _ _ (i.indexed k)))
                | inr p ↦
                    rw
                      (
                        p,
                        select-skip id (λ v. to_lower_case v.name === k) (values r.workflows)
                            (owner_of id w (λ v. (to_lower_case v.name === k) ≡ false) p r.workflows
                              i.distinct i.owned g),
                      )
                      (i.indexed k)
              ]);
      }
