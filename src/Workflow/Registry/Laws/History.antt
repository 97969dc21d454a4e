-- ===== src/Workflow/Registry/Laws/History.antt =====
-- WorkflowRegistry after any calls.
use nexus_ai_workspace.Common.{
  String, ◌≡◌, sym, ap, ◌∙◌, Bool, not, List, [], ◌∷◌, some, ◌===◌, ===_eq, Bool-cases,
  Option-cases, inl, inr, insert_before-perm, subst,
}
use mathlib.Core.List.{Perm}
use mathlib.Core.List.Perm
use nexus_ai_workspace.Common.Map.{get, values, get-set, set-Distinct, Entries-get}
use nexus_ai_workspace.Workflow.{WorkflowDefinition}
use nexus_ai_workspace.Workflow.Registry.{
  WorkflowRegistry, create, or_empty, find, list, clear, register, remove, find_by_name,
  sort_versions, list_by_version, get_latest_version,
}
use nexus_ai_workspace.Workflow.Registry.Structure.{validate_workflow_structure}
use nexus_ai_workspace.Workflow.Registry.Laws.{
  IsIndexed, named, create-IsIndexed, store-IsIndexed, removed-IsIndexed,
}

-- The calls that change the registry.
pub data RegistryCall : Type 0 where
  register_call : WorkflowDefinition → RegistryCall
  remove_call : String → RegistryCall
  clear_call : RegistryCall
  list_by_version_call get_latest_version_call : String → RegistryCall

module _ (to_lower_case : String → String) (newer : String → String → Bool) where
  abbrev pub call : WorkflowRegistry → RegistryCall → WorkflowRegistry
  call r (register_call w) = (register to_lower_case r w).0
  call r (remove_call id) = (remove to_lower_case r id).0
  call r clear_call = clear r
  call r (list_by_version_call name) = (list_by_version to_lower_case newer r name).0
  call r (get_latest_version_call name) = (get_latest_version to_lower_case newer r name).0

  abbrev pub calls : List RegistryCall → WorkflowRegistry → WorkflowRegistry
  calls [] r = r
  calls (c ∷ cs) r = calls cs (call r c)

  register-IsIndexed :
      (r : WorkflowRegistry) (w : WorkflowDefinition)
      → IsIndexed to_lower_case r
      → IsIndexed to_lower_case (register to_lower_case r w).0
  unfolding register
  register-IsIndexed r w i = elim (Bool-cases (w.workflow_id === "")) [
    | inl p ↦ rw p i
    | inr p ↦ elim (Option-cases (get w.workflow_id r.workflows)) [
      | inr (v, q) ↦ rw (p, q) i
      | inl q ↦ elim (Option-cases (validate_workflow_structure w)) [
        | inl s ↦ rw (p, q, s) (store-IsIndexed to_lower_case r w q i)
        | inr (e, s) ↦ rw (p, q, s) i
      ]
    ]
  ]

  remove-IsIndexed :
      (r : WorkflowRegistry) (id : String)
      → IsIndexed to_lower_case r
      → IsIndexed to_lower_case (remove to_lower_case r id).0
  unfolding remove
  remove-IsIndexed r id i = elim (Option-cases (get id r.workflows)) [
    | inl p ↦ rw p i
    | inr (w, p) ↦ rw p (removed-IsIndexed to_lower_case r id w p i)
  ]

  sort_versions-perm :
      (ws : List WorkflowDefinition) → Perm (sort_versions to_lower_case newer ws) ws
  sort_versions-perm [] = Perm.refl []
  sort_versions-perm (w ∷ ws) =
      Perm.trans
        (insert_before-perm (λ v. not (newer v.version w.version)) w
          (sort_versions to_lower_case newer ws))
        (Perm.cons w (sort_versions-perm ws))

  list_by_version-IsIndexed :
      (r : WorkflowRegistry) (name : String)
      → IsIndexed to_lower_case r
      → IsIndexed to_lower_case (list_by_version to_lower_case newer r name).0
  unfolding list_by_version
  list_by_version-IsIndexed r name i =
      let key = to_lower_case name in
      elim (Option-cases (get key r.workflows_by_name)) [
        | inl p ↦ rw p i
        | inr (ws, p) ↦
            let sorted = sort_versions to_lower_case newer ws in
            rw p (record {
              distinct = i.distinct;
              owned = i.owned;
              names = set-Distinct key sorted r.workflows_by_name i.names;
              indexed = λ k.
                  rw (get-set key k sorted r.workflows_by_name) (elim (Bool-cases (key === k)) [
                    | inl q ↦ rw q (
                        Perm.trans (sort_versions-perm ws) (
                          subst
                            (λ o. Perm (or_empty o) (named to_lower_case k (values r.workflows)))
                            (ap (λ j. get j r.workflows_by_name) (sym (===_eq key k q)) ∙ p)
                            (i.indexed k)))
                    | inr q ↦ rw q (i.indexed k)
                  ]);
            })
      ]

  call-IsIndexed :
      (r : WorkflowRegistry) (c : RegistryCall)
      → IsIndexed to_lower_case r
      → IsIndexed to_lower_case (call r c)
  unfolding clear create get_latest_version
  call-IsIndexed r (register_call w) i = register-IsIndexed r w i
  call-IsIndexed r (remove_call id) i = remove-IsIndexed r id i
  call-IsIndexed r clear_call i = create-IsIndexed to_lower_case
  call-IsIndexed r (list_by_version_call name) i = list_by_version-IsIndexed r name i
  call-IsIndexed r (get_latest_version_call name) i = list_by_version-IsIndexed r name i

  calls-IsIndexed :
      (cs : List RegistryCall) (r : WorkflowRegistry)
      → IsIndexed to_lower_case r
      → IsIndexed to_lower_case (calls cs r)
  calls-IsIndexed [] r i = i
  calls-IsIndexed (c ∷ cs) r i = calls-IsIndexed cs (call r c) (call-IsIndexed r c i)

  -- After any calls of `register`, `remove`, `clear`, `listByVersion` and `getLatestVersion` on a
  -- new registry, `findByName` returns exactly the workflows of `list` whose names agree with the
  -- given one in lower case, each once, in some order.
  pub find_by_name-perm :
      (cs : List RegistryCall) (name : String)
      → Perm
          (find_by_name to_lower_case (calls cs create) name)
          (named to_lower_case (to_lower_case name) (list (calls cs create)))
  unfolding find_by_name list
  find_by_name-perm cs name =
      (calls-IsIndexed cs create (create-IsIndexed to_lower_case)).indexed (to_lower_case name)

  -- After any such calls, `find` returns a workflow only under its own id.
  pub find-own_id :
      (cs : List RegistryCall) (id : String) (w : WorkflowDefinition)
      → find (calls cs create) id ≡ some w
      → w.workflow_id ≡ id
  unfolding find
  find-own_id cs id w h =
      Entries-get (λ k v. v.workflow_id ≡ k) id (calls cs create).workflows w
        (calls-IsIndexed cs create (create-IsIndexed to_lower_case)).owned h
