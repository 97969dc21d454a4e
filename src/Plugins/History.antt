-- ===== src/Plugins/History.antt =====
-- What every sequence of calls of PluginRegistry keeps.
use nexus_ai_workspace.Common.{
  ℕ, String, ◌≡◌, refl, sym, ap, ◌∙◌, Bool, true, false, List, [], ◌∷◌, Option, none, some, ◌===◌,
  Bool-cases, Option-cases, inl, inr, ◌↔◌, ltb, length, select,
}
use nexus_ai_workspace.Common.Map.{get, values}
use nexus_ai_workspace.Plugins.{
  PluginRegistry, PluginDescriptor, PluginStatus, PluginValidator, create, register, unregister,
  clear, update_status, increment_usage, with_status, registered, unregistered, is_active, warn,
  used, find, find_by_name, named,
}
use nexus_ai_workspace.Plugins.Laws.{
  IsIndexed, create-IsIndexed, store-IsIndexed, warn-IsIndexed, warn-plugins, warn-names,
  remove-IsIndexed, change-IsIndexed,
}

registered-IsIndexed :
    (p : PluginDescriptor) (v : Bool × List String) (duplicates : List String) (r : PluginRegistry)
    → get p.id r.plugins ≡ none
    → get p.name r.plugins_by_name ≡ none
    → IsIndexed r
    → IsIndexed (registered p v duplicates r).0
registered-IsIndexed p (false, errors) duplicates r new free i = i
registered-IsIndexed p (true, errors) duplicates r new free i =
    store-IsIndexed p (warn p.id duplicates r)
      (ap (λ x. get p.id x) (warn-plugins p.id duplicates r) ∙ new)
      (ap (λ x. get p.name x) (warn-names p.id duplicates r) ∙ free)
      (warn-IsIndexed p.id duplicates r i)

register-IsIndexed :
    (validator : PluginValidator) (p : PluginDescriptor) (r : PluginRegistry)
    → IsIndexed r
    → IsIndexed (register validator p r).0
unfolding register
register-IsIndexed validator p r i = elim (Option-cases (get p.id r.plugins)) [
  | inl new ↦ rw (new) (elim (Option-cases (get p.name r.plugins_by_name)) [
    | inl free ↦
        let duplicates = validator.duplicate_capabilities p (values r.plugins) in
        rw (free) (registered-IsIndexed p (validator.validate p) duplicates r new free i)
    | inr (k, taken) ↦ rw (taken) i
  ])
  | inr (q, present) ↦ rw (present) i
]

unregistered-IsIndexed :
    (id : String) (o : Option PluginDescriptor) (r : PluginRegistry)
    → get id r.plugins ≡ o
    → IsIndexed r
    → IsIndexed (unregistered id o r).0.0
unregistered-IsIndexed id none r here i = i
unregistered-IsIndexed id (some p) r here i = elim (Bool-cases (is_active p.status)) [
  | inl e ↦ rw (e) i
  | inr e ↦ rw (e) (remove-IsIndexed id p r here i)
]

unregister-IsIndexed :
    (id : String) (r : PluginRegistry) → IsIndexed r → IsIndexed (unregister id r).0.0
unfolding unregister
unregister-IsIndexed id r i = unregistered-IsIndexed id (get id r.plugins) r refl i

clear-IsIndexed : (r : PluginRegistry) → IsIndexed r → IsIndexed (clear r).0
unfolding clear
clear-IsIndexed r i =
    elim (Bool-cases (ltb 0 (length (select (λ p. is_active p.status) (values r.plugins))))) [
      | inl e ↦ rw (e) i
      | inr e ↦ rw (e) create-IsIndexed
    ]

-- The calls that change a registry.
pub data Call : Type 0 where
  to_register : PluginDescriptor → Call
  to_unregister : String → Call
  to_update_status : String → PluginStatus → ℕ → Call
  to_increment_usage : String → ℕ → Call
  to_clear : Call

abbrev pub step : PluginValidator → Call → PluginRegistry → PluginRegistry
step validator (to_register p) r = (register validator p r).0
step validator (to_unregister id) r = (unregister id r).0.0
step validator (to_update_status id s now) r = (update_status id s now r).0
step validator (to_increment_usage id now) r = (increment_usage id now r).0
step validator to_clear r = (clear r).0

abbrev pub run : PluginValidator → List Call → PluginRegistry → PluginRegistry
run validator [] r = r
run validator (c ∷ cs) r = run validator cs (step validator c r)

step-IsIndexed :
    (validator : PluginValidator) (c : Call) (r : PluginRegistry)
    → IsIndexed r
    → IsIndexed (step validator c r)
unfolding update_status increment_usage with_status used
step-IsIndexed validator (to_register p) r i = register-IsIndexed validator p r i
step-IsIndexed validator (to_unregister id) r i = unregister-IsIndexed id r i
step-IsIndexed validator (to_update_status id s now) r i =
    change-IsIndexed id (with_status s now) r (λ p. refl) (λ p. refl) (get id r.plugins) refl i
step-IsIndexed validator (to_increment_usage id now) r i =
    change-IsIndexed id (used now) r (λ p. refl) (λ p. refl) (get id r.plugins) refl i
step-IsIndexed validator to_clear r i = clear-IsIndexed r i

run-IsIndexed :
    (validator : PluginValidator) (cs : List Call) (r : PluginRegistry)
    → IsIndexed r
    → IsIndexed (run validator cs r)
run-IsIndexed validator [] r i = i
run-IsIndexed validator (c ∷ cs) r i =
    run-IsIndexed validator cs (step validator c r) (step-IsIndexed validator c r i)

found_named :
    (name : String) (p : PluginDescriptor) (r : PluginRegistry)
    → IsIndexed r
    → (o : Option String) → get name r.plugins_by_name ≡ o
    → named r o ≡ some p
    → (get p.id r.plugins ≡ some p) × (p.name ≡ name) × ((p.id === "") ≡ false)
found_named name p r i none e h = cc h
found_named name p r i (some k) e h = elim (Bool-cases (k === "")) [
  | inl f ↦ let h' = rw (f) at h in cc
  | inr f ↦
      let found = rw (f) at h in
      let (q, there, q_name) = i.there name k e in
      let same : q ≡ p = cc in
      let own : p.id ≡ k = i.owned k p found in
      (
        ap (λ x. get x r.plugins) own ∙ found,
        ap (λ x. x.name) (sym same) ∙ q_name,
        ap (λ x. x === "") own ∙ f,
      )
]

-- After any sequence of calls on a new registry, whatever the validator answers, findByName finds a
-- plugin under a name exactly if the plugin has that name and an id that is not empty, and find
-- finds it under its id.
pub find_by_name_iff :
    (validator : PluginValidator) (calls : List Call) (name : String) (p : PluginDescriptor)
    → (find_by_name name (run validator calls create) ≡ some p) ↔ (
        (find p.id (run validator calls create) ≡ some p)
        × (p.name ≡ name)
        × ((p.id === "") ≡ false))
unfolding find_by_name find
find_by_name_iff validator calls name p =
    let r = run validator calls create in
    let i = run-IsIndexed validator calls create create-IsIndexed in
    (
      λ h. found_named name p r i (get name r.plugins_by_name) refl h,
      λ (found, same, filled).
          let key = ap (λ x. get x r.plugins_by_name) (sym same) ∙ i.back p.id p found in
          rw (key, filled) found,
    )
