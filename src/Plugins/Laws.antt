-- ===== src/Plugins/Laws.antt =====
-- The two indexes of PluginRegistry.
use nexus_ai_workspace.Common.{
  String, ◌≡◌, refl, sym, ap, ◌∙◌, true, List, [], ◌∷◌, Option, none, some, ◌===◌, ===_eq, ===_refl,
  Bool-cases, inl, inr,
}
use nexus_ai_workspace.Common.Map.{
  get, set, delete, Distinct, get-set, get-delete, set-Distinct, delete-Distinct,
}
use nexus_ai_workspace.Plugins.{
  PluginRegistry, PluginDescriptor, create, warn, store, discovered, change,
}

-- Each plugin stands under its id, and the index of names leads to exactly the plugins.
pub record IsIndexed (r : PluginRegistry) : Type 0 where
  pub distinct : Distinct r.plugins
  pub names : Distinct r.plugins_by_name
  pub owned : (k : String) (p : PluginDescriptor) → get k r.plugins ≡ some p → p.id ≡ k
  pub there :
      (n k : String)
      → get n r.plugins_by_name ≡ some k
      → (p : PluginDescriptor) × (get k r.plugins ≡ some p) × (p.name ≡ n)
  pub back :
      (k : String) (p : PluginDescriptor)
      → get k r.plugins ≡ some p
      → get p.name r.plugins_by_name ≡ some k

pub create-IsIndexed : IsIndexed create
unfolding create get
create-IsIndexed = record {
  distinct = tt;
  names = tt;
  owned = λ k p h. cc h;
  there = λ n k h. cc h;
  back = λ k p h. cc h;
}

pub warn-IsIndexed :
    (id : String) (cs : List String) (r : PluginRegistry) → IsIndexed r → IsIndexed (warn id cs r)
warn-IsIndexed id [] r i = i
warn-IsIndexed id (c ∷ cs) r i = record {
  distinct = i.distinct;
  names = i.names;
  owned = i.owned;
  there = i.there;
  back = i.back;
}

pub warn-plugins :
    (id : String) (cs : List String) (r : PluginRegistry) → (warn id cs r).plugins ≡ r.plugins
warn-plugins id [] r = refl
warn-plugins id (c ∷ cs) r = refl

pub warn-names :
    (id : String) (cs : List String) (r : PluginRegistry)
    → (warn id cs r).plugins_by_name ≡ r.plugins_by_name
warn-names id [] r = refl
warn-names id (c ∷ cs) r = refl

pub store-IsIndexed :
    (p : PluginDescriptor) (r : PluginRegistry)
    → get p.id r.plugins ≡ none
    → get p.name r.plugins_by_name ≡ none
    → IsIndexed r
    → IsIndexed (store p r)
store-IsIndexed p r new free i =
    let stored : PluginDescriptor = record p { status = discovered } in
    record {
      distinct = set-Distinct p.id stored r.plugins i.distinct;
      names = set-Distinct p.name p.id r.plugins_by_name i.names;
      owned = λ k q h. elim (Bool-cases (p.id === k)) [
        | inl e ↦
            let h' = rw (get-set p.id k stored r.plugins, e) at h in
            let same : stored ≡ q = cc in ap (λ x. x.id) (sym same) ∙ ===_eq p.id k e
        | inr e ↦ i.owned k q (rw (get-set p.id k stored r.plugins, e) at h)
      ];
      there = λ n k h. elim (Bool-cases (p.name === n)) [
        | inl e ↦
            let h' = rw (get-set p.name n p.id r.plugins_by_name, e) at h in
            let same : p.id ≡ k = cc in
            (
              stored,
              rw (get-set p.id k stored r.plugins, ap (λ x. x === k) same, ===_refl k) refl,
              ===_eq p.name n e,
            )
        | inr e ↦
            let (q, found, name) =
              i.there n k (rw (get-set p.name n p.id r.plugins_by_name, e) at h) in
            elim (Bool-cases (p.id === k)) [
              | inl f ↦
                  let none_there = ap (λ x. get x r.plugins) (sym (===_eq p.id k f)) ∙ new in cc
              | inr f ↦ (q, rw (get-set p.id k stored r.plugins, f) found, name)
            ]
      ];
      back = λ k q h. elim (Bool-cases (p.id === k)) [
        | inl e ↦
            let h' = rw (get-set p.id k stored r.plugins, e) at h in
            let same : stored ≡ q = cc in
            ap (λ x. get x.name (set p.name p.id r.plugins_by_name)) (sym same)
            ∙ rw (get-set p.name p.name p.id r.plugins_by_name, ===_refl p.name)
                (ap some (===_eq p.id k e))
        | inr e ↦
            let found = i.back k q (rw (get-set p.id k stored r.plugins, e) at h) in
            elim (Bool-cases (p.name === q.name)) [
              | inl f ↦
                  let none_there =
                    ap (λ x. get x r.plugins_by_name) (sym (===_eq p.name q.name f)) ∙ free in
                  cc
              | inr f ↦ rw (get-set p.name q.name p.id r.plugins_by_name, f) found
            ]
      ];
    }

pub remove-IsIndexed :
    (id : String) (p : PluginDescriptor) (r : PluginRegistry)
    → get id r.plugins ≡ some p
    → IsIndexed r
    → IsIndexed (record r {
      plugins_by_name = delete p.name r.plugins_by_name;
      plugins = delete id r.plugins;
    })
remove-IsIndexed id p r here i = record {
  distinct = delete-Distinct id r.plugins i.distinct;
  names = delete-Distinct p.name r.plugins_by_name i.names;
  owned = λ k q h. elim (Bool-cases (id === k)) [
    | inl e ↦ let h' = rw (get-delete id k r.plugins i.distinct, e) at h in cc
    | inr e ↦ i.owned k q (rw (get-delete id k r.plugins i.distinct, e) at h)
  ];
  there = λ n k h. elim (Bool-cases (p.name === n)) [
    | inl e ↦ let h' = rw (get-delete p.name n r.plugins_by_name i.names, e) at h in cc
    | inr e ↦
        let (q, found, name) =
          i.there n k (rw (get-delete p.name n r.plugins_by_name i.names, e) at h) in
        elim (Bool-cases (id === k)) [
          | inl f ↦
              let same : some p ≡ some q =
                sym here ∙ ap (λ x. get x r.plugins) (===_eq id k f) ∙ found in
              let named : p.name ≡ n = cc in
              let self : (p.name === n) ≡ true =
                ap (λ x. p.name === x) (sym named) ∙ ===_refl p.name in
              cc
          | inr f ↦ (q, rw (get-delete id k r.plugins i.distinct, f) found, name)
        ]
  ];
  back = λ k q h. elim (Bool-cases (id === k)) [
    | inl e ↦ let h' = rw (get-delete id k r.plugins i.distinct, e) at h in cc
    | inr e ↦
        let found = i.back k q (rw (get-delete id k r.plugins i.distinct, e) at h) in
        elim (Bool-cases (p.name === q.name)) [
          | inl f ↦
              let same : some id ≡ some k =
                sym (i.back id p here)
                ∙ ap (λ x. get x r.plugins_by_name) (===_eq p.name q.name f)
                ∙ found in
              let one : id ≡ k = cc in
              let self : (id === k) ≡ true = ap (λ x. id === x) (sym one) ∙ ===_refl id in cc
          | inr f ↦ rw (get-delete p.name q.name r.plugins_by_name i.names, f) found
        ]
  ];
}

-- A change that keeps a plugin's id and name keeps the indexes.
pub change-IsIndexed :
    (id : String) (f : PluginDescriptor → PluginDescriptor) (r : PluginRegistry)
    → ((p : PluginDescriptor) → (f p).id ≡ p.id)
    → ((p : PluginDescriptor) → (f p).name ≡ p.name)
    → (o : Option PluginDescriptor) → get id r.plugins ≡ o
    → IsIndexed r
    → IsIndexed (change id f o r).0
change-IsIndexed id f r ids names none here i = i
change-IsIndexed id f r ids names (some p) here i = record {
  distinct = set-Distinct id (f p) r.plugins i.distinct;
  names = i.names;
  owned = λ k q h. elim (Bool-cases (id === k)) [
    | inl e ↦
        let h' = rw (get-set id k (f p) r.plugins, e) at h in
        let same : f p ≡ q = cc in
        ap (λ x. x.id) (sym same) ∙ ids p ∙ i.owned id p here ∙ ===_eq id k e
    | inr e ↦ i.owned k q (rw (get-set id k (f p) r.plugins, e) at h)
  ];
  there = λ n k h.
      let (q, found, name) = i.there n k h in
      elim (Bool-cases (id === k)) [
        | inl e ↦
            let same : some p ≡ some q =
              sym here ∙ ap (λ x. get x r.plugins) (===_eq id k e) ∙ found in
            let one : p ≡ q = cc in
            (f p, rw (get-set id k (f p) r.plugins, e) refl, names p ∙ ap (λ x. x.name) one ∙ name)
        | inr e ↦ (q, rw (get-set id k (f p) r.plugins, e) found, name)
      ];
  back = λ k q h. elim (Bool-cases (id === k)) [
    | inl e ↦
        let h' = rw (get-set id k (f p) r.plugins, e) at h in
        let same : f p ≡ q = cc in
        ap (λ x. get x.name r.plugins_by_name) (sym same)
        ∙ ap (λ x. get x r.plugins_by_name) (names p)
        ∙ i.back id p here
        ∙ ap some (===_eq id k e)
    | inr e ↦ i.back k q (rw (get-set id k (f p) r.plugins, e) at h)
  ];
}
