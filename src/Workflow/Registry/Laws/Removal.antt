-- ===== src/Workflow/Registry/Laws/Removal.antt =====
-- The values of a map of workflows under their ids, after an insertion and a deletion.
use nexus_ai_workspace.Common.{
  String, ◌≡◌, refl, sym, ap, ◌∙◌, subst, Bool, true, false, not, List, [], ◌∷◌, ◌++◌, none, some,
  ◌===◌, ===_eq, Bool-cases, inl, inr, All, All-map, select,
}
use nexus_ai_workspace.Common.Map.{Map, get, set, delete, values, Distinct, Entries}
use nexus_ai_workspace.Workflow.{WorkflowDefinition}

abbrev pub IsOwner : String → WorkflowDefinition → Type 0
IsOwner k w = w.workflow_id ≡ k

pub values-set_new :
    (k : String) (w : WorkflowDefinition) (m : Map WorkflowDefinition)
    → get k m ≡ none
    → values (set k w m) ≡ values m ++ w ∷ []
unfolding get set
values-set_new k w [] h = refl
values-set_new k w ((j, v) ∷ m) h = elim (Bool-cases (j === k)) [
  | inl p ↦ let h' = rw p at h in cc
  | inr p ↦ rw p (ap (◌∷◌ v) (values-set_new k w m (rw p at h)))
]

pub select-append :
    (p : WorkflowDefinition → Bool) (xs ys : List WorkflowDefinition)
    → select p (xs ++ ys) ≡ select p xs ++ select p ys
select-append p [] ys = refl
select-append p (x ∷ xs) ys = elim (Bool-cases (p x)) [
  | inl e ↦ rw e (ap (◌∷◌ x) (select-append p xs ys))
  | inr e ↦ rw e (select-append p xs ys)
]

pub select_comm :
    (p q : WorkflowDefinition → Bool) (xs : List WorkflowDefinition)
    → select p (select q xs) ≡ select q (select p xs)
select_comm p q [] = refl
select_comm p q (x ∷ xs) = elim (Bool-cases (p x)) [
  | inl d ↦ elim (Bool-cases (q x)) [
    | inl e ↦ rw (d, e, d) (ap (◌∷◌ x) (select_comm p q xs))
    | inr e ↦ rw (d, e) (select_comm p q xs)
  ]
  | inr d ↦ elim (Bool-cases (q x)) [
    | inl e ↦ rw (d, e, d) (select_comm p q xs)
    | inr e ↦ rw (d, e) (select_comm p q xs)
  ]
]

absent :
    (id : String) (m : Map WorkflowDefinition)
    → get id m ≡ none
    → Entries IsOwner m
    → All (λ v. (v.workflow_id === id) ≡ false) (values m)
unfolding get
absent id [] h o = tt
absent id ((j, v) ∷ m) h o = elim (Bool-cases (j === id)) [
  | inl p ↦ let h' = rw p at h in cc
  | inr p ↦ (ap (λ i. i === id) o.0 ∙ p, absent id m (rw p at h) o.1)
]

select_absent :
    (id : String) (xs : List WorkflowDefinition)
    → All (λ v. (v.workflow_id === id) ≡ false) xs
    → select (λ v. not (v.workflow_id === id)) xs ≡ xs
select_absent id [] h = refl
select_absent id (x ∷ xs) h = rw h.0 (ap (◌∷◌ x) (select_absent id xs h.1))

-- A deletion takes out the workflow with the id.
pub values-delete :
    (id : String) (m : Map WorkflowDefinition)
    → Distinct m
    → Entries IsOwner m
    → values (delete id m) ≡ select (λ v. not (v.workflow_id === id)) (values m)
unfolding delete
values-delete id [] d o = refl
values-delete id ((j, v) ∷ m) d o =
    let same : (v.workflow_id === id) ≡ (j === id) = ap (λ i. i === id) o.0 in
    elim (Bool-cases (j === id)) [
      | inl p ↦
          rw (same, p)
            (sym (
              select_absent id (values m)
                (absent id m (ap (λ i. get i m) (sym (===_eq j id p)) ∙ d.0) o.1)))
      | inr p ↦ rw (same, p) (ap (◌∷◌ v) (values-delete id m d.1 o.1))
    ]

-- What holds of the workflow with the id holds of every entry that has the id.
pub owner_of :
    (id : String) (w : WorkflowDefinition) (P : WorkflowDefinition → Type 0)
    → P w
    → (m : Map WorkflowDefinition) → Distinct m
    → Entries IsOwner m
    → get id m ≡ some w
    → All (λ v. (v.workflow_id === id) ≡ true → P v) (values m)
unfolding get
owner_of id w P h [] d o g = cc
owner_of id w P h ((j, v) ∷ m) d o g = elim (Bool-cases (j === id)) [
  | inl p ↦
      let same : v ≡ w = let g' = rw p at g in cc in
      (
        (λ e. subst P (sym same) h),
        All-map _ _ (values m) (λ x n e. cc (n, e))
            (absent id m (ap (λ i. get i m) (sym (===_eq j id p)) ∙ d.0) o.1),
      )
  | inr p ↦ (
    (λ e. let q : (j === id) ≡ true = ap (λ i. i === id) (sym o.0) ∙ e in cc),
    owner_of id w P h m d.1 o.1 (rw p at g),
  )
]

-- A selection that the workflow with the id does not pass does not miss it.
pub select-skip :
    (id : String) (p : WorkflowDefinition → Bool) (xs : List WorkflowDefinition)
    → All (λ v. (v.workflow_id === id) ≡ true → p v ≡ false) xs
    → select p (select (λ v. not (v.workflow_id === id)) xs) ≡ select p xs
select-skip id p [] h = refl
select-skip id p (x ∷ xs) h = elim (Bool-cases (x.workflow_id === id)) [
  | inl e ↦ rw (e, h.0 e) (select-skip id p xs h.1)
  | inr e ↦ elim (Bool-cases (p x)) [
    | inl f ↦ rw (e, f) (ap (◌∷◌ x) (select-skip id p xs h.1))
    | inr f ↦ rw (e, f) (select-skip id p xs h.1)
  ]
]
