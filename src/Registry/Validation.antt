-- ===== src/Registry/Validation.antt =====
-- Which agents `validateAgent` passes.
use nexus_ai_workspace.Common.{
  String, ◌≡◌, ◌≢◌, ◌↔◌, refl, true, false, List, [], ◌∷◌, none, All, arith, ◌===◌, ===_eq,
  String_discrete, Bool-cases, inl, inr, subst, some_of,
}
use nexus_ai_workspace.Registry.{
  Agent, AgentCapability, agent_types, validate_capabilities, validate_agent,
}

abbrev pub IsNamed : AgentCapability → Type 0
IsNamed c = (c.id ≢ "") × (c.name ≢ "")

validate_capabilities_iff :
    (cs : List AgentCapability) → (validate_capabilities cs ≡ none) ↔ All IsNamed cs
unfolding validate_capabilities
validate_capabilities_iff [] = (λ h. tt, λ h. refl)
validate_capabilities_iff (c ∷ cs) =
    let (there, back) = validate_capabilities_iff cs in
    (λ h. (ground arith, there (ground arith)), λ h. ground (arith, back h.1, h.0))

no_empty_type : some_of (λ t. t === "") agent_types ≡ false
unfolding agent_types String_discrete
no_empty_type = refl

type_not_empty :
    (type : String) → some_of (λ t. t === type) agent_types ≡ true → (type === "") ≡ false
type_not_empty type h = elim (Bool-cases (type === "")) [
  | inr e ↦ e
  | inl e ↦
      let h' = subst (λ x. some_of (λ t. t === x) agent_types ≡ true) (===_eq type "" e) h in
      cc no_empty_type
]

-- `validateAgent` throws nothing exactly for an agent with an id, a name and a version, whose type
-- is one of the seven, and whose capabilities have an id and a name each.
pub validate_agent_iff :
    (a : Agent)
    → (validate_agent a ≡ none) ↔ (
        (a.metadata.id ≢ "")
        × (a.metadata.name ≢ "")
        × (a.metadata.version ≢ "")
        × (some_of (λ t. t === a.type) agent_types ≡ true)
        × All IsNamed a.capabilities)
unfolding validate_agent
validate_agent_iff a =
    let (there, back) = validate_capabilities_iff a.capabilities in
    (
      λ h. (ground arith, ground arith, ground arith, ground arith, there (ground arith)),
      λ h. ground (arith, back h.4, h.0, h.1, h.2, h.3, type_not_empty a.type h.3),
    )
