-- ===== src/Registry/Laws.antt =====
-- The registry between two calls, and when `register` throws.
use nexus_ai_workspace.Common.{
  String, ◌≡◌, ◌≢◌, ◌↔◌, refl, List, [], ◌∷◌, Option, none, some, Bool-cases, Option-cases, inl,
  inr, arith, ◌===◌, ===_refl,
}
use nexus_ai_workspace.Common.Map.{
  get, has, get-set, Distinct, set-Distinct, delete-Distinct, Entries, Entries-set, Entries-delete,
}
use nexus_ai_workspace.Registry.{
  Agent, AgentRegistry, validate_agent, create, stored, register, remove, update,
}

-- A registered agent is filed under its id and has passed the validation.
abbrev IsAccepted : String → Agent → Type 0
IsAccepted id a = (a.metadata.id ≡ id) × (validate_agent a ≡ none)

pub record IsValid (s : AgentRegistry) : Type 0 where
  pub distinct : Distinct s.agents
  pub accepted : Entries IsAccepted s.agents

stored-IsValid :
    (s : AgentRegistry) (a : Agent) (failure : String) (problem : Option String)
    → validate_agent a ≡ problem
    → IsValid s
    → IsValid (stored s a failure problem).0
stored-IsValid s a failure none h v = record {
  distinct = set-Distinct a.metadata.id a s.agents v.distinct;
  accepted = Entries-set IsAccepted a.metadata.id a s.agents (refl, h) v.accepted;
}
stored-IsValid s a failure (some problem) h v = v

register-IsValid : (s : AgentRegistry) (a : Agent) → IsValid s → IsValid (register s a).0
unfolding register
register-IsValid s a v = elim (Bool-cases (a.metadata.id === "")) [
  | inl e ↦ rw e v
  | inr e ↦ elim (Bool-cases (has a.metadata.id s.agents)) [
    | inl f ↦ rw (e, f) v
    | inr f ↦ rw (e, f) (stored-IsValid s a "Failed to register agent: " (validate_agent a) refl v)
  ]
]

update-IsValid : (s : AgentRegistry) (a : Agent) → IsValid s → IsValid (update s a).0
unfolding update
update-IsValid s a v = elim (Bool-cases (has a.metadata.id s.agents)) [
  | inl e ↦ rw e (stored-IsValid s a "Failed to update agent: " (validate_agent a) refl v)
  | inr e ↦ rw e v
]

remove-IsValid :
    (shutdown : Agent → Option String) (s : AgentRegistry) (id : String)
    → IsValid s
    → IsValid (remove shutdown s id).0
unfolding remove
remove-IsValid shutdown s id v = elim (Option-cases (get id s.agents)) [
  | inl e ↦ rw (e, remove) v
  | inr (a, e) ↦
      rw (e, remove)
        (record {
          distinct = delete-Distinct id s.agents v.distinct;
          accepted = Entries-delete IsAccepted id s.agents v.accepted;
        })
]

-- The calls that may change the registry.
pub data Call : Type 0 where
  registers updates : Agent → Call
  removes : String → Call

module _ (shutdown : Agent → Option String) where
  unfoldable pub step : AgentRegistry → Call → AgentRegistry
  step s (registers a) = (register s a).0
  step s (updates a) = (update s a).0
  step s (removes id) = (remove shutdown s id).0

  unfoldable pub run : AgentRegistry → List Call → AgentRegistry
  run s [] = s
  run s (c ∷ cs) = run (step s c) cs

  step-IsValid : (s : AgentRegistry) (c : Call) → IsValid s → IsValid (step s c)
  unfolding step
  step-IsValid s (registers a) v = register-IsValid s a v
  step-IsValid s (updates a) v = update-IsValid s a v
  step-IsValid s (removes id) v = remove-IsValid shutdown s id v

  run-IsValid : (s : AgentRegistry) (cs : List Call) → IsValid s → IsValid (run s cs)
  unfolding run
  run-IsValid s [] v = v
  run-IsValid s (c ∷ cs) v = run-IsValid (step s c) cs (step-IsValid s c v)

  -- After any sequence of calls on a new registry, whatever the agents' shutdowns throw, no id is
  -- filed twice, and each agent is filed under its own id and passes the validation.
  pub registry_run-IsValid : (cs : List Call) → IsValid (run create cs)
  unfolding create
  registry_run-IsValid cs = run-IsValid create cs (record { distinct = tt; accepted = tt })

stored-none :
    (s : AgentRegistry) (a : Agent) (failure : String) (problem : Option String)
    → ((stored s a failure problem).1 ≡ none) ↔ (problem ≡ none)
stored-none s a failure none = (λ h. refl, λ h. refl)
stored-none s a failure (some problem) = (λ h. cc, λ h. cc)

stored-get :
    (s : AgentRegistry) (a : Agent) (failure : String) (problem : Option String)
    → problem ≡ none
    → get a.metadata.id (stored s a failure problem).0.agents ≡ some a
stored-get s a failure none h =
    ground (arith, get-set a.metadata.id a.metadata.id a s.agents, ===_refl a.metadata.id)
stored-get s a failure (some problem) h = cc

module _ (s : AgentRegistry) (a : Agent) where
  -- `register` returns without an exception exactly for an agent that has an id which is not
  -- registered yet and that passes the validation.
  pub register_iff :
      ((register s a).1 ≡ none)
      ↔ ((a.metadata.id ≢ "") × (get a.metadata.id s.agents ≡ none) × (validate_agent a ≡ none))
  unfolding register
  register_iff =
      let (there, back) = stored-none s a "Failed to register agent: " (validate_agent a) in
      (λ h. (ground arith, ground arith, there (ground arith)), λ h. ground (arith, back h.2))

  -- An agent that `register` accepts is found under its id afterwards.
  pub find-register : (register s a).1 ≡ none → get a.metadata.id (register s a).0.agents ≡ some a
  unfolding register
  find-register h =
      let (own, fresh, valid) = register_iff.0 h in
      let got = stored-get s a "Failed to register agent: " (validate_agent a) valid in
      ground (arith, got)
