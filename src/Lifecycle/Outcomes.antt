-- ===== src/Lifecycle/Outcomes.antt =====
-- When the methods of the manager throw.
use nexus_ai_workspace.Common.{
  String, ◌≡◌, ◌↔◌, ◌⊎◌, refl, true, Option, none, some, Bool-cases, inl, inr, if◌then◌else◌,
}
use nexus_ai_workspace.Common.Map.{get, Distinct, get-delete_self}
use nexus_ai_workspace.Lifecycle.State.{
  AgentLifecycleState, Agents, registered, initializing, ready, running, paused, stopping, stopped,
  failed, is_valid_transition, is_paused, agent_lifecycle, invalid_state_transition,
  get_agent_state, set_state,
}
use nexus_ai_workspace.Lifecycle.Operations.{
  Manager, Result, and_then, finish, initialize, start, stop_if_running, restart, shut, forgotten,
  shutdown,
}
use nexus_ai_workspace.Lifecycle.Effects.{Acts, and_then-Acts, stop_if_running-Acts, shut-Acts}

module _ {World : Type 0} (agents : Agents World) (m : Manager World) (id : String) where
  abbrev status : String
  status = if is_paused (get_agent_state m id) then agents.status m.world id else "running"

  can_run :
      (s : AgentLifecycleState) → is_valid_transition s running ≡ true → (s ≡ ready) ⊎ (s ≡ paused)
  unfolding is_valid_transition
  can_run ready h = inl refl
  can_run paused h = inr refl
  can_run registered h = cc
  can_run initializing h = cc
  can_run running h = cc
  can_run stopping h = cc
  can_run stopped h = cc
  can_run failed h = cc

  can_run_back :
      (s : AgentLifecycleState) → (s ≡ ready) ⊎ (s ≡ paused) → is_valid_transition s running ≡ true
  unfolding is_valid_transition
  can_run_back s (inl e) = rw e refl
  can_run_back s (inr e) = rw e refl

  finish-none :
      (t : Manager World) (operation : String) (r : World × Option String)
      → ((finish t id operation r).1 ≡ none) ↔ (r.1 ≡ none)
  finish-none t operation (w, none) = (λ h. refl, λ h. refl)
  finish-none t operation (w, some x) = (λ h. cc, λ h. cc)

  -- `start` returns without an exception exactly for an agent that exists, that is ready or paused,
  -- and whose update of its status does not throw: to its own status if it is paused, and to
  -- "running" else.
  pub start_iff : ((start agents m id).1 ≡ none) ↔ (
      (agents.find m.world id ≡ true)
      × ((get_agent_state m id ≡ ready) ⊎ (get_agent_state m id ≡ paused))
      × ((agents.update_status m.world id status).1 ≡ none))
  unfolding start set_state
  start_iff = elim (Bool-cases (agents.find m.world id)) [
    | inr e ↦ (λ h. let h' = rw e at h in cc, λ h. cc (h.0))
    | inl e ↦ elim (Bool-cases (is_valid_transition (get_agent_state m id) running)) [
      | inr f ↦
          (λ h. let h' = rw (e, f) at h in cc, λ h. cc (can_run_back (get_agent_state m id) h.1))
      | inl f ↦
          let ends =
            finish-none (set_state m id running) "start" (agents.update_status m.world id status) in
          (
            λ h. (e, can_run (get_agent_state m id) f, ends.0 (rw (e, f) at h)),
            λ h. rw (e, f) (ends.1 h.2),
          )
    ]
  ]

  module _ (found : agents.find m.world id ≡ true)
      (is_ready : get id m.agent_states ≡ some ready) where
    initialize-ready :
        initialize agents m id ≡ (m, some (invalid_state_transition id ready initializing))
    unfolding initialize get_agent_state is_valid_transition
    initialize-ready = rw (found, is_ready, is_ready) refl

    stop_if_running-ready : stop_if_running agents m id ≡ (m, none)
    unfolding get_agent_state
    stop_if_running-ready = rw is_ready refl

    -- `restart` of an agent that exists and is ready changes nothing and throws: it does not stop
    -- the agent, and a ready agent cannot be initialised again.
    pub restart_ready :
        restart agents m id
        ≡ (m, some (agent_lifecycle id "restart" (invalid_state_transition id ready initializing)))
    unfolding restart
    restart_ready = rw (stop_if_running-ready, initialize-ready) refl

  forgets :
      (r : Result World)
      → Distinct r.0.agent_states
      → (forgotten id r).1 ≡ none
      → get id (forgotten id r).0.agent_states ≡ none
  forgets (t, none) d h = get-delete_self id t.agent_states d
  forgets (t, some e) d h = cc

  closed-Acts :
      Acts id m
        (and_then (stop_if_running agents m id) (λ t. shut t (agents.shutdown t.world id))).0
  closed-Acts =
      and_then-Acts agents id m _ (λ t. shut t (agents.shutdown t.world id))
        (stop_if_running-Acts agents id m) (λ t. shut-Acts agents id t (agents.shutdown t.world id))

  -- A `shutdown` that returns without an exception was of an agent that exists, and leaves no state
  -- for it, so that it counts as registered again.
  pub shutdown_forgets :
      Distinct m.agent_states
      → (shutdown agents m id).1 ≡ none
      → (agents.find m.world id ≡ true)
        × (get id (shutdown agents m id).0.agent_states ≡ none)
        × (get_agent_state (shutdown agents m id).0 id ≡ registered)
  unfolding shutdown get_agent_state
  shutdown_forgets d h = elim (Bool-cases (agents.find m.world id)) [
    | inr e ↦ let h' = rw e at h in cc
    | inl e ↦
        let gone = forgets _ (closed-Acts.distinct d) (rw e at h) in
        (e, rw e gone, rw (e, gone) refl)
  ]
