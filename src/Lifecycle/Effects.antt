-- ===== src/Lifecycle/Effects.antt =====
-- What a call may change.
use nexus_ai_workspace.Common.{
  String, ◌≡◌, refl, ◌∙◌, Bool, true, false, Option, none, some, Bool-cases, inl, inr, arith, ◌===◌,
  ===_refl, ◌||◌,
}
use nexus_ai_workspace.Common.Map.{
  set, get-set, has, Distinct, set-Distinct, delete-Distinct, get-delete_self, get-delete_other,
}
use nexus_ai_workspace.Lifecycle.State.{
  AgentLifecycleState, Agents, registered, initializing, ready, running, paused, stopping, stopped,
  failed, is_valid_transition, is_paused, is_running, get_agent_state, set_state,
}
use nexus_ai_workspace.Lifecycle.Operations.{
  Manager, Result, and_then, finish_in, finish, with_initial_state, rethrown, guarded, initialize,
  start, stop, pause, resume, stop_if_running, restart, shut, forgotten, shutdown,
}

-- Not in the middle of a call.
abbrev pub at_rest : AgentLifecycleState → Bool
at_rest initializing = false
at_rest stopping = false
at_rest _ = true

module _ {World : Type 0} where
  -- A call on the agent `id` that starts in `m` and ends in `t`.
  pub record Acts (id : String) (m t : Manager World) : Type 0 where
    pub others : (k : String) → (id === k) ≡ false → get_agent_state t k ≡ get_agent_state m k
    pub rests :
        Distinct m.agent_states
        → at_rest (get_agent_state m id) ≡ true
        → at_rest (get_agent_state t id) ≡ true
    pub distinct : Distinct m.agent_states → Distinct t.agent_states

  Acts-refl : (id : String) (m : Manager World) → Acts id m m
  Acts-refl id m = record { others = λ k h. refl; rests = λ d h. h; distinct = λ h. h }

  Acts-trans : (id : String) (m t u : Manager World) → Acts id m t → Acts id t u → Acts id m u
  Acts-trans id m t u a b = record {
    others = λ k h. b.others k h ∙ a.others k h;
    rests = λ d h. b.rests (a.distinct d) (a.rests d h);
    distinct = λ h. b.distinct (a.distinct h);
  }

  -- A write of a state at rest.
  set_state-Acts :
      (id : String) (m : Manager World) (w : World) (s : AgentLifecycleState)
      → at_rest s ≡ true
      → Acts id m (set_state (record m { world = w }) id s)
  unfolding get_agent_state set_state
  set_state-Acts id m w s h = record {
    others = λ k e. ground (arith, get-set id k s m.agent_states);
    rests = λ _ _. ground (arith, get-set id id s m.agent_states, ===_refl id);
    distinct = set-Distinct id s m.agent_states;
  }

  -- A write of any state, and then one of a state at rest.
  set_state_twice-Acts :
      (id : String) (m : Manager World) (w : World) (r s : AgentLifecycleState)
      → at_rest s ≡ true
      → Acts id m (set_state (record (set_state m id r) { world = w }) id s)
  unfolding get_agent_state set_state
  set_state_twice-Acts id m w r s h = record {
    others = λ k e.
        ground (arith, get-set id k s (set id r m.agent_states), get-set id k r m.agent_states);
    rests = λ _ _. ground (arith, get-set id id s (set id r m.agent_states), ===_refl id);
    distinct =
        λ d. set-Distinct id s (set id r m.agent_states) (set-Distinct id r m.agent_states d);
  }

  finish_in-Acts :
      (id operation : String) (m : Manager World) (r s : AgentLifecycleState)
      (result : World × Option String)
      → at_rest s ≡ true
      → Acts id m (finish_in (set_state m id r) id operation s result).0
  finish_in-Acts id operation m r s (w, none) h = set_state_twice-Acts id m w r s h
  finish_in-Acts id operation m r s (w, some problem) h = set_state_twice-Acts id m w r failed refl

  finish-Acts :
      (id operation : String) (m : Manager World) (s : AgentLifecycleState)
      (result : World × Option String)
      → at_rest s ≡ true
      → Acts id m (finish (set_state m id s) id operation result).0
  unfolding set_state
  finish-Acts id operation m s (w, none) h = set_state-Acts id m w s h
  finish-Acts id operation m s (w, some problem) h = set_state_twice-Acts id m w s failed refl

  module _ (agents : Agents World) (id : String) where
    guarded-Acts :
        (b m : Manager World) (to : AgentLifecycleState) (next : Result World)
        → Acts id b m
        → Acts id b next.0
        → Acts id b (guarded m id to next).0
    guarded-Acts b m to next h k =
        elim (Bool-cases (is_valid_transition (get_agent_state m id) to)) [
          | inl e ↦ rw e k
          | inr e ↦ rw e h
        ]

    initial-Acts : (m : Manager World) → Acts id m (with_initial_state m id)
    initial-Acts m = elim (Bool-cases (has id m.agent_states)) [
      | inl e ↦ rw e (Acts-refl id m)
      | inr e ↦ rw e (set_state-Acts id m m.world registered refl)
    ]

    pub initialize-Acts : (m : Manager World) → Acts id m (initialize agents m id).0
    unfolding initialize
    initialize-Acts m = elim (Bool-cases (agents.find m.world id)) [
      | inr e ↦ rw e (Acts-refl id m)
      | inl e ↦
          let m' = with_initial_state m id in
          rw e (
            guarded-Acts m m' initializing _ (initial-Acts m) (
              Acts-trans id m m' _ (initial-Acts m)
                (finish_in-Acts id "initialize" m' initializing ready _ refl)))
    ]

    pub start-Acts : (m : Manager World) → Acts id m (start agents m id).0
    unfolding start
    start-Acts m = elim (Bool-cases (agents.find m.world id)) [
      | inr e ↦ rw e (Acts-refl id m)
      | inl e ↦
          rw e
            (guarded-Acts m m running _ (Acts-refl id m) (finish-Acts id "start" m running _ refl))
    ]

    pub stop-Acts : (m : Manager World) → Acts id m (stop agents m id).0
    unfolding stop
    stop-Acts m = elim (Bool-cases (agents.find m.world id)) [
      | inr e ↦ rw e (Acts-refl id m)
      | inl e ↦ rw e (
          guarded-Acts m m stopping _ (Acts-refl id m)
            (finish_in-Acts id "stop" m stopping stopped _ refl))
    ]

    pub pause-Acts : (m : Manager World) → Acts id m (pause agents m id).0
    unfolding pause
    pause-Acts m = elim (Bool-cases (agents.find m.world id)) [
      | inr e ↦ rw e (Acts-refl id m)
      | inl e ↦
          rw e (guarded-Acts m m paused _ (Acts-refl id m) (finish-Acts id "pause" m paused _ refl))
    ]

    pub resume-Acts : (m : Manager World) → Acts id m (resume agents m id).0
    unfolding resume
    resume-Acts m = elim (Bool-cases (is_paused (get_agent_state m id))) [
      | inr e ↦ rw e (Acts-refl id m)
      | inl e ↦ rw e (start-Acts m)
    ]

    pub stop_if_running-Acts : (m : Manager World) → Acts id m (stop_if_running agents m id).0
    stop_if_running-Acts m =
        let current = get_agent_state m id in
        elim (Bool-cases (is_running current || is_paused current)) [
          | inr e ↦ rw e (Acts-refl id m)
          | inl e ↦ rw e (stop-Acts m)
        ]

    pub and_then-Acts :
        (m : Manager World) (r : Result World) (next : Manager World → Result World)
        → Acts id m r.0
        → ((t : Manager World) → Acts id t (next t).0)
        → Acts id m (and_then r next).0
    and_then-Acts m (t, none) next h k = Acts-trans id m t _ h (k t)
    and_then-Acts m (t, some e) next h k = h

    rethrown-Acts :
        (m : Manager World) (operation : String) (r : Result World)
        → Acts id m r.0
        → Acts id m (rethrown id operation r).0
    rethrown-Acts m operation (t, none) h = h
    rethrown-Acts m operation (t, some e) h = h

    pub restart-Acts : (m : Manager World) → Acts id m (restart agents m id).0
    unfolding restart
    restart-Acts m = rethrown-Acts m "restart" _ (
        and_then-Acts m _ (λ t. start agents t id)
          (and_then-Acts m _ (λ t. initialize agents t id) (stop_if_running-Acts m) initialize-Acts)
          start-Acts)

    pub shut-Acts : (m : Manager World) (r : World × Option String) → Acts id m (shut m r).0
    unfolding get_agent_state
    shut-Acts m (w, none) = record { others = λ k h. refl; rests = λ d h. h; distinct = λ d. d }
    shut-Acts m (w, some problem) = record {
      others = λ k h. refl;
      rests = λ d h. h;
      distinct = λ d. d;
    }

    forgotten-Acts :
        (m : Manager World) (r : Result World) → Acts id m r.0 → Acts id m (forgotten id r).0
    unfolding get_agent_state
    forgotten-Acts m (t, none) h = Acts-trans id m t _ h (record {
      others = λ k e. ground (arith, get-delete_other id k t.agent_states);
      rests = λ d _. ground (arith, get-delete_self id t.agent_states d);
      distinct = delete-Distinct id t.agent_states;
    })
    forgotten-Acts m (t, some e) h = Acts-trans id m t _ h (set_state-Acts id t t.world failed refl)

    pub shutdown-Acts : (m : Manager World) → Acts id m (shutdown agents m id).0
    unfolding shutdown
    shutdown-Acts m = elim (Bool-cases (agents.find m.world id)) [
      | inr e ↦ rw e (Acts-refl id m)
      | inl e ↦ rw e (
          forgotten-Acts m _ (
            and_then-Acts m _ (λ t. shut t (agents.shutdown t.world id)) (stop_if_running-Acts m)
              (λ t. shut-Acts t (agents.shutdown t.world id))))
    ]
