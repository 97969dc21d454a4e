-- ===== src/Lifecycle/History.antt =====
-- Sequences of calls on one manager.
use nexus_ai_workspace.Common.{
  String, ◌≡◌, refl, ◌∙◌, true, false, List, [], ◌∷◌, Bool-cases, inl, inr, ◌===◌, ===_eq, subst,
  ap,
}
use nexus_ai_workspace.Common.Map.{get, Distinct}
use nexus_ai_workspace.Lifecycle.State.{Agents, create, get_agent_state}
use nexus_ai_workspace.Lifecycle.Operations.{
  Manager, initialize, start, stop, pause, resume, restart, shutdown,
}
use nexus_ai_workspace.Lifecycle.Effects.{
  Acts, at_rest, initialize-Acts, start-Acts, stop-Acts, pause-Acts, resume-Acts, restart-Acts,
  shutdown-Acts,
}

pub data Method : Type 0 where
  initializes starts stops pauses resumes restarts shuts_down : Method

module _ {World : Type 0} (agents : Agents World) where
  -- One method called on one agent.
  unfoldable pub step : Manager World → Method → String → Manager World
  step m initializes id = (initialize agents m id).0
  step m starts id = (start agents m id).0
  step m stops id = (stop agents m id).0
  step m pauses id = (pause agents m id).0
  step m resumes id = (resume agents m id).0
  step m restarts id = (restart agents m id).0
  step m shuts_down id = (shutdown agents m id).0

  unfoldable pub run : Manager World → List (Method × String) → Manager World
  run m [] = m
  run m ((c, id) ∷ cs) = run (step m c id) cs

  step-Acts : (m : Manager World) (c : Method) (id : String) → Acts id m (step m c id)
  unfolding step
  step-Acts m initializes id = initialize-Acts agents id m
  step-Acts m starts id = start-Acts agents id m
  step-Acts m stops id = stop-Acts agents id m
  step-Acts m pauses id = pause-Acts agents id m
  step-Acts m resumes id = resume-Acts agents id m
  step-Acts m restarts id = restart-Acts agents id m
  step-Acts m shuts_down id = shutdown-Acts agents id m

  -- A call on one agent, whether it throws or not, leaves the lifecycle state of every other agent
  -- as it was.
  pub step-others :
      (m : Manager World) (c : Method) (id k : String)
      → (id === k) ≡ false
      → get_agent_state (step m c id) k ≡ get_agent_state m k
  step-others m c id k = (step-Acts m c id).others k

  record IsSettled (m : Manager World) : Type 0 where
    distinct : Distinct m.agent_states
    rests : (k : String) → at_rest (get_agent_state m k) ≡ true

  step-IsSettled :
      (m : Manager World) (c : Method) (id : String) → IsSettled m → IsSettled (step m c id)
  step-IsSettled m c id v =
      let a = step-Acts m c id in
      record {
        distinct = a.distinct v.distinct;
        rests = λ k. elim (Bool-cases (id === k)) [
          | inl e ↦
              subst (λ j. at_rest (get_agent_state (step m c id) j) ≡ true) (===_eq id k e)
                (a.rests v.distinct (v.rests id))
          | inr e ↦ ap at_rest (a.others k e) ∙ v.rests k
        ];
      }

  run-IsSettled :
      (m : Manager World) (cs : List (Method × String)) → IsSettled m → IsSettled (run m cs)
  unfolding run
  run-IsSettled m [] v = v
  run-IsSettled m ((c, id) ∷ cs) v = run-IsSettled (step m c id) cs (step-IsSettled m c id v)

  create-IsSettled : (world : World) → IsSettled (create world)
  unfolding create get_agent_state get
  create-IsSettled world = record { distinct = tt; rests = λ k. refl }

  -- After any sequence of calls on a new manager, whatever the agents' methods do and whether they
  -- throw, no agent is left in the state INITIALIZING or STOPPING.
  pub lifecycle_run-at_rest :
      (world : World) (cs : List (Method × String)) (id : String)
      → at_rest (get_agent_state (run (create world) cs) id) ≡ true
  lifecycle_run-at_rest world cs = (run-IsSettled (create world) cs (create-IsSettled world)).rests
