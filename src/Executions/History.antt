-- ===== src/Executions/History.antt =====
-- Sequences of calls on one registry, and which executions are active.
use nexus_ai_workspace.Common.{
  ℕ, String, ◌≡◌, refl, true, false, List, [], ◌∷◌, none, some, arith, is_some, if◌then◌else◌,
  Bool-cases, inl, inr, ===_refl,
}
use nexus_ai_workspace.Common.Map.{get, has, get-set, get-delete_self}
use nexus_ai_workspace.Executions.{
  ExecutionRegistry, ExecutionResult, create, register, update, remove, cleanup, is_active,
  is_active_status,
}
use nexus_ai_workspace.Executions.Laws.{IsValid, register-IsValid, update-IsValid, remove-IsValid}
use nexus_ai_workspace.Executions.Cleanup.{cleanup-IsValid}

-- The calls that may change the registry.
pub data Call : Type 0 where
  registers : ExecutionResult → Call
  updates : String → ExecutionResult → Call
  removes : String → Call
  cleans_up : (max_age now : ℕ) → Call

unfoldable pub step : ExecutionRegistry → Call → ExecutionRegistry
step s (registers e) = register s e
step s (updates id e) = (update s id e).0
step s (removes id) = remove s id
step s (cleans_up max_age now) = (cleanup s max_age now).0

unfoldable pub run : ExecutionRegistry → List Call → ExecutionRegistry
run s [] = s
run s (c ∷ cs) = run (step s c) cs

step-IsValid : (s : ExecutionRegistry) (c : Call) → IsValid s → IsValid (step s c)
unfolding step
step-IsValid s (registers e) v = register-IsValid s e v
step-IsValid s (updates id e) v = update-IsValid s id e v
step-IsValid s (removes id) v = remove-IsValid s id v
step-IsValid s (cleans_up max_age now) v = cleanup-IsValid s max_age now v

run-IsValid : (s : ExecutionRegistry) (cs : List Call) → IsValid s → IsValid (run s cs)
unfolding run
run-IsValid s [] v = v
run-IsValid s (c ∷ cs) v = run-IsValid (step s c) cs (step-IsValid s c v)

-- After any sequence of calls on a new registry: no id is filed twice, each active id is the id of
-- an execution, and each execution that is pending or running is active.
pub executions_run-IsValid : (cs : List Call) → IsValid (run create cs)
unfolding create get
executions_run-IsValid cs = run-IsValid create cs (record {
  distinct = tt;
  active_distinct = tt;
  known = λ k h. ground arith;
  tracked = λ k e h i. ground arith;
})

-- In a valid registry an `update` of a known execution makes it active exactly if its new status is
-- pending or running; one of an unknown execution throws and changes nothing.
pub update-is_active :
    (s : ExecutionRegistry) (id : String) (e : ExecutionResult)
    → IsValid s
    → let (t, problem) = update s id e in
      if has id s.executions
      then ((is_active t id ≡ is_active_status e.status)
          × (get id t.executions ≡ some e)
          × (problem ≡ none))
      else ((t ≡ s) × (is_some problem ≡ true))
unfolding update is_active
update-is_active s id e v = elim (Bool-cases (has id s.executions)) [
  | inr a ↦ rw a (refl, refl)
  | inl a ↦ elim (Bool-cases (is_active_status e.status)) [
    | inl b ↦
        rw (a, b)
          (
            ground (arith, get-set id id tt s.active_executions, ===_refl id),
            ground (arith, get-set id id e s.executions, ===_refl id),
            refl,
          )
    | inr b ↦
        rw (a, b)
          (
            ground (arith, get-delete_self id s.active_executions v.active_distinct),
            ground (arith, get-set id id e s.executions, ===_refl id),
            refl,
          )
  ]
]

-- `register` of a result that is neither pending nor running under an id that is active files the
-- result and leaves the id active.
pub register_finished :
    (s : ExecutionRegistry) (e : ExecutionResult)
    → is_active_status e.status ≡ false
    → is_active s e.execution_id ≡ true
    → (get e.execution_id (register s e).executions ≡ some e)
      × (is_active (register s e) e.execution_id ≡ true)
unfolding register is_active
register_finished s e done active = rw done (
  ground (arith, get-set e.execution_id e.execution_id e s.executions, ===_refl e.execution_id),
  active,
)
