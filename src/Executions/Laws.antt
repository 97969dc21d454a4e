-- ===== src/Executions/Laws.antt =====
-- The registry between two calls.
use nexus_ai_workspace.Common.{String, ◌≡◌, true, some, Bool-cases, inl, inr, arith}
use nexus_ai_workspace.Common.Map.{
  get, has, get-set, get-delete, Distinct, set-Distinct, delete-Distinct,
}
use nexus_ai_workspace.Executions.{
  ExecutionRegistry, ExecutionResult, register, update, remove, is_active_status,
}

-- Each id is filed once; an active id is the id of an execution; and each execution that is pending
-- or running is active.
pub record IsValid (s : ExecutionRegistry) : Type 0 where
  pub distinct : Distinct s.executions
  pub active_distinct : Distinct s.active_executions
  pub known : (k : String) → has k s.active_executions ≡ true → has k s.executions ≡ true
  pub tracked :
      (k : String) (e : ExecutionResult)
      → get k s.executions ≡ some e
      → is_active_status e.status ≡ true
      → has k s.active_executions ≡ true

pub register-IsValid :
    (s : ExecutionRegistry) (e : ExecutionResult) → IsValid s → IsValid (register s e)
unfolding register
register-IsValid s e v = elim (Bool-cases (is_active_status e.status)) [
  | inl a ↦ rw a (record {
    distinct = set-Distinct e.execution_id e s.executions v.distinct;
    active_distinct = set-Distinct e.execution_id tt s.active_executions v.active_distinct;
    known = λ k h. ground (
      arith,
      v.known k,
      get-set e.execution_id k e s.executions,
      get-set e.execution_id k tt s.active_executions,
    );
    tracked = λ k x h i. ground (
      arith,
      v.tracked k x,
      get-set e.execution_id k e s.executions,
      get-set e.execution_id k tt s.active_executions,
    );
  })
  | inr a ↦ rw a (record {
    distinct = set-Distinct e.execution_id e s.executions v.distinct;
    active_distinct = v.active_distinct;
    known = λ k h. ground (arith, v.known k h, get-set e.execution_id k e s.executions);
    tracked = λ k x h i. ground (arith, v.tracked k x, get-set e.execution_id k e s.executions, a);
  })
]

pub update-IsValid :
    (s : ExecutionRegistry) (id : String) (e : ExecutionResult)
    → IsValid s
    → IsValid (update s id e).0
unfolding update
update-IsValid s id e v = elim (Bool-cases (has id s.executions)) [
  | inr a ↦ rw a v
  | inl a ↦ elim (Bool-cases (is_active_status e.status)) [
    | inl b ↦
        rw (a, b)
          (record {
            distinct = set-Distinct id e s.executions v.distinct;
            active_distinct = set-Distinct id tt s.active_executions v.active_distinct;
            known = λ k h. ground (
              arith,
              v.known k,
              get-set id k e s.executions,
              get-set id k tt s.active_executions,
            );
            tracked = λ k x h i. ground (
              arith,
              v.tracked k x,
              get-set id k e s.executions,
              get-set id k tt s.active_executions,
            );
          })
    | inr b ↦
        let gone = λ (k : String). get-delete id k s.active_executions v.active_distinct in
        rw (a, b)
          (record {
            distinct = set-Distinct id e s.executions v.distinct;
            active_distinct = delete-Distinct id s.active_executions v.active_distinct;
            known = λ k h. ground (arith, v.known k, get-set id k e s.executions, gone k);
            tracked =
                λ k x h i. ground (arith, v.tracked k x, get-set id k e s.executions, gone k, b);
          })
  ]
]

pub remove-IsValid : (s : ExecutionRegistry) (id : String) → IsValid s → IsValid (remove s id)
unfolding remove
remove-IsValid s id v =
    let gone = λ (k : String). get-delete id k s.active_executions v.active_distinct in
    let removed = λ (k : String). get-delete id k s.executions v.distinct in
    record {
      distinct = delete-Distinct id s.executions v.distinct;
      active_distinct = delete-Distinct id s.active_executions v.active_distinct;
      known = λ k h. ground (arith, v.known k, gone k, removed k);
      tracked = λ k x h i. ground (arith, v.tracked k x, gone k, removed k);
    }
