-- ===== src/Executions/Cleanup.antt =====
-- What `cleanup` removes.
use nexus_ai_workspace.Common.{
  ◌&&◌, ltb, not, ℕ, String, ◌≡◌, refl, sym, ap, ◌∙◌, true, false, [], ◌∷◌, Option, none, some,
  Bool-cases, inl, inr, arith, ◌+◌, ◌===◌, ===_eq, length, if◌then◌else◌,
}
use nexus_ai_workspace.Common.Map.{has, Map, get, Distinct}
use nexus_ai_workspace.Executions.{
  ExecutionRegistry, ExecutionResult, cleanup, cleanup_loop, is_expired,
}
use nexus_ai_workspace.Executions.Laws.{IsValid}

-- An entry after the cleaning.
abbrev pub retained :
    Map (Unit {0}) → (max_age now : ℕ) → String → Option ExecutionResult → Option ExecutionResult
retained active max_age now id none = none
retained active max_age now id (some e) =
    if not (has id active) && ltb (e.finished_at + max_age) now then none else some e

module _ (active : Map (Unit {0})) (max_age now : ℕ) where
  get-cleanup_loop :
      (entries : Map ExecutionResult) (k : String)
      → Distinct entries
      → get k (cleanup_loop active max_age now entries).0
        ≡ retained active max_age now k (get k entries)
  unfolding cleanup_loop get
  get-cleanup_loop [] k d = refl
  get-cleanup_loop ((j, e) ∷ rest) k d =
      let ih = get-cleanup_loop rest k d.1 in
      elim (Bool-cases (is_expired active max_age now j e)) [
        | inl x ↦ elim (Bool-cases (j === k)) [
          | inl s ↦
              let same = ===_eq j k s in
              let gone : get k rest ≡ none = ap (λ i. get i rest) (sym same) ∙ d.0 in
              let x' : is_expired active max_age now k e ≡ true =
                ap (λ i. is_expired active max_age now i e) (sym same) ∙ x in
              rw (x, s, x') (ih ∙ ap (retained active max_age now k) gone)
          | inr n ↦ rw (x, n) ih
        ]
        | inr x ↦ elim (Bool-cases (j === k)) [
          | inl s ↦
              let x' : is_expired active max_age now k e ≡ false =
                ap (λ i. is_expired active max_age now i e) (sym (===_eq j k s)) ∙ x in
              rw (x, s, x') refl
          | inr n ↦ rw (x, n) ih
        ]
      ]

  cleanup_loop-Distinct :
      (entries : Map ExecutionResult)
      → Distinct entries
      → Distinct (cleanup_loop active max_age now entries).0
  unfolding cleanup_loop
  cleanup_loop-Distinct [] d = tt
  cleanup_loop-Distinct ((j, e) ∷ rest) d =
      let ih = cleanup_loop-Distinct rest d.1 in
      elim (Bool-cases (is_expired active max_age now j e)) [
        | inl x ↦ rw x ih
        | inr x ↦ rw x (get-cleanup_loop rest j d.1 ∙ ap (retained active max_age now j) d.0, ih)
      ]

  cleanup_loop-length :
      (entries : Map ExecutionResult)
      → let (kept, n) = cleanup_loop active max_age now entries in length kept + n ≡ length entries
  unfolding cleanup_loop
  cleanup_loop-length [] = refl
  cleanup_loop-length ((j, e) ∷ rest) = ground (arith, cleanup_loop-length rest)

module _ (s : ExecutionRegistry) (max_age now : ℕ) where
  -- In a valid registry `cleanup` removes exactly the executions that are not active and that
  -- finished earlier than `maxAge` before now, keeps the others as they are, changes nothing in the
  -- set of active ones, and returns the number of those that it removed.
  pub get-cleanup :
      (k : String)
      → IsValid s
      → let (t, n) = cleanup s max_age now in
        (get k t.executions ≡ retained s.active_executions max_age now k (get k s.executions))
        × (t.active_executions ≡ s.active_executions)
        × (length t.executions + n ≡ length s.executions)
  unfolding cleanup
  get-cleanup k v = (
    get-cleanup_loop s.active_executions max_age now s.executions k v.distinct,
    refl,
    cleanup_loop-length s.active_executions max_age now s.executions,
  )

  pub cleanup-IsValid : IsValid s → IsValid (cleanup s max_age now).0
  unfolding cleanup
  cleanup-IsValid v =
      let kept = λ (k : String).
        get-cleanup_loop s.active_executions max_age now s.executions k v.distinct in
      record {
        distinct = cleanup_loop-Distinct s.active_executions max_age now s.executions v.distinct;
        active_distinct = v.active_distinct;
        known = λ k h. ground (arith, kept k, v.known k h);
        tracked = λ k x h i. ground (arith, kept k, v.tracked k x);
      }
