-- ===== src/Memory/Shared/Locks.antt =====
-- What `lock` and `unlock` of SharedMemory exclude and leave.
use nexus_ai_workspace.Common.{
  ℕ, String, ◌≡◌, refl, true, false, Option, none, some, ◌===◌, Bool-cases, inl, inr,
}
use nexus_ai_workspace.Common.Map.{get}
use nexus_ai_workspace.Memory.{MemoryContext}
use nexus_ai_workspace.Memory.Shared.{
  SharedMemory, SharedMemoryEntry, LockInfo, locked_by_other, key_of, is_live, entry_of,
  version_or_zero, version_fits, without_lock, finish_write, write, finish_lock, lock, unlock,
}

module _ {A : Type 0} where
  -- While another agent holds a lock of the key younger than 30 seconds, `lock`, `write` and
  -- `unlock` of the key are refused, and the locks stay as they are.
  pub lock_excludes :
      (key id : String) (v : A) (expected : ℕ) (c : MemoryContext) (now : ℕ) (l : LockInfo)
      (m : SharedMemory A)
      → get (key_of key c) m.locks ≡ some l
      → is_live now l ≡ true
      → (l.agent_id === c.agent_id) ≡ false
      → ((lock key id c now m).0
          ≡ locked_by_other l.agent_id (version_or_zero (entry_of (key_of key c) m)))
        × ((write key v expected c now m).0 ≡ false)
        × (unlock key id c now m ≡ (false, m))
        × ((lock key id c now m).1.locks ≡ m.locks)
        × ((write key v expected c now m).1.locks ≡ m.locks)
  unfolding lock finish_lock write finish_write unlock
  lock_excludes key id v expected c now l m g live other =
      let k = key_of key c in
      elim (Bool-cases (version_fits expected (entry_of k m))) [
        | inl p ↦ elim (Bool-cases (l.lock_id === id)) [
          | inl q ↦ rw (g, live, other, p, q) (refl, refl, refl, refl, refl)
          | inr q ↦ rw (g, live, other, p, q) (refl, refl, refl, refl, refl)
        ]
        | inr p ↦ elim (Bool-cases (l.lock_id === id)) [
          | inl q ↦ rw (g, live, other, p, q) (refl, refl, refl, refl, refl)
          | inr q ↦ rw (g, live, other, p, q) (refl, refl, refl, refl, refl)
        ]
      ]

  abbrev pub unmarked : Option (SharedMemoryEntry A) → Option (SharedMemoryEntry A)
  unmarked none = none
  unmarked (some e) = some (without_lock e)
