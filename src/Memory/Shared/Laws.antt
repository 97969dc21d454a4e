-- ===== src/Memory/Shared/Laws.antt =====
-- The versions of SharedMemory, and its values under locks.
use nexus_ai_workspace.Common.{
  ℕ, String, ◌≡◌, refl, Bool, true, false, not, Option, none, some, ◌+◌, ◌===◌, ===_refl, ◌&&◌,
  Bool-cases, inl, inr, ◌↔◌,
}
use nexus_ai_workspace.Common.Map.{get, delete, get-set}
use nexus_ai_workspace.Memory.{MemoryContext, save}
use nexus_ai_workspace.Memory.Shared.{
  SharedMemory, SharedMemoryEntry, LockInfo, key_of, is_live, entry_of, loaded, version_or_zero,
  version_fits, new_entry, store, write_past_lock, finish_write, write,
}

-- Another agent holds a live lock of the key.
abbrev pub is_held_by_other : ℕ → MemoryContext → Option LockInfo → Bool
is_held_by_other now c none = false
is_held_by_other now c (some l) = not (l.agent_id === c.agent_id) && is_live now l

module _ {A : Type 0} where
  -- The entry at the key has this value and this version.
  abbrev pub HasVersion : String → A → ℕ → SharedMemory A → Type 0
  HasVersion k v n m =
      (e : SharedMemoryEntry A) × (entry_of k m ≡ some e) × (e.value ≡ v) × (e.version ≡ n)

  store-HasVersion :
      (k : String) (v : A) (c : MemoryContext) (now : ℕ) (current : Option (SharedMemoryEntry A))
      (m : SharedMemory A)
      → HasVersion k v (version_or_zero current + 1) (store k v c now current m).1
  unfolding save
  store-HasVersion k v c now current m = (
    new_entry v c now current,
    rw (get-set k k (new_entry v c now current) m.base.storage, ===_refl k) refl,
    refl,
    refl,
  )

  -- What a call of `write` does after `current` has been loaded.
  pub record WriteOutcome (k : String) (v : A) (expected now : ℕ) (c : MemoryContext)
      (current : Option (SharedMemoryEntry A)) (m : SharedMemory A) (r : Bool × SharedMemory A)
      : Type 0 where
    pub succeeds : (r.0 ≡ true) ↔ (
        (version_fits expected current ≡ true) × (is_held_by_other now c (get k m.locks) ≡ false))
    pub written : r.0 ≡ true → HasVersion k v (version_or_zero current + 1) r.1
    pub refused : r.0 ≡ false → r.1 ≡ m

  write_past_lock-outcome :
      (k : String) (v : A) (c : MemoryContext) (now : ℕ) (current : Option (SharedMemoryEntry A))
      (o : Option LockInfo) (m : SharedMemory A)
      → (((write_past_lock k v c now current o m).0 ≡ true) ↔ (is_held_by_other now c o ≡ false))
        × ((write_past_lock k v c now current o m).0 ≡ true
            → HasVersion k v
                (version_or_zero current + 1)
                (write_past_lock k v c now current o m).1)
        × ((write_past_lock k v c now current o m).0 ≡ false
            → (write_past_lock k v c now current o m).1 ≡ m)
  write_past_lock-outcome k v c now current none m =
      (((λ h. refl), λ h. refl), (λ h. store-HasVersion k v c now current m), λ h. cc h)
  write_past_lock-outcome k v c now current (some l) m =
      elim (Bool-cases (l.agent_id === c.agent_id)) [
        | inl p ↦
            rw p (((λ h. refl), λ h. refl), (λ h. store-HasVersion k v c now current m), λ h. cc h)
        | inr p ↦ elim (Bool-cases (is_live now l)) [
          | inl q ↦ rw (p, q) (((λ h. cc h), λ h. cc h), (λ h. cc h), λ h. refl)
          | inr q ↦
              rw (p, q)
                (
                  ((λ h. refl), λ h. refl),
                  (λ h. store-HasVersion k v c now current (record m { locks = delete k m.locks })),
                  λ h. cc h,
                )
        ]
      ]

  finish_write-outcome :
      (key : String) (v : A) (expected : ℕ) (c : MemoryContext) (now : ℕ)
      (current : Option (SharedMemoryEntry A)) (m : SharedMemory A)
      → WriteOutcome
          (key_of key c)
          v
          expected
          now
          c
          current
          m
          (finish_write key v expected c now current m)
  unfolding finish_write
  finish_write-outcome key v expected c now current m =
      let k = key_of key c in
      let past = write_past_lock-outcome k v c now current (get k m.locks) m in
      elim (Bool-cases (version_fits expected current)) [
        | inl p ↦ rw p (record {
          succeeds = ((λ h. (p, past.0.0 h)), λ h. past.0.1 h.1);
          written = past.1;
          refused = past.2;
        })
        | inr p ↦ rw p (record {
          succeeds = ((λ h. cc h), λ h. cc (p, h.0));
          written = λ h. cc h;
          refused = λ h. refl;
        })
      ]

  -- `write` reports success exactly if the key has no entry or one of the expected version, and no
  -- other agent holds a lock of the key younger than 30 seconds. Then the key has the new value,
  -- with the next version; a refused call changes no entry and no lock.
  pub write_iff :
      (key : String) (v : A) (expected : ℕ) (c : MemoryContext) (now : ℕ) (m : SharedMemory A)
      → WriteOutcome
          (key_of key c)
          v
          expected
          now
          c
          (entry_of (key_of key c) m)
          (loaded (key_of key c) now m)
          (write key v expected c now m)
  unfolding write
  write_iff key v expected c now m =
      finish_write-outcome key v expected c now (entry_of (key_of key c) m)
        (loaded (key_of key c) now m)

  -- If the key has no lock and two calls of `write` have both loaded the same entry, of the
  -- expected version, before either goes on, then both report success: the second one gives its
  -- value the version that the first one gave, so the first value is lost.
  pub writes_race :
      (key : String) (v w : A) (expected : ℕ) (c d : MemoryContext) (now later : ℕ)
      (m : SharedMemory A)
      → key_of key d ≡ key_of key c
      → get (key_of key c) m.locks ≡ none
      → version_fits expected (entry_of (key_of key c) m) ≡ true
      → let current : Option (SharedMemoryEntry A) = entry_of (key_of key c) m in
        let first : Bool × SharedMemory A = finish_write key v expected c now current m in
        let second : Bool × SharedMemory A = finish_write key w expected d later current first.1 in
        (first.0 ≡ true)
        × (second.0 ≡ true)
        × HasVersion (key_of key c) v (version_or_zero current + 1) first.1
        × HasVersion (key_of key c) w (version_or_zero current + 1) second.1
  unfolding finish_write
  writes_race key v w expected c d now later m same free fits =
      let k = key_of key c in
      let current = entry_of k m in
      let first = store-HasVersion k v c now current m in
      let second = store-HasVersion k w d later current (store k v c now current m).1 in
      rw (same, fits, free, free) (refl, refl, first, second)
