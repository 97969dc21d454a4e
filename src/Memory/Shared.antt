-- ===== src/Memory/Shared.antt =====
-- backend/services/ai-kernel/src/agents/memory/shared-memory.ts: SharedMemory, with versions and
-- locks. `write`, `lock` and `unlock` go on after the await of `load` with the entry that they
-- loaded before it: what follows the await is a definition of its own (`finish_write`,
-- `finish_lock`, `unmark`), and other calls may run in between; `write`, `lock` and `unlock` are
-- the calls without interruption.
pub mod Laws
pub mod Locks
use nexus_ai_workspace.Common.{
  ℕ, String, Bool, true, false, not, List, [], ◌∷◌, Option, none, some, ◌+◌, ◌-◌, ltb, ◌==◌, ◌===◌,
  ◌&&◌, ◌||◌, if◌then◌else◌, length, ◌++◌,
}
use nexus_ai_workspace.Common.Map.{Map, get, set, delete}
use nexus_ai_workspace.Memory.{AgentMemory, MemoryContext, build_key, load, save}
use nexus_ai_workspace.Values.{Metadata, number, text}
use Prim.Native.String.{◌++◌ as text_append}

pub record SharedMemoryEntry (A : Type 0) : Type 0 where
  pub value : A
  pub version : ℕ
  pub locked_by : Option String
  pub locked_at : Option ℕ
  pub last_modified : ℕ
  pub metadata : Metadata

pub record LockInfo : Type 0 where
  pub lock_id : String
  pub agent_id : String
  pub timestamp : ℕ

pub record SharedMemory (A : Type 0) : Type 0 where
  pub base : AgentMemory (SharedMemoryEntry A)
  pub locks : Map LockInfo
  pub warnings : List ℕ

-- The fields of LockResult, with its message as a value.
pub data LockResult : Type 0 where
  already_locked acquired : (lock_id : String) (current_version : ℕ) → LockResult
  locked_by_other : (agent : String) (current_version : ℕ) → LockResult

abbrev pub lock_timeout : ℕ
lock_timeout = 30000

unfoldable pub key_of : String → MemoryContext → String
key_of key c = build_key (text_append "shared:" c.workspace_id) key

-- `Date.now() - lockInfo.timestamp.getTime() < this.lockTimeout`
abbrev pub is_live : ℕ → LockInfo → Bool
is_live now l = ltb (now - l.timestamp) lock_timeout

abbrev pub expired_keys : ℕ → Map LockInfo → List String
expired_keys now [] = []
expired_keys now ((k, l) ∷ m) =
    let rest = expired_keys now m in if is_live now l then rest else k ∷ rest

module _ {A : Type 0} where
  unfoldable pub create : SharedMemory A
  create = record { base = record { storage = []; access_log = [] }; locks = []; warnings = [] }

  abbrev pub entry_of : String → SharedMemory A → Option (SharedMemoryEntry A)
  entry_of k m = get k m.base.storage

  abbrev pub loaded : String → ℕ → SharedMemory A → SharedMemory A
  loaded k now m = record m { base = (load k now m.base).1 }

  unfoldable pub read :
      String → MemoryContext → ℕ → SharedMemory A → Option (SharedMemoryEntry A) × SharedMemory A
  read key c now m = let k = key_of key c in (entry_of k m, loaded k now m)

  abbrev pub version_or_zero : Option (SharedMemoryEntry A) → ℕ
  version_or_zero none = 0
  version_or_zero (some e) = e.version

  abbrev pub version_fits : ℕ → Option (SharedMemoryEntry A) → Bool
  version_fits expected none = true
  version_fits expected (some e) = e.version == expected

  abbrev pub new_entry : A → MemoryContext → ℕ → Option (SharedMemoryEntry A) → SharedMemoryEntry A
  new_entry v c now current = record {
    value = v;
    version = version_or_zero current + 1;
    locked_by = none;
    locked_at = none;
    last_modified = now;
    metadata =
        set "previousVersion" (number (version_or_zero current))
          (set "modifiedBy" (text c.agent_id) c.metadata);
  }

  abbrev pub store :
      String
      → A
      → MemoryContext
      → ℕ
      → Option (SharedMemoryEntry A)
      → SharedMemory A
      → Bool × SharedMemory A
  store k v c now current m =
      (true, record m { base = save k (new_entry v c now current) now m.base })

  abbrev pub write_past_lock :
      String
      → A
      → MemoryContext
      → ℕ
      → Option (SharedMemoryEntry A)
      → Option LockInfo
      → SharedMemory A
      → Bool × SharedMemory A
  write_past_lock k v c now current none m = store k v c now current m
  write_past_lock k v c now current (some l) m =
      if l.agent_id === c.agent_id
      then store k v c now current m
      else if is_live now l
      then (false, m)
      else store k v c now current (record m { locks = delete k m.locks })

  -- `write` after it has loaded `current`.
  unfoldable pub finish_write :
      String
      → A
      → ℕ
      → MemoryContext
      → ℕ
      → Option (SharedMemoryEntry A)
      → SharedMemory A
      → Bool × SharedMemory A
  finish_write key v expected c now current m =
      let k = key_of key c in
      if version_fits expected current
      then write_past_lock k v c now current (get k m.locks) m
      else (false, m)

  unfoldable pub write : String → A → ℕ → MemoryContext → ℕ → SharedMemory A → Bool × SharedMemory A
  write key v expected c now m =
      let k = key_of key c in finish_write key v expected c now (entry_of k m) (loaded k now m)

  abbrev pub mark_locked :
      String → MemoryContext → ℕ → Option (SharedMemoryEntry A) → SharedMemory A → SharedMemory A
  mark_locked k c now none m = m
  mark_locked k c now (some e) m = record m {
    base = save k (record e { locked_by = some c.agent_id; locked_at = some now }) now m.base;
  }

  -- The new lock has the id `id`.
  abbrev pub acquire :
      String
      → String
      → MemoryContext
      → ℕ
      → Option (SharedMemoryEntry A)
      → SharedMemory A
      → LockResult × SharedMemory A
  acquire k id c now current m = (
    acquired id (version_or_zero current),
    mark_locked k c now current (record m {
      locks = set k (record { lock_id = id; agent_id = c.agent_id; timestamp = now }) m.locks;
    }),
  )

  abbrev pub lock_past :
      String
      → String
      → MemoryContext
      → ℕ
      → Option (SharedMemoryEntry A)
      → Option LockInfo
      → SharedMemory A
      → LockResult × SharedMemory A
  lock_past k id c now current none m = acquire k id c now current m
  lock_past k id c now current (some l) m =
      if is_live now l
      then (if l.agent_id === c.agent_id
          then (already_locked l.lock_id (version_or_zero current), m)
          else (locked_by_other l.agent_id (version_or_zero current), m))
      else acquire k id c now current (record m { locks = delete k m.locks })

  -- `lock` after it has loaded `current`.
  unfoldable pub finish_lock :
      String
      → String
      → MemoryContext
      → ℕ
      → Option (SharedMemoryEntry A)
      → SharedMemory A
      → LockResult × SharedMemory A
  finish_lock key id c now current m =
      let k = key_of key c in lock_past k id c now current (get k m.locks) m

  unfoldable pub lock :
      String → String → MemoryContext → ℕ → SharedMemory A → LockResult × SharedMemory A
  lock key id c now m =
      let k = key_of key c in finish_lock key id c now (entry_of k m) (loaded k now m)

  abbrev pub without_lock : SharedMemoryEntry A → SharedMemoryEntry A
  without_lock e = record e { locked_by = none; locked_at = none }

  -- `unlock` after the lock is gone and it has loaded the entry.
  abbrev pub unmark : String → ℕ → Option (SharedMemoryEntry A) → SharedMemory A → SharedMemory A
  unmark k now none m = m
  unmark k now (some e) m = record m { base = save k (without_lock e) now m.base }

  abbrev pub unlock_at :
      String → String → MemoryContext → ℕ → Option LockInfo → SharedMemory A → Bool × SharedMemory A
  unlock_at k id c now none m = (false, m)
  unlock_at k id c now (some l) m =
      if l.lock_id === id && l.agent_id === c.agent_id
      then (
        true,
        unmark k now (entry_of k m) (loaded k now (record m { locks = delete k m.locks })),
      )
      else (false, m)

  unfoldable pub unlock :
      String → String → MemoryContext → ℕ → SharedMemory A → Bool × SharedMemory A
  unlock key id c now m = let k = key_of key c in unlock_at k id c now (get k m.locks) m

  abbrev pub locked_at_key : String → ℕ → Option LockInfo → SharedMemory A → Bool × SharedMemory A
  locked_at_key k now none m = (false, m)
  locked_at_key k now (some l) m =
      if is_live now l then (true, m) else (false, record m { locks = delete k m.locks })

  unfoldable pub is_locked : String → MemoryContext → ℕ → SharedMemory A → Bool × SharedMemory A
  is_locked key c now m = let k = key_of key c in locked_at_key k now (get k m.locks) m

  unfoldable pub get_lock_info : String → MemoryContext → SharedMemory A → Option LockInfo
  get_lock_info key c m = get (key_of key c) m.locks

  abbrev pub clear_mark : String → Option (SharedMemoryEntry A) → SharedMemory A → SharedMemory A
  clear_mark k none m = m
  clear_mark k (some e) m = record m {
    base = record m.base { storage = set k (without_lock e) m.base.storage };
  }

  -- A key has a colon, since `buildKey` puts one in, so its test for one always holds.
  unfoldable pub expire_all : List String → SharedMemory A → SharedMemory A
  expire_all [] m = m
  expire_all (k ∷ ks) m =
      expire_all ks (clear_mark k (entry_of k m) (record m { locks = delete k m.locks }))

  abbrev pub warn : ℕ → SharedMemory A → SharedMemory A
  warn n m = if ltb 0 n then record m { warnings = m.warnings ++ n ∷ [] } else m

  unfoldable pub cleanup_expired_locks : ℕ → SharedMemory A → SharedMemory A
  cleanup_expired_locks now m =
      let expired = expired_keys now m.locks in warn (length expired) (expire_all expired m)
