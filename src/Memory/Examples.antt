-- ===== src/Memory/Examples.antt =====
-- Two agents that share the key "k".
use nexus_ai_workspace.Common.{
  ℕ, String_discrete, Bool, true, false, [], Option, none, some, ◌≡◌, refl, ◌===◌, ◌+◌,
}
use nexus_ai_workspace.Common.Map.{get, set}
use nexus_ai_workspace.Memory.{MemoryContext, build_key, save, load}
use nexus_ai_workspace.Memory.Shared.{
  SharedMemory, SharedMemoryEntry, LockInfo, locked_by_other, create, key_of, entry_of, loaded,
  version_or_zero, version_fits, write, finish_write, lock, unlock, finish_lock,
}
use nexus_ai_workspace.Memory.Shared.Laws.{WriteOutcome, HasVersion, write_iff, writes_race}
use nexus_ai_workspace.Memory.Shared.Locks.{lock_excludes}

abbrev alice : MemoryContext
alice = record {
  request_id = "r";
  trace_id = "t";
  workspace_id = "w";
  user_id = "u";
  conversation_id = none;
  agent_id = "alice";
  execution_id = "e";
  metadata = [];
}

abbrev bob : MemoryContext
bob = record alice { agent_id = "bob" }

abbrev memory : SharedMemory ℕ
memory = (write "k" 7 0 alice 1 create).1

abbrev locked_memory : SharedMemory ℕ
locked_memory = (lock "k" "l" alice 2 memory).1

write_iff_example :
    WriteOutcome
      (key_of "k" bob)
      8
      1
      2
      bob
      (entry_of (key_of "k" bob) memory)
      (loaded (key_of "k" bob) 2 memory)
      (write "k" 8 1 bob 2 memory)
write_iff_example = write_iff "k" 8 1 bob 2 memory

no_lock : get (key_of "k" alice) memory.locks ≡ none
unfolding String_discrete write finish_write create key_of build_key get load
no_lock = refl

version_one : version_fits 1 (entry_of (key_of "k" alice) memory) ≡ true
unfolding String_discrete write finish_write create key_of build_key get load save set
version_one = refl

same_key : key_of "k" bob ≡ key_of "k" alice
unfolding key_of
same_key = refl

writes_race_example :
    let current : Option (SharedMemoryEntry ℕ) = entry_of (key_of "k" alice) memory in
    let first : Bool × SharedMemory ℕ = finish_write "k" 8 1 alice 3 current memory in
    let second : Bool × SharedMemory ℕ = finish_write "k" 9 1 bob 4 current first.1 in
    (first.0 ≡ true)
    × (second.0 ≡ true)
    × HasVersion (key_of "k" alice) 8 (version_or_zero current + 1) first.1
    × HasVersion (key_of "k" alice) 9 (version_or_zero current + 1) second.1
writes_race_example = writes_race "k" 8 9 1 alice bob 3 4 memory same_key no_lock version_one

abbrev held : LockInfo
held = record { lock_id = "l"; agent_id = "alice"; timestamp = 2 }

k_held : get (key_of "k" bob) locked_memory.locks ≡ some held
unfolding String_discrete write finish_write create key_of build_key get set lock finish_lock load
    save
k_held = refl

bob_apart : (held.agent_id === bob.agent_id) ≡ false
unfolding String_discrete
bob_apart = refl

lock_excludes_example :
    ((lock "k" "m" bob 9 locked_memory).0
      ≡ locked_by_other "alice" (version_or_zero (entry_of (key_of "k" bob) locked_memory)))
    × ((write "k" 8 1 bob 9 locked_memory).0 ≡ false)
    × (unlock "k" "m" bob 9 locked_memory ≡ (false, locked_memory))
    × ((lock "k" "m" bob 9 locked_memory).1.locks ≡ locked_memory.locks)
    × ((write "k" 8 1 bob 9 locked_memory).1.locks ≡ locked_memory.locks)
lock_excludes_example = lock_excludes "k" "m" 8 1 bob 9 held locked_memory k_held refl bob_apart
