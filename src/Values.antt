-- ===== src/Values.antt =====
-- Values of the type `unknown`, and metadata records.
use nexus_ai_workspace.Common.{ℕ, String, Bool, List, [], ◌∷◌}
use nexus_ai_workspace.Common.Map.{Map, set}

-- The values that the agents code itself writes; `opaque` stands for a caller's value, which that
-- code only passes on.
pub data Value : Type 0 where
  flag : Bool → Value
  number : ℕ → Value
  text : String → Value
  texts : List String → Value
  date : ℕ → Value
  opaque : ℕ → Value

abbrev pub Metadata : Type 0
Metadata = Map Value

-- `{ ...base, ...more }`: the later entries win and keep the place of the earlier ones.
unfoldable pub spread : Metadata → Metadata → Metadata
spread base [] = base
spread base ((k, v) ∷ more) = spread (set k v base) more
