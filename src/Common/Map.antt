-- ===== src/Common/Map.antt =====
-- A JavaScript `Map` with text keys: the entries in the order of their first insertion.
use Prim.Native.Nat.{◌+◌, ◌≤◌}
use Prim.Native.String.{String}
use mathlib.Core.Path.{◌≡◌, refl, sym, subst}
use mathlib.Core.Bool.{Bool, false}
use mathlib.Core.Option.{Option, none, some}
use mathlib.Core.List.{List, [], ◌∷◌}
use mathlib.Core.Logic.{inl, inr}
use native.Mathlib.Omega.{arith}
use nexus_ai_workspace.Common.Tests.{◌===◌, ===_eq, Bool-cases, if◌then◌else◌, is_some}
use nexus_ai_workspace.Common.Lists.{length}

abbrev pub Map {ℓ} : Type ℓ → Type ℓ
Map V = List (String × V)

module _ {ℓ} {V : Type ℓ} where
  unfoldable pub get : String → Map V → Option V
  get k [] = none
  get k ((j, v) ∷ m) = if j === k then some v else get k m

  -- A key that is there keeps its place.
  unfoldable pub set : String → V → Map V → Map V
  set k v [] = (k, v) ∷ []
  set k v ((j, w) ∷ m) = if j === k then (j, v) ∷ m else (j, w) ∷ set k v m

  unfoldable pub delete : String → Map V → Map V
  delete k [] = []
  delete k ((j, w) ∷ m) = if j === k then m else (j, w) ∷ delete k m

  abbrev pub has : String → Map V → Bool
  has k m = is_some (get k m)

  abbrev pub keys : Map V → List String
  keys [] = []
  keys ((j, w) ∷ m) = j ∷ keys m

  abbrev pub values : Map V → List V
  values [] = []
  values ((j, w) ∷ m) = w ∷ values m

  pub get-set :
      (k j : String) (v : V) (m : Map V) → get j (set k v m) ≡ (if k === j then some v else get j m)
  unfolding get set
  get-set k j v [] = refl
  get-set k j v ((i, w) ∷ m) = ground (arith, get-set k j v m)

  pub length-set : (k : String) (v : V) (m : Map V) → length (set k v m) ≤ length m + 1
  unfolding set
  length-set k v [] = omega arith
  length-set k v ((i, w) ∷ m) = ground (arith, length-set k v m)

  pub length-set_new :
      (k : String) (v : V) (m : Map V) → get k m ≡ none → length (set k v m) ≡ length m + 1
  unfolding get set
  length-set_new k v [] h = omega arith
  length-set_new k v ((i, w) ∷ m) h = ground (arith, length-set_new k v m)

  pub length-delete : (k : String) (m : Map V) → length (delete k m) ≤ length m
  unfolding delete
  length-delete k [] = omega arith
  length-delete k ((i, w) ∷ m) = ground (arith, length-delete k m)

  -- The keys of a map differ from one another.
  abbrev pub Distinct : Map V → Type ℓ
  Distinct [] = Unit
  Distinct ((j, w) ∷ m) = (get j m ≡ none) × Distinct m

  pub set-Distinct : (k : String) (v : V) (m : Map V) → Distinct m → Distinct (set k v m)
  unfolding get set
  set-Distinct k v [] d = (refl, tt)
  set-Distinct k v ((i, w) ∷ m) d = ground (arith, set-Distinct k v m d.1, get-set k i v m)

  pub get-delete_other :
      (k j : String) (m : Map V) → (k === j) ≡ false → get j (delete k m) ≡ get j m
  unfolding get delete
  get-delete_other k j [] h = refl
  get-delete_other k j ((i, w) ∷ m) h = ground (arith, get-delete_other k j m h)

  pub delete-none : (k j : String) (m : Map V) → get j m ≡ none → get j (delete k m) ≡ none
  unfolding get delete
  delete-none k j [] h = refl
  delete-none k j ((i, w) ∷ m) h = ground (arith, delete-none k j m)

  pub delete-Distinct : (k : String) (m : Map V) → Distinct m → Distinct (delete k m)
  unfolding get delete
  delete-Distinct k [] d = tt
  delete-Distinct k ((i, w) ∷ m) d = ground (arith, delete-Distinct k m d.1, delete-none k i m d.0)

  pub get-delete_self : (k : String) (m : Map V) → Distinct m → get k (delete k m) ≡ none
  unfolding get delete
  get-delete_self k [] d = refl
  get-delete_self k ((i, w) ∷ m) d = ground (arith, get-delete_self k m d.1)

  -- A deletion shortens the map by the entry that was there.
  pub length-delete-some :
      (k : String) (m : Map V) (v : V) → get k m ≡ some v → length (delete k m) + 1 ≡ length m
  unfolding get delete
  length-delete-some k [] v h = cc
  length-delete-some k ((i, w) ∷ m) v h = ground (arith, length-delete-some k m v)

  pub get-delete :
      (k j : String) (m : Map V)
      → Distinct m
      → get j (delete k m) ≡ (if k === j then none else get j m)
  get-delete k j m d = ground (arith, get-delete_other k j m, get-delete_self k m d)

  -- A predicate of every entry.
  abbrev pub Entries {κ} : (String → V → Type κ) → Map V → Type κ
  Entries P [] = Unit
  Entries P ((j, w) ∷ m) = P j w × Entries P m

module _ {ℓ κ} {V : Type ℓ} (P : String → V → Type κ) where
  pub Entries-get : (k : String) (m : Map V) (v : V) → Entries P m → get k m ≡ some v → P k v
  unfolding get
  Entries-get k [] v h e = cc
  Entries-get k ((j, w) ∷ m) v h e = elim (Bool-cases (j === k)) [
    | inl p ↦
        let same : w ≡ v = let e' = rw p at e in cc in
        subst (λ i. P i v) (===_eq j k p) (subst (P j) same h.0)
    | inr n ↦ Entries-get k m v h.1 (rw n at e)
  ]

  pub Entries-set : (k : String) (v : V) (m : Map V) → P k v → Entries P m → Entries P (set k v m)
  unfolding set
  Entries-set k v [] p h = (p, tt)
  Entries-set k v ((j, w) ∷ m) p h = elim (Bool-cases (j === k)) [
    | inl e ↦ rw e (subst (λ i. P i v) (sym (===_eq j k e)) p, h.1)
    | inr n ↦ rw n (h.0, Entries-set k v m p h.1)
  ]

  pub Entries-delete : (k : String) (m : Map V) → Entries P m → Entries P (delete k m)
  unfolding delete
  Entries-delete k [] h = tt
  Entries-delete k ((j, w) ∷ m) h = elim (Bool-cases (j === k)) [
    | inl e ↦ rw e h.1
    | inr n ↦ rw n (h.0, Entries-delete k m h.1)
  ]
