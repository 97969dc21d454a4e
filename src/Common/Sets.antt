-- ===== src/Common/Sets.antt =====
-- A JavaScript `Set` of texts: the members in the order of their first insertion.
use Prim.Native.String.{String}
use mathlib.Core.Path.{◌≡◌, refl}
use mathlib.Core.Bool.{Bool, false, ◌||◌}
use mathlib.Core.List.{List, [], ◌∷◌, ◌++◌}
use native.Mathlib.Omega.{arith}
use nexus_ai_workspace.Common.Tests.{◌===◌, ===_refl, if◌then◌else◌}

unfoldable pub includes : String → List String → Bool
includes k [] = false
includes k (x ∷ xs) = x === k || includes k xs

unfoldable pub add_to_set : String → List String → List String
add_to_set id [] = id ∷ []
add_to_set id (x ∷ xs) = if x === id then x ∷ xs else x ∷ add_to_set id xs

unfoldable pub remove_from_set : String → List String → List String
remove_from_set id [] = []
remove_from_set id (x ∷ xs) = if x === id then xs else x ∷ remove_from_set id xs

pub includes-add_to_set :
    (k id : String) (xs : List String) → includes k (add_to_set id xs) ≡ (id === k || includes k xs)
unfolding includes add_to_set
includes-add_to_set k id [] = refl
includes-add_to_set k id (x ∷ xs) = ground (arith, includes-add_to_set k id xs)

pub remove-add_to_set :
    (id : String) (xs : List String)
    → includes id xs ≡ false
    → remove_from_set id (add_to_set id xs) ≡ xs
unfolding includes add_to_set remove_from_set
remove-add_to_set id [] h = ground (arith, ===_refl id)
remove-add_to_set id (x ∷ xs) h = ground (arith, remove-add_to_set id xs)

pub includes-append :
    (k : String) (xs ys : List String) → includes k (xs ++ ys) ≡ (includes k xs || includes k ys)
unfolding includes
includes-append k [] ys = refl
includes-append k (x ∷ xs) ys = ground (arith, includes-append k xs ys)
