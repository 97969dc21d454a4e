-- ===== src/Common/Selection.antt =====
-- The loop that looks for the first element with the least key, and `splice(i, 1)[0]` there.
use Prim.Native.Nat.{ℕ, zero, suc, ◌≤◌}
use mathlib.Core.Path.{◌≡◌, refl, ap}
use mathlib.Core.Option.{Option, none, some}
use mathlib.Core.Logic.{◌⊎◌, inl, inr}
use mathlib.Core.List.{List, [], ◌∷◌, ◌++◌, append_assoc, append-nil}
use native.Mathlib.Omega.{arith}
use nexus_ai_workspace.Common.Tests.{if◌then◌else◌, Bool-cases, Option-cases, ltb}
use nexus_ai_workspace.Common.Lists.{
  All, All-map, All-append, length, length-append, get_elem?, get_elem?-append_left,
  get_elem?-append_length, keep_head,
}

module _ {ℓ} {A : Type ℓ} where
  -- `for (; i < xs.length; i++) if (key(xs[i]) < least) { least = key(xs[i]); best = i; }`
  pub min_loop : (A → ℕ) → (i best least : ℕ) → List A → ℕ
  min_loop key i best least [] = best
  min_loop key i best least (x ∷ xs) =
      let less = ltb (key x) least in
      min_loop key (suc i) (if less then i else best) (if less then key x else least) xs

  unfoldable pub min_index : (A → ℕ) → List A → ℕ
  unfolding min_loop
  min_index key [] = 0
  min_index key (x ∷ xs) = min_loop key 1 0 (key x) xs

  -- `xs.splice(i, 1)`: the element cut out, and the rest.
  unfoldable pub splice_out : ℕ → List A → Option (A × List A)
  splice_out i [] = none
  splice_out zero (x ∷ xs) = some (x, xs)
  splice_out (suc i) (x ∷ xs) = keep_head x (splice_out i xs)

  -- The element at `i` cut out.
  pub record CutAt (i : ℕ) (xs : List A) : Type ℓ where
    pub item : A
    pub before : List A
    pub after : List A
    pub split : xs ≡ before ++ item ∷ after
    pub cut : splice_out i xs ≡ some (item, before ++ after)
    pub at : get_elem? xs i ≡ some item

  pub splice_out_CutAt : (i : ℕ) (xs : List A) (z : A) → get_elem? xs i ≡ some z → CutAt i xs
  unfolding splice_out
  splice_out_CutAt i [] z h = cc
  splice_out_CutAt zero (x ∷ xs) z h = record {
    item = x;
    before = [];
    after = xs;
    split = refl;
    cut = refl;
    at = refl;
  }
  splice_out_CutAt (suc i) (x ∷ xs) z h =
      let c = splice_out_CutAt i xs z h in
      record {
        item = c.item;
        before = x ∷ c.before;
        after = c.after;
        split = ap (◌∷◌ x) c.split;
        cut = rw c.cut refl;
        at = c.at;
      }

module _ {ℓ} {A : Type ℓ} where
  splice_out-none : (i : ℕ) (xs : List A) → get_elem? xs i ≡ none → splice_out i xs ≡ none
  unfolding splice_out
  splice_out-none i [] e = refl
  splice_out-none zero (x ∷ xs) e = cc
  splice_out-none (suc i) (x ∷ xs) e = rw (splice_out-none i xs e) refl

  pub splice_out_cases : (i : ℕ) (xs : List A) → (splice_out i xs ≡ none) ⊎ CutAt i xs
  splice_out_cases i xs = elim (Option-cases (get_elem? xs i)) [
    | inl e ↦ inl (splice_out-none i xs e)
    | inr (z, e) ↦ inr (splice_out_CutAt i xs z e)
  ]

module _ {ℓ} {A : Type ℓ} (key : A → ℕ) where
  abbrev pub Least : List A → ℕ → Type ℓ
  Least xs i = (z : A) × (get_elem? xs i ≡ some z) × All (λ w. key z ≤ key w) xs

  min_loop-Least :
      (xs before : List A) (i best least : ℕ) (y : A)
      → length before ≡ i
      → get_elem? before best ≡ some y
      → key y ≡ least
      → All (λ w. least ≤ key w) before
      → Least (before ++ xs) (min_loop key i best least xs)
  unfolding min_loop
  min_loop-Least [] before i best least y len at val low =
      (y, rw append-nil at, rw append-nil (All-map _ _ before (λ w h. omega arith) low))
  min_loop-Least (x ∷ xs) before i best least y len at val low =
      elim (Bool-cases (ltb (key x) least)) [
        | inl e ↦
            rw (e, min_loop)
              (rw (append_assoc before (x ∷ []) xs) at (
                min_loop-Least xs (before ++ x ∷ []) (suc i) i (key x) x
                  (omega (arith, length-append before (x ∷ [])))
                  (rw (← len) (get_elem?-append_length before [] x)) refl
                  (All-append _ before (x ∷ []) (All-map _ _ before (λ w h. ground arith) low)
                    (omega arith, tt))))
        | inr e ↦
            rw (e, min_loop)
              (rw (append_assoc before (x ∷ []) xs) at (
                min_loop-Least xs (before ++ x ∷ []) (suc i) best least y
                  (omega (arith, length-append before (x ∷ [])))
                  (get_elem?-append_left before (x ∷ []) best y at) val
                  (All-append _ before (x ∷ []) low (ground arith, tt))))
      ]

  -- On an array that is not empty the loop ends at an element with the least key.
  pub min_index-Least : (x : A) (xs : List A) → Least (x ∷ xs) (min_index key (x ∷ xs))
  unfolding min_index
  min_index-Least x xs = min_loop-Least xs (x ∷ []) 1 0 (key x) x refl refl refl (omega arith, tt)
