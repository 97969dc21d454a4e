-- ===== src/Common/Insertion.antt =====
-- A loop that looks for the first index whose element fits a test, and `splice(i, 0, x)` there.
use Prim.Native.Nat.{ℕ, zero, suc}
use mathlib.Core.Path.{◌≡◌}
use mathlib.Core.Bool.{Bool, true, false}
use mathlib.Core.Logic.{inl, inr}
use mathlib.Core.List.{List, [], ◌∷◌, ◌++◌, Perm}
use mathlib.Core.List.Perm
use nexus_ai_workspace.Common.Tests.{if◌then◌else◌, Bool-cases}
use nexus_ai_workspace.Common.Lists.{All, All-map}

module _ {ℓ} {A : Type ℓ} where
  -- The first index with `p`, or the length if there is none.
  unfoldable pub insert_index : (A → Bool) → List A → ℕ
  insert_index p [] = 0
  insert_index p (x ∷ xs) = if p x then 0 else suc (insert_index p xs)

  -- `xs.splice(i, 0, a)`
  unfoldable pub splice_in : ℕ → A → List A → List A
  splice_in zero a xs = a ∷ xs
  splice_in (suc i) a [] = a ∷ []
  splice_in (suc i) a (x ∷ xs) = x ∷ splice_in i a xs

  -- The array after the search and the splice.
  abbrev pub insert_before : (A → Bool) → A → List A → List A
  insert_before p a xs = splice_in (insert_index p xs) a xs

  pub insert_before-cons :
      (p : A → Bool) (a x : A) (xs : List A)
      → insert_before p a (x ∷ xs) ≡ (if p x then a ∷ x ∷ xs else x ∷ insert_before p a xs)
  unfolding insert_index splice_in
  insert_before-cons p a x xs = elim (Bool-cases (p x)) [ inl e ↦ rw e | inr e ↦ rw e ]

  pub insert_before-perm :
      (p : A → Bool) (a : A) (xs : List A) → Perm (insert_before p a xs) (a ∷ xs)
  unfolding insert_index splice_in
  insert_before-perm p a [] = Perm.refl (a ∷ [])
  insert_before-perm p a (x ∷ xs) = elim (Bool-cases (p x)) [
    | inl e ↦ rw e (Perm.refl _)
    | inr e ↦ rw e (Perm.trans (Perm.cons x (insert_before-perm p a xs)) (Perm.swap _ _ _))
  ]

-- No element is less than one that stands before it.
abbrev pub IsSorted {ℓ} : {A : Type ℓ} → (A → A → Bool) → List A → Type ℓ
IsSorted lt [] = Unit
IsSorted lt (x ∷ xs) = All (λ y. lt y x ≡ false) xs × IsSorted lt xs

pub record StrictOrder {ℓ} {A : Type ℓ} (lt : A → A → Bool) : Type ℓ where
  pub irrefl : (x : A) → lt x x ≡ false
  pub trans : (x y z : A) → lt x y ≡ true → lt y z ≡ true → lt x z ≡ true

module _ {ℓ} {A : Type ℓ} (lt : A → A → Bool) where
  pub All-insert_before {κ} :
      (P : A → Type κ) (p : A → Bool) (a : A) (xs : List A)
      → P a
      → All P xs
      → All P (insert_before p a xs)
  unfolding insert_index splice_in
  All-insert_before P p a [] h hs = (h, tt)
  All-insert_before P p a (x ∷ xs) h hs = elim (Bool-cases (p x)) [
    | inl e ↦ rw e (h, hs)
    | inr e ↦ rw e (hs.0, All-insert_before P p a xs h hs.1)
  ]

  not_below : (order : StrictOrder lt) (a x y : A) → lt a x ≡ true → lt y x ≡ false → lt y a ≡ false
  not_below order a x y ax yx = elim (Bool-cases (lt y a)) [
    | inl ya ↦ cc (order.trans y a x ya ax)
    | inr e ↦ e
  ]

  -- The loop keeps a sorted array sorted.
  pub insert_before-IsSorted :
      (order : StrictOrder lt) (a : A) (xs : List A)
      → IsSorted lt xs
      → IsSorted lt (insert_before (lt a) a xs)
  unfolding insert_index splice_in
  insert_before-IsSorted order a [] s = (tt, tt)
  insert_before-IsSorted order a (x ∷ xs) s = elim (Bool-cases (lt a x)) [
    | inl e ↦ rw e (
      (not_below order a x x e (order.irrefl x), All-map _ _ xs (λ y. not_below order a x y e) s.0),
      s,
    )
    | inr e ↦ rw e (All-insert_before _ (lt a) a xs e s.0, insert_before-IsSorted order a xs s.1)
  ]

  -- Cutting an element out keeps it sorted too.
  pub IsSorted-cut :
      (xs : List A) (y : A) (ys : List A) → IsSorted lt (xs ++ y ∷ ys) → IsSorted lt (xs ++ ys)
  IsSorted-cut [] y ys s = s.1
  IsSorted-cut (x ∷ xs) y ys s = (All-cut xs s.0, IsSorted-cut xs y ys s.1)
    where
      All-cut :
          (zs : List A)
          → All (λ z. lt z x ≡ false) (zs ++ y ∷ ys)
          → All (λ z. lt z x ≡ false) (zs ++ ys)
      All-cut [] h = h.1
      All-cut (z ∷ zs) h = (h.0, All-cut zs h.1)
