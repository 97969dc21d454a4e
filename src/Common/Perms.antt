-- ===== src/Common/Perms.antt =====
-- Permutations of arrays.
use Prim.Native.Nat.{suc}
use mathlib.Core.Path.{◌≡◌, refl, sym, ap, ◌∙◌}
use mathlib.Core.Logic.{∥∥₁_elim, ∥∥₁_map, inl, inr}
use mathlib.Core.Bool.{Bool, Bool-set}
use mathlib.Core.List.{List, ◌∷◌, ◌++◌, Perm, Permᴰ, append_assoc, perm_append_comm}
use mathlib.Core.List.Perm
use mathlib.Core.List.Permᴰ
use native.Mathlib.Nat.{ℕ_set}
use native.Mathlib.Omega.{arith}
use nexus_ai_workspace.Common.Tests.{Bool-cases}
use nexus_ai_workspace.Common.Lists.{length, select, some_of}

module _ {ℓ} {A : Type ℓ} where
  pub append-perm_swap : (xs ys zs : List A) → Perm (xs ++ (ys ++ zs)) (ys ++ (xs ++ zs))
  append-perm_swap xs ys zs =
      rw (← append_assoc xs ys zs, ← append_assoc ys xs zs)
        (Perm.append_right zs (perm_append_comm xs ys))

  length-permᴰ : {xs ys : List A} → Permᴰ xs ys → length xs ≡ length ys
  length-permᴰ Permᴰ.nil = refl
  length-permᴰ (Permᴰ.cons e p) = ap suc (length-permᴰ p)
  length-permᴰ (Permᴰ.swap e f) = refl
  length-permᴰ (Permᴰ.trans p q) = length-permᴰ p ∙ length-permᴰ q

  pub length-perm : (xs ys : List A) → Perm xs ys → length xs ≡ length ys
  length-perm xs ys p = ∥∥₁_elim p (ℕ_set _ _) length-permᴰ

  module _ (p : A → Bool) where
    select-swap : (a b : A) (xs : List A) → Permᴰ (select p (a ∷ b ∷ xs)) (select p (b ∷ a ∷ xs))
    select-swap a b xs = elim (Bool-cases (p a)) [
      | inl s ↦ elim (Bool-cases (p b)) [
        | inl t ↦ rw (s, t) (Permᴰ.swap refl refl)
        | inr t ↦ rw (s, t) (Permᴰ.cons refl (Permᴰ.refl _))
      ]
      | inr s ↦ elim (Bool-cases (p b)) [
        | inl t ↦ rw (s, t) (Permᴰ.cons refl (Permᴰ.refl _))
        | inr t ↦ rw (s, t) (Permᴰ.refl _)
      ]
    ]

    select-permᴰ : {xs ys : List A} → Permᴰ xs ys → Permᴰ (select p xs) (select p ys)
    select-permᴰ Permᴰ.nil = Permᴰ.nil
    select-permᴰ (Permᴰ.cons {a} {b} e q) = elim (Bool-cases (p a)) [
      | inl s ↦ rw (s, sym (ap p e) ∙ s) (Permᴰ.cons e (select-permᴰ q))
      | inr s ↦ rw (s, sym (ap p e) ∙ s) (select-permᴰ q)
    ]
    select-permᴰ (Permᴰ.swap {a} {b} {a'} {b'} {l} e f) = rw (sym e, sym f) (select-swap a b l)
    select-permᴰ (Permᴰ.trans q r) = Permᴰ.trans (select-permᴰ q) (select-permᴰ r)

    pub select-perm : (xs ys : List A) → Perm xs ys → Perm (select p xs) (select p ys)
    select-perm xs ys q = ∥∥₁_map q select-permᴰ

    some_of-permᴰ : {xs ys : List A} → Permᴰ xs ys → some_of p xs ≡ some_of p ys
    some_of-permᴰ Permᴰ.nil = refl
    some_of-permᴰ (Permᴰ.cons e q) = rw (e, some_of-permᴰ q) refl
    some_of-permᴰ (Permᴰ.swap {a} {b} {a'} {b'} {l} e f) = rw (sym e, sym f) (ground arith)
    some_of-permᴰ (Permᴰ.trans q r) = some_of-permᴰ q ∙ some_of-permᴰ r

    pub some_of-perm : (xs ys : List A) → Perm xs ys → some_of p xs ≡ some_of p ys
    some_of-perm xs ys q = ∥∥₁_elim q (Bool-set _ _) some_of-permᴰ
