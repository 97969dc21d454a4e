-- ===== src/Common/Lists.antt =====
-- Arrays as lists, with native numbers for lengths and indices.
use Prim.Native.Nat.{ℕ, zero, suc, ◌+◌, ◌≤◌}
use mathlib.Core.Path.{◌≡◌, refl, ap}
use mathlib.Core.Bool.{Bool, true, false, ◌||◌}
use mathlib.Core.Option.{Option, none, some}
use mathlib.Core.List.{List, [], ◌∷◌, ◌++◌, Perm, perm_middle}
use mathlib.Core.Logic.{◌⊎◌, inl, inr}
use native.Mathlib.Omega.{arith}
use nexus_ai_workspace.Common.Tests.{if◌then◌else◌, Bool-cases}

module _ {ℓ} {A : Type ℓ} where
  abbrev pub length : List A → ℕ
  length [] = 0
  length (x ∷ xs) = suc (length xs)

  abbrev pub get_elem? : List A → ℕ → Option A
  get_elem? [] i = none
  get_elem? (x ∷ xs) zero = some x
  get_elem? (x ∷ xs) (suc i) = get_elem? xs i

  -- `xs.find(p)`
  abbrev pub find : (A → Bool) → List A → Option A
  find p [] = none
  find p (x ∷ xs) = if p x then some x else find p xs

  -- `xs.some(p)`
  abbrev pub some_of : (A → Bool) → List A → Bool
  some_of p [] = false
  some_of p (x ∷ xs) = p x || some_of p xs

  -- `xs.filter(p)`
  abbrev pub select : (A → Bool) → List A → List A
  select p [] = []
  select p (x ∷ xs) = let rest = select p xs in if p x then x ∷ rest else rest

  abbrev pub keep_head : A → Option (A × List A) → Option (A × List A)
  keep_head x none = none
  keep_head x (some (y, ys)) = some (y, x ∷ ys)

  -- `i = xs.findIndex(p)`, then `xs.splice(i, 1)[0]` unless `i` is -1.
  unfoldable pub extract : (A → Bool) → List A → Option (A × List A)
  extract p [] = none
  extract p (x ∷ xs) = if p x then some (x, xs) else keep_head x (extract p xs)

  -- A predicate of every element, by recursion on the list.
  abbrev pub All {κ} : (A → Type κ) → List A → Type κ
  All P [] = Unit
  All P (x ∷ xs) = P x × All P xs

module _ {ℓ} {A : Type ℓ} where
  pub length-append : (xs ys : List A) → length (xs ++ ys) ≡ length xs + length ys
  length-append [] ys = omega arith
  length-append (x ∷ xs) ys = omega (arith, length-append xs ys)

  pub length-select-le : (p : A → Bool) (xs : List A) → length (select p xs) ≤ length xs
  length-select-le p [] = omega arith
  length-select-le p (x ∷ xs) = ground (arith, length-select-le p xs)

  pub get_elem?-append_left :
      (xs ys : List A) (i : ℕ) (z : A) → get_elem? xs i ≡ some z → get_elem? (xs ++ ys) i ≡ some z
  get_elem?-append_left [] ys i z h = cc
  get_elem?-append_left (x ∷ xs) ys zero z h = h
  get_elem?-append_left (x ∷ xs) ys (suc i) z h = get_elem?-append_left xs ys i z h

  pub get_elem?-append_length :
      (xs ys : List A) (y : A) → get_elem? (xs ++ y ∷ ys) (length xs) ≡ some y
  get_elem?-append_length [] ys y = refl
  get_elem?-append_length (x ∷ xs) ys y = get_elem?-append_length xs ys y

  pub All-append {κ} : (P : A → Type κ) (xs ys : List A) → All P xs → All P ys → All P (xs ++ ys)
  All-append P [] ys hx hy = hy
  All-append P (x ∷ xs) ys hx hy = (hx.0, All-append P xs ys hx.1 hy)

  pub All-append_left {κ} : (P : A → Type κ) (xs ys : List A) → All P (xs ++ ys) → All P xs
  All-append_left P [] ys h = tt
  All-append_left P (x ∷ xs) ys h = (h.0, All-append_left P xs ys h.1)

  pub All-map {κ μ} :
      (P : A → Type κ) (Q : A → Type μ) (xs : List A) → ((x : A) → P x → Q x) → All P xs → All Q xs
  All-map P Q [] f h = tt
  All-map P Q (x ∷ xs) f h = (f x h.0, All-map P Q xs f h.1)

-- What `extract` does to `xs`: nothing fits, or the first that fits is cut out.
abbrev pub Missing {ℓ} : {A : Type ℓ} → (A → Bool) → List A → Type ℓ
Missing p xs = (extract p xs ≡ none) × (find p xs ≡ none) × All (λ x. p x ≡ false) xs

pub record Found {ℓ} {A : Type ℓ} (p : A → Bool) (xs : List A) : Type ℓ where
  pub item : A
  pub before : List A
  pub after : List A
  pub split : xs ≡ before ++ item ∷ after
  pub cut : extract p xs ≡ some (item, before ++ after)
  pub seen : find p xs ≡ some item
  pub fits : p item ≡ true
  pub passed : All (λ x. p x ≡ false) before

module _ {ℓ} {A : Type ℓ} (p : A → Bool) where
  Found-cons : (x : A) (xs : List A) → p x ≡ false → Found p xs → Found p (x ∷ xs)
  unfolding extract
  Found-cons x xs e f = record {
    item = f.item;
    before = x ∷ f.before;
    after = f.after;
    split = ap (◌∷◌ x) f.split;
    cut = rw (e, f.cut) refl;
    seen = rw e f.seen;
    fits = f.fits;
    passed = (e, f.passed);
  }

  pub extract_cases : (xs : List A) → Missing p xs ⊎ Found p xs
  unfolding extract
  extract_cases [] = inl (refl, refl, tt)
  extract_cases (x ∷ xs) = elim (Bool-cases (p x)) [
    | inl e ↦ inr (record {
      item = x;
      before = [];
      after = xs;
      split = refl;
      cut = rw e;
      seen = rw e;
      fits = e;
      passed = tt;
    })
    | inr e ↦ elim (extract_cases xs) [
      | inl (none_cut, none_seen, none_fits) ↦
          inl (rw (e, none_cut) refl, rw e none_seen, (e, none_fits))
      | inr f ↦ inr (Found-cons x xs e f)
    ]
  ]

  pub Found-perm : (xs : List A) (f : Found p xs) → Perm xs (f.item ∷ (f.before ++ f.after))
  Found-perm xs f = rw f.split (perm_middle f.before f.after)
