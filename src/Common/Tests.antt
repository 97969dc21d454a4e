-- ===== src/Common/Tests.antt =====
-- Boolean tests on numbers and texts, the conditional, and splits that keep the equation.
use Prim.Native.Nat.{ℕ, compare, Ordering}
use Prim.Native.String.{String}
use mathlib.Core.Path.{◌≡◌, refl}
use mathlib.Core.Logic.{◌↔◌, ◌⊎◌, inl, inr}
use mathlib.Core.Bool.{Bool, true, false}
use mathlib.Core.Option.{Option, none, some}
use native.Mathlib.Omega.{arith}
use text.Mathlib.Text.{◌==◌ as text_eq}
use text.Mathlib.TextEquality.{eq_iff}

abbrev pub ltb : ℕ → ℕ → Bool
ltb a b = elim (compare a b) [ Ordering.lt ↦ true | _ ↦ false ]

abbrev pub leb : ℕ → ℕ → Bool
leb a b = elim (compare a b) [ Ordering.gt ↦ false | _ ↦ true ]

infix 50 ◌==◌
abbrev pub ◌==◌ : ℕ → ℕ → Bool
a == b = elim (compare a b) [ Ordering.eq ↦ true | _ ↦ false ]

infix 1 if◌then◌else◌
abbrev pub if◌then◌else◌ {ℓ} : {A : Type ℓ} → Bool → A → A → A
if true then x else y = x
if false then x else y = y

pub Bool-cases : (b : Bool) → (b ≡ true) ⊎ (b ≡ false)
Bool-cases true = inl refl
Bool-cases false = inr refl

pub Option-cases {ℓ} : {A : Type ℓ} (o : Option A) → (o ≡ none) ⊎ ((a : A) × (o ≡ some a))
Option-cases none = inl refl
Option-cases (some a) = inr (a, refl)

-- The decision of the equality of two texts: the tactics split on it and read the equation.
decide_text : (s t : String) (b : Bool) → ((b ≡ true) ↔ (s ≡ t)) → Dec (s ≡ t)
decide_text s t true e = yes (e.0 refl)
decide_text s t false e =
    no (λ p. elim (Bool-cases false) [ inl q ↦ cc (e.1 p) | inr q ↦ cc (e.1 p) ])

unfoldable pub String_discrete : Discrete String
unfolding decide_text
String_discrete s t = decide_text s t (text_eq s t) (eq_iff s t)

-- `s === t`
infix 50 ◌===◌
abbrev pub ◌===◌ : String → String → Bool
s === t = elim (String_discrete s t) [ yes _ ↦ true | no _ ↦ false ]

pub ===_refl : (s : String) → (s === s) ≡ true
===_refl s = ground arith

pub ===_eq : (s t : String) → (s === t) ≡ true → s ≡ t
===_eq s t h = ground arith

abbrev pub is_some {ℓ} : {A : Type ℓ} → Option A → Bool
is_some none = false
is_some (some a) = true

pub ===_sym : (s t : String) → (s === t) ≡ false → (t === s) ≡ false
===_sym s t h = ground arith

pub ===_swap : (s t : String) → (s === t) ≡ true → (t === s) ≡ true
===_swap s t h = ground arith
