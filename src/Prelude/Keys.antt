-- ===== src/Prelude/Keys.antt =====
-- Keys that a dictionary can be indexed by: a Boolean equality with its law.
use Prim.Native.Nat.{ℕ}
use Prim.Native.String.{String}
use mathlib.Core.Option.{Option, none, some}
use mathlib.Core.Path.{◌≡◌, refl}
use mathlib.Core.Logic.{◌↔◌, ◌≢◌, ◌⊎◌, inl, inr}
use mathlib.Core.Bool.{Bool, true, false, ◌&&◌}
use mathlib.Core.List.{List, [], ◌∷◌}
use native.Mathlib.Omega.{arith}
use text.Mathlib.Text.{◌==◌ as str_eq}
use text.Mathlib.TextEquality.{eq_iff}
use investment_intelligence.Prelude.Tests.{◌==◌ as nat_eq, ==_iff, Bool-cases, if◌then◌else◌}

pub record Eq {ℓ} (A : Type ℓ) : Type ℓ where
  pub beq : A → A → Bool
  pub beq_iff : (a b : A) → (beq a b ≡ true) ↔ (a ≡ b)

infix 50 ◌=?◌
abbrev pub ◌=?◌ {ℓ} : {A : Type ℓ} ⦃e : Eq A⦄ → A → A → Bool
◌=?◌ ⦃e⦄ = e.beq

instance abbrev pub ℕ-keys : Eq ℕ
ℕ-keys = record { beq = nat_eq; beq_iff = ==_iff }

instance abbrev pub String-keys : Eq String
String-keys = record { beq = str_eq; beq_iff = eq_iff }

module _ {ℓ} {A : Type ℓ} ⦃e : Eq A⦄ where
  pub =?_refl : (a : A) → (a =? a) ≡ true
  =?_refl a = (e.beq_iff a a).1 refl

  pub =?_ne : (a b : A) → a ≢ b → (a =? b) ≡ false
  =?_ne a b h = ground (arith, e.beq_iff a b)

  pub =?_sym : (a b : A) → (a =? b) ≡ (b =? a)
  =?_sym a b = ground (arith, e.beq_iff a b, e.beq_iff b a)

  -- `a in xs`
  abbrev pub contains : A → List A → Bool
  contains a [] = false
  contains a (x ∷ xs) = if x =? a then true else contains a xs

module _ {ℓ} {A : Type ℓ} ⦃e : Eq A⦄ where
  abbrev pub list_beq : List A → List A → Bool
  list_beq [] [] = true
  list_beq (x ∷ xs) (y ∷ ys) = (x =? y) && list_beq xs ys
  list_beq _ _ = false

  pub list_beq_iff : (xs ys : List A) → (list_beq xs ys ≡ true) ↔ (xs ≡ ys)
  list_beq_iff [] [] = ground arith
  list_beq_iff [] (y ∷ ys) = ground arith
  list_beq_iff (x ∷ xs) [] = ground arith
  list_beq_iff (x ∷ xs) (y ∷ ys) = ground (arith, e.beq_iff x y, list_beq_iff xs ys)

abbrev pub option_beq {ℓ} : {A : Type ℓ} ⦃e : Eq A⦄ → Option A → Option A → Bool
option_beq none none = true
option_beq (some x) (some y) = x =? y
option_beq _ _ = false

pub option_beq_iff {ℓ} :
    {A : Type ℓ} ⦃e : Eq A⦄ (o p : Option A) → (option_beq o p ≡ true) ↔ (o ≡ p)
option_beq_iff none none = ground arith
option_beq_iff none (some y) = ground arith
option_beq_iff (some x) none = ground arith
option_beq_iff ⦃e⦄ (some x) (some y) = ground (arith, e.beq_iff x y)

instance abbrev pub List-keys {ℓ} : {A : Type ℓ} ⦃e : Eq A⦄ → Eq (List A)
List-keys = record { beq = list_beq; beq_iff = list_beq_iff }

instance abbrev pub Option-keys {ℓ} : {A : Type ℓ} ⦃e : Eq A⦄ → Eq (Option A)
Option-keys = record { beq = option_beq; beq_iff = option_beq_iff }

-- A choice on equality, for proofs.
pub eq_or_ne {ℓ} : {A : Type ℓ} ⦃e : Eq A⦄ (a b : A) → (a ≡ b) ⊎ (a ≢ b)
eq_or_ne ⦃e⦄ a b = elim (Bool-cases (e.beq a b)) [
  | inl same ↦ inl ((e.beq_iff a b).0 same)
  | inr other ↦ inr (λ p. cc (other, (e.beq_iff a b).1 p))
]

-- Nothing stands twice in the list.
abbrev pub Distinct {ℓ} : {A : Type ℓ} ⦃e : Eq A⦄ → List A → Type 0
Distinct [] = Unit
Distinct (x ∷ xs) = (contains x xs ≡ false) × Distinct xs
