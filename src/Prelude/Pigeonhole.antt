-- ===== src/Prelude/Pigeonhole.antt =====
-- How many different numbers a range has room for, and lists with one element taken out.
use Prim.Native.Nat.{ℕ, zero, suc, ◌≤◌}
use mathlib.Core.Path.{◌≡◌, refl}
use mathlib.Core.Logic.{◌≢◌}
use mathlib.Core.Bool.{false, not}
use mathlib.Core.List.{List, [], ◌∷◌, map}
use native.Mathlib.Omega.{arith}
use investment_intelligence.Prelude.Tests.{◌==◌}
use investment_intelligence.Prelude.Lists.{length, keep_if, All}
use investment_intelligence.Prelude.Keys.{ℕ-keys, contains, Distinct}

-- The range from 1 to `n`.
abbrev pub Within : ℕ → ℕ → Type 0
Within n x = (1 ≤ x) × (x ≤ n)

abbrev others : ℕ → List ℕ → List ℕ
others a xs = keep_if (λ x. not (x == a)) xs

contains-others : (a b : ℕ) (xs : List ℕ) → contains b xs ≡ false → contains b (others a xs) ≡ false
contains-others a b [] h = refl
contains-others a b (x ∷ xs) h = ground (arith, contains-others a b xs)

Distinct-others : (a : ℕ) (xs : List ℕ) → Distinct xs → Distinct (others a xs)
Distinct-others a [] d = tt
Distinct-others a (x ∷ xs) d = ground (arith, Distinct-others a xs d.1, contains-others a x xs d.0)

length-others_absent :
    (a : ℕ) (xs : List ℕ) → contains a xs ≡ false → length (others a xs) ≡ length xs
length-others_absent a [] h = refl
length-others_absent a (x ∷ xs) h = ground (arith, length-others_absent a xs)

length-others : (a : ℕ) (xs : List ℕ) → Distinct xs → length xs ≤ suc (length (others a xs))
length-others a [] d = omega arith
length-others a (x ∷ xs) d = ground (arith, length-others a xs d.1, length-others_absent x xs d.0)

Within-others : (n : ℕ) (xs : List ℕ) → All (Within (suc n)) xs → All (Within n) (others (suc n) xs)
Within-others n [] h = tt
Within-others n (x ∷ xs) h = ground (arith, Within-others n xs h.1)

pub pigeonhole : (n : ℕ) (xs : List ℕ) → Distinct xs → All (Within n) xs → length xs ≤ n
pigeonhole zero [] d h = omega arith
pigeonhole zero (x ∷ xs) d h = absurd (omega (arith, h.0))
pigeonhole (suc n) xs d h = omega (
  arith,
  length-others (suc n) xs d,
  pigeonhole n (others (suc n) xs) (Distinct-others (suc n) xs d) (Within-others n xs h),
)

-- The second list is the first without one `a`.
pub data Removes {ℓ} {A : Type ℓ} (a : A) : List A → List A → Type ℓ where
  first : (xs : List A) → Removes a (a ∷ xs) xs
  later : (x : A) {xs ys : List A} → Removes a xs ys → Removes a (x ∷ xs) (x ∷ ys)

module _ {ℓ} {A : Type ℓ} {a : A} where
  pub Removes-All {κ} :
      (P : A → Type κ) {xs ys : List A} → Removes a xs ys → All P xs → P a × All P ys
  Removes-All P (first xs) h = (h.0, h.1)
  Removes-All P (later x r) h = let (pa, rest) = Removes-All P r h.1 in (pa, (h.0, rest))

  Removes-contains :
      (f : A → ℕ) (b : ℕ) {xs ys : List A}
      → Removes a xs ys
      → contains b (map f xs) ≡ false
      → (f a ≢ b) × (contains b (map f ys) ≡ false)
  Removes-contains f b (first xs) h = (λ e. ground arith, ground arith)
  Removes-contains f b (later x r) h =
      let ih = Removes-contains f b r in (λ e. ground (arith, ih), ground (arith, ih))

  pub Removes-Distinct :
      (f : A → ℕ) {xs ys : List A}
      → Removes a xs ys
      → Distinct (map f xs)
      → Distinct (map f ys) × (contains (f a) (map f ys) ≡ false)
  Removes-Distinct f (first xs) d = (d.1, d.0)
  Removes-Distinct f (later x r) d =
      let (rest, absent) = Removes-Distinct f r d.1 in
      let (ne, kept) = Removes-contains f (f x) r d.0 in ((kept, rest), ground arith)
