-- ===== src/Lake/Chain.antt =====
-- A chain of digests, as advice_ledger.py computes it: each link hashes the digest before it,
-- followed by the bytes of its own payload. `sha256` is hashlib's.
use investment_intelligence.Prelude.{
  ℕ, ◌≡◌, refl, ◌≢◌, ◌⊎◌, inl, inr, Option, none, some, List, [], ◌∷◌, ◌++◌, arith, length, ap,
}
use investment_intelligence.Prelude.Keys.{ℕ-keys, List-keys, eq_or_ne}

abbrev pub Bytes : Type 0
Bytes = List ℕ

-- Two inputs that differ and hash alike.
pub record Collision {A B : Type 0} (digest : A → B) : Type 0 where
  pub left : A
  pub right : A
  pub differ : left ≢ right
  pub same_hash : digest left ≡ digest right

module _ (sha256 : Bytes → Bytes) where
  -- `compute_row_hash`, on the canonical bytes of the payload
  abbrev pub row_digest : Option Bytes → Bytes → Bytes
  row_digest none payload = sha256 payload
  row_digest (some prev) payload = sha256 (prev ++ payload)

  -- The digest at the end of a chain.
  abbrev pub digest_of : Option Bytes → List Bytes → Option Bytes
  digest_of prev [] = prev
  digest_of prev (p ∷ ps) = digest_of (some (row_digest prev p)) ps

-- Both chains start afresh, or both go on from digests of one length.
abbrev pub SameStart : Option Bytes → Option Bytes → Type 0
SameStart none none = Unit
SameStart (some a) (some b) = length a ≡ length b
SameStart _ _ = ⊥

append_inj : (a b x y : Bytes) → length a ≡ length b → a ++ x ≡ b ++ y → (a ≡ b) × (x ≡ y)
append_inj [] [] x y h e = (refl, e)
append_inj [] (_ ∷ _) x y h e = absurd (omega arith)
append_inj (_ ∷ _) [] x y h e = absurd (omega arith)
append_inj (i ∷ a) (j ∷ b) x y h e =
    let (p, q) = append_inj a b x y (omega arith) (cc) in (cc (p, e), q)

module _ (sha256 : Bytes → Bytes) (width : ℕ)
    (fixed : (x : Bytes) → length (sha256 x) ≡ width) where
  step_inj :
      (a b : Option Bytes) (x y : Bytes)
      → SameStart a b
      → row_digest sha256 a x ≡ row_digest sha256 b y
      → ((a ≡ b) × (x ≡ y)) ⊎ Collision sha256
  step_inj none none x y s e = elim (eq_or_ne x y) [
    | inl same ↦ inl (refl, same)
    | inr other ↦ inr (record { left = x; right = y; differ = other; same_hash = e })
  ]
  step_inj (some a) (some b) x y s e = elim (eq_or_ne (a ++ x) (b ++ y)) [
    | inl same ↦ let (p, q) = append_inj a b x y s same in inl (ap some p, q)
    | inr other ↦ inr (record { left = a ++ x; right = b ++ y; differ = other; same_hash = e })
  ]
  step_inj none (some b) x y s e = elim s [ ]
  step_inj (some a) none x y s e = elim s [ ]

  width_of : (a : Option Bytes) (x : Bytes) → length (row_digest sha256 a x) ≡ width
  width_of none x = fixed x
  width_of (some a) x = fixed (a ++ x)

  -- Chains of one length that end in one digest hold the same payloads, or show a collision.
  pub digest_of-inj :
      (a b : Option Bytes) (xs ys : List Bytes)
      → SameStart a b
      → length xs ≡ length ys
      → digest_of sha256 a xs ≡ digest_of sha256 b ys
      → ((a ≡ b) × (xs ≡ ys)) ⊎ Collision sha256
  digest_of-inj a b [] [] s n e = inl (e, refl)
  digest_of-inj a b [] (_ ∷ _) s n e = absurd (omega arith)
  digest_of-inj a b (_ ∷ _) [] s n e = absurd (omega arith)
  digest_of-inj a b (x ∷ xs) (y ∷ ys) s n e =
      elim (digest_of-inj (some (row_digest sha256 a x)) (some (row_digest sha256 b y)) xs ys
        (omega (arith, width_of a x, width_of b y)) (omega arith) e) [
          | inr found ↦ inr found
          | inl (p, q) ↦ elim (step_inj a b x y s (ground arith)) [
            | inr found ↦ inr found
            | inl (r, t) ↦ inl (r, cc)
          ]
        ]
