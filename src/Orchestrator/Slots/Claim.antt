-- ===== src/Orchestrator/Slots/Claim.antt =====
-- What a scan of the slots that nobody acts in does, for concurrency.py.
use text.Mathlib.TextLemmas.{append_cancel_left}
use investment_intelligence.Prelude.{
  ℕ, zero, suc, ◌+◌, ◌≤◌, ◌<◌, ◌≡◌, refl, sym, ap, ◌∙◌, inl, inr, true, false, Option, none, some,
  String, arith, Bool-cases,
}
use investment_intelligence.Prelude.Pigeonhole.{Within}
use investment_intelligence.Prelude.Keys.{eq_or_ne, ℕ-keys}
use investment_intelligence.Prelude.Decimal.{show-injective}
use investment_intelligence.Orchestrator.Backend.{Backend}
use investment_intelligence.Orchestrator.Slots.{slot_ttl_s, slot_key, first_free, try_slots}

pub slot_key-injective : (j k : ℕ) → slot_key j ≡ slot_key k → j ≡ k
unfolding slot_key
slot_key-injective j k e = show-injective j k (append_cancel_left "lock:pro_concurrency:" _ _ e)

module _ {S : Type 0} (b : Backend S) (holder : String) where
  -- A slot that was found was free, and is set now. Nothing else has changed.
  pub record Found (now : ℕ) (s s' : S) (k : ℕ) : Type 0 where
    pub free : b.present now s (slot_key k) ≡ false
    pub taken : (b.set_nx (slot_key k) holder slot_ttl_s now s).0 ≡ true
    pub after : s' ≡ (b.set_nx (slot_key k) holder slot_ttl_s now s).1

  pub refused-present :
      (k now : ℕ) (s : S)
      → (b.set_nx (slot_key k) holder slot_ttl_s now s).0 ≡ false
      → (b.present now s (slot_key k) ≡ true)
        × ((b.set_nx (slot_key k) holder slot_ttl_s now s).1 ≡ s)
  refused-present k now s h =
      let (_, free, kept) = b.set_nx_answers (slot_key k) holder slot_ttl_s now s in
      (ground arith, kept h)

  pub first_free_set :
      (left slot now : ℕ) (s : S)
      → (b.set_nx (slot_key slot) holder slot_ttl_s now s).0 ≡ true
      → first_free b holder (suc left) slot now s
        ≡ (some slot, (b.set_nx (slot_key slot) holder slot_ttl_s now s).1)
  unfolding first_free
  first_free_set left slot now s h = rw h

  pub first_free_next :
      (left slot now : ℕ) (s : S)
      → (b.set_nx (slot_key slot) holder slot_ttl_s now s).0 ≡ false
      → first_free b holder (suc left) slot now s ≡ first_free b holder left (slot + 1) now s
  unfolding first_free
  first_free_next left slot now s h = rw (h, (refused-present slot now s h).1)

  -- Where a slot is found, it was free; where none is, every slot is held and nothing has changed.
  Scanned : ℕ → ℕ → ℕ → S → Option ℕ × S → Type 0
  Scanned left slot now s (some k, s') = (slot ≤ k) × (k < slot + left) × Found now s s' k
  Scanned left slot now s (none, s') =
      (s' ≡ s) × ((k : ℕ) → slot ≤ k → k < slot + left → b.present now s (slot_key k) ≡ true)

  widen :
      (left slot now : ℕ) (s : S) (r : Option ℕ × S)
      → b.present now s (slot_key slot) ≡ true
      → Scanned left (slot + 1) now s r
      → Scanned (suc left) slot now s r
  unfolding Scanned
  widen left slot now s (some k, s') held (lo, hi, f) = (omega arith, omega arith, f)
  widen left slot now s (none, s') held (same, all) = (
    same,
    λ k lo hi. elim (eq_or_ne slot k) [
      | inl e ↦ ap (λ j. b.present now s (slot_key j)) (sym e) ∙ held
      | inr ne ↦ all k (ground arith) (omega arith)
    ],
  )

  first_free-Scanned :
      (left slot now : ℕ) (s : S) → Scanned left slot now s (first_free b holder left slot now s)
  unfolding Scanned
  first_free-Scanned zero slot now s = unfold first_free in (refl, λ k lo hi. absurd (omega arith))
  first_free-Scanned (suc left) slot now s =
      elim (Bool-cases (b.set_nx (slot_key slot) holder slot_ttl_s now s).0) [
        | inl set ↦ rw (first_free_set left slot now s set) (
          omega arith,
          omega arith,
          record {
            free = (b.set_nx_answers (slot_key slot) holder slot_ttl_s now s).0 set;
            taken = set;
            after = refl;
          },
        )
        | inr refused ↦ rw (first_free_next left slot now s refused) (
            widen left slot now s _ (refused-present slot now s refused).0
              (first_free-Scanned left (slot + 1) now s))
      ]

  try_slots-Scanned :
      (capacity now : ℕ) (s : S) → Scanned capacity 1 now s (try_slots b holder capacity now s)
  unfolding try_slots
  try_slots-Scanned capacity now s = first_free-Scanned capacity 1 now s

  Scanned-some :
      (capacity now k : ℕ) (s : S) (r : Option ℕ × S)
      → Scanned capacity 1 now s r
      → r.0 ≡ some k
      → Within capacity k × Found now s r.1 k
  unfolding Scanned
  Scanned-some capacity now k s (none, s') scan e = absurd (cc)
  Scanned-some capacity now k s (some j, s') (lo, hi, f) e =
      let same : j ≡ k = ground arith in rw (← same) (omega arith, f)

  Scanned-none :
      (capacity now : ℕ) (s : S) (r : Option ℕ × S)
      → Scanned capacity 1 now s r
      → r.0 ≡ none
      → (r.1 ≡ s) × ((k : ℕ) → Within capacity k → b.present now s (slot_key k) ≡ true)
  unfolding Scanned
  Scanned-none capacity now s (some j, s') scan e = absurd (cc)
  Scanned-none capacity now s (none, s') (same, held) e =
      (same, λ k w. held k w.0 (omega (arith, w.1)))

  pub try_slots-Found :
      (capacity now k : ℕ) (s : S)
      → (try_slots b holder capacity now s).0 ≡ some k
      → Within capacity k × Found now s (try_slots b holder capacity now s).1 k
  try_slots-Found capacity now k s =
      Scanned-some capacity now k s _ (try_slots-Scanned capacity now s)

  pub try_slots-none :
      (capacity now : ℕ) (s : S)
      → (try_slots b holder capacity now s).0 ≡ none
      → ((try_slots b holder capacity now s).1 ≡ s)
        × ((k : ℕ) → Within capacity k → b.present now s (slot_key k) ≡ true)
  try_slots-none capacity now s = Scanned-none capacity now s _ (try_slots-Scanned capacity now s)
