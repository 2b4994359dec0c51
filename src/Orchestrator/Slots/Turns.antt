-- ===== src/Orchestrator/Slots/Turns.antt =====
-- How the loop of `_claim` in concurrency.py ends, whatever others do within a scan and between scans.
use investment_intelligence.Prelude.{
  ℕ, zero, suc, ◌+◌, ◌≤◌, ◌<◌, ◌≡◌, true, Option, none, some, String,
}
use investment_intelligence.Prelude.Pigeonhole.{Within}
use investment_intelligence.Orchestrator.Backend.{Backend}
use investment_intelligence.Orchestrator.Slots.{slot_key, Claimed, claimed, timed_out, out_of_fuel}
use investment_intelligence.Orchestrator.Slots.Claim.{Found}

module _ {S : Type 0} (b : Backend S) (holder : String) (capacity deadline : ℕ) (clock : ℕ → ℕ)
    (others : ℕ → S → S) where
  -- The store after what others do in a number of steps.
  pub played : ℕ → ℕ → S → S
  played zero step s = s
  played (suc steps) step s = played steps (step + 1) (others step s)

  -- Each of the slots from `slot` on was held in the step in which it was tried, one slot a step.
  pub HeldInTurn : ℕ → ℕ → ℕ → S → Type 0
  HeldInTurn zero slot step s = Unit
  HeldInTurn (suc left) slot step s =
      (b.present (clock step) (others step s) (slot_key slot) ≡ true)
      × HeldInTurn left (slot + 1) (step + 1) (others step s)

  -- At some step the slot was free, and was set.
  abbrev pub FoundAt : ℕ → S → Type 0
  FoundAt k s' = (step : ℕ) × (s : S) × Found b holder (clock step) (others step s) s' k

  Scanned : ℕ → ℕ → ℕ → S → Option ℕ × (ℕ × S) → Type 0
  Scanned left slot step s (some k, (after, s')) = (slot ≤ k) × (k < slot + left) × FoundAt k s'
  Scanned left slot step s (none, (after, s')) =
      (after ≡ step + left) × (s' ≡ played left step s) × HeldInTurn left slot step s

  -- What the loop may end with.
  pub Settled : Claimed × S → Type 0
  Settled (claimed k, s') = Within capacity k × FoundAt k s'
  Settled (timed_out, s') =
      (first : ℕ) × (s : S) × (deadline < clock (first + capacity))
      × (s' ≡ played capacity first s)
      × HeldInTurn capacity 1 first s
  Settled (out_of_fuel, s') = ⊥
