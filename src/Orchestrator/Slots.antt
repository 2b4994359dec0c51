-- ===== src/Orchestrator/Slots.antt =====
-- apps/orchestrator/orchestrator/execute/concurrency.py: the slots of the calls of the Pro tier.
-- `_claim` is a loop of scans: before each SET NX of a scan, and before the clock is compared with the
-- deadline, other processes may act on the store, and the clock moves. `try_slots` is a scan that nobody
-- acts in, at one time. Times are milliseconds.
pub mod Calls
pub mod Claim
pub mod Turns
pub mod Expiry
mod Tests
use investment_intelligence.Prelude.{
  ℕ, zero, suc, ◌+◌, ◌*◌, Bool, true, false, Option, none, some, String, ltb, if◌then◌else◌,
}
use Prim.Native.String.{◌++◌ as str_append}
use investment_intelligence.Prelude.Decimal.{show}
use investment_intelligence.Orchestrator.Backend.{Backend}

-- Seconds.
abbrev pub slot_ttl_s : ℕ
slot_ttl_s = 300

-- How `_claim` ends.
pub data Claimed : Type 0 where
  claimed : ℕ → Claimed
  timed_out out_of_fuel : Claimed

pub slot_key : ℕ → String
slot_key slot = str_append "lock:pro_concurrency:" (show slot)

module _ {S : Type 0} (b : Backend S) where
  -- The exit of `acquire_pro_slot`, on every path.
  pub release : ℕ → S → S
  release slot s = b.delete (slot_key slot) s

module _ {S : Type 0} (b : Backend S) (holder : String) where
  -- The loop over `range(1, capacity + 1)`: `left` slots are still to be tried, from `slot` on.
  pub first_free : ℕ → ℕ → ℕ → S → Option ℕ × S
  first_free zero slot now s = (none, s)
  first_free (suc left) slot now s =
      let set = b.set_nx (slot_key slot) holder slot_ttl_s now s in
      let rest = first_free left (slot + 1) now set.1 in if set.0 then (some slot, set.1) else rest

  pub try_slots : ℕ → ℕ → S → Option ℕ × S
  try_slots capacity now s = first_free capacity 1 now s

  -- Steps are counted through the whole loop: `clock` is the time at a step, and `others` is what others
  -- have done to the store just before it. `deadline` is the start plus `timeout_s`.
  module _ (capacity deadline : ℕ) (clock : ℕ → ℕ) (others : ℕ → S → S) where
    -- The loop over `range(1, capacity + 1)`, a step for each slot: the slot that was set, if one was,
    -- the step that is next, and the store.
    pub scan : ℕ → ℕ → ℕ → S → Option ℕ × (ℕ × S)
    scan zero slot step s = (none, (step, s))
    scan (suc left) slot step s =
        let set = b.set_nx (slot_key slot) holder slot_ttl_s (clock step) (others step s) in
        let rest = scan left (slot + 1) (step + 1) set.1 in
        if set.0 then (some slot, (step + 1, set.1)) else rest

    -- The clock is read at the step after the scan, and the sleep is part of the next one.
    pub claim : ℕ → ℕ → S → Claimed × S
    claim zero step s = (out_of_fuel, s)
    claim (suc fuel) step s =
        let (found, (after, s')) = scan capacity 1 step s in
        let rest = claim fuel (after + 1) s' in
        elim found [
          | some slot ↦ (claimed slot, s')
          | none ↦ if ltb deadline (clock after) then (timed_out, s') else rest
        ]
