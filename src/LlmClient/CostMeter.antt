-- ===== src/LlmClient/CostMeter.antt =====
-- packages/llm-client/llm_client/cost_meter.py: the monthly budget.
-- Costs are multiples of 10^-6 USD, added exactly; an unbounded cap is none. A day is a number of
-- days, and the clock counts seconds. The spend is the in-memory store's.
pub mod Budget
mod Tests
use investment_intelligence.Prelude.{
  ℕ, ◌+◌, ◌*◌, Bool, true, false, not, ◌&&◌, ◌||◌, Option, none, some, List, [], ◌∷◌, leb, ◌==◌,
  if◌then◌else◌,
}
use investment_intelligence.LlmClient.Matrix.{LlmTier, flash, pro, embed}

pub record SpendKey : Type 0 where
  pub day : ℕ
  pub tier : LlmTier
  pub fallback : Bool

abbrev pub same_tier : LlmTier → LlmTier → Bool
same_tier flash flash = true
same_tier pro pro = true
same_tier embed embed = true
same_tier _ _ = false

abbrev pub same_bool : Bool → Bool → Bool
same_bool true b = b
same_bool false b = not b

abbrev pub same_key : SpendKey → SpendKey → Bool
same_key a b = (a.day == b.day) && same_tier a.tier b.tier && same_bool a.fallback b.fallback

-- `InMemorySpendStore.rows`
abbrev pub Rows : Type 0
Rows = List (SpendKey × ℕ)

-- `rows[key] = rows.get(key, 0.0) + cost_usd`
abbrev pub add_cost : SpendKey → ℕ → Rows → Rows
add_cost key cost [] = (key, cost) ∷ []
add_cost key cost ((k, c) ∷ rows) =
    if same_key k key then (k, c + cost) ∷ rows else (k, c) ∷ add_cost key cost rows

-- `day >= since and (not fallback_only or fb)`, with `since` 30 days before `today`
abbrev pub counts : ℕ → Bool → SpendKey → Bool
counts today fallback_only k = leb today (k.day + 30) && (not fallback_only || k.fallback)

abbrev pub total_spend : ℕ → Bool → Rows → ℕ
total_spend today fallback_only [] = 0
total_spend today fallback_only ((k, c) ∷ rows) =
    (if counts today fallback_only k then c else 0) + total_spend today fallback_only rows

pub data BreakerState : Type 0 where
  closed opened half_open : BreakerState

pub record Config : Type 0 where
  pub monthly_cap_usd : Option ℕ
  pub fallback_cap_usd : Option ℕ
  pub cooldown_seconds : ℕ

pub record CostMeter : Type 0 where
  pub rows : Rows
  pub state : BreakerState
  pub opened_at : ℕ

-- `spent >= cap`
abbrev pub reaches : ℕ → Option ℕ → Bool
reaches spent none = false
reaches spent (some cap) = leb cap spent

-- The property `state`, which may leave OPEN.
abbrev pub refresh : Config → ℕ → BreakerState → ℕ → BreakerState
refresh cfg now closed opened_at = closed
refresh cfg now half_open opened_at = half_open
refresh cfg now opened opened_at =
    if leb (opened_at + cfg.cooldown_seconds) now then half_open else opened

abbrev pub is_open : BreakerState → Bool
is_open opened = true
is_open _ = false

abbrev open_at : ℕ → CostMeter → CostMeter
open_at now m = record m { state = opened; opened_at = now }

-- The budgets, for a meter that is not open.
abbrev pub check_caps : Config → ℕ → ℕ → Bool → CostMeter → Bool × CostMeter
check_caps cfg now today fallback m =
    if reaches (total_spend today false m.rows) cfg.monthly_cap_usd
    then (false, open_at now m)
    else if fallback && reaches (total_spend today true m.rows) cfg.fallback_cap_usd
    then (false, open_at now m)
    else (true, m)

abbrev pub refreshed : Config → ℕ → CostMeter → CostMeter
refreshed cfg now m = record m { state = refresh cfg now m.state m.opened_at }

unfoldable pub allow : Config → ℕ → ℕ → Bool → CostMeter → Bool × CostMeter
allow cfg now today fallback m =
    if is_open (refresh cfg now m.state m.opened_at)
    then (false, refreshed cfg now m)
    else check_caps cfg now today fallback (refreshed cfg now m)

-- `soft_fraction` is `part` of `whole`.
pub soft_breach : Config → ℕ → ℕ → ℕ → CostMeter → Bool
soft_breach cfg part whole today m = elim cfg.monthly_cap_usd [
  | none ↦ false
  | some cap ↦ leb (cap * part) (total_spend today false m.rows * whole)
]

-- `record`, on the tier, the fallback flag and the cost of a response
unfoldable pub record_cost : ℕ → LlmTier → Bool → ℕ → CostMeter → CostMeter
record_cost today tier fallback cost m = record m {
  rows = add_cost (record { day = today; tier = tier; fallback = fallback }) cost m.rows;
}

pub reset : CostMeter → CostMeter
reset m = record m { state = closed; opened_at = 0 }
