-- ===== src/Schema.antt =====
-- packages/schema/schema: the envelopes that the agents exchange, and their validators.
pub mod Advice
pub mod Plan
pub mod Samples
use investment_intelligence.Prelude.{◌≡◌, Bool, String, ◌&&◌}
use investment_intelligence.Prelude.Int.{ℤ, leb_ℤ}
use investment_intelligence.Prelude.Float.{Float, real}

-- What the models take from pydantic and python-ulid: the `ge`/`le` constraints of a float field,
-- which on numbers are the order, and `ULID.from_str` without an exception.
pub record Validators : Type 0 where
  pub within : ℤ → ℤ → Float → Bool
  pub at_least : ℤ → Float → Bool
  pub ulid_parses : String → Bool
  pub within_real : (lo hi x : ℤ) → within lo hi (real x) ≡ (leb_ℤ lo x && leb_ℤ x hi)
  pub at_least_real : (lo x : ℤ) → at_least lo (real x) ≡ leb_ℤ lo x

pub data AssetKind : Type 0 where
  equity etf future option fx crypto bond : AssetKind

pub data EvidenceKind : Type 0 where
  news filing factor macro social filing_url : EvidenceKind
