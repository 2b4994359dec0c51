-- ===== src/Schema/Advice.antt =====
-- packages/schema/schema/advice.py: `AdviceV1` and its validators.
-- A datetime is a number of microseconds; every check compares two of one envelope.
pub mod Contract
mod Tests
use text.Mathlib.Text.{starts_with}
use investment_intelligence.Prelude.{
  ℕ, ◌+◌, ◌*◌, Bool, true, false, not, ◌&&◌, ◌||◌, Option, List, [], ◌∷◌, String, leb, ltb,
}
use investment_intelligence.Prelude.Int.{ℤ, pos, leb_ℤ}
use investment_intelligence.Prelude.Float.{Float, one, float_lt, float_le, float_eq}
use investment_intelligence.Prelude.Outcome.{Result, ok, err, raise_if, ◌>>◌}
use investment_intelligence.Prelude.Text.{codes, is_blank?, text_length, is_ulid_text}
use investment_intelligence.Schema.{Validators, AssetKind, EvidenceKind}

pub data Direction : Type 0 where
  long short flat : Direction

pub record Asset : Type 0 where
  pub kind : AssetKind
  pub ticker : String
  pub venue : String
  pub name : Option String

pub record Evidence : Type 0 where
  pub kind : EvidenceKind
  pub ref : Option String
  pub url : Option String

pub record AdviceV1 : Type 0 where
  pub id : String
  pub agent : String
  pub issued_at : ℕ
  pub asset : Asset
  pub thesis : String
  pub direction : Direction
  pub confidence : Float
  pub entry_band : Float × Float
  pub target_band : Float × Float
  pub stop_loss : Float
  pub horizon_days : ℤ
  pub max_drawdown_pct : Float
  pub sizing_hint_pct_nav : Float
  pub expires_at : ℕ
  pub evidence : List Evidence
  pub disclaimer : Option String

pub data AdviceError : Type 0 where
  bad_id too_long bad_confidence bad_horizon bad_drawdown bad_sizing : AdviceError
  descending_band inconsistent_prices no_evidence bad_expiry no_disclaimer : AdviceError

abbrev pub day : ℕ
day = 86_400_000_000

abbrev pub max_horizon_days : ℕ
max_horizon_days = 365

-- `_band_ascending` raises.
pub descending : Float × Float → Bool
descending (lo, hi) = float_lt hi lo

-- `_direction_consistency` raises.
pub inconsistent : Direction → Float × Float → Float × Float → Float → Bool
inconsistent long (entry_lo, entry_hi) (target_lo, target_hi) stop_loss =
    float_le target_lo entry_hi || float_le entry_lo stop_loss
inconsistent short (entry_lo, entry_hi) (target_lo, target_hi) stop_loss =
    float_le entry_lo target_hi || float_le stop_loss entry_hi
inconsistent flat (entry_lo, entry_hi) (target_lo, target_hi) stop_loss =
    not (float_eq entry_lo entry_hi && float_eq entry_hi target_lo && float_eq target_lo target_hi)

abbrev pub is_flat : Direction → Bool
is_flat flat = true
is_flat _ = false

abbrev pub is_empty : List Evidence → Bool
is_empty [] = true
is_empty (_ ∷ _) = false

-- `_evidence_required_when_directional` raises.
pub uncited : Direction → List Evidence → Bool
uncited direction evidence = not (is_flat direction) && is_empty evidence

-- `_expiry_within_one_year` raises.
unfoldable pub misdated : ℕ → ℕ → Bool
misdated issued_at expires_at =
    leb expires_at issued_at || ltb (issued_at + max_horizon_days * day) expires_at

-- `_persona_requires_disclaimer` raises.
pub undisclaimed : String → Option String → Bool
undisclaimed agent disclaimer = starts_with agent "persona." && is_blank? disclaimer

module _ (v : Validators) where
  -- The constraints and the validators of one field each.
  pub check_fields : AdviceV1 → Result AdviceError (Unit {0})
  check_fields a =
      raise_if (not (is_ulid_text a.id && v.ulid_parses a.id)) AdviceError.bad_id
      >> raise_if (ltb 4000 (text_length (codes a.thesis))) AdviceError.too_long
      >> raise_if (not (v.within (pos 0) (pos one) a.confidence)) AdviceError.bad_confidence
      >> raise_if (descending a.entry_band || descending a.target_band) AdviceError.descending_band
      >> raise_if (not (leb_ℤ (pos 1) a.horizon_days && leb_ℤ a.horizon_days (pos (365 * 5))))
          AdviceError.bad_horizon
      >> raise_if (not (v.within (pos 0) (pos (100 * one)) a.max_drawdown_pct))
          AdviceError.bad_drawdown
      >> raise_if (not (v.within (pos 0) (pos (100 * one)) a.sizing_hint_pct_nav))
          AdviceError.bad_sizing

  -- The validators of the whole model, in their order.
  pub check_model : AdviceV1 → Result AdviceError (Unit {0})
  check_model a =
      raise_if (inconsistent a.direction a.entry_band a.target_band a.stop_loss)
        AdviceError.inconsistent_prices
      >> raise_if (uncited a.direction a.evidence) AdviceError.no_evidence
      >> raise_if (misdated a.issued_at a.expires_at) AdviceError.bad_expiry
      >> raise_if (undisclaimed a.agent a.disclaimer) AdviceError.no_disclaimer

  -- `AdviceV1.model_validate`
  pub validate : AdviceV1 → Result AdviceError (Unit {0})
  validate a = check_fields a >> check_model a
