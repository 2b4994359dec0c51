-- ===== src/Schema/Plan.antt =====
-- packages/schema/schema/plan.py: `PlanV1` and its validators. Datetimes are in microseconds.
pub mod Contract
mod Tests
use investment_intelligence.Prelude.{
  ℕ, ◌+◌, ◌-◌, ◌*◌, Bool, true, false, not, ◌&&◌, ◌||◌, Option, none, some, List, [], ◌∷◌, String,
  leb, ltb,
}
use investment_intelligence.Prelude.Int.{ℤ, pos, negsuc, leb_ℤ}
use investment_intelligence.Prelude.Float.{Float, one, float_lt}
use investment_intelligence.Prelude.Outcome.{Result, ok, err, raise_if, ◌>>◌}
use investment_intelligence.Prelude.Text.{codes, is_blank?, text_length, is_ulid_text}
use investment_intelligence.Schema.{Validators}
use investment_intelligence.Schema.Advice.{Asset, Evidence, is_empty, misdated, max_horizon_days}

pub data Team : Type 0 where
  quant fundamental persona intel : Team

pub data Action : Type 0 where
  buy sell hold : Action

pub record PortfolioContextV1 : Type 0 where
  pub current_position_pct_nav : Float
  pub open_orders_count : ℤ
  pub cost_basis_per_share : Option Float
  pub base_currency : String

pub record PlanV1 : Type 0 where
  pub id : String
  pub team : Team
  pub persona_slug : Option String
  pub issued_at : ℕ
  pub asset : Asset
  pub action : Action
  pub entry_price : Float
  pub entry_window_open : ℕ
  pub entry_window_close : ℕ
  pub target_price : Float
  pub stop_loss : Float
  pub max_drawdown_pct : Float
  pub horizon_days : ℤ
  pub sizing_pct_nav : Float
  pub confidence : Float
  pub thesis : String
  pub evidence : List Evidence
  pub portfolio_context : Option PortfolioContextV1
  pub expires_at : ℕ
  pub disclaimer : Option String

pub data PlanError : Type 0 where
  bad_id bad_price bad_drawdown bad_horizon bad_sizing bad_confidence too_long : PlanError
  bad_context bad_window misordered no_evidence no_slug stray_slug no_disclaimer : PlanError
  bad_expiry : PlanError

abbrev pub is_hold : Action → Bool
is_hold hold = true
is_hold _ = false

abbrev pub is_persona : Team → Bool
is_persona persona = true
is_persona _ = false

-- `_action_price_ordering` raises: the chained comparison is negated as a whole.
pub misordered_prices : Action → Float → Float → Float → Bool
misordered_prices buy entry target stop = not (float_lt entry target && float_lt stop entry)
misordered_prices sell entry target stop = not (float_lt entry stop && float_lt target entry)
misordered_prices hold entry target stop = false

abbrev is_nil : List ℕ → Bool
is_nil [] = true
is_nil (_ ∷ _) = false

-- `bool(self.persona_slug)`: a text that is not empty
abbrev pub is_set : Option String → Bool
is_set none = false
is_set (some s) = not (is_nil (codes s))

module _ (v : Validators) where
  abbrev pub cost_ok : Option Float → Bool
  cost_ok none = true
  cost_ok (some x) = v.at_least (pos 0) x

  -- The constraints of `PortfolioContextV1`, where there is one.
  pub context_ok : Option PortfolioContextV1 → Bool
  context_ok none = true
  context_ok (some c) =
      v.within (negsuc (100 * one - 1)) (pos (100 * one)) c.current_position_pct_nav
      && leb_ℤ (pos 0) c.open_orders_count
      && cost_ok c.cost_basis_per_share

  pub check_fields : PlanV1 → Result PlanError (Unit {0})
  check_fields p =
      raise_if (not (is_ulid_text p.id && v.ulid_parses p.id)) PlanError.bad_id
      >> raise_if
          (not (
            v.at_least (pos 0) p.entry_price
            && v.at_least (pos 0) p.target_price
            && v.at_least (pos 0) p.stop_loss))
          PlanError.bad_price
      >> raise_if (not (v.within (pos 0) (pos (100 * one)) p.max_drawdown_pct))
          PlanError.bad_drawdown
      >> raise_if
          (not (leb_ℤ (pos 1) p.horizon_days && leb_ℤ p.horizon_days (pos max_horizon_days)))
          PlanError.bad_horizon
      >> raise_if (not (v.within (pos 0) (pos (100 * one)) p.sizing_pct_nav)) PlanError.bad_sizing
      >> raise_if (not (v.within (pos 0) (pos one) p.confidence)) PlanError.bad_confidence
      >> raise_if (ltb 4000 (text_length (codes p.thesis))) PlanError.too_long
      >> raise_if (not (context_ok p.portfolio_context)) PlanError.bad_context

  -- The validators of the whole model, in their order.
  pub check_model : PlanV1 → Result PlanError (Unit {0})
  check_model p =
      raise_if (leb p.entry_window_close p.entry_window_open) PlanError.bad_window
      >> raise_if (misordered_prices p.action p.entry_price p.target_price p.stop_loss)
          PlanError.misordered
      >> raise_if (not (is_hold p.action) && is_empty p.evidence) PlanError.no_evidence
      >> raise_if (is_persona p.team && is_blank? p.persona_slug) PlanError.no_slug
      >> raise_if (not (is_persona p.team) && is_set p.persona_slug) PlanError.stray_slug
      >> raise_if (is_persona p.team && is_blank? p.disclaimer) PlanError.no_disclaimer
      >> raise_if (misdated p.issued_at p.expires_at) PlanError.bad_expiry

  -- `PlanV1.model_validate`
  pub validate : PlanV1 → Result PlanError (Unit {0})
  validate p = check_fields p >> check_model p
