-- ===== src/Schema/Samples.antt =====
-- Envelopes and constraints for the tests of several parts.
use investment_intelligence.Prelude.{refl, true, none, some, [], ◌∷◌, ◌&&◌}
use investment_intelligence.Prelude.Int.{pos}
use investment_intelligence.Prelude.Float.{real, float_le}
use investment_intelligence.Schema.{Validators, AssetKind, EvidenceKind}
use investment_intelligence.Schema.Plan.{Team, buy, PlanV1}

abbrev pub plain : Validators
plain = record {
  within = λ lo hi x. float_le (real lo) x && float_le x (real hi);
  at_least = λ lo x. float_le (real lo) x;
  ulid_parses = λ _. true;
  within_real = λ lo hi x. refl;
  at_least_real = λ lo x. refl;
}

abbrev pub sample : PlanV1
sample = record {
  id = "01ARZ3NDEKTSV4RRFFQ69G5FAV";
  team = Team.persona;
  persona_slug = some "buffett";
  issued_at = 1000;
  asset = record { kind = AssetKind.equity; ticker = "AAPL"; venue = "NASDAQ"; name = none };
  action = buy;
  entry_price = real (pos 100);
  entry_window_open = 1000;
  entry_window_close = 1500;
  target_price = real (pos 120);
  stop_loss = real (pos 90);
  max_drawdown_pct = real (pos 0);
  horizon_days = pos 30;
  sizing_pct_nav = real (pos 0);
  confidence = real (pos 500_000);
  thesis = "cheap";
  evidence = record { kind = EvidenceKind.filing; ref = none; url = none } ∷ [];
  portfolio_context = none;
  expires_at = 2000;
  disclaimer = some "not advice";
}
