-- ===== src/Schema/Advice/Tests.antt =====
-- Envelopes for advice.py.
use investment_intelligence.Prelude.{◌≡◌, refl, ◌↔◌, none, some, [], ◌∷◌}
use investment_intelligence.Prelude.Int.{pos}
use investment_intelligence.Prelude.Float.{real}
use investment_intelligence.Prelude.Outcome.{ok, err}
use investment_intelligence.Prelude.Text.{is_ulid_text, is_blank, text_length}
use investment_intelligence.Schema.Samples.{plain}
use investment_intelligence.Schema.{AssetKind, EvidenceKind}
use investment_intelligence.Schema.Advice.{
  long, AdviceV1, AdviceError, validate, check_fields, check_model, descending, inconsistent,
  uncited, misdated, undisclaimed,
}
use investment_intelligence.Schema.Advice.Contract.{
  Prices, Contract, validate_iff_Contract, with_nan_bands, nan_bands_accepted,
}

abbrev sample : AdviceV1
sample = record {
  id = "01ARZ3NDEKTSV4RRFFQ69G5FAV";
  agent = "persona.buffett";
  issued_at = 1000;
  asset = record { kind = AssetKind.equity; ticker = "AAPL"; venue = "NASDAQ"; name = none };
  thesis = "cheap";
  direction = long;
  confidence = real (pos 500_000);
  entry_band = (real (pos 100), real (pos 110));
  target_band = (real (pos 120), real (pos 130));
  stop_loss = real (pos 90);
  horizon_days = pos 30;
  max_drawdown_pct = real (pos 0);
  sizing_hint_pct_nav = real (pos 0);
  expires_at = 2000;
  evidence = record { kind = EvidenceKind.filing; ref = none; url = none } ∷ [];
  disclaimer = some "not advice";
}

abbrev prices : Prices
prices = record {
  entry_lo = pos 100;
  entry_hi = pos 110;
  target_lo = pos 120;
  target_hi = pos 130;
  stop = pos 90;
}

sample_ok : validate plain sample ≡ ok tt
unfolding validate check_fields check_model descending inconsistent uncited misdated undisclaimed
    is_ulid_text is_blank text_length
sample_ok = refl

sample_blank_disclaimer :
    validate plain (record sample { disclaimer = some "  " }) ≡ err AdviceError.no_disclaimer
unfolding validate check_fields check_model descending inconsistent uncited misdated undisclaimed
    is_ulid_text is_blank text_length
sample_blank_disclaimer = refl

validate_iff_Contract_example :
    (validate plain sample ≡ ok tt) ↔ Contract plain sample prices (pos 500_000) (pos 0) (pos 0)
validate_iff_Contract_example =
    validate_iff_Contract plain sample prices (pos 500_000) (pos 0) (pos 0) (record {
      entry = refl;
      target = refl;
      stop = refl;
      confidence_real = refl;
      drawdown_real = refl;
      sizing_real = refl;
    })

nan_bands_pass : validate plain (with_nan_bands sample) ≡ ok tt
nan_bands_pass = nan_bands_accepted plain sample (λ e. cc) sample_ok
