-- ===== src/Schema/Plan/Tests.antt =====
-- Plans for plan.py.
use investment_intelligence.Prelude.{◌≡◌, refl, ◌↔◌}
use investment_intelligence.Prelude.Float.{nan}
use investment_intelligence.Prelude.Outcome.{ok, err}
use investment_intelligence.Prelude.Text.{is_ulid_text, is_blank, text_length}
use investment_intelligence.Schema.Samples.{plain, sample}
use investment_intelligence.Schema.Advice.{misdated}
use investment_intelligence.Schema.Plan.{
  PlanError, validate, check_fields, check_model, context_ok, misordered_prices,
}
use investment_intelligence.Schema.Plan.Contract.{Rules, validate_iff_Rules}

sample_ok : validate plain sample ≡ ok tt
unfolding validate check_fields check_model context_ok misordered_prices misdated is_ulid_text
    is_blank text_length
sample_ok = refl

nan_target : validate plain (record sample { target_price = nan }) ≡ err PlanError.bad_price
unfolding validate check_fields check_model context_ok misordered_prices misdated is_ulid_text
    is_blank text_length
nan_target = refl

validate_iff_Rules_example :
    (validate plain sample ≡ ok tt) ↔ ((check_fields plain sample ≡ ok tt) × Rules sample)
validate_iff_Rules_example = validate_iff_Rules plain sample
