-- ===== src/LlmClient/Matrix.antt =====
-- packages/llm-client/llm_client/_matrix.py: the tier of each caller.
use text.Mathlib.Text.{starts_with}
use investment_intelligence.Prelude.{
  ℕ, ◌*◌, Bool, true, false, ◌&&◌, ◌||◌, Option, none, some, [], ◌∷◌, String, ltb, if◌then◌else◌,
}
use investment_intelligence.Prelude.Keys.{String-keys}
use investment_intelligence.Prelude.Dict.{Dict}
use investment_intelligence.Prelude.Dict
use investment_intelligence.Orchestrator.Sla.{ends_with}

pub data LlmTier : Type 0 where
  flash pro embed : LlmTier

-- The signals that the rules read, with their defaults filled in.
pub record RuntimeSignals : Type 0 where
  pub filing_pages : ℕ
  pub regime_change : Bool
  pub weekly_deepdive : Bool
  pub explain_deeply : Bool
  pub multi_step_question : Bool

-- `escalate_when`; `never` is None.
pub data EscalateRule : Type 0 where
  never always filing_over_200_pages on_regime_change persona_weekly_deepdive
        secretary_explain_deeply :
      EscalateRule

pub record CallerSpec : Type 0 where
  pub default_tier : LlmTier
  pub escalate_when : EscalateRule
  pub cache_eligible : Bool
  pub cache_ttl_seconds : Option ℕ

abbrev pub escalates : EscalateRule → RuntimeSignals → Bool
escalates never signals = false
escalates always signals = true
escalates filing_over_200_pages signals = ltb 200 signals.filing_pages
escalates on_regime_change signals = signals.regime_change
escalates persona_weekly_deepdive signals = signals.weekly_deepdive
escalates secretary_explain_deeply signals = signals.explain_deeply || signals.multi_step_question

abbrev plain : LlmTier → EscalateRule → CallerSpec
plain tier rule = record {
  default_tier = tier;
  escalate_when = rule;
  cache_eligible = false;
  cache_ttl_seconds = none;
}

abbrev cached : LlmTier → EscalateRule → Option ℕ → CallerSpec
cached tier rule ttl = record {
  default_tier = tier;
  escalate_when = rule;
  cache_eligible = true;
  cache_ttl_seconds = ttl;
}

unfoldable pub matrix : Dict String CallerSpec
matrix =
    ("intel.crawler.translate", cached flash never (some (24 * 3600)))
    ∷ ("intel.sentiment.classify", cached flash never (some 3600))
    ∷ ("intel.dedupe.embed", cached embed never none)
    ∷ ("intel.synth", plain pro always)
    ∷ ("fund.filings.extract", cached flash filing_over_200_pages (some (7 * 24 * 3600)))
    ∷ ("fund.valuation", plain pro always)
    ∷ ("fund.writer", plain pro always)
    ∷ ("quant.writer", plain flash on_regime_change)
    ∷ ("persona.daily", plain flash persona_weekly_deepdive)
    ∷ ("persona.weekly", plain pro always)
    ∷ ("backtest.narrate", plain flash never)
    ∷ ("secretary.chat", plain flash secretary_explain_deeply)
    ∷ ("secretary.brief.morning", plain pro always)
    ∷ ("secretary.brief.midday", plain flash never)
    ∷ ("secretary.echo", plain flash never)
    ∷ ("secretary.plan", plain flash secretary_explain_deeply)
    ∷ ("orchestrator.plan", plain pro always)
    ∷ ("event_triage", plain flash never)
    ∷ ("persona.team_plan", plain flash never)
    ∷ ("board.bull", plain flash never)
    ∷ ("board.bear", plain flash never)
    ∷ ("board.risk_aggressive", plain flash never)
    ∷ ("board.risk_conservative", plain flash never)
    ∷ ("board.risk_neutral", plain flash never)
    ∷ ("board.chair", plain pro always)
    ∷ []

-- `lookup`; none is `UnknownCallerId`.
unfoldable pub lookup : String → Option CallerSpec
unfolding matrix ends_with
lookup caller_id =
    if starts_with caller_id "persona." && ends_with caller_id ".daily"
    then Dict.lookup "persona.daily" matrix
    else if starts_with caller_id "persona." && ends_with caller_id ".weekly"
    then Dict.lookup "persona.weekly" matrix
    else Dict.lookup caller_id matrix

-- `resolve_tier`, on the spec that `lookup` finds
abbrev pub tier_of : CallerSpec → RuntimeSignals → LlmTier
tier_of spec signals = if escalates spec.escalate_when signals then pro else spec.default_tier
