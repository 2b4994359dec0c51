-- ===== src/Orchestrator/Triage/Tests.antt =====
-- Runs of event_triage.py.
use investment_intelligence.Prelude.{ℕ, ◌≡◌, refl, true, false, none, some, [], ◌∷◌, String}
use investment_intelligence.Prelude.Int.{pos}
use investment_intelligence.Prelude.Keys.{String-keys}
use investment_intelligence.Prelude.Float.{real}
use investment_intelligence.Prelude.Outcome.{ok, err}
use investment_intelligence.Orchestrator.Sla.{ends_with}
use investment_intelligence.LlmClient.Matrix.{RuntimeSignals, lookup, matrix}
use investment_intelligence.LlmClient.CostMeter.{closed, allow, record_cost}
use investment_intelligence.LlmClient.CostMeter.Budget.{capped}
use investment_intelligence.LlmClient.Router.{
  provider_timeout, granted, Adapter, LlmRouter, State, no_llm_available, chat, attempt,
  chat_or_skip,
}
use investment_intelligence.Orchestrator.Triage.{
  Payload, trading_room, high_impact, parse_event, parse_llm_route, triage, decide, prompt,
  TriageInputs, numeric_route,
}
use investment_intelligence.Orchestrator.Triage.Routes.{IsTie}

parsed : parse_llm_route "  Trading_Room\n" ≡ some trading_room
unfolding parse_llm_route
parsed = refl

abbrev event : Payload
event = record {
  tickers = "700.HK" ∷ [];
  affected_universe = [];
  regime_change_score = some (real (pos 500_000));
  surprise_factor = none;
  affected_universe_overlap = none;
  event_id = "e1";
  id = "";
  trace_id = "t1";
  title = "Rate decision";
  body = "";
}

abbrev text_of : TriageInputs → String
text_of t = t.title

abbrev calm : RuntimeSignals
calm = record {
  filing_pages = 0;
  regime_change = false;
  weekly_deepdive = false;
  explain_deeply = false;
  multi_step_question = false;
}

abbrev deepseek : Adapter ℕ
deepseek = record { name = "deepseek"; chat = λ _ _ w. (provider_timeout "30 s", w) }

abbrev router : LlmRouter ℕ
router = record {
  primary = deepseek;
  pro_fallback = none;
  flash_fallback = none;
  cache = none;
  config = capped 100_000 50_000 3600;
  clock = λ w. w;
  today = λ _. 20_000;
  new_id = λ _. "0a1b2c";
  caller_wait = λ _ w. (granted, w);
  bucket_wait = λ _ _ w. (granted, w);
}

abbrev start : State ℕ
start = record {
  meter = record { rows = []; state = closed; opened_at = 0 };
  held = [];
  events = [];
  world = 5;
}

event-IsTie : IsTie (parse_event event)
unfolding parse_event
event-IsTie = record { overlap = refl; medium = refl; not_high = refl }

no_provider :
    (chat_or_skip router "event_triage" (prompt text_of (parse_event event)) true none calm start).0
    ≡ err (no_llm_available "30 s")
unfolding chat_or_skip chat lookup matrix ends_with allow attempt record_cost
no_provider = refl

abbrev surprise : Payload
surprise = record event { surprise_factor = some (real (pos 900_000)) }

surprise_wakes :
    (triage text_of true calm true none surprise start).0
    ≡ ok (decide (parse_event surprise) (trading_room, (high_impact, false)))
unfolding triage numeric_route parse_event
surprise_wakes = refl
