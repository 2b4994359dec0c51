-- ===== src/LlmClient/Router/Tests.antt =====
-- Runs of router.py.
use investment_intelligence.Prelude.{ℕ, ◌+◌, ◌≡◌, refl, true, false, none, some, List, [], ◌∷◌}
use investment_intelligence.Prelude.Keys.{String-keys}
use investment_intelligence.Prelude.Outcome.{ok, err}
use investment_intelligence.Orchestrator.Sla.{ends_with}
use investment_intelligence.LlmClient.Matrix.{flash, pro, RuntimeSignals, lookup, matrix}
use investment_intelligence.LlmClient.CostMeter.{closed, allow, record_cost}
use investment_intelligence.LlmClient.CostMeter.Budget.{capped}
use investment_intelligence.LlmClient.Router.{
  PromptCache, cache_drained, synthetic_skip_response, ChatResponse, ChatMessage, LlmError, replied,
  provider_timeout, granted, Adapter, LlmRouter, State, chat, attempt, chat_or_skip,
}
use investment_intelligence.LlmClient.Router.Settled.{Settled, Spent, chat-Settled}

abbrev claude_says : ChatResponse
claude_says = record {
  text = "hold";
  model = "claude-sonnet";
  tier = pro;
  prompt_tokens = 900;
  completion_tokens = 30;
  cost_usd = 700;
  cached = false;
  fallback_used = true;
  cost_skipped = false;
  request_id = "r1";
  latency_ms = 850;
}

abbrev deepseek : Adapter ℕ
deepseek = record { name = "deepseek"; chat = λ _ _ w. (provider_timeout "30 s", w) }

abbrev claude : Adapter ℕ
claude = record { name = "anthropic"; chat = λ _ _ w. (replied claude_says, w) }

-- The world is the clock.
abbrev router : LlmRouter ℕ
router = record {
  primary = deepseek;
  pro_fallback = some claude;
  flash_fallback = none;
  cache = none;
  config = capped 100_000 50_000 3600;
  clock = λ w. w;
  today = λ _. 20_000;
  new_id = λ _. "0a1b2c";
  caller_wait = λ _ w. (granted, w);
  bucket_wait = λ _ _ w. (granted, w);
}

abbrev calm : RuntimeSignals
calm = record {
  filing_pages = 0;
  regime_change = false;
  weekly_deepdive = false;
  explain_deeply = false;
  multi_step_question = false;
}

abbrev start : State ℕ
start = record {
  meter = record { rows = []; state = closed; opened_at = 0 };
  held = [];
  events = [];
  world = 5;
}

abbrev ask : List ChatMessage
ask = record { role = "user"; content = "700.HK?" } ∷ []

chair_falls_back : (chat router "board.chair" ask none calm start).0 ≡ ok claude_says
unfolding chat lookup matrix ends_with allow attempt record_cost
chair_falls_back = refl

-- The flash tier has no fallback here.
slug_is_flash :
    (chat router "persona.rogers.daily" ask none calm start).0
    ≡ err (LlmError.no_llm_available "30 s")
unfolding chat lookup matrix ends_with allow attempt record_cost
slug_is_flash = refl

chat-Settled_example :
    Settled (Spent router "board.chair" ask 5) start (chat router "board.chair" ask none calm start)
chat-Settled_example = chat-Settled router "board.chair" ask none calm start

-- The world counts the writes that the cache was asked for; the deadline arrives at the first.
abbrev losing_cache : PromptCache ℕ
losing_cache = record {
  get = λ _ _ _ w. (ok none, w);
  set = λ _ _ _ _ _ w. (err cache_drained, w + 1);
}

abbrev deepseek_says : ChatResponse
deepseek_says = record claude_says { model = "deepseek-chat"; tier = flash; fallback_used = false }

abbrev losing_router : LlmRouter ℕ
losing_router = record router {
  primary = record { name = "deepseek"; chat = λ _ _ w. (replied deepseek_says, w) };
  cache = some losing_cache;
}

-- The skip has spent the cost of the answer that is lost.
lost_answer_is_paid :
    let a = chat_or_skip losing_router "intel.sentiment.classify" ask true none calm start in
    (a.0 ≡ ok (synthetic_skip_response flash "drain_deadline" "0a1b2c"))
    × (a.1.meter.rows ≡ (record { day = 20_000; tier = flash; fallback = false }, 700) ∷ [])
    × (a.1.world ≡ 6)
unfolding chat_or_skip chat lookup matrix ends_with allow attempt record_cost
lost_answer_is_paid = (refl, refl, refl)
