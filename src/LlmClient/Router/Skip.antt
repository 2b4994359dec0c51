-- ===== src/LlmClient/Router/Skip.antt =====
-- `chat_or_skip` of router.py: what it turns into a skip.
use investment_intelligence.Prelude.{◌≡◌, ◌≢◌, ◌⊎◌, Option, List, String}
use investment_intelligence.Prelude.Keys.{String-keys}
use investment_intelligence.Prelude.Outcome.{Result, ok, err}
use investment_intelligence.LlmClient.Matrix.{LlmTier, flash}
use investment_intelligence.LlmClient.CostMeter.{CostMeter, Rows}
use investment_intelligence.LlmClient.Router.{
  ChatMessage, Event, ChatResponse, LlmError, CacheFault, cache_fault, cache_timeout, cache_drained,
  cost_budget_exceeded, drained, builtin_timeout, LlmRouter, State, Answer, synthetic_skip_response,
  forced,
}
use investment_intelligence.LlmClient.Router.Settled.{Lost, Spent}

module _ {W : Type 0} (env : LlmRouter W) (caller_id : String) (messages : List ChatMessage) where
  -- Nothing was recorded, or the cost of a response that the cache could not take, when it failed so.
  abbrev pub Lapsed : (CacheFault → Type 0) → Rows → Rows → Type 0
  Lapsed P rows rows' =
      (rows' ≡ rows)
      ⊎ ((f : CacheFault) × P f × (es : List Event) × Lost env caller_id messages f es rows rows')

  -- A fault that `chat_or_skip` takes for its deadline.
  abbrev pub IsDrain : CacheFault → Type 0
  IsDrain f = (f ≡ cache_drained) ⊎ ((why : String) × (f ≡ cache_timeout why))

  -- What `chat_or_skip` answers or raises, and what has been recorded by then.
  abbrev pub Degraded : Option LlmTier → W → Result LlmError ChatResponse → Rows → Rows → Type 0
  Degraded force w (ok r) rows rows' =
      ((es : List Event) × Spent env caller_id messages w (ok r) es rows rows')
      ⊎ ((why : String) × (id : String) × (r ≡ synthetic_skip_response (forced force flash) why id)
          × Lapsed IsDrain rows rows')
  Degraded force w (err e) rows rows' =
      Lapsed (λ f. e ≡ cache_fault f) rows rows'
      × (e ≢ cost_budget_exceeded)
      × (e ≢ drained)
      × ((why : String) → e ≢ builtin_timeout why)
      × ((f : CacheFault) → IsDrain f → e ≢ cache_fault f)

  pub record Skipped (force : Option LlmTier) (s : State W) (a : Answer W) : Type 0 where
    pub held : a.1.held ≡ s.held
    pub outcome : Degraded force s.world a.0 s.meter.rows a.1.meter.rows
