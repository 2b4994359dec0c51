-- ===== src/LlmClient/Router/Stages.antt =====
-- The stages of `chat` in router.py: what each leaves of the permits, the spend and the telemetry.
use mathlib.Core.List.{append-nil}
use investment_intelligence.Prelude.{
  ◌≡◌, refl, sym, ◌∙◌, Bool, true, false, Option, none, some, List, [], ◌∷◌, ◌++◌, String,
}
use investment_intelligence.Prelude.Keys.{String-keys}
use investment_intelligence.Prelude.Outcome.{Result, ok, err}
use investment_intelligence.LlmClient.Matrix.{LlmTier}
use investment_intelligence.LlmClient.CostMeter.{CostMeter, allow}
use investment_intelligence.LlmClient.CostMeter.Budget.{allow_rows}
use investment_intelligence.LlmClient.Router.{
  ChatMessage, ChatResponse, Reply, replied, provider_timeout, deepseek_down, provider_error,
  raised_timeout, raised_other, reply_cancelled, reply_drained, cache_fault, LlmError,
  unknown_caller_id, cost_budget_exceeded, cancelled, drained, no_llm_available, failed_provider,
  builtin_timeout, other_error, Outcome, error_outcome, rate_limit_outcome, Event, Adapter,
  LlmRouter, State, Answer, adapter_for, fallback_reply, fallback_chat, after_fallback_gate,
  try_fallback, after_primary, attempt,
}

abbrev pub event : String → Outcome → Option ChatResponse → Option String → Event
event caller_id outcome response error = record {
  caller_id = caller_id;
  outcome = outcome;
  response = response;
  error = error;
}

-- One refusal by a budget.
abbrev pub OneRefusal : String → List Event → Type 0
OneRefusal caller_id es =
    (why : String) × (es ≡ event caller_id rate_limit_outcome none (some why) ∷ [])

-- What the guarded part has reported when it ends; it does not use the cache.
abbrev pub InnerEvents : String → Result LlmError ChatResponse → List Event → Type 0
InnerEvents caller_id (err cost_budget_exceeded) es = OneRefusal caller_id es
InnerEvents caller_id (err (cache_fault f)) es = ⊥
InnerEvents caller_id _ es = es ≡ []

abbrev pub OneError : String → String → List Event → Type 0
OneError caller_id e es = es ≡ event caller_id error_outcome none (some e) ∷ []

-- What has been reported after the `except` clauses.
abbrev pub OuterEvents : String → Result LlmError ChatResponse → List Event → Type 0
OuterEvents caller_id (ok r) es = es ≡ []
OuterEvents caller_id (err cost_budget_exceeded) es = OneRefusal caller_id es
OuterEvents caller_id (err unknown_caller_id) es = es ≡ []
OuterEvents caller_id (err (cache_fault f)) es = ⊥
OuterEvents caller_id (err cancelled) es = es ≡ []
OuterEvents caller_id (err drained) es = es ≡ []
OuterEvents caller_id (err (no_llm_available e)) es = OneError caller_id e es
OuterEvents caller_id (err (failed_provider e)) es = OneError caller_id e es
OuterEvents caller_id (err (builtin_timeout e)) es = OneError caller_id e es
OuterEvents caller_id (err (other_error e)) es = OneError caller_id e es

-- A stage gives back the permits and spends nothing.
pub record Moved {W : Type 0} (P : Result LlmError ChatResponse → List Event → Type 0) (s : State W)
    (a : Answer W) : Type 0 where
  pub held : a.1.held ≡ s.held
  pub rows : a.1.meter.rows ≡ s.meter.rows
  pub emitted : List Event
  pub events : a.1.events ≡ s.events ++ emitted
  pub told : P a.0 emitted

module _ {W : Type 0} (caller_id : String) where
  pub quiet :
      (P : Result LlmError ChatResponse → List Event → Type 0) (s : State W) (w : W)
      (r : Result LlmError ChatResponse)
      → P r []
      → Moved P s (r, record s { world = w })
  quiet P s w r p = record {
    held = refl;
    rows = refl;
    emitted = [];
    events = sym (append-nil s.events);
    told = p;
  }

  fallback_reply-Moved :
      (s : State W) (reply : Reply) (w : W)
      → Moved (InnerEvents caller_id) s (fallback_reply s (reply, w))
  fallback_reply-Moved s (replied r) w = quiet (InnerEvents caller_id) s w (ok r) refl
  fallback_reply-Moved s (provider_timeout e) w =
      quiet (InnerEvents caller_id) s w (err (no_llm_available e)) refl
  fallback_reply-Moved s (deepseek_down e) w =
      quiet (InnerEvents caller_id) s w (err (no_llm_available e)) refl
  fallback_reply-Moved s (provider_error e) w =
      quiet (InnerEvents caller_id) s w (err (no_llm_available e)) refl
  fallback_reply-Moved s (raised_timeout e) w =
      quiet (InnerEvents caller_id) s w (err (builtin_timeout e)) refl
  fallback_reply-Moved s (raised_other e) w =
      quiet (InnerEvents caller_id) s w (err (other_error e)) refl
  fallback_reply-Moved s reply_cancelled w = quiet (InnerEvents caller_id) s w (err cancelled) refl
  fallback_reply-Moved s reply_drained w = quiet (InnerEvents caller_id) s w (err drained) refl

  fallback_chat-Moved :
      (adapter : Option (Adapter W)) (messages : List ChatMessage) (tier : LlmTier) (e : String)
      (s : State W)
      → Moved (InnerEvents caller_id) s (fallback_chat adapter messages tier e s)
  fallback_chat-Moved none messages tier e s =
      quiet (InnerEvents caller_id) s s.world (err (no_llm_available e)) refl
  fallback_chat-Moved (some adapter) messages tier e s =
      let a = adapter.chat messages tier s.world in fallback_reply-Moved s a.0 a.1

  -- A meter with the same spend may stand in for the one before.
  pub with_meter :
      (P : Result LlmError ChatResponse → List Event → Type 0) (s : State W) (m : CostMeter)
      (a : Answer W)
      → m.rows ≡ s.meter.rows
      → Moved P (record s { meter = m }) a
      → Moved P s a
  with_meter P s m a e h = record {
    held = h.held;
    rows = h.rows ∙ e;
    emitted = h.emitted;
    events = h.events;
    told = h.told;
  }

  pub with_world :
      (P : Result LlmError ChatResponse → List Event → Type 0) (s : State W) (w : W) (a : Answer W)
      → Moved P (record s { world = w }) a
      → Moved P s a
  with_world P s w a h = record {
    held = h.held;
    rows = h.rows;
    emitted = h.emitted;
    events = h.events;
    told = h.told;
  }

module _ {W : Type 0} (env : LlmRouter W) (caller_id : String) (messages : List ChatMessage) where
  after_fallback_gate-Moved :
      (tier : LlmTier) (e : String) (s : State W) (g : Bool × CostMeter)
      → g.1.rows ≡ s.meter.rows
      → Moved (InnerEvents caller_id) s (after_fallback_gate env caller_id messages tier e s g)
  after_fallback_gate-Moved tier e s (false, m) same = record {
    held = refl;
    rows = same;
    emitted = event caller_id rate_limit_outcome none (some "fallback_cap_exceeded") ∷ [];
    events = refl;
    told = ("fallback_cap_exceeded", refl);
  }
  after_fallback_gate-Moved tier e s (true, m) same =
      with_meter caller_id (InnerEvents caller_id) s m
        (fallback_chat (adapter_for env tier) messages tier e (record s { meter = m })) same
        (fallback_chat-Moved caller_id (adapter_for env tier) messages tier e
          (record s { meter = m }))

  try_fallback-Moved :
      (tier : LlmTier) (e : String) (s : State W)
      → Moved (InnerEvents caller_id) s (try_fallback env caller_id messages tier e s)
  try_fallback-Moved tier e s =
      let now = env.clock s.world in
      let today = env.today s.world in
      after_fallback_gate-Moved tier e s (allow env.config now today true s.meter)
        (allow_rows env.config now today true s.meter)

  after_primary-Moved :
      (tier : LlmTier) (s : State W) (reply : Reply) (w : W)
      → Moved (InnerEvents caller_id) s (after_primary env caller_id messages tier s (reply, w))
  after_primary-Moved tier s (replied r) w = quiet caller_id (InnerEvents caller_id) s w (ok r) refl
  after_primary-Moved tier s (provider_timeout e) w =
      let a = try_fallback env caller_id messages tier e (record s { world = w }) in
      with_world caller_id (InnerEvents caller_id) s w a
        (try_fallback-Moved tier e (record s { world = w }))
  after_primary-Moved tier s (deepseek_down e) w =
      let a = try_fallback env caller_id messages tier e (record s { world = w }) in
      with_world caller_id (InnerEvents caller_id) s w a
        (try_fallback-Moved tier e (record s { world = w }))
  after_primary-Moved tier s (provider_error e) w =
      quiet caller_id (InnerEvents caller_id) s w (err (failed_provider e)) refl
  after_primary-Moved tier s (raised_timeout e) w =
      quiet caller_id (InnerEvents caller_id) s w (err (builtin_timeout e)) refl
  after_primary-Moved tier s (raised_other e) w =
      quiet caller_id (InnerEvents caller_id) s w (err (other_error e)) refl
  after_primary-Moved tier s reply_cancelled w =
      quiet caller_id (InnerEvents caller_id) s w (err cancelled) refl
  after_primary-Moved tier s reply_drained w =
      quiet caller_id (InnerEvents caller_id) s w (err drained) refl

  pub attempt-Moved :
      (tier : LlmTier) (s : State W)
      → Moved (InnerEvents caller_id) s (attempt env caller_id messages tier s)
  unfolding attempt
  attempt-Moved tier s =
      let a = env.primary.chat messages tier s.world in after_primary-Moved tier s a.0 a.1
