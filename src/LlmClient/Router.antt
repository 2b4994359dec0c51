-- ===== src/LlmClient/Router.antt =====
-- packages/llm-client/llm_client/router.py with fallback.py: one call of a language model.
-- The adapters, the cache and the waits for permits act on a world outside, which also holds the clock
-- and the day. A call may be cancelled wherever it waits for a permit, for a provider or for the cache,
-- and an access of the cache may raise. The meter, whose only store is the one in memory, and the
-- telemetry do not fail, and no cancellation arrives there. `drained` and `cache_drained` are the
-- cancellation that the deadline of `chat_or_skip` delivers. The text of an error is the text of the
-- exception that caused it, without what the messages put around it. Telemetry is the list of the events
-- sent; a semaphore is its held permits.
pub mod Stages
pub mod Guarded
pub mod Settled
pub mod Skip
mod Tests
use investment_intelligence.Prelude.{
  ℕ, Bool, true, false, not, ◌&&◌, Option, none, some, List, [], ◌∷◌, ◌++◌, String, if◌then◌else◌,
}
use Prim.Native.String.{◌++◌ as str_append}
use investment_intelligence.Prelude.Keys.{String-keys, ◌=?◌}
use investment_intelligence.Prelude.Outcome.{Result, ok, err}
use investment_intelligence.LlmClient.Matrix.{
  LlmTier, flash, pro, embed, RuntimeSignals, CallerSpec, lookup, tier_of,
}
use investment_intelligence.LlmClient.CostMeter.{CostMeter, Config, allow, record_cost, same_tier}

pub record ChatMessage : Type 0 where
  pub role : String
  pub content : String

pub record ChatResponse : Type 0 where
  pub text : String
  pub model : String
  pub tier : LlmTier
  pub prompt_tokens : ℕ
  pub completion_tokens : ℕ
  pub cost_usd : ℕ
  pub cached : Bool
  pub fallback_used : Bool
  pub cost_skipped : Bool
  pub request_id : String
  pub latency_ms : ℕ

-- How an adapter's `chat` ends: it returns, raises ProviderTimeout, DeepSeekDown, another
-- ProviderError, the built-in TimeoutError or another exception, or is cancelled.
pub data Reply : Type 0 where
  replied : ChatResponse → Reply
  provider_timeout deepseek_down provider_error raised_timeout raised_other : String → Reply
  reply_cancelled reply_drained : Reply

-- How an access of the cache ends without an answer: it raises the built-in TimeoutError or another
-- exception, of the store or of the validation of what was read, or it is cancelled.
pub data CacheFault : Type 0 where
  cache_timeout cache_error : String → CacheFault
  cache_cancelled cache_drained : CacheFault

-- `cache_fault` is what an access of the cache lets out of the call.
pub data LlmError : Type 0 where
  cache_fault : CacheFault → LlmError
  unknown_caller_id cost_budget_exceeded cancelled drained : LlmError
  no_llm_available failed_provider builtin_timeout other_error : String → LlmError

pub data Outcome : Type 0 where
  ok_outcome error_outcome timeout_outcome rate_limit_outcome skipped_outcome : Outcome

pub record Event : Type 0 where
  pub caller_id : String
  pub outcome : Outcome
  pub response : Option ChatResponse
  pub error : Option String

pub data Permit : Type 0 where
  caller_permit : String → Permit
  bucket_permit : String → LlmTier → Permit

pub data Wait : Type 0 where
  granted wait_cancelled wait_drained : Wait

pub record Adapter (W : Type 0) : Type 0 where
  pub name : String
  pub chat : List ChatMessage → LlmTier → W → Reply × W

pub record PromptCache (W : Type 0) : Type 0 where
  pub get : String → LlmTier → List ChatMessage → W → Result CacheFault (Option ChatResponse) × W
  pub set :
      String
      → LlmTier
      → List ChatMessage
      → ChatResponse
      → Option ℕ
      → W
      → Result CacheFault (Unit {0}) × W

-- `LlmRouter`, with the fallback chain's two adapters.
pub record LlmRouter (W : Type 0) : Type 0 where
  pub primary : Adapter W
  pub pro_fallback : Option (Adapter W)
  pub flash_fallback : Option (Adapter W)
  pub cache : Option (PromptCache W)
  pub config : Config
  pub clock : W → ℕ
  pub today : W → ℕ
  pub new_id : W → String
  pub caller_wait : String → W → Wait × W
  pub bucket_wait : String → LlmTier → W → Wait × W

pub record State (W : Type 0) : Type 0 where
  pub meter : CostMeter
  pub held : List Permit
  pub events : List Event
  pub world : W

abbrev pub same_permit : Permit → Permit → Bool
same_permit (caller_permit a) (caller_permit b) = a =? b
same_permit (bucket_permit a s) (bucket_permit b t) = (a =? b) && same_tier s t
same_permit _ _ = false

abbrev pub drop_permit : Permit → List Permit → List Permit
drop_permit p [] = []
drop_permit p (q ∷ held) = if same_permit q p then held else q ∷ drop_permit p held

abbrev pub Answer : Type 0 → Type 0
Answer W = Result LlmError ChatResponse × State W

abbrev pub hold : {W : Type 0} → Permit → State W → State W
hold p s = record s { held = p ∷ s.held }

-- `finally: release()`
abbrev pub release : {W : Type 0} → Permit → Answer W → Answer W
release p (r, s) = (r, record s { held = drop_permit p s.held })

-- `fire_and_forget`
abbrev pub emit :
    {W : Type 0} → String → Outcome → Option ChatResponse → Option String → State W → State W
emit caller_id outcome response error s = record s {
  events =
      s.events
      ++ (record { caller_id = caller_id; outcome = outcome; response = response; error = error })
        ∷ [];
}

-- `_adapter_for`
abbrev pub adapter_for : {W : Type 0} → LlmRouter W → LlmTier → Option (Adapter W)
adapter_for env pro = env.pro_fallback
adapter_for env flash = env.flash_fallback
adapter_for env embed = none

-- `FallbackChain.chat`: the provider's errors become NoLLMAvailable.
abbrev pub fallback_reply : {W : Type 0} → State W → Reply × W → Answer W
fallback_reply s (replied r, w) = (ok r, record s { world = w })
fallback_reply s (provider_timeout e, w) = (err (no_llm_available e), record s { world = w })
fallback_reply s (deepseek_down e, w) = (err (no_llm_available e), record s { world = w })
fallback_reply s (provider_error e, w) = (err (no_llm_available e), record s { world = w })
fallback_reply s (raised_timeout e, w) = (err (builtin_timeout e), record s { world = w })
fallback_reply s (raised_other e, w) = (err (other_error e), record s { world = w })
fallback_reply s (reply_cancelled, w) = (err cancelled, record s { world = w })
fallback_reply s (reply_drained, w) = (err drained, record s { world = w })

abbrev pub fallback_chat :
    {W : Type 0} → Option (Adapter W) → List ChatMessage → LlmTier → String → State W → Answer W
fallback_chat none messages tier e s = (err (no_llm_available e), s)
fallback_chat (some adapter) messages tier e s =
    fallback_reply s (adapter.chat messages tier s.world)

-- `spec.cache_eligible and not force_tier`
abbrev pub is_cached : Option LlmTier → CallerSpec → Bool
is_cached none spec = spec.cache_eligible
is_cached (some _) spec = false

-- `force_tier or resolve_tier(…)`
abbrev pub forced : Option LlmTier → LlmTier → LlmTier
forced none tier = tier
forced (some force) tier = force

-- The id is `uuid4`'s.
abbrev pub synthetic_skip_response : LlmTier → String → String → ChatResponse
synthetic_skip_response tier reason id = record {
  text = "[cost-breaker open: synthetic skip]";
  model = str_append "synthetic-skip:" reason;
  tier = tier;
  prompt_tokens = 0;
  completion_tokens = 0;
  cost_usd = 0;
  cached = false;
  fallback_used = false;
  cost_skipped = true;
  request_id = str_append "skip-" id;
  latency_ms = 0;
}

module _ {W : Type 0} (env : LlmRouter W) (caller_id : String) (messages : List ChatMessage) where
  -- The second gate, and the fallback behind it.
  abbrev pub after_fallback_gate : LlmTier → String → State W → Bool × CostMeter → Answer W
  after_fallback_gate tier e s (false, m) = (
    err cost_budget_exceeded,
    emit caller_id rate_limit_outcome none (some "fallback_cap_exceeded") (record s { meter = m }),
  )
  after_fallback_gate tier e s (true, m) =
      fallback_chat (adapter_for env tier) messages tier e (record s { meter = m })

  abbrev pub try_fallback : LlmTier → String → State W → Answer W
  try_fallback tier e s =
      after_fallback_gate tier e s
        (allow env.config (env.clock s.world) (env.today s.world) true s.meter)

  -- The primary's answer, and `except (DeepSeekDown, ProviderTimeout)`.
  abbrev pub after_primary : LlmTier → State W → Reply × W → Answer W
  after_primary tier s (replied r, w) = (ok r, record s { world = w })
  after_primary tier s (provider_timeout e, w) = try_fallback tier e (record s { world = w })
  after_primary tier s (deepseek_down e, w) = try_fallback tier e (record s { world = w })
  after_primary tier s (provider_error e, w) = (err (failed_provider e), record s { world = w })
  after_primary tier s (raised_timeout e, w) = (err (builtin_timeout e), record s { world = w })
  after_primary tier s (raised_other e, w) = (err (other_error e), record s { world = w })
  after_primary tier s (reply_cancelled, w) = (err cancelled, record s { world = w })
  after_primary tier s (reply_drained, w) = (err drained, record s { world = w })

  unfoldable pub attempt : LlmTier → State W → Answer W
  attempt tier s = after_primary tier s (env.primary.chat messages tier s.world)

  -- `rate_limiter.acquire` and what it guards.
  abbrev pub within_bucket : LlmTier → State W → Wait × W → Answer W
  within_bucket tier s (wait_cancelled, w) = (err cancelled, record s { world = w })
  within_bucket tier s (wait_drained, w) = (err drained, record s { world = w })
  within_bucket tier s (granted, w) =
      let permit = bucket_permit env.primary.name tier in
      release permit (attempt tier (hold permit (record s { world = w })))

  -- The outer `except` clauses: a cancellation is no Exception, and CostBudgetExceeded was reported.
  abbrev pub observe : Answer W → Answer W
  observe (ok r, s) = (ok r, s)
  observe (err (no_llm_available e), s) =
      (err (no_llm_available e), emit caller_id error_outcome none (some e) s)
  observe (err (failed_provider e), s) =
      (err (failed_provider e), emit caller_id error_outcome none (some e) s)
  observe (err (builtin_timeout e), s) =
      (err (builtin_timeout e), emit caller_id error_outcome none (some e) s)
  observe (err (other_error e), s) =
      (err (other_error e), emit caller_id error_outcome none (some e) s)
  observe (err cost_budget_exceeded, s) = (err cost_budget_exceeded, s)
  observe (err cancelled, s) = (err cancelled, s)
  observe (err drained, s) = (err drained, s)
  observe (err unknown_caller_id, s) = (err unknown_caller_id, s)
  observe (err (cache_fault f), s) = (err (cache_fault f), s)

  abbrev pub within_caller : LlmTier → State W → Wait × W → Answer W
  within_caller tier s (wait_cancelled, w) = (err cancelled, record s { world = w })
  within_caller tier s (wait_drained, w) = (err drained, record s { world = w })
  within_caller tier s (granted, w) =
      let permit = caller_permit caller_id in
      release permit (
        observe (
          within_bucket tier (hold permit (record s { world = w }))
            (env.bucket_wait env.primary.name tier w)))

  abbrev pub after_set : ChatResponse → State W → Result CacheFault (Unit {0}) × W → Answer W
  after_set r s (ok _, w) = (ok r, record s { world = w })
  after_set r s (err f, w) = (err (cache_fault f), record s { world = w })

  -- A failure of the write ends the call: the response is lost.
  abbrev pub cache_set :
      Option (PromptCache W) → LlmTier → CallerSpec → ChatResponse → State W → Answer W
  cache_set none tier spec r s = (ok r, s)
  cache_set (some cache) tier spec r s =
      after_set r s (cache.set caller_id tier messages r spec.cache_ttl_seconds s.world)

  -- A response of the provider is recorded, reported and cached.
  abbrev pub keep : Option LlmTier → LlmTier → CallerSpec → Answer W → Answer W
  keep force tier spec (err e, s) = (err e, s)
  keep force tier spec (ok r, s) =
      let meter = record_cost (env.today s.world) r.tier r.fallback_used r.cost_usd s.meter in
      let told = emit caller_id ok_outcome (some r) none (record s { meter = meter }) in
      if is_cached force spec then cache_set env.cache tier spec r told else (ok r, told)

  -- The first gate.
  abbrev pub after_gate :
      Option LlmTier → LlmTier → CallerSpec → State W → Bool × CostMeter → Answer W
  after_gate force tier spec s (false, m) = (
    err cost_budget_exceeded,
    emit caller_id rate_limit_outcome none (some "cost_breaker_open") (record s { meter = m }),
  )
  after_gate force tier spec s (true, m) =
      keep force tier spec
        (within_caller tier (record s { meter = m }) (env.caller_wait caller_id s.world))

  abbrev pub uncached : Option LlmTier → LlmTier → CallerSpec → State W → Answer W
  uncached force tier spec s =
      after_gate force tier spec s
        (allow env.config (env.clock s.world) (env.today s.world) false s.meter)

  -- A failure of the read ends the call before anything is reported.
  abbrev pub after_cache :
      Option LlmTier
      → LlmTier
      → CallerSpec
      → State W
      → Result CacheFault (Option ChatResponse) × W
      → Answer W
  after_cache force tier spec s (ok (some hit), w) =
      (ok hit, emit caller_id ok_outcome (some hit) none (record s { world = w }))
  after_cache force tier spec s (ok none, w) = uncached force tier spec (record s { world = w })
  after_cache force tier spec s (err f, w) = (err (cache_fault f), record s { world = w })

  abbrev pub ask_cache :
      Option (PromptCache W) → Option LlmTier → LlmTier → CallerSpec → State W → Answer W
  ask_cache none force tier spec s = uncached force tier spec s
  ask_cache (some cache) force tier spec s =
      if is_cached force spec
      then after_cache force tier spec s (cache.get caller_id tier messages s.world)
      else uncached force tier spec s

  abbrev pub chat_as : Option LlmTier → RuntimeSignals → State W → Option CallerSpec → Answer W
  chat_as force signals s none = (err unknown_caller_id, s)
  chat_as force signals s (some spec) =
      ask_cache env.cache force (forced force (tier_of spec signals)) spec s

  unfoldable pub chat : Option LlmTier → RuntimeSignals → State W → Answer W
  chat force signals s = chat_as force signals s (lookup caller_id)

  abbrev pub skip : Option LlmTier → String → String → State W → Answer W
  skip force reason error s =
      let response = synthetic_skip_response (forced force flash) reason (env.new_id s.world) in
      (ok response, emit caller_id skipped_outcome (some response) (some error) s)

  -- The `except` clauses of `chat_or_skip`; the TimeoutError of the deadline, or one that `chat` raised.
  abbrev pub skip_errors : Option LlmTier → Answer W → Answer W
  skip_errors force (err cost_budget_exceeded, s) =
      skip force "cost_breaker_open" "cost_breaker_open" s
  skip_errors force (err drained, s) = skip force "drain_deadline" "drain_deadline" s
  skip_errors force (err (builtin_timeout e), s) = skip force "drain_deadline" "drain_deadline" s
  skip_errors force (err unknown_caller_id, s) = (err unknown_caller_id, s)
  skip_errors force (err cancelled, s) = (err cancelled, s)
  skip_errors force (err (no_llm_available e), s) = (err (no_llm_available e), s)
  skip_errors force (err (failed_provider e), s) = (err (failed_provider e), s)
  skip_errors force (err (other_error e), s) = (err (other_error e), s)
  skip_errors force (err (cache_fault cache_drained), s) =
      skip force "drain_deadline" "drain_deadline" s
  skip_errors force (err (cache_fault (cache_timeout e)), s) =
      skip force "drain_deadline" "drain_deadline" s
  skip_errors force (err (cache_fault (cache_error e)), s) = (err (cache_fault (cache_error e)), s)
  skip_errors force (err (cache_fault cache_cancelled), s) = (err (cache_fault cache_cancelled), s)
  skip_errors force (ok r, s) = (ok r, s)

  abbrev pub after_skip_gate :
      Option LlmTier → RuntimeSignals → State W → Bool × CostMeter → Answer W
  after_skip_gate force signals s (false, m) = (
    ok (synthetic_skip_response (forced force flash) "cost_breaker_open" (env.new_id s.world)),
    emit caller_id rate_limit_outcome none (some "cost_breaker_open") (record s { meter = m }),
  )
  after_skip_gate force signals s (true, m) =
      skip_errors force (chat force signals (record s { meter = m }))

  -- `chat_or_skip`, on the flag `cost_breaker.enabled`
  unfoldable pub chat_or_skip : Bool → Option LlmTier → RuntimeSignals → State W → Answer W
  chat_or_skip enabled force signals s =
      if enabled
      then after_skip_gate force signals s
          (allow env.config (env.clock s.world) (env.today s.world) false s.meter)
      else chat force signals s
