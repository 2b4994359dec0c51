-- ===== src/LlmClient/Router/Settled.antt =====
-- What a whole call of `chat` in router.py leaves behind, on every path.
use mathlib.Core.List.{append-nil}
use investment_intelligence.Prelude.{
  ℕ, ◌≡◌, ◌⊎◌, inl, inr, refl, sym, ap, ◌∙◌, Bool, true, false, Option, none, some, List, [], ◌∷◌,
  ◌++◌, String, Bool-cases,
}
use investment_intelligence.Prelude.Keys.{String-keys}
use investment_intelligence.Prelude.Outcome.{Result, ok, err}
use investment_intelligence.LlmClient.Matrix.{LlmTier, RuntimeSignals, CallerSpec, lookup, tier_of}
use investment_intelligence.LlmClient.CostMeter.{CostMeter, Rows, add_cost, allow, record_cost}
use investment_intelligence.LlmClient.CostMeter.Budget.{allow_rows}
use investment_intelligence.LlmClient.Router.{
  ChatMessage, ChatResponse, LlmError, cache_fault, CacheFault, ok_outcome, rate_limit_outcome,
  Event, LlmRouter, PromptCache, State, Answer, after_set, cache_set, emit, within_caller, keep,
  after_gate, uncached, after_cache, ask_cache, is_cached, forced, chat_as, chat,
}
use investment_intelligence.LlmClient.Router.Stages.{event, OuterEvents, Moved, with_meter}
use investment_intelligence.LlmClient.Router.Guarded.{within_caller-Moved}

-- One report of a response.
abbrev OneAnswer : String → ChatResponse → List Event → Type 0
OneAnswer caller_id r es = es ≡ event caller_id ok_outcome (some r) none ∷ []

-- The cost of one response, recorded on some day.
abbrev pub OneCost : ChatResponse → Rows → Rows → Type 0
OneCost r rows rows' =
    (today : ℕ) × (rows'
      ≡ add_cost (record { day = today; tier = r.tier; fallback = r.fallback_used }) r.cost_usd
          rows)

module _ {W : Type 0} (env : LlmRouter W) (caller_id : String) (messages : List ChatMessage) where
  -- A read of the cache, at the call's start, that ended so.
  abbrev pub ReadGave : W → Result CacheFault (Option ChatResponse) → Type 0
  ReadGave w found =
      (cache : PromptCache W) × (tier : LlmTier) × (env.cache ≡ some cache)
      × ((cache.get caller_id tier messages w).0 ≡ found)

  -- A write of the response to the cache that failed.
  abbrev pub WriteFailed : ChatResponse → CacheFault → Type 0
  WriteFailed r f =
      (cache : PromptCache W) × (tier : LlmTier) × (ttl : Option ℕ) × (w : W) × (env.cache
        ≡ some cache)
      × ((cache.set caller_id tier messages r ttl w).0 ≡ err f)

  -- A response that was paid and reported, and lost when the cache could not take it.
  abbrev pub Lost : CacheFault → List Event → Rows → Rows → Type 0
  Lost f es rows rows' =
      (r : ChatResponse) × OneAnswer caller_id r es × OneCost r rows rows' × WriteFailed r f

  -- What is reported and recorded where the cache has not answered.
  abbrev Paid : Result LlmError ChatResponse → List Event → Rows → Rows → Type 0
  Paid (ok r) es rows rows' = OneAnswer caller_id r es × OneCost r rows rows'
  Paid (err e) es rows rows' =
      (OuterEvents caller_id (err e) es × (rows' ≡ rows))
      ⊎ ((f : CacheFault) × (e ≡ cache_fault f) × Lost f es rows rows')

  -- What a call that starts in the world `w` has reported and recorded when it ends.
  abbrev pub Spent : W → Result LlmError ChatResponse → List Event → Rows → Rows → Type 0
  Spent w (ok r) es rows rows' =
      OneAnswer caller_id r es
      × (((rows' ≡ rows) × ReadGave w (ok (some r))) ⊎ OneCost r rows rows')
  Spent w (err e) es rows rows' =
      (OuterEvents caller_id (err e) es × (rows' ≡ rows))
      ⊎ (((f : CacheFault) × (e ≡ cache_fault f) × Lost f es rows rows')
          ⊎ ((f : CacheFault) × (e ≡ cache_fault f)
              × (es ≡ [])
              × (rows' ≡ rows)
              × ReadGave w (err f)))

  Spent-Paid :
      (w : W) (r : Result LlmError ChatResponse) (es : List Event) (rows rows' : Rows)
      → Paid r es rows rows'
      → Spent w r es rows rows'
  Spent-Paid w (ok r) es rows rows' (told, cost) = (told, inr cost)
  Spent-Paid w (err e) es rows rows' (inl quiet_) = inl quiet_
  Spent-Paid w (err e) es rows rows' (inr lost) = inr (inl lost)

-- The end of a call: all permits are given back, and the reports and the spend are as `Q` says.
pub record Settled {W : Type 0}
    (Q : Result LlmError ChatResponse → List Event → Rows → Rows → Type 0) (s : State W)
    (a : Answer W) : Type 0 where
  pub held : a.1.held ≡ s.held
  pub emitted : List Event
  pub events : a.1.events ≡ s.events ++ emitted
  pub account : Q a.0 emitted s.meter.rows a.1.meter.rows

module _ {W : Type 0} (env : LlmRouter W) (caller_id : String) (messages : List ChatMessage) where
  answered :
      (r : ChatResponse) (s told : State W)
      → told.held ≡ s.held
      → told.events ≡ s.events ++ event caller_id ok_outcome (some r) none ∷ []
      → OneCost r s.meter.rows told.meter.rows
      → Settled (Paid env caller_id messages) s (ok r, told)
  answered r s told held events cost = record {
    held = held;
    emitted = event caller_id ok_outcome (some r) none ∷ [];
    events = events;
    account = (refl, cost);
  }

  after_set-Settled :
      (cache : PromptCache W) (tier : LlmTier) (ttl : Option ℕ) (r : ChatResponse)
      (s told : State W) (done : Result CacheFault (Unit {0}) × W)
      → env.cache ≡ some cache
      → cache.set caller_id tier messages r ttl told.world ≡ done
      → told.held ≡ s.held
      → told.events ≡ s.events ++ event caller_id ok_outcome (some r) none ∷ []
      → OneCost r s.meter.rows told.meter.rows
      → Settled (Paid env caller_id messages) s (after_set env caller_id messages r told done)
  after_set-Settled cache tier ttl r s told (ok u, w) e write held events cost =
      answered r s (record told { world = w }) held events cost
  after_set-Settled cache tier ttl r s told (err f, w) e write held events cost = record {
    held = held;
    emitted = event caller_id ok_outcome (some r) none ∷ [];
    events = events;
    account =
        inr (f, refl, (r, refl, cost, (cache, tier, ttl, told.world, e, ap (λ d. d.0) write)));
  }

  -- The answer after the record and the report, if the cache takes it.
  cache_set-Settled :
      (cache : Option (PromptCache W))
      → env.cache ≡ cache
      → (tier : LlmTier) (spec : CallerSpec) (r : ChatResponse) (s told : State W)
      → told.held ≡ s.held
      → told.events ≡ s.events ++ event caller_id ok_outcome (some r) none ∷ []
      → OneCost r s.meter.rows told.meter.rows
      → Settled
          (Paid env caller_id messages)
          s
          (cache_set env caller_id messages cache tier spec r told)
  cache_set-Settled none e tier spec r s told held events cost = answered r s told held events cost
  cache_set-Settled (some cache) e tier spec r s told held events cost =
      let ttl = spec.cache_ttl_seconds in
      after_set-Settled cache tier ttl r s told (cache.set caller_id tier messages r ttl told.world)
        e refl held events cost

  keep-Settled :
      (force : Option LlmTier) (tier : LlmTier) (spec : CallerSpec) (s : State W)
      (r : Result LlmError ChatResponse) (t : State W)
      → Moved (OuterEvents caller_id) s (r, t)
      → Settled (Paid env caller_id messages) s (keep env caller_id messages force tier spec (r, t))
  unfolding record_cost
  keep-Settled force tier spec s (err e) t h = record {
    held = h.held;
    emitted = h.emitted;
    events = h.events;
    account = inl (h.told, h.rows);
  }
  keep-Settled force tier spec s (ok r) t h =
      let today = env.today t.world in
      let meter = record_cost today r.tier r.fallback_used r.cost_usd t.meter in
      let told : State W = emit caller_id ok_outcome (some r) none (record t { meter = meter }) in
      let cost : OneCost r s.meter.rows told.meter.rows = (
        today,
        ap (add_cost (record { day = today; tier = r.tier; fallback = r.fallback_used }) r.cost_usd)
            h.rows,
      ) in
      let events =
        ap (λ es. es ++ event caller_id ok_outcome (some r) none ∷ [])
          (h.events ∙ ap (λ es. s.events ++ es) h.told ∙ append-nil s.events) in
      elim (Bool-cases (is_cached force spec)) [
        | inl takes ↦
            rw takes (cache_set-Settled env.cache refl tier spec r s told h.held events cost)
        | inr other ↦ rw other (answered r s told h.held events cost)
      ]

  after_gate-Settled :
      (force : Option LlmTier) (tier : LlmTier) (spec : CallerSpec) (s : State W)
      (g : Bool × CostMeter)
      → g.1.rows ≡ s.meter.rows
      → Settled
          (Paid env caller_id messages)
          s
          (after_gate env caller_id messages force tier spec s g)
  after_gate-Settled force tier spec s (false, m) same = record {
    held = refl;
    emitted = event caller_id rate_limit_outcome none (some "cost_breaker_open") ∷ [];
    events = refl;
    account = inl (("cost_breaker_open", refl), same);
  }
  after_gate-Settled force tier spec s (true, m) same =
      let wait = env.caller_wait caller_id s.world in
      let s' : State W = record s { meter = m } in
      let a = within_caller env caller_id messages tier s' wait in
      keep-Settled force tier spec s a.0 a.1 (
        with_meter caller_id (OuterEvents caller_id) s m a same
          (within_caller-Moved env caller_id messages tier s' wait.0 wait.1))

  uncached-Settled :
      (force : Option LlmTier) (tier : LlmTier) (spec : CallerSpec) (s : State W)
      → Settled (Paid env caller_id messages) s (uncached env caller_id messages force tier spec s)
  uncached-Settled force tier spec s =
      let now = env.clock s.world in
      let today = env.today s.world in
      after_gate-Settled force tier spec s (allow env.config now today false s.meter)
        (allow_rows env.config now today false s.meter)

  paid_uncached :
      (force : Option LlmTier) (tier : LlmTier) (spec : CallerSpec) (s : State W) (w : W)
      → Settled
          (Spent env caller_id messages s.world)
          s
          (uncached env caller_id messages force tier spec (record s { world = w }))
  paid_uncached force tier spec s w =
      let s' : State W = record s { world = w } in
      let a = uncached env caller_id messages force tier spec s' in
      let h = uncached-Settled force tier spec s' in
      record {
        held = h.held;
        emitted = h.emitted;
        events = h.events;
        account =
            Spent-Paid env caller_id messages s.world a.0 h.emitted s.meter.rows a.1.meter.rows
              h.account;
      }

  after_cache-Settled :
      (force : Option LlmTier) (tier : LlmTier) (spec : CallerSpec) (s : State W)
      (found : Result CacheFault (Option ChatResponse)) (w : W)
      → ReadGave env caller_id messages s.world found
      → Settled
          (Spent env caller_id messages s.world)
          s
          (after_cache env caller_id messages force tier spec s (found, w))
  after_cache-Settled force tier spec s (ok (some r)) w read = record {
    held = refl;
    emitted = event caller_id ok_outcome (some r) none ∷ [];
    events = refl;
    account = (refl, inl (refl, read));
  }
  after_cache-Settled force tier spec s (ok none) w read = paid_uncached force tier spec s w
  after_cache-Settled force tier spec s (err f) w read = record {
    held = refl;
    emitted = [];
    events = sym (append-nil s.events);
    account = inr (inr (f, refl, refl, refl, read));
  }

  ask_cache-Settled :
      (cache : Option (PromptCache W))
      → env.cache ≡ cache
      → (force : Option LlmTier) (tier : LlmTier) (spec : CallerSpec) (s : State W)
      → Settled
          (Spent env caller_id messages s.world)
          s
          (ask_cache env caller_id messages cache force tier spec s)
  ask_cache-Settled none e force tier spec s = paid_uncached force tier spec s s.world
  ask_cache-Settled (some cache) e force tier spec s = elim (Bool-cases (is_cached force spec)) [
    | inl eligible ↦
        let found = cache.get caller_id tier messages s.world in
        rw eligible (after_cache-Settled force tier spec s found.0 found.1 (cache, tier, e, refl))
    | inr other ↦ rw other (paid_uncached force tier spec s s.world)
  ]

  chat_as-Settled :
      (force : Option LlmTier) (signals : RuntimeSignals) (s : State W) (spec : Option CallerSpec)
      → Settled
          (Spent env caller_id messages s.world)
          s
          (chat_as env caller_id messages force signals s spec)
  chat_as-Settled force signals s none = record {
    held = refl;
    emitted = [];
    events = sym (append-nil s.events);
    account = inl (refl, refl);
  }
  chat_as-Settled force signals s (some spec) =
      ask_cache-Settled env.cache refl force (forced force (tier_of spec signals)) spec s

  -- However the adapters, the accesses of the cache and the waits end, a call of `chat` gives back every
  -- permit that it took. A call that returns reports its response as `ok` once, and records its cost once
  -- unless the cache had it. One that raises records nothing and reports one refusal where a budget
  -- refuses, nothing for an unknown caller and for a cancellation, and else one `error`, with two
  -- exceptions: where the read of the cache fails nothing is reported, and where its write fails the
  -- response that is lost was reported as `ok` and its cost recorded once. No outcome is `timeout`.
  pub chat-Settled :
      (force : Option LlmTier) (signals : RuntimeSignals) (s : State W)
      → Settled
          (Spent env caller_id messages s.world)
          s
          (chat env caller_id messages force signals s)
  unfolding chat
  chat-Settled force signals s = chat_as-Settled force signals s (lookup caller_id)
