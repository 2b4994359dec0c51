-- ===== src/Orchestrator/Client/Shield.antt =====
-- How the circuit breaker in agent_client.py keeps calls from an agent that fails.
use mathlib.Core.Path.{sym, subst}
use investment_intelligence.Prelude.{
  ℕ, zero, suc, ◌∙◌, Bool-cases, All, ◌+◌, ◌≤◌, ◌<◌, ◌≡◌, ◌≢◌, refl, ◌⊎◌, inl, inr, Bool, List, [],
  ◌∷◌, Option, none, some, String, arith,
}
use investment_intelligence.Prelude.Keys.{◌=?◌, String-keys}
use investment_intelligence.Prelude.Dict.{Dict, lookup, lookup-insert_self, lookup-insert_ne}
use investment_intelligence.Orchestrator.Breaker.{
  State, store, closed, opened, BreakerState, Config, Entry, refused, probing, passing, Ending,
  raised, Registry, state_for, enter_call, leave_call, enter, leave,
}
use investment_intelligence.Orchestrator.Breaker.Machine.{enter-refused}
use investment_intelligence.Orchestrator.Client.{
  failed, Sent, Client, send, call, call_at_url, under_breaker, after_send, ending_of,
}

-- The breaker may still let `k` calls through before `from` and the cooldown have passed.
abbrev Left : Config → ℕ → ℕ → BreakerState → Type 0
Left cfg from k st =
    ((st.state ≡ closed) × (st.consecutive_failures + k ≡ cfg.failure_threshold) × (0 < k))
    ⊎ ((st.state ≡ opened) × (from ≤ st.opened_at))

-- A failing call that enters the breaker so: it is refused, or it uses one of those calls.
abbrev Next : Config → ℕ → ℕ → ℕ → Entry × BreakerState × List State → Type 0
Next cfg from k later (entry, st, told) =
    ((entry ≡ refused) × Left cfg from k st)
    ⊎ ((j : ℕ) × (k ≡ suc j)
        × (entry ≡ passing)
        × Left cfg from j (leave cfg later passing raised st).0)

enter-passing :
    (cfg : Config) (now : ℕ) (st : BreakerState)
    → st.state ≡ closed
    → enter cfg now st ≡ (passing, st, [])
unfolding enter
enter-passing cfg now st c = ground arith

leave-Left :
    (cfg : Config) (from j later : ℕ) (st : BreakerState)
    → st.state ≡ closed
    → st.consecutive_failures + suc j ≡ cfg.failure_threshold
    → from ≤ later
    → Left cfg from j (leave cfg later passing raised st).0
unfolding leave
leave-Left cfg from zero later st c e after = inr (ground arith)
leave-Left cfg from (suc j) later st c e after = inl (ground arith)

enter-Next :
    (cfg : Config) (from k now later : ℕ) (st : BreakerState)
    → Left cfg from k st
    → from ≤ later
    → now < from + cfg.cooldown_s
    → Next cfg from k later (enter cfg now st)
enter-Next cfg from k now later st (inr (o, h)) after early =
    subst (Next cfg from k later) (sym (enter-refused cfg now st o (omega (arith, h, early))))
      (inl (refl, inr (o, h)))
enter-Next cfg from zero now later st (inl (c, e, p)) after early = absurd (omega (arith, p))
enter-Next cfg from (suc j) now later st (inl (c, e, p)) after early =
    subst (Next cfg from (suc j) later) (sym (enter-passing cfg now st c))
      (inr (j, refl, refl, leave-Left cfg from j later st c e after))

state_for-store :
    (a : String) (r : Registry) (x : BreakerState × List State) → state_for (store r a x) a ≡ x.0
state_for-store a r (st, told) = rw (lookup-insert_self a st r.states)

state_for-store_ne :
    (a b : String) (r : Registry) (x : BreakerState × List State)
    → b ≢ a
    → state_for (store r b x) a ≡ state_for r a
state_for-store_ne a b r (st, told) h = rw (lookup-insert_ne b a st r.states h)

state_for-leave_call :
    (cfg : Config) (now : ℕ) (a : String) (entry : Entry) (ending : Ending) (r : Registry)
    → state_for (leave_call cfg now a entry ending r) a
      ≡ (leave cfg now entry ending (state_for r a)).0
unfolding leave_call
state_for-leave_call cfg now a entry ending r =
    state_for-store a r (leave cfg now entry ending (state_for r a))

module _ {Q R E W : Type 0} (cfg : Config) (base : Dict String String) (use_nats : Bool)
    (post nats_call : String → Q → W → Sent R E W) (sent : W → ℕ) (agent : String)
    (fails : (url : String) (p : Q) (w : W)
      → lookup agent base ≡ some url
      → (e : E) × ((send cfg base use_nats post nats_call agent url p w).outcome ≡ failed e))
    (counted : (url : String) (p : Q) (w : W)
      → lookup agent base ≡ some url
      → sent (send cfg base use_nats post nats_call agent url p w).world ≤ suc (sent w))
    (others : (b url : String) (p : Q) (w : W)
      → b ≢ agent
      → lookup b base ≡ some url
      → sent (send cfg base use_nats post nats_call b url p w).world ≡ sent w) where
  -- What a call leaves of `k` calls.
  abbrev Kept : ℕ → ℕ → ℕ → Client W → Type 0
  Kept from k before s =
      (m : ℕ) × Left cfg from m (state_for s.breaker agent) × (sent s.world + m ≤ before + k)

  failed-Kept :
      (from k now : ℕ) (e : E) (st : BreakerState) (told : List State) (r : Registry)
      (t : Sent R E W) (w : W)
      → t.outcome ≡ failed e
      → sent t.world ≤ suc (sent w)
      → Next cfg from k (now + t.took) (passing, st, told)
      → Kept from k
          (sent w)
          (after_send cfg base use_nats post nats_call agent passing now
            (store r agent (st, told))
            t).1
  failed-Kept from k now e st told r t w h c (inl (e', left)) = absurd (cc)
  failed-Kept from k now e st told r t w h c (inr (j, uses, same, left)) =
      let later = now + t.took in
      let r' = store r agent (st, told) in
      let after : state_for (leave_call cfg later agent passing (ending_of t.outcome) r') agent
          ≡ (leave cfg later passing raised st).0 =
        state_for-leave_call cfg later agent passing (ending_of t.outcome) r'
        ∙ rw (h, state_for-store agent r (st, told)) refl in
      (j, subst (Left cfg from j) (sym after) left, omega (arith, c, uses))

  refused-Kept :
      (from k later : ℕ) (st : BreakerState) (told : List State) (r : Registry) (w : W)
      → Next cfg from k later (refused, st, told)
      → Kept from k (sent w) (record { breaker = store r agent (st, told); world = w })
  refused-Kept from k later st told r w (inl (same, left)) =
      (k, subst (Left cfg from k) (sym (state_for-store agent r (st, told))) left, omega arith)
  refused-Kept from k later st told r w (inr (j, uses, same, left)) = absurd (cc)

  probing-none :
      (from k later : ℕ) (st : BreakerState) (told : List State)
      → ¬ Next cfg from k later (probing, st, told)
  probing-none from k later st told (inl (same, left)) = absurd (cc)
  probing-none from k later st told (inr (j, uses, same, left)) = absurd (cc)

  under-Kept :
      (from k now : ℕ) (url : String) (p : Q) (q : Entry × BreakerState × List State) (r : Registry)
      (w : W)
      → lookup agent base ≡ some url
      → from ≤ now
      → ((later : ℕ) → from ≤ later → Next cfg from k later q)
      → Kept from k
          (sent w)
          (under_breaker cfg base use_nats post nats_call agent url p now
            (q.0, store r agent (q.1, q.2))
            w).1
  under-Kept from k now url p (refused, st, told) r w at started n =
      refused-Kept from k now st told r w (n now started)
  under-Kept from k now url p (probing, st, told) r w at started n =
      absurd (probing-none from k now st told (n now started))
  under-Kept from k now url p (passing, st, told) r w at started n =
      let t = send cfg base use_nats post nats_call agent url p w in
      failed-Kept from k now (fails url p w at).0 st told r t w (fails url p w at).1
        (counted url p w at) (n (now + t.took) (omega (arith, started)))

  own-Kept :
      (from k now : ℕ) (url : Option String) (p : Q) (s : Client W)
      → lookup agent base ≡ url
      → Left cfg from k (state_for s.breaker agent)
      → from ≤ now
      → now < from + cfg.cooldown_s
      → Kept from k
          (sent s.world)
          (call_at_url cfg base use_nats post nats_call url agent p now s).1
  unfolding enter_call
  own-Kept from k now none p s at left started early = (k, left, omega arith)
  own-Kept from k now (some url) p s at left started early =
      under-Kept from k now url p (enter cfg now (state_for s.breaker agent)) s.breaker s.world at
        started
        (λ later after.
          enter-Next cfg from k now later (state_for s.breaker agent) left after early)

  -- A call of another agent.
  Same : Registry → ℕ → Client W → Type 0
  Same r before s = (state_for s.breaker agent ≡ state_for r agent) × (sent s.world ≡ before)

  sent-Same :
      (b url : String) (p : Q) (now : ℕ) (entry : Entry) (st : BreakerState) (told : List State)
      (r : Registry) (w : W)
      → b ≢ agent
      → lookup b base ≡ some url
      → Same r
          (sent w)
          (after_send cfg base use_nats post nats_call b entry now
            (store r b (st, told))
            (send cfg base use_nats post nats_call b url p w)).1
  unfolding Same leave_call
  sent-Same b url p now entry st told r w ne at =
      let t = send cfg base use_nats post nats_call b url p w in
      let r' = store r b (st, told) in
      let x = leave cfg (now + t.took) entry (ending_of t.outcome) (state_for r' b) in
      (
        state_for-store_ne agent b r' x ne ∙ state_for-store_ne agent b r (st, told) ne,
        others b url p w ne at,
      )

  under-Same :
      (b url : String) (p : Q) (now : ℕ) (q : Entry × BreakerState × List State) (r : Registry)
      (w : W)
      → b ≢ agent
      → lookup b base ≡ some url
      → Same r
          (sent w)
          (under_breaker cfg base use_nats post nats_call b url p now
            (q.0, store r b (q.1, q.2))
            w).1
  unfolding Same
  under-Same b url p now (refused, st, told) r w ne at =
      (state_for-store_ne agent b r (st, told) ne, refl)
  under-Same b url p now (probing, st, told) r w ne at =
      sent-Same b url p now probing st told r w ne at
  under-Same b url p now (passing, st, told) r w ne at =
      sent-Same b url p now passing st told r w ne at

  other-Same :
      (b : String) (url : Option String) (p : Q) (now : ℕ) (s : Client W)
      → b ≢ agent
      → lookup b base ≡ url
      → Same s.breaker (sent s.world) (call_at_url cfg base use_nats post nats_call url b p now s).1
  unfolding Same enter_call
  other-Same b none p now s ne at = (refl, refl)
  other-Same b (some url) p now s ne at =
      under-Same b url p now (enter cfg now (state_for s.breaker b)) s.breaker s.world ne at

  -- Calls of any agents, each with its payload and time.
  abbrev calls : List (String × Q × ℕ) → Client W → Client W
  calls [] s = s
  calls ((b, p, now) ∷ ops) s = calls ops (call cfg base use_nats post nats_call b p now s).1

  abbrev Early : ℕ → String × Q × ℕ → Type 0
  Early from (b, p, now) = (from ≤ now) × (now < from + cfg.cooldown_s)

  call-Kept :
      (from k now : ℕ) (b : String) (p : Q) (s : Client W)
      → Left cfg from k (state_for s.breaker agent)
      → Early from (b, p, now)
      → Kept from k (sent s.world) (call cfg base use_nats post nats_call b p now s).1
  unfolding call Same
  call-Kept from k now b p s left early = elim (Bool-cases (b =? agent)) [
    | inl same ↦
        subst (λ c. Kept from k (sent s.world) (call cfg base use_nats post nats_call c p now s).1)
          (sym ((String-keys.beq_iff b agent).0 same))
          (own-Kept from k now (lookup agent base) p s refl left early.0 early.1)
    | inr other ↦
        let (kept, uncalled) =
          other-Same b (lookup b base) p now s (λ e. ground (arith, String-keys.beq_iff b agent))
            refl in
        (k, subst (Left cfg from k) (sym kept) left, omega (arith, uncalled))
  ]

  calls-Kept :
      (from k : ℕ) (ops : List (String × Q × ℕ)) (s : Client W)
      → Left cfg from k (state_for s.breaker agent)
      → All (Early from) ops
      → sent (calls ops s).world ≤ sent s.world + k
  calls-Kept from k [] s left early = omega arith
  calls-Kept from k ((b, p, now) ∷ ops) s left early =
      let (m, left', fewer) = call-Kept from k now b p s left early.0 in
      let rest =
        calls-Kept from m ops (call cfg base use_nats post nats_call b p now s).1 left' early.1 in
      omega (arith, rest, fewer)

  -- An agent whose every request raises an exception is sent at most `failure_threshold` requests in a
  -- cooldown from the time `from`, if its breaker is closed with no failure counted: whatever agents
  -- are called in this time, in what order and with what answers, one call after another.
  pub requests_bounded :
      (from : ℕ) (ops : List (String × Q × ℕ)) (s : Client W)
      → (state_for s.breaker agent).state ≡ closed
      → (state_for s.breaker agent).consecutive_failures ≡ 0
      → 0 < cfg.failure_threshold
      → All (Early from) ops
      → sent (calls ops s).world ≤ sent s.world + cfg.failure_threshold
  requests_bounded from ops s c z some_calls early =
      calls-Kept from cfg.failure_threshold ops s (inl (c, omega (arith, z), some_calls)) early
