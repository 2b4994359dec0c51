-- ===== src/Orchestrator/Breaker/Machine.antt =====
-- What one call does at each state of the breaker of breaker.py.
use investment_intelligence.Prelude.{ℕ, ◌+◌, ◌≤◌, ◌<◌, ◌≡◌, false, [], ◌∷◌, arith}
use investment_intelligence.Orchestrator.Breaker.{
  closed, opened, half_open, BreakerState, Config, refused, probing, returned, raised, enter, leave,
  transition,
}

-- While it is open and the cooldown has not passed, a call is refused and nothing changes.
pub enter-refused :
    (cfg : Config) (now : ℕ) (st : BreakerState)
    → st.state ≡ opened
    → now < st.opened_at + cfg.cooldown_s
    → enter cfg now st ≡ (refused, st, [])
unfolding enter transition
enter-refused cfg now st h early = ground arith

-- After the cooldown the first call becomes the probe, and any call that comes before the probe
-- has ended is refused.
pub one_probe_after_cooldown :
    (cfg : Config) (now later : ℕ) (st : BreakerState)
    → st.state ≡ opened
    → st.half_open_inflight ≡ false
    → st.opened_at + cfg.cooldown_s ≤ now
    → let (entry, st', told) = enter cfg now st in
      (entry ≡ probing)
      × (st'.state ≡ half_open)
      × (told ≡ half_open ∷ [])
      × (enter cfg later st' ≡ (refused, st', []))
unfolding enter transition
one_probe_after_cooldown cfg now later st h idle due = ground arith

-- A probe that returns closes the breaker and clears the failures. One that raises opens it again,
-- with the cooldown counted from that moment.
pub probe_decides :
    (cfg : Config) (now : ℕ) (st : BreakerState)
    → st.state ≡ half_open
    → let (good, told) = leave cfg now probing returned st in
      let (bad, told') = leave cfg now probing raised st in
      (good.state ≡ closed)
      × (good.consecutive_failures ≡ 0)
      × (good.half_open_inflight ≡ false)
      × (told ≡ closed ∷ [])
      × (bad.state ≡ opened)
      × (bad.opened_at ≡ now)
      × (bad.half_open_inflight ≡ false)
      × (told' ≡ opened ∷ [])
unfolding leave
probe_decides cfg now st h = ground arith
