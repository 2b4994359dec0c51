-- ===== src/Orchestrator/Breaker/Sequential.antt =====
-- Calls one after another: how many failures open the breaker of breaker.py.
use investment_intelligence.Prelude.{ℕ, suc, ◌+◌, ◌≤◌, ◌<◌, ◌≡◌, List, [], ◌∷◌, arith, length}
use investment_intelligence.Orchestrator.Breaker.{
  closed, opened, BreakerState, Config, Ending, raised, enter, leave,
}

-- One whole call at a time: it enters, and ends before the next one.
pub call_at : Config → ℕ → Ending → BreakerState → BreakerState
call_at cfg now ending st =
    let (entry, st', _) = enter cfg now st in (leave cfg now entry ending st').0

-- Calls at the given times, all of which raise.
pub failing_calls : Config → List ℕ → BreakerState → BreakerState
failing_calls cfg [] st = st
failing_calls cfg (now ∷ later) st = failing_calls cfg later (call_at cfg now raised st)

abbrev IsCounting : ℕ → BreakerState → Type 0
IsCounting n st = (st.state ≡ closed) × (st.consecutive_failures ≡ n)

call_below :
    (cfg : Config) (now n : ℕ) (st : BreakerState)
    → IsCounting n st
    → suc n < cfg.failure_threshold
    → IsCounting (suc n) (call_at cfg now raised st)
unfolding call_at enter leave
call_below cfg now n st h below = ground arith

call_reaches :
    (cfg : Config) (now n : ℕ) (st : BreakerState)
    → IsCounting n st
    → cfg.failure_threshold ≤ suc n
    → ((call_at cfg now raised st).state ≡ opened) × ((call_at cfg now raised st).opened_at ≡ now)
unfolding call_at enter leave
call_reaches cfg now n st h at = ground arith

failing_below :
    (cfg : Config) (times : List ℕ) (n : ℕ) (st : BreakerState)
    → IsCounting n st
    → n + length times < cfg.failure_threshold
    → IsCounting (n + length times) (failing_calls cfg times st)
unfolding failing_calls
failing_below cfg [] n st h below = (h.0, omega arith)
failing_below cfg (now ∷ times) n st h below =
    let rest =
      failing_below cfg times (suc n) (call_at cfg now raised st)
        (call_below cfg now n st h (omega arith)) (omega arith) in
    (rest.0, omega arith)

-- From a closed breaker with no failures, fewer failing calls than the threshold leave it closed
-- with that many failures counted, and the failing call that reaches the threshold opens it at its
-- own time.
pub opens_at_threshold :
    (cfg : Config) (times : List ℕ) (now : ℕ) (st : BreakerState)
    → st.state ≡ closed
    → st.consecutive_failures ≡ 0
    → length times < cfg.failure_threshold
    → let before = failing_calls cfg times st in
      (before.state ≡ closed)
      × (before.consecutive_failures ≡ length times)
      × (cfg.failure_threshold ≡ suc (length times)
          → ((call_at cfg now raised before).state ≡ opened)
            × ((call_at cfg now raised before).opened_at ≡ now))
opens_at_threshold cfg times now st c z below =
    let h = failing_below cfg times 0 st (c, z) (omega arith) in
    (
      h.0,
      omega arith,
      λ e.
          call_reaches cfg now (length times) (failing_calls cfg times st) (h.0, omega arith)
            (omega arith),
    )
