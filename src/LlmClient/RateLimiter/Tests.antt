-- ===== src/LlmClient/RateLimiter/Tests.antt =====
-- Runs of rate_limiter.py.
use investment_intelligence.Prelude.{◌+◌, ◌*◌, ◌≤◌, ◌≡◌, refl, some, List, [], ◌∷◌}
use investment_intelligence.LlmClient.RateLimiter.{
  Bucket, reserve, Op, acquire, cancel_sleep, release, after_all, slots,
}
use investment_intelligence.LlmClient.RateLimiter.Spacing.{count_in, WithinCap, slots_bounded}

-- Two calls at once, ten ticks apart.
abbrev bucket : Bucket
bucket = record { interval = 10; concurrency = some 2; next_ready = 0; out = 0 }

abbrev burst : List Op
burst =
    acquire 100
    ∷ acquire 101
    ∷ acquire 102
    ∷ release
    ∷ acquire 103
    ∷ cancel_sleep
    ∷ acquire 150
    ∷ []

burst-slots : slots burst bucket ≡ 100 ∷ 110 ∷ 120 ∷ 150 ∷ []
unfolding reserve
burst-slots = refl

slots_bounded_example :
    (count_in 100 (100 + 2 * 10) (slots burst bucket) ≤ 2)
    × (WithinCap (some 2) 0 → WithinCap (some 2) (after_all burst bucket).out)
slots_bounded_example = slots_bounded burst bucket 100 2
