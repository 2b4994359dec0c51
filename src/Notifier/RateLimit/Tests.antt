-- ===== src/Notifier/RateLimit/Tests.antt =====
-- Runs of ratelimit.py.
use investment_intelligence.Prelude.{◌≡◌, refl, true, false, some, List, [], ◌∷◌, arith}
use investment_intelligence.Notifier.RateLimit.{
  Limits, Call, acquire_at, reset_of, acquire, reset, answers, default_limits, limit_of,
}
use investment_intelligence.Notifier.RateLimit.Refines.{answers-allowed, allowed_answers}

abbrev two_a_minute : Limits
two_a_minute = ("serverchan", (2, 60)) ∷ []

abbrev burst : List Call
burst =
    acquire_at "serverchan" 0
    ∷ acquire_at "serverchan" 10
    ∷ acquire_at "serverchan" 60
    ∷ acquire_at "wecom_bot:chat" 60
    ∷ acquire_at "serverchan" 61
    ∷ acquire_at "serverchan" 62
    ∷ reset_of (some "serverchan")
    ∷ acquire_at "serverchan" 62
    ∷ []

burst-answers :
    answers two_a_minute burst [] ≡ true ∷ true ∷ false ∷ true ∷ true ∷ false ∷ true ∷ []
unfolding answers acquire reset
burst-answers = refl

answers-allowed_example : answers two_a_minute burst [] ≡ allowed_answers two_a_minute burst []
answers-allowed_example = answers-allowed two_a_minute burst (
  omega arith,
  (omega arith, (omega arith, (omega arith, (omega arith, (omega arith, (omega arith, tt)))))),
)

-- The hint `chat` of the bot has no limit of its own.
chat_is_uncapped : limit_of default_limits "wecom_bot:chat" ≡ (0, 0)
unfolding default_limits
chat_is_uncapped = refl
