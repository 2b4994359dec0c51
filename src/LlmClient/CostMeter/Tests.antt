-- ===== src/LlmClient/CostMeter/Tests.antt =====
-- Runs of cost_meter.py.
use investment_intelligence.Prelude.{◌≡◌, refl, true, false, List, [], ◌∷◌, arith}
use investment_intelligence.LlmClient.Matrix.{flash, pro}
use investment_intelligence.LlmClient.CostMeter.{
  Config, CostMeter, closed, allow, record_cost, total_spend,
}
use investment_intelligence.LlmClient.CostMeter.Budget.{
  Use, spend, spend_all, capped, IsWithin, spend_bounded, Refused, refusal_holds,
}

abbrev new_meter : CostMeter
new_meter = record { rows = []; state = closed; opened_at = 0 }

-- 100 for all calls, 60 for the fallback, an hour of cooldown.
abbrev budget : Config
budget = capped 100 60 3600

abbrev calls : List Use
calls =
    (record { now = 10; today = 40; tier = flash; fallback = false; cost = 30 })
    ∷ (record { now = 20; today = 40; tier = pro; fallback = true; cost = 50 })
    ∷ (record { now = 30; today = 41; tier = pro; fallback = true; cost = 50 })
    ∷ (record { now = 40; today = 41; tier = pro; fallback = true; cost = 50 })
    ∷ []

calls_spend : total_spend 41 false (spend_all budget calls new_meter).rows ≡ 130
unfolding spend allow record_cost
calls_spend = refl

spend_bounded_example : IsWithin 100 60 50 41 (spend_all budget calls new_meter)
spend_bounded_example =
    spend_bounded 100 60 3600 50 calls 0 new_meter
      (
        omega arith,
        omega arith,
        (omega arith, omega arith, (omega arith, omega arith, (omega arith, omega arith, tt))),
      )
      (record { monthly = omega arith; fallback = omega arith })

abbrev spent : CostMeter
spent = record_cost 40 flash false 100 new_meter

spent_refused : (allow budget 50 41 false spent).0 ≡ false
unfolding allow record_cost
spent_refused = refl

Refused-until_cooldown : Refused budget 50 spent (allow budget 50 41 false spent).1
Refused-until_cooldown = refusal_holds budget 50 41 false spent spent_refused
