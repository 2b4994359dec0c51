-- ===== src/Backtest/Tests.antt =====
-- Runs of a tick of scheduler.py over three positions.
use investment_intelligence.Prelude.{
  ℕ, ◌≡◌, refl, true, false, Option, none, some, List, [], ◌∷◌, String, if◌then◌else◌,
}
use investment_intelligence.Prelude.Keys.{◌=?◌, String-keys}
use investment_intelligence.Prelude.Dict.{lookup}
use investment_intelligence.Prelude.Int.{pos, negsuc}
use investment_intelligence.Prelude.Float.{Float, real}
use investment_intelligence.Prelude.Outcome.{Result, ok}
use investment_intelligence.Backtest.{
  Position, long, stop, Store, check_exit, realize_pnl, tick, visit_all,
}
use investment_intelligence.Backtest.Ticks.{settled_or_none, tick-settled}

abbrev dollars : ℕ → Float
dollars n = real (pos n)

abbrev bought : String → Position
bought id = record {
  advice_id = id;
  agent = "quant";
  ticker = "AAPL";
  venue = "NASDAQ";
  side = long;
  entry_low = dollars 98;
  entry_high = dollars 102;
  target_low = dollars 120;
  target_high = dollars 130;
  stop_loss = dollars 90;
  expires_at = 500;
  opened_at = 10;
  fill_px = dollars 100;
  is_open = true;
  closed_at = none;
  exit_px = none;
  exit_reason = none;
  pnl_usd = dollars 0;
  pnl_r = record { num = dollars 0; den = dollars 1 };
  max_drawdown_pct = dollars 0;
  marks = [];
}

abbrev held : Store
held =
    ("a1", bought "a1")
    ∷ ("a2", record (bought "a2") { ticker = "TSLA" })
    ∷ ("a3", record (bought "a3") { is_open = false })
    ∷ []

-- The world is the list of the ids that were closed.
abbrev on_close : Position → List String → Result String (Unit {0}) × List String
on_close p w = (ok tt, p.advice_id ∷ w)

abbrev latest : String → Option Float
latest ticker = if ticker =? "AAPL" then some (dollars 85) else none

stopped_out :
    let (out, d, w) = tick on_close latest 100 held [] in
    (out ≡ ok 1)
    × (w ≡ "a1" ∷ [])
    × (lookup "a1" d
        ≡ some (record (bought "a1") {
          is_open = false;
          closed_at = some 100;
          exit_px = some (dollars 90);
          exit_reason = some stop;
          pnl_usd = real (negsuc 9);
          pnl_r = record { num = real (negsuc 9); den = dollars 10 };
          marks = (100, dollars 85) ∷ [];
        }))
    × (lookup "a2" d ≡ some (record (bought "a2") { ticker = "TSLA" }))
unfolding tick visit_all check_exit realize_pnl
stopped_out = (refl, refl, refl, refl)

tick-settled_example :
    (n : ℕ) × ((tick on_close latest 100 held []).0 ≡ ok n)
    × (lookup "a1" (tick on_close latest 100 held []).1
        ≡ settled_or_none latest 100 (lookup "a1" held))
tick-settled_example =
    tick-settled latest 100 on_close (λ p w. refl) "a1" held []
      (refl, refl, (refl, refl, (refl, refl, tt)))
