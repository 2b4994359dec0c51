-- ===== src/Orchestrator/Merge/Tests.antt =====
-- Advices of one agent, with a log of what the merger's callables were given.
use investment_intelligence.Prelude.{
  ℕ, suc, ◌≤◌, ◌≡◌, refl, Bool, true, some, List, [], ◌∷◌, String, length, arith,
}
use investment_intelligence.Prelude.Text.{codes, strip, strip_left, strip_right}
use investment_intelligence.Prelude.Outcome.{Result, ok, err}
use investment_intelligence.Orchestrator.Merge.{
  Payload, Alert, State, merge, merge_allowed, reject, recent, allow, quarantine_payload,
}
use investment_intelligence.Orchestrator.Merge.Limit.{grants, advices_bounded}
use investment_intelligence.Orchestrator.Merge.Outcomes.{Merged, merge-Merged}
use investment_intelligence.Orchestrator.Merge.Normalizer.{
  canonical_ticker, not_canonical, upper, upper_all, is_capital, is_ticker_char, matches_rest,
  matches_ticker,
}
use investment_intelligence.Orchestrator.Merge.Normalizer.Canonical.{
  IsTicker, canonical_ticker-Fixed, digit_first_refused,
}

-- The payloads appended, and the number of alerts.
abbrev Log : Type 0
Log = List (Payload ℕ) × ℕ

abbrev append_fn : Payload ℕ → Log → Result String (Unit {0}) × Log
append_fn p (appended, alerts) = (ok tt, (p ∷ appended, alerts))

abbrev alert_fn : Alert → Log → Result String (Unit {0}) × Log
alert_fn a (appended, alerts) = (ok tt, (appended, suc alerts))

abbrev is_valid : Payload ℕ → Bool
is_valid _ = true

abbrev good : Payload ℕ
good = record {
  id = some "01HX8E5G7M0000000000000001";
  agent = some "fundamental";
  ticker = some (codes " brk.b");
  rest = 7;
}

abbrev hong_kong : Payload ℕ
hong_kong = record good { ticker = some (codes "0700.HK") }

abbrev at_start : State ℕ Log
at_start = record {
  limit = record { max = 10; buckets = [] };
  quarantine = record { writable = true; can_write = λ _. true; files = [] };
  world = ([], 0);
}

good_is_appended :
    (merge append_fn alert_fn is_valid 5 good at_start).1.world
    ≡ ((record good { ticker = some (codes "BRK.B") }) ∷ [], 0)
unfolding merge merge_allowed canonical_ticker strip strip_left strip_right upper upper_all
    is_capital is_ticker_char matches_rest matches_ticker allow recent
good_is_appended = refl

hong_kong_is_quarantined :
    (merge append_fn alert_fn is_valid 5 hong_kong at_start).1.world ≡ ([], 1)
unfolding merge merge_allowed reject quarantine_payload canonical_ticker strip strip_left
    strip_right upper upper_all is_capital is_ticker_char matches_rest matches_ticker allow recent
hong_kong_is_quarantined = refl

-- The German letter has two letters in upper case.
sharp_s_is_two_letters : canonical_ticker (b'a' ∷ 0xdf ∷ []) ≡ ok (codes "ASS")
unfolding canonical_ticker strip strip_left strip_right upper upper_all is_capital is_ticker_char
    matches_rest matches_ticker
sharp_s_is_two_letters = refl

merge-Merged_example :
    Merged append_fn alert_fn is_valid 5 hong_kong at_start
      (merge append_fn alert_fn is_valid 5 hong_kong at_start)
merge-Merged_example = merge-Merged append_fn alert_fn is_valid 5 hong_kong at_start

advices_bounded_example :
    length (
      recent 70_000 (
        grants "quant"
          (("quant", 1) ∷ ("quant", 2) ∷ ("persona", 3) ∷ ("quant", 60_004) ∷ [])
          (record { max = 2; buckets = [] })))
    ≤ 2
advices_bounded_example =
    advices_bounded "quant" 2 0 70_000
      (("quant", 1) ∷ ("quant", 2) ∷ ("persona", 3) ∷ ("quant", 60_004) ∷ []) (omega arith)

canonical_ticker-Fixed_example :
    ((canonical_ticker (codes " brk.b") ≡ ok (codes "BRK.B"))
      → IsTicker (codes "BRK.B") × (canonical_ticker (codes "BRK.B") ≡ ok (codes "BRK.B")))
    × (IsTicker (codes "BRK.B") → canonical_ticker (codes "BRK.B") ≡ ok (codes "BRK.B"))
canonical_ticker-Fixed_example = canonical_ticker-Fixed (codes " brk.b") (codes "BRK.B")

hong_kong_refused : canonical_ticker (b' ' ∷ codes "0700.HK") ≡ err not_canonical
hong_kong_refused =
    digit_first_refused (b' ' ∷ []) (codes "700.HK") b'0' refl (omega arith) (omega arith)
