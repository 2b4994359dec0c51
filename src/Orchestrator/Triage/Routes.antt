-- ===== src/Orchestrator/Triage/Routes.antt =====
-- What `triage` of event_triage.py decides.
use investment_intelligence.Prelude.{◌≡◌, ◌≢◌, ◌⊎◌, Bool, true, false, Option, none, some}
use investment_intelligence.Prelude.Outcome.{Result, ok, err}
use investment_intelligence.LlmClient.Router.{LlmError, State}
use investment_intelligence.Orchestrator.Triage.{
  Route, trading_room, morning_brief_only, drop, Reason, TriageInputs, TriageDecision,
  high_impact_threshold, low_impact_threshold, has_overlap, signal, Verdict,
}

-- The scores leave the route to the language model: the event overlaps the universe, and its signal is
-- medium but not high.
pub record IsTie (t : TriageInputs) : Type 0 where
  pub overlap : has_overlap t ≡ true
  pub medium : signal low_impact_threshold t ≡ true
  pub not_high : signal high_impact_threshold t ≡ false

abbrev pub NumericRoute : TriageInputs → Option (Route × Reason) → Type 0
NumericRoute t none = IsTie t
NumericRoute t (some (trading_room, _)) =
    (has_overlap t ≡ true) × (signal high_impact_threshold t ≡ true)
NumericRoute t (some (morning_brief_only, _)) =
    ((has_overlap t ≡ true) × (signal low_impact_threshold t ≡ false))
    ⊎ ((has_overlap t ≡ false) × (signal low_impact_threshold t ≡ true))
NumericRoute t (some (drop, _)) = (has_overlap t ≡ false) × (signal low_impact_threshold t ≡ false)

-- What a decision says of its event.
pub record Decided {W : Type 0} (enabled : Bool) (t : TriageInputs) (s : State W)
    (a : Result LlmError TriageDecision × State W) : Type 0 where
  pub wakes :
      (d : TriageDecision)
      → a.0 ≡ ok d
      → d.route ≡ trading_room
      → (enabled ≡ true)
        × (has_overlap t ≡ true)
        × ((signal high_impact_threshold t ≡ true) ⊎ IsTie t)
  pub skips : (d : TriageDecision) → a.0 ≡ ok d → d.cost_skipped ≡ true → d.route ≡ drop
  pub asks : IsTie t ⊎ ((a.1 ≡ s) × ((e : LlmError) → a.0 ≢ err e))

-- A verdict that is reported as skipped drops the event.
abbrev SkipDrops : Verdict → Type 0
SkipDrops (route, (reason, cost_skipped)) = cost_skipped ≡ true → route ≡ drop
