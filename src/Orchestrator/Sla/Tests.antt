-- ===== src/Orchestrator/Sla/Tests.antt =====
-- Runs of sla.py.
use investment_intelligence.Prelude.Outcome.{ok}
use investment_intelligence.Prelude.{ℕ, ◌+◌, ◌*◌, ◌≡◌, refl, none, some}
use investment_intelligence.Orchestrator.Sla.{
  returned, Run, Alerter, cut, Node, lookup_sla, hard_timeout, with_sla_timeout, second,
}
use investment_intelligence.Orchestrator.Sla.Laws.{Reported, with_sla_timeout-Reported}

abbrev slow : Run ℕ ℕ
slow = record {
  duration = 95 * second;
  ending = returned 7;
  after = 1;
  cancel_took = 4 * second;
  cancel_ending = none;
  after_cancel = 2;
}

-- The alert is sent in 20 ms, and counted in the state.
abbrev count_alert : Alerter ℕ
count_alert name s = (ok tt, (20, s + 10))

abbrev rogers : Node ℕ ℕ
rogers = record {
  name = "persona.rogers.daily";
  fn = λ _. slow;
  soft_timeout_s = none;
  hard_timeout_s = none;
}

rogers_hard : hard_timeout rogers ≡ some (90 * second)
unfolding hard_timeout lookup_sla
rogers_hard = refl

rogers_is_late :
    with_sla_timeout (some count_alert) rogers 0 ≡ ok (cut rogers (94 * second + 20) 12)
unfolding with_sla_timeout hard_timeout lookup_sla
rogers_is_late = refl

with_sla_timeout-Reported_example :
    Reported
      (some count_alert)
      rogers
      (90 * second)
      slow
      (with_sla_timeout (some count_alert) rogers 0)
with_sla_timeout-Reported_example =
    with_sla_timeout-Reported rogers (some count_alert) (90 * second) 0 rogers_hard

no_sla : lookup_sla "n_event_triage" ≡ none
unfolding lookup_sla
no_sla = refl
