-- ===== src/Orchestrator/Auxiliary/Tests.antt =====
-- Runs of the graphs of auxiliary_dags.py.
use investment_intelligence.Prelude.{◌≡◌, refl, true, [], ◌∷◌, ◌++◌, List, String, if◌then◌else◌}
use investment_intelligence.Prelude.Keys.{◌=?◌, String-keys}
use investment_intelligence.Prelude.Outcome.{Result, ok, err}
use investment_intelligence.Orchestrator.Dag.{Graph, DagResult, one_by_one, execute, run_direct}
use investment_intelligence.Orchestrator.Dag.Single.{one_by_one-RunsOne}
use investment_intelligence.Orchestrator.Auxiliary.{
  text, flag, Answer, Request, synth, regime_check, notify_regime, State, initial, n_intel_pulse,
  n_regime_check, n_notify_if_changed,
}
use investment_intelligence.Orchestrator.Auxiliary.Runs.{
  midday_pulse, evening_recap, build, in_order, execute-in_order,
}
use investment_intelligence.Orchestrator.Auxiliary.Pushes.{
  midday_calls, recap_calls, pushes_when_due,
}

-- The world is what was asked; the backtest is down.
abbrev call : String → Request → List Request → Result String Answer × List Request
call agent r w = if agent =? "agent_backtest" then (err "down", w ++ r ∷ []) else (
  ok (
      ("macro_regime", text "risk_off")
      ∷ ("changed", flag true)
      ∷ ("markdown", text "# Recap")
      ∷ []),
  w ++ r ∷ [],
)

told_of_change :
    (in_order call midday_pulse (initial [])).world
    ≡ synth "midday_pulse" ∷ regime_check (text "risk_off") ∷ notify_regime (text "risk_off") ∷ []
unfolding in_order n_intel_pulse n_regime_check n_notify_if_changed
told_of_change = refl

pushes_when_due_example :
    ((in_order call midday_pulse (initial [])).world ≡ midday_calls call [])
    × ((in_order call evening_recap (initial [])).world ≡ recap_calls call [])
pushes_when_due_example = pushes_when_due call []

execute-in_order_example :
    (g : Graph (State (List Request)) (Unit {0})) × ((r : DagResult
        (State (List Request))
        (Unit {0}))
      × (build call evening_recap ≡ ok g)
      × (execute (one_by_one run_direct) g (initial []) 0 600_000 ≡ ok r)
      × (r.state ≡ in_order call evening_recap (initial [])))
execute-in_order_example =
    execute-in_order call (one_by_one run_direct) evening_recap (initial [])
      (one_by_one-RunsOne run_direct)
