-- ===== src/Orchestrator/Room/Tests.antt =====
-- Runs of the trading room on answers that do not depend on the plans.
use investment_intelligence.Prelude.{
  ℕ, ◌+◌, ◌≡◌, refl, ◌≢◌, true, false, none, some, [], ◌∷◌, String, if◌then◌else◌,
}
use investment_intelligence.Prelude.Keys.{◌=?◌, String-keys}
use investment_intelligence.Prelude.Outcome.{Result, ok, err}
use investment_intelligence.Orchestrator.Triage.{Route, trading_room, drop}
use investment_intelligence.Orchestrator.Dag.{Graph, DagResult, one_by_one, execute, run_direct}
use investment_intelligence.Orchestrator.Dag.Single.{one_by_one-RunsOne}
use investment_intelligence.Orchestrator.Room.{
  call_raised, no_plans_for_board, Response, Request, team_plan, decide, trading_room_brief, notify,
  State, initial, n_triage, n_fanout, n_board, n_brief, n_notify, build_trading_room_dag,
}
use investment_intelligence.Orchestrator.Room.Runs.{run_room, execute-run_room}
use investment_intelligence.Orchestrator.Room.Quiet.{room_asleep}

abbrev silent : Response ℕ ℕ
silent = record {
  is_breaker_open = false;
  plan = none;
  decision = none;
  degraded = false;
  markdown = none;
}

-- The world counts the calls. The quant team is down, and the others plan.
abbrev call : String → Request ℕ ℕ → ℕ → Result String (Response ℕ ℕ) × ℕ
call agent team_plan n =
    if agent =? "agent_quant"
    then (err "down", n + 1)
    else (ok (record silent { plan = some 7 }), n + 1)
call agent (decide ps) n = (ok (record silent { decision = some 9 }), n + 1)
call agent (trading_room_brief d ps g rs) n =
    (ok (record silent { markdown = some "brief" }), n + 1)
call agent (notify md) n = (ok silent, n + 1)

abbrev wake : ℕ → Result String Route × ℕ
wake n = (ok trading_room, n)

abbrev sleep : ℕ → Result String Route × ℕ
sleep n = (ok drop, n)

two_teams_decide :
    let s = run_room call wake (initial 0) in
    (s.world ≡ 6)
    × (s.plans ≡ 7 ∷ 7 ∷ [])
    × (s.board_decision ≡ some 9)
    × (s.notify_result ≡ some silent)
    × (s.degraded_reasons ≡ call_raised "agent_quant" ∷ [])
unfolding run_room n_triage n_fanout n_board n_brief n_notify
two_teams_decide = (refl, refl, refl, refl, refl)

sleep_drops : (sleep 3).0 ≢ ok trading_room
sleep_drops e = cc

room_asleep_example :
    let s = run_room call sleep (initial 3) in
    (s.world ≡ 3)
    × (s.notify_result ≡ none)
    × (s.board_decision ≡ none)
    × (s.degraded ≡ true)
    × (s.degraded_reasons ≡ no_plans_for_board ∷ [])
room_asleep_example = room_asleep call sleep 3 sleep_drops

execute-run_room_example :
    (g : Graph (State ℕ ℕ ℕ) (Unit {0})) × ((r : DagResult (State ℕ ℕ ℕ) (Unit {0}))
      × (build_trading_room_dag call wake ≡ ok g)
      × (execute (one_by_one run_direct) g (initial 0) 0 600_000 ≡ ok r)
      × (r.state ≡ run_room call wake (initial 0)))
execute-run_room_example =
    execute-run_room call wake (one_by_one run_direct) (initial 0) (one_by_one-RunsOne run_direct)
