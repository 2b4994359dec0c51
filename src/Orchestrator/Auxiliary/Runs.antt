-- ===== src/Orchestrator/Auxiliary/Runs.antt =====
-- The graphs of auxiliary_dags.py, built and run by the runner of runner.py.
use investment_intelligence.Prelude.{true, String, ◌≡◌, refl, ◌∙◌}
use investment_intelligence.Prelude.Outcome.{Result, ok}
use investment_intelligence.Orchestrator.Dag.{
  Graph, Runner, one_by_one, nodes_of, run_each, DagResult, add_node, add_edge, set_entry,
  successors, compute_parents, run_round, settle_round, round, loop, finished, execute, run_direct,
}
use investment_intelligence.Orchestrator.Dag.Direct.{flat, execute-flat}
use investment_intelligence.Orchestrator.Dag.Single.{RunsOne, single_run, single_file}
use investment_intelligence.Orchestrator.Auxiliary.{
  Answer, Request, State, Built, n_intel_pulse, n_regime_check, n_notify_if_changed, n_backtest_mtm,
  n_recap_brief, n_recap_notify, n_pull, n_hourly_synth, n_eval_prompts, n_publish_leaderboard,
  n_route, n_notify_fill, n_runbook_hint, build_midday_pulse_dag, build_evening_recap_dag,
  build_intel_rss_pull_dag, build_intel_gdelt_pull_dag, build_intel_macro_pull_dag,
  build_hourly_intel_dag, build_weekly_eval_dag, build_intel_digest_event_dag,
  build_backtest_fill_event_dag, build_ops_alert_event_dag,
}

-- The graphs by name.
pub data Plan : Type 0 where
  midday_pulse evening_recap intel_rss_pull intel_gdelt_pull intel_macro_pull : Plan
  hourly_intel_pulse weekly_eval event_intel_digest event_backtest_fill event_ops_alert : Plan

module _ {W E : Type 0} (call : String → Request → W → Result E Answer × W) where
  pub build : Plan → Built {W = W} {E = E} call
  build midday_pulse = build_midday_pulse_dag call
  build evening_recap = build_evening_recap_dag call
  build intel_rss_pull = build_intel_rss_pull_dag call
  build intel_gdelt_pull = build_intel_gdelt_pull_dag call
  build intel_macro_pull = build_intel_macro_pull_dag call
  build hourly_intel_pulse = build_hourly_intel_dag call
  build weekly_eval = build_weekly_eval_dag call
  build event_intel_digest = build_intel_digest_event_dag call
  build event_backtest_fill = build_backtest_fill_event_dag call
  build event_ops_alert = build_ops_alert_event_dag call

  -- The nodes of a graph in their order, each on the state that the one before it left.
  unfoldable pub in_order : Plan → State W → State W
  in_order midday_pulse s =
      (n_notify_if_changed call (n_regime_check call (n_intel_pulse call s).1).1).1
  in_order evening_recap s =
      (n_recap_notify call (n_recap_brief call (n_backtest_mtm call s).1).1).1
  in_order intel_rss_pull s = (n_pull call "rss" "accepted_event_ids" s).1
  in_order intel_gdelt_pull s = (n_pull call "gdelt" "accepted_event_ids" s).1
  in_order intel_macro_pull s = (n_pull call "macro" "series" s).1
  in_order hourly_intel_pulse s = (n_hourly_synth call s).1
  in_order weekly_eval s = (n_publish_leaderboard call (n_eval_prompts call s).1).1
  in_order event_intel_digest s = (n_route call s).1
  in_order event_backtest_fill s = (n_notify_fill call s).1
  in_order event_ops_alert s = (n_runbook_hint call s).1

  flat-in_order :
      (p : Plan) (s : State W)
      → (g : Graph (State W) (Unit {0})) × ((r : DagResult (State W) (Unit {0})) × (build p ≡ ok g)
          × (execute (one_by_one flat) g s 0 600_000 ≡ ok r)
          × (single_run flat g s 0 600_000 ≡ true)
          × (r.state ≡ in_order p s))
  unfolding build build_midday_pulse_dag build_evening_recap_dag build_intel_rss_pull_dag
      build_intel_gdelt_pull_dag build_intel_macro_pull_dag build_hourly_intel_dag
      build_weekly_eval_dag build_intel_digest_event_dag build_backtest_fill_event_dag
      build_ops_alert_event_dag add_node add_edge set_entry successors compute_parents run_round
      settle_round round loop execute finished in_order nodes_of run_each single_run single_file
  flat-in_order midday_pulse s = (_, (_, refl, refl, refl, refl))
  flat-in_order evening_recap s = (_, (_, refl, refl, refl, refl))
  flat-in_order intel_rss_pull s = (_, (_, refl, refl, refl, refl))
  flat-in_order intel_gdelt_pull s = (_, (_, refl, refl, refl, refl))
  flat-in_order intel_macro_pull s = (_, (_, refl, refl, refl, refl))
  flat-in_order hourly_intel_pulse s = (_, (_, refl, refl, refl, refl))
  flat-in_order weekly_eval s = (_, (_, refl, refl, refl, refl))
  flat-in_order event_intel_digest s = (_, (_, refl, refl, refl, refl))
  flat-in_order event_backtest_fill s = (_, (_, refl, refl, refl, refl))
  flat-in_order event_ops_alert s = (_, (_, refl, refl, refl, refl))

  -- Each of the ten graphs is well formed, and a run of it, in whatever order the sets are iterated and
  -- however `gather` runs several nodes, ends with the state that its nodes leave in their order,
  -- whichever of them raise.
  pub execute-in_order :
      (runner : Runner (State W) (Unit {0})) (p : Plan) (s : State W)
      → RunsOne runner run_direct
      → (g : Graph (State W) (Unit {0})) × ((r : DagResult (State W) (Unit {0})) × (build p ≡ ok g)
          × (execute runner g s 0 600_000 ≡ ok r)
          × (r.state ≡ in_order p s))
  execute-in_order runner p s runs =
      let (g, (r, built, ran, single, ends)) = flat-in_order p s in
      (g, (r, built, execute-flat runner g s 0 600_000 runs single ∙ ran, ends))
