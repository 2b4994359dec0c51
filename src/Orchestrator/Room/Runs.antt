-- ===== src/Orchestrator/Room/Runs.antt =====
-- The graph of trading_room.py runs its nodes one after another.
use investment_intelligence.Prelude.{true, String, ◌≡◌, refl, ◌∙◌}
use investment_intelligence.Prelude.Outcome.{Result, ok}
use investment_intelligence.Orchestrator.Triage.{Route}
use investment_intelligence.Orchestrator.Dag.Direct.{flat, execute-flat}
use investment_intelligence.Orchestrator.Dag.Single.{RunsOne, single_run, single_file}
use investment_intelligence.Orchestrator.Dag.{
  Graph, Runner, one_by_one, nodes_of, run_each, DagResult, add_node, add_edge, set_entry,
  successors, compute_parents, run_round, settle_round, round, loop, finished, execute, run_direct,
}
use investment_intelligence.Orchestrator.Room.{
  Response, Request, State, n_triage, n_fanout, n_board, n_brief, n_notify, build_trading_room_dag,
}

module _ {P D W E : Type 0} (call : String → Request P D → W → Result E (Response P D) × W)
    (triage : W → Result E Route × W) where
  -- The five nodes in their order, each on the state that the one before it left.
  unfoldable pub run_room : State P D W → State P D W
  run_room s =
      (n_notify call triage
        (n_brief call triage
          (n_board call triage (n_fanout call triage (n_triage call triage s).1).1).1).1).1

  flat-run_room :
      (s : State P D W)
      → (g : Graph (State P D W) (Unit {0})) × ((r : DagResult (State P D W) (Unit {0}))
          × (build_trading_room_dag call triage ≡ ok g)
          × (execute (one_by_one flat) g s 0 600_000 ≡ ok r)
          × (single_run flat g s 0 600_000 ≡ true)
          × (r.state ≡ run_room s))
  unfolding build_trading_room_dag add_node add_edge set_entry successors compute_parents run_round
      settle_round round loop execute finished run_room nodes_of run_each single_run single_file
  flat-run_room s = (_, (_, refl, refl, refl, refl))

  -- The graph is well formed, and a run of it, in whatever order the sets are iterated and however
  -- `gather` runs several nodes, ends with the state of the five nodes in their order, whichever raise.
  pub execute-run_room :
      (runner : Runner (State P D W) (Unit {0})) (s : State P D W)
      → RunsOne runner run_direct
      → (g : Graph (State P D W) (Unit {0})) × ((r : DagResult (State P D W) (Unit {0}))
          × (build_trading_room_dag call triage ≡ ok g)
          × (execute runner g s 0 600_000 ≡ ok r)
          × (r.state ≡ run_room s))
  execute-run_room runner s runs =
      let (g, (r, built, ran, single, ends)) = flat-run_room s in
      (g, (r, built, execute-flat runner g s 0 600_000 runs single ∙ ran, ends))
