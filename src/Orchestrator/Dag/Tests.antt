-- ===== src/Orchestrator/Dag/Tests.antt =====
-- Runs of runner.py.
use investment_intelligence.Prelude.{
  ℕ, suc, ◌+◌, ◌≡◌, refl, none, some, true, false, [], ◌∷◌, String, ◌≢◌,
}
use investment_intelligence.Prelude.Keys.{String-keys}
use investment_intelligence.Prelude.Outcome.{ok, err}
use investment_intelligence.Orchestrator.Sla.{Node, returned, Output}
use investment_intelligence.Orchestrator.Dag.{
  Graph, one_by_one, nodes_of, run_each, NodeResult, DagResult, execute, run_direct,
  compute_parents, run_round, settle_round, successors, round, loop, finished, stalled, out_of_fuel,
}
use investment_intelligence.Orchestrator.Dag.Total.{execute_ends}

abbrev counting : String → Node ℕ ℕ
counting name = record {
  name = name;
  fn = λ n. record {
    duration = 3;
    ending = returned n;
    after = suc n;
    cancel_took = 0;
    cancel_ending = none;
    after_cancel = n;
  };
  soft_timeout_s = none;
  hard_timeout_s = none;
}

-- gather → {intel, quant} → synth, and synth may ask for gather again.
abbrev diamond : Graph ℕ ℕ
diamond = record {
  dag_id = "dag_daily";
  nodes =
      ("gather", counting "gather")
      ∷ ("intel", counting "intel")
      ∷ ("quant", counting "quant")
      ∷ ("synth", counting "synth")
      ∷ [];
  edges =
      ("gather", "intel" ∷ "quant" ∷ []) ∷ ("intel", "synth" ∷ []) ∷ ("quant", "synth" ∷ []) ∷ [];
  conditional = ("synth", λ _. "gather" ∷ []) ∷ [];
  entry = some "gather";
}

abbrev result_row : String → ℕ → ℕ → NodeResult ℕ
result_row name started_at n = record {
  name = name;
  started_at = started_at;
  finished_at = started_at + 3;
  ok = true;
  output = Output.value n;
  error = none;
  timed_out = false;
}

abbrev diamond_result : DagResult ℕ ℕ
diamond_result = record {
  state = 4;
  nodes =
      result_row "gather" 100 0
      ∷ result_row "intel" 103 1
      ∷ result_row "quant" 103 2
      ∷ result_row "synth" 106 3
      ∷ [];
  ok = true;
}

execute_ends_example : execute (one_by_one run_direct) diamond 0 100 600 ≢ err out_of_fuel
execute_ends_example = execute_ends (one_by_one run_direct) diamond 0 100 600

-- The entry waits for its own static parent.
abbrev cycle : Graph ℕ ℕ
cycle = record diamond {
  edges = ("gather", "intel" ∷ []) ∷ ("intel", "gather" ∷ []) ∷ [];
  conditional = [];
}

cycle_stalls : execute (one_by_one run_direct) cycle 0 100 600 ≡ err stalled
unfolding execute loop round finished run_round settle_round successors compute_parents run_direct
    nodes_of run_each
cycle_stalls = refl

-- A static parent that no node schedules stalls its child.
abbrev unscheduled : Graph ℕ ℕ
unscheduled = record diamond {
  edges = ("gather", "synth" ∷ []) ∷ ("quant", "synth" ∷ []) ∷ [];
  conditional = [];
}

unscheduled_stalls : execute (one_by_one run_direct) unscheduled 0 100 600 ≡ err stalled
unfolding execute loop round finished run_round settle_round successors compute_parents run_direct
    nodes_of run_each
unscheduled_stalls = refl
