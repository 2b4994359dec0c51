-- ===== src/Orchestrator/Nodes.antt =====
-- The nodes of the graphs under apps/orchestrator/orchestrator/plan: an async function of the state
-- that all nodes of a run share, and which takes no time here. Their outputs are left out.
use investment_intelligence.Prelude.{ℕ, Bool, Option, none, [], String, if◌then◌else◌}
use investment_intelligence.Orchestrator.Sla.{Node, Run, returned, raised}
use investment_intelligence.Orchestrator.Dag.{Graph}

-- A node returns, or raises; either way its changes of the shared state stay.
abbrev pub Step : Type 0 → Type 0
Step S = S → Bool × S

module _ {S : Type 0} where
  abbrev pub run_of : Bool × S → Run S (Unit {0})
  run_of (good, s) = record {
    duration = 0;
    ending = if good then returned tt else raised "";
    after = s;
    cancel_took = 0;
    cancel_ending = none;
    after_cancel = s;
  }

  abbrev pub node_of : String → Step S → Option ℕ → Option ℕ → Node S (Unit {0})
  node_of name step soft hard = record {
    name = name;
    fn = λ s. run_of (step s);
    soft_timeout_s = soft;
    hard_timeout_s = hard;
  }

  -- `StateGraph(dag_id)`
  abbrev pub empty_graph : String → Graph S (Unit {0})
  empty_graph dag_id = record {
    dag_id = dag_id;
    nodes = [];
    edges = [];
    conditional = [];
    entry = none;
  }
