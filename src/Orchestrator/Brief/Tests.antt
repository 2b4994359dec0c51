-- ===== src/Orchestrator/Brief/Tests.antt =====
-- Runs of morning_brief.py with a team that is down.
use investment_intelligence.Prelude.{ℕ, List, ◌+◌, ◌≡◌, refl, some, [], ◌∷◌, String, if◌then◌else◌}
use investment_intelligence.Prelude.Keys.{◌=?◌, String-keys}
use investment_intelligence.Prelude.Outcome.{Result, ok, err}
use investment_intelligence.Orchestrator.Dag.{Graph, add_node, add_edge, set_entry}
use investment_intelligence.Orchestrator.Brief.{
  build_dag, add_personas, edges_to_personas, edges_from_personas, Answer, Request, State, initial,
  n_intel_synth, n_fundamental, n_quant, n_persona, n_secretary_brief, n_deliver_brief,
}

-- The slugs of the YAML files, sorted.
abbrev persona_slugs : List String
persona_slugs =
    "buffett" ∷ "burry" ∷ "dalio" ∷ "druckenmiller" ∷ "retail_degen" ∷ "rogers" ∷ "soros" ∷ "wood"
    ∷ []

module _ {A B E W : Type 0} (call : String → Request A B → W → Result E (Answer A B) × W) where
  abbrev ask_personas : List String → State A B E W → State A B E W
  ask_personas [] s = s
  ask_personas (slug ∷ slugs) s = ask_personas slugs (n_persona call slug s).1

  -- One of the orders in which the nodes may run.
  abbrev run_brief : State A B E W → State A B E W
  run_brief s =
      (n_deliver_brief call
        (n_secretary_brief call (
          ask_personas persona_slugs
            (n_quant call (n_fundamental call (n_intel_synth call s).1).1).1)).1).1

-- The world counts the calls. Each answer advises the agent that gave it.
abbrev call : String → Request String ℕ → ℕ → Result String (Answer String ℕ) × ℕ
call agent r n = if agent =? "agent_quant" then (err "down", n + 1) else (
  ok (record {
    macro_regime = some "risk_off";
    advices = agent ∷ [];
    markdown = some "# Brief";
    body = n;
  }),
  n + 1,
)

all_but_quant :
    let s = run_brief call (initial 0) in
    (s.advices
      ≡ "agent_fundamental" ∷ "agent_persona.buffett" ∷ "agent_persona.burry"
        ∷ "agent_persona.dalio" ∷ "agent_persona.druckenmiller" ∷ "agent_persona.retail_degen"
        ∷ "agent_persona.rogers" ∷ "agent_persona.soros" ∷ "agent_persona.wood" ∷ [])
    × (s.brief_md ≡ some "# Brief")
    × (s.world ≡ 13)
unfolding n_intel_synth n_fundamental n_quant n_persona n_secretary_brief n_deliver_brief
all_but_quant = (refl, refl, refl)

-- The graph for the eight personas is well formed.
eight_personas :
    (g : Graph (State String ℕ String ℕ) (Unit {0})) × (build_dag call persona_slugs ≡ ok g)
unfolding build_dag add_personas edges_to_personas edges_from_personas add_node add_edge set_entry
eight_personas = (_, refl)
