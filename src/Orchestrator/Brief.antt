-- ===== src/Orchestrator/Brief.antt =====
-- apps/orchestrator/orchestrator/plan/morning_brief.py: the graph of the morning brief, for a list of
-- personas. An agent is called through `call`, `AgentClient.call`, which acts on a world. An answer is
-- given by the keys that the nodes read, and its body; the trace id is left out.
mod Tests
use Prim.Native.String.{◌++◌ as str_append}
use investment_intelligence.Prelude.{
  ℕ, Bool, true, false, Option, none, some, List, [], ◌∷◌, ◌++◌, String,
}
use investment_intelligence.Prelude.Keys.{String-keys}
use investment_intelligence.Prelude.Dict.{lookup}
use investment_intelligence.Prelude.Outcome.{Result, ok, err, ◌>>=◌}
use investment_intelligence.Orchestrator.Sla.{Node, sla_table}
use investment_intelligence.Orchestrator.Nodes.{Step, node_of, empty_graph}
use investment_intelligence.Orchestrator.Dag.{Graph, DagError, add_node, add_edge, set_entry}

-- `advices` is empty where the key is missing.
pub record Answer (A B : Type 0) : Type 0 where
  pub macro_regime : Option String
  pub advices : List A
  pub markdown : Option String
  pub body : B

pub data Request (A B : Type 0) : Type 0 where
  synth : Request A B
  with_digest : Option (Answer A B) → Request A B
  with_regime : String → Request A B
  compose_brief : List A → Option (Answer A B) → String → Request A B
  notify : Option String → Request A B

pub data NotifyResult (A B E : Type 0) : Type 0 where
  not_sent : NotifyResult A B E
  answered : Answer A B → NotifyResult A B E
  deferred : E → NotifyResult A B E

-- `MorningBriefState`
pub record State (A B E W : Type 0) : Type 0 where
  pub digest : Option (Answer A B)
  pub macro_regime : String
  pub advices : List A
  pub brief_md : Option String
  pub notify_result : NotifyResult A B E
  pub world : W

-- `make_initial_state`
abbrev pub initial : {A B E W : Type 0} → W → State A B E W
initial w = record {
  digest = none;
  macro_regime = "unknown";
  advices = [];
  brief_md = none;
  notify_result = not_sent;
  world = w;
}

abbrev regime_or : String → Option String → String
regime_or default none = default
regime_or default (some r) = r

-- `SLA_TABLE[key]`
abbrev soft_of : Option (ℕ × ℕ) → Option ℕ
soft_of none = none
soft_of (some (soft, hard)) = some soft

abbrev hard_of : Option (ℕ × ℕ) → Option ℕ
hard_of none = none
hard_of (some (soft, hard)) = some hard

abbrev timed : {S : Type 0} → String → Step S → String → Node S (Unit {0})
timed name step key =
    node_of name step (soft_of (lookup key sla_table)) (hard_of (lookup key sla_table))

abbrev pub persona_node : String → String
persona_node slug = str_append "n_persona_" slug

module _ {A B E W : Type 0} (call : String → Request A B → W → Result E (Answer A B) × W) where
  abbrev read_digest : State A B E W → Result E (Answer A B) × W → Bool × State A B E W
  read_digest s (err e, w) = (false, record s { world = w })
  read_digest s (ok d, w) = (
    true,
    record s { digest = some d; macro_regime = regime_or "unknown" d.macro_regime; world = w },
  )

  pub n_intel_synth : Step (State A B E W)
  n_intel_synth s = read_digest s (call "agent_intelligence" synth s.world)

  -- The loop that appends each advice of the answer.
  abbrev read_advices : State A B E W → Result E (Answer A B) × W → Bool × State A B E W
  read_advices s (err e, w) = (false, record s { world = w })
  read_advices s (ok a, w) = (true, record s { advices = s.advices ++ a.advices; world = w })

  pub n_fundamental : Step (State A B E W)
  n_fundamental s = read_advices s (call "agent_fundamental" (with_digest s.digest) s.world)

  pub n_quant : Step (State A B E W)
  n_quant s = read_advices s (call "agent_quant" (with_regime s.macro_regime) s.world)

  pub n_persona : String → Step (State A B E W)
  n_persona slug s =
      read_advices s (call (str_append "agent_persona." slug) (with_digest s.digest) s.world)

  abbrev read_brief : State A B E W → Result E (Answer A B) × W → Bool × State A B E W
  read_brief s (err e, w) = (false, record s { world = w })
  read_brief s (ok a, w) = (true, record s { brief_md = a.markdown; world = w })

  pub n_secretary_brief : Step (State A B E W)
  n_secretary_brief s =
      read_brief s
        (call "agent_secretary" (compose_brief s.advices s.digest s.macro_regime) s.world)

  -- What `call` raised is caught.
  abbrev read_notify : State A B E W → Result E (Answer A B) × W → Bool × State A B E W
  read_notify s (err e, w) = (true, record s { notify_result = deferred e; world = w })
  read_notify s (ok a, w) = (true, record s { notify_result = answered a; world = w })

  pub n_deliver_brief : Step (State A B E W)
  n_deliver_brief s = read_notify s (call "agent_secretary" (notify s.brief_md) s.world)

  abbrev Plan : Type 0
  Plan = Graph (State A B E W) (Unit {0})

  -- The loop that adds the nodes of the personas.
  pub add_personas : List String → Plan → Result DagError Plan
  add_personas [] g = ok g
  add_personas (slug ∷ slugs) g =
      add_node (persona_node slug) (timed (persona_node slug) (n_persona slug) "persona.daily") g
      >>= add_personas slugs

  pub edges_to_personas : List String → Plan → Plan
  edges_to_personas [] g = g
  edges_to_personas (slug ∷ slugs) g =
      edges_to_personas slugs (add_edge "n_intel_synth" (persona_node slug) g)

  pub edges_from_personas : List String → Plan → Plan
  edges_from_personas [] g = g
  edges_from_personas (slug ∷ slugs) g =
      edges_from_personas slugs (add_edge (persona_node slug) "n_secretary_brief" g)

  pub build_dag : List String → Result DagError Plan
  build_dag slugs = do
    g1 ←
        add_node "n_intel_synth" (timed "n_intel_synth" n_intel_synth "intel.synth")
          (empty_graph "morning_brief")
    g2 ← add_node "n_fundamental" (timed "n_fundamental" n_fundamental "fundamental.run") g1
    g3 ← add_node "n_quant" (timed "n_quant" n_quant "quant.run") g2
    g4 ← add_personas slugs g3
    g5 ←
        add_node "n_secretary_brief"
          (timed "n_secretary_brief" n_secretary_brief "secretary.compose_brief") g4
    g6 ← add_node "n_deliver_brief" (node_of "n_deliver_brief" n_deliver_brief none none) g5
    let g7 =
        add_edge "n_intel_synth" "n_quant"
          (add_edge "n_intel_synth" "n_fundamental" (set_entry "n_intel_synth" g6))
    let g8 =
        add_edge "n_quant" "n_secretary_brief"
          (add_edge "n_fundamental" "n_secretary_brief" (edges_to_personas slugs g7))
    ok (add_edge "n_secretary_brief" "n_deliver_brief" (edges_from_personas slugs g8))
