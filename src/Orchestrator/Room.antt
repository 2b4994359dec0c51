-- ===== src/Orchestrator/Room.antt =====
-- apps/orchestrator/orchestrator/plan/trading_room.py: the graph that a high-impact event runs.
-- An agent is called through `call`, `AgentClient.call`, and the gate is `triage`, each acting on a
-- world. A response is given by the keys that the nodes read, a plan and a decision as they are.
pub mod Runs
pub mod Quiet
mod Tests
use investment_intelligence.Prelude.{
  ℕ, Bool, true, false, not, Option, none, some, List, [], ◌∷◌, ◌++◌, String, if◌then◌else◌,
}
use investment_intelligence.Prelude.Outcome.{Result, ok, err, ◌>>=◌}
use investment_intelligence.Orchestrator.Triage.{Route, trading_room, morning_brief_only, drop}
use investment_intelligence.Orchestrator.Nodes.{Step, node_of, empty_graph}
use investment_intelligence.Orchestrator.Dag.{Graph, DagError, add_node, add_edge, set_entry}

pub data Reason : Type 0 where
  call_raised breaker_open : String → Reason
  no_plans_for_board board_breaker_open board_no_decision board_degraded : Reason

pub record Response (P D : Type 0) : Type 0 where
  pub is_breaker_open : Bool
  pub plan : Option P
  pub decision : Option D
  pub degraded : Bool
  pub markdown : Option String

pub data Request (P D : Type 0) : Type 0 where
  team_plan : Request P D
  decide : List P → Request P D
  trading_room_brief : D → List P → Bool → List Reason → Request P D
  notify : String → Request P D

pub record State (P D W : Type 0) : Type 0 where
  pub triage_route : Option Route
  pub plans : List P
  pub team_failures : List String
  pub board_decision : Option D
  pub brief_md : Option String
  pub notify_result : Option (Response P D)
  pub degraded : Bool
  pub degraded_reasons : List Reason
  pub world : W

-- `make_initial_state`
abbrev pub initial : {P D W : Type 0} → W → State P D W
initial w = record {
  triage_route = none;
  plans = [];
  team_failures = [];
  board_decision = none;
  brief_md = none;
  notify_result = none;
  degraded = false;
  degraded_reasons = [];
  world = w;
}

abbrev pub nobody : {P D W : Type 0} → State P D W → Bool
nobody s = elim s.team_failures [ [] ↦ true | _ ∷ _ ↦ false ]

-- `state.degraded = True` and the reason why.
abbrev pub degrade : {P D W : Type 0} → Reason → State P D W → State P D W
degrade reason s = record s {
  degraded = true;
  degraded_reasons = s.degraded_reasons ++ reason ∷ [];
}

module _ {P D W E : Type 0} (call : String → Request P D → W → Result E (Response P D) × W)
    (triage : W → Result E Route × W) where
  abbrev pub after_triage : State P D W → Result E Route × W → Bool × State P D W
  after_triage s (ok route, w) = (true, record s { triage_route = some route; world = w })
  after_triage s (err e, w) = (false, record s { world = w })

  pub n_triage : Step (State P D W)
  n_triage s = after_triage s (triage s.world)

  -- The team has no plan, for a reason.
  abbrev pub fail_team : String → Reason → State P D W → State P D W
  fail_team agent reason s = record s {
    team_failures = s.team_failures ++ agent ∷ [];
    degraded_reasons = s.degraded_reasons ++ reason ∷ [];
  }

  abbrev pub add_plan : Option P → State P D W → State P D W
  add_plan none s = s
  add_plan (some p) s = record s { plans = s.plans ++ p ∷ [] }

  abbrev pub read_team : String → Result E (Response P D) × W → State P D W → State P D W
  read_team agent (err e, w) s = fail_team agent (call_raised agent) (record s { world = w })
  read_team agent (ok r, w) s =
      if r.is_breaker_open
      then fail_team agent (breaker_open agent) (record s { world = w })
      else add_plan r.plan (record s { world = w })

  -- The loop over the teams.
  abbrev pub ask_teams : List String → State P D W → State P D W
  ask_teams [] s = s
  ask_teams (agent ∷ agents) s = ask_teams agents (read_team agent (call agent team_plan s.world) s)

  abbrev pub note_failures : State P D W → State P D W
  note_failures s = if nobody s then s else record s { degraded = true }

  abbrev is_room : Option Route → Bool
  is_room (some trading_room) = true
  is_room _ = false

  pub n_fanout : Step (State P D W)
  n_fanout s =
      if is_room s.triage_route
      then (
        true,
        note_failures (ask_teams ("agent_quant" ∷ "agent_fundamental" ∷ "agent_persona" ∷ []) s),
      )
      else (true, s)

  abbrev pub note_degraded : Bool → State P D W → State P D W
  note_degraded true s = degrade board_degraded s
  note_degraded false s = s

  abbrev pub read_decision : Response P D → State P D W → State P D W
  read_decision r s = if r.is_breaker_open then degrade board_breaker_open s else elim r.decision [
    | none ↦ degrade board_no_decision s
    | some d ↦ note_degraded r.degraded (record s { board_decision = some d })
  ]

  abbrev after_board : State P D W → Result E (Response P D) × W → Bool × State P D W
  after_board s (err e, w) = (false, record s { world = w })
  after_board s (ok r, w) = (true, read_decision r (record s { world = w }))

  abbrev ask_board : List P → State P D W → Bool × State P D W
  ask_board [] s = (true, degrade no_plans_for_board s)
  ask_board (p ∷ ps) s = after_board s (call "agent_board" (decide (p ∷ ps)) s.world)

  pub n_board : Step (State P D W)
  n_board s = ask_board s.plans s

  abbrev after_brief : State P D W → Result E (Response P D) × W → Bool × State P D W
  after_brief s (err e, w) = (false, record s { world = w })
  after_brief s (ok r, w) = (true, record s { brief_md = r.markdown; world = w })

  abbrev brief_on : Option D → State P D W → Bool × State P D W
  brief_on none s = (true, s)
  brief_on (some d) s =
      after_brief s (
        call "agent_secretary" (trading_room_brief d s.plans s.degraded s.degraded_reasons) s.world)

  pub n_brief : Step (State P D W)
  n_brief s = brief_on s.board_decision s

  -- What `call` raised is caught.
  abbrev after_notify : State P D W → Result E (Response P D) × W → Bool × State P D W
  after_notify s (err e, w) = (true, record s { world = w })
  after_notify s (ok r, w) = (true, record s { notify_result = some r; world = w })

  abbrev notify_on : Option String → State P D W → Bool × State P D W
  notify_on none s = (true, s)
  notify_on (some String.[]) s = (true, s)
  notify_on (some md) s = after_notify s (call "agent_secretary" (notify md) s.world)

  pub n_notify : Step (State P D W)
  n_notify s = notify_on s.brief_md s

  pub build_trading_room_dag : Result DagError (Graph (State P D W) (Unit {0}))
  build_trading_room_dag = do
    g1 ← add_node "n_triage" (node_of "n_triage" n_triage none none) (empty_graph "trading_room")
    g2 ← add_node "n_fanout" (node_of "n_fanout" n_fanout none none) g1
    g3 ← add_node "n_board" (node_of "n_board" n_board none none) g2
    g4 ← add_node "n_brief" (node_of "n_brief" n_brief none none) g3
    g5 ← add_node "n_notify" (node_of "n_notify" n_notify none none) g4
    ok (
        add_edge "n_brief" "n_notify" (
          add_edge "n_board" "n_brief" (
            add_edge "n_fanout" "n_board"
              (add_edge "n_triage" "n_fanout" (set_entry "n_triage" g5)))))
