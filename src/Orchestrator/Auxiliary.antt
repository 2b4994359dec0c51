-- ===== src/Orchestrator/Auxiliary.antt =====
-- apps/orchestrator/orchestrator/plan/auxiliary_dags.py: the ten small graphs that cron and events run.
-- An agent is called through `call`, `AgentClient.call`, which acts on a world. The trace id, which
-- every request carries, is left out.
pub mod Runs
pub mod Pushes
mod Tests
use investment_intelligence.Prelude.{
  ℕ, zero, suc, Bool, true, false, not, ◌*◌, Option, none, some, List, [], ◌∷◌, String,
  if◌then◌else◌,
}
use investment_intelligence.Prelude.Keys.{◌=?◌, String-keys}
use investment_intelligence.Prelude.Dict.{Dict, lookup, insert}
use investment_intelligence.Prelude.Outcome.{Result, ok, err, ◌>>=◌}
use investment_intelligence.Orchestrator.Sla.{Node, sla_table, second}
use investment_intelligence.Orchestrator.Nodes.{Step, node_of, empty_graph}
use investment_intelligence.Orchestrator.Dag.{Graph, DagError, add_node, add_edge, set_entry}

-- A value of an answer; lists and objects are known by their length alone.
pub data Value : Type 0 where
  null : Value
  flag : Bool → Value
  text : String → Value
  many : ℕ → Value

-- `bool(x)`
abbrev pub truthy : Value → Bool
truthy null = false
truthy (flag b) = b
truthy (text s) = not (s =? "")
truthy (many zero) = false
truthy (many (suc n)) = true

-- `len(x)` does not raise.
abbrev pub is_sized : Value → Bool
is_sized null = false
is_sized (flag b) = false
is_sized (text s) = true
is_sized (many n) = true

abbrev pub Answer : Type 0
Answer = Dict String Value

-- `d.get(key, default)`
abbrev pub value_or : Value → Option Value → Value
value_or default none = default
value_or default (some v) = v

-- `d or {}`
abbrev pub or_empty_dict : Option Answer → Answer
or_empty_dict none = []
or_empty_dict (some d) = d

-- `x or ""`, `x or []`
abbrev pub or_nothing : Value → Value
or_nothing v = if truthy v then v else many 0

pub data Request : Type 0 where
  synth : String → Request
  regime_check : Value → Request
  notify_regime : Value → Request
  notify : Value → Request
  daily_mtm weekly_eval regime_hint notify_fill runbook_hint : Request
  compose_recap publish_leaderboard : Answer → Request
  pull : String → Request

-- `_SimpleState`, whose field `advices` no graph uses.
pub record State (W : Type 0) : Type 0 where
  pub macro_regime : Value
  pub digest : Option Answer
  pub notify_payload : Option Answer
  pub world : W

-- `_initial`
abbrev pub initial : {W : Type 0} → W → State W
initial w = record {
  macro_regime = text "unknown";
  digest = none;
  notify_payload = none;
  world = w;
}

-- `SLA_TABLE.get(key, (soft, hard))`
abbrev sla_or : String → ℕ × ℕ → ℕ × ℕ
sla_or key default = elim (lookup key sla_table) [ none ↦ default | some p ↦ p ]

abbrev timed : {S : Type 0} → String → Step S → ℕ × ℕ → Node S (Unit {0})
timed name step sla = node_of name step (some sla.0) (some sla.1)

module _ {W E : Type 0} (call : String → Request → W → Result E Answer × W) where
  -- The world after a call whose answer or exception the node drops.
  abbrev drop_answer : State W → Result E Answer × W → Bool × State W
  drop_answer s (out, w) = (true, record s { world = w })

  -- The world after a call whose exception the node does not catch.
  abbrev need_answer : State W → Result E Answer × W → Bool × State W
  need_answer s (ok a, w) = (true, record s { world = w })
  need_answer s (err e, w) = (false, record s { world = w })

  abbrev pub read_digest : State W → Result E Answer × W → Bool × State W
  read_digest s (err e, w) = (false, record s { world = w })
  read_digest s (ok d, w) = (
    true,
    record s {
      digest = some d;
      macro_regime = value_or (text "unknown") (lookup "macro_regime" d);
      world = w;
    },
  )

  abbrev pub read_sized : String → State W → Result E Answer × W → Bool × State W
  read_sized key s (err e, w) = (false, record s { world = w })
  read_sized key s (ok a, w) =
      (is_sized (value_or (many 0) (lookup key a)), record s { notify_payload = some a; world = w })

  abbrev read_pull : String → State W → Result E Answer × W → Bool × State W
  read_pull key s (err e, w) = (false, record s { world = w })
  read_pull key s (ok a, w) =
      (is_sized (or_nothing (value_or null (lookup key a))), record s { world = w })

  pub n_intel_pulse : Step (State W)
  n_intel_pulse s = read_digest s (call "agent_intelligence" (synth "midday_pulse") s.world)

  abbrev pub read_regime : State W → Result E Answer × W → Bool × State W
  read_regime s (err e, w) = (false, record s { world = w })
  read_regime s (ok a, w) = (
    true,
    record s {
      notify_payload = some (
          ("macro_regime", s.macro_regime)
          ∷ ("regime_changed", flag (truthy (value_or (flag false) (lookup "changed" a))))
          ∷ ("snapshot", value_or null (lookup "snapshot" a))
          ∷ []);
      world = w;
    },
  )

  pub n_regime_check : Step (State W)
  n_regime_check s = read_regime s (call "agent_quant" (regime_check s.macro_regime) s.world)

  abbrev pub is_changed : Option Answer → Bool
  is_changed none = false
  is_changed (some p) = truthy (value_or null (lookup "regime_changed" p))

  pub n_notify_if_changed : Step (State W)
  n_notify_if_changed s =
      if is_changed s.notify_payload
      then drop_answer s (call "agent_secretary" (notify_regime s.macro_regime) s.world)
      else (true, s)

  pub n_backtest_mtm : Step (State W)
  n_backtest_mtm s = read_sized "agents" s (call "agent_backtest" daily_mtm s.world)

  abbrev pub read_recap : State W → Result E Answer × W → Bool × State W
  read_recap s (err e, w) = (false, record s { world = w })
  read_recap s (ok a, w) =
      let markdown = value_or null (lookup "markdown" a) in
      (
        is_sized (or_nothing markdown),
        record s {
          notify_payload = some (insert "markdown" markdown (or_empty_dict s.notify_payload));
          world = w;
        },
      )

  pub n_recap_brief : Step (State W)
  n_recap_brief s =
      read_recap s (call "agent_secretary" (compose_recap (or_empty_dict s.notify_payload)) s.world)

  abbrev notify_markdown : Value → State W → Bool × State W
  notify_markdown markdown s =
      if truthy markdown
      then drop_answer s (call "agent_secretary" (notify markdown) s.world)
      else (true, s)

  pub n_recap_notify : Step (State W)
  n_recap_notify s =
      notify_markdown (value_or null (lookup "markdown" (or_empty_dict s.notify_payload))) s

  unfoldable pub n_pull : String → String → Step (State W)
  n_pull source key s = read_pull key s (call "agent_intelligence" (pull source) s.world)

  unfoldable pub n_hourly_synth : Step (State W)
  n_hourly_synth s = read_digest s (call "agent_intelligence" (synth "hourly") s.world)

  unfoldable pub n_eval_prompts : Step (State W)
  n_eval_prompts s = read_sized "deltas" s (call "agent_backtest" weekly_eval s.world)

  unfoldable pub n_publish_leaderboard : Step (State W)
  n_publish_leaderboard s =
      need_answer s
        (call "agent_secretary" (publish_leaderboard (or_empty_dict s.notify_payload)) s.world)

  unfoldable pub n_route : Step (State W)
  n_route s = need_answer s (call "agent_quant" regime_hint s.world)

  unfoldable pub n_notify_fill : Step (State W)
  n_notify_fill s = need_answer s (call "agent_secretary" notify_fill s.world)

  unfoldable pub n_runbook_hint : Step (State W)
  n_runbook_hint s = need_answer s (call "agent_secretary" runbook_hint s.world)

  abbrev pub Built : Type 0
  Built = Result DagError (Graph (State W) (Unit {0}))

  -- A graph of one node.
  abbrev single_node : String → String → Step (State W) → Option ℕ → Option ℕ → Built
  single_node dag_id name step soft hard = do
    g ← add_node name (node_of name step soft hard) (empty_graph dag_id)
    ok (set_entry name g)

  pub build_midday_pulse_dag : Built
  build_midday_pulse_dag =
      let intel = sla_or "intel.synth" (60 * second, 90 * second) in
      let quant = sla_or "quant.run" (60 * second, 90 * second) in
      do
        g1 ←
            add_node "n_intel_pulse" (timed "n_intel_pulse" n_intel_pulse intel)
              (empty_graph "midday_pulse")
        g2 ← add_node "n_regime_check" (timed "n_regime_check" n_regime_check quant) g1
        g3 ←
            add_node "n_notify_if_changed"
              (node_of "n_notify_if_changed" n_notify_if_changed none none) g2
        ok (
            add_edge "n_regime_check" "n_notify_if_changed"
              (add_edge "n_intel_pulse" "n_regime_check" (set_entry "n_intel_pulse" g3)))

  pub build_evening_recap_dag : Built
  build_evening_recap_dag =
      let bt = sla_or "backtest.daily" (60 * second, 120 * second) in
      let sec = sla_or "secretary.compose_brief" (30 * second, 60 * second) in
      do
        g1 ←
            add_node "n_backtest_mtm" (timed "n_backtest_mtm" n_backtest_mtm bt)
              (empty_graph "evening_recap")
        g2 ← add_node "n_recap_brief" (timed "n_recap_brief" n_recap_brief sec) g1
        g3 ← add_node "n_recap_notify" (node_of "n_recap_notify" n_recap_notify none none) g2
        ok (
            add_edge "n_recap_brief" "n_recap_notify"
              (add_edge "n_backtest_mtm" "n_recap_brief" (set_entry "n_backtest_mtm" g3)))

  abbrev pull_dag : String → String → String → Built
  pull_dag dag_id source key =
      let intel = sla_or "intel.synth" (60 * second, 90 * second) in
      single_node dag_id "n_pull" (n_pull source key) (some intel.0) (some intel.1)

  pub build_intel_rss_pull_dag : Built
  build_intel_rss_pull_dag = pull_dag "intel_rss_pull" "rss" "accepted_event_ids"

  pub build_intel_gdelt_pull_dag : Built
  build_intel_gdelt_pull_dag = pull_dag "intel_gdelt_pull" "gdelt" "accepted_event_ids"

  pub build_intel_macro_pull_dag : Built
  build_intel_macro_pull_dag = pull_dag "intel_macro_pull" "macro" "series"

  pub build_hourly_intel_dag : Built
  build_hourly_intel_dag =
      let intel = sla_or "intel.synth" (60 * second, 90 * second) in
      single_node "hourly_intel_pulse" "n_hourly_synth" n_hourly_synth (some intel.0) (some intel.1)

  pub build_weekly_eval_dag : Built
  build_weekly_eval_dag =
      let bt = sla_or "backtest.daily" (60 * second, 120 * second) in
      let sec = sla_or "secretary.compose_brief" (30 * second, 60 * second) in
      do
        g1 ←
            add_node "n_eval_prompts" (timed "n_eval_prompts" n_eval_prompts bt)
              (empty_graph "weekly_eval")
        g2 ←
            add_node "n_publish_leaderboard"
              (timed "n_publish_leaderboard" n_publish_leaderboard sec) g1
        ok (add_edge "n_eval_prompts" "n_publish_leaderboard" (set_entry "n_eval_prompts" g2))

  pub build_intel_digest_event_dag : Built
  build_intel_digest_event_dag = single_node "event_intel_digest" "n_route" n_route none none

  pub build_backtest_fill_event_dag : Built
  build_backtest_fill_event_dag =
      single_node "event_backtest_fill" "n_notify_fill" n_notify_fill none none

  pub build_ops_alert_event_dag : Built
  build_ops_alert_event_dag =
      single_node "event_ops_alert" "n_runbook_hint" n_runbook_hint none none
