-- ===== src/Orchestrator/Sla.antt =====
-- apps/orchestrator/orchestrator/execute/sla.py: a node's run under its soft and hard timeout.
-- Times are milliseconds, and timeouts are positive. The soft timeout only logs, so a run shows nothing
-- of it. A cancellation of the caller, which no clause of the code catches, is left out.
pub mod Laws
mod Tests
use text.Mathlib.Text.{starts_with}
use text.Mathlib.Text.{◌==◌ as str_eq}
use investment_intelligence.Prelude.{
  ℕ, ◌+◌, ◌*◌, Bool, true, false, ◌&&◌, Option, none, some, List, [], ◌∷◌, String, ltb,
  if◌then◌else◌,
}
use investment_intelligence.Prelude.Keys.{String-keys}
use investment_intelligence.Prelude.Dict.{Dict, lookup}
use investment_intelligence.Prelude.Outcome.{Result, ok, err}

-- How `node.fn(state)` ends by itself: a value, a `TimeoutError` of its own, or another exception.
pub data Ending (O : Type 0) : Type 0 where
  returned : O → Ending O
  raised_timeout : String → Ending O
  raised : String → Ending O

-- A run of the coroutine: how long it takes, how it ends, and the shared state that it leaves. If it is
-- cancelled at the hard timeout it still runs for a time, which `wait_for` waits for, and then ends by
-- the cancellation, as none, or in another way.
pub record Run (S O : Type 0) : Type 0 where
  pub duration : ℕ
  pub ending : Ending O
  pub after : S
  pub cancel_took : ℕ
  pub cancel_ending : Option (Ending O)
  pub after_cancel : S

-- `on_alert`, on the node's name: it returns or raises, after some time.
abbrev pub Alerter : Type 0 → Type 0
Alerter S = String → S → Result String (Unit {0}) × (ℕ × S)

pub record Node (S O : Type 0) : Type 0 where
  pub name : String
  pub fn : S → Run S O
  pub soft_timeout_s : Option ℕ
  pub hard_timeout_s : Option ℕ

-- `None`, the node's output, or the `SLAStub`.
pub data Output (O : Type 0) : Type 0 where
  nothing : Output O
  value : O → Output O
  stub : String → Output O

-- The tuple `(ok, output, error_msg, timed_out)`, with the time taken and the state left.
pub record Finish (S O : Type 0) : Type 0 where
  pub ok : Bool
  pub output : Output O
  pub error : Option String
  pub timed_out : Bool
  pub took : ℕ
  pub state : S

-- What an exception of `on_alert` leaves of a call.
pub record Escaped (S : Type 0) : Type 0 where
  pub error : String
  pub took : ℕ
  pub state : S

abbrev pub second : ℕ
second = 1000

pub sla_table : Dict String (ℕ × ℕ)
sla_table =
    ("intel.synth", (60 * second, 120 * second))
    ∷ ("fundamental.run", (45 * second, 90 * second))
    ∷ ("quant.run", (30 * second, 60 * second))
    ∷ ("persona.daily", (30 * second, 90 * second))
    ∷ ("persona.weekly", (60 * second, 180 * second))
    ∷ ("secretary.compose_brief", (30 * second, 60 * second))
    ∷ ("secretary.chat", (8 * second, 20 * second))
    ∷ ("backtest.daily", (60 * second, 180 * second))
    ∷ ("backtest.weekly_eval", (120 * second, 300 * second))
    ∷ []

-- `str.endswith`
unfoldable pub ends_with : String → String → Bool
ends_with String.[] suffix = str_eq String.[] suffix
ends_with (String.◌∷◌ c s) suffix =
    let rest = ends_with s suffix in if str_eq (String.◌∷◌ c s) suffix then true else rest

pub lookup_sla : String → Option (ℕ × ℕ)
unfolding ends_with sla_table
lookup_sla name = elim (lookup name sla_table) [
  | some sla ↦ some sla
  | none ↦
      if starts_with name "persona." && ends_with name ".daily"
      then lookup "persona.daily" sla_table
      else if starts_with name "persona." && ends_with name ".weekly"
      then lookup "persona.weekly" sla_table
      else none
]

abbrev hard_of : Option (ℕ × ℕ) → Option ℕ
hard_of none = none
hard_of (some (_, hard)) = some hard

module _ {S O : Type 0} where
  -- The hard timeout that is used: the node's own, else the table's.
  pub hard_timeout : Node S O → Option ℕ
  hard_timeout node = elim node.hard_timeout_s [
    | some hard ↦ some hard
    | none ↦ hard_of (lookup_sla node.name)
  ]

  -- The message of the timeout is the node's name here.
  abbrev pub cut : Node S O → ℕ → S → Finish S O
  cut node took state = record {
    ok = false;
    output = stub node.name;
    error = some node.name;
    timed_out = true;
    took = took;
    state = state;
  }

  abbrev pub after_alert :
      Node S O → ℕ → Result String (Unit {0}) × (ℕ × S) → Result (Escaped S) (Finish S O)
  after_alert node took (ok _, (more, state)) = ok (cut node (took + more) state)
  after_alert node took (err e, (more, state)) =
      err (record { error = e; took = took + more; state = state })

  -- `except TimeoutError`, with its `await on_alert`.
  abbrev pub time_out : Option (Alerter S) → Node S O → ℕ → S → Result (Escaped S) (Finish S O)
  time_out none node took state = ok (cut node took state)
  time_out (some on_alert) node took state = after_alert node took (on_alert node.name state)

  -- A report of an end that is no timeout.
  abbrev pub report : Ending O → ℕ → S → Finish S O
  report (returned o) took state = record {
    ok = true;
    output = value o;
    error = none;
    timed_out = false;
    took = took;
    state = state;
  }
  report (raised_timeout e) took state = record {
    ok = false;
    output = nothing;
    error = some e;
    timed_out = false;
    took = took;
    state = state;
  }
  report (raised e) took state = record {
    ok = false;
    output = nothing;
    error = some e;
    timed_out = false;
    took = took;
    state = state;
  }

  abbrev pub complete : Ending O → Run S O → Finish S O
  complete ending run = report ending run.duration run.after

  -- What `wait_for` gives: none is its own TimeoutError. `except TimeoutError` also takes one that the
  -- node raised itself.
  abbrev pub settle :
      Option (Alerter S) → Node S O → Option (Ending O) → ℕ → S → Result (Escaped S) (Finish S O)
  settle alert node none took state = time_out alert node took state
  settle alert node (some (raised_timeout e)) took state = time_out alert node took state
  settle alert node (some (returned o)) took state = ok (report (returned o) took state)
  settle alert node (some (raised e)) took state = ok (report (raised e) took state)

  -- `wait_for` waits until the cancelled node has ended.
  abbrev pub bounded : Option (Alerter S) → Node S O → ℕ → Run S O → Result (Escaped S) (Finish S O)
  bounded alert node hard run =
      if ltb hard run.duration
      then settle alert node run.cancel_ending (hard + run.cancel_took) run.after_cancel
      else settle alert node (some run.ending) run.duration run.after

  pub with_sla_timeout : Option (Alerter S) → Node S O → S → Result (Escaped S) (Finish S O)
  with_sla_timeout alert node state = elim (hard_timeout node) [
    | none ↦ ok (complete (node.fn state).ending (node.fn state))
    | some hard ↦ bounded alert node hard (node.fn state)
  ]
