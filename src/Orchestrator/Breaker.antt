-- ===== src/Orchestrator/Breaker.antt =====
-- apps/orchestrator/orchestrator/plan/breaker.py: the circuit breaker of one agent, and the
-- registry of breakers by target. Times are ticks of the monotonic clock.
-- `call` suspends once, at `await fn()`: `enter` is the code before it and `leave` the code after.
-- Neither awaits anything that can block, so each runs as one step of the event loop.
pub mod Machine
pub mod Interleaving
pub mod Sequential
pub mod Targets
mod Tests
use investment_intelligence.Prelude.{
  ℕ, ◌+◌, Bool, true, false, List, [], ◌∷◌, ◌++◌, String, Option, none, some, ltb, leb,
  if◌then◌else◌,
}
use investment_intelligence.Prelude.Keys.{String-keys}
use investment_intelligence.Prelude.Dict.{Dict, lookup, insert}

pub data State : Type 0 where
  closed opened half_open : State

abbrev pub is_opened : State → Bool
is_opened opened = true
is_opened _ = false

-- `a is b` on the enum
abbrev pub is_same : State → State → Bool
is_same closed closed = true
is_same opened opened = true
is_same half_open half_open = true
is_same _ _ = false

pub record BreakerState : Type 0 where
  pub state : State
  pub consecutive_failures : ℕ
  pub opened_at : ℕ
  pub half_open_inflight : Bool

abbrev pub new_state : BreakerState
new_state = record {
  state = closed;
  consecutive_failures = 0;
  opened_at = 0;
  half_open_inflight = false;
}

-- The constructor's arguments.
pub record Config : Type 0 where
  pub failure_threshold : ℕ
  pub cooldown_s : ℕ

-- `_transition`: the new state, and what `on_change` is told.
unfoldable pub transition : State → BreakerState → BreakerState × List State
transition new st = if is_same st.state new then (st, []) else (record st { state = new }, new ∷ [])

pub maybe_transition_to_half_open : Config → ℕ → BreakerState → BreakerState × List State
unfolding transition
maybe_transition_to_half_open cfg now st =
    if is_opened st.state
    then (if leb (st.opened_at + cfg.cooldown_s) now then transition half_open st else (st, []))
    else (st, [])

-- How a call goes on: it raises `BreakerOpen`, or it awaits `fn()` as the probe or as a normal call.
pub data Entry : Type 0 where
  refused probing passing : Entry

-- How `await fn()` ends: a value, an `Exception`, or a `CancelledError`, which is no `Exception`.
pub data Ending : Type 0 where
  returned raised cancelled : Ending

-- The tests on the state at the start of `call`.
pub admit : State → BreakerState → Entry × BreakerState
admit opened st = (refused, st)
admit half_open st =
    if st.half_open_inflight
    then (refused, st)
    else (probing, record st { half_open_inflight = true })
admit closed st = (passing, st)

unfoldable pub enter : Config → ℕ → BreakerState → Entry × BreakerState × List State
unfolding maybe_transition_to_half_open admit
enter cfg now st =
    let (st', told) = maybe_transition_to_half_open cfg now st in
    let (entry, st'') = admit st'.state st' in (entry, st'', told)

-- The failure branch of a normal call; `st` has the failure counted.
abbrev count_failure : Config → ℕ → BreakerState → BreakerState × List State
count_failure cfg now st =
    let (st', told) = transition opened st in
    if leb cfg.failure_threshold st.consecutive_failures
    then (record st' { opened_at = now }, told)
    else (st, [])

unfoldable pub leave : Config → ℕ → Entry → Ending → BreakerState → BreakerState × List State
unfolding transition
leave cfg now probing returned st =
    let (st', told) = transition closed st in
    (record st' { consecutive_failures = 0; half_open_inflight = false }, told)
leave cfg now probing raised st =
    let (st', told) = transition opened st in
    (
      record st' {
        opened_at = now;
        consecutive_failures = cfg.failure_threshold;
        half_open_inflight = false;
      },
      told,
    )
leave cfg now passing returned st = (record st { consecutive_failures = 0 }, [])
leave cfg now passing raised st =
    count_failure cfg now (record st { consecutive_failures = st.consecutive_failures + 1 })
leave cfg now _ _ st = (st, [])

-- `CircuitBreakerRegistry`: the states by target, and the calls of the `on_change` hook.
pub record Registry : Type 0 where
  pub states : Dict String BreakerState
  pub has_hook : Bool
  pub notified : List (String × State)

abbrev tag : String → List State → List (String × State)
tag target [] = []
tag target (s ∷ ss) = (target, s) ∷ tag target ss

abbrev or_new : Option BreakerState → BreakerState
or_new none = new_state
or_new (some st) = st

-- `_state(target)`, and `state_of` with its default
abbrev pub state_for : Registry → String → BreakerState
state_for r target = or_new (lookup target r.states)

abbrev pub state_of : Registry → String → State
state_of r target = (state_for r target).state

abbrev pub store : Registry → String → BreakerState × List State → Registry
store r target (st, told) = record r {
  states = insert target st r.states;
  notified = if r.has_hook then r.notified ++ tag target told else r.notified;
}

unfoldable pub enter_call : Config → ℕ → String → Registry → Entry × Registry
enter_call cfg now target r =
    let (entry, st, told) = enter cfg now (state_for r target) in (entry, store r target (st, told))

unfoldable pub leave_call : Config → ℕ → String → Entry → Ending → Registry → Registry
leave_call cfg now target entry ending r =
    store r target (leave cfg now entry ending (state_for r target))
