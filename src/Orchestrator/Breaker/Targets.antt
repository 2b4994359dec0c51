-- ===== src/Orchestrator/Breaker/Targets.antt =====
-- The registry of breaker.py: one machine for each target, and what the hook is told.
use investment_intelligence.Prelude.{ℕ, ◌≡◌, refl, ◌≢◌, String}
use investment_intelligence.Prelude.Keys.{String-keys}
use investment_intelligence.Prelude.Dict.{lookup-insert_self, lookup-insert_ne}
use investment_intelligence.Orchestrator.Breaker.{
  Config, Entry, Ending, Registry, state_for, enter_call, leave_call, enter, leave,
}

-- A call to one target runs that target's machine and leaves the breaker of every other target as
-- it was, both where the call enters and where it ends.
pub targets_are_independent :
    (cfg : Config) (now : ℕ) (target other : String) (entry : Entry) (ending : Ending)
    (r : Registry)
    → target ≢ other
    → let (entered, r') = enter_call cfg now target r in
      let r'' = leave_call cfg now target entry ending r in
      (entered ≡ (enter cfg now (state_for r target)).0)
      × (state_for r' target ≡ (enter cfg now (state_for r target)).1)
      × (state_for r' other ≡ state_for r other)
      × (state_for r'' target ≡ (leave cfg now entry ending (state_for r target)).0)
      × (state_for r'' other ≡ state_for r other)
unfolding enter_call leave_call
targets_are_independent cfg now target other entry ending r ne =
    let st = enter cfg now (state_for r target) in
    let ended = leave cfg now entry ending (state_for r target) in
    (
      refl,
      rw (lookup-insert_self target st.1 r.states),
      rw (lookup-insert_ne target other st.1 r.states ne),
      rw (lookup-insert_self target ended.0 r.states),
      rw (lookup-insert_ne target other ended.0 r.states ne),
    )
