-- ===== src/Orchestrator/Room/Quiet.antt =====
-- What a run of trading_room.py does when the gate does not wake the room.
use investment_intelligence.Prelude.{◌≡◌, refl, ◌≢◌, true, none, [], ◌∷◌, String}
use investment_intelligence.Prelude.Outcome.{Result, ok, err}
use investment_intelligence.Orchestrator.Triage.{Route, trading_room, morning_brief_only, drop}
use investment_intelligence.Orchestrator.Room.{
  no_plans_for_board, Response, Request, State, initial, n_triage, n_fanout, n_board, n_brief,
  n_notify, after_triage,
}
use investment_intelligence.Orchestrator.Room.Runs.{run_room}

module _ {P D W E : Type 0} (call : String → Request P D → W → Result E (Response P D) × W)
    (triage : W → Result E Route × W) where
  -- The four nodes after the gate.
  abbrev after_gate : State P D W → State P D W
  after_gate s =
      (n_notify call triage
        (n_brief call triage (n_board call triage (n_fanout call triage s).1).1).1).1

  asleep_by :
      (r : Result E Route × W) (w : W)
      → r.0 ≢ ok trading_room
      → let s = after_gate (after_triage call triage (initial w) r).1 in
        (s.world ≡ r.1)
        × (s.notify_result ≡ none)
        × (s.board_decision ≡ none)
        × (s.degraded ≡ true)
        × (s.degraded_reasons ≡ no_plans_for_board ∷ [])
  unfolding n_fanout n_board n_brief n_notify
  asleep_by (err e, w') w h = (refl, refl, refl, refl, refl)
  asleep_by (ok trading_room, w') w h = absurd (h refl)
  asleep_by (ok morning_brief_only, w') w h = (refl, refl, refl, refl, refl)
  asleep_by (ok drop, w') w h = (refl, refl, refl, refl, refl)

  -- Where the gate raises or does not choose the trading room, no agent is called after it: the world
  -- is as the gate left it, and nothing is decided or sent. The run is marked as degraded all the same.
  pub room_asleep :
      (w : W)
      → (triage w).0 ≢ ok trading_room
      → let s = run_room call triage (initial w) in
        (s.world ≡ (triage w).1)
        × (s.notify_result ≡ none)
        × (s.board_decision ≡ none)
        × (s.degraded ≡ true)
        × (s.degraded_reasons ≡ no_plans_for_board ∷ [])
  unfolding run_room n_triage
  room_asleep w h = asleep_by (triage w) w h
