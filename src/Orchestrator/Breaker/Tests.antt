-- ===== src/Orchestrator/Breaker/Tests.antt =====
-- Runs of the breaker of breaker.py at concrete inputs.
use investment_intelligence.Prelude.{
  ℕ, suc, ◌≤◌, ◌<◌, ◌≡◌, refl, true, false, [], ◌∷◌, arith, length,
}
use mathlib.Core.Bool.{false≢true}
use text.Mathlib.TextEquality.{eq_iff}
use investment_intelligence.Orchestrator.Breaker.{
  closed, opened, half_open, BreakerState, new_state, Config, refused, probing, passing, returned,
  raised, cancelled, enter, leave, transition, Registry, state_for, enter_call, leave_call,
}
use investment_intelligence.Orchestrator.Breaker.Machine.{
  enter-refused, one_probe_after_cooldown, probe_decides,
}
use investment_intelligence.Orchestrator.Breaker.Interleaving.{
  Sys, start, arrive, Step, Reach, at_most_one_probe, cancelled_probe_blocks,
}
use investment_intelligence.Orchestrator.Breaker.Sequential.{
  call_at, failing_calls, opens_at_threshold,
}
use investment_intelligence.Orchestrator.Breaker.Targets.{targets_are_independent}

abbrev cfg : Config
cfg = record { failure_threshold = 2; cooldown_s = 60 }

abbrev tripped : BreakerState
tripped = record {
  state = opened;
  consecutive_failures = 2;
  opened_at = 100;
  half_open_inflight = false;
}

abbrev trying : BreakerState
trying = record tripped { state = half_open; half_open_inflight = true }

refused_before_cooldown : enter cfg 120 tripped ≡ (refused, tripped, [])
refused_before_cooldown = enter-refused cfg 120 tripped refl (omega arith)

probe_then_refusal :
    let (entry, st', told) = enter cfg 160 tripped in
    (entry ≡ probing)
    × (st'.state ≡ half_open)
    × (told ≡ half_open ∷ [])
    × (enter cfg 500 st' ≡ (refused, st', []))
probe_then_refusal = one_probe_after_cooldown cfg 160 500 tripped refl refl (omega arith)

probe_reopens :
    let (good, told) = leave cfg 170 probing returned trying in
    let (bad, told') = leave cfg 170 probing raised trying in
    (good.state ≡ closed)
    × (good.consecutive_failures ≡ 0)
    × (good.half_open_inflight ≡ false)
    × (told ≡ closed ∷ [])
    × (bad.state ≡ opened)
    × (bad.opened_at ≡ 170)
    × (bad.half_open_inflight ≡ false)
    × (told' ≡ opened ∷ [])
probe_reopens = probe_decides cfg 170 trying refl

-- Two calls pass, both fail and trip the breaker; after the cooldown a third becomes the probe.
abbrev half_way : Sys
half_way = record { st = trying; probes = 1; passes = 0 }

to_half_way : Reach cfg start half_way
unfolding enter leave transition
to_half_way =
    Reach.next
      (Reach.next
        (Reach.next (Reach.next (Reach.next Reach.here (Step.arrives 0)) (Step.arrives 0))
          (Step.pass_ends 90 1 raised refl))
        (Step.pass_ends 100 0 raised refl))
      (Step.arrives 160)

at_most_one_probe_example :
    (half_way.probes ≤ 1) × (0 < half_way.probes → half_way.st.half_open_inflight ≡ true)
at_most_one_probe_example = at_most_one_probe cfg half_way to_half_way

abbrev abandoned : Sys
abandoned = record { st = (leave cfg 170 probing cancelled trying).0; probes = 0; passes = 0 }

cancelled_probe_blocks_example : (enter cfg 100000 (arrive cfg 9000 abandoned).st).0 ≡ refused
cancelled_probe_blocks_example =
    cancelled_probe_blocks cfg 170 100000 half_way (arrive cfg 9000 abandoned) refl refl refl
      (Reach.next Reach.here (Step.arrives 9000))

opens_at_second :
    let before = failing_calls cfg (5 ∷ []) new_state in
    (before.state ≡ closed)
    × (before.consecutive_failures ≡ length {A = ℕ} (5 ∷ []))
    × (cfg.failure_threshold ≡ suc (length {A = ℕ} (5 ∷ []))
        → ((call_at cfg 7 raised before).state ≡ opened)
          × ((call_at cfg 7 raised before).opened_at ≡ 7))
opens_at_second = opens_at_threshold cfg (5 ∷ []) 7 new_state refl refl (omega arith)

abbrev registry : Registry
registry = record {
  states = ("quant", tripped) ∷ ("fund", new_state) ∷ [];
  has_hook = true;
  notified = [];
}

other_target_unchanged :
    let (entered, r') = enter_call cfg 160 "quant" registry in
    let r'' = leave_call cfg 160 "quant" passing raised registry in
    (entered ≡ (enter cfg 160 (state_for registry "quant")).0)
    × (state_for r' "quant" ≡ (enter cfg 160 (state_for registry "quant")).1)
    × (state_for r' "fund" ≡ state_for registry "fund")
    × (state_for r'' "quant" ≡ (leave cfg 160 passing raised (state_for registry "quant")).0)
    × (state_for r'' "fund" ≡ state_for registry "fund")
other_target_unchanged =
    targets_are_independent cfg 160 "quant" "fund" passing raised registry
      (λ p. false≢true ((eq_iff "quant" "fund").1 p))
