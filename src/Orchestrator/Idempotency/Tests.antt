-- ===== src/Orchestrator/Idempotency/Tests.antt =====
-- Fires of the morning brief against the store in memory.
use investment_intelligence.Prelude.{
  ℕ, zero, suc, ◌+◌, ◌≡◌, refl, true, false, [], ◌∷◌, String, arith,
}
use investment_intelligence.Prelude.Dict.{Dict}
use investment_intelligence.Prelude.Outcome.{Result, ok, err}
use investment_intelligence.Orchestrator.Backend.{in_memory}
use investment_intelligence.Orchestrator.Idempotency.{
  idempotency_key, Run, key_of, World, claim_or_skip, with_idempotency,
}
use investment_intelligence.Orchestrator.Idempotency.Window.{fires, one_run_per_window}
use investment_intelligence.Orchestrator.Idempotency.Key.{idempotency_key-injective}

-- Counts the runs, and raises at the first.
abbrev runner : ℕ → Result String String × ℕ
runner zero = (err "down", 1)
runner (suc n) = (ok "done", n + 2)

abbrev brief : Run
brief = record {
  dag_id = "morning_brief";
  trigger_kind = "cron";
  trigger_at = "2026-01-05T08:30";
  force = false;
}

abbrev forced : Run
forced = record brief { force = true }

abbrev at_start : World (Dict String String) ℕ
at_start = record { store = []; world = 0 }

key_is_joined : key_of brief ≡ "orch:idem:morning_brief:cron:2026-01-05T08:30"
unfolding idempotency_key
key_is_joined = refl

-- The first run raises, the second fire is skipped all the same, and a forced one runs.
failed_run_blocks_retry :
    (fires in_memory runner "skipped" ((brief, 5) ∷ (brief, 9) ∷ []) at_start).world ≡ 1
unfolding fires with_idempotency claim_or_skip in_memory idempotency_key
failed_run_blocks_retry = refl

forced_run_proceeds :
    (fires in_memory runner "skipped" ((brief, 5) ∷ (forced, 9) ∷ (brief, 10) ∷ []) at_start).world
    ≡ 2
unfolding fires with_idempotency claim_or_skip in_memory idempotency_key
forced_run_proceeds = refl

one_run_per_window_example :
    let (out, s1) = with_idempotency in_memory runner "skipped" brief 5 at_start in
    (out ≡ err "down")
    × (s1.world ≡ 1)
    × (with_idempotency in_memory runner "skipped" brief 9
          (fires in_memory runner "skipped" ((forced, 7) ∷ []) s1)
        ≡ (ok "skipped", fires in_memory runner "skipped" ((forced, 7) ∷ []) s1))
unfolding in_memory
one_run_per_window_example =
    one_run_per_window in_memory runner "skipped" brief brief 5 9 ((forced, 7) ∷ []) at_start refl
      refl (omega arith) refl refl (omega arith)

keys_differ :
    (◌≡◌ {A = String} "morning_brief" "morning_brief")
    × (◌≡◌ {A = String} "cron" "cron")
    × (◌≡◌ {A = String} "08:30" "08:30")
keys_differ =
    idempotency_key-injective "morning_brief" "morning_brief" "cron" "cron" "08:30" "08:30" refl
      refl refl refl refl
