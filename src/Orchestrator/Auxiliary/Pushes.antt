-- ===== src/Orchestrator/Auxiliary/Pushes.antt =====
-- When the graphs of auxiliary_dags.py that push a message do so, and what they push.
use investment_intelligence.Prelude.{
  Bool, false, none, some, [], String, ◌≡◌, refl, inl, inr, arith, Bool-cases, if◌then◌else◌,
}
use investment_intelligence.Prelude.Keys.{String-keys}
use investment_intelligence.Prelude.Dict.{lookup, lookup-insert_self}
use investment_intelligence.Prelude.Outcome.{Result, ok, err}
use investment_intelligence.Orchestrator.Auxiliary.{
  Value, null, flag, text, Answer, Request, synth, regime_check, notify_regime, notify, daily_mtm,
  compose_recap, State, initial, value_or, truthy, n_intel_pulse, n_regime_check,
  n_notify_if_changed, n_backtest_mtm, n_recap_brief, n_recap_notify, read_regime, read_digest,
  read_sized, read_recap, or_empty_dict,
}
use investment_intelligence.Orchestrator.Auxiliary.Runs.{midday_pulse, evening_recap, in_order}

abbrev key_or_null : {E : Type 0} → String → Answer → Result E Answer → Value
key_or_null key before (err e) = value_or null (lookup key before)
key_or_null key before (ok a) = value_or null (lookup key a)

abbrev answer_or_empty : {E : Type 0} → Result E Answer → Answer
answer_or_empty (err e) = []
answer_or_empty (ok a) = a

abbrev regime_of : {E : Type 0} → Result E Answer → Value
regime_of (err e) = text "unknown"
regime_of (ok d) = value_or (text "unknown") (lookup "macro_regime" d)

abbrev says_changed : {E : Type 0} → Result E Answer → Bool
says_changed (err e) = false
says_changed (ok a) = truthy (value_or (flag false) (lookup "changed" a))

module _ {W E : Type 0} (call : String → Request → W → Result E Answer × W) where
  -- The calls of the midday pulse: the secretary is asked only about a change.
  abbrev pub midday_calls : W → W
  midday_calls w =
      let (digest, w1) = call "agent_intelligence" (synth "midday_pulse") w in
      let regime = regime_of digest in
      let (check, w2) = call "agent_quant" (regime_check regime) w1 in
      if says_changed check then (call "agent_secretary" (notify_regime regime) w2).1 else w2

  -- The calls of the evening recap: the secretary is asked to push what it has composed.
  abbrev pub recap_calls : W → W
  recap_calls w =
      let (mtm, w1) = call "agent_backtest" daily_mtm w in
      let (brief, w2) = call "agent_secretary" (compose_recap (answer_or_empty mtm)) w1 in
      let markdown = key_or_null "markdown" (answer_or_empty mtm) brief in
      if truthy markdown then (call "agent_secretary" (notify markdown) w2).1 else w2

  after_check :
      (s : State W) (check : Result E Answer × W)
      → s.notify_payload ≡ none
      → (n_notify_if_changed call (read_regime call s check).1).1.world ≡ (
          if says_changed check.0
          then (call "agent_secretary" (notify_regime s.macro_regime) check.1).1
          else check.1)
  unfolding n_notify_if_changed
  after_check s (err e, w) h = rw h refl
  after_check s (ok a, w) h = elim (Bool-cases (says_changed {E = E} (ok a))) [
    | inl changed ↦ rw changed refl
    | inr same ↦ rw same refl
  ]

  after_digest :
      (w : W) (digest : Result E Answer × W)
      → let regime = regime_of digest.0 in
        let (check, w2) = call "agent_quant" (regime_check regime) digest.1 in
        (n_notify_if_changed call
          (n_regime_check call (read_digest call (initial w) digest).1).1).1.world
        ≡ (if says_changed check then (call "agent_secretary" (notify_regime regime) w2).1 else w2)
  unfolding n_regime_check
  after_digest w (err e, w1) = after_check (initial w1) _ refl
  after_digest w (ok d, w1) =
      after_check
        (record (initial w1) {
          digest = some d;
          macro_regime = value_or (text "unknown") (lookup "macro_regime" d);
        })
        _ refl

  after_brief :
      (s : State W) (brief : Result E Answer × W)
      → let markdown = key_or_null "markdown" (or_empty_dict s.notify_payload) brief.0 in
        (n_recap_notify call (read_recap call s brief).1).1.world ≡ (
          if truthy markdown then (call "agent_secretary" (notify markdown) brief.1).1 else brief.1)
  unfolding n_recap_notify
  after_brief s (err e, w) = ground (arith)
  after_brief s (ok a, w) =
      let markdown = value_or null (lookup "markdown" a) in
      let kept = lookup-insert_self "markdown" markdown (or_empty_dict s.notify_payload) in
      ground (arith, kept)

  after_mtm :
      (w : W) (mtm : Result E Answer × W)
      → let (brief, w2) = call "agent_secretary" (compose_recap (answer_or_empty mtm.0)) mtm.1 in
        let markdown = key_or_null "markdown" (answer_or_empty mtm.0) brief in
        (n_recap_notify call
          (n_recap_brief call (read_sized call "agents" (initial w) mtm).1).1).1.world
        ≡ (if truthy markdown then (call "agent_secretary" (notify markdown) w2).1 else w2)
  unfolding n_recap_brief
  after_mtm w (err e, w1) = after_brief (initial w1) _
  after_mtm w (ok a, w1) = after_brief (record (initial w1) { notify_payload = some a }) _

  -- The midday pulse calls the secretary only if the quant team has answered that the regime changed,
  -- and with the regime of the digest, or "unknown". The evening recap asks it to push only a text that
  -- is not empty, the composed one; if the composition raised, that of the backtest's answer. Whatever
  -- was raised before, nothing else is called.
  pub pushes_when_due :
      (w : W)
      → ((in_order call midday_pulse (initial w)).world ≡ midday_calls w)
        × ((in_order call evening_recap (initial w)).world ≡ recap_calls w)
  unfolding in_order n_intel_pulse n_backtest_mtm
  pushes_when_due w = (
    after_digest w (call "agent_intelligence" (synth "midday_pulse") w),
    after_mtm w (call "agent_backtest" daily_mtm w),
  )
