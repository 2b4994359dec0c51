-- ===== src/LlmClient/Router/Guarded.antt =====
-- The guarded part of `chat` in router.py: what it leaves of the permits, the spend and the telemetry.
use mathlib.Core.List.{append-nil}
use investment_intelligence.Prelude.{
  ◌≡◌, refl, ap, ◌∙◌, true, none, some, List, [], ◌∷◌, ◌++◌, String,
}
use investment_intelligence.Prelude.Keys.{String-keys, =?_refl}
use investment_intelligence.Prelude.Outcome.{Result, ok, err}
use investment_intelligence.LlmClient.Matrix.{LlmTier, flash, pro, embed}
use investment_intelligence.LlmClient.CostMeter.{same_tier}
use investment_intelligence.LlmClient.Router.{
  ChatMessage, ChatResponse, LlmError, unknown_caller_id, cost_budget_exceeded, cancelled, drained,
  no_llm_available, failed_provider, builtin_timeout, other_error, cache_fault, error_outcome,
  Event, Permit, caller_permit, bucket_permit, Wait, granted, wait_cancelled, wait_drained,
  LlmRouter, State, Answer, same_permit, drop_permit, hold, release, emit, attempt, within_bucket,
  observe, within_caller,
}
use investment_intelligence.LlmClient.Router.Stages.{
  event, InnerEvents, OuterEvents, Moved, quiet, with_world, attempt-Moved,
}

same_tier_refl : (t : LlmTier) → same_tier t t ≡ true
same_tier_refl flash = refl
same_tier_refl pro = refl
same_tier_refl embed = refl

same_permit_refl : (p : Permit) → same_permit p p ≡ true
same_permit_refl (caller_permit a) = =?_refl a
same_permit_refl (bucket_permit a t) = rw (=?_refl a, same_tier_refl t) refl

drop_permit_first : (p : Permit) (held : List Permit) → drop_permit p (p ∷ held) ≡ held
drop_permit_first p held = rw (same_permit_refl p) refl

-- A stage that runs with a permit held, and gives it back at its end.
release-Moved :
    {W : Type 0} (P : Result LlmError ChatResponse → List Event → Type 0) (p : Permit) (s : State W)
    (a : Answer W)
    → Moved P (hold p s) a
    → Moved P s (release p a)
release-Moved P p s a h = record {
  held = ap (drop_permit p) h.held ∙ drop_permit_first p s.held;
  rows = h.rows;
  emitted = h.emitted;
  events = h.events;
  told = h.told;
}

module _ {W : Type 0} (env : LlmRouter W) (caller_id : String) (messages : List ChatMessage) where
  within_bucket-Moved :
      (tier : LlmTier) (s : State W) (wait : Wait) (w : W)
      → Moved (InnerEvents caller_id) s (within_bucket env caller_id messages tier s (wait, w))
  within_bucket-Moved tier s wait_cancelled w =
      quiet caller_id (InnerEvents caller_id) s w (err cancelled) refl
  within_bucket-Moved tier s wait_drained w =
      quiet caller_id (InnerEvents caller_id) s w (err drained) refl
  within_bucket-Moved tier s granted w =
      let permit = bucket_permit env.primary.name tier in
      let s' : State W = record s { world = w } in
      let a = attempt env caller_id messages tier (hold permit s') in
      with_world caller_id (InnerEvents caller_id) s w (release permit a) (
        release-Moved (InnerEvents caller_id) permit s' a
          (attempt-Moved env caller_id messages tier (hold permit s')))

  one_error :
      (e : String) (s : State W) (r : Result LlmError ChatResponse) (t : State W)
      (h : Moved (InnerEvents caller_id) s (r, t))
      → h.emitted ≡ []
      → OuterEvents caller_id r (event caller_id error_outcome none (some e) ∷ [])
      → Moved (OuterEvents caller_id) s (r, emit caller_id error_outcome none (some e) t)
  one_error e s r t h quiet_before q = record {
    held = h.held;
    rows = h.rows;
    emitted = event caller_id error_outcome none (some e) ∷ [];
    events =
        ap (λ es. es ++ event caller_id error_outcome none (some e) ∷ [])
          (h.events ∙ ap (λ es. s.events ++ es) quiet_before ∙ append-nil s.events);
    told = q;
  }

  recast :
      (P Q : Result LlmError ChatResponse → List Event → Type 0) (s : State W)
      (r : Result LlmError ChatResponse) (t : State W)
      → ((es : List Event) → P r es → Q r es)
      → Moved P s (r, t)
      → Moved Q s (r, t)
  recast P Q s r t f h = record {
    held = h.held;
    rows = h.rows;
    emitted = h.emitted;
    events = h.events;
    told = f h.emitted h.told;
  }

  observe-Moved :
      (s : State W) (r : Result LlmError ChatResponse) (t : State W)
      → Moved (InnerEvents caller_id) s (r, t)
      → Moved (OuterEvents caller_id) s (observe env caller_id messages (r, t))
  observe-Moved s (ok r) t h =
      recast (InnerEvents caller_id) (OuterEvents caller_id) s (ok r) t (λ es p. p) h
  observe-Moved s (err cost_budget_exceeded) t h =
      recast (InnerEvents caller_id) (OuterEvents caller_id) s (err cost_budget_exceeded) t
        (λ es p. p) h
  observe-Moved s (err unknown_caller_id) t h =
      recast (InnerEvents caller_id) (OuterEvents caller_id) s (err unknown_caller_id) t (λ es p. p)
        h
  observe-Moved s (err (cache_fault f)) t h = absurd (h.told)
  observe-Moved s (err cancelled) t h =
      recast (InnerEvents caller_id) (OuterEvents caller_id) s (err cancelled) t (λ es p. p) h
  observe-Moved s (err drained) t h =
      recast (InnerEvents caller_id) (OuterEvents caller_id) s (err drained) t (λ es p. p) h
  observe-Moved s (err (no_llm_available e)) t h =
      one_error e s (err (no_llm_available e)) t h h.told refl
  observe-Moved s (err (failed_provider e)) t h =
      one_error e s (err (failed_provider e)) t h h.told refl
  observe-Moved s (err (builtin_timeout e)) t h =
      one_error e s (err (builtin_timeout e)) t h h.told refl
  observe-Moved s (err (other_error e)) t h = one_error e s (err (other_error e)) t h h.told refl

  pub within_caller-Moved :
      (tier : LlmTier) (s : State W) (wait : Wait) (w : W)
      → Moved (OuterEvents caller_id) s (within_caller env caller_id messages tier s (wait, w))
  within_caller-Moved tier s wait_cancelled w =
      quiet caller_id (OuterEvents caller_id) s w (err cancelled) refl
  within_caller-Moved tier s wait_drained w =
      quiet caller_id (OuterEvents caller_id) s w (err drained) refl
  within_caller-Moved tier s granted w =
      let permit = caller_permit caller_id in
      let s' : State W = record s { world = w } in
      let turn = env.bucket_wait env.primary.name tier w in
      let a = within_bucket env caller_id messages tier (hold permit s') turn in
      with_world caller_id (OuterEvents caller_id) s w
        (release permit (observe env caller_id messages a))
        (release-Moved (OuterEvents caller_id) permit s' (observe env caller_id messages a) (
          observe-Moved (hold permit s') a.0 a.1
            (within_bucket-Moved tier (hold permit s') turn.0 turn.1)))
