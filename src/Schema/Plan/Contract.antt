-- ===== src/Schema/Plan/Contract.antt =====
-- The rules in the docstring of plan.py, and what the validators decide.
use investment_intelligence.Prelude.{
  ℕ, ◌+◌, ◌*◌, ◌≤◌, ◌<◌, ◌≡◌, refl, ◌≢◌, ◌↔◌, Bool, false, not, ◌&&◌, List, [], ◌∷◌, arith, leb,
}
use investment_intelligence.Prelude.Int.{ℤ, ◌<ℤ◌}
use investment_intelligence.Prelude.Float.{Float, nan, real}
use investment_intelligence.Prelude.Outcome.{ok, >>-eq-ok}
use investment_intelligence.Prelude.Text.{is_blank?}
use investment_intelligence.Schema.{Validators}
use investment_intelligence.Schema.Advice.{Evidence, is_empty, day, max_horizon_days}
use investment_intelligence.Schema.Advice.Contract.{misdated_iff}
use investment_intelligence.Schema.Plan.{
  Team, persona, Action, buy, sell, hold, PlanV1, is_hold, is_persona, is_set, misordered_prices,
  check_fields, check_model, validate,
}

-- The three prices are numbers, and ordered for the action.
abbrev pub Ordered : Action → Float → Float → Float → Type 0
Ordered buy entry target stop =
    (e t s : ℤ) × (entry ≡ real e) × (target ≡ real t) × (stop ≡ real s) × (s <ℤ e) × (e <ℤ t)
Ordered sell entry target stop =
    (e t s : ℤ) × (entry ≡ real e) × (target ≡ real t) × (stop ≡ real s) × (t <ℤ e) × (e <ℤ s)
Ordered hold entry target stop = Unit

pub record Rules (p : PlanV1) : Type 0 where
  pub window : p.entry_window_open < p.entry_window_close
  pub ordered : Ordered p.action p.entry_price p.target_price p.stop_loss
  pub cited : p.action ≢ hold → p.evidence ≢ []
  pub slug : p.team ≡ persona → is_blank? p.persona_slug ≡ false
  pub no_slug : p.team ≢ persona → is_set p.persona_slug ≡ false
  pub disclaimed : p.team ≡ persona → is_blank? p.disclaimer ≡ false
  pub after_issue : p.issued_at < p.expires_at
  pub within_year : p.expires_at ≤ p.issued_at + max_horizon_days * day

ordered_iff :
    (action : Action) (entry target stop : Float)
    → (misordered_prices action entry target stop ≡ false) ↔ Ordered action entry target stop
unfolding misordered_prices
ordered_iff hold e t s = (λ h. tt, λ h. refl)
ordered_iff buy (real e) (real t) (real s) =
    (λ h. (e, t, s, refl, refl, refl, ground arith, ground arith), λ h. ground arith)
ordered_iff buy nan t s = (λ h. absurd (cc), λ h. absurd (ground arith))
ordered_iff buy (real e) nan s = (λ h. absurd (cc), λ h. absurd (ground arith))
ordered_iff buy (real e) (real t) nan = (λ h. absurd (ground arith), λ h. absurd (ground arith))
ordered_iff sell (real e) (real t) (real s) =
    (λ h. (e, t, s, refl, refl, refl, ground arith, ground arith), λ h. ground arith)
ordered_iff sell nan t s = (λ h. absurd (cc), λ h. absurd (ground arith))
ordered_iff sell (real e) t nan = (λ h. absurd (ground arith), λ h. absurd (ground arith))
ordered_iff sell (real e) nan (real s) = (λ h. absurd (ground arith), λ h. absurd (ground arith))

cited_iff :
    (action : Action) (evidence : List Evidence)
    → ((not (is_hold action) && is_empty evidence) ≡ false) ↔ (action ≢ hold → evidence ≢ [])
cited_iff hold es = (λ h n e. n refl, λ h. refl)
cited_iff buy [] = (λ h. absurd (cc), λ h. absurd (h (λ e. cc) refl))
cited_iff sell [] = (λ h. absurd (cc), λ h. absurd (h (λ e. cc) refl))
cited_iff buy (x ∷ xs) = (λ h n e. cc, λ h. refl)
cited_iff sell (x ∷ xs) = (λ h n e. cc, λ h. refl)

team_iff :
    (team : Team) (b c d : Bool)
    → (((is_persona team && b) ≡ false)
        × ((not (is_persona team) && c) ≡ false)
        × ((is_persona team && d) ≡ false))
      ↔ ((team ≡ persona → b ≡ false) × (team ≢ persona → c ≡ false) × (team ≡ persona → d ≡ false))
team_iff persona b c d =
    (λ h. (λ e. h.0, λ n. absurd (n refl), λ e. h.2), λ h. (h.0 refl, refl, h.2 refl))
team_iff Team.quant b c d =
    (λ h. (λ e. absurd (cc), λ n. h.1, λ e. absurd (cc)), λ h. (refl, h.1 (λ e. cc), refl))
team_iff Team.fundamental b c d =
    (λ h. (λ e. absurd (cc), λ n. h.1, λ e. absurd (cc)), λ h. (refl, h.1 (λ e. cc), refl))
team_iff Team.intel b c d =
    (λ h. (λ e. absurd (cc), λ n. h.1, λ e. absurd (cc)), λ h. (refl, h.1 (λ e. cc), refl))

window_later : (o c : ℕ) → o < c → leb c o ≡ false
window_later o c h = ground arith

module _ (v : Validators) (p : PlanV1) where
  model_iff : (check_model v p ≡ ok tt) ↔ Rules p
  unfolding check_model
  model_iff = (
    λ h.
        let t =
          (team_iff p.team (is_blank? p.persona_slug) (is_set p.persona_slug)
              (is_blank? p.disclaimer)).0
            (ground arith, ground arith, ground arith) in
        let (after, within) = (misdated_iff p.issued_at p.expires_at).0 (ground arith) in
        record {
          window = ground arith;
          ordered =
              (ordered_iff p.action p.entry_price p.target_price p.stop_loss).0 (ground arith);
          cited = (cited_iff p.action p.evidence).0 (ground arith);
          slug = t.0;
          no_slug = t.1;
          disclaimed = t.2;
          after_issue = after;
          within_year = within;
        },
    λ r.
        let t =
          (team_iff p.team (is_blank? p.persona_slug) (is_set p.persona_slug)
              (is_blank? p.disclaimer)).1
            (r.slug, r.no_slug, r.disclaimed) in
        rw (
          window_later p.entry_window_open p.entry_window_close r.window,
          (ordered_iff p.action p.entry_price p.target_price p.stop_loss).1 r.ordered,
          (cited_iff p.action p.evidence).1 r.cited,
          t.0,
          t.1,
          t.2,
          (misdated_iff p.issued_at p.expires_at).1 (r.after_issue, r.within_year),
        ),
  )

  -- A plan whose fields pass their own constraints is accepted exactly when the docstring's rules
  -- hold of it; the order of the prices includes that none of the three is NaN for buy and sell.
  pub validate_iff_Rules : (validate v p ≡ ok tt) ↔ ((check_fields v p ≡ ok tt) × Rules p)
  unfolding validate
  validate_iff_Rules = (
    λ h. let (f, m) = >>-eq-ok (check_fields v p) (check_model v p) h in (f, model_iff.0 m),
    λ h. rw (h.0, model_iff.1 h.1),
  )
