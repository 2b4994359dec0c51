-- ===== src/Schema/Advice/Contract.antt =====
-- The contract that the docstring of `AdviceV1` in advice.py states, and what the validators decide.
use text.Mathlib.Text.{starts_with}
use investment_intelligence.Prelude.{
  ℕ, ◌+◌, ◌*◌, ◌≤◌, ◌<◌, ◌≡◌, refl, ◌≢◌, ◌↔◌, Bool, true, false, ◌&&◌, Option, List, [], ◌∷◌,
  String, arith,
}
use investment_intelligence.Prelude.Int.{ℤ, pos, ◌≤ℤ◌, ◌<ℤ◌, eq_of_parts}
use investment_intelligence.Prelude.Float.{Float, nan, real, one}
use investment_intelligence.Prelude.Outcome.{ok, >>-eq-ok}
use investment_intelligence.Prelude.Text.{codes, is_blank?, text_length, is_ulid_text}
use investment_intelligence.Schema.{Validators}
use investment_intelligence.Schema.Advice.{
  Direction, long, short, flat, Evidence, AdviceV1, day, max_horizon_days, descending, inconsistent,
  uncited, misdated, undisclaimed, check_fields, check_model, validate,
}

-- The prices of an advice that holds no NaN.
pub record Prices : Type 0 where
  pub entry_lo : ℤ
  pub entry_hi : ℤ
  pub target_lo : ℤ
  pub target_hi : ℤ
  pub stop : ℤ

pub record IsReal (a : AdviceV1) (p : Prices) (confidence drawdown sizing : ℤ) : Type 0 where
  pub entry : a.entry_band ≡ (real p.entry_lo, real p.entry_hi)
  pub target : a.target_band ≡ (real p.target_lo, real p.target_hi)
  pub stop : a.stop_loss ≡ real p.stop
  pub confidence_real : a.confidence ≡ real confidence
  pub drawdown_real : a.max_drawdown_pct ≡ real drawdown
  pub sizing_real : a.sizing_hint_pct_nav ≡ real sizing

-- The rule for each direction.
abbrev pub Consistent : Direction → Prices → Type 0
Consistent long p = (p.entry_hi <ℤ p.target_lo) × (p.stop <ℤ p.entry_lo)
Consistent short p = (p.target_hi <ℤ p.entry_lo) × (p.entry_hi <ℤ p.stop)
Consistent flat p =
    (p.entry_lo ≡ p.entry_hi) × (p.entry_hi ≡ p.target_lo) × (p.target_lo ≡ p.target_hi)

pub record Contract (v : Validators) (a : AdviceV1) (p : Prices) (confidence drawdown sizing : ℤ)
    : Type 0 where
  pub ulid : is_ulid_text a.id ≡ true
  pub parses : v.ulid_parses a.id ≡ true
  pub short_thesis : text_length (codes a.thesis) ≤ 4000
  pub confidence_range : (pos 0 ≤ℤ confidence) × (confidence ≤ℤ pos one)
  pub entry_ascends : p.entry_lo ≤ℤ p.entry_hi
  pub target_ascends : p.target_lo ≤ℤ p.target_hi
  pub horizon_range : (pos 1 ≤ℤ a.horizon_days) × (a.horizon_days ≤ℤ pos (365 * 5))
  pub drawdown_range : (pos 0 ≤ℤ drawdown) × (drawdown ≤ℤ pos (100 * one))
  pub sizing_range : (pos 0 ≤ℤ sizing) × (sizing ≤ℤ pos (100 * one))
  pub consistent : Consistent a.direction p
  pub cited : a.direction ≢ flat → a.evidence ≢ []
  pub after_issue : a.issued_at < a.expires_at
  pub within_year : a.expires_at ≤ a.issued_at + max_horizon_days * day
  pub disclaimed : starts_with a.agent "persona." ≡ true → is_blank? a.disclaimer ≡ false

inconsistent_iff :
    (dir : Direction) (p : Prices)
    → (inconsistent dir
          (real p.entry_lo, real p.entry_hi)
          (real p.target_lo, real p.target_hi)
          (real p.stop)
        ≡ false)
      ↔ Consistent dir p
unfolding inconsistent
inconsistent_iff long p = (λ h. ground arith, λ h. ground arith)
inconsistent_iff short p = (λ h. ground arith, λ h. ground arith)
inconsistent_iff flat p = (
  λ h. ground (
    arith,
    eq_of_parts p.entry_lo p.entry_hi,
    eq_of_parts p.entry_hi p.target_lo,
    eq_of_parts p.target_lo p.target_hi,
  ),
  λ h. ground arith,
)

descending_iff : (lo hi : ℤ) → (descending (real lo, real hi) ≡ false) ↔ (lo ≤ℤ hi)
unfolding descending
descending_iff lo hi = (λ h. ground arith, λ h. ground arith)

uncited_iff :
    (dir : Direction) (evidence : List Evidence)
    → (uncited dir evidence ≡ false) ↔ (dir ≢ flat → evidence ≢ [])
unfolding uncited
uncited_iff flat es = (λ h n e. n refl, λ h. refl)
uncited_iff long [] = (λ h. cc, λ h. absurd (h (λ e. cc) refl))
uncited_iff short [] = (λ h. cc, λ h. absurd (h (λ e. cc) refl))
uncited_iff long (x ∷ xs) = (λ h n e. cc, λ h. refl)
uncited_iff short (x ∷ xs) = (λ h n e. cc, λ h. refl)

pub misdated_iff :
    (issued_at expires_at : ℕ)
    → (misdated issued_at expires_at ≡ false)
      ↔ ((issued_at < expires_at) × (expires_at ≤ issued_at + max_horizon_days * day))
unfolding misdated
misdated_iff i e = (λ h. ground arith, λ h. ground arith)

and_false_iff : (b c : Bool) → (b && c ≡ false) ↔ (b ≡ true → c ≡ false)
and_false_iff true c = (λ h e. h, λ h. h refl)
and_false_iff false c = (λ h e. cc, λ h. refl)

undisclaimed_iff :
    (agent : String) (d : Option String)
    → (undisclaimed agent d ≡ false) ↔ (starts_with agent "persona." ≡ true → is_blank? d ≡ false)
unfolding undisclaimed
undisclaimed_iff agent d = and_false_iff (starts_with agent "persona.") (is_blank? d)

module _ (v : Validators) (a : AdviceV1) (p : Prices) (confidence drawdown sizing : ℤ) where
  fields_iff :
      IsReal a p confidence drawdown sizing
      → (check_fields v a ≡ ok tt) ↔ (
          (is_ulid_text a.id ≡ true)
          × (v.ulid_parses a.id ≡ true)
          × (text_length (codes a.thesis) ≤ 4000)
          × ((pos 0 ≤ℤ confidence) × (confidence ≤ℤ pos one))
          × (p.entry_lo ≤ℤ p.entry_hi)
          × (p.target_lo ≤ℤ p.target_hi)
          × ((pos 1 ≤ℤ a.horizon_days) × (a.horizon_days ≤ℤ pos (365 * 5)))
          × ((pos 0 ≤ℤ drawdown) × (drawdown ≤ℤ pos (100 * one)))
          × ((pos 0 ≤ℤ sizing) × (sizing ≤ℤ pos (100 * one))))
  unfolding check_fields descending
  fields_iff r =
      rw
        (
          r.confidence_real,
          r.entry,
          r.target,
          r.drawdown_real,
          r.sizing_real,
          v.within_real (pos 0) (pos one) confidence,
          v.within_real (pos 0) (pos (100 * one)) drawdown,
          v.within_real (pos 0) (pos (100 * one)) sizing,
        )
        (λ h. ground arith, λ h. ground arith)

  model_iff :
      IsReal a p confidence drawdown sizing
      → (check_model v a ≡ ok tt) ↔ (
          Consistent a.direction p
          × (a.direction ≢ flat → a.evidence ≢ [])
          × ((a.issued_at < a.expires_at) × (a.expires_at ≤ a.issued_at + max_horizon_days * day))
          × (starts_with a.agent "persona." ≡ true → is_blank? a.disclaimer ≡ false))
  unfolding check_model
  model_iff r =
      rw (r.entry, r.target, r.stop)
        (
          λ h. (
            (inconsistent_iff a.direction p).0 (ground arith),
            (uncited_iff a.direction a.evidence).0 (ground arith),
            (misdated_iff a.issued_at a.expires_at).0 (ground arith),
            (undisclaimed_iff a.agent a.disclaimer).0 (ground arith),
          ),
          λ h. rw (
            (inconsistent_iff a.direction p).1 h.0,
            (uncited_iff a.direction a.evidence).1 h.1,
            (misdated_iff a.issued_at a.expires_at).1 h.2,
            (undisclaimed_iff a.agent a.disclaimer).1 h.3,
          ),
        )

  -- On an envelope without NaN the validators accept exactly what the docstring states: a ULID,
  -- the ranges, ascending bands, the price order of the direction, evidence unless flat, an expiry
  -- after the issue and within 365 days, and a persona's disclaimer.
  pub validate_iff_Contract :
      IsReal a p confidence drawdown sizing
      → (validate v a ≡ ok tt) ↔ Contract v a p confidence drawdown sizing
  unfolding validate
  validate_iff_Contract r = (
    λ h.
        let (f, m) = >>-eq-ok (check_fields v a) (check_model v a) h in
        let (id, parse, thesis, conf, el, tl, hz, dd, sz) = (fields_iff r).0 f in
        let (prices, cite, dates, disc) = (model_iff r).0 m in
        record {
          ulid = id;
          parses = parse;
          short_thesis = thesis;
          confidence_range = conf;
          entry_ascends = el;
          target_ascends = tl;
          horizon_range = hz;
          drawdown_range = dd;
          sizing_range = sz;
          consistent = prices;
          cited = cite;
          after_issue = dates.0;
          within_year = dates.1;
          disclaimed = disc;
        },
    λ k. rw (
      (fields_iff r).1 (
        k.ulid, k.parses, k.short_thesis, k.confidence_range, k.entry_ascends, k.target_ascends,
        k.horizon_range, k.drawdown_range, k.sizing_range,
      ),
      (model_iff r).1 (k.consistent, k.cited, (k.after_issue, k.within_year), k.disclaimed),
    ),
  )

inconsistent-nan :
    (dir : Direction) (stop : Float)
    → dir ≢ flat
    → inconsistent dir (nan, nan) (nan, nan) stop ≡ false
unfolding inconsistent
inconsistent-nan flat stop n = absurd (n refl)
inconsistent-nan long nan n = refl
inconsistent-nan long (real s) n = refl
inconsistent-nan short nan n = refl
inconsistent-nan short (real s) n = refl

abbrev pub with_nan_bands : AdviceV1 → AdviceV1
with_nan_bands a = record a { entry_band = (nan, nan); target_band = (nan, nan) }

-- The price rules do not stop NaN: a long or short advice that is accepted is still accepted when
-- all four band prices are replaced by NaN.
pub nan_bands_accepted :
    (v : Validators) (a : AdviceV1)
    → a.direction ≢ flat
    → validate v a ≡ ok tt
    → validate v (with_nan_bands a) ≡ ok tt
unfolding validate check_fields check_model descending
nan_bands_accepted v a directional h =
    ground (arith, inconsistent-nan a.direction a.stop_loss directional)
