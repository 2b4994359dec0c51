-- ===== src/Board/Chair/Plans.antt =====
-- What the chair of chair.py takes from the plans, and when its decision is valid.
use mathlib.Core.Path.{subst}
use investment_intelligence.Prelude.{
  ℕ, ◌+◌, ◌≤◌, ◌<◌, ◌≡◌, refl, sym, ap, ◌∙◌, ◌⊎◌, inl, inr, Bool, true, false, ◌&&◌, none, List, [],
  ◌∷◌, ◌++◌, String, length, take, length-take, length-map, length-append, All, ltb, lt→ltb, arith,
  Bool-cases, if◌then◌else◌,
}
use investment_intelligence.Prelude.Int.{pos, negsuc, ◌≤ℤ◌}
use investment_intelligence.Prelude.Float.{Float, real, nan, one, float_lt}
use investment_intelligence.Prelude.Keys.{String-keys, contains, =?_refl}
use investment_intelligence.Prelude.Text.{codes, all_space, is_ulid_text, strip, length-strip}
use investment_intelligence.Schema.{Validators}
use investment_intelligence.Schema.Plan.{PlanV1}
use investment_intelligence.Board.Debate.{RiskTranscript}
use investment_intelligence.Board.Chair.{
  BoardDecisionV1, is_valid_decision, Confidence, absent, not_a_float, a_float, best_from, ids_of,
  clamp, read_confidence, fallback_view, or_else, auto_dissent, dissent_or_auto,
}

-- A number from 0 to 1.
abbrev pub InUnit : Float → Type 0
InUnit nan = ⊥
InUnit (real c) = (pos 0 ≤ℤ c) × (c ≤ℤ pos one)

pub clamp-InUnit : (x : Float) → InUnit (clamp x)
clamp-InUnit nan = omega arith
clamp-InUnit (real (pos n)) = ground arith
clamp-InUnit (real (negsuc n)) = ground arith

within-InUnit : (v : Validators) (x : Float) → InUnit x → v.within (pos 0) (pos one) x ≡ true
within-InUnit v nan h = absurd h
within-InUnit v (real c) h = ground (arith, v.within_real (pos 0) (pos one) c)

keep_or_take :
    (b : Bool) (x : String) (best p : PlanV1) (ps : List PlanV1)
    → contains x (ids_of ((if b then p else best) ∷ ps)) ≡ true
    → contains x (ids_of (best ∷ p ∷ ps)) ≡ true
keep_or_take true x best p ps h = ground arith
keep_or_take false x best p ps h = ground arith

pub best_from-contains :
    (best : PlanV1) (ps : List PlanV1) → contains (best_from best ps).id (ids_of (best ∷ ps)) ≡ true
best_from-contains best [] = ground (arith, =?_refl best.id)
best_from-contains best (p ∷ ps) =
    keep_or_take (float_lt best.confidence p.confidence) _ best p ps
      (best_from-contains (if float_lt best.confidence p.confidence then p else best) ps)

-- No smaller, among the numbers from 0 to 1.
abbrev pub AtLeast : Float → PlanV1 → Type 0
AtLeast x p = float_lt x p.confidence ≡ false

ge_trans :
    (x y z : Float)
    → InUnit x
    → InUnit y
    → InUnit z
    → float_lt x y ≡ false
    → float_lt y z ≡ false
    → float_lt x z ≡ false
ge_trans (real a) (real b) (real c) hx hy hz h k = ground arith
ge_trans nan y z hx hy hz h k = absurd hx
ge_trans (real a) nan z hx hy hz h k = absurd hy
ge_trans (real a) (real b) nan hx hy hz h k = absurd hz

ge_refl : (x : Float) → float_lt x x ≡ false
ge_refl nan = refl
ge_refl (real a) = ground arith

lt-ge : (x y : Float) → InUnit x → InUnit y → float_lt x y ≡ true → float_lt y x ≡ false
lt-ge (real a) (real b) hx hy h = ground arith
lt-ge nan y hx hy h = absurd hx
lt-ge (real a) nan hx hy h = absurd hy

abbrev pub Confident : PlanV1 → Type 0
Confident p = InUnit p.confidence

best_from_step :
    (best p : PlanV1) (ps : List PlanV1) (b : Bool)
    → float_lt best.confidence p.confidence ≡ b
    → best_from best (p ∷ ps) ≡ best_from (if b then p else best) ps
best_from_step best p ps b e = ap (λ x. best_from (if x then p else best) ps) e

-- The confidence of `q` is a number from 0 to 1, and no plan has a higher one.
pub IsBest : PlanV1 → PlanV1 → List PlanV1 → Type 0
IsBest q best ps = Confident q × AtLeast q.confidence best × All (AtLeast q.confidence) ps

took-IsBest :
    (q best p : PlanV1) (ps : List PlanV1)
    → Confident best
    → Confident p
    → float_lt best.confidence p.confidence ≡ true
    → IsBest q p ps
    → IsBest q best (p ∷ ps)
unfolding IsBest
took-IsBest q best p ps hb hp higher (c, own, rest) = (
  c,
  ge_trans q.confidence p.confidence best.confidence c hp hb own
      (lt-ge best.confidence p.confidence hb hp higher),
  (own, rest),
)

kept-IsBest :
    (q best p : PlanV1) (ps : List PlanV1)
    → Confident best
    → Confident p
    → float_lt best.confidence p.confidence ≡ false
    → IsBest q best ps
    → IsBest q best (p ∷ ps)
unfolding IsBest
kept-IsBest q best p ps hb hp same (c, own, rest) =
    (c, own, (ge_trans q.confidence best.confidence p.confidence c hb hp own same, rest))

pub IsBest-parts :
    (q best : PlanV1) (ps : List PlanV1)
    → IsBest q best ps
    → InUnit q.confidence × All (AtLeast q.confidence) (best ∷ ps)
unfolding IsBest
IsBest-parts q best ps (c, own, rest) = (c, (own, rest))

pub best_from-IsBest :
    (best : PlanV1) (ps : List PlanV1)
    → Confident best
    → All Confident ps
    → IsBest (best_from best ps) best ps
best_from-IsBest best [] hb h = unfold IsBest in (hb, ge_refl best.confidence, tt)
best_from-IsBest best (p ∷ ps) hb h = elim (Bool-cases (float_lt best.confidence p.confidence)) [
  | inl higher ↦
      subst (λ q. IsBest q best (p ∷ ps)) (sym (best_from_step best p ps true higher))
        (took-IsBest _ best p ps hb h.0 higher (best_from-IsBest p ps h.0 h.1))
  | inr same ↦
      subst (λ q. IsBest q best (p ∷ ps)) (sym (best_from_step best p ps false same))
        (kept-IsBest _ best p ps hb h.0 same (best_from-IsBest best ps hb h.1))
]

-- What a decision promises about the plans.
pub record Decides (plans : List PlanV1) (d : BoardDecisionV1) : Type 0 where
  pub considered : d.considered_plan_ids ≡ ids_of plans
  pub chosen : contains d.chosen_plan_id (ids_of plans) ≡ true
  pub certain : InUnit d.confidence
  pub dissent : 1 < length plans → all_space d.dissent_record ≡ false

pub valid_if :
    (v : Validators) (plans : List PlanV1) (d : BoardDecisionV1)
    → is_ulid_text d.id ≡ true
    → length d.chair_rationale ≤ 4000
    → length d.dissent_record ≤ 8000
    → length d.risk_view ≤ 4000
    → Decides plans d
    → is_valid_decision v d ≡ true
valid_if v plans d id a b c h = ground (
  arith,
  within-InUnit v d.confidence h.certain,
  h.considered,
  h.chosen,
  h.dissent,
  length-map (λ (p : PlanV1). p.id) plans,
)

-- Six pieces, one after another.
length_six :
    (a b c d e f : List ℕ)
    → length (a ++ (b ++ (c ++ (d ++ (e ++ f)))))
      ≡ length a + length b + length c + length d + length e + length f
length_six a b c d e f = omega (
  arith,
  length-append a (b ++ (c ++ (d ++ (e ++ f)))),
  length-append b (c ++ (d ++ (e ++ f))),
  length-append c (d ++ (e ++ f)),
  length-append d (e ++ f),
  length-append e f,
)

length-or_else :
    (xs ys : List ℕ) (n : ℕ) → length xs ≤ n → length ys ≤ n → length (or_else xs ys) ≤ n
length-or_else [] ys n hx hy = hy
length-or_else (x ∷ xs) ys n hx hy = hx

length-view_parts :
    (a b c : List ℕ)
    → length (
        strip (
          codes "aggressive: "
          ++ (take 200 a
              ++ (codes "\nconservative: "
                  ++ (take 200 b ++ (codes "\nneutral: " ++ take 200 c))))))
      ≤ 4000
length-view_parts a b c = omega (
  arith,
  length-strip (
      codes "aggressive: "
      ++ (take 200 a
          ++ (codes "\nconservative: " ++ (take 200 b ++ (codes "\nneutral: " ++ take 200 c))))),
  length_six (codes "aggressive: ") (take 200 a) (codes "\nconservative: ") (take 200 b)
      (codes "\nneutral: ") (take 200 c),
  length-take 200 a,
  length-take 200 b,
  length-take 200 c,
)

pub length-fallback_view : (risk : RiskTranscript) → length (fallback_view risk) ≤ 4000
length-fallback_view risk =
    length-or_else _ (codes "Risk panel unavailable.") 4000
      (length-view_parts risk.aggressive risk.conservative risk.neutral) (omega arith)

auto-ink :
    (plans : List PlanV1) (id : String) → all_space (take 8000 (auto_dissent plans id)) ≡ false
auto-ink plans id = refl

pub blank-invalid :
    (v : Validators) (plans : List PlanV1) (d : BoardDecisionV1)
    → d.considered_plan_ids ≡ ids_of plans
    → 1 < length plans
    → all_space d.dissent_record ≡ true
    → is_valid_decision v d ≡ false
blank-invalid v plans d e many blank =
    let same : length d.considered_plan_ids ≡ length plans =
      ap length e ∙ length-map (λ (p : PlanV1). p.id) plans in
    ground arith

pub read_confidence-none :
    (c : Confidence) (default : Float) → read_confidence c default ≡ none → c ≡ not_a_float
read_confidence-none absent default h = cc
read_confidence-none not_a_float default h = refl
read_confidence-none (a_float x) default h = cc

pick_second : (b : Bool) (xs ys : List ℕ) → (if b && false then xs else ys) ≡ ys
pick_second true xs ys = refl
pick_second false xs ys = refl

pub own_dissent :
    (plans : List PlanV1) (id : String) (dissent : List ℕ)
    → all_space dissent ≡ false
    → dissent_or_auto plans id dissent ≡ dissent
own_dissent plans id dissent ink =
    rw ink (pick_second (ltb 1 (length plans)) (auto_dissent plans id) dissent)

pub auto-or-own :
    (plans : List PlanV1) (id : String) (dissent : List ℕ)
    → 1 < length plans
    → (all_space (take 8000 (dissent_or_auto plans id dissent)) ≡ false)
      ⊎ ((all_space (take 8000 dissent) ≡ true) × (all_space dissent ≡ false))
auto-or-own plans id dissent many = elim (Bool-cases (all_space dissent)) [
  | inl blank ↦ inl (rw (lt→ltb _ _ many, blank) (auto-ink plans id))
  | inr ink ↦ elim (Bool-cases (all_space (take 8000 dissent))) [
    | inl cut ↦ inr (cut, ink)
    | inr kept ↦ inl (rw (lt→ltb _ _ many, ink) kept)
  ]
]
