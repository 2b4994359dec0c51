-- ===== src/Board/Chair/Decision.antt =====
-- What the Board's decisions of chair.py are, whatever the language model answers.
use native.Mathlib.Decide.{dec_lt}
use investment_intelligence.Prelude.{
  ℕ, ◌≤◌, ◌<◌, ◌≡◌, refl, ap, ◌∙◌, inl, inr, Bool, true, false, Option, none, some, List, ◌∷◌,
  String, length, take, length-take, All, arith, Bool-cases,
}
use investment_intelligence.Prelude.Float.{Float}
use investment_intelligence.Prelude.Keys.{String-keys, contains}
use investment_intelligence.Prelude.Text.{codes, all_space, is_ulid_text}
use investment_intelligence.Prelude.Outcome.{Result, ok, err}
use investment_intelligence.Prelude.Effect.{Effect, proceed, relabel}
use investment_intelligence.Schema.{Validators}
use investment_intelligence.Schema.Plan.{PlanV1}
use investment_intelligence.Board.Debate.{BullBearTranscript, degraded, RiskTranscript}
use investment_intelligence.Board.Chair.{
  BoardDecisionV1, is_valid_decision, not_a_float, Parsed, ChairError, no_plans, bad_confidence,
  invalid_decision, model_raised, extract_json, best_from, ids_of, find_plan, read_confidence,
  fallback_dissent, fallback_rationale, fallback_of, make, dissent_or_auto, decision_of,
  with_confidence, read_answer, after_chair, synthesize_decision,
}
use investment_intelligence.Board.Chair.Plans.{
  clamp-InUnit, best_from-contains, AtLeast, Confident, IsBest-parts, best_from-IsBest, Decides,
  valid_if, length-fallback_view, blank-invalid, read_confidence-none, own_dissent, auto-or-own,
}

module _ (line : PlanV1 → List ℕ) (two_digits : Float → List ℕ) (v : Validators) {W E : Type 0}
    (ulid event : String) (risk : RiskTranscript) (when_ : ℕ) (loads : List ℕ → Option Parsed)
    (ask : List PlanV1 → BullBearTranscript → RiskTranscript → Effect W E (List ℕ × Bool)) where
  -- The texts of the fallback about the chosen plan are within the limits of the model.
  abbrev pub Fits : List PlanV1 → PlanV1 → Type 0
  Fits plans chosen =
      (length (fallback_dissent line two_digits plans chosen) ≤ 8000)
      × ((reason : List ℕ)
          → length reason ≤ 25
          → length (fallback_rationale line two_digits reason chosen) ≤ 4000)

  -- A dissent that is blank up to its cut, and not as a whole.
  abbrev pub CutBlank : Parsed → Type 0
  CutBlank a =
      (all_space (take 8000 a.dissent_record) ≡ true) × (all_space a.dissent_record ≡ false)

  -- How `synthesize_decision` may end.
  pub Outcome :
      List PlanV1 → BullBearTranscript → W → Result (ChairError E) BoardDecisionV1 × W → Type 0
  Outcome plans bull_bear w (ok d, w') =
      Decides plans d × (degraded bull_bear ≡ true → All (AtLeast d.confidence) plans)
  Outcome plans bull_bear w (err no_plans, w') = ⊥
  Outcome plans bull_bear w (err bad_confidence, w') =
      (text : List ℕ) × ((a : Parsed) × (extract_json loads text ≡ some a)
        × (a.confidence ≡ not_a_float))
  Outcome plans bull_bear w (err invalid_decision, w') =
      (text : List ℕ) × ((a : Parsed) × (extract_json loads text ≡ some a) × CutBlank a)
  Outcome plans bull_bear w (err (model_raised e), w') =
      (degraded bull_bear ≡ false) × (ask plans bull_bear risk w ≡ (err e, w'))

  module _ (p : PlanV1) (ps : List PlanV1) (bull_bear : BullBearTranscript) (w : W)
      (new_id : is_ulid_text ulid ≡ true) (own : Confident p) (all : All Confident ps)
      (fits : Fits (p ∷ ps) (best_from p ps)) where
    made :
        (d : BoardDecisionV1) (w' : W)
        → is_valid_decision v d ≡ true
        → Decides (p ∷ ps) d
        → (degraded bull_bear ≡ true → All (AtLeast d.confidence) (p ∷ ps))
        → Outcome (p ∷ ps) bull_bear w (make v d w')
    unfolding Outcome
    made d w' valid h best = rw valid (h, best)

    fallback-Outcome :
        (reason : List ℕ) (w' : W)
        → length reason ≤ 25
        → Outcome
            (p ∷ ps)
            bull_bear
            w
            (make v (fallback_of line two_digits ulid event p ps risk when_ reason) w')
    fallback-Outcome reason w' short =
        let (sure, best) = IsBest-parts _ p ps (best_from-IsBest p ps own all) in
        let d = fallback_of line two_digits ulid event p ps risk when_ reason in
        let h : Decides (p ∷ ps) d = record {
          considered = refl;
          chosen = best_from-contains p ps;
          certain = sure;
          dissent = λ _. refl;
        } in
        made d w'
          (valid_if v (p ∷ ps) d new_id (fits.1 reason short) fits.0 (length-fallback_view risk) h)
          h (λ _. best)

    own-Decides :
        (a : Parsed) (c : Float)
        → contains a.chosen_plan_id (ids_of (p ∷ ps)) ≡ true
        → (1 < length (p ∷ ps)
            → all_space (take 8000 (dissent_or_auto (p ∷ ps) a.chosen_plan_id a.dissent_record))
              ≡ false)
        → Decides (p ∷ ps) (decision_of ulid event (p ∷ ps) when_ a c)
    own-Decides a c known said = record {
      considered = refl;
      chosen = known;
      certain = clamp-InUnit c;
      dissent = said;
    }

    decided-Outcome :
        (a : Parsed) (c : Float) (w' : W)
        → degraded bull_bear ≡ false
        → Decides (p ∷ ps) (decision_of ulid event (p ∷ ps) when_ a c)
        → Outcome (p ∷ ps) bull_bear w (make v (decision_of ulid event (p ∷ ps) when_ a c) w')
    decided-Outcome a c w' good h =
        let d = decision_of ulid event (p ∷ ps) when_ a c in
        made d w'
          (valid_if v (p ∷ ps) d new_id (length-take 4000 a.chair_rationale) (length-take 8000 _)
            (length-take 4000 a.risk_view) h)
          h (λ bad. absurd (cc (bad, good)))

    cut-Outcome :
        (text : List ℕ) (a : Parsed) (c : Float) (w' : W)
        → extract_json loads text ≡ some a
        → 1 < length (p ∷ ps)
        → CutBlank a
        → Outcome (p ∷ ps) bull_bear w (make v (decision_of ulid event (p ∷ ps) when_ a c) w')
    unfolding Outcome
    cut-Outcome text a c w' e many cut =
        rw
          (blank-invalid v (p ∷ ps) (decision_of ulid event (p ∷ ps) when_ a c) refl many (
            ap (λ t. all_space (take 8000 t))
              (own_dissent (p ∷ ps) a.chosen_plan_id a.dissent_record cut.1)
            ∙ cut.0))
          (text, (a, e, cut))

    read-Outcome :
        (text : List ℕ) (a : Parsed) (w' : W)
        → extract_json loads text ≡ some a
        → degraded bull_bear ≡ false
        → contains a.chosen_plan_id (ids_of (p ∷ ps)) ≡ true
        → (c : Option Float)
        → read_confidence a.confidence (find_plan a.chosen_plan_id p ps).confidence ≡ c
        → Outcome (p ∷ ps) bull_bear w (with_confidence v ulid event (p ∷ ps) when_ a c w')
    read-Outcome text a w' e good known none unread =
        unfold Outcome in (text, (a, e, read_confidence-none a.confidence _ unread))
    read-Outcome text a w' e good known (some c) read = elim (dec_lt 1 (length (p ∷ ps))) [
      | no few ↦ decided-Outcome a c w' good (own-Decides a c known (λ many. absurd (few many)))
      | yes many ↦ elim (auto-or-own (p ∷ ps) a.chosen_plan_id a.dissent_record many) [
        | inl said ↦ decided-Outcome a c w' good (own-Decides a c known (λ _. said))
        | inr cut ↦ cut-Outcome text a c w' e many cut
      ]
    ]

    answer-Outcome :
        (text : List ℕ) (w' : W) (found : Option Parsed)
        → degraded bull_bear ≡ false
        → extract_json loads text ≡ found
        → Outcome
            (p ∷ ps)
            bull_bear
            w
            (read_answer line two_digits v ulid event risk when_ p ps found w')
    answer-Outcome text w' none good e =
        fallback-Outcome (codes "chair_json_parse_failed") w' (omega arith)
    answer-Outcome text w' (some a) good e =
        elim (Bool-cases (contains a.chosen_plan_id (ids_of (p ∷ ps)))) [
          | inr unknown ↦
              rw unknown (fallback-Outcome (codes "chair_picked_unknown_plan") w' (omega arith))
          | inl known ↦ rw known (
              read-Outcome text a w' e good known
                (read_confidence a.confidence (find_plan a.chosen_plan_id p ps).confidence) refl)
        ]

    chair-Outcome :
        degraded bull_bear ≡ false
        → (r : Result E (List ℕ × Bool) × W) → ask (p ∷ ps) bull_bear risk w ≡ r
        → Outcome (p ∷ ps) bull_bear w (
            proceed
              (relabel model_raised r)
              (after_chair line two_digits v ulid event risk when_ loads p ps))
    chair-Outcome good (err e, w') asked = unfold Outcome in (good, asked)
    chair-Outcome good (ok (text, true), w') asked =
        fallback-Outcome (codes "chair_cost_skipped") w' (omega arith)
    chair-Outcome good (ok (text, false), w') asked =
        answer-Outcome text w' (extract_json loads text) good refl

  -- Whatever the language model answers, and whatever it raises: from one plan or more with
  -- confidences between 0 and 1, and where the texts of the fallback fit, the chair decides for one of
  -- the plans it was given, it lists all of them, its confidence is between 0 and 1, and among several
  -- plans its dissent is not blank. On a degraded debate no plan has a higher confidence than the
  -- decision. It fails only if the model's call raised, if the answer's confidence is no float, or if
  -- the answer's dissent is blank up to its cut and not as a whole.
  pub synthesize_decision-Outcome :
      (p : PlanV1) (ps : List PlanV1) (bull_bear : BullBearTranscript) (w : W)
      → is_ulid_text ulid ≡ true
      → Confident p
      → All Confident ps
      → Fits (p ∷ ps) (best_from p ps)
      → Outcome (p ∷ ps) bull_bear w (
          synthesize_decision line two_digits v ulid event risk when_ loads ask
            (p ∷ ps)
            bull_bear
            w)
  unfolding synthesize_decision
  synthesize_decision-Outcome p ps bull_bear w new_id own all fits =
      elim (Bool-cases (degraded bull_bear)) [
        | inl bad ↦ rw bad (
            fallback-Outcome p ps bull_bear w new_id own all fits (codes "bull_bear_degraded") w
              (omega arith))
        | inr good ↦ rw good (
            chair-Outcome p ps bull_bear w new_id own all fits good (ask (p ∷ ps) bull_bear risk w)
              refl)
      ]
