-- ===== src/Board/Chair.antt =====
-- apps/agent_board/board/chair.py and schema.py: the decision of the Board's chair.
-- The language model is asked through `ask`, the `chat_or_skip` on the chair's prompt, with a text and
-- `cost_skipped` for an answer. `json.loads` is `loads`, given by what the chair reads of the object.
-- `line` and `two_digits` are the f-strings that print numbers; `ulid` is the new id.
pub mod Plans
pub mod Decision
use investment_intelligence.Prelude.{
  ℕ, zero, suc, ◌+◌, ◌*◌, Bool, true, false, not, ◌&&◌, ◌||◌, Option, none, some, List, [], ◌∷◌,
  ◌++◌, map, String, length, take, ltb, leb, ◌==◌, if◌then◌else◌, keep_if,
}
use investment_intelligence.Prelude.Int.{pos}
use investment_intelligence.Prelude.Float.{Float, real, nan, one, float_lt}
use investment_intelligence.Prelude.Keys.{◌=?◌, String-keys, contains}
use investment_intelligence.Prelude.Text.{codes, all_space, is_ulid_text, strip}
use investment_intelligence.Prelude.Outcome.{Result, ok, err}
use investment_intelligence.Prelude.Effect.{Effect, pure, throw, ◌>>=◌, map_error}
use investment_intelligence.Schema.{Validators}
use investment_intelligence.Schema.Plan.{PlanV1}
use investment_intelligence.Board.Debate.{BullBearTranscript, degraded, RiskTranscript}

pub record BoardDecisionV1 : Type 0 where
  pub id : String
  pub trigger_event_id : String
  pub considered_plan_ids : List String
  pub chosen_plan_id : String
  pub chair_rationale : List ℕ
  pub dissent_record : List ℕ
  pub risk_view : List ℕ
  pub confidence : Float
  pub issued_at : ℕ

abbrev pub is_valid_decision : Validators → BoardDecisionV1 → Bool
is_valid_decision v d =
    is_ulid_text d.id
    && leb (length d.chair_rationale) 4000
    && leb (length d.dissent_record) 8000
    && leb (length d.risk_view) 4000
    && v.within (pos 0) (pos one) d.confidence
    && contains d.chosen_plan_id d.considered_plan_ids
    && not (ltb 1 (length d.considered_plan_ids) && all_space d.dissent_record)

-- `float(x)` of what the object has under "confidence".
pub data Confidence : Type 0 where
  absent not_a_float : Confidence
  a_float : Float → Confidence

pub record Parsed : Type 0 where
  pub chosen_plan_id : String
  pub chair_rationale : List ℕ
  pub dissent_record : List ℕ
  pub risk_view : List ℕ
  pub confidence : Confidence

pub data ChairError (E : Type 0) : Type 0 where
  no_plans bad_confidence invalid_decision : ChairError E
  model_raised : E → ChairError E

-- Up to the last closing brace.
abbrev pub upto_brace : List ℕ → Option (List ℕ)
upto_brace [] = none
upto_brace (c ∷ cs) = elim (upto_brace cs) [
  | some r ↦ some (c ∷ r)
  | none ↦ if c == b'}' then some (c ∷ []) else none
]

-- `_JSON_OBJECT_RE.search`: from the first opening brace to the last closing one.
unfoldable pub search_object : List ℕ → Option (List ℕ)
search_object [] = none
search_object (c ∷ cs) =
    let rest = search_object cs in
    if c == b'{' then elim (upto_brace cs) [ some r ↦ some (c ∷ r) | none ↦ none ] else rest

unfoldable pub extract_json : (List ℕ → Option Parsed) → List ℕ → Option Parsed
extract_json loads text = elim (search_object text) [ none ↦ none | some t ↦ loads t ]

-- `max(plans, key=…)`, with the best so far.
abbrev pub best_from : PlanV1 → List PlanV1 → PlanV1
best_from best [] = best
best_from best (p ∷ ps) = best_from (if float_lt best.confidence p.confidence then p else best) ps

abbrev pub ids_of : List PlanV1 → List String
ids_of = map (λ (p : PlanV1). p.id)

-- `sep.join(…)`
abbrev pub join : List ℕ → List (List ℕ) → List ℕ
join sep [] = []
join sep (x ∷ []) = x
join sep (x ∷ y ∷ xs) = x ++ (sep ++ join sep (y ∷ xs))

abbrev pub or_else : List ℕ → List ℕ → List ℕ
or_else [] ys = ys
or_else (x ∷ xs) ys = x ∷ xs

-- `max(0.0, min(1.0, x))`: Python's `min` keeps 1.0 where the comparison is False.
abbrev pub clamp : Float → Float
clamp x =
    let low = if float_lt x (real (pos one)) then x else real (pos one) in
    if float_lt (real (pos 0)) low then low else real (pos 0)

abbrev pub read_confidence : Confidence → Float → Option Float
read_confidence absent default = some default
read_confidence not_a_float default = none
read_confidence (a_float x) default = some x

-- `next(p for p in plans if p.id == chosen_id)`, on the first plan and the rest.
abbrev pub find_plan : String → PlanV1 → List PlanV1 → PlanV1
find_plan id p [] = p
find_plan id p (q ∷ ps) = if p.id =? id then p else find_plan id q ps

abbrev pub auto_dissent : List PlanV1 → String → List ℕ
auto_dissent plans chosen =
    codes "Chair did not produce dissent record; auto-generated: "
    ++ join (codes ", ") (
        map (λ (p : PlanV1). codes "[" ++ (codes p.id ++ codes "]"))
          (keep_if (λ p. not (p.id =? chosen)) plans))

abbrev pub dissent_or_auto : List PlanV1 → String → List ℕ → List ℕ
dissent_or_auto plans chosen dissent =
    if ltb 1 (length plans) && all_space dissent then auto_dissent plans chosen else dissent

-- The decision that the model's answer makes.
abbrev pub decision_of : String → String → List PlanV1 → ℕ → Parsed → Float → BoardDecisionV1
decision_of ulid event plans when_ a confidence = record {
  id = ulid;
  trigger_event_id = event;
  considered_plan_ids = ids_of plans;
  chosen_plan_id = a.chosen_plan_id;
  chair_rationale = take 4000 a.chair_rationale;
  dissent_record = take 8000 (dissent_or_auto plans a.chosen_plan_id a.dissent_record);
  risk_view = take 4000 a.risk_view;
  confidence = clamp confidence;
  issued_at = when_;
}

abbrev pub fallback_view : RiskTranscript → List ℕ
fallback_view risk =
    or_else
      (strip (
        codes "aggressive: "
        ++ (take 200 risk.aggressive
            ++ (codes "\nconservative: "
                ++ (take 200 risk.conservative
                    ++ (codes "\nneutral: " ++ take 200 risk.neutral))))))
      (codes "Risk panel unavailable.")

module _ (v : Validators) {W E : Type 0} where
  -- `BoardDecisionV1(…)`
  abbrev pub make : BoardDecisionV1 → Effect W (ChairError E) BoardDecisionV1
  make d = if is_valid_decision v d then pure d else throw invalid_decision

  abbrev pub with_confidence :
      String
      → String
      → List PlanV1
      → ℕ
      → Parsed
      → Option Float
      → Effect W (ChairError E) BoardDecisionV1
  with_confidence ulid event plans when_ a none = throw bad_confidence
  with_confidence ulid event plans when_ a (some c) = make (decision_of ulid event plans when_ a c)

module _ (line : PlanV1 → List ℕ) (two_digits : Float → List ℕ) where
  abbrev pub fallback_dissent : List PlanV1 → PlanV1 → List ℕ
  fallback_dissent plans chosen =
      codes "Synthetic-fallback dissent record — Chair LLM unavailable.\n\nConsidered plans:\n"
      ++ (join (codes "\n") (map line plans)
          ++ (codes "\n\nFallback chose ["
              ++ (codes chosen.id
                  ++ (codes "] (highest confidence). Other plans not chosen: "
                      ++ (or_else
                            (join (codes ", ") (
                              map (λ (p : PlanV1). codes p.id)
                                (keep_if (λ p. not (p.id =? chosen.id)) plans)))
                            (codes "(none)")
                          ++ codes ".")))))

  abbrev pub fallback_rationale : List ℕ → PlanV1 → List ℕ
  fallback_rationale reason chosen =
      codes "Fallback selection ("
      ++ (reason
          ++ (codes "): chose plan "
              ++ (codes chosen.id
                  ++ (codes " on highest confidence ("
                      ++ (two_digits chosen.confidence ++ codes ").")))))

  abbrev pub fallback_of :
      String → String → PlanV1 → List PlanV1 → RiskTranscript → ℕ → List ℕ → BoardDecisionV1
  fallback_of ulid event p ps risk when_ reason =
      let chosen = best_from p ps in
      record {
        id = ulid;
        trigger_event_id = event;
        considered_plan_ids = ids_of (p ∷ ps);
        chosen_plan_id = chosen.id;
        chair_rationale = fallback_rationale reason chosen;
        dissent_record = fallback_dissent (p ∷ ps) chosen;
        risk_view = fallback_view risk;
        confidence = chosen.confidence;
        issued_at = when_;
      }

  module _ (v : Validators) {W E : Type 0} (ulid event : String) (risk : RiskTranscript)
      (when_ : ℕ) where
    -- After the answer of the model.
    abbrev pub read_answer :
        PlanV1 → List PlanV1 → Option Parsed → Effect W (ChairError E) BoardDecisionV1
    read_answer p ps none =
        make v (fallback_of ulid event p ps risk when_ (codes "chair_json_parse_failed"))
    read_answer p ps (some a) =
        if contains a.chosen_plan_id (ids_of (p ∷ ps))
        then with_confidence v ulid event (p ∷ ps) when_ a
            (read_confidence a.confidence (find_plan a.chosen_plan_id p ps).confidence)
        else make v (fallback_of ulid event p ps risk when_ (codes "chair_picked_unknown_plan"))

    module _ (loads : List ℕ → Option Parsed) where
      abbrev pub after_chair :
          PlanV1 → List PlanV1 → List ℕ × Bool → Effect W (ChairError E) BoardDecisionV1
      after_chair p ps (text, skipped) =
          if skipped
          then make v (fallback_of ulid event p ps risk when_ (codes "chair_cost_skipped"))
          else read_answer p ps (extract_json loads text)

      module _
          (ask : List PlanV1
            → BullBearTranscript
            → RiskTranscript
            → Effect W E (List ℕ × Bool)) where
        unfoldable pub synthesize_decision :
            List PlanV1 → BullBearTranscript → Effect W (ChairError E) BoardDecisionV1
        synthesize_decision [] bull_bear = throw no_plans
        synthesize_decision (p ∷ ps) bull_bear =
            if degraded bull_bear
            then make v (fallback_of ulid event p ps risk when_ (codes "bull_bear_degraded"))
            else map_error model_raised (ask (p ∷ ps) bull_bear risk) >>= after_chair p ps
