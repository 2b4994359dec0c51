-- ===== src/Board/Tests.antt =====
-- Decisions of the Board on the answers of a model.
use investment_intelligence.Prelude.{
  ℕ, suc, ◌+◌, ◌≤◌, ◌≡◌, refl, Bool, true, false, some, List, [], ◌∷◌, ◌++◌, String, length,
  length-append, arith,
}
use investment_intelligence.Prelude.Int.{pos}
use investment_intelligence.Prelude.Float.{Float, nan, real, one}
use investment_intelligence.Prelude.Text.{codes, is_ulid_text, strip, strip_left, strip_right}
use investment_intelligence.Prelude.Outcome.{ok, err}
use investment_intelligence.Prelude.Effect.{Effect}
use investment_intelligence.Schema.Plan.{PlanV1}
use investment_intelligence.Schema.Samples.{plain, sample}
use investment_intelligence.Board.Debate.{
  Side, bull, bear, DebateTurn, BullBearTranscript, no_turns, any_skipped, degraded, one_turn,
  rounds, debate, RiskTranscript, Perspective, RiskTurn, takes, deliberate,
}
use investment_intelligence.Board.Debate.Turns.{debate_turns}
use investment_intelligence.Board.Chair.{
  BoardDecisionV1, Confidence, absent, not_a_float, Parsed, search_object, extract_json, clamp,
  fallback_rationale, synthesize_decision,
}
use investment_intelligence.Board.Chair.Decision.{Outcome, synthesize_decision-Outcome}

abbrev second : PlanV1
second = record sample { id = "01ARZ3NDEKTSV4RRFFQ69G5FAX"; confidence = real (pos 700_000) }

-- The world counts the calls; the model runs out of budget at the third one.
abbrev ask_turn : Side → ℕ → List PlanV1 → List DebateTurn → Effect ℕ String (List ℕ × Bool)
ask_turn side r plans prior n =
    (ok (codes " yes ", elim n [ suc (suc m) ↦ true | _ ↦ false ]), n + 1)

abbrev always : Side → ℕ → List PlanV1 → List DebateTurn → Effect ℕ String (List ℕ × Bool)
always side r plans prior n = (ok (codes " yes ", false), n + 1)

debate_stops : (debate ask_turn (sample ∷ []) 0).1 ≡ 4
unfolding debate rounds one_turn strip strip_left strip_right
debate_stops = refl

abbrev calm : BullBearTranscript
calm = record no_turns { bull_summary = codes "up"; bear_summary = codes "down" }

abbrev whole : BullBearTranscript
whole = record {
  turns =
      (record { side = bull; round_no = 1; text = codes "yes"; cost_skipped = false })
      ∷ (record { side = bear; round_no = 1; text = codes "yes"; cost_skipped = false })
      ∷ (record { side = bull; round_no = 2; text = codes "yes"; cost_skipped = false })
      ∷ (record { side = bear; round_no = 2; text = codes "yes"; cost_skipped = false })
      ∷ [];
  bull_summary = codes "yes";
  bear_summary = codes "yes";
  cost_skipped = false;
}

debate_ends : debate always (sample ∷ []) 0 ≡ (ok whole, 4)
unfolding debate rounds one_turn strip strip_left strip_right
debate_ends = refl

debate_turns_example :
    (length whole.turns ≤ 4)
    × (degraded whole ≡ any_skipped whole.turns)
    × (degraded whole ≡ false → length whole.turns ≡ 4)
debate_turns_example = debate_turns always (sample ∷ []) whole 0 4 debate_ends

abbrev quiet_risk : RiskTranscript
quiet_risk = record {
  turns = [];
  aggressive = codes "more";
  conservative = codes "less";
  neutral = [];
  cost_skipped = false;
}

abbrev take_risk : Perspective → List PlanV1 → List RiskTurn → Effect ℕ String (List ℕ × Bool)
take_risk p plans prior n = (ok (codes "ok", false), n + 1)

three_takes : (deliberate take_risk (sample ∷ []) 0).1 ≡ 3
unfolding deliberate takes strip strip_left strip_right
three_takes = refl

braces_are_found : search_object (codes "so {a {b} c} end") ≡ some (codes "{a {b} c}")
unfolding search_object
braces_are_found = refl

-- A confidence of NaN becomes certainty.
nan_is_certain : clamp nan ≡ real (pos one)
nan_is_certain = refl

abbrev answer : Confidence → Parsed
answer c = record {
  chosen_plan_id = sample.id;
  chair_rationale = codes "cheap";
  dissent_record = [];
  risk_view = [];
  confidence = c;
}

abbrev line : PlanV1 → List ℕ
line p = codes p.id

abbrev two_digits : Float → List ℕ
two_digits _ = codes "0.50"

abbrev ask_chair :
    List PlanV1 → BullBearTranscript → RiskTranscript → Effect ℕ String (List ℕ × Bool)
ask_chair plans bb risk n = (ok (codes "{}", false), n + 1)

abbrev decide : Confidence → Effect ℕ String BoardDecisionV1
decide c n =
    elim (synthesize_decision line two_digits plain "01ARZ3NDEKTSV4RRFFQ69G5FAW" "evt" quiet_risk 5
      (λ _. some (answer c)) ask_chair (sample ∷ second ∷ []) calm n).0 [
        | ok d ↦ (ok d, n)
        | err e ↦ (err "failed", n)
      ]

null_confidence_fails : (decide not_a_float 0).0 ≡ err "failed"
unfolding synthesize_decision degraded any_skipped extract_json search_object
null_confidence_fails = refl

rationale_short :
    (reason : List ℕ)
    → length reason ≤ 25
    → length (fallback_rationale line two_digits reason second) ≤ 4000
rationale_short reason short = omega (
  arith,
  length-append reason (
      codes "): chose plan "
      ++ (codes second.id ++ (codes " on highest confidence (" ++ (codes "0.50" ++ codes ").")))),
)

synthesize_decision-Outcome_example :
    Outcome line two_digits plain "01ARZ3NDEKTSV4RRFFQ69G5FAW" "evt" quiet_risk 5
      (λ _. some (answer absent))
      ask_chair
      (sample ∷ second ∷ [])
      calm
      0
      (synthesize_decision line two_digits plain "01ARZ3NDEKTSV4RRFFQ69G5FAW" "evt" quiet_risk 5
        (λ _. some (answer absent))
        ask_chair
        (sample ∷ second ∷ [])
        calm
        0)
unfolding is_ulid_text
synthesize_decision-Outcome_example =
    synthesize_decision-Outcome line two_digits plain "01ARZ3NDEKTSV4RRFFQ69G5FAW" "evt" quiet_risk
      5 (λ _. some (answer absent)) ask_chair sample (second ∷ []) calm 0 refl (omega arith)
      (omega arith) (omega arith, rationale_short)
