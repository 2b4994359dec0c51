-- ===== src/Board/Debate.antt =====
-- apps/agent_board/board/bull_bear.py and risk_panel.py: the debates before a decision.
-- A turn asks the language model through `chat_or_skip`, which is the parameter `ask`, on the prompt
-- that the plans and the prior turns make. Its answer is a text and `cost_skipped`.
pub mod Turns
use investment_intelligence.Prelude.{
  ℕ, zero, suc, ◌+◌, Bool, true, false, not, ◌&&◌, ◌||◌, Option, none, some, List, [], ◌∷◌, ◌++◌,
  length, leb, if◌then◌else◌,
}
use investment_intelligence.Prelude.Text.{strip}
use investment_intelligence.Prelude.Effect.{Effect, pure, throw, ◌>>=◌, map_error}
use investment_intelligence.Schema.Plan.{PlanV1}

abbrev pub max_rounds : ℕ
max_rounds = 2

abbrev pub max_turns : ℕ
max_turns = 3

pub data Side : Type 0 where
  bull bear : Side

pub record DebateTurn : Type 0 where
  pub side : Side
  pub round_no : ℕ
  pub text : List ℕ
  pub cost_skipped : Bool

pub record BullBearTranscript : Type 0 where
  pub turns : List DebateTurn
  pub bull_summary : List ℕ
  pub bear_summary : List ℕ
  pub cost_skipped : Bool

-- `any(t.cost_skipped for t in turns)`
unfoldable pub any_skipped : List DebateTurn → Bool
any_skipped [] = false
any_skipped (t ∷ ts) = t.cost_skipped || any_skipped ts

unfoldable pub degraded : BullBearTranscript → Bool
degraded t = t.cost_skipped || any_skipped t.turns

pub data DebateError (E : Type 0) : Type 0 where
  no_plans : DebateError E
  model_raised : E → DebateError E

abbrev no_plan : List PlanV1 → Bool
no_plan [] = true
no_plan (_ ∷ _) = false

abbrev pub no_turns : BullBearTranscript
no_turns = record { turns = []; bull_summary = []; bear_summary = []; cost_skipped = false }

module _ {W E : Type 0}
    (ask : Side → ℕ → List PlanV1 → List DebateTurn → Effect W E (List ℕ × Bool)) where
  unfoldable pub one_turn :
      Side → ℕ → List PlanV1 → List DebateTurn → Effect W (DebateError E) DebateTurn
  one_turn side r plans prior = do
    (text, skipped) ← map_error model_raised (ask side r plans prior)
    pure (record { side = side; round_no = r; text = strip text; cost_skipped = skipped })

  -- The loop of `debate`, with `left` rounds to go.
  unfoldable pub rounds :
      ℕ → ℕ → List PlanV1 → BullBearTranscript → Effect W (DebateError E) BullBearTranscript
  rounds zero r plans t = pure t
  rounds (suc left) r plans t = do
    b ← one_turn bull r plans t.turns
    c ← one_turn bear r plans (t.turns ++ b ∷ [])
    let told = record t { turns = t.turns ++ b ∷ c ∷ [] }
    let rest =
        rounds left (r + 1) plans (record told { bull_summary = b.text; bear_summary = c.text })
    if b.cost_skipped || c.cost_skipped then pure (record told { cost_skipped = true }) else rest

  unfoldable pub debate : List PlanV1 → Effect W (DebateError E) BullBearTranscript
  debate plans = if no_plan plans then throw no_plans else rounds max_rounds 1 plans no_turns

pub data Perspective : Type 0 where
  aggressive conservative neutral : Perspective

pub record RiskTurn : Type 0 where
  pub perspective : Perspective
  pub text : List ℕ
  pub cost_skipped : Bool

pub record RiskTranscript : Type 0 where
  pub turns : List RiskTurn
  pub aggressive : List ℕ
  pub conservative : List ℕ
  pub neutral : List ℕ
  pub cost_skipped : Bool

-- `summaries[perspective] = text`
abbrev pub set_summary : Perspective → List ℕ → RiskTranscript → RiskTranscript
set_summary Perspective.aggressive text t = record t { aggressive = text }
set_summary Perspective.conservative text t = record t { conservative = text }
set_summary Perspective.neutral text t = record t { neutral = text }

abbrev no_takes : RiskTranscript
no_takes = record {
  turns = [];
  aggressive = [];
  conservative = [];
  neutral = [];
  cost_skipped = false;
}

abbrev note_turn : Perspective → List ℕ → Bool → RiskTranscript → RiskTranscript
note_turn p text skipped t = set_summary p text (record t {
  turns = t.turns ++ (record { perspective = p; text = text; cost_skipped = skipped }) ∷ [];
  cost_skipped = t.cost_skipped || skipped;
})

module _ {W E : Type 0}
    (ask : Perspective → List PlanV1 → List RiskTurn → Effect W E (List ℕ × Bool)) where
  -- The loop of `deliberate`, over the perspectives that are left.
  unfoldable pub takes :
      List Perspective → List PlanV1 → RiskTranscript → Effect W (DebateError E) RiskTranscript
  takes [] plans t = pure t
  takes (p ∷ ps) plans t = do
    let next = do
      (text, skipped) ← map_error model_raised (ask p plans t.turns)
      let t' = note_turn p (strip text) skipped t
      let rest = takes ps plans t'
      if skipped then pure t' else rest
    if leb max_turns (length t.turns) then pure t else next

  unfoldable pub deliberate : List PlanV1 → Effect W (DebateError E) RiskTranscript
  deliberate plans =
      if no_plan plans
      then throw no_plans
      else takes (Perspective.aggressive ∷ Perspective.conservative ∷ Perspective.neutral ∷ [])
          plans no_takes
