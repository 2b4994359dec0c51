-- ===== src/Board/Debate/Turns.antt =====
-- How long the debate of bull_bear.py is, and when it counts as degraded.
use investment_intelligence.Prelude.{
  ℕ, zero, suc, ◌+◌, ◌*◌, ◌≤◌, ◌≡◌, refl, sym, ◌∙◌, Bool, true, false, ◌||◌, List, [], ◌∷◌, ◌++◌,
  length, length-append, arith, Bool-cases, inl, inr, if◌then◌else◌,
}
use investment_intelligence.Prelude.Outcome.{ok}
use investment_intelligence.Prelude.Effect.{Effect, pure, proceed-eq-ok}
use investment_intelligence.Schema.Plan.{PlanV1}
use investment_intelligence.Board.Debate.{
  Side, bull, bear, DebateTurn, BullBearTranscript, any_skipped, degraded, no_turns, one_turn,
  rounds, debate, max_rounds,
}

-- The transcript of a debate with `left` rounds to go from `n` turns.
record Shape (left n : ℕ) (t : BullBearTranscript) : Type 0 where
  short : length t.turns ≤ n + 2 * left
  told : any_skipped t.turns ≡ t.cost_skipped
  full : t.cost_skipped ≡ false → length t.turns ≡ n + 2 * left

two_skipped :
    (ts : List DebateTurn) (b c : DebateTurn)
    → any_skipped (ts ++ b ∷ c ∷ []) ≡ (any_skipped ts || (b.cost_skipped || c.cost_skipped))
unfolding any_skipped
two_skipped [] b c = ground arith
two_skipped (t ∷ ts) b c = ground (arith, two_skipped ts b c)

two_quiet :
    (ts : List DebateTurn) (b c : DebateTurn)
    → any_skipped ts ≡ false
    → (b.cost_skipped || c.cost_skipped) ≡ false
    → any_skipped (ts ++ b ∷ c ∷ []) ≡ false
two_quiet ts b c quiet n = ground (arith, two_skipped ts b c)

stopped-Shape :
    (left : ℕ) (t : BullBearTranscript) (b c : DebateTurn)
    → any_skipped t.turns ≡ false
    → (b.cost_skipped || c.cost_skipped) ≡ true
    → Shape
        (suc left)
        (length t.turns)
        (record t { turns = t.turns ++ b ∷ c ∷ []; cost_skipped = true })
stopped-Shape left t b c quiet s = record {
  short = omega (arith, length-append t.turns (b ∷ c ∷ []));
  told = ground (arith, two_skipped t.turns b c);
  full = λ e. cc;
}

went-Shape :
    (left : ℕ) (ts : List DebateTurn) (t' : BullBearTranscript) (b c : DebateTurn)
    → Shape left (length (ts ++ b ∷ c ∷ [])) t'
    → Shape (suc left) (length ts) t'
went-Shape left ts t' b c sh = record {
  short = omega (arith, sh.short, length-append ts (b ∷ c ∷ []));
  told = sh.told;
  full = λ e. omega (arith, sh.full e, length-append ts (b ∷ c ∷ []));
}

stop_or_go :
    {W E A : Type 0} (u : A) (rest : Effect W E A) (x : Bool) (w w' : W) {t : A}
    → (if x then pure u else rest) w ≡ (ok t, w')
    → (x ≡ true → u ≡ t) × (x ≡ false → rest w ≡ (ok t, w'))
stop_or_go u rest true w w' h = ((λ _. ground arith), λ e. cc)
stop_or_go u rest false w w' h = ((λ e. cc), λ _. h)

quiet : any_skipped [] ≡ false
unfolding any_skipped
quiet = refl

module _ {W E : Type 0}
    (ask : Side → ℕ → List PlanV1 → List DebateTurn → Effect W E (List ℕ × Bool)) where
  rounds-Shape :
      (left r : ℕ) (plans : List PlanV1) (t t' : BullBearTranscript) (w w' : W)
      → any_skipped t.turns ≡ false
      → t.cost_skipped ≡ false
      → rounds ask left r plans t w ≡ (ok t', w')
      → Shape left (length t.turns) t'
  unfolding rounds
  rounds-Shape zero r plans t t' w w' quiet open_ h =
      let same : t ≡ t' = ground arith in
      rw (← same)
        (record { short = omega arith; told = quiet ∙ sym open_; full = λ _. omega arith })
  rounds-Shape (suc left) r plans t t' w w' quiet open_ h =
      let (b, (w1, _, h1)) = proceed-eq-ok (one_turn ask bull r plans t.turns w) _ h in
      let (c, (w2, _, h2)) =
        proceed-eq-ok (one_turn ask bear r plans (t.turns ++ b ∷ []) w1) _ h1 in
      let (stopped, went_on) = stop_or_go _ _ (b.cost_skipped || c.cost_skipped) w2 w' h2 in
      elim (Bool-cases (b.cost_skipped || c.cost_skipped)) [
        | inl s ↦ rw (← stopped s) (stopped-Shape left t b c quiet s)
        | inr n ↦ went-Shape left t.turns t' b c (
            rounds-Shape left (r + 1) plans _ t' w2 w' (two_quiet t.turns b c quiet n) open_
              (went_on n))
      ]

  -- A debate that returns has at most four turns, and exactly four unless it is degraded. It is
  -- degraded exactly when some turn was skipped for its cost; a turn of empty or junk text does not
  -- make it so.
  pub debate_turns :
      (plans : List PlanV1) (t : BullBearTranscript) (w w' : W)
      → debate ask plans w ≡ (ok t, w')
      → (length t.turns ≤ 4)
        × (degraded t ≡ any_skipped t.turns)
        × (degraded t ≡ false → length t.turns ≡ 4)
  unfolding debate degraded
  debate_turns [] t w w' h = absurd (cc)
  debate_turns (p ∷ plans) t w w' h =
      let sh = rounds-Shape max_rounds 1 (p ∷ plans) no_turns t w w' quiet refl h in
      (sh.short, ground (arith, sh.told), λ e. sh.full (ground arith))
