-- ===== src/FeatureFlags/Tests.antt =====
-- Runs of core.py on a file that is edited, broken and restored.
use investment_intelligence.Prelude.{
  ℕ, ◌≡◌, refl, Bool, true, false, none, some, List, [], ◌∷◌, String, if◌then◌else◌,
}
use investment_intelligence.Prelude.Keys.{◌=?◌, ℕ-keys, String-keys}
use investment_intelligence.Prelude.Outcome.{ok, err}
use investment_intelligence.FeatureFlags.{
  FlagSpec, Text, bad_yaml, unreadable, mapping, File, absent, stat_fails, at, State, flag, resolve,
  read_yaml, read_failed, register,
}
use investment_intelligence.FeatureFlags.Cached.{answers, from_file, answers-from_file}

abbrev empty_state : State Bool
empty_state = record { registry = []; overrides = []; cache = record { mtime = none; values = [] } }

abbrev breaker_flag : FlagSpec Bool
breaker_flag = record {
  name = "orchestrator.agent_breaker.enabled";
  description = "Open circuit after 5 consecutive failures; half-open every 60 s.";
  added_in = "v2.5-T1.6";
  default = some true;
  owner = "orchestrator";
}

abbrev flags : State Bool
flags = register breaker_flag empty_state

abbrev text_at : ℕ → Text String Bool
text_at m =
    if m =? 5
    then mapping (("orchestrator.agent_breaker.enabled", some false) ∷ [])
    else if m =? 7
    then bad_yaml
    else mapping []

abbrev ask : File String Bool → String × File String Bool
ask f = ("orchestrator.agent_breaker.enabled", f)

abbrev uses : List (String × File String Bool)
uses =
    ask absent
    ∷ ask (at 5 (text_at 5))
    ∷ ask (at 7 (text_at 7))
    ∷ ask stat_fails
    ∷ ask (at 9 (text_at 9))
    ∷ ("orchestrator.agent_braker", at 9 (text_at 9))
    ∷ []

answers_in_turn :
    answers (λ k. k) text_at (λ b. b) uses flags
    ≡ ok true ∷ ok false ∷ ok false ∷ ok false ∷ ok true ∷ ok false ∷ []
unfolding flag resolve read_yaml
answers_in_turn = refl

answers-from_file_example :
    answers (λ k. k) text_at (λ b. b) uses flags
    ≡ from_file (λ k. k) text_at (λ b. b) uses flags.registry [] []
answers-from_file_example =
    answers-from_file (λ k. k) text_at (λ b. b) uses flags
      (tt, (refl, (refl, (tt, (refl, (refl, tt))))))

-- An exception of `read_text` that is no YAMLError is not caught.
unreadable_raises :
    (flag
      (λ (k : String). k)
      (λ b. b)
      "orchestrator.agent_breaker.enabled"
      (at 3 unreadable)
      flags).0
    ≡ err read_failed
unfolding flag resolve read_yaml
unreadable_raises = refl
