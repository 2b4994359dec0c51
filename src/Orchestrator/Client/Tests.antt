-- ===== src/Orchestrator/Client/Tests.antt =====
-- Runs of agent_client.py with an agent that is down.
use investment_intelligence.Prelude.{
  ℕ, suc, ◌≤◌, ◌≡◌, ◌≢◌, refl, false, some, [], ◌∷◌, String, arith, if◌then◌else◌,
}
use investment_intelligence.Prelude.Keys.{◌=?◌, String-keys}
use investment_intelligence.Prelude.Dict.{Dict, lookup}
use investment_intelligence.Prelude.Outcome.{ok, err}
use investment_intelligence.Orchestrator.Breaker.{
  Config, enter_call, leave_call, enter, leave, transition,
}
use investment_intelligence.Orchestrator.Client.{
  Sent, replied, failed, Client, call, send, response, breaker_open_response, no_base_url,
}
use investment_intelligence.Orchestrator.Client.Shield.{requests_bounded}

abbrev cfg : Config
cfg = record { failure_threshold = 2; cooldown_s = 60 }

abbrev base : Dict String String
base = ("agent_quant", "http://quant:9100") ∷ ("agent_board", "http://board:9100") ∷ []

-- The world counts the requests that the quant agent was sent.
abbrev post : String → ℕ → ℕ → Sent String String ℕ
post url payload n =
    if url =? "http://quant:9100/run"
    then record { outcome = failed "down"; took = 1; world = suc n }
    else record { outcome = replied "plan"; took = 2; world = n }

abbrev start : Client ℕ
start = record { breaker = record { states = []; has_hook = false; notified = [] }; world = 0 }

abbrev client : String → ℕ → Client ℕ → Client ℕ
client agent now s = (call cfg base false post post agent 7 now s).1

refused_after_two :
    let s = client "agent_quant" 103 (client "agent_quant" 100 start) in
    ((call cfg base false post post "agent_quant" 7 105 s).0
      ≡ ok (breaker_open_response "agent_quant"))
    × (s.world ≡ 2)
    × ((call cfg base false post post "agent_board" 7 105 s).0 ≡ ok (response "plan"))
    × ((call cfg base false post post "agent_x" 7 105 s).0 ≡ err (no_base_url "agent_x"))
unfolding call send enter_call leave_call enter leave transition
refused_after_two = (refl, refl, refl, refl)

url_of_other :
    (b url : String) → b ≢ "agent_quant" → lookup b base ≡ some url → url ≡ "http://board:9100"
url_of_other b url ne at =
    ground (arith, String-keys.beq_iff "agent_quant" b, String-keys.beq_iff "agent_board" b)

url_of_quant : (url : String) → lookup "agent_quant" base ≡ some url → url ≡ "http://quant:9100"
url_of_quant url at = ground arith

requests_bounded_example :
    (client "agent_quant" 111 (
      client "agent_quant" 106 (
        client "agent_board" 104
          (client "agent_quant" 103 (client "agent_quant" 100 start))))).world
    ≤ 2
unfolding send
requests_bounded_example =
    requests_bounded cfg base false post post (λ n. n) "agent_quant"
      (λ url p w at. rw (url_of_quant url at) ("down", refl))
      (λ url p w at. rw (url_of_quant url at) (omega arith))
      (λ b url p w ne at. rw (url_of_other b url ne at) refl) 100
      (("agent_quant", 7, 100)
        ∷ ("agent_quant", 7, 103)
        ∷ ("agent_board", 7, 104)
        ∷ ("agent_quant", 7, 106)
        ∷ ("agent_quant", 7, 111)
        ∷ [])
      start refl refl (omega arith)
      (
        (omega arith, omega arith),
        (
          (omega arith, omega arith),
          (
            (omega arith, omega arith),
            ((omega arith, omega arith), ((omega arith, omega arith), tt)),
          ),
        ),
      )
