-- ===== src/Orchestrator/Client.antt =====
-- apps/orchestrator/orchestrator/plan/agent_client.py: `HttpxAgentClient.call`, which calls an agent
-- through its circuit breaker, and `agent_subject` of packages/data-bus/data_bus/request_reply.py.
-- The request over HTTP, with `raise_for_status` and `json`, and the one over NATS act on a world and
-- take some time. Calls come one after another.
pub mod Shield
mod Tests
use Prim.Native.String.{◌++◌ as str_append}
use investment_intelligence.Prelude.{ℕ, ◌+◌, Bool, Option, none, some, String, if◌then◌else◌}
use investment_intelligence.Prelude.Keys.{String-keys}
use investment_intelligence.Prelude.Dict.{Dict, lookup}
use investment_intelligence.Prelude.Outcome.{Result, ok, err}
use investment_intelligence.Orchestrator.Breaker.{
  State, Config, Entry, refused, probing, passing, Ending, returned, raised, cancelled, Registry,
  state_of, enter_call, leave_call,
}

-- How a request ends: with a response, an `Exception`, or a `CancelledError`.
pub data Outcome (R E : Type 0) : Type 0 where
  replied : R → Outcome R E
  failed : E → Outcome R E
  cut : Outcome R E

pub record Sent (R E W : Type 0) : Type 0 where
  pub outcome : Outcome R E
  pub took : ℕ
  pub world : W

-- The answer of an agent, or `_breaker_open_response(agent)`.
pub data Reply (R : Type 0) : Type 0 where
  response : R → Reply R
  breaker_open_response : String → Reply R

pub data ClientError (E : Type 0) : Type 0 where
  no_base_url : String → ClientError E
  call_raised : E → ClientError E
  call_cancelled : ClientError E

pub record Client (W : Type 0) : Type 0 where
  pub breaker : Registry
  pub world : W

abbrev pub ending_of : {R E : Type 0} → Outcome R E → Ending
ending_of (replied r) = returned
ending_of (failed e) = raised
ending_of cut = cancelled

abbrev pub answer_of : {R E : Type 0} → Outcome R E → Result (ClientError E) (Reply R)
answer_of (replied r) = ok (response r)
answer_of (failed e) = err (call_raised e)
answer_of cut = err call_cancelled

abbrev pub agent_subject : String → String
agent_subject agent_id = str_append "iic.agent." agent_id

module _ {Q R E W : Type 0} (cfg : Config) (base : Dict String String) (use_nats : Bool)
    (post nats_call : String → Q → W → Sent R E W) where
  -- `sender`
  pub send : String → String → Q → W → Sent R E W
  send agent url payload w =
      if use_nats
      then nats_call (agent_subject agent) payload w
      else post (str_append url "/run") payload w

  -- The end of the request, under the breaker.
  abbrev pub after_send :
      String → Entry → ℕ → Registry → Sent R E W → Result (ClientError E) (Reply R) × Client W
  after_send agent entry now r sent = (
    answer_of sent.outcome,
    record {
      breaker = leave_call cfg (now + sent.took) agent entry (ending_of sent.outcome) r;
      world = sent.world;
    },
  )

  abbrev pub under_breaker :
      String → String → Q → ℕ → Entry × Registry → W → Result (ClientError E) (Reply R) × Client W
  under_breaker agent url payload now (refused, r) w =
      (ok (breaker_open_response agent), record { breaker = r; world = w })
  under_breaker agent url payload now (probing, r) w =
      after_send agent probing now r (send agent url payload w)
  under_breaker agent url payload now (passing, r) w =
      after_send agent passing now r (send agent url payload w)

  abbrev pub call_at_url :
      Option String → String → Q → ℕ → Client W → Result (ClientError E) (Reply R) × Client W
  call_at_url none agent payload now s = (err (no_base_url agent), s)
  call_at_url (some url) agent payload now s =
      under_breaker agent url payload now (enter_call cfg now agent s.breaker) s.world

  pub call : String → Q → ℕ → Client W → Result (ClientError E) (Reply R) × Client W
  call agent payload now s = call_at_url (lookup agent base) agent payload now s

  abbrev pub breaker_state : String → Client W → State
  breaker_state agent s = state_of s.breaker agent
