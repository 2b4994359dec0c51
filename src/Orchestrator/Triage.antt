-- ===== src/Orchestrator/Triage.antt =====
-- apps/orchestrator/orchestrator/plan/event_triage.py: the gate before the trading room.
-- `float(raw)` is given by its result, none where it raises. The reasons that hold text of the numbers
-- are constructors here. The language model is asked through `chat_or_skip` of the LLM client.
pub mod Routes
mod Tests
use investment_intelligence.Prelude.{
  ℕ, ◌+◌, Bool, true, false, not, ◌&&◌, ◌||◌, Option, none, some, List, [], ◌∷◌, ◌++◌, String, ltb,
  leb, if◌then◌else◌,
}
use investment_intelligence.Prelude.Int.{ℤ, pos}
use investment_intelligence.Prelude.Keys.{◌=?◌, ℕ-keys, List-keys, list_beq}
use investment_intelligence.Prelude.Text.{codes, is_space}
use investment_intelligence.Prelude.Float.{Float, nan, real, one, float_lt, float_le}
use investment_intelligence.Prelude.Outcome.{Result, ok, err}
use investment_intelligence.LlmClient.Matrix.{RuntimeSignals}
use investment_intelligence.LlmClient.Router.{
  LlmRouter, LlmError, ChatResponse, ChatMessage, State, chat_or_skip,
}

pub data Route : Type 0 where
  trading_room morning_brief_only drop : Route

pub data Reason : Type 0 where
  high_impact no_signal low_impact_overlap medium_without_overlap flag_disabled no_router
        cost_breaker_open :
      Reason
  unparseable : String → Reason
  llm_tie_break : Route → Reason

-- What `_parse_event` reads of the payload, each `or` chain's candidates in order. The items of the
-- lists are texts; an absent text is empty.
pub record Payload : Type 0 where
  pub tickers : List String
  pub affected_universe : List String
  pub regime_change_score : Option Float
  pub surprise_factor : Option Float
  pub affected_universe_overlap : Option Float
  pub event_id : String
  pub id : String
  pub trace_id : String
  pub title : String
  pub body : String

pub record TriageInputs : Type 0 where
  pub event_id : String
  pub trace_id : String
  pub title : String
  pub body : String
  pub tickers : List String
  pub regime_change_score : Float
  pub surprise_factor : Float
  pub affected_universe_overlap : Float

pub record TriageDecision : Type 0 where
  pub inputs : TriageInputs
  pub route : Route
  pub reason : Reason
  pub cost_skipped : Bool

-- 0.85 and 0.4
abbrev pub high_impact_threshold : Float
high_impact_threshold = real (pos 850_000)

abbrev pub low_impact_threshold : Float
low_impact_threshold = real (pos 400_000)

abbrev pub coerce_score : Option Float → Float → Float
coerce_score none default = default
coerce_score (some v) default =
    if float_lt v (real (pos 0))
    then real (pos 0)
    else if float_lt (real (pos one)) v
    then real (pos one)
    else v

abbrev pub or_list : List String → List String → List String
or_list [] ys = ys
or_list (x ∷ xs) ys = x ∷ xs

abbrev pub or_text : String → String → String
or_text String.[] t = t
or_text s t = s

abbrev pub any_ticker : List String → Bool
any_ticker [] = false
any_ticker (_ ∷ _) = true

pub parse_event : Payload → TriageInputs
parse_event p =
    let tickers = or_list p.tickers p.affected_universe in
    record {
      event_id = or_text p.event_id p.id;
      trace_id = p.trace_id;
      title = p.title;
      body = p.body;
      tickers = tickers;
      regime_change_score = coerce_score p.regime_change_score (real (pos 0));
      surprise_factor = coerce_score p.surprise_factor (real (pos 0));
      affected_universe_overlap =
          coerce_score p.affected_universe_overlap
            (if any_ticker tickers then real (pos one) else real (pos 0));
    }

abbrev pub has_overlap : TriageInputs → Bool
has_overlap t = any_ticker t.tickers && float_lt (real (pos 0)) t.affected_universe_overlap

-- Some score reaches the threshold.
abbrev pub signal : Float → TriageInputs → Bool
signal threshold t =
    float_le threshold t.regime_change_score || float_le threshold t.surprise_factor

pub numeric_route : TriageInputs → Option (Route × Reason)
numeric_route t =
    if signal high_impact_threshold t && has_overlap t
    then some (trading_room, high_impact)
    else if not (has_overlap t) && not (signal low_impact_threshold t)
    then some (drop, no_signal)
    else if has_overlap t && not (signal low_impact_threshold t)
    then some (morning_brief_only, low_impact_overlap)
    else if signal low_impact_threshold t && not (has_overlap t)
    then some (morning_brief_only, medium_without_overlap)
    else none

-- `str.lower`, on codes: no letter outside ASCII becomes a token's letter.
abbrev pub lower : ℕ → ℕ
lower c = if leb 65 c && leb c 90 then c + 32 else c

abbrev pub push_word : List ℕ → List (List ℕ) → List (List ℕ)
push_word [] words = words
push_word (c ∷ cs) words = (c ∷ cs) ∷ words

-- `str.split()`, with the letters of the current word so far
abbrev pub words_from : List ℕ → List ℕ → List (List ℕ)
words_from word [] = push_word word []
words_from word (c ∷ cs) =
    let split = push_word word (words_from [] cs) in
    let longer = words_from (word ++ c ∷ []) cs in if is_space c then split else longer

abbrev pub lower_all : List ℕ → List ℕ
lower_all [] = []
lower_all (c ∷ cs) = lower c ∷ lower_all cs

-- `_VALID_LLM_TOKENS`
abbrev pub token_route : List ℕ → Option Route
token_route token =
    if token =? codes "trading_room"
    then some trading_room
    else if token =? codes "morning_brief_only"
    then some morning_brief_only
    else if token =? codes "morning_brief"
    then some morning_brief_only
    else if token =? codes "drop"
    then some drop
    else none

abbrev first_route : Option Route → Option Route → Option Route
first_route none rest = rest
first_route (some r) rest = some r

abbrev pub routes_in : List (List ℕ) → Option Route
routes_in [] = none
routes_in (token ∷ tokens) = first_route (token_route token) (routes_in tokens)

pub parse_llm_route : String → Option Route
parse_llm_route text = routes_in (words_from [] (lower_all (codes text)))

abbrev pub system_prompt : String
system_prompt =
    "You are the IIC Event Triage Gate. Decide whether a market event warrants waking the full trading room. Reply with exactly one of: trading_room, morning_brief_only, drop."

-- The route, the reason and `cost_skipped`.
abbrev pub Verdict : Type 0
Verdict = Route × (Reason × Bool)

abbrev pub route_or_brief : Option Route → String → Verdict
route_or_brief none text = (morning_brief_only, (unparseable text, false))
route_or_brief (some route) text = (route, (llm_tie_break route, false))

abbrev pub read_response : ChatResponse → Verdict
read_response r =
    if r.cost_skipped
    then (drop, (cost_breaker_open, true))
    else route_or_brief (parse_llm_route r.text) r.text

abbrev pub prompt : (TriageInputs → String) → TriageInputs → List ChatMessage
prompt user_text t =
    (record { role = "system"; content = system_prompt })
    ∷ (record { role = "user"; content = user_text t })
    ∷ []

abbrev pub decide : TriageInputs → Verdict → TriageDecision
decide t (route, (reason, cost_skipped)) = record {
  inputs = t;
  route = route;
  reason = reason;
  cost_skipped = cost_skipped;
}

abbrev after_response :
    {W : Type 0} → Result LlmError ChatResponse × State W → Result LlmError Verdict × State W
after_response (ok r, s) = (ok (read_response r), s)
after_response (err e, s) = (err e, s)

abbrev decided :
    {W : Type 0}
    → TriageInputs
    → Result LlmError Verdict × State W
    → Result LlmError TriageDecision × State W
decided t (ok v, s) = (ok (decide t v), s)
decided t (err e, s) = (err e, s)

-- `user_text` is the JSON of the inputs, `breaker` the flag `cost_breaker.enabled`.
module _ {W : Type 0} (user_text : TriageInputs → String) (breaker : Bool)
    (signals : RuntimeSignals) where
  -- `_llm_tiebreak`; none is a `get_router` that raises.
  pub llm_tiebreak :
      Option (LlmRouter W) → TriageInputs → State W → Result LlmError Verdict × State W
  llm_tiebreak none t s = (ok (drop, (no_router, true)), s)
  llm_tiebreak (some env) t s =
      after_response (chat_or_skip env "event_triage" (prompt user_text t) breaker none signals s)

  abbrev pub after_numeric :
      Option (LlmRouter W)
      → TriageInputs
      → State W
      → Option (Route × Reason)
      → Result LlmError TriageDecision × State W
  after_numeric env t s (some (route, reason)) = (ok (decide t (route, (reason, false))), s)
  after_numeric env t s none = decided t (llm_tiebreak env t s)

  -- `triage`, on the flag `trading_room.event_triage.enabled`
  pub triage :
      Bool → Option (LlmRouter W) → Payload → State W → Result LlmError TriageDecision × State W
  triage enabled env p s =
      let t = parse_event p in
      if enabled
      then after_numeric env t s (numeric_route t)
      else (ok (decide t (drop, (flag_disabled, false))), s)
