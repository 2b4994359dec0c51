-- ===== src/Notifier/Router.antt =====
-- packages/notifier/notifier/router.py and types.py: which channel a message goes to.
-- An adapter's `send` acts on a world outside, which also holds the monotonic clock. The sends of a
-- parallel fan-out run one after the other, in the order in which `gather` starts them.
pub mod Traces
pub mod Delivery
mod Tests
use investment_intelligence.Prelude.{
  ℕ, Bool, true, false, Option, none, some, List, [], ◌∷◌, ◌++◌, String, if◌then◌else◌,
}
use Prim.Native.String.{◌++◌ as str_append}
use investment_intelligence.Prelude.Keys.{String-keys, ◌=?◌}
use investment_intelligence.Prelude.Dict.{Dict, lookup, insert}
use investment_intelligence.Prelude.Outcome.{Result, ok, err}
use investment_intelligence.Notifier.RateLimit.{Limits, Windows, acquire}

pub data Severity : Type 0 where
  info warn alert critical : Severity

pub data ChannelHint : Type 0 where
  briefs alerts fills chat : ChannelHint

pub data Language : Type 0 where
  en zh : Language

pub record Notification : Type 0 where
  pub severity : Severity
  pub channel_hint : ChannelHint
  pub markdown : String
  pub language : Language
  pub mentioned_list : Option (List String)
  pub target_user : Option String

-- How `send` ends: it returns, or it raises one of the adapter's exceptions or another.
pub data Sent : Type 0 where
  sent : Sent
  raised_rate_limit raised_down raised_rejected raised_other : String → Sent

pub record Adapter (W : Type 0) : Type 0 where
  pub name : String
  pub send : Notification → W → Sent × W

pub record AdapterAttempt : Type 0 where
  pub name : String
  pub succeeded : Bool
  pub error : Option String

pub record NotifyResult : Type 0 where
  pub severity : Severity
  pub channel_hint : ChannelHint
  pub attempts : List AdapterAttempt

pub data NotifyError : Type 0 where
  notify_exhausted : Severity → NotifyError

pub record Plan (W : Type 0) : Type 0 where
  pub primary : List (Adapter W)
  pub fallbacks : List (Adapter W)
  pub parallel : Bool

-- `[a for a in (…) if a is not None]`
abbrev pub present {ℓ} : {A : Type ℓ} → List (Option A) → List A
present [] = []
present (none ∷ xs) = present xs
present (some x ∷ xs) = x ∷ present xs

-- The plan of `info` and `warn`, by whether the bot is there.
abbrev single : {W : Type 0} → Option (Adapter W) → List (Adapter W) → Plan W
single (some wecom) fallbacks = record {
  primary = wecom ∷ [];
  fallbacks = fallbacks;
  parallel = false;
}
single none [] = record { primary = []; fallbacks = []; parallel = false }
single none (a ∷ fallbacks) = record { primary = a ∷ []; fallbacks = fallbacks; parallel = false }

unfoldable pub severity_to_channels : {W : Type 0} → Severity → Dict String (Adapter W) → Plan W
severity_to_channels critical by_name = record {
  primary = present (
      lookup "wecom_bot" by_name
      ∷ lookup "serverchan" by_name
      ∷ lookup "ntfy" by_name
      ∷ lookup "smtp" by_name
      ∷ []);
  fallbacks = [];
  parallel = true;
}
severity_to_channels alert by_name = record {
  primary = present (lookup "wecom_bot" by_name ∷ lookup "serverchan" by_name ∷ []);
  fallbacks = present (lookup "ntfy" by_name ∷ lookup "smtp" by_name ∷ []);
  parallel = false;
}
severity_to_channels info by_name =
    single (lookup "wecom_bot" by_name)
      (present (lookup "serverchan" by_name ∷ lookup "ntfy" by_name ∷ lookup "smtp" by_name ∷ []))
severity_to_channels warn by_name =
    single (lookup "wecom_bot" by_name)
      (present (lookup "serverchan" by_name ∷ lookup "ntfy" by_name ∷ lookup "smtp" by_name ∷ []))

-- `ChannelHint.value`
abbrev pub hint_value : ChannelHint → String
hint_value briefs = "briefs"
hint_value alerts = "alerts"
hint_value fills = "fills"
hint_value chat = "chat"

-- `_rate_key`
unfoldable pub rate_key : String → ChannelHint → String
rate_key name hint = if name =? "wecom_bot" then str_append "wecom_bot:" (hint_value hint) else name

-- `build_router`: a later adapter of the same name replaces the earlier.
abbrev pub build_router :
    {W : Type 0} → List (Adapter W) → Dict String (Adapter W) → Dict String (Adapter W)
build_router [] by_name = by_name
build_router (a ∷ adapters) by_name = build_router adapters (insert a.name a by_name)

-- The state of the limiter and the world.
pub record State (W : Type 0) : Type 0 where
  pub windows : Windows
  pub world : W

abbrev failure : String → String → AdapterAttempt
failure name error = record { name = name; succeeded = false; error = some error }

abbrev attempt_of : String → Sent → AdapterAttempt
attempt_of name sent = record { name = name; succeeded = true; error = none }
attempt_of name (raised_rate_limit e) = failure name (str_append "rate_limit: " e)
attempt_of name (raised_down e) = failure name (str_append "down: " e)
attempt_of name (raised_rejected e) = failure name (str_append "rejected: " e)
attempt_of name (raised_other e) = failure name (str_append "error: " e)

abbrev after_send : {W : Type 0} → String → Windows → Sent × W → AdapterAttempt × State W
after_send name windows (end, world) =
    (attempt_of name end, record { windows = windows; world = world })

abbrev pub note_attempt :
    {W : Type 0} → AdapterAttempt → List AdapterAttempt × State W → List AdapterAttempt × State W
note_attempt a (attempts, s) = (a ∷ attempts, s)

-- `NotifyResult.succeeded`
abbrev pub any_succeeded : List AdapterAttempt → Bool
any_succeeded [] = false
any_succeeded (a ∷ attempts) = if a.succeeded then true else any_succeeded attempts

abbrev check_exhausted : Notification → List AdapterAttempt → Result NotifyError NotifyResult
check_exhausted n attempts =
    if any_succeeded attempts
    then ok (record { severity = n.severity; channel_hint = n.channel_hint; attempts = attempts })
    else err (notify_exhausted n.severity)

module _ {W : Type 0} (limits : Limits) (clock : W → ℕ) where
  -- The send, after the limiter's answer; the numbers in the limiter's message are left out.
  abbrev after_acquire : Adapter W → Notification → Bool × Windows → W → AdapterAttempt × State W
  after_acquire adapter n (false, windows) world =
      (failure adapter.name "rate_limit: ", record { windows = windows; world = world })
  after_acquire adapter n (true, windows) world =
      after_send adapter.name windows (adapter.send n world)

  -- `_try_adapter`
  unfoldable pub try_adapter : Adapter W → Notification → State W → AdapterAttempt × State W
  try_adapter adapter n s =
      after_acquire adapter n
        (acquire limits (rate_key adapter.name n.channel_hint) (clock s.world) s.windows) s.world

  -- `_run_cascade`
  unfoldable pub run_cascade :
      List (Adapter W) → Notification → State W → List AdapterAttempt × State W
  run_cascade [] n s = ([], s)
  run_cascade (adapter ∷ chain) n s =
      let tried = try_adapter adapter n s in
      elim tried.0.succeeded [
        | true ↦ (tried.0 ∷ [], tried.1)
        | false ↦ note_attempt tried.0 (run_cascade chain n tried.1)
      ]

  -- `_run_parallel`
  pub run_parallel : List (Adapter W) → Notification → State W → List AdapterAttempt × State W
  run_parallel [] n s = ([], s)
  run_parallel (adapter ∷ chain) n s =
      let tried = try_adapter adapter n s in note_attempt tried.0 (run_parallel chain n tried.1)

  abbrev run_plan : Plan W → Notification → State W → List AdapterAttempt × State W
  run_plan plan n s =
      if plan.parallel
      then run_parallel plan.primary n s
      else run_cascade (plan.primary ++ plan.fallbacks) n s

  -- What `notify` tries.
  unfoldable pub deliver :
      Dict String (Adapter W) → Notification → State W → List AdapterAttempt × State W
  deliver adapters n s = run_plan (severity_to_channels n.severity adapters) n s

  unfoldable pub notify :
      Dict String (Adapter W) → Notification → State W → Result NotifyError NotifyResult × State W
  notify adapters n s = let done = deliver adapters n s in (check_exhausted n done.0, done.1)
