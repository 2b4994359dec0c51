-- ===== src/Notifier/Router/Tests.antt =====
-- Runs of router.py.
use investment_intelligence.Prelude.{ℕ, ◌+◌, ◌≡◌, refl, true, false, none, some, [], ◌∷◌, String}
use investment_intelligence.Prelude.Keys.{String-keys}
use investment_intelligence.Prelude.Dict.{Dict}
use investment_intelligence.Notifier.RateLimit.{acquire, default_limits}
use investment_intelligence.Notifier.Router.{
  Severity, warn, critical, alerts, en, Notification, sent, raised_down, Adapter, AdapterAttempt,
  build_router, State, deliver, notify, severity_to_channels, try_adapter, run_cascade,
  run_parallel, rate_key,
}
use investment_intelligence.Notifier.Router.Delivery.{Delivered, notify-Delivered}

-- The world is a clock that each send moves by 5 ms.
abbrev down_adapter : String → Adapter ℕ
down_adapter name = record { name = name; send = λ _ now. (raised_down "503", now + 5) }

abbrev up_adapter : String → Adapter ℕ
up_adapter name = record { name = name; send = λ _ now. (sent, now + 5) }

abbrev channels_up : Dict String (Adapter ℕ)
channels_up =
    build_router (down_adapter "wecom_bot" ∷ up_adapter "ntfy" ∷ up_adapter "smtp" ∷ []) []

abbrev message : Severity → Notification
message severity = record {
  severity = severity;
  channel_hint = alerts;
  markdown = "limit order filled";
  language = en;
  mentioned_list = none;
  target_user = none;
}

abbrev idle : State ℕ
idle = record { windows = []; world = 100 }

abbrev wecom_failed : AdapterAttempt
wecom_failed = record { name = "wecom_bot"; succeeded = false; error = some "down: 503" }

abbrev succeeded_by : String → AdapterAttempt
succeeded_by name = record { name = name; succeeded = true; error = none }

warn_falls_back :
    (deliver default_limits (λ now. now) channels_up (message warn) idle).0
    ≡ wecom_failed ∷ succeeded_by "ntfy" ∷ []
unfolding deliver severity_to_channels run_cascade try_adapter rate_key acquire default_limits
warn_falls_back = refl

critical_fans_out :
    (deliver default_limits (λ now. now) channels_up (message critical) idle).0
    ≡ wecom_failed ∷ succeeded_by "ntfy" ∷ succeeded_by "smtp" ∷ []
unfolding deliver severity_to_channels run_parallel try_adapter rate_key acquire default_limits
critical_fans_out = refl

notify-Delivered_example :
    Delivered default_limits
      (λ now. now)
      channels_up
      (message warn)
      idle
      (deliver default_limits (λ now. now) channels_up (message warn) idle).0
      (notify default_limits (λ now. now) channels_up (message warn) idle)
notify-Delivered_example =
    notify-Delivered default_limits (λ now. now) channels_up (message warn) idle
