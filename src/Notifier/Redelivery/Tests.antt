-- ===== src/Notifier/Redelivery/Tests.antt =====
-- Runs of redelivery.py.
use investment_intelligence.Prelude.{ℕ, ◌+◌, ◌≡◌, refl, none, some, [], ◌∷◌, String, arith}
use investment_intelligence.Prelude.Keys.{String-keys}
use investment_intelligence.Prelude.Dict.{Dict}
use investment_intelligence.Notifier.RateLimit.{acquire}
use investment_intelligence.Notifier.Router.{
  alert, fills, zh, Notification, sent, raised_down, Adapter, build_router, State, notify, deliver,
  severity_to_channels, try_adapter, run_cascade, rate_key,
}
use investment_intelligence.Notifier.Redelivery.{
  QueuedMessage, notify_with_redelivery, enqueue, deferred_message, ttl_by_severity, drain_once,
  drain, list_pending, update_attempt,
}
use investment_intelligence.Notifier.Redelivery.Queue.{IsQueue}
use investment_intelligence.Notifier.Redelivery.Drain.{Passed, drain_once-Passed}
use investment_intelligence.Notifier.Redelivery.Deferred.{Retried, deferred_is_Retried}
use investment_intelligence.Prelude.{if◌then◌else◌, ltb}

-- The world is a clock; the only channel is back at 1,000 s.
abbrev serverchan : Adapter ℕ
serverchan = record {
  name = "serverchan";
  send = λ _ now. (if ltb now 1_000_000 then raised_down "timeout" else sent, now + 10);
}

abbrev channels : Dict String (Adapter ℕ)
channels = build_router (serverchan ∷ []) []

abbrev fill : Notification
fill = record {
  severity = alert;
  channel_hint = fills;
  markdown = "filled 700.HK";
  language = zh;
  mentioned_list = none;
  target_user = none;
}

abbrev at_ms : ℕ → State ℕ
at_ms now = record { windows = []; world = now }

abbrev message : ℕ → QueuedMessage
message attempts = record {
  notification_id = "n1";
  notification = fill;
  enqueued_at = 10;
  expires_at = 10 + 21_600_000;
  trace_id = none;
  attempts = attempts;
  last_error = some "all adapters failed for severity=alert";
}

deferred :
    notify_with_redelivery [] (λ now. now) channels fill none (some "n1") "u1" [] (at_ms 0)
    ≡ (none, (("n1", message 0) ∷ [], at_ms 10))
unfolding notify_with_redelivery notify deliver severity_to_channels run_cascade try_adapter
    rate_key acquire enqueue deferred_message ttl_by_severity
deferred = refl

one_message : IsQueue (("n1", message 0) ∷ [])
one_message = record { distinct = (refl, tt); own = (refl, tt) }

still_down :
    (drain_once [] (λ now. now) channels (("n1", message 0) ∷ []) (at_ms 60_000)).queue
    ≡ ("n1", message 1) ∷ []
unfolding drain_once drain list_pending update_attempt notify deliver severity_to_channels
    run_cascade try_adapter rate_key acquire
still_down = refl

back_up :
    (drain_once [] (λ now. now) channels (("n1", message 0) ∷ []) (at_ms 1_200_000)).queue ≡ []
unfolding drain_once drain list_pending update_attempt notify deliver severity_to_channels
    run_cascade try_adapter rate_key acquire
back_up = refl

drain_once-Passed_example :
    Passed []
      (λ now. now)
      channels
      1_200_000
      (("n1", message 0) ∷ [])
      (at_ms 1_200_000)
      (drain_once [] (λ now. now) channels (("n1", message 0) ∷ []) (at_ms 1_200_000))
drain_once-Passed_example =
    drain_once-Passed [] (λ now. now) channels (("n1", message 0) ∷ []) (at_ms 1_200_000)
      one_message

no_message : IsQueue []
no_message = record { distinct = tt; own = tt }

deferred_is_Retried_example :
    Retried []
      (λ now. now)
      channels
      fill
      "n1"
      (notify_with_redelivery [] (λ now. now) channels fill none (some "n1") "u1" [] (at_ms 0)).1.0
      (at_ms 1_200_000)
unfolding notify_with_redelivery notify deliver severity_to_channels run_cascade try_adapter
    rate_key acquire ttl_by_severity
deferred_is_Retried_example =
    deferred_is_Retried [] (λ now. now) channels fill none (some "n1") "u1" [] (at_ms 0)
      (at_ms 1_200_000) no_message refl (omega arith)
