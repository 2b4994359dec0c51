-- ===== src/Notifier/Redelivery/Deferred.antt =====
-- A message that `notify_with_redelivery` of redelivery.py defers, and the pass that follows.
use mathlib.Core.Path.{subst}
use investment_intelligence.Prelude.{ℕ, ◌+◌, ◌<◌, ◌≡◌, refl, Option, none, some, String}
use investment_intelligence.Prelude.Keys.{String-keys}
use investment_intelligence.Prelude.Dict.{Dict, lookup, lookup-insert_self}
use investment_intelligence.Prelude.Outcome.{Result, ok, err}
use investment_intelligence.Notifier.RateLimit.{Limits}
use investment_intelligence.Notifier.Router.{
  Notification, NotifyResult, NotifyError, Adapter, State, notify,
}
use investment_intelligence.Notifier.Redelivery.{
  QueuedMessage, Queue, enqueue, ttl_by_severity, id_or_new, deferred_message, after_notify,
  notify_with_redelivery, list_pending, drain_once,
}
use investment_intelligence.Notifier.Redelivery.Queue.{IsQueue, enqueue-IsQueue}
use investment_intelligence.Notifier.Redelivery.Drain.{
  Fate, FateAt, Turn, notify_each, drain_once-Passed,
}

module _ {W : Type 0} (limits : Limits) (clock : W → ℕ) (adapters : Dict String (Adapter W)) where
  -- The message in the queue, and what a pass at `s` does to it.
  pub record Retried (n : Notification) (id : String) (queue : Queue) (s : State W) : Type 0 where
    pub message : QueuedMessage
    pub about : message.notification ≡ n
    pub queued : lookup id queue ≡ some message
    pub shape : IsQueue queue
    pub fate :
        Fate limits clock adapters message
          (lookup id (drain_once limits clock adapters queue s).queue)

  Turn-Fate :
      (queue : Queue) (s : State W) (id : String) (m : QueuedMessage)
      → m.notification_id ≡ id
      → Turn limits clock adapters
          (list_pending (clock s.world) queue)
          s
          (drain_once limits clock adapters queue s).queue
          m
      → Fate limits clock adapters m (lookup id (drain_once limits clock adapters queue s).queue)
  Turn-Fate queue s id m own (earlier, later, e, fate) = (
    notify_each limits clock adapters earlier s,
    subst
        (λ k.
          FateAt limits clock adapters m (notify_each limits clock adapters earlier s)
            (lookup k (drain_once limits clock adapters queue s).queue))
        own fate,
  )

  after_notify-Retried :
      (n : Notification) (trace_id : Option String) (id : String) (queue : Queue)
      (r : Result NotifyError NotifyResult) (s later : State W)
      → IsQueue queue
      → (after_notify limits clock adapters n trace_id id queue (r, s)).0 ≡ none
      → clock later.world
        < clock (after_notify limits clock adapters n trace_id id queue (r, s)).1.1.world
          + ttl_by_severity n.severity
      → Retried n id (after_notify limits clock adapters n trace_id id queue (r, s)).1.0 later
  unfolding enqueue deferred_message
  after_notify-Retried n trace_id id queue (ok r) s later q h t = absurd (cc)
  after_notify-Retried n trace_id id queue (err e) s later q h t =
      let m = deferred_message n trace_id id e (clock s.world) in
      let found = lookup-insert_self id m queue in
      let shape = enqueue-IsQueue m queue q in
      record {
        message = m;
        about = refl;
        queued = found;
        shape = shape;
        fate = Turn-Fate (enqueue m queue) later id m refl (
            (drain_once-Passed limits clock adapters (enqueue m queue) later shape).live id m found
              t);
      }

  -- The queue holds each message once, under its id. A message that `notify_with_redelivery` then defers
  -- stands in it under its own id, and a pass that starts before its time to live has run out sends it: it
  -- leaves the queue if some channel took it, and else stays with one more attempt.
  pub deferred_is_Retried :
      (n : Notification) (trace_id notification_id : Option String) (uuid : String) (queue : Queue)
      (s later : State W)
      → IsQueue queue
      → (notify_with_redelivery limits clock adapters n trace_id notification_id uuid queue s).0
        ≡ none
      → clock later.world
        < clock
            (notify_with_redelivery limits clock adapters n trace_id notification_id uuid queue
              s).1.1.world
          + ttl_by_severity n.severity
      → Retried n
          (id_or_new notification_id uuid)
          (notify_with_redelivery limits clock adapters n trace_id notification_id uuid queue s).1.0
          later
  unfolding notify_with_redelivery
  deferred_is_Retried n trace_id notification_id uuid queue s later q h t =
      let sent = notify limits clock adapters n s in
      after_notify-Retried n trace_id (id_or_new notification_id uuid) queue sent.0 sent.1 later q h
        t
