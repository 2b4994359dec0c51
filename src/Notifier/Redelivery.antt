-- ===== src/Notifier/Redelivery.antt =====
-- packages/notifier/notifier/redelivery.py: the queue of messages that no channel took.
-- Times are milliseconds of the monotonic clock. The callback `on_deferred` and the push over
-- Tailscale, whose exceptions are suppressed, act on nothing that is kept here.
pub mod Queue
pub mod Pending
pub mod Drain
pub mod Deferred
pub mod Redis
mod Tests
use investment_intelligence.Prelude.{
  ℕ, zero, suc, ◌+◌, ◌*◌, Bool, true, false, Option, none, some, List, [], ◌∷◌, String, length, ltb,
  if◌then◌else◌,
}
use Prim.Native.String.{◌++◌ as str_append}
use investment_intelligence.Prelude.Keys.{String-keys}
use investment_intelligence.Prelude.Dict.{Dict, lookup, insert, remove}
use investment_intelligence.Prelude.Outcome.{Result, ok, err}
use investment_intelligence.Notifier.RateLimit.{Limits}
use investment_intelligence.Notifier.Router.{
  Severity, info, warn, alert, critical, Notification, NotifyResult, NotifyError, notify_exhausted,
  Adapter, State, notify,
}

-- `TTL_BY_SEVERITY`
pub ttl_by_severity : Severity → ℕ
ttl_by_severity critical = 60 * 60 * 1000
ttl_by_severity alert = 60 * 60 * 6 * 1000
ttl_by_severity warn = 60 * 60 * 12 * 1000
ttl_by_severity info = 60 * 60 * 24 * 1000

pub record QueuedMessage : Type 0 where
  pub notification_id : String
  pub notification : Notification
  pub enqueued_at : ℕ
  pub expires_at : ℕ
  pub trace_id : Option String
  pub attempts : ℕ
  pub last_error : Option String

-- `InMemoryRedeliveryQueue._items`
abbrev pub Queue : Type 0
Queue = Dict String QueuedMessage

pub enqueue : QueuedMessage → Queue → Queue
enqueue msg items = insert msg.notification_id msg items

pub list_pending : ℕ → Queue → List QueuedMessage
list_pending now [] = []
list_pending now ((_, m) ∷ items) =
    let rest = list_pending now items in if ltb now m.expires_at then m ∷ rest else rest

abbrev pub count_attempt : String → QueuedMessage → QueuedMessage
count_attempt error m = record m { attempts = suc m.attempts; last_error = some error }

abbrev update_found : String → String → Option QueuedMessage → Queue → Queue
update_found id error none items = items
update_found id error (some m) items = insert id (count_attempt error m) items

-- The message is changed in place.
pub update_attempt : String → String → Queue → Queue
update_attempt id error items = update_found id error (lookup id items) items

-- `notification_id or str(uuid.uuid4())`, on the id that `uuid4` makes
abbrev pub id_or_new : Option String → String → String
id_or_new none uuid = uuid
id_or_new (some String.[]) uuid = uuid
id_or_new (some id) uuid = id

-- `Severity.value`
abbrev pub severity_value : Severity → String
severity_value info = "info"
severity_value warn = "warn"
severity_value alert = "alert"
severity_value critical = "critical"

-- `str(exc)`
abbrev pub error_text : NotifyError → String
error_text (notify_exhausted severity) =
    str_append "all adapters failed for severity=" (severity_value severity)

pub deferred_message : Notification → Option String → String → NotifyError → ℕ → QueuedMessage
deferred_message n trace_id id e now = record {
  notification_id = id;
  notification = n;
  enqueued_at = now;
  expires_at = now + ttl_by_severity n.severity;
  trace_id = trace_id;
  attempts = 0;
  last_error = some (error_text e);
}

-- What the loop of `drain_once` leaves: the number delivered, the queue and the state.
pub record Drained (W : Type 0) : Type 0 where
  pub delivered : ℕ
  pub queue : Queue
  pub state : State W

abbrev pub attempt_queue : QueuedMessage → Result NotifyError NotifyResult → Queue → Queue
attempt_queue m (ok r) queue = remove m.notification_id queue
attempt_queue m (err e) queue = update_attempt m.notification_id (error_text e) queue

abbrev pub delivered_of : Result NotifyError NotifyResult → ℕ → ℕ
delivered_of (ok r) delivered = suc delivered
delivered_of (err e) delivered = delivered

module _ {W : Type 0} (limits : Limits) (clock : W → ℕ) (adapters : Dict String (Adapter W)) where
  abbrev after_notify :
      Notification
      → Option String
      → String
      → Queue
      → Result NotifyError NotifyResult × State W
      → Option NotifyResult × (Queue × State W)
  after_notify n trace_id id queue (ok r, s) = (some r, (queue, s))
  after_notify n trace_id id queue (err e, s) =
      (none, (enqueue (deferred_message n trace_id id e (clock s.world)) queue, s))

  pub notify_with_redelivery :
      Notification
      → Option String
      → Option String
      → String
      → Queue
      → State W
      → Option NotifyResult × (Queue × State W)
  notify_with_redelivery n trace_id notification_id uuid queue s =
      after_notify n trace_id (id_or_new notification_id uuid) queue
        (notify limits clock adapters n s)

  pub drain : List QueuedMessage → Queue → State W → Drained W
  drain [] queue s = record { delivered = 0; queue = queue; state = s }
  drain (m ∷ pending) queue s =
      let sent = notify limits clock adapters m.notification s in
      let rest = drain pending (attempt_queue m sent.0 queue) sent.1 in
      record rest { delivered = delivered_of sent.0 rest.delivered }

  pub drain_once : Queue → State W → Drained W
  drain_once queue s = drain (list_pending (clock s.world) queue) queue s
