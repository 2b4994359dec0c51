-- ===== src/Notifier/Redelivery/Redis.antt =====
-- packages/notifier/notifier/redelivery.py: `RedisRedeliveryQueue`, with `_serialize` and
-- `_deserialize`. Redis is an interface; orjson reads back what it has written, so a stored value is the
-- dict itself. The clock and what is stored of it are milliseconds, a key's life is in seconds.
pub mod RoundTrip
pub mod Tests
use Prim.Native.Nat.{◌/◌}
use Prim.Native.String.{◌++◌ as str_append}
use investment_intelligence.Prelude.{
  ℕ, suc, ◌+◌, ◌-◌, ◌*◌, ◌≤◌, ◌<◌, ◌≡◌, ◌≢◌, Bool, true, false, Option, none, some, List, [], ◌∷◌,
  String, length, ltb, if◌then◌else◌,
}
use investment_intelligence.Prelude.Keys.{◌=?◌, String-keys}
use investment_intelligence.Prelude.Dict.{Dict, lookup, insert}
use investment_intelligence.Notifier.Router.{
  Severity, info, warn, alert, critical, ChannelHint, briefs, alerts, fills, chat, Language, en, zh,
  Notification,
}
use investment_intelligence.Notifier.Redelivery.{QueuedMessage, severity_value}

-- A value of the dict of a notification.
pub data Leaf : Type 0 where
  null : Leaf
  text : String → Leaf
  num : ℕ → Leaf
  texts : List String → Leaf

pub data Json : Type 0 where
  leaf : Leaf → Json
  object : Dict String Leaf → Json

abbrev pub Doc : Type 0
Doc = Dict String Json

abbrev pub hint_value : ChannelHint → String
hint_value briefs = "briefs"
hint_value alerts = "alerts"
hint_value fills = "fills"
hint_value chat = "chat"

abbrev pub language_value : Language → String
language_value en = "en"
language_value zh = "zh"

abbrev pub text_or_null : Option String → Leaf
text_or_null none = null
text_or_null (some s) = text s

abbrev pub texts_or_null : Option (List String) → Leaf
texts_or_null none = null
texts_or_null (some xs) = texts xs

-- `_serialize`
pub serialize : QueuedMessage → Doc
serialize m =
    let n = m.notification in
    ("notification_id", leaf (text m.notification_id))
    ∷ ("trace_id", leaf (text_or_null m.trace_id))
    ∷ ("enqueued_at", leaf (num m.enqueued_at))
    ∷ ("expires_at", leaf (num m.expires_at))
    ∷ ("attempts", leaf (num m.attempts))
    ∷ ("last_error", leaf (text_or_null m.last_error))
    ∷ (
      "notification",
      object (
          ("severity", text (severity_value n.severity))
          ∷ ("channel_hint", text (hint_value n.channel_hint))
          ∷ ("markdown", text n.markdown)
          ∷ ("language", text (language_value n.language))
          ∷ ("mentioned_list", texts_or_null n.mentioned_list)
          ∷ ("target_user", text_or_null n.target_user)
          ∷ []),
    )
    ∷ []

-- The readers give none where Python raises. `Severity(x)`, `ChannelHint(x)`:
abbrev pub read_severity : String → Option Severity
read_severity s =
    if s =? "info"
    then some info
    else if s =? "warn"
    then some warn
    else if s =? "alert"
    then some alert
    else if s =? "critical"
    then some critical
    else none

abbrev pub read_hint : String → Option ChannelHint
read_hint s =
    if s =? "briefs"
    then some briefs
    else if s =? "alerts"
    then some alerts
    else if s =? "fills"
    then some fills
    else if s =? "chat"
    then some chat
    else none

-- The language is one of the two of its type.
abbrev pub read_language : String → Option Language
read_language s = if s =? "en" then some en else if s =? "zh" then some zh else none

abbrev pub as_text : Option Leaf → Option String
as_text (some (text s)) = some s
as_text _ = none

-- `.get(key)`, of a text that may be null.
abbrev pub maybe_text : Option Leaf → Option String
maybe_text (some (text s)) = some s
maybe_text _ = none

abbrev pub maybe_texts : Option Leaf → Option (List String)
maybe_texts (some (texts xs)) = some xs
maybe_texts _ = none

-- `float(d[key])`
abbrev pub as_num : Option Leaf → Option ℕ
as_num (some (num n)) = some n
as_num _ = none

-- `int(d.get("attempts", 0))`
abbrev pub attempts_of : Option Leaf → Option ℕ
attempts_of none = some 0
attempts_of (some (num n)) = some n
attempts_of (some _) = none

abbrev pub leaf_of : Option Json → Option Leaf
leaf_of (some (leaf l)) = some l
leaf_of _ = none

abbrev pub object_of : Option Json → Option (Dict String Leaf)
object_of (some (object d)) = some d
object_of _ = none

infixl 5 ◌>>=◌
abbrev pub ◌>>=◌ {ℓ κ} : {A : Type ℓ} {B : Type κ} → Option A → (A → Option B) → Option B
none >>= f = none
some a >>= f = f a

-- `n.get("language", "en")`
abbrev pub language_or_en : Option Leaf → Option Language
language_or_en none = some en
language_or_en l = as_text l >>= read_language

abbrev pub read_notification : Dict String Leaf → Option Notification
read_notification n = do
  severity ← as_text (lookup "severity" n) >>= read_severity
  hint ← as_text (lookup "channel_hint" n) >>= read_hint
  markdown ← as_text (lookup "markdown" n)
  language ← language_or_en (lookup "language" n)
  some (record {
    severity = severity;
    channel_hint = hint;
    markdown = markdown;
    language = language;
    mentioned_list = maybe_texts (lookup "mentioned_list" n);
    target_user = maybe_text (lookup "target_user" n);
  })

-- `_deserialize`
pub deserialize : Doc → Option QueuedMessage
deserialize d = do
  n ← object_of (lookup "notification" d) >>= read_notification
  id ← as_text (leaf_of (lookup "notification_id" d))
  enqueued_at ← as_num (leaf_of (lookup "enqueued_at" d))
  expires_at ← as_num (leaf_of (lookup "expires_at" d))
  attempts ← attempts_of (leaf_of (lookup "attempts" d))
  some (record {
    notification_id = id;
    notification = n;
    enqueued_at = enqueued_at;
    expires_at = expires_at;
    trace_id = maybe_text (leaf_of (lookup "trace_id" d));
    attempts = attempts;
    last_error = maybe_text (leaf_of (lookup "last_error" d));
  })

abbrev prefix : String
prefix = "notifier:redelivery:"

abbrev pub key_of : String → String
key_of id = str_append prefix id

abbrev pub at_least_one : ℕ → ℕ
at_least_one n = if ltb n 1 then 1 else n

-- The commands of Redis that the queue calls, each at a time. `ttl` is that of a key that is there.
pub record Redis (S : Type 0) : Type 0 where
  pub set : String → Doc → ℕ → ℕ → S → S
  pub get : ℕ → String → S → Option Doc
  pub delete : String → S → S
  pub scan : ℕ → S → List String
  pub ttl : ℕ → String → S → ℕ
  pub get-set :
      (k : String) (d : Doc) (ex now t : ℕ) (s : S)
      → now ≤ t
      → t < now + ex * 1000
      → get t k (set k d ex now s) ≡ some d
  pub get-delete : (k : String) (t : ℕ) (s : S) → get t k (delete k s) ≡ none

-- `d["attempts"] = d.get("attempts", 0) + 1`; `d["last_error"] = error`. A value that is no number
-- would raise, and is left as it is here.
abbrev pub bump_attempts : Option Json → Doc → Doc
bump_attempts none d = insert "attempts" (leaf (num 1)) d
bump_attempts (some (leaf (num n))) d = insert "attempts" (leaf (num (suc n))) d
bump_attempts (some _) d = d

pub bump : String → Doc → Doc
bump error d = insert "last_error" (leaf (text error)) (bump_attempts (lookup "attempts" d) d)

-- `await self._redis.ttl(key) or 60`
abbrev pub ttl_or_60 : ℕ → ℕ
ttl_or_60 n = if ltb n 1 then 60 else n

module _ {S : Type 0} (r : Redis S) where
  -- The message of a key.
  abbrev pub read_at : ℕ → String → S → Option QueuedMessage
  read_at now k s = r.get now k s >>= deserialize

  unfoldable pub enqueue : QueuedMessage → ℕ → S → S
  enqueue m now s =
      r.set (key_of m.notification_id) (serialize m) (at_least_one ((m.expires_at - now) / 1000))
        now s

  abbrev pub add_message : Option QueuedMessage → List QueuedMessage → List QueuedMessage
  add_message none ms = ms
  add_message (some m) ms = m ∷ ms

  -- The loop over the keys; a value that is gone or does not read is passed over.
  abbrev pub read_keys : List String → ℕ → S → List QueuedMessage
  read_keys [] now s = []
  read_keys (k ∷ ks) now s = add_message (read_at now k s) (read_keys ks now s)

  unfoldable pub list_pending : ℕ → S → List QueuedMessage
  list_pending now s = read_keys (r.scan now s) now s

  pub remove : String → S → S
  remove id s = r.delete (key_of id) s

  abbrev pub update_found : String → String → ℕ → Option Doc → S → S
  update_found id error now none s = s
  update_found id error now (some d) s =
      r.set (key_of id) (bump error d) (at_least_one (ttl_or_60 (r.ttl now (key_of id) s))) now s

  unfoldable pub update_attempt : String → String → ℕ → S → S
  update_attempt id error now s = update_found id error now (r.get now (key_of id) s) s

  unfoldable pub size : ℕ → S → ℕ
  size now s = length (r.scan now s)
