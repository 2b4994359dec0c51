-- ===== src/Notifier/Redelivery/Redis/RoundTrip.antt =====
-- What is read back of a message that the queue in Redis of redelivery.py holds.
use Prim.Native.Nat.{◌/◌}
use investment_intelligence.Prelude.{
  ℕ, ◌+◌, ◌-◌, ◌*◌, ◌≤◌, ◌<◌, ◌≡◌, refl, ap, ◌∙◌, Option, none, some, List, String, arith,
}
use investment_intelligence.Notifier.Router.{
  Severity, info, warn, alert, critical, ChannelHint, briefs, alerts, fills, chat, Language, en, zh,
}
use investment_intelligence.Notifier.Redelivery.{QueuedMessage, count_attempt, severity_value}
use investment_intelligence.Notifier.Redelivery.Redis.{
  Redis, serialize, deserialize, bump, key_of, enqueue, update_attempt, remove, read_at,
  at_least_one, ttl_or_60, ◌>>=◌, read_severity, read_hint, read_language, hint_value,
  language_value, maybe_text, maybe_texts, text_or_null, texts_or_null,
}

severity-value : (s : Severity) → read_severity (severity_value s) ≡ some s
severity-value info = refl
severity-value warn = refl
severity-value alert = refl
severity-value critical = refl

hint-value : (h : ChannelHint) → read_hint (hint_value h) ≡ some h
hint-value briefs = refl
hint-value alerts = refl
hint-value fills = refl
hint-value chat = refl

language-value : (l : Language) → read_language (language_value l) ≡ some l
language-value en = refl
language-value zh = refl

text-or_null : (o : Option String) → maybe_text (some (text_or_null o)) ≡ o
text-or_null none = refl
text-or_null (some s) = refl

texts-or_null : (o : Option (List String)) → maybe_texts (some (texts_or_null o)) ≡ o
texts-or_null none = refl
texts-or_null (some xs) = refl

-- Reading what was written gives the message back, whichever its fields.
deserialize-serialize : (m : QueuedMessage) → deserialize (serialize m) ≡ some m
unfolding deserialize serialize
deserialize-serialize m =
    let n = m.notification in
    simp (
      severity-value n.severity,
      hint-value n.channel_hint,
      language-value n.language,
      text-or_null n.target_user,
      texts-or_null n.mentioned_list,
      text-or_null m.trace_id,
      text-or_null m.last_error,
    )

deserialize-bump :
    (error : String) (m : QueuedMessage)
    → deserialize (bump error (serialize m)) ≡ some (count_attempt error m)
unfolding deserialize serialize bump
deserialize-bump error m =
    let n = m.notification in
    simp (
      severity-value n.severity,
      hint-value n.channel_hint,
      language-value n.language,
      text-or_null n.target_user,
      texts-or_null n.mentioned_list,
      text-or_null m.trace_id,
    )

second_left : (t u n : ℕ) → u < t + 1000 → u < t + at_least_one n * 1000
second_left t u n h = ground arith

-- From the time a message is queued until its life in Redis ends, the queue reads it back with every
-- field as it was. A failed attempt within that time rewrites it, and for a second after that it is read
-- back with one attempt more and the error of the attempt, and nothing else changed. Once it is removed
-- it is not found.
pub queued_message-roundtrip :
    {S : Type 0} (r : Redis S) (m : QueuedMessage) (error : String) (now t u : ℕ) (s : S)
    → now ≤ t
    → t < now + at_least_one ((m.expires_at - now) / 1000) * 1000
    → t ≤ u
    → u < t + 1000
    → let k = key_of m.notification_id in
      let held = enqueue r m now s in
      let tried = update_attempt r m.notification_id error t held in
      (read_at r t k held ≡ some m)
      × (read_at r u k tried ≡ some (count_attempt error m))
      × (r.get u k (remove r m.notification_id tried) ≡ none)
unfolding enqueue update_attempt remove
queued_message-roundtrip r m error now t u s h0 h1 h2 h3 =
    let k = key_of m.notification_id in
    let life = at_least_one ((m.expires_at - now) / 1000) in
    let held = r.set k (serialize m) life now s in
    let kept = r.get-set k (serialize m) life now t s h0 h1 in
    let n = ttl_or_60 (r.ttl t k held) in
    let kept2 =
      r.get-set k (bump error (serialize m)) (at_least_one n) t u held h2 (second_left t u n h3) in
    (
      ap (λ d. d >>= deserialize) kept ∙ deserialize-serialize m,
      rw (kept, kept2) (deserialize-bump error m),
      r.get-delete k u _,
    )
