-- ===== src/Notifier/Redelivery/Redis/Tests.antt =====
-- A store with the commands of Redis, and runs of the queue in it.
use investment_intelligence.Prelude.{
  ℕ, ◌+◌, ◌-◌, ◌*◌, ◌≡◌, refl, Option, none, some, List, [], ◌∷◌, String, ltb, lt→ltb,
  if◌then◌else◌, arith,
}
use Prim.Native.Nat.{◌/◌}
use investment_intelligence.Prelude.Keys.{◌=?◌, String-keys, =?_refl}
use investment_intelligence.Notifier.Router.{alert, fills, zh}
use investment_intelligence.Notifier.Redelivery.{QueuedMessage, count_attempt}
use investment_intelligence.Notifier.Redelivery.Redis.{
  Redis, Doc, enqueue, update_attempt, remove, read_at,
}
use investment_intelligence.Notifier.Redelivery.Redis.RoundTrip.{queued_message-roundtrip}

-- A key with its value and the time at which it is gone.
record Item : Type 0 where
  key : String
  doc : Doc
  until : ℕ

abbrev get_in : ℕ → String → List Item → Option Doc
get_in t k [] = none
get_in t k (i ∷ is) =
    if i.key =? k then (if ltb t i.until then some i.doc else none) else get_in t k is

abbrev delete_in : String → List Item → List Item
delete_in k [] = []
delete_in k (i ∷ is) = let rest = delete_in k is in if i.key =? k then rest else i ∷ rest

abbrev ttl_in : ℕ → String → List Item → ℕ
ttl_in t k [] = 0
ttl_in t k (i ∷ is) = if i.key =? k then (i.until - t) / 1000 else ttl_in t k is

abbrev scan_in : ℕ → List Item → List String
scan_in t [] = []
scan_in t (i ∷ is) = let rest = scan_in t is in if ltb t i.until then i.key ∷ rest else rest

get_in-delete_in : (k : String) (t : ℕ) (s : List Item) → get_in t k (delete_in k s) ≡ none
get_in-delete_in k t [] = refl
get_in-delete_in k t (i ∷ is) = ground (arith, get_in-delete_in k t is)

abbrev store : Redis (List Item)
store = record {
  set = λ k d ex now s. record { key = k; doc = d; until = now + ex * 1000 } ∷ delete_in k s;
  get = get_in;
  delete = delete_in;
  scan = scan_in;
  ttl = ttl_in;
  get-set = λ k d ex now t s h0 h1. simp (=?_refl k, lt→ltb t (now + ex * 1000) h1);
  get-delete = get_in-delete_in;
}

abbrev message : QueuedMessage
message = record {
  notification_id = "n1";
  notification = record {
    severity = alert;
    channel_hint = fills;
    markdown = "filled 700.HK";
    language = zh;
    mentioned_list = some ("ops" ∷ []);
    target_user = none;
  };
  enqueued_at = 10_000;
  expires_at = 21_610_000;
  trace_id = some "t1";
  attempts = 0;
  last_error = none;
}

queued_message-roundtrip_example :
    (read_at store 70_000 "notifier:redelivery:n1" (enqueue store message 10_000 []) ≡ some message)
    × (read_at store 70_500 "notifier:redelivery:n1"
          (update_attempt store "n1" "down" 70_000 (enqueue store message 10_000 []))
        ≡ some (count_attempt "down" message))
    × (store.get 70_500 "notifier:redelivery:n1" (
          remove store "n1"
            (update_attempt store "n1" "down" 70_000 (enqueue store message 10_000 [])))
        ≡ none)
queued_message-roundtrip_example =
    queued_message-roundtrip store message "down" 10_000 70_000 70_500 [] (ground arith)
      (ground arith) (ground arith) (ground arith)
