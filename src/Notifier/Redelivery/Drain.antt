-- ===== src/Notifier/Redelivery/Drain.antt =====
-- What a pass of `drain_once` in redelivery.py does to each message.
use mathlib.Core.Path.{subst}
use investment_intelligence.Prelude.{
  ℕ, ◌+◌, ◌<◌, ◌≤◌, ◌≡◌, ◌⊎◌, refl, sym, ◌∙◌, false, Option, none, some, List, [], ◌∷◌, ◌++◌, ap,
  String, length, arith, All, All-mono, inl, inr,
}
use investment_intelligence.Prelude.Keys.{String-keys, ◌=?◌, contains, Distinct, =?_refl, =?_sym}
use investment_intelligence.Prelude.Dict.{Dict, lookup, lookup-remove}
use investment_intelligence.Prelude.Outcome.{Result, ok, err}
use investment_intelligence.Notifier.RateLimit.{Limits}
use investment_intelligence.Notifier.Router.{NotifyResult, NotifyError, Adapter, State, notify}
use investment_intelligence.Notifier.Redelivery.{
  QueuedMessage, Queue, list_pending, count_attempt, error_text, Drained, attempt_queue,
  delivered_of, drain, drain_once,
}
use investment_intelligence.Notifier.Redelivery.Queue.{
  IsQueue, remove-IsQueue, update_attempt-IsQueue, lookup-update_attempt, length-remove,
  length-update_attempt,
}
use investment_intelligence.Notifier.Redelivery.Pending.{
  message_ids, PendingIn, list_pending-Distinct, list_pending-PendingIn, All-pending,
  expired_absent, missing_absent,
}

-- One attempt changes no other message.
attempt_queue_other :
    (m : QueuedMessage) (k : String) (r : Result NotifyError NotifyResult) (queue : Queue)
    → lookup m.notification_id queue ≡ some m
    → (m.notification_id =? k) ≡ false
    → lookup k (attempt_queue m r queue) ≡ lookup k queue
attempt_queue_other m k (ok r) queue l n = lookup-remove m.notification_id k queue ∙ rw n refl
attempt_queue_other m k (err e) queue l n =
    lookup-update_attempt m.notification_id k (error_text e) m queue l ∙ rw n refl

attempt_queue-IsQueue :
    (m : QueuedMessage) (r : Result NotifyError NotifyResult) (queue : Queue)
    → IsQueue queue
    → IsQueue (attempt_queue m r queue)
attempt_queue-IsQueue m (ok r) queue h = remove-IsQueue m.notification_id queue h
attempt_queue-IsQueue m (err e) queue h =
    update_attempt-IsQueue m.notification_id (error_text e) queue h

attempt_queue_size :
    (m : QueuedMessage) (r : Result NotifyError NotifyResult) (queue : Queue) (delivered rest : ℕ)
    → IsQueue queue
    → lookup m.notification_id queue ≡ some m
    → rest + delivered ≡ length (attempt_queue m r queue)
    → rest + delivered_of r delivered ≡ length queue
attempt_queue_size m (ok r) queue delivered rest h l e =
    omega (arith, length-remove m.notification_id m queue h.distinct l)
attempt_queue_size m (err x) queue delivered rest h l e =
    omega (arith, length-update_attempt m.notification_id (error_text x) m queue l)

-- The messages of the list stand in the queue.
abbrev Standing : Queue → List QueuedMessage → Type 0
Standing queue = All (λ m. lookup m.notification_id queue ≡ some m)

Standing-attempt :
    (m : QueuedMessage) (ms : List QueuedMessage) (r : Result NotifyError NotifyResult)
    (queue : Queue)
    → lookup m.notification_id queue ≡ some m
    → contains m.notification_id (message_ids ms) ≡ false
    → Standing queue ms
    → Standing (attempt_queue m r queue) ms
Standing-attempt m [] r queue l n h = tt
Standing-attempt m (o ∷ ms) r queue l n h = (
  attempt_queue_other m o.notification_id r queue l
        (=?_sym m.notification_id o.notification_id ∙ ground arith)
      ∙ h.0,
  Standing-attempt m ms r queue l (ground arith) h.1,
)

-- A message of a list, between the ones before it and the ones after.
abbrev Part : List QueuedMessage → QueuedMessage → Type 0
Part ms m =
    (earlier : List QueuedMessage) × (later : List QueuedMessage) × (ms ≡ earlier ++ m ∷ later)

Part-cons :
    (m : QueuedMessage) (ms : List QueuedMessage) (o : QueuedMessage) → Part ms o → Part (m ∷ ms) o
Part-cons m ms o (earlier, later, e) = (m ∷ earlier, later, ap (λ xs. m ∷ xs) e)

parts : (ms : List QueuedMessage) → All (Part ms) ms
parts [] = tt
parts (m ∷ ms) = (([], ms, refl), All-mono (Part ms) (Part (m ∷ ms)) ms (Part-cons m ms) (parts ms))

module _ {W : Type 0} (limits : Limits) (clock : W → ℕ) (adapters : Dict String (Adapter W)) where
  -- What the send of a message at the state `s` makes of it: it leaves the queue if some channel took it,
  -- and else stays, with one more attempt and the error.
  abbrev pub FateAt : QueuedMessage → State W → Option QueuedMessage → Type 0
  FateAt m s after =
      ((r : NotifyResult) × ((notify limits clock adapters m.notification s).0 ≡ ok r)
        × (after ≡ none))
      ⊎ ((e : NotifyError) × ((notify limits clock adapters m.notification s).0 ≡ err e)
          × (after ≡ some (count_attempt (error_text e) m)))

  abbrev pub Fate : QueuedMessage → Option QueuedMessage → Type 0
  Fate m after = (s : State W) × FateAt m s after

  -- The state after one `notify` for each message of a list, one after the other.
  pub notify_each : List QueuedMessage → State W → State W
  notify_each [] s = s
  notify_each (m ∷ ms) s = notify_each ms (notify limits clock adapters m.notification s).1

  -- A message of the list, the ones before it, and its fate when they have been sent.
  abbrev pub Turn : List QueuedMessage → State W → Queue → QueuedMessage → Type 0
  Turn ms s after m =
      (earlier : List QueuedMessage) × (later : List QueuedMessage) × (ms ≡ earlier ++ m ∷ later)
      × FateAt m (notify_each earlier s) (lookup m.notification_id after)

  FateAt-of :
      (m : QueuedMessage) (s : State W) (r : Result NotifyError NotifyResult) (queue : Queue)
      → (notify limits clock adapters m.notification s).0 ≡ r
      → lookup m.notification_id queue ≡ some m
      → FateAt m s (lookup m.notification_id (attempt_queue m r queue))
  FateAt-of m s (ok r) queue e l = inl (
    r,
    e,
    lookup-remove m.notification_id m.notification_id queue ∙ rw (=?_refl m.notification_id) refl,
  )
  FateAt-of m s (err x) queue e l = inr (
    x,
    e,
    lookup-update_attempt m.notification_id m.notification_id (error_text x) m queue l
        ∙ rw (=?_refl m.notification_id) refl,
  )

  drain_other :
      (ms : List QueuedMessage) (queue : Queue) (s : State W) (k : String)
      → Standing queue ms
      → Distinct (message_ids ms)
      → contains k (message_ids ms) ≡ false
      → lookup k (drain limits clock adapters ms queue s).queue ≡ lookup k queue
  unfolding drain
  drain_other [] queue s k h d n = refl
  drain_other (m ∷ ms) queue s k h d n =
      let sent = notify limits clock adapters m.notification s in
      drain_other ms (attempt_queue m sent.0 queue) sent.1 k
        (Standing-attempt m ms sent.0 queue h.0 d.0 h.1) d.1 (ground arith)
      ∙ attempt_queue_other m k sent.0 queue h.0 (ground arith)

  drain_turn :
      (earlier : List QueuedMessage) (m : QueuedMessage) (later : List QueuedMessage)
      (queue : Queue) (s : State W)
      → Standing queue (earlier ++ m ∷ later)
      → Distinct (message_ids (earlier ++ m ∷ later))
      → FateAt m (notify_each earlier s) (
          lookup m.notification_id
            (drain limits clock adapters (earlier ++ m ∷ later) queue s).queue)
  unfolding drain notify_each
  drain_turn [] m later queue s h d =
      let sent = notify limits clock adapters m.notification s in
      let next = attempt_queue m sent.0 queue in
      let stand = Standing-attempt m later sent.0 queue h.0 d.0 h.1 in
      subst (FateAt m s) (sym (drain_other later next sent.1 m.notification_id stand d.1 d.0))
        (FateAt-of m s sent.0 queue refl h.0)
  drain_turn (o ∷ earlier) m later queue s h d =
      let sent = notify limits clock adapters o.notification s in
      drain_turn earlier m later (attempt_queue o sent.0 queue) sent.1
        (Standing-attempt o (earlier ++ m ∷ later) sent.0 queue h.0 d.0 h.1) d.1

  drain_state :
      (ms : List QueuedMessage) (queue : Queue) (s : State W)
      → (drain limits clock adapters ms queue s).state ≡ notify_each ms s
  unfolding drain notify_each
  drain_state [] queue s = refl
  drain_state (m ∷ ms) queue s =
      let sent = notify limits clock adapters m.notification s in
      drain_state ms (attempt_queue m sent.0 queue) sent.1

  Part-Turn :
      (ms : List QueuedMessage) (queue : Queue) (s : State W)
      → Standing queue ms
      → Distinct (message_ids ms)
      → (m : QueuedMessage) → Part ms m
      → Turn ms s (drain limits clock adapters ms queue s).queue m
  Part-Turn ms queue s h d m (earlier, later, e) = (
    earlier,
    later,
    e,
    subst
        (λ xs.
          Standing queue xs
          → Distinct (message_ids xs)
          → FateAt m (notify_each earlier s)
              (lookup m.notification_id (drain limits clock adapters xs queue s).queue))
        (sym e) (drain_turn earlier m later queue s) h d,
  )

  drain_turns :
      (ms : List QueuedMessage) (queue : Queue) (s : State W)
      → Standing queue ms
      → Distinct (message_ids ms)
      → All (Turn ms s (drain limits clock adapters ms queue s).queue) ms
  drain_turns ms queue s h d =
      All-mono (Part ms) (Turn ms s (drain limits clock adapters ms queue s).queue) ms
        (Part-Turn ms queue s h d) (parts ms)

  drain_size :
      (ms : List QueuedMessage) (queue : Queue) (s : State W)
      → IsQueue queue
      → Standing queue ms
      → Distinct (message_ids ms)
      → length (drain limits clock adapters ms queue s).queue
          + (drain limits clock adapters ms queue s).delivered
        ≡ length queue
  unfolding drain
  drain_size [] queue s q h d = ground arith
  drain_size (m ∷ ms) queue s q h d =
      let sent = notify limits clock adapters m.notification s in
      let next = attempt_queue m sent.0 queue in
      let rest = drain limits clock adapters ms next sent.1 in
      attempt_queue_size m sent.0 queue rest.delivered (length rest.queue) q h.0 (
        drain_size ms next sent.1 (attempt_queue-IsQueue m sent.0 queue q)
          (Standing-attempt m ms sent.0 queue h.0 d.0 h.1) d.1)

  drain-IsQueue :
      (ms : List QueuedMessage) (queue : Queue) (s : State W)
      → IsQueue queue
      → IsQueue (drain limits clock adapters ms queue s).queue
  unfolding drain
  drain-IsQueue [] queue s q = q
  drain-IsQueue (m ∷ ms) queue s q =
      let sent = notify limits clock adapters m.notification s in
      drain-IsQueue ms (attempt_queue m sent.0 queue) sent.1
        (attempt_queue-IsQueue m sent.0 queue q)

module _ {W : Type 0} (limits : Limits) (clock : W → ℕ) (adapters : Dict String (Adapter W)) where
  -- What one pass does to the queue.
  pub record Passed (now : ℕ) (queue : Queue) (s : State W) (d : Drained W) : Type 0 where
    pub shape : IsQueue d.queue
    pub size : length d.queue + d.delivered ≡ length queue
    pub live :
        (id : String) (m : QueuedMessage)
        → lookup id queue ≡ some m
        → now < m.expires_at
        → Turn limits clock adapters (list_pending now queue) s d.queue m
    pub once : Distinct (message_ids (list_pending now queue))
    pub state : d.state ≡ notify_each limits clock adapters (list_pending now queue) s
    pub expired :
        (id : String) (m : QueuedMessage)
        → lookup id queue ≡ some m
        → m.expires_at ≤ now
        → lookup id d.queue ≡ some m
    pub missing : (id : String) → lookup id queue ≡ none → lookup id d.queue ≡ none

  -- A pass over a queue that holds each message once, under its id, leaves such a queue. The number that
  -- it returns is the number of messages that left the queue. The pass calls `notify` for the messages
  -- that had not expired, each once and one after the other, and does nothing else: the state that it
  -- leaves is the one after those calls. Each left the queue if some channel took it at its turn, and
  -- else stays with one more attempt and the error. An expired message stays as it is, and none is added.
  pub drain_once-Passed :
      (queue : Queue) (s : State W)
      → IsQueue queue
      → Passed (clock s.world) queue s (drain_once limits clock adapters queue s)
  unfolding drain_once
  drain_once-Passed queue s q =
      let now = clock s.world in
      let ms = list_pending now queue in
      let in_queue = list_pending-PendingIn now queue q in
      let standing =
        All-mono (PendingIn now queue) (λ m. lookup m.notification_id queue ≡ some m) ms
          (λ m h. h.0) in_queue in
      let distinct = list_pending-Distinct now queue q in
      let after = (drain limits clock adapters ms queue s).queue in
      let turns = drain_turns limits clock adapters ms queue s standing distinct in
      record {
        shape = drain-IsQueue limits clock adapters ms queue s q;
        size = drain_size limits clock adapters ms queue s q standing distinct;
        live = λ id m l alive.
            All-pending (Turn limits clock adapters ms s after) now id m queue turns l alive;
        once = distinct;
        state = drain_state limits clock adapters ms queue s;
        expired = λ id m l old.
            drain_other limits clock adapters ms queue s id standing distinct
              (expired_absent now id m queue q l old)
            ∙ l;
        missing = λ id l.
            drain_other limits clock adapters ms queue s id standing distinct
              (missing_absent now id queue q.own l)
            ∙ l;
      }
