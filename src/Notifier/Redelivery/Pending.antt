-- ===== src/Notifier/Redelivery/Pending.antt =====
-- The list of the pending messages of redelivery.py, and the queue that it is taken from.
use mathlib.Core.Path.{subst}
use investment_intelligence.Prelude.{
  ℕ, ◌<◌, ◌≤◌, ◌≡◌, refl, sym, true, false, none, some, List, [], ◌∷◌, String, ltb, arith, All,
  Bool-cases, inl, inr,
}
use investment_intelligence.Prelude.Keys.{String-keys, ◌=?◌, contains, Distinct, =?_refl, =?_sym}
use investment_intelligence.Prelude.Dict.{lookup}
use investment_intelligence.Notifier.Redelivery.{QueuedMessage, Queue, list_pending}
use investment_intelligence.Notifier.Redelivery.Queue.{ids, IsQueue, Own}

abbrev pub message_ids : List QueuedMessage → List String
message_ids [] = []
message_ids (m ∷ ms) = m.notification_id ∷ message_ids ms

lookup_absent :
    (k : String) (items : Queue) → lookup k items ≡ none → contains k (ids items) ≡ false
lookup_absent k [] h = refl
lookup_absent k ((j, m) ∷ items) h = elim (Bool-cases (j =? k)) [
  | inl hit ↦ absurd (cc)
  | inr miss ↦ rw miss (lookup_absent k items (cc))
]

pub list_pending-absent :
    (now : ℕ) (k : String) (items : Queue)
    → All Own items
    → contains k (ids items) ≡ false
    → contains k (message_ids (list_pending now items)) ≡ false
unfolding list_pending
list_pending-absent now k [] o h = refl
list_pending-absent now k ((j, m) ∷ items) o h = elim (Bool-cases (ltb now m.expires_at)) [
  | inl live ↦
      rw (live, list_pending) (rw (o.0) (ground (arith, list_pending-absent now k items o.1)))
  | inr old ↦ rw (old, list_pending) (list_pending-absent now k items o.1 (ground arith))
]

pub list_pending-Distinct :
    (now : ℕ) (items : Queue) → IsQueue items → Distinct (message_ids (list_pending now items))
unfolding list_pending
list_pending-Distinct now [] q = tt
list_pending-Distinct now ((j, m) ∷ items) q =
    let rest =
      list_pending-Distinct now items (record { distinct = q.distinct.1; own = q.own.1 }) in
    elim (Bool-cases (ltb now m.expires_at)) [
      | inl live ↦
          rw (live, list_pending)
            (rw (q.own.0) (list_pending-absent now j items q.own.1 q.distinct.0), rest)
      | inr old ↦ rw (old, list_pending) rest
    ]

-- A message that is pending stands in the queue and has not expired.
abbrev pub PendingIn : ℕ → Queue → QueuedMessage → Type 0
PendingIn now queue m = (lookup m.notification_id queue ≡ some m) × (now < m.expires_at)

PendingIn-wider :
    (now : ℕ) (j : String) (w : QueuedMessage) (items : Queue) (ms : List QueuedMessage)
    → contains j (message_ids ms) ≡ false
    → All (PendingIn now items) ms
    → All (PendingIn now ((j, w) ∷ items)) ms
PendingIn-wider now j w items [] n h = tt
PendingIn-wider now j w items (m ∷ ms) n h = (
  (rw (=?_sym j m.notification_id) (ground (arith, h.0.0)), h.0.1),
  PendingIn-wider now j w items ms (ground arith) h.1,
)

pub list_pending-PendingIn :
    (now : ℕ) (items : Queue) → IsQueue items → All (PendingIn now items) (list_pending now items)
unfolding list_pending
list_pending-PendingIn now [] q = tt
list_pending-PendingIn now ((j, m) ∷ items) q =
    let rest_queue : IsQueue items = record { distinct = q.distinct.1; own = q.own.1 } in
    let rest =
      PendingIn-wider now j m items (list_pending now items)
        (list_pending-absent now j items q.own.1 q.distinct.0)
        (list_pending-PendingIn now items rest_queue) in
    elim (Bool-cases (ltb now m.expires_at)) [
      | inl live ↦ rw (live, list_pending) ((rw (q.own.0, =?_refl j) refl, ground arith), rest)
      | inr old ↦ rw (old, list_pending) rest
    ]

pending_tail :
    (P : QueuedMessage → Type 0) (now : ℕ) (j : String) (w : QueuedMessage) (items : Queue)
    → All P (list_pending now ((j, w) ∷ items))
    → All P (list_pending now items)
unfolding list_pending
pending_tail P now j w items = elim (Bool-cases (ltb now w.expires_at)) [
  | inl live ↦ rw (live, list_pending) (λ h. h.1)
  | inr old ↦ rw (old, list_pending) (λ h. h)
]

pending_head :
    (P : QueuedMessage → Type 0) (now : ℕ) (j : String) (w : QueuedMessage) (items : Queue)
    → ltb now w.expires_at ≡ true
    → All P (list_pending now ((j, w) ∷ items))
    → P w
unfolding list_pending
pending_head P now j w items live = rw (live, list_pending) (λ h. h.0)

pub All-pending :
    (P : QueuedMessage → Type 0) (now : ℕ) (k : String) (m : QueuedMessage) (items : Queue)
    → All P (list_pending now items)
    → lookup k items ≡ some m
    → now < m.expires_at
    → P m
unfolding list_pending
All-pending P now k m [] h l live = absurd (cc)
All-pending P now k m ((j, w) ∷ items) h l live = elim (Bool-cases (j =? k)) [
  | inl hit ↦
      let found : w ≡ m = cc in
      subst P found (
        pending_head P now j w items
          (subst (λ v. ltb now v.expires_at ≡ true) (sym found) (ground arith)) h)
  | inr miss ↦ All-pending P now k m items (pending_tail P now j w items h) (cc) live
]

pub expired_absent :
    (now : ℕ) (k : String) (m : QueuedMessage) (items : Queue)
    → IsQueue items
    → lookup k items ≡ some m
    → m.expires_at ≤ now
    → contains k (message_ids (list_pending now items)) ≡ false
unfolding list_pending
expired_absent now k m [] q l old = absurd (cc)
expired_absent now k m ((j, w) ∷ items) q l old =
    let rest_queue : IsQueue items = record { distinct = q.distinct.1; own = q.own.1 } in
    elim (Bool-cases (j =? k)) [
      | inl hit ↦
          let found : w ≡ m = cc in
          let stale : ltb now w.expires_at ≡ false =
            subst (λ v. ltb now v.expires_at ≡ false) (sym found) (ground arith) in
          let same = (String-keys.beq_iff j k).0 hit in
          rw (stale, list_pending)
            (subst (λ z. contains z (message_ids (list_pending now items)) ≡ false) same
              (list_pending-absent now j items q.own.1 q.distinct.0))
      | inr miss ↦
          let rest = expired_absent now k m items rest_queue (cc) old in
          elim (Bool-cases (ltb now w.expires_at)) [
            | inl live ↦ rw (live, list_pending) (rw (q.own.0, miss) rest)
            | inr stale ↦ rw (stale, list_pending) rest
          ]
    ]

pub missing_absent :
    (now : ℕ) (k : String) (items : Queue)
    → All Own items
    → lookup k items ≡ none
    → contains k (message_ids (list_pending now items)) ≡ false
missing_absent now k items o l = list_pending-absent now k items o (lookup_absent k items l)
