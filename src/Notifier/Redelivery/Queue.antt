-- ===== src/Notifier/Redelivery/Queue.antt =====
-- The shape of the queue of redelivery.py, and what each operation does to the other messages.
use investment_intelligence.Prelude.{
  suc, ◌≡◌, refl, sym, ap, ◌∙◌, true, false, Option, none, some, List, [], ◌∷◌, String, length,
  if◌then◌else◌, arith, All, Bool-cases, Option-cases, inl, inr,
}
use mathlib.Core.Path.{subst}
use investment_intelligence.Prelude.Keys.{String-keys, ◌=?◌, contains, Distinct, =?_sym}
use investment_intelligence.Prelude.Dict.{lookup, insert, remove, lookup-insert}
use investment_intelligence.Notifier.Redelivery.{
  QueuedMessage, Queue, enqueue, count_attempt, update_attempt,
}

abbrev pub ids : Queue → List String
ids [] = []
ids ((id, m) ∷ items) = id ∷ ids items

abbrev pub Own : String × QueuedMessage → Type 0
Own e = e.1.notification_id ≡ e.0

-- Each message stands once, under its own id.
pub record IsQueue (items : Queue) : Type 0 where
  pub distinct : Distinct (ids items)
  pub own : All Own items

contains-ids-insert :
    (id k : String) (m : QueuedMessage) (items : Queue)
    → contains k (ids (insert id m items)) ≡ (if id =? k then true else contains k (ids items))
contains-ids-insert id k m [] = refl
contains-ids-insert id k m ((j, w) ∷ items) = ground (
  arith,
  contains-ids-insert id k m items,
  String-keys.beq_iff j id,
  String-keys.beq_iff j k,
  String-keys.beq_iff id k,
)

contains-ids-remove :
    (id k : String) (items : Queue)
    → contains k (ids items) ≡ false
    → contains k (ids (remove id items)) ≡ false
contains-ids-remove id k [] h = refl
contains-ids-remove id k ((j, w) ∷ items) h = ground (arith, contains-ids-remove id k items)

Distinct-insert :
    (id : String) (m : QueuedMessage) (items : Queue)
    → Distinct (ids items)
    → Distinct (ids (insert id m items))
Distinct-insert id m [] h = (refl, tt)
Distinct-insert id m ((j, w) ∷ items) h = elim (Bool-cases (j =? id)) [
  | inl hit ↦ rw hit h
  | inr miss ↦ rw miss (
    contains-ids-insert id j m items ∙ ground (arith, =?_sym j id, h.0),
    Distinct-insert id m items h.1,
  )
]

Distinct-remove :
    (id : String) (items : Queue) → Distinct (ids items) → Distinct (ids (remove id items))
Distinct-remove id [] h = tt
Distinct-remove id ((j, w) ∷ items) h = elim (Bool-cases (j =? id)) [
  | inl hit ↦ rw hit (Distinct-remove id items h.1)
  | inr miss ↦ rw miss (contains-ids-remove id j items h.0, Distinct-remove id items h.1)
]

Own-insert :
    (id : String) (m : QueuedMessage) (items : Queue)
    → m.notification_id ≡ id
    → All Own items
    → All Own (insert id m items)
Own-insert id m [] e h = (e, tt)
Own-insert id m ((j, w) ∷ items) e h = elim (Bool-cases (j =? id)) [
  | inl hit ↦ rw hit (e ∙ sym ((String-keys.beq_iff j id).0 hit), h.1)
  | inr miss ↦ rw miss (h.0, Own-insert id m items e h.1)
]

Own-remove : (id : String) (items : Queue) → All Own items → All Own (remove id items)
Own-remove id [] h = tt
Own-remove id ((j, w) ∷ items) h = elim (Bool-cases (j =? id)) [
  | inl hit ↦ rw hit (Own-remove id items h.1)
  | inr miss ↦ rw miss (h.0, Own-remove id items h.1)
]

pub Own-lookup :
    (id : String) (m : QueuedMessage) (items : Queue)
    → All Own items
    → lookup id items ≡ some m
    → m.notification_id ≡ id
Own-lookup id m [] h l = absurd (cc)
Own-lookup id m ((j, w) ∷ items) h l = elim (Bool-cases (j =? id)) [
  | inl hit ↦
      let found : w ≡ m = cc in
      ap (λ v. v.notification_id) (sym found) ∙ h.0 ∙ (String-keys.beq_iff j id).0 hit
  | inr miss ↦ Own-lookup id m items h.1 (cc)
]

pub enqueue-IsQueue :
    (m : QueuedMessage) (items : Queue) → IsQueue items → IsQueue (enqueue m items)
unfolding enqueue
enqueue-IsQueue m items h = record {
  distinct = Distinct-insert m.notification_id m items h.distinct;
  own = Own-insert m.notification_id m items refl h.own;
}

pub remove-IsQueue : (id : String) (items : Queue) → IsQueue items → IsQueue (remove id items)
remove-IsQueue id items h = record {
  distinct = Distinct-remove id items h.distinct;
  own = Own-remove id items h.own;
}

pub update_attempt-IsQueue :
    (id error : String) (items : Queue) → IsQueue items → IsQueue (update_attempt id error items)
unfolding update_attempt
update_attempt-IsQueue id error items h = elim (Option-cases (lookup id items)) [
  | inl missing ↦ rw (missing, update_attempt) h
  | inr (m, found) ↦
      rw (found, update_attempt)
        (record {
          distinct = Distinct-insert id (count_attempt error m) items h.distinct;
          own =
              Own-insert id (count_attempt error m) items (Own-lookup id m items h.own found) h.own;
        })
]

abbrev map_option : (QueuedMessage → QueuedMessage) → Option QueuedMessage → Option QueuedMessage
map_option f none = none
map_option f (some m) = some (f m)

pub lookup-update_attempt :
    (id k error : String) (m : QueuedMessage) (items : Queue)
    → lookup id items ≡ some m
    → lookup k (update_attempt id error items)
      ≡ (if id =? k then some (count_attempt error m) else lookup k items)
unfolding update_attempt
lookup-update_attempt id k error m items found =
    rw (found, update_attempt) (lookup-insert id k (count_attempt error m) items)

-- The keys.
length-insert :
    (id : String) (m : QueuedMessage) (items : Queue)
    → length (insert id m items)
      ≡ (if contains id (ids items) then length items else suc (length items))
length-insert id m [] = refl
length-insert id m ((j, w) ∷ items) = ground (arith, length-insert id m items)

absent_lookup :
    (id : String) (items : Queue) → contains id (ids items) ≡ false → lookup id items ≡ none
absent_lookup id [] h = refl
absent_lookup id ((j, w) ∷ items) h = ground (arith, absent_lookup id items)

length-remove_absent :
    (id : String) (items : Queue)
    → contains id (ids items) ≡ false
    → length (remove id items) ≡ length items
length-remove_absent id [] h = refl
length-remove_absent id ((j, w) ∷ items) h = ground (arith, length-remove_absent id items)

pub length-remove :
    (id : String) (m : QueuedMessage) (items : Queue)
    → Distinct (ids items)
    → lookup id items ≡ some m
    → suc (length (remove id items)) ≡ length items
length-remove id m [] d l = absurd (cc)
length-remove id m ((j, w) ∷ items) d l = elim (Bool-cases (j =? id)) [
  | inl hit ↦ rw hit (
      ap suc (
        length-remove_absent id items
          (subst (λ k. contains k (ids items) ≡ false) ((String-keys.beq_iff j id).0 hit) d.0)))
  | inr miss ↦ rw miss (ap suc (length-remove id m items d.1 (cc)))
]

pub length-update_attempt :
    (id error : String) (m : QueuedMessage) (items : Queue)
    → lookup id items ≡ some m
    → length (update_attempt id error items) ≡ length items
unfolding update_attempt
length-update_attempt id error m items found =
    rw (found, update_attempt)
      (length-insert id (count_attempt error m) items ∙ ground (arith, absent_lookup id items))
