-- ===== src/Orchestrator/Slots/Tests.antt =====
-- Claims against a store whose keys expire, and against the store in memory.
use mathlib.Core.Path.{subst}
use investment_intelligence.Prelude.{
  ℕ, ◌+◌, ◌*◌, ◌≤◌, ◌<◌, ◌≡◌, refl, ◌≢◌, Bool, true, false, none, some, [], ◌∷◌, String, length,
  arith, ltb, if◌then◌else◌, map,
}
use investment_intelligence.Prelude.Keys.{◌=?◌, String-keys, ℕ-keys, Distinct}
use investment_intelligence.Prelude.Decimal.{show}
use investment_intelligence.Orchestrator.Backend.{Backend}
use investment_intelligence.Orchestrator.Slots.{
  slot_key, try_slots, first_free, release, claimed, scan, claim,
}
use investment_intelligence.Orchestrator.Slots.Calls.{
  Holder, Sys, Reach, here, next, claims, at_most_capacity,
}
use investment_intelligence.Orchestrator.Slots.Expiry.{Expires, LowerHeld, slot_shared_after_ttl}

-- The end of each key's life.
abbrev Store : Type 0
Store = String → ℕ

abbrev write : String → ℕ → Store → Store
write k t s j = if k =? j then t else s j

abbrev set_expiring : String → ℕ → ℕ → Store → Bool × Store
set_expiring k ttl now s =
    if ltb now (s k) then (false, s) else (true, write k (now + ttl * 1000) s)

set_expiring-answers :
    (k : String) (ttl now : ℕ) (s : Store)
    → ((set_expiring k ttl now s).0 ≡ true → ltb now (s k) ≡ false)
      × (ltb now (s k) ≡ false → (set_expiring k ttl now s).0 ≡ true)
      × ((set_expiring k ttl now s).0 ≡ false → (set_expiring k ttl now s).1 ≡ s)
set_expiring-answers k ttl now s = ground arith

set_expiring-stays :
    (k : String) (ttl now t : ℕ) (s : Store)
    → (set_expiring k ttl now s).0 ≡ true
    → now ≤ t
    → t < now + ttl * 1000
    → ltb t ((set_expiring k ttl now s).1 k) ≡ true
set_expiring-stays k ttl now t s h a b = ground (arith, String-keys.beq_iff k k)

set_expiring-others :
    (k j : String) (ttl now t : ℕ) (s : Store)
    → k ≢ j
    → ltb t ((set_expiring k ttl now s).1 j) ≡ ltb t (s j)
set_expiring-others k j ttl now t s ne = ground (arith, String-keys.beq_iff k j)

write-clears : (k : String) (t : ℕ) (s : Store) → ltb t (write k 0 s k) ≡ false
write-clears k t s = ground (arith, String-keys.beq_iff k k)

write-others : (k j : String) (t : ℕ) (s : Store) → k ≢ j → ltb t (write k 0 s j) ≡ ltb t (s j)
write-others k j t s ne = ground (arith, String-keys.beq_iff k j)

set_expiring-expires :
    (k : String) (ttl now t : ℕ) (s : Store)
    → (set_expiring k ttl now s).0 ≡ true
    → now + ttl * 1000 ≤ t
    → ltb t ((set_expiring k ttl now s).1 k) ≡ false
set_expiring-expires k ttl now t s h late = ground (arith, String-keys.beq_iff k k)

expiring : Backend Store
expiring = record {
  set_nx = λ k v ttl now s. set_expiring k ttl now s;
  delete = λ k s. write k 0 s;
  present = λ t s k. ltb t (s k);
  set_nx_answers = λ k v ttl now s. set_expiring-answers k ttl now s;
  set_nx_stays = λ k v ttl now t s h a b. set_expiring-stays k ttl now t s h a b;
  set_nx_others = λ k j v ttl now t s ne. set_expiring-others k j ttl now t s ne;
  delete_clears = λ k t s. write-clears k t s;
  delete_others = λ k j t s ne. write-others k j t s ne;
}

expiring-Expires : Expires expiring
unfolding expiring
expiring-Expires = record {
  expires = λ k v ttl now t s h late. set_expiring-expires k ttl now t s h late;
}

abbrev empty : Store
empty _ = 0

key_of_third : slot_key 3 ≡ "lock:pro_concurrency:3"
unfolding slot_key show
key_of_third = refl

-- The second claim of two slots gets the second one, and a third claim gets none.
second_slot : (try_slots expiring "orch" 2 7 (try_slots expiring "orch" 2 5 empty).1).0 ≡ some 2
unfolding try_slots first_free expiring slot_key show
second_slot = refl

no_third_slot :
    let one_out = (try_slots expiring "orch" 2 5 empty).1 in
    (try_slots expiring "orch" 2 9 (try_slots expiring "orch" 2 7 one_out).1).0 ≡ none
unfolding try_slots first_free expiring slot_key show
no_third_slot = refl

-- A step every 50 ms. Before step 1, within the first scan, slot 1 is freed.
abbrev clock : ℕ → ℕ
clock n = 50 * n

abbrev freed_late : ℕ → Store → Store
freed_late step s = if step =? 1 then write "lock:pro_concurrency:1" 0 s else s

abbrev one_out : Store
one_out = write "lock:pro_concurrency:2" 100_000 (write "lock:pro_concurrency:1" 100_000 empty)

-- The slot that is freed behind the scan is found by the next one.
second_scan : (claim expiring "orch" 2 300 clock freed_late 400 0 one_out).0 ≡ claimed 1
unfolding claim scan expiring slot_key show
second_scan = refl

-- The first slot is held until 400 s, and a call of the second runs for 300 s.
abbrev first_held : Store
first_held = write "lock:pro_concurrency:1" 400_000 empty

first_stays :
    (now : ℕ) (s : Store)
    → expiring.present now s (slot_key 1) ≡ true
    → LowerHeld expiring "orch" 1 now 2 s
first_stays now s held j lo hi =
    let e : 1 ≡ j = omega arith in subst (λ i. expiring.present now s (slot_key i) ≡ true) e held

held_at_second :
    expiring.present 300_005 (try_slots expiring "orch" 4 5 first_held).1 (slot_key 1) ≡ true
unfolding try_slots first_free expiring slot_key show
held_at_second = refl

held_at_third :
    let s1 = (try_slots expiring "orch" 4 5 first_held).1 in
    let s2 = (try_slots expiring "orch" 4 300_005 s1).1 in
    expiring.present 300_010 (release expiring 2 s2) (slot_key 1) ≡ true
unfolding try_slots first_free expiring slot_key show release
held_at_third = refl

second_is_claimed : (try_slots expiring "orch" 4 5 first_held).0 ≡ some 2
unfolding try_slots first_free expiring slot_key show
second_is_claimed = refl

slot_shared_after_ttl_example :
    let s1 = (try_slots expiring "orch" 4 5 first_held).1 in
    let s2 = (try_slots expiring "orch" 4 300_005 s1).1 in
    ((try_slots expiring "orch" 4 300_005 s1).0 ≡ some 2)
    × (expiring.present 300_010 (release expiring 2 s2) (slot_key 2) ≡ false)
    × ((try_slots expiring "orch" 4 300_010 (release expiring 2 s2)).0 ≡ some 2)
slot_shared_after_ttl_example =
    slot_shared_after_ttl expiring "orch" 4 5 300_005 300_010 2 first_held expiring-Expires
      second_is_claimed (omega arith) (first_stays _ _ held_at_second)
      (first_stays _ _ held_at_third)

-- One call is out.
after_one : Sys Store
after_one = record { store = (try_slots expiring "orch" 2 5 empty).1; out = (1, 5) ∷ [] }

one_call : Reach expiring "orch" 2 (record { store = empty; out = [] }) after_one
unfolding after_one try_slots first_free expiring slot_key show
one_call = next here (claims 5 1 (tt) refl)

at_most_capacity_example :
    (length after_one.out ≤ 2) × Distinct (map (λ (h : Holder). h.0) after_one.out)
at_most_capacity_example = at_most_capacity expiring "orch" 2 empty after_one one_call
