-- ===== src/Orchestrator/Backend.antt =====
-- apps/orchestrator/orchestrator/state/idempotency.py and execute/concurrency.py: the store that both
-- claim keys in. In production it is Redis, of which `SET NX EX`, `DEL` and the expiry are read through
-- an interface; the stores in memory fill it. Times are milliseconds.
use investment_intelligence.Prelude.{
  ℕ, ◌+◌, ◌*◌, ◌≤◌, ◌<◌, Bool, true, false, ◌&&◌, Option, none, some, List, [], ◌∷◌, ◌≡◌, String,
  ◌≢◌, arith, if◌then◌else◌,
}
use investment_intelligence.Prelude.Keys.{String-keys}
use investment_intelligence.Prelude.Dict.{
  Dict, lookup, insert, remove, lookup-remove, lookup-insert_self, lookup-insert_ne,
}

-- What the program relies on. `set_nx key value ttl now` is `SET key value NX EX ttl`.
pub record Backend (S : Type 0) : Type 0 where
  pub set_nx : String → String → ℕ → ℕ → S → Bool × S
  pub delete : String → S → S
  pub present : ℕ → S → String → Bool
  -- A key is set exactly when it is absent, and a refused call changes nothing.
  pub set_nx_answers :
      (k v : String) (ttl now : ℕ) (s : S)
      → ((set_nx k v ttl now s).0 ≡ true → present now s k ≡ false)
        × (present now s k ≡ false → (set_nx k v ttl now s).0 ≡ true)
        × ((set_nx k v ttl now s).0 ≡ false → (set_nx k v ttl now s).1 ≡ s)
  -- A key that is set stays until its time to live is over.
  pub set_nx_stays :
      (k v : String) (ttl now t : ℕ) (s : S)
      → (set_nx k v ttl now s).0 ≡ true
      → now ≤ t
      → t < now + ttl * 1000
      → present t (set_nx k v ttl now s).1 k ≡ true
  pub set_nx_others :
      (k j v : String) (ttl now t : ℕ) (s : S)
      → k ≢ j
      → present t (set_nx k v ttl now s).1 j ≡ present t s j
  pub delete_clears : (k : String) (t : ℕ) (s : S) → present t (delete k s) k ≡ false
  pub delete_others :
      (k j : String) (t : ℕ) (s : S) → k ≢ j → present t (delete k s) j ≡ present t s j

-- The stores in memory, a dict whose entries do not expire.
abbrev pub is_in : Option String → Bool
is_in none = false
is_in (some _) = true

-- `set` of the stores in memory; a returned None is false.
pub mem_set : String → String → Bool → Dict String String → Bool × Dict String String
mem_set name value nx d =
    if nx && is_in (lookup name d) then (false, d) else (true, insert name value d)

-- `delete` of the store in memory, with the number of keys that were there.
abbrev count_in : List String → Dict String String → ℕ
count_in [] d = 0
count_in (k ∷ ks) d = (if is_in (lookup k d) then 1 else 0) + count_in ks d

abbrev remove_all : List String → Dict String String → Dict String String
remove_all [] d = d
remove_all (k ∷ ks) d = remove_all ks (remove k d)

pub mem_delete : List String → Dict String String → ℕ × Dict String String
mem_delete keys d = (count_in keys d, remove_all keys d)

mem_set-answers :
    (k v : String) (s : Dict String String)
    → ((mem_set k v true s).0 ≡ true → is_in (lookup k s) ≡ false)
      × (is_in (lookup k s) ≡ false → (mem_set k v true s).0 ≡ true)
      × ((mem_set k v true s).0 ≡ false → (mem_set k v true s).1 ≡ s)
unfolding mem_set
mem_set-answers k v s = ground arith

mem_set-stays :
    (k v : String) (s : Dict String String)
    → (mem_set k v true s).0 ≡ true
    → is_in (lookup k (mem_set k v true s).1) ≡ true
unfolding mem_set
mem_set-stays k v s h = ground (arith, lookup-insert_self k v s)

mem_set-others :
    (k j v : String) (s : Dict String String)
    → k ≢ j
    → is_in (lookup j (mem_set k v true s).1) ≡ is_in (lookup j s)
unfolding mem_set
mem_set-others k j v s ne = ground (arith, lookup-insert_ne k j v s ne)

mem_delete-clears :
    (k : String) (s : Dict String String) → is_in (lookup k (mem_delete (k ∷ []) s).1) ≡ false
unfolding mem_delete
mem_delete-clears k s = ground (arith, lookup-remove k k s, String-keys.beq_iff k k)

mem_delete-others :
    (k j : String) (s : Dict String String)
    → k ≢ j
    → is_in (lookup j (mem_delete (k ∷ []) s).1) ≡ is_in (lookup j s)
unfolding mem_delete
mem_delete-others k j s ne = ground (arith, lookup-remove k j s, String-keys.beq_iff k j)

-- The store in memory is a backend.
unfoldable pub in_memory : Backend (Dict String String)
unfolding mem_set mem_delete mem_set-answers mem_set-stays mem_set-others mem_delete-clears
    mem_delete-others
in_memory = record {
  set_nx = λ k v ttl now s. mem_set k v true s;
  delete = λ k s. (mem_delete (k ∷ []) s).1;
  present = λ t s k. is_in (lookup k s);
  set_nx_answers = λ k v ttl now s. mem_set-answers k v s;
  set_nx_stays = λ k v ttl now t s h a b. mem_set-stays k v s h;
  set_nx_others = λ k j v ttl now t s ne. mem_set-others k j v s ne;
  delete_clears = λ k t s. mem_delete-clears k s;
  delete_others = λ k j t s ne. mem_delete-others k j s ne;
}
