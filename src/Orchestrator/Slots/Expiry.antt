-- ===== src/Orchestrator/Slots/Expiry.antt =====
-- What happens to a slot of concurrency.py whose call is older than its key.
use investment_intelligence.Prelude.{
  ℕ, zero, suc, ◌+◌, ◌*◌, ◌≤◌, ◌<◌, ◌≡◌, ap, ◌∙◌, true, false, some, String, arith, Bool-cases, inl,
  inr,
}
use investment_intelligence.Prelude.Keys.{eq_or_ne, ℕ-keys}
use investment_intelligence.Prelude.Pigeonhole.{Within}
use investment_intelligence.Orchestrator.Backend.{Backend}
use investment_intelligence.Orchestrator.Slots.{
  slot_ttl_s, slot_key, first_free, try_slots, release,
}
use investment_intelligence.Orchestrator.Slots.Claim.{
  first_free_set, first_free_next, try_slots-Found,
}

-- Redis drops a key at the end of its life.
pub record Expires {S : Type 0} (b : Backend S) : Type 0 where
  pub expires :
      (k v : String) (ttl now t : ℕ) (s : S)
      → (b.set_nx k v ttl now s).0 ≡ true
      → now + ttl * 1000 ≤ t
      → b.present t (b.set_nx k v ttl now s).1 k ≡ false

module _ {S : Type 0} (b : Backend S) (holder : String) where
  -- The slots below `k` are held.
  abbrev pub LowerHeld : ℕ → ℕ → ℕ → S → Type 0
  LowerHeld slot now k s = (j : ℕ) → slot ≤ j → j < k → b.present now s (slot_key j) ≡ true

  held-refused :
      (slot now : ℕ) (s : S)
      → b.present now s (slot_key slot) ≡ true
      → (b.set_nx (slot_key slot) holder slot_ttl_s now s).0 ≡ false
  held-refused slot now s held =
      elim (Bool-cases (b.set_nx (slot_key slot) holder slot_ttl_s now s).0) [
        | inl set ↦
            let free = (b.set_nx_answers (slot_key slot) holder slot_ttl_s now s).0 set in
            absurd (cc)
        | inr refused ↦ refused
      ]

  first_free_lowest :
      (left slot now k : ℕ) (s : S)
      → slot ≤ k
      → k < slot + left
      → LowerHeld slot now k s
      → b.present now s (slot_key k) ≡ false
      → (first_free b holder left slot now s).0 ≡ some k
  first_free_lowest zero slot now k s lo hi held free = absurd (omega arith)
  first_free_lowest (suc left) slot now k s lo hi held free = elim (eq_or_ne slot k) [
    | inl here ↦
        let open_ = ap (λ j. b.present now s (slot_key j)) here ∙ free in
        let set = (b.set_nx_answers (slot_key slot) holder slot_ttl_s now s).1 open_ in
        ap (λ r. r.0) (first_free_set b holder left slot now s set) ∙ ap some here
    | inr further ↦
        let refused = held-refused slot now s (held slot (omega arith) (ground arith)) in
        ap (λ r. r.0) (first_free_next b holder left slot now s refused)
        ∙ first_free_lowest left (slot + 1) now k s (ground arith) (omega arith)
            (λ j a c. held j (omega arith) c) free
  ]

  try_slots_lowest :
      (capacity now k : ℕ) (s : S)
      → Within capacity k
      → LowerHeld 1 now k s
      → b.present now s (slot_key k) ≡ false
      → (try_slots b holder capacity now s).0 ≡ some k
  unfolding try_slots
  try_slots_lowest capacity now k s w held free =
      first_free_lowest capacity 1 now k s w.0 (omega (arith, w.1)) held free

  released : (k u : ℕ) (s : S) → b.present u (release b k s) (slot_key k) ≡ false
  unfolding release
  released k u s = b.delete_clears (slot_key k) u s

  -- Where keys expire, a call that still runs when the 300 s of its key are over shares its slot: if
  -- the lower slots are then held, the next claim gets the same slot, and the end of the first call frees
  -- the slot under the second, so that, the lower slots still held, a third claim gets it too.
  pub slot_shared_after_ttl :
      (capacity now t u k : ℕ) (s : S)
      → Expires b
      → (try_slots b holder capacity now s).0 ≡ some k
      → now + slot_ttl_s * 1000 ≤ t
      → let s1 = (try_slots b holder capacity now s).1 in
        let s2 = (try_slots b holder capacity t s1).1 in
        LowerHeld 1 t k s1
        → LowerHeld 1 u k (release b k s2)
        → ((try_slots b holder capacity t s1).0 ≡ some k)
          × (b.present u (release b k s2) (slot_key k) ≡ false)
          × ((try_slots b holder capacity u (release b k s2)).0 ≡ some k)
  slot_shared_after_ttl capacity now t u k s x e late below again =
      let found = try_slots-Found b holder capacity now k s e in
      let gone =
        ap (λ st. b.present t st (slot_key k)) found.1.after
        ∙ x.expires (slot_key k) holder slot_ttl_s now t s found.1.taken late in
      let s1 = (try_slots b holder capacity now s).1 in
      let s2 = (try_slots b holder capacity t s1).1 in
      let freed = released k u s2 in
      (
        try_slots_lowest capacity t k s1 found.0 below gone,
        freed,
        try_slots_lowest capacity u k (release b k s2) found.0 again freed,
      )
