-- ===== src/Orchestrator/Slots/Calls.antt =====
-- The calls that hold a slot at once, as steps of claims and releases, for concurrency.py.
use mathlib.Core.List.{map}
use investment_intelligence.Prelude.{
  ℕ, ◌+◌, ◌*◌, ◌≤◌, ◌<◌, ◌≡◌, refl, ap, ◌∙◌, ◌≢◌, inl, inr, true, false, none, some, List, [], ◌∷◌,
  String, length, All, length-map, arith,
}
use investment_intelligence.Prelude.Keys.{ℕ-keys, contains, Distinct, eq_or_ne}
use investment_intelligence.Prelude.Pigeonhole.{
  Within, pigeonhole, Removes, Removes-All, Removes-Distinct,
}
use investment_intelligence.Orchestrator.Backend.{Backend}
use investment_intelligence.Orchestrator.Slots.{slot_ttl_s, slot_key, try_slots, release}
use investment_intelligence.Orchestrator.Slots.Claim.{
  slot_key-injective, Found, try_slots-Found, try_slots-none,
}

-- A call in flight: its slot and the time of its claim.
abbrev pub Holder : Type 0
Holder = ℕ × ℕ

pub record Sys (S : Type 0) : Type 0 where
  pub store : S
  pub out : List Holder

-- The time lies in the life of the key.
abbrev pub InTime : ℕ → Holder → Type 0
InTime now (_, claimed_at) = (claimed_at ≤ now) × (now < claimed_at + slot_ttl_s * 1000)

module _ {S : Type 0} (b : Backend S) (holder : String) (capacity : ℕ) where
  -- A turn of `_claim`, or the end of a call. No call that is out at a turn is older than its key.
  pub data Step (s : Sys S) : Sys S → Type 0 where
    claims :
        (now slot : ℕ)
        → All (InTime now) s.out
        → (try_slots b holder capacity now s.store).0 ≡ some slot
        → Step s (record {
          store = (try_slots b holder capacity now s.store).1;
          out = (slot, now) ∷ s.out;
        })
    waits :
        (now : ℕ)
        → (try_slots b holder capacity now s.store).0 ≡ none
        → Step s (record s { store = (try_slots b holder capacity now s.store).1 })
    ends :
        (h : Holder) (rest : List Holder)
        → Removes h s.out rest
        → Step s (record { store = release b h.0 s.store; out = rest })

  pub data Reach (s : Sys S) : Sys S → Type 0 where
    here : Reach s s
    next : {t u : Sys S} → Reach s t → Step t u → Reach s u

  -- The key of a call's slot is there for as long as its life lasts.
  abbrev Held : S → Holder → Type 0
  Held store h = (u : ℕ) → InTime u h → b.present u store (slot_key h.0) ≡ true

  pub record IsExclusive (s : Sys S) : Type 0 where
    pub distinct : Distinct (map (λ (h : Holder). h.0) s.out)
    pub within : All (λ h. Within capacity h.0) s.out
    pub held : All (Held s.store) s.out

  kept_others :
      (store store' : S) (slot : ℕ) (xs : List Holder)
      → ((j u : ℕ) → slot ≢ j → b.present u store' (slot_key j) ≡ b.present u store (slot_key j))
      → contains slot (map (λ (h : Holder). h.0) xs) ≡ false
      → All (Held store) xs
      → All (Held store') xs
  kept_others store store' slot [] same absent h = tt
  kept_others store store' slot ((j, t) ∷ xs) same absent h = (
    (λ u w. same j u (λ e. ground arith) ∙ h.0 u w),
    kept_others store store' slot xs same (ground arith) h.1,
  )

  -- A slot that is free at a time is held by no call that is in time.
  free-absent :
      (now slot : ℕ) (store : S) (xs : List Holder)
      → b.present now store (slot_key slot) ≡ false
      → All (InTime now) xs
      → All (Held store) xs
      → contains slot (map (λ (h : Holder). h.0) xs) ≡ false
  free-absent now slot store [] free fresh h = refl
  free-absent now slot store ((j, t) ∷ xs) free fresh h = elim (eq_or_ne j slot) [
    | inl e ↦ absurd (cc (h.0 now fresh.0, ap (λ k. b.present now store (slot_key k)) e, free))
    | inr ne ↦ ground (arith, free-absent now slot store xs free fresh.1 h.1)
  ]

  All-slots :
      (xs : List Holder)
      → All (λ h. Within capacity h.0) xs
      → All (Within capacity) (map (λ (h : Holder). h.0) xs)
  All-slots [] h = tt
  All-slots (x ∷ xs) h = (h.0, All-slots xs h.1)

  claimed-IsExclusive :
      (now slot : ℕ) (s : Sys S) (store' : S)
      → All (InTime now) s.out
      → Within capacity slot
      → Found b holder now s.store store' slot
      → IsExclusive s
      → IsExclusive (record { store = store'; out = (slot, now) ∷ s.out })
  claimed-IsExclusive now slot s store' fresh w f inv =
      let absent = free-absent now slot s.store s.out f.free fresh inv.held in
      record {
        distinct = (absent, inv.distinct);
        within = (w, inv.within);
        held = (
          (λ u in_time.
              ap (λ st. b.present u st (slot_key slot)) f.after
              ∙ b.set_nx_stays (slot_key slot) holder slot_ttl_s now u s.store f.taken in_time.0
                  in_time.1),
          kept_others s.store store' slot s.out
              (λ j u ne.
                ap (λ st. b.present u st (slot_key j)) f.after
                ∙ b.set_nx_others (slot_key slot) (slot_key j) holder slot_ttl_s now u s.store
                    (λ e. ne (slot_key-injective slot j e)))
              absent inv.held,
        );
      }

  ends-IsExclusive :
      (h : Holder) (rest : List Holder) (s : Sys S)
      → Removes h s.out rest
      → IsExclusive s
      → IsExclusive (record { store = release b h.0 s.store; out = rest })
  unfolding release
  ends-IsExclusive h rest s r inv =
      let (distinct, absent) = Removes-Distinct (λ (q : Holder). q.0) r inv.distinct in
      record {
        distinct = distinct;
        within = (Removes-All _ r inv.within).1;
        held =
            kept_others s.store _ h.0 rest
              (λ j u ne.
                b.delete_others (slot_key h.0) (slot_key j) u s.store
                  (λ e. ne (slot_key-injective h.0 j e)))
              absent (Removes-All _ r inv.held).1;
      }

  Step-IsExclusive : {s t : Sys S} → Step s t → IsExclusive s → IsExclusive t
  Step-IsExclusive {s} (claims now slot fresh e) inv =
      let (w, f) = try_slots-Found b holder capacity now slot s.store e in
      claimed-IsExclusive now slot s _ fresh w f inv
  Step-IsExclusive {s} (waits now e) inv =
      let (same, _) = try_slots-none b holder capacity now s.store e in
      record { distinct = inv.distinct; within = inv.within; held = rw same inv.held }
  Step-IsExclusive {s} (ends h rest r) inv = ends-IsExclusive h rest s r inv

  Reach-IsExclusive : {s t : Sys S} → IsExclusive s → Reach s t → IsExclusive t
  Reach-IsExclusive g here = g
  Reach-IsExclusive g (next r step) = Step-IsExclusive step (Reach-IsExclusive g r)

  -- As long as no call is older than its key when another claims, at most `capacity` calls are in
  -- flight, and no two of them have the same slot, whatever claims and releases come in what order.
  pub at_most_capacity :
      (store : S) (t : Sys S)
      → Reach (record { store = store; out = [] }) t
      → (length t.out ≤ capacity) × Distinct (map (λ (h : Holder). h.0) t.out)
  at_most_capacity store t r =
      let inv = Reach-IsExclusive (record { distinct = tt; within = tt; held = tt }) r in
      let slots = map (λ (h : Holder). h.0) t.out in
      let same : length slots ≡ length t.out = length-map (λ (h : Holder). h.0) t.out in
      (
        omega (arith, same, pigeonhole capacity slots inv.distinct (All-slots t.out inv.within)),
        inv.distinct,
      )
