-- ===== src/Orchestrator/Idempotency/Window.antt =====
-- Which fires of one key run their graph, for idempotency.py.
use investment_intelligence.Prelude.{
  ℕ, ◌+◌, ◌*◌, ◌≤◌, ◌<◌, ◌≡◌, true, false, List, [], ◌∷◌, String, All, arith, Bool-cases, inl, inr,
  ap,
}
use investment_intelligence.Prelude.Keys.{String-keys, eq_or_ne}
use investment_intelligence.Prelude.Outcome.{Result, ok}
use investment_intelligence.Orchestrator.Backend.{Backend}
use investment_intelligence.Orchestrator.Idempotency.{
  default_ttl_s, Run, key_of, World, claim_or_skip, with_idempotency,
}

-- The time lies in the 24 hours from `t` on.
abbrev pub InWindow : ℕ → ℕ → Type 0
InWindow u t = (t ≤ u) × (u < t + default_ttl_s * 1000)

module _ {S W E A : Type 0} (b : Backend S) (runner : W → Result E A × W) (on_skip : A) where
  -- Fires one after another, each at its time.
  unfoldable pub fires : List (Run × ℕ) → World S W → World S W
  fires [] s = s
  fires ((r, now) ∷ rs) s = fires rs (with_idempotency b runner on_skip r now s).1

  present_after :
      (r : Run) (k : String) (now t : ℕ) (s : World S W)
      → b.present now s.store k ≡ true
      → b.present t s.store k ≡ true
      → b.present t (with_idempotency b runner on_skip r now s).1.store k ≡ true
  unfolding with_idempotency claim_or_skip
  present_after r k now t s at_now at_t = elim (eq_or_ne (key_of r) k) [
    | inl same ↦ elim (Bool-cases (b.set_nx (key_of r) "1" default_ttl_s now s.store).0) [
      | inl set ↦ absurd (
          cc (
            (b.set_nx_answers (key_of r) "1" default_ttl_s now s.store).0 set,
            ap (b.present now s.store) same,
            at_now,
          ))
      | inr kept ↦
          ground (arith, (b.set_nx_answers (key_of r) "1" default_ttl_s now s.store).2 kept)
    ]
    | inr other ↦ ground (arith, b.set_nx_others (key_of r) k "1" default_ttl_s now t s.store other)
  ]

  kept_present :
      (k : String) (t : ℕ) (rs : List (Run × ℕ)) (s : World S W)
      → ((u : ℕ) → InWindow u t → b.present u s.store k ≡ true)
      → All (λ q. InWindow q.1 t) rs
      → (u : ℕ) → InWindow u t
      → b.present u (fires rs s).store k ≡ true
  unfolding fires
  kept_present k t [] s h a u w = h u w
  kept_present k t ((r, now) ∷ rs) s h a u w =
      kept_present k t rs (with_idempotency b runner on_skip r now s).1
        (λ v in_v. present_after r k now v s (h now a.0) (h v in_v)) a.1 u w

  runs_first :
      (r : Run) (t : ℕ) (s : World S W)
      → r.force ≡ false
      → b.present t s.store (key_of r) ≡ false
      → ((with_idempotency b runner on_skip r t s).0 ≡ (runner s.world).0)
        × ((with_idempotency b runner on_skip r t s).1.world ≡ (runner s.world).1)
        × ((u : ℕ)
            → InWindow u t
            → b.present u (with_idempotency b runner on_skip r t s).1.store (key_of r) ≡ true)
  unfolding with_idempotency claim_or_skip
  runs_first r t s free absent =
      let set = (b.set_nx_answers (key_of r) "1" default_ttl_s t s.store).1 absent in
      (
        rw (free, set),
        rw (free, set),
        λ u w. rw (free, set) (b.set_nx_stays (key_of r) "1" default_ttl_s t u s.store set w.0 w.1),
      )

  skips :
      (r : Run) (t : ℕ) (s : World S W)
      → r.force ≡ false
      → b.present t s.store (key_of r) ≡ true
      → with_idempotency b runner on_skip r t s ≡ (ok on_skip, s)
  unfolding with_idempotency claim_or_skip
  skips r t s free held = elim (Bool-cases (b.set_nx (key_of r) "1" default_ttl_s t s.store).0) [
    | inl set ↦ absurd (cc ((b.set_nx_answers (key_of r) "1" default_ttl_s t s.store).0 set, held))
    | inr kept ↦ ground (arith, (b.set_nx_answers (key_of r) "1" default_ttl_s t s.store).2 kept)
  ]

  -- The first fire of a free key runs its graph, also when the runner then raises. Whatever fires in
  -- the 24 hours after it, forced or not and of any key, a later fire of that key in this time that
  -- is not forced runs nothing: it returns `on_skip` and changes neither the store nor the world.
  pub one_run_per_window :
      (r r' : Run) (t u : ℕ) (rs : List (Run × ℕ)) (s : World S W)
      → r.force ≡ false
      → b.present t s.store (key_of r) ≡ false
      → All (λ q. InWindow q.1 t) rs
      → key_of r' ≡ key_of r
      → r'.force ≡ false
      → InWindow u t
      → let (out, s1) = with_idempotency b runner on_skip r t s in
        (out ≡ (runner s.world).0)
        × (s1.world ≡ (runner s.world).1)
        × (with_idempotency b runner on_skip r' u (fires rs s1) ≡ (ok on_skip, fires rs s1))
  one_run_per_window r r' t u rs s free absent later same free' w =
      let (out, world, held) = runs_first r t s free absent in
      (out, world, skips r' u _ free' (rw same (kept_present (key_of r) t rs _ held later u w)))
