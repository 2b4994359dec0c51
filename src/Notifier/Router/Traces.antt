-- ===== src/Notifier/Router/Traces.antt =====
-- The attempts that `notify` of router.py makes, as a run of sends from state to state.
use investment_intelligence.Prelude.{
  ℕ, ◌≡◌, ◌↔◌, refl, sym, ap, Bool, true, false, List, [], ◌∷◌, ◌++◌, String, Bool-cases, inl, inr,
}
use investment_intelligence.Prelude.Keys.{String-keys}
use investment_intelligence.Notifier.RateLimit.{Limits, Windows, acquire}
use investment_intelligence.Notifier.Router.{
  Notification, Sent, sent, raised_rate_limit, raised_down, raised_rejected, raised_other, Adapter,
  AdapterAttempt, Plan, State, after_send, after_acquire, try_adapter, rate_key, run_cascade,
  run_parallel, run_plan,
}

module _ {W : Type 0} (limits : Limits) (clock : W → ℕ) (n : Notification) where
  -- What the limiter says of a send through an adapter now.
  abbrev pub permit : Adapter W → State W → Bool × Windows
  permit adapter s = acquire limits (rate_key adapter.name n.channel_hint) (clock s.world) s.windows

  -- One attempt: refused, it changes the limiter only; granted, it is one `send`.
  pub record Attempted (adapter : Adapter W) (s : State W) (a : AdapterAttempt) (s' : State W)
      : Type 0 where
    pub name : a.name ≡ adapter.name
    pub windows : s'.windows ≡ (permit adapter s).1
    pub refused : (permit adapter s).0 ≡ false → (a.succeeded ≡ false) × (s'.world ≡ s.world)
    pub granted :
        (permit adapter s).0 ≡ true
        → (s'.world ≡ (adapter.send n s.world).1)
          × ((a.succeeded ≡ true) ↔ ((adapter.send n s.world).0 ≡ sent))

  -- One attempt at each adapter of the list, from the first state to the last.
  pub data Traced : List (Adapter W) → State W → List AdapterAttempt → State W → Type 0 where
    done : (s : State W) → Traced [] s [] s
    next :
        (adapter : Adapter W) (tried : List (Adapter W)) (a : AdapterAttempt)
        (attempts : List AdapterAttempt) (s s1 s2 : State W)
        → Attempted adapter s a s1
        → Traced tried s1 attempts s2
        → Traced (adapter ∷ tried) s (a ∷ attempts) s2

  -- A first part of the chain was tried.
  abbrev pub Begun : List (Adapter W) → State W → List AdapterAttempt → State W → Type 0
  Begun chain s attempts s' =
      (tried : List (Adapter W)) × (left : List (Adapter W)) × (chain ≡ tried ++ left)
      × Traced tried s attempts s'

  after_send-sent :
      (name : String) (windows : Windows) (end : Sent) (world : W)
      → ((after_send name windows (end, world)).0.succeeded ≡ true) ↔ (end ≡ sent)
  after_send-sent name windows sent world = (λ h. refl, λ h. refl)
  after_send-sent name windows (raised_rate_limit e) world = (λ h. absurd (cc), λ h. absurd (cc))
  after_send-sent name windows (raised_down e) world = (λ h. absurd (cc), λ h. absurd (cc))
  after_send-sent name windows (raised_rejected e) world = (λ h. absurd (cc), λ h. absurd (cc))
  after_send-sent name windows (raised_other e) world = (λ h. absurd (cc), λ h. absurd (cc))

  after_send_name :
      (name : String) (windows : Windows) (end : Sent) (world : W)
      → (after_send name windows (end, world)).0.name ≡ name
  after_send_name name windows sent world = refl
  after_send_name name windows (raised_rate_limit e) world = refl
  after_send_name name windows (raised_down e) world = refl
  after_send_name name windows (raised_rejected e) world = refl
  after_send_name name windows (raised_other e) world = refl

  after_acquire-Attempted :
      (adapter : Adapter W) (s : State W) (p : Bool × Windows)
      → permit adapter s ≡ p
      → Attempted adapter s
          (after_acquire limits clock adapter n p s.world).0
          (after_acquire limits clock adapter n p s.world).1
  after_acquire-Attempted adapter s (false, windows) e = record {
    name = refl;
    windows = sym (ap (λ p. p.1) e);
    refused = λ h. (refl, refl);
    granted = λ h. absurd (cc);
  }
  after_acquire-Attempted adapter s (true, windows) e =
      let end = adapter.send n s.world in
      record {
        name = after_send_name adapter.name windows end.0 end.1;
        windows = sym (ap (λ p. p.1) e);
        refused = λ h. absurd (cc);
        granted = λ h. (refl, after_send-sent adapter.name windows end.0 end.1);
      }

  pub try_adapter-Attempted :
      (adapter : Adapter W) (s : State W)
      → Attempted adapter s
          (try_adapter limits clock adapter n s).0
          (try_adapter limits clock adapter n s).1
  unfolding try_adapter rate_key
  try_adapter-Attempted adapter s = after_acquire-Attempted adapter s (permit adapter s) refl

  Begun-next :
      (adapter : Adapter W) (chain : List (Adapter W)) (a : AdapterAttempt)
      (attempts : List AdapterAttempt) (s s1 s2 : State W)
      → Attempted adapter s a s1
      → Begun chain s1 attempts s2
      → Begun (adapter ∷ chain) s (a ∷ attempts) s2
  Begun-next adapter chain a attempts s s1 s2 first (tried, left, e, rest) = (
    adapter ∷ tried,
    left,
    ap (λ xs. adapter ∷ xs) e,
    next adapter tried a attempts s s1 s2 first rest,
  )

  run_cascade-Begun :
      (chain : List (Adapter W)) (s : State W)
      → Begun chain s (run_cascade limits clock chain n s).0 (run_cascade limits clock chain n s).1
  unfolding run_cascade
  run_cascade-Begun [] s = ([], [], refl, done s)
  run_cascade-Begun (adapter ∷ chain) s =
      let tried = try_adapter limits clock adapter n s in
      let first = try_adapter-Attempted adapter s in
      elim (Bool-cases tried.0.succeeded) [
        | inl good ↦
            rw (good, run_cascade)
              (
                adapter ∷ [],
                chain,
                refl,
                next adapter [] tried.0 [] s tried.1 tried.1 first (done tried.1),
              )
        | inr bad ↦
            rw (bad, run_cascade)
              (Begun-next adapter chain tried.0 (run_cascade limits clock chain n tried.1).0 s
                tried.1 (run_cascade limits clock chain n tried.1).1 first
                (run_cascade-Begun chain tried.1))
      ]

  run_parallel-Traced :
      (chain : List (Adapter W)) (s : State W)
      → Traced chain s
          (run_parallel limits clock chain n s).0
          (run_parallel limits clock chain n s).1
  unfolding run_parallel
  run_parallel-Traced [] s = done s
  run_parallel-Traced (adapter ∷ chain) s =
      let tried = try_adapter limits clock adapter n s in
      let rest = run_parallel limits clock chain n tried.1 in
      next adapter chain tried.0 rest.0 s tried.1 rest.1 (try_adapter-Attempted adapter s)
        (run_parallel-Traced chain tried.1)

  pub run_plan-Begun :
      (primary fallbacks : List (Adapter W)) (parallel : Bool) (s : State W)
      → let plan : Plan W = record {
        primary = primary;
        fallbacks = fallbacks;
        parallel = parallel;
      } in
        Begun
          (primary ++ fallbacks)
          s
          (run_plan limits clock plan n s).0
          (run_plan limits clock plan n s).1
  run_plan-Begun primary fallbacks true s =
      (primary, fallbacks, refl, run_parallel-Traced primary s)
  run_plan-Begun primary fallbacks false s = run_cascade-Begun (primary ++ fallbacks) s
