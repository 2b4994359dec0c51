-- ===== src/Orchestrator/Breaker/Interleaving.antt =====
-- Concurrent calls to one target of breaker.py, as interleavings of `enter` and `leave`.
use investment_intelligence.Prelude.{ℕ, suc, ◌≤◌, ◌<◌, ◌≡◌, refl, ◌≢◌, true, arith}
use investment_intelligence.Orchestrator.Breaker.{
  closed, half_open, BreakerState, new_state, Config, Entry, refused, probing, passing, Ending,
  cancelled, enter, leave, transition,
}

-- The breaker, and the calls that wait at `await fn()`.
pub record Sys : Type 0 where
  pub st : BreakerState
  pub probes : ℕ
  pub passes : ℕ

abbrev pub start : Sys
start = record { st = new_state; probes = 0; passes = 0 }

abbrev wait_for : Entry → BreakerState → Sys → Sys
wait_for refused st s = record s { st = st }
wait_for probing st s = record s { st = st; probes = suc s.probes }
wait_for passing st s = record s { st = st; passes = suc s.passes }

-- A call arrives.
abbrev pub arrive : Config → ℕ → Sys → Sys
arrive cfg now s = let (entry, st, _) = enter cfg now s.st in wait_for entry st s

pub data Step (cfg : Config) (s : Sys) : Sys → Type 0 where
  arrives : (now : ℕ) → Step cfg s (arrive cfg now s)
  probe_ends :
      (now n : ℕ) (ending : Ending)
      → s.probes ≡ suc n
      → Step cfg s (record s { st = (leave cfg now probing ending s.st).0; probes = n })
  pass_ends :
      (now n : ℕ) (ending : Ending)
      → s.passes ≡ suc n
      → Step cfg s (record s { st = (leave cfg now passing ending s.st).0; passes = n })

pub data Reach (cfg : Config) (s : Sys) : Sys → Type 0 where
  here : Reach cfg s s
  next : {t u : Sys} → Reach cfg s t → Step cfg t u → Reach cfg s u

-- The flag is set while a probe is out.
pub record IsGuarded (s : Sys) : Type 0 where
  pub one : s.probes ≤ 1
  pub flagged : 0 < s.probes → s.st.half_open_inflight ≡ true

module _ (cfg : Config) where
  arrive-IsGuarded : (now : ℕ) (s : Sys) → IsGuarded s → IsGuarded (arrive cfg now s)
  unfolding enter transition
  arrive-IsGuarded now s h = ground arith

  probe_ends-IsGuarded :
      (now n : ℕ) (ending : Ending) (s : Sys)
      → s.probes ≡ suc n
      → IsGuarded s
      → IsGuarded (record s { st = (leave cfg now probing ending s.st).0; probes = n })
  probe_ends-IsGuarded now n ending s e h = ground arith

  pass_ends-IsGuarded :
      (now n : ℕ) (ending : Ending) (s : Sys)
      → IsGuarded s
      → IsGuarded (record s { st = (leave cfg now passing ending s.st).0; passes = n })
  unfolding leave
  pass_ends-IsGuarded now n ending s h = ground arith

  Step-IsGuarded : {s t : Sys} → Step cfg s t → IsGuarded s → IsGuarded t
  Step-IsGuarded {s} (arrives now) h = arrive-IsGuarded now s h
  Step-IsGuarded {s} (probe_ends now n ending e) h = probe_ends-IsGuarded now n ending s e h
  Step-IsGuarded {s} (pass_ends now n ending e) h = pass_ends-IsGuarded now n ending s h

  Reach-IsGuarded : {s t : Sys} → IsGuarded s → Reach cfg s t → IsGuarded t
  Reach-IsGuarded g here = g
  Reach-IsGuarded g (next r step) = Step-IsGuarded step (Reach-IsGuarded g r)

-- Whatever calls arrive, end or are cancelled, in any order, at most one probe is out at a time,
-- and the flag `half_open_inflight` is set while it is.
pub at_most_one_probe :
    (cfg : Config) (t : Sys)
    → Reach cfg start t
    → (t.probes ≤ 1) × (0 < t.probes → t.st.half_open_inflight ≡ true)
at_most_one_probe cfg t r =
    let h =
      Reach-IsGuarded cfg (record { one = omega arith; flagged = λ p. absurd (omega arith) }) r in
    (h.one, h.flagged)

-- The flag is set, no probe is out to clear it, and the breaker is not closed.
pub record IsStuck (s : Sys) : Type 0 where
  pub no_probe : s.probes ≡ 0
  pub flagged : s.st.half_open_inflight ≡ true
  pub not_closed : s.st.state ≢ closed

module _ (cfg : Config) where
  Step-IsStuck : {s t : Sys} → Step cfg s t → IsStuck s → IsStuck t
  unfolding enter leave
  Step-IsStuck (arrives now) h = ground arith
  Step-IsStuck (probe_ends now n ending e) h = absurd (omega arith)
  Step-IsStuck (pass_ends now n ending e) h = ground arith

  Reach-IsStuck : {s t : Sys} → IsStuck s → Reach cfg s t → IsStuck t
  Reach-IsStuck g here = g
  Reach-IsStuck g (next r step) = Step-IsStuck step (Reach-IsStuck g r)

  enter-IsStuck : (now : ℕ) (s : Sys) → IsStuck s → (enter cfg now s.st).0 ≡ refused
  unfolding enter transition
  enter-IsStuck now s h = ground arith

-- A half-open breaker whose probe is cancelled never lets a call through again: after any further
-- arrivals and endings, at any time, the next call is refused.
pub cancelled_probe_blocks :
    (cfg : Config) (now later : ℕ) (s t : Sys)
    → s.st.state ≡ half_open
    → s.probes ≡ 1
    → s.st.half_open_inflight ≡ true
    → Reach cfg (record s { st = (leave cfg now probing cancelled s.st).0; probes = 0 }) t
    → (enter cfg later t.st).0 ≡ refused
unfolding leave
cancelled_probe_blocks cfg now later s t half one flag r = enter-IsStuck cfg later t (
    Reach-IsStuck cfg (record { no_probe = refl; flagged = flag; not_closed = λ e. ground arith })
      r)
