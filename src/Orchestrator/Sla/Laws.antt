-- ===== src/Orchestrator/Sla/Laws.antt =====
-- What a node that runs under a hard timeout in sla.py can report.
use investment_intelligence.Prelude.{
  ℕ, ◌+◌, ◌≤◌, ◌<◌, ◌≡◌, ◌⊎◌, inl, inr, refl, true, false, Option, none, some, String, arith,
  Bool-cases, ltb,
}
use investment_intelligence.Prelude.Outcome.{Result, ok, err}
use investment_intelligence.Orchestrator.Sla.{
  Ending, returned, raised_timeout, raised, Run, Node, nothing, value, stub, Finish, Alerter,
  Escaped, hard_timeout, settle, time_out, after_alert, bounded, with_sla_timeout,
}

-- A node's end by the cancellation, or by a TimeoutError of its own.
abbrev pub IsTimeout : {O : Type 0} → Option (Ending O) → Type 0
IsTimeout ending = (ending ≡ none) ⊎ ((e : String) × (ending ≡ some (raised_timeout e)))

module _ {S O : Type 0} where
  -- How a run under the hard timeout ends, when, and the state then: by itself up to the timeout, and
  -- else only when the cancelled node has ended.
  pub data Ends (hard : ℕ) (run : Run S O) : Option (Ending O) → ℕ → S → Type 0 where
    in_time : run.duration ≤ hard → Ends hard run (some run.ending) run.duration run.after
    cancelled :
        hard < run.duration
        → Ends hard run run.cancel_ending (hard + run.cancel_took) run.after_cancel

  -- The report of a timeout: the stub of the node's name.
  abbrev pub Stubbed : Node S O → ℕ → S → Finish S O → Type 0
  Stubbed node took state f =
      (f.ok ≡ false)
      × (f.output ≡ stub node.name)
      × (f.error ≡ some node.name)
      × (f.timed_out ≡ true)
      × (f.took ≡ took)
      × (f.state ≡ state)

  -- What the call comes to after an ending at a time and in a state.
  pub data Comes (alert : Option (Alerter S)) (node : Node S O) (ending : Option (Ending O))
      (took : ℕ) (state : S) : Result (Escaped S) (Finish S O) → Type 0 where
    good :
        (o : O) (f : Finish S O)
        → ending ≡ some (returned o)
        → (f.ok ≡ true)
          × (f.output ≡ value o)
          × (f.timed_out ≡ false)
          × (f.took ≡ took)
          × (f.state ≡ state)
        → Comes alert node ending took state (ok f)
    bad :
        (e : String) (f : Finish S O)
        → ending ≡ some (raised e)
        → (f.ok ≡ false)
          × (f.output ≡ nothing)
          × (f.error ≡ some e)
          × (f.timed_out ≡ false)
          × (f.took ≡ took)
          × (f.state ≡ state)
        → Comes alert node ending took state (ok f)
    unheard :
        (f : Finish S O)
        → IsTimeout ending
        → alert ≡ none
        → Stubbed node took state f
        → Comes alert node ending took state (ok f)
    told :
        (on_alert : Alerter S) (more : ℕ) (state' : S) (f : Finish S O)
        → IsTimeout ending
        → alert ≡ some on_alert
        → on_alert node.name state ≡ (ok tt, (more, state'))
        → Stubbed node (took + more) state' f
        → Comes alert node ending took state (ok f)
    alert_raised :
        (on_alert : Alerter S) (x : Escaped S) (more : ℕ)
        → IsTimeout ending
        → alert ≡ some on_alert
        → on_alert node.name state ≡ (err x.error, (more, x.state))
        → x.took ≡ took + more
        → Comes alert node ending took state (err x)

  pub record Reported (alert : Option (Alerter S)) (node : Node S O) (hard : ℕ) (run : Run S O)
      (r : Result (Escaped S) (Finish S O)) : Type 0 where
    pub ending : Option (Ending O)
    pub took : ℕ
    pub state : S
    pub ends : Ends hard run ending took state
    pub comes : Comes alert node ending took state r

  module _ (node : Node S O) where
    after_alert-Comes :
        (on_alert : Alerter S) (ending : Option (Ending O)) (took : ℕ) (state : S)
        (said : Result String (Unit {0}) × (ℕ × S))
        → IsTimeout ending
        → on_alert node.name state ≡ said
        → Comes (some on_alert) node ending took state (after_alert node took said)
    after_alert-Comes on_alert ending took state (ok u, (more, state')) late said =
        told on_alert more state' _ late refl said (refl, refl, refl, refl, refl, refl)
    after_alert-Comes on_alert ending took state (err e, (more, state')) late said =
        alert_raised on_alert (record { error = e; took = took + more; state = state' }) more late
          refl said refl

    time_out-Comes :
        (alert : Option (Alerter S)) (ending : Option (Ending O)) (took : ℕ) (state : S)
        → IsTimeout ending
        → Comes alert node ending took state (time_out alert node took state)
    time_out-Comes none ending took state late =
        unheard _ late refl (refl, refl, refl, refl, refl, refl)
    time_out-Comes (some on_alert) ending took state late =
        after_alert-Comes on_alert ending took state (on_alert node.name state) late refl

    settle-Comes :
        (alert : Option (Alerter S)) (ending : Option (Ending O)) (took : ℕ) (state : S)
        → Comes alert node ending took state (settle alert node ending took state)
    settle-Comes alert none took state = time_out-Comes alert none took state (inl refl)
    settle-Comes alert (some (raised_timeout e)) took state =
        time_out-Comes alert (some (raised_timeout e)) took state (inr (e, refl))
    settle-Comes alert (some (returned o)) took state = good o _ refl (refl, refl, refl, refl, refl)
    settle-Comes alert (some (raised e)) took state =
        bad e _ refl (refl, refl, refl, refl, refl, refl)

    bounded-Reported :
        (alert : Option (Alerter S)) (hard : ℕ) (run : Run S O)
        → Reported alert node hard run (bounded alert node hard run)
    bounded-Reported alert hard run = elim (Bool-cases (ltb hard run.duration)) [
      | inl late ↦ rw late (record {
        ending = run.cancel_ending;
        took = hard + run.cancel_took;
        state = run.after_cancel;
        ends = cancelled (ground arith);
        comes = settle-Comes alert _ _ _;
      })
      | inr early ↦ rw early (record {
        ending = some run.ending;
        took = run.duration;
        state = run.after;
        ends = in_time (ground arith);
        comes = settle-Comes alert _ _ _;
      })
    ]

    -- Under a hard timeout a node runs to its end if it ends in time, and else is cancelled and waited
    -- for. If it then returned, even when cancelled, the call is ok with its value; if it raised, the
    -- call is not ok and has no output; and if it gave in to the cancellation or raised a TimeoutError of
    -- its own, `on_alert`, if it is given, is called once, and the report is the stub of the node's name,
    -- unless `on_alert` raises: its exception leaves the call. The time is that of the node, the time
    -- after the cancellation counted, and of `on_alert`; the state is the one that these leave.
    pub with_sla_timeout-Reported :
        (alert : Option (Alerter S)) (hard : ℕ) (state : S)
        → hard_timeout node ≡ some hard
        → Reported alert node hard (node.fn state) (with_sla_timeout alert node state)
    unfolding with_sla_timeout
    with_sla_timeout-Reported alert hard state h =
        rw (h, with_sla_timeout) (bounded-Reported alert hard (node.fn state))
