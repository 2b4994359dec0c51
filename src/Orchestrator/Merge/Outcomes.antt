-- ===== src/Orchestrator/Merge/Outcomes.antt =====
-- How `merge` of advice_merger.py ends, and what it has done by then.
use investment_intelligence.Prelude.{
  ℕ, ◌≡◌, refl, ◌⊎◌, inl, inr, Bool, true, false, Option, none, some, List, String, Bool-cases,
  Option-cases,
}
use investment_intelligence.Prelude.Keys.{String-keys}
use investment_intelligence.Prelude.Dict.{insert}
use investment_intelligence.Prelude.Outcome.{Result, ok, err}
use investment_intelligence.Orchestrator.Merge.{
  MergeResult, no_result, PerAgentRateLimit, Payload, Alert, AlertCode, QuarantineReason,
  Quarantine, State, MergeError, write_failed, call_raised, agent_of, target_of, quarantine_payload,
  after_call, allow, canonical_of, reject, merge_allowed, merge, alert_of, advice_rate_limited,
  advice_validation_failed, advice_normalize_failed, invalid,
}

bool_absurd : {b : Bool} → b ≡ true → b ≡ false → ⊥
bool_absurd h k = cc

module _ {P E : Type 0} (p : Payload P) (reason : QuarantineReason) (q : Quarantine P) where
  left_out : q.writable ≡ false → quarantine_payload {P = P} {E = E} p reason q ≡ (ok none, q)
  unfolding quarantine_payload
  left_out shut = rw shut refl

  put_in :
      q.writable ≡ true
      → q.can_write (target_of p q) ≡ true
      → quarantine_payload {P = P} {E = E} p reason q ≡ (
        ok (some (target_of p q)),
        record q { files = insert (target_of p q) (reason, p) q.files },
      )
  unfolding quarantine_payload
  put_in open_ can = simp (open_, can)

  fails :
      q.writable ≡ true
      → q.can_write (target_of p q) ≡ false
      → quarantine_payload {P = P} {E = E} p reason q ≡ (err write_failed, q)
  unfolding quarantine_payload
  fails open_ cannot = simp (open_, cannot)

module _ {P W E : Type 0} (append_fn : Payload P → W → Result E (Unit {0}) × W)
    (alert_fn : Alert → W → Result E (Unit {0}) × W) (is_valid : Payload P → Bool) where
  -- What the limiter keeps after the call.
  abbrev pub limit_after : ℕ → Payload P → State P W → PerAgentRateLimit
  limit_after now p s = (allow (agent_of p) now s.limit).1

  -- Why an advice is put aside, the code of the alert about it, the path that the alert tells, and the
  -- reason in its file.
  pub data Cause (p : Payload P) (q : Quarantine P)
      : AlertCode → Option String → QuarantineReason → Type 0 where
    not_valid :
        (path : Option String)
        → is_valid p ≡ false
        → (q.writable ≡ true → path ≡ some (target_of p q))
        → (q.writable ≡ false → path ≡ none)
        → Cause p q advice_validation_failed path invalid
    not_canonical :
        is_valid p ≡ true
        → canonical_of p.ticker ≡ none
        → Cause p q advice_normalize_failed none QuarantineReason.normalizer

  -- The quarantine takes the payload under its name, if its directory can be made, and else nothing.
  pub record Filed (p : Payload P) (reason : QuarantineReason) (q q' : Quarantine P) : Type 0 where
    pub filed :
        q.writable ≡ true → q' ≡ record q { files = insert (target_of p q) (reason, p) q.files }
    pub unfiled : q.writable ≡ false → q' ≡ q

  -- The advice passed the limit and the validation, and `append_fn` was asked once, for its canonical
  -- form; `answer` is what it said.
  pub record Appended (now : ℕ) (p : Payload P) (s : State P W) (answer : Result E (Unit {0}))
      (s' : State P W) : Type 0 where
    pub allowed : (allow (agent_of p) now s.limit).0 ≡ true
    pub valid : is_valid p ≡ true
    pub ticker : List ℕ
    pub canonical : canonical_of p.ticker ≡ some ticker
    pub appended : append_fn (record p { ticker = some ticker }) s.world ≡ (answer, s'.world)
    pub kept : s'.quarantine ≡ s.quarantine

  -- It passed the limit, and was put aside. One alert was sent, and nothing appended.
  pub record Quarantined (now : ℕ) (p : Payload P) (s : State P W) (answer : Result E (Unit {0}))
      (s' : State P W) : Type 0 where
    pub allowed : (allow (agent_of p) now s.limit).0 ≡ true
    pub code : AlertCode
    pub path : Option String
    pub reason : QuarantineReason
    pub cause : Cause p s.quarantine code path reason
    pub files : Filed p reason s.quarantine s'.quarantine
    pub told : alert_fn (alert_of code p path) s.world ≡ (answer, s'.world)

  -- The agent has reached its limit. The alert of that was sent, and nothing appended or filed.
  pub record RateLimited (now : ℕ) (p : Payload P) (s : State P W) (answer : Result E (Unit {0}))
      (s' : State P W) : Type 0 where
    pub refused : (allow (agent_of p) now s.limit).0 ≡ false
    pub kept : s'.quarantine ≡ s.quarantine
    pub told : alert_fn (alert_of advice_rate_limited p none) s.world ≡ (answer, s'.world)

  -- It was to be put aside, and its file could not be written: nothing was told and nothing kept.
  pub record Unwritten (now : ℕ) (p : Payload P) (s s' : State P W) : Type 0 where
    pub allowed : (allow (agent_of p) now s.limit).0 ≡ true
    pub bad : (is_valid p ≡ false) ⊎ (canonical_of p.ticker ≡ none)
    pub writable : s.quarantine.writable ≡ true
    pub unwritten : s.quarantine.can_write (target_of p s.quarantine) ≡ false
    pub kept : s'.quarantine ≡ s.quarantine
    pub quiet : s'.world ≡ s.world

  pub Ended : ℕ → Payload P → State P W → Result (MergeError E) MergeResult → State P W → Type 0
  Ended now p s (ok r) s' =
      ((r ≡ record no_result { accepted = 1 }) × Appended now p s (ok tt) s')
      ⊎ (((r ≡ record no_result { quarantined = 1 }) × Quarantined now p s (ok tt) s')
          ⊎ ((r ≡ record no_result { rate_limited = 1 }) × RateLimited now p s (ok tt) s'))
  Ended now p s (err write_failed) s' = Unwritten now p s s'
  Ended now p s (err (call_raised e)) s' =
      Appended now p s (err e) s'
      ⊎ (Quarantined now p s (err e) s' ⊎ RateLimited now p s (err e) s')

  pub record Merged (now : ℕ) (p : Payload P) (s : State P W)
      (m : Result (MergeError E) MergeResult × State P W) : Type 0 where
    pub limit : m.1.limit ≡ limit_after now p s
    pub ended : Ended now p s m.0 m.1

  module _ (now : ℕ) (p : Payload P) (s : State P W) where
    told_limited :
        (c : Result E (Unit {0}) × W)
        → (allow (agent_of p) now s.limit).0 ≡ false
        → alert_fn (alert_of advice_rate_limited p none) s.world ≡ c
        → Merged now p s (
            after_call
              (record no_result { rate_limited = 1 })
              c
              (record s { limit = limit_after now p s }))
    told_limited (ok u, w) full called = record {
      limit = refl;
      ended =
          unfold Ended in inr (inr (refl, record { refused = full; kept = refl; told = called }));
    }
    told_limited (err e, w) full called = record {
      limit = refl;
      ended = unfold Ended in inr (inr (record { refused = full; kept = refl; told = called }));
    }

    appended_now :
        (t : List ℕ) (c : Result E (Unit {0}) × W)
        → (allow (agent_of p) now s.limit).0 ≡ true
        → is_valid p ≡ true
        → canonical_of p.ticker ≡ some t
        → append_fn (record p { ticker = some t }) s.world ≡ c
        → Merged now p s (
            after_call
              (record no_result { accepted = 1 })
              c
              (record s { limit = limit_after now p s }))
    appended_now t (ok u, w) room valid canon called = record {
      limit = refl;
      ended =
          unfold Ended in
          inl (
            refl,
            record {
              allowed = room;
              valid = valid;
              ticker = t;
              canonical = canon;
              appended = called;
              kept = refl;
            },
          );
    }
    appended_now t (err e, w) room valid canon called = record {
      limit = refl;
      ended =
          unfold Ended in
          inl (record {
            allowed = room;
            valid = valid;
            ticker = t;
            canonical = canon;
            appended = called;
            kept = refl;
          });
    }

    rejected_now :
        (code : AlertCode) (path : Option String) (reason : QuarantineReason) (q : Quarantine P)
        (c : Result E (Unit {0}) × W)
        → (allow (agent_of p) now s.limit).0 ≡ true
        → Cause p s.quarantine code path reason
        → Filed p reason s.quarantine q
        → alert_fn (alert_of code p path) s.world ≡ c
        → Merged now p s (
            after_call
              (record no_result { quarantined = 1 })
              c
              (record s { limit = limit_after now p s; quarantine = q }))
    rejected_now code path reason q (ok u, w) room cause files called = record {
      limit = refl;
      ended =
          unfold Ended in
          inr (
            inl (
              refl,
              record {
                allowed = room;
                code = code;
                path = path;
                reason = reason;
                cause = cause;
                files = files;
                told = called;
              },
            ));
    }
    rejected_now code path reason q (err e, w) room cause files called = record {
      limit = refl;
      ended =
          unfold Ended in
          inr (
            inl (record {
              allowed = room;
              code = code;
              path = path;
              reason = reason;
              cause = cause;
              files = files;
              told = called;
            }));
    }

    not_written :
        (allow (agent_of p) now s.limit).0 ≡ true
        → (is_valid p ≡ false) ⊎ (canonical_of p.ticker ≡ none)
        → s.quarantine.writable ≡ true
        → s.quarantine.can_write (target_of p s.quarantine) ≡ false
        → Merged now p s (err write_failed, record s { limit = limit_after now p s })
    not_written room bad open_ cannot = record {
      limit = refl;
      ended =
          unfold Ended in
          record {
            allowed = room;
            bad = bad;
            writable = open_;
            unwritten = cannot;
            kept = refl;
            quiet = refl;
          };
    }

    invalid-Merged :
        (allow (agent_of p) now s.limit).0 ≡ true
        → is_valid p ≡ false
        → Merged now p s (
            reject alert_fn advice_validation_failed invalid p
              (record s { limit = limit_after now p s }))
    unfolding reject
    invalid-Merged room bad = elim (Bool-cases s.quarantine.writable) [
      | inr shut ↦ rw (left_out p invalid s.quarantine shut) (
          rejected_now advice_validation_failed none invalid s.quarantine (alert_fn _ s.world) room
            (not_valid none bad (λ h. absurd (bool_absurd h shut)) (λ h. refl))
            (record { filed = λ h. absurd (bool_absurd h shut); unfiled = λ h. refl }) refl)
      | inl open_ ↦ elim (Bool-cases (s.quarantine.can_write (target_of p s.quarantine))) [
        | inl can ↦ rw (put_in p invalid s.quarantine open_ can) (
            rejected_now advice_validation_failed (some (target_of p s.quarantine)) invalid _
              (alert_fn _ s.world) room
              (not_valid (some (target_of p s.quarantine)) bad (λ h. refl)
                (λ h. absurd (bool_absurd open_ h)))
              (record { filed = λ h. refl; unfiled = λ h. absurd (bool_absurd open_ h) }) refl)
        | inr cannot ↦
            rw (fails p invalid s.quarantine open_ cannot) (not_written room (inl bad) open_ cannot)
      ]
    ]

    no_ticker-Merged :
        (allow (agent_of p) now s.limit).0 ≡ true
        → is_valid p ≡ true
        → canonical_of p.ticker ≡ none
        → Merged now p s (
            reject alert_fn advice_normalize_failed QuarantineReason.normalizer p
              (record s { limit = limit_after now p s }))
    unfolding reject
    no_ticker-Merged room valid bad =
        let why = QuarantineReason.normalizer in
        elim (Bool-cases s.quarantine.writable) [
          | inr shut ↦ rw (left_out p why s.quarantine shut) (
              rejected_now advice_normalize_failed none why s.quarantine (alert_fn _ s.world) room
                (not_canonical valid bad)
                (record { filed = λ h. absurd (bool_absurd h shut); unfiled = λ h. refl }) refl)
          | inl open_ ↦ elim (Bool-cases (s.quarantine.can_write (target_of p s.quarantine))) [
            | inl can ↦ rw (put_in p why s.quarantine open_ can) (
                rejected_now advice_normalize_failed none why _ (alert_fn _ s.world) room
                  (not_canonical valid bad)
                  (record { filed = λ h. refl; unfiled = λ h. absurd (bool_absurd open_ h) }) refl)
            | inr cannot ↦
                rw (fails p why s.quarantine open_ cannot) (not_written room (inr bad) open_ cannot)
          ]
        ]

    allowed-Merged :
        (allow (agent_of p) now s.limit).0 ≡ true
        → Merged now p s
            (merge_allowed append_fn alert_fn is_valid p (record s { limit = limit_after now p s }))
    unfolding merge_allowed
    allowed-Merged room = elim (Bool-cases (is_valid p)) [
      | inr bad ↦ rw bad (invalid-Merged room bad)
      | inl valid ↦ elim (Option-cases (canonical_of p.ticker)) [
        | inl bad ↦ rw (valid, bad) (no_ticker-Merged room valid bad)
        | inr found ↦
            rw (valid, found.1) (appended_now found.0 (append_fn _ s.world) room valid found.1 refl)
      ]
    ]

  -- However a call of `merge` ends, the limiter keeps what it answered with. A call that returns counts
  -- its advice once, as one of three: an accepted one passed the limit and the validation, and its
  -- canonical form was appended; one that is not valid or has no canonical ticker is filed with that
  -- reason, if the quarantine can be made, and the alert of its kind is sent, which tells the path for
  -- one that is not valid; for one of an agent at its limit that alert is sent and nothing else done.
  -- Where it raises, the one call of a callable that its case makes did, or the file could not be
  -- written, and then nothing was sent.
  pub merge-Merged :
      (now : ℕ) (p : Payload P) (s : State P W)
      → Merged now p s (merge append_fn alert_fn is_valid now p s)
  unfolding merge
  merge-Merged now p s = elim (Bool-cases (allow (agent_of p) now s.limit).0) [
    | inl room ↦ rw room (allowed-Merged now p s room)
    | inr full ↦ rw full (told_limited now p s (alert_fn _ s.world) full refl)
  ]
