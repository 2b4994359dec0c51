-- ===== src/Orchestrator/Merge.antt =====
-- apps/orchestrator/orchestrator/merge/advice_merger.py: advice is validated, normalised and appended
-- to the ledger, or quarantined, or refused by the limit of its agent.
-- Times are milliseconds. `append_fn`, `alert_fn` and the time of `now_fn` are what the merger is given.
pub mod Normalizer
pub mod Limit
pub mod Outcomes
mod Tests
use Prim.Native.String.{◌++◌ as str_append}
use investment_intelligence.Prelude.{
  ℕ, suc, ◌+◌, Bool, true, false, not, Option, none, some, List, [], ◌∷◌, ◌++◌, String, length, ltb,
  leb, if◌then◌else◌, keep_if,
}
use investment_intelligence.Prelude.Keys.{String-keys}
use investment_intelligence.Prelude.Decimal.{show}
use investment_intelligence.Prelude.Dict.{Dict, lookup, insert}
use investment_intelligence.Prelude.Outcome.{Result, ok, err}
use Normalizer.{TickerError, not_canonical, canonical_ticker}

abbrev pub default_per_agent_rate_limit : ℕ
default_per_agent_rate_limit = 10

pub record MergeResult : Type 0 where
  pub accepted : ℕ
  pub quarantined : ℕ
  pub rate_limited : ℕ

abbrev pub no_result : MergeResult
no_result = record { accepted = 0; quarantined = 0; rate_limited = 0 }

-- `_PerAgentRateLimit`
pub record PerAgentRateLimit : Type 0 where
  pub max : ℕ
  pub buckets : Dict String (List ℕ)

abbrev pub history_of : Option (List ℕ) → List ℕ
history_of none = []
history_of (some h) = h

-- `[ts for ts in history if ts >= cutoff]`, with the cutoff a minute before `now`.
pub recent : ℕ → List ℕ → List ℕ
recent now history = keep_if (λ ts. leb now (ts + 60_000)) history

unfoldable pub allow : String → ℕ → PerAgentRateLimit → Bool × PerAgentRateLimit
allow agent now l =
    let kept = recent now (history_of (lookup agent l.buckets)) in
    if leb l.max (length kept)
    then (false, record l { buckets = insert agent kept l.buckets })
    else (true, record l { buckets = insert agent (kept ++ now ∷ []) l.buckets })

-- What the merger reads of the payload, and the rest of it. An id or an agent that is absent is none.
pub record Payload (P : Type 0) : Type 0 where
  pub id : Option String
  pub agent : Option String
  pub ticker : Option (List ℕ)
  pub rest : P

pub data AlertCode : Type 0 where
  advice_rate_limited advice_validation_failed advice_normalize_failed : AlertCode

pub record Alert : Type 0 where
  pub alert_code : AlertCode
  pub agent : String
  pub advice_id : Option String
  pub quarantined_at : Option String

pub data QuarantineReason : Type 0 where
  invalid normalizer : QuarantineReason

-- `QUARANTINE_DIR`: whether it can be made, which of its files can be written, and the files.
pub record Quarantine (P : Type 0) : Type 0 where
  pub writable : Bool
  pub can_write : String → Bool
  pub files : Dict String (QuarantineReason × Payload P)

pub record State (P W : Type 0) : Type 0 where
  pub limit : PerAgentRateLimit
  pub quarantine : Quarantine P
  pub world : W

-- What `merge` raises: the error of a file, or what a callable raised.
pub data MergeError (E : Type 0) : Type 0 where
  write_failed : MergeError E
  call_raised : E → MergeError E

abbrev pub agent_of : {P : Type 0} → Payload P → String
agent_of p = elim p.agent [ none ↦ "<unknown>" | some a ↦ a ]

-- `payload.get("id") or f"unknown-{…}"`
abbrev pub name_of : Option String → ℕ → String
name_of none n = str_append "unknown-" (show n)
name_of (some String.[]) n = str_append "unknown-" (show n)
name_of (some id) n = id

abbrev pub target_of : {P : Type 0} → Payload P → Quarantine P → String
target_of p q = str_append (name_of p.id (length q.files)) ".json"

abbrev pub canonical_of : Option (List ℕ) → Option (List ℕ)
canonical_of none = none
canonical_of (some raw) = elim (canonical_ticker raw) [ ok t ↦ some t | err e ↦ none ]

abbrev pub alert_of : {P : Type 0} → AlertCode → Payload P → Option String → Alert
alert_of c p path = record {
  alert_code = c;
  agent = agent_of p;
  advice_id = p.id;
  quarantined_at = path;
}

-- The alert about a rejected payload, after the quarantine. Only the first code tells the path.
abbrev pub alert_path : AlertCode → Option String → Option String
alert_path advice_validation_failed path = path
alert_path _ path = none

module _ {P E : Type 0} where
  -- `_quarantine`
  pub quarantine_payload :
      Payload P
      → QuarantineReason
      → Quarantine P
      → Result (MergeError E) (Option String) × Quarantine P
  quarantine_payload p reason q =
      if not q.writable
      then (ok none, q)
      else if q.can_write (target_of p q)
      then (
        ok (some (target_of p q)),
        record q { files = insert (target_of p q) (reason, p) q.files },
      )
      else (err write_failed, q)

  abbrev pub after_call :
      {W : Type 0}
      → MergeResult
      → Result E (Unit {0}) × W
      → State P W
      → Result (MergeError E) MergeResult × State P W
  after_call r (ok _, w) s = (ok r, record s { world = w })
  after_call r (err e, w) s = (err (call_raised e), record s { world = w })

  module _ {W : Type 0} (alert_fn : Alert → W → Result E (Unit {0}) × W) where
    abbrev pub alert_rejected :
        AlertCode
        → Payload P
        → Result (MergeError E) (Option String) × Quarantine P
        → State P W
        → Result (MergeError E) MergeResult × State P W
    alert_rejected c p (err e, q) s = (err e, record s { quarantine = q })
    alert_rejected c p (ok path, q) s =
        after_call (record no_result { quarantined = 1 })
          (alert_fn (alert_of c p (alert_path c path)) s.world) (record s { quarantine = q })

    pub reject :
        AlertCode
        → QuarantineReason
        → Payload P
        → State P W
        → Result (MergeError E) MergeResult × State P W
    reject c reason p s = alert_rejected c p (quarantine_payload p reason s.quarantine) s

  module _ {W : Type 0} (append_fn : Payload P → W → Result E (Unit {0}) × W)
      (alert_fn : Alert → W → Result E (Unit {0}) × W) (is_valid : Payload P → Bool) where
    abbrev append_canonical :
        Option (List ℕ) → Payload P → State P W → Result (MergeError E) MergeResult × State P W
    append_canonical none p s =
        reject alert_fn advice_normalize_failed QuarantineReason.normalizer p s
    append_canonical (some t) p s =
        after_call (record no_result { accepted = 1 })
          (append_fn (record p { ticker = some t }) s.world) s

    -- The rest of `merge`, after the limit.
    pub merge_allowed : Payload P → State P W → Result (MergeError E) MergeResult × State P W
    merge_allowed p s =
        if is_valid p
        then append_canonical (canonical_of p.ticker) p s
        else reject alert_fn advice_validation_failed invalid p s

    pub merge : ℕ → Payload P → State P W → Result (MergeError E) MergeResult × State P W
    merge now p s =
        let (allowed, limit) = allow (agent_of p) now s.limit in
        let s' = record s { limit = limit } in
        if allowed
        then merge_allowed p s'
        else after_call (record no_result { rate_limited = 1 })
            (alert_fn (alert_of advice_rate_limited p none) s'.world) s'
