-- ===== src/Orchestrator/Idempotency.antt =====
-- apps/orchestrator/orchestrator/state/idempotency.py: a run of a graph is claimed once in a window.
-- A runner acts on the program's state and may raise.
pub mod Window
pub mod Key
mod Tests
use investment_intelligence.Prelude.{ℕ, ◌*◌, Bool, true, false, Option, some, String, if◌then◌else◌}
use Prim.Native.String.{◌++◌ as str_append}
use investment_intelligence.Prelude.Outcome.{Result, ok, err}
use investment_intelligence.Orchestrator.Backend.{Backend}

-- Seconds.
abbrev pub default_ttl_s : ℕ
default_ttl_s = 24 * 3600

pub idempotency_key : String → String → String → String
idempotency_key dag_id trigger_kind trigger_at =
    str_append "orch:idem:"
      (str_append dag_id (str_append ":" (str_append trigger_kind (str_append ":" trigger_at))))

-- The store, and what a runner acts on.
pub record World (S W : Type 0) : Type 0 where
  pub store : S
  pub world : W

pub record Run : Type 0 where
  pub dag_id : String
  pub trigger_kind : String
  pub trigger_at : String
  pub force : Bool

abbrev pub key_of : Run → String
key_of r = idempotency_key r.dag_id r.trigger_kind r.trigger_at

module _ {S : Type 0} (b : Backend S) where
  pub claim_or_skip : Run → ℕ → ℕ → S → Bool × S
  claim_or_skip r ttl_s now s = if r.force then (true, s) else b.set_nx (key_of r) "1" ttl_s now s

  module _ {W E A : Type 0} (runner : W → Result E A × W) (on_skip : A) where
    abbrev proceed_or_skip : Bool → World S W → Result E A × World S W
    proceed_or_skip false s = (ok on_skip, s)
    proceed_or_skip true s = let (out, w) = runner s.world in (out, record s { world = w })

    pub with_idempotency : Run → ℕ → World S W → Result E A × World S W
    with_idempotency r now s =
        let (proceed, store) = claim_or_skip r default_ttl_s now s.store in
        proceed_or_skip proceed (record s { store = store })
