-- ===== src/Futu/Audit.antt =====
-- apps/agent_futu/futu/audit.py: `InMemoryFutuAuditLog`, the hash-chained log of broker calls.
-- The lock makes each method one step. `json_dumps` is `json.dumps` with sorted keys, then
-- `.encode()`; `hexdigest` is that of hashlib's SHA-256. The entry's id and time, which uuid4 and the
-- clock give, are arguments.
pub mod Chain
pub mod Agreement
mod Tests
use investment_intelligence.Prelude.{
  ℕ, zero, suc, Bool, true, false, Option, none, some, List, [], ◌∷◌, ◌++◌, String, last?,
  if◌then◌else◌,
}
use investment_intelligence.Prelude.Keys.{◌=?◌, ℕ-keys, String-keys, List-keys}
use investment_intelligence.Lake.Chain.{Bytes}

-- What is hashed of an entry, but for the hash before it.
pub record Fields : Type 0 where
  pub entry_id : String
  pub futu_id_hash : String
  pub method : String
  pub args_repr : String
  pub kwargs_repr : String
  pub issued_at : String

pub data Status : Type 0 where
  pending done failed : Status

-- `FutuAuditEntry`
pub record AuditEntry : Type 0 where
  pub fields : Fields
  pub prev_hash : Bytes
  pub entry_hash : Bytes
  pub status : Status
  pub summary : Option String
  pub error : Option String

abbrev pub Log : Type 0
Log = List AuditEntry

abbrev repeat : ℕ → ℕ → Bytes
repeat zero c = []
repeat (suc n) c = c ∷ repeat n c

-- `"0" * 64`
abbrev pub zeros : Bytes
zeros = repeat 64 b'0'

abbrev pub hash_at_end : Option AuditEntry → Bytes
hash_at_end none = zeros
hash_at_end (some e) = e.entry_hash

-- The property `head`.
abbrev pub head : Log → Bytes
head log = hash_at_end (last? log)

module _ (hexdigest : Bytes → Bytes) (json_dumps : Fields × Bytes → Bytes) where
  -- `_hash`
  abbrev pub hash : Fields × Bytes → Bytes
  hash payload = hexdigest (json_dumps payload)

  abbrev pub new_entry : Fields → Log → AuditEntry
  new_entry fields log = record {
    fields = fields;
    prev_hash = head log;
    entry_hash = hash (fields, head log);
    status = pending;
    summary = none;
    error = none;
  }

  unfoldable pub append : Fields → Log → AuditEntry × Log
  append fields log = (new_entry fields log, log ++ new_entry fields log ∷ [])

  -- The loop of `verify_chain`.
  pub verify_from : Bytes → Log → Bool
  verify_from prev [] = true
  verify_from prev (e ∷ es) =
      let rest = verify_from e.entry_hash es in
      if hash (e.fields, prev) =? e.entry_hash
      then (if e.prev_hash =? prev then rest else false)
      else false

  pub verify_chain : Log → Bool
  verify_chain log = verify_from zeros log

-- The loop of `mark_ok` and `mark_error`: the first entry of that id.
abbrev pub update_first : String → (AuditEntry → AuditEntry) → Log → Log
update_first id f [] = []
update_first id f (e ∷ es) = if e.fields.entry_id =? id then f e ∷ es else e ∷ update_first id f es

pub mark_ok : String → String → Log → Log
mark_ok id summary = update_first id (λ e. record e { status = done; summary = some summary })

pub mark_error : String → String → Log → Log
mark_error id error = update_first id (λ e. record e { status = failed; error = some error })
