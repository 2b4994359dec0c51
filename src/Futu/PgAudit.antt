-- ===== src/Futu/PgAudit.antt =====
-- apps/agent_futu/futu/audit.py: `PgFutuAuditLog`, over the table, the unique indexes and the trigger
-- of packages/data-lake/data_lake/migrations/versions/0005_futu_audit.py.
-- Rows stand in the order of their ids. A row's time is read as it was written. The privileges of the
-- database roles are left out.
pub mod Refines
mod Tests
use investment_intelligence.Prelude.{
  Bool, true, false, not, Option, none, some, List, [], ◌∷◌, ◌++◌, String, map, keep_if,
  if◌then◌else◌,
}
use investment_intelligence.Prelude.Keys.{◌=?◌, contains, ℕ-keys, String-keys, List-keys}
use investment_intelligence.Prelude.Outcome.{Result, ok, err, raise_if, ◌>>=◌, ◌>>◌}
use investment_intelligence.Lake.Chain.{Bytes}
use investment_intelligence.Futu.Audit.{
  Fields, AuditEntry, Log, Status, pending, done, failed, zeros, head, new_entry, verify_chain,
}

pub data InsertError : Type 0 where
  broken_linkage duplicate_id duplicate_hash duplicate_prev : InsertError

-- `WHERE futu_id_hash = :fid ORDER BY id ASC`
pub of_account : String → Log → Log
of_account fid t = keep_if (λ e. e.fields.futu_id_hash =? fid) t

abbrev pub hashes : Log → List Bytes
hashes = map (λ (e : AuditEntry). e.entry_hash)

abbrev pub prevs : Log → List Bytes
prevs = map (λ (e : AuditEntry). e.prev_hash)

abbrev pub entry_ids : Log → List String
entry_ids = map (λ (e : AuditEntry). e.fields.entry_id)

-- `_read_head_async`
abbrev pub read_head : String → Log → Bytes
read_head fid t = head (of_account fid t)

-- The trigger `futu_audit_chain_check`, and then the unique indexes. That of the chain's head is
-- within the one of the account and the previous hash.
pub insert_row : AuditEntry → Log → Result InsertError Log
insert_row e t =
    let same = of_account e.fields.futu_id_hash t in
    do
      raise_if (if e.prev_hash =? zeros then false else not (contains e.prev_hash (hashes same)))
          broken_linkage
      raise_if (contains e.fields.entry_id (entry_ids t)) duplicate_id
      raise_if (contains e.entry_hash (hashes t)) duplicate_hash
      raise_if (contains e.prev_hash (prevs same)) duplicate_prev
      ok (t ++ e ∷ [])

-- `UPDATE … WHERE entry_id = :entry_id`
abbrev pub mark_row : String → Status → Option String → Option String → Log → Log
mark_row id status summary error = map (λ (e : AuditEntry).
    if e.fields.entry_id =? id
    then record e { status = status; summary = summary; error = error }
    else e)

pub pg_mark_ok : String → String → Log → Log
pg_mark_ok id summary = mark_row id done (some summary) none

pub pg_mark_error : String → String → Log → Log
pg_mark_error id error = mark_row id failed none (some error)

module _ (hexdigest : Bytes → Bytes) (json_dumps : Fields × Bytes → Bytes) where
  pub pg_append : Fields → Log → Result InsertError (AuditEntry × Log)
  pg_append f t =
      let e = new_entry hexdigest json_dumps f (of_account f.futu_id_hash t) in
      do t' ← insert_row e t; ok (e, t')

  pub pg_verify : String → Log → Bool
  pg_verify fid t = verify_chain hexdigest json_dumps (of_account fid t)
