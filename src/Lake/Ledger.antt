-- ===== src/Lake/Ledger.antt =====
-- packages/data-lake/data_lake/advice_ledger.py, over the table and the unique indexes of
-- migrations/versions/0001_init_lake.py and the trigger of 0002_advice_ledger.py.
-- Rows stand in the order of insertion, the latest first. A time is a number of ticks; an id is a
-- ULID read as a number, whose order is that of its text.
pub mod Order
pub mod Append
pub mod Fork
pub mod Tamper
mod Tests
use investment_intelligence.Prelude.{
  ℕ, suc, ◌+◌, Bool, true, false, not, ◌&&◌, ◌||◌, Option, none, some, List, [], ◌∷◌, String, map,
  length, ltb, ◌==◌, if◌then◌else◌, keep_if, last?, all_of,
}
use investment_intelligence.Prelude.Keys.{
  ◌=?◌, contains, ℕ-keys, String-keys, List-keys, Option-keys,
}
use investment_intelligence.Prelude.Outcome.{Result, ok, err, raise_if, ◌>>=◌, ◌>>◌}
use investment_intelligence.Lake.Chain.{Bytes, row_digest}

-- The envelope handed to `append`: the keys of the dict, what the writer reads of it, and the bytes
-- that orjson makes of the whole.
pub record Advice : Type 0 where
  pub keys : List String
  pub id : ℕ
  pub agent : String
  pub issued_at : ℕ
  pub evidence : List String
  pub canonical : Bytes

-- The columns of `lake.advice` that the chain is made of.
pub record Row : Type 0 where
  pub id : ℕ
  pub agent : String
  pub issued_at : ℕ
  pub payload_canonical : Bytes
  pub prev_hash : Option Bytes
  pub row_hash : Bytes

abbrev pub Table : Type 0
Table = List Row

pub data LedgerError : Type 0 where
  missing_keys empty_evidence : LedgerError
  duplicate_id duplicate_head duplicate_prev broken_linkage check_violation : LedgerError

abbrev pub required : List String
required =
    "schema" ∷ "id" ∷ "agent" ∷ "issued_at" ∷ "asset" ∷ "thesis" ∷ "direction" ∷ "confidence"
    ∷ "entry_band" ∷ "target_band" ∷ "stop_loss" ∷ "horizon_days" ∷ "max_drawdown_pct"
    ∷ "expires_at" ∷ "evidence" ∷ []

-- `[k for k in required if k not in advice]` is empty
pub has_required : Advice → Bool
has_required a = all_of (λ k. contains k a.keys) required

-- `EXISTS (SELECT 1 FROM … WHERE p)`
abbrev pub exists : (Row → Bool) → Table → Bool
exists p [] = false
exists p (r ∷ rs) = if p r then true else exists p rs

-- `WHERE agent = :agent`
abbrev pub of_agent : String → Table → Table
of_agent agent = keep_if (λ r. r.agent =? agent)

-- `issued_at ASC, id ASC`
abbrev pub before : Row → Row → Bool
before a b =
    if ltb a.issued_at b.issued_at
    then true
    else if a.issued_at == b.issued_at
    then ltb a.id b.id
    else false

abbrev pub place : Row → Table → Table
place r [] = r ∷ []
place r (s ∷ rs) = let rest = place r rs in if before r s then r ∷ s ∷ rs else s ∷ rest

-- `ORDER BY issued_at ASC, id ASC`
abbrev pub ordered : Table → Table
ordered [] = []
ordered (r ∷ rs) = place r (ordered rs)

abbrev pub chain : String → Table → Table
chain agent t = ordered (of_agent agent t)

-- `_select_chain_head`: the first row of the descending order is the last of the ascending one.
abbrev pub head_hash : Option Row → Option Bytes
head_hash none = none
head_hash (some r) = some r.row_hash

abbrev pub select_chain_head : Table → String → Option Bytes
select_chain_head t agent = head_hash (last? (chain agent t))

-- The indexes `advice_agent_chain_head_idx` and `advice_agent_prev_hash_idx`, and the trigger.
abbrev pub check_link : Option Bytes → Table → Result LedgerError (Unit {0})
check_link none same = raise_if (exists (λ r. r.prev_hash =? none) same) duplicate_head
check_link (some p) same =
    raise_if (not (exists (λ r. r.row_hash =? p) same)) broken_linkage
    >> raise_if (exists (λ r. r.prev_hash =? some p) same) duplicate_prev

module _ (sha256 : Bytes → Bytes) (checks : Advice → Bool) where
  pub row_for : Table → Advice → Row
  row_for t a =
      let prev = select_chain_head t a.agent in
      record {
        id = a.id;
        agent = a.agent;
        issued_at = a.issued_at;
        payload_canonical = a.canonical;
        prev_hash = prev;
        row_hash = row_digest sha256 prev a.canonical;
      }

  -- `checks` stands for the CHECK constraints on the other columns.
  pub insert_row : Table → Advice → Row → Result LedgerError Table
  insert_row t a row = do
    raise_if (not (checks a)) check_violation
    raise_if (exists (λ r. r.id == row.id) t) duplicate_id
    check_link row.prev_hash (of_agent row.agent t)
    ok (row ∷ t)

  -- The row hash and the table after the commit; an error rolls the transaction back.
  pub append : Advice → Table → Result LedgerError (Bytes × Table)
  append a t = do
    raise_if (not (has_required a)) missing_keys
    raise_if (length a.evidence == 0) empty_evidence
    t' ← insert_row t a (row_for t a)
    ok ((row_for t a).row_hash, t')

pub data ChainStatus : Type 0 where
  empty : ChainStatus
  valid : ℕ → ChainStatus
  broken : ℕ → ℕ → ChainStatus

-- `prev_hash is not None and (db_prev is None or db_prev != prev_hash)`
abbrev pub unlinked : Option Bytes → Option Bytes → Bool
unlinked none db_prev = false
unlinked (some prev) none = true
unlinked (some prev) (some db_prev) = not (db_prev =? prev)

module _ (sha256 : Bytes → Bytes) where
  -- The loop of `verify_chain`: `i` rows are done. `broken n id` has `rows_checked` and the row's id.
  pub verify_from : Option Bytes → ℕ → Table → ChainStatus
  verify_from prev i [] = valid i
  verify_from prev i (r ∷ rs) =
      let expected = row_digest sha256 prev r.payload_canonical in
      let rest = verify_from (some expected) (suc i) rs in
      if not (r.row_hash =? expected)
      then broken (suc i) r.id
      else if unlinked prev r.prev_hash
      then broken (suc i) r.id
      else rest

  abbrev pub verify_rows : Table → ChainStatus
  verify_rows [] = empty
  verify_rows (r ∷ rs) = verify_from none 0 (r ∷ rs)

  pub verify_chain : String → Table → ChainStatus
  verify_chain agent t = verify_rows (chain agent t)
