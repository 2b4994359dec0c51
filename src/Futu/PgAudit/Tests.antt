-- ===== src/Futu/PgAudit/Tests.antt =====
-- Calls of two accounts in one table.
use investment_intelligence.Prelude.{◌≡◌, refl, ◌≢◌, some, none, [], ◌∷◌, ◌++◌, String}
use investment_intelligence.Prelude.Keys.{ℕ-keys, String-keys, List-keys}
use investment_intelligence.Prelude.Text.{codes}
use investment_intelligence.Prelude.Outcome.{ok}
use investment_intelligence.Lake.Chain.{Bytes}
use investment_intelligence.Futu.Audit.{Fields, AuditEntry, append, done}
use investment_intelligence.Futu.PgAudit.{of_account, pg_append, pg_mark_ok, pg_mark_error}
use investment_intelligence.Futu.PgAudit.Refines.{IsTable, pg_append-Refines}

-- A digest that is the text itself, and a writer of the id and the previous hash.
abbrev hexdigest : Bytes → Bytes
hexdigest b = b

abbrev json_dumps : Fields × Bytes → Bytes
json_dumps (f, prev) = codes f.entry_id ++ prev

abbrev call : Fields
call = record {
  entry_id = "a1";
  futu_id_hash = "me";
  method = "get_quote";
  args_repr = "[]";
  kwargs_repr = "{}";
  issued_at = "2026-01-05T08:30:00+00:00";
}

abbrev other : Fields
other = record call { entry_id = "a2"; futu_id_hash = "you" }

empty-IsTable : IsTable []
unfolding of_account
empty-IsTable = record { distinct = (refl, tt); linked = λ fid. tt }

pg_append-Refines_example :
    let (e, log') = append hexdigest json_dumps call (of_account "me" []) in
    (pg_append hexdigest json_dumps call [] ≡ ok (e, [] ++ e ∷ []))
    × (of_account "me" ([] ++ e ∷ []) ≡ log')
    × ((fid : String) → "me" ≢ fid → of_account fid ([] ++ e ∷ []) ≡ of_account fid [])
    × IsTable ([] ++ e ∷ [])
unfolding of_account
pg_append-Refines_example = pg_append-Refines hexdigest json_dumps call [] empty-IsTable refl refl

-- A row that is marked as failed and then as done keeps no error.
abbrev row : AuditEntry
row = (append hexdigest json_dumps call []).0

done_clears_error :
    pg_mark_ok "a1" "fine" (pg_mark_error "a1" "down" (row ∷ []))
    ≡ (record row { status = done; summary = some "fine"; error = none }) ∷ []
unfolding pg_mark_ok pg_mark_error append
done_clears_error = refl
