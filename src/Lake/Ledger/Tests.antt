-- ===== src/Lake/Ledger/Tests.antt =====
-- Runs of advice_ledger.py with a toy digest in place of SHA-256.
use investment_intelligence.Prelude.{
  ℕ, ◌+◌, ◌*◌, ◌≡◌, refl, ◌⊎◌, true, Bool, none, [], ◌∷◌, map, arith, length,
}
use investment_intelligence.Prelude.Outcome.{ok, err}
use investment_intelligence.Lake.Chain.{Bytes, Collision}
use investment_intelligence.Lake.Ledger.{
  Advice, Row, Table, LedgerError, valid, broken, chain, required, has_required, row_for,
  insert_row, append, verify_from, verify_chain,
}
use investment_intelligence.Lake.Ledger.Append.{append_in_order, payload}
use investment_intelligence.Lake.Ledger.Fork.{Fails, late_append_blocks_agent}
use investment_intelligence.Lake.Ledger.Tamper.{valid_chains_agree}

-- One byte that depends on every input byte and its place.
abbrev toy : Bytes → Bytes
toy [] = 7 ∷ []
toy (x ∷ xs) = elim (toy xs) [ [] ↦ [] | h ∷ _ ↦ (x + 3 * h) ∷ [] ]

toy-length : (x : Bytes) → length (toy x) ≡ 1
toy-length [] = refl
toy-length (x ∷ xs) = ground (arith, toy-length xs)

abbrev any_checks : Advice → Bool
any_checks _ = true

abbrev advice : ℕ → ℕ → Advice
advice id issued_at = record {
  keys = required;
  id = id;
  agent = "quant";
  issued_at = issued_at;
  evidence = "filing" ∷ [];
  canonical = id ∷ issued_at ∷ [];
}

abbrev first : Row
first = record {
  id = 1;
  agent = "quant";
  issued_at = 50;
  payload_canonical = 1 ∷ 50 ∷ [];
  prev_hash = none;
  row_hash = toy (1 ∷ 50 ∷ []);
}

first_row : append toy any_checks (advice 1 50) [] ≡ ok (toy (1 ∷ 50 ∷ []), first ∷ [])
unfolding append insert_row row_for has_required
first_row = refl

no_evidence :
    append toy any_checks (record (advice 1 50) { evidence = [] }) []
    ≡ err LedgerError.empty_evidence
unfolding append has_required
no_evidence = refl

append_in_order_example :
    let row = row_for toy any_checks (first ∷ []) (advice 2 60) in
    (append toy any_checks (advice 2 60) (first ∷ []) ≡ ok (row.row_hash, row ∷ first ∷ []))
    × (verify_chain toy "quant" (row ∷ first ∷ []) ≡ valid 2)
unfolding has_required verify_chain verify_from row_for
append_in_order_example =
    append_in_order toy any_checks (first ∷ []) (advice 2 60) 1 refl (cc) refl refl (refl, tt) refl
      refl

-- The second advice is issued at 40, before the first; the ledger then takes nothing more.
abbrev late_table : Table
late_table = row_for toy any_checks (first ∷ []) (advice 2 40) ∷ first ∷ []

late_commit :
    append toy any_checks (advice 2 40) (first ∷ [])
    ≡ ok ((row_for toy any_checks (first ∷ []) (advice 2 40)).row_hash, late_table)
unfolding append insert_row row_for has_required
late_commit = refl

late_breaks_chain : verify_chain toy "quant" late_table ≡ broken 1 2
unfolding verify_chain verify_from row_for
late_breaks_chain = refl

late_append_blocks_agent_example : Fails (append toy any_checks (advice 3 70) late_table)
unfolding row_for
late_append_blocks_agent_example =
    late_append_blocks_agent toy any_checks (advice 2 40) (advice 3 70) (first ∷ []) late_table
      late_table (row_for toy any_checks (first ∷ []) (advice 2 40)).row_hash first refl refl
      late_commit refl refl

valid_chains_agree_example :
    (map payload (chain "quant" (first ∷ [])) ≡ map payload (chain "quant" (first ∷ [])))
    ⊎ Collision toy
unfolding verify_chain verify_from
valid_chains_agree_example =
    valid_chains_agree toy 1 toy-length "quant" (first ∷ []) (first ∷ []) 1 refl refl refl
