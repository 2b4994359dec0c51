-- ===== src/Futu/Audit/Tests.antt =====
-- Runs of audit.py, with a digest that is the last byte and with no entry that JSON confuses.
use investment_intelligence.Prelude.{◌≡◌, refl, ◌⊎◌, true, [], ◌∷◌, map, String}
use investment_intelligence.Lake.Chain.{Bytes, Collision}
use investment_intelligence.Futu.Audit.{
  Fields, Log, Status, head, hash, append, verify_from, verify_chain, mark_ok, mark_error,
}
use investment_intelligence.Futu.Audit.Agreement.{verified_logs_agree}
use investment_intelligence.Futu.Audit.Chain.{fields, append-verify_chain, marks_keep_chain}

abbrev same_bytes : Bytes → Bytes
same_bytes x = x

abbrev only_prev : Fields × Bytes → Bytes
only_prev (_, prev) = 1 ∷ prev

abbrev call : String → Fields
call method = record {
  entry_id = method;
  futu_id_hash = "f";
  method = method;
  args_repr = "[]";
  kwargs_repr = "{}";
  issued_at = "t";
}

abbrev one : Log
one = (append same_bytes only_prev (call "get_funds") []).1

appended_verifies :
    let (e, log') = append same_bytes only_prev (call "get_orders") one in
    (verify_chain same_bytes only_prev log' ≡ verify_chain same_bytes only_prev one)
    × (head log' ≡ e.entry_hash)
    × (e.prev_hash ≡ head one)
    × (e.status ≡ Status.pending)
appended_verifies = append-verify_chain same_bytes only_prev (call "get_orders") one

mark_keeps_head :
    (verify_chain same_bytes only_prev (mark_ok "get_funds" "2 rows" one)
      ≡ verify_chain same_bytes only_prev one)
    × (verify_chain same_bytes only_prev (mark_error "get_funds" "2 rows" one)
        ≡ verify_chain same_bytes only_prev one)
    × (map fields (mark_ok "get_funds" "2 rows" one) ≡ map fields one)
    × (map fields (mark_error "get_funds" "2 rows" one) ≡ map fields one)
mark_keeps_head = marks_keep_chain same_bytes only_prev "get_funds" "2 rows" one

marked : map (λ e. e.status) (mark_ok "get_funds" "2 rows" one) ≡ Status.done ∷ []
unfolding append mark_ok
marked = refl

verifies : verify_chain same_bytes only_prev one ≡ true
unfolding append verify_chain verify_from
verifies = refl

verified_logs_agree_example :
    (map fields one ≡ map fields (mark_ok "get_funds" "2 rows" one))
    ⊎ Collision (hash same_bytes only_prev)
unfolding append mark_ok verify_chain verify_from
verified_logs_agree_example =
    verified_logs_agree same_bytes only_prev one (mark_ok "get_funds" "2 rows" one) refl refl refl
      refl
