-- ===== src/Futu/Audit/Chain.antt =====
-- The chain of audit.py: what each method keeps, and what a log that verifies pins down.
use investment_intelligence.Prelude.{
  ◌≡◌, refl, sym, ap, inl, inr, some, [], ◌∷◌, ◌++◌, map, String, last?, Bool-cases,
}
use investment_intelligence.Prelude.Keys.{◌=?◌, =?_refl, ℕ-keys, String-keys, List-keys}
use investment_intelligence.Lake.Chain.{Bytes}
use investment_intelligence.Futu.Audit.{
  Fields, AuditEntry, Log, Status, zeros, head, hash_at_end, hash, new_entry, append, verify_from,
  verify_chain, update_first, mark_ok, mark_error,
}

abbrev pub fields : AuditEntry → Fields
fields e = e.fields

-- Where the entries are hashed alike, and linked alike.
abbrev SameLinks : AuditEntry → AuditEntry → Type 0
SameLinks a b = (a.fields ≡ b.fields) × (a.prev_hash ≡ b.prev_hash) × (a.entry_hash ≡ b.entry_hash)

abbrev pub end_of : Bytes → Log → Bytes
end_of prev [] = prev
end_of prev (e ∷ es) = end_of e.entry_hash es

end_of-head : (prev : Bytes) (log : Log) (e : AuditEntry) → end_of prev (e ∷ log) ≡ head (e ∷ log)
end_of-head prev [] e = refl
end_of-head prev (d ∷ log) e = end_of-head e.entry_hash log d

pub end_of-zeros : (log : Log) → end_of zeros log ≡ head log
end_of-zeros [] = refl
end_of-zeros (e ∷ log) = end_of-head zeros log e

last?-append : (e : AuditEntry) (log : Log) → last? (log ++ e ∷ []) ≡ some e
last?-append e [] = refl
last?-append e (d ∷ []) = refl
last?-append e (d ∷ c ∷ log) = last?-append e (c ∷ log)

update_first-fields :
    (id : String) (g : AuditEntry → AuditEntry) (log : Log)
    → ((e : AuditEntry) → (g e).fields ≡ e.fields)
    → map fields (update_first id g log) ≡ map fields log
update_first-fields id g [] keeps = refl
update_first-fields id g (e ∷ log) keeps = elim (Bool-cases (e.fields.entry_id =? id)) [
  | inl hit ↦ rw (hit, keeps e)
  | inr miss ↦ rw (miss, update_first-fields id g log keeps)
]

module _ (hexdigest : Bytes → Bytes) (json_dumps : Fields × Bytes → Bytes) where
  verify_from-append :
      (prev : Bytes) (log : Log) (e : AuditEntry)
      → e.prev_hash ≡ end_of prev log
      → e.entry_hash ≡ hash hexdigest json_dumps (e.fields, end_of prev log)
      → verify_from hexdigest json_dumps prev (log ++ e ∷ [])
        ≡ verify_from hexdigest json_dumps prev log
  unfolding verify_from
  verify_from-append prev [] e p q =
      rw (q, p, =?_refl (hexdigest (json_dumps (e.fields, prev))), =?_refl prev)
  verify_from-append prev (d ∷ log) e p q = rw (verify_from-append d.entry_hash log e p q)

  -- Appending an entry leaves the verdict on the log as it was: a log that verifies still does, and
  -- one that does not still does not. The entry is pending, at the end, and its hash is the head.
  pub append-verify_chain :
      (f : Fields) (log : Log)
      → let (e, log') = append hexdigest json_dumps f log in
        (verify_chain hexdigest json_dumps log' ≡ verify_chain hexdigest json_dumps log)
        × (head log' ≡ e.entry_hash)
        × (e.prev_hash ≡ head log)
        × (e.status ≡ Status.pending)
  unfolding append verify_chain
  append-verify_chain f log = (
    verify_from-append zeros log (new_entry hexdigest json_dumps f log) (sym (end_of-zeros log))
        (ap (λ h. hash hexdigest json_dumps (f, h)) (sym (end_of-zeros log))),
    ap hash_at_end (last?-append (new_entry hexdigest json_dumps f log) log),
    refl,
    refl,
  )

  update_first-verify_from :
      (prev : Bytes) (id : String) (g : AuditEntry → AuditEntry) (log : Log)
      → ((e : AuditEntry) → SameLinks (g e) e)
      → verify_from hexdigest json_dumps prev (update_first id g log)
        ≡ verify_from hexdigest json_dumps prev log
  unfolding verify_from
  update_first-verify_from prev id g [] keeps = refl
  update_first-verify_from prev id g (e ∷ log) keeps = elim (Bool-cases (e.fields.entry_id =? id)) [
    | inl hit ↦ let (p, q, r) = keeps e in rw (hit, p, q, r)
    | inr miss ↦ rw (miss, update_first-verify_from e.entry_hash id g log keeps)
  ]

  -- Marking an entry, whichever its id, changes neither the verdict nor the hashed fields of any
  -- entry.
  pub marks_keep_chain :
      (id text : String) (log : Log)
      → (verify_chain hexdigest json_dumps (mark_ok id text log)
          ≡ verify_chain hexdigest json_dumps log)
        × (verify_chain hexdigest json_dumps (mark_error id text log)
            ≡ verify_chain hexdigest json_dumps log)
        × (map fields (mark_ok id text log) ≡ map fields log)
        × (map fields (mark_error id text log) ≡ map fields log)
  unfolding verify_chain mark_ok mark_error
  marks_keep_chain id text log = (
    update_first-verify_from zeros id _ log (λ e. (refl, refl, refl)),
    update_first-verify_from zeros id _ log (λ e. (refl, refl, refl)),
    update_first-fields id _ log (λ e. refl),
    update_first-fields id _ log (λ e. refl),
  )
