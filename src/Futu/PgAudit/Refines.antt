-- ===== src/Futu/PgAudit/Refines.antt =====
-- The log in Postgres of audit.py, seen one account at a time, is the log in memory.
use mathlib.Core.Path.{subst}
use investment_intelligence.Prelude.{
  ◌≡◌, refl, sym, ap, ◌∙◌, ◌≢◌, inl, inr, Bool, true, false, not, [], ◌∷◌, ◌++◌, String, map,
  if◌then◌else◌, arith,
}
use investment_intelligence.Prelude.Keys.{
  Eq, ◌=?◌, =?_refl, =?_sym, =?_ne, eq_or_ne, contains, Distinct, ℕ-keys, String-keys, List-keys,
}
use investment_intelligence.Prelude.Outcome.{ok}
use investment_intelligence.Lake.Chain.{Bytes}
use investment_intelligence.Futu.Audit.{
  Fields, AuditEntry, Log, zeros, head, new_entry, hash, append,
}
use investment_intelligence.Futu.Audit.Chain.{end_of, end_of-zeros}
use investment_intelligence.Futu.PgAudit.{
  of_account, hashes, prevs, entry_ids, insert_row, pg_append,
}

-- Each entry holds the hash of the one before it.
abbrev pub Linked : Bytes → Log → Type 0
Linked prev [] = Unit
Linked prev (e ∷ es) = (e.prev_hash ≡ prev) × Linked e.entry_hash es

pub record IsTable (t : Log) : Type 0 where
  pub distinct : Distinct (zeros ∷ hashes t)
  pub linked : (fid : String) → Linked zeros (of_account fid t)

absent-of_account :
    (fid : String) (h : Bytes) (t : Log)
    → contains h (hashes t) ≡ false
    → contains h (hashes (of_account fid t)) ≡ false
unfolding of_account
absent-of_account fid h [] a = refl
absent-of_account fid h (e ∷ t) a = ground (arith, absent-of_account fid h t)

Distinct-of_account :
    (fid : String) (t : Log) → Distinct (hashes t) → Distinct (hashes (of_account fid t))
unfolding of_account
Distinct-of_account fid [] d = tt
Distinct-of_account fid (e ∷ t) d =
    ground (arith, Distinct-of_account fid t d.1, absent-of_account fid e.entry_hash t d.0)

of_account-append :
    (fid : String) (t : Log) (e : AuditEntry)
    → of_account fid (t ++ e ∷ [])
      ≡ (if e.fields.futu_id_hash =? fid then of_account fid t ++ e ∷ [] else of_account fid t)
unfolding of_account
of_account-append fid [] e = refl
of_account-append fid (d ∷ t) e = ground (arith, of_account-append fid t e)

contains-append_one :
    {A : Type 0} ⦃q : Eq A⦄ (f : AuditEntry → A) (x : A) (t : Log) (e : AuditEntry)
    → contains x (map f t) ≡ false
    → (f e =? x) ≡ false
    → contains x (map f (t ++ e ∷ [])) ≡ false
contains-append_one f x [] e a b = ground arith
contains-append_one f x (d ∷ t) e a b = ground (arith, contains-append_one f x t e)

true_ne_false : true ≡ false → ⊥
true_ne_false h = cc

neither : (b c : Bool) → (if b then true else c) ≡ false → (b ≡ false) × (c ≡ false)
neither b c h = ground arith

both_absent : (b c : Bool) → b ≡ false → c ≡ false → (if b then true else c) ≡ false
both_absent b c p q = ground arith

Distinct-append_one :
    (x : Bytes) (t : Log) (e : AuditEntry)
    → Distinct (x ∷ hashes t)
    → contains e.entry_hash (x ∷ hashes t) ≡ false
    → Distinct (x ∷ hashes (t ++ e ∷ []))
Distinct-append_one x [] e d fresh =
    let (other, _) = neither (x =? e.entry_hash) false fresh in
    (both_absent (e.entry_hash =? x) false (=?_sym e.entry_hash x ∙ other) refl, (refl, tt))
Distinct-append_one x (y ∷ t) e d fresh =
    let (other, rest) = neither (x =? e.entry_hash) _ fresh in
    (
      contains-append_one (λ (q : AuditEntry). q.entry_hash) x (y ∷ t) e d.0
          (=?_sym e.entry_hash x ∙ other),
      Distinct-append_one y.entry_hash t e d.1 rest,
    )

Linked-append :
    (prev : Bytes) (log : Log) (e : AuditEntry)
    → Linked prev log
    → e.prev_hash ≡ end_of prev log
    → Linked prev (log ++ e ∷ [])
Linked-append prev [] e l h = (h, tt)
Linked-append prev (d ∷ log) e l h = (l.0, Linked-append d.entry_hash log e l.1 h)

end_of-contains : (prev : Bytes) (log : Log) → contains (end_of prev log) (prev ∷ hashes log) ≡ true
end_of-contains prev [] = ground (arith, =?_refl prev)
end_of-contains prev (e ∷ log) = ground (arith, end_of-contains e.entry_hash log)

-- The hash at the end of a chain stands before no entry of it.
end_of-absent :
    (prev : Bytes) (log : Log)
    → Linked prev log
    → Distinct (prev ∷ hashes log)
    → contains (end_of prev log) (prevs log) ≡ false
end_of-absent prev [] l d = refl
end_of-absent prev (e ∷ log) l d =
    both_absent (e.prev_hash =? end_of e.entry_hash log) _
      (=?_ne e.prev_hash (end_of e.entry_hash log) (λ same. true_ne_false (
        sym (end_of-contains e.entry_hash log)
        ∙ ap (λ h. contains h (e.entry_hash ∷ hashes log)) (sym same ∙ l.0)
        ∙ d.0)))
      (end_of-absent e.entry_hash log l.1 d.1)

linked_bool : (b c : Bool) → (if b then true else c) ≡ true → (if b then false else not c) ≡ false
linked_bool b c h = ground arith

-- The link of the entry that `new_entry` makes is accepted.
link-accepted :
    (log : Log)
    → (if head log =? zeros then false else not (contains (head log) (hashes log))) ≡ false
link-accepted log = linked_bool (head log =? zeros) _ (
    rw (=?_sym (head log) zeros) (
      ap (λ h. contains h (zeros ∷ hashes log)) (sym (end_of-zeros log))
      ∙ end_of-contains zeros log))

insert_row-ok :
    (e : AuditEntry) (t : Log)
    → (if e.prev_hash =? zeros
        then false
        else not (contains e.prev_hash (hashes (of_account e.fields.futu_id_hash t))))
      ≡ false
    → contains e.fields.entry_id (entry_ids t) ≡ false
    → contains e.entry_hash (hashes t) ≡ false
    → contains e.prev_hash (prevs (of_account e.fields.futu_id_hash t)) ≡ false
    → insert_row e t ≡ ok (t ++ e ∷ [])
unfolding insert_row
insert_row-ok e t a b c d = rw (a, b, c, d)

module _ (hexdigest : Bytes → Bytes) (json_dumps : Fields × Bytes → Bytes) where
  inserted :
      (f : Fields) (t : Log)
      → IsTable t
      → contains f.entry_id (entry_ids t) ≡ false
      → contains
          (hash hexdigest json_dumps (f, head (of_account f.futu_id_hash t)))
          (zeros ∷ hashes t)
        ≡ false
      → insert_row (new_entry hexdigest json_dumps f (of_account f.futu_id_hash t)) t
        ≡ ok (t ++ new_entry hexdigest json_dumps f (of_account f.futu_id_hash t) ∷ [])
  inserted f t table new_id new_hash =
      let log = of_account f.futu_id_hash t in
      let e = new_entry hexdigest json_dumps f log in
      let distinct : Distinct (zeros ∷ hashes log) = (
        absent-of_account f.futu_id_hash zeros t table.distinct.0,
        Distinct-of_account f.futu_id_hash t table.distinct.1,
      ) in
      insert_row-ok e t (link-accepted log) new_id (neither (zeros =? e.entry_hash) _ new_hash).1 (
        ap (λ h. contains h (prevs log)) (sym (end_of-zeros log))
        ∙ end_of-absent zeros log (table.linked f.futu_id_hash) distinct)

  account_after :
      (fid : String) (t : Log) (e : AuditEntry)
      → (e.fields.futu_id_hash ≡ fid → of_account fid (t ++ e ∷ []) ≡ of_account fid t ++ e ∷ [])
        × (e.fields.futu_id_hash ≢ fid → of_account fid (t ++ e ∷ []) ≡ of_account fid t)
  account_after fid t e = (
    (λ same.
        of_account-append fid t e ∙ rw ((String-keys.beq_iff e.fields.futu_id_hash fid).1 same)),
    (λ other. of_account-append fid t e ∙ rw (=?_ne e.fields.futu_id_hash fid other)),
  )

  Linked-after :
      (f : Fields) (t : Log) (fid : String)
      → IsTable t
      → Linked zeros (
          of_account fid (t ++ new_entry hexdigest json_dumps f (of_account f.futu_id_hash t) ∷ []))
  Linked-after f t fid table =
      let e = new_entry hexdigest json_dumps f (of_account f.futu_id_hash t) in
      elim (eq_or_ne f.futu_id_hash fid) [
        | inr other ↦
            subst (Linked zeros) (sym ((account_after fid t e).1 other)) (table.linked fid)
        | inl same ↦ subst (Linked zeros) (sym ((account_after fid t e).0 same)) (
            Linked-append zeros (of_account fid t) e (table.linked fid) (
              sym (end_of-zeros (of_account f.futu_id_hash t))
              ∙ ap (λ k. end_of zeros (of_account k t)) same))
      ]

  -- A call of `append` on a table of linked rows, with an id and a hash that are new, inserts its row.
  -- For its account the table is then what the log in memory would be, with the same entry, for every
  -- other account it is what it was, and its rows are linked.
  pub pg_append-Refines :
      (f : Fields) (t : Log)
      → IsTable t
      → contains f.entry_id (entry_ids t) ≡ false
      → contains
          (hash hexdigest json_dumps (f, head (of_account f.futu_id_hash t)))
          (zeros ∷ hashes t)
        ≡ false
      → let (e, log') = append hexdigest json_dumps f (of_account f.futu_id_hash t) in
        (pg_append hexdigest json_dumps f t ≡ ok (e, t ++ e ∷ []))
        × (of_account f.futu_id_hash (t ++ e ∷ []) ≡ log')
        × ((fid : String) → f.futu_id_hash ≢ fid → of_account fid (t ++ e ∷ []) ≡ of_account fid t)
        × IsTable (t ++ e ∷ [])
  unfolding pg_append append
  pg_append-Refines f t table new_id new_hash =
      let e = new_entry hexdigest json_dumps f (of_account f.futu_id_hash t) in
      (
        rw (inserted f t table new_id new_hash),
        (account_after f.futu_id_hash t e).0 refl,
        (λ fid other. (account_after fid t e).1 other),
        record {
          distinct = Distinct-append_one zeros t e table.distinct new_hash;
          linked = λ fid. Linked-after f t fid table;
        },
      )
