-- ===== src/Lake/Ledger/Append.antt =====
-- `append` of advice_ledger.py in the order of issue: it commits, and the chain stays valid.
use mathlib.Core.Path.{subst}
use investment_intelligence.Prelude.{
  ℕ, suc, ◌≡◌, refl, sym, ap, ◌∙◌, ◌≢◌, inl, inr, Bool, true, false, Option, none, some, [], ◌∷◌,
  ◌++◌, map, arith, last?, All, ◌==◌, Bool-cases,
}
use investment_intelligence.Prelude.Keys.{
  ◌=?◌, =?_refl, =?_ne, eq_or_ne, ℕ-keys, String-keys, List-keys, Option-keys,
}
use investment_intelligence.Prelude.Outcome.{ok}
use investment_intelligence.Lake.Chain.{Bytes, row_digest, digest_of}
use investment_intelligence.Lake.Ledger.{
  Advice, Row, Table, ChainStatus, empty, valid, broken, exists, before, ordered, of_agent,
  select_chain_head, head_hash, check_link, row_for, insert_row, append, has_required, verify_from,
  verify_chain, verify_rows, unlinked,
}
use investment_intelligence.Lake.Ledger.Order.{
  exists-ordered, All-ordered, place-last, exists_of_last,
}

-- The rows of a chain that verifies; none for a broken one.
abbrev pub intact : ChainStatus → Option ℕ
intact empty = some 0
intact (valid n) = some n
intact (broken _ _) = none

abbrev pub payload : Row → Bytes
payload r = r.payload_canonical

pub last?-some : (r : Row) (rs : Table) → (top : Row) × (last? (r ∷ rs) ≡ some top)
last?-some r [] = (r, refl)
last?-some r (s ∷ rs) = last?-some s rs

intact-valid : (st : ChainStatus) (n : ℕ) → st ≢ empty → intact st ≡ some n → st ≡ valid n
intact-valid empty n e h = absurd (e refl)
intact-valid (valid m) n e h = cc
intact-valid (broken m i) n e h = cc

module _ (sha256 : Bytes → Bytes) where
  unlinked_self : (o : Option Bytes) → unlinked o o ≡ false
  unlinked_self none = refl
  unlinked_self (some x) = ground (arith, =?_refl x)

  -- One turn of the loop that finds nothing wrong, both ways.
  pub verify_from-inv :
      (prev : Option Bytes) (i n : ℕ) (r : Row) (rs : Table)
      → verify_from sha256 prev i (r ∷ rs) ≡ valid n
      → (r.row_hash ≡ row_digest sha256 prev r.payload_canonical)
        × (unlinked prev r.prev_hash ≡ false)
        × (verify_from sha256 (some r.row_hash) (suc i) rs ≡ valid n)
  unfolding verify_from
  verify_from-inv prev i n r rs h =
      let expected = row_digest sha256 prev r.payload_canonical in
      elim (eq_or_ne r.row_hash expected) [
        | inl same ↦ elim (Bool-cases (unlinked prev r.prev_hash)) [
          | inl bad ↦ absurd (ground (arith, =?_refl expected))
          | inr fine ↦ (same, fine, ground (arith, =?_refl expected))
        ]
        | inr other ↦ absurd (ground (arith, =?_ne r.row_hash expected other))
      ]

  pub verify_from-cons :
      (prev : Option Bytes) (i : ℕ) (r : Row) (rs : Table)
      → r.row_hash ≡ row_digest sha256 prev r.payload_canonical
      → unlinked prev r.prev_hash ≡ false
      → verify_from sha256 prev i (r ∷ rs) ≡ verify_from sha256 (some r.row_hash) (suc i) rs
  unfolding verify_from
  verify_from-cons prev i r rs same fine =
      ground (arith, =?_refl (row_digest sha256 prev r.payload_canonical))

  -- In a chain that verifies, the digest carried along is the last row's own hash.
  pub digest_of-last :
      (prev : Option Bytes) (i n : ℕ) (rs : Table) {top : Row}
      → verify_from sha256 prev i rs ≡ valid n
      → last? rs ≡ some top
      → digest_of sha256 prev (map payload rs) ≡ some top.row_hash
  digest_of-last prev i n [] h l = cc
  digest_of-last prev i n (r ∷ []) h l =
      let (same, _, _) = verify_from-inv prev i n r [] h in ground arith
  digest_of-last prev i n (r ∷ s ∷ rs) {top} h l =
      let (same, _, rest) = verify_from-inv prev i n r (s ∷ rs) h in
      subst (λ d. digest_of sha256 (some d) (map payload (s ∷ rs)) ≡ some top.row_hash) same
        (digest_of-last (some r.row_hash) (suc i) n (s ∷ rs) rest l)

  -- One more row that carries the digest on extends the chain.
  pub verify_from-append :
      (prev : Option Bytes) (i n : ℕ) (rs : Table) (r : Row)
      → verify_from sha256 prev i rs ≡ valid n
      → r.prev_hash ≡ digest_of sha256 prev (map payload rs)
      → r.row_hash ≡ row_digest sha256 r.prev_hash r.payload_canonical
      → verify_from sha256 prev i (rs ++ r ∷ []) ≡ valid (suc n)
  verify_from-append prev i n [] r h p q =
      verify_from-cons prev i r [] (q ∙ ap (λ o. row_digest sha256 o r.payload_canonical) p)
        (ap (unlinked prev) p ∙ unlinked_self prev)
      ∙ unfold verify_from in ground arith
  verify_from-append prev i n (s ∷ rs) r h p q =
      let (same, fine, rest) = verify_from-inv prev i n s rs h in
      verify_from-cons prev i s (rs ++ r ∷ []) same fine
      ∙ verify_from-append (some s.row_hash) (suc i) n rs r rest
          (p ∙ ap (λ d. digest_of sha256 (some d) (map payload rs)) (sym same)) q

  verify_from-ne_empty :
      (prev : Option Bytes) (i : ℕ) (rs : Table) → verify_from sha256 prev i rs ≢ empty
  unfolding verify_from
  verify_from-ne_empty prev i [] h = cc
  verify_from-ne_empty prev i (r ∷ rs) h =
      ground
        (arith, verify_from-ne_empty (some (row_digest sha256 prev r.payload_canonical)) (suc i) rs)

  verify_rows-append :
      (rs : Table) (r : Row)
      → verify_rows sha256 (rs ++ r ∷ []) ≡ verify_from sha256 none 0 (rs ++ r ∷ [])
  verify_rows-append [] r = refl
  verify_rows-append (s ∷ rs) r = refl

  -- A row that links to the last one, after a chain that verifies.
  chain_grows :
      (rows : Table) (row : Row) (n : ℕ)
      → intact (verify_rows sha256 rows) ≡ some n
      → row.prev_hash ≡ head_hash (last? rows)
      → row.row_hash ≡ row_digest sha256 row.prev_hash row.payload_canonical
      → verify_from sha256 none 0 (rows ++ row ∷ []) ≡ valid (suc n)
  chain_grows [] row n h p q =
      verify_from-append none 0 n [] row (unfold verify_from in ground arith) p q
  chain_grows (r ∷ rs) row n h p q =
      let (top, found) = last?-some r rs in
      let counted =
        intact-valid (verify_from sha256 none 0 (r ∷ rs)) n (verify_from-ne_empty none 0 (r ∷ rs))
          h in
      verify_from-append none 0 n (r ∷ rs) row counted
        (p ∙ ap head_hash found ∙ sym (digest_of-last none 0 n (r ∷ rs) counted found)) q

-- The database accepts a link to the last row that no row uses yet.
link_ok :
    (same : Table) (o : Option Row)
    → last? (ordered same) ≡ o
    → exists (λ r. r.prev_hash =? head_hash o) same ≡ false
    → check_link (head_hash o) same ≡ ok tt
link_ok same none l free = ground arith
link_ok same (some top) l free = ground (
  arith,
  exists-ordered (λ r. r.row_hash =? top.row_hash) same,
  exists_of_last (λ r. r.row_hash =? top.row_hash) (ordered same) l (=?_refl top.row_hash),
)

module _ (sha256 : Bytes → Bytes) (checks : Advice → Bool) where
  insert_ok :
      (t : Table) (a : Advice) (row : Row)
      → checks a ≡ true
      → exists (λ r. r.id == row.id) t ≡ false
      → check_link row.prev_hash (of_agent row.agent t) ≡ ok tt
      → insert_row sha256 checks t a row ≡ ok (row ∷ t)
  unfolding insert_row
  insert_ok t a row checked fresh linked = rw (checked, fresh, linked)

  append_ok :
      (t t' : Table) (a : Advice)
      → has_required a ≡ true
      → a.evidence ≢ []
      → insert_row sha256 checks t a (row_for sha256 checks t a) ≡ ok t'
      → append sha256 checks a t ≡ ok ((row_for sha256 checks t a).row_hash, t')
  unfolding append
  append_ok t t' a keys cited inserted = ground arith

  -- An advice with the required keys and some evidence, of a fresh id, issued after every row of
  -- its agent, is committed when the chain verifies and no row points at its head yet: the
  -- table gains that row, and the chain verifies with one row more.
  pub append_in_order :
      (t : Table) (a : Advice) (n : ℕ)
      → has_required a ≡ true
      → a.evidence ≢ []
      → checks a ≡ true
      → exists (λ r. r.id == a.id) t ≡ false
      → All (λ r. before (row_for sha256 checks t a) r ≡ false) (of_agent a.agent t)
      → exists (λ r. r.prev_hash =? select_chain_head t a.agent) (of_agent a.agent t) ≡ false
      → intact (verify_chain sha256 a.agent t) ≡ some n
      → let row = row_for sha256 checks t a in
        (append sha256 checks a t ≡ ok (row.row_hash, row ∷ t))
        × (verify_chain sha256 a.agent (row ∷ t) ≡ valid (suc n))
  unfolding row_for verify_chain
  append_in_order t a n keys cited checked fresh latest free sound =
      let row = row_for sha256 checks t a in
      let same = of_agent a.agent t in
      (
        append_ok t (row ∷ t) a keys cited
            (insert_ok t a row checked fresh (link_ok same (last? (ordered same)) refl free)),
        rw
            (
              =?_refl a.agent,
              place-last row (ordered same) (All-ordered (λ r. before row r ≡ false) same latest),
              verify_rows-append sha256 (ordered same) row,
            )
            (chain_grows sha256 (ordered same) row n sound refl refl),
      )
