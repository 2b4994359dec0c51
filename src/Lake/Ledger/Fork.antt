-- ===== src/Lake/Ledger/Fork.antt =====
-- `append` of advice_ledger.py out of the order of issue.
use mathlib.Core.Path.{subst, subst₂}
use investment_intelligence.Prelude.{◌≡◌, sym, ap, ◌∙◌, Bool, true, some, ◌∷◌, arith, last?}
use investment_intelligence.Prelude.Keys.{
  ◌=?◌, =?_refl, ℕ-keys, String-keys, List-keys, Option-keys,
}
use investment_intelligence.Prelude.Outcome.{Result, ok, err}
use investment_intelligence.Lake.Chain.{Bytes}
use investment_intelligence.Lake.Ledger.{
  Advice, Row, Table, exists, before, ordered, of_agent, chain, select_chain_head, head_hash,
  check_link, row_for, insert_row, append,
}
use investment_intelligence.Lake.Ledger.Order.{last?-place}

-- The call raised.
abbrev pub Fails {ℓ κ} : {E : Type ℓ} {A : Type κ} → Result E A → Type 0
Fails (ok _) = ⊥
Fails (err _) = Unit

used_link :
    (same : Table) (p : Bytes)
    → exists (λ r. r.prev_hash =? some p) same ≡ true
    → Fails (check_link (some p) same)
used_link same p used = ground arith

module _ (sha256 : Bytes → Bytes) (checks : Advice → Bool) where
  insert-Fails :
      (t : Table) (a : Advice) (row : Row)
      → Fails (check_link row.prev_hash (of_agent row.agent t))
      → Fails (insert_row sha256 checks t a row)
  unfolding insert_row
  insert-Fails t a row h = ground arith

  append-Fails :
      (t : Table) (a : Advice)
      → Fails (insert_row sha256 checks t a (row_for sha256 checks t a))
      → Fails (append sha256 checks a t)
  unfolding append
  append-Fails t a h = ground arith

  append_adds :
      (a : Advice) (t t' : Table) {hash : Bytes}
      → append sha256 checks a t ≡ ok (hash, t')
      → t' ≡ row_for sha256 checks t a ∷ t
  unfolding append insert_row
  append_adds a t t' h = ground arith

  -- The head that is read from a table whose rows of the agent are those after the late append.
  head_after :
      (a : Advice) (t u : Table) {top : Row}
      → last? (chain a.agent t) ≡ some top
      → before (row_for sha256 checks t a) top ≡ true
      → of_agent a.agent u ≡ row_for sha256 checks t a ∷ of_agent a.agent t
      → select_chain_head u a.agent ≡ some top.row_hash
  head_after a t u {top} l late e =
      ap (λ rows. head_hash (last? (ordered rows))) e
      ∙ ap head_hash (last?-place (row_for sha256 checks t a) top (chain a.agent t) l late)

  of_agent-row_for :
      (a : Advice) (t : Table)
      → of_agent a.agent (row_for sha256 checks t a ∷ t)
        ≡ row_for sha256 checks t a ∷ of_agent a.agent t
  unfolding row_for
  of_agent-row_for a t = rw (=?_refl a.agent)

  late_row_uses_head :
      (a : Advice) (t : Table) {top : Row}
      → last? (chain a.agent t) ≡ some top
      → exists
          (λ r. r.prev_hash =? some top.row_hash)
          (row_for sha256 checks t a ∷ of_agent a.agent t)
        ≡ true
  unfolding row_for
  late_row_uses_head a t {top} l = rw (ap head_hash l, =?_refl top.row_hash)

  link_blocked :
      (a : Advice) (t u : Table) {top : Row}
      → last? (chain a.agent t) ≡ some top
      → before (row_for sha256 checks t a) top ≡ true
      → of_agent a.agent u ≡ row_for sha256 checks t a ∷ of_agent a.agent t
      → Fails (check_link (select_chain_head u a.agent) (of_agent a.agent u))
  link_blocked a t u {top} l late e =
      subst₂ (λ o rows. Fails (check_link o rows)) (sym (head_after a t u l late e)) (sym e)
        (used_link (row_for sha256 checks t a ∷ of_agent a.agent t) top.row_hash
          (late_row_uses_head a t l))

  -- When an advice issued before the latest row of its agent is committed, every later append for
  -- that agent fails, in every table that has the same rows of the agent.
  pub late_append_blocks_agent :
      (a b : Advice) (t t' u : Table) (hash : Bytes) (top : Row)
      → last? (chain a.agent t) ≡ some top
      → before (row_for sha256 checks t a) top ≡ true
      → append sha256 checks a t ≡ ok (hash, t')
      → of_agent a.agent u ≡ of_agent a.agent t'
      → b.agent ≡ a.agent
      → Fails (append sha256 checks b u)
  unfolding row_for
  late_append_blocks_agent a b t t' u hash top l late done same agent =
      let rows = same ∙ ap (of_agent a.agent) (append_adds a t t' done) ∙ of_agent-row_for a t in
      append-Fails u b (
        insert-Fails u b (row_for sha256 checks u b) (
          subst (λ g. Fails (check_link (select_chain_head u g) (of_agent g u))) (sym agent)
            (link_blocked a t u l late rows)))
