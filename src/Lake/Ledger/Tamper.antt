-- ===== src/Lake/Ledger/Tamper.antt =====
-- What a chain that verifies under advice_ledger.py says of the stored payloads.
use investment_intelligence.Prelude.{
  ℕ, suc, ◌+◌, ◌≡◌, sym, ap, ◌∙◌, ◌⊎◌, inl, inr, Option, none, some, [], ◌∷◌, String, map, arith,
  length, length-map, last?,
}
use investment_intelligence.Lake.Chain.{Bytes, Collision, digest_of, digest_of-inj}
use investment_intelligence.Lake.Ledger.{
  Table, valid, chain, head_hash, select_chain_head, verify_from, verify_chain, verify_rows,
}
use investment_intelligence.Lake.Ledger.Append.{
  payload, verify_from-inv, digest_of-last, last?-some,
}

module _ (sha256 : Bytes → Bytes) where
  valid-length :
      (prev : Option Bytes) (i n : ℕ) (rs : Table)
      → verify_from sha256 prev i rs ≡ valid n
      → i + length rs ≡ n
  unfolding verify_from
  valid-length prev i n [] h = ground arith
  valid-length prev i n (r ∷ rs) h =
      let (_, _, rest) = verify_from-inv sha256 prev i n r rs h in
      omega (arith, valid-length (some r.row_hash) (suc i) n rs rest)

  rows_valid :
      (rs : Table) (n : ℕ)
      → verify_rows sha256 rs ≡ valid n
      → (length rs ≡ n) × (digest_of sha256 none (map payload rs) ≡ head_hash (last? rs))
  rows_valid [] n h = cc
  rows_valid (r ∷ rs) n h =
      let (top, found) = last?-some r rs in
      (
        omega (arith, valid-length none 0 n (r ∷ rs) h),
        digest_of-last sha256 none 0 n (r ∷ rs) h found ∙ sym (ap head_hash found),
      )

  -- Two ledgers whose chains of an agent both verify, with as many rows and the same head hash,
  -- hold the same payloads in the same order, or their bytes show a collision of SHA-256, whose
  -- digests have one length.
  pub valid_chains_agree :
      (width : ℕ)
      → ((x : Bytes) → length (sha256 x) ≡ width)
      → (agent : String) (t u : Table) (n : ℕ) → verify_chain sha256 agent t ≡ valid n
      → verify_chain sha256 agent u ≡ valid n
      → select_chain_head t agent ≡ select_chain_head u agent
      → (map payload (chain agent t) ≡ map payload (chain agent u)) ⊎ Collision sha256
  unfolding verify_chain
  valid_chains_agree width fixed agent t u n h k e =
      let (count_t, digest_t) = rows_valid (chain agent t) n h in
      let (count_u, digest_u) = rows_valid (chain agent u) n k in
      elim (digest_of-inj sha256 width fixed none none (map payload (chain agent t))
        (map payload (chain agent u)) tt
        (length-map payload (chain agent t)
          ∙ count_t
          ∙ sym count_u
          ∙ sym (length-map payload (chain agent u)))
        (digest_t ∙ e ∙ sym digest_u)) [ inl (_, same) ↦ inl same | inr found ↦ inr found ]
