-- ===== src/Futu/Audit/Agreement.antt =====
-- What two logs of audit.py that verify have in common.
use mathlib.Core.Path.{subst}
use native.Mathlib.Decide.{ℕ_discrete}
use investment_intelligence.Prelude.{
  ◌≡◌, refl, sym, ap, ◌∙◌, ◌⊎◌, inl, inr, true, List, [], ◌∷◌, map, String, arith, length,
  length-map,
}
use investment_intelligence.Prelude.Keys.{=?_refl, =?_ne, eq_or_ne, ℕ-keys, String-keys, List-keys}
use investment_intelligence.Lake.Chain.{Bytes, Collision}
use investment_intelligence.Futu.Audit.{Fields, Log, zeros, head, hash, verify_from, verify_chain}
use investment_intelligence.Futu.Audit.Chain.{fields, end_of, end_of-zeros}

String-discrete : Discrete String
String-discrete a b = elim (eq_or_ne a b) [ inl p ↦ yes p | inr n ↦ no n ]

payload-discrete : Discrete (Fields × Bytes)
payload-discrete = hlevel (String-discrete, ℕ_discrete)

module _ (hexdigest : Bytes → Bytes) (json_dumps : Fields × Bytes → Bytes) where
  digest_from : Bytes → List Fields → Bytes
  digest_from prev [] = prev
  digest_from prev (f ∷ fs) = digest_from (hash hexdigest json_dumps (f, prev)) fs

  -- In a log that verifies, every entry hash is the one computed.
  verified-digest :
      (prev : Bytes) (log : Log)
      → verify_from hexdigest json_dumps prev log ≡ true
      → end_of prev log ≡ digest_from prev (map fields log)
  unfolding verify_from digest_from
  verified-digest prev [] h = refl
  verified-digest prev (e ∷ log) h =
      elim (eq_or_ne (hash hexdigest json_dumps (e.fields, prev)) e.entry_hash) [
        | inl same ↦
            subst (λ d. end_of e.entry_hash log ≡ digest_from d (map fields log)) (sym same)
              (verified-digest e.entry_hash log
                (ground (arith, =?_refl (hash hexdigest json_dumps (e.fields, prev)))))
        | inr other ↦
            absurd (
              ground (arith, =?_ne (hash hexdigest json_dumps (e.fields, prev)) e.entry_hash other))
      ]

  hash-inj :
      (p q : Fields × Bytes)
      → hash hexdigest json_dumps p ≡ hash hexdigest json_dumps q
      → (p ≡ q) ⊎ Collision (hash hexdigest json_dumps)
  hash-inj p q e = elim (payload-discrete p q) [
    | yes same ↦ inl same
    | no other ↦ inr (record { left = p; right = q; differ = other; same_hash = e })
  ]

  digest_from-inj :
      (a b : Bytes) (xs ys : List Fields)
      → length xs ≡ length ys
      → digest_from a xs ≡ digest_from b ys
      → ((a ≡ b) × (xs ≡ ys)) ⊎ Collision (hash hexdigest json_dumps)
  unfolding digest_from
  digest_from-inj a b [] [] n e = inl (e, refl)
  digest_from-inj a b [] (_ ∷ _) n e = absurd (omega arith)
  digest_from-inj a b (_ ∷ _) [] n e = absurd (omega arith)
  digest_from-inj a b (x ∷ xs) (y ∷ ys) n e =
      elim (digest_from-inj (hash hexdigest json_dumps (x, a)) (hash hexdigest json_dumps (y, b)) xs
        ys (omega arith) e) [
          | inr found ↦ inr found
          | inl (p, q) ↦ elim (hash-inj (x, a) (y, b) p) [
            | inr found ↦ inr found
            | inl r ↦
                inl (ap (λ (t : Fields × Bytes). t.1) r, cc (ap (λ (t : Fields × Bytes). t.0) r, q))
          ]
        ]

  -- Two logs that verify, with as many entries and the same head, record the same calls in the same
  -- order, or show a collision of SHA-256, where `json_dumps` writes different payloads differently.
  pub verified_logs_agree :
      (log other : Log)
      → verify_chain hexdigest json_dumps log ≡ true
      → verify_chain hexdigest json_dumps other ≡ true
      → length log ≡ length other
      → head log ≡ head other
      → (map fields log ≡ map fields other) ⊎ Collision (hash hexdigest json_dumps)
  unfolding verify_chain
  verified_logs_agree log other h k n e =
      elim (digest_from-inj zeros zeros (map fields log) (map fields other)
        (length-map fields log ∙ n ∙ sym (length-map fields other))
        (sym (verified-digest zeros log h)
          ∙ end_of-zeros log
          ∙ e
          ∙ sym (end_of-zeros other)
          ∙ verified-digest zeros other k)) [ inl (_, same) ↦ inl same | inr found ↦ inr found ]
