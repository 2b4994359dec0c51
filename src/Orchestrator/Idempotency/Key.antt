-- ===== src/Orchestrator/Idempotency/Key.antt =====
-- When two runs of idempotency.py have one key.
use Prim.Native.String.{String, [], ◌∷◌, ◌++◌}
use Prim.Native.Char.{Char, code}
use text.Mathlib.TextLemmas.{
  cons-append, nil-append, append_cancel_left, head-eq_of_cons-eq, tail-eq_of_cons-eq,
}
use investment_intelligence.Prelude.{◌≡◌, refl, sym, ap, ◌∙◌, Bool, true, not, ◌&&◌, ◌==◌, arith}
use investment_intelligence.Orchestrator.Idempotency.{idempotency_key}

-- The text has no colon.
abbrev pub no_colon : String → Bool
no_colon [] = true
no_colon (c ∷ s) = not (code c == b':') && no_colon s

and_right : (a b : Bool) → (a && b) ≡ true → b ≡ true
and_right a b h = ground arith

starts_with_colon :
    (c : Char) (s u rest : String) → no_colon (c ∷ s) ≡ true → ":" ++ u ≡ c ∷ rest → ⊥
starts_with_colon c s u rest h e =
    let first = ap code (head-eq_of_cons-eq (sym (cons-append ":" [] u) ∙ e)) in ground arith

split_at_colon :
    (s t u v : String)
    → no_colon s ≡ true
    → no_colon t ≡ true
    → s ++ (":" ++ u) ≡ t ++ (":" ++ v)
    → (s ≡ t) × (u ≡ v)
split_at_colon [] [] u v hs ht e =
    (refl, append_cancel_left ":" u v (sym (nil-append _) ∙ e ∙ nil-append _))
split_at_colon [] (c ∷ t) u v hs ht e =
    absurd (starts_with_colon c t u _ ht (sym (nil-append _) ∙ e ∙ cons-append c t _))
split_at_colon (c ∷ s) [] u v hs ht e =
    absurd (starts_with_colon c s v _ hs (sym (nil-append _) ∙ sym e ∙ cons-append c s _))
split_at_colon (c ∷ s) (d ∷ t) u v hs ht e =
    let same = sym (cons-append c s _) ∙ e ∙ cons-append d t _ in
    let (rest, ends) =
      split_at_colon s t u v (and_right _ _ hs) (and_right _ _ ht) (tail-eq_of_cons-eq same) in
    (λ i. head-eq_of_cons-eq same i ∷ rest i, ends)

-- Two fires whose graph and kind hold no colon have one key only if they agree in graph, kind and
-- time. The time may hold colons.
pub idempotency_key-injective :
    (d d' k k' t t' : String)
    → no_colon d ≡ true
    → no_colon d' ≡ true
    → no_colon k ≡ true
    → no_colon k' ≡ true
    → idempotency_key d k t ≡ idempotency_key d' k' t'
    → (d ≡ d') × (k ≡ k') × (t ≡ t')
unfolding idempotency_key
idempotency_key-injective d d' k k' t t' hd hd' hk hk' e =
    let (same_d, e') = split_at_colon d d' _ _ hd hd' (append_cancel_left "orch:idem:" _ _ e) in
    let (same_k, same_t) = split_at_colon k k' t t' hk hk' e' in (same_d, same_k, same_t)
