-- ===== src/Orchestrator/Merge/Limit.antt =====
-- How many advices of an agent the limit of advice_merger.py lets through.
use investment_intelligence.Prelude.{
  ℕ, ◌+◌, ◌≤◌, ◌<◌, ◌≡◌, refl, sym, ap, ◌∙◌, ◌≢◌, inl, inr, true, false, ◌&&◌, List, [], ◌∷◌, ◌++◌,
  String, length, leb, arith, length-append, length-keep_if, if◌then◌else◌, Bool-cases,
}
use mathlib.Core.List.{append_assoc, append-nil}
use investment_intelligence.Prelude.Keys.{◌=?◌, String-keys, eq_or_ne, =?_ne}
use investment_intelligence.Prelude.Dict.{lookup, lookup-insert_self, lookup-insert_ne}
use investment_intelligence.Orchestrator.Merge.{PerAgentRateLimit, history_of, recent, allow}

abbrev bucket : String → PerAgentRateLimit → List ℕ
bucket a l = history_of (lookup a l.buckets)

-- The times at which the limit let advices of `a` through, among the advices of all agents.
pub grants : String → List (String × ℕ) → PerAgentRateLimit → List ℕ
grants a [] l = []
grants a ((b, now) ∷ ops) l =
    let (allowed, l') = allow b now l in
    let rest = grants a ops l' in if allowed && (b =? a) then now ∷ rest else rest

-- The times do not fall, from `t` to `u`.
abbrev pub InOrder : ℕ → List (String × ℕ) → ℕ → Type 0
InOrder t [] u = t ≤ u
InOrder t ((_, now) ∷ ops) u = (t ≤ now) × InOrder now ops u

recent-append : (n : ℕ) (xs ys : List ℕ) → recent n (xs ++ ys) ≡ recent n xs ++ recent n ys
unfolding recent
recent-append n [] ys = refl
recent-append n (x ∷ xs) ys = ground (arith, recent-append n xs ys)

-- What is old at a time is old later.
recent-recent : (m n : ℕ) (xs : List ℕ) → m ≤ n → recent n (recent m xs) ≡ recent n xs
unfolding recent
recent-recent m n [] h = refl
recent-recent m n (x ∷ xs) h = ground (arith, recent-recent m n xs h)

length-recent : (n : ℕ) (xs : List ℕ) → length (recent n xs) ≤ length xs
unfolding recent
length-recent n xs = length-keep_if (λ ts. leb n (ts + 60_000)) xs

-- The bucket holds what counts of the grants, from `t` on.
record Follows (a : String) (t : ℕ) (l : PerAgentRateLimit) (given : List ℕ) : Type 0 where
  small : length (bucket a l) ≤ l.max
  same : (n : ℕ) → t ≤ n → recent n (bucket a l) ≡ recent n given

allow-max : (b : String) (now : ℕ) (l : PerAgentRateLimit) → (allow b now l).1.max ≡ l.max
unfolding allow
allow-max b now l = ground arith

allow_other :
    (a b : String) (now : ℕ) (l : PerAgentRateLimit)
    → b ≢ a
    → bucket a (allow b now l).1 ≡ bucket a l
unfolding allow
allow_other a b now l ne = ground (
  arith,
  lookup-insert_ne b a (recent now (bucket b l)) l.buckets ne,
  lookup-insert_ne b a (recent now (bucket b l) ++ now ∷ []) l.buckets ne,
)

allow_self :
    (a : String) (now : ℕ) (l : PerAgentRateLimit)
    → ((allow a now l).0 ≡ true
        → (bucket a (allow a now l).1 ≡ recent now (bucket a l) ++ now ∷ [])
          × (length (recent now (bucket a l)) < l.max))
      × ((allow a now l).0 ≡ false → bucket a (allow a now l).1 ≡ recent now (bucket a l))
unfolding allow
allow_self a now l = ground (
  arith,
  lookup-insert_self a (recent now (bucket a l)) l.buckets,
  lookup-insert_self a (recent now (bucket a l) ++ now ∷ []) l.buckets,
)

refused-Follows :
    (a : String) (t now : ℕ) (l : PerAgentRateLimit) (given : List ℕ)
    → t ≤ now
    → (allow a now l).0 ≡ false
    → Follows a t l given
    → Follows a now (allow a now l).1 given
refused-Follows a t now l given le no_grant f =
    let kept = (allow_self a now l).1 no_grant in
    record {
      small = rw (kept, allow-max a now l) (omega (arith, length-recent now (bucket a l), f.small));
      same =
          λ n h. ap (recent n) kept ∙ recent-recent now n (bucket a l) h ∙ f.same n (omega arith);
    }

granted-Follows :
    (a : String) (t now : ℕ) (l : PerAgentRateLimit) (given : List ℕ)
    → t ≤ now
    → (allow a now l).0 ≡ true
    → Follows a t l given
    → Follows a now (allow a now l).1 (given ++ now ∷ [])
granted-Follows a t now l given le grant f =
    let (kept, room) = (allow_self a now l).0 grant in
    record {
      small =
          rw (kept, allow-max a now l)
            (omega (arith, length-append (recent now (bucket a l)) (now ∷ []), room));
      same = λ n h.
          ap (recent n) kept
          ∙ recent-append n (recent now (bucket a l)) (now ∷ [])
          ∙ ap (λ xs. xs ++ recent n (now ∷ []))
              (recent-recent now n (bucket a l) h ∙ f.same n (omega arith))
          ∙ sym (recent-append n given (now ∷ []));
    }

other-Follows :
    (a b : String) (t now : ℕ) (l : PerAgentRateLimit) (given : List ℕ)
    → t ≤ now
    → b ≢ a
    → Follows a t l given
    → Follows a now (allow b now l).1 given
other-Follows a b t now l given le ne f =
    let kept = allow_other a b now l ne in
    record {
      small = rw (kept, allow-max b now l) f.small;
      same = λ n h. ap (recent n) kept ∙ f.same n (omega arith);
    }

module _ (a : String) where
  grants_other :
      (b : String) (now : ℕ) (ops : List (String × ℕ)) (l : PerAgentRateLimit)
      → b ≢ a
      → grants a ((b, now) ∷ ops) l ≡ grants a ops (allow b now l).1
  unfolding grants
  grants_other b now ops l ne = ground (arith, =?_ne b a ne)

  grants_self :
      (b : String) (now : ℕ) (ops : List (String × ℕ)) (l : PerAgentRateLimit)
      → b ≡ a
      → grants a ((b, now) ∷ ops) l ≡ (
          if (allow b now l).0
          then now ∷ grants a ops (allow b now l).1
          else grants a ops (allow b now l).1)
  unfolding grants
  grants_self b now ops l e = ground (arith, String-keys.beq_iff b a)

  grants-le :
      (max t u : ℕ) (ops : List (String × ℕ)) (l : PerAgentRateLimit) (given : List ℕ)
      → l.max ≡ max
      → InOrder t ops u
      → Follows a t l given
      → length (recent u (given ++ grants a ops l)) ≤ max
  grants-le max t u [] l given m order f =
      let none_left : grants a [] l ≡ [] = unfold grants in refl in
      rw (none_left, append-nil, ← f.same u order)
        (omega (arith, length-recent u (bucket a l), f.small))
  grants-le max t u ((b, now) ∷ ops) l given m order f = elim (eq_or_ne b a) [
    | inr ne ↦ rw (grants_other b now ops l ne) (
        grants-le max now u ops (allow b now l).1 given (allow-max b now l ∙ m) order.1
          (other-Follows a b t now l given order.0 ne f))
    | inl e ↦
        rw (e, grants_self a now ops l refl)
          (elim (Bool-cases (allow a now l).0) [
            | inl grant ↦
                rw (grant, ← append_assoc given (now ∷ []))
                  (grants-le max now u ops (allow a now l).1 (given ++ now ∷ [])
                    (allow-max a now l ∙ m) order.1
                    (granted-Follows a t now l given order.0 grant f))
            | inr no_grant ↦ rw no_grant (
                grants-le max now u ops (allow a now l).1 given (allow-max a now l ∙ m) order.1
                  (refused-Follows a t now l given order.0 no_grant f))
          ])
  ]

-- However the advices of all agents come, in the order of time, the limit lets through at most `max`
-- of one agent in the minute up to any later time.
pub advices_bounded :
    (a : String) (max t u : ℕ) (ops : List (String × ℕ))
    → InOrder t ops u
    → length (recent u (grants a ops (record { max = max; buckets = [] }))) ≤ max
advices_bounded a max t u ops order =
    grants-le a max t u ops (record { max = max; buckets = [] }) [] refl order
      (record { small = omega arith; same = λ n h. refl })
