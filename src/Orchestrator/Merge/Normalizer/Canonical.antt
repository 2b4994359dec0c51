-- ===== src/Orchestrator/Merge/Normalizer/Canonical.antt =====
-- What the canonical tickers of normalizer.py are, and which tickers are refused.
use investment_intelligence.Prelude.{
  ℕ, zero, suc, ◌≤◌, ◌≡◌, refl, ◌∙◌, ◌⊎◌, inl, inr, ◌≢◌, Bool, true, false, List, [], ◌∷◌, ◌++◌,
  length, All, arith, ◌&&◌,
}
use investment_intelligence.Prelude.Text.{
  is_space, all_space, drop_blank, strip_left, strip_right, strip,
}
use investment_intelligence.Prelude.Outcome.{ok, err}
use investment_intelligence.Orchestrator.Merge.Normalizer.{
  upper, upper_all, is_capital, is_ticker_char, matches_rest, matches_ticker, canonical_ticker,
  not_canonical,
}

-- A capital of the Latin alphabet, a digit, a full stop or a hyphen.
abbrev pub IsTickerChar : ℕ → Type 0
IsTickerChar c = ((65 ≤ c) × (c ≤ 90)) ⊎ (((48 ≤ c) × (c ≤ 57)) ⊎ ((c ≡ 46) ⊎ (c ≡ 45)))

-- A capital and at most nine characters of a ticker.
abbrev pub IsTicker : List ℕ → Type 0
IsTicker [] = ⊥
IsTicker (c ∷ cs) = (65 ≤ c) × (c ≤ 90) × (length cs ≤ 9) × All IsTickerChar cs

abbrev IsInk : ℕ → Type 0
IsInk c = is_space c ≡ false

-- The last character, if any, is no space.
abbrev EndsInk : List ℕ → Type 0
EndsInk [] = Unit
EndsInk (c ∷ []) = IsInk c
EndsInk (c ∷ d ∷ cs) = EndsInk (d ∷ cs)

is_ticker_char-IsTickerChar : (c : ℕ) → is_ticker_char c ≡ true → IsTickerChar c
unfolding is_ticker_char is_capital
is_ticker_char-IsTickerChar c h = ground arith

IsTickerChar-is_ticker_char : (c : ℕ) → IsTickerChar c → is_ticker_char c ≡ true
unfolding is_ticker_char is_capital
IsTickerChar-is_ticker_char c h = ground arith

IsTickerChar-upper : (c : ℕ) → IsTickerChar c → (upper c ≡ c ∷ []) × IsInk c
unfolding upper
IsTickerChar-upper c h = ground arith

drop_blank-EndsInk : (c : ℕ) (ds : List ℕ) → EndsInk ds → EndsInk (drop_blank c ds)
drop_blank-EndsInk c [] h = ground arith
drop_blank-EndsInk c (d ∷ ds) h = h

strip_right-EndsInk : (cs : List ℕ) → EndsInk (strip_right cs)
unfolding strip_right
strip_right-EndsInk [] = tt
strip_right-EndsInk (c ∷ cs) = drop_blank-EndsInk c (strip_right cs) (strip_right-EndsInk cs)

drop_blank_ink : (c : ℕ) (ds : List ℕ) → IsInk c → drop_blank c ds ≡ c ∷ ds
drop_blank_ink c [] h = rw h
drop_blank_ink c (d ∷ ds) h = refl

strip_right-ink : (cs : List ℕ) → EndsInk cs → strip_right cs ≡ cs
unfolding strip_right
strip_right-ink [] h = refl
strip_right-ink (c ∷ []) h = rw h
strip_right-ink (c ∷ d ∷ cs) h = rw (strip_right-ink (d ∷ cs) h)

-- Upper case keeps the ends.
upper-EndsInk : (c : ℕ) → IsInk c → EndsInk (upper c ++ [])
unfolding upper
upper-EndsInk c h = ground arith

EndsInk-append : (xs ys : List ℕ) → ys ≢ [] → EndsInk ys → EndsInk (xs ++ ys)
EndsInk-append [] ys ne h = h
EndsInk-append (x ∷ []) [] ne h = absurd (ne refl)
EndsInk-append (x ∷ []) (y ∷ ys) ne h = h
EndsInk-append (x ∷ z ∷ xs) ys ne h = EndsInk-append (z ∷ xs) ys ne h

append-ne-nil : (xs ys : List ℕ) → xs ≢ [] → xs ++ ys ≢ []
append-ne-nil [] ys ne e = ne refl
append-ne-nil (x ∷ xs) ys ne e = cc

upper-ne-nil : (c : ℕ) → upper c ≢ []
unfolding upper
upper-ne-nil c e = ground arith

upper_all-EndsInk : (cs : List ℕ) → EndsInk cs → EndsInk (upper_all cs)
unfolding upper_all
upper_all-EndsInk [] h = tt
upper_all-EndsInk (c ∷ []) h = upper-EndsInk c h
upper_all-EndsInk (c ∷ d ∷ cs) h =
    EndsInk-append (upper c) (upper_all (d ∷ cs))
      (append-ne-nil (upper d) (upper_all cs) (upper-ne-nil d)) (upper_all-EndsInk (d ∷ cs) h)

matches_rest-All :
    (n : ℕ) (cs : List ℕ)
    → EndsInk cs
    → matches_rest n cs ≡ true
    → (length cs ≤ n) × All IsTickerChar cs
unfolding matches_rest
matches_rest-All n [] ink h = (omega arith, tt)
matches_rest-All zero (c ∷ []) ink h = absurd (ground arith)
matches_rest-All zero (c ∷ d ∷ cs) ink h = absurd (cc)
matches_rest-All (suc n) (c ∷ []) ink h =
    (omega arith, (is_ticker_char-IsTickerChar c (ground arith), tt))
matches_rest-All (suc n) (c ∷ d ∷ cs) ink h =
    let rest = matches_rest-All n (d ∷ cs) ink (ground arith) in
    (omega (arith, rest.0), (is_ticker_char-IsTickerChar c (ground arith), rest.1))

All-matches_rest :
    (n : ℕ) (cs : List ℕ) → length cs ≤ n → All IsTickerChar cs → matches_rest n cs ≡ true
unfolding matches_rest
All-matches_rest n [] short h = refl
All-matches_rest zero (c ∷ []) short h = absurd (omega arith)
All-matches_rest zero (c ∷ d ∷ cs) short h = absurd (omega arith)
All-matches_rest (suc n) (c ∷ []) short h = ground (arith, IsTickerChar-is_ticker_char c h.0)
All-matches_rest (suc n) (c ∷ d ∷ cs) short h = ground (
  arith,
  IsTickerChar-is_ticker_char c h.0,
  All-matches_rest n (d ∷ cs) (omega (arith, short)) h.1,
)

upper_all-ticker : (cs : List ℕ) → All IsTickerChar cs → (upper_all cs ≡ cs) × EndsInk cs
unfolding upper_all
upper_all-ticker [] h = (refl, tt)
upper_all-ticker (c ∷ []) h = (rw ((IsTickerChar-upper c h.0).0), (IsTickerChar-upper c h.0).1)
upper_all-ticker (c ∷ d ∷ cs) h =
    let (same, ends) = upper_all-ticker (d ∷ cs) h.1 in
    (rw ((IsTickerChar-upper c h.0).0, same), ends)

capital-IsTickerChar : (c : ℕ) → 65 ≤ c → c ≤ 90 → IsTickerChar c
capital-IsTickerChar c lo hi = inl (lo, hi)

is_capital-lem : (c : ℕ) → 65 ≤ c → c ≤ 90 → is_capital c ≡ true
unfolding is_capital
is_capital-lem c lo hi = ground arith

-- A canonical ticker is left as it is.
canonical_ticker-IsTicker : (t : List ℕ) → IsTicker t → canonical_ticker t ≡ ok t
unfolding canonical_ticker matches_ticker strip strip_left
canonical_ticker-IsTicker [] h = absurd h
canonical_ticker-IsTicker (c ∷ cs) (lo, hi, short, chars) =
    let first = capital-IsTickerChar c lo hi in
    let (same, ends) = upper_all-ticker (c ∷ cs) (first, chars) in
    rw (
      (IsTickerChar-upper c first).1,
      strip_right-ink (c ∷ cs) ends,
      same,
      is_capital-lem c lo hi,
      All-matches_rest 9 cs short chars,
    )

matches_ticker-IsTicker : (t : List ℕ) → EndsInk t → matches_ticker t ≡ true → IsTicker t
unfolding matches_ticker is_capital
matches_ticker-IsTicker [] ink h = absurd (cc)
matches_ticker-IsTicker (c ∷ []) ink h = ground arith
matches_ticker-IsTicker (c ∷ d ∷ cs) ink h =
    let (short, chars) = matches_rest-All 9 (d ∷ cs) ink (ground arith) in
    (ground arith, ground arith, short, chars)

cleaned-EndsInk : (raw : List ℕ) → EndsInk (upper_all (strip raw))
unfolding strip
cleaned-EndsInk raw = upper_all-EndsInk _ (strip_right-EndsInk (strip_left raw))

accepted-matches :
    (raw t : List ℕ)
    → canonical_ticker raw ≡ ok t
    → (matches_ticker (upper_all (strip raw)) ≡ true) × (upper_all (strip raw) ≡ t)
unfolding canonical_ticker
accepted-matches raw t h = ground arith

-- What `canonical_ticker` returns is a ticker: a capital of the Latin alphabet and at most nine
-- capitals, digits, full stops and hyphens. It returns every ticker unchanged, so what it has
-- returned once it returns again.
pub canonical_ticker-Fixed :
    (raw t : List ℕ)
    → ((canonical_ticker raw ≡ ok t) → IsTicker t × (canonical_ticker t ≡ ok t))
      × (IsTicker t → canonical_ticker t ≡ ok t)
canonical_ticker-Fixed raw t = (
  (λ h.
      let (matched, same) = accepted-matches raw t h in
      let ticker : IsTicker t =
        rw (← same)
          (matches_ticker-IsTicker (upper_all (strip raw)) (cleaned-EndsInk raw) matched) in
      (ticker, canonical_ticker-IsTicker t ticker)),
  canonical_ticker-IsTicker t,
)

strip_left_step : (c : ℕ) (cs : List ℕ) → is_space c ≡ true → strip_left (c ∷ cs) ≡ strip_left cs
unfolding strip_left
strip_left_step c cs h = rw h

both : (a b : Bool) → (a && b) ≡ true → (a ≡ true) × (b ≡ true)
both a b h = ground arith

strip_left_blank :
    (blank cs : List ℕ) → all_space blank ≡ true → strip_left (blank ++ cs) ≡ strip_left cs
strip_left_blank [] cs h = refl
strip_left_blank (c ∷ blank) cs h =
    let (space, rest) = both (is_space c) (all_space blank) h in
    strip_left_step c (blank ++ cs) space ∙ strip_left_blank blank cs rest

digit-capital : (d : ℕ) → b'0' ≤ d → d ≤ b'9' → is_capital d ≡ false
unfolding is_capital
digit-capital d lo hi = ground arith

-- A ticker whose first visible character is a digit is refused, whatever follows it.
pub digit_first_refused :
    (blank rest : List ℕ) (d : ℕ)
    → all_space blank ≡ true
    → b'0' ≤ d
    → d ≤ b'9'
    → canonical_ticker (blank ++ (d ∷ rest)) ≡ err not_canonical
unfolding canonical_ticker strip strip_left strip_right upper_all matches_ticker
digit_first_refused blank rest d spaces lo hi =
    let ink = IsTickerChar-upper d (inr (inl (lo, hi))) in
    rw (
      strip_left_blank blank (d ∷ rest) spaces,
      strip_left,
      ink.1,
      drop_blank_ink d (strip_right rest) ink.1,
      upper_all,
      ink.0,
      digit-capital d lo hi,
    )
