-- ===== src/Orchestrator/Merge/Normalizer.antt =====
-- apps/orchestrator/orchestrator/merge/normalizer.py: the canonical form of a ticker. A text is its
-- list of code points.
pub mod Canonical
use investment_intelligence.Prelude.{
  ℕ, zero, suc, ◌-◌, Bool, true, false, not, ◌&&◌, ◌||◌, List, [], ◌∷◌, ◌++◌, leb, ◌==◌,
  if◌then◌else◌,
}
use investment_intelligence.Prelude.Text.{strip}
use investment_intelligence.Prelude.Outcome.{Result, ok, err}

pub data TickerError : Type 0 where
  not_canonical : TickerError

-- `str.upper()` of one character, as far as the result is in ASCII: the Latin letters, and the
-- characters outside ASCII whose upper case is in ASCII. Any other one stays outside ASCII, in one
-- character or several, and is left as it is here.
unfoldable pub upper : ℕ → List ℕ
upper c =
    if leb b'a' c && leb c b'z'
    then (c - 32) ∷ []
    else if c == 0xdf
    then b'S' ∷ b'S' ∷ []
    else if c == 0x131
    then b'I' ∷ []
    else if c == 0x17f
    then b'S' ∷ []
    else if c == 0xfb00
    then b'F' ∷ b'F' ∷ []
    else if c == 0xfb01
    then b'F' ∷ b'I' ∷ []
    else if c == 0xfb02
    then b'F' ∷ b'L' ∷ []
    else if c == 0xfb03
    then b'F' ∷ b'F' ∷ b'I' ∷ []
    else if c == 0xfb04
    then b'F' ∷ b'F' ∷ b'L' ∷ []
    else if c == 0xfb05 || c == 0xfb06
    then b'S' ∷ b'T' ∷ []
    else c ∷ []

unfoldable pub upper_all : List ℕ → List ℕ
upper_all [] = []
upper_all (c ∷ cs) = upper c ++ upper_all cs

-- `[A-Z]` and `[A-Z0-9.\-]`
unfoldable pub is_capital : ℕ → Bool
is_capital c = leb b'A' c && leb c b'Z'

unfoldable pub is_ticker_char : ℕ → Bool
is_ticker_char c = is_capital c || leb b'0' c && leb c b'9' || c == b'.' || c == b'-'

-- `[A-Z0-9.\-]{0,n}$`; `$` also matches before one newline at the end.
unfoldable pub matches_rest : ℕ → List ℕ → Bool
matches_rest n [] = true
matches_rest zero (c ∷ []) = c == 10
matches_rest zero (c ∷ d ∷ cs) = false
matches_rest (suc n) (c ∷ []) = is_ticker_char c || c == 10
matches_rest (suc n) (c ∷ d ∷ cs) = is_ticker_char c && matches_rest n (d ∷ cs)

-- `_TICKER_RE.match`
unfoldable pub matches_ticker : List ℕ → Bool
matches_ticker [] = false
matches_ticker (c ∷ cs) = is_capital c && matches_rest 9 cs

unfoldable pub canonical_ticker : List ℕ → Result TickerError (List ℕ)
canonical_ticker raw =
    let cleaned = upper_all (strip raw) in
    if matches_ticker cleaned then ok cleaned else err not_canonical
