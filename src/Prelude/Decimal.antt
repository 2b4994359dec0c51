-- ===== src/Prelude/Decimal.antt =====
-- `str(n)` of a natural number, and that it tells numbers apart.
use Prim.Native.Nat.{ℕ, zero, suc, ◌+◌, ◌*◌, ◌/◌, ◌%◌, ◌<◌}
use Prim.Native.String.{String, ◌++◌ as str_append, count}
use mathlib.Core.Path.{◌≡◌, refl, sym, ap, ap₂, ◌∙◌}
use mathlib.Core.List.{List, [], ◌∷◌}
use native.Mathlib.Omega.{arith}
use text.Mathlib.TextLemmas.{length-append, append_inj}
use investment_intelligence.Prelude.Tests.{ltb, if◌then◌else◌}
use investment_intelligence.Prelude.Lists.{All}
use investment_intelligence.Prelude.Text.{codes}

-- The digits, the last one first.
digits : ℕ → ℕ → List ℕ
digits zero n = []
digits (suc f) n = let rest = digits f (n / 10) in if ltb n 10 then n ∷ [] else (n % 10) ∷ rest

digit : ℕ → String
digit zero = "0"
digit (suc zero) = "1"
digit (suc (suc zero)) = "2"
digit (suc (suc (suc zero))) = "3"
digit (suc (suc (suc (suc zero)))) = "4"
digit (suc (suc (suc (suc (suc zero))))) = "5"
digit (suc (suc (suc (suc (suc (suc zero)))))) = "6"
digit (suc (suc (suc (suc (suc (suc (suc zero))))))) = "7"
digit (suc (suc (suc (suc (suc (suc (suc (suc zero)))))))) = "8"
digit _ = "9"

text_of : List ℕ → String
text_of [] = ""
text_of (d ∷ ds) = str_append (text_of ds) (digit d)

unfoldable pub show : ℕ → String
unfolding digits text_of digit
show n = text_of (digits (suc n) n)

value : List ℕ → ℕ
value [] = 0
value (d ∷ ds) = d + 10 * value ds

value-digits : (f n : ℕ) → n < f → value (digits f n) ≡ n
unfolding digits value
value-digits zero n h = absurd (omega arith)
value-digits (suc f) n h = ground (arith, value-digits f (n / 10))

abbrev IsDigit : ℕ → Type 0
IsDigit d = d < 10

digits-IsDigit : (f n : ℕ) → All IsDigit (digits f n)
unfolding digits
digits-IsDigit zero n = tt
digits-IsDigit (suc f) n = ground (arith, digits-IsDigit f (n / 10))

codes-digit : (d : ℕ) → IsDigit d → codes (digit d) ≡ (48 + d) ∷ []
unfolding digit
codes-digit zero h = refl
codes-digit (suc zero) h = refl
codes-digit (suc (suc zero)) h = refl
codes-digit (suc (suc (suc zero))) h = refl
codes-digit (suc (suc (suc (suc zero)))) h = refl
codes-digit (suc (suc (suc (suc (suc zero))))) h = refl
codes-digit (suc (suc (suc (suc (suc (suc zero)))))) h = refl
codes-digit (suc (suc (suc (suc (suc (suc (suc zero))))))) h = refl
codes-digit (suc (suc (suc (suc (suc (suc (suc (suc zero)))))))) h = refl
codes-digit (suc (suc (suc (suc (suc (suc (suc (suc (suc zero))))))))) h = refl
codes-digit (suc (suc (suc (suc (suc (suc (suc (suc (suc (suc d)))))))))) h = absurd (omega arith)

count-digit : (d : ℕ) → count (digit d) ≡ 1
unfolding digit
count-digit zero = refl
count-digit (suc zero) = refl
count-digit (suc (suc zero)) = refl
count-digit (suc (suc (suc zero))) = refl
count-digit (suc (suc (suc (suc zero)))) = refl
count-digit (suc (suc (suc (suc (suc zero))))) = refl
count-digit (suc (suc (suc (suc (suc (suc zero)))))) = refl
count-digit (suc (suc (suc (suc (suc (suc (suc zero))))))) = refl
count-digit (suc (suc (suc (suc (suc (suc (suc (suc zero)))))))) = refl
count-digit (suc (suc (suc (suc (suc (suc (suc (suc (suc d))))))))) = refl

digit-injective : (d e : ℕ) → IsDigit d → IsDigit e → digit d ≡ digit e → d ≡ e
digit-injective d e hd he p = ground (arith, ap codes p, codes-digit d hd, codes-digit e he)

count-text_of : (d : ℕ) (ds : List ℕ) → count (text_of (d ∷ ds)) ≡ count (text_of ds) + 1
unfolding text_of
count-text_of d ds = omega (arith, length-append (text_of ds) (digit d), count-digit d)

count_nil : count (text_of []) ≡ 0
unfolding text_of
count_nil = refl

text_of-injective :
    (xs ys : List ℕ) → All IsDigit xs → All IsDigit ys → text_of xs ≡ text_of ys → xs ≡ ys
text_of-injective [] [] hx hy p = refl
text_of-injective [] (y ∷ ys) hx hy p =
    absurd (omega (arith, ap count p, count-text_of y ys, count_nil))
text_of-injective (x ∷ xs) [] hx hy p =
    absurd (omega (arith, ap count p, count-text_of x xs, count_nil))
text_of-injective (x ∷ xs) (y ∷ ys) hx hy p =
    let split : str_append (text_of xs) (digit x) ≡ str_append (text_of ys) (digit y) =
      unfold text_of in p in
    let (rest, last) =
      append_inj split (omega (arith, ap count p, count-text_of x xs, count-text_of y ys)) in
    ap₂ ◌∷◌ (digit-injective x y hx.0 hy.0 last) (text_of-injective xs ys hx.1 hy.1 rest)

pub show-injective : (m n : ℕ) → show m ≡ show n → m ≡ n
unfolding show
show-injective m n p =
    let same =
      text_of-injective (digits (suc m) m) (digits (suc n) n) (digits-IsDigit (suc m) m)
        (digits-IsDigit (suc n) n) p in
    sym (value-digits (suc m) m (omega arith))
    ∙ ap value same
    ∙ value-digits (suc n) n (omega arith)
