-- ===== src/Prelude/Text.antt =====
-- Python's text methods that the program calls, over the native texts.
use Prim.Native.Char.{code}
use Prim.Native.Nat.{ℕ, zero, suc}
use Prim.Native.String.{String}
use mathlib.Core.Bool.{Bool, true, false, ◌&&◌, ◌||◌}
use mathlib.Core.Option.{Option, none, some}
use mathlib.Core.List.{List, [], ◌∷◌}
use Prim.Native.Nat.{◌≤◌}
use mathlib.Core.Logic.{inl, inr}
use native.Mathlib.Omega.{arith}
use investment_intelligence.Prelude.Tests.{leb, ◌==◌, if◌then◌else◌, Bool-cases}
use investment_intelligence.Prelude.Lists.{length}

-- The code points of a text.
abbrev pub codes : String → List ℕ
codes String.[] = []
codes (String.◌∷◌ c s) = code c ∷ codes s

-- `str.isspace` of one character.
abbrev pub is_space : ℕ → Bool
is_space c =
    leb 9 c && leb c 13
    || leb 28 c && leb c 32
    || c == 133
    || c == 160
    || c == 5760
    || leb 8192 c && leb c 8202
    || c == 8232
    || c == 8233
    || c == 8239
    || c == 8287
    || c == 12288

abbrev pub all_space : List ℕ → Bool
all_space [] = true
all_space (c ∷ cs) = is_space c && all_space cs

-- `not s.strip()`
unfoldable pub is_blank : String → Bool
is_blank s = all_space (codes s)

-- `not (o or "").strip()`
abbrev pub is_blank? : Option String → Bool
is_blank? none = true
is_blank? (some s) = is_blank s

-- `len(s)`
unfoldable pub text_length : List ℕ → ℕ
text_length [] = 0
text_length (c ∷ cs) = suc (text_length cs)

-- `re.match("^[0-9A-HJKMNP-TV-Z]{26}$", s)`; `$` also matches before one newline at the end.
abbrev is_crockford : ℕ → Bool
is_crockford c =
    leb b'0' c && leb c b'9'
    || leb b'A' c && leb c b'H'
    || leb b'J' c && leb c b'K'
    || leb b'M' c && leb c b'N'
    || leb b'P' c && leb c b'T'
    || leb b'V' c && leb c b'Z'

crockford_run : ℕ → List ℕ → Bool
crockford_run zero [] = true
crockford_run zero (c ∷ []) = c == 10
crockford_run zero (c ∷ _) = false
crockford_run (suc n) [] = false
crockford_run (suc n) (c ∷ cs) = is_crockford c && crockford_run n cs

unfoldable pub is_ulid_text : String → Bool
unfolding crockford_run
is_ulid_text s = crockford_run 26 (codes s)

-- `str.strip()`
unfoldable pub strip_left : List ℕ → List ℕ
strip_left [] = []
strip_left (c ∷ cs) = let rest = strip_left cs in if is_space c then rest else c ∷ cs

abbrev pub drop_blank : ℕ → List ℕ → List ℕ
drop_blank c [] = if is_space c then [] else c ∷ []
drop_blank c (d ∷ ds) = c ∷ d ∷ ds

unfoldable pub strip_right : List ℕ → List ℕ
strip_right [] = []
strip_right (c ∷ cs) = drop_blank c (strip_right cs)

unfoldable pub strip : List ℕ → List ℕ
strip cs = strip_right (strip_left cs)

length-strip_left : (cs : List ℕ) → length (strip_left cs) ≤ length cs
unfolding strip_left
length-strip_left [] = omega arith
length-strip_left (c ∷ cs) = elim (Bool-cases (is_space c)) [
  | inl space ↦ rw space (omega (arith, length-strip_left cs))
  | inr ink ↦ rw ink (omega arith)
]

length-drop_blank : (c : ℕ) (ds : List ℕ) → length (drop_blank c ds) ≤ suc (length ds)
length-drop_blank c [] = elim (Bool-cases (is_space c)) [
  | inl space ↦ rw space (omega arith)
  | inr ink ↦ rw ink (omega arith)
]
length-drop_blank c (d ∷ ds) = omega arith

length-strip_right : (cs : List ℕ) → length (strip_right cs) ≤ length cs
unfolding strip_right
length-strip_right [] = omega arith
length-strip_right (c ∷ cs) =
    omega (arith, length-drop_blank c (strip_right cs), length-strip_right cs)

pub length-strip : (cs : List ℕ) → length (strip cs) ≤ length cs
unfolding strip
length-strip cs = omega (arith, length-strip_right (strip_left cs), length-strip_left cs)
