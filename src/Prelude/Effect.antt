-- ===== src/Prelude/Effect.antt =====
-- Calls that act on a world and may raise, in sequence.
use mathlib.Core.Path.{◌≡◌, refl}
use investment_intelligence.Prelude.Outcome.{Result, ok, err}

abbrev pub Effect : Type 0 → Type 0 → Type 0 → Type 0
Effect W E A = W → Result E A × W

abbrev pub pure : {W E A : Type 0} → A → Effect W E A
pure a w = (ok a, w)

abbrev pub throw : {W E A : Type 0} → E → Effect W E A
throw e w = (err e, w)

-- What follows a call that has ended.
abbrev pub proceed : {W E A B : Type 0} → Result E A × W → (A → Effect W E B) → Result E B × W
proceed (ok a, w) f = f a w
proceed (err e, w) f = (err e, w)

infixl 5 ◌>>=◌ ◌>>◌
abbrev pub ◌>>=◌ : {W E A B : Type 0} → Effect W E A → (A → Effect W E B) → Effect W E B
◌>>=◌ m f w = proceed (m w) f

abbrev pub ◌>>◌ : {W E B : Type 0} → Effect W E (Unit {0}) → Effect W E B → Effect W E B
m >> k = m >>= λ _. k

abbrev pub relabel : {W E F A : Type 0} → (E → F) → Result E A × W → Result F A × W
relabel f (ok a, w) = (ok a, w)
relabel f (err e, w) = (err (f e), w)

-- `raise F from e`
abbrev pub map_error : {W E F A : Type 0} → (E → F) → Effect W E A → Effect W F A
map_error f m w = relabel f (m w)

-- Inversion of a sequence that returns.
pub proceed-eq-ok :
    {W E A B : Type 0} (r : Result E A × W) (f : A → Effect W E B) {b : B} {w' : W}
    → proceed r f ≡ (ok b, w')
    → (a : A) × ((w : W) × (r ≡ (ok a, w)) × (f a w ≡ (ok b, w')))
proceed-eq-ok (ok a, w) f h = (a, (w, refl, h))
proceed-eq-ok (err e, w) f h = cc
