-- ===== src/Lake/Ledger/Order.antt =====
-- The sorted rows that advice_ledger.py reads: what a new row changes in them.
use investment_intelligence.Prelude.{
  ◌≡◌, refl, Bool, true, false, some, [], ◌∷◌, ◌++◌, arith, last?, All,
}
use investment_intelligence.Lake.Ledger.{Row, Table, exists, before, place, ordered}

pub exists-place :
    (p : Row → Bool) (r : Row) (rs : Table) → exists p (place r rs) ≡ exists p (r ∷ rs)
exists-place p r [] = refl
exists-place p r (s ∷ rs) = ground (arith, exists-place p r rs)

pub exists-ordered : (p : Row → Bool) (rs : Table) → exists p (ordered rs) ≡ exists p rs
exists-ordered p [] = refl
exists-ordered p (r ∷ rs) = ground (arith, exists-place p r (ordered rs), exists-ordered p rs)

module _ {κ} (P : Row → Type κ) where
  All-place : (r : Row) (rs : Table) → P r → All P rs → All P (place r rs)
  All-place r [] h hs = (h, tt)
  All-place r (s ∷ rs) h hs = ground (arith, All-place r rs h hs.1)

  pub All-ordered : (rs : Table) → All P rs → All P (ordered rs)
  All-ordered [] hs = tt
  All-ordered (r ∷ rs) hs = All-place r (ordered rs) hs.0 (All-ordered rs hs.1)

-- A row that is before none of the others goes to the end.
pub place-last :
    (r : Row) (rs : Table) → All (λ s. before r s ≡ false) rs → place r rs ≡ rs ++ r ∷ []
place-last r [] h = refl
place-last r (s ∷ rs) h = ground (arith, place-last r rs h.1)

pub last?-append : (r : Row) (rs : Table) → last? (rs ++ r ∷ []) ≡ some r
last?-append r [] = refl
last?-append r (s ∷ []) = refl
last?-append r (s ∷ u ∷ rs) = last?-append r (u ∷ rs)

last?-cons : (s : Row) (rs : Table) {top : Row} → last? rs ≡ some top → last? (s ∷ rs) ≡ some top
last?-cons s [] h = cc
last?-cons s (u ∷ rs) h = h

-- A row that is before the last one leaves it last.
pub last?-place :
    (r top : Row) (rs : Table)
    → last? rs ≡ some top
    → before r top ≡ true
    → last? (place r rs) ≡ some top
last?-place r top [] h b = cc
last?-place r top (s ∷ []) h b = ground arith
last?-place r top (s ∷ u ∷ rs) h b =
    ground (arith, last?-cons s (place r (u ∷ rs)) (last?-place r top (u ∷ rs) h b))

pub exists_of_last :
    (p : Row → Bool) (rs : Table) {top : Row}
    → last? rs ≡ some top
    → p top ≡ true
    → exists p rs ≡ true
exists_of_last p [] h q = cc
exists_of_last p (s ∷ []) h q = ground arith
exists_of_last p (s ∷ u ∷ rs) h q = ground (arith, exists_of_last p (u ∷ rs) h q)
