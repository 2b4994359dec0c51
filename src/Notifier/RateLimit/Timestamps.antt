-- ===== src/Notifier/RateLimit/Timestamps.antt =====
-- The timestamps of one window of ratelimit.py, oldest first.
use investment_intelligence.Prelude.{
  ℕ, suc, ◌+◌, ◌≤◌, ◌≡◌, refl, false, List, [], ◌∷◌, ◌++◌, length, ltb, if◌then◌else◌, arith, All,
  All-append, Bool-cases, inl, inr,
}
use investment_intelligence.Notifier.RateLimit.{drop_stale}

-- The timestamps that are not older than the window at `now`.
abbrev pub count_fresh : ℕ → ℕ → List ℕ → ℕ
count_fresh w now [] = 0
count_fresh w now (t ∷ ts) =
    if ltb (t + w) now then count_fresh w now ts else suc (count_fresh w now ts)

abbrev pub Ascending : List ℕ → Type 0
Ascending [] = Unit
Ascending (t ∷ ts) = All (λ u. t ≤ u) ts × Ascending ts

All-fresh :
    (w now t : ℕ) (ts : List ℕ)
    → ltb (t + w) now ≡ false
    → All (λ u. t ≤ u) ts
    → count_fresh w now ts ≡ length ts
All-fresh w now t [] f h = refl
All-fresh w now t (u ∷ ts) f h = ground (arith, h.0, All-fresh w now t ts f h.1)

pub length-drop_stale :
    (w now : ℕ) (ts : List ℕ) → Ascending ts → length (drop_stale w now ts) ≡ count_fresh w now ts
length-drop_stale w now [] h = refl
length-drop_stale w now (t ∷ ts) h = elim (Bool-cases (ltb (t + w) now)) [
  | inl stale ↦ rw stale (length-drop_stale w now ts h.1)
  | inr fresh ↦ rw fresh (omega (arith, All-fresh w now t ts fresh h.0))
]

-- What was dropped stays stale.
pub count_fresh-drop_stale :
    (w now later : ℕ) (ts : List ℕ)
    → now ≤ later
    → count_fresh w later (drop_stale w now ts) ≡ count_fresh w later ts
count_fresh-drop_stale w now later [] h = refl
count_fresh-drop_stale w now later (t ∷ ts) h = elim (Bool-cases (ltb (t + w) now)) [
  | inl stale ↦ rw stale (ground (arith, count_fresh-drop_stale w now later ts h))
  | inr fresh ↦ rw fresh refl
]

pub count_fresh-append :
    (w now t : ℕ) (ts : List ℕ)
    → count_fresh w now (ts ++ t ∷ []) ≡ count_fresh w now (t ∷ []) + count_fresh w now ts
count_fresh-append w now t [] = ground arith
count_fresh-append w now t (u ∷ ts) = ground (arith, count_fresh-append w now t ts)

pub All-drop_stale :
    (P : ℕ → Type 0) (w now : ℕ) (ts : List ℕ) → All P ts → All P (drop_stale w now ts)
All-drop_stale P w now [] h = tt
All-drop_stale P w now (t ∷ ts) h = elim (Bool-cases (ltb (t + w) now)) [
  | inl stale ↦ rw stale (All-drop_stale P w now ts h.1)
  | inr fresh ↦ rw fresh h
]

pub Ascending-drop_stale :
    (w now : ℕ) (ts : List ℕ) → Ascending ts → Ascending (drop_stale w now ts)
Ascending-drop_stale w now [] h = tt
Ascending-drop_stale w now (t ∷ ts) h = elim (Bool-cases (ltb (t + w) now)) [
  | inl stale ↦ rw stale (Ascending-drop_stale w now ts h.1)
  | inr fresh ↦ rw fresh h
]

pub Ascending-append :
    (ts : List ℕ) (now : ℕ) → Ascending ts → All (λ t. t ≤ now) ts → Ascending (ts ++ now ∷ [])
Ascending-append [] now h a = (tt, tt)
Ascending-append (t ∷ ts) now h a =
    (All-append (λ u. t ≤ u) ts (now ∷ []) h.0 (a.0, tt), Ascending-append ts now h.1 a.1)
