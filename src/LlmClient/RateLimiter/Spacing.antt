-- ===== src/LlmClient/RateLimiter/Spacing.antt =====
-- How often rate_limiter.py starts a call, and how many run at once.
use investment_intelligence.Prelude.{
  ℕ, zero, suc, ◌+◌, ◌-◌, ◌*◌, ◌≤◌, ◌≡◌, refl, true, ◌&&◌, List, [], ◌∷◌, Option, none, some, ltb,
  leb, if◌then◌else◌, arith, Bool-cases, inl, inr,
}
use investment_intelligence.LlmClient.RateLimiter.{
  Bucket, has_permit, reserve, start_of, Op, acquire, cancel_sleep, release, after_all, slots,
}

-- The slots that begin in a stretch of time, its end excluded.
abbrev pub count_in : ℕ → ℕ → List ℕ → ℕ
count_in lo hi [] = 0
count_in lo hi (s ∷ ss) = (if leb lo s && ltb s hi then 1 else 0) + count_in lo hi ss

abbrev pub span : ℕ → ℕ → ℕ
span zero interval = 0
span (suc k) interval = interval + span k interval

none_before :
    (ops : List Op) (b : Bucket) (lo hi : ℕ) → hi ≤ b.next_ready → count_in lo hi (slots ops b) ≡ 0
unfolding reserve
none_before [] b lo hi h = refl
none_before (acquire now ∷ ops) b lo hi h = elim (Bool-cases (has_permit b.concurrency b.out)) [
  | inl free ↦ rw free (
      ground
        (arith, none_before ops (record (reserve now b).1 { out = suc b.out }) lo hi (omega arith)))
  | inr full ↦ rw full (none_before ops b lo hi h)
]
none_before (cancel_sleep ∷ ops) b lo hi h = none_before ops (record b { out = b.out - 1 }) lo hi h
none_before (release ∷ ops) b lo hi h = none_before ops (record b { out = b.out - 1 }) lo hi h

count_in_split :
    (lo mid hi : ℕ) (ss : List ℕ) → count_in lo hi ss ≤ count_in lo mid ss + count_in mid hi ss
count_in_split lo mid hi [] = omega arith
count_in_split lo mid hi (s ∷ ss) = ground (arith, count_in_split lo mid hi ss)

count_in_empty : (lo hi : ℕ) (ss : List ℕ) → hi ≤ lo → count_in lo hi ss ≡ 0
count_in_empty lo hi [] h = refl
count_in_empty lo hi (s ∷ ss) h = ground (arith, count_in_empty lo hi ss h)

-- One more slot, behind which the others are at least the interval away.
first_slot :
    (s lo k interval : ℕ) (ss : List ℕ)
    → count_in lo (lo + span (suc k) interval) ss ≤ suc k
    → count_in (lo + interval) (lo + interval + span k interval) ss ≤ k
    → (lo ≤ s → count_in lo (lo + interval) ss ≡ 0)
    → count_in lo (lo + span (suc k) interval) (s ∷ ss) ≤ suc k
first_slot s lo k interval ss all later none_near =
    ground (arith, count_in_split lo (lo + interval) (lo + interval + span k interval) ss)

bound_from :
    (ops : List Op) (b : Bucket) (lo k : ℕ) → count_in lo (lo + span k b.interval) (slots ops b) ≤ k
unfolding reserve
bound_from ops b lo zero = omega (arith, count_in_empty lo (lo + 0) (slots ops b))
bound_from [] b lo (suc k) = omega arith
bound_from (acquire now ∷ ops) b lo (suc k) = elim (Bool-cases (has_permit b.concurrency b.out)) [
  | inl free ↦
      let b' : Bucket = record (reserve now b).1 { out = suc b.out } in
      rw free (
        first_slot (start_of now b) lo k b.interval (slots ops b') (bound_from ops b' lo (suc k))
          (bound_from ops b' (lo + b.interval) k)
          (λ h. none_before ops b' lo (lo + b.interval) (omega (arith, h))))
  | inr full ↦ rw full (bound_from ops b lo (suc k))
]
bound_from (cancel_sleep ∷ ops) b lo (suc k) =
    bound_from ops (record b { out = b.out - 1 }) lo (suc k)
bound_from (release ∷ ops) b lo (suc k) = bound_from ops (record b { out = b.out - 1 }) lo (suc k)

span_times : (k interval : ℕ) → span k interval ≡ k * interval
span_times zero interval = ground arith
span_times (suc k) interval = ground (arith, span_times k interval)

-- The permits that are out, against the cap.
abbrev pub WithinCap : Option ℕ → ℕ → Type 0
WithinCap none out = Unit
WithinCap (some cap) out = out ≤ cap

acquire_within :
    (concurrency : Option ℕ) (out : ℕ)
    → has_permit concurrency out ≡ true
    → WithinCap concurrency (suc out)
acquire_within none out h = tt
acquire_within (some cap) out h = ground arith

release_within :
    (concurrency : Option ℕ) (out : ℕ) → WithinCap concurrency out → WithinCap concurrency (out - 1)
release_within none out h = tt
release_within (some cap) out h = omega (arith, h)

after_all-WithinCap :
    (ops : List Op) (b : Bucket)
    → WithinCap b.concurrency b.out
    → WithinCap b.concurrency (after_all ops b).out
unfolding reserve
after_all-WithinCap [] b h = h
after_all-WithinCap (acquire now ∷ ops) b h = elim (Bool-cases (has_permit b.concurrency b.out)) [
  | inl free ↦
      rw (free, after_all)
        (after_all-WithinCap ops (record (reserve now b).1 { out = suc b.out })
          (acquire_within b.concurrency b.out free))
  | inr full ↦ rw (full, after_all) (after_all-WithinCap ops b h)
]
after_all-WithinCap (cancel_sleep ∷ ops) b h =
    after_all-WithinCap ops (record b { out = b.out - 1 }) (release_within b.concurrency b.out h)
after_all-WithinCap (release ∷ ops) b h =
    after_all-WithinCap ops (record b { out = b.out - 1 }) (release_within b.concurrency b.out h)

-- Whatever calls come to a bucket, are cancelled in their sleep and give back their permits, in any
-- order: in every stretch of k intervals at most k calls begin, and if no more permits than the cap are
-- out at the start, no more are out at the end.
pub slots_bounded :
    (ops : List Op) (b : Bucket) (lo k : ℕ)
    → (count_in lo (lo + k * b.interval) (slots ops b) ≤ k)
      × (WithinCap b.concurrency b.out → WithinCap b.concurrency (after_all ops b).out)
slots_bounded ops b lo k =
    (rw⁻¹ (span_times k b.interval) (bound_from ops b lo k), after_all-WithinCap ops b)
