-- ===== src/LlmClient/RateLimiter.antt =====
-- packages/llm-client/llm_client/rate_limiter.py: the bucket of one provider and tier.
-- `interval` is 1 / rps, in ticks of the monotonic clock.
pub mod Spacing
mod Tests
use Prim.Native.Nat.{max}
use investment_intelligence.Prelude.{
  ℕ, zero, suc, ◌+◌, ◌-◌, Bool, true, false, Option, none, some, List, [], ◌∷◌, ◌++◌, ltb,
  if◌then◌else◌,
}

-- `_Bucket`, with the number of permits that are out.
pub record Bucket : Type 0 where
  pub interval : ℕ
  pub concurrency : Option ℕ
  pub next_ready : ℕ
  pub out : ℕ

-- Whether the semaphore has a permit.
abbrev pub has_permit : Option ℕ → ℕ → Bool
has_permit none out = true
has_permit (some cap) out = ltb out cap

-- The part under the lock: the wait, and the bucket with the next slot reserved.
pub reserve : ℕ → Bucket → ℕ × Bucket
reserve now b = (b.next_ready - now, record b { next_ready = max now b.next_ready + b.interval })

-- The time at which the slot that a call reserves begins.
abbrev pub start_of : ℕ → Bucket → ℕ
start_of now b = now + (reserve now b).0

-- What happens at a bucket: a call comes to `acquire`, the sleep of a call that has a permit is
-- cancelled, which gives the permit back, or `release` is called.
pub data Op : Type 0 where
  acquire : ℕ → Op
  cancel_sleep release : Op

-- The slots that an operation reserves, and the bucket after it. A call that finds no permit waits, and
-- comes again; only a call that holds a permit gives it back.
abbrev pub step : Op → Bucket → List ℕ × Bucket
step (acquire now) b =
    if has_permit b.concurrency b.out
    then (start_of now b ∷ [], record (reserve now b).1 { out = suc b.out })
    else ([], b)
step cancel_sleep b = ([], record b { out = b.out - 1 })
step release b = ([], record b { out = b.out - 1 })

abbrev pub after_all : List Op → Bucket → Bucket
after_all [] b = b
after_all (op ∷ ops) b = after_all ops (step op b).1

-- The slots of all calls, in the order in which they take the lock.
abbrev pub slots : List Op → Bucket → List ℕ
slots [] b = []
slots (op ∷ ops) b = (step op b).0 ++ slots ops (step op b).1
