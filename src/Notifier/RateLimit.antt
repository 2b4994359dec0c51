-- ===== src/Notifier/RateLimit.antt =====
-- packages/notifier/notifier/ratelimit.py: the sliding window of each channel.
-- Times and windows are milliseconds of the monotonic clock.
pub mod Timestamps
pub mod Refines
mod Tests
use investment_intelligence.Prelude.{
  ℕ, zero, ◌+◌, Bool, true, false, Option, none, some, List, [], ◌∷◌, ◌++◌, String, length, ltb,
  leb, ◌==◌, if◌then◌else◌,
}
use investment_intelligence.Prelude.Keys.{String-keys}
use investment_intelligence.Prelude.Dict.{Dict, lookup, insert, remove}

pub record Window : Type 0 where
  pub capacity : ℕ
  pub window_s : ℕ
  pub timestamps : List ℕ

abbrev pub Limits : Type 0
Limits = Dict String (ℕ × ℕ)

abbrev pub Windows : Type 0
Windows = Dict String Window

unfoldable pub default_limits : Limits
default_limits =
    ("wecom_bot:briefs", (20, 60_000))
    ∷ ("wecom_bot:alerts", (20, 60_000))
    ∷ ("wecom_bot:fills", (20, 60_000))
    ∷ ("wecom_app", (60, 60_000))
    ∷ ("serverchan", (5, 60_000))
    ∷ ("ntfy", (1_000, 60_000))
    ∷ ("smtp", (50, 3_600_000))
    ∷ []

abbrev limit_or_zero : Option (ℕ × ℕ) → ℕ × ℕ
limit_or_zero none = (0, 0)
limit_or_zero (some limit) = limit

-- `self._limits.get(key, (0, 0.0))`
abbrev pub limit_of : Limits → String → ℕ × ℕ
limit_of limits key = limit_or_zero (lookup key limits)

-- `while timestamps and timestamps[0] < now - window_s: popleft()`
abbrev pub drop_stale : ℕ → ℕ → List ℕ → List ℕ
drop_stale window_s now [] = []
drop_stale window_s now (t ∷ ts) =
    let rest = drop_stale window_s now ts in if ltb (t + window_s) now then rest else t ∷ ts

-- `self._windows.setdefault(key, _Window(cap, window_s, deque()))`
abbrev pub window_or_new : ℕ → ℕ → Option Window → Window
window_or_new cap window_s none = record { capacity = cap; window_s = window_s; timestamps = [] }
window_or_new cap window_s (some w) = w

-- The test of the capacity, on the window whose stale timestamps are dropped.
abbrev pub admit : String → ℕ → Window → Windows → Bool × Windows
admit key now w windows =
    if leb w.capacity (length w.timestamps)
    then (false, insert key w windows)
    else (true, insert key (record w { timestamps = w.timestamps ++ now ∷ [] }) windows)

abbrev pub fresh_window : ℕ → Window → Window
fresh_window now w = record w { timestamps = drop_stale w.window_s now w.timestamps }

-- The first component is false where the code raises `AdapterRateLimit`.
unfoldable pub acquire : Limits → String → ℕ → Windows → Bool × Windows
acquire limits key now windows =
    if (limit_of limits key).0 == 0
    then (true, windows)
    else admit key now
        (fresh_window now
          (window_or_new (limit_of limits key).0 (limit_of limits key).1 (lookup key windows)))
        windows

pub reset : Option String → Windows → Windows
reset none windows = []
reset (some key) windows = remove key windows

-- The calls that a limiter receives.
pub data Call : Type 0 where
  acquire_at : String → ℕ → Call
  reset_of : Option String → Call

abbrev pub answer : (Windows → List Bool) → Bool × Windows → List Bool
answer rest (granted, windows) = granted ∷ rest windows

-- The answers to a sequence of calls.
pub answers : Limits → List Call → Windows → List Bool
answers limits [] windows = []
answers limits (acquire_at key now ∷ calls) windows =
    answer (answers limits calls) (acquire limits key now windows)
answers limits (reset_of key ∷ calls) windows = answers limits calls (reset key windows)
