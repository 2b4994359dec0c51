-- ===== src/Notifier/RateLimit/Refines.antt =====
-- ratelimit.py against its description: a grant is refused exactly when the window is used up.
use mathlib.Core.Path.{subst}
use investment_intelligence.Prelude.{
  ℕ, suc, ◌+◌, ◌≤◌, ◌≡◌, ◌≢◌, refl, sym, ap, ◌∙◌, Bool, true, false, not, ◌&&◌, Option, none, some,
  List, [], ◌∷◌, ◌++◌, String, length, ltb, leb, ◌==◌, if◌then◌else◌, arith, All, All-mono,
  All-append, Bool-cases, inl, inr,
}
use investment_intelligence.Prelude.Keys.{String-keys, ◌=?◌, =?_refl, =?_ne, eq_or_ne}
use investment_intelligence.Prelude.Dict.{
  lookup, insert, remove, lookup-insert_self, lookup-insert_ne, lookup-remove,
}
use investment_intelligence.Notifier.RateLimit.{
  Window, Windows, Limits, limit_of, window_or_new, fresh_window, drop_stale, acquire, reset, Call,
  acquire_at, reset_of, answer, answers,
}
use investment_intelligence.Notifier.RateLimit.Timestamps.{
  count_fresh, Ascending, length-drop_stale, count_fresh-drop_stale, count_fresh-append,
  All-drop_stale, Ascending-drop_stale, Ascending-append,
}

-- The grants of the limiter, the last one first, each with its key and time.
abbrev pub Grants : Type 0
Grants = List (String × ℕ)

-- How many grants of a key are not older than its window at `now`.
abbrev pub recent : String → ℕ → ℕ → Grants → ℕ
recent key w now [] = 0
recent key w now ((k, t) ∷ grants) =
    let rest = recent key w now grants in
    if (k =? key) && not (ltb (t + w) now) then suc rest else rest

abbrev pub forget : String → Grants → Grants
forget key [] = []
forget key ((k, t) ∷ grants) =
    let rest = forget key grants in if k =? key then rest else (k, t) ∷ rest

-- The description: a key with a limit is refused when its recent grants have used the limit.
pub allowed : Limits → String → ℕ → Grants → Bool
allowed limits key now grants =
    if (limit_of limits key).0 == 0
    then true
    else not (leb (limit_of limits key).0 (recent key (limit_of limits key).1 now grants))

abbrev pub note_grant : Limits → String → ℕ → Grants → Grants
unfolding allowed
note_grant limits key now grants =
    if (limit_of limits key).0 == 0
    then grants
    else if leb (limit_of limits key).0 (recent key (limit_of limits key).1 now grants)
    then grants
    else (key, now) ∷ grants

abbrev pub forget_grants : Option String → Grants → Grants
forget_grants none grants = []
forget_grants (some key) grants = forget key grants

abbrev pub allowed_answers : Limits → List Call → Grants → List Bool
allowed_answers limits [] grants = []
allowed_answers limits (acquire_at key now ∷ calls) grants =
    allowed limits key now grants ∷ allowed_answers limits calls (note_grant limits key now grants)
allowed_answers limits (reset_of key ∷ calls) grants =
    allowed_answers limits calls (forget_grants key grants)

-- The times of the calls never decrease.
abbrev pub Clocked : ℕ → List Call → Type 0
Clocked clock [] = Unit
Clocked clock (acquire_at key now ∷ calls) = (clock ≤ now) × Clocked now calls
Clocked clock (reset_of key ∷ calls) = Clocked clock calls

-- A window that agrees with the grants of its key from `clock` on.
record Tracks (limit : ℕ × ℕ) (clock : ℕ) (key : String) (grants : Grants) (w : Window)
    : Type 0 where
  capacity : w.capacity ≡ limit.0
  window_s : w.window_s ≡ limit.1
  ascending : Ascending w.timestamps
  past : All (λ t. t ≤ clock) w.timestamps
  same :
      (now : ℕ) → clock ≤ now → recent key limit.1 now grants ≡ count_fresh limit.1 now w.timestamps

abbrev window_of : Limits → Windows → String → Window
window_of limits windows key =
    window_or_new (limit_of limits key).0 (limit_of limits key).1 (lookup key windows)

Agrees : Limits → ℕ → Windows → Grants → Type 0
Agrees limits clock windows grants =
    (key : String) → Tracks (limit_of limits key) clock key grants (window_of limits windows key)

Tracks-later :
    (limit : ℕ × ℕ) (clock now : ℕ) (key : String) (grants grants' : Grants) (w : Window)
    → clock ≤ now
    → ((later : ℕ) → recent key limit.1 later grants' ≡ recent key limit.1 later grants)
    → Tracks limit clock key grants w
    → Tracks limit now key grants' w
Tracks-later limit clock now key grants grants' w le e h = record {
  capacity = h.capacity;
  window_s = h.window_s;
  ascending = h.ascending;
  past = All-mono (λ t. t ≤ clock) (λ t. t ≤ now) w.timestamps (λ t p. omega arith) h.past;
  same = λ later p. e later ∙ h.same later (omega arith);
}

Tracks-fresh :
    (limit : ℕ × ℕ) (clock now : ℕ) (key : String) (grants : Grants) (w : Window)
    → clock ≤ now
    → Tracks limit clock key grants w
    → Tracks limit now key grants (fresh_window now w)
Tracks-fresh limit clock now key grants w le h = record {
  capacity = h.capacity;
  window_s = h.window_s;
  ascending = Ascending-drop_stale w.window_s now w.timestamps h.ascending;
  past =
      All-drop_stale (λ t. t ≤ now) w.window_s now w.timestamps
        (All-mono (λ t. t ≤ clock) (λ t. t ≤ now) w.timestamps (λ t p. omega arith) h.past);
  same = λ later p.
      h.same later (omega arith)
      ∙ sym (
          subst
            (λ s.
              count_fresh s later (drop_stale w.window_s now w.timestamps)
              ≡ count_fresh s later w.timestamps)
            h.window_s (count_fresh-drop_stale w.window_s now later w.timestamps p));
}

recent_own :
    (key : String) (w now later : ℕ) (grants : Grants)
    → recent key w later ((key, now) ∷ grants)
      ≡ count_fresh w later (now ∷ []) + recent key w later grants
recent_own key w now later grants = rw (=?_refl key) (ground arith)

recent_other :
    (key other : String) (w now later : ℕ) (grants : Grants)
    → other ≢ key
    → recent key w later ((other, now) ∷ grants) ≡ recent key w later grants
recent_other key other w now later grants n = rw (=?_ne other key n) refl

Tracks-grant :
    (limit : ℕ × ℕ) (now : ℕ) (key : String) (grants : Grants) (w : Window)
    → Tracks limit now key grants w
    → Tracks limit now key
        ((key, now) ∷ grants)
        (record w { timestamps = w.timestamps ++ now ∷ [] })
Tracks-grant limit now key grants w h = record {
  capacity = h.capacity;
  window_s = h.window_s;
  ascending = Ascending-append w.timestamps now h.ascending h.past;
  past = All-append (λ t. t ≤ now) w.timestamps (now ∷ []) h.past (omega arith, tt);
  same = λ later p.
      recent_own key limit.1 now later grants
      ∙ ap (λ n. count_fresh limit.1 later (now ∷ []) + n) (h.same later p)
      ∙ sym (count_fresh-append limit.1 later now w.timestamps);
}

store-Agrees :
    (limits : Limits) (clock now : ℕ) (key : String) (windows : Windows) (grants grants' : Grants)
    (w : Window)
    → clock ≤ now
    → ((other : String) (s later : ℕ)
        → key ≢ other
        → recent other s later grants' ≡ recent other s later grants)
    → Agrees limits clock windows grants
    → Tracks (limit_of limits key) now key grants' w
    → Agrees limits now (insert key w windows) grants'
unfolding Agrees
store-Agrees limits clock now key windows grants grants' w le others h own = λ other.
    elim (eq_or_ne key other) [
      | inl e ↦
          subst
            (λ k.
              Tracks (limit_of limits k) now k grants' (window_of limits (insert key w windows) k))
            e
            (subst
              (λ o.
                Tracks (limit_of limits key) now key grants'
                  (window_or_new (limit_of limits key).0 (limit_of limits key).1 o))
              (sym (lookup-insert_self key w windows)) own)
      | inr n ↦
          subst
            (λ o.
              Tracks (limit_of limits other) now other grants'
                (window_or_new (limit_of limits other).0 (limit_of limits other).1 o))
            (sym (lookup-insert_ne key other w windows n))
            (Tracks-later (limit_of limits other) clock now other grants grants'
              (window_of limits windows other) le
              (λ later. others other (limit_of limits other).1 later n) (h other))
    ]

module _ (limits : Limits) (key : String) (now : ℕ) where
  abbrev cap : ℕ
  cap = (limit_of limits key).0

  abbrev window_now : Windows → Window
  window_now windows = fresh_window now (window_of limits windows key)

  full_iff :
      (clock : ℕ) (windows : Windows) (grants : Grants)
      → clock ≤ now
      → Agrees limits clock windows grants
      → leb (window_now windows).capacity (length (window_now windows).timestamps)
        ≡ leb cap (recent key (limit_of limits key).1 now grants)
  unfolding Agrees
  full_iff clock windows grants le h =
      let w = window_of limits windows key in
      let counted : length (window_now windows).timestamps
          ≡ recent key (limit_of limits key).1 now grants =
        length-drop_stale w.window_s now w.timestamps ((h key).ascending)
        ∙ ap (λ s. count_fresh s now w.timestamps) ((h key).window_s)
        ∙ sym ((h key).same now le) in
      ap (λ c. leb c (length (window_now windows).timestamps)) ((h key).capacity)
      ∙ ap (leb cap) counted

  acquire-uncapped :
      (windows : Windows) → (cap == 0) ≡ true → acquire limits key now windows ≡ (true, windows)
  unfolding acquire
  acquire-uncapped windows z = rw (z, acquire) refl

  acquire-full :
      (windows : Windows)
      → (cap == 0) ≡ false
      → leb (window_now windows).capacity (length (window_now windows).timestamps) ≡ true
      → acquire limits key now windows ≡ (false, insert key (window_now windows) windows)
  unfolding acquire
  acquire-full windows z f = rw (z, f, acquire) refl

  acquire-free :
      (windows : Windows)
      → (cap == 0) ≡ false
      → leb (window_now windows).capacity (length (window_now windows).timestamps) ≡ false
      → acquire limits key now windows ≡ (
        true,
        insert key
            (record (window_now windows) {
              timestamps = (window_now windows).timestamps ++ now ∷ [];
            })
            windows,
      )
  unfolding acquire
  acquire-free windows z f = rw (z, f, acquire) refl

  -- One call keeps the windows in agreement with the description, and both answer alike.
  record Matched (windows : Windows) (grants : Grants) : Type 0 where
    next : Windows
    result : acquire limits key now windows ≡ (allowed limits key now grants, next)
    agrees : Agrees limits now next (note_grant limits key now grants)

  acquire-Matched :
      (clock : ℕ) (windows : Windows) (grants : Grants)
      → clock ≤ now
      → Agrees limits clock windows grants
      → Matched windows grants
  unfolding allowed Agrees
  acquire-Matched clock windows grants le h =
      let w = window_now windows in
      let same = full_iff clock windows grants le h in
      let fresh =
        Tracks-fresh (limit_of limits key) clock now key grants (window_of limits windows key) le
          (h key) in
      elim (Bool-cases (cap == 0)) [
        | inl z ↦ record {
          next = windows;
          result = acquire-uncapped windows z ∙ rw (z, allowed) refl;
          agrees = λ other. rw z (
              Tracks-later (limit_of limits other) clock now other grants grants
                (window_of limits windows other) le (λ later. refl) (h other));
        }
        | inr z ↦ elim (Bool-cases (leb cap (recent key (limit_of limits key).1 now grants))) [
          | inl full ↦ record {
            next = insert key w windows;
            result = acquire-full windows z (same ∙ full) ∙ rw (z, full, allowed) refl;
            agrees =
                rw (z, full)
                  (store-Agrees limits clock now key windows grants grants w le
                    (λ other s later n. refl) h fresh);
          }
          | inr free ↦ record {
            next = insert key (record w { timestamps = w.timestamps ++ now ∷ [] }) windows;
            result = acquire-free windows z (same ∙ free) ∙ rw (z, free, allowed) refl;
            agrees =
                rw (z, free)
                  (store-Agrees limits clock now key windows grants ((key, now) ∷ grants)
                    (record w { timestamps = w.timestamps ++ now ∷ [] }) le
                    (λ other s later n. recent_other other key s now later grants n) h
                    (Tracks-grant (limit_of limits key) now key grants w fresh));
          }
        ]
      ]

recent-forget :
    (key other : String) (w now : ℕ) (grants : Grants)
    → recent other w now (forget key grants)
      ≡ (if key =? other then 0 else recent other w now grants)
recent-forget key other w now [] = ground arith
recent-forget key other w now ((k, t) ∷ grants) = ground (
  arith,
  recent-forget key other w now grants,
  String-keys.beq_iff k key,
  String-keys.beq_iff k other,
  String-keys.beq_iff key other,
)

Tracks-new :
    (limit : ℕ × ℕ) (clock : ℕ) (key : String) (grants : Grants)
    → ((now : ℕ) → recent key limit.1 now grants ≡ 0)
    → Tracks limit clock key grants (window_or_new limit.0 limit.1 none)
Tracks-new limit clock key grants h = record {
  capacity = refl;
  window_s = refl;
  ascending = tt;
  past = tt;
  same = λ now p. h now;
}

reset-Agrees :
    (limits : Limits) (clock : ℕ) (key : Option String) (windows : Windows) (grants : Grants)
    → Agrees limits clock windows grants
    → Agrees limits clock (reset key windows) (forget_grants key grants)
unfolding reset Agrees
reset-Agrees limits clock none windows grants h =
    λ other. Tracks-new (limit_of limits other) clock other [] (λ now. refl)
reset-Agrees limits clock (some key) windows grants h = λ other.
    let limit = limit_of limits other in
    let found = lookup-remove key other windows in
    elim (Bool-cases (key =? other)) [
      | inl e ↦
          let gone : lookup other (remove key windows) ≡ none = found ∙ rw e refl in
          subst
            (λ o. Tracks limit clock other (forget key grants) (window_or_new limit.0 limit.1 o))
            (sym gone)
            (Tracks-new limit clock other (forget key grants)
              (λ now. recent-forget key other limit.1 now grants ∙ rw e refl))
      | inr n ↦
          let kept : lookup other (remove key windows) ≡ lookup other windows = found ∙ rw n refl in
          subst
            (λ o. Tracks limit clock other (forget key grants) (window_or_new limit.0 limit.1 o))
            (sym kept)
            (Tracks-later limit clock clock other grants (forget key grants)
              (window_of limits windows other) (omega arith)
              (λ later. recent-forget key other limit.1 later grants ∙ rw n refl) (h other))
    ]

answers-allowed_from :
    (limits : Limits) (calls : List Call) (clock : ℕ) (windows : Windows) (grants : Grants)
    → Clocked clock calls
    → Agrees limits clock windows grants
    → answers limits calls windows ≡ allowed_answers limits calls grants
unfolding answers
answers-allowed_from limits [] clock windows grants c h = refl
answers-allowed_from limits (acquire_at key now ∷ calls) clock windows grants c h =
    let m = acquire-Matched limits key now clock windows grants c.0 h in
    ap (answer (answers limits calls)) m.result
    ∙ ap (λ rest. allowed limits key now grants ∷ rest)
        (answers-allowed_from limits calls now m.next (note_grant limits key now grants) c.1
          m.agrees)
answers-allowed_from limits (reset_of key ∷ calls) clock windows grants c h =
    answers-allowed_from limits calls clock (reset key windows) (forget_grants key grants) c
      (reset-Agrees limits clock key windows grants h)

-- For every sequence of calls whose clock does not run back, a new limiter answers as its description
-- does: a key with no limit is always granted, and a key with a limit is refused exactly when as many
-- grants as the limit since its last reset are not older than the window.
pub answers-allowed :
    (limits : Limits) (calls : List Call)
    → Clocked 0 calls
    → answers limits calls [] ≡ allowed_answers limits calls []
answers-allowed limits calls c =
    answers-allowed_from limits calls 0 [] [] c
      (unfold Agrees in λ key. Tracks-new (limit_of limits key) 0 key [] (λ now. refl))
