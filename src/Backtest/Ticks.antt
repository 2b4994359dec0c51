-- ===== src/Backtest/Ticks.antt =====
-- What one tick of scheduler.py makes of every position in the store.
use mathlib.Core.Path.{sym, subst}
use investment_intelligence.Prelude.{
  ℕ, suc, ◌≡◌, refl, ap, ◌∙◌, Bool, true, false, Bool-cases, inl, inr, Option, none, some, List, [],
  ◌∷◌, String, arith, if◌then◌else◌,
}
use investment_intelligence.Prelude.Keys.{◌=?◌, String-keys, =?_refl}
use investment_intelligence.Prelude.Dict.{lookup, lookup-insert}
use investment_intelligence.Prelude.Float.{Float}
use investment_intelligence.Prelude.Outcome.{Result, ok, err}
use investment_intelligence.Backtest.{
  ExitReason, Position, Store, check_exit, add_mark, close, open_positions, exit_at, visit_at,
  go_on, add_closed, visit_all, tick,
}

-- A dict of positions under their own ids, no id twice.
abbrev pub IsStore : Store → Type 0
IsStore [] = Unit
IsStore ((k, p) ∷ d) = (p.advice_id ≡ k) × (lookup k d ≡ none) × IsStore d

if-some :
    {A : Type 0} (b : Bool) (x y : A)
    → (if b then some (if b then x else y) else some y) ≡ some (if b then x else y)
if-some true x y = refl
if-some false x y = refl

module _ (latest : String → Option Float) (asof : ℕ) where
  abbrev pub settled_at : Option ExitReason × Float → Position → Position
  settled_at (none, px) p = p
  settled_at (some reason, px) p = close asof (some reason, px) p

  abbrev pub marked : Option Float → Position → Position
  marked none p = p
  marked (some px) p = let p' = add_mark asof px p in settled_at (check_exit p' px asof) p'

  -- An open position with a price has it added to its marks, and is closed where the exit says so.
  abbrev pub settled : Position → Position
  settled p = if p.is_open then marked (latest p.ticker) p else p

  abbrev pub settled_or_none : Option Position → Option Position
  settled_or_none none = none
  settled_or_none (some p) = some (settled p)

  module _ {W E : Type 0} (on_close : Position → W → Result E (Unit {0}) × W)
      (quiet : (p : Position) (w : W) → (on_close p w).0 ≡ ok tt) where
    Visited : String → Position → Store → Position → Result E Bool × Store × W → Type 0
    Visited k p d p' (out, d', w') =
        (closed : Bool) × (out ≡ ok closed)
        × (lookup k d' ≡ (if p.advice_id =? k then some p' else lookup k d))

    exit_at-Visited :
        (k : String) (r : Option ExitReason × Float) (p : Position) (d : Store) (w : W)
        → Visited k p d (settled_at r p) (exit_at on_close latest asof r p d w)
    unfolding Visited
    exit_at-Visited k (none, px) p d w = (false, refl, lookup-insert p.advice_id k p d)
    exit_at-Visited k (some reason, px) p d w =
        let q = close asof (some reason, px) p in
        (true, rw (quiet q w) refl, lookup-insert p.advice_id k q d)

    -- One open position of the store.
    visit_at-Visited :
        (k : String) (o : Option Float) (p : Position) (d : Store) (w : W)
        → lookup p.advice_id d ≡ some p
        → Visited k p d (marked o p) (visit_at on_close latest asof o p d w)
    unfolding Visited
    visit_at-Visited k none p d w at =
        (false, refl, ground (arith, at, String-keys.beq_iff p.advice_id k))
    visit_at-Visited k (some px) p d w at =
        let p' = add_mark asof px p in exit_at-Visited k (check_exit p' px asof) p' d w

    Settles : String → Option Position → Result E ℕ × Store × W → Type 0
    Settles k want (out, d, w) = (n : ℕ) × (out ≡ ok n) × (lookup k d ≡ want)

    add_closed-Settles :
        (k : String) (want : Option Position) (closed : Bool) (r : Result E ℕ × Store × W)
        → Settles k want r
        → Settles k want (add_closed on_close latest asof closed r)
    unfolding Settles
    add_closed-Settles k want closed (ok m, d, w) (n, same, found) =
        (if closed then suc m else m, refl, found)
    add_closed-Settles k want closed (err e, d, w) (n, same, found) = absurd (cc)

    go_on-Settles :
        (k : String) (want : Option Position) (closed : Bool) (out : Result E Bool)
        (r : Result E ℕ × Store × W) (d : Store) (w : W)
        → out ≡ ok closed
        → Settles k want r
        → Settles k want (go_on on_close latest asof out r (d, w))
    go_on-Settles k want closed (ok c) r d w e h = add_closed-Settles k want c r h
    go_on-Settles k want closed (err e') r d w e h = absurd (cc)

    -- What the loop leaves, where `e` is the part of the store that is still to be visited.
    abbrev left_at : Option Position → Option Position → Option Position
    left_at none o = o
    left_at (some p) o = if p.is_open then some (settled p) else o

    left-closed :
        (k j : String) (q : Position) (e : Store) (o : Option Position)
        → lookup j e ≡ none
        → q.is_open ≡ false
        → left_at (lookup k ((j, q) ∷ e)) o ≡ left_at (lookup k e) o
    left-closed k j q e o fresh closed = elim (Bool-cases (j =? k)) [
      | inr other ↦ ap (λ b. left_at (if b then some q else lookup k e) o) other
      | inl same ↦
          let gone : lookup k e ≡ none =
            subst (λ i. lookup i e ≡ none) ((String-keys.beq_iff j k).0 same) fresh in
          ap (λ b. left_at (if b then some q else lookup k e) o) same
          ∙ (ap (λ b. if b then some (settled q) else o) closed ∙ sym (ap (λ l. left_at l o) gone))
    ]

    left-open :
        (k j : String) (q : Position) (e : Store) (o : Option Position)
        → lookup j e ≡ none
        → q.is_open ≡ true
        → left_at (lookup k ((j, q) ∷ e)) o
          ≡ left_at (lookup k e) (if j =? k then some (settled q) else o)
    left-open k j q e o fresh is = elim (Bool-cases (j =? k)) [
      | inr other ↦ rw other refl
      | inl same ↦
          let gone : lookup k e ≡ none =
            subst (λ i. lookup i e ≡ none) ((String-keys.beq_iff j k).0 same) fresh in
          ap (λ b. left_at (if b then some q else lookup k e) o) same
          ∙ (ap (λ b. if b then some (settled q) else o) is
              ∙ sym (
                  ap (λ l. left_at l (if j =? k then some (settled q) else o)) gone
                  ∙ ap (λ b. if b then some (settled q) else o) same))
    ]

    in_rest :
        (i j : String) (q p : Position) (e : Store)
        → lookup j e ≡ none
        → lookup i e ≡ some p
        → ((j =? i) ≡ false) × (lookup i ((j, q) ∷ e) ≡ some p)
    in_rest i j q p e fresh at = elim (Bool-cases (j =? i)) [
      | inr other ↦ (other, rw other at)
      | inl same ↦
          let gone : lookup i e ≡ none =
            subst (λ x. lookup x e ≡ none) ((String-keys.beq_iff j i).0 same) fresh in
          absurd (cc)
    ]

    same-settled : (o : Option Position) → left_at o o ≡ settled_or_none o
    same-settled none = refl
    same-settled (some p) = if-some p.is_open (marked (latest p.ticker) p) p

    tick-ends :
        (k : String) (d : Store) (r : Result E ℕ × Store × W)
        → Settles k (left_at (lookup k d) (lookup k d)) r
        → (n : ℕ) × (r.0 ≡ ok n) × (lookup k r.1 ≡ settled_or_none (lookup k d))
    unfolding Settles
    tick-ends k d (out, d', w') (n, ends, found) = (n, ends, found ∙ same-settled (lookup k d))

    Visited-Settles :
        (k : String) (want : Option Position) (q q' : Position) (ps : List Position) (d : Store)
        (v : Result E Bool × Store × W)
        → ((i : String) → Visited i q d q' v)
        → ((d' : Store) (w' : W)
            → ((i : String) → lookup i d' ≡ (if q.advice_id =? i then some q' else lookup i d))
            → Settles k want (visit_all on_close latest asof ps d' w'))
        → Settles k want
            (go_on on_close latest asof v.0 (visit_all on_close latest asof ps v.1 v.2) (v.1, v.2))
    unfolding Visited
    Visited-Settles k want q q' ps d (out, d', w') seen next =
        go_on-Settles k want (seen k).0 out (visit_all on_close latest asof ps d' w') d' w'
          (seen k).1 (next d' w' (λ i. (seen i).2))

    visit_all-Settles :
        (k : String) (e d : Store) (w : W)
        → IsStore e
        → ((j : String) (p : Position) → lookup j e ≡ some p → lookup j d ≡ some p)
        → Settles k
            (left_at (lookup k e) (lookup k d))
            (visit_all on_close latest asof (open_positions e) d w)
    unfolding visit_all Settles
    visit_all-Settles k [] d w h kept = (0, refl, refl)
    visit_all-Settles k ((j, q) ∷ e) d w (own, fresh, h) kept = elim (Bool-cases q.is_open) [
      | inr closed ↦
          let opens : open_positions ((j, q) ∷ e) ≡ open_positions e =
            ap (λ b. if b then q ∷ open_positions e else open_positions e) closed in
          let rest =
            visit_all-Settles k e d w h (λ i p at. kept i p (in_rest i j q p e fresh at).1) in
          subst
            (λ ps.
              Settles k (left_at (lookup k ((j, q) ∷ e)) (lookup k d))
                (visit_all on_close latest asof ps d w))
            (sym opens)
            (subst (λ x. Settles k x (visit_all on_close latest asof (open_positions e) d w))
              (sym (left-closed k j q e (lookup k d) fresh closed)) rest)
      | inl is ↦
          let opens : open_positions ((j, q) ∷ e) ≡ q ∷ open_positions e =
            ap (λ b. if b then q ∷ open_positions e else open_positions e) is in
          let marks : settled q ≡ marked (latest q.ticker) q =
            ap (λ b. if b then marked (latest q.ticker) q else q) is in
          let own_key : lookup j ((j, q) ∷ e) ≡ some q =
            ap (λ b. if b then some q else lookup j e) (=?_refl j) in
          let at : lookup q.advice_id d ≡ some q =
            subst (λ x. lookup x d ≡ some q) (sym own) (kept j q own_key) in
          let want = left_at (lookup k ((j, q) ∷ e)) (lookup k d) in
          subst (λ ps. Settles k want (visit_all on_close latest asof ps d w)) (sym opens)
            (Visited-Settles k want q (settled q) (open_positions e) d
              (visit_at on_close latest asof (latest q.ticker) q d w)
              (λ i.
                subst (λ x. Visited i q d x (visit_at on_close latest asof (latest q.ticker) q d w))
                  (sym marks) (visit_at-Visited i (latest q.ticker) q d w at))
              (λ d' w' found.
                let at_key : (i : String)
                    → lookup i d' ≡ (if j =? i then some (settled q) else lookup i d) =
                  λ i. found i ∙ ap (λ x. if x =? i then some (settled q) else lookup i d) own in
                subst (λ x. Settles k x (visit_all on_close latest asof (open_positions e) d' w'))
                  (sym (
                    left-open k j q e (lookup k d) fresh is
                    ∙ ap (left_at (lookup k e)) (sym (at_key k))))
                  (visit_all-Settles k e d' w' h (λ i p there.
                    let (other, here) = in_rest i j q p e fresh there in
                    at_key i
                    ∙ (ap (λ b. if b then some (settled q) else lookup i d) other
                        ∙ kept i p here)))))
    ]

    -- Where `on_close` raises nothing, a tick ends and leaves of every position of the store this: a
    -- closed one, and one without a price, as it was; an open one with the price added to its marks,
    -- and closed with the reason, the price and the result of its exit exactly where `check_exit`
    -- finds one. No position is added or lost.
    pub tick-settled :
        (k : String) (d : Store) (w : W)
        → IsStore d
        → (n : ℕ) × ((tick on_close latest asof d w).0 ≡ ok n)
          × (lookup k (tick on_close latest asof d w).1 ≡ settled_or_none (lookup k d))
    unfolding tick
    tick-settled k d w h =
        tick-ends k d (visit_all on_close latest asof (open_positions d) d w)
          (visit_all-Settles k d d w h (λ j p at. at))
