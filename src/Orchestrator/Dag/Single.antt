-- ===== src/Orchestrator/Dag/Single.antt =====
-- Runs of `execute` in runner.py whose every round has one node: they come out the same under every
-- order of Python's sets and every `gather`.
use investment_intelligence.Prelude.{
  ℕ, zero, suc, ◌+◌, ◌≡◌, refl, sym, ap, ◌∙◌, Bool, true, false, ◌&&◌, Option, none, some, List, [],
  ◌∷◌, String, length, arith, if◌then◌else◌, ltb, inl, inr,
}
use investment_intelligence.Prelude.Keys.{String-keys, ◌=?◌, contains, Distinct, =?_refl}
use investment_intelligence.Prelude.Dict.{lookup}
use investment_intelligence.Prelude.Outcome.{Result, ok, err, ◌>>=◌}
use investment_intelligence.Orchestrator.Sla.{Node, Finish}
use investment_intelligence.Orchestrator.Dag.{
  Graph, Runner, one_by_one, run_each, DagError, timeout, Progress, nodes_of, cons_found,
  results_of, gathered, run_round, ready, after_round, turn, round, loop, begin, start, execute,
}
use investment_intelligence.Orchestrator.Dag.Total.{List-cases}

-- A `gather` of one node is that node's own run.
pub record RunsOne {S O : Type 0} (runner : Runner S O) (run_one : Node S O → S → Finish S O)
    : Type 0 where
  pub gather_one :
      (node : Node S O) (s : S)
      → runner.gather (node ∷ []) s ≡ (run_one node s ∷ [], (run_one node s).state)

pub one_by_one-RunsOne :
    {S O : Type 0} (run_one : Node S O → S → Finish S O) → RunsOne (one_by_one run_one) run_one
unfolding run_each
one_by_one-RunsOne run_one = record { gather_one = λ node s. refl }

same_name : (x y : String) → (if x =? y then true else false) ≡ true → y ≡ x
same_name x y h = sym ((String-keys.beq_iff x y).0 (ground arith))

one_member :
    (x : String) (ys : List String)
    → ((z : String) → contains z ys ≡ contains z (x ∷ []))
    → Distinct ys
    → ys ≡ x ∷ []
one_member x [] h d = let e : false ≡ true = h x ∙ rw (=?_refl x) refl in absurd (cc)
one_member x (y ∷ []) h d = ap (λ z. z ∷ []) (same_name x y (sym (h y) ∙ rw (=?_refl y) refl))
one_member x (y ∷ z ∷ zs) h d =
    let first = same_name x y (sym (h y) ∙ rw (=?_refl y) refl) in
    let second = same_name x z (sym (h z) ∙ ground (arith, =?_refl z)) in
    let same : z ≡ y = second ∙ sym first in
    let e : (z =? y) ≡ true = (String-keys.beq_iff z y).1 same in absurd (ground (arith, d.0))

no_member : (ys : List String) → ((z : String) → contains z ys ≡ false) → ys ≡ []
no_member [] h = refl
no_member (y ∷ ys) h = let e : true ≡ false = sym (rw (=?_refl y) refl) ∙ h y in absurd (cc)

abbrev is_single : List String → Bool
is_single [] = true
is_single (x ∷ []) = true
is_single (x ∷ y ∷ xs) = false

abbrev next_single {ℓ} : {A : Type ℓ} → (A → Bool) → Result DagError A → Bool
next_single f (err e) = true
next_single f (ok p) = f p

module _ {S O : Type 0} (run_one : Node S O → S → Finish S O) (g : Graph S O) where
  -- Every round of the run one after another has at most one node that is ready.
  unfoldable pub single_file : ℕ → ℕ → Progress S O → Bool
  single_file zero deadline p = true
  single_file (suc fuel) deadline p =
      is_single (ready (one_by_one run_one) g p)
      && next_single (single_file fuel deadline) (round (one_by_one run_one) g deadline p)

  abbrev single_from : Option String → S → ℕ → ℕ → Bool
  single_from none initial now timeout_s = true
  single_from (some entry) initial now timeout_s =
      single_file (suc (length g.nodes)) (now + timeout_s) (begin g entry initial now)

  unfoldable pub single_run : S → ℕ → ℕ → Bool
  single_run initial now timeout_s = single_from g.entry initial now timeout_s

  module _ (runner : Runner S O) (runs : RunsOne runner run_one) where
    gathered_one :
        (name : String) (now : ℕ) (node : Option (Node S O)) (state : S)
        → gathered runner g (name ∷ []) now (cons_found g node (some [])) state
          ≡ gathered (one_by_one run_one) g (name ∷ []) now (cons_found g node (some [])) state
    unfolding run_each
    gathered_one name now none state = refl
    gathered_one name now (some node) state =
        ap (λ done. ok (results_of g (name ∷ []) now done.0, done.1)) (runs.gather_one node state)

    run_round_one :
        (name : String) (now : ℕ) (state : S)
        → run_round runner g (name ∷ []) now state
          ≡ run_round (one_by_one run_one) g (name ∷ []) now state
    unfolding run_round nodes_of
    run_round_one name now state = gathered_one name now (lookup name g.nodes) state

    turn_single :
        (p : Progress S O) (names : List String)
        → is_single names ≡ true
        → turn runner g p (runner.order names) ≡ turn (one_by_one run_one) g p names
    turn_single p [] h =
        ap (turn runner g p) (no_member (runner.order []) (λ z. runner.order_members z []))
    turn_single p (x ∷ []) h =
        let one =
          one_member x (runner.order (x ∷ [])) (λ z. runner.order_members z (x ∷ []))
            (runner.order_distinct (x ∷ []) (refl, tt)) in
        ap (turn runner g p) one ∙ ap (after_round g p) (run_round_one x p.now p.state)
    turn_single p (x ∷ y ∷ xs) h = absurd (cc)

    round_single :
        (deadline : ℕ) (p : Progress S O)
        → is_single (ready (one_by_one run_one) g p) ≡ true
        → round runner g deadline p ≡ round (one_by_one run_one) g deadline p
    unfolding round
    round_single deadline p h =
        ap (λ t. if ltb deadline p.now then err timeout else t)
          (turn_single p (ready (one_by_one run_one) g p) h)

    step_single :
        (fuel deadline : ℕ) (m : Result DagError (Progress S O))
        → ((p : Progress S O)
            → single_file fuel deadline p ≡ true
            → loop runner g fuel deadline p ≡ loop (one_by_one run_one) g fuel deadline p)
        → next_single (single_file fuel deadline) m ≡ true
        → (m >>= loop runner g fuel deadline) ≡ (m >>= loop (one_by_one run_one) g fuel deadline)
    step_single fuel deadline (err e) ih h = refl
    step_single fuel deadline (ok p) ih h = ih p h

    loop_single :
        (fuel deadline : ℕ) (p : Progress S O)
        → single_file fuel deadline p ≡ true
        → loop runner g fuel deadline p ≡ loop (one_by_one run_one) g fuel deadline p
    unfolding loop single_file
    loop_single zero deadline p h = elim (List-cases p.pending) [
      | inl none_left ↦ rw (none_left, loop) refl
      | inr (x, xs, some_left) ↦ rw (some_left, loop) refl
    ]
    loop_single (suc fuel) deadline p h = elim (List-cases p.pending) [
      | inl none_left ↦ rw (none_left, loop) refl
      | inr (x, xs, some_left) ↦
          let now_ : is_single (ready (one_by_one run_one) g p) ≡ true = ground arith in
          let next_ : next_single (single_file fuel deadline)
                (round (one_by_one run_one) g deadline p)
              ≡ true =
            ground arith in
          rw (some_left, loop)
            (ap (λ m. m >>= loop runner g fuel deadline) (round_single deadline p now_)
              ∙ step_single fuel deadline (round (one_by_one run_one) g deadline p)
                  (loop_single fuel deadline) next_)
    ]

    start_single :
        (entry : Option String) (initial : S) (now timeout_s : ℕ)
        → single_from entry initial now timeout_s ≡ true
        → start runner g entry initial now timeout_s
          ≡ start (one_by_one run_one) g entry initial now timeout_s
    start_single none initial now timeout_s h = refl
    start_single (some entry) initial now timeout_s h =
        loop_single (suc (length g.nodes)) (now + timeout_s) (begin g entry initial now) h

    -- Where every round has one node, neither the order of the sets nor the interleaving matters.
    pub execute_single :
        (initial : S) (now timeout_s : ℕ)
        → single_run initial now timeout_s ≡ true
        → execute runner g initial now timeout_s
          ≡ execute (one_by_one run_one) g initial now timeout_s
    unfolding execute single_run
    execute_single initial now timeout_s h = start_single g.entry initial now timeout_s h
