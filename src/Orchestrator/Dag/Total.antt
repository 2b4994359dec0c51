-- ===== src/Orchestrator/Dag/Total.antt =====
-- The loop of `execute` in runner.py ends: each round completes a node.
use investment_intelligence.Prelude.{
  ℕ, zero, suc, ◌+◌, ◌≤◌, ◌<◌, ◌≡◌, refl, ap, ◌∙◌, ◌≢◌, true, false, Option, none, some, List, [],
  ◌∷◌, ◌++◌, String, length, arith, All, All-keep_if, keep_if, if◌then◌else◌, Bool-cases, inl, inr,
  ltb, ◌⊎◌,
}
use investment_intelligence.Prelude.Keys.{String-keys, ◌=?◌, contains, =?_sym}
use investment_intelligence.Prelude.Dict.{Dict, lookup}
use investment_intelligence.Prelude.Outcome.{Result, ok, err, ◌>>=◌}
use investment_intelligence.Orchestrator.Sla.{Node}
use investment_intelligence.Orchestrator.Dag.{
  Graph, Runner, NodeResult, DagError, out_of_fuel, add, Progress, run_round, settle_round,
  is_ready, ready, gathered, nodes_of, turn, round, after_round, compute_parents, loop, begin,
  start, execute, latest, add_new, discard, successors,
}
use investment_intelligence.Orchestrator.Dag.Rounds.{
  Named, run_round-Named, IsSplit, settle_round-IsSplit, contains-add, All-order,
}

abbrev first : List String → String
first [] = ""
first (x ∷ xs) = x

pub List-cases {ℓ} :
    {A : Type ℓ} (xs : List A) → (xs ≡ []) ⊎ ((x : A) × (ys : List A) × (xs ≡ x ∷ ys))
List-cases [] = inl refl
List-cases (x ∷ xs) = inr (x, xs, refl)

-- The nodes that have not completed.
abbrev remaining {ℓ} : {A : Type ℓ} → Dict String A → List String → ℕ
remaining [] done = 0
remaining ((n, _) ∷ nodes) done =
    if contains n done then remaining nodes done else suc (remaining nodes done)

remaining-le_length {ℓ} :
    {A : Type ℓ} (nodes : Dict String A) (done : List String) → remaining nodes done ≤ length nodes
remaining-le_length [] done = omega arith
remaining-le_length ((n, _) ∷ nodes) done = ground (arith, remaining-le_length nodes done)

remaining-add {ℓ} :
    {A : Type ℓ} (nodes : Dict String A) (x : String) (done : List String)
    → remaining nodes (add x done) ≤ remaining nodes done
remaining-add [] x done = omega arith
remaining-add ((n, _) ∷ nodes) x done =
    rw (contains-add n x done) (ground (arith, remaining-add nodes x done))

remaining-add_lt {ℓ} :
    {A : Type ℓ} (nodes : Dict String A) (x : String) (done : List String)
    → lookup x nodes ≢ none
    → contains x done ≡ false
    → remaining nodes (add x done) < remaining nodes done
remaining-add_lt [] x done l n = absurd (l refl)
remaining-add_lt ((m, v) ∷ nodes) x done l n = elim (Bool-cases (m =? x)) [
  | inl hit ↦
      let e1 : contains m (add x done) ≡ true = contains-add m x done ∙ rw (=?_sym x m, hit) refl in
      let e2 : contains m done ≡ false =
        ap (λ z. contains z done) ((String-keys.beq_iff m x).0 hit) ∙ n in
      rw (e1, e2) (omega (arith, remaining-add nodes x done))
  | inr miss ↦
      let deeper = remaining-add_lt nodes x done (λ e. l (rw miss e)) n in
      rw (contains-add m x done, =?_sym x m, miss) (ground (arith, deeper))
]

module _ {S O : Type 0} (runner : Runner S O) (g : Graph S O) where
  settle_round-remaining :
      (rs : List (NodeResult O)) (p : Progress S O)
      → remaining g.nodes (settle_round g rs p).completed ≤ remaining g.nodes p.completed
  unfolding settle_round
  settle_round-remaining [] p = omega arith
  settle_round-remaining (r ∷ rs) p =
      let completed = add r.name p.completed in
      let next = add_new completed (successors g r.name p.state) (discard r.name p.pending) in
      omega (
        arith,
        settle_round-remaining rs (record p { completed = completed; pending = next }),
        remaining-add g.nodes r.name p.completed,
      )

  settle_round-remaining_lt :
      (r : NodeResult O) (rs : List (NodeResult O)) (p : Progress S O)
      → lookup r.name g.nodes ≢ none
      → contains r.name p.completed ≡ false
      → remaining g.nodes (settle_round g (r ∷ rs) p).completed < remaining g.nodes p.completed
  unfolding settle_round
  settle_round-remaining_lt r rs p l n =
      let completed = add r.name p.completed in
      let next = add_new completed (successors g r.name p.state) (discard r.name p.pending) in
      omega (
        arith,
        settle_round-remaining rs (record p { completed = completed; pending = next }),
        remaining-add_lt g.nodes r.name p.completed l n,
      )

  -- What a turn of the loop leaves: an error of the program, or a round that completed a node.
  abbrev Advanced : Progress S O → Result DagError (Progress S O) → Type 0
  Advanced p (err e) = e ≢ out_of_fuel
  Advanced p (ok p') =
      IsSplit p'.pending p'.completed
      × (remaining g.nodes p'.completed < remaining g.nodes p.completed)

  after_round-Advanced :
      (p : Progress S O) (n : String) (names : List String)
      (m : Result DagError (List (NodeResult O) × S))
      → IsSplit p.pending p.completed
      → contains n p.completed ≡ false
      → (m ≢ err out_of_fuel)
      → Named runner g (n ∷ names) m
      → Advanced p (after_round g p m)
  after_round-Advanced p n names (err e) split new real h = λ q. real (ap err q)
  after_round-Advanced p n names (ok ([], state)) split new real h = absurd (cc (h.0))
  after_round-Advanced p n names (ok (r ∷ rs, state)) split new real h =
      let p' = record p {
        state = state;
        results = p.results ++ r ∷ rs;
        now = latest g (r ∷ rs) p.now;
      } in
      let named : r.name ≡ n = ap (λ ns. first ns) h.0 in
      (
        settle_round-IsSplit runner g (r ∷ rs) p' split,
        settle_round-remaining_lt r rs p' (rw named (h.1.0)) (rw named new),
      )

  gathered-real :
      (names : List String) (now : ℕ) (nodes : Option (List (Node S O))) (state : S)
      → gathered runner g names now nodes state ≢ err out_of_fuel
  gathered-real names now none state = λ e. cc
  gathered-real names now (some nodes) state = λ e. cc

  run_round-real :
      (names : List String) (now : ℕ) (state : S)
      → run_round runner g names now state ≢ err out_of_fuel
  unfolding run_round
  run_round-real names now state = gathered-real names now (nodes_of g names) state

  turn-Advanced :
      (p : Progress S O) (names : List String)
      → All (λ x. contains x p.completed ≡ false) names
      → IsSplit p.pending p.completed
      → Advanced p (turn runner g p names)
  turn-Advanced p [] absent split = λ e. cc
  turn-Advanced p (n ∷ names) absent split =
      after_round-Advanced p n names (run_round runner g (n ∷ names) p.now p.state) split absent.0
        (run_round-real (n ∷ names) p.now p.state)
        (run_round-Named runner g (n ∷ names) p.now p.state)

  round-Advanced :
      (deadline : ℕ) (p : Progress S O)
      → IsSplit p.pending p.completed
      → Advanced p (round runner g deadline p)
  unfolding round
  round-Advanced deadline p split = elim (Bool-cases (ltb deadline p.now)) [
    | inl late ↦ rw (late, round) (λ e. cc)
    | inr early ↦
        rw (early, round)
          (turn-Advanced p (ready runner g p)
            (All-order runner g (λ x. contains x p.completed ≡ false)
              (keep_if (is_ready (compute_parents g) p.completed) p.pending)
              (All-keep_if (λ x. contains x p.completed ≡ false)
                (is_ready (compute_parents g) p.completed) p.pending split.absent))
            split)
  ]

  step-real :
      (fuel deadline : ℕ) (p : Progress S O) (m : Result DagError (Progress S O))
      → ((p' : Progress S O)
          → IsSplit p'.pending p'.completed
          → remaining g.nodes p'.completed < fuel
          → loop runner g fuel deadline p' ≢ err out_of_fuel)
      → remaining g.nodes p.completed < suc fuel
      → Advanced p m
      → (m >>= loop runner g fuel deadline) ≢ err out_of_fuel
  step-real fuel deadline p (err e) ih enough h = λ q. h (cc)
  step-real fuel deadline p (ok p') ih enough h = ih p' h.0 (omega (arith, h.1))

  loop-real :
      (fuel deadline : ℕ) (p : Progress S O)
      → IsSplit p.pending p.completed
      → remaining g.nodes p.completed < fuel
      → loop runner g fuel deadline p ≢ err out_of_fuel
  unfolding loop
  loop-real zero deadline p split enough = absurd (omega arith)
  loop-real (suc fuel) deadline p split enough = elim (List-cases p.pending) [
    | inl none_left ↦ rw (none_left, loop) (λ e. cc)
    | inr (x, xs, some_left) ↦
        rw (some_left, loop)
          (step-real fuel deadline p (round runner g deadline p) (loop-real fuel deadline) enough
            (round-Advanced deadline p split))
  ]

  start-real :
      (entry : Option String) (initial : S) (now timeout_s : ℕ)
      → start runner g entry initial now timeout_s ≢ err out_of_fuel
  start-real none initial now timeout_s = λ e. cc
  start-real (some entry) initial now timeout_s =
      loop-real (suc (length g.nodes)) (now + timeout_s) (begin g entry initial now)
        (record { distinct = (refl, tt); absent = (refl, tt) })
        (omega (arith, remaining-le_length g.nodes []))

  -- A call of `execute` always ends, within as many rounds as the graph has nodes and one more, if the
  -- nodes of each round end, in whatever order the sets are iterated: it
  -- returns a result, or it fails because of the entry, the deadline, a stalled graph or an unknown
  -- name, whatever cycles the edges and the conditions make.
  pub execute_ends :
      (initial : S) (now timeout_s : ℕ) → execute runner g initial now timeout_s ≢ err out_of_fuel
  unfolding execute
  execute_ends initial now timeout_s = start-real g.entry initial now timeout_s
