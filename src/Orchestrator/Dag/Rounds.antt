-- ===== src/Orchestrator/Dag/Rounds.antt =====
-- The sets `pending` and `completed` of runner.py through one round.
use mathlib.Core.Path.{subst}
use investment_intelligence.Prelude.{
  ℕ, ◌≡◌, refl, ap, sym, Option, none, some, length, ◌∙◌, ◌≢◌, Bool, true, false, List, [], ◌∷◌,
  ◌++◌, String, map, arith, All, All-append, if◌then◌else◌, keep_if, Bool-cases, inl, inr,
}
use investment_intelligence.Prelude.Keys.{String-keys, ◌=?◌, contains, Distinct, =?_sym, =?_refl}
use investment_intelligence.Prelude.Dict.{lookup}
use investment_intelligence.Prelude.Outcome.{Result, ok, err}
use investment_intelligence.Orchestrator.Sla.{Node, Finish}
use investment_intelligence.Orchestrator.Dag.{
  Graph, Runner, cons_found, gathered, nodes_of, results_of, NodeResult, DagError, add, discard,
  add_new, Progress, run_round, settle_round, successors,
}

abbrev pub name_of : {O : Type 0} → NodeResult O → String
name_of r = r.name

abbrev pub Absent : List String → List String → Type 0
Absent from = All (λ x. contains x from ≡ false)

pub contains-append :
    (x : String) (xs ys : List String)
    → contains x (xs ++ ys) ≡ (if contains x xs then true else contains x ys)
contains-append x [] ys = refl
contains-append x (y ∷ xs) ys = ground (arith, contains-append x xs ys)

contains_same :
    (x y : String) (xs : List String)
    → (y =? x) ≡ true
    → contains y xs ≡ true
    → contains x xs ≡ true
contains_same x y xs e h = subst (λ z. contains z xs ≡ true) ((String-keys.beq_iff y x).0 e) h

pub contains-add :
    (x y : String) (xs : List String)
    → contains x (add y xs) ≡ (if y =? x then true else contains x xs)
contains-add x y xs = elim (Bool-cases (contains y xs)) [
  | inl old ↦ rw old (ground (arith, contains_same x y xs))
  | inr new ↦ rw new (contains-append x xs (y ∷ []) ∙ ground arith)
]

-- Adding keeps a set a set, and adds at the end what is new.
pub add_new_name : (x : String) (xs : List String) → contains x xs ≡ false → add x xs ≡ xs ++ x ∷ []
add_new_name x xs new = rw new

Distinct-append :
    (xs : List String) (x : String) → Distinct xs → contains x xs ≡ false → Distinct (xs ++ x ∷ [])
Distinct-append [] x d n = (refl, tt)
Distinct-append (y ∷ xs) x d n = (
  contains-append y xs (x ∷ []) ∙ ground (arith, =?_sym x y),
  Distinct-append xs x d.1 (ground arith),
)

pub Distinct-add : (x : String) (xs : List String) → Distinct xs → Distinct (add x xs)
Distinct-add x xs d = elim (Bool-cases (contains x xs)) [
  | inl old ↦ rw old d
  | inr new ↦ rw new (Distinct-append xs x d new)
]

contains-discard :
    (x y : String) (xs : List String) → contains y xs ≡ false → contains y (discard x xs) ≡ false
contains-discard x y [] h = refl
contains-discard x y (z ∷ xs) h = ground (arith, contains-discard x y xs)

pub Distinct-discard : (x : String) (xs : List String) → Distinct xs → Distinct (discard x xs)
Distinct-discard x [] d = tt
Distinct-discard x (y ∷ xs) d = elim (Bool-cases (y =? x)) [
  | inl hit ↦ rw hit (Distinct-discard x xs d.1)
  | inr miss ↦ rw miss (contains-discard x y xs d.0, Distinct-discard x xs d.1)
]

contains-keep_if :
    (p : String → Bool) (y : String) (xs : List String)
    → contains y xs ≡ false
    → contains y (keep_if p xs) ≡ false
contains-keep_if p y [] h = refl
contains-keep_if p y (z ∷ xs) h = ground (arith, contains-keep_if p y xs)

pub Distinct-keep_if :
    (p : String → Bool) (xs : List String) → Distinct xs → Distinct (keep_if p xs)
Distinct-keep_if p [] d = tt
Distinct-keep_if p (y ∷ xs) d = elim (Bool-cases (p y)) [
  | inl hit ↦ rw hit (contains-keep_if p y xs d.0, Distinct-keep_if p xs d.1)
  | inr miss ↦ rw miss (Distinct-keep_if p xs d.1)
]

-- After a node has completed, what stays pending is still not completed.
Absent-discard :
    (x : String) (done xs : List String) → Absent done xs → Absent (add x done) (discard x xs)
Absent-discard x done [] h = tt
Absent-discard x done (y ∷ xs) h = elim (Bool-cases (y =? x)) [
  | inl hit ↦ rw hit (Absent-discard x done xs h.1)
  | inr miss ↦
      rw miss
        (contains-add y x done ∙ ground (arith, =?_sym x y, h.0), Absent-discard x done xs h.1)
]

Absent-add :
    (done : List String) (x : String) (xs : List String)
    → Absent done xs
    → contains x done ≡ false
    → Absent done (add x xs)
Absent-add done x xs h n = elim (Bool-cases (contains x xs)) [
  | inl old ↦ rw old h
  | inr new ↦ rw new (All-append (λ y. contains y done ≡ false) xs (x ∷ []) h (n, tt))
]

-- The pending names are distinct and none of them has completed.
pub record IsSplit (pending completed : List String) : Type 0 where
  pub distinct : Distinct pending
  pub absent : Absent completed pending

add_new-IsSplit :
    (done xs pending : List String) → IsSplit pending done → IsSplit (add_new done xs pending) done
add_new-IsSplit done [] pending h = h
add_new-IsSplit done (x ∷ xs) pending h = elim (Bool-cases (contains x done)) [
  | inl old ↦ rw old (add_new-IsSplit done xs pending h)
  | inr new ↦ rw new (
      add_new-IsSplit done xs (add x pending) (record {
        distinct = Distinct-add x pending h.distinct;
        absent = Absent-add done x pending h.absent new;
      }))
]

pub All-at :
    (P : String → Type 0) (x : String) (xs : List String) → All P xs → contains x xs ≡ true → P x
All-at P x [] h there = absurd (cc)
All-at P x (y ∷ xs) h there = elim (Bool-cases (y =? x)) [
  | inl hit ↦ subst P ((String-keys.beq_iff y x).0 hit) h.0
  | inr miss ↦ All-at P x xs h.1 (ground arith)
]

pub All-members :
    (P : String → Type 0) (xs : List String)
    → ((x : String) → contains x xs ≡ true → P x)
    → All P xs
All-members P [] h = tt
All-members P (y ∷ xs) h =
    (h y (rw (=?_refl y) refl), All-members P xs (λ x there. h x (ground arith)))

module _ {S O : Type 0} (runner : Runner S O) (g : Graph S O) where
  pub settle_round-IsSplit :
      (rs : List (NodeResult O)) (p : Progress S O)
      → IsSplit p.pending p.completed
      → IsSplit (settle_round g rs p).pending (settle_round g rs p).completed
  unfolding settle_round
  settle_round-IsSplit [] p h = h
  settle_round-IsSplit (r ∷ rs) p h =
      let completed = add r.name p.completed in
      let next = add_new completed (successors g r.name p.state) (discard r.name p.pending) in
      settle_round-IsSplit rs (record p { completed = completed; pending = next })
        (add_new-IsSplit completed (successors g r.name p.state) (discard r.name p.pending)
          (record {
            distinct = Distinct-discard r.name p.pending h.distinct;
            absent = Absent-discard r.name p.completed p.pending h.absent;
          }))

  -- The results of a round carry the names that were ready, and each of them is a node.
  abbrev pub Named : List String → Result DagError (List (NodeResult O) × S) → Type 0
  Named names (err e) = Unit
  Named names (ok (rs, state)) = (map name_of rs ≡ names) × All (λ n. lookup n g.nodes ≢ none) names

  results_of-names :
      (names : List String) (now : ℕ) (finishes : List (Finish S O))
      → length finishes ≡ length names
      → map name_of (results_of g names now finishes) ≡ names
  results_of-names [] now finishes e = refl
  results_of-names (n ∷ names) now [] e = absurd (omega arith)
  results_of-names (n ∷ names) now (f ∷ finishes) e =
      ap (λ ns. n ∷ ns) (results_of-names names now finishes (omega arith))

  Found : List String → Option (List (Node S O)) → Type 0
  Found names none = Unit
  Found names (some nodes) =
      (length nodes ≡ length names) × All (λ n. lookup n g.nodes ≢ none) names

  cons_found-Found :
      (name : String) (names : List String) (node : Option (Node S O))
      (nodes : Option (List (Node S O)))
      → lookup name g.nodes ≡ node
      → Found names nodes
      → Found (name ∷ names) (cons_found g node nodes)
  unfolding Found
  cons_found-Found name names none nodes l h = tt
  cons_found-Found name names (some node) none l h = tt
  cons_found-Found name names (some node) (some nodes) l h = (omega (arith, h.0), ((λ e. cc), h.1))

  nodes_of-Found : (names : List String) → Found names (nodes_of g names)
  unfolding nodes_of
  nodes_of-Found [] = unfold Found in (refl, tt)
  nodes_of-Found (name ∷ names) =
      cons_found-Found name names (lookup name g.nodes) (nodes_of g names) refl
        (nodes_of-Found names)

  gathered-Named :
      (names : List String) (now : ℕ) (nodes : Option (List (Node S O))) (state : S)
      → Found names nodes
      → Named names (gathered runner g names now nodes state)
  unfolding Found
  gathered-Named names now none state h = tt
  gathered-Named names now (some nodes) state h =
      (results_of-names names now _ (runner.gather_length nodes state ∙ h.0), h.1)

  pub run_round-Named :
      (names : List String) (now : ℕ) (state : S) → Named names (run_round runner g names now state)
  unfolding run_round
  run_round-Named names now state =
      gathered-Named names now (nodes_of g names) state (nodes_of-Found names)

  -- The iteration over a set keeps what holds of its names.
  pub All-order :
      (P : String → Type 0) (names : List String) → All P names → All P (runner.order names)
  All-order P names h =
      All-members P (runner.order names)
        (λ x there. All-at P x names h (sym (runner.order_members x names) ∙ there))
