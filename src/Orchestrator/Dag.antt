-- ===== src/Orchestrator/Dag.antt =====
-- apps/orchestrator/orchestrator/execute/runner.py: `StateGraph` and `execute`.
-- How a round is run is a parameter, the runner: the order in which the Python set `pending` gives the
-- ready names, and what `gather` makes of their nodes on the state that all nodes share, however their
-- runs interleave. A node's own run is the `sla_runner` or the direct call. `pending` and `completed`
-- are lists without repetition here.
pub mod Rounds
pub mod Parents
pub mod Total
pub mod Once
pub mod Direct
pub mod Single
mod Tests
use investment_intelligence.Prelude.{
  ◌≡◌, refl, ap, ℕ, zero, suc, ◌+◌, Bool, true, false, not, ◌&&◌, Option, none, some, List, [], ◌∷◌,
  ◌++◌, String, map, length, ltb, if◌then◌else◌, keep_if, all_of,
}
use Prim.Native.Nat.{max}
use investment_intelligence.Prelude.Keys.{String-keys, contains, Distinct}
use investment_intelligence.Prelude.Dict.{Dict, lookup, insert}
use investment_intelligence.Prelude.Outcome.{Result, ok, err, ◌>>=◌}
use investment_intelligence.Orchestrator.Sla.{
  Node, Finish, Output, Ending, returned, raised_timeout, raised, complete,
}

pub record Graph (S O : Type 0) : Type 0 where
  pub dag_id : String
  pub nodes : Dict String (Node S O)
  pub edges : Dict String (List String)
  pub conditional : Dict String (S → List String)
  pub entry : Option String

pub record NodeResult (O : Type 0) : Type 0 where
  pub name : String
  pub started_at : ℕ
  pub finished_at : ℕ
  pub ok : Bool
  pub output : Output O
  pub error : Option String
  pub timed_out : Bool

pub record DagResult (S O : Type 0) : Type 0 where
  pub state : S
  pub nodes : List (NodeResult O)
  pub ok : Bool

pub data DagError : Type 0 where
  duplicate_node no_entry timeout stalled unknown_node out_of_fuel : DagError

abbrev pub or_empty : Option (List String) → List String
or_empty none = []
or_empty (some xs) = xs

-- `xs.add(x)` on a set
abbrev pub add : String → List String → List String
add x xs = if contains x xs then xs else xs ++ x ∷ []

-- `xs.discard(x)` on a set
abbrev pub discard : String → List String → List String
discard x [] = []
discard x (y ∷ ys) = let rest = discard x ys in if contains x (y ∷ []) then rest else y ∷ rest

abbrev chosen : {S : Type 0} → Option (S → List String) → S → List String
chosen none state = []
chosen (some condition) state = condition state

module _ {S O : Type 0} where
  unfoldable pub add_node : String → Node S O → Graph S O → Result DagError (Graph S O)
  add_node name node g = elim (lookup name g.nodes) [
    | some _ ↦ err duplicate_node
    | none ↦ ok (record g { nodes = insert name node g.nodes })
  ]

  unfoldable pub add_edge : String → String → Graph S O → Graph S O
  add_edge src dst g = record g {
    edges = insert src (or_empty (lookup src g.edges) ++ dst ∷ []) g.edges;
  }

  pub add_conditional_edges : String → (S → List String) → Graph S O → Graph S O
  add_conditional_edges src condition g = record g {
    conditional = insert src condition g.conditional;
  }

  unfoldable pub set_entry : String → Graph S O → Graph S O
  set_entry name g = record g { entry = some name }

  unfoldable pub successors : Graph S O → String → S → List String
  successors g name state =
      or_empty (lookup name g.edges) ++ chosen (lookup name g.conditional) state

-- `parents.setdefault(dst, set()).add(src)`
abbrev pub add_parent : String → String → Dict String (List String) → Dict String (List String)
add_parent src dst parents = insert dst (add src (or_empty (lookup dst parents))) parents

abbrev pub add_parents :
    String → List String → Dict String (List String) → Dict String (List String)
add_parents src [] parents = parents
add_parents src (dst ∷ dsts) parents = add_parents src dsts (add_parent src dst parents)

abbrev pub scan_edges :
    Dict String (List String) → Dict String (List String) → Dict String (List String)
scan_edges [] parents = parents
scan_edges ((src, dsts) ∷ edges) parents = scan_edges edges (add_parents src dsts parents)

abbrev pub no_parents {ℓ} : {A : Type ℓ} → Dict String A → Dict String (List String)
no_parents [] = []
no_parents ((name, _) ∷ nodes) = (name, []) ∷ no_parents nodes

module _ {S O : Type 0} where
  -- `_compute_parents`
  unfoldable pub compute_parents : Graph S O → Dict String (List String)
  compute_parents g = scan_edges g.edges (no_parents g.nodes)

  -- `_run_one` with no `sla_runner`: the direct call.
  pub run_direct : Node S O → S → Finish S O
  run_direct node state = complete (node.fn state).ending (node.fn state)

-- `parents.get(name, set()).issubset(completed)`
abbrev pub is_ready : Dict String (List String) → List String → String → Bool
is_ready parents completed name =
    all_of (λ p. contains p completed) (or_empty (lookup name parents))

-- The variables of the loop of `execute`.
pub record Progress (S O : Type 0) : Type 0 where
  pub state : S
  pub results : List (NodeResult O)
  pub pending : List String
  pub completed : List String
  pub now : ℕ

-- Everything that one node adds to `pending` when it has finished.
abbrev pub add_new : List String → List String → List String → List String
add_new completed [] pending = pending
add_new completed (x ∷ xs) pending =
    add_new completed xs (if contains x completed then pending else add x pending)

-- What a round does, and what Python's sets and `gather` promise of it: an iteration gives each name of
-- the set once, and `gather` one result for each node, in the order of the nodes.
pub record Runner (S O : Type 0) : Type 0 where
  pub order : List String → List String
  pub gather : List (Node S O) → S → List (Finish S O) × S
  pub order_members : (x : String) (xs : List String) → contains x (order xs) ≡ contains x xs
  pub order_distinct : (xs : List String) → Distinct xs → Distinct (order xs)
  pub gather_length : (nodes : List (Node S O)) (s : S) → length (gather nodes s).0 ≡ length nodes

-- The runs one after another, from state to state.
unfoldable pub run_each :
    {S O : Type 0} → (Node S O → S → Finish S O) → List (Node S O) → S → List (Finish S O) × S
run_each run_one [] s = ([], s)
run_each run_one (node ∷ nodes) s =
    let rest = run_each run_one nodes (run_one node s).state in (run_one node s ∷ rest.0, rest.1)

pub length-run_each :
    {S O : Type 0} (run_one : Node S O → S → Finish S O) (nodes : List (Node S O)) (s : S)
    → length (run_each run_one nodes s).0 ≡ length nodes
unfolding run_each
length-run_each run_one [] s = refl
length-run_each run_one (node ∷ nodes) s =
    ap suc (length-run_each run_one nodes (run_one node s).state)

-- The runner that takes the names in the order of their insertion, and runs one node after another.
abbrev pub one_by_one : {S O : Type 0} → (Node S O → S → Finish S O) → Runner S O
one_by_one run_one = record {
  order = λ names. names;
  gather = λ nodes s. run_each run_one nodes s;
  order_members = λ x xs. refl;
  order_distinct = λ xs d. d;
  gather_length = λ nodes s. length-run_each run_one nodes s;
}

module _ {S O : Type 0} (g : Graph S O) where
  abbrev result_of : String → ℕ → Finish S O → NodeResult O
  result_of name now f = record {
    name = name;
    started_at = now;
    finished_at = now + f.took;
    ok = f.ok;
    output = f.output;
    error = f.error;
    timed_out = f.timed_out;
  }

  abbrev pub results_of : List String → ℕ → List (Finish S O) → List (NodeResult O)
  results_of [] now finishes = []
  results_of (name ∷ names) now [] = []
  results_of (name ∷ names) now (f ∷ finishes) =
      result_of name now f ∷ results_of names now finishes

  abbrev cons_found : Option (Node S O) → Option (List (Node S O)) → Option (List (Node S O))
  cons_found none found = none
  cons_found (some node) none = none
  cons_found (some node) (some nodes) = some (node ∷ nodes)

  -- `graph._nodes[node_name]` for each name; none is a KeyError.
  unfoldable pub nodes_of : List String → Option (List (Node S O))
  nodes_of [] = some []
  nodes_of (name ∷ names) = cons_found (lookup name g.nodes) (nodes_of names)

  -- The loop over the finished results of a round.
  unfoldable pub settle_round : List (NodeResult O) → Progress S O → Progress S O
  unfolding successors
  settle_round [] p = p
  settle_round (r ∷ rs) p =
      let completed = add r.name p.completed in
      settle_round rs (record p {
        completed = completed;
        pending = add_new completed (successors g r.name p.state) (discard r.name p.pending);
      })

  -- The end of the round: the last node to finish.
  abbrev pub latest : List (NodeResult O) → ℕ → ℕ
  latest [] now = now
  latest (r ∷ rs) now = latest rs (max now r.finished_at)

  abbrev after_round :
      Progress S O → Result DagError (List (NodeResult O) × S) → Result DagError (Progress S O)
  after_round p (err e) = err e
  after_round p (ok (rs, state)) = ok (
      settle_round rs
        (record p { state = state; results = p.results ++ rs; now = latest rs p.now }))

  unfoldable pub finished : Progress S O → DagResult S O
  finished p = record { state = p.state; nodes = p.results; ok = all_of (λ r. r.ok) p.results }

  abbrev pub begin : String → S → ℕ → Progress S O
  begin entry state now = record {
    state = state;
    results = [];
    pending = entry ∷ [];
    completed = [];
    now = now;
  }

module _ {S O : Type 0} (runner : Runner S O) (g : Graph S O) where
  abbrev pub gathered :
      List String → ℕ → Option (List (Node S O)) → S → Result DagError (List (NodeResult O) × S)
  gathered names now none state = err unknown_node
  gathered names now (some nodes) state =
      let done = runner.gather nodes state in ok (results_of g names now done.0, done.1)

  -- `gather` over the ready nodes.
  unfoldable pub run_round : List String → ℕ → S → Result DagError (List (NodeResult O) × S)
  run_round names now state = gathered names now (nodes_of g names) state

  -- The ready names, as the iteration over `pending` gives them.
  abbrev pub ready : Progress S O → List String
  ready p = runner.order (keep_if (is_ready (compute_parents g) p.completed) p.pending)

  -- The body of the `while` loop after the deadline's test, on the ready names.
  abbrev turn : Progress S O → List String → Result DagError (Progress S O)
  turn p [] = err stalled
  turn p (name ∷ names) = after_round g p (run_round (name ∷ names) p.now p.state)

  -- One turn of the `while` loop.
  unfoldable pub round : ℕ → Progress S O → Result DagError (Progress S O)
  round deadline p = if ltb deadline p.now then err timeout else turn p (ready p)

  -- `while pending:`, on fuel.
  unfoldable pub loop : ℕ → ℕ → Progress S O → Result DagError (DagResult S O)
  loop zero deadline p = elim p.pending [ [] ↦ ok (finished g p) | _ ∷ _ ↦ err out_of_fuel ]
  loop (suc fuel) deadline p = elim p.pending [
    | [] ↦ ok (finished g p)
    | _ ∷ _ ↦ round deadline p >>= loop fuel deadline
  ]

  -- One round for each node, and one turn more.
  abbrev pub start : Option String → S → ℕ → ℕ → Result DagError (DagResult S O)
  start none initial now timeout_s = err no_entry
  start (some entry) initial now timeout_s =
      loop (suc (length g.nodes)) (now + timeout_s) (begin g entry initial now)

  unfoldable pub execute : S → ℕ → ℕ → Result DagError (DagResult S O)
  execute initial now timeout_s = start g.entry initial now timeout_s
