-- ===== src/Orchestrator/Dag/Parents.antt =====
-- `_compute_parents` of runner.py: the parents of a node are the sources of its static edges.
use investment_intelligence.Prelude.{
  ◌≡◌, refl, ◌∙◌, Bool, true, false, ◌&&◌, ◌||◌, some, List, [], ◌∷◌, String, arith, Bool-cases,
  inl, inr, all_of, ap, sym,
}
use investment_intelligence.Prelude.Keys.{String-keys, ◌=?◌, contains}
use investment_intelligence.Prelude.Dict.{Dict, lookup, lookup-insert}
use investment_intelligence.Orchestrator.Dag.{
  Graph, or_empty, add, add_parent, add_parents, scan_edges, no_parents, compute_parents, is_ready,
}
use investment_intelligence.Orchestrator.Dag.Rounds.{contains-add}

-- Some `add_edge(src, dst)` of the graph.
abbrev pub has_edge : String → String → Dict String (List String) → Bool
has_edge src dst [] = false
has_edge src dst ((s, dsts) ∷ edges) = ((s =? src) && contains dst dsts) || has_edge src dst edges

abbrev is_parent : String → String → Dict String (List String) → Bool
is_parent src dst parents = contains src (or_empty (lookup dst parents))

add_parent-is_parent :
    (x y src dst : String) (parents : Dict String (List String))
    → is_parent x y (add_parent src dst parents)
      ≡ (((src =? x) && (dst =? y)) || is_parent x y parents)
add_parent-is_parent x y src dst parents = elim (Bool-cases (dst =? y)) [
  | inl hit ↦
      let same = (String-keys.beq_iff dst y).0 hit in
      let old : or_empty (lookup dst parents) ≡ or_empty (lookup y parents) =
        ap (λ z. or_empty (lookup z parents)) same in
      let found : lookup y (add_parent src dst parents)
          ≡ some (add src (or_empty (lookup y parents))) =
        lookup-insert dst y (add src (or_empty (lookup dst parents))) parents
        ∙ rw (hit, old) refl in
      ap (λ o. contains x (or_empty o)) found
      ∙ contains-add x src (or_empty (lookup y parents))
      ∙ rw hit (ground arith)
  | inr miss ↦
      ap (λ o. contains x (or_empty o))
        (lookup-insert dst y (add src (or_empty (lookup dst parents))) parents)
      ∙ rw miss (ground arith)
]

add_parents-is_parent :
    (x y src : String) (dsts : List String) (parents : Dict String (List String))
    → is_parent x y (add_parents src dsts parents)
      ≡ (((src =? x) && contains y dsts) || is_parent x y parents)
add_parents-is_parent x y src [] parents = ground arith
add_parents-is_parent x y src (dst ∷ dsts) parents =
    add_parents-is_parent x y src dsts (add_parent src dst parents)
    ∙ ap (λ b. ((src =? x) && contains y dsts) || b) (add_parent-is_parent x y src dst parents)
    ∙ ground arith

scan_edges-is_parent :
    (x y : String) (edges parents : Dict String (List String))
    → is_parent x y (scan_edges edges parents) ≡ (has_edge x y edges || is_parent x y parents)
scan_edges-is_parent x y [] parents = refl
scan_edges-is_parent x y ((src, dsts) ∷ edges) parents =
    scan_edges-is_parent x y edges (add_parents src dsts parents)
    ∙ ap (λ b. has_edge x y edges || b) (add_parents-is_parent x y src dsts parents)
    ∙ ground arith

no_parents-is_parent {ℓ} :
    {A : Type ℓ} (x y : String) (nodes : Dict String A) → is_parent x y (no_parents nodes) ≡ false
no_parents-is_parent x y [] = refl
no_parents-is_parent x y ((n, _) ∷ nodes) = ground (arith, no_parents-is_parent x y nodes)

pub compute_parents-is_parent :
    {S O : Type 0} (g : Graph S O) (x y : String)
    → is_parent x y (compute_parents g) ≡ has_edge x y g.edges
unfolding compute_parents
compute_parents-is_parent g x y =
    scan_edges-is_parent x y g.edges (no_parents g.nodes)
    ∙ ap (λ b. has_edge x y g.edges || b) (no_parents-is_parent x y g.nodes)
    ∙ ground arith

all_of-contains :
    (done xs : List String) (x : String)
    → all_of (λ p. contains p done) xs ≡ true
    → contains x xs ≡ true
    → contains x done ≡ true
all_of-contains done [] x h c = cc
all_of-contains done (y ∷ xs) x h c = elim (Bool-cases (y =? x)) [
  | inl hit ↦ ap (λ z. contains z done) (sym ((String-keys.beq_iff y x).0 hit)) ∙ ground arith
  | inr miss ↦ all_of-contains done xs x (ground arith) (ground arith)
]

-- A ready node has all its parents behind it.
pub is_ready-parents :
    {S O : Type 0} (g : Graph S O) (done : List String) (n src : String)
    → is_ready (compute_parents g) done n ≡ true
    → has_edge src n g.edges ≡ true
    → contains src done ≡ true
is_ready-parents g done n src r h =
    all_of-contains done (or_empty (lookup n (compute_parents g))) src r
      (compute_parents-is_parent g src n ∙ h)
