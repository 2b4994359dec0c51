-- ===== src/Orchestrator/Dag/Once.antt =====
-- What a result of `execute` in runner.py says: each node ran once, after its parents.
use investment_intelligence.Prelude.{◌≡◌, true, List, [], ◌∷◌, ◌++◌, String, map, all_of}
use investment_intelligence.Prelude.Keys.{String-keys, contains, Distinct}
use investment_intelligence.Prelude.Dict.{Dict}
use investment_intelligence.Prelude.Outcome.{Result, ok, err}
use investment_intelligence.Orchestrator.Dag.{Graph, Runner, DagError, DagResult, Progress}
use investment_intelligence.Orchestrator.Dag.Rounds.{name_of, IsSplit}
use investment_intelligence.Orchestrator.Dag.Parents.{has_edge}

-- Every source of a static edge to a name stands before the name.
abbrev pub Behind : Dict String (List String) → List String → String → Type 0
Behind edges seen n = (src : String) → has_edge src n edges ≡ true → contains src seen ≡ true

abbrev pub InOrder : Dict String (List String) → List String → List String → Type 0
InOrder edges seen [] = Unit
InOrder edges seen (n ∷ ns) = Behind edges seen n × InOrder edges (seen ++ n ∷ []) ns

module _ {S O : Type 0} (runner : Runner S O) (g : Graph S O) where
  pub record Ran (p : Progress S O) : Type 0 where
    pub split : IsSplit p.pending p.completed
    pub names : map name_of p.results ≡ p.completed
    pub once : Distinct p.completed
    pub order : InOrder g.edges [] p.completed

  abbrev RanAfter : Result DagError (Progress S O) → Type 0
  RanAfter (err e) = Unit
  RanAfter (ok p) = Ran p

  -- What `execute` promises of the nodes that it ran.
  pub record Sound (result : DagResult S O) : Type 0 where
    pub once : Distinct (map name_of result.nodes)
    pub order : InOrder g.edges [] (map name_of result.nodes)
    pub all_ok : result.ok ≡ all_of (λ r. r.ok) result.nodes

  abbrev pub SoundIfOk : Result DagError (DagResult S O) → Type 0
  SoundIfOk (err e) = Unit
  SoundIfOk (ok result) = Sound result
