-- ===== src/Orchestrator/Dag/Direct.antt =====
-- The direct call of a node in runner.py, in a form that shows the state before the ending is known.
use mathlib.Core.Path.{fun_ext}
use investment_intelligence.Prelude.{ℕ, ◌≡◌, refl, ap, ◌∙◌, true}
use investment_intelligence.Orchestrator.Sla.{
  Node, Run, Finish, Ending, returned, raised_timeout, raised, complete,
}
use investment_intelligence.Orchestrator.Dag.{Graph, Runner, one_by_one, execute, run_direct}
use investment_intelligence.Orchestrator.Dag.Single.{RunsOne, single_run, execute_single}

-- A run's finish, with what does not depend on the ending outside its cases.
abbrev pub flat : {S O : Type 0} → Node S O → S → Finish S O
flat node s = record (complete (node.fn s).ending (node.fn s)) {
  took = (node.fn s).duration;
  state = (node.fn s).after;
}

complete-flat :
    {S O : Type 0} (e : Ending O) (r : Run S O)
    → complete e r ≡ record (complete e r) { took = r.duration; state = r.after }
complete-flat (returned o) r = refl
complete-flat (raised_timeout t) r = refl
complete-flat (raised t) r = refl

run_direct-flat : {S O : Type 0} → run_direct {S = S} {O = O} ≡ flat
unfolding run_direct
run_direct-flat = fun_ext (λ node. fun_ext (λ s. complete-flat (node.fn s).ending (node.fn s)))

-- A run in which every round has one node, under any runner that calls a node directly.
pub execute-flat :
    {S O : Type 0} (runner : Runner S O) (g : Graph S O) (initial : S) (now timeout_s : ℕ)
    → RunsOne runner run_direct
    → single_run flat g initial now timeout_s ≡ true
    → execute runner g initial now timeout_s ≡ execute (one_by_one flat) g initial now timeout_s
execute-flat runner g initial now timeout_s runs single =
    execute_single run_direct g runner runs initial now timeout_s
      (ap (λ run. single_run run g initial now timeout_s) run_direct-flat ∙ single)
    ∙ ap (λ run. execute (one_by_one run) g initial now timeout_s) run_direct-flat
