-- ===== src/Engine/Goto/Samples.antt =====
-- The loop body in a small graph, and the theorem about it there.
use tailflow_agent.Prelude.{String, ◌≡◌, refl, ◌↔◌, none, some, List, [], ◌∷◌, true, contains}
use tailflow_agent.Parser.Schema.{Step}
use tailflow_agent.Engine.Dag.{Dag, ok, build_dag, children, parents}
use tailflow_agent.Engine.Dag.Shape.{build_dag-IsGraph, build_dag-HasNode}
use tailflow_agent.Engine.Dag.Samples.{step, program}
use tailflow_agent.Engine.Goto.{offer, search, reachable, intersection, find_loop_body}
use tailflow_agent.Engine.Goto.Search.{Walk, find_loop_body_correct}

abbrev branching : List Step
branching =
    step "a" [] none
    ∷ step "b" ("a" ∷ []) none
    ∷ step "c" ("b" ∷ []) none
    ∷ step "e" ("b" ∷ []) none
    ∷ []

built_branching : (d : Dag) × (build_dag branching ≡ ok d)
unfolding program
built_branching = (_, refl)

-- `e` does not lead back to the step with the goto.
body_branching : find_loop_body built_branching.0 "b" "c" ≡ some ("b" ∷ "c" ∷ [])
unfolding program built_branching find_loop_body intersection reachable search offer
body_branching = refl

find_loop_body_correct_example :
    (body : List String) × (find_loop_body built_branching.0 "b" "c" ≡ some body)
    × ((k : String)
        → contains k body ≡ true
          ↔ Walk (children built_branching.0) "b" k × Walk (parents built_branching.0) "c" k)
find_loop_body_correct_example =
    find_loop_body_correct built_branching.0 "b" "c"
      (build_dag-IsGraph branching built_branching.0 (refl, (refl, (refl, (refl, tt))))
        built_branching.1)
      (build_dag-HasNode branching built_branching.0 (refl, (refl, (refl, (refl, tt))))
        built_branching.1 "b")
      (build_dag-HasNode branching built_branching.0 (refl, (refl, (refl, (refl, tt))))
        built_branching.1 "c")
