-- ===== src/Engine/Dag/Samples.antt =====
-- Small workflows, and the theorems of the graph at them.
use tailflow_agent.Prelude.{
  ℕ, String, ◌≡◌, refl, Option, none, some, List, [], ◌∷◌, arith, All, if◌then◌else◌, ◌==◌,
}
use tailflow_agent.Prelude.Dict.{lookup, insert}
use tailflow_agent.Prelude.Int.{pos}
use tailflow_agent.Parser.Schema.{Step, GotoConfig}
use tailflow_agent.Engine.Dag.{
  Dag, ok, err, cycle, no_roots, unknown_dependency, make_nodes, append_child, append_parent,
  link_deps, link_step, link_steps, in_degrees, relax, kahn, topo_sort, order_index,
  set_max_iterations, check_goto, check_gotos, validate_gotos, finish_dag, build_dag,
}
use tailflow_agent.Engine.Dag.Build.{IsExecutionOrder, build_dag-IsExecutionOrder}
use tailflow_agent.Engine.Dag.Gotos.{JumpsBack, build_dag-JumpsBack}
use tailflow_agent.Engine.Dag.Complete.{build_dag_of_ranked}

abbrev pub step : String → List String → Option GotoConfig → Step
step id deps goto = record {
  id = id;
  action = "log";
  stage = "main";
  depends_on = deps;
  when = "";
  config = [];
  retry = none;
  on_error = [];
  timeout = "";
  goto = goto;
  error_policy = "";
  on_recovery = "";
  testing = [];
  line = 0;
}

-- A diamond whose steps stand in reverse, and the same with a jump back to the first step.
abbrev diamond : List Step
diamond =
    step "d" ("b" ∷ "c" ∷ []) none
    ∷ step "c" ("a" ∷ []) none
    ∷ step "b" ("a" ∷ []) none
    ∷ step "a" [] none
    ∷ []

abbrev looping : List Step
looping =
    step "a" [] none
    ∷ step "b" ("a" ∷ []) (some (record { target = "a"; when = "true"; max_iterations = pos 0 }))
    ∷ []

unfoldable pub program : Unit {0}
unfolding build_dag finish_dag topo_sort kahn relax in_degrees make_nodes link_steps link_step
    link_deps append_child append_parent validate_gotos check_gotos check_goto order_index
    set_max_iterations lookup insert
program = tt

abbrev result : List Step → List String
result ss = elim (build_dag ss) [ ok d ↦ d.order | err e ↦ [] ]

order-diamond : result diamond ≡ "a" ∷ "c" ∷ "b" ∷ "d" ∷ []
unfolding program
order-diamond = refl

build_cyclic :
    (build_dag (step "r" [] none ∷ step "a" ("b" ∷ []) none ∷ step "b" ("a" ∷ []) none ∷ [])
      ≡ err cycle)
    × (build_dag (step "a" ("a" ∷ []) none ∷ []) ≡ err no_roots)
    × (build_dag (step "a" ("z" ∷ []) none ∷ []) ≡ err (unknown_dependency "a" "z"))
unfolding program
build_cyclic = (refl, refl, refl)

-- The default number of iterations is put in where none is given.
build-looping : (d : Dag) × (build_dag looping ≡ ok d) × (d.order ≡ "a" ∷ "b" ∷ [])
unfolding program
build-looping = (_, refl, refl)

build_dag-JumpsBack_example : All (λ s. JumpsBack build-looping.0.order s.goto s.id) looping
build_dag-JumpsBack_example =
    build_dag-JumpsBack looping build-looping.0 (refl, (refl, tt)) build-looping.1

build-diamond : (d : Dag) × (build_dag diamond ≡ ok d)
unfolding program
build-diamond = (_, refl)

build_dag-IsExecutionOrder_example : IsExecutionOrder diamond build-diamond.0.order
build_dag-IsExecutionOrder_example =
    build_dag-IsExecutionOrder diamond build-diamond.0 (refl, (refl, (refl, (refl, tt))))
      build-diamond.1

-- A rank for the diamond.
abbrev rank : String → ℕ
rank k = if k == "a" then 0 else if k == "d" then 2 else 1

build_dag_of_ranked_example : (d : Dag) × (build_dag diamond ≡ ok d)
build_dag_of_ranked_example =
    build_dag_of_ranked (step "d" ("b" ∷ "c" ∷ []) none)
      (step "c" ("a" ∷ []) none ∷ step "b" ("a" ∷ []) none ∷ step "a" [] none ∷ []) rank
      (refl, (refl, (refl, (refl, tt)))) ((refl, (refl, tt)), ((refl, tt), ((refl, tt), (tt, tt))))
      ((omega arith, (omega arith, tt)), ((omega arith, tt), ((omega arith, tt), (tt, tt))))
      (refl, (refl, (refl, (refl, tt))))
