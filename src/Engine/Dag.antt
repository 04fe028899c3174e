-- ===== src/Engine/Dag.antt =====
-- internal/engine/dag.go: the dependency graph of a workflow and its topological order. A `*DAGNode`
-- is named by its key in `Nodes`: the code makes one node for a key, before it links any.
pub mod Counting
pub mod Kahn
pub mod Shape
pub mod Plain
pub mod Gotos
pub mod Complete
pub mod Build
pub mod Link
pub mod Order
pub mod Samples
use tailflow_agent.Prelude.{
  ℕ, zero, suc, String, ◌≡◌, refl, Bool, true, false, ◌&&◌, Option, none, some, List, [], ◌∷◌, ◌++◌,
  length, ltb, leb, eqb, not, if◌then◌else◌,
}
use tailflow_agent.Prelude.Dict.{Dict, get_or, is_some, lookup, insert}
use tailflow_agent.Prelude.Int.{ℤ, pos, dec, is_zero, le_zero}
use tailflow_agent.Parser.Schema.{Step, GotoConfig}

pub record DagNode : Type 0 where
  pub step : Step
  pub children : List String
  pub parents : List String

pub record Dag : Type 0 where
  pub nodes : Dict DagNode
  pub roots : List String
  pub order : List String

-- The errors of `BuildDAG`, with the ids that the messages name. The last is no error of the
-- source: the fuel of the loop ran out, which `Kahn` shows never to happen.
pub data DagError : Type 0 where
  unknown_dependency : (step dep : String) → DagError
  no_roots : DagError
  cycle : DagError
  unknown_goto : (step target : String) → DagError
  goto_not_before : (step target : String) → DagError
  out_of_fuel : DagError

pub data Result {ℓ} (A : Type ℓ) : Type ℓ where
  ok : A → Result A
  err : DagError → Result A

-- What follows a pass runs if the pass gave no error.
infixl 5 ◌>>=◌
abbrev pub ◌>>=◌ {ℓ κ} : {A : Type ℓ} {B : Type κ} → Result A → (A → Result B) → Result B
pass >>= next = elim pass [ err e ↦ err e | ok a ↦ next a ]

-- A pass and what follows it, when both succeeded.
pub passed {ℓ κ} :
    {A : Type ℓ} {B : Type κ} (pass : Result A) (next : A → Result B) {end : B}
    → (pass >>= next) ≡ ok end
    → (mid : A) × (pass ≡ ok mid) × (next mid ≡ ok end)
passed (err e) next h = absurd (cc h)
passed (ok mid) next h = (mid, refl, h)

-- `dag.Nodes[id].Children` and `.Parents`, empty for an id that names no node.
abbrev pub children : Dag → String → List String
children d k = elim (lookup k d.nodes) [ none ↦ [] | some n ↦ n.children ]

abbrev pub parents : Dag → String → List String
parents d k = elim (lookup k d.nodes) [ none ↦ [] | some n ↦ n.parents ]

abbrev pub bare_node : Step → DagNode
bare_node s = record { step = s; children = []; parents = [] }

-- The first loop of `BuildDAG`: a node for each step, the last step of an id winning.
pub make_nodes : List Step → Dict DagNode → Dict DagNode
make_nodes [] nodes = nodes
make_nodes (s ∷ ss) nodes = make_nodes ss (insert s.id (bare_node s) nodes)

-- `parent.Children = append(parent.Children, node); node.Parents = append(node.Parents, parent)`
pub append_child : String → String → Dag → Dag
append_child p c d = elim (lookup p d.nodes) [
  | none ↦ d
  | some n ↦ record d { nodes = insert p (record n { children = n.children ++ c ∷ [] }) d.nodes }
]

pub append_parent : String → String → Dag → Dag
append_parent p c d = elim (lookup c d.nodes) [
  | none ↦ d
  | some n ↦ record d { nodes = insert c (record n { parents = n.parents ++ p ∷ [] }) d.nodes }
]

-- The loop over `s.DependsOn`.
pub link_deps : String → List String → Dag → Result Dag
link_deps id [] d = ok d
link_deps id (dep ∷ deps) d =
    let rest = link_deps id deps (append_parent dep id (append_child dep id d)) in
    if is_some (lookup dep d.nodes) then rest else err (unknown_dependency id dep)

-- The body of the second loop: a step without dependencies is a root.
pub link_step : String → List String → Dag → Result Dag
link_step id [] d = ok (record d { roots = d.roots ++ id ∷ [] })
link_step id (dep ∷ deps) d = link_deps id (dep ∷ deps) d

pub link_steps : List Step → Dag → Result Dag
link_steps [] d = ok d
link_steps (s ∷ ss) d = link_step s.id s.depends_on d >>= link_steps ss

-- `inDegree[id]`, 0 for a missing key.
abbrev pub degree : Dict ℤ → String → ℤ
degree m k = get_or (lookup k m) (pos 0)

-- `inDegree[id] = len(node.Parents)` for every node.
pub in_degrees : Dict DagNode → Dict ℤ
in_degrees [] = []
in_degrees ((k, n) ∷ nodes) = insert k (pos (length n.parents)) (in_degrees nodes)

-- The loop over `node.Children`: the degrees and the queue after it.
pub relax : List String → Dict ℤ → List String → Dict ℤ × List String
relax [] m queue = (m, queue)
relax (c ∷ cs) m queue =
    let m' = insert c (dec (degree m c)) m in
    relax cs m' (if is_zero (degree m' c) then queue ++ c ∷ [] else queue)

-- The loop `for len(queue) > 0`, with fuel.
pub kahn : ℕ → Dag → Dict ℤ → List String → List String → Result (List String)
unfolding relax
kahn fuel d m [] order = ok order
kahn zero d m (id ∷ queue) order = err out_of_fuel
kahn (suc fuel) d m (id ∷ queue) order =
    let (m', queue') = relax (children d id) m queue in kahn fuel d m' queue' (order ++ id ∷ [])

pub topo_sort : Dag → Result (List String)
unfolding in_degrees kahn
topo_sort d = kahn (length d.nodes) d (in_degrees d.nodes) d.roots [] >>= λ order.
    if eqb (length order) (length d.nodes) then ok order else err cycle

-- `orderIndex`: the position of each id in the order.
pub order_index : ℕ → List String → Dict ℕ → Dict ℕ
order_index i [] m = m
order_index i (id ∷ ids) m = order_index (suc i) ids (insert id i m)

abbrev pub default_goto : Option GotoConfig → Option GotoConfig
default_goto none = none
default_goto (some g) = some (record g { max_iterations = pos 10 })

abbrev pub default_max : Step → Step
default_max s = record s { goto = default_goto s.goto }

-- `dag.Nodes[id].Step.Goto.MaxIterations = 10`. The `GotoConfig` is shared with the workflow's own
-- step, which changes too; nothing that follows reads it there.
pub set_max_iterations : String → Dag → Dag
set_max_iterations id d = elim (lookup id d.nodes) [
  | none ↦ d
  | some n ↦ record d { nodes = insert id (record n { step = default_max n.step }) d.nodes }
]

-- The body of the loop of `validateGotos`, for a step with or without a goto.
pub check_goto : Dict ℕ → Step → Option GotoConfig → Dag → Result Dag
check_goto index s none d = ok d
check_goto index s (some g) d =
    if is_some (lookup g.target d.nodes)
    then if leb (get_or (lookup s.id index) 0) (get_or (lookup g.target index) 0)
      then err (goto_not_before s.id g.target)
      else if le_zero g.max_iterations
      then ok (set_max_iterations s.id d)
      else ok d
    else err (unknown_goto s.id g.target)

-- The loop of `validateGotos`.
pub check_gotos : Dict ℕ → List Step → Dag → Result Dag
check_gotos index [] d = ok d
check_gotos index (s ∷ ss) d = check_goto index s s.goto d >>= check_gotos index ss

pub validate_gotos : Dag → List Step → Result Dag
validate_gotos d steps = check_gotos (order_index 0 d.order []) steps d

-- `len(dag.Roots) == 0 && len(steps) > 0` is an error, and so is what the later passes find.
pub finish_dag : List Step → Dag → Result Dag
finish_dag steps d =
    if eqb (length d.roots) 0 && ltb 0 (length steps)
    then err no_roots
    else (topo_sort d >>= λ order. validate_gotos (record d { order = order }) steps)

pub build_dag : List Step → Result Dag
build_dag steps =
    link_steps steps (record { nodes = make_nodes steps []; roots = []; order = [] })
    >>= finish_dag steps
