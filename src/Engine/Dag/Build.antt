-- ===== src/Engine/Dag/Build.antt =====
-- internal/engine/dag.go, BuildDAG: what the whole construction promises of the steps it is given.
use tailflow_agent.Prelude.{
  ℕ, ◌+◌, String, ◌≡◌, refl, sym, inl, inr, false, ◌&&◌, ◌||◌, Option, none, some, List, [], ◌∷◌,
  ◌++◌, arith, length, contains, count, IsNodup, eqb, count-append, if◌then◌else◌, ◌==◌, eq_iff,
  Bool-cases, Option-cases, ap, append-nil, ◌∙◌, subst, fun_ext,
}
use tailflow_agent.Prelude.Dict.{
  Dict, is_some, lookup, insert, keys, lookup-insert, contains-keys, insert-IsNodup,
  contains-keys-insert,
}
use tailflow_agent.Parser.Schema.{Step, GotoConfig}
use tailflow_agent.Engine.Dag.{
  passed, DagNode, Dag, ok, children, parents, bare_node, make_nodes, link_steps, topo_sort,
  check_gotos, check_goto, set_max_iterations, validate_gotos, finish_dag, build_dag,
}
use tailflow_agent.Engine.Dag.Kahn.{pending_nil}
use tailflow_agent.Engine.Dag.Order.{IsGraph, HasRoots, IsOrdered, topo_sort-IsTopological}
use tailflow_agent.Engine.Dag.Link.{
  ids, dependencies, entry_point, entry_points, Extends, link_steps-Extends,
}

-- The nodes of the first loop.
make_nodes-IsNodup :
    (ss : List Step) (nodes : Dict DagNode)
    → IsNodup (keys nodes)
    → IsNodup (keys (make_nodes ss nodes))
unfolding make_nodes
make_nodes-IsNodup [] nodes h = h
make_nodes-IsNodup (s ∷ ss) nodes h = make_nodes-IsNodup ss _ (insert-IsNodup s.id _ nodes h)

contains-make_nodes :
    (ss : List Step) (nodes : Dict DagNode) (k : String)
    → contains k (keys (make_nodes ss nodes)) ≡ (contains k (ids ss) || contains k (keys nodes))
unfolding make_nodes
contains-make_nodes [] nodes k = refl
contains-make_nodes (s ∷ ss) nodes k = ground (
  arith,
  contains-make_nodes ss (insert s.id (bare_node s) nodes) k,
  contains-keys-insert s.id k (bare_node s) nodes,
)

-- No node has an edge yet.
abbrev IsBare : Dict DagNode → Type 0
IsBare nodes =
    (k : String) (n : DagNode) → lookup k nodes ≡ some n → (n.children ≡ []) × (n.parents ≡ [])

IsBare-nil : IsBare []
unfolding lookup
IsBare-nil k n e = cc

make_nodes-IsBare :
    (ss : List Step) (nodes : Dict DagNode) → IsBare nodes → IsBare (make_nodes ss nodes)
unfolding make_nodes
make_nodes-IsBare [] nodes h = h
make_nodes-IsBare (s ∷ ss) nodes h =
    make_nodes-IsBare ss (insert s.id (bare_node s) nodes)
      λ k n e. ground (arith, lookup-insert s.id k (bare_node s) nodes, h k n)

-- The graph before any link.
abbrev pub unlinked : List Step → Dag
unlinked ss = record { nodes = make_nodes ss []; roots = []; order = [] }

parents_unlinked : (ss : List Step) (k : String) → parents (unlinked ss) k ≡ []
parents_unlinked ss k = elim (Option-cases (lookup k (make_nodes ss []))) [
  | inl e ↦ rw (e, parents)
  | inr (n, e) ↦ rw (e, parents) (make_nodes-IsBare ss [] IsBare-nil k n e).1
]

children_unlinked : (ss : List Step) (k : String) → children (unlinked ss) k ≡ []
children_unlinked ss k = elim (Option-cases (lookup k (make_nodes ss []))) [
  | inl e ↦ rw (e, children)
  | inr (n, e) ↦ rw (e, children) (make_nodes-IsBare ss [] IsBare-nil k n e).0
]

dependencies_absent :
    (ss : List Step) (k : String) → contains k (ids ss) ≡ false → dependencies ss k ≡ []
dependencies_absent [] k h = refl
dependencies_absent (s ∷ ss) k h = ground (arith, dependencies_absent ss k)

entry_point_ne :
    (k id : String) (deps : List String) → (id == k) ≡ false → count k (entry_point id deps) ≡ 0
entry_point_ne k id [] h = rw h
entry_point_ne k id (d ∷ deps) h = refl

entry_points_absent :
    (ss : List Step) (k : String) → contains k (ids ss) ≡ false → count k (entry_points ss) ≡ 0
entry_points_absent [] k h = refl
entry_points_absent (s ∷ ss) k h = ground (
  arith,
  entry_points_absent ss k,
  count-append k (entry_point s.id s.depends_on) (entry_points ss),
  entry_point_ne k s.id s.depends_on,
)

count-entry_point :
    (id : String) (deps : List String)
    → count id (entry_point id deps) ≡ (if eqb (length deps) 0 then 1 else 0)
count-entry_point id [] = ground (arith, eq_iff id id)
count-entry_point id (d ∷ deps) = ground arith

count_here :
    (s : Step) (ss : List Step)
    → IsNodup (ids (s ∷ ss))
    → count s.id (entry_points (s ∷ ss)) ≡ (
        if contains s.id (ids (s ∷ ss)) && eqb (length (dependencies (s ∷ ss) s.id)) 0
        then 1
        else 0)
count_here s ss h =
    rw
      (
        dependencies_absent ss s.id h.0,
        (eq_iff s.id s.id).1 refl,
        append-nil s.depends_on,
        count-append,
      )
      (ground (arith, count-entry_point s.id s.depends_on, entry_points_absent ss s.id h.0))

-- An id is an entry point exactly if it is a step's and depends on nothing.
count-entry_points :
    (ss : List Step)
    → IsNodup (ids ss)
    → (k : String)
    → count k (entry_points ss)
      ≡ (if contains k (ids ss) && eqb (length (dependencies ss k)) 0 then 1 else 0)
count-entry_points [] h k = refl
count-entry_points (s ∷ ss) h k = elim (Bool-cases (s.id == k)) [
  | inl here ↦
      subst
        (λ j. count j (entry_points (s ∷ ss)) ≡ (
          if contains j (ids (s ∷ ss)) && eqb (length (dependencies (s ∷ ss) j)) 0 then 1 else 0))
        ((eq_iff s.id k).0 here) (count_here s ss h)
  | inr other ↦
      rw (other, count-append)
        (ground (arith, count-entry_points ss h.1 k, entry_point_ne k s.id s.depends_on))
]

pub HasNode-unlinked :
    (ss : List Step) (k : String) → is_some (lookup k (make_nodes ss [])) ≡ contains k (ids ss)
HasNode-unlinked ss k =
    ground (arith, contains-keys k (make_nodes ss []), contains-make_nodes ss [] k)

module _ (ss : List Step) (h : IsNodup (ids ss)) (d : Dag)
    (built : link_steps ss (unlinked ss) ≡ ok d) where
  grown : Extends (entry_points ss) (dependencies ss) (unlinked ss) d
  grown = link_steps-Extends ss (unlinked ss) d (λ k m. HasNode-unlinked ss k ∙ m) built

  pub parents_lem : (k : String) → parents d k ≡ dependencies ss k
  parents_lem k = grown.more_parents k ∙ ap (λ l. l ++ dependencies ss k) (parents_unlinked ss k)

  pub IsGraph-linked : IsGraph d
  IsGraph-linked = record {
    symmetric = λ p c.
        grown.more_children p c
        ∙ ap (λ l. count c l + count p (dependencies ss c)) (children_unlinked ss p)
        ∙ omega (arith, ap (count p) (parents_lem c));
    distinct = subst IsNodup (sym grown.same_keys) (make_nodes-IsNodup ss [] tt);
  }

  pub HasNode-linked : (k : String) → is_some (lookup k d.nodes) ≡ contains k (ids ss)
  HasNode-linked k =
      sym (contains-keys k d.nodes)
      ∙ ap (contains k) grown.same_keys
      ∙ contains-keys k (make_nodes ss [])
      ∙ HasNode-unlinked ss k

  pub HasRoots-linked : HasRoots d
  HasRoots-linked k =
      ap (count k) grown.more_roots
      ∙ count-entry_points ss h k
      ∙ ground (arith, pending_nil (parents d k), parents_lem k, HasNode-linked k)

set_max-order : (id : String) (d : Dag) → (set_max_iterations id d).order ≡ d.order
unfolding set_max_iterations
set_max-order id d = ground arith

check_goto-order :
    (index : Dict ℕ) (s : Step) (g : Option GotoConfig) (d d' : Dag)
    → check_goto index s g d ≡ ok d'
    → d'.order ≡ d.order
unfolding check_goto
check_goto-order index s none d d' e = ground arith
check_goto-order index s (some g) d d' e = ground (arith, set_max-order s.id d)

pub check_gotos-order :
    (index : Dict ℕ) (ss : List Step) (d d' : Dag)
    → check_gotos index ss d ≡ ok d'
    → d'.order ≡ d.order
unfolding check_gotos
check_gotos-order index [] d d' e = ground arith
check_gotos-order index (s ∷ ss) d d' e =
    let (d₁, first, rest) = passed (check_goto index s s.goto d) (check_gotos index ss) e in
    check_gotos-order index ss d₁ d' rest ∙ check_goto-order index s s.goto d d₁ first

-- What an execution order of the steps is: each id once, behind what it depends on.
pub record IsExecutionOrder (ss : List Step) (order : List String) : Type 0 where
  pub each_once : (k : String) → count k order ≡ (if contains k (ids ss) then 1 else 0)
  pub ordered : IsOrdered (dependencies ss) [] order

-- The passes of a successful `BuildDAG`.
pub record Passes (ss : List Step) (d : Dag) : Type 0 where
  pub graph : Dag
  pub order : List String
  pub built : link_steps ss (unlinked ss) ≡ ok graph
  pub sorted : topo_sort graph ≡ ok order
  pub checked : validate_gotos (record graph { order = order }) ss ≡ ok d

pub build_dag-Passes : (ss : List Step) (d : Dag) → build_dag ss ≡ ok d → Passes ss d
unfolding build_dag finish_dag
build_dag-Passes ss d e =
    let (g, built, rest) = passed (link_steps ss (unlinked ss)) (finish_dag ss) e in
    let (order, sorted, checked) =
      passed (topo_sort g) (λ order. validate_gotos (record g { order = order }) ss)
        (ground arith) in
    record { graph = g; order = order; built = built; sorted = sorted; checked = checked }

-- If the ids are distinct and `BuildDAG` succeeds, its order holds each step's id exactly once and
-- no other id, and every step stands behind all that it depends on.
pub build_dag-IsExecutionOrder :
    (ss : List Step) (d : Dag)
    → IsNodup (ids ss)
    → build_dag ss ≡ ok d
    → IsExecutionOrder ss d.order
unfolding validate_gotos
build_dag-IsExecutionOrder ss d h e =
    let p = build_dag-Passes ss d e in
    let g = p.graph in
    let topo =
      topo_sort-IsTopological g (IsGraph-linked ss h g p.built) (HasRoots-linked ss h g p.built)
        p.order p.sorted in
    subst (IsExecutionOrder ss)
      (sym (check_gotos-order _ ss (record g { order = p.order }) d p.checked))
      (record {
        each_once =
            λ k. topo.each_once k ∙ ap (λ b. if b then 1 else 0) (HasNode-linked ss h g p.built k);
        ordered =
            subst (λ before. IsOrdered before [] p.order) (fun_ext (parents_lem ss h g p.built))
              topo.ordered;
      })
