-- ===== src/Engine/Dag/Shape.antt =====
-- internal/engine/dag.go, BuildDAG: the graph that comes out has the edges, roots and gotos of the
-- steps. The last pass, `validateGotos`, changes only numbers of iterations.
use tailflow_agent.Prelude.{
  ℕ, String, ◌≡◌, refl, sym, ◌⊎◌, Option, none, some, List, [], ◌∷◌, arith, contains, count,
  IsNodup, eq_iff, Option-cases, inl, inr, ap, ◌∙◌, subst,
}
use tailflow_agent.Prelude.Dict.{
  Dict, is_some, lookup, insert, keys, lookup-insert, keys-insert_present,
}
use tailflow_agent.Parser.Schema.{Step, GotoConfig}
use tailflow_agent.Engine.Dag.{
  DagNode, Dag, ok, children, parents, check_goto, check_gotos, set_max_iterations, default_max,
  validate_gotos, order_index, build_dag, passed,
}
use tailflow_agent.Engine.Dag.Order.{IsGraph, HasRoots}
use tailflow_agent.Engine.Dag.Link.{ids, dependencies}
use tailflow_agent.Engine.Dag.Build.{
  Passes, build_dag-Passes, IsGraph-linked, HasRoots-linked, HasNode-linked, parents_lem,
}

-- The same graph, up to the steps at the nodes and the order.
pub record SameShape (d d' : Dag) : Type 0 where
  pub same_keys : keys d'.nodes ≡ keys d.nodes
  pub same_node : (k : String) → is_some (lookup k d'.nodes) ≡ is_some (lookup k d.nodes)
  pub same_children : (k : String) → children d' k ≡ children d k
  pub same_parents : (k : String) → parents d' k ≡ parents d k
  pub same_roots : d'.roots ≡ d.roots

SameShape-refl : (d : Dag) → SameShape d d
SameShape-refl d = record {
  same_keys = refl;
  same_node = λ k. refl;
  same_children = λ k. refl;
  same_parents = λ k. refl;
  same_roots = refl;
}

SameShape-trans : (d d' d'' : Dag) → SameShape d d' → SameShape d' d'' → SameShape d d''
SameShape-trans d d' d'' a b = record {
  same_keys = b.same_keys ∙ a.same_keys;
  same_node = λ k. b.same_node k ∙ a.same_node k;
  same_children = λ k. b.same_children k ∙ a.same_children k;
  same_parents = λ k. b.same_parents k ∙ a.same_parents k;
  same_roots = b.same_roots ∙ a.same_roots;
}

module _ (id : String) (d : Dag) (n : DagNode) (e : lookup id d.nodes ≡ some n) where
  abbrev changed : Dag
  changed = record d { nodes = insert id (record n { step = default_max n.step }) d.nodes }

  changed-SameShape : SameShape d changed
  changed-SameShape = record {
    same_keys = keys-insert_present id _ d.nodes (ap is_some e);
    same_node = λ k.
        ground
          (arith, lookup-insert id k (record n { step = default_max n.step }) d.nodes, eq_iff id k);
    same_children = λ k.
        ground
          (arith, lookup-insert id k (record n { step = default_max n.step }) d.nodes, eq_iff id k);
    same_parents = λ k.
        ground
          (arith, lookup-insert id k (record n { step = default_max n.step }) d.nodes, eq_iff id k);
    same_roots = refl;
  }

set_max-SameShape : (id : String) (d : Dag) → SameShape d (set_max_iterations id d)
unfolding set_max_iterations
set_max-SameShape id d = elim (Option-cases (lookup id d.nodes)) [
  | inl e ↦ rw (e, set_max_iterations) (SameShape-refl d)
  | inr (n, e) ↦ rw (e, set_max_iterations) (changed-SameShape id d n e)
]

check_goto_cases :
    (index : Dict ℕ) (s : Step) (g : GotoConfig) (d d' : Dag)
    → check_goto index s (some g) d ≡ ok d'
    → (d ≡ d') ⊎ (set_max_iterations s.id d ≡ d')
unfolding check_goto
check_goto_cases index s g d d' e = ground arith

check_goto-SameShape :
    (index : Dict ℕ) (s : Step) (g : Option GotoConfig) (d d' : Dag)
    → check_goto index s g d ≡ ok d'
    → SameShape d d'
unfolding check_goto
check_goto-SameShape index s none d d' e = subst (SameShape d) (ground arith) (SameShape-refl d)
check_goto-SameShape index s (some g) d d' e = elim (check_goto_cases index s g d d' e) [
  | inl same ↦ subst (SameShape d) same (SameShape-refl d)
  | inr put ↦ subst (SameShape d) put (set_max-SameShape s.id d)
]

check_gotos-SameShape :
    (index : Dict ℕ) (ss : List Step) (d d' : Dag) → check_gotos index ss d ≡ ok d' → SameShape d d'
unfolding check_gotos
check_gotos-SameShape index [] d d' e = subst (SameShape d) (ground arith) (SameShape-refl d)
check_gotos-SameShape index (s ∷ ss) d d' e =
    let (d₁, first, rest) = passed (check_goto index s s.goto d) (check_gotos index ss) e in
    SameShape-trans d d₁ d' (check_goto-SameShape index s s.goto d d₁ first)
      (check_gotos-SameShape index ss d₁ d' rest)

module _ (ss : List Step) (d : Dag) (h : IsNodup (ids ss)) (e : build_dag ss ≡ ok d) where
  passes : Passes ss d
  passes = build_dag-Passes ss d e

  shape : SameShape passes.graph d
  unfolding validate_gotos
  shape =
      let p = passes in
      let ordered = record p.graph { order = p.order } in
      let last = check_gotos-SameShape (order_index 0 p.order []) ss ordered d p.checked in
      record {
        same_keys = last.same_keys;
        same_node = last.same_node;
        same_children = last.same_children;
        same_parents = last.same_parents;
        same_roots = last.same_roots;
      }

  pub build_dag-IsGraph : IsGraph d
  build_dag-IsGraph =
      let g = IsGraph-linked ss h passes.graph passes.built in
      record {
        symmetric = λ p c.
            ap (count c) (shape.same_children p)
            ∙ g.symmetric p c
            ∙ ap (count p) (sym (shape.same_parents c));
        distinct = subst IsNodup (sym shape.same_keys) g.distinct;
      }

  pub build_dag-parents : (k : String) → parents d k ≡ dependencies ss k
  build_dag-parents k = shape.same_parents k ∙ parents_lem ss h passes.graph passes.built k

  pub build_dag-HasNode : (k : String) → is_some (lookup k d.nodes) ≡ contains k (ids ss)
  build_dag-HasNode k = shape.same_node k ∙ HasNode-linked ss h passes.graph passes.built k

  pub build_dag-HasRoots : HasRoots d
  build_dag-HasRoots k =
      ap (count k) shape.same_roots
      ∙ HasRoots-linked ss h passes.graph passes.built k
      ∙ ground (arith, shape.same_node k, shape.same_parents k)
