-- ===== src/Engine/Dag/Plain.antt =====
-- internal/engine/dag.go, BuildDAG: steps without gotos give nodes without gotos.
use tailflow_agent.Prelude.{
  String, ◌≡◌, none, some, List, [], ◌∷◌, ◌++◌, arith, ◌==◌, Option-cases, Bool-cases, inl, inr,
  subst,
}
use tailflow_agent.Prelude.Dict.{Dict, is_some, lookup, insert, lookup-insert}
use tailflow_agent.Parser.Schema.{Step}
use tailflow_agent.Engine.Dag.{
  DagNode, Dag, ok, bare_node, make_nodes, append_child, append_parent, link_deps, link_step,
  link_steps, validate_gotos, order_index, build_dag, passed,
}
use tailflow_agent.Engine.Dag.Build.{build_dag-Passes}
use tailflow_agent.Engine.Dag.Complete.{WithoutGotos, check_gotos_none}

-- No node has a goto.
abbrev pub IsPlain : Dict DagNode → Type 0
IsPlain nodes = (k : String) (n : DagNode) → lookup k nodes ≡ some n → n.step.goto ≡ none

insert-IsPlain :
    (id : String) (new : DagNode) (nodes : Dict DagNode)
    → new.step.goto ≡ none
    → IsPlain nodes
    → IsPlain (insert id new nodes)
insert-IsPlain id new nodes plain h k n e = elim (Bool-cases (id == k)) [
  | inl here ↦
      let same : new ≡ n = ground (arith, lookup-insert id k new nodes) in
      subst (λ (m : DagNode). m.step.goto ≡ none) same plain
  | inr other ↦ h k n (ground (arith, lookup-insert id k new nodes))
]

make_nodes-IsPlain :
    (ss : List Step) (nodes : Dict DagNode)
    → WithoutGotos ss
    → IsPlain nodes
    → IsPlain (make_nodes ss nodes)
unfolding make_nodes
make_nodes-IsPlain [] nodes w h = h
make_nodes-IsPlain (s ∷ ss) nodes w h =
    make_nodes-IsPlain ss (insert s.id (bare_node s) nodes) w.1
      (insert-IsPlain s.id (bare_node s) nodes w.0 h)

append_child-IsPlain :
    (p c : String) (d : Dag) → IsPlain d.nodes → IsPlain (append_child p c d).nodes
unfolding append_child
append_child-IsPlain p c d h = elim (Option-cases (lookup p d.nodes)) [
  | inl e ↦ rw (e, append_child) h
  | inr (n, e) ↦
      rw (e, append_child)
        (insert-IsPlain p (record n { children = n.children ++ c ∷ [] }) d.nodes (h p n e) h)
]

append_parent-IsPlain :
    (p c : String) (d : Dag) → IsPlain d.nodes → IsPlain (append_parent p c d).nodes
unfolding append_parent
append_parent-IsPlain p c d h = elim (Option-cases (lookup c d.nodes)) [
  | inl e ↦ rw (e, append_parent) h
  | inr (n, e) ↦
      rw (e, append_parent)
        (insert-IsPlain c (record n { parents = n.parents ++ p ∷ [] }) d.nodes (h c n e) h)
]

link_deps-IsPlain :
    (id : String) (deps : List String) (d d' : Dag)
    → link_deps id deps d ≡ ok d'
    → IsPlain d.nodes
    → IsPlain d'.nodes
unfolding link_deps
link_deps-IsPlain id [] d d' e h =
    let same : d ≡ d' = ground arith in subst (λ (x : Dag). IsPlain x.nodes) same h
link_deps-IsPlain id (dep ∷ deps) d d' e h = elim (Bool-cases (is_some (lookup dep d.nodes))) [
  | inl there ↦
      link_deps-IsPlain id deps (append_parent dep id (append_child dep id d)) d'
        (rw (there, link_deps) at e)
        (append_parent-IsPlain dep id (append_child dep id d) (append_child-IsPlain dep id d h))
  | inr missing ↦ absurd (cc (rw (missing, link_deps) at e))
]

link_step-IsPlain :
    (id : String) (deps : List String) (d d' : Dag)
    → link_step id deps d ≡ ok d'
    → IsPlain d.nodes
    → IsPlain d'.nodes
unfolding link_step
link_step-IsPlain id [] d d' e h =
    let same : record d { roots = d.roots ++ id ∷ [] } ≡ d' = ground arith in
    subst (λ (x : Dag). IsPlain x.nodes) same h
link_step-IsPlain id (dep ∷ deps) d d' e h = link_deps-IsPlain id (dep ∷ deps) d d' e h

link_steps-IsPlain :
    (ss : List Step) (d d' : Dag) → link_steps ss d ≡ ok d' → IsPlain d.nodes → IsPlain d'.nodes
unfolding link_steps
link_steps-IsPlain [] d d' e h =
    let same : d ≡ d' = ground arith in subst (λ (x : Dag). IsPlain x.nodes) same h
link_steps-IsPlain (s ∷ ss) d d' e h =
    let (d₁, first, rest) = passed (link_step s.id s.depends_on d) (link_steps ss) e in
    link_steps-IsPlain ss d₁ d' rest (link_step-IsPlain s.id s.depends_on d d₁ first h)

IsPlain-nil : IsPlain []
unfolding lookup
IsPlain-nil k n e = absurd (cc e)

pub build_dag-IsPlain :
    (ss : List Step) (d : Dag) → WithoutGotos ss → build_dag ss ≡ ok d → IsPlain d.nodes
unfolding validate_gotos
build_dag-IsPlain ss d w e =
    let p = build_dag-Passes ss d e in
    let ordered = record p.graph { order = p.order } in
    let same : ordered ≡ d =
      ground (arith, check_gotos_none (order_index 0 p.order []) ss ordered w, p.checked) in
    subst (λ (x : Dag). IsPlain x.nodes) same
      (link_steps-IsPlain ss _ p.graph p.built (make_nodes-IsPlain ss [] w IsPlain-nil))
