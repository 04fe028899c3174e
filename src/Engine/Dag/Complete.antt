-- ===== src/Engine/Dag/Complete.antt =====
-- internal/engine/dag.go, BuildDAG: a workflow whose dependencies are known and free of cycles is
-- accepted.
use tailflow_agent.Prelude.{
  ℕ, ◌<◌, String, ◌≡◌, refl, inl, inr, true, false, none, List, [], ◌∷◌, ◌++◌, arith, length,
  contains, count, IsNodup, eqb, ltb, count-append, if◌then◌else◌, ◌==◌, eq_iff, Bool-cases, All,
  All-map, All-zip, ap, ◌∙◌, subst,
}
use tailflow_agent.Prelude.Dict.{Dict}
use tailflow_agent.Parser.Schema.{Step}
use tailflow_agent.Engine.Dag.{
  Dag, ok, ◌>>=◌, parents, link_deps, link_step, link_steps, check_gotos, check_goto,
  validate_gotos, finish_dag, build_dag, order_index,
}
use tailflow_agent.Engine.Dag.Kahn.{pending}
use tailflow_agent.Engine.Dag.Order.{
  IsTopological, topo_sort-IsTopological, topo_sort_of_ranked, HasRoots,
}
use tailflow_agent.Engine.Dag.Link.{
  ids, All-ids, dependencies, HasNode, same_node, linked, linked-Extends, link_step-Extends,
}
use tailflow_agent.Engine.Dag.Build.{
  unlinked, HasNode-unlinked, parents_lem, IsGraph-linked, HasNode-linked, HasRoots-linked,
}

-- Every dependency satisfies `P`, given with the id of the step that has it.
abbrev pub AllDeps : (String → String → Type 0) → List Step → Type 0
AllDeps P ss = All (λ s. All (λ p. P p s.id) s.depends_on) ss

link_deps_returns :
    (id : String) (deps : List String) (d : Dag)
    → HasNode d id
    → All (HasNode d) deps
    → (d' : Dag) × (link_deps id deps d ≡ ok d')
unfolding link_deps
link_deps_returns id [] d h hs = (d, refl)
link_deps_returns id (dep ∷ deps) d h hs =
    let d₁ = linked dep id d in
    let keep = same_node d d₁ (linked-Extends dep id d hs.0 h).same_keys in
    let (d', e) = link_deps_returns id deps d₁ (keep id h) (All-map deps keep hs.1) in
    (d', rw hs.0 e)

link_step_returns :
    (id : String) (deps : List String) (d : Dag)
    → HasNode d id
    → All (HasNode d) deps
    → (d' : Dag) × (link_step id deps d ≡ ok d')
unfolding link_step
link_step_returns id [] d h hs = (_, refl)
link_step_returns id (dep ∷ deps) d h hs = link_deps_returns id (dep ∷ deps) d h hs

link_steps_returns :
    (ss : List Step) (d : Dag)
    → All (λ s. HasNode d s.id × All (HasNode d) s.depends_on) ss
    → (d' : Dag) × (link_steps ss d ≡ ok d')
unfolding link_steps
link_steps_returns [] d h = (d, refl)
link_steps_returns (s ∷ ss) d h =
    let (d₁, first) = link_step_returns s.id s.depends_on d h.0.0 h.0.1 in
    let keep = same_node d d₁ (link_step-Extends s.id s.depends_on d d₁ h.0.0 first).same_keys in
    let (d', rest) =
      link_steps_returns ss d₁
        (All-map ss (λ s' q. (keep s'.id q.0, All-map s'.depends_on keep q.1)) h.1) in
    (d', rw first rest)

All-count : (P : String → Type 0) (ps : List String) (p : String) → All P ps → 0 < count p ps → P p
All-count P [] p h m = absurd (omega arith)
All-count P (q ∷ ps) p h m = elim (Bool-cases (q == p)) [
  | inl here ↦ subst P ((eq_iff q p).0 here) h.0
  | inr other ↦ All-count P ps p h.1 (ground arith)
]

-- A property of all dependencies, read off the list of one id's dependencies.
pub dependencies_all :
    (P : String → String → Type 0) (ss : List Step) (p k : String)
    → AllDeps P ss
    → 0 < count p (dependencies ss k)
    → P p k
dependencies_all P [] p k h m = absurd (omega arith)
dependencies_all P (s ∷ ss) p k h m = elim (Bool-cases (s.id == k)) [
  | inr other ↦ dependencies_all P ss p k h.1 (rw other at m)
  | inl here ↦
      let whole : 0 < count p (s.depends_on ++ dependencies ss k) = rw here at m in
      elim (Bool-cases (ltb 0 (count p s.depends_on))) [
        | inl own ↦
            subst (P p) ((eq_iff s.id k).0 here)
              (All-count (λ q. P q s.id) s.depends_on p h.0 (ground arith))
        | inr later ↦
            dependencies_all P ss p k h.1
              (ground (arith, count-append p s.depends_on (dependencies ss k)))
      ]
]

abbrev pub WithoutGotos : List Step → Type 0
WithoutGotos = All (λ s. s.goto ≡ none)

pub check_gotos_none :
    (index : Dict ℕ) (ss : List Step) (d : Dag) → WithoutGotos ss → check_gotos index ss d ≡ ok d
unfolding check_gotos check_goto
check_gotos_none index [] d h = refl
check_gotos_none index (s ∷ ss) d h =
    ap (λ g. check_goto index s g d >>= check_gotos index ss) h.0 ∙ check_gotos_none index ss d h.1

no_parents : (ps : List String) → All (λ p. contains p [] ≡ true) ps → ps ≡ []
no_parents [] h = refl
no_parents (p ∷ ps) h = absurd (cc h.0)

length_of_count : (k : String) (xs : List String) → 0 < count k xs → eqb (length xs) 0 ≡ false
length_of_count k [] h = absurd (omega arith)
length_of_count k (x ∷ xs) h = ground arith

-- The first of an order depends on nothing, so a graph with nodes has a root.
roots_ne_nil :
    (d : Dag) (order : List String)
    → HasRoots d
    → IsTopological d order
    → (k : String) → HasNode d k
    → eqb (length d.roots) 0 ≡ false
roots_ne_nil d [] roots topo k h = cc (topo.each_once k ∙ ap (λ b. if b then 1 else 0) h)
roots_ne_nil d (x ∷ xs) roots topo k h = length_of_count x d.roots (
    ground (
      arith,
      topo.each_once x,
      roots x,
      eq_iff x x,
      ap (pending []) (no_parents (parents d x) topo.ordered.0),
    ))

-- The nodes that the links of the steps need.
both :
    (all : List Step)
    → IsNodup (ids all)
    → AllDeps (λ p id. contains p (ids all) ≡ true) all
    → All (λ s. HasNode (unlinked all) s.id × All (HasNode (unlinked all)) s.depends_on) all
both all distinct known =
    All-zip (λ s. HasNode (unlinked all) s.id) (λ s. All (HasNode (unlinked all)) s.depends_on) all
      (All-ids (HasNode (unlinked all)) all (λ k m. HasNode-unlinked all k ∙ m))
      (All-map all (λ s. All-map s.depends_on (λ p m. HasNode-unlinked all p ∙ m)) known)

-- If the ids are distinct, every dependency is a step, some numbering of the ids grows along every
-- dependency (so there is no cycle) and no step has a goto, `BuildDAG` succeeds.
pub build_dag_of_ranked :
    (s : Step) (ss : List Step) (rank : String → ℕ)
    → IsNodup (ids (s ∷ ss))
    → AllDeps (λ p id. contains p (ids (s ∷ ss)) ≡ true) (s ∷ ss)
    → AllDeps (λ p id. rank p < rank id) (s ∷ ss)
    → WithoutGotos (s ∷ ss)
    → (d : Dag) × (build_dag (s ∷ ss) ≡ ok d)
unfolding build_dag finish_dag validate_gotos
build_dag_of_ranked s ss rank distinct known ranked plain =
    let all = s ∷ ss in
    let (g, built) = link_steps_returns all (unlinked all) (both all distinct known) in
    let graph = IsGraph-linked all distinct g built in
    let roots = HasRoots-linked all distinct g built in
    let nodes = HasNode-linked all distinct g built in
    let (order, sorted) = topo_sort_of_ranked g graph roots rank (λ p c m.
      dependencies_all (λ q id. rank q < rank id) all p c ranked
        (omega (arith, ap (count p) (parents_lem all distinct g built c)))) in
    let some_root =
      roots_ne_nil g order roots (topo_sort-IsTopological g graph roots order sorted) s.id
        (nodes s.id ∙ ground (arith, eq_iff s.id s.id)) in
    (
      record g { order = order },
      rw (built, some_root, sorted) (check_gotos_none (order_index 0 order []) all _ plain),
    )
