-- ===== src/Engine/Dag/Link.antt =====
-- internal/engine/dag.go, BuildDAG: the graph that the first two loops build from the steps.
use tailflow_agent.Prelude.{
  ◌+◌, String, ◌≡◌, refl, sym, inl, inr, true, List, [], ◌∷◌, ◌++◌, arith, contains, count,
  count-append, if◌then◌else◌, ◌==◌, eq_iff, Bool-cases, Option-cases, append_assoc, All, ap,
  append-nil, ◌∙◌, subst, fun_ext,
}
use tailflow_agent.Prelude.Dict.{
  is_some, lookup, keys, lookup-insert, contains-keys, keys-insert_present,
}
use tailflow_agent.Parser.Schema.{Step}
use tailflow_agent.Engine.Dag.{
  Dag, ok, passed, children, parents, append_child, append_parent, link_deps, link_step, link_steps,
}

abbrev pub ids : List Step → List String
ids [] = []
ids (s ∷ ss) = s.id ∷ ids ss

-- What the steps of an id depend on.
abbrev pub dependencies : List Step → String → List String
dependencies [] k = []
dependencies (s ∷ ss) k = (if s.id == k then s.depends_on else []) ++ dependencies ss k

-- The ids of the steps that depend on nothing.
abbrev pub entry_point : String → List String → List String
entry_point id [] = id ∷ []
entry_point id (dep ∷ deps) = []

abbrev pub entry_points : List Step → List String
entry_points [] = []
entry_points (s ∷ ss) = entry_point s.id s.depends_on ++ entry_points ss

abbrev pub HasNode : Dag → String → Type 0
HasNode d k = is_some (lookup k d.nodes) ≡ true

-- `d'` is `d` with more roots, and with more edges: for each text `p` of `more c`, one from `p`
-- to `c`.
pub record Extends (entries : List String) (more : String → List String) (d d' : Dag) : Type 0 where
  pub same_keys : keys d'.nodes ≡ keys d.nodes
  pub more_parents : (c : String) → parents d' c ≡ parents d c ++ more c
  pub more_children :
      (p c : String) → count c (children d' p) ≡ count c (children d p) + count p (more c)
  pub more_roots : d'.roots ≡ d.roots ++ entries

Extends-refl : (d : Dag) → Extends [] (λ _. []) d d
Extends-refl d = record {
  same_keys = refl;
  more_parents = λ c. sym (append-nil (parents d c));
  more_children = λ p c. omega arith;
  more_roots = sym (append-nil d.roots);
}

Extends-trans :
    {es fs : List String} {f g : String → List String} {d d' d'' : Dag}
    → Extends es f d d'
    → Extends fs g d' d''
    → Extends (es ++ fs) (λ c. f c ++ g c) d d''
Extends-trans {es} {fs} {f} {g} {d} {d'} {d''} a b = record {
  same_keys = b.same_keys ∙ a.same_keys;
  more_parents = λ c.
      b.more_parents c
      ∙ ap (λ l. l ++ g c) (a.more_parents c)
      ∙ append_assoc (parents d c) (f c) (g c);
  more_children =
      λ p c. omega (arith, b.more_children p c, a.more_children p c, count-append p (f c) (g c));
  more_roots = b.more_roots ∙ ap (λ l. l ++ fs) a.more_roots ∙ append_assoc d.roots es fs;
}

pub same_node :
    (d d' : Dag) → keys d'.nodes ≡ keys d.nodes → (k : String) → HasNode d k → HasNode d' k
same_node d d' e k h =
    sym (contains-keys k d'.nodes) ∙ ap (contains k) e ∙ contains-keys k d.nodes ∙ h

module _ (p c : String) (d : Dag) where
  keys-append_child : keys (append_child p c d).nodes ≡ keys d.nodes
  unfolding append_child
  keys-append_child = elim (Option-cases (lookup p d.nodes)) [
    | inl e ↦ rw (e, append_child)
    | inr (n, e) ↦
        rw (e, append_child)
          (keys-insert_present p (record n { children = n.children ++ c ∷ [] }) d.nodes (rw e))
  ]

  children-append_child :
      HasNode d p
      → (k : String)
      → children (append_child p c d) k ≡ children d k ++ (if p == k then c ∷ [] else [])
  unfolding append_child
  children-append_child h k = elim (Option-cases (lookup p d.nodes)) [
    | inl e ↦ cc
    | inr (n, e) ↦ ground (
      arith,
      lookup-insert p k (record n { children = n.children ++ c ∷ [] }) d.nodes,
      eq_iff p k,
      append-nil (children d k),
    )
  ]

  parents-append_child : (k : String) → parents (append_child p c d) k ≡ parents d k
  unfolding append_child
  parents-append_child k = elim (Option-cases (lookup p d.nodes)) [
    | inl e ↦ rw (e, append_child)
    | inr (n, e) ↦ ground (
      arith,
      lookup-insert p k (record n { children = n.children ++ c ∷ [] }) d.nodes,
      eq_iff p k,
    )
  ]

  keys-append_parent : keys (append_parent p c d).nodes ≡ keys d.nodes
  unfolding append_parent
  keys-append_parent = elim (Option-cases (lookup c d.nodes)) [
    | inl e ↦ rw (e, append_parent)
    | inr (n, e) ↦
        rw (e, append_parent)
          (keys-insert_present c (record n { parents = n.parents ++ p ∷ [] }) d.nodes (rw e))
  ]

  parents-append_parent :
      HasNode d c
      → (k : String)
      → parents (append_parent p c d) k ≡ parents d k ++ (if c == k then p ∷ [] else [])
  unfolding append_parent
  parents-append_parent h k = elim (Option-cases (lookup c d.nodes)) [
    | inl e ↦ cc
    | inr (n, e) ↦ ground (
      arith,
      lookup-insert c k (record n { parents = n.parents ++ p ∷ [] }) d.nodes,
      eq_iff c k,
      append-nil (parents d k),
    )
  ]

  children-append_parent : (k : String) → children (append_parent p c d) k ≡ children d k
  unfolding append_parent
  children-append_parent k = elim (Option-cases (lookup c d.nodes)) [
    | inl e ↦ rw (e, append_parent)
    | inr (n, e) ↦
        ground (
          arith,
          lookup-insert c k (record n { parents = n.parents ++ p ∷ [] }) d.nodes,
          eq_iff c k,
        )
  ]

edge_count :
    (p c q k : String) (xs : List String)
    → count k (xs ++ (if p == q then c ∷ [] else []))
      ≡ count k xs + count q (if c == k then p ∷ [] else [])
edge_count p c q k xs =
    count-append k xs (if p == q then c ∷ [] else []) ∙ ground (arith, eq_iff p q, eq_iff c k)

module _ (p c : String) (d : Dag) where
  -- One edge, as the body of the loop over `DependsOn` adds it.
  abbrev pub linked : Dag
  linked = append_parent p c (append_child p c d)

  abbrev pub edge : String → List String
  edge k = if c == k then p ∷ [] else []

  roots_linked : linked.roots ≡ d.roots
  unfolding append_child append_parent
  roots_linked = ground arith

  pub linked-Extends : HasNode d p → HasNode d c → Extends [] edge d linked
  linked-Extends hp hc =
      let d' = append_child p c d in
      let hc' = same_node d d' (keys-append_child p c d) c hc in
      record {
        same_keys = keys-append_parent p c d' ∙ keys-append_child p c d;
        more_parents = λ k.
            parents-append_parent p c d' hc' k
            ∙ ap (λ l. l ++ edge k) (parents-append_child p c d k);
        more_children = λ q k.
            ap (count k) (children-append_parent p c d' q ∙ children-append_child p c d hp q)
            ∙ edge_count p c q k (children d q);
        more_roots = roots_linked ∙ sym (append-nil d.roots);
      }

pub linked-HasNode : (p c : String) (d : Dag) → HasNode d p → HasNode d c → HasNode (linked p c d) c
linked-HasNode p c d hp hc = same_node d (linked p c d) (linked-Extends p c d hp hc).same_keys c hc

link_deps-Extends :
    (id : String) (deps : List String) (d d' : Dag)
    → HasNode d id
    → link_deps id deps d ≡ ok d'
    → Extends [] (λ k. if id == k then deps else []) d d'
unfolding link_deps
link_deps-Extends id [] d d' h e =
    subst (Extends [] (λ k. if id == k then [] else []) d) (ground arith)
      (subst (λ f. Extends [] f d d) (fun_ext (λ k. ground arith)) (Extends-refl d))
link_deps-Extends id (dep ∷ deps) d d' h e = elim (Bool-cases (is_some (lookup dep d.nodes))) [
  | inl hp ↦
      subst (λ f. Extends [] f d d') (fun_ext (λ k. ground (arith, eq_iff id k)))
        (Extends-trans (linked-Extends dep id d hp h) (
          link_deps-Extends id deps (linked dep id d) d' (linked-HasNode dep id d hp h)
            (rw (hp, link_deps) at e)))
  | inr missing ↦ cc (rw (missing, link_deps) at e)
]

pub link_step-Extends :
    (id : String) (deps : List String) (d d' : Dag)
    → HasNode d id
    → link_step id deps d ≡ ok d'
    → Extends (entry_point id deps) (λ k. if id == k then deps else []) d d'
unfolding link_step
link_step-Extends id [] d d' h e =
    let same : record d { roots = d.roots ++ id ∷ [] } ≡ d' = ground arith in
    subst (Extends (id ∷ []) (λ k. if id == k then [] else []) d) same (record {
      same_keys = refl;
      more_parents = λ c. ground (arith, append-nil (parents d c));
      more_children = λ p c. ground arith;
      more_roots = refl;
    })
link_step-Extends id (dep ∷ deps) d d' h e = link_deps-Extends id (dep ∷ deps) d d' h e

pub link_steps-Extends :
    (ss : List Step) (d d' : Dag)
    → ((k : String) → contains k (ids ss) ≡ true → HasNode d k)
    → link_steps ss d ≡ ok d'
    → Extends (entry_points ss) (dependencies ss) d d'
unfolding link_steps
link_steps-Extends [] d d' h e = subst (Extends [] (λ _. []) d) (ground arith) (Extends-refl d)
link_steps-Extends (s ∷ ss) d d' h e =
    let (d₁, first, rest) = passed (link_step s.id s.depends_on d) (link_steps ss) e in
    let now =
      link_step-Extends s.id s.depends_on d d₁ (h s.id (ground (arith, eq_iff s.id s.id))) first in
    Extends-trans now (
      link_steps-Extends ss d₁ d'
        (λ k m. same_node d d₁ now.same_keys k (h k (ground (arith, eq_iff s.id k)))) rest)

pub All-ids :
    (P : String → Type 0) (ss : List Step)
    → ((k : String) → contains k (ids ss) ≡ true → P k)
    → All (λ s. P s.id) ss
All-ids P [] h = tt
All-ids P (s ∷ ss) h = (
  h s.id (ground (arith, eq_iff s.id s.id)),
  All-ids P ss (λ k m. h k (ground (arith, eq_iff s.id k))),
)
