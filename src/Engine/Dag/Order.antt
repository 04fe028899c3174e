-- ===== src/Engine/Dag/Order.antt =====
-- internal/engine/dag.go, topoSort: the loop ends, and what it returns.
use tailflow_agent.Prelude.{
  ℕ, zero, suc, ◌+◌, ◌≤◌, ◌<◌, String, ◌≡◌, refl, sym, Bool, true, false, ◌&&◌, none, some, List,
  [], ◌∷◌, ◌++◌, arith, length, contains, count, IsNodup, contains_iff, count-append, length-append,
  if◌then◌else◌, eq_iff, eqb, append_assoc, All, ap, append-nil, ◌∙◌, subst,
}
use tailflow_agent.Prelude.Dict.{Dict, is_some, lookup, keys, lookup-insert, contains-keys}
use tailflow_agent.Prelude.Int.{ℤ, pos}
use tailflow_agent.Engine.Dag.{
  DagNode, Dag, DagError, cycle, ok, err, children, parents, degree, in_degrees, relax, kahn,
  topo_sort,
}
use tailflow_agent.Engine.Dag.Counting.{
  CountLe, length_le_of_CountLe, count_eq_of_length, count_of_IsNodup,
}
use tailflow_agent.Engine.Dag.Kahn.{
  pending, pending_snoc, pending_nil, done_of_pending, newly, Relaxed, relax-Relaxed,
}

-- Children and parents list the same edges, each as often, and no id names two nodes.
pub record IsGraph (d : Dag) : Type 0 where
  pub symmetric : (p c : String) → count c (children d p) ≡ count p (parents d c)
  pub distinct : IsNodup (keys d.nodes)

-- Every id of the list stands behind those that are to come before it; they may also be among
-- `seen`.
abbrev pub IsOrdered : (String → List String) → List String → List String → Type 0
IsOrdered before seen [] = Unit
IsOrdered before seen (x ∷ xs) =
    All (λ p. contains p seen ≡ true) (before x) × IsOrdered before (seen ++ x ∷ []) xs

pub IsOrdered-snoc :
    (before : String → List String) (seen xs : List String) (x : String)
    → IsOrdered before seen xs
    → All (λ p. contains p (seen ++ xs) ≡ true) (before x)
    → IsOrdered before seen (xs ++ x ∷ [])
IsOrdered-snoc before seen [] x h last = (rw append-nil at last, tt)
IsOrdered-snoc before seen (y ∷ xs) x h last =
    (h.0, IsOrdered-snoc before (seen ++ y ∷ []) xs x h.1 (rw (append_assoc seen (y ∷ []) xs) last))

-- 1 for a node all of whose parents are done.
abbrev pub released : Dag → List String → String → ℕ
released d done k =
    if is_some (lookup k d.nodes) && eqb (pending done (parents d k)) 0 then 1 else 0

pub record Inv (d : Dag) (m : Dict ℤ) (queue done : List String) : Type 0 where
  pub degrees : (k : String) → degree m k ≡ pos (pending done (parents d k))
  pub once : (k : String) → count k (done ++ queue) ≡ released d done k
  pub ordered : IsOrdered (parents d) [] done

pub nodes-length : (d : Dag) → length (keys d.nodes) ≡ length d.nodes
nodes-length d = keys-length d.nodes
  where
    keys-length : (m : Dict DagNode) → length (keys m) ≡ length m
    keys-length [] = refl
    keys-length ((k, n) ∷ m) = ap suc (keys-length m)

-- A parent is there only for a node.
pub node_of_parents :
    (d : Dag) (k p : String) → 0 < count p (parents d k) → is_some (lookup k d.nodes) ≡ true
node_of_parents d k p h = ground arith

-- What is known of an order that the sort returns: every node stands in it once, and no other id,
-- and behind its parents.
pub record IsTopological (d : Dag) (order : List String) : Type 0 where
  pub each_once : (k : String) → count k order ≡ (if is_some (lookup k d.nodes) then 1 else 0)
  pub ordered : IsOrdered (parents d) [] order

-- The roots are the nodes without parents, each once.
abbrev pub HasRoots : Dag → Type 0
HasRoots d = (k : String) → count k d.roots ≡ released d [] k

-- Numbers that grow along every edge: the graph has no cycle.
abbrev pub IsRanked : (String → ℕ) → Dag → Type 0
IsRanked rank d = (p c : String) → 0 < count p (parents d c) → rank p < rank c

-- A node is released by its last parent.
released_step :
    (node : Bool) (n n' c : ℕ)
    → n' + c ≡ n
    → (0 < c → node ≡ true)
    → (if node && eqb n 0 then 1 else 0) + newly c n ≡ (if node && eqb n' 0 then 1 else 0)
released_step true n n' c e h = ground arith
released_step false n n' zero e h = ground arith
released_step false n n' (suc c) e h = absurd (cc (h (omega arith)))

module _ (d : Dag) (g : IsGraph d) where
  open g use {symmetric, distinct}

  Inv-CountLe :
      (m : Dict ℤ) (queue done : List String)
      → Inv d m queue done
      → CountLe (done ++ queue) (keys d.nodes)
  Inv-CountLe m queue done inv k =
      ground
        (arith, inv.once k, count_of_IsNodup (keys d.nodes) distinct k, contains-keys k d.nodes)

  pub Inv-length_le :
      (m : Dict ℤ) (queue done : List String)
      → Inv d m queue done
      → length done + length queue ≤ length d.nodes
  Inv-length_le m queue done inv = omega (
    arith,
    length_le_of_CountLe (done ++ queue) (keys d.nodes) (Inv-CountLe m queue done inv),
    length-append done queue,
    nodes-length d,
  )

  module _ (m : Dict ℤ) (x : String) (queue done : List String)
      (inv : Inv d m (x ∷ queue) done) where
    not_done : contains x done ≡ false
    not_done =
        ground (arith, inv.once x, count-append x done (x ∷ queue), contains_iff x done, eq_iff x x)

    ready : pending done (parents d x) ≡ 0
    ready = ground (arith, inv.once x, count-append x done (x ∷ queue), eq_iff x x)

    step : (k : String) → Relaxed (children d x) m queue (λ j. pending done (parents d j)) k
    step =
        relax-Relaxed (children d x) m queue (λ j. pending done (parents d j)) inv.degrees
          (λ k. omega (arith, symmetric x k, pending_snoc x done (parents d k) not_done))

    Inv-step :
        Inv d (relax (children d x) m queue).0 (relax (children d x) m queue).1 (done ++ x ∷ [])
    Inv-step = record {
      degrees = λ k.
          (step k).degrees
          ∙ ap pos (omega (arith, symmetric x k, pending_snoc x done (parents d k) not_done));
      once = λ k. omega (
        arith,
        count-append k (done ++ x ∷ []) (relax (children d x) m queue).1,
        count-append k done (x ∷ []),
        count-append k done (x ∷ queue),
        (step k).queued,
        inv.once k,
        symmetric x k,
        ap (λ c. newly c (pending done (parents d k))) (symmetric x k),
        released_step (is_some (lookup k d.nodes)) (pending done (parents d k))
            (pending (done ++ x ∷ []) (parents d k)) (count x (parents d k))
            (pending_snoc x done (parents d k) not_done) (node_of_parents d k x),
      );
      ordered =
          IsOrdered-snoc (parents d) [] done x inv.ordered
            (done_of_pending done (parents d x) ready);
    }

  -- The loop ends within its fuel, with the queue empty and the invariant kept.
  pub kahn_returns :
      (fuel : ℕ) (m : Dict ℤ) (queue done : List String)
      → Inv d m queue done
      → length d.nodes ≤ length done + fuel
      → (order : List String) × (m' : Dict ℤ) × (kahn fuel d m queue done ≡ ok order)
        × Inv d m' [] order
  unfolding kahn
  kahn_returns fuel m [] done inv h = (done, m, refl, inv)
  kahn_returns zero m (x ∷ queue) done inv h =
      absurd (omega (arith, Inv-length_le m (x ∷ queue) done inv))
  kahn_returns (suc fuel) m (x ∷ queue) done inv h =
      kahn_returns fuel (relax (children d x) m queue).0 (relax (children d x) m queue).1
        (done ++ x ∷ []) (Inv-step m x queue done inv) (omega (arith, length-append done (x ∷ [])))

  pub degree-in_degrees :
      (nodes : Dict DagNode) (k : String)
      → degree (in_degrees nodes) k
        ≡ pos (length (elim (lookup k nodes) [ none ↦ [] | some n ↦ n.parents ]))
  unfolding in_degrees lookup
  degree-in_degrees [] k = refl
  degree-in_degrees ((j, n) ∷ nodes) k = ground (
    arith,
    lookup-insert j k (pos (length n.parents)) (in_degrees nodes),
    degree-in_degrees nodes k,
  )

  Inv-start : HasRoots d → Inv d (in_degrees d.nodes) d.roots []
  Inv-start roots = record {
    degrees = λ k. degree-in_degrees d.nodes k ∙ ap pos (sym (pending_nil (parents d k)));
    once = roots;
    ordered = tt;
  }

pub pending_zero :
    (done ps : List String)
    → ((p : String) → 0 < count p ps → contains p done ≡ true)
    → pending done ps ≡ 0
pending_zero done [] h = refl
pending_zero done (p ∷ ps) h =
    let ih = pending_zero done ps (λ q lt. h q (omega arith)) in ground (arith, h p, eq_iff p p)

module _ (d : Dag) (g : IsGraph d) (m : Dict ℤ) (order : List String) (inv : Inv d m [] order) where
  once : (k : String) → count k order ≡ released d order k
  once k = rw append-nil at (inv.once k)

  -- An order as long as the node map is topological.
  IsTopological-of_length : length order ≡ length d.nodes → IsTopological d order
  IsTopological-of_length e = record {
    each_once = λ k.
        count_eq_of_length order (keys d.nodes) (rw append-nil at (Inv-CountLe d g m [] order inv))
          (omega (arith, nodes-length d)) k
        ∙ count_of_IsNodup (keys d.nodes) g.distinct k
        ∙ ap (λ b. if b then 1 else 0) (contains-keys k d.nodes);
    ordered = inv.ordered;
  }

  -- In a ranked graph every node is reached, by induction on its rank.
  reached :
      (rank : String → ℕ)
      → IsRanked rank d
      → (n : ℕ) (k : String) → rank k < n
      → is_some (lookup k d.nodes) ≡ true
      → contains k order ≡ true
  reached rank ranked zero k lt node = absurd (omega arith)
  reached rank ranked (suc n) k lt node =
      let clear = pending_zero order (parents d k) (λ p edge.
        reached rank ranked n p (omega (arith, ranked p k edge))
          (ground (arith, g.symmetric p k))) in
      (contains_iff k order).1 (ground (arith, once k))

  length_of_ranked : (rank : String → ℕ) → IsRanked rank d → length order ≡ length d.nodes
  length_of_ranked rank ranked = omega (
    arith,
    Inv-length_le d g m [] order inv,
    nodes-length d,
    length_le_of_CountLe (keys d.nodes) order (λ k. ground (
      arith,
      count_of_IsNodup (keys d.nodes) g.distinct k,
      contains-keys k d.nodes,
      reached rank ranked (suc (rank k)) k (omega arith),
      contains_iff k order,
    )),
  )

module _ (d : Dag) (g : IsGraph d) (roots : HasRoots d) where
  loop_result :
      (order : List String) × (m : Dict ℤ) × (kahn
          (length d.nodes)
          d
          (in_degrees d.nodes)
          d.roots
          []
        ≡ ok order)
      × Inv d m [] order
  loop_result =
      kahn_returns d g (length d.nodes) (in_degrees d.nodes) d.roots [] (Inv-start d g roots)
        (omega arith)

  -- The order that the sort returns is topological.
  pub topo_sort-IsTopological :
      (order : List String) → topo_sort d ≡ ok order → IsTopological d order
  unfolding topo_sort
  topo_sort-IsTopological order e =
      let (found, m, runs, inv) = loop_result in
      subst (IsTopological d) (ground (arith, runs))
        (IsTopological-of_length d g m found inv (ground (arith, runs)))

  -- A graph with a rank is sorted.
  pub topo_sort_of_ranked :
      (rank : String → ℕ) → IsRanked rank d → (order : List String) × (topo_sort d ≡ ok order)
  unfolding topo_sort
  topo_sort_of_ranked rank ranked =
      let (found, m, runs, inv) = loop_result in
      (found, ground (arith, runs, length_of_ranked d g m found inv rank ranked))

  -- The only error of the sort is the cycle.
  pub topo_sort-error : (e : DagError) → topo_sort d ≡ err e → e ≡ cycle
  unfolding topo_sort
  topo_sort-error e h = let (found, m, runs, inv) = loop_result in ground (arith, runs)
