-- ===== src/Engine/Dag/Gotos.antt =====
-- internal/engine/dag.go, validateGotos: a goto jumps back in the order.
use tailflow_agent.Prelude.{
  ℕ, suc, ◌≤◌, ◌<◌, String, ◌≡◌, refl, sym, ◌⊎◌, inl, inr, true, false, Option, none, some, List,
  [], ◌∷◌, arith, contains, count, IsNodup, contains_iff, eq_iff, Bool-cases, Option-cases, All, ap,
  ◌∙◌, subst,
}
use tailflow_agent.Prelude.Dict.{Dict, is_some, get_or, lookup, insert, lookup-insert}
use tailflow_agent.Parser.Schema.{Step, GotoConfig}
use tailflow_agent.Engine.Dag.{
  passed, Dag, ok, order_index, set_max_iterations, check_gotos, check_goto, validate_gotos,
  build_dag, default_max,
}
use tailflow_agent.Engine.Dag.Link.{ids, All-ids, HasNode}
use tailflow_agent.Engine.Dag.Build.{
  check_gotos-order, build_dag-IsExecutionOrder, build_dag-Passes, HasNode-linked,
}

-- `t` stands in the list with `k` behind it.
abbrev pub Before : String → String → List String → Type 0
Before t k [] = ⊥
Before t k (x ∷ xs) = (x ≡ t) × (contains k xs ≡ true) ⊎ Before t k xs

abbrev position : ℕ → List String → Dict ℕ → String → ℕ
position i xs m k = get_or (lookup k (order_index i xs m)) 0

order_index_absent :
    (i : ℕ) (xs : List String) (m : Dict ℕ) (k : String)
    → contains k xs ≡ false
    → lookup k (order_index i xs m) ≡ lookup k m
unfolding order_index
order_index_absent i [] m k h = refl
order_index_absent i (x ∷ xs) m k h =
    ground (arith, order_index_absent (suc i) xs (insert x i m) k, lookup-insert x k i m)

position-ge :
    (i : ℕ) (xs : List String) (m : Dict ℕ) (k : String)
    → contains k xs ≡ true
    → i ≤ position i xs m k
unfolding order_index
position-ge i [] m k h = cc
position-ge i (x ∷ xs) m k h = elim (Bool-cases (contains k xs)) [
  | inl later ↦ omega (arith, position-ge (suc i) xs (insert x i m) k later)
  | inr last ↦
      ground (arith, order_index_absent (suc i) xs (insert x i m) k last, lookup-insert x k i m)
]

-- A smaller index in the order's index map is an earlier place.
Before-of_position :
    (i : ℕ) (xs : List String) (m : Dict ℕ) (t k : String)
    → contains t xs ≡ true
    → contains k xs ≡ true
    → position i xs m t < position i xs m k
    → Before t k xs
unfolding order_index
Before-of_position i [] m t k ht hk lt = cc
Before-of_position i (x ∷ xs) m t k ht hk lt = elim (Bool-cases (contains k xs)) [
  | inl later ↦ elim (Bool-cases (contains t xs)) [
    | inl later_t ↦ inr (Before-of_position (suc i) xs (insert x i m) t k later_t later lt)
    | inr here ↦ inl (ground (arith, eq_iff x t), later)
  ]
  | inr last ↦ absurd (
      ground (
        arith,
        eq_iff x t,
        eq_iff x k,
        order_index_absent (suc i) xs (insert x i m) k last,
        lookup-insert x k i m,
        position-ge (suc i) xs (insert x i m) t,
        order_index_absent (suc i) xs (insert x i m) t,
        lookup-insert x t i m,
      ))
]

-- What the check of one step gives.
abbrev pub JumpsBack : List String → Option GotoConfig → String → Type 0
JumpsBack order none id = Unit
JumpsBack order (some g) id = Before g.target id order

HasNode-set_max :
    (id : String) (d : Dag) (k : String)
    → is_some (lookup k (set_max_iterations id d).nodes) ≡ is_some (lookup k d.nodes)
unfolding set_max_iterations
HasNode-set_max id d k = elim (Option-cases (lookup id d.nodes)) [
  | inl e ↦ rw (e, set_max_iterations)
  | inr (n, e) ↦
      ground
        (arith, lookup-insert id k (record n { step = default_max n.step }) d.nodes, eq_iff id k)
]

HasNode-check_goto :
    (index : Dict ℕ) (s : Step) (g : Option GotoConfig) (d d' : Dag)
    → check_goto index s g d ≡ ok d'
    → (k : String) → is_some (lookup k d'.nodes) ≡ is_some (lookup k d.nodes)
unfolding check_goto
HasNode-check_goto index s none d d' e k = ground arith
HasNode-check_goto index s (some g) d d' e k = ground (arith, HasNode-set_max s.id d k)

module _ (order : List String) where
  abbrev index : Dict ℕ
  index = order_index 0 order []

  check_goto-JumpsBack :
      (s : Step) (g : Option GotoConfig) (d d' : Dag)
      → ((k : String) → HasNode d k → contains k order ≡ true)
      → contains s.id order ≡ true
      → check_goto index s g d ≡ ok d'
      → JumpsBack order g s.id
  unfolding check_goto
  check_goto-JumpsBack s none d d' listed own e = tt
  check_goto-JumpsBack s (some g) d d' listed own e =
      Before-of_position 0 order [] g.target s.id (ground (arith, listed g.target)) own
        (ground arith)

  check_gotos-JumpsBack :
      (ss : List Step) (d d' : Dag)
      → ((k : String) → HasNode d k → contains k order ≡ true)
      → All (λ s. contains s.id order ≡ true) ss
      → check_gotos index ss d ≡ ok d'
      → All (λ s. JumpsBack order s.goto s.id) ss
  unfolding check_gotos
  check_gotos-JumpsBack [] d d' listed own e = tt
  check_gotos-JumpsBack (s ∷ ss) d d' listed own e =
      let (d₁, first, rest) = passed (check_goto index s s.goto d) (check_gotos index ss) e in
      (
        check_goto-JumpsBack s s.goto d d₁ listed own.0 first,
        check_gotos-JumpsBack ss d₁ d'
            (λ k h. listed k (sym (HasNode-check_goto index s s.goto d d₁ first k) ∙ h)) own.1 rest,
      )

-- If the ids are distinct and `BuildDAG` succeeds, the target of every goto stands before the step
-- of the goto in the order.
pub build_dag-JumpsBack :
    (ss : List Step) (d : Dag)
    → IsNodup (ids ss)
    → build_dag ss ≡ ok d
    → All (λ s. JumpsBack d.order s.goto s.id) ss
unfolding validate_gotos
build_dag-JumpsBack ss d h e =
    let p = build_dag-Passes ss d e in
    let same =
      check_gotos-order (order_index 0 p.order []) ss (record p.graph { order = p.order }) d
        p.checked in
    let listed : (k : String) → contains k (ids ss) ≡ true → contains k p.order ≡ true = λ k m.
      (contains_iff k p.order).1
        (ground (arith, (build_dag-IsExecutionOrder ss d h e).each_once k, ap (count k) same)) in
    subst (λ order. All (λ s. JumpsBack order s.goto s.id) ss) (sym same)
      (check_gotos-JumpsBack p.order ss (record p.graph { order = p.order }) d
        (λ k m. listed k (sym (HasNode-linked ss h p.graph p.built k) ∙ m))
        (All-ids (λ k. contains k p.order ≡ true) ss listed) p.checked)
