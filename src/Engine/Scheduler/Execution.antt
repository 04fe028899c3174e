-- ===== src/Engine/Scheduler/Execution.antt =====
-- internal/engine/engine_dag.go: what an execution without gotos promises.
use tailflow_agent.Prelude.{
  ℕ, zero, suc, ◌+◌, ◌≤◌, ◌<◌, String, ◌≡◌, refl, inl, inr, true, false, none, List, [], ◌∷◌, arith,
  length, contains, count, IsNodup, contains_iff, if◌then◌else◌, eq_iff, Option-cases, All, ap, ◌∙◌,
  subst,
}
use tailflow_agent.Prelude.Dict.{is_some, lookup, keys, contains-keys}
use tailflow_agent.Parser.Schema.{Step as WorkflowStep}
use tailflow_agent.Engine.Dag.{Dag, ok, parents, build_dag}
use tailflow_agent.Engine.Dag.Counting.{
  CountLe, length_le_of_CountLe, count_eq_of_length, count_of_IsNodup,
}
use tailflow_agent.Engine.Dag.Kahn.{pending, done_of_pending}
use tailflow_agent.Engine.Dag.Order.{IsGraph, nodes-length, pending_zero}
use tailflow_agent.Engine.Dag.Link.{ids, dependencies}
use tailflow_agent.Engine.Dag.Shape.{
  build_dag-IsGraph, build_dag-HasRoots, build_dag-HasNode, build_dag-parents,
}
use tailflow_agent.Engine.Dag.Plain.{build_dag-IsPlain}
use tailflow_agent.Engine.Dag.Complete.{WithoutGotos, AllDeps, dependencies_all}
use tailflow_agent.Engine.Scheduler.{
  Sched, goto_of, finish_node, notify_child, Step, accept, start, skip, finish, notify, Reach,
}
use tailflow_agent.Engine.Scheduler.Bounds.{Reach-Bounded}
use tailflow_agent.Engine.Scheduler.Safety.{Inv, NoGotos, Reach-Inv}

-- Where the scheduler can go on.
data Place (t : Sched) : Type 0 where
  notifies : (c : String) (cs : List String) → t.notifying ≡ c ∷ cs → Place t
  runs : (n : String) (ns : List String) → t.running ≡ n ∷ ns → Place t
  holds : (n : String) → t.running ≡ [] → t.held ≡ n ∷ [] → Place t
  offers : (n : String) (rest : List String) → t.held ≡ [] → t.ready ≡ n ∷ rest → Place t
  rests : t.notifying ≡ [] → t.running ≡ [] → t.held ≡ [] → t.ready ≡ [] → Place t

where_to_go :
    (t : Sched)
    → length t.held ≤ 1
    → (notifying running held ready : List String) → t.notifying ≡ notifying
    → t.running ≡ running
    → t.held ≡ held
    → t.ready ≡ ready
    → Place t
where_to_go t h (c ∷ cs) ns hs rs e₁ e₂ e₃ e₄ = notifies c cs e₁
where_to_go t h [] (n ∷ ns) hs rs e₁ e₂ e₃ e₄ = runs n ns e₂
where_to_go t h [] [] (n ∷ []) rs e₁ e₂ e₃ e₄ = holds n e₂ e₃
where_to_go t h [] [] (n ∷ m ∷ hs) rs e₁ e₂ e₃ e₄ = absurd (omega (arith, ap length e₃))
where_to_go t h [] [] [] (n ∷ rest) e₁ e₂ e₃ e₄ = offers n rest e₃ e₄
where_to_go t h [] [] [] [] e₁ e₂ e₃ e₄ = rests e₁ e₂ e₃ e₄

module _ (s : WorkflowStep) (ss : List WorkflowStep) (d : Dag) (distinct : IsNodup (ids (s ∷ ss)))
    (plain : WithoutGotos (s ∷ ss)) (built : build_dag (s ∷ ss) ≡ ok d) where
  graph : IsGraph d
  graph = build_dag-IsGraph (s ∷ ss) d distinct built

  no_gotos : NoGotos d
  no_gotos k = elim (Option-cases (lookup k d.nodes)) [
    | inl e ↦ rw (e, goto_of)
    | inr (n, e) ↦ rw (e, goto_of) (build_dag-IsPlain (s ∷ ss) d plain built k n e)
  ]

  invariant : {cpus : ℕ} {t : Sched} → Reach d cpus t → Inv d t
  invariant r =
      Reach-Inv d graph s.id
        (build_dag-HasNode (s ∷ ss) d distinct built s.id ∙ ground (arith, eq_iff s.id s.id))
        (build_dag-HasRoots (s ∷ ss) d distinct built) no_gotos r

  once_le :
      {cpus : ℕ} {t : Sched}
      → Reach d cpus t
      → (k : String)
      → count k t.finished + count k t.running + count k t.held + count k t.ready
        ≤ (if contains k (ids (s ∷ ss)) then 1 else 0)
  once_le r k = ground (arith, (invariant r).once k, build_dag-HasNode (s ∷ ss) d distinct built k)

  finished-CountLe : {cpus : ℕ} {t : Sched} → Reach d cpus t → CountLe t.finished (keys d.nodes)
  finished-CountLe r k = ground (
    arith,
    (invariant r).once k,
    count_of_IsNodup (keys d.nodes) graph.distinct k,
    contains-keys k d.nodes,
  )

  finished_le : {cpus : ℕ} {t : Sched} → Reach d cpus t → length t.finished ≤ length d.nodes
  finished_le {t} r =
      omega
        (arith, length_le_of_CountLe t.finished (keys d.nodes) (finished-CountLe r), nodes-length d)

  -- In a workflow of at least one step, without gotos, whose ids differ and whose graph `BuildDAG`
  -- builds, at every moment of an execution, each step is at most once among the finished, the
  -- running, the held and the ready ones together, nothing else is there, and `done` has been closed
  -- at most once.
  pub runs_once :
      {cpus : ℕ} {t : Sched}
      → Reach d cpus t
      → ((k : String)
          → count k t.finished + count k t.running + count k t.held + count k t.ready
            ≤ (if contains k (ids (s ∷ ss)) then 1 else 0))
        × (t.closed ≤ 1)
  runs_once r = (once_le r, ground (arith, (invariant r).closes))

  -- In a workflow of at least one step, without gotos, whose ids differ and whose graph `BuildDAG`
  -- builds, once `done` is closed every step has finished exactly once, and nothing else has.
  pub closed-finished :
      {cpus : ℕ} {t : Sched}
      → Reach d cpus t
      → 0 < t.closed
      → (k : String) → count k t.finished ≡ (if contains k (ids (s ∷ ss)) then 1 else 0)
  closed-finished {t = t} r h k =
      let all =
        count_eq_of_length t.finished (keys d.nodes) (finished-CountLe r)
          (ground (arith, (invariant r).closes, finished_le r, nodes-length d)) k in
      ground (
        arith,
        all,
        count_of_IsNodup (keys d.nodes) graph.distinct k,
        contains-keys k d.nodes,
        build_dag-HasNode (s ∷ ss) d distinct built k,
      )

  -- In a workflow of at least one step, without gotos, whose ids differ and whose graph `BuildDAG`
  -- builds, all that a running step depends on has finished.
  pub running-dependencies :
      {cpus : ℕ} {t : Sched} (n : String)
      → Reach d cpus t
      → contains n t.running ≡ true
      → All (λ p. contains p t.finished ≡ true) (dependencies (s ∷ ss) n)
  running-dependencies {t = t} n r m =
      let settled : pending t.finished (parents d n) ≡ 0 =
        ground (arith, (invariant r).once n, contains_iff n t.running) in
      subst (All (λ p. contains p t.finished ≡ true))
        (build_dag-parents (s ∷ ss) d distinct built n)
        (done_of_pending t.finished (parents d n) settled)

  module _ (rank : String → ℕ) (ranked : AllDeps (λ p id. rank p < rank id) (s ∷ ss)) where
    -- With nothing under way every node has finished, by induction on its rank.
    all_done :
        {cpus : ℕ} {t : Sched}
        → Reach d cpus t
        → t.notifying ≡ []
        → t.running ≡ []
        → t.held ≡ []
        → t.ready ≡ []
        → (n : ℕ) (k : String) → rank k < n
        → is_some (lookup k d.nodes) ≡ true
        → contains k t.finished ≡ true
    all_done r e₁ e₂ e₃ e₄ zero k lt node = absurd (omega arith)
    all_done {t = t} r e₁ e₂ e₃ e₄ (suc n) k lt node =
        let clear = pending_zero t.finished (parents d k) (λ p edge.
          all_done r e₁ e₂ e₃ e₄ n p
            (omega (
              arith,
              dependencies_all (λ q id. rank q < rank id) (s ∷ ss) p k ranked
                  (omega (arith, ap (count p) (build_dag-parents (s ∷ ss) d distinct built k))),
            ))
            (ground (arith, graph.symmetric p k))) in
        (contains_iff k t.finished).1 (
          ground (
            arith,
            (invariant r).once k,
            ap (count k) e₁,
            ap (count k) e₂,
            ap (count k) e₃,
            ap (count k) e₄,
          ))

    -- Nothing under way means that all is done, so that `done` is closed.
    not_stuck :
        {cpus : ℕ} {t : Sched}
        → Reach d cpus t
        → t.notifying ≡ []
        → t.running ≡ []
        → t.held ≡ []
        → t.ready ≡ []
        → 0 < t.closed
    not_stuck {t = t} r e₁ e₂ e₃ e₄ = ground (
      arith,
      (invariant r).closes,
      nodes-length d,
      length_le_of_CountLe (keys d.nodes) t.finished (λ k. ground (
        arith,
        count_of_IsNodup (keys d.nodes) graph.distinct k,
        contains-keys k d.nodes,
        all_done r e₁ e₂ e₃ e₄ (suc (rank k)) k (omega arith),
        contains_iff k t.finished,
      )),
    )

    -- In a workflow of at least one step, without gotos, whose ids differ and whose graph `BuildDAG`
    -- builds, where a rank shows that the dependencies have no cycle, an execution is never stuck:
    -- with at least one slot of the semaphore, the scheduler can take a step until `done` is closed.
    pub progresses :
        {cpus : ℕ} {t : Sched}
        → 0 < cpus
        → Reach d cpus t
        → t.closed ≡ 0
        → (u : Sched) × Step d cpus t u
    progresses {t = t} some_cpu r opened =
        elim (where_to_go t ((Reach-Bounded r).0.held) t.notifying t.running t.held t.ready refl
          refl refl refl) [
            | notifies c cs e ↦
                (notify_child c t, notify c (ground (arith, ap (contains c) e, eq_iff c c)))
            | runs n ns e ↦ (
              finish_node d n none false t,
              finish n none false (ground (arith, ap (contains n) e, eq_iff n n)),
            )
            | holds n e₂ e ↦ (_, start n e (ground (arith, ap length e₂)))
            | offers n rest e₃ e ↦ elim (Option-cases t.first_err) [
              | inl good ↦ (_, accept n rest e e₃ good)
              | inr (why, failed) ↦ (_, skip n rest e e₃ (λ same. absurd (cc (same, failed))))
            ]
            | rests e₁ e₂ e₃ e₄ ↦ absurd (omega (arith, not_stuck r e₁ e₂ e₃ e₄))
          ]
