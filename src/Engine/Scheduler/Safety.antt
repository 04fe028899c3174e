-- ===== src/Engine/Scheduler/Safety.antt =====
-- internal/engine/engine_dag.go: the invariant of an execution without gotos.
use tailflow_agent.Prelude.{
  ℕ, suc, ◌+◌, ◌≤◌, ◌<◌, String, ◌≡◌, refl, inl, inr, Bool, true, false, ◌&&◌, Option, none, List,
  [], ◌∷◌, ◌++◌, arith, length, contains, count, contains_iff, count-append, length-append,
  if◌then◌else◌, ◌==◌, eq_iff, Bool-cases, eqb, leb, ap, ◌∙◌,
}
use tailflow_agent.Prelude.Dict.{Dict, is_some, lookup, insert, keys, lookup-insert, contains-keys}
use tailflow_agent.Prelude.Int.{pos, dec, inc, ge_nat}
use tailflow_agent.Engine.Dag.{DagNode, Dag, children, parents, degree}
use tailflow_agent.Engine.Dag.Counting.{
  CountLe, length_le_of_CountLe, count_eq_of_length, count_of_IsNodup, remove, count-remove,
}
use tailflow_agent.Engine.Dag.Kahn.{pending, pending_snoc, pending_nil, done_of_pending}
use tailflow_agent.Engine.Dag.Order.{
  IsGraph, HasRoots, IsOrdered, IsOrdered-snoc, node_of_parents, nodes-length, degree-in_degrees,
}
use tailflow_agent.Engine.Scheduler.{
  Sched, initial, close_or_enqueue, skip_node, goto_of, after_success, finish_node, notify_child,
  Step, accept, start, skip, work, finish, notify, Reach, begin, next,
}

-- What a node still waits for: parents that have not finished, and counts that are under way.
abbrev pub waits : Dag → Sched → String → ℕ
waits d s k = pending s.finished (parents d k) + count k s.notifying

-- 1 for a node that waits for nothing.
abbrev pub free : Dag → Sched → String → ℕ
free d s k = if is_some (lookup k d.nodes) && eqb (waits d s k) 0 then 1 else 0

pub record Inv (d : Dag) (s : Sched) : Type 0 where
  pub degrees : (k : String) → degree s.in_degree k ≡ pos (waits d s k)
  pub once :
      (k : String)
      → count k s.finished + count k s.running + count k s.held + count k s.ready ≡ free d s k
  pub counted : s.completed ≡ pos (length s.finished)
  pub closes : s.closed ≡ (if leb (length d.nodes) (length s.finished) then 1 else 0)
  pub ordered : IsOrdered (parents d) [] s.finished
  pub enqueued : (k : String) → 0 < count k s.notifying → is_some (lookup k d.nodes) ≡ true

-- The invariant while `n` is in no list: it was taken from `ready` or `running`.
pub record Taken (d : Dag) (n : String) (s : Sched) : Type 0 where
  pub degrees : (k : String) → degree s.in_degree k ≡ pos (waits d s k)
  pub once :
      (k : String)
      → count k s.finished
          + count k s.running
          + count k s.held
          + count k s.ready
          + (if n == k then 1 else 0)
        ≡ free d s k
  pub counted : s.completed ≡ pos (length s.finished)
  pub closes : s.closed ≡ (if leb (length d.nodes) (length s.finished) then 1 else 0)
  pub ordered : IsOrdered (parents d) [] s.finished
  pub enqueued : (k : String) → 0 < count k s.notifying → is_some (lookup k d.nodes) ≡ true

-- A parent of a node with nothing pending is done.
pub done_of_parent :
    (n : String) (done ps : List String)
    → pending done ps ≡ 0
    → 0 < count n ps
    → contains n done ≡ true
done_of_parent n done [] h m = absurd (omega arith)
done_of_parent n done (p ∷ ps) h m = ground (arith, done_of_parent n done ps, eq_iff p n)

module _ (d : Dag) (g : IsGraph d) (n : String) (s : Sched) (t : Taken d n s) where
  not_finished : contains n s.finished ≡ false
  not_finished = ground (arith, t.once n, contains_iff n s.finished, eq_iff n n)

  waits_nothing : pending s.finished (parents d n) ≡ 0
  waits_nothing = ground (arith, t.once n, eq_iff n n)

  abbrev finished' : List String
  finished' = s.finished ++ n ∷ []

  finished-CountLe : CountLe finished' (keys d.nodes)
  finished-CountLe k = ground (
    arith,
    t.once k,
    count-append k s.finished (n ∷ []),
    count_of_IsNodup (keys d.nodes) g.distinct k,
    contains-keys k d.nodes,
  )

  finished-length_le : suc (length s.finished) ≤ length d.nodes
  finished-length_le = omega (
    arith,
    length_le_of_CountLe finished' (keys d.nodes) finished-CountLe,
    length-append s.finished (n ∷ []),
    nodes-length d,
  )

  -- The last node to finish has no children.
  last-childless :
      length d.nodes ≤ suc (length s.finished) → (k : String) → count n (parents d k) ≡ 0
  last-childless all k = elim (Bool-cases (eqb (count n (parents d k)) 0)) [
    | inl none_there ↦ ground arith
    | inr some_there ↦
        let edge : 0 < count n (parents d k) = ground arith in
        let everywhere =
          count_eq_of_length finished' (keys d.nodes) finished-CountLe
            (omega (arith, finished-length_le, length-append s.finished (n ∷ []), nodes-length d))
            k in
        let settled : pending s.finished (parents d k) ≡ 0 = ground (
          arith,
          everywhere,
          t.once k,
          count-append k s.finished (n ∷ []),
          count_of_IsNodup (keys d.nodes) g.distinct k,
          contains-keys k d.nodes,
          node_of_parents d k n edge,
        ) in
        absurd (cc (done_of_parent n s.finished (parents d k) settled edge, not_finished))
  ]

  module _ (results : Dict String) (err : Option String) where
    abbrev counted' : Sched
    counted' = record s {
      results = results;
      first_err = err;
      completed = inc s.completed;
      finished = finished';
    }

    ordered' : IsOrdered (parents d) [] finished'
    ordered' =
        IsOrdered-snoc (parents d) [] s.finished n t.ordered
          (done_of_pending s.finished (parents d n) waits_nothing)

    once' :
        (k : String)
        → waits d s k ≡ pending finished' (parents d k) + count k s.notifying
        → count k finished' + count k s.running + count k s.held + count k s.ready ≡ (
            if is_some (lookup k d.nodes)
              && eqb (pending finished' (parents d k) + count k s.notifying) 0
            then 1
            else 0)
    once' k same = rw (← same) (omega (arith, t.once k, count-append k s.finished (n ∷ [])))

    counted-length : inc s.completed ≡ pos (length finished')
    counted-length = ap inc t.counted ∙ ap pos (omega (arith, length-append s.finished (n ∷ [])))

    same_last :
        length d.nodes ≤ suc (length s.finished)
        → (k : String) → waits d s k ≡ pending finished' (parents d k) + count k s.notifying
    same_last all k =
        omega (arith, last-childless all k, pending_snoc n s.finished (parents d k) not_finished)

    Inv-last :
        length d.nodes ≤ suc (length s.finished) → Inv d (record counted' { closed = s.closed + 1 })
    Inv-last all = record {
      degrees = λ k. t.degrees k ∙ ap pos (same_last all k);
      once = λ k. once' k (same_last all k);
      counted = counted-length;
      closes = ground (arith, t.closes, finished-length_le, length-append s.finished (n ∷ []));
      ordered = ordered';
      enqueued = t.enqueued;
    }

    same_more :
        (k : String)
        → waits d s k ≡ pending finished' (parents d k) + count k (children d n ++ s.notifying)
    same_more k = omega (
      arith,
      count-append k (children d n) s.notifying,
      g.symmetric n k,
      pending_snoc n s.finished (parents d k) not_finished,
    )

    Inv-more :
        suc (length s.finished) < length d.nodes
        → Inv d (record counted' { notifying = children d n ++ s.notifying })
    Inv-more more = record {
      degrees = λ k. t.degrees k ∙ ap pos (same_more k);
      once = λ k. rw (← same_more k) (omega (arith, t.once k, count-append k s.finished (n ∷ [])));
      counted = counted-length;
      closes = ground (arith, t.closes, length-append s.finished (n ∷ []));
      ordered = ordered';
      enqueued = λ k h. ground (
        arith,
        t.enqueued k,
        count-append k (children d n) s.notifying,
        g.symmetric n k,
        node_of_parents d k n,
      );
    }

    -- Counting the node keeps the invariant, whether it is the last or not.
    pub close_or_enqueue-Inv : Inv d (close_or_enqueue d n counted')
    unfolding close_or_enqueue
    close_or_enqueue-Inv = elim (Bool-cases (ge_nat (inc s.completed) (length d.nodes))) [
      | inl all ↦
          rw (all, close_or_enqueue)
            (Inv-last (ground (arith, counted-length, length-append s.finished (n ∷ []))))
      | inr more ↦
          rw (more, close_or_enqueue)
            (Inv-more (ground (arith, counted-length, length-append s.finished (n ∷ []))))
    ]

nodes_pos : (k : String) (nodes : Dict DagNode) → is_some (lookup k nodes) ≡ true → 0 < length nodes
unfolding lookup
nodes_pos k [] h = absurd (cc h)
nodes_pos k (x ∷ nodes) h = omega arith

-- Nodes without gotos.
abbrev pub NoGotos : Dag → Type 0
NoGotos d = (k : String) → goto_of d k ≡ none

module _ (d : Dag) (g : IsGraph d) where
  skip-Inv :
      (s : Sched) (n : String) (rest : List String)
      → s.ready ≡ n ∷ rest
      → Inv d s
      → Inv d (skip_node d n (record s { ready = rest }))
  unfolding skip_node
  skip-Inv s n rest e inv =
      close_or_enqueue-Inv d g n (record s { ready = rest })
        (record {
          degrees = inv.degrees;
          once = λ k. omega (arith, inv.once k, ap (count k) e);
          counted = inv.counted;
          closes = inv.closes;
          ordered = inv.ordered;
          enqueued = inv.enqueued;
        })
        (insert n "skipped" s.results) s.first_err

  after_success-eq :
      (n : String) (again : Bool) (s : Sched)
      → NoGotos d
      → after_success d n (goto_of d n) again s ≡ close_or_enqueue d n s
  unfolding after_success
  after_success-eq n again s plain = ap (λ o. after_success d n o again s) (plain n)

  finish-Inv :
      (s : Sched) (n : String) (err : Option String) (again : Bool)
      → NoGotos d
      → contains n s.running ≡ true
      → Inv d s
      → Inv d (finish_node d n err again s)
  unfolding finish_node
  finish-Inv s n err again plain m inv =
      let kept =
        close_or_enqueue-Inv d g n (record s { running = remove n s.running })
          (record {
            degrees = inv.degrees;
            once = λ k.
                omega
                  (arith, inv.once k, count-remove n k s.running ((contains_iff n s.running).0 m));
            counted = inv.counted;
            closes = inv.closes;
            ordered = inv.ordered;
            enqueued = inv.enqueued;
          })
          s.results (if is_some s.first_err then s.first_err else err) in
      elim (Bool-cases (is_some err)) [
        | inl failed ↦ rw (failed, finish_node) kept
        | inr good ↦ rw (good, finish_node) (rw (after_success-eq n again _ plain) kept)
      ]

  notify-Inv :
      (s : Sched) (c : String) → contains c s.notifying ≡ true → Inv d s → Inv d (notify_child c s)
  unfolding notify_child
  notify-Inv s c m inv =
      let here : 0 < count c s.notifying = (contains_iff c s.notifying).0 m in
      let lowered = dec (degree s.in_degree c) in
      let now : (k : String)
          → degree (insert c lowered s.in_degree) k
            ≡ pos (pending s.finished (parents d k) + count k (remove c s.notifying)) =
        λ k. ground (
          arith,
          lookup-insert c k lowered s.in_degree,
          inv.degrees k,
          inv.degrees c,
          count-remove c k s.notifying here,
          eq_iff c k,
        ) in
      record {
        degrees = now;
        once = λ k. ground (
          arith,
          inv.once k,
          now c,
          count-remove c k s.notifying here,
          inv.enqueued c here,
          count-append k s.ready (c ∷ []),
          eq_iff c k,
        );
        counted = inv.counted;
        closes = inv.closes;
        ordered = inv.ordered;
        enqueued = λ k h. inv.enqueued k (omega (arith, count-remove c k s.notifying here));
      }

  accept-Inv :
      (s : Sched) (n : String) (rest : List String)
      → s.ready ≡ n ∷ rest
      → s.held ≡ []
      → Inv d s
      → Inv d (record s { ready = rest; held = n ∷ [] })
  accept-Inv s n rest e idle inv = record {
    degrees = inv.degrees;
    once = λ k. omega (arith, inv.once k, ap (count k) e, ap (count k) idle);
    counted = inv.counted;
    closes = inv.closes;
    ordered = inv.ordered;
    enqueued = inv.enqueued;
  }

  start-Inv :
      (s : Sched) (n : String)
      → s.held ≡ n ∷ []
      → Inv d s
      → Inv d (record s { held = []; running = n ∷ s.running })
  start-Inv s n e inv = record {
    degrees = inv.degrees;
    once = λ k. omega (arith, inv.once k, ap (count k) e);
    counted = inv.counted;
    closes = inv.closes;
    ordered = inv.ordered;
    enqueued = inv.enqueued;
  }

  -- The invariant holds at the start.
  initial-Inv :
      (node : String) → is_some (lookup node d.nodes) ≡ true → HasRoots d → Inv d (initial d)
  unfolding initial
  initial-Inv node some_node roots = record {
    degrees =
        λ k. degree-in_degrees d g d.nodes k ∙ ap pos (omega (arith, pending_nil (parents d k)));
    once = λ k. ground (arith, roots k);
    counted = refl;
    closes = ground (arith, nodes_pos node d.nodes some_node);
    ordered = tt;
    enqueued = λ k h. absurd (omega arith);
  }

  Step-Inv : {cpus : ℕ} {s t : Sched} → NoGotos d → Step d cpus s t → Inv d s → Inv d t
  Step-Inv plain (accept n rest e idle _) inv = accept-Inv _ n rest e idle inv
  Step-Inv plain (start n e _) inv = start-Inv _ n e inv
  Step-Inv plain (skip n rest e _ _) inv = skip-Inv _ n rest e inv
  Step-Inv plain (finish n err again m) inv = finish-Inv _ n err again plain m inv
  Step-Inv plain (notify c m) inv = notify-Inv _ c m inv

  pub Reach-Inv :
      {cpus : ℕ} {s : Sched} (node : String)
      → is_some (lookup node d.nodes) ≡ true
      → HasRoots d
      → NoGotos d
      → Reach d cpus s
      → Inv d s
  Reach-Inv node some_node roots plain begin = initial-Inv node some_node roots
  Reach-Inv node some_node roots plain (next r st) =
      Step-Inv plain st (Reach-Inv node some_node roots plain r)
  Reach-Inv node some_node roots plain (work results r _) =
      let inv = Reach-Inv node some_node roots plain r in
      record {
        degrees = inv.degrees;
        once = inv.once;
        counted = inv.counted;
        closes = inv.closes;
        ordered = inv.ordered;
        enqueued = inv.enqueued;
      }
