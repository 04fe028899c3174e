-- ===== src/Engine/Scheduler/Bounds.antt =====
-- internal/engine/engine_dag.go and goto.go: what holds of every execution, with gotos or without.
use tailflow_agent.Prelude.{
  ℕ, suc, ◌≤◌, String, ◌≡◌, inl, inr, Bool, not, ◌||◌, Option, none, some, List, [], ◌∷◌, ◌++◌, ◌+◌,
  ◌&&◌, ◌==◌, ltb, arith, length, if◌then◌else◌, eq_iff, Bool-cases, ap,
}
use tailflow_agent.Prelude.Dict.{get_or, lookup, insert, is_some, lookup-insert}
use tailflow_agent.Prelude.Int.{inc, ge_nat, le_nat}
use tailflow_agent.Parser.Schema.{GotoConfig}
use tailflow_agent.Engine.Dag.{Dag}
use tailflow_agent.Engine.Dag.Counting.{remove}
use tailflow_agent.Engine.Scheduler.{
  Sched, close_or_enqueue, skip_node, jump, iterations, loop_body, after_success, goto_of,
  finish_node, notify_child, Step, accept, start, skip, finish, notify, Reach, begin, next, work,
}
use tailflow_agent.Engine.Scheduler.Iterations.{
  Bounded, limit, Keeps-close, Keeps-reset, held_iterations,
}

-- A step in which node `k` finishes and puts nodes in the queue, which only the jump of a goto does: all
-- other nodes come into the queue by the notification of a child.
abbrev pub jumped : {d : Dag} {cpus : ℕ} {s t : Sched} → String → Step d cpus s t → ℕ
jumped k (accept n rest e idle good) = 0
jumped k (start n e free) = 0
jumped k (skip n rest e idle failed) = 0
jumped {d} {s = s} k (finish n err again m) =
    if n == k && ltb (length s.ready) (length (finish_node d n err again s).ready) then 1 else 0
jumped k (notify c m) = 0

-- How often node `k` has jumped in an execution.
abbrev pub jumps : {d : Dag} {cpus : ℕ} {t : Sched} → String → Reach d cpus t → ℕ
jumps k begin = 0
jumps k (next r st) = jumps k r + jumped k st
jumps k (work results r m) = jumps k r

-- What a step adds to the jumps, it adds to the iterations.
abbrev Counts : String → String → Sched → Sched → Type 0
Counts k n s t =
    (if n == k && ltb (length s.ready) (length t.ready) then 1 else 0) + iterations s k
    ≤ iterations t k

Counts-close : (d : Dag) (k n m : String) (s : Sched) → Counts k n s (close_or_enqueue d m s)
unfolding close_or_enqueue
Counts-close d k n m s = elim (Bool-cases (ge_nat s.completed (length d.nodes))) [
  | inl all ↦ rw (all, close_or_enqueue) (ground arith)
  | inr more ↦ rw (more, close_or_enqueue) (ground arith)
]

Counts-jump :
    (d : Dag) (k n : String) (body : List String) (s : Sched)
    → Counts k n s (jump d n (iterations s n) body s)
unfolding jump
Counts-jump d k n body s =
    let kept =
      Keeps-reset d body body
        (record s { goto_iterations = insert n (suc (iterations s n)) s.goto_iterations }) in
    rw kept.iterations (elim (Bool-cases (n == k)) [
      | inl same ↦
          rw ((eq_iff n k).0 same)
            (ground (arith, lookup-insert k k (suc (iterations s k)) s.goto_iterations, eq_iff k k))
      | inr other ↦
          ground (arith, other, lookup-insert n k (suc (iterations s n)) s.goto_iterations)
    ])

after_success-Counts :
    (d : Dag) (k n : String) (o : Option GotoConfig) (again : Bool) (s : Sched)
    → Counts k n s (after_success d n o again s)
unfolding after_success
after_success-Counts d k n none again s = Counts-close d k n n s
after_success-Counts d k n (some g) again s =
    elim (Bool-cases (not again || le_nat g.max_iterations (iterations s n))) [
      | inl over ↦ rw (over, after_success) (Counts-close d k n n s)
      | inr more ↦ rw (more, after_success) (Counts-jump d k n (loop_body d g n) s)
    ]

finish-Counts :
    (d : Dag) (k n : String) (err : Option String) (again : Bool) (s : Sched)
    → Counts k n s (finish_node d n err again s)
unfolding finish_node
finish-Counts d k n err again s =
    let counted = record s {
      running = remove n s.running;
      completed = inc s.completed;
      finished = s.finished ++ n ∷ [];
      first_err = if is_some s.first_err then s.first_err else err;
    } in
    elim (Bool-cases (is_some err)) [
      | inl bad ↦ rw (bad, finish_node) (Counts-close d k n n counted)
      | inr good ↦ rw (good, finish_node) (after_success-Counts d k n (goto_of d n) again counted)
    ]

skip-iterations :
    (d : Dag) (k n : String) (s : Sched) → iterations (skip_node d n s) k ≡ iterations s k
unfolding skip_node
skip-iterations d k n s = ap (λ m. get_or (lookup k m) 0) (Keeps-close d n _).iterations

Step-Counts :
    {d : Dag} {cpus : ℕ} {s t : Sched} (k : String) (st : Step d cpus s t)
    → jumped k st + iterations s k ≤ iterations t k
unfolding notify_child
Step-Counts k (accept n rest e idle good) = omega arith
Step-Counts k (start n e free) = omega arith
Step-Counts {d} {s = s} k (skip n rest e idle failed) =
    omega (arith, skip-iterations d k n (record s { ready = rest }))
Step-Counts {d} {s = s} k (finish n err again m) = finish-Counts d k n err again s
Step-Counts k (notify c m) = omega arith

jumps_le_iterations :
    {d : Dag} {cpus : ℕ} {t : Sched} (k : String) (r : Reach d cpus t) → jumps k r ≤ iterations t k
jumps_le_iterations k begin = omega arith
jumps_le_iterations k (next r st) = omega (arith, jumps_le_iterations k r, Step-Counts k st)
jumps_le_iterations k (work results r m) = jumps_le_iterations k r

-- In every execution of any graph, the dispatcher holds at most one node, and no node has jumped, that
-- is, has finished and put nodes in the queue again, more often than the `max_iterations` of its goto
-- allows: not at all where that is negative or where the step has no goto. The number of iterations that
-- is stored for the node is at least the number of its jumps and has the same bound.
pub Reach-Bounded :
    {d : Dag} {cpus : ℕ} {t : Sched} (r : Reach d cpus t)
    → (Bounded d t)
      × ((n : String) → jumps n r ≤ iterations t n)
      × ((n : String) → jumps n r ≤ limit (goto_of d n))
Reach-Bounded r =
    let b = held_iterations r in
    (b, λ n. jumps_le_iterations n r, λ n. omega (arith, jumps_le_iterations n r, b.jumps n))
