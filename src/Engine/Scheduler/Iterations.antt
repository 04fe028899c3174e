-- ===== src/Engine/Scheduler/Iterations.antt =====
-- internal/engine/engine_dag.go and goto.go: the stored numbers of iterations.
use tailflow_agent.Prelude.{
  ℕ, suc, ◌≤◌, String, ◌≡◌, refl, inl, inr, Bool, false, not, ◌||◌, Option, none, some, List, [],
  ◌∷◌, ◌++◌, arith, length, if◌then◌else◌, eq_iff, Bool-cases, ap,
}
use tailflow_agent.Prelude.Dict.{lookup, insert, is_some, lookup-insert}
use tailflow_agent.Prelude.Int.{pos, negsuc, inc, ge_nat, le_nat}
use tailflow_agent.Parser.Schema.{GotoConfig}
use tailflow_agent.Engine.Dag.{Dag}
use tailflow_agent.Engine.Dag.Counting.{remove}
use tailflow_agent.Engine.Scheduler.{
  Sched, initial, close_or_enqueue, skip_node, reset_body, jump, iterations, loop_body,
  after_success, goto_of, finish_node, notify_child, Step, accept, start, skip, finish, notify,
  Reach, begin, next, work,
}

-- How often a goto may jump.
abbrev pub limit : Option GotoConfig → ℕ
limit none = 0
limit (some g) = elim g.max_iterations [ pos m ↦ m | negsuc m ↦ 0 ]

-- What only a jump changes: the numbers of the iterations, and never the held node.
pub record Keeps (s t : Sched) : Type 0 where
  pub held : t.held ≡ s.held
  pub iterations : t.goto_iterations ≡ s.goto_iterations

pub Keeps-close : (d : Dag) (n : String) (s : Sched) → Keeps s (close_or_enqueue d n s)
unfolding close_or_enqueue
Keeps-close d n s = elim (Bool-cases (ge_nat s.completed (length d.nodes))) [
  | inl all ↦ rw (all, close_or_enqueue) (record { held = refl; iterations = refl })
  | inr more ↦ rw (more, close_or_enqueue) (record { held = refl; iterations = refl })
]

pub Keeps-reset : (d : Dag) (body xs : List String) (s : Sched) → Keeps s (reset_body d body xs s)
unfolding reset_body
Keeps-reset d body [] s = record { held = refl; iterations = refl }
Keeps-reset d body (id ∷ ids) s =
    let rest = Keeps-reset d body ids _ in record { held = rest.held; iterations = rest.iterations }

-- The two numbers stay in order.
pub record Bounded (d : Dag) (s : Sched) : Type 0 where
  pub held : length s.held ≤ 1
  pub jumps : (n : String) → iterations s n ≤ limit (goto_of d n)

Bounded-Keeps : (d : Dag) (s t : Sched) → Keeps s t → Bounded d s → Bounded d t
Bounded-Keeps d s t k b = record {
  held = omega (arith, b.held, ap length k.held);
  jumps = λ n. rw k.iterations (b.jumps n);
}

Bounded-jump :
    (d : Dag) (n : String) (g : GotoConfig) (body : List String) (s : Sched)
    → goto_of d n ≡ some g
    → le_nat g.max_iterations (iterations s n) ≡ false
    → Bounded d s
    → Bounded d (jump d n (iterations s n) body s)
unfolding jump
Bounded-jump d n g body s here more b =
    let kept =
      Keeps-reset d body body
        (record s { goto_iterations = insert n (suc (iterations s n)) s.goto_iterations }) in
    let below : suc (iterations s n) ≤ limit (goto_of d n) = rw here (ground arith) in
    record {
      held = omega (arith, b.held, ap length kept.held);
      jumps = λ k. rw kept.iterations (
          ground (
            arith,
            lookup-insert n k (suc (iterations s n)) s.goto_iterations,
            b.jumps k,
            below,
            eq_iff n k,
          ));
    }

after_success-Bounded :
    (d : Dag) (n : String) (o : Option GotoConfig) (again : Bool) (s : Sched)
    → goto_of d n ≡ o
    → Bounded d s
    → Bounded d (after_success d n o again s)
unfolding after_success
after_success-Bounded d n none again s e b = Bounded-Keeps d s _ (Keeps-close d n s) b
after_success-Bounded d n (some g) again s e b =
    elim (Bool-cases (not again || le_nat g.max_iterations (iterations s n))) [
      | inl over ↦ rw (over, after_success) (Bounded-Keeps d s _ (Keeps-close d n s) b)
      | inr more ↦
          rw (more, after_success)
            (Bounded-jump d n g (loop_body d g n) s e (ground (arith, more)) b)
    ]

close-Bounded :
    (d : Dag) (n : String) (s : Sched) → Bounded d s → Bounded d (close_or_enqueue d n s)
close-Bounded d n s = Bounded-Keeps d s (close_or_enqueue d n s) (Keeps-close d n s)

finish-Bounded :
    (d : Dag) (n : String) (err : Option String) (again : Bool) (s : Sched)
    → Bounded d s
    → Bounded d (finish_node d n err again s)
unfolding finish_node
finish-Bounded d n err again s b =
    let counted = record s {
      running = remove n s.running;
      completed = inc s.completed;
      finished = s.finished ++ n ∷ [];
      first_err = if is_some s.first_err then s.first_err else err;
    } in
    let kept : Bounded d counted = record { held = b.held; jumps = b.jumps } in
    elim (Bool-cases (is_some err)) [
      | inl bad ↦ rw (bad, finish_node) (close-Bounded d n counted kept)
      | inr good ↦
          rw (good, finish_node) (after_success-Bounded d n (goto_of d n) again counted refl kept)
    ]

skip-Bounded : (d : Dag) (n : String) (s : Sched) → Bounded d s → Bounded d (skip_node d n s)
unfolding skip_node
skip-Bounded d n s b =
    close-Bounded d n
      (record s {
        results = insert n "skipped" s.results;
        completed = inc s.completed;
        finished = s.finished ++ n ∷ [];
      })
      (record { held = b.held; jumps = b.jumps })

Step-Bounded : {d : Dag} {cpus : ℕ} {s t : Sched} → Step d cpus s t → Bounded d s → Bounded d t
unfolding notify_child
Step-Bounded (accept n rest e idle good) b = record { held = omega arith; jumps = b.jumps }
Step-Bounded (start n e free) b = record { held = omega arith; jumps = b.jumps }
Step-Bounded {d} {s = s} (skip n rest e idle failed) b =
    skip-Bounded d n (record s { ready = rest }) (record { held = b.held; jumps = b.jumps })
Step-Bounded {d} {s = s} (finish n err again m) b = finish-Bounded d n err again s b
Step-Bounded (notify c m) b = record { held = b.held; jumps = b.jumps }

pub held_iterations : {d : Dag} {cpus : ℕ} {t : Sched} → Reach d cpus t → Bounded d t
unfolding initial lookup
held_iterations begin = record { held = omega arith; jumps = λ n. omega arith }
held_iterations (next r st) = Step-Bounded st (held_iterations r)
held_iterations (work results r m) =
    let b = held_iterations r in record { held = b.held; jumps = b.jumps }
