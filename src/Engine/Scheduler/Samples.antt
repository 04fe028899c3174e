-- ===== src/Engine/Scheduler/Samples.antt =====
-- Runs of small workflows, and the theorems about executions at them.
use tailflow_agent.Prelude.{
  ℕ, ◌+◌, ◌≤◌, String, ◌≡◌, refl, true, false, none, some, List, [], ◌∷◌, arith, count, contains,
  All, if◌then◌else◌, ◌==◌,
}
use tailflow_agent.Prelude.Int.{pos}
use tailflow_agent.Parser.Schema.{Step as WorkflowStep}
use tailflow_agent.Engine.Dag.{Dag, ok, build_dag}
use tailflow_agent.Engine.Dag.Counting.{remove}
use tailflow_agent.Engine.Dag.Link.{ids, dependencies}
use tailflow_agent.Engine.Dag.Samples.{step, program}
use tailflow_agent.Engine.Goto.{
  offer, search, reachable, intersection, find_loop_body, loop_in_degree,
}
use tailflow_agent.Engine.Scheduler.{
  Sched, initial, close_or_enqueue, skip_node, reset_body, ready_of_body, jump, after_success,
  finish_node, notify_child, Step, accept, start, finish, notify, Reach, begin, next, iterations,
  goto_of,
}
use tailflow_agent.Engine.Scheduler.Bounds.{jumps, Reach-Bounded}
use tailflow_agent.Engine.Scheduler.Iterations.{Bounded, limit}
use tailflow_agent.Engine.Scheduler.Execution.{
  runs_once, closed-finished, running-dependencies, progresses,
}

unfoldable scheduler : Unit {0}
unfolding program initial close_or_enqueue skip_node reset_body ready_of_body jump after_success
    finish_node notify_child offer search reachable intersection find_loop_body loop_in_degree
    remove
scheduler = tt

abbrev line : List WorkflowStep
line = step "a" [] none ∷ step "b" ("a" ∷ []) none ∷ []

built_line : (d : Dag) × (build_dag line ≡ ok d)
unfolding scheduler
built_line = (_, refl)

-- The first step has run and the second one runs.
second_runs : (t : Sched) × Reach built_line.0 1 t × (t.running ≡ "b" ∷ []) × (t.closed ≡ 0)
unfolding scheduler built_line
second_runs = (
  _,
  next
      (next
        (next
          (next (next (next begin (accept "a" [] refl refl refl)) (start "a" refl (omega arith)))
            (finish "a" none false refl))
          (notify "b" refl))
        (accept "b" [] refl refl refl))
      (start "b" refl (omega arith)),
  refl,
  refl,
)

all_run : (t : Sched) × Reach built_line.0 1 t × (t.closed ≡ 1)
unfolding scheduler built_line second_runs
all_run = (_, next second_runs.1 (finish "b" none false refl), refl)

abbrev rank : String → ℕ
rank k = if k == "a" then 0 else 1

runs_once_example :
    ((k : String)
      → count k second_runs.0.finished
          + count k second_runs.0.running
          + count k second_runs.0.held
          + count k second_runs.0.ready
        ≤ (if contains k (ids line) then 1 else 0))
    × (second_runs.0.closed ≤ 1)
runs_once_example =
    runs_once (step "a" [] none) (step "b" ("a" ∷ []) none ∷ []) built_line.0 (refl, (refl, tt))
      (refl, (refl, tt)) built_line.1 second_runs.1

closed-finished_example : count "b" all_run.0.finished ≡ (if contains "b" (ids line) then 1 else 0)
closed-finished_example =
    closed-finished (step "a" [] none) (step "b" ("a" ∷ []) none ∷ []) built_line.0
      (refl, (refl, tt)) (refl, (refl, tt)) built_line.1 all_run.1 (omega (arith, all_run.2)) "b"

running-dependencies_example :
    All (λ p. contains p second_runs.0.finished ≡ true) (dependencies line "b")
unfolding scheduler built_line second_runs
running-dependencies_example =
    running-dependencies (step "a" [] none) (step "b" ("a" ∷ []) none ∷ []) built_line.0
      (refl, (refl, tt)) (refl, (refl, tt)) built_line.1 "b" second_runs.1 refl

progresses_example : (u : Sched) × Step built_line.0 1 second_runs.0 u
progresses_example =
    progresses (step "a" [] none) (step "b" ("a" ∷ []) none ∷ []) built_line.0 (refl, (refl, tt))
      (refl, (refl, tt)) built_line.1 rank (tt, ((omega arith, tt), tt)) (omega arith) second_runs.1
      second_runs.3

-- A goto whose loop body has a child outside: `c` is made ready again by the second round.
abbrev leaving : List WorkflowStep
leaving =
    step "a" [] none
    ∷ step "b" ("a" ∷ []) (some (record { target = "a"; when = "true"; max_iterations = pos 1 }))
    ∷ step "c" ("a" ∷ []) none
    ∷ []

built_leaving : (d : Dag) × (build_dag leaving ≡ ok d)
unfolding scheduler
built_leaving = (_, refl)

first_round :
    (t : Sched) × Reach built_leaving.0 1 t × (t.ready ≡ "c" ∷ "a" ∷ []) × (t.completed ≡ pos 0)
unfolding scheduler built_leaving
first_round = (
  _,
  next
      (next
        (next
          (next
            (next
              (next
                (next (next begin (accept "a" [] refl refl refl)) (start "a" refl (omega arith)))
                (finish "a" none false refl))
              (notify "b" refl))
            (notify "c" refl))
          (accept "b" ("c" ∷ []) refl refl refl))
        (start "b" refl (omega arith)))
      (finish "b" none true refl),
  refl,
  refl,
)

second_round : (t : Sched) × Reach built_leaving.0 1 t × (t.ready ≡ "b" ∷ "c" ∷ [])
unfolding scheduler built_leaving first_round
second_round = (
  _,
  next
      (next
        (next
          (next
            (next
              (next
                (next (next first_round.1 (accept "c" ("a" ∷ []) refl refl refl))
                  (start "c" refl (omega arith)))
                (finish "c" none false refl))
              (accept "a" [] refl refl refl))
            (start "a" refl (omega arith)))
          (finish "a" none false refl))
        (notify "b" refl))
      (notify "c" refl),
  refl,
)

-- `c` runs twice, and `done` is closed twice.
closed_twice : (t : Sched) × Reach built_leaving.0 1 t × (count "c" t.finished ≡ 2) × (t.closed ≡ 2)
unfolding scheduler built_leaving first_round second_round
closed_twice = (
  _,
  next
      (next
        (next
          (next
            (next (next second_round.1 (accept "b" ("c" ∷ []) refl refl refl))
              (start "b" refl (omega arith)))
            (finish "b" none false refl))
          (accept "c" [] refl refl refl))
        (start "c" refl (omega arith)))
      (finish "c" none false refl),
  refl,
  refl,
)

-- The goto of `b` has jumped once.
jumped_once : jumps "b" first_round.1 ≡ 1
unfolding scheduler built_leaving first_round
jumped_once = refl

Reach-Bounded_example :
    (Bounded built_leaving.0 first_round.0)
    × ((n : String) → jumps n first_round.1 ≤ iterations first_round.0 n)
    × ((n : String) → jumps n first_round.1 ≤ limit (goto_of built_leaving.0 n))
Reach-Bounded_example = Reach-Bounded first_round.1
