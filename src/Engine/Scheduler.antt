-- ===== src/Engine/Scheduler.antt =====
-- internal/engine/engine_dag.go and the jump of internal/engine/goto.go: the execution of a graph.
-- `dagState` is shared by the dispatcher (`dagLoop`) and one goroutine for each node that runs; the
-- model is a step relation over it. A step is what happens under one lock, or one hand-over:
--   accept   the dispatcher takes a node from `ready` and has seen no error
--   start    it gets a slot of the semaphore for that node, and starts its goroutine
--   skip     the dispatcher takes a node from `ready` after an error, and skips it
--   work     a running node changes the results (`executeNode`, in any way)
--   finish   `executeNode` has returned; the rest of `runDAGNode` up to `enqueueChildren`
--   notify   one round of the loop of `enqueueChildren`, for any of the nodes that are in it
-- The loops of `enqueueChildren` that are under way are the list `notifying` of the children that
-- they have still to count, in any order. The `ready` channel is a list; a send to it never blocks
-- while it holds no more than one entry for each node.
pub mod Iterations
pub mod Bounds
pub mod Safety
pub mod Execution
pub mod Samples
use tailflow_agent.Prelude.{
  ℕ, zero, suc, ◌+◌, ◌<◌, String, ◌≡◌, ◌≢◌, Bool, true, false, not, ◌&&◌, ◌||◌, Option, none, some,
  List, [], ◌∷◌, ◌++◌, length, contains, if◌then◌else◌,
}
use tailflow_agent.Prelude.Dict.{Dict, lookup, insert, erase, get_or, is_some}
use tailflow_agent.Prelude.Int.{ℤ, pos, negsuc, dec, inc, is_zero, le_zero, ge_nat, le_nat}
use tailflow_agent.Parser.Schema.{GotoConfig}
use tailflow_agent.Engine.Dag.{Dag, DagNode, children, parents, degree, in_degrees}
use tailflow_agent.Engine.Dag.Counting.{remove}
use tailflow_agent.Engine.Goto.{find_loop_body, loop_in_degree}

pub record Sched : Type 0 where
  pub ready : List String
  -- the node for which the dispatcher waits for a slot of the semaphore, if any
  pub held : List String
  pub running : List String
  pub notifying : List String
  -- what has run or was skipped, in order; the source does not keep it
  pub finished : List String
  pub completed : ℤ
  pub in_degree : Dict ℤ
  pub goto_iterations : Dict ℕ
  pub first_err : Option String
  -- how often `close(ds.done)` was called; the second call panics
  pub closed : ℕ
  -- the status of each step's result
  pub results : Dict String

-- `newDAGState`. The loop bodies, which it computes once, depend on the graph alone.
pub initial : Dag → Sched
initial d = record {
  ready = d.roots;
  held = [];
  running = [];
  notifying = [];
  finished = [];
  completed = pos 0;
  in_degree = in_degrees d.nodes;
  goto_iterations = [];
  first_err = none;
  closed = 0;
  results = [];
}

-- `ds.completed >= ds.total`: if all is done close, and otherwise go on to the children.
pub close_or_enqueue : Dag → String → Sched → Sched
close_or_enqueue d n s =
    if ge_nat s.completed (length d.nodes)
    then record s { closed = s.closed + 1 }
    else record s { notifying = children d n ++ s.notifying }

-- `skipNode`
pub skip_node : Dag → String → Sched → Sched
unfolding close_or_enqueue
skip_node d n s = close_or_enqueue d n (record s {
  results = insert n "skipped" s.results;
  completed = inc s.completed;
  finished = s.finished ++ n ∷ [];
})

-- `resetLoopBody`, one id of the body after the other.
pub reset_body : Dag → List String → List String → Sched → Sched
reset_body d body [] s = s
reset_body d body (id ∷ ids) s = reset_body d body ids (record s {
  in_degree = insert id (pos (loop_in_degree d body id)) s.in_degree;
  completed = dec s.completed;
  results = erase id s.results;
})

-- `collectReadyLoopNodes`
pub ready_of_body : Dict ℤ → List String → List String
ready_of_body m [] = []
ready_of_body m (id ∷ ids) =
    let rest = ready_of_body m ids in if is_zero (degree m id) then id ∷ rest else rest

-- The jump: the iteration is counted, the body is reset and its first nodes are made ready.
pub jump : Dag → String → ℕ → List String → Sched → Sched
unfolding reset_body ready_of_body
jump d n iteration body s =
    let reset =
      reset_body d body body
        (record s { goto_iterations = insert n (suc iteration) s.goto_iterations }) in
    record reset { ready = reset.ready ++ ready_of_body reset.in_degree body }

-- How often the goto of the node has jumped.
abbrev pub iterations : Sched → String → ℕ
iterations s n = get_or (lookup n s.goto_iterations) 0

-- The loop body of a goto; `Goto.Search` shows that it is always found in a graph.
abbrev pub loop_body : Dag → GotoConfig → String → List String
loop_body d g n = get_or (find_loop_body d g.target n) []

-- `handleGoto`: `again` says that the condition was evaluated, without an error, to true.
pub after_success : Dag → String → Option GotoConfig → Bool → Sched → Sched
unfolding jump close_or_enqueue
after_success d n none again s = close_or_enqueue d n s
after_success d n (some g) again s =
    if not again || le_nat g.max_iterations (iterations s n)
    then close_or_enqueue d n s
    else jump d n (iterations s n) (loop_body d g n) s

abbrev pub goto_of : Dag → String → Option GotoConfig
goto_of d n = elim (lookup n d.nodes) [ none ↦ none | some node ↦ node.step.goto ]

-- `runDAGNode` once `executeNode` has returned `err`: the first error is kept, the node is counted,
-- and the goto is tried only without an error.
pub finish_node : Dag → String → Option String → Bool → Sched → Sched
unfolding after_success close_or_enqueue
finish_node d n err again s =
    let counted = record s {
      running = remove n s.running;
      completed = inc s.completed;
      finished = s.finished ++ n ∷ [];
      first_err = if is_some s.first_err then s.first_err else err;
    } in
    if is_some err
    then close_or_enqueue d n counted
    else after_success d n (goto_of d n) again counted

-- One round of the loop of `enqueueChildren`.
pub notify_child : String → Sched → Sched
notify_child c s =
    let degrees = insert c (dec (degree s.in_degree c)) s.in_degree in
    record s {
      notifying = remove c s.notifying;
      in_degree = degrees;
      ready = if le_zero (degree degrees c) then s.ready ++ c ∷ [] else s.ready;
    }

-- The steps of the scheduler with `cpus` slots of the semaphore.
pub data Step (d : Dag) (cpus : ℕ) (s : Sched) : Sched → Type 0 where
  accept :
      (n : String) (rest : List String)
      → s.ready ≡ n ∷ rest
      → s.held ≡ []
      → s.first_err ≡ none
      → Step d cpus s (record s { ready = rest; held = n ∷ [] })
  start :
      (n : String)
      → s.held ≡ n ∷ []
      → length s.running < cpus
      → Step d cpus s (record s { held = []; running = n ∷ s.running })
  skip :
      (n : String) (rest : List String)
      → s.ready ≡ n ∷ rest
      → s.held ≡ []
      → s.first_err ≢ none
      → Step d cpus s (skip_node d n (record s { ready = rest }))
  finish :
      (n : String) (err : Option String) (again : Bool)
      → contains n s.running ≡ true
      → Step d cpus s (finish_node d n err again s)
  notify : (c : String) → contains c s.notifying ≡ true → Step d cpus s (notify_child c s)

-- What an execution reaches, by steps of the scheduler and by what the running nodes do.
pub data Reach (d : Dag) (cpus : ℕ) : Sched → Type 0 where
  begin : Reach d cpus (initial d)
  next : {s t : Sched} → Reach d cpus s → Step d cpus s t → Reach d cpus t
  work :
      {s : Sched} (results : Dict String)
      → Reach d cpus s
      → 0 < length s.running
      → Reach d cpus (record s { results = results })
