-- ===== src/Lib.antt =====
-- A verification library for the tailflow agent, which runs workflows described in YAML.
--
-- The parts of the program and the files that model them (paths from the repository's root):
--
-- Parser (internal/parser): the types of a workflow (schema.go, `Schema`) and its validation
--   (parser.go, `Validate`), one function for each Go function, an error as a `Message`.
-- Engine.Dag (internal/engine/dag.go): `BuildDAG`, `topoSort` and `validateGotos`. A node pointer is
--   the node's key. The proofs stand in `Counting`, `Kahn` (one round of the loop), `Order` (the
--   loop), `Link`, `Build` and `Shape` (the graph that the steps give), `Gotos`, `Plain` (steps
--   without gotos) and `Complete`.
-- Engine.Goto (internal/engine/goto.go): `FindLoopBody`, two searches and the intersection of what
--   they reach (`Search`), and `loopInDegree`.
-- Engine.Scheduler (internal/engine/engine_dag.go, and the jump of goto.go): `dagState` and its
--   steps as a relation, in any interleaving of the dispatcher and the goroutines of the nodes.
--   `Safety` has the invariant of executions without gotos, `Execution` what it gives, `Iterations`
--   and `Bounds` what holds with gotos too.
-- Engine.Node (internal/engine/engine_node.go, engine_retry.go, engine_outcome.go, engine_result.go):
--   recovery, retries, error policies and the status of an execution, for any evaluator and actions
--   (`Services`). `Retry`, `Errors` and `Recovery` have the proofs.
-- Engine.TestCase (internal/engine/engine_testcase.go): the mocks and expectations of test cases.
-- Engine.Execute (internal/engine/engine_node.go): `executeNode`, from the recovery of a step to its
--   result. `Ended` is about the result of the step, `Frame` about those of the others.
-- Engine.Workflow (internal/engine/engine.go, engine_result.go): `resolveParams`, `resolveEnv` and
--   `Execute`, for any run of the graph. `Params` and `Outcome` have the proofs.
-- Engine.Sensitive (internal/engine/sensitive.go): the masking of sensitive keys, which leaves
--   containers of other Go types than []any and map[string]any as they are.
-- Event (internal/event/events.go): events and their types; Event.Bus (bus.go): the bus, as steps of
--   publishers, subscribers and readers. `Channels` and `Open` have the proofs.
-- Action (internal/action): the array actions (array.go), the loop action (loop.go, with `Pipeline` for
--   what an iteration runs and `Tally` for the output; what an action returns is any function of the
--   iteration and of its place in it, which covers iterations that run at once), the table (table.go, with `Widths` and `Lines`)
--   and the registry (registry.go).
-- Server.Capture (internal/server/handlers_capture.go, and the loop tracker of sse.go): the events of an
--   execution go to the store. `Shows` is about one operation, `Statuses` about a sequence of events,
--   `Finalize` about the end of an execution. Server.Sse (sse.go): the streams of events.
-- Transactions (internal/runtime/txregistry.go): the registry of open transactions.
-- Claims (internal/export/memory_claimer.go, internal/lock/memory.go, internal/server/wait.go, and
--   `handleIdempotencyCheck` of handlers_triggers.go): who is first.
-- Kv (internal/runtime/kv_memory.go): the key-value store in memory, with an explicit clock.
-- Locker (internal/runtime/locker_memory.go): the lock of a key, as steps of its callers.
-- Trigger (internal/trigger/trigger.go): the routes of the workflows and the match of a request.
-- Runtime (internal/runtime/context.go): the results of the steps in the context of an execution.
-- Runtime.Expression (internal/runtime/expression.go): the templates in a configuration; `Relation` says
--   what one is resolved to.
-- Status (internal/runtime/status.go): the names of the statuses.
-- Value: what Go holds as `any`, and fmt's `%v` of it; a slice or a map of another Go type than the
--   decoders' keeps a mark (`typed`).
-- Store (internal/store/execution.go): the in-memory store of executions. `Ring` is about the ring
--   buffer and `List`, `Index` about `Get` and the updates, `Steps` about `UpdateStep`,
--   `Metrics` about the metrics of the steps.
--
-- How they interact: a workflow is parsed and validated, its steps make a graph, and the executor
-- runs the nodes of the graph and publishes events on the bus; the server captures the events of an
-- execution into the store, where the clients' streams read them, and stores the result at the end.
--
-- Fuel: the loop of `topoSort` is given one round for each node, and so is each search of
-- `FindLoopBody`; `Order.kahn_returns` and `Search.find_loop_body_correct` show that this is enough
-- whenever no id names two nodes and children and parents list the same edges, which is what the
-- links of `BuildDAG` give.
--
-- A run of the scheduler that closes `done` twice is in `Scheduler.Samples`: a goto whose loop body
-- has a child outside the body. What is shown of one closing is for workflows without gotos.
--
-- Not modelled: the YAML decoder and the expression language, which are third-party; the stores on
-- a server, the HTTP routing, the command line, the exporters of metrics and traces, and the actions that
-- call a process, the network or a database, which are calls of libraries; the sort of arrays, whose
-- comparison is on floats; the other actions and the views of the graph.
pub mod Prelude
pub mod Value
pub mod Event
pub mod Action
pub mod Parser
pub mod Engine
pub mod Status
pub mod Store
pub mod Runtime
pub mod Kv
pub mod Trigger
pub mod Locker
pub mod Transactions
pub mod Server
pub mod Claims
