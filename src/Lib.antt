-- ===== src/Lib.antt =====
-- The control plane and the worker of the distributed workflow orchestrator: what the code does with
-- workflows, tasks, workers and events, and what holds of it.
--
-- A client gives the control plane a list of tasks that name the tasks they wait for. `NewWorkflow`
-- turns the names into ids and refuses cycles; the engine starts a task once all that it waits for has
-- succeeded, and pushes a job for it. The scheduler hands jobs to workers that the registry holds for
-- alive. Workers report results, which the engine takes in; a failure or a cancellation is passed on to
-- all tasks that wait for the lost one. The tasks of a worker that stops to send heartbeats go back to
-- the scheduler. Every change of a status is published on the event bus.
--
--   Domain       common/domain: the state machines of tasks and workflows, `NewWorkflow` (Build) and
--                its search for a cycle (Cycle), with the graph that they promise (Dag).
--   Engine       infrastructure/control-plane/engine/engine.go. State: status updates, ready tasks and
--                the end of a workflow. Cancel: the cascade and the calls of workers. Handlers: the
--                state and the exported methods. Evolve, Cascade, Marking, Settled, Quiet, Downstream:
--                what each part keeps. WellFormed: the invariant of one workflow under each handler.
--                Reachable: the states that sequences of handlers lead to. Guarantees and Effects:
--                what follows. Notices: which workers are told of a cancelled workflow. Submitted:
--                that `NewWorkflow` builds what may be submitted.
--   Scheduler    infrastructure/control-plane/scheduler: Queue, Assignment for the choice of a worker,
--                and Tick for one tick, with what becomes of each job in it (Fates).
--   Cluster      infrastructure/control-plane/orchestration (Registry), pkg/retry_queue (RetryQueue, and
--                Loop for its interleavings), infrastructure/control-plane/client (Client),
--                common/domain/wokrer.go (WorkerNode).
--   Worker       infrastructure/worker. Service: service, with pkg/executror_registry. Executor: the
--                executors (Shell, Http) and their registration (Registration). Executable: models, an
--                attempt of a task and its reports, with how it ends (Verdict) and how attempts follow
--                each other (Attempts). Client: client. Node: a service beside a pool, and how many
--                copies of a task it holds (Single).
--   Pool         pkg/worker_pool: LinkedQueue on a heap of cells; PriorityQueue, with the methods that
--                container/heap calls, and Timed, with those that call it; WorkerPool, the goroutines
--                as interleaved actions, with the invariant (Counts, Valid, Retries), what follows from
--                it (Laws), what leaves the tasks alone (Quiet) and that a pool is never stuck
--                (Progress). Selection is a stand-in for container/heap, which shows that what is asked
--                of it can be had.
--   Server       infrastructure/control-plane/server and infrastructure/worker/server: Cluster and
--                Orchestration for the handlers, Sessions for sequences of calls, Results for what goes
--                from a user to an executor and back, Submission for submitted workflows.
--   Events       pkg/event_bus (Bus, and Runs for sequences of operations); the stream of
--                infrastructure/control-plane/server and infrastructure/control-plane/events (Stream).
--   Prelude      lists, maps, integers and results that the parts share.
--   Tests, ComponentTests, GraphTests, PoolTests, ServerTests, NodeTests   runs on small inputs.
--
-- A Go map is an association list, whose order is the one in which `range` visits it. A statement
-- about all maps covers every order that a single loop may take; where loops follow each other on
-- one map, as in the rounds of the cascade, all take the same order, and Go may take another each
-- time. Methods of the engine hold its lock, so an execution is a sequence of them. The clock,
-- `uuid.NewString`, `sort.Slice`, `float64`, container/heap, json, os/exec, net/http and remote
-- calls are parameters. An `int32` of a message and a `time.Duration` wrap around; the pool's
-- counter, which never passes the number of its workers, is a plain number.
--
-- Two loops run on fuel. The cycle search is given the number of tasks, as each call blackens one. The
-- cascade is given one more than the number of tasks, as a round takes an id from the queue and puts
-- back one for each task that it cancels.
--
-- The pool takes one action at a time: what one goroutine does between two points where another may
-- run. Its queues hold a mutex, and its counter is atomic.
--
-- Three operations are one step each, though the source lets go of a lock within them: a tick of the
-- scheduler, which a PushTask may interrupt, a check of a heartbeat between its read and its write, and
-- a dispatch to a worker between the entry of its key and its submission to the pool.
--
-- Not modelled: gRPC itself, start-up and shut-down (contexts that end, closing the channels of the
-- pool), tickers, configuration and logging. In the sequences of handlers a submitted workflow has a
-- graph with no cycle and only PENDING tasks, as `NewWorkflow` returns it for PENDING tasks.
pub mod Prelude
pub mod Domain
pub mod Scheduler
pub mod Engine
pub mod Cluster
pub mod Worker
pub mod Events
pub mod Pool
pub mod Server
mod Tests
mod ComponentTests
mod GraphTests
mod PoolTests
mod ServerTests
mod NodeTests
