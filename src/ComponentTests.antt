-- ===== src/ComponentTests.antt =====
-- The theorems on the parts of the engine, the scheduler, the cluster, the worker and the events, at
-- small inputs.
use distributed_workflow_orc.Prelude.{
  delete, ℕ, ◌+◌, ◌≡◌, ◌≤◌, refl, arith, Bool, true, false, Option, none, some, List, [], ◌∷◌, ◌++◌,
  String, Map, lookup, insert, Memᴰ, map, length, All, contains,
}
use distributed_workflow_orc.Prelude.Int.{ℤ, pos, ltb_ℤ}
use distributed_workflow_orc.Prelude.Results.{Result, ok, err}
use distributed_workflow_orc.Domain.TaskStatus.{TaskStatus}
use distributed_workflow_orc.Domain.WorkflowStatus
use distributed_workflow_orc.Domain.Task.{Task}
use distributed_workflow_orc.Scheduler.Queue.{
  DispatchRequest, Job, QueueOp, op_push, op_pop, ReadyQueue, new_ready_queue, pop_batch, push,
  concat, operate_queue, operate_queue-fifo, pushed_of, sizes_of,
}
use distributed_workflow_orc.Scheduler.Assignment.{
  Floats, SortSlice, IsSort, no_worker_for, candidates, select_candidate, select_worker,
  less_loaded, select_worker-capable, select_worker-fails,
}
use distributed_workflow_orc.Scheduler.Tick.{Tick, DispatchCall, assign_once}
use distributed_workflow_orc.Scheduler.Tick.Fates.{Fates, fates}
use distributed_workflow_orc.Cluster.WorkerNode
use distributed_workflow_orc.Cluster.WorkerNode.{WorkerNode, WorkerStatus, is_alive}
use distributed_workflow_orc.Cluster.RetryQueue.{new_retry_queue, RetryTrigger}
use distributed_workflow_orc.Cluster.RetryQueue.Loop.{
  Move, move_push, move_take, move_ask, move_put, moves, new_loop,
}
use distributed_workflow_orc.Cluster.RetryQueue.Loop.Watched.{IsWatched, moves-IsWatched}
use distributed_workflow_orc.Cluster.Registry.{
  WorkerRegistry, check_heartbeat, heartbeat, heartbeat-check, alive_workers,
}
use distributed_workflow_orc.Worker.Service.{
  WorkerService, dispatch_task, dispatch_new, submit_with, add, get_executor, get_executor_error,
  dispatch_task-idempotent, dispatch_task-unknown_type,
}
use distributed_workflow_orc.Events.Bus.{new_bus, IsValid}
use distributed_workflow_orc.Events.Bus.Runs.{
  Op, op_subscribe, op_publish, op_dispatch, op_receive, op_shutdown, operate_all,
  operate_all-new_IsValid,
}
use distributed_workflow_orc.Engine.State.{
  Event, task_status_changed, workflow_status_changed, job_of,
}
use distributed_workflow_orc.Engine.Handlers.{
  Engine, EngineError, new_engine, reassign_dead_worker_tasks, cancel_workflow,
}
use distributed_workflow_orc.Engine.Effects.{held_in, ready_event, reassign_dead_worker_tasks-jobs}
use distributed_workflow_orc.Engine.Notices.{count_told, count_calls, cancel_workflow-tells}
use distributed_workflow_orc.Tests.{seconds, stamped, two_workflow}

abbrev request : DispatchRequest
request = record {
  task_id = "a";
  workflow_id = "w";
  type = "shell";
  payload = "{}";
  timeout_seconds = pos 30;
}

abbrev shell_job : Job
shell_job = record {
  id = "a";
  workflow_id = "w";
  request = request;
  on_dispatched = some (record { workflow_id = "w"; task_id = "a" });
}

abbrev http_job : Job
http_job = record shell_job { id = "b"; request = record request { task_id = "b"; type = "http" } }

abbrev node : WorkerNode
node = record {
  id = "n";
  address = "host:1";
  labels = [];
  capabilities = "shell" ∷ [];
  capacity = pos 4;
  running_tasks = pos 0;
  last_heartbeat = 5;
  status = WorkerNode.alive;
}

abbrev registry : WorkerRegistry
registry = record {
  workers = ("n", node) ∷ [];
  retry_queue = new_retry_queue;
  on_dead_hooks = "close" ∷ [];
  hook_calls = [];
}

-- Integers in the place of the floats: a list of one worker is never compared.
abbrev floats : Floats
floats = record { Float = ℤ; of_int = λ n. n; div = λ a b. a; lt = ltb_ℤ; eq = λ a b. true }

-- A stable choice that leaves the order as it is.
abbrev same_order : SortSlice
same_order less xs = xs

same_order-IsSort : IsSort same_order
same_order-IsSort = record { members = λ less xs w m. m; same_length = λ less xs. refl }

select_worker-capable_example :
    (w : WorkerNode) × Memᴰ w (node ∷ []) × (w.id ≡ "n") × (contains w.capabilities "shell" ≡ true)
unfolding select_worker candidates select_candidate less_loaded
select_worker-capable_example =
    select_worker-capable floats same_order (node ∷ []) "shell" "n" same_order-IsSort refl

select_worker-fails_example : All (λ w. contains w.capabilities "http" ≡ false) (node ∷ [])
unfolding select_worker candidates select_candidate less_loaded
select_worker-fails_example =
    select_worker-fails floats same_order (node ∷ []) "http" (no_worker_for "http")
      same_order-IsSort refl

-- The first call is answered; later ones fail.
abbrev dispatch : List DispatchCall → String → DispatchRequest → Option Bool
dispatch [] worker_id req = some true
dispatch (call ∷ calls) worker_id req = none

abbrev second_job : Job
second_job = record shell_job { id = "c"; request = record request { task_id = "c" } }

abbrev queued : ReadyQueue
queued = record { items = shell_job ∷ http_job ∷ second_job ∷ [] }

abbrev tick : Tick
tick = record { queue = queued; registry = registry; calls = []; assigned = [] }

abbrev ticked : Tick
ticked = assign_once dispatch floats same_order tick

abbrev tick_fates : Fates
tick_fates =
    fates dispatch floats same_order (alive_workers registry.workers) [] (pop_batch 50 queued).0

-- The job that no worker can do and the one whose call fails are put back.
ticked_items : ticked.queue.items ≡ http_job ∷ second_job ∷ []
unfolding assign_once select_worker candidates select_candidate less_loaded
ticked_items = refl

abbrev queue_ops : List QueueOp
queue_ops = op_push shell_job ∷ op_push http_job ∷ op_pop 1 ∷ op_push second_job ∷ op_pop 5 ∷ []

operate_queue-fifo_example :
    (concat (operate_queue queue_ops new_ready_queue).0
        ++ (operate_queue queue_ops new_ready_queue).1.items
      ≡ [] ++ pushed_of queue_ops)
    × (map length (operate_queue queue_ops new_ready_queue).0 ≡ sizes_of 0 queue_ops)
unfolding new_ready_queue
operate_queue-fifo_example = operate_queue-fifo queue_ops new_ready_queue

batches_taken :
    (operate_queue queue_ops new_ready_queue).0
    ≡ (shell_job ∷ []) ∷ (http_job ∷ second_job ∷ []) ∷ []
unfolding operate_queue push pop_batch new_ready_queue
batches_taken = refl

abbrev suspect_node : WorkerNode
suspect_node = record node { status = WorkerNode.suspect }

abbrev suspecting : WorkerRegistry
suspecting = record registry { workers = ("n", suspect_node) ∷ [] }

heartbeat-check_example :
    (r' : WorkerRegistry) × (heartbeat 6 "n" (pos 2) suspecting ≡ ok r')
    × (lookup "n" r'.workers
        ≡ some (record suspect_node {
          running_tasks = pos 2;
          last_heartbeat = 6;
          status = WorkerNode.alive;
        }))
    × (lookup "m" r'.workers ≡ none)
    × (r'.hook_calls ≡ [])
    × (lookup "n" (check_heartbeat 7 "n" r').0.workers
        ≡ some (record suspect_node {
          running_tasks = pos 2;
          last_heartbeat = 6;
          status = WorkerNode.alive;
        }))
heartbeat-check_example =
    heartbeat-check 6 7 "n" "m" (pos 2) suspect_node suspecting refl refl (omega arith)

abbrev trigger : RetryTrigger
trigger = record { key = "n"; timeout = 15000000000 }

-- The worker registers while the loop has its trigger in hand: the trigger is then gone, or there
-- twice.
abbrev lost_moves : List Move
lost_moves =
    move_push 5 trigger
    ∷ move_take
    ∷ move_push 6 trigger
    ∷ move_ask 20000000000 false 20000000001
    ∷ move_put
    ∷ []

abbrev doubled_moves : List Move
doubled_moves =
    move_push 5 trigger
    ∷ move_take
    ∷ move_ask 20000000000 false 20000000001
    ∷ move_push 6 trigger
    ∷ move_put
    ∷ []

moves-IsWatched_example : IsWatched (moves doubled_moves new_loop)
moves-IsWatched_example = moves-IsWatched doubled_moves

lost_trigger : (moves lost_moves new_loop).queue.nodes ≡ []
unfolding moves insert delete
lost_trigger = refl

doubled_trigger : (moves doubled_moves new_loop).queue.nodes ≡ trigger ∷ trigger ∷ []
unfolding moves insert delete
doubled_trigger = refl

abbrev service : WorkerService ℕ
service = record {
  executors = ("shell", 1) ∷ [];
  in_flight = [];
  suspended = false;
  submitted = [];
}

abbrev dispatched : WorkerService ℕ
dispatched = (dispatch_task ℕ true request service).0

dispatch_task-idempotent_example :
    (dispatch_task ℕ false (record request { workflow_id = "v" }) dispatched ≡ (dispatched, none))
    × ((dispatch_task ℕ false http_job.request dispatched).1
        ≡ (dispatch_task ℕ false http_job.request service).1)
unfolding dispatch_task dispatch_new submit_with add get_executor insert
dispatch_task-idempotent_example =
    dispatch_task-idempotent ℕ true false request (record request { workflow_id = "v" })
      http_job.request service refl refl refl

dispatch_task-unknown_type_example :
    ((dispatch_task ℕ true http_job.request service).1 ≡ some (get_executor_error "http"))
    × ((dispatch_task ℕ true http_job.request service).0.submitted ≡ [])
    × (dispatch_task ℕ true http_job.request (dispatch_task ℕ true http_job.request service).0
        ≡ ((dispatch_task ℕ true http_job.request service).0, none))
dispatch_task-unknown_type_example =
    dispatch_task-unknown_type ℕ true true http_job.request service refl refl refl

abbrev bus_ops : List (Op ℕ ℕ)
bus_ops =
    op_subscribe "s" 7
    ∷ op_publish 1
    ∷ op_dispatch
    ∷ op_receive "s"
    ∷ op_subscribe "s" 8
    ∷ op_shutdown
    ∷ []

operate_all-new_IsValid_example : IsValid ℕ ℕ (operate_all ℕ ℕ bus_ops (new_bus ℕ ℕ 0))
operate_all-new_IsValid_example = operate_all-new_IsValid ℕ ℕ 0 bus_ops

abbrev seen : List Event
seen =
    task_status_changed "v" "c" TaskStatus.ready (pos 1)
    ∷ workflow_status_changed "v" WorkflowStatus.succeeded (pos 2)
    ∷ []

abbrev held : Map Task
held =
    ("a", record (stamped "a" "first" []) { status = TaskStatus.running; assigned_to = "n" })
    ∷ ("b", stamped "b" "second" [])
    ∷ []

abbrev busy : Engine
busy = record (new_engine true) { workflows = ("w", record two_workflow { tasks = held }) ∷ [] }

reassign_dead_worker_tasks-jobs_example :
    ((reassign_dead_worker_tasks seconds (pos 9) "n" busy).pushed
      ≡ [] ++ map (job_of seconds) (held_in "n" busy.workflows))
    × ((reassign_dead_worker_tasks seconds (pos 9) "n" busy).published
        ≡ [] ++ map (ready_event (pos 9)) (held_in "n" busy.workflows))
    × ((reassign_dead_worker_tasks seconds (pos 9) "n" busy).notified ≡ [])
unfolding new_engine
reassign_dead_worker_tasks-jobs_example = reassign_dead_worker_tasks-jobs seconds (pos 9) "n" busy

abbrev engine_of : Result EngineError Engine → Engine
engine_of (err failure) = busy
engine_of (ok e) = e

abbrev busy_after : Engine
busy_after = engine_of (cancel_workflow seconds (pos 9) "w" busy)

busy_cancelled : cancel_workflow seconds (pos 9) "w" busy ≡ ok busy_after
unfolding cancel_workflow new_engine
busy_cancelled = refl

cancel_workflow-tells_example :
    (count_told "n" "a" busy_after.notified ≡ 0 + 1) × (count_calls "n" busy_after.notified ≤ 0 + 1)
unfolding new_engine
cancel_workflow-tells_example =
    cancel_workflow-tells seconds (pos 9) busy busy_after "w" "n" "a"
      (record two_workflow { tasks = held }) refl refl busy_cancelled
