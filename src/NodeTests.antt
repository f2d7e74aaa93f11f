-- ===== src/NodeTests.antt =====
-- A worker on a small history.
use distributed_workflow_orc.Prelude.{
  insert, ◌≤◌, ◌≡◌, refl, false, List, [], ◌∷◌, Map, has, if◌then◌else◌, length,
}
use distributed_workflow_orc.Prelude.Int.{pos}
use distributed_workflow_orc.Scheduler.Queue.{DispatchRequest}
use distributed_workflow_orc.Worker.Service.{TaskInfo}
use distributed_workflow_orc.Worker.Executor.{Executor, shell_executor}
use distributed_workflow_orc.Worker.Node.{Node, Event, dispatched, acted, history, new_node}
use distributed_workflow_orc.Worker.Node.Single.{is_task, history-single}
use distributed_workflow_orc.Pool.LinkedQueue.{Holds}
use distributed_workflow_orc.Pool.PriorityQueue
use distributed_workflow_orc.Pool.PriorityQueue.{PoolJob}
use distributed_workflow_orc.Pool.PriorityQueue.Selection.{selection}
use distributed_workflow_orc.Pool.PriorityQueue.Selection.Package.{selection-IsHeapPackage}
use distributed_workflow_orc.Pool.WorkerPool.{
  act_receive, act_count_in, act_finish, act_count_out, act_look, act_take_due,
}
use distributed_workflow_orc.Pool.WorkerPool.Counts.{kept}

abbrev request : DispatchRequest
request = record {
  task_id = "t1";
  workflow_id = "w1";
  type = "shell";
  payload = "hello";
  timeout_seconds = pos 30;
}

abbrev executors : Map Executor
executors = ("shell", shell_executor) ∷ []

-- The task is dispatched twice, fails once, and is dispatched again while it waits.
abbrev some_events : List (Event Executor selection)
some_events =
    dispatched request
    ∷ dispatched request
    ∷ acted act_receive
    ∷ acted (act_count_in 0)
    ∷ acted (act_finish 0 false 10 5)
    ∷ acted act_count_out
    ∷ dispatched request
    ∷ acted (act_look 20)
    ∷ acted act_take_due
    ∷ []

abbrev some_node : Node Executor selection
some_node = history Executor selection some_events (new_node Executor selection executors 2 4)

history-single_example :
    (xs : List (PoolJob TaskInfo)) × Holds (PoolJob TaskInfo) some_node.pool.jobs_q xs
    × (kept TaskInfo selection (is_task "t1") xs some_node.pool
        ≤ (if has "t1" some_node.service.in_flight then 1 else 0))
history-single_example =
    history-single Executor selection (selection-IsHeapPackage TaskInfo) executors 2 4 some_events
      "t1"

-- It was taken in once.
taken_once : length some_node.pool.submitted ≡ 1
unfolding history new_node insert PriorityQueue.len PriorityQueue.push PriorityQueue.less
    PriorityQueue.pop PriorityQueue.swap
taken_once = refl
