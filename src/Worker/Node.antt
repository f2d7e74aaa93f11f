-- ===== src/Worker/Node.antt =====
-- infrastructure/worker/service/service.go with pkg/worker_pool/worker_pool.go: a worker that takes
-- dispatches while its pool runs. A job of the pool is the `TaskInfo` of its tracked task.

pub mod Single
use distributed_workflow_orc.Prelude.{
  ℕ, Bool, true, false, not, ◌&&◌, Option, none, some, List, [], ◌∷◌, Map, has, if◌then◌else◌,
  is_some, lookup,
}
use distributed_workflow_orc.Scheduler.Queue.{DispatchRequest}
use distributed_workflow_orc.Worker.Service.{
  WorkerService, TaskInfo, DispatchError, add, dispatch_task, on_done, task_info,
}
use distributed_workflow_orc.Pool.PriorityQueue.{PoolJob, HeapPackage}
use distributed_workflow_orc.Pool.WorkerPool.{
  WorkerPool, Action, act_submit, act_receive, act_count_in, act_finish, act_count_out, act_fetch,
  act_send, act_look, act_take_due, act_pass_on, act, or_same, try_submit, take_out,
  new_worker_pool,
}

module _ (Executor : Type 0) (heap : HeapPackage) where
  pub record Node : Type 0 where
    pub service : WorkerService Executor
    pub pool : WorkerPool TaskInfo heap

  -- Whether `DispatchTask` comes to `TrySubmit`.
  unfoldable pub is_tried : DispatchRequest → WorkerService Executor → Bool
  unfolding add
  is_tried req ws =
      not ws.suspended && (add req.task_id ws.in_flight).0 && is_some (lookup req.type ws.executors)

  -- `DispatchTask`, with the pool's answer.
  unfoldable pub node_dispatch : DispatchRequest → Node → Node × Option DispatchError
  unfolding dispatch_task try_submit is_tried
  node_dispatch req n =
      let (has_room, pool) = try_submit TaskInfo heap (task_info req) n.pool in
      let (service, failure) = dispatch_task Executor has_room req n.service in
      (
        record { service = service; pool = if is_tried req n.service then pool else n.pool },
        failure,
      )

  -- `OnDone` of the job that ends.
  abbrev pub done_of :
      Option (PoolJob TaskInfo × List (PoolJob TaskInfo))
      → Bool
      → WorkerService Executor
      → WorkerService Executor
  done_of none succeeded ws = ws
  done_of (some (j, rest)) succeeded ws = on_done Executor j.task.id succeeded ws

  -- An action of the pool; the tasks come from dispatches alone.
  unfoldable pub node_act : Action TaskInfo heap → Node → Node
  unfolding act on_done
  node_act (act_submit task) n = n
  node_act (act_finish i succeeded now wait) n = record {
    service = done_of (take_out TaskInfo heap i n.pool.working) succeeded n.service;
    pool =
        or_same TaskInfo heap n.pool (act TaskInfo heap (act_finish i succeeded now wait) n.pool);
  }
  node_act a n = record n { pool = or_same TaskInfo heap n.pool (act TaskInfo heap a n.pool) }

  -- What can happen to a worker; a heartbeat suspends it or not.
  pub data Event : Type 0 where
    dispatched : DispatchRequest → Event
    acted : Action TaskInfo heap → Event
    beaten : (suspended : Bool) → Event

  unfoldable pub happen : Event → Node → Node
  unfolding node_dispatch node_act
  happen (dispatched req) n = (node_dispatch req n).0
  happen (acted a) n = node_act a n
  happen (beaten suspended) n = record n { service = record n.service { suspended = suspended } }

  unfoldable pub history : List Event → Node → Node
  unfolding happen
  history [] n = n
  history (e ∷ events) n = history events (happen e n)

  -- A worker with these executors, before any task.
  unfoldable pub new_node : Map Executor → ℕ → ℕ → Node
  unfolding new_worker_pool
  new_node executors worker_count capacity = record {
    service = record { executors = executors; in_flight = []; suspended = false; submitted = [] };
    pool = new_worker_pool TaskInfo heap worker_count capacity;
  }
