-- ===== src/Server/Cluster.antt =====
-- infrastructure/control-plane/server/grpc_cluster_server.go, what workers call, and
-- infrastructure/worker/server/grpc_server.go, what the control plane calls.
use distributed_workflow_orc.Prelude.{ℕ, Bool, true, false, none, some, List, String, Map}
use distributed_workflow_orc.Prelude.Int.{ℤ, pos}
use distributed_workflow_orc.Prelude.Results.{Result, ok, err}
use distributed_workflow_orc.Domain.Task.{TaskResult, from_proto_task_status}
use distributed_workflow_orc.Cluster.WorkerNode.{WorkerNode, alive}
use distributed_workflow_orc.Cluster.Registry
use distributed_workflow_orc.Cluster.Registry.{WorkerRegistry}
use distributed_workflow_orc.Scheduler.Queue.{DispatchRequest}
use distributed_workflow_orc.Engine.Handlers.{Engine, EngineError, on_task_response}
use distributed_workflow_orc.Worker.Service.{WorkerService, InFlight, cancel_tasks, dispatch_task}
use distributed_workflow_orc.Worker.Executable.{ResultRequest}

-- `protogen.RegisterRequest`; the capacity is an `int32`.
pub record RegisterRequest : Type 0 where
  pub worker_id : String
  pub address : String
  pub labels : Map String
  pub capabilities : List String
  pub capacity : ℤ

-- The node that `Register` builds; its other fields have their zero values.
abbrev pub node_of : RegisterRequest → WorkerNode
node_of request = record {
  id = request.worker_id;
  address = request.address;
  labels = request.labels;
  capabilities = request.capabilities;
  capacity = request.capacity;
  running_tasks = pos 0;
  last_heartbeat = 0;
  status = alive;
}

-- `Register`: whether the worker is accepted, and the registry, whose `Register` returns no error.
unfoldable pub register : ℕ → RegisterRequest → WorkerRegistry → Bool × WorkerRegistry
unfolding Registry.register
register now request r = (true, Registry.register now (node_of request) r)

-- `Heartbeat`: whether it is acknowledged, with no error then.
unfoldable pub heartbeat : ℕ → String → ℤ → WorkerRegistry → Bool × WorkerRegistry
unfolding Registry.heartbeat
heartbeat now worker_id running_tasks r = elim (Registry.heartbeat now worker_id running_tasks r) [
  | err missing ↦ (false, r)
  | ok r' ↦ (true, r')
]

-- The result that `ReportResult` makes of its request.
unfoldable pub result_of_request : ResultRequest → TaskResult
unfolding from_proto_task_status
result_of_request request = record {
  status = from_proto_task_status request.status;
  error = request.error;
  exit_code = request.exit_code;
  stdout = request.stdout;
  stderr = request.stderr;
  duration = request.duration;
}

unfoldable pub report_result : (ℤ → ℤ) → ℤ → ResultRequest → Engine → Result EngineError Engine
unfolding result_of_request on_task_response
report_result seconds now request e =
    on_task_response seconds now request.workflow_id request.task_id (result_of_request request) e

-- `Dispatch` of a worker: an error of `DispatchTask` is the answer `false`.
unfoldable pub dispatch :
    {Executor : Type 0}
    → Bool
    → DispatchRequest
    → WorkerService Executor
    → Bool × WorkerService Executor
unfolding dispatch_task
dispatch {Executor} has_room request ws =
    let (ws', failure) = dispatch_task Executor has_room request ws in
    elim failure [ none ↦ (true, ws') | some e ↦ (false, ws') ]

-- `CancelTasks` of a worker.
unfoldable pub cancel_tasks_answer : List String → InFlight → Map Bool × List ℕ
unfolding cancel_tasks
cancel_tasks_answer task_ids items = cancel_tasks task_ids items
