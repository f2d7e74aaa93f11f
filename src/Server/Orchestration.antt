-- ===== src/Server/Orchestration.antt =====
-- infrastructure/control-plane/server/grpc_orchestration_server.go: the handlers that users call. An
-- error is its code, and what the message says is left out.
use distributed_workflow_orc.Prelude.{
  ℕ, Bool, not, Option, none, some, List, [], ◌∷◌, String, Map, if◌then◌else◌,
}
use distributed_workflow_orc.Prelude.Int.{ℤ, pos, wrap_ℤ, of_seconds}
use distributed_workflow_orc.Prelude.Results.{Result, ok, err}
use distributed_workflow_orc.Domain.TaskStatus
use distributed_workflow_orc.Domain.WorkflowStatus
use distributed_workflow_orc.Domain.Task.{Task}
use distributed_workflow_orc.Domain.Workflow.{Workflow, is_workflow_finished}
use distributed_workflow_orc.Domain.Build.{new_workflow}
use distributed_workflow_orc.Engine.State.{Event}
use distributed_workflow_orc.Engine.Handlers.{
  Engine, submit_workflow, get_workflow, cancel_workflow, cancel_task,
}
use distributed_workflow_orc.Events.Stream.{WorkflowEvent, snapshot_to_event, stream_events}

pub data Code : Type 0 where
  invalid_argument not_found internal unknown_code : Code

-- A task of `protogen.SubmitWorkflowRequest`; the payload is its text.
pub record TaskSubmission : Type 0 where
  pub name : String
  pub type : String
  pub payload : String
  pub depends_on : List String
  pub max_retries : ℤ
  pub retry_backoff_seconds : ℤ
  pub timeout_seconds : ℤ

unfoldable pub domain_task : TaskSubmission → Task
domain_task task = record {
  id = "";
  workflow_id = "";
  name = task.name;
  depends_on = task.depends_on;
  spec = record { type = task.type; payload = task.payload };
  max_retries = task.max_retries;
  retry_backoff = of_seconds task.retry_backoff_seconds;
  timeout = of_seconds task.timeout_seconds;
  status = TaskStatus.pending;
  assigned_to = "";
  attempt = pos 0;
  result = none;
  created_at = pos 0;
  updated_at = pos 0;
}

-- The loop over the tasks of the request.
abbrev pub domain_tasks : List TaskSubmission → List Task
domain_tasks [] = []
domain_tasks (task ∷ tasks) = domain_task task ∷ domain_tasks tasks

-- `protogen.TaskStatusInfo` and `protogen.WorkflowStatusResponse`.
pub record TaskStatusInfo : Type 0 where
  pub id : String
  pub name : String
  pub status : String
  pub assigned_to : String
  pub attempt : ℤ
  pub error : String

pub record WorkflowStatusResponse : Type 0 where
  pub workflow_id : String
  pub name : String
  pub status : String
  pub tasks : List TaskStatusInfo

unfoldable pub task_response : Task → TaskStatusInfo
unfolding TaskStatus.to_string
task_response t = record {
  id = t.id;
  name = t.name;
  status = TaskStatus.to_string t.status;
  assigned_to = t.assigned_to;
  attempt = wrap_ℤ 31 t.attempt;
  error = elim t.result [ none ↦ "" | some result ↦ result.error ];
}

abbrev pub task_responses : Map Task → List TaskStatusInfo
task_responses [] = []
task_responses ((k, t) ∷ m) = task_response t ∷ task_responses m

unfoldable pub workflow_response : Workflow → WorkflowStatusResponse
unfolding task_response WorkflowStatus.to_string
workflow_response w = record {
  workflow_id = w.id;
  name = w.name;
  status = WorkflowStatus.to_string w.status;
  tasks = task_responses w.tasks;
}

-- `GetWorkflow`.
unfoldable pub get_workflow_answer : String → Engine → Result Code WorkflowStatusResponse
unfolding get_workflow workflow_response
get_workflow_answer workflow_id e = elim (get_workflow workflow_id e) [
  | err missing ↦ err not_found
  | ok w ↦ ok (workflow_response w)
]

-- What a stream sends, and how it returns: `none` is no error. `first_sent` tells that the snapshot
-- was sent, `subscribed` the answer of the bus, and `events` are those that the handler puts into its
-- channel until the client goes.
unfoldable pub stream_workflow_events :
    ℤ → String → Bool → Bool → List Event → Engine → List WorkflowEvent × Option Code
unfolding get_workflow is_workflow_finished snapshot_to_event stream_events
stream_workflow_events now wf_id first_sent subscribed events e = elim (get_workflow wf_id e) [
  | err missing ↦ ([], some not_found)
  | ok w ↦
      if is_workflow_finished w
      then ([], none)
      else if not first_sent
      then ([], some internal)
      else if not subscribed
      then (snapshot_to_event now w ∷ [], some unknown_code)
      else (snapshot_to_event now w ∷ (stream_events wf_id events).0, none)
]

-- `now` is the clock in seconds, `seconds d` is `int64(d.Seconds())`, and `new_uuid n` the answer of
-- the n-th call of `uuid.NewString()`.
module _ (new_uuid : ℕ → String) (seconds : ℤ → ℤ) (now : ℤ) where
  -- `SubmitWorkflow`, whose first call of `uuid.NewString()` is the n-th. The engine's
  -- `SubmitWorkflow` returns no error.
  unfoldable pub submit_workflow_answer :
      ℕ → String → List TaskSubmission → Engine → Result Code (String × Engine)
  unfolding domain_task new_workflow submit_workflow
  submit_workflow_answer n name tasks e =
      elim (new_workflow new_uuid now n "admin" name (domain_tasks tasks)) [
        | err failure ↦ err invalid_argument
        | ok w ↦ let (e', id) = submit_workflow seconds now w e in ok (id, e')
      ]

  -- `CancelWorkflow` and `CancelTask`; every error of the engine is answered `NotFound`.
  unfoldable pub cancel_workflow_answer : String → Engine → Result Code Engine
  unfolding cancel_workflow
  cancel_workflow_answer workflow_id e = elim (cancel_workflow seconds now workflow_id e) [
    | err failure ↦ err not_found
    | ok e' ↦ ok e'
  ]

  unfoldable pub cancel_task_answer : String → Engine → Result Code Engine
  unfolding cancel_task
  cancel_task_answer task_id e = elim (cancel_task seconds now task_id e) [
    | err failure ↦ err not_found
    | ok e' ↦ ok e'
  ]
