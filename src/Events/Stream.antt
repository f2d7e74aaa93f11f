-- ===== src/Events/Stream.antt =====
-- infrastructure/control-plane/server/grpc_orchestration_server.go and infrastructure/control-plane/
-- events: what a client that follows one workflow is sent.
use distributed_workflow_orc.Prelude.{
  ◌||◌, Bool, true, false, not, List, [], ◌∷◌, ◌++◌, String, if◌then◌else◌, ◌==◌,
}
use distributed_workflow_orc.Prelude.Int.{ℤ}
use distributed_workflow_orc.Domain.TaskStatus
use distributed_workflow_orc.Domain.WorkflowStatus
use distributed_workflow_orc.Domain.WorkflowStatus.{WorkflowStatus}
use distributed_workflow_orc.Domain.Workflow.{Workflow}
use distributed_workflow_orc.Engine.State.{Event, task_status_changed, workflow_status_changed}

-- `protogen.WorkflowEvent`.
pub record WorkflowEvent : Type 0 where
  pub workflow_id : String
  pub task_id : String
  pub status : String
  pub timestamp : ℤ

-- The two methods `ToProto`.
unfoldable pub to_proto : Event → WorkflowEvent
unfolding TaskStatus.to_string WorkflowStatus.to_string
to_proto (task_status_changed workflow_id task_id status timestamp) = record {
  workflow_id = workflow_id;
  task_id = task_id;
  status = TaskStatus.to_string status;
  timestamp = timestamp;
}
to_proto (workflow_status_changed workflow_id status timestamp) = record {
  workflow_id = workflow_id;
  task_id = "";
  status = WorkflowStatus.to_string status;
  timestamp = timestamp;
}

unfoldable pub snapshot_to_event : ℤ → Workflow → WorkflowEvent
unfolding WorkflowStatus.to_string
snapshot_to_event now w = record {
  workflow_id = w.id;
  task_id = "";
  status = WorkflowStatus.to_string w.status;
  timestamp = now;
}

-- `sendWorkflowEvent`: what is sent, and whether the stream ends.
unfoldable pub send_workflow_event : String → Event → List WorkflowEvent × Bool
unfolding WorkflowStatus.is_terminated to_proto
send_workflow_event wf_id (workflow_status_changed workflow_id status timestamp) =
    if WorkflowStatus.is_terminated status
    then ([], true)
    else if not (workflow_id == wf_id)
    then ([], false)
    else (to_proto (workflow_status_changed workflow_id status timestamp) ∷ [], false)
send_workflow_event wf_id (task_status_changed workflow_id task_id status timestamp) =
    (to_proto (task_status_changed workflow_id task_id status timestamp) ∷ [], false)

-- The loop of `StreamWorkflowEvents` over the events that its subscriber gets.
unfoldable pub stream_events : String → List Event → List WorkflowEvent × Bool
unfolding send_workflow_event
stream_events wf_id [] = ([], false)
stream_events wf_id (ev ∷ events) =
    let (sent, ends) = send_workflow_event wf_id ev in
    let (rest, ended) = stream_events wf_id events in
    if ends then (sent, true) else (sent ++ rest, ended)

-- Whether an event says that a workflow, any workflow, has terminated.
abbrev pub is_end : Event → Bool
is_end (workflow_status_changed workflow_id status timestamp) = WorkflowStatus.is_terminated status
is_end (task_status_changed workflow_id task_id status timestamp) = false

abbrev pub ends_any : List Event → Bool
ends_any [] = false
ends_any (ev ∷ events) = is_end ev || ends_any events

abbrev pub before_end : List Event → List Event
before_end [] = []
before_end (ev ∷ events) = let rest = before_end events in if is_end ev then [] else ev ∷ rest

-- What a client of the workflow `wf_id` is shown: its workflow's events, and those of every task.
abbrev pub is_shown : String → Event → Bool
is_shown wf_id (workflow_status_changed workflow_id status timestamp) = workflow_id == wf_id
is_shown wf_id (task_status_changed workflow_id task_id status timestamp) = true

abbrev pub shown : String → List Event → List WorkflowEvent
shown wf_id [] = []
shown wf_id (ev ∷ events) =
    let rest = shown wf_id events in if is_shown wf_id ev then to_proto ev ∷ rest else rest
