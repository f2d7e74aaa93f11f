-- ===== src/Domain/Task.antt =====
-- common/domain/task.go. A status and a result are written only through the methods.
use Prim.Native.Nat.{ℕ}
use distributed_workflow_orc.Prelude.{Bool, ◌||◌, Option, none, some, List, String}
use distributed_workflow_orc.Prelude.Int.{ℤ}
use distributed_workflow_orc.Domain.TaskStatus.{
  TaskStatus, pending, running, succeeded, failed, retrying, cancelled, is_status, TransitError,
  can_transit_to,
}

-- `Payload`, a `json.RawMessage`, is its text.
pub record TaskSpec : Type 0 where
  pub type : String
  pub payload : String

-- `Duration` is in nanoseconds.
pub record TaskResult : Type 0 where
  pub status : TaskStatus
  pub exit_code : ℤ
  pub stdout : String
  pub stderr : String
  pub error : String
  pub duration : ℤ

-- Durations and times are in nanoseconds.
pub record Task : Type 0 where
  pub id : String
  pub workflow_id : String
  pub name : String
  pub depends_on : List String
  pub spec : TaskSpec
  pub max_retries : ℤ
  pub retry_backoff : ℤ
  pub timeout : ℤ
  pub status : TaskStatus
  pub assigned_to : String
  pub attempt : ℤ
  pub result : Option TaskResult
  pub created_at : ℤ
  pub updated_at : ℤ

unfoldable pub is_ready : Task → Bool
is_ready t = is_status t.status pending || is_status t.status retrying

unfoldable pub is_finished : Task → Bool
is_finished t =
    is_status t.status succeeded || is_status t.status failed || is_status t.status cancelled

-- `t.UpdateStatus(status)`: the task afterwards, and the error.
unfoldable pub update_status : TaskStatus → Task → Task × Option TransitError
update_status status t = elim (can_transit_to t.status status) [
  | some err ↦ (t, some err)
  | none ↦ (record t { status = status }, none)
]

abbrev pub set_result : TaskResult → Task → Task
set_result result t = record t { result = some result }

-- `protogen.TaskReportStatus`, with any value that it does not name.
pub data TaskReportStatus : Type 0 where
  report_running report_succeeded report_failed : TaskReportStatus
  other : ℕ → TaskReportStatus

unfoldable pub from_proto_task_status : TaskReportStatus → TaskStatus
from_proto_task_status report_running = running
from_proto_task_status report_failed = failed
from_proto_task_status report_succeeded = succeeded
from_proto_task_status _ = pending
