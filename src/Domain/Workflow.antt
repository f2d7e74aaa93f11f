-- ===== src/Domain/Workflow.antt =====
-- common/domain/workflow.go: the graph of tasks, and the methods that ask about it.
use distributed_workflow_orc.Prelude.{
  Bool, true, false, not, ◌||◌, Option, none, some, List, [], ◌∷◌, String, Map, lookup,
  if◌then◌else◌,
}
use distributed_workflow_orc.Prelude.Int.{ℤ}
use distributed_workflow_orc.Domain.TaskStatus
use distributed_workflow_orc.Domain.TaskStatus.{TaskStatus, TransitError}
use distributed_workflow_orc.Domain.WorkflowStatus
use distributed_workflow_orc.Domain.WorkflowStatus.{WorkflowStatus}
use distributed_workflow_orc.Domain.Task.{Task, is_finished}

-- `Tasks` maps the id of a task to the task; the pointers behind it are shared with nothing else.
pub record Workflow : Type 0 where
  pub id : String
  pub tenant_id : String
  pub name : String
  pub tasks : Map Task
  pub status : WorkflowStatus
  pub created_at : ℤ
  pub updated_at : ℤ

unfoldable pub update_workflow_status : WorkflowStatus → Workflow → Workflow × Option TransitError
update_workflow_status status w = elim (WorkflowStatus.can_transit_to w.status status) [
  | some err ↦ (w, some err)
  | none ↦ (record w { status = status }, none)
]

unfoldable pub is_workflow_finished : Workflow → Bool
is_workflow_finished w =
    WorkflowStatus.is_status w.status WorkflowStatus.succeeded
    || WorkflowStatus.is_status w.status WorkflowStatus.failed
    || WorkflowStatus.is_status w.status WorkflowStatus.cancelled

-- The loops over `w.Tasks`, which return at the first entry that answers.
unfoldable pub all_tasks_finished : Map Task → Bool
all_tasks_finished [] = true
all_tasks_finished ((k, t) ∷ m) = if not (is_finished t) then false else all_tasks_finished m

unfoldable pub has_task_in : TaskStatus → Map Task → Bool
has_task_in s [] = false
has_task_in s ((k, t) ∷ m) = if TaskStatus.is_status t.status s then true else has_task_in s m

unfoldable pub has_failed_task : Map Task → Bool
unfolding has_task_in
has_failed_task = has_task_in TaskStatus.failed

unfoldable pub has_cancelled_task : Map Task → Bool
unfolding has_task_in
has_cancelled_task = has_task_in TaskStatus.cancelled

-- The body of `t.AllDepsSucceeded(wf)`, for the dependencies of `t` and the tasks of `wf`.
unfoldable pub all_deps_succeeded : List String → Map Task → Bool
all_deps_succeeded [] tasks = true
all_deps_succeeded (dep ∷ deps) tasks = elim (lookup dep tasks) [
  | none ↦ false
  | some t ↦
      if not (TaskStatus.is_status t.status TaskStatus.succeeded)
      then false
      else all_deps_succeeded deps tasks
]
