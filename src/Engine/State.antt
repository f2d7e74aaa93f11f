-- ===== src/Engine/State.antt =====
-- infrastructure/control-plane/engine/engine.go: the engine's data, status updates, ready tasks and
-- the end of a workflow.
use distributed_workflow_orc.Prelude.{
  Bool, true, false, not, ◌&&◌, ◌||◌, Option, none, some, List, [], ◌∷◌, ◌++◌, String, Map, lookup,
  insert, if◌then◌else◌,
}
use distributed_workflow_orc.Prelude.Int.{ℤ}
use distributed_workflow_orc.Domain.TaskStatus.{TaskStatus, TransitError}
use distributed_workflow_orc.Domain.WorkflowStatus
use distributed_workflow_orc.Domain.WorkflowStatus.{WorkflowStatus}
use distributed_workflow_orc.Domain.Task.{Task, is_ready, update_status}
use distributed_workflow_orc.Domain.Workflow.{
  Workflow, update_workflow_status, is_workflow_finished, all_tasks_finished, has_failed_task,
  has_cancelled_task, all_deps_succeeded,
}
use distributed_workflow_orc.Scheduler.Queue.{Job}

-- What is handed to `eventBus.Publish`. A timestamp is in seconds.
pub data Event : Type 0 where
  task_status_changed : (workflow_id task_id : String) → TaskStatus → ℤ → Event
  workflow_status_changed : (workflow_id : String) → WorkflowStatus → ℤ → Event

pub record RunningTaskRef : Type 0 where
  pub task_id : String
  pub worker_id : String

-- A handler's work on one workflow, under the engine's lock: the workflow, the events published,
-- the jobs pushed to the scheduler and the tasks that workers are to be told about, each in order.
pub record Work : Type 0 where
  pub wf : Workflow
  pub events : List Event
  pub jobs : List Job
  pub running : List RunningTaskRef

abbrev pub start : Workflow → Work
start w = record { wf = w; events = []; jobs = []; running = [] }

abbrev pub with_tasks : Map Task → Workflow → Workflow
with_tasks tasks w = record w { tasks = tasks }

-- `now` is the clock of the handler, in seconds.
module _ (now : ℤ) where
  abbrev pub announce_task : Task × Option TransitError → Task × List Event × Bool
  announce_task (t, some err) = (t, [], false)
  announce_task (t, none) = (t, task_status_changed t.workflow_id t.id t.status now ∷ [], true)

  -- `e.UpdateTaskStatus(ctx, task, newStatus)`: the task, what was published, and the answer.
  unfoldable pub update_task_status : TaskStatus → Task → Task × List Event × Bool
  unfolding update_status
  update_task_status new_status t = announce_task (update_status new_status t)

  abbrev pub announce_workflow : Workflow × Option TransitError → Workflow × List Event × Bool
  announce_workflow (w, some err) = (w, [], false)
  announce_workflow (w, none) = (w, workflow_status_changed w.id w.status now ∷ [], true)

  -- `e.UpdateWorkflowStatus(ctx, wf, newStatus)`, whose answer no caller reads.
  unfoldable pub set_workflow_status : WorkflowStatus → Work → Work
  unfolding update_workflow_status
  set_workflow_status new_status work =
      let (w, events, changed) = announce_workflow (update_workflow_status new_status work.wf) in
      record work { wf = w; events = work.events ++ events }

  -- Writes a task back under its key, with what the update published.
  abbrev pub put_task : String → Task → List Event → Work → Work
  put_task id t events work = record work {
    wf = with_tasks (insert id t work.wf.tasks) work.wf;
    events = work.events ++ events;
  }

-- `recomputeReadyTasks`: the loop over the entries `m` of the tasks `all`.
unfoldable pub recompute_ready_tasks : Map Task → Map Task → List String
recompute_ready_tasks all [] = []
recompute_ready_tasks all ((k, t) ∷ m) =
    let rest = recompute_ready_tasks all m in
    if not (is_ready t) || not (all_deps_succeeded t.depends_on all) then rest else t.id ∷ rest

-- `finalizeWorkflowIfDone`: the status of a workflow whose tasks are all finished.
unfoldable pub final_status : Map Task → WorkflowStatus
final_status tasks =
    if has_failed_task tasks
    then WorkflowStatus.failed
    else if has_cancelled_task tasks
    then WorkflowStatus.cancelled
    else WorkflowStatus.succeeded

unfoldable pub finalize_workflow_if_done : ℤ → Work → Work
unfolding final_status set_workflow_status
finalize_workflow_if_done now work =
    if is_workflow_finished work.wf || not (all_tasks_finished work.wf.tasks)
    then work
    else set_workflow_status now (final_status work.wf.tasks) work

abbrev pub any_ready : List String → Bool
any_ready [] = false
any_ready (id ∷ ids) = true

-- The test at the head of `markReadyTasks`.
unfoldable pub start_running : ℤ → List String → Work → Work
unfolding set_workflow_status
start_running now ready work =
    if any_ready ready && WorkflowStatus.is_status work.wf.status WorkflowStatus.pending
    then set_workflow_status now WorkflowStatus.running work
    else work

-- `seconds` is `int64(d.Seconds())` of a duration.
module _ (seconds : ℤ → ℤ) where
  -- The job that `pushJob` hands to the scheduler.
  unfoldable pub job_of : Task → Job
  job_of t = record {
    id = t.id;
    workflow_id = t.workflow_id;
    request = record {
      task_id = t.id;
      workflow_id = t.workflow_id;
      type = t.spec.type;
      payload = t.spec.payload;
      timeout_seconds = seconds t.timeout;
    };
    on_dispatched = some (record { workflow_id = t.workflow_id; task_id = t.id });
  }

  unfoldable pub push_job : Task → Work → Work
  unfolding job_of
  push_job t work = record work { jobs = work.jobs ++ job_of t ∷ [] }

  -- The body of the loop of `markReadyTasks`. The job is pushed whatever the update answers.
  unfoldable pub mark_one : ℤ → String → Work → Work
  unfolding update_task_status push_job
  mark_one now id work = elim (lookup id work.wf.tasks) [
    | none ↦ work
    | some t ↦
        let (t', events, changed) = update_task_status now TaskStatus.ready t in
        push_job t' (put_task now id t' events work)
  ]

  unfoldable pub mark_all : ℤ → List String → Work → Work
  unfolding mark_one
  mark_all now [] work = work
  mark_all now (id ∷ ids) work = mark_all now ids (mark_one now id work)

  unfoldable pub mark_ready_tasks : ℤ → Work → Work
  unfolding recompute_ready_tasks start_running mark_all
  mark_ready_tasks now work =
      let ready = recompute_ready_tasks work.wf.tasks work.wf.tasks in
      mark_all now ready (start_running now ready work)
