-- ===== src/Engine/Handlers.antt =====
-- infrastructure/control-plane/engine/engine.go: the handlers. Each runs under the engine's lock, so
-- an execution is a sequence of handlers; the calls of workers that a handler starts are its result.
use distributed_workflow_orc.Prelude.{
  Bool, not, ◌||◌, Option, none, some, List, [], ◌∷◌, ◌++◌, String, Map, lookup, insert,
  if◌then◌else◌, ◌==◌,
}
use distributed_workflow_orc.Prelude.Int.{ℤ}
use distributed_workflow_orc.Prelude.Results.{Result, ok, err}
use distributed_workflow_orc.Domain.TaskStatus
use distributed_workflow_orc.Domain.TaskStatus.{TaskStatus}
use distributed_workflow_orc.Domain.WorkflowStatus.{WorkflowStatus}
use distributed_workflow_orc.Domain.Task.{Task, TaskResult, is_finished, set_result}
use distributed_workflow_orc.Domain.Workflow.{Workflow}
use distributed_workflow_orc.Scheduler.Queue.{Job, TaskRef}
use distributed_workflow_orc.Engine.State.{
  Event, RunningTaskRef, Work, start, with_tasks, put_task, update_task_status, set_workflow_status,
  finalize_workflow_if_done, job_of, mark_ready_tasks,
}
use distributed_workflow_orc.Engine.Cancel.{
  is_at_worker, refs_of, cancel_downstream, cancel_every, notify_workers_of_cancellation,
}

-- `pushed` is what went to the scheduler, `published` what went to the event bus, and `notified` the
-- calls of `CancelTasks` that were started, each list in order.
pub record Engine : Type 0 where
  pub workflows : Map Workflow
  pub has_notifier : Bool
  pub pushed : List Job
  pub published : List Event
  pub notified : List (String × List String)

pub data EngineError : Type 0 where
  workflow_not_found task_not_found : String → EngineError
  already_terminal : String → TaskStatus → EngineError

unfoldable pub new_engine : Bool → Engine
new_engine has_notifier = record {
  workflows = [];
  has_notifier = has_notifier;
  pushed = [];
  published = [];
  notified = [];
}

-- The work on the workflow `id`, written back.
unfoldable pub commit : String → Work → Engine → Engine
commit id work e = record e {
  workflows = insert id work.wf e.workflows;
  pushed = e.pushed ++ work.jobs;
  published = e.published ++ work.events;
}

unfoldable pub notify : List RunningTaskRef → Engine → Engine
unfolding notify_workers_of_cancellation
notify refs e = record e {
  notified = e.notified ++ notify_workers_of_cancellation e.has_notifier refs;
}

unfoldable pub get_workflow : String → Engine → Result EngineError Workflow
get_workflow workflow_id e = elim (lookup workflow_id e.workflows) [
  | none ↦ err (workflow_not_found workflow_id)
  | some wf ↦ ok wf
]

-- `findTask`: the first workflow that has the task, under its key, and the task.
unfoldable pub find_task : String → Map Workflow → Option (String × Workflow × Task)
find_task task_id [] = none
find_task task_id ((k, wf) ∷ m) = elim (lookup task_id wf.tasks) [
  | some t ↦ some (k, wf, t)
  | none ↦ find_task task_id m
]

-- `now` is the clock in seconds, and `seconds d` is `int64(d.Seconds())`.
module _ (seconds : ℤ → ℤ) (now : ℤ) where
  unfoldable pub submit_work : Work → Work
  unfolding mark_ready_tasks
  submit_work work = mark_ready_tasks seconds now work

  unfoldable pub submit_workflow : Workflow → Engine → Engine × String
  unfolding submit_work commit
  submit_workflow wf e = (commit wf.id (submit_work (start wf)) e, wf.id)

  -- The `switch` of `OnTaskResponse`, for the task `t` under the key `id`.
  unfoldable pub respond_task : String → TaskResult → Task → Work → Work
  unfolding update_task_status cancel_downstream
  respond_task id result t work =
      let (t', events, changed) = update_task_status now result.status t in
      let with_result = put_task now id (set_result result t') events work in
      if TaskStatus.is_status result.status TaskStatus.failed
        || TaskStatus.is_status result.status TaskStatus.succeeded
      then (if not changed
          then work
          else if TaskStatus.is_status result.status TaskStatus.failed
          then cancel_downstream now t.id with_result
          else with_result)
      else if TaskStatus.is_status result.status TaskStatus.running
      then put_task now id t' events work
      else work

  -- `OnTaskResponse` on the workflow and the task that it names.
  unfoldable pub response_work : String → TaskResult → Task → Work → Work
  unfolding respond_task mark_ready_tasks finalize_workflow_if_done
  response_work id result t work =
      finalize_workflow_if_done now (mark_ready_tasks seconds now (respond_task id result t work))

  unfoldable pub on_task_response :
      String → String → TaskResult → Engine → Result EngineError Engine
  unfolding response_work commit
  on_task_response workflow_id task_id result e = elim (lookup workflow_id e.workflows) [
    | none ↦ err (workflow_not_found workflow_id)
    | some wf ↦ elim (lookup task_id wf.tasks) [
      | none ↦ err (task_not_found task_id)
      | some t ↦ ok (commit workflow_id (response_work task_id result t (start wf)) e)
    ]
  ]

  -- `OnTaskDispatched`, the closure of a job; the task that it captured is the one that `ref` names.
  unfoldable pub dispatched_work : String → String → Task → Work → Work
  unfolding update_task_status
  dispatched_work id worker_id t work =
      let (t', events, changed) =
        update_task_status now TaskStatus.dispatched (record t { assigned_to = worker_id }) in
      put_task now id t' events work

  unfoldable pub on_task_dispatched : TaskRef → String → Engine → Engine
  unfolding dispatched_work commit
  on_task_dispatched ref worker_id e = elim (lookup ref.workflow_id e.workflows) [
    | none ↦ e
    | some wf ↦ elim (lookup ref.task_id wf.tasks) [
      | none ↦ e
      | some t ↦ commit ref.workflow_id (dispatched_work ref.task_id worker_id t (start wf)) e
    ]
  ]

  unfoldable pub cancel_workflow_work : Work → Work
  unfolding cancel_every set_workflow_status
  cancel_workflow_work work =
      let p = cancel_every now work.wf.tasks in
      set_workflow_status now WorkflowStatus.cancelled (record work {
        wf = with_tasks p.tasks work.wf;
        events = work.events ++ p.events;
        running = work.running ++ p.running;
      })

  unfoldable pub cancel_workflow : String → Engine → Result EngineError Engine
  unfolding cancel_workflow_work commit notify
  cancel_workflow workflow_id e = elim (lookup workflow_id e.workflows) [
    | none ↦ err (workflow_not_found workflow_id)
    | some wf ↦
        let work = cancel_workflow_work (start wf) in
        ok (notify work.running (commit workflow_id work e))
  ]

  unfoldable pub cancel_task_work : String → Task → Work → Work
  unfolding update_task_status refs_of cancel_downstream finalize_workflow_if_done
  cancel_task_work id t work =
      let (t', events, changed) = update_task_status now TaskStatus.cancelled t in
      let cancelled =
        put_task now id t' events (record work { running = work.running ++ refs_of t }) in
      finalize_workflow_if_done now (cancel_downstream now t.id cancelled)

  unfoldable pub cancel_task : String → Engine → Result EngineError Engine
  unfolding find_task cancel_task_work commit notify
  cancel_task task_id e = elim (find_task task_id e.workflows) [
    | none ↦ err (task_not_found task_id)
    | some (k, wf, t) ↦
        if is_finished t
        then err (already_terminal task_id t.status)
        else (let work = cancel_task_work task_id t (start wf) in
            ok (notify work.running (commit k work e)))
  ]

  -- The loop of `ReassignDeadWorkerTasks` over the tasks of one workflow.
  unfoldable pub reassign_one : String → Task → Task × List Event × List Job
  unfolding is_at_worker update_task_status job_of
  reassign_one worker_id t =
      if not (t.assigned_to == worker_id)
      then (t, [], [])
      else if not (is_at_worker t)
      then (t, [], [])
      else (let (t', events, changed) =
            update_task_status now TaskStatus.ready (record t { assigned_to = "" }) in
          if not changed then (t', [], []) else (t', events, job_of seconds t' ∷ []))

  unfoldable pub reassign_tasks : String → Map Task → Map Task × List Event × List Job
  unfolding reassign_one
  reassign_tasks worker_id [] = ([], [], [])
  reassign_tasks worker_id ((k, t) ∷ m) =
      let (t', events, jobs) = reassign_one worker_id t in
      let (m', more_events, more_jobs) = reassign_tasks worker_id m in
      ((k, t') ∷ m', events ++ more_events, jobs ++ more_jobs)

  unfoldable pub reassign_workflows : String → Map Workflow → Map Workflow × List Event × List Job
  unfolding reassign_tasks
  reassign_workflows worker_id [] = ([], [], [])
  reassign_workflows worker_id ((k, wf) ∷ m) =
      let (tasks, events, jobs) = reassign_tasks worker_id wf.tasks in
      let (m', more_events, more_jobs) = reassign_workflows worker_id m in
      ((k, with_tasks tasks wf) ∷ m', events ++ more_events, jobs ++ more_jobs)

  unfoldable pub reassign_dead_worker_tasks : String → Engine → Engine
  unfolding reassign_workflows
  reassign_dead_worker_tasks worker_id e =
      let (workflows, events, jobs) = reassign_workflows worker_id e.workflows in
      record e {
        workflows = workflows;
        pushed = e.pushed ++ jobs;
        published = e.published ++ events;
      }
