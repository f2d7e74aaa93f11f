-- ===== src/Engine/Cancel.antt =====
-- infrastructure/control-plane/engine/engine.go: cancelling tasks, what depends on them, and the
-- batches in which workers are told.
use distributed_workflow_orc.Prelude.{
  ℕ, zero, suc, Bool, not, ◌||◌, none, some, List, [], ◌∷◌, ◌++◌, String, Map, lookup, insert,
  length, contains, if◌then◌else◌,
}
use distributed_workflow_orc.Prelude.Int.{ℤ}
use distributed_workflow_orc.Domain.TaskStatus
use distributed_workflow_orc.Domain.TaskStatus.{TaskStatus}
use distributed_workflow_orc.Domain.Task.{Task, is_finished}
use distributed_workflow_orc.Engine.State.{
  Event, RunningTaskRef, Work, with_tasks, update_task_status,
}

-- DISPATCHED or RUNNING: a worker has it.
unfoldable pub is_at_worker : Task → Bool
is_at_worker t =
    TaskStatus.is_status t.status TaskStatus.dispatched
    || TaskStatus.is_status t.status TaskStatus.running

-- What a cancelled task adds to `running`.
unfoldable pub refs_of : Task → List RunningTaskRef
unfolding is_at_worker
refs_of t = if is_at_worker t then record { task_id = t.id; worker_id = t.assigned_to } ∷ [] else []

-- The outcome for one task, or for a pass over all.
pub record Pass : Type 0 where
  pub tasks : Map Task
  pub events : List Event
  pub running : List RunningTaskRef
  pub queue : List String

abbrev pub empty_pass : Pass
empty_pass = record { tasks = []; events = []; running = []; queue = [] }

abbrev pub keep : String → Task → Pass → Pass
keep k t p = record p { tasks = (k, t) ∷ p.tasks }

module _ (now : ℤ) where
  -- The inner body of `cancelDownstream`, for a task that depends on the id at hand.
  unfoldable pub cancel_task_into : String → Task → Pass → Pass
  unfolding update_task_status refs_of
  cancel_task_into k t p =
      let (t', events, changed) = update_task_status now TaskStatus.cancelled t in
      record {
        tasks = (k, t') ∷ p.tasks;
        events = events ++ p.events;
        running = refs_of t ++ p.running;
        queue = if changed then t.id ∷ p.queue else p.queue;
      }

  -- One round of the outer loop of `cancelDownstream`: the loop over `wf.Tasks` for `id`. The loop
  -- over `DependsOn` acts at the first entry that is `id`, and breaks.
  unfoldable pub cancel_pass : String → Map Task → Pass
  unfolding cancel_task_into
  cancel_pass id [] = empty_pass
  cancel_pass id ((k, t) ∷ m) =
      let p = cancel_pass id m in
      if is_finished t
      then keep k t p
      else if contains t.depends_on id
      then cancel_task_into k t p
      else keep k t p

  unfoldable pub cancel_round : String → List String → Pass → Pass
  unfolding cancel_pass
  cancel_round id rest c =
      let p = cancel_pass id c.tasks in
      record {
        tasks = p.tasks;
        events = c.events ++ p.events;
        running = c.running ++ p.running;
        queue = rest ++ p.queue;
      }

  -- `for len(queue) > 0`. With the fuel of `cancel_downstream` the queue runs empty.
  unfoldable pub cancel_loop : ℕ → Pass → Pass
  unfolding cancel_round
  cancel_loop zero c = c
  cancel_loop (suc fuel) c = elim c.queue [
    | [] ↦ c
    | id ∷ rest ↦ cancel_loop fuel (cancel_round id rest c)
  ]

  -- A round takes one id from the queue, and puts back one for each task that it cancels.
  unfoldable pub cascade : String → Map Task → Pass
  unfolding cancel_loop
  cascade root tasks =
      cancel_loop (suc (length tasks))
        (record { tasks = tasks; events = []; running = []; queue = root ∷ [] })

  unfoldable pub cancel_downstream : String → Work → Work
  unfolding cascade
  cancel_downstream root work =
      let c = cascade root work.wf.tasks in
      record work {
        wf = with_tasks c.tasks work.wf;
        events = work.events ++ c.events;
        running = work.running ++ c.running;
      }

  -- The loop of `CancelWorkflow`.
  unfoldable pub cancel_every : Map Task → Pass
  unfolding cancel_task_into
  cancel_every [] = empty_pass
  cancel_every ((k, t) ∷ m) =
      let p = cancel_every m in if is_finished t then keep k t p else cancel_task_into k t p

-- The first loop of `notifyWorkersOfCancellation`.
unfoldable pub group_by_worker : List RunningTaskRef → Map (List String) → Map (List String)
group_by_worker [] by_worker = by_worker
group_by_worker (r ∷ refs) by_worker = group_by_worker refs (elim (lookup r.worker_id by_worker) [
  | none ↦ insert r.worker_id (r.task_id ∷ []) by_worker
  | some ids ↦ insert r.worker_id (ids ++ r.task_id ∷ []) by_worker
])

-- `notifyWorkersOfCancellation`: the calls of `CancelTasks` that it starts, one for each worker.
unfoldable pub notify_workers_of_cancellation : Bool → List RunningTaskRef → Map (List String)
unfolding group_by_worker
notify_workers_of_cancellation has_notifier [] = []
notify_workers_of_cancellation has_notifier (r ∷ refs) =
    if not has_notifier then [] else group_by_worker (r ∷ refs) []
