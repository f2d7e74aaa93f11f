-- ===== src/Engine/Effects.antt =====
-- infrastructure/control-plane/engine/engine.go: the outcomes of `CancelWorkflow` and
-- `ReassignDeadWorkerTasks`.
use distributed_workflow_orc.Prelude.{
  sym, some-injective, ◌≡◌, ◌≢◌, refl, subst, ◌∙◌, inl, inr, true, false, [], ◌∷◌, ◌++◌, List,
  String, Map, lookup, some, Bool, arith, Bool-cases, Option-cases, if◌then◌else◌, ap, ◌==◌, ◌&&◌,
  eq_refl, eq_iff, insert, map,
}
use distributed_workflow_orc.Prelude.Int.{ℤ}
use distributed_workflow_orc.Prelude.Maps.{AllValues-lookup, lookup-insert}
use distributed_workflow_orc.Prelude.Results.{ok_injective, err-ne-ok, ok}
use mathlib.Core.Option
use mathlib.Core.Option.{none-ne-some}
use distributed_workflow_orc.Domain.TaskStatus
use distributed_workflow_orc.Domain.Dag.{lookup-before}
use distributed_workflow_orc.Domain.Task.{Task, is_finished}
use distributed_workflow_orc.Domain.Workflow.{Workflow}
use distributed_workflow_orc.Engine.State.{
  Event, task_status_changed, start, with_tasks, update_task_status, job_of,
}
use distributed_workflow_orc.Engine.Cancel.{is_at_worker}
use distributed_workflow_orc.Engine.Handlers.{
  Engine, cancel_workflow, cancel_workflow_work, reassign_one, reassign_tasks, reassign_workflows,
  reassign_dead_worker_tasks, commit, notify,
}
use distributed_workflow_orc.Engine.WellFormed.{IsWellFormed}
use distributed_workflow_orc.Engine.WellFormed.Cancellation.{
  map_values-cancel_finishes, cancel_workflow_work-tasks,
}
use distributed_workflow_orc.Engine.WellFormed.Movement.{reassign, reassign_tasks-map_values}
use distributed_workflow_orc.Engine.Reachable.{Reachable, Reachable-AllWellFormed}

-- Whether a worker has a task: it is assigned to it, and DISPATCHED or RUNNING.
abbrev pub is_held_by : String → Task → Bool
is_held_by worker_id t =
    t.assigned_to == worker_id
    && elim t.status [ TaskStatus.dispatched ↦ true | TaskStatus.running ↦ true | _ ↦ false ]

-- The tasks that a worker has, of one workflow and of all, in the order of a visit.
abbrev pub held_by : String → Map Task → List Task
held_by worker_id [] = []
held_by worker_id ((k, t) ∷ m) =
    let rest = held_by worker_id m in if is_held_by worker_id t then t ∷ rest else rest

abbrev pub held_in : String → Map Workflow → List Task
held_in worker_id [] = []
held_in worker_id ((k, w) ∷ m) = held_by worker_id w.tasks ++ held_in worker_id m

abbrev pub ready_event : ℤ → Task → Event
ready_event now t = task_status_changed t.workflow_id t.id TaskStatus.ready now

map-append : {A B : Type 0} (f : A → B) (xs ys : List A) → map f (xs ++ ys) ≡ map f xs ++ map f ys
map-append f [] ys = refl
map-append f (x ∷ xs) ys = ap (λ zs. f x ∷ zs) (map-append f xs ys)

module _ (seconds : ℤ → ℤ) (now : ℤ) where
  -- From any state that the handlers lead to, `CancelWorkflow` that returns no error leaves every
  -- task of the workflow finished.
  pub cancel_workflow-finishes :
      (e e' : Engine) (id u : String) (w : Workflow) (t : Task)
      → Reachable seconds e
      → cancel_workflow seconds now id e ≡ ok e'
      → lookup id e'.workflows ≡ some w
      → lookup u w.tasks ≡ some t
      → is_finished t ≡ true
  unfolding cancel_workflow commit notify
  cancel_workflow-finishes e e' id u w t reachable answer after found =
      elim (Option-cases (lookup id e.workflows)) [
        | inl missing ↦ absurd (err-ne-ok _ e' (rw (missing, cancel_workflow) at answer))
        | inr (v, known) ↦
            let work = cancel_workflow_work seconds now (start v) in
            let good =
              AllValues-lookup IsWellFormed id e.workflows
                (Reachable-AllWellFormed seconds e reachable) known in
            let result = ok_injective _ e' (rw (known, cancel_workflow) at answer) in
            let stored : lookup id (insert id work.wf e.workflows) ≡ some w =
              subst (λ (z : Engine). lookup id z.workflows ≡ some w) (sym result) after in
            let same : work.wf ≡ w =
              some-injective work.wf w
                (rw (lookup-insert id id work.wf e.workflows, eq_refl id) at stored) in
            let tasks =
              ap (λ (z : Workflow). z.tasks) (sym same)
              ∙ cancel_workflow_work-tasks seconds now v in
            map_values-cancel_finishes v.tasks good.sound u t
              (subst (λ m. lookup u m ≡ some t) tasks found)
      ]

  lookup-reassign_workflows :
      (worker_id id : String) (m : Map Workflow)
      → lookup id (reassign_workflows seconds now worker_id m).0
        ≡ Option.map
            (λ w. with_tasks (reassign_tasks seconds now worker_id w.tasks).0 w)
            (lookup id m)
  unfolding reassign_workflows
  lookup-reassign_workflows worker_id id [] = refl
  lookup-reassign_workflows worker_id id ((k, w) ∷ m) =
      ground (arith, lookup-reassign_workflows worker_id id m)

  reassign-leaves :
      (worker_id : String) (t : Task)
      → ("" == worker_id) ≡ false
      → ((reassign worker_id t).assigned_to == worker_id) ≡ true
      → is_at_worker (reassign worker_id t) ≡ false
  reassign-leaves worker_id t named held =
      elim (Bool-cases (t.assigned_to == worker_id && is_at_worker t)) [
        | inl taken ↦ absurd (cc (named, rw (taken, reassign) at held))
        | inr other ↦ rw (other, reassign) (ground (arith, rw (other, reassign) at held))
      ]

  -- After `ReassignDeadWorkerTasks` of a worker with a name, no task of any workflow that is assigned
  -- to it is DISPATCHED or RUNNING.
  pub reassign_dead_worker_tasks-leaves_none :
      (worker_id : String) (e : Engine) (id u : String) (w : Workflow) (t : Task)
      → worker_id ≢ ""
      → lookup id (reassign_dead_worker_tasks seconds now worker_id e).workflows ≡ some w
      → lookup u w.tasks ≡ some t
      → t.assigned_to ≡ worker_id
      → is_at_worker t ≡ false
  unfolding reassign_dead_worker_tasks
  reassign_dead_worker_tasks-leaves_none worker_id e id u w t named known found assigned =
      elim (Option-cases (lookup id e.workflows)) [
        | inl missing ↦
            absurd
              (none-ne-some w (ground (arith, lookup-reassign_workflows worker_id id e.workflows)))
        | inr (v, before) ↦
            let same : w ≡ with_tasks (reassign_tasks seconds now worker_id v.tasks).0 v =
              ground (arith, lookup-reassign_workflows worker_id id e.workflows) in
            let tasks =
              ap (λ (z : Workflow). z.tasks) same
              ∙ reassign_tasks-map_values seconds now worker_id v.tasks in
            let (s, there, image) =
              lookup-before (reassign worker_id) (λ t. ground arith) (λ t. ground arith) u v.tasks t
                (subst (λ m. lookup u m ≡ some t) tasks found) in
            rw image (
              reassign-leaves worker_id s (ground (arith, eq_iff "" worker_id, named))
                (ground (arith, eq_iff t.assigned_to worker_id, image)))
      ]

  reassign_one-result :
      (worker_id : String) (t : Task)
      → (reassign_one seconds now worker_id t).1 ≡ (
          if is_held_by worker_id t
          then task_status_changed t.workflow_id t.id TaskStatus.ready now ∷ []
          else [])
        × ((reassign_one seconds now worker_id t).2
            ≡ (if is_held_by worker_id t then job_of seconds t ∷ [] else []))
  unfolding reassign_one update_task_status TaskStatus.can_transit_to is_at_worker job_of
  reassign_one-result worker_id t = ground arith

  -- Over the tasks of one workflow.
  reassign_tasks-result :
      (worker_id : String) (m : Map Task)
      → ((reassign_tasks seconds now worker_id m).1 ≡ map (ready_event now) (held_by worker_id m))
        × ((reassign_tasks seconds now worker_id m).2 ≡ map (job_of seconds) (held_by worker_id m))
  unfolding reassign_tasks
  reassign_tasks-result worker_id [] = (refl, refl)
  reassign_tasks-result worker_id ((k, t) ∷ m) =
      let (events, jobs) = reassign_tasks-result worker_id m in
      let (event, job) = reassign_one-result worker_id t in
      elim (Bool-cases (is_held_by worker_id t)) [
        | inl held ↦ (rw (event, events, held) refl, rw (job, jobs, held) refl)
        | inr other ↦ (rw (event, events, other) refl, rw (job, jobs, other) refl)
      ]

  reassign_workflows-result :
      (worker_id : String) (m : Map Workflow)
      → ((reassign_workflows seconds now worker_id m).1
          ≡ map (ready_event now) (held_in worker_id m))
        × ((reassign_workflows seconds now worker_id m).2
            ≡ map (job_of seconds) (held_in worker_id m))
  unfolding reassign_workflows
  reassign_workflows-result worker_id [] = (refl, refl)
  reassign_workflows-result worker_id ((k, w) ∷ m) =
      let (events, jobs) = reassign_workflows-result worker_id m in
      let (own_events, own_jobs) = reassign_tasks-result worker_id w.tasks in
      (
        rw (own_events, events)
            (sym (map-append (ready_event now) (held_by worker_id w.tasks) (held_in worker_id m))),
        rw (own_jobs, jobs)
            (sym (map-append (job_of seconds) (held_by worker_id w.tasks) (held_in worker_id m))),
      )

  -- `ReassignDeadWorkerTasks` pushes one job to the scheduler for each task, of any workflow, that was
  -- assigned to the worker and DISPATCHED or RUNNING, and publishes that it is READY, in the order in
  -- which it visits them; it pushes and publishes nothing else, and tells no worker anything.
  pub reassign_dead_worker_tasks-jobs :
      (worker_id : String) (e : Engine)
      → let after = reassign_dead_worker_tasks seconds now worker_id e in
        let held = held_in worker_id e.workflows in
        (after.pushed ≡ e.pushed ++ map (job_of seconds) held)
        × (after.published ≡ e.published ++ map (ready_event now) held)
        × (after.notified ≡ e.notified)
  unfolding reassign_dead_worker_tasks
  reassign_dead_worker_tasks-jobs worker_id e =
      let (events, jobs) = reassign_workflows-result worker_id e.workflows in
      (ap (λ js. e.pushed ++ js) jobs, ap (λ es. e.published ++ es) events, refl)
