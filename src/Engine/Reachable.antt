-- ===== src/Engine/Reachable.antt =====
-- infrastructure/control-plane/engine/engine.go: every state that the handlers can lead to. They run
-- under one lock, so an execution is a sequence of them, each with a clock of its own.
use distributed_workflow_orc.Prelude.{
  some-injective, ◌≡◌, subst, ◌∙◌, inl, inr, [], ◌∷◌, String, Map, lookup, some, Bool, Bool-cases,
  Option-cases, AllValues, ap,
}
use distributed_workflow_orc.Prelude.Int.{ℤ}
use distributed_workflow_orc.Prelude.Maps.{AllValues-insert, AllValues-lookup}
use distributed_workflow_orc.Prelude.Results.{ok, ok_injective, err-ne-ok}
use distributed_workflow_orc.Domain.Task.{Task, TaskResult, is_finished}
use distributed_workflow_orc.Domain.Workflow.{Workflow}
use distributed_workflow_orc.Scheduler.Queue.{TaskRef}
use distributed_workflow_orc.Engine.Handlers.{
  Engine, new_engine, find_task, submit_workflow, on_task_response, on_task_dispatched,
  cancel_workflow, cancel_task, reassign_workflows, reassign_dead_worker_tasks, commit, notify,
}
use distributed_workflow_orc.Engine.WellFormed.{IsWellFormed}
use distributed_workflow_orc.Engine.WellFormed.Response.{response_work-IsWellFormed}
use distributed_workflow_orc.Engine.WellFormed.Cancellation.{
  cancel_workflow_work-IsWellFormed, cancel_task_work-IsWellFormed,
}
use distributed_workflow_orc.Engine.WellFormed.Movement.{
  dispatched_work-IsWellFormed, reassign-IsWellFormed,
}
use distributed_workflow_orc.Engine.WellFormed.Submission.{IsNew, submit_work-IsWellFormed}

module _ (seconds : ℤ → ℤ) where
  -- One handler, or the answer of one that changed something.
  pub data Step (e : Engine) : Engine → Type 0 where
    submitted : (now : ℤ) (w : Workflow) → IsNew w → Step e (submit_workflow seconds now w e).0
    responded :
        {e' : Engine} (now : ℤ) (workflow_id task_id : String) (result : TaskResult)
        → on_task_response seconds now workflow_id task_id result e ≡ ok e'
        → Step e e'
    was_dispatched :
        (now : ℤ) (ref : TaskRef) (worker_id : String)
        → Step e (on_task_dispatched seconds now ref worker_id e)
    workflow_cancelled :
        {e' : Engine} (now : ℤ) (workflow_id : String)
        → cancel_workflow seconds now workflow_id e ≡ ok e'
        → Step e e'
    task_cancelled :
        {e' : Engine} (now : ℤ) (task_id : String)
        → cancel_task seconds now task_id e ≡ ok e'
        → Step e e'
    reassigned :
        (now : ℤ) (worker_id : String) → Step e (reassign_dead_worker_tasks seconds now worker_id e)

  pub data Reachable : Engine → Type 0 where
    created : (has_notifier : Bool) → Reachable (new_engine has_notifier)
    later : {e e' : Engine} → Reachable e → Step e e' → Reachable e'

  abbrev AllWellFormed : Engine → Type 0
  AllWellFormed e = AllValues IsWellFormed e.workflows

  reassign_workflows-IsWellFormed :
      (now : ℤ) (worker_id : String) (m : Map Workflow)
      → AllValues IsWellFormed m
      → AllValues IsWellFormed (reassign_workflows seconds now worker_id m).0
  unfolding reassign_workflows
  reassign_workflows-IsWellFormed now worker_id [] h = tt
  reassign_workflows-IsWellFormed now worker_id ((k, w) ∷ m) h = (
    reassign-IsWellFormed seconds now worker_id w h.0,
    reassign_workflows-IsWellFormed now worker_id m h.1,
  )

  find_task-IsWellFormed :
      (task_id k : String) (w : Workflow) (t : Task) (m : Map Workflow)
      → find_task task_id m ≡ some (k, w, t)
      → AllValues IsWellFormed m
      → (lookup task_id w.tasks ≡ some t) × IsWellFormed w
  unfolding find_task
  find_task-IsWellFormed task_id k w t [] e h = absurd (cc)
  find_task-IsWellFormed task_id k w t ((j, v) ∷ m) e h =
      elim (Option-cases (lookup task_id v.tasks)) [
        | inl missing ↦ find_task-IsWellFormed task_id k w t m (rw (missing, find_task) at e) h.1
        | inr (s, found) ↦
            let same = some-injective _ _ (rw (found, find_task) at e) in
            let same_workflow : v ≡ w = ap (λ p. p.1) same in
            let same_task : s ≡ t = ap (λ p. p.2) same in
            (
              subst (λ (z : Workflow). lookup task_id z.tasks ≡ some t) same_workflow
                  (found ∙ ap some same_task),
              subst IsWellFormed same_workflow h.0,
            )
      ]

  responded-IsWellFormed :
      (now : ℤ) (workflow_id task_id : String) (result : TaskResult) (e e' : Engine)
      → on_task_response seconds now workflow_id task_id result e ≡ ok e'
      → AllWellFormed e
      → AllWellFormed e'
  unfolding on_task_response commit
  responded-IsWellFormed now workflow_id task_id result e e' answer h =
      elim (Option-cases (lookup workflow_id e.workflows)) [
        | inl missing ↦ absurd (err-ne-ok _ e' (rw (missing, on_task_response) at answer))
        | inr (w, found) ↦ elim (Option-cases (lookup task_id w.tasks)) [
          | inl missing ↦ absurd (err-ne-ok _ e' (rw (found, missing, on_task_response) at answer))
          | inr (t, there) ↦
              subst AllWellFormed
                (ok_injective _ e' (rw (found, there, on_task_response) at answer))
                (AllValues-insert IsWellFormed workflow_id _ e.workflows
                  (response_work-IsWellFormed seconds now task_id result t w there
                    (AllValues-lookup IsWellFormed workflow_id e.workflows h found))
                  h)
        ]
      ]

  dispatched-IsWellFormed :
      (now : ℤ) (ref : TaskRef) (worker_id : String) (e : Engine)
      → AllWellFormed e
      → AllWellFormed (on_task_dispatched seconds now ref worker_id e)
  unfolding on_task_dispatched commit
  dispatched-IsWellFormed now ref worker_id e h =
      elim (Option-cases (lookup ref.workflow_id e.workflows)) [
        | inl missing ↦ rw (missing, on_task_dispatched) h
        | inr (w, found) ↦ elim (Option-cases (lookup ref.task_id w.tasks)) [
          | inl missing ↦ rw (found, missing, on_task_dispatched) h
          | inr (t, there) ↦
              rw (found, there, on_task_dispatched)
                (AllValues-insert IsWellFormed ref.workflow_id _ e.workflows
                  (dispatched_work-IsWellFormed seconds now ref.task_id worker_id t w there
                    (AllValues-lookup IsWellFormed ref.workflow_id e.workflows h found))
                  h)
        ]
      ]

  workflow_cancelled-IsWellFormed :
      (now : ℤ) (workflow_id : String) (e e' : Engine)
      → cancel_workflow seconds now workflow_id e ≡ ok e'
      → AllWellFormed e
      → AllWellFormed e'
  unfolding cancel_workflow commit notify
  workflow_cancelled-IsWellFormed now workflow_id e e' answer h =
      elim (Option-cases (lookup workflow_id e.workflows)) [
        | inl missing ↦ absurd (err-ne-ok _ e' (rw (missing, cancel_workflow) at answer))
        | inr (w, found) ↦
            subst AllWellFormed (ok_injective _ e' (rw (found, cancel_workflow) at answer)) (
              AllValues-insert IsWellFormed workflow_id _ e.workflows
                (cancel_workflow_work-IsWellFormed seconds now w
                  (AllValues-lookup IsWellFormed workflow_id e.workflows h found))
                h)
      ]

  task_cancelled-IsWellFormed :
      (now : ℤ) (task_id : String) (e e' : Engine)
      → cancel_task seconds now task_id e ≡ ok e'
      → AllWellFormed e
      → AllWellFormed e'
  unfolding cancel_task commit notify
  task_cancelled-IsWellFormed now task_id e e' answer h =
      elim (Option-cases (find_task task_id e.workflows)) [
        | inl missing ↦ absurd (err-ne-ok _ e' (rw (missing, cancel_task) at answer))
        | inr ((k, w, t), found) ↦ elim (Bool-cases (is_finished t)) [
          | inl done ↦ absurd (err-ne-ok _ e' (rw (found, done, cancel_task) at answer))
          | inr left ↦
              let (there, good) = find_task-IsWellFormed task_id k w t e.workflows found h in
              subst AllWellFormed (ok_injective _ e' (rw (found, left, cancel_task) at answer)) (
                AllValues-insert IsWellFormed k _ e.workflows
                  (cancel_task_work-IsWellFormed seconds now task_id t w there good) h)
        ]
      ]

  -- A handler that starts from well-formed workflows leaves well-formed workflows.
  pub Step-IsWellFormed : (e e' : Engine) → Step e e' → AllWellFormed e → AllWellFormed e'
  unfolding submit_workflow commit reassign_dead_worker_tasks
  Step-IsWellFormed e _ (submitted now w fresh) h =
      AllValues-insert IsWellFormed w.id _ e.workflows
        (submit_work-IsWellFormed seconds now w fresh) h
  Step-IsWellFormed e e' (responded now workflow_id task_id result answer) h =
      responded-IsWellFormed now workflow_id task_id result e e' answer h
  Step-IsWellFormed e _ (was_dispatched now ref worker_id) h =
      dispatched-IsWellFormed now ref worker_id e h
  Step-IsWellFormed e e' (workflow_cancelled now workflow_id answer) h =
      workflow_cancelled-IsWellFormed now workflow_id e e' answer h
  Step-IsWellFormed e e' (task_cancelled now task_id answer) h =
      task_cancelled-IsWellFormed now task_id e e' answer h
  Step-IsWellFormed e _ (reassigned now worker_id) h =
      reassign_workflows-IsWellFormed now worker_id e.workflows h

  pub Reachable-AllWellFormed : (e : Engine) → Reachable e → AllWellFormed e
  unfolding new_engine
  Reachable-AllWellFormed _ (created has_notifier) = tt
  Reachable-AllWellFormed e' (later {e} before step) =
      Step-IsWellFormed e e' step (Reachable-AllWellFormed e before)
