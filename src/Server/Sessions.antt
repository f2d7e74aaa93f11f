-- ===== src/Server/Sessions.antt =====
-- infrastructure/control-plane/server: the calls that reach the engine, from users, from workers, and
-- from the scheduler and the registry. The engine runs them one at a time.
use distributed_workflow_orc.Prelude.{
  ℕ, ◌≡◌, refl, sym, subst, ◌⊎◌, inl, inr, Bool, List, [], ◌∷◌, String, All, AllValues,
}
use distributed_workflow_orc.Prelude.Int.{ℤ}
use distributed_workflow_orc.Prelude.Results.{Result, ok, err, Result-cases}
use distributed_workflow_orc.Domain.TaskStatus
use distributed_workflow_orc.Domain.Task.{Task}
use distributed_workflow_orc.Domain.Build.{new_workflow}
use distributed_workflow_orc.Scheduler.Queue.{TaskRef}
use distributed_workflow_orc.Engine.Handlers.{
  Engine, new_engine, on_task_response, on_task_dispatched, cancel_workflow, cancel_task,
  reassign_dead_worker_tasks,
}
use distributed_workflow_orc.Engine.Submitted.{new_workflow-IsNew}
use distributed_workflow_orc.Engine.WellFormed.{IsWellFormed}
use distributed_workflow_orc.Engine.Reachable.{
  Step, submitted, responded, was_dispatched, workflow_cancelled, task_cancelled, reassigned,
  Reachable, created, later, Reachable-AllWellFormed,
}
use distributed_workflow_orc.Worker.Executable.{ResultRequest}
use distributed_workflow_orc.Server.Cluster.{report_result, result_of_request}
use distributed_workflow_orc.Server.Orchestration.{
  Code, TaskSubmission, domain_task, domain_tasks, submit_workflow_answer, cancel_workflow_answer,
  cancel_task_answer,
}

pub data Call : Type 0 where
  call_submit : ℕ → String → List TaskSubmission → Call
  call_cancel_workflow call_cancel_task : String → Call
  call_report : ResultRequest → Call
  call_dispatched : TaskRef → (worker_id : String) → Call
  call_dead : (worker_id : String) → Call

abbrev pub engine_after : {E : Type 0} → Engine → Result E Engine → Engine
engine_after e (err failure) = e
engine_after e (ok e') = e'

abbrev pub engine_submitted : Engine → Result Code (String × Engine) → Engine
engine_submitted e (err failure) = e
engine_submitted e (ok (id, e')) = e'

module _ (new_uuid : ℕ → String) (seconds : ℤ → ℤ) where
  -- One call, at the time `now`; an error leaves the engine as it is.
  unfoldable pub serve : ℤ → Call → Engine → Engine
  unfolding submit_workflow_answer cancel_workflow_answer cancel_task_answer report_result
      on_task_dispatched reassign_dead_worker_tasks
  serve now (call_submit n name tasks) e =
      engine_submitted e (submit_workflow_answer new_uuid seconds now n name tasks e)
  serve now (call_cancel_workflow id) e =
      engine_after e (cancel_workflow_answer new_uuid seconds now id e)
  serve now (call_cancel_task id) e = engine_after e (cancel_task_answer new_uuid seconds now id e)
  serve now (call_report request) e = engine_after e (report_result seconds now request e)
  serve now (call_dispatched ref worker_id) e = on_task_dispatched seconds now ref worker_id e
  serve now (call_dead worker_id) e = reassign_dead_worker_tasks seconds now worker_id e

  unfoldable pub session : List (ℤ × Call) → Engine → Engine
  unfolding serve
  session [] e = e
  session ((now, call) ∷ calls) e = session calls (serve now call e)

  domain_tasks-pending :
      (tasks : List TaskSubmission)
      → All (λ (t : Task). t.status ≡ TaskStatus.pending) (domain_tasks tasks)
  unfolding domain_task
  domain_tasks-pending [] = tt
  domain_tasks-pending (task ∷ tasks) = (refl, domain_tasks-pending tasks)

  serve-Step :
      (now : ℤ) (call : Call) (e : Engine)
      → (serve now call e ≡ e) ⊎ Step seconds e (serve now call e)
  unfolding serve submit_workflow_answer cancel_workflow_answer cancel_task_answer report_result
  serve-Step now (call_submit n name tasks) e =
      elim (Result-cases (new_workflow new_uuid now n "admin" name (domain_tasks tasks))) [
        | inr (failure, answer) ↦ inl (rw (answer, submit_workflow_answer) refl)
        | inl (w, answer) ↦ inr (
            rw (answer, submit_workflow_answer)
              (submitted now w (
                new_workflow-IsNew new_uuid now n "admin" name (domain_tasks tasks) w
                  (domain_tasks-pending tasks) answer)))
      ]
  serve-Step now (call_cancel_workflow id) e =
      elim (Result-cases (cancel_workflow seconds now id e)) [
        | inr (failure, answer) ↦ inl (rw (answer, cancel_workflow_answer) refl)
        | inl (e', answer) ↦
            inr (rw (answer, cancel_workflow_answer) (workflow_cancelled now id answer))
      ]
  serve-Step now (call_cancel_task id) e = elim (Result-cases (cancel_task seconds now id e)) [
    | inr (failure, answer) ↦ inl (rw (answer, cancel_task_answer) refl)
    | inl (e', answer) ↦ inr (rw (answer, cancel_task_answer) (task_cancelled now id answer))
  ]
  serve-Step now (call_report request) e =
      elim (Result-cases (
        on_task_response seconds now request.workflow_id request.task_id (result_of_request request)
          e)) [
            | inr (failure, answer) ↦ inl (rw answer refl)
            | inl (e', answer) ↦ inr (
                rw answer (
                  responded now request.workflow_id request.task_id (result_of_request request)
                    answer))
          ]
  serve-Step now (call_dispatched ref worker_id) e = inr (was_dispatched now ref worker_id)
  serve-Step now (call_dead worker_id) e = inr (reassigned now worker_id)

  session-Reachable :
      (calls : List (ℤ × Call)) (e : Engine)
      → Reachable seconds e
      → Reachable seconds (session calls e)
  unfolding session
  session-Reachable [] e r = r
  session-Reachable ((now, call) ∷ calls) e r =
      session-Reachable calls (serve now call e) (elim (serve-Step now call e) [
        | inl same ↦ subst (Reachable seconds) (sym same) r
        | inr step ↦ later r step
      ])

  -- Whatever users and workers send to the servers, whatever the scheduler dispatches and whichever
  -- workers die, the engine makes only steps of the step relation, each for a new workflow without a
  -- cycle or for a change of an old one; so all of its workflows are well formed.
  pub session-AllWellFormed :
      (calls : List (ℤ × Call)) (has_notifier : Bool)
      → Reachable seconds (session calls (new_engine has_notifier))
        × AllValues IsWellFormed (session calls (new_engine has_notifier)).workflows
  session-AllWellFormed calls has_notifier =
      let r = session-Reachable calls (new_engine has_notifier) (created has_notifier) in
      (r, Reachable-AllWellFormed seconds (session calls (new_engine has_notifier)) r)
