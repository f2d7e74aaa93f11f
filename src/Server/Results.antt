-- ===== src/Server/Results.antt =====
-- What a user asks for on its way to the executor, and what the executor answers on its way back.
use distributed_workflow_orc.Prelude.{
  ℕ, ◌*◌, ◌<◌, ◌≡◌, refl, ◌∙◌, ap, true, false, Option, none, some, List, [], ◌∷◌, String, arith,
  ◌==◌, if◌then◌else◌, Bool-cases, inl, inr, eqb, ◌++◌, Option-cases, All, has, lookup,
}
use distributed_workflow_orc.Prelude.Int.{ℤ, pos, negsuc, eqb_ℤ, wrap_ℤ, of_seconds}
use distributed_workflow_orc.Domain.TaskStatus.{running, succeeded, failed}
use distributed_workflow_orc.Domain.Task.{
  TaskSpec, TaskResult, TaskReportStatus, from_proto_task_status, report_running,
}
use distributed_workflow_orc.Domain.Build.{stamp, default_timeout}
use distributed_workflow_orc.Engine.State.{job_of}
use distributed_workflow_orc.Scheduler.Queue.{DispatchRequest}
use distributed_workflow_orc.Worker.Service.{
  TaskInfo, WorkerService, task_info, dispatch_task, dispatch_new, submit_with, add, get_executor,
}
use distributed_workflow_orc.Worker.Executor.Shell.{no_result}
use distributed_workflow_orc.Worker.Executable.{
  ResultRequest, send_status, report_status, do_task, statuses, one_or_none,
}
use distributed_workflow_orc.Worker.Executable.Verdict.{final_of, do_task-statuses}
use distributed_workflow_orc.Server.Cluster.{result_of_request}
use distributed_workflow_orc.Server.Orchestration.{TaskSubmission, domain_task}

-- The results that `ReportResult` makes of reports.
abbrev pub results_of : List ResultRequest → List TaskResult
results_of [] = []
results_of (r ∷ rs) = result_of_request r ∷ results_of rs

-- An integer that an `int32` can hold.
abbrev pub IsInt32 : ℤ → Type 0
IsInt32 (pos n) = n < 2147483648
IsInt32 (negsuc n) = n < 2147483648

wrap_ℤ-small : (i : ℤ) → IsInt32 i → wrap_ℤ 31 i ≡ i
wrap_ℤ-small (pos n) h = ground arith
wrap_ℤ-small (negsuc n) h = ground arith

result_of_final :
    (task : TaskInfo) (r : TaskResult)
    → IsInt32 r.exit_code
    → result_of_request (send_status task (report_status r) (some r)) ≡ record r {
      status =
          if eqb_ℤ r.exit_code (pos 0)
          then (if r.error == "" then succeeded else failed)
          else failed;
      duration = pos 0;
    }
unfolding result_of_request send_status report_status from_proto_task_status
result_of_final task r small =
    rw (wrap_ℤ-small r.exit_code small) (elim (Bool-cases (eqb_ℤ r.exit_code (pos 0))) [
      | inr bad ↦ rw bad refl
      | inl fine ↦ elim (Bool-cases (r.error == "")) [
        | inl quiet ↦ rw (fine, quiet) refl
        | inr noted ↦ rw (fine, noted) refl
      ]
    ])

do_task-clean :
    {E : Type 0} (execute : TaskSpec → ℤ → TaskResult × Option E) (task : TaskInfo)
    → (execute task.spec (of_seconds task.timeout_in_seconds)).1 ≡ none
    → (do_task execute task).0
      ≡ send_status task report_running none
        ∷ send_status task
            (report_status (execute task.spec (of_seconds task.timeout_in_seconds)).0)
            (some (execute task.spec (of_seconds task.timeout_in_seconds)).0)
        ∷ []
unfolding do_task
do_task-clean execute task clean = ground arith

-- What the control plane gets of an attempt without an error: that the task is running, and then the
-- output, the error and, if an `int32` can hold it, the exit code of the executor's result, with
-- SUCCEEDED if the code is 0 and the error empty and FAILED if not; the duration is lost.
pub results_of-do_task :
    {E : Type 0} (execute : TaskSpec → ℤ → TaskResult × Option E) (task : TaskInfo)
    → (execute task.spec (of_seconds task.timeout_in_seconds)).1 ≡ none
    → IsInt32 (execute task.spec (of_seconds task.timeout_in_seconds)).0.exit_code
    → results_of (do_task execute task).0
      ≡ record no_result { status = running }
        ∷ record (execute task.spec (of_seconds task.timeout_in_seconds)).0 {
          status =
              if eqb_ℤ (execute task.spec (of_seconds task.timeout_in_seconds)).0.exit_code (pos 0)
              then (if (execute task.spec (of_seconds task.timeout_in_seconds)).0.error == ""
                  then succeeded
                  else failed)
              else failed;
          duration = pos 0;
        }
        ∷ []
unfolding do_task result_of_request send_status report_status from_proto_task_status
results_of-do_task execute task clean small =
    ap results_of (do_task-clean execute task clean)
    ∙ ap (λ (last : TaskResult). record no_result { status = running } ∷ last ∷ [])
        (result_of_final task (execute task.spec (of_seconds task.timeout_in_seconds)).0 small)

of_seconds-small : (n : ℕ) → n < 9223372037 → of_seconds (pos n) ≡ pos (n * 1000000000)
of_seconds-small n h = ground arith

timeout_kept :
    (seconds : ℤ → ℤ)
    → ((m : ℕ) → m < 9223372037 → seconds (pos (m * 1000000000)) ≡ pos m)
    → (n : ℕ) → n < 9223372036
    → of_seconds
        (seconds (if eqb (n * 1000000000) 0 then default_timeout else pos (n * 1000000000)))
      ≡ (if eqb n 0 then default_timeout else pos (n * 1000000000))
timeout_kept seconds exact n fits = elim (Bool-cases (eqb n 0)) [
  | inl none_asked ↦
      let none_kept : eqb (n * 1000000000) 0 ≡ true = ground arith in
      let thirty : seconds default_timeout ≡ pos 30 = exact 30 (omega arith) in
      rw (none_asked, none_kept) (rw thirty refl)
  | inr asked ↦
      let some_kept : eqb (n * 1000000000) 0 ≡ false = ground arith in
      let same = exact n (omega arith) in
      rw (asked, some_kept) (rw same (of_seconds-small n (omega arith)))
]

do_task-error :
    {E : Type 0} (execute : TaskSpec → ℤ → TaskResult × Option E) (task : TaskInfo)
    → (do_task execute task).1 ≡ (execute task.spec (of_seconds task.timeout_in_seconds)).1
unfolding do_task
do_task-error execute task =
    elim (Option-cases (execute task.spec (of_seconds task.timeout_in_seconds)).1) [
      | inl clean ↦ rw (clean, do_task) refl
      | inr (failure, e) ↦ rw (e, do_task) refl
    ]

-- A report that is about a task of a workflow.
abbrev pub IsAbout : String → String → ResultRequest → Type 0
IsAbout workflow_id task_id r = (r.workflow_id ≡ workflow_id) × (r.task_id ≡ task_id)

send_status-IsAbout :
    (task : TaskInfo) (status : TaskReportStatus) (result : Option TaskResult)
    → IsAbout task.workflow_id task.id (send_status task status result)
unfolding send_status
send_status-IsAbout task status none = (refl, refl)
send_status-IsAbout task status (some r) = (refl, refl)

do_task-IsAbout :
    {E : Type 0} (execute : TaskSpec → ℤ → TaskResult × Option E) (task : TaskInfo)
    → All (IsAbout task.workflow_id task.id) (do_task execute task).0
unfolding do_task
do_task-IsAbout execute task =
    let (result, failure) = execute task.spec (of_seconds task.timeout_in_seconds) in
    let begun = send_status-IsAbout task report_running none in
    elim (Option-cases failure) [
      | inl clean ↦
          rw (clean, do_task)
            (begun, (send_status-IsAbout task (report_status result) (some result), tt))
      | inr (e, broken) ↦ rw (broken, do_task) (begun, tt)
    ]

dispatched :
    (Executor : Type 0) (req : DispatchRequest) (ws : WorkerService Executor) (ex : Executor)
    → ws.suspended ≡ false
    → has req.task_id ws.in_flight ≡ false
    → lookup req.type ws.executors ≡ some ex
    → (dispatch_task Executor true req ws).0.submitted ≡ ws.submitted ++ (task_info req, ex) ∷ []
unfolding dispatch_task add dispatch_new submit_with get_executor
dispatched Executor req ws ex awake fresh known = ground arith

-- The task that a submitted task becomes, and the request that the engine makes of it.
abbrev pub request_of :
    (ℤ → ℤ) → TaskSubmission → String → String → List String → ℤ → DispatchRequest
request_of seconds submission id workflow_id deps now =
    (job_of seconds (
      stamp workflow_id now
        (record (domain_task submission) { id = id; depends_on = deps }))).request

-- A submitted task with a timeout of `n` seconds, when its request comes to a worker that is not
-- suspended, has an executor of the type asked for, has room in its pool and does not have the task
-- yet, is given to the pool with that executor. An attempt of what the pool was given runs the
-- executor with the payload asked for and with `n` seconds, 30 where `n` is 0, in nanoseconds: it
-- answers the executor's error, and reports, under the ids of the task and of its workflow, that the
-- task is running and then the end that this run of the executor had, if it answered no error.
-- Provided that `Seconds()` is exact for whole seconds and that `n` seconds fit into a
-- `time.Duration`.
pub submitted-runs_as_asked :
    {Executor E : Type 0} (seconds : ℤ → ℤ)
    → ((m : ℕ) → m < 9223372037 → seconds (pos (m * 1000000000)) ≡ pos m)
    → (submission : TaskSubmission) (id workflow_id : String) (deps : List String) (now : ℤ) (n : ℕ)
      (run : Executor → TaskSpec → ℤ → TaskResult × Option E) (ws : WorkerService Executor)
      (ex : Executor)
    → submission.timeout_seconds ≡ pos n
    → n < 9223372036
    → ws.suspended ≡ false
    → has id ws.in_flight ≡ false
    → lookup submission.type ws.executors ≡ some ex
    → let request = request_of seconds submission id workflow_id deps now in
      let asked : TaskSpec = record { type = ""; payload = submission.payload } in
      let outcome = run ex asked (if eqb n 0 then default_timeout else pos (n * 1000000000)) in
      (info : TaskInfo) × ((dispatch_task Executor true request ws).0.submitted
        ≡ ws.submitted ++ (info, ex) ∷ [])
      × (statuses (do_task (run ex) info).0 ≡ report_running ∷ one_or_none (final_of outcome))
      × ((do_task (run ex) info).1 ≡ outcome.1)
      × All (IsAbout workflow_id id) (do_task (run ex) info).0
unfolding job_of stamp domain_task
submitted-runs_as_asked {Executor} seconds exact submission id workflow_id deps now n run ws ex
      asked fits awake fresh known =
    let request = request_of seconds submission id workflow_id deps now in
    let info = task_info request in
    let spec : TaskSpec = record { type = ""; payload = submission.payload } in
    let timeout = if eqb n 0 then default_timeout else pos (n * 1000000000) in
    let kept : of_seconds info.timeout_in_seconds ≡ timeout =
      rw asked (rw (of_seconds-small n (omega arith)) (timeout_kept seconds exact n fits)) in
    (
      info,
      dispatched Executor request ws ex awake fresh known,
      do_task-statuses (run ex) info
          ∙ ap (λ d. report_running ∷ one_or_none (final_of (run ex spec d))) kept,
      do_task-error (run ex) info ∙ ap (λ d. (run ex spec d).1) kept,
      do_task-IsAbout (run ex) info,
    )
