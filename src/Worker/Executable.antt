-- ===== src/Worker/Executable.antt =====
-- infrastructure/worker/models/executable_task.go and infrastructure/worker/service/tracked_task.go: an
-- attempt of a task, and what it reports.
pub mod Verdict
pub mod Attempts
use distributed_workflow_orc.Prelude.{
  ◌⊎◌, ◌∙◌, has, ap, ℕ, has, eq_refl, ◌⊎◌, ◌∙◌, ap, ◌+◌, ◌*◌, ◌≤◌, ◌<◌, ◌≡◌, refl, Bool, true,
  false, not, ◌||◌, ◌&&◌, Option, none, some, List, [], ◌∷◌, ◌++◌, String, map, ◌==◌, if◌then◌else◌,
  arith, Option-cases, Bool-cases, inl, inr,
}
use distributed_workflow_orc.Prelude.Int.{ℤ, pos, negsuc, eqb_ℤ, wrap_ℤ, of_seconds, ltb_ℤ}
use distributed_workflow_orc.Prelude.Maps.{has-lookup, lookup-delete, has-insert}
use distributed_workflow_orc.Prelude.Results.{Result, ok, err, Result-cases}
use distributed_workflow_orc.Domain.Task.{
  TaskSpec, TaskResult, TaskReportStatus, report_running, report_succeeded, report_failed, other,
}
use distributed_workflow_orc.Worker.Service.{TaskInfo, InFlight, set_cancel, remove}
use distributed_workflow_orc.Worker.Executor
use distributed_workflow_orc.Worker.Executor.{Executor, shell_executor, http_executor}
use distributed_workflow_orc.Worker.Executor.Shell.{
  ShellHost, ExecuteError, no_result, result_of_run, exit_error, other_error, CommandRun,
}
use distributed_workflow_orc.Worker.Executor.Http.{
  HttpHost, result_of_exchange, result_of_response, set_headers, Response, Exchange,
}
use distributed_workflow_orc.Worker.Executor.Shell
use distributed_workflow_orc.Worker.Executor.Http

-- `protogen.ResultRequest`.
pub record ResultRequest : Type 0 where
  pub workflow_id : String
  pub task_id : String
  pub status : TaskReportStatus
  pub exit_code : ℤ
  pub stdout : String
  pub stderr : String
  pub error : String
  pub duration : ℤ

-- 2 * time.Second.
abbrev pub retry_backoff : ℤ
retry_backoff = pos 2000000000

unfoldable pub get_wait_duration : ℤ
get_wait_duration = retry_backoff

abbrev pub filled : Option TaskResult → ResultRequest → ResultRequest
filled none result = result
filled (some r) result = record result {
  exit_code = wrap_ℤ 31 r.exit_code;
  error = r.error;
  stdout = r.stdout;
  stderr = r.stderr;
}

-- What `sendStatus` hands to `ReportResult`, whose error is only logged.
unfoldable pub send_status : TaskInfo → TaskReportStatus → Option TaskResult → ResultRequest
send_status task status task_result = filled task_result (record {
  workflow_id = task.workflow_id;
  task_id = task.id;
  status = status;
  exit_code = pos 0;
  stdout = "";
  stderr = "";
  error = "";
  duration = pos 0;
})

unfoldable pub report_status : TaskResult → TaskReportStatus
report_status result =
    if not (eqb_ℤ result.exit_code (pos 0)) || not (result.error == "")
    then report_failed
    else report_succeeded

-- `Do`: the reports, in order, and the error.
unfoldable pub do_task :
    {E : Type 0} → (TaskSpec → ℤ → TaskResult × Option E) → TaskInfo → List ResultRequest × Option E
unfolding send_status report_status
do_task execute task =
    let running = send_status task report_running none in
    let (result, failure) = execute task.spec (of_seconds task.timeout_in_seconds) in
    elim failure [
      | some e ↦ (running ∷ [], some e)
      | none ↦ (running ∷ send_status task (report_status result) (some result) ∷ [], none)
    ]

-- A tracked task's `Do`, which first keeps the cancel function, and `OnDone` with its error: what
-- becomes of the tasks in flight.
unfoldable pub attempt :
    {E : Type 0}
    → ℕ
    → (TaskSpec → ℤ → TaskResult × Option E)
    → TaskInfo
    → InFlight
    → List ResultRequest × Option E × InFlight
unfolding do_task
attempt cancel execute task items =
    let (reports, failure) = do_task execute task in
    let begun = set_cancel task.id cancel items in
    elim failure [
      | some e ↦ (reports, some e, begun)
      | none ↦ (reports, none, remove task.id begun)
    ]

-- The attempts of one job, each with its cancel function and what the executor does in it: the pool
-- makes the next one when there is an error.
unfoldable pub attempts :
    {E : Type 0}
    → List (ℕ × (TaskSpec → ℤ → TaskResult × Option E))
    → TaskInfo
    → InFlight
    → List ResultRequest × InFlight
unfolding attempt
attempts [] task items = ([], items)
attempts ((cancel, execute) ∷ later) task items =
    let (reports, failure, left) = attempt cancel execute task items in
    let (more, last) = attempts later task left in
    elim failure [ none ↦ (reports, left) | some e ↦ (reports ++ more, last) ]

-- What a report says of the end of the task.
abbrev pub is_final : ResultRequest → Bool
is_final r = elim r.status [
  | report_running ↦ false
  | report_succeeded ↦ true
  | report_failed ↦ true
  | other n ↦ false
]

abbrev pub count_final : List ResultRequest → ℕ
count_final [] = 0
count_final (r ∷ rs) = (if is_final r then 1 else 0) + count_final rs

abbrev pub statuses : List ResultRequest → List TaskReportStatus
statuses [] = []
statuses (r ∷ rs) = r.status ∷ statuses rs

abbrev pub one_or_none : Option TaskReportStatus → List TaskReportStatus
one_or_none none = []
one_or_none (some status) = status ∷ []
