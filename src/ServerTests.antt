-- ===== src/ServerTests.antt =====
-- The servers, and a worker's attempts, on small inputs.
use Prim.Native.String.{String}
use distributed_workflow_orc.Prelude.{
  insert, ℕ, ◌*◌, ◌/◌, ◌<◌, ◌≡◌, ◌⊎◌, refl, Bool, true, false, Option, none, some, List, [], ◌∷◌,
  ◌++◌, All, lookup, has, if◌then◌else◌, arith, AllValues, eqb,
}
use distributed_workflow_orc.Prelude.Int.{ℤ, pos, negsuc, of_seconds}
use distributed_workflow_orc.Prelude.Results.{Result, ok, err}
use distributed_workflow_orc.Domain.TaskStatus.{running, failed}
use distributed_workflow_orc.Domain.Task.{TaskSpec, TaskResult, report_running, report_succeeded}
use distributed_workflow_orc.Scheduler.Queue.{DispatchRequest}
use distributed_workflow_orc.Engine.Handlers.{Engine, new_engine}
use distributed_workflow_orc.Engine.WellFormed.{IsWellFormed}
use distributed_workflow_orc.Engine.Reachable.{Reachable}
use distributed_workflow_orc.Worker.Service.{TaskInfo, InFlight, WorkerService, dispatch_task}
use distributed_workflow_orc.Worker.Executor
use distributed_workflow_orc.Worker.Executor.{Executor, shell_executor, register_executors}
use distributed_workflow_orc.Worker.Executor.Shell.{ShellHost, ExecuteError, no_result}
use distributed_workflow_orc.Worker.Executor.Http.{HttpHost}
use distributed_workflow_orc.Worker.Executable.{
  do_task, attempts, count_final, statuses, one_or_none,
}
use distributed_workflow_orc.Worker.Executable.Verdict.{final_of, verdict, do_task-verdict}
use distributed_workflow_orc.Worker.Executable.Attempts.{attempts-one_final}
use distributed_workflow_orc.Worker.Registration.{register_executors-registers}
use distributed_workflow_orc.Server.Orchestration.{
  Code, TaskSubmission, WorkflowStatusResponse, submit_workflow_answer, get_workflow_answer,
}
use distributed_workflow_orc.Server.Results.{
  IsAbout, results_of, request_of, results_of-do_task, submitted-runs_as_asked,
}
use distributed_workflow_orc.Server.Sessions.{
  Call, call_submit, call_cancel_workflow, call_dead, session, session-AllWellFormed,
}
use distributed_workflow_orc.Server.Submission.{submit_workflow_answer-get}

-- A host whose command echoes its argument, and that has no network.
abbrev echo_host : ShellHost
echo_host = record {
  unmarshal = λ payload. ok (record { command = "echo"; args = payload });
  run_command = λ timeout command args. record {
    out = command;
    errors = "";
    lasted = pos 1000;
    deadline_exceeded = false;
    run_error = none;
  };
}

abbrev no_network : HttpHost
no_network = record {
  Request = Unit;
  unmarshal = λ payload. err "no payload";
  new_request = λ method url body. err "no request";
  set_header = λ key value req. req;
  do_request =
      λ timeout req. record { lasted = pos 0; deadline_exceeded = true; answer = err "no network" };
  format_int = λ n. "";
}

abbrev echo_task : TaskInfo
echo_task = record {
  id = "t1";
  workflow_id = "w1";
  spec = record { type = ""; payload = "hello" };
  timeout_in_seconds = pos 30;
}

do_task-verdict_example :
    statuses (do_task (Executor.execute echo_host no_network shell_executor) echo_task).0
    ≡ report_running
      ∷ one_or_none (
          verdict echo_host no_network shell_executor echo_task.spec
            (of_seconds echo_task.timeout_in_seconds))
do_task-verdict_example = do_task-verdict echo_host no_network shell_executor echo_task

echo_verdict :
    verdict echo_host no_network shell_executor echo_task.spec (pos 30000000000)
    ≡ some report_succeeded
echo_verdict = refl

-- An executor that cannot start, and one that answers.
abbrev fails : TaskSpec → ℤ → TaskResult × Option Bool
fails spec timeout = (no_result, some true)

abbrev answers : TaskSpec → ℤ → TaskResult × Option Bool
answers spec timeout = (record no_result { exit_code = pos 2; duration = pos 7 }, none)

abbrev two_runs : List (ℕ × (TaskSpec → ℤ → TaskResult × Option Bool))
two_runs = (0, fails) ∷ (1, answers) ∷ []

abbrev one_in_flight : InFlight
one_in_flight = ("t1", none) ∷ []

attempts-one_final_example :
    ((count_final (attempts two_runs echo_task one_in_flight).0 ≡ 0)
      × (has "t1" (attempts two_runs echo_task one_in_flight).1 ≡ true))
    ⊎ ((count_final (attempts two_runs echo_task one_in_flight).0 ≡ 1)
        × (has "t1" (attempts two_runs echo_task one_in_flight).1 ≡ false))
attempts-one_final_example = attempts-one_final two_runs echo_task one_in_flight refl

results_of-do_task_example :
    results_of (do_task answers echo_task).0
    ≡ record no_result { status = running }
      ∷ record no_result { status = failed; exit_code = pos 2 }
      ∷ []
results_of-do_task_example = results_of-do_task answers echo_task refl (omega arith)

abbrev whole_seconds : ℤ → ℤ
whole_seconds (pos n) = pos (n / 1000000000)
whole_seconds (negsuc n) = negsuc n

whole_seconds_exact : (m : ℕ) → m < 9223372037 → whole_seconds (pos (m * 1000000000)) ≡ pos m
whole_seconds_exact m h = ground arith

abbrev first_task : TaskSubmission
first_task = record {
  name = "first";
  type = "shell";
  payload = "hello";
  depends_on = [];
  max_retries = pos 0;
  retry_backoff_seconds = pos 0;
  timeout_seconds = pos 5;
}

abbrev second_task : TaskSubmission
second_task = record first_task { name = "second"; depends_on = "first" ∷ [] }

abbrev first_request : DispatchRequest
first_request = request_of whole_seconds first_task "a" "w" [] (pos 0)

abbrev fresh_worker : WorkerService Executor
fresh_worker = record {
  executors = ("shell", shell_executor) ∷ [];
  in_flight = [];
  suspended = false;
  submitted = [];
}

abbrev run_echo : Executor → TaskSpec → ℤ → TaskResult × Option ExecuteError
run_echo = Executor.execute echo_host no_network

abbrev echo_outcome : TaskResult × Option ExecuteError
echo_outcome = run_echo shell_executor (record { type = ""; payload = "hello" }) (pos 5000000000)

submitted-runs_as_asked_example :
    (info : TaskInfo) × ((dispatch_task Executor true first_request fresh_worker).0.submitted
      ≡ [] ++ (info, shell_executor) ∷ [])
    × (statuses (do_task (run_echo shell_executor) info).0
        ≡ report_running ∷ one_or_none (final_of echo_outcome))
    × ((do_task (run_echo shell_executor) info).1 ≡ echo_outcome.1)
    × All (IsAbout "w" "a") (do_task (run_echo shell_executor) info).0
submitted-runs_as_asked_example =
    submitted-runs_as_asked whole_seconds whole_seconds_exact first_task "a" "w" [] (pos 0) 5
      run_echo fresh_worker shell_executor refl (omega arith) refl refl refl

abbrev uuid : ℕ → String
uuid n = if eqb n 0 then "a" else if eqb n 1 then "b" else "w"

abbrev some_calls : List (ℤ × Call)
some_calls =
    (pos 1, call_submit 0 "job" (first_task ∷ second_task ∷ []))
    ∷ (pos 2, call_dead "worker")
    ∷ (pos 3, call_cancel_workflow "w")
    ∷ []

session-AllWellFormed_example :
    Reachable whole_seconds (session uuid whole_seconds some_calls (new_engine true))
    × AllValues IsWellFormed (session uuid whole_seconds some_calls (new_engine true)).workflows
session-AllWellFormed_example = session-AllWellFormed uuid whole_seconds some_calls true

register_executors-registers_example :
    ((register_executors ("shell" ∷ "ftp" ∷ []) []).0 ≡ err "ftp")
    × (lookup "shell" (register_executors ("shell" ∷ "ftp" ∷ []) []).1 ≡ some shell_executor)
register_executors-registers_example =
    register_executors-registers ("shell" ∷ "ftp" ∷ []) [] "shell"

abbrev engine_of : Result Code (String × Engine) → Engine
engine_of (err failure) = new_engine true
engine_of (ok (id, e)) = e

abbrev submitted_engine : Engine
submitted_engine = engine_of (
    submit_workflow_answer uuid whole_seconds (pos 1) 0 "job" (first_task ∷ second_task ∷ [])
      (new_engine true))

job_answered :
    submit_workflow_answer uuid whole_seconds
      (pos 1)
      0
      "job"
      (first_task ∷ second_task ∷ [])
      (new_engine true)
    ≡ ok ("w", submitted_engine)
unfolding submit_workflow_answer insert
job_answered = refl

submit_workflow_answer-get_example :
    (r : WorkflowStatusResponse) × (r.workflow_id ≡ "w")
    × (r.name ≡ "job")
    × (get_workflow_answer "w" submitted_engine ≡ ok r)
submit_workflow_answer-get_example =
    submit_workflow_answer-get uuid whole_seconds (pos 1) 0 "job" (first_task ∷ second_task ∷ [])
      (new_engine true) submitted_engine "w" "w" job_answered
