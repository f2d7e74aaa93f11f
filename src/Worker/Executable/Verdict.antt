-- ===== src/Worker/Executable/Verdict.antt =====
-- infrastructure/worker/executor and infrastructure/worker/models: how an attempt of a task ends.
use distributed_workflow_orc.Prelude.{
  ◌∙◌, ap, ◌∙◌, ap, ◌≡◌, refl, false, Option, none, some, [], ◌∷◌, String, ◌==◌, if◌then◌else◌,
  arith, Option-cases, Bool-cases, inl, inr,
}
use distributed_workflow_orc.Prelude.Int.{ℤ, pos, negsuc, eqb_ℤ, of_seconds, ltb_ℤ}
use distributed_workflow_orc.Prelude.Results.{ok, err, Result-cases}
use distributed_workflow_orc.Domain.Task.{
  TaskSpec, TaskResult, TaskReportStatus, report_running, report_succeeded, report_failed,
}
use distributed_workflow_orc.Worker.Service.{TaskInfo}
use distributed_workflow_orc.Worker.Executor
use distributed_workflow_orc.Worker.Executor.{Executor, shell_executor, http_executor}
use distributed_workflow_orc.Worker.Executor.Shell.{
  ShellHost, ExecuteError, no_result, result_of_run, exit_error, other_error, CommandRun,
}
use distributed_workflow_orc.Worker.Executor.Http.{
  HttpHost, result_of_exchange, result_of_response, set_headers, Response, Exchange,
}
use distributed_workflow_orc.Worker.Executor.Shell
use distributed_workflow_orc.Worker.Executor.Http
use distributed_workflow_orc.Worker.Executable.{
  send_status, report_status, do_task, statuses, one_or_none,
}

-- The end that an outcome of `Execute` is reported as.
abbrev pub final_of : {E : Type 0} → TaskResult × Option E → Option TaskReportStatus
final_of outcome = elim outcome.1 [ none ↦ some (report_status outcome.0) | some e ↦ none ]

pub do_task-statuses :
    {E : Type 0} (execute : TaskSpec → ℤ → TaskResult × Option E) (task : TaskInfo)
    → statuses (do_task execute task).0
      ≡ report_running
        ∷ one_or_none (final_of (execute task.spec (of_seconds task.timeout_in_seconds)))
unfolding do_task send_status
do_task-statuses execute task =
    elim (Option-cases (execute task.spec (of_seconds task.timeout_in_seconds)).1) [
      | inl e ↦ ground arith
      | inr (failure, e) ↦ ground arith
    ]

-- How the attempt of a task ends: `none` where the executor answers an error, so that nothing is
-- reported.
abbrev pub run_verdict : CommandRun → Option TaskReportStatus
run_verdict c = if c.deadline_exceeded then some report_failed else elim c.run_error [
  | none ↦ some report_succeeded
  | some (other_error text) ↦ none
  | some (exit_error code) ↦ some (if eqb_ℤ code (pos 0) then report_succeeded else report_failed)
]

abbrev pub response_verdict : Response → TaskReportStatus
response_verdict resp = elim resp.read_error [
  | some text ↦ report_failed
  | none ↦ if ltb_ℤ resp.status_code (pos 400) then report_succeeded else report_failed
]

abbrev pub exchange_verdict : Exchange → TaskReportStatus
exchange_verdict x = elim x.answer [ err text ↦ report_failed | ok resp ↦ response_verdict resp ]

result_of_run-verdict : (c : CommandRun) → final_of (result_of_run c) ≡ run_verdict c
unfolding result_of_run report_status
result_of_run-verdict c = elim (Bool-cases c.deadline_exceeded) [
  | inl late ↦ rw (late, result_of_run) refl
  | inr timely ↦ elim (Option-cases c.run_error) [
    | inl clean ↦ rw (timely, clean, result_of_run) refl
    | inr (exit_error code, e) ↦ elim (Bool-cases (eqb_ℤ code (pos 0))) [
      | inl zero_code ↦ rw (timely, e, result_of_run) (rw zero_code refl)
      | inr other_code ↦ rw (timely, e, result_of_run) (rw other_code refl)
    ]
    | inr (other_error text, e) ↦ rw (timely, e, result_of_run) refl
  ]
]

bad_status : (code : ℤ) → ltb_ℤ code (pos 400) ≡ false → eqb_ℤ code (pos 0) ≡ false
bad_status (pos n) h = ground arith
bad_status (negsuc n) h = refl

result_of_exchange-verdict :
    (format_int : ℤ → String) (x : Exchange)
    → report_status (result_of_exchange format_int x) ≡ exchange_verdict x
unfolding result_of_exchange result_of_response report_status
result_of_exchange-verdict format_int x = elim (Result-cases x.answer) [
  | inr (text, e) ↦ rw (e, result_of_exchange) refl
  | inl (resp, e) ↦ elim (Option-cases resp.read_error) [
    | inr (text, broken) ↦ rw (e, result_of_exchange) (rw (broken, result_of_response) refl)
    | inl read ↦ elim (Bool-cases (ltb_ℤ resp.status_code (pos 400))) [
      | inl fine ↦ rw (e, result_of_exchange) (rw (read, result_of_response) (rw fine refl))
      | inr bad ↦
          rw (e, result_of_exchange)
            (rw (read, result_of_response) (rw (bad, bad_status resp.status_code bad) refl))
    ]
  ]
]

module _ (shell : ShellHost) (http : HttpHost) where
  abbrev pub verdict : Executor → TaskSpec → ℤ → Option TaskReportStatus
  verdict shell_executor spec timeout = elim (shell.unmarshal spec.payload) [
    | err text ↦ none
    | ok p ↦
        if p.command == ""
        then none
        else run_verdict (shell.run_command timeout p.command (p.args ∷ []))
  ]
  verdict http_executor spec timeout = elim (http.unmarshal spec.payload) [
    | err text ↦ none
    | ok p ↦
        if p.url == ""
        then none
        else elim (http.new_request (if p.method == "" then "GET" else p.method) p.url p.body) [
          | err text ↦ none
          | ok req ↦
              some (exchange_verdict (http.do_request timeout (set_headers http p.headers req)))
        ]
  ]

  execute-verdict :
      (ex : Executor) (spec : TaskSpec) (timeout : ℤ)
      → final_of (Executor.execute shell http ex spec timeout) ≡ verdict ex spec timeout
  unfolding Executor.execute Shell.execute Http.execute
  execute-verdict shell_executor spec timeout = elim (Result-cases (shell.unmarshal spec.payload)) [
    | inr (text, e) ↦ rw (e, Shell.execute, verdict) refl
    | inl (p, e) ↦ elim (Bool-cases (p.command == "")) [
      | inl missing ↦ rw (e, Shell.execute, verdict) (rw missing refl)
      | inr given ↦
          rw (e, Shell.execute, verdict)
            (rw given (result_of_run-verdict (shell.run_command timeout p.command (p.args ∷ []))))
    ]
  ]
  execute-verdict http_executor spec timeout = elim (Result-cases (http.unmarshal spec.payload)) [
    | inr (text, e) ↦ rw (e, Http.execute, verdict) refl
    | inl (p, e) ↦ elim (Bool-cases (p.url == "")) [
      | inl missing ↦ rw (e, Http.execute, verdict) (rw missing refl)
      | inr given ↦
          elim (Result-cases
            (http.new_request (if p.method == "" then "GET" else p.method) p.url p.body)) [
              | inr (text, broken) ↦ rw (e, Http.execute, verdict) (rw given (rw broken refl))
              | inl (req, built) ↦
                  rw (e, Http.execute, verdict)
                    (rw given (
                      rw built (
                        ap some (
                          result_of_exchange-verdict http.format_int
                            (http.do_request timeout (set_headers http p.headers req))))))
            ]
    ]
  ]

  -- An attempt of a task reports that it is running, and then, unless its executor answers an error,
  -- exactly one end: for a shell task that it succeeded if the command ended in time with the code 0,
  -- for an http task if a response with a status below 400 came and was read, and else that it
  -- failed. The executor answers an error where the payload is not decoded, where it names no
  -- command or address, and where the command or the request cannot be made.
  pub do_task-verdict :
      (ex : Executor) (task : TaskInfo)
      → statuses (do_task (Executor.execute shell http ex) task).0
        ≡ report_running ∷ one_or_none (verdict ex task.spec (of_seconds task.timeout_in_seconds))
  do_task-verdict ex task =
      do_task-statuses (Executor.execute shell http ex) task
      ∙ ap (λ v. report_running ∷ one_or_none v)
          (execute-verdict ex task.spec (of_seconds task.timeout_in_seconds))
