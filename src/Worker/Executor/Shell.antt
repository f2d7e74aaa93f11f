-- ===== src/Worker/Executor/Shell.antt =====
-- infrastructure/worker/executor/shell/executor.go.
use Prim.Native.String.{String, ◌++◌}
use distributed_workflow_orc.Prelude.{Bool, Option, none, some, List, [], ◌∷◌, ◌==◌, if◌then◌else◌}
use distributed_workflow_orc.Prelude.Int.{ℤ, pos, negsuc}
use distributed_workflow_orc.Prelude.Results.{Result, ok, err}
use distributed_workflow_orc.Domain.TaskStatus.{pending}
use distributed_workflow_orc.Domain.Task.{TaskSpec, TaskResult}

-- The errors that `Execute` returns.
pub data ExecuteError : Type 0 where
  invalid_payload failed_to_start build_request : String → ExecuteError
  command_not_found url_not_found : ExecuteError

abbrev pub no_result : TaskResult
no_result = record {
  status = pending;
  exit_code = pos 0;
  stdout = "";
  stderr = "";
  error = "";
  duration = pos 0;
}

pub record ShellPayload : Type 0 where
  pub command : String
  pub args : String

-- The error of `cmd.Run()`: an `*exec.ExitError`, with its code, or another.
pub data RunError : Type 0 where
  exit_error : ℤ → RunError
  other_error : String → RunError

-- What a run of a command leaves: what it wrote, how long it took, whether the deadline has passed,
-- and its error.
pub record CommandRun : Type 0 where
  pub out : String
  pub errors : String
  pub lasted : ℤ
  pub deadline_exceeded : Bool
  pub run_error : Option RunError

-- `json.Unmarshal` into a payload, with the text of its error, and the command that
-- `exec.CommandContext` makes of a timeout, a name and its arguments.
pub record ShellHost : Type 0 where
  pub unmarshal : String → Result String ShellPayload
  pub run_command : ℤ → String → List String → CommandRun

-- The result and the error of a run, by the `switch` of `Execute`.
unfoldable pub result_of_run : CommandRun → TaskResult × Option ExecuteError
result_of_run c =
    let result : TaskResult = record no_result {
      stdout = c.out;
      stderr = c.errors;
      duration = c.lasted;
    } in
    if c.deadline_exceeded
    then (record result { exit_code = negsuc 0; error = "task timed out" }, none)
    else elim c.run_error [
      | none ↦ (record result { exit_code = pos 0 }, none)
      | some (exit_error code) ↦ (record result { exit_code = code }, none)
      | some (other_error text) ↦ (result, some (failed_to_start text))
    ]

unfoldable pub execute : ShellHost → TaskSpec → ℤ → TaskResult × Option ExecuteError
unfolding result_of_run
execute shell spec timeout = elim (shell.unmarshal spec.payload) [
  | err text ↦
      (record no_result { error = "invalid shell payload: " ++ text }, some (invalid_payload text))
  | ok p ↦
      if p.command == ""
      then (record no_result { error = "command not found in task spec" }, some command_not_found)
      else result_of_run (shell.run_command timeout p.command (p.args ∷ []))
]
