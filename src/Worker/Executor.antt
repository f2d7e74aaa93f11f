-- ===== src/Worker/Executor.antt =====
-- infrastructure/worker/executor/executor.go: the executors that a worker can have.
pub mod Shell
pub mod Http
use distributed_workflow_orc.Prelude.{
  ◌++◌, Bool, not, ◌||◌, List, [], ◌∷◌, String, Map, insert, ◌==◌, if◌then◌else◌, Option,
}
use distributed_workflow_orc.Prelude.Int.{ℤ}
use distributed_workflow_orc.Prelude.Results.{Result, ok, err}
use distributed_workflow_orc.Domain.Task.{TaskSpec, TaskResult}
use distributed_workflow_orc.Worker.Executor.Shell.{ShellHost, ExecuteError}
use distributed_workflow_orc.Worker.Executor.Shell
use distributed_workflow_orc.Worker.Executor.Http.{HttpHost}
use distributed_workflow_orc.Worker.Executor.Http

-- The types that implement `Executor`.
pub data Executor : Type 0 where
  shell_executor http_executor : Executor

unfoldable pub is_executor_exists : String → Bool
is_executor_exists executor_type = executor_type == "shell" || executor_type == "http"

-- The `switch` of `RegisterExecutors`.
unfoldable pub register_one : String → Map Executor → Map Executor
register_one capability registry =
    if capability == "shell"
    then insert capability shell_executor registry
    else if capability == "http"
    then insert capability http_executor registry
    else registry

-- The loop of `RegisterExecutors`, with what it has registered. After an error the registry keeps
-- what was registered before.
unfoldable pub register_all :
    List String → List String → Map Executor → Result String (List String) × Map Executor
unfolding is_executor_exists register_one
register_all [] registered registry = (ok registered, registry)
register_all (capability ∷ rest) registered registry =
    let later =
      register_all rest (registered ++ capability ∷ []) (register_one capability registry) in
    if not (is_executor_exists capability) then (err capability, registry) else later

unfoldable pub register_executors :
    List String → Map Executor → Result String (List String) × Map Executor
unfolding register_all
register_executors capabilities registry = register_all capabilities [] registry

-- `Execute` of an executor, on a host with shell and network.
module _ (shell : ShellHost) (http : HttpHost) where
  unfoldable pub execute : Executor → TaskSpec → ℤ → TaskResult × Option ExecuteError
  unfolding Shell.execute Http.execute
  execute shell_executor spec timeout = Shell.execute shell spec timeout
  execute http_executor spec timeout = Http.execute http spec timeout
