-- ===== src/Domain/Build.antt =====
-- common/domain/workflow.go: `NewWorkflow`, which checks a request and builds the workflow.
pub mod Indexing
pub mod Valid
use distributed_workflow_orc.Prelude.{
  ℕ, suc, none, some, List, [], ◌∷◌, String, Map, lookup, insert, has, map_values, if◌then◌else◌,
  ◌==◌,
}
use distributed_workflow_orc.Prelude.Int.{ℤ, pos, eqb_ℤ}
use distributed_workflow_orc.Prelude.Results.{Result, ok, err, ◌>>=◌}
use distributed_workflow_orc.Domain.WorkflowStatus
use distributed_workflow_orc.Domain.Task.{Task}
use distributed_workflow_orc.Domain.Workflow.{Workflow}
use distributed_workflow_orc.Domain.Cycle.{
  Verdict, acyclic, cycle_detected, crashed, ran_out, validate_tasks_cycle,
}

-- The last two are no errors of the program: a nil pointer, and a search out of fuel.
pub data BuildError : Type 0 where
  duplicate_task_name duplicate_task_id invalid_dependency tasks_cycle : String → BuildError
  nil_pointer no_fuel : BuildError

-- The two maps hold the same pointers: `by_name` keeps the id behind a name, and `by_id` the task.
-- `next_uuid` counts the calls of `uuid.NewString()`.
pub record Index : Type 0 where
  pub by_name : Map String
  pub by_id : Map Task
  pub next_uuid : ℕ

-- `new_uuid n` is the answer of the n-th call.
module _ (new_uuid : ℕ → String) where
  unfoldable pub assign_id : ℕ → Task → Task × ℕ
  assign_id n t = if t.id == "" then (record t { id = new_uuid n }, suc n) else (t, n)

  -- The first loop of `NewWorkflow`.
  unfoldable pub register : List Task → Index → Result BuildError Index
  unfolding assign_id
  register [] ix = ok ix
  register (t ∷ ts) ix =
      let (t', n) = assign_id ix.next_uuid t in
      let rest = register ts (record {
        by_name = insert t'.name t'.id ix.by_name;
        by_id = insert t'.id t' ix.by_id;
        next_uuid = n;
      }) in
      if has t'.name ix.by_name
      then err (duplicate_task_name t'.name)
      else if has t'.id ix.by_id
      then err (duplicate_task_id t'.id)
      else rest

-- The inner loop of `resolveDependencies`: the ids behind the names.
unfoldable pub resolve_names : Map String → List String → Result BuildError (List String)
resolve_names by_name [] = ok []
resolve_names by_name (dep_name ∷ deps) = elim (lookup dep_name by_name) [
  | none ↦ err (invalid_dependency dep_name)
  | some id ↦ do rest ← resolve_names by_name deps; ok (id ∷ rest)
]

unfoldable pub resolve_dependencies : Map String → Map Task → Result BuildError (Map Task)
unfolding resolve_names
resolve_dependencies by_name [] = ok []
resolve_dependencies by_name ((k, t) ∷ m) = do
  resolved ← resolve_names by_name t.depends_on
  rest ← resolve_dependencies by_name m
  ok ((k, record t { depends_on = resolved }) ∷ rest)

abbrev pub of_verdict : Verdict → Workflow → Result BuildError Workflow
of_verdict acyclic w = ok w
of_verdict (cycle_detected id) w = err (tasks_cycle id)
of_verdict crashed w = err nil_pointer
of_verdict ran_out w = err no_fuel

-- 30 * time.Second and 200 * time.Millisecond.
abbrev pub default_timeout : ℤ
default_timeout = pos 30000000000

abbrev pub default_backoff : ℤ
default_backoff = pos 200000000

-- The body of the last loop of `NewWorkflow`, for one reading `now` of the clock.
unfoldable pub stamp : String → ℤ → Task → Task
stamp workflow_id now t = record t {
  workflow_id = workflow_id;
  created_at = now;
  updated_at = now;
  timeout = if eqb_ℤ t.timeout (pos 0) then default_timeout else t.timeout;
  retry_backoff = if eqb_ℤ t.retry_backoff (pos 0) then default_backoff else t.retry_backoff;
}

module _ (new_uuid : ℕ → String) (now : ℤ) where
  unfoldable pub assemble : String → String → ℕ → Map Task → Workflow
  unfolding stamp
  assemble tenant_id name n tasks = record {
    id = new_uuid n;
    tenant_id = tenant_id;
    name = name;
    tasks = map_values (stamp (new_uuid n) now) tasks;
    status = WorkflowStatus.pending;
    created_at = now;
    updated_at = now;
  }

  unfoldable pub new_workflow : ℕ → String → String → List Task → Result BuildError Workflow
  unfolding register resolve_dependencies validate_tasks_cycle assemble
  new_workflow n tenant_id name tasks = do
    ix ← register new_uuid tasks (record { by_name = []; by_id = []; next_uuid = n })
    resolved ← resolve_dependencies ix.by_name ix.by_id
    of_verdict (validate_tasks_cycle resolved) (assemble tenant_id name ix.next_uuid resolved)
