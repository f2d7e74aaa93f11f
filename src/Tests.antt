-- ===== src/Tests.antt =====
-- Runs of the model on small inputs, and the theorems at them.
use distributed_workflow_orc.Prelude.{
  ℕ, zero, suc, ◌≡◌, refl, true, false, Option, none, some, List, [], ◌∷◌, String, lookup, Memᴰ,
  insert,
}
use distributed_workflow_orc.Prelude.Maps.{AllValues-lookup}
use distributed_workflow_orc.Prelude.Int.{ℤ, pos}
use distributed_workflow_orc.Prelude.Results.{Result, ok, err}
use distributed_workflow_orc.Domain.TaskStatus
use distributed_workflow_orc.Domain.TaskStatus.{TaskStatus}
use distributed_workflow_orc.Domain.WorkflowStatus
use distributed_workflow_orc.Domain.Task.{Task, TaskResult, update_status, is_finished, is_ready}
use distributed_workflow_orc.Domain.Workflow.{
  Workflow, all_deps_succeeded, update_workflow_status, is_workflow_finished, all_tasks_finished,
  has_failed_task, has_cancelled_task, has_task_in,
}
use distributed_workflow_orc.Domain.Cycle.{
  validate_tasks_cycle, validate_from, has_cycle, scan_deps, blacken,
}
use distributed_workflow_orc.Domain.Build.{
  tasks_cycle, new_workflow, register, assign_id, resolve_dependencies, resolve_names, assemble,
  stamp,
}
use distributed_workflow_orc.Domain.Build.Indexing.{is_fault}
use distributed_workflow_orc.Domain.Build.Valid.{new_workflow-IsDag, new_workflow_answers}
use distributed_workflow_orc.Domain.Dag.{IsDag}
use distributed_workflow_orc.Engine.State.{
  update_task_status, set_workflow_status, recompute_ready_tasks, final_status,
  finalize_workflow_if_done, start_running, job_of, push_job, mark_one, mark_all, mark_ready_tasks,
}
use distributed_workflow_orc.Engine.Cancel
use distributed_workflow_orc.Engine.Handlers.{
  Engine, EngineError, new_engine, commit, notify, submit_work, submit_workflow, respond_task,
  response_work, on_task_response, dispatched_work, on_task_dispatched, cancel_workflow,
  cancel_workflow_work,
}
use distributed_workflow_orc.Engine.WellFormed.Submission.{IsNew}
use distributed_workflow_orc.Engine.Reachable.{
  Reachable, created, later, submitted, was_dispatched, responded,
}
use distributed_workflow_orc.Engine.Guarantees.{
  is_under_way, started_after_dependencies, never_stuck, status_tells, waits_for_none_lost,
  none_overlooked,
}
use distributed_workflow_orc.Engine.Effects.{cancel_workflow-finishes}
use distributed_workflow_orc.Engine.Submitted.{new_workflow-IsNew}
use distributed_workflow_orc.Engine.Settled.{IsSettled}
use distributed_workflow_orc.Engine.Evolve.{is_lost}

-- Every call of `uuid.NewString()` but the first two answers "w".
abbrev pub new_uuid : ℕ → String
new_uuid zero = "a"
new_uuid (suc zero) = "b"
new_uuid (suc (suc n)) = "w"

abbrev pub task_named : String → List String → Task
task_named name deps = record {
  id = "";
  workflow_id = "";
  name = name;
  depends_on = deps;
  spec = record { type = "shell"; payload = "{}" };
  max_retries = pos 0;
  retry_backoff = pos 0;
  timeout = pos 0;
  status = TaskStatus.pending;
  assigned_to = "";
  attempt = pos 0;
  result = none;
  created_at = pos 0;
  updated_at = pos 0;
}

-- "second" waits for "first".
abbrev two_tasks : List Task
two_tasks = task_named "first" [] ∷ task_named "second" ("first" ∷ []) ∷ []

-- Each waits for the other.
abbrev circular_tasks : List Task
circular_tasks = task_named "first" ("second" ∷ []) ∷ task_named "second" ("first" ∷ []) ∷ []

abbrev pub stamped : String → String → List String → Task
stamped id name deps = record (task_named name deps) {
  id = id;
  workflow_id = "w";
  retry_backoff = pos 200000000;
  timeout = pos 30000000000;
  created_at = pos 5;
  updated_at = pos 5;
}

abbrev pub two_workflow : Workflow
two_workflow = record {
  id = "w";
  tenant_id = "admin";
  name = "two";
  tasks = ("a", stamped "a" "first" []) ∷ ("b", stamped "b" "second" ("a" ∷ [])) ∷ [];
  status = WorkflowStatus.pending;
  created_at = pos 5;
  updated_at = pos 5;
}

two_built : new_workflow new_uuid (pos 5) 0 "admin" "two" two_tasks ≡ ok two_workflow
unfolding new_workflow register assign_id resolve_dependencies resolve_names validate_tasks_cycle
    validate_from has_cycle scan_deps blacken assemble stamp insert
two_built = refl

circular_refused :
    new_workflow new_uuid (pos 5) 0 "admin" "two" circular_tasks ≡ err (tasks_cycle "a")
unfolding new_workflow register assign_id resolve_dependencies resolve_names validate_tasks_cycle
    validate_from has_cycle scan_deps blacken assemble stamp insert
circular_refused = refl

new_workflow-IsDag_example :
    IsDag two_workflow.tasks × (two_workflow.status ≡ WorkflowStatus.pending)
new_workflow-IsDag_example =
    new_workflow-IsDag new_uuid (pos 5) 0 "admin" "two" two_tasks two_workflow two_built

new_workflow_answers_example : is_fault (tasks_cycle "a") ≡ false
new_workflow_answers_example =
    new_workflow_answers new_uuid (pos 5) 0 "admin" "two" circular_tasks (tasks_cycle "a")
      circular_refused

pub two_workflow-IsNew : IsNew two_workflow
two_workflow-IsNew = record {
  dag = new_workflow-IsDag_example.0;
  unstarted = λ u t e.
      AllValues-lookup (λ t. t.status ≡ TaskStatus.pending) u two_workflow.tasks (refl, (refl, tt))
        e;
  status = refl;
}

abbrev pub seconds : ℤ → ℤ
seconds d = d

abbrev pub success : TaskResult
success = record {
  status = TaskStatus.succeeded;
  exit_code = pos 0;
  stdout = "done";
  stderr = "";
  error = "";
  duration = pos 0;
}

abbrev of_ok : Result EngineError Engine → Engine → Engine
of_ok (ok e) other = e
of_ok (err f) other = other

abbrev of_some : Option Workflow → Workflow
of_some (some w) = w
of_some none = two_workflow

abbrev of_task : Option Task → Task
of_task (some t) = t
of_task none = task_named "" []

-- The workflow is submitted, "a" is dispatched, "a" succeeds, the workflow is cancelled.
abbrev pub submitted_state : Engine
submitted_state = (submit_workflow seconds (pos 6) two_workflow (new_engine true)).0

abbrev pub dispatched_state : Engine
dispatched_state =
    on_task_dispatched seconds (pos 7) (record { workflow_id = "w"; task_id = "a" }) "worker"
      submitted_state

abbrev response : Result EngineError Engine
response = on_task_response seconds (pos 8) "w" "a" success dispatched_state

abbrev pub responded_state : Engine
responded_state = of_ok response dispatched_state

abbrev cancellation : Result EngineError Engine
cancellation = cancel_workflow seconds (pos 9) "w" responded_state

abbrev cancelled_state : Engine
cancelled_state = of_ok cancellation responded_state

responded_without_error : response ≡ ok responded_state
unfolding submit_workflow submit_work commit mark_ready_tasks recompute_ready_tasks is_ready
    all_deps_succeeded start_running set_workflow_status update_workflow_status
    WorkflowStatus.can_transit_to mark_all mark_one update_task_status update_status
    TaskStatus.can_transit_to push_job job_of insert new_engine on_task_dispatched dispatched_work
    on_task_response response_work respond_task finalize_workflow_if_done is_workflow_finished
    all_tasks_finished is_finished final_status has_failed_task has_cancelled_task has_task_in
responded_without_error = refl

cancelled_without_error : cancellation ≡ ok cancelled_state
unfolding submit_workflow submit_work commit mark_ready_tasks recompute_ready_tasks is_ready
    all_deps_succeeded start_running set_workflow_status update_workflow_status
    WorkflowStatus.can_transit_to mark_all mark_one update_task_status update_status
    TaskStatus.can_transit_to push_job job_of insert new_engine on_task_dispatched dispatched_work
    on_task_response response_work respond_task finalize_workflow_if_done is_workflow_finished
    all_tasks_finished is_finished final_status has_failed_task has_cancelled_task has_task_in
    cancel_workflow cancel_workflow_work Cancel.cancel_every Cancel.cancel_task_into Cancel.refs_of
    Cancel.is_at_worker notify Cancel.notify_workers_of_cancellation Cancel.group_by_worker
cancelled_without_error = refl

reached : Reachable seconds responded_state
reached =
    later
      (later (later (created true) (submitted (pos 6) two_workflow two_workflow-IsNew))
        (was_dispatched (pos 7) (record { workflow_id = "w"; task_id = "a" }) "worker"))
      (responded (pos 8) "w" "a" success responded_without_error)

abbrev workflow_now : Workflow
workflow_now = of_some (lookup "w" responded_state.workflows)

abbrev task_now : String → Task
task_now id = of_task (lookup id workflow_now.tasks)

workflow_known : lookup "w" responded_state.workflows ≡ some workflow_now
unfolding submit_workflow submit_work commit mark_ready_tasks recompute_ready_tasks is_ready
    all_deps_succeeded start_running set_workflow_status update_workflow_status
    WorkflowStatus.can_transit_to mark_all mark_one update_task_status update_status
    TaskStatus.can_transit_to push_job job_of insert new_engine on_task_dispatched dispatched_work
    on_task_response response_work respond_task finalize_workflow_if_done is_workflow_finished
    all_tasks_finished is_finished final_status has_failed_task has_cancelled_task has_task_in
workflow_known = refl

second_known : lookup "b" workflow_now.tasks ≡ some (task_now "b")
unfolding submit_workflow submit_work commit mark_ready_tasks recompute_ready_tasks is_ready
    all_deps_succeeded start_running set_workflow_status update_workflow_status
    WorkflowStatus.can_transit_to mark_all mark_one update_task_status update_status
    TaskStatus.can_transit_to push_job job_of insert new_engine on_task_dispatched dispatched_work
    on_task_response response_work respond_task finalize_workflow_if_done is_workflow_finished
    all_tasks_finished is_finished final_status has_failed_task has_cancelled_task has_task_in
second_known = refl

first_known : lookup "a" workflow_now.tasks ≡ some (task_now "a")
unfolding submit_workflow submit_work commit mark_ready_tasks recompute_ready_tasks is_ready
    all_deps_succeeded start_running set_workflow_status update_workflow_status
    WorkflowStatus.can_transit_to mark_all mark_one update_task_status update_status
    TaskStatus.can_transit_to push_job job_of insert new_engine on_task_dispatched dispatched_work
    on_task_response response_work respond_task finalize_workflow_if_done is_workflow_finished
    all_tasks_finished is_finished final_status has_failed_task has_cancelled_task has_task_in
first_known = refl

started_after_dependencies_example :
    all_deps_succeeded (task_now "b").depends_on workflow_now.tasks ≡ true
unfolding submit_workflow submit_work commit mark_ready_tasks recompute_ready_tasks is_ready
    all_deps_succeeded start_running set_workflow_status update_workflow_status
    WorkflowStatus.can_transit_to mark_all mark_one update_task_status update_status
    TaskStatus.can_transit_to push_job job_of insert new_engine on_task_dispatched dispatched_work
    on_task_response response_work respond_task finalize_workflow_if_done is_workflow_finished
    all_tasks_finished is_finished final_status has_failed_task has_cancelled_task has_task_in
started_after_dependencies_example =
    started_after_dependencies seconds responded_state reached "w" workflow_now workflow_known "b"
      (task_now "b") second_known refl

never_stuck_example :
    (v : String) × (s : Task) × (lookup v workflow_now.tasks ≡ some s) × (is_under_way s ≡ true)
unfolding submit_workflow submit_work commit mark_ready_tasks recompute_ready_tasks is_ready
    all_deps_succeeded start_running set_workflow_status update_workflow_status
    WorkflowStatus.can_transit_to mark_all mark_one update_task_status update_status
    TaskStatus.can_transit_to push_job job_of insert new_engine on_task_dispatched dispatched_work
    on_task_response response_work respond_task finalize_workflow_if_done is_workflow_finished
    all_tasks_finished is_finished final_status has_failed_task has_cancelled_task has_task_in
never_stuck_example =
    never_stuck seconds responded_state reached "w" workflow_now workflow_known "b" (task_now "b")
      second_known refl

status_tells_example : IsSettled workflow_now.status workflow_now.tasks
status_tells_example = status_tells seconds responded_state reached "w" workflow_now workflow_known

waits_for_none_lost_example : is_lost (task_now "a").status ≡ false
unfolding submit_workflow submit_work commit mark_ready_tasks recompute_ready_tasks is_ready
    all_deps_succeeded start_running set_workflow_status update_workflow_status
    WorkflowStatus.can_transit_to mark_all mark_one update_task_status update_status
    TaskStatus.can_transit_to push_job job_of insert new_engine on_task_dispatched dispatched_work
    on_task_response response_work respond_task finalize_workflow_if_done is_workflow_finished
    all_tasks_finished is_finished final_status has_failed_task has_cancelled_task has_task_in
waits_for_none_lost_example =
    waits_for_none_lost seconds responded_state reached "w" workflow_now workflow_known "b" "a"
      (task_now "b") (task_now "a") second_known first_known (Memᴰ.head refl) refl

abbrev workflow_after : Workflow
workflow_after = of_some (lookup "w" cancelled_state.workflows)

abbrev second_after : Task
second_after = of_task (lookup "b" workflow_after.tasks)

cancel_workflow-finishes_example : is_finished second_after ≡ true
unfolding submit_workflow submit_work commit mark_ready_tasks recompute_ready_tasks is_ready
    all_deps_succeeded start_running set_workflow_status update_workflow_status
    WorkflowStatus.can_transit_to mark_all mark_one update_task_status update_status
    TaskStatus.can_transit_to push_job job_of insert new_engine on_task_dispatched dispatched_work
    on_task_response response_work respond_task finalize_workflow_if_done is_workflow_finished
    all_tasks_finished is_finished final_status has_failed_task has_cancelled_task has_task_in
    cancel_workflow cancel_workflow_work Cancel.cancel_every Cancel.cancel_task_into Cancel.refs_of
    Cancel.is_at_worker notify Cancel.notify_workers_of_cancellation Cancel.group_by_worker
cancel_workflow-finishes_example =
    cancel_workflow-finishes seconds (pos 9) responded_state cancelled_state "w" "b" workflow_after
      second_after reached cancelled_without_error refl refl

-- In the state after the submission, "b" waits for "a".
reached_submitted : Reachable seconds submitted_state
reached_submitted = later (created true) (submitted (pos 6) two_workflow two_workflow-IsNew)

abbrev pub workflow_submitted : Workflow
workflow_submitted = of_some (lookup "w" submitted_state.workflows)

none_overlooked_example :
    all_deps_succeeded
      (of_task (lookup "b" workflow_submitted.tasks)).depends_on
      workflow_submitted.tasks
    ≡ false
unfolding submit_workflow submit_work commit mark_ready_tasks recompute_ready_tasks is_ready
    all_deps_succeeded start_running set_workflow_status update_workflow_status
    WorkflowStatus.can_transit_to mark_all mark_one update_task_status update_status
    TaskStatus.can_transit_to push_job job_of insert new_engine on_task_dispatched dispatched_work
    on_task_response response_work respond_task finalize_workflow_if_done is_workflow_finished
    all_tasks_finished is_finished final_status has_failed_task has_cancelled_task has_task_in
none_overlooked_example =
    none_overlooked seconds submitted_state reached_submitted "w" workflow_submitted refl "b"
      (of_task (lookup "b" workflow_submitted.tasks)) refl refl

new_workflow-IsNew_example : IsNew two_workflow
new_workflow-IsNew_example =
    new_workflow-IsNew new_uuid (pos 5) 0 "admin" "two" two_tasks two_workflow (refl, (refl, tt))
      two_built
