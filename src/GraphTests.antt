-- ===== src/GraphTests.antt =====
-- The theorems on the graph of tasks, the cascade, the state machines and the connections, at small
-- inputs.
use distributed_workflow_orc.Prelude.{
  ◌≡◌, refl, true, false, List, [], ◌∷◌, String, Map, ◌⊎◌, eq_iff,
}
use distributed_workflow_orc.Prelude.Int.{pos}
use distributed_workflow_orc.Prelude.Maps.{AllValues-lookup}
use distributed_workflow_orc.Domain.TaskStatus
use distributed_workflow_orc.Domain.TaskStatus.{
  TaskStatus, rank, terminated_only_retries, can_transit_to-rank,
}
use distributed_workflow_orc.Domain.WorkflowStatus.{WorkflowStatus}
use distributed_workflow_orc.Domain.Task.{Task, update_status, is_finished}
use distributed_workflow_orc.Domain.Cycle.{acyclic, cycle_detected, validate_tasks_cycle}
use distributed_workflow_orc.Domain.Cycle.Graph.{Dep, Needs, IsOnCycle}
use distributed_workflow_orc.Domain.Dag.{IsDag}
use distributed_workflow_orc.Domain.Build.Valid.{validate_tasks_cycle_decides}
use distributed_workflow_orc.Engine.State.{update_task_status}
use distributed_workflow_orc.Engine.Cancel.{
  is_at_worker, cascade, cancel_loop, cancel_round, cancel_pass, cancel_task_into, refs_of,
}
use distributed_workflow_orc.Engine.Handlers.{
  Engine, reassign_dead_worker_tasks, reassign_workflows, reassign_tasks, reassign_one,
}
use distributed_workflow_orc.Engine.Evolve.{IsSound, Every}
use distributed_workflow_orc.Engine.Cascade.{cascade-IsSound}
use distributed_workflow_orc.Engine.Downstream.{cascade-touches_dependents}
use distributed_workflow_orc.Engine.Effects.{reassign_dead_worker_tasks-leaves_none}
use distributed_workflow_orc.Tests.{two_workflow, two_workflow-IsNew, stamped, seconds}

abbrev tasks : Map Task
tasks = two_workflow.tasks

validate_tasks_cycle_decides_example :
    ((validate_tasks_cycle tasks ≡ acyclic) × IsDag tasks)
    ⊎ ((id u : String) × (validate_tasks_cycle tasks ≡ cycle_detected id) × IsOnCycle tasks u)
validate_tasks_cycle_decides_example =
    validate_tasks_cycle_decides tasks two_workflow-IsNew.dag.keyed two_workflow-IsNew.dag.distinct
      two_workflow-IsNew.dag.closed

all_pending : Every (λ t. t.status ≡ TaskStatus.pending) tasks
all_pending u t e =
    AllValues-lookup (λ t. t.status ≡ TaskStatus.pending) u tasks (refl, (refl, tt)) e

tasks-IsSound : (queue : List String) → IsSound queue tasks
tasks-IsSound queue = record {
  dag = two_workflow-IsNew.dag;
  sane = λ u t e. rw (all_pending u t e) refl;
  started = λ u t e begun. absurd (cc (rw (all_pending u t e) at begun));
  unblocked = λ u t e left d s dep found lost. absurd (cc (rw (all_pending d s found) at lost));
}

cascade-IsSound_example :
    ((cascade (pos 9) "a" tasks).queue ≡ []) × IsSound [] (cascade (pos 9) "a" tasks).tasks
cascade-IsSound_example = cascade-IsSound (pos 9) "a" tasks (tasks-IsSound ("a" ∷ []))

abbrev second : Task
second = stamped "b" "second" ("a" ∷ [])

abbrev second_cancelled : Task
second_cancelled = record second { status = TaskStatus.cancelled }

cascade-touches_dependents_example :
    (second_cancelled ≡ second) ⊎ ((v : String) × Dep tasks v "b" × Needs tasks v "a")
unfolding cascade cancel_loop cancel_round cancel_pass cancel_task_into refs_of is_at_worker
    update_task_status update_status TaskStatus.can_transit_to is_finished
cascade-touches_dependents_example =
    cascade-touches_dependents (pos 9) "a" tasks "b" second second_cancelled
      two_workflow-IsNew.dag.keyed two_workflow-IsNew.dag.distinct refl refl

-- "a" has succeeded on the worker "n"; "b" was running there.
abbrev done_at_n : Task
done_at_n = record (stamped "a" "first" []) { status = TaskStatus.succeeded; assigned_to = "n" }

abbrev engine_at_n : Engine
engine_at_n = record {
  workflows =
      (
        "w",
        record two_workflow {
          tasks =
              ("a", done_at_n)
              ∷ ("b", record second { status = TaskStatus.running; assigned_to = "n" })
              ∷ [];
          status = WorkflowStatus.running;
        },
      )
      ∷ [];
  has_notifier = true;
  pushed = [];
  published = [];
  notified = [];
}

reassign_dead_worker_tasks-leaves_none_example : is_at_worker done_at_n ≡ false
unfolding reassign_dead_worker_tasks reassign_workflows reassign_tasks reassign_one is_at_worker
    update_task_status update_status TaskStatus.can_transit_to
reassign_dead_worker_tasks-leaves_none_example =
    reassign_dead_worker_tasks-leaves_none seconds (pos 9) "n" engine_at_n "w" "a"
      (record two_workflow {
        tasks =
            ("a", done_at_n)
            ∷ ("b", record second { status = TaskStatus.ready; assigned_to = "" })
            ∷ [];
        status = WorkflowStatus.running;
      })
      done_at_n (λ e. absurd (cc ((eq_iff "n" "").1 e))) refl refl refl
