-- ===== src/Engine/WellFormed.antt =====
-- infrastructure/control-plane/engine/engine.go: the invariant of a workflow between two handlers.
use distributed_workflow_orc.Prelude.{
  ◌∙◌, ◌≡◌, refl, subst, sym, true, false, [], String, Map, lookup, insert, some, Bool, List, arith,
}
use distributed_workflow_orc.Prelude.Int.{ℤ}
use mathlib.Core.Option.{none-ne-some}
use distributed_workflow_orc.Domain.TaskStatus
use distributed_workflow_orc.Domain.TaskStatus.{TaskStatus, is_target}
use distributed_workflow_orc.Domain.WorkflowStatus
use distributed_workflow_orc.Domain.WorkflowStatus.{
  WorkflowStatus, pending, running, succeeded, failed, cancelled,
}
use distributed_workflow_orc.Domain.Task.{Task, is_finished}
use distributed_workflow_orc.Domain.Workflow.{Workflow}
use distributed_workflow_orc.Engine.State.{update_task_status}
use distributed_workflow_orc.Engine.Evolve.{
  is_lost, Every, Evolves, Evolves-insert, Grows, IsSound, moved, moved-Grows,
  update_task_status-moved, is_started, is_sane,
}
use distributed_workflow_orc.Domain.Workflow.{all_deps_succeeded}
use distributed_workflow_orc.Engine.Marking.{IsMarked}
use distributed_workflow_orc.Engine.Settled.{IsSettled, IsSettled-Keeps, Keeps, SomeUnfinished}
pub mod Response
pub mod Cancellation
pub mod Movement
pub mod Submission

pub record IsWellFormed (w : Workflow) : Type 0 where
  pub sound : IsSound [] w.tasks
  pub marked : IsMarked w.tasks
  pub settled : IsSettled w.status w.tasks

-- A change that leaves unfinished tasks unfinished.
abbrev pub StaysOpen : Task → Task → Type 0
StaysOpen t t' = is_finished t ≡ false → is_finished t' ≡ false

SomeUnfinished-Evolves :
    (m m' : Map Task) → Evolves StaysOpen m m' → SomeUnfinished m → SomeUnfinished m'
SomeUnfinished-Evolves m m' grows (u, t, found, left) =
    let (t', found', g) = grows.forth u t found in (u, t', found', g left)

pub IsSettled-Evolves :
    (s : WorkflowStatus) (m m' : Map Task)
    → Evolves Keeps m m'
    → Evolves StaysOpen m m'
    → (m ≡ [] → m' ≡ [])
    → IsSettled s m
    → IsSettled s m'
unfolding WorkflowStatus.is_terminated
IsSettled-Evolves pending m m' keeps stays empty h = empty h
IsSettled-Evolves running m m' keeps stays empty h = SomeUnfinished-Evolves m m' stays h
IsSettled-Evolves succeeded m m' keeps stays empty h = IsSettled-Keeps succeeded m m' refl keeps h
IsSettled-Evolves failed m m' keeps stays empty h = IsSettled-Keeps failed m m' refl keeps h
IsSettled-Evolves cancelled m m' keeps stays empty h = IsSettled-Keeps cancelled m m' refl keeps h

-- A workflow with a task is not PENDING.
pub IsSettled-not_pending :
    (s : WorkflowStatus) (m : Map Task) (k : String) (t : Task)
    → lookup k m ≡ some t
    → IsSettled s m
    → WorkflowStatus.is_status s pending ≡ false
IsSettled-not_pending pending m k t found h =
    absurd (none-ne-some t (subst (λ z. lookup k z ≡ some t) h found))
IsSettled-not_pending running m k t found h = refl
IsSettled-not_pending succeeded m k t found h = refl
IsSettled-not_pending failed m k t found h = refl
IsSettled-not_pending cancelled m k t found h = refl

-- A change of a task as far as the graph and the status go.
pub Grows-with :
    (m : Map Task) (t t' t'' : Task)
    → t''.id ≡ t'.id
    → t''.depends_on ≡ t'.depends_on
    → t''.status ≡ t'.status
    → Grows m t t'
    → Grows m t t''
Grows-with m t t' t'' id deps status g = record {
  same_id = id ∙ g.same_id;
  same_deps = deps ∙ g.same_deps;
  kept = λ h. status ∙ g.kept h;
  sane = λ h. rw status (g.sane h);
  began = λ h. g.began (rw status at h);
}

pub moved_lost :
    (a s : TaskStatus) → is_lost s ≡ false → is_lost (moved a s) ≡ true → is_lost a ≡ true
unfolding TaskStatus.can_transit_to
moved_lost a s h k = ground arith
