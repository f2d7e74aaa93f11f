-- ===== src/Engine/Settled.antt =====
-- infrastructure/control-plane/engine/engine.go: how the status of a workflow goes with its tasks,
-- and `finalizeWorkflowIfDone`.
use distributed_workflow_orc.Prelude.{
  eq_refl, ◌≡◌, refl, subst, inl, inr, Bool, true, false, [], ◌∷◌, String, arith, Map, lookup, some,
  some-injective, String-cases, Bool-cases, if◌then◌else◌,
}
use distributed_workflow_orc.Prelude.Int.{ℤ}
use distributed_workflow_orc.Prelude.Maps.{has-lookup}
use distributed_workflow_orc.Domain.TaskStatus
use distributed_workflow_orc.Domain.TaskStatus.{TaskStatus}
use distributed_workflow_orc.Domain.WorkflowStatus
use distributed_workflow_orc.Domain.WorkflowStatus.{
  WorkflowStatus, pending, running, succeeded, failed, cancelled,
}
use distributed_workflow_orc.Domain.Task.{Task, is_finished}
use distributed_workflow_orc.Domain.Workflow.{
  is_workflow_finished, all_tasks_finished, has_failed_task, has_cancelled_task, has_task_in,
}
use mathlib.Core.Option.{none-ne-some}
use distributed_workflow_orc.Domain.Dag.{Distinct}
use distributed_workflow_orc.Engine.State.{
  set_workflow_status, Work, finalize_workflow_if_done, final_status,
}
use distributed_workflow_orc.Engine.Evolve.{Every, Evolves}

abbrev pub has_succeeded : Task → Bool
has_succeeded t = TaskStatus.is_status t.status TaskStatus.succeeded

abbrev pub SomeUnfinished : Map Task → Type 0
SomeUnfinished m = (u : String) × (t : Task) × (lookup u m ≡ some t) × (is_finished t ≡ false)

-- What the status of a workflow says of its tasks: SUCCEEDED, that every one has succeeded; FAILED
-- and CANCELLED, that every one is finished; RUNNING, that one is not. Only a workflow with no tasks
-- stays PENDING.
abbrev pub IsSettled : WorkflowStatus → Map Task → Type 0
IsSettled pending m = m ≡ []
IsSettled running m = SomeUnfinished m
IsSettled succeeded m = Every (λ t. has_succeeded t ≡ true) m
IsSettled failed m = Every (λ t. is_finished t ≡ true) m
IsSettled cancelled m = Every (λ t. is_finished t ≡ true) m

abbrev is_active : WorkflowStatus → Bool
is_active pending = true
is_active running = true
is_active _ = false

all_tasks_finished-Every :
    (m : Map Task) → all_tasks_finished m ≡ true → Every (λ t. is_finished t ≡ true) m
unfolding all_tasks_finished
all_tasks_finished-Every [] h u t e = absurd (cc)
all_tasks_finished-Every ((k, s) ∷ m) h u t e = elim (String-cases k u) [
  | inl (_, hit) ↦
      subst (λ (z : Task). is_finished z ≡ true) (some-injective s t (rw hit at e)) (ground arith)
  | inr (_, miss) ↦ all_tasks_finished-Every m (ground arith) u t (rw miss at e)
]

has_task_in-Every :
    (s : TaskStatus) (m : Map Task)
    → has_task_in s m ≡ false
    → Every (λ t. TaskStatus.is_status t.status s ≡ false) m
unfolding has_task_in
has_task_in-Every s [] h u t e = absurd (cc)
has_task_in-Every s ((k, r) ∷ m) h u t e = elim (String-cases k u) [
  | inl (_, hit) ↦
      subst (λ (z : Task). TaskStatus.is_status z.status s ≡ false)
        (some-injective r t (rw hit at e)) (ground arith)
  | inr (_, miss) ↦ has_task_in-Every s m (ground arith) u t (rw miss at e)
]

all_tasks_finished-SomeUnfinished :
    (m : Map Task) → Distinct m → all_tasks_finished m ≡ false → SomeUnfinished m
unfolding all_tasks_finished
all_tasks_finished-SomeUnfinished [] d h = absurd (cc)
all_tasks_finished-SomeUnfinished ((k, s) ∷ m) d h = elim (Bool-cases (is_finished s)) [
  | inr left ↦ (k, s, rw (eq_refl k) refl, left)
  | inl done ↦
      let (u, t, found, left) = all_tasks_finished-SomeUnfinished m d.1 (ground arith) in
      elim (String-cases k u) [
        | inl (p, hit) ↦ absurd (none-ne-some t (ground (arith, p, found, d.0, has-lookup k m)))
        | inr (_, miss) ↦ (u, t, rw miss found, left)
      ]
]

-- A change that leaves the status of a finished task alone.
abbrev pub Keeps : Task → Task → Type 0
Keeps t t' = is_finished t ≡ true → t'.status ≡ t.status

finished-Evolves :
    (m m' : Map Task)
    → Evolves Keeps m m'
    → Every (λ t. is_finished t ≡ true) m
    → Every (λ t. is_finished t ≡ true) m'
unfolding is_finished
finished-Evolves m m' keeps h u t' e =
    let (t, found, kept) = keeps.back u t' e in ground (arith, kept (h u t found), h u t found)

succeeded-Evolves :
    (m m' : Map Task)
    → Evolves Keeps m m'
    → Every (λ t. has_succeeded t ≡ true) m
    → Every (λ t. has_succeeded t ≡ true) m'
unfolding is_finished
succeeded-Evolves m m' keeps h u t' e =
    let (t, found, kept) = keeps.back u t' e in ground (arith, kept, h u t found)

-- What a status says of finished tasks holds on, as long as their statuses are left alone.
pub IsSettled-Keeps :
    (s : WorkflowStatus) (m m' : Map Task)
    → WorkflowStatus.is_terminated s ≡ true
    → Evolves Keeps m m'
    → IsSettled s m
    → IsSettled s m'
unfolding WorkflowStatus.is_terminated
IsSettled-Keeps pending m m' done keeps h = absurd (cc)
IsSettled-Keeps running m m' done keeps h = absurd (cc)
IsSettled-Keeps succeeded m m' done keeps h = succeeded-Evolves m m' keeps h
IsSettled-Keeps failed m m' done keeps h = finished-Evolves m m' keeps h
IsSettled-Keeps cancelled m m' done keeps h = finished-Evolves m m' keeps h

module _ (now : ℤ) where
  finalize-running :
      (work : Work)
      → work.wf.status ≡ running
      → (finalize_workflow_if_done now work).wf.status
        ≡ (if all_tasks_finished work.wf.tasks then final_status work.wf.tasks else running)
  unfolding finalize_workflow_if_done set_workflow_status WorkflowStatus.can_transit_to
      is_workflow_finished final_status
  finalize-running work e = ground arith

  finalize-terminated :
      (work : Work)
      → WorkflowStatus.is_terminated work.wf.status ≡ true
      → (finalize_workflow_if_done now work).wf.status ≡ work.wf.status
  unfolding finalize_workflow_if_done is_workflow_finished WorkflowStatus.is_terminated
  finalize-terminated work e = ground arith

  pub finalize-tasks : (work : Work) → (finalize_workflow_if_done now work).wf.tasks ≡ work.wf.tasks
  unfolding finalize_workflow_if_done set_workflow_status WorkflowStatus.can_transit_to
  finalize-tasks work = ground arith

  -- The final status of finished tasks is one that says what they are.
  final_status-IsSettled :
      (m : Map Task) → all_tasks_finished m ≡ true → IsSettled (final_status m) m
  unfolding final_status has_failed_task has_cancelled_task is_finished
  final_status-IsSettled m done =
      let finished = all_tasks_finished-Every m done in
      elim (Bool-cases (has_failed_task m)) [
        | inl some_failed ↦ rw (some_failed, final_status) finished
        | inr no_failed ↦ elim (Bool-cases (has_cancelled_task m)) [
          | inl some_cancelled ↦ rw (no_failed, some_cancelled, final_status) finished
          | inr no_cancelled ↦
              rw (no_failed, no_cancelled, final_status)
                λ u t e. ground (
                  arith,
                  finished u t e,
                  has_task_in-Every TaskStatus.failed m no_failed u t e,
                  has_task_in-Every TaskStatus.cancelled m no_cancelled u t e,
                )
        ]
      ]

  -- `finalizeWorkflowIfDone` settles a workflow that runs.
  pub finalize-IsSettled :
      (work : Work)
      → Distinct work.wf.tasks
      → work.wf.status ≡ running
      → IsSettled (finalize_workflow_if_done now work).wf.status work.wf.tasks
  finalize-IsSettled work distinct e =
      rw (finalize-running work e) (elim (Bool-cases (all_tasks_finished work.wf.tasks)) [
        | inl done ↦ rw done (final_status-IsSettled work.wf.tasks done)
        | inr left ↦ rw left (all_tasks_finished-SomeUnfinished work.wf.tasks distinct left)
      ])

  terminated :
      (s : WorkflowStatus) (m : Map Task) (work : Work)
      → IsSettled s m
      → work.wf.status ≡ s
      → Evolves Keeps m work.wf.tasks
      → WorkflowStatus.is_terminated s ≡ true
      → IsSettled
          (finalize_workflow_if_done now work).wf.status
          (finalize_workflow_if_done now work).wf.tasks
  terminated s m work h e keeps done =
      rw (finalize-tasks work, finalize-terminated work (rw e done), e)
        (IsSettled-Keeps s m work.wf.tasks done keeps h)

  -- A handler that ends in `finalizeWorkflowIfDone`, on a workflow that has tasks, and which kept
  -- the statuses of finished tasks, leaves the workflow settled.
  pub settle :
      (s : WorkflowStatus) (m : Map Task) (k : String) (t : Task) (work : Work)
      → lookup k m ≡ some t
      → IsSettled s m
      → work.wf.status ≡ s
      → Evolves Keeps m work.wf.tasks
      → Distinct work.wf.tasks
      → IsSettled
          (finalize_workflow_if_done now work).wf.status
          (finalize_workflow_if_done now work).wf.tasks
  unfolding WorkflowStatus.is_terminated
  settle pending m k t work found h e keeps distinct =
      absurd (none-ne-some t (subst (λ z. lookup k z ≡ some t) h found))
  settle running m k t work found h e keeps distinct =
      rw (finalize-tasks work) (finalize-IsSettled work distinct e)
  settle succeeded m k t work found h e keeps distinct = terminated succeeded m work h e keeps refl
  settle failed m k t work found h e keeps distinct = terminated failed m work h e keeps refl
  settle cancelled m k t work found h e keeps distinct = terminated cancelled m work h e keeps refl
