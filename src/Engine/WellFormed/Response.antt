-- ===== src/Engine/WellFormed/Response.antt =====
-- infrastructure/control-plane/engine/engine.go: `OnTaskResponse` under the invariant of a workflow.
use distributed_workflow_orc.Prelude.{
  ◌≢◌, ◌⊎◌, Memᴰ, ◌≡◌, refl, sym, ◌∙◌, inl, inr, true, false, [], ◌∷◌, List, String, Map, lookup,
  insert, some, arith, Bool-cases, if◌then◌else◌,
}
use distributed_workflow_orc.Prelude.Int.{ℤ}
use distributed_workflow_orc.Domain.TaskStatus
use distributed_workflow_orc.Domain.TaskStatus.{TaskStatus, is_target}
use distributed_workflow_orc.Domain.WorkflowStatus
use distributed_workflow_orc.Domain.WorkflowStatus.{WorkflowStatus}
use distributed_workflow_orc.Domain.Dag.{IsKeyed-lookup}
use distributed_workflow_orc.Domain.Task.{Task, TaskResult}
use distributed_workflow_orc.Domain.Workflow.{Workflow}
use distributed_workflow_orc.Engine.State.{
  Work, start, update_task_status, mark_ready_tasks, start_running, mark_all, mark_one,
  recompute_ready_tasks,
}
use distributed_workflow_orc.Engine.Cancel.{cancel_downstream, cascade}
use distributed_workflow_orc.Engine.Cascade.{cascade-IsSound}
use distributed_workflow_orc.Engine.Handlers.{respond_task, response_work}
use distributed_workflow_orc.Engine.Evolve.{
  is_lost, Evolves, Evolves-insert, Grows, IsSound, insert-IsSound, moved, moved-Grows,
  update_task_status-moved,
}
use distributed_workflow_orc.Engine.Marking.{mark_ready_tasks-IsSound, mark_ready_tasks-IsMarked}
use distributed_workflow_orc.Engine.Settled.{Keeps, settle, finalize-tasks}
use distributed_workflow_orc.Engine.Quiet.{
  Evolves-mono, Evolves-trans, Evolves-refl, Keeps-trans, Quiet, cascade-Quiet,
  mark_ready_tasks-Keeps,
}
use distributed_workflow_orc.Engine.WellFormed.{
  IsWellFormed, Grows-with, moved_lost, IsSettled-not_pending,
}

module _ (seconds : ℤ → ℤ) (now : ℤ) where
  pub mark_all-status :
      (ids : List String) (work : Work) → (mark_all seconds now ids work).wf.status ≡ work.wf.status
  unfolding mark_all mark_one
  mark_all-status [] work = refl
  mark_all-status (id ∷ ids) work =
      mark_all-status ids (mark_one seconds now id work) ∙ ground arith

  start_running-status :
      (ids : List String) (work : Work)
      → WorkflowStatus.is_status work.wf.status WorkflowStatus.pending ≡ false
      → (start_running now ids work).wf.status ≡ work.wf.status
  unfolding start_running
  start_running-status ids work h = ground arith

  pub mark_ready_tasks-status :
      (work : Work)
      → WorkflowStatus.is_status work.wf.status WorkflowStatus.pending ≡ false
      → (mark_ready_tasks seconds now work).wf.status ≡ work.wf.status
  unfolding mark_ready_tasks start_running
  mark_ready_tasks-status work h =
      let ids = recompute_ready_tasks work.wf.tasks work.wf.tasks in
      mark_all-status ids (start_running now ids work) ∙ start_running-status ids work h

  -- The task that a report of a final status writes back.
  abbrev reported : TaskResult → Task → Task
  reported result t = record t { status = moved t.status result.status; result = some result }

  pub insert-Keeps :
      (k : String) (t t' : Task) (m : Map Task)
      → lookup k m ≡ some t
      → Keeps t t'
      → Evolves Keeps m (insert k t' m)
  insert-Keeps k t t' m found keeps = Evolves-insert Keeps k t t' m found keeps (λ s h. refl)

  respond_task-tasks :
      (id : String) (result : TaskResult) (t : Task) (work : Work)
      → (respond_task seconds now id result t work).wf.tasks ≡ (
          if TaskStatus.is_status result.status TaskStatus.failed
          then if (update_task_status now result.status t).2
            then (cascade now t.id (insert id (reported result t) work.wf.tasks)).tasks
            else work.wf.tasks
          else if TaskStatus.is_status result.status TaskStatus.succeeded
          then if (update_task_status now result.status t).2
            then insert id (reported result t) work.wf.tasks
            else work.wf.tasks
          else if TaskStatus.is_status result.status TaskStatus.running
          then insert id (record t { status = moved t.status result.status }) work.wf.tasks
          else work.wf.tasks)
  unfolding respond_task cancel_downstream
  respond_task-tasks id result t work =
      rw (update_task_status-moved now result.status t) (ground arith)

  respond_task-status :
      (id : String) (result : TaskResult) (t : Task) (work : Work)
      → (respond_task seconds now id result t work).wf.status ≡ work.wf.status
  unfolding respond_task cancel_downstream
  respond_task-status id result t work = ground arith

  -- Either nothing happens, or the task is written back; then the cascade runs, if it failed.
  abbrev Outcome : String → TaskResult → Task → Map Task → Map Task → Type 0
  Outcome id result t m m' =
      (m' ≡ m)
      ⊎ ((t' : Task) × (t'.id ≡ t.id)
          × (t'.depends_on ≡ t.depends_on)
          × (t'.status ≡ moved t.status result.status)
          × (is_target result.status ≡ true)
          × (result.status ≢ TaskStatus.ready)
          × (((is_lost result.status ≡ false) × (m' ≡ insert id t' m))
              ⊎ (m' ≡ (cascade now t.id (insert id t' m)).tasks)))

  respond_task-Outcome :
      (id : String) (result : TaskResult) (t : Task) (work : Work)
      → Outcome id result t work.wf.tasks (respond_task seconds now id result t work).wf.tasks
  respond_task-Outcome id result t work =
      rw (respond_task-tasks id result t work)
        (elim (Bool-cases (TaskStatus.is_status result.status TaskStatus.failed)) [
          | inl fails ↦ rw fails (elim (Bool-cases (update_task_status now result.status t).2) [
            | inr refused ↦ rw refused (inl refl)
            | inl granted ↦ rw granted (
                inr
                  (reported result t, refl, refl, refl, ground arith, λ e. ground arith, inr refl))
          ])
          | inr fine ↦
              rw fine (elim (Bool-cases (TaskStatus.is_status result.status TaskStatus.succeeded)) [
                | inl succeeds ↦
                    rw succeeds (elim (Bool-cases (update_task_status now result.status t).2) [
                      | inr refused ↦ rw refused (inl refl)
                      | inl granted ↦ rw granted (
                          inr (
                            reported result t,
                            refl,
                            refl,
                            refl,
                            ground arith,
                            λ e. ground arith,
                            inl (ground arith, refl),
                          ))
                    ])
                | inr still ↦
                    rw still
                      (elim (Bool-cases (TaskStatus.is_status result.status TaskStatus.running)) [
                        | inr ignored ↦ rw ignored (inl refl)
                        | inl begins ↦ rw begins (
                            inr (
                              record t { status = moved t.status result.status },
                              refl,
                              refl,
                              refl,
                              ground arith,
                              λ e. ground arith,
                              inl (ground arith, refl),
                            ))
                      ])
              ])
        ])

  -- The tasks after the `switch`: a sound workflow, with finished tasks left alone.
  respond_task-IsSound :
      (id : String) (result : TaskResult) (t : Task) (m m' : Map Task)
      → lookup id m ≡ some t
      → Outcome id result t m m'
      → IsSound [] m
      → IsSound [] m' × Evolves Keeps m m'
  respond_task-IsSound id result t m m' found (inl same) h =
      rw same (h, Evolves-refl Keeps (λ s e. refl) m)
  respond_task-IsSound id result t m m' found
        (inr (t', same_id, same_deps, status, target, unready, after)) h =
      let grows : Grows m t t' =
        Grows-with m t _ t' same_id same_deps status
          (moved-Grows m result.status t target (h.sane id t found) (λ e. absurd (unready e))) in
      let keeps = insert-Keeps id t t' m found grows.kept in
      elim after [
        | inl (alive, e) ↦ rw e (
          insert-IsSound [] id t t' m found grows
              (λ lost. inl (moved_lost t.status result.status alive (rw status at lost))) h,
          keeps,
        )
        | inr e ↦ rw e (
          (cascade-IsSound now t.id (insert id t' m) (
              insert-IsSound (t.id ∷ []) id t t' m found grows
                (λ lost. inr (Memᴰ.head (sym (IsKeyed-lookup id m h.dag.keyed found)))) h)).1,
          Evolves-trans Keeps Keeps-trans m (insert id t' m) _ keeps (
              Evolves-mono Quiet Keeps (λ r s q. q.keeps) _ _
                (cascade-Quiet now t.id (insert id t' m))),
        )
      ]

  -- A response, whatever it reports, keeps a workflow well-formed.
  pub response_work-IsWellFormed :
      (id : String) (result : TaskResult) (t : Task) (w : Workflow)
      → lookup id w.tasks ≡ some t
      → IsWellFormed w
      → IsWellFormed (response_work seconds now id result t (start w)).wf
  unfolding response_work
  response_work-IsWellFormed id result t w found h =
      let after = respond_task seconds now id result t (start w) in
      let marked = mark_ready_tasks seconds now after in
      let (sound, keeps) =
        respond_task-IsSound id result t w.tasks after.wf.tasks found
          (respond_task-Outcome id result t (start w)) h.sound in
      let sound_marked = mark_ready_tasks-IsSound seconds now after sound in
      let same = finalize-tasks now marked in
      let status : after.wf.status ≡ w.status = respond_task-status id result t (start w) in
      let begun = IsSettled-not_pending w.status w.tasks id t found h.settled in
      record {
        sound = rw same sound_marked;
        marked = rw same (mark_ready_tasks-IsMarked seconds now after sound);
        settled =
            settle now w.status w.tasks id t marked found h.settled
              (mark_ready_tasks-status after (rw status begun) ∙ status)
              (Evolves-trans Keeps Keeps-trans w.tasks after.wf.tasks marked.wf.tasks keeps
                (mark_ready_tasks-Keeps now seconds after))
              sound_marked.dag.distinct;
      }
