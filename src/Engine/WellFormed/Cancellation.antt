-- ===== src/Engine/WellFormed/Cancellation.antt =====
-- infrastructure/control-plane/engine/engine.go: `CancelTask` and `CancelWorkflow` under the
-- invariant of a workflow.
use distributed_workflow_orc.Prelude.{
  Memᴰ, ◌≡◌, refl, sym, ◌∙◌, inl, inr, true, [], ◌∷◌, String, Map, lookup, insert, some, arith,
  Bool-cases, map_values,
}
use distributed_workflow_orc.Prelude.Int.{ℤ}
use distributed_workflow_orc.Domain.TaskStatus
use distributed_workflow_orc.Domain.TaskStatus.{TaskStatus, is_target}
use distributed_workflow_orc.Domain.WorkflowStatus
use distributed_workflow_orc.Domain.WorkflowStatus.{
  WorkflowStatus, pending, running, succeeded, failed, cancelled,
}
use distributed_workflow_orc.Domain.Dag.{IsKeyed-lookup, IsDag-map_values, lookup-before}
use distributed_workflow_orc.Domain.Task.{Task, is_finished}
use distributed_workflow_orc.Domain.Workflow.{Workflow}
use distributed_workflow_orc.Engine.State.{Work, start, with_tasks, set_workflow_status}
use distributed_workflow_orc.Engine.Cancel.{cascade, cancel_every, cancel_downstream}
use distributed_workflow_orc.Engine.Cascade.{cascade-IsSound}
use distributed_workflow_orc.Engine.Handlers.{cancel_task_work, cancel_workflow_work}
use distributed_workflow_orc.Engine.Evolve.{
  Every, Evolves, Evolves-insert, Evolves-map_values, Grows, Grows-refl, IsSound, insert-IsSound,
  moved, moved-Grows, update_task_status-moved, is_sane, sane-Evolves, started-Evolves,
}
use distributed_workflow_orc.Engine.Settled.{
  IsSettled, IsSettled-Keeps, Keeps, settle, finalize-tasks,
}
use distributed_workflow_orc.Engine.Quiet.{
  Evolves-mono, Evolves-trans, Quiet, Quiet-refl, Quiet-trans, moved-Quiet, cascade-Quiet,
  IsMarked-Quiet, cancel, cancel-Quiet, cancel_every-map_values,
}
use distributed_workflow_orc.Engine.WellFormed.{IsWellFormed}

module _ (seconds : ℤ → ℤ) (now : ℤ) where
  -- `CancelTask` keeps a workflow well-formed.
  pub cancel_task_work-IsWellFormed :
      (id : String) (t : Task) (w : Workflow)
      → lookup id w.tasks ≡ some t
      → IsWellFormed w
      → IsWellFormed (cancel_task_work seconds now id t (start w)).wf
  unfolding cancel_task_work cancel_downstream
  cancel_task_work-IsWellFormed id t w found h =
      let m = w.tasks in
      let t' = record t { status = moved t.status TaskStatus.cancelled } in
      let grows : Grows m t t' =
        moved-Grows m TaskStatus.cancelled t refl (h.sound.sane id t found) (λ e. absurd (cc e)) in
      let ended =
        (cascade-IsSound now t.id (insert id t' m) (
          insert-IsSound (t.id ∷ []) id t t' m found grows
            (λ lost. inr (Memᴰ.head (sym (IsKeyed-lookup id m h.sound.dag.keyed found))))
            h.sound)).1 in
      let quiet : Evolves Quiet m (cascade now t.id (insert id t' m)).tasks =
        Evolves-trans Quiet Quiet-trans m (insert id t' m) _
          (Evolves-insert Quiet id t t' m found
            (moved-Quiet TaskStatus.cancelled t t' refl refl refl refl) Quiet-refl)
          (cascade-Quiet now t.id (insert id t' m)) in
      rw (update_task_status-moved now TaskStatus.cancelled t) (record {
        sound = rw (finalize-tasks now) ended;
        marked = rw (finalize-tasks now) (IsMarked-Quiet m _ quiet h.marked);
        settled =
            settle now w.status m id t _ found h.settled refl
              (Evolves-mono Quiet Keeps (λ r s q. q.keeps) _ _ quiet) ended.dag.distinct;
      })

cancel-finishes : (t : Task) → is_sane t.status ≡ true → is_finished (cancel t) ≡ true
unfolding is_finished TaskStatus.can_transit_to
cancel-finishes t h = ground arith

cancel-Grows : (m : Map Task) (t : Task) → is_sane t.status ≡ true → Grows m t (cancel t)
cancel-Grows m t sane = elim (Bool-cases (is_finished t)) [
  | inl done ↦ rw (done, cancel) (Grows-refl m t)
  | inr left ↦
      rw (left, cancel) (moved-Grows m TaskStatus.cancelled t refl sane (λ e. absurd (cc e)))
]

-- Cancelling every unfinished task of a sound workflow finishes them all.
pub map_values-cancel_finishes :
    (m : Map Task) → IsSound [] m → Every (λ t. is_finished t ≡ true) (map_values cancel m)
map_values-cancel_finishes m h u t e =
    let (s, found, same) = lookup-before cancel (λ t. ground arith) (λ t. ground arith) u m t e in
    rw same (cancel-finishes s (h.sane u s found))

cancel_every-IsSound : (m : Map Task) → IsSound [] m → IsSound [] (map_values cancel m)
cancel_every-IsSound m h =
    let grows = Evolves-map_values (Grows m) cancel m (λ u t e. cancel-Grows m t (h.sane u t e)) in
    record {
      dag = IsDag-map_values cancel (λ t. ground arith) (λ t. ground arith) m h.dag;
      sane = sane-Evolves m (map_values cancel m) grows h.sane;
      started = started-Evolves m (map_values cancel m) grows h.started;
      unblocked =
          λ u t e left d s dep found lost. absurd (cc (left, map_values-cancel_finishes m h u t e));
    }

-- A workflow whose tasks were all cancelled or finished, after a request to make it CANCELLED.
cancelled-IsSettled :
    (now : ℤ) (s : WorkflowStatus) (m m' : Map Task) (work : Work)
    → work.wf.status ≡ s
    → Evolves Keeps m m'
    → Every (λ t. is_finished t ≡ true) m'
    → IsSettled s m
    → IsSettled (set_workflow_status now cancelled work).wf.status m'
unfolding set_workflow_status WorkflowStatus.can_transit_to WorkflowStatus.is_terminated
cancelled-IsSettled now pending m m' work e keeps done h = rw e done
cancelled-IsSettled now running m m' work e keeps done h = rw e done
cancelled-IsSettled now succeeded m m' work e keeps done h =
    rw e (IsSettled-Keeps succeeded m m' refl keeps h)
cancelled-IsSettled now failed m m' work e keeps done h =
    rw e (IsSettled-Keeps failed m m' refl keeps h)
cancelled-IsSettled now cancelled m m' work e keeps done h =
    rw e (IsSettled-Keeps cancelled m m' refl keeps h)

set_workflow_status-tasks :
    (now : ℤ) (s : WorkflowStatus) (work : Work)
    → (set_workflow_status now s work).wf.tasks ≡ work.wf.tasks
unfolding set_workflow_status WorkflowStatus.can_transit_to
set_workflow_status-tasks now s work = ground arith

module _ (seconds : ℤ → ℤ) (now : ℤ) where
  -- The work before the status of the workflow is written.
  abbrev all_cancelled : Workflow → Work
  all_cancelled w =
      let p = cancel_every now w.tasks in
      record { wf = with_tasks p.tasks w; events = p.events; jobs = []; running = p.running }

  pub cancel_workflow_work-tasks :
      (w : Workflow)
      → (cancel_workflow_work seconds now (start w)).wf.tasks ≡ map_values cancel w.tasks
  unfolding cancel_workflow_work
  cancel_workflow_work-tasks w =
      set_workflow_status-tasks now cancelled (all_cancelled w)
      ∙ cancel_every-map_values now w.tasks

  -- `CancelWorkflow` keeps a workflow well-formed.
  pub cancel_workflow_work-IsWellFormed :
      (w : Workflow) → IsWellFormed w → IsWellFormed (cancel_workflow_work seconds now (start w)).wf
  unfolding cancel_workflow_work
  cancel_workflow_work-IsWellFormed w h =
      let quiet = Evolves-map_values Quiet cancel w.tasks (λ u t e. cancel-Quiet t) in
      let same = cancel_workflow_work-tasks w in
      record {
        sound = rw same (cancel_every-IsSound w.tasks h.sound);
        marked = rw same (IsMarked-Quiet w.tasks (map_values cancel w.tasks) quiet h.marked);
        settled = rw same (
            cancelled-IsSettled now w.status w.tasks (map_values cancel w.tasks) (all_cancelled w)
              refl (Evolves-mono Quiet Keeps (λ r s q. q.keeps) _ _ quiet)
              (map_values-cancel_finishes w.tasks h.sound) h.settled);
      }
