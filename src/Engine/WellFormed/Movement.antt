-- ===== src/Engine/WellFormed/Movement.antt =====
-- infrastructure/control-plane/engine/engine.go: `OnTaskDispatched` and `ReassignDeadWorkerTasks`
-- under the invariant of a workflow.
use distributed_workflow_orc.Prelude.{
  some-injective, ◌≡◌, refl, subst, sym, ◌∙◌, inl, inr, true, false, [], ◌∷◌, String, Map, lookup,
  insert, some, arith, Bool-cases, if◌then◌else◌, ◌&&◌, map_values, ap, ◌==◌,
}
use distributed_workflow_orc.Prelude.Int.{ℤ}
use mathlib.Core.Option.{none-ne-some}
use distributed_workflow_orc.Domain.TaskStatus
use distributed_workflow_orc.Domain.TaskStatus.{TaskStatus, is_target}
use distributed_workflow_orc.Domain.Dag.{IsKeyed-map_values, Distinct-map_values, lookup-before}
use distributed_workflow_orc.Domain.Task.{Task, is_finished}
use distributed_workflow_orc.Domain.Workflow.{Workflow}
use distributed_workflow_orc.Engine.State.{start, with_tasks, update_task_status}
use distributed_workflow_orc.Engine.Cancel.{is_at_worker}
use distributed_workflow_orc.Engine.Handlers.{dispatched_work, reassign_one, reassign_tasks}
use distributed_workflow_orc.Engine.Evolve.{
  Evolves, Evolves-insert, Evolves-map_values, Grows, Grows-refl, IsSound, IsSound-Evolves,
  insert-IsSound, moved, moved-Grows, update_task_status-moved, is_sane, is_lost, is_started,
}
use distributed_workflow_orc.Engine.Settled.{Keeps}
use distributed_workflow_orc.Engine.Quiet.{
  Evolves-mono, Quiet, Quiet-refl, moved-Quiet, IsMarked-Quiet,
}
use distributed_workflow_orc.Engine.WellFormed.{
  IsWellFormed, Grows-with, moved_lost, StaysOpen, IsSettled-Evolves,
}

moved_open :
    (a s : TaskStatus)
    → TaskStatus.is_terminated s ≡ false
    → TaskStatus.is_terminated a ≡ false
    → TaskStatus.is_terminated (moved a s) ≡ false
unfolding TaskStatus.is_terminated TaskStatus.can_transit_to
moved_open a s h k = ground arith

-- A change that cancels, fails and starts nothing, under which the workflow keeps its status.
moving-IsWellFormed :
    (w : Workflow) (m : Map Task)
    → IsSound [] m
    → Evolves Quiet w.tasks m
    → Evolves StaysOpen w.tasks m
    → (w.tasks ≡ [] → m ≡ [])
    → IsWellFormed w
    → IsWellFormed (with_tasks m w)
moving-IsWellFormed w m sound quiet stays empty h = record {
  sound = sound;
  marked = IsMarked-Quiet w.tasks m quiet h.marked;
  settled =
      IsSettled-Evolves w.status w.tasks m
        (Evolves-mono Quiet Keeps (λ r s q. q.keeps) w.tasks m quiet) stays empty h.settled;
}

module _ (seconds : ℤ → ℤ) (now : ℤ) where
  -- `OnTaskDispatched` keeps a workflow well-formed.
  pub dispatched_work-IsWellFormed :
      (id worker_id : String) (t : Task) (w : Workflow)
      → lookup id w.tasks ≡ some t
      → IsWellFormed w
      → IsWellFormed (dispatched_work seconds now id worker_id t (start w)).wf
  unfolding dispatched_work is_finished TaskStatus.is_terminated
  dispatched_work-IsWellFormed id worker_id t w found h =
      let m = w.tasks in
      let t' = record t {
        status = moved t.status TaskStatus.dispatched;
        assigned_to = worker_id;
      } in
      let grows : Grows m t t' = Grows-with m t _ t' refl refl refl (
        moved-Grows m TaskStatus.dispatched t refl (h.sound.sane id t found)
          (λ e. absurd (cc e))) in
      rw (update_task_status-moved now TaskStatus.dispatched (record t { assigned_to = worker_id }))
        (moving-IsWellFormed w (insert id t' m)
          (insert-IsSound [] id t t' m found grows
            (λ lost. inl (moved_lost t.status TaskStatus.dispatched refl lost)) h.sound)
          (Evolves-insert Quiet id t t' m found
            (moved-Quiet TaskStatus.dispatched t t' refl refl refl refl) Quiet-refl)
          (Evolves-insert StaysOpen id t t' m found
            (λ left. moved_open t.status TaskStatus.dispatched refl left) (λ s e. e))
          (λ empty. absurd (none-ne-some t (subst (λ z. lookup id z ≡ some t) empty found))) h)

-- What `ReassignDeadWorkerTasks` does to a task.
abbrev pub reassign : String → Task → Task
reassign worker_id t =
    if t.assigned_to == worker_id && is_at_worker t
    then record t { assigned_to = ""; status = moved t.status TaskStatus.ready }
    else t

at_worker_started : (t : Task) → is_at_worker t ≡ true → is_started t.status ≡ true
unfolding is_at_worker
at_worker_started t h = ground arith

reassign-Grows :
    (worker_id : String) (m : Map Task) (t : Task)
    → is_sane t.status ≡ true
    → Grows m t (reassign worker_id t)
reassign-Grows worker_id m t sane =
    elim (Bool-cases (t.assigned_to == worker_id && is_at_worker t)) [
      | inl held ↦
          rw (held, reassign)
            (Grows-with m t _ _ refl refl refl (
              moved-Grows m TaskStatus.ready t refl sane
                (λ e. inl (at_worker_started t (ground arith)))))
      | inr other ↦ rw (other, reassign) (Grows-refl m t)
    ]

reassign-Quiet : (worker_id : String) (t : Task) → Quiet t (reassign worker_id t)
reassign-Quiet worker_id t = elim (Bool-cases (t.assigned_to == worker_id && is_at_worker t)) [
  | inl held ↦ rw (held, reassign) (moved-Quiet TaskStatus.ready t _ refl refl refl refl)
  | inr other ↦ rw (other, reassign) (Quiet-refl t)
]

reassign-StaysOpen : (worker_id : String) (t : Task) → StaysOpen t (reassign worker_id t)
unfolding is_finished TaskStatus.can_transit_to
reassign-StaysOpen worker_id t h = ground arith

reassign-lost :
    (worker_id : String) (t : Task)
    → is_lost (reassign worker_id t).status ≡ true
    → is_lost t.status ≡ true
unfolding TaskStatus.can_transit_to
reassign-lost worker_id t h = ground arith

module _ (seconds : ℤ → ℤ) (now : ℤ) (worker_id : String) where
  reassign_one-reassign :
      (t : Task) → (reassign_one seconds now worker_id t).0 ≡ reassign worker_id t
  unfolding reassign_one update_task_status TaskStatus.can_transit_to is_at_worker
  reassign_one-reassign t = ground arith

  pub reassign_tasks-map_values :
      (m : Map Task)
      → (reassign_tasks seconds now worker_id m).0 ≡ map_values (reassign worker_id) m
  unfolding reassign_tasks
  reassign_tasks-map_values [] = refl
  reassign_tasks-map_values ((k, t) ∷ m) = rw (reassign_one-reassign t, reassign_tasks-map_values m)

  reassign-IsSound : (m : Map Task) → IsSound [] m → IsSound [] (map_values (reassign worker_id) m)
  reassign-IsSound m h =
      IsSound-Evolves [] [] m (map_values (reassign worker_id) m)
        (Evolves-map_values (Grows m) (reassign worker_id) m
          (λ u t e. reassign-Grows worker_id m t (h.sane u t e)))
        (IsKeyed-map_values (reassign worker_id) same_id same_deps m h.dag.keyed)
        (Distinct-map_values (reassign worker_id) same_id same_deps m h.dag.distinct)
        (λ u t t' e e' lost.
          let (s, found, same) = lookup-before (reassign worker_id) same_id same_deps u m t' e' in
          inl (
            subst (λ (z : Task). is_lost z.status ≡ true) (some-injective s t (sym found ∙ e))
              (reassign-lost worker_id s
                (subst (λ (z : Task). is_lost z.status ≡ true) same lost))))
        (λ u t e left d dep queued. queued) h
    where
      same_id : (t : Task) → (reassign worker_id t).id ≡ t.id
      same_id t = ground arith

      same_deps : (t : Task) → (reassign worker_id t).depends_on ≡ t.depends_on
      same_deps t = ground arith

  -- `ReassignDeadWorkerTasks` keeps a workflow well-formed.
  pub reassign-IsWellFormed :
      (w : Workflow)
      → IsWellFormed w
      → IsWellFormed (with_tasks (reassign_tasks seconds now worker_id w.tasks).0 w)
  reassign-IsWellFormed w h = rw (reassign_tasks-map_values w.tasks) (
      moving-IsWellFormed w (map_values (reassign worker_id) w.tasks)
        (reassign-IsSound w.tasks h.sound)
        (Evolves-map_values Quiet (reassign worker_id) w.tasks
          (λ u t e. reassign-Quiet worker_id t))
        (Evolves-map_values StaysOpen (reassign worker_id) w.tasks
          (λ u t e. reassign-StaysOpen worker_id t))
        (λ empty. ap (map_values (reassign worker_id)) empty) h)
