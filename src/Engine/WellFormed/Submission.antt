-- ===== src/Engine/WellFormed/Submission.antt =====
-- infrastructure/control-plane/engine/engine.go: `SubmitWorkflow` under the invariant of a workflow.
use distributed_workflow_orc.Prelude.{
  ◌≡◌, refl, subst, sym, ◌∙◌, inl, inr, true, false, [], ◌∷◌, List, String, Map, lookup, has, some,
  Bool, arith, List-cases, Option-cases, if◌then◌else◌, ◌&&◌, contains, Memᴰ, eq_refl,
}
use distributed_workflow_orc.Prelude.Int.{ℤ}
use distributed_workflow_orc.Prelude.{All-mem}
use distributed_workflow_orc.Prelude.Maps.{has-lookup}
use mathlib.Core.WellFounded.{Acc}
use distributed_workflow_orc.Domain.TaskStatus
use distributed_workflow_orc.Domain.TaskStatus.{TaskStatus, is_target}
use distributed_workflow_orc.Domain.WorkflowStatus
use distributed_workflow_orc.Domain.WorkflowStatus.{WorkflowStatus}
use distributed_workflow_orc.Domain.Cycle.Graph.{Dep}
use distributed_workflow_orc.Domain.Dag.{IsDag}
use distributed_workflow_orc.Domain.Task.{Task, is_finished, is_ready}
use distributed_workflow_orc.Domain.Workflow.{Workflow, all_deps_succeeded}
use distributed_workflow_orc.Engine.State.{
  Work, start, mark_ready_tasks, recompute_ready_tasks, any_ready, start_running, mark_all,
  set_workflow_status,
}
use distributed_workflow_orc.Engine.Handlers.{submit_work}
use distributed_workflow_orc.Engine.Evolve.{Every, IsSound}
use distributed_workflow_orc.Engine.Marking.{
  contains-recompute, mark, mark_ready_tasks-IsSound, mark_ready_tasks-IsMarked,
}
use distributed_workflow_orc.Engine.Settled.{IsSettled}
use distributed_workflow_orc.Engine.Quiet.{mark_ready_tasks-lookup}
use distributed_workflow_orc.Engine.WellFormed.{IsWellFormed}
use distributed_workflow_orc.Engine.WellFormed.Response.{mark_all-status}

-- What `NewWorkflow` returns, for tasks that were all given as PENDING.
pub record IsNew (w : Workflow) : Type 0 where
  pub dag : IsDag w.tasks
  pub unstarted : Every (λ t. t.status ≡ TaskStatus.pending) w.tasks
  pub status : w.status ≡ WorkflowStatus.pending

IsNew-IsSound : (w : Workflow) → IsNew w → IsSound [] w.tasks
IsNew-IsSound w h = record {
  dag = h.dag;
  sane = λ u t e. rw (h.unstarted u t e) refl;
  started = λ u t e begun. absurd (cc (rw (h.unstarted u t e) at begun));
  unblocked = λ u t e left d s dep found lost. absurd (cc (rw (h.unstarted d s found) at lost));
}

-- Among what a task waits for, there is one with no dependencies.
source :
    (m : Map Task) (u : String) (t : Task)
    → IsDag m
    → Acc (Dep m) u
    → lookup u m ≡ some t
    → (v : String) × (s : Task) × (lookup v m ≡ some s) × (s.depends_on ≡ [])
source m u t dag (Acc.intro _ below) found = elim (List-cases t.depends_on) [
  | inl empty ↦ (u, t, found, empty)
  | inr (d, rest, e) ↦
      let dep : Memᴰ d t.depends_on = subst (Memᴰ d) (sym e) (Memᴰ.head refl) in
      let known = All-mem (λ j. has j m ≡ true) t.depends_on (dag.closed u t found) dep in
      elim (Option-cases (lookup d m)) [
        | inl missing ↦ absurd (ground (arith, has-lookup d m))
        | inr (s, there) ↦ source m d s dag (below d (t, found, dep)) there
      ]
]

any_ready-contains : (ids : List String) (u : String) → contains ids u ≡ true → any_ready ids ≡ true
any_ready-contains [] u h = h
any_ready-contains (id ∷ ids) u h = refl

ready_alone :
    (s : Task) (m : Map Task)
    → s.status ≡ TaskStatus.pending
    → s.depends_on ≡ []
    → (is_ready s && all_deps_succeeded s.depends_on m) ≡ true
unfolding is_ready all_deps_succeeded
ready_alone s m e alone = rw (e, alone) refl

module _ (seconds : ℤ → ℤ) (now : ℤ) where
  start_running-pending :
      (ids : List String) (work : Work)
      → any_ready ids ≡ true
      → work.wf.status ≡ WorkflowStatus.pending
      → (start_running now ids work).wf.status ≡ WorkflowStatus.running
  unfolding start_running set_workflow_status WorkflowStatus.can_transit_to
  start_running-pending ids work h e = ground arith

  mark_open :
      (b : Bool) (t : Task)
      → t.status ≡ TaskStatus.pending
      → is_finished (if b then mark t else t) ≡ false
  unfolding is_finished TaskStatus.can_transit_to
  mark_open b t h = ground arith

  marked_running :
      (w : Workflow) (u : String) (t : Task)
      → IsNew w
      → lookup u w.tasks ≡ some t
      → IsSettled
          (mark_ready_tasks seconds now (start w)).wf.status
          (mark_ready_tasks seconds now (start w)).wf.tasks
  unfolding mark_ready_tasks
  marked_running w u t h found =
      let m = w.tasks in
      let ids = recompute_ready_tasks m m in
      let (v, s, there, alone) = source m u t h.dag (h.dag.founded u t found) found in
      let pending = h.unstarted v s there in
      let listed =
        contains-recompute m m v s h.dag.keyed h.dag.distinct there
        ∙ ready_alone s m pending alone in
      let running =
        start_running-pending ids (start w) (any_ready-contains ids v listed) h.status in
      rw (mark_all-status seconds now ids (start_running now ids (start w)), running)
        (
          v,
          (if contains ids v then mark s else s),
          mark_ready_tasks-lookup now seconds (start w) v ∙ rw there refl,
          mark_open (contains ids v) s pending,
        )

  marked_empty :
      (w : Workflow)
      → w.tasks ≡ []
      → w.status ≡ WorkflowStatus.pending
      → IsSettled
          (mark_ready_tasks seconds now (start w)).wf.status
          (mark_ready_tasks seconds now (start w)).wf.tasks
  unfolding mark_ready_tasks recompute_ready_tasks start_running mark_all
  marked_empty w empty e = ground arith

  -- `SubmitWorkflow` makes a new workflow well-formed: it runs, unless it has no tasks.
  pub submit_work-IsWellFormed :
      (w : Workflow) → IsNew w → IsWellFormed (submit_work seconds now (start w)).wf
  unfolding submit_work
  submit_work-IsWellFormed w h =
      let sound = IsNew-IsSound w h in
      record {
        sound = mark_ready_tasks-IsSound seconds now (start w) sound;
        marked = mark_ready_tasks-IsMarked seconds now (start w) sound;
        settled = elim (List-cases w.tasks) [
          | inl empty ↦ marked_empty w empty h.status
          | inr ((k, t), rest, e) ↦ marked_running w k t h (rw e (rw (eq_refl k) refl))
        ];
      }
