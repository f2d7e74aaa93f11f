-- ===== src/Engine/Quiet.antt =====
-- infrastructure/control-plane/engine/engine.go: changes after which no task may be started that
-- could not be before, and that leave finished tasks alone. Cancelling is one.
use distributed_workflow_orc.Prelude.{
  length, ℕ, zero, suc, ◌≡◌, refl, sym, subst, ◌∙◌, inl, inr, Bool, true, false, List, [], ◌∷◌,
  String, arith, Map, lookup, map_values, Bool-cases, Option-cases, List-cases, if◌then◌else◌,
  contains,
}
use distributed_workflow_orc.Prelude.Int.{ℤ}
use distributed_workflow_orc.Domain.TaskStatus
use distributed_workflow_orc.Domain.TaskStatus.{TaskStatus, is_target}
use distributed_workflow_orc.Domain.Task.{Task, is_finished, is_ready}
use distributed_workflow_orc.Domain.Workflow.{all_deps_succeeded}
use distributed_workflow_orc.Engine.State.{
  Work, mark_ready_tasks, update_task_status, recompute_ready_tasks, start_running,
}
use distributed_workflow_orc.Engine.Cancel.{
  Pass, cancel_pass, cancel_round, cancel_loop, cascade, cancel_every, cancel_task_into,
}
use distributed_workflow_orc.Engine.Evolve.{Evolves, Evolves-map_values, moved, moved_kept}
use distributed_workflow_orc.Engine.Cascade.{cancel_one, cancel_pass-map_values}
use distributed_workflow_orc.Engine.Marking.{start_running-tasks, IsMarked, lookup-mark_all, mark}
use mathlib.Core.Option
use mathlib.Core.Option.{none-ne-some}
use distributed_workflow_orc.Prelude.{ap, length}
use distributed_workflow_orc.Engine.Settled.{Keeps, has_succeeded}

module _ (R : Task → Task → Type 0) where
  pub Evolves-refl : ((t : Task) → R t t) → (m : Map Task) → Evolves R m m
  Evolves-refl same m = record { forth = λ u t e. (t, e, same t); back = λ u t e. (t, e, same t) }

  pub Evolves-trans :
      ((r s t : Task) → R r s → R s t → R r t)
      → (m m' m'' : Map Task) → Evolves R m m'
      → Evolves R m' m''
      → Evolves R m m''
  Evolves-trans trans m m' m'' first second = record {
    forth = λ u r e.
        let (s, found, p) = first.forth u r e in
        let (t, after, q) = second.forth u s found in (t, after, trans r s t p q);
    back = λ u t e.
        let (s, found, q) = second.back u t e in
        let (r, before, p) = first.back u s found in (r, before, trans r s t p q);
  }

pub Evolves-mono :
    (R S : Task → Task → Type 0)
    → ((s t : Task) → R s t → S s t)
    → (m m' : Map Task) → Evolves R m m'
    → Evolves S m m'
Evolves-mono R S f m m' h = record {
  forth = λ u t e. let (t', found, r) = h.forth u t e in (t', found, f t t' r);
  back = λ u t' e. let (t, found, r) = h.back u t' e in (t, found, f t t' r);
}

pub Evolves-lookup :
    (R : Task → Task → Type 0) (m m' : Map Task) (g : String → Task → Task)
    → ((u : String) → lookup u m' ≡ Option.map (g u) (lookup u m))
    → ((u : String) (t : Task) → R t (g u t))
    → Evolves R m m'
Evolves-lookup R m m' g view r = record {
  forth = λ u t e. (g u t, ground (arith, view u), r u t);
  back = λ u t' e. elim (Option-cases (lookup u m)) [
    | inl missing ↦ absurd (none-ne-some t' (ground (arith, view u)))
    | inr (t, found) ↦
        let same : t' ≡ g u t = ground (arith, view u) in (t, found, subst (R t) (sym same) (r u t))
  ];
}

pub record Quiet (t t' : Task) : Type 0 where
  pub same_deps : t'.depends_on ≡ t.depends_on
  pub keeps : Keeps t t'
  pub starts : is_ready t' ≡ true → is_ready t ≡ true
  pub succeeds : has_succeeded t' ≡ true → has_succeeded t ≡ true

pub Quiet-refl : (t : Task) → Quiet t t
Quiet-refl t = record { same_deps = refl; keeps = λ h. refl; starts = λ h. h; succeeds = λ h. h }

pub Keeps-trans : (r s t : Task) → Keeps r s → Keeps s t → Keeps r t
unfolding is_finished
Keeps-trans r s t p q h = ground (arith, p h, q)

pub Quiet-trans : (r s t : Task) → Quiet r s → Quiet s t → Quiet r t
Quiet-trans r s t p q = record {
  same_deps = q.same_deps ∙ p.same_deps;
  keeps = Keeps-trans r s t p.keeps q.keeps;
  starts = λ h. p.starts (q.starts h);
  succeeds = λ h. p.succeeds (q.succeeds h);
}

-- A move to a status that starts nothing and succeeds at nothing.
pub moved-Quiet :
    (s : TaskStatus) (t t' : Task)
    → is_target s ≡ true
    → TaskStatus.is_status s TaskStatus.succeeded ≡ false
    → t'.depends_on ≡ t.depends_on
    → t'.status ≡ moved t.status s
    → Quiet t t'
unfolding is_finished is_ready TaskStatus.is_terminated TaskStatus.can_transit_to
moved-Quiet s t t' target unsuccessful deps e = record {
  same_deps = deps;
  keeps = λ h. e ∙ moved_kept t.status s target h;
  starts = λ h. ground (arith, e);
  succeeds = λ h. ground (arith, e);
}

module _ (m m' : Map Task) (quiet : Evolves Quiet m m') where
  all_deps_succeeded-Quiet :
      (deps : List String) → all_deps_succeeded deps m' ≡ true → all_deps_succeeded deps m ≡ true
  unfolding all_deps_succeeded
  all_deps_succeeded-Quiet [] h = refl
  all_deps_succeeded-Quiet (d ∷ deps) h = elim (Option-cases (lookup d m')) [
    | inl missing ↦ absurd (cc (rw (missing, all_deps_succeeded) at h))
    | inr (t', found') ↦
        let (t, found, q) = quiet.back d t' found' in
        ground (arith, q.succeeds, all_deps_succeeded-Quiet deps)
  ]

  -- A quiet change leaves no task that could be made READY, if there was none.
  pub IsMarked-Quiet : IsMarked m → IsMarked m'
  IsMarked-Quiet h u t' e ready =
      let (t, found, q) = quiet.back u t' e in
      let before = h u t found (q.starts ready) in
      ground (arith, q.same_deps, before, all_deps_succeeded-Quiet t.depends_on)

cancel_one-Quiet : (id : String) (t : Task) → Quiet t (cancel_one id t)
cancel_one-Quiet id t = elim (Bool-cases (is_finished t)) [
  | inl done ↦ rw (done, cancel_one) (Quiet-refl t)
  | inr left ↦ elim (Bool-cases (contains t.depends_on id)) [
    | inl hit ↦
        rw (left, hit, cancel_one) (moved-Quiet TaskStatus.cancelled t _ refl refl refl refl)
    | inr miss ↦ rw (left, miss, cancel_one) (Quiet-refl t)
  ]
]

-- What `CancelWorkflow` does to a task.
abbrev pub cancel : Task → Task
cancel t = if is_finished t then t else record t { status = moved t.status TaskStatus.cancelled }

pub cancel-Quiet : (t : Task) → Quiet t (cancel t)
cancel-Quiet t = elim (Bool-cases (is_finished t)) [
  | inl done ↦ rw (done, cancel) (Quiet-refl t)
  | inr left ↦ rw (left, cancel) (moved-Quiet TaskStatus.cancelled t _ refl refl refl refl)
]

module _ (now : ℤ) where
  cancel_loop-Quiet : (fuel : ℕ) (c : Pass) → Evolves Quiet c.tasks (cancel_loop now fuel c).tasks
  unfolding cancel_loop cancel_round
  cancel_loop-Quiet zero c = Evolves-refl Quiet Quiet-refl c.tasks
  cancel_loop-Quiet (suc fuel) c = elim (List-cases c.queue) [
    | inl empty ↦ rw (empty, cancel_loop) (Evolves-refl Quiet Quiet-refl c.tasks)
    | inr (id, rest, e) ↦
        rw (e, cancel_loop)
          (Evolves-trans Quiet Quiet-trans c.tasks (cancel_pass now id c.tasks).tasks _
            (rw (cancel_pass-map_values now id c.tasks)
              (Evolves-map_values Quiet (cancel_one id) c.tasks λ u t _. cancel_one-Quiet id t))
            (cancel_loop-Quiet fuel (cancel_round now id rest c)))
  ]

  pub cascade-Quiet : (root : String) (m : Map Task) → Evolves Quiet m (cascade now root m).tasks
  unfolding cascade
  cascade-Quiet root m =
      cancel_loop-Quiet (suc (length m))
        (record { tasks = m; events = []; running = []; queue = root ∷ [] })

  pub cancel_every-map_values : (m : Map Task) → (cancel_every now m).tasks ≡ map_values cancel m
  unfolding cancel_every cancel_task_into update_task_status TaskStatus.can_transit_to is_finished
  cancel_every-map_values [] = refl
  cancel_every-map_values ((k, t) ∷ m) = ground (arith, cancel_every-map_values m)

  abbrev mark_if : Bool → Task → Task
  mark_if b t = if b then mark t else t

  mark_if-Keeps : (b : Bool) (t : Task) → Keeps t (mark_if b t)
  unfolding is_finished TaskStatus.is_terminated TaskStatus.can_transit_to
  mark_if-Keeps b t h = ground arith

  pub mark_ready_tasks-lookup :
      (seconds : ℤ → ℤ) (work : Work) (u : String)
      → lookup u (mark_ready_tasks seconds now work).wf.tasks
        ≡ Option.map
            (mark_if (contains (recompute_ready_tasks work.wf.tasks work.wf.tasks) u))
            (lookup u work.wf.tasks)
  unfolding mark_ready_tasks
  mark_ready_tasks-lookup seconds work u =
      let ids = recompute_ready_tasks work.wf.tasks work.wf.tasks in
      let seen = lookup-mark_all seconds now ids u (start_running now ids work) in
      let same = ap (lookup u) (start_running-tasks now ids work) in
      elim (Option-cases (lookup u work.wf.tasks)) [
        | inl missing ↦ rw missing (seen ∙ rw (same, missing) (ground arith))
        | inr (t, found) ↦ rw found (seen ∙ rw (same, found) (ground arith))
      ]

  -- Marking leaves the statuses of finished tasks alone.
  pub mark_ready_tasks-Keeps :
      (seconds : ℤ → ℤ) (work : Work)
      → Evolves Keeps work.wf.tasks (mark_ready_tasks seconds now work).wf.tasks
  mark_ready_tasks-Keeps seconds work =
      Evolves-lookup Keeps work.wf.tasks (mark_ready_tasks seconds now work).wf.tasks
        (λ u. mark_if (contains (recompute_ready_tasks work.wf.tasks work.wf.tasks) u))
        (mark_ready_tasks-lookup seconds work)
        (λ u t. mark_if-Keeps (contains (recompute_ready_tasks work.wf.tasks work.wf.tasks) u) t)
