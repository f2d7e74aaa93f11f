-- ===== src/Engine/Marking.antt =====
-- infrastructure/control-plane/engine/engine.go: the tasks that `markReadyTasks` makes READY.
use mathlib.Core.Option
use distributed_workflow_orc.Prelude.{
  eq_refl, All-map, some-injective, ◌≡◌, refl, ap, subst, ◌∙◌, inl, inr, Bool, true, false, ◌&&◌,
  ◌||◌, Option, none, some, List, [], ◌∷◌, String, arith, Map, lookup, insert, has, contains,
  if◌then◌else◌, ◌==◌, eq_iff, Bool-cases, String-cases, Option-cases, All,
}
use distributed_workflow_orc.Prelude.Int.{ℤ}
use distributed_workflow_orc.Prelude.Maps.{lookup-insert}
use distributed_workflow_orc.Domain.TaskStatus
use distributed_workflow_orc.Domain.WorkflowStatus
use distributed_workflow_orc.Domain.TaskStatus.{TaskStatus, ready}
use distributed_workflow_orc.Domain.Task.{Task, is_ready}
use distributed_workflow_orc.Domain.Workflow.{all_deps_succeeded}
use distributed_workflow_orc.Domain.Dag.{IsKeyed, Distinct}
use distributed_workflow_orc.Engine.State.{
  mark_ready_tasks, set_workflow_status, start_running, Work, recompute_ready_tasks, mark_one,
  mark_all,
}
use distributed_workflow_orc.Engine.Evolve.{
  all_deps_succeeded-Evolves, Grows-refl, Evolves-insert, is_sane, is_lost, Every, Grows, moved,
  moved-Grows, update_task_status-moved, IsSound, insert-IsSound,
}
use mathlib.Core.Option.{none-ne-some}

-- What marking does to a task.
abbrev pub mark : Task → Task
mark t = record t { status = moved t.status ready }

mark_idem : (a : TaskStatus) → moved (moved a ready) ready ≡ moved a ready
unfolding TaskStatus.can_transit_to
mark_idem a = ground arith

abbrev MayStart : Map Task → String → Type 0
MayStart m id = (t : Task) → lookup id m ≡ some t → all_deps_succeeded t.depends_on m ≡ true

module _ (seconds : ℤ → ℤ) (now : ℤ) where
  mark_one-found :
      (id : String) (t : Task) (work : Work)
      → lookup id work.wf.tasks ≡ some t
      → (mark_one seconds now id work).wf.tasks ≡ insert id (mark t) work.wf.tasks
  unfolding mark_one
  mark_one-found id t work e = rw (e, mark_one) (rw (update_task_status-moved now ready t) refl)

  mark_one-missing :
      (id : String) (work : Work)
      → lookup id work.wf.tasks ≡ none
      → (mark_one seconds now id work).wf.tasks ≡ work.wf.tasks
  unfolding mark_one
  mark_one-missing id work e = rw (e, mark_one) refl

  abbrev marked_if : Bool → Option Task → Option Task
  marked_if b o = if b then Option.map mark o else o

  lookup-mark_one :
      (id u : String) (work : Work)
      → lookup u (mark_one seconds now id work).wf.tasks
        ≡ marked_if (id == u) (lookup u work.wf.tasks)
  lookup-mark_one id u work = elim (Option-cases (lookup id work.wf.tasks)) [
    | inl missing ↦ rw (mark_one-missing id work missing) (elim (String-cases id u) [
      | inl (p, hit) ↦ rw (hit, ← p, missing) refl
      | inr (p, miss) ↦ rw miss refl
    ])
    | inr (t, found) ↦
        rw (mark_one-found id t work found, lookup-insert id u (mark t) work.wf.tasks)
          (elim (String-cases id u) [
            | inl (p, hit) ↦ rw (hit, ← p, found) refl
            | inr (p, miss) ↦ rw miss refl
          ])
  ]

  marked_if-marked_if :
      (a b : Bool) (o : Option Task) → marked_if a (marked_if b o) ≡ marked_if (b || a) o
  marked_if-marked_if a b none = ground arith
  marked_if-marked_if a b (some t) = ground (arith, mark_idem t.status)

  -- Marking a list of ids marks each of their tasks, once.
  pub lookup-mark_all :
      (ids : List String) (u : String) (work : Work)
      → lookup u (mark_all seconds now ids work).wf.tasks
        ≡ marked_if (contains ids u) (lookup u work.wf.tasks)
  unfolding mark_all
  lookup-mark_all [] u work = refl
  lookup-mark_all (id ∷ ids) u work =
      lookup-mark_all ids u (mark_one seconds now id work)
      ∙ ap (marked_if (contains ids u)) (lookup-mark_one id u work)
      ∙ marked_if-marked_if (contains ids u) (id == u) (lookup u work.wf.tasks)

  moved_lost : (a : TaskStatus) → is_lost (moved a ready) ≡ true → is_lost a ≡ true
  unfolding TaskStatus.can_transit_to
  moved_lost a h = ground arith

  mark_one-MayStart :
      (id : String) (t : Task) (m : Map Task) (ids : List String)
      → lookup id m ≡ some t
      → Grows m t (mark t)
      → All (MayStart m) ids
      → All (MayStart (insert id (mark t) m)) ids
  mark_one-MayStart id t m ids found grows h =
      let evolves = Evolves-insert (Grows m) id t (mark t) m found grows (Grows-refl m) in
      All-map
        (λ j may s' e.
          let (s, before, g) = evolves.back j s' e in
          rw g.same_deps (
            all_deps_succeeded-Evolves m (insert id (mark t) m) evolves s.depends_on
              (may s before)))
        ids h

  mark_all-IsSound :
      (ids : List String) (work : Work)
      → All (MayStart work.wf.tasks) ids
      → IsSound [] work.wf.tasks
      → IsSound [] (mark_all seconds now ids work).wf.tasks
  unfolding mark_all
  mark_all-IsSound [] work may h = h
  mark_all-IsSound (id ∷ ids) work may h = elim (Option-cases (lookup id work.wf.tasks)) [
    | inl missing ↦
        let same = mark_one-missing id work missing in
        mark_all-IsSound ids (mark_one seconds now id work) (rw same may.1) (rw same h)
    | inr (t, found) ↦
        let same = mark_one-found id t work found in
        let grows =
          moved-Grows work.wf.tasks ready t refl (h.sane id t found) (λ _. inr (may.0 t found)) in
        mark_all-IsSound ids (mark_one seconds now id work)
          (rw same (mark_one-MayStart id t work.wf.tasks ids found grows may.1))
          (rw same (
            insert-IsSound [] id t (mark t) work.wf.tasks found grows
              (λ lost. inl (moved_lost t.status lost)) h))
  ]

  moved_succeeded :
      (a : TaskStatus)
      → TaskStatus.is_status (moved a ready) TaskStatus.succeeded
        ≡ TaskStatus.is_status a TaskStatus.succeeded
  unfolding TaskStatus.can_transit_to
  moved_succeeded a = ground arith

  -- Marking changes nobody's dependencies.
  all_deps_succeeded-mark_all :
      (ids : List String) (work : Work) (deps : List String)
      → all_deps_succeeded deps (mark_all seconds now ids work).wf.tasks
        ≡ all_deps_succeeded deps work.wf.tasks
  unfolding all_deps_succeeded
  all_deps_succeeded-mark_all ids work [] = refl
  all_deps_succeeded-mark_all ids work (d ∷ deps) = elim (Option-cases (lookup d work.wf.tasks)) [
    | inl missing ↦ rw (lookup-mark_all ids d work, missing, all_deps_succeeded) (ground arith)
    | inr (t, found) ↦
        rw (lookup-mark_all ids d work, found, all_deps_succeeded)
          (ground (arith, moved_succeeded t.status, all_deps_succeeded-mark_all ids work deps))
  ]

contains-recompute-has :
    (all m : Map Task) (u : String)
    → IsKeyed m
    → contains (recompute_ready_tasks all m) u ≡ true
    → has u m ≡ true
unfolding recompute_ready_tasks
contains-recompute-has all [] u keyed h = h
contains-recompute-has all ((k, t) ∷ m) u keyed h =
    ground (arith, keyed.0, contains-recompute-has all m u)

-- The ids that `recomputeReadyTasks` returns are those of the tasks that may start.
pub contains-recompute :
    (all m : Map Task) (u : String) (t : Task)
    → IsKeyed m
    → Distinct m
    → lookup u m ≡ some t
    → contains (recompute_ready_tasks all m) u ≡ is_ready t && all_deps_succeeded t.depends_on all
unfolding recompute_ready_tasks
contains-recompute all [] u t keyed distinct e = absurd (cc)
contains-recompute all ((k, s) ∷ m) u t keyed distinct e = elim (Bool-cases (k == u)) [
  | inl hit ↦ rw (← some-injective s t (rw hit at e)) (
      ground (
        arith,
        ap (λ j. j == u) keyed.0,
        contains-recompute-has all m u keyed.1,
        subst (λ j. has j m ≡ false) ((eq_iff k u).0 hit) distinct.0,
      ))
  | inr miss ↦ ground (
    arith,
    ap (λ j. j == u) keyed.0,
    contains-recompute all m u t keyed.1 distinct.1 (rw miss at e),
  )
]

-- No task is left that could be made READY.
abbrev pub IsMarked : Map Task → Type 0
IsMarked m = Every (λ t. is_ready t ≡ true → all_deps_succeeded t.depends_on m ≡ false) m

pub start_running-tasks :
    (now : ℤ) (ids : List String) (work : Work)
    → (start_running now ids work).wf.tasks ≡ work.wf.tasks
unfolding start_running set_workflow_status WorkflowStatus.can_transit_to
start_running-tasks now ids work = ground arith

All-contains :
    {P : String → Type 0} (xs : List String)
    → ((u : String) → contains xs u ≡ true → P u)
    → All P xs
All-contains [] h = tt
All-contains (x ∷ xs) h =
    (h x (ground (arith, eq_refl x)), All-contains xs (λ u c. h u (ground (arith))))

recompute-MayStart :
    (m : Map Task) → IsKeyed m → Distinct m → All (MayStart m) (recompute_ready_tasks m m)
recompute-MayStart m keyed distinct =
    All-contains (recompute_ready_tasks m m)
      λ u c t found. ground (arith, contains-recompute m m u t keyed distinct found)

module _ (seconds : ℤ → ℤ) (now : ℤ) where
  abbrev marked : Work → Work
  marked work = mark_ready_tasks seconds now work

  -- `markReadyTasks` keeps a workflow sound: it starts only tasks whose dependencies have succeeded.
  pub mark_ready_tasks-IsSound :
      (work : Work) → IsSound [] work.wf.tasks → IsSound [] (marked work).wf.tasks
  unfolding mark_ready_tasks
  mark_ready_tasks-IsSound work h =
      let ids = recompute_ready_tasks work.wf.tasks work.wf.tasks in
      let same = start_running-tasks now ids work in
      mark_all-IsSound seconds now ids (start_running now ids work)
        (rw same (recompute-MayStart work.wf.tasks h.dag.keyed h.dag.distinct)) (rw same h)

  moved_not-ready : (t : Task) → is_sane t.status ≡ true → is_ready (mark t) ≡ false
  unfolding is_ready TaskStatus.can_transit_to
  moved_not-ready t h = ground arith

  -- A task after marking, from the one before.
  after-mark_all :
      (ids : List String) (work : Work) (u : String) (t t' : Task)
      → lookup u work.wf.tasks ≡ some t
      → lookup u (mark_all seconds now ids work).wf.tasks ≡ some t'
      → t' ≡ (if contains ids u then mark t else t)
  after-mark_all ids work u t t' before after =
      ground (arith, lookup-mark_all seconds now ids u work)

  -- In a sound workflow `markReadyTasks` leaves no task that could be made READY.
  pub mark_ready_tasks-IsMarked :
      (work : Work) → IsSound [] work.wf.tasks → IsMarked (marked work).wf.tasks
  unfolding mark_ready_tasks
  mark_ready_tasks-IsMarked work h u t' found' pending' =
      let m = work.wf.tasks in
      let ids = recompute_ready_tasks m m in
      let same = start_running-tasks now ids work in
      let begun = start_running now ids work in
      let view = lookup-mark_all seconds now ids u begun in
      elim (Option-cases (lookup u m)) [
        | inl missing ↦ absurd (none-ne-some t' (ground (arith, view)))
        | inr (t, found) ↦
            let seen = after-mark_all ids begun u t t' (ap (lookup u) same ∙ found) found' in
            rw (all_deps_succeeded-mark_all seconds now ids begun t'.depends_on, same)
              (elim (Bool-cases (contains ids u)) [
                | inl listed ↦
                    let pending =
                      subst (λ (z : Task). is_ready z ≡ true) (rw listed at seen) pending' in
                    absurd (cc (pending, moved_not-ready t (h.sane u t found)))
                | inr unlisted ↦
                    let kept : t' ≡ t = rw unlisted at seen in
                    rw kept (
                      ground (
                        arith,
                        subst (λ (z : Task). is_ready z ≡ true) kept pending',
                        contains-recompute m m u t h.dag.keyed h.dag.distinct found,
                      ))
              ])
      ]
