-- ===== src/Engine/Guarantees.antt =====
-- infrastructure/control-plane/engine/engine.go: what holds in every state of the engine.
use distributed_workflow_orc.Prelude.{
  ◌≡◌, refl, ◌⊎◌, inl, inr, true, false, [], ◌∷◌, List, String, Map, lookup, some, Bool, arith,
  Bool-cases, Option-cases, has, Memᴰ, ◌||◌, All,
}
use distributed_workflow_orc.Prelude.Int.{ℤ}
use distributed_workflow_orc.Prelude.Maps.{AllValues-lookup, has-lookup}
use mathlib.Core.WellFounded.{Acc}
use distributed_workflow_orc.Domain.TaskStatus
use distributed_workflow_orc.Domain.TaskStatus.{TaskStatus}
use distributed_workflow_orc.Domain.Cycle.Graph.{Dep}
use distributed_workflow_orc.Domain.Task.{Task, is_finished, is_ready}
use distributed_workflow_orc.Domain.Workflow.{Workflow, all_deps_succeeded}
use distributed_workflow_orc.Engine.Handlers.{Engine}
use distributed_workflow_orc.Engine.Evolve.{is_started, is_lost, is_sane}
use distributed_workflow_orc.Engine.Settled.{IsSettled, has_succeeded}
use distributed_workflow_orc.Engine.WellFormed.{IsWellFormed}
use distributed_workflow_orc.Engine.Reachable.{Reachable, Reachable-AllWellFormed}

-- READY, DISPATCHED or RUNNING: the scheduler or a worker has the task.
abbrev pub is_under_way : Task → Bool
is_under_way t =
    TaskStatus.is_status t.status TaskStatus.ready
    || TaskStatus.is_status t.status TaskStatus.dispatched
    || TaskStatus.is_status t.status TaskStatus.running

-- Some dependency has not succeeded.
open_dependency :
    (deps : List String) (m : Map Task)
    → All (λ d. has d m ≡ true) deps
    → all_deps_succeeded deps m ≡ false
    → (d : String) × (s : Task) × Memᴰ d deps × (lookup d m ≡ some s) × (has_succeeded s ≡ false)
unfolding all_deps_succeeded
open_dependency [] m known h = absurd (cc)
open_dependency (d ∷ deps) m known h = elim (Option-cases (lookup d m)) [
  | inl missing ↦ absurd (ground (arith, has-lookup d m, known.0))
  | inr (s, found) ↦ elim (Bool-cases (has_succeeded s)) [
    | inr left ↦ (d, s, Memᴰ.head refl, found, left)
    | inl done ↦
        let (v, r, dep, there, left) =
          open_dependency deps m known.1 (rw (found, done, all_deps_succeeded) at h) in
        (v, r, Memᴰ.tail dep, there, left)
  ]
]

-- A sane task is under way, finished, or can be made READY.
sane-cases :
    (t : Task)
    → is_sane t.status ≡ true
    → is_finished t ≡ false
    → (is_under_way t ≡ true) ⊎ (is_ready t ≡ true)
unfolding is_finished is_ready
sane-cases t sane left = ground arith

not_lost : (t : Task) → has_succeeded t ≡ false → is_finished t ≡ true → is_lost t.status ≡ true
unfolding is_finished
not_lost t h done = ground arith

some_under_way :
    (w : Workflow) (u : String) (t : Task)
    → IsWellFormed w
    → Acc (Dep w.tasks) u
    → lookup u w.tasks ≡ some t
    → is_finished t ≡ false
    → (v : String) × (s : Task) × (lookup v w.tasks ≡ some s) × (is_under_way s ≡ true)
some_under_way w u t h (Acc.intro _ below) found left =
    elim (sane-cases t (h.sound.sane u t found) left) [
      | inl busy ↦ (u, t, found, busy)
      | inr waiting ↦
          let (d, s, dep, there, unsucceeded) =
            open_dependency t.depends_on w.tasks (h.sound.dag.closed u t found)
              (h.marked u t found waiting) in
          elim (Bool-cases (is_finished s)) [
            | inr unfinished ↦ some_under_way w d s h (below d (t, found, dep)) there unfinished
            | inl done ↦
                elim (h.sound.unblocked u t found left d s dep there
                  (not_lost s unsucceeded done)) [ ]
          ]
    ]

module _ (seconds : ℤ → ℤ) (e : Engine) (reachable : Reachable seconds e) (id : String)
    (w : Workflow) (known : lookup id e.workflows ≡ some w) where
  well_formed : IsWellFormed w
  well_formed =
      AllValues-lookup IsWellFormed id e.workflows (Reachable-AllWellFormed seconds e reachable)
        known

  -- In every state that the handlers lead to, a task that is READY, DISPATCHED, RUNNING, SUCCEEDED
  -- or FAILED has dependencies that are all tasks of its workflow, and all SUCCEEDED.
  pub started_after_dependencies :
      (u : String) (t : Task)
      → lookup u w.tasks ≡ some t
      → is_started t.status ≡ true
      → all_deps_succeeded t.depends_on w.tasks ≡ true
  started_after_dependencies = well_formed.sound.started

  -- In every state that the handlers lead to, no unfinished task depends on a task that is FAILED or
  -- CANCELLED.
  pub waits_for_none_lost :
      (u d : String) (t s : Task)
      → lookup u w.tasks ≡ some t
      → lookup d w.tasks ≡ some s
      → Memᴰ d t.depends_on
      → is_finished t ≡ false
      → is_lost s.status ≡ false
  waits_for_none_lost u d t s found there dep left = elim (Bool-cases (is_lost s.status)) [
    | inr fine ↦ fine
    | inl lost ↦ elim (well_formed.sound.unblocked u t found left d s dep there lost) [ ]
  ]

  -- In every state that the handlers lead to, a workflow with an unfinished task has one that is
  -- READY, DISPATCHED or RUNNING: it never waits for nothing.
  pub never_stuck :
      (u : String) (t : Task)
      → lookup u w.tasks ≡ some t
      → is_finished t ≡ false
      → (v : String) × (s : Task) × (lookup v w.tasks ≡ some s) × (is_under_way s ≡ true)
  never_stuck u t found left =
      some_under_way w u t well_formed (well_formed.sound.dag.founded u t found) found left

  -- In every state that the handlers lead to, the status of a workflow tells about its tasks:
  -- SUCCEEDED, that each has; FAILED or CANCELLED, that each is finished; RUNNING, that one is not;
  -- PENDING, that there are none.
  pub status_tells : IsSettled w.status w.tasks
  status_tells = well_formed.settled

  -- In every state that the handlers lead to, a task that could be made READY has a dependency that
  -- has not succeeded.
  pub none_overlooked :
      (u : String) (t : Task)
      → lookup u w.tasks ≡ some t
      → is_ready t ≡ true
      → all_deps_succeeded t.depends_on w.tasks ≡ false
  none_overlooked = well_formed.marked
